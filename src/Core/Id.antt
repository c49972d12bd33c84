-- ===== src/Core/Id.antt =====
-- crates/executor-core/src/id.rs: the constructors of the branded identifiers, which are texts.
use zoen_gateway.Prelude.{[], if◌then◌else◌}
use zoen_gateway.Prelude.Text.{Text, text_eq, has_byte}
use zoen_gateway.Prelude.Trim.{trim}
use zoen_gateway.Prelude.Effect.{Result, ok, err}

pub data Complaint : Type 0 where
  must_be_non_empty must_not_contain_dot : Complaint

-- `InvalidId`, less the name of the kind of identifier.
pub record InvalidId : Type 0 where
  pub value : Text
  pub reason : Complaint

-- `opaque_id!`: not empty after `trim`.
unfoldable pub new_opaque : Text → Result InvalidId Text
new_opaque raw =
    if text_eq (trim raw) []
    then err (record { value = raw; reason = must_be_non_empty })
    else ok (trim raw)

-- `slug_id!`: moreover without a dot.
unfoldable pub new_slug : Text → Result InvalidId Text
new_slug raw =
    if text_eq (trim raw) []
    then err (record { value = raw; reason = must_be_non_empty })
    else if has_byte 46 (trim raw)
    then err (record { value = trim raw; reason = must_not_contain_dot })
    else ok (trim raw)
