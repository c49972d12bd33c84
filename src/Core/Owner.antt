-- ===== src/Core/Owner.antt =====
-- crates/executor-core/src/owner.rs: who owns a connection or a policy.
use zoen_gateway.Prelude.{ℕ, Bool, true, false, Option, none, some, ◌≡◌, ◌↔◌, arith, if◌then◌else◌}
use zoen_gateway.Prelude.Text.{Text, ascii, text_eq, text_eq_iff}

pub data Owner : Type 0 where
  org user : Owner

unfoldable pub parse : Text → Option Owner
parse raw =
    if text_eq raw (ascii "org")
    then some org
    else if text_eq raw (ascii "user")
    then some user
    else none

unfoldable pub as_str : Owner → Text
as_str org = ascii "org"
as_str user = ascii "user"

-- The org is the guardrail, the user is inner.
unfoldable pub outer_rank : Owner → ℕ
outer_rank user = 0
outer_rank org = 1

-- The derived `==`.
abbrev pub same : Owner → Owner → Bool
same org org = true
same user user = true
same _ _ = false

pub same_iff : (a b : Owner) → (same a b ≡ true) ↔ (a ≡ b)
same_iff org org = ground arith
same_iff org user = ground arith
same_iff user org = ground arith
same_iff user user = ground arith

-- An owner is read back from its wire form, and no other text is read as it.
pub parse-as_str : (raw : Text) (o : Owner) → (parse raw ≡ some o) ↔ (raw ≡ as_str o)
unfolding parse as_str
parse-as_str raw org = ground (arith, text_eq_iff raw (ascii "org"), text_eq_iff raw (ascii "user"))
parse-as_str raw user =
    ground (arith, text_eq_iff raw (ascii "org"), text_eq_iff raw (ascii "user"))
