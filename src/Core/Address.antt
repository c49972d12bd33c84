-- ===== src/Core/Address.antt =====
-- crates/executor-core/src/address.rs: the address of a tool,
-- `tools.<integration>.<owner>.<connection>.<tool>`, of which only the tool may contain dots.
pub mod RoundTrip
use zoen_gateway.Prelude.{
  ℕ, zero, suc, Bool, true, false, Option, none, some, List, [], ◌∷◌, ◌++◌, if◌then◌else◌, ◌==◌,
  ◌||◌, not, and_then,
}
use zoen_gateway.Prelude.Text.{Text, ascii, text_eq, split}
use zoen_gateway.Prelude.Effect.{Result, ok, err}
use zoen_gateway.Core.Owner
use zoen_gateway.Core.Owner.{Owner}
use zoen_gateway.Core.Id.{new_opaque, new_slug}

pub record ToolAddress : Type 0 where
  pub integration : Text
  pub owner : Owner
  pub connection : Text
  pub tool : Text

-- A dot between two texts.
infixr 40 ◌·◌
abbrev pub ◌·◌ : Text → Text → Text
s · t = s ++ 46 ∷ t

unfoldable pub sandbox_path : ToolAddress → Text
sandbox_path a = a.integration · Owner.as_str a.owner · a.connection · a.tool

-- `Display`
unfoldable pub to_string : ToolAddress → Text
to_string a = ascii "tools" · a.integration · Owner.as_str a.owner · a.connection · a.tool

-- `find('.')`: what stands before the first dot and behind it.
unfoldable pub find_dot : Text → Option (Text × Text)
find_dot [] = none
find_dot (a ∷ s) =
    let rest = find_dot s in
    if a == 46 then some ([], s) else elim rest [ none ↦ none | some (h, t) ↦ some (a ∷ h, t) ]

-- The loop that walks to a dot: the head before it, its dots included, and what follows it.
unfoldable pub walk : ℕ → Text → Option (Text × Text)
walk zero s = none
walk (suc zero) s = find_dot s
walk (suc (suc n)) s =
    and_then (find_dot s) (λ p. and_then (walk (suc n) p.1) (λ q. some (p.0 · q.0, q.1)))

abbrev pub is_ok_id : {E : Type 0} → Result E Text → Option Text
is_ok_id (ok id) = some id
is_ok_id (err e) = none

-- The parts of an address, each through its constructor.
unfoldable pub assemble : Text → Text → Text → Text → Option ToolAddress
assemble integration owner connection tool = and_then (Owner.parse owner) (λ owner'.
    if text_eq integration [] || (text_eq connection [] || text_eq tool [])
    then none
    else and_then (is_ok_id (new_slug integration)) (λ integration'.
      and_then (is_ok_id (new_slug connection)) (λ connection'.
        and_then (is_ok_id (new_opaque tool)) (λ tool'. some (record {
          integration = integration';
          owner = owner';
          connection = connection';
          tool = tool';
        })))))

abbrev pub of_segments : List Text → Text → Option ToolAddress
of_segments (prefix ∷ integration ∷ owner ∷ connection ∷ []) tool =
    if not (text_eq prefix (ascii "tools"))
    then none
    else assemble integration owner connection tool
of_segments _ tool = none

unfoldable pub parse_tool_address : Text → Option ToolAddress
parse_tool_address address = and_then (walk 4 address) (λ p. of_segments (split 46 p.0) p.1)
