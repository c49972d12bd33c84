-- ===== src/Engine/Execute/Persist.antt =====
-- What the answer to a paused execution carries: a choice to remember, and fields for the arguments.
use zoen_gateway.Prelude.{
  ℕ, ◌∷◌, [], ◌++◌, Bool, true, Option, none, some, List, if◌then◌else◌, and_then, or_else, ◌&&◌,
  leb, ◌+◌,
}
use zoen_gateway.Prelude.Text.{Text, ascii, text_eq}
use zoen_gateway.Prelude.Trim.{trim, decimal}
use zoen_gateway.Prelude.Json.{
  Value, null, bool, string, object, Fields, end, field, as_str, get, insert_field, remove_field,
}
use zoen_gateway.Prelude.Effect.{Result, ok, err}
use zoen_gateway.Core.Owner
use zoen_gateway.Core.Owner.{org}
use zoen_gateway.Core.Policy.{
  ToolPolicy, approve, new_pattern, CommittedRow, position_for_new_pattern,
}
use zoen_gateway.Core.Execution.{PersistChoice, session, always}
use zoen_gateway.Core.Store.{MemoryInner, put_kv, put_policy, list_policies}
use zoen_gateway.Engine.Error.{ExecutorError, invalid_pattern}

-- `to_ascii_lowercase`
abbrev pub lower : Text → Text
lower [] = []
lower (a ∷ s) = (if leb b'A' a && leb a b'Z' then a + 32 else a) ∷ lower s

unfoldable pub parse_choice : Text → Option PersistChoice
parse_choice raw =
    if text_eq (lower (trim raw)) (ascii "session")
    then some session
    else if text_eq (lower (trim raw)) (ascii "always")
    then some always
    else none

-- The choice is no field of the arguments; what is left may be nothing.
abbrev pub left_over : Value → Option Value
left_over null = none
left_over (object fs) = elim (remove_field (ascii "persist") fs) [
  | end ↦ none
  | field k v rest ↦ some (object (field k v rest))
]
left_over v = some v

unfoldable pub split_persist :
    Option PersistChoice → Option Value → Option PersistChoice × Option Value
split_persist explicit none = (explicit, none)
split_persist explicit (some content) = (
  or_else explicit (and_then (and_then (get (ascii "persist") content) as_str) parse_choice),
  left_over content,
)

-- Every field of the second object is put into the first.
unfoldable pub merge_fields : Fields → Fields → Fields
merge_fields base end = base
merge_fields base (field k v extra) = merge_fields (insert_field k v base) extra

unfoldable pub merge_resume_content : Value → Option Value → Value
merge_resume_content args none = args
merge_resume_content (object base) (some (object extra)) = object (merge_fields base extra)
merge_resume_content args (some content) = content

-- The rows of the org, as the ordering of positions reads them.
abbrev pub org_rows : List ToolPolicy → List CommittedRow
org_rows [] = []
org_rows (p ∷ ps) =
    let rest = org_rows ps in
    if Owner.same p.owner org
    then record { pattern = p.pattern; position = p.position; id = p.id } ∷ rest
    else rest

abbrev pub remember : Text → Value → MemoryInner → MemoryInner
remember address body = put_kv (ascii "session_approvals") address body

abbrev pub path_field : Text → Fields
path_field address = field (ascii "path") (string address) end

abbrev pub approve_always : (Text → Bool) → Text → Text → ℕ → MemoryInner → MemoryInner
approve_always from_utf8 pattern address now s =
    put_policy
      (record {
        id = ascii "pol_persist_" ++ decimal now;
        owner = org;
        pattern = pattern;
        action = approve;
        position = position_for_new_pattern from_utf8 address (org_rows (list_policies s));
      })
      s

-- The choice `always` on an address that is no pattern fails after the approval is remembered.
unfoldable pub apply_persist :
    (Text → Bool)
    → PersistChoice
    → Text
    → ℕ
    → MemoryInner
    → Result ExecutorError (Unit {0}) × MemoryInner
apply_persist from_utf8 session address now s =
    (ok tt, remember address (object (field (ascii "approved") (bool true) (path_field address))) s)
apply_persist from_utf8 always address now s =
    let s' =
      remember address
        (object (
          field (ascii "approved") (bool true) (
            field (ascii "path") (string address)
              (field (ascii "scope") (string (ascii "always")) end))))
        s in
    if text_eq address [] then (ok tt, s) else elim (new_pattern address) [
      | none ↦ (err (invalid_pattern address), s')
      | some pattern ↦ (ok tt, approve_always from_utf8 pattern address now s')
    ]
