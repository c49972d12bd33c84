-- ===== src/Core/Policy.antt =====
-- crates/executor-core/src/policy.rs: tool policies, their patterns and their resolution.
-- A stored row is a record; a resolved gate says where it comes from.
mod Pattern
pub mod Flat
pub mod Grammar
pub mod Matching
pub mod Resolution
pub mod Selection
unfoldable pub use Pattern.{is_valid_pattern, match_from, match_pattern, pattern_specificity}
use Prim.Native.Nat.{compare, Ordering}
use zoen_gateway.Prelude.{
  ℕ, ◌+◌, ◌-◌, ◌*◌, ◌^◌, Bool, true, false, Option, none, some, List, [], ◌∷◌, ◌++◌, arith, ltb,
  leb, ◌==◌, ◌||◌, ◌&&◌, if◌then◌else◌, length, get_elem?, any, zero, suc,
}
use zoen_gateway.Prelude.Text.{Text, ascii, text_eq, text_cmp}
use zoen_gateway.Prelude.Sort.{then_with, is_gt, sort_by}
use zoen_gateway.Core.Owner
use zoen_gateway.Core.Owner.{Owner}
use zoen_gateway.Core.Position.{generate_key_between}

pub data PolicyAction : Type 0 where
  approve require_approval block : PolicyAction

unfoldable pub restriction_rank : PolicyAction → ℕ
restriction_rank approve = 1
restriction_rank require_approval = 2
restriction_rank block = 3

unfoldable pub tighten : PolicyAction → PolicyAction → PolicyAction
unfolding restriction_rank
tighten a b = if ltb (restriction_rank a) (restriction_rank b) then b else a

-- `PolicyPattern::new`: only a valid pattern is kept; the error names the text.
unfoldable pub new_pattern : Text → Option Text
new_pattern raw = if is_valid_pattern raw then some raw else none

pub record ToolPolicy : Type 0 where
  pub id : Text
  pub owner : Owner
  pub pattern : Text
  pub action : PolicyAction
  pub position : Text

pub record PolicyMatch : Type 0 where
  pub action : PolicyAction
  pub pattern : Text
  pub policy_id : Text

pub data PolicySource : Type 0 where
  user plugin_default : PolicySource

pub record EffectivePolicy : Type 0 where
  pub action : PolicyAction
  pub source : PolicySource
  pub pattern : Option Text
  pub policy_id : Option Text

-- `EffectivePolicy::plugin_default`
abbrev pub default_policy : Bool → EffectivePolicy
default_policy requires_approval = record {
  action = if requires_approval then require_approval else approve;
  source = plugin_default;
  pattern = none;
  policy_id = none;
}

unfoldable pub compare_policy_row : Text → Text → Text → Text → Ordering
compare_policy_row a_position a_id b_position b_id =
    then_with (text_cmp a_position b_position) (text_cmp a_id b_id)

-- A row of `position_for_new_pattern`: pattern, position, id.
pub record CommittedRow : Type 0 where
  pub pattern : Text
  pub position : Text
  pub id : Text

-- `Iterator::position`: the index of the first row that is not more specific.
unfoldable pub first_not_above : ℕ → List CommittedRow → ℕ
first_not_above score [] = 0
first_not_above score (r ∷ rows) =
    let later = first_not_above score rows in
    if leb (pattern_specificity r.pattern) score then 0 else later + 1

abbrev position_of : Option CommittedRow → Option Text
position_of none = none
position_of (some r) = some r.position

abbrev row_before : List CommittedRow → ℕ → Option CommittedRow
row_before rows zero = none
row_before rows (suc i) = get_elem? rows i

unfoldable pub compare_rows : CommittedRow → CommittedRow → Ordering
unfolding compare_policy_row
compare_rows a b = compare_policy_row a.position a.id b.position b.id

unfoldable pub position_for_new_pattern : (Text → Bool) → Text → List CommittedRow → Text
unfolding compare_rows first_not_above
position_for_new_pattern from_utf8 pattern rows =
    let committed : List CommittedRow = sort_by compare_rows rows in
    let idx = first_not_above (pattern_specificity pattern) committed in
    generate_key_between from_utf8 (position_of (row_before committed idx))
      (position_of (get_elem? committed idx))

abbrev pub match_of : ToolPolicy → PolicyMatch
match_of row = record { action = row.action; pattern = row.pattern; policy_id = row.id }

unfoldable pub more_restrictive : Option PolicyMatch → PolicyMatch → PolicyMatch
unfolding restriction_rank
more_restrictive none candidate = candidate
more_restrictive (some cur) candidate =
    if ltb (restriction_rank cur.action) (restriction_rank candidate.action) then candidate else cur

-- The loop over the sorted rows: the first match of each owner, in the order of the rows.
unfoldable pub first_matches :
    Text → List (Owner × PolicyMatch) → List ToolPolicy → List (Owner × PolicyMatch)
first_matches tool_id found [] = found
first_matches tool_id found (row ∷ rows) =
    first_matches tool_id
      (if any (λ e. Owner.same e.0 row.owner) found
        then found
        else if match_pattern row.pattern tool_id
        then found ++ (row.owner, match_of row) ∷ []
        else found)
      rows

-- The loop over the first matches.
unfoldable pub select_match : Option PolicyMatch → List (Owner × PolicyMatch) → Option PolicyMatch
unfolding more_restrictive
select_match selected [] = selected
select_match selected ((o, m) ∷ rest) = select_match (some (more_restrictive selected m)) rest

-- The order of the rows: by the owner's rank, then by position and id.
unfoldable pub compare_policies : (Owner → ℕ) → ToolPolicy → ToolPolicy → Ordering
unfolding compare_policy_row
compare_policies owner_rank a b =
    then_with (compare (owner_rank a.owner) (owner_rank b.owner))
      (compare_policy_row a.position a.id b.position b.id)

unfoldable pub resolve_tool_policy : Text → List ToolPolicy → (Owner → ℕ) → Option PolicyMatch
unfolding first_matches select_match compare_policies
resolve_tool_policy tool_id [] owner_rank = none
resolve_tool_policy tool_id (p ∷ ps) owner_rank =
    select_match none (first_matches tool_id [] (sort_by (compare_policies owner_rank) (p ∷ ps)))

unfoldable pub effective_policy : Text → List ToolPolicy → (Owner → ℕ) → Bool → EffectivePolicy
effective_policy tool_id policies owner_rank default_requires_approval =
    elim (resolve_tool_policy tool_id policies owner_rank) [
      | some m ↦ record {
        action = m.action;
        source = user;
        pattern = some m.pattern;
        policy_id = some m.policy_id;
      }
      | none ↦ default_policy default_requires_approval
    ]
