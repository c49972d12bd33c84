-- ===== src/Core/Policy/Flat.antt =====
-- `effective_policy_from_sorted`: resolution over rows that are already in order and may name no
-- owner.
use zoen_gateway.Prelude.{
  ℕ, Bool, Option, none, some, List, [], ◌∷◌, ◌++◌, ◌≡◌, refl, ltb, if◌then◌else◌, any, arith, map,
  unwrap_or, ap,
}
use zoen_gateway.Prelude.Text.{Text, ascii, text_eq}
use zoen_gateway.Prelude.Sort.{sort_by}
use zoen_gateway.Core.Owner
use zoen_gateway.Core.Owner.{Owner, org, user, as_str, same_iff}
use zoen_gateway.Core.Policy.{
  PolicyAction, restriction_rank, ToolPolicy, PolicyMatch, EffectivePolicy, default_policy,
  match_of, match_pattern, compare_policies, first_matches, more_restrictive, select_match,
  resolve_tool_policy, effective_policy,
}
use zoen_gateway.Core.Policy
use zoen_gateway.Core.Policy.Resolution.{resolve_eq}

pub record FlatRow : Type 0 where
  pub id : Text
  pub pattern : Text
  pub action : PolicyAction
  pub owner : Option Owner

abbrev owner_key : Option Owner → Text
owner_key none = ascii "__flat__"
owner_key (some o) = as_str o

abbrev user_policy : PolicyMatch → EffectivePolicy
user_policy m = record {
  action = m.action;
  source = Policy.user;
  pattern = some m.pattern;
  policy_id = some m.policy_id;
}

-- The first loop, over the rows.
unfoldable pub first_flat :
    Text → List (Text × EffectivePolicy) → List FlatRow → List (Text × EffectivePolicy)
unfolding as_str
first_flat tool_id found [] = found
first_flat tool_id found (row ∷ rows) =
    first_flat tool_id
      (if any (λ e. text_eq e.0 (owner_key row.owner)) found
        then found
        else if match_pattern row.pattern tool_id
        then found
          ++ (
            owner_key row.owner,
            user_policy (record { action = row.action; pattern = row.pattern; policy_id = row.id }),
          )
            ∷ []
        else found)
      rows

-- The second loop, over the first matches.
unfoldable pub select_flat :
    Option EffectivePolicy → List (Text × EffectivePolicy) → Option EffectivePolicy
select_flat selected [] = selected
select_flat none ((k, m) ∷ rest) = select_flat (some m) rest
select_flat (some cur) ((k, m) ∷ rest) =
    select_flat
      (some (if ltb (restriction_rank cur.action) (restriction_rank m.action) then m else cur)) rest

unfoldable pub effective_policy_from_sorted : Text → List FlatRow → Bool → EffectivePolicy
effective_policy_from_sorted tool_id rows default_requires_approval =
    unwrap_or (select_flat none (first_flat tool_id [] rows))
      (default_policy default_requires_approval)

abbrev pub flat_row : ToolPolicy → FlatRow
flat_row p = record { id = p.id; pattern = p.pattern; action = p.action; owner = some p.owner }

abbrev keyed : Owner × PolicyMatch → Text × EffectivePolicy
keyed (o, m) = (as_str o, user_policy m)

as_str_eq : (a b : Owner) → text_eq (as_str a) (as_str b) ≡ Owner.same a b
unfolding as_str text_eq
as_str_eq org org = refl
as_str_eq org user = refl
as_str_eq user org = refl
as_str_eq user user = refl

any-map :
    (o : Owner) (found : List (Owner × PolicyMatch))
    → any (λ e. text_eq e.0 (as_str o)) (map keyed found) ≡ any (λ e. Owner.same e.0 o) found
any-map o [] = refl
any-map o ((p, m) ∷ found) = ground (arith, as_str_eq p o, any-map o found)

map-append_one :
    (found : List (Owner × PolicyMatch)) (e : Owner × PolicyMatch)
    → map keyed (found ++ e ∷ []) ≡ map keyed found ++ keyed e ∷ []
map-append_one [] e = refl
map-append_one (x ∷ found) e = ap (λ l. keyed x ∷ l) (map-append_one found e)

first_flat-map :
    (tool_id : Text) (found : List (Owner × PolicyMatch)) (rows : List ToolPolicy)
    → first_flat tool_id (map keyed found) (map flat_row rows)
      ≡ map keyed (first_matches tool_id found rows)
unfolding first_flat first_matches
first_flat-map tool_id found [] = refl
first_flat-map tool_id found (row ∷ rows) = ground (
  arith,
  any-map row.owner found,
  map-append_one found (row.owner, match_of row),
  first_flat-map tool_id found rows,
  first_flat-map tool_id (found ++ (row.owner, match_of row) ∷ []) rows,
)

abbrev user_policy? : Option PolicyMatch → Option EffectivePolicy
user_policy? none = none
user_policy? (some m) = some (user_policy m)

select_flat-map :
    (selected : Option PolicyMatch) (found : List (Owner × PolicyMatch))
    → select_flat (user_policy? selected) (map keyed found)
      ≡ user_policy? (select_match selected found)
unfolding select_flat select_match
select_flat-map selected [] = refl
select_flat-map none ((o, m) ∷ found) = select_flat-map (some m) found
select_flat-map (some c) ((o, m) ∷ found) =
    ground (arith, select_flat-map (some c) found, select_flat-map (some m) found)

-- On rows in the order of the stored policies, the resolution over flat rows gives the same gate as
-- the resolution over the policies, whatever the owners' ranks.
pub effective_policy_from_sorted_lem :
    (tool_id : Text) (policies : List ToolPolicy) (owner_rank : Owner → ℕ) (d : Bool)
    → effective_policy_from_sorted tool_id
        (map flat_row (sort_by (compare_policies owner_rank) policies))
        d
      ≡ effective_policy tool_id policies owner_rank d
unfolding effective_policy_from_sorted effective_policy
effective_policy_from_sorted_lem tool_id policies owner_rank d =
    let rows = sort_by (compare_policies owner_rank) policies in
    ground (
      arith,
      first_flat-map tool_id [] rows,
      select_flat-map none (first_matches tool_id [] rows),
      resolve_eq owner_rank tool_id policies,
    )
