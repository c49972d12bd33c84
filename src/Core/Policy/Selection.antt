-- ===== src/Core/Policy/Selection.antt =====
-- The two loops of `resolve_tool_policy`: the first match of each owner, and the most restrictive.
use zoen_gateway.Prelude.{
  ◌≤◌, Bool, true, false, Option, none, some, List, [], ◌∷◌, ◌++◌, ◌≡◌, ◌↔◌, refl, ap, ◌∙◌, ◌⊎◌,
  ◌&&◌, any, find_first, arith, inl, inr, In, In-append,
}
use zoen_gateway.Prelude.Text.{Text}
use zoen_gateway.Core.Owner
use zoen_gateway.Core.Owner.{Owner, org, user, same_iff}
use zoen_gateway.Core.Policy.{
  restriction_rank, ToolPolicy, PolicyMatch, match_of, match_pattern, more_restrictive,
  first_matches, select_match,
}

-- A row of the owner that matches the tool.
abbrev pub applies : Text → Owner → ToolPolicy → Bool
applies tool_id o r = Owner.same r.owner o && match_pattern r.pattern tool_id

abbrev pub first_of : Text → Owner → List ToolPolicy → Option ToolPolicy
first_of tool_id o rows = find_first (applies tool_id o) rows

abbrev pub match_of? : Option ToolPolicy → Option PolicyMatch
match_of? none = none
match_of? (some r) = some (match_of r)

abbrev has : Owner → List (Owner × PolicyMatch) → Bool
has o found = any (λ e. Owner.same e.0 o) found

has-append :
    (o : Owner) (found : List (Owner × PolicyMatch)) (p : Owner) (m : PolicyMatch)
    → (has o (found ++ (p, m) ∷ []) ≡ true) ↔ ((has o found ≡ true) ⊎ (p ≡ o))
has-append o [] p m = ground (arith, same_iff p o)
has-append o ((q, n) ∷ found) p m = ground (arith, has-append o found p m)

-- What the first loop holds was there before, or is the first match of an owner with none before.
pub first_matches_sound :
    (tool_id : Text) (found : List (Owner × PolicyMatch)) (rows : List ToolPolicy) (o : Owner)
    (m : PolicyMatch)
    → In (o, m) (first_matches tool_id found rows)
    → In (o, m) found ⊎ ((has o found ≡ false) × (match_of? (first_of tool_id o rows) ≡ some m))
unfolding first_matches
first_matches_sound tool_id found [] o m h = inl h
first_matches_sound tool_id found (row ∷ rows) o m h = ground (
  arith,
  first_matches_sound tool_id found rows o m,
  first_matches_sound tool_id (found ++ (row.owner, match_of row) ∷ []) rows o m,
  In-append (o, m) found ((row.owner, match_of row) ∷ []),
  has-append o found row.owner (match_of row),
  same_iff row.owner o,
)

first_matches_keeps :
    (tool_id : Text) (found : List (Owner × PolicyMatch)) (rows : List ToolPolicy) (o : Owner)
    (m : PolicyMatch)
    → In (o, m) found
    → In (o, m) (first_matches tool_id found rows)
unfolding first_matches
first_matches_keeps tool_id found [] o m h = h
first_matches_keeps tool_id found (row ∷ rows) o m h = ground (
  arith,
  first_matches_keeps tool_id found rows o m,
  first_matches_keeps tool_id (found ++ (row.owner, match_of row) ∷ []) rows o m,
  In-append (o, m) found ((row.owner, match_of row) ∷ []),
)

-- The first match of an owner that had none before is among what the loop holds at the end.
pub first_matches_complete :
    (tool_id : Text) (found : List (Owner × PolicyMatch)) (rows : List ToolPolicy) (o : Owner)
    (r : ToolPolicy)
    → has o found ≡ false
    → first_of tool_id o rows ≡ some r
    → In (o, match_of r) (first_matches tool_id found rows)
unfolding first_matches
first_matches_complete tool_id found [] o r n e = cc
first_matches_complete tool_id found (row ∷ rows) o r n e = ground (
  arith,
  first_matches_complete tool_id found rows o r,
  first_matches_complete tool_id (found ++ (row.owner, match_of row) ∷ []) rows o r,
  first_matches_keeps tool_id (found ++ (row.owner, match_of row) ∷ []) rows o (match_of row),
  In-append (row.owner, match_of row) found ((row.owner, match_of row) ∷ []),
  has-append o found row.owner (match_of row),
  same_iff row.owner o,
)

more_restrictive_bounds :
    (selected : Option PolicyMatch) (n : PolicyMatch)
    → ((c : PolicyMatch)
        → selected ≡ some c
        → restriction_rank c.action ≤ restriction_rank (more_restrictive selected n).action)
      × (restriction_rank n.action ≤ restriction_rank (more_restrictive selected n).action)
      × ((more_restrictive selected n ≡ n) ⊎ (selected ≡ some (more_restrictive selected n)))
unfolding more_restrictive
more_restrictive_bounds none n = (λ c e. ground arith, ground arith, ground arith)
more_restrictive_bounds (some d) n = (λ c e. ground arith, ground arith, ground arith)

-- The second loop returns one of the matches, and none that is less restrictive than another.
pub select_match_bounds :
    (selected : Option PolicyMatch) (found : List (Owner × PolicyMatch)) (m : PolicyMatch)
    → select_match selected found ≡ some m
    → ((c : PolicyMatch)
        → selected ≡ some c
        → restriction_rank c.action ≤ restriction_rank m.action)
      × ((o : Owner) (c : PolicyMatch)
          → In (o, c) found
          → restriction_rank c.action ≤ restriction_rank m.action)
      × ((selected ≡ some m) ⊎ ((o : Owner) × In (o, m) found))
unfolding select_match
select_match_bounds selected [] m e = (λ c h. ground arith, λ o c h. absurd h, inl e)
select_match_bounds selected ((o, n) ∷ found) m e =
    let (over, above, origin) = more_restrictive_bounds selected n in
    let (keeps, dominates, from) =
      select_match_bounds (some (more_restrictive selected n)) found m e in
    (
      λ c h. omega (arith, over c h, keeps (more_restrictive selected n) refl),
      λ p c h. elim h [
        | inl same ↦
            rw (ap (λ (q : Owner × PolicyMatch). q.1) same)
              (omega (arith, above, keeps (more_restrictive selected n) refl))
        | inr later ↦ dominates p c later
      ],
      elim from [
        | inl chosen ↦ elim origin [
          | inl new ↦ inr (o, inl (ground (arith, chosen, new)))
          | inr kept ↦ inl (kept ∙ chosen)
        ]
        | inr (p, later) ↦ inr (p, inr later)
      ],
    )

pub select_match-some :
    (c : PolicyMatch) (found : List (Owner × PolicyMatch))
    → (m : PolicyMatch) × (select_match (some c) found ≡ some m)
unfolding select_match
select_match-some c [] = (c, refl)
select_match-some c ((o, n) ∷ found) = select_match-some (more_restrictive (some c) n) found
