-- ===== src/Core/Policy/Resolution.antt =====
-- What `resolve_tool_policy` decides, in terms of the rules by which the owners speak.
use Prim.Native.Nat.{compare}
use zoen_gateway.Prelude.{
  ℕ, ◌≤◌, Bool, true, false, none, some, List, [], ◌∷◌, ◌≡◌, ◌↔◌, refl, ap, sym, ◌∙◌, subst, ◌⊎◌,
  arith, Bool-cases, Option-cases, inl, inr, In,
}
use zoen_gateway.Prelude.Text.{Text, text_cmp}
use zoen_gateway.Prelude.Sort.{
  is_gt, sort_by, IsSorted, IsOrder, IsOrder-then_with, IsOrder-on, compare-IsOrder,
  text_cmp-IsOrder, In-sort_by, sort_by-IsSorted,
}
use zoen_gateway.Core.Owner.{Owner, same_iff}
use zoen_gateway.Core.Policy.{
  PolicyAction, approve, require_approval, block, restriction_rank, ToolPolicy, PolicyMatch,
  match_of, match_pattern, compare_policy_row, compare_policies, first_matches, select_match,
  resolve_tool_policy, effective_policy,
}
use zoen_gateway.Core.Policy.Selection.{
  applies, first_of, first_matches_sound, first_matches_complete, select_match_bounds,
  select_match-some,
}

module _ (owner_rank : Owner → ℕ) where
  compare_policies-IsOrder : IsOrder (compare_policies owner_rank)
  unfolding compare_policies
  compare_policies-IsOrder =
      IsOrder-then_with (λ a b. compare (owner_rank a.owner) (owner_rank b.owner))
        (λ a b. compare_policy_row a.position a.id b.position b.id)
        (IsOrder-on (λ (a : ToolPolicy). owner_rank a.owner) compare compare-IsOrder)
        (IsOrder-then_with _ _
          (IsOrder-on (λ (a : ToolPolicy). a.position) text_cmp text_cmp-IsOrder)
          (IsOrder-on (λ (a : ToolPolicy). a.id) text_cmp text_cmp-IsOrder))

  compare_self : (r : ToolPolicy) → is_gt (compare_policies owner_rank r r) ≡ false
  compare_self r = ground (arith, compare_policies-IsOrder.flipped r r)

  -- A row of the policies that speaks for its owner on a tool: it matches, and no matching row of
  -- the same owner comes before it.
  pub record Speaks (tool_id : Text) (policies : List ToolPolicy) (r : ToolPolicy) : Type 0 where
    pub listed : In r policies
    pub matches : match_pattern r.pattern tool_id ≡ true
    pub first :
        (s : ToolPolicy)
        → In s policies
        → s.owner ≡ r.owner
        → match_pattern s.pattern tool_id ≡ true
        → is_gt (compare_policies owner_rank r s) ≡ false

  first_of_found :
      (tool_id : Text) (o : Owner) (rows : List ToolPolicy) (r : ToolPolicy)
      → IsSorted (compare_policies owner_rank) rows
      → first_of tool_id o rows ≡ some r
      → In r rows
        × (r.owner ≡ o)
        × (match_pattern r.pattern tool_id ≡ true)
        × ((s : ToolPolicy)
            → In s rows
            → applies tool_id o s ≡ true
            → is_gt (compare_policies owner_rank r s) ≡ false)
  first_of_found tool_id o [] r h e = cc
  first_of_found tool_id o (row ∷ rows) r (least, h) e = elim (Bool-cases (applies tool_id o row)) [
    | inl hit ↦
        let same : row ≡ r = ground arith in
        rw (← same) (
          inl refl,
          ground (arith, same_iff row.owner o),
          ground arith,
          λ s m k. ground (arith, least s, compare_self row),
        )
    | inr miss ↦
        let (listed, owner, matches, first) = first_of_found tool_id o rows r h (ground arith) in
        (
          inr listed,
          owner,
          matches,
          λ s m k. elim m [
            | inl same ↦ cc (ap (applies tool_id o) same)
            | inr later ↦ first s later k
          ],
        )
  ]

  first_of-some :
      (tool_id : Text) (o : Owner) (rows : List ToolPolicy) (r : ToolPolicy)
      → In r rows
      → applies tool_id o r ≡ true
      → (s : ToolPolicy) × (first_of tool_id o rows ≡ some s)
  first_of-some tool_id o [] r m h = absurd m
  first_of-some tool_id o (row ∷ rows) r m h = elim (Bool-cases (applies tool_id o row)) [
    | inl hit ↦ (row, rw hit)
    | inr miss ↦ rw miss (first_of-some tool_id o rows r (ground arith) h)
  ]

  abbrev pub sorted : List ToolPolicy → List ToolPolicy
  sorted policies = sort_by (compare_policies owner_rank) policies

  -- The early return on no policies is the general case.
  pub resolve_eq :
      (tool_id : Text) (policies : List ToolPolicy)
      → resolve_tool_policy tool_id policies owner_rank
        ≡ select_match none (first_matches tool_id [] (sorted policies))
  unfolding resolve_tool_policy sort_by
  resolve_eq tool_id [] = refl
  resolve_eq tool_id (p ∷ ps) = refl

  first_of-Speaks :
      (tool_id : Text) (policies : List ToolPolicy) (o : Owner) (r : ToolPolicy)
      → first_of tool_id o (sorted policies) ≡ some r
      → Speaks tool_id policies r × (r.owner ≡ o)
  first_of-Speaks tool_id policies o r e =
      let (listed, owner, matches, first) =
        first_of_found tool_id o (sorted policies) r
          (sort_by-IsSorted _ compare_policies-IsOrder policies) e in
      (
        record {
          listed = (In-sort_by _ r policies).0 listed;
          matches = matches;
          first = λ s m same k.
              first s ((In-sort_by _ s policies).1 m) (ground (arith, same_iff s.owner o));
        },
        owner,
      )

  abbrev held : Text → List ToolPolicy → List (Owner × PolicyMatch)
  held tool_id policies = first_matches tool_id [] (sorted policies)

  held-Speaks :
      (tool_id : Text) (policies : List ToolPolicy) (o : Owner) (m : PolicyMatch)
      → In (o, m) (held tool_id policies)
      → (r : ToolPolicy) × Speaks tool_id policies r × (m ≡ match_of r)
  held-Speaks tool_id policies o m h =
      elim (first_matches_sound tool_id [] (sorted policies) o m h) [
        | inl none_before ↦ absurd none_before
        | inr (_, e) ↦ elim (Option-cases (first_of tool_id o (sorted policies))) [
          | inl missed ↦ ground arith
          | inr (r, found) ↦ (r, (first_of-Speaks tool_id policies o r found).0, ground arith)
        ]
      ]

  -- The rule that decides speaks for its owner.
  resolve-Speaks :
      (tool_id : Text) (policies : List ToolPolicy) (m : PolicyMatch)
      → resolve_tool_policy tool_id policies owner_rank ≡ some m
      → (r : ToolPolicy) × Speaks tool_id policies r × (m ≡ match_of r)
  resolve-Speaks tool_id policies m e =
      let (_, _, from) =
        select_match_bounds none (held tool_id policies) m
          (sym (resolve_eq tool_id policies) ∙ e) in
      elim from [ inl nothing ↦ cc | inr (o, h) ↦ held-Speaks tool_id policies o m h ]

  -- A matching row with every other matching row of its owner behind it.
  pub record SpeaksAlone (tool_id : Text) (policies : List ToolPolicy) (r : ToolPolicy)
      : Type 0 where
    pub listed : In r policies
    pub matches : match_pattern r.pattern tool_id ≡ true
    pub alone :
        (s : ToolPolicy)
        → In s policies
        → s.owner ≡ r.owner
        → match_pattern s.pattern tool_id ≡ true
        → (s ≡ r) ⊎ (is_gt (compare_policies owner_rank s r) ≡ true)

  first_of_alone :
      (tool_id : Text) (policies : List ToolPolicy) (r : ToolPolicy)
      → SpeaksAlone tool_id policies r
      → first_of tool_id r.owner (sorted policies) ≡ some r
  first_of_alone tool_id policies r a =
      let applies_r : applies tool_id r.owner r ≡ true =
        ground (arith, a.matches, same_iff r.owner r.owner) in
      let (s, e) =
        first_of-some tool_id r.owner (sorted policies) r ((In-sort_by _ r policies).1 a.listed)
          applies_r in
      let (speaks, owner) = first_of-Speaks tool_id policies r.owner s e in
      elim (a.alone s speaks.listed owner speaks.matches) [
        | inl same ↦ rw same at e
        | inr behind ↦ cc (behind, speaks.first r a.listed (sym owner) a.matches)
      ]

  select_match-ne-none :
      (e : Owner × PolicyMatch) (found : List (Owner × PolicyMatch))
      → In e found
      → (m : PolicyMatch) × (select_match none found ≡ some m)
  unfolding select_match
  select_match-ne-none e [] h = absurd h
  select_match-ne-none e ((o, n) ∷ found) h = select_match-some n found

  -- Whatever rule decides, it is at least as restrictive.
  resolve_dominates :
      (tool_id : Text) (policies : List ToolPolicy) (r : ToolPolicy)
      → SpeaksAlone tool_id policies r
      → (m : PolicyMatch) × (resolve_tool_policy tool_id policies owner_rank ≡ some m)
        × (restriction_rank r.action ≤ restriction_rank m.action)
  resolve_dominates tool_id policies r a =
      let inside =
        first_matches_complete tool_id [] (sorted policies) r.owner r refl
          (first_of_alone tool_id policies r a) in
      let (m, e) = select_match-ne-none (r.owner, match_of r) (held tool_id policies) inside in
      let (_, dominates, _) = select_match_bounds none (held tool_id policies) m e in
      (m, resolve_eq tool_id policies ∙ e, dominates r.owner (match_of r) inside)

-- The rule that decides is a stored one, the first matching rule of its owner by position and id;
-- and the first matching rule of every owner that has one, told apart from the others by position
-- or id, is at most as restrictive as the rule that decides.
pub resolve_tool_policy_lem :
    (owner_rank : Owner → ℕ) (tool_id : Text) (policies : List ToolPolicy) (m : PolicyMatch)
    → resolve_tool_policy tool_id policies owner_rank ≡ some m
    → ((r : ToolPolicy) × Speaks owner_rank tool_id policies r × (m ≡ match_of r))
      × ((r : ToolPolicy)
          → SpeaksAlone owner_rank tool_id policies r
          → restriction_rank r.action ≤ restriction_rank m.action)
resolve_tool_policy_lem owner_rank tool_id policies m e = (
  resolve-Speaks owner_rank tool_id policies m e,
  λ r a. let (n, e', h) = resolve_dominates owner_rank tool_id policies r a in ground (arith, h),
)

first_of-none :
    (tool_id : Text) (o : Owner) (rows : List ToolPolicy)
    → ((r : ToolPolicy) → In r rows → match_pattern r.pattern tool_id ≡ false)
    → first_of tool_id o rows ≡ none
first_of-none tool_id o [] h = refl
first_of-none tool_id o (row ∷ rows) h =
    ground (arith, h row (inl refl), first_of-none tool_id o rows (λ r m. h r (inr m)))

-- No rule decides exactly when no stored rule matches the tool.
pub resolve_tool_policy-none_iff :
    (owner_rank : Owner → ℕ) (tool_id : Text) (policies : List ToolPolicy)
    → (resolve_tool_policy tool_id policies owner_rank ≡ none)
      ↔ ((r : ToolPolicy) → In r policies → match_pattern r.pattern tool_id ≡ false)
resolve_tool_policy-none_iff owner_rank tool_id policies = (
  λ e r m. elim (Bool-cases (match_pattern r.pattern tool_id)) [
    | inl hit ↦
        let (s, found) =
          first_of-some owner_rank tool_id r.owner (sort_by (compare_policies owner_rank) policies)
            r ((In-sort_by _ r policies).1 m) (ground (arith, hit, same_iff r.owner r.owner)) in
        let (c, chosen) =
          select_match-ne-none owner_rank (r.owner, match_of s) _
            (first_matches_complete tool_id [] _ r.owner s refl found) in
        cc (sym (resolve_eq owner_rank tool_id policies) ∙ e, chosen)
    | inr miss ↦ miss
  ],
  λ h. elim (Option-cases (resolve_tool_policy tool_id policies owner_rank)) [
    | inl e ↦ e
    | inr (m, e) ↦
        let (r, speaks, same) = resolve-Speaks owner_rank tool_id policies m e in
        cc (speaks.matches, h r speaks.listed)
  ],
)

block_of_rank : (a : PolicyAction) → restriction_rank block ≤ restriction_rank a → a ≡ block
unfolding restriction_rank
block_of_rank approve h = absurd (omega arith)
block_of_rank require_approval h = absurd (omega arith)
block_of_rank block h = refl

-- A stored block that is the first matching rule of its owner, told apart from the others by
-- position or id, blocks the tool, whatever the other owner's rules and the plugin's default say.
pub effective_policy-block :
    (owner_rank : Owner → ℕ) (tool_id : Text) (policies : List ToolPolicy) (r : ToolPolicy)
    (default_requires_approval : Bool)
    → SpeaksAlone owner_rank tool_id policies r
    → r.action ≡ block
    → (effective_policy tool_id policies owner_rank default_requires_approval).action ≡ block
unfolding effective_policy
effective_policy-block owner_rank tool_id policies r d a e =
    let (m, found, h) = resolve_dominates owner_rank tool_id policies r a in
    rw (found, effective_policy)
      (block_of_rank m.action (subst (λ b. restriction_rank b ≤ restriction_rank m.action) e h))
