-- ===== src/Core/ToolPath/Children.antt =====
-- What browsing tells of a child is what the tool paths under it say.
use zoen_gateway.Prelude.{
  ℕ, zero, suc, ◌+◌, ◌≤◌, ◌≡◌, refl, ap, ◌∙◌, inl, inr, Bool, true, false, ◌&&◌, ◌||◌, Option, none,
  some, List, [], ◌∷◌, ◌++◌, map, arith, leb, ◌==◌, if◌then◌else◌, Bool-cases, Option-cases,
  unwrap_or, length, get_elem?, any, find_first, select,
}
use zoen_gateway.Prelude.Text.{Text, text_eq, text_eq_iff}
use zoen_gateway.Prelude.Map.{Map, text_key, lookup, lookup-insert}
use zoen_gateway.Core.ToolPath.{
  Entry, Browse, ToolPathChild, to_segments, zip_equal, is_prefix, count_tool, add_child,
  browse_path, browse, child_of, inspect_tool_path, nothing_seen,
}

-- Does a path name the child, or a tool below it?
abbrev pub is_under : List Text → Text → Text → Bool
is_under prefix c path = is_prefix (prefix ++ (c ∷ [])) (to_segments (path ∷ []))

abbrev pub size_of : Text → ℕ
size_of path = length (to_segments (path ∷ []))

-- The child, as the paths under it describe it.
abbrev pub described : List Text → Text → List Text → Option ToolPathChild
described prefix c paths =
    let under = select (is_under prefix c) paths in
    if length under == 0
    then none
    else some (record {
      segment = c;
      invokable = any (λ p. size_of p == length prefix + 1) under;
      has_children = any (λ p. leb (length prefix + 2) (size_of p)) under;
      tool_count = length under;
    })

-- The entry that paths under a child add up to, on top of one.
tallied : List Text → Option Entry → List Text → Option Entry
tallied prefix o [] = o
tallied prefix o (p ∷ ps) =
    tallied prefix (some (count_tool (length prefix) (size_of p) (unwrap_or o (false, false, 0))))
      ps

at_is : Text → Option Text → Bool
at_is c none = false
at_is c (some d) = text_eq d c

is_prefix-snoc :
    (prefix segments : List Text) (c : Text)
    → is_prefix (prefix ++ (c ∷ [])) segments
      ≡ (is_prefix prefix segments && at_is c (get_elem? segments (length prefix)))
unfolding is_prefix zip_equal at_is
is_prefix-snoc [] [] c = refl
is_prefix-snoc [] (s ∷ ss) c = ground (arith, text_eq_iff c s, text_eq_iff s c)
is_prefix-snoc (p ∷ ps) [] c = ground arith
is_prefix-snoc (p ∷ ps) (s ∷ ss) c = ground (arith, is_prefix-snoc ps ss c)

get_elem?-bound :
    {A : Type 0} (i : ℕ) (xs : List A) (a : A) → get_elem? xs i ≡ some a → i + 1 ≤ length xs
get_elem?-bound zero [] a e = ground arith
get_elem?-bound (suc i) [] a e = ground arith
get_elem?-bound zero (x ∷ xs) a e = omega arith
get_elem?-bound (suc i) (x ∷ xs) a e = omega (arith, get_elem?-bound i xs a e)

at_is-bound :
    (c : Text) (i : ℕ) (xs : List Text) → at_is c (get_elem? xs i) ≡ true → i + 1 ≤ length xs
unfolding at_is
at_is-bound c i xs h = elim (Option-cases (get_elem? xs i)) [
  | inl e ↦ ground (arith, ap (at_is c) e)
  | inr (d, e) ↦ get_elem?-bound i xs d e
]

lookup-add_child :
    (n : ℕ) (segments : List Text) (c : Text) (m : Map Text Entry)
    → lookup c (add_child n segments m) ≡ (
        if at_is c (get_elem? segments n)
        then some (count_tool n (length segments) (unwrap_or (lookup c m) (false, false, 0)))
        else lookup c m)
unfolding add_child at_is
lookup-add_child n segments c m = elim (Option-cases (get_elem? segments n)) [
  | inl e ↦ rw e
  | inr (d, e) ↦
      rw
        (
          e,
          lookup-insert d c
              (count_tool n (length segments) (unwrap_or (lookup d m) (false, false, 0))) m,
        )
        (found d)
]
  where
    found :
        (d : Text)
        → (if text_eq d c
            then some (count_tool n (length segments) (unwrap_or (lookup d m) (false, false, 0)))
            else lookup c m)
          ≡ (if text_eq d c
              then some (count_tool n (length segments) (unwrap_or (lookup c m) (false, false, 0)))
              else lookup c m)
    found d = elim (Bool-cases (text_eq d c)) [
      | inl same ↦ rw ((text_eq_iff d c).0 same)
      | inr other ↦ rw other
    ]

lookup-browse_path :
    (prefix : List Text) (c p : Text) (b : Browse)
    → lookup c (browse_path prefix p b).children ≡ (
        if is_under prefix c p
        then some (
            count_tool
              (length prefix)
              (size_of p)
              (unwrap_or (lookup c b.children) (false, false, 0)))
        else lookup c b.children)
unfolding browse_path
lookup-browse_path prefix c p b = ground (
  arith,
  is_prefix-snoc prefix (to_segments (p ∷ [])) c,
  at_is-bound c (length prefix) (to_segments (p ∷ [])),
  lookup-add_child (length prefix) (to_segments (p ∷ [])) c b.children,
)

lookup-browse :
    (prefix : List Text) (c : Text) (ps : List Text) (b : Browse)
    → lookup c (browse prefix ps b).children
      ≡ tallied prefix (lookup c b.children) (select (is_under prefix c) ps)
unfolding browse tallied
lookup-browse prefix c [] b = refl
lookup-browse prefix c (p ∷ ps) b = elim (Bool-cases (is_under prefix c p)) [
  | inl u ↦
      rw (lookup-browse prefix c ps (browse_path prefix p b), lookup-browse_path prefix c p b, u)
  | inr u ↦
      rw (lookup-browse prefix c ps (browse_path prefix p b), lookup-browse_path prefix c p b, u)
]

tallied-some :
    (prefix : List Text) (i h : Bool) (n : ℕ) (ps : List Text)
    → tallied prefix (some (i, h, n)) ps
      ≡ some (
        i || any (λ p. size_of p == length prefix + 1) ps,
        h || any (λ p. leb (length prefix + 2) (size_of p)) ps,
        n + length ps,
      )
unfolding tallied count_tool
tallied-some prefix i h n [] = ground arith
tallied-some prefix i h n (p ∷ ps) =
    let i' = i || size_of p == length prefix + 1 in
    let h' = h || leb (length prefix + 2) (size_of p) in
    ground (arith, tallied-some prefix i' h' (n + 1) ps)

find-children :
    (c : Text) (m : Map Text Entry)
    → find_first (λ d. text_eq d.segment c) (map child_of m)
      ≡ (elim (lookup c m) [ none ↦ none | some e ↦ some (child_of (c, e)) ])
unfolding lookup child_of
find-children c [] = refl
find-children c ((d, e) ∷ m) = elim (Bool-cases (text_eq d c)) [
  | inl same ↦ rw (same, (text_eq_iff d c).0 same)
  | inr other ↦ rw (other, find-children c m)
]

tallied-described :
    (prefix : List Text) (c : Text) (paths : List Text)
    → (elim (tallied prefix none (select (is_under prefix c) paths)) [
      | none ↦ none
      | some e ↦ some (child_of (c, e))
    ])
      ≡ described prefix c paths
unfolding child_of count_tool tallied
tallied-described prefix c paths = of_list (select (is_under prefix c) paths)
  where
    of_list :
        (under : List Text)
        → (elim (tallied prefix none under) [ none ↦ none | some e ↦ some (child_of (c, e)) ]) ≡ (
            if length under == 0
            then none
            else some (record {
              segment = c;
              invokable = any (λ p. size_of p == length prefix + 1) under;
              has_children = any (λ p. leb (length prefix + 2) (size_of p)) under;
              tool_count = length under;
            }))
    of_list [] = refl
    of_list (p ∷ ps) =
        rw
          (tallied-some prefix (size_of p == length prefix + 1)
            (leb (length prefix + 2) (size_of p)) 1 ps)
          (ground arith)

-- Of every name, a browsed prefix has a child by that name exactly when some tool path has the
-- prefix and then the name as its first segments; the child counts these paths, and says whether one
-- of them ends at the name and whether one goes on.
pub children-described :
    (tool_paths raw_prefix_parts : List Text) (name : Text)
    → find_first
        (λ d. text_eq d.segment name)
        (inspect_tool_path tool_paths raw_prefix_parts).children
      ≡ described (to_segments raw_prefix_parts) name tool_paths
unfolding inspect_tool_path lookup
children-described tool_paths raw_prefix_parts name =
    let prefix = to_segments raw_prefix_parts in
    find-children name (browse prefix tool_paths nothing_seen).children
    ∙ (rw (lookup-browse prefix name tool_paths nothing_seen)
        (tallied-described prefix name tool_paths))
