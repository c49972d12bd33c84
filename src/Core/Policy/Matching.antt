-- ===== src/Core/Policy/Matching.antt =====
-- What a policy pattern matches, as a relation on dotted segments.
use zoen_gateway.Prelude.{
  ℕ, ◌+◌, ◌≤◌, ◌<◌, ◌⊎◌, true, none, some, List, [], ◌∷◌, ◌≡◌, ◌↔◌, refl, length, get_elem?, drop,
  arith, Bool-cases, inl, inr, zero, suc,
}
use native.Mathlib.Numerals.{add-one}
use zoen_gateway.Prelude.Text.{Text, ascii, text_eq, text_eq_iff, split}
use zoen_gateway.Core.Policy.Pattern.{match_from, match_pattern}

-- A pattern's segments match a tool's: a last `*` takes all that is left, any other `*` one
-- segment, and a plain segment itself.
abbrev pub Matches : List Text → List Text → Type 0
Matches [] [] = Unit
Matches [] (t ∷ ts) = ⊥
Matches (seg ∷ []) [] = seg ≡ ascii "*"
Matches (seg ∷ []) (t ∷ ts) = (seg ≡ ascii "*") ⊎ ((t ≡ seg) × (ts ≡ []))
Matches (seg ∷ s ∷ segs) [] = ⊥
Matches (seg ∷ s ∷ segs) (t ∷ ts) = ((seg ≡ ascii "*") ⊎ (t ≡ seg)) × Matches (s ∷ segs) ts

-- What is left at an index: nothing, or an element and what is left behind it.
abbrev Left : List Text → ℕ → Type 0
Left tool i =
    ((drop i tool ≡ []) × (get_elem? tool i ≡ none) × (length tool ≡ i))
    ⊎ ((t : Text) × (drop i tool ≡ t ∷ drop (suc i) tool)
        × (get_elem? tool i ≡ some t)
        × (i < length tool))

Left-cases : (tool : List Text) (i : ℕ) → i ≤ length tool → Left tool i
Left-cases [] zero h = inl (refl, refl, refl)
Left-cases [] (suc i) h = absurd (omega arith)
Left-cases (t ∷ ts) zero h = inr (t, refl, refl, omega arith)
Left-cases (t ∷ ts) (suc i) h = elim (Left-cases ts i (omega arith)) [
  | inl (a, b, c) ↦ inl (a, b, omega arith)
  | inr (u, a, b, c) ↦ inr (u, a, b, omega arith)
]

match_from_iff :
    (count : ℕ) (tool : List Text) (i : ℕ) (segs : List Text)
    → count ≡ i + length segs
    → i ≤ length tool
    → (match_from count tool i segs ≡ true) ↔ Matches segs (drop i tool)
unfolding match_from
match_from_iff count tool i [] c h = elim (Left-cases tool i h) [
  | inl (a, b, d) ↦ rw a (ground arith)
  | inr (t, a, b, d) ↦ rw a (ground arith)
]
match_from_iff count tool i (seg ∷ []) c h = elim (Left-cases tool i h) [
  | inl (a, b, d) ↦ rw a (ground (arith, text_eq_iff seg (ascii "*")))
  | inr (t, a, b, d) ↦ rw a (
      ground (
        arith,
        text_eq_iff seg (ascii "*"),
        text_eq_iff t seg,
        match_from_iff count tool (i + 1) [] (omega arith) (omega arith),
      ))
]
match_from_iff count tool i (seg ∷ s ∷ segs) c h = elim (Left-cases tool i h) [
  | inl (a, b, d) ↦ rw a (ground (arith, text_eq_iff seg (ascii "*")))
  | inr (t, a, b, d) ↦ rw a (
      ground (
        arith,
        text_eq_iff seg (ascii "*"),
        text_eq_iff t seg,
        add-one i,
        match_from_iff count tool (suc i) (s ∷ segs) (omega arith) (omega arith),
      ))
]

split_star : split b'.' (ascii "*") ≡ ascii "*" ∷ []
unfolding split
split_star = refl

Matches-star : (ts : List Text) → Matches (ascii "*" ∷ []) ts
Matches-star [] = refl
Matches-star (t ∷ ts) = inl refl

-- A pattern matches a tool id exactly when its dotted segments match the id's.
pub match_pattern_iff :
    (pattern tool_id : Text)
    → (match_pattern pattern tool_id ≡ true) ↔ Matches (split b'.' pattern) (split b'.' tool_id)
unfolding match_pattern
match_pattern_iff pattern tool_id = elim (Bool-cases (text_eq pattern (ascii "*"))) [
  | inl e ↦
      let star = (text_eq_iff pattern (ascii "*")).0 e in
      (λ _. rw (star, split_star) (Matches-star (split b'.' tool_id)), λ _. rw e)
  | inr e ↦ rw e (
      match_from_iff (length (split b'.' pattern)) (split b'.' tool_id) 0 (split b'.' pattern)
        (omega arith) (omega arith))
]
