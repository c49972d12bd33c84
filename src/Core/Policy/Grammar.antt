-- ===== src/Core/Policy/Grammar.antt =====
-- The grammar of policy patterns, stated by their dotted segments.
use zoen_gateway.Prelude.{
  ℕ, Bool, true, false, List, [], ◌∷◌, not, ◌≡◌, ◌≢◌, ◌↔◌, refl, ◌⊎◌, ◌&&◌, all, arith, All,
}
use zoen_gateway.Prelude.Text.{
  Text, ascii, text_eq, text_eq_iff, split, starts_with, ends_with, contains, has_byte, split-cons,
  split-nil, split_view, text_eq_refl,
}
use zoen_gateway.Core.Policy.Pattern.{is_plain_or_star, is_valid_pattern}

-- A segment is `*`, or a text with a byte in it and no `*`.
abbrev pub IsSegment : Text → Type 0
IsSegment seg = (seg ≢ []) × ((seg ≡ ascii "*") ⊎ (has_byte b'*' seg ≡ false))

-- A pattern is `*`, or segments none of which is out of form, the first not `*`.
abbrev pub IsGrammatical : List Text → Type 0
IsGrammatical [] = ⊥
IsGrammatical (seg ∷ segs) =
    ((seg ≡ ascii "*") × (segs ≡ [])) ⊎ ((has_byte b'*' seg ≡ false) × All IsSegment (seg ∷ segs))

abbrev no_empty : List Text → Bool
no_empty [] = true
no_empty (seg ∷ segs) = not (text_eq seg []) && no_empty segs

abbrev tail_of : List Text → List Text
tail_of [] = []
tail_of (seg ∷ segs) = segs

all_iff : (segs : List Text) → (all is_plain_or_star segs ≡ true) ↔ All IsSegment segs
all_iff [] = ground arith
all_iff (seg ∷ segs) = ground (arith, all_iff segs, text_eq_iff seg [], text_eq_iff seg (ascii "*"))

-- A dot in front, a dot behind and two dots together each leave an empty segment.
split-contains :
    (p : Text) → contains (ascii "..") p ≡ true → no_empty (tail_of (split b'.' p)) ≡ false
unfolding contains
split-contains [] h = cc
split-contains (a ∷ []) h = ground arith
split-contains (a ∷ b ∷ p) h =
    let (x, t, e) = split_view b'.' (b ∷ p) in
    ground (
      arith,
      split-cons b'.' a (b ∷ p),
      split-cons b'.' b p,
      e,
      split-contains (b ∷ p),
      text_eq_refl [],
    )

split-ends_with :
    (p : Text) → ends_with (ascii ".") p ≡ true → no_empty (tail_of (split b'.' p)) ≡ false
unfolding ends_with
split-ends_with [] h = ground (arith, text_eq_iff [] (ascii "."))
split-ends_with (a ∷ []) h = ground (
  arith,
  split-cons b'.' a [],
  split-nil b'.',
  text_eq_refl [],
  text_eq_iff (a ∷ []) (ascii "."),
  text_eq_iff [] (ascii "."),
)
split-ends_with (a ∷ b ∷ p) h =
    let (x, t, e) = split_view b'.' (b ∷ p) in
    ground (
      arith,
      split-cons b'.' a (b ∷ p),
      e,
      split-ends_with (b ∷ p),
      text_eq_refl [],
      text_eq_iff (a ∷ b ∷ p) (ascii "."),
    )

no_empty_of_all : (segs : List Text) → all is_plain_or_star segs ≡ true → no_empty segs ≡ true
no_empty_of_all [] h = refl
no_empty_of_all (seg ∷ segs) h = ground (arith, no_empty_of_all segs)

-- The tests on the ends and on neighbouring dots only repeat what the segments say.
dots_of_all :
    (p : Text)
    → all is_plain_or_star (split b'.' p) ≡ true
    → (starts_with (ascii ".") p ≡ false)
      × (ends_with (ascii ".") p ≡ false)
      × (contains (ascii "..") p ≡ false)
dots_of_all [] h = ground (arith, split-nil b'.', text_eq_refl [])
dots_of_all (a ∷ p) h =
    let (x, t, e) = split_view b'.' p in
    ground (
      arith,
      no_empty_of_all (split b'.' (a ∷ p)),
      split-contains (a ∷ p),
      split-ends_with (a ∷ p),
      split-cons b'.' a p,
      e,
      text_eq_refl [],
    )

-- A text with one piece is that piece.
split_single : (c : ℕ) (p h : Text) → split c p ≡ h ∷ [] → p ≡ h
split_single c [] h e = ground (arith, split-nil c)
split_single c (a ∷ p) h e =
    let (x, t, v) = split_view c p in ground (arith, split-cons c a p, v, split_single c p x)

star_of_star : (p : Text) → split b'.' p ≡ ascii "*" ∷ [] → p ≡ ascii "*"
star_of_star p e = split_single b'.' p (ascii "*") e

-- A pattern is valid exactly when its dotted segments are in form.
pub is_valid_pattern_iff : (p : Text) → (is_valid_pattern p ≡ true) ↔ IsGrammatical (split b'.' p)
unfolding is_valid_pattern
is_valid_pattern_iff [] = ground (arith, split-nil b'.', text_eq_refl [])
is_valid_pattern_iff (a ∷ p) =
    let (x, t, e) = split_view b'.' p in
    ground (
      arith,
      text_eq_iff (a ∷ p) [],
      text_eq_iff (a ∷ p) (ascii "*"),
      dots_of_all (a ∷ p),
      all_iff (split b'.' (a ∷ p)),
      split-cons b'.' a p,
      e,
      star_of_star (a ∷ p),
      split-nil b'.',
    )
