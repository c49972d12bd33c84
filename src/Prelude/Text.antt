-- ===== src/Prelude/Text.antt =====
-- Texts as lists of bytes: equality, the order of `str::cmp`, and the searches of `str`.
use Prim.Native.Nat.{ℕ}
use Prim.Native.Char.{code}
use Prim.Native.String.{String}
use mathlib.Core.Path.{◌≡◌, refl}
use mathlib.Core.Logic.{◌↔◌, inl, inr}
use mathlib.Core.Bool.{Bool, true, false, ◌&&◌, ◌||◌}
use mathlib.Core.Option.{Option, none, some}
use mathlib.Core.List.{List, [], ◌∷◌}
use Prim.Native.Nat.{Ordering}
use native.Mathlib.Omega.{arith}
use zoen_gateway.Prelude.Tests.{ltb, ◌==◌, if◌then◌else◌, is_some, Bool-cases}

abbrev pub Text : Type 0
Text = List ℕ

-- The bytes of an ASCII literal.
abbrev pub ascii : String → Text
ascii String.[] = []
ascii (String.◌∷◌ c s) = code c ∷ ascii s

unfoldable pub text_eq : Text → Text → Bool
text_eq [] [] = true
text_eq [] (b ∷ t) = false
text_eq (a ∷ s) [] = false
text_eq (a ∷ s) (b ∷ t) = a == b && text_eq s t

pub text_eq_iff : (s t : Text) → (text_eq s t ≡ true) ↔ (s ≡ t)
unfolding text_eq
text_eq_iff [] [] = ground arith
text_eq_iff [] (b ∷ t) = ground arith
text_eq_iff (a ∷ s) [] = ground arith
text_eq_iff (a ∷ s) (b ∷ t) = ground (arith, text_eq_iff s t)

pub text_eq_refl : (s : Text) → text_eq s s ≡ true
text_eq_refl s = (text_eq_iff s s).1 refl

-- `a < b` on `str`: byte by byte, a proper prefix first.
unfoldable pub text_lt : Text → Text → Bool
text_lt s [] = false
text_lt [] (b ∷ t) = true
text_lt (a ∷ s) (b ∷ t) = ltb a b || (a == b && text_lt s t)

pub text_lt_irrefl : (s : Text) → text_lt s s ≡ false
unfolding text_lt
text_lt_irrefl [] = refl
text_lt_irrefl (a ∷ s) = ground (arith, text_lt_irrefl s)

pub text_lt_trans : (s t u : Text) → text_lt s t ≡ true → text_lt t u ≡ true → text_lt s u ≡ true
unfolding text_lt
text_lt_trans s [] u h k = ground arith
text_lt_trans s (b ∷ t) [] h k = ground arith
text_lt_trans [] (b ∷ t) (c ∷ u) h k = refl
text_lt_trans (a ∷ s) (b ∷ t) (c ∷ u) h k = ground (arith, text_lt_trans s t u)

-- `starts_with`, and what `strip_prefix` leaves.
unfoldable pub strip_prefix : Text → Text → Option Text
strip_prefix [] t = some t
strip_prefix (a ∷ s) [] = none
strip_prefix (a ∷ s) (b ∷ t) = if a == b then strip_prefix s t else none

-- A byte in front of the first piece.
abbrev pub push_first : ℕ → List Text → List Text
push_first a [] = (a ∷ []) ∷ []
push_first a (s ∷ rest) = (a ∷ s) ∷ rest

-- `str::split` at one byte: never empty.
unfoldable pub split : ℕ → Text → List Text
split c [] = [] ∷ []
split c (a ∷ s) = if a == c then [] ∷ split c s else push_first a (split c s)

-- `str::contains` of one byte.
abbrev pub has_byte : ℕ → Text → Bool
has_byte c [] = false
has_byte c (a ∷ s) = a == c || has_byte c s

-- `Ord::cmp` on `str`.
unfoldable pub text_cmp : Text → Text → Ordering
unfolding text_lt text_eq
text_cmp s t = if text_lt s t then Ordering.lt else if text_eq s t then Ordering.eq else Ordering.gt

pub text_lt_total : (s t : Text) → text_lt s t ≡ false → text_eq s t ≡ false → text_lt t s ≡ true
unfolding text_lt text_eq
text_lt_total [] [] h k = ground arith
text_lt_total [] (b ∷ t) h k = ground arith
text_lt_total (a ∷ s) [] h k = refl
text_lt_total (a ∷ s) (b ∷ t) h k = ground (arith, text_lt_total s t)

abbrev pub starts_with : Text → Text → Bool
starts_with [] t = true
starts_with (a ∷ s) [] = false
starts_with (a ∷ s) (b ∷ t) = a == b && starts_with s t

-- What stands before the suffix, if the text ends with it.
unfoldable pub strip_suffix : Text → Text → Option Text
unfolding text_eq
strip_suffix s [] = if text_eq s [] then some [] else none
strip_suffix s (b ∷ t) =
    let later = strip_suffix s t in
    if text_eq s (b ∷ t) then some [] else elim later [ none ↦ none | some u ↦ some (b ∷ u) ]

unfoldable pub ends_with : Text → Text → Bool
unfolding strip_suffix
ends_with s t = is_some (strip_suffix s t)

-- `str::contains` of a text.
unfoldable pub contains : Text → Text → Bool
contains s [] = starts_with s []
contains s (b ∷ t) = starts_with s (b ∷ t) || contains s t

pub split-cons :
    (c a : ℕ) (s : Text)
    → split c (a ∷ s) ≡ (if a == c then [] ∷ split c s else push_first a (split c s))
unfolding split
split-cons c a s = refl

-- Splitting leaves at least one piece.
pub split_view : (c : ℕ) (s : Text) → (h : Text) × (t : List Text) × (split c s ≡ h ∷ t)
unfolding split
split_view c [] = ([], [], refl)
split_view c (a ∷ s) =
    let (h, t, e) = split_view c s in
    elim (Bool-cases (a == c)) [
      | inl at ↦ ([], split c s, rw at)
      | inr past ↦ (a ∷ h, t, rw (past, e))
    ]

pub split-nil : (c : ℕ) → split c [] ≡ [] ∷ []
unfolding split
split-nil c = refl
