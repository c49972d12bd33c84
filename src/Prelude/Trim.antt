-- ===== src/Prelude/Trim.antt =====
-- `str::trim` on UTF-8: the white space of Unicode, by its bytes.
use Prim.Native.Nat.{ℕ, zero, suc, ◌+◌, ◌/◌, ◌%◌}
use mathlib.Core.Bool.{Bool, ◌&&◌, ◌||◌}
use mathlib.Core.List.{[], ◌∷◌}
use zoen_gateway.Prelude.Tests.{ltb, leb, ◌==◌, if◌then◌else◌}
use zoen_gateway.Prelude.Text.{Text, text_eq}

-- U+0009 to U+000D and the space.
abbrev pub white1 : ℕ → Bool
white1 a = (leb 9 a && leb a 13) || a == 32

-- U+0085, U+00A0.
abbrev pub white2 : ℕ → ℕ → Bool
white2 a b = a == 0xc2 && (b == 0x85 || b == 0xa0)

-- U+1680, U+2000 to U+200A, U+2028, U+2029, U+202F, U+205F, U+3000.
abbrev pub white3 : ℕ → ℕ → ℕ → Bool
white3 a b c =
    (a == 0xe1 && (b == 0x9a && c == 0x80))
    || ((a == 0xe2
          && ((b == 0x80 && ((leb 0x80 c && leb c 0x8a) || (c == 0xa8 || (c == 0xa9 || c == 0xaf))))
              || (b == 0x81 && c == 0x9f)))
        || (a == 0xe3 && (b == 0x80 && c == 0x80)))

unfoldable pub trim_start : Text → Text
trim_start [] = []
trim_start (a ∷ []) = if white1 a then [] else a ∷ []
trim_start (a ∷ b ∷ []) =
    let one = trim_start (b ∷ []) in if white1 a then one else if white2 a b then [] else a ∷ b ∷ []
trim_start (a ∷ b ∷ c ∷ s) =
    let one = trim_start (b ∷ c ∷ s) in
    let two = trim_start (c ∷ s) in
    let three = trim_start s in
    if white1 a
    then one
    else if white2 a b
    then two
    else if white3 a b c
    then three
    else a ∷ b ∷ c ∷ s

-- The shortest front part behind which only white space stands.
unfoldable pub trim_end : Text → Text
unfolding trim_start text_eq
trim_end [] = []
trim_end (a ∷ s) = let rest = trim_end s in if text_eq (trim_start (a ∷ s)) [] then [] else a ∷ rest

unfoldable pub trim : Text → Text
unfolding trim_end
trim s = trim_end (trim_start s)

-- A number in decimal; `n + 1` rounds are enough for `n`.
decimal_from : ℕ → ℕ → Text → Text
decimal_from zero n acc = acc
decimal_from (suc fuel) n acc =
    let more = decimal_from fuel (n / 10) ((n % 10 + b'0') ∷ acc) in
    if ltb n 10 then (n + b'0') ∷ acc else more

unfoldable pub decimal : ℕ → Text
unfolding decimal_from
decimal n = decimal_from (suc n) n []
