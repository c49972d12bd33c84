-- ===== src/Prelude/Chars.antt =====
-- Tests on code points, under the names of `char`'s methods.
use zoen_gateway.Prelude.Tests.{leb, ◌==◌}
use Prim.Native.Nat.{ℕ, ◌+◌}
use mathlib.Core.Bool.{Bool, ◌&&◌, ◌||◌}
use zoen_gateway.Prelude.Tests.{if◌then◌else◌}

-- `is_ascii_digit`, `is_ascii_alphabetic`, `is_ascii_uppercase`, `to_ascii_lowercase`,
-- `is_whitespace`.
abbrev pub is_digit : ℕ → Bool
is_digit c = leb b'0' c && leb c b'9'

abbrev pub is_alphabetic : ℕ → Bool
is_alphabetic c = (leb b'a' c && leb c b'z') || (leb b'A' c && leb c b'Z')

unfoldable pub is_whitespace : ℕ → Bool
is_whitespace c =
    (leb 9 c && leb c 13)
    || c == 0x20
    || c == 0x85
    || c == 0xa0
    || c == 0x1680
    || (leb 0x2000 c && leb c 0x200a)
    || c == 0x2028
    || c == 0x2029
    || c == 0x202f
    || c == 0x205f
    || c == 0x3000

abbrev pub is_uppercase : ℕ → Bool
is_uppercase c = leb b'A' c && leb c b'Z'

abbrev pub is_alphanumeric : ℕ → Bool
is_alphanumeric c = is_alphabetic c || is_digit c

abbrev pub to_lowercase : ℕ → ℕ
to_lowercase c = if is_uppercase c then c + 32 else c
