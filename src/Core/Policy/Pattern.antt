-- ===== src/Core/Policy/Pattern.antt =====
-- The pattern language of policies: its grammar, its matching and its specificity.
use zoen_gateway.Prelude.{
  ℕ, ◌+◌, ◌-◌, ◌*◌, ◌^◌, Bool, true, false, none, some, List, [], ◌∷◌, leb, ◌==◌, not, ◌||◌, ◌&&◌,
  if◌then◌else◌, length, get_elem?, all,
}
use zoen_gateway.Prelude.Text.{
  Text, ascii, text_eq, starts_with, ends_with, contains, strip_suffix, has_byte, split,
}

abbrev pub is_plain_or_star : Text → Bool
is_plain_or_star seg = not (text_eq seg []) && (text_eq seg (ascii "*") || not (has_byte b'*' seg))

unfoldable pub is_valid_pattern : Text → Bool
is_valid_pattern pattern =
    if text_eq pattern []
    then false
    else if text_eq pattern (ascii "*")
    then true
    else if starts_with (ascii ".") pattern
        || (ends_with (ascii ".") pattern || contains (ascii "..") pattern)
    then false
    else if starts_with (ascii "*") pattern
    then false
    else all is_plain_or_star (split b'.' pattern)

-- The loop of `match_pattern` at index `i`, over the segments that are left of `count`.
unfoldable pub match_from : ℕ → List Text → ℕ → List Text → Bool
match_from count tool i [] = count == length tool
match_from count tool i (seg ∷ segs) =
    let rest = match_from count tool (i + 1) segs in
    if text_eq seg (ascii "*")
    then (if i == count - 1
        then leb i (length tool)
        else if leb (length tool) i
        then false
        else rest)
    else elim (get_elem? tool i) [ none ↦ false | some t ↦ if text_eq t seg then rest else false ]

unfoldable pub match_pattern : Text → Text → Bool
unfolding match_from
match_pattern pattern tool_id =
    if text_eq pattern (ascii "*")
    then true
    else (let segments = split b'.' pattern in
        match_from (length segments) (split b'.' tool_id) 0 segments)

-- `u32::try_from(n).unwrap_or(u32::MAX)`, and the saturating operations on it.
abbrev u32_max : ℕ
u32_max = 2 ^ 32 - 1

abbrev saturate : ℕ → ℕ
saturate n = if leb n u32_max then n else u32_max

unfoldable pub pattern_specificity : Text → ℕ
pattern_specificity pattern =
    if text_eq pattern (ascii "*") then 0 else elim (strip_suffix (ascii ".*") pattern) [
      | some prefix ↦ saturate (saturate (length (split b'.' prefix)) * 2)
      | none ↦ saturate (saturate (saturate (length (split b'.' pattern)) * 2) + 1)
    ]
