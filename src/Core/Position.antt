-- ===== src/Core/Position.antt =====
-- crates/executor-core/src/position.rs: the keys that order policies. A lower key comes first.
pub mod Order
use zoen_gateway.Prelude.{
  ℕ, ◌+◌, ◌-◌, Bool, true, false, Option, none, some, List, [], ◌∷◌, ◌++◌, arith, ltb, ◌||◌,
  if◌then◌else◌,
}
use zoen_gateway.Prelude.Text.{Text, ascii, text_eq, text_lt}

-- `bytes.last_mut()` with a guard and a change: the text with its last byte changed, if the byte
-- passes the test.
unfoldable pub change_last : (ℕ → Bool) → (ℕ → ℕ) → Text → Option Text
change_last test change [] = none
change_last test change (b ∷ []) = if test b then some (change b ∷ []) else none
change_last test change (b ∷ c ∷ s) = elim (change_last test change (c ∷ s)) [
  | none ↦ none
  | some t ↦ some (b ∷ t)
]

-- Only an ASCII byte changes, to an ASCII byte, so `String::from_utf8` succeeds.
unfoldable pub increment : Text → Text
unfolding change_last
increment key = elim (change_last (λ b. ltb b b'z') (λ b. b + 1) key) [
  | some bytes ↦ bytes
  | none ↦ key ++ b'0' ∷ []
]

-- `from_utf8` is the standard library's test that the bytes are UTF-8.
unfoldable pub before : (Text → Bool) → Text → Text
unfolding change_last
before from_utf8 next =
    if text_eq next [] || text_eq next (ascii "a0")
    then ascii "Zz"
    else elim (change_last (λ b. ltb b'0' b) (λ b. b - 1) next) [
      | some bytes ↦ if from_utf8 bytes then bytes else ascii "Zz"
      | none ↦ ascii "Zz" ++ next
    ]

unfoldable pub between : Text → Text → Text
between prev next =
    if text_lt prev next
    then (let candidate = increment prev in
        if text_lt candidate next then candidate else prev ++ b'0' ∷ [])
    else increment prev

unfoldable pub generate_key_between : (Text → Bool) → Option Text → Option Text → Text
generate_key_between from_utf8 none none = ascii "a0"
generate_key_between from_utf8 (some prev) none = increment prev
generate_key_between from_utf8 none (some next) = before from_utf8 next
generate_key_between from_utf8 (some prev) (some next) = between prev next
