-- ===== src/Core/Position/Order.antt =====
-- Where a generated key stands among its neighbours.
use zoen_gateway.Prelude.{
  ◌+◌, ◌-◌, Bool, true, false, Option, none, some, [], ◌∷◌, ◌++◌, arith, ltb, ◌≡◌, ◌≢◌, refl, ◌⊎◌,
  inl, inr, Option-cases, All, ◌≤◌,
}
use zoen_gateway.Prelude.Text.{Text, ascii, text_eq_iff, text_lt}
use zoen_gateway.Core.Position.{change_last, increment, before, between, generate_key_between}

lt-append_zero : (key : Text) → text_lt key (key ++ b'0' ∷ []) ≡ true
unfolding text_lt
lt-append_zero [] = refl
lt-append_zero (b ∷ s) = ground (arith, lt-append_zero s)

abbrev next_of : Text → Option Text → Text
next_of key none = key ++ b'0' ∷ []
next_of key (some t) = t

lt-change_last :
    (key : Text) → text_lt key (next_of key (change_last (λ b. ltb b b'z') (λ b. b + 1) key)) ≡ true
unfolding change_last text_lt
lt-change_last [] = refl
lt-change_last (b ∷ []) = ground arith
lt-change_last (b ∷ c ∷ s) = ground (arith, lt-change_last (c ∷ s))

-- A key generated after the last one is above it.
pub lt-increment : (key : Text) → text_lt key (increment key) ≡ true
unfolding increment
lt-increment key = ground (arith, lt-change_last key)

change_last-lt :
    (key : Text) (t : Text)
    → change_last (λ b. ltb b'0' b) (λ b. b - 1) key ≡ some t
    → text_lt t key ≡ true
unfolding change_last text_lt
change_last-lt [] t h = cc
change_last-lt (b ∷ []) t h = ground arith
change_last-lt (b ∷ c ∷ s) t h =
    elim (Option-cases (change_last (λ b. ltb b'0' b) (λ b. b - 1) (c ∷ s))) [
      | inl e ↦ ground arith
      | inr (u, e) ↦ ground (arith, change_last-lt (c ∷ s) u e)
    ]

-- Every byte is `0` or above, as in every generated key.
abbrev pub IsKey : Text → Type 0
IsKey key = All (λ b. b'0' ≤ b) key

append_zero-lt :
    (prev next : Text)
    → IsKey next
    → text_lt prev next ≡ true
    → next ≢ prev ++ b'0' ∷ []
    → text_lt (prev ++ b'0' ∷ []) next ≡ true
unfolding text_lt
append_zero-lt prev [] k h n = cc
append_zero-lt [] (b ∷ []) k h n = ground arith
append_zero-lt [] (b ∷ c ∷ t) k h n = ground arith
append_zero-lt (a ∷ s) (b ∷ t) k h n = ground (arith, append_zero-lt s t)

-- A key generated between two neighbours in order is above the first, and below the second unless
-- the second is the first with a `0` behind it.
pub between_bounds :
    (prev next : Text)
    → IsKey next
    → text_lt prev next ≡ true
    → next ≢ prev ++ b'0' ∷ []
    → (text_lt prev (between prev next) ≡ true) × (text_lt (between prev next) next ≡ true)
unfolding between
between_bounds prev next k h n =
    ground (arith, lt-increment prev, lt-append_zero prev, append_zero-lt prev next k h n)

not-change_last-lt :
    (key : Text)
    → text_lt (next_of key (change_last (λ b. ltb b b'z') (λ b. b + 1) key)) (key ++ b'0' ∷ [])
      ≡ false
unfolding change_last text_lt
not-change_last-lt [] = refl
not-change_last-lt (b ∷ []) = ground arith
not-change_last-lt (b ∷ c ∷ s) = ground (arith, not-change_last-lt (c ∷ s))

not-increment-lt : (prev : Text) → text_lt (increment prev) (prev ++ b'0' ∷ []) ≡ false
unfolding increment
not-increment-lt prev = ground (arith, not-change_last-lt prev)

-- In the other case the key is not new: between any key and that key with a `0` behind it, the
-- generated key is the second neighbour itself.
pub between-append_zero : (prev : Text) → between prev (prev ++ b'0' ∷ []) ≡ prev ++ b'0' ∷ []
unfolding between
between-append_zero prev = ground (arith, lt-append_zero prev, not-increment-lt prev)

abbrev Below : Option Text → Text → Type 0
Below none key = Unit
Below (some prev) key = text_lt prev key ≡ true

abbrev Above : Option Text → Text → Type 0
Above none key = Unit
Above (some next) key = text_lt key next ≡ true

-- The neighbours leave room: the second can be lowered at its last byte or is the first key of
-- all, or the two are in order and not one `0` apart.
abbrev pub HasRoom : (Text → Bool) → Option Text → Option Text → Type 0
HasRoom from_utf8 prev none = Unit
HasRoom from_utf8 none (some next) =
    (next ≡ ascii "a0")
    ⊎ ((t : Text) × (change_last (λ b. ltb b'0' b) (λ b. b - 1) next ≡ some t)
        × (from_utf8 t ≡ true))
HasRoom from_utf8 (some prev) (some next) =
    IsKey next × (text_lt prev next ≡ true) × (next ≢ prev ++ b'0' ∷ [])

unlowered_first :
    (next : Text) → next ≡ ascii "a0" → change_last (λ b. ltb b'0' b) (λ b. b - 1) next ≡ none
unfolding change_last
unlowered_first next e = rw e refl

unlowered_empty : (next : Text) → next ≡ [] → change_last (λ b. ltb b'0' b) (λ b. b - 1) next ≡ none
unfolding change_last
unlowered_empty next e = rw e refl

lt_first : text_lt (ascii "Zz") (ascii "a0") ≡ true
unfolding text_lt
lt_first = refl

before-lt :
    (from_utf8 : Text → Bool) (next : Text)
    → HasRoom from_utf8 none (some next)
    → text_lt (before from_utf8 next) next ≡ true
unfolding before
before-lt from_utf8 next (inl e) = ground (arith, text_eq_iff next (ascii "a0"), lt_first)
before-lt from_utf8 next (inr (t, e, u)) = ground (
  arith,
  text_eq_iff next [],
  text_eq_iff next (ascii "a0"),
  unlowered_first next,
  unlowered_empty next,
  change_last-lt next t e,
)

-- Where the neighbours leave room, the generated key lies strictly between them, a missing
-- neighbour being no bound.
pub generate_key_between_bounds :
    (from_utf8 : Text → Bool) (prev next : Option Text)
    → HasRoom from_utf8 prev next
    → Below prev (generate_key_between from_utf8 prev next)
      × Above next (generate_key_between from_utf8 prev next)
unfolding generate_key_between
generate_key_between_bounds from_utf8 none none h = (tt, tt)
generate_key_between_bounds from_utf8 (some prev) none h = (lt-increment prev, tt)
generate_key_between_bounds from_utf8 none (some next) h = (tt, before-lt from_utf8 next h)
generate_key_between_bounds from_utf8 (some prev) (some next) (k, h, n) =
    between_bounds prev next k h n

not_first : (next : Text) → text_lt next (ascii "Zz") ≡ true → next ≢ ascii "a0"
unfolding text_lt
not_first next h e = cc (rw e at h)

lt-append_prefix :
    (next : Text) → text_lt next (ascii "Zz") ≡ true → text_lt next (ascii "Zz" ++ next) ≡ true
unfolding text_lt
lt-append_prefix [] h = refl
lt-append_prefix (a ∷ []) h = ground arith
lt-append_prefix (a ∷ b ∷ s) h = ground arith

-- A key whose last byte cannot be lowered, and that is below `Zz`, gets a key above it in place
-- of one below: nothing more can be put in front of it.
pub before-not_below :
    (from_utf8 : Text → Bool) (next : Text)
    → next ≢ []
    → change_last (λ b. ltb b'0' b) (λ b. b - 1) next ≡ none
    → text_lt next (ascii "Zz") ≡ true
    → text_lt next (before from_utf8 next) ≡ true
unfolding before
before-not_below from_utf8 next n e h = ground (
  arith,
  text_eq_iff next [],
  text_eq_iff next (ascii "a0"),
  not_first next h,
  lt-append_prefix next h,
)
