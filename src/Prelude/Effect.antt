-- ===== src/Prelude/Effect.antt =====
-- Operations on a state that may fail. What was written before a failure stays written, so the
-- state comes back beside the error too.
use mathlib.Core.Logic.{◌⊎◌, inl, inr}
use mathlib.Core.Path.{◌≡◌, refl}
use mathlib.Core.Bool.{Bool, true, false}
use mathlib.Core.Option.{Option, none, some}

pub data Result (E A : Type 0) : Type 0 where
  ok : A → Result E A
  err : E → Result E A

abbrev pub is_ok : {E A : Type 0} → Result E A → Bool
is_ok (ok a) = true
is_ok (err e) = false

-- `Option::ok_or`.
abbrev pub ok_or : {E A : Type 0} → Option A → E → Result E A
ok_or none e = err e
ok_or (some a) e = ok a

abbrev pub Op : Type 0 → Type 0 → Type 0 → Type 0
Op S E A = S → Result E A × S

module _ {S E A : Type 0} where
  abbrev pub pure : A → Op S E A
  pure a s = (ok a, s)

  abbrev pub raise : E → Op S E A
  raise e s = (err e, s)

  abbrev pub lift : Result E A → Op S E A
  lift r s = (r, s)

  abbrev pub gets : (S → A) → Op S E A
  gets f s = (ok (f s), s)

module _ {S E A B : Type 0} where
  abbrev pub continue : Result E A → (A → Op S E B) → Op S E B
  continue (ok a) f s = f a s
  continue (err e) f s = (err e, s)

  infixl 5 ◌>>=◌ ◌>>◌
  abbrev pub ◌>>=◌ : Op S E A → (A → Op S E B) → Op S E B
  ◌>>=◌ m f s = continue (m s).0 f (m s).1

  abbrev pub ◌>>◌ : Op S E A → Op S E B → Op S E B
  m >> n = m >>= λ _. n

pub Result-cases :
    {E A : Type 0} (r : Result E A) → ((a : A) × (r ≡ ok a)) ⊎ ((e : E) × (r ≡ err e))
Result-cases (ok a) = inl (a, refl)
Result-cases (err e) = inr (e, refl)
