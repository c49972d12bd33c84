-- ===== src/Prelude/Map.antt =====
-- Maps keyed by a type with an order, as association lists that an insertion keeps in key order:
-- a `BTreeMap`, or a `HashMap` of which only the contents count.
use mathlib.Core.Path.{◌≡◌, refl}
use mathlib.Core.Logic.{◌↔◌}
use mathlib.Core.Bool.{Bool, true, ◌&&◌, ◌||◌}
use mathlib.Core.Option.{Option, none, some}
use mathlib.Core.List.{List, [], ◌∷◌}
use native.Mathlib.Omega.{arith}
use zoen_gateway.Prelude.Tests.{if◌then◌else◌}
use zoen_gateway.Prelude.Text.{Text, text_eq, text_eq_iff, text_lt}

pub record Key (K : Type 0) : Type 0 where
  pub beq : K → K → Bool
  pub blt : K → K → Bool
  pub beq_iff : (a b : K) → (beq a b ≡ true) ↔ (a ≡ b)

instance abbrev pub text_key : Key Text
text_key = record { beq = text_eq; blt = text_lt; beq_iff = text_eq_iff }

abbrev pub pair_eq : Text × Text → Text × Text → Bool
pair_eq (a, b) (c, d) = text_eq a c && text_eq b d

abbrev pub pair_lt : Text × Text → Text × Text → Bool
pair_lt (a, b) (c, d) = text_lt a c || (text_eq a c && text_lt b d)

pub pair_eq_iff : (a b : Text × Text) → (pair_eq a b ≡ true) ↔ (a ≡ b)
pair_eq_iff (a, b) (c, d) = ground (arith, text_eq_iff a c, text_eq_iff b d)

instance abbrev pub pair_key : Key (Text × Text)
pair_key = record { beq = pair_eq; blt = pair_lt; beq_iff = pair_eq_iff }

abbrev pub Map {ℓ} : Type 0 → Type ℓ → Type ℓ
Map K V = List (K × V)

module _ {ℓ} {K : Type 0} {V : Type ℓ} ⦃key : Key K⦄ where
  unfoldable pub lookup : K → Map K V → Option V
  lookup k [] = none
  lookup k ((j, v) ∷ m) = if key.beq j k then some v else lookup k m

  unfoldable pub insert : K → V → Map K V → Map K V
  insert k v [] = (k, v) ∷ []
  insert k v ((j, w) ∷ m) =
      if key.beq j k
      then (k, v) ∷ m
      else if key.blt k j
      then (k, v) ∷ (j, w) ∷ m
      else (j, w) ∷ insert k v m

  -- `retain`: the entries that pass the test.
  unfoldable pub retain : (K → V → Bool) → Map K V → Map K V
  retain p [] = []
  retain p ((j, v) ∷ m) = let rest = retain p m in if p j v then (j, v) ∷ rest else rest

  unfoldable pub remove : K → Map K V → Map K V
  remove k [] = []
  remove k ((j, v) ∷ m) = let rest = remove k m in if key.beq j k then rest else (j, v) ∷ rest

  unfoldable pub values : Map K V → List V
  values [] = []
  values ((j, v) ∷ m) = v ∷ values m

module _ {ℓ} {K : Type 0} {V : Type ℓ} ⦃key : Key K⦄ where
  pub lookup-insert :
      (k j : K) (v : V) (m : Map K V)
      → lookup j (insert k v m) ≡ (if key.beq k j then some v else lookup j m)
  unfolding lookup insert
  lookup-insert k j v [] = refl
  lookup-insert k j v ((i, w) ∷ m) =
      ground (arith, key.beq_iff k j, key.beq_iff i k, key.beq_iff i j, lookup-insert k j v m)

  pub lookup-remove :
      (k j : K) (m : Map K V) → lookup j (remove k m) ≡ (if key.beq k j then none else lookup j m)
  unfolding lookup remove
  lookup-remove k j [] = ground arith
  lookup-remove k j ((i, w) ∷ m) =
      ground (arith, key.beq_iff k j, key.beq_iff i k, key.beq_iff i j, lookup-remove k j m)

  pub lookup-insert_self : (k : K) (v : V) (m : Map K V) → lookup k (insert k v m) ≡ some v
  lookup-insert_self k v m = ground (arith, lookup-insert k k v m, key.beq_iff k k)

-- Every key stands once.
abbrev pub IsUnique {ℓ} : {K : Type 0} {V : Type ℓ} ⦃key : Key K⦄ → Map K V → Type ℓ
IsUnique [] = Unit
IsUnique ((j, v) ∷ m) = (lookup j m ≡ none) × IsUnique m

module _ {ℓ} {K : Type 0} {V : Type ℓ} ⦃key : Key K⦄ where
  pub remove_of_none : (k : K) (m : Map K V) → lookup k m ≡ none → remove k m ≡ m
  unfolding lookup remove
  remove_of_none k [] h = refl
  remove_of_none k ((j, v) ∷ m) h = ground (arith, remove_of_none k m)

  pub remove-insert :
      (k : K) (v : V) (m : Map K V) → lookup k m ≡ none → remove k (insert k v m) ≡ m
  unfolding lookup insert remove
  remove-insert k v [] h = ground (arith, key.beq_iff k k)
  remove-insert k v ((j, w) ∷ m) h = ground (
    arith,
    key.beq_iff j k,
    key.beq_iff k j,
    key.beq_iff k k,
    remove-insert k v m,
    remove_of_none k m,
  )

  pub insert-IsUnique :
      (k : K) (v : V) (m : Map K V) → lookup k m ≡ none → IsUnique m → IsUnique (insert k v m)
  unfolding lookup insert
  insert-IsUnique k v [] n u = (refl, tt)
  insert-IsUnique k v ((j, w) ∷ m) n (a, u) =
      ground (arith, key.beq_iff j k, key.beq_iff k j, insert-IsUnique k v m, lookup-insert k j v m)

  pub remove-IsUnique : (k : K) (m : Map K V) → IsUnique m → IsUnique (remove k m)
  unfolding lookup remove
  remove-IsUnique k [] u = tt
  remove-IsUnique k ((j, v) ∷ m) (a, u) = ground (arith, remove-IsUnique k m, lookup-remove k j m)
