-- ===== src/Prelude/Sort.antt =====
-- `sort_by`: a stable sort by a comparison, as an insertion sort, with what its result keeps.
use mathlib.Core.Path.{◌≡◌}
use mathlib.Core.Bool.{Bool, true, false}
use mathlib.Core.List.{List, [], ◌∷◌}
use native.Mathlib.Omega.{arith}
use Prim.Native.Nat.{Ordering, compare}
use zoen_gateway.Prelude.Tests.{if◌then◌else◌, Bool-cases}
use mathlib.Core.Logic.{◌⊎◌, ◌↔◌, inl, inr}
use zoen_gateway.Prelude.Text.{
  Text, text_eq_iff, text_lt, text_lt_irrefl, text_lt_trans, text_lt_total, text_cmp,
}
use zoen_gateway.Prelude.Lists.{In}

-- `Ordering::then`, `Ordering::is_gt`.
abbrev pub then_with : Ordering → Ordering → Ordering
then_with Ordering.eq o = o
then_with Ordering.lt o = Ordering.lt
then_with Ordering.gt o = Ordering.gt

abbrev pub is_gt : Ordering → Bool
is_gt Ordering.gt = true
is_gt _ = false

abbrev pub flip : Ordering → Ordering
flip Ordering.lt = Ordering.gt
flip Ordering.eq = Ordering.eq
flip Ordering.gt = Ordering.lt

-- The laws of `Ord::cmp`.
pub record IsOrder {A : Type 0} (cmp : A → A → Ordering) : Type 0 where
  pub flipped : (x y : A) → cmp y x ≡ flip (cmp x y)
  pub trans : (x y z : A) → cmp x y ≡ Ordering.lt → cmp y z ≡ Ordering.lt → cmp x z ≡ Ordering.lt
  pub eq_left : (x y z : A) → cmp x y ≡ Ordering.eq → cmp x z ≡ cmp y z

-- Comparing by one order and then by another is an order.
pub IsOrder-then_with :
    {A : Type 0} (f g : A → A → Ordering)
    → IsOrder f
    → IsOrder g
    → IsOrder (λ x y. then_with (f x y) (g x y))
IsOrder-then_with f g hf hg = record {
  flipped = λ x y. ground (arith, hf.flipped x y, hg.flipped x y);
  trans = λ x y z p q. ground (
    arith,
    hf.trans x y z,
    hg.trans x y z,
    hf.eq_left x y z,
    hf.eq_left z y x,
    hf.flipped y z,
    hf.flipped x z,
    hf.flipped x y,
  );
  eq_left = λ x y z p. ground (arith, hf.eq_left x y z, hg.eq_left x y z);
}

pub IsOrder-on :
    {A B : Type 0} (key : A → B) (f : B → B → Ordering)
    → IsOrder f
    → IsOrder (λ x y. f (key x) (key y))
IsOrder-on key f h = record {
  flipped = λ x y. h.flipped (key x) (key y);
  trans = λ x y z. h.trans (key x) (key y) (key z);
  eq_left = λ x y z. h.eq_left (key x) (key y) (key z);
}

pub compare-IsOrder : IsOrder compare
compare-IsOrder = record {
  flipped = λ x y. ground arith;
  trans = λ x y z p q. ground arith;
  eq_left = λ x y z p. ground arith;
}

text_cmp_cases :
    (s t : Text)
    → ((text_cmp s t ≡ Ordering.lt) × (text_lt s t ≡ true))
      ⊎ (((text_cmp s t ≡ Ordering.eq) × (s ≡ t))
          ⊎ ((text_cmp s t ≡ Ordering.gt) × (text_lt t s ≡ true)))
unfolding text_cmp
text_cmp_cases s t = ground (arith, text_eq_iff s t, text_lt_total s t)

pub text_cmp-IsOrder : IsOrder text_cmp
text_cmp-IsOrder = record {
  flipped = λ x y. ground (
    arith,
    text_cmp_cases x y,
    text_cmp_cases y x,
    text_lt_irrefl x,
    text_lt_irrefl y,
    text_lt_trans x y x,
  );
  trans = λ x y z p q. ground (
    arith,
    text_cmp_cases x y,
    text_cmp_cases y z,
    text_cmp_cases x z,
    text_lt_irrefl x,
    text_lt_trans x y z,
    text_lt_trans x z x,
    text_lt_trans z x y,
    text_lt_irrefl y,
  );
  eq_left = λ x y z p. elim (text_cmp_cases x y) [
    | inl (c, h) ↦ cc
    | inr (inl (c, h)) ↦ rw h
    | inr (inr (c, h)) ↦ cc
  ];
}

module _ {A : Type 0} (cmp : A → A → Ordering) where
  unfoldable pub insert_by : A → List A → List A
  insert_by x [] = x ∷ []
  insert_by x (y ∷ ys) = if is_gt (cmp x y) then y ∷ insert_by x ys else x ∷ y ∷ ys

  unfoldable pub sort_by : List A → List A
  unfolding insert_by
  sort_by [] = []
  sort_by (x ∷ xs) = insert_by x (sort_by xs)

  -- Every element is at or before all that follow it.
  abbrev pub IsSorted : List A → Type 0
  IsSorted [] = Unit
  IsSorted (x ∷ xs) = ((y : A) → In y xs → is_gt (cmp x y) ≡ false) × IsSorted xs

module _ {A : Type 0} (cmp : A → A → Ordering) where
  In-insert_by : (a x : A) (ys : List A) → In a (insert_by cmp x ys) ↔ ((a ≡ x) ⊎ In a ys)
  unfolding insert_by
  In-insert_by a x [] = ground arith
  In-insert_by a x (y ∷ ys) = ground (arith, In-insert_by a x ys)

  -- Sorting keeps exactly the elements.
  pub In-sort_by : (a : A) (xs : List A) → In a (sort_by cmp xs) ↔ In a xs
  unfolding sort_by
  In-sort_by a [] = ground arith
  In-sort_by a (x ∷ xs) = ground (arith, In-insert_by a x (sort_by cmp xs), In-sort_by a xs)

  module _ (order : IsOrder cmp) where
    asym : (x y : A) → is_gt (cmp x y) ≡ true → is_gt (cmp y x) ≡ false
    asym x y h = ground (arith, order.flipped x y)

    trans :
        (x y z : A) → is_gt (cmp x y) ≡ false → is_gt (cmp y z) ≡ false → is_gt (cmp x z) ≡ false
    trans x y z h k = ground (
      arith,
      order.trans x y z,
      order.eq_left x y z,
      order.eq_left z y x,
      order.flipped x y,
      order.flipped y z,
      order.flipped x z,
    )

    insert_by-IsSorted : (x : A) (ys : List A) → IsSorted cmp ys → IsSorted cmp (insert_by cmp x ys)
    unfolding insert_by
    insert_by-IsSorted x [] h = (λ y m. absurd m, tt)
    insert_by-IsSorted x (y ∷ ys) (first, rest) = elim (Bool-cases (is_gt (cmp x y))) [
      | inl after ↦ rw after (
        λ z m. ground (arith, In-insert_by z x ys, asym x y, first z),
        insert_by-IsSorted x ys rest,
      )
      | inr before ↦ rw before (λ z m. ground (arith, trans x y z, first z), (first, rest))
    ]

    -- The result is in order.
    pub sort_by-IsSorted : (xs : List A) → IsSorted cmp (sort_by cmp xs)
    unfolding sort_by
    sort_by-IsSorted [] = tt
    sort_by-IsSorted (x ∷ xs) = insert_by-IsSorted x (sort_by cmp xs) (sort_by-IsSorted xs)
