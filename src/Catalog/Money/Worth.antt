-- ===== src/Catalog/Money/Worth.antt =====
-- What a subject is worth: its balance and what is held for its calls.
use zoen_gateway.Prelude.{
  ℕ, ◌+◌, ◌-◌, [], ◌∷◌, ◌≡◌, none, some, arith, if◌then◌else◌, Bool-cases, inl, inr,
}
use zoen_gateway.Prelude.Int.{
  saturating_add, saturating_sub, ℤ, pos, pos_part, ◌≤ℤ◌, i64_max, add_i64, sub_i64, ◌+ℤ◌, ◌-ℤ◌,
}
use zoen_gateway.Prelude.Text.{Text, text_eq, text_eq_iff}
use zoen_gateway.Prelude.Map.{
  Map, text_key, lookup, insert, remove, lookup-insert, remove_of_none, IsUnique,
}
use zoen_gateway.Catalog.Money.{Hold, Inner, balance}

-- What is held for a subject's calls.
unfoldable pub held : Text → Map Text Hold → ℕ
held subject [] = 0
held subject ((id, h) ∷ holds) =
    (if text_eq h.subject subject then pos_part h.reserved else 0) + held subject holds

abbrev pub share : Text → Hold → ℕ
share subject h = if text_eq h.subject subject then pos_part h.reserved else 0

pub held-insert :
    (subject id : Text) (h : Hold) (holds : Map Text Hold)
    → lookup id holds ≡ none
    → held subject (insert id h holds) ≡ share subject h + held subject holds
unfolding held insert lookup
held-insert subject id h [] e = omega arith
held-insert subject id h ((j, k) ∷ holds) e = ground (arith, held-insert subject id h holds)

pub held-remove :
    (subject id : Text) (h : Hold) (holds : Map Text Hold)
    → IsUnique holds
    → lookup id holds ≡ some h
    → held subject (remove id holds) + share subject h ≡ held subject holds
unfolding held remove lookup
held-remove subject id h [] u e = cc
held-remove subject id h ((j, k) ∷ holds) (a, u) e = elim (Bool-cases (text_eq j id)) [
  | inl here ↦ rw here (ground (arith, (text_eq_iff j id).0 here, remove_of_none id holds))
  | inr past ↦ ground (arith, held-remove subject id h holds u)
]

abbrev pub worth : Text → Inner → ℕ
worth subject g = pos_part (balance subject g) + held subject g.holds

-- Balances are not negative, holds are positive and stand once, and what a subject is worth fits an
-- `i64`.
pub record IsSound (g : Inner) : Type 0 where
  pub balances : (k : Text) (b : ℤ) → lookup k g.balance ≡ some b → pos 0 ≤ℤ b
  pub reserved : (id : Text) (h : Hold) → lookup id g.holds ≡ some h → pos 1 ≤ℤ h.reserved
  pub unique : IsUnique g.holds
  pub fits : (k : Text) → pos (worth k g) ≤ℤ i64_max

-- A change of one balance, in range.
pub balance-insert :
    (k j : Text) (b : ℤ) (g : Inner)
    → balance j (record g { balance = insert k b g.balance })
      ≡ (if text_eq k j then b else balance j g)
balance-insert k j b g = ground (arith, lookup-insert k j b g.balance)

pub add_i64_in_range :
    (a b : ℤ)
    → pos 0 ≤ℤ a
    → pos 0 ≤ℤ b
    → pos (pos_part a + pos_part b) ≤ℤ i64_max
    → add_i64 a b ≡ pos (pos_part a + pos_part b)
unfolding add_i64 ◌+ℤ◌
add_i64_in_range a b h k l = ground arith

pub sub_i64_in_range :
    (a b : ℤ) → pos 0 ≤ℤ b → b ≤ℤ a → a ≤ℤ i64_max → sub_i64 a b ≡ pos (pos_part a - pos_part b)
unfolding sub_i64 ◌-ℤ◌
sub_i64_in_range a b h k l = ground arith

pub saturating_add_in_range :
    (a b : ℤ)
    → pos 0 ≤ℤ a
    → pos 0 ≤ℤ b
    → pos (pos_part a + pos_part b) ≤ℤ i64_max
    → saturating_add a b ≡ pos (pos_part a + pos_part b)
unfolding saturating_add ◌+ℤ◌
saturating_add_in_range a b h k l = ground arith

pub saturating_sub_in_range :
    (a b : ℤ)
    → pos 0 ≤ℤ a
    → a ≤ℤ i64_max
    → pos 0 ≤ℤ b
    → b ≤ℤ i64_max
    → pos_part (saturating_sub a b) ≡ pos_part a - pos_part b
unfolding saturating_sub ◌-ℤ◌
saturating_sub_in_range a b h k l m = ground arith
