-- ===== src/Catalog/Money/Credits.antt =====
-- What the two ways to credit a subject do to the worth of every subject.
use zoen_gateway.Prelude.{
  ◌+◌, ◌≡◌, true, arith, if◌then◌else◌, is_some, Bool-cases, Option-cases, inl, inr,
}
use zoen_gateway.Prelude.Int.{ℤ, pos, pos_part, ◌≤ℤ◌, i64_max, leb_ℤ}
use zoen_gateway.Prelude.Text.{Text, text_eq, text_eq_iff, text_eq_refl}
use zoen_gateway.Prelude.Map.{Map, text_key, lookup, insert, lookup-insert}
use zoen_gateway.Catalog.Money.{
  Inner, balance, set_balance, signup_grant_micro, ensure_signup_grant, grant,
}
use zoen_gateway.Catalog.Money.Worth.{
  held, worth, IsSound, balance-insert, add_i64_in_range, saturating_add_in_range,
}

pub balance_nonneg : (k : Text) (g : Inner) → IsSound g → pos 0 ≤ℤ balance k g
balance_nonneg k g s = elim (Option-cases (lookup k g.balance)) [
  | inl e ↦ rw e (omega arith)
  | inr (b, e) ↦ rw e (s.balances k b e)
]

pub worth-set_balance :
    (k j : Text) (v : ℤ) (g : Inner)
    → worth j (set_balance k v g) ≡ (if text_eq k j then pos_part v + held j g.holds else worth j g)
worth-set_balance k j v g = ground (arith, balance-insert k j v g)

pub set_balance-IsSound :
    (k : Text) (v : ℤ) (g : Inner)
    → IsSound g
    → pos 0 ≤ℤ v
    → pos (pos_part v + held k g.holds) ≤ℤ i64_max
    → IsSound (set_balance k v g)
set_balance-IsSound k v g s h l = record {
  balances = λ j b e. ground (arith, lookup-insert k j v g.balance, s.balances j b);
  reserved = s.reserved;
  unique = s.unique;
  fits = λ j. ground (arith, worth-set_balance k j v g, s.fits j, text_eq_iff k j);
}

granted-IsSound :
    (g : Inner) (paid : Map Text (Unit {0})) → IsSound g → IsSound (record g { granted = paid })
granted-IsSound g paid s = record {
  balances = s.balances;
  reserved = s.reserved;
  unique = s.unique;
  fits = s.fits;
}

-- The signup grant is paid once, into a worth that has room for it, and to no one else.
pub ensure_signup_grant_lem :
    (subject : Text) (g : Inner)
    → IsSound g
    → pos (worth subject g + 1_000_000) ≤ℤ i64_max
    → IsSound (ensure_signup_grant subject g).1
      × (is_some (lookup subject (ensure_signup_grant subject g).1.granted) ≡ true)
      × ((k : Text)
          → worth k (ensure_signup_grant subject g).1 ≡ (
              if text_eq subject k
              then (if is_some (lookup subject g.granted) then worth k g else worth k g + 1_000_000)
              else worth k g))
unfolding ensure_signup_grant
ensure_signup_grant_lem subject g s h = elim (Bool-cases (is_some (lookup subject g.granted))) [
  | inl paid ↦ rw paid (s, paid, λ k. ground arith)
  | inr unpaid ↦
      let credit =
        add_i64_in_range (balance subject g) signup_grant_micro (balance_nonneg subject g s)
          (omega arith) (omega arith) in
      let g' = record g { granted = insert subject tt g.granted } in
      rw (unpaid, credit)
        (
          set_balance-IsSound subject (pos (pos_part (balance subject g) + 1_000_000)) g'
              (granted-IsSound g (insert subject tt g.granted) s) (omega arith) (omega arith),
          ground (arith, lookup-insert subject subject tt g.granted, text_eq_refl subject),
          λ k. ground (
            arith,
            text_eq_iff subject k,
            worth-set_balance subject k (pos (pos_part (balance subject g) + 1_000_000)) g,
          ),
        )
]

-- A grant of a positive amount adds it to the subject's worth, where there is room for it, and to no
-- one else's; any other amount is refused and changes nothing.
pub grant_lem :
    (subject : Text) (micro : ℤ) (g : Inner)
    → IsSound g
    → pos (worth subject g + pos_part micro) ≤ℤ i64_max
    → IsSound (grant subject micro g).1
      × ((k : Text)
          → worth k (grant subject micro g).1
            ≡ (if text_eq subject k then worth k g + pos_part micro else worth k g))
unfolding grant
grant_lem subject micro g s h = elim (Bool-cases (leb_ℤ micro (pos 0))) [
  | inl refused ↦ rw refused (s, λ k. ground arith)
  | inr granted ↦
      let credit =
        saturating_add_in_range (balance subject g) micro (balance_nonneg subject g s)
          (ground arith) (omega arith) in
      rw (granted, credit)
        (
          set_balance-IsSound subject (pos (pos_part (balance subject g) + pos_part micro)) g s
              (omega arith) (omega arith),
          λ k. ground (
            arith,
            text_eq_iff subject k,
            worth-set_balance subject k (pos (pos_part (balance subject g) + pos_part micro)) g,
          ),
        )
]
