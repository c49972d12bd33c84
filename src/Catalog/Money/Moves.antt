-- ===== src/Catalog/Money/Moves.antt =====
-- Reserving for a call, and settling or releasing what was reserved.
use Prim.Native.Nat.{min}
use zoen_gateway.Prelude.{
  ℕ, ◌+◌, ◌-◌, ◌≤◌, ◌≡◌, refl, Bool, true, false, Option, none, some, arith, if◌then◌else◌,
  Bool-cases, Option-cases, inl, inr,
}
use zoen_gateway.Prelude.Int.{ℤ, pos, pos_part, ◌≤ℤ◌, i64_max, leb_ℤ, ltb_ℤ, add_i64, sub_i64}
use zoen_gateway.Prelude.Text.{Text, text_eq, text_eq_iff, text_eq_refl}
use zoen_gateway.Prelude.Map.{
  Map, text_key, lookup, insert, remove, lookup-insert, lookup-remove, IsUnique, insert-IsUnique,
  remove-IsUnique,
}
use zoen_gateway.Catalog.Money.{
  Hold, Inner, balance, set_balance, reserve, at_least_zero, refund_of, settle_hold, settle,
}
use zoen_gateway.Catalog.Money.Worth.{
  saturating_sub_in_range, held, share, held-insert, held-remove, worth, IsSound, balance-insert,
  add_i64_in_range, sub_i64_in_range,
}
use zoen_gateway.Catalog.Money.Credits.{balance_nonneg, worth-set_balance, set_balance-IsSound}

holds-IsSound :
    (g : Inner) (holds : Map Text Hold)
    → IsSound g
    → ((id : Text) (h : Hold) → lookup id holds ≡ some h → pos 1 ≤ℤ h.reserved)
    → IsUnique holds
    → ((k : Text) → held k holds ≤ held k g.holds)
    → IsSound (record g { holds = holds })
holds-IsSound g holds s r u l = record {
  balances = s.balances;
  reserved = r;
  unique = u;
  fits = λ k. omega (arith, s.fits k, l k);
}

hold_made : Text → Text → ℤ → Inner → Inner
hold_made subject call_id micro g =
    record (set_balance subject (sub_i64 (balance subject g) micro) g) {
      holds = insert call_id (record { subject = subject; reserved = micro }) g.holds;
    }

module _ (subject call_id : Text) (micro : ℤ) (g : Inner) (s : IsSound g)
    (positive : pos 1 ≤ℤ micro) (fresh : lookup call_id g.holds ≡ none)
    (enough : micro ≤ℤ balance subject g) where
  debit : sub_i64 (balance subject g) micro ≡ pos (pos_part (balance subject g) - pos_part micro)
  debit =
      sub_i64_in_range (balance subject g) micro (omega arith) enough
        (omega (arith, s.fits subject))

  worth-hold_made : (k : Text) → worth k (hold_made subject call_id micro g) ≡ worth k g
  unfolding hold_made
  worth-hold_made k = ground (
    arith,
    debit,
    text_eq_iff subject k,
    balance-insert subject k (sub_i64 (balance subject g) micro) g,
    held-insert k call_id (record { subject = subject; reserved = micro }) g.holds fresh,
  )

  hold_made-IsSound : IsSound (hold_made subject call_id micro g)
  unfolding hold_made
  hold_made-IsSound = record {
    balances = λ k b e. ground (
      arith,
      debit,
      s.balances k b,
      lookup-insert subject k (sub_i64 (balance subject g) micro) g.balance,
    );
    reserved = λ id h e. ground (
      arith,
      s.reserved id h,
      lookup-insert call_id id (record { subject = subject; reserved = micro }) g.holds,
    );
    unique = insert-IsUnique call_id _ g.holds fresh s.unique;
    fits = λ k.
        let same : worth k (hold_made subject call_id micro g) ≡ worth k g = worth-hold_made k in
        omega (arith, same, s.fits k);
  }

reserve_poor :
    (subject : Text) (g : Inner)
    → IsSound g
    → IsSound (set_balance subject (balance subject g) g)
      × ((k : Text) → worth k (set_balance subject (balance subject g) g) ≡ worth k g)
reserve_poor subject g s = (
  set_balance-IsSound subject (balance subject g) g s (balance_nonneg subject g s) (s.fits subject),
  λ k. ground (arith, text_eq_iff subject k, worth-set_balance subject k (balance subject g) g),
)

-- Reserving keeps the ledger sound and everyone's worth, on every branch: what leaves the balance is
-- held, and a refusal takes nothing.
pub reserve_lem :
    (subject call_id : Text) (micro : ℤ) (g : Inner)
    → IsSound g
    → IsSound (reserve subject call_id micro g).1
      × ((k : Text) → worth k (reserve subject call_id micro g).1 ≡ worth k g)
unfolding reserve
reserve_lem subject call_id micro g s = elim (Bool-cases (ltb_ℤ micro (pos 0))) [
  | inl negative ↦ rw negative (s, λ k. refl)
  | inr a ↦ elim (Bool-cases (leb_ℤ micro (pos 0))) [
    | inl zero ↦ rw (a, zero) (s, λ k. refl)
    | inr b ↦ elim (Option-cases (lookup call_id g.holds)) [
      | inr (h, taken) ↦ rw (a, b, taken) (s, λ k. refl)
      | inl fresh ↦ elim (Bool-cases (ltb_ℤ (balance subject g) micro)) [
        | inl poor ↦ rw (a, b, fresh, poor) (reserve_poor subject g s)
        | inr rich ↦
            let positive : pos 1 ≤ℤ micro = ground arith in
            let enough : micro ≤ℤ balance subject g = ground arith in
            rw (a, b, fresh, rich)
              (unfold hold_made in
                (
                  hold_made-IsSound subject call_id micro g s positive fresh enough,
                  worth-hold_made subject call_id micro g s positive fresh enough,
                ))
      ]
    ]
  ]
]

-- What a settlement charges.
abbrev pub charged : Option Hold → ℤ → ℕ
charged none actual = 0
charged (some h) actual = min (pos_part h.reserved) (pos_part (at_least_zero actual))

abbrev pub owner_is : Text → Option Hold → Bool
owner_is k none = false
owner_is k (some h) = text_eq h.subject k

module _ (g : Inner) (s : IsSound g) (call_id : Text) (h : Hold) (actual : ℤ)
    (found : lookup call_id g.holds ≡ some h) (bounded : actual ≤ℤ i64_max) where
  abbrev dropped : Inner
  dropped = record g { holds = remove call_id g.holds }

  parted : (k : Text) → held k (remove call_id g.holds) + share k h ≡ held k g.holds
  parted k = held-remove k call_id h g.holds s.unique found

  dropped-IsSound : IsSound dropped
  dropped-IsSound =
      holds-IsSound g (remove call_id g.holds) s
        (λ id k e. ground (arith, lookup-remove call_id id g.holds, s.reserved id k))
        (remove-IsUnique call_id g.holds s.unique) (λ k. omega (arith, parted k))

  share_self : share h.subject h ≡ pos_part h.reserved
  share_self = ground (arith, text_eq_refl h.subject)

  refund : pos_part (refund_of h actual) ≡ pos_part h.reserved - pos_part (at_least_zero actual)
  refund =
      saturating_sub_in_range h.reserved (at_least_zero actual)
        (omega (arith, s.reserved call_id h found))
        (omega (arith, s.reserved call_id h found, parted h.subject, share_self, s.fits h.subject))
        (ground arith) (ground arith)

  settled : Inner
  settled =
      set_balance h.subject (pos (pos_part (balance h.subject g) + pos_part (refund_of h actual)))
        dropped

  settled-IsSound : IsSound settled
  unfolding settled
  settled-IsSound =
      set_balance-IsSound h.subject
        (pos (pos_part (balance h.subject g) + pos_part (refund_of h actual))) dropped
        dropped-IsSound (omega arith)
        (omega (arith, refund, parted h.subject, share_self, s.fits h.subject))

  worth-settled :
      (k : Text)
      → worth k settled + (if text_eq h.subject k then charged (some h) actual else 0) ≡ worth k g
  unfolding settled
  worth-settled k = ground (
    arith,
    refund,
    parted k,
    text_eq_iff h.subject k,
    worth-set_balance h.subject k
        (pos (pos_part (balance h.subject g) + pos_part (refund_of h actual))) dropped,
  )

  credit :
      ltb_ℤ (pos 0) (refund_of h actual) ≡ true
      → add_i64 (balance h.subject dropped) (refund_of h actual)
        ≡ pos (pos_part (balance h.subject g) + pos_part (refund_of h actual))
  credit positive =
      add_i64_in_range (balance h.subject g) (refund_of h actual) (balance_nonneg h.subject g s)
        (ground arith) (omega (arith, refund, parted h.subject, share_self, s.fits h.subject))

  settle_hold_lem :
      IsSound (settle_hold (some h) call_id actual g)
      × ((k : Text)
          → worth k (settle_hold (some h) call_id actual g)
              + (if text_eq h.subject k then charged (some h) actual else 0)
            ≡ worth k g)
      × ((settle_hold (some h) call_id actual g).holds ≡ remove call_id g.holds)
  unfolding settle_hold
  settle_hold_lem = elim (Bool-cases (ltb_ℤ (pos 0) (refund_of h actual))) [
    | inl some_left ↦
        rw (some_left, credit some_left) (unfold settled in (settled-IsSound, worth-settled, refl))
    | inr none_left ↦
        rw none_left
          (dropped-IsSound, λ k. ground (arith, refund, parted k, text_eq_iff h.subject k), refl)
  ]

-- On a sound ledger, settling for an actual cost of at most the largest `i64` removes the hold and
-- charges its
-- subject the actual cost, at most what was reserved and nothing below zero; the rest goes back to the
-- balance. The ledger stays sound, no one else's worth changes, no other hold does, and without a hold
-- nothing is charged.
pub settle_lem :
    (call_id : Text) (actual : ℤ) (g : Inner)
    → IsSound g
    → actual ≤ℤ i64_max
    → IsSound (settle call_id actual g).1
      × ((k : Text)
          → worth k (settle call_id actual g).1
              + (if owner_is k (lookup call_id g.holds)
                  then charged (lookup call_id g.holds) actual
                  else 0)
            ≡ worth k g)
      × ((id : Text)
          → lookup id (settle call_id actual g).1.holds
            ≡ (if text_eq call_id id then none else lookup id g.holds))
unfolding settle settle_hold
settle_lem call_id actual g s b = elim (Option-cases (lookup call_id g.holds)) [
  | inl missing ↦
      rw (missing, settle_hold)
        (s, λ k. ground arith, λ id. ground (arith, missing, text_eq_iff call_id id))
  | inr (h, found) ↦
      let (sound, worths, holds) = settle_hold_lem g s call_id h actual found b in
      rw found (sound, worths, λ id. ground (arith, holds, lookup-remove call_id id g.holds))
]
