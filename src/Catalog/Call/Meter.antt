-- ===== src/Catalog/Call/Meter.antt =====
-- Opening, closing and cancelling the meter of a call, for a subject that has had its signup grant.
use Prim.Native.Nat.{min}
use zoen_gateway.Prelude.{
  subst, none, ap, ◌∙◌, ℕ, ◌+◌, true, false, some, ◌≡◌, refl, arith, if◌then◌else◌, is_some,
  Bool-cases, inl, inr,
}
use zoen_gateway.Prelude.Int.{ℤ, pos, pos_part, ltb_ℤ, ◌≤ℤ◌, i64_max}
use zoen_gateway.Prelude.Text.{Text, text_eq}
use zoen_gateway.Prelude.Map.{
  Map, insert, remove, remove-insert, lookup-insert_self, text_key, lookup,
}
use zoen_gateway.Prelude.Effect.{ok, err}
use zoen_gateway.Catalog.Error.{CatalogError}
use zoen_gateway.Catalog.Money
use zoen_gateway.Catalog.Money.{
  at_least_zero, Hold, Inner, ensure_signup_grant, reserve, settle, settle_hold, release,
}
use zoen_gateway.Catalog.Money.Worth.{worth, held, IsSound}
use zoen_gateway.Catalog.Money.Undo.{reserve-ok, reserve-err, settle-holds}
use zoen_gateway.Catalog.Money.Moves.{reserve_lem, settle_lem}
use zoen_gateway.Catalog.Service.{on_ledger, Service}
use zoen_gateway.Catalog.Call.{open_meter, close_meter, cancel_meter}

-- The ledger is sound, and the subject has had its grant.
pub record IsReady (subject : Text) (s : Service) : Type 0 where
  pub sound : IsSound s.ledger
  pub granted : is_some (lookup subject s.ledger.granted) ≡ true

-- From one state to another the subject has paid an amount: its balance is less by it, every other
-- balance is the same, and the holds are the same, so that nothing is left held.
pub record Paid (subject : Text) (amount : ℕ) (s s' : Service) : Type 0 where
  pub ready : IsReady subject s'
  pub balances :
      (k : Text)
      → pos_part (Money.balance k s'.ledger) + (if text_eq subject k then amount else 0)
        ≡ pos_part (Money.balance k s.ledger)
  pub holds : s'.ledger.holds ≡ s.ledger.holds

abbrev opened_holds : Text → Text → ℤ → Map Text Hold → Map Text Hold
opened_holds subject call_id meter holds =
    if ltb_ℤ (pos 0) meter
    then insert call_id (record { subject = subject; reserved = meter }) holds
    else holds

-- From one state to another a meter has been opened: a positive meter has its own hold.
pub record Opened (subject call_id : Text) (meter : ℤ) (s s' : Service) : Type 0 where
  pub ready : IsReady subject s'
  pub worths : (k : Text) → worth k s'.ledger ≡ worth k s.ledger
  pub holds : s'.ledger.holds ≡ opened_holds subject call_id meter s.ledger.holds
  pub fresh : ltb_ℤ (pos 0) meter ≡ true → lookup call_id s.ledger.holds ≡ none

pub Paid-refl : (subject : Text) (s : Service) → IsReady subject s → Paid subject 0 s s
Paid-refl subject s r = record { ready = r; balances = λ k. ground arith; holds = refl }

-- What is free adds nothing.
pub Paid-after_free :
    (subject : Text) (a : ℕ) (s t u : Service)
    → Paid subject 0 s t
    → Paid subject a t u
    → Paid subject a s u
Paid-after_free subject a s t u p q = record {
  ready = q.ready;
  balances = λ k. ground (arith, p.balances k, q.balances k);
  holds = q.holds ∙ p.holds;
}

-- With the same holds, what a worth loses the balance loses.
balance_of_worth :
    (k : Text) (n : ℕ) (g g' : Inner)
    → g'.holds ≡ g.holds
    → worth k g' + n ≡ worth k g
    → pos_part (Money.balance k g') + n ≡ pos_part (Money.balance k g)
balance_of_worth k n g g' same e = omega (arith, ap (held k) same, e)

ensure_granted :
    (subject : Text) (g : Inner)
    → is_some (lookup subject g.granted) ≡ true
    → ensure_signup_grant subject g ≡ (ok (Money.balance subject g), g)
unfolding ensure_signup_grant
ensure_granted subject g h = rw h

granted-reserve :
    (subject call_id : Text) (micro : ℤ) (g : Inner)
    → (reserve subject call_id micro g).1.granted ≡ g.granted
unfolding reserve
granted-reserve subject call_id micro g = ground arith

granted-settle :
    (call_id : Text) (actual : ℤ) (g : Inner) → (settle call_id actual g).1.granted ≡ g.granted
unfolding settle settle_hold
granted-settle call_id actual g = ground arith

open_meter_on :
    (subject call_id : Text) (meter : ℤ) (s : Service)
    → IsReady subject s
    → ltb_ℤ (pos 0) meter ≡ true
    → open_meter subject call_id meter s ≡ on_ledger (reserve subject call_id meter) s
open_meter_on subject call_id meter s r on = rw (on, ensure_granted subject s.ledger r.granted)

positive : (meter : ℤ) → ltb_ℤ (pos 0) meter ≡ true → pos 1 ≤ℤ meter
positive meter on = ground arith

reserve-IsReady :
    (subject call_id : Text) (meter : ℤ) (s : Service)
    → IsReady subject s
    → IsReady subject (on_ledger (reserve subject call_id meter) s).1
reserve-IsReady subject call_id meter s r = record {
  sound = (reserve_lem subject call_id meter s.ledger r.sound).0;
  granted = rw (granted-reserve subject call_id meter s.ledger) r.granted;
}

-- A meter that is opened has its hold, and one that is refused changes nothing.
pub open_meter_lem :
    (subject call_id : Text) (meter : ℤ) (s : Service)
    → IsReady subject s
    → ((open_meter subject call_id meter s).0 ≡ ok tt
        → Opened subject call_id meter s (open_meter subject call_id meter s).1)
      × ((e : CatalogError)
          → (open_meter subject call_id meter s).0 ≡ err e
          → Paid subject 0 s (open_meter subject call_id meter s).1)
open_meter_lem subject call_id meter s r = elim (Bool-cases (ltb_ℤ (pos 0) meter)) [
  | inl on ↦
      let (sound, worths) = reserve_lem subject call_id meter s.ledger r.sound in
      let ready = reserve-IsReady subject call_id meter s r in
      rw (open_meter_on subject call_id meter s r on) (
        λ e.
            let (fresh, made) = reserve-ok subject call_id meter s.ledger (positive meter on) e in
            record { ready = ready; worths = worths; holds = rw on made; fresh = λ _. fresh },
        λ x e.
            let same = reserve-err subject call_id meter s.ledger x e in
            record {
              ready = ready;
              balances = λ k.
                  balance_of_worth k (if text_eq subject k then 0 else 0) s.ledger
                    (reserve subject call_id meter s.ledger).1 same (ground (arith, worths k));
              holds = same;
            },
      )
  | inr off ↦ rw off (
    λ e. record { ready = r; worths = λ k. refl; holds = rw off refl; fresh = λ on. ground arith },
    λ x e. Paid-refl subject s r,
  )
]

settle-ok : (call_id : Text) (actual : ℤ) (g : Inner) → (settle call_id actual g).0 ≡ ok tt
unfolding settle
settle-ok call_id actual g = refl

release_eq : (call_id : Text) (g : Inner) → release call_id g ≡ settle call_id (pos 0) g
unfolding release
release_eq call_id g = refl

whole_charge :
    (meter : ℤ)
    → ltb_ℤ (pos 0) meter ≡ true
    → min (pos_part meter) (pos_part (at_least_zero meter)) ≡ pos_part meter
whole_charge meter on = ground arith

free_charge : (meter : ℤ) → min (pos_part meter) (pos_part (at_least_zero (pos 0))) ≡ 0
free_charge meter = omega arith

no_charge : (meter : ℤ) → ltb_ℤ (pos 0) meter ≡ false → 0 ≡ pos_part meter
no_charge meter off = ground arith

module _ (subject call_id : Text) (meter : ℤ) (s0 s : Service)
    (o : Opened subject call_id meter s0 s) (u : meter ≤ℤ i64_max) where
  abbrev hold : Hold
  hold = record { subject = subject; reserved = meter }

  inserted : ltb_ℤ (pos 0) meter ≡ true → s.ledger.holds ≡ insert call_id hold s0.ledger.holds
  inserted on = o.holds ∙ rw on refl

  found : ltb_ℤ (pos 0) meter ≡ true → lookup call_id s.ledger.holds ≡ some hold
  found on = rw (inserted on) (lookup-insert_self call_id hold s0.ledger.holds)

  -- Settling takes the hold away that opening had put there.
  settled_holds :
      (actual : ℤ)
      → ltb_ℤ (pos 0) meter ≡ true
      → (settle call_id actual s.ledger).1.holds ≡ s0.ledger.holds
  settled_holds actual on =
      settle-holds call_id actual s.ledger
      ∙ (ap (remove call_id) (inserted on)
          ∙ remove-insert call_id hold s0.ledger.holds (o.fresh on))

  settle-Paid :
      (actual : ℤ)
      → actual ≤ℤ i64_max
      → ltb_ℤ (pos 0) meter ≡ true
      → Paid subject
          (min (pos_part meter) (pos_part (at_least_zero actual)))
          s0
          (record s { ledger = (settle call_id actual s.ledger).1 })
  settle-Paid actual b on =
      let (sound, worths, _) = settle_lem call_id actual s.ledger o.ready.sound b in
      let charge = min (pos_part meter) (pos_part (at_least_zero actual)) in
      let there = found on in
      record {
        ready = record {
          sound = sound;
          granted = rw (granted-settle call_id actual s.ledger) o.ready.granted;
        };
        balances = λ k.
            balance_of_worth k (if text_eq subject k then charge else 0) s0.ledger
              (settle call_id actual s.ledger).1 (settled_holds actual on)
              (ground (arith, worths k, o.worths k, there));
        holds = settled_holds actual on;
      }

  free_meter : ltb_ℤ (pos 0) meter ≡ false → Paid subject 0 s0 s
  free_meter off =
      let same : s.ledger.holds ≡ s0.ledger.holds = o.holds ∙ rw off refl in
      record {
        ready = o.ready;
        balances = λ k.
            balance_of_worth k (if text_eq subject k then 0 else 0) s0.ledger s.ledger same
              (ground (arith, o.worths k));
        holds = same;
      }

  -- Closing charges the meter, and cancelling nothing; either takes the hold away.
  pub close_meter_lem :
      ((close_meter call_id meter s).0 ≡ ok tt)
      × Paid subject (pos_part meter) s0 (close_meter call_id meter s).1
  close_meter_lem = elim (Bool-cases (ltb_ℤ (pos 0) meter)) [
    | inl on ↦ rw on (
      settle-ok call_id meter s.ledger,
      subst (λ n. Paid subject n s0 (record s { ledger = (settle call_id meter s.ledger).1 }))
          (whole_charge meter on) (settle-Paid meter u on),
    )
    | inr off ↦
        rw off (refl, subst (λ n. Paid subject n s0 s) (no_charge meter off) (free_meter off))
  ]

  pub cancel_meter_lem :
      ((cancel_meter call_id meter s).0 ≡ ok tt)
      × Paid subject 0 s0 (cancel_meter call_id meter s).1
  cancel_meter_lem = elim (Bool-cases (ltb_ℤ (pos 0) meter)) [
    | inl on ↦
        rw (on, release_eq call_id s.ledger)
          (
            settle-ok call_id (pos 0) s.ledger,
            subst
                (λ n. Paid subject n s0 (record s { ledger = (settle call_id (pos 0) s.ledger).1 }))
                (free_charge meter) (settle-Paid (pos 0) (omega arith) on),
          )
    | inr off ↦ rw off (refl, free_meter off)
  ]
