-- ===== src/Catalog/Money.antt =====
-- crates/executor-catalog/src/money.rs: the prepaid ledger in micro-dollars. Each method holds the
-- lock for its whole body, so it is one operation on the state; the amounts are `i64`.
pub mod Worth
pub mod Runs
pub mod Undo
pub mod Credits
pub mod Moves
use zoen_gateway.Prelude.{
  ℕ, ◌+◌, [], Bool, true, false, Option, none, some, if◌then◌else◌, is_some, unwrap_or,
}
use zoen_gateway.Prelude.Int.{
  ℤ, pos, leb_ℤ, ltb_ℤ, saturating_add, saturating_sub, add_i64, sub_i64,
}
use zoen_gateway.Prelude.Text.{Text}
use zoen_gateway.Prelude.Map.{Map, text_key, lookup, insert, remove}
use zoen_gateway.Prelude.Effect.{Result, ok, err, Op}
use zoen_gateway.Catalog.Error.{
  CatalogError, invalid, payment_required, grant_must_be_positive, reserve_cannot_be_negative,
  call_already_reserved,
}

abbrev pub signup_grant_micro : ℤ
signup_grant_micro = pos 1_000_000

pub record Hold : Type 0 where
  pub subject : Text
  pub reserved : ℤ

pub record Inner : Type 0 where
  pub balance : Map Text ℤ
  pub holds : Map Text Hold
  pub granted : Map Text (Unit {0})

abbrev pub new : Inner
new = record { balance = []; holds = []; granted = [] }

-- `balance.get(subject).copied().unwrap_or(0)`
abbrev pub balance : Text → Inner → ℤ
balance subject g = unwrap_or (lookup subject g.balance) (pos 0)

-- `*balance.entry(subject).or_insert(0) = value`
abbrev set_balance : Text → ℤ → Inner → Inner
set_balance subject value g = record g { balance = insert subject value g.balance }

unfoldable pub ensure_signup_grant : Text → Op Inner CatalogError ℤ
ensure_signup_grant subject g =
    let g' =
      if is_some (lookup subject g.granted)
      then g
      else set_balance subject (add_i64 (balance subject g) signup_grant_micro)
          (record g { granted = insert subject tt g.granted }) in
    (ok (balance subject g'), g')

unfoldable pub grant : Text → ℤ → Op Inner CatalogError ℤ
grant subject micro g =
    if leb_ℤ micro (pos 0)
    then (err (invalid grant_must_be_positive), g)
    else (let slot = saturating_add (balance subject g) micro in
        (ok slot, set_balance subject slot g))

unfoldable pub reserve : Text → Text → ℤ → Op Inner CatalogError (Unit {0})
reserve subject call_id micro g =
    if ltb_ℤ micro (pos 0)
    then (err (invalid reserve_cannot_be_negative), g)
    else if leb_ℤ micro (pos 0)
    then (ok tt, g)
    else if is_some (lookup call_id g.holds)
    then (err (invalid call_already_reserved), g)
    else (let bal = balance subject g in
        if ltb_ℤ bal micro then (err (payment_required bal micro), set_balance subject bal g) else (
          ok tt,
          record (set_balance subject (sub_i64 bal micro) g) {
            holds = insert call_id (record { subject = subject; reserved = micro }) g.holds;
          },
        ))

-- `actual.max(0)`
abbrev pub at_least_zero : ℤ → ℤ
at_least_zero a = if ltb_ℤ a (pos 0) then pos 0 else a

abbrev pub refund_of : Hold → ℤ → ℤ
refund_of hold actual = saturating_sub hold.reserved (at_least_zero actual)

unfoldable pub settle_hold : Option Hold → Text → ℤ → Inner → Inner
settle_hold none call_id actual g = g
settle_hold (some hold) call_id actual g =
    let g' = record g { holds = remove call_id g.holds } in
    if ltb_ℤ (pos 0) (refund_of hold actual)
    then set_balance hold.subject (add_i64 (balance hold.subject g') (refund_of hold actual)) g'
    else g'

unfoldable pub settle : Text → ℤ → Op Inner CatalogError (Unit {0})
settle call_id actual g = (ok tt, settle_hold (lookup call_id g.holds) call_id actual g)

unfoldable pub release : Text → Op Inner CatalogError (Unit {0})
release call_id = settle call_id (pos 0)
