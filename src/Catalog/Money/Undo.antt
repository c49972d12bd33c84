-- ===== src/Catalog/Money/Undo.antt =====
-- A reservation that is released, and the overflow that a credit at the limit leads to.
use zoen_gateway.Prelude.{
  ◌-◌, ◌^◌, ap, ℕ, ◌+◌, ◌≤◌, ◌≡◌, sym, none, some, arith, Option-cases, inl, inr,
}
use zoen_gateway.Prelude.Int.{
  ℤ, pos, negsuc, pos_part, ◌≤ℤ◌, i64_max, eq_of_parts, add_i64, ◌+ℤ◌, ◌-ℤ◌, saturating_sub,
}
use zoen_gateway.Prelude.Text.{Text, text_eq_iff, text_eq_refl}
use zoen_gateway.Prelude.Map.{
  text_key, lookup, insert, remove, lookup-insert, lookup-insert_self, remove_of_none,
}
use zoen_gateway.Prelude.Effect.{ok, err}
use zoen_gateway.Catalog.Error.{CatalogError}
use zoen_gateway.Catalog.Money.{
  Hold, Inner, balance, reserve, settle, settle_hold, release, refund_of,
}
use zoen_gateway.Catalog.Money.Worth.{balance-insert, held, IsSound, held-insert, held-remove}
use zoen_gateway.Catalog.Money.Credits.{balance_nonneg}
use zoen_gateway.Catalog.Money.Moves.{reserve_lem, settle_lem}

-- A reservation that succeeds stands under its call id, and every other hold is as it was.
pub reserve-ok :
    (subject call_id : Text) (micro : ℤ) (g : Inner)
    → pos 1 ≤ℤ micro
    → (reserve subject call_id micro g).0 ≡ ok tt
    → (lookup call_id g.holds ≡ none)
      × ((reserve subject call_id micro g).1.holds
          ≡ insert call_id (record { subject = subject; reserved = micro }) g.holds)
unfolding reserve
reserve-ok subject call_id micro g p e = ground arith

pub reserve-err :
    (subject call_id : Text) (micro : ℤ) (g : Inner) (e : CatalogError)
    → (reserve subject call_id micro g).0 ≡ err e
    → (reserve subject call_id micro g).1.holds ≡ g.holds
unfolding reserve
reserve-err subject call_id micro g e h = ground arith

pub settle-holds :
    (call_id : Text) (actual : ℤ) (g : Inner)
    → (settle call_id actual g).1.holds ≡ remove call_id g.holds
unfolding settle settle_hold
settle-holds call_id actual g = elim (Option-cases (lookup call_id g.holds)) [
  | inl missing ↦ rw (missing, settle_hold) (sym (remove_of_none call_id g.holds missing))
  | inr (h, found) ↦ rw (found, settle_hold) (ground arith)
]

-- On a sound ledger, releasing gives back exactly what reserving took: after a reservation of at least
-- one micro-dollar that succeeds, and its release, every balance and every hold is what it was before.
pub reserve-release :
    (subject call_id : Text) (micro : ℤ) (g : Inner)
    → IsSound g
    → pos 1 ≤ℤ micro
    → (reserve subject call_id micro g).0 ≡ ok tt
    → ((k : Text) → balance k (release call_id (reserve subject call_id micro g).1).1 ≡ balance k g)
      × ((id : Text)
          → lookup id (release call_id (reserve subject call_id micro g).1).1.holds
            ≡ lookup id g.holds)
unfolding release
reserve-release subject call_id micro g s p e =
    let h : Hold = record { subject = subject; reserved = micro } in
    let g1 : Inner = (reserve subject call_id micro g).1 in
    let g2 : Inner = (settle call_id (pos 0) g1).1 in
    let (fresh, made) = reserve-ok subject call_id micro g p e in
    let (sound, same) = reserve_lem subject call_id micro g s in
    let (sound', less, holds) = settle_lem call_id (pos 0) g1 sound (omega arith) in
    let found : lookup call_id g1.holds ≡ some h = rw made (lookup-insert_self call_id h g.holds) in
    (
      λ k.
          let kept : held k g2.holds ≡ held k g.holds = rw (settle-holds call_id (pos 0) g1) (
            omega (
              arith,
              held-remove k call_id h g1.holds sound.unique found,
              held-insert k call_id h g.holds fresh,
              ap (held k) made,
            )) in
          eq_of_parts (balance k g2) (balance k g) (
            ground (
              arith,
              less k,
              found,
              same k,
              kept,
              balance_nonneg k g s,
              balance_nonneg k g2 sound',
            )),
      λ id. ground (
        arith,
        holds id,
        fresh,
        made,
        lookup-insert call_id id h g.holds,
        text_eq_iff call_id id,
      ),
    )

part_refund :
    (h : Hold) (actual : ℤ)
    → pos 1 ≤ℤ h.reserved
    → h.reserved ≤ℤ i64_max
    → pos 0 ≤ℤ actual
    → actual ≤ℤ h.reserved
    → refund_of h actual ≡ pos (pos_part h.reserved - pos_part actual)
unfolding saturating_sub ◌-ℤ◌
part_refund h actual l u m o = ground arith

add_i64_past :
    (a b : ℤ)
    → pos 0 ≤ℤ a
    → a ≤ℤ i64_max
    → pos 0 ≤ℤ b
    → b ≤ℤ i64_max
    → 2 ^ 63 ≤ pos_part a + pos_part b
    → add_i64 a b ≤ℤ negsuc 0
unfolding add_i64 ◌+ℤ◌ ◌-ℤ◌
add_i64_past a b h k l m o = ground arith

-- Settling a hold of a positive 64-bit amount, for an actual cost between zero and that amount, wraps
-- its subject's balance around to a negative amount wherever the balance, itself not negative, and what
-- is given back, the reserved amount less the actual cost, add up to 2 ^ 63 or more.
pub settle_wraps :
    (call_id : Text) (actual : ℤ) (h : Hold) (g : Inner) (b : ℕ)
    → lookup call_id g.holds ≡ some h
    → pos 1 ≤ℤ h.reserved
    → h.reserved ≤ℤ i64_max
    → pos 0 ≤ℤ actual
    → actual ≤ℤ h.reserved
    → balance h.subject g ≡ pos b
    → pos b ≤ℤ i64_max
    → 2 ^ 63 ≤ b + (pos_part h.reserved - pos_part actual)
    → balance h.subject (settle call_id actual g).1 ≤ℤ negsuc 0
unfolding settle settle_hold
settle_wraps call_id actual h g b found l u p q e m o =
    let back : ℤ = pos (pos_part h.reserved - pos_part actual) in
    let refund : refund_of h actual ≡ back = part_refund h actual l u p q in
    rw (found, settle_hold, refund)
      (ground (
        arith,
        balance-insert h.subject h.subject (add_i64 (balance h.subject g) back) g,
        text_eq_refl h.subject,
        add_i64_past (balance h.subject g) back,
      ))
