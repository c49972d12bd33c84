-- ===== src/Catalog/Money/Runs.antt =====
-- Runs of ledger operations, in whatever order the callers take the lock.
use zoen_gateway.Prelude.{◌+◌, ◌≡◌, arith}
use zoen_gateway.Prelude.Int.{ℤ, pos, pos_part, ◌≤ℤ◌, i64_max}
use zoen_gateway.Prelude.Text.{Text}
use zoen_gateway.Prelude.Map.{text_key, lookup}
use zoen_gateway.Catalog.Money.{
  Inner, new, balance, ensure_signup_grant, grant, reserve, settle, release,
}
use zoen_gateway.Catalog.Money.Worth.{held, worth, IsSound}
use zoen_gateway.Catalog.Money.Credits.{balance_nonneg, ensure_signup_grant_lem, grant_lem}
use zoen_gateway.Catalog.Money.Moves.{reserve_lem, settle_lem}

-- One call of a method.
pub data Move : Type 0 where
  signup : Text → Move
  credit : Text → ℤ → Move
  hold : Text → Text → ℤ → Move
  consume : Text → ℤ → Move
  free : Text → Move

abbrev pub run_move : Move → Inner → Inner
run_move (signup subject) g = (ensure_signup_grant subject g).1
run_move (credit subject micro) g = (grant subject micro g).1
run_move (hold subject call_id micro) g = (reserve subject call_id micro g).1
run_move (consume call_id actual) g = (settle call_id actual g).1
run_move (free call_id) g = (release call_id g).1

-- A credit finds room in the subject's worth, and a cost is an `i64`.
abbrev pub Fits : Move → Inner → Type 0
Fits (signup subject) g = pos (worth subject g + 1_000_000) ≤ℤ i64_max
Fits (credit subject micro) g = pos (worth subject g + pos_part micro) ≤ℤ i64_max
Fits (hold subject call_id micro) g = Unit
Fits (consume call_id actual) g = actual ≤ℤ i64_max
Fits (free call_id) g = Unit

pub data Reach : Inner → Type 0 where
  start : Reach new
  next : (m : Move) {g g' : Inner} → Reach g → Fits m g → g' ≡ run_move m g → Reach g'

new-IsSound : IsSound new
unfolding lookup held
new-IsSound = record {
  balances = λ k b e. cc;
  reserved = λ id h e. cc;
  unique = tt;
  fits = λ k. omega arith;
}

run_move-IsSound : (m : Move) (g : Inner) → Fits m g → IsSound g → IsSound (run_move m g)
unfolding release
run_move-IsSound (signup subject) g f s = (ensure_signup_grant_lem subject g s f).0
run_move-IsSound (credit subject micro) g f s = (grant_lem subject micro g s f).0
run_move-IsSound (hold subject call_id micro) g f s = (reserve_lem subject call_id micro g s).0
run_move-IsSound (consume call_id actual) g f s = (settle_lem call_id actual g s f).0
run_move-IsSound (free call_id) g f s = (settle_lem call_id (pos 0) g s (omega arith)).0

Reach-IsSound : {g : Inner} → Reach g → IsSound g
Reach-IsSound start = new-IsSound
Reach-IsSound (next m {g} r f e) = rw e (run_move-IsSound m g f (Reach-IsSound r))

-- However the calls interleave, if every credit fits then no balance is ever negative, every hold is
-- positive, and no two holds share a call id.
pub Reach-balance_nonneg : {g : Inner} → Reach g → IsSound g × ((k : Text) → pos 0 ≤ℤ balance k g)
Reach-balance_nonneg r = (Reach-IsSound r, λ k. balance_nonneg k _ (Reach-IsSound r))
