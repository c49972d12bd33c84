-- ===== src/Engine/Permits.antt =====
-- crates/executor-engine/src/execute.rs: `execute` and `resume` around the gated run. Many requests
-- share the semaphore and the counter of runs in flight; each is a task that goes from stage to stage,
-- one atomic operation at a time. Metrics, and the order in which waiting tasks are woken, are left out.
pub mod Capacity
use zoen_gateway.Prelude.{ℕ, ◌+◌, ◌-◌, ◌%◌, ◌^◌, Bool, Option, some, ◌==◌, if◌then◌else◌}
use zoen_gateway.Prelude.Effect.{Result, err}
use zoen_gateway.Core.Execution.{Outcome}
use zoen_gateway.Core.Limits.{Limits}
use zoen_gateway.Engine.Error.{ExecutorError, overloaded, timeout, cancelled}

pub record Permits : Type 0 where
  pub available : ℕ
  pub in_flight : ℕ

-- `Semaphore::new(permits.max(1))` in `build`.
abbrev pub capacity : Limits → ℕ
capacity limits = if limits.max_in_flight == 0 then 1 else limits.max_in_flight

unfoldable pub new_permits : Limits → Permits
new_permits limits = record { available = capacity limits; in_flight = 0 }

abbrev pub Answer : Type 0
Answer = Result ExecutorError Outcome

-- Where a task stands: before `acquire_permit`, in it with the runs in flight that it has read, waiting
-- in it, with the permit, with the guard of
-- `arm_inflight` too, after `drop(permit)`, at the end; or dropped by its caller, with the permit
-- still to be given back or without.
pub data Stage : Type 0 where
  arriving : Stage
  sized : ℕ → Stage
  waiting permitted armed : Stage
  unpermitted : Answer → Stage
  ended : Answer → Stage
  leaving gone : Stage

-- `acquire_permit` reads `available_permits` first. Other tasks may move before it asks for the permit.
unfoldable pub read_in_flight : Limits → Permits → Stage
read_in_flight limits p = sized (limits.max_in_flight - p.available)

-- `try_acquire_owned` where no time to wait is configured, else the first poll of `acquire_owned`.
unfoldable pub acquire_permit : Limits → ℕ → Permits → Stage × Permits
acquire_permit limits in_flight p =
    let refused = ended (err (overloaded in_flight limits.max_in_flight 50)) in
    if p.available == 0
    then (if limits.acquire_timeout == 0 then refused else waiting, p)
    else (permitted, record p { available = p.available - 1 })

-- A later poll while it waits, and the end of its timeout.
unfoldable pub poll_permit : Permits → Stage × Permits
poll_permit p =
    if p.available == 0 then (waiting, p) else (permitted, record p { available = p.available - 1 })

unfoldable pub acquire_elapsed : Limits → Stage
acquire_elapsed limits = ended (err (overloaded limits.max_in_flight limits.max_in_flight 50))

-- `fetch_add` and `fetch_sub` wrap around.
unfoldable pub arm_inflight : Permits → Permits
arm_inflight p = record p { in_flight = (p.in_flight + 1) % 2 ^ 64 }

unfoldable pub drop_inflight : Permits → Permits
drop_inflight p = record p { in_flight = (p.in_flight + (2 ^ 64 - 1)) % 2 ^ 64 }

unfoldable pub drop_permit : Permits → Permits
drop_permit p = record p { available = p.available + 1 }

-- Which of the three is ready: the cancellation, the deadline, the run. `none` is pending.
unfoldable pub select_deadline : Bool → Bool → ℕ → Option Answer → Option Answer
select_deadline is_cancelled is_elapsed timeout_ms run =
    if is_cancelled
    then some (err cancelled)
    else if is_elapsed
    then some (err (timeout timeout_ms))
    else run
