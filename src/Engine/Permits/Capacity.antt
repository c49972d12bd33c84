-- ===== src/Engine/Permits/Capacity.antt =====
-- crates/executor-engine/src/execute.rs: what holds of the permits however the tasks interleave.
use zoen_gateway.Prelude.{
  refl, leb, if◌then◌else◌, ℕ, ◌+◌, ◌%◌, ◌^◌, ◌≤◌, ◌≡◌, Bool, Option, some, List, [], ◌∷◌, ◌++◌,
  arith,
}
use zoen_gateway.Prelude.Effect.{err}
use zoen_gateway.Core.Limits.{Limits}
use zoen_gateway.Engine.Error.{overloaded}
use zoen_gateway.Engine.Permits.{
  Permits, capacity, new_permits, Answer, Stage, arriving, sized, waiting, permitted, armed,
  unpermitted, read_in_flight, ended, leaving, gone, acquire_permit, poll_permit, acquire_elapsed,
  arm_inflight, drop_inflight, drop_permit, select_deadline,
}

-- One operation of one task. A run may be dropped by its caller wherever it awaits.
pub data Step (limits : Limits) : Permits → Stage → Permits → Stage → Type 0 where
  measure : (p : Permits) → Step limits p arriving p (read_in_flight limits p)
  acquire :
      (p : Permits) (n : ℕ)
      → Step limits p (sized n) (acquire_permit limits n p).1 (acquire_permit limits n p).0
  poll : (p : Permits) → Step limits p waiting (poll_permit p).1 (poll_permit p).0
  elapse : (p : Permits) → Step limits p waiting p (acquire_elapsed limits)
  arm : (p : Permits) → Step limits p permitted (arm_inflight p) armed
  finish :
      (p : Permits) (is_cancelled is_elapsed : Bool) (ms : ℕ) (run : Option Answer) (a : Answer)
      → select_deadline is_cancelled is_elapsed ms run ≡ some a
      → Step limits p armed (drop_permit p) (unpermitted a)
  disarm : (p : Permits) (a : Answer) → Step limits p (unpermitted a) (drop_inflight p) (ended a)
  abandon_wait : (p : Permits) → Step limits p waiting p gone
  abandon_run : (p : Permits) → Step limits p armed (drop_inflight p) leaving
  leave : (p : Permits) → Step limits p leaving (drop_permit p) gone

-- What is reached from a fresh semaphore: tasks arrive, and any task makes its next operation.
pub data Reach (limits : Limits) : Permits → List Stage → Type 0 where
  start : Reach limits (new_permits limits) []
  arrive : (p : Permits) (ts : List Stage) → Reach limits p ts → Reach limits p (arriving ∷ ts)
  move :
      (p q : Permits) (front back : List Stage) (s t : Stage)
      → Reach limits p (front ++ s ∷ back)
      → Step limits p s q t
      → Reach limits q (front ++ t ∷ back)

-- The tasks that hold a permit, and those that the counter counts.
abbrev pub has_permit : Stage → ℕ
has_permit permitted = 1
has_permit armed = 1
has_permit leaving = 1
has_permit _ = 0

abbrev pub is_counted : Stage → ℕ
is_counted armed = 1
is_counted (unpermitted a) = 1
is_counted _ = 0

-- The tasks that have read more runs in flight than the limit.
abbrev is_over : Limits → Stage → ℕ
is_over limits (sized n) = if leb n limits.max_in_flight then 0 else 1
is_over limits _ = 0

abbrev pub count : (Stage → ℕ) → List Stage → ℕ
count f [] = 0
count f (s ∷ ts) = f s + count f ts

count-append : (f : Stage → ℕ) (ts us : List Stage) → count f (ts ++ us) ≡ count f ts + count f us
count-append f [] us = omega arith
count-append f (s ∷ ts) us = omega (arith, count-append f ts us)

-- A step moves permits between the semaphore and the task, and counts what it arms.
Step-keeps :
    {limits : Limits} {p q : Permits} {s t : Stage}
    → Step limits p s q t
    → (q.available + has_permit t ≡ p.available + has_permit s)
      × ((q.in_flight + is_counted s) % 2 ^ 64 ≡ (p.in_flight + is_counted t) % 2 ^ 64)
unfolding read_in_flight acquire_permit poll_permit acquire_elapsed arm_inflight drop_inflight
    drop_permit
Step-keeps (measure p) = omega arith
Step-keeps {limits} (acquire p n) = ground arith
Step-keeps (poll p) = ground arith
Step-keeps (elapse p) = omega arith
Step-keeps (arm p) = omega arith
Step-keeps (finish p c e ms run a h) = omega arith
Step-keeps (disarm p a) = omega arith
Step-keeps (abandon_wait p) = omega arith
Step-keeps (abandon_run p) = omega arith
Step-keeps (leave p) = omega arith

-- No permit is lost or made, and the counter is right: in every state that the tasks can reach, in
-- whatever order they move, are timed out, cancelled or dropped, the free permits and the tasks that
-- hold one add up to the limit, which is at least one, and the counter of runs in flight is the number
-- of the tasks that have armed it and not dropped it, up to its 64 bits.
pub Reach-capacity :
    {limits : Limits} {p : Permits} {ts : List Stage}
    → Reach limits p ts
    → (p.available + count has_permit ts ≡ capacity limits)
      × (1 ≤ capacity limits)
      × (p.in_flight % 2 ^ 64 ≡ count is_counted ts % 2 ^ 64)
unfolding new_permits
Reach-capacity {limits} start = ground arith
Reach-capacity (arrive p ts h) = omega (arith, Reach-capacity h)
Reach-capacity (move p q front back s t h k) = omega (
  arith,
  Reach-capacity h,
  Step-keeps k,
  count-append has_permit front (s ∷ back),
  count-append has_permit front (t ∷ back),
  count-append is_counted front (s ∷ back),
  count-append is_counted front (t ∷ back),
)

Step-is_over :
    {limits : Limits} {p q : Permits} {s t : Stage}
    → Step limits p s q t
    → is_over limits t ≤ is_over limits s
unfolding read_in_flight acquire_permit poll_permit acquire_elapsed
Step-is_over {limits} (measure p) = ground arith
Step-is_over {limits} (acquire p n) = ground arith
Step-is_over (poll p) = ground arith
Step-is_over (elapse p) = omega arith
Step-is_over (arm p) = omega arith
Step-is_over (finish p c e ms run a h) = omega arith
Step-is_over (disarm p a) = omega arith
Step-is_over (abandon_wait p) = omega arith
Step-is_over (abandon_run p) = omega arith
Step-is_over (leave p) = omega arith

Reach-is_over :
    {limits : Limits} {p : Permits} {ts : List Stage}
    → Reach limits p ts
    → count (is_over limits) ts ≡ 0
Reach-is_over start = refl
Reach-is_over (arrive p ts h) = omega (arith, Reach-is_over h)
Reach-is_over {limits} (move p q front back s t h k) = omega (
  arith,
  Reach-is_over h,
  Step-is_over k,
  count-append (is_over limits) front (s ∷ back),
  count-append (is_over limits) front (t ∷ back),
)

-- A request that is refused as overloaded when it asks for its permit finds the semaphore exhausted,
-- whatever the other tasks did since it read the runs in flight: the tasks that hold a permit are as
-- many as the limit allows and no time to wait is configured. The error names the configured limit and,
-- as the runs in flight, what the request read before, which is never more than that limit.
pub acquire_permit-overloaded :
    {limits : Limits} {p : Permits} (front back : List Stage) (seen n m ms : ℕ)
    → Reach limits p (front ++ sized seen ∷ back)
    → (acquire_permit limits seen p).0 ≡ ended (err (overloaded n m ms))
    → (count has_permit (front ++ sized seen ∷ back) ≡ capacity limits)
      × (limits.acquire_timeout ≡ 0)
      × (n ≡ seen)
      × (n ≤ limits.max_in_flight)
      × (m ≡ limits.max_in_flight)
unfolding acquire_permit
acquire_permit-overloaded {limits} {p} front back seen n m ms h e =
    let over : is_over limits (sized seen) ≡ 0 =
      omega (arith, Reach-is_over h, count-append (is_over limits) front (sized seen ∷ back)) in
    ground (arith, Reach-capacity h, over)
