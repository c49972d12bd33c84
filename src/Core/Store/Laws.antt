-- ===== src/Core/Store/Laws.antt =====
-- The ids of idempotent calls, and the executions that a resumption takes.
use zoen_gateway.Prelude.{none, some, ◌≡◌, arith, if◌then◌else◌, unwrap_or}
use zoen_gateway.Prelude.Text.{Text, text_eq, text_eq_iff}
use zoen_gateway.Prelude.Map.{text_key, insert, lookup-insert, lookup-remove}
use zoen_gateway.Core.Execution.{ExecutionState}
use zoen_gateway.Core.Store.{
  MemoryInner, put_idempotency, get_idempotency, put_execution, get_execution, take_execution,
}

-- The first id that is put under an idempotency key stays, and no other key is touched.
pub get_idempotency-put_idempotency :
    (key other id : Text) (s : MemoryInner)
    → get_idempotency other (put_idempotency key id s) ≡ (
        if text_eq key other
        then some (unwrap_or (get_idempotency key s) id)
        else get_idempotency other s)
unfolding get_idempotency put_idempotency
get_idempotency-put_idempotency key other id s =
    ground (arith, lookup-insert key other id s.idempotency, text_eq_iff key other)

-- An execution is taken once: it comes back as it was put, a second take of it finds nothing, and
-- every other execution stays.
pub take_execution-put_execution :
    (id other : Text) (state : ExecutionState) (s : MemoryInner)
    → let taken = take_execution id (put_execution id state s) in
      (taken.0 ≡ some state)
      × ((take_execution id taken.1).0 ≡ none)
      × (get_execution other taken.1 ≡ (if text_eq id other then none else get_execution other s))
unfolding take_execution put_execution get_execution
take_execution-put_execution id other state s =
    let found = lookup-insert id id state s.executions in
    let gone = lookup-remove id id (insert id state s.executions) in
    let rest = lookup-remove id other (insert id state s.executions) in
    let rest' = lookup-insert id other state s.executions in
    (
      ground (arith, found, text_eq_iff id id),
      ground (arith, gone, text_eq_iff id id),
      ground (arith, rest, rest', text_eq_iff id other),
    )
