-- ===== src/Engine/Execute.antt =====
-- crates/executor-engine/src/execute.rs: the gated run of a tool, and the resumption of a paused one.
-- The state is the store and a world in which tools act; what the source calls beyond it is a
-- `Runtime`. The id of an execution and the clock's reading are arguments.
pub mod Gate
pub mod Once
pub mod Resume
pub mod Resumed
pub mod Keeps
pub mod Again
mod State
mod Dispatch
mod Persist
pub use State.{Engine, Run, Runtime, with_store, modify}
unfoldable pub use Dispatch.{
  is_null, is_object, requires_approval, resolved_invoke_path, effective_of, verdict, gate,
  session_approved, touch_subject, persist_schema, paused_resume_target, state_of, persist_outcome,
  expiry, approval_of, pause_for_approval, reject_oversize, validate_args, resolve_secrets, require,
  plugin_result, call_plugin, invoke_row, invoke_dynamic, invoke, proceed, dispatch,
}
unfoldable pub use Persist.{split_persist, merge_fields, merge_resume_content, apply_persist}
use zoen_gateway.Prelude.{
  ◌-◌, ◌^◌, ℕ, zero, suc, ◌+◌, ◌∷◌, [], ◌++◌, Bool, true, false, Option, none, some, List,
  if◌then◌else◌, ltb, ◌&&◌, ◌||◌, not, is_some, unwrap_or, and_then,
}
use zoen_gateway.Prelude.Text.{Text, ascii, text_eq}
use zoen_gateway.Prelude.Map.{Map, text_key, insert}
use zoen_gateway.Prelude.Trim.{decimal}
use zoen_gateway.Prelude.Json.{
  Value, null, number, string, array, object, Items, nil, cons, Fields, end, field,
}
use zoen_gateway.Prelude.Effect.{
  Result, ok, err, Op, pure, raise, lift, gets, continue, ◌>>=◌, ◌>>◌,
}
use zoen_gateway.Core.Owner.{outer_rank}
use zoen_gateway.Core.Policy.{
  PolicyAction, block, require_approval, EffectivePolicy, effective_policy,
}
use zoen_gateway.Core.Address.{to_string}
use zoen_gateway.Core.Tool.{Tool, cli_path}
use zoen_gateway.Core.Connection.{
  SecretRef, ConnectionRef, as_key, Connection, AuthMethod, IntegrationRecord,
}
use zoen_gateway.Core.Execution.{
  PersistChoice, ToolResult, success, failure, PauseReason, approval, auth, elicitation,
  PausedExecution, ResumeAction, accept, ResumeRequest, Outcome, completed, paused, ExecutionState,
  running, done, waiting,
}
use zoen_gateway.Core.Secret.{strip_secret_refs}
use zoen_gateway.Core.Store.{
  MemoryInner, get_connection, get_integration, list_policies, put_execution, get_execution,
  take_execution, put_idempotency, get_idempotency, put_kv, get_kv,
}
use zoen_gateway.Engine.Error.{
  ExecutorError, tool_blocked, connection_not_found, integration_not_found, plugin_not_loaded,
  invalid_args, arguments_must_be_an_object, arguments_too_large, execution_not_found, not_paused,
  plugin_error,
}
use zoen_gateway.Engine.Lookup.{Resolved, static, dynamic, tool, resolve_path}

module _ {W : Type 0} (rt : Runtime W) where
  abbrev pub looked_at :
      Text
      → Option ExecutionState
      → Engine W
      → Option Outcome × Engine W
      → Option Outcome × Engine W
  looked_at id (some (done result)) e later = (some (completed result id), e)
  looked_at id (some (waiting execution address args approved)) e later =
      (some (paused execution), e)
  looked_at id (some running) e later = later
  looked_at id none e later = later

  -- The loop over a stored execution, with a sleep after each look that finds no outcome.
  unfoldable pub outcome_from_execution : ℕ → Text → Engine W → Option Outcome × Engine W
  outcome_from_execution zero id e = (none, e)
  outcome_from_execution (suc tries) id e =
      let later = outcome_from_execution tries id (rt.sleep e) in
      looked_at id (get_execution id e.store) e later

  abbrev pub replay_of : Option Text → Engine W → Option Outcome × Engine W
  replay_of none e = (none, e)
  replay_of (some id) e = outcome_from_execution 50 id e

  unfoldable pub replay_idempotent : Text → Engine W → Option Outcome × Engine W
  replay_idempotent key e = replay_of (get_idempotency key e.store) e

  unfoldable pub claim_idempotent : Text → Text → Engine W → Option Outcome × Engine W
  claim_idempotent key id e =
      let e' = with_store (put_idempotency key id) e in
      let winner = unwrap_or (get_idempotency key e'.store) id in
      if text_eq winner id
      then (none, with_store (put_execution id running) e')
      else outcome_from_execution 50 winner e'

  -- What a call without a key skips.
  abbrev pub keyed :
      Option Text → (Text → Engine W → Option Outcome × Engine W) → Run W (Option Outcome)
  keyed none look e = (ok none, e)
  keyed (some key) look e = (ok (look key e).0, (look key e).1)

  abbrev pub unless_found : Option Outcome → Run W Outcome → Run W Outcome
  unless_found (some outcome) op = pure outcome
  unless_found none op = op

  unfoldable pub run_tool : Resolved → Value → Bool → Text → ℕ → Run W Outcome
  run_tool resolved args auto_approve id now = do
    allowed ← λ e. (gate (tool resolved) e.store, e)
    auto ← gets (λ e. auto_approve || session_approved (tool resolved) e.store)
    outcome ← dispatch rt resolved args id now auto
    modify (persist_outcome id outcome)
    pure outcome

  unfoldable pub start : Text → Value → Bool → Option Text → Text → ℕ → Run W Outcome
  start path args auto_approve key id now = do
    resolved ← λ e. (resolve_path rt.static_tools path e.store, e)
    lift (validate_args rt (tool resolved) args)
    modify (touch_subject now)
    claimed ← keyed key (λ k e. claim_idempotent k id e)
    unless_found claimed (run_tool resolved args auto_approve id now)

  -- A call: its path and arguments, whether it is approved beforehand, and its idempotency key.
  unfoldable pub execute_gated : Text → Value → Bool → Option Text → Text → ℕ → Run W Outcome
  execute_gated path args auto_approve key id now = do
    lift (reject_oversize rt args)
    replayed ← keyed key (λ k e. replay_idempotent k e)
    unless_found replayed (start path args auto_approve key id now)

  abbrev pub declined : ToolResult
  declined = failure (record {
    code = ascii "declined";
    message = ascii "execution was not approved";
    status = none;
    details = none;
    retryable = some false;
  })

  abbrev pub apply_choice : Option PersistChoice → Text → ℕ → Run W (Unit {0})
  apply_choice none address now e = (ok tt, e)
  apply_choice (some choice) address now e =
      let r = apply_persist rt.from_utf8 choice address now e.store in
      (r.0, record e { store = r.1 })

  unfoldable pub accepted : Text → Value → ResumeRequest → Text → ℕ → Run W Outcome
  accepted address args request id now = do
    let answer = split_persist request.persist request.content
    apply_choice answer.0 address now
    let merged = merge_resume_content args answer.1
    if text_eq address [] then pure (completed (success merged none) id) else (do
      resolved ← λ e. (resolve_path rt.static_tools address e.store, e)
      dispatch rt resolved merged id now true)

  abbrev pub resume_state : Option ExecutionState → ResumeRequest → Text → ℕ → Run W Outcome
  resume_state none request id now = raise (execution_not_found id)
  resume_state (some (waiting execution address args approved)) request id now =
      elim request.action [
        | accept ↦ accepted address args request id now
        | _ ↦ pure (completed declined id)
      ]
  resume_state (some _) request id now = raise (not_paused id)

  unfoldable pub resume_gated : Text → ResumeRequest → ℕ → Run W Outcome
  resume_gated id request now e =
      let taken = take_execution id e.store in
      resume_state taken.0 request id now (record e { store = taken.1 })
