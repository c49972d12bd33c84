-- ===== src/Engine/Execute/Dispatch.antt =====
-- crates/executor-engine/src/execute.rs: the checks of a call, its gate, its pause and its invocation.
use zoen_gateway.Prelude.{
  ◌-◌, ◌^◌, ℕ, ◌+◌, ◌∷◌, [], Bool, true, false, Option, none, some, if◌then◌else◌, ltb, ◌&&◌, ◌||◌,
  not, is_some, unwrap_or, and_then,
}
use zoen_gateway.Prelude.Text.{Text, ascii}
use zoen_gateway.Prelude.Map.{Map, text_key, insert}
use zoen_gateway.Prelude.Trim.{decimal}
use zoen_gateway.Prelude.Json.{Value, null, number, string, array, object, nil, cons, end, field}
use zoen_gateway.Prelude.Effect.{Result, ok, err, pure, lift, gets, ◌>>=◌, ◌>>◌}
use zoen_gateway.Core.Owner.{outer_rank}
use zoen_gateway.Core.Policy.{
  PolicyAction, block, require_approval, EffectivePolicy, effective_policy,
}
use zoen_gateway.Core.Address.{to_string}
use zoen_gateway.Core.Tool.{Tool, cli_path}
use zoen_gateway.Core.Connection.{SecretRef, ConnectionRef, as_key, Connection, IntegrationRecord}
use zoen_gateway.Core.JsonSchema.{validate_against}
use zoen_gateway.Core.Execution.{
  ToolResult, approval, auth, elicitation, PausedExecution, Outcome, completed, paused,
  ExecutionState, done, waiting,
}
use zoen_gateway.Core.Secret.{strip_secret_refs}
use zoen_gateway.Core.Store.{
  MemoryInner, get_connection, get_integration, list_policies, put_execution, put_kv, get_kv,
}
use zoen_gateway.Engine.Error.{
  ExecutorError, tool_blocked, connection_not_found, integration_not_found, plugin_not_loaded,
  invalid_args, arguments_must_be_an_object, arguments_too_large, plugin_error,
}
use zoen_gateway.Engine.Lookup.{Resolved, static, dynamic, tool}
use zoen_gateway.Engine.Execute.State.{Run, Runtime, with_store}

abbrev pub is_null : Value → Bool
is_null null = true
is_null _ = false

abbrev pub is_object : Value → Bool
is_object (object fs) = true
is_object _ = false

abbrev pub requires_approval : Tool → Bool
requires_approval t = unwrap_or (and_then t.annotations (λ a. a.requires_approval)) false

unfoldable pub resolved_invoke_path : Tool → Text
resolved_invoke_path t = if t.static_tool then cli_path t else to_string t.address

abbrev pub effective_of : Tool → MemoryInner → EffectivePolicy
effective_of t s = effective_policy (cli_path t) (list_policies s) outer_rank (requires_approval t)

abbrev pub verdict : Text → EffectivePolicy → Result ExecutorError PolicyAction
verdict path effective = elim effective.action [
  | block ↦
      err (tool_blocked path (unwrap_or effective.pattern []) (unwrap_or effective.policy_id []))
  | _ ↦ ok effective.action
]

unfoldable pub gate : Tool → MemoryInner → Result ExecutorError PolicyAction
gate t s = verdict (cli_path t) (effective_of t s)

unfoldable pub session_approved : Tool → MemoryInner → Bool
session_approved t s =
    is_some (get_kv (ascii "session_approvals") (cli_path t) s)
    || is_some (get_kv (ascii "session_approvals") (to_string t.address) s)

-- `touch_subject`
unfoldable pub touch_subject : ℕ → MemoryInner → MemoryInner
touch_subject now = put_kv (ascii "subjects") (ascii "local") (
    object (
      field (ascii "external_id") (string (ascii "local")) (
        field (ascii "last_seen_at") (number (decimal now))
          (field (ascii "status") (string (ascii "active")) end))))

-- The form of an approval: whether it is to last.
abbrev pub persist_schema : Value
persist_schema =
    let choice = object (
      field (ascii "description")
        (string
          (ascii "session remembers this tool until cleared; always writes an approve policy"))
        (field (ascii "enum")
          (array (cons (string (ascii "session")) (cons (string (ascii "always")) nil)))
          (field (ascii "type") (string (ascii "string")) end))) in
    object (
      field (ascii "properties") (object (field (ascii "persist") choice end))
        (field (ascii "type") (string (ascii "object")) end))

-- Where a paused execution goes on, and with what.
unfoldable pub paused_resume_target : PausedExecution → Text × Value
paused_resume_target execution = elim execution.reason [
  | approval address args description schema ↦ (address, args)
  | auth message url address args ↦ (unwrap_or address [], unwrap_or args null)
  | elicitation message schema address args ↦ (unwrap_or address [], unwrap_or args null)
]

abbrev pub state_of : Outcome → ExecutionState
state_of (completed result id) = done result
state_of (paused execution) =
    waiting execution (paused_resume_target execution).0 (paused_resume_target execution).1 false

unfoldable pub persist_outcome : Text → Outcome → MemoryInner → MemoryInner
persist_outcome id outcome = put_execution id (state_of outcome)

module _ {W : Type 0} (rt : Runtime W) where
  -- `u64` arithmetic that stops at the top.
  abbrev pub expiry : ℕ → ℕ
  expiry now = let t = now + rt.approval_ttl_ms in if ltb t (2 ^ 64) then t else 2 ^ 64 - 1

  abbrev pub approval_of : Tool → Value → Text → ℕ → PausedExecution
  approval_of t args id now = record {
    id = id;
    reason =
        approval (cli_path t) args (and_then t.annotations (λ a. a.approval_description))
          (some persist_schema);
    expires_at_ms = expiry now;
  }

  unfoldable pub pause_for_approval : Tool → Value → Text → ℕ → Run W Outcome
  pause_for_approval t args id now e =
      let execution = approval_of t args id now in
      (
        ok (paused execution),
        with_store (put_execution id (waiting execution (resolved_invoke_path t) args false)) e,
      )

  unfoldable pub reject_oversize : Value → Result ExecutorError (Unit {0})
  reject_oversize args =
      if ltb rt.max_arg_bytes (rt.size args)
      then err (arguments_too_large (rt.size args) rt.max_arg_bytes)
      else ok tt

  unfoldable pub validate_args : Tool → Value → Result ExecutorError (Unit {0})
  validate_args t args = elim t.input_schema [
    | some schema ↦ elim (validate_against rt.is_integer schema args) [
      | err message ↦ err (invalid_args message)
      | ok u ↦ ok tt
    ]
    | none ↦
        if not (is_null args) && not (is_object args)
        then err arguments_must_be_an_object
        else ok tt
  ]

  unfoldable pub resolve_secrets : Map Text SecretRef → Result ExecutorError (Map Text Text)
  resolve_secrets [] = ok []
  resolve_secrets ((k, r) ∷ refs) =
      let rest = resolve_secrets refs in
      elim (rt.resolve_secret r) [
        | err e ↦ err e
        | ok v ↦ elim rest [ err e ↦ err e | ok vs ↦ ok (insert k v vs) ]
      ]

  abbrev pub require : {A : Type 0} → ExecutorError → Option A → Result ExecutorError A
  require e none = err e
  require e (some a) = ok a

  abbrev pub plugin_result : Text → Result Text ToolResult → Result ExecutorError Outcome
  plugin_result id (ok result) = ok (completed result id)
  plugin_result id (err message) = err (plugin_error message)

  unfoldable pub call_plugin :
      IntegrationRecord
      → ConnectionRef
      → Connection
      → Tool
      → Value
      → Text
      → Result Outcome (Map Text Text)
      → Run W Outcome
  call_plugin row ref conn t args id (err pause) e = (ok pause, e)
  call_plugin row ref conn t args id (ok values) e =
      let r = rt.invoke_plugin row ref conn.template t args values e in (plugin_result id r.0, r.1)

  unfoldable pub invoke_row :
      IntegrationRecord → ConnectionRef → Connection → Tool → Value → Text → Run W Outcome
  invoke_row row ref conn t args id = do
    lift (
        if rt.has_plugin row.integration.kind
        then ok tt
        else err (plugin_not_loaded row.integration.kind))
    values ← lift (resolve_secrets conn.secrets)
    ready ← rt.prepare row.integration.auth_methods conn.template values (cli_path t) args id
    call_plugin row ref conn t args id ready

  unfoldable pub invoke_dynamic : Tool → Value → Text → Run W Outcome
  invoke_dynamic t args id = do
    let ref : ConnectionRef = record {
      owner = t.owner;
      name = t.connection;
      integration = t.integration;
    }
    found ← gets (λ e. get_connection ref e.store)
    conn ← lift (require (connection_not_found (as_key ref)) found)
    stored ← gets (λ e. get_integration t.integration e.store)
    row ← lift (require (integration_not_found t.integration) stored)
    invoke_row row ref conn t args id

  abbrev pub invoke : Resolved → Value → Text → Run W Outcome
  invoke (static t) args id = do
    result ← rt.invoke_static (cli_path t) args
    pure (completed result id)
  invoke (dynamic t) args id = invoke_dynamic t args id

  abbrev pub proceed : Resolved → Value → Text → ℕ → Bool → PolicyAction → Run W Outcome
  proceed resolved args id now auto require_approval =
      if auto
      then invoke resolved (strip_secret_refs args) id
      else pause_for_approval (tool resolved) args id now
  proceed resolved args id now auto _ = invoke resolved (strip_secret_refs args) id

  unfoldable pub dispatch : Resolved → Value → Text → ℕ → Bool → Run W Outcome
  dispatch resolved args id now auto = do
    verdict ← λ e. (gate (tool resolved) e.store, e)
    proceed resolved args id now auto verdict
