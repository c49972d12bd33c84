-- ===== src/Engine/Execute/Gate.antt =====
-- What the policies stop: a blocked tool, and a tool that needs an approval.
use zoen_gateway.Prelude.{ℕ, [], Bool, true, false, none, some, ◌≡◌, refl, unwrap_or, inl, inr}
use zoen_gateway.Prelude.Text.{Text}
use zoen_gateway.Prelude.Map.{text_key, lookup-insert_self}
use zoen_gateway.Prelude.Json.{Value}
use zoen_gateway.Prelude.Effect.{Result, ok, err, is_ok, Result-cases}
use zoen_gateway.Core.Policy.{PolicyAction, approve, block, require_approval, EffectivePolicy}
use zoen_gateway.Core.Tool.{Tool, cli_path}
use zoen_gateway.Core.Execution.{Outcome, paused, ExecutionState, waiting, PausedExecution}
use zoen_gateway.Core.Secret.{strip_secret_refs}
use zoen_gateway.Core.Store.{MemoryInner, list_policies, put_execution, get_execution, put_kv}
use zoen_gateway.Engine.Error.{ExecutorError, tool_blocked}
use zoen_gateway.Engine.Lookup.{Resolved, tool, resolve_path}
use zoen_gateway.Engine.Execute.{
  Engine, Runtime, with_store, effective_of, verdict, gate, session_approved, touch_subject,
  paused_resume_target, approval_of, persist_outcome, pause_for_approval, reject_oversize,
  validate_args, invoke, dispatch, run_tool, start, execute_gated,
}

abbrev blocked_by : Text → EffectivePolicy → ExecutorError
blocked_by path p = tool_blocked path (unwrap_or p.pattern []) (unwrap_or p.policy_id [])

verdict-block :
    (path : Text) (p : EffectivePolicy)
    → p.action ≡ block
    → verdict path p ≡ err (blocked_by path p)
verdict-block path p h = rw h refl

verdict-approve :
    (path : Text) (p : EffectivePolicy) → p.action ≡ approve → verdict path p ≡ ok approve
verdict-approve path p h = rw h refl

verdict-require_approval :
    (path : Text) (p : EffectivePolicy)
    → p.action ≡ require_approval
    → verdict path p ≡ ok require_approval
verdict-require_approval path p h = rw h refl

gate-block :
    (t : Tool) (s : MemoryInner)
    → (effective_of t s).action ≡ block
    → gate t s ≡ err (blocked_by (cli_path t) (effective_of t s))
unfolding gate
gate-block t s h = verdict-block (cli_path t) (effective_of t s) h

module _ {W : Type 0} (rt : Runtime W) where
  -- What a run comes to under each action, with or without an approval given beforehand.
  abbrev pub by_action :
      Resolved
      → Value
      → Text
      → ℕ
      → Engine W
      → PolicyAction
      → Bool
      → Result ExecutorError Outcome × Engine W
  by_action resolved args id now e block auto =
      (err (blocked_by (cli_path (tool resolved)) (effective_of (tool resolved) e.store)), e)
  by_action resolved args id now e require_approval false =
      pause_for_approval rt (tool resolved) args id now e
  by_action resolved args id now e require_approval true =
      invoke rt resolved (strip_secret_refs args) id e
  by_action resolved args id now e approve auto = invoke rt resolved (strip_secret_refs args) id e

  pub dispatch_lem :
      (resolved : Resolved) (args : Value) (id : Text) (now : ℕ) (auto : Bool) (e : Engine W)
      (a : PolicyAction)
      → (effective_of (tool resolved) e.store).action ≡ a
      → dispatch rt resolved args id now auto e ≡ by_action resolved args id now e a auto
  unfolding dispatch gate
  dispatch_lem resolved args id now auto e block h =
      rw (verdict-block (cli_path (tool resolved)) (effective_of (tool resolved) e.store) h) refl
  dispatch_lem resolved args id now auto e approve h =
      rw (verdict-approve (cli_path (tool resolved)) (effective_of (tool resolved) e.store) h) refl
  dispatch_lem resolved args id now true e require_approval h =
      rw
        (verdict-require_approval (cli_path (tool resolved)) (effective_of (tool resolved) e.store)
          h)
        refl
  dispatch_lem resolved args id now false e require_approval h =
      rw
        (verdict-require_approval (cli_path (tool resolved)) (effective_of (tool resolved) e.store)
          h)
        refl

  policies-touch_subject :
      (now : ℕ) (s : MemoryInner) → list_policies (touch_subject now s) ≡ list_policies s
  unfolding touch_subject put_kv list_policies
  policies-touch_subject now s = refl

  run_tool-block :
      (resolved : Resolved) (args : Value) (auto : Bool) (id : Text) (now : ℕ) (e : Engine W)
      → (effective_of (tool resolved) e.store).action ≡ block
      → run_tool rt resolved args auto id now e
        ≡ (err (blocked_by (cli_path (tool resolved)) (effective_of (tool resolved) e.store)), e)
  unfolding run_tool
  run_tool-block resolved args auto id now e h = rw (gate-block (tool resolved) e.store h) refl

-- A call without an idempotency key, of a path whose tool the policies block, fails, whatever is
-- approved beforehand or for the session, and nothing acts on the world.
pub execute_gated-block :
    {W : Type 0} (rt : Runtime W) (path : Text) (args : Value) (auto : Bool) (id : Text) (now : ℕ)
    (e : Engine W) (resolved : Resolved)
    → resolve_path rt.static_tools path e.store ≡ ok resolved
    → (effective_of (tool resolved) e.store).action ≡ block
    → (is_ok (execute_gated rt path args auto none id now e).0 ≡ false)
      × ((execute_gated rt path args auto none id now e).1.world ≡ e.world)
unfolding execute_gated start
execute_gated-block rt path args auto id now e resolved found blocked =
    elim (Result-cases (reject_oversize rt args)) [
      | inr (x, large) ↦ rw large (refl, refl)
      | inl (u, fits) ↦ elim (Result-cases (validate_args rt (tool resolved) args)) [
        | inr (x, invalid) ↦ rw (fits, found, invalid) (refl, refl)
        | inl (v, valid) ↦
            let e' = with_store (touch_subject now) e in
            let b : (effective_of (tool resolved) e'.store).action ≡ block =
              rw (policies-touch_subject rt now e.store) blocked in
            rw (fits, found, valid, run_tool-block rt resolved args auto id now e' b) (refl, refl)
      ]
    ]

-- A paused execution as the store keeps it for its resumption.
abbrev pub stored_pause : PausedExecution → ExecutionState
stored_pause execution =
    waiting execution (paused_resume_target execution).0 (paused_resume_target execution).1 false

run_tool-pause :
    {W : Type 0} (rt : Runtime W) (resolved : Resolved) (args : Value) (id : Text) (now : ℕ)
    (e : Engine W)
    → (effective_of (tool resolved) e.store).action ≡ require_approval
    → session_approved (tool resolved) e.store ≡ false
    → let r = run_tool rt resolved args false id now e in
      let execution = approval_of rt (tool resolved) args id now in
      (r.0 ≡ ok (paused execution))
      × (r.1.world ≡ e.world)
      × (get_execution id r.1.store
          ≡ some (waiting execution (cli_path (tool resolved)) args false))
unfolding run_tool gate pause_for_approval persist_outcome put_execution get_execution
    paused_resume_target
run_tool-pause rt resolved args id now e h fresh =
    let execution = approval_of rt (tool resolved) args id now in
    rw
      (
        verdict-require_approval (cli_path (tool resolved)) (effective_of (tool resolved) e.store)
            h,
        fresh,
        dispatch_lem rt resolved args id now false e require_approval h,
      )
      (refl, refl, lookup-insert_self id (stored_pause execution) _)

-- A call without an idempotency key, within the bound on arguments and with arguments that its tool
-- accepts, of a tool that needs an approval which neither the caller nor the session gives, comes back
-- paused: nothing acts on the world, and the store keeps the tool's path and the arguments for the
-- resumption.
pub execute_gated-require_approval :
    {W : Type 0} (rt : Runtime W) (path : Text) (args : Value) (id : Text) (now : ℕ) (e : Engine W)
    (resolved : Resolved)
    → resolve_path rt.static_tools path e.store ≡ ok resolved
    → reject_oversize rt args ≡ ok tt
    → validate_args rt (tool resolved) args ≡ ok tt
    → (effective_of (tool resolved) e.store).action ≡ require_approval
    → session_approved (tool resolved) (touch_subject now e.store) ≡ false
    → let r = execute_gated rt path args false none id now e in
      let execution = approval_of rt (tool resolved) args id now in
      (r.0 ≡ ok (paused execution))
      × (r.1.world ≡ e.world)
      × (get_execution id r.1.store
          ≡ some (waiting execution (cli_path (tool resolved)) args false))
unfolding execute_gated start
execute_gated-require_approval rt path args id now e resolved found fits valid h fresh =
    let e' = with_store (touch_subject now) e in
    let h' : (effective_of (tool resolved) e'.store).action ≡ require_approval =
      rw (policies-touch_subject rt now e.store) h in
    rw (fits, found, valid) (run_tool-pause rt resolved args id now e' h' fresh)
