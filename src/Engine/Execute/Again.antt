-- ===== src/Engine/Execute/Again.antt =====
-- Two calls under one idempotency key.
use zoen_gateway.Prelude.{
  ℕ, Bool, true, false, none, some, ◌≡◌, refl, sym, subst, ◌∙◌, inl, inr, ◌||◌,
}
use zoen_gateway.Prelude.Text.{Text, text_eq_refl}
use zoen_gateway.Prelude.Map.{Map, text_key, lookup-insert_self}
use zoen_gateway.Prelude.Json.{Value}
use zoen_gateway.Prelude.Effect.{Result, ok, Result-cases}
use zoen_gateway.Core.Policy.{PolicyAction, approve, require_approval, block}
use zoen_gateway.Core.Execution.{Outcome, completed, paused}
use zoen_gateway.Core.Store.{
  put_kv, MemoryInner, get_execution, put_execution, get_idempotency, put_idempotency,
}
use zoen_gateway.Engine.Error.{ExecutorError}
use zoen_gateway.Engine.Lookup.{Resolved, tool, resolve_path}
use zoen_gateway.Engine.Execute.{
  Engine, Runtime, with_store, gate, session_approved, dispatch, proceed, pause_for_approval,
  persist_outcome, state_of, touch_subject, validate_args, reject_oversize, replay_of,
  replay_idempotent, claim_idempotent, run_tool, start, execute_gated,
}
use zoen_gateway.Engine.Execute.Keeps.{Keeps, Keeps-bind, IsTidy, invoke-Keeps}
use zoen_gateway.Engine.Execute.Once.{outcome_of, execute_gated-replay}

abbrev pub stored_keys : MemoryInner → Map Text Text
stored_keys s = s.idempotency

-- The outcome as it is told again: under the id of the execution.
abbrev pub told_again : Text → Outcome → Outcome
told_again id (completed result other) = completed result id
told_again id (paused execution) = paused execution

outcome_of-state_of :
    (id : Text) (outcome : Outcome)
    → outcome_of id (state_of outcome) ≡ some (told_again id outcome)
outcome_of-state_of id (completed result other) = refl
outcome_of-state_of id (paused execution) = refl

module _ {W : Type 0} (rt : Runtime W) (tidy : IsTidy stored_keys rt) where
  pause-Keeps :
      (t : Resolved) (args : Value) (id : Text) (now : ℕ)
      → Keeps stored_keys (pause_for_approval rt (tool t) args id now)
  unfolding pause_for_approval put_execution
  pause-Keeps t args id now e = refl

  proceed-Keeps :
      (resolved : Resolved) (args : Value) (id : Text) (now : ℕ) (auto : Bool)
      (action : PolicyAction)
      → Keeps stored_keys (proceed rt resolved args id now auto action)
  proceed-Keeps resolved args id now auto approve = invoke-Keeps stored_keys rt tidy resolved _ id
  proceed-Keeps resolved args id now true require_approval =
      invoke-Keeps stored_keys rt tidy resolved _ id
  proceed-Keeps resolved args id now false require_approval = pause-Keeps resolved args id now
  proceed-Keeps resolved args id now auto block = invoke-Keeps stored_keys rt tidy resolved _ id

  dispatch-Keeps :
      (resolved : Resolved) (args : Value) (id : Text) (now : ℕ) (auto : Bool)
      → Keeps stored_keys (dispatch rt resolved args id now auto)
  unfolding dispatch
  dispatch-Keeps resolved args id now auto =
      Keeps-bind stored_keys _ _ (λ e. refl)
        (λ action. proceed-Keeps resolved args id now auto action)

  -- What is stored once a run has an outcome.
  Stored : Text → Engine W → Result ExecutorError Outcome × Engine W → Type 0
  Stored id e r =
      (outcome : Outcome)
      → r.0 ≡ ok outcome
      → (get_execution id r.1.store ≡ some (state_of outcome))
        × (r.1.store.idempotency ≡ e.store.idempotency)

  run_tool-Stored :
      (resolved : Resolved) (args : Value) (auto : Bool) (id : Text) (now : ℕ) (e : Engine W)
      → Stored id e (run_tool rt resolved args auto id now e)
  unfolding Stored run_tool persist_outcome put_execution get_execution
  run_tool-Stored resolved args auto id now e =
      let auto' : Bool = auto || session_approved (tool resolved) e.store in
      elim (Result-cases (gate (tool resolved) e.store)) [
        | inr (x, refused) ↦ rw refused (λ outcome h. cc)
        | inl (allowed, passed) ↦
            let ran = dispatch rt resolved args id now auto' e in
            elim (Result-cases ran.0) [
              | inr (x, failed) ↦ rw (passed, failed) (λ outcome h. cc)
              | inl (found, answered) ↦
                  rw (passed, answered)
                    (λ outcome h.
                      let same : found ≡ outcome = cc h in
                      (
                        rw⁻¹ same (lookup-insert_self id (state_of found) ran.1.store.executions),
                        dispatch-Keeps resolved args id now auto' e,
                      ))
            ]
      ]

claim_fresh :
    {W : Type 0} (rt : Runtime W) (key id : Text) (e : Engine W)
    → get_idempotency key e.store ≡ none
    → ((claim_idempotent rt key id e).0 ≡ none)
      × (get_idempotency key (claim_idempotent rt key id e).1.store ≡ some id)
unfolding claim_idempotent put_idempotency get_idempotency put_execution
claim_fresh rt key id e fresh =
    let put = lookup-insert_self key id e.store.idempotency in
    rw (fresh, put, text_eq_refl id) (refl, put)

touched :
    (key : Text) (now : ℕ) (s : MemoryInner)
    → get_idempotency key s ≡ none
    → get_idempotency key (touch_subject now s) ≡ none
unfolding touch_subject put_kv get_idempotency
touched key now s fresh = fresh

-- The key that is looked up is the one in the map.
key_of :
    (key id : Text) (s t : MemoryInner)
    → s.idempotency ≡ t.idempotency
    → get_idempotency key t ≡ some id
    → get_idempotency key s ≡ some id
unfolding get_idempotency
key_of key id s t same found = rw same found

unseen :
    {W : Type 0} (rt : Runtime W) (key : Text) (e : Engine W)
    → get_idempotency key e.store ≡ none
    → replay_idempotent rt key e ≡ (none, e)
unfolding replay_idempotent
unseen rt key e fresh = subst (λ o. replay_of rt o e ≡ (none, e)) (sym fresh) refl

module _ {W : Type 0} (rt : Runtime W) (tidy : IsTidy stored_keys rt) (key : Text) where
  -- What is stored once a first call under a key has an outcome.
  Claimed : Text → Result ExecutorError Outcome × Engine W → Type 0
  Claimed id r =
      (outcome : Outcome)
      → r.0 ≡ ok outcome
      → (get_execution id r.1.store ≡ some (state_of outcome))
        × (get_idempotency key r.1.store ≡ some id)

  run_tool-Claimed :
      (resolved : Resolved) (args : Value) (auto : Bool) (id : Text) (now : ℕ) (e : Engine W)
      → get_idempotency key e.store ≡ some id
      → Claimed id (run_tool rt resolved args auto id now e)
  unfolding Claimed Stored
  run_tool-Claimed resolved args auto id now e claimed outcome h =
      let (stored, same) = run_tool-Stored rt tidy resolved args auto id now e outcome h in
      (stored, key_of key id _ e.store same claimed)

  start-Claimed :
      (path : Text) (args : Value) (auto : Bool) (id : Text) (now : ℕ) (e : Engine W)
      → get_idempotency key e.store ≡ none
      → Claimed id (start rt path args auto (some key) id now e)
  unfolding Claimed start
  start-Claimed path args auto id now e fresh =
      elim (Result-cases (resolve_path rt.static_tools path e.store)) [
        | inr (x, unknown) ↦ rw unknown (λ outcome h. cc)
        | inl (resolved, found) ↦ elim (Result-cases (validate_args rt (tool resolved) args)) [
          | inr (x, invalid) ↦ rw (found, invalid) (λ outcome h. cc)
          | inl (u, valid) ↦
              let e' = with_store (touch_subject now) e in
              let (unclaimed, claimed) = claim_fresh rt key id e' (touched key now e.store fresh) in
              rw (found, valid, unclaimed)
                (run_tool-Claimed resolved args auto id now (claim_idempotent rt key id e').1
                  claimed)
        ]
      ]

  execute_gated-Claimed :
      (path : Text) (args : Value) (auto : Bool) (id : Text) (now : ℕ) (e : Engine W)
      → get_idempotency key e.store ≡ none
      → Claimed id (execute_gated rt path args auto (some key) id now e)
  unfolding Claimed execute_gated
  execute_gated-Claimed path args auto id now e fresh =
      elim (Result-cases (reject_oversize rt args)) [
        | inr (x, large) ↦ rw large (λ outcome h. cc)
        | inl (u, fits) ↦
            rw (fits, unseen rt key e fresh) (start-Claimed path args auto id now e fresh)
      ]

-- Where secrets, plugins and built-in tools leave the stored idempotency keys as they are: after a call
-- under a fresh key that came to an outcome, a call under that key, within the bound on arguments,
-- comes back with the same outcome, told under the id of the first execution, and changes nothing,
-- whatever its path, its arguments and its approval. This holds in every later state, whatever happened
-- before it, in which the key and the stored execution are still those that the first call left.
pub execute_gated-execute_gated :
    {W : Type 0} (rt : Runtime W) (key path path' : Text) (args args' : Value) (auto auto' : Bool)
    (id id' : Text) (now now' : ℕ) (e later : Engine W) (outcome : Outcome)
    → IsTidy stored_keys rt
    → get_idempotency key e.store ≡ none
    → (execute_gated rt path args auto (some key) id now e).0 ≡ ok outcome
    → get_idempotency key later.store
      ≡ get_idempotency key (execute_gated rt path args auto (some key) id now e).1.store
    → get_execution id later.store
      ≡ get_execution id (execute_gated rt path args auto (some key) id now e).1.store
    → reject_oversize rt args' ≡ ok tt
    → execute_gated rt path' args' auto' (some key) id' now' later
      ≡ (ok (told_again id outcome), later)
unfolding Claimed
execute_gated-execute_gated rt key path path' args args' auto auto' id id' now now' e later outcome
      tidy fresh h same_key same_execution fits =
    let (stored, claimed) =
      execute_gated-Claimed rt tidy key path args auto id now e fresh outcome h in
    execute_gated-replay rt path' args' auto' key id' now' later id (state_of outcome)
      (told_again id outcome) fits (same_key ∙ claimed) (same_execution ∙ stored)
      (outcome_of-state_of id outcome)
