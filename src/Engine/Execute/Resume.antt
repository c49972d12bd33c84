-- ===== src/Engine/Execute/Resume.antt =====
-- The resumption of a paused execution, and what it leaves of it.
use zoen_gateway.Prelude.{
  ℕ, [], true, Option, none, some, ◌≡◌, ◌≢◌, refl, arith, ◌⊎◌, inl, inr, Bool-cases,
}
use zoen_gateway.Prelude.Text.{Text, text_eq}
use zoen_gateway.Prelude.Map.{Map, text_key, lookup, remove, lookup-remove, remove_of_none}
use zoen_gateway.Prelude.Json.{Value}
use zoen_gateway.Prelude.Effect.{err, Result-cases}
use zoen_gateway.Core.Policy.{PolicyAction, approve, block, require_approval}
use zoen_gateway.Core.Execution.{
  ExecutionState, running, done, waiting, PersistChoice, session, always, ResumeRequest,
  ResumeAction, accept, decline, cancel,
}
use zoen_gateway.Core.Store.{MemoryInner, put_policy, put_kv, get_execution, take_execution}
use zoen_gateway.Engine.Error.{execution_not_found}
use zoen_gateway.Engine.Lookup.{resolve_path, Resolved}
use zoen_gateway.Engine.Execute.Persist.{merge_resume_content, split_persist}
use zoen_gateway.Engine.Execute.Keeps.{Keeps, Keeps-bind, IsTidy, invoke-Keeps}
use zoen_gateway.Engine.Execute.{
  Engine, Runtime, dispatch, proceed, apply_choice, apply_persist, accepted, resume_state,
  resume_gated,
}

ResumeAction-cases : (a : ResumeAction) → (a ≡ accept) ⊎ ((a ≡ decline) ⊎ (a ≡ cancel))
ResumeAction-cases accept = inl refl
ResumeAction-cases decline = inr (inl refl)
ResumeAction-cases cancel = inr (inr refl)

-- What was removed is not found.
removed : {V : Type 0} (k : Text) (m : Map Text V) → lookup k (remove k m) ≡ none
removed k m = ground (arith, lookup-remove k k m, text_key.beq_iff k k)

-- An execution that is not stored cannot be resumed.
pub resume_gated-none :
    {W : Type 0} (rt : Runtime W) (id : Text) (request : ResumeRequest) (now : ℕ) (e : Engine W)
    → get_execution id e.store ≡ none
    → resume_gated rt id request now e ≡ (err (execution_not_found id), e)
unfolding resume_gated take_execution get_execution
resume_gated-none rt id request now e absent =
    rw (absent, remove_of_none id e.store.executions absent) refl

refused_quietly :
    {W : Type 0} (rt : Runtime W) (id : Text) (request : ResumeRequest) (now : ℕ) (e : Engine W)
    (state : Option ExecutionState)
    → request.action ≢ accept
    → (resume_state rt state request id now e).1 ≡ e
refused_quietly rt id request now e none r = refl
refused_quietly rt id request now e (some running) r = refl
refused_quietly rt id request now e (some (done result)) r = refl
refused_quietly rt id request now e (some (waiting execution address args approved)) r =
    elim (ResumeAction-cases request.action) [
      | inl accepts ↦ absurd (r accepts)
      | inr (inl declines) ↦ rw declines refl
      | inr (inr cancels) ↦ rw cancels refl
    ]

-- Whatever is stored under an id, a resumption that declines or cancels runs nothing: the world is as
-- it was, the execution is gone, and every later resumption of it, even one that accepts, reports that
-- it does not exist.
pub resume_gated-refused :
    {W : Type 0} (rt : Runtime W) (id : Text) (request later : ResumeRequest) (now now' : ℕ)
    (e : Engine W)
    → request.action ≢ accept
    → let e' = (resume_gated rt id request now e).1 in
      (e'.world ≡ e.world)
      × (get_execution id e'.store ≡ none)
      × (resume_gated rt id later now' e' ≡ (err (execution_not_found id), e'))
unfolding resume_gated take_execution get_execution
resume_gated-refused rt id request later now now' e refused =
    let taken : Engine _ = record e {
      store = record e.store { executions = remove id e.store.executions };
    } in
    rw (refused_quietly rt id request now taken (lookup id e.store.executions) refused) (
      refl,
      removed id e.store.executions,
      resume_gated-none rt id later now' taken (removed id e.store.executions),
    )

abbrev pub stored_executions : MemoryInner → Map Text ExecutionState
stored_executions s = s.executions

module _ {W : Type 0} (rt : Runtime W) (tidy : IsTidy stored_executions rt) where
  proceed-Keeps :
      (resolved : Resolved) (args : Value) (id : Text) (now : ℕ) (action : PolicyAction)
      → Keeps stored_executions (proceed rt resolved args id now true action)
  proceed-Keeps resolved args id now approve = invoke-Keeps stored_executions rt tidy resolved _ id
  proceed-Keeps resolved args id now require_approval =
      invoke-Keeps stored_executions rt tidy resolved _ id
  proceed-Keeps resolved args id now block = invoke-Keeps stored_executions rt tidy resolved _ id

  dispatch-Keeps :
      (resolved : Resolved) (args : Value) (id : Text) (now : ℕ)
      → Keeps stored_executions (dispatch rt resolved args id now true)
  unfolding dispatch
  dispatch-Keeps resolved args id now =
      Keeps-bind stored_executions _ _ (λ e. refl)
        (λ action. proceed-Keeps resolved args id now action)

  apply_choice-Keeps :
      (choice : Option PersistChoice) (address : Text) (now : ℕ)
      → Keeps stored_executions (apply_choice rt choice address now)
  unfolding apply_persist put_kv put_policy
  apply_choice-Keeps none address now e = refl
  apply_choice-Keeps (some session) address now e = refl
  apply_choice-Keeps (some always) address now e = ground arith

  accepted-Keeps :
      (address : Text) (args : Value) (request : ResumeRequest) (id : Text) (now : ℕ)
      → Keeps stored_executions (accepted rt address args request id now)
  unfolding accepted
  accepted-Keeps address args request id now e =
      let answer = split_persist request.persist request.content in
      let merged = merge_resume_content args answer.1 in
      let kept = apply_choice-Keeps answer.0 address now e in
      let e' = (apply_choice rt answer.0 address now e).1 in
      elim (Result-cases (apply_choice rt answer.0 address now e).0) [
        | inr (x, failed) ↦ rw failed kept
        | inl (u, remembered) ↦ elim (Bool-cases (text_eq address [])) [
          | inl nowhere ↦ rw (remembered, nowhere) kept
          | inr somewhere ↦ elim (Result-cases (resolve_path rt.static_tools address e'.store)) [
            | inr (x, unknown) ↦ rw (remembered, somewhere, unknown) kept
            | inl (resolved, found) ↦
                rw (remembered, somewhere, found, dispatch-Keeps resolved merged id now e') kept
          ]
        ]
      ]

  resume_state-Keeps :
      (state : Option ExecutionState) (request : ResumeRequest) (id : Text) (now : ℕ)
      → Keeps stored_executions (resume_state rt state request id now)
  unfolding accepted
  resume_state-Keeps none request id now e = refl
  resume_state-Keeps (some running) request id now e = refl
  resume_state-Keeps (some (done result)) request id now e = refl
  resume_state-Keeps (some (waiting execution address args approved)) request id now e =
      elim (ResumeAction-cases request.action) [
        | inl accepts ↦ rw (accepts, accepted-Keeps address args request id now e) refl
        | inr (inl declines) ↦ rw declines refl
        | inr (inr cancels) ↦ rw cancels refl
      ]

pub consumed :
    {W : Type 0} (rt : Runtime W) (tidy : IsTidy stored_executions rt) (id : Text)
    (request : ResumeRequest) (now : ℕ) (e : Engine W)
    → get_execution id (resume_gated rt id request now e).1.store ≡ none
unfolding resume_gated take_execution get_execution
consumed rt tidy id request now e =
    let taken : Engine _ = record e {
      store = record e.store { executions = remove id e.store.executions };
    } in
    rw (resume_state-Keeps rt tidy (lookup id e.store.executions) request id now taken)
      (removed id e.store.executions)

-- Where secrets, plugins and built-in tools leave the stored executions as they are, a resumption
-- consumes the execution, whatever is stored under its id and whatever the answer: a later resumption
-- of it reports that it does not exist and changes nothing, also where the first one came back paused.
pub resume_gated-consumes :
    {W : Type 0} (rt : Runtime W) (id : Text) (request later : ResumeRequest) (now now' : ℕ)
    (e : Engine W)
    → IsTidy stored_executions rt
    → let e' = (resume_gated rt id request now e).1 in
      resume_gated rt id later now' e' ≡ (err (execution_not_found id), e')
resume_gated-consumes rt id request later now now' e tidy =
    resume_gated-none rt id later now' _ (consumed rt tidy id request now e)
