-- ===== src/Engine/Execute/Once.antt =====
-- The replay of a stored outcome under an idempotency key.
use zoen_gateway.Prelude.{ℕ, suc, Bool, Option, none, some, ◌≡◌, refl, ap, subst, sym, arith}
use zoen_gateway.Prelude.Text.{Text}
use zoen_gateway.Prelude.Json.{Value}
use zoen_gateway.Prelude.Effect.{ok}
use zoen_gateway.Core.Execution.{Outcome, completed, paused, ExecutionState, running, done, waiting}
use zoen_gateway.Core.Store.{get_execution, get_idempotency}
use zoen_gateway.Engine.Execute.{
  Engine, Runtime, looked_at, outcome_from_execution, replay_of, replay_idempotent, reject_oversize,
  execute_gated,
}

-- The outcome that a stored execution stands for.
abbrev pub outcome_of : Text → ExecutionState → Option Outcome
outcome_of id running = none
outcome_of id (done result) = some (completed result id)
outcome_of id (waiting execution address args approved) = some (paused execution)

looked_at_lem :
    {W : Type 0} (rt : Runtime W) (id : Text) (e : Engine W) (later : Option Outcome × Engine W)
    (state : ExecutionState) (outcome : Outcome)
    → outcome_of id state ≡ some outcome
    → looked_at rt id (some state) e later ≡ (some outcome, e)
looked_at_lem rt id e later running outcome of = ground arith
looked_at_lem rt id e later (done result) outcome of = ap (λ o. (o, e)) of
looked_at_lem rt id e later (waiting execution address args approved) outcome of =
    ap (λ o. (o, e)) of

stored_outcome :
    {W : Type 0} (rt : Runtime W) (tries : ℕ) (id : Text) (e : Engine W) (state : ExecutionState)
    (outcome : Outcome)
    → get_execution id e.store ≡ some state
    → outcome_of id state ≡ some outcome
    → outcome_from_execution rt (suc tries) id e ≡ (some outcome, e)
unfolding outcome_from_execution
stored_outcome rt tries id e state outcome found of =
    let later = outcome_from_execution rt tries id (rt.sleep e) in
    subst (λ o. looked_at rt id o e later ≡ (some outcome, e)) (sym found)
      (looked_at_lem rt id e later state outcome of)

replayed :
    {W : Type 0} (rt : Runtime W) (key : Text) (e : Engine W) (first : Text)
    (state : ExecutionState) (outcome : Outcome)
    → get_idempotency key e.store ≡ some first
    → get_execution first e.store ≡ some state
    → outcome_of first state ≡ some outcome
    → replay_idempotent rt key e ≡ (some outcome, e)
unfolding replay_idempotent
replayed rt key e first state outcome claimed stored of =
    subst (λ o. replay_of rt o e ≡ (some outcome, e)) (sym claimed)
      (stored_outcome rt 49 first e state outcome stored of)

-- A call, within the bound on arguments, under a key whose execution is stored as completed or paused
-- comes back with the stored outcome, whatever its path, its arguments and the policies; it changes
-- nothing.
pub execute_gated-replay :
    {W : Type 0} (rt : Runtime W) (path : Text) (args : Value) (auto : Bool) (key id : Text)
    (now : ℕ) (e : Engine W) (first : Text) (state : ExecutionState) (outcome : Outcome)
    → reject_oversize rt args ≡ ok tt
    → get_idempotency key e.store ≡ some first
    → get_execution first e.store ≡ some state
    → outcome_of first state ≡ some outcome
    → execute_gated rt path args auto (some key) id now e ≡ (ok outcome, e)
unfolding execute_gated
execute_gated-replay rt path args auto key id now e first state outcome fits claimed stored of =
    rw (fits, replayed rt key e first state outcome claimed stored of) refl
