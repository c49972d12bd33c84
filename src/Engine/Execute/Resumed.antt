-- ===== src/Engine/Execute/Resumed.antt =====
-- An idempotency key whose execution a resumption has taken.
use zoen_gateway.Prelude.{
  unwrap_or, if◌then◌else◌, Option, ℕ, zero, suc, Bool, false, none, some, ◌≡◌, refl, sym, subst,
  inl, inr,
}
use zoen_gateway.Prelude.Text.{Text, text_eq}
use zoen_gateway.Prelude.Json.{Value}
use zoen_gateway.Prelude.Effect.{Result-cases}
use zoen_gateway.Core.Execution.{running, Outcome, ResumeRequest}
use zoen_gateway.Core.Store.{get_execution, get_idempotency, put_idempotency, put_kv, put_execution}
use zoen_gateway.Engine.Lookup.{tool, resolve_path}
use zoen_gateway.Engine.Execute.{
  Engine, Runtime, with_store, touch_subject, reject_oversize, validate_args, looked_at,
  outcome_from_execution, replay_of, replay_idempotent, claim_idempotent, start, execute_gated,
  resume_gated,
}
use zoen_gateway.Engine.Execute.Keeps.{IsTidy}
use zoen_gateway.Engine.Execute.Resume.{stored_executions, consumed}

abbrev pub Sleeps : {W : Type 0} → Runtime W → Type 0
Sleeps rt = (e : Engine _) → rt.sleep e ≡ e

nothing_found :
    {W : Type 0} (rt : Runtime W) (tries : ℕ) (id : Text) (e : Engine W)
    → Sleeps rt
    → get_execution id e.store ≡ none
    → outcome_from_execution rt tries id e ≡ (none, e)
unfolding outcome_from_execution
nothing_found rt zero id e quiet absent = refl
nothing_found rt (suc tries) id e quiet absent =
    subst (λ o. looked_at rt id o e (outcome_from_execution rt tries id (rt.sleep e)) ≡ (none, e))
      (sym absent) (rw (quiet e) (nothing_found rt tries id e quiet absent))

touched_key :
    {W : Type 0} (key first : Text) (e : Engine W) (now : ℕ)
    → get_idempotency key e.store ≡ some first
    → get_idempotency key (touch_subject now e.store) ≡ some first
unfolding touch_subject put_kv get_idempotency
touched_key key first e now h = h

touched_execution :
    {W : Type 0} (first : Text) (e : Engine W) (now : ℕ)
    → get_execution first e.store ≡ none
    → get_execution first (touch_subject now e.store) ≡ none
unfolding touch_subject put_kv get_execution
touched_execution first e now h = h

module _ {W : Type 0} (rt : Runtime W) (quiet : Sleeps rt) (key first : Text) where
  not_replayed :
      (e : Engine W)
      → get_idempotency key e.store ≡ some first
      → get_execution first e.store ≡ none
      → replay_idempotent rt key e ≡ (none, e)
  unfolding replay_idempotent
  not_replayed e claimed absent =
      subst (λ o. replay_of rt o e ≡ (none, e)) (sym claimed)
        (nothing_found rt 50 first e quiet absent)

  put_again :
      (id : Text) (e : Engine W)
      → get_idempotency key e.store ≡ some first
      → with_store (put_idempotency key id) e ≡ e
  unfolding put_idempotency get_idempotency
  put_again id e claimed = rw claimed refl

  -- The claim, once the key is stored.
  abbrev won : Text → Option Text → Engine W → Option Outcome × Engine W
  won id o t =
      if text_eq (unwrap_or o id) id
      then (none, with_store (put_execution id running) t)
      else outcome_from_execution rt 50 (unwrap_or o id) t

  not_claimed :
      (id : Text) (e : Engine W)
      → get_idempotency key e.store ≡ some first
      → get_execution first e.store ≡ none
      → text_eq first id ≡ false
      → claim_idempotent rt key id e ≡ (none, e)
  unfolding claim_idempotent
  not_claimed id e claimed absent other =
      subst (λ t. won id (get_idempotency key t.store) t ≡ (none, e)) (sym (put_again id e claimed))
        (subst (λ o. won id o e ≡ (none, e)) (sym claimed)
          (rw other (nothing_found rt 50 first e quiet absent)))

  start_keyed :
      (path : Text) (args : Value) (auto : Bool) (id : Text) (now : ℕ) (e : Engine W)
      → get_idempotency key e.store ≡ some first
      → get_execution first e.store ≡ none
      → text_eq first id ≡ false
      → start rt path args auto (some key) id now e ≡ start rt path args auto none id now e
  unfolding start
  start_keyed path args auto id now e claimed absent other =
      elim (Result-cases (resolve_path rt.static_tools path e.store)) [
        | inr (x, unknown) ↦ rw unknown refl
        | inl (resolved, found) ↦ elim (Result-cases (validate_args rt (tool resolved) args)) [
          | inr (x, invalid) ↦ rw (found, invalid) refl
          | inl (u, valid) ↦
              let e' = with_store (touch_subject now) e in
              rw
                (
                  found,
                  valid,
                  not_claimed id e' (touched_key key first e now claimed)
                      (touched_execution first e now absent) other,
                )
                refl
        ]
      ]

-- A resumption ends what its idempotency key stands for. After an execution has been resumed, whatever
-- the answer and whatever came of it, a call under a key that is stored for that execution, by another
-- id, does exactly what the same call does without a key: it is not answered from before. Secrets,
-- plugins and built-in tools leave the stored executions as they are, and the sleeps of the lookup
-- leave the state as it is.
pub execute_gated-resume_gated :
    {W : Type 0} (rt : Runtime W) (key first : Text) (request : ResumeRequest) (path : Text)
    (args : Value) (auto : Bool) (id : Text) (now now' : ℕ) (e : Engine W)
    → IsTidy stored_executions rt
    → Sleeps rt
    → get_idempotency key (resume_gated rt first request now e).1.store ≡ some first
    → text_eq first id ≡ false
    → let e' = (resume_gated rt first request now e).1 in
      execute_gated rt path args auto (some key) id now' e'
      ≡ execute_gated rt path args auto none id now' e'
unfolding execute_gated
execute_gated-resume_gated rt key first request path args auto id now now' e tidy quiet claimed
      other =
    let e' : Engine _ = (resume_gated rt first request now e).1 in
    let absent = consumed rt tidy first request now e in
    elim (Result-cases (reject_oversize rt args)) [
      | inr (x, large) ↦ rw large refl
      | inl (u, fits) ↦
          rw (fits, not_replayed rt quiet key first e' claimed absent)
            (start_keyed rt quiet key first path args auto id now' e' claimed absent other)
    ]
