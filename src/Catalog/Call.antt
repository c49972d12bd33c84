-- ===== src/Catalog/Call.antt =====
-- crates/executor-catalog/src/call.rs: the credential ladder and the priced call. What answers an
-- endpoint (`invoke_endpoint`: an HTTP request, or a canned body) is a parameter; other calls may run
-- while it is awaited, so it is an operation on the service's state.
pub mod Ladder
pub mod Query
pub mod Meter
pub mod Charges
pub mod Routes
use zoen_gateway.Prelude.{
  ℕ, zero, suc, ◌+◌, Bool, true, false, Option, none, some, List, [], ◌∷◌, ltb, ◌==◌, ◌&&◌, ◌||◌,
  not, if◌then◌else◌, is_some, unwrap_or,
}
use zoen_gateway.Prelude.Int.{ℤ, pos, ltb_ℤ}
use zoen_gateway.Prelude.Text.{Text, ascii, text_eq}
use zoen_gateway.Prelude.Json.{Value}
use zoen_gateway.Prelude.Effect.{
  Result, ok, err, Op, lift, raise, pure, gets, ◌>>=◌, ◌>>◌, continue,
}
use zoen_gateway.Catalog.Error.{CatalogError, not_found}
use zoen_gateway.Catalog.Money.{ensure_signup_grant, reserve, settle, release}
use zoen_gateway.Catalog.Service.{
  Endpoint, Service, get, next_id, on_ledger, team_secret_for, overflow_secret_for,
}
use zoen_gateway.Catalog.Call.Ladder.{
  ServedVia, platform_key, routed, overflow, metered, CallInput, ladder,
}
use zoen_gateway.Catalog.Call.Query.{enforce_strict_query}

pub record CallOutcome : Type 0 where
  pub status : ℕ
  pub served_via : ServedVia
  pub cost_micro : ℤ
  pub child : Option Text
  pub body : Value

-- A call fails with an error of the source, or never ends: the fuel is the number of routes that
-- are followed.
pub data Failure : Type 0 where
  endless : Failure
  failed : CatalogError → Failure

abbrev pub relax : {A : Type 0} → Result CatalogError A → Result Failure A
relax (ok a) = ok a
relax (err e) = err (failed e)

abbrev pub run : {A : Type 0} → Op Service CatalogError A → Op Service Failure A
run op s = (relax (op s).0, (op s).1)

-- `self.calls.fetch_add(1)` in an id.
abbrev pub mint : Text → Op Service CatalogError Text
mint prefix s = (ok (next_id prefix s).0, (next_id prefix s).1)

-- `if meter > 0 { .. }`
abbrev pub when_metered :
    ℤ → Op Service CatalogError (Unit {0}) → Op Service CatalogError (Unit {0})
when_metered meter op = if ltb_ℤ (pos 0) meter then op else pure tt

abbrev pub open_meter : Text → Text → ℤ → Op Service CatalogError (Unit {0})
open_meter subject call_id meter =
    when_metered meter
      (on_ledger (ensure_signup_grant subject) >> on_ledger (reserve subject call_id meter))

abbrev pub close_meter : Text → ℤ → Op Service CatalogError (Unit {0})
close_meter call_id meter = when_metered meter (on_ledger (settle call_id meter))

abbrev pub cancel_meter : Text → ℤ → Op Service CatalogError (Unit {0})
cancel_meter call_id meter = when_metered meter (on_ledger (release call_id))

-- The answer of an endpoint: a status and a body, or an error.
abbrev pub Answer : Type 0
Answer = Result CatalogError (ℕ × Value)

abbrev pub Invoke : Type 0
Invoke = Endpoint → CallInput → Option Text → Service → Answer × Service

-- A status below 500 is an answer to pay for.
abbrev pub is_served : Answer → Bool
is_served (ok (status, body)) = ltb status 500
is_served (err e) = false

abbrev pub outcome_of : ServedVia → ℤ → Answer → Result CatalogError CallOutcome
outcome_of via cost (ok (status, body)) =
    ok (record { status = status; served_via = via; cost_micro = cost; child = none; body = body })
outcome_of via cost (err e) = err e

abbrev may_overflow : ServedVia → Bool
may_overflow platform_key = true
may_overflow routed = true
may_overflow _ = false

abbrev pub price : Endpoint → ℤ
price endpoint = unwrap_or endpoint.cost_micro (pos 0)

module _ (invoke : Invoke) where
  unfoldable pub finish_retry : Text → ℤ → Answer → Op Service CatalogError (Option CallOutcome)
  finish_retry overflow_id meter answer =
      if is_served answer
      then (do
        close_meter overflow_id meter
        out ← lift (outcome_of overflow meter answer)
        pure (some out))
      else (do cancel_meter overflow_id meter; pure none)

  unfoldable pub retry_with :
      Endpoint → CallInput → Text → Op Service CatalogError (Option CallOutcome)
  retry_with endpoint input secret = do
    overflow_id ← mint (ascii "call_")
    open_meter input.subject overflow_id (price endpoint)
    answer ← λ s.
        (ok (invoke endpoint input (some secret) s).0, (invoke endpoint input (some secret) s).1)
    finish_retry overflow_id (price endpoint) answer

  unfoldable pub overflow_retry :
      Endpoint → CallInput → ServedVia → Op Service CatalogError (Option CallOutcome)
  overflow_retry endpoint input via s =
      if not (may_overflow via) || s.overflow_opt_out
      then (ok none, s)
      else elim (overflow_secret_for endpoint.provider s) [
        | none ↦ (ok none, s)
        | some secret ↦ retry_with endpoint input secret s
      ]

  abbrev pub or_answer :
      Option CallOutcome → Result CatalogError CallOutcome → Result CatalogError CallOutcome
  or_answer (some out) answer = ok out
  or_answer none answer = answer

  unfoldable pub finish_call :
      Endpoint → CallInput → ServedVia → Text → ℤ → Answer → Op Service CatalogError CallOutcome
  finish_call endpoint input via call_id meter answer =
      if is_served answer
      then (do close_meter call_id meter; lift (outcome_of via meter answer))
      else (do
        cancel_meter call_id meter
        retried ← overflow_retry endpoint input via
        lift (or_answer retried (outcome_of via (pos 0) answer)))

  unfoldable pub call_via :
      Endpoint → CallInput → ServedVia → Option Text → Op Service CatalogError CallOutcome
  call_via endpoint input via secret = do
    call_id ← mint (ascii "call_")
    let meter : ℤ = if metered via then price endpoint else pos 0
    open_meter input.subject call_id meter
    answer ← λ s. (ok (invoke endpoint input secret s).0, (invoke endpoint input secret s).1)
    finish_call endpoint input via call_id meter answer

  -- A team tool's secret stands in where the caller gave none.
  abbrev pub with_team_secret : Endpoint → CallInput → Service → CallInput
  with_team_secret endpoint input s =
      if is_some input.team_tool_secret
      then input
      else record input { team_tool_secret = team_secret_for endpoint.provider s }

  unfoldable pub call_direct : Endpoint → CallInput → Op Service CatalogError CallOutcome
  call_direct endpoint input = do
    lift (enforce_strict_query endpoint input)
    input' ← gets (with_team_secret endpoint input)
    rung ← lift (ladder endpoint input')
    call_via endpoint input' rung.0 rung.1

  abbrev pub call_routed :
      Text
      → (CallInput → Op Service Failure CallOutcome)
      → CallInput
      → Op Service Failure CallOutcome
  call_routed child_id again input = do
    child ← again (record input { id = child_id })
    pure (record child { child = some child_id; served_via = routed })

  abbrev pub follow :
      Endpoint
      → (CallInput → Op Service Failure CallOutcome)
      → Option Text
      → CallInput
      → Op Service Failure CallOutcome
  follow endpoint again none input = run (call_direct endpoint input)
  follow endpoint again (some child_id) input = call_routed child_id again input

  unfoldable pub call_found :
      Option Endpoint
      → (CallInput → Op Service Failure CallOutcome)
      → CallInput
      → Op Service Failure CallOutcome
  call_found none again input = raise (failed (not_found input.id))
  call_found (some endpoint) again input = follow endpoint again endpoint.routed_child input

  unfoldable pub call : ℕ → CallInput → Op Service Failure CallOutcome
  call zero input s = (err endless, s)
  call (suc fuel) input s = call_found (get input.id s.catalog) (λ i t. call fuel i t) input s
