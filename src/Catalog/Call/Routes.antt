-- ===== src/Catalog/Call/Routes.antt =====
-- A call along its routes: what it costs, and when it ends.
use zoen_gateway.Prelude.{
  ℕ, zero, suc, ◌<◌, Option, none, some, ◌≡◌, ◌≢◌, refl, arith, Option-cases, inl, inr, subst, sym,
}
use zoen_gateway.Prelude.Int.{◌≤ℤ◌, i64_max}
use zoen_gateway.Prelude.Text.{Text}
use zoen_gateway.Prelude.Effect.{Result, ok, err, Op, pure, continue}
use zoen_gateway.Catalog.Error.{CatalogError}
use zoen_gateway.Catalog.Service.{Endpoint, Service, get}
use zoen_gateway.Catalog.Call.Ladder.{CallInput, routed}
use zoen_gateway.Catalog.Call.{
  CallOutcome, Failure, endless, Invoke, price, relax, call_direct, call_found, follow, call,
}
use zoen_gateway.Catalog.Call.Meter.{IsReady, Paid, Paid-refl}
use zoen_gateway.Catalog.Call.Charges.{cost, IsQuiet, call_direct_lem}

-- Prices are 64-bit integers.
abbrev pub IsPriced : Service → Type 0
IsPriced s =
    (id : Text) (endpoint : Endpoint) → get id s.catalog ≡ some endpoint → price endpoint ≤ℤ i64_max

cost-relax : (r : Result CatalogError CallOutcome) → cost (relax r) ≡ cost r
cost-relax (ok out) = refl
cost-relax (err e) = refl

-- What a route adds to the child's outcome leaves the cost as it is.
labelled :
    (subject : Text) (child_id : Text) (s : Service) (r : Result Failure CallOutcome × Service)
    → Paid subject (cost r.0) s r.1
    → let t =
        continue r.0
          (λ child. pure (record child { child = some child_id; served_via = routed }))
          r.1 in
      Paid subject (cost t.0) s t.1
labelled subject child_id s (ok out, t) p = p
labelled subject child_id s (err e, t) p = p

follow_lem :
    (invoke : Invoke) (endpoint : Endpoint) (again : CallInput → Op Service Failure CallOutcome)
    (child : Option Text) (input : CallInput) (s : Service)
    → IsQuiet invoke
    → price endpoint ≤ℤ i64_max
    → IsReady input.subject s
    → ((child_id : Text)
        → let r = again (record input { id = child_id }) s in Paid input.subject (cost r.0) s r.1)
    → let r = follow invoke endpoint again child input s in Paid input.subject (cost r.0) s r.1
follow_lem invoke endpoint again none input s quiet cheap r paid =
    subst (λ n. Paid input.subject n s (call_direct invoke endpoint input s).1)
      (sym (cost-relax (call_direct invoke endpoint input s).0))
      (call_direct_lem invoke quiet input.subject endpoint input s refl cheap r)
follow_lem invoke endpoint again (some child_id) input s quiet cheap r paid =
    labelled input.subject child_id s (again (record input { id = child_id }) s) (paid child_id)

-- For an invoker that leaves the service's state as it is and prices that are 64-bit integers,
-- whatever the number of routes followed: a call by a subject that has had its signup grant, on a
-- sound ledger, takes from that subject's balance exactly the cost that the outcome discloses, and
-- nothing when the disclosed cost is negative or the call fails; no other balance changes, the holds are
-- those from before, so that nothing stays reserved for the call, and the ledger stays sound.
pub call_lem :
    (invoke : Invoke) (fuel : ℕ) (input : CallInput) (s : Service)
    → IsQuiet invoke
    → IsPriced s
    → IsReady input.subject s
    → Paid input.subject (cost (call invoke fuel input s).0) s (call invoke fuel input s).1
unfolding call call_found
call_lem invoke zero input s quiet priced r = Paid-refl input.subject s r
call_lem invoke (suc fuel) input s quiet priced r = elim (Option-cases (get input.id s.catalog)) [
  | inl absent ↦ rw absent (Paid-refl input.subject s r)
  | inr (endpoint, found) ↦ rw found (
      follow_lem invoke endpoint (λ i t. call invoke fuel i t) endpoint.routed_child input s quiet
        (priced input.id endpoint found) r
        (λ child_id. call_lem invoke fuel (record input { id = child_id }) s quiet priced r))
]

-- A route leads to a smaller rank.
abbrev pub IsAcyclic : (Text → ℕ) → Service → Type 0
IsAcyclic rank s =
    (id child_id : Text) (endpoint : Endpoint)
    → get id s.catalog ≡ some endpoint
    → endpoint.routed_child ≡ some child_id
    → rank child_id < rank id

relax-ends : (r : Result CatalogError CallOutcome) → relax r ≢ err endless
relax-ends (ok out) = λ e. cc
relax-ends (err x) = λ e. cc

label-ends :
    (child_id : Text) (r : Result Failure CallOutcome × Service)
    → r.0 ≢ err endless
    → (continue r.0
        (λ child. pure (record child { child = some child_id; served_via = routed }))
        r.1).0
      ≢ err endless
label-ends child_id (ok out, t) ends = λ e. cc
label-ends child_id (err x, t) ends = ends

follow-ends :
    (invoke : Invoke) (endpoint : Endpoint) (again : CallInput → Op Service Failure CallOutcome)
    (child : Option Text) (input : CallInput) (s : Service)
    → ((child_id : Text)
        → child ≡ some child_id
        → (again (record input { id = child_id }) s).0 ≢ err endless)
    → (follow invoke endpoint again child input s).0 ≢ err endless
follow-ends invoke endpoint again none input s ends =
    relax-ends (call_direct invoke endpoint input s).0
follow-ends invoke endpoint again (some child_id) input s ends =
    label-ends child_id (again (record input { id = child_id }) s) (ends child_id refl)

-- Where the routes have a rank that falls along each of them, fuel above the rank of the called
-- endpoint is enough: the call ends, with an outcome or an error of the source.
pub call-ends :
    (invoke : Invoke) (rank : Text → ℕ) (fuel : ℕ) (input : CallInput) (s : Service)
    → IsAcyclic rank s
    → rank input.id < fuel
    → (call invoke fuel input s).0 ≢ err endless
unfolding call call_found
call-ends invoke rank zero input s acyclic enough = λ e. ground arith
call-ends invoke rank (suc fuel) input s acyclic enough =
    elim (Option-cases (get input.id s.catalog)) [
      | inl absent ↦ rw absent (λ e. cc)
      | inr (endpoint, found) ↦ rw found (
          follow-ends invoke endpoint (λ i t. call invoke fuel i t) endpoint.routed_child input s
            (λ child_id route.
              call-ends invoke rank fuel (record input { id = child_id }) s acyclic
                (ground (arith, acyclic input.id child_id endpoint found route))))
    ]

-- An endpoint that is routed to itself is never answered: no amount of fuel ends the call.
pub call-endless :
    (invoke : Invoke) (fuel : ℕ) (input : CallInput) (s : Service) (endpoint : Endpoint)
    → get input.id s.catalog ≡ some endpoint
    → endpoint.routed_child ≡ some input.id
    → (call invoke fuel input s).0 ≡ err endless
unfolding call call_found
call-endless invoke zero input s endpoint found route = refl
call-endless invoke (suc fuel) input s endpoint found route = rw found (
    subst
      (λ child.
        (follow invoke endpoint (λ i t. call invoke fuel i t) child input s).0 ≡ err endless)
      (sym route) (rw (call-endless invoke fuel input s endpoint found route) refl))
