-- ===== src/Catalog/Call/Charges.antt =====
-- What a call costs its subject.
use zoen_gateway.Prelude.{
  ℕ, Option, none, some, ◌≡◌, refl, arith, if◌then◌else◌, not, ◌||◌, Bool-cases, Option-cases, inl,
  inr, ltb, subst, sym,
}
use zoen_gateway.Prelude.Int.{ℤ, pos, pos_part, ◌≤ℤ◌, i64_max}
use zoen_gateway.Prelude.Text.{Text, ascii}
use zoen_gateway.Prelude.Map.{text_key}
use zoen_gateway.Prelude.Effect.{lift, Result-cases, Result, ok, err, Op, continue}
use zoen_gateway.Catalog.Error.{CatalogError}
use zoen_gateway.Catalog.Service.{Endpoint, Service, next_id, overflow_secret_for}
use zoen_gateway.Catalog.Call.Ladder.{ServedVia, metered, CallInput, ladder}
use zoen_gateway.Catalog.Call.Query.{enforce_strict_query}
use zoen_gateway.Catalog.Call.{
  or_answer, CallOutcome, Answer, Invoke, open_meter, price, outcome_of, may_overflow, finish_retry,
  retry_with, overflow_retry, finish_call, call_via, with_team_secret, call_direct,
}
use zoen_gateway.Catalog.Call.Meter.{
  IsReady, Paid, Opened, Paid-refl, Paid-after_free, open_meter_lem, close_meter_lem,
  cancel_meter_lem,
}

-- What an outcome discloses, and nothing where that is negative; a failure costs nothing.
abbrev pub cost : {E : Type 0} → Result E CallOutcome → ℕ
cost (ok out) = pos_part out.cost_micro
cost (err e) = 0

abbrev cost? : Result CatalogError (Option CallOutcome) → ℕ
cost? (ok (some out)) = pos_part out.cost_micro
cost? (ok none) = 0
cost? (err e) = 0

metered_bound :
    (via : ServedVia) (endpoint : Endpoint)
    → price endpoint ≤ℤ i64_max
    → (if metered via then price endpoint else pos 0) ≤ℤ i64_max
metered_bound via endpoint cheap = ground arith

-- No other call runs while an answer is awaited.
abbrev pub IsQuiet : Invoke → Type 0
IsQuiet invoke =
    (endpoint : Endpoint) (input : CallInput) (secret : Option Text) (s : Service)
    → (invoke endpoint input secret s).1 ≡ s

module _ (invoke : Invoke) (quiet : IsQuiet invoke) (subject : Text) where
  finish_retry_lem :
      (id : Text) (meter : ℤ) (answer : Answer) (s0 s : Service)
      → Opened subject id meter s0 s
      → meter ≤ℤ i64_max
      → Paid subject
          (cost? (finish_retry invoke id meter answer s).0)
          s0
          (finish_retry invoke id meter answer s).1
  unfolding finish_retry
  finish_retry_lem id meter (ok (status, body)) s0 s o u = elim (Bool-cases (ltb status 500)) [
    | inl served ↦
        let (closed, paid) = close_meter_lem subject id meter s0 s o u in rw (served, closed) paid
    | inr unserved ↦
        let (cancelled, paid) = cancel_meter_lem subject id meter s0 s o u in
        rw (unserved, cancelled) paid
  ]
  finish_retry_lem id meter (err e) s0 s o u =
      let (cancelled, paid) = cancel_meter_lem subject id meter s0 s o u in rw cancelled paid

  abbrev Finishes :
      {A : Type 0}
      → (Result CatalogError A → ℕ)
      → ℤ
      → (Text → Answer → Op Service CatalogError A)
      → Type 0
  Finishes amount meter finish =
      (id : Text) (answer : Answer) (s0 s : Service)
      → Opened subject id meter s0 s
      → Paid subject (amount (finish id answer s).0) s0 (finish id answer s).1

  minted : (s : Service) → IsReady subject s → IsReady subject (next_id (ascii "call_") s).1
  unfolding next_id
  minted s r = record { sound = r.sound; granted = r.granted }

  from_minted :
      (amount : ℕ) (s t : Service)
      → Paid subject amount (next_id (ascii "call_") s).1 t
      → Paid subject amount s t
  unfolding next_id
  from_minted amount s t p = record { ready = p.ready; balances = p.balances; holds = p.holds }

  -- What the two metered exchanges share: the answer, once the meter is open, and what is made of it.
  abbrev answered :
      {A : Type 0}
      → Endpoint
      → CallInput
      → Option Text
      → (Answer → Op Service CatalogError A)
      → Result CatalogError (Unit {0}) × Service
      → Result CatalogError A × Service
  answered endpoint input secret finish opened =
      continue opened.0
        (λ _ t. finish (invoke endpoint input secret t).0 (invoke endpoint input secret t).1)
        opened.1

  answered_lem :
      {A : Type 0} (amount : Result CatalogError A → ℕ) (endpoint : Endpoint) (input : CallInput)
      (secret : Option Text) (meter : ℤ) (finish : Text → Answer → Op Service CatalogError A)
      (id : Text) (s : Service) (opened : Result CatalogError (Unit {0}) × Service)
      → ((e : CatalogError) → amount (err e) ≡ 0)
      → Finishes amount meter finish
      → (opened.0 ≡ ok tt → Opened subject id meter s opened.1)
      → ((e : CatalogError) → opened.0 ≡ err e → Paid subject 0 s opened.1)
      → Paid subject
          (amount (answered endpoint input secret (finish id) opened).0)
          s
          (answered endpoint input secret (finish id) opened).1
  answered_lem amount endpoint input secret meter finish id s (err e, s2) free done opens refused =
      rw (free e) (refused e refl)
  answered_lem amount endpoint input secret meter finish id s (ok u, s2) free done opens refused =
      let answer = (invoke endpoint input secret s2).0 in
      subst (λ t. Paid subject (amount (finish id answer t).0) s (finish id answer t).1)
        (sym (quiet endpoint input secret s2)) (done id answer s s2 (opens refl))

  exchange_lem :
      {A : Type 0} (amount : Result CatalogError A → ℕ) (endpoint : Endpoint) (input : CallInput)
      (secret : Option Text) (meter : ℤ) (finish : Text → Answer → Op Service CatalogError A)
      (s : Service)
      → ((e : CatalogError) → amount (err e) ≡ 0)
      → Finishes amount meter finish
      → IsReady subject s
      → let id = (next_id (ascii "call_") s).0 in
        let r =
          answered endpoint input secret
            (finish id)
            (open_meter subject id meter (next_id (ascii "call_") s).1) in
        Paid subject (amount r.0) s r.1
  exchange_lem amount endpoint input secret meter finish s free done r =
      let id = (next_id (ascii "call_") s).0 in
      let s1 = (next_id (ascii "call_") s).1 in
      let (opens, refused) = open_meter_lem subject id meter s1 (minted s r) in
      from_minted _ s _ (
        answered_lem amount endpoint input secret meter finish id s1
          (open_meter subject id meter s1) free done opens refused)

  retry_with_lem :
      (endpoint : Endpoint) (input : CallInput) (secret : Text) (s : Service)
      → input.subject ≡ subject
      → price endpoint ≤ℤ i64_max
      → IsReady subject s
      → Paid subject
          (cost? (retry_with invoke endpoint input secret s).0)
          s
          (retry_with invoke endpoint input secret s).1
  unfolding retry_with
  retry_with_lem endpoint input secret s same cheap r =
      let finish : Text → Answer → Op Service CatalogError (Option CallOutcome) =
        λ id answer. finish_retry invoke id (price endpoint) answer in
      subst
        (λ who.
          Paid subject
            (cost?
              (answered endpoint input (some secret) (finish (next_id (ascii "call_") s).0) (
                open_meter who (next_id (ascii "call_") s).0 (price endpoint)
                  (next_id (ascii "call_") s).1)).0)
            s
            (answered endpoint input (some secret) (finish (next_id (ascii "call_") s).0) (
              open_meter who (next_id (ascii "call_") s).0 (price endpoint)
                (next_id (ascii "call_") s).1)).1)
        (sym same)
        (exchange_lem cost? endpoint input (some secret) (price endpoint) finish s (λ e. refl)
          (λ id answer s0 t o. finish_retry_lem id (price endpoint) answer s0 t o cheap) r)

  overflow_retry_lem :
      (endpoint : Endpoint) (input : CallInput) (via : ServedVia) (s : Service)
      → input.subject ≡ subject
      → price endpoint ≤ℤ i64_max
      → IsReady subject s
      → Paid subject
          (cost? (overflow_retry invoke endpoint input via s).0)
          s
          (overflow_retry invoke endpoint input via s).1
  unfolding overflow_retry
  overflow_retry_lem endpoint input via s same cheap r =
      elim (Bool-cases (not (may_overflow via) || s.overflow_opt_out)) [
        | inl declined ↦ rw declined (Paid-refl subject s r)
        | inr allowed ↦ elim (Option-cases (overflow_secret_for endpoint.provider s)) [
          | inl absent ↦ rw (allowed, absent) (Paid-refl subject s r)
          | inr (secret, found) ↦
              rw (allowed, found) (retry_with_lem endpoint input secret s same cheap r)
        ]
      ]

  -- The overflow's answer stands in for a failed one, which is free.
  after_retry :
      (answer : Answer) (via : ServedVia) (s t : Service)
      (retried : Result CatalogError (Option CallOutcome) × Service)
      → Paid subject 0 s t
      → Paid subject (cost? retried.0) t retried.1
      → let out =
          continue retried.0
            (λ found. lift (or_answer invoke found (outcome_of via (pos 0) answer)))
            retried.1 in
        Paid subject (cost out.0) s out.1
  after_retry (ok (status, body)) via s t (ok none, u) p q = Paid-after_free subject 0 s t u p q
  after_retry (err e) via s t (ok none, u) p q = Paid-after_free subject 0 s t u p q
  after_retry answer via s t (ok (some out), u) p q =
      Paid-after_free subject (pos_part out.cost_micro) s t u p q
  after_retry answer via s t (err e, u) p q = Paid-after_free subject 0 s t u p q

  finish_call_lem :
      (endpoint : Endpoint) (input : CallInput) (via : ServedVia) (id : Text) (meter : ℤ)
      (answer : Answer) (s0 s : Service)
      → input.subject ≡ subject
      → price endpoint ≤ℤ i64_max
      → meter ≤ℤ i64_max
      → Opened subject id meter s0 s
      → Paid subject
          (cost (finish_call invoke endpoint input via id meter answer s).0)
          s0
          (finish_call invoke endpoint input via id meter answer s).1
  unfolding finish_call
  finish_call_lem endpoint input via id meter (err e) s0 s same cheap u o =
      let (cancelled, paid) = cancel_meter_lem subject id meter s0 s o u in
      rw cancelled (
        after_retry (err e) via s0 _ _ paid
          (overflow_retry_lem endpoint input via _ same cheap paid.ready))
  finish_call_lem endpoint input via id meter (ok (status, body)) s0 s same cheap u o =
      elim (Bool-cases (ltb status 500)) [
        | inl served ↦
            let (closed, paid) = close_meter_lem subject id meter s0 s o u in
            rw (served, closed) paid
        | inr unserved ↦
            let (cancelled, paid) = cancel_meter_lem subject id meter s0 s o u in
            rw (unserved, cancelled)
              (after_retry (ok (status, body)) via s0 _ _ paid
                (overflow_retry_lem endpoint input via _ same cheap paid.ready))
      ]

  call_via_lem :
      (endpoint : Endpoint) (input : CallInput) (via : ServedVia) (secret : Option Text)
      (s : Service)
      → input.subject ≡ subject
      → price endpoint ≤ℤ i64_max
      → IsReady subject s
      → Paid subject
          (cost (call_via invoke endpoint input via secret s).0)
          s
          (call_via invoke endpoint input via secret s).1
  unfolding call_via
  call_via_lem endpoint input via secret s same cheap r =
      let meter : ℤ = if metered via then price endpoint else pos 0 in
      let u : meter ≤ℤ i64_max = metered_bound via endpoint cheap in
      let finish : Text → Answer → Op Service CatalogError CallOutcome =
        λ id answer. finish_call invoke endpoint input via id meter answer in
      subst
        (λ who.
          Paid subject
            (cost
              (answered endpoint input secret (finish (next_id (ascii "call_") s).0) (
                open_meter who (next_id (ascii "call_") s).0 meter
                  (next_id (ascii "call_") s).1)).0)
            s
            (answered endpoint input secret (finish (next_id (ascii "call_") s).0)
              (open_meter who (next_id (ascii "call_") s).0 meter (next_id (ascii "call_") s).1)).1)
        (sym same)
        (exchange_lem cost endpoint input secret meter finish s (λ e. refl)
          (λ id answer s0 t o.
            finish_call_lem endpoint input via id meter answer s0 t same cheap u o)
          r)

  same_subject :
      (endpoint : Endpoint) (input : CallInput) (s : Service)
      → input.subject ≡ subject
      → (with_team_secret invoke endpoint input s).subject ≡ subject
  same_subject endpoint input s same = ground (arith, same)

  pub call_direct_lem :
      (endpoint : Endpoint) (input : CallInput) (s : Service)
      → input.subject ≡ subject
      → price endpoint ≤ℤ i64_max
      → IsReady subject s
      → Paid subject
          (cost (call_direct invoke endpoint input s).0)
          s
          (call_direct invoke endpoint input s).1
  unfolding call_direct
  call_direct_lem endpoint input s same cheap r =
      elim (Result-cases (enforce_strict_query endpoint input)) [
        | inr (e, refused) ↦ rw refused (Paid-refl subject s r)
        | inl (u, accepted) ↦
            let input' = with_team_secret invoke endpoint input s in
            elim (Result-cases (ladder endpoint input')) [
              | inr (e, unserved) ↦ rw (accepted, unserved) (Paid-refl subject s r)
              | inl (rung, served) ↦
                  rw (accepted, served)
                    (call_via_lem endpoint input' rung.0 rung.1 s
                      (same_subject endpoint input s same) cheap r)
            ]
      ]
