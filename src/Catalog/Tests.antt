-- ===== src/Catalog/Tests.antt =====
-- The theorems on the ledger and on calls at concrete inputs.
use zoen_gateway.Prelude.{
  ◌-◌, ◌^◌, ℕ, zero, suc, ◌+◌, ◌≤◌, ◌<◌, Bool, true, false, Option, none, some, List, [], ◌∷◌, ◌≡◌,
  ◌≢◌, ◌↔◌, ◌⊎◌, refl, arith, inl, inr, if◌then◌else◌, is_some, unwrap_or,
}
use zoen_gateway.Prelude.Int.{ℤ, pos, negsuc, pos_part, ◌≤ℤ◌, i64_max}
use zoen_gateway.Prelude.Text.{Text, ascii, text_eq, text_eq_iff}
use zoen_gateway.Prelude.Map.{text_key, lookup, insert}
use zoen_gateway.Prelude.Json.{null}
use zoen_gateway.Prelude.Effect.{ok, err}
use zoen_gateway.Catalog.Money
use zoen_gateway.Catalog.Money.{Hold, Inner, ensure_signup_grant, grant, reserve, settle, release}
use zoen_gateway.Catalog.Money.Worth.{worth, IsSound}
use zoen_gateway.Catalog.Money.Moves.{settle_lem, owner_is, charged}
use zoen_gateway.Catalog.Money.Runs.{signup, hold, Reach, start, next, Reach-balance_nonneg}
use zoen_gateway.Catalog.Money.Undo.{reserve-release, settle_wraps}
use zoen_gateway.Catalog.Service.{Endpoint, Service, platform, get, from_catalog}
use zoen_gateway.Catalog.Call.{Invoke, endless, call}
use zoen_gateway.Catalog.Call.Ladder.{
  CallInput, ladder, metered, platform_key, team_tool, connection, filled, ladder-metered,
}
use zoen_gateway.Catalog.Call.Meter.{IsReady, Paid}
use zoen_gateway.Catalog.Call.Charges.{cost}
use zoen_gateway.Catalog.Call.Routes.{IsPriced, IsAcyclic, call_lem, call-ends, call-endless}

abbrev ana : Text
ana = ascii "ana"

abbrev c1 : Text
c1 = ascii "c1"

abbrev signed : Inner
signed = (ensure_signup_grant ana Money.new).1

abbrev held_one : Inner
held_one = (reserve ana c1 (pos 400) signed).1

signed-Reach : Reach signed
unfolding lookup zoen_gateway.Catalog.Money.Worth.held
signed-Reach = next (signup ana) start (omega arith) refl

held_one-Reach : Reach held_one
held_one-Reach = next (hold ana c1 (pos 400)) signed-Reach tt refl

Reach-balance_nonneg_example : IsSound held_one × ((k : Text) → pos 0 ≤ℤ Money.balance k held_one)
Reach-balance_nonneg_example = Reach-balance_nonneg held_one-Reach

signed-IsSound : IsSound signed
signed-IsSound = (Reach-balance_nonneg signed-Reach).0

held_one-IsSound : IsSound held_one
held_one-IsSound = (Reach-balance_nonneg held_one-Reach).0

new-IsSound : IsSound Money.new
new-IsSound = (Reach-balance_nonneg start).0

settle_lem_example :
    IsSound (settle c1 (pos 250) held_one).1
    × ((k : Text)
        → worth k (settle c1 (pos 250) held_one).1
            + (if owner_is k (lookup c1 held_one.holds)
                then charged (lookup c1 held_one.holds) (pos 250)
                else 0)
          ≡ worth k held_one)
    × ((id : Text)
        → lookup id (settle c1 (pos 250) held_one).1.holds
          ≡ (if text_eq c1 id then none else lookup id held_one.holds))
settle_lem_example = settle_lem c1 (pos 250) held_one held_one-IsSound (omega arith)

reserve-release_example :
    ((k : Text)
      → Money.balance k (release c1 (reserve ana c1 (pos 400) signed).1).1 ≡ Money.balance k signed)
    × ((id : Text)
        → lookup id (release c1 (reserve ana c1 (pos 400) signed).1).1.holds
          ≡ lookup id signed.holds)
unfolding reserve lookup ensure_signup_grant insert text_eq zoen_gateway.Prelude.Int.add_i64
    zoen_gateway.Prelude.Int.◌+ℤ◌
reserve-release_example = reserve-release ana c1 (pos 400) signed signed-IsSound (omega arith) refl

abbrev full : Inner
full = record {
  balance = (ana, i64_max) ∷ [];
  holds = (c1, record { subject = ana; reserved = pos 400 }) ∷ [];
  granted = [];
}

settle_wraps_example : Money.balance ana (settle c1 (pos 100) full).1 ≤ℤ negsuc 0
unfolding lookup text_eq
settle_wraps_example =
    settle_wraps c1 (pos 100) (record { subject = ana; reserved = pos 400 }) full (2 ^ 63 - 1) refl
      (omega arith) (omega arith) (omega arith) (omega arith) refl (omega arith) (omega arith)

abbrev answers : Invoke
answers endpoint input secret s = (ok (200, null), s)

abbrev search : Endpoint
search = record {
  id = ascii "search";
  capability = ascii "web.search";
  provider = ascii "acme";
  name = ascii "Search";
  summary = [];
  jobs = [];
  method = ascii "GET";
  path = ascii "/search";
  base_url = ascii "https://acme.test";
  access = platform;
  cost_micro = some (pos 250);
  query = null;
  routed_child = none;
  strict_query = false;
}

abbrev route : Endpoint
route = record search { id = ascii "route"; routed_child = some (ascii "search") }

abbrev ring : Endpoint
ring = record search { id = ascii "ring"; routed_child = some (ascii "ring") }

abbrev asked : Text → CallInput
asked id = record {
  id = id;
  query = [];
  body = none;
  subject = ana;
  connection_secret = none;
  team_tool_secret = none;
}

abbrev service : Service
service = record (from_catalog (search ∷ route ∷ [])) { ledger = signed }

abbrev ringed : Service
ringed = record (from_catalog (ring ∷ [])) { ledger = signed }

service-IsPriced : IsPriced service
unfolding get
service-IsPriced id endpoint found = ground arith

service-IsReady : IsReady ana service
unfolding ensure_signup_grant lookup insert text_eq
service-IsReady = record { sound = signed-IsSound; granted = refl }

call_lem_example :
    Paid ana
      (cost (call answers 2 (asked (ascii "route")) service).0)
      service
      (call answers 2 (asked (ascii "route")) service).1
call_lem_example =
    call_lem answers 2 (asked (ascii "route")) service (λ endpoint input secret s. refl)
      service-IsPriced service-IsReady

-- The route is one step from its end.
abbrev depth : Text → ℕ
depth id = if text_eq id (ascii "route") then 1 else 0

service-IsAcyclic : IsAcyclic depth service
unfolding get text_eq
service-IsAcyclic id child_id endpoint found routed =
    ground (arith, text_eq_iff id (ascii "route"), text_eq_iff child_id (ascii "search"))

call-ends_example : (call answers 2 (asked (ascii "route")) service).0 ≢ err endless
unfolding text_eq
call-ends_example =
    call-ends answers depth 2 (asked (ascii "route")) service service-IsAcyclic (omega arith)

call-endless_example : (call answers 9 (asked (ascii "ring")) ringed).0 ≡ err endless
unfolding get text_eq
call-endless_example = call-endless answers 9 (asked (ascii "ring")) ringed ring refl refl

abbrev unsent : Option Text
unsent = none

ladder-metered_example :
    ((metered platform_key ≡ true) ↔ (
      (filled (asked c1).team_tool_secret ≡ none)
      × (filled (asked c1).connection_secret ≡ none)
      × (search.access ≡ platform)
      × (is_some search.cost_micro ≡ true)))
    × ((unsent ≢ none) ↔ (
        ((platform_key ≡ team_tool) × (unsent ≡ filled (asked c1).team_tool_secret))
        ⊎ ((platform_key ≡ connection) × (unsent ≡ filled (asked c1).connection_secret))))
unfolding ladder
ladder-metered_example = ladder-metered search (asked c1) platform_key none refl
