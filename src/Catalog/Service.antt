-- ===== src/Catalog/Service.antt =====
-- crates/executor-catalog/src/call.rs: the service's state and its registries. `calls` numbers every
-- id that the service makes.
use zoen_gateway.Prelude.{
  ℕ, ◌+◌, ◌%◌, ◌^◌, Bool, false, Option, none, some, List, [], ◌∷◌, ◌++◌, ◌&&◌, not, if◌then◌else◌,
  find_first, any, map, select, is_some,
}
use zoen_gateway.Prelude.Int.{ℤ, pos, leb_ℤ}
use zoen_gateway.Prelude.Text.{Text, ascii, text_eq}
use zoen_gateway.Prelude.Trim.{decimal}
use zoen_gateway.Prelude.Map.{Map, text_key, lookup, insert, remove, values}
use zoen_gateway.Prelude.Json.{Value}
use zoen_gateway.Prelude.Effect.{ok, err, Op, ◌>>◌}
use zoen_gateway.Catalog.Error.{CatalogError, invalid, not_found, grant_must_be_positive}
use zoen_gateway.Catalog.Money
use zoen_gateway.Catalog.Money.{Inner, ensure_signup_grant, grant}

pub record TeamTool : Type 0 where
  pub id : Text
  pub name : Text
  pub provider : Text
  pub base_url : Text

pub record TeamToolStored : Type 0 where
  pub meta : TeamTool
  pub secret : Text

pub record TopupIntent : Type 0 where
  pub id : Text
  pub subject : Text
  pub amount_micro : ℤ

pub data Access : Type 0 where
  anonymous platform own_key_only : Access

pub record Endpoint : Type 0 where
  pub id : Text
  pub capability : Text
  pub provider : Text
  pub name : Text
  pub summary : Text
  pub jobs : List Text
  pub method : Text
  pub path : Text
  pub base_url : Text
  pub access : Access
  pub cost_micro : Option ℤ
  pub query : Value
  pub routed_child : Option Text
  pub strict_query : Bool

-- `Catalog`: the endpoints, in order.
abbrev pub Catalog : Type 0
Catalog = List Endpoint

unfoldable pub get : Text → Catalog → Option Endpoint
get id endpoints = find_first (λ e. text_eq e.id id) endpoints

-- `Catalog::merge`: an endpoint whose id is taken is left out.
unfoldable pub merge : Catalog → Catalog → Catalog
merge endpoints [] = endpoints
merge endpoints (e ∷ other) =
    merge (if any (λ x. text_eq x.id e.id) endpoints then endpoints else endpoints ++ e ∷ []) other

pub record Service : Type 0 where
  pub catalog : Catalog
  pub ledger : Inner
  pub calls : ℕ
  pub team_tools : Map Text TeamToolStored
  pub overflow_relays : Map Text TeamToolStored
  pub overflow_opt_out : Bool
  pub extra_clis : Map Text (Unit {0})
  pub pending_topups : Map Text (Text × ℤ)

-- `from_catalog`
abbrev pub from_catalog : Catalog → Service
from_catalog endpoints = record {
  catalog = endpoints;
  ledger = Money.new;
  calls = 1;
  team_tools = [];
  overflow_relays = [];
  overflow_opt_out = false;
  extra_clis = [];
  pending_topups = [];
}

-- `format!("{prefix}{}", self.calls.fetch_add(1))`, on an `AtomicU64`.
unfoldable pub next_id : Text → Service → Text × Service
next_id prefix s = (prefix ++ decimal s.calls, record s { calls = (s.calls + 1) % 2 ^ 64 })

-- A ledger method, on the service's ledger.
abbrev pub on_ledger : {A : Type 0} → Op Inner CatalogError A → Op Service CatalogError A
on_ledger op s = let (r, g) = op s.ledger in (r, record s { ledger = g })

unfoldable pub balance : Text → Op Service CatalogError ℤ
balance subject = on_ledger (ensure_signup_grant subject)

unfoldable pub topup : Text → ℤ → Op Service CatalogError ℤ
topup subject micro = on_ledger (ensure_signup_grant subject) >> on_ledger (grant subject micro)

unfoldable pub register_team_tool : Text → Text → Text → Text → Service → TeamTool × Service
unfolding next_id
register_team_tool name provider base_url secret s =
    let (id, s') = next_id (ascii "tt_") s in
    let meta : TeamTool = record {
      id = id;
      name = name;
      provider = provider;
      base_url = base_url;
    } in
    (
      meta,
      record s' { team_tools = insert id (record { meta = meta; secret = secret }) s'.team_tools },
    )

unfoldable pub list_team_tools : Service → List TeamTool
list_team_tools s = map (λ t. t.meta) (values s.team_tools)

abbrev secret_of : Option TeamToolStored → Option Text
secret_of none = none
secret_of (some t) = some t.secret

-- The first tool of a `HashMap`'s values; the source does not fix their order.
unfoldable pub team_secret_for : Text → Service → Option Text
team_secret_for provider s =
    secret_of (find_first (λ t. text_eq t.meta.provider provider) (values s.team_tools))

unfoldable pub register_overflow_relay : Text → Text → Text → Text → Service → TeamTool × Service
unfolding next_id
register_overflow_relay name provider base_url secret s =
    let (id, s') = next_id (ascii "ov_") s in
    let meta : TeamTool = record {
      id = id;
      name = name;
      provider = provider;
      base_url = base_url;
    } in
    (
      meta,
      record s' {
        overflow_relays =
            insert provider (record { meta = meta; secret = secret }) s'.overflow_relays;
      },
    )

unfoldable pub list_overflow_relays : Service → List TeamTool
list_overflow_relays s = map (λ t. t.meta) (values s.overflow_relays)

unfoldable pub set_overflow_opt_out : Bool → Service → Service
set_overflow_opt_out opt_out s = record s { overflow_opt_out = opt_out }

unfoldable pub overflow_secret_for : Text → Service → Option Text
overflow_secret_for provider s = secret_of (lookup provider s.overflow_relays)

-- A pending top-up credits nothing until it is confirmed.
unfoldable pub create_topup : Text → ℤ → Op Service CatalogError TopupIntent
unfolding next_id
create_topup subject micro s =
    if leb_ℤ micro (pos 0)
    then (err (invalid grant_must_be_positive), s)
    else (let (id, s') = next_id (ascii "tu_") s in
        (
          ok (record { id = id; subject = subject; amount_micro = micro }),
          record s' { pending_topups = insert id (subject, micro) s'.pending_topups },
        ))

confirm_found : Text → Option (Text × ℤ) → Op Service CatalogError ℤ
confirm_found id none s = (err (not_found id), s)
confirm_found id (some (subject, micro)) s =
    (on_ledger (ensure_signup_grant subject) >> on_ledger (grant subject micro))
      (record s { pending_topups = remove id s.pending_topups })

unfoldable pub confirm_topup : Text → Op Service CatalogError ℤ
unfolding confirm_found
confirm_topup id s = confirm_found id (lookup id s.pending_topups) s

unfoldable pub endpoints_for_capability : Text → Service → List Endpoint
endpoints_for_capability capability s =
    select (λ e. text_eq e.capability capability && not (is_some e.routed_child)) s.catalog
