-- ===== src/Catalog/Call/Ladder.antt =====
-- The rungs of the credential ladder: a team tool, the caller's own key, a public route, the
-- platform's key.
use zoen_gateway.Prelude.{
  Bool, true, false, Option, none, some, ◌≡◌, ◌≢◌, arith, if◌then◌else◌, is_some, [], ◌⊎◌, ◌↔◌,
}
use zoen_gateway.Prelude.Text.{Text, text_eq}
use zoen_gateway.Prelude.Map.{Map}
use zoen_gateway.Prelude.Json.{Value}
use zoen_gateway.Prelude.Effect.{Result, ok, err}
use zoen_gateway.Catalog.Error.{CatalogError, connect_your_key}
use zoen_gateway.Catalog.Service.{Access, anonymous, platform, own_key_only, Endpoint}

pub data ServedVia : Type 0 where
  team_tool connection anonymous_route platform_key routed overflow : ServedVia

-- Own-key rungs are never metered.
unfoldable pub metered : ServedVia → Bool
metered platform_key = true
metered routed = true
metered overflow = true
metered _ = false

pub record CallInput : Type 0 where
  pub id : Text
  pub query : Map Text Text
  pub body : Option Value
  pub subject : Text
  pub connection_secret : Option Text
  pub team_tool_secret : Option Text

-- `.filter(|s| !s.is_empty())`
abbrev pub filled : Option Text → Option Text
filled none = none
filled (some s) = if text_eq s [] then none else some s

abbrev by_access : Endpoint → Access → Result CatalogError (ServedVia × Option Text)
by_access endpoint anonymous = ok (anonymous_route, none)
by_access endpoint platform =
    if is_some endpoint.cost_micro
    then ok (platform_key, none)
    else err (connect_your_key endpoint.id endpoint.provider)
by_access endpoint own_key_only = err (connect_your_key endpoint.id endpoint.provider)

abbrev own_key :
    Option Text
    → Result CatalogError (ServedVia × Option Text)
    → Result CatalogError (ServedVia × Option Text)
own_key (some secret) lower = ok (connection, some secret)
own_key none lower = lower

abbrev team_key :
    Option Text
    → Result CatalogError (ServedVia × Option Text)
    → Result CatalogError (ServedVia × Option Text)
team_key (some secret) lower = ok (team_tool, some secret)
team_key none lower = lower

unfoldable pub ladder : Endpoint → CallInput → Result CatalogError (ServedVia × Option Text)
ladder endpoint input =
    team_key (filled input.team_tool_secret)
      (own_key (filled input.connection_secret) (by_access endpoint endpoint.access))

-- A rung is metered exactly when it is the platform's: no team tool's and no caller's key is at hand,
-- and the endpoint is the platform's with a price. Every rung that carries a secret is one of the
-- caller's own, and carries that very secret.
pub ladder-metered :
    (endpoint : Endpoint) (input : CallInput) (via : ServedVia) (secret : Option Text)
    → ladder endpoint input ≡ ok (via, secret)
    → ((metered via ≡ true) ↔ (
        (filled input.team_tool_secret ≡ none)
        × (filled input.connection_secret ≡ none)
        × (endpoint.access ≡ platform)
        × (is_some endpoint.cost_micro ≡ true)))
      × ((secret ≢ none) ↔ (
          ((via ≡ team_tool) × (secret ≡ filled input.team_tool_secret))
          ⊎ ((via ≡ connection) × (secret ≡ filled input.connection_secret))))
unfolding ladder metered
ladder-metered endpoint input via secret e = ground arith
