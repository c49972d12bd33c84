-- ===== src/Core/Connection.antt =====
-- crates/executor-core/src/{connection,secret,integration,auth}.rs: connections, with references to
-- their secrets, and integrations, with their authentication methods.
use zoen_gateway.Prelude.{◌∷◌, ◌++◌, Bool, Option, List}
use zoen_gateway.Prelude.Text.{Text}
use zoen_gateway.Prelude.Map.{Map}
use zoen_gateway.Prelude.Json.{Value}
use zoen_gateway.Core.Owner.{Owner}
use zoen_gateway.Core.Owner

pub data SecretRef : Type 0 where
  env file memory : Text → SecretRef
  provider : Text → Text → SecretRef

pub record ConnectionRef : Type 0 where
  pub owner : Owner
  pub name : Text
  pub integration : Text

-- A slash between two texts.
infixr 40 ◌//◌
abbrev pub ◌//◌ : Text → Text → Text
s // t = s ++ 47 ∷ t

unfoldable pub as_key : ConnectionRef → Text
as_key id = Owner.as_str id.owner // id.integration // id.name

pub data HealthVerdict : Type 0 where
  healthy : Option Text → HealthVerdict
  unhealthy : Text → HealthVerdict
  unknown : HealthVerdict

pub record Connection : Type 0 where
  pub owner : Owner
  pub name : Text
  pub integration : Text
  pub template : Text
  pub provider : Text
  pub address : Text
  pub identity_label : Option Text
  pub description : Option Text
  pub secrets : Map Text SecretRef
  pub last_health : Option HealthVerdict

pub data Carrier : Type 0 where
  header query environment : Carrier

pub record AuthPlacement : Type 0 where
  pub carrier : Carrier
  pub name : Text
  pub prefix : Text
  pub variable : Text
  pub literal : Option Text

pub data AuthKind : Type 0 where
  no_auth api_key header_auth oauth : AuthKind

pub record AuthMethod : Type 0 where
  pub id : Text
  pub label : Text
  pub kind : AuthKind
  pub template : Text
  pub placements : List AuthPlacement
  pub authorization_url : Option Text
  pub token_url : Option Text
  pub scopes : List Text

pub record Integration : Type 0 where
  pub slug : Text
  pub name : Text
  pub description : Text
  pub kind : Text
  pub can_remove : Bool
  pub can_refresh : Bool
  pub auth_methods : List AuthMethod
  pub display_url : Option Text

pub record IntegrationRecord : Type 0 where
  pub integration : Integration
  pub config : Value
