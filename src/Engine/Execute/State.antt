-- ===== src/Engine/Execute/State.antt =====
-- The state of the engine, and what the source calls beyond it: JSON sizes and schemas, secrets,
-- plugins, built-in tools, and what other tasks do during a sleep.
use zoen_gateway.Prelude.{ℕ, Bool, List}
use zoen_gateway.Prelude.Text.{Text}
use zoen_gateway.Prelude.Map.{Map, text_key}
use zoen_gateway.Prelude.Json.{Value}
use zoen_gateway.Prelude.Effect.{Result, ok, Op}
use zoen_gateway.Core.Tool.{Tool}
use zoen_gateway.Core.Connection.{SecretRef, ConnectionRef, AuthMethod, IntegrationRecord}
use zoen_gateway.Core.Execution.{ToolResult, Outcome}
use zoen_gateway.Core.Store.{MemoryInner}
use zoen_gateway.Engine.Error.{ExecutorError}

pub record Engine (W : Type 0) : Type 0 where
  pub store : MemoryInner
  pub world : W

abbrev pub Run : Type 0 → Type 0 → Type 0
Run W A = Op (Engine W) ExecutorError A

pub record Runtime (W : Type 0) : Type 0 where
  pub static_tools : Map Text Tool
  pub max_arg_bytes : ℕ
  pub approval_ttl_ms : ℕ
  pub size : Value → ℕ
  -- whether a number's literal fits an `i64` or a `u64`
  pub is_integer : Text → Bool
  pub from_utf8 : Text → Bool
  pub resolve_secret : SecretRef → Result ExecutorError Text
  pub has_plugin : Text → Bool
  -- `oauth::prepare`: a pause, or the values to call with
  pub prepare :
      List AuthMethod
      → Text
      → Map Text Text
      → Text
      → Value
      → Text
      → Run W (Result Outcome (Map Text Text))
  pub invoke_plugin :
      IntegrationRecord
      → ConnectionRef
      → Text
      → Tool
      → Value
      → Map Text Text
      → Op (Engine W) Text ToolResult
  pub invoke_static : Text → Value → Run W ToolResult
  pub sleep : Engine W → Engine W

abbrev pub with_store : {W : Type 0} → (MemoryInner → MemoryInner) → Engine W → Engine W
with_store f e = record e { store = f e.store }

abbrev pub modify : {W : Type 0} → (MemoryInner → MemoryInner) → Run W (Unit {0})
modify f e = (ok tt, with_store f e)
