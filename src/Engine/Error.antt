-- ===== src/Engine/Error.antt =====
-- crates/executor-core/src/error.rs: `ExecutorError`. A message is kept as what it is made from.
use zoen_gateway.Prelude.{ℕ, Option, List}
use zoen_gateway.Prelude.Text.{Text}
use zoen_gateway.Core.Id.{InvalidId}

pub data ExecutorError : Type 0 where
  -- an address, suggestions and a reason
  tool_not_found : Text → List Text → Option Text → ExecutorError
  -- an address, the pattern and the id of the policy
  tool_blocked : Text → Text → Text → ExecutorError
  integration_not_found connection_not_found plugin_not_loaded : Text → ExecutorError
  provider_not_registered credential_resolution invalid_args invalid_pattern : Text → ExecutorError
  conflict removal_not_allowed storage plugin_error code enterprise_managed : Text → ExecutorError
  invalid_id : InvalidId → ExecutorError
  execution_not_found not_paused : Text → ExecutorError
  overloaded : ℕ → ℕ → ℕ → ExecutorError
  timeout : ℕ → ExecutorError
  cancelled : ExecutorError
  -- the size of the arguments and its bound
  arguments_too_large : ℕ → ℕ → ExecutorError
  arguments_must_be_an_object : ExecutorError
