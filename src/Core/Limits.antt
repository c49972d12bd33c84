-- ===== src/Core/Limits.antt =====
-- crates/executor-core/src/limits.rs: the bounds of a deployment. Durations are milliseconds.
use zoen_gateway.Prelude.{ℕ}

pub record Limits : Type 0 where
  pub max_in_flight : ℕ
  pub acquire_timeout : ℕ
  pub execute_timeout : ℕ
  pub http_timeout : ℕ
  pub max_spec_bytes : ℕ
  pub max_tools_per_connection : ℕ
  pub max_catalog_tools : ℕ
  pub max_arg_bytes : ℕ
  pub max_search_results : ℕ
  pub approval_ttl : ℕ
  pub max_code_bytes : ℕ
  pub max_tool_calls : ℕ

abbrev pub production : Limits
production = record {
  max_in_flight = 256;
  acquire_timeout = 0;
  execute_timeout = 300000;
  http_timeout = 15000;
  max_spec_bytes = 67108864;
  max_tools_per_connection = 10000;
  max_catalog_tools = 100000;
  max_arg_bytes = 1048576;
  max_search_results = 50;
  approval_ttl = 900000;
  max_code_bytes = 65536;
  max_tool_calls = 256;
}
