-- ===== src/Codemode/Host.antt =====
-- crates/executor-codemode/src/lib.rs: the catalog's side of the kernel, and what a run keeps.
use zoen_gateway.Prelude.{ℕ}
use zoen_gateway.Prelude.Text.{Text}
use zoen_gateway.Prelude.Json.{Value}
use zoen_gateway.Prelude.Effect.{Op}
use zoen_gateway.Core.Execution.{Outcome}
use zoen_gateway.Codemode.Error.{CodeError}

-- `CodeHost`, over a world `W`; `mint` is `ExecutionId::mint`.
pub record CodeHost (W : Type 0) : Type 0 where
  pub invoke : Text → Value → Op W CodeError Outcome
  pub search : Value → Op W CodeError Value
  pub describe_tool : Text → Op W CodeError Value
  pub list_sandbox_integrations : Value → Op W CodeError Value
  pub mint : W → Text × W

-- The counters of a run, and the world.
pub record Vm (W : Type 0) : Type 0 where
  pub steps : ℕ
  pub calls : ℕ
  pub world : W
