-- ===== src/Codemode/Run.antt =====
-- crates/executor-codemode/src/lib.rs: a source text parsed and run by the native kernel.
use zoen_gateway.Prelude.{Option}
use zoen_gateway.Prelude.Text.{Text}
use zoen_gateway.Prelude.Effect.{Op, continue}
use zoen_gateway.Core.Execution.{Outcome}
use zoen_gateway.Codemode.Error.{CodeError}
use zoen_gateway.Codemode.Parse.{parse}
use zoen_gateway.Core.Limits.{Limits}
use zoen_gateway.Codemode.Host.{CodeHost}
use zoen_gateway.Codemode.Eval.{run}

unfoldable pub native :
    {W : Type 0} → (Text → Option Text) → Text → CodeHost W → Limits → Op W CodeError Outcome
unfolding parse run
native number_of source host limits =
    continue (parse number_of source) (λ program. run program host limits)
