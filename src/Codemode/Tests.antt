-- ===== src/Codemode/Tests.antt =====
-- Runs of the small language, and the theorems at concrete inputs.
use zoen_gateway.Prelude.{
  ℕ, ◌+◌, ◌≤◌, ◌≡◌, refl, ◌≢◌, false, Option, none, some, List, [], ◌∷◌, arith,
}
use zoen_gateway.Prelude.Text.{Text, text_eq, ascii, text_lt}
use zoen_gateway.Prelude.Effect.{ok, err}
use zoen_gateway.Prelude.Json.{Value, Items, Fields}
use zoen_gateway.Core.Execution.{envelope, ToolResult, Outcome}
use zoen_gateway.Core.ToolPath.{compile_call}
use zoen_gateway.Codemode.Error.{out_of_fuel, max_tool_calls_exceeded}
use zoen_gateway.Codemode.Ast.{Expr, Exprs, Stmt}
use zoen_gateway.Core.Limits.{Limits, production}
use zoen_gateway.Codemode.Host.{CodeHost}
use zoen_gateway.Codemode.Lex.{is_ident_cont, is_number_cont}
use zoen_gateway.Codemode.Parse.{parse, push_stmt}
use zoen_gateway.Codemode.Parse.Ends.{parse-ends}
use zoen_gateway.Codemode.Eval.{run}
use zoen_gateway.Codemode.Eval.Calls.{run-max_tool_calls, counted}
use zoen_gateway.Codemode.Run.{native}
use zoen_gateway.Codemode.Compiled.{compact, IsPlain, size}
use zoen_gateway.Codemode.Compiled.Invokes.{is_builtin, native-compile_call}

-- A host whose world counts the ids; it echoes the arguments.
abbrev echo_host : CodeHost ℕ
echo_host = record {
  invoke = λ path args w. (ok (Outcome.completed (ToolResult.success args none) path), w + 1);
  search = λ args w. (ok args, w);
  describe_tool = λ path w. (ok (Value.string path), w);
  list_sandbox_integrations = λ args w. (ok args, w);
  mint = λ w. (ascii "exec", w + 1);
}

abbrev limits : Limits
limits = record production { max_tool_calls = 2 }

abbrev any_number : Text → Option Text
any_number t = some t

abbrev echo_args : Value
echo_args = Value.object (
    Fields.field (ascii "n") (Value.number (ascii "1"))
      (Fields.field (ascii "s") (Value.string (ascii "a\"b")) Fields.end))

-- A small program by hand: its result is the field that the host echoed.
program_text : Text
program_text = ascii "const r = await tools.echo({n: [1, 2]}); // echo\nreturn r.data;"

program_result :
    (native any_number program_text echo_host limits 0).0
    ≡ ok (
        Outcome.completed
          (ToolResult.success
            (Value.object (
              Fields.field
                (ascii "n")
                (Value.array (
                  Items.cons
                    (Value.number (ascii "1"))
                    (Items.cons (Value.number (ascii "2")) Items.nil)))
                Fields.end))
            none)
          (ascii "exec"))
unfolding native program_text is_ident_cont is_number_cont push_stmt envelope text_lt
program_result = refl

parse-ends_example : parse any_number (ascii "return [1, {a: 2}") ≢ err out_of_fuel
parse-ends_example = parse-ends any_number (ascii "return [1, {a: 2}")

echo_args-IsPlain : IsPlain any_number echo_args
unfolding IsPlain is_number_cont text_lt
echo_args-IsPlain = (refl, refl, (refl, refl, refl), (refl, refl, refl, tt))

ping_name : is_builtin (ascii "echo.org.work.ping") ≡ false
unfolding text_eq
ping_name = refl

native-compile_call_example :
    native any_number
      (compile_call (λ v. compact v []) (ascii "echo.org.work.ping") echo_args)
      echo_host
      limits
      0
    ≡ (ok (Outcome.completed (ToolResult.success echo_args none) (ascii "echo.org.work.ping")), 1)
unfolding size
native-compile_call_example =
    native-compile_call any_number echo_host limits (λ v. compact v []) (ascii "echo.org.work.ping")
      echo_args 0 (λ v p. refl) refl ping_name echo_args-IsPlain (omega arith) (omega arith)

-- Three calls, one in the arguments of another.
abbrev ping : Exprs → Expr
ping = Expr.call (Expr.member (Expr.ident (ascii "tools")) (ascii "ping"))

abbrev three_calls : List Stmt
three_calls =
    Stmt.expr (ping (Exprs.cons (ping Exprs.nil) Exprs.nil)) ∷ Stmt.return (ping Exprs.nil) ∷ []

three_calls_fail :
    run three_calls (counted echo_host) limits (0, 0) ≡ (err (max_tool_calls_exceeded 2), (2, 2))
unfolding run
three_calls_fail = refl

run-max_tool_calls_example : (run three_calls (counted echo_host) limits (0, 0)).1.0 ≤ 2
run-max_tool_calls_example = run-max_tool_calls echo_host limits three_calls 0 (omega arith)
