-- ===== src/Codemode/Eval.antt =====
-- crates/executor-codemode/src/eval.rs: the evaluator of parsed programs.
pub mod Calls
use zoen_gateway.Prelude.{
  ◌+◌, ◌%◌, ◌^◌, Option, none, some, List, [], ◌∷◌, ◌++◌, map, ltb, if◌then◌else◌, is_some,
  and_then,
}
use zoen_gateway.Prelude.Text.{Text, text_eq, ascii}
use zoen_gateway.Prelude.Effect.{Result, ok, err, Op, ◌>>=◌, ◌>>◌, pure, lift}
use zoen_gateway.Prelude.Map.{Map, text_key, lookup, insert}
use zoen_gateway.Prelude.Json.{Value, Items, Fields, get_field, insert_field, as_str, get}
use zoen_gateway.Core.Execution.{ToolResult, Outcome, PausedExecution, envelope}
use zoen_gateway.Codemode.Error.{
  CodeError, step_limit_exceeded, unknown_identifier, tools_not_json, paused_cannot_bind,
  missing_property, property_on_non_object, illegal_index, can_only_call_tools,
  max_tool_calls_exceeded, describe_expects_object, describe_requires_path, describe_no_schemas,
}
use zoen_gateway.Codemode.Ast.{Expr, Exprs, Props, Stmt}
use zoen_gateway.Core.Limits.{Limits, production}
use zoen_gateway.Codemode.Host.{CodeHost, Vm}

pub data Runtime : Type 0 where
  json : Value → Runtime
  tools : Text → Runtime
  paused : PausedExecution → Runtime
  completed : ToolResult → Text → Runtime

pub data StmtOut : Type 0 where
  value : Value → StmtOut
  return : Value → StmtOut
  paused : PausedExecution → StmtOut
  completed : ToolResult → Text → StmtOut

abbrev pub Env : Type 0
Env = Map Text Value

unfoldable pub expect_json : Runtime → Result CodeError Value
expect_json (Runtime.json v) = ok v
expect_json (Runtime.completed result id) = ok (envelope result)
expect_json (Runtime.tools path) = err tools_not_json
expect_json (Runtime.paused p) = err paused_cannot_bind

abbrev pub json_or : CodeError → Option Value → Result CodeError Runtime
json_or e none = err e
json_or e (some v) = ok (Runtime.json v)

unfoldable pub ident_value : Text → Env → Result CodeError Runtime
unfolding text_eq lookup
ident_value name env =
    if text_eq name (ascii "tools")
    then ok (Runtime.tools [])
    else json_or (unknown_identifier name) (lookup name env)

unfoldable pub join_path : Text → Text → Text
join_path [] seg = seg
join_path (c ∷ base) seg = (c ∷ base) ++ b'.' ∷ seg

unfoldable pub json_property : Value → Text → Result CodeError Runtime
unfolding get_field
json_property (Value.object fs) prop = json_or (missing_property prop) (get_field prop fs)
json_property _ prop = err property_on_non_object

abbrev pub and_then_ok : {E A B : Type 0} → Result E A → (A → Result E B) → Result E B
and_then_ok (ok a) f = f a
and_then_ok (err e) f = err e

-- What `eval_member` makes of the object's value.
unfoldable pub member_of : Text → Runtime → Result CodeError Runtime
unfolding join_path expect_json json_property
member_of prop (Runtime.tools path) = ok (Runtime.tools (join_path path prop))
member_of prop (Runtime.paused p) = ok (Runtime.paused p)
member_of prop other = and_then_ok (expect_json other) λ v. json_property v prop

-- The match of `eval_index`.
unfoldable pub index_of : Runtime → Value → Result CodeError Runtime
unfolding expect_json json_property
index_of (Runtime.tools path) (Value.string s) = ok (Runtime.tools s)
index_of (Runtime.paused p) v = ok (Runtime.paused p)
index_of other (Value.string s) = and_then_ok (expect_json other) λ v. json_property v s
index_of other v = err illegal_index

-- The path that a callee must be.
unfoldable pub target_of : Runtime → Result CodeError Text
target_of (Runtime.tools path) = ok path
target_of _ = err can_only_call_tools

unfoldable pub runtime_of : Outcome → Runtime
runtime_of (Outcome.paused execution) = Runtime.paused execution
runtime_of (Outcome.completed result id) = Runtime.completed result id

unfoldable pub described : Option Text → Value → Result CodeError Text
unfolding get_field
described none payload = err describe_expects_object
described (some []) payload = err describe_requires_path
described (some (c ∷ path)) payload =
    if is_some (get (ascii "includeSchemas") payload)
    then err describe_no_schemas
    else ok (c ∷ path)

-- The checks of `describe.tool`, with the path to describe.
unfoldable pub describe_path : Value → Result CodeError Text
unfolding get_field described
describe_path payload = described (and_then (get (ascii "path") payload) as_str) payload

abbrev pub Eval : Type 0 → Type 0 → Type 0
Eval W A = Op (Vm W) CodeError A

module _ {W : Type 0} where
  -- A call of the host: only the world changes.
  abbrev pub of_world : {A : Type 0} → Vm W → Result CodeError A × W → Result CodeError A × Vm W
  of_world vm (r, w) = (r, record vm { world = w })

  abbrev pub ask : {A : Type 0} → Op W CodeError A → Eval W A
  ask op vm = of_world vm (op vm.world)

  unfoldable pub step : Eval W (Unit {0})
  step vm =
      let next = record vm { steps = vm.steps + 1 } in
      if ltb 10000 next.steps then (err step_limit_exceeded, next) else (ok tt, next)

  -- `fetch_add` wraps around.
  unfoldable pub count_call : Limits → Eval W (Unit {0})
  count_call limits vm =
      let next = record vm { calls = (vm.calls + 1) % 2 ^ 32 } in
      if ltb limits.max_tool_calls next.calls
      then (err (max_tool_calls_exceeded limits.max_tool_calls), next)
      else (ok tt, next)

  abbrev pub ask_json : Op W CodeError Value → Eval W Runtime
  ask_json op = ask op >>= λ v. pure (Runtime.json v)

  unfoldable pub call_host : CodeHost W → Text → Value → Eval W Runtime
  unfolding text_eq describe_path runtime_of
  call_host host path payload =
      if text_eq path (ascii "search")
      then ask_json (host.search payload)
      else if text_eq path (ascii "describe.tool")
      then lift (describe_path payload) >>= (λ tool_path. ask_json (host.describe_tool tool_path))
      else if text_eq path (ascii "executor.integrations.list")
      then ask_json (host.list_sandbox_integrations payload)
      else ask (host.invoke path payload) >>= (λ outcome. pure (runtime_of outcome))

  module _ (host : CodeHost W) (limits : Limits) (env : Env) where
    unfoldable mutual
      unfolding step ident_value member_of index_of target_of count_call call_host expect_json

      pub eval_expr : Expr → Eval W Runtime
      eval_expr (Expr.await inner) = step >> eval_expr inner
      eval_expr (Expr.literal v) = step >> pure (Runtime.json v)
      eval_expr (Expr.ident name) = step >> lift (ident_value name env)
      eval_expr (Expr.object fields) = do
        step
        fs ← eval_object fields Fields.end
        pure (Runtime.json (Value.object fs))
      eval_expr (Expr.array items) = do
        step
        vs ← eval_array items
        pure (Runtime.json (Value.array vs))
      eval_expr (Expr.member receiver prop) = do
        step
        r ← eval_expr receiver
        lift (member_of prop r)
      eval_expr (Expr.index receiver i) = do
        step
        obj ← eval_expr receiver
        r ← eval_expr i
        idx ← lift (expect_json r)
        lift (index_of obj idx)
      eval_expr (Expr.call callee args) = do
        step
        r ← eval_expr callee
        path ← lift (target_of r)
        count_call limits
        payload ← call_payload args
        call_host host path payload

      pub eval_object : Props → Fields → Eval W Fields
      eval_object Props.end map = pure map
      eval_object (Props.prop k e rest) map = do
        r ← eval_expr e
        v ← lift (expect_json r)
        eval_object rest (insert_field k v map)

      pub eval_array : Exprs → Eval W Items
      eval_array Exprs.nil = pure Items.nil
      eval_array (Exprs.cons e rest) = do
        r ← eval_expr e
        v ← lift (expect_json r)
        vs ← eval_array rest
        pure (Items.cons v vs)

      pub call_payload : Exprs → Eval W Value
      call_payload Exprs.nil = pure (Value.object Fields.end)
      call_payload (Exprs.cons first rest) = do r ← eval_expr first; lift (expect_json r)

  module _ (host : CodeHost W) (limits : Limits) where
    unfoldable pub return_of : Runtime → Result CodeError StmtOut
    unfolding expect_json
    return_of (Runtime.paused p) = ok (StmtOut.paused p)
    return_of (Runtime.completed result id) = ok (StmtOut.completed result id)
    return_of other = and_then_ok (expect_json other) λ v. ok (StmtOut.return v)

    unfoldable pub value_of : Runtime → Result CodeError StmtOut
    unfolding expect_json
    value_of (Runtime.paused p) = ok (StmtOut.paused p)
    value_of (Runtime.completed result id) = ok (StmtOut.value (envelope result))
    value_of other = and_then_ok (expect_json other) λ v. ok (StmtOut.value v)

    -- The statement's result, and the environment after it.
    unfoldable pub eval_stmt : Stmt → Env → Eval W (StmtOut × Env)
    unfolding eval_expr expect_json return_of value_of insert
    eval_stmt (Stmt.binding name e) env = do
      r ← eval_expr host limits env e
      v ← lift (expect_json r)
      pure (StmtOut.value Value.null, insert name v env)
    eval_stmt (Stmt.return e) env = do
      r ← eval_expr host limits env e
      out ← lift (return_of r)
      pure (out, env)
    eval_stmt (Stmt.expr e) env = do
      r ← eval_expr host limits env e
      out ← lift (value_of r)
      pure (out, env)

    unfoldable pub completed_with : Value → Eval W Outcome
    completed_with v vm =
        let (id, w) = host.mint vm.world in
        (ok (Outcome.completed (ToolResult.success v none) id), record vm { world = w })

    -- What follows a statement: `more` is the rest of the loop.
    unfoldable pub after_stmt : (Env → Value → Eval W Outcome) → StmtOut × Env → Eval W Outcome
    unfolding completed_with
    after_stmt more (StmtOut.value v, env) = more env v
    after_stmt more (StmtOut.return v, env) = completed_with v
    after_stmt more (StmtOut.paused p, env) = pure (Outcome.paused p)
    after_stmt more (StmtOut.completed result id, env) = pure (Outcome.completed result id)

    unfoldable pub run_from : List Stmt → Env → Value → Eval W Outcome
    unfolding eval_stmt completed_with after_stmt
    run_from [] env last = completed_with last
    run_from (stmt ∷ program) env last = eval_stmt stmt env >>= after_stmt (run_from program)

-- A run starts with fresh counters.
unfoldable pub run : {W : Type 0} → List Stmt → CodeHost W → Limits → Op W CodeError Outcome
unfolding run_from
run program host limits w =
    let (r, vm) =
      run_from host limits program [] Value.null (record { steps = 0; calls = 0; world = w }) in
    (r, vm.world)
