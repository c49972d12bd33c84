-- ===== src/Codemode/Eval/Calls.antt =====
-- crates/executor-codemode/src/eval.rs: how often a program calls the host.
use zoen_gateway.Prelude.{
  ℕ, suc, ◌+◌, ◌-◌, ◌%◌, ◌^◌, ◌≤◌, ◌<◌, ◌≡◌, refl, Bool, true, false, List, [], ◌∷◌, arith, ltb,
  if◌then◌else◌,
}
use zoen_gateway.Prelude.Text.{Text, text_eq, ascii}
use zoen_gateway.Prelude.Effect.{Result, ok, err}
use zoen_gateway.Prelude.Json.{Value, Fields, insert_field}
use zoen_gateway.Prelude.Effect.{Op, ◌>>=◌, continue, lift, pure}
use zoen_gateway.Core.Execution.{Outcome}
use zoen_gateway.Codemode.Error.{CodeError}
use zoen_gateway.Codemode.Ast.{Expr, Exprs, Props, Stmt}
use zoen_gateway.Core.Limits.{Limits}
use zoen_gateway.Codemode.Host.{CodeHost, Vm}
use zoen_gateway.Codemode.Eval.{
  describe_path, ask_json, runtime_of, ident_value, member_of, expect_json, index_of, target_of,
  return_of, value_of, Env, Eval, ask, of_world, step, count_call, call_host, eval_expr,
  eval_object, eval_array, call_payload, eval_stmt, completed_with, after_stmt, run_from, run,
  StmtOut, Runtime,
}

-- An operation of the host that counts its calls beside the world.
abbrev tally : {W A : Type 0} → ℕ → Result CodeError A × W → Result CodeError A × (ℕ × W)
tally n (r, w) = (r, (suc n, w))

abbrev counted_op : {W A : Type 0} → Op W CodeError A → Op (ℕ × W) CodeError A
counted_op op (n, w) = tally n (op w)

-- A host that counts the calls of its four operations.
abbrev pub counted : {W : Type 0} → CodeHost W → CodeHost (ℕ × W)
counted host = record {
  invoke = λ path args. counted_op (host.invoke path args);
  search = λ args. counted_op (host.search args);
  describe_tool = λ path. counted_op (host.describe_tool path);
  list_sandbox_integrations = λ args. counted_op (host.list_sandbox_integrations args);
  mint = λ s. ((host.mint s.1).0, (s.0, (host.mint s.1).1));
}

module _ {W : Type 0} (host : CodeHost W) (limits : Limits) where
  -- The host was called at least `credit` times less than calls were counted.
  abbrev Inv : ℕ → Vm (ℕ × W) → Type 0
  Inv credit vm = (vm.world.0 + credit ≤ vm.calls) × (vm.calls ≤ limits.max_tool_calls)

  abbrev Post : {A : Type 0} → ℕ → Result CodeError A × Vm (ℕ × W) → Type 0
  Post credit (ok a, vm) = Inv credit vm
  Post credit (err e, vm) = vm.world.0 ≤ limits.max_tool_calls

  abbrev Keeps : {A : Type 0} → ℕ → ℕ → Eval (ℕ × W) A → Type 0
  Keeps c d m = (vm : Vm (ℕ × W)) → Inv c vm → Post d (m vm)

  Post-continue :
      {A B : Type 0} (d e : ℕ) (r : Result CodeError A × Vm (ℕ × W)) (f : A → Eval (ℕ × W) B)
      → Post d r
      → ((a : A) → Keeps d e (f a))
      → Post e (continue r.0 f r.1)
  Post-continue d e (ok a, vm) f h k = k a vm h
  Post-continue d e (err x, vm) f h k = h

  Keeps-bind :
      {A B : Type 0} (c d e : ℕ) (m : Eval (ℕ × W) A) (f : A → Eval (ℕ × W) B)
      → Keeps c d m
      → ((a : A) → Keeps d e (f a))
      → Keeps c e (m >>= f)
  Keeps-bind c d e m f h k vm i = Post-continue d e (m vm) f (h vm i) k

  Post-if :
      {A : Type 0} (c : ℕ) (b : Bool) (r s : Result CodeError A × Vm (ℕ × W))
      → (b ≡ true → Post c r)
      → (b ≡ false → Post c s)
      → Post c (if b then r else s)
  Post-if c true r s h k = h refl
  Post-if c false r s h k = k refl

  Keeps-lift : {A : Type 0} (c : ℕ) (r : Result CodeError A) → Keeps c c (lift r)
  Keeps-lift c (ok a) vm i = i
  Keeps-lift c (err e) vm i = omega arith

  Keeps-pure : {A : Type 0} (c : ℕ) (a : A) → Keeps c c (pure a)
  Keeps-pure c a vm i = i

  Keeps-step : (c : ℕ) → Keeps c c step
  unfolding step
  Keeps-step c vm i = Post-if c (ltb 10000 (vm.steps + 1)) _ _ (λ _. omega arith) (λ _. i)

  Keeps-count_call :
      (c : ℕ) → limits.max_tool_calls < 2 ^ 32 - 1 → Keeps c (suc c) (count_call limits)
  unfolding count_call
  Keeps-count_call c small vm i =
      Post-if (suc c) (ltb limits.max_tool_calls ((vm.calls + 1) % 2 ^ 32)) _ _ (λ _. omega arith)
        (λ e. ground arith)

  Post-tally :
      {A : Type 0} (c n : ℕ) (vm : Vm (ℕ × W)) (x : Result CodeError A × W)
      → vm.world.0 ≡ n
      → Inv (suc c) vm
      → Post c (of_world vm (tally n x))
  Post-tally c n vm (ok a, w) e i = omega arith
  Post-tally c n vm (err x, w) e i = omega arith

  Keeps-ask : {A : Type 0} (c : ℕ) (op : Op W CodeError A) → Keeps (suc c) c (ask (counted_op op))
  Keeps-ask c op vm i = Post-tally c vm.world.0 vm (op vm.world.1) refl i

  Keeps-if :
      {A : Type 0} (c d : ℕ) (b : Bool) (m n : Eval (ℕ × W) A)
      → Keeps c d m
      → Keeps c d n
      → Keeps c d (if b then m else n)
  Keeps-if c d true m n h k = h
  Keeps-if c d false m n h k = k

  Keeps-ask_bind :
      {A B : Type 0} (c : ℕ) (op : Op W CodeError A) (f : A → B)
      → Keeps (suc c) c (ask (counted_op op) >>= (λ a. pure (f a)))
  Keeps-ask_bind c op f =
      Keeps-bind (suc c) c c (ask (counted_op op)) (λ a. pure (f a)) (Keeps-ask c op)
        λ a. Keeps-pure c (f a)

  -- The later branches of `call_host`.
  abbrev last : Text → Value → Eval (ℕ × W) Runtime
  last path payload =
      if text_eq path (ascii "executor.integrations.list")
      then ask_json ((counted host).list_sandbox_integrations payload)
      else ask ((counted host).invoke path payload) >>= (λ outcome. pure (runtime_of outcome))

  abbrev inner : Text → Value → Eval (ℕ × W) Runtime
  inner path payload =
      if text_eq path (ascii "describe.tool")
      then lift (describe_path payload)
        >>= (λ tool_path. ask_json ((counted host).describe_tool tool_path))
      else last path payload

  Keeps-call_host :
      (c : ℕ) (path : Text) (payload : Value)
      → Keeps (suc c) c (call_host (counted host) path payload)
  unfolding call_host
  Keeps-call_host c path payload =
      let invoke = Keeps-ask_bind c (host.invoke path payload) runtime_of in
      let list = Keeps-ask_bind c (host.list_sandbox_integrations payload) Runtime.json in
      let describe =
        Keeps-bind (suc c) (suc c) c (lift (describe_path payload))
          (λ path. ask_json ((counted host).describe_tool path))
          (Keeps-lift (suc c) (describe_path payload))
          λ path. Keeps-ask_bind c (host.describe_tool path) Runtime.json in
      let search = Keeps-ask_bind c (host.search payload) Runtime.json in
      Keeps-if (suc c) c (text_eq path (ascii "search")) _ (inner path payload) search (
        Keeps-if (suc c) c (text_eq path (ascii "describe.tool")) _ (last path payload) describe
          (Keeps-if (suc c) c (text_eq path (ascii "executor.integrations.list")) _ _ list invoke))

  module _ (small : limits.max_tool_calls < 2 ^ 32 - 1) where
    mutual
      unfolding eval_expr

      Keeps-eval_expr :
          (c : ℕ) (env : Env) (e : Expr) → Keeps c c (eval_expr (counted host) limits env e)
      Keeps-eval_expr c env (Expr.await inner) =
          Keeps-bind c c c step _ (Keeps-step c) λ _. Keeps-eval_expr c env inner
      Keeps-eval_expr c env (Expr.literal v) = Keeps-bind c c c step _ (Keeps-step c) λ _. λ vm i. i
      Keeps-eval_expr c env (Expr.ident name) =
          Keeps-bind c c c step _ (Keeps-step c) λ _. Keeps-lift c (ident_value name env)
      Keeps-eval_expr c env (Expr.object fields) = Keeps-bind c c c step _ (Keeps-step c) λ _.
          Keeps-bind c c c (eval_object (counted host) limits env fields Fields.end) _
            (Keeps-eval_object c env fields Fields.end) λ fs. λ vm i. i
      Keeps-eval_expr c env (Expr.array items) = Keeps-bind c c c step _ (Keeps-step c) λ _.
          Keeps-bind c c c (eval_array (counted host) limits env items) _
            (Keeps-eval_array c env items) λ vs. λ vm i. i
      Keeps-eval_expr c env (Expr.member receiver prop) =
          Keeps-bind c c c step _ (Keeps-step c) λ _.
            Keeps-bind c c c (eval_expr (counted host) limits env receiver) _
              (Keeps-eval_expr c env receiver) λ r. Keeps-lift c (member_of prop r)
      Keeps-eval_expr c env (Expr.index receiver i) = Keeps-bind c c c step _ (Keeps-step c) λ _.
          Keeps-bind c c c (eval_expr (counted host) limits env receiver) _
            (Keeps-eval_expr c env receiver)
            λ obj.
              Keeps-bind c c c (eval_expr (counted host) limits env i) _ (Keeps-eval_expr c env i)
                λ r.
                  Keeps-bind c c c (lift (expect_json r)) _ (Keeps-lift c (expect_json r))
                    λ idx. Keeps-lift c (index_of obj idx)
      Keeps-eval_expr c env (Expr.call callee args) = Keeps-bind c c c step _ (Keeps-step c) λ _.
          Keeps-bind c c c (eval_expr (counted host) limits env callee) _
            (Keeps-eval_expr c env callee)
            λ r. Keeps-bind c c c (lift (target_of r)) _ (Keeps-lift c (target_of r)) λ path.
              Keeps-bind c (suc c) c (count_call limits) _ (Keeps-count_call c small) λ _.
                Keeps-bind (suc c) (suc c) c (call_payload (counted host) limits env args) _
                  (Keeps-call_payload (suc c) env args) λ payload. Keeps-call_host c path payload

      Keeps-eval_object :
          (c : ℕ) (env : Env) (ps : Props) (acc : Fields)
          → Keeps c c (eval_object (counted host) limits env ps acc)
      Keeps-eval_object c env Props.end acc = Keeps-pure c acc
      Keeps-eval_object c env (Props.prop k e rest) acc =
          Keeps-bind c c c (eval_expr (counted host) limits env e) _ (Keeps-eval_expr c env e) λ r.
            Keeps-bind c c c (lift (expect_json r)) _ (Keeps-lift c (expect_json r))
              λ v. Keeps-eval_object c env rest (insert_field k v acc)

      Keeps-eval_array :
          (c : ℕ) (env : Env) (es : Exprs) → Keeps c c (eval_array (counted host) limits env es)
      Keeps-eval_array c env Exprs.nil = λ vm i. i
      Keeps-eval_array c env (Exprs.cons e rest) =
          Keeps-bind c c c (eval_expr (counted host) limits env e) _ (Keeps-eval_expr c env e) λ r.
            Keeps-bind c c c (lift (expect_json r)) _ (Keeps-lift c (expect_json r)) λ v.
              Keeps-bind c c c (eval_array (counted host) limits env rest) _
                (Keeps-eval_array c env rest) λ vs. λ vm i. i

      Keeps-call_payload :
          (c : ℕ) (env : Env) (es : Exprs) → Keeps c c (call_payload (counted host) limits env es)
      Keeps-call_payload c env Exprs.nil = λ vm i. i
      Keeps-call_payload c env (Exprs.cons e rest) =
          Keeps-bind c c c (eval_expr (counted host) limits env e) _ (Keeps-eval_expr c env e)
            λ r. Keeps-lift c (expect_json r)

    Keeps-eval_stmt : (s : Stmt) (env : Env) → Keeps 0 0 (eval_stmt (counted host) limits s env)
    unfolding eval_stmt
    Keeps-eval_stmt (Stmt.binding name e) env =
        Keeps-bind 0 0 0 (eval_expr (counted host) limits env e) _ (Keeps-eval_expr 0 env e) λ r.
          Keeps-bind 0 0 0 (lift (expect_json r)) _ (Keeps-lift 0 (expect_json r)) λ v. λ vm i. i
    Keeps-eval_stmt (Stmt.return e) env =
        Keeps-bind 0 0 0 (eval_expr (counted host) limits env e) _ (Keeps-eval_expr 0 env e) λ r.
          Keeps-bind 0 0 0 (lift (return_of (counted host) limits r)) _
            (Keeps-lift 0 (return_of (counted host) limits r)) λ out. λ vm i. i
    Keeps-eval_stmt (Stmt.expr e) env =
        Keeps-bind 0 0 0 (eval_expr (counted host) limits env e) _ (Keeps-eval_expr 0 env e) λ r.
          Keeps-bind 0 0 0 (lift (value_of (counted host) limits r)) _
            (Keeps-lift 0 (value_of (counted host) limits r)) λ out. λ vm i. i

    Keeps-completed_with : (v : Value) → Keeps 0 0 (completed_with (counted host) limits v)
    unfolding completed_with
    Keeps-completed_with v vm i = i

    Keeps-after_stmt :
        (more : Env → Value → Eval (ℕ × W) Outcome) (out : StmtOut × Env)
        → ((env : Env) (v : Value) → Keeps 0 0 (more env v))
        → Keeps 0 0 (after_stmt (counted host) limits more out)
    unfolding after_stmt
    Keeps-after_stmt more (StmtOut.value v, env) h = h env v
    Keeps-after_stmt more (StmtOut.return v, env) h = Keeps-completed_with v
    Keeps-after_stmt more (StmtOut.paused p, env) h = Keeps-pure 0 (Outcome.paused p)
    Keeps-after_stmt more (StmtOut.completed result id, env) h =
        Keeps-pure 0 (Outcome.completed result id)

    Keeps-run_from :
        (program : List Stmt) (env : Env) (last : Value)
        → Keeps 0 0 (run_from (counted host) limits program env last)
    unfolding run_from
    Keeps-run_from [] env last = Keeps-completed_with last
    Keeps-run_from (s ∷ program) env last =
        Keeps-bind 0 0 0 (eval_stmt (counted host) limits s env) _ (Keeps-eval_stmt s env) λ out.
          Keeps-after_stmt (run_from (counted host) limits program) out (Keeps-run_from program)

  Post-bound :
      {A : Type 0} (r : Result CodeError A × Vm (ℕ × W))
      → Post 0 r
      → r.1.world.0 ≤ limits.max_tool_calls
  Post-bound (ok a, vm) h = omega arith
  Post-bound (err e, vm) h = h

  -- A program calls the host at most as often as the limit on tool calls says, however its
  -- expressions nest and whatever the host answers, also where the run ends in a failure. The limit
  -- is below the greatest 32-bit number.
  pub run-max_tool_calls :
      (program : List Stmt) (w : W)
      → limits.max_tool_calls < 2 ^ 32 - 1
      → (run program (counted host) limits (0, w)).1.0 ≤ limits.max_tool_calls
  unfolding run
  run-max_tool_calls program w small =
      let start : Vm (ℕ × W) = record { steps = 0; calls = 0; world = (0, w) } in
      Post-bound (run_from (counted host) limits program [] Value.null start)
        (Keeps-run_from small program [] Value.null start (omega arith))
