-- ===== src/Codemode/Compiled/Invokes.antt =====
-- crates/executor-core/src/path.rs and crates/executor-codemode: a compiled call, from its text to
-- the host.
use zoen_gateway.Prelude.{
  ℕ, zero, suc, ◌+◌, ◌*◌, ◌≤◌, ◌<◌, ◌≡◌, refl, ap, ◌∙◌, Bool, true, false, ◌||◌, Option, List, [],
  ◌∷◌, ◌++◌, arith, length, all,
}
use zoen_gateway.Prelude.Text.{Text, text_eq, ascii}
use zoen_gateway.Prelude.Effect.{Result, ok, err}
use zoen_gateway.Prelude.Json.{Value, Items, Fields}
use mathlib.Core.List.{append_assoc}
use zoen_gateway.Prelude.Effect.{◌>>=◌, continue, lift, pure}
use zoen_gateway.Core.ToolPath.{compile_call}
use zoen_gateway.Core.Execution.{Outcome}
use zoen_gateway.Codemode.Token.{Token}
use zoen_gateway.Codemode.Error.{CodeError}
use zoen_gateway.Codemode.Ast.{Expr, Exprs, Stmt}
use zoen_gateway.Core.Limits.{Limits}
use zoen_gateway.Codemode.Host.{CodeHost, Vm}
use zoen_gateway.Codemode.Lex.{
  is_number_cont, tokenize, tokenize_from, is_ident_start, is_ident_cont, keyword, punctuation,
}
use zoen_gateway.Codemode.Parse.{
  and_parse, call_loop, parse, parse_tokens, program, stmt, bounded_expr, expr, eat_semi, push_stmt,
}
use zoen_gateway.Codemode.Eval.{
  of_world, runtime_of, return_of, after_stmt, call_host, eval_stmt, step, count_call, ident_value,
  index_of, target_of, expect_json, eval_expr, run, run_from, Runtime,
}
use zoen_gateway.Codemode.Run.{native}
use zoen_gateway.Codemode.Compiled.{
  compact, compact_items, compact_fields, quote, escaped, escape, value_tokens, expr_of, size,
  is_plain_char, IsPlain,
}
use zoen_gateway.Codemode.Compiled.Lexes.{
  Lexes, Lexes-word, Lexes-blank, Lexes-quote, Lexes-punctuation, Lexes-compact,
}
use zoen_gateway.Codemode.Compiled.Reads.{args-value}
use zoen_gateway.Codemode.Compiled.Evaluates.{eval_expr-value}

escaped-append : (s rest more : Text) → escaped s rest ++ more ≡ escaped s (rest ++ more)
unfolding escaped escape
escaped-append [] rest more = refl
escaped-append (c ∷ cs) rest more = ground (arith, escaped-append cs rest more)

mutual
  unfolding compact quote

  compact-append :
      (v : Value) (rest more : Text) → compact v rest ++ more ≡ compact v (rest ++ more)
  compact-append Value.null rest more = refl
  compact-append (Value.bool true) rest more = refl
  compact-append (Value.bool false) rest more = refl
  compact-append (Value.number n) rest more = append_assoc n rest more
  compact-append (Value.string s) rest more = cc (escaped-append s (b'"' ∷ rest) more)
  compact-append (Value.array xs) rest more = cc (compact_items-append xs (b']' ∷ rest) more)
  compact-append (Value.object fs) rest more = cc (compact_fields-append fs (b'}' ∷ rest) more)

  compact_items-append :
      (xs : Items) (rest more : Text)
      → compact_items xs rest ++ more ≡ compact_items xs (rest ++ more)
  compact_items-append Items.nil rest more = refl
  compact_items-append (Items.cons v Items.nil) rest more = compact-append v rest more
  compact_items-append (Items.cons v (Items.cons w xs)) rest more =
      compact-append v (b',' ∷ compact_items (Items.cons w xs) rest) more
      ∙ cc (compact_items-append (Items.cons w xs) rest more)

  compact_fields-append :
      (fs : Fields) (rest more : Text)
      → compact_fields fs rest ++ more ≡ compact_fields fs (rest ++ more)
  compact_fields-append Fields.end rest more = refl
  compact_fields-append (Fields.field k v Fields.end) rest more =
      cc (escaped-append k (b'"' ∷ b':' ∷ compact v rest) more, compact-append v rest more)
  compact_fields-append (Fields.field k v (Fields.field j w fs)) rest more = cc (
    escaped-append k (b'"' ∷ b':' ∷ compact v (b',' ∷ compact_fields (Fields.field j w fs) rest))
        more,
    compact-append v (b',' ∷ compact_fields (Fields.field j w fs) rest) more,
    compact_fields-append (Fields.field j w fs) rest more,
  )

-- The text of a compiled call, and its tokens.
abbrev call_text : Text → Value → Text
call_text path args =
    ascii "return"
    ++ b' ' ∷ ascii "await"
    ++ b' ' ∷ ascii "tools"
    ++ b'[' ∷ quote path (b']' ∷ b'(' ∷ compact args (b')' ∷ b';' ∷ []))

call_text-compact :
    (path : Text) (args : Value)
    → ascii "return await tools["
        ++ (compact (Value.string path) [] ++ (ascii "](" ++ (compact args [] ++ ascii ");")))
      ≡ call_text path args
unfolding compact quote
call_text-compact path args = cc (
  escaped-append path (b'"' ∷ []) (b']' ∷ b'(' ∷ compact args (b')' ∷ b';' ∷ [])),
  compact-append args [] (b')' ∷ b';' ∷ []),
)

compile_call-call_text :
    (to_string : Value → Text) (path : Text) (args : Value)
    → to_string (Value.string path) ≡ compact (Value.string path) []
    → to_string args ≡ compact args []
    → compile_call to_string path args ≡ call_text path args
unfolding compile_call
compile_call-call_text to_string path args e k = rw (e, k) (call_text-compact path args)

abbrev call_tokens : Text → Value → List Token
call_tokens path args =
    Token.return
    ∷ Token.await
    ∷ Token.ident (ascii "tools")
    ∷ Token.lbrack
    ∷ Token.string path
    ∷ Token.rbrack
    ∷ Token.lparen
    ∷ value_tokens args (Token.rparen ∷ Token.semi ∷ Token.eof ∷ [])

abbrev call_expr : Text → Value → Expr
call_expr path args = Expr.await (
    Expr.call (Expr.index (Expr.ident (ascii "tools")) (Expr.literal (Value.string path)))
      (Exprs.cons (expr_of args) Exprs.nil))

Lexes-nil : Lexes [] (Token.eof ∷ [])
unfolding tokenize_from
Lexes-nil zero h = absurd (omega arith)
Lexes-nil (suc fuel) h = refl

enough_split :
    (n : ℕ)
    → 6 * suc (suc (suc (suc (suc (suc n))))) + 6
      ≡ suc (suc (suc (suc (suc (suc (suc (6 * n + 35)))))))
enough_split n = omega arith

module _ (number_of : Text → Option Text) where
  Lexes-call :
      (path : Text) (args : Value)
      → IsPlain number_of args
      → Lexes (call_text path args) (call_tokens path args)
  unfolding is_ident_start is_ident_cont is_number_cont keyword punctuation
  Lexes-call path args p =
      let closing =
        Lexes-punctuation b')' (b';' ∷ []) Token.rparen (Token.semi ∷ Token.eof ∷ []) refl
          (Lexes-punctuation b';' [] Token.semi (Token.eof ∷ []) refl Lexes-nil) in
      let call = Lexes-quote path _ _ (
        Lexes-punctuation b']' _ Token.rbrack _ refl (
          Lexes-punctuation b'(' _ Token.lparen _ refl
            (Lexes-compact number_of args _ _ p refl closing))) in
      Lexes-word b'r' (ascii "eturn") _ _ refl refl refl (
        Lexes-blank _ _ (
          Lexes-word b'a' (ascii "wait") _ _ refl refl refl (
            Lexes-blank _ _ (
              Lexes-word b't' (ascii "ools") _ _ refl refl refl
                (Lexes-punctuation b'[' _ Token.lbrack _ refl call)))))

  call_loop-value :
      (f : ℕ) (e : Expr) (v : Value) (ts : List Token)
      → IsPlain number_of v
      → 6 * length (value_tokens v (Token.rparen ∷ Token.semi ∷ ts)) + 4 < f
      → call_loop number_of
          (suc (suc (suc f)))
          e
          (Token.lparen ∷ value_tokens v (Token.rparen ∷ Token.semi ∷ ts))
        ≡ ok (Expr.call e (Exprs.cons (expr_of v) Exprs.nil), Token.semi ∷ ts)
  unfolding expr
  call_loop-value f e v ts p h = rw (args-value number_of f v (Token.semi ∷ ts) p h) refl

  expr-call :
      (f : ℕ) (path : Text) (args : Value) (ts : List Token)
      → IsPlain number_of args
      → 6 * length (value_tokens args (Token.rparen ∷ Token.semi ∷ ts)) + 4 < f
      → expr number_of (suc (suc (suc (suc (suc (suc (suc f))))))) (
          Token.await
          ∷ Token.ident (ascii "tools")
          ∷ Token.lbrack
          ∷ Token.string path
          ∷ Token.rbrack
          ∷ Token.lparen
          ∷ value_tokens args (Token.rparen ∷ Token.semi ∷ ts))
        ≡ ok (call_expr path args, Token.semi ∷ ts)
  unfolding expr
  expr-call zero path args ts p h = absurd (omega arith)
  expr-call (suc f) path args ts p h =
      ap (λ r. and_parse r (λ e ts. ok (Expr.await e, ts)))
        (call_loop-value (suc f)
          (Expr.index (Expr.ident (ascii "tools")) (Expr.literal (Value.string path))) args ts p h)

  bounded_expr-call :
      (path : Text) (args : Value) (ts : List Token)
      → IsPlain number_of args
      → bounded_expr number_of (
          Token.await
          ∷ Token.ident (ascii "tools")
          ∷ Token.lbrack
          ∷ Token.string path
          ∷ Token.rbrack
          ∷ Token.lparen
          ∷ value_tokens args (Token.rparen ∷ Token.semi ∷ ts))
        ≡ ok (call_expr path args, Token.semi ∷ ts)
  unfolding bounded_expr
  bounded_expr-call path args ts p =
      let n = length (value_tokens args (Token.rparen ∷ Token.semi ∷ ts)) in
      rw (enough_split n) (expr-call (6 * n + 35) path args ts p (omega arith))

  parse-call_text :
      (path : Text) (args : Value)
      → IsPlain number_of args
      → parse number_of (call_text path args) ≡ ok (Stmt.return (call_expr path args) ∷ [])
  unfolding parse tokenize parse_tokens program stmt push_stmt eat_semi
  parse-call_text path args p =
      rw (Lexes-call path args p (suc (length (call_text path args))) (omega arith))
        (rw (bounded_expr-call path args (Token.eof ∷ []) p) refl)

-- The names of the kernel itself.
abbrev pub is_builtin : Text → Bool
is_builtin path =
    text_eq path (ascii "search")
    || text_eq path (ascii "describe.tool")
    || text_eq path (ascii "executor.integrations.list")

builtin_parts :
    (path : Text)
    → is_builtin path ≡ false
    → (text_eq path (ascii "search") ≡ false)
      × (text_eq path (ascii "describe.tool") ≡ false)
      × (text_eq path (ascii "executor.integrations.list") ≡ false)
builtin_parts path b = ground arith

module _ {W : Type 0} (number_of : Text → Option Text) (host : CodeHost W) (limits : Limits) where
  finish : Result CodeError Runtime × Vm W → Result CodeError Outcome × W
  unfolding return_of after_stmt run_from
  finish (r, vm) =
      let (out, vm') =
        (continue r (λ x. lift (return_of host limits x) >>= λ out. pure (out, [])) vm) in
      let (o, last) = continue out (after_stmt host limits (run_from host limits [])) vm' in
      (o, last.world)

  run-return :
      (e : Expr) (w : W)
      → run (Stmt.return e ∷ []) host limits w
        ≡ finish (eval_expr host limits [] e (record { steps = 0; calls = 0; world = w }))
  unfolding run run_from eval_stmt finish
  run-return e w = refl

  finish-answer :
      (x : Result CodeError Outcome × W) (vm : Vm W)
      → finish (continue (of_world vm x).0 (λ o. pure (runtime_of o)) (of_world vm x).1) ≡ x
  unfolding finish runtime_of
  finish-answer (ok (Outcome.paused p), w) vm = refl
  finish-answer (ok (Outcome.completed result id), w) vm = refl
  finish-answer (err e, w) vm = refl

  finish-call_host :
      (path : Text) (args : Value) (vm : Vm W)
      → is_builtin path ≡ false
      → finish (call_host host path args vm) ≡ host.invoke path args vm.world
  unfolding finish call_host
  finish-call_host path args vm b =
      rw ((builtin_parts path b).0, (builtin_parts path b).1, (builtin_parts path b).2)
        (finish-answer (host.invoke path args vm.world) vm)

  count_call-first :
      (w : W)
      → 1 ≤ limits.max_tool_calls
      → count_call limits (record { steps = 5; calls = 0; world = w })
        ≡ (ok tt, record { steps = 5; calls = 1; world = w })
  unfolding count_call
  count_call-first w m = ground arith

  eval_expr-call :
      (path : Text) (args : Value) (w : W)
      → IsPlain number_of args
      → 1 ≤ limits.max_tool_calls
      → 5 + size args ≤ 10000
      → eval_expr host limits [] (call_expr path args) (record { steps = 0; calls = 0; world = w })
        ≡ call_host host path args (record { steps = 5 + size args; calls = 1; world = w })
  unfolding eval_expr step count_call ident_value index_of target_of expect_json
  eval_expr-call path args w p m s =
      let start : Vm W = record { steps = 5; calls = 1; world = w } in
      rw (count_call-first w m, eval_expr-value host limits [] number_of args start p s) refl

  -- A compiled call behaves as the invocation that it stands for. Where `to_string` writes the path
  -- and the arguments in compact JSON, the path is not a name of the kernel itself, the limit allows a
  -- call and the arguments have at most 9995 expressions, parsing and running the compiled text asks
  -- the host once, for that path with those arguments, and gives back the host's answer, pause or
  -- failure, and its world. Numbers stand as the parser reads them, strings hold no control character
  -- but tab, line feed and carriage return, and the names of an object ascend.
  pub native-compile_call :
      (to_string : Value → Text) (path : Text) (args : Value) (w : W)
      → ((v : Value) → IsPlain number_of v → to_string v ≡ compact v [])
      → all is_plain_char path ≡ true
      → is_builtin path ≡ false
      → IsPlain number_of args
      → 1 ≤ limits.max_tool_calls
      → 5 + size args ≤ 10000
      → native number_of (compile_call to_string path args) host limits w ≡ host.invoke path args w
  unfolding native IsPlain
  native-compile_call to_string path args w written q b p m s =
      ap (λ text. native number_of text host limits w)
        (compile_call-call_text to_string path args (written (Value.string path) q)
          (written args p))
      ∙ ap (λ r. continue r (λ program. run program host limits) w)
          (parse-call_text number_of path args p)
      ∙ run-return (call_expr path args) w
      ∙ ap finish (eval_expr-call path args w p m s)
      ∙ finish-call_host path args (record { steps = 5 + size args; calls = 1; world = w }) b
