-- ===== src/Codemode/Parse/Ends.antt =====
-- crates/executor-codemode/src/parse.rs: the fuel is enough, since every step reads tokens.
use zoen_gateway.Prelude.{
  ℕ, zero, suc, ◌+◌, ◌*◌, ◌≤◌, ◌<◌, sym, subst, ◌≢◌, inl, inr, Option, none, some, List, [], ◌∷◌,
  arith, ltb, if◌then◌else◌, Bool-cases, length,
}
use zoen_gateway.Prelude.Text.{Text}
use zoen_gateway.Prelude.Effect.{Result, ok, err, Result-cases}
use zoen_gateway.Codemode.Lex.{tokenize}
use zoen_gateway.Codemode.Lex.Ends.{tokenize-Ends}
use zoen_gateway.Codemode.Token.{Token}
use zoen_gateway.Codemode.Error.{
  too_many_statements, not_out_of_fuel, Ends, IsMessage, CodeError, out_of_fuel,
}
use zoen_gateway.Codemode.Ast.{Expr, Stmt}
use zoen_gateway.Codemode.Parse.{
  pure, ◌>>=◌, parse, parse_tokens, cons_stmt, enough, binding_name, bounded_expr, eat_semi,
  expect_eq, let_stmt, program, push_stmt, stmt, item, literal_of, property, Parser, and_parse,
  expr, call, call_loop, args, args_loop, args_next, primary, object_loop, object_next, array_loop,
  array_next, object_key, expect_rbrace, expect_rbrack, expect_rparen, expect_colon,
}

-- Fewer than `n` tokens are left, or the failure is one of the source.
abbrev pub Fits : {A : Type 0} → ℕ → Result CodeError (A × List Token) → Type 0
Fits n (ok (a, ts)) = length ts < n
Fits n (err e) = IsMessage e

Fits-and_parse :
    {A B : Type 0} (m n : ℕ) (r : Result CodeError (A × List Token)) (f : A → Parser B)
    → Fits m r
    → ((a : A) (ts : List Token) → length ts < m → Fits n (f a ts))
    → Fits n (and_parse r f)
Fits-and_parse m n (ok (a, ts)) f h k = k a ts h
Fits-and_parse m n (err e) f h k = h

object_key-Fits : (ts : List Token) → Fits (length ts) (object_key ts)
unfolding object_key
object_key-Fits [] = tt
object_key-Fits (Token.ident s ∷ ts) = omega arith
object_key-Fits (Token.string s ∷ ts) = omega arith
object_key-Fits (_ ∷ ts) = tt

expect_colon-Fits : (ts : List Token) → Fits (length ts) (expect_colon ts)
unfolding expect_colon
expect_colon-Fits [] = tt
expect_colon-Fits (Token.colon ∷ ts) = omega arith
expect_colon-Fits (_ ∷ ts) = tt

expect_rbrace-Fits : (ts : List Token) → Fits (length ts) (expect_rbrace ts)
unfolding expect_rbrace
expect_rbrace-Fits [] = tt
expect_rbrace-Fits (Token.rbrace ∷ ts) = omega arith
expect_rbrace-Fits (_ ∷ ts) = tt

expect_rbrack-Fits : (ts : List Token) → Fits (length ts) (expect_rbrack ts)
unfolding expect_rbrack
expect_rbrack-Fits [] = tt
expect_rbrack-Fits (Token.rbrack ∷ ts) = omega arith
expect_rbrack-Fits (_ ∷ ts) = tt

expect_rparen-Fits : (ts : List Token) → Fits (length ts) (expect_rparen ts)
unfolding expect_rparen
expect_rparen-Fits [] = tt
expect_rparen-Fits (Token.rparen ∷ ts) = omega arith
expect_rparen-Fits (_ ∷ ts) = tt

Fits-mono :
    {A : Type 0} (m n : ℕ) (r : Result CodeError (A × List Token)) → Fits m r → m ≤ n → Fits n r
Fits-mono m n (ok (a, ts)) h l = omega arith
Fits-mono m n (err e) h l = h

literal_of-Fits :
    (raw : Text) (n : Option Text) (ts : List Token) → Fits (suc (length ts)) (literal_of raw n ts)
unfolding literal_of
literal_of-Fits raw none ts = tt
literal_of-Fits raw (some n) ts = omega arith

binding_name-Fits : (ts : List Token) → Fits (length ts) (binding_name ts)
unfolding binding_name
binding_name-Fits [] = tt
binding_name-Fits (Token.ident s ∷ ts) = omega arith
binding_name-Fits (_ ∷ ts) = tt

expect_eq-Fits : (ts : List Token) → Fits (length ts) (expect_eq ts)
unfolding expect_eq
expect_eq-Fits [] = tt
expect_eq-Fits (Token.eq ∷ ts) = omega arith
expect_eq-Fits (_ ∷ ts) = tt

eat_semi-Fits : (ts : List Token) → Fits (suc (length ts)) (eat_semi ts)
unfolding eat_semi
eat_semi-Fits [] = omega arith
eat_semi-Fits (Token.semi ∷ ts) = omega arith
eat_semi-Fits (_ ∷ ts) = omega arith

cons_stmt-Ends : (s : Stmt) (r : Result CodeError (List Stmt)) → Ends r → Ends (cons_stmt s r)
cons_stmt-Ends s (ok ss) h = tt
cons_stmt-Ends s (err e) h = h

push_stmt-Ends :
    (count : ℕ) (more : List Token → Result CodeError (List Stmt))
    (r : Result CodeError (Stmt × List Token)) (n : ℕ)
    → Fits n r
    → ((ts : List Token) → length ts < n → Ends (more ts))
    → Ends (push_stmt count more r)
unfolding push_stmt
push_stmt-Ends count more (ok (s, ts)) n h k = elim (Bool-cases (ltb 256 (count + 1))) [
  | inl e ↦
      subst (λ b. Ends (if b then err too_many_statements else cons_stmt s (more ts))) (sym e) tt
  | inr e ↦
      subst (λ b. Ends (if b then err too_many_statements else cons_stmt s (more ts))) (sym e)
        (cons_stmt-Ends s (more ts) (k ts h))
]
push_stmt-Ends count more (err e) n h k = h

module _ (number_of : Text → Option Text) where
  mutual
    unfolding expr

    expr-Fits :
        (f : ℕ) (ts : List Token) → 6 * length ts + 4 < f → Fits (length ts) (expr number_of f ts)
    expr-Fits zero ts h = absurd (omega arith)
    expr-Fits (suc f) (Token.await ∷ ts) h =
        Fits-and_parse _ _ (expr number_of f ts) _ (expr-Fits f ts (omega arith))
          λ e rest k. omega arith
    expr-Fits (suc f) [] h = call-Fits f [] (omega arith)
    expr-Fits (suc f) (t ∷ ts) h = call-Fits f (t ∷ ts) (omega arith)

    call-Fits :
        (f : ℕ) (ts : List Token) → 6 * length ts + 3 < f → Fits (length ts) (call number_of f ts)
    call-Fits zero ts h = absurd (omega arith)
    call-Fits (suc f) ts h =
        Fits-and_parse _ _ (primary number_of f ts) _ (primary-Fits f ts (omega arith))
          λ e rest k. Fits-mono _ _ _ (call_loop-Fits f e rest (omega arith)) (omega arith)

    call_loop-Fits :
        (f : ℕ) (e : Expr) (ts : List Token)
        → 6 * length ts + 1 < f
        → Fits (suc (length ts)) (call_loop number_of f e ts)
    call_loop-Fits zero e ts h = absurd (omega arith)
    call_loop-Fits (suc f) e (Token.dot ∷ Token.ident p ∷ ts) h =
        Fits-mono _ _ _ (call_loop-Fits f (Expr.member e p) ts (omega arith)) (omega arith)
    call_loop-Fits (suc f) e (Token.dot ∷ []) h = tt
    call_loop-Fits (suc f) e (Token.dot ∷ _ ∷ ts) h = tt
    call_loop-Fits (suc f) e (Token.lbrack ∷ ts) h =
        Fits-and_parse _ _ (expr number_of f ts) _ (expr-Fits f ts (omega arith)) λ i rest k.
          Fits-and_parse _ _ (expect_rbrack rest) _ (expect_rbrack-Fits rest) λ u more l.
            Fits-mono _ _ _ (call_loop-Fits f (Expr.index e i) more (omega arith)) (omega arith)
    call_loop-Fits (suc f) e (Token.lparen ∷ ts) h =
        Fits-and_parse _ _ (args number_of f ts) _ (args-Fits f ts (omega arith)) λ es rest k.
          Fits-and_parse _ _ (expect_rparen rest) _ (expect_rparen-Fits rest) λ u more l.
            Fits-mono _ _ _ (call_loop-Fits f (Expr.call e es) more (omega arith)) (omega arith)
    call_loop-Fits (suc f) e [] h = omega arith
    call_loop-Fits (suc f) e (_ ∷ ts) h = omega arith

    args-Fits :
        (f : ℕ) (ts : List Token)
        → 6 * length ts + 6 < f
        → Fits (suc (length ts)) (args number_of f ts)
    args-Fits zero ts h = absurd (omega arith)
    args-Fits (suc f) (Token.rparen ∷ ts) h = omega arith
    args-Fits (suc f) [] h = Fits-mono _ _ _ (args_loop-Fits f [] (omega arith)) (omega arith)
    args-Fits (suc f) (t ∷ ts) h =
        Fits-mono _ _ _ (args_loop-Fits f (t ∷ ts) (omega arith)) (omega arith)

    args_loop-Fits :
        (f : ℕ) (ts : List Token)
        → 6 * length ts + 5 < f
        → Fits (length ts) (args_loop number_of f ts)
    args_loop-Fits zero ts h = absurd (omega arith)
    args_loop-Fits (suc f) ts h =
        Fits-and_parse _ _ (expr number_of f ts) _ (expr-Fits f ts (omega arith)) λ e rest k.
          Fits-and_parse _ _ (args_next number_of f rest) _ (args_next-Fits f rest (omega arith))
            λ es more l. omega arith

    args_next-Fits :
        (f : ℕ) (ts : List Token)
        → 6 * length ts + 1 < f
        → Fits (suc (length ts)) (args_next number_of f ts)
    args_next-Fits zero ts h = absurd (omega arith)
    args_next-Fits (suc f) (Token.comma ∷ ts) h =
        Fits-mono _ _ _ (args_loop-Fits f ts (omega arith)) (omega arith)
    args_next-Fits (suc f) [] h = omega arith
    args_next-Fits (suc f) (_ ∷ ts) h = omega arith

    primary-Fits :
        (f : ℕ) (ts : List Token)
        → 6 * length ts + 2 < f
        → Fits (length ts) (primary number_of f ts)
    primary-Fits zero ts h = absurd (omega arith)
    primary-Fits (suc f) (Token.ident name ∷ ts) h = omega arith
    primary-Fits (suc f) (Token.string s ∷ ts) h = omega arith
    primary-Fits (suc f) (Token.number n ∷ ts) h = literal_of-Fits n (number_of n) ts
    primary-Fits (suc f) (Token.true ∷ ts) h = omega arith
    primary-Fits (suc f) (Token.false ∷ ts) h = omega arith
    primary-Fits (suc f) (Token.null ∷ ts) h = omega arith
    primary-Fits (suc f) (Token.lbrace ∷ ts) h =
        Fits-and_parse _ _ (object_loop number_of f ts) _ (object_loop-Fits f ts (omega arith))
          λ ps rest k.
            Fits-and_parse _ _ (expect_rbrace rest) _ (expect_rbrace-Fits rest)
              λ u more l. omega arith
    primary-Fits (suc f) (Token.lbrack ∷ ts) h =
        Fits-and_parse _ _ (array_loop number_of f ts) _ (array_loop-Fits f ts (omega arith))
          λ es rest k.
            Fits-and_parse _ _ (expect_rbrack rest) _ (expect_rbrack-Fits rest)
              λ u more l. omega arith
    primary-Fits (suc f) (Token.lparen ∷ ts) h =
        Fits-and_parse _ _ (expr number_of f ts) _ (expr-Fits f ts (omega arith)) λ e rest k.
          Fits-and_parse _ _ (expect_rparen rest) _ (expect_rparen-Fits rest)
            λ u more l. omega arith
    primary-Fits (suc f) [] h = tt
    primary-Fits (suc f) (_ ∷ ts) h = tt

    property-Fits :
        (f : ℕ) (ts : List Token)
        → 6 * length ts + 3 < f
        → Fits (length ts) (property number_of f ts)
    property-Fits zero ts h = absurd (omega arith)
    property-Fits (suc f) ts h =
        Fits-and_parse _ _ (object_key ts) _ (object_key-Fits ts) λ key rest k.
          Fits-and_parse _ _ (expect_colon rest) _ (expect_colon-Fits rest) λ u more l.
            Fits-and_parse _ _ (expr number_of f more) _ (expr-Fits f more (omega arith))
              λ e left m.
                Fits-and_parse _ _ (object_next number_of f left) _
                  (object_next-Fits f left (omega arith)) λ ps o n. omega arith

    object_loop-Fits :
        (f : ℕ) (ts : List Token)
        → 6 * length ts + 4 < f
        → Fits (suc (length ts)) (object_loop number_of f ts)
    object_loop-Fits zero ts h = absurd (omega arith)
    object_loop-Fits (suc f) [] h = omega arith
    object_loop-Fits (suc f) (Token.eof ∷ ts) h = omega arith
    object_loop-Fits (suc f) (Token.rbrace ∷ ts) h = omega arith
    object_loop-Fits (suc f) (t ∷ ts) h =
        Fits-mono _ _ _ (property-Fits f (t ∷ ts) (omega arith)) (omega arith)

    object_next-Fits :
        (f : ℕ) (ts : List Token)
        → 6 * length ts + 1 < f
        → Fits (suc (length ts)) (object_next number_of f ts)
    object_next-Fits zero ts h = absurd (omega arith)
    object_next-Fits (suc f) (Token.comma ∷ ts) h =
        Fits-mono _ _ _ (object_loop-Fits f ts (omega arith)) (omega arith)
    object_next-Fits (suc f) [] h = omega arith
    object_next-Fits (suc f) (_ ∷ ts) h = omega arith

    item-Fits :
        (f : ℕ) (ts : List Token) → 6 * length ts + 5 < f → Fits (length ts) (item number_of f ts)
    item-Fits zero ts h = absurd (omega arith)
    item-Fits (suc f) ts h =
        Fits-and_parse _ _ (expr number_of f ts) _ (expr-Fits f ts (omega arith)) λ e rest k.
          Fits-and_parse _ _ (array_next number_of f rest) _ (array_next-Fits f rest (omega arith))
            λ es more l. omega arith

    array_loop-Fits :
        (f : ℕ) (ts : List Token)
        → 6 * length ts + 6 < f
        → Fits (suc (length ts)) (array_loop number_of f ts)
    array_loop-Fits zero ts h = absurd (omega arith)
    array_loop-Fits (suc f) [] h = omega arith
    array_loop-Fits (suc f) (Token.eof ∷ ts) h = omega arith
    array_loop-Fits (suc f) (Token.rbrack ∷ ts) h = omega arith
    array_loop-Fits (suc f) (t ∷ ts) h =
        Fits-mono _ _ _ (item-Fits f (t ∷ ts) (omega arith)) (omega arith)

    array_next-Fits :
        (f : ℕ) (ts : List Token)
        → 6 * length ts + 2 < f
        → Fits (suc (length ts)) (array_next number_of f ts)
    array_next-Fits zero ts h = absurd (omega arith)
    array_next-Fits (suc f) (Token.comma ∷ ts) h =
        Fits-mono _ _ _ (array_loop-Fits f ts (omega arith)) (omega arith)
    array_next-Fits (suc f) [] h = omega arith
    array_next-Fits (suc f) (_ ∷ ts) h = omega arith

  bounded_expr-Fits : (ts : List Token) → Fits (length ts) (bounded_expr number_of ts)
  unfolding bounded_expr
  bounded_expr-Fits ts = expr-Fits (enough ts) ts (omega arith)

  let_stmt-Fits : (ts : List Token) → Fits (length ts) (let_stmt number_of ts)
  unfolding let_stmt
  let_stmt-Fits ts = Fits-and_parse _ _ (binding_name ts) _ (binding_name-Fits ts) λ name a h.
      Fits-and_parse _ _ (expect_eq a) _ (expect_eq-Fits a) λ u b k.
        Fits-and_parse _ _ (bounded_expr number_of b) _ (bounded_expr-Fits b)
          λ e c l. Fits-and_parse _ _ (eat_semi c) _ (eat_semi-Fits c) λ v d m. omega arith

  stmt-Fits : (ts : List Token) → Fits (length ts) (stmt number_of ts)
  unfolding stmt
  stmt-Fits (Token.binding ∷ ts) = Fits-mono (length ts) _ _ (let_stmt-Fits ts) (omega arith)
  stmt-Fits (Token.const ∷ ts) = Fits-mono (length ts) _ _ (let_stmt-Fits ts) (omega arith)
  stmt-Fits (Token.return ∷ ts) =
      Fits-and_parse _ _ (bounded_expr number_of ts) _ (bounded_expr-Fits ts)
        λ e a h. Fits-and_parse _ _ (eat_semi a) _ (eat_semi-Fits a) λ v b k. (omega arith)
  stmt-Fits [] =
      Fits-and_parse {B = Stmt} 0 0 (bounded_expr number_of [])
        (λ e. eat_semi >>= λ u. pure (Stmt.expr e)) (bounded_expr-Fits [])
        λ e a h. absurd (omega arith)
  stmt-Fits (t ∷ ts) =
      Fits-and_parse _ _ (bounded_expr number_of (t ∷ ts)) _ (bounded_expr-Fits (t ∷ ts))
        λ e a h. Fits-and_parse _ _ (eat_semi a) _ (eat_semi-Fits a) λ v b k. (omega arith)

  program-Ends :
      (f count : ℕ) (ts : List Token) → length ts < f → Ends (program number_of f count ts)
  unfolding program
  program-Ends zero count ts h = absurd (omega arith)
  program-Ends (suc f) count [] h = tt
  program-Ends (suc f) count (Token.eof ∷ ts) h = tt
  program-Ends (suc f) count (t ∷ ts) h =
      push_stmt-Ends count _ (stmt number_of (t ∷ ts)) (length (t ∷ ts)) (stmt-Fits (t ∷ ts))
        λ rest k. program-Ends f (count + 1) rest (omega arith)

  -- The parser always ends: however the source reads, its loops never run out of their rounds, so
  -- that the result is a program or one of the source's messages.
  pub parse-ends : (source : Text) → parse number_of source ≢ err out_of_fuel
  unfolding parse parse_tokens
  parse-ends source h = elim (Result-cases (tokenize source)) [
    | inl (ts, e) ↦
        not_out_of_fuel _ (program-Ends (suc (length ts)) 0 ts (omega arith)) (rw e at h)
    | inr (e, k) ↦ not_out_of_fuel _ (subst Ends k (tokenize-Ends source)) (rw k at h)
  ]
