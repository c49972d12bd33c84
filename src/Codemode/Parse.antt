-- ===== src/Codemode/Parse.antt =====
-- crates/executor-codemode/src/parse.rs: the recursive-descent parser. The parser's index is the
-- list of the tokens that are left; past the end stands `eof`.
pub mod Ends
use zoen_gateway.Prelude.{
  Bool, ℕ, zero, suc, ◌+◌, ◌*◌, List, [], ◌∷◌, Option, none, some, length, if◌then◌else◌, ltb,
}
use zoen_gateway.Prelude.Text.{Text}
use zoen_gateway.Prelude.Json.{Value}
use zoen_gateway.Prelude.Effect.{Result, ok, err}
use zoen_gateway.Codemode.Token.{Token}
use zoen_gateway.Codemode.Error.{
  CodeError, out_of_fuel, too_many_statements, expected_binding_name, expected_property_name,
  expected_object_key, expected, unexpected_token, invalid_number,
}
use zoen_gateway.Codemode.Ast.{Expr, Exprs, Props, Stmt}
use zoen_gateway.Codemode.Lex.{tokenize}

abbrev pub Parser : Type 0 → Type 0
Parser A = List Token → Result CodeError (A × List Token)

module _ {A B : Type 0} where
  abbrev pub and_parse :
      Result CodeError (A × List Token) → (A → Parser B) → Result CodeError (B × List Token)
  and_parse (ok (a, ts)) f = f a ts
  and_parse (err e) f = err e

  infixl 5 ◌>>=◌ ◌>>◌
  abbrev pub ◌>>=◌ : Parser A → (A → Parser B) → Parser B
  ◌>>=◌ p f ts = and_parse (p ts) f

  abbrev pub ◌>>◌ : Parser A → Parser B → Parser B
  p >> q = p >>= λ _. q

abbrev pub pure : {A : Type 0} → A → Parser A
pure a ts = ok (a, ts)

abbrev pub fail : {A : Type 0} → CodeError → Parser A
fail e ts = err e

abbrev pub run : {A : Type 0} → List Token → Parser A → Result CodeError (A × List Token)
run ts p = p ts

unfoldable pub peek : List Token → Token
peek [] = Token.eof
peek (t ∷ ts) = t

-- `expect` of each token that the grammar asks for.
unfoldable pub expect_rbrace : Parser (Unit {0})
expect_rbrace (Token.rbrace ∷ ts) = ok (tt, ts)
expect_rbrace ts = err (expected Token.rbrace)

unfoldable pub expect_rbrack : Parser (Unit {0})
expect_rbrack (Token.rbrack ∷ ts) = ok (tt, ts)
expect_rbrack ts = err (expected Token.rbrack)

unfoldable pub expect_rparen : Parser (Unit {0})
expect_rparen (Token.rparen ∷ ts) = ok (tt, ts)
expect_rparen ts = err (expected Token.rparen)

unfoldable pub expect_colon : Parser (Unit {0})
expect_colon (Token.colon ∷ ts) = ok (tt, ts)
expect_colon ts = err (expected Token.colon)

unfoldable pub expect_eq : Parser (Unit {0})
expect_eq (Token.eq ∷ ts) = ok (tt, ts)
expect_eq ts = err (expected Token.eq)

unfoldable pub eat_semi : Parser (Unit {0})
eat_semi (Token.semi ∷ ts) = ok (tt, ts)
eat_semi ts = ok (tt, ts)

unfoldable pub object_key : Parser Text
unfolding peek
object_key (Token.ident s ∷ ts) = ok (s, ts)
object_key (Token.string s ∷ ts) = ok (s, ts)
object_key ts = err (expected_object_key (peek ts))

unfoldable pub binding_name : Parser Text
binding_name (Token.ident s ∷ ts) = ok (s, ts)
binding_name ts = err expected_binding_name

-- The rest of the loop after a statement, which is the one after `count` others.
abbrev pub cons_stmt : Stmt → Result CodeError (List Stmt) → Result CodeError (List Stmt)
cons_stmt s (ok ss) = ok (s ∷ ss)
cons_stmt s (err e) = err e

unfoldable pub push_stmt :
    ℕ
    → (List Token → Result CodeError (List Stmt))
    → Result CodeError (Stmt × List Token)
    → Result CodeError (List Stmt)
push_stmt count more (ok (s, ts)) =
    if ltb 256 (count + 1) then err too_many_statements else cons_stmt s (more ts)
push_stmt count more (err e) = err e

unfoldable pub literal_of : Text → Option Text → Parser Expr
literal_of raw (some n) ts = ok (Expr.literal (Value.number n), ts)
literal_of raw none ts = err (invalid_number raw)

-- The fuel that is enough for an expression in so many tokens.
abbrev pub enough : List Token → ℕ
enough ts = 6 * length ts + 6

-- `number_of` gives the number that a literal reads as: `str::parse` and `Number::from_f64`.
module _ (number_of : Text → Option Text) where
  unfoldable pub number_literal : Text → Parser Expr
  unfolding literal_of
  number_literal raw = literal_of raw (number_of raw)

  -- What a call leaves of the tokens is not a structural part of them, so each call costs a unit
  -- of fuel.
  unfoldable mutual
    unfolding number_literal object_key expect_rbrace expect_rbrack expect_rparen expect_colon peek

    pub expr : ℕ → Parser Expr
    expr zero ts = err out_of_fuel
    expr (suc f) (Token.await ∷ ts) = run ts do pure (Expr.await (← expr f))
    expr (suc f) ts = call f ts

    pub call : ℕ → Parser Expr
    call zero ts = err out_of_fuel
    call (suc f) ts = run ts do primary f >>= call_loop f

    pub call_loop : ℕ → Expr → Parser Expr
    call_loop zero e ts = err out_of_fuel
    call_loop (suc f) e (Token.dot ∷ Token.ident p ∷ ts) = call_loop f (Expr.member e p) ts
    call_loop (suc f) e (Token.dot ∷ ts) = err expected_property_name
    call_loop (suc f) e (Token.lbrack ∷ ts) =
        run ts do i ← expr f; expect_rbrack; call_loop f (Expr.index e i)
    call_loop (suc f) e (Token.lparen ∷ ts) =
        run ts do es ← args f; expect_rparen; call_loop f (Expr.call e es)
    call_loop (suc f) e ts = ok (e, ts)

    pub args : ℕ → Parser Exprs
    args zero ts = err out_of_fuel
    args (suc f) (Token.rparen ∷ ts) = ok (Exprs.nil, Token.rparen ∷ ts)
    args (suc f) ts = args_loop f ts

    pub args_loop : ℕ → Parser Exprs
    args_loop zero ts = err out_of_fuel
    args_loop (suc f) ts = run ts do e ← expr f; es ← args_next f; pure (Exprs.cons e es)

    pub args_next : ℕ → Parser Exprs
    args_next zero ts = err out_of_fuel
    args_next (suc f) (Token.comma ∷ ts) = args_loop f ts
    args_next (suc f) ts = ok (Exprs.nil, ts)

    pub primary : ℕ → Parser Expr
    primary zero ts = err out_of_fuel
    primary (suc f) (Token.ident name ∷ ts) = ok (Expr.ident name, ts)
    primary (suc f) (Token.string s ∷ ts) = ok (Expr.literal (Value.string s), ts)
    primary (suc f) (Token.number n ∷ ts) = number_literal n ts
    primary (suc f) (Token.true ∷ ts) = ok (Expr.literal (Value.bool Bool.true), ts)
    primary (suc f) (Token.false ∷ ts) = ok (Expr.literal (Value.bool Bool.false), ts)
    primary (suc f) (Token.null ∷ ts) = ok (Expr.literal Value.null, ts)
    primary (suc f) (Token.lbrace ∷ ts) =
        run ts do ps ← object_loop f; expect_rbrace; pure (Expr.object ps)
    primary (suc f) (Token.lbrack ∷ ts) =
        run ts do es ← array_loop f; expect_rbrack; pure (Expr.array es)
    primary (suc f) (Token.lparen ∷ ts) = run ts do e ← expr f; expect_rparen; pure e
    primary (suc f) ts = err (unexpected_token (peek ts))

    -- The loops of `object` and `array`, without the closing token.
    pub object_loop : ℕ → Parser Props
    object_loop zero ts = err out_of_fuel
    object_loop (suc f) [] = ok (Props.end, [])
    object_loop (suc f) (Token.eof ∷ ts) = ok (Props.end, Token.eof ∷ ts)
    object_loop (suc f) (Token.rbrace ∷ ts) = ok (Props.end, Token.rbrace ∷ ts)
    object_loop (suc f) ts = property f ts

    pub property : ℕ → Parser Props
    property zero ts = err out_of_fuel
    property (suc f) ts =
        run ts
          do k ← object_key; expect_colon; v ← expr f; ps ← object_next f; pure (Props.prop k v ps)

    pub object_next : ℕ → Parser Props
    object_next zero ts = err out_of_fuel
    object_next (suc f) (Token.comma ∷ ts) = object_loop f ts
    object_next (suc f) ts = ok (Props.end, ts)

    pub array_loop : ℕ → Parser Exprs
    array_loop zero ts = err out_of_fuel
    array_loop (suc f) [] = ok (Exprs.nil, [])
    array_loop (suc f) (Token.eof ∷ ts) = ok (Exprs.nil, Token.eof ∷ ts)
    array_loop (suc f) (Token.rbrack ∷ ts) = ok (Exprs.nil, Token.rbrack ∷ ts)
    array_loop (suc f) ts = item f ts

    pub item : ℕ → Parser Exprs
    item zero ts = err out_of_fuel
    item (suc f) ts = run ts do e ← expr f; es ← array_next f; pure (Exprs.cons e es)

    pub array_next : ℕ → Parser Exprs
    array_next zero ts = err out_of_fuel
    array_next (suc f) (Token.comma ∷ ts) = array_loop f ts
    array_next (suc f) ts = ok (Exprs.nil, ts)

  unfoldable pub bounded_expr : Parser Expr
  unfolding expr
  bounded_expr ts = expr (enough ts) ts

  unfoldable pub let_stmt : Parser Stmt
  unfolding bounded_expr eat_semi expect_eq binding_name
  let_stmt ts =
      run ts
        do name ← binding_name; expect_eq; e ← bounded_expr; eat_semi; pure (Stmt.binding name e)

  unfoldable pub stmt : Parser Stmt
  unfolding bounded_expr eat_semi let_stmt
  stmt (Token.binding ∷ ts) = let_stmt ts
  stmt (Token.const ∷ ts) = let_stmt ts
  stmt (Token.return ∷ ts) = run ts do e ← bounded_expr; eat_semi; pure (Stmt.return e)
  stmt ts = run ts do e ← bounded_expr; eat_semi; pure (Stmt.expr e)

  -- `count` is the length of `stmts`; each statement takes a round of fuel.
  unfoldable pub program : ℕ → ℕ → List Token → Result CodeError (List Stmt)
  unfolding stmt
  program zero count ts = err out_of_fuel
  program (suc f) count [] = ok []
  program (suc f) count (Token.eof ∷ ts) = ok []
  program (suc f) count ts = push_stmt count (program f (count + 1)) (stmt ts)

  unfoldable pub parse_tokens : Result CodeError (List Token) → Result CodeError (List Stmt)
  unfolding program
  parse_tokens (ok ts) = program (suc (length ts)) 0 ts
  parse_tokens (err e) = err e

  unfoldable pub parse : Text → Result CodeError (List Stmt)
  unfolding tokenize parse_tokens
  parse source = parse_tokens (tokenize source)
