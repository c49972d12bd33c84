-- ===== src/Codemode/Compiled/Reads.antt =====
-- The tokens of a plain value are parsed as its literal.
use zoen_gateway.Prelude.{
  ℕ, zero, suc, ◌+◌, ◌*◌, ◌≤◌, ◌<◌, ◌≡◌, refl, ◌∙◌, true, false, Option, List, [], ◌∷◌, arith,
  length,
}
use zoen_gateway.Prelude.Text.{Text}
use zoen_gateway.Prelude.Effect.{ok}
use zoen_gateway.Prelude.Json.{Value, Items, Fields}
use zoen_gateway.Codemode.Token.{Token}
use zoen_gateway.Codemode.Ast.{Exprs, Expr}
use zoen_gateway.Codemode.Parse.{
  args, args_loop, expr, call, call_loop, primary, object_loop, array_loop, item, literal_of,
}
use zoen_gateway.Codemode.Compiled.{
  IsNumber, value_tokens, items_tokens, fields_tokens, expr_of, exprs_of, props_of, IsPlain,
  ArePlain, FieldsArePlain,
}

-- What may stand behind an argument or a literal.
abbrev pub IsClosed : List Token → Type 0
IsClosed (Token.comma ∷ ts) = Unit
IsClosed (Token.rbrack ∷ ts) = Unit
IsClosed (Token.rbrace ∷ ts) = Unit
IsClosed (Token.rparen ∷ ts) = Unit
IsClosed _ = ⊥

mutual
  unfolding value_tokens

  value_tokens-length : (v : Value) (ts : List Token) → length ts < length (value_tokens v ts)
  value_tokens-length Value.null ts = omega arith
  value_tokens-length (Value.bool true) ts = omega arith
  value_tokens-length (Value.bool false) ts = omega arith
  value_tokens-length (Value.number n) ts = omega arith
  value_tokens-length (Value.string s) ts = omega arith
  value_tokens-length (Value.array xs) ts =
      omega (arith, items_tokens-length xs (Token.rbrack ∷ ts))
  value_tokens-length (Value.object fs) ts =
      omega (arith, fields_tokens-length fs (Token.rbrace ∷ ts))

  items_tokens-length : (xs : Items) (ts : List Token) → length ts ≤ length (items_tokens xs ts)
  items_tokens-length Items.nil ts = omega arith
  items_tokens-length (Items.cons v Items.nil) ts = omega (arith, value_tokens-length v ts)
  items_tokens-length (Items.cons v (Items.cons w xs)) ts =
      let later = items_tokens (Items.cons w xs) ts in
      omega (
        arith,
        value_tokens-length v (Token.comma ∷ later),
        items_tokens-length (Items.cons w xs) ts,
      )

  fields_tokens-length : (fs : Fields) (ts : List Token) → length ts ≤ length (fields_tokens fs ts)
  fields_tokens-length Fields.end ts = omega arith
  fields_tokens-length (Fields.field k v Fields.end) ts = omega (arith, value_tokens-length v ts)
  fields_tokens-length (Fields.field k v (Fields.field j w fs)) ts =
      let later = fields_tokens (Fields.field j w fs) ts in
      omega (
        arith,
        value_tokens-length v (Token.comma ∷ later),
        fields_tokens-length (Fields.field j w fs) ts,
      )

module _ (number_of : Text → Option Text) where
  pub call_loop-IsClosed :
      (f : ℕ) (e : Expr) (ts : List Token)
      → IsClosed ts
      → call_loop number_of (suc f) e ts ≡ ok (e, ts)
  unfolding expr
  call_loop-IsClosed f e [] h = absurd h
  call_loop-IsClosed f e (Token.comma ∷ ts) h = refl
  call_loop-IsClosed f e (Token.rbrack ∷ ts) h = refl
  call_loop-IsClosed f e (Token.rbrace ∷ ts) h = refl
  call_loop-IsClosed f e (Token.rparen ∷ ts) h = refl
  call_loop-IsClosed f e (_ ∷ ts) h = absurd h

  expr-value_tokens :
      (f : ℕ) (v : Value) (ts : List Token)
      → expr number_of (suc f) (value_tokens v ts) ≡ call number_of f (value_tokens v ts)
  unfolding expr value_tokens
  expr-value_tokens f Value.null ts = refl
  expr-value_tokens f (Value.bool true) ts = refl
  expr-value_tokens f (Value.bool false) ts = refl
  expr-value_tokens f (Value.number n) ts = refl
  expr-value_tokens f (Value.string s) ts = refl
  expr-value_tokens f (Value.array xs) ts = refl
  expr-value_tokens f (Value.object fs) ts = refl

  array_loop-value_tokens :
      (f : ℕ) (v : Value) (ts : List Token)
      → array_loop number_of (suc f) (value_tokens v ts) ≡ item number_of f (value_tokens v ts)
  unfolding expr value_tokens
  array_loop-value_tokens f Value.null ts = refl
  array_loop-value_tokens f (Value.bool true) ts = refl
  array_loop-value_tokens f (Value.bool false) ts = refl
  array_loop-value_tokens f (Value.number n) ts = refl
  array_loop-value_tokens f (Value.string s) ts = refl
  array_loop-value_tokens f (Value.array xs) ts = refl
  array_loop-value_tokens f (Value.object fs) ts = refl

  args-value_tokens :
      (f : ℕ) (v : Value) (ts : List Token)
      → args number_of (suc f) (value_tokens v ts) ≡ args_loop number_of f (value_tokens v ts)
  unfolding expr value_tokens
  args-value_tokens f Value.null ts = refl
  args-value_tokens f (Value.bool true) ts = refl
  args-value_tokens f (Value.bool false) ts = refl
  args-value_tokens f (Value.number n) ts = refl
  args-value_tokens f (Value.string s) ts = refl
  args-value_tokens f (Value.array xs) ts = refl
  args-value_tokens f (Value.object fs) ts = refl

  number_literal-IsNumber :
      (n : Text) (ts : List Token)
      → IsNumber number_of n
      → literal_of n (number_of n) ts ≡ ok (Expr.literal (Value.number n), ts)
  unfolding literal_of
  number_literal-IsNumber [] ts h = absurd h
  number_literal-IsNumber (c ∷ cs) ts (_, _, e) = rw e refl

  -- An expression that `primary` reads in front of what may follow it is read by `expr` too.
  expr-primary :
      (f : ℕ) (v : Value) (ts : List Token)
      → IsClosed ts
      → primary number_of (suc f) (value_tokens v ts) ≡ ok (expr_of v, ts)
      → expr number_of (suc (suc (suc f))) (value_tokens v ts) ≡ ok (expr_of v, ts)
  unfolding expr
  expr-primary f v ts c h =
      expr-value_tokens (suc (suc f)) v ts ∙ rw h (call_loop-IsClosed f (expr_of v) ts c)

  mutual
    unfolding expr value_tokens IsPlain expr_of

    pub expr-value :
        (f : ℕ) (v : Value) (ts : List Token)
        → IsPlain number_of v
        → IsClosed ts
        → 6 * length (value_tokens v ts) + 4 < f
        → expr number_of f (value_tokens v ts) ≡ ok (expr_of v, ts)
    expr-value zero v ts p c h = absurd (omega arith)
    expr-value (suc zero) v ts p c h = absurd (omega arith)
    expr-value (suc (suc zero)) v ts p c h = absurd (omega arith)
    expr-value (suc (suc (suc f))) v ts p c h =
        expr-primary f v ts c (primary-value (suc f) v ts p (omega arith))

    primary-value :
        (f : ℕ) (v : Value) (ts : List Token)
        → IsPlain number_of v
        → 6 * length (value_tokens v ts) + 1 < f
        → primary number_of f (value_tokens v ts) ≡ ok (expr_of v, ts)
    primary-value zero v ts p h = absurd (omega arith)
    primary-value (suc f) Value.null ts p h = refl
    primary-value (suc f) (Value.bool true) ts p h = refl
    primary-value (suc f) (Value.bool false) ts p h = refl
    primary-value (suc f) (Value.number n) ts p h = number_literal-IsNumber n ts p
    primary-value (suc f) (Value.string s) ts p h = refl
    primary-value (suc f) (Value.array xs) ts p h =
        rw (array_loop-items f xs ts p (omega arith)) refl
    primary-value (suc f) (Value.object fs) ts p h =
        rw (object_loop-fields f fs ts p (omega arith)) refl

    array_loop-items :
        (f : ℕ) (xs : Items) (ts : List Token)
        → ArePlain number_of xs
        → 6 * length (items_tokens xs (Token.rbrack ∷ ts)) + 6 < f
        → array_loop number_of f (items_tokens xs (Token.rbrack ∷ ts))
          ≡ ok (exprs_of xs, Token.rbrack ∷ ts)
    array_loop-items zero xs ts p h = absurd (omega arith)
    array_loop-items (suc zero) xs ts p h = absurd (omega arith)
    array_loop-items (suc (suc zero)) xs ts p h = absurd (omega arith)
    array_loop-items (suc (suc (suc f))) Items.nil ts p h = refl
    array_loop-items (suc (suc (suc f))) (Items.cons v Items.nil) ts p h =
        array_loop-value_tokens (suc (suc f)) v (Token.rbrack ∷ ts)
        ∙ rw (expr-value (suc f) v (Token.rbrack ∷ ts) p.0 tt (omega arith)) refl
    array_loop-items (suc (suc (suc f))) (Items.cons v (Items.cons w xs)) ts (p, q) h =
        let later = items_tokens (Items.cons w xs) (Token.rbrack ∷ ts) in
        array_loop-value_tokens (suc (suc f)) v (Token.comma ∷ later)
        ∙ rw (expr-value (suc f) v (Token.comma ∷ later) p tt (omega arith)) (
            rw
              (array_loop-items f (Items.cons w xs) ts q
                (omega (arith, value_tokens-length v (Token.comma ∷ later))))
              refl)

    object_loop-fields :
        (f : ℕ) (fs : Fields) (ts : List Token)
        → FieldsArePlain number_of fs
        → 6 * length (fields_tokens fs (Token.rbrace ∷ ts)) + 4 < f
        → object_loop number_of f (fields_tokens fs (Token.rbrace ∷ ts))
          ≡ ok (props_of fs, Token.rbrace ∷ ts)
    object_loop-fields zero fs ts p h = absurd (omega arith)
    object_loop-fields (suc zero) fs ts p h = absurd (omega arith)
    object_loop-fields (suc (suc zero)) fs ts p h = absurd (omega arith)
    object_loop-fields (suc (suc (suc f))) Fields.end ts p h = refl
    object_loop-fields (suc (suc (suc f))) (Fields.field k v Fields.end) ts (_, _, p, _) h =
        rw (expr-value (suc f) v (Token.rbrace ∷ ts) p tt (omega arith)) refl
    object_loop-fields (suc (suc (suc f))) (Fields.field k v (Fields.field j w fs)) ts (_, _, p, q)
          h =
        let later = fields_tokens (Fields.field j w fs) (Token.rbrace ∷ ts) in
        rw (expr-value (suc f) v (Token.comma ∷ later) p tt (omega arith)) (
          rw
            (object_loop-fields f (Fields.field j w fs) ts q
              (omega (arith, value_tokens-length v (Token.comma ∷ later))))
            refl)

  -- A single argument.
  pub args-value :
      (f : ℕ) (v : Value) (ts : List Token)
      → IsPlain number_of v
      → 6 * length (value_tokens v (Token.rparen ∷ ts)) + 4 < f
      → args number_of (suc (suc f)) (value_tokens v (Token.rparen ∷ ts))
        ≡ ok (Exprs.cons (expr_of v) Exprs.nil, Token.rparen ∷ ts)
  unfolding expr
  args-value zero v ts p h = absurd (omega arith)
  args-value (suc f) v ts p h =
      args-value_tokens (suc (suc f)) v (Token.rparen ∷ ts)
      ∙ rw (expr-value (suc f) v (Token.rparen ∷ ts) p tt h) refl
