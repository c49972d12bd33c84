-- ===== src/Codemode/Compiled.antt =====
-- A JSON value as a source text of the small language: its compact text, the tokens and the
-- expression that it reads as, and how many expressions that is.
mod Lexes
mod Reads
mod Evaluates
pub mod Invokes
use zoen_gateway.Prelude.{
  ℕ, zero, suc, ◌+◌, ◌-◌, ◌*◌, ◌/◌, ◌%◌, ◌^◌, ◌≤◌, ◌<◌, String, ◌≡◌, refl, sym, ap, ◌∙◌, subst, ◌≢◌,
  ◌↔◌, ◌⊎◌, inl, inr, Bool, true, false, not, ◌&&◌, ◌||◌, Option, none, some, List, [], ◌∷◌, ◌++◌,
  map, arith, ltb, leb, ◌==◌, if◌then◌else◌, ==_iff, Bool-cases, Option-cases, is_some, unwrap_or,
  and_then, or_else, length, get_elem?, take, drop, any, all, find_first, select, length-append,
  All, In, In-append,
}
use zoen_gateway.Prelude.Text.{
  Text, text_eq, text_eq_iff, text_eq_refl, ascii, text_lt, starts_with, has_byte, contains, split,
  strip_prefix,
}
use zoen_gateway.Prelude.Effect.{Result, ok, err, Result-cases}
use zoen_gateway.Prelude.Json.{Value, Items, Fields}
use zoen_gateway.Codemode.Token.{Token}
use zoen_gateway.Codemode.Ast.{Expr, Exprs, Props}
use zoen_gateway.Prelude.Chars.{is_digit, is_alphabetic, is_whitespace}
use zoen_gateway.Codemode.Lex.{is_number_cont}

-- A character of a string in JSON, as it is escaped.
unfoldable pub escape : ℕ → Text → Text
escape c rest =
    if c == b'"'
    then b'\\' ∷ b'"' ∷ rest
    else if c == b'\\'
    then b'\\' ∷ b'\\' ∷ rest
    else if c == 10
    then b'\\' ∷ b'n' ∷ rest
    else if c == 13
    then b'\\' ∷ b'r' ∷ rest
    else if c == 9
    then b'\\' ∷ b't' ∷ rest
    else c ∷ rest

unfoldable pub escaped : Text → Text → Text
unfolding escape
escaped [] rest = rest
escaped (c ∷ cs) rest = escape c (escaped cs rest)

-- A string in quotes, in front of `rest`.
unfoldable pub quote : Text → Text → Text
unfolding escaped
quote s rest = b'"' ∷ escaped s (b'"' ∷ rest)

-- The compact JSON of a value, in front of `rest`.
unfoldable mutual
  unfolding quote

  pub compact : Value → Text → Text
  compact Value.null rest = ascii "null" ++ rest
  compact (Value.bool true) rest = ascii "true" ++ rest
  compact (Value.bool false) rest = ascii "false" ++ rest
  compact (Value.number n) rest = n ++ rest
  compact (Value.string s) rest = quote s rest
  compact (Value.array xs) rest = b'[' ∷ compact_items xs (b']' ∷ rest)
  compact (Value.object fs) rest = b'{' ∷ compact_fields fs (b'}' ∷ rest)

  pub compact_items : Items → Text → Text
  compact_items Items.nil rest = rest
  compact_items (Items.cons v Items.nil) rest = compact v rest
  compact_items (Items.cons v (Items.cons w xs)) rest =
      compact v (b',' ∷ compact_items (Items.cons w xs) rest)

  pub compact_fields : Fields → Text → Text
  compact_fields Fields.end rest = rest
  compact_fields (Fields.field k v Fields.end) rest = quote k (b':' ∷ compact v rest)
  compact_fields (Fields.field k v (Fields.field j w fs)) rest =
      quote k (b':' ∷ compact v (b',' ∷ compact_fields (Fields.field j w fs) rest))

unfoldable mutual
  pub value_tokens : Value → List Token → List Token
  value_tokens Value.null rest = Token.null ∷ rest
  value_tokens (Value.bool true) rest = Token.true ∷ rest
  value_tokens (Value.bool false) rest = Token.false ∷ rest
  value_tokens (Value.number n) rest = Token.number n ∷ rest
  value_tokens (Value.string s) rest = Token.string s ∷ rest
  value_tokens (Value.array xs) rest = Token.lbrack ∷ items_tokens xs (Token.rbrack ∷ rest)
  value_tokens (Value.object fs) rest = Token.lbrace ∷ fields_tokens fs (Token.rbrace ∷ rest)

  pub items_tokens : Items → List Token → List Token
  items_tokens Items.nil rest = rest
  items_tokens (Items.cons v Items.nil) rest = value_tokens v rest
  items_tokens (Items.cons v (Items.cons w xs)) rest =
      value_tokens v (Token.comma ∷ items_tokens (Items.cons w xs) rest)

  pub fields_tokens : Fields → List Token → List Token
  fields_tokens Fields.end rest = rest
  fields_tokens (Fields.field k v Fields.end) rest =
      Token.string k ∷ Token.colon ∷ value_tokens v rest
  fields_tokens (Fields.field k v (Fields.field j w fs)) rest =
      Token.string k
      ∷ Token.colon
      ∷ value_tokens v (Token.comma ∷ fields_tokens (Fields.field j w fs) rest)

unfoldable mutual
  pub expr_of : Value → Expr
  expr_of (Value.array xs) = Expr.array (exprs_of xs)
  expr_of (Value.object fs) = Expr.object (props_of fs)
  expr_of v = Expr.literal v

  pub exprs_of : Items → Exprs
  exprs_of Items.nil = Exprs.nil
  exprs_of (Items.cons v xs) = Exprs.cons (expr_of v) (exprs_of xs)

  pub props_of : Fields → Props
  props_of Fields.end = Props.end
  props_of (Fields.field k v fs) = Props.prop k (expr_of v) (props_of fs)

-- How many expressions stand in the literal of a value.
unfoldable mutual
  pub size : Value → ℕ
  size (Value.array xs) = suc (items_size xs)
  size (Value.object fs) = suc (fields_size fs)
  size v = 1

  pub items_size : Items → ℕ
  items_size Items.nil = 0
  items_size (Items.cons v xs) = size v + items_size xs

  pub fields_size : Fields → ℕ
  fields_size Fields.end = 0
  fields_size (Fields.field k v fs) = size v + fields_size fs

-- A string has no control character but tab, line feed and carriage return.
abbrev pub is_plain_char : ℕ → Bool
is_plain_char c = leb 32 c || c == 9 || c == 10 || c == 13

-- A number's literal starts with a digit or a minus, goes on with digits and points, and reads as
-- the number that it is.
abbrev pub IsNumber : (Text → Option Text) → Text → Type 0
IsNumber number_of [] = ⊥
IsNumber number_of (c ∷ cs) =
    (is_digit c || c == b'-' ≡ true)
    × (all is_number_cont cs ≡ true)
    × (number_of (c ∷ cs) ≡ some (c ∷ cs))

-- The field names of an object ascend.
abbrev pub all_above : Text → Fields → Bool
all_above k Fields.end = true
all_above k (Fields.field j v fs) = text_lt k j && all_above k fs

unfoldable mutual
  pub IsPlain : (Text → Option Text) → Value → Type 0
  IsPlain number_of (Value.number n) = IsNumber number_of n
  IsPlain number_of (Value.string s) = all is_plain_char s ≡ true
  IsPlain number_of (Value.array xs) = ArePlain number_of xs
  IsPlain number_of (Value.object fs) = FieldsArePlain number_of fs
  IsPlain number_of _ = Unit

  pub ArePlain : (Text → Option Text) → Items → Type 0
  ArePlain number_of Items.nil = Unit
  ArePlain number_of (Items.cons v xs) = IsPlain number_of v × ArePlain number_of xs

  pub FieldsArePlain : (Text → Option Text) → Fields → Type 0
  FieldsArePlain number_of Fields.end = Unit
  FieldsArePlain number_of (Fields.field k v fs) =
      (all is_plain_char k ≡ true)
      × (all_above k fs ≡ true)
      × IsPlain number_of v
      × FieldsArePlain number_of fs
