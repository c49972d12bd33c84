-- ===== src/Codemode/Lex.antt =====
-- crates/executor-codemode/src/lex.rs: the lexer. The index into the characters is the rest of the
-- text; the main loop takes a round of fuel for each token, blank or comment.
pub mod Ends
use zoen_gateway.Prelude.{
  ℕ, zero, suc, List, Bool, [], ◌∷◌, ◌&&◌, ◌||◌, not, if◌then◌else◌, leb, ◌==◌, length, drop,
  Option, some, none,
}
use zoen_gateway.Prelude.Text.{Text, text_eq, ascii, starts_with}
use zoen_gateway.Prelude.Effect.{Result, ok, err}
use zoen_gateway.Prelude.Chars.{is_digit, is_alphabetic, is_whitespace}
use zoen_gateway.Codemode.Token.{Token}
use zoen_gateway.Codemode.Error.{
  CodeError, out_of_fuel, unexpected_character, unterminated_escape, unterminated_string,
}

unfoldable pub is_ident_start : ℕ → Bool
is_ident_start c = is_alphabetic c || c == b'_' || c == b'$'

unfoldable pub is_ident_cont : ℕ → Bool
unfolding is_ident_start
is_ident_cont c = is_ident_start c || is_digit c

unfoldable pub is_number_cont : ℕ → Bool
is_number_cont c = is_digit c || c == b'.'

-- What a loop that pushes characters reads, and what it leaves.
unfoldable pub take_while : (ℕ → Bool) → Text → Text
take_while p [] = []
take_while p (c ∷ cs) = if p c then c ∷ take_while p cs else []

unfoldable pub drop_while : (ℕ → Bool) → Text → Text
drop_while p [] = []
drop_while p (c ∷ cs) = if p c then drop_while p cs else c ∷ cs

unfoldable pub keyword : Text → Token
unfolding text_eq
keyword s =
    if text_eq s (ascii "let")
    then Token.binding
    else if text_eq s (ascii "const")
    then Token.const
    else if text_eq s (ascii "return")
    then Token.return
    else if text_eq s (ascii "await")
    then Token.await
    else if text_eq s (ascii "true")
    then Token.true
    else if text_eq s (ascii "false")
    then Token.false
    else if text_eq s (ascii "null")
    then Token.null
    else Token.ident s

-- A token and the characters that are left.
abbrev pub Lexed : Type 0
Lexed = Result CodeError (Token × Text)

unfoldable pub ident : ℕ → Text → Lexed
unfolding keyword take_while drop_while
ident c cs = ok (keyword (c ∷ take_while is_ident_cont cs), drop_while is_ident_cont cs)

unfoldable pub number : ℕ → Text → Lexed
unfolding take_while drop_while
number c cs = ok (Token.number (c ∷ take_while is_number_cont cs), drop_while is_number_cont cs)

unfoldable pub unescape : ℕ → ℕ
unescape c = if c == b'n' then 10 else if c == b't' then 9 else if c == b'r' then 13 else c

abbrev pub push_char : ℕ → Result CodeError (Text × Text) → Result CodeError (Text × Text)
push_char c (ok (s, rest)) = ok (c ∷ s, rest)
push_char c (err e) = err e

unfoldable pub string_body : Text → Result CodeError (Text × Text)
unfolding unescape
string_body [] = err unterminated_string
string_body (c ∷ []) =
    if c == b'"'
    then ok ([], [])
    else if c == b'\\'
    then err unterminated_escape
    else err unterminated_string
string_body (c ∷ d ∷ cs) =
    let escaped = push_char (unescape d) (string_body cs) in
    let plain = push_char c (string_body (d ∷ cs)) in
    if c == b'"' then ok ([], d ∷ cs) else if c == b'\\' then escaped else plain

abbrev pub as_string : Result CodeError (Text × Text) → Lexed
as_string (ok (s, rest)) = ok (Token.string s, rest)
as_string (err e) = err e

unfoldable pub string : Text → Lexed
unfolding string_body
string cs = as_string (string_body cs)

-- The first arms of the match of `one`: the tokens of one character.
unfoldable pub punctuation : ℕ → Option Token
punctuation c =
    if c == b'{'
    then some Token.lbrace
    else if c == b'}'
    then some Token.rbrace
    else if c == b'['
    then some Token.lbrack
    else if c == b']'
    then some Token.rbrack
    else if c == b'('
    then some Token.lparen
    else if c == b')'
    then some Token.rparen
    else if c == b'.'
    then some Token.dot
    else if c == b','
    then some Token.comma
    else if c == b':'
    then some Token.colon
    else if c == b';'
    then some Token.semi
    else if c == b'='
    then some Token.eq
    else none

unfoldable pub one_of : Option Token → ℕ → Text → Lexed
unfolding string number ident is_ident_start
one_of (some t) c cs = ok (t, cs)
one_of none c cs =
    if c == b'"'
    then string cs
    else if is_digit c || c == b'-'
    then number c cs
    else if is_ident_start c
    then ident c cs
    else err (unexpected_character c)

unfoldable pub one : ℕ → Text → Lexed
unfolding punctuation one_of
one c = one_of (punctuation c) c

abbrev pub push_token : Token → Result CodeError (List Token) → Result CodeError (List Token)
push_token t (ok ts) = ok (t ∷ ts)
push_token t (err e) = err e

-- The rest of the loop after a token.
abbrev pub after_token :
    (Text → Result CodeError (List Token)) → Lexed → Result CodeError (List Token)
after_token more (ok (t, rest)) = push_token t (more rest)
after_token more (err e) = err e

abbrev pub skip_line : Text → Text
skip_line cs = drop_while (λ c. not (c == 10)) (drop 1 cs)

unfoldable pub tokenize_from : ℕ → Text → Result CodeError (List Token)
unfolding is_whitespace drop_while one
tokenize_from zero cs = err out_of_fuel
tokenize_from (suc fuel) [] = ok (Token.eof ∷ [])
tokenize_from (suc fuel) (c ∷ cs) =
    let blank = tokenize_from fuel cs in
    let comment = tokenize_from fuel (skip_line cs) in
    let token = after_token (tokenize_from fuel) (one c cs) in
    if is_whitespace c
    then blank
    else if c == b'/' && starts_with (ascii "/") cs
    then comment
    else token

unfoldable pub tokenize : Text → Result CodeError (List Token)
unfolding tokenize_from
tokenize cs = tokenize_from (suc (length cs)) cs
