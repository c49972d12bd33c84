-- ===== src/Codemode/Token.antt =====
-- crates/executor-codemode/src/lex.rs: the tokens.
use zoen_gateway.Prelude.Text.{Text}

pub data Token : Type 0 where
  ident : Text → Token
  string : Text → Token
  number : Text → Token
  true false null : Token
  binding const return await : Token
  lbrace rbrace lbrack rbrack lparen rparen : Token
  dot comma colon semi eq eof : Token
