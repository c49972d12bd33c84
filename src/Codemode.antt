-- ===== src/Codemode.antt =====
-- crates/executor-codemode: the small language of code mode. Here a text stands for its code points,
-- on which equality and order are those of the bytes.
pub mod Token
pub mod Error
pub mod Ast
pub mod Lex
pub mod Parse
pub mod Host
pub mod Eval
pub mod Run
pub mod Compiled
mod Tests
