-- ===== src/Codemode/Ast.antt =====
-- crates/executor-codemode/src/ast.rs: statements and expressions.
use zoen_gateway.Prelude.Text.{Text}
use zoen_gateway.Prelude.Json.{Value}

mutual
  pub data Expr : Type 0 where
    await : Expr → Expr
    call : Expr → Exprs → Expr
    member : Expr → Text → Expr
    index : Expr → Expr → Expr
    ident : Text → Expr
    literal : Value → Expr
    object : Props → Expr
    array : Exprs → Expr

  pub data Exprs : Type 0 where
    nil : Exprs
    cons : Expr → Exprs → Exprs

  pub data Props : Type 0 where
    end : Props
    prop : Text → Expr → Props → Props

pub data Stmt : Type 0 where
  binding : Text → Expr → Stmt
  return : Expr → Stmt
  expr : Expr → Stmt
