-- ===== src/Aegc0/Ast.antt =====
-- The syntax tree of the seed compiler (src/seed/aegc0/ast.h). Spans are left out, since messages
-- alone read them, and so is the type that the checker writes to an expression and nothing reads.
use nullprt.Base.{Bool, List, Bytes, ℕ}

pub data TypeKind : Type 0 where
  i32 u64 void : TypeKind

pub data UnaryOp : Type 0 where
  uop_neg uop_not : UnaryOp

pub data BinaryOp : Type 0 where
  bop_add bop_sub bop_mul bop_div bop_mod : BinaryOp
  bop_eq bop_neq bop_lt bop_lte bop_gt bop_gte bop_and bop_or : BinaryOp

-- `ExprList` is the arguments of a call.
mutual
  pub data Expr : Type 0 where
    int_lit : ℕ → Expr
    var : Bytes → Expr
    call : Bytes → ExprList → Expr
    unary : UnaryOp → Expr → Expr
    binary : BinaryOp → Expr → Expr → Expr

  pub data ExprList : Type 0 where
    no_args : ExprList
    arg : Expr → ExprList → ExprList

-- An `if` has its two bodies and `has_else`.
mutual
  pub data Stmt : Type 0 where
    let_stmt : Bytes → TypeKind → Expr → Stmt
    assign_stmt : Bytes → Expr → Stmt
    if_stmt : Expr → StmtList → StmtList → Bool → Stmt
    while_stmt : Expr → StmtList → Stmt
    ret_stmt : Expr → Stmt
    expr_stmt : Expr → Stmt

  pub data StmtList : Type 0 where
    no_stmts : StmtList
    stmt : Stmt → StmtList → StmtList

pub record Param : Type 0 where
  pub name : Bytes
  pub ty : TypeKind

pub record FnDecl : Type 0 where
  pub name : Bytes
  pub params : List Param
  pub ret : TypeKind
  pub is_extern_c : Bool
  pub body : StmtList

abbrev pub Program : Type 0
Program = List FnDecl
