-- ===== src/Aegc0/Sema/Typing.antt =====
-- The typing rules of the seed language, as src/seed/aegc0/sema.c applies them, and what the check
-- of a program means by them.
pub mod Sound
pub mod Bodies
pub mod Scope
use nullprt.Base.{
  zero, suc, [], ◌∷◌, true, false, none, some, inl, inr, refl, ◌++◌, map, ◌≡◌, Bytes, ℕ,
}
use nullprt.Aegc0.Ast.{
  Param, BinaryOp, UnaryOp, StmtList, ExprList, Stmt, Expr, TypeKind, Program, FnDecl, u64, void,
  i32, bop_add, bop_sub, bop_mul, bop_div, bop_mod, bop_eq, bop_neq, bop_lt, bop_lte, bop_gt,
  bop_gte, bop_and, bop_or, int_lit, var, call, unary, binary, let_stmt, assign_stmt, if_stmt,
  while_stmt, ret_stmt, expr_stmt, no_stmts, stmt, uop_neg, uop_not, no_args, arg,
}
use nullprt.Aegc0.Sema.{is_test, vadd, add_params, Var, VarTable}

-- The first variable of that name has that kind.
pub data Bound (n : Bytes) (t : TypeKind) : VarTable → Type 0 where
  here : {v : Var} {vt : VarTable} → (v.name ≡ n) → (v.ty ≡ t) → Bound n t (v ∷ vt)
  there : {v : Var} {vt : VarTable} → ¬ (v.name ≡ n) → Bound n t vt → Bound n t (v ∷ vt)

-- The comparisons and the connectives.
pub data IsTest : BinaryOp → Type 0 where
  test_eq : IsTest bop_eq
  test_neq : IsTest bop_neq
  test_lt : IsTest bop_lt
  test_lte : IsTest bop_lte
  test_gt : IsTest bop_gt
  test_gte : IsTest bop_gte
  test_and : IsTest bop_and
  test_or : IsTest bop_or

-- The arithmetic.
pub data IsArith : BinaryOp → Type 0 where
  arith_add : IsArith bop_add
  arith_sub : IsArith bop_sub
  arith_mul : IsArith bop_mul
  arith_div : IsArith bop_div
  arith_mod : IsArith bop_mod

-- A comparison or a connective takes operands of any kinds; arithmetic wants the same kind twice.
-- A call is an `i32`, whatever its arguments are.
pub data HasKind (vt : VarTable) : Expr → TypeKind → Type 0 where
  of_int : {n : ℕ} → HasKind vt (int_lit n) i32
  of_var : {n : Bytes} {t : TypeKind} → Bound n t vt → HasKind vt (var n) t
  of_call : {n : Bytes} {args : ExprList} → HasKind vt (call n args) i32
  of_unary : {op : UnaryOp} {e : Expr} {t : TypeKind} → HasKind vt e t → HasKind vt (unary op e) t
  of_test :
      {op : BinaryOp} {l r : Expr} {t u : TypeKind}
      → IsTest op
      → HasKind vt l t
      → HasKind vt r u
      → HasKind vt (binary op l r) i32
  of_arith :
      {op : BinaryOp} {l r : Expr} {t : TypeKind}
      → IsArith op
      → HasKind vt l t
      → HasKind vt r t
      → HasKind vt (binary op l r) t

mutual
  -- A statement is right in a table and leaves another: a `let` puts its variable behind the
  -- others.
  pub data Checked (ret : TypeKind) : VarTable → Stmt → VarTable → Type 0 where
    let_right :
        {vt : VarTable} {n : Bytes} {t : TypeKind} {e : Expr}
        → HasKind vt e t
        → Checked ret vt (let_stmt n t e) (vt ++ (record { name = n; ty = t } ∷ []))
    assign_right :
        {vt : VarTable} {n : Bytes} {t : TypeKind} {e : Expr}
        → Bound n t vt
        → HasKind vt e t
        → Checked ret vt (assign_stmt n e) vt
    if_right :
        {vt wt : VarTable} {e : Expr} {t : TypeKind} {body other : StmtList}
        → HasKind vt e t
        → CheckedAll ret vt body wt
        → Checked ret vt (if_stmt e body other false) wt
    if_else_right :
        {vt wt xt : VarTable} {e : Expr} {t : TypeKind} {body other : StmtList}
        → HasKind vt e t
        → CheckedAll ret vt body wt
        → CheckedAll ret wt other xt
        → Checked ret vt (if_stmt e body other true) xt
    while_right :
        {vt wt : VarTable} {e : Expr} {t : TypeKind} {body : StmtList}
        → HasKind vt e t
        → CheckedAll ret vt body wt
        → Checked ret vt (while_stmt e body) wt
    return_right : {vt : VarTable} {e : Expr} → HasKind vt e ret → Checked ret vt (ret_stmt e) vt
    expr_right :
        {vt : VarTable} {e : Expr} {t : TypeKind} → HasKind vt e t → Checked ret vt (expr_stmt e) vt

  pub data CheckedAll (ret : TypeKind) : VarTable → StmtList → VarTable → Type 0 where
    none_left : {vt : VarTable} → CheckedAll ret vt no_stmts vt
    one_right :
        {vt wt xt : VarTable} {st : Stmt} {rest : StmtList}
        → Checked ret vt st wt
        → CheckedAll ret wt rest xt
        → CheckedAll ret vt (stmt st rest) xt

abbrev param_var : Param → Var
param_var p = record { name = p.name; ty = p.ty }

-- The body of a function, with its parameters in scope.
abbrev pub CheckedFn : FnDecl → Type 0
CheckedFn f =
    f.is_extern_c ≡ false → (wt : VarTable) × CheckedAll f.ret (map param_var f.params) f.body wt

pub data CheckedFns : Program → Type 0 where
  no_bodies : CheckedFns []
  one_body : {f : FnDecl} {fns : Program} → CheckedFn f → CheckedFns fns → CheckedFns (f ∷ fns)
