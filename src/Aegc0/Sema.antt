-- ===== src/Aegc0/Sema.antt =====
-- The checks of the seed compiler (src/seed/aegc0/sema.c): a table of variables for each function,
-- and the kinds of the expressions. Messages are left out, and the kind that is noted in a node,
-- which nothing reads.
pub mod Typing
use nullprt.Aegc0.Ast.{
  StmtList, Stmt, Param, TypeKind, Program, FnDecl, Expr, BinaryOp, u64, void, i32, bop_add,
  bop_sub, bop_mul, bop_div, bop_mod, bop_eq, bop_neq, bop_lt, bop_lte, bop_gt, bop_gte, bop_and,
  bop_or, int_lit, var, call, unary, binary, let_stmt, assign_stmt, if_stmt, while_stmt, ret_stmt,
  expr_stmt, no_stmts, stmt, uop_neg, uop_not, no_args, arg,
}
use nullprt.Base.{
  ◌++◌, not, bytes_eq, Option, List, Bytes, Bool, zero, suc, [], ◌∷◌, true, false, none, some, inl,
  inr, refl, ℕ,
}

pub record Var : Type 0 where
  pub name : Bytes
  pub ty : TypeKind

abbrev pub VarTable : Type 0
VarTable = List Var

pub record Sema : Type 0 where
  pub had_error : Bool

abbrev pub sema_init : Sema
sema_init = record { had_error = false }

unfoldable pub vadd : VarTable → Bytes → TypeKind → VarTable
vadd vt name ty = vt ++ (record { name = name; ty = ty } ∷ [])

unfoldable pub vget : VarTable → Bytes → Option TypeKind
vget [] name = none
vget (v ∷ vt) name = elim (bytes_eq v.name name) [ true ↦ some v.ty | false ↦ vget vt name ]

unfoldable pub same_kind : TypeKind → TypeKind → Bool
same_kind i32 i32 = true
same_kind u64 u64 = true
same_kind void void = true
same_kind _ _ = false

-- `if (!test) s->had_error = true`
unfoldable pub require : Bool → Sema → Sema
require true s = s
require false s = record { had_error = true }

-- The kind of a variable, `i32` where there is none.
unfoldable pub kind_or : Option TypeKind → Sema → TypeKind × Sema
unfolding require
kind_or (some t) s = (t, s)
kind_or none s = (i32, require false s)

unfoldable pub is_test : BinaryOp → Bool
is_test bop_eq = true
is_test bop_neq = true
is_test bop_lt = true
is_test bop_lte = true
is_test bop_gt = true
is_test bop_gte = true
is_test bop_and = true
is_test bop_or = true
is_test _ = false

-- The kinds of both operands, compared for arithmetic alone.
abbrev pub kind_of_binary : BinaryOp → TypeKind → TypeKind × Sema → TypeKind × Sema
kind_of_binary op l (r, s) = elim (is_test op) [
  | true ↦ (i32, s)
  | false ↦ (l, require (same_kind l r) s)
]

-- The arguments of a call are not looked at.
unfoldable pub type_of_expr : VarTable → Expr → Sema → TypeKind × Sema
type_of_expr vt (int_lit n) s = (i32, s)
type_of_expr vt (var name) s = kind_or (vget vt name) s
type_of_expr vt (call name args) s = (i32, s)
type_of_expr vt (unary op rhs) s = type_of_expr vt rhs s
type_of_expr vt (binary op lhs rhs) s =
    let l = type_of_expr vt lhs s in kind_of_binary op l.0 (type_of_expr vt rhs l.1)

unfoldable mutual
  -- A table is handed on from statement to statement, into a block and out of it again.
  pub check_stmt : TypeKind → VarTable → Stmt → Sema → VarTable × Sema
  check_stmt ret vt (let_stmt name ty init) s =
      let t = type_of_expr vt init s in (vadd vt name ty, require (same_kind t.0 ty) t.1)
  check_stmt ret vt (assign_stmt name value) s =
      let v = kind_or (vget vt name) s in
      let t = type_of_expr vt value v.1 in (vt, require (same_kind t.0 v.0) t.1)
  check_stmt ret vt (if_stmt cond then_body else_body has_else) s =
      let a = check_stmt_list ret vt then_body (type_of_expr vt cond s).1 in
      let b = check_stmt_list ret a.0 else_body a.1 in elim has_else [ true ↦ b | false ↦ a ]
  check_stmt ret vt (while_stmt cond body) s =
      check_stmt_list ret vt body (type_of_expr vt cond s).1
  check_stmt ret vt (ret_stmt value) s =
      let t = type_of_expr vt value s in (vt, require (same_kind t.0 ret) t.1)
  check_stmt ret vt (expr_stmt e) s = (vt, (type_of_expr vt e s).1)

  pub check_stmt_list : TypeKind → VarTable → StmtList → Sema → VarTable × Sema
  check_stmt_list ret vt no_stmts s = (vt, s)
  check_stmt_list ret vt (stmt st rest) s =
      let a = check_stmt ret vt st s in check_stmt_list ret a.0 rest a.1

unfoldable pub add_params : VarTable → List Param → VarTable
add_params vt [] = vt
add_params vt (p ∷ params) = add_params (vadd vt p.name p.ty) params

abbrev pub check_fn : FnDecl → Sema → Sema
check_fn f s = elim f.is_extern_c [
  | true ↦ s
  | false ↦ (check_stmt_list f.ret (add_params [] f.params) f.body s).1
]

-- The loop over the functions.
unfoldable pub check_fns : Program → Sema → Sema
check_fns [] s = s
check_fns (f ∷ fns) s = check_fns fns (check_fn f s)

unfoldable pub sema_check_program : Sema → Program → Bool × Sema
sema_check_program s prog = let t = check_fns prog s in (not t.had_error, t)
