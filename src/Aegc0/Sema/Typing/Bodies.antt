-- ===== src/Aegc0/Sema/Typing/Bodies.antt =====
-- The checks of statements, functions and programs in src/seed/aegc0/sema.c against the typing
-- rules.
use nullprt.Aegc0.Sema.{
  add_params, check_fns, check_stmt, kind_or, require, sema_check_program, vadd, check_stmt_list,
  vget, type_of_expr, same_kind, check_fn, sema_init, Sema, VarTable,
}
use nullprt.Base.{
  [], ◌∷◌, true, false, refl, append_assoc, append_nil, map, ◌++◌, List, test_cases, ◌∙◌, arith, ap,
  ◌↔◌, ◌≡◌,
}
use mathlib.Core.Path.{sym, subst}
use nullprt.Aegc0.Sema.Typing.{
  CheckedAll, HasKind, CheckedFns, CheckedFn, Checked, let_right, assign_right, if_right,
  if_else_right, while_right, return_right, expr_right, none_left, one_right, no_bodies, one_body,
}
use nullprt.Aegc0.Ast.{
  Param, StmtList, Stmt, Expr, TypeKind, Program, FnDecl, let_stmt, assign_stmt, if_stmt,
  while_stmt, ret_stmt, expr_stmt, no_stmts, stmt,
}
use nullprt.Aegc0.Sema.Typing.Sound.{
  same_kind-eq, vget-Bound, type_of_expr-Right, require-ok, same_kind_refl, kind_or-Right,
  HasKind-run,
}

mutual
  unfolding check_stmt kind_or require vadd

  Checked-run :
      {ret : TypeKind} {vt wt : VarTable} {st : Stmt}
      → Checked ret vt st wt
      → (s : Sema) → check_stmt ret vt st s ≡ (wt, s)
  Checked-run (let_right {t} h) s = rw (HasKind-run h s, same_kind_refl t) refl
  Checked-run (assign_right {t} b h) s =
      rw (vget-Bound _ _ _ b, HasKind-run h s, same_kind_refl t) refl
  Checked-run {ret} {vt} (if_right {body} h b) s =
      ap (λ r. check_stmt_list ret vt body r.1) (HasKind-run h s) ∙ CheckedAll-run b s
  Checked-run {ret} {vt} (if_else_right {body} {other} h b c) s =
      ap (λ r. let a = check_stmt_list ret vt body r.1 in check_stmt_list ret a.0 other a.1)
        (HasKind-run h s)
      ∙ ap (λ a. check_stmt_list ret a.0 other a.1) (CheckedAll-run b s)
      ∙ CheckedAll-run c s
  Checked-run (while_right h b) s = rw (HasKind-run h s) (CheckedAll-run b s)
  Checked-run {ret} (return_right h) s = rw (HasKind-run h s, same_kind_refl ret) refl
  Checked-run (expr_right h) s = rw (HasKind-run h s) refl

  CheckedAll-run :
      {ret : TypeKind} {vt wt : VarTable} {list : StmtList}
      → CheckedAll ret vt list wt
      → (s : Sema) → check_stmt_list ret vt list s ≡ (wt, s)
  CheckedAll-run none_left s = refl
  CheckedAll-run (one_right h b) s = rw (Checked-run h s) (CheckedAll-run b s)

-- The kinds of both sides, where the error flag is still clear.
same-HasKind :
    (vt : VarTable) (e : Expr) (s : Sema) (t : TypeKind)
    → (require (same_kind (type_of_expr vt e s).0 t) (type_of_expr vt e s).1).had_error ≡ false
    → HasKind vt e t × (s.had_error ≡ false)
same-HasKind vt e s t h =
    let ok = require-ok _ _ h in
    let x = type_of_expr-Right vt e s ok.1 in
    (subst (λ u. HasKind vt e u) (same_kind-eq _ _ ok.0) x.0, x.1)

mutual
  unfolding check_stmt vadd

  Checked-sound :
      (ret : TypeKind) (vt : VarTable) (st : Stmt) (s : Sema)
      → (check_stmt ret vt st s).1.had_error ≡ false
      → Checked ret vt st (check_stmt ret vt st s).0 × (s.had_error ≡ false)
  Checked-sound ret vt (let_stmt n t e) s h =
      let x = same-HasKind vt e s t h in (let_right x.0, x.1)
  Checked-sound ret vt (assign_stmt n e) s h =
      let x = same-HasKind vt e (kind_or (vget vt n) s).1 _ h in
      let v = kind_or-Right vt n _ s refl x.1 in (assign_right v.0 x.0, v.1)
  Checked-sound ret vt (if_stmt e body other true) s h =
      let y = CheckedAll-sound ret _ other _ h in
      let b = CheckedAll-sound ret vt body _ y.1 in
      let x = type_of_expr-Right vt e s b.1 in (if_else_right x.0 b.0 y.0, x.1)
  Checked-sound ret vt (if_stmt e body other false) s h =
      let b = CheckedAll-sound ret vt body _ h in
      let x = type_of_expr-Right vt e s b.1 in (if_right x.0 b.0, x.1)
  Checked-sound ret vt (while_stmt e body) s h =
      let b = CheckedAll-sound ret vt body _ h in
      let x = type_of_expr-Right vt e s b.1 in (while_right x.0 b.0, x.1)
  Checked-sound ret vt (ret_stmt e) s h =
      let x = same-HasKind vt e s ret h in (return_right x.0, x.1)
  Checked-sound ret vt (expr_stmt e) s h =
      let x = type_of_expr-Right vt e s h in (expr_right x.0, x.1)

  CheckedAll-sound :
      (ret : TypeKind) (vt : VarTable) (list : StmtList) (s : Sema)
      → (check_stmt_list ret vt list s).1.had_error ≡ false
      → CheckedAll ret vt list (check_stmt_list ret vt list s).0 × (s.had_error ≡ false)
  CheckedAll-sound ret vt no_stmts s h = (none_left, h)
  CheckedAll-sound ret vt (stmt st rest) s h =
      let y = CheckedAll-sound ret _ rest _ h in
      let x = Checked-sound ret vt st s y.1 in (one_right x.0 y.0, x.1)

-- The parameters stand in the table in their order.
add_params-map :
    (vt : VarTable) (params : List Param)
    → add_params vt params ≡ vt ++ map (λ p. record { name = p.name; ty = p.ty }) params
unfolding add_params vadd
add_params-map vt [] = sym (append_nil vt)
add_params-map vt (p ∷ params) = add_params-map _ params ∙ append_assoc vt _ _

CheckedFn-run : (f : FnDecl) (s : Sema) → CheckedFn f → check_fn f s ≡ s
CheckedFn-run f s h =
    test_cases (λ r. r ≡ s) f.is_extern_c _ _ (λ e. refl)
      (λ e.
        ap (λ vt. (check_stmt_list f.ret vt f.body s).1) (add_params-map [] f.params)
        ∙ ap (λ r. r.1) (CheckedAll-run (h e).1 s))

CheckedFn-sound :
    (f : FnDecl) (s : Sema) → (check_fn f s).had_error ≡ false → CheckedFn f × (s.had_error ≡ false)
CheckedFn-sound f s =
    test_cases {A = Sema} (λ r. r.had_error ≡ false → CheckedFn f × (s.had_error ≡ false))
      f.is_extern_c _ _ (λ e h. (λ e1. ground (arith, e, e1), h))
      (λ e h.
        let x = CheckedAll-sound f.ret (add_params [] f.params) f.body s h in
        let after = (check_stmt_list f.ret (add_params [] f.params) f.body s).0 in
        let body =
          subst (λ vt. CheckedAll f.ret vt f.body after) (add_params-map [] f.params) x.0 in
        (λ e1. (after, body), x.1))

fns_sound :
    (fns : Program) (s : Sema)
    → (check_fns fns s).had_error ≡ false
    → CheckedFns fns × (s.had_error ≡ false)
unfolding check_fns
fns_sound [] s h = (no_bodies, h)
fns_sound (f ∷ fns) s h =
    let y = fns_sound fns _ h in let x = CheckedFn-sound f s y.1 in (one_body x.0 y.0, x.1)

CheckedFns-run : {fns : Program} (s : Sema) → CheckedFns fns → check_fns fns s ≡ s
unfolding check_fns
CheckedFns-run s no_bodies = refl
CheckedFns-run s (one_body {f} h i) = rw (CheckedFn-run f s h) (CheckedFns-run s i)

-- The seed compiler accepts a program just if every function with a body is right by the rules,
-- with all its parameters in scope: the expressions have kinds, and those of initial values,
-- assigned values and returned values are the kinds asked for. The rules give every call the kind
-- i32 and ask nothing of its arguments.
pub sema_check_program_iff :
    (prog : Program) → ((sema_check_program sema_init prog).0 ≡ true) ↔ CheckedFns prog
unfolding sema_check_program
sema_check_program_iff prog =
    (λ h. (fns_sound prog sema_init (ground arith)).0, λ h. rw (CheckedFns-run sema_init h) refl)
