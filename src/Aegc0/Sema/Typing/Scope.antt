-- ===== src/Aegc0/Sema/Typing/Scope.antt =====
-- Which variables the checks of src/seed/aegc0/sema.c have in scope.
use nullprt.Base.{append_assoc, ap, ◌∙◌, append_nil, sym, [], ◌∷◌, true, false, refl, ◌≡◌, ◌++◌}
use nullprt.Aegc0.Sema.{check_stmt, vadd, check_stmt_list, Sema, VarTable}
use nullprt.Aegc0.Ast.{
  StmtList, TypeKind, Stmt, let_stmt, assign_stmt, if_stmt, while_stmt, ret_stmt, expr_stmt,
  no_stmts, stmt,
}

mutual
  -- The variables of all `let`s of a statement, those of nested blocks too, from left to right.
  pub declared : Stmt → VarTable
  declared (let_stmt n t e) = record { name = n; ty = t } ∷ []
  declared (assign_stmt n e) = []
  declared (if_stmt e body other true) = all_declared body ++ all_declared other
  declared (if_stmt e body other false) = all_declared body
  declared (while_stmt e body) = all_declared body
  declared (ret_stmt e) = []
  declared (expr_stmt e) = []

  pub all_declared : StmtList → VarTable
  all_declared no_stmts = []
  all_declared (stmt st rest) = declared st ++ all_declared rest

mutual
  unfolding check_stmt declared vadd

  stmt-declared :
      (ret : TypeKind) (vt : VarTable) (st : Stmt) (s : Sema)
      → (check_stmt ret vt st s).0 ≡ vt ++ declared st
  stmt-declared ret vt (let_stmt n t e) s = refl
  stmt-declared ret vt (assign_stmt n e) s = sym (append_nil vt)
  stmt-declared ret vt (if_stmt e body other true) s =
      list-declared ret _ other _
      ∙ ap (λ l. l ++ all_declared other) (list-declared ret vt body _)
      ∙ append_assoc vt (all_declared body) (all_declared other)
  stmt-declared ret vt (if_stmt e body other false) s = list-declared ret vt body _
  stmt-declared ret vt (while_stmt e body) s = list-declared ret vt body _
  stmt-declared ret vt (ret_stmt e) s = sym (append_nil vt)
  stmt-declared ret vt (expr_stmt e) s = sym (append_nil vt)

  list-declared :
      (ret : TypeKind) (vt : VarTable) (list : StmtList) (s : Sema)
      → (check_stmt_list ret vt list s).0 ≡ vt ++ all_declared list
  list-declared ret vt no_stmts s = sym (append_nil vt)
  list-declared ret vt (stmt st rest) s =
      list-declared ret _ rest _
      ∙ ap (λ l. l ++ all_declared rest) (stmt-declared ret vt st s)
      ∙ append_assoc vt (declared st) (all_declared rest)

-- After the check of a block the table holds what it held before and, behind that, every variable
-- that a `let` of the block or of a block inside it declares, in the order of the text. So a
-- variable stays in scope after the block that declares it.
pub check_stmt_list-all_declared :
    (ret : TypeKind) (vt : VarTable) (list : StmtList) (s : Sema)
    → (check_stmt_list ret vt list s).0 ≡ vt ++ all_declared list
check_stmt_list-all_declared = list-declared
