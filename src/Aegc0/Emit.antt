-- ===== src/Aegc0/Emit.antt =====
-- The C text that the seed compiler writes (src/seed/aegc0/emit_c.c), as the bytes of the file.
pub mod Brackets
pub mod Balanced
pub mod Decimal
use nullprt.Base.{
  ◌%◌, ◌/◌, ◌+◌, bytes_eq, ◌++◌, replicate, ltb, if◌then◌else◌, codes, List, Bytes, Bool, zero, suc,
  [], ◌∷◌, true, false, none, some, inl, inr, refl, ℕ,
}
use nullprt.Aegc0.Ast.{
  StmtList, Param, ExprList, UnaryOp, TypeKind, Stmt, Program, FnDecl, Expr, BinaryOp, u64, void,
  i32, bop_add, bop_sub, bop_mul, bop_div, bop_mod, bop_eq, bop_neq, bop_lt, bop_lte, bop_gt,
  bop_gte, bop_and, bop_or, int_lit, var, call, unary, binary, let_stmt, assign_stmt, if_stmt,
  while_stmt, ret_stmt, expr_stmt, no_stmts, stmt, uop_neg, uop_not, no_args, arg,
}

unfoldable pub c_type : TypeKind → Bytes
c_type i32 = codes "int32_t"
c_type u64 = codes "uint64_t"
c_type void = codes "void"

-- `%llu`: at most that many digits, the last one at the end.
unfoldable pub digits : ℕ → ℕ → Bytes
digits zero n = []
digits (suc k) n = elim (ltb n 10) [
  | true ↦ (48 + n) ∷ []
  | false ↦ digits k (n / 10) ++ ((48 + n % 10) ∷ [])
]

-- A number of 64 bits has at most 20 digits.
unfoldable pub decimal : ℕ → Bytes
decimal n = digits 20 n

unfoldable pub unary_text : UnaryOp → Bytes
unary_text uop_neg = codes "-"
unary_text uop_not = codes "!"

unfoldable pub binary_text : BinaryOp → Bytes
binary_text bop_add = codes "+"
binary_text bop_sub = codes "-"
binary_text bop_mul = codes "*"
binary_text bop_div = codes "/"
binary_text bop_mod = codes "%"
binary_text bop_eq = codes "=="
binary_text bop_neq = codes "!="
binary_text bop_lt = codes "<"
binary_text bop_lte = codes "<="
binary_text bop_gt = codes ">"
binary_text bop_gte = codes ">="
binary_text bop_and = codes "&&"
binary_text bop_or = codes "||"

-- What stands before the arguments after the first one.
unfoldable mutual
  pub emit_expr : Expr → Bytes
  emit_expr (int_lit n) = decimal n
  emit_expr (var name) = name
  emit_expr (call callee args) = callee ++ (codes "(" ++ (emit_args false args ++ codes ")"))
  emit_expr (unary op rhs) = unary_text op ++ emit_expr rhs
  emit_expr (binary op lhs rhs) =
      codes "("
      ++ (emit_expr lhs
          ++ (codes " " ++ (binary_text op ++ (codes " " ++ (emit_expr rhs ++ codes ")")))))

  -- The arguments of a call, each but the first after a comma.
  pub emit_args : Bool → ExprList → Bytes
  emit_args later no_args = []
  emit_args later (arg e rest) =
      (if later then codes ", " else []) ++ (emit_expr e ++ emit_args true rest)

unfoldable pub ind : ℕ → Bytes
ind n = replicate n 32

unfoldable mutual
  pub emit_stmt : Stmt → ℕ → Bytes
  emit_stmt (let_stmt name ty init) n =
      ind n
      ++ (c_type ty ++ (codes " " ++ (name ++ (codes " = " ++ (emit_expr init ++ codes ";\n")))))
  emit_stmt (assign_stmt name value) n =
      ind n ++ (name ++ (codes " = " ++ (emit_expr value ++ codes ";\n")))
  emit_stmt (ret_stmt value) n = ind n ++ (codes "return " ++ (emit_expr value ++ codes ";\n"))
  emit_stmt (expr_stmt e) n = ind n ++ (emit_expr e ++ codes ";\n")
  emit_stmt (if_stmt cond then_body else_body has_else) n =
      ind n
      ++ (codes "if ("
          ++ (emit_expr cond
              ++ (codes ") {\n"
                  ++ (emit_stmt_list then_body (n + 2)
                      ++ (ind n
                          ++ (codes "}\n"
                              ++ (if has_else
                                  then ind n
                                    ++ (codes "else {\n"
                                        ++ (emit_stmt_list else_body (n + 2)
                                            ++ (ind n ++ codes "}\n")))
                                  else [])))))))
  emit_stmt (while_stmt cond body) n =
      ind n
      ++ (codes "while ("
          ++ (emit_expr cond
              ++ (codes ") {\n" ++ (emit_stmt_list body (n + 2) ++ (ind n ++ codes "}\n")))))

  pub emit_stmt_list : StmtList → ℕ → Bytes
  emit_stmt_list no_stmts n = []
  emit_stmt_list (stmt s rest) n = emit_stmt s n ++ emit_stmt_list rest n

-- The parameters, each but the first after a comma.
unfoldable pub emit_params : Bool → List Param → Bytes
emit_params later [] = []
emit_params later (p ∷ params) =
    (if later then codes ", " else [])
    ++ (c_type p.ty ++ (codes " " ++ (p.name ++ emit_params true params)))

-- `%s %.*s(`, the parameters and `)`
unfoldable pub signature : FnDecl → Bytes
signature f =
    c_type f.ret
    ++ (codes " " ++ (f.name ++ (codes "(" ++ (emit_params false f.params ++ codes ")"))))

-- The turn of the loop over declarations, and that of the loop over definitions.
unfoldable pub emit_extern : FnDecl → Bytes
emit_extern f = if f.is_extern_c then codes "extern " ++ (signature f ++ codes ";\n") else []

unfoldable pub emit_fn : FnDecl → Bytes
emit_fn f =
    if f.is_extern_c
    then []
    else (if bytes_eq f.name (codes "main")
        then c_type f.ret ++ codes " main(void)"
        else signature f)
      ++ (codes " {\n" ++ (emit_stmt_list f.body 2 ++ codes "}\n\n"))

unfoldable pub each : (FnDecl → Bytes) → Program → Bytes
each emit [] = []
each emit (f ∷ fns) = emit f ++ each emit fns

abbrev pub gap : Program → Bytes
gap [] = []
gap (f ∷ fns) = codes "\n"

unfoldable pub emit_c_program : Program → Bytes
emit_c_program prog =
    codes "#include <stdint.h>\n"
    ++ (codes "#include <stdbool.h>\n\n"
        ++ (each emit_extern prog ++ (gap prog ++ each emit_fn prog)))
