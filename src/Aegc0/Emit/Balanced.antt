-- ===== src/Aegc0/Emit/Balanced.antt =====
-- The C text of src/seed/aegc0/emit_c.c is well bracketed.
use nullprt.Base.{
  test_cases, zero, suc, [], ◌∷◌, true, false, some, refl, ◌∙◌, append_nil, sym, ap, bytes_eq, ◌/◌,
  All-append, arith, ◌+◌, ltb→lt, ◌≡◌, ltb, if◌then◌else◌, All, codes, List, Bytes, Bool, ℕ,
}
use nullprt.Aegc0.Emit.{
  binary_text, c_type, decimal, digits, each, emit_c_program, emit_expr, emit_extern, emit_fn,
  emit_params, emit_stmt, ind, signature, unary_text, emit_stmt_list, emit_args, gap,
}
use nullprt.Aegc0.Emit.Brackets.{
  brackets, close_paren, open_paren, inside, ◌▸◌, plain, nothing, Plain, Moves,
}
use nullprt.Aegc0.Ast.{
  Param, StmtList, ExprList, UnaryOp, TypeKind, Stmt, Program, FnDecl, Expr, BinaryOp, u64, void,
  i32, bop_add, int_lit, var, call, unary, binary, let_stmt, assign_stmt, if_stmt, while_stmt,
  ret_stmt, expr_stmt, no_stmts, stmt, uop_neg, uop_not, no_args, arg,
}

-- The names of a program have no brackets in them.
unfoldable mutual
  pub PlainExpr : Expr → Type 0
  PlainExpr (int_lit n) = Unit
  PlainExpr (var name) = Plain name
  PlainExpr (call name args) = Plain name × PlainArgs args
  PlainExpr (unary op e) = PlainExpr e
  PlainExpr (binary op l r) = PlainExpr l × PlainExpr r

  pub PlainArgs : ExprList → Type 0
  PlainArgs no_args = Unit
  PlainArgs (arg e rest) = PlainExpr e × PlainArgs rest

unfoldable mutual
  pub PlainStmt : Stmt → Type 0
  PlainStmt (let_stmt name ty e) = Plain name × PlainExpr e
  PlainStmt (assign_stmt name e) = Plain name × PlainExpr e
  PlainStmt (if_stmt e body other else_too) = PlainExpr e × PlainStmts body × PlainStmts other
  PlainStmt (while_stmt e body) = PlainExpr e × PlainStmts body
  PlainStmt (ret_stmt e) = PlainExpr e
  PlainStmt (expr_stmt e) = PlainExpr e

  pub PlainStmts : StmtList → Type 0
  PlainStmts no_stmts = Unit
  PlainStmts (stmt s rest) = PlainStmt s × PlainStmts rest

abbrev pub PlainFn : FnDecl → Type 0
PlainFn f = Plain f.name × All (λ p. Plain p.name) f.params × PlainStmts f.body

open_block : Moves (40 ∷ []) (123 ∷ []) (codes ") {\n")
unfolding brackets
open_block = record { moves = λ st rest. refl }

close_block : Moves (123 ∷ []) [] (codes "}\n")
unfolding brackets
close_block = record { moves = λ st rest. refl }

c_type_plain : (t : TypeKind) → Moves [] [] (c_type t)
unfolding c_type brackets
c_type_plain i32 = record { moves = λ st rest. refl }
c_type_plain u64 = record { moves = λ st rest. refl }
c_type_plain void = record { moves = λ st rest. refl }

unary_plain : (op : UnaryOp) → Moves [] [] (unary_text op)
unfolding unary_text brackets
unary_plain uop_neg = record { moves = λ st rest. refl }
unary_plain uop_not = record { moves = λ st rest. refl }

binary_plain : (op : BinaryOp) → Moves [] [] (binary_text op)
unfolding binary_text brackets
binary_plain bop_add = record { moves = λ st rest. refl }
binary_plain _ = record { moves = λ st rest. refl }

ind_plain : (n : ℕ) → Moves [] [] (ind n)
unfolding ind brackets
ind_plain zero = nothing
ind_plain (suc n) = record { moves = λ st rest. (ind_plain n).moves st rest }

digits-Plain : (k n : ℕ) → Plain (digits k n)
unfolding digits
digits-Plain zero n = tt
digits-Plain (suc k) n =
    test_cases Plain (ltb n 10) _ _
      (λ e.
        let small = ltb→lt n 10 e in ((ground arith, ground arith, ground arith, ground arith), tt))
      (λ e.
        All-append _ (digits k (n / 10)) _ (digits-Plain k (n / 10))
          ((ground arith, ground arith, ground arith, ground arith), tt))

comma_plain : (later : Bool) → Moves [] [] (if later then codes ", " else [])
unfolding brackets
comma_plain true = record { moves = λ st rest. refl }
comma_plain false = nothing

space_plain : Moves [] [] (codes " ")
unfolding brackets
space_plain = record { moves = λ st rest. refl }

is_plain : Moves [] [] (codes " = ")
unfolding brackets
is_plain = record { moves = λ st rest. refl }

end_plain : Moves [] [] (codes ";\n")
unfolding brackets
end_plain = record { moves = λ st rest. refl }

mutual
  unfolding emit_expr decimal PlainExpr

  expr-Moves : (e : Expr) → PlainExpr e → Moves [] [] (emit_expr e)
  expr-Moves (int_lit n) h = plain _ (digits-Plain 20 n)
  expr-Moves (var name) h = plain name h
  expr-Moves (call name args) h =
      plain name h.0 ▸ open_paren ▸ inside (40 ∷ []) (args-Moves false args h.1) ▸ close_paren
  expr-Moves (unary op e) h = unary_plain op ▸ expr-Moves e h
  expr-Moves (binary op l r) h =
      open_paren
      ▸ inside (40 ∷ []) (expr-Moves l h.0)
      ▸ inside (40 ∷ []) space_plain
      ▸ inside (40 ∷ []) (binary_plain op)
      ▸ inside (40 ∷ []) space_plain
      ▸ inside (40 ∷ []) (expr-Moves r h.1)
      ▸ close_paren

  args-Moves :
      (later : Bool) (args : ExprList) → PlainArgs args → Moves [] [] (emit_args later args)
  args-Moves later no_args h = nothing
  args-Moves later (arg e rest) h = comma_plain later ▸ expr-Moves e h.0 ▸ args-Moves true rest h.1

if_open : Moves [] (40 ∷ []) (codes "if (")
unfolding brackets
if_open = record { moves = λ st rest. refl }

else_open : Moves [] (123 ∷ []) (codes "else {\n")
unfolding brackets
else_open = record { moves = λ st rest. refl }

while_open : Moves [] (40 ∷ []) (codes "while (")
unfolding brackets
while_open = record { moves = λ st rest. refl }

return_plain : Moves [] [] (codes "return ")
unfolding brackets
return_plain = record { moves = λ st rest. refl }

mutual
  unfolding emit_stmt PlainStmt

  stmt-Moves : (s : Stmt) (n : ℕ) → PlainStmt s → Moves [] [] (emit_stmt s n)
  stmt-Moves (let_stmt name ty e) n h =
      ind_plain n
      ▸ c_type_plain ty
      ▸ space_plain
      ▸ plain name h.0
      ▸ is_plain
      ▸ expr-Moves e h.1
      ▸ end_plain
  stmt-Moves (assign_stmt name e) n h =
      ind_plain n ▸ plain name h.0 ▸ is_plain ▸ expr-Moves e h.1 ▸ end_plain
  stmt-Moves (if_stmt e body other true) n h =
      ind_plain n
      ▸ if_open
      ▸ inside (40 ∷ []) (expr-Moves e h.0)
      ▸ open_block
      ▸ inside (123 ∷ []) (stmts-Moves body (n + 2) h.1)
      ▸ inside (123 ∷ []) (ind_plain n)
      ▸ close_block
      ▸ ind_plain n
      ▸ else_open
      ▸ inside (123 ∷ []) (stmts-Moves other (n + 2) h.2)
      ▸ inside (123 ∷ []) (ind_plain n)
      ▸ close_block
  stmt-Moves (if_stmt e body other false) n h =
      ind_plain n
      ▸ if_open
      ▸ inside (40 ∷ []) (expr-Moves e h.0)
      ▸ open_block
      ▸ inside (123 ∷ []) (stmts-Moves body (n + 2) h.1)
      ▸ inside (123 ∷ []) (ind_plain n)
      ▸ close_block
      ▸ nothing
  stmt-Moves (while_stmt e body) n h =
      ind_plain n
      ▸ while_open
      ▸ inside (40 ∷ []) (expr-Moves e h.0)
      ▸ open_block
      ▸ inside (123 ∷ []) (stmts-Moves body (n + 2) h.1)
      ▸ inside (123 ∷ []) (ind_plain n)
      ▸ close_block
  stmt-Moves (ret_stmt e) n h = ind_plain n ▸ return_plain ▸ expr-Moves e h ▸ end_plain
  stmt-Moves (expr_stmt e) n h = ind_plain n ▸ expr-Moves e h ▸ end_plain

  stmts-Moves : (list : StmtList) (n : ℕ) → PlainStmts list → Moves [] [] (emit_stmt_list list n)
  stmts-Moves no_stmts n h = nothing
  stmts-Moves (stmt s rest) n h = stmt-Moves s n h.0 ▸ stmts-Moves rest n h.1

params-Moves :
    (later : Bool) (params : List Param)
    → All (λ p. Plain p.name) params
    → Moves [] [] (emit_params later params)
unfolding emit_params
params-Moves later [] h = nothing
params-Moves later (p ∷ params) h =
    comma_plain later
    ▸ c_type_plain p.ty
    ▸ space_plain
    ▸ plain p.name h.0
    ▸ params-Moves true params h.1

signature-Moves : (f : FnDecl) → PlainFn f → Moves [] [] (signature f)
unfolding signature
signature-Moves f h =
    c_type_plain f.ret
    ▸ space_plain
    ▸ plain f.name h.0
    ▸ open_paren
    ▸ inside (40 ∷ []) (params-Moves false f.params h.1)
    ▸ close_paren

if-Moves :
    (b : Bool) {s t : Bytes} → Moves [] [] s → Moves [] [] t → Moves [] [] (if b then s else t)
if-Moves true h k = h
if-Moves false h k = k

extern_plain : Moves [] [] (codes "extern ")
unfolding brackets
extern_plain = record { moves = λ st rest. refl }

extern-Moves : (f : FnDecl) → PlainFn f → Moves [] [] (emit_extern f)
unfolding emit_extern
extern-Moves f h = if-Moves f.is_extern_c (extern_plain ▸ signature-Moves f h ▸ end_plain) nothing

main_plain : Moves [] [] (codes " main(void)")
unfolding brackets
main_plain = record { moves = λ st rest. refl }

fn_open : Moves [] (123 ∷ []) (codes " {\n")
unfolding brackets
fn_open = record { moves = λ st rest. refl }

fn_close : Moves (123 ∷ []) [] (codes "}\n\n")
unfolding brackets
fn_close = record { moves = λ st rest. refl }

fn-Moves : (f : FnDecl) → PlainFn f → Moves [] [] (emit_fn f)
unfolding emit_fn
fn-Moves f h = if-Moves f.is_extern_c nothing (
    if-Moves (bytes_eq f.name (codes "main")) (c_type_plain f.ret ▸ main_plain)
      (signature-Moves f h)
    ▸ fn_open
    ▸ inside (123 ∷ []) (stmts-Moves f.body 2 h.2)
    ▸ fn_close)

each-Moves :
    (emit : FnDecl → Bytes)
    → ((f : FnDecl) → PlainFn f → Moves [] [] (emit f))
    → (prog : Program) → All PlainFn prog
    → Moves [] [] (each emit prog)
unfolding each
each-Moves emit one [] h = nothing
each-Moves emit one (f ∷ fns) h = one f h.0 ▸ each-Moves emit one fns h.1

gap_plain : (prog : Program) → Moves [] [] (gap prog)
unfolding brackets
gap_plain [] = nothing
gap_plain (f ∷ fns) = record { moves = λ st rest. refl }

top_plain : Moves [] [] (codes "#include <stdint.h>\n")
unfolding brackets
top_plain = record { moves = λ st rest. refl }

next_plain : Moves [] [] (codes "#include <stdbool.h>\n\n")
unfolding brackets
next_plain = record { moves = λ st rest. refl }

program-Moves : (prog : Program) → All PlainFn prog → Moves [] [] (emit_c_program prog)
unfolding emit_c_program
program-Moves prog h =
    top_plain
    ▸ next_plain
    ▸ each-Moves emit_extern extern-Moves prog h
    ▸ gap_plain prog
    ▸ each-Moves emit_fn fn-Moves prog h

-- The C file for a program whose names have no brackets in them is well bracketed: read from its
-- start, every `)` and `}` closes the innermost bracket that is open, and none is open at its end.
pub emit_c_program_balanced :
    (prog : Program) → All PlainFn prog → brackets [] (emit_c_program prog) ≡ some []
unfolding brackets
emit_c_program_balanced prog h =
    ap (brackets []) (sym (append_nil (emit_c_program prog))) ∙ (program-Moves prog h).moves [] []
