-- ===== src/Tests/Aegc0.antt =====
-- Runs of the seed compiler's model, and concrete uses of its theorems.
use nullprt.Aegc0.Arena.{align_up, arena_alloc, grow, set_align, Arena}
use nullprt.Aegc0.Driver.{after_parse, compile, finish, Outside, failed}
use nullprt.Aegc0.Emit.{
  binary_text, c_type, decimal, digits, each, emit_c_program, emit_expr, emit_extern, emit_fn,
  emit_params, emit_stmt_list, ind, signature, unary_text,
}
use nullprt.Aegc0.Emit.Balanced.{PlainExpr, PlainStmt, emit_c_program_balanced, PlainFn}
use nullprt.Aegc0.Expressions.{bin_op, bin_prec, parse_args, parse_expr}
use nullprt.Aegc0.Lexer.{
  bump, bump_at, digits_value, double_kind, kw_kind, lex_at, lex_ident, lex_int, lex_string,
  lexer_init, lexer_next, punct_kind, single_kind, skip_blank, skip_ws_and_comments, string_step,
}
use nullprt.Aegc0.Parser.{
  accept, expect, expect_name, next, parse_type, parser_init, perr, kind_is, Parser,
}
use nullprt.Aegc0.Sema.{
  add_params, check_fns, check_stmt_list, is_test, kind_or, require, same_kind, sema_check_program,
  type_of_expr, vadd, vget, sema_init,
}
use nullprt.Aegc0.Statements.{
  params_loop, parse_block, parse_call_args, parse_cond, parse_fn, parse_let, parse_named,
  parse_params, parse_program, parse_return, program_loop, recover,
}
use nullprt.Aegc0.Token.{kind_value, eof}
use nullprt.Base.{
  bytes_eq, is_alnum, is_alpha, is_digit, while, [], ◌∷◌, true, false, none, some, refl, ◌⊎◌, ℕ,
  ◌^◌, ◌+◌, ◌*◌, ◌↔◌, ◌++◌, arith, All, ◌≡◌, codes, Bytes,
}
use nullprt.Aegc0.Parser.Lexed.{parser_init-IsLexed, IsStopped}
use nullprt.Aegc0.Arena.Aligned.{IsAsked, IsPlace, arena_alloc-IsGranted, IsGranted}
use nullprt.Aegc0.Expressions.Grammar.{NoOperator}
use nullprt.Aegc0.Emit.Brackets.{Plain-by_test, Plain, brackets}
use nullprt.Aegc0.Ast.{
  uop_neg, unary, bop_add, binary, ret_stmt, no_stmts, int_lit, let_stmt, var, while_stmt, stmt,
  i32, FnDecl,
}
use nullprt.Aegc0.Expressions.Sound.{parse_expr-Ensures, Spelled}
use nullprt.Aegc0.Statements.Sound.Programs.{parse_program-Ensures}
use nullprt.Aegc0.Parser.Steps.{left, Steps, Ensures}
use nullprt.Aegc0.Sema.Typing.Scope.{check_stmt_list-all_declared, all_declared}
use nullprt.Aegc0.Sema.Typing.Bodies.{sema_check_program_iff}
use nullprt.Aegc0.Statements.Grammar.{SpellsProgram}
use nullprt.Aegc0.Sema.Typing.{CheckedFns}
use nullprt.Aegc0.Statements.Sound.{Goes}
use native.Mathlib.Nat.{le_refl}

-- What the runs compute with.
run : Unit {0}
unfolding while is_alpha is_alnum bytes_eq is_digit kind_value lexer_next lex_at
    skip_ws_and_comments punct_kind double_kind single_kind bump kw_kind bump_at digits_value
    lex_ident lex_int lex_string lexer_init skip_blank string_step parser_init accept expect
    expect_name next parse_type perr bin_op bin_prec parse_args parse_expr parse_program
    program_loop params_loop parse_block parse_call_args parse_cond parse_fn parse_let parse_named
    parse_params parse_return recover add_params check_fns check_stmt_list is_test kind_or require
    same_kind sema_check_program type_of_expr vadd vget binary_text c_type decimal digits each
    emit_c_program emit_expr emit_extern emit_fn emit_params emit_stmt_list ind signature unary_text
    compile after_parse finish
run = tt

-- A C compiler that takes every text, and one file to read.
abbrev always : Outside
always = record {
  read_file = λ path. some (codes "fn main() -> i32 { return 0; }");
  can_write = λ path. true;
  compiles = λ text exe. true;
}

abbrev sample : Bytes
sample = codes "fn main() -> i32 { if (1 < 9) { put(1 + 2 * 3); } return 0; }"

abbrev sample_c : Bytes
sample_c =
    codes
      "#include <stdint.h>\n#include <stdbool.h>\n\n\nint32_t main(void) {\n  if ((1 < 9)) {\n    put((1 + (2 * 3)));\n  }\n  return 0;\n}\n\n"

compile-sample :
    compile always (codes "a.c") (codes "a") sample
    ≡ some (record { code = 0; written = some sample_c })
unfolding run
compile-sample = refl

-- Without its `;` the statement is an error.
compile_broken :
    compile always (codes "a.c") (codes "a") (codes "fn main() -> i32 { return 0 }")
    ≡ some (failed 1)
unfolding run
compile_broken = refl

-- What is behind a byte that begins no token is not looked at.
compile_stray :
    compile always (codes "a.c") (codes "a") (codes "fn main() -> i32 { return 0; } @ fn junk ((")
    ≡ compile always (codes "a.c") (codes "a") (codes "fn main() -> i32 { return 0; }")
unfolding run
compile_stray = refl

compile_undeclared :
    compile always (codes "a.c") (codes "a") (codes "fn main() -> i32 { return x; }")
    ≡ some (failed 1)
unfolding run
compile_undeclared = refl

parse_program-Ensures_example :
    Ensures
      (λ r.
        Goes (SpellsProgram r.0) (parser_init sample) r.1
        × (kind_is eof r.1 ≡ true)
        × (r.1.had_error ≡ false → IsStopped sample r.1))
      (parse_program (parser_init sample))
parse_program-Ensures_example =
    parse_program-Ensures sample (parser_init sample) (parser_init-IsLexed sample)

-- At the first token of a sum.
abbrev sum : Parser
sum = parser_init (codes "1 + 2 * 3 == x")

parse_expr-Ensures_example :
    Ensures
      (λ r. Steps sum r.1 (Spelled 1 r.0 sum r.1 × NoOperator r.1.cur.kind))
      (parse_expr (4 * left sum + 3) sum)
parse_expr-Ensures_example = parse_expr-Ensures (4 * left sum + 3) sum (le_refl (4 * left sum + 3))

-- A function that declares a variable inside a loop and reads it behind the loop.
abbrev leaking : FnDecl
leaking = record {
  name = codes "main";
  params = record { name = codes "n"; ty = i32 } ∷ [];
  ret = i32;
  is_extern_c = false;
  body =
      stmt (while_stmt (var (codes "n")) (stmt (let_stmt (codes "x") i32 (int_lit 3)) no_stmts)) (
        stmt (ret_stmt (binary bop_add (var (codes "x")) (unary uop_neg (var (codes "n")))))
          no_stmts);
}

sema_check_program_iff_example :
    ((sema_check_program sema_init (leaking ∷ [])).0 ≡ true) ↔ CheckedFns (leaking ∷ [])
sema_check_program_iff_example = sema_check_program_iff (leaking ∷ [])

check_leaking : (sema_check_program sema_init (leaking ∷ [])).0 ≡ true
unfolding run
check_leaking = refl

check_stmt_list-all_declared_example :
    (check_stmt_list i32 [] leaking.body sema_init).0 ≡ [] ++ all_declared leaking.body
check_stmt_list-all_declared_example = check_stmt_list-all_declared i32 [] leaking.body sema_init

leaking-IsPlain : All PlainFn (leaking ∷ [])
unfolding PlainExpr PlainStmt
leaking-IsPlain = (
  (
    Plain-by_test (codes "main") refl,
    (n-IsPlain, tt),
    ((n-IsPlain, ((x-IsPlain, tt), tt)), ((x-IsPlain, n-IsPlain), tt)),
  ),
  tt,
)
  where
    n-IsPlain : Plain (codes "n")
    n-IsPlain = Plain-by_test (codes "n") refl

    x-IsPlain : Plain (codes "x")
    x-IsPlain = Plain-by_test (codes "x") refl

emit_c_program_balanced_example : brackets [] (emit_c_program (leaking ∷ [])) ≡ some []
emit_c_program_balanced_example = emit_c_program_balanced (leaking ∷ []) leaking-IsPlain

arena_alloc_grows :
    arena_alloc (λ c. true) (record { len = 4090; cap = 4096 }) 24 8
    ≡ some (4096, record { len = 4120; cap = 8192 })
unfolding arena_alloc align_up set_align grow while
arena_alloc_grows = refl

abbrev used : Arena
used = record { len = 4090; cap = 4096 }

arena_alloc-IsGranted_example :
    (o : ℕ) × IsPlace 3 used o
    × (((arena_alloc (λ c. true) used 24 (2 ^ 3) ≡ none)
          × ((c : ℕ) × IsAsked used (o + 24) c × (true ≡ false)))
        ⊎ ((b : Arena) × (arena_alloc (λ c. true) used 24 (2 ^ 3) ≡ some (o, b))
            × IsGranted (λ c. true) 3 24 used o b))
arena_alloc-IsGranted_example =
    arena_alloc-IsGranted (λ c. true) used 24 3 (omega arith) (omega arith) (omega arith)
