-- ===== src/Aegc0/Statements.antt =====
-- The statements, functions and programs of the seed parser (src/seed/aegc0/parser.c), on fuel. The
-- children show that fuel in proportion to the input is enough.
pub mod Grammar
pub mod Sound
use nullprt.Base.{
  zero, suc, [], ◌∷◌, true, false, none, some, codes, bytes_eq, ◌||◌, ◌+◌, ◌&&◌, not, ◌*◌, while,
  length, if◌then◌else◌, Option, List, Bytes, Bool, ℕ,
}
use nullprt.Aegc0.Token.{
  eof, ident, string, kw_fn, kw_let, kw_extern, kw_return, kw_if, kw_else, kw_while, lparen, rparen,
  lbrace, rbrace, colon, semi, comma, arrow, assign,
}
use nullprt.Aegc0.Ast.{
  Expr, call, ExprList, no_args, Stmt, let_stmt, assign_stmt, if_stmt, while_stmt, ret_stmt,
  expr_stmt, StmtList, no_stmts, stmt, Param, FnDecl, Program,
}
use nullprt.Aegc0.Parser.{
  Parser, Outcome, ◌>>=◌, next, perr, kind_is, accept, expect, expect_name, parse_type,
}
use nullprt.Aegc0.Expressions.{parse_expr, parse_args}

-- Rounds for the loops, and fuel for an expression, from the bytes that are left.
abbrev pub rounds : Parser → ℕ
rounds p = length p.lx.rest + 2

abbrev pub expr_fuel : Parser → ℕ
expr_fuel p = 4 * length p.lx.rest + 8

abbrev pub expr_at : Parser → Outcome Expr
expr_at p = parse_expr (expr_fuel p) p

-- The loop after a statement that is neither an assignment nor a call.
unfoldable pub recover : Parser → Parser
recover p =
    while (rounds p) (λ q. not (kind_is semi q) && (not (kind_is rbrace q) && not (kind_is eof q)))
      next p

-- `accept(p, k)` where both ways go on alike.
abbrev pub skip_one : Parser → Parser
skip_one p = if kind_is semi p then next p else p

unfoldable pub parse_let : Parser → Outcome (Option Stmt)
parse_let p =
    let name = (expect_name p).0 in
    let p1 = expect colon (expect_name p).1 in
    let ty = (parse_type p1).0 in
    let p2 = expect assign (parse_type p1).1 in
    expr_at p2 >>= λ (init, p3). some (some (let_stmt name ty init), expect semi p3)

unfoldable pub parse_return : Parser → Outcome (Option Stmt)
parse_return p = expr_at p >>= λ (value, p1). some (some (ret_stmt value), expect semi p1)

-- The condition of an `if` or a `while`, with its parentheses.
unfoldable pub parse_cond : Parser → Outcome Expr
parse_cond p = expr_at (expect lparen p) >>= λ (cond, p1). some (cond, expect rparen p1)

unfoldable pub parse_call_args : Parser → Outcome ExprList
parse_call_args p = accept rparen p (λ p1. some (no_args, p1)) (λ p1. parse_args (expr_fuel p1) p1)

-- A statement that begins with an identifier.
unfoldable pub parse_named : Bytes → Parser → Outcome (Option Stmt)
parse_named name p =
    accept assign p
      (λ p1. expr_at p1 >>= λ (value, p2). some (some (assign_stmt name value), expect semi p2))
      (λ p1.
        accept lparen p1
          (λ p2. parse_call_args p2 >>= λ (args, p3).
            some (some (expr_stmt (call name args)), expect semi p3))
          (λ p2. some (none, skip_one (recover (perr p2)))))

abbrev pub push_stmt : Option Stmt → StmtList → StmtList
push_stmt none rest = rest
push_stmt (some s) rest = stmt s rest

unfoldable mutual
  -- One turn of the loop of `parse_block`; it gives no statement after an error.
  pub parse_stmt : ℕ → Parser → Outcome (Option Stmt)
  parse_stmt zero p = none
  parse_stmt (suc n) p =
      accept kw_let p (λ p1. parse_let p1)
        (λ p1.
          accept kw_return p1 (λ p2. parse_return p2)
            (λ p2.
              accept kw_if p2 (λ p3. parse_if n p3)
                (λ p3.
                  accept kw_while p3
                    (λ p4. parse_cond p4 >>= λ (cond, p5).
                      parse_block n p5 >>= λ (body, p6). some (some (while_stmt cond body), p6))
                    (λ p4.
                      accept ident p4 (λ p5. parse_named p4.cur.text p5)
                        (λ p5. some (none, next (perr p5)))))))

  pub parse_if : ℕ → Parser → Outcome (Option Stmt)
  parse_if zero p = none
  parse_if (suc n) p = parse_cond p >>= λ (cond, p1). parse_block n p1 >>= λ (then_body, p2).
      accept kw_else p2
        (λ p3. parse_block n p3 >>= λ (else_body, p4).
          some (some (if_stmt cond then_body else_body true), p4))
        (λ p3. some (some (if_stmt cond then_body no_stmts false), p3))

  -- The loop of `parse_block`.
  pub parse_stmts : ℕ → Parser → Outcome StmtList
  parse_stmts zero p = none
  parse_stmts (suc n) p = elim (kind_is rbrace p || kind_is eof p) [
    | true ↦ some (no_stmts, p)
    | false ↦
        parse_stmt n p >>= λ (s, p1). parse_stmts n p1 >>= λ (rest, p2). some (push_stmt s rest, p2)
  ]

  pub parse_block : ℕ → Parser → Outcome StmtList
  parse_block zero p = none
  parse_block (suc n) p =
      parse_stmts n (expect lbrace p) >>= λ (list, p1). some (list, expect rbrace p1)

-- A parameter, and the rest of the list with its `)`.
unfoldable pub params_loop : ℕ → Parser → Outcome (List Param)
params_loop zero p = none
params_loop (suc n) p =
    let p1 = expect colon (expect_name p).1 in
    let param : Param = record { name = (expect_name p).0; ty = (parse_type p1).0 } in
    accept comma (parse_type p1).1
      (λ p2. params_loop n p2 >>= λ (rest, p3). some (param ∷ rest, p3))
      (λ p2. some (param ∷ [], expect rparen p2))

unfoldable pub parse_params : Parser → Outcome (List Param)
parse_params p =
    accept rparen (expect lparen p) (λ p1. some ([], p1)) (λ p1. params_loop (rounds p1) p1)

abbrev pub block_fuel : Parser → ℕ
block_fuel p = 4 * length p.lx.rest + 8

abbrev pub parse_body : Bool → Parser → Outcome StmtList
parse_body true p = some (no_stmts, expect semi p)
parse_body false p = parse_block (block_fuel p) p

unfoldable pub parse_fn : Bool → Parser → Outcome FnDecl
parse_fn is_extern_c p = parse_params (expect_name p).1 >>= λ (params, p1).
    let p2 = expect arrow p1 in
    parse_body is_extern_c (parse_type p2).1 >>= λ (body, p3). some (
      record {
        name = (expect_name p).0;
        params = params;
        ret = (parse_type p2).0;
        is_extern_c = is_extern_c;
        body = body;
      },
      p3,
    )

-- The `"C"` after `extern`, and the `fn` after it.
abbrev pub extern_head : Parser → Parser
extern_head p =
    expect kw_fn (if kind_is string p && bytes_eq p.cur.text (codes "C") then next p else perr p)

unfoldable pub program_loop : ℕ → Parser → Outcome Program
program_loop zero p = none
program_loop (suc n) p = elim (kind_is eof p) [
  | true ↦ some ([], p)
  | false ↦
      accept kw_extern p
        (λ p1. parse_fn true (extern_head p1) >>= λ (f, p2).
          program_loop n p2 >>= λ (fns, p3). some (f ∷ fns, p3))
        (λ p1.
          accept kw_fn p1
            (λ p2. parse_fn false p2 >>= λ (f, p3).
              program_loop n p3 >>= λ (fns, p4). some (f ∷ fns, p4))
            (λ p2. program_loop n (next (perr p2))))
]

unfoldable pub parse_program : Parser → Outcome Program
parse_program p = program_loop (rounds p) p
