-- ===== src/Aegc0/Expressions.antt =====
-- The expressions of the seed parser (src/seed/aegc0/parser.c), by precedence climbing, on fuel.
-- The children show that fuel in proportion to the input is enough.
pub mod Grammar
pub mod Sound
use nullprt.Base.{zero, suc, true, false, none, some, ◌+◌, ltb, ℕ}
use nullprt.Aegc0.Token.{
  TokenKind, ident, int, lparen, rparen, comma, plus, minus, star, slash, percent, eqeq, neq, lt,
  lte, gt, gte, andand, oror, bang,
}
use nullprt.Aegc0.Ast.{
  uop_neg, uop_not, BinaryOp, bop_add, bop_sub, bop_mul, bop_div, bop_mod, bop_eq, bop_neq, bop_lt,
  bop_lte, bop_gt, bop_gte, bop_and, bop_or, Expr, int_lit, var, call, unary, binary, ExprList,
  no_args, arg,
}
use nullprt.Aegc0.Parser.{Parser, Outcome, ◌>>=◌, next, perr, accept, expect}

unfoldable pub bin_prec : TokenKind → ℕ
bin_prec oror = 1
bin_prec andand = 2
bin_prec eqeq = 3
bin_prec neq = 3
bin_prec lt = 4
bin_prec lte = 4
bin_prec gt = 4
bin_prec gte = 4
bin_prec plus = 5
bin_prec minus = 5
bin_prec star = 6
bin_prec slash = 6
bin_prec percent = 6
bin_prec _ = 0

unfoldable pub bin_op : TokenKind → BinaryOp
bin_op plus = bop_add
bin_op minus = bop_sub
bin_op star = bop_mul
bin_op slash = bop_div
bin_op percent = bop_mod
bin_op eqeq = bop_eq
bin_op neq = bop_neq
bin_op lt = bop_lt
bin_op lte = bop_lte
bin_op gt = bop_gt
bin_op gte = bop_gte
bin_op andand = bop_and
bin_op oror = bop_or
bin_op _ = bop_add

unfoldable mutual
  -- The arguments after `(`, where the first is at hand, and the `)` behind them.
  pub parse_args : ℕ → Parser → Outcome ExprList
  parse_args zero p = none
  parse_args (suc n) p = parse_expr n p >>= λ (a, p1).
      accept comma p1 (λ p2. parse_args n p2 >>= λ (more, p3). some (arg a more, p3))
        (λ p2. some (arg a no_args, expect rparen p2))

  pub parse_primary : ℕ → Parser → Outcome Expr
  parse_primary zero p = none
  parse_primary (suc n) p =
      accept int p (λ p1. some (int_lit p.cur.int_value, p1))
        (λ p1.
          accept ident p1
            (λ p2.
              accept lparen p2
                (λ p3.
                  accept rparen p3 (λ p4. some (call p.cur.text no_args, p4))
                    (λ p4. parse_args n p4 >>= λ (args, p5). some (call p.cur.text args, p5)))
                (λ p3. some (var p.cur.text, p3)))
            (λ p2.
              accept lparen p2
                (λ p3. parse_expr n p3 >>= λ (inner, p4). some (inner, expect rparen p4))
                (λ p3. some (int_lit 0, next (perr p3)))))

  pub parse_unary : ℕ → Parser → Outcome Expr
  parse_unary zero p = none
  parse_unary (suc n) p =
      accept minus p (λ p1. parse_unary n p1 >>= λ (rhs, p2). some (unary uop_neg rhs, p2))
        (λ p1.
          accept bang p1 (λ p2. parse_unary n p2 >>= λ (rhs, p3). some (unary uop_not rhs, p3))
            (λ p2. parse_primary n p2))

  -- One round of the loop, and the rounds after it.
  pub parse_bin_rhs : ℕ → ℕ → Expr → Parser → Outcome Expr
  parse_bin_rhs zero min_prec lhs p = none
  parse_bin_rhs (suc n) min_prec lhs p = elim (ltb (bin_prec p.cur.kind) min_prec) [
    | true ↦ some (lhs, p)
    | false ↦ parse_unary n (next p) >>= λ (operand, p1).
        (elim (ltb (bin_prec p.cur.kind) (bin_prec p1.cur.kind)) [
          | true ↦ parse_bin_rhs n (bin_prec p.cur.kind + 1) operand p1
          | false ↦ some (operand, p1)
        ]
          >>= λ (rhs, p2). parse_bin_rhs n min_prec (binary (bin_op p.cur.kind) lhs rhs) p2)
  ]

  pub parse_expr : ℕ → Parser → Outcome Expr
  parse_expr zero p = none
  parse_expr (suc n) p = parse_unary n p >>= λ (lhs, p1). parse_bin_rhs n 1 lhs p1
