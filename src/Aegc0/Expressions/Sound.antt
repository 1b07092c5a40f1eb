-- ===== src/Aegc0/Expressions/Sound.antt =====
-- The expression parser (src/seed/aegc0/parser.c) ends, and what it reads without an error spells
-- the expression it gives.
use nullprt.Aegc0.Expressions.{
  bin_op, bin_prec, parse_args, minus, comma, bang, parse_expr, parse_bin_rhs, parse_unary, rparen,
  parse_primary, next, lparen, int, ident, TokenKind, Parser,
}
use nullprt.Aegc0.Token.{
  kind_value, andand, eqeq, neq, lt, lte, gt, gte, plus, star, slash, percent, eof, is, Token, oror,
}
use nullprt.Base.{
  zero, suc, [], ◌∷◌, true, false, some, inl, inr, refl, Bytes, test_cases, ltb→lt, Bool-cases, ltb,
  ◌++◌, arith, ◌≡◌, ◌<◌, ◌+◌, ◌≤◌, ◌*◌, List, ℕ,
}
use nullprt.Aegc0.Expressions.Grammar.{
  op_mod, op_div, op_mul, op_sub, op_add, op_gte, op_gt, op_lte, op_lt, op_neq, op_eq, op_and,
  op_or, Operator, NoOperator, negation, complement, empty_call, last, also, Spells-loosen, parens,
  operation, variable, literal, full_call, tightest, SpellsArgs, Spells,
}
use native.Mathlib.Nat.{le_refl}
use nullprt.Aegc0.Parser.Steps.{
  next_shrinks, perr_next-Steps, next-le, expect-Steps, next-Steps, Steps-refl, Steps-trans,
  Steps-map, holds, Ensures-map, done, accepted_shrinks, accept_cases, Ensures-bind, Takes-append,
  token, Takes-one, Steps, Reads, Takes, Ensures, left,
}
use nullprt.Aegc0.Ast.{
  uop_not, uop_neg, unary, no_args, arg, var, int_lit, call, binary, ExprList, Expr,
}
use nullprt.Aegc0.Parser.{kind_is}

abbrev pub Spelled : ℕ → Expr → Parser → Parser → Type 0
Spelled m e p q = (ts : List Token) × Takes q p ts × Spells m e ts

abbrev pub SpelledArgs : ExprList → Parser → Parser → Type 0
SpelledArgs es p q = (ts : List Token) × Takes q p ts × SpellsArgs es ts

-- What the loop over operators makes of a left operand that was read from `start` on.
abbrev Climbs : ℕ → Expr → Parser → Expr → Parser → Type 0
Climbs m lhs p e q =
    (start : Parser) (l : ℕ)
    → m ≤ l
    → bin_prec p.cur.kind ≤ l
    → Spelled l lhs start p
    → Spelled m e start q × (bin_prec q.cur.kind < m)

bin_prec-le : (k : TokenKind) → bin_prec k ≤ 6
unfolding bin_prec
bin_prec-le oror = omega arith
bin_prec-le _ = omega arith

bin_prec-eof : (k : TokenKind) → 1 ≤ bin_prec k → is k eof ≡ false
unfolding bin_prec kind_value
bin_prec-eof eof h = absurd (omega arith)
bin_prec-eof _ h = ground arith

-- The cases of a primary expression, from the tokens that they read.
literal-Spelled :
    (p : Parser) → kind_is int p ≡ true → Spelled tightest (int_lit p.cur.int_value) p (next p)
literal-Spelled p h = (p.cur ∷ [], Takes-one p, literal p.cur (omega arith) h)

variable-Spelled :
    (p : Parser) → kind_is ident p ≡ true → Spelled tightest (var p.cur.text) p (next p)
variable-Spelled p h = (p.cur ∷ [], Takes-one p, variable p.cur (omega arith) h)

call-Spelled :
    (p q : Parser) (args : ExprList)
    → kind_is ident p ≡ true
    → kind_is lparen (next p) ≡ true
    → SpelledArgs args (next (next p)) q
    → Spelled tightest (call p.cur.text args) p q
call-Spelled p q args h i (ts, t, s) =
    (p.cur ∷ (next p).cur ∷ ts, token (token t), full_call p.cur (next p).cur (omega arith) h i s)

parens-Spelled :
    (p q r : Parser) (e : Expr)
    → kind_is lparen p ≡ true
    → Spelled 1 e (next p) q
    → Reads rparen q r
    → Spelled tightest e p r
parens-Spelled p q r e h (ts, t, s) (c, k, u) =
    (p.cur ∷ (ts ++ (c ∷ [])), token (Takes-append t u), parens p.cur c (omega arith) h s k)

empty_call-Spelled :
    (p : Parser)
    → kind_is ident p ≡ true
    → kind_is lparen (next p) ≡ true
    → kind_is rparen (next (next p)) ≡ true
    → Spelled tightest (call p.cur.text no_args) p (next (next (next p)))
empty_call-Spelled p h i j = (
  p.cur ∷ (next p).cur ∷ (next (next p)).cur ∷ [],
  token (token (token done)),
  empty_call p.cur (next p).cur (next (next p)).cur (omega arith) h i j,
)

negation-Spelled :
    (p q : Parser) (e : Expr)
    → kind_is minus p ≡ true
    → Spelled tightest e (next p) q
    → Spelled tightest (unary uop_neg e) p q
negation-Spelled p q e h (ts, t, s) = (p.cur ∷ ts, token t, negation p.cur (omega arith) h s)

complement-Spelled :
    (p q : Parser) (e : Expr)
    → kind_is bang p ≡ true
    → Spelled tightest e (next p) q
    → Spelled tightest (unary uop_not e) p q
complement-Spelled p q e h (ts, t, s) = (p.cur ∷ ts, token t, complement p.cur (omega arith) h s)

also-SpelledArgs :
    (p q r : Parser) (e : Expr) (args : ExprList)
    → Spelled 1 e p q
    → kind_is comma q ≡ true
    → SpelledArgs args (next q) r
    → SpelledArgs (arg e args) p r
also-SpelledArgs p q r e args (ts, t, s) h (us, u, v) =
    (ts ++ (q.cur ∷ us), Takes-append t (token u), also q.cur s h v)

last-SpelledArgs :
    (p q r : Parser) (e : Expr)
    → Spelled 1 e p q
    → Reads rparen q r
    → SpelledArgs (arg e no_args) p r
last-SpelledArgs p q r e (ts, t, s) (c, h, u) = (ts ++ (c ∷ []), Takes-append t u, last c s h)

loosen-Spelled : {m l : ℕ} {e : Expr} {p q : Parser} → m ≤ l → Spelled l e p q → Spelled m e p q
loosen-Spelled h (ts, t, s) = (ts, t, Spells-loosen h s)

bin_prec-Operator :
    (k : TokenKind) → 1 ≤ bin_prec k → (sign : Bytes) × Operator k (bin_prec k) (bin_op k) sign
unfolding bin_prec bin_op
bin_prec-Operator oror h = (_, op_or)
bin_prec-Operator andand h = (_, op_and)
bin_prec-Operator eqeq h = (_, op_eq)
bin_prec-Operator neq h = (_, op_neq)
bin_prec-Operator lt h = (_, op_lt)
bin_prec-Operator lte h = (_, op_lte)
bin_prec-Operator gt h = (_, op_gt)
bin_prec-Operator gte h = (_, op_gte)
bin_prec-Operator plus h = (_, op_add)
bin_prec-Operator minus h = (_, op_sub)
bin_prec-Operator star h = (_, op_mul)
bin_prec-Operator slash h = (_, op_div)
bin_prec-Operator percent h = (_, op_mod)
bin_prec-Operator _ h = absurd (omega arith)

bin_prec-NoOperator : (k : TokenKind) → bin_prec k < 1 → NoOperator k
unfolding bin_prec
bin_prec-NoOperator k h l op sign op_or = omega arith
bin_prec-NoOperator k h l op sign op_and = omega arith
bin_prec-NoOperator k h l op sign op_eq = omega arith
bin_prec-NoOperator k h l op sign op_neq = omega arith
bin_prec-NoOperator k h l op sign op_lt = omega arith
bin_prec-NoOperator k h l op sign op_lte = omega arith
bin_prec-NoOperator k h l op sign op_gt = omega arith
bin_prec-NoOperator k h l op sign op_gte = omega arith
bin_prec-NoOperator k h l op sign op_add = omega arith
bin_prec-NoOperator k h l op sign op_sub = omega arith
bin_prec-NoOperator k h l op sign op_mul = omega arith
bin_prec-NoOperator k h l op sign op_div = omega arith
bin_prec-NoOperator k h l op sign op_mod = omega arith

operation-Spelled :
    (start p q : Parser) (lhs rhs : Expr)
    → 1 ≤ bin_prec p.cur.kind
    → Spelled (bin_prec p.cur.kind) lhs start p
    → Spelled (bin_prec p.cur.kind + 1) rhs (next p) q
    → Spelled (bin_prec p.cur.kind) (binary (bin_op p.cur.kind) lhs rhs) start q
operation-Spelled start p q lhs rhs h (ts, t, s) (us, u, v) =
    let (sign, o) = bin_prec-Operator p.cur.kind h in
    (ts ++ (p.cur ∷ us), Takes-append t (token u), operation p.cur (le_refl _) o s v)

-- The right operand of an operator at `p`: the loop takes it up if a tighter operator follows.
climb-Ensures :
    (n : ℕ) (p : Parser) (operand : Expr) (p1 : Parser)
    → ((m : ℕ) (lhs : Expr) (q : Parser)
        → 1 ≤ m
        → 4 * left q + 1 ≤ n
        → Ensures (λ r. Steps q r.1 (Climbs m lhs q r.0 r.1)) (parse_bin_rhs n m lhs q))
    → 4 * left p1 + 1 ≤ n
    → Ensures
        (λ r. Steps p1 r.1 (
          (start : Parser)
          → Spelled tightest operand start p1
          → Spelled (bin_prec p.cur.kind + 1) r.0 start r.1
            × (bin_prec r.1.cur.kind ≤ bin_prec p.cur.kind)))
        (elim (ltb (bin_prec p.cur.kind) (bin_prec p1.cur.kind)) [
          | true ↦ parse_bin_rhs n (bin_prec p.cur.kind + 1) operand p1
          | false ↦ some (operand, p1)
        ])
climb-Ensures n p operand p1 again h =
    elim (Bool-cases (ltb (bin_prec p.cur.kind) (bin_prec p1.cur.kind))) [
      | inl e ↦ rw e (
          Ensures-map (again (bin_prec p.cur.kind + 1) operand p1 (omega arith) h) λ (rhs, q) s.
            Steps-map
              (λ climbs start x.
                let c =
                  climbs start tightest (omega (arith, bin_prec-le p.cur.kind))
                    (omega (arith, bin_prec-le p1.cur.kind)) x in
                (c.0, omega (arith, c.1)))
              s)
      | inr e ↦ rw e (
          holds (
            Steps-refl p1 (λ start x.
              (loosen-Spelled (omega (arith, bin_prec-le p.cur.kind)) x, ground arith))))
    ]

mutual
  unfolding parse_args

  args-Ensures :
      (n : ℕ) (p : Parser)
      → 4 * left p + 4 ≤ n
      → Ensures (λ r. Steps p r.1 (SpelledArgs r.0 p r.1)) (parse_args n p)
  args-Ensures zero p h = absurd (omega arith)
  args-Ensures (suc n) p h = Ensures-bind (expr-Ensures n p (omega arith)) λ (a, p1) s.
      accept_cases (Ensures _) comma p1 _ _
        (λ e.
          let less = accepted_shrinks comma p1 refl e in
          Ensures-bind (args-Ensures n (next p1) (omega (arith, s.le))) λ (more, p3) t. holds (
            Steps-trans s (Steps-trans (next-Steps p1) t (λ u x. x))
              (λ x y. also-SpelledArgs p p1 p3 a more x.0 e y)))
        (λ e.
          holds (Steps-trans s (expect-Steps rparen p1) (λ x y. last-SpelledArgs p p1 _ a x.0 y)))

  primary-Ensures :
      (n : ℕ) (p : Parser)
      → 4 * left p + 1 ≤ n
      → Ensures (λ r. Steps p r.1 (Spelled tightest r.0 p r.1)) (parse_primary n p)
  primary-Ensures zero p h = absurd (omega arith)
  primary-Ensures (suc n) p h =
      accept_cases (Ensures _) int p _ _
        (λ e. holds (Steps-map (λ u. literal-Spelled p e) (next-Steps p)))
        (λ e.
          accept_cases (Ensures _) ident p _ _
            (λ e1.
              let less = accepted_shrinks ident p refl e1 in
              accept_cases (Ensures _) lparen (next p) _ _
                (λ e2.
                  let p3 = next (next p) in
                  let two = Steps-trans (next-Steps p) (next-Steps (next p)) (λ u v. tt) in
                  accept_cases (Ensures _) rparen p3 _ _
                    (λ e3.
                      holds
                        (Steps-trans two (next-Steps p3) (λ u v. empty_call-Spelled p e1 e2 e3)))
                    (λ e3.
                      Ensures-bind (args-Ensures n p3 (omega (arith, next-le (next p))))
                        λ (args, q) s.
                          holds (Steps-trans two s (λ u x. call-Spelled p q args e1 e2 x))))
                (λ e2. holds (Steps-map (λ u. variable-Spelled p e1) (next-Steps p))))
            (λ e1.
              accept_cases (Ensures _) lparen p _ _
                (λ e2.
                  let less = accepted_shrinks lparen p refl e2 in
                  Ensures-bind (expr-Ensures n (next p) (omega arith)) λ (inner, q) s. holds (
                    Steps-trans (Steps-trans (next-Steps p) s (λ u x. x.0)) (expect-Steps rparen q)
                      (λ x y. parens-Spelled p q _ inner e2 x y)))
                (λ e2. holds (perr_next-Steps _ p))))

  unary-Ensures :
      (n : ℕ) (p : Parser)
      → 4 * left p + 2 ≤ n
      → Ensures (λ r. Steps p r.1 (Spelled tightest r.0 p r.1)) (parse_unary n p)
  unary-Ensures zero p h = absurd (omega arith)
  unary-Ensures (suc n) p h =
      accept_cases (Ensures _) minus p _ _
        (λ e.
          let less = accepted_shrinks minus p refl e in
          Ensures-bind (unary-Ensures n (next p) (omega arith)) λ (rhs, q) s.
            holds (Steps-trans (next-Steps p) s (λ u x. negation-Spelled p q rhs e x)))
        (λ e.
          accept_cases (Ensures _) bang p _ _
            (λ e'.
              let less = accepted_shrinks bang p refl e' in
              Ensures-bind (unary-Ensures n (next p) (omega arith)) λ (rhs, q) s.
                holds (Steps-trans (next-Steps p) s (λ u x. complement-Spelled p q rhs e' x)))
            (λ e'. primary-Ensures n p (omega arith)))

  bin_rhs-Ensures :
      (n m : ℕ) (lhs : Expr) (p : Parser)
      → 1 ≤ m
      → 4 * left p + 1 ≤ n
      → Ensures (λ r. Steps p r.1 (Climbs m lhs p r.0 r.1)) (parse_bin_rhs n m lhs p)
  bin_rhs-Ensures zero m lhs p k h = absurd (omega arith)
  bin_rhs-Ensures (suc n) m lhs p k h =
      test_cases (Ensures _) (ltb (bin_prec p.cur.kind) m) _ _
        (λ e. holds (Steps-refl p (λ start l a b s. (loosen-Spelled a s, ltb→lt _ _ e))))
        (λ e.
          let op : m ≤ bin_prec p.cur.kind = ground arith in
          let less = next_shrinks p (bin_prec-eof p.cur.kind (omega arith)) in
          Ensures-bind (unary-Ensures n (next p) (omega arith)) λ (operand, p1) a.
            Ensures-bind (climb-Ensures n p operand p1 (bin_rhs-Ensures n) (omega (arith, a.le)))
              λ (rhs, p2) b.
                Ensures-map
                  (bin_rhs-Ensures n m (binary (bin_op p.cur.kind) lhs rhs) p2 k
                    (omega (arith, a.le, b.le)))
                  λ (e', q) c.
                    Steps-trans
                      (Steps-trans (Steps-trans (next-Steps p) a (λ u x. x)) b
                        (λ x f. f (next p) x))
                      c
                      (λ x climbs start l i j s. climbs start (bin_prec p.cur.kind) op x.1 (
                        operation-Spelled start p p2 lhs rhs (omega arith) (loosen-Spelled j s)
                          x.0)))

  expr-Ensures :
      (n : ℕ) (p : Parser)
      → 4 * left p + 3 ≤ n
      → Ensures (λ r. Steps p r.1 (Spelled 1 r.0 p r.1 × NoOperator r.1.cur.kind)) (parse_expr n p)
  expr-Ensures zero p h = absurd (omega arith)
  expr-Ensures (suc n) p h = Ensures-bind (unary-Ensures n p (omega arith)) λ (lhs, p1) a.
      Ensures-map (bin_rhs-Ensures n 1 lhs p1 (omega arith) (omega (arith, a.le))) λ (e, q) b.
        Steps-trans a b (λ x climbs.
          let c = climbs p tightest (omega arith) (omega (arith, bin_prec-le p1.cur.kind)) x in
          (c.0, bin_prec-NoOperator q.cur.kind c.1))

-- With fuel in proportion to the input the expression parser ends, and it does not go back in the input.
-- If it meets no error, there was none before, and the tokens that it read spell the expression that it
-- gives, at the loosest level of the grammar, where an operator stands between a left operand of its
-- level and a right operand of a tighter one. The token at hand then is no operator.
pub parse_expr-Ensures :
    (n : ℕ) (p : Parser)
    → 4 * left p + 3 ≤ n
    → Ensures (λ r. Steps p r.1 (Spelled 1 r.0 p r.1 × NoOperator r.1.cur.kind)) (parse_expr n p)
parse_expr-Ensures = expr-Ensures

pub parse_args-Ensures :
    (n : ℕ) (p : Parser)
    → 4 * left p + 4 ≤ n
    → Ensures (λ r. Steps p r.1 (SpelledArgs r.0 p r.1)) (parse_args n p)
parse_args-Ensures = args-Ensures
