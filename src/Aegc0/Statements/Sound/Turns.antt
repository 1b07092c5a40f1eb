-- ===== src/Aegc0/Statements/Sound/Turns.antt =====
-- The statements of the seed parser (src/seed/aegc0/parser.c) end, and what they read without an
-- error spells what they give.
use nullprt.Aegc0.Statements.{
  parse_call_args, parse_let, parse_named, parse_return, parse_stmt, recover, rounds, parse_stmts,
  expr_fuel, parse_if, lparen, colon, kw_else, parse_block, lbrace, kw_while, kw_if, assign, rparen,
  push_stmt, next, rbrace, skip_one, semi, kw_return, kw_let, ident, eof, kind_is, Parser,
}
use nullprt.Base.{
  zero, suc, [], ◌∷◌, true, false, none, some, inl, inr, refl, test_cases, ◌&&◌, not, while_inv,
  arith, ◌≤◌, ◌≡◌, ◌||◌, ◌+◌, Bool-cases, ◌*◌, List, Option, ℕ,
}
use nullprt.Aegc0.Statements.Sound.{
  perr-next-left, parse_type-Goes, expect_name-Goes, expect-Goes, next-Goes, Turn-intro, Goes-Seq,
  parse_cond-Ensures, expr_at-Ensures, Goes-map, Turn, Token, SpellsOpt, Goes,
}
use nullprt.Aegc0.Parser.{next, perr, expect, parse_type, expect_name}
use nullprt.Aegc0.Statements.Grammar.{
  no_more, given, call_rule, if_rule, while_rule, return_rule, let_rule, if_else_rule, assign_rule,
  one_more, none_given, SpellsStmt, braces, Cond, Tok, SpellsBlock, SpellsStmts, Seq, Name,
  CallArgs,
}
use nullprt.Aegc0.Parser.Steps.{
  done, perr-Steps, next-le, perr_next-Steps, Ensures-map, Takes-one, next_shrinks, holds,
  Steps-trans, Steps-map, Ensures-bind, Steps-refl, next-Steps, accept_cases, left, Steps, Ensures,
}
use nullprt.Aegc0.Expressions.Sound.{parse_args-Ensures}
use nullprt.Aegc0.Ast.{no_stmts, while_stmt, if_stmt, Stmt, StmtList, Expr}

next-Name : (p : Parser) → kind_is ident p ≡ true → Goes (Name p.cur.text) p (next p)
next-Name p h = Steps-map (λ u. (p.cur ∷ [], Takes-one p, (p.cur, h, refl, refl))) (next-Steps p)

let-Ensures : (p : Parser) → kind_is kw_let p ≡ true → Ensures (Turn p) (parse_let (next p))
unfolding parse_let
let-Ensures p h =
    let p1 = (expect_name (next p)).1 in
    let p2 = (parse_type (expect colon p1)).1 in
    Ensures-bind (expr_at-Ensures (expect assign p2)) λ (e, q) s. holds (
      Turn-intro p _ (next-Goes kw_let p h) (λ ts. let_rule)
        (Goes-Seq (expect_name-Goes (next p)) (
          Goes-Seq (expect-Goes colon p1) (
            Goes-Seq (parse_type-Goes (expect colon p1))
              (Goes-Seq (expect-Goes assign p2) (Goes-Seq s (expect-Goes semi q)))))))

return-Ensures :
    (p : Parser) → kind_is kw_return p ≡ true → Ensures (Turn p) (parse_return (next p))
unfolding parse_return
return-Ensures p h = Ensures-bind (expr_at-Ensures (next p)) λ (e, q) s.
    holds (
      Turn-intro p _ (next-Goes kw_return p h) (λ ts. return_rule)
        (Goes-Seq s (expect-Goes semi q)))

-- The loop of recovery stops at a `;`, a `}` or the end of the input.
pub recover_stops :
    (p : Parser)
    → Steps p (recover p) (Unit {0})
      × ((kind_is semi (recover p) || (kind_is rbrace (recover p) || kind_is eof (recover p)))
          ≡ true)
unfolding recover
recover_stops p =
    let ends =
      while_inv (λ q. Steps p q (Unit {0})) left
        (λ q. not (kind_is semi q) && (not (kind_is rbrace q) && not (kind_is eof q))) next
        (λ q s h. (Steps-trans s (next-Steps q) (λ u v. tt), next_shrinks q (ground (arith, h))))
        (rounds p) p (ground arith) (Steps-refl p tt) in
    (ends.0, ground (arith, ends.1))

skip_one-Steps : (p : Parser) → Steps p (skip_one p) (Unit {0})
skip_one-Steps p = elim (Bool-cases (kind_is semi p)) [
  | inl e ↦ rw e (next-Steps p)
  | inr e ↦ rw e (Steps-refl p tt)
]

CallArgs-Ensures : (p : Parser) → Ensures (λ r. Goes (CallArgs r.0) p r.1) (parse_call_args p)
unfolding parse_call_args
CallArgs-Ensures p =
    accept_cases (Ensures _) rparen p _ _
      (λ e. holds (Goes-map (λ ts. none_given) (next-Goes rparen p e)))
      (λ e.
        Ensures-map (parse_args-Ensures (expr_fuel p) p (ground arith))
          λ (args, q) s. Goes-map (λ ts. given) s)

named-Ensures :
    (p : Parser) → kind_is ident p ≡ true → Ensures (Turn p) (parse_named p.cur.text (next p))
unfolding parse_named
named-Ensures p h =
    accept_cases (Ensures _) assign (next p) _ _
      (λ e. Ensures-bind (expr_at-Ensures (next (next p))) λ (value, q) s. holds (
        Turn-intro p _ (next-Name p h) (λ ts. assign_rule)
          (Goes-Seq (next-Goes assign (next p) e) (Goes-Seq s (expect-Goes semi q)))))
      (λ e.
        accept_cases (Ensures _) lparen (next p) _ _
          (λ e1. Ensures-bind (CallArgs-Ensures (next (next p))) λ (args, q) s. holds (
            Turn-intro p _ (next-Name p h) (λ ts. call_rule)
              (Goes-Seq (next-Goes lparen (next p) e1) (Goes-Seq s (expect-Goes semi q)))))
          (λ e1.
            let away =
              Steps-trans (perr-Steps _ (next p))
                (Steps-trans (recover_stops (perr (next p))).0 (skip_one-Steps _) (λ u v. tt))
                (λ x u. x) in
            holds (record { goes = Steps-trans (next-Steps p) away (λ u x. x); past = away.le })))

spells_while :
    {e : Expr} {body : StmtList} (ts : List Token)
    → Seq (Seq (Tok kw_while) (Cond e)) (SpellsBlock body) ts
    → SpellsStmt (while_stmt e body) ts
spells_while ts (us, vs, x, y, h) = rw h (while_rule x y)

spells_if :
    {e : Expr} {body : StmtList} (ts : List Token)
    → Seq (Seq (Tok kw_if) (Cond e)) (SpellsBlock body) ts
    → SpellsStmt (if_stmt e body no_stmts false) ts
spells_if ts (us, vs, x, y, h) = rw h (if_rule x y)

spells_if_else :
    {e : Expr} {body other : StmtList} (ts : List Token)
    → Seq
        (Seq (Tok kw_if) (Cond e))
        (Seq (SpellsBlock body) (Seq (Tok kw_else) (SpellsBlock other)))
        ts
    → SpellsStmt (if_stmt e body other true) ts
spells_if_else ts (us, vs, x, (ws, xs, y, (ys, zs, z, w, i), j), h) =
    rw (h, j, i) (if_else_rule x y z w)

spells_block :
    {body : StmtList} (ts : List Token)
    → Seq (Tok lbrace) (Seq (SpellsStmts body) (Tok rbrace)) ts
    → SpellsBlock body ts
spells_block ts (us, vs, x, (ws, xs, y, z, i), h) = rw (h, i) (braces x y z)

push-Goes :
    (s : Option Stmt) {rest : StmtList} {p q r : Parser}
    → Goes (SpellsOpt s) p q
    → Goes (SpellsStmts rest) q r
    → Goes (SpellsStmts (push_stmt s rest)) p r
push-Goes none a b = Steps-trans a b (λ x y. absurd x.2)
push-Goes (some s) a b = Goes-map (λ ts (us, vs, x, y, h). rw h (one_more x y)) (Goes-Seq a b)

mutual
  unfolding parse_stmt

  stmt-Ensures :
      (n : ℕ) (p : Parser)
      → kind_is eof p ≡ false
      → 4 * left p + 1 ≤ n
      → Ensures (Turn p) (parse_stmt n p)
  stmt-Ensures zero p i h = absurd (omega arith)
  stmt-Ensures (suc n) p i h =
      let less = next_shrinks p i in
      accept_cases (Ensures _) kw_let p _ _ (let-Ensures p) λ e.
        accept_cases (Ensures _) kw_return p _ _ (return-Ensures p) λ e1.
          accept_cases (Ensures _) kw_if p _ _ (λ e2. if-Ensures n p e2 (omega arith))
            λ e2.
              accept_cases (Ensures _) kw_while p _ _
                (λ e3. Ensures-bind (parse_cond-Ensures (next p)) λ (cond, p1) c.
                  Ensures-bind (block-Ensures n p1 (omega (arith, c.le))) λ (body, q) b.
                    holds (record {
                      goes =
                          Goes-map spells_while (Goes-Seq (Goes-Seq (next-Goes kw_while p e3) c) b);
                      past = omega (arith, c.le, b.le);
                    }))
                λ e3. accept_cases (Ensures _) ident p _ _ (named-Ensures p) λ e4.
                  holds
                    (record { goes = perr_next-Steps _ p; past = omega (arith, perr-next-left p) })

  if-Ensures :
      (n : ℕ) (p : Parser)
      → kind_is kw_if p ≡ true
      → 4 * left (next p) + 4 ≤ n
      → Ensures (Turn p) (parse_if n (next p))
  if-Ensures zero p e h = absurd (omega arith)
  if-Ensures (suc n) p e h = Ensures-bind (parse_cond-Ensures (next p)) λ (cond, p1) c.
      Ensures-bind (block-Ensures n p1 (omega (arith, c.le))) λ (body, p2) b.
        let head = Goes-Seq (next-Goes kw_if p e) c in
        accept_cases (Ensures _) kw_else p2 _ _
          (λ e1.
            Ensures-bind (block-Ensures n (next p2) (omega (arith, c.le, b.le, next-le p2)))
              λ (other, q) d. holds (record {
                goes =
                    Goes-map spells_if_else
                      (Goes-Seq head (Goes-Seq b (Goes-Seq (next-Goes kw_else p2 e1) d)));
                past = omega (arith, c.le, b.le, next-le p2, d.le);
              }))
          (λ e1. holds (record {
            goes = Goes-map spells_if (Goes-Seq head b);
            past = omega (arith, c.le, b.le);
          }))

  stmts-Ensures :
      (n : ℕ) (p : Parser)
      → 4 * left p + 2 ≤ n
      → Ensures (λ r. Goes (SpellsStmts r.0) p r.1) (parse_stmts n p)
  stmts-Ensures zero p h = absurd (omega arith)
  stmts-Ensures (suc n) p h =
      test_cases (Ensures _) (kind_is rbrace p || kind_is eof p) _ _
        (λ e. holds (Steps-refl p ([], done, no_more)))
        (λ e.
          let i : kind_is eof p ≡ false = ground arith in
          let less = next_shrinks p i in
          Ensures-bind (stmt-Ensures n p i (omega arith)) λ (s, p1) a.
            Ensures-bind (stmts-Ensures n p1 (omega (arith, a.past)))
              λ (rest, q) b. holds (push-Goes s a.goes b))

  block-Ensures :
      (n : ℕ) (p : Parser)
      → 4 * left p + 3 ≤ n
      → Ensures (λ r. Goes (SpellsBlock r.0) p r.1) (parse_block n p)
  block-Ensures zero p h = absurd (omega arith)
  block-Ensures (suc n) p h =
      let a = expect-Goes lbrace p in
      Ensures-bind (stmts-Ensures n (expect lbrace p) (omega (arith, a.le))) λ (list, q) b.
        holds (Goes-map spells_block (Goes-Seq a (Goes-Seq b (expect-Goes rbrace q))))

-- With fuel in proportion to the input the parser of a block ends, nested blocks included. If it
-- meets no error, the tokens that it read are a `{`, the statements that it gives, each in its own
-- form, and a `}`.
pub parse_block-Ensures :
    (n : ℕ) (p : Parser)
    → 4 * left p + 3 ≤ n
    → Ensures (λ r. Goes (SpellsBlock r.0) p r.1) (parse_block n p)
parse_block-Ensures = block-Ensures
