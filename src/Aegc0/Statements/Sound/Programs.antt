-- ===== src/Aegc0/Statements/Sound/Programs.antt =====
-- The functions and programs of the seed parser (src/seed/aegc0/parser.c) end, and what they read
-- without an error spells what they give.
use nullprt.Aegc0.Statements.{
  params_loop, parse_fn, parse_params, parse_program, program_loop, string, kw_fn, rparen, comma,
  block_fuel, arrow, next, rounds, extern_head, colon, semi, lparen, eof, parse_body, kw_extern,
  kind_is, Parser,
}
use nullprt.Base.{
  zero, suc, [], ◌∷◌, true, false, inl, inr, refl, test_cases, bytes_eq_iff, Bool-cases, codes,
  bytes_eq, ◌&&◌, if◌then◌else◌, arith, ◌≤◌, ◌≡◌, ◌+◌, List, Bytes, Bool, ℕ,
}
use nullprt.Aegc0.Parser.Lexed.{Takes-IsStopped, IsStopped, IsLexed}
use nullprt.Aegc0.Parser.Steps.{
  perr-Steps, next-Steps, Takes-one, Steps-map, perr_next-Steps, Steps-trans, Ensures-map,
  next_shrinks, accepted_shrinks, done, accept_cases, Steps-refl, Ensures-bind, holds, left,
  Ensures,
}
use nullprt.Aegc0.Statements.Sound.{
  perr-next-left, next-Goes, parse_type-Goes, Goes-map, expect_name-Goes, Goes-Seq, expect-Goes,
  Goes,
}
use nullprt.Aegc0.Statements.Grammar.{
  CText, last_param, no_params, no_fns, more_params, TypeName, one_fn, SpellsParams, SpellsBlock,
  SpellsFn, Name, Head, Tok, Seq, SpellsProgram,
}
use nullprt.Aegc0.Parser.{perr, parse_type, expect, expect_name}
use nullprt.Aegc0.Statements.Sound.Turns.{parse_block-Ensures}
use nullprt.Aegc0.Ast.{Param, StmtList, Program, TypeKind, FnDecl}
use nullprt.Aegc0.Token.{Token}

more-Params :
    {n : Bytes} {ty : TypeKind} {params : List Param} (ts : List Token)
    → Seq (Seq (Name n) (Seq (Tok colon) (Seq (TypeName ty) (Tok comma)))) (SpellsParams params) ts
    → SpellsParams (record { name = n; ty = ty } ∷ params) ts
more-Params ts (us, vs, x, y, h) = rw h (more_params x y)

params_loop-Ensures :
    (n : ℕ) (p : Parser)
    → left p + 1 ≤ n
    → Ensures (λ r. Goes (SpellsParams r.0) p r.1) (params_loop n p)
unfolding params_loop
params_loop-Ensures zero p h = absurd (omega arith)
params_loop-Ensures (suc n) p h =
    let p1 = (expect_name p).1 in
    let p2 = expect colon p1 in
    let q = (parse_type p2).1 in
    let a = expect_name-Goes p in
    let b = expect-Goes colon p1 in
    let c = parse_type-Goes p2 in
    accept_cases (Ensures _) comma q _ _
      (λ e.
        let less = accepted_shrinks comma q refl e in
        Ensures-bind (params_loop-Ensures n (next q) (omega (arith, a.le, b.le, c.le)))
          λ (rest, r) d. holds (
            Goes-map more-Params
              (Goes-Seq (Goes-Seq a (Goes-Seq b (Goes-Seq c (next-Goes comma q e)))) d)))
      (λ e.
        holds (
          Goes-map (λ ts. last_param)
            (Goes-Seq a (Goes-Seq b (Goes-Seq c (expect-Goes rparen q))))))

parse_params-Ensures :
    (p : Parser) → Ensures (λ r. Goes (Seq (Tok lparen) (SpellsParams r.0)) p r.1) (parse_params p)
unfolding parse_params
parse_params-Ensures p =
    let a = expect-Goes lparen p in
    let p1 = expect lparen p in
    accept_cases (Ensures _) rparen p1 _ _
      (λ e. holds (Goes-Seq a (Goes-map (λ ts. no_params) (next-Goes rparen p1 e))))
      (λ e.
        Ensures-map (params_loop-Ensures (rounds p1) p1 (ground arith)) λ (ps, q) s. Goes-Seq a s)

BodyOf : Bool → StmtList → List Token → Type 0
BodyOf b body = elim b [ true ↦ Tok semi | false ↦ SpellsBlock body ]

parse_body-Ensures :
    (b : Bool) (p : Parser) → Ensures (λ r. Goes (BodyOf b r.0) p r.1) (parse_body b p)
unfolding BodyOf
parse_body-Ensures true p = holds (expect-Goes semi p)
parse_body-Ensures false p = parse_block-Ensures (block_fuel p) p (ground arith)

-- A function from its first keyword on, and how far its name and the rest take the parser.
parse_fn-Ensures :
    (b : Bool) (start p : Parser)
    → Goes (Head b) start p
    → Ensures (λ r. Goes (SpellsFn r.0) start r.1 × (left r.1 ≤ left p)) (parse_fn b p)
unfolding parse_fn BodyOf
parse_fn-Ensures b start p head =
    let p1 = (expect_name p).1 in
    let a = expect_name-Goes p in
    Ensures-bind (parse_params-Ensures p1) λ (params, p2) s.
      let c = Goes-Seq (expect-Goes arrow p2) (parse_type-Goes (expect arrow p2)) in
      Ensures-bind (parse_body-Ensures b (parse_type (expect arrow p2)).1) λ (body, q) d. holds (
        Goes-Seq head (
            Goes-Seq a (
              Goes-Seq s (
                Goes-Seq (expect-Goes arrow p2) (Goes-Seq (parse_type-Goes (expect arrow p2)) d)))),
        omega (arith, a.le, s.le, c.le, d.le),
      )

CText-Goes :
    (p : Parser)
    → Goes CText p (if kind_is string p && bytes_eq p.cur.text (codes "C") then next p else perr p)
CText-Goes p = elim (Bool-cases (kind_is string p && bytes_eq p.cur.text (codes "C"))) [
  | inl e ↦
      let k : kind_is string p ≡ true = ground arith in
      let t : bytes_eq p.cur.text (codes "C") ≡ true = ground arith in
      rw e (
        Steps-map
          (λ u.
            (p.cur ∷ [], Takes-one p, (p.cur, k, (bytes_eq_iff p.cur.text (codes "C")).0 t, refl)))
          (next-Steps p))
  | inr e ↦ rw e (perr-Steps _ p)
]

extern_head-Goes : (p : Parser) → Goes (Seq CText (Tok kw_fn)) p (extern_head p)
extern_head-Goes p = Goes-Seq (CText-Goes p) (expect-Goes kw_fn _)

one_more-Program :
    {f : FnDecl} {fns : Program} (ts : List Token)
    → Seq (SpellsFn f) (SpellsProgram fns) ts
    → SpellsProgram (f ∷ fns) ts
one_more-Program ts (us, vs, x, y, h) = rw h (one_fn x y)

program_loop-Ensures :
    (n : ℕ) (p : Parser)
    → left p + 1 ≤ n
    → Ensures (λ r. Goes (SpellsProgram r.0) p r.1 × (kind_is eof r.1 ≡ true)) (program_loop n p)
unfolding program_loop
program_loop-Ensures zero p h = absurd (omega arith)
program_loop-Ensures (suc n) p h =
    test_cases (Ensures _) (kind_is eof p) _ _ (λ e. holds (Steps-refl p ([], done, no_fns), e))
      (λ e.
        let less = next_shrinks p e in
        let head = extern_head-Goes (next p) in
        accept_cases (Ensures _) kw_extern p _ _
          (λ e1.
            Ensures-bind (parse_fn-Ensures true p _ (Goes-Seq (next-Goes kw_extern p e1) head))
              λ (f, p2) a.
                Ensures-bind (program_loop-Ensures n p2 (omega (arith, a.1, head.le)))
                  λ (fns, q) b. holds (Goes-map one_more-Program (Goes-Seq a.0 b.0), b.1))
          (λ e1.
            accept_cases (Ensures _) kw_fn p _ _
              (λ e2. Ensures-bind (parse_fn-Ensures false p _ (next-Goes kw_fn p e2)) λ (f, p2) a.
                Ensures-bind (program_loop-Ensures n p2 (omega (arith, a.1)))
                  λ (fns, q) b. holds (Goes-map one_more-Program (Goes-Seq a.0 b.0), b.1))
              (λ e2.
                Ensures-map
                  (program_loop-Ensures n (next (perr p)) (omega (arith, perr-next-left p)))
                  λ (fns, q) b. (Steps-trans (perr_next-Steps _ p) b.0 (λ x u. x), b.1))))

-- The parser of programs ends. If it meets no error, the tokens that it read, from the one at hand
-- on, spell the functions that it gives, one after the other, each with its parameters, its type and
-- its body; and it stands at a token `eof`, which the lexer gave at the end of the source or at a
-- byte that begins no token. What is behind such a byte is not read.
pub parse_program-Ensures :
    (src : Bytes) (p : Parser)
    → IsLexed src p
    → Ensures
        (λ r.
          Goes (SpellsProgram r.0) p r.1
          × (kind_is eof r.1 ≡ true)
          × (r.1.had_error ≡ false → IsStopped src r.1))
        (parse_program p)
unfolding parse_program
parse_program-Ensures src p l =
    Ensures-map (program_loop-Ensures (rounds p) p (ground arith))
      λ (fns, q) (a, e). (a, e, λ ok. let (ts, t, x) = a.sound ok in Takes-IsStopped l t e)
