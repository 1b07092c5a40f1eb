-- ===== src/Aegc0/Statements/Sound.antt =====
-- The pieces of the seed parser's statements (src/seed/aegc0/parser.c): each reads on, and what it
-- reads without an error spells what it gives.
pub mod Turns
pub mod Programs
use nullprt.Aegc0.Parser.{expect, expect_name, next, parse_type, perr, kind_is, Parser}
use nullprt.Aegc0.Statements.{parse_cond, expr_fuel, rparen, lparen, expr_at, ident}
use nullprt.Base.{
  zero, suc, [], ◌∷◌, true, false, none, some, inl, inr, refl, bytes_eq_iff, codes, bytes_eq, ◌&&◌,
  Bytes, arith, ◌≤◌, ◌++◌, ◌≡◌, Bool-cases, Option, List,
}
use nullprt.Aegc0.Parser.Steps.{
  perr_next-Steps, perr-Steps, next-Steps, holds, Ensures-map, Takes-one, Takes-append,
  expect-Steps, Steps-trans, Ensures-bind, left, Takes, Steps-map, Steps, Ensures,
}
use nullprt.Aegc0.Statements.Grammar.{
  u64_name, i32_name, SpellsStmt, Seq, Cond, TypeName, Tok, Name,
}
use nullprt.Aegc0.Expressions.Sound.{parse_expr-Ensures}
use nullprt.Aegc0.Expressions.Grammar.{Spells}
use nullprt.Aegc0.Token.{Token, TokenKind}
use nullprt.Aegc0.Ast.{Stmt}

abbrev pub Read : (List Token → Type 0) → Parser → Parser → Type 0
Read X p q = (ts : List Token) × Takes q p ts × X ts

pub Read-Seq :
    {X Y : List Token → Type 0} {p q r : Parser} → Read X p q → Read Y q r → Read (Seq X Y) p r
Read-Seq (ts, t, x) (us, u, y) = (ts ++ us, Takes-append t u, (ts, us, x, y, refl))

pub Read-map :
    {X Y : List Token → Type 0} {p q : Parser}
    → ((ts : List Token) → X ts → Y ts)
    → Read X p q
    → Read Y p q
Read-map f (ts, t, x) = (ts, t, f ts x)

-- From `p` to `q`, reading `X`.
abbrev pub Goes : (List Token → Type 0) → Parser → Parser → Type 0
Goes X p q = Steps p q (Read X p q)

pub Goes-Seq :
    {X Y : List Token → Type 0} {p q r : Parser} → Goes X p q → Goes Y q r → Goes (Seq X Y) p r
Goes-Seq a b = Steps-trans a b Read-Seq

pub Goes-map :
    {X Y : List Token → Type 0} {p q : Parser}
    → ((ts : List Token) → X ts → Y ts)
    → Goes X p q
    → Goes Y p q
Goes-map f a = Steps-map (Read-map f) a

pub next-Goes : (k : TokenKind) (p : Parser) → kind_is k p ≡ true → Goes (Tok k) p (next p)
next-Goes k p h = Steps-map (λ u. (p.cur ∷ [], Takes-one p, (p.cur, h, refl))) (next-Steps p)

pub expect-Goes : (k : TokenKind) (p : Parser) → Goes (Tok k) p (expect k p)
expect-Goes k p = Steps-map (λ (t, h, u). (t ∷ [], u, (t, h, refl))) (expect-Steps k p)

pub expect_name-Goes : (p : Parser) → Goes (Name (expect_name p).0) p (expect_name p).1
unfolding expect_name expect
expect_name-Goes p = elim (Bool-cases (kind_is ident p)) [
  | inl e ↦ rw e (Steps-map (λ u. (p.cur ∷ [], Takes-one p, (p.cur, e, refl, refl))) (next-Steps p))
  | inr e ↦ rw e (perr-Steps _ p)
]

-- The test of `parse_type` for a name.
named-Goes :
    (n : Bytes) (p : Parser)
    → kind_is ident p && bytes_eq p.cur.text n ≡ true
    → Goes (Name n) p (next p)
named-Goes n p h =
    let e : kind_is ident p ≡ true = ground arith in
    let t : bytes_eq p.cur.text n ≡ true = ground arith in
    Steps-map (λ u. (p.cur ∷ [], Takes-one p, (p.cur, e, (bytes_eq_iff p.cur.text n).0 t, refl)))
      (next-Steps p)

pub parse_type-Goes : (p : Parser) → Goes (TypeName (parse_type p).0) p (parse_type p).1
unfolding parse_type
parse_type-Goes p = elim (Bool-cases (kind_is ident p && bytes_eq p.cur.text (codes "i32"))) [
  | inl e ↦ rw e (Goes-map (λ ts. i32_name) (named-Goes (codes "i32") p e))
  | inr e ↦ elim (Bool-cases (kind_is ident p && bytes_eq p.cur.text (codes "u64"))) [
    | inl e1 ↦ rw (e, e1) (Goes-map (λ ts. u64_name) (named-Goes (codes "u64") p e1))
    | inr e1 ↦ rw (e, e1) (perr_next-Steps _ p)
  ]
]

pub expr_at-Ensures : (p : Parser) → Ensures (λ r. Goes (Spells 1 r.0) p r.1) (expr_at p)
expr_at-Ensures p =
    Ensures-map (parse_expr-Ensures (expr_fuel p) p (ground arith))
      λ (e, q) s. Steps-map (λ x. x.0) s

pub parse_cond-Ensures : (p : Parser) → Ensures (λ r. Goes (Cond r.0) p r.1) (parse_cond p)
unfolding parse_cond
parse_cond-Ensures p =
    Ensures-bind (expr_at-Ensures (expect lparen p))
      λ (e, q) s. holds (Goes-Seq (expect-Goes lparen p) (Goes-Seq s (expect-Goes rparen q)))

-- A statement, or none after an error.
abbrev pub SpellsOpt : Option Stmt → List Token → Type 0
SpellsOpt none ts = ⊥
SpellsOpt (some s) ts = SpellsStmt s ts

-- A turn of the loop over statements from `p` on: it reads a statement, and one token at least.
pub record Turn (p : Parser) (r : Option Stmt × Parser) : Type 0 where
  pub goes : Goes (SpellsOpt r.0) p r.1
  pub past : left r.1 ≤ left (next p)

-- The first token `Y` of a statement, and the rest `X` of it.
pub Turn-intro :
    {X Y : List Token → Type 0} {s : Stmt} (p q : Parser)
    → Goes Y p (next p)
    → ((ts : List Token) → Seq Y X ts → SpellsStmt s ts)
    → Goes X (next p) q
    → Turn p (some s, q)
Turn-intro p q h f a = record { goes = Goes-map f (Goes-Seq h a); past = a.le }

pub perr-next-left : (p : Parser) → left (next (perr p)) ≡ left (next p)
unfolding next perr
perr-next-left p = refl
