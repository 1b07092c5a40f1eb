-- ===== src/Aegc1/Parser/Runs.antt =====
-- What the parser of `aegc1` does to its state: it reads tokens and records errors, and each of
-- its loops ends by its own test (frontend/parser.c).
use nullprt.Base.{
  while_done, while_round, ℕ, ◌+◌, ◌≤◌, ◌<◌, ◌≡◌, refl, Bool, true, false, not, ◌&&◌, ◌||◌, ◌==◌,
  ltb, if◌then◌else◌, length, arith, Bool-cases, inl, inr, while, while_keeps, while_inv,
}
use nullprt.Aegc1.Token.{
  kind_value, TokenKind, eof, lt, gt, lbrace, rbrace, semi, hash, bang, lbrack, rbrack, kw_where,
  is,
}
use nullprt.Aegc1.Lexer.Progress.{next-Reads, next_shrinks}
use nullprt.Aegc1.Cursor.Moves.{Reads-le}
use nullprt.Aegc1.Parser.{
  Parser, kind_is, advance, parse_error, accept, budget, skip_until, Nesting, balanced_step,
  balanced_loop, skip_balanced, parse_generic_params_if_any, skip_item_body, attribute_step,
  parse_attributes_or_cfg, parse_where_clause_if_any,
}

-- `b` is reached from `a` by reading tokens and recording errors.
pub data Runs (a : Parser) : Parser → Type 0 where
  here : Runs a a
  read : {b : Parser} → Runs a b → Runs a (advance b)
  fail : {b : Parser} → Runs a b → Runs a (parse_error b)

pub Runs-trans : {a b c : Parser} → Runs a b → Runs b c → Runs a c
Runs-trans r here = r
Runs-trans r (read s) = read (Runs-trans r s)
Runs-trans r (fail s) = fail (Runs-trans r s)

-- The bytes that are left, and the token at hand.
abbrev pub left : Parser → ℕ
left p = length p.lx.rest + (if kind_is eof p then 0 else 1)

pub advance-le : (p : Parser) → left (advance p) ≤ left p
unfolding advance
advance-le p = ground (arith, next_shrinks p.lx, Reads-le (next-Reads p.lx))

pub advance_shrinks : (p : Parser) → kind_is eof p ≡ false → left (advance p) < left p
unfolding advance
advance_shrinks p h = ground (arith, next_shrinks p.lx, Reads-le (next-Reads p.lx))

pub Runs-le : {a b : Parser} → Runs a b → left b ≤ left a
Runs-le here = omega arith
Runs-le (read {b} r) = omega (arith, advance-le b, Runs-le r)
Runs-le (fail r) = Runs-le r

pub accept-Runs : (k : TokenKind) (p : Parser) → Runs p (accept k p).0
unfolding accept
accept-Runs k p = elim (Bool-cases (kind_is k p)) [ inl e ↦ rw e (read here) | inr e ↦ rw e here ]

pub skip_until-Runs : (stop : TokenKind → Bool) (p : Parser) → Runs p (skip_until stop p)
unfolding skip_until
skip_until-Runs stop p = while_keeps (Runs p) _ advance (λ q r _. read r) _ p here

-- `skip_until` ends at the end of the input or where it is told to stop.
pub skip_until_stops :
    (stop : TokenKind → Bool) (p : Parser)
    → (not (kind_is eof (skip_until stop p)) && not (stop (skip_until stop p).cur.kind)) ≡ false
unfolding skip_until
skip_until_stops stop p =
    (while_inv (λ q. Unit {0}) left (λ q. not (kind_is eof q) && not (stop q.cur.kind)) advance
      (λ q _ t. (tt, advance_shrinks q (ground arith))) _ p (ground arith) tt).1

pub balanced_loop_lem :
    (opener closer : TokenKind) (s : Nesting)
    → Runs s.at (balanced_loop opener closer s).at
      × ((not (kind_is eof (balanced_loop opener closer s).at)
            && ltb 0 (balanced_loop opener closer s).depth)
          ≡ false)
unfolding balanced_loop
balanced_loop_lem opener closer s =
    while_inv (λ t. Runs s.at t.at) (λ t. left t.at) (λ t. not (kind_is eof t.at) && ltb 0 t.depth)
      (balanced_step opener closer) (λ t r h. (read r, advance_shrinks t.at (ground arith))) _ s
      (ground arith) here

pub skip_balanced-Runs :
    (opener closer : TokenKind) (p : Parser) → Runs p (skip_balanced opener closer p)
unfolding skip_balanced
skip_balanced-Runs opener closer p =
    Runs-trans (accept-Runs opener p) (balanced_loop_lem opener closer _).0

pub parse_generic_params_if_any-Runs : (p : Parser) → Runs p (parse_generic_params_if_any p)
unfolding parse_generic_params_if_any
parse_generic_params_if_any-Runs p = elim (Bool-cases (accept lt p).1) [
  | inl e ↦ rw e (Runs-trans (accept-Runs lt p) (balanced_loop_lem lt gt _).0)
  | inr e ↦ rw e (accept-Runs lt p)
]

pub skip_item_body-Runs : (p : Parser) → Runs p (skip_item_body p)
unfolding skip_item_body
skip_item_body-Runs p = elim (Bool-cases (kind_is lbrace p)) [
  | inl e ↦ rw e (skip_balanced-Runs lbrace rbrace p)
  | inr e ↦ rw e (Runs-trans (skip_until-Runs (λ k. is k semi) p) (accept-Runs semi _))
]

attribute_step-Runs : (p : Parser) → Runs (advance p) (attribute_step p)
unfolding attribute_step
attribute_step-Runs p = elim (Bool-cases (accept lbrack q).1) [
  | inl e ↦
      rw e (
        Runs-trans opened
          (Runs-trans (skip_until-Runs (λ k. is k rbrack) _) (accept-Runs rbrack _)))
  | inr e ↦ rw e opened
]
  where
    q : Parser
    q = (accept bang (advance p)).0

    opened : Runs (advance p) (accept lbrack q).0
    opened = Runs-trans (accept-Runs bang (advance p)) (accept-Runs lbrack q)

-- Two kinds with distinct numbers are not both at hand.
pub kind_excludes :
    (j k : TokenKind) (p : Parser)
    → (kind_value j == kind_value k) ≡ false
    → kind_is j p ≡ true
    → kind_is k p ≡ false
kind_excludes j k p h e = ground arith

attribute_step_shrinks : (p : Parser) → kind_is hash p ≡ true → left (attribute_step p) < left p
attribute_step_shrinks p h = omega (
  arith,
  Runs-le (attribute_step-Runs p),
  advance_shrinks p (kind_excludes hash eof p (unfold kind_value in refl) h),
)

-- The loop over attributes ends where no `#` is at hand.
pub parse_attributes_or_cfg_lem :
    (p : Parser)
    → Runs p (parse_attributes_or_cfg p) × (kind_is hash (parse_attributes_or_cfg p) ≡ false)
unfolding parse_attributes_or_cfg
parse_attributes_or_cfg_lem p =
    while_inv (Runs p) left (kind_is hash) attribute_step
      (λ q r t.
        (Runs-trans r (Runs-trans (read here) (attribute_step-Runs q)), attribute_step_shrinks q t))
      _ p (ground arith) here

-- With a `#` at hand it reads at least one token.
pub parse_attributes_or_cfg_shrinks :
    (p : Parser) → kind_is hash p ≡ true → left (parse_attributes_or_cfg p) < left p
unfolding parse_attributes_or_cfg
parse_attributes_or_cfg_shrinks p h =
    let e : budget p ≡ length p.lx.rest + 1 + 1 = omega arith in
    let r : Runs (attribute_step p)
        (while (length p.lx.rest + 1) (kind_is hash) attribute_step (attribute_step p)) =
      while_keeps (Runs (attribute_step p)) (kind_is hash) attribute_step
        (λ q r _. Runs-trans r (Runs-trans (read here) (attribute_step-Runs q))) _ _ here in
    rw (e, while_round (length p.lx.rest + 1) (kind_is hash) attribute_step p h)
      (omega (arith, Runs-le r, attribute_step_shrinks p h))

pub parse_where_clause_if_any-Runs : (p : Parser) → Runs p (parse_where_clause_if_any p)
unfolding parse_where_clause_if_any
parse_where_clause_if_any-Runs p = elim (Bool-cases (accept kw_where p).1) [
  | inl e ↦
      rw e (Runs-trans (accept-Runs kw_where p) (skip_until-Runs (λ k. is k lbrace || is k semi) _))
  | inr e ↦ rw e (accept-Runs kw_where p)
]

-- With no `#` at hand it does nothing.
pub parse_attributes_or_cfg_none :
    (p : Parser) → kind_is hash p ≡ false → parse_attributes_or_cfg p ≡ p
unfolding parse_attributes_or_cfg
parse_attributes_or_cfg_none p h = while_done (budget p) (kind_is hash) attribute_step p h
