-- ===== src/Aegc0/Lexer/Progress.antt =====
-- The seed lexer only reads forward, and takes a byte for every token but `eof`
-- (src/seed/aegc0/lexer.c).
use nullprt.Aegc0.Lexer.{
  is_ident_start, single_kind, peek2, in_string, in_comment, double_kind, punct_kind, is_space, eof,
  make_tok, is, at_blank, bump, lex_at, lex_ident, lex_int, lex_string, lexer_next, skip_blank,
  skip_ws_and_comments, string_step, peek, bump_while, Lexer,
}
use nullprt.Base.{
  is_digit, not, ◌+◌, ◌&&◌, while_inv, Bool-cases, while, [], ◌∷◌, true, false, inl, inr, refl,
  Bytes, ◌<◌, ◌≡◌, ◌==◌, while_keeps, arith, ◌≤◌, length, Bool,
}
use nullprt.Aegc0.Token.{kind_value}

-- `b` is reached from `a` by calls of `bump` alone.
pub data Bumps (a : Lexer) : Lexer → Type 0 where
  here : Bumps a a
  more : {b : Lexer} → Bumps a b → Bumps a (bump b)

pub Bumps-trans : {a b c : Lexer} → Bumps a b → Bumps b c → Bumps a c
Bumps-trans r here = r
Bumps-trans r (more s) = more (Bumps-trans r s)

-- At a byte that is not NUL `bump` takes it, elsewhere nothing.
bump_rest :
    (lx : Lexer)
    → (length (bump lx).rest ≤ length lx.rest)
      × ((peek lx == 0) ≡ false → length (bump lx).rest < length lx.rest)
unfolding bump
bump_rest lx = by_rest lx.rest refl
  where
    by_rest :
        (r : Bytes)
        → lx.rest ≡ r
        → (length (bump lx).rest ≤ length lx.rest)
          × ((peek lx == 0) ≡ false → length (bump lx).rest < length lx.rest)
    by_rest [] e = (ground arith, λ h. ground arith)
    by_rest (c ∷ r) e = (ground arith, λ h. ground arith)

pub Bumps-le : {a b : Lexer} → Bumps a b → length b.rest ≤ length a.rest
Bumps-le here = omega arith
Bumps-le (more {b} r) = omega (arith, (bump_rest b).0, Bumps-le r)

bump_while-Bumps : (test : Lexer → Bool) (a : Lexer) → Bumps a (bump_while test a)
bump_while-Bumps test a = while_keeps (Bumps a) test bump (λ s r t. more r) _ a here

skip_blank-Bumps : (lx : Lexer) → Bumps (bump lx) (skip_blank lx)
unfolding skip_blank
skip_blank-Bumps lx = elim (Bool-cases (is_space (peek lx))) [
  | inl e ↦ rw e here
  | inr e ↦ rw e (Bumps-trans (more here) (bump_while-Bumps in_comment (bump (bump lx))))
]

skip_blank_shrinks :
    (lx : Lexer) → at_blank lx ≡ true → length (skip_blank lx).rest < length lx.rest
skip_blank_shrinks lx h =
    omega (arith, Bumps-le (skip_blank-Bumps lx), (bump_rest lx).1 (ground arith))

-- From any state the loop over blanks and comments only reads bytes, and it ends where neither a
-- blank nor a comment begins.
pub skip_ws_and_comments_stops :
    (lx : Lexer) → Bumps lx (skip_ws_and_comments lx) × (at_blank (skip_ws_and_comments lx) ≡ false)
unfolding skip_ws_and_comments
skip_ws_and_comments_stops lx =
    while_inv (Bumps lx) (λ s. length s.rest) at_blank skip_blank
      (λ s r t.
        (Bumps-trans r (Bumps-trans (more here) (skip_blank-Bumps s)), skip_blank_shrinks s t))
      _ lx (omega arith) here

string_step-Bumps : (lx : Lexer) → Bumps lx (string_step lx)
unfolding string_step
string_step-Bumps lx = elim (Bool-cases (peek lx == b'\\' && not (peek2 lx == 0))) [
  | inl e ↦ rw e (more (more here))
  | inr e ↦ rw e (more here)
]

lex_string-Bumps : (s : Lexer) → Bumps (bump s) (lex_string s).1
unfolding lex_string
lex_string-Bumps s = elim (Bool-cases (peek ed == b'"')) [
  | inl e ↦ rw e (more inside)
  | inr e ↦ rw e inside
]
  where
    ed : Lexer
    ed = while (length (bump s).rest + 1) in_string string_step (bump s)

    inside : Bumps (bump s) ed
    inside =
        while_keeps (Bumps (bump s)) in_string string_step
          (λ lx r t. Bumps-trans r (string_step-Bumps lx)) _ _ here

pub lex_at_end : (s : Lexer) → (peek s == 0) ≡ true → lex_at s ≡ (make_tok eof s s s s, s)
unfolding lex_at
lex_at_end s h = rw h

pub lex_at-Bumps : (s : Lexer) → (peek s == 0) ≡ false → Bumps (bump s) (lex_at s).1
unfolding lex_at lex_ident lex_int
lex_at-Bumps s h = elim (Bool-cases (is (punct_kind (peek s)) eof)) [
  | inr e ↦ rw (h, e) here
  | inl e ↦ elim (Bool-cases (is (double_kind (peek s) (peek2 s)) eof)) [
    | inr e1 ↦ rw (h, e, e1) (more here)
    | inl e1 ↦ elim (Bool-cases (is (single_kind (peek s)) eof)) [
      | inr e2 ↦ rw (h, e, e1, e2) here
      | inl e2 ↦ elim (Bool-cases (peek s == b'"')) [
        | inl e3 ↦ rw (h, e, e1, e2, e3) (lex_string-Bumps s)
        | inr e3 ↦ elim (Bool-cases (is_ident_start (peek s))) [
          | inl e4 ↦ rw (h, e, e1, e2, e3, e4) (bump_while-Bumps _ (bump s))
          | inr e4 ↦ elim (Bool-cases (is_digit (peek s))) [
            | inl e5 ↦ rw (h, e, e1, e2, e3, e4, e5) (bump_while-Bumps _ (bump s))
            | inr e5 ↦ rw (h, e, e1, e2, e3, e4, e5) here
          ]
        ]
      ]
    ]
  ]
]

-- A call of the lexer never goes back, and a token of any kind but `eof` takes at least one byte.
pub lexer_next_shrinks :
    (lx : Lexer)
    → (length (lexer_next lx).1.rest ≤ length lx.rest)
      × (is (lexer_next lx).0.kind eof ≡ false → length (lexer_next lx).1.rest < length lx.rest)
unfolding lexer_next
lexer_next_shrinks lx = by_peek (peek s == 0) refl
  where
    s : Lexer
    s = skip_ws_and_comments lx

    eof_is_eof : is eof eof ≡ true
    eof_is_eof = unfold kind_value in refl

    by_peek :
        (b : Bool)
        → (peek s == 0) ≡ b
        → (length (lex_at s).1.rest ≤ length lx.rest)
          × (is (lex_at s).0.kind eof ≡ false → length (lex_at s).1.rest < length lx.rest)
    by_peek true e =
        rw (lex_at_end s e) (Bumps-le (skip_ws_and_comments_stops lx).0, λ h. cc (h, eof_is_eof))
    by_peek false e =
        let a = Bumps-le (skip_ws_and_comments_stops lx).0 in
        let b = Bumps-le (lex_at-Bumps s e) in
        let c = (bump_rest s).1 e in (omega arith, λ h. omega arith)
