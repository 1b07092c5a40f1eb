-- ===== src/Aegc1/Lexer/Progress.antt =====
-- `a1_lexer_next` reads at least one byte for each token but the last (frontend/lexer.c).
use nullprt.Base.{
  ◌+◌, ◌<◌, ◌≡◌, true, false, not, ◌&&◌, ◌||◌, ◌==◌, length, arith, Bool-cases, inl, inr, while,
  while_keeps, is_alpha, is_digit,
}
use nullprt.Aegc1.Cursor.{Lexer, p1, p2, bump, skip_ws_comments}
use nullprt.Aegc1.Cursor.Moves.{
  Reads, here, more, Reads-trans, Reads-le, bump_shrinks, bump_while-Reads, skip_ws_comments_stops,
}
use nullprt.Aegc1.Kinds.{double_kind, single_kind}
use nullprt.Aegc1.Lexer.{
  tk, two_bytes, one_byte, in_string, in_word, in_number, string_step, lex_string, lex_word,
  lex_number, lex_at, next,
}
use nullprt.Aegc1.Token.{TokenKind, eof, is, kind_value, Token}

string_step-Reads : (lx : Lexer) → Reads lx (string_step lx)
unfolding string_step
string_step-Reads lx = elim (Bool-cases (p1 lx == b'\\' && not (p2 lx == 0))) [
  | inl e ↦ rw e (more (more here))
  | inr e ↦ rw e (more here)
]

lex_string-Reads : (s : Lexer) → Reads (bump s) (lex_string s).1
unfolding lex_string
lex_string-Reads s = elim (Bool-cases (p1 ed == b'"')) [
  | inl e ↦ rw e (more inside)
  | inr e ↦ rw e inside
]
  where
    ed : Lexer
    ed = while (length (bump s).rest + 1) in_string string_step (bump s)

    inside : Reads (bump s) ed
    inside =
        while_keeps (Reads (bump s)) in_string string_step
          (λ lx r _. Reads-trans r (string_step-Reads lx)) _ _ here

-- The ways in which a token is made, to split on.
pub lex_at_cases {κ} :
    (P : Token × Lexer → Type κ) (s : Lexer)
    → ((p1 s == 0) ≡ true → P (tk eof s s s s, s))
    → ((kind : TokenKind) → P (two_bytes kind s))
    → ((kind : TokenKind) → P (one_byte kind s))
    → P (lex_string s)
    → P (lex_word s)
    → P (lex_number s)
    → P (lex_at s)
unfolding lex_at
lex_at_cases P s none two one str word num = elim (Bool-cases (p1 s == 0)) [
  | inl h ↦ rw h (none h)
  | inr h ↦ elim (Bool-cases (is (double_kind (p1 s) (p2 s)) eof)) [
    | inr e ↦ rw (h, e) (two _)
    | inl e ↦ elim (Bool-cases (is (single_kind (p1 s)) eof)) [
      | inr e1 ↦ rw (h, e, e1) (one _)
      | inl e1 ↦ elim (Bool-cases (p1 s == b'"')) [
        | inl e2 ↦ rw (h, e, e1, e2) str
        | inr e2 ↦ elim (Bool-cases (is_alpha (p1 s) || p1 s == b'_')) [
          | inl e3 ↦ rw (h, e, e1, e2, e3) word
          | inr e3 ↦ elim (Bool-cases (is_digit (p1 s))) [
            | inl e4 ↦ rw (h, e, e1, e2, e3, e4) num
            | inr e4 ↦ rw (h, e, e1, e2, e3, e4) (one eof)
          ]
        ]
      ]
    ]
  ]
]

-- A byte at hand is always read, whichever token it belongs to.
pub lex_at-Reads : (s : Lexer) → (p1 s == 0) ≡ false → Reads (bump s) (lex_at s).1
unfolding lex_word lex_number
lex_at-Reads s h =
    lex_at_cases (λ r. Reads (bump s) r.1) s (λ e. cc) (λ _. more here) (λ _. here)
      (lex_string-Reads s) (bump_while-Reads in_word (bump s)) (bump_while-Reads in_number (bump s))

lex_at_end : (s : Lexer) → (p1 s == 0) ≡ true → lex_at s ≡ (tk eof s s s s, s)
unfolding lex_at
lex_at_end s h = rw h

-- A call of the lexer only reads bytes, one after the other.
pub next-Reads : (lx : Lexer) → Reads lx (next lx).1
unfolding next
next-Reads lx = elim (Bool-cases (p1 (skip_ws_comments lx) == 0)) [
  | inl e ↦ rw (lex_at_end _ e) (skip_ws_comments_stops lx).0
  | inr e ↦ Reads-trans (skip_ws_comments_stops lx).0 (Reads-trans (more here) (lex_at-Reads _ e))
]

-- A token of any kind but `eof` takes at least one byte.
pub next_shrinks :
    (lx : Lexer) → is (next lx).0.kind eof ≡ false → length (next lx).1.rest < length lx.rest
unfolding next
next_shrinks lx h = elim (Bool-cases (p1 s == 0)) [
  | inl e ↦ absurd (eof_is_not (rw (lex_at_end s e) at h))
  | inr e ↦
      omega (
        arith,
        Reads-le (lex_at-Reads s e),
        bump_shrinks s e,
        Reads-le (skip_ws_comments_stops lx).0,
      )
]
  where
    s : Lexer
    s = skip_ws_comments lx

    eof_is_not : is eof eof ≡ false → ⊥
    eof_is_not = unfold kind_value in λ e. cc
