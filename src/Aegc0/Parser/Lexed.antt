-- ===== src/Aegc0/Parser/Lexed.antt =====
-- Where the tokens of the seed parser stand in the source, and where the parser finds `eof`
-- (src/seed/aegc0/parser.c, lexer.c).
use nullprt.Aegc0.Lexer.{bump, lexer_init, lexer_next, Lexer, lex_at, skip_ws_and_comments, peek}
use nullprt.Aegc0.Parser.{next, parser_init, is, Parser, kind_is, Token}
use nullprt.Base.{
  [], ◌∷◌, true, inl, inr, refl, ◌∙◌, ◌==◌, arith, Bool-cases, Bytes, ◌≡◌, ◌++◌, List, append_assoc,
}
use nullprt.Aegc0.Token.{eof, is}
use mathlib.Core.Path.{ap, sym}
use nullprt.Aegc0.Lexer.Progress.{
  Bumps, skip_ws_and_comments_stops, lex_at-Bumps, lex_at_end, here, more,
}
use nullprt.Aegc0.Lexer.Stops.{Stop, lex_at-Stop}
use nullprt.Aegc0.Parser.Steps.{Takes, done, token}

-- The lexer stands behind some bytes of the source.
abbrev pub Within : Bytes → Lexer → Type 0
Within src lx = (before : Bytes) × (src ≡ before ++ lx.rest)

-- The lexer gave the token at hand, at some place of the source, and stands behind it.
pub record IsLexed (src : Bytes) (p : Parser) : Type 0 where
  pub place : Lexer
  pub place_within : Within src place
  pub cur : p.cur ≡ (lex_at place).0
  pub within : Within src p.lx

-- The token at hand was read where the source ends, or where a byte begins no token.
pub record IsStopped (src : Bytes) (q : Parser) : Type 0 where
  pub place : Lexer
  pub within : Within src place
  pub cur : q.cur ≡ (lex_at place).0
  pub stop : Stop place.rest

bump-Within : (src : Bytes) (lx : Lexer) → Within src lx → Within src (bump lx)
unfolding bump
bump-Within src lx (before, e) = by_rest lx.rest refl
  where
    by_rest : (r : Bytes) → lx.rest ≡ r → Within src (bump lx)
    by_rest [] h = (before, ground (arith, e))
    by_rest (c ∷ r) h = elim (Bool-cases (c == 0)) [
      | inl z ↦ (before, rw (h, z) (e ∙ ap (λ x. before ++ x) h))
      | inr z ↦ elim (Bool-cases (c == b'\n')) [
        | inl n ↦ (
          before ++ (c ∷ []),
          rw (h, z, n) (e ∙ ap (λ x. before ++ x) h ∙ sym (append_assoc before (c ∷ []) r)),
        )
        | inr n ↦ (
          before ++ (c ∷ []),
          rw (h, z, n) (e ∙ ap (λ x. before ++ x) h ∙ sym (append_assoc before (c ∷ []) r)),
        )
      ]
    ]

Bumps-Within : {a b : Lexer} (src : Bytes) → Bumps a b → Within src a → Within src b
Bumps-Within src here w = w
Bumps-Within src (more {b} r) w = bump-Within src b (Bumps-Within src r w)

lex_at-Within : (src : Bytes) (s : Lexer) → Within src s → Within src (lex_at s).1
lex_at-Within src s w = elim (Bool-cases (peek s == 0)) [
  | inl e ↦ rw (lex_at_end s e) w
  | inr e ↦ Bumps-Within src (lex_at-Bumps s e) (bump-Within src s w)
]

skip-Within : (src : Bytes) (lx : Lexer) → Within src lx → Within src (skip_ws_and_comments lx)
skip-Within src lx w = Bumps-Within src (skip_ws_and_comments_stops lx).0 w

next-IsLexed : (src : Bytes) (p : Parser) → Within src p.lx → IsLexed src (next p)
unfolding next lexer_next
next-IsLexed src p w = record {
  place = skip_ws_and_comments p.lx;
  place_within = skip-Within src p.lx w;
  cur = refl;
  within = lex_at-Within src _ (skip-Within src p.lx w);
}

pub parser_init-IsLexed : (src : Bytes) → IsLexed src (parser_init src)
unfolding parser_init lexer_next lexer_init
parser_init-IsLexed src =
    let w : Within src (lexer_init src) = ([], refl) in
    record {
      place = skip_ws_and_comments (lexer_init src);
      place_within = skip-Within src _ w;
      cur = refl;
      within = lex_at-Within src _ (skip-Within src _ w);
    }

Takes-IsLexed :
    {src : Bytes} {q p : Parser} {ts : List Token} → Takes q p ts → IsLexed src p → IsLexed src q
Takes-IsLexed done l = l
Takes-IsLexed {src} (token {p} h) l = Takes-IsLexed h (next-IsLexed src p l.within)

-- After tokens without an error, `eof` says that the source ends there or a byte begins no token.
pub Takes-IsStopped :
    {src : Bytes} {p q : Parser} {ts : List Token}
    → IsLexed src p
    → Takes q p ts
    → kind_is eof q ≡ true
    → IsStopped src q
Takes-IsStopped l t e =
    let m = Takes-IsLexed t l in
    record {
      place = m.place;
      within = m.place_within;
      cur = m.cur;
      stop = lex_at-Stop m.place (sym (ap (λ t. is t.kind eof) m.cur) ∙ e);
    }
