-- ===== src/Aegc0/Parser.antt =====
-- The state of the seed parser and its smallest steps (src/seed/aegc0/parser.c, parser.h). The
-- arena is left out: a node is the value it holds. Messages are left out, `had_error` is kept.

pub mod Steps
pub mod Lexed
use nullprt.Aegc0.Lexer.{lexer_init, Lexer, lexer_next}
use nullprt.Base.{
  true, false, none, some, codes, bytes_eq, ◌&&◌, if◌then◌else◌, Option, Bytes, Bool,
}
use nullprt.Aegc0.Token.{TokenKind, ident, Token, is}
use nullprt.Aegc0.Ast.{TypeKind, i32, u64, void}

pub record Parser : Type 0 where
  pub lx : Lexer
  pub cur : Token
  pub had_error : Bool

unfoldable pub next : Parser → Parser
next p = record { lx = (lexer_next p.lx).1; cur = (lexer_next p.lx).0; had_error = p.had_error }

unfoldable pub perr : Parser → Parser
perr p = record { lx = p.lx; cur = p.cur; had_error = true }

abbrev pub kind_is : TokenKind → Parser → Bool
kind_is k p = is p.cur.kind k

-- `if (accept(p, k)) taken else other`
unfoldable pub accept : {A : Type 0} → TokenKind → Parser → (Parser → A) → (Parser → A) → A
accept k p taken other = elim (kind_is k p) [ true ↦ taken (next p) | false ↦ other p ]

unfoldable pub expect : TokenKind → Parser → Parser
unfolding next perr
expect k p = if kind_is k p then next p else perr p

-- Every read of an identifier: its text, whatever the token is, and `expect(p, TK_IDENT, ...)`.
unfoldable pub expect_name : Parser → Bytes × Parser
unfolding expect
expect_name p = (p.cur.text, expect ident p)

unfoldable pub parse_type : Parser → TypeKind × Parser
unfolding next perr
parse_type p =
    if kind_is ident p && bytes_eq p.cur.text (codes "i32")
    then (i32, next p)
    else if kind_is ident p && bytes_eq p.cur.text (codes "u64")
    then (u64, next p)
    else (void, next (perr p))

unfoldable pub parser_init : Bytes → Parser
unfolding next lexer_init
parser_init src = record {
  lx = (lexer_next (lexer_init src)).1;
  cur = (lexer_next (lexer_init src)).0;
  had_error = false;
}

-- A result and the state after it, or `none` where the fuel ran out.
abbrev pub Outcome : Type 0 → Type 0
Outcome A = Option (A × Parser)

infixl 5 ◌>>=◌
abbrev pub ◌>>=◌ : {A B : Type 0} → Outcome A → (A × Parser → Outcome B) → Outcome B
none >>= f = none
some r >>= f = f r
