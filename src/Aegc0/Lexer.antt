-- ===== src/Aegc0/Lexer.antt =====
-- The lexer of the seed compiler (src/seed/aegc0/lexer.c, lexer.h). `src[i..len)` is the field
-- `rest`; `i` counts the bytes read, `line` and `col` wrap around as `uint32_t` does.
pub mod Progress
pub mod Stops
use nullprt.Base.{
  ◌+◌, ◌&&◌, is_alpha, is_alnum, codes, ◌||◌, ◌^◌, ◌==◌, ◌-◌, ◌*◌, not, length, bytes_eq, ◌%◌,
  while, take, is_digit, if◌then◌else◌, Bytes, Bool, zero, suc, [], ◌∷◌, true, false, none, some,
  inl, inr, refl, ℕ,
}
use nullprt.Aegc0.Token.{
  TokenKind, eof, ident, int, string, kw_fn, kw_let, kw_extern, kw_return, kw_if, kw_else, kw_while,
  lparen, rparen, lbrace, rbrace, colon, semi, comma, arrow, assign, plus, minus, star, slash,
  percent, eqeq, neq, lt, lte, gt, gte, andand, oror, bang, is, SrcLoc, Token,
}

pub record Lexer : Type 0 where
  pub rest : Bytes
  pub i : ℕ
  pub line : ℕ
  pub col : ℕ

abbrev pub loc_here : Lexer → SrcLoc
loc_here lx = record { line = lx.line; col = lx.col }

-- Past the end both read 0.
abbrev pub head_or : Bytes → ℕ
head_or [] = 0
head_or (c ∷ r) = c

abbrev second_or : Bytes → ℕ
second_or [] = 0
second_or (c ∷ r) = head_or r

abbrev pub peek : Lexer → ℕ
peek lx = head_or lx.rest

abbrev pub peek2 : Lexer → ℕ
peek2 lx = second_or lx.rest

abbrev pub u32 : ℕ → ℕ
u32 n = n % 2 ^ 32

unfoldable pub bump_at : Bytes → Lexer → Lexer
bump_at [] lx = lx
bump_at (c ∷ r) lx =
    if c == 0
    then lx
    else if c == b'\n'
    then record { rest = r; i = lx.i + 1; line = u32 (lx.line + 1); col = 1 }
    else record { rest = r; i = lx.i + 1; line = lx.line; col = u32 (lx.col + 1) }

unfoldable pub bump : Lexer → Lexer
unfolding bump_at
bump lx = bump_at lx.rest lx

-- `while (test) bump(lx)`: each round reads a byte, and every test here fails at the end.
abbrev pub bump_while : (Lexer → Bool) → Lexer → Lexer
bump_while test lx = while (length lx.rest + 1) test bump lx

abbrev pub is_space : ℕ → Bool
is_space c = c == b' ' || (c == b'\t' || (c == b'\r' || c == b'\n'))

abbrev pub in_comment : Lexer → Bool
in_comment lx = not (peek lx == 0) && not (peek lx == b'\n')

-- Whether the loop of `skip_ws_and_comments` goes round again.
abbrev pub at_blank : Lexer → Bool
at_blank lx = is_space (peek lx) || (peek lx == b'/' && peek2 lx == b'/')

-- One round of the loop.
unfoldable pub skip_blank : Lexer → Lexer
skip_blank lx = if is_space (peek lx) then bump lx else bump_while in_comment (bump (bump lx))

unfoldable pub skip_ws_and_comments : Lexer → Lexer
skip_ws_and_comments lx = while (length lx.rest + 1) at_blank skip_blank lx

unfoldable pub lexer_init : Bytes → Lexer
lexer_init src = record { rest = src; i = 0; line = 1; col = 1 }

-- The token that starts at `st` and ends at `ed`, with the bytes between `from` and `upto`.
abbrev pub make_tok : TokenKind → Lexer → Lexer → Lexer → Lexer → Token
make_tok kind st ed from upto = record {
  kind = kind;
  span = record { start = loc_here st; end = loc_here ed };
  text = take (upto.i - from.i) from.rest;
  int_value = 0;
}

abbrev pub is_ident_start : ℕ → Bool
is_ident_start c = c == b'_' || is_alpha c

abbrev pub is_ident_continue : ℕ → Bool
is_ident_continue c = c == b'_' || is_alnum c

unfoldable pub kw_kind : Bytes → TokenKind
kw_kind s =
    if bytes_eq s (codes "fn")
    then kw_fn
    else if bytes_eq s (codes "let")
    then kw_let
    else if bytes_eq s (codes "extern")
    then kw_extern
    else if bytes_eq s (codes "return")
    then kw_return
    else if bytes_eq s (codes "if")
    then kw_if
    else if bytes_eq s (codes "else")
    then kw_else
    else if bytes_eq s (codes "while")
    then kw_while
    else ident

-- The kind of the byte `c` before `d` where these make an operator of two bytes; `eof` for none.
unfoldable pub double_kind : ℕ → ℕ → TokenKind
double_kind c d =
    if c == b'-' && d == b'>'
    then arrow
    else if c == b'=' && d == b'='
    then eqeq
    else if c == b'!' && d == b'='
    then neq
    else if c == b'<' && d == b'='
    then lte
    else if c == b'>' && d == b'='
    then gte
    else if c == b'&' && d == b'&'
    then andand
    else if c == b'|' && d == b'|'
    then oror
    else eof

-- The punctuation, which is tried before the operators of two bytes.
unfoldable pub punct_kind : ℕ → TokenKind
punct_kind c =
    if c == b'('
    then lparen
    else if c == b')'
    then rparen
    else if c == b'{'
    then lbrace
    else if c == b'}'
    then rbrace
    else if c == b':'
    then colon
    else if c == b';'
    then semi
    else if c == b','
    then comma
    else eof

-- The operators of one byte.
unfoldable pub single_kind : ℕ → TokenKind
single_kind c =
    if c == b'='
    then assign
    else if c == b'+'
    then plus
    else if c == b'-'
    then minus
    else if c == b'*'
    then star
    else if c == b'/'
    then slash
    else if c == b'%'
    then percent
    else if c == b'<'
    then lt
    else if c == b'>'
    then gt
    else if c == b'!'
    then bang
    else eof

abbrev pub one_byte : TokenKind → Lexer → Token × Lexer
one_byte kind s = let e = bump s in (make_tok kind s e s e, e)

abbrev pub two_bytes : TokenKind → Lexer → Token × Lexer
two_bytes kind s = let e = bump (bump s) in (make_tok kind s e s e, e)

abbrev pub in_string : Lexer → Bool
in_string lx = not (peek lx == 0) && not (peek lx == b'"')

unfoldable pub string_step : Lexer → Lexer
string_step lx = if peek lx == b'\\' && not (peek2 lx == 0) then bump (bump lx) else bump lx

unfoldable pub lex_string : Lexer → Token × Lexer
unfolding string_step
lex_string s =
    let st = bump s in
    let ed = while (length st.rest + 1) in_string string_step st in
    let e = if peek ed == b'"' then bump ed else ed in (make_tok string s e st ed, e)

unfoldable pub lex_ident : Lexer → Token × Lexer
lex_ident s =
    let ed = bump_while (λ lx. is_ident_continue (peek lx)) (bump s) in
    (make_tok (kw_kind (take (ed.i - s.i) s.rest)) s ed s ed, ed)

-- The value of the digits, in a `uint64_t`; `v` stands for those before.
unfoldable pub digits_value : ℕ → Bytes → ℕ
digits_value v [] = v
digits_value v (c ∷ s) = digits_value ((v * 10 + (c - b'0')) % 2 ^ 64) s

unfoldable pub lex_int : Lexer → Token × Lexer
unfolding digits_value
lex_int s =
    let ed = bump_while (λ lx. is_digit (peek lx)) (bump s) in
    let text = take (ed.i - s.i) s.rest in
    (
      record {
        kind = int;
        span = record { start = loc_here s; end = loc_here ed };
        text = text;
        int_value = digits_value 0 text;
      },
      ed,
    )

-- What stands at `s` is neither blank nor a comment. A byte that starts no token is read, and
-- its token has the kind `eof`.
unfoldable pub lex_at : Lexer → Token × Lexer
unfolding lex_string lex_ident lex_int
lex_at s =
    let c = peek s in
    let punct = punct_kind c in
    let double = double_kind c (peek2 s) in
    let single = single_kind c in
    if c == 0
    then (make_tok eof s s s s, s)
    else if not (is punct eof)
    then one_byte punct s
    else if not (is double eof)
    then two_bytes double s
    else if not (is single eof)
    then one_byte single s
    else if c == b'"'
    then lex_string s
    else if is_ident_start c
    then lex_ident s
    else if is_digit c
    then lex_int s
    else one_byte eof s

unfoldable pub lexer_next : Lexer → Token × Lexer
lexer_next lx = lex_at (skip_ws_and_comments lx)
