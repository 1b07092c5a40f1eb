-- ===== src/Aegc1/Lexer.antt =====
-- `a1_lexer_next` of `aegc1`'s lexer (src/self/aegc1/frontend/lexer.c).
pub mod Progress
pub mod Positions
use nullprt.Base.{
  ◌+◌, ◌-◌, Bool, not, ◌&&◌, ◌||◌, if◌then◌else◌, ◌==◌, is_alpha, is_alnum, is_digit, take, length,
  while,
}
use nullprt.Aegc1.Cursor.{Lexer, p1, p2, pos_now, bump, bump_while, skip_ws_comments}
use nullprt.Aegc1.Kinds.{keyword_kind, double_kind, single_kind}
use nullprt.Aegc1.Token.{TokenKind, eof, int, string, is, Token}

-- The token that starts at `st`, ends at `ed`, and whose text is the bytes between `from` and `upto`.
abbrev pub tk : TokenKind → Lexer → Lexer → Lexer → Lexer → Token
tk kind st ed from upto = record {
  kind = kind;
  text = record { ptr = from.i; bytes = take (upto.i - from.i) from.rest };
  span = record { start = pos_now st; finish = pos_now ed };
}

-- An operator of two bytes, or of one.
abbrev pub two_bytes : TokenKind → Lexer → Token × Lexer
two_bytes kind s = let e = bump (bump s) in (tk kind s e s e, e)

abbrev pub one_byte : TokenKind → Lexer → Token × Lexer
one_byte kind s = let e = bump s in (tk kind s e s e, e)

abbrev pub in_string : Lexer → Bool
in_string lx = not (p1 lx == 0) && not (p1 lx == b'"')

-- An escaped byte is read with its backslash, whatever it is.
unfoldable pub string_step : Lexer → Lexer
string_step lx = if p1 lx == b'\\' && not (p2 lx == 0) then bump (bump lx) else bump lx

unfoldable pub lex_string : Lexer → Token × Lexer
unfolding string_step
lex_string s =
    let st = bump s in
    let ed = while (length st.rest + 1) in_string string_step st in
    let e = if p1 ed == b'"' then bump ed else ed in (tk string s e st ed, e)

abbrev pub in_word : Lexer → Bool
in_word lx = is_alnum (p1 lx) || p1 lx == b'_'

unfoldable pub lex_word : Lexer → Token × Lexer
lex_word s =
    let ed = bump_while in_word (bump s) in
    (tk (keyword_kind (take (ed.i - s.i) s.rest)) s ed s ed, ed)

abbrev pub in_number : Lexer → Bool
in_number lx = is_digit (p1 lx)

unfoldable pub lex_number : Lexer → Token × Lexer
lex_number s = let ed = bump_while in_number (bump s) in (tk int s ed s ed, ed)

-- What stands at `s` is neither blank nor a comment. A byte that starts no token is read, and
-- its token has the kind `eof`.
unfoldable pub lex_at : Lexer → Token × Lexer
unfolding lex_string lex_word lex_number
lex_at s =
    let c = p1 s in
    let double = double_kind c (p2 s) in
    let single = single_kind c in
    if c == 0
    then (tk eof s s s s, s)
    else if not (is double eof)
    then two_bytes double s
    else if not (is single eof)
    then one_byte single s
    else if c == b'"'
    then lex_string s
    else if is_alpha c || c == b'_'
    then lex_word s
    else if is_digit c
    then lex_number s
    else one_byte eof s

unfoldable pub next : Lexer → Token × Lexer
next lx = lex_at (skip_ws_comments lx)
