-- ===== src/Aegc1/Cursor.antt =====
-- The state of `aegc1`'s lexer and what moves it over the source (src/self/aegc1/frontend/lexer.c).
-- `src[i..len)` is the field `rest`; `i` counts the bytes read, and `line` and `col` wrap around as
-- `uint32_t` does.
pub mod Moves
use nullprt.Base.{
  ℕ, ◌+◌, ◌%◌, ◌^◌, Bool, not, ◌&&◌, ◌||◌, [], ◌∷◌, if◌then◌else◌, ◌==◌, Bytes, length, while,
}
use nullprt.Aegc1.Token.{SourcePos}

pub record Lexer : Type 0 where
  pub rest : Bytes
  pub i : ℕ
  pub line : ℕ
  pub col : ℕ

abbrev pub u32 : ℕ → ℕ
u32 n = n % 2 ^ 32

abbrev pub pos_now : Lexer → SourcePos
pos_now lx = record { line = lx.line; col = lx.col }

-- Past the end both look-aheads read 0.
abbrev pub first : Bytes → ℕ
first [] = 0
first (c ∷ r) = c

abbrev pub second : Bytes → ℕ
second [] = 0
second (c ∷ r) = first r

abbrev pub p1 : Lexer → ℕ
p1 lx = first lx.rest

abbrev pub p2 : Lexer → ℕ
p2 lx = second lx.rest

bump_at : Bytes → Lexer → Lexer
bump_at [] lx = lx
bump_at (c ∷ r) lx =
    if c == 0
    then lx
    else if c == b'\n'
    then record { rest = r; i = lx.i + 1; line = u32 (lx.line + 1); col = 1 }
    else record { rest = r; i = lx.i + 1; line = lx.line; col = u32 (lx.col + 1) }

unfoldable pub bump : Lexer → Lexer
unfolding bump_at
bump lx = bump_at lx.rest lx

-- `while (test) bump(lx)`: each round reads a byte, and every test here fails at the end.
abbrev pub bump_while : (Lexer → Bool) → Lexer → Lexer
bump_while test lx = while (length lx.rest + 1) test bump lx

abbrev pub is_space : ℕ → Bool
is_space c = c == b' ' || (c == b'\t' || (c == b'\r' || c == b'\n'))

abbrev pub in_line_comment : Lexer → Bool
in_line_comment lx = not (p1 lx == 0) && not (p1 lx == b'\n')

abbrev pub in_block_comment : Lexer → Bool
in_block_comment lx = not (p1 lx == 0) && not (p1 lx == b'*' && p2 lx == b'/')

unfoldable pub skip_line_comment : Lexer → Lexer
skip_line_comment lx = bump_while in_line_comment lx

unfoldable pub skip_block_comment : Lexer → Lexer
skip_block_comment lx =
    let end = bump_while in_block_comment (bump (bump lx)) in
    if p1 end == 0 then end else bump (bump end)

-- Whether the loop of `skip_ws_comments` goes round again.
abbrev pub at_blank : Lexer → Bool
at_blank lx = is_space (p1 lx) || (p1 lx == b'/' && (p2 lx == b'/' || p2 lx == b'*'))

-- One round of the loop.
unfoldable pub skip_blank : Lexer → Lexer
unfolding skip_line_comment skip_block_comment
skip_blank lx =
    if is_space (p1 lx)
    then bump lx
    else if p2 lx == b'/'
    then skip_line_comment lx
    else skip_block_comment lx

unfoldable pub skip_ws_comments : Lexer → Lexer
skip_ws_comments lx = while (length lx.rest + 1) at_blank skip_blank lx

unfoldable pub init : Bytes → Lexer
init src = record { rest = src; i = 0; line = 1; col = 1 }
