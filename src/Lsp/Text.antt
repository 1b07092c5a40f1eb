-- ===== src/Lsp/Text.antt =====
-- Positions and words in a text, in the language server (src/lsp/nprt-lsp/main.c and index.c). A text has
-- no null byte; what is read behind its end is 0.
pub mod Around
pub mod Positions
pub mod Words
use nullprt.Base.{
  take, ◌-◌, ◌&&◌, ltb, drop, ◌||◌, ◌+◌, if◌then◌else◌, ◌==◌, is_alnum, Option, Bytes, Bool, zero,
  suc, [], ◌∷◌, true, false, none, some, inl, inr, refl, ℕ,
}
use nullprt.Base.Int.{ℤ, pos, negsuc}

unfoldable pub byte_at : Bytes → ℕ → ℕ
byte_at [] i = 0
byte_at (c ∷ s) zero = c
byte_at (c ∷ s) (suc i) = byte_at s i

unfoldable pub is_ident : ℕ → Bool
is_ident c = is_alnum c || c == b'_'

-- The loop of `offset_to_line_col`, with the bytes up to the offset to go.
unfoldable pub line_col_loop : Bytes → ℕ → ℕ → ℕ → ℕ × ℕ
line_col_loop [] offset line col = (line, col)
line_col_loop (c ∷ s) zero line col = (line, col)
line_col_loop (c ∷ s) (suc offset) line col =
    let newline = c == b'\n' in
    line_col_loop s offset (if newline then line + 1 else line) (if newline then 0 else col + 1)

unfoldable pub offset_to_line_col : Bytes → ℕ → ℕ × ℕ
offset_to_line_col text offset = line_col_loop text offset 0 0

-- The loop of `text_offset_for_position`, from the byte `i` on.
unfoldable pub offset_loop : ℕ → ℕ → Bytes → ℕ → ℕ → ℕ → Option ℕ
offset_loop line ch [] cur_line cur_ch i = if cur_line == line && cur_ch == ch then some i else none
offset_loop line ch (c ∷ s) cur_line cur_ch i = elim (cur_line == line && cur_ch == ch) [
  | true ↦ some i
  | false ↦
      let newline = c == b'\n' in
      offset_loop line ch s (if newline then cur_line + 1 else cur_line)
        (if newline then 0 else cur_ch + 1) (i + 1)
]

-- `none` is -1.
unfoldable pub text_offset_for_position : Bytes → ℤ → ℤ → Option ℕ
text_offset_for_position text (pos line) (pos ch) = offset_loop line ch text 0 0 0
text_offset_for_position text (pos line) (negsuc ch) = none
text_offset_for_position text (negsuc line) ch = none

-- `while (start > 0 && is_ident_char(text[start - 1])) start--;`
unfoldable pub word_start : Bytes → ℕ → ℕ
word_start text zero = zero
word_start text (suc k) = elim (is_ident (byte_at text k)) [
  | true ↦ word_start text k
  | false ↦ suc k
]

-- `while (is_ident_char(text[end])) end++;`, as the number of rounds.
unfoldable pub word_rest : Bytes → ℕ
word_rest [] = 0
word_rest (c ∷ s) = elim (is_ident c) [ true ↦ suc (word_rest s) | false ↦ 0 ]

-- At the end of the text it is the last byte that counts.
unfoldable pub step_in : Bytes → ℕ → Option ℕ
step_in text off =
    if byte_at text off == 0 then if off == 0 then none else some (off - 1) else some off

-- A word is at the byte itself or ends right before it.
unfoldable pub step_back : Bytes → ℕ → Option ℕ
step_back text off =
    if is_ident (byte_at text off)
    then some off
    else if ltb 0 off && is_ident (byte_at text (off - 1))
    then some (off - 1)
    else none

-- The word around a byte of it, if it fits a buffer of `cap` bytes.
unfoldable pub word_around : Bytes → ℕ → ℕ → Option Bytes
word_around text off cap =
    let start = word_start text off in
    let n = off + word_rest (drop off text) - start in
    if n == 0 || ltb cap (n + 1) then none else some (take n (drop start text))

unfoldable pub extract_symbol_at : Bytes → ℤ → ℤ → ℕ → Option Bytes
extract_symbol_at text line ch cap = elim (text_offset_for_position text line ch) [
  | none ↦ none
  | some off ↦ elim (step_in text off) [
    | none ↦ none
    | some o ↦ elim (step_back text o) [ none ↦ none | some p ↦ word_around text p cap ]
  ]
]
