-- ===== src/Lsp/Text/Positions.antt =====
-- Offsets and positions (src/lsp/nprt-lsp/main.c and index.c) are two names for the same places.
use nullprt.Lsp.Text.{line_col_loop, offset_loop, offset_to_line_col, text_offset_for_position}
use nullprt.Base.{
  zero, suc, [], ◌∷◌, some, sym, ◌↔◌, ap₂, ap, ◌∙◌, Option, if◌then◌else◌, ◌==◌, ◌⊎◌, ◌<◌, arith,
  ◌+◌, length, ◌≤◌, ◌≡◌, Bytes, ℕ,
}
use nullprt.Base.Int.{pos}

-- A later offset has a later position.
later :
    (s : Bytes) (k line col : ℕ)
    → suc k ≤ length s
    → let r = line_col_loop s (suc k) line col in (line < r.0) ⊎ ((line ≡ r.0) × (col < r.1))
unfolding line_col_loop
later [] k line col h = absurd (omega arith)
later (c ∷ []) zero line col h = ground arith
later (c ∷ d ∷ s) zero line col h = ground arith
later (c ∷ s) (suc k) line col h =
    let newline = c == b'\n' in
    ground (
      arith,
      later s k (if newline then line + 1 else line) (if newline then 0 else col + 1) (omega arith),
    )

-- One round of `offset_loop` that does not stop.
offset_loop_round :
    (line ch c : ℕ) (s : Bytes) (cur_line cur_ch i : ℕ)
    → (cur_line < line) ⊎ ((cur_line ≡ line) × (cur_ch < ch))
    → offset_loop line ch (c ∷ s) cur_line cur_ch i
      ≡ offset_loop line ch s
          (if c == b'\n' then cur_line + 1 else cur_line)
          (if c == b'\n' then 0 else cur_ch + 1)
          (i + 1)
unfolding offset_loop
offset_loop_round line ch c s cur_line cur_ch i h = ground arith

offset_found :
    (s : Bytes) (k line col i : ℕ)
    → k ≤ length s
    → let r = line_col_loop s k line col in offset_loop r.0 r.1 s line col i ≡ some (i + k)
unfolding line_col_loop
offset_found [] k line col i h = unfold offset_loop in ground arith
offset_found (c ∷ s) zero line col i h = unfold offset_loop in ground arith
offset_found (c ∷ s) (suc k) line col i h =
    let l = if c == b'\n' then line + 1 else line in
    let ch = if c == b'\n' then 0 else col + 1 in
    let r = line_col_loop s k l ch in
    offset_loop_round r.0 r.1 c s line col i (later (c ∷ s) k line col h)
    ∙ offset_found s k l ch (i + 1) (omega arith)
    ∙ ap some (omega arith)

-- Both ways of the test of `offset_loop`.
offset_loop_cases :
    (P : Option ℕ → Type 0) (line ch c : ℕ) (s : Bytes) (cur_line cur_ch i : ℕ)
    → (cur_line ≡ line → cur_ch ≡ ch → P (some i))
    → P (
        offset_loop line ch s
          (if c == b'\n' then cur_line + 1 else cur_line)
          (if c == b'\n' then 0 else cur_ch + 1)
          (i + 1))
    → P (offset_loop line ch (c ∷ s) cur_line cur_ch i)
unfolding offset_loop
offset_loop_cases P line ch c s cur_line cur_ch i h k = ground arith

position_found :
    (s : Bytes) (line ch cur_line cur_ch i j : ℕ)
    → offset_loop line ch s cur_line cur_ch i ≡ some j
    → (k : ℕ) × (j ≡ i + k) × (k ≤ length s) × (line_col_loop s k cur_line cur_ch ≡ (line, ch))
unfolding line_col_loop
position_found [] line ch cur_line cur_ch i j h =
    (0, ends.0, omega arith, ap₂ (λ x y. (x, y)) ends.1 ends.2)
  where
    ends : (j ≡ i + 0) × (cur_line ≡ line) × (cur_ch ≡ ch)
    ends = unfold offset_loop in ground arith
position_found (c ∷ s) line ch cur_line cur_ch i j h =
    offset_loop_cases
      (λ o.
        o ≡ some j
        → (k : ℕ) × (j ≡ i + k)
          × (k ≤ length (c ∷ s))
          × (line_col_loop (c ∷ s) k cur_line cur_ch ≡ (line, ch)))
      line ch c s cur_line cur_ch i
      (λ e f g. (0, ground arith, omega arith, ap₂ (λ x y. (x, y)) e f))
      (λ g.
        let (k, e, l, f) =
          position_found s line ch (if c == b'\n' then cur_line + 1 else cur_line)
            (if c == b'\n' then 0 else cur_ch + 1) (i + 1) j g in
        (suc k, omega arith, omega arith, f))
      h

-- `text_offset_for_position` has the offset `i` for a position if and only if `i` is in the text, or
-- right behind it, and the position is the one that `offset_to_line_col` has for `i`.
pub text_offset_for_position_iff :
    (text : Bytes) (line col i : ℕ)
    → (text_offset_for_position text (pos line) (pos col) ≡ some i)
      ↔ ((i ≤ length text) × (offset_to_line_col text i ≡ (line, col)))
unfolding text_offset_for_position offset_to_line_col
text_offset_for_position_iff text line col i = (found, exact)
  where
    found :
        offset_loop line col text 0 0 0 ≡ some i
        → (i ≤ length text) × (line_col_loop text i 0 0 ≡ (line, col))
    found h =
        let (k, e, l, f) = position_found text line col 0 0 0 i h in
        let same : i ≡ k = omega arith in (omega arith, ap (λ n. line_col_loop text n 0 0) same ∙ f)

    exact :
        ((i ≤ length text) × (line_col_loop text i 0 0 ≡ (line, col)))
        → offset_loop line col text 0 0 0 ≡ some i
    exact (l, e) =
        ap (λ r. offset_loop r.0 r.1 text 0 0 0) (sym e)
        ∙ offset_found text i 0 0 0 l
        ∙ ap some (omega arith)
