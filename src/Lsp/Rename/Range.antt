-- ===== src/Lsp/Rename/Range.antt =====
-- The range of the name that is renamed (`handle_prepare_rename` in src/lsp/nprt-lsp/main.c).
use nullprt.Base.{◌∙◌, ap, drop, ◌+◌, ◌<◌, ◌≤◌, ◌≡◌, Bytes, none, some, refl, ℕ, take, length}
use nullprt.Lsp.Rename.{name_start, prepare_rename}
use nullprt.Lsp.Text.{text_offset_for_position, word_start, offset_to_line_col}
use mathlib.Core.Option.{Option}
use nullprt.Base.Int.{pos}
use nullprt.Lsp.Server.{Server, find_text}
use nullprt.Lsp.Server.Answers.{symbol_under_exact}
use nullprt.Lsp.Text.Around.{IsWordAt, word_start_exact}
use nullprt.Lsp.Text.Positions.{text_offset_for_position_iff}
use mathlib.Core.Option

-- With the cursor at a byte of a name of at most 127 bytes, or right behind it, in a document of the
-- server, the range to rename begins where the name begins, and the text to replace is the name.
pub prepare_rename_lem :
    (s : Server) (uri text : Bytes) (off a n : ℕ)
    → find_text uri (s.docs) ≡ some text
    → off ≤ length text
    → IsWordAt text a n
    → 0 < n
    → n ≤ 127
    → a ≤ off
    → off ≤ a + n
    → let r = offset_to_line_col text off in
      prepare_rename s (some uri) (pos r.0) (pos r.1)
      ≡ some (offset_to_line_col text a, take n (drop a text))
unfolding prepare_rename name_start
prepare_rename_lem s uri text off a n found in_text w grown short l h =
    let r = offset_to_line_col text off in
    let word = take n (drop a text) in
    let at : text_offset_for_position text (pos r.0) (pos r.1) ≡ some off =
      (text_offset_for_position_iff text r.0 r.1 off).1 (in_text, refl) in
    ap asked (symbol_under_exact s uri text off a n found in_text w grown short l h)
    ∙ ap (Option.map (λ t. (name_start t (pos r.0) (pos r.1), word))) found
    ∙ ap (λ o. some (from o, word)) at
    ∙ ap (λ k. some (offset_to_line_col text k, word)) (word_start_exact text a n off w l h)
  where
    asked : Option (Bytes × Bytes) → Option ((ℕ × ℕ) × Bytes)
    asked none = none
    asked (some u) =
        let r = offset_to_line_col text off in
        Option.map (λ t. (name_start t (pos r.0) (pos r.1), u.1)) (find_text u.0 (s.docs))

    from : Option ℕ → ℕ × ℕ
    from none = offset_to_line_col text 0
    from (some k) = offset_to_line_col text (word_start text k)
