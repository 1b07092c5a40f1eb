-- ===== src/Lsp/Index/Lines.antt =====
-- The lines of a text (the loop of `index_doc_symbols` in src/lsp/nprt-lsp/index.c).
use nullprt.Lsp.Index.{line_starts}
use nullprt.Base.{
  [], ◌∷◌, true, false, inl, inr, refl, drop-drop, ◌==◌, if◌then◌else◌, sym, ◌∙◌, arith, ◌+◌, ap,
  ◌-◌, ◌⊎◌, ◌≡◌, drop, Bool, Bytes, ℕ, List, All,
}
use nullprt.Lsp.Text.{byte_at}
use nullprt.Lsp.Text.Around.{byte_at-drop}

-- A line with the text from it on: it starts the text or follows a newline.
abbrev pub IsLineStart : Bytes → ℕ × Bytes → Type 0
IsLineStart text l = (drop (l.0) text ≡ l.1) × ((l.0 ≡ 0) ⊎ (byte_at text (l.0 - 1) ≡ b'\n'))

line_starts_go :
    (text s : Bytes) (starts : Bool) (i : ℕ)
    → drop i text ≡ s
    → (starts ≡ true → (i ≡ 0) ⊎ (byte_at text (i - 1) ≡ b'\n'))
    → All (IsLineStart text) (line_starts starts i s)
unfolding line_starts
line_starts_go text [] starts i e h = tt
line_starts_go text (c ∷ s) starts i e h = by_test starts h (line_starts (c == b'\n') (i + 1) s) (
    line_starts_go text s (c == b'\n') (i + 1) (sym (drop-drop i 1 text) ∙ ap (drop 1) e)
      (λ newline.
        inr (ap (byte_at text) {x = i + 1 - 1} (omega arith) ∙ here ∙ ground (arith, newline))))
  where
    here : byte_at text i ≡ c
    here =
        ap (byte_at text) {y = i + 0} (omega arith)
        ∙ sym (byte_at-drop i text 0)
        ∙ ap (λ l. byte_at l 0) e
        ∙ (unfold byte_at in refl)

    by_test :
        (b : Bool)
        → (b ≡ true → (i ≡ 0) ⊎ (byte_at text (i - 1) ≡ b'\n'))
        → (later : List (ℕ × Bytes)) → All (IsLineStart text) later
        → All (IsLineStart text) (if b then (i, c ∷ s) ∷ later else later)
    by_test true h later k = ((e, h refl), k)
    by_test false h later k = k

pub line_starts-IsLineStart : (text : Bytes) → All (IsLineStart text) (line_starts true 0 text)
line_starts-IsLineStart text = line_starts_go text text true 0 refl (λ _. inl refl)
