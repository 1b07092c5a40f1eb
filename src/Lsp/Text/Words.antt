-- ===== src/Lsp/Text/Words.antt =====
-- The word under the cursor (`extract_symbol_at` in src/lsp/nprt-lsp/main.c).
use nullprt.Lsp.Text.Around.{word_around_sound, word_around_exact, IsWordAt}
use nullprt.Lsp.Text.{
  extract_symbol_at, step_back, step_in, byte_at, word_around, text_offset_for_position,
  offset_to_line_col, is_ident,
}
use nullprt.Base.{
  true, false, none, some, inl, inr, refl, ◌≢◌, length, sym, Option, ◌∙◌, take, ap, is_alnum, ◌-◌,
  ◌⊎◌, ◌+◌, arith, ◌≤◌, ◌≡◌, ◌<◌, drop, Bytes, ℕ,
}
use nullprt.Base.Int.{pos}
use nullprt.Lsp.Text.Positions.{text_offset_for_position_iff}

-- The byte the word is looked for at is the one at the offset or one of the two before it.
steps_sound :
    (text : Bytes) (off o p : ℕ)
    → step_in text off ≡ some o
    → step_back text o ≡ some p
    → (is_ident (byte_at text p) ≡ true) × (p ≤ off) × (off ≤ p + 2)
unfolding step_in step_back
steps_sound text off o p h k = ground arith

-- At a byte of a word, and right behind it, that is a byte of the word.
steps_exact :
    (text : Bytes) (a n off : ℕ)
    → IsWordAt text a n
    → 0 < n
    → a ≤ off
    → off ≤ a + n
    → (o : ℕ) × (p : ℕ) × (step_in text off ≡ some o)
      × (step_back text o ≡ some p)
      × (a ≤ p)
      × (p < a + n)
steps_exact text a n off w grown l h = elim (split) [
  | inl at ↦
      let ident = w.inside off l at in
      (off, off, stays off (not_null off ident), at_word off ident, l, at)
  | inr behind ↦
      let last = w.inside (off - 1) (omega arith) (omega arith) in
      let outside : is_ident (byte_at text off) ≡ false =
        ap (λ k. is_ident (byte_at text k)) behind ∙ w.right in
      elim null [
        | inl e ↦ (
          off - 1,
          off - 1,
          goes off e (omega arith),
          at_word (off - 1) last,
          omega arith,
          omega arith,
        )
        | inr e ↦ (
          off,
          off - 1,
          stays off e,
          behind_word off outside last (omega arith),
          omega arith,
          omega arith,
        )
      ]
]
  where
    split : (off < a + n) ⊎ (off ≡ a + n)
    split = omega arith

    null : (byte_at text off ≡ 0) ⊎ (byte_at text off ≢ 0)
    null = omega arith

    not_null : (i : ℕ) → is_ident (byte_at text i) ≡ true → byte_at text i ≢ 0
    not_null i ident e = unfold is_ident is_alnum in ground (arith, ap is_ident (sym e) ∙ ident)

    stays : (i : ℕ) → byte_at text i ≢ 0 → step_in text i ≡ some i
    stays i e = unfold step_in in ground arith

    goes : (i : ℕ) → byte_at text i ≡ 0 → 0 < i → step_in text i ≡ some (i - 1)
    goes i e l = unfold step_in in ground arith

    at_word : (i : ℕ) → is_ident (byte_at text i) ≡ true → step_back text i ≡ some i
    at_word i e = unfold step_back in ground arith

    behind_word :
        (i : ℕ)
        → is_ident (byte_at text i) ≡ false
        → is_ident (byte_at text (i - 1)) ≡ true
        → 0 < i
        → step_back text i ≡ some (i - 1)
    behind_word i e f l = unfold step_back in ground arith

-- A chain that has a result has one at each link.
chained :
    {f : ℕ → Option Bytes} {w : Bytes} (o : Option ℕ)
    → elim o [ none ↦ none | some x ↦ f x ] ≡ some w
    → (x : ℕ) × (o ≡ some x) × (f x ≡ some w)
chained none h = absurd (ground (arith, h))
chained (some x) h = (x, refl, h)

chain :
    (f : ℕ → Option Bytes) {r : Option Bytes} {o : Option ℕ} {x : ℕ}
    → o ≡ some x
    → f x ≡ r
    → elim o [ none ↦ none | some y ↦ f y ] ≡ r
chain f e g = ap (λ o. elim o [ none ↦ none | some y ↦ f y ]) e ∙ g

-- What `extract_symbol_at` has for a line and a column is a whole word, not empty, that fits the
-- buffer with its null byte; it starts at or before the offset of the position and ends at most one byte before it.
pub extract_symbol_at_sound :
    (text w : Bytes) (line col cap : ℕ)
    → extract_symbol_at text (pos line) (pos col) cap ≡ some w
    → (off : ℕ) × (a : ℕ) × (n : ℕ) × (off ≤ length text)
      × (offset_to_line_col text off ≡ (line, col))
      × (a ≤ off)
      × (off ≤ a + n + 1)
      × (0 < n)
      × (n + 1 ≤ cap)
      × IsWordAt text a n
      × (w ≡ take n (drop a text))
unfolding extract_symbol_at
extract_symbol_at_sound text w line col cap h =
    let (off, at, h1) = chained (text_offset_for_position text (pos line) (pos col)) h in
    let (o, stepped, h2) = chained (step_in text off) h1 in
    let (p, back, around) = chained (step_back text o) h2 in
    let (ident, l, m) = steps_sound text off o p stepped back in
    let (a, n, ap_, pn, fits, word, same) = word_around_sound text w p cap ident around in
    let (in_text, position) = (text_offset_for_position_iff text line col off).0 at in
    (off, a, n, in_text, position, omega arith, omega arith, omega arith, fits, word, same)

-- With the cursor at a byte of a word or right behind the word, `extract_symbol_at` has that word, if
-- it fits the buffer with its null byte.
pub extract_symbol_at_exact :
    (text : Bytes) (off a n cap : ℕ)
    → off ≤ length text
    → IsWordAt text a n
    → 0 < n
    → a ≤ off
    → off ≤ a + n
    → n + 1 ≤ cap
    → let r = offset_to_line_col text off in
      extract_symbol_at text (pos r.0) (pos r.1) cap ≡ some (take n (drop a text))
unfolding extract_symbol_at
extract_symbol_at_exact text off a n room in_text w grown l h fits =
    let (o, p, e, f, la, pn) = steps_exact text a n off w grown l h in
    let r = offset_to_line_col text off in
    let around : ℕ → Option Bytes = λ i. word_around text i room in
    let back : ℕ → Option Bytes =
      λ i. elim (step_back text i) [ none ↦ none | some j ↦ around j ] in
    let inward : ℕ → Option Bytes = λ i. elim (step_in text i) [ none ↦ none | some j ↦ back j ] in
    chain inward ((text_offset_for_position_iff text r.0 r.1 off).1 (in_text, refl))
      (chain back e (chain around f (word_around_exact text a n p room w la pn fits)))
