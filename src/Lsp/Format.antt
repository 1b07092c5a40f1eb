-- ===== src/Lsp/Format.antt =====
-- The formatting of a document (`normalize_spaces_copy` and `handle_document_formatting` in
-- src/lsp/nprt-lsp/main.c), up to the text that is sent.
use nullprt.Base.{
  if_cases, ◌∙◌, bytes_eq_iff, bytes_eq, Option, [], ◌∷◌, true, false, none, some, refl, ap₂, arith,
  ◌≢◌, ◌≡◌, ◌==◌, test_cases, if◌then◌else◌, Bytes, Bool, ℕ,
}
use mathlib.Core.Path.{ap, sym, subst}
use nullprt.Lsp.Server.{Server, find_text}

abbrev pub tab_to_space : ℕ → ℕ
tab_to_space c = if c == b'\t' then b' ' else c

-- The loop, with `prev_space`.
unfoldable pub normalize_loop : Bool → Bytes → Bytes
normalize_loop prev_space [] = []
normalize_loop prev_space (c ∷ s) = elim (tab_to_space c == b' ') [
  | true ↦ elim prev_space [
    | true ↦ normalize_loop true s
    | false ↦ tab_to_space c ∷ normalize_loop true s
  ]
  | false ↦ tab_to_space c ∷ normalize_loop false s
]

unfoldable pub normalize_spaces_copy : Bytes → Bytes
normalize_spaces_copy text = normalize_loop false text

-- No tab, and no blank behind a blank, nor one at the start behind one.
abbrev pub IsNormal : Bool → Bytes → Type 0
IsNormal prev_space [] = Unit
IsNormal prev_space (c ∷ s) = (c ≢ b'\t') × (prev_space ≡ true → c ≢ b' ') × IsNormal (c == b' ') s

normalize_loop-IsNormal : (p : Bool) (s : Bytes) → IsNormal p (normalize_loop p s)
unfolding normalize_loop
normalize_loop-IsNormal p [] = tt
normalize_loop-IsNormal true (c ∷ s) =
    test_cases (IsNormal true) (tab_to_space c == b' ') (normalize_loop true s)
      (tab_to_space c ∷ normalize_loop false s) (λ e. normalize_loop-IsNormal true s)
      (λ e. (
        ground arith,
        λ _. ground (arith, e),
        subst (λ b. IsNormal b (normalize_loop false s)) (sym e) (normalize_loop-IsNormal false s),
      ))
normalize_loop-IsNormal false (c ∷ s) =
    test_cases (IsNormal false) (tab_to_space c == b' ') (tab_to_space c ∷ normalize_loop true s)
      (tab_to_space c ∷ normalize_loop false s)
      (λ e. (
        ground arith,
        λ f. absurd (ground (arith, f)),
        subst (λ b. IsNormal b (normalize_loop true s)) (sym e) (normalize_loop-IsNormal true s),
      ))
      (λ e. (
        ground arith,
        λ f. absurd (ground (arith, f)),
        subst (λ b. IsNormal b (normalize_loop false s)) (sym e) (normalize_loop-IsNormal false s),
      ))

normalize_loop_same : (p : Bool) (s : Bytes) → IsNormal p s → normalize_loop p s ≡ s
unfolding normalize_loop
normalize_loop_same p [] h = refl
normalize_loop_same true (c ∷ s) (tab, blank, h) =
    test_cases (λ l. l ≡ c ∷ s) (tab_to_space c == b' ') (normalize_loop true s)
      (tab_to_space c ∷ normalize_loop false s) (λ e. absurd (blank refl (ground arith)))
      (λ e.
        ap₂ (λ x l. x ∷ l) (ground arith)
          (normalize_loop_same false s (subst (λ b. IsNormal b s) (ground arith) h)))
normalize_loop_same false (c ∷ s) (tab, blank, h) =
    test_cases (λ l. l ≡ c ∷ s) (tab_to_space c == b' ') (tab_to_space c ∷ normalize_loop true s)
      (tab_to_space c ∷ normalize_loop false s)
      (λ e.
        ap₂ (λ x l. x ∷ l) (ground arith)
          (normalize_loop_same true s (subst (λ b. IsNormal b s) (ground arith) h)))
      (λ e.
        ap₂ (λ x l. x ∷ l) (ground arith)
          (normalize_loop_same false s (subst (λ b. IsNormal b s) (ground arith) h)))

-- `handle_document_formatting`: the new text, or `none` for the answer without an edit.
unfoldable pub format_document : Server → Option Bytes → Option Bytes
format_document s none = none
format_document s (some uri) = elim (find_text uri (s.docs)) [
  | none ↦ none
  | some text ↦
      let normalized = normalize_spaces_copy text in
      if bytes_eq normalized text then none else some normalized
]

unchanged :
    (s : Bytes)
    → bytes_eq (normalize_spaces_copy (normalize_spaces_copy s)) (normalize_spaces_copy s) ≡ true
unfolding normalize_spaces_copy
unchanged s =
    (bytes_eq_iff (normalize_loop false (normalize_loop false s)) (normalize_loop false s)).1
      (normalize_loop_same false (normalize_loop false s) (normalize_loop-IsNormal false s))

-- The new text of a document that is formatted has no tab and no two blanks behind one another, and a
-- document that has this text is not edited when it is formatted.
pub format_document_lem :
    (s later : Server) (uri new : Bytes)
    → format_document s (some uri) ≡ some new
    → find_text uri (later.docs) ≡ some new
    → IsNormal false new × (format_document later (some uri) ≡ none)
unfolding format_document
format_document_lem s later uri new h found = by_text (find_text uri (s.docs)) h
  where
    edit : Bytes → Option Bytes
    edit text =
        let normalized = normalize_spaces_copy text in
        if bytes_eq normalized text then none else some normalized

    again : (text : Bytes) → normalize_spaces_copy text ≡ new → edit new ≡ none
    again text e =
        ap edit (sym e)
        ∙ ap (λ b. if b then none else some (normalize_spaces_copy (normalize_spaces_copy text)))
            (unchanged text)

    normal : (text : Bytes) → normalize_spaces_copy text ≡ new → IsNormal false new
    normal text e =
        subst (IsNormal false) e
          (unfold normalize_spaces_copy in normalize_loop-IsNormal false text)

    by_new : (text : Bytes) → edit text ≡ some new → normalize_spaces_copy text ≡ new
    by_new text =
        if_cases (λ o. o ≡ some new → normalize_spaces_copy text ≡ new)
          (bytes_eq (normalize_spaces_copy text) text) none (some (normalize_spaces_copy text))
          (λ e k. absurd (ground (arith, k))) (λ e k. ground (arith, k))

    by_text :
        (o : Option Bytes)
        → elim o [ none ↦ none | some text ↦ edit text ] ≡ some new
        → IsNormal false new
          × (elim (find_text uri (later.docs)) [ none ↦ none | some text ↦ edit text ] ≡ none)
    by_text none k = absurd (ground (arith, k))
    by_text (some text) k =
        let e = by_new text k in
        (normal text e, ap (λ o. elim o [ none ↦ none | some t ↦ edit t ]) found ∙ again text e)
