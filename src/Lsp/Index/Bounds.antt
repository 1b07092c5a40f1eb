-- ===== src/Lsp/Index/Bounds.antt =====
-- The arrays of the index are never written past their ends (src/lsp/nprt-lsp/index.c).
use nullprt.Lsp.Index.{
  add_ref, declare, index_doc_refs, index_doc_symbols, index_docs, refs_loop, scan_line, scan_lines,
  line_starts, blanks, text_or_empty, keyword_length, max_symbols, max_refs, Symbol, Reference,
  IndexDoc, Scan,
}
use nullprt.Base.{
  zero, suc, [], ◌∷◌, true, false, refl, ◌&&◌, length-append, ◌++◌, not, ◌==◌, if◌then◌else◌, arith,
  ◌<◌, ◌+◌, ltb, drop, ◌≡◌, ◌≤◌, Bytes, Bool, ℕ, take, length, List, if_cases,
}
use nullprt.Lsp.Text.{is_ident, byte_at, word_rest}

added_le :
    {A : Type 0} (b : Bool) (xs : List A) (x : A) (m : ℕ)
    → length xs ≤ m
    → (b ≡ true → length xs < m)
    → length (if b then xs ++ (x ∷ []) else xs) ≤ m
added_le true xs x m h k = omega (arith, length-append xs (x ∷ []), k refl)
added_le false xs x m h k = h

declare_le :
    (uri text line : Bytes) (off kw : ℕ) (x : Scan)
    → length (x.symbols) ≤ max_symbols
    → length ((declare uri text off line kw x).symbols) ≤ max_symbols
unfolding declare
declare_le uri text line off kw x h =
    added_le (ltb 0 (length name) && ltb (length (x.symbols)) max_symbols) (x.symbols) _ max_symbols
      h (λ e. ground (arith, e))
  where
    name : Bytes
    name =
        let rest = drop (kw + blanks (drop kw line)) line in take 127 (take (word_rest rest) rest)

scan_lines_le :
    (uri text : Bytes) (ls : List (ℕ × Bytes)) (x : Scan)
    → length (x.symbols) ≤ max_symbols
    → length ((scan_lines uri text ls x).symbols) ≤ max_symbols
unfolding scan_lines scan_line
scan_lines_le uri text [] x h = h
scan_lines_le uri text ((off, line) ∷ ls) x h =
    scan_lines_le uri text ls (scan_line uri text (off, line) x) (
      if_cases {A = Scan} (λ y. length (y.symbols) ≤ max_symbols) (keyword_length line == 0) _ _
        (λ e. h) (λ e. declare_le uri text line off (keyword_length line) _ h))

add_ref_le :
    (uri text : Bytes) (i : ℕ) (in_comment : Bool) (refs : List Reference)
    → length refs ≤ max_refs
    → length (add_ref uri text i in_comment refs) ≤ max_refs
unfolding add_ref
add_ref_le uri text i in_comment refs h =
    added_le (ltb (length refs) max_refs) refs _ max_refs h (λ e. ground (arith, e))

refs_loop_le :
    (uri text : Bytes) (skip : ℕ) (commented : Bool) (i : ℕ) (s : Bytes) (refs : List Reference)
    → length refs ≤ max_refs
    → length (refs_loop uri text skip commented i s refs) ≤ max_refs
unfolding refs_loop
refs_loop_le uri text skip commented i [] refs h = h
refs_loop_le uri text (suc skip) commented i (c ∷ s) refs h =
    refs_loop_le uri text skip commented (i + 1) s refs h
refs_loop_le uri text zero commented i (c ∷ s) refs h =
    let inside = if commented then not (c == b'\n') else c == b'/' && byte_at s 0 == b'/' in
    refs_loop_le uri text (if is_ident c then word_rest s else 0) inside (i + 1) s
      (if is_ident c then add_ref uri text i inside refs else refs)
      (if_cases (λ r. length r ≤ max_refs) (is_ident c) (add_ref uri text i inside refs) refs
        (λ e. add_ref_le uri text i inside refs h) (λ e. h))

-- However many documents are read, and whatever their texts are, at most 4096 symbols and 16384
-- references are written.
pub index_docs_bounds :
    (docs : List IndexDoc) (r : List Symbol × List Reference)
    → (length r.0 ≤ max_symbols) × (length r.1 ≤ max_refs)
    → let s = index_docs docs r in (length s.0 ≤ max_symbols) × (length s.1 ≤ max_refs)
unfolding index_docs index_doc_symbols index_doc_refs
index_docs_bounds [] r h = h
index_docs_bounds (d ∷ docs) r (h, k) =
    let text = text_or_empty (d.text) in
    index_docs_bounds docs (index_doc_symbols (d.uri) text r.0, index_doc_refs (d.uri) text r.1)
      (
        scan_lines_le (d.uri) text (line_starts true 0 text) _ h,
        refs_loop_le (d.uri) text 0 false 0 text r.1 k,
      )
