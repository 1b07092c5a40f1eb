-- ===== src/Lsp/Index/Declared.antt =====
-- What the index says of a symbol (`index_doc_symbols` in src/lsp/nprt-lsp/index.c).
use nullprt.Lsp.Index.{
  index_doc_refs, text_or_empty, line_cond, Reference, line_starts, line_doc, IndexDoc, declare,
  index_doc_symbols, index_docs, keyword_length, scan_line, scan_lines, max_symbols, blanks,
  symbol_kind, Scan, Symbol,
}
use nullprt.Lsp.Index.Lines.{line_starts-IsLineStart, IsLineStart}
use nullprt.Lsp.Text.{word_rest, offset_to_line_col, byte_at, is_ident}
use nullprt.Base.{
  zero, suc, [], ◌∷◌, true, false, refl, ◌==◌, drop-drop, ◌∙◌, sym, All-append, ◌++◌, ◌&&◌, ltb,
  if◌then◌else◌, test_cases, ap, Bool, ◌↔◌, ◌<◌, ◌+◌, drop, ◌-◌, ◌⊎◌, ◌≢◌, arith, ◌≤◌, ◌≡◌, Bytes,
  ℕ, take, length, List, All,
}

-- The symbol is declared in the text: at the start of a line stands a keyword of its kind, and behind
-- it, at the line and the column of the symbol, its name.
pub record IsDeclared (uri text : Bytes) (x : Symbol) : Type 0 where
  pub start : ℕ
  pub off : ℕ
  pub at_line : (start ≡ 0) ⊎ (byte_at text (start - 1) ≡ b'\n')
  pub keyword : keyword_length (drop start text) ≢ 0
  pub of_kind : x.kind ≡ symbol_kind (keyword_length (drop start text))
  pub behind : start + keyword_length (drop start text) ≤ off
  pub place : (x.line, x.col) ≡ offset_to_line_col text off
  pub name_at : take (length (x.name)) (drop off text) ≡ x.name
  pub is_name : All (λ c. is_ident c ≡ true) (x.name)
  pub size : (0 < length (x.name)) × (length (x.name) ≤ 127)
  pub doc_size : length (x.doc) ≤ 255
  pub macro : (x.is_macro ≡ true) ↔ (x.kind ≡ 15)
  pub in_doc : x.uri ≡ take 511 uri

word_rest-All : (s : Bytes) (n : ℕ) → All (λ c. is_ident c ≡ true) (take n (take (word_rest s) s))
unfolding word_rest
word_rest-All [] zero = tt
word_rest-All [] (suc n) = tt
word_rest-All (c ∷ s) zero = tt
word_rest-All (c ∷ s) (suc n) =
    test_cases (λ k. All (λ d. is_ident d ≡ true) (take (suc n) (take k (c ∷ s)))) (is_ident c)
      (suc (word_rest s)) 0 (λ e. (e, word_rest-All s n)) (λ e. tt)

take-take-start :
    {A : Type 0} (n m : ℕ) (xs : List A) → let w = take n (take m xs) in take (length w) xs ≡ w
take-take-start zero m xs = refl
take-take-start (suc n) zero xs = refl
take-take-start (suc n) (suc m) [] = refl
take-take-start (suc n) (suc m) (x ∷ xs) = ap (λ l. x ∷ l) (take-take-start n m xs)

pub length-take_le : {A : Type 0} (n : ℕ) (xs : List A) → length (take n xs) ≤ n
length-take_le zero xs = omega arith
length-take_le (suc n) [] = omega arith
length-take_le (suc n) (x ∷ xs) = omega (arith, length-take_le n xs)

keyword_length_kinds :
    (s : Bytes) → let k = keyword_length s in (k ≡ 0) ⊎ (k ≡ 3) ⊎ (k ≡ 4) ⊎ (k ≡ 12)
unfolding keyword_length
keyword_length_kinds s = ground arith

macro_kind :
    (k : ℕ)
    → k ≢ 0
    → (k ≡ 0) ⊎ (k ≡ 3) ⊎ (k ≡ 4) ⊎ (k ≡ 12)
    → ((k == 12) ≡ true) ↔ (symbol_kind k ≡ 15)
macro_kind k n h = ground arith

-- A symbol that is added if there is room.
All-added :
    {A : Type 0} (Q : A → Type 0) (b : Bool) (xs : List A) (x : A)
    → All Q xs
    → (b ≡ true → Q x)
    → All Q (if b then xs ++ (x ∷ []) else xs)
All-added Q true xs x h q = All-append Q xs (x ∷ []) h (q refl, tt)
All-added Q false xs x h q = h

-- A line that declares a name adds at most a symbol that is declared.
declare-All :
    (Q : Symbol → Type 0) (uri text line : Bytes) (off : ℕ) (x : Scan)
    → ((y : Symbol) → IsDeclared uri text y → Q y)
    → IsLineStart text (off, line)
    → keyword_length line ≢ 0
    → All Q (x.symbols)
    → All Q ((declare uri text off line (keyword_length line) x).symbols)
unfolding declare
declare-All Q uri text line off x q (e, start) kw h =
    All-added Q (ltb 0 (length name) && ltb (length (x.symbols)) max_symbols) (x.symbols) _ h
      (λ room. q _ (record {
        start = off;
        off = off + skipped;
        at_line = start;
        keyword = λ z. kw (ap keyword_length (sym e) ∙ z);
        of_kind = ap (λ l. symbol_kind (keyword_length l)) (sym e);
        behind = let same = ap keyword_length e in omega arith;
        place = refl;
        name_at =
            ap (take (length name)) (sym (drop-drop off skipped text) ∙ ap (drop skipped) e)
            ∙ take-take-start 127 (word_rest rest) rest;
        is_name = word_rest-All rest 127;
        size = (ground (arith, room), length-take_le 127 (take (word_rest rest) rest));
        doc_size = length-take_le 255 (x.last_doc);
        macro = macro_kind (keyword_length line) kw (keyword_length_kinds line);
        in_doc = refl;
      }))
  where
    skipped : ℕ
    skipped = keyword_length line + blanks (drop (keyword_length line) line)

    rest : Bytes
    rest = drop skipped line

    name : Bytes
    name = take 127 (take (word_rest rest) rest)

scan_line-All :
    (Q : Symbol → Type 0) (uri text : Bytes) (l : ℕ × Bytes) (x : Scan)
    → ((y : Symbol) → IsDeclared uri text y → Q y)
    → IsLineStart text l
    → All Q (x.symbols)
    → All Q ((scan_line uri text l x).symbols)
unfolding scan_line
scan_line-All Q uri text (off, line) x q start h =
    by_test (keyword_length line == 0) refl
      (record {
        last_doc = line_doc line (x.last_doc);
        cond_off = line_cond line (x.cond_off);
        symbols = x.symbols;
      })
      h
  where
    by_test :
        (b : Bool)
        → (keyword_length line == 0) ≡ b
        → (y : Scan) → All Q (y.symbols)
        → All Q ((if b then y else declare uri text off line (keyword_length line) y).symbols)
    by_test true e y h = h
    by_test false e y h = declare-All Q uri text line off y q start (ground (arith, e)) h

scan_lines-All :
    (Q : Symbol → Type 0) (uri text : Bytes) (ls : List (ℕ × Bytes)) (x : Scan)
    → ((y : Symbol) → IsDeclared uri text y → Q y)
    → All (IsLineStart text) ls
    → All Q (x.symbols)
    → All Q ((scan_lines uri text ls x).symbols)
unfolding scan_lines
scan_lines-All Q uri text [] x q starts h = h
scan_lines-All Q uri text (l ∷ ls) x q (start, starts) h =
    scan_lines-All Q uri text ls (scan_line uri text l x) q starts
      (scan_line-All Q uri text l x q start h)

index_doc_symbols-All :
    (Q : Symbol → Type 0) (uri text : Bytes) (symbols : List Symbol)
    → ((y : Symbol) → IsDeclared uri text y → Q y)
    → All Q symbols
    → All Q (index_doc_symbols uri text symbols)
unfolding index_doc_symbols
index_doc_symbols-All Q uri text symbols q h =
    scan_lines-All Q uri text (line_starts true 0 text)
      (record { last_doc = []; cond_off = false; symbols = symbols }) q
      (line_starts-IsLineStart text) h

-- The document is one of the list.
pub data IsDoc (d : IndexDoc) : List IndexDoc → Type 0 where
  here : {docs : List IndexDoc} → IsDoc d (d ∷ docs)
  there : {e : IndexDoc} {docs : List IndexDoc} → IsDoc d docs → IsDoc d (e ∷ docs)

-- A symbol that is declared in a document.
abbrev pub IsFrom : List IndexDoc → Symbol → Type 0
IsFrom docs x = (d : IndexDoc) × IsDoc d docs × IsDeclared (d.uri) (text_or_empty (d.text)) x

index_docs-All :
    (Q : Symbol → Type 0) (docs : List IndexDoc) (r : List Symbol × List Reference)
    → ((x : Symbol) → IsFrom docs x → Q x)
    → All Q r.0
    → All Q (index_docs docs r).0
unfolding index_docs
index_docs-All Q [] r q h = h
index_docs-All Q (d ∷ docs) r q h =
    let text = text_or_empty (d.text) in
    index_docs-All Q docs (index_doc_symbols (d.uri) text r.0, index_doc_refs (d.uri) text r.1)
      (λ x (e, i, y). q x (e, IsDoc.there i, y))
      (index_doc_symbols-All Q (d.uri) text r.0 (λ y z. q y (d, IsDoc.here, z)) h)

-- Each symbol that is read from the documents is declared in one of them: its line and its column are
-- those of a place where its name stands behind the keyword of a line.
pub index_docs-IsFrom : (docs : List IndexDoc) → All (IsFrom docs) (index_docs docs ([], [])).0
index_docs-IsFrom docs = index_docs-All (IsFrom docs) docs ([], []) (λ x h. h) tt
