-- ===== src/Lsp/Rename/Complete.antt =====
-- Renaming reaches every reference (`handle_rename` in src/lsp/nprt-lsp/main.c).
use nullprt.Lsp.Index.{text_or_empty, Index, Reference}
use nullprt.Lsp.Query.{reference_at, find_references}
use nullprt.Lsp.Rename.{edits_text, refs_in, rename_edits, edit_text, block_text, rename_head}
use nullprt.Base.{
  [], ◌∷◌, true, false, inl, inr, refl, arith, length-append, leb, Bool-cases, ◌<◌, ◌+◌, append_nil,
  take_whole, ap₂, ◌≤◌, All, ◌∙◌, sym, ltb, bytes_eq_iff, ap, ◌≢◌, ◌++◌, if◌then◌else◌, bytes_eq,
  ◌≡◌, Bool, Bytes, ℕ, take, length, map, List, if_cases,
}
use mathlib.Core.Path.{subst}
use nullprt.Lsp.Query.References.{find_references_lem, all_references, keep, stands, positions}
use nullprt.Lsp.Server.Agrees.{indexed, IsServed}
use nullprt.Lsp.Server.{Server, Doc}
use nullprt.Lsp.Index.Docs.{AreDistinct}

-- The references in a document, from its first byte to its last.
abbrev pub doc_references : Bytes → Bool → Doc → List Reference
doc_references sym include_comments d =
    map (reference_at (d.uri) (d.text))
      (keep (stands sym include_comments (d.text)) (positions 0 (length (d.text))))

abbrev pub all_edits : Bytes → Bool → List Doc → List (Bytes × List Reference)
all_edits sym include_comments [] = []
all_edits sym include_comments (d ∷ docs) =
    let edits = doc_references sym include_comments d in
    let rest = all_edits sym include_comments docs in
    if ltb 0 (length edits) then (d.uri, edits) ∷ rest else rest

-- The references of one document among all.
unfoldable own_refs : Bytes → List Reference → List Reference
own_refs uri [] = []
own_refs uri (r ∷ refs) =
    let rest = own_refs uri refs in if bytes_eq (r.uri) uri then r ∷ rest else rest

own_refs-append :
    (uri : Bytes) (xs ys : List Reference)
    → own_refs uri (xs ++ ys) ≡ own_refs uri xs ++ own_refs uri ys
unfolding own_refs
own_refs-append uri [] ys = refl
own_refs-append uri (x ∷ xs) ys =
    if_cases
      (λ l.
        (if bytes_eq (x.uri) uri then x ∷ own_refs uri (xs ++ ys) else own_refs uri (xs ++ ys))
        ≡ l ++ own_refs uri ys)
      (bytes_eq (x.uri) uri) (x ∷ own_refs uri xs) (own_refs uri xs)
      (λ e.
        ap (λ b. if b then x ∷ own_refs uri (xs ++ ys) else own_refs uri (xs ++ ys)) e
        ∙ ap (λ l. x ∷ l) (own_refs-append uri xs ys))
      (λ e.
        ap (λ b. if b then x ∷ own_refs uri (xs ++ ys) else own_refs uri (xs ++ ys)) e
        ∙ own_refs-append uri xs ys)

refs_in_own :
    (uri t : Bytes) (is : List ℕ)
    → take 511 uri ≡ uri
    → own_refs uri (map (reference_at uri t) is) ≡ map (reference_at uri t) is
unfolding own_refs reference_at
refs_in_own uri t [] short = refl
refs_in_own uri t (i ∷ is) short =
    let own : bytes_eq (take 511 uri) uri ≡ true = (bytes_eq_iff (take 511 uri) uri).1 short in
    ap
      (λ b.
        if b
        then reference_at uri t i ∷ own_refs uri (map (reference_at uri t) is)
        else own_refs uri (map (reference_at uri t) is))
      own
    ∙ ap (λ l. reference_at uri t i ∷ l) (refs_in_own uri t is short)

refs_in_other :
    (v uri t : Bytes) (is : List ℕ)
    → take 511 uri ≡ uri
    → uri ≢ v
    → own_refs v (map (reference_at uri t) is) ≡ []
unfolding own_refs reference_at
refs_in_other v uri t [] short n = refl
refs_in_other v uri t (i ∷ is) short n =
    if_cases (λ l. l ≡ []) (bytes_eq (take 511 uri) v) _ _
      (λ e. absurd (n (sym short ∙ (bytes_eq_iff (take 511 uri) v).0 e)))
      (λ e. refs_in_other v uri t is short n)

-- The documents have names that fit the index.
abbrev pub AreShort : List Doc → Type 0
AreShort docs = All (λ d. length (d.uri) ≤ 511) docs

-- No reference to a document is among those of others.
none_of_others :
    (symbol : Bytes) (inc : Bool) (v : Bytes) (docs : List Doc)
    → AreShort docs
    → All (λ e. v ≢ e.uri) (map indexed docs)
    → own_refs v (all_references symbol inc (map indexed docs)) ≡ []
unfolding text_or_empty
none_of_others symbol inc v [] short h = unfold own_refs in refl
none_of_others symbol inc v (d ∷ docs) (s, short) (n, h) =
    own_refs-append v (doc_references symbol inc d) (all_references symbol inc (map indexed docs))
    ∙ ap₂ (◌++◌)
        (refs_in_other v (d.uri) (d.text)
          (keep (stands symbol inc (d.text)) (positions 0 (length (d.text))))
          (take_whole 511 (d.uri) s) (λ e. n (sym e)))
        (none_of_others symbol inc v docs short h)

-- What holds of the later documents is not changed by the first.
behind_first :
    (symbol : Bytes) (inc : Bool) (d : Doc)
    → take 511 (d.uri) ≡ d.uri
    → (docs : List Doc) (found : List Reference) → All (λ e. d.uri ≢ e.uri) (map indexed docs)
    → All (λ e. own_refs (e.uri) found ≡ doc_references symbol inc e) docs
    → All
        (λ e. own_refs (e.uri) (doc_references symbol inc d ++ found) ≡ doc_references symbol inc e)
        docs
behind_first symbol inc d short [] found h k = tt
behind_first symbol inc d short (e ∷ docs) found (n, h) (f, k) = (
  own_refs-append (e.uri) (doc_references symbol inc d) found
      ∙ ap₂ (◌++◌)
          (refs_in_other (e.uri) (d.uri) (d.text)
            (keep (stands symbol inc (d.text)) (positions 0 (length (d.text)))) short n)
          f,
  behind_first symbol inc d short docs found h k,
)

-- Of all references those of one document are its own.
own_references :
    (symbol : Bytes) (inc : Bool) (docs : List Doc)
    → AreShort docs
    → AreDistinct (map indexed docs)
    → All
        (λ d.
          own_refs (d.uri) (all_references symbol inc (map indexed docs))
          ≡ doc_references symbol inc d)
        docs
unfolding text_or_empty
own_references symbol inc [] short h = tt
own_references symbol inc (d ∷ docs) (s, short) (others, h) = (
  first,
  behind_first symbol inc d (take_whole 511 (d.uri) s) docs
      (all_references symbol inc (map indexed docs)) others
      (own_references symbol inc docs short h),
)
  where
    first :
        own_refs
          (d.uri)
          (doc_references symbol inc d ++ all_references symbol inc (map indexed docs))
        ≡ doc_references symbol inc d
    first =
        own_refs-append (d.uri) (doc_references symbol inc d)
          (all_references symbol inc (map indexed docs))
        ∙ ap₂ (◌++◌)
            (refs_in_own (d.uri) (d.text)
              (keep (stands symbol inc (d.text)) (positions 0 (length (d.text))))
              (take_whole 511 (d.uri) s))
            (none_of_others symbol inc (d.uri) docs short others)
        ∙ append_nil (doc_references symbol inc d)

-- The text of all the edits, without the end of the buffer.
unfoldable pub blocks_text : Bytes → Bytes → ℕ → List (Bytes × List Reference) → Bytes
blocks_text symbol new_esc blocks [] = []
blocks_text symbol new_esc blocks (b ∷ more) =
    block_text symbol new_esc blocks b.0 b.1 ++ blocks_text symbol new_esc (blocks + 1) more

-- The edits of each document fit the first buffer with 200 bytes to spare, and all of them the
-- second with 512.
pub record Fits (id symbol new_esc : Bytes) (include_comments : Bool) (docs : List Doc)
    : Type 0 where
  pub each :
      All
        (λ d.
          length (edits_text symbol new_esc 0 (doc_references symbol include_comments d)) + 200
          < 8192)
        docs
  pub all :
      length (rename_head id)
        + length (blocks_text symbol new_esc 0 (all_edits symbol include_comments docs))
        + 512
      < 32768

refs_in_fits :
    (uri symbol new_esc : Bytes) (refs : List Reference) (edits eu : ℕ)
    → eu + length (edits_text symbol new_esc edits (own_refs uri refs)) + 200 < 8192
    → refs_in uri symbol new_esc edits eu refs ≡ own_refs uri refs
unfolding refs_in own_refs edits_text
refs_in_fits uri symbol esc [] edits eu = λ h. refl
refs_in_fits uri symbol esc (r ∷ refs) edits eu = elim (Bool-cases (bytes_eq (r.uri) uri)) [
  | inr e ↦ rw e (refs_in_fits uri symbol esc refs edits eu)
  | inl e ↦ rw e (λ h.
      let text = edit_text symbol esc edits r in
      let more = length-append text (edits_text symbol esc (edits + 1) (own_refs uri refs)) in
      let room : leb 8192 (eu + length text + 200) ≡ false = ground (arith, h, more) in
      rw room (
        ap (λ l. r ∷ l)
          (refs_in_fits uri symbol esc refs (edits + 1) (eu + length text)
            (omega (arith, h, more)))))
]

zero_first : (n : ℕ) → n + 200 < 8192 → 0 + n + 200 < 8192
zero_first n h = omega arith

edits_of :
    (g : Index) (symbol new_esc : Bytes) (inc : Bool) (docs : List Doc) (used blocks : ℕ)
    → All
        (λ d.
          refs_in (d.uri) symbol new_esc 0 0 (find_references g symbol inc 512)
          ≡ doc_references symbol inc d)
        docs
    → used + length (blocks_text symbol new_esc blocks (all_edits symbol inc docs)) + 512 < 32768
    → rename_edits g symbol new_esc inc used blocks docs ≡ all_edits symbol inc docs
unfolding rename_edits blocks_text
edits_of g symbol esc inc [] used blocks h = λ l. refl
edits_of g symbol esc inc (d ∷ docs) used blocks (e, h) =
    rw e (elim (Bool-cases (ltb 0 (length (doc_references symbol inc d)))) [
      | inr b ↦ rw b (λ l.
          let room : leb 32768 (used + 512) ≡ false = ground (arith, l) in
          rw room (edits_of g symbol esc inc docs used blocks h l))
      | inl b ↦ rw b (λ l.
          let text = block_text symbol esc blocks (d.uri) (doc_references symbol inc d) in
          let more =
            length-append text (blocks_text symbol esc (blocks + 1) (all_edits symbol inc docs)) in
          let room : leb 32768 (used + length text + 512) ≡ false = ground (arith, l, more) in
          rw room (
            ap (λ x. (d.uri, doc_references symbol inc d) ∷ x)
              (edits_of g symbol esc inc docs (used + length text) (blocks + 1) h
                (omega (arith, l, more)))))
    ])

-- With at most 512 references in all the documents, a renaming replaces in each of them every one
-- of its references, from the first byte to the last, if the index is in step with the server, the
-- names of the documents have at most 511 bytes, and the printed edits fit: those of each document
-- in 8192 bytes with 200 to spare, and all that is printed in 32768 bytes with 512 to spare.
pub rename_edits_lem :
    (id : Bytes) (s : Server) (symbol new_esc : Bytes) (include_comments : Bool)
    → IsServed s
    → AreShort (s.docs)
    → length (all_references symbol include_comments (s.index.docs)) ≤ 512
    → Fits id symbol new_esc include_comments (s.docs)
    → rename_edits (s.index) symbol new_esc include_comments (length (rename_head id)) 0 (s.docs)
      ≡ all_edits symbol include_comments (s.docs)
rename_edits_lem id s symbol esc inc h short few fits =
    edits_of (s.index) symbol esc inc (s.docs) (length (rename_head id)) 0
      (each_whole (s.docs) fits.each (
        own_references symbol inc (s.docs) short (subst AreDistinct (h.same) (h.current.distinct))))
      fits.all
  where
    found :
        find_references (s.index) symbol inc 512 ≡ all_references symbol inc (map indexed (s.docs))
    found =
        find_references_lem (s.index) symbol inc 512
        ∙ take_whole 512 (all_references symbol inc (s.index.docs)) few
        ∙ ap (all_references symbol inc) (h.same)

    each_whole :
        (docs : List Doc)
        → All
            (λ d. length (edits_text symbol esc 0 (doc_references symbol inc d)) + 200 < 8192)
            docs
        → All
            (λ d.
              own_refs (d.uri) (all_references symbol inc (map indexed (s.docs)))
              ≡ doc_references symbol inc d)
            docs
        → All
            (λ d.
              refs_in (d.uri) symbol esc 0 0 (find_references (s.index) symbol inc 512)
              ≡ doc_references symbol inc d)
            docs
    each_whole [] f o = tt
    each_whole (d ∷ docs) (f, fs) (o, os) = (
      ap (refs_in (d.uri) symbol esc 0 0) found
          ∙ refs_in_fits (d.uri) symbol esc (all_references symbol inc (map indexed (s.docs))) 0 0 (
              zero_first _ (subst (λ l. length (edits_text symbol esc 0 l) + 200 < 8192) (sym o) f))
          ∙ o,
      each_whole docs fs os,
    )
