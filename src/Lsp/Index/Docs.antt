-- ===== src/Lsp/Index/Docs.antt =====
-- The documents of the index (`get_or_add_doc` and `nls_index_upsert_doc` in
-- src/lsp/nprt-lsp/index.c).
use nullprt.Lsp.Index.{find_doc, set_text, index_docs, max_docs, IndexDoc, Index}
use nullprt.Base.{
  zero, suc, [], ◌∷◌, true, false, none, refl, if_cases, ◌∙◌, sym, ◌<◌, bytes_eq_iff, arith, Bool,
  All-append, ◌++◌, bytes_eq, ap, ◌≢◌, ◌≡◌, if◌then◌else◌, ◌≤◌, Option, Bytes, ℕ, length, List, All,
}

-- No two documents have one name.
abbrev pub AreDistinct : List IndexDoc → Type 0
AreDistinct [] = Unit
AreDistinct (d ∷ docs) = All (λ e. d.uri ≢ e.uri) docs × AreDistinct docs

-- There is room for the documents, no two have one name, and the symbols and the references are those
-- of the documents as they are now.
pub record IsCurrent (x : Index) : Type 0 where
  pub few : length (x.docs) ≤ max_docs
  pub distinct : AreDistinct (x.docs)
  pub read : (x.symbols, x.refs) ≡ index_docs (x.docs) ([], [])

-- The text of a document.
abbrev pub text_of : Bytes → List IndexDoc → Option Bytes
text_of uri [] = none
text_of uri (d ∷ docs) = if bytes_eq (d.uri) uri then d.text else text_of uri docs

pub set_text-length :
    (i : ℕ) (t : Option Bytes) (docs : List IndexDoc) → length (set_text i t docs) ≡ length docs
unfolding set_text
set_text-length i t [] = refl
set_text-length zero t (d ∷ docs) = refl
set_text-length (suc i) t (d ∷ docs) = ap suc (set_text-length i t docs)

set_text-All :
    (P : Bytes → Type 0) (i : ℕ) (t : Option Bytes) (docs : List IndexDoc)
    → All (λ d. P (d.uri)) docs
    → All (λ d. P (d.uri)) (set_text i t docs)
unfolding set_text
set_text-All P i t [] h = tt
set_text-All P zero t (d ∷ docs) h = h
set_text-All P (suc i) t (d ∷ docs) h = (h.0, set_text-All P i t docs h.1)

pub set_text-AreDistinct :
    (i : ℕ) (t : Option Bytes) (docs : List IndexDoc)
    → AreDistinct docs
    → AreDistinct (set_text i t docs)
unfolding set_text
set_text-AreDistinct i t [] h = tt
set_text-AreDistinct zero t (d ∷ docs) h = h
set_text-AreDistinct (suc i) t (d ∷ docs) h =
    (set_text-All (λ u. d.uri ≢ u) i t docs h.0, set_text-AreDistinct i t docs h.1)

-- Behind the last document the name is that of none.
pub find_doc-absent :
    (uri : Bytes) (docs : List IndexDoc)
    → length docs ≤ find_doc uri docs
    → All (λ d. d.uri ≢ uri) docs
unfolding find_doc
find_doc-absent uri [] = λ h. tt
find_doc-absent uri (d ∷ docs) =
    if_cases (λ n. length (d ∷ docs) ≤ n → All (λ e. e.uri ≢ uri) (d ∷ docs)) (bytes_eq (d.uri) uri)
      0 (suc (find_doc uri docs)) (λ e h. absurd (omega arith))
      (λ e h. (
        λ same. ground (arith, e, (bytes_eq_iff (d.uri) uri).1 same),
        find_doc-absent uri docs (omega arith),
      ))

pub AreDistinct-added :
    (docs : List IndexDoc) (d : IndexDoc)
    → AreDistinct docs
    → All (λ e. e.uri ≢ d.uri) docs
    → AreDistinct (docs ++ (d ∷ []))
AreDistinct-added [] d h k = (tt, tt)
AreDistinct-added (e ∷ docs) d h k =
    (All-append (λ f. e.uri ≢ f.uri) docs (d ∷ []) h.0 (k.0, tt), AreDistinct-added docs d h.1 k.1)

pub find_doc-added :
    (uri : Bytes) (docs : List IndexDoc) (d : IndexDoc)
    → All (λ e. e.uri ≢ uri) docs
    → d.uri ≡ uri
    → find_doc uri (docs ++ (d ∷ [])) ≡ length docs
unfolding find_doc
find_doc-added uri [] d h e = ground (arith, (bytes_eq_iff (d.uri) uri).1 e)
find_doc-added uri (f ∷ docs) d h e =
    if_cases (λ n. n ≡ suc (length docs)) (bytes_eq (f.uri) uri) 0
      (suc (find_doc uri (docs ++ (d ∷ [])))) (λ k. absurd (h.0 ((bytes_eq_iff (f.uri) uri).0 k)))
      (λ k. ap suc (find_doc-added uri docs d h.1 e))

pub text_of-added :
    (v : Bytes) (docs : List IndexDoc) (d : IndexDoc)
    → d.uri ≢ v
    → text_of v (docs ++ (d ∷ [])) ≡ text_of v docs
text_of-added v [] d n =
    if_cases (λ t. t ≡ none) (bytes_eq (d.uri) v) (d.text) none
      (λ e. absurd (n ((bytes_eq_iff (d.uri) v).0 e))) (λ e. refl)
text_of-added v (f ∷ docs) d n =
    ap (λ t. if bytes_eq (f.uri) v then f.text else t) (text_of-added v docs d n)

pub text_of-set_text :
    (uri : Bytes) (t : Option Bytes) (docs : List IndexDoc)
    → find_doc uri docs < length docs
    → text_of uri (set_text (find_doc uri docs) t docs) ≡ t
unfolding find_doc set_text
text_of-set_text uri t [] = λ h. absurd (omega arith)
text_of-set_text uri t (d ∷ docs) =
    by_test (bytes_eq (d.uri) uri) refl (text_of-set_text uri t docs)
  where
    by_test :
        (b : Bool)
        → bytes_eq (d.uri) uri ≡ b
        → (find_doc uri docs < length docs → text_of uri (set_text (find_doc uri docs) t docs) ≡ t)
        → (if b then 0 else suc (find_doc uri docs)) < suc (length docs)
        → text_of uri (set_text (if b then 0 else suc (find_doc uri docs)) t (d ∷ docs)) ≡ t
    by_test true e k h = ap (λ c. if c then t else text_of uri docs) e
    by_test false e k h =
        ap (λ c. if c then d.text else text_of uri (set_text (find_doc uri docs) t docs)) e
        ∙ k (omega arith)

pub text_of-set_other :
    (v uri : Bytes) (t : Option Bytes) (docs : List IndexDoc)
    → v ≢ uri
    → text_of v (set_text (find_doc uri docs) t docs) ≡ text_of v docs
unfolding find_doc set_text
text_of-set_other v uri t [] n = refl
text_of-set_other v uri t (d ∷ docs) n =
    by_test (bytes_eq (d.uri) uri) refl (text_of-set_other v uri t docs n)
  where
    by_test :
        (b : Bool)
        → bytes_eq (d.uri) uri ≡ b
        → text_of v (set_text (find_doc uri docs) t docs) ≡ text_of v docs
        → text_of v (set_text (if b then 0 else suc (find_doc uri docs)) t (d ∷ docs))
          ≡ text_of v (d ∷ docs)
    by_test true e k =
        if_cases (λ r. (if bytes_eq (d.uri) v then t else text_of v docs) ≡ r) (bytes_eq (d.uri) v)
          (d.text) (text_of v docs)
          (λ f. absurd (n (sym ((bytes_eq_iff (d.uri) v).0 f) ∙ (bytes_eq_iff (d.uri) uri).0 e)))
          (λ f. ap (λ c. if c then t else text_of v docs) f)
    by_test false e k = ap (λ r. if bytes_eq (d.uri) v then d.text else r) k
