-- ===== src/Lsp/Index/Upsert.antt =====
-- The update of a document (`nls_index_upsert_doc` in src/lsp/nprt-lsp/index.c).
use nullprt.Lsp.Index.Docs.{
  text_of-set_other, text_of-set_text, set_text-AreDistinct, set_text-length, find_doc-absent,
  text_of-added, find_doc-added, AreDistinct-added, IsCurrent, AreDistinct, text_of,
}
use mathlib.Core.Path.{ap, sym, subst}
use nullprt.Lsp.Index.{
  get_or_add_doc, index_docs, index_reset, index_upsert_doc, max_docs, IndexDoc, find_doc, set_text,
  Index,
}
use nullprt.Base.{
  [], ◌∷◌, true, false, none, some, inl, inr, refl, ltb, ◌∙◌, length-append, ◌++◌, ◌+◌, leb,
  take_whole, if◌then◌else◌, ◌≢◌, ◌<◌, ◌⊎◌, ◌≤◌, ◌≡◌, Bytes, arith, Option, Bool, ℕ, take, length,
  List, All, if_cases,
}

-- What `get_or_add_doc` gives: the place of the document with the name, among the same documents with
-- at most that one added.
record IsPlaced (docs : List IndexDoc) (uri : Bytes) (i : ℕ) (new : List IndexDoc) : Type 0 where
  few : length new ≤ max_docs
  distinct : AreDistinct new
  at : i ≡ find_doc uri new
  inside : i < length new
  others : (v : Bytes) → v ≢ uri → text_of v new ≡ text_of v docs

get_or_add_doc_cases :
    (P : Option (ℕ × List IndexDoc) → Type 0) (docs : List IndexDoc) (uri : Bytes)
    → length docs ≤ max_docs
    → AreDistinct docs
    → length uri ≤ 511
    → ((i : ℕ) (new : List IndexDoc) → IsPlaced docs uri i new → P (some (i, new)))
    → (length docs ≡ max_docs → All (λ d. d.uri ≢ uri) docs → P none)
    → P (get_or_add_doc docs uri)
unfolding get_or_add_doc
get_or_add_doc_cases P docs uri few distinct short placed full =
    if_cases P (ltb (find_doc uri docs) (length docs)) _ _
      (λ e. placed (find_doc uri docs) docs (record {
        few = few;
        distinct = distinct;
        at = refl;
        inside = ground (arith, e);
        others = λ v n. refl;
      }))
      (λ e.
        let absent = find_doc-absent uri docs (ground (arith, e)) in
        if_cases P (leb max_docs (length docs)) _ _ (λ f. full (ground (arith, few, f)) absent)
          (λ f. placed (length docs) (docs ++ (added ∷ [])) (new_placed absent f)))
  where
    added : IndexDoc
    added = record { uri = take 511 uri; text = none }

    same : take 511 uri ≡ uri
    same = take_whole 511 uri short

    new_placed :
        All (λ d. d.uri ≢ uri) docs
        → leb max_docs (length docs) ≡ false
        → IsPlaced docs uri (length docs) (docs ++ (added ∷ []))
    new_placed absent f = record {
      few = ground (arith, length-append docs (added ∷ []), f);
      distinct =
          AreDistinct-added docs added distinct
            (subst (λ u. All (λ d. d.uri ≢ u) docs) (sym same) absent);
      at = sym (find_doc-added uri docs added absent same);
      inside = omega (arith, length-append docs (added ∷ []));
      others = λ v n. text_of-added v docs added (λ e. n (sym e ∙ same));
    }

-- The index is current at the start.
pub index_reset-IsCurrent : IsCurrent index_reset
unfolding index_reset index_docs
index_reset-IsCurrent = record { few = omega arith; distinct = tt; read = refl }

-- What an update does to the index.
abbrev pub IsUpdate : Bytes → Bytes → Index → Index → Type 0
IsUpdate uri text x y =
    IsCurrent y
    × ((text_of uri (y.docs) ≡ some text)
        ⊎ ((length (x.docs) ≡ max_docs) × All (λ d. d.uri ≢ uri) (x.docs)))
    × ((v : Bytes) → v ≢ uri → text_of v (y.docs) ≡ text_of v (x.docs))

placed-IsUpdate :
    (uri text : Bytes) (x : Index) (i : ℕ) (new : List IndexDoc)
    → IsPlaced (x.docs) uri i new
    → let docs = set_text i (some text) new in
      let read = index_docs docs ([], []) in
      IsUpdate uri text x (record { docs = docs; symbols = read.0; refs = read.1 })
placed-IsUpdate uri text x i new p = (
  record {
    few = omega (arith, set_text-length i (some text) new, p.few);
    distinct = set_text-AreDistinct i (some text) new (p.distinct);
    read = refl;
  },
  inl (
      ap (λ j. text_of uri (set_text j (some text) new)) (p.at)
      ∙ text_of-set_text uri (some text) new (omega (arith, p.at, p.inside))),
  λ v n.
      ap (λ j. text_of v (set_text j (some text) new)) (p.at)
      ∙ text_of-set_other v uri (some text) new n
      ∙ p.others v n,
)

-- With a name of at most 511 bytes and no allocation that fails, an update keeps the index current: at
-- most 128 documents, no two of one name, and the symbols and the references those of the documents as
-- they are after it. The document then has the new text, if it was there before or there was room for
-- one more; the texts of all others are as before.
pub index_upsert_doc-IsCurrent :
    (malloc : ℕ → Bool) (uri text : Bytes) (x : Index)
    → ((n : ℕ) → malloc n ≡ true)
    → length uri ≤ 511
    → IsCurrent x
    → IsUpdate uri text x (index_upsert_doc malloc uri text x)
unfolding index_upsert_doc
index_upsert_doc-IsCurrent malloc uri text x room short c =
    get_or_add_doc_cases (λ o. IsUpdate uri text x (updated o)) (x.docs) uri (c.few) (c.distinct)
      short
      (λ i new p.
        if_cases (IsUpdate uri text x) (malloc (length text + 1)) _ _
          (λ e. placed-IsUpdate uri text x i new p)
          (λ e. absurd (ground (arith, e, room (length text + 1)))))
      (λ e absent. (c, inr (e, absent), λ v n. refl))
  where
    updated : Option (ℕ × List IndexDoc) → Index
    updated none = x
    updated (some r) =
        if malloc (length text + 1)
        then (let docs = set_text r.0 (some text) r.1 in
            let read = index_docs docs ([], []) in
            record { docs = docs; symbols = read.0; refs = read.1 })
        else record { docs = set_text r.0 none r.1; symbols = x.symbols; refs = x.refs }
