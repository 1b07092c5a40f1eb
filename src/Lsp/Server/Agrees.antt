-- ===== src/Lsp/Server/Agrees.antt =====
-- The documents of the language server and those of its index (src/lsp/nprt-lsp/main.c and index.c) are
-- two tables of one content.
use nullprt.Lsp.Index.{find_doc, get_or_add_doc, set_text, max_docs, IndexDoc}
use nullprt.Lsp.Server.{
  doc_index, get_or_add_server_doc, set_doc_text, max_server_docs, Doc, Server,
}
use nullprt.Base.{
  zero, suc, [], ◌∷◌, false, none, some, refl, ◌∙◌, sym, arith, ap₂, ltb, leb, take, bytes_eq, ap,
  ◌≤◌, ◌≡◌, ◌++◌, Option, Bytes, length-append, take_whole, if◌then◌else◌, ℕ, if_cases, length, map,
  List,
}
use nullprt.Lsp.Index.Docs.{IsCurrent}

abbrev pub indexed : Doc → IndexDoc
indexed d = record { uri = d.uri; text = some (d.text) }

-- The index is current, and its documents are those of the server, with their texts.
pub record IsServed (s : Server) : Type 0 where
  pub few : length (s.docs) ≤ max_server_docs
  pub same : s.index.docs ≡ map indexed (s.docs)
  pub current : IsCurrent (s.index)

length-map : {A B : Type 0} (f : A → B) (xs : List A) → length (map f xs) ≡ length xs
length-map f [] = refl
length-map f (x ∷ xs) = ap suc (length-map f xs)

map-append : {A B : Type 0} (f : A → B) (xs ys : List A) → map f (xs ++ ys) ≡ map f xs ++ map f ys
map-append f [] ys = refl
map-append f (x ∷ xs) ys = ap (λ l. f x ∷ l) (map-append f xs ys)

find_doc-indexed :
    (uri : Bytes) (docs : List Doc) → find_doc uri (map indexed docs) ≡ doc_index uri docs
unfolding find_doc doc_index
find_doc-indexed uri [] = refl
find_doc-indexed uri (d ∷ docs) =
    ap (λ n. if bytes_eq (d.uri) uri then 0 else suc n) (find_doc-indexed uri docs)

set_text-indexed :
    (i : ℕ) (text : Bytes) (docs : List Doc)
    → set_text i (some text) (map indexed docs) ≡ map indexed (set_doc_text i text docs)
unfolding set_text set_doc_text
set_text-indexed i text [] = refl
set_text-indexed zero text (d ∷ docs) = refl
set_text-indexed (suc i) text (d ∷ docs) = ap (λ l. indexed d ∷ l) (set_text-indexed i text docs)

set_text-last :
    (docs : List IndexDoc) (d : IndexDoc) (t : Option Bytes)
    → set_text (length docs) t (docs ++ (d ∷ [])) ≡ docs ++ (record { uri = d.uri; text = t } ∷ [])
unfolding set_text
set_text-last [] d t = refl
set_text-last (e ∷ docs) d t = ap (λ l. e ∷ l) (set_text-last docs d t)

set_doc_text-last :
    (docs : List Doc) (d : Doc) (t : Bytes)
    → set_doc_text (length docs) t (docs ++ (d ∷ []))
      ≡ docs ++ (record { uri = d.uri; text = t } ∷ [])
unfolding set_doc_text
set_doc_text-last [] d t = refl
set_doc_text-last (e ∷ docs) d t = ap (λ l. e ∷ l) (set_doc_text-last docs d t)

pub set_doc_text-length :
    (i : ℕ) (t : Bytes) (docs : List Doc) → length (set_doc_text i t docs) ≡ length docs
unfolding set_doc_text
set_doc_text-length i t [] = refl
set_doc_text-length zero t (d ∷ docs) = refl
set_doc_text-length (suc i) t (d ∷ docs) = ap suc (set_doc_text-length i t docs)

-- Both tables give one place for a name, or the table of the server is full.
pub places_agree :
    (docs : List Doc) (uri : Bytes)
    → length docs ≤ max_server_docs
    → length uri ≤ 511
    → (P : Option (ℕ × List Doc) → Type 0)
    → ((i : ℕ) (new : List Doc) (inew : List IndexDoc)
        → length new ≤ max_server_docs
        → get_or_add_doc (map indexed docs) uri ≡ some (i, inew)
        → ((text : Bytes) → set_text i (some text) inew ≡ map indexed (set_doc_text i text new))
        → P (some (i, new)))
    → P none
    → P (get_or_add_server_doc docs uri)
unfolding get_or_add_server_doc get_or_add_doc
places_agree docs uri few short P placed full =
    if_cases P (ltb (doc_index uri docs) (length docs)) _ _
      (λ e.
        placed (doc_index uri docs) docs (map indexed docs) few
          (ap
              (λ b.
                if b
                then some (find_doc uri (map indexed docs), map indexed docs)
                else added_or_none)
              (same_test ∙ e)
            ∙ ap (λ n. some (n, map indexed docs)) (find_doc-indexed uri docs))
          (λ text. set_text-indexed (doc_index uri docs) text docs))
      (λ e.
        if_cases P (leb max_server_docs (length docs)) _ _ (λ f. full)
          (λ f.
            placed (length docs) (docs ++ (record { uri = uri; text = [] } ∷ []))
              (map indexed docs ++ (iadded ∷ []))
              (ground (arith, f, length-append docs (record { uri = uri; text = [] } ∷ [])))
              (ap
                  (λ b.
                    if b
                    then some (find_doc uri (map indexed docs), map indexed docs)
                    else added_or_none)
                  (same_test ∙ e)
                ∙ ap
                    (λ b.
                      if b
                      then none
                      else some (length (map indexed docs), map indexed docs ++ (iadded ∷ [])))
                    (room f)
                ∙ ap (λ n. some (n, map indexed docs ++ (iadded ∷ []))) (length-map indexed docs))
              last_agrees))
  where
    iadded : IndexDoc
    iadded = record { uri = take 511 uri; text = none }

    added_or_none : Option (ℕ × List IndexDoc)
    added_or_none =
        if leb max_docs (length (map indexed docs))
        then none
        else some (length (map indexed docs), map indexed docs ++ (iadded ∷ []))

    same_test :
        ltb (find_doc uri (map indexed docs)) (length (map indexed docs))
        ≡ ltb (doc_index uri docs) (length docs)
    same_test = ap₂ ltb (find_doc-indexed uri docs) (length-map indexed docs)

    room :
        leb max_server_docs (length docs) ≡ false → leb max_docs (length (map indexed docs)) ≡ false
    room f = ground (arith, f, length-map indexed docs)

    last_agrees :
        (text : Bytes)
        → set_text (length docs) (some text) (map indexed docs ++ (iadded ∷ []))
          ≡ map indexed
              (set_doc_text (length docs) text (docs ++ (record { uri = uri; text = [] } ∷ [])))
    last_agrees text =
        ap (λ n. set_text n (some text) (map indexed docs ++ (iadded ∷ [])))
          (sym (length-map indexed docs))
        ∙ set_text-last (map indexed docs) iadded (some text)
        ∙ ap (λ u. map indexed docs ++ (record { uri = u; text = some text } ∷ []))
            (take_whole 511 uri short)
        ∙ sym (map-append indexed docs (record { uri = uri; text = text } ∷ []))
        ∙ ap (map indexed) (sym (set_doc_text-last docs (record { uri = uri; text = [] }) text))
