-- ===== src/Lsp/Server/Opened.antt =====
-- Opening and changing documents (`on_did_open_or_change` in src/lsp/nprt-lsp/main.c).
use nullprt.Lsp.Index.{
  index_reset, index_upsert_doc, index_docs, Index, get_or_add_doc, set_text, IndexDoc,
}
use nullprt.Lsp.Server.{
  analyze_and_publish, on_did_open_or_change, server_init, is_source, open_text, set_doc_text, Doc,
  Server,
}
use nullprt.Base.{
  [], true, none, some, refl, ◌+◌, codes, Bool, ◌∙◌, arith, ap, ◌≤◌, ◌≡◌, Option, Bytes,
  if◌then◌else◌, ℕ, if_cases, length, List,
}
use nullprt.Lsp.Messages.{uri_ext, json_find_string_value}
use nullprt.Lsp.Index.Upsert.{index_upsert_doc-IsCurrent, index_reset-IsCurrent}
use nullprt.Aegc1.Extension.{extension_lookup}
use nullprt.Lsp.Server.Agrees.{IsServed, places_agree, set_doc_text-length}

-- An update with room: the documents after it.
upsert_docs :
    (malloc : ℕ → Bool) (uri text : Bytes) (x : Index) (i : ℕ) (new : List IndexDoc)
    → ((n : ℕ) → malloc n ≡ true)
    → get_or_add_doc (x.docs) uri ≡ some (i, new)
    → (index_upsert_doc malloc uri text x).docs ≡ set_text i (some text) new
unfolding index_upsert_doc
upsert_docs malloc uri text x i new room e =
    ap (λ o. (updated o).docs) e ∙ ap (λ b. (chosen b).docs) (room (length text + 1))
  where
    chosen : Bool → Index
    chosen b =
        if b
        then (let docs = set_text i (some text) new in
            let read = index_docs docs ([], []) in
            record { docs = docs; symbols = read.0; refs = read.1 })
        else record { docs = set_text i none new; symbols = x.symbols; refs = x.refs }

    updated : Option (ℕ × List IndexDoc) → Index
    updated none = x
    updated (some r) =
        if malloc (length text + 1)
        then (let docs = set_text r.0 (some text) r.1 in
            let read = index_docs docs ([], []) in
            record { docs = docs; symbols = read.0; refs = read.1 })
        else record { docs = set_text r.0 none r.1; symbols = x.symbols; refs = x.refs }

open_text-IsServed :
    (malloc : ℕ → Bool) (uri text : Bytes) (s : Server)
    → ((n : ℕ) → malloc n ≡ true)
    → length uri ≤ 511
    → IsServed s
    → IsServed (open_text malloc uri text s)
unfolding open_text analyze_and_publish
open_text-IsServed malloc uri text s room short h =
    places_agree (s.docs) uri (h.few) short (λ o. IsServed (opened o))
      (λ i new inew few place agrees. record {
        few = omega (arith, set_doc_text-length i text new);
        same =
            upsert_docs malloc uri text (s.index) i inew room
              (ap (λ l. get_or_add_doc l uri) (h.same) ∙ place)
            ∙ agrees text;
        current = (index_upsert_doc-IsCurrent malloc uri text (s.index) room short (h.current)).0;
      })
      h
  where
    opened : Option (ℕ × List Doc) → Server
    opened none = s
    opened (some r) = analyze_and_publish uri text (record {
      docs = set_doc_text r.0 text r.1;
      index = index_upsert_doc malloc uri text (s.index);
      diag_uri = s.diag_uri;
      diag_error = s.diag_error;
    })

pub server_init-IsServed : IsServed server_init
unfolding server_init index_reset
server_init-IsServed = record { few = omega arith; same = refl; current = index_reset-IsCurrent }

-- After any message that opens or changes a document the index is current, and its documents are those of
-- the server with the same texts, if it was so before, the name in the message has at most 511 bytes
-- and no allocation fails.
pub on_did_open_or_change-IsServed :
    (malloc : ℕ → Bool) (body : Bytes) (s : Server)
    → ((n : ℕ) → malloc n ≡ true)
    → ((uri : Bytes) → json_find_string_value body (codes "uri") ≡ some uri → length uri ≤ 511)
    → IsServed s
    → IsServed (on_did_open_or_change malloc body s)
unfolding on_did_open_or_change
on_did_open_or_change-IsServed malloc body s room short h =
    by_uri (json_find_string_value body (codes "uri")) short
  where
    by_text :
        (uri : Bytes)
        → length uri ≤ 511
        → (text : Option Bytes)
        → IsServed (elim text [ none ↦ s | some t ↦ open_text malloc uri t s ])
    by_text uri l none = h
    by_text uri l (some text) = open_text-IsServed malloc uri text s room l h

    by_uri :
        (o : Option Bytes)
        → ((uri : Bytes) → o ≡ some uri → length uri ≤ 511)
        → IsServed (elim o [
          | none ↦ s
          | some uri ↦
              if is_source (extension_lookup (uri_ext uri))
              then elim (json_find_string_value body (codes "text")) [
                | none ↦ s
                | some text ↦ open_text malloc uri text s
              ]
              else s
        ])
    by_uri none l = h
    by_uri (some uri) l =
        if_cases IsServed (is_source (extension_lookup (uri_ext uri))) _ s
          (λ e. by_text uri (l uri refl) (json_find_string_value body (codes "text"))) (λ e. h)
