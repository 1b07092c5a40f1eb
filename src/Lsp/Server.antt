-- ===== src/Lsp/Server.antt =====
-- The state of the language server and what its handlers decide (src/lsp/nprt-lsp/main.c). What they
-- print of it, and the numbers they read with `atoi`, are left out; a handler that answers `null` has
-- `none`. `malloc` says of a size whether there is room; only the index asks for its answer.
pub mod Agrees
pub mod Opened
pub mod Answers
use nullprt.Base.{
  ◌++◌, leb, length, ◌&&◌, ltb, take, if◌then◌else◌, codes, bytes_eq, List, Bytes, Bool, zero, suc,
  [], ◌∷◌, true, false, none, some, inl, inr, refl, ℕ,
}
use nullprt.Lsp.Query.{find_macro_expansion, find_references, find_definition}
use nullprt.Lsp.Text.{extract_symbol_at}
use nullprt.Lsp.Index.{Reference, Index, index_upsert_doc, index_reset}
use nullprt.Base.Int.{is_nonneg, ℤ}
use nullprt.Aegc1.Extension.{extension_lookup, ExtensionInfo}
use mathlib.Core.Option.{Option}
use nullprt.Lsp.Messages.{uri_ext, json_find_string_value}
use nullprt.Aegc0.Statements.{parse_program}
use nullprt.Aegc0.Parser.{parser_init}
use mathlib.Core.Option

pub record Doc : Type 0 where
  pub uri : Bytes
  pub text : Bytes

-- `diag_error` says whether there is a message in the cache of diagnostics.
pub record Server : Type 0 where
  pub docs : List Doc
  pub index : Index
  pub diag_uri : Bytes
  pub diag_error : Bool

abbrev pub max_server_docs : ℕ
max_server_docs = 64

unfoldable pub server_init : Server
server_init = record { docs = []; index = index_reset; diag_uri = []; diag_error = false }

unfoldable pub find_text : Bytes → List Doc → Option Bytes
find_text uri [] = none
find_text uri (d ∷ docs) = if bytes_eq (d.uri) uri then some (d.text) else find_text uri docs

unfoldable pub doc_index : Bytes → List Doc → ℕ
doc_index uri [] = 0
doc_index uri (d ∷ docs) = if bytes_eq (d.uri) uri then 0 else suc (doc_index uri docs)

unfoldable pub get_or_add_server_doc : List Doc → Bytes → Option (ℕ × List Doc)
get_or_add_server_doc docs uri =
    if ltb (doc_index uri docs) (length docs)
    then some (doc_index uri docs, docs)
    else if leb max_server_docs (length docs)
    then none
    else some (length docs, docs ++ (record { uri = uri; text = [] } ∷ []))

-- `free(d->text); d->text = text;`
unfoldable pub set_doc_text : ℕ → Bytes → List Doc → List Doc
set_doc_text i text [] = []
set_doc_text zero text (d ∷ docs) = record { uri = d.uri; text = text } ∷ docs
set_doc_text (suc i) text (d ∷ docs) = d ∷ set_doc_text i text docs

-- Whether the parser of the compiler reports an error; it always ends.
unfoldable pub has_parse_error : Bytes → Bool
has_parse_error text = elim (parse_program (parser_init text)) [
  | none ↦ true
  | some r ↦ r.1.had_error
]

unfoldable pub analyze_and_publish : Bytes → Bytes → Server → Server
analyze_and_publish uri text s = record {
  docs = s.docs;
  index = s.index;
  diag_uri = take 511 uri;
  diag_error = has_parse_error text;
}

-- A text for a document of the server.
unfoldable pub open_text : (ℕ → Bool) → Bytes → Bytes → Server → Server
open_text malloc uri text s = elim (get_or_add_server_doc (s.docs) uri) [
  | none ↦ s
  | some r ↦ analyze_and_publish uri text (record {
    docs = set_doc_text r.0 text r.1;
    index = index_upsert_doc malloc uri text (s.index);
    diag_uri = s.diag_uri;
    diag_error = s.diag_error;
  })
]

abbrev pub is_source : Option ExtensionInfo → Bool
is_source none = false
is_source (some info) = bytes_eq (info.kind) (codes "source")

unfoldable pub on_did_open_or_change : (ℕ → Bool) → Bytes → Server → Server
on_did_open_or_change malloc body s = elim (json_find_string_value body (codes "uri")) [
  | none ↦ s
  | some uri ↦
      if is_source (extension_lookup (uri_ext uri))
      then elim (json_find_string_value body (codes "text")) [
        | none ↦ s
        | some text ↦ open_text malloc uri text s
      ]
      else s
]

-- `handle_pull_diagnostic`: whether the one error is sent.
unfoldable pub pull_diagnostic : Option Bytes → Server → Bool
pull_diagnostic none s = false
pull_diagnostic (some uri) s = bytes_eq uri (s.diag_uri) && s.diag_error

-- The word under the cursor, which the handlers ask for first.
unfoldable pub symbol_under : Server → Option Bytes → ℤ → ℤ → Option (Bytes × Bytes)
symbol_under s none line ch = none
symbol_under s (some uri) line ch = elim (is_nonneg line && is_nonneg ch) [
  | false ↦ none
  | true ↦ elim (find_text uri (s.docs)) [
    | none ↦ none
    | some text ↦ Option.map (λ sym. (uri, sym)) (extract_symbol_at text line ch 128)
  ]
]

-- `handle_definition`: the place of the definition, and the length of the name there.
unfoldable pub definition : Server → Option Bytes → ℤ → ℤ → Option ((ℕ × ℕ × Bytes) × ℕ)
definition s uri line ch = elim (symbol_under s uri line ch) [
  | none ↦ none
  | some u ↦ elim (find_definition (s.index) u.1 u.0 512) [
    | some p ↦ some (p, length u.1)
    | none ↦ Option.map (λ p. (p, length u.1)) (find_macro_expansion (s.index) u.1 512)
  ]
]

-- `handle_references`: the first 64 of at most 256 references; the end of the buffer is left out.
unfoldable pub references : Server → Option Bytes → ℤ → ℤ → Bool → List Reference
references s uri line ch include_comments = elim (symbol_under s uri line ch) [
  | none ↦ []
  | some u ↦ take 64 (find_references (s.index) u.1 include_comments 256)
]
