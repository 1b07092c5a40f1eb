-- ===== src/Lsp/Rename.antt =====
-- Renaming (`handle_prepare_rename` and `handle_rename` in src/lsp/nprt-lsp/main.c), up to the range
-- and to which edits are sent; what is lost of a text that is cut at the end of its buffer is left
-- out.
pub mod Complete
pub mod Range
use nullprt.Base.{
  zero, suc, [], ◌∷◌, true, false, none, some, inl, inr, refl, leb, ◌==◌, ◌+◌, ◌++◌, codes, take,
  length, ltb, bytes_eq, if◌then◌else◌, List, Bool, Option, Bytes, ℕ,
}
use nullprt.Aegc0.Emit.{decimal}
use nullprt.Lsp.Messages.{json_escape}
use nullprt.Lsp.Text.{word_start, offset_to_line_col, text_offset_for_position}
use nullprt.Lsp.Server.{find_text, Server, Doc, symbol_under}
use nullprt.Lsp.Index.{Reference, Index}
use nullprt.Base.Int.{ℤ}
use nullprt.Lsp.Query.{find_references}
use mathlib.Core.Option

-- An edit as it is printed; a comma stands before all but the first.
unfoldable pub edit_text : Bytes → Bytes → ℕ → Reference → Bytes
edit_text sym new_esc edits r =
    (if edits == 0 then [] else codes ",")
    ++ (codes "{\"range\":{\"start\":{\"line\":"
        ++ (decimal r.line
            ++ (codes ",\"character\":"
                ++ (decimal r.col
                    ++ (codes "},\"end\":{\"line\":"
                        ++ (decimal r.line
                            ++ (codes ",\"character\":"
                                ++ (decimal (r.col + length sym)
                                    ++ (codes "}},\"newText\":\""
                                        ++ (new_esc ++ codes "\"}"))))))))))

-- The loop over all references: those of one document are replaced, up to the one with which the
-- buffer of 8192 bytes has no 200 left. `eu` counts the bytes that are printed.
unfoldable pub refs_in : Bytes → Bytes → Bytes → ℕ → ℕ → List Reference → List Reference
refs_in uri sym new_esc edits eu [] = []
refs_in uri sym new_esc edits eu (r ∷ refs) =
    let printed = eu + length (edit_text sym new_esc edits r) in
    let more = refs_in uri sym new_esc (edits + 1) printed refs in
    let skip = refs_in uri sym new_esc edits eu refs in
    if bytes_eq (r.uri) uri then r ∷ (if leb 8192 (printed + 200) then [] else more) else skip

-- What is printed of those references, without the end of the buffer.
unfoldable pub edits_text : Bytes → Bytes → ℕ → List Reference → Bytes
edits_text sym new_esc edits [] = []
edits_text sym new_esc edits (r ∷ refs) =
    edit_text sym new_esc edits r ++ edits_text sym new_esc (edits + 1) refs

-- The edits of a document as they are printed, cut at the end of their buffer.
unfoldable pub block_text : Bytes → Bytes → ℕ → Bytes → List Reference → Bytes
block_text sym new_esc blocks uri refs =
    (if blocks == 0 then [] else codes ",")
    ++ (codes "{\"textDocument\":{\"uri\":\""
        ++ (json_escape uri
            ++ (codes "\",\"version\":1},\"edits\":["
                ++ (take 8191 (edits_text sym new_esc 0 refs) ++ codes "]}"))))

-- The loop over the documents: for each its name and what is replaced in it, if anything is, up to
-- the one with which the buffer of 32768 bytes has no 512 left. `used` counts the bytes of it.
unfoldable pub rename_edits :
    Index → Bytes → Bytes → Bool → ℕ → ℕ → List Doc → List (Bytes × List Reference)
rename_edits g sym new_esc include_comments used blocks [] = []
rename_edits g sym new_esc include_comments used blocks (d ∷ docs) =
    let edits = refs_in (d.uri) sym new_esc 0 0 (find_references g sym include_comments 512) in
    let printed = used + length (block_text sym new_esc blocks (d.uri) edits) in
    let after_block = rename_edits g sym new_esc include_comments printed (blocks + 1) docs in
    let after_none = rename_edits g sym new_esc include_comments used blocks docs in
    if ltb 0 (length edits)
    then (d.uri, edits) ∷ (if leb 32768 (printed + 512) then [] else after_block)
    else if leb 32768 (used + 512)
    then []
    else after_none

-- What is printed before the first document; `id` is the number of the request as it is printed.
unfoldable pub rename_head : Bytes → Bytes
rename_head id =
    codes "{\"jsonrpc\":\"2.0\",\"id\":" ++ (id ++ codes ",\"result\":{\"documentChanges\":[")

-- `none` is the answer `null`.
unfoldable pub rename :
    Bytes
    → Server
    → Option Bytes
    → Option Bytes
    → ℤ
    → ℤ
    → Bool
    → Option (List (Bytes × List Reference))
rename id s uri none line ch include_comments = none
rename id s uri (some []) line ch include_comments = none
rename id s uri (some (c ∷ new_name)) line ch include_comments = elim (symbol_under s uri line ch) [
  | none ↦ none
  | some u ↦ some (
      rename_edits (s.index) u.1 (json_escape (c ∷ new_name)) include_comments
        (length (rename_head id)) 0 (s.docs))
]

-- The start of the name is looked for from the position on, as in `text`, which is the text of the document
-- once the name was found in it.
unfoldable pub name_start : Bytes → ℤ → ℤ → ℕ × ℕ
name_start text line ch = elim (text_offset_for_position text line ch) [
  | none ↦ offset_to_line_col text 0
  | some off ↦ offset_to_line_col text (word_start text off)
]

-- The line and the column of the name, and the name.
unfoldable pub prepare_rename : Server → Option Bytes → ℤ → ℤ → Option ((ℕ × ℕ) × Bytes)
prepare_rename s uri line ch = elim (symbol_under s uri line ch) [
  | none ↦ none
  | some u ↦ Option.map (λ text. (name_start text line ch, u.1)) (find_text u.0 (s.docs))
]
