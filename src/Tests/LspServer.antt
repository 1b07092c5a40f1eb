-- ===== src/Tests/LspServer.antt =====
-- The language server at concrete messages and texts, and its theorems applied.

use nullprt.Aegc0.Emit.{decimal, digits, each}
use nullprt.Aegc1.Extension.{extension_lookup, lookup_in}
use nullprt.Base.{
  bytes_eq, is_alnum, is_alpha, is_digit, occurs, starts_with, [], ◌∷◌, true, false, none, some,
  inr, refl, ◌≢◌, ◌<◌, ◌⊎◌, ◌↔◌, ◌+◌, sym, ◌∙◌, List, Bytes, ◌++◌, ◌≤◌, ◌≡◌, Bool, ℕ, codes, arith,
  length, take, drop, map, All,
}
use nullprt.Base.Sort.{exchange, exchange_sort, IsSorted}
use nullprt.Lsp.Format.{
  normalize_loop, normalize_spaces_copy, format_document, format_document_lem, IsNormal,
}
use nullprt.Lsp.Handlers.{completions, hover}
use nullprt.Lsp.Index.{
  add_ref, blanks, declare, find_doc, get_or_add_doc, index_doc_refs, index_doc_symbols, index_docs,
  index_reset, index_upsert_doc, keyword_length, line_cond, line_doc, line_length, line_starts,
  refs_loop, scan_line, scan_lines, set_text, text_or_empty, Index, IndexDoc, Symbol, max_symbols,
  max_refs,
}
use nullprt.Lsp.Messages.{
  checksum_loop, copy_line, extract_completion_prefix, find_function_signature, json_escape,
  json_find_bool_value, json_find_string_value, key_pattern, skip_ws, strchr, string_at, strrchr,
  strstr, text_checksum, until_quote, uri_ext, value_of,
}
use nullprt.Lsp.Query.{
  cmp_symbols_key, collect, collect_completions, collect_document_symbols,
  collect_workspace_symbols, completion, docs_references, find_definition, find_first,
  find_macro_expansion, find_references, fuzzy, has_higher_score, is_less, is_reference, line_back,
  line_is_comment, macro_name, match_mode, place, reference_at, references_loop, strcmp, symbol_doc,
  symbol_type_expr,
}
use nullprt.Lsp.Rename.{block_text, edit_text, edits_text, refs_in, rename_edits, rename_head}
use nullprt.Lsp.Rename.Complete.{blocks_text, Fits, rename_edits_lem, all_edits, AreShort}
use nullprt.Lsp.Server.{
  analyze_and_publish, definition, doc_index, find_text, get_or_add_server_doc, has_parse_error,
  on_did_open_or_change, pull_diagnostic, references, server_init, set_doc_text, symbol_under,
  Server, open_text,
}
use nullprt.Lsp.Text.{
  byte_at, extract_symbol_at, is_ident, line_col_loop, offset_loop, offset_to_line_col, step_back,
  step_in, text_offset_for_position, word_around, word_rest, word_start,
}
use nullprt.Lsp.Query.Comments.{InComment}
use mathlib.Core.Path.{subst}
use mathlib.Core.List.{Perm}
use nullprt.Lsp.Json.RoundTrip.{quote}
use nullprt.Lsp.Json.{parse_str}
use nullprt.Base.Int.{pos}
use nullprt.Lsp.Text.Around.{IsWordAt}
use nullprt.Lsp.Text.Words.{extract_symbol_at_sound}
use nullprt.Lsp.Text.Positions.{text_offset_for_position_iff}
use nullprt.Lsp.Index.Bounds.{index_docs_bounds}
use nullprt.Lsp.Index.Upsert.{index_upsert_doc-IsCurrent, index_reset-IsCurrent, IsUpdate}
use nullprt.Lsp.Query.References.{find_references_lem, stands_iff, stands, all_references}
use nullprt.Lsp.Query.Symbols.{collect_workspace_symbols_lem, select}
use nullprt.Lsp.Query.Definitions.{IsDefinition}
use nullprt.Lsp.Messages.Strings.{json_escape_lem, unescape, is_plain}
use nullprt.Lsp.Messages.Found.{json_find_string_value-json_escape, message}
use nullprt.Lsp.Server.Agrees.{IsServed}
use nullprt.Lsp.Server.Opened.{server_init-IsServed, on_did_open_or_change-IsServed}
use nullprt.Lsp.Server.Answers.{definition_lem}

-- What the runs compute with.
run : Unit {0}
unfolding byte_at is_ident line_col_loop offset_to_line_col offset_loop text_offset_for_position
    word_start word_rest step_in step_back word_around extract_symbol_at index_reset text_or_empty
    find_doc get_or_add_doc line_starts line_length blanks keyword_length declare line_cond line_doc
    scan_line scan_lines index_doc_symbols add_ref refs_loop index_doc_refs index_docs set_text
    index_upsert_doc strcmp fuzzy match_mode cmp_symbols_key find_first place find_definition
    macro_name find_macro_expansion line_back line_is_comment is_reference reference_at
    references_loop docs_references find_references collect collect_document_symbols is_less
    collect_workspace_symbols completion has_higher_score collect_completions symbol_doc
    symbol_type_expr strrchr uri_ext json_escape strstr strchr key_pattern value_of skip_ws
    until_quote string_at json_find_string_value json_find_bool_value checksum_loop text_checksum
    extract_completion_prefix copy_line find_function_signature server_init find_text doc_index
    get_or_add_server_doc set_doc_text has_parse_error analyze_and_publish open_text
    on_did_open_or_change pull_diagnostic symbol_under definition references extension_lookup
    lookup_in is_digit is_alpha is_alnum starts_with occurs bytes_eq exchange exchange_sort
run = tt

abbrev always : ℕ → Bool
always n = true

abbrev opening : Bytes
opening = codes "{\"uri\":\"a.nprt\",\"text\":\"fn f() f\"}"

abbrev text : Bytes
text = codes "fn f() f"

-- A server with this one document.
abbrev opened : Server
opened = on_did_open_or_change always opening server_init

opened_text : find_text (codes "a.nprt") (opened.docs) ≡ some text
unfolding run
opened_text = refl

-- The second `f` of the text leads to the first.
second_f :
    definition opened (some (codes "a.nprt")) (pos 0) (pos 8) ≡ some ((0, 3, codes "a.nprt"), 1)
unfolding run
second_f = refl

short_name :
    (uri : Bytes) → json_find_string_value opening (codes "uri") ≡ some uri → length uri ≤ 511
short_name uri e =
    let same : codes "a.nprt" ≡ uri = ground (arith, sym found ∙ e) in
    subst (λ u. length u ≤ 511) same (omega arith)
  where
    found : json_find_string_value opening (codes "uri") ≡ some (codes "a.nprt")
    found = unfold run in refl

on_did_open_or_change-IsServed_example : IsServed opened
on_did_open_or_change-IsServed_example =
    on_did_open_or_change-IsServed always opening server_init (λ n. refl) short_name
      server_init-IsServed

second_word : IsWordAt text 7 1
unfolding run
second_word = record {
  left = inr refl;
  inside = λ i l h.
      let same : 7 ≡ i = omega arith in subst (λ k. is_ident (byte_at text k) ≡ true) same refl;
  right = refl;
}

definition_lem_example :
    let answer = definition opened (some (codes "a.nprt")) (pos 0) (pos 8) in
    ((x : Symbol) × IsDefinition (opened.index) (codes "f") (codes "a.nprt") x
      × (answer ≡ some (place 512 x, 1)))
    ⊎ (All (λ x. x.name ≢ codes "f") (opened.index.symbols) × (answer ≡ none))
unfolding offset_to_line_col line_col_loop
definition_lem_example =
    definition_lem opened (codes "a.nprt") text 8 7 1 on_did_open_or_change-IsServed_example
      opened_text (omega arith) second_word (omega arith) (omega arith) (omega arith) (omega arith)

index_upsert_doc-IsCurrent_example :
    IsUpdate (codes "b") text index_reset (index_upsert_doc always (codes "b") text index_reset)
index_upsert_doc-IsCurrent_example =
    index_upsert_doc-IsCurrent always (codes "b") text index_reset (λ n. refl) (omega arith)
      index_reset-IsCurrent

abbrev docs : List IndexDoc
docs =
    record { uri = codes "b"; text = some (codes "// f\nlet f") }
    ∷ record { uri = codes "a"; text = some text }
    ∷ []

index_docs_bounds_example :
    let s = index_docs docs ([], []) in (length s.0 ≤ max_symbols) × (length s.1 ≤ max_refs)
index_docs_bounds_example = index_docs_bounds docs ([], []) (omega arith, omega arith)

abbrev index : Index
index =
    let read = index_docs docs ([], []) in record { docs = docs; symbols = read.0; refs = read.1 }

find_references_lem_example :
    find_references index (codes "f") false 2 ≡ take 2 (all_references (codes "f") false docs)
find_references_lem_example = find_references_lem index (codes "f") false 2

-- The one in a comment is left out.
three_references : length (find_references index (codes "f") false 256) ≡ 3
unfolding run
three_references = refl

stands_iff_example :
    (stands (codes "f") true text 7 ≡ true)
    ↔ (IsWordAt text 7 1 × (codes "f" ≡ codes "f") × ((true ≡ true) ⊎ ¬ InComment text 7))
stands_iff_example = stands_iff (codes "f") true text 7 (unfold run in (refl, tt))

collect_workspace_symbols_lem_example :
    let out = collect_workspace_symbols index (codes "f") none (some (codes "path")) 9 in
    Perm out (take 9 (select (λ x. match_mode (x.name) (codes "f") none) (index.symbols)))
    × IsSorted (λ a b. is_less (cmp_symbols_key a b (some (codes "path")))) out
collect_workspace_symbols_lem_example =
    collect_workspace_symbols_lem index (codes "f") none (some (codes "path")) 9

-- The symbol of the later document comes first.
by_path :
    map (λ x. x.uri) (collect_workspace_symbols index (codes "f") none (some (codes "path")) 9)
    ≡ codes "a" ∷ codes "b" ∷ []
unfolding run
by_path = refl

text_offset_for_position_iff_example :
    (text_offset_for_position text (pos 0) (pos 8) ≡ some 8)
    ↔ ((8 ≤ length text) × (offset_to_line_col text 8 ≡ (0, 8)))
text_offset_for_position_iff_example = text_offset_for_position_iff text 0 8 8

-- At the end of the text it is the byte before the last that is looked at as well.
far_word : extract_symbol_at (codes "ab ") (pos 0) (pos 3) 128 ≡ some (codes "ab")
unfolding run
far_word = refl

extract_symbol_at_sound_example :
    (off : ℕ) × (a : ℕ) × (n : ℕ) × (off ≤ 3)
    × (offset_to_line_col (codes "ab ") off ≡ (0, 3))
    × (a ≤ off)
    × (off ≤ a + n + 1)
    × (0 < n)
    × (n + 1 ≤ 128)
    × IsWordAt (codes "ab ") a n
    × (codes "ab" ≡ take n (drop a (codes "ab ")))
extract_symbol_at_sound_example =
    extract_symbol_at_sound (codes "ab ") (codes "ab") 0 3 128 far_word

abbrev quoted_line : Bytes
quoted_line = codes "say \"x\"\n"

json_escape_lem_example :
    (parse_str (quote (json_escape quoted_line) ++ codes "}")
      ≡ some (json_escape quoted_line, codes "}"))
    × (unescape (json_escape quoted_line) ≡ quoted_line)
    × (length (json_escape quoted_line) ≤ 16)
json_escape_lem_example = json_escape_lem quoted_line (codes "}")

-- A text with a quote is cut there, with the backslash before it.
cut_text :
    json_find_string_value (message (codes "text") (json_escape quoted_line) []) (codes "text")
    ≡ some (codes "say \\")
unfolding run
cut_text = refl

json_find_string_value-json_escape_example :
    (json_find_string_value (message (codes "text") (json_escape quoted_line) []) (codes "text")
      ≡ some quoted_line)
    ↔ All (λ c. is_plain c ≡ true) quoted_line
json_find_string_value-json_escape_example =
    json_find_string_value-json_escape (codes "text") quoted_line [] (omega arith)
      (refl, (refl, (refl, (refl, tt))))

opened_few : length (all_references (codes "f") true (opened.index.docs)) ≤ 512
opened_few = subst (λ n. n ≤ 512) (sym two) (omega arith)
  where
    two : length (all_references (codes "f") true (opened.index.docs)) ≡ 2
    two = unfold run in refl

opened-AreShort : AreShort (opened.docs)
opened-AreShort = unfold run in (omega arith, tt)

opened-Fits : Fits (codes "7") (codes "f") (codes "g") true (opened.docs)
unfolding run edits_text edit_text decimal digits rename_edits rename_head blocks_text block_text
    json_escape
opened-Fits = record { each = (omega arith, tt); all = omega arith }

rename_edits_lem_example :
    rename_edits
      (opened.index)
      (codes "f")
      (codes "g")
      true
      (length (rename_head (codes "7")))
      0
      (opened.docs)
    ≡ all_edits (codes "f") true (opened.docs)
rename_edits_lem_example =
    rename_edits_lem (codes "7") opened (codes "f") (codes "g") true
      on_did_open_or_change-IsServed_example opened-AreShort opened_few opened-Fits

-- Both are renamed.
two_edits :
    map
      (λ e. map (λ r. r.col) e.1)
      (rename_edits (opened.index) (codes "f") (codes "g") true 60 0 (opened.docs))
    ≡ (3 ∷ 7 ∷ []) ∷ []
unfolding run rename_edits refs_in edit_text block_text edits_text decimal digits each json_escape
two_edits = refl

abbrev with_text : Bytes → Server
with_text t = record {
  docs = record { uri = codes "a"; text = t } ∷ [];
  index = index_reset;
  diag_uri = [];
  diag_error = false;
}

format_document_lem_example :
    IsNormal false (codes "a b")
    × (format_document (with_text (codes "a b")) (some (codes "a")) ≡ none)
format_document_lem_example =
    format_document_lem (with_text (codes "a \tb")) (with_text (codes "a b")) (codes "a")
      (codes "a b") (unfold run format_document normalize_spaces_copy normalize_loop in refl)
      (unfold run in refl)

-- Blanks at the start of a line go as well.
indented : normalize_spaces_copy (codes "{\n    x") ≡ codes "{\n x"
unfolding normalize_spaces_copy normalize_loop
indented = refl

hovered :
    hover opened (some (codes "a.nprt")) (pos 0) (pos 8)
    ≡ some (codes "f", codes "fn f(...) -> i32", codes "No documentation.")
unfolding run hover
hovered = refl

completed :
    map (λ c. c.name) (completions opened (some (codes "a.nprt")) (pos 0) (pos 8)) ≡ codes "f" ∷ []
unfolding run completions
completed = refl
