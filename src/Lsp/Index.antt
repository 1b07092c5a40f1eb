-- ===== src/Lsp/Index.antt =====
-- The index of the language server (src/lsp/nprt-lsp/index.c and index.h): the documents, and the
-- symbols and the references that are read from them. The arrays with their lengths are lists. A text
-- or a name has no null byte; the copies into fixed buffers are cut as `strncpy` cuts them.
pub mod Lines
pub mod Declared
pub mod Bounds
pub mod Docs
pub mod Upsert
use nullprt.Base.{
  ◌-◌, ◌&&◌, take, ◌||◌, ◌++◌, not, leb, drop, codes, ◌==◌, ◌+◌, starts_with, ltb, length, bytes_eq,
  if◌then◌else◌, Option, List, Bytes, Bool, zero, suc, [], ◌∷◌, true, false, none, some, ℕ,
}
use nullprt.Lsp.Text.{is_ident, word_rest, byte_at, offset_to_line_col}

pub record Symbol : Type 0 where
  pub uri : Bytes
  pub name : Bytes
  pub doc : Bytes
  pub kind : ℕ
  pub line : ℕ
  pub col : ℕ
  pub conditional_excluded : Bool
  pub is_macro : Bool

pub record Reference : Type 0 where
  pub uri : Bytes
  pub line : ℕ
  pub col : ℕ
  pub in_comment : Bool

-- `none` is a text that could not be allocated.
pub record IndexDoc : Type 0 where
  pub uri : Bytes
  pub text : Option Bytes

pub record Index : Type 0 where
  pub docs : List IndexDoc
  pub symbols : List Symbol
  pub refs : List Reference

abbrev pub max_docs : ℕ
max_docs = 128

abbrev pub max_symbols : ℕ
max_symbols = 4096

abbrev pub max_refs : ℕ
max_refs = 16384

unfoldable pub index_reset : Index
index_reset = record { docs = []; symbols = []; refs = [] }

unfoldable pub text_or_empty : Option Bytes → Bytes
text_or_empty none = []
text_or_empty (some text) = text

-- The place of the document with this name, which is added behind the others if there is none.
unfoldable pub find_doc : Bytes → List IndexDoc → ℕ
find_doc uri [] = 0
find_doc uri (d ∷ docs) = if bytes_eq (d.uri) uri then 0 else suc (find_doc uri docs)

unfoldable pub get_or_add_doc : List IndexDoc → Bytes → Option (ℕ × List IndexDoc)
get_or_add_doc docs uri =
    if ltb (find_doc uri docs) (length docs)
    then some (find_doc uri docs, docs)
    else if leb max_docs (length docs)
    then none
    else some (length docs, docs ++ (record { uri = take 511 uri; text = none } ∷ []))

-- The places where a line starts, each with the text from there on: the rounds of
-- `while (*p) { ...; p = *eol ? eol + 1 : eol; }`.
unfoldable pub line_starts : Bool → ℕ → Bytes → List (ℕ × Bytes)
line_starts starts i [] = []
line_starts starts i (c ∷ s) =
    let later = line_starts (c == b'\n') (i + 1) s in if starts then (i, c ∷ s) ∷ later else later

-- `eol - line`
unfoldable pub line_length : Bytes → ℕ
line_length [] = 0
line_length (c ∷ s) = let rest = line_length s in if c == b'\n' then 0 else suc rest

-- `while (*s == ' ' || *s == '\t' || *s == '!') s++;`, as the number of rounds.
unfoldable pub blanks : Bytes → ℕ
blanks [] = 0
blanks (c ∷ s) = let rest = blanks s in if c == b' ' || c == b'\t' || c == b'!' then suc rest else 0

-- The length of the keyword at the start of a line, 0 without one.
unfoldable pub keyword_length : Bytes → ℕ
keyword_length line =
    if starts_with (codes "fn ") line
    then 3
    else if starts_with (codes "let ") line
    then 4
    else if starts_with (codes "macro_rules!") line
    then 12
    else 0

abbrev pub symbol_kind : ℕ → ℕ
symbol_kind kw = if kw == 3 then 12 else if kw == 4 then 13 else 15

-- `last_doc`, `cond_off` and `g_symbols`.
pub record Scan : Type 0 where
  pub last_doc : Bytes
  pub cond_off : Bool
  pub symbols : List Symbol

-- A line that declares a name, after a keyword of `kw` bytes.
unfoldable pub declare : Bytes → Bytes → ℕ → Bytes → ℕ → Scan → Scan
declare uri text off line kw x =
    let skipped = kw + blanks (drop kw line) in
    let rest = drop skipped line in
    let name = take 127 (take (word_rest rest) rest) in
    let at = offset_to_line_col text (off + skipped) in
    record {
      last_doc = [];
      cond_off = x.cond_off;
      symbols =
          if ltb 0 (length name) && ltb (length (x.symbols)) max_symbols
          then x.symbols
            ++ (record {
              uri = take 511 uri;
              name = name;
              doc = take 255 (x.last_doc);
              kind = symbol_kind kw;
              line = at.0;
              col = at.1;
              conditional_excluded = x.cond_off;
              is_macro = kw == 12;
            }
                ∷ [])
          else x.symbols;
    }

-- The tests of a line that set `cond_off` and `last_doc`.
unfoldable pub line_cond : Bytes → Bool → Bool
line_cond line cond_off =
    if starts_with (codes "#endif") line
    then false
    else if starts_with (codes "#if false") line
    then true
    else cond_off

unfoldable pub line_doc : Bytes → Bytes → Bytes
line_doc line last_doc =
    if starts_with (codes "///") line
    then take 255 (take (line_length line - 3) (drop 3 line))
    else last_doc

unfoldable pub scan_line : Bytes → Bytes → ℕ × Bytes → Scan → Scan
scan_line uri text (off, line) x =
    let y : Scan = record {
      last_doc = line_doc line (x.last_doc);
      cond_off = line_cond line (x.cond_off);
      symbols = x.symbols;
    } in
    if keyword_length line == 0 then y else declare uri text off line (keyword_length line) y

unfoldable pub scan_lines : Bytes → Bytes → List (ℕ × Bytes) → Scan → Scan
scan_lines uri text [] x = x
scan_lines uri text (l ∷ ls) x = scan_lines uri text ls (scan_line uri text l x)

unfoldable pub index_doc_symbols : Bytes → Bytes → List Symbol → List Symbol
index_doc_symbols uri text symbols =
    (scan_lines uri text (line_starts true 0 text)
      (record { last_doc = []; cond_off = false; symbols = symbols })).symbols

unfoldable pub add_ref : Bytes → Bytes → ℕ → Bool → List Reference → List Reference
add_ref uri text i in_comment refs =
    let at = offset_to_line_col text i in
    if ltb (length refs) max_refs
    then refs
      ++ (record { uri = take 511 uri; line = at.0; col = at.1; in_comment = in_comment } ∷ [])
    else refs

-- The two loops over the bytes from `i` on: outside a comment and, after `//`, inside one, up to the end
-- of the line. `skip` bytes are still to pass over, those of `while (is_ident(text[i])) i++`.
unfoldable pub refs_loop : Bytes → Bytes → ℕ → Bool → ℕ → Bytes → List Reference → List Reference
refs_loop uri text skip commented i [] refs = refs
refs_loop uri text (suc skip) commented i (c ∷ s) refs =
    refs_loop uri text skip commented (i + 1) s refs
refs_loop uri text zero commented i (c ∷ s) refs =
    let inside = if commented then not (c == b'\n') else c == b'/' && byte_at s 0 == b'/' in
    refs_loop uri text (if is_ident c then word_rest s else 0) inside (i + 1) s
      (if is_ident c then add_ref uri text i inside refs else refs)

unfoldable pub index_doc_refs : Bytes → Bytes → List Reference → List Reference
index_doc_refs uri text refs = refs_loop uri text 0 false 0 text refs

-- The loop of `nls_index_upsert_doc` over the documents.
unfoldable pub index_docs :
    List IndexDoc → List Symbol × List Reference → List Symbol × List Reference
index_docs [] r = r
index_docs (d ∷ docs) r =
    let text = text_or_empty (d.text) in
    index_docs docs (index_doc_symbols (d.uri) text r.0, index_doc_refs (d.uri) text r.1)

unfoldable pub set_text : ℕ → Option Bytes → List IndexDoc → List IndexDoc
set_text i text [] = []
set_text zero text (d ∷ docs) = record { uri = d.uri; text = text } ∷ docs
set_text (suc i) text (d ∷ docs) = d ∷ set_text i text docs

-- `malloc` says of a size whether there is room.
unfoldable pub index_upsert_doc : (ℕ → Bool) → Bytes → Bytes → Index → Index
index_upsert_doc malloc uri text x = elim (get_or_add_doc (x.docs) uri) [
  | none ↦ x
  | some r ↦
      if malloc (length text + 1)
      then (let docs = set_text r.0 (some text) r.1 in
          let read = index_docs docs ([], []) in
          record { docs = docs; symbols = read.0; refs = read.1 })
      else record { docs = set_text r.0 none r.1; symbols = x.symbols; refs = x.refs }
]
