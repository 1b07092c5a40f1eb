-- ===== src/Lsp/Query.antt =====
-- The questions the language server asks of its index (src/lsp/nprt-lsp/index.c). An `out` array with
-- its `cap` is a list of at most that many elements; a null pointer is `none`.
pub mod Order
pub mod Symbols
pub mod References
pub mod Comments
pub mod Definitions
use nullprt.Base.{
  zero, suc, [], ◌∷◌, true, false, none, some, inl, inr, refl, occurs, not, length, ◌||◌, ◌-◌, ◌+◌,
  ◌++◌, ◌&&◌, map, codes, ◌==◌, take, starts_with, ltb, bytes_eq, List, if◌then◌else◌, Option,
  Bytes, Bool, ℕ,
}
use nullprt.Base.Sort.{exchange_sort}
use nullprt.Base.Int.{lt_int, ℤ, pos, negsuc}
use nullprt.Lsp.Index.{Index, Symbol, Reference, IndexDoc, text_or_empty}
use nullprt.Lsp.Text.{is_ident, byte_at, offset_to_line_col}
use Prim.Native.Nat.{Ordering, compare}
use mathlib.Core.Option

-- The sign of `strcmp`.
unfoldable pub strcmp : Bytes → Bytes → Ordering
strcmp [] [] = Ordering.eq
strcmp [] (y ∷ ys) = Ordering.lt
strcmp (x ∷ xs) [] = Ordering.gt
strcmp (x ∷ xs) (y ∷ ys) = elim (compare x y) [
  | Ordering.lt ↦ Ordering.lt
  | Ordering.eq ↦ strcmp xs ys
  | Ordering.gt ↦ Ordering.gt
]

-- The loop of the mode "fuzzy".
unfoldable pub fuzzy : Bytes → Bytes → Bool
fuzzy s [] = true
fuzzy [] (y ∷ q) = false
fuzzy (x ∷ s) (y ∷ q) = elim (x == y) [ true ↦ fuzzy s q | false ↦ fuzzy s (y ∷ q) ]

unfoldable pub match_mode : Bytes → Bytes → Option Bytes → Bool
match_mode s [] mode = true
match_mode s (c ∷ q) none = starts_with (c ∷ q) s
match_mode s (c ∷ q) (some mode) =
    if bytes_eq mode (codes "prefix")
    then starts_with (c ∷ q) s
    else if bytes_eq mode (codes "contains")
    then occurs (c ∷ q) s
    else if bytes_eq mode (codes "exact")
    then bytes_eq s (c ∷ q)
    else if bytes_eq mode (codes "fuzzy")
    then fuzzy s (c ∷ q)
    else occurs (c ∷ q) s

-- The sign of the result, which is a difference of small numbers or one of `strcmp`.
unfoldable pub cmp_symbols_key : Symbol → Symbol → Option Bytes → Ordering
cmp_symbols_key a b none = strcmp (a.name) (b.name)
cmp_symbols_key a b (some key) =
    if bytes_eq key (codes "kind")
    then compare (a.kind) (b.kind)
    else if bytes_eq key (codes "path")
    then strcmp (a.uri) (b.uri)
    else if bytes_eq key (codes "relevance")
    then compare (length (b.name)) (length (a.name))
    else strcmp (a.name) (b.name)

-- The first symbol that passes a test.
unfoldable pub find_first : (Symbol → Bool) → List Symbol → Option Symbol
find_first p [] = none
find_first p (x ∷ xs) = elim (p x) [ true ↦ some x | false ↦ find_first p xs ]

-- `*out_line`, `*out_col` and `out_uri`
unfoldable pub place : ℕ → Symbol → ℕ × ℕ × Bytes
place out_uri_cap x = (x.line, x.col, take (out_uri_cap - 1) (x.uri))

unfoldable pub find_definition : Index → Bytes → Bytes → ℕ → Option (ℕ × ℕ × Bytes)
find_definition g symbol prefer_uri out_uri_cap =
    elim (find_first (λ x. bytes_eq (x.name) symbol && bytes_eq (x.uri) prefer_uri) (g.symbols)) [
      | some x ↦ some (place out_uri_cap x)
      | none ↦
          Option.map (place out_uri_cap) (find_first (λ x. bytes_eq (x.name) symbol) (g.symbols))
    ]

-- The name before the first `!`, cut to the room for it.
unfoldable pub macro_name : ℕ → Bytes → Bytes
macro_name zero s = []
macro_name (suc n) [] = []
macro_name (suc n) (c ∷ s) = let rest = macro_name n s in if c == b'!' then [] else c ∷ rest

unfoldable pub find_macro_expansion : Index → Bytes → ℕ → Option (ℕ × ℕ × Bytes)
find_macro_expansion g callsite_symbol out_uri_cap =
    let name = macro_name 127 callsite_symbol in
    Option.map (place out_uri_cap)
      (find_first (λ x. x.is_macro && bytes_eq (x.name) name) (g.symbols))

-- `while (back > 0 && t[back - 1] != '\n') back--;`
unfoldable pub line_back : Bytes → ℕ → ℕ
line_back t zero = zero
line_back t (suc k) = elim (byte_at t k == b'\n') [ true ↦ suc k | false ↦ line_back t k ]

unfoldable pub line_is_comment : Bytes → ℕ → Bool
line_is_comment t idx =
    let back = line_back t idx in byte_at t back == b'/' && byte_at t (back + 1) == b'/'

-- The tests of a place where the text of the symbol stands.
unfoldable pub is_reference : Bytes → Bool → Bytes → ℕ → Bool
is_reference symbol include_comments t idx =
    let left_ok = idx == 0 || not (is_ident (byte_at t (idx - 1))) in
    let right_ok = not (is_ident (byte_at t (idx + length symbol))) in
    left_ok && right_ok && (include_comments || not (line_is_comment t idx))

unfoldable pub reference_at : Bytes → Bytes → ℕ → Reference
reference_at uri t idx =
    let at = offset_to_line_col t idx in
    record { uri = take 511 uri; line = at.0; col = at.1; in_comment = line_is_comment t idx }

-- The rounds of `while ((p = strstr(p, symbol)) != NULL && n < cap) { ...; p++; }`, which visits the
-- places of a symbol that is not empty in turn; `room` is `cap - n`.
unfoldable pub references_loop : Bytes → Bool → Bytes → Bytes → ℕ → Bytes → ℕ → List Reference
references_loop symbol include_comments uri t idx [] room = []
references_loop symbol include_comments uri t idx (c ∷ s) zero = []
references_loop symbol include_comments uri t idx (c ∷ s) (suc room) =
    elim (starts_with symbol (c ∷ s) && is_reference symbol include_comments t idx) [
      | true ↦
          reference_at uri t idx ∷ references_loop symbol include_comments uri t (idx + 1) s room
      | false ↦ references_loop symbol include_comments uri t (idx + 1) s (suc room)
    ]

unfoldable pub docs_references : Bytes → Bool → List IndexDoc → ℕ → List Reference
docs_references symbol include_comments [] room = []
docs_references symbol include_comments (d ∷ docs) room =
    let t = text_or_empty (d.text) in
    let found = references_loop symbol include_comments (d.uri) t 0 t room in
    found ++ docs_references symbol include_comments docs (room - length found)

unfoldable pub find_references : Index → Bytes → Bool → ℕ → List Reference
find_references g symbol include_comments cap = docs_references symbol include_comments (g.docs) cap

-- The loops that gather what passes a test while there is room.
unfoldable pub collect : (Symbol → Bool) → List Symbol → ℕ → List Symbol
collect p [] room = []
collect p (x ∷ xs) zero = []
collect p (x ∷ xs) (suc room) = elim (p x) [
  | true ↦ x ∷ collect p xs room
  | false ↦ collect p xs (suc room)
]

unfoldable pub collect_document_symbols : Index → Bytes → Bool → Bool → ℕ → List Symbol
collect_document_symbols g uri include_macros filter_conditional cap =
    collect
      (λ x.
        bytes_eq (x.uri) uri
        && not (not include_macros && x.is_macro)
        && not (filter_conditional && x.conditional_excluded))
      (g.symbols) cap

unfoldable pub is_less : Ordering → Bool
is_less Ordering.lt = true
is_less Ordering.eq = false
is_less Ordering.gt = false

unfoldable pub collect_workspace_symbols :
    Index → Bytes → Option Bytes → Option Bytes → ℕ → List Symbol
collect_workspace_symbols g query mode sort_key cap =
    let found = collect (λ x. match_mode (x.name) query mode) (g.symbols) cap in
    exchange_sort (λ a b. is_less (cmp_symbols_key a b sort_key)) (length found) found

pub record Completion : Type 0 where
  pub name : Bytes
  pub kind : ℕ
  pub score : ℤ
  pub snippet : Bool

-- `a - b`, for numbers that are small.
abbrev pub minus : ℕ → ℕ → ℤ
minus a b = if ltb a b then negsuc (b - a - 1) else pos (a - b)

unfoldable pub completion : Bytes → Symbol → Completion
completion current_uri x = record {
  name = take 127 (x.name);
  kind = if x.kind == 12 then 3 else 6;
  score = minus (100 + (if bytes_eq (x.uri) current_uri then 20 else 0)) (length (x.name));
  snippet = x.kind == 12 || x.kind == 15;
}

-- `out[j].score > out[i].score`
unfoldable pub has_higher_score : Completion → Completion → Bool
has_higher_score a b = lt_int (b.score) (a.score)

unfoldable pub collect_completions : Index → Bytes → Bytes → ℕ → List Completion
collect_completions g current_uri prefix cap =
    let found =
      map (completion current_uri) (collect (λ x. starts_with prefix (x.name)) (g.symbols) cap) in
    exchange_sort has_higher_score (length found) found

unfoldable pub symbol_doc : Index → Bytes → ℕ → Option Bytes
symbol_doc g symbol cap =
    Option.map (λ x. take (cap - 1) (x.doc))
      (find_first (λ x. bytes_eq (x.name) symbol && ltb 0 (length (x.doc))) (g.symbols))

unfoldable pub symbol_type_expr : Index → Bytes → ℕ → Option Bytes
symbol_type_expr g symbol cap =
    Option.map
      (λ x. take (cap - 1) (
        if x.kind == 12 || x.is_macro
        then codes "fn " ++ (symbol ++ codes "(...) -> i32")
        else symbol ++ codes ": inferred<i32>"))
      (find_first (λ x. bytes_eq (x.name) symbol) (g.symbols))
