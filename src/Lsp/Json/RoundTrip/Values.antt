-- ===== src/Lsp/Json/RoundTrip/Values.antt =====
-- The reader of JSON (src/lsp/nprt-lsp/json_min.c) gives back every value from its text.
use nullprt.Base.{
  is_digit, starts_with, zero, suc, [], ◌∷◌, true, false, none, some, refl, sym, ltb, length-append,
  append_nil, append_assoc, ◌∙◌, ap, ◌≤◌, ◌+◌, ◌*◌, ◌||◌, ◌<◌, ◌==◌, ◌++◌, length, arith, ◌≡◌,
  Bytes, ℕ,
}
use nullprt.Lsp.Json.{
  json_parse, match, parse_at, parse_num, parse_val, parse_word, ws, ◌>>=◌, if_match, Outcome,
  obj_entries, arr_items, as_value, JObj, JArr, span_num, give, is_ws, JVal, j_null, j_bool, j_num,
  j_str, j_arr, j_obj, no_items, item, no_entries, entry,
}
use nullprt.Lsp.Json.RoundTrip.{
  write, Quoted, quote, AreEntries, AreItems, parse_str-Quoted, write_items, write_entries, IsJson,
  null_json, bool_json, num_json, str_json, arr_json, obj_json, items_more, entries_more,
}
use nullprt.Lsp.Json.Numbers.{
  span_num-IsNumber, number, Delimits, IsNumber, no_sign, minus_sign, at_end, at_comma, at_square,
  at_curly,
}

-- The first byte of a number is no blank and none that has another meaning.
record Opens (c : ℕ) : Type 0 where
  not_ws : is_ws c ≡ false
  not_square : (c == b']') ≡ false
  not_quote : (c == b'"') ≡ false
  not_object : (c == b'{') ≡ false
  not_array : (c == b'[') ≡ false
  is_num : c == b'-' || is_digit c ≡ true

digit-Opens : (c : ℕ) → is_digit c ≡ true → Opens c
unfolding is_digit
digit-Opens c h = record {
  not_ws = ground arith;
  not_square = ground arith;
  not_quote = ground arith;
  not_object = ground arith;
  not_array = ground arith;
  is_num = ground arith;
}

minus-Opens : Opens b'-'
minus-Opens = record {
  not_ws = refl;
  not_square = refl;
  not_quote = refl;
  not_object = refl;
  not_array = refl;
  is_num = refl;
}

ws-Opens : (c : ℕ) (s : Bytes) → Opens c → ws (c ∷ s) ≡ c ∷ s
unfolding ws
ws-Opens c s o = rw (o.not_ws, ws) refl

-- A number from its first byte on.
at-Opens :
    (n c : ℕ) (s rest : Bytes)
    → Opens c
    → length (c ∷ s) < 64
    → span_num (c ∷ (s ++ rest)) ≡ (c ∷ s, rest)
    → (parse_at (suc n) (c ∷ (s ++ rest)) ≡ give (j_num (c ∷ s)) rest)
      × (ws (c ∷ (s ++ rest)) ≡ c ∷ (s ++ rest))
      × (match b']' (c ∷ (s ++ rest)) ≡ none)
unfolding parse_at parse_num match
at-Opens n c s rest o l e = (
  rw (o.not_quote, o.not_object, o.not_array, o.is_num, parse_at)
      (rw (ws-Opens c (s ++ rest) o, e)
        (let some_text : (suc (length s) == 0) ≡ false = ground arith in
          let fits : ltb (suc (length s)) 64 ≡ true = ground arith in rw (some_text, fits) refl)),
  ws-Opens c (s ++ rest) o,
  rw (ws-Opens c (s ++ rest) o, o.not_square) refl,
)

abbrev Front : JVal → Bytes → ℕ → Type 0
Front v rest n =
    (parse_at (suc n) (write v ++ rest) ≡ give v rest)
    × (ws (write v ++ rest) ≡ write v ++ rest)
    × (match b']' (write v ++ rest) ≡ none)

num-Front : (t rest : Bytes) (n : ℕ) → IsNumber t → Delimits rest → Front (j_num t) rest n
unfolding write
num-Front _ rest n (number _ c s f no_sign e d fr l) h =
    at-Opens n c (s ++ f) rest (digit-Opens c e) l
      (span_num-IsNumber _ rest (number [] c s f no_sign e d fr l) h)
num-Front _ rest n (number _ c s f minus_sign e d fr l) h =
    at-Opens n b'-' (c ∷ (s ++ f)) rest minus-Opens l
      (span_num-IsNumber _ rest (number (b'-' ∷ []) c s f minus_sign e d fr l) h)

items-Delimits : (r : JArr) (rest : Bytes) → Delimits (write_items r ++ rest)
unfolding write
items-Delimits no_items rest = at_square
items-Delimits (item v r) rest = at_comma

entries-Delimits : (r : JObj) (rest : Bytes) → Delimits (write_entries r ++ rest)
unfolding write
entries-Delimits no_entries rest = at_curly
entries-Delimits (entry k v r) rest = at_comma

-- The text behind a key, with what follows the entry.
entry_assoc :
    (k a b rest : Bytes)
    → (quote k ++ (b':' ∷ (a ++ b))) ++ rest ≡ quote k ++ (b':' ∷ (a ++ (b ++ rest)))
entry_assoc k a b rest =
    append_assoc (quote k) (b':' ∷ (a ++ b)) rest
    ∙ ap (λ x. quote k ++ (b':' ∷ x)) (append_assoc a b rest)

if_match_other :
    {A : Type 0} (c : ℕ) (s : Bytes) (taken : Bytes → Outcome A) (other : Outcome A)
    → match c s ≡ none
    → if_match c s taken other ≡ other
if_match_other c s taken other e = rw (e, if_match) refl

mutual
  unfolding parse_val write ◌>>=◌ match ws is_digit parse_word starts_with

  val-Front :
      (v : JVal) (rest : Bytes) (n : ℕ)
      → IsJson v
      → Delimits rest
      → 4 * length (write v ++ rest) + 1 ≤ suc n
      → Front v rest n
  val-Front j_null rest n null_json h l = (refl, refl, refl)
  val-Front (j_bool true) rest n bool_json h l = (refl, refl, refl)
  val-Front (j_bool false) rest n bool_json h l = (refl, refl, refl)
  val-Front (j_num t) rest n (num_json i) h l = num-Front t rest n i h
  val-Front (j_str t) rest n (str_json q) h l =
      (ap (as_value j_str) (parse_str-Quoted t rest q), refl, refl)
  val-Front (j_arr no_items) rest zero i h l = absurd (omega arith)
  val-Front (j_arr no_items) rest (suc n) i h l = (refl, refl, refl)
  val-Front (j_arr (item v r)) rest zero i h l = absurd (omega arith)
  val-Front (j_arr (item v r)) rest (suc n) (arr_json (items_more i j)) h l =
      let e = append_assoc (write v) (write_items r) rest in
      let less : 4 * length (write v ++ (write_items r ++ rest)) + 3 ≤ n =
        omega (arith, ap length e) in
      let f = val-Front v (write_items r ++ rest) n i (items-Delimits r rest) (omega arith) in
      (
        ap (λ s. parse_at (suc (suc n)) (b'[' ∷ s)) e
            ∙ if_match_other b']' (write v ++ (write_items r ++ rest)) _ _ f.2
            ∙ rw (items-lem v r rest n i j h less) refl,
        refl,
        refl,
      )
  val-Front (j_obj no_entries) rest zero i h l = absurd (omega arith)
  val-Front (j_obj no_entries) rest (suc n) i h l = (refl, refl, refl)
  val-Front (j_obj (entry k v r)) rest zero i h l = absurd (omega arith)
  val-Front (j_obj (entry k v r)) rest (suc n) (obj_json (entries_more q i j)) h l =
      let e = entry_assoc k (write v) (write_entries r) rest in
      (
        ap (λ s. parse_at (suc (suc n)) (b'{' ∷ s)) e
            ∙ rw (entries-lem k v r rest n q i j h (omega (arith, ap length e))) refl,
        refl,
        refl,
      )

  val-lem :
      (v : JVal) (rest : Bytes) (n : ℕ)
      → IsJson v
      → Delimits rest
      → 4 * length (write v ++ rest) + 2 ≤ n
      → parse_val n (write v ++ rest) ≡ give v rest
  val-lem v rest zero i h l = absurd (omega arith)
  val-lem v rest (suc zero) i h l = absurd (omega arith)
  val-lem v rest (suc (suc n)) i h l =
      let f = val-Front v rest n i h (omega arith) in ap (parse_at (suc n)) f.1 ∙ f.0

  items-lem :
      (v : JVal) (r : JArr) (rest : Bytes) (n : ℕ)
      → IsJson v
      → AreItems r
      → Delimits rest
      → 4 * length (write v ++ (write_items r ++ rest)) + 3 ≤ n
      → arr_items n (write v ++ (write_items r ++ rest)) ≡ give (item v r) rest
  items-lem v r rest zero i j h l = absurd (omega arith)
  items-lem v no_items rest (suc n) i j h l =
      rw (val-lem v (b']' ∷ rest) n i at_square (omega arith)) refl
  items-lem v (item w r) rest (suc n) i (items_more j k) h l =
      let e = append_assoc (write w) (write_items r) rest in
      let less : 4 * length (write w ++ (write_items r ++ rest)) + 3 ≤ n = omega (
        arith,
        ap length e,
        length-append (write v) (b',' ∷ ((write w ++ write_items r) ++ rest)),
      ) in
      rw
        (
          val-lem v (b',' ∷ ((write w ++ write_items r) ++ rest)) n i at_comma (omega arith),
          e,
          items-lem w r rest n j k h less,
        )
        refl

  entries-lem :
      (k : Bytes) (v : JVal) (r : JObj) (rest : Bytes) (n : ℕ)
      → Quoted k
      → IsJson v
      → AreEntries r
      → Delimits rest
      → 4 * length (quote k ++ (b':' ∷ (write v ++ (write_entries r ++ rest)))) + 3 ≤ n
      → obj_entries n (quote k ++ (b':' ∷ (write v ++ (write_entries r ++ rest))))
        ≡ give (entry k v r) rest
  entries-lem k v r rest zero q i j h l = absurd (omega arith)
  entries-lem k v no_entries rest (suc n) q i j h l =
      let less = length-append (quote k) (b':' ∷ (write v ++ (b'}' ∷ rest))) in
      rw
        (
          parse_str-Quoted k (b':' ∷ (write v ++ (b'}' ∷ rest))) q,
          val-lem v (b'}' ∷ rest) n i at_curly (omega arith),
        )
        refl
  entries-lem k v (entry m w r) rest (suc n) q i (entries_more p j o) h l =
      let tail = (quote m ++ (b':' ∷ (write w ++ write_entries r))) ++ rest in
      let e = entry_assoc m (write w) (write_entries r) rest in
      let less = length-append (quote k) (b':' ∷ (write v ++ (b',' ∷ tail))) in
      let more = length-append (write v) (b',' ∷ tail) in
      rw
        (
          parse_str-Quoted k (b':' ∷ (write v ++ (b',' ∷ tail))) q,
          val-lem v (b',' ∷ tail) n i at_comma (omega arith),
          e,
          entries-lem m w r rest n p j o h (omega (arith, ap length e)),
        )
        refl

-- Every value is given back by the reader from its text, to any depth of arrays and objects, with
-- the entries of an object in their order, if the texts of its strings have a quote just behind a
-- backslash and no backslash alone at the end, and its numbers have the form of JSON without an
-- exponent, in less than 64 bytes. A node is the value it holds: that the program's arena may move
-- nodes is left out.
pub json_parse-write : (v : JVal) → IsJson v → json_parse (write v) ≡ some (some v)
unfolding json_parse ws
json_parse-write v i =
    let e = append_nil (write v) in
    let run =
      ap (parse_val (4 * length (write v) + 4)) (sym e)
      ∙ val-lem v [] (4 * length (write v) + 4) i at_end (omega (arith, ap length e)) in
    rw (run, json_parse) refl
