-- ===== src/Lsp/Json.antt =====
-- The JSON reader of the language server (src/lsp/nprt-lsp/json_min.c). What is left of the text
-- is a list of bytes, and a node is the value it holds: the arena, and its failure, are left out.
-- A number is the text that the source hands to `strtod`.
pub mod Ends
pub mod Numbers
pub mod RoundTrip
use nullprt.Base.{
  zero, suc, [], ◌∷◌, true, false, none, some, inl, inr, refl, drop, ◌+◌, ltb, codes, ◌||◌,
  starts_with, length, bytes_eq, ◌==◌, ◌++◌, ◌*◌, is_digit, if◌then◌else◌, Option, Bytes, Bool, ℕ,
}

-- `JArr` and `JObj` are the items of an array and the entries of an object.
mutual
  pub data JVal : Type 0 where
    j_null : JVal
    j_bool : Bool → JVal
    j_num : Bytes → JVal
    j_str : Bytes → JVal
    j_arr : JArr → JVal
    j_obj : JObj → JVal

  pub data JArr : Type 0 where
    no_items : JArr
    item : JVal → JArr → JArr

  pub data JObj : Type 0 where
    no_entries : JObj
    entry : Bytes → JVal → JObj → JObj

abbrev pub is_ws : ℕ → Bool
is_ws c = c == b' ' || (c == b'\n' || (c == b'\r' || c == b'\t'))

unfoldable pub ws : Bytes → Bytes
ws [] = []
ws (c ∷ s) = elim (is_ws c) [ true ↦ ws s | false ↦ c ∷ s ]

-- One byte, with the text behind it.
abbrev pub take_byte : ℕ → Bytes → Option Bytes
take_byte c [] = none
take_byte c (d ∷ s) = if d == c then some s else none

unfoldable pub match : ℕ → Bytes → Option Bytes
match c s = take_byte c (ws s)

-- The fuel ran out, the text is refused, or a result and the text behind it.
abbrev pub Outcome : Type 0 → Type 0
Outcome A = Option (Option (A × Bytes))

infixl 5 ◌>>=◌
unfoldable pub ◌>>=◌ : {A B : Type 0} → Outcome A → (A × Bytes → Outcome B) → Outcome B
none >>= f = none
some none >>= f = some none
some (some r) >>= f = f r

abbrev pub refused : {A : Type 0} → Outcome A
refused = some none

abbrev pub give : {A : Type 0} → A → Bytes → Outcome A
give a s = some (some (a, s))

-- What is read before a rest that is read on.
abbrev pub before : Bytes → Option (Bytes × Bytes) → Option (Bytes × Bytes)
before t none = none
before t (some (u, s)) = some (t ++ u, s)

-- The text of a string up to its `"`, escapes as they stand.
unfoldable pub str_body : Bytes → Option (Bytes × Bytes)
str_body [] = none
str_body (c ∷ []) = if c == b'"' then some ([], []) else none
str_body (c ∷ d ∷ s) = elim (c == b'"') [
  | true ↦ some ([], d ∷ s)
  | false ↦ elim (c == b'\\') [
    | true ↦ before (c ∷ d ∷ []) (str_body s)
    | false ↦ before (c ∷ []) (str_body (d ∷ s))
  ]
]

unfoldable pub parse_str : Bytes → Option (Bytes × Bytes)
parse_str s = elim (match b'"' s) [ none ↦ none | some s' ↦ str_body s' ]

-- The digits at the front, and the text behind them.
unfoldable pub span_digits : Bytes → Bytes × Bytes
span_digits [] = ([], [])
span_digits (c ∷ s) = elim (is_digit c) [
  | true ↦ let r = span_digits s in (c ∷ r.0, r.1)
  | false ↦ ([], c ∷ s)
]

abbrev pub span_byte : ℕ → Bytes → Bytes × Bytes
span_byte c [] = ([], [])
span_byte c (d ∷ s) = if d == c then (d ∷ [], s) else ([], d ∷ s)

abbrev pub span_fraction : Bytes × Bytes → Bytes × Bytes
span_fraction ([], s) = ([], s)
span_fraction (t, s) = let r = span_digits s in (t ++ r.0, r.1)

-- The text of a number, and the text behind it.
unfoldable pub span_num : Bytes → Bytes × Bytes
span_num s =
    let a = span_byte b'-' s in
    let b = span_digits a.1 in
    let c = span_fraction (span_byte b'.' b.1) in (a.0 ++ (b.0 ++ c.0), c.1)

unfoldable pub parse_num : Bytes → Option (Bytes × Bytes)
parse_num s =
    let r = span_num (ws s) in
    if length r.0 == 0 then none else if ltb (length r.0) 64 then some r else none

abbrev pub as_value : (Bytes → JVal) → Option (Bytes × Bytes) → Outcome JVal
as_value f none = refused
as_value f (some (t, s)) = give (f t) s

-- The words `true`, `false` and `null`.
unfoldable pub parse_word : Bytes → Outcome JVal
parse_word s =
    if starts_with (codes "true") s
    then give (j_bool true) (drop 4 s)
    else if starts_with (codes "false") s
    then give (j_bool false) (drop 5 s)
    else if starts_with (codes "null") s
    then give j_null (drop 4 s)
    else refused

abbrev pub and_then : {A : Type 0} → Option Bytes → (Bytes → Outcome A) → Outcome A
and_then none f = refused
and_then (some s) f = f s

-- `if (match(p, c)) taken else other`
abbrev pub if_match : {A : Type 0} → ℕ → Bytes → (Bytes → Outcome A) → Outcome A → Outcome A
if_match c s taken other = elim (match c s) [ none ↦ other | some s' ↦ taken s' ]

abbrev pub key_of : {A : Type 0} → Option (Bytes × Bytes) → (Bytes × Bytes → Outcome A) → Outcome A
key_of none f = refused
key_of (some r) f = f r

unfoldable mutual
  pub parse_val : ℕ → Bytes → Outcome JVal
  parse_val zero s = none
  parse_val (suc n) s = parse_at n (ws s)

  -- What stands behind the blanks.
  pub parse_at : ℕ → Bytes → Outcome JVal
  parse_at zero s = none
  parse_at (suc n) [] = refused
  parse_at (suc n) (c ∷ s) = elim (c == b'"') [
    | true ↦ as_value j_str (parse_str (c ∷ s))
    | false ↦ elim (c == b'{') [
      | true ↦ parse_obj n s
      | false ↦ elim (c == b'[') [
        | true ↦ parse_arr n s
        | false ↦ elim (c == b'-' || is_digit c) [
          | true ↦ as_value j_num (parse_num (c ∷ s))
          | false ↦ parse_word (c ∷ s)
        ]
      ]
    ]
  ]

  -- An array behind its `[`.
  pub parse_arr : ℕ → Bytes → Outcome JVal
  parse_arr zero s = none
  parse_arr (suc n) s =
      if_match b']' s (give (j_arr no_items))
        (arr_items n s >>= λ (items, s1). give (j_arr items) s1)

  -- A turn of its loop, and the rest of it.
  pub arr_items : ℕ → Bytes → Outcome JArr
  arr_items zero s = none
  arr_items (suc n) s = parse_val n s >>= λ (v, s1).
      if_match b',' s1 (λ s2. arr_items n s2 >>= λ (rest, s3). give (item v rest) s3)
        (if_match b']' s1 (give (item v no_items)) refused)

  -- An object behind its `{`.
  pub parse_obj : ℕ → Bytes → Outcome JVal
  parse_obj zero s = none
  parse_obj (suc n) s =
      if_match b'}' s (give (j_obj no_entries))
        (obj_entries n s >>= λ (entries, s1). give (j_obj entries) s1)

  pub obj_entries : ℕ → Bytes → Outcome JObj
  obj_entries zero s = none
  obj_entries (suc n) s = key_of (parse_str s) λ (key, s1).
      if_match b':' s1
        (λ s2. parse_val n s2 >>= λ (v, s3).
          if_match b',' s3 (λ s4. obj_entries n s4 >>= λ (rest, s5). give (entry key v rest) s5)
            (if_match b'}' s3 (give (entry key v no_entries)) refused))
        refused

-- Nothing but blanks may stand behind the value.
abbrev pub whole : JVal × Bytes → Option JVal
whole (v, s) = elim (ws s) [ [] ↦ some v | c ∷ s' ↦ none ]

unfoldable pub json_parse : Bytes → Option (Option JVal)
json_parse src = elim (parse_val (4 * length src + 4) src) [
  | none ↦ none
  | some none ↦ some none
  | some (some r) ↦ some (whole r)
]

abbrev pub entry_get : JObj → Bytes → Option JVal
entry_get no_entries key = none
entry_get (entry k v rest) key = if bytes_eq k key then some v else entry_get rest key

unfoldable pub json_obj_get : JVal → Bytes → Option JVal
json_obj_get (j_obj entries) key = entry_get entries key
json_obj_get v key = none
