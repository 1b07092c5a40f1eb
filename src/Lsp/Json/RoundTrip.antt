-- ===== src/Lsp/Json/RoundTrip.antt =====
-- JSON texts without blanks, and what the reader (src/lsp/nprt-lsp/json_min.c) makes of them.
pub mod Values
use nullprt.Lsp.Json.{
  match, parse_str, str_body, ws, before, is_ws, JObj, JArr, JVal, j_null, j_bool, j_num, j_str,
  j_arr, j_obj, no_items, item, no_entries, entry,
}
use nullprt.Base.{
  zero, suc, [], ◌∷◌, true, false, none, some, inl, inr, refl, ◌∙◌, is_digit, ◌||◌, append_assoc,
  ap, ◌≡◌, ◌==◌, ◌++◌, codes, Bool, Bytes, ℕ,
}
use nullprt.Lsp.Json.Numbers.{IsNumber}

-- The text of a string: no `"` but behind a `\`, and a `\` has a byte behind it.
pub data Quoted : Bytes → Type 0 where
  no_more : Quoted []
  plain_byte :
      {c : ℕ} {s : Bytes}
      → ((c == b'"') ≡ false)
      → ((c == b'\\') ≡ false)
      → Quoted s
      → Quoted (c ∷ s)
  escape : {c : ℕ} {s : Bytes} → Quoted s → Quoted (b'\\' ∷ c ∷ s)

abbrev pub quote : Bytes → Bytes
quote t = b'"' ∷ (t ++ (b'"' ∷ []))

-- The text of a value, without blanks. What follows an item or an entry has its comma or its
-- bracket.
unfoldable mutual
  pub write : JVal → Bytes
  write j_null = codes "null"
  write (j_bool true) = codes "true"
  write (j_bool false) = codes "false"
  write (j_num t) = t
  write (j_str t) = quote t
  write (j_arr no_items) = codes "[]"
  write (j_arr (item v rest)) = b'[' ∷ (write v ++ write_items rest)
  write (j_obj no_entries) = codes "{}"
  write (j_obj (entry k v rest)) = b'{' ∷ (quote k ++ (b':' ∷ (write v ++ write_entries rest)))

  pub write_items : JArr → Bytes
  write_items no_items = codes "]"
  write_items (item v rest) = b',' ∷ (write v ++ write_items rest)

  pub write_entries : JObj → Bytes
  write_entries no_entries = codes "}"
  write_entries (entry k v rest) = b',' ∷ (quote k ++ (b':' ∷ (write v ++ write_entries rest)))

-- The texts of numbers and strings in the value are such texts.
mutual
  pub data IsJson : JVal → Type 0 where
    null_json : IsJson j_null
    bool_json : {b : Bool} → IsJson (j_bool b)
    num_json : {t : Bytes} → IsNumber t → IsJson (j_num t)
    str_json : {t : Bytes} → Quoted t → IsJson (j_str t)
    arr_json : {items : JArr} → AreItems items → IsJson (j_arr items)
    obj_json : {entries : JObj} → AreEntries entries → IsJson (j_obj entries)

  pub data AreItems : JArr → Type 0 where
    items_end : AreItems no_items
    items_more : {v : JVal} {rest : JArr} → IsJson v → AreItems rest → AreItems (item v rest)

  pub data AreEntries : JObj → Type 0 where
    entries_end : AreEntries no_entries
    entries_more :
        {k : Bytes} {v : JVal} {rest : JObj}
        → Quoted k
        → IsJson v
        → AreEntries rest
        → AreEntries (entry k v rest)

str_body-Quoted : (t rest : Bytes) → Quoted t → str_body (t ++ (b'"' ∷ rest)) ≡ some (t, rest)
unfolding str_body
str_body-Quoted [] [] no_more = refl
str_body-Quoted [] (c ∷ rest) no_more = refl
str_body-Quoted (c ∷ []) rest (plain_byte a b q) =
    rw (a, b, str_body) (ap (before (c ∷ [])) (str_body-Quoted [] rest no_more))
str_body-Quoted (c ∷ d ∷ s) rest (plain_byte a b q) =
    rw (a, b, str_body) (ap (before (c ∷ [])) (str_body-Quoted (d ∷ s) rest q))
str_body-Quoted (_ ∷ c ∷ s) rest (escape q) =
    ap (before (b'\\' ∷ c ∷ [])) (str_body-Quoted s rest q)

pub parse_str-Quoted : (t rest : Bytes) → Quoted t → parse_str (quote t ++ rest) ≡ some (t, rest)
unfolding parse_str match ws
parse_str-Quoted t rest q = ap str_body (append_assoc t (b'"' ∷ []) rest) ∙ str_body-Quoted t rest q
