-- ===== src/Lsp/Messages.antt =====
-- What the language server reads from its messages and writes into them (src/lsp/nprt-lsp/main.c). A
-- null pointer is `none`; no allocation fails.
pub mod Found
pub mod Strings
use nullprt.Lsp.Text.{text_offset_for_position, is_ident, word_start}
use nullprt.Base.Int.{ℤ}
use nullprt.Base.{
  zero, suc, [], ◌∷◌, true, false, none, some, inl, inr, refl, ◌^◌, ◌+◌, length, ◌%◌, ltb, ◌||◌,
  ◌-◌, ◌++◌, ◌*◌, starts_with, drop, codes, ◌==◌, take, if◌then◌else◌, bit_xor, Option, Bytes, Bool,
  ℕ,
}

-- The text from the last of some bytes on, if one occurs.
unfoldable pub strrchr : (ℕ → Bool) → Bytes → Option Bytes
strrchr p [] = none
strrchr p (c ∷ s) = elim (strrchr p s) [
  | some r ↦ some r
  | none ↦ if p c then some (c ∷ s) else none
]

-- The text behind the last slash or backslash.
abbrev pub base_name : Bytes → Option Bytes → Bytes
base_name uri none = uri
base_name uri (some r) = drop 1 r

unfoldable pub uri_ext : Bytes → Bytes
uri_ext uri =
    elim (strrchr (λ c. c == b'.') (base_name uri (strrchr (λ c. c == b'/' || c == b'\\') uri))) [
      | none ↦ []
      | some r ↦ r
    ]

unfoldable pub json_escape : Bytes → Bytes
json_escape [] = []
json_escape (c ∷ s) =
    let rest = json_escape s in
    if c == b'\n'
    then b'\\' ∷ b'n' ∷ rest
    else if c == b'\r'
    then b'\\' ∷ b'r' ∷ rest
    else if c == b'\t'
    then b'\\' ∷ b't' ∷ rest
    else if c == b'"' || c == b'\\'
    then b'\\' ∷ c ∷ rest
    else c ∷ rest

-- The text from the first occurrence on.
unfoldable pub strstr : Bytes → Bytes → Option Bytes
strstr lit [] = if starts_with lit [] then some [] else none
strstr lit (c ∷ s) = elim (starts_with lit (c ∷ s)) [ true ↦ some (c ∷ s) | false ↦ strstr lit s ]

unfoldable pub strchr : ℕ → Bytes → Option Bytes
strchr b [] = none
strchr b (c ∷ s) = elim (c == b) [ true ↦ some (c ∷ s) | false ↦ strchr b s ]

-- `"key"`, cut to the buffer of 128 bytes.
unfoldable pub key_pattern : Bytes → Bytes
key_pattern key = take 127 (b'"' ∷ (key ++ (b'"' ∷ [])))

-- What stands behind the colon of a key.
unfoldable pub value_of : Bytes → Bytes → Option Bytes
value_of json key = elim (strstr (key_pattern key) json) [
  | none ↦ none
  | some p ↦ elim (strchr b':' p) [ none ↦ none | some q ↦ some (drop 1 q) ]
]

unfoldable pub skip_ws : Bytes → Bytes
skip_ws [] = []
skip_ws (c ∷ s) = elim (c == b' ' || c == b'\t' || c == b'\n' || c == b'\r') [
  | true ↦ skip_ws s
  | false ↦ c ∷ s
]

-- `while (*q && *q != '"') q++;`, as what it passes.
unfoldable pub until_quote : Bytes → Bytes
until_quote [] = []
until_quote (c ∷ s) = elim (c == b'"') [ true ↦ [] | false ↦ c ∷ until_quote s ]

unfoldable pub string_at : Bytes → Option Bytes
string_at [] = none
string_at (c ∷ s) = if c == b'"' then some (until_quote s) else none

unfoldable pub json_find_string_value : Bytes → Bytes → Option Bytes
json_find_string_value json key = elim (value_of json key) [
  | none ↦ none
  | some p ↦ string_at (skip_ws p)
]

unfoldable pub json_find_bool_value : Bytes → Bytes → Bool → Bool
json_find_bool_value json key defv = elim (value_of json key) [
  | none ↦ defv
  | some p ↦
      if starts_with (codes "true") (skip_ws p)
      then true
      else if starts_with (codes "false") (skip_ws p)
      then false
      else defv
]

-- `h *= 16777619u` on 32 bits.
unfoldable pub checksum_loop : ℕ → Bytes → ℕ
checksum_loop h [] = h
checksum_loop h (c ∷ s) = checksum_loop (bit_xor h c * 16777619 % 2 ^ 32) s

unfoldable pub text_checksum : Bytes → ℕ
text_checksum s = checksum_loop 2166136261 s

-- `out` holds `out_cap` bytes with its null byte.
unfoldable pub extract_completion_prefix : Bytes → ℤ → ℤ → ℕ → Bytes
extract_completion_prefix text line ch out_cap = elim (text_offset_for_position text line ch) [
  | none ↦ []
  | some off ↦
      let start = word_start text off in
      let n = off - start in take (if ltb out_cap (n + 1) then out_cap - 1 else n) (drop start text)
]

-- The copy of a line, into the room that is left.
unfoldable pub copy_line : ℕ → Bytes → Bytes
copy_line zero s = []
copy_line (suc n) [] = []
copy_line (suc n) (c ∷ s) = let rest = copy_line n s in if c == b'\n' then [] else c ∷ rest

unfoldable pub find_function_signature : Bytes → Bytes → ℕ → Option Bytes
find_function_signature text sym out_cap = elim (strstr (take 255 (codes "fn " ++ sym)) text) [
  | none ↦ none
  | some p ↦ let sig = copy_line (out_cap - 1) p in if ltb 0 (length sig) then some sig else none
]
