-- ===== src/Lsp/Messages/Strings.antt =====
-- Texts in messages (`json_escape` and `json_find_string_value` in src/lsp/nprt-lsp/main.c).
use nullprt.Lsp.Messages.{json_escape, until_quote}
use nullprt.Base.{
  suc, [], ◌∷◌, true, false, some, refl, ◌∙◌, ◌++◌, test_cases, not, ap₂, ap, Bool, All, ◌||◌, ◌*◌,
  arith, ◌≤◌, if_cases, ◌≡◌, ◌==◌, length, if◌then◌else◌, Bytes, ℕ,
}
use nullprt.Lsp.Json.{parse_str}
use nullprt.Lsp.Json.RoundTrip.{no_more, plain_byte, escape, Quoted, quote, parse_str-Quoted}

-- What a text of JSON with the escapes of `json_escape` stands for.
abbrev pub escaped : ℕ → ℕ
escaped c = if c == b'n' then b'\n' else if c == b'r' then b'\r' else if c == b't' then b'\t' else c

abbrev pub unescape : Bytes → Bytes
unescape [] = []
unescape (c ∷ []) = c ∷ []
unescape (c ∷ d ∷ s) = elim (c == b'\\') [
  | true ↦ escaped d ∷ unescape s
  | false ↦ c ∷ unescape (d ∷ s)
]

-- A byte that `json_escape` leaves as it is.
abbrev pub is_plain : ℕ → Bool
is_plain c = not (c == b'\n' || c == b'\r' || c == b'\t' || c == b'"' || c == b'\\')

-- The ways of a byte through `json_escape`.
pub json_escape_cases :
    (P : Bytes → Type 0) (c : ℕ) (s : Bytes)
    → ((d : ℕ) → escaped d ≡ c → P (b'\\' ∷ d ∷ json_escape s))
    → (is_plain c ≡ true → P (c ∷ json_escape s))
    → P (json_escape (c ∷ s))
unfolding json_escape
json_escape_cases P c s behind plain =
    if_cases P (c == b'\n') _ _ (λ e. behind b'n' (ground (arith, e)))
      (λ e1.
        if_cases P (c == b'\r') _ _ (λ e. behind b'r' (ground (arith, e)))
          (λ e2.
            if_cases P (c == b'\t') _ _ (λ e. behind b't' (ground (arith, e)))
              (λ e3.
                if_cases P (c == b'"' || c == b'\\') _ _ (λ e. behind c (ground (arith, e)))
                  (λ e. plain (ground (arith, e1, e2, e3, e))))))

json_escape-Quoted : (s : Bytes) → Quoted (json_escape s)
json_escape-Quoted [] = unfold json_escape in no_more
json_escape-Quoted (c ∷ s) =
    json_escape_cases Quoted c s (λ d e. escape (json_escape-Quoted s))
      (λ e. plain_byte (ground (arith, e)) (ground (arith, e)) (json_escape-Quoted s))

unescape_plain : (c : ℕ) (s : Bytes) → (c == b'\\') ≡ false → unescape (c ∷ s) ≡ c ∷ unescape s
unescape_plain c [] e = refl
unescape_plain c (d ∷ s) e =
    ap (λ b. elim b [ true ↦ escaped d ∷ unescape s | false ↦ c ∷ unescape (d ∷ s) ]) e

json_escape-unescape : (s : Bytes) → unescape (json_escape s) ≡ s
json_escape-unescape [] = unfold json_escape in refl
json_escape-unescape (c ∷ s) =
    json_escape_cases (λ t. unescape t ≡ c ∷ s) c s
      (λ d e. ap₂ (λ x l. x ∷ l) e (json_escape-unescape s))
      (λ e.
        unescape_plain c (json_escape s) (ground (arith, e))
        ∙ ap (λ l. c ∷ l) (json_escape-unescape s))

json_escape-length : (s : Bytes) → length (json_escape s) ≤ 2 * length s
json_escape-length [] = unfold json_escape in omega arith
json_escape-length (c ∷ s) =
    json_escape_cases (λ t. length t ≤ 2 * suc (length s)) c s
      (λ d e. omega (arith, json_escape-length s)) (λ e. omega (arith, json_escape-length s))

-- A text that `json_escape` has escaped stands in quotes as a string that the reader of JSON of the server
-- reads whole, whatever follows it; its escapes stand for the text again; and it fits the allocation of
-- twice the length.
pub json_escape_lem :
    (s rest : Bytes)
    → (parse_str (quote (json_escape s) ++ rest) ≡ some (json_escape s, rest))
      × (unescape (json_escape s) ≡ s)
      × (length (json_escape s) ≤ 2 * length s)
json_escape_lem s rest = (
  parse_str-Quoted (json_escape s) rest (json_escape-Quoted s),
  json_escape-unescape s,
  json_escape-length s,
)

pub until_quote-none : (s : Bytes) → All (λ c. (c == b'"') ≡ false) (until_quote s)
unfolding until_quote
until_quote-none [] = tt
until_quote-none (c ∷ s) =
    test_cases (All (λ d. (d == b'"') ≡ false)) (c == b'"') [] (c ∷ until_quote s) (λ e. tt)
      (λ e. (e, until_quote-none s))

pub until_quote-whole :
    (s rest : Bytes) → All (λ c. (c == b'"') ≡ false) s → until_quote (s ++ (b'"' ∷ rest)) ≡ s
unfolding until_quote
until_quote-whole [] rest h = refl
until_quote-whole (c ∷ s) rest (e, h) =
    ap (λ b. elim b [ true ↦ [] | false ↦ c ∷ until_quote (s ++ (b'"' ∷ rest)) ]) e
    ∙ ap (λ l. c ∷ l) (until_quote-whole s rest h)

-- An escape makes a text longer.
pub json_escape-longer : (s : Bytes) → length s ≤ length (json_escape s)
json_escape-longer [] = unfold json_escape in omega arith
json_escape-longer (c ∷ s) =
    json_escape_cases (λ t. suc (length s) ≤ length t) c s
      (λ d e. omega (arith, json_escape-longer s)) (λ e. omega (arith, json_escape-longer s))

pub json_escape-plain : (s : Bytes) → All (λ c. is_plain c ≡ true) s → json_escape s ≡ s
unfolding json_escape
json_escape-plain [] h = refl
json_escape-plain (c ∷ s) (e, h) = ground (arith, e, json_escape-plain s h)
