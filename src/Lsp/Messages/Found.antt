-- ===== src/Lsp/Messages/Found.antt =====
-- Texts that the server finds in its messages (`json_find_string_value` in src/lsp/nprt-lsp/main.c).
use nullprt.Lsp.Messages.{
  json_find_string_value, key_pattern, strchr, strstr, value_of, json_escape, skip_ws, string_at,
  until_quote,
}
use nullprt.Base.{
  suc, [], ◌∷◌, true, false, none, some, refl, sym, take, drop, All-map, ◌↔◌, Option, length-append,
  All-append, take_whole, append_assoc, ◌∙◌, starts_with-append, ap, starts_with, arith, ◌≤◌, ◌≡◌,
  ◌==◌, ◌++◌, length, All, Bytes, ℕ,
}
use mathlib.Core.Path.{subst}
use nullprt.Lsp.Json.RoundTrip.{quote}
use nullprt.Lsp.Messages.Strings.{
  json_escape_cases, is_plain, until_quote-none, until_quote-whole, json_escape-longer,
  json_escape-plain,
}

-- An object whose first entry has this key and this text, and then anything.
abbrev pub message : Bytes → Bytes → Bytes → Bytes
message key t rest = b'{' ∷ (quote key ++ (b':' ∷ (quote t ++ rest)))

strstr-append : (lit post : Bytes) → strstr lit (lit ++ post) ≡ some (lit ++ post)
unfolding strstr
strstr-append [] [] = unfold starts_with in refl
strstr-append [] (c ∷ post) = unfold starts_with in refl
strstr-append (c ∷ lit) post =
    ap (λ b. elim b [ true ↦ some (c ∷ (lit ++ post)) | false ↦ strstr (c ∷ lit) (lit ++ post) ])
      (starts_with-append (c ∷ lit) post)

strchr-append :
    (b : ℕ) (s rest : Bytes)
    → All (λ c. (c == b) ≡ false) s
    → strchr b (s ++ (b ∷ rest)) ≡ some (b ∷ rest)
unfolding strchr
strchr-append b [] rest h =
    let same : (b == b) ≡ true = ground arith in
    ap (λ e. elim e [ true ↦ some (b ∷ rest) | false ↦ strchr b rest ]) same
strchr-append b (c ∷ s) rest (e, h) =
    ap (λ x. elim x [ true ↦ some (c ∷ (s ++ (b ∷ rest))) | false ↦ strchr b (s ++ (b ∷ rest)) ]) e
    ∙ strchr-append b s rest h

value_of_lem :
    (key v : Bytes)
    → length key ≤ 125
    → All (λ c. (c == b':') ≡ false) key
    → value_of (b'{' ∷ (quote key ++ (b':' ∷ v))) key ≡ some v
unfolding value_of key_pattern
value_of_lem key v short no_colon =
    ap (λ o. elim o [ none ↦ none | some p ↦ after p ])
      (pattern ∙ first ∙ strstr-append (quote key) (b':' ∷ v))
    ∙ ap (λ o. elim o [ none ↦ none | some q ↦ some (drop 1 q) ]) colon
  where
    after : Bytes → Option Bytes
    after p = elim (strchr b':' p) [ none ↦ none | some q ↦ some (drop 1 q) ]

    text : Bytes
    text = quote key ++ (b':' ∷ v)

    pattern : strstr (take 127 (quote key)) (b'{' ∷ text) ≡ strstr (quote key) (b'{' ∷ text)
    pattern =
        ap (λ l. strstr l (b'{' ∷ text))
          (take_whole 127 (quote key) (omega (arith, length-append key (b'"' ∷ []))))

    first : strstr (quote key) (b'{' ∷ text) ≡ strstr (quote key) text
    first = unfold strstr starts_with in refl

    colon : strchr b':' text ≡ some (b':' ∷ v)
    colon =
        strchr-append b':' (quote key) v
          (refl, All-append (λ c. (c == b':') ≡ false) key (b'"' ∷ []) no_colon (refl, tt))

string_found :
    (key t rest : Bytes)
    → length key ≤ 125
    → All (λ c. (c == b':') ≡ false) key
    → json_find_string_value (message key t rest) key ≡ some (until_quote (t ++ (b'"' ∷ rest)))
unfolding json_find_string_value
string_found key t rest short no_colon =
    ap (λ o. elim o [ none ↦ none | some p ↦ string_at (skip_ws p) ])
      (value_of_lem key (quote t ++ rest) short no_colon)
    ∙ (unfold string_at skip_ws in ap (λ l. some (until_quote l)) (append_assoc t (b'"' ∷ []) rest))

json_escape-no_quote :
    (s : Bytes) → All (λ c. (c == b'"') ≡ false) s → All (λ c. (c == b'"') ≡ false) (json_escape s)
json_escape-no_quote [] h = unfold json_escape in tt
json_escape-no_quote (c ∷ s) (e, h) =
    json_escape_cases (All (λ d. (d == b'"') ≡ false)) c s
      (λ d f. (refl, (ground (arith, e, f), json_escape-no_quote s h)))
      (λ f. (e, json_escape-no_quote s h))

same_length : (s : Bytes) → length (json_escape s) ≤ length s → All (λ c. is_plain c ≡ true) s
same_length [] = λ h. tt
same_length (c ∷ s) =
    json_escape_cases (λ t. length t ≤ suc (length s) → All (λ d. is_plain d ≡ true) (c ∷ s)) c s
      (λ d e h. absurd (omega (arith, json_escape-longer s)))
      (λ e h. (e, same_length s (omega arith)))

-- `json_find_string_value` gives back a text that `json_escape` has escaped if and only if nothing in it
-- was escaped: the text has no quote, no backslash, no newline, no return and no tab. The key is at most
-- 125 bytes long, without a colon, and the first of the message.
pub json_find_string_value-json_escape :
    (key s rest : Bytes)
    → length key ≤ 125
    → All (λ c. (c == b':') ≡ false) key
    → (json_find_string_value (message key (json_escape s) rest) key ≡ some s)
      ↔ All (λ c. is_plain c ≡ true) s
json_find_string_value-json_escape key s rest short no_colon = (there, back)
  where
    found :
        json_find_string_value (message key (json_escape s) rest) key
        ≡ some (until_quote (json_escape s ++ (b'"' ∷ rest)))
    found = string_found key (json_escape s) rest short no_colon

    no_quote : All (λ c. is_plain c ≡ true) s → All (λ c. (c == b'"') ≡ false) s
    no_quote = All-map (λ c e. ground (arith, e)) s

    back :
        All (λ c. is_plain c ≡ true) s
        → json_find_string_value (message key (json_escape s) rest) key ≡ some s
    back h =
        found
        ∙ ap (λ l. some (until_quote (l ++ (b'"' ∷ rest)))) (json_escape-plain s h)
        ∙ ap some (until_quote-whole s rest (no_quote h))

    some_inj : {a b : Bytes} → some a ≡ some b → a ≡ b
    some_inj e = ground (arith, e)

    there :
        json_find_string_value (message key (json_escape s) rest) key ≡ some s
        → All (λ c. is_plain c ≡ true) s
    there h =
        let result = some_inj (sym found ∙ h) in
        let none_in = subst (All (λ c. (c == b'"') ≡ false)) result (until_quote-none _) in
        let same =
          sym (until_quote-whole (json_escape s) rest (json_escape-no_quote s none_in)) ∙ result in
        same_length s (omega (arith, ap length same))
