-- ===== src/Lsp/Json/Ends.antt =====
-- The JSON reader (src/lsp/nprt-lsp/json_min.c) ends on every text.
use nullprt.Base.{
  test_cases, zero, suc, [], ◌∷◌, none, some, inl, inr, refl, ◌||◌, length-drop, codes, ◌*◌,
  starts_with, ltb, ◌++◌, length-append, is_digit, ◌≡◌, ◌==◌, ◌<◌, ◌+◌, arith, Bool-cases, ◌≤◌,
  length, Option, Bytes, ℕ,
}
use nullprt.Lsp.Json.{
  json_parse, match, parse_num, parse_str, parse_val, parse_word, span_digits, span_num, str_body,
  ws, ◌>>=◌, obj_entries, parse_obj, arr_items, parse_arr, j_num, j_str, whole, parse_at, as_value,
  key_of, JVal, is_ws, if_match, give, take_byte, span_fraction, span_byte, before, refused,
  Outcome,
}

-- The fuel was enough: the text is refused, or less than `b` bytes are left.
pub data Ends {A : Type 0} (b : ℕ) : Outcome A → Type 0 where
  fails : Ends b refused
  goes : {a : A} {s : Bytes} → length s < b → Ends b (give a s)

-- A part of the text is not there, or less than `b` bytes are left behind it.
data Leaves (b : ℕ) : Option (Bytes × Bytes) → Type 0 where
  absent : Leaves b none
  reads : {t s : Bytes} → length s < b → Leaves b (some (t, s))

Ends-bind :
    {A B : Type 0} {b c : ℕ} {m : Outcome A} {f : A × Bytes → Outcome B}
    → Ends b m
    → ((r : A × Bytes) → length r.1 < b → Ends c (f r))
    → Ends c (m >>= f)
unfolding ◌>>=◌
Ends-bind fails k = fails
Ends-bind (goes {a} {s} h) k = k (a, s) h

Ends-weaken : {A : Type 0} {b c : ℕ} {m : Outcome A} → b ≤ c → Ends b m → Ends c m
Ends-weaken h fails = fails
Ends-weaken h (goes l) = goes (omega arith)

ws-le : (s : Bytes) → length (ws s) ≤ length s
unfolding ws
ws-le [] = omega arith
ws-le (c ∷ s) =
    test_cases (λ t. length t ≤ suc (length s)) (is_ws c) (ws s) (c ∷ s)
      (λ e. omega (arith, ws-le s)) (λ e. omega arith)

take_byte-shorter :
    {A : Type 0} (b c : ℕ) (s : Bytes) (taken : Bytes → Outcome A) (other : Outcome A)
    → ((s' : Bytes) → length s' < length s → Ends b (taken s'))
    → Ends b other
    → Ends b (elim (take_byte c s) [ none ↦ other | some s' ↦ taken s' ])
take_byte-shorter b c [] taken other h i = i
take_byte-shorter b c (d ∷ s) taken other h i = elim (Bool-cases (d == c)) [
  | inl e ↦ rw e (h s (omega arith))
  | inr e ↦ rw e i
]

if_match-Ends :
    {A : Type 0} (b c : ℕ) (s : Bytes) (taken : Bytes → Outcome A) (other : Outcome A)
    → ((s' : Bytes) → length s' < length s → Ends b (taken s'))
    → Ends b other
    → Ends b (if_match c s taken other)
unfolding match
if_match-Ends b c s taken other h i =
    take_byte-shorter b c (ws s) taken other (λ s' l. h s' (omega (arith, ws-le s))) i

before-Leaves :
    {b c : ℕ} (t : Bytes) (o : Option (Bytes × Bytes)) → b ≤ c → Leaves b o → Leaves c (before t o)
before-Leaves t none h l = absent
before-Leaves t (some (u, s)) h (reads l) = reads (omega arith)

str_body-Leaves : (s : Bytes) → Leaves (length s) (str_body s)
unfolding str_body
str_body-Leaves [] = absent
str_body-Leaves (c ∷ []) = elim (Bool-cases (c == b'"')) [
  | inl e ↦ rw e (reads (omega arith))
  | inr e ↦ rw e absent
]
str_body-Leaves (c ∷ d ∷ s) =
    test_cases (Leaves (suc (suc (length s)))) (c == b'"') _ _ (λ e. reads (omega arith))
      λ e.
        test_cases (Leaves (suc (suc (length s)))) (c == b'\\') _ _
          (λ e1. before-Leaves (c ∷ d ∷ []) _ (omega arith) (str_body-Leaves s))
          (λ e1. before-Leaves (c ∷ []) _ (omega arith) (str_body-Leaves (d ∷ s)))

Leaves-weaken : {b c : ℕ} (o : Option (Bytes × Bytes)) → b ≤ c → Leaves b o → Leaves c o
Leaves-weaken none h l = absent
Leaves-weaken (some r) h (reads l) = reads (omega arith)

parse_str-Leaves : (s : Bytes) → Leaves (length s) (parse_str s)
unfolding parse_str match
parse_str-Leaves s = at_front (ws s) (ws-le s)
  where
    at_front :
        (t : Bytes)
        → length t ≤ length s
        → Leaves (length s) (elim (take_byte b'"' t) [ none ↦ none | some s' ↦ str_body s' ])
    at_front [] h = absent
    at_front (d ∷ t) h = elim (Bool-cases (d == b'"')) [
      | inl e ↦ rw e (Leaves-weaken (str_body t) (omega arith) (str_body-Leaves t))
      | inr e ↦ rw e absent
    ]

span_digits-length : (s : Bytes) → length (span_digits s).0 + length (span_digits s).1 ≡ length s
unfolding span_digits
span_digits-length [] = refl
span_digits-length (c ∷ s) =
    test_cases {A = Bytes × Bytes} (λ r. length r.0 + length r.1 ≡ suc (length s)) (is_digit c) _ _
      (λ e. omega (arith, span_digits-length s)) (λ e. omega arith)

span_byte-length :
    (c : ℕ) (s : Bytes) → length (span_byte c s).0 + length (span_byte c s).1 ≡ length s
span_byte-length c [] = refl
span_byte-length c (d ∷ s) = elim (Bool-cases (d == c)) [
  | inl e ↦ rw e (omega arith)
  | inr e ↦ rw e (omega arith)
]

span_fraction-length :
    (t s : Bytes)
    → length (span_fraction (t, s)).0 + length (span_fraction (t, s)).1 ≡ length t + length s
span_fraction-length [] s = refl
span_fraction-length (c ∷ t) s =
    omega (arith, span_digits-length s, length-append (c ∷ t) (span_digits s).0)

span_num-length : (s : Bytes) → length (span_num s).0 + length (span_num s).1 ≡ length s
unfolding span_num
span_num-length s =
    let a = span_byte b'-' s in
    let b = span_digits a.1 in
    let d = span_byte b'.' b.1 in
    let c = span_fraction d in
    omega (
      arith,
      span_byte-length b'-' s,
      span_digits-length a.1,
      span_byte-length b'.' b.1,
      span_fraction-length d.0 d.1,
      length-append a.0 (b.0 ++ c.0),
      length-append b.0 c.0,
    )

parse_num-Leaves : (s : Bytes) → Leaves (length s) (parse_num s)
unfolding parse_num
parse_num-Leaves s = elim (Bool-cases (length (span_num (ws s)).0 == 0)) [
  | inl e ↦ rw e absent
  | inr e ↦ rw e (elim (Bool-cases (ltb (length (span_num (ws s)).0) 64)) [
    | inl e1 ↦ rw e1 (reads (ground (arith, span_num-length (ws s), ws-le s)))
    | inr e1 ↦ rw e1 absent
  ])
]

as_value-Ends :
    (b : ℕ) (f : Bytes → JVal) (o : Option (Bytes × Bytes)) → Leaves b o → Ends b (as_value f o)
as_value-Ends b f none l = fails
as_value-Ends b f (some r) (reads l) = goes l

parse_word-Ends : (c : ℕ) (s : Bytes) → Ends (length (c ∷ s)) (parse_word (c ∷ s))
unfolding parse_word
parse_word-Ends c s = elim (Bool-cases (starts_with (codes "true") (c ∷ s))) [
  | inl e ↦ rw e (goes (omega (arith, length-drop 3 s)))
  | inr e ↦ rw e (elim (Bool-cases (starts_with (codes "false") (c ∷ s))) [
    | inl e1 ↦ rw e1 (goes (omega (arith, length-drop 4 s)))
    | inr e1 ↦ rw e1 (elim (Bool-cases (starts_with (codes "null") (c ∷ s))) [
      | inl e2 ↦ rw e2 (goes (omega (arith, length-drop 3 s)))
      | inr e2 ↦ rw e2 fails
    ])
  ])
]

key_of-Ends :
    {A : Type 0} (b c : ℕ) (o : Option (Bytes × Bytes)) (f : Bytes × Bytes → Outcome A)
    → Leaves b o
    → ((r : Bytes × Bytes) → length r.1 < b → Ends c (f r))
    → Ends c (key_of o f)
key_of-Ends b c none f l k = fails
key_of-Ends b c (some r) f (reads l) k = k r l

mutual
  unfolding parse_val

  val-Ends : (n : ℕ) (s : Bytes) → 4 * length s + 2 ≤ n → Ends (length s) (parse_val n s)
  val-Ends zero s h = absurd (omega arith)
  val-Ends (suc n) s h = Ends-weaken (ws-le s) (at-Ends n (ws s) (omega (arith, ws-le s)))

  at-Ends : (n : ℕ) (s : Bytes) → 4 * length s + 1 ≤ n → Ends (length s) (parse_at n s)
  at-Ends zero s h = absurd (omega arith)
  at-Ends (suc n) [] h = fails
  at-Ends (suc n) (c ∷ s) h =
      let b = suc (length s) in
      test_cases (Ends b) (c == b'"') _ _ (λ e. as_value-Ends b j_str _ (parse_str-Leaves (c ∷ s)))
        λ e.
          test_cases (Ends b) (c == b'{') _ _
            (λ e1. Ends-weaken (omega arith) (obj-Ends n s (omega arith)))
            λ e1.
              test_cases (Ends b) (c == b'[') _ _
                (λ e2. Ends-weaken (omega arith) (arr-Ends n s (omega arith)))
                λ e2.
                  test_cases (Ends b) (c == b'-' || is_digit c) _ _
                    (λ e3. as_value-Ends b j_num _ (parse_num-Leaves (c ∷ s)))
                    (λ e3. parse_word-Ends c s)

  arr-Ends : (n : ℕ) (s : Bytes) → 4 * length s + 4 ≤ n → Ends (length s) (parse_arr n s)
  arr-Ends zero s h = absurd (omega arith)
  arr-Ends (suc n) s h =
      if_match-Ends (length s) b']' s _ _ (λ s' l. goes l)
        (Ends-bind (items-Ends n s (omega arith)) (λ (items, s1) l. goes l))

  items-Ends : (n : ℕ) (s : Bytes) → 4 * length s + 3 ≤ n → Ends (length s) (arr_items n s)
  items-Ends zero s h = absurd (omega arith)
  items-Ends (suc n) s h = Ends-bind (val-Ends n s (omega arith)) λ (v, s1) l.
      if_match-Ends (length s) b',' s1 _ _
        (λ s2 l2. Ends-bind (items-Ends n s2 (omega arith)) (λ (rest, s3) l3. goes (omega arith)))
        (if_match-Ends (length s) b']' s1 _ _ (λ s2 l2. goes (omega arith)) fails)

  obj-Ends : (n : ℕ) (s : Bytes) → 4 * length s + 4 ≤ n → Ends (length s) (parse_obj n s)
  obj-Ends zero s h = absurd (omega arith)
  obj-Ends (suc n) s h =
      if_match-Ends (length s) b'}' s _ _ (λ s' l. goes l)
        (Ends-bind (entries-Ends n s (omega arith)) (λ (entries, s1) l. goes l))

  entries-Ends : (n : ℕ) (s : Bytes) → 4 * length s + 3 ≤ n → Ends (length s) (obj_entries n s)
  entries-Ends zero s h = absurd (omega arith)
  entries-Ends (suc n) s h =
      key_of-Ends (length s) (length s) _ _ (parse_str-Leaves s) λ (key, s1) l.
        if_match-Ends (length s) b':' s1 _ _
          (λ s2 l2. Ends-bind (val-Ends n s2 (omega arith)) λ (v, s3) l3.
            if_match-Ends (length s) b',' s3 _ _
              (λ s4 l4.
                Ends-bind (entries-Ends n s4 (omega arith)) (λ (rest, s5) l5. goes (omega arith)))
              (if_match-Ends (length s) b'}' s3 _ _ (λ s4 l4. goes (omega arith)) fails))
          fails

-- With four calls for each byte the reader of a value ends on every text, nested arrays and
-- objects included: it refuses the text, or gives a value and leaves less of the text than there
-- was.
pub parse_val-Ends : (n : ℕ) (s : Bytes) → 4 * length s + 2 ≤ n → Ends (length s) (parse_val n s)
parse_val-Ends = val-Ends

json_run :
    {b : ℕ} {m : Outcome JVal}
    → Ends b m
    → (r : Option JVal) × ((elim m as (λ x. Option (Option JVal)) [
      | none ↦ none
      | some none ↦ some none
      | some (some r) ↦ some (whole r)
    ])
        ≡ some r)
json_run fails = (none, refl)
json_run (goes h) = (_, refl)

-- The reader of JSON answers on every text: it gives a value or refuses the text.
pub json_parse_answers : (src : Bytes) → (r : Option JVal) × (json_parse src ≡ some r)
unfolding json_parse
json_parse_answers src = json_run (val-Ends (4 * length src + 4) src (omega arith))
