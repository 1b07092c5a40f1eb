-- ===== src/Lsp/Json/Numbers.antt =====
-- The texts of numbers, and what the reader (src/lsp/nprt-lsp/json_min.c) takes for one.
use nullprt.Base.{
  ◌∙◌, append_assoc, is_digit, [], ◌∷◌, true, false, refl, ◌<◌, arith, ◌==◌, length, ap, ◌≡◌, ◌++◌,
  Bytes, ℕ,
}
use nullprt.Lsp.Json.{span_digits, span_num, span_fraction, span_byte}

pub data Digits : Bytes → Type 0 where
  no_digits : Digits []
  digit : {c : ℕ} {s : Bytes} → (is_digit c ≡ true) → Digits s → Digits (c ∷ s)

pub data Sign : Bytes → Type 0 where
  no_sign : Sign []
  minus_sign : Sign (b'-' ∷ [])

pub data Fraction : Bytes → Type 0 where
  no_fraction : Fraction []
  fraction : {s : Bytes} → Digits s → Fraction (b'.' ∷ s)

-- A sign, a digit and more of them, and a fraction; 63 bytes at most.
pub data IsNumber : Bytes → Type 0 where
  number :
      (a : Bytes) (c : ℕ) (s f : Bytes)
      → Sign a
      → (is_digit c ≡ true)
      → Digits s
      → Fraction f
      → (length (a ++ ((c ∷ s) ++ f)) < 64)
      → IsNumber (a ++ ((c ∷ s) ++ f))

-- What may stand behind a value.
pub data Delimits : Bytes → Type 0 where
  at_end : Delimits []
  at_comma : {s : Bytes} → Delimits (b',' ∷ s)
  at_square : {s : Bytes} → Delimits (b']' ∷ s)
  at_curly : {s : Bytes} → Delimits (b'}' ∷ s)

-- No digit at the front.
abbrev NoDigit : Bytes → Type 0
NoDigit [] = Unit
NoDigit (c ∷ s) = is_digit c ≡ false

Delimits-NoDigit : (s : Bytes) → Delimits s → NoDigit s
unfolding is_digit
Delimits-NoDigit [] h = tt
Delimits-NoDigit _ at_comma = refl
Delimits-NoDigit _ at_square = refl
Delimits-NoDigit _ at_curly = refl

span_digits-Digits :
    (s rest : Bytes) → Digits s → NoDigit rest → span_digits (s ++ rest) ≡ (s, rest)
unfolding span_digits
span_digits-Digits [] [] d h = refl
span_digits-Digits [] (c ∷ rest) d h = rw (h, span_digits) refl
span_digits-Digits (c ∷ s) rest (digit e d) h =
    rw (e, span_digits) (ap (λ r. (c ∷ r.0, r.1)) (span_digits-Digits s rest d h))

span_byte-Delimits : (s : Bytes) → Delimits s → span_byte b'.' s ≡ ([], s)
span_byte-Delimits [] h = refl
span_byte-Delimits _ at_comma = refl
span_byte-Delimits _ at_square = refl
span_byte-Delimits _ at_curly = refl

span_fraction-Fraction :
    (f rest : Bytes)
    → Fraction f
    → Delimits rest
    → (span_fraction (span_byte b'.' (f ++ rest)) ≡ (f, rest)) × NoDigit (f ++ rest)
unfolding is_digit
span_fraction-Fraction _ rest no_fraction h =
    (ap span_fraction (span_byte-Delimits rest h), Delimits-NoDigit rest h)
span_fraction-Fraction (c ∷ s) rest (fraction d) h =
    (ap (λ r. (b'.' ∷ r.0, r.1)) (span_digits-Digits s rest d (Delimits-NoDigit rest h)), refl)

span_byte-Sign :
    (a : Bytes) (c : ℕ) (s : Bytes)
    → Sign a
    → is_digit c ≡ true
    → span_byte b'-' (a ++ (c ∷ s)) ≡ (a, c ∷ s)
unfolding is_digit
span_byte-Sign _ c s no_sign e = let other : (c == b'-') ≡ false = ground arith in rw other refl
span_byte-Sign _ c s minus_sign e = refl

span_num_parts :
    (t a b f s1 s2 s3 : Bytes)
    → span_byte b'-' t ≡ (a, s1)
    → span_digits s1 ≡ (b, s2)
    → span_fraction (span_byte b'.' s2) ≡ (f, s3)
    → span_num t ≡ (a ++ (b ++ f), s3)
unfolding span_num
span_num_parts t a b f s1 s2 s3 x y z = rw (x, y, z) refl

-- The reader takes all of a number for one.
pub span_num-IsNumber :
    (t rest : Bytes) → IsNumber t → Delimits rest → span_num (t ++ rest) ≡ (t, rest)
span_num-IsNumber _ rest (number a c s f sg e d fr l) h =
    let tail = span_fraction-Fraction f rest fr h in
    ap span_num
      (append_assoc a ((c ∷ s) ++ f) rest ∙ ap (λ x. a ++ (c ∷ x)) (append_assoc s f rest))
    ∙ span_num_parts _ a (c ∷ s) f _ _ rest (span_byte-Sign a c (s ++ (f ++ rest)) sg e)
        (span_digits-Digits (c ∷ s) (f ++ rest) (digit e d) tail.1) tail.0
