-- ===== src/Lsp/Text/Around.antt =====
-- The two loops of `extract_symbol_at` (src/lsp/nprt-lsp/main.c), which go to both ends of a word.
use nullprt.Lsp.Text.{byte_at, word_around, word_rest, word_start, is_ident}
use nullprt.Base.{
  zero, suc, [], ◌∷◌, true, false, none, some, inl, inr, refl, test_cases, sym, ap₂, Option, ◌∙◌,
  take, ap, is_alnum, ◌-◌, ◌⊎◌, ◌+◌, arith, ◌≤◌, ◌≡◌, ◌<◌, drop, Bytes, ℕ,
}

-- The `n` bytes from `start` on are a whole word: bytes of names, with none before or behind.
pub record IsWordAt (text : Bytes) (start n : ℕ) : Type 0 where
  pub left : (start ≡ 0) ⊎ (is_ident (byte_at text (start - 1)) ≡ false)
  pub inside : (i : ℕ) → start ≤ i → i < start + n → is_ident (byte_at text i) ≡ true
  pub right : is_ident (byte_at text (start + n)) ≡ false

-- A byte is in one word at most.
word_unique :
    {text : Bytes} {a n b m : ℕ}
    → IsWordAt text a n
    → IsWordAt text b m
    → (p : ℕ) → a ≤ p
    → p < a + n
    → b ≤ p
    → p < b + m
    → (a ≡ b) × (n ≡ m)
word_unique {text} {a} {n} {b} {m} u v p ap pn bp pm = (start, size)
  where
    not_later :
        {x k y l : ℕ}
        → IsWordAt text x k
        → IsWordAt text y l
        → x ≤ p
        → p < x + k
        → y ≤ p
        → ¬ (x < y)
    not_later {x} {k} {y} {l} u v xp pk yp lt = elim (v.left) [
      | inl e ↦ omega arith
      | inr e ↦ ground (arith, u.inside (y - 1) (omega arith) (omega arith))
    ]

    not_longer :
        {x k y l : ℕ}
        → IsWordAt text x k
        → IsWordAt text y l
        → p < x + k
        → y ≤ p
        → ¬ (x + k < y + l)
    not_longer {x} {k} {y} {l} u v pk yp lt =
        ground (arith, u.right, v.inside (x + k) (omega arith) (omega arith))

    start : a ≡ b
    start = omega (arith, not_later u v ap pn bp, not_later v u bp pm ap)

    size : n ≡ m
    size = omega (arith, start, not_longer u v pn bp, not_longer v u pm ap)

word_start_le : (text : Bytes) (p : ℕ) → word_start text p ≤ p
unfolding word_start
word_start_le text zero = omega arith
word_start_le text (suc p) = ground (arith, word_start_le text p)

word_start_left :
    (text : Bytes) (p : ℕ)
    → (word_start text p ≡ 0) ⊎ (is_ident (byte_at text (word_start text p - 1)) ≡ false)
unfolding word_start
word_start_left text zero = inl refl
word_start_left text (suc p) =
    test_cases (λ w. (w ≡ 0) ⊎ (is_ident (byte_at text (w - 1)) ≡ false))
      (is_ident (byte_at text p)) (word_start text p) (suc p) (λ e. word_start_left text p)
      (λ e. inr (ap (λ k. is_ident (byte_at text k)) (omega arith) ∙ e))

-- From inside a word, or from right behind it, the first loop goes to the start of the word.
pub word_start_exact :
    (text : Bytes) (a n off : ℕ)
    → IsWordAt text a n
    → a ≤ off
    → off ≤ a + n
    → word_start text off ≡ a
unfolding word_start
word_start_exact text a n zero w l h = omega arith
word_start_exact text a n (suc p) w l h =
    test_cases (λ k. k ≡ a) (is_ident (byte_at text p)) (word_start text p) (suc p)
      (λ e.
        let more : a ≤ p = elim (at) [ inl same ↦ absurd (stops same e) | inr before ↦ before ] in
        word_start_exact text a n p w more (omega arith))
      (λ e. elim (at) [
        | inl same ↦ sym same
        | inr before ↦ absurd (ground (arith, e, w.inside p before (omega arith)))
      ])
  where
    at : (a ≡ suc p) ⊎ (a ≤ p)
    at = omega arith

    stops : a ≡ suc p → is_ident (byte_at text p) ≡ true → ⊥
    stops same e = elim (w.left) [
      | inl z ↦ omega arith
      | inr other ↦
          ground
            (arith, ap (λ k. is_ident (byte_at text k)) {x = p} {y = a - 1} (omega arith), e, other)
    ]

word_start_inside :
    (text : Bytes) (p i : ℕ) → word_start text p ≤ i → i < p → is_ident (byte_at text i) ≡ true
unfolding word_start
word_start_inside text zero i = λ l h. absurd (omega arith)
word_start_inside text (suc p) i =
    test_cases (λ w. w ≤ i → i < suc p → is_ident (byte_at text i) ≡ true)
      (is_ident (byte_at text p)) (word_start text p) (suc p)
      (λ e l h.
        let at : (i ≡ p) ⊎ (i < p) = omega arith in
        elim at [
          | inl same ↦ ap (λ k. is_ident (byte_at text k)) same ∙ e
          | inr before ↦ word_start_inside text p i l before
        ])
      (λ e l h. absurd (omega arith))

word_rest_inside : (s : Bytes) (i : ℕ) → i < word_rest s → is_ident (byte_at s i) ≡ true
unfolding word_rest byte_at
word_rest_inside [] i = λ h. absurd (omega arith)
word_rest_inside (c ∷ s) zero =
    test_cases (λ n. 0 < n → is_ident c ≡ true) (is_ident c) (suc (word_rest s)) 0 (λ e h. e)
      (λ e h. absurd (omega arith))
word_rest_inside (c ∷ s) (suc i) =
    test_cases (λ n. suc i < n → is_ident (byte_at s i) ≡ true) (is_ident c) (suc (word_rest s)) 0
      (λ e h. word_rest_inside s i (omega arith)) (λ e h. absurd (omega arith))

word_rest_right : (s : Bytes) → is_ident (byte_at s (word_rest s)) ≡ false
unfolding word_rest byte_at
word_rest_right [] = unfold is_ident is_alnum in refl
word_rest_right (c ∷ s) =
    test_cases (λ n. is_ident (byte_at (c ∷ s) n) ≡ false) (is_ident c) (suc (word_rest s)) 0
      (λ e. word_rest_right s) (λ e. e)

pub byte_at-drop : (p : ℕ) (s : Bytes) (i : ℕ) → byte_at (drop p s) i ≡ byte_at s (p + i)
unfolding byte_at
byte_at-drop zero s i = ap (byte_at s) (omega arith)
byte_at-drop (suc p) [] i = refl
byte_at-drop (suc p) (c ∷ s) i =
    byte_at-drop p s i ∙ ap (byte_at (c ∷ s)) {x = suc (p + i)} (omega arith)

-- What the two loops find is the word around a byte of it.
found_word :
    (text : Bytes) (p : ℕ)
    → is_ident (byte_at text p) ≡ true
    → (p < p + word_rest (drop p text))
      × IsWordAt text (word_start text p) (p + word_rest (drop p text) - word_start text p)
found_word text p e = (
  grown,
  record {
    left = word_start_left text p;
    inside = inside_all;
    right =
        ap (λ k. is_ident (byte_at text k)) (omega (arith, word_start_le text p))
        ∙ ap is_ident (sym (byte_at-drop p text rest))
        ∙ word_rest_right (drop p text);
  },
)
  where
    rest : ℕ
    rest = word_rest (drop p text)

    at_rest : (i : ℕ) → i < rest → is_ident (byte_at text (p + i)) ≡ true
    at_rest i h = ap is_ident (sym (byte_at-drop p text i)) ∙ word_rest_inside (drop p text) i h

    stops : rest ≡ 0 → is_ident (byte_at text p) ≡ false
    stops none_left =
        ap (λ k. is_ident (byte_at text k)) {y = p + rest} (omega arith)
        ∙ ap is_ident (sym (byte_at-drop p text rest))
        ∙ word_rest_right (drop p text)

    grown : p < p + rest
    grown = ground (arith, stops)

    inside_all :
        (i : ℕ)
        → word_start text p ≤ i
        → i < word_start text p + (p + rest - word_start text p)
        → is_ident (byte_at text i) ≡ true
    inside_all i l h =
        let at : (i < p) ⊎ (p ≤ i) = omega arith in
        elim at [
          | inl before ↦ word_start_inside text p i l before
          | inr behind ↦
              ap (λ k. is_ident (byte_at text k)) {y = p + (i - p)} (omega arith)
              ∙ at_rest (i - p) (omega (arith, word_start_le text p))
        ]

-- The test of `word_around`.
word_around_cases :
    (P : Option Bytes → Type 0) (text : Bytes) (p cap : ℕ)
    → let start = word_start text p in
      let n = p + word_rest (drop p text) - start in
      ((n ≡ 0) ⊎ (cap < n + 1) → P none)
      → (n + 1 ≤ cap → P (some (take n (drop start text))))
      → P (word_around text p cap)
unfolding word_around
word_around_cases P text p cap h k = ground arith

-- `word_around` has the word around a byte of it, and no other.
pub word_around_exact :
    (text : Bytes) (a n p cap : ℕ)
    → IsWordAt text a n
    → a ≤ p
    → p < a + n
    → n + 1 ≤ cap
    → word_around text p cap ≡ some (take n (drop a text))
word_around_exact text a n p cap w l h fits =
    let (grown, v) = found_word text p (w.inside p l h) in
    let (start, size) =
      word_unique w v p l h (word_start_le text p) (omega (arith, word_start_le text p)) in
    word_around_cases (λ r. r ≡ some (take n (drop a text))) text p cap
      (λ e. absurd (omega (arith, word_start_le text p)))
      (λ e. ap some (ap₂ (λ i k. take k (drop i text)) (sym start) (sym size)))

pub word_around_sound :
    (text w : Bytes) (p cap : ℕ)
    → is_ident (byte_at text p) ≡ true
    → word_around text p cap ≡ some w
    → (a : ℕ) × (n : ℕ) × (a ≤ p)
      × (p < a + n)
      × (n + 1 ≤ cap)
      × IsWordAt text a n
      × (w ≡ take n (drop a text))
word_around_sound text w p cap e =
    let (grown, v) = found_word text p e in
    word_around_cases
      (λ r.
        r ≡ some w
        → (a : ℕ) × (n : ℕ) × (a ≤ p)
          × (p < a + n)
          × (n + 1 ≤ cap)
          × IsWordAt text a n
          × (w ≡ take n (drop a text)))
      text p cap (λ _ h. absurd (ground arith))
      (λ fits h. (
        word_start text p,
        p + word_rest (drop p text) - word_start text p,
        word_start_le text p,
        omega (arith, word_start_le text p),
        fits,
        v,
        ground (arith, h),
      ))
