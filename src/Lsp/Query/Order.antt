-- ===== src/Lsp/Query/Order.antt =====
-- The orders of the sorted answers (`cmp_symbols_key` and the scores in src/lsp/nprt-lsp/index.c).
use nullprt.Lsp.Query.{cmp_symbols_key, has_higher_score, is_less, strcmp, Ordering, compare}
use nullprt.Lsp.Index.{Symbol}
use nullprt.Base.{
  [], ◌∷◌, true, false, none, some, refl, length, if◌then◌else◌, codes, bytes_eq, ◌≡◌, arith,
  Option, Bytes, Bool,
}
use nullprt.Base.Int.{lt_int, ℤ, pos, negsuc}
use nullprt.Base.Sort.{IsOrder}

strcmp-one_way : (a b : Bytes) → is_less (strcmp b a) ≡ true → is_less (strcmp a b) ≡ false
unfolding strcmp is_less
strcmp-one_way [] [] h = refl
strcmp-one_way [] (y ∷ ys) h = absurd (ground arith)
strcmp-one_way (x ∷ xs) [] h = refl
strcmp-one_way (x ∷ xs) (y ∷ ys) h = ground (arith, strcmp-one_way xs ys)

strcmp_trans :
    (a b c : Bytes)
    → is_less (strcmp b a) ≡ false
    → is_less (strcmp c b) ≡ false
    → is_less (strcmp c a) ≡ false
unfolding strcmp is_less
strcmp_trans [] [] c h k = k
strcmp_trans [] (y ∷ ys) [] h k = refl
strcmp_trans [] (y ∷ ys) (z ∷ zs) h k = refl
strcmp_trans (x ∷ xs) [] c h k = absurd (ground arith)
strcmp_trans (x ∷ xs) (y ∷ ys) [] h k = absurd (ground arith)
strcmp_trans (x ∷ xs) (y ∷ ys) (z ∷ zs) h k = ground (arith, strcmp_trans xs ys zs)

pub strcmp-IsOrder : IsOrder (λ a b. is_less (strcmp a b))
strcmp-IsOrder = record { one_way = strcmp-one_way; trans = strcmp_trans }

-- An order of keys is one of what has the keys.
IsOrder-key :
    {A B : Type 0} {before : B → B → Bool} (key : A → B)
    → IsOrder before
    → IsOrder (λ x y. before (key x) (key y))
IsOrder-key key o = record {
  one_way = λ x y. o.one_way (key x) (key y);
  trans = λ x y z. o.trans (key x) (key y) (key z);
}

compare-IsOrder : IsOrder (λ a b. is_less (compare a b))
unfolding is_less
compare-IsOrder = record { one_way = λ x y h. ground arith; trans = λ x y z h k. ground arith }

compare_back-IsOrder : IsOrder (λ a b. is_less (compare b a))
unfolding is_less
compare_back-IsOrder = record { one_way = λ x y h. ground arith; trans = λ x y z h k. ground arith }

-- An order that is chosen by a test.
IsOrder-if :
    {A : Type 0} (b : Bool) (f g : A → A → Ordering)
    → IsOrder (λ x y. is_less (f x y))
    → IsOrder (λ x y. is_less (g x y))
    → IsOrder (λ x y. is_less (if b then f x y else g x y))
IsOrder-if true f g h k = h
IsOrder-if false f g h k = k

pub cmp_symbols_key-IsOrder :
    (key : Option Bytes) → IsOrder (λ a b. is_less (cmp_symbols_key a b key))
unfolding cmp_symbols_key
cmp_symbols_key-IsOrder none = IsOrder-key (λ x. x.name) strcmp-IsOrder
cmp_symbols_key-IsOrder (some key) =
    let names : Symbol → Symbol → Ordering = λ x y. strcmp (x.name) (y.name) in
    let lengths : Symbol → Symbol → Ordering = λ x y. compare (length (y.name)) (length (x.name)) in
    let uris : Symbol → Symbol → Ordering = λ x y. strcmp (x.uri) (y.uri) in
    let relevance = bytes_eq key (codes "relevance") in
    let path = bytes_eq key (codes "path") in
    IsOrder-if (bytes_eq key (codes "kind")) (λ x y. compare (x.kind) (y.kind))
      (λ x y. if path then uris x y else if relevance then lengths x y else names x y)
      (IsOrder-key (λ x. x.kind) compare-IsOrder)
      (IsOrder-if path uris (λ x y. if relevance then lengths x y else names x y)
        (IsOrder-key (λ x. x.uri) strcmp-IsOrder)
        (IsOrder-if relevance lengths names
          (IsOrder-key (λ x. length (x.name)) compare_back-IsOrder)
          (IsOrder-key (λ x. x.name) strcmp-IsOrder)))

above-one_way : (a b : ℤ) → lt_int a b ≡ true → lt_int b a ≡ false
above-one_way (pos a) (pos b) h = ground arith
above-one_way (pos a) (negsuc b) h = absurd (ground arith)
above-one_way (negsuc a) (pos b) h = refl
above-one_way (negsuc a) (negsuc b) h = ground arith

above_trans : (a b c : ℤ) → lt_int a b ≡ false → lt_int b c ≡ false → lt_int a c ≡ false
above_trans (pos a) (pos b) (pos c) h k = ground arith
above_trans (pos a) (pos b) (negsuc c) h k = refl
above_trans (pos a) (negsuc b) (pos c) h k = absurd (ground arith)
above_trans (pos a) (negsuc b) (negsuc c) h k = refl
above_trans (negsuc a) (pos b) c h k = absurd (ground arith)
above_trans (negsuc a) (negsuc b) (pos c) h k = absurd (ground arith)
above_trans (negsuc a) (negsuc b) (negsuc c) h k = ground arith

pub has_higher_score-IsOrder : IsOrder has_higher_score
unfolding has_higher_score
has_higher_score-IsOrder =
    IsOrder-key (λ x. x.score) record { one_way = above-one_way; trans = above_trans }
