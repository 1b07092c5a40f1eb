-- ===== src/Lsp/Query/Symbols.antt =====
-- The lists of symbols and of completions (src/lsp/nprt-lsp/index.c).
use nullprt.Base.{
  test_cases, zero, suc, [], ◌∷◌, true, refl, ◌==◌, starts_with, if◌then◌else◌, arith, ◌≡◌, Option,
  Bool, Bytes, ℕ, take, length, map, List, ◌↔◌,
}
use nullprt.Lsp.Query.{
  collect, collect_completions, collect_workspace_symbols, fuzzy, is_less, has_higher_score,
  match_mode, completion, cmp_symbols_key,
}
use mathlib.Core.List.{Sublistᴰ, Perm}
use nullprt.Base.Sort.{exchange_sort, IsSorted, exchange_sort-Perm, exchange_sort-IsSorted}
use mathlib.Core.Path.{subst}
use nullprt.Lsp.Index.{Symbol, Index}
use nullprt.Lsp.Query.Order.{cmp_symbols_key-IsOrder, has_higher_score-IsOrder}

-- The symbols that pass a test, all of them.
abbrev pub select : (Symbol → Bool) → List Symbol → List Symbol
select p [] = []
select p (x ∷ xs) = let rest = select p xs in if p x then x ∷ rest else rest

-- What is gathered with room for `room` symbols is the first of those that pass.
pub collect_lem :
    (p : Symbol → Bool) (xs : List Symbol) (room : ℕ) → collect p xs room ≡ take room (select p xs)
unfolding collect
collect_lem p [] zero = refl
collect_lem p [] (suc room) = refl
collect_lem p (x ∷ xs) zero = refl
collect_lem p (x ∷ xs) (suc room) =
    ground (arith, collect_lem p xs room, collect_lem p xs (suc room))

nil_sub : (s : Bytes) → Sublistᴰ [] s
nil_sub [] = Sublistᴰ.slnil
nil_sub (x ∷ s) = Sublistᴰ.cons (nil_sub s)

sub_tail : {y : ℕ} {q s : Bytes} → Sublistᴰ (y ∷ q) s → Sublistᴰ q s
sub_tail (Sublistᴰ.cons h) = Sublistᴰ.cons (sub_tail h)
sub_tail (Sublistᴰ.cons-cons e h) = Sublistᴰ.cons h

fuzzy_sound : (s q : Bytes) → fuzzy s q ≡ true → Sublistᴰ q s
unfolding fuzzy
fuzzy_sound [] [] = λ h. Sublistᴰ.slnil
fuzzy_sound (x ∷ s) [] = λ h. nil_sub (x ∷ s)
fuzzy_sound [] (y ∷ q) = λ h. absurd (ground (arith, h))
fuzzy_sound (x ∷ s) (y ∷ q) =
    test_cases (λ b. b ≡ true → Sublistᴰ (y ∷ q) (x ∷ s)) (x == y) (fuzzy s q) (fuzzy s (y ∷ q))
      (λ e h. Sublistᴰ.cons-cons (ground (arith, e)) (fuzzy_sound s q h))
      (λ e h. Sublistᴰ.cons (fuzzy_sound s (y ∷ q) h))

-- Nothing stands in the empty text.
empty_sub : {y : ℕ} {q : Bytes} → ¬ Sublistᴰ (y ∷ q) []
empty_sub h = elim h [ ]

fuzzy_complete : (s q : Bytes) → Sublistᴰ q s → fuzzy s q ≡ true
unfolding fuzzy
fuzzy_complete [] [] h = refl
fuzzy_complete (x ∷ s) [] h = refl
fuzzy_complete [] (y ∷ q) h = absurd (empty_sub h)
fuzzy_complete (x ∷ s) (y ∷ q) (Sublistᴰ.cons h) =
    test_cases (λ b. b ≡ true) (x == y) (fuzzy s q) (fuzzy s (y ∷ q))
      (λ e. fuzzy_complete s q (sub_tail h)) (λ e. fuzzy_complete s (y ∷ q) h)
fuzzy_complete (x ∷ s) (y ∷ q) (Sublistᴰ.cons-cons e h) =
    test_cases (λ b. b ≡ true) (x == y) (fuzzy s q) (fuzzy s (y ∷ q)) (λ f. fuzzy_complete s q h)
      (λ f. absurd (ground (arith, e, f)))

-- The mode "fuzzy" asks whether the bytes of the query stand in the name in this order, with others
-- between them.
pub fuzzy_iff : (s q : Bytes) → (fuzzy s q ≡ true) ↔ Sublistᴰ q s
fuzzy_iff s q = (fuzzy_sound s q, fuzzy_complete s q)

-- The symbols of the workspace: the first `cap` whose names match the query, none lost and none twice,
-- in an order in which no symbol belongs before an earlier one by the key.
pub collect_workspace_symbols_lem :
    (g : Index) (query : Bytes) (mode key : Option Bytes) (cap : ℕ)
    → let out = collect_workspace_symbols g query mode key cap in
      Perm out (take cap (select (λ x. match_mode (x.name) query mode) (g.symbols)))
      × IsSorted (λ a b. is_less (cmp_symbols_key a b key)) out
unfolding collect_workspace_symbols
collect_workspace_symbols_lem g query mode key cap =
    let p : Symbol → Bool = λ x. match_mode (x.name) query mode in
    let found = collect p (g.symbols) cap in
    let before : Symbol → Symbol → Bool = λ a b. is_less (cmp_symbols_key a b key) in
    (
      subst (Perm (exchange_sort before (length found) found)) (collect_lem p (g.symbols) cap)
          (exchange_sort-Perm before (length found) found),
      exchange_sort-IsSorted before (cmp_symbols_key-IsOrder key) (length found) found
          (omega arith),
    )

-- The completions: one for each of the first `cap` symbols whose names start with the prefix, none with
-- a higher score behind one with a lower.
pub collect_completions_lem :
    (g : Index) (uri prefix : Bytes) (cap : ℕ)
    → let out = collect_completions g uri prefix cap in
      Perm out
        (map (completion uri) (take cap (select (λ x. starts_with prefix (x.name)) (g.symbols))))
      × IsSorted has_higher_score out
unfolding collect_completions
collect_completions_lem g uri prefix cap =
    let p : Symbol → Bool = λ x. starts_with prefix (x.name) in
    let found = map (completion uri) (collect p (g.symbols) cap) in
    (
      subst
          (λ l. Perm (exchange_sort has_higher_score (length found) found) (map (completion uri) l))
          (collect_lem p (g.symbols) cap)
          (exchange_sort-Perm has_higher_score (length found) found),
      exchange_sort-IsSorted has_higher_score has_higher_score-IsOrder (length found) found
          (omega arith),
    )
