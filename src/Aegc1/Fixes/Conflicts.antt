-- ===== src/Aegc1/Fixes/Conflicts.antt =====
-- What the conflicts between fixes are (src/self/aegc1/diag/autofix_conflict.c).
use nullprt.Base.{
  ◌∙◌, sym, [], ◌∷◌, true, false, refl, if◌then◌else◌, Bool, arith, ◌≡◌, ◌+◌, ◌≤◌, ◌<◌, List, ℕ,
}
use nullprt.Aegc1.Fixes.{count_conflicts, count_from, count_with, fix_conflict, FixRange}
use Prim.Native.Nat.{max}

abbrev pub Covers : FixRange → ℕ → Type 0
Covers a p = (a.start ≤ p) × (p < a.end)

-- Two ranges, neither of them empty, conflict exactly if some place lies in both, and the order in
-- which they are given plays no part.
pub fix_conflict_iff :
    (a b : FixRange)
    → a.start < a.end
    → b.start < b.end
    → ((fix_conflict a b ≡ true → (p : ℕ) × (Covers a p × Covers b p))
        × (((p : ℕ) × (Covers a p × Covers b p)) → fix_conflict a b ≡ true))
      × (fix_conflict a b ≡ fix_conflict b a)
fix_conflict_iff a b h k = (
  (
    λ c. (max a.start b.start, ((omega arith, ground arith), (omega arith, ground arith))),
    λ p. covered p.0 p.1.0 p.1.1,
  ),
  ground arith,
)
  where
    covered : (p : ℕ) → Covers a p → Covers b p → fix_conflict a b ≡ true
    covered p x y = ground (arith, x.0, x.1, y.0, y.1)

-- No two ranges conflict.
abbrev pub Apart : FixRange → List FixRange → Type 0
Apart a [] = Unit
Apart a (b ∷ ranges) = (fix_conflict a b ≡ false) × Apart a ranges

abbrev pub AreApart : List FixRange → Type 0
AreApart [] = Unit
AreApart (a ∷ ranges) = Apart a ranges × AreApart ranges

-- What a count that starts at `n` says.
abbrev Counts : ℕ → ℕ → Type 0 → Type 0
Counts n result P = (n ≤ result) × ((result ≡ n → P) × (P → result ≡ n))

count_with-Counts :
    (a : FixRange) (ranges : List FixRange) (n : ℕ)
    → Counts n (count_with a ranges n) (Apart a ranges)
unfolding count_with
count_with-Counts a [] n = (omega arith, (λ e. tt, λ u. refl))
count_with-Counts a (b ∷ ranges) n = by_test (fix_conflict a b) refl (count_with-Counts a ranges)
  where
    true_false : ¬ (true ≡ false)
    true_false q = ground arith

    by_test :
        (t : Bool)
        → fix_conflict a b ≡ t
        → ((m : ℕ) → Counts m (count_with a ranges m) (Apart a ranges))
        → Counts n
            (count_with a ranges (if t then n + 1 else n))
            ((fix_conflict a b ≡ false) × Apart a ranges)
    by_test true e r =
        let c = r (n + 1) in
        (
          omega (arith, c.0),
          (λ q. absurd (omega (arith, c.0, q)), λ p. absurd (true_false (sym e ∙ p.0))),
        )
    by_test false e r = let c = r n in (c.0, (λ q. (e, c.1.0 q), λ p. c.1.1 p.1))

count_from-Counts :
    (ranges : List FixRange) (n : ℕ) → Counts n (count_from ranges n) (AreApart ranges)
unfolding count_from
count_from-Counts [] n = (omega arith, (λ e. tt, λ u. refl))
count_from-Counts (a ∷ ranges) n =
    let first = count_with-Counts a ranges n in
    let others = count_from-Counts ranges (count_with a ranges n) in
    (
      omega (arith, first.0, others.0),
      (
        λ q.
            let none_first : count_with a ranges n ≡ n = omega (arith, first.0, others.0, q) in
            let none_later : count_from ranges (count_with a ranges n) ≡ count_with a ranges n =
              omega (arith, q, none_first) in
            (first.1.0 none_first, others.1.0 none_later),
        λ p. others.1.1 p.1 ∙ first.1.1 p.0,
      ),
    )

-- The count of conflicts is 0 exactly if no range conflicts with a later one.
pub count_conflicts_zero_iff :
    (ranges : List FixRange)
    → (count_conflicts ranges ≡ 0 → AreApart ranges)
      × (AreApart ranges → count_conflicts ranges ≡ 0)
unfolding count_conflicts
count_conflicts_zero_iff ranges = (count_from-Counts ranges 0).1
