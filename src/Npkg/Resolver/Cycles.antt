-- ===== src/Npkg/Resolver/Cycles.antt =====
-- The search for cycles (src/pkg/nprt-pkg/resolver.c, `dfs_cycle` and the loop that calls it).
use nullprt.Npkg.Resolver.{
  dfs_cycle, note_cycle, parent_index, mark, gray, white, color_at, black, Search, Dep,
}
use nullprt.Base.{
  zero, suc, true, false, none, some, inl, inr, refl, Option, Bool, ◌==◌, sym, ap, arith, length,
  ◌⊎◌, ◌≤◌, ◌≡◌, ◌<◌, ◌∙◌, List, ℕ,
}
use nullprt.Npkg.Resolver.Chains.{Grounded-parent, up-parent, Reaches, Grounded, OnCycle}
use nullprt.Npkg.Resolver.Colors.{
  length-set, color_of-set-black, color_of-set-other, color_of-set-same, whites-set, whites,
}
use mathlib.Core.Path.{subst}
use native.Mathlib.Decide.{ℕ_discrete}

-- Every chain from a finished dependency ends.
abbrev pub Finished : List Dep → Search → Type 0
Finished deps s = (v : ℕ) → black ≤ color_at s v → Grounded deps v

-- The calls in progress form a chain up to `u`.
abbrev pub InProgress : List Dep → Search → ℕ → Type 0
InProgress deps s u = (g : ℕ) → color_at s g ≡ gray → Reaches deps g u

abbrev pub HasCycle : List Dep → Type 0
HasCycle deps = (w : ℕ) × OnCycle deps w

-- What the search keeps from one state to a later one.
pub record Steps (deps : List Dep) (s r : Search) : Type 0 where
  pub kept : (v : ℕ) → white < color_at s v → white < color_at r v
  pub grays : (v : ℕ) → color_at r v ≡ gray → color_at s v ≡ gray
  pub found : r.cyc ≡ true → (s.cyc ≡ true) ⊎ HasCycle deps
  pub quiet : r.cyc ≡ false → s.cyc ≡ false
  pub finished : r.cyc ≡ false → Finished deps s → Finished deps r
  pub same_length : length r.color ≡ length s.color

pub Steps-refl : (deps : List Dep) (s : Search) → Steps deps s s
Steps-refl deps s = record {
  kept = λ v h. h;
  grays = λ v h. h;
  found = inl;
  quiet = λ h. h;
  finished = λ h f. f;
  same_length = refl;
}

pub Steps-trans :
    (deps : List Dep) (s t r : Search) → Steps deps s t → Steps deps t r → Steps deps s r
Steps-trans deps s t r a b = record {
  kept = λ v h. b.kept v (a.kept v h);
  grays = λ v h. a.grays v (b.grays v h);
  found = λ h. elim (b.found h) [ inl k ↦ a.found k | inr c ↦ inr c ];
  quiet = λ h. a.quiet (b.quiet h);
  finished = λ h f. b.finished h (a.finished (b.quiet h) f);
  same_length = b.same_length ∙ a.same_length;
}

gray-Finished :
    (deps : List Dep) (s : Search) (u : ℕ)
    → color_at s u ≡ white
    → Finished deps s
    → Finished deps (mark u gray s)
gray-Finished deps s u h f v k = elim (ℕ_discrete u v) [
  | yes e ↦
      let c = color_of-set-same s.color u gray (λ b. white_black (sym h ∙ b)) in
      let d : color_at (mark u gray s) v ≡ gray = ap (color_at (mark u gray s)) (sym e) ∙ c in
      absurd (omega arith)
  | no n ↦ f v (omega (arith, color_of-set-other s.color u v gray n, k))
]
  where
    white_black : ¬ (white ≡ black)
    white_black b = ground arith

-- A call that marks its dependency gray, does the steps between, and marks it black.
finish :
    (deps : List Dep) (s r : Search) (u : ℕ)
    → color_at s u ≡ white
    → Steps deps (mark u gray s) r
    → (r.cyc ≡ false → Finished deps (mark u gray s) → Grounded deps u)
    → Steps deps s (mark u black r)
finish deps s r u h a g = record {
  kept = λ v k. elim (ℕ_discrete u v) [
    | yes e ↦ let w : color_at s v ≡ white = ap (color_at s) (sym e) ∙ h in absurd (omega arith)
    | no n ↦
        let before = color_of-set-other s.color u v gray n in
        omega (arith, color_of-set-other r.color u v black n, a.kept v (omega (arith, before, k)))
  ];
  grays = λ v k. elim (ℕ_discrete u v) [
    | yes e ↦
        let b : color_at (mark u black r) v ≡ black =
          ap (color_at (mark u black r)) (sym e) ∙ color_of-set-black r.color u in
        absurd (omega arith)
    | no n ↦
        sym (color_of-set-other s.color u v gray n)
        ∙ a.grays v (sym (color_of-set-other r.color u v black n) ∙ k)
  ];
  found = a.found;
  quiet = a.quiet;
  finished = λ q f v k. elim (ℕ_discrete u v) [
    | yes e ↦ subst (Grounded deps) e (g q (gray-Finished deps s u h f))
    | no n ↦
        a.finished q (gray-Finished deps s u h f) v
          (omega (arith, color_of-set-other r.color u v black n, k))
  ];
  same_length = length-set r.color u black ∙ a.same_length ∙ length-set s.color u gray;
}

gray-InProgress :
    (deps : List Dep) (s : Search) (u : ℕ) → InProgress deps s u → InProgress deps (mark u gray s) u
gray-InProgress deps s u p g k = elim (ℕ_discrete u g) [
  | yes e ↦ (0, ap some (sym e))
  | no n ↦ p g (sym (color_of-set-other s.color u g gray n) ∙ k)
]

parent_InProgress :
    (deps : List Dep) (s : Search) (u v : ℕ)
    → parent_index deps u ≡ some v
    → InProgress deps s u
    → InProgress deps s v
parent_InProgress deps s u v e p g k = let r = p g k in (suc r.0, up-parent deps r.0 g u v r.1 e)

-- From a state in which `u` is gray to the one its call leaves.
abbrev Leads : List Dep → ℕ → Search → Search → Type 0
Leads deps u s r = Steps deps s r × (r.cyc ≡ false → Finished deps s → Grounded deps u)

parent-Leads :
    (n : ℕ) (deps : List Dep) (u v : ℕ) (s : Search)
    → parent_index deps u ≡ some v
    → InProgress deps s u
    → (color_at s v ≡ white
        → Steps deps s (dfs_cycle n deps v s) × (color_at (dfs_cycle n deps v s) v ≡ black))
    → let s2 = note_cycle (color_at s v == gray) s in
      Leads deps u s (elim (color_at s2 v == white) [ false ↦ s2 | true ↦ dfs_cycle n deps v s2 ])
parent-Leads n deps u v s e p call =
    subst
      (λ c. Leads deps u s (
        let s2 = note_cycle (color_at s v == gray) s in
        elim (c == white) [ false ↦ s2 | true ↦ dfs_cycle n deps v s2 ]))
      (sym (color_at-note_cycle (color_at s v == gray)))
      (by_color (color_at s v == gray) (color_at s v == white) refl refl)
  where
    color_at-note_cycle : (t : Bool) → color_at (note_cycle t s) v ≡ color_at s v
    color_at-note_cycle true = refl
    color_at-note_cycle false = refl

    true_false : ¬ (true ≡ false)
    true_false q = ground arith

    by_color :
        (t w : Bool)
        → (color_at s v == gray) ≡ t
        → (color_at s v == white) ≡ w
        → Leads deps u s
            (elim w [ false ↦ note_cycle t s | true ↦ dfs_cycle n deps v (note_cycle t s) ])
    by_color true true a b = absurd (ground arith)
    by_color true false a b =
        let r = p v (ground arith) in
        (
          record {
            kept = λ x h. h;
            grays = λ x h. h;
            found = λ h. inr (v, (r.0, up-parent deps r.0 v u v r.1 e));
            quiet = λ h. absurd (true_false h);
            finished = λ h f. absurd (true_false h);
            same_length = refl;
          },
          λ h f. absurd (true_false h),
        )
    by_color false true a b =
        let r = call (ground arith) in
        (r.0, λ q f. Grounded-parent deps u v e (r.0.finished q f v (omega (arith, r.1))))
    by_color false false a b =
        (Steps-refl deps s, λ q f. Grounded-parent deps u v e (f v (ground arith)))

-- With a call to spare for each white dependency, the call for `u` finishes it.
pub dfs_cycle-Steps :
    (n : ℕ) (deps : List Dep) (u : ℕ) (s : Search)
    → whites s.color ≤ n
    → color_at s u ≡ white
    → InProgress deps s u
    → Steps deps s (dfs_cycle n deps u s) × (color_at (dfs_cycle n deps u s) u ≡ black)
unfolding dfs_cycle
dfs_cycle-Steps zero deps u s few h p =
    absurd (omega (arith, whites-set s.color u gray h (omega arith)))
dfs_cycle-Steps (suc n) deps u s few h p =
    let few1 : whites (mark u gray s).color ≤ n =
      omega (arith, whites-set s.color u gray h (omega arith)) in
    let p1 = gray-InProgress deps s u p in
    (
      finish deps s _ u h (by_parent (parent_index deps u) refl p1 few1 (dfs_cycle-Steps n deps)).0
          (by_parent (parent_index deps u) refl p1 few1 (dfs_cycle-Steps n deps)).1,
      color_of-set-black _ u,
    )
  where
    s1 : Search
    s1 = mark u gray s

    by_parent :
        (o : Option ℕ)
        → parent_index deps u ≡ o
        → InProgress deps s1 u
        → whites s1.color ≤ n
        → ((v : ℕ) (t : Search)
            → whites t.color ≤ n
            → color_at t v ≡ white
            → InProgress deps t v
            → Steps deps t (dfs_cycle n deps v t) × (color_at (dfs_cycle n deps v t) v ≡ black))
        → Leads deps u s1 (elim o [
          | none ↦ s1
          | some v ↦
              let s2 = note_cycle (color_at s1 v == gray) s1 in
              elim (color_at s2 v == white) [ false ↦ s2 | true ↦ dfs_cycle n deps v s2 ]
        ])
    by_parent none e i k call =
        (Steps-refl deps s1, λ q f. (1, ap (λ o. elim o [ none ↦ none | some x ↦ some x ]) e))
    by_parent (some v) e i k call =
        parent-Leads n deps u v s1 e i (λ w. call v s1 k w (parent_InProgress deps s1 u v e i))
