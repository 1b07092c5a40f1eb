-- ===== src/Npkg/Resolver/Verdict.antt =====
-- What `npkg_resolve_dependency_graph` (src/pkg/nprt-pkg/resolver.c) says of cycles.
use mathlib.Core.Path.{ap, sym, subst}
use nullprt.Npkg.Resolver.{
  find_dep, find_cycle, parent_index, resolve_dependency_graph, search_from, black, white, gray,
  color_at, dfs_cycle, Search, Dep, DepGraph,
}
use nullprt.Base.{
  Option, zero, suc, [], ◌∷◌, true, false, none, some, inl, inr, refl, length-replicate, replicate,
  ◌∙◌, ◌||◌, ◌==◌, get_elem?, Bool, arith, ◌+◌, ◌<◌, ◌≤◌, length, ◌≢◌, ◌≡◌, List, ℕ,
}
use nullprt.Npkg.Resolver.Chains.{Grounded-acyclic, Grounded, OnCycle}
use nullprt.Npkg.Resolver.Cycles.{
  Finished, dfs_cycle-Steps, Steps-trans, Steps-refl, Steps, HasCycle,
}
use nullprt.Npkg.Resolver.Colors.{color_of-replicate, whites-le, whites}
use native.Mathlib.Decide.{ℕ_discrete}

-- One round of the loop.
turn-Steps :
    (deps : List Dep) (i : ℕ) (s : Search) (w : Bool)
    → ((g : ℕ) → color_at s g ≢ gray)
    → length s.color ≡ length deps
    → (color_at s i == white) ≡ w
    → let t : Search = elim w [ false ↦ s | true ↦ dfs_cycle (length deps) deps i s ] in
      Steps deps s t × (white < color_at t i)
turn-Steps deps i s false h l e = (Steps-refl deps s, ground arith)
turn-Steps deps i s true h l e =
    let few : whites s.color ≤ length deps = omega (arith, whites-le s.color) in
    let r = dfs_cycle-Steps (length deps) deps i s few (ground arith) (λ g k. absurd (h g k)) in
    (r.0, omega (arith, r.1))

-- Between the calls of the loop nothing is gray, so that a call may start anywhere.
search_from-Steps :
    (n : ℕ) (deps : List Dep) (i : ℕ) (s : Search)
    → ((g : ℕ) → color_at s g ≢ gray)
    → length s.color ≡ length deps
    → Steps deps s (search_from n deps i s)
      × ((u : ℕ) → i ≤ u → u < i + n → white < color_at (search_from n deps i s) u)
unfolding search_from
search_from-Steps zero deps i s h l = (Steps-refl deps s, λ u a b. absurd (omega arith))
search_from-Steps (suc n) deps i s h l =
    let t : Search = elim (color_at s i == white) [
      | false ↦ s
      | true ↦ dfs_cycle (length deps) deps i s
    ] in
    let now = turn-Steps deps i s (color_at s i == white) h l refl in
    let later =
      search_from-Steps n deps (i + 1) t (λ g k. h g (now.0.grays g k)) (now.0.same_length ∙ l) in
    (
      Steps-trans deps s t _ now.0 later.0,
      λ u a b. elim (ℕ_discrete i u) [
        | yes e ↦
            subst (λ x. white < color_at (search_from n deps (i + 1) t) x) e (later.0.kept i now.1)
        | no d ↦ later.1 u (ground arith) (omega arith)
      ],
    )

get_elem?-outside : (deps : List Dep) (u : ℕ) → length deps ≤ u → get_elem? deps u ≡ none
get_elem?-outside [] u h = refl
get_elem?-outside (d ∷ deps) zero h = absurd (omega arith)
get_elem?-outside (d ∷ deps) (suc u) h = get_elem?-outside deps u (omega arith)

outside-Grounded : (deps : List Dep) (u : ℕ) → length deps ≤ u → Grounded deps u
unfolding parent_index
outside-Grounded deps u h =
    let no_parent : (o : Option Dep)
        → o ≡ none
        → (elim o as (λ x. Option ℕ) [ none ↦ none | some d ↦ find_dep deps d.parent 0 ]) ≡ none =
      λ o e. ap (λ o. elim o [ none ↦ none | some d ↦ find_dep deps d.parent 0 ]) e in
    (
      1,
      ap (λ o. elim o [ none ↦ none | some v ↦ some v ]) (no_parent _ (get_elem?-outside deps u h)),
    )

-- A graph that enters without the mark for a cycle and is resolved has the mark then exactly if the
-- chain of parents of some dependency comes back to it: with the mark there is such a dependency,
-- and without it there is none. The mark also makes the graph one with a conflict.
pub resolve_dependency_graph-has_cycle :
    (g : DepGraph)
    → g.has_cycle ≡ false
    → ((resolve_dependency_graph g).has_cycle ≡ true → HasCycle g.deps)
      × (((resolve_dependency_graph g).has_cycle ≡ false → (u : ℕ) → ¬ (OnCycle g.deps u))
          × ((resolve_dependency_graph g).has_cycle ≡ true
              → (resolve_dependency_graph g).has_conflict ≡ true))
unfolding resolve_dependency_graph find_cycle
resolve_dependency_graph-has_cycle g h =
    let n = length g.deps in
    let s : Search = record { color = replicate n white; cyc = g.has_cycle } in
    let calm : (u : ℕ) → color_at s u ≢ gray = λ u e. elim (color_of-replicate n u) [
      | inl k ↦ absurd (omega (arith, k.0))
      | inr k ↦ absurd (omega (arith, k.0))
    ] in
    let start : Finished g.deps s = λ u e. elim (color_of-replicate n u) [
      | inl k ↦ absurd (omega (arith, k.0))
      | inr k ↦ outside-Grounded g.deps u k.1
    ] in
    let r = search_from-Steps n g.deps 0 s calm (length-replicate n white) in
    let t = search_from n g.deps 0 s in
    let ends : t.cyc ≡ false → (u : ℕ) → Grounded g.deps u = λ q u. elim (color_of-replicate n u) [
      | inl k ↦ r.0.finished q start u (
          gray_or_black (color_at t u) (r.1 u (omega arith) (omega (arith, k.1)))
            (λ e. calm u (r.0.grays u e)))
      | inr k ↦ outside-Grounded g.deps u k.1
    ] in
    (
      λ q. elim (r.0.found q) [ inl k ↦ absurd (true_false (sym k ∙ h)) | inr c ↦ c ],
      (λ q u. Grounded-acyclic g.deps u (ends q u), λ q. or_true g.has_conflict t.cyc q),
    )
  where
    true_false : ¬ (true ≡ false)
    true_false q = ground arith

    gray_or_black : (c : ℕ) → white < c → c ≢ gray → black ≤ c
    gray_or_black c a b = ground arith

    or_true : (a b : Bool) → b ≡ true → (a || b) ≡ true
    or_true a b e = ground arith
