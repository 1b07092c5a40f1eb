-- ===== src/Npkg/Resolver/Chains.antt =====
-- The chains of parents in a dependency graph (src/pkg/nprt-pkg/resolver.c).
use nullprt.Base.{zero, suc, none, some, refl, sym, ◌∙◌, ap, ◌*◌, arith, ◌≡◌, ◌+◌, Option, List, ℕ}
use nullprt.Npkg.Resolver.{parent_index, Dep}

abbrev pub up : List Dep → ℕ → ℕ → Option ℕ
up deps zero u = some u
up deps (suc k) u = elim (parent_index deps u) [ none ↦ none | some v ↦ up deps k v ]

abbrev pub Reaches : List Dep → ℕ → ℕ → Type 0
Reaches deps u v = (k : ℕ) × up deps k u ≡ some v

-- The chain of parents comes back to its start, or ends.
abbrev pub OnCycle : List Dep → ℕ → Type 0
OnCycle deps u = (k : ℕ) × up deps (suc k) u ≡ some u

abbrev pub Grounded : List Dep → ℕ → Type 0
Grounded deps u = (k : ℕ) × up deps k u ≡ none

-- The step on from where a chain stands.
abbrev on : List Dep → ℕ → Option ℕ → Option ℕ
on deps k none = none
on deps k (some v) = up deps k v

up-add : (deps : List Dep) (j k u : ℕ) → up deps (j + k) u ≡ on deps k (up deps j u)
up-add deps zero k u = let e : zero + k ≡ k = omega arith in ap (λ n. up deps n u) e
up-add deps (suc j) k u =
    let e : suc j + k ≡ suc (j + k) = omega arith in
    ap (λ n. up deps n u) e ∙ from (parent_index deps u) (up-add deps j k)
  where
    from :
        (o : Option ℕ)
        → ((v : ℕ) → up deps (j + k) v ≡ on deps k (up deps j v))
        → (elim o [ none ↦ none | some v ↦ up deps (j + k) v ])
          ≡ on deps k (elim o [ none ↦ none | some v ↦ up deps j v ])
    from none h = refl
    from (some v) h = h v

-- A chain that reaches `u` goes on to the parent of `u`.
pub up-parent :
    (deps : List Dep) (k u v w : ℕ)
    → up deps k u ≡ some v
    → parent_index deps v ≡ some w
    → up deps (suc k) u ≡ some w
up-parent deps k u v w h p =
    let e : suc k ≡ k + 1 = omega arith in
    ap (λ n. up deps n u) e
    ∙ up-add deps k 1 u
    ∙ ap (on deps 1) h
    ∙ ap (λ o. elim o [ none ↦ none | some x ↦ some x ]) p

pub Grounded-parent :
    (deps : List Dep) (u v : ℕ) → parent_index deps u ≡ some v → Grounded deps v → Grounded deps u
Grounded-parent deps u v p g =
    (suc g.0, ap (λ o. elim o [ none ↦ none | some x ↦ up deps g.0 x ]) p ∙ g.1)

around : (deps : List Dep) (u k n : ℕ) → up deps (suc k) u ≡ some u → up deps (n * suc k) u ≡ some u
around deps u k zero h = let e : zero * suc k ≡ zero = omega arith in ap (λ m. up deps m u) e
around deps u k (suc n) h =
    let e : suc n * suc k ≡ suc k + n * suc k = omega arith in
    ap (λ m. up deps m u) e
    ∙ up-add deps (suc k) (n * suc k) u
    ∙ ap (on deps (n * suc k)) h
    ∙ around deps u k n h

-- A chain that ends does not come back to its start.
pub Grounded-acyclic : (deps : List Dep) (u : ℕ) → Grounded deps u → ¬ (OnCycle deps u)
Grounded-acyclic deps u g c =
    let j = g.0 in
    let k = c.0 in
    let e : j * suc k ≡ j + j * k = omega arith in
    let ends : up deps (j * suc k) u ≡ none =
      ap (λ m. up deps m u) e ∙ up-add deps j (j * k) u ∙ ap (on deps (j * k)) g.1 in
    none_some (sym ends ∙ around deps u k j c.1)
  where
    none_some : ¬ (◌≡◌ {A = Option ℕ} none (some u))
    none_some q = ground arith
