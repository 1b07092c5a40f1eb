-- ===== src/Npkg/Resolver/Versions.antt =====
-- The choice of versions (src/pkg/nprt-pkg/resolver.c, `npkg_resolve_dependency_graph`).
use nullprt.Npkg.Resolver.Newer.{NotNewer-trans, better-Better, NotNewer-refl, NotNewer, IsVersion}
use nullprt.Npkg.Resolver.{
  resolve_dependency_graph, unify, unify_with, set_optional, DepGraph, better, Unified, Dep,
}
use nullprt.Base.{
  zero, suc, [], ◌∷◌, true, false, inl, inr, refl, ◌||◌, bytes_eq_iff, if◌then◌else◌, arith, ◌≤◌,
  sym, ◌⊎◌, ◌∙◌, length, ◌≡◌, bytes_eq, ap, Bool, List, Bytes, ℕ,
}
use native.Mathlib.Nat.{le_refl}
use mathlib.Core.Path.{subst}

-- The names and versions of the entries.
abbrev pub keys : List Dep → List (Bytes × Bytes)
keys [] = []
keys (d ∷ ds) = (d.name, d.resolved_version) ∷ keys ds

abbrev pub AreVersions : List (Bytes × Bytes) → Type 0
AreVersions [] = Unit
AreVersions (k ∷ ks) = IsVersion k.1 × AreVersions ks

-- Some entry of that name has the version.
abbrev pub From : Bytes → Bytes → List (Bytes × Bytes) → Type 0
From name v [] = ⊥
From name v (k ∷ ks) = ((bytes_eq name k.0 ≡ true) × (v ≡ k.1)) ⊎ From name v ks

-- No entry of that name is newer than the version.
abbrev pub Newest : Bytes → Bytes → List (Bytes × Bytes) → Type 0
Newest name v [] = Unit
Newest name v (k ∷ ks) = (bytes_eq name k.0 ≡ true → NotNewer k.1 v) × Newest name v ks

record Chosen (name best : Bytes) (ks : List (Bytes × Bytes)) (r : Unified) : Type 0 where
  version : IsVersion r.best
  best_old : NotNewer best r.best
  newest : Newest name r.best ks
  one_of : (r.best ≡ best) ⊎ From name r.best ks
  same_keys : keys r.later ≡ ks

unify_with-Chosen :
    (name : Bytes) (opt : Bool) (best : Bytes) (ds : List Dep)
    → IsVersion best
    → AreVersions (keys ds)
    → Chosen name best (keys ds) (unify_with name opt best ds)
unfolding unify_with
unify_with-Chosen name opt best [] b vs = record {
  version = b;
  best_old = NotNewer-refl best b;
  newest = tt;
  one_of = inl refl;
  same_keys = refl;
}
unify_with-Chosen name opt best (d ∷ ds) b vs =
    by_name (bytes_eq name d.name) refl (unify_with-Chosen name opt best ds b vs.1) (
      unify_with-Chosen name (opt || d.optional) (better d.resolved_version best) ds
        (better-Better d.resolved_version best vs.0 b).version vs.1)
  where
    key_if :
        (t : Bool) (rest : List Dep)
        → keys ((if t then set_optional d else d) ∷ rest) ≡ keys (d ∷ rest)
    key_if true rest = refl
    key_if false rest = refl

    true_false : ¬ (true ≡ false)
    true_false q = ground arith

    best1 : Bytes
    best1 = better d.resolved_version best

    by_name :
        (t : Bool)
        → bytes_eq name d.name ≡ t
        → Chosen name best (keys ds) (unify_with name opt best ds)
        → Chosen name best1 (keys ds) (unify_with name (opt || d.optional) best1 ds)
        → Chosen name best (keys (d ∷ ds)) (elim t [
          | false ↦
              let r = unify_with name opt best ds in
              record { optional = r.optional; best = r.best; later = d ∷ r.later }
          | true ↦
              let r = unify_with name (opt || d.optional) best1 ds in
              record {
                optional = r.optional;
                best = r.best;
                later = (if opt || d.optional then set_optional d else d) ∷ r.later;
              }
        ])
    by_name false e c c1 = record {
      version = c.version;
      best_old = c.best_old;
      newest = (λ q. absurd (true_false (sym q ∙ e)), c.newest);
      one_of = elim c.one_of [ inl o ↦ inl o | inr o ↦ inr (inr o) ];
      same_keys = ap (λ ks. (d.name, d.resolved_version) ∷ ks) c.same_keys;
    }
    by_name true e c c1 =
        let v = d.resolved_version in
        let r = unify_with name (opt || d.optional) best1 ds in
        let bb = better-Better v best vs.0 b in
        record {
          version = c1.version;
          best_old =
              NotNewer-trans best best1 r.best b bb.version c1.version bb.best_old c1.best_old;
          newest = (
            λ q. NotNewer-trans v best1 r.best vs.0 bb.version c1.version bb.found_old c1.best_old,
            c1.newest,
          );
          one_of = elim c1.one_of [
            | inl o ↦ elim bb.one_of [ inl f ↦ inr (inl (e, o ∙ f)) | inr f ↦ inl (o ∙ f) ]
            | inr o ↦ inr (inr o)
          ];
          same_keys =
              key_if (opt || d.optional) r.later
              ∙ ap (λ ks. (d.name, d.resolved_version) ∷ ks) c1.same_keys;
        }

length-keys : (ds : List Dep) → length (keys ds) ≡ length ds
length-keys [] = refl
length-keys (d ∷ ds) = ap suc (length-keys ds)

-- Each entry has the newest of its own version and those of the later entries of its name.
abbrev pub IsUnified : List (Bytes × Bytes) → List Dep → Type 0
IsUnified [] [] = Unit
IsUnified [] (r ∷ rs) = ⊥
IsUnified (k ∷ ks) [] = ⊥
IsUnified (k ∷ ks) (r ∷ rs) =
    (r.name ≡ k.0)
    × (From k.0 r.resolved_version (k ∷ ks)
        × (Newest k.0 r.resolved_version (k ∷ ks) × IsUnified ks rs))

unify-IsUnified :
    (n : ℕ) (ds : List Dep)
    → length ds ≤ n
    → AreVersions (keys ds)
    → IsUnified (keys ds) (unify n ds)
unfolding unify
unify-IsUnified zero [] h vs = tt
unify-IsUnified zero (d ∷ ds) h vs = absurd (omega arith)
unify-IsUnified (suc n) [] h vs = tt
unify-IsUnified (suc n) (d ∷ ds) h vs =
    let r = unify_with d.name d.optional d.resolved_version ds in
    let c = unify_with-Chosen d.name d.optional d.resolved_version ds vs.0 vs.1 in
    let self = (bytes_eq_iff d.name d.name).1 refl in
    let short : length r.later ≤ n =
      omega (arith, h, length-keys r.later, length-keys ds, ap length c.same_keys) in
    (
      refl,
      (
        elim c.one_of [ inl e ↦ inl (self, e) | inr o ↦ inr o ],
        (
          (λ q. c.best_old, c.newest),
          subst (λ ks. IsUnified ks (unify n r.later)) c.same_keys
              (unify-IsUnified n r.later short (subst AreVersions (sym c.same_keys) vs.1)),
        ),
      ),
    )

-- In a resolved graph whose entries have versions that can be read, each entry keeps its name and has
-- the newest version among its own and those of the later entries of the same name.
pub resolve_dependency_graph-IsUnified :
    (g : DepGraph)
    → AreVersions (keys g.deps)
    → IsUnified (keys g.deps) (resolve_dependency_graph g).deps
unfolding resolve_dependency_graph
resolve_dependency_graph-IsUnified g vs =
    unify-IsUnified (length g.deps) g.deps (le_refl (length g.deps)) vs
