-- ===== src/Npkg/Resolver.antt =====
-- The dependency graph (src/pkg/nprt-pkg/resolver.c, resolver.h): the search for cycles and the
-- choice of one version for each name. A C string is the list of its bytes, and memory is found.
pub mod Chains
pub mod Colors
pub mod Cycles
pub mod Verdict
pub mod Newer
pub mod Versions
use nullprt.Base.{
  zero, suc, [], ◌∷◌, true, false, none, some, inl, inr, refl, ℕ, ◌+◌, ◌-◌, Bool, ◌||◌, List, ◌==◌,
  Bytes, bytes_eq, codes, length, get_or, get_elem?, set, replicate, if◌then◌else◌, Option,
}
use nullprt.Base.Int.{is_pos}
use nullprt.Npkg.Version.{semver_compare_str}

pub record Dep : Type 0 where
  pub name : Bytes
  pub version_req : Bytes
  pub resolved_version : Bytes
  pub source : Bytes
  pub download_url : Bytes
  pub integrity : Bytes
  pub parent : Bytes
  pub optional : Bool

pub record DepGraph : Type 0 where
  pub deps : List Dep
  pub has_conflict : Bool
  pub conflict_message : Bytes
  pub conflict_reason_trace : Bytes
  pub has_cycle : Bool
  pub scc_count : ℕ

-- The first dependency of that name; `i` is the index of the first of the list.
unfoldable pub find_dep : List Dep → Bytes → ℕ → Option ℕ
find_dep [] wanted i = none
find_dep (d ∷ ds) wanted i = elim (bytes_eq d.name wanted) [
  | false ↦ find_dep ds wanted (i + 1)
  | true ↦ some i
]

-- The dependency that the parent of dependency `u` names.
unfoldable pub parent_index : List Dep → ℕ → Option ℕ
parent_index deps u = elim (get_elem? deps u) [ none ↦ none | some d ↦ find_dep deps d.parent 0 ]

abbrev pub white : ℕ
white = 0

abbrev pub gray : ℕ
gray = 1

abbrev pub black : ℕ
black = 2

-- What `dfs_cycle` writes to.
pub record Search : Type 0 where
  pub color : List ℕ
  pub cyc : Bool

abbrev pub color_at : Search → ℕ → ℕ
color_at s u = get_or s.color u black

abbrev pub mark : ℕ → ℕ → Search → Search
mark u c s = record { color = set s.color u c; cyc = s.cyc }

abbrev pub note_cycle : Bool → Search → Search
note_cycle test s = if test then record { color = s.color; cyc = true } else s

-- On fuel; each call takes a white dependency, so that their number is enough.
unfoldable pub dfs_cycle : ℕ → List Dep → ℕ → Search → Search
dfs_cycle zero deps u s = s
dfs_cycle (suc n) deps u s =
    let s1 = mark u gray s in
    mark u black (elim (parent_index deps u) [
      | none ↦ s1
      | some v ↦
          let s2 = note_cycle (color_at s1 v == gray) s1 in
          elim (color_at s2 v == white) [ false ↦ s2 | true ↦ dfs_cycle n deps v s2 ]
    ])

-- The loop over the dependencies from `i` on, with `n` of them left.
unfoldable pub search_from : ℕ → List Dep → ℕ → Search → Search
search_from zero deps i s = s
search_from (suc n) deps i s =
    search_from n deps (i + 1)
      (elim (color_at s i == white) [ false ↦ s | true ↦ dfs_cycle (length deps) deps i s ])

unfoldable pub find_cycle : List Dep → Bool → Bool
find_cycle deps before =
    (search_from (length deps) deps 0
      (record { color = replicate (length deps) white; cyc = before })).cyc

-- The inner loop: the entry that stands first, the best version so far, and the later entries.
pub record Unified : Type 0 where
  pub optional : Bool
  pub best : Bytes
  pub later : List Dep

abbrev pub set_optional : Dep → Dep
set_optional d = record {
  name = d.name;
  version_req = d.version_req;
  resolved_version = d.resolved_version;
  source = d.source;
  download_url = d.download_url;
  integrity = d.integrity;
  parent = d.parent;
  optional = true;
}

abbrev pub better : Bytes → Bytes → Bytes
better found best = if is_pos (semver_compare_str found best) then found else best

unfoldable pub unify_with : Bytes → Bool → Bytes → List Dep → Unified
unify_with name opt best [] = record { optional = opt; best = best; later = [] }
unify_with name opt best (d ∷ ds) = elim (bytes_eq name d.name) [
  | false ↦
      let r = unify_with name opt best ds in
      record { optional = r.optional; best = r.best; later = d ∷ r.later }
  | true ↦
      let r = unify_with name (opt || d.optional) (better d.resolved_version best) ds in
      record {
        optional = r.optional;
        best = r.best;
        later = (if opt || d.optional then set_optional d else d) ∷ r.later;
      }
]

abbrev pub resolved : Dep → Bool → Bytes → Dep
resolved d opt version = record {
  name = d.name;
  version_req = d.version_req;
  resolved_version = version;
  source = d.source;
  download_url = d.download_url;
  integrity = d.integrity;
  parent = d.parent;
  optional = opt;
}

-- The outer loop, with `n` entries left.
unfoldable pub unify : ℕ → List Dep → List Dep
unify zero ds = ds
unify (suc n) [] = []
unify (suc n) (d ∷ ds) =
    let r = unify_with d.name d.optional d.resolved_version ds in
    resolved d r.optional r.best ∷ unify n r.later

unfoldable pub resolve_dependency_graph : DepGraph → DepGraph
resolve_dependency_graph g =
    let cycle = find_cycle g.deps g.has_cycle in
    record {
      deps = unify (length g.deps) g.deps;
      has_conflict = g.has_conflict || cycle;
      conflict_message =
          if cycle then codes "cycle detected in dependency graph" else g.conflict_message;
      conflict_reason_trace = g.conflict_reason_trace;
      has_cycle = cycle;
      scc_count = if cycle then 1 else length g.deps;
    }
