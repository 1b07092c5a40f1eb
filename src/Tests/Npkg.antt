-- ===== src/Tests/Npkg.antt =====
-- `nprt-pkg` on small inputs.
use nullprt.Base.{
  bytes_eq, is_digit, [], ◌∷◌, true, false, none, some, refl, ◌%◌, ◌+◌, ◌*◌, ◌<◌, ◌↔◌, ◌++◌, length,
  replicate, ◌≡◌, map, codes, List, Bytes, ℕ,
}
use nullprt.Npkg.Cas.{extend, rle_compress, rle_loop}
use nullprt.Npkg.Resolver.{
  dfs_cycle, find_cycle, find_dep, parent_index, resolve_dependency_graph, search_from, unify,
  unify_with, Dep, DepGraph,
}
use nullprt.Npkg.Sha256.{
  ch, maj, rotr, rounds, schedule, sha256_block, sha256_final, sha256_hex, sha256_update,
  update_loop, words, h_start, output, hex,
}
use nullprt.Npkg.Version.{
  cmp_semver, parse_semver, scan_digits, semver_compare_str, semver_satisfies, SemVer,
}
use nullprt.Npkg.Sha256.Digest.{sha256_hex_lem, bit_count, padding}
use nullprt.Npkg.Sha256.Stream.{absorb_all}
use nullprt.Npkg.Cas.RoundTrip.{rle_compress_lem, HasRuns, expand}
use nullprt.Npkg.Version.Order.{cmp_semver-IsOrder}
use nullprt.Npkg.Resolver.Versions.{resolve_dependency_graph-IsUnified, keys, IsUnified}
use nullprt.Npkg.Resolver.Verdict.{resolve_dependency_graph-has_cycle}
use nullprt.Base.Int.{is_nonpos, pos, neg}
use nullprt.Npkg.Resolver.Chains.{OnCycle}
use nullprt.Npkg.Resolver.Cycles.{HasCycle}

-- What the runs compute with.
run : Unit {0}
unfolding extend rle_loop rle_compress scan_digits parse_semver cmp_semver semver_satisfies
    semver_compare_str find_dep parent_index dfs_cycle search_from find_cycle unify_with unify
    resolve_dependency_graph bytes_eq is_digit rotr ch maj words schedule rounds sha256_block
    update_loop sha256_update sha256_final sha256_hex
run = tt

abbrev runs : List ℕ
runs = replicate 300 7 ++ (5 ∷ 5 ∷ 9 ∷ [])

runs_code : rle_compress runs ≡ 255 ∷ 7 ∷ 45 ∷ 7 ∷ 2 ∷ 5 ∷ 1 ∷ 9 ∷ []
unfolding run
runs_code = refl

rle_compress_lem_example :
    (expand (rle_compress runs) ≡ runs)
    × (HasRuns (rle_compress runs) × (length (rle_compress runs) < length runs * 2 + 1))
rle_compress_lem_example = rle_compress_lem runs

abbrev version : ℕ → ℕ → ℕ → SemVer
version x y z = record { major = pos x; minor = pos y; patch = pos z }

beta : parse_semver (codes "1.20.3-beta") ≡ some (version 1 20 3)
unfolding run
beta = refl

too_short : parse_semver (codes "1.20") ≡ none
unfolding run
too_short = refl

cmp_semver-IsOrder_example :
    (cmp_semver (version 1 9 0) (version 1 2 3) ≡ neg (cmp_semver (version 1 2 3) (version 1 9 0)))
    × (((cmp_semver (version 1 2 3) (version 1 9 0) ≡ pos 0) ↔ (version 1 2 3 ≡ version 1 9 0))
        × (is_nonpos (cmp_semver (version 1 2 3) (version 1 9 0)) ≡ true
            → is_nonpos (cmp_semver (version 1 9 0) (version 2 0 0)) ≡ true
            → is_nonpos (cmp_semver (version 1 2 3) (version 2 0 0)) ≡ true))
cmp_semver-IsOrder_example = cmp_semver-IsOrder (version 1 2 3) (version 1 9 0) (version 2 0 0)

abbrev dep : Bytes → Bytes → Bytes → Dep
dep name version parent = record {
  name = name;
  version_req = version;
  resolved_version = version;
  source = [];
  download_url = [];
  integrity = [];
  parent = parent;
  optional = false;
}

abbrev graph : List Dep → DepGraph
graph deps = record {
  deps = deps;
  has_conflict = false;
  conflict_message = [];
  conflict_reason_trace = [];
  has_cycle = false;
  scc_count = 0;
}

abbrev tls : Bytes
tls = codes "tls"

abbrev diamond : DepGraph
diamond = graph (
    dep tls (codes "1.4.0") (codes "http")
    ∷ dep tls (codes "2.0.1") (codes "root")
    ∷ dep tls (codes "1.0.0") (codes "root")
    ∷ dep (codes "http") (codes "1.0.0") (codes "root")
    ∷ [])

-- The first entry has the newest version, and the third keeps the oldest.
diamond_versions :
    map (λ d. d.resolved_version) (resolve_dependency_graph diamond).deps
    ≡ codes "2.0.1" ∷ codes "2.0.1" ∷ codes "1.0.0" ∷ codes "1.0.0" ∷ []
unfolding run
diamond_versions = refl

resolve_dependency_graph-IsUnified_example :
    IsUnified (keys diamond.deps) (resolve_dependency_graph diamond).deps
unfolding run
resolve_dependency_graph-IsUnified_example = resolve_dependency_graph-IsUnified diamond (
  (version 1 4 0, refl),
  ((version 2 0 1, refl), ((version 1 0 0, refl), ((version 1 0 0, refl), tt))),
)

abbrev ring : DepGraph
ring = graph (
    dep (codes "a") (codes "1.0.0") (codes "b")
    ∷ dep (codes "b") (codes "1.0.0") (codes "c")
    ∷ dep (codes "c") (codes "1.0.0") (codes "b")
    ∷ [])

ring_found : (resolve_dependency_graph ring).has_cycle ≡ true
unfolding run
ring_found = refl

diamond_quiet : (resolve_dependency_graph diamond).has_cycle ≡ false
unfolding run
diamond_quiet = refl

resolve_dependency_graph-has_cycle_example :
    ((resolve_dependency_graph ring).has_cycle ≡ true → HasCycle ring.deps)
    × (((resolve_dependency_graph ring).has_cycle ≡ false → (u : ℕ) → ¬ (OnCycle ring.deps u))
        × ((resolve_dependency_graph ring).has_cycle ≡ true
            → (resolve_dependency_graph ring).has_conflict ≡ true))
resolve_dependency_graph-has_cycle_example = resolve_dependency_graph-has_cycle ring refl

-- The vector of the standard.
abc_hash :
    sha256_hex (codes "abc")
    ≡ codes "ba7816bf8f01cfea414140de5dae2223b00361a396177a9cb410ff61f20015ad"
unfolding run
abc_hash = refl

sha256_hex_lem_example :
    (sha256_hex (codes "abc")
      ≡ hex (output (absorb_all h_start (codes "abc" ++ padding 3 (bit_count 3))).0))
    × (length (codes "abc" ++ padding 3 (bit_count 3)) % 64 ≡ 0)
sha256_hex_lem_example = sha256_hex_lem (codes "abc")
