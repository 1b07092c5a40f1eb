-- ===== src/Aegc1/BuildGraph.antt =====
-- The build graph of the driver (src/self/aegc1/driver/build_graph.c): the files that were
-- compiled, each with the hash of its last text and a count of its versions. Reading and writing
-- the file of the graph is left out.
pub mod Recorded
use nullprt.Base.{
  ◌++◌, length, ◌^◌, ltb, ◌%◌, if◌then◌else◌, bytes_eq, ◌+◌, take, Option, List, Bytes, zero, suc,
  [], ◌∷◌, true, false, none, some, inl, inr, refl, ℕ,
}

pub record BuildNode : Type 0 where
  pub path : Bytes
  pub hash : Bytes
  pub version : ℕ

abbrev pub BuildGraph : Type 0
BuildGraph = List BuildNode

-- `strncpy` into an array of 65 or 512 bytes, with its null byte at the end.
abbrev pub hash_field : Bytes → Bytes
hash_field hash = take 64 hash

abbrev pub path_field : Bytes → Bytes
path_field path = take 511 path

-- An `unsigned long` of 64 bits.
unfoldable pub touch : Bytes → BuildNode → BuildNode
touch hash n = record { path = n.path; hash = hash_field hash; version = (n.version + 1) % 2 ^ 64 }

abbrev pub new_node : Bytes → Bytes → BuildNode
new_node path hash = record { path = path_field path; hash = hash_field hash; version = 1 }

-- The loop over the nodes: the first one of that path is brought up to date.
unfoldable pub record_in : Bytes → Bytes → List BuildNode → Option (List BuildNode)
record_in path hash [] = none
record_in path hash (n ∷ ns) = elim (bytes_eq n.path path) [
  | true ↦ some (touch hash n ∷ ns)
  | false ↦ elim (record_in path hash ns) [ none ↦ none | some r ↦ some (n ∷ r) ]
]

-- `none` is a graph that is full.
unfoldable pub build_graph_record : BuildGraph → Bytes → Bytes → Option BuildGraph
build_graph_record graph path hash = elim (record_in path hash graph) [
  | some r ↦ some r
  | none ↦ if ltb (length graph) 1024 then some (graph ++ (new_node path hash ∷ [])) else none
]
