-- ===== src/Aegc1/BuildGraph/Recorded.antt =====
-- What the build graph (src/self/aegc1/driver/build_graph.c) holds after a file is recorded.
use nullprt.Aegc1.BuildGraph.{
  build_graph_record, touch, path_field, new_node, BuildGraph, record_in, BuildNode,
}
use nullprt.Base.{
  suc, [], ◌∷◌, true, false, none, some, inl, inr, refl, take, ◌+◌, ◌%◌, ◌^◌, test_cases,
  take_whole, ltb→lt, length-append, ltb, ◌⊎◌, ◌<◌, ◌++◌, if◌then◌else◌, ap, ◌≤◌, arith, sym,
  length, ◌≢◌, ◌∙◌, bytes_eq_iff, Bool-cases, bytes_eq, ◌≡◌, Option, List, Bytes,
}

-- The first node of a path.
pub node_of : List BuildNode → Bytes → Option BuildNode
node_of [] path = none
node_of (n ∷ ns) path = elim (bytes_eq n.path path) [ true ↦ some n | false ↦ node_of ns path ]

-- The node of a file after it is recorded.
abbrev pub updated : Bytes → Bytes → Option BuildNode → BuildNode
updated path hash none = record { path = path; hash = take 64 hash; version = 1 }
updated path hash (some n) = record {
  path = path;
  hash = take 64 hash;
  version = (n.version + 1) % 2 ^ 64;
}

-- The node of that path is the updated one, all other paths have the nodes they had, and there is
-- room.
pub record IsRecorded (path hash : Bytes) (g h : BuildGraph) : Type 0 where
  pub node : node_of h path ≡ some (updated path hash (node_of g path))
  pub others : (q : Bytes) → q ≢ path → node_of h q ≡ node_of g q
  pub bounded : length g ≤ 1024 → length h ≤ 1024

node_here :
    (n : BuildNode) (ns : List BuildNode) (q : Bytes) → n.path ≡ q → node_of (n ∷ ns) q ≡ some n
unfolding node_of
node_here n ns q e = rw ((bytes_eq_iff n.path q).1 e, node_of) refl

node_there :
    (n : BuildNode) (ns : List BuildNode) (q : Bytes)
    → ¬ (n.path ≡ q)
    → node_of (n ∷ ns) q ≡ node_of ns q
unfolding node_of
node_there n ns q ne = elim (Bool-cases (bytes_eq n.path q)) [
  | inl e ↦ absurd (ne ((bytes_eq_iff n.path q).0 e))
  | inr e ↦ rw (e, node_of) refl
]

node_of-path :
    (ns : List BuildNode) (q : Bytes) (n : BuildNode) → node_of ns q ≡ some n → n.path ≡ q
unfolding node_of
node_of-path [] q n h = absurd cc
node_of-path (m ∷ ns) q n h = elim (Bool-cases (bytes_eq m.path q)) [
  | inl e ↦
      let same : m ≡ n = cc (node_here m ns q ((bytes_eq_iff m.path q).0 e)) in
      ap (λ x. x.path) (sym same) ∙ (bytes_eq_iff m.path q).0 e
  | inr e ↦
      let other : ¬ (m.path ≡ q) = λ p. ground (arith, e, (bytes_eq_iff m.path q).1 p) in
      node_of-path ns q n (sym (node_there m ns q other) ∙ h)
]

touched :
    (path hash : Bytes) (ns : List BuildNode) (n : BuildNode)
    → node_of ns path ≡ some n
    → some (touch hash n) ≡ some (updated path hash (some n))
unfolding touch
touched path hash ns n h =
    ap (λ p. some (record { path = p; hash = take 64 hash; version = (n.version + 1) % 2 ^ 64 }))
      (node_of-path ns path n h)

made :
    (path hash : Bytes)
    → length path ≤ 511
    → some (new_node path hash) ≡ some (updated path hash none)
made path hash short =
    ap (λ p. some (record { path = p; hash = take 64 hash; version = 1 }))
      (take_whole 511 path short)

-- What the loop comes to.
data Found (path hash : Bytes) (ns : List BuildNode) : Option (List BuildNode) → Type 0 where
  missing : (node_of ns path ≡ none) → Found path hash ns none
  found :
      {r : List BuildNode} (n : BuildNode)
      → (node_of ns path ≡ some n)
      → (node_of r path ≡ some (touch hash n))
      → ((q : Bytes) → q ≢ path → node_of r q ≡ node_of ns q)
      → (length r ≡ length ns)
      → Found path hash ns (some r)

record_in-Found :
    (path hash : Bytes) (ns : List BuildNode) → Found path hash ns (record_in path hash ns)
unfolding record_in touch
record_in-Found path hash [] = missing (unfold node_of in refl)
record_in-Found path hash (n ∷ ns) =
    test_cases (Found path hash (n ∷ ns)) (bytes_eq n.path path) _ _
      (λ e.
        let same = (bytes_eq_iff n.path path).0 e in
        found n (node_here n ns path same) (node_here (touch hash n) ns path same)
          (λ q ne.
            let other : ¬ (n.path ≡ q) = λ p. ne (sym p ∙ same) in
            node_there (touch hash n) ns q other ∙ sym (node_there n ns q other))
          refl)
      (λ e.
        let other : ¬ (n.path ≡ path) = λ p. ground (arith, e, (bytes_eq_iff n.path path).1 p) in
        keep other (record_in path hash ns) (record_in-Found path hash ns))
  where
    keep :
        ¬ (n.path ≡ path)
        → (o : Option (List BuildNode)) → Found path hash ns o
        → Found path hash (n ∷ ns) (elim o [ none ↦ none | some r ↦ some (n ∷ r) ])
    keep other _ (missing e) = missing (node_there n ns path other ∙ e)
    keep other _ (found {r} m e f g l) =
        found m (node_there n ns path other ∙ e) (node_there n r path other ∙ f)
          (λ q ne. either_way r g q ne) (ap suc l)
      where
        either_way :
            (r : List BuildNode)
            → ((q : Bytes) → q ≢ path → node_of r q ≡ node_of ns q)
            → (q : Bytes) → q ≢ path
            → node_of (n ∷ r) q ≡ node_of (n ∷ ns) q
        either_way r g q ne = elim (Bool-cases (bytes_eq n.path q)) [
          | inl e ↦
              let p = (bytes_eq_iff n.path q).0 e in node_here n r q p ∙ sym (node_here n ns q p)
          | inr e ↦
              let p : ¬ (n.path ≡ q) = λ p. ground (arith, e, (bytes_eq_iff n.path q).1 p) in
              node_there n r q p ∙ g q ne ∙ sym (node_there n ns q p)
        ]

node_of-append_other :
    (ns : List BuildNode) (m : BuildNode) (q : Bytes)
    → ¬ (m.path ≡ q)
    → node_of (ns ++ (m ∷ [])) q ≡ node_of ns q
unfolding node_of
node_of-append_other [] m q ne = node_there m [] q ne
node_of-append_other (n ∷ ns) m q ne = elim (Bool-cases (bytes_eq n.path q)) [
  | inl e ↦ rw (e, node_of) refl
  | inr e ↦ rw (e, node_of) (node_of-append_other ns m q ne)
]

node_of-append_new :
    (ns : List BuildNode) (m : BuildNode) (q : Bytes)
    → m.path ≡ q
    → node_of ns q ≡ none
    → node_of (ns ++ (m ∷ [])) q ≡ some m
unfolding node_of
node_of-append_new [] m q e h = node_here m [] q e
node_of-append_new (n ∷ ns) m q e h = elim (Bool-cases (bytes_eq n.path q)) [
  | inl t ↦ absurd (ground (arith, h, node_here n ns q ((bytes_eq_iff n.path q).0 t)))
  | inr t ↦
      let other : ¬ (n.path ≡ q) = λ p. ground (arith, t, (bytes_eq_iff n.path q).1 p) in
      rw (t, node_of) (node_of-append_new ns m q e (sym (node_there n ns q other) ∙ h))
]

record_new-IsRecorded :
    (path hash : Bytes) (g : BuildGraph)
    → length path ≤ 511
    → node_of g path ≡ none
    → length g < 1024
    → IsRecorded path hash g (g ++ (new_node path hash ∷ []))
record_new-IsRecorded path hash g short e l =
    let same : path_field path ≡ path = take_whole 511 path short in
    record {
      node =
          node_of-append_new g (new_node path hash) path same e
          ∙ made path hash short
          ∙ ap (λ o. some (updated path hash o)) (sym e);
      others = λ q ne. node_of-append_other g (new_node path hash) q (λ p. ne (sym p ∙ same));
      bounded = λ b. omega (arith, length-append g (new_node path hash ∷ []));
    }

-- What a record of the graph comes to: refused, or a new graph.
abbrev pub RecordOutcome : Bytes → Bytes → BuildGraph → Option BuildGraph → Type 0
RecordOutcome path hash g o =
    ((o ≡ none) × ((node_of g path ≡ none) × (1024 ≤ length g)))
    ⊎ ((h : BuildGraph) × ((o ≡ some h) × IsRecorded path hash g h))

-- Recording a file whose path fits its field fails only for a new path in a graph that is full.
-- Otherwise the first node of the path has the first 64 bytes of the hash, and a version one
-- beyond the old one, in 64 bits, or 1 for a new path; all other paths have the nodes that they
-- had, and the graph keeps to 1024 nodes.
pub build_graph_record-IsRecorded :
    (path hash : Bytes) (g : BuildGraph)
    → length path ≤ 511
    → RecordOutcome path hash g (build_graph_record g path hash)
unfolding build_graph_record
build_graph_record-IsRecorded path hash g short =
    settle (record_in path hash g) (record_in-Found path hash g)
  where
    settle :
        (o : Option (List BuildNode))
        → Found path hash g o
        → RecordOutcome path hash g (elim o [
          | some r ↦ some r
          | none ↦ if ltb (length g) 1024 then some (g ++ (new_node path hash ∷ [])) else none
        ])
    settle _ (missing e) = elim (Bool-cases (ltb (length g) 1024)) [
      | inl t ↦ rw t (inr (_, (refl, record_new-IsRecorded path hash g short e (ltb→lt _ _ t))))
      | inr t ↦ rw t (inl (refl, (e, ground arith)))
    ]
    settle _ (found {r} n e f h l) = inr (
      r,
      (
        refl,
        record {
          node = f ∙ touched path hash g n e ∙ ap (λ o. some (updated path hash o)) (sym e);
          others = h;
          bounded = λ b. omega (arith, l);
        },
      ),
    )
