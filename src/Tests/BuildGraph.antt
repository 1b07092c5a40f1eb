-- ===== src/Tests/BuildGraph.antt =====
-- The build graph at a small example.
use nullprt.Aegc1.BuildGraph.{build_graph_record, touch, record_in, BuildGraph}
use nullprt.Base.{bytes_eq, [], ◌∷◌, some, refl, arith, ◌≡◌, codes}
use nullprt.Aegc1.BuildGraph.Recorded.{build_graph_record-IsRecorded, RecordOutcome}

abbrev graph : BuildGraph
graph = record { path = codes "a.nprt"; hash = codes "11"; version = 4 } ∷ []

record_again :
    build_graph_record graph (codes "a.nprt") (codes "22")
    ≡ some (record { path = codes "a.nprt"; hash = codes "22"; version = 5 } ∷ [])
unfolding build_graph_record record_in touch bytes_eq
record_again = refl

build_graph_record-IsRecorded_example :
    RecordOutcome
      (codes "b.nprt")
      (codes "33")
      graph
      (build_graph_record graph (codes "b.nprt") (codes "33"))
build_graph_record-IsRecorded_example =
    build_graph_record-IsRecorded (codes "b.nprt") (codes "33") graph (omega arith)
