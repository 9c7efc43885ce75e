-- ===== src/Flow/Validate.antt =====
-- flow/validate.go: every problem of a definition, in the order of the source.
pub mod Level
pub mod Fields
pub mod Nodes
use packtrail.Prelude.{
  String, Bool, true, false, Option, none, some, List, [], ◌∷◌, ◌++◌, if◌then◌else◌,
}
use packtrail.GoMap.{Map, empty, get, put}
use packtrail.Outcome.{Result, ok, err, ◌>>=◌}
use packtrail.Flow.Source.{NodeSource, FlowSource, Compiler, no_cause, Problems, add, check_token}
use packtrail.Flow.Graph.{Nodes as NodeMap}
use packtrail.Flow.Graph.Fans.{validate_fans}
use packtrail.Flow.Graph.Entry.{reject_branch_entry}
use packtrail.Flow.Graph.Start.{resolve_start}
use packtrail.Flow.Graph.Search.{reject_unreachable}
use Level.{validate_version, validate_flow_level}
use Nodes.{validate_nodes}

-- the problems with an id, where the index holds the nodes before
unfoldable pub id_problems : NodeMap → NodeSource → Problems
id_problems by_id n = check_token n.id "id" "node id" n.id ++ (elim (get by_id n.id) [
  | some m ↦ add n.id "id" no_cause "duplicate node id" []
  | none ↦ []
])

-- the first node of an id is kept
unfoldable pub keep_first : NodeMap → NodeSource → NodeMap
keep_first by_id n = elim (get by_id n.id) [ some m ↦ by_id | none ↦ put by_id n.id n ]

-- (*Flow).indexNodes: the problems, and byID
unfoldable pub index_nodes : List NodeSource → NodeMap → Problems × NodeMap
index_nodes [] by_id = ([], by_id)
index_nodes (n ∷ nodes) by_id =
    let rest = index_nodes nodes (keep_first by_id n) in (id_problems by_id n ++ rest.0, rest.1)

-- byID
abbrev pub by_id_of : FlowSource → NodeMap
by_id_of f = (index_nodes f.nodes empty).1

-- rejectUnreachable, once a start is resolved
unfoldable pub from_start : NodeMap → List NodeSource → Option String → Result Problems
from_start by_id nodes none = ok []
from_start by_id nodes (some start) = reject_unreachable by_id nodes start

-- the checks of the graph
unfoldable pub validate_graph : NodeMap → FlowSource → Result Problems
validate_graph by_id f = do
  fans ← validate_fans by_id f.nodes
  entries ← reject_branch_entry by_id fans.1 f.nodes
  let start = resolve_start by_id fans.1.branch_of f
  lost ← from_start by_id f.nodes start.1
  ok (fans.0 ++ entries ++ start.0 ++ lost)

-- the problems that are found before the graph is looked at
unfoldable pub early_problems : Compiler → FlowSource → Problems
early_problems c f =
    check_token "" "name" "flow name" f.name
    ++ validate_version f
    ++ (index_nodes f.nodes empty).0
    ++ validate_flow_level c f
    ++ validate_nodes c (by_id_of f) f.nodes

-- The graph is looked at only if there was no problem before.
unfoldable pub after_early : FlowSource → Problems → Result Problems
after_early f [] = validate_graph (by_id_of f) f
after_early f (p ∷ ps) = ok (p ∷ ps)

unfoldable pub validate_with : Compiler → FlowSource → List NodeSource → Result Problems
validate_with c f [] = ok (
    check_token "" "name" "flow name" f.name
    ++ validate_version f
    ++ add "" "nodes" no_cause "no nodes" [])
validate_with c f (n ∷ nodes) = after_early f (early_problems c f)

-- (*Flow).Validate: the problems in the error, none if the flow is valid
unfoldable pub validate : Compiler → FlowSource → Result Problems
validate c f = validate_with c f f.nodes
