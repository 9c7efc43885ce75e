-- ===== src/Flow/Graph/Start.antt =====
-- flow/graph.go: the entry node.
use packtrail.Prelude.{
  String, Bool, true, false, ◌||◌, Option, none, some, List, [], ◌∷◌, str_eq, if◌then◌else◌,
}
use packtrail.GoMap.{Map, empty, get, put}
use packtrail.Flow.Source.{NodeSource, FlowSource, text, texts, pairs, no_cause, Problems, add}
use packtrail.Flow.Graph.{Nodes, successors}
use packtrail.Flow.Graph.Entry.{text_at}

abbrev pub has {ℓ} : {A : Type ℓ} → Map A → String → Bool
has m k = elim (get m k) [ none ↦ false | some v ↦ true ]

-- the first node that leads to each target
first_from : String → List String → Map String → Map String
first_from id [] inbound = inbound
first_from id (to ∷ ts) inbound =
    first_from id ts (if has inbound to then inbound else put inbound to id)

unfoldable pub inbound_of : List NodeSource → Map String → Map String
unfolding first_from
inbound_of [] inbound = inbound
inbound_of (n ∷ nodes) inbound = inbound_of nodes (first_from n.id (successors n) inbound)

unfoldable pub without_inbound : Map String → List NodeSource → List String
without_inbound inbound [] = []
without_inbound inbound (n ∷ nodes) =
    let rest = without_inbound inbound nodes in if has inbound n.id then rest else n.id ∷ rest

inbound_pairs : Map String → List NodeSource → List (String × String)
inbound_pairs inbound [] = []
inbound_pairs inbound (n ∷ nodes) = (n.id, text_at inbound n.id) ∷ inbound_pairs inbound nodes

-- the explicit start
unfoldable pub named_start : Nodes → Map String → String → Problems × Option String
named_start by_id branch_of start = elim (get by_id start) [
  | none ↦ (add "" "start" no_cause "references unknown node %q" (text start ∷ []), none)
  | some n ↦
      if has branch_of n.id || str_eq n.type "join"
      then (
        add "" "start" no_cause "start node %q must not be a fanout branch or a join"
            (text n.id ∷ []),
        none,
      )
      else ([], some n.id)
]

unfoldable pub found_start : List NodeSource → Map String → List String → Problems × Option String
unfolding inbound_pairs
found_start nodes inbound [] = (
  add "" "start" no_cause "no start node (every node is routed into: %s); set start: explicitly"
      (pairs (inbound_pairs inbound nodes) ∷ []),
  none,
)
found_start nodes inbound (s ∷ []) = ([], some s)
found_start nodes inbound (s ∷ t ∷ ss) = (
  add "" "start" no_cause "multiple start nodes %v; set start: explicitly or connect them"
      (texts (s ∷ t ∷ ss) ∷ []),
  none,
)

-- (*Flow).resolveStart: the start, if it is resolved
unfoldable pub resolve_start : Nodes → Map String → FlowSource → Problems × Option String
resolve_start by_id branch_of f =
    if str_eq f.start ""
    then (let inbound = inbound_of f.nodes empty in
        found_start f.nodes inbound (without_inbound inbound f.nodes))
    else named_start by_id branch_of f.start
