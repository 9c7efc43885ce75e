-- ===== src/Flow/Graph/Search.antt =====
-- flow/graph.go, (*Flow).rejectUnreachable: a search from the start node. The stack's top is the
-- head of the list; each round takes one node off it, and a node is put on it once.
use packtrail.Prelude.{ℕ, zero, suc, String, List, [], ◌∷◌, ◌++◌, length, if◌then◌else◌}
use packtrail.GoMap.{get}
use packtrail.Outcome.{Result, ok, err, out_of_fuel, ◌>>=◌}
use packtrail.Flow.Source.{NodeSource, text, no_cause, Problems, add}
use packtrail.Flow.Validate.Fields.{contains}
use packtrail.Flow.Graph.{Nodes, deref, successors}

pub record Visit : Type 0 where
  pub seen : List String
  pub stack : List String

-- an id that is not seen is put on the stack
unfoldable pub push_new : String → Visit → Visit
push_new next v =
    if contains v.seen next then v else record { seen = next ∷ v.seen; stack = next ∷ v.stack }

-- the loop over the successors of a node
unfoldable pub offer : List String → Visit → Visit
offer [] v = v
offer (next ∷ ids) v = offer ids (push_new next v)

-- one round, after a node was taken off the stack
unfoldable pub expand : List String → List String → NodeSource → Visit
expand seen rest n = offer (successors n) (record { seen = seen; stack = rest })

-- the loop, on the ids that were seen and the stack
unfoldable pub explore : Nodes → ℕ → List String → List String → Result (List String)
explore by_id fuel seen [] = ok seen
explore by_id zero seen (id ∷ rest) = err out_of_fuel
explore by_id (suc fuel) seen (id ∷ rest) = do
  n ← deref (get by_id id)
  let next = expand seen rest n
  explore by_id fuel next.seen next.stack

unfoldable pub unreachable : List String → String → List NodeSource → Problems
unreachable seen start [] = []
unreachable seen start (n ∷ nodes) =
    let rest = unreachable seen start nodes in
    if contains seen n.id
    then rest
    else add n.id "" no_cause "unreachable node: not connected to the start node %q"
        (text start ∷ [])
      ++ rest

-- (*Flow).rejectUnreachable
unfoldable pub reject_unreachable : Nodes → List NodeSource → String → Result Problems
reject_unreachable by_id nodes start = do
  seen ← explore by_id (length nodes) (start ∷ []) (start ∷ [])
  ok (unreachable seen start nodes)
