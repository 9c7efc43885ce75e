-- ===== src/Flow/Graph/Entry.antt =====
-- flow/graph.go: no ordinary route leads into a branch, or into a join but from its fanout.
use packtrail.Prelude.{String, not, ◌&&◌, none, some, List, [], ◌∷◌, ◌++◌, str_eq}
use packtrail.GoMap.{Map, get}
use packtrail.Outcome.{Result, ok, ◌>>=◌}
use packtrail.Flow.Source.{NodeSource, text, no_cause, Problems, add}
use packtrail.Flow.Validate.Level.{when}
use packtrail.Flow.Graph.{Nodes, deref, Route, routes}
use packtrail.Flow.Graph.Fans.{Fans}

abbrev pub text_at : Map String → String → String
text_at m k = elim (get m k) [ none ↦ "" | some v ↦ v ]

unfoldable pub entry_problem : Nodes → Fans → NodeSource → Route → Result Problems
entry_problem by_id fans n r = elim (get fans.branch_of r.to) [
  | some owner ↦ ok (
      add n.id r.field no_cause "routes to %q, a branch of fanout %q; route to %q instead"
        (text r.to ∷ text owner ∷ text owner ∷ []))
  | none ↦ deref (get by_id r.to) >>= λ m. ok (
      when (str_eq m.type "join" && not (str_eq (text_at fans.join_of n.id) r.to)) (
        add n.id r.field no_cause "routes to join %q; a join is reached only through its fanout"
          (text r.to ∷ [])))
]

unfoldable pub route_loop : Nodes → Fans → NodeSource → List Route → Result Problems
route_loop by_id fans n [] = ok []
route_loop by_id fans n (r ∷ rs) = do
  ps ← entry_problem by_id fans n r
  qs ← route_loop by_id fans n rs
  ok (ps ++ qs)

-- (*Flow).rejectBranchEntry
unfoldable pub reject_branch_entry : Nodes → Fans → List NodeSource → Result Problems
reject_branch_entry by_id fans [] = ok []
reject_branch_entry by_id fans (n ∷ nodes) = do
  ps ← route_loop by_id fans n (routes n)
  qs ← reject_branch_entry by_id fans nodes
  ok (ps ++ qs)
