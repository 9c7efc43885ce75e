-- ===== src/Flow/Graph.antt =====
-- flow/graph.go: the transitions of a node, and what the checks of the graph share. A nil pointer
-- that is dereferenced, f.byID[id] of an unknown id, is a panic.
pub mod Fans
pub mod Entry
pub mod Start
pub mod Search
use packtrail.Prelude.{
  ℕ, suc, ◌+◌, String, Bool, true, false, Option, none, some, List, [], ◌∷◌, ◌++◌, str_eq,
  if◌then◌else◌,
}
use packtrail.GoMap.{Map, get}
use packtrail.Outcome.{Result, ok, err, panic}
use packtrail.Platform.{◌⧺◌}
use packtrail.Flow.Source.{RuleSource, NodeSource, Problems}
use packtrail.Flow.Validate.Level.{indexed}

abbrev pub Nodes : Type 0
Nodes = Map NodeSource

-- f.byID[id], dereferenced
unfoldable pub deref : Option NodeSource → Result NodeSource
deref none = err panic
deref (some n) = ok n

-- problems found before the others
abbrev pub prepend {ℓ} : {A : Type ℓ} → Problems → Result (Problems × A) → Result (Problems × A)
prepend ps (ok (qs, a)) = ok (ps ++ qs, a)
prepend ps (err e) = err e

-- a transition: the field that declares it, and its target
pub record Route : Type 0 where
  pub field : String
  pub to : String

abbrev pub to_route : String → String → List Route
to_route field to = if str_eq to "" then [] else record { field = field; to = to } ∷ []

unfoldable pub rule_routes : ℕ → List RuleSource → List Route
rule_routes i [] = []
rule_routes i (r ∷ rules) =
    let rest = rule_routes (suc i) rules in
    if str_eq r.to "$end"
    then rest
    else record { field = indexed "rules" i ⧺ ".to"; to = r.to } ∷ rest

unfoldable pub dynamic_routes : ℕ → List String → List Route
dynamic_routes i [] = []
dynamic_routes i (d ∷ ds) =
    record { field = indexed "dynamic" i; to = d } ∷ dynamic_routes (suc i) ds

-- routes
unfoldable pub routes : NodeSource → List Route
unfolding rule_routes dynamic_routes
routes n =
    to_route "next" n.next
    ++ rule_routes 0 n.rules
    ++ to_route "on_timeout" n.on_timeout
    ++ to_route "on_failure" n.on_failure
    ++ dynamic_routes 0 n.dynamic

abbrev pub targets : List Route → List String
targets [] = []
targets (r ∷ rs) = r.to ∷ targets rs

-- successors
unfoldable pub successors : NodeSource → List String
successors n = targets (routes n) ++ n.branches
