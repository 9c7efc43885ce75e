-- ===== src/Flow/Valid/Successors.antt =====
-- flow/validate.go, flow/graph.go: the successors of the nodes that are valid on their own.
use packtrail.Prelude.{
  ℕ, suc, ◌≡◌, refl, sym, subst, ap, String, false, List, [], ◌∷◌, ◌++◌, str_eq,
}
use mathlib.Core.List.{append-eq-nil_iff}
use packtrail.Flow.Source.{NodeSource, Compiler, no_cause, add}
use packtrail.Flow.Graph.{
  Nodes, Route, to_route, rule_routes, dynamic_routes, routes, targets, successors,
}
use packtrail.Flow.Validate.Level.{when}
use packtrail.Flow.Validate.Nodes.{ref, validate_node, validate_nodes, route_problems}
use packtrail.Flow.Valid.{Found, All, All-append}
use packtrail.Flow.Valid.Refs.{ref-Found, to_route-All, IsLinked, linked}
use packtrail.Flow.Valid.Types.{type_cases}

targets-append : (rs ss : List Route) → targets (rs ++ ss) ≡ targets rs ++ targets ss
targets-append [] ss = refl
targets-append (r ∷ rs) ss = ap (λ ts. r.to ∷ ts) (targets-append rs ss)

targets-dynamic_routes : (i : ℕ) (ds : List String) → targets (dynamic_routes i ds) ≡ ds
unfolding dynamic_routes
targets-dynamic_routes i [] = refl
targets-dynamic_routes i (d ∷ ds) = ap (λ ts. d ∷ ts) (targets-dynamic_routes (suc i) ds)

module _ (P : String → Type 0) (rs ss : List Route) where
  targets-All : All P (targets rs) → All P (targets ss) → All P (targets (rs ++ ss))
  targets-All p q =
      subst (All P) (sym (targets-append rs ss)) (All-append P (targets rs) (targets ss) p q)

module _ (c : Compiler) (by_id : Nodes) where
  -- a node that is valid on its own
  abbrev pub Accepted : NodeSource → Type 0
  Accepted n =
      (validate_node c by_id n ≡ [])
      × (str_eq n.next "" ≡ false → Found by_id n.next)
      × (str_eq n.on_failure "" ≡ false → Found by_id n.on_failure)

  route-Found :
      (n : NodeSource) (field id loop : String)
      → route_problems by_id n field id loop ≡ []
      → str_eq id "" ≡ false
      → Found by_id id
  unfolding route_problems
  route-Found n field id loop h e =
      let found : ref by_id n.id field id ++ when (str_eq id n.id) (add n.id field no_cause loop [])
          ≡ [] =
        rw e at h in
      ref-Found by_id n.id field id (append-eq-nil_iff.0 found).0

  pub nodes-Accepted :
      (nodes : List NodeSource) → validate_nodes c by_id nodes ≡ [] → All Accepted nodes
  unfolding validate_nodes
  nodes-Accepted [] h = tt
  nodes-Accepted (n ∷ nodes) h =
      let (this, rest) = append-eq-nil_iff.0 h in
      let (most, failure) = append-eq-nil_iff.0 this in
      let (alone, next) = append-eq-nil_iff.0 most in
      (
        (
          alone,
          route-Found n "next" n.next _ next,
          route-Found n "on_failure" n.on_failure _ failure,
        ),
        nodes-Accepted nodes rest,
      )

  node-IsLinked : (n : NodeSource) → validate_node c by_id n ≡ [] → IsLinked by_id n
  unfolding validate_node
  node-IsLinked n h =
      let (most, typed) = append-eq-nil_iff.0 h in
      linked c by_id n n.type (type_cases n.type) refl typed (append-eq-nil_iff.0 most).0

  pub routes-Found : (n : NodeSource) → Accepted n → All (Found by_id) (targets (routes n))
  unfolding routes
  routes-Found n h =
      let links = node-IsLinked n h.0 in
      let P = Found by_id in
      targets-All P _ (dynamic_routes 0 n.dynamic)
        (targets-All P _ (to_route "on_failure" n.on_failure)
          (targets-All P _ (to_route "on_timeout" n.on_timeout)
            (targets-All P (to_route "next" n.next) (rule_routes 0 n.rules)
              (to_route-All P "next" n.next h.1) links.rules)
            links.on_timeout)
          (to_route-All P "on_failure" n.on_failure h.2))
        (subst (All P) (sym (targets-dynamic_routes 0 n.dynamic)) links.dynamic)

  pub branches-Found : (n : NodeSource) → Accepted n → All (Found by_id) n.branches
  branches-Found n h = (node-IsLinked n h.0).branches

  pub successors-Found : (n : NodeSource) → Accepted n → All (Found by_id) (successors n)
  unfolding successors
  successors-Found n h =
      All-append (Found by_id) (targets (routes n)) n.branches (routes-Found n h)
        (branches-Found n h)
