-- ===== src/Flow/Valid/Reports.antt =====
-- flow/validate.go, Validate: a reference to a node that is not there is reported.
use packtrail.Prelude.{◌≡◌, subst, String, false, none, List, [], ◌∷◌, ◌++◌, str_eq}
use packtrail.GoMap.{get}
use packtrail.Outcome.{ok, ok_inj}
use packtrail.Flow.Source.{NodeSource, FlowSource, Compiler, text, no_cause, Problem, Problems}
use packtrail.Flow.Graph.{Nodes}
use packtrail.Flow.Validate.{by_id_of, early_problems, after_early, validate_with, validate}
use packtrail.Flow.Validate.Nodes.{ref, route_problems, validate_nodes}
use packtrail.Flow.Valid.{All}

-- a problem is among those reported
pub data Lists (p : Problem) : Problems → Type 0 where
  here : {ps : Problems} → Lists p (p ∷ ps)
  there : {q : Problem} {ps : Problems} → Lists p ps → Lists p (q ∷ ps)

module _ {p : Problem} where
  Lists-left : {ps : Problems} (qs : Problems) → Lists p ps → Lists p (ps ++ qs)
  Lists-left qs here = here
  Lists-left qs (there h) = there (Lists-left qs h)

  Lists-right : (ps : Problems) {qs : Problems} → Lists p qs → Lists p (ps ++ qs)
  Lists-right [] h = h
  Lists-right (x ∷ ps) h = there (Lists-right ps h)

-- field `field` of node `node` names id, which is the id of no node
abbrev pub unknown : String → String → String → Problem
unknown node field id = record {
  node = node;
  field = field;
  cause = no_cause;
  format = "references unknown node %q";
  args = text id ∷ [];
}

-- next and on_failure of a node are reported where they lead to no node
abbrev pub Reported : Nodes → Problems → NodeSource → Type 0
Reported by_id ps n =
    (str_eq n.next "" ≡ false → get by_id n.next ≡ none → Lists (unknown n.id "next" n.next) ps)
    × (str_eq n.on_failure "" ≡ false
        → get by_id n.on_failure ≡ none
        → Lists (unknown n.id "on_failure" n.on_failure) ps)

module _ (by_id : Nodes) where
  route-Lists :
      (n : NodeSource) (field id loop : String)
      → str_eq id "" ≡ false
      → get by_id id ≡ none
      → Lists (unknown n.id field id) (route_problems by_id n field id loop)
  unfolding route_problems ref
  route-Lists n field id loop e g = rw (route_problems, ref, e, g) here

  Reported-left :
      (n : NodeSource) (ps qs : Problems) → Reported by_id ps n → Reported by_id (ps ++ qs) n
  Reported-left n ps qs h = (λ e g. Lists-left qs (h.0 e g), λ e g. Lists-left qs (h.1 e g))

  Reported-right :
      (n : NodeSource) (ps qs : Problems) → Reported by_id qs n → Reported by_id (ps ++ qs) n
  Reported-right n ps qs h = (λ e g. Lists-right ps (h.0 e g), λ e g. Lists-right ps (h.1 e g))

  All-right :
      (ps qs : Problems) (nodes : List NodeSource)
      → All (Reported by_id qs) nodes
      → All (Reported by_id (ps ++ qs)) nodes
  All-right ps qs [] h = tt
  All-right ps qs (n ∷ nodes) h = (Reported-right n ps qs h.0, All-right ps qs nodes h.1)

  nodes-Reported :
      (c : Compiler) (nodes : List NodeSource)
      → All (Reported by_id (validate_nodes c by_id nodes)) nodes
  unfolding validate_nodes
  nodes-Reported c [] = tt
  nodes-Reported c (n ∷ nodes) = (
    Reported-left n _ (validate_nodes c by_id nodes) (
      λ e g. Lists-left _ (Lists-right _ (route-Lists n "next" n.next _ e g)),
      λ e g. Lists-right _ (route-Lists n "on_failure" n.on_failure _ e g),
    ),
    All-right _ (validate_nodes c by_id nodes) nodes (nodes-Reported c nodes),
  )

module _ (c : Compiler) (f : FlowSource) where
  early-Reported : All (Reported (by_id_of f) (early_problems c f)) f.nodes
  unfolding early_problems
  early-Reported = All-right (by_id_of f) _ _ f.nodes (nodes-Reported (by_id_of f) c f.nodes)

  -- what is reported early is what is returned
  returned : (ps qs : Problems) (p : Problem) → after_early f ps ≡ ok qs → Lists p ps → Lists p qs
  unfolding after_early
  returned [] qs p h l = elim l [ ]
  returned (q ∷ ps) qs p h l = subst (Lists p) (ok_inj h) l

  nodes_returned :
      (ps qs : Problems) (nodes : List NodeSource)
      → after_early f ps ≡ ok qs
      → All (Reported (by_id_of f) ps) nodes
      → All (Reported (by_id_of f) qs) nodes
  nodes_returned ps qs [] h r = tt
  nodes_returned ps qs (n ∷ nodes) h r = (
    (λ e g. returned ps qs _ h (r.0.0 e g), λ e g. returned ps qs _ h (r.0.1 e g)),
    nodes_returned ps qs nodes h r.1,
  )

  of_nodes :
      (nodes : List NodeSource) (qs : Problems)
      → validate_with c f nodes ≡ ok qs
      → All (Reported (by_id_of f) (early_problems c f)) nodes
      → All (Reported (by_id_of f) qs) nodes
  unfolding validate_with
  of_nodes [] qs h r = tt
  of_nodes (n ∷ nodes) qs h r = nodes_returned (early_problems c f) qs (n ∷ nodes) h r

-- A next or an on_failure that names no node is among the problems that Validate reports, with the
-- node, the field and the name, for every node of every flow, whatever other problems there are.
pub unknown-Reported :
    (c : Compiler) (f : FlowSource) (ps : Problems)
    → validate c f ≡ ok ps
    → All (Reported (by_id_of f) ps) f.nodes
unfolding validate
unknown-Reported c f ps h = of_nodes c f f.nodes ps h (early-Reported c f)
