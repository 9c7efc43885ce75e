-- ===== src/Flow/Valid/Sound.antt =====
-- flow/validate.go, Validate: it returns, and what holds of a flow without a problem.
use packtrail.Prelude.{
  ◌≡◌, refl, subst, sym, ap, ◌∙◌, String, ◌||◌, Option, some, List, [], ◌∷◌, ◌++◌, str_eq, inl, inr,
  Bool-cases, Option-cases,
}
use mathlib.Core.List.{append-eq-nil_iff}
use packtrail.GoMap.{Map, get}
use packtrail.Outcome.{ok, ok_inj}
use packtrail.Flow.Source.{NodeSource, FlowSource, Compiler, Problems}
use packtrail.Flow.Graph.{Nodes, successors}
use packtrail.Flow.Graph.Fans.{Fans, validate_fans}
use packtrail.Flow.Graph.Entry.{reject_branch_entry}
use packtrail.Flow.Graph.Start.{has, resolve_start, named_start, found_start}
use packtrail.Flow.Validate.{
  by_id_of, validate_graph, early_problems, after_early, validate_with, validate,
}
use packtrail.Flow.Valid.{Found, All}
use packtrail.Flow.Valid.Successors.{Accepted, successors-Found}
use packtrail.Flow.Valid.Index.{refuted}
use packtrail.Flow.Valid.Reach.{Reaches}
use packtrail.Flow.Valid.Returns.{IsReady, early-IsReady, Decides, graph-Checks}

module _ (c : Compiler) (f : FlowSource) where
  after_early_returns :
      (ps : Problems) → early_problems c f ≡ ps → (qs : Problems) × (after_early f ps ≡ ok qs)
  unfolding after_early
  after_early_returns [] h =
      let checks = graph-Checks c (by_id_of f) f (early-IsReady c f h) in (_, checks.returned)
  after_early_returns (p ∷ ps) h = (p ∷ ps, refl)

  validate_with_returns :
      (nodes : List NodeSource) → (ps : Problems) × (validate_with c f nodes ≡ ok ps)
  unfolding validate_with
  validate_with_returns [] = (_, refl)
  validate_with_returns (n ∷ nodes) = after_early_returns (early_problems c f) refl

  after_early-nil :
      (ps : Problems)
      → early_problems c f ≡ ps
      → after_early f ps ≡ ok []
      → (early_problems c f ≡ []) × (validate_graph (by_id_of f) f ≡ ok [])
  unfolding after_early
  after_early-nil [] e h = (e, h)
  after_early-nil (p ∷ ps) e h = absurd (cc)

  validate_with-nil :
      (nodes : List NodeSource)
      → validate_with c f nodes ≡ ok []
      → (early_problems c f ≡ []) × (validate_graph (by_id_of f) f ≡ ok [])
  unfolding validate_with
  validate_with-nil [] h = absurd (refuted (append-eq-nil_iff.0 (ok_inj h)).1)
  validate_with-nil (n ∷ nodes) h = after_early-nil (early_problems c f) refl h

  validate-nil :
      validate c f ≡ ok [] → (early_problems c f ≡ []) × (validate_graph (by_id_of f) f ≡ ok [])
  unfolding validate
  validate-nil h = validate_with-nil f.nodes h

-- Validate returns on every definition: no check dereferences a node that is not there, and the
-- search for unreachable nodes ends within as many rounds as the flow has nodes.
pub validate_returns : (c : Compiler) (f : FlowSource) → (ps : Problems) × (validate c f ≡ ok ps)
unfolding validate
validate_returns c f = validate_with_returns c f f.nodes

-- without a problem there is a start
abbrev Resolves : Problems × Option String → Type 0
Resolves r = r.0 ≡ [] → (x : String) × (r.1 ≡ some x)

named-Resolves :
    (by_id : Nodes) (owners : Map String) (start : String)
    → Resolves (named_start by_id owners start)
unfolding named_start
named-Resolves by_id owners start = elim (Option-cases (get by_id start)) [
  | inl e ↦ rw (named_start, e) (λ h. absurd (refuted h))
  | inr (n, e) ↦ elim (Bool-cases (has owners n.id || str_eq n.type "join")) [
    | inl b ↦ rw (named_start, e, b) (λ h. absurd (refuted h))
    | inr b ↦ rw (named_start, e, b) (λ h. (n.id, refl))
  ]
]

inbound-Resolves :
    (nodes : List NodeSource) (inbound : Map String) (starts : List String)
    → Resolves (found_start nodes inbound starts)
unfolding found_start
inbound-Resolves nodes inbound [] h = absurd (refuted h)
inbound-Resolves nodes inbound (s ∷ []) h = (s, refl)
inbound-Resolves nodes inbound (s ∷ t ∷ ss) h = absurd (refuted h)

start-Resolves :
    (by_id : Nodes) (owners : Map String) (f : FlowSource) → Resolves (resolve_start by_id owners f)
unfolding resolve_start
start-Resolves by_id owners f = elim (Bool-cases (str_eq f.start "")) [
  | inl e ↦ rw (resolve_start, e) (inbound-Resolves f.nodes _ _)
  | inr e ↦ rw (resolve_start, e) (named-Resolves by_id owners f.start)
]

-- A flow without a problem: its nodes are ready, and each check of the graph found nothing.
pub record IsSound (c : Compiler) (f : FlowSource) : Type 0 where
  pub ready : IsReady c (by_id_of f) f.nodes
  pub fans : Fans
  pub tied : validate_fans (by_id_of f) f.nodes ≡ ok ([], fans)
  pub entered : reject_branch_entry (by_id_of f) fans f.nodes ≡ ok []
  pub start : String
  pub started : resolve_start (by_id_of f) fans.branch_of f ≡ ([], some start)
  pub reached : All (λ n. Reaches (by_id_of f) start n.id) f.nodes

pub valid-IsSound : (c : Compiler) (f : FlowSource) → validate c f ≡ ok [] → IsSound c f
valid-IsSound c f h =
    let (early, graph) = validate-nil c f h in
    let ready = early-IsReady c f early in
    let checks = graph-Checks c (by_id_of f) f ready in
    let resolved = resolve_start (by_id_of f) checks.fans.1.branch_of f in
    let (most, lost) =
      (append-eq-nil_iff {p = checks.fans.0 ++ checks.entries ++ resolved.0} {q = checks.lost}).0
        (ok_inj (sym checks.returned ∙ graph)) in
    let (some_fans, no_start) = append-eq-nil_iff.0 most in
    let (no_fans, no_entries) = append-eq-nil_iff.0 some_fans in
    let (start, is_start) = start-Resolves (by_id_of f) checks.fans.1.branch_of f no_start in
    let decided : Decides c (by_id_of f) f.nodes (some start) checks.lost =
      subst (λ s. Decides c (by_id_of f) f.nodes s checks.lost) is_start checks.decided in
    record {
      ready = ready;
      fans = checks.fans.1;
      tied = checks.tied ∙ ap (λ ps. ok (ps, checks.fans.1)) no_fans;
      entered = checks.entered ∙ ap ok no_entries;
      start = start;
      started = cc (no_start, is_start);
      reached = decided.0 lost;
    }

-- In a flow that Validate finds no problem with, the start is resolved, and it leads to every node
-- of the flow over routes and branches.
pub valid-Reaches :
    (c : Compiler) (f : FlowSource)
    → validate c f ≡ ok []
    → (fans : Fans) × (validate_fans (by_id_of f) f.nodes ≡ ok ([], fans))
      × (start : String) × (resolve_start (by_id_of f) fans.branch_of f ≡ ([], some start))
      × All (λ n. Reaches (by_id_of f) start n.id) f.nodes
valid-Reaches c f h =
    let sound = valid-IsSound c f h in
    (sound.fans, sound.tied, sound.start, sound.started, sound.reached)

All-Found :
    (c : Compiler) (by_id : Nodes) (nodes : List NodeSource)
    → All (Accepted c by_id) nodes
    → All (λ n. All (Found by_id) (successors n)) nodes
All-Found c by_id [] h = tt
All-Found c by_id (n ∷ nodes) h = (successors-Found c by_id n h.0, All-Found c by_id nodes h.1)

-- In a flow that Validate finds no problem with, every node is found by its own id, and every id
-- that a node leads to, by next, rules, on_timeout, on_failure, dynamic or branches, is the id of a
-- node.
pub valid_references :
    (c : Compiler) (f : FlowSource)
    → validate c f ≡ ok []
    → All (λ n. get (by_id_of f) n.id ≡ some n) f.nodes
      × All (λ n. All (Found (by_id_of f)) (successors n)) f.nodes
valid_references c f h =
    let sound = valid-IsSound c f h in
    (sound.ready.own, All-Found c (by_id_of f) f.nodes sound.ready.accepted)
