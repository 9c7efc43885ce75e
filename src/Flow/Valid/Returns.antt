-- ===== src/Flow/Valid/Returns.antt =====
-- flow/validate.go, Validate: once every node is valid on its own, every check of the graph returns.
use packtrail.Prelude.{
  ◌≤◌, ◌≡◌, ◌↔◌, refl, ap, ◌∙◌, String, ◌||◌, Option, none, some, List, [], ◌∷◌, ◌++◌, arith,
  str_eq, inl, inr, Bool-cases, Option-cases, length,
}
use mathlib.Core.List.{append-eq-nil_iff}
use packtrail.GoMap.{Map, empty, get}
use packtrail.Outcome.{ok, ◌>>=◌}
use packtrail.Flow.Source.{NodeSource, FlowSource, Compiler, Problems}
use packtrail.Flow.Graph.{Nodes, deref, Route, routes, targets}
use packtrail.Flow.Graph.Fans.{Fans, validate_fans}
use packtrail.Flow.Graph.Entry.{entry_problem, route_loop, reject_branch_entry}
use packtrail.Flow.Graph.Start.{
  has, resolve_start, named_start, found_start, without_inbound, inbound_of,
}
use packtrail.Flow.Validate.{index_nodes, from_start, validate_graph, early_problems}
use packtrail.Flow.Valid.{Found, All}
use packtrail.Flow.Valid.Successors.{Accepted, nodes-Accepted, routes-Found, successors-Found}
use packtrail.Flow.Valid.Index.{Holds, empty-Holds, index-Holds, length-index, index-own}
use packtrail.Flow.Valid.Search.{IsClosed}
use packtrail.Flow.Valid.Reach.{Reaches, rejects_unreachable}
use packtrail.Flow.Valid.Total.{
  Gives, bind-Gives, Gives-value, deref-Gives, Good, validate_fans-Gives,
}

-- what the checks of the graph may rely on
pub record IsReady (c : Compiler) (by_id : Nodes) (nodes : List NodeSource) : Type 0 where
  pub accepted : All (Accepted c by_id) nodes
  pub own : All (λ n. get by_id n.id ≡ some n) nodes
  pub indexed : Holds (Accepted c by_id) by_id
  pub size : length by_id ≤ length nodes

pub early-IsReady :
    (c : Compiler) (f : FlowSource)
    → early_problems c f ≡ []
    → IsReady c (index_nodes f.nodes empty).1 f.nodes
unfolding early_problems
early-IsReady c f h =
    let (most, nodes) = append-eq-nil_iff.0 h in
    let by_id = (index_nodes f.nodes empty).1 in
    let good = nodes-Accepted c by_id f.nodes nodes in
    record {
      accepted = good;
      own = index-own f.nodes empty (append-eq-nil_iff.0 (append-eq-nil_iff.0 most).0).1;
      indexed = index-Holds (Accepted c by_id) f.nodes empty (empty-Holds (Accepted c by_id)) good;
      size = omega (arith, length-index f.nodes empty);
    }

module _ (c : Compiler) (by_id : Nodes) where
  entry-Gives :
      (fans : Fans) (n : NodeSource) (r : Route)
      → Found by_id r.to
      → Gives (λ ps. Unit {0}) (entry_problem by_id fans n r)
  unfolding entry_problem
  entry-Gives fans n r f = elim (Option-cases (get fans.branch_of r.to)) [
    | inl e ↦
        rw (entry_problem, e)
          (bind-Gives (λ m. get by_id r.to ≡ some m) (λ ps. Unit) (deref (get by_id r.to)) _
            (deref-Gives by_id r.to f) (λ m _. tt))
    | inr (o, e) ↦ rw (entry_problem, e) tt
  ]

  routes-Gives :
      (fans : Fans) (n : NodeSource) (rs : List Route)
      → All (Found by_id) (targets rs)
      → Gives (λ ps. Unit {0}) (route_loop by_id fans n rs)
  unfolding route_loop
  routes-Gives fans n [] h = tt
  routes-Gives fans n (r ∷ rs) h =
      bind-Gives (λ ps. Unit) (λ ps. Unit) (entry_problem by_id fans n r)
        (λ ps. route_loop by_id fans n rs >>= λ qs. ok (ps ++ qs)) (entry-Gives fans n r h.0)
        (λ ps _.
          bind-Gives (λ qs. Unit) (λ rs. Unit) (route_loop by_id fans n rs) (λ qs. ok (ps ++ qs))
            (routes-Gives fans n rs h.1) (λ qs _. tt))

  entries-Gives :
      (fans : Fans) (nodes : List NodeSource)
      → All (Accepted c by_id) nodes
      → Gives (λ ps. Unit {0}) (reject_branch_entry by_id fans nodes)
  unfolding reject_branch_entry
  entries-Gives fans [] h = tt
  entries-Gives fans (n ∷ nodes) h =
      bind-Gives (λ ps. Unit) (λ ps. Unit) (route_loop by_id fans n (routes n))
        (λ ps. reject_branch_entry by_id fans nodes >>= λ qs. ok (ps ++ qs))
        (routes-Gives fans n (routes n) (routes-Found c by_id n h.0))
        (λ ps _.
          bind-Gives (λ qs. Unit) (λ rs. Unit) (reject_branch_entry by_id fans nodes)
            (λ qs. ok (ps ++ qs)) (entries-Gives fans nodes h.1) (λ qs _. tt))

  -- a start that is resolved is in the index
  abbrev pub Starts : Option String → Type 0
  Starts none = Unit
  Starts (some x) = Found by_id x

  named-Starts :
      (owners : Map String) (start : String)
      → Holds (Accepted c by_id) by_id
      → Starts (named_start by_id owners start).1
  unfolding named_start
  named-Starts owners start h = elim (Option-cases (get by_id start)) [
    | inl e ↦ rw (named_start, e) tt
    | inr (n, e) ↦ elim (Bool-cases (has owners n.id || str_eq n.type "join")) [
      | inl b ↦ rw (named_start, e, b) tt
      | inr b ↦ rw (named_start, e, b) (n, ap (get by_id) (h start n e).1 ∙ e)
    ]
  ]

  without-Found :
      (inbound : Map String) (nodes : List NodeSource)
      → All (λ n. get by_id n.id ≡ some n) nodes
      → All (Found by_id) (without_inbound inbound nodes)
  unfolding without_inbound
  without-Found inbound [] h = tt
  without-Found inbound (n ∷ nodes) h = elim (Bool-cases (has inbound n.id)) [
    | inl e ↦ rw (without_inbound, e) (without-Found inbound nodes h.1)
    | inr e ↦ rw (without_inbound, e) ((n, h.0), without-Found inbound nodes h.1)
  ]

  inbound-Starts :
      (nodes : List NodeSource) (inbound : Map String) (starts : List String)
      → All (Found by_id) starts
      → Starts (found_start nodes inbound starts).1
  unfolding found_start
  inbound-Starts nodes inbound [] h = tt
  inbound-Starts nodes inbound (s ∷ []) h = h.0
  inbound-Starts nodes inbound (s ∷ t ∷ ss) h = tt

  start-Starts :
      (owners : Map String) (f : FlowSource)
      → IsReady c by_id f.nodes
      → Starts (resolve_start by_id owners f).1
  unfolding resolve_start
  start-Starts owners f h = elim (Bool-cases (str_eq f.start "")) [
    | inl e ↦
        rw (resolve_start, e)
          (let inbound = inbound_of f.nodes empty in
            inbound-Starts f.nodes inbound (without_inbound inbound f.nodes)
              (without-Found inbound f.nodes h.own))
    | inr e ↦ rw (resolve_start, e) (named-Starts owners f.start h.indexed)
  ]

  -- rejectUnreachable returns, and has no problem exactly if the start leads to every node
  abbrev pub Decides : List NodeSource → Option String → Problems → Type 0
  Decides nodes none ps = Unit
  Decides nodes (some x) ps = (ps ≡ []) ↔ All (λ n. Reaches by_id x n.id) nodes

  pub ready-IsClosed : (nodes : List NodeSource) → IsReady c by_id nodes → IsClosed by_id
  ready-IsClosed nodes h y n e = successors-Found c by_id n (h.indexed y n e).0

  from_start-Decides :
      (nodes : List NodeSource) (start : Option String)
      → IsReady c by_id nodes
      → Starts start
      → (ps : Problems) × (from_start by_id nodes start ≡ ok ps) × Decides nodes start ps
  unfolding from_start
  from_start-Decides nodes none h s = ([], refl, tt)
  from_start-Decides nodes (some x) h s =
      rejects_unreachable by_id nodes x (ready-IsClosed nodes h) s h.size

  All-Good :
      (nodes : List NodeSource)
      → All (Accepted c by_id) nodes
      → All (λ n. get by_id n.id ≡ some n) nodes
      → All (Good by_id c) nodes
  All-Good [] a o = tt
  All-Good (n ∷ nodes) a o = ((a.0, (n, o.0)), All-Good nodes a.1 o.1)

  -- the checks of the graph, one after the other
  pub record Checks (f : FlowSource) : Type 0 where
    pub fans : Problems × Fans
    pub entries : Problems
    pub lost : Problems
    pub tied : validate_fans by_id f.nodes ≡ ok fans
    pub entered : reject_branch_entry by_id fans.1 f.nodes ≡ ok entries
    pub decided : Decides f.nodes (resolve_start by_id fans.1.branch_of f).1 lost
    pub returned :
        validate_graph by_id f
        ≡ ok (fans.0 ++ entries ++ (resolve_start by_id fans.1.branch_of f).0 ++ lost)

  pub graph-Checks : (f : FlowSource) → IsReady c by_id f.nodes → Checks f
  unfolding validate_graph
  graph-Checks f h =
      let (fans, tied, _) =
        Gives-value (λ r. Unit) (validate_fans by_id f.nodes)
          (validate_fans-Gives by_id c f.nodes (All-Good f.nodes h.accepted h.own)) in
      let (entries, entered, _) =
        Gives-value (λ ps. Unit) (reject_branch_entry by_id fans.1 f.nodes)
          (entries-Gives fans.1 f.nodes h.accepted) in
      let (lost, ends, decided) =
        from_start-Decides f.nodes (resolve_start by_id fans.1.branch_of f).1 h
          (start-Starts fans.1.branch_of f h) in
      record {
        fans = fans;
        entries = entries;
        lost = lost;
        tied = tied;
        entered = entered;
        decided = decided;
        returned = rw (tied, entered, ends) refl;
      }
