-- ===== src/Flow/Valid/Isolated.antt =====
-- flow/graph.go, validateFans and rejectBranchEntry: a branch belongs to its fanout alone.
use packtrail.Prelude.{
  ◌≡◌, ap, ◌∙◌, String, true, false, none, some, List, [], ◌∷◌, str_eq, inl, inr, Bool-cases,
  Option-cases,
}
use mathlib.Core.List.{append-eq-nil_iff}
use packtrail.GoMap.{get}
use packtrail.Outcome.{ok, bind_inv, ok_inj}
use packtrail.Flow.Source.{NodeSource, FlowSource, Compiler}
use packtrail.Flow.Graph.{Nodes, Route, routes, targets}
use packtrail.Flow.Graph.Fans.{Fans}
use packtrail.Flow.Graph.Entry.{entry_problem, route_loop, reject_branch_entry}
use packtrail.Flow.Validate.{by_id_of, validate}
use packtrail.Flow.Validate.Fields.{contains}
use packtrail.Flow.Valid.{All}
use packtrail.Flow.Valid.Index.{refuted}
use packtrail.Flow.Valid.Sound.{valid-IsSound}
use packtrail.Flow.Valid.Branches.{All-contains, IsBranch, IsOwned, IsTied, fans-nil}

module _ (by_id : Nodes) (fans : Fans) where
  entry-nil :
      (n : NodeSource) (r : Route)
      → entry_problem by_id fans n r ≡ ok []
      → get fans.branch_of r.to ≡ none
  unfolding entry_problem
  entry-nil n r h = elim (Option-cases (get fans.branch_of r.to)) [
    | inl e ↦ e
    | inr (o, e) ↦ absurd (refuted (ok_inj (rw (entry_problem, e) at h)))
  ]

  abbrev Unowned : String → Type 0
  Unowned x = get fans.branch_of x ≡ none

  routes-nil :
      (n : NodeSource) (rs : List Route)
      → route_loop by_id fans n rs ≡ ok []
      → All Unowned (targets rs)
  unfolding route_loop
  routes-nil n [] h = tt
  routes-nil n (r ∷ rs) h =
      let (ps, first, rest) = bind_inv (entry_problem by_id fans n r) _ h in
      let (qs, others, done) = bind_inv (route_loop by_id fans n rs) _ rest in
      let (p, q) = (append-eq-nil_iff {p = ps} {q = qs}).0 (ok_inj done) in
      (entry-nil n r (first ∙ ap ok p), routes-nil n rs (others ∙ ap ok q))

  entries-nil :
      (nodes : List NodeSource)
      → reject_branch_entry by_id fans nodes ≡ ok []
      → All (λ m. All Unowned (targets (routes m))) nodes
  unfolding reject_branch_entry
  entries-nil [] h = tt
  entries-nil (n ∷ nodes) h =
      let (ps, first, rest) = bind_inv (route_loop by_id fans n (routes n)) _ h in
      let (qs, others, done) = bind_inv (reject_branch_entry by_id fans nodes) _ rest in
      let (p, q) = (append-eq-nil_iff {p = ps} {q = qs}).0 (ok_inj done) in
      (routes-nil n (routes n) (first ∙ ap ok p), entries-nil nodes (others ∙ ap ok q))

  abbrev IsFanout : NodeSource → Type 0
  IsFanout n = str_eq n.type "fanout" ≡ true

  unrouted :
      (b o : String) (nodes : List NodeSource)
      → get fans.branch_of b ≡ some o
      → All (λ m. All Unowned (targets (routes m))) nodes
      → All (λ m. contains (targets (routes m)) b ≡ false) nodes
  unrouted b o [] e h = tt
  unrouted b o (m ∷ nodes) e h = (
    elim (Bool-cases (contains (targets (routes m)) b)) [
      | inl c ↦ absurd (cc (e, All-contains Unowned (targets (routes m)) b h.0 c))
      | inr c ↦ c
    ],
    unrouted b o nodes e h.1,
  )

  one_fan :
      (b o : String) (nodes : List NodeSource)
      → get fans.branch_of b ≡ some o
      → All (λ m. IsFanout m → IsTied by_id fans.branch_of m) nodes
      → All (λ m. IsFanout m → contains m.branches b ≡ true → m.id ≡ o) nodes
  one_fan b o [] e h = tt
  one_fan b o (m ∷ nodes) e h = (
    λ f c.
        let owned = All-contains (IsOwned by_id fans.branch_of m) m.branches b (h.0 f).branches c in
        cc (owned.owner, e),
    one_fan b o nodes e h.1,
  )

-- A branch of the fanout n: a task or a subflow with no successor of its own, which no node routes
-- to, and which only the fanout of this id lists.
pub record IsAlone (f : FlowSource) (n : NodeSource) (b : String) : Type 0 where
  pub node : NodeSource
  pub found : get (by_id_of f) b ≡ some node
  pub branch : IsBranch node
  pub unrouted : All (λ m. contains (targets (routes m)) b ≡ false) f.nodes
  pub one_fan :
      All (λ m. str_eq m.type "fanout" ≡ true → contains m.branches b ≡ true → m.id ≡ n.id) f.nodes

-- A fanout whose next is a join, and whose branches are its own.
pub record IsFan (f : FlowSource) (n : NodeSource) : Type 0 where
  pub join : NodeSource
  pub next : get (by_id_of f) n.next ≡ some join
  pub closes : join.type ≡ "join"
  pub branches : All (IsAlone f n) n.branches

module _ (f : FlowSource) (fans : Fans)
    (entered : All (λ m. All (Unowned (by_id_of f) fans) (targets (routes m))) f.nodes)
    (tied : All
      (λ m. str_eq m.type "fanout" ≡ true → IsTied (by_id_of f) fans.branch_of m)
      f.nodes) where
  alone :
      (n : NodeSource) (bs : List String)
      → All (IsOwned (by_id_of f) fans.branch_of n) bs
      → All (IsAlone f n) bs
  alone n [] h = tt
  alone n (b ∷ bs) h = (
    record {
      node = h.0.node;
      found = h.0.found;
      branch = h.0.branch;
      unrouted = unrouted (by_id_of f) fans b n.id f.nodes h.0.owner entered;
      one_fan = one_fan (by_id_of f) fans b n.id f.nodes h.0.owner tied;
    },
    alone n bs h.1,
  )

  fans_of :
      (nodes : List NodeSource)
      → All (λ m. str_eq m.type "fanout" ≡ true → IsTied (by_id_of f) fans.branch_of m) nodes
      → All (λ m. str_eq m.type "fanout" ≡ true → IsFan f m) nodes
  fans_of [] h = tt
  fans_of (n ∷ nodes) h = (
    λ e.
        let t = h.0 e in
        record {
          join = t.join;
          next = t.next;
          closes = t.closes;
          branches = alone n n.branches t.branches;
        },
    fans_of nodes h.1,
  )

-- In a flow that Validate finds no problem with, the next of every fanout is a join. Each branch of
-- a fanout is a task or a subflow with no next, on_failure or dynamic target; no route of any node
-- leads to it, and a fanout that lists it has this fanout's id.
pub valid_fanouts :
    (c : Compiler) (f : FlowSource)
    → validate c f ≡ ok []
    → All (λ n. str_eq n.type "fanout" ≡ true → IsFan f n) f.nodes
valid_fanouts c f h =
    let sound = valid-IsSound c f h in
    let tied = fans-nil (by_id_of f) f.nodes sound.fans sound.tied in
    fans_of f sound.fans (entries-nil (by_id_of f) sound.fans f.nodes sound.entered) tied f.nodes
      tied
