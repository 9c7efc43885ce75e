-- ===== src/Flow/Valid/Branches.antt =====
-- flow/graph.go, validateFans: the fanouts of a flow without a problem.
use packtrail.Prelude.{
  ℕ, suc, ◌≡◌, ◌≢◌, ◌⊎◌, refl, subst, ap, ◌∙◌, String, true, false, Option, none, some, List, [],
  ◌∷◌, arith, str_eq, eq_iff, inl, inr, Bool-cases, Option-cases,
}
use mathlib.Core.List.{append-eq-nil_iff}
use packtrail.GoMap.{Map, empty, get, put, get-put, get-put_self}
use packtrail.Outcome.{Result, ok, err, bind_inv, ok_inj}
use packtrail.Flow.Source.{NodeSource, Problems}
use packtrail.Flow.Graph.{Nodes, deref, prepend}
use packtrail.Flow.Graph.Fans.{
  Fans, filled, owned_problem, branch_problems, fan_branches, close_fan, validate_fan, fan_loop,
  join_loop, validate_fans,
}
use packtrail.Flow.Validate.Level.{indexed}
use packtrail.Flow.Validate.Fields.{contains}
use packtrail.Flow.Valid.{All}
use packtrail.Flow.Valid.Index.{refuted}

pub All-contains :
    (P : String → Type 0) (xs : List String) (x : String) → All P xs → contains xs x ≡ true → P x
unfolding contains
All-contains P [] x h c = absurd (cc)
All-contains P (y ∷ xs) x h c = elim (Bool-cases (str_eq y x)) [
  | inl e ↦ subst P ((eq_iff y x).0 e) h.0
  | inr e ↦ All-contains P xs x h.1 (ground (arith, e))
]

prepend-nil {ℓ} :
    {A : Type ℓ} (ps : Problems) (r : Result (Problems × A)) (a : A)
    → prepend ps r ≡ ok ([], a)
    → (ps ≡ []) × (r ≡ ok ([], a))
prepend-nil [] (ok (q, b)) a h = (refl, h)
prepend-nil (p ∷ ps) (ok (q, b)) a h = absurd (cc)
prepend-nil ps (err e) a h = absurd (cc)

-- what the engine takes a branch for: a task or a subflow that leads nowhere by itself
pub record IsBranch (n : NodeSource) : Type 0 where
  pub runs : (n.type ≡ "task") ⊎ (n.type ≡ "subflow")
  pub no_failure : n.on_failure ≡ ""
  pub no_next : n.next ≡ ""
  pub no_dynamic : n.dynamic ≡ []

filled_iff {ℓ} : {A : Type ℓ} (xs : List A) → filled xs ≡ false → xs ≡ []
filled_iff [] h = refl
filled_iff (x ∷ xs) h = absurd (cc)

problems-IsBranch :
    (n : NodeSource) (field b : String) (bn : NodeSource)
    → branch_problems n field b bn ≡ []
    → IsBranch bn
unfolding branch_problems
problems-IsBranch n field b bn h = record {
  runs = ground (arith, eq_iff bn.type "task", eq_iff bn.type "subflow");
  no_failure = ground (arith, eq_iff bn.on_failure "");
  no_next = ground (arith, eq_iff bn.next "");
  no_dynamic = ground (arith, filled_iff bn.dynamic);
}

abbrev Extends : Map String → Map String → Type 0
Extends m w = (x v : String) → get m x ≡ some v → get w x ≡ some v

put-Extends : (m : Map String) (k v : String) → get m k ≡ none → Extends m (put m k v)
put-Extends m k v e x w h = ground (arith, get-put m k x v, eq_iff k x)

module _ (by_id : Nodes) where
  -- b is a branch of the fanout, by its owner
  pub record IsOwned (owners : Map String) (n : NodeSource) (b : String) : Type 0 where
    pub owner : get owners b ≡ some n.id
    pub node : NodeSource
    pub found : get by_id b ≡ some node
    pub branch : IsBranch node

  IsOwned-Extends :
      (m w : Map String) (n : NodeSource) (b : String) → Extends m w → IsOwned m n b → IsOwned w n b
  IsOwned-Extends m w n b e h = record {
    owner = e b n.id h.owner;
    node = h.node;
    found = h.found;
    branch = h.branch;
  }

  All-Extends :
      (m w : Map String) (n : NodeSource) (bs : List String)
      → Extends m w
      → All (IsOwned m n) bs
      → All (IsOwned w n) bs
  All-Extends m w n [] e h = tt
  All-Extends m w n (b ∷ bs) e h = (IsOwned-Extends m w n b e h.0, All-Extends m w n bs e h.1)

  owned-ne-nil : (n : NodeSource) (field b owner : String) → owned_problem n field b owner ≢ []
  unfolding owned_problem
  owned-ne-nil n field b owner h = ground arith

  branches-nil :
      (n : NodeSource) (i : ℕ) (bs : List String) (m w : Map String)
      → fan_branches by_id n i bs m ≡ ok ([], w)
      → Extends m w × All (IsOwned w n) bs
  unfolding fan_branches deref
  branches-nil n i [] m w h = (λ x v e. ground arith, tt)
  branches-nil n i (b ∷ bs) m w h = elim (Option-cases (get m b)) [
    | inr (o, e) ↦ absurd (
        owned-ne-nil n (indexed "branches" i) b o (prepend-nil _ _ w (rw (fan_branches, e) at h)).0)
    | inl e ↦ elim (Option-cases (get by_id b)) [
      | inl g ↦ cc (rw (fan_branches, e, g) at h)
      | inr (bn, g) ↦
          let (this, rest) =
            prepend-nil (branch_problems n (indexed "branches" i) b bn)
              (fan_branches by_id n (suc i) bs (put m b n.id)) w (rw (fan_branches, e, g) at h) in
          let (more, owned) = branches-nil n (suc i) bs (put m b n.id) w rest in
          (
            λ x v q. more x v (put-Extends m b n.id e x v q),
            (
              record {
                owner = more b n.id (get-put_self m b n.id);
                node = bn;
                found = g;
                branch = problems-IsBranch n (indexed "branches" i) b bn this;
              },
              owned,
            ),
          )
    ]
  ]

  -- a fanout that leads to a join, and owns its branches
  pub record IsTied (owners : Map String) (n : NodeSource) : Type 0 where
    pub branches : All (IsOwned owners n) n.branches
    pub join : NodeSource
    pub next : get by_id n.next ≡ some join
    pub closes : join.type ≡ "join"

  IsTied-Extends : (m w : Map String) (n : NodeSource) → Extends m w → IsTied m n → IsTied w n
  IsTied-Extends m w n e h = record {
    branches = All-Extends m w n n.branches e h.branches;
    join = h.join;
    next = h.next;
    closes = h.closes;
  }

  close_fan-nil :
      (n j : NodeSource) (joins : Map String) → (close_fan n j joins).0 ≡ [] → j.type ≡ "join"
  unfolding close_fan
  close_fan-nil n j joins h = elim (Bool-cases (str_eq j.type "join")) [
    | inl e ↦ (eq_iff j.type "join").0 e
    | inr e ↦ absurd (refuted (rw (close_fan, e) at h))
  ]

  deref_inv : (o : Option NodeSource) (n : NodeSource) → deref o ≡ ok n → o ≡ some n
  unfolding deref
  deref_inv none n h = absurd (cc)
  deref_inv (some k) n h = cc

  fan-nil :
      (n : NodeSource) (fans : Fans) (r : Problems × Fans)
      → validate_fan by_id n fans ≡ ok r
      → r.0 ≡ []
      → Extends fans.branch_of r.1.branch_of × IsTied r.1.branch_of n
  unfolding validate_fan
  fan-nil n fans r h e =
      let (found, branched, rest) =
        bind_inv (fan_branches by_id n 0 n.branches fans.branch_of) _ h in
      let (j, joined, done) = bind_inv (deref (get by_id n.next)) _ rest in
      let owners = found.1 in
      let (no_branch, no_join) =
        (append-eq-nil_iff {p = found.0} {q = (close_fan n j fans.join_of).0}).0
          (ap (λ q. q.0) (ok_inj done) ∙ e) in
      let same : owners ≡ r.1.branch_of = ap (λ q. q.1.branch_of) (ok_inj done) in
      let (more, owned) =
        branches-nil n 0 n.branches fans.branch_of owners
          (branched ∙ ap (λ ps. ok (ps, owners)) no_branch) in
      subst (λ w. Extends fans.branch_of w × IsTied w n) same
        (
          more,
          record {
            branches = owned;
            join = j;
            next = deref_inv _ j joined;
            closes = close_fan-nil n j fans.join_of no_join;
          },
        )

  loop-nil :
      (nodes : List NodeSource) (fans w : Fans)
      → fan_loop by_id nodes fans ≡ ok ([], w)
      → Extends fans.branch_of w.branch_of
        × All (λ n. str_eq n.type "fanout" ≡ true → IsTied w.branch_of n) nodes
  unfolding fan_loop
  loop-nil [] fans w h = (λ x v e. ground arith, tt)
  loop-nil (n ∷ nodes) fans w h = elim (Bool-cases (str_eq n.type "fanout")) [
    | inl e ↦
        let (r, this, rest) =
          bind_inv (validate_fan by_id n fans) (λ q. prepend q.0 (fan_loop by_id nodes q.1))
            (rw (fan_loop, e) at h) in
        let (clean, others) = prepend-nil r.0 (fan_loop by_id nodes r.1) w rest in
        let (some_more, tied) = fan-nil n fans r this clean in
        let (more, all) = loop-nil nodes r.1 w others in
        (
          λ x v q. more x v (some_more x v q),
          ((λ _. IsTied-Extends r.1.branch_of w.branch_of n more tied), all),
        )
    | inr e ↦
        let (more, all) = loop-nil nodes fans w (rw (fan_loop, e) at h) in
        (more, ((λ f. absurd (cc (e, f))), all))
  ]

  pub fans-nil :
      (nodes : List NodeSource) (fans : Fans)
      → validate_fans by_id nodes ≡ ok ([], fans)
      → All (λ n. str_eq n.type "fanout" ≡ true → IsTied fans.branch_of n) nodes
  unfolding validate_fans
  fans-nil nodes fans h =
      let none_yet : Fans = record { branch_of = empty; join_of = empty } in
      let (r, looped, rest) = bind_inv (fan_loop by_id nodes none_yet) _ h in
      let (ps, joined, done) = bind_inv (join_loop by_id r.1.join_of nodes) _ rest in
      let clean = ((append-eq-nil_iff {p = r.0} {q = ps}).0 (ap (λ q. q.0) (ok_inj done))).0 in
      let same : r.1 ≡ fans = ap (λ q. q.1) (ok_inj done) in
      (loop-nil nodes none_yet fans (looped ∙ ap ok (cc (clean, same)))).1
