-- ===== src/Flow/Graph/Fans.antt =====
-- flow/graph.go: each fanout and the join that closes it.
use packtrail.Prelude.{
  ℕ, suc, String, Bool, true, false, not, ◌||◌, ◌&&◌, Option, none, some, List, [], ◌∷◌, ◌++◌,
  str_eq, if◌then◌else◌, exceeds, length,
}
use packtrail.GoMap.{Map, empty, get, put}
use packtrail.Outcome.{Result, ok, ◌>>=◌}
use packtrail.Flow.Source.{
  NodeSource, Policy, quorum, min, text, count, no_cause, Problems, add, join_kind,
}
use packtrail.Flow.Validate.Level.{when, indexed}
use packtrail.Flow.Validate.Fields.{contains}
use packtrail.Flow.Graph.{Nodes, deref, prepend}

abbrev pub filled {ℓ} : {A : Type ℓ} → List A → Bool
filled [] = false
filled (x ∷ xs) = true

-- a branch that a fanout listed before
unfoldable pub owned_problem : NodeSource → String → String → String → Problems
owned_problem n field b owner =
    if str_eq owner n.id
    then add n.id field no_cause "lists branch %q twice" (text b ∷ [])
    else add b "" no_cause
        "is a branch of fanouts %q and %q; a node may belong to at most one fanout"
        (text owner ∷ text n.id ∷ [])

-- what a branch may not be or have
unfoldable pub branch_problems : NodeSource → String → String → NodeSource → Problems
branch_problems n field b bn =
    when (not (str_eq bn.type "task") && not (str_eq bn.type "subflow")) (
      add n.id field no_cause
        "branch %q is a %s node; branches must be task or subflow nodes (a subflow can hold any graph)"
        (text b ∷ text bn.type ∷ []))
    ++ when (not (str_eq bn.on_failure "")) (
        add b "on_failure" no_cause
          "node is a branch of fanout %q; a failed branch is settled by its join's policy — put on_failure on join %q instead"
          (text n.id ∷ text n.next ∷ []))
    ++ when (not (str_eq bn.next "") || filled bn.dynamic) (
        add b "" no_cause
          "node is a branch of fanout %q and routes onward; a branch does not advance the execution (its join does) — put the successor after the join instead"
          (text n.id ∷ []))

-- (*Flow).validateFanBranches, from branch `i` on: the problems, and branchOf after it
unfoldable pub fan_branches :
    Nodes → NodeSource → ℕ → List String → Map String → Result (Problems × Map String)
fan_branches by_id n i [] branch_of = ok ([], branch_of)
fan_branches by_id n i (b ∷ bs) branch_of =
    let again = fan_branches by_id n (suc i) bs branch_of in
    let first = fan_branches by_id n (suc i) bs (put branch_of b n.id) in
    elim (get branch_of b) [
      | some owner ↦ prepend (owned_problem n (indexed "branches" i) b owner) again
      | none ↦ deref (get by_id b) >>= λ bn.
          prepend (branch_problems n (indexed "branches" i) b bn) first
    ]

-- (*Flow).fanOf; the order of the map does not matter, since a join closes one fanout at most
unfoldable pub fan_of : Map String → String → Option String
fan_of [] join = none
fan_of ((fan, j) ∷ m) join = if str_eq j join then some fan else fan_of m join

-- the fanouts' branches and joins: branchOf and joinOf
pub record Fans : Type 0 where
  pub branch_of : Map String
  pub join_of : Map String

-- the join that a fanout leads to
unfoldable pub close_fan : NodeSource → NodeSource → Map String → Problems × Map String
close_fan n j join_of =
    if not (str_eq j.type "join")
    then (
      add n.id "next" no_cause "leads to %q, a %s node; a fanout's next must be a join"
          (text j.id ∷ text j.type ∷ []),
      join_of,
    )
    else elim (fan_of join_of j.id) [
      | some fan ↦ (
        add j.id "" no_cause "closes both fanouts %q and %q; use one join per fanout"
            (text fan ∷ text n.id ∷ []),
        join_of,
      )
      | none ↦ ([], put join_of n.id j.id)
    ]

unfoldable pub validate_fan : Nodes → NodeSource → Fans → Result (Problems × Fans)
validate_fan by_id n fans = do
  found ← fan_branches by_id n 0 n.branches fans.branch_of
  j ← deref (get by_id n.next)
  let closed = close_fan n j fans.join_of
  ok (found.0 ++ closed.0, record { branch_of = found.1; join_of = closed.1 })

-- the first loop of validateFans
unfoldable pub fan_loop : Nodes → List NodeSource → Fans → Result (Problems × Fans)
unfolding validate_fan
fan_loop by_id [] fans = ok ([], fans)
fan_loop by_id (n ∷ nodes) fans =
    let skipped = fan_loop by_id nodes fans in
    if str_eq n.type "fanout"
    then (validate_fan by_id n fans >>= λ r. prepend r.0 (fan_loop by_id nodes r.1))
    else skipped

unfoldable pub wait_problems : NodeSource → String → List String → ℕ → List String → Problems
wait_problems n fan branches i [] = []
wait_problems n fan branches i (w ∷ ws) =
    when (not (contains branches w)) (
      add n.id (indexed "wait_for" i) no_cause
        "waits for %q, which is not a branch of its fanout %q (it would never settle)"
        (text w ∷ text fan ∷ []))
    ++ wait_problems n fan branches (suc i) ws

-- (*Flow).WaitFor of a join whose fanout has these branches
unfoldable pub awaited : NodeSource → List String → List String
awaited n branches = elim n.wait_for [ [] ↦ branches | w ∷ ws ↦ w ∷ ws ]

unfoldable pub count_problems : NodeSource → Policy → ℕ → Problems
count_problems n (quorum q) k =
    when (exceeds q k) (
      add n.id "policy" no_cause "%s exceeds the %d awaited branches"
        (text n.policy ∷ count k ∷ []))
count_problems n (min q) k =
    when (exceeds q k) (
      add n.id "policy" no_cause "%s exceeds the %d awaited branches"
        (text n.policy ∷ count k ∷ []))
count_problems n _ k = []

-- (*Flow).validateJoinFan
unfoldable pub validate_join_fan : Nodes → Map String → NodeSource → Result Problems
validate_join_fan by_id join_of n = elim (fan_of join_of n.id) [
  | none ↦
      ok (add n.id "" no_cause "join is not the next of any fanout (it would never be reached)" [])
  | some fan ↦ deref (get by_id fan) >>= λ fn. ok (
      wait_problems n fan fn.branches 0 n.wait_for
      ++ count_problems n (join_kind n) (length (awaited n fn.branches)))
]

-- the second loop of validateFans
unfoldable pub join_loop : Nodes → Map String → List NodeSource → Result Problems
join_loop by_id join_of [] = ok []
join_loop by_id join_of (n ∷ nodes) =
    let rest = join_loop by_id join_of nodes in
    if str_eq n.type "join"
    then (validate_join_fan by_id join_of n >>= λ ps. rest >>= λ qs. ok (ps ++ qs))
    else rest

-- (*Flow).validateFans
unfoldable pub validate_fans : Nodes → List NodeSource → Result (Problems × Fans)
validate_fans by_id nodes = do
  r ← fan_loop by_id nodes (record { branch_of = empty; join_of = empty })
  ps ← join_loop by_id r.1.join_of nodes
  ok (r.0 ++ ps, r.1)
