-- ===== src/Flow/Validate/Nodes.antt =====
-- flow/validate.go: the checks of a node, by its type.
use packtrail.Prelude.{
  ℕ, suc, String, Bool, true, false, not, ◌||◌, ◌&&◌, Option, none, some, List, [], ◌∷◌, ◌++◌,
  str_eq, if◌then◌else◌, is_negative, at_most_zero, exceeds, ltb, ◌==◌, length,
}
use packtrail.GoMap.{Map, get}
use packtrail.Text.{is_blank}
use packtrail.Platform.{◌⧺◌, valid_token}
use packtrail.Flow.Source.{
  RetrySource, CacheSource, ConcurrencySource, RuleSource, NodeSource, Compiler, Policy, all, any,
  quorum, min, unknown, text, count, no_cause, Problems, add, check_token, caused, join_kind,
}
use packtrail.Flow.Validate.Level.{when, indexed}
use packtrail.Flow.Validate.Fields.{contains, reject_foreign_fields}

abbrev pub max_retry_attempts : ℕ
max_retry_attempts = 64

abbrev pub max_branches : ℕ
max_branches = 256

abbrev pub max_parallel : ℕ
max_parallel = 256

-- (*Flow).ref
unfoldable pub ref : Map NodeSource → String → String → String → Problems
ref by_id node field id =
    if str_eq id "" then add node field no_cause "is required" [] else elim (get by_id id) [
      | none ↦ add node field no_cause "references unknown node %q" (text id ∷ [])
      | some m ↦ []
    ]

-- ref of each id of a list, from place `i` on
unfoldable pub refs : Map NodeSource → String → String → ℕ → List String → Problems
unfolding ref
refs by_id node field i [] = []
refs by_id node field i (id ∷ ids) =
    ref by_id node (indexed field i) id ++ refs by_id node field (suc i) ids

-- (*Flow).encodeMeta
unfoldable pub encode_meta : NodeSource → Problems
encode_meta n =
    if n.has_meta
    then caused n.id "meta" "must encode as JSON (use string keys in nested maps)" n.meta_problem
    else []

backoff_problems : NodeSource → RetrySource → Problems
backoff_problems n r =
    if str_eq r.backoff ""
    then []
    else if str_eq r.backoff "fixed" || str_eq r.backoff "linear" || str_eq r.backoff "exponential"
    then when (not (exceeds r.max_attempts 1)) (
        add n.id "retry.max_attempts" no_cause
          "retry declares backoff %q but max_attempts < 2, so it would never retry"
          (text r.backoff ∷ []))
    else add n.id "retry.backoff" no_cause "unknown backoff %q (want fixed, linear or exponential)"
        (text r.backoff ∷ [])

-- validateRetry
unfoldable pub validate_retry : NodeSource → Option RetrySource → Problems
unfolding backoff_problems
validate_retry n none = []
validate_retry n (some r) =
    when (is_negative r.max_attempts || exceeds r.max_attempts max_retry_attempts) (
      add n.id "retry.max_attempts" no_cause "must be between 0 and %d"
        (count max_retry_attempts ∷ []))
    ++ backoff_problems n r
    ++ when (is_negative r.delay) (add n.id "retry.delay" no_cause "must not be negative" [])
    ++ when (is_negative r.max_delay)
        (add n.id "retry.max_delay" no_cause "must not be negative" [])

-- (*Flow).validateAttemptPolicy
unfoldable pub validate_attempt_policy : Compiler → NodeSource → Problems
unfolding validate_retry
validate_attempt_policy c n =
    when (is_negative n.timeout) (add n.id "timeout" no_cause "must not be negative" [])
    ++ validate_retry n n.retry
    ++ (elim n.output_schema [
      | none ↦ []
      | some doc ↦ caused n.id "output_schema" "" (c.schema_problem doc)
    ])

cache_problems : NodeSource → Option CacheSource → Problems
cache_problems n none = []
cache_problems n (some cache) =
    when (at_most_zero cache.ttl) (add n.id "cache.ttl" no_cause "must be positive" [])

concurrency_problems : Compiler → NodeSource → Option ConcurrencySource → Problems
concurrency_problems c n none = []
concurrency_problems c n (some conc) =
    when (at_most_zero conc.max) (add n.id "concurrency.max" no_cause "must be positive" [])
    ++ caused n.id "concurrency.key" "" (c.value_problem conc.key)

-- (*Flow).validateTask
unfoldable pub validate_task : Compiler → Map NodeSource → NodeSource → Problems
unfolding cache_problems concurrency_problems
validate_task c by_id n =
    check_token n.id "kind" "worker kind" n.kind
    ++ validate_attempt_policy c n
    ++ cache_problems n n.cache
    ++ concurrency_problems c n n.concurrency
    ++ refs by_id n.id "dynamic" 0 n.dynamic

-- checkRuleName; `named` holds the names before
unfoldable pub check_rule_name : String → String → String → List String → Problems
check_rule_name node field name named =
    if str_eq name ""
    then []
    else if not (valid_token name)
    then check_token node (field ⧺ ".name") "rule name" name
    else when (contains named name)
        (add node (field ⧺ ".name") no_cause "duplicate rule name %q" (text name ∷ []))

-- the `switch` on a rule's when and default
when_problems : Compiler → NodeSource → String → RuleSource → Problems
when_problems c n field r =
    if r.default
    then when (not (is_blank r.when)) (
        add n.id (field ⧺ ".when") no_cause "a default rule must not also carry a when expression"
          [])
    else if is_blank r.when
    then add n.id (field ⧺ ".when") no_cause "non-default rule needs a when expression" []
    else caused n.id (field ⧺ ".when") "" (c.predicate_problem r.when)

-- the loop over the rules, from rule `i` on
unfoldable pub rule_problems :
    Compiler → Map NodeSource → NodeSource → ℕ → List String → List RuleSource → Problems
unfolding when_problems
rule_problems c by_id n i named [] = []
rule_problems c by_id n i named (r ∷ rules) =
    check_rule_name n.id (indexed "rules" i) r.name named
    ++ when_problems c n (indexed "rules" i) r
    ++ (if str_eq r.to "$end" then [] else ref by_id n.id (indexed "rules" i ⧺ ".to") r.to)
    ++ rule_problems c by_id n (suc i) (r.name ∷ named) rules

unfoldable pub defaults : List RuleSource → ℕ
defaults [] = 0
defaults (r ∷ rules) = if r.default then suc (defaults rules) else defaults rules

-- (*Flow).validateChoice
unfoldable pub validate_choice : Compiler → Map NodeSource → NodeSource → Problems
validate_choice c by_id n =
    when (length n.rules == 0) (add n.id "rules" no_cause "at least one rule is required" [])
    ++ rule_problems c by_id n 0 [] n.rules
    ++ when (ltb 0 (length n.rules) && not (defaults n.rules == 1)) (
        add n.id "rules" no_cause "exactly one default rule is required (got %d)"
          (count (defaults n.rules) ∷ []))
    ++ when (not (str_eq n.on_error "") && not (str_eq n.on_error "fail")) (
        add n.id "on_error" no_cause "unknown value %q (want \"fail\" or omit)"
          (text n.on_error ∷ []))

-- (*Flow).validateFanout
unfoldable pub validate_fanout : Map NodeSource → NodeSource → Problems
validate_fanout by_id n =
    (if length n.branches == 0
      then add n.id "branches" no_cause "at least one branch is required" []
      else when (ltb max_branches (length n.branches)) (
          add n.id "branches" no_cause "at most %d branches (use a map node for wider fan-outs)"
            (count max_branches ∷ [])))
    ++ refs by_id n.id "branches" 0 n.branches
    ++ when (str_eq n.next "") (add n.id "next" no_cause "is required and must be a join node" [])

-- the loop over wait_for, from place `i` on; `seen` holds the ids before
waited : Map NodeSource → NodeSource → ℕ → List String → List String → Problems
waited by_id n i seen [] = []
waited by_id n i seen (w ∷ ws) =
    ref by_id n.id (indexed "wait_for" i) w
    ++ when (contains seen w)
        (add n.id (indexed "wait_for" i) no_cause "lists %q twice" (text w ∷ []))
    ++ waited by_id n (suc i) (w ∷ seen) ws

policy_problems : NodeSource → Policy → Problems
policy_problems n all = []
policy_problems n any = []
policy_problems n (quorum q) =
    when (at_most_zero q) (add n.id "policy" no_cause "quorum:N needs N > 0" [])
policy_problems n (min q) =
    when (is_negative q) (add n.id "policy" no_cause "min:N needs N >= 0" [])
policy_problems n (unknown p) =
    add n.id "policy" no_cause "unknown policy %q (want all, any, quorum:N or min:N)"
      (text n.policy ∷ [])

-- (*Flow).validateJoin
unfoldable pub validate_join : Map NodeSource → NodeSource → Problems
unfolding waited policy_problems
validate_join by_id n = waited by_id n 0 [] n.wait_for ++ policy_problems n (join_kind n)

-- (*Flow).validateAwait
unfoldable pub validate_await : Map NodeSource → NodeSource → Problems
validate_await by_id n =
    check_token n.id "signal" "signal name" n.signal
    ++ when (at_most_zero n.timeout)
        (add n.id "timeout" no_cause "is required and must be positive" [])
    ++ (if str_eq n.on_timeout "" then [] else ref by_id n.id "on_timeout" n.on_timeout)

-- (*Flow).validateSubflow
unfoldable pub validate_subflow : Compiler → NodeSource → Problems
validate_subflow c n =
    check_token n.id "flow" "subflow name" n.flow
    ++ when
        (not (str_eq n.on_parent_close "")
          && not (str_eq n.on_parent_close "cancel")
          && not (str_eq n.on_parent_close "abandon"))
        (add n.id "on_parent_close" no_cause "unknown value %q (want cancel or abandon)"
          (text n.on_parent_close ∷ []))
    ++ (if is_blank n.input then [] else caused n.id "input" "" (c.value_problem n.input))

abbrev is_some {ℓ} : {A : Type ℓ} → Option A → Bool
is_some none = false
is_some (some a) = true

-- (*Flow).validateMapItems
unfoldable pub validate_map_items : Compiler → NodeSource → Problems
validate_map_items c n =
    if not (str_eq n.kind "") && not (str_eq n.flow "")
    then add n.id "" no_cause "set kind (a task per item) or flow (a subflow per item), not both" []
    else if str_eq n.flow ""
    then when (not (str_eq n.input "") || not (str_eq n.on_parent_close ""))
        (add n.id "" no_cause "input and on_parent_close need flow (a subflow per item)" [])
      ++ check_token n.id "kind" "worker kind" n.kind
    else when (exceeds n.timeout 0 || is_some n.retry || is_some n.output_schema) (
        add n.id "" no_cause
          "timeout, retry and output_schema apply to tasks; with flow, set them on the child flow's nodes"
          [])
      ++ validate_subflow c n

-- (*Flow).validateMap
unfoldable pub validate_map : Compiler → NodeSource → Problems
validate_map c n =
    validate_map_items c n
    ++ caused n.id "over" "" (c.value_problem n.over)
    ++ when (is_negative n.max_parallel || exceeds n.max_parallel max_parallel)
        (add n.id "max_parallel" no_cause "must be between 0 and %d" (count max_parallel ∷ []))
    ++ (if str_eq n.flow "" then validate_attempt_policy c n else [])

-- the `switch` of validateNode
unfoldable pub by_type : String → Compiler → Map NodeSource → NodeSource → Problems
by_type type c by_id n =
    if str_eq type "task"
    then validate_task c by_id n
    else if str_eq type "choice"
    then validate_choice c by_id n
    else if str_eq type "fanout"
    then validate_fanout by_id n
    else if str_eq type "join"
    then validate_join by_id n
    else if str_eq type "await"
    then validate_await by_id n
    else if str_eq type "map"
    then validate_map c n
    else if str_eq type "subflow"
    then validate_subflow c n
    else add n.id "type" no_cause "unknown type %q" (text n.type ∷ [])

-- (*Flow).validateNode
unfoldable pub validate_node : Compiler → Map NodeSource → NodeSource → Problems
validate_node c by_id n = reject_foreign_fields n ++ encode_meta n ++ by_type n.type c by_id n

-- a target that a node may leave out, and that must not be the node itself
unfoldable pub route_problems : Map NodeSource → NodeSource → String → String → String → Problems
route_problems by_id n field id loop =
    if str_eq id ""
    then []
    else ref by_id n.id field id ++ when (str_eq id n.id) (add n.id field no_cause loop [])

-- (*Flow).validateNodes
unfoldable pub validate_nodes : Compiler → Map NodeSource → List NodeSource → Problems
validate_nodes c by_id [] = []
validate_nodes c by_id (n ∷ nodes) =
    validate_node c by_id n
    ++ route_problems by_id n "next" n.next "points to itself (would loop forever with no exit)"
    ++ route_problems by_id n "on_failure" n.on_failure "points to itself; to try again, use retry"
    ++ validate_nodes c by_id nodes
