-- ===== src/Fold/Decide/Settle.antt =====
-- internal/fold/decide.go: what follows the end of a task instance, a branch, a map item or a
-- child.
use packtrail.Prelude.{
  ℕ, ◌+◌, String, Bool, true, false, not, ◌||◌, ◌&&◌, Option, none, some, [], ◌∷◌, ltb, ◌==◌,
  str_eq, if◌then◌else◌,
}
use packtrail.GoMap.{Map, empty}
use packtrail.Json.{Raw, Float64, is_null, is_object}
use packtrail.Outcome.{
  Msg, text, completion_not_object, not_dynamic, schema_refused, node_failed, item_failed,
  subflow_failed,
}
use packtrail.Event.{Reason, Purpose, node_done, node_fail, interrupted, map_abort, child_done}
use packtrail.Flow.{Node, max_attempts, node_backoff, allows_dynamic, validate_output}
use packtrail.Cmd.{CompleteData, FailData, InterruptData, ChildDoneData}
use packtrail.Fold.State.{Task, ChildState, resumption, has, node_of}
use packtrail.Fold.Apply.Waits.{status_completed}
use packtrail.Fold.Decide.Monad.{Step, M, pure, look, deref, skip, ◌>>=◌, ◌>>◌, emit}
use packtrail.Fold.Decide.Basics.{
  node, is_done, owned_children, fail, timer_at, schedule, over_budget_with, writes_problem,
  cancel_owned,
}
use packtrail.Fold.Decide.Route.{advance, map_progress, enter}
use packtrail.Fold.Decide.Join.{eval_join}

-- (*decider).abortMap
unfoldable pub abort_map : Node → ℕ → Step
abort_map n index = do
  cancel_owned n.id "map item failed"
  children ← owned_children n.id
  emit (map_abort (record { node = n.id; index = index; cancel_children = children }))
  enter n.on_failure

-- an instance or a child that failed for good, outside a fan-out
unfoldable pub settle_failure : Node → Bool → ℕ → Step → Step
settle_failure n item index otherwise =
    if str_eq n.on_failure ""
    then otherwise
    else if item
    then abort_map n index
    else enter n.on_failure

unfoldable pub retry_task : Node → Task → Step
retry_task n t =
    let delay = node_backoff n (t.attempt + 1) in
    if delay == 0
    then schedule n t.key t.owner t.index t.item (resumption t) t.generation (t.attempt + 1)
    else timer_at Purpose.retry delay t.key t.node t.generation (t.attempt + 1)

unfoldable pub give_up : Option Node → Task → Msg → Reason → Step
unfolding settle_failure
give_up found t msg reason = do
  is_fan ← look (λ w. has w.st.fans t.owner)
  is_map ← look (λ w. has w.st.maps t.owner)
  if is_fan then eval_join t.owner else (do
    n ← deref found
    settle_failure n (is_map && str_eq t.node t.owner) t.index
        (fail reason (node_failed t.node msg) t.node))

unfoldable pub after_failure : Option Node → Task → Msg → Reason → Bool → Option Msg → Step
unfolding retry_task give_up
after_failure found t msg reason will_retry (some over) = fail Reason.budget over t.node
after_failure found t msg reason true none = do n ← deref found; retry_task n t
after_failure found t msg reason false none = give_up found t msg reason

abbrev is_none {ℓ} : {A : Type ℓ} → Option A → Bool
is_none none = true
is_none (some _) = false

-- an attempt is left to a failure that may be retried
unfoldable pub attempt_left : Task → Option Node → Bool → M Bool
attempt_left t found true = do n ← deref found; pure (ltb t.attempt (max_attempts n))
attempt_left t found false = pure false

-- (*decider).taskFailed
unfoldable pub task_failed : Task → Msg → Bool → Reason → Map Float64 → Step
unfolding after_failure attempt_left
task_failed t msg retryable reason usage = do
  found ← node t.node
  over ← over_budget_with usage
  left ← attempt_left t found retryable
  let will_retry = left && is_none over
  emit (
      node_fail (record {
        key = t.key;
        node = t.node;
        generation = t.generation;
        attempt = t.attempt;
        error = msg;
        reason = reason;
        will_retry = will_retry;
        usage = usage;
      }))
  after_failure found t msg reason will_retry over

-- (*decider).failTask
unfoldable pub fail_task : FailData → Option Task → Step
fail_task p none = skip
fail_task p (some t) =
    task_failed t (text p.error) p.retryable (elim p.reason [ Reason.unset ↦ Reason.error | r ↦ r ])
      p.usage

-- (*decider).afterSettle
unfoldable pub after_settle : Task → Node → String → Step
after_settle t n dyn = do
  over ← is_done
  is_fan ← look (λ w. has w.st.fans t.owner)
  is_map ← look (λ w. has w.st.maps t.owner)
  if over
      then skip
      else if is_fan
      then eval_join t.owner
      else if is_map && str_eq t.node t.owner
      then map_progress enter n
      else advance enter n dyn

abbrev no_usage : Map Float64
no_usage = empty

unfoldable pub stop_over : String → Step → Option Msg → Step
stop_over node rest none = rest
stop_over node rest (some problem) = fail Reason.budget problem node

-- (*decider).overBudget, and the failure that follows a budget that is exceeded
unfoldable pub unless_over : String → Step → Step
unfolding stop_over
unless_over node rest = do over ← over_budget_with no_usage; stop_over node rest over

unfoldable pub schema_problem : Node → Raw → Option (Msg × Bool)
schema_problem n none = none
schema_problem n (some v) = elim (validate_output n v) [
  | none ↦ none
  | some problem ↦ some (schema_refused problem, true)
]

-- (*decider).checkCompletion: a problem and whether a retry could fix it
unfoldable pub completion_problem : Node → Task → Raw → String → Option Msg → Option (Msg × Bool)
unfolding schema_problem
completion_problem n t output next writes =
    if not (is_none output) && not (is_object output)
    then some (completion_not_object, false)
    else elim writes [
      | some problem ↦ some (problem, false)
      | none ↦
          if not (str_eq next "") && (not (str_eq t.owner "") || not (allows_dynamic n next))
          then some (not_dynamic next n.id, false)
          else schema_problem n output
    ]

unfoldable pub accept : CompleteData → Task → Node → Raw → Step
accept p t n output = do
  emit (
      node_done (record {
        key = t.key;
        node = t.node;
        generation = t.generation;
        attempt = t.attempt;
        output = output;
        writes = p.writes;
        next = p.next;
        usage = p.usage;
        cached = p.cached;
        cache_key = p.cache_key;
      }))
  unless_over t.node (after_settle t n p.next)

unfoldable pub judge_completion : CompleteData → Task → Node → Raw → Option (Msg × Bool) → Step
unfolding accept
judge_completion p t n output (some (problem, retryable)) =
    task_failed t problem retryable Reason.invalid_output p.usage
judge_completion p t n output none = accept p t n output

-- (*decider).complete
unfoldable pub complete_task : CompleteData → Option Task → Step
unfolding judge_completion
complete_task p none = skip
complete_task p (some t) = do
  found ← node t.node
  n ← deref found
  let output : Raw = if is_null p.output then none else p.output
  writes ← writes_problem p.writes
  judge_completion p t n output (completion_problem n t output p.next writes)

-- (*decider).interrupt
unfoldable pub interrupt_task : InterruptData → Option Task → Step
interrupt_task p none = skip
interrupt_task p (some t) = do
  emit (
      interrupted (record {
        key = t.key;
        node = t.node;
        generation = t.generation;
        payload = p.payload;
        usage = p.usage;
      }))
  unless_over t.node skip

-- the child of an id: the loop keeps the last entry that has it
unfoldable pub find_child : String → Map ChildState → Option (String × ChildState)
find_child id [] = none
find_child id ((k, c) ∷ cs) = elim (find_child id cs) [
  | some found ↦ some found
  | none ↦ if str_eq c.child_id id then some (k, c) else none
]

unfoldable pub child_failure : ChildDoneData → String → ChildState → Bool → Step
child_failure p name c item =
    fail Reason.child
      (if item
        then item_failed name c.index p.child_id p.status (text p.error)
        else subflow_failed name p.child_id p.status (text p.error))
      name

unfoldable pub child_settled :
    ChildDoneData → String → ChildState → Bool → Bool → Option Node → Step
unfolding settle_failure child_failure
child_settled p name c item success found = do
  n ← deref found
  if success
      then if item then map_progress enter n else advance enter n ""
      else settle_failure n item c.index (child_failure p name c item)

unfoldable pub after_child : ChildDoneData → String → ChildState → Step
unfolding child_settled
after_child p name c = do
  found ← node name
  is_fan ← look (λ w. has w.st.fans c.owner)
  is_map ← look (λ w. has w.st.maps c.owner)
  let item = is_map && str_eq c.owner name
  let success = str_eq p.status status_completed
  if is_fan then eval_join c.owner else child_settled p name c item success found

unfoldable pub child_ended : ChildDoneData → Option (String × ChildState) → Step
unfolding after_child
child_ended p none = skip
child_ended p (some (key, c)) = do
  let name = node_of c key
  emit (
      child_done (record {
        node = name;
        key = if str_eq key name then "" else key;
        child_id = p.child_id;
        status = p.status;
        output = p.output;
        error = p.error;
        counters = p.counters;
      }))
  unless_over name (after_child p name c)

-- (*decider).childDone
unfoldable pub end_child : ChildDoneData → Step
unfolding find_child child_ended
end_child p = do found ← look (λ w. find_child p.child_id w.st.children); child_ended p found
