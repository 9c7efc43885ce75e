-- ===== src/Fold/Rules/Settle.antt =====
-- Whatever the events of a command keep, the settling of tasks, joins, maps and children keeps.
use packtrail.Prelude.{ℕ, String, Bool, true, false, Option, none, some}
use packtrail.GoMap.{Map}
use packtrail.Json.{Raw, Float64}
use packtrail.Outcome.{Msg}
use packtrail.Event.{Payload, Reason}
use packtrail.Flow.{Node}
use packtrail.Cmd.{CompleteData, FailData, InterruptData, ChildDoneData}
use packtrail.Fold.State.{State, Task, ChildState}
use packtrail.Fold.Decide.Monad.{Decider, Work, Step, emit}
use packtrail.Fold.Decide.Route.{enter}
use packtrail.Fold.Decide.Settle.{
  abort_map, settle_failure, retry_task, give_up, after_failure, attempt_left, task_failed,
  fail_task, after_settle, stop_over, unless_over, accept, judge_completion, complete_task,
  interrupt_task, child_failure, child_settled, after_child, child_ended, end_child,
}
use packtrail.Fold.Decide.Join.{Tally, after_join, close_join, settle_join, eval_join}
use packtrail.Fold.Rules.{Keeps, Keeps-skip, Keeps-bind, Keeps-if, keeps_rules}
use packtrail.Fold.Rules.Basics
use packtrail.Fold.Rules.Basics.{basic_rules}
use packtrail.Fold.Rules.Route.{advance-Keeps, map_progress-Keeps}

module _ (d : Decider) (I : Work → Type 0)
    (emits : (e : Payload State) → Basics.IsOngoing e → Keeps d I (emit e))
    (enters : (id : String) → Keeps d I (enter id)) where
  after_join-Keeps : (j : Node) (t : Tally) (success : Bool) → Keeps d I (after_join j t success)
  unfolding after_join
  after_join-Keeps j t true = search advance-Keeps
  after_join-Keeps j t false = search (basic_rules, enters)

  close_join-Keeps :
      (fan : String) (j : Node) (t : Tally) (success : Bool)
      → Keeps d I (close_join fan j t success)
  unfolding close_join
  close_join-Keeps fan j t success = search (basic_rules, emits, after_join-Keeps) depth 9

  settle_join-Keeps :
      (fan : String) (j : Node) (t : Tally) (o : Option Bool) → Keeps d I (settle_join fan j t o)
  unfolding settle_join
  settle_join-Keeps fan j t none = Keeps-skip
  settle_join-Keeps fan j t (some success) = close_join-Keeps fan j t success

  pub eval_join-Keeps : (fan : String) → Keeps d I (eval_join fan)
  unfolding eval_join
  eval_join-Keeps fan = search (basic_rules, settle_join-Keeps) depth 9

  abort_map-Keeps : (n : Node) (index : ℕ) → Keeps d I (abort_map n index)
  unfolding abort_map
  abort_map-Keeps n index = search (basic_rules, emits, enters) depth 7

  settle_failure-Keeps :
      (n : Node) (item : Bool) (index : ℕ) (otherwise : Step)
      → Keeps d I otherwise
      → Keeps d I (settle_failure n item index otherwise)
  unfolding settle_failure
  settle_failure-Keeps n item index otherwise k =
      Keeps-if _ _ _ k (Keeps-if item _ _ (abort_map-Keeps n index) (enters n.on_failure))

  retry_task-Keeps : (n : Node) (t : Task) → Keeps d I (retry_task n t)
  unfolding retry_task
  retry_task-Keeps n t = search basic_rules

  give_up-Keeps :
      (found : Option Node) (t : Task) (msg : Msg) (reason : Reason)
      → Keeps d I (give_up found t msg reason)
  unfolding give_up
  give_up-Keeps found t msg reason =
      search (basic_rules, eval_join-Keeps, settle_failure-Keeps) depth 9

  after_failure-Keeps :
      (found : Option Node) (t : Task) (msg : Msg) (reason : Reason) (again : Bool)
      (over : Option Msg)
      → Keeps d I (after_failure found t msg reason again over)
  unfolding after_failure
  after_failure-Keeps found t msg reason again (some over) = search basic_rules
  after_failure-Keeps found t msg reason true none = search (basic_rules, retry_task-Keeps)
  after_failure-Keeps found t msg reason false none = give_up-Keeps found t msg reason

  attempt_left-Keeps :
      (t : Task) (found : Option Node) (retryable : Bool)
      → Keeps d I (attempt_left t found retryable)
  unfolding attempt_left
  attempt_left-Keeps t found true = search basic_rules
  attempt_left-Keeps t found false = search basic_rules

  pub task_failed-Keeps :
      (t : Task) (msg : Msg) (retryable : Bool) (reason : Reason) (usage : Map Float64)
      → Keeps d I (task_failed t msg retryable reason usage)
  unfolding task_failed
  task_failed-Keeps t msg retryable reason usage =
      search (basic_rules, emits, after_failure-Keeps, attempt_left-Keeps) depth 9

  pub fail_task-Keeps : (p : FailData) (t : Option Task) → Keeps d I (fail_task p t)
  unfolding fail_task
  fail_task-Keeps p none = Keeps-skip
  fail_task-Keeps p (some t) = task_failed-Keeps t _ _ _ _

  after_settle-Keeps : (t : Task) (n : Node) (dyn : String) → Keeps d I (after_settle t n dyn)
  unfolding after_settle
  after_settle-Keeps t n dyn =
      search (basic_rules, eval_join-Keeps, map_progress-Keeps, advance-Keeps) depth 9

  stop_over-Keeps :
      (at : String) (rest : Step) (over : Option Msg)
      → Keeps d I rest
      → Keeps d I (stop_over at rest over)
  unfolding stop_over
  stop_over-Keeps at rest none k = k
  stop_over-Keeps at rest (some problem) k = search basic_rules

  unless_over-Keeps : (at : String) (rest : Step) → Keeps d I rest → Keeps d I (unless_over at rest)
  unfolding unless_over
  unless_over-Keeps at rest k =
      Keeps-bind _ _ (Basics.over_budget_with-Keeps d I emits _)
        λ over. stop_over-Keeps at rest over k

  accept-Keeps :
      (p : CompleteData) (t : Task) (n : Node) (output : Raw) → Keeps d I (accept p t n output)
  unfolding accept
  accept-Keeps p t n output = search (keeps_rules, emits, unless_over-Keeps, after_settle-Keeps)

  judge_completion-Keeps :
      (p : CompleteData) (t : Task) (n : Node) (output : Raw) (problem : Option (Msg × Bool))
      → Keeps d I (judge_completion p t n output problem)
  unfolding judge_completion
  judge_completion-Keeps p t n output (some (problem, retryable)) = task_failed-Keeps t _ _ _ _
  judge_completion-Keeps p t n output none = accept-Keeps p t n output

  pub complete_task-Keeps : (p : CompleteData) (t : Option Task) → Keeps d I (complete_task p t)
  unfolding complete_task
  complete_task-Keeps p none = Keeps-skip
  complete_task-Keeps p (some t) = search (basic_rules, judge_completion-Keeps) depth 7

  pub interrupt_task-Keeps : (p : InterruptData) (t : Option Task) → Keeps d I (interrupt_task p t)
  unfolding interrupt_task
  interrupt_task-Keeps p none = Keeps-skip
  interrupt_task-Keeps p (some t) = search (keeps_rules, emits, unless_over-Keeps)

  child_settled-Keeps :
      (p : ChildDoneData) (name : String) (c : ChildState) (item success : Bool)
      (found : Option Node)
      → Keeps d I (child_settled p name c item success found)
  unfolding child_settled child_failure
  child_settled-Keeps p name c item success found =
      search (basic_rules, map_progress-Keeps, advance-Keeps, settle_failure-Keeps) depth 8

  after_child-Keeps :
      (p : ChildDoneData) (name : String) (c : ChildState) → Keeps d I (after_child p name c)
  unfolding after_child
  after_child-Keeps p name c = search (basic_rules, eval_join-Keeps, child_settled-Keeps) depth 8

  child_ended-Keeps :
      (p : ChildDoneData) (found : Option (String × ChildState)) → Keeps d I (child_ended p found)
  unfolding child_ended
  child_ended-Keeps p none = Keeps-skip
  child_ended-Keeps p (some (key, c)) =
      search (keeps_rules, emits, unless_over-Keeps, after_child-Keeps)

  pub end_child-Keeps : (p : ChildDoneData) → Keeps d I (end_child p)
  unfolding end_child
  end_child-Keeps p = search (keeps_rules, child_ended-Keeps)
