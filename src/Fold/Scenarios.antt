-- ===== src/Fold/Scenarios.antt =====
-- Runs of the fold on a small flow, and the theorems of internal/fold at them.
mod Settled
mod Maps
mod Forks
mod Signals
use packtrail.Prelude.{
  ◌+◌, ◌≡◌, ◌≢◌, refl, String, true, false, none, some, List, [], ◌∷◌, ltb, length, map,
}
use packtrail.GoMap.{Map, empty, get, put, keys}
use packtrail.Json.{Json, null, bool, num, str, arr, obj, end, field, Raw, to_items}
use packtrail.Outcome.{Result, ok, err, out_of_fuel}
use packtrail.Platform.{Platform}
use packtrail.Event
use packtrail.Event.{Payload}
use packtrail.Flow.{
  Flow, Node, NodeType, Channel, Program, Eval, Context, value, failure, append, sum, JoinKind,
  BranchStatus,
}
use packtrail.Cmd.{Request, Command}
use packtrail.Fold.State.{State, Ev, Status, new}
use packtrail.Fold.Apply.{apply_all}
use packtrail.Fold.Decide.{decide, at_work}
use packtrail.Fold.Decide.Monad.{
  Decider, Work, M, pure, raise, ask, look, deref, skip, ◌>>=◌, emit, new_event,
}
use packtrail.Fold.Apply.Nodes.{apply_writes}
use packtrail.Fold.Decide.Basics.{check_writes}
use packtrail.Fold.Replay.{decide_replays, decide_terminates}
use packtrail.Fold.Numbering.{Numbered, decide_numbers}
use packtrail.Fold.Writes.{Unwritten, checked_writes_fold}

abbrev pub host : Platform
host = record {
  fadd = λ a b. a + b;
  fgt = λ a b. ltb b a;
  finite = λ a. true;
  sha256 = λ s. 0 ∷ [];
}

abbrev pub blank : String → NodeType → Node
blank id type = record {
  id = id;
  type = type;
  next = "";
  on_failure = "";
  kind = "";
  timeout = 0;
  retry = none;
  dynamic = [];
  rules = [];
  programs = [];
  fails_on_error = false;
  branches = [];
  wait_for = [];
  policy = JoinKind.all;
  signal = "";
  on_timeout = "";
  over = λ c. value null;
  max_parallel = 0;
  flow = "";
  input = none;
  on_parent_close = "";
  schema = none;
}

abbrev pub flow_of : String → List Node → Flow
flow_of start nodes = record {
  name = "review";
  hash = "h";
  channels = ("notes", record { reducer = append; default = none }) ∷ [];
  output = none;
  budget = [];
  max_steps = 20;
  attrs = [];
  by_id = map (λ (n : Node). (n.id, n)) nodes;
  start_id = start;
  join_of = ("fan", "both") ∷ [];
}

-- a task, and a choice that ends the execution
abbrev pub review : Flow
review = flow_of "draft" (
    record (blank "draft" NodeType.task) { kind = "writer"; timeout = 60; next = "check" }
    ∷ record (blank "check" NodeType.choice) {
      rules =
          record { name = "done"; default = false; to = "$end" }
          ∷ record { name = ""; default = true; to = "draft" }
          ∷ [];
      programs = some (λ c. value (bool true)) ∷ none ∷ [];
    }
    ∷ [])

abbrev pub start_command : Command
start_command = record {
  id = "c1";
  request = Request.start (record { flow = "review"; version = ""; input = none; parent = none });
}

abbrev pub complete_command : Command
complete_command = record {
  id = "c2";
  request = Request.complete (record {
    ref = record { key = "draft"; generation = 1; attempt = 1 };
    output = some (obj end);
    writes = ("notes", some (str "n")) ∷ [];
    next = "";
    usage = [];
    cache_key = "";
    cached = false;
  });
}

pub work_after : Result (Unit {0} × Work) → Work
work_after (ok (u, w)) = w
work_after (err e) = at_work (new "")

abbrev pub state_after : Result (Unit {0} × Work) → State
state_after r = (work_after r).st

-- `decide`, with all that it calls open
pub run : Flow → State → Command → Result (Unit {0} × Work)
unfolding packtrail.GoMap.str_lt packtrail.GoMap.get packtrail.GoMap.put packtrail.GoMap.delete
    packtrail.Json.is_null packtrail.Json.is_object packtrail.Platform.itoa packtrail.Platform.hex
    packtrail.Platform.valid_token packtrail.Platform.child_id packtrail.Event.is_terminal
    packtrail.Flow.max_steps_or_default packtrail.Flow.node_of packtrail.Flow.wait_for
    packtrail.Flow.max_attempts packtrail.Flow.node_backoff packtrail.Flow.parent_close
    packtrail.Flow.validate_output packtrail.Flow.allows_dynamic packtrail.Fold.State.terminal
    packtrail.Fold.State.is_scheduled packtrail.Fold.State.is_retrying
    packtrail.Fold.State.is_interrupted packtrail.Fold.State.resumption packtrail.Fold.State.node_of
    packtrail.Fold.State.new packtrail.Fold.State.exists packtrail.Fold.State.is_open
    packtrail.Fold.State.recode packtrail.Fold.State.context_view
    packtrail.Fold.Reduce.reduce_append packtrail.Fold.Reduce.put_all
    packtrail.Fold.Reduce.reduce_merge packtrail.Fold.Reduce.reduce_sum packtrail.Fold.Reduce.reduce
    packtrail.Fold.Apply.terminate packtrail.Fold.Apply.put_defaults
    packtrail.Fold.Apply.channel_defaults packtrail.Fold.Apply.apply_started
    packtrail.Fold.Apply.apply_forked packtrail.Fold.Apply.bump packtrail.Fold.Apply.apply_event
    packtrail.Fold.Apply.any_active packtrail.Fold.Apply.computed_status
    packtrail.Fold.Apply.recompute packtrail.Fold.Apply.expected_index packtrail.Fold.Apply.finish
    packtrail.Fold.Apply.wrap_apply packtrail.Fold.Apply.finished packtrail.Fold.Apply.gap
    packtrail.Fold.Apply.without_gap packtrail.Fold.Apply.apply packtrail.Fold.Apply.seen
    packtrail.Fold.Apply.apply_all packtrail.Fold.Apply.fold
    packtrail.Fold.Apply.Nodes.kept_interrupt packtrail.Fold.Apply.Nodes.apply_scheduled
    packtrail.Fold.Apply.Nodes.reducer_in packtrail.Fold.Apply.Nodes.reducer_of
    packtrail.Fold.Apply.Nodes.apply_writes packtrail.Fold.Apply.Nodes.settle_fan
    packtrail.Fold.Apply.Nodes.settle packtrail.Fold.Apply.Nodes.settle_task
    packtrail.Fold.Apply.Nodes.run_of packtrail.Fold.Apply.Nodes.record_output
    packtrail.Fold.Apply.Nodes.done_by packtrail.Fold.Apply.Nodes.apply_node_done
    packtrail.Fold.Apply.Nodes.item_index packtrail.Fold.Apply.Nodes.failed_by
    packtrail.Fold.Apply.Nodes.apply_node_fail packtrail.Fold.Apply.Nodes.interrupted_by
    packtrail.Fold.Apply.Nodes.apply_update packtrail.Fold.Apply.Nodes.apply_node
    packtrail.Fold.Apply.Waits.forget_old packtrail.Fold.Apply.Waits.earlier
    packtrail.Fold.Apply.Waits.insert_by_time packtrail.Fold.Apply.Waits.sort_by_time
    packtrail.Fold.Apply.Waits.delete_first packtrail.Fold.Apply.Waits.cap_ids
    packtrail.Fold.Apply.Waits.remember_id packtrail.Fold.Apply.Waits.add_usage
    packtrail.Fold.Apply.Waits.close_timer packtrail.Fold.Apply.Waits.close_await
    packtrail.Fold.Apply.Waits.take_signal packtrail.Fold.Apply.Waits.use_signal
    packtrail.Fold.Apply.Waits.apply_signal_use packtrail.Fold.Apply.Waits.started_item
    packtrail.Fold.Apply.Waits.instance_key packtrail.Fold.Apply.Waits.apply_child
    packtrail.Fold.Apply.Waits.set_output packtrail.Fold.Apply.Waits.item_done
    packtrail.Fold.Apply.Waits.settle_branch packtrail.Fold.Apply.Waits.node_ended
    packtrail.Fold.Apply.Waits.item_map packtrail.Fold.Apply.Waits.ended_in
    packtrail.Fold.Apply.Waits.apply_child_done packtrail.Fold.Apply.Waits.apply_wait
    packtrail.Fold.Apply.Structure.pending_branches packtrail.Fold.Apply.Structure.owned_nodes
    packtrail.Fold.Apply.Structure.drop_children packtrail.Fold.Apply.Structure.drop_branches
    packtrail.Fold.Apply.Structure.close_fan packtrail.Fold.Apply.Structure.apply_join
    packtrail.Fold.Apply.Structure.map_ended packtrail.Fold.Apply.Structure.apply_structure
    packtrail.Fold.Decide.Monad.pure packtrail.Fold.Decide.Monad.raise
    packtrail.Fold.Decide.Monad.ask packtrail.Fold.Decide.Monad.look
    packtrail.Fold.Decide.Monad.deref packtrail.Fold.Decide.Monad.skip
    packtrail.Fold.Decide.Monad.◌>>=◌ packtrail.Fold.Decide.Monad.event_index
    packtrail.Fold.Decide.Monad.new_event packtrail.Fold.Decide.Monad.emitted
    packtrail.Fold.Decide.Monad.emit packtrail.Fold.Decide.Basics.node
    packtrail.Fold.Decide.Basics.alloc packtrail.Fold.Decide.Basics.is_done
    packtrail.Fold.Decide.Basics.unwanted packtrail.Fold.Decide.Basics.cancel_children
    packtrail.Fold.Decide.Basics.unwanted_of packtrail.Fold.Decide.Basics.owned_children
    packtrail.Fold.Decide.Basics.fail packtrail.Fold.Decide.Basics.cancel
    packtrail.Fold.Decide.Basics.timer_at packtrail.Fold.Decide.Basics.generation
    packtrail.Fold.Decide.Basics.schedule packtrail.Fold.Decide.Basics.is_current
    packtrail.Fold.Decide.Basics.current_task packtrail.Fold.Decide.Basics.current
    packtrail.Fold.Decide.Basics.budget_problem packtrail.Fold.Decide.Basics.over_budget_with
    packtrail.Fold.Decide.Basics.refusal packtrail.Fold.Decide.Basics.channel_problem
    packtrail.Fold.Decide.Basics.first_problem packtrail.Fold.Decide.Basics.check_writes
    packtrail.Fold.Decide.Basics.writes_problem packtrail.Fold.Decide.Basics.item_view
    packtrail.Fold.Decide.Basics.child_event packtrail.Fold.Decide.Basics.launch_object
    packtrail.Fold.Decide.Basics.refuse_input packtrail.Fold.Decide.Basics.launch
    packtrail.Fold.Decide.Basics.launch_with packtrail.Fold.Decide.Basics.launch_by
    packtrail.Fold.Decide.Basics.start_child packtrail.Fold.Decide.Basics.cancel_instance
    packtrail.Fold.Decide.Basics.cancel_owned_in packtrail.Fold.Decide.Basics.cancel_owned
    packtrail.Fold.Decide.Route.finish_object packtrail.Fold.Decide.Route.finish_with
    packtrail.Fold.Decide.Route.default_output packtrail.Fold.Decide.Route.finish_by
    packtrail.Fold.Decide.Route.complete_flow packtrail.Fold.Decide.Route.buffered_signal
    packtrail.Fold.Decide.Route.matches packtrail.Fold.Decide.Route.branch_start
    packtrail.Fold.Decide.Route.branch_step packtrail.Fold.Decide.Route.branch_loop
    packtrail.Fold.Decide.Route.fan_out packtrail.Fold.Decide.Route.item_start
    packtrail.Fold.Decide.Route.item_limit packtrail.Fold.Decide.Route.has_room
    packtrail.Fold.Decide.Route.item_round packtrail.Fold.Decide.Route.item_loop
    packtrail.Fold.Decide.Route.rule_error packtrail.Fold.Decide.Route.advance
    packtrail.Fold.Decide.Route.route packtrail.Fold.Decide.Route.fall_back
    packtrail.Fold.Decide.Route.judge packtrail.Fold.Decide.Route.evaluate
    packtrail.Fold.Decide.Route.rule_loop packtrail.Fold.Decide.Route.choose
    packtrail.Fold.Decide.Route.deliver packtrail.Fold.Decide.Route.consume
    packtrail.Fold.Decide.Route.start_await packtrail.Fold.Decide.Route.end_map
    packtrail.Fold.Decide.Route.map_progress packtrail.Fold.Decide.Route.map_over
    packtrail.Fold.Decide.Route.map_with packtrail.Fold.Decide.Route.start_map
    packtrail.Fold.Decide.Route.visit packtrail.Fold.Decide.Route.go_in
    packtrail.Fold.Decide.Route.enter_node packtrail.Fold.Decide.Route.enter_once
    packtrail.Fold.Decide.Route.enter_within packtrail.Fold.Decide.Route.enter
    packtrail.Fold.Decide.Join.count_branch packtrail.Fold.Decide.Join.tally
    packtrail.Fold.Decide.Join.needed packtrail.Fold.Decide.Join.waits_for_all
    packtrail.Fold.Decide.Join.join_outcome packtrail.Fold.Decide.Join.branch_outputs
    packtrail.Fold.Decide.Join.after_join packtrail.Fold.Decide.Join.close_join
    packtrail.Fold.Decide.Join.settle_join packtrail.Fold.Decide.Join.eval_join
    packtrail.Fold.Decide.Settle.abort_map packtrail.Fold.Decide.Settle.settle_failure
    packtrail.Fold.Decide.Settle.retry_task packtrail.Fold.Decide.Settle.give_up
    packtrail.Fold.Decide.Settle.after_failure packtrail.Fold.Decide.Settle.attempt_left
    packtrail.Fold.Decide.Settle.task_failed packtrail.Fold.Decide.Settle.fail_task
    packtrail.Fold.Decide.Settle.after_settle packtrail.Fold.Decide.Settle.stop_over
    packtrail.Fold.Decide.Settle.unless_over packtrail.Fold.Decide.Settle.schema_problem
    packtrail.Fold.Decide.Settle.completion_problem packtrail.Fold.Decide.Settle.accept
    packtrail.Fold.Decide.Settle.judge_completion packtrail.Fold.Decide.Settle.complete_task
    packtrail.Fold.Decide.Settle.interrupt_task packtrail.Fold.Decide.Settle.find_child
    packtrail.Fold.Decide.Settle.child_failure packtrail.Fold.Decide.Settle.child_settled
    packtrail.Fold.Decide.Settle.after_child packtrail.Fold.Decide.Settle.child_ended
    packtrail.Fold.Decide.Settle.end_child packtrail.Fold.Decide.check_join
    packtrail.Fold.Decide.search_attributes packtrail.Fold.Decide.begin packtrail.Fold.Decide.joined
    packtrail.Fold.Decide.join_existing packtrail.Fold.Decide.start
    packtrail.Fold.Decide.write_channels packtrail.Fold.Decide.update_channels
    packtrail.Fold.Decide.interrupted_task packtrail.Fold.Decide.resume_task
    packtrail.Fold.Decide.resume packtrail.Fold.Decide.deliver_to
    packtrail.Fold.Decide.signal_awaits packtrail.Fold.Decide.receive
    packtrail.Fold.Decide.receive_signal packtrail.Fold.Decide.time_out
    packtrail.Fold.Decide.await_fired packtrail.Fold.Decide.timeout_fired
    packtrail.Fold.Decide.next_attempt packtrail.Fold.Decide.retry_fired
    packtrail.Fold.Decide.after_timer packtrail.Fold.Decide.fire packtrail.Fold.Decide.fire_timer
    packtrail.Fold.Decide.handle packtrail.Fold.Decide.on_existing packtrail.Fold.Decide.dispatch
    packtrail.Fold.Decide.decide packtrail.Fold.Decide.Fork.rekick_task
    packtrail.Fold.Decide.Fork.rekick_tasks packtrail.Fold.Decide.Fork.rekick_awaits
    packtrail.Fold.Decide.Fork.child_ids packtrail.Fold.Decide.Fork.inherit
    packtrail.Fold.Decide.Fork.child_item packtrail.Fold.Decide.Fork.rekick_child
    packtrail.Fold.Decide.Fork.rekick_children packtrail.Fold.Decide.Fork.rekick
    packtrail.Fold.Decide.Fork.edit_fork packtrail.Fold.Decide.Fork.fork
    packtrail.Fold.Decide.Fork.decide_fork packtrail.Fold.Decide.Fork.with_segment
    packtrail.Fold.Decide.Fork.continue_as_new packtrail.Fold.Decide.Fork.first_event
    packtrail.Fold.Decide.Fork.abort_with packtrail.Fold.Decide.Fork.abort
run def s c = decide host def s c 5

abbrev pub started : Result (Unit {0} × Work)
started = run review (new "x") start_command

abbrev pub completed : Result (Unit {0} × Work)
completed = run review (state_after started) complete_command

started_run : length (work_after started).out ≡ 4
unfolding work_after run
started_run = refl

completed_run :
    ((state_after completed).status ≡ Status.completed)
    × ((state_after completed).output
        ≡ some (obj (field "notes" (arr (to_items (str "n" ∷ []))) end)))
unfolding work_after run
completed_run = (refl, refl)

started_ok : decide host review (new "x") start_command 5 ≡ ok (tt, work_after started)
unfolding work_after run
started_ok = refl

completed_ok :
    decide host review (state_after started) complete_command 5 ≡ ok (tt, work_after completed)
unfolding work_after run
completed_ok = refl

decide_replays_example :
    apply_all host (some review) (state_after started) (work_after completed).out
    ≡ ok (state_after completed)
decide_replays_example =
    decide_replays host review (state_after started) complete_command 5 {w = work_after completed}
      completed_ok

decide_terminates_example : decide host review (new "x") start_command 5 ≢ err out_of_fuel
decide_terminates_example = decide_terminates host review (new "x") start_command 5

decide_numbers_example :
    Numbered "c2" 5 (state_after started).events (work_after completed).out
    × ((state_after completed).events
        ≡ (state_after started).events + length (work_after completed).out)
decide_numbers_example =
    decide_numbers host review (state_after started) complete_command 5 {w = work_after completed}
      completed_ok

abbrev one_write : Map Raw
one_write = ("notes", some (str "n")) ∷ []

one_write_ok : check_writes review host [] one_write ≡ none
unfolding run
one_write_ok = refl

checked_writes_fold_example :
    (m : Map Raw) × (apply_writes host (some review) [] one_write ≡ ok m)
    × ((k : String) → Unwritten k one_write → get m k ≡ get [] k)
checked_writes_fold_example = checked_writes_fold review host [] one_write (tt, tt) one_write_ok
