-- ===== src/Engine/Tests.antt =====
-- Runs of an engine on a server in memory, and the theorems at them.
use packtrail.Prelude.{
  ℕ, zero, suc, ◌+◌, ◌≤◌, ◌<◌, ◌≡◌, ◌≢◌, refl, ap, sym, subst, String, Option, none, some, pos,
  List, [], ◌∷◌, ◌++◌, ◌∙◌, arith, leb, true, length, inl, inr,
}
use packtrail.Outcome.{out_of_fuel, Result, ok, err, ok_inj}
use packtrail.Platform.{Platform}
use packtrail.Event.{Payload, cancelled, signal}
use packtrail.Flow.{Flow}
use packtrail.Cmd.{Request, Order, Envelope}
use packtrail.Fold.State.{State, Ev, recode}
use packtrail.Fold.Decide.{decide, on_existing, dispatch, handle, at_work, decider_for}
use packtrail.Fold.Decide.Basics.{is_done, cancel, cancel_children}
use packtrail.Fold.Decide.Monad.{Decider, Work, Step, emit, raise, skip, look, ◌>>=◌, new_event}
use packtrail.Fold.Scenarios.{host, review, complete_command}
use packtrail.Log.{read}
use packtrail.Log.Returns.{read_returns}
use packtrail.Loader.{Entry, load}
use packtrail.StateCache.{Cache, new_cache, lookup}
use packtrail.GoMap.{get}
use packtrail.Engine.{
  Engine, World, Round, stored, no_op, conflicted, ended, max_of, decide_folded, round, rounds,
  load_entry, max_conflicts, decide_on, Decision, settled,
}
use packtrail.Engine.Serial.{Evolves, IsSerial}
use packtrail.Engine.Rounds.{Relies, at_load, IsWithin, AreWithin, IsCoherent, rounds-IsSerial}
use packtrail.Engine.Memory.{Stream, memory, memory-IsHonest, on_subject, subject_next, review_only}
use packtrail.Infra.{Infra, Message, last_seq, from_seq}
use packtrail.Loader.Snapshots.{Fits, load_exact}
use packtrail.Loader.Reference.{none_yet, state_of}

abbrev complete_it : Envelope
complete_it = record {
  id = "x9";
  exec_id = "e1";
  reply = "";
  order = Order.fold complete_command.request;
}

abbrev start_it : Envelope
start_it = record {
  id = "x1";
  exec_id = "e1";
  reply = "";
  order =
      Order.fold
        (Request.start (record { flow = "review"; version = ""; input = none; parent = none }));
}

-- what another engine appends to the log of `e1`: it hands a signal in
abbrev signalled : Ev
signalled = record {
  time = 5;
  index = 5;
  cmd_id = "x2";
  payload = signal (record { name = "hint"; id = "x2"; payload = none });
  seq = 0;
}

-- an engine; in the first round of a command another one writes between the load and the append
abbrev interrupted_at : ℕ → Stream → Stream
interrupted_at zero s = ("e1", signalled, []) ∷ s
interrupted_at (suc k) s = s

abbrev unsaved : Infra
unsaved = memory (λ id. none)

abbrev undisturbed : Engine unsaved
undisturbed = record {
  max_events = 0;
  evict = λ m. "e1";
  clock = λ k. 3;
  torn = λ s. s;
  before_load = λ k s. s;
  before_append = λ k s. s;
}

abbrev disturbed : Engine unsaved
disturbed = record undisturbed { before_append = interrupted_at }

abbrev at_start : World unsaved
at_start = record { server = []; cache = new_cache (pos 10) }

abbrev started : World unsaved × Round
started = rounds host unsaved undisturbed max_conflicts 0 at_start start_it

-- an engine that has just started, with an empty cache
abbrev restarted : Stream → World unsaved
restarted s = record { server = s; cache = new_cache (pos 10) }

-- the completion conflicts with the signal, is decided again and appended after it
abbrev after_completion : World unsaved × Round
after_completion =
    rounds host unsaved disturbed max_conflicts 0 (restarted started.0.server) complete_it

abbrev entry_of : Round → Entry
entry_of (stored q ent b) = ent
entry_of _ = none_yet "e1"

last_added :
    (ms : List Message) (q : ℕ)
    → last_seq (ms ++ record { seq = q; first = signalled; rest = [] } ∷ []) ≡ q
unfolding last_seq
last_added [] q = refl
last_added (m ∷ []) q = refl
last_added (m ∷ n ∷ ms) q = last_added (n ∷ ms) q

signal-Evolves : (k : ℕ) (s : Stream) → Evolves host unsaved "e1" s (interrupted_at k s)
signal-Evolves zero s = record {
  top_le = omega arith;
  moved = inr (
      subst (λ (M : List Message). length s < last_seq M) (sym (subject_next s "e1" signalled []))
        (omega (arith, last_added (on_subject s "e1") (suc (length s)))));
}
signal-Evolves (suc k) s = record { top_le = omega arith; moved = inl (refl, refl) }

disturbed-Relies : Relies host unsaved disturbed "e1"
disturbed-Relies = record {
  loads = λ k s. record { top_le = omega arith; moved = inl (refl, refl) };
  appends = signal-Evolves;
  snapshots = λ s st h. absurd (cc);
}

abbrev before_signal : State
before_signal = (entry_of started.1).st

-- a server that keeps a snapshot of `e1` from before the signal
abbrev saved : String → Option State
saved id = some before_signal

abbrev saving : Infra
saving = memory saved

abbrev with_signal : Stream
with_signal = ("e1", signalled, []) ∷ started.0.server

abbrev loaded : Result Entry
loaded = load host saving with_signal "e1" 0

abbrev found_in : Result Entry → Entry
found_in (ok ent) = ent
found_in (err e) = none_yet "e1"

abbrev until_saved : List Message
until_saved = on_subject started.0.server "e1"

-- the worlds of the two rounds of the completion, with what they load and decide
abbrev first_world : World unsaved
first_world = restarted started.0.server

abbrev second_world : World unsaved
second_world = (round host unsaved disturbed first_world 0 complete_it).0

abbrev entry_in : ℕ → World unsaved → Entry
entry_in k w = found_in (load_entry host unsaved disturbed (at_load unsaved disturbed k w) "e1")

abbrev decision_in : ℕ → World unsaved → Result Decision
decision_in k w =
    decide_on host unsaved (at_load unsaved disturbed k w).server complete_it complete_it.order
      (entry_in k w) 3

abbrev count : Result Decision → ℕ
count (ok d) = length d.evs
count (err e) = 0

-- the round loads a state, decides on it, and the decision is small
abbrev IsShort : ℕ → World unsaved → Type 0
IsShort k w =
    (load_entry host unsaved disturbed (at_load unsaved disturbed k w) "e1" ≡ ok (entry_in k w))
    × (leb (count (decision_in k w)) 1000 ≡ true)

-- the runs, with all that they call open

runs :
    (rounds host unsaved disturbed max_conflicts 0 (restarted started.0.server) complete_it
      ≡ (after_completion.0, stored 3 (entry_of after_completion.1) 5))
    × (loaded ≡ ok (found_in loaded))
    × (before_signal.last_seq ≤ saving.top with_signal)
    × ((found_in loaded).st.last_seq ≡ 2)
    × (last_seq (on_subject with_signal "e1") ≡ 2)
    × (review_only before_signal.flow before_signal.flow_hash ≡ ok review)
    × (on_subject with_signal "e1"
        ≡ until_saved ++ from_seq (before_signal.last_seq + 1) (on_subject with_signal "e1"))
    × (state_of host saving "e1" until_saved
        ≡ ok (record { st = before_signal; def = some review }))
    × IsShort 0 first_world
    × IsShort 1 second_world
    × ((round host unsaved disturbed second_world 1 complete_it).1
        ≡ stored 3 (entry_of after_completion.1) 5)
    × (recode before_signal ≡ before_signal)
unfolding packtrail.Loader.Reference.state_of packtrail.GoMap.str_lt packtrail.GoMap.get
    packtrail.GoMap.put packtrail.GoMap.delete packtrail.Json.is_null packtrail.Json.is_object
    packtrail.Platform.itoa packtrail.Platform.hex packtrail.Platform.valid_token
    packtrail.Platform.child_id packtrail.Event.is_terminal packtrail.Flow.max_steps_or_default
    packtrail.Flow.node_of packtrail.Flow.wait_for packtrail.Flow.max_attempts
    packtrail.Flow.node_backoff packtrail.Flow.parent_close packtrail.Flow.validate_output
    packtrail.Flow.allows_dynamic packtrail.Fold.State.terminal packtrail.Fold.State.is_scheduled
    packtrail.Fold.State.is_retrying packtrail.Fold.State.is_interrupted
    packtrail.Fold.State.resumption packtrail.Fold.State.node_of packtrail.Fold.State.new
    packtrail.Fold.State.exists packtrail.Fold.State.is_open packtrail.Fold.State.recode
    packtrail.Fold.State.context_view packtrail.Fold.Reduce.reduce_append
    packtrail.Fold.Reduce.put_all packtrail.Fold.Reduce.reduce_merge
    packtrail.Fold.Reduce.reduce_sum packtrail.Fold.Reduce.reduce packtrail.Fold.Apply.terminate
    packtrail.Fold.Apply.put_defaults packtrail.Fold.Apply.channel_defaults
    packtrail.Fold.Apply.apply_started packtrail.Fold.Apply.apply_forked packtrail.Fold.Apply.bump
    packtrail.Fold.Apply.apply_event packtrail.Fold.Apply.any_active
    packtrail.Fold.Apply.computed_status packtrail.Fold.Apply.recompute
    packtrail.Fold.Apply.expected_index packtrail.Fold.Apply.finish packtrail.Fold.Apply.wrap_apply
    packtrail.Fold.Apply.finished packtrail.Fold.Apply.gap packtrail.Fold.Apply.without_gap
    packtrail.Fold.Apply.apply packtrail.Fold.Apply.seen packtrail.Fold.Apply.apply_all
    packtrail.Fold.Apply.fold packtrail.Fold.Apply.Nodes.kept_interrupt
    packtrail.Fold.Apply.Nodes.apply_scheduled packtrail.Fold.Apply.Nodes.reducer_in
    packtrail.Fold.Apply.Nodes.reducer_of packtrail.Fold.Apply.Nodes.apply_writes
    packtrail.Fold.Apply.Nodes.settle_fan packtrail.Fold.Apply.Nodes.settle
    packtrail.Fold.Apply.Nodes.settle_task packtrail.Fold.Apply.Nodes.run_of
    packtrail.Fold.Apply.Nodes.record_output packtrail.Fold.Apply.Nodes.done_by
    packtrail.Fold.Apply.Nodes.apply_node_done packtrail.Fold.Apply.Nodes.item_index
    packtrail.Fold.Apply.Nodes.failed_by packtrail.Fold.Apply.Nodes.apply_node_fail
    packtrail.Fold.Apply.Nodes.interrupted_by packtrail.Fold.Apply.Nodes.apply_update
    packtrail.Fold.Apply.Nodes.apply_node packtrail.Fold.Apply.Waits.forget_old
    packtrail.Fold.Apply.Waits.earlier packtrail.Fold.Apply.Waits.insert_by_time
    packtrail.Fold.Apply.Waits.sort_by_time packtrail.Fold.Apply.Waits.delete_first
    packtrail.Fold.Apply.Waits.cap_ids packtrail.Fold.Apply.Waits.remember_id
    packtrail.Fold.Apply.Waits.add_usage packtrail.Fold.Apply.Waits.close_timer
    packtrail.Fold.Apply.Waits.close_await packtrail.Fold.Apply.Waits.take_signal
    packtrail.Fold.Apply.Waits.use_signal packtrail.Fold.Apply.Waits.apply_signal_use
    packtrail.Fold.Apply.Waits.started_item packtrail.Fold.Apply.Waits.instance_key
    packtrail.Fold.Apply.Waits.apply_child packtrail.Fold.Apply.Waits.set_output
    packtrail.Fold.Apply.Waits.item_done packtrail.Fold.Apply.Waits.settle_branch
    packtrail.Fold.Apply.Waits.node_ended packtrail.Fold.Apply.Waits.item_map
    packtrail.Fold.Apply.Waits.ended_in packtrail.Fold.Apply.Waits.apply_child_done
    packtrail.Fold.Apply.Waits.apply_wait packtrail.Fold.Apply.Structure.pending_branches
    packtrail.Fold.Apply.Structure.owned_nodes packtrail.Fold.Apply.Structure.drop_children
    packtrail.Fold.Apply.Structure.drop_branches packtrail.Fold.Apply.Structure.close_fan
    packtrail.Fold.Apply.Structure.apply_join packtrail.Fold.Apply.Structure.map_ended
    packtrail.Fold.Apply.Structure.apply_structure packtrail.Fold.Decide.Monad.pure
    packtrail.Fold.Decide.Monad.raise packtrail.Fold.Decide.Monad.ask
    packtrail.Fold.Decide.Monad.look packtrail.Fold.Decide.Monad.deref
    packtrail.Fold.Decide.Monad.skip packtrail.Fold.Decide.Monad.◌>>=◌
    packtrail.Fold.Decide.Monad.event_index packtrail.Fold.Decide.Monad.new_event
    packtrail.Fold.Decide.Monad.emitted packtrail.Fold.Decide.Monad.emit
    packtrail.Fold.Decide.Basics.node packtrail.Fold.Decide.Basics.alloc
    packtrail.Fold.Decide.Basics.is_done packtrail.Fold.Decide.Basics.unwanted
    packtrail.Fold.Decide.Basics.cancel_children packtrail.Fold.Decide.Basics.unwanted_of
    packtrail.Fold.Decide.Basics.owned_children packtrail.Fold.Decide.Basics.fail
    packtrail.Fold.Decide.Basics.cancel packtrail.Fold.Decide.Basics.timer_at
    packtrail.Fold.Decide.Basics.generation packtrail.Fold.Decide.Basics.schedule
    packtrail.Fold.Decide.Basics.is_current packtrail.Fold.Decide.Basics.current_task
    packtrail.Fold.Decide.Basics.current packtrail.Fold.Decide.Basics.budget_problem
    packtrail.Fold.Decide.Basics.over_budget_with packtrail.Fold.Decide.Basics.refusal
    packtrail.Fold.Decide.Basics.channel_problem packtrail.Fold.Decide.Basics.first_problem
    packtrail.Fold.Decide.Basics.check_writes packtrail.Fold.Decide.Basics.writes_problem
    packtrail.Fold.Decide.Basics.item_view packtrail.Fold.Decide.Basics.child_event
    packtrail.Fold.Decide.Basics.launch_object packtrail.Fold.Decide.Basics.refuse_input
    packtrail.Fold.Decide.Basics.launch packtrail.Fold.Decide.Basics.launch_with
    packtrail.Fold.Decide.Basics.launch_by packtrail.Fold.Decide.Basics.start_child
    packtrail.Fold.Decide.Basics.cancel_instance packtrail.Fold.Decide.Basics.cancel_owned_in
    packtrail.Fold.Decide.Basics.cancel_owned packtrail.Fold.Decide.Route.finish_object
    packtrail.Fold.Decide.Route.finish_with packtrail.Fold.Decide.Route.default_output
    packtrail.Fold.Decide.Route.finish_by packtrail.Fold.Decide.Route.complete_flow
    packtrail.Fold.Decide.Route.buffered_signal packtrail.Fold.Decide.Route.matches
    packtrail.Fold.Decide.Route.branch_start packtrail.Fold.Decide.Route.branch_step
    packtrail.Fold.Decide.Route.branch_loop packtrail.Fold.Decide.Route.fan_out
    packtrail.Fold.Decide.Route.item_start packtrail.Fold.Decide.Route.item_limit
    packtrail.Fold.Decide.Route.has_room packtrail.Fold.Decide.Route.item_round
    packtrail.Fold.Decide.Route.item_loop packtrail.Fold.Decide.Route.rule_error
    packtrail.Fold.Decide.Route.advance packtrail.Fold.Decide.Route.route
    packtrail.Fold.Decide.Route.fall_back packtrail.Fold.Decide.Route.judge
    packtrail.Fold.Decide.Route.evaluate packtrail.Fold.Decide.Route.rule_loop
    packtrail.Fold.Decide.Route.choose packtrail.Fold.Decide.Route.deliver
    packtrail.Fold.Decide.Route.consume packtrail.Fold.Decide.Route.start_await
    packtrail.Fold.Decide.Route.end_map packtrail.Fold.Decide.Route.map_progress
    packtrail.Fold.Decide.Route.map_over packtrail.Fold.Decide.Route.map_with
    packtrail.Fold.Decide.Route.start_map packtrail.Fold.Decide.Route.visit
    packtrail.Fold.Decide.Route.go_in packtrail.Fold.Decide.Route.enter_node
    packtrail.Fold.Decide.Route.enter_once packtrail.Fold.Decide.Route.enter_within
    packtrail.Fold.Decide.Route.enter packtrail.Fold.Decide.Join.count_branch
    packtrail.Fold.Decide.Join.tally packtrail.Fold.Decide.Join.needed
    packtrail.Fold.Decide.Join.waits_for_all packtrail.Fold.Decide.Join.join_outcome
    packtrail.Fold.Decide.Join.branch_outputs packtrail.Fold.Decide.Join.after_join
    packtrail.Fold.Decide.Join.close_join packtrail.Fold.Decide.Join.settle_join
    packtrail.Fold.Decide.Join.eval_join packtrail.Fold.Decide.Settle.abort_map
    packtrail.Fold.Decide.Settle.settle_failure packtrail.Fold.Decide.Settle.retry_task
    packtrail.Fold.Decide.Settle.give_up packtrail.Fold.Decide.Settle.after_failure
    packtrail.Fold.Decide.Settle.attempt_left packtrail.Fold.Decide.Settle.task_failed
    packtrail.Fold.Decide.Settle.fail_task packtrail.Fold.Decide.Settle.after_settle
    packtrail.Fold.Decide.Settle.stop_over packtrail.Fold.Decide.Settle.unless_over
    packtrail.Fold.Decide.Settle.schema_problem packtrail.Fold.Decide.Settle.completion_problem
    packtrail.Fold.Decide.Settle.accept packtrail.Fold.Decide.Settle.judge_completion
    packtrail.Fold.Decide.Settle.complete_task packtrail.Fold.Decide.Settle.interrupt_task
    packtrail.Fold.Decide.Settle.find_child packtrail.Fold.Decide.Settle.child_failure
    packtrail.Fold.Decide.Settle.child_settled packtrail.Fold.Decide.Settle.after_child
    packtrail.Fold.Decide.Settle.child_ended packtrail.Fold.Decide.Settle.end_child
    packtrail.Fold.Decide.check_join packtrail.Fold.Decide.search_attributes
    packtrail.Fold.Decide.begin packtrail.Fold.Decide.joined packtrail.Fold.Decide.join_existing
    packtrail.Fold.Decide.start packtrail.Fold.Decide.write_channels
    packtrail.Fold.Decide.update_channels packtrail.Fold.Decide.interrupted_task
    packtrail.Fold.Decide.resume_task packtrail.Fold.Decide.resume packtrail.Fold.Decide.deliver_to
    packtrail.Fold.Decide.signal_awaits packtrail.Fold.Decide.receive
    packtrail.Fold.Decide.receive_signal packtrail.Fold.Decide.time_out
    packtrail.Fold.Decide.await_fired packtrail.Fold.Decide.timeout_fired
    packtrail.Fold.Decide.next_attempt packtrail.Fold.Decide.retry_fired
    packtrail.Fold.Decide.after_timer packtrail.Fold.Decide.fire packtrail.Fold.Decide.fire_timer
    packtrail.Fold.Decide.handle packtrail.Fold.Decide.on_existing packtrail.Fold.Decide.dispatch
    packtrail.Fold.Decide.decide packtrail.Fold.Decide.Fork.rekick_task
    packtrail.Fold.Decide.Fork.rekick_tasks packtrail.Fold.Decide.Fork.rekick_awaits
    packtrail.Fold.Decide.Fork.child_ids packtrail.Fold.Decide.Fork.inherit
    packtrail.Fold.Decide.Fork.child_item packtrail.Fold.Decide.Fork.rekick_child
    packtrail.Fold.Decide.Fork.rekick_children packtrail.Fold.Decide.Fork.rekick
    packtrail.Fold.Decide.Fork.edit_fork packtrail.Fold.Decide.Fork.fork
    packtrail.Fold.Decide.Fork.decide_fork packtrail.Fold.Decide.Fork.with_segment
    packtrail.Fold.Decide.Fork.continue_as_new packtrail.Fold.Decide.Fork.first_event
    packtrail.Fold.Decide.Fork.abort_with packtrail.Fold.Decide.Fork.abort
    packtrail.Engine.start_new packtrail.Engine.decide_start packtrail.Engine.fork_source
    packtrail.Engine.without_source packtrail.Engine.fork_from packtrail.Engine.decide_fork
    packtrail.Engine.decide_folded packtrail.Engine.decide_on packtrail.Engine.abort_by
    packtrail.Engine.first_def packtrail.Engine.abort_new packtrail.Engine.abort_too_large
    packtrail.Engine.max_of packtrail.Engine.shared packtrail.Engine.load_entry
    packtrail.Engine.dropped packtrail.Engine.after_load_error packtrail.Engine.torn_cache
    packtrail.Engine.after_decision_error packtrail.Engine.fit_decision
    packtrail.Engine.fitted_cache packtrail.Engine.appended packtrail.Engine.append_fitted
    packtrail.Engine.decided_events packtrail.Engine.decided packtrail.Engine.decide_entry
    packtrail.Engine.round packtrail.Engine.unless_conflicted packtrail.Engine.rounds
    packtrail.Loader.is_base packtrail.Loader.since_base packtrail.Loader.is_continued
    packtrail.Loader.since_continued packtrail.Loader.fold_events packtrail.Loader.fold_to
    packtrail.Loader.def_of packtrail.Loader.fold_up_to packtrail.Loader.segment_events
    packtrail.Loader.behind_segments packtrail.Loader.segments_before packtrail.Loader.with_segments
    packtrail.Loader.from_live packtrail.Loader.load_from_history packtrail.Loader.snapshot_for
    packtrail.Loader.covers packtrail.Loader.continues packtrail.Loader.fold_base
    packtrail.Loader.fold_after packtrail.Loader.fold_found packtrail.Loader.load_after
    packtrail.Loader.load packtrail.Loader.from_archive packtrail.Loader.load_archived
    packtrail.Loader.live_or_archived packtrail.Loader.history packtrail.Log.stamped
    packtrail.Log.events_of packtrail.Log.up_to packtrail.Log.stops packtrail.Log.next_from
    packtrail.Log.read_batch packtrail.Log.read_loop packtrail.Log.read packtrail.Log.append
    packtrail.Infra.from_seq packtrail.Infra.last_seq packtrail.StateCache.new_cache
    packtrail.StateCache.lookup packtrail.StateCache.make_room packtrail.StateCache.store
    packtrail.StateCache.drop packtrail.Engine.Memory.on_subject packtrail.Engine.Memory.store_next
    packtrail.Engine.Memory.review_only
runs =
    (refl, refl, omega arith, refl, refl, refl, refl, refl, (refl, refl), (refl, refl), refl, refl)

small : (n : ℕ) → leb n 1000 ≡ true → n ≤ 1000
small n h = ground (arith, h)

short-IsWithin :
    (k : ℕ) (w : World unsaved) → IsShort k w → IsWithin host unsaved disturbed k w complete_it
unfolding max_of
short-IsWithin k w short ent d found h =
    let is : entry_in k w ≡ ent = ok_inj (sym short.0 ∙ found) in
    let decided : decision_in k w ≡ ok d =
      subst
        (λ (x : Entry).
          decide_on host unsaved (at_load unsaved disturbed k w).server complete_it
            complete_it.order x 3
          ≡ ok d)
        (sym is) h in
    omega (arith, ap count decided, small (count (decision_in k w)) short.1)

completion-AreWithin : AreWithin host unsaved disturbed max_conflicts 0 first_world complete_it
completion-AreWithin = (
  short-IsWithin 0 first_world runs.8,
  λ conflict. (short-IsWithin 1 second_world runs.9, λ again. absurd (cc (runs.10, again))),
)

nothing_cached : IsCoherent host unsaved (restarted started.0.server) "e1"
unfolding lookup new_cache get
nothing_cached ent hit = absurd (cc)

rounds-IsSerial_example :
    (k : ℕ) × (s1 s2 : Stream) × IsSerial host unsaved disturbed k complete_it s1 s2
      after_completion.0 3
      (entry_of after_completion.1)
rounds-IsSerial_example =
    rounds-IsSerial host unsaved disturbed complete_it (restarted started.0.server)
      after_completion.0 3 5 (entry_of after_completion.1) (memory-IsHonest (λ id. none))
      disturbed-Relies tt nothing_cached completion-AreWithin runs.0

signal-Fits :
    Fits host saving "e1" (saving.top with_signal) (on_subject with_signal "e1") before_signal
signal-Fits = record {
  reached = runs.2;
  before = until_saved;
  split = runs.6;
  def = review;
  found = runs.5;
  stands = λ h. runs.7;
}

saved-Fits :
    (st : State)
    → saving.snapshot with_signal "e1" ≡ some st
    → Fits host saving "e1" (saving.top with_signal) (on_subject with_signal "e1") (recode st)
saved-Fits st h =
    let is : before_signal ≡ st = cc h in
    subst (Fits host saving "e1" (saving.top with_signal) (on_subject with_signal "e1"))
      (sym runs.11 ∙ ap recode is) signal-Fits

load_exact_example : state_of host saving "e1" (on_subject with_signal "e1") ≡ ok (found_in loaded)
load_exact_example =
    load_exact host saving with_signal "e1" (memory-IsHonest saved) saved-Fits runs.1
      (runs.3 ∙ sym runs.4)

read_returns_example : read saving with_signal "e1" 1 1 ≢ err out_of_fuel
read_returns_example = read_returns saving with_signal "e1" 1 1 (memory-IsHonest saved)
