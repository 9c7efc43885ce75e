-- ===== src/Fold/Rules/Decide.antt =====
-- Whatever the events of a command keep, the decision on the command keeps, and it does not run out
-- of fuel.
use packtrail.Prelude.{
  ℕ, String, Bool, true, false, Option, none, some, [], ◌∷◌, str_eq, if◌then◌else◌,
}
use packtrail.GoMap.{Map}
use packtrail.Json.{Raw}
use packtrail.Outcome.{Msg, Err, ok, err}
use packtrail.Platform.{Platform}
use packtrail.Event.{Payload, Purpose, Timer}
use packtrail.Flow.{Flow}
use packtrail.Cmd.{StartData, ResumeData, SignalData, Request, Command}
use packtrail.Fold.State.{State, Task, AwaitState}
use packtrail.Fold.Decide.{
  check_join, begin, joined, join_existing, start, write_channels, update_channels, resume_task,
  resume, deliver_to, signal_awaits, receive, receive_signal, time_out, await_fired, timeout_fired,
  next_attempt, retry_fired, after_timer, fire, fire_timer, handle, on_existing, dispatch, decide,
  at_work, decider_for,
}
use packtrail.Fold.Decide.Monad.{Decider, Work, emit}
use packtrail.Fold.Decide.Route.{enter}
use packtrail.Fold.Rules.{
  Holds, Keeps, Keeps-raise, Keeps-skip, Keeps-bind, Keeps-if, Keeps-look, Keeps-ask, keeps_rules,
}
use packtrail.Fold.Rules.Basics
use packtrail.Fold.Rules.Basics.{IsPlain, IsOngoing, ongoing-IsPlain, basic_rules}
use packtrail.Fold.Rules.Route.{consume-Keeps}
use packtrail.Fold.Rules.Enter.{enter-Keeps}
use packtrail.Fold.Rules.Settle.{
  task_failed-Keeps, fail_task-Keeps, complete_task-Keeps, interrupt_task-Keeps, end_child-Keeps,
}

module _ (d : Decider) (I : Work → Type 0)
    (emits : (e : Payload State) → IsOngoing e → Keeps d I (emit e)) where
  enters : (id : String) → Keeps d I (enter id)
  enters = enter-Keeps d I emits

  write_channels-Keeps :
      (writes : Map Raw) (problem : Option Msg) → Keeps d I (write_channels writes problem)
  unfolding write_channels
  write_channels-Keeps writes (some problem) = Keeps-raise Err.invalid (λ e. cc)
  write_channels-Keeps writes none = search (keeps_rules, emits)

  update_channels-Keeps : (writes : Map Raw) → Keeps d I (update_channels writes)
  unfolding update_channels
  update_channels-Keeps [] = Keeps-raise Err.invalid (λ e. cc)
  update_channels-Keeps (e ∷ writes) = search (basic_rules, write_channels-Keeps) depth 7

  resume_task-Keeps : (p : ResumeData) (t : Option Task) → Keeps d I (resume_task p t)
  unfolding resume_task
  resume_task-Keeps p none = Keeps-skip
  resume_task-Keeps p (some t) = search basic_rules

  resume-Keeps : (p : ResumeData) → Keeps d I (resume p)
  unfolding resume
  resume-Keeps p = search (keeps_rules, resume_task-Keeps)

  deliver_to-Keeps : (name : String) → Keeps d I (deliver_to name)
  unfolding deliver_to
  deliver_to-Keeps name = search (basic_rules, consume-Keeps, enters) depth 6

  signal_awaits-Keeps :
      (p : SignalData) (awaits : Map AwaitState) → Keeps d I (signal_awaits p awaits)
  unfolding signal_awaits
  signal_awaits-Keeps p [] = Keeps-skip
  signal_awaits-Keeps p ((name, a) ∷ awaits) =
      Keeps-if _ _ _ (deliver_to-Keeps name) (signal_awaits-Keeps p awaits)

  receive-Keeps : (p : SignalData) → Keeps d I (receive p)
  unfolding receive
  receive-Keeps p = search (keeps_rules, emits, signal_awaits-Keeps)

  receive_signal-Keeps : (p : SignalData) → Keeps d I (receive_signal p)
  unfolding receive_signal
  receive_signal-Keeps p = Keeps-bind _ _ (Keeps-ask _) λ id. Keeps-bind _ _ (Keeps-look _) λ seen.
      Keeps-if _ _ _ (Keeps-raise Err.invalid (λ e. cc))
        (Keeps-if seen _ _ Keeps-skip (receive-Keeps p))

  time_out-Keeps : (tm : Timer) → Keeps d I (time_out tm)
  unfolding time_out
  time_out-Keeps tm = search (basic_rules, emits, enters) depth 8

  await_fired-Keeps : (tm : Timer) (a : Option AwaitState) → Keeps d I (await_fired tm a)
  unfolding await_fired
  await_fired-Keeps tm none = Keeps-skip
  await_fired-Keeps tm (some a) = search (keeps_rules, time_out-Keeps)

  timeout_fired-Keeps : (t : Option Task) → Keeps d I (timeout_fired t)
  unfolding timeout_fired
  timeout_fired-Keeps none = Keeps-skip
  timeout_fired-Keeps (some t) = task_failed-Keeps d I emits enters t _ _ _ _

  next_attempt-Keeps : (tm : Timer) (t : Task) → Keeps d I (next_attempt tm t)
  unfolding next_attempt
  next_attempt-Keeps tm t = search basic_rules

  retry_fired-Keeps : (tm : Timer) (t : Option Task) → Keeps d I (retry_fired tm t)
  unfolding retry_fired
  retry_fired-Keeps tm none = Keeps-skip
  retry_fired-Keeps tm (some t) = search (keeps_rules, next_attempt-Keeps)

  after_timer-Keeps : (tm : Timer) (purpose : Purpose) → Keeps d I (after_timer tm purpose)
  unfolding after_timer
  after_timer-Keeps tm Purpose.retry = search (keeps_rules, retry_fired-Keeps)
  after_timer-Keeps tm Purpose.attempt_timeout = search (basic_rules, timeout_fired-Keeps)
  after_timer-Keeps tm Purpose.await = search (keeps_rules, await_fired-Keeps)

  fire-Keeps : (tm : Option Timer) → Keeps d I (fire tm)
  unfolding fire
  fire-Keeps none = Keeps-skip
  fire-Keeps (some tm) = search (keeps_rules, emits, after_timer-Keeps)

  fire_timer-Keeps : (id : String) → Keeps d I (fire_timer id)
  unfolding fire_timer
  fire_timer-Keeps id = search (keeps_rules, fire-Keeps)

  handle-Keeps : (r : Request) → Keeps d I (handle r)
  unfolding handle
  handle-Keeps (Request.complete p) = search (basic_rules, complete_task-Keeps, enters)
  handle-Keeps (Request.fail p) = search (basic_rules, fail_task-Keeps, enters)
  handle-Keeps (Request.interrupt p) = search (basic_rules, interrupt_task-Keeps, enters)
  handle-Keeps (Request.resume p) = resume-Keeps p
  handle-Keeps (Request.signal p) = receive_signal-Keeps p
  handle-Keeps (Request.cancel reason) = Basics.cancel-Keeps d I emits reason
  handle-Keeps (Request.timer id) = fire_timer-Keeps id
  handle-Keeps (Request.child_done p) = end_child-Keeps d I emits enters p
  handle-Keeps (Request.update writes) = update_channels-Keeps writes
  handle-Keeps _ = Keeps-raise Err.invalid (λ e. cc)

  pub on_existing-Keeps : (r : Request) → Keeps d I (on_existing r)
  unfolding on_existing
  on_existing-Keeps r = Keeps-bind _ _ (Basics.is_done-Keeps d I emits) λ over.
      Keeps-bind _ _ (Keeps-look _) λ born. Keeps-if _ _ _ (Keeps-raise Err.not_found (λ e. cc)) (
        Keeps-if _ _ _ (handle-Keeps r)
          (Keeps-if _ _ _ (Keeps-raise Err.rejected (λ e. cc)) Keeps-skip))

module _ (d : Decider) (I : Work → Type 0)
    (emits : (e : Payload State) → IsPlain e → Keeps d I (emit e)) where
  ongoing : (e : Payload State) → IsOngoing e → Keeps d I (emit e)
  ongoing e h = emits e (ongoing-IsPlain e h)

  started_enters : (id : String) → Keeps d I (enter id)
  started_enters = enters d I ongoing

  begin-Keeps : (p : StartData) (input : Raw) → Keeps d I (begin p input)
  unfolding begin
  begin-Keeps p input = search (keeps_rules, emits, started_enters)

  joined-Holds :
      (w : Work) (b : Bool) → I w → Holds I (joined w (if b then ok tt else err Err.conflict))
  unfolding joined
  joined-Holds w true h = h
  joined-Holds w false h = λ e. cc

  join_existing-Keeps : (p : StartData) → Keeps d I (join_existing p)
  unfolding join_existing check_join
  join_existing-Keeps p = record { at = λ w h. joined-Holds w (str_eq w.st.flow p.flow) h }

  start-Keeps : (p : StartData) → Keeps d I (start p)
  unfolding start
  start-Keeps p = Keeps-bind _ _ (Keeps-look _) λ born.
      Keeps-if born _ _ (join_existing-Keeps p)
        (Keeps-if _ _ _ (begin-Keeps p _) (Keeps-raise Err.invalid (λ e. cc)))

  pub dispatch-Keeps : (r : Request) → Keeps d I (dispatch r)
  unfolding dispatch
  dispatch-Keeps (Request.start p) = start-Keeps p
  dispatch-Keeps Request.undecodable_start = Keeps-raise Err.invalid (λ e. cc)
  dispatch-Keeps r = on_existing-Keeps d I ongoing r

-- What holds before a decision, and is kept by every event that the decision may emit, holds after
-- it; and the decision does not run out of fuel.
pub decide-Keeps :
    (p : Platform) (def : Flow) (s : State) (c : Command) (now : ℕ) (I : Work → Type 0)
    → ((e : Payload State) → IsPlain e → Keeps (decider_for p def c now) I (emit e))
    → I (at_work s)
    → Holds I (decide p def s c now)
unfolding decide
decide-Keeps p def s c now I emits h =
    (dispatch-Keeps (decider_for p def c now) I emits c.request).at (at_work s) h
