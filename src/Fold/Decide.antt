-- ===== src/Fold/Decide.antt =====
-- internal/fold/decide.go: the decision on a command.
pub mod Monad
pub mod Basics
pub mod Route
pub mod Join
pub mod Settle
pub mod Fork
use packtrail.Prelude.{
  ℕ, zero, suc, ◌+◌, ◌-◌, ◌≡◌, String, Bool, true, false, not, ◌||◌, ◌&&◌, Option, none, some, List,
  [], ◌∷◌, ◌++◌, ltb, leb, ◌==◌, str_eq, if◌then◌else◌, length, get_elem?,
}
use packtrail.GoMap.{Map, get, keys, put, empty}
use packtrail.Json.{Json, null, obj, end, Raw, is_null, is_object}
use packtrail.Outcome.{
  Msg, text, attempt_timed_out, no_signal, Err, not_found, invalid, rejected, conflict, panic,
  Result, ok, err,
}
use packtrail.Outcome
use packtrail.Platform.{Platform, valid_token}
use packtrail.Event.{
  Event, Payload, Reason, Purpose, Segment, Timer, started, forked, continued, await_timeout,
  signal, fired, update,
}
use packtrail.Flow.{Flow, Node}
use packtrail.Cmd.{StartData, TaskRef, ResumeData, SignalData, Request, Command}
use packtrail.Cmd
use packtrail.Fold.State.{
  State, Ev, Status, Task, TaskStatus, AwaitState, ChildState, MapRun, exists, terminal, recode,
  resumption, is_retrying, is_interrupted, node_of,
}
use Monad.{Decider, Work, M, Step, pure, raise, ask, look, deref, skip, ◌>>=◌, ◌>>◌, emit}
use Basics.{node, is_done, fail, cancel, schedule, current, writes_problem, start_child}
use Route.{enter, consume, start_await}
use Settle.{task_failed, fail_task, complete_task, interrupt_task, end_child}

-- CheckJoin
unfoldable pub check_join : State → String → Result (Unit {0})
check_join s name = if str_eq s.flow name then ok tt else err conflict

unfoldable pub search_attributes : Map (Raw → Option String) → Raw → Map String
search_attributes [] input = []
search_attributes ((k, program) ∷ attrs) input =
    let rest = search_attributes attrs input in
    elim (program input) [ none ↦ rest | some v ↦ (k, v) ∷ rest ]

unfoldable pub begin : StartData → Raw → Step
unfolding search_attributes
begin p input = do
  def ← ask (λ d. d.def)
  id ← look (λ w. w.st.exec_id)
  emit (
      started (record {
        exec_id = id;
        flow = def.name;
        flow_hash = def.hash;
        input = input;
        parent = p.parent;
        attrs = search_attributes def.attrs input;
      }))
  enter def.start_id

unfoldable pub joined : Work → Result (Unit {0}) → Result (Unit {0} × Work)
joined w (ok _) = ok (tt, w)
joined w (err e) = err e

unfoldable pub join_existing : StartData → Step
unfolding joined
join_existing p d w = joined w (check_join w.st p.flow)

-- (*decider).start
unfoldable pub start : StartData → Step
unfolding begin join_existing check_join
start p = do
  born ← look (λ w. exists w.st)
  let input : Raw = if is_null p.input then some (obj end) else p.input
  if born then join_existing p else if is_object input then begin p input else raise invalid

abbrev is_seen {ℓ} : {V : Type ℓ} → Option V → Bool
is_seen none = false
is_seen (some _) = true

unfoldable pub write_channels : Map Raw → Option Msg → Step
write_channels writes (some problem) = raise invalid
write_channels writes none = do
  id ← ask (λ d. d.cmd_id)
  emit (update (record { id = id; writes = writes }))

-- (*decider).update
unfoldable pub update_channels : Map Raw → Step
unfolding write_channels
update_channels [] = raise invalid
update_channels (e ∷ writes) = do
  id ← ask (λ d. d.cmd_id)
  seen ← look (λ w. is_seen (get w.st.update_ids id))
  problem ← writes_problem (e ∷ writes)
  if seen then skip else write_channels (e ∷ writes) problem

-- the first interrupted instance that a resume addresses, by key or by node
unfoldable pub interrupted_task : ResumeData → Map Task → Option Task
interrupted_task p [] = none
interrupted_task p ((k, t) ∷ ts) =
    if is_interrupted t.status && (str_eq k p.key || (str_eq p.key "" && str_eq t.node p.node))
    then some t
    else interrupted_task p ts

unfoldable pub resume_task : ResumeData → Option Task → Step
resume_task p none = skip
resume_task p (some t) = do
  found ← node t.node
  n ← deref found
  let value : Raw = elim p.value [ none ↦ some null | some v ↦ some v ]
  schedule n t.key t.owner t.index t.item (record { value = value; by = p.by }) 0 1

-- (*decider).resume
unfoldable pub resume : ResumeData → Step
unfolding interrupted_task resume_task
resume p = do found ← look (λ w. interrupted_task p w.st.tasks); resume_task p found

unfoldable pub deliver_to : String → Step
deliver_to name = do found ← node name; n ← deref found; consume enter n

unfoldable pub signal_awaits : SignalData → Map AwaitState → Step
unfolding deliver_to
signal_awaits p [] = skip
signal_awaits p ((name, a) ∷ awaits) =
    let rest = signal_awaits p awaits in if str_eq a.signal p.name then deliver_to name else rest

unfoldable pub receive : SignalData → Step
receive p = do
  id ← ask (λ d. d.cmd_id)
  emit (signal (record { name = p.name; id = id; payload = p.payload }))
  awaits ← look (λ w. w.st.awaits)
  signal_awaits p awaits

-- (*decider).signal
unfoldable pub receive_signal : SignalData → Step
unfolding receive signal_awaits
receive_signal p = do
  id ← ask (λ d. d.cmd_id)
  seen ← look (λ w. is_seen (get w.st.signal_ids id))
  if not (valid_token p.name) then raise invalid else if seen then skip else receive p

unfoldable pub time_out : Timer → Step
time_out tm = do
  found ← node tm.node
  n ← deref found
  emit (await_timeout (record { node = n.id; to = n.on_timeout }))
  if str_eq n.on_timeout ""
      then fail Reason.await_timeout (no_signal n.id n.signal) n.id
      else enter n.on_timeout

-- (*decider).awaitTimeout
unfoldable pub await_fired : Timer → Option AwaitState → Step
unfolding time_out
await_fired tm none = skip
await_fired tm (some a) = if str_eq a.timer_id tm.id then time_out tm else skip

unfoldable pub timeout_fired : Option Task → Step
timeout_fired none = skip
timeout_fired (some t) = task_failed t attempt_timed_out true Reason.timeout empty

unfoldable pub next_attempt : Timer → Task → Step
next_attempt tm t = do
  found ← node t.node
  n ← deref found
  schedule n t.key t.owner t.index t.item (resumption t) t.generation tm.attempt

unfoldable pub retry_fired : Timer → Option Task → Step
unfolding next_attempt
retry_fired tm none = skip
retry_fired tm (some t) =
    if t.generation == tm.generation && is_retrying t.status && t.attempt + 1 == tm.attempt
    then next_attempt tm t
    else skip

unfoldable pub after_timer : Timer → Purpose → Step
unfolding await_fired timeout_fired retry_fired
after_timer tm Purpose.retry = do t ← look (λ w. get w.st.tasks tm.key); retry_fired tm t
after_timer tm Purpose.attempt_timeout = do
  t ← current (record { key = tm.key; generation = tm.generation; attempt = tm.attempt })
  timeout_fired t
after_timer tm Purpose.await = do a ← look (λ w. get w.st.awaits tm.node); await_fired tm a

unfoldable pub fire : Option Timer → Step
unfolding after_timer
fire none = skip
fire (some tm) = do emit (fired tm.id); after_timer tm tm.purpose

-- (*decider).timer
unfoldable pub fire_timer : String → Step
unfolding fire
fire_timer id = do found ← look (λ w. get w.st.timers id); fire found

-- the `switch` of Decide, on an execution that exists and has not ended
unfoldable pub handle : Request → Step
handle (Request.complete p) = do t ← current p.ref; complete_task p t
handle (Request.fail p) = do t ← current p.ref; fail_task p t
handle (Request.interrupt p) = do t ← current p.ref; interrupt_task p t
handle (Request.resume p) = resume p
handle (Request.signal p) = receive_signal p
handle (Request.cancel reason) = cancel reason
handle (Request.timer id) = fire_timer id
handle (Request.child_done p) = end_child p
handle (Request.update writes) = update_channels writes
handle _ = raise invalid

abbrev pub is_update : Request → Bool
is_update (Request.update writes) = true
is_update Request.undecodable_update = true
is_update _ = false

unfoldable pub on_existing : Request → Step
on_existing r = do
  over ← is_done
  born ← look (λ w. exists w.st)
  if not born
      then raise not_found
      else if not over
      then handle r
      else if is_update r
      then raise rejected
      else skip

unfoldable pub dispatch : Request → Step
unfolding on_existing
dispatch (Request.start p) = start p
dispatch Request.undecodable_start = raise invalid
dispatch r = on_existing r

abbrev pub at_work : State → Work
at_work s = record { st = s; out = []; inherited = [] }

abbrev pub decider_for : Platform → Flow → Command → ℕ → Decider
decider_for p def c now = record { platform = p; def = def; now = now; cmd_id = c.id }

-- Decide: the events of a command and the state that they lead to
unfoldable pub decide : Platform → Flow → State → Command → ℕ → Result (Unit {0} × Work)
unfolding dispatch
decide p def s c now = dispatch c.request (decider_for p def c now) (at_work s)
