-- ===== src/Fold/Apply.antt =====
-- internal/fold/state.go: Apply folds one event into the state, and Fold a log.
pub mod Nodes
pub mod Waits
pub mod Structure
use packtrail.Prelude.{
  ℕ, suc, ◌+◌, String, Bool, true, false, not, ◌||◌, ◌&&◌, Option, none, some, List, [], ◌∷◌, ltb,
  ◌==◌, if◌then◌else◌,
}
use packtrail.GoMap.{Map, empty, get, put}
use packtrail.Json.{Json, Raw}
use packtrail.Outcome.{Err, cannot_apply, Result, ok, err, ◌>>=◌}
use packtrail.Platform.{Platform}
use packtrail.Event.{
  Event, Payload, Started, Failed, Time, started, forked, continued, completed, failed, cancelled,
  entered,
}
use packtrail.Flow.{Flow, Channel}
use packtrail.Fold.State.{
  State, Ev, Status, unborn, running, waiting, Task, AwaitState, ChildState, MapRun, new, terminal,
  is_interrupted, recode,
}
use Nodes.{apply_node}

-- (*State).terminate
unfoldable pub terminate : Status → State → State
terminate st s = record s {
  status = st;
  tasks = empty;
  fans = empty;
  maps = empty;
  awaits = empty;
  children = empty;
  timers = empty;
}

unfoldable pub put_defaults : Map Channel → Map Raw → Map Raw
put_defaults [] m = m
put_defaults ((name, c) ∷ cs) m =
    put_defaults cs (elim c.default [ none ↦ m | some v ↦ put m name (some v) ])

unfoldable pub channel_defaults : Option Flow → Map Raw → Map Raw
unfolding put_defaults
channel_defaults none m = m
channel_defaults (some def) m = put_defaults def.channels m

-- (*State).applyStarted
unfoldable pub apply_started : Option Flow → Time → Started → State → State
unfolding channel_defaults
apply_started def time e s = record s {
  exec_id = e.exec_id;
  flow = e.flow;
  flow_hash = e.flow_hash;
  input = e.input;
  parent = e.parent;
  attrs = e.attrs;
  status = running;
  created = time;
  channels = channel_defaults def s.channels;
}

-- (*State).applyForked
unfoldable pub apply_forked : String → String → ℕ → State → State
unfolding recode
apply_forked exec_id from seq src = record (recode src) {
  exec_id = exec_id;
  forked_from = from;
  fork_seq = seq;
  base = 0;
  segments = [];
  timers = empty;
  events = 0;
  last_seq = 0;
}

-- s.Visits[node]++
unfoldable pub bump : Option ℕ → ℕ
bump none = 1
bump (some n) = n + 1

-- (*State).apply
unfoldable pub apply_event : Platform → Option Flow → State → Ev → Payload State → Result State
unfolding terminate apply_started apply_forked bump
apply_event p def s ev (started e) = ok (apply_started def ev.time e s)
apply_event p def s ev (forked exec_id from seq src) = ok (apply_forked exec_id from seq src)
apply_event p def s ev (continued src segment) = ok (record (recode src) { base = ev.index })
apply_event p def s ev (completed output) =
    ok (record (terminate Status.completed s) { output = output })
apply_event p def s ev (failed e) = ok (record (terminate Status.failed s) {
  error = e.error;
  reason = e.reason;
  failed_node = e.node;
})
apply_event p def s ev (cancelled e) =
    ok (record (terminate Status.cancelled s) { reason = packtrail.Event.Reason.other e.reason })
apply_event p def s ev (entered node) =
    ok (record s { visits = put s.visits node (bump (get s.visits node)); steps = s.steps + 1 })
apply_event p def s ev e = apply_node p def ev.time e s

unfoldable pub any_active : Map Task → Bool
any_active [] = false
any_active ((k, t) ∷ ts) = not (is_interrupted t.status) || any_active ts

abbrev pub none_in {ℓ} : {V : Type ℓ} → Map V → Bool
none_in [] = true
none_in (e ∷ m) = false

-- (*State).recomputeStatus
unfoldable pub computed_status : State → Status
unfolding any_active
computed_status s =
    if any_active s.tasks
    then running
    else if not (none_in s.children) || not (none_in s.maps)
    then running
    else if not (none_in s.awaits) || not (none_in s.tasks)
    then waiting
    else running

unfoldable pub recompute : Status → State → State
unfolding computed_status
recompute running s = record s { status = computed_status s }
recompute waiting s = record s { status = computed_status s }
recompute _ s = s

unfoldable pub expected_index : State → Payload State → ℕ
expected_index s (forked _ _ _ _) = 1
expected_index s (continued src _) = src.events + 1
expected_index s _ = s.events + 1

-- what (*State).Apply does once the payload is folded
unfoldable pub finish : Ev → State → State
unfolding recompute
finish ev s =
    let t = record s {
      events = s.events + 1;
      updated = if ltb 0 ev.time then ev.time else s.updated;
    } in
    recompute t.status t

-- every error but a panic becomes an ErrApply
unfoldable pub wrap_apply : Result State → Result State
wrap_apply (ok s) = ok s
wrap_apply (err Err.panic) = err Err.panic
wrap_apply (err _) = err cannot_apply

unfoldable pub finished : Ev → Result State → Result State
unfolding finish
finished ev (ok s) = ok (finish ev s)
finished ev (err e) = err e

-- an index that is given and is not the next one
unfoldable pub gap : State → Ev → Bool
unfolding expected_index
gap s ev = not (ev.index == 0) && not (ev.index == expected_index s ev.payload)

unfoldable pub without_gap : Bool → Result State → Result State
without_gap true r = err cannot_apply
without_gap false r = r

-- (*State).Apply
unfoldable pub apply : Platform → Option Flow → State → Ev → Result State
unfolding gap without_gap wrap_apply finished
apply p def s ev =
    without_gap (gap s ev) (finished ev (wrap_apply (apply_event p def s ev ev.payload)))

unfoldable pub seen : Ev → State → State
seen ev s = record s { last_seq = if ltb 0 ev.seq then ev.seq else s.last_seq }

-- Apply over a list of events
unfoldable pub apply_all : Platform → Option Flow → State → List Ev → Result State
apply_all p def s [] = ok s
apply_all p def s (ev ∷ evs) = do t ← apply p def s ev; apply_all p def t evs

-- Fold, from the state that New gives
unfoldable pub fold : Platform → Option Flow → State → List Ev → Result State
unfolding seen
fold p def s [] = ok s
fold p def s (ev ∷ evs) = do t ← apply p def s ev; fold p def (seen ev t) evs
