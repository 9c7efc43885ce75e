-- ===== src/Fold/Frame.antt =====
-- internal/fold/state.go: what an event of a node, a join, a map, a wait or a channel leaves alone.
use packtrail.Prelude.{
  ℕ, ◌≡◌, refl, String, Bool, true, false, Option, none, some, List, str_eq, if◌then◌else◌,
}
use packtrail.GoMap.{Map, get, delete}
use packtrail.Json.{Raw}
use packtrail.Outcome.{Result, ok, err, ◌>>=◌}
use packtrail.Platform.{Platform}
use packtrail.Event
use packtrail.Event.{
  Payload, Time, ChildDone, Join, SignalUse, NodeDone, NodeFail, Interrupted, Segment,
}
use packtrail.Flow.{Flow, BranchStatus}
use packtrail.Fold.State.{State, Status, Task, Fan, MapRun, ChildState, Buffered}
use packtrail.Fold.Apply.Waits.{
  apply_wait, use_signal, take_signal, ended_in, item_map, set_output, apply_child_done, add_usage,
  status_completed,
}
use packtrail.Fold.Apply.Structure.{apply_structure, close_fan, map_ended}
use packtrail.Fold.Apply.Nodes.{
  apply_node, done_by, record_output, failed_by, interrupted_by, settle, settle_task, apply_writes,
}

-- Who an execution is and how far it came.
pub record Frame : Type 0 where
  pub exec_id : String
  pub flow : String
  pub flow_hash : String
  pub status : Status
  pub input : Raw
  pub visits : Map ℕ
  pub steps : ℕ
  pub events : ℕ
  pub base : ℕ
  pub segments : List Segment
  pub forked_from : String
  pub fork_seq : ℕ
  pub last_seq : ℕ

abbrev pub frame : State → Frame
frame s = record {
  exec_id = s.exec_id;
  flow = s.flow;
  flow_hash = s.flow_hash;
  status = s.status;
  input = s.input;
  visits = s.visits;
  steps = s.steps;
  events = s.events;
  base = s.base;
  segments = s.segments;
  forked_from = s.forked_from;
  fork_seq = s.fork_seq;
  last_seq = s.last_seq;
}

abbrev pub Framed : Frame → Result State → Type 0
Framed f (ok s) = frame s ≡ f
Framed f (err e) = Unit

Framed-bind {ℓ} :
    {A : Type ℓ} (f : Frame) (r : Result A) (k : A → Result State)
    → ((a : A) → Framed f (k a))
    → Framed f (r >>= k)
Framed-bind f (ok a) k h = h a
Framed-bind f (err e) k h = tt

signal_use-frame :
    (e : SignalUse) (s : State) (o : Option (Buffered × List Buffered))
    → Framed (frame s) (use_signal e s o)
unfolding use_signal
signal_use-frame e s none = tt
signal_use-frame e s (some (b, rest)) = refl

ended_in-frame :
    (e : ChildDone) (success : Bool) (c : Option ChildState) (o : Option (ChildState × MapRun))
    (s : State)
    → Framed (frame s) (ended_in e success c o s)
unfolding ended_in
ended_in-frame e success c none s = refl
ended_in-frame e true c (some (item, m)) s =
    Framed-bind _ (set_output m.outputs item.index e.output) _ (λ vs. refl)
ended_in-frame e false c (some (item, m)) s = refl

child_done-frame :
    (p : Platform) (e : ChildDone) (s : State) → Framed (frame s) (apply_child_done p e s)
unfolding apply_child_done
child_done-frame p e s =
    let key = if str_eq e.key "" then e.node else e.key in
    let c = get s.children key in
    let t = record s {
      children = delete s.children key;
      counters = add_usage p s.counters e.counters;
    } in
    ended_in-frame e (str_eq e.status status_completed) c (item_map e c t) t

wait-frame :
    (p : Platform) (time : Time) (e : Payload State) (s : State)
    → Framed (frame s) (apply_wait p time e s)
unfolding apply_wait
wait-frame p time (Event.signal_use e) s = signal_use-frame e s (take_signal e.id s.buffered)
wait-frame p time (Event.child_done e) s = child_done-frame p e s
wait-frame p time (Event.await e) s = refl
wait-frame p time (Event.await_timeout e) s = refl
wait-frame p time (Event.signal e) s = refl
wait-frame p time (Event.child e) s = refl
wait-frame p time (Event.timer e) s = refl
wait-frame p time (Event.fired e) s = refl
wait-frame p time _ s = tt

close_fan-frame : (e : Join) (o : Option Fan) (s : State) → frame (close_fan e o s) ≡ frame s
unfolding close_fan
close_fan-frame e none s = refl
close_fan-frame e (some f) s = refl

map_ended-frame :
    (node : String) (o : Option MapRun) (s : State) → Framed (frame s) (map_ended node o s)
unfolding map_ended
map_ended-frame node none s = tt
map_ended-frame node (some m) s = refl

structure-frame :
    (p : Platform) (time : Time) (e : Payload State) (s : State)
    → Framed (frame s) (apply_structure p time e s)
unfolding apply_structure
structure-frame p time (Event.fanout e) s = refl
structure-frame p time (Event.join e) s = close_fan-frame e (get s.fans e.fanout) s
structure-frame p time (Event.map_start e) s = refl
structure-frame p time (Event.map_done e) s = map_ended-frame e (get s.maps e) s
structure-frame p time (Event.map_abort e) s = refl
structure-frame p time e s = wait-frame p time e s

settle-frame :
    (key : String) (outcome : BranchStatus) (t : Option Task) (s : State)
    → frame (settle key outcome t s) ≡ frame s
unfolding settle
settle-frame key outcome none s = refl
settle-frame key outcome (some t) s = refl

record_output-frame :
    (e : NodeDone) (t : Task) (m : Option MapRun) (s : State)
    → Framed (frame s) (record_output e t m s)
unfolding record_output
record_output-frame e t none s = refl
record_output-frame e t (some m) s =
    Framed-bind _ (set_output m.outputs t.index e.output) _ (λ vs. refl)

settled-frame :
    (key : String) (outcome : BranchStatus) (f : Frame) (r : Result State)
    → Framed f r
    → Framed f (r >>= λ u. ok (settle_task key outcome u))
unfolding settle_task
settled-frame key outcome f (ok u) h = cc (settle-frame key outcome (get u.tasks key) u, h)
settled-frame key outcome f (err e) h = tt

done_by-frame :
    (p : Platform) (def : Option Flow) (e : NodeDone) (t : Option Task) (s : State)
    → Framed (frame s) (done_by p def e t s)
unfolding done_by
done_by-frame p def e none s = tt
done_by-frame p def e (some t) s =
    Framed-bind _ (apply_writes p def s.channels e.writes) _
      λ channels. settled-frame e.key _ _ _ (record_output-frame e t _ _)

frame-if :
    (b : Bool) (x y : State) {f : Frame}
    → frame x ≡ f
    → frame y ≡ f
    → frame (if b then x else y) ≡ f
frame-if true x y h k = h
frame-if false x y h k = k

failed_by-frame :
    (p : Platform) (e : NodeFail) (t : Option Task) (s : State)
    → frame (failed_by p e t s) ≡ frame s
unfolding failed_by settle_task
failed_by-frame p e none s = refl
failed_by-frame p e (some t) s =
    frame-if e.will_retry _ _ refl (settle-frame e.key _ (get s.tasks e.key) _)

interrupted_by-frame :
    (p : Platform) (e : Interrupted) (t : Option Task) (s : State)
    → Framed (frame s) (interrupted_by p e t s)
unfolding interrupted_by
interrupted_by-frame p e none s = tt
interrupted_by-frame p e (some t) s = refl

-- A node's event changes neither who the execution is, nor its status, nor what it counts.
pub node-frame :
    (p : Platform) (def : Option Flow) (time : Time) (e : Payload State) (s : State)
    → Framed (frame s) (apply_node p def time e s)
unfolding apply_node
node-frame p def time (Event.scheduled e) s = refl
node-frame p def time (Event.node_done e) s = done_by-frame p def e (get s.tasks e.key) s
node-frame p def time (Event.node_fail e) s = failed_by-frame p e (get s.tasks e.key) s
node-frame p def time (Event.interrupted e) s = interrupted_by-frame p e (get s.tasks e.key) s
node-frame p def time (Event.node_cancel e) s = settle-frame e.key _ (get s.tasks e.key) s
node-frame p def time (Event.choice e) s = refl
node-frame p def time (Event.update e) s =
    Framed-bind _ (apply_writes p def s.channels e.writes) _ (λ channels. refl)
node-frame p def time e s = structure-frame p time e s
