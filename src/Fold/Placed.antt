-- ===== src/Fold/Placed.antt =====
-- internal/fold/state.go: Apply does not read the sequence that a state was folded up to (LastSeq),
-- so a loader that sets it after each event folds the same state as one that sets it at the end.
use packtrail.Prelude.{
  ℕ, ◌≡◌, refl, ap, String, Bool, true, false, Option, none, some, List, ◌∙◌, if◌then◌else◌, str_eq,
}
use packtrail.GoMap.{get, delete}
use packtrail.Outcome.{Err, Result, ok, err, ◌>>=◌}
use packtrail.Platform.{Platform}
use packtrail.Event
use packtrail.Event.{Payload, Time, ChildDone, Join, SignalUse, NodeDone, NodeFail, Interrupted}
use packtrail.Flow.{Flow, BranchStatus}
use packtrail.Fold.State.{State, Ev, Status, Task, Fan, MapRun, ChildState, Buffered}
use packtrail.Fold.Apply.{
  apply, apply_event, expected_index, finish, finished, without_gap, gap, wrap_apply, recompute,
}
use packtrail.Fold.Apply.Waits.{
  apply_wait, use_signal, take_signal, ended_in, item_map, set_output, apply_child_done, add_usage,
  status_completed,
}
use packtrail.Fold.Apply.Structure.{apply_structure, apply_join, close_fan, map_ended}
use packtrail.Fold.Apply.Nodes.{
  apply_node, done_by, record_output, run_of, failed_by, interrupted_by, settle, settle_task,
  apply_writes,
}
use packtrail.Fold.Rules.Basics.{IsPlain}

-- st.LastSeq = q
abbrev pub placed : ℕ → State → State
placed q s = record s { last_seq = q }

abbrev pub placed_result : ℕ → Result State → Result State
placed_result q (ok s) = ok (placed q s)
placed_result q (err e) = err e

placed-bind {ℓ} :
    {A : Type ℓ} (q : ℕ) (r : Result A) (f g : A → Result State)
    → ((a : A) → f a ≡ placed_result q (g a))
    → (r >>= f) ≡ placed_result q (r >>= g)
placed-bind q (ok a) f g h = h a
placed-bind q (err e) f g h = refl

module _ (q : ℕ) where
  use_signal-placed :
      (e : SignalUse) (s : State) (o : Option (Buffered × List Buffered))
      → use_signal e (placed q s) o ≡ placed_result q (use_signal e s o)
  unfolding use_signal
  use_signal-placed e s none = refl
  use_signal-placed e s (some (b, rest)) = refl

  ended_in-placed :
      (e : ChildDone) (success : Bool) (c : Option ChildState) (o : Option (ChildState × MapRun))
      (s : State)
      → ended_in e success c o (placed q s) ≡ placed_result q (ended_in e success c o s)
  unfolding ended_in
  ended_in-placed e success c none s = refl
  ended_in-placed e true c (some (item, m)) s =
      placed-bind q (set_output m.outputs item.index e.output) _ _ (λ vs. refl)
  ended_in-placed e false c (some (item, m)) s = refl

  item_map-placed :
      (e : ChildDone) (c : Option ChildState) (s : State)
      → item_map e c (placed q s) ≡ item_map e c s
  unfolding item_map
  item_map-placed e none s = refl
  item_map-placed e (some c) s = refl

  child_done-placed :
      (p : Platform) (e : ChildDone) (s : State)
      → apply_child_done p e (placed q s) ≡ placed_result q (apply_child_done p e s)
  unfolding apply_child_done
  child_done-placed p e s =
      let key = if str_eq e.key "" then e.node else e.key in
      let c = get s.children key in
      let t = record s {
        children = delete s.children key;
        counters = add_usage p s.counters e.counters;
      } in
      rw (item_map-placed e c t)
        (ended_in-placed e (str_eq e.status status_completed) c (item_map e c t) t)

  wait-placed :
      (p : Platform) (time : Time) (e : Payload State) (s : State)
      → apply_wait p time e (placed q s) ≡ placed_result q (apply_wait p time e s)
  unfolding apply_wait
  wait-placed p time (Event.signal_use e) s = use_signal-placed e s (take_signal e.id s.buffered)
  wait-placed p time (Event.child_done e) s = child_done-placed p e s
  wait-placed p time _ s = refl

  close_fan-placed :
      (e : Join) (o : Option Fan) (s : State)
      → close_fan e o (placed q s) ≡ placed q (close_fan e o s)
  unfolding close_fan
  close_fan-placed e none s = refl
  close_fan-placed e (some f) s = refl

  join-placed : (e : Join) (s : State) → apply_join e (placed q s) ≡ placed q (apply_join e s)
  unfolding apply_join
  join-placed e s = rw (close_fan-placed e (get s.fans e.fanout) s) refl

  map_ended-placed :
      (node : String) (o : Option MapRun) (s : State)
      → map_ended node o (placed q s) ≡ placed_result q (map_ended node o s)
  unfolding map_ended
  map_ended-placed node none s = refl
  map_ended-placed node (some m) s = refl

  structure-placed :
      (p : Platform) (time : Time) (e : Payload State) (s : State)
      → apply_structure p time e (placed q s) ≡ placed_result q (apply_structure p time e s)
  unfolding apply_structure
  structure-placed p time (Event.fanout e) s = refl
  structure-placed p time (Event.join e) s = ap (λ (t : State). ok t) (join-placed e s)
  structure-placed p time (Event.map_start e) s = refl
  structure-placed p time (Event.map_done e) s = map_ended-placed e (get s.maps e) s
  structure-placed p time (Event.map_abort e) s = refl
  structure-placed p time e s = wait-placed p time e s

  settle-placed :
      (key : String) (outcome : BranchStatus) (t : Option Task) (s : State)
      → settle key outcome t (placed q s) ≡ placed q (settle key outcome t s)
  unfolding settle
  settle-placed key outcome none s = refl
  settle-placed key outcome (some t) s = refl

  record_output-placed :
      (e : NodeDone) (t : Task) (m : Option MapRun) (s : State)
      → record_output e t m (placed q s) ≡ placed_result q (record_output e t m s)
  unfolding record_output
  record_output-placed e t none s = refl
  record_output-placed e t (some m) s =
      placed-bind q (set_output m.outputs t.index e.output) _ _ (λ vs. refl)

  settled-placed :
      (key : String) (outcome : BranchStatus) (r r' : Result State)
      → r' ≡ placed_result q r
      → (r' >>= λ u. ok (settle_task key outcome u))
        ≡ placed_result q (r >>= λ u. ok (settle_task key outcome u))
  unfolding settle_task
  settled-placed key outcome (ok u) r' h =
      rw h (ap (λ (t : State). ok t) (settle-placed key outcome (get u.tasks key) u))
  settled-placed key outcome (err e) r' h = rw h refl

  done_by-placed :
      (p : Platform) (def : Option Flow) (e : NodeDone) (t : Option Task) (s : State)
      → done_by p def e t (placed q s) ≡ placed_result q (done_by p def e t s)
  unfolding done_by run_of
  done_by-placed p def e none s = refl
  done_by-placed p def e (some t) s =
      placed-bind q (apply_writes p def s.channels e.writes) _ _ λ channels.
        settled-placed e.key _ _ _ (
          record_output-placed e t
            (run_of (record s { channels = channels; counters = add_usage p s.counters e.usage }) t)
            _)

  placed-if :
      (b : Bool) (x y x' y' : State)
      → x' ≡ placed q x
      → y' ≡ placed q y
      → (if b then x' else y') ≡ placed q (if b then x else y)
  placed-if true x y x' y' h k = h
  placed-if false x y x' y' h k = k

  failed_by-placed :
      (p : Platform) (e : NodeFail) (t : Option Task) (s : State)
      → failed_by p e t (placed q s) ≡ placed q (failed_by p e t s)
  unfolding failed_by settle_task run_of
  failed_by-placed p e none s = refl
  failed_by-placed p e (some t) s =
      placed-if e.will_retry _ _ _ _ refl (settle-placed e.key _ (get s.tasks e.key) _)

  interrupted_by-placed :
      (p : Platform) (e : Interrupted) (t : Option Task) (s : State)
      → interrupted_by p e t (placed q s) ≡ placed_result q (interrupted_by p e t s)
  unfolding interrupted_by
  interrupted_by-placed p e none s = refl
  interrupted_by-placed p e (some t) s = refl

  node-placed :
      (p : Platform) (def : Option Flow) (time : Time) (e : Payload State) (s : State)
      → apply_node p def time e (placed q s) ≡ placed_result q (apply_node p def time e s)
  unfolding apply_node
  node-placed p def time (Event.scheduled e) s = refl
  node-placed p def time (Event.node_done e) s = done_by-placed p def e (get s.tasks e.key) s
  node-placed p def time (Event.node_fail e) s =
      ap (λ (t : State). ok t) (failed_by-placed p e (get s.tasks e.key) s)
  node-placed p def time (Event.interrupted e) s = interrupted_by-placed p e (get s.tasks e.key) s
  node-placed p def time (Event.node_cancel e) s =
      ap (λ (t : State). ok t) (settle-placed e.key _ (get s.tasks e.key) s)
  node-placed p def time (Event.choice e) s = refl
  node-placed p def time (Event.update e) s =
      placed-bind q (apply_writes p def s.channels e.writes) _ _ (λ channels. refl)
  node-placed p def time e s = structure-placed p time e s

  event-placed :
      (p : Platform) (def : Option Flow) (s : State) (ev : Ev) (e : Payload State)
      → IsPlain e
      → apply_event p def (placed q s) ev e ≡ placed_result q (apply_event p def s ev e)
  unfolding apply_event
  event-placed p def s ev (Event.started e) h = refl
  event-placed p def s ev (Event.forked _ _ _ _) h = absurd h
  event-placed p def s ev (Event.continued _ _) h = absurd h
  event-placed p def s ev (Event.completed e) h = refl
  event-placed p def s ev (Event.failed e) h = refl
  event-placed p def s ev (Event.cancelled e) h = refl
  event-placed p def s ev (Event.entered e) h = refl
  event-placed p def s ev e h = node-placed p def ev.time e s

  wrap-placed : (r : Result State) → wrap_apply (placed_result q r) ≡ placed_result q (wrap_apply r)
  unfolding wrap_apply
  wrap-placed (ok s) = refl
  wrap-placed (err Err.panic) = refl
  wrap-placed (err _) = refl

  recompute-placed :
      (st : Status) (s : State) → recompute st (placed q s) ≡ placed q (recompute st s)
  unfolding recompute
  recompute-placed Status.running s = refl
  recompute-placed Status.waiting s = refl
  recompute-placed _ s = refl

  finished-placed :
      (ev : Ev) (r : Result State)
      → finished ev (placed_result q r) ≡ placed_result q (finished ev r)
  unfolding finished finish
  finished-placed ev (ok s) = ap (λ (t : State). ok t) (recompute-placed s.status _)
  finished-placed ev (err e) = refl

  without_gap-placed :
      (b : Bool) (r r' : Result State)
      → r' ≡ placed_result q r
      → without_gap b r' ≡ placed_result q (without_gap b r)
  unfolding without_gap
  without_gap-placed true r r' h = refl
  without_gap-placed false r r' h = h

  expected-placed :
      (s : State) (e : Payload State) → expected_index (placed q s) e ≡ expected_index s e
  unfolding expected_index
  expected-placed s (Event.forked _ _ _ _) = refl
  expected-placed s (Event.continued _ _) = refl
  expected-placed s _ = refl

  -- Applying an event and setting the sequence commute.
  pub apply-placed :
      (p : Platform) (def : Option Flow) (s : State) (ev : Ev)
      → IsPlain ev.payload
      → apply p def (placed q s) ev ≡ placed_result q (apply p def s ev)
  unfolding apply gap
  apply-placed p def s ev h =
      rw (expected-placed s ev.payload, event-placed p def s ev ev.payload h)
        (without_gap-placed _ _ _ (
          ap (finished ev) (wrap-placed (apply_event p def s ev ev.payload))
          ∙ finished-placed ev (wrap_apply (apply_event p def s ev ev.payload))))
