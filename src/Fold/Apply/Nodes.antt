-- ===== src/Fold/Apply/Nodes.antt =====
-- internal/fold/state.go: the events of task instances and of channels.
use packtrail.Prelude.{ℕ, ◌+◌, max, String, Option, none, some, [], ◌∷◌, str_eq, if◌then◌else◌}
use packtrail.GoMap.{Map, get, put, delete}
use packtrail.Json.{Raw}
use packtrail.Outcome.{cannot_apply, Result, ok, err, ◌>>=◌}
use packtrail.Platform.{Platform}
use packtrail.Event.{
  Payload, Scheduled, NodeDone, NodeFail, Interrupted, Update, Time, scheduled, node_done,
  node_fail, interrupted, node_cancel, choice, update,
}
use packtrail.Flow.{Flow, Channel, Reducer, replace, BranchStatus, done, broken, dropped}
use packtrail.Fold.State.{State, Task, TaskStatus, Fan, MapRun}
use packtrail.Fold.Reduce.{reduce}
use packtrail.Fold.Apply.Waits.{add_usage, remember_id, started_item, set_output}
use packtrail.Fold.Apply.Structure.{apply_structure}

-- the payload that a resumed instance was interrupted with
unfoldable pub kept_interrupt : Raw → Option Task → Raw
kept_interrupt (some v) (some prev) = prev.interrupt
kept_interrupt _ _ = none

-- (*State).applyScheduled
unfoldable pub apply_scheduled : Scheduled → State → State
unfolding kept_interrupt started_item
apply_scheduled e s = record s {
  tasks = put s.tasks e.key (record {
    key = e.key;
    node = e.node;
    kind = e.kind;
    index = e.index;
    owner = e.owner;
    generation = e.generation;
    attempt = e.attempt;
    status = TaskStatus.scheduled;
    item = e.item;
    resume = e.resume;
    resumed_by = e.resumed_by;
    interrupt = kept_interrupt e.resume (get s.tasks e.key);
  });
  n = max s.n e.generation;
  maps = started_item e.owner e.node e.index s.maps;
}

-- ReducerOrDefault of a channel that may be missing, which is the zero channel then
unfoldable pub reducer_in : Option Channel → Reducer
reducer_in none = replace
reducer_in (some c) = c.reducer

-- def.Channels[name].ReducerOrDefault()
unfoldable pub reducer_of : Option Flow → String → Reducer
unfolding reducer_in
reducer_of none name = replace
reducer_of (some def) name = reducer_in (get def.channels name)

abbrev pub or_empty : Option Raw → Raw
or_empty none = none
or_empty (some v) = v

abbrev pub raw_at : Map Raw → String → Raw
raw_at m k = or_empty (get m k)

-- the loop over the writes in applyNodeDone and in applyUpdate
unfoldable pub apply_writes : Platform → Option Flow → Map Raw → Map Raw → Result (Map Raw)
unfolding reducer_of
apply_writes p def channels [] = ok channels
apply_writes p def channels ((name, delta) ∷ writes) = do
  v ← reduce p (reducer_of def name) (raw_at channels name) delta
  apply_writes p def (put channels name v) writes

unfoldable pub settle_fan : Task → BranchStatus → Map Fan → Map Fan
settle_fan t outcome fans = elim (get fans t.owner) [
  | none ↦ fans
  | some f ↦ put fans t.owner (record f { branches = put f.branches t.node outcome })
]

unfoldable pub settle : String → BranchStatus → Option Task → State → State
unfolding settle_fan
settle key outcome none s = s
settle key outcome (some t) s = record s {
  tasks = delete s.tasks key;
  fans = settle_fan t outcome s.fans;
}

-- (*State).settleTask
unfoldable pub settle_task : String → BranchStatus → State → State
unfolding settle
settle_task key outcome s = settle key outcome (get s.tasks key) s

-- the map that task `t` runs an item of
unfoldable pub run_of : State → Task → Option MapRun
run_of s t = elim (get s.maps t.owner) [
  | none ↦ none
  | some m ↦ if str_eq t.node t.owner then some m else none
]

unfoldable pub record_output : NodeDone → Task → Option MapRun → State → Result State
unfolding set_output
record_output e t none s = ok (record s {
  results = put s.results t.node e.output;
  last_node = t.node;
  errors = delete s.errors t.node;
})
record_output e t (some m) s = do
  outputs ← set_output m.outputs t.index e.output
  ok (record s { maps = put s.maps t.owner (record m { outputs = outputs; done = m.done + 1 }) })

unfoldable pub done_by : Platform → Option Flow → NodeDone → Option Task → State → Result State
unfolding record_output
done_by p def e none s = err cannot_apply
done_by p def e (some t) s = do
  channels ← apply_writes p def s.channels e.writes
  let s' = record s { channels = channels; counters = add_usage p s.counters e.usage }
  u ← record_output e t (run_of s' t) s'
  ok (settle_task e.key done u)

-- (*State).applyNodeDone
unfoldable pub apply_node_done : Platform → Option Flow → NodeDone → State → Result State
unfolding done_by
apply_node_done p def e s = done_by p def e (get s.tasks e.key) s

unfoldable pub item_index : Task → Option MapRun → Option ℕ
item_index t none = none
item_index t (some m) = some t.index

unfoldable pub failed_by : Platform → NodeFail → Option Task → State → State
unfolding item_index
failed_by p e none s = s
failed_by p e (some t) s =
    let s' = record s { counters = add_usage p s.counters e.usage } in
    if e.will_retry
    then record s' { tasks = put s'.tasks e.key (record t { status = TaskStatus.retrying }) }
    else settle_task e.key broken (record s' {
      errors = put s'.errors t.node (record {
        error = e.error;
        reason = e.reason;
        attempt = e.attempt;
        index = item_index t (run_of s' t);
      });
      last_node = t.node;
    })

-- (*State).applyNodeFail
unfoldable pub apply_node_fail : Platform → NodeFail → State → State
unfolding failed_by
apply_node_fail p e s = failed_by p e (get s.tasks e.key) s

unfoldable pub interrupted_by : Platform → Interrupted → Option Task → State → Result State
interrupted_by p e none s = err cannot_apply
interrupted_by p e (some t) s = ok (record s {
  tasks = put s.tasks e.key (record t { status = TaskStatus.interrupted; interrupt = e.payload });
  counters = add_usage p s.counters e.usage;
})

-- (*State).applyUpdate
unfoldable pub apply_update : Platform → Option Flow → Time → Update → State → Result State
apply_update p def time e s = do
  channels ← apply_writes p def s.channels e.writes
  ok (record s { channels = channels; update_ids = remember_id s.update_ids e.id time })

-- (*State).applyNode
unfoldable pub apply_node : Platform → Option Flow → Time → Payload State → State → Result State
unfolding apply_scheduled apply_node_done apply_node_fail interrupted_by settle_task apply_update
apply_node p def time (scheduled e) s = ok (apply_scheduled e s)
apply_node p def time (node_done e) s = apply_node_done p def e s
apply_node p def time (node_fail e) s = ok (apply_node_fail p e s)
apply_node p def time (interrupted e) s = interrupted_by p e (get s.tasks e.key) s
apply_node p def time (node_cancel e) s = ok (settle_task e.key dropped s)
apply_node p def time (choice e) s = ok s
apply_node p def time (update e) s = apply_update p def time e s
apply_node p def time e s = apply_structure p time e s
