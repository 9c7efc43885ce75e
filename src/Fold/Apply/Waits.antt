-- ===== src/Fold/Apply/Waits.antt =====
-- internal/fold/state.go: the events of awaits, signals, children and timers.
use packtrail.Prelude.{
  ℕ, zero, suc, ◌+◌, ◌-◌, max, String, Bool, true, false, ◌||◌, ◌&&◌, Option, none, some, List, [],
  ◌∷◌, ◌++◌, ltb, leb, ◌==◌, str_eq, if◌then◌else◌, length, set,
}
use packtrail.GoMap.{Map, str_lt, get, put, delete}
use packtrail.Json.{Raw, Float64}
use packtrail.Outcome.{text, cannot_apply, panic, Result, ok, err, ◌>>=◌}
use packtrail.Platform.{Platform}
use packtrail.Event.{
  Event, Payload, Await, AwaitTimeout, Signal, SignalUse, Child, ChildDone, Timer, Time, await,
  await_timeout, signal, signal_use, child, child_done, timer, fired,
}
use packtrail.Flow.{done, broken}
use packtrail.Fold.State.{State, Fan, MapRun, AwaitState, ChildState, Buffered}

abbrev pub signal_id_window : Time
signal_id_window = 86400000000000

abbrev pub max_signal_ids : ℕ
max_signal_ids = 10000

-- for k, t := range m { if at.Sub(t) > signalIDWindow { delete(m, k) } }
unfoldable pub forget_old : Time → Map Time → Map Time
forget_old at [] = []
forget_old at ((k, t) ∷ m) =
    let rest = forget_old at m in if ltb signal_id_window (at - t) then rest else (k, t) ∷ rest

unfoldable pub earlier : String × Time → String × Time → Bool
earlier (a, t) (b, u) = ltb t u || (t == u && str_lt a b)

unfoldable pub insert_by_time : String × Time → List (String × Time) → List (String × Time)
insert_by_time e [] = e ∷ []
insert_by_time e (f ∷ fs) = if earlier e f then e ∷ f ∷ fs else f ∷ insert_by_time e fs

-- slices.SortFunc by time, then by id
unfoldable pub sort_by_time : List (String × Time) → List (String × Time)
unfolding earlier insert_by_time
sort_by_time [] = []
sort_by_time (e ∷ es) = insert_by_time e (sort_by_time es)

-- for _, k := range ids[:n] { delete(m, k) }
unfoldable pub delete_first : ℕ → List (String × Time) → Map Time → Map Time
delete_first zero ids m = m
delete_first (suc n) [] m = m
delete_first (suc n) ((k, t) ∷ ids) m = delete_first n ids (delete m k)

unfoldable pub cap_ids : ℕ → Map Time → Map Time
unfolding sort_by_time delete_first
cap_ids cap m = if leb (length m) cap then m else delete_first (length m - cap) (sort_by_time m) m

-- rememberID
unfoldable pub remember_id : Map Time → String → Time → Map Time
unfolding forget_old cap_ids
remember_id m id at = cap_ids max_signal_ids (forget_old at (put m id at))

-- s.Counters[k] += v for each entry
unfoldable pub add_usage : Platform → Map Float64 → Map Float64 → Map Float64
add_usage p counters [] = counters
add_usage p counters ((k, v) ∷ usage) =
    add_usage p (put counters k (p.fadd (elim (get counters k) [ none ↦ 0 | some c ↦ c ]) v)) usage

unfoldable pub close_timer : Option AwaitState → Map Timer → Map Timer
close_timer none timers = timers
close_timer (some a) timers = delete timers a.timer_id

-- the rest of *event.AwaitTimeout, and of applySignalUse
unfoldable pub close_await : String → State → State
unfolding close_timer
close_await node s = record s {
  timers = close_timer (get s.awaits node) s.timers;
  awaits = delete s.awaits node;
}

-- the first signal with this id, and the others
unfoldable pub take_signal : String → List Buffered → Option (Buffered × List Buffered)
take_signal id [] = none
take_signal id (b ∷ bs) =
    if str_eq b.id id
    then some (b, bs)
    else elim (take_signal id bs) [ none ↦ none | some (x, rest) ↦ some (x, b ∷ rest) ]

unfoldable pub use_signal : SignalUse → State → Option (Buffered × List Buffered) → Result State
unfolding close_await
use_signal e s none = err cannot_apply
use_signal e s (some (b, rest)) = ok (
    close_await e.node (record s {
      buffered = rest;
      signals = put s.signals e.name b.payload;
      results = put s.results e.node b.payload;
      last_node = e.node;
    }))

-- (*State).applySignalUse
unfoldable pub apply_signal_use : SignalUse → State → Result State
unfolding take_signal use_signal
apply_signal_use e s = use_signal e s (take_signal e.id s.buffered)

-- m.Next = max(m.Next, index+1), for an instance that runs an item of the map
unfoldable pub started_item : String → String → ℕ → Map MapRun → Map MapRun
started_item owner node index maps = elim (get maps owner) [
  | none ↦ maps
  | some m ↦
      if str_eq node owner
      then put maps owner (record m { next = max m.next (index + 1) })
      else maps
]

-- (*Child).InstanceKey
unfoldable pub instance_key : Child → String
instance_key c = if str_eq c.key "" then c.node else c.key

unfoldable pub apply_child : Child → State → State
unfolding instance_key started_item
apply_child c s = record s {
  children = put s.children (instance_key c) (record {
    child_id = c.child_id;
    flow = c.flow;
    policy = c.policy;
    node = c.node;
    owner = c.owner;
    index = c.index;
  });
  n = max s.n c.child_n;
  maps = started_item c.owner c.node c.index s.maps;
}

-- m.Outputs[i] = v, which panics out of range
unfoldable pub set_output : List Raw → ℕ → Raw → Result (List Raw)
set_output vs i v = if ltb i (length vs) then ok (set vs i v) else err panic

-- a map item that ended: its output, or how it failed
unfoldable pub item_done : ChildDone → ChildState → MapRun → Bool → State → Result State
unfolding set_output
item_done e c m true s = do
  outputs ← set_output m.outputs c.index e.output
  ok (record s { maps = put s.maps c.owner (record m { outputs = outputs; done = m.done + 1 }) })
item_done e c m false s = ok (record s {
  errors = put s.errors e.node (record {
    error = text e.error;
    reason = packtrail.Event.Reason.child;
    attempt = 0;
    index = some c.index;
  });
  last_node = e.node;
})

unfoldable pub settle_branch : ChildDone → Bool → Option ChildState → Map Fan → Map Fan
settle_branch e success none fans = fans
settle_branch e success (some c) fans = elim (get fans c.owner) [
  | none ↦ fans
  | some f ↦
      put fans c.owner
        (record f { branches = put f.branches e.node (if success then done else broken) })
]

unfoldable pub node_ended : ChildDone → Bool → Option ChildState → State → State
unfolding settle_branch
node_ended e success c s = record s {
  fans = settle_branch e success c s.fans;
  results = put s.results e.node e.output;
  last_node = e.node;
  errors =
      if success
      then delete s.errors e.node
      else put s.errors e.node (record {
        error = text e.error;
        reason = packtrail.Event.Reason.child;
        attempt = 0;
        index = none;
      });
}

-- the map that child `c` runs an item of
unfoldable pub item_map : ChildDone → Option ChildState → State → Option (ChildState × MapRun)
item_map e none s = none
item_map e (some c) s = elim (get s.maps c.owner) [
  | none ↦ none
  | some m ↦ if str_eq c.owner e.node then some (c, m) else none
]

unfoldable pub ended_in :
    ChildDone → Bool → Option ChildState → Option (ChildState × MapRun) → State → Result State
unfolding item_done node_ended
ended_in e success c none s = ok (node_ended e success c s)
ended_in e success c (some (item, m)) s = item_done e item m success s

-- string(StatusCompleted)
abbrev pub status_completed : String
status_completed = "completed"

-- (*State).applyChildDone
unfoldable pub apply_child_done : Platform → ChildDone → State → Result State
unfolding item_map ended_in add_usage
apply_child_done p e s =
    let key = if str_eq e.key "" then e.node else e.key in
    let c = get s.children key in
    let t = record s {
      children = delete s.children key;
      counters = add_usage p s.counters e.counters;
    } in
    ended_in e (str_eq e.status status_completed) c (item_map e c t) t

-- (*State).applyWait
unfoldable pub apply_wait : Platform → Time → Payload State → State → Result State
unfolding close_await remember_id apply_signal_use apply_child apply_child_done
apply_wait p time (await e) s = ok (record s {
  awaits = put s.awaits e.node (record { signal = e.signal; timer_id = e.timer_id });
})
apply_wait p time (await_timeout e) s = ok (close_await e.node s)
apply_wait p time (signal e) s = ok (record s {
  buffered = s.buffered ++ record { name = e.name; id = e.id; payload = e.payload } ∷ [];
  signal_ids = remember_id s.signal_ids e.id time;
})
apply_wait p time (signal_use e) s = apply_signal_use e s
apply_wait p time (child e) s = ok (apply_child e s)
apply_wait p time (child_done e) s = apply_child_done p e s
apply_wait p time (timer e) s = ok (record s { timers = put s.timers e.id e; n = max s.n e.n })
apply_wait p time (fired id) s = ok (record s { timers = delete s.timers id })
apply_wait p time _ s = err cannot_apply
