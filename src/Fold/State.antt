-- ===== src/Fold/State.antt =====
-- internal/fold/state.go: the state of an execution. A map of pointers is a map of values: a task
-- that the code changes through its pointer is put back.
use packtrail.Prelude.{
  ℕ, String, Bool, true, false, ◌||◌, Option, none, some, List, [], ◌∷◌, ltb, str_eq, if◌then◌else◌,
}
use packtrail.GoMap.{Map, empty, get}
use packtrail.Json.{obj, end, Raw, Float64, marshal_raw}
use packtrail.Outcome.{Msg, text}
use packtrail.Event.{Event, ParentRef, Segment, Reason, unset, Time, Timer}
use packtrail.Flow.{NodeError, BranchStatus, Context}

-- `unborn` is the empty string, of an execution that has no events
pub data Status : Type 0 where
  unborn running waiting completed failed cancelled : Status

-- (Status).Terminal
unfoldable pub terminal : Status → Bool
terminal completed = true
terminal failed = true
terminal cancelled = true
terminal _ = false

pub data TaskStatus : Type 0 where
  scheduled retrying interrupted : TaskStatus

unfoldable pub is_scheduled : TaskStatus → Bool
is_scheduled scheduled = true
is_scheduled _ = false

unfoldable pub is_retrying : TaskStatus → Bool
is_retrying retrying = true
is_retrying _ = false

unfoldable pub is_interrupted : TaskStatus → Bool
is_interrupted interrupted = true
is_interrupted _ = false

pub record Task : Type 0 where
  pub key : String
  pub node : String
  pub kind : String
  pub index : ℕ
  pub owner : String
  pub generation : ℕ
  pub attempt : ℕ
  pub status : TaskStatus
  pub item : Raw
  pub resume : Raw
  pub resumed_by : String
  pub interrupt : Raw

pub record Resumption : Type 0 where
  pub value : Raw
  pub by : String

-- (*Task).resumption
unfoldable pub resumption : Task → Resumption
resumption t = record { value = t.resume; by = t.resumed_by }

pub record Fan : Type 0 where
  pub join : String
  pub branches : Map BranchStatus

pub record MapRun : Type 0 where
  pub items : List Raw
  pub outputs : List Raw
  pub done : ℕ
  pub next : ℕ
  pub max_parallel : ℕ

pub record AwaitState : Type 0 where
  pub signal : String
  pub timer_id : String

pub record ChildState : Type 0 where
  pub child_id : String
  pub flow : String
  pub policy : String
  pub node : String
  pub owner : String
  pub index : ℕ

-- (*ChildState).NodeOf
unfoldable pub node_of : ChildState → String → String
node_of c key = if str_eq c.node "" then key else c.node

pub record Buffered : Type 0 where
  pub name : String
  pub id : String
  pub payload : Raw

pub record State : Type 0 where
  pub exec_id : String
  pub flow : String
  pub flow_hash : String
  pub status : Status
  pub input : Raw
  pub parent : Option ParentRef
  pub attrs : Map String
  pub channels : Map Raw
  pub results : Map Raw
  pub last_node : String
  pub visits : Map ℕ
  pub steps : ℕ
  pub signals : Map Raw
  pub buffered : List Buffered
  pub signal_ids : Map Time
  pub update_ids : Map Time
  pub counters : Map Float64
  pub branches : Map BranchStatus
  pub errors : Map NodeError
  pub tasks : Map Task
  pub fans : Map Fan
  pub maps : Map MapRun
  pub awaits : Map AwaitState
  pub children : Map ChildState
  pub timers : Map Timer
  pub n : ℕ
  pub output : Raw
  pub error : Msg
  pub reason : Reason
  pub failed_node : String
  pub created : Time
  pub updated : Time
  pub forked_from : String
  pub fork_seq : ℕ
  pub base : ℕ
  pub segments : List Segment
  pub last_seq : ℕ
  pub events : ℕ
  pub archived : Bool

-- New
unfoldable pub new : String → State
new exec_id = record {
  exec_id = exec_id;
  flow = "";
  flow_hash = "";
  status = unborn;
  input = none;
  parent = none;
  attrs = empty;
  channels = empty;
  results = empty;
  last_node = "";
  visits = empty;
  steps = 0;
  signals = empty;
  buffered = [];
  signal_ids = empty;
  update_ids = empty;
  counters = empty;
  branches = empty;
  errors = empty;
  tasks = empty;
  fans = empty;
  maps = empty;
  awaits = empty;
  children = empty;
  timers = empty;
  n = 0;
  output = none;
  error = text "";
  reason = unset;
  failed_node = "";
  created = 0;
  updated = 0;
  forked_from = "";
  fork_seq = 0;
  base = 0;
  segments = [];
  last_seq = 0;
  events = 0;
  archived = false;
}

-- (*State).Exists
unfoldable pub exists : State → Bool
exists s = ltb 0 s.events

abbrev pub has {ℓ} : {V : Type ℓ} → Map V → String → Bool
has m k = elim (get m k) [ none ↦ false | some _ ↦ true ]

task_on : String → Map Task → Bool
task_on node [] = false
task_on node ((k, t) ∷ ts) = str_eq t.node node || task_on node ts

child_on : String → Map ChildState → Bool
child_on node [] = false
child_on node ((k, c) ∷ cs) = str_eq (node_of c k) node || child_on node cs

-- (*State).Open
unfoldable pub is_open : State → String → Bool
unfolding task_on child_on
is_open s node =
    has s.fans node
    || has s.maps node
    || has s.awaits node
    || task_on node s.tasks
    || child_on node s.children

-- A value of a map or of a slice is written as null where it is empty, and read back as null.
unfoldable pub raw_recode : Raw → Raw
raw_recode v = some (marshal_raw v)

unfoldable pub map_recode : Map Raw → Map Raw
map_recode [] = []
map_recode ((k, v) ∷ m) = (k, raw_recode v) ∷ map_recode m

unfoldable pub list_recode : List Raw → List Raw
list_recode [] = []
list_recode (v ∷ vs) = raw_recode v ∷ list_recode vs

unfoldable pub runs_recode : Map MapRun → Map MapRun
runs_recode [] = []
runs_recode ((k, m) ∷ ms) =
    (k, record m { items = list_recode m.items; outputs = list_recode m.outputs }) ∷ runs_recode ms

-- Unmarshal of the json.Marshal of a state (Clone, and the state that a fork or a continuation
-- carries)
unfoldable pub recode : State → State
unfolding raw_recode map_recode list_recode runs_recode
recode s = record s {
  channels = map_recode s.channels;
  results = map_recode s.results;
  signals = map_recode s.signals;
  maps = runs_recode s.maps;
}

abbrev pub Ev : Type 0
Ev = Event State

map_item_of : Option MapRun → Task → Context → Context
map_item_of none t c = c
map_item_of (some m) t c =
    if str_eq t.node t.owner then record c { item = t.item; index = some t.index } else c

resumed_of : Raw → Task → Context → Context
resumed_of none t c = c
resumed_of (some v) t c = record c {
  resume = some v;
  resumed_by = t.resumed_by;
  interrupt = t.interrupt;
}

instance_of : State → Option Task → Context → Context
instance_of s none c = c
instance_of s (some t) c = map_item_of (get s.maps t.owner) t (resumed_of t.resume t c)

empty_object : Raw → Raw
empty_object none = some (obj end)
empty_object (some v) = some v

-- (*State).ContextView, internal/fold/view.go
unfoldable pub context_view : State → Option Task → Context
unfolding map_item_of resumed_of instance_of empty_object
context_view s t = instance_of s t (record {
  input = empty_object s.input;
  channels = s.channels;
  results = s.results;
  last_node = s.last_node;
  visits = s.visits;
  signals = s.signals;
  branches = s.branches;
  counters = s.counters;
  errors = s.errors;
  item = none;
  index = none;
  resume = none;
  resumed_by = "";
  interrupt = none;
})
