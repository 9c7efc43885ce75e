-- ===== src/Event.antt =====
-- event/event.go: the events of an execution's log and their payloads.
use packtrail.Prelude.{ℕ, String, Bool, true, false, Option, List}
use packtrail.GoMap.{Map}
use packtrail.Json.{Raw, Float64}
use packtrail.Outcome.{Msg}

-- time.Time in nanoseconds; 0 is the zero time.
abbrev pub Time : Type 0
Time = ℕ

pub data Reason : Type 0 where
  -- none is given: the empty string
  unset : Reason
  error timeout invalid_output budget max_steps await_timeout join child expression : Reason
  delivery_failed unknown_flow decision_too_large : Reason
  -- a worker may give a reason of its own
  other : String → Reason

pub data Purpose : Type 0 where
  retry attempt_timeout await : Purpose

pub record ParentRef : Type 0 where
  pub exec_id : String
  pub node : String
  pub child_n : ℕ

pub record Started : Type 0 where
  pub exec_id : String
  pub flow : String
  pub flow_hash : String
  pub input : Raw
  pub parent : Option ParentRef
  pub attrs : Map String

pub record Segment : Type 0 where
  pub object : String
  pub first_index : ℕ
  pub last_index : ℕ
  pub first_seq : ℕ
  pub last_seq : ℕ

pub record Failed : Type 0 where
  pub error : Msg
  pub reason : Reason
  pub node : String
  pub cancel_children : List String

pub record Cancelled : Type 0 where
  pub reason : String
  pub cancel_children : List String

pub record Scheduled : Type 0 where
  pub key : String
  pub node : String
  pub kind : String
  pub index : ℕ
  pub generation : ℕ
  pub attempt : ℕ
  pub owner : String
  pub item : Raw
  pub resume : Raw
  pub resumed_by : String

pub record NodeDone : Type 0 where
  pub key : String
  pub node : String
  pub generation : ℕ
  pub attempt : ℕ
  pub output : Raw
  pub writes : Map Raw
  pub next : String
  pub usage : Map Float64
  pub cached : Bool
  pub cache_key : String

pub record NodeFail : Type 0 where
  pub key : String
  pub node : String
  pub generation : ℕ
  pub attempt : ℕ
  pub error : Msg
  pub reason : Reason
  pub will_retry : Bool
  pub usage : Map Float64

pub record Interrupted : Type 0 where
  pub key : String
  pub node : String
  pub generation : ℕ
  pub payload : Raw
  pub usage : Map Float64

pub record NodeCancel : Type 0 where
  pub key : String
  pub node : String
  pub reason : String

pub record Choice : Type 0 where
  pub node : String
  pub rule : ℕ
  pub name : String
  pub to : String
  pub error : String

pub record Fanout : Type 0 where
  pub node : String
  pub join : String
  pub branches : List String

pub record Join : Type 0 where
  pub node : String
  pub fanout : String
  pub succeeded : List String
  pub failed : List String
  pub ok : Bool
  pub output : Raw
  pub cancel_children : List String

pub record Await : Type 0 where
  pub node : String
  pub signal : String
  pub timer_id : String

pub record AwaitTimeout : Type 0 where
  pub node : String
  pub to : String

pub record Signal : Type 0 where
  pub name : String
  pub id : String
  pub payload : Raw

pub record SignalUse : Type 0 where
  pub node : String
  pub name : String
  pub id : String

pub record MapStart : Type 0 where
  pub node : String
  pub items : List Raw
  pub max_parallel : ℕ

pub record Update : Type 0 where
  pub id : String
  pub writes : Map Raw

pub record MapAbort : Type 0 where
  pub node : String
  pub index : ℕ
  pub cancel_children : List String

pub record Child : Type 0 where
  pub node : String
  pub child_id : String
  pub child_n : ℕ
  pub flow : String
  pub input : Raw
  pub policy : String
  -- empty means `node`
  pub key : String
  pub owner : String
  pub index : ℕ

pub record ChildDone : Type 0 where
  pub node : String
  -- empty means `node`
  pub key : String
  pub child_id : String
  pub status : String
  pub output : Raw
  pub error : String
  pub counters : Map Float64

pub record Timer : Type 0 where
  pub id : String
  pub n : ℕ
  pub at : Time
  pub purpose : Purpose
  pub key : String
  pub node : String
  pub generation : ℕ
  pub attempt : ℕ

-- The payload says the event's type. `S` is the state that a fork and a continuation carry.
pub data Payload (S : Type 0) : Type 0 where
  started : Started → Payload S
  -- exec_id, from, seq, state
  forked : String → String → ℕ → S → Payload S
  continued : S → Segment → Payload S
  completed : Raw → Payload S
  failed : Failed → Payload S
  cancelled : Cancelled → Payload S
  entered : String → Payload S
  scheduled : Scheduled → Payload S
  node_done : NodeDone → Payload S
  node_fail : NodeFail → Payload S
  interrupted : Interrupted → Payload S
  node_cancel : NodeCancel → Payload S
  choice : Choice → Payload S
  fanout : Fanout → Payload S
  join : Join → Payload S
  await : Await → Payload S
  await_timeout : AwaitTimeout → Payload S
  signal : Signal → Payload S
  signal_use : SignalUse → Payload S
  map_start : MapStart → Payload S
  map_done : String → Payload S
  update : Update → Payload S
  map_abort : MapAbort → Payload S
  child : Child → Payload S
  child_done : ChildDone → Payload S
  timer : Timer → Payload S
  fired : String → Payload S

pub record Event (S : Type 0) : Type 0 where
  pub time : Time
  pub index : ℕ
  pub cmd_id : String
  pub payload : Payload S
  -- set on read
  pub seq : ℕ

-- event.Type.Terminal
unfoldable pub is_terminal : {S : Type 0} → Payload S → Bool
is_terminal (completed _) = true
is_terminal (failed _) = true
is_terminal (cancelled _) = true
is_terminal _ = false
