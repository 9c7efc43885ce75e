-- ===== src/Cmd.antt =====
-- internal/cmd/cmd.go: the commands and their payloads.
use packtrail.Prelude.{ℕ, String, Bool, Option}
use packtrail.GoMap.{Map}
use packtrail.Json.{Raw, Float64}
use packtrail.Event.{ParentRef, Reason}

pub record StartData : Type 0 where
  pub flow : String
  pub version : String
  pub input : Raw
  pub parent : Option ParentRef

pub record TaskRef : Type 0 where
  pub key : String
  pub generation : ℕ
  pub attempt : ℕ

pub record CompleteData : Type 0 where
  pub ref : TaskRef
  pub output : Raw
  pub writes : Map Raw
  pub next : String
  pub usage : Map Float64
  pub cache_key : String
  pub cached : Bool

pub record FailData : Type 0 where
  pub ref : TaskRef
  pub error : String
  pub retryable : Bool
  pub reason : Reason
  pub usage : Map Float64

pub record InterruptData : Type 0 where
  pub ref : TaskRef
  pub payload : Raw
  pub usage : Map Float64

pub record ResumeData : Type 0 where
  pub node : String
  pub key : String
  pub value : Raw
  pub by : String

pub record SignalData : Type 0 where
  pub name : String
  pub payload : Raw

pub record ChildDoneData : Type 0 where
  pub child_id : String
  pub status : String
  pub output : Raw
  pub error : String
  pub counters : Map Float64

-- A command's type and its decoded payload. `undecodable` is a payload that does not decode, and
-- `not_folded` a type that never reaches the fold (fork, archive, delete, redispatch).
pub data Request : Type 0 where
  start : StartData → Request
  complete : CompleteData → Request
  fail : FailData → Request
  interrupt : InterruptData → Request
  resume : ResumeData → Request
  signal : SignalData → Request
  cancel : String → Request
  timer : String → Request
  child_done : ChildDoneData → Request
  update : Map Raw → Request
  not_folded : Request
  undecodable_start undecodable_update undecodable : Request

pub record Command : Type 0 where
  pub id : String
  pub request : Request

pub record ForkData : Type 0 where
  pub from : String
  pub seq : ℕ
  pub writes : Map Raw

-- What a command asks for: a request to the fold, or one that the engine serves itself.
pub data Order : Type 0 where
  fold : Request → Order
  fork : ForkData → Order
  undecodable_fork : Order
  archive delete redispatch : Order

-- Command, the envelope, with its decoded payload
pub record Envelope : Type 0 where
  pub id : String
  pub exec_id : String
  -- the subject that an answer goes to, or the empty text
  pub reply : String
  pub order : Order

-- the text of the command's type
unfoldable pub type_name : Order → String
type_name (fold (start _)) = "start"
type_name (fold (complete _)) = "complete"
type_name (fold (fail _)) = "fail"
type_name (fold (interrupt _)) = "interrupt"
type_name (fold (resume _)) = "resume"
type_name (fold (signal _)) = "signal"
type_name (fold (cancel _)) = "cancel"
type_name (fold (timer _)) = "timer"
type_name (fold (child_done _)) = "child_done"
type_name (fold (update _)) = "update"
type_name (fold undecodable_start) = "start"
type_name (fold undecodable_update) = "update"
type_name (fold _) = ""
type_name (fork _) = "fork"
type_name undecodable_fork = "fork"
type_name archive = "archive"
type_name delete = "delete"
type_name redispatch = "redispatch"
