-- ===== src/Flow.antt =====
-- flow/flow.go: a validated flow definition, as the fold sees it. A compiled expression
-- (internal/expr, a program of the expr-lang VM) is the function that its evaluation computes.
mod Backoff
pub mod Valid
pub mod Source
pub mod Validate
pub mod Graph
pub use Backoff.{Retry, BackoffKind, fixed, linear, exponential, backoff}
use packtrail.Prelude.{
  ℕ, zero, suc, String, Bool, true, false, Option, none, some, List, [], ◌∷◌, str_eq, if◌then◌else◌,
  ltb, ◌||◌,
}
use packtrail.GoMap.{Map, get}
use packtrail.Json.{Json, Raw, Float64}
use packtrail.Outcome.{Msg}
use packtrail.Event.{Reason}

-- fold.NodeError: how a node last failed permanently
pub record NodeError : Type 0 where
  pub error : Msg
  pub reason : Reason
  pub attempt : ℕ
  pub index : Option ℕ

pub data BranchStatus : Type 0 where
  pending done broken dropped : BranchStatus

-- fold.Context: what a worker and an expression see
pub record Context : Type 0 where
  pub input : Raw
  pub channels : Map Raw
  pub results : Map Raw
  pub last_node : String
  pub visits : Map ℕ
  pub signals : Map Raw
  pub branches : Map BranchStatus
  pub counters : Map Float64
  pub errors : Map NodeError
  pub item : Raw
  pub index : Option ℕ
  pub resume : Raw
  pub resumed_by : String
  pub interrupt : Raw

-- What an evaluation returns: a value, which encodes as JSON, or an error.
pub data Eval : Type 0 where
  value : Json → Eval
  failure : String → Eval

abbrev pub Program : Type 0
Program = Context → Eval

pub data Reducer : Type 0 where
  replace append merge sum : Reducer
  unknown : String → Reducer

pub record Channel : Type 0 where
  -- ReducerOrDefault
  pub reducer : Reducer
  pub default : Option Json

pub data NodeType : Type 0 where
  task choice fanout join await map subflow : NodeType

-- The policy of a join, as JoinKind reads it. A count that is not a number is -1 there, which is
-- enough for every number of successes; so is 0.
pub data JoinKind : Type 0 where
  all any : JoinKind
  quorum min : ℕ → JoinKind

pub record Rule : Type 0 where
  pub name : String
  pub default : Bool
  pub to : String

pub record Node : Type 0 where
  pub id : String
  pub type : NodeType
  pub next : String
  pub on_failure : String
  pub kind : String
  -- nanoseconds; validation refuses a negative one
  pub timeout : ℕ
  pub retry : Option Retry
  pub dynamic : List String
  pub rules : List Rule
  -- RulePrograms: none for the default
  pub programs : List (Option Program)
  -- on_error: fail
  pub fails_on_error : Bool
  pub branches : List String
  pub wait_for : List String
  pub policy : JoinKind
  pub signal : String
  pub on_timeout : String
  pub over : Program
  pub max_parallel : ℕ
  pub flow : String
  pub input : Option Program
  pub on_parent_close : String
  -- the compiled output_schema: the problem it finds, if any
  pub schema : Option (Json → Option String)

pub record Flow : Type 0 where
  pub name : String
  -- Hash: the content hash of the definition
  pub hash : String
  pub channels : Map Channel
  pub output : Option Program
  pub budget : Map Float64
  pub max_steps : ℕ
  -- search attributes: the printed value on an input, none where it fails or is nil
  pub attrs : Map (Raw → Option String)
  pub by_id : Map Node
  pub start_id : String
  -- fanout id to join id
  pub join_of : Map String

abbrev pub end_target : String
end_target = "$end"

abbrev pub default_max_steps : ℕ
default_max_steps = 1000

abbrev pub default_map_parallel : ℕ
default_map_parallel = 100

abbrev pub parent_close_cancel : String
parent_close_cancel = "cancel"

abbrev pub parent_close_abandon : String
parent_close_abandon = "abandon"

-- (*Flow).MaxStepsOrDefault
unfoldable pub max_steps_or_default : Flow → ℕ
max_steps_or_default f = if ltb 0 f.max_steps then f.max_steps else default_max_steps

-- (*Flow).Node
unfoldable pub node_of : Flow → String → Option Node
node_of f id = get f.by_id id

fan_of : Map String → String → Option String
fan_of [] id = none
fan_of ((fan, j) ∷ m) id = if str_eq j id then some fan else fan_of m id

branches_of : Option Node → List String
branches_of none = []
branches_of (some n) = n.branches

fan_branches : Flow → Option String → List String
unfolding branches_of
fan_branches f none = []
fan_branches f (some fan) = branches_of (get f.by_id fan)

wait_for_node : Flow → Option Node → List String
unfolding fan_of fan_branches
wait_for_node f none = []
wait_for_node f (some n) = elim n.wait_for [
  | [] ↦ fan_branches f (fan_of f.join_of n.id)
  | b ∷ bs ↦ b ∷ bs
]

-- (*Flow).WaitFor, flow/graph.go
unfoldable pub wait_for : Flow → String → List String
unfolding wait_for_node
wait_for f id = wait_for_node f (get f.by_id id)

-- (*Node).MaxAttempts
unfoldable pub max_attempts : Node → ℕ
max_attempts n = elim n.retry [
  | none ↦ 1
  | some r ↦ if ltb r.max_attempts 1 then 1 else r.max_attempts
]

-- (*Node).Backoff
unfoldable pub node_backoff : Node → ℕ → ℕ
node_backoff n attempt = elim n.retry [ none ↦ 0 | some r ↦ backoff r attempt ]

-- (*Node).ParentClose
unfoldable pub parent_close : Node → String
parent_close n = if str_eq n.on_parent_close "" then parent_close_cancel else n.on_parent_close

-- (*Node).ValidateOutput
unfoldable pub validate_output : Node → Json → Option String
validate_output n v = elim n.schema [ none ↦ none | some check ↦ check v ]

contains : List String → String → Bool
contains [] x = false
contains (y ∷ ys) x = str_eq y x || contains ys x

-- (*Node).AllowsDynamic
unfoldable pub allows_dynamic : Node → String → Bool
unfolding contains
allows_dynamic n target = contains n.dynamic target
