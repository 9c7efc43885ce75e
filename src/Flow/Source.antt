-- ===== src/Flow/Source.antt =====
-- flow/flow.go, flow/errors.go: a definition as it is written, before validation, and the problems
-- that validation reports. A compiler of expressions (internal/expr over expr-lang), the compiler of
-- JSON schemas and the JSON encoding of `meta` are parameters.
use packtrail.Prelude.{
  ℕ, ℤ, pos, negsuc, String, Bool, Option, none, some, List, [], ◌∷◌, str_eq, if◌then◌else◌,
}
use packtrail.GoMap.{Map}
use packtrail.Json.{Json, Float64}
use packtrail.Text.{trim_space, strip_prefix, atoi}
use packtrail.Platform.{valid_token}

-- The default is none for nil, which a null is decoded to.
pub record ChannelSource : Type 0 where
  pub reducer : String
  pub default : Option Json

pub record TriggerSource : Type 0 where
  pub subject : String
  pub stream : String

-- durations are in nanoseconds
pub record RetrySource : Type 0 where
  pub max_attempts : ℤ
  pub backoff : String
  pub delay : ℤ
  pub max_delay : ℤ

pub record CacheSource : Type 0 where
  pub ttl : ℤ

pub record ConcurrencySource : Type 0 where
  pub key : String
  pub max : ℤ

pub record RuleSource : Type 0 where
  pub name : String
  pub when : String
  pub default : Bool
  pub to : String

pub record NodeSource : Type 0 where
  pub id : String
  pub type : String
  pub next : String
  pub on_failure : String
  -- whether it has entries, and the problem that json.Marshal has with them
  pub has_meta : Bool
  pub meta_problem : Option String
  pub kind : String
  pub timeout : ℤ
  pub retry : Option RetrySource
  pub output_schema : Option Json
  pub cache : Option CacheSource
  pub concurrency : Option ConcurrencySource
  pub dynamic : List String
  pub rules : List RuleSource
  pub on_error : String
  pub branches : List String
  pub wait_for : List String
  pub policy : String
  pub signal : String
  pub on_timeout : String
  pub over : String
  pub max_parallel : ℤ
  pub flow : String
  pub input : String
  pub on_parent_close : String

pub record FlowSource : Type 0 where
  pub version : String
  pub name : String
  pub start : String
  pub channels : Map ChannelSource
  pub output : String
  pub nodes : List NodeSource
  pub budget : Map Float64
  pub max_steps : ℤ
  pub search_attributes : Map String
  pub retention : ℤ
  pub on_expire : String
  pub archive_retention : ℤ
  pub triggers : List TriggerSource

-- What the validation takes from other packages: the problem that a compilation finds, if any.
pub record Compiler : Type 0 where
  -- expr.CompileValue, expr.CompilePredicate
  pub value_problem : String → Option String
  pub predicate_problem : String → Option String
  -- compileSchema
  pub schema_problem : Json → Option String
  -- v <= 0, of float64
  pub not_positive : Float64 → Bool

-- an argument of a formatted message
pub data Arg : Type 0 where
  text : String → Arg
  count : ℕ → Arg
  texts : List String → Arg
  pairs : List (String × String) → Arg

-- the underlying cause of a problem
pub data Cause : Type 0 where
  no_cause : Cause
  -- names.CheckToken of what is named so
  bad_token : String → String → Cause
  other : String → Cause

-- ValidationError; the message is kept as its format and arguments
pub record Problem : Type 0 where
  pub node : String
  pub field : String
  pub cause : Cause
  pub format : String
  pub args : List Arg

abbrev pub Problems : Type 0
Problems = List Problem

-- (*problems).add
abbrev pub add : String → String → Cause → String → List Arg → Problems
add node field cause format args =
    record { node = node; field = field; cause = cause; format = format; args = args } ∷ []

-- names.CheckToken, with what it names
unfoldable pub check_token : String → String → String → String → Problems
check_token node field what s =
    if valid_token s then [] else add node field (bad_token what s) "" []

-- a problem that another package found
unfoldable pub caused : String → String → String → Option String → Problems
caused node field format none = []
caused node field format (some problem) = add node field (other problem) format []

-- the policy of a join; a count that is not a number is -1
pub data Policy : Type 0 where
  all any : Policy
  quorum min : ℤ → Policy
  unknown : String → Policy

join_count : Option ℤ → ℤ
join_count none = negsuc 0
join_count (some q) = q

policy_of : String → Option String → Option String → Policy
unfolding join_count
policy_of p (some q) m = quorum (join_count (atoi q))
policy_of p none (some q) = min (join_count (atoi q))
policy_of p none none =
    -- a bare "quorum" or "min" is its own kind, with a count of 0
    if str_eq p "quorum" then quorum (pos 0) else if str_eq p "min" then min (pos 0) else unknown p

policy_text : String → Policy
unfolding policy_of
policy_text p =
    if str_eq p ""
    then all
    else if str_eq p "all"
    then all
    else if str_eq p "any"
    then any
    else policy_of p (strip_prefix "quorum:" p) (strip_prefix "min:" p)

-- (*Node).JoinKind
unfoldable pub join_kind : NodeSource → Policy
unfolding policy_text
join_kind n = policy_text (trim_space n.policy)
