-- ===== src/Flow/Validate/Level.antt =====
-- flow/validate.go: the checks of the flow itself.
use packtrail.Prelude.{
  ℕ, suc, String, Bool, true, false, not, ◌||◌, ◌&&◌, Option, none, some, List, [], ◌∷◌, ◌++◌,
  str_eq, if◌then◌else◌, is_negative, is_zero, exceeds,
}
use packtrail.GoMap.{Map}
use packtrail.Json.{Json, num, arr, obj, Float64}
use packtrail.Text.{trim_space, is_blank, has_white}
use packtrail.Platform.{itoa, ◌⧺◌}
use packtrail.Flow.Source.{
  ChannelSource, TriggerSource, FlowSource, Compiler, text, no_cause, Problems, add, check_token,
  caused,
}

abbrev pub supported_version : String
supported_version = "1"

abbrev pub when : Bool → Problems → Problems
when b ps = if b then ps else []

-- "field[i]"
abbrev pub indexed : String → ℕ → String
indexed field i = field ⧺ "[" ⧺ itoa i ⧺ "]"

unfoldable pub validate_version : FlowSource → Problems
validate_version f =
    let v = trim_space f.version in
    when (not (str_eq v "") && not (str_eq v supported_version)) (
      add "" "version" no_cause "unsupported version %q (this build supports %q)"
        (text f.version ∷ text supported_version ∷ []))

-- (*Flow).validateExpiry
unfoldable pub validate_expiry : FlowSource → Problems
validate_expiry f =
    when
      (not (str_eq f.on_expire "")
        && not (str_eq f.on_expire "archive")
        && not (str_eq f.on_expire "delete"))
      (add "" "on_expire" no_cause "unknown value %q (%s or %s)"
        (text f.on_expire ∷ text "archive" ∷ text "delete" ∷ []))
    ++ when (not (str_eq f.on_expire "") && is_zero f.retention) (
        add "" "on_expire" no_cause "needs a retention: without one the execution never expires" [])
    ++ when (is_negative f.archive_retention)
        (add "" "archive_retention" no_cause "must not be negative" [])
    ++ when (exceeds f.archive_retention 0 && str_eq f.on_expire "delete") (
        add "" "archive_retention" no_cause
          "has no effect with on_expire: %s, which leaves no archive" (text "delete" ∷ []))

-- what a default has to be for a reducer, or whether the reducer is unknown
fits : String → Option Json → Option Bool
fits reducer v =
    if str_eq reducer "" || str_eq reducer "replace"
    then some true
    else if str_eq reducer "append"
    then some (elim v [ none ↦ true | some (arr vs) ↦ true | some _ ↦ false ])
    else if str_eq reducer "merge"
    then some (elim v [ none ↦ true | some (obj fs) ↦ true | some _ ↦ false ])
    else if str_eq reducer "sum"
    then some (elim v [ none ↦ true | some (num x) ↦ true | some _ ↦ false ])
    else none

channel_default : String → String → Option Bool → Problems
channel_default field reducer none =
    add "" (field ⧺ ".reducer") no_cause "unknown reducer %q (want replace, append, merge or sum)"
      (text reducer ∷ [])
channel_default field reducer (some true) = []
channel_default field reducer (some false) =
    add "" (field ⧺ ".default") no_cause "does not fit reducer %q" (text reducer ∷ [])

-- (*Flow).validateChannels
unfoldable pub validate_channels : Map ChannelSource → Problems
unfolding fits channel_default
validate_channels [] = []
validate_channels ((name, c) ∷ channels) =
    check_token "" ("channels." ⧺ name) "channel name" name
    ++ channel_default ("channels." ⧺ name) c.reducer (fits c.reducer c.default)
    ++ validate_channels channels

-- (*Flow).validateOutput
unfoldable pub validate_output : Compiler → String → Problems
validate_output c output =
    if is_blank output then [] else caused "" "output" "" (c.value_problem output)

validate_budget : Compiler → Map Float64 → Problems
validate_budget c [] = []
validate_budget c ((k, v) ∷ budget) =
    check_token "" ("budget." ⧺ k) "budget counter" k
    ++ when (c.not_positive v) (add "" ("budget." ⧺ k) no_cause "must be positive" [])
    ++ validate_budget c budget

validate_attrs : Compiler → Map String → Problems
validate_attrs c [] = []
validate_attrs c ((k, source) ∷ attrs) =
    check_token "" ("search_attributes." ⧺ k) "search attribute" k
    ++ caused "" ("search_attributes." ⧺ k) "" (c.value_problem source)
    ++ validate_attrs c attrs

-- (*Flow).validateTriggers, from trigger `i` on
unfoldable pub validate_triggers : ℕ → List TriggerSource → Problems
validate_triggers i [] = []
validate_triggers i (tr ∷ triggers) =
    when (is_blank tr.subject || has_white tr.subject) (
      add "" (indexed "triggers" i ⧺ ".subject") no_cause "%q is not a valid subject"
        (text tr.subject ∷ []))
    ++ (if str_eq tr.stream ""
        then []
        else check_token "" (indexed "triggers" i ⧺ ".stream") "trigger stream" tr.stream)
    ++ validate_triggers (suc i) triggers

-- (*Flow).validateFlowLevel
unfoldable pub validate_flow_level : Compiler → FlowSource → Problems
unfolding validate_budget validate_attrs
validate_flow_level c f =
    when (is_negative f.max_steps) (add "" "max_steps" no_cause "must not be negative" [])
    ++ when (is_negative f.retention) (add "" "retention" no_cause "must not be negative" [])
    ++ validate_expiry f
    ++ validate_channels f.channels
    ++ validate_output c f.output
    ++ validate_budget c f.budget
    ++ validate_attrs c f.search_attributes
    ++ validate_triggers 0 f.triggers
