-- ===== src/Flow/Validate/Fields.antt =====
-- flow/validate.go: fields that do not belong to the type of a node.
use packtrail.Prelude.{
  String, Bool, true, false, not, ◌||◌, ◌&&◌, Option, none, some, List, [], ◌∷◌, str_eq,
  if◌then◌else◌, is_zero,
}
use packtrail.Flow.Source.{NodeSource, text, texts, no_cause, Problems, add}

abbrev present {ℓ} : {A : Type ℓ} → Option A → Bool
present none = false
present (some a) = true

abbrev pub filled {ℓ} : {A : Type ℓ} → List A → Bool
filled [] = false
filled (x ∷ xs) = true

-- fieldSet, in the order of the names, which is the order that the problem lists them in
unfoldable pub field_set : NodeSource → List (String × Bool)
field_set n =
    ("branches", filled n.branches)
    ∷ ("cache", present n.cache)
    ∷ ("concurrency", present n.concurrency)
    ∷ ("dynamic", filled n.dynamic)
    ∷ ("flow", not (str_eq n.flow ""))
    ∷ ("input", not (str_eq n.input ""))
    ∷ ("kind", not (str_eq n.kind ""))
    ∷ ("max_parallel", not (is_zero n.max_parallel))
    ∷ ("next", not (str_eq n.next ""))
    ∷ ("on_error", not (str_eq n.on_error ""))
    ∷ ("on_failure", not (str_eq n.on_failure ""))
    ∷ ("on_parent_close", not (str_eq n.on_parent_close ""))
    ∷ ("on_timeout", not (str_eq n.on_timeout ""))
    ∷ ("output_schema", present n.output_schema)
    ∷ ("over", not (str_eq n.over ""))
    ∷ ("policy", not (str_eq n.policy ""))
    ∷ ("retry", present n.retry)
    ∷ ("rules", filled n.rules)
    ∷ ("signal", not (str_eq n.signal ""))
    ∷ ("timeout", not (is_zero n.timeout))
    ∷ ("wait_for", filled n.wait_for)
    ∷ []

-- allowedFields, none for an unknown type
unfoldable pub allowed_fields : String → Option (List String)
allowed_fields type =
    if str_eq type "task"
    then some (
        "kind" ∷ "timeout" ∷ "retry" ∷ "output_schema" ∷ "cache" ∷ "concurrency" ∷ "dynamic"
        ∷ "next" ∷ "on_failure" ∷ [])
    else if str_eq type "choice"
    then some ("rules" ∷ "on_error" ∷ [])
    else if str_eq type "fanout"
    then some ("branches" ∷ "next" ∷ [])
    else if str_eq type "join"
    then some ("wait_for" ∷ "policy" ∷ "next" ∷ "on_failure" ∷ [])
    else if str_eq type "await"
    then some ("signal" ∷ "timeout" ∷ "on_timeout" ∷ "next" ∷ [])
    else if str_eq type "map"
    then some (
        "kind" ∷ "over" ∷ "max_parallel" ∷ "timeout" ∷ "retry" ∷ "output_schema" ∷ "next"
        ∷ "on_failure" ∷ "flow" ∷ "input" ∷ "on_parent_close" ∷ [])
    else if str_eq type "subflow"
    then some ("flow" ∷ "input" ∷ "on_parent_close" ∷ "next" ∷ "on_failure" ∷ [])
    else none

-- slices.Contains
unfoldable pub contains : List String → String → Bool
contains [] x = false
contains (y ∷ ys) x = str_eq y x || contains ys x

unfoldable pub foreign : List String → List (String × Bool) → List String
foreign allowed [] = []
foreign allowed ((field, set) ∷ fields) =
    let rest = foreign allowed fields in
    if set && not (contains allowed field) then field ∷ rest else rest

unfoldable pub foreign_problem : NodeSource → List String → Problems
foreign_problem n [] = []
foreign_problem n (x ∷ xs) =
    add n.id "" no_cause "field(s) %v do not apply to a %s node" (texts (x ∷ xs) ∷ text n.type ∷ [])

-- (*Flow).rejectForeignFields
unfoldable pub reject_foreign_fields : NodeSource → Problems
reject_foreign_fields n = elim (allowed_fields n.type) [
  | none ↦ []
  | some allowed ↦ foreign_problem n (foreign allowed (field_set n))
]
