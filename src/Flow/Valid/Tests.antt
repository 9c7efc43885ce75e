-- ===== src/Flow/Valid/Tests.antt =====
-- Runs of the validation, and the theorems about it at a concrete flow.
use packtrail.Prelude.{
  ◌≡◌, ◌↔◌, refl, String, true, false, none, some, List, [], ◌∷◌, pos, str_eq, length,
}
use packtrail.GoMap.{get, put, str_lt, empty}
use packtrail.Outcome.{ok}
use packtrail.Platform.{valid_token}
use packtrail.Text.{trim_space, is_blank, strip_prefix, atoi}
use packtrail.Flow.Source.{NodeSource, FlowSource, Compiler, Problems, check_token, join_kind}
use packtrail.Flow.Graph.{deref, rule_routes, dynamic_routes, routes, successors}
use packtrail.Flow.Graph.Fans.{
  Fans, branch_problems, fan_branches, fan_of, close_fan, validate_fan, fan_loop, wait_problems,
  awaited, count_problems, validate_join_fan, join_loop, validate_fans,
}
use packtrail.Flow.Graph.Entry.{entry_problem, route_loop, reject_branch_entry}
use packtrail.Flow.Graph.Start.{inbound_of, without_inbound, found_start, resolve_start}
use packtrail.Flow.Graph.Search.{push_new, offer, expand, explore, unreachable, reject_unreachable}
use packtrail.Flow.Validate.{
  by_id_of, id_problems, keep_first, index_nodes, from_start, validate_graph, early_problems,
  after_early, validate_with, validate,
}
use packtrail.Flow.Validate.Level.{
  validate_version, validate_expiry, validate_channels, validate_output, validate_triggers,
  validate_flow_level,
}
use packtrail.Flow.Validate.Fields.{
  field_set, allowed_fields, contains, foreign, foreign_problem, reject_foreign_fields,
}
use packtrail.Flow.Validate.Nodes.{
  ref, refs, encode_meta, validate_retry, validate_attempt_policy, validate_task, validate_fanout,
  validate_join, validate_subflow, by_type, validate_node, route_problems, validate_nodes,
}
use packtrail.Flow.Valid.{Found, All}
use packtrail.Flow.Valid.Reach.{Reaches, search_exact, rejects_unreachable}
use packtrail.Flow.Valid.Returns.{IsReady, ready-IsClosed}
use packtrail.Flow.Valid.Sound.{valid-IsSound, validate_returns, valid-Reaches, valid_references}
use packtrail.Flow.Valid.Isolated.{IsFan, valid_fanouts}
use packtrail.Flow.Valid.Reports.{Reported, unknown-Reported}

abbrev accepting : Compiler
accepting = record {
  value_problem = λ s. none;
  predicate_problem = λ s. none;
  schema_problem = λ d. none;
  not_positive = λ x. false;
}

abbrev blank : NodeSource
blank = record {
  id = "";
  type = "";
  next = "";
  on_failure = "";
  has_meta = false;
  meta_problem = none;
  kind = "";
  timeout = pos 0;
  retry = none;
  output_schema = none;
  cache = none;
  concurrency = none;
  dynamic = [];
  rules = [];
  on_error = "";
  branches = [];
  wait_for = [];
  policy = "";
  signal = "";
  on_timeout = "";
  over = "";
  max_parallel = pos 0;
  flow = "";
  input = "";
  on_parent_close = "";
}

abbrev flow_of : List NodeSource → FlowSource
flow_of nodes = record {
  version = "1";
  name = "demo";
  start = "";
  channels = [];
  output = "";
  nodes = nodes;
  budget = [];
  max_steps = pos 0;
  search_attributes = [];
  retention = pos 0;
  on_expire = "";
  archive_retention = pos 0;
  triggers = [];
}

abbrev task : String → String → NodeSource
task id next = record blank { id = id; type = "task"; kind = "work"; next = next }

-- a task, two branches, and the join that closes them
abbrev demo : FlowSource
demo = flow_of (
    task "go" "fan"
    ∷ record blank { id = "fan"; type = "fanout"; branches = "a" ∷ "b" ∷ []; next = "meet" }
    ∷ task "a" ""
    ∷ record blank { id = "b"; type = "subflow"; flow = "child" }
    ∷ record blank { id = "meet"; type = "join"; policy = "quorum:2" }
    ∷ [])

demo_valid : validate accepting demo ≡ ok []
unfolding validate validate_with after_early early_problems check_token valid_token validate_version
    trim_space index_nodes id_problems keep_first get put str_lt validate_flow_level validate_expiry
    validate_channels validate_output validate_triggers is_blank validate_nodes validate_node
    reject_foreign_fields foreign_problem foreign field_set allowed_fields contains encode_meta
    by_type validate_task validate_attempt_policy validate_retry refs ref validate_fanout
    validate_join join_kind strip_prefix atoi validate_subflow route_problems validate_graph
    validate_fans fan_loop validate_fan fan_branches deref branch_problems close_fan fan_of
    join_loop validate_join_fan wait_problems awaited count_problems reject_branch_entry route_loop
    routes rule_routes dynamic_routes entry_problem resolve_start found_start inbound_of
    without_inbound successors from_start reject_unreachable explore expand offer push_new
    unreachable
demo_valid = refl

validate_returns_example : (ps : Problems) × (validate accepting demo ≡ ok ps)
validate_returns_example = validate_returns accepting demo

valid-Reaches_example :
    (fans : Fans) × (validate_fans (by_id_of demo) demo.nodes ≡ ok ([], fans))
    × (start : String) × (resolve_start (by_id_of demo) fans.branch_of demo ≡ ([], some start))
    × All (λ n. Reaches (by_id_of demo) start n.id) demo.nodes
valid-Reaches_example = valid-Reaches accepting demo demo_valid

valid_references_example :
    All (λ n. get (by_id_of demo) n.id ≡ some n) demo.nodes
    × All (λ n. All (Found (by_id_of demo)) (successors n)) demo.nodes
valid_references_example = valid_references accepting demo demo_valid

valid_fanouts_example : All (λ n. str_eq n.type "fanout" ≡ true → IsFan demo n) demo.nodes
valid_fanouts_example = valid_fanouts accepting demo demo_valid

abbrev ready : IsReady accepting (by_id_of demo) demo.nodes
ready = (valid-IsSound accepting demo demo_valid).ready

go_Found : Found (by_id_of demo) "go"
unfolding index_nodes keep_first get put str_lt
go_Found = (task "go" "fan", refl)

search_exact_example :
    (all : List String) × (explore (by_id_of demo) 5 ("go" ∷ []) ("go" ∷ []) ≡ ok all)
    × ((x : String) → (contains all x ≡ true) ↔ Reaches (by_id_of demo) "go" x)
search_exact_example =
    search_exact (by_id_of demo) (ready-IsClosed accepting (by_id_of demo) demo.nodes ready) "go"
      go_Found 5 ready.size

rejects_unreachable_example :
    (ps : Problems) × (reject_unreachable (by_id_of demo) demo.nodes "go" ≡ ok ps)
    × ((ps ≡ []) ↔ All (λ n. Reaches (by_id_of demo) "go" n.id) demo.nodes)
rejects_unreachable_example =
    rejects_unreachable (by_id_of demo) demo.nodes "go"
      (ready-IsClosed accepting (by_id_of demo) demo.nodes ready) go_Found ready.size

-- a task that leads to no node
abbrev lost : FlowSource
lost = flow_of (task "go" "gone" ∷ [])

abbrev lost_problems : Problems
lost_problems = (validate_returns accepting lost).0

unknown-Reported_example : All (Reported (by_id_of lost) lost_problems) lost.nodes
unknown-Reported_example =
    unknown-Reported accepting lost lost_problems (validate_returns accepting lost).1

-- a join whose policy is a bare "min" is accepted, with a count of 0
bare_min : validate_join empty (record blank { id = "meet"; type = "join"; policy = "min" }) ≡ []
unfolding validate_join join_kind trim_space strip_prefix
bare_min = refl

bare_quorum :
    length (validate_join empty (record blank { id = "meet"; type = "join"; policy = "quorum" }))
    ≡ 1
unfolding validate_join join_kind trim_space strip_prefix
bare_quorum = refl
