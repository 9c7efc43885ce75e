-- ===== src/Fold/Decide/Route.antt =====
-- internal/fold/decide.go: entering a node and what it leads to. `enter` is the recursive call, so
-- the functions take it as a parameter, and `enter_within` ties the knot on fuel.
use packtrail.Prelude.{
  ℕ, zero, suc, ◌+◌, ◌-◌, String, Bool, true, ◌&&◌, Option, none, some, List, [], ◌∷◌, ltb, ◌==◌,
  str_eq, if◌then◌else◌, length, get_elem?,
}
use packtrail.GoMap.{get}
use packtrail.Json.{Json, null, bool, arr, obj, Raw, is_null, is_object, of_items, marshal_fields}
use packtrail.Outcome.{
  text, unknown_node, steps_reached, cannot_enter, output_failed, output_not_object, over_failed,
  over_not_list, panic, out_of_fuel,
}
use packtrail.Platform.{itoa, ◌⧺◌}
use packtrail.Event.{
  Reason, Purpose, completed, entered, choice, fanout, await, timer, signal_use, map_start,
  map_done,
}
use packtrail.Flow.{
  Flow, Node, NodeType, Rule, Program, Eval, Context, value, failure, end_target,
  default_map_parallel, max_steps_or_default,
}
use packtrail.Fold.State.{State, MapRun, Buffered, context_view}
use packtrail.Fold.Apply.Nodes.{raw_at}
use packtrail.Fold.Decide.Monad.{Step, raise, ask, look, deref, skip, ◌>>=◌, ◌>>◌, emit}
use packtrail.Fold.Decide.Basics.{node, alloc, is_done, fail, schedule, no_resumption, start_child}

abbrev items_of : List Json → List Raw
items_of [] = []
items_of (v ∷ vs) = some v ∷ items_of vs

unfoldable pub finish_object : Raw → Step
finish_object out = emit (completed out)

unfoldable pub finish_with : Eval → Step
unfolding finish_object
finish_with (failure problem) = fail Reason.expression (output_failed problem) ""
finish_with (value v) =
    if is_null (some v)
    then finish_object none
    else if is_object (some v)
    then finish_object (some v)
    else fail Reason.expression output_not_object ""

-- every channel, or the last node's result when the flow declares none
unfoldable pub default_output : Flow → State → Raw
default_output def s = elim def.channels [
  | [] ↦ raw_at s.results s.last_node
  | c ∷ cs ↦ some (obj (marshal_fields s.channels))
]

unfoldable pub finish_by : Option Program → Step
unfolding default_output finish_with
finish_by none = do
  def ← ask (λ d. d.def)
  out ← look (λ w. default_output def w.st)
  emit (completed out)
finish_by (some p) = do c ← look (λ w. context_view w.st none); finish_with (p c)

-- (*decider).complete0
unfoldable pub complete_flow : Step
unfolding finish_by
complete_flow = do output ← ask (λ d. d.def.output); finish_by output

-- the first buffered signal of a name
unfoldable pub buffered_signal : String → List Buffered → Option Buffered
buffered_signal name [] = none
buffered_signal name (b ∷ bs) = if str_eq b.name name then some b else buffered_signal name bs

-- (*Program).Match
unfoldable pub matches : Eval → Eval
matches (value (bool b)) = value (bool b)
matches (value _) = failure "not a bool"
matches (failure problem) = failure problem

-- fan-out branches, one after the other, until one ends the execution
unfoldable pub branch_start : String → String → Node → NodeType → Step
branch_start fan b n NodeType.subflow = start_child n b fan 0 none
branch_start fan b n _ = schedule n b fan 0 none no_resumption 0 1

unfoldable pub branch_step : String → String → Step
unfolding branch_start
branch_step fan b = do
  emit (entered b)
  found ← node b
  n ← deref found
  branch_start fan b n n.type

unfoldable pub branch_loop : String → List String → Step
unfolding branch_step
branch_loop fan [] = skip
branch_loop fan (b ∷ bs) = do
  branch_step fan b
  over ← is_done
  if over then skip else branch_loop fan bs

-- (*decider).fanout
unfoldable pub fan_out : Node → Step
unfolding branch_loop
fan_out n = do
  joins ← ask (λ d. d.def.join_of)
  emit (
      fanout (record {
        node = n.id;
        join = elim (get joins n.id) [ none ↦ "" | some j ↦ j ];
        branches = n.branches;
      }))
  branch_loop n.id n.branches

-- what starts the next item of a map
unfoldable pub item_start : Node → MapRun → Step
item_start n m =
    let key = n.id ⧺ "#" ⧺ itoa m.next in
    let item : Raw = elim (get_elem? m.items m.next) [ none ↦ none | some v ↦ v ] in
    if str_eq n.flow ""
    then schedule n key n.id m.next item no_resumption 0 1
    else start_child n key n.id m.next item

unfoldable pub item_limit : MapRun → ℕ
item_limit m = if ltb 0 m.max_parallel then m.max_parallel else default_map_parallel

-- m.Next < len(m.Items) && m.Next-m.Done < limit
unfoldable pub has_room : MapRun → Bool
unfolding item_limit
has_room m = ltb m.next (length m.items) && ltb m.next (m.done + item_limit m)

unfoldable pub item_round : Node → MapRun → Step → Step
unfolding item_start
item_round n m rest = do item_start n m; over ← is_done; if over then skip else rest

-- The loop of mapProgress. A round starts an item, so one round for each item that has not
-- started is enough: after them the test of the loop fails.
unfoldable pub item_loop : ℕ → Node → Step
unfolding item_round
item_loop zero n = skip
item_loop (suc rounds) n = do
  found ← look (λ w. get w.st.maps n.id)
  m ← deref found
  if has_room m then item_round n m (item_loop rounds n) else skip

unfoldable pub rule_error : Node → ℕ → Rule → String → Step
rule_error n i r problem = do
  emit (choice (record { node = n.id; rule = i; name = r.name; to = ""; error = problem }))
  fail Reason.expression (text problem) n.id

module _ (enter : String → Step) where
  -- (*decider).advance
  unfoldable pub advance : Node → String → Step
  advance n dyn =
      let next = if str_eq dyn "" then n.next else dyn in
      if str_eq next "" then complete_flow else enter next

  -- (*decider).route
  unfoldable pub route : Node → ℕ → Rule → Step
  route n i r = do
    emit (choice (record { node = n.id; rule = i; name = r.name; to = r.to; error = "" }))
    if str_eq r.to end_target then complete_flow else enter r.to

  unfoldable pub fall_back : Node → Option (ℕ × Rule) → Step
  fall_back n none = raise panic
  fall_back n (some (i, r)) = route n i r

  -- what follows the evaluation of rule `i`: the rest of the loop is `rest`
  unfoldable pub judge : Node → ℕ → Rule → Step → Eval → Step
  unfolding rule_error
  judge n i r rest (value (bool true)) = route n i r
  judge n i r rest (value _) = rest
  judge n i r rest (failure problem) = if n.fails_on_error then rule_error n i r problem else rest

  unfoldable pub evaluate : Node → Context → ℕ → Rule → Step → Step
  unfolding judge
  evaluate n c i r rest = do
    found ← deref (get_elem? n.programs i)
    p ← deref found
    judge n i r rest (matches (p c))

  unfoldable pub rule_loop : Node → Context → ℕ → List Rule → Option (ℕ × Rule) → Step
  unfolding fall_back evaluate
  rule_loop n c i [] def = fall_back n def
  rule_loop n c i (r ∷ rs) def =
      let default = rule_loop n c (i + 1) rs (some (i, r)) in
      let rest = rule_loop n c (i + 1) rs def in
      if r.default then default else evaluate n c i r rest

  -- (*decider).choose
  unfoldable pub choose : Node → Step
  unfolding rule_loop
  choose n = do c ← look (λ w. context_view w.st none); rule_loop n c 0 n.rules none

  unfoldable pub deliver : Node → Option Buffered → Step
  deliver n none = skip
  deliver n (some b) = do
    emit (signal_use (record { node = n.id; name = b.name; id = b.id }))
    advance n ""

  -- (*decider).consume
  unfoldable pub consume : Node → Step
  unfolding deliver buffered_signal
  consume n = do b ← look (λ w. buffered_signal n.signal w.st.buffered); deliver n b

  -- (*decider).await
  unfoldable pub start_await : Node → Step
  start_await n = do
    nr ← alloc
    now ← ask (λ d. d.now)
    emit (await (record { node = n.id; signal = n.signal; timer_id = "t" ⧺ itoa nr }))
    emit (
        timer (record {
          id = "t" ⧺ itoa nr;
          n = nr;
          at = now + n.timeout;
          purpose = Purpose.await;
          key = "";
          node = n.id;
          generation = 0;
          attempt = 0;
        }))
    consume n

  unfoldable pub end_map : Node → Step
  end_map n = do emit (map_done n.id); advance n ""

  -- (*decider).mapProgress
  unfoldable pub map_progress : Node → Step
  unfolding item_loop end_map
  map_progress n = do
    found ← look (λ w. get w.st.maps n.id)
    m ← deref found
    if m.done == length m.items then end_map n else item_loop (length m.items - m.next) n

  unfoldable pub map_over : Node → List Json → Step
  map_over n vs = do
    emit (map_start (record { node = n.id; items = items_of vs; max_parallel = n.max_parallel }))
    map_progress n

  unfoldable pub map_with : Node → Eval → Step
  unfolding map_over
  map_with n (failure problem) = fail Reason.expression (over_failed n.id problem) n.id
  map_with n (value (arr vs)) = map_over n (of_items vs)
  map_with n (value null) = map_over n []
  map_with n (value _) = fail Reason.expression (over_not_list n.id) n.id

  -- (*decider).mapStart
  unfoldable pub start_map : Node → Step
  unfolding map_with
  start_map n = do c ← look (λ w. context_view w.st none); map_with n (n.over c)

  unfoldable pub visit : Node → NodeType → Step
  visit n NodeType.task = schedule n n.id "" 0 none no_resumption 0 1
  visit n NodeType.choice = choose n
  visit n NodeType.fanout = fan_out n
  visit n NodeType.await = start_await n
  visit n NodeType.map = start_map n
  visit n NodeType.subflow = start_child n n.id "" 0 none
  visit n NodeType.join = fail Reason.error (cannot_enter n.id) n.id

  unfoldable pub go_in : String → Node → Step
  unfolding visit
  go_in id n = do emit (entered id); visit n n.type

  unfoldable pub enter_node : String → Option Node → Step
  unfolding go_in
  enter_node id none = fail Reason.error (unknown_node id) id
  enter_node id (some n) = do
    limit ← ask (λ d. max_steps_or_default d.def)
    steps ← look (λ w. w.st.steps)
    if ltb limit (steps + 1) then fail Reason.max_steps (steps_reached limit) id else go_in id n

  -- the body of (*decider).enter
  unfoldable pub enter_once : String → Step
  unfolding enter_node
  enter_once id = do found ← node id; enter_node id found

-- Each entry adds one to the steps, and no entry goes on past the limit, so that as many entries
-- as the limit allows are enough fuel.
unfoldable pub enter_within : ℕ → String → Step
enter_within zero id = enter_once (λ _. raise out_of_fuel) id
enter_within (suc fuel) id = enter_once (enter_within fuel) id

-- (*decider).enter
unfoldable pub enter : String → Step
unfolding enter_within
enter id = do limit ← ask (λ d. max_steps_or_default d.def); enter_within limit id
