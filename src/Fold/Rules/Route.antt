-- ===== src/Fold/Rules/Route.antt =====
-- Whatever the events of a command keep, entering a node keeps: the steps of a route.
use packtrail.Prelude.{ℕ, zero, suc, ◌+◌, String, true, false, Option, none, some, List, [], ◌∷◌}
use packtrail.Json.{Json, null, bool, arr, of_items}
use packtrail.Outcome.{panic}
use packtrail.Event.{Payload}
use packtrail.Flow.{Node, NodeType, Rule, Program, Context, Eval, value, failure}
use packtrail.Fold.State.{State, MapRun, Buffered}
use packtrail.Fold.Decide.Monad.{Decider, Work, Step, emit}
use packtrail.Fold.Decide.Route.{
  finish_object, finish_with, finish_by, complete_flow, branch_start, branch_step, branch_loop,
  fan_out, item_start, item_round, item_loop, advance, route, rule_error, fall_back, judge,
  evaluate, rule_loop, choose, deliver, consume, start_await, end_map, map_progress, map_over,
  map_with, start_map, visit, has_room,
}
use packtrail.Fold.Rules.{
  Keeps, Keeps-raise, Keeps-if, Keeps-skip, Keeps-bind, Keeps-look, Keeps-deref, keeps_rules,
}
use packtrail.Fold.Rules.Basics
use packtrail.Fold.Rules.Basics.{basic_rules}

module _ (d : Decider) (I : Work → Type 0)
    (emits : (e : Payload State) → Basics.IsOngoing e → Keeps d I (emit e)) where
  finish_with-Keeps : (e : Eval) → Keeps d I (finish_with e)
  unfolding finish_with finish_object
  finish_with-Keeps (failure problem) = search basic_rules
  finish_with-Keeps (value v) = search (basic_rules, emits)

  finish_by-Keeps : (o : Option Program) → Keeps d I (finish_by o)
  unfolding finish_by
  finish_by-Keeps none = search (keeps_rules, emits)
  finish_by-Keeps (some p) = search (keeps_rules, finish_with-Keeps)

  pub complete_flow-Keeps : Keeps d I complete_flow
  unfolding complete_flow
  complete_flow-Keeps = search (keeps_rules, finish_by-Keeps)

  branch_start-Keeps :
      (fan b : String) (n : Node) (t : NodeType) → Keeps d I (branch_start fan b n t)
  unfolding branch_start
  branch_start-Keeps fan b n NodeType.subflow = search basic_rules
  branch_start-Keeps fan b n _ = search basic_rules

  branch_step-Keeps : (fan b : String) → Keeps d I (branch_step fan b)
  unfolding branch_step
  branch_step-Keeps fan b = search (basic_rules, emits, branch_start-Keeps) depth 7

  branch_loop-Keeps : (fan : String) (bs : List String) → Keeps d I (branch_loop fan bs)
  unfolding branch_loop
  branch_loop-Keeps fan [] = Keeps-skip
  branch_loop-Keeps fan (b ∷ bs) = Keeps-bind _ _ (branch_step-Keeps fan b) λ _.
      Keeps-bind _ _ (Basics.is_done-Keeps d I emits)
        λ over. Keeps-if over _ _ Keeps-skip (branch_loop-Keeps fan bs)

  pub fan_out-Keeps : (n : Node) → Keeps d I (fan_out n)
  unfolding fan_out
  fan_out-Keeps n = search (keeps_rules, emits, branch_loop-Keeps)

  item_start-Keeps : (n : Node) (m : MapRun) → Keeps d I (item_start n m)
  unfolding item_start
  item_start-Keeps n m = search basic_rules

  item_round-Keeps :
      (n : Node) (m : MapRun) (rest : Step) → Keeps d I rest → Keeps d I (item_round n m rest)
  unfolding item_round
  item_round-Keeps n m rest k =
      Keeps-bind _ _ (item_start-Keeps n m)
        λ _. Keeps-bind _ _ (Basics.is_done-Keeps d I emits) λ over. Keeps-if over _ _ Keeps-skip k

  item_loop-Keeps : (rounds : ℕ) (n : Node) → Keeps d I (item_loop rounds n)
  unfolding item_loop
  item_loop-Keeps zero n = Keeps-skip
  item_loop-Keeps (suc rounds) n = Keeps-bind _ _ (Keeps-look _) λ found.
      Keeps-bind _ _ (Keeps-deref found) λ m.
        Keeps-if (has_room m) _ _ (item_round-Keeps n m _ (item_loop-Keeps rounds n)) Keeps-skip

  rule_error-Keeps :
      (n : Node) (i : ℕ) (r : Rule) (problem : String) → Keeps d I (rule_error n i r problem)
  unfolding rule_error
  rule_error-Keeps n i r problem = search (basic_rules, emits)

  -- The rest enters a node.
  module _ (enter : String → Step) (enters : (id : String) → Keeps d I (enter id)) where
    pub advance-Keeps : (n : Node) (dyn : String) → Keeps d I (advance enter n dyn)
    unfolding advance
    advance-Keeps n dyn = search (keeps_rules, enters, complete_flow-Keeps)

    route-Keeps : (n : Node) (i : ℕ) (r : Rule) → Keeps d I (route enter n i r)
    unfolding route
    route-Keeps n i r = search (keeps_rules, emits, enters, complete_flow-Keeps)

    fall_back-Keeps : (n : Node) (def : Option (ℕ × Rule)) → Keeps d I (fall_back enter n def)
    unfolding fall_back
    fall_back-Keeps n none = Keeps-raise panic (λ e. cc)
    fall_back-Keeps n (some (i, r)) = route-Keeps n i r

    judge-Keeps :
        (n : Node) (i : ℕ) (r : Rule) (rest : Step) (e : Eval)
        → Keeps d I rest
        → Keeps d I (judge enter n i r rest e)
    unfolding judge
    judge-Keeps n i r rest (value (bool true)) k = route-Keeps n i r
    judge-Keeps n i r rest (value (bool false)) k = k
    judge-Keeps n i r rest (value _) k = k
    judge-Keeps n i r rest (failure problem) k = search (keeps_rules, rule_error-Keeps)

    evaluate-Keeps :
        (n : Node) (c : Context) (i : ℕ) (r : Rule) (rest : Step)
        → Keeps d I rest
        → Keeps d I (evaluate enter n c i r rest)
    unfolding evaluate
    evaluate-Keeps n c i r rest k = search (keeps_rules, judge-Keeps)

    rule_loop-Keeps :
        (n : Node) (c : Context) (i : ℕ) (rs : List Rule) (def : Option (ℕ × Rule))
        → Keeps d I (rule_loop enter n c i rs def)
    unfolding rule_loop
    rule_loop-Keeps n c i [] def = fall_back-Keeps n def
    rule_loop-Keeps n c i (r ∷ rs) def =
        Keeps-if r.default _ _ (rule_loop-Keeps n c (i + 1) rs (some (i, r)))
          (evaluate-Keeps n c i r _ (rule_loop-Keeps n c (i + 1) rs def))

    choose-Keeps : (n : Node) → Keeps d I (choose enter n)
    unfolding choose
    choose-Keeps n = search (keeps_rules, rule_loop-Keeps)

    deliver-Keeps : (n : Node) (b : Option Buffered) → Keeps d I (deliver enter n b)
    unfolding deliver
    deliver-Keeps n none = Keeps-skip
    deliver-Keeps n (some b) = search (keeps_rules, emits, advance-Keeps)

    pub consume-Keeps : (n : Node) → Keeps d I (consume enter n)
    unfolding consume
    consume-Keeps n = search (keeps_rules, deliver-Keeps)

    pub start_await-Keeps : (n : Node) → Keeps d I (start_await enter n)
    unfolding start_await
    start_await-Keeps n = search (basic_rules, emits, consume-Keeps) depth 7

    end_map-Keeps : (n : Node) → Keeps d I (end_map enter n)
    unfolding end_map
    end_map-Keeps n = search (keeps_rules, emits, advance-Keeps)

    pub map_progress-Keeps : (n : Node) → Keeps d I (map_progress enter n)
    unfolding map_progress
    map_progress-Keeps n = search (keeps_rules, end_map-Keeps, item_loop-Keeps)

    map_over-Keeps : (n : Node) (vs : List Json) → Keeps d I (map_over enter n vs)
    unfolding map_over
    map_over-Keeps n vs = search (keeps_rules, emits, map_progress-Keeps)

    map_with-Keeps : (n : Node) (e : Eval) → Keeps d I (map_with enter n e)
    unfolding map_with
    map_with-Keeps n (failure problem) = search basic_rules
    map_with-Keeps n (value (arr vs)) = map_over-Keeps n (of_items vs)
    map_with-Keeps n (value null) = map_over-Keeps n []
    map_with-Keeps n (value _) = search basic_rules

    start_map-Keeps : (n : Node) → Keeps d I (start_map enter n)
    unfolding start_map
    start_map-Keeps n = search (keeps_rules, map_with-Keeps)

    pub visit-Keeps : (n : Node) (t : NodeType) → Keeps d I (visit enter n t)
    unfolding visit
    visit-Keeps n NodeType.task = search basic_rules
    visit-Keeps n NodeType.choice = choose-Keeps n
    visit-Keeps n NodeType.fanout = fan_out-Keeps n
    visit-Keeps n NodeType.await = start_await-Keeps n
    visit-Keeps n NodeType.map = start_map-Keeps n
    visit-Keeps n NodeType.subflow = search basic_rules
    visit-Keeps n NodeType.join = search basic_rules
