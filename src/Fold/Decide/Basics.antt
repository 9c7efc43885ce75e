-- ===== src/Fold/Decide/Basics.antt =====
-- internal/fold/decide.go: the steps that enter no node.
use packtrail.Prelude.{
  ℕ, zero, suc, ◌+◌, String, Bool, true, false, not, ◌||◌, ◌&&◌, Option, none, some, List, [], ◌∷◌,
  ltb, ◌==◌, str_eq, if◌then◌else◌,
}
use packtrail.GoMap.{Map, get, keys}
use packtrail.Json.{Raw, Float64, is_object}
use packtrail.Outcome.{
  Msg, undeclared_channel, refused_write, over_budget, child_input_failed, child_input_not_object,
  Result, ok, err,
}
use packtrail.Platform.{Platform, itoa, child_id, ◌⧺◌}
use packtrail.Event.{
  Reason, Purpose, Child, failed, cancelled, scheduled, timer, node_cancel, child,
}
use packtrail.Flow.{
  Flow, Node, Channel, Program, Eval, value, failure, parent_close, parent_close_abandon,
}
use packtrail.Flow
use packtrail.Cmd.{TaskRef}
use packtrail.Fold.State.{
  State, Task, TaskStatus, Resumption, ChildState, terminal, is_scheduled, context_view,
}
use packtrail.Fold.Reduce.{reduce}
use packtrail.Fold.Apply.Nodes.{raw_at}
use packtrail.Fold.Decide.Monad.{M, Step, pure, ask, look, deref, skip, ◌>>=◌, ◌>>◌, emit}

pub member : List String → String → Bool
member [] x = false
member (y ∷ ys) x = str_eq y x || member ys x

-- d.def.Node(id), which may be nil
unfoldable pub node : String → M (Option Node)
node id = ask (λ d. Flow.node_of d.def id)

-- (*decider).alloc
unfoldable pub alloc : M ℕ
alloc = look (λ w. w.st.n + 1)

unfoldable pub is_done : M Bool
is_done = look (λ w. terminal w.st.status)

-- the running children that end with this execution
unfoldable pub unwanted : List String → Map ChildState → List String
unwanted inherited [] = []
unwanted inherited ((k, c) ∷ cs) =
    let rest = unwanted inherited cs in
    if not (str_eq c.policy parent_close_abandon) && not (member inherited c.child_id)
    then c.child_id ∷ rest
    else rest

-- (*decider).cancelChildren
unfoldable pub cancel_children : M (List String)
unfolding unwanted
cancel_children = look (λ w. unwanted w.inherited w.st.children)

unfoldable pub unwanted_of : String → Map ChildState → List String
unwanted_of owner [] = []
unwanted_of owner ((k, c) ∷ cs) =
    let rest = unwanted_of owner cs in
    if str_eq c.owner owner && not (str_eq c.policy parent_close_abandon)
    then c.child_id ∷ rest
    else rest

-- (*decider).ownedChildren
unfoldable pub owned_children : String → M (List String)
unfolding unwanted_of
owned_children owner = look (λ w. unwanted_of owner w.st.children)

-- (*decider).fail
unfoldable pub fail : Reason → Msg → String → Step
fail reason msg node = do
  children ← cancel_children
  emit (failed (record { error = msg; reason = reason; node = node; cancel_children = children }))

-- (*decider).cancel
unfoldable pub cancel : String → Step
cancel reason = do
  children ← cancel_children
  emit (cancelled (record { reason = reason; cancel_children = children }))

-- (*decider).timerAt
unfoldable pub timer_at : Purpose → ℕ → String → String → ℕ → ℕ → Step
timer_at purpose after key node gen attempt = do
  nr ← alloc
  now ← ask (λ d. d.now)
  emit (
      timer (record {
        id = "t" ⧺ itoa nr;
        n = nr;
        at = now + after;
        purpose = purpose;
        key = key;
        node = node;
        generation = gen;
        attempt = attempt;
      }))

-- generation 0 asks for a fresh one
unfoldable pub generation : ℕ → M ℕ
generation zero = alloc
generation (suc g) = pure (suc g)

-- (*decider).schedule
unfoldable pub schedule : Node → String → String → ℕ → Raw → Resumption → ℕ → ℕ → Step
schedule n key owner index item rs gen attempt = do
  g ← generation gen
  emit (
      scheduled (record {
        key = key;
        node = n.id;
        kind = n.kind;
        index = index;
        generation = g;
        attempt = attempt;
        owner = owner;
        item = item;
        resume = rs.value;
        resumed_by = rs.by;
      }))
  if ltb 0 n.timeout then timer_at Purpose.attempt_timeout n.timeout key n.id g attempt else skip

abbrev pub no_resumption : Resumption
no_resumption = record { value = none; by = "" }

-- whether a task is the scheduled attempt that a reference names
unfoldable pub is_current : TaskRef → Task → Bool
is_current ref t =
    t.generation == ref.generation && t.attempt == ref.attempt && is_scheduled t.status

unfoldable pub current_task : TaskRef → Option Task → Option Task
current_task ref none = none
current_task ref (some t) = if is_current ref t then some t else none

-- (*decider).current, for the status that every caller asks for
unfoldable pub current : TaskRef → M (Option Task)
unfolding current_task is_current
current ref = look (λ w. current_task ref (get w.st.tasks ref.key))

abbrev pub float_at : Map Float64 → String → Float64
float_at m k = elim (get m k) [ none ↦ 0 | some v ↦ v ]

unfoldable pub budget_problem : Platform → Map Float64 → Map Float64 → Map Float64 → Option Msg
budget_problem p counters usage [] = none
budget_problem p counters usage ((k, b) ∷ budget) =
    let rest = budget_problem p counters usage budget in
    let v = p.fadd (float_at counters k) (float_at usage k) in
    if p.fgt v b then some (over_budget k v b) else rest

-- (*decider).overBudgetWith
unfoldable pub over_budget_with : Map Float64 → M (Option Msg)
unfolding budget_problem
over_budget_with usage d w = ok (budget_problem d.platform w.st.counters usage d.def.budget, w)

unfoldable pub refusal : String → Result Raw → Option Msg
refusal name (ok _) = none
refusal name (err _) = some (refused_write name)

unfoldable pub channel_problem : Platform → String → Option Channel → Raw → Raw → Option Msg
unfolding refusal
channel_problem p name none cur delta = some (undeclared_channel name)
channel_problem p name (some c) cur delta = refusal name (reduce p c.reducer cur delta)

unfoldable pub first_problem : Option Msg → Option Msg → Option Msg
first_problem none rest = rest
first_problem (some problem) rest = some problem

-- CheckWrites: the first problem of the writes, in the order of the channels' names
unfoldable pub check_writes : Flow → Platform → Map Raw → Map Raw → Option Msg
unfolding channel_problem first_problem
check_writes def p channels [] = none
check_writes def p channels ((name, delta) ∷ writes) =
    first_problem (channel_problem p name (get def.channels name) (raw_at channels name) delta)
      (check_writes def p channels writes)

unfoldable pub writes_problem : Map Raw → M (Option Msg)
writes_problem writes d w = ok (check_writes d.def d.platform w.st.channels writes, w)

-- the instance that a map item's input expression sees
unfoldable pub item_view : Node → String → ℕ → Raw → Option Task
item_view n owner index item =
    if str_eq owner n.id
    then some (record {
      key = "";
      node = n.id;
      kind = "";
      index = index;
      owner = n.id;
      generation = 0;
      attempt = 0;
      status = TaskStatus.scheduled;
      item = item;
      resume = none;
      resumed_by = "";
      interrupt = none;
    })
    else none

unfoldable pub child_event : Platform → State → Node → String → String → ℕ → Raw → Child
child_event p s n key owner index input = record {
  node = n.id;
  child_id = child_id p s.exec_id (s.n + 1);
  child_n = s.n + 1;
  flow = n.flow;
  input = input;
  policy = parent_close n;
  key = if str_eq key n.id then "" else key;
  owner = owner;
  index = index;
}

unfoldable pub launch_object : Node → String → String → ℕ → Raw → Step
launch_object n key owner index input = do
  p ← ask (λ d. d.platform)
  c ← look (λ w. child_event p w.st n key owner index input)
  emit (child c)

unfoldable pub refuse_input : Node → String → ℕ → Step
refuse_input n owner index =
    fail Reason.expression
      (child_input_not_object n.id index
        (str_eq owner n.id && elim n.input [ none ↦ true | some _ ↦ false ]))
      n.id

unfoldable pub launch : Node → String → String → ℕ → Raw → Step
unfolding launch_object refuse_input
launch n key owner index input =
    if is_object input then launch_object n key owner index input else refuse_input n owner index

unfoldable pub launch_with : Node → String → String → ℕ → Eval → Step
launch_with n key owner index (value v) = launch n key owner index (some v)
launch_with n key owner index (failure problem) =
    fail Reason.expression (child_input_failed n.id index problem) n.id

unfoldable pub launch_by : Node → String → String → ℕ → Raw → Raw → Option Program → Step
unfolding launch launch_with item_view
launch_by n key owner index item input none = launch n key owner index input
launch_by n key owner index item input (some p) = do
  c ← look (λ w. context_view w.st (item_view n owner index item))
  launch_with n key owner index (p c)

-- (*decider).startChild
unfoldable pub start_child : Node → String → String → ℕ → Raw → Step
unfolding child_event launch_by
start_child n key owner index item = do
  input ← look (λ w. if str_eq owner n.id then item else w.st.input)
  launch_by n key owner index item input n.input

unfoldable pub cancel_instance : String → String → String → Step
cancel_instance owner reason k = do
  found ← look (λ w. get w.st.tasks k)
  t ← deref found
  if str_eq t.owner owner
      then emit (node_cancel (record { key = k; node = t.node; reason = reason }))
      else skip

unfoldable pub cancel_owned_in : String → String → List String → Step
cancel_owned_in owner reason [] = skip
cancel_owned_in owner reason (k ∷ ks) = do
  cancel_instance owner reason k
  cancel_owned_in owner reason ks

-- the loops of closeJoin and abortMap that cancel the instances still in flight
unfoldable pub cancel_owned : String → String → Step
unfolding cancel_owned_in
cancel_owned owner reason = do ks ← look (λ w. keys w.st.tasks); cancel_owned_in owner reason ks
