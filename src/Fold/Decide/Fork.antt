-- ===== src/Fold/Decide/Fork.antt =====
-- internal/fold/decide.go: DecideFork, Continue and Abort.
use packtrail.Prelude.{
  ℕ, String, not, ◌||◌, Option, none, some, List, [], ◌∷◌, ◌++◌, if◌then◌else◌, get_elem?,
}
use packtrail.GoMap.{Map, get, keys}
use packtrail.Json.{Raw}
use packtrail.Outcome.{text, invalid, Result, ok}
use packtrail.Platform.{Platform}
use packtrail.Event.{Payload, Reason, Segment, forked, continued}
use packtrail.Flow.{Flow}
use packtrail.Cmd.{Command}
use packtrail.Fold.State.{
  State, Task, ChildState, exists, terminal, recode, resumption, is_interrupted, node_of,
}
use packtrail.Fold.Decide.Monad.{Work, Step, raise, look, deref, skip, ◌>>=◌, ◌>>◌, emit}
use packtrail.Fold.Decide.Basics.{node, is_done, fail, schedule, writes_problem, start_child}
use packtrail.Fold.Decide.Route.{enter, start_await}
use packtrail.Fold.Decide.{write_channels, at_work, decider_for}

unfoldable pub rekick_task : Task → Step
rekick_task t = do
  found ← node t.node
  n ← deref found
  schedule n t.key t.owner t.index t.item (resumption t) 0 1

unfoldable pub rekick_tasks : List String → Step
unfolding rekick_task
rekick_tasks [] = skip
rekick_tasks (k ∷ ks) = do
  found ← look (λ w. get w.st.tasks k)
  t ← deref found
  if is_interrupted t.status then skip else rekick_task t
  rekick_tasks ks

unfoldable pub rekick_awaits : List String → Step
rekick_awaits [] = skip
rekick_awaits (name ∷ names) = do
  found ← node name
  n ← deref found
  start_await enter n
  rekick_awaits names

unfoldable pub child_ids : Map ChildState → List String
child_ids [] = []
child_ids ((k, c) ∷ cs) = c.child_id ∷ child_ids cs

unfoldable pub inherit : Step
unfolding child_ids
inherit d w = ok (tt, record w { inherited = child_ids w.st.children })

unfoldable pub child_item : State → ChildState → Raw
child_item s c = elim (get s.maps c.owner) [
  | none ↦ none
  | some m ↦ elim (get_elem? m.items c.index) [ none ↦ none | some v ↦ v ]
]

unfoldable pub rekick_child : String → Step
unfolding child_item
rekick_child key = do
  found ← look (λ w. get w.st.children key)
  c ← deref found
  item ← look (λ w. child_item w.st c)
  of ← node (node_of c key)
  n ← deref of
  start_child n key c.owner c.index item

unfoldable pub rekick_children : List String → Step
unfolding rekick_child
rekick_children [] = skip
rekick_children (key ∷ ks) = do
  over ← is_done
  if over then skip else (rekick_child key >> rekick_children ks)

-- (*decider).rekick
unfoldable pub rekick : Step
unfolding rekick_tasks rekick_awaits inherit rekick_children
rekick = do
  tasks ← look (λ w. keys w.st.tasks)
  rekick_tasks tasks
  awaits ← look (λ w. keys w.st.awaits)
  rekick_awaits awaits
  inherit
  children ← look (λ w. keys w.st.children)
  rekick_children children

unfoldable pub edit_fork : Map Raw → Step
edit_fork [] = skip
edit_fork (e ∷ writes) = do
  over ← is_done
  problem ← writes_problem (e ∷ writes)
  if over then raise invalid else write_channels (e ∷ writes) problem

unfoldable pub fork : State → String → ℕ → Map Raw → Step
unfolding edit_fork write_channels
fork src from seq writes = do
  id ← look (λ w. w.st.exec_id)
  emit (forked id from seq src)
  edit_fork writes
  over ← is_done
  if over then skip else rekick

-- DecideFork
unfoldable pub decide_fork :
    Platform → Flow → State → State → String → ℕ → Command → Map Raw → ℕ → Result (Unit {0} × Work)
unfolding fork
decide_fork p def s src from seq c writes now =
    if exists s
    then ok (tt, at_work s)
    else fork src from seq writes (decider_for p def c now) (at_work s)

unfoldable pub with_segment : State → Segment → State
with_segment s seg = let t = recode s in record t { segments = t.segments ++ seg ∷ [] }

-- Continue
unfoldable pub continue_as_new :
    Platform → Flow → State → Segment → Command → ℕ → Result (Unit {0} × Work)
unfolding with_segment
continue_as_new p def s seg c now =
    if not (exists s) || terminal s.status
    then ok (tt, at_work s)
    else emit (continued (with_segment s seg) seg) (decider_for p def c now) (at_work s)

unfoldable pub first_event : Option (Payload State) → Step
first_event none = raise invalid
first_event (some e) = emit e

unfoldable pub abort_with : Option (Payload State) → Reason → String → Step
unfolding first_event
abort_with first reason msg = do
  born ← look (λ w. exists w.st)
  if born then skip else first_event first
  over ← is_done
  if over then skip else fail reason (text msg) ""

-- Abort
unfoldable pub abort :
    Platform
    → Flow
    → State
    → Option (Payload State)
    → Command
    → Reason
    → String
    → ℕ
    → Result (Unit {0} × Work)
unfolding abort_with
abort p def s first c reason msg now =
    abort_with first reason msg (decider_for p def c now) (at_work s)
