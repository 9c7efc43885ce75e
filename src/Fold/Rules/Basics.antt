-- ===== src/Fold/Rules/Basics.antt =====
-- Whatever the events of a command keep, its whole decision keeps: the steps that enter no node.
use packtrail.Prelude.{ℕ, zero, suc, String, Option, none, some, List, [], ◌∷◌}
use packtrail.GoMap.{Map}
use packtrail.Json.{Raw, Float64}
use packtrail.Cmd.{TaskRef}
use packtrail.Outcome.{Msg}
use packtrail.Event.{Payload, Reason, Purpose, started, forked, continued}
use packtrail.Flow.{Node, Program, Eval, value, failure}
use packtrail.Fold.State.{State, Resumption}
use packtrail.Fold.Decide.Monad.{Decider, Work, emit}
use packtrail.Fold.Decide.Basics.{
  node, alloc, is_done, cancel_children, owned_children, fail, cancel, timer_at, generation,
  schedule, current, over_budget_with, writes_problem, launch, launch_with, launch_by, start_child,
  cancel_owned_in, cancel_owned, cancel_instance, launch_object, refuse_input,
}
use packtrail.Fold.Rules.{Keeps, Keeps-skip, Keeps-bind, keeps_rules}

-- Every event but a fork and a continuation, which replace the state.
abbrev pub IsPlain : Payload State → Type 0
IsPlain (forked _ _ _ _) = ⊥
IsPlain (continued _ _) = ⊥
IsPlain _ = Unit

-- Every event but the three that base a state: a start, a fork and a continuation.
abbrev pub IsOngoing : Payload State → Type 0
IsOngoing (started _) = ⊥
IsOngoing (forked _ _ _ _) = ⊥
IsOngoing (continued _ _) = ⊥
IsOngoing _ = Unit

pub ongoing-IsPlain : (e : Payload State) → IsOngoing e → IsPlain e
ongoing-IsPlain (started _) h = tt
ongoing-IsPlain (forked _ _ _ _) h = h
ongoing-IsPlain (continued _ _) h = h
ongoing-IsPlain _ h = h

module _ (d : Decider) (I : Work → Type 0)
    (emits : (e : Payload State) → IsOngoing e → Keeps d I (emit e)) where
  pub node-Keeps : (id : String) → Keeps d I (node id)
  unfolding node
  node-Keeps id = search keeps_rules

  pub is_done-Keeps : Keeps d I is_done
  unfolding is_done
  is_done-Keeps = search keeps_rules

  pub alloc-Keeps : Keeps d I alloc
  unfolding alloc
  alloc-Keeps = search keeps_rules

  pub fail-Keeps : (reason : Reason) (msg : Msg) (at : String) → Keeps d I (fail reason msg at)
  unfolding fail cancel_children
  fail-Keeps reason msg at = search (keeps_rules, emits)

  pub timer_at-Keeps :
      (purpose : Purpose) (after : ℕ) (key at : String) (gen attempt : ℕ)
      → Keeps d I (timer_at purpose after key at gen attempt)
  unfolding timer_at alloc
  timer_at-Keeps purpose after key at gen attempt = search (keeps_rules, emits)

  pub generation-Keeps : (g : ℕ) → Keeps d I (generation g)
  unfolding generation alloc
  generation-Keeps zero = search keeps_rules
  generation-Keeps (suc g) = search keeps_rules

  pub schedule-Keeps :
      (n : Node) (key owner : String) (index : ℕ) (item : Raw) (rs : Resumption) (gen attempt : ℕ)
      → Keeps d I (schedule n key owner index item rs gen attempt)
  unfolding schedule
  schedule-Keeps n key owner index item rs gen attempt =
      search (keeps_rules, emits, generation-Keeps, timer_at-Keeps)

  launch_with-Keeps :
      (n : Node) (key owner : String) (index : ℕ) (input : Eval)
      → Keeps d I (launch_with n key owner index input)
  unfolding launch_with launch launch_object refuse_input
  launch_with-Keeps n key owner index (value v) = search (keeps_rules, emits, fail-Keeps)
  launch_with-Keeps n key owner index (failure problem) = fail-Keeps _ _ _

  launch_by-Keeps :
      (n : Node) (key owner : String) (index : ℕ) (item input : Raw) (p : Option Program)
      → Keeps d I (launch_by n key owner index item input p)
  unfolding launch_by launch launch_object refuse_input
  launch_by-Keeps n key owner index item input none = search (keeps_rules, emits, fail-Keeps)
  launch_by-Keeps n key owner index item input (some p) = search (keeps_rules, launch_with-Keeps)

  pub start_child-Keeps :
      (n : Node) (key owner : String) (index : ℕ) (item : Raw)
      → Keeps d I (start_child n key owner index item)
  unfolding start_child
  start_child-Keeps n key owner index item = search (keeps_rules, launch_by-Keeps)

  cancel_instance-Keeps : (owner reason k : String) → Keeps d I (cancel_instance owner reason k)
  unfolding cancel_instance
  cancel_instance-Keeps owner reason k = search (keeps_rules, emits)

  cancel_owned_in-Keeps :
      (owner reason : String) (ks : List String) → Keeps d I (cancel_owned_in owner reason ks)
  unfolding cancel_owned_in
  cancel_owned_in-Keeps owner reason [] = Keeps-skip
  cancel_owned_in-Keeps owner reason (k ∷ ks) =
      Keeps-bind _ _ (cancel_instance-Keeps owner reason k)
        (λ _. cancel_owned_in-Keeps owner reason ks)

  pub cancel_owned-Keeps : (owner reason : String) → Keeps d I (cancel_owned owner reason)
  unfolding cancel_owned
  cancel_owned-Keeps owner reason = search (keeps_rules, cancel_owned_in-Keeps)

  pub cancel-Keeps : (reason : String) → Keeps d I (cancel reason)
  unfolding cancel cancel_children
  cancel-Keeps reason = search (keeps_rules, emits)

  pub over_budget_with-Keeps : (usage : Map Float64) → Keeps d I (over_budget_with usage)
  unfolding over_budget_with
  over_budget_with-Keeps usage = record { at = λ w h. h }

  pub writes_problem-Keeps : (writes : Map Raw) → Keeps d I (writes_problem writes)
  unfolding writes_problem
  writes_problem-Keeps writes = record { at = λ w h. h }

  pub current-Keeps : (ref : TaskRef) → Keeps d I (current ref)
  unfolding current
  current-Keeps ref = search keeps_rules

  pub owned_children-Keeps : (owner : String) → Keeps d I (owned_children owner)
  unfolding owned_children
  owned_children-Keeps owner = search keeps_rules

pub ruleset basic_rules = (
  keeps_rules, node-Keeps, is_done-Keeps, alloc-Keeps, fail-Keeps, timer_at-Keeps, schedule-Keeps,
  start_child-Keeps, cancel_owned-Keeps, over_budget_with-Keeps, writes_problem-Keeps,
  current-Keeps, owned_children-Keeps,
)
