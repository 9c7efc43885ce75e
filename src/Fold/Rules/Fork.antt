-- ===== src/Fold/Rules/Fork.antt =====
-- Whatever every event keeps, a fork and an abort keep.
use packtrail.Prelude.{ℕ, String, Option, none, some, List, [], ◌∷◌}
use packtrail.GoMap.{Map}
use packtrail.Json.{Raw}
use packtrail.Outcome.{Msg, Err}
use packtrail.Event.{Payload, Reason}
use packtrail.Fold.State.{State, Task}
use packtrail.Fold.Decide.{write_channels}
use packtrail.Fold.Decide.Fork.{
  rekick_task, rekick_tasks, rekick_awaits, inherit, rekick_child, rekick_children, rekick,
  edit_fork, fork, first_event, abort_with,
}
use packtrail.Fold.Decide.Monad.{Decider, Work, emit}
use packtrail.Fold.Decide.Route.{enter}
use packtrail.Fold.Rules.{
  Keeps, Keeps-raise, Keeps-skip, Keeps-bind, Keeps-if, Keeps-look, Keeps-deref, keeps_rules,
}
use packtrail.Fold.Rules.Basics
use packtrail.Fold.Rules.Basics.{IsOngoing, basic_rules}
use packtrail.Fold.Rules.Route.{start_await-Keeps}
use packtrail.Fold.Rules.Enter.{enter-Keeps}

module _ (d : Decider) (I : Work → Type 0)
    (emits : (e : Payload State) → IsOngoing e → Keeps d I (emit e))
    (inherits : Keeps d I inherit) where
  enters : (id : String) → Keeps d I (enter id)
  enters = enter-Keeps d I emits

  write_channels-Keeps :
      (writes : Map Raw) (problem : Option Msg) → Keeps d I (write_channels writes problem)
  unfolding write_channels
  write_channels-Keeps writes (some problem) = Keeps-raise Err.invalid (λ e. cc)
  write_channels-Keeps writes none = search (keeps_rules, emits)

  rekick_task-Keeps : (t : Task) → Keeps d I (rekick_task t)
  unfolding rekick_task
  rekick_task-Keeps t = search basic_rules

  rekick_tasks-Keeps : (ks : List String) → Keeps d I (rekick_tasks ks)
  unfolding rekick_tasks
  rekick_tasks-Keeps [] = Keeps-skip
  rekick_tasks-Keeps (k ∷ ks) = Keeps-bind _ _ (Keeps-look _) λ found.
      Keeps-bind _ _ (Keeps-deref found) λ t.
        Keeps-bind _ _ (Keeps-if _ _ _ Keeps-skip (rekick_task-Keeps t)) λ u. rekick_tasks-Keeps ks

  rekick_awaits-Keeps : (names : List String) → Keeps d I (rekick_awaits names)
  unfolding rekick_awaits
  rekick_awaits-Keeps [] = Keeps-skip
  rekick_awaits-Keeps (name ∷ names) = Keeps-bind _ _ (Basics.node-Keeps d I emits name) λ found.
      Keeps-bind _ _ (Keeps-deref found) λ n.
        Keeps-bind _ _ (start_await-Keeps d I emits enter enters n) λ u. rekick_awaits-Keeps names

  rekick_child-Keeps : (key : String) → Keeps d I (rekick_child key)
  unfolding rekick_child
  rekick_child-Keeps key = search basic_rules depth 9

  rekick_children-Keeps : (ks : List String) → Keeps d I (rekick_children ks)
  unfolding rekick_children
  rekick_children-Keeps [] = Keeps-skip
  rekick_children-Keeps (key ∷ ks) = Keeps-bind _ _ (Basics.is_done-Keeps d I emits) λ over.
      Keeps-if over _ _ Keeps-skip
        (Keeps-bind _ _ (rekick_child-Keeps key) λ u. rekick_children-Keeps ks)

  pub rekick-Keeps : Keeps d I rekick
  unfolding rekick
  rekick-Keeps = Keeps-bind _ _ (Keeps-look _) λ tasks.
      Keeps-bind _ _ (rekick_tasks-Keeps tasks) λ u. Keeps-bind _ _ (Keeps-look _) λ awaits.
        Keeps-bind _ _ (rekick_awaits-Keeps awaits)
          λ u'. Keeps-bind _ _ inherits λ u''. Keeps-bind _ _ (Keeps-look _) rekick_children-Keeps

  pub edit_fork-Keeps : (writes : Map Raw) → Keeps d I (edit_fork writes)
  unfolding edit_fork
  edit_fork-Keeps [] = Keeps-skip
  edit_fork-Keeps (e ∷ writes) = Keeps-bind _ _ (Basics.is_done-Keeps d I emits) λ over.
      Keeps-bind _ _ (Basics.writes_problem-Keeps d I emits _) λ problem.
        Keeps-if over _ _ (Keeps-raise Err.invalid (λ e. cc)) (write_channels-Keeps _ problem)

module _ (d : Decider) (I : Work → Type 0) (all : (e : Payload State) → Keeps d I (emit e))
    (inherits : Keeps d I inherit) where
  emits : (e : Payload State) → IsOngoing e → Keeps d I (emit e)
  emits e ongoing = all e

  edits : (writes : Map Raw) → Keeps d I (edit_fork writes)
  edits = edit_fork-Keeps d I emits inherits

  rekicks : Keeps d I rekick
  rekicks = rekick-Keeps d I emits inherits

  pub fork-Keeps :
      (src : State) (from : String) (seq : ℕ) (writes : Map Raw)
      → Keeps d I (fork src from seq writes)
  unfolding fork
  fork-Keeps src from seq writes = search (basic_rules, all, edits, rekicks) depth 9

  first_event-Keeps : (e : Option (Payload State)) → Keeps d I (first_event e)
  unfolding first_event
  first_event-Keeps none = Keeps-raise Err.invalid (λ e. cc)
  first_event-Keeps (some e) = all e

  pub abort_with-Keeps :
      (first : Option (Payload State)) (reason : Reason) (msg : String)
      → Keeps d I (abort_with first reason msg)
  unfolding abort_with
  abort_with-Keeps first reason msg = search (basic_rules, first_event-Keeps) depth 9
