-- ===== src/Fold/MapLoop/Items.antt =====
-- internal/fold/decide.go: what an attempt to start an item of a map leaves, of (*decider).schedule and
-- (*decider).startChild.
use packtrail.Prelude.{
  ℕ, ◌+◌, ◌≡◌, inl, inr, String, Bool, true, false, Option, none, some, length, str_eq,
  if◌then◌else◌,
}
use packtrail.GoMap.{get}
use packtrail.Json.{Raw, is_object}
use packtrail.Outcome.{Result, ok, err}
use packtrail.Event
use packtrail.Event.{Payload, Scheduled, Child, Timer, scheduled, child, timer, failed}
use packtrail.Flow.{Node, Program, Eval, value, failure}
use packtrail.Fold.State.{State, MapRun, terminal}
use packtrail.Fold.Decide.Monad.{Decider, Work, Step, ask, look, skip, ◌>>=◌}
use packtrail.Fold.Decide.Basics.{
  alloc, is_done, fail, schedule, generation, no_resumption, timer_at, start_child, launch_by,
  launch, launch_with, launch_object, refuse_input, child_event,
}
use packtrail.Fold.Decide.Route.{item_start}
use packtrail.Fold.MapLoop.Emits.{
  Leaves, continue-Leaves, Running, started-Running, Started, scheduled-Running, child-Running,
  timer-Running, failed-Leaves,
}

weaken :
    {A : Type 0} (I J : State → Type 0) (r : Result (A × Work))
    → ((s : State) → I s → J s)
    → Leaves I r
    → Leaves J r
weaken I J (ok (a, w)) k h = k w.st h
weaken I J (err e) k h = tt

if-Leaves :
    (J : State → Type 0) (d : Decider) (w : Work) (b : Bool) (x y : Step)
    → Leaves J (x d w)
    → Leaves J (y d w)
    → Leaves J ((if b then x else y) d w)
if-Leaves J d w true x y hx hy = hx
if-Leaves J d w false x y hx hy = hy

module _ (d : Decider) (n : Node) (m : MapRun) where
  timer_if-Running :
      (b : Bool) (len k after : ℕ) (key node : String) (gen attempt : ℕ) (w : Work)
      → Running n.id len k w.st.maps
      → Leaves
          (λ s. Running n.id len k s.maps)
          ((if b then timer_at Event.Purpose.attempt_timeout after key node gen attempt else skip) d
            w)
  unfolding timer_at alloc look ask skip ◌>>=◌
  timer_if-Running true len k after key node gen attempt w h = timer-Running d n.id len k w _ h
  timer_if-Running false len k after key node gen attempt w h = h

  schedule-Running :
      (w : Work) (key : String) (item : Raw)
      → get w.st.maps n.id ≡ some m
      → Leaves
          (λ s. Running n.id (length m.items) (m.next + 1) s.maps)
          (schedule n key n.id m.next item no_resumption 0 1 d w)
  unfolding schedule generation alloc look ◌>>=◌
  schedule-Running w key item h =
      continue-Leaves (λ s. Running n.id (length m.items) (m.next + 1) s.maps) _ d _ _ w
        (scheduled-Running d n.id (length m.items) (m.next + 1) w _
          (started-Running n.id m w.st.maps h))
        λ u w' h'. timer_if-Running _ _ _ _ _ _ _ _ w' h'

  fail-Started :
      (w : Work) (reason : Event.Reason) (msg : packtrail.Outcome.Msg) (node : String)
      → Leaves (Started n.id m) (fail reason msg node d w)
  unfolding fail packtrail.Fold.Decide.Basics.cancel_children look ◌>>=◌
  fail-Started w reason msg node =
      weaken (λ s. terminal s.status ≡ true) (Started n.id m) _ (λ s h. inl h) (failed-Leaves d w _)

  launch-Started :
      (w : Work) (key : String) (input : Raw)
      → get w.st.maps n.id ≡ some m
      → Leaves (Started n.id m) (launch n key n.id m.next input d w)
  unfolding launch launch_object refuse_input child_event ask look ◌>>=◌
  launch-Started w key input h =
      if-Leaves (Started n.id m) d w (is_object input) _ _
        (weaken (λ s. Running n.id (length m.items) (m.next + 1) s.maps) (Started n.id m) _
          (λ s r. inr r)
          (child-Running d n.id (length m.items) (m.next + 1) w _
            (started-Running n.id m w.st.maps h)))
        (fail-Started w _ _ _)

  launch_with-Started :
      (w : Work) (key : String) (input : Eval)
      → get w.st.maps n.id ≡ some m
      → Leaves (Started n.id m) (launch_with n key n.id m.next input d w)
  unfolding launch_with
  launch_with-Started w key (value v) h = launch-Started w key (some v) h
  launch_with-Started w key (failure problem) h = fail-Started w _ _ _

  launch_by-Started :
      (w : Work) (key : String) (item input : Raw) (p : Option Program)
      → get w.st.maps n.id ≡ some m
      → Leaves (Started n.id m) (launch_by n key n.id m.next item input p d w)
  unfolding launch_by look ◌>>=◌
  launch_by-Started w key item input none h = launch-Started w key input h
  launch_by-Started w key item input (some p) h = launch_with-Started w key (p _) h

  pub item_start-Started :
      (w : Work) → get w.st.maps n.id ≡ some m → Leaves (Started n.id m) (item_start n m d w)
  unfolding item_start start_child look ◌>>=◌
  item_start-Started w h =
      if-Leaves (Started n.id m) d w (str_eq n.flow "") _ _
        (weaken (λ s. Running n.id (length m.items) (m.next + 1) s.maps) (Started n.id m) _
          (λ s r. inr r) (schedule-Running w _ _ h))
        (launch_by-Started w _ _ _ n.input h)
