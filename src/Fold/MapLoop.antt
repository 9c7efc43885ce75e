-- ===== src/Fold/MapLoop.antt =====
-- internal/fold/decide.go, (*decider).mapProgress: the loop that starts the items of a map.
mod Emits
mod Items
use packtrail.Prelude.{
  ℕ, zero, suc, ◌+◌, ◌-◌, ◌≤◌, max, ◌≡◌, ◌⊎◌, inl, inr, refl, sym, subst, ap, String, Bool, true,
  false, Option, none, some, List, ◌==◌, ltb, length, arith, Bool-cases, str_eq, eq_refl,
  if◌then◌else◌,
}
use packtrail.GoMap.{Map, get, put, get-put_self}
use packtrail.Json.{Raw, is_object}
use packtrail.Outcome.{Result, ok, err}
use packtrail.Platform.{Platform}
use packtrail.Event
use packtrail.Event.{Payload, Scheduled, Child, Timer, scheduled, child, timer, failed}
use packtrail.Flow.{Flow, Node, Program, Eval, value, failure}
use packtrail.Fold.State.{State, Ev, Status, MapRun, terminal}
use packtrail.Fold.Apply.{
  apply, apply_event, finish, finished, recompute, without_gap, gap, wrap_apply, terminate,
}
use packtrail.Fold.Apply.Nodes.{apply_node, apply_scheduled}
use packtrail.Fold.Apply.Structure.{apply_structure}
use packtrail.Fold.Apply.Waits.{apply_wait, apply_child, started_item}
use packtrail.Fold.Decide.Monad.{
  Decider, Work, M, Step, ask, look, deref, skip, continue, ◌>>=◌, ◌>>◌, emit, emitted, new_event,
}
use packtrail.Fold.Decide.Basics.{
  alloc, is_done, fail, schedule, generation, no_resumption, timer_at, start_child, launch_by,
  launch, launch_with, launch_object, refuse_input, child_event,
}
use packtrail.Fold.Decide.Route.{item_start, item_loop, item_round, has_room, item_limit}
use Emits.{Leaves, Started}
use Items.{item_start-Started}

-- The loop is over: the execution has ended, or the test of the loop fails.
abbrev pub IsSaturated : Node → Work → Type 0
IsSaturated n w =
    (terminal w.st.status ≡ true)
    ⊎ ((m : MapRun) × (get w.st.maps n.id ≡ some m) × (has_room m ≡ false))

AllSaturated : Node → Result (Unit {0} × Work) → Type 0
AllSaturated n (ok (u, w)) = IsSaturated n w
AllSaturated n (err e) = Unit

no_room : (m : MapRun) → length m.items ≤ m.next → has_room m ≡ false
unfolding has_room
no_room m h = ground (arith, h)

module _ (d : Decider) (n : Node) (rounds : ℕ) (rest : Step)
    (settles : (w : Work) (m : MapRun)
      → get w.st.maps n.id ≡ some m
      → length m.items ≤ m.next + rounds
      → AllSaturated n (rest d w)) where
  after_start :
      (w : Work) (m : MapRun) (over : Bool)
      → length m.items ≤ m.next + suc rounds
      → terminal w.st.status ≡ over
      → Started n.id m w.st
      → AllSaturated n ((if over then skip else rest) d w)
  unfolding AllSaturated skip
  after_start w m true le e h = inl e
  after_start w m false le e (inl h) = absurd (cc)
  after_start w m false le e (inr (m', g, l, k)) = settles w m' g (omega arith)

  round-Saturated :
      (w : Work) (m : MapRun) (r : Result (Unit {0} × Work))
      → length m.items ≤ m.next + suc rounds
      → Leaves (Started n.id m) r
      → AllSaturated n (continue r (λ u. is_done >>= λ over. if over then skip else rest) d w)
  unfolding AllSaturated is_done look ◌>>=◌
  round-Saturated w m (err e) le h = tt
  round-Saturated w m (ok (u, w')) le h = after_start w' m _ le refl h

  tested-Saturated :
      (w : Work) (m : MapRun) (room : Bool)
      → has_room m ≡ room
      → get w.st.maps n.id ≡ some m
      → length m.items ≤ m.next + suc rounds
      → AllSaturated n ((if room then item_round n m rest else skip) d w)
  unfolding AllSaturated item_round skip ◌>>=◌
  tested-Saturated w m false e h le = inr (m, h, e)
  tested-Saturated w m true e h le =
      round-Saturated w m (item_start n m d w) le (item_start-Started d n m w h)

item_loop-Saturated :
    (d : Decider) (n : Node) (rounds : ℕ) (w : Work) (m : MapRun)
    → get w.st.maps n.id ≡ some m
    → length m.items ≤ m.next + rounds
    → AllSaturated n (item_loop rounds n d w)
unfolding AllSaturated item_loop look deref skip ◌>>=◌
item_loop-Saturated d n zero w m h le = inr (m, h, no_room m (omega (arith, le)))
item_loop-Saturated d n (suc rounds) w m h le = rw h (
    tested-Saturated d n rounds (item_loop rounds n) (item_loop-Saturated d n rounds) w m
      (has_room m) refl h le)

-- The loop that starts the items of a map ends by its own test: with a round for each item that has
-- not started, a loop that returns has left an ended execution, or a map that has no further item or
-- as many in flight as it may.
pub item_loop_ends :
    (d : Decider) (n : Node) (w w' : Work) (m : MapRun)
    → get w.st.maps n.id ≡ some m
    → item_loop (length m.items - m.next) n d w ≡ ok (tt, w')
    → IsSaturated n w'
unfolding AllSaturated
item_loop_ends d n w w' m h e =
    subst (AllSaturated n) e (item_loop-Saturated d n (length m.items - m.next) w m h (omega arith))
