-- ===== src/Fold/MapLoop/Emits.antt =====
-- internal/fold/decide.go, (*decider).mapProgress: what the events of an item leave of its map.
use packtrail.Prelude.{
  ℕ, ◌+◌, ◌≤◌, max, ◌≡◌, ◌⊎◌, refl, sym, subst, String, Bool, true, false, Option, some, length,
  arith, eq_refl,
}
use packtrail.GoMap.{Map, get, put, get-put_self}
use packtrail.Outcome.{Result, ok, err}
use packtrail.Platform.{Platform}
use packtrail.Event
use packtrail.Event.{Payload, Scheduled, Child, Timer, scheduled, child, timer, failed}
use packtrail.Flow.{Flow}
use packtrail.Fold.State.{State, Ev, Status, MapRun, terminal}
use packtrail.Fold.Apply.{
  apply, apply_event, finish, finished, recompute, without_gap, gap, wrap_apply, terminate,
}
use packtrail.Fold.Apply.Nodes.{apply_node, apply_scheduled}
use packtrail.Fold.Apply.Structure.{apply_structure}
use packtrail.Fold.Apply.Waits.{apply_wait, apply_child, started_item}
use packtrail.Fold.Decide.Monad.{Decider, Work, M, continue, emit, emitted, new_event}

-- what holds of the work that an action leaves, if it does not fail
abbrev pub Leaves : {A : Type 0} → (State → Type 0) → Result (A × Work) → Type 0
Leaves J (ok (a, w)) = J w.st
Leaves J (err e) = Unit

abbrev Folds : (State → Type 0) → Result State → Type 0
Folds J (ok s) = J s
Folds J (err e) = Unit

pub continue-Leaves :
    {A B : Type 0} (I J : State → Type 0) (d : Decider) (r : Result (A × Work)) (f : A → M B)
    (w : Work)
    → Leaves I r
    → ((a : A) (w' : Work) → I w'.st → Leaves J (f a d w'))
    → Leaves J (continue r f d w)
continue-Leaves I J d (ok (a, w')) f w h k = k a w' h
continue-Leaves I J d (err e) f w h k = tt

without_gap-Folds :
    (J : State → Type 0) (b : Bool) (r : Result State) → Folds J r → Folds J (without_gap b r)
unfolding without_gap
without_gap-Folds J true r h = tt
without_gap-Folds J false r h = h

-- An event whose payload folds to `s'`.
apply-Folds :
    (J : State → Type 0) (p : Platform) (def : Option Flow) (s s' : State) (ev : Ev)
    → apply_event p def s ev ev.payload ≡ ok s'
    → J (finish ev s')
    → Folds J (apply p def s ev)
unfolding apply finished wrap_apply
apply-Folds J p def s s' ev e h = rw e (without_gap-Folds J (gap s ev) (ok (finish ev s')) h)

emitted-Leaves :
    (J : State → Type 0) (ev : Ev) (w : Work) (r : Result State)
    → Folds J r
    → Leaves J (emitted ev w r)
unfolding emitted
emitted-Leaves J ev w (ok s) h = h
emitted-Leaves J ev w (err e) h = tt

emit-Leaves :
    (J : State → Type 0) (d : Decider) (w : Work) (e : Payload State) (s' : State)
    → apply_event d.platform (some d.def) w.st (new_event d w.st e) e ≡ ok s'
    → J (finish (new_event d w.st e) s')
    → Leaves J (emit e d w)
unfolding emit new_event
emit-Leaves J d w e s' h j =
    emitted-Leaves J _ w _ (apply-Folds J d.platform (some d.def) w.st s' (new_event d w.st e) h j)

maps-recompute : (st : Status) (s : State) → (recompute st s).maps ≡ s.maps
unfolding recompute
maps-recompute Status.running s = refl
maps-recompute Status.waiting s = refl
maps-recompute _ s = refl

maps-finish : (ev : Ev) (s : State) → (finish ev s).maps ≡ s.maps
unfolding finish
maps-finish ev s = maps-recompute s.status _

-- the map of a node has these many items, and has started these many at least
abbrev pub Running : String → ℕ → ℕ → Map MapRun → Type 0
Running id len k maps =
    (m : MapRun) × (get maps id ≡ some m) × (length m.items ≡ len) × (k ≤ m.next)

finish-Running :
    (id : String) (len k : ℕ) (ev : Ev) (s : State)
    → Running id len k s.maps
    → Running id len k (finish ev s).maps
finish-Running id len k ev s h = subst (Running id len k) (sym (maps-finish ev s)) h

get-started_item :
    (id : String) (i : ℕ) (maps : Map MapRun) (m : MapRun)
    → get maps id ≡ some m
    → get (started_item id id i maps) id ≡ some (record m { next = max m.next (i + 1) })
unfolding started_item
get-started_item id i maps m h = rw (started_item, h, eq_refl) (get-put_self maps id _)

-- It has started one more, once a payload starts the next item.
pub started-Running :
    (id : String) (m : MapRun) (maps : Map MapRun)
    → get maps id ≡ some m
    → Running id (length m.items) (m.next + 1) (started_item id id m.next maps)
started-Running id m maps h = (
  record m { next = max m.next (m.next + 1) },
  get-started_item id m.next maps m h,
  refl,
  omega arith,
)

recompute-failed :
    (st : Status) (s : State)
    → st ≡ Status.failed
    → s.status ≡ Status.failed
    → terminal (recompute st s).status ≡ true
unfolding recompute terminal
recompute-failed Status.unborn s e h = absurd (cc)
recompute-failed Status.running s e h = absurd (cc)
recompute-failed Status.waiting s e h = absurd (cc)
recompute-failed Status.completed s e h = absurd (cc)
recompute-failed Status.cancelled s e h = absurd (cc)
recompute-failed Status.failed s e h = rw h refl

finish-failed :
    (ev : Ev) (s : State) → s.status ≡ Status.failed → terminal (finish ev s).status ≡ true
unfolding finish
finish-failed ev s h = recompute-failed s.status _ h h

-- what an attempt to start item `m.next` leaves
abbrev pub Started : String → MapRun → State → Type 0
Started id m s = (terminal s.status ≡ true) ⊎ Running id (length m.items) (m.next + 1) s.maps

module _ (d : Decider) (id : String) (len k : ℕ) where
  emit-Running :
      (w : Work) (e : Payload State) (s' : State)
      → apply_event d.platform (some d.def) w.st (new_event d w.st e) e ≡ ok s'
      → Running id len k s'.maps
      → Leaves (λ s. Running id len k s.maps) (emit e d w)
  emit-Running w e s' h r =
      emit-Leaves (λ s. Running id len k s.maps) d w e s' h
        (finish-Running id len k (new_event d w.st e) s' r)

  pub scheduled-Running :
      (w : Work) (e : Scheduled)
      → Running id len k (started_item e.owner e.node e.index w.st.maps)
      → Leaves (λ s. Running id len k s.maps) (emit (scheduled e) d w)
  unfolding apply_event apply_node apply_scheduled
  scheduled-Running w e h = emit-Running w (scheduled e) (apply_scheduled e w.st) refl h

  pub child-Running :
      (w : Work) (e : Child)
      → Running id len k (started_item e.owner e.node e.index w.st.maps)
      → Leaves (λ s. Running id len k s.maps) (emit (child e) d w)
  unfolding apply_event apply_node apply_structure apply_wait apply_child
  child-Running w e h = emit-Running w (child e) (apply_child e w.st) refl h

  pub timer-Running :
      (w : Work) (e : Timer)
      → Running id len k w.st.maps
      → Leaves (λ s. Running id len k s.maps) (emit (timer e) d w)
  unfolding apply_event apply_node apply_structure apply_wait
  timer-Running w e h =
      emit-Running w (timer e) (record w.st { timers = put w.st.timers e.id e; n = max w.st.n e.n })
        refl h

pub failed-Leaves :
    (d : Decider) (w : Work) (e : packtrail.Event.Failed)
    → Leaves (λ s. terminal s.status ≡ true) (emit (failed e) d w)
unfolding apply_event terminate
failed-Leaves d w e =
    emit-Leaves (λ s. terminal s.status ≡ true) d w (failed e)
      (record (terminate Status.failed w.st) {
        error = e.error;
        reason = e.reason;
        failed_node = e.node;
      })
      refl (finish-failed _ _ refl)
