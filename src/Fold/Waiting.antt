-- ===== src/Fold/Waiting.antt =====
-- internal/fold/state.go, (*State).recomputeStatus: when an execution is waiting.
use packtrail.Prelude.{
  ◌≡◌, ◌≢◌, ◌↔◌, ◌⊎◌, inl, inr, refl, subst, Bool, true, false, not, ◌||◌, Option, [], ◌∷◌,
  if◌then◌else◌, ltb, ◌+◌,
}
use packtrail.GoMap.{Map}
use packtrail.Outcome.{Result, ok, err}
use packtrail.Platform.{Platform}
use packtrail.Flow.{Flow}
use packtrail.Fold.State.{State, Ev, Status, Task, TaskStatus, is_interrupted}
use packtrail.Fold.Apply.{
  apply, apply_event, computed_status, any_active, none_in, recompute, finish, finished,
  without_gap, gap, wrap_apply,
}

abbrev pub AreInterrupted : Map Task → Type 0
AreInterrupted [] = Unit
AreInterrupted ((k, t) ∷ ts) = (t.status ≡ TaskStatus.interrupted) × AreInterrupted ts

-- nothing runs, and a signal or a resume is missing
abbrev pub AwaitsInput : State → Type 0
AwaitsInput s =
    AreInterrupted s.tasks × (s.children ≡ []) × (s.maps ≡ []) × ((s.awaits ≢ []) ⊎ (s.tasks ≢ []))

-- a status that Apply computes again after each event
abbrev pub IsLive : Status → Type 0
IsLive Status.running = Unit
IsLive Status.waiting = Unit
IsLive _ = ⊥

interrupted_iff : (t : TaskStatus) → (not (is_interrupted t) ≡ false) ↔ (t ≡ TaskStatus.interrupted)
unfolding is_interrupted
interrupted_iff TaskStatus.scheduled = (λ h. absurd (cc), λ h. absurd (cc))
interrupted_iff TaskStatus.retrying = (λ h. absurd (cc), λ h. absurd (cc))
interrupted_iff TaskStatus.interrupted = (λ h. refl, λ h. refl)

or_false : (a b : Bool) → (a || b ≡ false) ↔ ((a ≡ false) × (b ≡ false))
or_false true b = (λ h. absurd (cc), λ h. absurd (cc))
or_false false b = (λ h. (refl, h), λ h. h.1)

idle_iff : (tasks : Map Task) → (any_active tasks ≡ false) ↔ AreInterrupted tasks
unfolding any_active
idle_iff [] = (λ h. tt, λ h. refl)
idle_iff ((k, t) ∷ ts) = (
  λ h.
      let (a, b) = (or_false (not (is_interrupted t.status)) (any_active ts)).0 h in
      ((interrupted_iff t.status).0 a, (idle_iff ts).0 b),
  λ h.
      (or_false (not (is_interrupted t.status)) (any_active ts)).1
        ((interrupted_iff t.status).1 h.0, (idle_iff ts).1 h.1),
)

none_iff {ℓ} : {V : Type ℓ} (m : Map V) → (none_in m ≡ true) ↔ (m ≡ [])
none_iff [] = (λ h. refl, λ h. refl)
none_iff (e ∷ m) = (λ h. absurd (cc), λ h. absurd (cc))

some_iff {ℓ} : {V : Type ℓ} (m : Map V) → (none_in m ≡ false) ↔ (m ≢ [])
some_iff [] = (λ h. absurd (cc), λ h. absurd (h refl))
some_iff (e ∷ m) = (λ h e'. absurd (cc), λ h. refl)

-- computed_status, of what it asks
abbrev status_of : Bool → Bool → Bool → Bool → Bool → Status
status_of active children maps awaits tasks =
    if active
    then Status.running
    else if not children || not maps
    then Status.running
    else if not awaits || not tasks
    then Status.waiting
    else Status.running

status_of_iff :
    (active children maps awaits tasks : Bool)
    → (status_of active children maps awaits tasks ≡ Status.waiting) ↔ (
        (active ≡ false) × (children ≡ true) × (maps ≡ true) × ((awaits ≡ false) ⊎ (tasks ≡ false)))
status_of_iff true c m a t = (λ h. absurd (cc), λ h. absurd (cc h.0))
status_of_iff false false m a t = (λ h. absurd (cc), λ h. absurd (cc h.1))
status_of_iff false true false a t = (λ h. absurd (cc), λ h. absurd (cc h.2))
status_of_iff false true true false t = (λ h. (refl, refl, refl, inl refl), λ h. refl)
status_of_iff false true true true false = (λ h. (refl, refl, refl, inr refl), λ h. refl)
status_of_iff false true true true true =
    (λ h. absurd (cc), λ h. elim h.3 [ inl e ↦ absurd (cc) | inr e ↦ absurd (cc) ])

computed_iff : (s : State) → (computed_status s ≡ Status.waiting) ↔ AwaitsInput s
unfolding computed_status
computed_iff s =
    let asked =
      status_of_iff (any_active s.tasks) (none_in s.children) (none_in s.maps) (none_in s.awaits)
        (none_in s.tasks) in
    (
      λ h.
          let (idle, children, maps, rest) = asked.0 h in
          (
            (idle_iff s.tasks).0 idle,
            (none_iff s.children).0 children,
            (none_iff s.maps).0 maps,
            elim rest [
              | inl e ↦ inl ((some_iff s.awaits).0 e)
              | inr e ↦ inr ((some_iff s.tasks).0 e)
            ],
          ),
      λ h. asked.1 (
        (idle_iff s.tasks).1 h.0,
        (none_iff s.children).1 h.1,
        (none_iff s.maps).1 h.2,
        elim h.3 [ inl e ↦ inl ((some_iff s.awaits).1 e) | inr e ↦ inr ((some_iff s.tasks).1 e) ],
      ),
    )

-- Of a live status: it is waiting exactly if input is missing.
abbrev IsRight : State → Type 0
IsRight s = IsLive s.status → (s.status ≡ Status.waiting) ↔ AwaitsInput s

recompute-IsRight : (st : Status) (s : State) → s.status ≡ st → IsRight (recompute st s)
unfolding recompute
recompute-IsRight Status.running s e live = computed_iff s
recompute-IsRight Status.waiting s e live = computed_iff s
recompute-IsRight Status.unborn s e live = absurd (subst IsLive e live)
recompute-IsRight Status.completed s e live = absurd (subst IsLive e live)
recompute-IsRight Status.failed s e live = absurd (subst IsLive e live)
recompute-IsRight Status.cancelled s e live = absurd (subst IsLive e live)

abbrev AllRight : Result State → Type 0
AllRight (ok s) = IsRight s
AllRight (err e) = Unit

finish-IsRight : (ev : Ev) (s : State) → IsRight (finish ev s)
unfolding finish
finish-IsRight ev s =
    recompute-IsRight s.status
      (record s { events = s.events + 1; updated = if ltb 0 ev.time then ev.time else s.updated })
      refl

apply-AllRight : (b : Bool) (ev : Ev) (r : Result State) → AllRight (without_gap b (finished ev r))
unfolding without_gap finished
apply-AllRight true ev r = tt
apply-AllRight false ev (err e) = tt
apply-AllRight false ev (ok s) = finish-IsRight ev s

-- After any event that Apply folds, an execution whose status is running or waiting is waiting
-- exactly if every task is interrupted, no child and no map runs, and an await is open or a task is
-- there to be resumed.
pub waiting_iff :
    (p : Platform) (def : Option Flow) (s t : State) (ev : Ev)
    → apply p def s ev ≡ ok t
    → IsLive t.status
    → (t.status ≡ Status.waiting) ↔ AwaitsInput t
unfolding apply
waiting_iff p def s t ev h =
    subst AllRight h (apply-AllRight (gap s ev) ev (wrap_apply (apply_event p def s ev ev.payload)))
