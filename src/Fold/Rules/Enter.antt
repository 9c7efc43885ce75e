-- ===== src/Fold/Rules/Enter.antt =====
-- Whatever the events of a command keep, entering a node keeps, and it does not run out of fuel: an
-- execution enters no more nodes than its limit.
use packtrail.Prelude.{
  ℕ, zero, suc, ◌+◌, ◌≤◌, ◌<◌, ◌≡◌, ◌≢◌, refl, ap, String, Bool, true, false, Option, none, some,
  arith, ltb, Bool-cases, inl, inr,
}
use packtrail.Outcome.{Err, out_of_fuel, Result, ok, err}
use packtrail.Platform.{Platform}
use packtrail.Event
use packtrail.Event.{Payload, Reason}
use packtrail.Flow.{Flow, Node, max_steps_or_default}
use packtrail.Fold.State.{State, Ev, Status}
use packtrail.Fold.Apply.{apply, apply_event, finished, without_gap, gap, wrap_apply, recompute}
use packtrail.Fold.Frame.{Framed, Frame, frame, node-frame}
use packtrail.Fold.Decide.Monad.{
  Decider, Work, Step, emit, emitted, new_event, ask, look, continue, ◌>>=◌,
}
use packtrail.Fold.Decide.Route.{enter_once, enter_node, go_in, enter_within, enter}
use packtrail.Fold.Rules.{Holds, Keeps, Keeps-bind}
use packtrail.Fold.Rules.Basics
use packtrail.Fold.Rules.Basics.{IsPlain, IsOngoing, ongoing-IsPlain}
use packtrail.Fold.Rules.Route.{visit-Keeps}

-- The state that follows, if any, counts at least `n` steps; and there is fuel left.
abbrev pub Counts : ℕ → Result State → Type 0
Counts n (ok s) = n ≤ s.steps
Counts n (err e) = e ≢ out_of_fuel

wrap-Counts : (f : Frame) (r : Result State) → Framed f r → Counts f.steps (wrap_apply r)
unfolding wrap_apply
wrap-Counts f (ok t) h = omega (arith, ap (λ (g : Frame). g.steps) h)
wrap-Counts f (err Err.panic) h = λ e. cc
wrap-Counts f (err Err.not_found) h = λ e. cc
wrap-Counts f (err _) h = λ e. cc

event-Counts :
    (p : Platform) (def : Option Flow) (s : State) (ev : Ev) (e : Payload State)
    → IsPlain e
    → Counts s.steps (wrap_apply (apply_event p def s ev e))
unfolding apply_event wrap_apply
event-Counts p def s ev (Event.started e) h = omega arith
event-Counts p def s ev (Event.forked _ _ _ _) h = absurd h
event-Counts p def s ev (Event.continued _ _) h = absurd h
event-Counts p def s ev (Event.completed e) h = omega arith
event-Counts p def s ev (Event.failed e) h = omega arith
event-Counts p def s ev (Event.cancelled e) h = omega arith
event-Counts p def s ev (Event.entered e) h = omega arith
event-Counts p def s ev e h = wrap-Counts (frame s) _ (node-frame p def ev.time e s)

steps-recompute : (st : Status) (s : State) → (recompute st s).steps ≡ s.steps
unfolding recompute
steps-recompute Status.unborn s = refl
steps-recompute Status.running s = refl
steps-recompute Status.waiting s = refl
steps-recompute _ s = refl

finished-Counts : (n : ℕ) (ev : Ev) (r : Result State) → Counts n r → Counts n (finished ev r)
unfolding finished
finished-Counts n ev (ok s) h = rw steps-recompute h
finished-Counts n ev (err e) h = h

without_gap-Counts : (n : ℕ) (b : Bool) (r : Result State) → Counts n r → Counts n (without_gap b r)
unfolding without_gap
without_gap-Counts n true r h = λ e. cc
without_gap-Counts n false r h = h

pub apply-Counts :
    (p : Platform) (def : Option Flow) (s : State) (ev : Ev)
    → IsPlain ev.payload
    → Counts s.steps (apply p def s ev)
unfolding apply
apply-Counts p def s ev h =
    without_gap-Counts s.steps (gap s ev)
      (finished ev (wrap_apply (apply_event p def s ev ev.payload)))
      (finished-Counts s.steps ev (wrap_apply (apply_event p def s ev ev.payload))
        (event-Counts p def s ev ev.payload h))

entry-Counts :
    (p : Platform) (def : Option Flow) (s : State) (ev : Ev) (e : Payload State) (id : String)
    → e ≡ Event.entered id
    → Counts (suc s.steps) (wrap_apply (apply_event p def s ev e))
unfolding apply_event wrap_apply
entry-Counts p def s ev e id h = rw h (omega arith)

entered-Counts :
    (p : Platform) (def : Option Flow) (s : State) (ev : Ev) (id : String)
    → ev.payload ≡ Event.entered id
    → Counts (suc s.steps) (apply p def s ev)
unfolding apply
entered-Counts p def s ev id h =
    without_gap-Counts (suc s.steps) (gap s ev)
      (finished ev (wrap_apply (apply_event p def s ev ev.payload)))
      (finished-Counts (suc s.steps) ev (wrap_apply (apply_event p def s ev ev.payload))
        (entry-Counts p def s ev ev.payload id h))

abbrev Reached : ℕ → Work → Type 0
Reached b w = b ≤ w.st.steps

emitted-Reached :
    (b n : ℕ) (ev : Ev) (w : Work) (r : Result State)
    → b ≤ n
    → Counts n r
    → Holds (Reached b) (emitted ev w r)
unfolding emitted
emitted-Reached b n ev w (ok s) le h = omega arith
emitted-Reached b n ev w (err e) le h = h

Holds-both :
    {A : Type 0} (I J : Work → Type 0) (r : Result (A × Work))
    → Holds I r
    → Holds J r
    → Holds (λ w. I w × J w) r
Holds-both I J (ok (a, w)) h k = (h, k)
Holds-both I J (err e) h k = h

Holds-weaken :
    {A : Type 0} (I J : Work → Type 0) (r : Result (A × Work))
    → ((w : Work) → I w → J w)
    → Holds I r
    → Holds J r
Holds-weaken I J (ok (a, w)) k h = k w h
Holds-weaken I J (err e) k h = h

pub Holds-then :
    (I J : Work → Type 0) (d : Decider) (r : Result (Unit {0} × Work)) (k : Step) (w : Work)
    → Holds I r
    → ((w' : Work) → I w' → Holds J (k d w'))
    → Holds J (continue r (λ _. k) d w)
Holds-then I J d (ok (a, w')) k w h f = f w' h
Holds-then I J d (err e) k w h f = h

module _ (d : Decider) (I : Work → Type 0)
    (emits : (e : Payload State) → IsOngoing e → Keeps d I (emit e)) where
  emits_reaching :
      (b : ℕ) (e : Payload State) → IsOngoing e → Keeps d (λ w. I w × Reached b w) (emit e)
  unfolding emit new_event
  emits_reaching b e h = record {
    at = λ w k. Holds-both I (Reached b) (emit e d w) ((emits e h).at w k.0) (
        emitted-Reached b w.st.steps _ w _ k.1
          (apply-Counts d.platform (some d.def) w.st (new_event d w.st e) (ongoing-IsPlain e h)));
  }

  go_in-Keeps :
      (b : ℕ) (enter' : String → Step) (id : String) (n : Node)
      → ((id : String) → Keeps d (λ w. I w × Reached (suc b) w) (enter' id))
      → Keeps d (λ w. I w × Reached b w) (go_in enter' id n)
  unfolding go_in ◌>>=◌ emit new_event
  go_in-Keeps b enter' id n enters = record {
    at = λ w k.
        Holds-then (λ w. I w × Reached (suc b) w) (λ w. I w × Reached b w) d _ _ w
          (Holds-both I (Reached (suc b)) (emit (Event.entered id) d w)
            ((emits (Event.entered id) tt).at w k.0)
            (emitted-Reached (suc b) (suc w.st.steps) _ w _ (omega arith) (
              entered-Counts d.platform (some d.def) w.st (new_event d w.st (Event.entered id)) id
                refl)))
          (λ w' h.
            Holds-weaken (λ w. I w × Reached (suc b) w) (λ w. I w × Reached b w) _
              (λ u g. (g.0, omega arith))
              ((visit-Keeps d (λ w. I w × Reached (suc b) w) (emits_reaching (suc b)) enter' enters
                  n n.type).at
                w' h));
  }

  enter_node-Keeps :
      (b : ℕ) (enter' : String → Step) (id : String) (o : Option Node)
      → (b < max_steps_or_default d.def
          → (id : String) → Keeps d (λ w. I w × Reached (suc b) w) (enter' id))
      → Keeps d (λ w. I w × Reached b w) (enter_node enter' id o)
  unfolding enter_node ◌>>=◌ ask look
  enter_node-Keeps b enter' id none enters =
      Basics.fail-Keeps d (λ w. I w × Reached b w) (emits_reaching b) _ _ _
  enter_node-Keeps b enter' id (some n) enters = record {
    at = λ w k. elim (Bool-cases (ltb (max_steps_or_default d.def) (w.st.steps + 1))) [
      | inl over ↦
          rw over ((Basics.fail-Keeps d (λ w. I w × Reached b w) (emits_reaching b) _ _ _).at w k)
      | inr within ↦ rw within ((go_in-Keeps b enter' id n (enters (ground (arith, k.1)))).at w k)
    ];
  }

  enter_once-Keeps :
      (b : ℕ) (enter' : String → Step)
      → (b < max_steps_or_default d.def
          → (id : String) → Keeps d (λ w. I w × Reached (suc b) w) (enter' id))
      → (id : String) → Keeps d (λ w. I w × Reached b w) (enter_once enter' id)
  unfolding enter_once
  enter_once-Keeps b enter' enters id =
      Keeps-bind _ _ (Basics.node-Keeps d (λ w. I w × Reached b w) (emits_reaching b) id)
        (λ found. enter_node-Keeps b enter' id found enters)

  enter_within-Keeps :
      (fuel b : ℕ)
      → max_steps_or_default d.def ≤ b + fuel
      → (id : String) → Keeps d (λ w. I w × Reached b w) (enter_within fuel id)
  unfolding enter_within
  enter_within-Keeps zero b h id = enter_once-Keeps b _ (λ lt. absurd (omega arith)) id
  enter_within-Keeps (suc fuel) b h id =
      enter_once-Keeps b (enter_within fuel) (λ lt. enter_within-Keeps fuel (suc b) (omega arith))
        id

  pub enter-Keeps : (id : String) → Keeps d I (enter id)
  unfolding enter ◌>>=◌ ask
  enter-Keeps id = record {
    at = λ w h.
        Holds-weaken (λ w. I w × Reached 0 w) I (enter id d w) (λ u g. g.0)
          ((enter_within-Keeps (max_steps_or_default d.def) 0 (omega arith) id).at w
            (h, omega arith));
  }
