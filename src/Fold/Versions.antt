-- ===== src/Fold/Versions.antt =====
-- internal/fold/state.go: what every fold of an event gives: a state that exists, of the same version
-- of the flow if the event goes on from the state, whatever the sequence of the event.
use packtrail.Prelude.{ℕ, ◌≡◌, refl, ap, String, Bool, true, false, Option, ◌∙◌, arith}
use packtrail.Outcome.{Err, Result, ok, err}
use packtrail.Platform.{Platform}
use packtrail.Event
use packtrail.Event.{Payload}
use packtrail.Flow.{Flow}
use packtrail.Fold.State.{State, Ev, Status, exists}
use packtrail.Fold.Apply.{
  apply, apply_event, finish, finished, without_gap, gap, wrap_apply, recompute,
}
use packtrail.Fold.Frame.{Framed, Frame, frame, node-frame}
use packtrail.Fold.Rules.Basics.{IsOngoing}

-- the version of the flow that an execution runs
abbrev pub version : State → String × String
version s = (s.flow, s.flow_hash)

abbrev pub Versioned : String × String → Result State → Type 0
Versioned v (ok s) = version s ≡ v
Versioned v (err e) = Unit

wrap-Versioned :
    (f : Frame) (r : Result State) → Framed f r → Versioned (f.flow, f.flow_hash) (wrap_apply r)
unfolding wrap_apply
wrap-Versioned f (ok t) h = ap (λ (g : Frame). (g.flow, g.flow_hash)) h
wrap-Versioned f (err Err.panic) h = tt
wrap-Versioned f (err _) h = tt

event-Versioned :
    (p : Platform) (def : Option Flow) (s : State) (ev : Ev) (e : Payload State)
    → IsOngoing e
    → Versioned (version s) (wrap_apply (apply_event p def s ev e))
unfolding apply_event wrap_apply
event-Versioned p def s ev (Event.started e) h = absurd h
event-Versioned p def s ev (Event.forked _ _ _ _) h = absurd h
event-Versioned p def s ev (Event.continued _ _) h = absurd h
event-Versioned p def s ev (Event.completed e) h = refl
event-Versioned p def s ev (Event.failed e) h = refl
event-Versioned p def s ev (Event.cancelled e) h = refl
event-Versioned p def s ev (Event.entered e) h = refl
event-Versioned p def s ev e h = wrap-Versioned (frame s) _ (node-frame p def ev.time e s)

version-recompute : (st : Status) (s : State) → version (recompute st s) ≡ version s
unfolding recompute
version-recompute Status.running s = refl
version-recompute Status.waiting s = refl
version-recompute _ s = refl

finished-Versioned :
    (v : String × String) (ev : Ev) (r : Result State) → Versioned v r → Versioned v (finished ev r)
unfolding finished finish
finished-Versioned v ev (ok s) h = version-recompute s.status _ ∙ h
finished-Versioned v ev (err e) h = tt

without_gap-Versioned :
    (v : String × String) (b : Bool) (r : Result State)
    → Versioned v r
    → Versioned v (without_gap b r)
unfolding without_gap
without_gap-Versioned v true r h = tt
without_gap-Versioned v false r h = h

-- An event that goes on from a state keeps the version.
pub apply-Versioned :
    (p : Platform) (def : Option Flow) (s : State) (ev : Ev)
    → IsOngoing ev.payload
    → Versioned (version s) (apply p def s ev)
unfolding apply
apply-Versioned p def s ev h =
    without_gap-Versioned _ (gap s ev) _
      (finished-Versioned _ ev _ (event-Versioned p def s ev ev.payload h))

-- the version that an event which bases a state names
abbrev pub named_version : Payload State → String × String
named_version (Event.started e) = (e.flow, e.flow_hash)
named_version (Event.forked _ _ _ src) = version src
named_version (Event.continued src _) = version src
named_version _ = ("", "")

abbrev pub IsBase : Payload State → Type 0
IsBase (Event.started _) = Unit
IsBase (Event.forked _ _ _ _) = Unit
IsBase (Event.continued _ _) = Unit
IsBase _ = ⊥

base-Versioned :
    (p : Platform) (def : Option Flow) (s : State) (ev : Ev) (e : Payload State)
    → IsBase e
    → Versioned (named_version e) (wrap_apply (apply_event p def s ev e))
unfolding apply_event wrap_apply
base-Versioned p def s ev (Event.started e) h = refl
base-Versioned p def s ev (Event.forked _ _ _ _) h = refl
base-Versioned p def s ev (Event.continued _ _) h = refl
base-Versioned p def s ev _ h = absurd h

-- An event that bases a state names its version.
pub apply-Named :
    (p : Platform) (def : Option Flow) (s : State) (ev : Ev)
    → IsBase ev.payload
    → Versioned (named_version ev.payload) (apply p def s ev)
unfolding apply
apply-Named p def s ev h =
    without_gap-Versioned _ (gap s ev) _
      (finished-Versioned _ ev _ (base-Versioned p def s ev ev.payload h))

abbrev pub Exists : Result State → Type 0
Exists (ok s) = exists s ≡ true
Exists (err e) = Unit

events-recompute : (st : Status) (s : State) → (recompute st s).events ≡ s.events
unfolding recompute
events-recompute Status.running s = refl
events-recompute Status.waiting s = refl
events-recompute _ s = refl

finished-Exists : (ev : Ev) (r : Result State) → Exists (finished ev r)
unfolding finished finish exists
finished-Exists ev (ok s) = rw (events-recompute s.status) (ground arith)
finished-Exists ev (err e) = tt

without_gap-Exists : (b : Bool) (r : Result State) → Exists r → Exists (without_gap b r)
unfolding without_gap
without_gap-Exists true r h = tt
without_gap-Exists false r h = h

-- An execution exists after an event.
pub apply-Exists :
    (p : Platform) (def : Option Flow) (s : State) (ev : Ev) → Exists (apply p def s ev)
unfolding apply
apply-Exists p def s ev = without_gap-Exists (gap s ev) _ (finished-Exists ev _)

event-stamped :
    (p : Platform) (def : Option Flow) (s : State) (ev : Ev) (q : ℕ) (e : Payload State)
    → apply_event p def s (record ev { seq = q }) e ≡ apply_event p def s ev e
unfolding apply_event
event-stamped p def s ev q (Event.started e) = refl
event-stamped p def s ev q (Event.forked _ _ _ _) = refl
event-stamped p def s ev q (Event.continued _ _) = refl
event-stamped p def s ev q (Event.completed e) = refl
event-stamped p def s ev q (Event.failed e) = refl
event-stamped p def s ev q (Event.cancelled e) = refl
event-stamped p def s ev q (Event.entered e) = refl
event-stamped p def s ev q e = refl

finished-stamped :
    (ev : Ev) (q : ℕ) (r : Result State) → finished (record ev { seq = q }) r ≡ finished ev r
unfolding finished finish
finished-stamped ev q (ok s) = refl
finished-stamped ev q (err e) = refl

-- Apply does not read the sequence of an event.
pub apply-stamped :
    (p : Platform) (def : Option Flow) (s : State) (ev : Ev) (q : ℕ)
    → apply p def s (record ev { seq = q }) ≡ apply p def s ev
unfolding apply gap
apply-stamped p def s ev q = rw (event-stamped p def s ev q ev.payload, finished-stamped ev q) refl
