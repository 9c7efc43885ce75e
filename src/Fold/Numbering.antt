-- ===== src/Fold/Numbering.antt =====
-- event/event.go, internal/fold: the indexes of the events of a decision.
use packtrail.Prelude.{
  ℕ, suc, ◌+◌, ◌≡◌, refl, ap, Bool, true, false, Option, some, List, [], ◌∷◌, ◌++◌, String, arith,
  length, length-append,
}
use packtrail.Outcome.{Err, Result, ok, err}
use packtrail.Platform.{Platform}
use packtrail.Event
use packtrail.Event.{Payload, Time}
use packtrail.Flow.{Flow}
use packtrail.Cmd.{Command}
use packtrail.Fold.State.{State, Ev, Status}
use packtrail.Fold.Apply.{apply, apply_event, finished, without_gap, gap, wrap_apply, recompute}
use packtrail.Fold.Frame.{Framed, Frame, frame, node-frame}
use packtrail.Fold.Decide.{decide, decider_for}
use packtrail.Fold.Decide.Monad.{Work, emit, emitted, new_event, event_index}
use packtrail.Fold.Rules.{Holds, Keeps}
use packtrail.Fold.Rules.Basics.{IsPlain}
use packtrail.Fold.Rules.Enter.{apply-Counts, Counts}
use packtrail.Fold.Rules.Decide.{decide-Keeps}
use packtrail.Fold.Replay.{Holds-ok}

-- The state that follows, if any, has folded `n` events.
abbrev Folded : ℕ → Result State → Type 0
Folded n (ok s) = s.events ≡ n
Folded n (err e) = Unit

wrap-Folded : (f : Frame) (r : Result State) → Framed f r → Folded f.events (wrap_apply r)
unfolding wrap_apply
wrap-Folded f (ok t) h = ap (λ (g : Frame). g.events) h
wrap-Folded f (err Err.panic) h = tt
wrap-Folded f (err _) h = tt

event-Folded :
    (p : Platform) (def : Option Flow) (s : State) (ev : Ev) (e : Payload State)
    → IsPlain e
    → Folded s.events (wrap_apply (apply_event p def s ev e))
unfolding apply_event wrap_apply
event-Folded p def s ev (Event.started e) h = refl
event-Folded p def s ev (Event.forked _ _ _ _) h = absurd h
event-Folded p def s ev (Event.continued _ _) h = absurd h
event-Folded p def s ev (Event.completed e) h = refl
event-Folded p def s ev (Event.failed e) h = refl
event-Folded p def s ev (Event.cancelled e) h = refl
event-Folded p def s ev (Event.entered e) h = refl
event-Folded p def s ev e h = wrap-Folded (frame s) _ (node-frame p def ev.time e s)

events-recompute : (st : Status) (s : State) → (recompute st s).events ≡ s.events
unfolding recompute
events-recompute Status.running s = refl
events-recompute Status.waiting s = refl
events-recompute _ s = refl

finished-Folded : (n : ℕ) (ev : Ev) (r : Result State) → Folded n r → Folded (n + 1) (finished ev r)
unfolding finished
finished-Folded n ev (ok s) h = rw (events-recompute, h) refl
finished-Folded n ev (err e) h = tt

without_gap-Folded : (n : ℕ) (b : Bool) (r : Result State) → Folded n r → Folded n (without_gap b r)
unfolding without_gap
without_gap-Folded n true r h = tt
without_gap-Folded n false r h = h

apply-Folded :
    (p : Platform) (def : Option Flow) (s : State) (ev : Ev)
    → IsPlain ev.payload
    → Folded (s.events + 1) (apply p def s ev)
unfolding apply
apply-Folded p def s ev h =
    without_gap-Folded (s.events + 1) (gap s ev)
      (finished ev (wrap_apply (apply_event p def s ev ev.payload)))
      (finished-Folded s.events ev (wrap_apply (apply_event p def s ev ev.payload))
        (event-Folded p def s ev ev.payload h))

index-plain : (s : State) (e : Payload State) → IsPlain e → event_index s e ≡ s.events + 1
unfolding event_index
index-plain s (Event.forked _ _ _ _) h = absurd h
index-plain s (Event.continued _ _) h = refl
index-plain s _ h = refl

-- The events are the ones after the first `n`, one after the other, of one command at one time.
abbrev pub Numbered : String → Time → ℕ → List Ev → Type 0
Numbered id now n [] = Unit
Numbered id now n (ev ∷ evs) =
    (ev.index ≡ suc n) × (ev.cmd_id ≡ id) × (ev.time ≡ now) × Numbered id now (suc n) evs

Numbered-append :
    (id : String) (now : Time) (n : ℕ) (evs : List Ev) (ev : Ev)
    → Numbered id now n evs
    → ev.index ≡ n + length evs + 1
    → ev.cmd_id ≡ id
    → ev.time ≡ now
    → Numbered id now n (evs ++ ev ∷ [])
Numbered-append id now n [] ev h i c t = (omega arith, c, t, tt)
Numbered-append id now n (e ∷ evs) ev h i c t =
    (h.0, h.1, h.2, Numbered-append id now (suc n) evs ev h.3 (omega arith) c t)

module _ (p : Platform) (def : Flow) (s : State) (c : Command) (now : ℕ) where
  abbrev Follows : Work → Type 0
  Follows w = Numbered c.id now s.events w.out × (w.st.events ≡ s.events + length w.out)

  emitted-Follows :
      (ev : Ev) (w : Work) (r : Result State)
      → ev.index ≡ w.st.events + 1
      → ev.cmd_id ≡ c.id
      → ev.time ≡ now
      → Counts w.st.steps r
      → Folded (w.st.events + 1) r
      → Follows w
      → Holds Follows (emitted ev w r)
  unfolding emitted
  emitted-Follows ev w (ok t) i id at k f h = (
    Numbered-append c.id now s.events w.out ev h.0 (omega (arith, h.1)) id at,
    omega (arith, h.1, length-append w.out (ev ∷ [])),
  )
  emitted-Follows ev w (err x) i id at k f h = k

  emit-Follows : (e : Payload State) → IsPlain e → Keeps (decider_for p def c now) Follows (emit e)
  unfolding emit new_event
  emit-Follows e plain = record {
    at = λ w h.
        let ev = new_event (decider_for p def c now) w.st e in
        emitted-Follows ev w _ (index-plain w.st e plain) refl refl
          (apply-Counts p (some def) w.st ev plain) (apply-Folded p (some def) w.st ev plain) h;
  }

  decide-Follows : Holds Follows (decide p def s c now)
  decide-Follows = decide-Keeps p def s c now Follows emit-Follows (tt, omega arith)

-- The events of a decision continue the log without a gap: they are numbered one by one from the
-- count of events before, the state's count is the last number, and each carries the command's id
-- and the time of the decision.
pub decide_numbers :
    (p : Platform) (def : Flow) (s : State) (c : Command) (now : ℕ) {w : Work}
    → decide p def s c now ≡ ok (tt, w)
    → Numbered c.id now s.events w.out × (w.st.events ≡ s.events + length w.out)
decide_numbers p def s c now {w} h =
    Holds-ok (Follows p def s c now) (decide p def s c now) {w = w} (decide-Follows p def s c now) h
