-- ===== src/Fold/Replay/Forks.antt =====
-- internal/fold/decide.go, DecideFork, Continue and Abort: folding their events gives the state that
-- they decided.
use packtrail.Prelude.{ℕ, ◌≡◌, ◌≢◌, refl, Bool, true, false, String, Option, some, if◌then◌else◌}
use packtrail.GoMap.{Map}
use packtrail.Json.{Raw}
use packtrail.Outcome.{panic, out_of_fuel, Result, ok, err}
use packtrail.Platform.{Platform}
use packtrail.Event.{Payload}
use packtrail.Flow.{Flow}
use packtrail.Cmd.{Command}
use packtrail.Fold.State.{State, Ev, exists}
use packtrail.Fold.Apply.{apply, apply_all, apply_event, finished, gap, without_gap, wrap_apply}
use packtrail.Fold.Decide.{decider_for, at_work}
use packtrail.Fold.Decide.Fork.{decide_fork, inherit}
use packtrail.Fold.Decide.Monad.{Work, Step, emit, emitted, new_event}
use packtrail.Fold.Rules.{Holds, Keeps}
use packtrail.Fold.Rules.Fork.{fork-Keeps}
use packtrail.Fold.Replay.{Replays, Holds-ok, Holds-err, apply_all-append}

-- Apply does not fail for want of fuel.
abbrev pub Fueled : Result State → Type 0
Fueled (ok s) = Unit
Fueled (err e) = e ≢ out_of_fuel

wrapped-Fueled : (ev : Ev) (r : Result State) → Fueled (finished ev (wrap_apply r))
unfolding finished wrap_apply
wrapped-Fueled ev (ok s) = tt
wrapped-Fueled ev (err panic) = λ e. cc
wrapped-Fueled ev (err _) = λ e. cc

without_gap-Fueled : (b : Bool) (r : Result State) → Fueled r → Fueled (without_gap b r)
unfolding without_gap
without_gap-Fueled true r h = λ e. cc
without_gap-Fueled false r h = h

pub apply-Fueled :
    (p : Platform) (def : Option Flow) (s : State) (ev : Ev) → Fueled (apply p def s ev)
unfolding apply
apply-Fueled p def s ev =
    without_gap-Fueled (gap s ev) _ (wrapped-Fueled ev (apply_event p def s ev ev.payload))

module _ (p : Platform) (def : Flow) (s : State) (c : Command) (now : ℕ) where
  emitted-Replays :
      (ev : Ev) (w : Work) (r : Result State)
      → Fueled r
      → apply_all p (some def) s w.out ≡ ok w.st
      → apply p (some def) w.st ev ≡ r
      → Holds (Replays p def s) (emitted ev w r)
  unfolding emitted
  emitted-Replays ev w (ok t) k h e = rw (apply_all-append p (some def) s w.out ev) (rw h e)
  emitted-Replays ev w (err x) k h e = k

  emit-Replays : (e : Payload State) → Keeps (decider_for p def c now) (Replays p def s) (emit e)
  unfolding emit new_event
  emit-Replays e = record {
    at = λ w h. emitted-Replays _ w _ (apply-Fueled p (some def) w.st _) h refl;
  }

  inherit-Replays : Keeps (decider_for p def c now) (Replays p def s) inherit
  unfolding inherit
  inherit-Replays = record { at = λ w h. h }

  none-Replays : Replays p def s (at_work s)
  unfolding apply_all
  none-Replays = refl

  if-Replays :
      (b : Bool) (m : Step)
      → Keeps (decider_for p def c now) (Replays p def s) m
      → Holds
          (Replays p def s)
          (if b then ok (tt, at_work s) else m (decider_for p def c now) (at_work s))
  if-Replays true m k = none-Replays
  if-Replays false m k = k.at (at_work s) none-Replays

  fork-Replays :
      (src : State) (from : String) (seq : ℕ) (writes : Map Raw)
      → Holds (Replays p def s) (decide_fork p def s src from seq c writes now)
  unfolding decide_fork
  fork-Replays src from seq writes = if-Replays (exists s) _ (
      fork-Keeps (decider_for p def c now) (Replays p def s) emit-Replays inherit-Replays src from
        seq writes)

-- If a fork is decided, then folding the decided events, in their order, into the state before gives
-- the state that the fork ended in.
pub fork_replays :
    (p : Platform) (def : Flow) (s src : State) (from : String) (seq : ℕ) (c : Command)
    (writes : Map Raw) (now : ℕ) {w : Work}
    → decide_fork p def s src from seq c writes now ≡ ok (tt, w)
    → apply_all p (some def) s w.out ≡ ok w.st
fork_replays p def s src from seq c writes now {w} h =
    Holds-ok (Replays p def s) _ {w = w} (fork-Replays p def s c now src from seq writes) h

-- A fork, whose tasks, awaits and children are started again, never runs out of fuel.
pub fork_terminates :
    (p : Platform) (def : Flow) (s src : State) (from : String) (seq : ℕ) (c : Command)
    (writes : Map Raw) (now : ℕ)
    → decide_fork p def s src from seq c writes now ≢ err out_of_fuel
fork_terminates p def s src from seq c writes now h =
    Holds-err (Replays p def s) _ (fork-Replays p def s c now src from seq writes) h
