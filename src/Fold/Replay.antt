-- ===== src/Fold/Replay.antt =====
-- internal/fold/decide.go: folding the events of a decision gives the state that it decided.
pub mod Forks
use packtrail.Prelude.{ℕ, ◌≡◌, ◌≢◌, refl, Option, some, List, [], ◌∷◌, ◌++◌, ◌∙◌, subst}
use packtrail.Outcome.{out_of_fuel, Result, ok, err, ◌>>=◌}
use packtrail.Platform.{Platform}
use packtrail.Event.{Payload}
use packtrail.Flow.{Flow}
use packtrail.Cmd.{Command}
use packtrail.Fold.State.{State, Ev}
use packtrail.Fold.Apply.{apply, apply_all}
use packtrail.Fold.Decide.{decide, decider_for}
use packtrail.Fold.Decide.Monad.{Work, emit, emitted, new_event}
use packtrail.Fold.Rules.{Holds, Keeps}
use packtrail.Fold.Rules.Basics.{IsPlain}
use packtrail.Fold.Rules.Decide.{decide-Keeps}
use packtrail.Fold.Rules.Enter.{apply-Counts, Counts}

>>=-ok : (r : Result State) → (r >>= λ t. ok t) ≡ r
>>=-ok (ok s) = refl
>>=-ok (err e) = refl

>>=_assoc :
    (r : Result State) (f g : State → Result State) → (r >>= λ t. f t >>= g) ≡ (r >>= f >>= g)
>>=_assoc (ok s) f g = refl
>>=_assoc (err e) f g = refl

>>=_ext :
    (r : Result State) (f g : State → Result State)
    → ((t : State) → f t ≡ g t)
    → (r >>= f) ≡ (r >>= g)
>>=_ext (ok s) f g h = h s
>>=_ext (err e) f g h = refl

module _ (p : Platform) (def : Option Flow) where
  -- One more event in the log is one more Apply after the fold.
  pub apply_all-append :
      (s : State) (evs : List Ev) (ev : Ev)
      → apply_all p def s (evs ++ ev ∷ []) ≡ (apply_all p def s evs >>= λ t. apply p def t ev)
  unfolding apply_all
  apply_all-append s [] ev = >>=-ok (apply p def s ev)
  apply_all-append s (e ∷ evs) ev =
      >>=_ext (apply p def s e) _ _ (λ t. apply_all-append t evs ev)
      ∙ >>=_assoc (apply p def s e) (λ t. apply_all p def t evs) (λ t. apply p def t ev)

-- A successful decision that the events of the output replay.
abbrev pub Replays : Platform → Flow → State → Work → Type 0
Replays p def s w = apply_all p (some def) s w.out ≡ ok w.st

module _ (p : Platform) (def : Flow) (s : State) (c : Command) (now : ℕ) where
  emitted-Replays :
      (ev : Ev) (w : Work) (r : Result State)
      → Counts w.st.steps r
      → apply_all p (some def) s w.out ≡ ok w.st
      → apply p (some def) w.st ev ≡ r
      → Holds (Replays p def s) (emitted ev w r)
  unfolding emitted
  emitted-Replays ev w (ok t) k h e = rw (apply_all-append p (some def) s w.out ev) (rw h e)
  emitted-Replays ev w (err x) k h e = k

  emit-Replays :
      (e : Payload State) → IsPlain e → Keeps (decider_for p def c now) (Replays p def s) (emit e)
  unfolding emit new_event
  emit-Replays e plain = record {
    at = λ w h.
        emitted-Replays _ w _
          (apply-Counts p (some def) w.st (new_event (decider_for p def c now) w.st e) plain) h
          refl;
  }

  decide-Replays : Holds (Replays p def s) (decide p def s c now)
  unfolding apply_all
  decide-Replays = decide-Keeps p def s c now (Replays p def s) emit-Replays refl

pub Holds-ok :
    (I : Work → Type 0) (r : Result (Unit {0} × Work)) {w : Work} → Holds I r → r ≡ ok (tt, w) → I w
Holds-ok I (ok (u, v)) {w} h e = subst I (cc) h
Holds-ok I (err x) h e = absurd (cc)

pub Holds-err : (I : Work → Type 0) (r : Result (Unit {0} × Work)) → Holds I r → r ≢ err out_of_fuel
Holds-err I (ok a) h e = cc
Holds-err I (err x) h e = h (cc)

-- If a command is decided, then folding the decided events, in their order, into the state before
-- gives the state that the decision ended in: every later reader of the log sees that state.
pub decide_replays :
    (p : Platform) (def : Flow) (s : State) (c : Command) (now : ℕ) {w : Work}
    → decide p def s c now ≡ ok (tt, w)
    → apply_all p (some def) s w.out ≡ ok w.st
decide_replays p def s c now {w} h =
    Holds-ok (Replays p def s) (decide p def s c now) {w = w} (decide-Replays p def s c now) h

-- Whatever the flow, the state and the command, the limit on node entries is enough fuel for the
-- recursion over nodes: the decision returns its events or an error of the program.
pub decide_terminates :
    (p : Platform) (def : Flow) (s : State) (c : Command) (now : ℕ)
    → decide p def s c now ≢ err out_of_fuel
decide_terminates p def s c now h =
    Holds-err (Replays p def s) (decide p def s c now) (decide-Replays p def s c now) h
