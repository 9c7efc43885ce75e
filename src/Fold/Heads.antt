-- ===== src/Fold/Heads.antt =====
-- internal/fold: only the first event of a decision can base a state (a start, a fork or a
-- continuation), and that is the first event of an execution. The events after it go on from it.
use packtrail.Prelude.{
  ℕ, ◌≡◌, refl, sym, subst, String, Bool, true, false, Option, some, List, [], ◌∷◌, ◌++◌,
  if◌then◌else◌,
}
use packtrail.GoMap.{Map}
use packtrail.Json.{Raw}
use packtrail.Outcome.{text, Err, invalid, Result, ok, err}
use packtrail.Platform.{Platform}
use packtrail.Event.{Payload, Reason, Started, started, forked}
use packtrail.Flow.{Flow}
use packtrail.Cmd.{StartData, Request, Command}
use packtrail.Fold.State.{State, Ev, exists}
use packtrail.Fold.Decide.{begin, start, dispatch, decide, at_work, decider_for}
use packtrail.Fold.Decide.Basics.{is_done, fail}
use packtrail.Fold.Decide.Route.{enter}
use packtrail.Fold.Decide.Fork.{
  fork, decide_fork, inherit, edit_fork, rekick, abort_with, abort, first_event,
}
use packtrail.Fold.Decide.Monad.{
  Decider, Work, Step, raise, ask, look, skip, continue, ◌>>=◌, emit, emitted, new_event,
}
use packtrail.Fold.Rules.{Holds, Keeps, Keeps-raise, Keeps-skip, Keeps-bind, Keeps-if}
use packtrail.Fold.Rules.Basics
use packtrail.Fold.Rules.Basics.{IsOngoing}
use packtrail.Fold.Rules.Enter.{enter-Keeps, Holds-then}
use packtrail.Fold.Rules.Decide.{on_existing-Keeps}
use packtrail.Fold.Rules.Fork.{edit_fork-Keeps, rekick-Keeps}
use packtrail.Fold.Replay.{Holds-ok}
use packtrail.Fold.Replay.Forks.{Fueled, apply-Fueled}

abbrev pub Ongoing : List Ev → Type 0
Ongoing [] = Unit
Ongoing (ev ∷ evs) = IsOngoing ev.payload × Ongoing evs

-- the first event, whose payload meets `B`, and the others, which go on from it
abbrev pub Opens : (Payload State → Type 0) → List Ev → Type 0
Opens B [] = ⊥
Opens B (ev ∷ evs) = B ev.payload × Ongoing evs

Ongoing-append :
    (evs : List Ev) (ev : Ev) → Ongoing evs → IsOngoing ev.payload → Ongoing (evs ++ ev ∷ [])
Ongoing-append [] ev h o = (o, tt)
Ongoing-append (e ∷ evs) ev h o = (h.0, Ongoing-append evs ev h.1 o)

Opens-append :
    (B : Payload State → Type 0) (evs : List Ev) (ev : Ev)
    → Opens B evs
    → IsOngoing ev.payload
    → Opens B (evs ++ ev ∷ [])
Opens-append B [] ev h o = absurd h
Opens-append B (e ∷ evs) ev h o = (h.0, Ongoing-append evs ev h.1 o)

emitted-Adds :
    (ev : Ev) (w : Work) (r : Result State)
    → Fueled r
    → Holds (λ v. v.out ≡ w.out ++ ev ∷ []) (emitted ev w r)
unfolding emitted
emitted-Adds ev w (ok s) h = refl
emitted-Adds ev w (err e) h = h

pub emit-Adds :
    (d : Decider) (e : Payload State) (w : Work)
    → Holds (λ v. v.out ≡ w.out ++ new_event d w.st e ∷ []) (emit e d w)
unfolding emit
emit-Adds d e w =
    emitted-Adds (new_event d w.st e) w _ (apply-Fueled d.platform (some d.def) w.st _)

pub Holds-map :
    {A : Type 0} (I J : Work → Type 0) (r : Result (A × Work))
    → ((w : Work) → I w → J w)
    → Holds I r
    → Holds J r
Holds-map I J (ok (a, w)) f h = f w h
Holds-map I J (err e) f h = h

-- What appending an ongoing event keeps of a list of events, emitting one keeps.
emit-Keeps :
    (I : List Ev → Type 0)
    → ((evs : List Ev) (ev : Ev) → I evs → IsOngoing ev.payload → I (evs ++ ev ∷ []))
    → (d : Decider) (e : Payload State) → IsOngoing e
    → Keeps d (λ w. I w.out) (emit e)
unfolding new_event
emit-Keeps I grow d e o = record {
  at = λ w h.
      Holds-map (λ v. v.out ≡ w.out ++ new_event d w.st e ∷ []) (λ v. I v.out) (emit e d w)
        (λ v k. subst I (sym k) (grow w.out (new_event d w.st e) h o)) (emit-Adds d e w);
}

-- a request that starts nothing
abbrev pub IsLater : Request → Type 0
IsLater (Request.start _) = ⊥
IsLater _ = Unit

dispatch-Ongoing :
    (d : Decider) (r : Request) → IsLater r → Keeps d (λ w. Ongoing w.out) (dispatch r)
unfolding dispatch
dispatch-Ongoing d (Request.start p) h = absurd h
dispatch-Ongoing d Request.undecodable_start h = Keeps-raise Err.invalid (λ e. cc)
dispatch-Ongoing d r h =
    on_existing-Keeps d (λ w. Ongoing w.out) (emit-Keeps Ongoing Ongoing-append d) r

-- A command that starts nothing adds events that go on from the state.
pub later-Ongoing :
    (p : Platform) (def : Flow) (s : State) (c : Command) (now : ℕ) {w : Work}
    → IsLater c.request
    → decide p def s c now ≡ ok (tt, w)
    → Ongoing w.out
unfolding decide
later-Ongoing p def s c now {w} h e =
    Holds-ok (λ w. Ongoing w.out) (decide p def s c now) {w = w}
      ((dispatch-Ongoing (decider_for p def c now) c.request h).at (at_work s) tt) e

-- what holds of a decision that the event `e` opens
opened :
    (B : Payload State → Type 0) (d : Decider) (s : State) (e : Payload State) (k : Step)
    → B e
    → Keeps d (λ w. Opens B w.out) k
    → Holds (λ w. Opens B w.out) (continue (emit e d (at_work s)) (λ _. k) d (at_work s))
unfolding new_event
opened B d s e k b h =
    Holds-then (λ v. v.out ≡ new_event d s e ∷ []) (λ w. Opens B w.out) d (emit e d (at_work s)) k
      (at_work s) (emit-Adds d e (at_work s)) (λ w a. h.at w (subst (Opens B) (sym a) (b, tt)))

module _ (B : Payload State → Type 0) (d : Decider) where
  opens : (e : Payload State) → IsOngoing e → Keeps d (λ w. Opens B w.out) (emit e)
  opens = emit-Keeps (Opens B) (Opens-append B) d

  inherit-Opens : Keeps d (λ w. Opens B w.out) inherit
  unfolding inherit
  inherit-Opens = record { at = λ w h. h }

  enter-Opens : (id : String) → Keeps d (λ w. Opens B w.out) (enter id)
  enter-Opens = enter-Keeps d (λ w. Opens B w.out) opens

  unless_over-Opens :
      (k : Step)
      → Keeps d (λ w. Opens B w.out) k
      → Keeps d (λ w. Opens B w.out) (is_done >>= λ over. if over then skip else k)
  unless_over-Opens k h =
      Keeps-bind _ _ (Basics.is_done-Keeps d _ opens) λ over. Keeps-if over _ _ Keeps-skip h

  forked-Opens :
      (writes : Map Raw)
      → Keeps d
          (λ w. Opens B w.out)
          (edit_fork writes >>= λ _. is_done >>= λ over. if over then skip else rekick)
  forked-Opens writes =
      Keeps-bind _ _ (edit_fork-Keeps d _ opens inherit-Opens writes)
        λ u. unless_over-Opens rekick (rekick-Keeps d _ opens inherit-Opens)

  aborted-Opens :
      (reason : Reason) (msg : String)
      → Keeps d
          (λ w. Opens B w.out)
          (is_done >>= λ over. if over then skip else fail reason (text msg) "")
  aborted-Opens reason msg = unless_over-Opens _ (Basics.fail-Keeps d _ opens reason (text msg) "")

-- a start of the flow `def`
abbrev pub IsStart : Flow → Payload State → Type 0
IsStart def e = (t : Started) × (e ≡ started t) × (t.flow ≡ def.name) × (t.flow_hash ≡ def.hash)

module _ (d : Decider) (s : State) where
  begin-Opens :
      (p : StartData) (input : Raw)
      → Holds (λ w. Opens (IsStart d.def) w.out) (begin p input d (at_work s))
  unfolding begin ask look ◌>>=◌
  begin-Opens p input =
      opened (IsStart d.def) d s _ (enter d.def.start_id) (_, refl, refl, refl)
        (enter-Opens (IsStart d.def) d d.def.start_id)

  started-Opens :
      (b : Bool) (p : StartData) (input : Raw)
      → Holds
          (λ w. Opens (IsStart d.def) w.out)
          ((if b then begin p input else raise invalid) d (at_work s))
  unfolding raise
  started-Opens true p input = begin-Opens p input
  started-Opens false p input = λ e. cc

  start-Opens :
      (p : StartData)
      → exists s ≡ false
      → Holds (λ w. Opens (IsStart d.def) w.out) (start p d (at_work s))
  unfolding start look ◌>>=◌
  start-Opens p born = rw born (started-Opens _ p _)

  fork-Opens :
      (src : State) (from : String) (seq : ℕ) (writes : Map Raw)
      → Holds
          (λ w. Opens (λ e. e ≡ forked s.exec_id from seq src) w.out)
          (fork src from seq writes d (at_work s))
  unfolding fork look ◌>>=◌
  fork-Opens src from seq writes = opened _ d s _ _ refl (forked-Opens _ d writes)

  abort_with-Opens :
      (e : Payload State) (reason : Reason) (msg : String)
      → exists s ≡ false
      → Holds (λ w. Opens (λ f. f ≡ e) w.out) (abort_with (some e) reason msg d (at_work s))
  unfolding abort_with first_event look ◌>>=◌
  abort_with-Opens e reason msg born =
      rw born (opened _ d s e _ refl (aborted-Opens _ d reason msg))

-- A start of an execution that does not exist opens with a start of its flow.
pub decide-Opens :
    (p : Platform) (def : Flow) (s : State) (c : Command) (q : StartData) (now : ℕ) {w : Work}
    → c.request ≡ Request.start q
    → exists s ≡ false
    → decide p def s c now ≡ ok (tt, w)
    → Opens (IsStart def) w.out
unfolding decide dispatch
decide-Opens p def s c q now {w} r born e =
    Holds-ok (λ w. Opens (IsStart def) w.out) (decide p def s c now) {w = w}
      (rw r (start-Opens (decider_for p def c now) s q born)) e

-- A fork into an execution that does not exist opens with the fork of its source.
pub decide_fork-Opens :
    (p : Platform) (def : Flow) (s src : State) (from : String) (seq : ℕ) (c : Command)
    (writes : Map Raw) (now : ℕ) {w : Work}
    → exists s ≡ false
    → decide_fork p def s src from seq c writes now ≡ ok (tt, w)
    → Opens (λ e. e ≡ forked s.exec_id from seq src) w.out
unfolding decide_fork
decide_fork-Opens p def s src from seq c writes now {w} born e =
    Holds-ok (λ w. Opens (λ e. e ≡ forked s.exec_id from seq src) w.out) _ {w = w}
      (rw born (fork-Opens (decider_for p def c now) s src from seq writes)) e

-- An abort of an execution that does not exist opens with the event it is given.
pub abort-Opens :
    (p : Platform) (def : Flow) (s : State) (e : Payload State) (c : Command) (reason : Reason)
    (msg : String) (now : ℕ) {w : Work}
    → exists s ≡ false
    → abort p def s (some e) c reason msg now ≡ ok (tt, w)
    → Opens (λ f. f ≡ e) w.out
unfolding abort
abort-Opens p def s e c reason msg now {w} born h =
    Holds-ok (λ w. Opens (λ f. f ≡ e) w.out) _ {w = w}
      (abort_with-Opens (decider_for p def c now) s e reason msg born) h

-- An abort of an execution that exists adds events that go on from the state.
pub abort-Ongoing :
    (p : Platform) (def : Flow) (s : State) (first : Option (Payload State)) (c : Command)
    (reason : Reason) (msg : String) (now : ℕ) {w : Work}
    → exists s ≡ true
    → abort p def s first c reason msg now ≡ ok (tt, w)
    → Ongoing w.out
unfolding abort abort_with look ◌>>=◌ skip
abort-Ongoing p def s first c reason msg now {w} born h =
    let d = decider_for p def c now in
    let emits : (e : Payload State) → IsOngoing e → Keeps d (λ w. Ongoing w.out) (emit e) =
      emit-Keeps Ongoing Ongoing-append d in
    let k : Step = is_done >>= λ over. if over then skip else fail reason (text msg) "" in
    let kept : Keeps d (λ w. Ongoing w.out) k =
      Keeps-bind _ _ (Basics.is_done-Keeps d _ emits)
        λ over. Keeps-if over _ _ Keeps-skip (Basics.fail-Keeps d _ emits reason (text msg) "") in
    Holds-ok (λ w. Ongoing w.out) _ {w = w} (rw born (kept.at (at_work s) tt)) h
