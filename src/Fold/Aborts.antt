-- ===== src/Fold/Aborts.antt =====
-- internal/fold/decide.go, Abort and Continue: what becomes of the execution.
use packtrail.Prelude.{
  ℕ, ◌+◌, ◌≡◌, refl, ap, subst, String, Bool, true, false, not, ◌||◌, Option, none, some, [], ◌∷◌,
  ◌++◌, ◌∙◌, ◌⊎◌, Bool-cases, inl, inr, if◌then◌else◌, ltb,
}
use packtrail.Outcome.{Msg, text, Result, ok, err}
use packtrail.Platform.{Platform}
use packtrail.Event
use packtrail.Event.{Payload, Reason, Segment, Failed, continued}
use packtrail.Flow.{Flow}
use packtrail.Cmd.{Command}
use packtrail.Fold.State.{State, Ev, Status, exists, terminal, recode}
use packtrail.Fold.Apply.{
  apply, apply_event, terminate, finish, recompute, finished, wrap_apply, gap, without_gap,
}
use packtrail.Fold.Decide.{at_work, decider_for}
use packtrail.Fold.Decide.Basics.{is_done, fail, cancel_children, unwanted}
use packtrail.Fold.Decide.Fork.{abort_with, abort, first_event, continue_as_new, with_segment}
use packtrail.Fold.Decide.Monad.{
  Decider, Work, Step, raise, look, skip, continue, ◌>>=◌, emit, emitted, new_event,
}

-- an execution that has failed with a reason and an error, and has nothing left to do
pub record HasFailed (reason : Reason) (msg : Msg) (s : State) : Type 0 where
  pub over : s.status ≡ Status.failed
  pub because : s.reason ≡ reason
  pub says : s.error ≡ msg
  pub tasks : s.tasks ≡ []
  pub awaits : s.awaits ≡ []
  pub children : s.children ≡ []

-- of a result that is no error
abbrev pub Yields : {A : Type 0} → (Work → Type 0) → Result (A × Work) → Type 0
Yields I (ok (a, w)) = I w
Yields I (err e) = Unit

-- the failure of the execution, which cancels the children that end with it
abbrev pub failure : Reason → Msg → Work → Failed
failure reason msg w = record {
  error = msg;
  reason = reason;
  node = "";
  cancel_children = unwanted w.inherited w.st.children;
}

-- the work `w`, failed, with that failure as one event more
abbrev pub Fails : Reason → Msg → Work → Work → Type 0
Fails reason msg w v =
    HasFailed reason msg v.st
    × (ev : Ev) × (v.out ≡ w.out ++ ev ∷ [])
    × (ev.payload ≡ Event.failed (failure reason msg w))

emitted-Fails :
    (reason : Reason) (msg : Msg) (w : Work) (ev : Ev) (s : State) (b : Bool)
    → HasFailed reason msg (finish ev s)
    → ev.payload ≡ Event.failed (failure reason msg w)
    → Yields (Fails reason msg w) (emitted ev w (without_gap b (finished ev (ok s))))
unfolding emitted without_gap finished
emitted-Fails reason msg w ev s true h e = tt
emitted-Fails reason msg w ev s false h e = (h, ev, refl, e)

fail-Fails :
    (d : Decider) (reason : Reason) (msg : Msg) (w : Work)
    → Yields (Fails reason msg w) (fail reason msg "" d w)
unfolding fail ◌>>=◌ cancel_children look emit apply wrap_apply apply_event new_event terminate
    finish recompute
fail-Fails d reason msg w =
    let ev : Ev = new_event d w.st (Event.failed (failure reason msg w)) in
    emitted-Fails reason msg w ev
      (record (terminate Status.failed w.st) { error = msg; reason = reason; failed_node = "" })
      (gap w.st ev)
      (record {
        over = refl;
        because = refl;
        says = refl;
        tasks = refl;
        awaits = refl;
        children = refl;
      })
      refl

-- what an abort does to work that has a state: nothing if it has ended, and else it fails it
abbrev pub Ends : Reason → Msg → Work → Work → Type 0
Ends reason msg w v =
    ((terminal w.st.status ≡ true) × (v ≡ w))
    ⊎ ((terminal w.st.status ≡ false) × Fails reason msg w v)

-- the end of abort_with
abbrev close : Reason → Msg → Step
close reason msg = do over ← is_done; if over then skip else fail reason msg ""

close-Ends :
    (d : Decider) (reason : Reason) (msg : Msg) (w : Work)
    → Yields (Ends reason msg w) (close reason msg d w)
unfolding is_done look ◌>>=◌ skip
close-Ends d reason msg w = elim (Bool-cases (terminal w.st.status)) [
  | inl over ↦ rw over (inl (over, refl))
  | inr live ↦ rw live (failed-Ends (fail reason msg "" d w) live (fail-Fails d reason msg w))
]
  where
    failed-Ends :
        (r : Result (Unit {0} × Work))
        → terminal w.st.status ≡ false
        → Yields (Fails reason msg w) r
        → Yields (Ends reason msg w) r
    failed-Ends (ok (a, v)) live h = inr (live, h)
    failed-Ends (err x) live h = tt

-- What an abort makes of a state: an execution that has ended stays as it is, one that runs is failed
-- by one event, and one that does not exist begins with its first event and is then failed, if it has
-- not ended.
pub data IsAborted (first : Option (Payload State)) (reason : Reason) (msg : Msg) (s : State)
    (v : Work) : Type 0 where
  existing : exists s ≡ true → Ends reason msg (at_work s) v → IsAborted first reason msg s v
  opened :
      (e : Payload State) (w : Work) (ev : Ev)
      → exists s ≡ false
      → first ≡ some e
      → w.out ≡ ev ∷ []
      → ev.payload ≡ e
      → Ends reason msg w v
      → IsAborted first reason msg s v

opened-IsAborted :
    (d : Decider) (e : Payload State) (reason : Reason) (msg : Msg) (s : State) (ev : Ev)
    (r : Result State)
    → exists s ≡ false
    → ev.payload ≡ e
    → Yields
        (IsAborted (some e) reason msg s)
        (continue (emitted ev (at_work s) r) (λ u. close reason msg) d (at_work s))
unfolding emitted
opened-IsAborted d e reason msg s ev (err x) unborn same = tt
opened-IsAborted d e reason msg s ev (ok t) unborn same =
    yields (close reason msg d w) (close-Ends d reason msg w)
  where
    w : Work
    w = record (at_work s) { st = t; out = ev ∷ [] }

    yields :
        (r : Result (Unit {0} × Work))
        → Yields (Ends reason msg w) r
        → Yields (IsAborted (some e) reason msg s) r
    yields (ok (a, v)) h = opened e w ev unborn refl refl same h
    yields (err x) h = tt

existing-IsAborted :
    (first : Option (Payload State)) (reason : Reason) (msg : Msg) (s : State)
    (r : Result (Unit {0} × Work))
    → exists s ≡ true
    → Yields (Ends reason msg (at_work s)) r
    → Yields (IsAborted first reason msg s) r
existing-IsAborted first reason msg s (ok (a, v)) born h = existing born h
existing-IsAborted first reason msg s (err x) born h = tt

first-IsAborted :
    (d : Decider) (first : Option (Payload State)) (reason : Reason) (msg : Msg) (s : State)
    → exists s ≡ false
    → Yields
        (IsAborted first reason msg s)
        (continue (first_event first d (at_work s)) (λ u. close reason msg) d (at_work s))
unfolding first_event raise emit new_event
first-IsAborted d none reason msg s unborn = tt
first-IsAborted d (some e) reason msg s unborn =
    opened-IsAborted d e reason msg s (new_event d s e)
      (apply d.platform (some d.def) s (new_event d s e)) unborn refl

with-IsAborted :
    (d : Decider) (first : Option (Payload State)) (reason : Reason) (msg : String) (s : State)
    → Yields (IsAborted first reason (text msg) s) (abort_with first reason msg d (at_work s))
unfolding abort_with ◌>>=◌ look skip
with-IsAborted d first reason msg s = elim (Bool-cases (exists s)) [
  | inl born ↦ rw born (
      existing-IsAborted first reason (text msg) s (close reason (text msg) d (at_work s)) born
        (close-Ends d reason (text msg) (at_work s)))
  | inr unborn ↦ rw unborn (first-IsAborted d first reason (text msg) s unborn)
]

pub abort-IsAborted :
    (p : Platform) (def : Flow) (s : State) (first : Option (Payload State)) (c : Command)
    (reason : Reason) (msg : String) (now : ℕ) {w : Work}
    → abort p def s first c reason msg now ≡ ok (tt, w)
    → IsAborted first reason (text msg) s w
unfolding abort
abort-IsAborted p def s first c reason msg now h =
    subst (Yields (IsAborted first reason (text msg) s)) h
      (with-IsAborted (decider_for p def c now) first reason msg s)

-- What a continuation makes of a state: the one event from which the state can be folded alone.
pub record IsBased (p : Platform) (def : Flow) (seg : Segment) (s : State) (v : Work) : Type 0 where
  pub ev : Ev
  pub only : v.out ≡ ev ∷ []
  pub alone : (t : State) → apply p (some def) t ev ≡ ok v.st
  pub archived : v.st.segments ≡ s.segments ++ seg ∷ []
  pub based : v.st.base ≡ s.events + 1
  pub counted : v.st.events ≡ s.events + 1
  pub kept_tasks : v.st.tasks ≡ s.tasks
  pub kept_awaits : v.st.awaits ≡ s.awaits
  pub kept_children : v.st.children ≡ s.children
  pub kept_timers : v.st.timers ≡ s.timers

-- a continuation of an execution that runs, and of one that does not
abbrev pub Continues : Platform → Flow → Segment → State → Work → Type 0
Continues p def seg s v =
    ((not (exists s) || terminal s.status ≡ true) × (v ≡ at_work s))
    ⊎ ((not (exists s) || terminal s.status ≡ false) × IsBased p def seg s v)

recompute_only :
    (st : Status) (s : State) → recompute st s ≡ record s { status = (recompute st s).status }
unfolding recompute
recompute_only Status.running s = refl
recompute_only Status.waiting s = refl
recompute_only _ s = refl

-- a field that no status is
finish_keeps :
    {A : Type 0} (ev : Ev) (s : State) (field : State → A)
    → ((st : Status) (t : State) → field (record t { status = st }) ≡ field t)
    → field (finish ev s)
      ≡ field (record s {
        events = s.events + 1;
        updated = if ltb 0 ev.time then ev.time else s.updated;
      })
unfolding finish
finish_keeps ev s field other =
    let t : State = record s {
      events = s.events + 1;
      updated = if ltb 0 ev.time then ev.time else s.updated;
    } in
    ap field (recompute_only s.status t) ∙ other _ t

module _ (p : Platform) (def : Flow) (d : Decider) (seg : Segment) (s : State) where
  -- the event of the continuation, and what it folds to
  abbrev base_event : Ev
  base_event = new_event d s (continued (with_segment s seg) seg)

  abbrev based_on : State
  based_on = record (recode (with_segment s seg)) { base = base_event.index }

  emitted-IsBased :
      (b : Bool)
      → gap s base_event ≡ b
      → Yields
          (IsBased p def seg s)
          (emitted base_event (at_work s) (without_gap b (finished base_event (ok based_on))))
  unfolding emitted without_gap finished apply apply_event wrap_apply gap new_event with_segment
      recode
  emitted-IsBased true e = tt
  emitted-IsBased false e = record {
    ev = base_event;
    only = refl;
    alone = λ t. ap (λ (b : Bool). without_gap b (finished base_event (ok based_on))) e;
    archived = finish_keeps base_event based_on (λ x. x.segments) (λ st t. refl);
    based = finish_keeps base_event based_on (λ x. x.base) (λ st t. refl);
    counted = finish_keeps base_event based_on (λ x. x.events) (λ st t. refl);
    kept_tasks = finish_keeps base_event based_on (λ x. x.tasks) (λ st t. refl);
    kept_awaits = finish_keeps base_event based_on (λ x. x.awaits) (λ st t. refl);
    kept_children = finish_keeps base_event based_on (λ x. x.children) (λ st t. refl);
    kept_timers = finish_keeps base_event based_on (λ x. x.timers) (λ st t. refl);
  }

  based-Continues :
      (r : Result (Unit {0} × Work))
      → not (exists s) || terminal s.status ≡ false
      → Yields (IsBased p def seg s) r
      → Yields (Continues p def seg s) r
  based-Continues (ok (a, v)) live h = inr (live, h)
  based-Continues (err x) live h = tt

continued-Continues :
    (p : Platform) (def : Flow) (s : State) (seg : Segment) (c : Command) (now : ℕ)
    → Yields (Continues p def seg s) (continue_as_new p def s seg c now)
unfolding continue_as_new emit apply apply_event wrap_apply gap new_event
continued-Continues p def s seg c now = elim (Bool-cases (not (exists s) || terminal s.status)) [
  | inl over ↦ rw over (inl (over, refl))
  | inr live ↦ rw live (
      based-Continues p def (decider_for p def c now) seg s _ live
        (emitted-IsBased p def (decider_for p def c now) seg s _ refl))
]

-- If a continuation succeeds, then an execution that has ended, or does not exist, is as it was, with
-- no event. One that runs gets one event, from which any state folds to the state after it, so that
-- the log before it is not needed. That state has the segment added to those before, counts the
-- event and is based on it, and has the tasks, awaits, children and timers that it had.
pub continue_as_new-Continues :
    (p : Platform) (def : Flow) (s : State) (seg : Segment) (c : Command) (now : ℕ) {w : Work}
    → continue_as_new p def s seg c now ≡ ok (tt, w)
    → Continues p def seg s w
continue_as_new-Continues p def s seg c now h =
    subst (Yields (Continues p def seg s)) h (continued-Continues p def s seg c now)
