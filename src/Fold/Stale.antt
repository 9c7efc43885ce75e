-- ===== src/Fold/Stale.antt =====
-- internal/fold/decide.go: commands that come too late, or a second time.
use packtrail.Prelude.{
  ℕ, ◌≡◌, ◌≢◌, refl, subst, String, Bool, if◌then◌else◌, true, false, Option, none, some, [], ◌∷◌,
  arith, Bool-cases, inl, inr, eq_iff,
}
use packtrail.GoMap.{Map, get}
use packtrail.Json.{Raw}
use packtrail.Outcome.{rejected, Result, ok, err}
use packtrail.Platform.{Platform, valid_token}
use packtrail.Event.{Time}
use packtrail.Flow.{Flow}
use packtrail.Cmd.{
  TaskRef, Command, Request, StartData, CompleteData, FailData, InterruptData, ResumeData,
  SignalData, ChildDoneData,
}
use packtrail.Fold.State.{
  State, Task, TaskStatus, scheduled, ChildState, exists, terminal, is_scheduled, is_interrupted,
}
use packtrail.Fold.Decide.Monad.{Decider, Work, raise, ◌>>=◌, look, ask, skip}
use packtrail.Fold.Decide.Basics.{current, current_task, is_current, is_done, writes_problem}
use packtrail.Fold.Decide.Settle.{
  find_child, complete_task, fail_task, interrupt_task, end_child, child_ended,
}
use packtrail.Fold.Decide.{
  decide, is_update, decider_for, dispatch, on_existing, handle, at_work, interrupted_task, resume,
  resume_task, receive_signal, start, join_existing, joined, check_join, fire_timer, fire,
  update_channels,
}

-- a result of an attempt that is not under way: its task is gone, is another generation or attempt,
-- or waits for a retry or for a resume
pub data IsPast (s : State) (ref : TaskRef) : Type 0 where
  gone : get s.tasks ref.key ≡ none → IsPast s ref
  regenerated :
      (t : Task) → get s.tasks ref.key ≡ some t → t.generation ≢ ref.generation → IsPast s ref
  reattempted : (t : Task) → get s.tasks ref.key ≡ some t → t.attempt ≢ ref.attempt → IsPast s ref
  idle : (t : Task) → get s.tasks ref.key ≡ some t → t.status ≢ scheduled → IsPast s ref

-- of every entry of a map
abbrev pub Each {ℓ} : {A : Type ℓ} → (String → A → Type 0) → Map A → Type 0
Each P [] = Unit
Each P ((k, a) ∷ m) = P k a × Each P m

-- a task that a resume does not mean
abbrev pub IsUnmeant : ResumeData → String → Task → Type 0
IsUnmeant p k t = t.status ≡ TaskStatus.interrupted → (k ≢ p.key) × (p.key ≡ "" → t.node ≢ p.node)

-- a command, with its id, that no longer has anything to act on
pub data IsStale (s : State) (id : String) : Request → Type 0 where
  completed : (p : CompleteData) → IsPast s p.ref → IsStale s id (Request.complete p)
  failed : (p : FailData) → IsPast s p.ref → IsStale s id (Request.fail p)
  interrupted : (p : InterruptData) → IsPast s p.ref → IsStale s id (Request.interrupt p)
  resumed : (p : ResumeData) → Each (IsUnmeant p) s.tasks → IsStale s id (Request.resume p)
  signalled :
      (p : SignalData) (at : Time)
      → valid_token p.name ≡ true
      → get s.signal_ids id ≡ some at
      → IsStale s id (Request.signal p)
  fired : (timer : String) → get s.timers timer ≡ none → IsStale s id (Request.timer timer)
  ended :
      (p : ChildDoneData)
      → Each (λ k c. c.child_id ≢ p.child_id) s.children
      → IsStale s id (Request.child_done p)
  updated :
      (name : String) (v : Raw) (writes : Map Raw) (at : Time)
      → get s.update_ids id ≡ some at
      → IsStale s id (Request.update ((name, v) ∷ writes))

unscheduled : (t : TaskStatus) → t ≢ scheduled → is_scheduled t ≡ false
unfolding is_scheduled
unscheduled scheduled h = absurd (h refl)
unscheduled _ h = refl

not_current :
    (ref : TaskRef) (t : Task) (o : Option Task)
    → o ≡ some t
    → is_current ref t ≡ false
    → current_task ref o ≡ none
unfolding current_task
not_current ref t o e h = rw e (rw h refl)

past_none :
    (s : State) (ref : TaskRef) → IsPast s ref → current_task ref (get s.tasks ref.key) ≡ none
unfolding current_task is_current
past_none s ref (gone e) = rw e refl
past_none s ref (regenerated t e h) = not_current ref t _ e (ground (arith, h))
past_none s ref (reattempted t e h) = not_current ref t _ e (ground (arith, h))
past_none s ref (idle t e h) = not_current ref t _ e (ground (arith, unscheduled t.status h))

is_interrupted-inv : (t : TaskStatus) → is_interrupted t ≡ true → t ≡ TaskStatus.interrupted
unfolding is_interrupted
is_interrupted-inv TaskStatus.interrupted h = refl
is_interrupted-inv TaskStatus.scheduled h = absurd (cc)
is_interrupted-inv TaskStatus.retrying h = absurd (cc)

unmeant_none : (p : ResumeData) (m : Map Task) → Each (IsUnmeant p) m → interrupted_task p m ≡ none
unfolding interrupted_task is_interrupted
unmeant_none p [] h = refl
unmeant_none p ((k, t) ∷ m) h = elim (Bool-cases (is_interrupted t.status)) [
  | inr other ↦ ground (arith, other, unmeant_none p m h.1)
  | inl waits ↦
      let apart = h.0 (is_interrupted-inv t.status waits) in
      ground (
        arith,
        waits,
        apart,
        unmeant_none p m h.1,
        eq_iff k p.key,
        eq_iff p.key "",
        eq_iff t.node p.node,
      )
]

childless :
    (id : String) (m : Map ChildState) → Each (λ k c. c.child_id ≢ id) m → find_child id m ≡ none
unfolding find_child
childless id [] h = refl
childless id ((k, c) ∷ m) h = rw (childless id m h.1) (ground (arith, h.0, eq_iff c.child_id id))

handle_stale :
    (d : Decider) (s : State) (r : Request)
    → IsStale s d.cmd_id r
    → handle r d (at_work s) ≡ ok (tt, at_work s)
unfolding handle current look ask skip ◌>>=◌ complete_task fail_task interrupt_task resume
    resume_task receive_signal fire_timer fire end_child child_ended update_channels writes_problem
handle_stale d s _ (completed p h) = rw (past_none s p.ref h) refl
handle_stale d s _ (failed p h) = rw (past_none s p.ref h) refl
handle_stale d s _ (interrupted p h) = rw (past_none s p.ref h) refl
handle_stale d s _ (resumed p h) = rw (unmeant_none p s.tasks h) refl
handle_stale d s _ (signalled p at valid h) = rw (valid, h) refl
handle_stale d s _ (fired timer h) = rw h refl
handle_stale d s _ (ended p h) = rw (childless p.child_id s.children h) refl
handle_stale d s _ (updated name v writes at h) = rw h refl

existing_stale :
    (d : Decider) (s : State) (r : Request)
    → exists s ≡ true
    → terminal s.status ≡ false
    → IsStale s d.cmd_id r
    → on_existing r d (at_work s) ≡ ok (tt, at_work s)
unfolding on_existing is_done look ◌>>=◌
existing_stale d s r born live h = rw (born, live) (handle_stale d s r h)

dispatch_stale :
    (s : State) (id : String) (r : Request) → IsStale s id r → dispatch r ≡ on_existing r
unfolding dispatch
dispatch_stale s id _ (completed p h) = refl
dispatch_stale s id _ (failed p h) = refl
dispatch_stale s id _ (interrupted p h) = refl
dispatch_stale s id _ (resumed p h) = refl
dispatch_stale s id _ (signalled p at valid h) = refl
dispatch_stale s id _ (fired timer h) = refl
dispatch_stale s id _ (ended p h) = refl
dispatch_stale s id _ (updated name v writes at h) = refl

-- On an execution that exists and has not ended, a command that is stale decides nothing and
-- succeeds: a result whose task is gone, or has another generation or attempt, or is not scheduled; a
-- resume where no interrupted task has its key or, without a key, its node; a signal or an update
-- whose id was seen, a timer that is not armed, a child of an id that no child has.
pub stale_ignored :
    (p : Platform) (def : Flow) (s : State) (c : Command) (now : ℕ)
    → exists s ≡ true
    → terminal s.status ≡ false
    → IsStale s c.id c.request
    → decide p def s c now ≡ ok (tt, at_work s)
unfolding decide
stale_ignored p def s c now born live h =
    rw (dispatch_stale s c.id c.request h)
      (existing_stale (decider_for p def c now) s c.request born live h)

abbrev Unchanged : State → Result (Unit {0} × Work) → Type 0
Unchanged s (ok (a, w)) = w ≡ at_work s
Unchanged s (err e) = Unit

rejected_or_skipped :
    (d : Decider) (s : State) (b : Bool)
    → Unchanged s ((if b then raise rejected else skip) d (at_work s))
unfolding raise skip
rejected_or_skipped d s true = tt
rejected_or_skipped d s false = refl

joined-Unchanged : (s : State) (r : Result (Unit {0})) → Unchanged s (joined (at_work s) r)
unfolding joined
joined-Unchanged s (ok u) = refl
joined-Unchanged s (err e) = tt

existing_ended :
    (d : Decider) (s : State) (r : Request)
    → exists s ≡ true
    → terminal s.status ≡ true
    → Unchanged s (on_existing r d (at_work s))
unfolding on_existing is_done look ◌>>=◌
existing_ended d s r born over = rw (born, over) (rejected_or_skipped d s (is_update r))

start_existing :
    (d : Decider) (s : State) (p : StartData)
    → exists s ≡ true
    → Unchanged s (start p d (at_work s))
unfolding start look ◌>>=◌ join_existing
start_existing d s p born = rw born (joined-Unchanged s (check_join s p.flow))

dispatch_ended :
    (d : Decider) (s : State) (r : Request)
    → exists s ≡ true
    → terminal s.status ≡ true
    → Unchanged s (dispatch r d (at_work s))
unfolding dispatch raise
dispatch_ended d s (Request.start p) born over = start_existing d s p born
dispatch_ended d s Request.undecodable_start born over = tt
dispatch_ended d s r born over = existing_ended d s r born over

-- No command, whatever it asks, adds an event to an execution that has ended: where the decision
-- succeeds, its state is the one before and its events are none.
pub ended_unchanged :
    (p : Platform) (def : Flow) (s : State) (c : Command) (now : ℕ) (w : Work)
    → exists s ≡ true
    → terminal s.status ≡ true
    → decide p def s c now ≡ ok (tt, w)
    → w ≡ at_work s
unfolding decide
ended_unchanged p def s c now w born over h =
    subst (Unchanged s) h (dispatch_ended (decider_for p def c now) s c.request born over)
