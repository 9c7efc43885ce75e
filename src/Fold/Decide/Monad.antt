-- ===== src/Fold/Decide/Monad.antt =====
-- The `decider` of internal/fold/decide.go: what a method reads (`Decider`), what it changes
-- (`Work`), and a method as an action over both. An error discards the work, as the callers do.
use packtrail.Prelude.{ℕ, ◌+◌, String, Option, none, some, List, [], ◌∷◌, ◌++◌}
use packtrail.Outcome.{Err, panic, Result, ok, err}
use packtrail.Platform.{Platform}
use packtrail.Event.{Payload, Time, forked}
use packtrail.Flow.{Flow}
use packtrail.Fold.State.{State, Ev}
use packtrail.Fold.Apply.{apply}

pub record Decider : Type 0 where
  pub platform : Platform
  pub def : Flow
  pub now : Time
  pub cmd_id : String

pub record Work : Type 0 where
  pub st : State
  pub out : List Ev
  -- the child ids that a fork copied and has not started again
  pub inherited : List String

abbrev pub M : Type 0 → Type 0
M A = Decider → Work → Result (A × Work)

abbrev pub Step : Type 0
Step = M (Unit {0})

module _ {A : Type 0} where
  unfoldable pub pure : A → M A
  pure a d w = ok (a, w)

  unfoldable pub raise : Err → M A
  raise e d w = err e

  unfoldable pub ask : (Decider → A) → M A
  ask f d w = ok (f d, w)

  unfoldable pub look : (Work → A) → M A
  look f d w = ok (f w, w)

  -- a nil pointer that is dereferenced
  unfoldable pub deref : Option A → M A
  deref none d w = err panic
  deref (some a) d w = ok (a, w)

unfoldable pub skip : Step
skip d w = ok (tt, w)

module _ {A B : Type 0} where
  abbrev pub continue : Result (A × Work) → (A → M B) → M B
  continue (ok (a, w)) f d w' = f a d w
  continue (err e) f d w' = err e

  infixl 10 ◌>>=◌ ◌>>◌
  unfoldable pub ◌>>=◌ : M A → (A → M B) → M B
  ◌>>=◌ m f d w = continue (m d w) f d w

  abbrev pub ◌>>◌ : M A → M B → M B
  m >> k = m >>= λ _. k

unfoldable pub event_index : State → Payload State → ℕ
event_index s (forked _ _ _ _) = 1
event_index s _ = s.events + 1

-- the event that (*decider).emit builds
unfoldable pub new_event : Decider → State → Payload State → Ev
unfolding event_index
new_event d s e = record {
  time = d.now;
  index = event_index s e;
  cmd_id = d.cmd_id;
  payload = e;
  seq = 0;
}

unfoldable pub emitted : Ev → Work → Result State → Result (Unit {0} × Work)
emitted ev w (ok st) = ok (tt, record w { st = st; out = w.out ++ ev ∷ [] })
emitted ev w (err e) = err e

-- (*decider).emit
unfoldable pub emit : Payload State → Step
unfolding emitted
emit e d w =
    emitted (new_event d w.st e) w (apply d.platform (some d.def) w.st (new_event d w.st e))
