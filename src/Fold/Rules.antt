-- ===== src/Fold/Rules.antt =====
-- Rules for the actions of the decider: what holds of the work before an action holds after it,
-- and the action does not run out of fuel. One rule for each way to build an action.
pub mod Basics
pub mod Route
pub mod Enter
pub mod Settle
pub mod Decide
pub mod Fork
use packtrail.Prelude.{
  ℕ, ◌≡◌, ◌≢◌, refl, String, Bool, true, false, Option, none, some, arith, if◌then◌else◌,
}
use packtrail.Outcome.{Err, panic, out_of_fuel, Result, ok, err}
use packtrail.Fold.Decide.Monad.{
  Decider, Work, M, Step, pure, raise, ask, look, deref, skip, continue, ◌>>=◌,
}

-- An error discards the work; running out of fuel is no error of the program.
abbrev pub Holds : {A : Type 0} → (Work → Type 0) → Result (A × Work) → Type 0
Holds I (ok (a, w)) = I w
Holds I (err e) = e ≢ out_of_fuel

pub record Keeps {A : Type 0} (d : Decider) (I : Work → Type 0) (m : M A) : Type 0 where
  pub at : (w : Work) → I w → Holds I (m d w)

module _ {A : Type 0} {d : Decider} {I : Work → Type 0} where
  pub Keeps-pure : (a : A) → Keeps d I (pure a)
  unfolding pure
  Keeps-pure a = record { at = λ w h. h }

  pub Keeps-raise : (e : Err) → e ≢ out_of_fuel → Keeps d I (raise {A = A} e)
  unfolding raise
  Keeps-raise e ne = record { at = λ w h. ne }

  pub Keeps-ask : (f : Decider → A) → Keeps d I (ask f)
  unfolding ask
  Keeps-ask f = record { at = λ w h. h }

  pub Keeps-look : (f : Work → A) → Keeps d I (look f)
  unfolding look
  Keeps-look f = record { at = λ w h. h }

  pub Keeps-deref : (o : Option A) → Keeps d I (deref o)
  unfolding deref
  Keeps-deref none = record { at = λ w h e. cc }
  Keeps-deref (some a) = record { at = λ w h. h }

  pub Keeps-if : (b : Bool) (m n : M A) → Keeps d I m → Keeps d I n → Keeps d I (if b then m else n)
  Keeps-if true m n km kn = km
  Keeps-if false m n km kn = kn

module _ {d : Decider} {I : Work → Type 0} where
  pub Keeps-skip : Keeps d I skip
  unfolding skip
  Keeps-skip = record { at = λ w h. h }

module _ {A B : Type 0} {d : Decider} {I : Work → Type 0} where
  Holds-continue :
      (r : Result (A × Work)) (f : A → M B) (w : Work)
      → Holds I r
      → ((a : A) → Keeps d I (f a))
      → Holds I (continue r f d w)
  Holds-continue (ok (a, w')) f w h kf = (kf a).at w' h
  Holds-continue (err e) f w h kf = h

  pub Keeps-bind :
      (m : M A) (f : A → M B) → Keeps d I m → ((a : A) → Keeps d I (f a)) → Keeps d I (m >>= f)
  unfolding ◌>>=◌
  Keeps-bind m f km kf = record { at = λ w h. Holds-continue (m d w) f w (km.at w h) kf }

pub ruleset keeps_rules =
    (Keeps-pure, Keeps-ask, Keeps-look, Keeps-deref, Keeps-if, Keeps-skip, Keeps-bind)
