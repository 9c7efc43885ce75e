-- ===== src/Fold/Writes.antt =====
-- internal/fold/reduce.go, decide.go, state.go: writes that pass CheckWrites fold without an error.
use packtrail.Prelude.{◌≡◌, ◌≢◌, refl, ap, ◌∙◌, Option, none, some, [], ◌∷◌, String, arith, eq_iff}
use packtrail.GoMap.{Map, get, put, get-put, get-put_ne}
use packtrail.Json.{Raw}
use packtrail.Outcome.{Msg, Result, ok, err}
use packtrail.Platform.{Platform}
use packtrail.Flow.{Flow, Channel}
use packtrail.Fold.Reduce.{reduce}
use packtrail.Fold.Apply.Nodes.{apply_writes, or_empty, raw_at, reducer_of, reducer_in}
use packtrail.Fold.Decide.Basics.{check_writes, refusal, channel_problem, first_problem}

-- a channel that no write names
abbrev pub Unwritten : String → Map Raw → Type 0
Unwritten k [] = Unit
Unwritten k ((name, v) ∷ writes) = (name ≢ k) × Unwritten k writes

-- each name once, as in every Go map
abbrev pub Distinct : Map Raw → Type 0
Distinct [] = Unit
Distinct ((name, v) ∷ writes) = Unwritten name writes × Distinct writes

raw_at-put_ne : (m : Map Raw) (k j : String) (v : Raw) → j ≢ k → raw_at (put m k v) j ≡ raw_at m j
raw_at-put_ne m k j v h = ap or_empty (get-put_ne m k j v h)

module _ (def : Flow) (p : Platform) where
  check-put :
      (channels writes : Map Raw) (k : String) (v : Raw)
      → Unwritten k writes
      → check_writes def p (put channels k v) writes ≡ check_writes def p channels writes
  unfolding check_writes
  check-put channels [] k v h = refl
  check-put channels ((name, d) ∷ writes) k v h =
      cc (raw_at-put_ne channels k name v h.0, check-put channels writes k v h.1)

  of_refusal : (name : String) (r : Result Raw) → refusal name r ≡ none → (v : Raw) × (r ≡ ok v)
  unfolding refusal
  of_refusal name (ok v) h = (v, refl)
  of_refusal name (err e) h = absurd (cc)

  -- The write of one channel, where its check found no problem.
  of_problem :
      (name : String) (c : Option Channel) (cur d : Raw)
      → channel_problem p name c cur d ≡ none
      → (v : Raw) × (reduce p (reducer_in c) cur d ≡ ok v)
  unfolding channel_problem reducer_in
  of_problem name none cur d h = absurd (cc)
  of_problem name (some c) cur d h = of_refusal name _ h

  split_problem : (a b : Option Msg) → first_problem a b ≡ none → (a ≡ none) × (b ≡ none)
  unfolding first_problem
  split_problem none b h = (refl, h)
  split_problem (some m) b h = absurd (cc)

-- If each write names its own channel and CheckWrites accepts the writes, then folding them
-- succeeds, and a channel that no write names keeps its value.
pub checked_writes_fold :
    (def : Flow) (p : Platform) (channels writes : Map Raw)
    → Distinct writes
    → check_writes def p channels writes ≡ none
    → (m : Map Raw) × (apply_writes p (some def) channels writes ≡ ok m)
      × ((k : String) → Unwritten k writes → get m k ≡ get channels k)
unfolding apply_writes check_writes reducer_of
checked_writes_fold def p channels [] distinct h = (channels, refl, λ k u. refl)
checked_writes_fold def p channels ((name, d) ∷ writes) distinct h =
    let (here, there) = split_problem def p _ _ h in
    let (v, e) = of_problem def p name (get def.channels name) (raw_at channels name) d here in
    let (m, folds, keeps) =
      checked_writes_fold def p (put channels name v) writes distinct.1
        (check-put def p channels writes name v distinct.0 ∙ there) in
    (m, rw e folds, λ k u. keeps k u.1 ∙ rw get-put (ground (arith, eq_iff name k, u.0)))
