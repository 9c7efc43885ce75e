-- ===== src/Ready/Tests.antt =====
-- Runs of the readiness signal, and the theorems about it at a concrete run.
use packtrail.Prelude.{ℕ, ◌≡◌, refl, true, false, ◌&&◌, ◌==◌, [], ◌∷◌}
use packtrail.Outcome.{ok}
use packtrail.Ready.{Process, open_up, reset, open_at, begin_run, count_part, call_part, end_run}
use packtrail.Ready.Phases.{waiting, Reach, made, begun, called, ended, ready_iff, signal_returns}

-- a run of two parts, that both call back, the first one twice
abbrev two_parts : Process
two_parts = record {
  signal = record { ch = record { number = 0; closed = false }; up = false; run = 1; left = 2 };
  parts = record { of_run = 1; called = false } ∷ record { of_run = 1; called = false } ∷ [];
}

abbrev one_left : Process
one_left = record {
  signal = record { ch = record { number = 0; closed = false }; up = false; run = 1; left = 1 };
  parts = record { of_run = 1; called = true } ∷ record { of_run = 1; called = false } ∷ [];
}

abbrev pulling : Process
pulling = record {
  signal = record { ch = record { number = 0; closed = true }; up = true; run = 1; left = 0 };
  parts = record { of_run = 1; called = true } ∷ record { of_run = 1; called = true } ∷ [];
}

pulls : Reach true pulling
unfolding begin_run call_part count_part open_at open_up reset
pulls =
    called {p = one_left}
      (called {p = one_left}
        (called {p = two_parts} {q = one_left} (begun {q = two_parts} made 2 refl) 0 refl) 0 refl)
      1 refl

ready_iff_example :
    (pulling.signal.up ≡ (true && (waiting pulling.signal.run pulling.parts == 0)))
    × (pulling.signal.ch.closed ≡ pulling.signal.up)
ready_iff_example = ready_iff true pulling pulls

signal_returns_example :
    ((n : ℕ) → (q : Process) × (begin_run n pulling ≡ ok q))
    × ((i : ℕ) → (q : Process) × (call_part i pulling ≡ ok q))
signal_returns_example = signal_returns true pulling pulls

-- once the run ends, the process is not ready, and has a new channel
over : Reach false (end_run 1 pulling)
over = ended pulls 1 false refl

after_end : (end_run 1 pulling).signal.ch ≡ record { number = 1; closed = false }
unfolding end_run reset
after_end = refl
