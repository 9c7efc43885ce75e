-- ===== src/Ready.antt =====
-- internal/ready/ready.go: the readiness of one process. Each method and callback holds the mutex, so
-- it is a function of the state. A callback is a value that the state of all callbacks holds. A
-- channel is its number and whether it is closed; to close a closed channel is a panic.
mod Phases
mod Tests
use packtrail.Prelude.{
  ℕ, zero, suc, ◌+◌, ◌-◌, Bool, true, false, not, ◌||◌, Option, none, some, List, [], ◌∷◌, ◌++◌,
  if◌then◌else◌, ◌==◌, get_elem?, set, replicate,
}
use packtrail.Outcome.{Result, ok, err, panic, ◌>>=◌}

pub record Channel : Type 0 where
  pub number : ℕ
  pub closed : Bool

-- Signal
pub record Signal : Type 0 where
  pub ch : Channel
  pub up : Bool
  pub run : ℕ
  pub left : ℕ

-- a callback of a part: the run that it is of, and whether it was called
pub record Part : Type 0 where
  pub of_run : ℕ
  pub called : Bool

-- the signal, and the callbacks of parts that Begin returned
pub record Process : Type 0 where
  pub signal : Signal
  pub parts : List Part

-- New
abbrev pub new : Process
new = record {
  signal = record { ch = record { number = 0; closed = false }; up = false; run = 0; left = 0 };
  parts = [];
}

-- (*Signal).open
unfoldable pub open_up : Signal → Result Signal
open_up s =
    if s.up
    then ok s
    else if s.ch.closed
    then err panic
    else ok (record s { up = true; ch = record { number = s.ch.number; closed = true } })

-- (*Signal).reset
unfoldable pub reset : Signal → Signal
reset s =
    if s.up
    then record s { up = false; ch = record { number = suc s.ch.number; closed = false } }
    else s

-- open, where no part is left
unfoldable pub open_at : ℕ → Signal → Result Signal
open_at zero s = open_up s
open_at (suc n) s = ok s

-- (*Signal).Begin
unfoldable pub begin_run : ℕ → Process → Result Process
begin_run n p = do
  let run = suc p.signal.run
  s ← open_at n (record (reset p.signal) { run = run; left = n })
  ok (record {
    signal = s;
    parts = p.parts ++ replicate n (record { of_run = run; called = false });
  })

-- the callback of a part, for the first time in its run
unfoldable pub count_part : ℕ → Part → Process → Result Process
count_part i part p = do
  let left = p.signal.left - 1
  s ← open_at left (record p.signal { left = left })
  ok (record p { signal = s; parts = set p.parts i (record part { called = true }) })

-- the callback of the part at place i
unfoldable pub call_part : ℕ → Process → Result Process
call_part i p = elim (get_elem? p.parts i) [
  | none ↦ ok p
  | some part ↦
      if not (p.signal.run == part.of_run) || part.called then ok p else count_part i part p
]

-- the end of a run
unfoldable pub end_run : ℕ → Process → Process
end_run run p =
    if p.signal.run == run
    then record p { signal = reset (record p.signal { run = suc p.signal.run }) }
    else p
