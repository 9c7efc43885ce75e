-- ===== src/Worker/Semaphore/Tests.antt =====
-- Runs of the semaphore, and the theorems about it at concrete values.
use packtrail.Prelude.{
  ◌≡◌, refl, Bool, true, false, none, some, List, [], ◌∷◌, arith, ℕ, ◌≤◌, ◌<◌, ◌*◌, ◌^◌, pos,
}
use packtrail.GoMap.{get, put, delete, str_lt}
use packtrail.Outcome.{ok}
use packtrail.Worker.Semaphore.{
  Holders, drop_expired, grant, release, Op, acquire, apply_op, Answer, found, missing, attempt,
  to_write, cas_loop, cas_sem, busy_delay, second,
}
use packtrail.Worker.Semaphore.System.{
  System, initial, here, there, read, swap, Reach, begin, next, update, Atomic, Reach-Atomic,
}
use packtrail.GoMap.Count.{AtMost, is_held}
use packtrail.Worker.Semaphore.Slots.{slots_bounded, slot_kept}
use packtrail.Worker.Semaphore.Loop.{Wins, cas_sem-Wins, busy_delay_steps}

-- one slot: job a at time 5 with a lease of 10, and job b, that reads before a writes
abbrev by_a : Op
by_a = acquire 1 5 10 "a"

abbrev held : Holders
held = ("a", 15) ∷ []

abbrev after_a : System
after_a = record {
  bucket = record { rev = 7; holders = held };
  top = 7;
  changes = update by_a ∷ [];
  readers =
      record { op = acquire 1 6 10 "b"; rev = 0; holders = [] }
      ∷ record { op = by_a; rev = 0; holders = [] }
      ∷ [];
}

-- the write of a wins, and that of b comes too late
a_wins : Reach 1 after_a
unfolding apply_op grant drop_expired get put
a_wins =
    next
      (next (next begin (read initial by_a (omega arith)))
        (read _ (acquire 1 6 10 "b") (omega arith)))
      (swap _ (record { op = by_a; rev = 0; holders = [] }) 7 held (there here) refl refl
        (omega arith))

Reach-Atomic_example : Atomic 1 (update by_a ∷ []) held
Reach-Atomic_example = Reach-Atomic 1 after_a a_wins

slots_bounded_example : AtMost 1 after_a.bucket.holders
slots_bounded_example = slots_bounded 1 after_a a_wins

-- a second slot, while a holds the first
granted : apply_op (acquire 2 15 10 "b") held ≡ some (("a", 15) ∷ ("b", 25) ∷ [])
unfolding apply_op grant drop_expired get put str_lt
granted = refl

a_holds : get held "a" ≡ some 15
unfolding get
a_holds = refl

abbrev both : Holders
both = ("a", 15) ∷ ("b", 25) ∷ []

slot_kept_example : is_held both "a" ≡ true
slot_kept_example = slot_kept (acquire 2 15 10 "b") held both "a" 15 granted a_holds (omega arith)

-- a key that is saturated, and one whose only lease has ended
refused : grant 1 15 10 "b" held ≡ none
unfolding grant drop_expired get
refused = refl

expired : grant 1 16 10 "b" held ≡ some (("b", 26) ∷ [])
unfolding grant drop_expired get put
expired = refl

-- the key is created by another worker between the read and the write; the second round wins
abbrev rounds : List (Answer × Bool)
rounds = (missing, false) ∷ (found 7 held, true) ∷ []

retried : cas_sem (release "a") rounds ≡ some (7, [])
unfolding cas_sem cas_loop attempt to_write release delete
retried = refl

cas_sem-Wins_example : Wins (release "a") 7 [] rounds
cas_sem-Wins_example = cas_sem-Wins (release "a") 7 [] rounds retried

busy_delay_steps_example :
    (d : ℕ) × (busy_delay (pos 2) ≡ ok d)
    × (second ≤ d)
    × (d ≤ 8 * second)
    × (3 ≤ 2 → d ≡ 8 * second)
    × (2 < 3 → d ≡ 2 ^ 2 * second)
busy_delay_steps_example = busy_delay_steps 2
