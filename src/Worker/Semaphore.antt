-- ===== src/Worker/Semaphore.antt =====
-- worker/semaphore.go: the slots of a concurrency key, a value in a key-value bucket that workers
-- update by compare-and-swap. Times and durations are in nanoseconds. What the bucket answers is a
-- parameter of the loop; `System` is the documented behaviour of the bucket under many workers.
mod System
mod Slots
mod Loop
mod Tests
use packtrail.Prelude.{
  ℕ, zero, suc, ◌+◌, ◌*◌, ◌^◌, ℤ, pos, negsuc, String, Bool, true, false, not, ◌&&◌, Option, none,
  some, List, [], ◌∷◌, if◌then◌else◌, ltb, leb, ◌==◌, length,
}
use packtrail.GoMap.{Map, empty, get, put, delete}
use packtrail.GoMap.Count.{is_held}
use packtrail.Outcome.{Result, ok, err, panic}

-- semValue: the expiry of each holder
abbrev pub Holders : Type 0
Holders = Map ℕ

-- the holders whose lease has not ended
unfoldable pub drop_expired : ℕ → Holders → Holders
drop_expired now [] = []
drop_expired now ((k, exp) ∷ h) =
    let rest = drop_expired now h in if ltb exp now then rest else (k, exp) ∷ rest

-- the function of acquire, for a limit above 0; none where the key is saturated
unfoldable pub grant : ℕ → ℕ → ℕ → String → Holders → Option Holders
grant limit now lease holder h =
    let live = drop_expired now h in
    if not (is_held live holder) && leb limit (length live)
    then none
    else some (put live holder (now + lease))

-- the function of renewSlot
unfoldable pub renew : ℕ → ℕ → String → Holders → Option Holders
renew now lease holder h = if is_held h holder then some (put h holder (now + lease)) else none

-- the function of the release that acquire returns
unfoldable pub release : String → Holders → Option Holders
release holder h = some (delete h holder)

-- the updates of a value, with what they read of the clock
pub data Op : Type 0 where
  acquire : ℕ → ℕ → ℕ → String → Op
  renewal : ℕ → ℕ → String → Op
  done : String → Op

unfoldable pub apply_op : Op → Holders → Option Holders
apply_op (acquire limit now lease holder) h = grant limit now lease holder h
apply_op (renewal now lease holder) h = renew now lease holder h
apply_op (done holder) h = release holder h

-- what kv.Get answers: a revision and the value in it, no key, or another error
pub data Answer : Type 0 where
  found : ℕ → Holders → Answer
  missing : Answer
  failed : Answer

-- the write of one attempt: the revision it expects, 0 for none, and the value; or fn refused, or
-- the read failed
pub data Attempt : Type 0 where
  write : ℕ → Holders → Attempt
  stop : Attempt

unfoldable pub to_write : ℕ → Option Holders → Attempt
to_write rev none = stop
to_write rev (some h) = write rev h

unfoldable pub attempt : (Holders → Option Holders) → Answer → Attempt
attempt fn (found rev h) = to_write rev (fn h)
attempt fn missing = to_write 0 (fn empty)
attempt fn failed = stop

abbrev pub cas_attempts : ℕ
cas_attempts = 16

-- casSem, on what the bucket answers to each read, and whether it takes the write: the write that
-- it took
unfoldable pub cas_loop :
    ℕ → (Holders → Option Holders) → List (Answer × Bool) → Option (ℕ × Holders)
cas_loop zero fn answers = none
cas_loop (suc n) fn [] = none
cas_loop (suc n) fn ((answer, taken) ∷ answers) =
    let again = cas_loop n fn answers in
    elim (attempt fn answer) [ stop ↦ none | write rev h ↦ if taken then some (rev, h) else again ]

unfoldable pub cas_sem : (Holders → Option Holders) → List (Answer × Bool) → Option (ℕ × Holders)
unfolding cas_loop
cas_sem fn answers = cas_loop cas_attempts fn answers

abbrev second : ℕ
second = 1000000000

abbrev pub busy_delay_first : ℕ
busy_delay_first = second

abbrev pub busy_delay_cap : ℕ
busy_delay_cap = 8 * second

abbrev pub busy_max_shift : ℕ
busy_max_shift = 3

abbrev pub min : ℕ → ℕ → ℕ
min a b = if leb a b then a else b

-- The delay of a hand-back, by the hand-backs before it, which its header counts. A negative shift
-- is a panic.
unfoldable pub busy_delay : ℤ → Result ℕ
busy_delay (pos n) = ok (min (busy_delay_first * 2 ^ min n busy_max_shift) busy_delay_cap)
busy_delay (negsuc n) = err panic
