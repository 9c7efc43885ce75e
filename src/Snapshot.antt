-- ===== src/Snapshot.antt =====
-- internal/snapshot/snapshot.go: when a snapshot is due. Saving and loading are the store's.
mod Multiples
mod Tests
use packtrail.Prelude.{ℕ, ℤ, pos, negsuc, zero, suc, ◌/◌, Bool, true, false, ltb}

abbrev pub default_every : ℕ
default_every = 100

-- New: the interval that is kept, for n events
unfoldable pub interval : ℤ → ℤ
interval (pos zero) = pos default_every
interval (pos (suc n)) = pos (suc n)
interval (negsuc n) = negsuc n

-- (*Store).Due, of counts of events
unfoldable pub due : ℤ → ℕ → ℕ → Bool
due (negsuc n) before after = false
due (pos zero) before after = false
due (pos (suc n)) before after = ltb (before / suc n) (after / suc n)
