-- ===== src/Snapshot/Tests.antt =====
-- When a snapshot is due, at concrete counts.
use packtrail.Prelude.{ℕ, pos, negsuc, suc, ◌≡◌, ◌↔◌, refl, true, false}
use packtrail.Snapshot.{interval, due}
use packtrail.Snapshot.Multiples.{Crosses, due_iff}

due_iff_example :
    (due (interval (pos 0)) 98 103 ≡ true)
    ↔ ((n : ℕ) × (interval (pos 0) ≡ pos (suc n)) × Crosses (suc n) 98 103)
due_iff_example = due_iff (pos 0) 98 103

crossed :
    (due (interval (pos 0)) 98 103 ≡ true)
    × (due (interval (pos 0)) 100 199 ≡ false)
    × (due (interval (negsuc 0)) 98 103 ≡ false)
unfolding interval due
crossed = (refl, refl, refl)
