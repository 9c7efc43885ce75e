-- ===== src/StateCache/Tests.antt =====
-- Runs of the cache, and the theorems about it at concrete values.
use packtrail.Prelude.{
  ℕ, ◌≤◌, ◌≡◌, ◌≢◌, ◌⊎◌, refl, pos, String, none, some, [], ◌∷◌, arith, eq_refl, inl, inr,
}
use packtrail.GoMap.{Map, get, put, delete, str_lt}
use packtrail.GoMap.Count.{AtMost}
use packtrail.StateCache.{Cache, new_cache, lookup, make_room, store}
use packtrail.StateCache.Bounded.{Picks, Used, made, stored, cache_bounded, lookup-store}

-- the first key
abbrev first : Map ℕ → String
first [] = ""
first ((k, v) ∷ m) = k

first-Picks : Picks first
unfolding get
first-Picks [] = inl refl
first-Picks ((k, v) ∷ m) = inr (ground (arith, eq_refl k))

-- two entries at most, and three stored
abbrev full : Cache ℕ
full = store first (store first (store first (new_cache (pos 2)) "a" 1) "b" 2) "c" 3

full_holds : full.m ≡ ("b", 2) ∷ ("c", 3) ∷ []
unfolding store make_room new_cache get put delete str_lt
full_holds = refl

full-Used : Used first (pos 2) full
full-Used = stored (stored (stored made "a" 1) "b" 2) "c" 3

cache_bounded_example : (1 ≤ full.size) × AtMost full.size full.m
cache_bounded_example = cache_bounded first (pos 2) full first-Picks full-Used

abbrev other : String
other = "c"

lookup-store_example :
    (lookup (store first full "d" 4) "d" ≡ some 4)
    × (other ≢ "d"
        → (lookup (store first full "d" 4) other ≡ lookup full other)
          ⊎ (lookup (store first full "d" 4) other ≡ none))
lookup-store_example = lookup-store first full "d" other 4
