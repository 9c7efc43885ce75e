-- ===== src/StateCache.antt =====
-- internal/statecache/statecache.go: a bounded map from execution ids to entries. Each call holds
-- the mutex, so a call is a function of the cache. Which entry an eviction meets first in the map
-- is a parameter, a function that gives a key of every map that has one.
mod Bounded
mod Tests
use packtrail.Prelude.{
  ℕ, ℤ, pos, String, Bool, true, false, not, ◌&&◌, Option, none, some, if◌then◌else◌, leb,
  at_most_zero, pos_part, length,
}
use packtrail.GoMap.{Map, empty, get, put, delete}
use packtrail.GoMap.Count.{is_held}

abbrev pub default_size : ℕ
default_size = 10000

pub record Cache {ℓ} (V : Type ℓ) : Type ℓ where
  pub size : ℕ
  pub m : Map V

-- New
unfoldable pub new_cache {ℓ} : {V : Type ℓ} → ℤ → Cache V
new_cache size = record {
  size = if at_most_zero size then default_size else pos_part size;
  m = empty;
}

module _ {ℓ} {V : Type ℓ} where
  -- Get
  unfoldable pub lookup : Cache V → String → Option V
  lookup c id = get c.m id

  -- the map that Put writes to, after an eviction where there is no room
  unfoldable pub make_room : (Map V → String) → Cache V → String → Map V
  make_room first_key c id =
      if not (is_held c.m id) && leb c.size (length c.m) then delete c.m (first_key c.m) else c.m

  -- Put
  unfoldable pub store : (Map V → String) → Cache V → String → V → Cache V
  store first_key c id e = record c { m = put (make_room first_key c id) id e }

  -- Drop
  unfoldable pub drop : Cache V → String → Cache V
  drop c id = record c { m = delete c.m id }
