-- ===== src/StateCache/Bounded.antt =====
-- internal/statecache/statecache.go: the bound of the cache, and what a call changes.
use packtrail.Prelude.{
  ℕ, suc, ◌≤◌, ◌-◌, ◌≡◌, ◌≢◌, ◌⊎◌, refl, subst, pos, negsuc, ℤ, String, true, false, not, ◌&&◌,
  none, some, [], ◌∷◌, arith, str_eq, leb, length, Bool-cases, inl, inr,
}
use packtrail.GoMap.{Map, empty, get, put, delete, get-put_self, get-put_ne, get-delete}
use packtrail.GoMap.Count.{
  is_held, AtMost, AtMost-length, AtMost-fewer, AtMost-grow, AtMost-put, AtMost-delete, put_again,
  delete-KeysIn,
}
use packtrail.StateCache.{Cache, new_cache, lookup, make_room, store, drop}

module _ {ℓ} {V : Type ℓ} where
  -- the function gives a key of every map that has one
  abbrev pub Picks : (Map V → String) → Type ℓ
  Picks first_key = (m : Map V) → m ≡ [] ⊎ (is_held m (first_key m) ≡ true)

  -- it holds no more than its size, which is not 0
  abbrev pub IsBounded : Cache V → Type 0
  IsBounded c = (1 ≤ c.size) × AtMost c.size c.m

  empty_room : (m : Map V) (size : ℕ) → m ≡ [] → leb size (length m) ≡ true → 1 ≤ size → ⊥
  empty_room [] size e l p = ground arith
  empty_room (x ∷ m) size e l p = absurd (cc)

  room-AtMost :
      (first_key : Map V → String) (c : Cache V) (id : String) (n : ℕ)
      → Picks first_key
      → c.size ≡ suc n
      → AtMost c.size c.m
      → is_held c.m id ≡ false
      → AtMost n (make_room first_key c id)
  unfolding make_room
  room-AtMost first_key c id n picks s most new = elim (Bool-cases (leb c.size (length c.m))) [
    | inr room ↦
        subst (AtMost n) (ground (arith, new, room))
          (AtMost-grow (length c.m) n c.m (ground (arith, room, s)) (AtMost-length c.m))
    | inl full ↦ elim (picks c.m) [
      | inl e ↦ absurd (empty_room c.m c.size e full (omega (arith, s)))
      | inr k ↦
          subst (AtMost n) (ground (arith, new, full))
            (AtMost-delete n c.m (first_key c.m) k (subst (λ (b : ℕ). AtMost b c.m) s most))
    ]
  ]

  store-AtMost :
      (first_key : Map V → String) (c : Cache V) (id : String) (e : V) (n : ℕ)
      → Picks first_key
      → c.size ≡ suc n
      → AtMost c.size c.m
      → AtMost c.size (store first_key c id e).m
  unfolding store make_room
  store-AtMost first_key c id e n picks s most = elim (Bool-cases (is_held c.m id)) [
    | inl held ↦
        subst (λ (m : Map V). AtMost c.size (put m id e)) (ground (arith, held))
          (AtMost-fewer c.size c.m (put c.m id e) (put_again c.m id e held) most)
    | inr new ↦ AtMost-grow (suc n) c.size _ (omega (arith, s)) (
        AtMost-put n (make_room first_key c id) id e
          (room-AtMost first_key c id n picks s most new))
  ]

  store-IsBounded :
      (first_key : Map V → String) (c : Cache V) (id : String) (e : V)
      → Picks first_key
      → IsBounded c
      → IsBounded (store first_key c id e)
  unfolding store
  store-IsBounded first_key c id e picks h =
      (h.0, store-AtMost first_key c id e (c.size - 1) picks (omega (arith, h.0)) h.1)

  drop-IsBounded : (c : Cache V) (id : String) → IsBounded c → IsBounded (drop c id)
  unfolding drop
  drop-IsBounded c id h = (h.0, AtMost-fewer c.size c.m (delete c.m id) (delete-KeysIn c.m id) h.1)

  -- what an update makes of the entry of another id
  room_lookup :
      (first_key : Map V → String) (c : Cache V) (id x : String)
      → (get (make_room first_key c id) x ≡ get c.m x) ⊎ (get (make_room first_key c id) x ≡ none)
  unfolding make_room
  room_lookup first_key c id x =
      elim (Bool-cases (not (is_held c.m id) && leb c.size (length c.m))) [
        | inr kept ↦ inl (rw (make_room, kept) refl)
        | inl full ↦ elim (Bool-cases (str_eq (first_key c.m) x)) [
          | inl same ↦ inr (rw (make_room, full) (ground (arith, get-delete c.m (first_key c.m) x)))
          | inr other ↦
              inl (rw (make_room, full) (ground (arith, get-delete c.m (first_key c.m) x)))
        ]
      ]

-- the caches of a size that calls make, one after the other
pub data Used {ℓ} {V : Type ℓ} (first_key : Map V → String) (size : ℤ) : Cache V → Type ℓ where
  made : Used first_key size (new_cache size)
  stored :
      {c : Cache V}
      → Used first_key size c
      → (id : String) (e : V) → Used first_key size (store first_key c id e)
  dropped : {c : Cache V} → Used first_key size c → (id : String) → Used first_key size (drop c id)

new-IsBounded {ℓ} : (V : Type ℓ) (size : ℤ) → IsBounded (new_cache {V = V} size)
unfolding new_cache
new-IsBounded V (pos n) = (ground arith, AtMost-grow 0 _ empty (ground arith) (AtMost-length empty))
new-IsBounded V (negsuc n) =
    (omega arith, AtMost-grow 0 _ empty (omega arith) (AtMost-length empty))

Used-IsBounded {ℓ} :
    {V : Type ℓ} (first_key : Map V → String) (size : ℤ) (c : Cache V)
    → Picks first_key
    → Used first_key size c
    → IsBounded c
Used-IsBounded {V = V} first_key size _ picks made = new-IsBounded V size
Used-IsBounded first_key size _ picks (stored {c} u id e) =
    store-IsBounded first_key c id e picks (Used-IsBounded first_key size c picks u)
Used-IsBounded first_key size _ picks (dropped {c} u id) =
    drop-IsBounded c id (Used-IsBounded first_key size c picks u)

-- A cache that New made and any calls of Put and Drop changed has a size of at least 1, and holds
-- entries of at most that many different ids, whichever entries Put evicts.
pub cache_bounded {ℓ} :
    {V : Type ℓ} (first_key : Map V → String) (size : ℤ) (c : Cache V)
    → Picks first_key
    → Used first_key size c
    → (1 ≤ c.size) × AtMost c.size c.m
cache_bounded first_key size c picks u = Used-IsBounded first_key size c picks u

-- After Put, Get returns the entry for its id; for any other id it returns what it returned before,
-- or nothing.
pub lookup-store {ℓ} :
    {V : Type ℓ} (first_key : Map V → String) (c : Cache V) (id x : String) (e : V)
    → (lookup (store first_key c id e) id ≡ some e)
      × (x ≢ id
          → (lookup (store first_key c id e) x ≡ lookup c x)
            ⊎ (lookup (store first_key c id e) x ≡ none))
unfolding lookup store
lookup-store first_key c id x e = (
  get-put_self (make_room first_key c id) id e,
  λ other. rw (get-put_ne (make_room first_key c id) id x e other) (room_lookup first_key c id x),
)
