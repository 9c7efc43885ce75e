-- ===== src/GoMap.antt =====
-- Go's `map[string]V`, as the entries in the order of their keys: every loop of the code that can
-- tell the order goes over `slices.Sorted(maps.Keys(m))`, the others do the same in any order.
-- A missing key is `none`, so Go's zero value is written out where the code uses it.
pub mod Count
use Prim.Native.Nat.{Ordering}
use Prim.Native.String.{compare}
use packtrail.Prelude.{
  String, Bool, true, false, Option, none, some, List, [], ◌∷◌, ◌≡◌, ◌≢◌, refl, arith, str_eq,
  eq_iff, eq_refl, if◌then◌else◌,
}

-- The order of `strings.Compare`, by bytes.
unfoldable pub str_lt : String → String → Bool
str_lt s t = elim (compare s t) [ Ordering.lt ↦ true | _ ↦ false ]

abbrev pub Map {ℓ} : Type ℓ → Type ℓ
Map V = List (String × V)

module _ {ℓ} {V : Type ℓ} where
  abbrev pub empty : Map V
  empty = []

  -- m[k], with `none` where the key is missing
  unfoldable pub get : Map V → String → Option V
  get [] k = none
  get ((j, v) ∷ m) k = if str_eq j k then some v else get m k

  -- m[k] = v
  unfoldable pub put : Map V → String → V → Map V
  put [] k v = (k, v) ∷ []
  put ((j, w) ∷ m) k v =
      if str_eq j k
      then (k, v) ∷ m
      else if str_lt k j
      then (k, v) ∷ (j, w) ∷ m
      else (j, w) ∷ put m k v

  -- delete(m, k)
  unfoldable pub delete : Map V → String → Map V
  delete [] k = []
  delete ((j, v) ∷ m) k = let rest = delete m k in if str_eq j k then rest else (j, v) ∷ rest

  -- slices.Sorted(maps.Keys(m))
  abbrev pub keys : Map V → List String
  keys [] = []
  keys ((k, v) ∷ m) = k ∷ keys m

  pub get-put :
      (m : Map V) (k j : String) (v : V)
      → get (put m k v) j ≡ (if str_eq k j then some v else get m j)
  unfolding get put
  get-put [] k j v = refl
  get-put ((i, w) ∷ m) k j v = ground (arith, eq_iff k j, eq_iff i k, eq_iff i j, get-put m k j v)

  pub get-delete :
      (m : Map V) (k j : String) → get (delete m k) j ≡ (if str_eq k j then none else get m j)
  unfolding get delete
  get-delete [] k j = ground arith
  get-delete ((i, w) ∷ m) k j = ground (arith, eq_iff k j, eq_iff i k, eq_iff i j, get-delete m k j)

  pub get-put_ne : (m : Map V) (k j : String) (v : V) → j ≢ k → get (put m k v) j ≡ get m j
  get-put_ne m k j v h = rw get-put (ground (arith, eq_iff k j))

  pub get-put_self : (m : Map V) (k : String) (v : V) → get (put m k v) k ≡ some v
  get-put_self m k v = simp (get-put, eq_refl)

  pub get-delete_self : (m : Map V) (k : String) → get (delete m k) k ≡ none
  get-delete_self m k = simp (get-delete, eq_refl)

pub ruleset map_laws = (get-put, get-delete)
