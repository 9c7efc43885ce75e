-- ===== src/Fold/Reduce.antt =====
-- internal/fold/reduce.go: the reducers of the state channels.
use packtrail.Prelude.{none, some, List, [], ◌∷◌, ◌++◌, if◌then◌else◌}
use packtrail.GoMap.{Map, empty, put}
use packtrail.Json.{
  Json, null, num, arr, obj, Raw, Float64, to_items, of_items, to_fields, of_fields,
}
use packtrail.Outcome.{reducer, not_encodable, Result, ok, err, ◌>>=◌}
use packtrail.Platform.{Platform}
use packtrail.Flow.{Reducer, replace, append, merge, sum, unknown}

-- the current value as an array; a null or absent one is empty
current_list : Raw → Result (List Json)
current_list none = ok []
current_list (some null) = ok []
current_list (some (arr vs)) = ok (of_items vs)
current_list (some _) = err reducer

-- an array delta gives its items, any other value is one item; null decodes as an empty array
delta_items : Raw → List Json
delta_items none = null ∷ []
delta_items (some null) = []
delta_items (some (arr vs)) = of_items vs
delta_items (some v) = v ∷ []

unfoldable pub reduce_append : Raw → Raw → Result Raw
unfolding current_list delta_items
reduce_append cur delta = do
  vs ← current_list cur
  ok (some (arr (to_items (vs ++ delta_items delta))))

current_object : Raw → Result (Map Json)
current_object none = ok empty
current_object (some null) = ok empty
current_object (some (obj fs)) = ok (of_fields empty fs)
current_object (some _) = err reducer

delta_object : Raw → Result (Map Json)
delta_object (some (obj fs)) = ok (of_fields empty fs)
delta_object _ = err reducer

-- for k, v := range d { obj[k] = v }
unfoldable pub put_all {ℓ} : {V : Type ℓ} → Map V → Map V → Map V
put_all m [] = m
put_all m ((k, v) ∷ d) = put_all (put m k v) d

unfoldable pub reduce_merge : Raw → Raw → Result Raw
unfolding current_object delta_object put_all
reduce_merge cur delta = do
  m ← current_object cur
  d ← delta_object delta
  ok (some (obj (to_fields (put_all m d))))

current_number : Raw → Result Float64
current_number none = ok 0
current_number (some null) = ok 0
current_number (some (num a)) = ok a
current_number (some _) = err reducer

-- null decodes into a float64 as nothing
delta_number : Raw → Result Float64
delta_number (some null) = ok 0
delta_number (some (num b)) = ok b
delta_number _ = err reducer

unfoldable pub reduce_sum : Platform → Raw → Raw → Result Raw
unfolding current_number delta_number
reduce_sum p cur delta = do
  a ← current_number cur
  b ← delta_number delta
  if p.finite (p.fadd a b) then ok (some (num (p.fadd a b))) else err not_encodable

-- Reduce
unfoldable pub reduce : Platform → Reducer → Raw → Raw → Result Raw
unfolding reduce_append reduce_merge reduce_sum
reduce p replace cur delta = ok delta
reduce p append cur delta = reduce_append cur delta
reduce p merge cur delta = reduce_merge cur delta
reduce p sum cur delta = reduce_sum p cur delta
reduce p (unknown _) cur delta = err reducer
