-- ===== src/Json.antt =====
-- JSON values and `json.RawMessage` (encoding/json), as far as the code looks into them, with the
-- tests of internal/fold/reduce.go and internal/fold/decide.go. A float64 is its 64 bits: what the
-- hardware does with them is in `Platform`.
use packtrail.Prelude.{ℕ, String, Bool, true, false, Option, none, some, List, [], ◌∷◌}
use packtrail.GoMap.{Map, put}

abbrev pub Float64 : Type 0
Float64 = ℕ

mutual
  pub data Json : Type 0 where
    null : Json
    bool : Bool → Json
    num : Float64 → Json
    str : String → Json
    arr : Items → Json
    obj : Fields → Json

  pub data Items : Type 0 where
    nil : Items
    cons : Json → Items → Items

  pub data Fields : Type 0 where
    end : Fields
    field : String → Json → Fields → Fields

-- A message is empty (absent, or the zero value) or a valid JSON value.
abbrev pub Raw : Type 0
Raw = Option Json

abbrev pub to_items : List Json → Items
to_items [] = nil
to_items (v ∷ vs) = cons v (to_items vs)

abbrev pub of_items : Items → List Json
of_items nil = []
of_items (cons v vs) = v ∷ of_items vs

abbrev pub to_fields : Map Json → Fields
to_fields [] = end
to_fields ((k, v) ∷ m) = field k v (to_fields m)

-- A JSON object into a Go map: of two fields of one name the later wins.
abbrev pub of_fields : Map Json → Fields → Map Json
of_fields m end = m
of_fields m (field k v fs) = of_fields (put m k v) fs

-- json.Marshal of a json.RawMessage
abbrev pub marshal_raw : Raw → Json
marshal_raw none = null
marshal_raw (some v) = v

-- fold.isNull
unfoldable pub is_null : Raw → Bool
is_null none = true
is_null (some null) = true
is_null (some _) = false

-- fold.isObject
unfoldable pub is_object : Raw → Bool
is_object (some (obj fs)) = true
is_object _ = false

-- json.Marshal of a map[string]json.RawMessage
abbrev pub marshal_fields : Map Raw → Fields
marshal_fields [] = end
marshal_fields ((k, v) ∷ m) = field k (marshal_raw v) (marshal_fields m)

-- json.Marshal of a []json.RawMessage
abbrev pub marshal_items : List Raw → Items
marshal_items [] = nil
marshal_items (v ∷ vs) = cons (marshal_raw v) (marshal_items vs)
