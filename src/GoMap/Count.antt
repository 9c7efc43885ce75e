-- ===== src/GoMap/Count.antt =====
-- How many different keys a map has, whatever the order of its entries.
use packtrail.Prelude.{
  ℕ, suc, ◌≤◌, ◌≡◌, refl, String, Bool, true, false, ◌||◌, none, some, List, [], ◌∷◌, arith, str_eq,
  eq_iff, if◌then◌else◌, length, Bool-cases, inl, inr,
}
use packtrail.GoMap.{Map, get, put, delete, get-put, get-delete}

abbrev pub is_held {ℓ} : {V : Type ℓ} → Map V → String → Bool
is_held m k = elim (get m k) [ none ↦ false | some v ↦ true ]

abbrev pub contains : List String → String → Bool
contains [] x = false
contains (y ∷ ys) x = str_eq y x || contains ys x

abbrev pub Distinct : List String → Type 0
Distinct [] = Unit
Distinct (x ∷ xs) = (contains xs x ≡ false) × Distinct xs

-- all of these are keys
abbrev pub Hold {ℓ} : {V : Type ℓ} → Map V → List String → Type 0
Hold h xs = (x : String) → contains xs x ≡ true → is_held h x ≡ true

-- at most this many different keys
abbrev pub AtMost {ℓ} : {V : Type ℓ} → ℕ → Map V → Type 0
AtMost limit h = (xs : List String) → Distinct xs → Hold h xs → length xs ≤ limit

pub without : List String → String → List String
without [] k = []
without (x ∷ xs) k = let rest = without xs k in if str_eq x k then rest else x ∷ rest

pub contains-without :
    (xs : List String) (k x : String)
    → contains (without xs k) x ≡ (if str_eq k x then false else contains xs x)
unfolding without
contains-without [] k x = ground arith
contains-without (y ∷ xs) k x =
    ground (arith, eq_iff y k, eq_iff k x, eq_iff y x, contains-without xs k x)

pub Distinct-without : (xs : List String) (k : String) → Distinct xs → Distinct (without xs k)
unfolding without
Distinct-without [] k d = tt
Distinct-without (x ∷ xs) k d = elim (Bool-cases (str_eq x k)) [
  | inl e ↦ rw (without, e) (Distinct-without xs k d.1)
  | inr e ↦
      rw (without, e) (ground (arith, d.0, contains-without xs k x), Distinct-without xs k d.1)
]

length-absent :
    (xs : List String) (k : String) → contains xs k ≡ false → length (without xs k) ≡ length xs
unfolding without
length-absent [] k h = refl
length-absent (x ∷ xs) k h = ground (arith, length-absent xs k)

pub length-without :
    (xs : List String) (k : String) → Distinct xs → length xs ≤ suc (length (without xs k))
unfolding without
length-without [] k d = omega arith
length-without (x ∷ xs) k d =
    ground (arith, d.0, eq_iff x k, length-absent xs k, length-without xs k d.1)

-- every key of m is one of w
abbrev pub KeysIn {ℓ} : {V : Type ℓ} → Map V → Map V → Type 0
KeysIn m w = (x : String) → is_held m x ≡ true → is_held w x ≡ true

module _ {ℓ} {V : Type ℓ} where
  -- as many as it has entries, at most
  pub AtMost-length : (m : Map V) → AtMost (length m) m
  unfolding get
  AtMost-length [] [] d held = omega arith
  AtMost-length [] (x ∷ xs) d held = absurd (ground (arith, held x, eq_iff x x))
  AtMost-length ((k, v) ∷ m) xs d held = omega (
    arith,
    length-without xs k d,
    AtMost-length m (without xs k) (Distinct-without xs k d)
        (λ x c. ground (arith, contains-without xs k x, held x)),
  )

  pub AtMost-fewer : (limit : ℕ) (m w : Map V) → KeysIn w m → AtMost limit m → AtMost limit w
  AtMost-fewer limit m w sub most xs d held = most xs d (λ x c. sub x (held x c))

  pub AtMost-grow : (a b : ℕ) (m : Map V) → a ≤ b → AtMost a m → AtMost b m
  AtMost-grow a b m le most xs d held = omega (arith, most xs d held)

  put_other :
      (m : Map V) (k : String) (v : V) (x : String)
      → is_held (put m k v) x ≡ true
      → str_eq k x ≡ false
      → is_held m x ≡ true
  put_other m k v x e n = ground (arith, get-put m k x v)

  -- a key more
  pub AtMost-put :
      (limit : ℕ) (m : Map V) (k : String) (v : V) → AtMost limit m → AtMost (suc limit) (put m k v)
  AtMost-put limit m k v most xs d held = omega (
    arith,
    length-without xs k d,
    most (without xs k) (Distinct-without xs k d) (λ x c.
        put_other m k v x (held x (ground (arith, contains-without xs k x)))
          (ground (arith, contains-without xs k x))),
  )

  -- a key that is there
  pub put_again : (m : Map V) (k : String) (v : V) → is_held m k ≡ true → KeysIn (put m k v) m
  put_again m k v e x held = ground (arith, get-put m k x v, eq_iff k x)

  pub delete-KeysIn : (m : Map V) (k : String) → KeysIn (delete m k) m
  delete-KeysIn m k x g = ground (arith, get-delete m k x)

  -- a key less
  pub AtMost-delete :
      (limit : ℕ) (m : Map V) (k : String)
      → is_held m k ≡ true
      → AtMost (suc limit) m
      → AtMost limit (delete m k)
  AtMost-delete limit m k e most xs d held = omega (
    arith,
    most (k ∷ xs)
        (
          elim (Bool-cases (contains xs k)) [
            | inl c ↦ absurd (ground (arith, held k c, get-delete m k k, eq_iff k k))
            | inr c ↦ c
          ],
          d,
        )
        (λ x c. ground (arith, held x, get-delete m k x, eq_iff k x)),
  )
