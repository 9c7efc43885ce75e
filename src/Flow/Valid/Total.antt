-- ===== src/Flow/Valid/Total.antt =====
-- flow/graph.go, validateFans: on nodes that are valid on their own it dereferences no nil.
use packtrail.Prelude.{
  ℕ, suc, ◌≡◌, refl, subst, String, true, some, List, [], ◌∷◌, ◌++◌, arith, str_eq, eq_iff, inl,
  inr, Bool-cases, Option-cases,
}
use mathlib.Core.List.{append-eq-nil_iff}
use packtrail.GoMap.{Map, empty, get, put, str_lt}
use packtrail.Outcome.{Result, ok, err, ◌>>=◌}
use packtrail.Flow.Source.{NodeSource, Compiler, Problems, no_cause, add}
use packtrail.Flow.Graph.{Nodes, deref, prepend}
use packtrail.Flow.Graph.Fans.{
  fan_of, Fans, fan_branches, close_fan, validate_fan, fan_loop, validate_join_fan, join_loop,
  validate_fans,
}
use packtrail.Flow.Validate.Nodes.{by_type, validate_node, validate_fanout}
use packtrail.Flow.Validate.Level.{when}
use packtrail.Flow.Valid.{Found, All}
use packtrail.Flow.Valid.Successors.{Accepted, branches-Found}

-- the code returns, with a value that has P
abbrev pub Gives {ℓ} : {A : Type ℓ} → (A → Type 0) → Result A → Type 0
Gives P (ok a) = P a
Gives P (err e) = ⊥

pub bind-Gives {ℓ} :
    {A B : Type ℓ} (P : A → Type 0) (Q : B → Type 0) (m : Result A) (f : A → Result B)
    → Gives P m
    → ((a : A) → P a → Gives Q (f a))
    → Gives Q (m >>= f)
bind-Gives P Q (ok a) f p q = q a p
bind-Gives P Q (err e) f p q = absurd p

pub Gives-value {ℓ} :
    {A : Type ℓ} (P : A → Type 0) (m : Result A) → Gives P m → (a : A) × (m ≡ ok a) × P a
Gives-value P (ok a) p = (a, refl, p)
Gives-value P (err e) p = absurd p

module _ (by_id : Nodes) where
  pub deref-Gives :
      (x : String) → Found by_id x → Gives (λ n. get by_id x ≡ some n) (deref (get by_id x))
  unfolding deref
  deref-Gives x f = rw f.1 refl

  prepend-Gives {ℓ} :
      {A : Type ℓ} (P : A → Type 0) (ps : Problems) (r : Result (Problems × A))
      → Gives (λ q. P q.1) r
      → Gives (λ q. P q.1) (prepend ps r)
  prepend-Gives P ps (ok q) h = h
  prepend-Gives P ps (err e) h = absurd h

  fan_branches-Gives :
      (n : NodeSource) (i : ℕ) (bs : List String) (owners : Map String)
      → All (Found by_id) bs
      → Gives (λ q. Unit {0}) (fan_branches by_id n i bs owners)
  unfolding fan_branches deref
  fan_branches-Gives n i [] owners h = tt
  fan_branches-Gives n i (b ∷ bs) owners h = elim (Option-cases (get owners b)) [
    | inl e ↦
        rw (fan_branches, e, h.0.1)
          (prepend-Gives (λ q. Unit) _ _ (fan_branches-Gives n (suc i) bs (put owners b n.id) h.1))
    | inr (o, e) ↦
        rw (fan_branches, e)
          (prepend-Gives (λ q. Unit) _ _ (fan_branches-Gives n (suc i) bs owners h.1))
  ]

  -- every fanout that a join closes is in the index
  abbrev Owned : Map String → Type 0
  Owned joins = All (λ e. Found by_id e.0) joins

  put-Owned :
      (joins : Map String) (k v : String) → Found by_id k → Owned joins → Owned (put joins k v)
  unfolding put
  put-Owned [] k v f h = (f, tt)
  put-Owned ((j, w) ∷ m) k v f h = elim (Bool-cases (str_eq j k)) [
    | inl e ↦ rw (put, e) (f, h.1)
    | inr e ↦ elim (Bool-cases (str_lt k j)) [
      | inl l ↦ rw (put, e, l) (f, h)
      | inr l ↦ rw (put, e, l) (h.0, put-Owned m k v f h.1)
    ]
  ]

  fan_of-Found :
      (joins : Map String) (j k : String) → Owned joins → fan_of joins j ≡ some k → Found by_id k
  unfolding fan_of
  fan_of-Found [] j k h e = absurd (cc)
  fan_of-Found ((f, i) ∷ m) j k h e = elim (Bool-cases (str_eq i j)) [
    | inl s ↦ subst (Found by_id) (ground (arith, s)) h.0
    | inr s ↦ fan_of-Found m j k h.1 (ground (arith, s))
  ]

  close_fan-Owned :
      (n j : NodeSource) (joins : Map String)
      → Found by_id n.id
      → Owned joins
      → Owned (close_fan n j joins).1
  unfolding close_fan
  close_fan-Owned n j joins f h = elim (Bool-cases (str_eq j.type "join")) [
    | inr e ↦ rw (close_fan, e) h
    | inl e ↦ elim (Option-cases (fan_of joins j.id)) [
      | inl o ↦ rw (close_fan, e, o) (put-Owned joins n.id j.id f h)
      | inr (k, o) ↦ rw (close_fan, e, o) h
    ]
  ]

  abbrev Kept : Problems × Fans → Type 0
  Kept r = Owned r.1.join_of

  module _ (c : Compiler) where
    abbrev pub Good : NodeSource → Type 0
    Good n = Accepted c by_id n × Found by_id n.id

    fanout_next : (n : NodeSource) → Good n → str_eq n.type "fanout" ≡ true → Found by_id n.next
    unfolding validate_node by_type validate_fanout
    fanout_next n g e =
        let typed : by_type n.type c by_id n ≡ [] = (append-eq-nil_iff.0 g.0.0).1 in
        let fan : validate_fanout by_id n ≡ [] =
          subst (λ t. by_type t c by_id n ≡ []) ((eq_iff n.type "fanout").0 e) typed in
        let named : when (str_eq n.next "")
              (add n.id "next" no_cause "is required and must be a join node" [])
            ≡ [] =
          (append-eq-nil_iff.0 fan).1 in
        g.0.1 (elim (Bool-cases (str_eq n.next "")) [ inl b ↦ cc (rw b at named) | inr b ↦ b ])

    validate_fan-Gives :
        (n : NodeSource) (fans : Fans)
        → Good n
        → str_eq n.type "fanout" ≡ true
        → Owned fans.join_of
        → Gives Kept (validate_fan by_id n fans)
    unfolding validate_fan
    validate_fan-Gives n fans g e h =
        bind-Gives (λ q. Unit) Kept (fan_branches by_id n 0 n.branches fans.branch_of) _
          (fan_branches-Gives n 0 n.branches fans.branch_of (branches-Found c by_id n g.0))
          (λ found _.
            bind-Gives {B = Problems × Fans} (λ j. get by_id n.next ≡ some j) Kept
              (deref (get by_id n.next))
              (λ j.
                let closed = close_fan n j fans.join_of in
                ok (found.0 ++ closed.0, record { branch_of = found.1; join_of = closed.1 }))
              (deref-Gives n.next (fanout_next n g e))
              (λ j _. close_fan-Owned n j fans.join_of g.1 h))

    fan_loop-Gives :
        (nodes : List NodeSource) (fans : Fans)
        → All Good nodes
        → Owned fans.join_of
        → Gives Kept (fan_loop by_id nodes fans)
    unfolding fan_loop
    fan_loop-Gives [] fans g h = h
    fan_loop-Gives (n ∷ nodes) fans g h = elim (Bool-cases (str_eq n.type "fanout")) [
      | inl e ↦
          rw (fan_loop, e)
            (bind-Gives Kept _ _ _ (validate_fan-Gives n fans g.0 e h) (λ r o.
              prepend-Gives {A = Fans} (λ f. Owned f.join_of) r.0 _
                (fan_loop-Gives nodes r.1 g.1 o)))
      | inr e ↦ rw (fan_loop, e) (fan_loop-Gives nodes fans g.1 h)
    ]

    validate_join_fan-Gives :
        (n : NodeSource) (joins : Map String)
        → Owned joins
        → Gives (λ ps. Unit {0}) (validate_join_fan by_id joins n)
    unfolding validate_join_fan
    validate_join_fan-Gives n joins h = elim (Option-cases (fan_of joins n.id)) [
      | inl e ↦ rw (validate_join_fan, e) tt
      | inr (fan, e) ↦
          rw (validate_join_fan, e)
            (bind-Gives (λ fn. get by_id fan ≡ some fn) (λ ps. Unit) (deref (get by_id fan)) _
              (deref-Gives fan (fan_of-Found joins n.id fan h e)) (λ fn _. tt))
    ]

    join_loop-Gives :
        (nodes : List NodeSource) (joins : Map String)
        → Owned joins
        → Gives (λ ps. Unit {0}) (join_loop by_id joins nodes)
    unfolding join_loop
    join_loop-Gives [] joins h = tt
    join_loop-Gives (n ∷ nodes) joins h = elim (Bool-cases (str_eq n.type "join")) [
      | inl e ↦
          rw (join_loop, e)
            (bind-Gives (λ ps. Unit) (λ ps. Unit) (validate_join_fan by_id joins n)
              (λ ps. join_loop by_id joins nodes >>= λ qs. ok (ps ++ qs))
              (validate_join_fan-Gives n joins h)
              (λ ps _.
                bind-Gives (λ qs. Unit) (λ rs. Unit) (join_loop by_id joins nodes)
                  (λ qs. ok (ps ++ qs)) (join_loop-Gives nodes joins h) (λ qs _. tt)))
      | inr e ↦ rw (join_loop, e) (join_loop-Gives nodes joins h)
    ]

    pub validate_fans-Gives :
        (nodes : List NodeSource)
        → All Good nodes
        → Gives (λ r. Unit {0}) (validate_fans by_id nodes)
    unfolding validate_fans
    validate_fans-Gives nodes g =
        let none_yet : Fans = record { branch_of = empty; join_of = empty } in
        bind-Gives Kept (λ r. Unit) (fan_loop by_id nodes none_yet)
          (λ r. join_loop by_id r.1.join_of nodes >>= λ ps. ok (r.0 ++ ps, r.1))
          (fan_loop-Gives nodes none_yet g tt)
          (λ r o.
            bind-Gives (λ ps. Unit) (λ q. Unit) (join_loop by_id r.1.join_of nodes)
              (λ ps. ok (r.0 ++ ps, r.1)) (join_loop-Gives nodes r.1.join_of o) (λ ps _. tt))
