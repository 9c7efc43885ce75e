-- ===== src/Flow/Valid/Index.antt =====
-- flow/validate.go, indexNodes: what the index holds.
use packtrail.Prelude.{
  suc, ◌+◌, ◌≤◌, ◌≡◌, ◌≢◌, subst, String, some, List, [], ◌∷◌, ◌++◌, arith, str_eq, eq_iff, inl,
  inr, Bool-cases, Option-cases, length,
}
use mathlib.Core.List.{append-eq-nil_iff}
use packtrail.GoMap.{Map, empty, get, put, get-put, get-put_self}
use packtrail.Flow.Source.{NodeSource, no_cause, add, check_token}
use packtrail.Flow.Graph.{Nodes}
use packtrail.Flow.Validate.{id_problems, keep_first, index_nodes}
use packtrail.Flow.Valid.{All}

-- every entry has P, and stands at its own id
abbrev pub Holds {ℓ} : (NodeSource → Type ℓ) → Nodes → Type ℓ
Holds P m = (x : String) (n : NodeSource) → get m x ≡ some n → P n × (n.id ≡ x)

pub empty-Holds {ℓ} : (P : NodeSource → Type ℓ) → Holds P empty
unfolding get
empty-Holds P x n e = absurd (cc)

put-Holds {ℓ} :
    (P : NodeSource → Type ℓ) (m : Nodes) (n : NodeSource)
    → Holds P m
    → P n
    → Holds P (put m n.id n)
put-Holds P m n h p x v e = elim (Bool-cases (str_eq n.id x)) [
  | inl same ↦
      subst (λ k. P k × (k.id ≡ x)) (ground (arith, get-put m n.id x n)) (p, (eq_iff n.id x).0 same)
  | inr other ↦ h x v (ground (arith, get-put m n.id x n))
]

keep_first-Holds {ℓ} :
    (P : NodeSource → Type ℓ) (m : Nodes) (n : NodeSource)
    → Holds P m
    → P n
    → Holds P (keep_first m n)
unfolding keep_first
keep_first-Holds P m n h p = elim (Option-cases (get m n.id)) [
  | inl e ↦ rw (keep_first, e) (put-Holds P m n h p)
  | inr (k, e) ↦ rw (keep_first, e) h
]

pub index-Holds {ℓ} :
    (P : NodeSource → Type ℓ) (nodes : List NodeSource) (m : Nodes)
    → Holds P m
    → All P nodes
    → Holds P (index_nodes nodes m).1
unfolding index_nodes
index-Holds P [] m h p = h
index-Holds P (n ∷ nodes) m h p =
    index-Holds P nodes (keep_first m n) (keep_first-Holds P m n h p.0) p.1

length-put {ℓ} : {V : Type ℓ} (m : Map V) (k : String) (v : V) → length (put m k v) ≤ suc (length m)
unfolding put
length-put [] k v = omega arith
length-put ((j, w) ∷ m) k v = ground (arith, length-put m k v)

length-keep_first : (m : Nodes) (n : NodeSource) → length (keep_first m n) ≤ suc (length m)
unfolding keep_first
length-keep_first m n = ground (arith, length-put m n.id n)

pub length-index :
    (nodes : List NodeSource) (m : Nodes) → length (index_nodes nodes m).1 ≤ length nodes + length m
unfolding index_nodes
length-index [] m = omega arith
length-index (n ∷ nodes) m =
    omega (arith, length-index nodes (keep_first m n), length-keep_first m n)

keep_first-keeps :
    (m : Nodes) (n : NodeSource) (x : String) (v : NodeSource)
    → get m x ≡ some v
    → get (keep_first m n) x ≡ some v
unfolding keep_first
keep_first-keeps m n x v h = ground (arith, get-put m n.id x n, eq_iff n.id x)

index_keeps :
    (nodes : List NodeSource) (m : Nodes) (x : String) (v : NodeSource)
    → get m x ≡ some v
    → get (index_nodes nodes m).1 x ≡ some v
unfolding index_nodes
index_keeps [] m x v h = h
index_keeps (n ∷ nodes) m x v h =
    index_keeps nodes (keep_first m n) x v (keep_first-keeps m n x v h)

pub refuted {ℓ} : {A : Type ℓ} {x : A} {xs : List A} → x ∷ xs ≡ [] → ⊥
refuted h = cc

duplicate-ne-nil : (m : Nodes) (n k : NodeSource) → get m n.id ≡ some k → id_problems m n ≢ []
unfolding id_problems
duplicate-ne-nil m n k e h =
    let found : check_token n.id "id" "node id" n.id
          ++ add n.id "id" no_cause "duplicate node id" []
        ≡ [] =
      rw (id_problems, e) at h in
    refuted (append-eq-nil_iff.0 found).1

keep_first-own :
    (m : Nodes) (n : NodeSource) → id_problems m n ≡ [] → get (keep_first m n) n.id ≡ some n
unfolding keep_first id_problems
keep_first-own m n h = elim (Option-cases (get m n.id)) [
  | inl e ↦ rw (keep_first, e) (get-put_self m n.id n)
  | inr (k, e) ↦ absurd (duplicate-ne-nil m n k e h)
]

-- Without a problem, each node is found by its own id.
pub index-own :
    (nodes : List NodeSource) (m : Nodes)
    → (index_nodes nodes m).0 ≡ []
    → All (λ n. get (index_nodes nodes m).1 n.id ≡ some n) nodes
unfolding index_nodes
index-own [] m h = tt
index-own (n ∷ nodes) m h =
    let (this, rest) = append-eq-nil_iff.0 h in
    (
      index_keeps nodes (keep_first m n) n.id n (keep_first-own m n this),
      index-own nodes (keep_first m n) rest,
    )
