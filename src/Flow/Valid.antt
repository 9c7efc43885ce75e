-- ===== src/Flow/Valid.antt =====
-- What flow/validate.go and flow/graph.go guarantee of a definition that they accept.
mod Types
mod Refs
mod Successors
mod Index
mod Search
mod Reach
mod Total
mod Returns
mod Sound
mod Branches
mod Isolated
mod Reports
mod Tests
use packtrail.Prelude.{
  ℕ, ◌≡◌, refl, String, Bool, true, false, Option, none, some, List, [], ◌∷◌, ◌++◌,
}
use packtrail.GoMap.{get}
use packtrail.Flow.Source.{NodeSource}
use packtrail.Flow.Graph.{Nodes}

-- byID holds a node of this id
abbrev pub Found : Nodes → String → Type 0
Found by_id x = (n : NodeSource) × (get by_id x ≡ some n)

abbrev pub All {ℓ κ} : {A : Type ℓ} → (A → Type κ) → List A → Type κ
All P [] = Unit
All P (x ∷ xs) = P x × All P xs

pub All-append {ℓ κ} :
    {A : Type ℓ} (P : A → Type κ) (xs ys : List A) → All P xs → All P ys → All P (xs ++ ys)
All-append P [] ys p q = q
All-append P (x ∷ xs) ys p q = (p.0, All-append P xs ys p.1 q)
