-- ===== src/Flow/Valid/Search.antt =====
-- flow/graph.go, rejectUnreachable: the search ends within as many rounds as the index has entries.
use packtrail.Prelude.{
  ℕ, zero, suc, ◌+◌, ◌≤◌, ◌≡◌, ◌⊎◌, refl, String, false, some, List, [], ◌∷◌, arith, eq_iff,
  if◌then◌else◌, inl, inr, Bool-cases, length,
}
use packtrail.GoMap.{get}
use packtrail.Outcome.{ok}
use packtrail.Flow.Source.{NodeSource}
use packtrail.Flow.Graph.{Nodes, deref, successors}
use packtrail.Flow.Graph.Search.{Visit, push_new, offer, expand, explore}
use packtrail.Flow.Validate.Fields.{contains}
use packtrail.Flow.Valid.{Found, All}

List-cases {ℓ} :
    {A : Type ℓ} (xs : List A) → (xs ≡ []) ⊎ ((x : A) × (rest : List A) × (xs ≡ x ∷ rest))
List-cases [] = inl refl
List-cases (x ∷ xs) = inr (x, xs, refl)

-- the ids of the index that were not seen
pub unseen : Nodes → List String → ℕ
unseen [] seen = 0
unseen ((k, n) ∷ m) seen = if contains seen k then unseen m seen else suc (unseen m seen)

unseen-cons : (m : Nodes) (x : String) (seen : List String) → unseen m (x ∷ seen) ≤ unseen m seen
unfolding unseen contains
unseen-cons [] x seen = omega arith
unseen-cons ((k, n) ∷ m) x seen = ground (arith, unseen-cons m x seen)

pub unseen-push :
    (m : Nodes) (x : String) (seen : List String) (n : NodeSource)
    → get m x ≡ some n
    → contains seen x ≡ false
    → suc (unseen m (x ∷ seen)) ≤ unseen m seen
unfolding unseen contains get
unseen-push [] x seen n h c = absurd (cc)
unseen-push ((k, v) ∷ m) x seen n h c =
    ground (arith, unseen-cons m x seen, unseen-push m x seen n, eq_iff k x, eq_iff x k)

pub unseen-le : (m : Nodes) (seen : List String) → unseen m seen ≤ length m
unfolding unseen
unseen-le [] seen = omega arith
unseen-le ((k, n) ∷ m) seen = ground (arith, unseen-le m seen)

abbrev pub work : Nodes → List String → List String → ℕ
work m seen stack = unseen m seen + length stack

push-work :
    (m : Nodes) (x : String) (v : Visit)
    → Found m x
    → work m (push_new x v).seen (push_new x v).stack ≤ work m v.seen v.stack
unfolding push_new
push-work m x v f = ground (arith, unseen-push m x v.seen f.0 f.1)

offer-work :
    (m : Nodes) (ids : List String) (v : Visit)
    → All (Found m) ids
    → work m (offer ids v).seen (offer ids v).stack ≤ work m v.seen v.stack
unfolding offer
offer-work m [] v h = omega arith
offer-work m (x ∷ ids) v h = omega (arith, offer-work m ids (push_new x v) h.1, push-work m x v h.0)

push-Found :
    (m : Nodes) (x : String) (v : Visit)
    → Found m x
    → All (Found m) v.stack
    → All (Found m) (push_new x v).stack
unfolding push_new
push-Found m x v f s = elim (Bool-cases (contains v.seen x)) [
  | inl e ↦ rw e s
  | inr e ↦ rw e (f, s)
]

offer-Found :
    (m : Nodes) (ids : List String) (v : Visit)
    → All (Found m) ids
    → All (Found m) v.stack
    → All (Found m) (offer ids v).stack
unfolding offer
offer-Found m [] v h s = s
offer-Found m (x ∷ ids) v h s = offer-Found m ids (push_new x v) h.1 (push-Found m x v h.0 s)

-- Every node that the search can come to has successors that resolve.
abbrev pub IsClosed : Nodes → Type 0
IsClosed m = (x : String) (n : NodeSource) → get m x ≡ some n → All (Found m) (successors n)

pub explore_ends :
    (m : Nodes)
    → IsClosed m
    → (fuel : ℕ) (seen stack : List String) → All (Found m) stack
    → work m seen stack ≤ fuel
    → (all : List String) × (explore m fuel seen stack ≡ ok all)
unfolding explore expand deref
explore_ends m closed fuel seen [] h le = (seen, ground arith)
explore_ends m closed zero seen (x ∷ rest) h le = absurd (omega arith)
explore_ends m closed (suc fuel) seen (x ∷ rest) h le =
    let n = h.0.0 in
    let start : Visit = record { seen = seen; stack = rest } in
    let links = closed x n h.0.1 in
    let next = offer (successors n) start in
    let (all, ends) =
      explore_ends m closed fuel next.seen next.stack (offer-Found m (successors n) start links h.1)
        (omega (arith, offer-work m (successors n) start links)) in
    (all, rw h.0.1 ends)
