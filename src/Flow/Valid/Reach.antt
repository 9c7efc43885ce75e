-- ===== src/Flow/Valid/Reach.antt =====
-- flow/graph.go, rejectUnreachable: the search sees exactly the nodes that the start leads to.
use packtrail.Prelude.{
  ℕ, zero, suc, ◌≤◌, ◌≡◌, ◌↔◌, ◌⊎◌, refl, subst, String, true, false, some, List, [], ◌∷◌, arith,
  eq_iff, eq_refl, inl, inr, Option-cases, length,
}
use packtrail.GoMap.{get}
use packtrail.Outcome.{ok}
use packtrail.Flow.Source.{NodeSource, Problems}
use packtrail.Flow.Graph.{Nodes, deref, successors}
use packtrail.Flow.Graph.Search.{
  Visit, push_new, offer, expand, explore, unreachable, reject_unreachable,
}
use packtrail.Flow.Validate.Fields.{contains}
use packtrail.Flow.Valid.{Found, All}
use packtrail.Flow.Valid.Search.{IsClosed, unseen-le, unseen-push, explore_ends}

-- the nodes that a start leads to, over routes and branches
pub data Reaches (by_id : Nodes) (start : String) : String → Type 0 where
  here : Reaches by_id start start
  step :
      {u v : String}
      → Reaches by_id start u
      → (n : NodeSource) → get by_id u ≡ some n
      → contains (successors n) v ≡ true
      → Reaches by_id start v

push-contains :
    (y x : String) (v : Visit)
    → (contains (push_new y v).seen x ≡ true) ↔ ((contains v.seen x ≡ true) ⊎ (y ≡ x))
unfolding push_new contains
push-contains y x v = ground (arith, eq_iff y x)

offer-seen :
    (ids : List String) (v : Visit) (x : String)
    → (contains (offer ids v).seen x ≡ true)
      ↔ ((contains v.seen x ≡ true) ⊎ (contains ids x ≡ true))
unfolding offer contains
offer-seen [] v x = ground arith
offer-seen (y ∷ ids) v x =
    ground (arith, offer-seen ids (push_new y v) x, push-contains y x v, eq_iff y x)

push-stack :
    (y x : String) (v : Visit)
    → (contains (push_new y v).stack x ≡ true) ↔ (
        (contains v.stack x ≡ true)
        ⊎ (contains (push_new y v).seen x ≡ true) × (contains v.seen x ≡ false))
unfolding push_new contains
push-stack y x v = ground (arith, eq_iff y x)

-- What is put on the stack is what is seen only now.
offer-stack :
    (ids : List String) (v : Visit) (x : String)
    → (contains (offer ids v).stack x ≡ true) ↔ (
        (contains v.stack x ≡ true)
        ⊎ (contains (offer ids v).seen x ≡ true) × (contains v.seen x ≡ false))
unfolding offer
offer-stack [] v x = ground arith
offer-stack (y ∷ ids) v x = ground (
  arith,
  offer-stack ids (push_new y v) x,
  offer-seen ids (push_new y v) x,
  push-stack y x v,
  push-contains y x v,
)

module _ (m : Nodes) (start : String) where
  record Inv (seen stack : List String) : Type 0 where
    source : contains seen start ≡ true
    queued : (x : String) → contains stack x ≡ true → contains seen x ≡ true
    sound : (x : String) → contains seen x ≡ true → Reaches m start x
    closed :
        (u x : String) (n : NodeSource)
        → contains seen u ≡ true
        → get m u ≡ some n
        → contains (successors n) x ≡ true
        → (contains stack u ≡ true) ⊎ (contains seen x ≡ true)

  Inv-expand :
      (seen rest : List String) (u : String) (n : NodeSource)
      → get m u ≡ some n
      → Inv seen (u ∷ rest)
      → Inv (expand seen rest n).seen (expand seen rest n).stack
  unfolding expand contains
  Inv-expand seen rest u n e h =
      let v : Visit = record { seen = seen; stack = rest } in
      let flags = λ (x : String). offer-seen (successors n) v x in
      let queue = λ (x : String). offer-stack (successors n) v x in
      let to_u = h.sound u (h.queued u (ground (arith, eq_refl u))) in
      record {
        source = ground (arith, flags start, h.source);
        queued = λ x q. ground (arith, flags x, queue x, h.queued x);
        sound =
            λ x s. elim ((flags x).0 s) [ inl old ↦ h.sound x old | inr new ↦ step to_u n e new ];
        closed =
            λ w x k s g c. ground (arith, flags x, flags w, queue w, h.closed w x k, eq_iff u w);
      }

  Inv-start : Inv (start ∷ []) (start ∷ [])
  unfolding contains
  Inv-start = record {
    source = ground (arith, eq_refl start);
    queued = λ x q. q;
    sound = λ x s. subst (Reaches m start) (ground (arith, eq_iff start x)) here;
    closed = λ u x n s g c. inl s;
  }

  explore-Inv :
      (fuel : ℕ) (seen stack all : List String)
      → Inv seen stack
      → explore m fuel seen stack ≡ ok all
      → Inv all []
  unfolding explore deref
  explore-Inv fuel seen [] all inv h = subst (λ s. Inv s []) (ground arith) inv
  explore-Inv zero seen (u ∷ rest) all inv h = absurd (cc)
  explore-Inv (suc fuel) seen (u ∷ rest) all inv h = elim (Option-cases (get m u)) [
    | inl e ↦ cc (rw (explore, e) at h)
    | inr (n, e) ↦
        let next = expand seen rest n in
        explore-Inv fuel next.seen next.stack all (Inv-expand seen rest u n e inv)
          (rw (explore, e) at h)
  ]

  complete :
      (all : List String) → Inv all [] → {x : String} → Reaches m start x → contains all x ≡ true
  unfolding contains
  complete all inv here = inv.source
  complete all inv (step {u} {v} p n e c) = elim (inv.closed u v n (complete all inv p) e c) [
    | inl waiting ↦ absurd (cc)
    | inr s ↦ s
  ]

module _ (m : Nodes) (closed : IsClosed m) (start : String) (first : Found m start) (fuel : ℕ)
    (enough : length m ≤ fuel) where
  -- Of an index whose nodes' successors are all in it, a start in it, and at least as many rounds
  -- as it has entries: the search ends, and an id is seen exactly if the start leads to it over the
  -- successors of nodes.
  pub search_exact :
      (all : List String) × (explore m fuel (start ∷ []) (start ∷ []) ≡ ok all)
      × ((x : String) → (contains all x ≡ true) ↔ Reaches m start x)
  unfolding contains
  search_exact =
      let (all, ends) =
        explore_ends m closed fuel (start ∷ []) (start ∷ []) (first, tt)
          (omega (arith, unseen-push m start [] first.0 first.1 refl, unseen-le m [])) in
      let inv = explore-Inv m start fuel (start ∷ []) (start ∷ []) all (Inv-start m start) ends in
      (all, ends, λ x. (inv.sound x, complete m start all inv))

unreachable_iff :
    (seen : List String) (start : String) (nodes : List NodeSource)
    → (unreachable seen start nodes ≡ []) ↔ All (λ n. contains seen n.id ≡ true) nodes
unfolding unreachable
unreachable_iff seen start [] = (λ h. tt, λ h. refl)
unreachable_iff seen start (n ∷ nodes) = ground (arith, unreachable_iff seen start nodes)

All-map {ℓ κ} :
    {A : Type ℓ} (P Q : A → Type κ) → ((a : A) → P a → Q a) → (xs : List A) → All P xs → All Q xs
All-map P Q f [] h = tt
All-map P Q f (x ∷ xs) h = (f x h.0, All-map P Q f xs h.1)

-- Under the conditions of the search, with at least as many nodes as the index has entries:
-- rejectUnreachable returns, and it has no problem exactly if the start leads to every node.
pub rejects_unreachable :
    (m : Nodes) (nodes : List NodeSource) (start : String)
    → IsClosed m
    → Found m start
    → length m ≤ length nodes
    → (ps : Problems) × (reject_unreachable m nodes start ≡ ok ps)
      × ((ps ≡ []) ↔ All (λ n. Reaches m start n.id) nodes)
unfolding reject_unreachable
rejects_unreachable m nodes start closed first le =
    let (all, ends, exact) = search_exact m closed start first (length nodes) le in
    let none_lost = unreachable_iff all start nodes in
    (
      unreachable all start nodes,
      rw ends refl,
      (
        λ h. All-map _ _ (λ n. (exact n.id).0) nodes (none_lost.0 h),
        λ h. none_lost.1 (All-map _ _ (λ n. (exact n.id).1) nodes h),
      ),
    )
