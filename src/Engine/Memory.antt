-- ===== src/Engine/Memory.antt =====
-- A server in memory: one stream, and what the engine relies on holds of it. Nothing is archived,
-- and the snapshots are given.
use packtrail.Prelude.{
  ℕ, suc, ◌≤◌, ◌<◌, ◌≡◌, ◌≢◌, refl, sym, subst, String, Bool, false, Option, none, some, List, [],
  ◌∷◌, ◌++◌, ◌∙◌, append-nil, arith, ◌==◌, str_eq, eq_iff, eq_refl, length, Bool-cases, inl, inr,
  if◌then◌else◌,
}
use packtrail.Outcome.{not_archived, unknown_flow, Result, ok, err, ok_inj}
use packtrail.Flow.{Flow}
use packtrail.Fold.State.{State, Ev}
use packtrail.Fold.Scenarios.{review}
use packtrail.Infra.{
  Message, Infra, Published, acked, wrong_last, failed, IsHonest, Stored, Unchanged, Rises,
  from_seq, last_seq,
}

-- the stream, the newest message first, each with its subject
abbrev pub Stream : Type 0
Stream = List (String × Ev × List Ev)

unfoldable pub on_subject : Stream → String → List Message
on_subject [] id = []
on_subject ((j, ev, evs) ∷ s) id =
    if str_eq j id
    then on_subject s id ++ record { seq = suc (length s); first = ev; rest = evs } ∷ []
    else on_subject s id

unfoldable pub store_next : Stream → String → ℕ → Ev → List Ev → Published Stream
store_next s id expected ev evs =
    if last_seq (on_subject s id) == expected
    then acked (suc (length s)) ((id, ev, evs) ∷ s)
    else wrong_last s

unfoldable pub review_only : String → String → Result Flow
review_only name version = if str_eq name "review" then ok review else err unknown_flow

abbrev pub memory : (String → Option State) → Infra
memory saved = record {
  Server = Stream;
  messages = on_subject;
  top = λ s. length s;
  batch = λ s id from. some (from_seq from (on_subject s id), false);
  first_seq = λ s id. none;
  publish = store_next;
  snapshot = λ s id. saved id;
  archived = λ s name. err not_archived;
  is_archived = λ s id. ok false;
  flow_version = review_only;
}

Rises-higher : (n top t : ℕ) (ms : List Message) → Rises n top ms → top ≤ t → Rises n t ms
Rises-higher n top t [] h le = omega arith
Rises-higher n top t (m ∷ ms) h le = (h.0, Rises-higher m.seq top t ms h.1 le)

Rises-snoc :
    (n top : ℕ) (ms : List Message) (m : Message)
    → Rises n top ms
    → top < m.seq
    → Rises n m.seq (ms ++ m ∷ [])
Rises-snoc n top [] m h le = (omega (arith, h), omega arith)
Rises-snoc n top (k ∷ ms) m h le = (h.0, Rises-snoc k.seq top ms m h.1 le)

subject-Rises : (s : Stream) (id : String) → Rises 0 (length s) (on_subject s id)
unfolding on_subject
subject-Rises [] id = omega arith
subject-Rises ((j, ev, evs) ∷ s) id = elim (Bool-cases (str_eq j id)) [
  | inl same ↦ rw same (
      Rises-snoc 0 (length s) (on_subject s id)
        (record { seq = suc (length s); first = ev; rest = evs }) (subject-Rises s id)
        (omega arith))
  | inr other ↦ rw other (
      Rises-higher 0 (length s) (suc (length s)) (on_subject s id) (subject-Rises s id)
        (omega arith))
]

pub subject_next :
    (s : Stream) (id : String) (ev : Ev) (evs : List Ev)
    → on_subject ((id, ev, evs) ∷ s) id
      ≡ on_subject s id ++ record { seq = suc (length s); first = ev; rest = evs } ∷ []
unfolding on_subject
subject_next s id ev evs = rw (eq_refl id) refl

pub subject_other :
    (s : Stream) (id j : String) (ev : Ev) (evs : List Ev)
    → j ≢ id
    → on_subject ((id, ev, evs) ∷ s) j ≡ on_subject s j
unfolding on_subject
subject_other s id j ev evs other = ground (arith, eq_iff id j)

next-Stored :
    (saved : String → Option State) (s : Stream) (id : String) (ev : Ev) (evs : List Ev)
    → Stored (memory saved) s ((id, ev, evs) ∷ s) id (suc (length s)) ev evs
next-Stored saved s id ev evs = record {
  next = omega arith;
  is_top = refl;
  added = subject_next s id ev evs;
  others = λ j other. subject_other s id j ev evs other;
}

acked-Stored :
    (saved : String → Option State) (s s' : Stream) (id : String) (expected q : ℕ) (ev : Ev)
    (evs : List Ev)
    → store_next s id expected ev evs ≡ acked q s'
    → (expected ≡ last_seq (on_subject s id)) × Stored (memory saved) s s' id q ev evs
unfolding store_next
acked-Stored saved s s' id expected q ev evs h =
    elim (Bool-cases (last_seq (on_subject s id) == expected)) [
      | inl same ↦
          let is : acked (suc (length s)) ((id, ev, evs) ∷ s) ≡ acked q s' =
            ground (arith, same, h) in
          let at_q : suc (length s) ≡ q = cc is in
          let at_s : (id, ev, evs) ∷ s ≡ s' = cc is in
          (
            ground (arith, same),
            subst (λ (n : ℕ). Stored (memory saved) s s' id n ev evs) at_q
                (subst (λ (t : Stream). Stored (memory saved) s t id (suc (length s)) ev evs) at_s
                  (next-Stored saved s id ev evs)),
          )
      | inr other ↦ absurd (cc (other, h))
    ]

wrong-Unchanged :
    (saved : String → Option State) (s s' : Stream) (id : String) (expected : ℕ) (ev : Ev)
    (evs : List Ev)
    → store_next s id expected ev evs ≡ wrong_last s'
    → Unchanged (memory saved) s s'
unfolding store_next
wrong-Unchanged saved s s' id expected ev evs h =
    elim (Bool-cases (last_seq (on_subject s id) == expected)) [
      | inl same ↦ absurd (cc (same, h))
      | inr other ↦
          let is : wrong_last s ≡ wrong_last s' = ground (arith, other, h) in
          let at_s : s ≡ s' = cc is in
          subst (Unchanged (memory saved) s) at_s (record { same_top = refl; same = λ j. refl })
    ]

never_failed :
    (s s' : Stream) (id : String) (expected : ℕ) (ev : Ev) (evs : List Ev)
    → store_next s id expected ev evs ≢ failed s'
unfolding store_next
never_failed s s' id expected ev evs h =
    elim (Bool-cases (last_seq (on_subject s id) == expected)) [
      | inl same ↦ absurd (cc (same, h))
      | inr other ↦ absurd (cc (other, h))
    ]

named_review :
    (name version : String) (def : Flow)
    → review_only name version ≡ ok def
    → review_only def.name def.hash ≡ ok def
unfolding review_only
named_review name version def h = elim (Bool-cases (str_eq name "review")) [
  | inl same ↦
      let is : review ≡ def = ok_inj (ground (arith, same, h)) in
      subst (λ (d : Flow). review_only d.name d.hash ≡ ok d) is refl
  | inr other ↦ absurd (cc (other, h))
]

whole_batch :
    (s : Stream) (id : String) (from : ℕ) {ms : List Message} {more : Bool}
    → ◌≡◌ {A = Option (List Message × Bool)}
        (some (from_seq from (on_subject s id), false))
        (some (ms, more))
    → (rest : List Message) × (from_seq from (on_subject s id) ≡ ms ++ rest)
whole_batch s id from {ms} h =
    let is : from_seq from (on_subject s id) ≡ ms = cc h in ([], is ∙ sym (append-nil ms))

pub memory-IsHonest : (saved : String → Option State) → IsHonest (memory saved)
memory-IsHonest saved = record {
  rising = subject-Rises;
  batch-next = λ s id from h. whole_batch s id from h;
  batch-more = λ s id from h. absurd (cc);
  publish-acked = λ s id expected ev evs h. acked-Stored saved s _ id expected _ ev evs h;
  publish-wrong = λ s id expected ev evs h. wrong-Unchanged saved s _ id expected ev evs h;
  publish-failed = λ s id expected ev evs h. absurd (never_failed s _ id expected ev evs h);
  version-kept = λ name version h. named_review name version _ h;
}
