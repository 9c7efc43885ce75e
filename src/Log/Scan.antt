-- ===== src/Log/Scan.antt =====
-- internal/eventlog/eventlog.go: what Read gives of the messages that the server holds.
use packtrail.Prelude.{
  ℕ, zero, suc, ◌+◌, ◌≤◌, ◌<◌, ◌≡◌, refl, ap, sym, String, Bool, true, false, not, Option, none,
  some, List, [], ◌∷◌, ◌++◌, ◌∙◌, append_assoc, arith, ltb, Bool-cases, inl, inr, subst, length,
}
use packtrail.Outcome.{Result, ok, err}
use packtrail.Fold.State.{Ev}
use packtrail.Infra.{Message, Infra, IsHonest, Rises, from_seq, last_seq}
use packtrail.Log.{
  found_or_more, read_batch, events_of, stamped, up_to, stops, next_from, read_loop, read,
}

pub from_seq-all :
    (n top f : ℕ) (ms : List Message) → Rises n top ms → f ≤ n + 1 → from_seq f ms ≡ ms
unfolding from_seq
from_seq-all n top f [] h le = refl
from_seq-all n top f (m ∷ ms) h le = ground (arith, from_seq-all m.seq top f ms h.1)

-- what stands at `f` or later stands at `g` or later, if `f` does not lie behind `g`
from_seq_twice : (f g : ℕ) (ms : List Message) → g ≤ f → from_seq f (from_seq g ms) ≡ from_seq f ms
unfolding from_seq
from_seq_twice f g [] le = refl
from_seq_twice f g (m ∷ ms) le = ground (arith, from_seq_twice f g ms)

pub Rises-le : (n top : ℕ) (ms : List Message) → Rises n top ms → n ≤ top
Rises-le n top [] h = h
Rises-le n top (m ∷ ms) h = omega (arith, h.0, Rises-le m.seq top ms h.1)

Rises-weaken : (a b top : ℕ) (ms : List Message) → a ≤ b → Rises b top ms → Rises a top ms
Rises-weaken a b top [] le h = omega arith
Rises-weaken a b top (m ∷ ms) le h = (omega (arith, h.0), h.1)

pub Rises-from : (n top f : ℕ) (ms : List Message) → Rises n top ms → Rises n top (from_seq f ms)
unfolding from_seq
Rises-from n top f [] h = h
Rises-from n top f (m ∷ ms) h = elim (Bool-cases (ltb m.seq f)) [
  | inl lt ↦ rw lt (
      Rises-weaken n m.seq top (from_seq f ms) (omega (arith, h.0)) (Rises-from m.seq top f ms h.1))
  | inr ge ↦ rw ge (h.0, Rises-from m.seq top f ms h.1)
]

pub last-gt :
    (n top : ℕ) (m : Message) (xs ys : List Message)
    → Rises n top ((m ∷ xs) ++ ys)
    → n < last_seq (m ∷ xs)
unfolding last_seq
last-gt n top m [] ys h = h.0
last-gt n top m (k ∷ xs) ys h = omega (arith, h.0, last-gt m.seq top k xs ys h.1)

-- what a scan has left after some messages
from_seq-after :
    (n top : ℕ) (m : Message) (xs ys : List Message)
    → Rises n top ((m ∷ xs) ++ ys)
    → from_seq (last_seq (m ∷ xs) + 1) ((m ∷ xs) ++ ys) ≡ ys
unfolding from_seq last_seq
from_seq-after n top m [] ys h = ground (arith, from_seq-all m.seq top (m.seq + 1) ys h.1)
from_seq-after n top m (k ∷ xs) ys h =
    ground (arith, last-gt m.seq top k xs ys h.1, from_seq-after m.seq top k xs ys h.1)

pub up_to_all : (evs : List Ev) → up_to 0 evs ≡ evs
unfolding up_to
up_to_all [] = refl
up_to_all (ev ∷ evs) = ap (λ (l : List Ev). ev ∷ l) (up_to_all evs)

stops_never : (evs : List Ev) → stops 0 evs ≡ false
unfolding stops
stops_never [] = refl
stops_never (ev ∷ evs) = stops_never evs

pub events-append : (xs ys : List Message) → events_of (xs ++ ys) ≡ events_of xs ++ events_of ys
unfolding events_of
events-append [] ys = refl
events-append (m ∷ xs) ys =
    ap (λ (l : List Ev). stamped m.seq (m.first ∷ m.rest) ++ l) (events-append xs ys)
    ∙ sym (append_assoc (stamped m.seq (m.first ∷ m.rest)) (events_of xs) (events_of ys))

-- The events are those of the next messages from a sequence on; a replica that lags has fewer.
abbrev pub AreNext : ℕ → List Message → Result (List Ev) → Type 0
AreNext from ms (ok evs) =
    (pre post : List Message) × (from_seq from ms ≡ pre ++ post) × (evs ≡ events_of pre)
AreNext from ms (err e) = Unit

first-ge :
    (f : ℕ) (ms : List Message) (m : Message) (xs : List Message)
    → from_seq f ms ≡ m ∷ xs
    → f ≤ m.seq
unfolding from_seq
first-ge f [] m xs h = absurd (cc)
first-ge f (n ∷ ms) m xs h = elim (Bool-cases (ltb n.seq f)) [
  | inl lt ↦ first-ge f ms m xs (ground (arith, lt, h))
  | inr ge ↦ ground (arith, ge, h)
]

last-ge :
    (n top : ℕ) (m : Message) (xs ys : List Message)
    → Rises n top ((m ∷ xs) ++ ys)
    → m.seq ≤ last_seq (m ∷ xs)
unfolding last_seq
last-ge n top m [] ys h = omega arith
last-ge n top m (k ∷ xs) ys h = omega (arith, last-gt m.seq top k xs ys h.1)

-- After a batch the scan goes on with what the batch left.
pub after_batch :
    (top from : ℕ) (M ms rest : List Message)
    → Rises 0 top M
    → from_seq from M ≡ ms ++ rest
    → from_seq (next_from from ms) M ≡ rest
unfolding next_from
after_batch top from M [] rest rising h = h
after_batch top from M (m ∷ xs) rest rising h =
    let rest-Rises : Rises 0 top ((m ∷ xs) ++ rest) =
      subst (Rises 0 top) h (Rises-from 0 top from M rising) in
    sym (
      from_seq_twice (last_seq (m ∷ xs) + 1) from M
        (omega (arith, first-ge from M m (xs ++ rest) h, last-ge 0 top m xs rest rest-Rises)))
    ∙ ap (from_seq (last_seq (m ∷ xs) + 1)) h
    ∙ from_seq-after 0 top m xs rest rest-Rises

more-AreNext :
    (from next : ℕ) (M ms rest : List Message) (stop : Bool) (r : Result (List Ev))
    → from_seq from M ≡ ms ++ rest
    → from_seq next M ≡ rest
    → AreNext next M r
    → AreNext from M (found_or_more stop (events_of ms) r)
more-AreNext from next M ms rest true r h k n = (ms, rest, h, refl)
more-AreNext from next M ms rest false (err e) h k n = tt
more-AreNext from next M ms rest false (ok evs) h k (pre, post, e, f) = (
  ms ++ pre,
  post,
  h ∙ ap (λ (l : List Message). ms ++ l) (sym k ∙ e) ∙ sym (append_assoc ms pre post),
  ap (λ (l : List Ev). events_of ms ++ l) f ∙ sym (events-append ms pre),
)

module _ (i : Infra) (honest : IsHonest i) (s : i.Server) (id : String) where
  batch-AreNext :
      (from : ℕ) (rest : ℕ → Result (List Ev)) (o : Option (List Message × Bool))
      → i.batch s id from ≡ o
      → ((next : ℕ) → AreNext next (i.messages s id) (rest next))
      → AreNext from (i.messages s id) (read_batch from 0 rest o)
  unfolding read_batch
  batch-AreNext from rest none h k = tt
  batch-AreNext from rest (some (ms, more)) h k =
      let (left, e) = honest.batch-next s id from h in
      rw (up_to_all (events_of ms), stops_never (events_of ms))
        (more-AreNext from (next_from from ms) _ ms left (not more) _ e
          (after_batch (i.top s) from _ ms left (honest.rising s id) e) (k (next_from from ms)))

  loop-AreNext : (fuel from : ℕ) → AreNext from (i.messages s id) (read_loop i fuel s id from 0)
  unfolding read_loop
  loop-AreNext zero from = tt
  loop-AreNext (suc fuel) from = batch-AreNext from _ (i.batch s id from) refl (loop-AreNext fuel)

  -- Reading to the end gives the events of the next messages, however the server cuts its batches.
  pub read-AreNext : (from : ℕ) → 1 ≤ from → AreNext from (i.messages s id) (read i s id from 0)
  unfolding read
  read-AreNext from h =
      subst
        (λ (n : ℕ).
          AreNext from (i.messages s id) (read_loop i (suc (length (i.messages s id))) s id n 0))
        (ground arith) (loop-AreNext (suc (length (i.messages s id))) from)
