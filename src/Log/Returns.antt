-- ===== src/Log/Returns.antt =====
-- internal/eventlog/eventlog.go: the rounds of a scan end.
use packtrail.Prelude.{
  ℕ, zero, suc, ◌≤◌, ◌<◌, ◌≡◌, ◌≢◌, refl, String, Bool, true, false, ◌||◌, Option, none, some, List,
  [], ◌∷◌, ◌++◌, arith, if◌then◌else◌, ◌==◌, length,
}
use packtrail.Outcome.{out_of_fuel, Result, ok, err}
use packtrail.Fold.State.{Ev}
use packtrail.Infra.{Message, Infra, IsHonest, from_seq}
use packtrail.Log.{found_or_more, read_batch, events_of, up_to, stops, next_from, read_loop, read}
use packtrail.Log.Scan.{after_batch}

abbrev Ends : Result (List Ev) → Type 0
Ends r = r ≢ err out_of_fuel

from_seq-length : (f : ℕ) (ms : List Message) → length (from_seq f ms) ≤ length ms
unfolding from_seq
from_seq-length f [] = omega arith
from_seq-length f (m ∷ ms) = ground (arith, from_seq-length f ms)

-- a batch that is not empty leaves fewer messages
fewer_left : (ms left : List Message) → ms ≢ [] → length left < length (ms ++ left)
fewer_left [] left h = absurd (h refl)
fewer_left (m ∷ ms) left h = omega (arith, no_more ms left)
  where
    no_more : (ms left : List Message) → length left ≤ length (ms ++ left)
    no_more [] left = omega arith
    no_more (m ∷ ms) left = omega (arith, no_more ms left)

more-Ends :
    (stop : Bool) (found : List Ev) (r : Result (List Ev))
    → Ends r
    → Ends (found_or_more stop found r)
more-Ends true found r ends h = cc
more-Ends false found (ok evs) ends h = cc
more-Ends false found (err e) ends h = ends h

-- the server has nothing more to come
last-Ends :
    (stop : Bool) (found : List Ev) (r : Result (List Ev))
    → Ends (found_or_more (stop || true) found r)
last-Ends true found r h = cc
last-Ends false found r h = cc

module _ (i : Infra) (honest : IsHonest i) (s : i.Server) (id : String) (to : ℕ) where
  batch-Ends :
      (from : ℕ) (rest : ℕ → Result (List Ev)) (o : Option (List Message × Bool))
      → i.batch s id from ≡ o
      → ((next : ℕ)
          → length (from_seq next (i.messages s id)) < length (from_seq from (i.messages s id))
          → Ends (rest next))
      → Ends (read_batch from to rest o)
  unfolding read_batch
  batch-Ends from rest none h ends = λ e. cc
  batch-Ends from rest (some (ms, false)) h ends =
      last-Ends (stops to (events_of ms)) (up_to to (events_of ms)) (rest (next_from from ms))
  batch-Ends from rest (some (ms, true)) h ends =
      let (left, e) = honest.batch-next s id from h in
      let goes_on = after_batch (i.top s) from (i.messages s id) ms left (honest.rising s id) e in
      let shorter : length (from_seq (next_from from ms) (i.messages s id))
          < length (from_seq from (i.messages s id)) =
        rw (goes_on, e) (fewer_left ms left (honest.batch-more s id from h)) in
      more-Ends (stops to (events_of ms) || false) (up_to to (events_of ms))
        (rest (next_from from ms)) (ends (next_from from ms) shorter)

  loop-Ends :
      (fuel from : ℕ)
      → length (from_seq from (i.messages s id)) < fuel
      → Ends (read_loop i fuel s id from to)
  unfolding read_loop
  loop-Ends zero from lt = absurd (omega (arith, lt))
  loop-Ends (suc fuel) from lt =
      batch-Ends from _ (i.batch s id from) refl
        (λ next shorter. loop-Ends fuel next (omega (arith, lt, shorter)))

-- Reading a log ends, up to whatever sequence and however the server cuts its batches: each round
-- has a batch that is the last one, holds an event behind the end, or leaves fewer messages, so the
-- rounds, one more than there are messages, are not used up.
pub read_returns :
    (i : Infra) (s : i.Server) (id : String) (from to : ℕ)
    → IsHonest i
    → read i s id from to ≢ err out_of_fuel
unfolding read
read_returns i s id from to honest =
    loop-Ends i honest s id to (suc (length (i.messages s id))) (if from == 0 then 1 else from)
      (omega (arith, from_seq-length (if from == 0 then 1 else from) (i.messages s id)))
