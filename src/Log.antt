-- ===== src/Log.antt =====
-- internal/eventlog/eventlog.go: the log of an execution, one message of the events stream for each
-- decision. The server is not of the repository: it is a parameter (`Server`), with what it holds
-- (`messages`) and what it answers. The encoding of a body and its claim check stand with the
-- calls: publish takes the events, batch gives them back.
pub mod Scan
pub mod Returns
use packtrail.Prelude.{
  ℕ, zero, suc, ◌+◌, String, Bool, true, false, not, ◌||◌, ◌&&◌, Option, none, some, List, [], ◌∷◌,
  ◌++◌, ltb, leb, ◌==◌, if◌then◌else◌, length,
}
use packtrail.Outcome.{Err, io, out_of_fuel, conflict, Result, ok, err, ◌>>=◌}
use packtrail.Fold.State.{State, Ev}
use packtrail.Infra.{Message, Infra, Published, acked, wrong_last, failed, last_seq}

abbrev pub max_events : ℕ
max_events = 1000

-- decode: evs[i].Seq = seq
unfoldable pub stamped : ℕ → List Ev → List Ev
stamped seq [] = []
stamped seq (ev ∷ evs) = record ev { seq = seq } ∷ stamped seq evs

-- the events of messages, as a scan hands them on
unfoldable pub events_of : List Message → List Ev
unfolding stamped
events_of [] = []
events_of (m ∷ ms) = stamped m.seq (m.first ∷ m.rest) ++ events_of ms

-- the events in front of the first one past `to` (0: no end)
unfoldable pub up_to : ℕ → List Ev → List Ev
up_to to [] = []
up_to to (ev ∷ evs) = let rest = up_to to evs in if ltb 0 to && ltb to ev.seq then [] else ev ∷ rest

-- an event past `to` asks the scan to stop
unfoldable pub stops : ℕ → List Ev → Bool
stops to [] = false
stops to (ev ∷ evs) = (ltb 0 to && ltb to ev.seq) || stops to evs

-- next = seq + 1 of the last message of a batch
unfoldable pub next_from : ℕ → List Message → ℕ
unfolding last_seq
next_from from [] = from
next_from from (m ∷ ms) = last_seq (m ∷ ms) + 1

abbrev pub found_or_more : Bool → List Ev → Result (List Ev) → Result (List Ev)
found_or_more true found rest = ok found
found_or_more false found rest = rest >>= λ evs. ok (found ++ evs)

-- a round of the scan, with the rounds that follow from a sequence on
unfoldable pub read_batch :
    ℕ → ℕ → (ℕ → Result (List Ev)) → Option (List Message × Bool) → Result (List Ev)
unfolding up_to stops next_from events_of
read_batch from to rest none = err io
read_batch from to rest (some (ms, more)) =
    found_or_more (stops to (events_of ms) || not more) (up_to to (events_of ms))
      (rest (next_from from ms))

module _ (i : Infra) where
  open i use {Server, messages, batch, publish}

  -- scanSubject, with the function of Read
  unfoldable pub read_loop : ℕ → Server → String → ℕ → ℕ → Result (List Ev)
  unfolding read_batch
  read_loop zero s id from to = err out_of_fuel
  read_loop (suc fuel) s id from to =
      read_batch from to (λ next. read_loop fuel s id next to) (batch s id from)

  -- Read: a batch that has more to come holds a message, so there are no more rounds than messages
  unfoldable pub read : Server → String → ℕ → ℕ → Result (List Ev)
  unfolding read_loop
  read s id from to =
      read_loop (suc (length (messages s id))) s id (if from == 0 then 1 else from) to

  -- Append: the sequence of the message, or the error, and the server after it
  unfoldable pub append : Server → String → ℕ → List Ev → Published Server
  append s id expected [] = acked expected s
  append s id expected (ev ∷ evs) =
      if ltb max_events (length (ev ∷ evs)) then failed s else publish s id expected ev evs
