-- ===== src/Infra.antt =====
-- What the engine takes from outside the repository: the NATS server with its streams and buckets,
-- the registered flows and the clock, as a record of what they answer. `IsHonest` is the behaviour
-- that the code relies on.
use packtrail.Prelude.{
  ℕ, ◌≤◌, ◌<◌, ◌≡◌, ◌≢◌, ◌⊎◌, String, Bool, true, Option, some, List, [], ◌∷◌, ◌++◌, ltb,
  if◌then◌else◌,
}
use packtrail.Outcome.{Result, ok}
use packtrail.Flow.{Flow}
use packtrail.Fold.State.{State, Ev}

-- a message of an execution's subject: one decision, which has an event
pub record Message : Type 0 where
  pub seq : ℕ
  pub first : Ev
  pub rest : List Ev

-- what a publish with an expected sequence comes to, and the server after it
pub data Published (S : Type 0) : Type 0 where
  acked : ℕ → S → Published S
  -- JSStreamWrongLastSequenceErr
  wrong_last : S → Published S
  -- any other error: the message may be stored all the same
  failed : S → Published S

pub record Infra : Type 1 where
  pub Server : Type 0
  -- the messages of an execution's subject, in their order
  pub messages : Server → String → List Message
  -- the last sequence that the stream gave out
  pub top : Server → ℕ
  -- a batched direct get from a sequence: the messages, and whether more remain
  pub batch : Server → String → ℕ → Option (List Message × Bool)
  -- the sequence of the first message of the subject (FirstSeq), `none` where the call fails
  pub first_seq : Server → String → Option ℕ
  pub publish : Server → String → ℕ → Ev → List Ev → Published Server
  -- the state that was saved as a snapshot, where it can be read; the loader decodes it
  pub snapshot : Server → String → Option State
  -- an object of the archive store
  pub archived : Server → String → Result (List Ev)
  -- whether the archive store has an object (IsArchived)
  pub is_archived : Server → String → Result Bool
  -- the definition of a version; the empty text is the latest. The registry is fixed: a version
  -- never changes, and which one is the latest does not change while an execution is looked at.
  pub flow_version : String → String → Result Flow

-- the messages from a sequence on
unfoldable pub from_seq : ℕ → List Message → List Message
from_seq n [] = []
from_seq n (m ∷ ms) = let rest = from_seq n ms in if ltb m.seq n then rest else m ∷ rest

-- the sequence of the last message, 0 if there is none
unfoldable pub last_seq : List Message → ℕ
last_seq [] = 0
last_seq (m ∷ []) = m.seq
last_seq (m ∷ n ∷ ms) = last_seq (n ∷ ms)

-- sequences rise, from above `n` up to `top`
abbrev pub Rises : ℕ → ℕ → List Message → Type 0
Rises n top [] = n ≤ top
Rises n top (m ∷ ms) = (n < m.seq) × Rises m.seq top ms

-- A message is stored after the last one of its subject, whose sequence was expected.
pub record Stored (i : Infra) (s s' : i.Server) (id : String) (q : ℕ) (ev : Ev) (evs : List Ev)
    : Type 0 where
  pub next : i.top s < q
  pub is_top : i.top s' ≡ q
  pub added : i.messages s' id ≡ i.messages s id ++ record { seq = q; first = ev; rest = evs } ∷ []
  pub others : (j : String) → j ≢ id → i.messages s' j ≡ i.messages s j

-- Nothing is stored.
pub record Unchanged (i : Infra) (s s' : i.Server) : Type 0 where
  pub same_top : i.top s' ≡ i.top s
  pub same : (j : String) → i.messages s' j ≡ i.messages s j

-- The behaviour of the server that is relied on.
pub record IsHonest (i : Infra) : Type 0 where
  pub rising : (s : i.Server) (id : String) → Rises 0 (i.top s) (i.messages s id)
  -- A batch holds the next messages. A replica may lag: there may be more than it says.
  pub batch-next :
      (s : i.Server) (id : String) (from : ℕ) {ms : List Message} {more : Bool}
      → i.batch s id from ≡ some (ms, more)
      → (rest : List Message) × (from_seq from (i.messages s id) ≡ ms ++ rest)
  -- A batch that has more to come is not empty.
  pub batch-more :
      (s : i.Server) (id : String) (from : ℕ) {ms : List Message}
      → i.batch s id from ≡ some (ms, true)
      → ms ≢ []
  -- An acknowledged message follows the one that was expected to be the last.
  pub publish-acked :
      (s : i.Server) (id : String) (expected : ℕ) (ev : Ev) (evs : List Ev) {q : ℕ} {s' : i.Server}
      → i.publish s id expected ev evs ≡ acked q s'
      → (expected ≡ last_seq (i.messages s id)) × Stored i s s' id q ev evs
  pub publish-wrong :
      (s : i.Server) (id : String) (expected : ℕ) (ev : Ev) (evs : List Ev) {s' : i.Server}
      → i.publish s id expected ev evs ≡ wrong_last s'
      → Unchanged i s s'
  -- Where the answer is lost, the message is stored or not.
  pub publish-failed :
      (s : i.Server) (id : String) (expected : ℕ) (ev : Ev) (evs : List Ev) {s' : i.Server}
      → i.publish s id expected ev evs ≡ failed s'
      → Unchanged i s s'
        ⊎ ((q : ℕ) × (expected ≡ last_seq (i.messages s id)) × Stored i s s' id q ev evs)
  -- A version that is found is found under its own name and hash.
  pub version-kept :
      (name version : String) {def : Flow}
      → i.flow_version name version ≡ ok def
      → i.flow_version def.name def.hash ≡ ok def
