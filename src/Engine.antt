-- ===== src/Engine.antt =====
-- internal/engine/engine.go: the decision on a command and its append. The world of an engine is
-- the server and the engine's cache of states. What other engines do to the server between a
-- load and the append that follows it is a parameter, as are the clock, the choice of what the cache
-- evicts, and what a panic leaves of a state that is changed in place. The trace that the events are stamped with, the metrics and the log of the process
-- are left out.
pub mod Decided
pub mod Serial
pub mod Rounds
pub mod Delivery
mod Memory
mod Tests
use packtrail.Prelude.{
  ℕ, zero, suc, ◌+◌, ◌-◌, String, Bool, true, false, not, ◌&&◌, Option, none, some, List, [], ◌∷◌,
  ltb, leb, if◌then◌else◌, length,
}
use packtrail.GoMap.{Map, get, put}
use packtrail.Outcome.{
  Err, not_found, invalid, not_archived, panic, io, Result, ok, err, ◌>>=◌, ◌>>◌,
}
use packtrail.Platform.{Platform, ◌⧺◌, itoa}
use packtrail.Event.{Reason}
use packtrail.Flow.{Flow}
use packtrail.Cmd.{StartData, ForkData, Request, Command, Order, Envelope, type_name}
use packtrail.Fold.State.{State, Ev, exists}
use packtrail.Fold.Placed.{placed}
use packtrail.Fold.Decide
use packtrail.Fold.Decide.{check_join}
use packtrail.Fold.Decide.Fork
use packtrail.Fold.Decide.Fork.{abort}
use packtrail.Fold.Decide.Monad.{Work}
use packtrail.StateCache.{Cache, lookup, store, drop}
use packtrail.Infra.{Infra, Published, acked, wrong_last, failed}
use packtrail.Log.{append}
use packtrail.Loader.{Entry, def_of, load, load_archived}

-- what a decision gives: the entry, whose state the decision changed, and the events
pub record Decision : Type 0 where
  pub ent : Entry
  pub evs : List Ev

abbrev pub settled : Flow → Result (Unit {0} × Work) → Result Decision
settled def (ok (u, w)) = ok (record { ent = record { st = w.st; def = some def }; evs = w.out })
settled def (err e) = err e

-- no event: the state stays, and the definition is gone from the copy of the entry
abbrev pub nothing_decided : State → Result (Unit {0}) → Result Decision
nothing_decided st (ok u) = ok (record { ent = record { st = st; def = none }; evs = [] })
nothing_decided st (err e) = err e

abbrev pub folded_command : Envelope → Request → Command
folded_command c r = record { id = c.id; request = r }

module _ (p : Platform) (i : Infra) where
  open i use {Server, flow_version, is_archived}

  unfoldable pub start_new : Server → Envelope → StartData → Entry → ℕ → Bool → Result Decision
  start_new s c d ent now true = do
    old ← load_archived p i s c.exec_id 0
    nothing_decided ent.st (check_join old.st d.flow)
  start_new s c d ent now false = do
    def ← flow_version d.flow d.version
    settled def (Decide.decide p def ent.st (folded_command c (Request.start d)) now)

  -- decideStart
  unfoldable pub decide_start : Server → Envelope → StartData → Entry → ℕ → Result Decision
  unfolding start_new
  decide_start s c d ent now =
      let unseen = is_archived s c.exec_id >>= λ old. start_new s c d ent now old in
      if exists ent.st then nothing_decided ent.st (check_join ent.st d.flow) else unseen

  -- where the source of a fork is: live, or in the archive
  unfoldable pub fork_source : Server → ForkData → Result Entry → Result Entry
  fork_source s d (ok src) =
      let old = load_archived p i s d.from d.seq in if exists src.st then ok src else old
  fork_source s d (err e) = err e

  -- a source that does not exist is an invalid command
  unfoldable pub without_source : Result Entry → Result Entry
  without_source (err Err.not_archived) = err invalid
  without_source r = r

  unfoldable pub fork_from : Envelope → ForkData → Entry → ℕ → Entry → Result Decision
  fork_from c d ent now src = elim src.def [
    | none ↦ err panic
    | some def ↦ settled def (
        Fork.decide_fork p def ent.st src.st d.from d.seq (folded_command c Request.not_folded)
          d.writes now)
  ]

  -- decideFork
  unfoldable pub decide_fork : Server → Envelope → ForkData → Entry → ℕ → Result Decision
  unfolding fork_source without_source fork_from
  decide_fork s c d ent now =
      let forked = without_source (fork_source s d (load p i s d.from d.seq)) >>= λ src.
      fork_from c d ent now src in
      if exists ent.st then nothing_decided ent.st (ok tt) else forked

  -- fold.Decide on an entry: without a definition there is no execution
  unfoldable pub decide_folded : Envelope → Request → Entry → ℕ → Result Decision
  decide_folded c r ent now = elim ent.def [
    | none ↦ err not_found
    | some def ↦ settled def (Decide.decide p def ent.st (folded_command c r) now)
  ]

  -- the `switch` of decide
  unfoldable pub decide_on : Server → Envelope → Order → Entry → ℕ → Result Decision
  unfolding decide_start decide_fork decide_folded
  decide_on s c (Order.fold (Request.start d)) ent now = decide_start s c d ent now
  decide_on s c (Order.fold Request.undecodable_start) ent now = err invalid
  decide_on s c (Order.fork d) ent now = decide_fork s c d ent now
  decide_on s c Order.undecodable_fork ent now =
      if exists ent.st then nothing_decided ent.st (ok tt) else err invalid
  decide_on s c (Order.fold r) ent now = decide_folded c r ent now
  decide_on s c _ ent now = decide_folded c Request.not_folded ent now

  too_large : Envelope → ℕ → ℕ → String
  too_large c n max =
      "command "
      ⧺ c.id
      ⧺ " ("
      ⧺ type_name c.order
      ⧺ ") produced "
      ⧺ itoa n
      ⧺ " events, more than the "
      ⧺ itoa max
      ⧺ " a decision may append"

  unfoldable pub abort_by :
      Option Flow → State → Option Ev → Envelope → String → ℕ → Result Decision
  abort_by none st first c msg now = err panic
  abort_by (some def) st first c msg now = settled def (
      abort p def st (elim first [ none ↦ none | some ev ↦ some ev.payload ])
        (folded_command c Request.not_folded) Reason.decision_too_large msg now)

  -- the definition of a new execution: the entry's, or that of its first event
  unfoldable pub first_def : Option Flow → Ev → Result Flow
  first_def (some def) ev = ok def
  first_def none ev = def_of p i ev.payload

  unfoldable pub abort_new : Envelope → List Ev → Entry → String → ℕ → Result Decision
  unfolding abort_by first_def
  abort_new c [] ent msg now = abort_by ent.def ent.st none c msg now
  abort_new c (ev ∷ evs) ent msg now = do
    def ← first_def ent.def ev
    abort_by (some def) ent.st (some ev) c msg now

  -- abortTooLarge, once the state is loaded again
  unfoldable pub abort_too_large : Envelope → List Ev → Entry → ℕ → ℕ → Result Decision
  unfolding abort_new too_large
  abort_too_large c evs ent max now =
      let msg = too_large c (length evs) max in
      if exists ent.st then abort_by ent.def ent.st none c msg now else abort_new c evs ent msg now

-- (*Engine).maxEvents, of Engine.MaxEvents
unfoldable pub max_of : ℕ → ℕ
max_of zero = packtrail.Log.max_events
max_of (suc n) = suc n

-- an engine: the limit of a decision, what the cache evicts, the clock by the round of a command,
-- what a decision that panics half way leaves of the state that it changes in place, and what others do to the server in a round, before the load and between it and the append
pub record Engine (i : Infra) : Type 0 where
  pub max_events : ℕ
  pub evict : Map Entry → String
  pub clock : ℕ → ℕ
  pub torn : State → State
  pub before_load : ℕ → i.Server → i.Server
  pub before_append : ℕ → i.Server → i.Server

-- the server, and the cache of the engine
pub record World (i : Infra) : Type 0 where
  pub server : i.Server
  pub cache : Cache Entry

-- A cached state is changed in place by a decision on it; the cache keeps its definition.
unfoldable pub shared : Cache Entry → String → State → Cache Entry
shared cache id st = elim (get cache.m id) [
  | none ↦ cache
  | some e ↦ record cache { m = put cache.m id (record e { st = st }) }
]

-- what a round comes to: the command ended, or another engine wrote first
pub data Round : Type 0 where
  -- the sequence, and the entry and its count of events before, of a decision that was appended
  stored : ℕ → Entry → ℕ → Round
  -- no event: the sequence of the last decision
  no_op : ℕ → Round
  conflicted : Round
  ended : Err → Round

module _ (p : Platform) (i : Infra) (e : Engine i) where
  -- (*Engine).load
  unfoldable pub load_entry : World i → String → Result Entry
  load_entry w id =
      let loaded = load p i w.server id 0 in
      elim (lookup w.cache id) [ some ent ↦ ok ent | none ↦ loaded ]

  unfoldable pub dropped : World i → String → World i
  dropped w id = record w { cache = drop w.cache id }

  -- after an error of the load: a panic leaves apply before the cache is changed
  unfoldable pub after_load_error : World i → String → Err → World i
  unfolding dropped
  after_load_error w id panic = w
  after_load_error w id x = dropped w id

  unfoldable pub torn_cache : Cache Entry → String → Cache Entry
  torn_cache cache id = elim (get cache.m id) [
    | none ↦ cache
    | some x ↦ record cache { m = put cache.m id (record x { st = e.torn x.st }) }
  ]

  -- after an error of the decision: a panic leaves the cached state in place, as far as it got
  unfoldable pub after_decision_error : World i → String → Err → World i
  unfolding dropped torn_cache
  after_decision_error w id panic = record w { cache = torn_cache w.cache id }
  after_decision_error w id x = dropped w id

  -- fitDecision: an abort loads the state again, without the cache
  unfoldable pub fit_decision : World i → Envelope → Decision → ℕ → Result Decision
  fit_decision w c d now =
      let aborted = load p i w.server c.exec_id 0 >>= λ ent.
      abort_too_large p i c d.evs ent (max_of e.max_events) now in
      if ltb (max_of e.max_events) (length d.evs) then aborted else ok d

  -- the cache after fitDecision
  unfoldable pub fitted_cache : World i → Envelope → Decision → Cache Entry
  fitted_cache w c d =
      if ltb (max_of e.max_events) (length d.evs)
      then drop w.cache c.exec_id
      else shared w.cache c.exec_id d.ent.st

  -- ent.State.LastSeq = last; e.Cache.Put
  unfoldable pub appended : Cache Entry → String → Decision → Published i.Server → World i × Round
  appended cache id d (acked q s) =
      let ent = record d.ent { st = placed q d.ent.st } in
      (
        record { server = s; cache = store e.evict cache id ent },
        stored q ent (d.ent.st.events - length d.evs),
      )
  appended cache id d (wrong_last s) = (record { server = s; cache = drop cache id }, conflicted)
  appended cache id d (failed s) = (record { server = s; cache = drop cache id }, ended io)

  unfoldable pub append_fitted :
      World i → ℕ → Envelope → Cache Entry → ℕ → Result Decision → World i × Round
  unfolding appended
  append_fitted w k c cache expected (err x) = (record w { cache = cache }, ended x)
  append_fitted w k c cache expected (ok d) =
      appended cache c.exec_id d (append i (e.before_append k w.server) c.exec_id expected d.evs)

  unfoldable pub decided_events : World i → ℕ → Envelope → ℕ → Decision → List Ev → World i × Round
  unfolding append_fitted
  decided_events w k c expected d [] =
      (record w { cache = shared w.cache c.exec_id d.ent.st }, no_op expected)
  decided_events w k c expected d (ev ∷ evs) =
      append_fitted w k c (fitted_cache w c d) expected (fit_decision w c d (e.clock k))

  unfoldable pub decided : World i → ℕ → Envelope → ℕ → Result Decision → World i × Round
  unfolding after_decision_error decided_events
  decided w k c expected (err x) = (after_decision_error w c.exec_id x, ended x)
  decided w k c expected (ok d) = decided_events w k c expected d d.evs

  -- decide
  unfoldable pub decide_entry : World i → ℕ → Envelope → Result Entry → World i × Round
  unfolding after_load_error decided
  decide_entry w k c (err x) = (after_load_error w c.exec_id x, ended x)
  decide_entry w k c (ok ent) =
      decided w k c ent.st.last_seq (decide_on p i w.server c c.order ent (e.clock k))

  -- a round of apply
  unfoldable pub round : World i → ℕ → Envelope → World i × Round
  unfolding decide_entry load_entry
  round w k c =
      let w' = record w { server = e.before_load k w.server } in
      decide_entry w' k c (load_entry w' c.exec_id)

  -- a conflict goes on to the rest
  unfoldable pub unless_conflicted : World i × Round → World i × Round → World i × Round
  unless_conflicted (w, conflicted) rest = rest
  unless_conflicted (w, r) rest = (w, r)

  -- the loop of apply, from round k on
  unfoldable pub rounds : ℕ → ℕ → World i → Envelope → World i × Round
  unfolding round unless_conflicted
  rounds zero k w c = (w, conflicted)
  rounds (suc n) k w c =
      let rest = rounds n (suc k) (round w k c).0 c in unless_conflicted (round w k c) rest

abbrev pub max_conflicts : ℕ
max_conflicts = 8
