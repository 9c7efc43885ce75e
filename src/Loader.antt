-- ===== src/Loader.antt =====
-- internal/loader/loader.go: the state of an execution from its log, a snapshot and the archive. One
-- load reads one server: nothing is written between its calls.
pub mod Reference
pub mod Fresh
pub mod Appended
pub mod Snapshots
use packtrail.Prelude.{
  ℕ, ◌+◌, String, Bool, true, false, not, ◌&&◌, Option, none, some, List, [], ◌∷◌, ◌++◌, ltb, leb,
  ◌==◌, if◌then◌else◌,
}
use packtrail.Outcome.{io, not_archived, Result, ok, err, ◌>>=◌}
use packtrail.Platform.{Platform}
use packtrail.Event.{Payload, Segment, started, forked, continued}
use packtrail.Flow.{Flow}
use packtrail.Fold.State.{State, Ev, new, recode}
use packtrail.Fold.Apply.{apply}
use packtrail.Fold.Placed.{placed}
use packtrail.Infra.{Infra}
use packtrail.Log.{read}

-- statecache.Entry
pub record Entry : Type 0 where
  pub st : State
  pub def : Option Flow

-- an event that a state can be folded from without what precedes it
unfoldable pub is_base : Payload State → Bool
is_base (started _) = true
is_base (forked _ _ _ _) = true
is_base (continued _ _) = true
is_base _ = false

-- the events from a later one that is looked for, or these if the first one is it
abbrev pub or_these : Bool → List Ev → Option (List Ev) → Option (List Ev)
or_these found evs (some l) = some l
or_these found evs none = if found then some evs else none

-- evs[lastBase(evs):], if there is one
unfoldable pub since_base : List Ev → Option (List Ev)
since_base [] = none
since_base (ev ∷ evs) = or_these (is_base ev.payload) (ev ∷ evs) (since_base evs)

unfoldable pub is_continued : Payload State → Bool
is_continued (continued _ _) = true
is_continued _ = false

-- evs[last:] of withSegments
unfoldable pub since_continued : List Ev → Option (List Ev)
since_continued [] = none
since_continued (ev ∷ evs) = or_these (is_continued ev.payload) (ev ∷ evs) (since_continued evs)

-- the loop of Load
unfoldable pub fold_events : Platform → Option Flow → State → List Ev → Result State
fold_events p def st [] = ok st
fold_events p def st (ev ∷ evs) = do t ← apply p def st ev; fold_events p def (placed ev.seq t) evs

-- the loop of foldUpTo (0: no end)
unfoldable pub fold_to : Platform → Option Flow → ℕ → State → List Ev → Result State
fold_to p def to st [] = ok st
fold_to p def to st (ev ∷ evs) =
    let rest = apply p def st ev >>= λ t. fold_to p def to (placed ev.seq t) evs in
    if ltb 0 to && ltb to ev.seq then ok st else rest

module _ (p : Platform) (i : Infra) where
  open i use {Server, first_seq, snapshot, archived, flow_version}

  -- DefOf
  unfoldable pub def_of : Payload State → Result Flow
  def_of (started e) = flow_version e.flow e.flow_hash
  def_of (forked _ _ _ src) = flow_version src.flow src.flow_hash
  def_of (continued src _) = flow_version src.flow src.flow_hash
  def_of _ = err io

  -- foldUpTo
  unfoldable pub fold_up_to : String → List Ev → ℕ → Result Entry
  unfolding def_of fold_to
  fold_up_to id [] to = ok (record { st = new id; def = none })
  fold_up_to id (ev ∷ evs) to = do
    def ← def_of ev.payload
    st ← fold_to p (some def) to (new id) (ev ∷ evs)
    ok (record { st = st; def = some def })

  unfoldable pub segment_events : Server → List Segment → Result (List Ev)
  segment_events s [] = ok []
  segment_events s (seg ∷ segs) = do
    part ← archived s seg.object
    rest ← segment_events s segs
    ok (part ++ rest)

  unfoldable pub behind_segments : Server → List Ev → Payload State → Result (List Ev)
  unfolding segment_events
  behind_segments s evs (continued st _) = do
    parts ← segment_events s st.segments
    ok (parts ++ evs)
  behind_segments s evs _ = err io

  unfoldable pub segments_before : Server → List Ev → Option (List Ev) → Result (List Ev)
  unfolding behind_segments
  segments_before s evs (some (ev ∷ rest)) = behind_segments s (ev ∷ rest) ev.payload
  segments_before s evs _ = ok evs

  -- withSegments
  unfoldable pub with_segments : Server → List Ev → Result (List Ev)
  unfolding since_continued segments_before
  with_segments s evs = segments_before s evs (since_continued evs)

  unfoldable pub from_live : Server → String → ℕ → List Ev → Result Entry
  unfolding with_segments fold_up_to
  from_live s id to [] = ok (record { st = new id; def = none })
  from_live s id to (ev ∷ evs) = do all ← with_segments s (ev ∷ evs); fold_up_to id all to

  -- loadFromHistory
  unfoldable pub load_from_history : Server → String → ℕ → Result Entry
  unfolding from_live
  load_from_history s id to = do live ← read i s id 1 0; from_live s id to live

  -- snapshotFor, and the decoding of what was saved (snapshot.Load)
  unfoldable pub snapshot_for : Server → String → ℕ → Option State
  snapshot_for s id to = elim (snapshot s id) [
    | none ↦ none
    | some st ↦ if ltb 0 to && ltb to st.last_seq then none else some (recode st)
  ]

  unfoldable pub covers : Option ℕ → State → Bool
  covers none st = false
  covers (some first) st = not (first == 0) && leb first st.last_seq

  -- continues
  unfoldable pub continues : Server → String → State → List Ev → Bool
  unfolding covers
  continues s id st [] = covers (first_seq s id) st
  continues s id st (ev ∷ evs) =
      if not (ev.index == 0) then ev.index == st.events + 1 else covers (first_seq s id) st

  -- evs, folded from the last event that bases a state
  unfoldable pub fold_base : String → List Ev → Result Entry
  unfolding def_of fold_events
  fold_base id [] = err io
  fold_base id (ev ∷ evs) = do
    def ← def_of ev.payload
    st ← fold_events p (some def) (new id) (ev ∷ evs)
    ok (record { st = st; def = some def })

  -- evs, folded after a snapshot
  unfoldable pub fold_after : State → List Ev → Result Entry
  unfolding fold_events
  fold_after st evs = do
    def ← flow_version st.flow st.flow_hash
    t ← fold_events p (some def) st evs
    ok (record { st = t; def = some def })

  -- from the last base, or as it is without one
  abbrev pub base_or : (List Ev → Result Entry) → Result Entry → Option (List Ev) → Result Entry
  base_or f without (some l) = f l
  base_or f without none = without

  unfoldable pub fold_found : Server → String → ℕ → Option State → List Ev → Result Entry
  unfolding since_base fold_base fold_after load_from_history
  fold_found s id to none [] =
      if ltb 0 to then load_from_history s id to else ok (record { st = new id; def = none })
  fold_found s id to none (ev ∷ evs) =
      base_or (fold_base id) (load_from_history s id to) (since_base (ev ∷ evs))
  fold_found s id to (some st) evs = base_or (fold_base id) (fold_after st evs) (since_base evs)

  unfoldable pub load_after : Server → String → ℕ → Option State → Result Entry
  unfolding fold_found continues
  load_after s id to none = do evs ← read i s id 1 to; fold_found s id to none evs
  load_after s id to (some st) = do
    evs ← read i s id (st.last_seq + 1) to
    if continues s id st evs
        then fold_found s id to (some st) evs
        else (do all ← read i s id 1 to; fold_found s id to none all)

  -- Load (0: everything)
  unfoldable pub load : Server → String → ℕ → Result Entry
  unfolding load_after snapshot_for
  load s id to = load_after s id to (snapshot_for s id to)

  unfoldable pub from_archive : Server → String → ℕ → List Ev → Result Entry
  unfolding with_segments fold_up_to
  from_archive s id to [] = err not_archived
  from_archive s id to (ev ∷ evs) =
      if ltb 0 to && ltb to ev.seq
      then (do all ← with_segments s (ev ∷ evs); fold_up_to id all to)
      else fold_up_to id (ev ∷ evs) to

  -- LoadArchived
  unfoldable pub load_archived : Server → String → ℕ → Result Entry
  unfolding from_archive
  load_archived s id to = do evs ← archived s id; from_archive s id to evs

  unfoldable pub live_or_archived : Server → String → List Ev → Result (List Ev)
  live_or_archived s id [] = archived s id
  live_or_archived s id (ev ∷ evs) = ok (ev ∷ evs)

  -- History
  unfoldable pub history : Server → String → Result (List Ev)
  unfolding with_segments live_or_archived
  history s id = do live ← read i s id 1 0; evs ← live_or_archived s id live; with_segments s evs
