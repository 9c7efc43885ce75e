-- ===== src/Engine/Rounds.antt =====
-- internal/engine/engine.go, apply: the rounds of a command.
use packtrail.Prelude.{
  ℕ, zero, suc, ◌≤◌, ◌≡◌, refl, ap, subst, String, none, some, ◌∙◌, arith, length, Option-cases,
  inl, inr,
}
use packtrail.Outcome.{ok, ok_inj}
use packtrail.Platform.{Platform}
use packtrail.Fold.State.{State, recode}
use packtrail.Cmd.{Envelope}
use packtrail.StateCache.{lookup}
use packtrail.Infra.{Infra, IsHonest}
use packtrail.Loader.{Entry}
use packtrail.Loader.Fresh.{Current}
use packtrail.Loader.Snapshots.{Fits, loaded-Current}
use packtrail.Engine.{
  Decision, decide_on, max_of, Engine, World, Round, stored, no_op, conflicted, ended, load_entry,
  round, rounds, max_conflicts, unless_conflicted,
}
use packtrail.Engine.Decided.{IsUnforked}
use packtrail.Engine.Serial.{
  Evolves, Current-Evolves, IsSerial, entry-Serial, HasDropped, round-HasDropped,
}

-- What others do meanwhile, and what is cached and saved, as an engine may rely on.
pub record Relies (p : Platform) (i : Infra) (e : Engine i) (id : String) : Type 0 where
  pub loads : (k : ℕ) (s : i.Server) → Evolves p i id s (e.before_load k s)
  pub appends : (k : ℕ) (s : i.Server) → Evolves p i id s (e.before_append k s)
  pub snapshots :
      (s : i.Server) (st : State)
      → i.snapshot s id ≡ some st
      → Fits p i id (i.top s) (i.messages s id) (recode st)

-- the cached state of an execution is current
abbrev pub IsCoherent : Platform → (i : Infra) → World i → String → Type 0
IsCoherent p i w id =
    (ent : Entry)
    → lookup w.cache id ≡ some ent
    → Current p i id (i.top w.server) (i.messages w.server id) ent

-- the server, when a round of the command loads and decides
abbrev pub at_load : (i : Infra) → Engine i → ℕ → World i → World i
at_load i e k w = record w { server = e.before_load k w.server }

-- the decision of a round is not over the engine's limit
abbrev pub IsWithin : Platform → (i : Infra) → Engine i → ℕ → World i → Envelope → Type 0
IsWithin p i e k w c =
    (ent : Entry) (d : Decision)
    → load_entry p i e (at_load i e k w) c.exec_id ≡ ok ent
    → decide_on p i (at_load i e k w).server c c.order ent (e.clock k) ≡ ok d
    → length d.evs ≤ max_of e.max_events

-- in this run, no decision is over the engine's limit
abbrev pub AreWithin : Platform → (i : Infra) → Engine i → ℕ → ℕ → World i → Envelope → Type 0
AreWithin p i e zero k w c = Unit
AreWithin p i e (suc n) k w c =
    IsWithin p i e k w c
    × ((round p i e w k c).1 ≡ conflicted → AreWithin p i e n (suc k) (round p i e w k c).0 c)

module _ (p : Platform) (i : Infra) (honest : IsHonest i) (e : Engine i) (c : Envelope)
    (relies : Relies p i e c.exec_id) (plain : IsUnforked c.order) where
  entry-Current :
      (w : World i) {ent : Entry}
      → IsCoherent p i w c.exec_id
      → load_entry p i e w c.exec_id ≡ ok ent
      → Current p i c.exec_id (i.top w.server) (i.messages w.server c.exec_id) ent
  unfolding load_entry
  entry-Current w {ent} coherent h = elim (Option-cases (lookup w.cache c.exec_id)) [
    | inl none_cached ↦
        loaded-Current p i w.server c.exec_id honest (relies.snapshots w.server)
          (ground (arith, none_cached, h))
    | inr (x, hit) ↦
        subst (Current p i c.exec_id (i.top w.server) (i.messages w.server c.exec_id))
          (ok_inj (ground (arith, hit, h))) (coherent x hit)
  ]

  round-Serial :
      (k : ℕ) (w w' : World i) (q before : ℕ) (ent' : Entry)
      → IsCoherent p i w c.exec_id
      → IsWithin p i e k w c
      → round p i e w k c ≡ (w', stored q ent' before)
      → IsSerial p i e k c
          (e.before_load k w.server)
          (e.before_append k (e.before_load k w.server))
          w'
          q
          ent'
  unfolding round
  round-Serial k w w' q before ent' coherent within h =
      let w1 : World i = record w { server = e.before_load k w.server } in
      let coherent1 : IsCoherent p i w1 c.exec_id = λ ent hit.
        Current-Evolves p i c.exec_id w.server w1.server ent (relies.loads k w.server)
          (coherent ent hit) in
      entry-Serial p i honest e k c w' q before ent' plain w1 (load_entry p i e w1 c.exec_id) within
        (relies.appends k w1.server) (λ ent found. entry-Current w1 coherent1 found) h

  -- some round appended the decision
  abbrev Appended : World i → ℕ → Entry → Type 0
  Appended w' q ent' = (k : ℕ) × (s1 s2 : i.Server) × IsSerial p i e k c s1 s2 w' q ent'

  next-Serial :
      (k : ℕ) (w w1 w' : World i) (r : Round) (rest : World i × Round) (q before : ℕ) (ent' : Entry)
      → IsCoherent p i w c.exec_id
      → IsWithin p i e k w c
      → round p i e w k c ≡ (w1, r)
      → (r ≡ conflicted → rest ≡ (w', stored q ent' before) → Appended w' q ent')
      → unless_conflicted p i e (w1, r) rest ≡ (w', stored q ent' before)
      → Appended w' q ent'
  unfolding unless_conflicted
  next-Serial k w w1 w' (stored n x b) rest q before ent' coherent within is others h =
      (k, _, _, round-Serial k w w' q before ent' coherent within (is ∙ h))
  next-Serial k w w1 w' (no_op n) rest q before ent' coherent within is others h = absurd (cc)
  next-Serial k w w1 w' conflicted rest q before ent' coherent within is others h = others refl h
  next-Serial k w w1 w' (ended x) rest q before ent' coherent within is others h = absurd (cc)

  dropped-Coherent :
      (w w1 : World i) (k : ℕ) (r : Round)
      → round p i e w k c ≡ (w1, r)
      → r ≡ conflicted
      → IsCoherent p i w1 c.exec_id
  dropped-Coherent w w1 k r is conflict ent hit =
      let gone : lookup w1.cache c.exec_id ≡ none =
        subst (HasDropped p i e k c) (is ∙ ap (λ (x : Round). (w1, x)) conflict)
          (round-HasDropped p i e k c w) in
      absurd (cc (gone, hit))

  rounds-Serial :
      (n k : ℕ) (w w' : World i) (q before : ℕ) (ent' : Entry)
      → IsCoherent p i w c.exec_id
      → AreWithin p i e n k w c
      → rounds p i e n k w c ≡ (w', stored q ent' before)
      → Appended w' q ent'
  unfolding rounds
  rounds-Serial zero k w w' q before ent' coherent within h = absurd (cc)
  rounds-Serial (suc n) k w w' q before ent' coherent within h =
      next-Serial k w (round p i e w k c).0 w' (round p i e w k c).1
        (rounds p i e n (suc k) (round p i e w k c).0 c) q before ent' coherent within.0 refl
        (λ conflict rest.
          rounds-Serial n (suc k) (round p i e w k c).0 w' q before ent'
            (dropped-Coherent w (round p i e w k c).0 k (round p i e w k c).1 refl conflict)
            (within.1 conflict) rest)
        h

-- If the rounds of a command that is no fork end with a stored decision, then the decision was made
-- on the state that the whole log stood for when its message was stored: whatever the cache held,
-- however stale the replica was that the state was loaded from, and whatever other engines wrote
-- before the load and between it and the append. The message follows all the others, the log then
-- stands for the state that the decision ended in, and the cache holds that state. What others do
-- leaves the last message and its state or adds new messages, the snapshots fit, what is cached for
-- the execution is current, and no decision that these rounds make is over the engine's limit.
pub rounds-IsSerial :
    (p : Platform) (i : Infra) (e : Engine i) (c : Envelope) (w w' : World i) (q before : ℕ)
    (ent' : Entry)
    → IsHonest i
    → Relies p i e c.exec_id
    → IsUnforked c.order
    → IsCoherent p i w c.exec_id
    → AreWithin p i e max_conflicts 0 w c
    → rounds p i e max_conflicts 0 w c ≡ (w', stored q ent' before)
    → (k : ℕ) × (s1 s2 : i.Server) × IsSerial p i e k c s1 s2 w' q ent'
rounds-IsSerial p i e c w w' q before ent' honest relies plain coherent within h =
    rounds-Serial p i honest e c relies plain max_conflicts 0 w w' q before ent' coherent within h
