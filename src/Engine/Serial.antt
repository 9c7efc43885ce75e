-- ===== src/Engine/Serial.antt =====
-- internal/engine/engine.go, apply: what a round appends was decided on the whole log before it.
use packtrail.Prelude.{
  ℕ, ◌≤◌, ◌<◌, ◌≡◌, ◌⊎◌, refl, ap, sym, subst, String, none, some, List, [], ◌∷◌, ◌++◌, ◌∙◌, arith,
  ltb, length, Bool-cases, inl, inr,
}
use packtrail.GoMap.{get-put_self, get-delete_self}
use packtrail.Outcome.{Result, ok, err}
use packtrail.Platform.{Platform}
use packtrail.Fold.State.{Ev}
use packtrail.Fold.Placed.{placed}
use packtrail.Cmd.{Envelope}
use packtrail.StateCache.{Cache, lookup, store, drop}
use packtrail.Infra.{Infra, IsHonest, Published, acked, wrong_last, failed, last_seq}
use packtrail.Log.{append}
use packtrail.Loader.{Entry}
use packtrail.Loader.Reference.{state_of}
use packtrail.Loader.Fresh.{Current}
use packtrail.Engine.{
  Decision, decide_on, max_of, Engine, World, Round, stored, conflicted, load_entry, fit_decision,
  fitted_cache, appended, append_fitted, decided_events, decided, decide_entry, round,
}
use packtrail.Engine.Decided.{IsUnforked, decided-Lands}

-- What others may do to the log of an execution: leave its last message and what it stands for (a purge
-- of what precedes the last base does), or add messages with new sequences.
pub record Evolves (p : Platform) (i : Infra) (id : String) (s s' : i.Server) : Type 0 where
  pub top_le : i.top s ≤ i.top s'
  pub moved :
      ((last_seq (i.messages s' id) ≡ last_seq (i.messages s id))
        × (state_of p i id (i.messages s' id) ≡ state_of p i id (i.messages s id)))
      ⊎ (i.top s < last_seq (i.messages s' id))

pub Current-Evolves :
    (p : Platform) (i : Infra) (id : String) (s s' : i.Server) (ent : Entry)
    → Evolves p i id s s'
    → Current p i id (i.top s) (i.messages s id) ent
    → Current p i id (i.top s') (i.messages s' id) ent
Current-Evolves p i id s s' ent grows current = elim grows.moved [
  | inl same ↦
      (omega (arith, current.0, grows.top_le), λ at_end. same.1 ∙ current.1 (at_end ∙ same.0))
  | inr newer ↦ (
    omega (arith, current.0, grows.top_le),
    λ at_end. absurd (omega (arith, current.0, newer, at_end)),
  )
]

append-acked :
    (i : Infra) (s : i.Server) (id : String) (expected : ℕ) (ev : Ev) (evs : List Ev) {q : ℕ}
    {s' : i.Server}
    → append i s id expected (ev ∷ evs) ≡ acked q s'
    → i.publish s id expected ev evs ≡ acked q s'
unfolding append
append-acked i s id expected ev evs h =
    elim (Bool-cases (ltb packtrail.Log.max_events (length (ev ∷ evs)))) [
      | inl over ↦ absurd (cc (over, h))
      | inr within ↦ ground (arith, within, h)
    ]

-- A decision was appended to the whole log that it was decided on.
pub record IsSerial (p : Platform) (i : Infra) (e : Engine i) (k : ℕ) (c : Envelope)
    (s1 s2 : i.Server) (w' : World i) (q : ℕ) (ent' : Entry) : Type 0 where
  pub ent : Entry
  pub d : Decision
  pub ev : Ev
  pub evs : List Ev
  -- the state of the log, when the message was stored
  pub stood : state_of p i c.exec_id (i.messages s2 c.exec_id) ≡ ok ent
  pub decided_on : decide_on p i s1 c c.order ent (e.clock k) ≡ ok d
  pub events : d.evs ≡ ev ∷ evs
  pub added :
      i.messages w'.server c.exec_id
      ≡ i.messages s2 c.exec_id ++ record { seq = q; first = ev; rest = evs } ∷ []
  pub newer : i.top s2 < q
  -- the state of the log after it
  pub stands : state_of p i c.exec_id (i.messages w'.server c.exec_id) ≡ ok ent'
  pub cached : lookup w'.cache c.exec_id ≡ some ent'

module _ (p : Platform) (i : Infra) (honest : IsHonest i) (e : Engine i) (k : ℕ) (c : Envelope)
    (w' : World i) (q before : ℕ) (ent' : Entry) (plain : IsUnforked c.order) where
  -- the world is the one after a decision that was stored
  abbrev pub Is : World i × Round → Type 0
  Is r = r ≡ (w', stored q ent' before)

  acked-Serial :
      (s1 s2 : i.Server) (cache : Cache Entry) (ent : Entry) (d : Decision) (ev : Ev)
      (evs : List Ev) (r : Published i.Server)
      → Current p i c.exec_id (i.top s2) (i.messages s2 c.exec_id) ent
      → decide_on p i s1 c c.order ent (e.clock k) ≡ ok d
      → d.evs ≡ ev ∷ evs
      → append i s2 c.exec_id ent.st.last_seq (ev ∷ evs) ≡ r
      → Is (appended p i e cache c.exec_id d r)
      → IsSerial p i e k c s1 s2 w' q ent'
  unfolding appended lookup store
  acked-Serial s1 s2 cache ent d ev evs (wrong_last s) current decided_on events sent h =
      absurd (cc)
  acked-Serial s1 s2 cache ent d ev evs (failed s) current decided_on events sent h = absurd (cc)
  acked-Serial s1 s2 cache ent d ev evs (acked n s) current decided_on events sent h =
      let (expected, put) =
        honest.publish-acked s2 c.exec_id ent.st.last_seq ev evs
          (append-acked i s2 c.exec_id ent.st.last_seq ev evs sent) in
      let at_q : n ≡ q = cc h in
      let entry : record d.ent { st = placed n d.ent.st } ≡ ent' = cc h in
      let world : record {
        server = s;
        cache = store e.evict cache c.exec_id (record d.ent { st = placed n d.ent.st });
      }
          ≡ w' =
        cc h in
      let stood = current.1 expected in
      let after : i.messages w'.server c.exec_id
          ≡ i.messages s2 c.exec_id ++ record { seq = n; first = ev; rest = evs } ∷ [] =
        ap (λ (x : World i). i.messages x.server c.exec_id) (sym world) ∙ put.added in
      record {
        ent = ent;
        d = d;
        ev = ev;
        evs = evs;
        stood = stood;
        decided_on = decided_on;
        events = events;
        added =
            subst
              (λ (m : ℕ).
                i.messages w'.server c.exec_id
                ≡ i.messages s2 c.exec_id ++ record { seq = m; first = ev; rest = evs } ∷ [])
              at_q after;
        newer = subst (λ (m : ℕ). i.top s2 < m) at_q put.next;
        stands =
            ap (state_of p i c.exec_id) after
            ∙ decided-Lands p i honest c.exec_id (i.messages s2 c.exec_id) n ev evs s1 c c.order ent
                (e.clock k) plain stood decided_on events
            ∙ ap (λ (x : Entry). ok x) entry;
        cached =
            ap (λ (x : World i). lookup x.cache c.exec_id) (sym world)
            ∙ get-put_self _ c.exec_id _
            ∙ ap (λ (x : Entry). some x) entry;
      }

  fitted-Serial :
      (w : World i) (s1 : i.Server) (ent : Entry) (d : Decision) (ev : Ev) (evs : List Ev)
      → length d.evs ≤ max_of e.max_events
      → Current p i c.exec_id
          (i.top (e.before_append k w.server))
          (i.messages (e.before_append k w.server) c.exec_id)
          ent
      → decide_on p i s1 c c.order ent (e.clock k) ≡ ok d
      → d.evs ≡ ev ∷ evs
      → Is (
          append_fitted p i e w k c
            (fitted_cache p i e w c d)
            ent.st.last_seq
            (fit_decision p i e w c d (e.clock k)))
      → IsSerial p i e k c s1 (e.before_append k w.server) w' q ent'
  unfolding append_fitted fit_decision
  fitted-Serial w s1 ent d ev evs small current decided_on events h =
      let fits : fit_decision p i e w c d (e.clock k) ≡ ok d = ground (arith, small) in
      let sent : List Ev → Published i.Server =
        append i (e.before_append k w.server) c.exec_id ent.st.last_seq in
      acked-Serial s1 (e.before_append k w.server) (fitted_cache p i e w c d) ent d ev evs
        (sent (ev ∷ evs)) current decided_on events refl
        (ap (λ (l : List Ev). appended p i e (fitted_cache p i e w c d) c.exec_id d (sent l))
            (sym events)
          ∙ ap (append_fitted p i e w k c (fitted_cache p i e w c d) ent.st.last_seq) (sym fits)
          ∙ h)

  events-Serial :
      (w : World i) (s1 : i.Server) (ent : Entry) (d : Decision) (l : List Ev)
      → d.evs ≡ l
      → length d.evs ≤ max_of e.max_events
      → Current p i c.exec_id
          (i.top (e.before_append k w.server))
          (i.messages (e.before_append k w.server) c.exec_id)
          ent
      → decide_on p i s1 c c.order ent (e.clock k) ≡ ok d
      → Is (decided_events p i e w k c ent.st.last_seq d l)
      → IsSerial p i e k c s1 (e.before_append k w.server) w' q ent'
  unfolding decided_events
  events-Serial w s1 ent d [] events small current decided_on h = absurd (cc)
  events-Serial w s1 ent d (ev ∷ evs) events small current decided_on h =
      fitted-Serial w s1 ent d ev evs small current decided_on events h

  decided-Serial :
      (w : World i) (s1 : i.Server) (ent : Entry) (r : Result Decision)
      → ((d : Decision) → r ≡ ok d → length d.evs ≤ max_of e.max_events)
      → Current p i c.exec_id
          (i.top (e.before_append k w.server))
          (i.messages (e.before_append k w.server) c.exec_id)
          ent
      → decide_on p i s1 c c.order ent (e.clock k) ≡ r
      → Is (decided p i e w k c ent.st.last_seq r)
      → IsSerial p i e k c s1 (e.before_append k w.server) w' q ent'
  unfolding decided
  decided-Serial w s1 ent (err x) small current decided_on h = absurd (cc)
  decided-Serial w s1 ent (ok d) small current decided_on h =
      events-Serial w s1 ent d d.evs refl (small d refl) current decided_on h

  pub entry-Serial :
      (w : World i) (r : Result Entry)
      → ((ent : Entry) (d : Decision)
          → r ≡ ok ent
          → decide_on p i w.server c c.order ent (e.clock k) ≡ ok d
          → length d.evs ≤ max_of e.max_events)
      → Evolves p i c.exec_id w.server (e.before_append k w.server)
      → ((ent : Entry)
          → r ≡ ok ent
          → Current p i c.exec_id (i.top w.server) (i.messages w.server c.exec_id) ent)
      → Is (decide_entry p i e w k c r)
      → IsSerial p i e k c w.server (e.before_append k w.server) w' q ent'
  unfolding decide_entry
  entry-Serial w (err x) small grows current h = absurd (cc)
  entry-Serial w (ok ent) small grows current h =
      decided-Serial w w.server ent (decide_on p i w.server c c.order ent (e.clock k))
        (λ d. small ent d refl)
        (Current-Evolves p i c.exec_id w.server (e.before_append k w.server) ent grows
          (current ent refl))
        refl h

module _ (p : Platform) (i : Infra) (e : Engine i) (k : ℕ) (c : Envelope) where
  -- a conflict has dropped the cached state
  abbrev pub HasDropped : World i × Round → Type 0
  HasDropped (w, conflicted) = lookup w.cache c.exec_id ≡ none
  HasDropped (w, _) = Unit

  appended-HasDropped :
      (cache : Cache Entry) (d : Decision) (r : Published i.Server)
      → HasDropped (appended p i e cache c.exec_id d r)
  unfolding appended lookup drop
  appended-HasDropped cache d (acked q s) = tt
  appended-HasDropped cache d (wrong_last s) = get-delete_self cache.m c.exec_id
  appended-HasDropped cache d (failed s) = tt

  fitted-HasDropped :
      (w : World i) (cache : Cache Entry) (expected : ℕ) (r : Result Decision)
      → HasDropped (append_fitted p i e w k c cache expected r)
  unfolding append_fitted
  fitted-HasDropped w cache expected (err x) = tt
  fitted-HasDropped w cache expected (ok d) =
      appended-HasDropped cache d (append i (e.before_append k w.server) c.exec_id expected d.evs)

  events-HasDropped :
      (w : World i) (expected : ℕ) (d : Decision) (l : List Ev)
      → HasDropped (decided_events p i e w k c expected d l)
  unfolding decided_events
  events-HasDropped w expected d [] = tt
  events-HasDropped w expected d (ev ∷ evs) =
      fitted-HasDropped w (fitted_cache p i e w c d) expected (fit_decision p i e w c d (e.clock k))

  decided-HasDropped :
      (w : World i) (expected : ℕ) (r : Result Decision)
      → HasDropped (decided p i e w k c expected r)
  unfolding decided
  decided-HasDropped w expected (err x) = tt
  decided-HasDropped w expected (ok d) = events-HasDropped w expected d d.evs

  entry-HasDropped : (w : World i) (r : Result Entry) → HasDropped (decide_entry p i e w k c r)
  unfolding decide_entry
  entry-HasDropped w (err x) = tt
  entry-HasDropped w (ok ent) =
      decided-HasDropped w ent.st.last_seq (decide_on p i w.server c c.order ent (e.clock k))

  pub round-HasDropped : (w : World i) → HasDropped (round p i e w k c)
  unfolding round
  round-HasDropped w =
      let w1 = record w { server = e.before_load k w.server } in
      entry-HasDropped w1 (load_entry p i e w1 c.exec_id)
