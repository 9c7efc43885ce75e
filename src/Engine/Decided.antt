-- ===== src/Engine/Decided.antt =====
-- internal/engine/engine.go, decide: a decision on the state that a log stands for, appended to the log,
-- makes the log stand for the state that the decision ended in.
use packtrail.Prelude.{
  ℕ, ◌≡◌, ◌≢◌, refl, ap, sym, subst, String, Bool, true, false, Option, none, some, List, [], ◌∷◌,
  ◌++◌, ◌∙◌, if◌then◌else◌,
}
use packtrail.Outcome.{Result, ok, err, ◌>>=◌, bind_inv, ok_inj}
use packtrail.Platform.{Platform}
use packtrail.Event.{Payload}
use packtrail.Flow.{Flow}
use packtrail.Cmd.{StartData, Request, Command, Order, Envelope}
use packtrail.Fold.State.{State, Ev, new, exists}
use packtrail.Fold.Apply.{apply, apply_all}
use packtrail.Fold.Placed.{placed}
use packtrail.Fold.Decide
use packtrail.Fold.Decide.{check_join}
use packtrail.Fold.Decide.Monad.{Work}
use packtrail.Fold.Heads.{Ongoing, Opens, IsStart, IsLater, later-Ongoing, decide-Opens}
use packtrail.Fold.Versions.{IsBase, Exists, apply-Exists}
use packtrail.Fold.Replay.{decide_replays}
use packtrail.Infra.{Message, Infra, IsHonest}
use packtrail.Loader.{Entry, def_of, fold_events, fold_base, since_base, load_archived}
use packtrail.Loader.Reference.{none_yet, of_base, state_of, fold_base-inv}
use packtrail.Loader.Appended.{state_of-decided, state_of-opened}
use packtrail.Log.{events_of}
use packtrail.Engine.{
  Decision, settled, nothing_decided, folded_command, start_new, decide_start, decide_folded,
  decide_on,
}

-- an order that the fold decides and that is no fork
abbrev pub IsUnforked : Order → Type 0
IsUnforked (Order.fold r) = Unit
IsUnforked _ = ⊥

Exists-bind :
    (r : Result State) (f : State → Result State)
    → Exists r
    → ((t : State) → exists t ≡ true → Exists (f t))
    → Exists (r >>= f)
Exists-bind (ok t) f h k = k t h
Exists-bind (err e) f h k = tt

fold-Exists :
    (p : Platform) (def : Option Flow) (s : State) (evs : List Ev)
    → exists s ≡ true
    → Exists (fold_events p def s evs)
unfolding fold_events exists
fold-Exists p def s [] h = h
fold-Exists p def s (ev ∷ evs) h =
    Exists-bind (apply p def s ev) _ (apply-Exists p def s ev)
      (λ t k. fold-Exists p def (placed ev.seq t) evs k)

cons-Exists :
    (p : Platform) (def : Option Flow) (s : State) (ev : Ev) (evs : List Ev)
    → Exists (fold_events p def s (ev ∷ evs))
unfolding fold_events exists
cons-Exists p def s ev evs =
    Exists-bind (apply p def s ev) _ (apply-Exists p def s ev)
      (λ t k. fold-Exists p def (placed ev.seq t) evs k)

module _ (p : Platform) (i : Infra) (id : String) where
  base-Exists :
      (o : Option (List Ev)) {ent : Entry}
      → of_base (fold_base p i id) o ≡ ok ent
      → exists ent.st ≡ true
  base-Exists none h = absurd (cc)
  base-Exists (some l) {ent} h =
      let (ev, evs, def, e, found, folded, named) = fold_base-inv p i id l h in
      subst Exists folded (cons-Exists p (some def) (new id) ev evs)

  -- A log that has a message stands for an execution that exists.
  unborn-empty :
      (ms : List Message) {ent : Entry}
      → state_of p i id ms ≡ ok ent
      → exists ent.st ≡ false
      → (ms ≡ []) × (none_yet id ≡ ent)
  unfolding state_of
  unborn-empty [] h e = (refl, ok_inj h)
  unborn-empty (m ∷ ms) h e = absurd (cc (base-Exists (since_base (events_of (m ∷ ms))) h, e))

IsStart-IsBase : (def : Flow) (e : Payload State) → IsStart def e → IsBase e
IsStart-IsBase def e (t, h, name, hash) = subst IsBase (sym h) tt

module _ (p : Platform) (i : Infra) (honest : IsHonest i) where
  start_def :
      (name version : String) (def : Flow) (e : Payload State)
      → i.flow_version name version ≡ ok def
      → IsStart def e
      → def_of p i e ≡ ok def
  unfolding def_of
  start_def name version def e found (t, h, named, hashed) =
      rw h (rw (named, hashed) (honest.version-kept name version found))

  settled-inv :
      (def : Flow) (r : Result (Unit {0} × Work)) {d : Decision}
      → settled def r ≡ ok d
      → (w : Work) × (r ≡ ok (tt, w))
        × (d ≡ record { ent = record { st = w.st; def = some def }; evs = w.out })
  settled-inv def (ok (u, w)) h = (w, refl, sym (ok_inj h))
  settled-inv def (err e) h = absurd (cc)

  nothing-evs :
      (st : State) (r : Result (Unit {0})) {d : Decision} → nothing_decided st r ≡ ok d → d.evs ≡ []
  nothing-evs st (ok u) h = ap (λ (d : Decision). d.evs) (sym (ok_inj h))
  nothing-evs st (err e) h = absurd (cc)

  module _ (id : String) (ms : List Message) (q : ℕ) (ev : Ev) (evs : List Ev) where
    -- the log, with the decision at its end, stands for the state that the decision ended in
    abbrev Lands : Decision → Type 0
    Lands d =
        state_of p i id (ms ++ record { seq = q; first = ev; rest = evs } ∷ [])
        ≡ ok (record { st = placed q d.ent.st; def = d.ent.def })

    later-Lands :
        (c : Command) (st : State) (def : Flow) (now : ℕ) {d : Decision}
        → IsLater c.request
        → state_of p i id ms ≡ ok (record { st = st; def = some def })
        → settled def (Decide.decide p def st c now) ≡ ok d
        → d.evs ≡ ev ∷ evs
        → Lands d
    later-Lands c st def now {d} later known h e =
        let (w, decided, is) = settled-inv def (Decide.decide p def st c now) h in
        let out : w.out ≡ ev ∷ evs = ap (λ (x : Decision). x.evs) (sym is) ∙ e in
        subst Lands (sym is) (
          state_of-decided p i id ms q ev evs st w.st def known
            (subst Ongoing out (later-Ongoing p def st c now later decided))
            (ap (apply_all p (some def) st) (sym out) ∙ decide_replays p def st c now decided))

    opened-Lands :
        (c : Command) (t : StartData) (def : Flow) (now : ℕ) {d : Decision}
        → c.request ≡ Request.start t
        → i.flow_version t.flow t.version ≡ ok def
        → settled def (Decide.decide p def (new id) c now) ≡ ok d
        → d.evs ≡ ev ∷ evs
        → Lands d
    unfolding exists new
    opened-Lands c t def now {d} asked found h e =
        let (w, decided, is) = settled-inv def (Decide.decide p def (new id) c now) h in
        let out : w.out ≡ ev ∷ evs = ap (λ (x : Decision). x.evs) (sym is) ∙ e in
        let (start, later) =
          subst (Opens (IsStart def)) out
            (decide-Opens p def (new id) c t now asked refl decided) in
        subst Lands (sym is) (
          state_of-opened p i id ms q ev evs w.st def (IsStart-IsBase def ev.payload start) later
            (start_def t.flow t.version def ev.payload found start)
            (ap (apply_all p (some def) (new id)) (sym out)
              ∙ decide_replays p def (new id) c now decided))

    no_events :
        {d : Decision} (st : State) (r : Result (Unit {0}))
        → nothing_decided st r ≡ ok d
        → d.evs ≢ ev ∷ evs
    no_events st r h e = cc (nothing-evs st r h)

    new-Lands :
        (s : i.Server) (c : Envelope) (t : StartData) (now : ℕ) (archived : Bool) {d : Decision}
        → start_new p i s c t (none_yet id) now archived ≡ ok d
        → d.evs ≡ ev ∷ evs
        → Lands d
    unfolding start_new
    new-Lands s c t now true h e =
        let (old, loaded, rest) = bind_inv (load_archived p i s c.exec_id 0) _ h in
        absurd (no_events (new id) (check_join old.st t.flow) rest e)
    new-Lands s c t now false h e =
        let (def, found, rest) = bind_inv (i.flow_version t.flow t.version) _ h in
        opened-Lands (folded_command c (Request.start t)) t def now refl found rest e

    start-Lands :
        (s : i.Server) (c : Envelope) (t : StartData) (ent : Entry) (now : ℕ) (born : Bool)
        {d : Decision}
        → exists ent.st ≡ born
        → state_of p i id ms ≡ ok ent
        → (if born
            then nothing_decided ent.st (check_join ent.st t.flow)
            else (i.is_archived s c.exec_id >>= λ old. start_new p i s c t ent now old))
          ≡ ok d
        → d.evs ≡ ev ∷ evs
        → Lands d
    start-Lands s c t ent now true born known h e =
        absurd (no_events ent.st (check_join ent.st t.flow) h e)
    start-Lands s c t ent now false {d} born known h e =
        let (old, asked, rest) = bind_inv (i.is_archived s c.exec_id) _ h in
        let same : none_yet id ≡ ent = (unborn-empty p i id ms known born).1 in
        new-Lands s c t now old
          (subst (λ (x : Entry). start_new p i s c t x now old ≡ ok d) (sym same) rest) e

    folded-Lands :
        (c : Envelope) (r : Request) (st : State) (o : Option Flow) (now : ℕ) {d : Decision}
        → IsLater r
        → state_of p i id ms ≡ ok (record { st = st; def = o })
        → decide_folded p i c r (record { st = st; def = o }) now ≡ ok d
        → d.evs ≡ ev ∷ evs
        → Lands d
    unfolding decide_folded
    folded-Lands c r st none now later known h e = absurd (cc)
    folded-Lands c r st (some def) now later known h e =
        later-Lands (folded_command c r) st def now later known h e

    -- Whatever a command other than a fork decides on the state of the log, lands.
    pub decided-Lands :
        (s : i.Server) (c : Envelope) (order : Order) (ent : Entry) (now : ℕ) {d : Decision}
        → IsUnforked order
        → state_of p i id ms ≡ ok ent
        → decide_on p i s c order ent now ≡ ok d
        → d.evs ≡ ev ∷ evs
        → Lands d
    unfolding decide_on decide_start
    decided-Lands s c (Order.fold (Request.start t)) ent now plain known h e =
        start-Lands s c t ent now (exists ent.st) refl known h e
    decided-Lands s c (Order.fold Request.undecodable_start) ent now plain known h e = absurd (cc)
    decided-Lands s c (Order.fork d) ent now plain known h e = absurd plain
    decided-Lands s c Order.undecodable_fork ent now plain known h e = absurd plain
    decided-Lands s c (Order.fold r) ent now plain known h e =
        folded-Lands c r ent.st ent.def now tt known h e
    decided-Lands s c _ ent now plain known h e = absurd plain
