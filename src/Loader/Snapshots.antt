-- ===== src/Loader/Snapshots.antt =====
-- internal/loader/loader.go, Load with a snapshot.
use packtrail.Prelude.{
  ℕ, ◌+◌, ◌≤◌, ◌<◌, ◌≡◌, ◌≢◌, refl, ap, sym, subst, String, Bool, true, false, Option, none, some,
  List, [], ◌∷◌, ◌++◌, ◌∙◌, append-nil, arith, Option-cases, inl, inr, if◌then◌else◌,
}
use packtrail.Outcome.{Result, ok, err, ◌>>=◌, bind_inv, ok_inj}
use packtrail.Platform.{Platform}
use packtrail.Flow.{Flow}
use packtrail.Fold.State.{State, Ev, recode}
use packtrail.Infra.{Message, Infra, IsHonest, Rises, from_seq, last_seq}
use packtrail.Log.{events_of, read}
use packtrail.Log.Scan.{AreNext, read-AreNext, from_seq-all, last-gt, Rises-from}
use packtrail.Loader.{
  Entry, since_base, fold_events, fold_base, fold_after, fold_found, base_or, continues, load_after,
  load, snapshot_for,
}
use packtrail.Loader.Reference.{state_of}
use packtrail.Loader.Fresh.{
  last_of-events, fold-last, base-last, last-le, whole, Current, read-fresh,
}
use packtrail.Loader.Appended.{state_of-folded, state_of-based}

-- The messages up to the snapshot stand for its state, unless a later event bases the state anew.
pub record Fits (p : Platform) (i : Infra) (id : String) (top : ℕ) (M : List Message) (st : State)
    : Type 0 where
  pub reached : st.last_seq ≤ top
  pub before : List Message
  pub split : M ≡ before ++ from_seq (st.last_seq + 1) M
  pub def : Flow
  pub found : i.flow_version st.flow st.flow_hash ≡ ok def
  pub stands :
      since_base (events_of (from_seq (st.last_seq + 1) M)) ≡ none
      → state_of p i id before ≡ ok (record { st = st; def = some def })

last-append :
    (xs : List Message) (m : Message) (ms : List Message)
    → last_seq (xs ++ m ∷ ms) ≡ last_seq (m ∷ ms)
unfolding last_seq
last-append [] m ms = refl
last-append (x ∷ []) m ms = refl
last-append (x ∷ y ∷ xs) m ms = last-append (y ∷ xs) m ms

-- nothing stands behind the last message
past_last : (n top f : ℕ) (M : List Message) → Rises n top M → last_seq M < f → from_seq f M ≡ []
unfolding from_seq last_seq
past_last n top f [] h lt = refl
past_last n top f (m ∷ []) h lt = ground arith
past_last n top f (m ∷ k ∷ ms) h lt =
    let below : last_seq (k ∷ ms) < f = lt in
    let rest = past_last m.seq top f (k ∷ ms) h.1 below in
    let before : m.seq < f = omega (
      arith,
      last-gt m.seq top k ms [] (subst (Rises m.seq top) (sym (append-nil (k ∷ ms))) h.1),
    ) in
    ground (arith, rest, before)

nothing_since : (l : List Ev) → since_base (events_of []) ≢ some l
unfolding since_base events_of
nothing_since l h = cc

module _ (p : Platform) (i : Infra) (honest : IsHonest i) (s : i.Server) (id : String) (st : State)
    (fits : Fits p i id (i.top s) (i.messages s id) st) where
  rising : Rises 0 (i.top s) (from_seq (st.last_seq + 1) (i.messages s id))
  rising = Rises-from 0 (i.top s) (st.last_seq + 1) (i.messages s id) (honest.rising s id)

  some_le :
      (m : Message) (ms post : List Message)
      → from_seq (st.last_seq + 1) (i.messages s id) ≡ (m ∷ ms) ++ post
      → last_seq (m ∷ ms) ≤ i.top s
  some_le m ms post e = last-le 0 (i.top s) m ms post (subst (Rises 0 (i.top s)) e rising)

  -- the messages read after the snapshot are all, where they reach the last one
  all_read :
      (m : Message) (ms post : List Message)
      → from_seq (st.last_seq + 1) (i.messages s id) ≡ (m ∷ ms) ++ post
      → last_seq (m ∷ ms) ≡ last_seq (i.messages s id)
      → from_seq (st.last_seq + 1) (i.messages s id) ≡ m ∷ ms
  all_read m ms post e at_end =
      e
      ∙ whole 0 (i.top s) m ms post (subst (Rises 0 (i.top s)) e rising) (
          at_end
          ∙ ap last_seq (fits.split ∙ ap (λ (l : List Message). fits.before ++ l) e)
          ∙ last-append fits.before m (ms ++ post))

  based-fresh :
      (m : Message) (ms post : List Message) (l : List Ev) {ent : Entry}
      → from_seq (st.last_seq + 1) (i.messages s id) ≡ (m ∷ ms) ++ post
      → since_base (events_of (m ∷ ms)) ≡ some l
      → fold_base p i id l ≡ ok ent
      → Current p i id (i.top s) (i.messages s id) ent
  based-fresh m ms post l {ent} e since folded =
      let last = base-last p i id m ms l since folded in
      (
        omega (arith, last, some_le m ms post e),
        λ at_end.
            subst (λ (M : List Message). state_of p i id M ≡ ok ent)
              (sym (
                fits.split
                ∙ ap (λ (x : List Message). fits.before ++ x)
                    (all_read m ms post e (sym last ∙ at_end))))
              (state_of-based p i id fits.before m ms l since ∙ folded),
      )

  fold_after-inv :
      (evs : List Ev) {ent : Entry}
      → fold_after p i st evs ≡ ok ent
      → (fold_events p (some fits.def) st evs ≡ ok ent.st) × (ent.def ≡ some fits.def)
  unfolding fold_after
  fold_after-inv evs {ent} h =
      let (def, found, rest) = bind_inv (i.flow_version st.flow st.flow_hash) _ h in
      let (t, folded, done) = bind_inv (fold_events p (some def) st evs) _ rest in
      let same : def ≡ fits.def = ok_inj (sym found ∙ fits.found) in
      let e : record { st = t; def = some def } ≡ ent = ok_inj done in
      (
        subst (λ (d : Flow). fold_events p (some d) st evs ≡ ok ent.st) same
            (folded ∙ ap (λ (x : Entry). ok x.st) e),
        sym (ap (λ (x : Entry). x.def) e) ∙ ap (λ (d : Flow). some d) same,
      )

  -- the snapshot folded on, where the messages read are all that follow it
  all_folded :
      (pre : List Message) {ent : Entry}
      → from_seq (st.last_seq + 1) (i.messages s id) ≡ pre
      → since_base (events_of pre) ≡ none
      → fold_after p i st (events_of pre) ≡ ok ent
      → state_of p i id (i.messages s id) ≡ ok ent
  all_folded pre {ent} read_all since h =
      let (folded, named) = fold_after-inv (events_of pre) h in
      let known =
        fits.stands (ap (λ (l : List Message). since_base (events_of l)) read_all ∙ since) in
      ap (state_of p i id) (fits.split ∙ ap (λ (l : List Message). fits.before ++ l) read_all)
      ∙ state_of-folded p i id fits.before pre st ent.st fits.def known since folded
      ∙ ap (λ (d : Option Flow). ok (record { st = ent.st; def = d })) (sym named)

  after-fresh :
      (pre post : List Message) {ent : Entry}
      → from_seq (st.last_seq + 1) (i.messages s id) ≡ pre ++ post
      → since_base (events_of pre) ≡ none
      → fold_after p i st (events_of pre) ≡ ok ent
      → Current p i id (i.top s) (i.messages s id) ent
  unfolding events_of
  after-fresh [] post {ent} e since h =
      let unmoved = fold-last p (some fits.def) st [] (fold_after-inv [] h).0 in
      (
        omega (arith, unmoved, fits.reached),
        λ at_end.
            all_folded []
              (past_last 0 (i.top s) (st.last_seq + 1) (i.messages s id) (honest.rising s id)
                (omega (arith, unmoved, at_end)))
              since h,
      )
  after-fresh (m ∷ ms) post {ent} e since h =
      let moved : ent.st.last_seq ≡ last_seq (m ∷ ms) =
        fold-last p (some fits.def) st _ (fold_after-inv _ h).0 ∙ last_of-events st.last_seq m ms in
      (
        omega (arith, moved, some_le m ms post e),
        λ at_end. all_folded (m ∷ ms) (all_read m ms post e (sym moved ∙ at_end)) since h,
      )

  snapshot-fresh :
      (pre post : List Message) (o : Option (List Ev)) {ent : Entry}
      → from_seq (st.last_seq + 1) (i.messages s id) ≡ pre ++ post
      → since_base (events_of pre) ≡ o
      → base_or p i (fold_base p i id) (fold_after p i st (events_of pre)) o ≡ ok ent
      → Current p i id (i.top s) (i.messages s id) ent
  snapshot-fresh pre post none e since h = after-fresh pre post e since h
  snapshot-fresh [] post (some l) e since h = absurd (nothing_since l since)
  snapshot-fresh (m ∷ ms) post (some l) e since h = based-fresh m ms post l e since h

module _ (p : Platform) (i : Infra) (honest : IsHonest i) (s : i.Server) (id : String) where
  reread-fresh :
      (r : Result (List Ev)) {ent : Entry}
      → read i s id 1 0 ≡ r
      → AreNext 1 (i.messages s id) r
      → (r >>= λ evs. fold_found p i s id 0 none evs) ≡ ok ent
      → Current p i id (i.top s) (i.messages s id) ent
  reread-fresh (err x) seen next h = absurd (cc)
  reread-fresh (ok evs) seen (pre, post, e, f) h =
      read-fresh p i honest s id pre post
        (sym (from_seq-all 0 (i.top s) 1 _ (honest.rising s id) (omega arith)) ∙ e)
        (seen ∙ ap (λ (l : List Ev). ok l) f) (ap (fold_found p i s id 0 none) (sym f) ∙ h)

  plain_load :
      {ent : Entry}
      → (read i s id 1 0 >>= λ evs. fold_found p i s id 0 none evs) ≡ ok ent
      → Current p i id (i.top s) (i.messages s id) ent
  plain_load h = reread-fresh (read i s id 1 0) refl (read-AreNext i honest s id 1 (omega arith)) h

  continued-fresh :
      (st : State) (b : Bool) (pre post : List Message) {ent : Entry}
      → Fits p i id (i.top s) (i.messages s id) st
      → from_seq (st.last_seq + 1) (i.messages s id) ≡ pre ++ post
      → (if b
          then fold_found p i s id 0 (some st) (events_of pre)
          else (read i s id 1 0 >>= λ evs. fold_found p i s id 0 none evs))
        ≡ ok ent
      → Current p i id (i.top s) (i.messages s id) ent
  unfolding fold_found
  continued-fresh st true pre post fits e h =
      snapshot-fresh p i honest s id st fits pre post (since_base (events_of pre)) e refl h
  continued-fresh st false pre post fits e h = plain_load h

  after_snapshot :
      (st : State) (r : Result (List Ev)) {ent : Entry}
      → Fits p i id (i.top s) (i.messages s id) st
      → AreNext (st.last_seq + 1) (i.messages s id) r
      → (r >>= λ evs.
          if continues p i s id st evs
          then fold_found p i s id 0 (some st) evs
          else (read i s id 1 0 >>= λ all. fold_found p i s id 0 none all))
        ≡ ok ent
      → Current p i id (i.top s) (i.messages s id) ent
  after_snapshot st (err x) fits next h = absurd (cc)
  after_snapshot st (ok evs) fits (pre, post, e, f) h =
      continued-fresh st (continues p i s id st (events_of pre)) pre post fits e (
        ap
          (λ (l : List Ev).
            if continues p i s id st l
            then fold_found p i s id 0 (some st) l
            else (read i s id 1 0 >>= λ all. fold_found p i s id 0 none all))
          (sym f)
        ∙ h)

  with_snapshot :
      (o : Option State) {ent : Entry}
      → ((st : State) → o ≡ some st → Fits p i id (i.top s) (i.messages s id) st)
      → load_after p i s id 0 o ≡ ok ent
      → Current p i id (i.top s) (i.messages s id) ent
  unfolding load_after
  with_snapshot none fits h = plain_load h
  with_snapshot (some st) fits h =
      after_snapshot st (read i s id (st.last_seq + 1) 0) (fits st refl)
        (read-AreNext i honest s id (st.last_seq + 1) (omega arith)) h

-- a saved state, as it is read back
abbrev read_back : Option State → Option State
read_back none = none
read_back (some st) = some (recode st)

snapshot_zero :
    (p : Platform) (i : Infra) (s : i.Server) (id : String)
    → snapshot_for p i s id 0 ≡ read_back (i.snapshot s id)
unfolding snapshot_for
snapshot_zero p i s id = elim (Option-cases (i.snapshot s id)) [
  | inl e ↦ rw (snapshot_for, e) refl
  | inr (st, e) ↦ rw (snapshot_for, e) refl
]

back-Fits :
    (p : Platform) (i : Infra) (id : String) (top : ℕ) (M : List Message) (o : Option State)
    → ((st : State) → o ≡ some st → Fits p i id top M (recode st))
    → (st : State) → read_back o ≡ some st
    → Fits p i id top M st
back-Fits p i id top M none fits st h = absurd (cc)
back-Fits p i id top M (some x) fits st h =
    let is : recode x ≡ st = cc h in subst (Fits p i id top M) is (fits x refl)

-- What a load of everything gives is current.
pub loaded-Current :
    (p : Platform) (i : Infra) (s : i.Server) (id : String) {ent : Entry}
    → IsHonest i
    → ((st : State)
        → i.snapshot s id ≡ some st
        → Fits p i id (i.top s) (i.messages s id) (recode st))
    → load p i s id 0 ≡ ok ent
    → Current p i id (i.top s) (i.messages s id) ent
unfolding load
loaded-Current p i s id honest fits h =
    with_snapshot p i honest s id (read_back (i.snapshot s id))
      (back-Fits p i id (i.top s) (i.messages s id) (i.snapshot s id) fits)
      (ap (load_after p i s id 0) (sym (snapshot_zero p i s id)) ∙ h)

-- If a load of everything gives a state at the sequence of the last message, it is the state that the
-- whole log stands for, with its definition: however the server cuts its batches, however far the
-- replica that answers lags behind, and whether the loader folded a snapshot on, found that the
-- snapshot does not fit and read again, or had none. The snapshot, as it is read back, fits the log.
pub load_exact :
    (p : Platform) (i : Infra) (s : i.Server) (id : String) {ent : Entry}
    → IsHonest i
    → ((st : State)
        → i.snapshot s id ≡ some st
        → Fits p i id (i.top s) (i.messages s id) (recode st))
    → load p i s id 0 ≡ ok ent
    → ent.st.last_seq ≡ last_seq (i.messages s id)
    → state_of p i id (i.messages s id) ≡ ok ent
load_exact p i s id honest fits h at_end = (loaded-Current p i s id honest fits h).1 at_end
