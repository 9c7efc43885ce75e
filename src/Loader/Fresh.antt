-- ===== src/Loader/Fresh.antt =====
-- internal/loader/loader.go: a load of a state that stands at the end of the log gives the state that
-- the log stands for, whether a snapshot was used or not.
use packtrail.Prelude.{
  ℕ, ◌≤◌, ◌<◌, ◌≡◌, ◌≢◌, refl, ap, sym, subst, String, Bool, true, false, Option, none, some, List,
  [], ◌∷◌, ◌++◌, ◌∙◌, append-nil, arith,
}
use packtrail.Outcome.{io, ok, err, bind_inv, ok_inj}
use packtrail.Platform.{Platform}
use packtrail.Event
use packtrail.Event.{Payload}
use packtrail.Flow.{Flow}
use packtrail.Fold.State.{State, Ev, new}
use packtrail.Fold.Apply.{apply}
use packtrail.Fold.Placed.{placed}
use packtrail.Infra.{Message, Infra, IsHonest, Rises, last_seq}
use packtrail.Log.{events_of, stamped, read}
use packtrail.Log.Scan.{last-gt, Rises-le}
use packtrail.Loader.{
  Entry, is_base, is_continued, or_these, since_base, since_continued, segments_before,
  with_segments, fold_events, fold_base, fold_found, base_or, def_of, fold_up_to, from_live,
  load_from_history,
}
use packtrail.Loader.Reference.{none_yet, of_base, state_of, fold_base-inv}

-- the sequence of the last event, or `d`
abbrev pub last_of : ℕ → List Ev → ℕ
last_of d [] = d
last_of d (ev ∷ evs) = last_of ev.seq evs

last_of-append : (d : ℕ) (xs ys : List Ev) → last_of d (xs ++ ys) ≡ last_of (last_of d xs) ys
last_of-append d [] ys = refl
last_of-append d (x ∷ xs) ys = last_of-append x.seq xs ys

last_of-stamped : (q : ℕ) (evs : List Ev) → last_of q (stamped q evs) ≡ q
unfolding stamped
last_of-stamped q [] = refl
last_of-stamped q (ev ∷ evs) = last_of-stamped q evs

-- the events of some messages end at the sequence of the last message
pub last_of-events :
    (d : ℕ) (m : Message) (ms : List Message) → last_of d (events_of (m ∷ ms)) ≡ last_seq (m ∷ ms)
unfolding events_of last_seq stamped
last_of-events d m [] =
    ap (last_of m.seq) (append-nil (stamped m.seq m.rest)) ∙ last_of-stamped m.seq m.rest
last_of-events d m (k ∷ ms) =
    last_of-append m.seq (stamped m.seq m.rest) (events_of (k ∷ ms))
    ∙ last_of-events (last_of m.seq (stamped m.seq m.rest)) k ms

-- A suffix that is not empty ends where the whole does.
abbrev pub Ends : List Ev → List Ev → Type 0
Ends evs l = (before : List Ev) × (evs ≡ before ++ l)

these-Ends :
    (b : Bool) (ev : Ev) (evs l : List Ev) (o : Option (List Ev))
    → ((k : List Ev) → o ≡ some k → Ends evs k)
    → or_these b (ev ∷ evs) o ≡ some l
    → Ends (ev ∷ evs) l
these-Ends b ev evs l (some k) f h =
    let (before, e) = f l (ground (arith, h)) in (ev ∷ before, ap (λ (x : List Ev). ev ∷ x) e)
these-Ends true ev evs l none f h = ([], ground (arith, h))
these-Ends false ev evs l none f h = absurd (cc)

pub since-Ends : (evs l : List Ev) → since_base evs ≡ some l → Ends evs l
unfolding since_base
since-Ends [] l h = absurd (cc)
since-Ends (ev ∷ evs) l h =
    these-Ends (is_base ev.payload) ev evs l (since_base evs) (λ k e. since-Ends evs k e) h

module _ (p : Platform) (def : Option Flow) where
  pub fold-last :
      (s : State) (evs : List Ev) {t : State}
      → fold_events p def s evs ≡ ok t
      → t.last_seq ≡ last_of s.last_seq evs
  unfolding fold_events
  fold-last s [] h = ap (λ (r : State). r.last_seq) (ok_inj (sym h))
  fold-last s (ev ∷ evs) h =
      let (t, first, rest) = bind_inv (apply p def s ev) _ h in fold-last (placed ev.seq t) evs rest

module _ (p : Platform) (i : Infra) (id : String) where
  pub base-last :
      (m : Message) (ms : List Message) (l : List Ev) {ent : Entry}
      → since_base (events_of (m ∷ ms)) ≡ some l
      → fold_base p i id l ≡ ok ent
      → ent.st.last_seq ≡ last_seq (m ∷ ms)
  base-last m ms l {ent} since h =
      let (ev, evs, def, e, found, folded, named) = fold_base-inv p i id l h in
      let (before, whole) = since-Ends (events_of (m ∷ ms)) l since in
      fold-last p (some def) (new id) (ev ∷ evs) folded
      ∙ sym (last_of-append 0 before (ev ∷ evs))
      ∙ ap (λ (x : List Ev). last_of 0 (before ++ x)) (sym e)
      ∙ ap (last_of 0) (sym whole)
      ∙ last_of-events 0 m ms

last-grows :
    (n top : ℕ) (m : Message) (xs : List Message) (k : Message) (ys : List Message)
    → Rises n top ((m ∷ xs) ++ k ∷ ys)
    → last_seq (m ∷ xs) < last_seq ((m ∷ xs) ++ k ∷ ys)
unfolding last_seq
last-grows n top m [] k ys h =
    last-gt m.seq top k ys [] (subst (Rises m.seq top) (sym (append-nil (k ∷ ys))) h.1)
last-grows n top m (j ∷ xs) k ys h = last-grows m.seq top j xs k ys h.1

-- messages that reach the last one are all of them
pub whole :
    (n top : ℕ) (m : Message) (xs post : List Message)
    → Rises n top ((m ∷ xs) ++ post)
    → last_seq (m ∷ xs) ≡ last_seq ((m ∷ xs) ++ post)
    → (m ∷ xs) ++ post ≡ m ∷ xs
whole n top m xs [] h e = append-nil (m ∷ xs)
whole n top m xs (k ∷ ys) h e = absurd (omega (arith, last-grows n top m xs k ys h))

last_zero : (top : ℕ) (M : List Message) → Rises 0 top M → last_seq M ≡ 0 → M ≡ []
last_zero top [] h e = refl
last_zero top (m ∷ M) h e =
    absurd (omega (arith, last-gt 0 top m M [] (subst (Rises 0 top) (sym (append-nil (m ∷ M))) h)))

these-none :
    (b : Bool) (evs : List Ev) (o : Option (List Ev))
    → or_these b evs o ≡ none
    → (b ≡ false) × (o ≡ none)
these-none b evs (some l) h = absurd (cc)
these-none true evs none h = absurd (cc)
these-none false evs none h = (refl, refl)

continued-base : (e : Payload State) → is_base e ≡ false → is_continued e ≡ false
unfolding is_base is_continued
continued-base (Event.continued _ _) h = h
continued-base _ h = refl

-- without a base there is no continuation
none-continued : (evs : List Ev) → since_base evs ≡ none → since_continued evs ≡ none
unfolding since_base since_continued
none-continued [] h = refl
none-continued (ev ∷ evs) h =
    let (plain, others) = these-none (is_base ev.payload) (ev ∷ evs) (since_base evs) h in
    rw (continued-base ev.payload plain, none-continued evs others) refl

since_plain : (ev : Ev) (evs : List Ev) → since_base (ev ∷ evs) ≡ none → is_base ev.payload ≡ false
unfolding since_base
since_plain ev evs h = (these-none (is_base ev.payload) (ev ∷ evs) (since_base evs) h).0

module _ (p : Platform) (i : Infra) where
  def_of-none : (e : Payload State) → is_base e ≡ false → def_of p i e ≡ err io
  unfolding def_of is_base
  def_of-none (Event.started _) h = absurd (cc)
  def_of-none (Event.forked _ _ _ _) h = absurd (cc)
  def_of-none (Event.continued _ _) h = absurd (cc)
  def_of-none _ h = refl

  -- a live log without a base is no whole history
  history-none :
      (s : i.Server) (id : String) (to : ℕ) (ev : Ev) (evs : List Ev)
      → since_base (ev ∷ evs) ≡ none
      → from_live p i s id to (ev ∷ evs) ≡ err io
  unfolding from_live with_segments segments_before fold_up_to
  history-none s id to ev evs h =
      rw (none-continued (ev ∷ evs) h) (rw (def_of-none ev.payload (since_plain ev evs h)) refl)

-- the events of a message and of the ones after it, as a list that is not empty
events-cons :
    (m : Message) (ms : List Message)
    → (ev : Ev) × (evs : List Ev) × (events_of (m ∷ ms) ≡ ev ∷ evs)
unfolding events_of stamped
events-cons m ms = (_, _, refl)

pub last-le :
    (n top : ℕ) (m : Message) (ms post : List Message)
    → Rises n top ((m ∷ ms) ++ post)
    → last_seq (m ∷ ms) ≤ top
unfolding last_seq
last-le n top m [] post h = Rises-le m.seq top post h.1
last-le n top m (k ∷ ms) post h = last-le m.seq top k ms post h.1

-- The entry stands at a sequence that was given out; if that is the one of the last message, the entry
-- is what the log stands for.
abbrev pub Current : Platform → Infra → String → ℕ → List Message → Entry → Type 0
Current p i id top M ent =
    (ent.st.last_seq ≤ top) × (ent.st.last_seq ≡ last_seq M → state_of p i id M ≡ ok ent)

module _ (p : Platform) (i : Infra) (honest : IsHonest i) (s : i.Server) (id : String) where
  -- the last base of all messages, where the ones read are all
  reached :
      (m : Message) (ms post : List Message) (l : List Ev) {ent : Entry}
      → Rises 0 (i.top s) ((m ∷ ms) ++ post)
      → since_base (events_of (m ∷ ms)) ≡ some l
      → fold_base p i id l ≡ ok ent
      → Current p i id (i.top s) ((m ∷ ms) ++ post) ent
  unfolding state_of
  reached m ms post l {ent} rising since folded =
      let last = base-last p i id m ms l since folded in
      (
        omega (arith, last, last-le 0 (i.top s) m ms post rising),
        λ at_end.
            subst (λ (M : List Message). state_of p i id M ≡ ok ent)
              (sym (whole 0 (i.top s) m ms post rising (sym last ∙ at_end)))
              (ap (of_base (fold_base p i id)) since ∙ folded),
      )

  -- what was read has no base: it is no live log
  no_history :
      (m : Message) (ms : List Message) {ent : Entry}
      → read i s id 1 0 ≡ ok (events_of (m ∷ ms))
      → since_base (events_of (m ∷ ms)) ≡ none
      → load_from_history p i s id 0 ≢ ok ent
  unfolding load_from_history
  no_history m ms {ent} seen since h =
      let (ev, evs, e) = events-cons m ms in
      let broken : load_from_history p i s id 0 ≡ err io =
        rw (load_from_history, seen)
          (rw e (history-none p i s id 0 ev evs (sym (ap since_base e) ∙ since))) in
      absurd (cc (broken, h))

  plain-fresh :
      (m : Message) (ms post : List Message) (o : Option (List Ev)) {ent : Entry}
      → Rises 0 (i.top s) ((m ∷ ms) ++ post)
      → read i s id 1 0 ≡ ok (events_of (m ∷ ms))
      → since_base (events_of (m ∷ ms)) ≡ o
      → base_or p i (fold_base p i id) (load_from_history p i s id 0) o ≡ ok ent
      → Current p i id (i.top s) ((m ∷ ms) ++ post) ent
  plain-fresh m ms post (some l) rising seen since h = reached m ms post l rising since h
  plain-fresh m ms post none rising seen since h = absurd (no_history m ms seen since h)

  found_plain :
      (m : Message) (ms : List Message)
      → fold_found p i s id 0 none (events_of (m ∷ ms))
        ≡ base_or p i
            (fold_base p i id)
            (load_from_history p i s id 0)
            (since_base (events_of (m ∷ ms)))
  unfolding fold_found events_of stamped
  found_plain m ms = refl

  -- a load without a snapshot
  pub read-fresh :
      (pre post : List Message) {ent : Entry}
      → i.messages s id ≡ pre ++ post
      → read i s id 1 0 ≡ ok (events_of pre)
      → fold_found p i s id 0 none (events_of pre) ≡ ok ent
      → Current p i id (i.top s) (i.messages s id) ent
  unfolding fold_found events_of state_of new
  read-fresh [] post {ent} all seen h =
      let e : none_yet id ≡ ent = ok_inj h in
      let zero_last : 0 ≡ ent.st.last_seq = ap (λ (x : Entry). x.st.last_seq) e in
      (
        omega (arith, zero_last),
        λ at_end.
            subst (λ (M : List Message). state_of p i id M ≡ ok ent)
              (sym (
                last_zero (i.top s) (i.messages s id) (honest.rising s id)
                  (sym at_end ∙ sym zero_last)))
              (ap (λ (x : Entry). ok x) e),
      )
  read-fresh (m ∷ ms) post {ent} all seen h =
      subst (λ (M : List Message). Current p i id (i.top s) M ent) (sym all)
        (plain-fresh m ms post (since_base (events_of (m ∷ ms)))
          (subst (Rises 0 (i.top s)) all (honest.rising s id)) seen refl
          (sym (found_plain m ms) ∙ h))
