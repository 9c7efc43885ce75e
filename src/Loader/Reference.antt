-- ===== src/Loader/Reference.antt =====
-- internal/loader/loader.go: the state that a log stands for, and what a decision appended to the log
-- makes of it.
use packtrail.Prelude.{
  ℕ, ◌≡◌, refl, ap, sym, String, Bool, true, false, Option, none, some, List, [], ◌∷◌, ◌++◌, ◌∙◌,
  append-nil, append_assoc,
}
use packtrail.Outcome.{io, Result, ok, err, ◌>>=◌, bind_inv, ok_inj}
use packtrail.Platform.{Platform}
use packtrail.Event
use packtrail.Event.{Payload}
use packtrail.Flow.{Flow}
use packtrail.Fold.State.{State, Ev, new}
use packtrail.Fold.Apply.{apply, apply_all}
use packtrail.Fold.Placed.{placed, placed_result, apply-placed}
use packtrail.Fold.Rules.Basics.{IsOngoing, ongoing-IsPlain}
use packtrail.Fold.Heads.{Ongoing}
use packtrail.Fold.Versions.{IsBase, apply-stamped}
use packtrail.Infra.{Infra, Message}
use packtrail.Log.{events_of, stamped}
use packtrail.Loader.{Entry, is_base, since_base, or_these, fold_events, fold_base, def_of}

abbrev pub none_yet : String → Entry
none_yet id = record { st = new id; def = none }

abbrev pub of_base : (List Ev → Result Entry) → Option (List Ev) → Result Entry
of_base f none = err io
of_base f (some l) = f l

-- The state that a log stands for: the fold of the events from the last one that bases a state.
unfoldable pub state_of : Platform → Infra → String → List Message → Result Entry
state_of p i id [] = ok (none_yet id)
state_of p i id (m ∷ ms) = of_base (fold_base p i id) (since_base (events_of (m ∷ ms)))

pub events_of-append :
    (ms : List Message) (m : Message)
    → events_of (ms ++ m ∷ []) ≡ events_of ms ++ stamped m.seq (m.first ∷ m.rest)
unfolding events_of
events_of-append [] m = append-nil _
events_of-append (n ∷ ms) m =
    ap (λ (l : List Ev). stamped n.seq (n.first ∷ n.rest) ++ l) (events_of-append ms m)
    ∙ sym (
        append_assoc (stamped n.seq (n.first ∷ n.rest)) (events_of ms)
          (stamped m.seq (m.first ∷ m.rest)))

ongoing-base : (e : Payload State) → IsOngoing e → is_base e ≡ false
unfolding is_base
ongoing-base (Event.started _) h = absurd h
ongoing-base (Event.forked _ _ _ _) h = absurd h
ongoing-base (Event.continued _ _) h = absurd h
ongoing-base _ h = refl

IsBase-base : (e : Payload State) → IsBase e → is_base e ≡ true
unfolding is_base
IsBase-base (Event.started _) h = refl
IsBase-base (Event.forked _ _ _ _) h = refl
IsBase-base (Event.continued _ _) h = refl
IsBase-base _ h = absurd h

pub stamped-Ongoing : (q : ℕ) (evs : List Ev) → Ongoing evs → Ongoing (stamped q evs)
unfolding stamped
stamped-Ongoing q [] h = tt
stamped-Ongoing q (ev ∷ evs) h = (h.0, stamped-Ongoing q evs h.1)

pub since-none : (evs : List Ev) → Ongoing evs → since_base evs ≡ none
unfolding since_base
since-none [] h = refl
since-none (ev ∷ evs) h = rw (since-none evs h.1, ongoing-base ev.payload h.0) refl

abbrev pub joined_to : List Ev → Option (List Ev) → Option (List Ev)
joined_to evs none = none
joined_to evs (some l) = some (l ++ evs)

or_these-joined :
    (b : Bool) (xs evs : List Ev) (o : Option (List Ev))
    → or_these b (xs ++ evs) (joined_to evs o) ≡ joined_to evs (or_these b xs o)
or_these-joined b xs evs (some l) = refl
or_these-joined true xs evs none = refl
or_these-joined false xs evs none = refl

-- Events that go on from a state are folded after those from the last base.
pub since-ongoing :
    (xs evs : List Ev)
    → since_base evs ≡ none
    → since_base (xs ++ evs) ≡ joined_to evs (since_base xs)
unfolding since_base
since-ongoing [] evs h = h
since-ongoing (x ∷ xs) evs h =
    rw (since-ongoing xs evs h) (or_these-joined (is_base x.payload) (x ∷ xs) evs (since_base xs))

-- The last base of later events is the last one of all.
pub since-later : (xs evs l : List Ev) → since_base evs ≡ some l → since_base (xs ++ evs) ≡ some l
unfolding since_base
since-later [] evs l h = h
since-later (x ∷ xs) evs l h = rw (since-later xs evs l h) refl

-- A base hides what precedes it.
pub since-opened :
    (xs : List Ev) (ev : Ev) (evs : List Ev)
    → IsBase ev.payload
    → Ongoing evs
    → since_base (xs ++ ev ∷ evs) ≡ some (ev ∷ evs)
unfolding since_base
since-opened [] ev evs b h = rw (since-none evs h, IsBase-base ev.payload b) refl
since-opened (x ∷ xs) ev evs b h = rw (since-opened xs ev evs b h) refl

module _ (p : Platform) (def : Option Flow) where
  >>=_assoc :
      (r : Result State) (f g : State → Result State) → (r >>= λ t. f t >>= g) ≡ (r >>= f >>= g)
  >>=_assoc (ok s) f g = refl
  >>=_assoc (err e) f g = refl

  >>=_ext :
      (r : Result State) (f g : State → Result State)
      → ((t : State) → f t ≡ g t)
      → (r >>= f) ≡ (r >>= g)
  >>=_ext (ok s) f g h = h s
  >>=_ext (err e) f g h = refl

  pub fold-append :
      (s : State) (xs ys : List Ev)
      → fold_events p def s (xs ++ ys) ≡ (fold_events p def s xs >>= λ t. fold_events p def t ys)
  unfolding fold_events
  fold-append s [] ys = refl
  fold-append s (x ∷ xs) ys =
      >>=_ext (apply p def s x) _ _ (λ t. fold-append (placed x.seq t) xs ys)
      ∙ >>=_assoc (apply p def s x) _ _

  bind_placed :
      (q : ℕ) (r : Result State) (f g : State → Result State)
      → ((t : State) → f (placed q t) ≡ placed_result q (g t))
      → (placed_result q r >>= f) ≡ placed_result q (r >>= g)
  bind_placed q (ok s) f g h = h s
  bind_placed q (err e) f g h = refl

  fold-placed :
      (q : ℕ) (s : State) (evs : List Ev)
      → Ongoing evs
      → fold_events p def (placed q s) (stamped q evs) ≡ placed_result q (apply_all p def s evs)
  unfolding fold_events stamped apply_all
  fold-placed q s [] h = refl
  fold-placed q s (ev ∷ evs) h =
      rw
        (
          apply-stamped p def (placed q s) ev q,
          apply-placed q p def s ev (ongoing-IsPlain ev.payload h.0),
        )
        (bind_placed q (apply p def s ev) _ _ (λ t. fold-placed q t evs h.1))

  bind_stamped :
      (q : ℕ) (r : Result State) (f g : State → Result State)
      → ((t : State) → f (placed q t) ≡ placed_result q (g t))
      → (r >>= λ t. f (placed q t)) ≡ placed_result q (r >>= g)
  bind_stamped q (ok s) f g h = h s
  bind_stamped q (err e) f g h = refl

  -- Reading the events of a decision back gives the state that it ended in, at its sequence.
  pub fold-stamped :
      (q : ℕ) (s : State) (ev : Ev) (evs : List Ev)
      → Ongoing evs
      → fold_events p def s (stamped q (ev ∷ evs)) ≡ placed_result q (apply_all p def s (ev ∷ evs))
  unfolding fold_events stamped apply_all
  fold-stamped q s ev evs h = rw (apply-stamped p def s ev q) (
      bind_stamped q (apply p def s ev) (λ u. fold_events p def u (stamped q evs)) _
        (λ t. fold-placed q t evs h))

module _ (p : Platform) (i : Infra) (id : String) where
  -- the fold from a base: its flow is found, and the fold goes through
  pub fold_base-inv :
      (l : List Ev) {ent : Entry}
      → fold_base p i id l ≡ ok ent
      → (ev : Ev) × (evs : List Ev) × (def : Flow) × (l ≡ ev ∷ evs)
        × (def_of p i ev.payload ≡ ok def)
        × (fold_events p (some def) (new id) (ev ∷ evs) ≡ ok ent.st)
        × (ent.def ≡ some def)
  unfolding fold_base
  fold_base-inv [] h = absurd (cc)
  fold_base-inv (ev ∷ evs) {ent} h =
      let (def, found, rest) = bind_inv (def_of p i ev.payload) _ h in
      let (st, folded, done) = bind_inv (fold_events p (some def) (new id) (ev ∷ evs)) _ rest in
      let e : record { st = st; def = some def } ≡ ent = ok_inj done in
      (
        ev,
        evs,
        def,
        refl,
        found,
        folded ∙ ap (λ (x : Entry). ok x.st) e,
        sym (ap (λ (x : Entry). x.def) e),
      )

  pub more_folded :
      (l evs : List Ev) (st t : State) (def : Flow)
      → fold_base p i id l ≡ ok (record { st = st; def = some def })
      → fold_events p (some def) st evs ≡ ok t
      → fold_base p i id (l ++ evs) ≡ ok (record { st = t; def = some def })
  unfolding fold_base
  more_folded l evs st t def h folded =
      let (ev, rest, found_def, e, found, before, named) = fold_base-inv l h in
      let same : found_def ≡ def = cc named in
      rw e (
        rw found (
          rw (fold-append p (some found_def) (new id) (ev ∷ rest) evs)
            (rw before (rw same (rw folded refl)))))
