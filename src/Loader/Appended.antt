-- ===== src/Loader/Appended.antt =====
-- internal/loader/loader.go: what a decision that is appended to a log makes of the state that the log
-- stands for.
use packtrail.Prelude.{
  ℕ, ◌≡◌, refl, ap, String, Option, none, some, List, [], ◌∷◌, ◌++◌, ◌∙◌, append-nil,
}
use packtrail.Outcome.{ok, ok_inj}
use packtrail.Platform.{Platform}
use packtrail.Flow.{Flow}
use packtrail.Fold.State.{State, Ev, new}
use packtrail.Fold.Apply.{apply_all}
use packtrail.Fold.Placed.{placed, placed_result}
use packtrail.Fold.Heads.{Ongoing}
use packtrail.Fold.Versions.{IsBase}
use packtrail.Infra.{Message, Infra}
use packtrail.Log.{events_of, stamped}
use packtrail.Log.Scan.{events-append}
use packtrail.Loader.{Entry, since_base, fold_events, fold_base, def_of}
use packtrail.Loader.Reference.{
  of_base, state_of, joined_to, since-none, since-ongoing, since-later, since-opened,
  stamped-Ongoing, fold-stamped, more_folded,
}

module _ (p : Platform) (i : Infra) (id : String) where
  joined-folded :
      (o : Option (List Ev)) (evs : List Ev) (st t : State) (def : Flow)
      → of_base (fold_base p i id) o ≡ ok (record { st = st; def = some def })
      → fold_events p (some def) st evs ≡ ok t
      → of_base (fold_base p i id) (joined_to evs o) ≡ ok (record { st = t; def = some def })
  joined-folded none evs st t def h folded = absurd (cc)
  joined-folded (some l) evs st t def h folded = more_folded p i id l evs st t def h folded

  -- Messages without a base go on from the state that those before stand for.
  pub state_of-folded :
      (ms xs : List Message) (st t : State) (def : Flow)
      → state_of p i id ms ≡ ok (record { st = st; def = some def })
      → since_base (events_of xs) ≡ none
      → fold_events p (some def) st (events_of xs) ≡ ok t
      → state_of p i id (ms ++ xs) ≡ ok (record { st = t; def = some def })
  unfolding state_of
  state_of-folded [] xs st t def h plain folded = absurd (cc (ap (λ (e : Entry). e.def) (ok_inj h)))
  state_of-folded (m ∷ ms) xs st t def h plain folded =
      ap (of_base (fold_base p i id)) (
        ap since_base (events-append (m ∷ ms) xs)
        ∙ since-ongoing (events_of (m ∷ ms)) (events_of xs) plain)
      ∙ joined-folded (since_base (events_of (m ∷ ms))) (events_of xs) st t def h folded

  one_message :
      (q : ℕ) (ev : Ev) (evs : List Ev)
      → events_of (record { seq = q; first = ev; rest = evs } ∷ []) ≡ stamped q (ev ∷ evs)
  unfolding events_of
  one_message q ev evs = append-nil (stamped q (ev ∷ evs))

  -- A decision that goes on from the state of the log makes it the state that the decision ended in.
  pub state_of-decided :
      (ms : List Message) (q : ℕ) (ev : Ev) (evs : List Ev) (st t : State) (def : Flow)
      → state_of p i id ms ≡ ok (record { st = st; def = some def })
      → Ongoing (ev ∷ evs)
      → apply_all p (some def) st (ev ∷ evs) ≡ ok t
      → state_of p i id (ms ++ record { seq = q; first = ev; rest = evs } ∷ [])
        ≡ ok (record { st = placed q t; def = some def })
  state_of-decided ms q ev evs st t def h ongoing folded =
      state_of-folded ms (record { seq = q; first = ev; rest = evs } ∷ []) st (placed q t) def h
        (ap since_base (one_message q ev evs) ∙ since-none _ (stamped-Ongoing q (ev ∷ evs) ongoing))
        (ap (fold_events p (some def) st) (one_message q ev evs)
          ∙ fold-stamped p (some def) q st ev evs ongoing.1
          ∙ ap (placed_result q) folded)

  snoc_state :
      (ms : List Message) (m : Message)
      → state_of p i id (ms ++ m ∷ [])
        ≡ of_base (fold_base p i id) (since_base (events_of (ms ++ m ∷ [])))
  unfolding state_of
  snoc_state [] m = refl
  snoc_state (n ∷ ms) m = refl

  opened_fold :
      (q : ℕ) (ev : Ev) (evs : List Ev) (t : State) (def : Flow)
      → Ongoing evs
      → def_of p i ev.payload ≡ ok def
      → apply_all p (some def) (new id) (ev ∷ evs) ≡ ok t
      → fold_base p i id (stamped q (ev ∷ evs)) ≡ ok (record { st = placed q t; def = some def })
  unfolding fold_base stamped
  opened_fold q ev evs t def ongoing found folded =
      rw found (
        rw (fold-stamped p (some def) q (new id) ev evs ongoing ∙ ap (placed_result q) folded) refl)

  -- A decision that opens with a base makes it the fold of that decision.
  pub state_of-opened :
      (ms : List Message) (q : ℕ) (ev : Ev) (evs : List Ev) (t : State) (def : Flow)
      → IsBase ev.payload
      → Ongoing evs
      → def_of p i ev.payload ≡ ok def
      → apply_all p (some def) (new id) (ev ∷ evs) ≡ ok t
      → state_of p i id (ms ++ record { seq = q; first = ev; rest = evs } ∷ [])
        ≡ ok (record { st = placed q t; def = some def })
  unfolding stamped
  state_of-opened ms q ev evs t def base ongoing found folded =
      snoc_state ms _
      ∙ ap (λ (l : List Ev). of_base (fold_base p i id) (since_base l))
          (events-append ms (record { seq = q; first = ev; rest = evs } ∷ [])
            ∙ ap (λ (l : List Ev). events_of ms ++ l) (one_message q ev evs))
      ∙ ap (of_base (fold_base p i id)) (
          since-opened (events_of ms) (record ev { seq = q }) (stamped q evs) base
            (stamped-Ongoing q evs ongoing))
      ∙ opened_fold q ev evs t def ongoing found folded

  -- A base hides the messages before it.
  pub state_of-based :
      (ms : List Message) (m : Message) (xs : List Message) (l : List Ev)
      → since_base (events_of (m ∷ xs)) ≡ some l
      → state_of p i id (ms ++ m ∷ xs) ≡ fold_base p i id l
  unfolding state_of
  state_of-based [] m xs l h = ap (of_base (fold_base p i id)) h
  state_of-based (n ∷ ms) m xs l h = ap (of_base (fold_base p i id)) (
      ap since_base (events-append (n ∷ ms) (m ∷ xs))
      ∙ since-later (events_of (n ∷ ms)) (events_of (m ∷ xs)) l h)
