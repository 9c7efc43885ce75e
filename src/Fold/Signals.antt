-- ===== src/Fold/Signals.antt =====
-- internal/fold/decide.go (*decider).consume, and state.go (*State).applySignalUse: which buffered
-- signal an await consumes.
use packtrail.Prelude.{
  ◌≡◌, ◌≢◌, refl, subst, ap, String, Bool, true, false, some, List, [], ◌∷◌, ◌++◌, str_eq, eq_iff,
  eq_refl, if◌then◌else◌, arith,
}
use packtrail.Fold.State.{Buffered}
use packtrail.Fold.Apply.Waits.{take_signal}
use packtrail.Fold.Decide.Route.{buffered_signal}

-- no buffered signal has this id
abbrev pub Unused : String → List Buffered → Type 0
Unused id [] = Unit
Unused id (b ∷ bs) = (b.id ≢ id) × Unused id bs

-- each id once: a signal whose id was seen is not buffered again
abbrev pub UniqueIds : List Buffered → Type 0
UniqueIds [] = Unit
UniqueIds (b ∷ bs) = Unused b.id bs × UniqueIds bs

-- no buffered signal has this name
abbrev pub Unnamed : String → List Buffered → Type 0
Unnamed name [] = Unit
Unnamed name (b ∷ bs) = (str_eq b.name name ≡ false) × Unnamed name bs

Unused-mid :
    (id : String) (before after : List Buffered) (b : Buffered)
    → Unused id (before ++ b ∷ after)
    → b.id ≢ id
Unused-mid id [] after b h = h.0
Unused-mid id (x ∷ before) after b h = Unused-mid id before after b h.1

str_ne : (s t : String) → t ≢ s → str_eq s t ≡ false
str_ne s t h = ground (arith, eq_iff s t, h)

-- where the first signal of a name stands, and what taking it by its id leaves
abbrev pub IsTaken : String → List Buffered → Buffered → Type 0
IsTaken name bs b =
    (before : List Buffered) × (after : List Buffered) × (bs ≡ before ++ b ∷ after)
    × Unnamed name before
    × (take_signal b.id bs ≡ some (b, before ++ after))

IsTaken-here : (name : String) (x : Buffered) (bs : List Buffered) → IsTaken name (x ∷ bs) x
unfolding take_signal
IsTaken-here name x bs = ([], bs, refl, tt, rw eq_refl refl)

IsTaken-later :
    (name : String) (x b : Buffered) (bs : List Buffered)
    → Unused x.id bs
    → str_eq x.name name ≡ false
    → IsTaken name bs b
    → IsTaken name (x ∷ bs) b
unfolding take_signal
IsTaken-later name x b bs unused other (before, after, e, unnamed, taken) = (
  x ∷ before,
  after,
  ap (λ l. x ∷ l) e,
  (other, unnamed),
  rw (str_ne x.id b.id (Unused-mid x.id before after b (subst (Unused x.id) e unused)), taken) refl,
)

some-inj : (x b : Buffered) → some x ≡ some b → x ≡ b
some-inj x b e = cc

IsTaken-either :
    (name : String) (x b : Buffered) (bs : List Buffered) (here : Bool)
    → Unused x.id bs
    → str_eq x.name name ≡ here
    → (buffered_signal name bs ≡ some b → IsTaken name bs b)
    → (if here then some x else buffered_signal name bs) ≡ some b
    → IsTaken name (x ∷ bs) b
IsTaken-either name x b bs true unused h later e =
    subst (IsTaken name (x ∷ bs)) (some-inj x b e) (IsTaken-here name x bs)
IsTaken-either name x b bs false unused h later e = IsTaken-later name x b bs unused h (later e)

pub signal-IsTaken :
    (name : String) (bs : List Buffered) (b : Buffered)
    → UniqueIds bs
    → buffered_signal name bs ≡ some b
    → IsTaken name bs b
unfolding buffered_signal
signal-IsTaken name [] b h e = absurd (cc)
signal-IsTaken name (x ∷ bs) b h e =
    IsTaken-either name x b bs (str_eq x.name name) h.0 refl (signal-IsTaken name bs b h.1) e
