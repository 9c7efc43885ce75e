-- ===== src/Fold/Scenarios/Signals.antt =====
-- Buffered signals of internal/fold at a concrete buffer.
use packtrail.Prelude.{
  ◌≡◌, ◌≢◌, refl, String, false, str_eq, eq_iff, arith, some, none, List, [], ◌∷◌,
}
use packtrail.Fold.State.{Buffered}
use packtrail.Fold.Decide.Route.{buffered_signal}
use packtrail.Fold.Signals.{UniqueIds, IsTaken, signal-IsTaken}

abbrev first_ok : Buffered
first_ok = record { name = "ok"; id = "s2"; payload = none }

abbrev buffer : List Buffered
buffer =
    record { name = "other"; id = "s1"; payload = none }
    ∷ first_ok
    ∷ record { name = "ok"; id = "s3"; payload = none }
    ∷ []

apart : (s t : String) → str_eq s t ≡ false → s ≢ t
apart s t h e = ground (arith, eq_iff s t, h, e)

buffer_unique : UniqueIds buffer
buffer_unique =
    ((apart "s2" "s1" refl, (apart "s3" "s1" refl, tt)), ((apart "s3" "s2" refl, tt), (tt, tt)))

first_found : buffered_signal "ok" buffer ≡ some first_ok
unfolding buffered_signal
first_found = refl

signal-IsTaken_example : IsTaken "ok" buffer first_ok
signal-IsTaken_example = signal-IsTaken "ok" buffer first_ok buffer_unique first_found
