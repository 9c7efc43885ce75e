-- ===== src/Fold/Scenarios/Maps.antt =====
-- The loop over the items of a map at a concrete map of three items, two at a time.
use packtrail.Prelude.{◌≡◌, refl, none, some, [], ◌∷◌, length}
use packtrail.GoMap.{get}
use packtrail.Json.{str}
use packtrail.Outcome.{Result, ok}
use packtrail.Flow.{Node, NodeType}
use packtrail.Fold.State.{Status, MapRun, new}
use packtrail.Fold.Decide.{decider_for, at_work}
use packtrail.Fold.Decide.Monad.{Decider, Work}
use packtrail.Fold.Decide.Route.{item_loop}
use packtrail.Fold.MapLoop.{IsSaturated, item_loop_ends}
use packtrail.Fold.Scenarios.{host, blank, flow_of, start_command, work_after, run}

abbrev each : Node
each = record (blank "each" NodeType.map) { kind = "writer"; timeout = 60; max_parallel = 2 }

abbrev three : MapRun
three = record {
  items = some (str "a") ∷ some (str "b") ∷ some (str "c") ∷ [];
  outputs = none ∷ none ∷ none ∷ [];
  done = 0;
  next = 0;
  max_parallel = 2;
}

abbrev at_map : Work
at_map =
    at_work (record (new "x") { status = Status.running; events = 3; maps = ("each", three) ∷ [] })

abbrev decider : Decider
decider = decider_for host (flow_of "each" (each ∷ [])) start_command 5

-- what the loop does, with all that it calls open
looped : Result (Unit {0} × Work)
unfolding run
looped = item_loop 3 each decider at_map

looped_ok : item_loop 3 each decider at_map ≡ ok (tt, work_after looped)
unfolding work_after run looped
looped_ok = refl

two_started : length (work_after looped).out ≡ 4
unfolding work_after run looped
two_started = refl

three_there : get at_map.st.maps "each" ≡ some three
unfolding run
three_there = refl

item_loop_ends_example : IsSaturated each (work_after looped)
item_loop_ends_example =
    item_loop_ends decider each at_map (work_after looped) three three_there looped_ok
