-- ===== src/Fold/Scenarios/Forks.antt =====
-- A fork, a continuation and an abort of internal/fold at a concrete execution.
use packtrail.Prelude.{◌≡◌, ◌≢◌, refl, some, none, [], length}
use packtrail.Outcome.{text, Result, ok, err, out_of_fuel}
use packtrail.Event.{Reason, Segment}
use packtrail.Fold.State.{Status, new}
use packtrail.Fold.Apply.{apply_all}
use packtrail.Fold.Decide.Fork.{decide_fork, continue_as_new, abort}
use packtrail.Fold.Decide.Monad.{Work}
use packtrail.Fold.Replay.Forks.{fork_replays, fork_terminates}
use packtrail.Fold.Aborts.{IsAborted, abort-IsAborted, Continues, continue_as_new-Continues}
use packtrail.Fold.Scenarios.{host, review, start_command, work_after, state_after, run, started}

forked : Result (Unit {0} × Work)
unfolding run
forked = decide_fork host review (new "y") (state_after started) "x" 4 start_command [] 6

-- the fork itself, the task and its timer
forked_run : length (work_after forked).out ≡ 3
unfolding work_after run forked
forked_run = refl

forked_ok :
    decide_fork host review (new "y") (state_after started) "x" 4 start_command [] 6
    ≡ ok (tt, work_after forked)
unfolding work_after run forked
forked_ok = refl

fork_replays_example :
    apply_all host (some review) (new "y") (work_after forked).out ≡ ok (state_after forked)
fork_replays_example =
    fork_replays host review (new "y") (state_after started) "x" 4 start_command [] 6
      {w = work_after forked} forked_ok

fork_terminates_example :
    decide_fork host review (new "y") (state_after started) "x" 4 start_command [] 6
    ≢ err out_of_fuel
fork_terminates_example =
    fork_terminates host review (new "y") (state_after started) "x" 4 start_command [] 6

aborted : Result (Unit {0} × Work)
unfolding run
aborted = abort host review (state_after started) none start_command Reason.error "gone" 6

aborted_run : (state_after aborted).status ≡ Status.failed
unfolding work_after run aborted
aborted_run = refl

aborted_ok :
    abort host review (state_after started) none start_command Reason.error "gone" 6
    ≡ ok (tt, work_after aborted)
unfolding work_after run aborted
aborted_ok = refl

abbrev segment : Segment
segment = record { object = "o"; first_index = 1; last_index = 4; first_seq = 1; last_seq = 4 }

continued : Result (Unit {0} × Work)
unfolding run
continued = continue_as_new host review (state_after started) segment start_command 6

continued_run : ((state_after continued).base ≡ 5) × ((state_after continued).events ≡ 5)
unfolding work_after run continued
continued_run = (refl, refl)

continued_ok :
    continue_as_new host review (state_after started) segment start_command 6
    ≡ ok (tt, work_after continued)
unfolding work_after run continued
continued_ok = refl

abort-IsAborted_example :
    IsAborted none Reason.error (text "gone") (state_after started) (work_after aborted)
abort-IsAborted_example =
    abort-IsAborted host review (state_after started) none start_command Reason.error "gone" 6
      {w = work_after aborted} aborted_ok

continue_as_new-Continues_example :
    Continues host review segment (state_after started) (work_after continued)
continue_as_new-Continues_example =
    continue_as_new-Continues host review (state_after started) segment start_command 6
      {w = work_after continued} continued_ok
