-- ===== src/Fold/Scenarios/Settled.antt =====
-- Joins, waiting and late commands of internal/fold at concrete states.
use packtrail.Prelude.{
  ◌≡◌, ◌↔◌, ◌≤◌, ◌+◌, refl, arith, ℕ, String, Bool, true, false, none, some, List, [], ◌∷◌, leb,
  length, str_eq, if◌then◌else◌,
}
use packtrail.GoMap.{Map, get}
use packtrail.Json.{null}
use packtrail.Outcome.{Result, ok}
use packtrail.Flow.{BranchStatus, JoinKind}
use packtrail.Cmd.{Request, Command}
use packtrail.Fold.State.{State, Ev, Status}
use packtrail.Fold.Apply.{apply}
use packtrail.Fold.Decide.{decide, at_work}
use packtrail.Fold.Decide.Monad.{Work}
use packtrail.Fold.Decide.Join.{tally, join_outcome, needed, waits_for_all}
use packtrail.Fold.Joins.{IsSettled, join_decided_iff, join_decision_stands, join_decides}
use packtrail.Fold.Waiting.{AwaitsInput, waiting_iff}
use packtrail.Fold.Stale.{IsPast, IsStale, stale_ignored, ended_unchanged}
use packtrail.Fold.Scenarios.{
  host, review, complete_command, work_after, state_after, run, started, completed,
}

-- a result of an attempt that was never scheduled
abbrev late_command : Command
late_command = record {
  id = "c7";
  request = Request.fail (record {
    ref = record { key = "draft"; generation = 1; attempt = 9 };
    error = "late";
    retryable = true;
    reason = packtrail.Event.Reason.error;
    usage = [];
  });
}

abbrev pause_command : Command
pause_command = record {
  id = "c3";
  request = Request.interrupt (record {
    ref = record { key = "draft"; generation = 1; attempt = 1 };
    payload = some null;
    usage = [];
  });
}

abbrev paused : Result (Unit {0} × Work)
paused = run review (state_after started) pause_command

abbrev blank_event : Ev
blank_event = record {
  time = 0;
  index = 0;
  cmd_id = "";
  payload = packtrail.Event.entered "";
  seq = 0;
}

abbrev head_of : List Ev → Ev
head_of [] = blank_event
head_of (ev ∷ evs) = ev

paused_ok :
    apply host (some review) (state_after started) (head_of (work_after paused).out)
    ≡ ok (state_after paused)
unfolding work_after run
paused_ok = refl

paused_run : (state_after paused).status ≡ Status.waiting
unfolding work_after run
paused_run = refl

waiting_iff_example :
    ((state_after paused).status ≡ Status.waiting) ↔ AwaitsInput (state_after paused)
unfolding work_after run
waiting_iff_example =
    waiting_iff host (some review) (state_after started) (state_after paused)
      (head_of (work_after paused).out) paused_ok tt

started_born : packtrail.Fold.State.exists (state_after started) ≡ true
unfolding work_after run
started_born = refl

started_live : packtrail.Fold.State.terminal (state_after started).status ≡ false
unfolding work_after run
started_live = refl

late_stale : IsStale (state_after started) "c7" late_command.request
unfolding work_after run
late_stale = IsStale.failed _ (IsPast.reattempted _ refl (λ h. omega (arith, h)))

stale_ignored_example :
    decide host review (state_after started) late_command 5 ≡ ok (tt, at_work (state_after started))
stale_ignored_example =
    stale_ignored host review (state_after started) late_command 5 started_born started_live
      late_stale

completed_born : packtrail.Fold.State.exists (state_after completed) ≡ true
unfolding work_after run
completed_born = refl

completed_over : packtrail.Fold.State.terminal (state_after completed).status ≡ true
unfolding work_after run
completed_over = refl

abbrev again : Work
again = work_after (run review (state_after completed) complete_command)

again_ok : decide host review (state_after completed) complete_command 5 ≡ ok (tt, again)
unfolding work_after run
again_ok = refl

ended_unchanged_example : again ≡ at_work (state_after completed)
ended_unchanged_example =
    ended_unchanged host review (state_after completed) complete_command 5 again completed_born
      completed_over again_ok

abbrev both : List String
both = "a" ∷ "b" ∷ []

abbrev half : Map BranchStatus
half = ("a", BranchStatus.done) ∷ ("b", BranchStatus.pending) ∷ []

abbrev full : Map BranchStatus
full = ("a", BranchStatus.done) ∷ ("b", BranchStatus.broken) ∷ []

half_branches :
    (a b : Bool)
    → IsSettled
        (if a then some BranchStatus.done else if b then some BranchStatus.pending else none)
    → (if a then some BranchStatus.done else if b then some BranchStatus.broken else none)
      ≡ (if a then some BranchStatus.done else if b then some BranchStatus.pending else none)
half_branches true b s = refl
half_branches false true s = absurd s
half_branches false false s = absurd s

half_keeps : (x : String) → IsSettled (get half x) → get full x ≡ get half x
unfolding get
half_keeps x s = half_branches (str_eq "a" x) (str_eq "b" x) s

half_decided : join_outcome JoinKind.any 2 (tally half both) ≡ some true
unfolding run
half_decided = refl

join_decided_iff_example : (join_outcome JoinKind.any 2 (tally half both) ≡ some true) ↔ (
    ((k : ℕ)
      → k ≤ (tally half both).pending
      → leb (needed JoinKind.any 2) (length (tally half both).succeeded + k) ≡ true)
    × (waits_for_all JoinKind.any ≡ true → (tally half both).pending ≡ 0))
join_decided_iff_example = join_decided_iff JoinKind.any 2 (tally half both) true

join_decision_stands_example : join_outcome JoinKind.any 2 (tally full both) ≡ some true
join_decision_stands_example =
    join_decision_stands JoinKind.any both half full true half_keeps half_decided

full_ended : (tally full both).pending ≡ 0
unfolding run
full_ended = refl

join_decides_example :
    (length (tally full both).succeeded + length (tally full both).failed ≡ 2)
    × (join_outcome JoinKind.all 2 (tally full both)
        ≡ some (leb (needed JoinKind.all 2) (length (tally full both).succeeded)))
join_decides_example = join_decides JoinKind.all both full full_ended
