-- ===== src/Fold/Decide/Join.antt =====
-- internal/fold/decide.go: when the join of a fan-out is decided, and what follows.
use packtrail.Prelude.{
  ℕ, suc, ◌+◌, String, Bool, true, false, not, ◌&&◌, Option, none, some, List, [], ◌∷◌, ltb, leb,
  str_eq, if◌then◌else◌, length,
}
use packtrail.GoMap.{Map, get, empty, put}
use packtrail.Json.{obj, Raw, marshal_fields}
use packtrail.Outcome.{join_failed}
use packtrail.Event.{Reason, entered, join}
use packtrail.Flow.{Node, BranchStatus, done, broken, dropped, JoinKind, wait_for}
use packtrail.Fold.Apply.Nodes.{raw_at}
use packtrail.Fold.Decide.Monad.{Step, ask, look, deref, skip, ◌>>=◌, ◌>>◌, emit}
use packtrail.Fold.Decide.Basics.{node, owned_children, fail, cancel_owned}
use packtrail.Fold.Decide.Route.{advance, enter}

-- the awaited branches: succeeded, failed or cancelled, and how many are pending
pub record Tally : Type 0 where
  pub succeeded : List String
  pub failed : List String
  pub pending : ℕ

unfoldable pub count_branch : String → Option BranchStatus → Tally → Tally
count_branch b (some done) t = record t { succeeded = b ∷ t.succeeded }
count_branch b (some broken) t = record t { failed = b ∷ t.failed }
count_branch b (some dropped) t = record t { failed = b ∷ t.failed }
count_branch b _ t = record t { pending = suc t.pending }

unfoldable pub tally : Map BranchStatus → List String → Tally
unfolding count_branch
tally branches [] = record { succeeded = []; failed = []; pending = 0 }
tally branches (b ∷ waits) = count_branch b (get branches b) (tally branches waits)

unfoldable pub needed : JoinKind → ℕ → ℕ
needed JoinKind.all waits = waits
needed JoinKind.any waits = 1
needed (JoinKind.quorum q) waits = q
needed (JoinKind.min q) waits = q

unfoldable pub waits_for_all : JoinKind → Bool
waits_for_all (JoinKind.min q) = true
waits_for_all _ = false

-- none while the join is undecided, and then whether it succeeded
unfoldable pub join_outcome : JoinKind → ℕ → Tally → Option Bool
unfolding needed waits_for_all
join_outcome kind waits t =
    let need = needed kind waits in
    let success = leb need (length t.succeeded) in
    if waits_for_all kind && ltb 0 t.pending
    then none
    else if not success && leb need (length t.succeeded + t.pending)
    then none
    else some success

-- outputs[b] = results[b] for each branch that succeeded
unfoldable pub branch_outputs : Map Raw → List String → Map Raw → Map Raw
branch_outputs results [] out = out
branch_outputs results (b ∷ bs) out = branch_outputs results bs (put out b (raw_at results b))

unfoldable pub after_join : Node → Tally → Bool → Step
after_join j t true = advance enter j ""
after_join j t false =
    if str_eq j.on_failure ""
    then fail Reason.join (join_failed j.id t.failed) j.id
    else enter j.on_failure

-- (*decider).closeJoin
unfoldable pub close_join : String → Node → Tally → Bool → Step
unfolding branch_outputs after_join
close_join fan j t success = do
  children ← owned_children fan
  cancel_owned fan "join settled"
  outputs ← look (λ w. branch_outputs w.st.results t.succeeded empty)
  emit (entered j.id)
  emit (
      join (record {
        node = j.id;
        fanout = fan;
        succeeded = t.succeeded;
        failed = t.failed;
        ok = success;
        output = some (obj (marshal_fields outputs));
        cancel_children = children;
      }))
  after_join j t success

unfoldable pub settle_join : String → Node → Tally → Option Bool → Step
settle_join fan j t none = skip
settle_join fan j t (some success) = close_join fan j t success

-- (*decider).evalJoin
unfoldable pub eval_join : String → Step
unfolding settle_join
eval_join fan = do
  found ← look (λ w. get w.st.fans fan)
  f ← deref found
  joined ← node f.join
  j ← deref joined
  waits ← ask (λ d. wait_for d.def j.id)
  let t = tally f.branches waits
  settle_join fan j t (join_outcome j.policy (length waits) t)
