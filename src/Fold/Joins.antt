-- ===== src/Fold/Joins.antt =====
-- internal/fold/decide.go, (*decider).evalJoin: when a join is decided, and how.
use packtrail.Prelude.{
  ℕ, suc, ◌+◌, ◌≤◌, ◌≡◌, ◌↔◌, refl, String, Bool, true, false, Option, none, some, List, [], ◌∷◌,
  arith, not, ◌&&◌, if◌then◌else◌, ltb, leb, length,
}
use packtrail.GoMap.{Map, get}
use packtrail.Flow.{BranchStatus, pending, done, broken, dropped, JoinKind}
use packtrail.Fold.Decide.Join.{Tally, tally, count_branch, needed, waits_for_all, join_outcome}

-- a branch that has ended
abbrev pub IsSettled : Option BranchStatus → Type 0
IsSettled (some done) = Unit
IsSettled (some broken) = Unit
IsSettled (some dropped) = Unit
IsSettled _ = ⊥

count_branch-total :
    (b : String) (o : Option BranchStatus) (t : Tally)
    → length (count_branch b o t).succeeded
        + length (count_branch b o t).failed
        + (count_branch b o t).pending
      ≡ suc (length t.succeeded + length t.failed + t.pending)
unfolding count_branch
count_branch-total b none t = omega arith
count_branch-total b (some pending) t = omega arith
count_branch-total b (some done) t = omega arith
count_branch-total b (some broken) t = omega arith
count_branch-total b (some dropped) t = omega arith

-- Every awaited branch is counted once.
tally-total :
    (branches : Map BranchStatus) (waits : List String)
    → length (tally branches waits).succeeded
        + length (tally branches waits).failed
        + (tally branches waits).pending
      ≡ length waits
unfolding tally
tally-total branches [] = refl
tally-total branches (b ∷ waits) = omega (
  arith,
  count_branch-total b (get branches b) (tally branches waits),
  tally-total branches waits,
)

-- join_outcome, of numbers
abbrev decision : Bool → ℕ → ℕ → ℕ → Option Bool
decision wait need s p =
    if wait && ltb 0 p
    then none
    else if not (leb need s) && leb need (s + p)
    then none
    else some (leb need s)

decision-grows :
    (wait b : Bool) (need s p s' p' : ℕ)
    → s ≤ s'
    → s' + p' ≤ s + p
    → decision wait need s p ≡ some b
    → decision wait need s' p' ≡ some b
decision-grows true b need s p s' p' l m h = ground arith
decision-grows false b need s p s' p' l m h = ground arith

decision-ends : (wait : Bool) (need s p : ℕ) → p ≡ 0 → decision wait need s p ≡ some (leb need s)
decision-ends true need s p h = ground arith
decision-ends false need s p h = ground arith

decision→each :
    (b : Bool) (need s p k : ℕ) → decision false need s p ≡ some b → k ≤ p → leb need (s + k) ≡ b
decision→each b need s p k h l = ground arith

each→decision :
    (b : Bool) (need s p : ℕ)
    → leb need (s + 0) ≡ b
    → leb need (s + p) ≡ b
    → decision false need s p ≡ some b
each→decision b need s p h l = ground arith

-- Of two tallies the second is one that the first can grow into.
abbrev Grows : Tally → Tally → Type 0
Grows t u =
    (length t.succeeded ≤ length u.succeeded)
    × (length u.succeeded + u.pending ≤ length t.succeeded + t.pending)

decided-Grows :
    (kind : JoinKind) (waits : ℕ) (t u : Tally) (b : Bool)
    → Grows t u
    → join_outcome kind waits t ≡ some b
    → join_outcome kind waits u ≡ some b
unfolding join_outcome
decided-Grows kind waits t u b g h =
    decision-grows (waits_for_all kind) b (needed kind waits) _ _ _ _ g.0 g.1 h

decision_waits :
    (b : Bool) (need s p : ℕ) → decision true need s p ≡ some b → (p ≡ 0) × (leb need s ≡ b)
decision_waits b need s p h = (ground arith, ground arith)

decision_iff :
    (wait b : Bool) (need s p : ℕ)
    → (decision wait need s p ≡ some b)
      ↔ (((k : ℕ) → k ≤ p → leb need (s + k) ≡ b) × (wait ≡ true → p ≡ 0))
decision_iff false b need s p = (
  λ e. (λ k l. decision→each b need s p k e l, λ w. absurd (cc)),
  λ h. each→decision b need s p (h.0 0 (omega arith)) (h.0 p (omega arith)),
)
decision_iff true b need s p = (
  λ e. let (over, is) = decision_waits b need s p e in (λ k l. each_over k l over is, λ w. over),
  λ h. none_left (h.1 refl) (h.0 0 (omega arith)),
)
  where
    each_over : (k : ℕ) → k ≤ p → p ≡ 0 → leb need s ≡ b → leb need (s + k) ≡ b
    each_over k l over is = ground arith

    none_left : p ≡ 0 → leb need (s + 0) ≡ b → decision true need s p ≡ some b
    none_left over is = ground arith

pub join_decided_iff :
    (kind : JoinKind) (waits : ℕ) (t : Tally) (b : Bool)
    → (join_outcome kind waits t ≡ some b) ↔ (
        ((k : ℕ) → k ≤ t.pending → leb (needed kind waits) (length t.succeeded + k) ≡ b)
        × (waits_for_all kind ≡ true → t.pending ≡ 0))
unfolding join_outcome
join_decided_iff kind waits t b =
    decision_iff (waits_for_all kind) b (needed kind waits) (length t.succeeded) t.pending

Grows-pending :
    (x : String) (after : Option BranchStatus) (t u : Tally)
    → Grows t u
    → Grows (record t { pending = suc t.pending }) (count_branch x after u)
unfolding count_branch
Grows-pending x none t u g = (omega arith, omega arith)
Grows-pending x (some pending) t u g = (omega arith, omega arith)
Grows-pending x (some done) t u g = (omega arith, omega arith)
Grows-pending x (some broken) t u g = (omega arith, omega arith)
Grows-pending x (some dropped) t u g = (omega arith, omega arith)

Grows-count :
    (x : String) (before after : Option BranchStatus) (t u : Tally)
    → (IsSettled before → after ≡ before)
    → Grows t u
    → Grows (count_branch x before t) (count_branch x after u)
unfolding count_branch
Grows-count x (some done) after t u keeps g = rw (keeps tt) (omega arith, omega arith)
Grows-count x (some broken) after t u keeps g = rw (keeps tt) (omega arith, omega arith)
Grows-count x (some dropped) after t u keeps g = rw (keeps tt) (omega arith, omega arith)
Grows-count x none after t u keeps g = Grows-pending x after t u g
Grows-count x (some pending) after t u keeps g = Grows-pending x after t u g

tally-Grows :
    (before after : Map BranchStatus) (waits : List String)
    → ((x : String) → IsSettled (get before x) → get after x ≡ get before x)
    → Grows (tally before waits) (tally after waits)
unfolding tally
tally-Grows before after [] keeps = (omega arith, omega arith)
tally-Grows before after (x ∷ waits) keeps =
    Grows-count x _ _ _ _ (keeps x) (tally-Grows before after waits keeps)

-- Under every policy, once a join is decided its outcome stands, whatever the branches that have not
-- ended do, as long as a branch that has ended keeps its status.
pub join_decision_stands :
    (kind : JoinKind) (waits : List String) (before after : Map BranchStatus) (b : Bool)
    → ((x : String) → IsSettled (get before x) → get after x ≡ get before x)
    → join_outcome kind (length waits) (tally before waits) ≡ some b
    → join_outcome kind (length waits) (tally after waits) ≡ some b
join_decision_stands kind waits before after b keeps h =
    decided-Grows kind (length waits) _ _ b (tally-Grows before after waits keeps) h

-- A join is decided when none of its branches is pending, under every policy: its outcome is whether
-- the branches that succeeded, which are then all that did not fail, are as many as it needs.
pub join_decides :
    (kind : JoinKind) (waits : List String) (branches : Map BranchStatus)
    → (tally branches waits).pending ≡ 0
    → (length (tally branches waits).succeeded + length (tally branches waits).failed
        ≡ length waits)
      × (join_outcome kind (length waits) (tally branches waits)
          ≡ some (leb (needed kind (length waits)) (length (tally branches waits).succeeded)))
unfolding join_outcome
join_decides kind waits branches h = (
  omega (arith, tally-total branches waits, h),
  decision-ends (waits_for_all kind) (needed kind (length waits)) _ _ h,
)
