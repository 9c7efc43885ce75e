-- ===== src/Ready/Phases.antt =====
-- internal/ready/ready.go: when a process is ready.
use packtrail.Prelude.{
  ℕ, zero, suc, ◌-◌, ◌≤◌, ◌<◌, ◌≡◌, refl, sym, subst, ap, ◌∙◌, Bool, true, false, not, ◌&&◌, ◌||◌,
  some, List, [], ◌∷◌, ◌++◌, arith, if◌then◌else◌, ◌==◌, get_elem?, set, replicate, Bool-cases,
  Option-cases, inl, inr,
}
use packtrail.Outcome.{ok}
use packtrail.Ready.{
  Signal, Part, Process, new, open_up, reset, open_at, begin_run, count_part, call_part, end_run,
}

-- the parts of a run that are not pulling yet
abbrev pub waiting : ℕ → List Part → ℕ
waiting run [] = 0
waiting run (p ∷ ps) =
    if run == p.of_run && not p.called then suc (waiting run ps) else waiting run ps

-- no part is of a later run
abbrev UpTo : ℕ → List Part → Type 0
UpTo run [] = Unit
UpTo run (p ∷ ps) = (p.of_run ≤ run) × UpTo run ps

UpTo-mono : (a b : ℕ) (ps : List Part) → a ≤ b → UpTo a ps → UpTo b ps
UpTo-mono a b [] le h = tt
UpTo-mono a b (p ∷ ps) le h = (omega (arith, h.0), UpTo-mono a b ps le h.1)

UpTo-set :
    (run i : ℕ) (ps : List Part) (p : Part) → p.of_run ≤ run → UpTo run ps → UpTo run (set ps i p)
UpTo-set run i [] p le h = tt
UpTo-set run zero (q ∷ ps) p le h = (le, h.1)
UpTo-set run (suc i) (q ∷ ps) p le h = (h.0, UpTo-set run i ps p le h.1)

UpTo-begin :
    (run n : ℕ) (ps : List Part)
    → UpTo run ps
    → UpTo (suc run) (ps ++ replicate n (record { of_run = suc run; called = false }))
UpTo-begin run zero [] h = tt
UpTo-begin run (suc n) [] h = (omega arith, UpTo-begin run n [] tt)
UpTo-begin run n (p ∷ ps) h = (omega (arith, h.0), UpTo-begin run n ps h.1)

waiting-later : (run : ℕ) (ps : List Part) → UpTo run ps → waiting (suc run) ps ≡ 0
waiting-later run [] h = refl
waiting-later run (p ∷ ps) h = ground (arith, h.0, waiting-later run ps h.1)

waiting-begin :
    (run n : ℕ) (ps : List Part)
    → UpTo run ps
    → waiting (suc run) (ps ++ replicate n (record { of_run = suc run; called = false })) ≡ n
waiting-begin run zero [] h = refl
waiting-begin run (suc n) [] h = ground (arith, waiting-begin run n [] tt)
waiting-begin run n (p ∷ ps) h = ground (arith, h.0, waiting-begin run n ps h.1)

waiting-set :
    (run i : ℕ) (ps : List Part) (p : Part)
    → get_elem? ps i ≡ some p
    → (run == p.of_run) ≡ true
    → p.called ≡ false
    → suc (waiting run (set ps i (record p { called = true }))) ≡ waiting run ps
waiting-set run i [] p e r c = absurd (cc)
waiting-set run zero (q ∷ ps) p e r c = ground arith
waiting-set run (suc i) (q ∷ ps) p e r c = ground (arith, waiting-set run i ps p e r c)

-- no part is of this run or a later one
abbrev Before : ℕ → List Part → Type 0
Before run [] = Unit
Before run (p ∷ ps) = (p.of_run < run) × Before run ps

UpTo-Before : (run : ℕ) (ps : List Part) → UpTo run ps → Before (suc run) ps
UpTo-Before run [] h = tt
UpTo-Before run (p ∷ ps) h = (omega (arith, h.0), UpTo-Before run ps h.1)

Before-UpTo : (run : ℕ) (ps : List Part) → Before run ps → UpTo run ps
Before-UpTo run [] h = tt
Before-UpTo run (p ∷ ps) h = (omega (arith, h.0), Before-UpTo run ps h.1)

Before-get :
    (run i : ℕ) (ps : List Part) (p : Part)
    → get_elem? ps i ≡ some p
    → Before run ps
    → p.of_run < run
Before-get run i [] p e h = absurd (cc)
Before-get run zero (q ∷ ps) p e h = ground (arith, h.0)
Before-get run (suc i) (q ∷ ps) p e h = Before-get run i ps p e h.1

-- the processes that any calls make, one after the other, and whether a run is in progress: from
-- its Begin until its end
pub data Reach : Bool → Process → Type 0 where
  made : Reach false new
  begun : {b : Bool} {p q : Process} → Reach b p → (n : ℕ) → begin_run n p ≡ ok q → Reach true q
  called : {b : Bool} {p q : Process} → Reach b p → (i : ℕ) → call_part i p ≡ ok q → Reach b q
  ended :
      {b : Bool} {p : Process}
      → Reach b p
      → (run : ℕ) (c : Bool) → c ≡ (if p.signal.run == run then false else b)
      → Reach c (end_run run p)

record Inv (b : Bool) (p : Process) : Type 0 where
  channel : p.signal.ch.closed ≡ p.signal.up
  upto : UpTo p.signal.run p.parts
  idle : b ≡ false → Before p.signal.run p.parts
  left : b ≡ true → p.signal.left ≡ waiting p.signal.run p.parts
  ready : p.signal.up ≡ (b && (waiting p.signal.run p.parts == 0))

-- a signal that is not ready, opened if no part is left
record Opened (n : ℕ) (s t : Signal) : Type 0 where
  channel : t.ch.closed ≡ t.up
  up : t.up ≡ (n == 0)
  run : t.run ≡ s.run
  left : t.left ≡ s.left

open_at-Opened :
    (n : ℕ) (s : Signal)
    → s.up ≡ false
    → s.ch.closed ≡ s.up
    → (t : Signal) × (open_at n s ≡ ok t) × Opened n s t
unfolding open_at open_up
open_at-Opened zero s u c = (
  record s { up = true; ch = record { number = s.ch.number; closed = true } },
  ground arith,
  record { channel = refl; up = refl; run = refl; left = refl },
)
open_at-Opened (suc n) s u c =
    (s, refl, record { channel = c; up = ground arith; run = refl; left = refl })

reset_up : (s : Signal) → (reset s).up ≡ false
unfolding reset
reset_up s = ground arith

reset_closed : (s : Signal) → s.ch.closed ≡ s.up → (reset s).ch.closed ≡ false
unfolding reset
reset_closed s c = ground arith

begin_returns :
    (b : Bool) (p : Process) (n : ℕ) → Inv b p → (q : Process) × (begin_run n p ≡ ok q) × Inv true q
unfolding begin_run
begin_returns b p n inv =
    let run = suc p.signal.run in
    let s : Signal = record (reset p.signal) { run = run; left = n } in
    let (t, opened, h) =
      open_at-Opened n s (reset_up p.signal)
        (reset_closed p.signal inv.channel ∙ sym (reset_up p.signal)) in
    let parts = p.parts ++ replicate n (record { of_run = run; called = false }) in
    let q : Process = record { signal = t; parts = parts } in
    let new_parts = waiting-begin p.signal.run n p.parts inv.upto in
    (
      q,
      rw opened refl,
      record {
        channel = h.channel;
        upto =
            subst (λ (r : ℕ). UpTo r parts) (sym h.run)
              (UpTo-begin p.signal.run n p.parts inv.upto);
        idle = λ e. absurd (cc);
        left = λ e. h.left ∙ sym new_parts ∙ ap (λ r. waiting r parts) (sym h.run);
        ready = h.up ∙ ap (λ k. k == 0) (sym new_parts ∙ ap (λ r. waiting r parts) (sym h.run));
      },
    )

reset_run : (s : Signal) → (reset s).run ≡ s.run
unfolding reset
reset_run s = ground arith

end-Inv :
    (b c : Bool) (p : Process) (run : ℕ)
    → c ≡ (if p.signal.run == run then false else b)
    → Inv b p
    → Inv c (end_run run p)
unfolding end_run
end-Inv b c p run e inv = elim (Bool-cases (p.signal.run == run)) [
  | inr other ↦ rw (end_run, other) (subst (λ x. Inv x p) (sym (rw other at e)) inv)
  | inl same ↦
      rw (end_run, same)
        (let stopped : c ≡ false = rw same at e in
          let s : Signal = record p.signal { run = suc p.signal.run } in
          record {
            channel = reset_closed s inv.channel ∙ sym (reset_up s);
            upto =
                subst (λ (r : ℕ). UpTo r p.parts) (sym (reset_run s))
                  (UpTo-mono p.signal.run (suc p.signal.run) p.parts (omega arith) inv.upto);
            idle = λ _.
                subst (λ (r : ℕ). Before r p.parts) (sym (reset_run s))
                  (UpTo-Before p.signal.run p.parts inv.upto);
            left = λ t. absurd (cc (stopped, t));
            ready = reset_up s ∙ sym (ap (λ x. x && (waiting (reset s).run p.parts == 0)) stopped);
          })
]

count_returns :
    (p : Process) (i : ℕ) (part : Part)
    → Inv true p
    → get_elem? p.parts i ≡ some part
    → (p.signal.run == part.of_run) ≡ true
    → part.called ≡ false
    → (q : Process) × (count_part i part p ≡ ok q) × Inv true q
unfolding count_part
count_returns p i part inv e r c =
    let fewer = waiting-set p.signal.run i p.parts part e r c in
    let left = p.signal.left - 1 in
    let s : Signal = record p.signal { left = left } in
    let (t, opened, h) = open_at-Opened left s (ground (arith, inv.ready, fewer)) inv.channel in
    let parts = set p.parts i (record part { called = true }) in
    let count : left ≡ waiting p.signal.run parts = omega (arith, inv.left refl, fewer) in
    let q : Process = record { signal = t; parts = parts } in
    (
      q,
      rw opened refl,
      record {
        channel = h.channel;
        upto =
            subst (λ (k : ℕ). UpTo k parts) (sym h.run)
              (UpTo-set p.signal.run i p.parts (record part { called = true }) (ground (arith, r))
                inv.upto);
        idle = λ e. absurd (cc);
        left = λ e. h.left ∙ count ∙ ap (λ k. waiting k parts) (sym h.run);
        ready = h.up ∙ ap (λ k. k == 0) (count ∙ ap (λ k. waiting k parts) (sym h.run));
      },
    )

-- a callback of the run in progress is only there while one is
call_of :
    (b : Bool) (p : Process) (i : ℕ) (part : Part)
    → Inv b p
    → get_elem? p.parts i ≡ some part
    → (p.signal.run == part.of_run) ≡ true
    → b ≡ true
call_of true p i part inv e r = refl
call_of false p i part inv e r =
    absurd (ground (arith, r, Before-get p.signal.run i p.parts part e (inv.idle refl)))

call_returns :
    (b : Bool) (p : Process) (i : ℕ) → Inv b p → (q : Process) × (call_part i p ≡ ok q) × Inv b q
unfolding call_part
call_returns b p i inv = elim (Option-cases (get_elem? p.parts i)) [
  | inl e ↦ (p, rw (call_part, e) refl, inv)
  | inr (part, e) ↦ elim (Bool-cases (not (p.signal.run == part.of_run) || part.called)) [
    | inl old ↦ (p, rw (call_part, e, old) refl, inv)
    | inr first ↦
        let own : (p.signal.run == part.of_run) ≡ true = ground (arith, first) in
        let running = call_of b p i part inv e own in
        let (q, counted, kept) =
          count_returns p i part (subst (λ x. Inv x p) running inv) e own (ground (arith, first)) in
        (q, rw (call_part, e, first) counted, subst (λ x. Inv x q) (sym running) kept)
  ]
]

ok_same {ℓ} : {A : Type ℓ} {a b : A} → ok a ≡ ok b → a ≡ b
ok_same h = cc

new-Inv : Inv false new
new-Inv = record {
  channel = refl;
  upto = tt;
  idle = λ e. tt;
  left = λ e. absurd (cc);
  ready = refl;
}

Reach-Inv : {b : Bool} {p : Process} → Reach b p → Inv b p
Reach-Inv made = new-Inv
Reach-Inv (begun {b} {p} {q} r n e) =
    let (t, ends, inv) = begin_returns b p n (Reach-Inv r) in
    subst (Inv true) (ok_same (sym ends ∙ e)) inv
Reach-Inv (called {b} {p} {q} r i e) =
    let (t, ends, inv) = call_returns b p i (Reach-Inv r) in
    subst (Inv b) (ok_same (sym ends ∙ e)) inv
Reach-Inv (ended {b} {p} r run c e) = end-Inv b c p run e (Reach-Inv r)

-- After any calls of Begin, of its callbacks and of its ends, in any order: the process is ready
-- exactly if a run is in progress and each of its parts has called back, and the channel is closed
-- exactly if it is ready.
pub ready_iff :
    (b : Bool) (p : Process)
    → Reach b p
    → (p.signal.up ≡ (b && (waiting p.signal.run p.parts == 0)))
      × (p.signal.ch.closed ≡ p.signal.up)
ready_iff b p r = let inv = Reach-Inv r in (inv.ready, inv.channel)

-- After any such calls, Begin with any number of parts and any callback return: no channel is
-- closed twice.
pub signal_returns :
    (b : Bool) (p : Process)
    → Reach b p
    → ((n : ℕ) → (q : Process) × (begin_run n p ≡ ok q))
      × ((i : ℕ) → (q : Process) × (call_part i p ≡ ok q))
signal_returns b p r =
    let inv = Reach-Inv r in
    (
      λ n. let (q, e, _) = begin_returns b p n inv in (q, e),
      λ i. let (q, e, _) = call_returns b p i inv in (q, e),
    )
