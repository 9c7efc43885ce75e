-- ===== src/Worker/Semaphore/Loop.antt =====
-- worker/semaphore.go: the retries of casSem, and the delay of a job that is handed back.
use packtrail.Prelude.{
  ℕ, zero, suc, ◌*◌, ◌^◌, ◌≤◌, ◌≡◌, ◌≢◌, ◌<◌, ◌∙◌, ap, sym, refl, pos, Bool, true, false, Option,
  none, some, List, [], ◌∷◌, arith, Option-cases, inl, inr,
}
use packtrail.GoMap.{empty}
use packtrail.Outcome.{ok}
use packtrail.Worker.Semaphore.{
  Holders, Answer, found, missing, failed, write, stop, to_write, attempt, cas_attempts, cas_loop,
  cas_sem, busy_delay, second, min,
}

-- The write that the bucket took: in this round fn accepted the value read, and the write expects
-- the revision read.
pub data Wins (fn : Holders → Option Holders) (rev : ℕ) (h : Holders)
    : List (Answer × Bool) → Type 0 where
  now :
      {r : ℕ} {old : Holders} {rest : List (Answer × Bool)}
      → fn old ≡ some h
      → rev ≡ r
      → Wins fn rev h ((found r old, true) ∷ rest)
  created :
      {rest : List (Answer × Bool)}
      → fn empty ≡ some h
      → rev ≡ 0
      → Wins fn rev h ((missing, true) ∷ rest)
  later :
      {answer : Answer} {rest : List (Answer × Bool)}
      → attempt fn answer ≢ stop
      → Wins fn rev h rest
      → Wins fn rev h ((answer, false) ∷ rest)

none-ne-some {ℓ} : {A : Type ℓ} {a : A} → none ≡ some a → ⊥
none-ne-some h = cc

some_inj {ℓ} : {A : Type ℓ} {a b : A} → some a ≡ some b → a ≡ b
some_inj h = cc

write-ne-stop : {rev : ℕ} {h : Holders} → write rev h ≡ stop → ⊥
write-ne-stop h = cc

won :
    (fn : Holders → Option Holders) (n rev : ℕ) (h : Holders) (answers : List (Answer × Bool))
    → cas_loop n fn answers ≡ some (rev, h)
    → Wins fn rev h answers
unfolding cas_loop attempt to_write
won fn zero rev h answers e = absurd (cc)
won fn (suc n) rev h [] e = absurd (cc)
won fn (suc n) rev h ((failed, taken) ∷ rest) e = absurd (cc)
won fn (suc n) rev h ((missing, true) ∷ rest) e = elim (Option-cases (fn empty)) [
  | inl g ↦ absurd (none-ne-some (rw (cas_loop, g) at e))
  | inr (k, g) ↦
      let same = some_inj (rw (cas_loop, g) at e) in
      created (g ∙ ap some (ap (λ p. p.1) same)) (sym (ap (λ p. p.0) same))
]
won fn (suc n) rev h ((missing, false) ∷ rest) e = elim (Option-cases (fn empty)) [
  | inl g ↦ absurd (none-ne-some (rw (cas_loop, g) at e))
  | inr (k, g) ↦
      later (rw g (λ w. absurd (write-ne-stop w))) (won fn n rev h rest (rw (cas_loop, g) at e))
]
won fn (suc n) rev h ((found r old, true) ∷ rest) e = elim (Option-cases (fn old)) [
  | inl g ↦ absurd (none-ne-some (rw (cas_loop, g) at e))
  | inr (k, g) ↦
      let same = some_inj (rw (cas_loop, g) at e) in
      now (g ∙ ap some (ap (λ p. p.1) same)) (sym (ap (λ p. p.0) same))
]
won fn (suc n) rev h ((found r old, false) ∷ rest) e = elim (Option-cases (fn old)) [
  | inl g ↦ absurd (none-ne-some (rw (cas_loop, g) at e))
  | inr (k, g) ↦
      later (rw g (λ w. absurd (write-ne-stop w))) (won fn n rev h rest (rw (cas_loop, g) at e))
]

-- If casSem reports a write of h at revision rev, then the bucket took it in a round in which it
-- answered the read with this revision, or with no key for revision 0, and h is what fn makes of
-- the value of that read; in every round before, fn accepted a value and the bucket refused the
-- write.
pub cas_sem-Wins :
    (fn : Holders → Option Holders) (rev : ℕ) (h : Holders) (answers : List (Answer × Bool))
    → cas_sem fn answers ≡ some (rev, h)
    → Wins fn rev h answers
unfolding cas_sem
cas_sem-Wins fn rev h answers e = won fn cas_attempts rev h answers e

delay_shift : (n : ℕ) → 3 ≤ n → min n 3 ≡ 3
delay_shift n h = ground arith

pub busy_delay_steps :
    (n : ℕ)
    → (d : ℕ) × (busy_delay (pos n) ≡ ok d)
      × (second ≤ d)
      × (d ≤ 8 * second)
      × (3 ≤ n → d ≡ 8 * second)
      × (n < 3 → d ≡ 2 ^ n * second)
unfolding busy_delay
busy_delay_steps zero =
    (second, refl, omega arith, omega arith, λ h. absurd (omega arith), λ h. refl)
busy_delay_steps (suc zero) =
    (2 * second, refl, omega arith, omega arith, λ h. absurd (omega arith), λ h. refl)
busy_delay_steps (suc (suc zero)) =
    (4 * second, refl, omega arith, omega arith, λ h. absurd (omega arith), λ h. refl)
busy_delay_steps (suc (suc (suc n))) = (
  8 * second,
  rw (delay_shift (suc (suc (suc n))) (omega arith)) refl,
  omega arith,
  omega arith,
  λ h. refl,
  λ h. absurd (omega arith),
)
