-- ===== src/Flow/Backoff/Bounds.antt =====
-- flow/flow.go, (*Node).Backoff: the bounds of the delay before a retry.
use packtrail.Prelude.{
  ℕ, zero, suc, ◌+◌, ◌-◌, ◌*◌, ◌%◌, ◌^◌, ◌≤◌, ◌<◌, ◌≡◌, refl, ap, ◌∙◌, max, arith,
}
use native.Mathlib.Nat.{
  div-le_self, mod-eq_of_lt, le-mul_of_pos_right, one-le-pow, two-pow-succ, pow-le-pow_right,
  add-mod_left,
}
use packtrail.Flow.Backoff.{
  BackoffKind, fixed, linear, exponential, Retry, int64_mod, int64_min, backoff, backoff_by,
  base_delay, delay_cap, clamp_delay, int64_shift, int64_div,
}

base_delay-range :
    (r : Retry) → r.delay < int64_min → (0 < base_delay r) × (base_delay r < int64_min)
unfolding base_delay
base_delay-range r h = ground arith

delay_cap-range :
    (r : Retry)
    → r.delay < int64_min
    → r.max_delay < int64_min
    → (base_delay r ≤ delay_cap r) × (delay_cap r < int64_min)
unfolding delay_cap
delay_cap-range r h hm = ground (arith, base_delay-range r h)

clamp_delay-range : (cap d : ℕ) → 0 < cap → (0 < clamp_delay cap d) × (clamp_delay cap d ≤ cap)
unfolding clamp_delay
clamp_delay-range cap d h = ground arith

clamp_delay-least : (cap d base : ℕ) → base ≤ cap → base ≤ d → base ≤ clamp_delay cap d
unfolding clamp_delay
clamp_delay-least cap d base hc hd = ground arith

backoff_by-range :
    (kind : BackoffKind) (base cap retry : ℕ)
    → 0 < cap
    → (0 < backoff_by kind base cap retry) × (backoff_by kind base cap retry ≤ cap)
unfolding backoff_by
backoff_by-range fixed base cap retry h = search clamp_delay-range
backoff_by-range linear base cap retry h = search clamp_delay-range
backoff_by-range exponential base cap retry h =
    ground (arith, clamp_delay-range cap (int64_shift base (retry - 1)) h)

linear-least :
    (base cap retry : ℕ) → 0 < retry → base ≤ cap → base ≤ backoff_by linear base cap retry
unfolding backoff_by int64_div clamp_delay
linear-least base cap retry h hc = ground (arith, div-le_self (base * retry % int64_mod) retry)

exponential-least :
    (base cap retry : ℕ)
    → base ≤ cap
    → base * 2 ^ (retry - 1) < int64_mod
    → base ≤ backoff_by exponential base cap retry
unfolding backoff_by int64_shift clamp_delay
exponential-least base cap retry hc h =
    ground
      (arith, mod-eq_of_lt h, le-mul_of_pos_right base (one-le-pow (retry - 1) 2 (omega arith)))

backoff_by-least :
    (kind : BackoffKind) (base cap retry : ℕ)
    → 0 < retry
    → base ≤ cap
    → (kind ≡ exponential → base * 2 ^ (retry - 1) < int64_mod)
    → base ≤ backoff_by kind base cap retry
unfolding backoff_by clamp_delay
backoff_by-least fixed base cap retry h hc fits = ground arith
backoff_by-least linear base cap retry h hc fits = linear-least base cap retry h hc
backoff_by-least exponential base cap retry h hc fits =
    exponential-least base cap retry hc (fits refl)

-- Where the base delay and the cap are durations that are not negative, the delay before a retry is
-- positive and at most the cap, which is itself a positive int64.
pub backoff_in_range :
    (r : Retry) (attempt : ℕ)
    → r.delay < int64_min
    → r.max_delay < int64_min
    → (0 < backoff r attempt) × (backoff r attempt ≤ delay_cap r) × (delay_cap r < int64_min)
unfolding backoff
backoff_in_range r attempt h hm =
    let base = base_delay-range r h in
    let cap = delay_cap-range r h hm in
    let (positive, capped) =
      backoff_by-range r.kind (base_delay r) (delay_cap r) (max (attempt - 1) 1)
        (omega (arith, base, cap)) in
    (positive, capped, cap.1)

-- Where the base delay and the cap are durations that are not negative, the delay before a retry is
-- never less than the base delay, for the exponential kind where the shifted base delay still fits
-- in 64 bits.
pub backoff_at_least_base :
    (r : Retry) (attempt : ℕ)
    → r.delay < int64_min
    → r.max_delay < int64_min
    → (r.kind ≡ exponential → base_delay r * 2 ^ (max (attempt - 1) 1 - 1) < int64_mod)
    → base_delay r ≤ backoff r attempt
unfolding backoff
backoff_at_least_base r attempt h hm fits =
    backoff_by-least r.kind (base_delay r) (delay_cap r) (max (attempt - 1) 1) (omega arith)
      (delay_cap-range r h hm).0 fits

pow_add : (a b : ℕ) → 2 ^ a * 2 ^ b ≡ 2 ^ (a + b)
pow_add a zero =
    let same : 2 ^ (a + 0) ≡ 2 ^ a = ap (λ n. 2 ^ n) {y = a} (omega arith) in omega arith
pow_add a (suc b) =
    let up : 2 ^ suc b ≡ 2 ^ b + 2 ^ b = two-pow-succ b in
    let all : 2 ^ (a + suc b) ≡ 2 ^ (a + b) + 2 ^ (a + b) =
      ap (λ n. 2 ^ n) {y = suc (a + b)} (omega arith) ∙ two-pow-succ (a + b) in
    grind (arith, up, all, pow_add a b)

shift_wraps : (s : ℕ) → 2 ≤ s → s ≤ 32 → int64_shift (2 ^ (64 - s) + 1) s ≡ 2 ^ s
unfolding int64_shift
shift_wraps s h h' =
    let whole : 2 ^ (64 - s) * 2 ^ s ≡ 2 ^ (64 - s + s) = pow_add (64 - s) s in
    let total : 2 ^ (64 - s + s) ≡ int64_mod = ap (λ n. 2 ^ n) {y = 64} (omega arith) in
    let small : 2 ^ s ≤ 2 ^ 32 = pow-le-pow_right (omega arith) h' in
    let sum : (2 ^ (64 - s) + 1) * 2 ^ s ≡ int64_mod + 2 ^ s = grind (arith, whole, total) in
    rw (sum, add-mod_left int64_mod (2 ^ s)) (mod-eq_of_lt (omega (arith, small)))

abbrev pub wrapping : ℕ → ℕ → ℕ → Retry
wrapping s attempts top = record {
  max_attempts = attempts;
  kind = exponential;
  delay = 2 ^ (64 - s) + 1;
  max_delay = top;
}

exponential_at :
    (base top s d : ℕ)
    → int64_shift base s ≡ d
    → 0 < d
    → d < int64_min
    → d ≤ top
    → s ≤ 61
    → backoff_by exponential base top (suc s) ≡ d
unfolding backoff_by clamp_delay
exponential_at base top s d e h h' hc hs =
    let same : suc s - 1 ≡ s = omega arith in rw (same, e) (ground arith)

wrapping-base : (s attempts top : ℕ) → base_delay (wrapping s attempts top) ≡ 2 ^ (64 - s) + 1
unfolding base_delay
wrapping-base s attempts top = ground arith

wrapping-cap : (s attempts top : ℕ) → 2 ^ (64 - s) + 1 ≤ delay_cap (wrapping s attempts top)
unfolding delay_cap
wrapping-cap s attempts top = ground (arith, wrapping-base s attempts top)

-- For every shift s from 2 to 32 there is a base delay, 2^(64-s)+1 ns, whose exponential delay
-- before attempt s + 2 is 2^s ns, less than the base delay, whatever the cap and the number of
-- attempts.
pub exponential_wraps :
    (s attempts top : ℕ)
    → 2 ≤ s
    → s ≤ 32
    → (backoff (wrapping s attempts top) (s + 2) ≡ 2 ^ s)
      × (2 ^ s < base_delay (wrapping s attempts top))
unfolding backoff
exponential_wraps s attempts top h h' =
    let shift : max (s + 2 - 1) 1 ≡ suc s = omega arith in
    let small : 2 ^ s ≤ 2 ^ 32 = pow-le-pow_right (omega arith) h' in
    let large : 2 ^ 32 ≤ 2 ^ (64 - s) = pow-le-pow_right (omega arith) {i = 32} (omega arith) in
    let least : 1 ≤ 2 ^ s = one-le-pow s 2 (omega arith) in
    let base = wrapping-base s attempts top in
    (
      rw shift (
          exponential_at (base_delay (wrapping s attempts top))
            (delay_cap (wrapping s attempts top)) s (2 ^ s)
            (ap (λ b. int64_shift b s) base ∙ shift_wraps s h h') least (omega (arith, small))
            (omega (arith, small, large, wrapping-cap s attempts top)) (omega arith)),
      omega (arith, small, large, base),
    )
