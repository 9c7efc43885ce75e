-- ===== src/Flow/Backoff/Tests.antt =====
-- flow/flow.go, (*Node).Backoff at concrete policies.
use packtrail.Prelude.{◌≡◌, ◌≤◌, ◌<◌, ◌^◌, refl, arith}
use packtrail.Flow.Backoff.{BackoffKind, Retry, backoff, base_delay, delay_cap, int64_min}
use packtrail.Flow.Backoff.Bounds.{
  wrapping, exponential_wraps, backoff_in_range, backoff_at_least_base,
}

abbrev doubling : Retry
doubling = record {
  max_attempts = 5;
  kind = BackoffKind.exponential;
  delay = 2000000000;
  max_delay = 10000000000;
}

doubling_third : backoff doubling 3 ≡ 4000000000
unfolding backoff
doubling_third = refl

doubling_capped : backoff doubling 9 ≡ 10000000000
unfolding backoff
doubling_capped = refl

backoff_in_range_example :
    (0 < backoff doubling 3)
    × (backoff doubling 3 ≤ delay_cap doubling)
    × (delay_cap doubling < int64_min)
backoff_in_range_example = backoff_in_range doubling 3 (omega arith) (omega arith)

backoff_at_least_base_example : base_delay doubling ≤ backoff doubling 3
unfolding base_delay
backoff_at_least_base_example =
    backoff_at_least_base doubling 3 (omega arith) (omega arith) (λ e. omega arith)

exponential_wraps_example :
    (backoff (wrapping 30 40 3600000000000) 32 ≡ 2 ^ 30)
    × (2 ^ 30 < base_delay (wrapping 30 40 3600000000000))
exponential_wraps_example = exponential_wraps 30 40 3600000000000 (omega arith) (omega arith)
