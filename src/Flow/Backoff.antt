-- ===== src/Flow/Backoff.antt =====
-- flow/flow.go, (*Node).Backoff: the delay before a retry, in the int64 nanoseconds of
-- time.Duration. A value of int64 is its bit pattern below 2^64; delays are not negative.
pub mod Bounds
mod Tests
use packtrail.Prelude.{ℕ, ◌-◌, ◌*◌, ◌/◌, ◌%◌, ◌^◌, max, ◌||◌, ltb, leb, ◌==◌, if◌then◌else◌}

pub data BackoffKind : Type 0 where
  fixed linear exponential : BackoffKind

pub record Retry : Type 0 where
  pub max_attempts : ℕ
  pub kind : BackoffKind
  pub delay : ℕ
  pub max_delay : ℕ

abbrev pub int64_mod : ℕ
int64_mod = 18446744073709551616

-- The sign bit of an int64.
abbrev pub int64_min : ℕ
int64_min = 9223372036854775808

abbrev pub default_retry_delay : ℕ
default_retry_delay = 1000000000

abbrev pub default_retry_max_delay : ℕ
default_retry_max_delay = 300000000000

abbrev pub max_backoff_shift : ℕ
max_backoff_shift = 62

-- d / k for an int64 d and 0 < k, rounded towards zero
pub int64_div : ℕ → ℕ → ℕ
int64_div d k = if ltb d int64_min then d / k else (int64_mod - (int64_mod - d) / k) % int64_mod

pub base_delay : Retry → ℕ
base_delay r = if ltb 0 r.delay then r.delay else default_retry_delay

pub delay_cap : Retry → ℕ
unfolding base_delay
delay_cap r =
    let cap = if ltb 0 r.max_delay then r.max_delay else default_retry_max_delay in
    if ltb cap (base_delay r) then base_delay r else cap

-- if d <= 0 || d > maxDelay { d = maxDelay }
pub clamp_delay : ℕ → ℕ → ℕ
clamp_delay cap d = if d == 0 || leb int64_min d || ltb cap d then cap else d

-- time.Duration(base) << shift
pub int64_shift : ℕ → ℕ → ℕ
int64_shift base shift = base * 2 ^ shift % int64_mod

pub backoff_by : BackoffKind → ℕ → ℕ → ℕ → ℕ
unfolding int64_div clamp_delay int64_shift
backoff_by fixed base cap retry = clamp_delay cap base
backoff_by linear base cap retry =
    let d = base * retry % int64_mod in
    clamp_delay cap (if int64_div d retry == base then d else cap)
backoff_by exponential base cap retry =
    if leb max_backoff_shift (retry - 1)
    then cap
    else clamp_delay cap (int64_shift base (retry - 1))

unfoldable pub backoff : Retry → ℕ → ℕ
unfolding base_delay delay_cap backoff_by
backoff r attempt = backoff_by r.kind (base_delay r) (delay_cap r) (max (attempt - 1) 1)
