-- ===== src/Retry.antt =====
-- internal/state/retry.go, in nanoseconds as `time.Duration` counts them. The jitter is a parameter:
-- `rand.Int63n(n)` returns a number below n, and the source takes a fifth of the delay for n.
pub mod Bounds
use gd_sync_harness.Prelude.{ℕ, zero, suc, ◌+◌, ◌-◌, ◌*◌, ◌^◌, ltb, if◌then◌else◌}

-- time.Second
abbrev pub second : ℕ
second = 1000000000

-- time.Minute
abbrev pub minute : ℕ
minute = 60 * second

-- base << mult, with mult = min(consecutive - 1, 10)
unfoldable pub backoff_shift : ℕ → ℕ
backoff_shift consecutive =
    let mult = (if ltb consecutive 1 then 1 else consecutive) - 1 in
    second * 2 ^ (if ltb 10 mult then 10 else mult)

-- The delay before the jitter is added.
unfoldable pub backoff_base : ℕ → ℕ
unfolding backoff_shift
backoff_base consecutive =
    let delay = backoff_shift consecutive in if ltb (30 * minute) delay then 30 * minute else delay

-- RetryBackoff, where `jitter` is what rand.Int63n returned
unfoldable pub retry_backoff : ℕ → ℕ → ℕ
unfolding backoff_base
retry_backoff consecutive jitter = backoff_base consecutive + jitter

-- LimitedRetryBackoff
unfoldable pub limited_retry_backoff : ℕ → ℕ
limited_retry_backoff zero = 15 * minute
limited_retry_backoff (suc zero) = minute
limited_retry_backoff (suc (suc zero)) = 5 * minute
limited_retry_backoff (suc (suc (suc n))) = 15 * minute
