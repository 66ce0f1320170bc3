-- ===== src/Retry/Bounds.antt =====
-- The back-off is bounded, starts at one second, and doubles until it stays.
use native.Mathlib.Nat.{pow-le-pow_right}
use gd_sync_harness.Prelude.{ℕ, ◌-◌, ◌*◌, ◌/◌, ◌^◌, ◌≤◌, ◌<◌, ◌≡◌, ap, arith, min}
use gd_sync_harness.Retry.{second, minute, backoff_base, backoff_shift, retry_backoff}

-- The exponent: one less than the count of failures, and never above ten.
abbrev pub exponent : ℕ → ℕ
exponent consecutive = min (consecutive - 1) 10

two_pow_bounds : (m : ℕ) → m ≤ 10 → (1 ≤ 2 ^ m) × (2 ^ m ≤ 1024)
two_pow_bounds m h = (
  pow-le-pow_right {n = 2} (omega arith) {i = 0} {j = m} (omega arith),
  pow-le-pow_right {n = 2} (omega arith) {i = m} {j = 10} h,
)

backoff_shift_lem : (c : ℕ) → backoff_shift c ≡ second * 2 ^ exponent c
unfolding backoff_shift
backoff_shift_lem c = ap (λ m. second * 2 ^ m) (ground arith)

-- The base delay is one second, doubled with each further failure up to ten times. So it lies
-- between one second and 1024 seconds, and the cap of thirty minutes in the code never applies.
pub backoff_base_exact :
    (c : ℕ)
    → (backoff_base c ≡ second * 2 ^ exponent c)
      × (second ≤ backoff_base c)
      × (backoff_base c ≤ 1024 * second)
      × (1024 * second < 30 * minute)
unfolding backoff_base
backoff_base_exact c =
    let (low, high) = two_pow_bounds (exponent c) (omega arith) in
    let shift = backoff_shift_lem c in
    let high' : backoff_shift c ≤ 1024 * second = rw shift (omega arith) in
    let whole : backoff_base c ≡ second * 2 ^ exponent c = ground (arith, shift, high') in
    (whole, rw whole (omega arith), rw whole (omega arith), omega arith)

-- A further failure never shortens the base delay.
backoff_base_mono : (c d : ℕ) → c ≤ d → backoff_base c ≤ backoff_base d
backoff_base_mono c d h =
    let more =
      pow-le-pow_right {n = 2} (omega arith) {i = exponent c} {j = exponent d} (omega arith) in
    rw ((backoff_base_exact c).0, (backoff_base_exact d).0) (omega arith)

-- With the jitter that `rand.Int63n(delay / 5)` may add, the delay is at least one second and less
-- than six fifths of 1024 seconds.
retry_backoff_bounds :
    (c jitter : ℕ)
    → jitter < backoff_base c / 5
    → (second ≤ retry_backoff c jitter) × (5 * retry_backoff c jitter < 6 * (1024 * second))
unfolding retry_backoff
retry_backoff_bounds c jitter h =
    let (whole, low, high, cap) = backoff_base_exact c in (omega arith, omega arith)
