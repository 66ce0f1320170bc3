-- ===== src/Examples/Requests.antt =====
-- Requests for a reconciliation, on a settled profile.
use gd_sync_harness.Prelude.{◌≡◌, ◌≤◌, ◌<◌, ◌*◌, ◌^◌, ◌/◌, arith}
use gd_sync_harness.Retry.{second, minute, backoff_base}
use gd_sync_harness.Retry.Bounds.{exponent, backoff_base_exact}

backoff_base_exact_example :
    (backoff_base 4 ≡ second * 2 ^ exponent 4)
    × (second ≤ backoff_base 4)
    × (backoff_base 4 ≤ 1024 * second)
    × (1024 * second < 30 * minute)
backoff_base_exact_example = backoff_base_exact 4

small_jitter : 7 < backoff_base 4 / 5
unfolding backoff_base
small_jitter = omega (arith, backoff_base_exact 4)
