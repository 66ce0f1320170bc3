-- ===== src/Live/Throughput.antt =====
-- internal/live/throughput.go: the rate between the latest two samples. A rate is the pair of a
-- number and the nanoseconds that it took, of which the code returns the quotient as a float.
use gd_sync_harness.Prelude.{
  ℕ, ◌-◌, ◌<◌, ◌+◌, ◌≡◌, refl, Bool, true, false, not, Option, none, some, ltb, leb, ◌==◌, arith,
  if◌then◌else◌,
}

-- RateSample and FileRateSample; none is Known = false
pub record Rate : Type 0 where
  pub amount : ℕ
  pub elapsed_ns : ℕ

-- ThroughputEstimator
pub record ThroughputEstimator : Type 0 where
  pub last_bytes : ℕ
  pub last_at : ℕ
  pub has_sample : Bool

abbrev pub baseline : ℕ → ℕ → ThroughputEstimator
baseline total now = record { last_bytes = total; last_at = now; has_sample = true }

-- ThroughputEstimator.Observe
unfoldable pub observe : ℕ → ℕ → ThroughputEstimator → Option Rate × ThroughputEstimator
observe total now e =
    if not e.has_sample
    then (none, baseline total now)
    else if ltb total e.last_bytes
    then (none, baseline total now)
    else if leb now e.last_at
    then (none, baseline total now)
    else if total == e.last_bytes
    then (some (record { amount = 0; elapsed_ns = now - e.last_at }), baseline total now)
    else (
      some (record { amount = total - e.last_bytes; elapsed_ns = now - e.last_at }),
      baseline total now,
    )

-- ThroughputEstimator.Reset
unfoldable pub reset : ThroughputEstimator → ThroughputEstimator
reset e = record { last_bytes = 0; last_at = 0; has_sample = false }

-- FileRateEstimator
pub record FileRateEstimator : Type 0 where
  pub last_files : ℕ
  pub last_at : ℕ
  pub has_sample : Bool

abbrev pub file_baseline : ℕ → ℕ → FileRateEstimator
file_baseline total now = record { last_files = total; last_at = now; has_sample = true }

-- FileRateEstimator.Observe
unfoldable pub observe_files : ℕ → ℕ → FileRateEstimator → Option Rate × FileRateEstimator
observe_files total now e =
    if not e.has_sample
    then (none, file_baseline total now)
    else if ltb total e.last_files
    then (none, file_baseline total now)
    else if leb now e.last_at
    then (none, file_baseline total now)
    else if total == e.last_files
    then (some (record { amount = 0; elapsed_ns = now - e.last_at }), file_baseline total now)
    else (
      some (record { amount = total - e.last_files; elapsed_ns = now - e.last_at }),
      file_baseline total now,
    )

first : (a s : ℕ) (e : ThroughputEstimator) → (observe a s e).1 ≡ baseline a s
unfolding observe
first a s e = ground arith

-- The rate is that of the latest two samples, whatever came before them: it is known exactly where
-- the counter did not go down and the clock went forward, and then it is the difference of the
-- counters over the difference of the times, never over zero.
observe_two :
    (a b s t : ℕ) (e : ThroughputEstimator)
    → let second = (observe b t (observe a s e).1).0 in
      (leb a b ≡ true
        → ltb s t ≡ true
        → (r : Rate) × (second ≡ some r)
          × (a + r.amount ≡ b)
          × (s + r.elapsed_ns ≡ t)
          × (0 < r.elapsed_ns))
      × (ltb b a ≡ true → second ≡ none)
      × (leb t s ≡ true → second ≡ none)
unfolding observe
observe_two a b s t e = (
  λ up forward. (
    record { amount = b - a; elapsed_ns = t - s },
    rw (first a s e) (ground arith),
    ground arith,
    ground arith,
    ground arith,
  ),
  λ down. ground arith,
  λ still. ground arith,
)

-- The first sample after a reset is unknown and becomes the baseline.
reset_unknown : (a s : ℕ) (e : ThroughputEstimator) → observe a s (reset e) ≡ (none, baseline a s)
unfolding observe reset
reset_unknown a s e = refl

-- The file estimator gives the rates of the byte estimator on the same samples.
file_rate_mirrors :
    (total now last at : ℕ) (has : Bool)
    → (observe_files total now (record { last_files = last; last_at = at; has_sample = has })).0
      ≡ (observe total now (record { last_bytes = last; last_at = at; has_sample = has })).0
unfolding observe observe_files
file_rate_mirrors total now last at has = ground arith
