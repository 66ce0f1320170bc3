-- ===== src/Prelude/Int.antt =====
-- Go's `int`, for the counts that a caller may give a sign. Only their order is used.
use Prim.Native.Nat.{ℕ}
use mathlib.Core.Bool.{Bool, true, false}
use mathlib.Core.Path.{◌≡◌, refl}
use native.Mathlib.Omega.{arith}
use gd_sync_harness.Prelude.Tests.{ltb, ◌==◌}

-- `negsuc n` is -(n + 1).
pub data ℤ : Type 0 where
  pos : ℕ → ℤ
  negsuc : ℕ → ℤ

-- 0 < a
abbrev pub is_pos : ℤ → Bool
is_pos (pos n) = ltb 0 n
is_pos (negsuc n) = false

-- a == 0
abbrev pub is_zero : ℤ → Bool
is_zero (pos n) = n == 0
is_zero (negsuc n) = false

-- a < n, for a count n
abbrev pub lt_count : ℤ → ℕ → Bool
lt_count (pos m) n = ltb m n
lt_count (negsuc m) n = true

infix 50 ◌<?◌
-- a < b
abbrev pub ◌<?◌ : ℤ → ℤ → Bool
pos m <? pos n = ltb m n
pos m <? negsuc n = false
negsuc m <? pos n = true
negsuc m <? negsuc n = ltb n m

-- What is not below b, where b is not below c, is not below c.
pub lt_neg_trans : (a b c : ℤ) → (a <? b) ≡ false → (b <? c) ≡ false → (a <? c) ≡ false
lt_neg_trans (pos l) (pos m) (pos n) h k = ground arith
lt_neg_trans (pos l) b (negsuc n) h k = refl
lt_neg_trans (pos l) (negsuc m) (pos n) h k = ground arith
lt_neg_trans (negsuc l) (pos m) c h k = ground arith
lt_neg_trans (negsuc l) (negsuc m) (pos n) h k = ground arith
lt_neg_trans (negsuc l) (negsuc m) (negsuc n) h k = ground arith

pub lt_irrefl : (a : ℤ) → (a <? a) ≡ false
lt_irrefl (pos n) = ground arith
lt_irrefl (negsuc n) = ground arith
