-- ===== src/Base/Integers.antt =====
-- `i64` as integers over the native numbers.
use Prim.Native.Nat.{ℕ}
use mathlib.Core.Path.{◌≡◌, refl}
use mathlib.Core.Bool.{Bool, true, false}
use native.Mathlib.Omega.{arith}
use secretagent_rust_agent.Base.Tests.{ltb}

pub data ℤ : Type 0 where
  pos : ℕ → ℤ
  negsuc : ℕ → ℤ

-- `a > b`
abbrev pub gtb : ℤ → ℤ → Bool
gtb (pos m) (pos n) = ltb n m
gtb (pos m) (negsuc n) = true
gtb (negsuc m) (pos n) = false
gtb (negsuc m) (negsuc n) = ltb m n

-- What is at most one number is at most each greater one.
pub gtb_trans : (u a v : ℤ) → gtb u a ≡ false → gtb v a ≡ true → gtb u v ≡ false
gtb_trans (pos u) (pos a) (pos v) h k = ground (arith, h, k)
gtb_trans (pos u) (pos a) (negsuc v) h k = cc
gtb_trans (pos u) (negsuc a) v h k = cc
gtb_trans (negsuc u) a (pos v) h k = cc
gtb_trans (negsuc u) (pos a) (negsuc v) h k = cc
gtb_trans (negsuc u) (negsuc a) (negsuc v) h k = ground (arith, h, k)

pub gtb_irrefl : (u : ℤ) → gtb u u ≡ false
gtb_irrefl (pos u) = ground arith
gtb_irrefl (negsuc u) = ground arith

pub gtb_le_trans : (u m o : ℤ) → gtb u m ≡ false → gtb m o ≡ false → gtb u o ≡ false
gtb_le_trans (pos u) (pos m) (pos o) h k = ground (arith, h, k)
gtb_le_trans (pos u) (pos m) (negsuc o) h k = cc
gtb_le_trans (pos u) (negsuc m) o h k = cc
gtb_le_trans (negsuc u) m (pos o) h k = refl
gtb_le_trans (negsuc u) (pos m) (negsuc o) h k = cc
gtb_le_trans (negsuc u) (negsuc m) (negsuc o) h k = ground (arith, h, k)
