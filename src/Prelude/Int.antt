-- ===== src/Prelude/Int.antt =====
-- Integers over the native numbers, with the division of C, which rounds towards 0.
use Prim.Native.Nat.{ℕ, zero, suc, ◌+◌, ◌*◌, ◌/◌, ◌%◌}
use mathlib.Core.Bool.{Bool, ◌&&◌}
use libqrencode.Prelude.Tests.{leb, ◌==◌}

-- `negsuc n` is -(n + 1).
pub data ℤ : Type 0 where
  pos : ℕ → ℤ
  negsuc : ℕ → ℤ

abbrev pub pos_part : ℤ → ℕ
pos_part (pos n) = n
pos_part (negsuc n) = 0

abbrev pub neg_part : ℤ → ℕ
neg_part (pos n) = 0
neg_part (negsuc n) = suc n

abbrev neg : ℕ → ℤ
neg zero = pos 0
neg (suc n) = negsuc n

abbrev pub leb_ℤ : ℤ → ℤ → Bool
leb_ℤ a b = leb (pos_part a + neg_part b) (pos_part b + neg_part a)

abbrev pub eq_ℤ : ℤ → ℤ → Bool
eq_ℤ a b = (pos_part a == pos_part b) && (neg_part a == neg_part b)

abbrev pub quot_ℤ : ℤ → ℕ → ℤ
quot_ℤ (pos n) k = pos (n / k)
quot_ℤ (negsuc n) k = neg (suc n / k)

-- `a % k == 0`
abbrev pub divides_ℤ : ℕ → ℤ → Bool
divides_ℤ k a = (pos_part a + neg_part a) % k == 0

abbrev pub mul_ℤ : ℕ → ℤ → ℤ
mul_ℤ k (pos n) = pos (k * n)
mul_ℤ k (negsuc n) = neg (k * suc n)
