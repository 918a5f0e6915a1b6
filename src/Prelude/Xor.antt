-- ===== src/Prelude/Xor.antt =====
-- Exclusive or on numbers: a commutative group in which each number is its own inverse.
use Prim.Native.Nat.{ℕ, zero, suc, ◌/◌, ◌%◌, ◌^◌, ◌<◌, bit_xor, bit_xor-bitwise, differ}
use native.Mathlib.Nat.{pow-suc}
use mathlib.Core.Path.{◌≡◌, refl, sym, ap, ◌∙◌}
use native.Mathlib.Omega.{arith}
use libqrencode.Prelude.Bits.{by_halves, bit_xor_step}

-- A remainder by two is 0 or 1.
on_digits : (P : ℕ → Type 0) → P 0 → P 1 → (n : ℕ) → P (n % 2)
on_digits P p0 p1 n = digit (n % 2) (omega arith)
  where
    digit : (d : ℕ) → d < 2 → P d
    digit zero h = p0
    digit (suc zero) h = p1
    digit (suc (suc d)) h = absurd (omega arith)

differ-digit : (x y : ℕ) → differ (x % 2) (y % 2) < 2
differ-digit x y =
    on_digits (λ a. differ a (y % 2) < 2)
      (on_digits (λ b. differ 0 b < 2) (omega arith) (omega arith) y)
      (on_digits (λ b. differ 1 b < 2) (omega arith) (omega arith) y) x

half-bit_xor : (x y : ℕ) → bit_xor x y / 2 ≡ bit_xor (x / 2) (y / 2)
half-bit_xor x y = omega (arith, bit_xor_step x y, differ-digit x y)

pub digit-bit_xor : (x y : ℕ) → bit_xor x y % 2 ≡ differ (x % 2) (y % 2)
digit-bit_xor x y = omega (arith, bit_xor_step x y, differ-digit x y)

pub zero-bit_xor : (y : ℕ) → bit_xor 0 y ≡ y
zero-bit_xor y = bit_xor-bitwise 0 y

pub bit_xor-zero : (x : ℕ) → bit_xor x 0 ≡ x
bit_xor-zero =
    by_halves (λ x. bit_xor x 0 ≡ x) (zero-bit_xor 0)
      (λ x ih. omega (arith, bit_xor_step (suc x) 0, ih, last_digit (suc x)))
  where
    last_digit : (x : ℕ) → differ (x % 2) 0 ≡ x % 2
    last_digit = on_digits (λ a. differ a 0 ≡ a) refl refl

pub bit_xor_self : (x : ℕ) → bit_xor x x ≡ 0
bit_xor_self =
    by_halves (λ x. bit_xor x x ≡ 0) (zero-bit_xor 0)
      (λ x ih. omega (arith, bit_xor_step (suc x) (suc x), ih, last_digit (suc x)))
  where
    last_digit : (x : ℕ) → differ (x % 2) (x % 2) ≡ 0
    last_digit = on_digits (λ a. differ a a ≡ 0) refl refl

pub bit_xor_comm : (x y : ℕ) → bit_xor x y ≡ bit_xor y x
bit_xor_comm =
    by_halves (λ x. (y : ℕ) → bit_xor x y ≡ bit_xor y x)
      (λ y. zero-bit_xor y ∙ sym (bit_xor-zero y))
      (λ x ih y.
        omega
          (arith, bit_xor_step (suc x) y, bit_xor_step y (suc x), ih (y / 2), last_digit (suc x) y))
  where
    last_digit : (x y : ℕ) → differ (x % 2) (y % 2) ≡ differ (y % 2) (x % 2)
    last_digit x y =
        on_digits (λ a. differ a (y % 2) ≡ differ (y % 2) a)
          (on_digits (λ b. differ 0 b ≡ differ b 0) refl refl y)
          (on_digits (λ b. differ 1 b ≡ differ b 1) refl refl y) x

differ_assoc :
    (x y z : ℕ) → differ (differ (x % 2) (y % 2)) (z % 2) ≡ differ (x % 2) (differ (y % 2) (z % 2))
differ_assoc x y z =
    on_digits (λ a. differ (differ a (y % 2)) (z % 2) ≡ differ a (differ (y % 2) (z % 2)))
      (on_digits (λ b. differ (differ 0 b) (z % 2) ≡ differ 0 (differ b (z % 2)))
        (on_digits (λ c. differ (differ 0 0) c ≡ differ 0 (differ 0 c)) refl refl z)
        (on_digits (λ c. differ (differ 0 1) c ≡ differ 0 (differ 1 c)) refl refl z) y)
      (on_digits (λ b. differ (differ 1 b) (z % 2) ≡ differ 1 (differ b (z % 2)))
        (on_digits (λ c. differ (differ 1 0) c ≡ differ 1 (differ 0 c)) refl refl z)
        (on_digits (λ c. differ (differ 1 1) c ≡ differ 1 (differ 1 c)) refl refl z) y)
      x

pub bit_xor_assoc : (x y z : ℕ) → bit_xor (bit_xor x y) z ≡ bit_xor x (bit_xor y z)
bit_xor_assoc =
    by_halves (λ x. (y z : ℕ) → bit_xor (bit_xor x y) z ≡ bit_xor x (bit_xor y z))
      (λ y z. ap (λ t. bit_xor t z) (zero-bit_xor y) ∙ sym (zero-bit_xor (bit_xor y z)))
      (λ x ih y z. omega (
        arith,
        bit_xor_step (bit_xor (suc x) y) z,
        bit_xor_step (suc x) (bit_xor y z),
        ap (λ t. bit_xor t (z / 2)) (half-bit_xor (suc x) y),
        ap (bit_xor (suc x / 2)) (half-bit_xor y z),
        ih (y / 2) (z / 2),
        ap (λ t. differ t (z % 2)) (digit-bit_xor (suc x) y),
        ap (differ (suc x % 2)) (digit-bit_xor y z),
        differ_assoc (suc x) y z,
      ))

pub bit_xor-lt : (k x y : ℕ) → x < 2 ^ k → y < 2 ^ k → bit_xor x y < 2 ^ k
bit_xor-lt zero zero zero hx hy = omega (arith, zero-bit_xor 0)
bit_xor-lt zero (suc x) y hx hy = absurd (omega arith)
bit_xor-lt zero zero (suc y) hx hy = absurd (omega arith)
bit_xor-lt (suc k) x y hx hy = omega (
  arith,
  bit_xor_step x y,
  differ-digit x y,
  pow-suc 2 k,
  bit_xor-lt k (x / 2) (y / 2) (omega (arith, pow-suc 2 k)) (omega (arith, pow-suc 2 k)),
)

-- The middle terms change places.
pub bit_xor_swap :
    (w x y z : ℕ) → bit_xor (bit_xor w x) (bit_xor y z) ≡ bit_xor (bit_xor w y) (bit_xor x z)
bit_xor_swap w x y z =
    bit_xor_assoc w x (bit_xor y z)
    ∙ ap (bit_xor w) (
        sym (bit_xor_assoc x y z)
        ∙ (ap (λ t. bit_xor t z) (bit_xor_comm x y) ∙ bit_xor_assoc y x z))
    ∙ sym (bit_xor_assoc w y (bit_xor x z))

-- A term added to both sides of a sum cancels.
pub bit_xor_cancel : (x y t : ℕ) → bit_xor (bit_xor x t) (bit_xor y t) ≡ bit_xor x y
bit_xor_cancel x y t =
    bit_xor_swap x t y t ∙ ap (bit_xor (bit_xor x y)) (bit_xor_self t) ∙ bit_xor-zero (bit_xor x y)
