-- ===== src/Prelude/Bits.antt =====
-- The bit operations of C at variables, from the recursion on binary digits that they stand for.
use Prim.Native.Nat.{
  ℕ, zero, suc, ◌+◌, ◌-◌, ◌*◌, ◌/◌, ◌%◌, ◌^◌, ◌≤◌, ◌<◌, min, max, bit_and, bit_or, digits,
  bit_and-bitwise, bit_or-bitwise, bitwise, bit_xor, bit_xor-bitwise, differ,
}
use native.Mathlib.Nat.{
  pow-suc, mul_comm, div-div-eq-div-mul, mod-add-div', one-le-pow, mul-add-div_right, div-eq_of_lt,
}
use mathlib.Core.Path.{◌≡◌, refl, sym, ap, ap₂, ◌∙◌}
use native.Mathlib.Omega.{arith}

-- Induction along halves.
pub by_halves {ℓ} : (P : ℕ → Type ℓ) → P 0 → ((x : ℕ) → P (suc x / 2) → P (suc x)) → (x : ℕ) → P x
by_halves P base step x = below x x (omega arith)
  where
    below : (bound y : ℕ) → y ≤ bound → P y
    below bound zero h = base
    below zero (suc y) h = absurd (omega arith)
    below (suc bound) (suc y) h = step y (below bound (suc y / 2) (omega arith))

-- Fuel from `x` on makes no difference to the digits of `x`.
module _ (f : ℕ → ℕ → ℕ) (z : ℕ → ℕ) where
  no_digits : (fuel y : ℕ) → digits z f fuel 0 y ≡ z y
  no_digits zero y = refl
  no_digits (suc fuel) y = refl

  enough_fuel :
      (fuel spare y x : ℕ) → x ≤ fuel → digits z f (fuel + spare) x y ≡ digits z f fuel x y
  enough_fuel fuel spare y zero h = no_digits (fuel + spare) y ∙ sym (no_digits fuel y)
  enough_fuel zero spare y (suc x) h = absurd (omega arith)
  enough_fuel (suc fuel) spare y (suc x) h =
      let grown : suc fuel + spare ≡ suc (fuel + spare) = omega arith in
      rw grown (
        ap (λ t. t * 2 + f (suc x % 2) (y % 2))
          (enough_fuel fuel spare (y / 2) (suc x / 2) (omega arith)))

  lowest_digit :
      (y x : ℕ)
      → bitwise z f (suc x) y ≡ bitwise z f (suc x / 2) (y / 2) * 2 + f (suc x % 2) (y % 2)
  lowest_digit y x =
      ap (λ (fuel : ℕ). digits z f fuel (suc x / 2) (y / 2) * 2 + f (suc x % 2) (y % 2)) split_fuel
      ∙ ap (λ t. t * 2 + f (suc x % 2) (y % 2))
          (enough_fuel (suc x / 2) (x - suc x / 2) (y / 2) (suc x / 2) (omega arith))
    where
      split_fuel : x ≡ suc x / 2 + (x - suc x / 2)
      split_fuel = omega arith

pub bit_and_step : (x y : ℕ) → bit_and x y ≡ bit_and (x / 2) (y / 2) * 2 + min (x % 2) (y % 2)
bit_and_step zero y = omega (arith, bit_and-bitwise 0 y, bit_and-bitwise 0 (y / 2))
bit_and_step (suc x) y = simp bit_and-bitwise (lowest_digit min (λ t. 0) y x)

pub bit_or_step : (x y : ℕ) → bit_or x y ≡ bit_or (x / 2) (y / 2) * 2 + max (x % 2) (y % 2)
bit_or_step zero y = simp bit_or-bitwise (omega arith)
bit_or_step (suc x) y = simp bit_or-bitwise (lowest_digit max (λ t. t) y x)

pub bit_xor_step : (x y : ℕ) → bit_xor x y ≡ bit_xor (x / 2) (y / 2) * 2 + differ (x % 2) (y % 2)
bit_xor_step zero y = simp bit_xor-bitwise (omega arith)
bit_xor_step (suc x) y = simp bit_xor-bitwise (lowest_digit differ (λ t. t) y x)

pub bit_and-zero : (x : ℕ) → bit_and x 0 ≡ 0
bit_and-zero =
    by_halves (λ x. bit_and x 0 ≡ 0) (bit_and-bitwise 0 0)
      (λ x ih. omega (arith, bit_and_step (suc x) 0, ih))

pub bit_and-one : (x : ℕ) → bit_and x 1 ≡ x % 2
bit_and-one x = omega (arith, bit_and-zero (x / 2), bit_and_step x 1)

-- A division by 2 ^ (k + 1) halves first.
pub half-div_pow : (a k : ℕ) → a / 2 ^ suc k ≡ a / 2 / 2 ^ k
half-div_pow a k = rw (pow-suc 2 k, mul_comm (2 ^ k) 2) (sym (div-div-eq-div-mul a 2 (2 ^ k)))

-- A mask of one bit reads that bit.
pub bit_and-pow : (k a : ℕ) → bit_and a (2 ^ k) ≡ a / 2 ^ k % 2 * 2 ^ k
bit_and-pow zero a = omega (arith, bit_and-one a)
bit_and-pow (suc k) a = rw (half-div_pow a k) (
    omega (
      arith,
      bit_and_step a (2 ^ suc k),
      pow-suc 2 k,
      halved,
      bit_and-pow k (a / 2),
      ap (λ (t : ℕ). a / 2 / 2 ^ k % 2 * t) (pow-suc 2 k),
    ))
  where
    halved : bit_and (a / 2) (2 ^ suc k / 2) ≡ bit_and (a / 2) (2 ^ k)
    halved = ap (bit_and (a / 2)) (omega (arith, pow-suc 2 k))

-- A remainder by twice `d` is one binary digit above the remainder by `d`.
pub mod-double : (v d : ℕ) → v % (d * 2) ≡ v / d % 2 * d + v % d
mod-double v d = omega (
  arith,
  mod-add-div' v (d * 2),
  mod-add-div' v d,
  ap (λ (t : ℕ). t * d) (mod-add-div' (v / d) 2),
  ap (λ (t : ℕ). t * d) (div-div-eq-div-mul v d 2),
)

pub bit_and_seven : (a : ℕ) → bit_and a 7 ≡ a % 8
bit_and_seven a = omega (arith, bit_and_step a 7, bit_and_step (a / 2) 3, bit_and-one (a / 2 / 2))

pub pow_pos : (k : ℕ) → 0 < 2 ^ k
pow_pos k = one-le-pow k 2 (omega arith)

-- The digit above `r`, when `r` fits below it.
pub digit_at : (q x d r : ℕ) → x < 2 → r < d → ((q * 2 + x) * d + r) / d % 2 ≡ x
digit_at q x d r hx h =
    rw (mul-add-div_right {m = d} (omega arith) (q * 2 + x) r, div-eq_of_lt h) (omega arith)

pub bit_or-zero : (x : ℕ) → bit_or x 0 ≡ x
bit_or-zero =
    by_halves (λ x. bit_or x 0 ≡ x) (bit_or-bitwise 0 0)
      (λ x ih. omega (arith, bit_or_step (suc x) 0, ih))

pub bit_or_low : (v x : ℕ) → x < 2 → bit_or (v * 2) x ≡ v * 2 + x
bit_or_low v x h = omega (arith, bit_or_step (v * 2) x, bit_or-zero v, halves)
  where
    halves : bit_or (v * 2 / 2) (x / 2) ≡ bit_or v 0
    halves = ap₂ bit_or (omega arith) (omega arith)

-- A field above `b` is added by `|`.
pub bit_or_shift : (k a b : ℕ) → b < 2 ^ k → bit_or (a * 2 ^ k) b ≡ a * 2 ^ k + b
bit_or_shift zero zero zero h = refl
bit_or_shift zero (suc a) zero h =
    omega (arith, ap (λ (t : ℕ). bit_or t 0) (times_one (suc a)), bit_or-zero (suc a))
  where
    times_one : (n : ℕ) → n * 2 ^ 0 ≡ n
    times_one n = omega arith
bit_or_shift zero a (suc b) h = absurd (omega arith)
bit_or_shift (suc k) a b h = omega (
  arith,
  bit_or_step (a * 2 ^ suc k) b,
  ap₂ bit_or half (same_half b),
  half,
  ap (λ (t : ℕ). a * t) (pow-suc 2 k),
  bit_or_shift k a (b / 2) (omega (arith, pow-suc 2 k)),
)
  where
    half : a * 2 ^ suc k / 2 ≡ a * 2 ^ k
    half = omega (arith, ap (λ (t : ℕ). a * t) (pow-suc 2 k))

    same_half : (n : ℕ) → n / 2 ≡ n / 2
    same_half n = refl

mod_low : (a d : ℕ) → a % (d * 2) ≡ a / 2 % d * 2 + a % 2
mod_low a d = omega (
  arith,
  mod-add-div' a (d * 2),
  ap (λ (t : ℕ). t * 2) (mod-add-div' (a / 2) d),
  ap (λ (t : ℕ). t * (d * 2)) quotient,
)
  where
    quotient : a / (d * 2) ≡ a / 2 / d
    quotient = rw (mul_comm d 2) (sym (div-div-eq-div-mul a 2 d))

-- A mask of the low `k` bits is a remainder.
pub bit_and_mask : (k a : ℕ) → bit_and a (2 ^ k - 1) ≡ a % 2 ^ k
bit_and_mask zero a = omega (arith, bit_and-zero a)
bit_and_mask (suc k) a = omega (
  arith,
  bit_and_step a (2 ^ suc k - 1),
  ap (bit_and (a / 2)) halved,
  bit_and_mask k (a / 2),
  mod_low a (2 ^ k),
  ap (λ (t : ℕ). a % t) (pow-suc 2 k),
  pow-suc 2 k,
  pow_pos k,
)
  where
    halved : (2 ^ suc k - 1) / 2 ≡ 2 ^ k - 1
    halved = omega (arith, pow-suc 2 k, pow_pos k)

pub bit_and_comm : (x y : ℕ) → bit_and x y ≡ bit_and y x
bit_and_comm =
    by_halves (λ x. (y : ℕ) → bit_and x y ≡ bit_and y x)
      (λ y. omega (arith, bit_and-bitwise 0 y, bit_and-zero y))
      (λ x h y. omega (arith, bit_and_step (suc x) y, bit_and_step y (suc x), h (y / 2)))
