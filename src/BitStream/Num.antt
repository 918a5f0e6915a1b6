-- ===== src/BitStream/Num.antt =====
-- The binary digits of a number, highest first, and the number that digits stand for: what
-- bitstream.c writes and packs, in plain arithmetic.
use native.Mathlib.Nat.{pow-suc, mod-eq_of_lt}
use Prim.Native.Nat.add
use mathlib.Core.Path.{ap₂}
use libqrencode.Prelude.Bits.{mod-double, digit_at}
use libqrencode.Prelude.{
  ℕ, zero, suc, ◌+◌, ◌*◌, ◌/◌, ◌%◌, ◌^◌, ◌<◌, List, [], ◌∷◌, ◌++◌, ◌≡◌, refl, ap, ◌∙◌, length, All,
  append_assoc, length-append, length-replicate, replicate, All-append, arith,
}

-- The low `n` bits of `v`.
unfoldable pub num_bits : ℕ → ℕ → List ℕ
num_bits zero v = []
num_bits (suc n) v = (v / 2 ^ n % 2) ∷ num_bits n v

unfoldable pub bytes_bits : List ℕ → List ℕ
bytes_bits [] = []
bytes_bits (c ∷ cs) = num_bits 8 c ++ bytes_bits cs

unfoldable pub of_bits : List ℕ → ℕ
of_bits [] = 0
of_bits (x ∷ xs) = x * 2 ^ length xs + of_bits xs

abbrev pub IsBit : ℕ → Type 0
IsBit x = x < 2

pub length-num_bits : (n v : ℕ) → length (num_bits n v) ≡ n
unfolding num_bits
length-num_bits zero v = refl
length-num_bits (suc n) v = ap suc (length-num_bits n v)

pub length-bytes_bits : (cs : List ℕ) → length (bytes_bits cs) ≡ length cs * 8
unfolding bytes_bits
length-bytes_bits [] = refl
length-bytes_bits (c ∷ cs) =
    omega (
      arith,
      length-append (num_bits 8 c) (bytes_bits cs),
      length-num_bits 8 c,
      length-bytes_bits cs,
    )

pub num_bits-IsBit : (n v : ℕ) → All IsBit (num_bits n v)
unfolding num_bits
num_bits-IsBit zero v = tt
num_bits-IsBit (suc n) v = (omega arith, num_bits-IsBit n v)

-- The digits of a number below 2 ^ n give it back.
pub of_bits-num_bits : (n v : ℕ) → of_bits (num_bits n v) ≡ v % 2 ^ n
unfolding num_bits of_bits
of_bits-num_bits zero v = omega arith
of_bits-num_bits (suc n) v =
    rw (pow-suc 2 n, mod-double v (2 ^ n), length-num_bits n v)
      (ap (λ t. v / 2 ^ n % 2 * 2 ^ n + t) (of_bits-num_bits n v))

of_bits-lt : (xs : List ℕ) → All IsBit xs → of_bits xs < 2 ^ length xs
unfolding of_bits
of_bits-lt [] h = omega arith
of_bits-lt (x ∷ xs) (h, hs) = rw (pow-suc 2 (length xs)) (grind (arith, of_bits-lt xs hs))

of_bits-above :
    (xs : List ℕ) (q : ℕ)
    → All IsBit xs
    → num_bits (length xs) (q * 2 ^ length xs + of_bits xs) ≡ xs
unfolding num_bits of_bits
of_bits-above [] q h = refl
of_bits-above (x ∷ xs) q (h, hs) =
    ap₂ ◌∷◌
      (ap (λ v. v / 2 ^ length xs % 2) regroup
        ∙ digit_at q x (2 ^ length xs) (of_bits xs) h (of_bits-lt xs hs))
      (ap (num_bits (length xs)) regroup ∙ of_bits-above xs (q * 2 + x) hs)
  where
    regroup :
        q * 2 ^ suc (length xs) + (x * 2 ^ length xs + of_bits xs)
        ≡ (q * 2 + x) * 2 ^ length xs + of_bits xs
    regroup = omega (arith, ap (λ (t : ℕ). q * t) (pow-suc 2 (length xs)))

-- Digits are those of the number that they stand for.
pub num_bits-of_bits : (xs : List ℕ) → All IsBit xs → num_bits (length xs) (of_bits xs) ≡ xs
num_bits-of_bits xs h = ap (num_bits (length xs)) (omega arith) ∙ of_bits-above xs 0 h

pow_add : (a b : ℕ) → 2 ^ (a + b) ≡ 2 ^ a * 2 ^ b
pow_add zero b = ap (λ k. 2 ^ k) (add.zero b) ∙ omega arith
pow_add (suc a) b =
    ap (λ k. 2 ^ k) (add.suc a b)
    ∙ pow-suc 2 (a + b)
    ∙ omega (arith, ap (λ (t : ℕ). t * 2) (pow_add a b), ap (λ (t : ℕ). t * 2 ^ b) (pow-suc 2 a))

pub of_bits-append : (xs ys : List ℕ) → of_bits (xs ++ ys) ≡ of_bits xs * 2 ^ length ys + of_bits ys
unfolding of_bits
of_bits-append [] ys = omega arith
of_bits-append (x ∷ xs) ys =
    rw (length-append xs ys, pow_add (length xs) (length ys), of_bits-append xs ys) (omega arith)

of_bits-replicate : (k : ℕ) → of_bits (replicate k 0) ≡ 0
unfolding of_bits
of_bits-replicate zero = refl
of_bits-replicate (suc k) = omega (arith, of_bits-replicate k)

replicate-IsBit : (k : ℕ) → All IsBit (replicate k 0)
replicate-IsBit zero = tt
replicate-IsBit (suc k) = (omega arith, replicate-IsBit k)

-- Moving digits up by `k` places appends zeros to them.
pub num_bits_shift :
    (xs : List ℕ) (k n : ℕ)
    → All IsBit xs
    → length xs + k ≡ n
    → num_bits n (of_bits xs * 2 ^ k % 2 ^ n) ≡ xs ++ replicate k 0
num_bits_shift xs k n h e =
    rw (← value, mod-eq_of_lt {n = of_bits padded} {m = 2 ^ n} (rw len at (of_bits-lt padded bit)))
      (rw len at (num_bits-of_bits padded bit))
  where
    padded : List ℕ
    padded = xs ++ replicate k 0

    bit : All IsBit padded
    bit = All-append IsBit xs (replicate k 0) h (replicate-IsBit k)

    len : length padded ≡ n
    len =
        length-append xs (replicate k 0)
        ∙ ap (λ t. length xs + t) (length-replicate {A = ℕ} k 0)
        ∙ e

    value : of_bits padded ≡ of_bits xs * 2 ^ k
    value =
        rw (of_bits-append xs (replicate k 0), length-replicate {A = ℕ} k 0, of_bits-replicate k)
          (omega arith)

pub bytes_bits-append : (xs ys : List ℕ) → bytes_bits (xs ++ ys) ≡ bytes_bits xs ++ bytes_bits ys
unfolding bytes_bits
bytes_bits-append [] ys = refl
bytes_bits-append (x ∷ xs) ys = simp (bytes_bits-append xs ys, append_assoc)
