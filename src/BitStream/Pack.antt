-- ===== src/BitStream/Pack.antt =====
-- `BitStream_toByte` against the bits that a stream holds.
use native.Mathlib.Nat.{pow-suc, pow-le-pow_right, mod-eq_of_lt}
use mathlib.Core.Path.{ap₂}
use native.Mathlib.Decide.{dec_lt}
use libqrencode.Prelude.{
  ℕ, zero, suc, ◌+◌, ◌-◌, ◌*◌, ◌/◌, ◌%◌, ◌^◌, ◌≤◌, ◌<◌, bit_or, List, [], ◌∷◌, ◌++◌, none, some,
  ◌≡◌, ◌≢◌, refl, sym, ap, ◌∙◌, length, All, get_or, take, drop, replicate, length-append,
  take-append-drop, take_all, get_or-append, append-snoc, length-take, length-drop, All-take,
  All-drop, append-nil, append_assoc, ne→==, lt→ltb, le→ltb, arith,
}
use libqrencode.Prelude.Bits.{bit_or_low, bit_and_seven, pow_pos}
use libqrencode.BitStream.{BitStream, read_bits, read_bytes, to_byte}
use libqrencode.BitStream.Laws.{IsValid, bits, length-bits}
use libqrencode.BitStream.Num.{
  num_bits, bytes_bits, bytes_bits-append, num_bits_shift, of_bits, num_bits-of_bits, IsBit,
}

zero_mul_add : (a b : ℕ) → 0 * a + b ≡ b
zero_mul_add a b = omega arith

step_room : (v x d : ℕ) → x < 2 → (v + 1) * (d * 2) ≤ 256 → (v * 2 + x + 1) * d ≤ 256
step_room v zero d h lt = omega arith
step_room v (suc zero) d h lt = omega arith
step_room v (suc (suc x)) d h lt = absurd (omega arith)

-- The loop over `n` cells reads the number that they stand for, below a byte value `v`.
read_bits-of_bits :
    (buffer ys xs zs : List ℕ) (v n p : ℕ)
    → buffer ≡ ys ++ (xs ++ zs)
    → All IsBit xs
    → length xs ≡ n
    → length ys ≡ p
    → (v + 1) * 2 ^ n ≤ 256
    → read_bits n buffer p v ≡ v * 2 ^ n + of_bits xs
unfolding read_bits of_bits
read_bits-of_bits buffer ys [] zs v zero p b h e f lt = omega arith
read_bits-of_bits buffer ys [] zs v (suc n) p b h e f lt = absurd (omega arith)
read_bits-of_bits buffer ys (x ∷ xs) zs v zero p b h e f lt = absurd (omega arith)
read_bits-of_bits buffer ys (x ∷ xs) zs v (suc n) p b (h, hs) e f lt =
    let same : length xs ≡ n = omega arith in
    let small : v * 2 < 256 = grind (arith, pow-suc 2 n, pow_pos n) in
    let reads : bit_or (v * 2 % 256) (get_or buffer p 0) ≡ v * 2 + x =
      rw (b, get_or-append ys (xs ++ zs) x 0 p f, mod-eq_of_lt small) (bit_or_low v x h) in
    rw (reads, same)
      (read_bits-of_bits buffer (ys ++ (x ∷ [])) xs zs (v * 2 + x) n (p + 1)
          (b ∙ append-snoc ys (xs ++ zs) x) hs same (omega (arith, length-append ys (x ∷ [])))
          (step_room v x (2 ^ n) h (rw (pow-suc 2 n) at lt))
        ∙ omega (arith, ap (λ (t : ℕ). v * t) (pow-suc 2 n)))

read_bytes-bytes_bits :
    (buffer ys xs zs : List ℕ) (n p : ℕ)
    → buffer ≡ ys ++ (xs ++ zs)
    → All IsBit xs
    → length xs ≡ n * 8
    → length ys ≡ p
    → bytes_bits (read_bytes n buffer p) ≡ xs
unfolding read_bytes bytes_bits
read_bytes-bytes_bits buffer ys [] zs zero p b h e f = refl
read_bytes-bytes_bits buffer ys (x ∷ xs) zs zero p b h e f = absurd (omega arith)
read_bytes-bytes_bits buffer ys xs zs (suc n) p b h e f = rw first (
    ap (λ t. num_bits 8 (of_bits (take 8 xs)) ++ t)
      (read_bytes-bytes_bits buffer (ys ++ take 8 xs) (drop 8 xs) zs n (p + 8) regroup
        (All-drop IsBit 8 xs h) (omega (arith, length-drop 8 xs))
        (omega (arith, length-append ys (take 8 xs), eight)))
    ∙ ap (λ t. t ++ drop 8 xs) digits
    ∙ take-append-drop 8 xs)
  where
    eight : length (take 8 xs) ≡ 8
    eight = omega (arith, length-take 8 xs)

    digits : num_bits 8 (of_bits (take 8 xs)) ≡ take 8 xs
    digits = rw eight at (num_bits-of_bits (take 8 xs) (All-take IsBit 8 xs h))

    split : buffer ≡ ys ++ (take 8 xs ++ (drop 8 xs ++ zs))
    split =
        b
        ∙ ap (λ t. ys ++ (t ++ zs)) (sym (take-append-drop 8 xs))
        ∙ ap (λ t. ys ++ t) (append_assoc (take 8 xs) (drop 8 xs) zs)

    regroup : buffer ≡ (ys ++ take 8 xs) ++ (drop 8 xs ++ zs)
    regroup = split ∙ sym (append_assoc ys (take 8 xs) (drop 8 xs ++ zs))

    first : read_bits 8 buffer p 0 ≡ of_bits (take 8 xs)
    first =
        read_bits-of_bits buffer ys (take 8 xs) (drop 8 xs ++ zs) 0 8 p split
          (All-take IsBit 8 xs h) eight f (omega arith)
        ∙ omega arith

-- `q` whole bytes of `xs`, and the `r` bits behind them.
module _ (buffer xs rest : List ℕ) (q r : ℕ) (starts : buffer ≡ xs ++ rest) (h : All IsBit xs)
    (len : length xs ≡ q * 8 + r) (small : r < 8) where
  front-eight : length (take (q * 8) xs) ≡ q * 8
  front-eight = omega (arith, length-take (q * 8) xs)

  split : buffer ≡ take (q * 8) xs ++ (drop (q * 8) xs ++ rest)
  split =
      starts
      ∙ ap (λ t. t ++ rest) (sym (take-append-drop (q * 8) xs))
      ∙ append_assoc (take (q * 8) xs) (drop (q * 8) xs) rest

  whole_bytes : bytes_bits (read_bytes q buffer 0) ≡ take (q * 8) xs
  whole_bytes =
      read_bytes-bytes_bits buffer [] (take (q * 8) xs) (drop (q * 8) xs ++ rest) q 0 split
        (All-take IsBit (q * 8) xs h) front-eight refl

  back : length (drop (q * 8) xs) ≡ r
  back = omega (arith, length-drop (q * 8) xs)

  last_byte :
      num_bits 8 (read_bits r buffer (q * 8) 0 * 2 ^ (8 - r) % 256)
      ≡ drop (q * 8) xs ++ replicate (8 - r) 0
  last_byte =
      rw
        (read_bits-of_bits buffer (take (q * 8) xs) (drop (q * 8) xs) rest 0 r (q * 8) split
            (All-drop IsBit (q * 8) xs h) back front-eight
            (omega (arith, pow-le-pow_right {n = 2} (omega arith) {i = r} {j = 8} (omega arith)))
          ∙ zero_mul_add (2 ^ r) (of_bits (drop (q * 8) xs)))
        (num_bits_shift (drop (q * 8) xs) (8 - r) 8 (All-drop IsBit (q * 8) xs h)
          (omega (arith, back)))

  -- Both together; with no odd bits there is no last byte.
  odd_bytes :
      0 < r
      → bytes_bits
          (read_bytes q buffer 0 ++ (read_bits r buffer (q * 8) 0 * 2 ^ (8 - r) % 256 ∷ []))
        ≡ xs ++ replicate (8 - r) 0
  unfolding bytes_bits
  odd_bytes pos =
      bytes_bits-append (read_bytes q buffer 0) _
      ∙ ap₂ ◌++◌ whole_bytes (append-nil _ ∙ last_byte)
      ∙ sym (append_assoc (take (q * 8) xs) (drop (q * 8) xs) (replicate (8 - r) 0))
      ∙ ap (λ t. t ++ replicate (8 - r) 0) (take-append-drop (q * 8) xs)

  even_bytes : r ≡ 0 → bytes_bits (read_bytes q buffer 0 ++ []) ≡ xs
  even_bytes e =
      ap bytes_bits (append-nil (read_bytes q buffer 0))
      ∙ whole_bytes
      ∙ take_all (q * 8) xs (omega arith)

-- On a valid stream of bits `BitStream_toByte` gives NULL for an empty stream, and otherwise the
-- bytes whose bits are those of the stream and then zeros up to a whole byte.
pub to_byte_lem :
    (b : BitStream)
    → IsValid b
    → All IsBit (bits b)
    → (b.used ≡ 0 → to_byte b ≡ none)
      × (b.used ≢ 0
          → (bytes : List ℕ) × (to_byte b ≡ some bytes)
            × (bytes_bits bytes ≡ bits b ++ replicate ((8 - b.used % 8) % 8) 0))
unfolding to_byte
to_byte_lem b v h = (
  λ e. rw e,
  λ ne. elim (dec_lt 0 (b.used % 8)) [
    | yes pos ↦ (
      _,
      rw (ne→== b.used 0 ne, bit_and_seven b.used, lt→ltb 0 (b.used % 8) pos),
      odd_bytes b.buffer (bits b) rest whole odd starts h len small pos
          ∙ ap (λ k. bits b ++ replicate k 0) (omega arith),
    )
    | no z ↦ (
      _,
      rw (ne→== b.used 0 ne, bit_and_seven b.used, le→ltb 0 (b.used % 8) (omega arith)),
      even_bytes b.buffer (bits b) rest whole odd starts h len small (omega arith)
          ∙ sym (append-nil (bits b))
          ∙ ap (λ k. bits b ++ replicate k 0) {x = 0} (omega arith),
    )
  ],
)
  where
    whole : ℕ
    whole = b.used / 8

    odd : ℕ
    odd = b.used % 8

    rest : List ℕ
    rest = drop b.used b.buffer

    starts : b.buffer ≡ bits b ++ rest
    starts = sym (take-append-drop b.used b.buffer)

    len : length (bits b) ≡ whole * 8 + odd
    len = omega (arith, length-bits b v)

    small : odd < 8
    small = omega arith
