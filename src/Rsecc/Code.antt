-- ===== src/Rsecc/Code.antt =====
-- `RSECC_encode` as a whole: the roots of every generator, and the code words of every length.
use native.Mathlib.Decide.{ℕ_discrete}
use libqrencode.Prelude.Xor.{bit_xor-zero}
use libqrencode.Prelude.{
  ℕ, zero, suc, ◌+◌, ◌-◌, ◌≤◌, ◌<◌, bit_xor, Bool, true, List, [], ◌∷◌, ◌++◌, some, ◌≡◌, refl, sym,
  ap, ◌∙◌, length, length-append, length-replicate, All, All-append, get_or, replicate, ◌==◌, ==→eq,
  ne→==, ==_iff, le→ltb, arith,
}
use mathlib.Core.Path.{subst}
use libqrencode.Prelude.Tables.{all_below, all_below_sound}
use libqrencode.Rsecc.{
  symbols, power, index, generator_init, feed_back, encode_step, encode_loop, encode,
}
use libqrencode.Rsecc.Field.{
  written, init_lookup_table-written, alpha_values, index_values, times, times-byte, times-zero,
}
use libqrencode.Rsecc.Roots.{
  evaluate, IsByte, evaluate-append, IsByte-xor, power-IsByte, coefficients, encode_step-root,
}

-- Each generator of degree `n` has the first `n` powers as roots.
root_table :
    all_below 29 (λ k.
      let gen = generator_init written (k + 2) in
      let low = coefficients gen (k + 2) in all_below (k + 2) (λ i. evaluate i low 1 == 0))
    ≡ true
unfolding all_below generator_init coefficients evaluate times written alpha_values index_values
root_table = refl

generator-root :
    (n i : ℕ)
    → 2 ≤ n
    → n ≤ 30
    → i < n
    → evaluate i (coefficients (generator_init written n) n) 1 ≡ 0
generator-root n i lo hi h =
    let same : n - 2 + 2 ≡ n = omega arith in
    subst (λ m. evaluate i (coefficients (generator_init written m) m) 1 ≡ 0) same
      (==→eq _ _ (
        all_below_sound (n - 2 + 2) (is_root (n - 2)) i
          (all_below_sound 29 (λ k. all_below (k + 2) (is_root k)) (n - 2) root_table (omega arith))
          (omega arith)))
  where
    is_root : ℕ → ℕ → Bool
    is_root k i = evaluate i (coefficients (generator_init written (k + 2)) (k + 2)) 1 == 0

feed_back-shape :
    (gen : List ℕ) (f : ℕ) (es : List ℕ)
    → All IsByte es
    → (length (feed_back written gen f es) ≡ length es) × All IsByte (feed_back written gen f es)
unfolding feed_back
feed_back-shape gen f [] h = (refl, tt)
feed_back-shape gen f (e ∷ es) (h, hs) =
    let (count, bytes) = feed_back-shape gen f es hs in
    (ap suc count, (IsByte-xor e _ h (power-IsByte (f + get_or gen (suc (length es)) 0)), bytes))

encode_step-shape :
    (gen : List ℕ) (d e : ℕ) (es : List ℕ)
    → All IsByte es
    → (length (encode_step written gen d (e ∷ es)) ≡ suc (length es))
      × All IsByte (encode_step written gen d (e ∷ es))
unfolding encode_step
encode_step-shape gen d e es h = elim (ℕ_discrete (index written (bit_xor d e)) symbols) [
  | yes none_back ↦
      rw ((==_iff (index written (bit_xor d e)) symbols).1 none_back) (
        omega (arith, length-append es (0 ∷ [])),
        All-append IsByte es (0 ∷ []) h (omega arith, tt),
      )
  | no back ↦
      let f = index written (bit_xor d e) in
      let (count, bytes) = feed_back-shape gen f es h in
      rw (ne→== f symbols back) (
        omega (
          arith,
          count,
          length-append (feed_back written gen f es) (power written (f + get_or gen 0 0) ∷ []),
        ),
        All-append IsByte (feed_back written gen f es) _ bytes
            (power-IsByte (f + get_or gen 0 0), tt),
      )
]

-- The bytes of a code word behind data whose value at a root is `value`.
record IsCode (n i value : ℕ) (ecc : List ℕ) : Type 0 where
  pub count : length ecc ≡ n
  pub bytes : All IsByte ecc
  pub root : evaluate i ecc value ≡ 0

encode_loop-IsCode :
    (n i value : ℕ) (gen ds ecc : List ℕ)
    → 1 ≤ n
    → evaluate i (coefficients gen n) 1 ≡ 0
    → All IsByte ds
    → IsByte value
    → IsCode n i value ecc
    → IsCode n i (evaluate i ds value) (encode_loop written gen ds ecc)
unfolding encode_loop evaluate
encode_loop-IsCode n i value gen [] ecc pos root h hv c = c
encode_loop-IsCode n i value gen (d ∷ ds) [] pos root (h, hs) hv c = absurd (omega (arith, c.count))
encode_loop-IsCode n i value gen (d ∷ ds) (e ∷ es) pos root (h, hs) hv c =
    let (count, bytes) = encode_step-shape gen d e es (c.bytes.1) in
    encode_loop-IsCode n i (bit_xor (times i value) d) gen ds (encode_step written gen d (e ∷ es))
      pos root hs (IsByte-xor _ d (times-byte i value hv) h)
      (record {
        count = count ∙ c.count;
        bytes = bytes;
        root =
            encode_step-root i d e gen es value
              (subst (λ m. evaluate i (coefficients gen m) 1 ≡ 0) (sym c.count) root) h (c.bytes.0)
              (c.bytes.1) hv c.root;
      })

zeros-IsCode : (n i : ℕ) → IsCode n i 0 (replicate n 0)
unfolding evaluate
zeros-IsCode n i = record { count = length-replicate n 0; bytes = zero_bytes n; root = zero_root n }
  where
    zero_bytes : (k : ℕ) → All IsByte (replicate k 0)
    zero_bytes zero = tt
    zero_bytes (suc k) = (omega arith, zero_bytes k)

    zero_root : (k : ℕ) → evaluate i (replicate k 0) 0 ≡ 0
    zero_root zero = refl
    zero_root (suc k) =
        ap (evaluate i (replicate k 0)) (bit_xor-zero (times i 0) ∙ times-zero i) ∙ zero_root k

encode-written :
    (n : ℕ) (ds : List ℕ)
    → n ≤ 30
    → encode n ds ≡ some (encode_loop written (generator_init written n) ds (replicate n 0))
unfolding encode
encode-written n ds h = rw (le→ltb 30 n h) (
    ap (λ t. some (encode_loop t (generator_init t n) ds (replicate n 0)))
      init_lookup_table-written)

-- For 2 to 30 code words of error correction and any bytes of data, `RSECC_encode` succeeds and
-- gives exactly that many bytes; the polynomial of the data and these bytes, from the highest
-- coefficient on, is 0 at each of that many first powers of the primitive element. So the data with
-- its code words is a code word of the Reed-Solomon code.
pub encode-evaluate :
    (n : ℕ) (ds : List ℕ)
    → 2 ≤ n
    → n ≤ 30
    → All IsByte ds
    → (ecc : List ℕ) × (encode n ds ≡ some ecc)
      × (length ecc ≡ n)
      × All IsByte ecc
      × ((i : ℕ) → i < n → evaluate i (ds ++ ecc) 0 ≡ 0)
encode-evaluate n ds lo hi h =
    let code : (i : ℕ) → i < n → IsCode n i (evaluate i ds 0) (ecc n ds) = λ i in_range.
      encode_loop-IsCode n i 0 (generator_init written n) ds (replicate n 0) (omega arith)
        (generator-root n i lo hi in_range) h (omega arith) (zeros-IsCode n i) in
    let first = code 0 (omega arith) in
    (
      ecc n ds,
      encode-written n ds hi,
      first.count,
      first.bytes,
      λ i in_range. evaluate-append i ds (ecc n ds) 0 ∙ (code i in_range).root,
    )
  where
    ecc : ℕ → List ℕ → List ℕ
    ecc n ds = encode_loop written (generator_init written n) ds (replicate n 0)
