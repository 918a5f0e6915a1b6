-- ===== src/Rsecc.antt =====
-- rsecc.c: the Reed-Solomon encoder over the field of 256 elements.
-- The tables that the source keeps once they are computed are values here: the flags
-- `initialized` and `generatorInitialized`, and the locks around them, have no counterpart.
-- `ecc_length` is 2 at least for every symbol; a smaller one would be a write in front of the
-- generators.
pub mod Field
pub mod Roots
pub mod Code
mod Tests
use libqrencode.Prelude.{
  ℕ, zero, suc, ◌+◌, ◌*◌, ◌%◌, bit_and, bit_xor, List, [], ◌∷◌, ◌++◌, Option, none, some, length,
  get_or, set, replicate, ltb, ◌==◌, if◌then◌else◌,
}

abbrev pub symbols : ℕ
symbols = 255

abbrev pub proot : ℕ
proot = 0x11d

abbrev pub max_length : ℕ
max_length = 30

-- `alpha` and `aindex`: the powers of the primitive element, and their exponents.
pub record Tables : Type 0 where
  pub alpha : List ℕ
  pub aindex : List ℕ

-- The power after `b`.
abbrev pub next_power : ℕ → ℕ
next_power b =
    let doubled = b * 2 in
    bit_and (if bit_and doubled (symbols + 1) == 0 then doubled else bit_xor doubled proot) symbols

-- The rounds left, from `i` on.
unfoldable pub lookup_loop : ℕ → ℕ → ℕ → Tables → Tables
lookup_loop zero i b t = t
lookup_loop (suc n) i b t =
    lookup_loop n (i + 1) (next_power b)
      (record { alpha = set t.alpha i b; aindex = set t.aindex b i })

unfoldable pub init_lookup_table : Tables
unfolding lookup_loop
init_lookup_table = lookup_loop symbols 0 1 (record {
  alpha = replicate (symbols + 1) 0;
  aindex = set (replicate (symbols + 1) 0) 0 symbols;
})

-- `alpha[e % symbols]` and `aindex[x]`
abbrev pub power : Tables → ℕ → ℕ
power t e = get_or t.alpha (e % symbols) 0

abbrev pub index : Tables → ℕ → ℕ
index t x = get_or t.aindex x 0

-- The loop on `j` of `generator_init`, from the coefficient behind `prev` on, with `g[i + 1]`.
unfoldable pub generator_shift : Tables → ℕ → ℕ → List ℕ → List ℕ
generator_shift t i prev [] = 1 ∷ []
generator_shift t i prev (x ∷ xs) =
    bit_xor prev (power t (index t x + i)) ∷ generator_shift t i x xs

unfoldable pub generator_round : Tables → ℕ → List ℕ → List ℕ
unfolding generator_shift
generator_round t i [] = 1 ∷ []
generator_round t i (x ∷ xs) = power t (index t x + i) ∷ generator_shift t i x xs

unfoldable pub generator_loop : Tables → ℕ → ℕ → List ℕ → List ℕ
unfolding generator_round
generator_loop t zero i g = g
generator_loop t (suc n) i g = generator_loop t n (i + 1) (generator_round t i g)

unfoldable pub indices : Tables → List ℕ → List ℕ
indices t [] = []
indices t (x ∷ xs) = index t x ∷ indices t xs

-- The coefficients from the lowest on, as exponents.
unfoldable pub generator_init : Tables → ℕ → List ℕ
unfolding generator_loop indices
generator_init t n = indices t (generator_loop t n 0 (1 ∷ []))

-- The loop on `j` of `RSECC_encode`. `ecc_length - j` is the number of bytes from the j-th on.
unfoldable pub feed_back : Tables → List ℕ → ℕ → List ℕ → List ℕ
feed_back t gen feedback [] = []
feed_back t gen feedback (e ∷ es) =
    bit_xor e (power t (feedback + get_or gen (suc (length es)) 0)) ∷ feed_back t gen feedback es

-- A round of the loop on `i`, for a byte of the data.
unfoldable pub encode_step : Tables → List ℕ → ℕ → List ℕ → List ℕ
unfolding feed_back
encode_step t gen d [] = []
encode_step t gen d (e ∷ es) =
    let feedback = index t (bit_xor d e) in
    if feedback == symbols
    then es ++ (0 ∷ [])
    else feed_back t gen feedback es ++ (power t (feedback + get_or gen 0 0) ∷ [])

unfoldable pub encode_loop : Tables → List ℕ → List ℕ → List ℕ → List ℕ
unfolding encode_step
encode_loop t gen [] ecc = ecc
encode_loop t gen (d ∷ ds) ecc = encode_loop t gen ds (encode_step t gen d ecc)

-- `none` for -1.
unfoldable pub encode : ℕ → List ℕ → Option (List ℕ)
unfolding init_lookup_table generator_init encode_loop
encode ecc_length bytes =
    if ltb max_length ecc_length
    then none
    else some (
        encode_loop init_lookup_table (generator_init init_lookup_table ecc_length) bytes
          (replicate ecc_length 0))
