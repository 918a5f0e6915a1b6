-- ===== src/QrInput/Padding.antt =====
-- `QRinput_appendPaddingBit` and `QRinput_appendPaddingBitMQR`: what is appended, and that the
-- stream then fills the symbol.
use libqrencode.Prelude.{
  ℕ, zero, suc, ◌+◌, ◌-◌, ◌*◌, ◌/◌, ◌%◌, ◌^◌, ◌≤◌, ◌<◌, List, [], ◌∷◌, ◌++◌, none, some, ◌≡◌, refl,
  ap, ◌∙◌, length, replicate, length-append, length-replicate, leb, ◌==◌, if◌then◌else◌, lt→ltb,
  le→ltb, le→leb, lt→leb, ne→==, ==_iff, arith,
}
use mathlib.Core.Path.{ap₂}
use native.Mathlib.Nat.{zero-div}
use native.Mathlib.Decide.{dec_le, ℕ_discrete}
use libqrencode.BitStream.{BitStream, append_num}
use libqrencode.BitStream.Num.{num_bits, bytes_bits, length-bytes_bits}
use libqrencode.BitStream.Laws.{
  IsValid, bits, Appended, Appended-trans, Appended-refl, append_num-Appended, used-Appended,
}
use libqrencode.QrSpec
use libqrencode.QrInput.Entry.{QrInput}
use libqrencode.QrInput.Stream.{pad_loop, append_padding_bit}

-- The padding code words, 0xec and 0x11 in turn, from round `i` on.
unfoldable pub pad_words : ℕ → ℕ → List ℕ
pad_words zero i = []
pad_words (suc n) i = (if i % 2 == 1 then 0x11 else 0xec) ∷ pad_words n (i + 1)

length-pad_words : (n i : ℕ) → length (pad_words n i) ≡ n
unfolding pad_words
length-pad_words zero i = refl
length-pad_words (suc n) i = ap suc (length-pad_words n (i + 1))

num_bits_zero : (n : ℕ) → num_bits n 0 ≡ replicate n 0
unfolding num_bits
num_bits_zero zero = refl
num_bits_zero (suc n) = ap₂ ◌∷◌ (zero_digit (2 ^ n)) (num_bits_zero n)
  where
    zero_digit : (d : ℕ) → 0 / d % 2 ≡ 0
    zero_digit d = omega (arith, zero-div d)

pad_loop-Appended :
    (n i : ℕ) (b : BitStream) → IsValid b → Appended b (bytes_bits (pad_words n i)) (pad_loop n i b)
unfolding pad_loop pad_words bytes_bits
pad_loop-Appended zero i b v = Appended-refl b v
pad_loop-Appended (suc n) i b v =
    let first = append_num-Appended b 8 (if i % 2 == 1 then 0x11 else 0xec) v (omega arith) in
    Appended-trans first (pad_loop-Appended n (i + 1) _ first.valid)

zeros-Appended :
    (b : BitStream) (n : ℕ) → IsValid b → n ≤ 32 → Appended b (replicate n 0) (append_num b n 0)
zeros-Appended b n v h = rw (num_bits_zero n) at (append_num-Appended b n 0 v h)

-- The padding of a stream of `used` bits in a symbol of `maxwords` code words: a terminator of up
-- to four zeros, zeros up to a whole byte, and padding code words.
unfoldable pub padding : ℕ → ℕ → List ℕ
padding maxwords used =
    let words = (used + 4 + 7) / 8 in
    if leb (maxwords * 8 - used) 4
    then replicate (maxwords * 8 - used) 0
    else replicate (words * 8 - used) 0 ++ bytes_bits (pad_words (maxwords - words) 0)

length-padding :
    (maxwords used : ℕ) → used ≤ maxwords * 8 → used + length (padding maxwords used) ≡ maxwords * 8
unfolding padding
length-padding maxwords used h = elim (dec_le (maxwords * 8 - used) 4) [
  | yes few ↦ rw (le→leb _ 4 few) (omega (arith, length-replicate {A = ℕ} (maxwords * 8 - used) 0))
  | no many ↦ rw (lt→leb (maxwords * 8 - used) 4 (omega arith)) (
      omega (
        arith,
        length-append (replicate ((used + 4 + 7) / 8 * 8 - used) 0)
            (bytes_bits (pad_words (maxwords - (used + 4 + 7) / 8) 0)),
        length-replicate {A = ℕ} ((used + 4 + 7) / 8 * 8 - used) 0,
        length-bytes_bits (pad_words (maxwords - (used + 4 + 7) / 8) 0),
        length-pad_words (maxwords - (used + 4 + 7) / 8) 0,
      ))
]

abbrev data_words : QrInput → ℕ
data_words input = QrSpec.get_data_length input.version input.level

padded :
    (b : BitStream) (input : QrInput)
    → IsValid b
    → b.used ≤ data_words input * 8
    → (c : BitStream) × (append_padding_bit b input ≡ some c)
      × Appended b (padding (data_words input) b.used) c
unfolding append_padding_bit padding
padded b input v h = elim (ℕ_discrete (data_words input * 8) b.used) [
  | yes full ↦ (
    b,
    rw (le→ltb _ b.used h, (==_iff _ b.used).1 full),
    rw (le→leb (data_words input * 8 - b.used) 4 (omega arith), none_left full) (Appended-refl b v),
  )
  | no open_end ↦ elim (dec_le (data_words input * 8 - b.used) 4) [
    | yes few ↦ (
      append_num b (data_words input * 8 - b.used) 0,
      rw (le→ltb _ b.used h, ne→== _ b.used open_end, le→leb _ 4 few),
      rw (le→leb _ 4 few) (zeros-Appended b _ v (omega arith)),
    )
    | no many ↦
        let zeros = zeros-Appended b ((b.used + 4 + 7) / 8 * 8 - b.used) v (omega arith) in
        (
          pad_loop (data_words input - (b.used + 4 + 7) / 8) 0
              (append_num b ((b.used + 4 + 7) / 8 * 8 - b.used) 0),
          rw (
            le→ltb _ b.used h,
            ne→== _ b.used open_end,
            lt→leb (data_words input * 8 - b.used) 4 (omega arith),
          ),
          rw (lt→leb (data_words input * 8 - b.used) 4 (omega arith))
              (Appended-trans zeros (pad_loop-Appended _ 0 _ zeros.valid)),
        )
  ]
]
  where
    none_left : data_words input * 8 ≡ b.used → data_words input * 8 - b.used ≡ 0
    none_left e = omega arith

-- On a valid stream `QRinput_appendPaddingBit` fails exactly if the stream is longer than the data
-- code words of the symbol; otherwise the new stream is valid, holds the old bits, the padding
-- behind them, and has exactly eight bits for each data code word.
pub append_padding_bit_lem :
    (b : BitStream) (input : QrInput)
    → IsValid b
    → (QrSpec.get_data_length input.version input.level * 8 < b.used
        → append_padding_bit b input ≡ none)
      × (b.used ≤ QrSpec.get_data_length input.version input.level * 8
          → (c : BitStream) × (append_padding_bit b input ≡ some c)
            × IsValid c
            × (bits c ≡ bits b ++ padding (QrSpec.get_data_length input.version input.level) b.used)
            × (c.used ≡ QrSpec.get_data_length input.version input.level * 8))
append_padding_bit_lem b input v = (
  λ over. unfold append_padding_bit in rw (lt→ltb _ _ over),
  λ fits.
      let (c, e, app) = padded b input v fits in
      (
        c,
        e,
        app.valid,
        app.holds,
        used-Appended b c _ v app ∙ length-padding (data_words input) b.used fits,
      ),
)
