-- ===== src/QrInput/Reader.antt =====
-- A reader of the payloads of segments, as a scanner of QR Code would read them. The reader is no
-- part of the library: it says what the bits of qrinput.c mean.
use libqrencode.Prelude.{
  ℕ, zero, suc, ◌+◌, ◌-◌, ◌*◌, ◌/◌, ◌%◌, ◌^◌, ◌<◌, List, [], ◌∷◌, ◌++◌, ◌≡◌, take, drop, get_or,
  take-append, drop-append, ltb, if◌then◌else◌,
}
use native.Mathlib.Nat.{mod-eq_of_lt}
use libqrencode.BitStream.Num.{num_bits, of_bits, length-num_bits, of_bits-num_bits}

-- The number in the first `n` bits.
unfoldable pub read : ℕ → List ℕ → ℕ
read n bits = of_bits (take n bits)

pub read-num_bits : (n v : ℕ) (rest : List ℕ) → v < 2 ^ n → read n (num_bits n v ++ rest) ≡ v
unfolding read
read-num_bits n v rest h =
    rw (take-append (num_bits n v) rest n (length-num_bits n v), of_bits-num_bits n v)
      (mod-eq_of_lt h)

pub drop-num_bits : (n v : ℕ) (rest : List ℕ) → drop n (num_bits n v ++ rest) ≡ rest
drop-num_bits n v rest = drop-append (num_bits n v) rest n (length-num_bits n v)

unfoldable pub char : ℕ → ℕ
char v = v + b'0'

-- The data of `size` characters, and what follows them.
unfoldable pub read_num : ℕ → List ℕ → List ℕ × List ℕ
unfolding read char
read_num zero bits = ([], bits)
read_num (suc zero) bits = (char (read 4 bits) ∷ [], drop 4 bits)
read_num (suc (suc zero)) bits =
    (char (read 7 bits / 10) ∷ char (read 7 bits % 10) ∷ [], drop 7 bits)
read_num (suc (suc (suc n))) bits =
    let (cs, rest) = read_num n (drop 10 bits) in
    let v = read 10 bits in (char (v / 100) ∷ char (v / 10 % 10) ∷ char (v % 10) ∷ cs, rest)

-- The 45 characters of alphanumeric mode, by their values.
unfoldable pub an_char : ℕ → ℕ
an_char v =
    if ltb v 10
    then b'0' + v
    else if ltb v 36
    then b'A' + (v - 10)
    else get_or (b' ' ∷ b'$' ∷ b'%' ∷ b'*' ∷ b'+' ∷ b'-' ∷ b'.' ∷ b'/' ∷ b':' ∷ []) (v - 36) 0

unfoldable pub read_an : ℕ → List ℕ → List ℕ × List ℕ
unfolding read an_char
read_an zero bits = ([], bits)
read_an (suc zero) bits = (an_char (read 6 bits) ∷ [], drop 6 bits)
read_an (suc (suc n)) bits =
    let (cs, rest) = read_an n (drop 11 bits) in
    (an_char (read 11 bits / 45) ∷ an_char (read 11 bits % 45) ∷ cs, rest)

unfoldable pub read_8 : ℕ → List ℕ → List ℕ × List ℕ
unfolding read
read_8 zero bits = ([], bits)
read_8 (suc n) bits = let (cs, rest) = read_8 n (drop 8 bits) in (read 8 bits ∷ cs, rest)

-- The Shift JIS word of a value of 13 bits.
unfoldable pub kanji_word : ℕ → ℕ
kanji_word v = let w = v / 0xc0 * 256 + v % 0xc0 in if ltb w 0x1f00 then w + 0x8140 else w + 0xc140

unfoldable pub read_kanji : ℕ → List ℕ → List ℕ × List ℕ
unfolding read kanji_word
read_kanji zero bits = ([], bits)
read_kanji (suc n) bits =
    let (cs, rest) = read_kanji n (drop 13 bits) in
    let w = kanji_word (read 13 bits) in (w / 256 ∷ w % 256 ∷ cs, rest)
