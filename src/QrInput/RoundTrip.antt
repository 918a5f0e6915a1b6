-- ===== src/QrInput/RoundTrip.antt =====
-- What `QRinput_encodeBitStream` appends can be read back (qrinput.c).
use mathlib.Core.Bool.{false≢true}
use libqrencode.Prelude.Bits.{pow_pos}
use libqrencode.Prelude.{
  ℕ, ◌/◌, ◌^◌, ◌≤◌, ◌<◌, bit_and, true, false, List, [], ◌∷◌, ◌++◌, Option, none, some, ◌>>=◌, ◌≡◌,
  refl, length, All, take, drop, append_assoc, append-nil, take-append, drop-append, suc-eq-zero,
  arith, ◌==◌, if◌then◌else◌, inl, inr, Bool-cases, ==→eq,
}
use libqrencode.Api.{Mode, nul, num, an, eight, kanji, structure, eci, fnc1_first, fnc1_second}
use libqrencode.BitStream.{BitStream}
use libqrencode.BitStream.Num.{num_bits}
use libqrencode.BitStream.Laws.{IsValid, bits, length-bits}
use libqrencode.QrSpec
use libqrencode.QrSpec.{is_splittable_mode}
use libqrencode.QrInput.Entry.{Entry, check, check_by_mode, check_mode_kanji, check_kanji_loop}
use libqrencode.QrInput.Encode.{modeid, encode_bit_stream}
use libqrencode.QrInput.Segment.{payload, segment, count, count-le, encode_bit_stream-segment}
use libqrencode.QrInput.Reader.{
  read, read-num_bits, drop-num_bits, read_num, read_an, read_8, read_kanji,
}
use libqrencode.QrInput.ReadText.{read_num-payload, read_an-payload, read_8-payload}
use libqrencode.QrInput.ReadKanji.{AllKanji, kanji_count, read_kanji-payload}

-- The mode of an indicator.
mode_of : ℕ → Option Mode
mode_of id =
    if id == 1
    then some num
    else if id == 2
    then some an
    else if id == 4
    then some eight
    else if id == 8
    then some kanji
    else none

mode_of-modeid : (mode : Mode) → is_splittable_mode mode ≡ true → mode_of (modeid mode) ≡ some mode
unfolding mode_of
mode_of-modeid num s = refl
mode_of-modeid an s = refl
mode_of-modeid eight s = refl
mode_of-modeid kanji s = refl
mode_of-modeid nul s = cc
mode_of-modeid _ s = cc

modeid-lt : (mode : Mode) → modeid mode < 2 ^ 4
modeid-lt num = omega arith
modeid-lt an = omega arith
modeid-lt eight = omega arith
modeid-lt kanji = omega arith
modeid-lt nul = omega arith
modeid-lt structure = omega arith
modeid-lt eci = omega arith
modeid-lt fnc1_first = omega arith
modeid-lt fnc1_second = omega arith

read_payload : Mode → ℕ → List ℕ → List ℕ × List ℕ
read_payload num n bits = read_num n bits
read_payload an n bits = read_an n bits
read_payload eight n bits = read_8 n bits
read_payload kanji n bits = read_kanji n bits
read_payload _ n bits = ([], bits)

-- A segment: its mode, its data, and the bits that follow it.
pub read_segment : ℕ → List ℕ → Option (Mode × List ℕ × List ℕ)
read_segment version bits = do
  mode ← mode_of (read 4 bits)
  let l = QrSpec.length_indicator mode version
  let after = drop 4 bits
  let (cs, rest) = read_payload mode (read l after) (drop l after)
  some (mode, cs, rest)

-- The data of an entry that can be read back: it passes the check, its elements are bytes, and the
-- second bytes of kanji are those of the encoding.
pub record IsReadable (e : Entry) : Type 0 where
  pub checked : check e.mode e.bytes ≡ true
  pub bytes : All (λ c. c < 256) e.bytes
  pub characters : e.mode ≡ kanji → AllKanji e.bytes

kanji_count-half : (cs : List ℕ) → kanji_count cs ≡ length cs / 2
unfolding kanji_count
kanji_count-half [] = refl
kanji_count-half (x ∷ []) = refl
kanji_count-half (x ∷ y ∷ cs) = omega (arith, kanji_count-half cs)

by_mode : (mode : Mode) (cs : List ℕ) → check mode cs ≡ true → check_by_mode mode cs ≡ true
unfolding check
by_mode mode [] h = cc
by_mode mode (c ∷ cs) h = rw (suc-eq-zero (length cs)) at h

kanji_checks :
    (cs : List ℕ)
    → check_mode_kanji cs ≡ true
    → (bit_and (length cs) 1 ≡ 0) × (check_kanji_loop cs ≡ true)
unfolding check_mode_kanji
kanji_checks cs h = elim (Bool-cases (bit_and (length cs) 1 == 0)) [
  | inl e ↦ (==→eq _ _ e, rw e at h)
  | inr e ↦ absurd (false≢true (rw e at h))
]

read_payload-payload :
    (mode : Mode) (cs rest : List ℕ)
    → is_splittable_mode mode ≡ true
    → IsReadable (record { mode = mode; bytes = cs })
    → read_payload mode (count mode cs) (payload mode cs ++ rest) ≡ (cs, rest)
unfolding read_payload payload
read_payload-payload num cs rest s r =
    read_num-payload cs rest (unfold check_by_mode in by_mode num cs r.checked)
read_payload-payload an cs rest s r =
    read_an-payload cs rest r.bytes (unfold check_by_mode in by_mode an cs r.checked)
read_payload-payload eight cs rest s r = read_8-payload cs rest r.bytes
read_payload-payload kanji cs rest s r =
    let (even, words) = kanji_checks cs (unfold check_by_mode in by_mode kanji cs r.checked) in
    rw (← kanji_count-half cs) (read_kanji-payload cs rest (r.characters refl) even words)
read_payload-payload nul cs rest s r = cc
read_payload-payload _ cs rest s r = cc

-- Reading a segment gives back the mode and the data of its entry, and the bits behind it.
pub read_segment-segment :
    (e : Entry) (version : ℕ) (rest : List ℕ)
    → is_splittable_mode e.mode ≡ true
    → length e.bytes ≤ QrSpec.maximum_words e.mode version
    → IsReadable e
    → read_segment version (segment version e ++ rest) ≡ some (e.mode, e.bytes, rest)
unfolding read_segment segment
read_segment-segment e version rest s h r = rw (
  append_assoc (head ++ size) body rest,
  append_assoc head size (body ++ rest),
  read-num_bits 4 (modeid e.mode) (size ++ (body ++ rest)) (modeid-lt e.mode),
  mode_of-modeid e.mode s,
  drop-num_bits 4 (modeid e.mode) (size ++ (body ++ rest)),
  read-num_bits l n (body ++ rest) fits,
  drop-num_bits l n (body ++ rest),
  read_payload-payload e.mode e.bytes rest s r,
)
  where
    l : ℕ
    l = QrSpec.length_indicator e.mode version

    n : ℕ
    n = count e.mode e.bytes

    head : List ℕ
    head = num_bits 4 (modeid e.mode)

    size : List ℕ
    size = num_bits l n

    body : List ℕ
    body = payload e.mode e.bytes

    fits : n < 2 ^ l
    fits = omega (arith, count-le e.mode e.bytes version s h, pow_pos l)

-- In a QR Code symbol, an entry of one of the four modes of data that can be read back and that its
-- header can count is encoded so that a reader of the bits appended finds its mode and its data,
-- and nothing behind them; the bits in front are kept.
pub encode_bit_stream-read :
    (e : Entry) (b : BitStream) (version : ℕ)
    → is_splittable_mode e.mode ≡ true
    → length e.bytes ≤ QrSpec.maximum_words e.mode version
    → IsReadable e
    → IsValid b
    → (c : BitStream) × (encode_bit_stream e b version false ≡ some c)
      × (take b.used (bits c) ≡ bits b)
      × (read_segment version (drop b.used (bits c)) ≡ some (e.mode, e.bytes, []))
encode_bit_stream-read e b version s h r v =
    let (c, eq, app) = encode_bit_stream-segment e b version s h v in
    (
      c,
      eq,
      rw (app.holds) (take-append (bits b) (segment version e) b.used (length-bits b v)),
      rw (app.holds, drop-append (bits b) (segment version e) b.used (length-bits b v))
          (rw append-nil at (read_segment-segment e version [] s h r)),
    )
