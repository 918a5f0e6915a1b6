-- ===== src/QrInput/Segment.antt =====
-- The bits of a whole entry: `QRinput_encodeBitStream` against a description of the segment that
-- the standard asks for, and its length against the estimate.
use libqrencode.Prelude.{
  ℕ, zero, suc, ◌+◌, ◌-◌, ◌*◌, ◌/◌, ◌%◌, ◌^◌, ◌≤◌, ◌<◌, Bool, true, false, List, [], ◌∷◌, ◌++◌,
  Option, some, ◌≡◌, refl, ap, ◌∙◌, length, length-append, arith, ◌==◌, if◌then◌else◌, le→ltb,
  and-false,
}
use libqrencode.Api.{Mode, nul, num, an, eight, kanji}
use libqrencode.Prelude.Bits.{bit_and-one}
use libqrencode.BitStream.{BitStream, append_num}
use libqrencode.BitStream.Num.{num_bits, bytes_bits, length-num_bits, length-bytes_bits}
use libqrencode.BitStream.Laws.{
  IsValid, Appended, Appended-trans, append_num-Appended, append_bytes-Appended, used-Appended,
}
use libqrencode.QrSpec
use libqrencode.QrSpec.{is_kanji, is_splittable_mode}
use libqrencode.QrInput.Entry.{Entry}
use libqrencode.QrInput.Encode.{
  digit, an_value, kanji_value, modeid, append_header, encode_mode_num, encode_mode_an,
  encode_mode_8, encode_mode_kanji, encode_by_mode, encode_bit_stream, encode_fuel, maximum_words,
}
use libqrencode.QrInput.Payload.{
  num_payload, an_payload, kanji_payload, append_num_words-Appended, append_an_words-Appended,
  append_kanji_words-Appended,
}
use libqrencode.QrInput.Estimate.{
  estimate_bits_mode_num, estimate_bits_mode_an, estimate_bits_mode_kanji, add_headers,
  estimate_bit_stream_size_of_entry,
}

-- The characters that the header counts.
abbrev pub count : Mode → List ℕ → ℕ
count mode bytes = if is_kanji mode then length bytes / 2 else length bytes

unfoldable pub payload : Mode → List ℕ → List ℕ
payload num bytes = num_payload bytes
payload an bytes = an_payload bytes
payload eight bytes = bytes_bits bytes
payload kanji bytes = kanji_payload bytes
payload _ bytes = []

-- A segment of QR Code in one of the four modes of data.
unfoldable pub segment : ℕ → Entry → List ℕ
segment version e =
    (num_bits 4 (modeid e.mode)
      ++ num_bits (QrSpec.length_indicator e.mode version) (count e.mode e.bytes))
    ++ payload e.mode e.bytes

pub length_indicator_le : (mode : Mode) (version : ℕ) → QrSpec.length_indicator mode version ≤ 16
unfolding QrSpec.length_indicator
length_indicator_le num version = ground arith
length_indicator_le an version = ground arith
length_indicator_le eight version = ground arith
length_indicator_le kanji version = ground arith
length_indicator_le nul version = omega arith
length_indicator_le _ version = omega arith

-- The header and the payload of the four encoders of data.
header-Appended :
    (mode : Mode) (b : BitStream) (size version : ℕ)
    → IsValid b
    → Appended b
        (num_bits 4 (modeid mode) ++ num_bits (QrSpec.length_indicator mode version) size)
        (append_num (append_num b 4 (modeid mode)) (QrSpec.length_indicator mode version) size)
header-Appended mode b size version v =
    let first = append_num-Appended b 4 (modeid mode) v (omega arith) in
    Appended-trans first (
      append_num-Appended (append_num b 4 (modeid mode)) (QrSpec.length_indicator mode version) size
        first.valid (omega (arith, length_indicator_le mode version)))

abbrev pub HasSegment : Entry → BitStream → ℕ → Option BitStream → Type 0
HasSegment e b version out = (c : BitStream) × (out ≡ some c) × Appended b (segment version e) c

pub by_mode-HasSegment :
    (mode : Mode) (bytes : List ℕ) (b : BitStream) (version : ℕ)
    → is_splittable_mode mode ≡ true
    → IsValid b
    → let e : Entry = record { mode = mode; bytes = bytes } in
      HasSegment e b version (encode_by_mode e b version false)
unfolding segment payload encode_by_mode encode_mode_num encode_mode_an encode_mode_8
    encode_mode_kanji append_header
by_mode-HasSegment num bytes b version s v =
    let head = header-Appended num b (length bytes) version v in
    (_, refl, Appended-trans head (append_num_words-Appended bytes _ head.valid))
by_mode-HasSegment an bytes b version s v =
    let head = header-Appended an b (length bytes) version v in
    (_, refl, Appended-trans head (append_an_words-Appended bytes _ head.valid))
by_mode-HasSegment eight bytes b version s v =
    let head = header-Appended eight b (length bytes) version v in
    (_, refl, Appended-trans head (append_bytes-Appended _ bytes head.valid))
by_mode-HasSegment kanji bytes b version s v =
    let head = header-Appended kanji b (length bytes / 2) version v in
    (_, refl, Appended-trans head (append_kanji_words-Appended bytes _ head.valid))
by_mode-HasSegment nul bytes b version s v = cc
by_mode-HasSegment _ bytes b version s v = cc

-- An entry within the count that its header can hold is not cut.
encode_whole :
    (e : Entry) (b : BitStream) (version : ℕ) (mqr : Bool)
    → length e.bytes ≤ maximum_words e.mode version mqr
    → encode_bit_stream e b version mqr ≡ encode_by_mode e b version mqr
unfolding encode_bit_stream
encode_whole e b version mqr h = at_fuel (length e.bytes)
  where
    at_fuel : (n : ℕ) → encode_fuel n e b version mqr ≡ encode_by_mode e b version mqr
    at_fuel zero = refl
    at_fuel (suc n) = rw (le→ltb _ _ h, and-false)

-- On a valid stream, in a QR Code symbol, an entry of one of the four modes of data that its header
-- can count is encoded without failure, and what is appended is exactly its segment: the mode
-- indicator, the count and the payload.
pub encode_bit_stream-segment :
    (e : Entry) (b : BitStream) (version : ℕ)
    → is_splittable_mode e.mode ≡ true
    → length e.bytes ≤ QrSpec.maximum_words e.mode version
    → IsValid b
    → (c : BitStream) × (encode_bit_stream e b version false ≡ some c)
      × Appended b (segment version e) c
encode_bit_stream-segment e b version s h v =
    rw (encode_whole e b version false h) (by_mode-HasSegment e.mode e.bytes b version s v)

length-num_payload : (xs : List ℕ) → length (num_payload xs) ≡ estimate_bits_mode_num (length xs)
unfolding num_payload estimate_bits_mode_num
length-num_payload [] = refl
length-num_payload (x ∷ []) = length-num_bits 4 _
length-num_payload (x ∷ y ∷ []) = length-num_bits 7 _
length-num_payload (x ∷ y ∷ z ∷ rest) = ground (
  arith,
  length-append (num_bits 10 (digit x * 100 + digit y * 10 + digit z)) (num_payload rest),
  length-num_bits 10 (digit x * 100 + digit y * 10 + digit z),
  length-num_payload rest,
)

length-an_payload : (xs : List ℕ) → length (an_payload xs) ≡ estimate_bits_mode_an (length xs)
unfolding an_payload estimate_bits_mode_an
length-an_payload [] = refl
length-an_payload (x ∷ []) = length-num_bits 6 _
length-an_payload (x ∷ y ∷ rest) = ground (
  arith,
  length-append (num_bits 11 ((an_value x * 45 + an_value y) % 2 ^ 32)) (an_payload rest),
  length-num_bits 11 ((an_value x * 45 + an_value y) % 2 ^ 32),
  length-an_payload rest,
  bit_and-one (length rest),
  bit_and-one (suc (suc (length rest))),
)

length-kanji_payload :
    (xs : List ℕ) → length (kanji_payload xs) ≡ estimate_bits_mode_kanji (length xs)
unfolding kanji_payload estimate_bits_mode_kanji
length-kanji_payload [] = refl
length-kanji_payload (x ∷ []) = refl
length-kanji_payload (x ∷ y ∷ rest) = omega (
  arith,
  length-append (num_bits 13 (kanji_value x y)) (kanji_payload rest),
  length-num_bits 13 (kanji_value x y),
  length-kanji_payload rest,
)

-- One header is counted when the count fits it.
one_header : (k m : ℕ) → 0 < k → k ≤ m - 1 → (k + m - 1) / m ≡ 1
one_header k m pos h = grind arith

half_le : (n m : ℕ) → n ≤ m * 2 → n / 2 ≤ m
half_le n m h = omega arith

-- The count is below what the length indicator can express.
pub count-le :
    (mode : Mode) (bytes : List ℕ) (version : ℕ)
    → is_splittable_mode mode ≡ true
    → length bytes ≤ QrSpec.maximum_words mode version
    → count mode bytes ≤ 2 ^ QrSpec.length_indicator mode version - 1
unfolding QrSpec.maximum_words QrSpec.length_indicator
count-le num bytes version s h = h
count-le an bytes version s h = h
count-le eight bytes version s h = h
count-le kanji bytes version s h = half_le (length bytes) _ h
count-le nul bytes version s h = cc
count-le _ bytes version s h = cc

length-header :
    (mode : Mode) (size version : ℕ)
    → length (num_bits 4 (modeid mode) ++ num_bits (QrSpec.length_indicator mode version) size)
      ≡ 4 + QrSpec.length_indicator mode version
length-header mode size version = omega (
  arith,
  length-append (num_bits 4 (modeid mode)) (num_bits (QrSpec.length_indicator mode version) size),
  length-num_bits 4 (modeid mode),
  length-num_bits (QrSpec.length_indicator mode version) size,
)

-- What the estimate adds for one header.
add_headers_one :
    (mode : Mode) (bytes : List ℕ) (bits version : ℕ)
    → is_splittable_mode mode ≡ true
    → length bytes ≤ QrSpec.maximum_words mode version
    → 0 < count mode bytes
    → add_headers mode (length bytes) bits version false
      ≡ 4 + QrSpec.length_indicator mode version + bits
unfolding add_headers
add_headers_one mode bytes bits version s h pos =
    rw
      (one_header (count mode bytes) (2 ^ QrSpec.length_indicator mode version) pos
        (count-le mode bytes version s h))
      (omega arith)

payload-length :
    (mode : Mode) (bytes : List ℕ) (version n : ℕ)
    → is_splittable_mode mode ≡ true
    → length bytes ≤ QrSpec.maximum_words mode version
    → 0 < count mode bytes
    → length (payload mode bytes) ≡ n
    → length (segment version (record { mode = mode; bytes = bytes }))
      ≡ add_headers mode (length bytes) n version false
unfolding segment
payload-length mode bytes version n s h pos e = omega (
  arith,
  length-append
      (num_bits 4 (modeid mode)
        ++ num_bits (QrSpec.length_indicator mode version) (count mode bytes))
      (payload mode bytes),
  length-header mode (count mode bytes) version,
  add_headers_one mode bytes n version s h pos,
)

from_one : (version : ℕ) → 1 ≤ version → (if version == 0 then 1 else version) ≡ version
from_one version lo = ground arith

length-segment :
    (mode : Mode) (bytes : List ℕ) (version : ℕ)
    → is_splittable_mode mode ≡ true
    → 1 ≤ version
    → length bytes ≤ QrSpec.maximum_words mode version
    → 0 < count mode bytes
    → let e : Entry = record { mode = mode; bytes = bytes } in
      length (segment version e) ≡ estimate_bit_stream_size_of_entry e version false
unfolding estimate_bit_stream_size_of_entry payload
length-segment num bytes version s lo h pos =
    rw (from_one version lo) (payload-length num bytes version _ s h pos (length-num_payload bytes))
length-segment an bytes version s lo h pos =
    rw (from_one version lo) (payload-length an bytes version _ s h pos (length-an_payload bytes))
length-segment eight bytes version s lo h pos =
    rw (from_one version lo)
      (payload-length eight bytes version _ s h pos (length-bytes_bits bytes))
length-segment kanji bytes version s lo h pos =
    rw (from_one version lo)
      (payload-length kanji bytes version _ s h pos (length-kanji_payload bytes))
length-segment nul bytes version s lo h pos = cc
length-segment _ bytes version s lo h pos = cc

-- In a QR Code symbol of a version from 1 on, an entry of one of the four modes of data that is not
-- empty and that its header can count takes exactly the number of bits that
-- `QRinput_estimateBitStreamSizeOfEntry` gives for it.
pub encode_bit_stream-estimate :
    (e : Entry) (b : BitStream) (version : ℕ)
    → is_splittable_mode e.mode ≡ true
    → 1 ≤ version
    → length e.bytes ≤ QrSpec.maximum_words e.mode version
    → 0 < count e.mode e.bytes
    → IsValid b
    → (c : BitStream) × (encode_bit_stream e b version false ≡ some c)
      × (c.used ≡ b.used + estimate_bit_stream_size_of_entry e version false)
encode_bit_stream-estimate e b version s lo h pos v =
    let (c, eq, app) = encode_bit_stream-segment e b version s h v in
    (
      c,
      eq,
      used-Appended b c (segment version e) v app
          ∙ ap (λ n. b.used + n) (length-segment e.mode e.bytes version s lo h pos),
    )
