-- ===== src/QrInput/Encode.antt =====
-- qrinput.c, conversion of an entry to bits: `QRinput_encodeMode...` and
-- `QRinput_encodeBitStream`. `none` stands for the return value -1; the bits that a failing call
-- has already written are dropped with the stream, as every caller does. The value returned on
-- success, the number of bits added, is the difference of the sizes of the two streams.
use libqrencode.Prelude.{
  ℕ, zero, suc, ◌+◌, ◌-◌, ◌*◌, ◌/◌, ◌%◌, ◌^◌, bit_and, bit_or, Bool, true, false, ◌&&◌, not, List,
  [], ◌∷◌, Option, none, some, ◌>>=◌, length, get_or, take, drop, ltb, leb, ◌==◌, if◌then◌else◌,
}
use libqrencode.Api.{Mode, nul, num, an, eight, kanji, structure, eci, fnc1_first, fnc1_second}
use libqrencode.BitStream.{BitStream, append_num, append_bytes}
use libqrencode.QrSpec
use libqrencode.MqrSpec
use libqrencode.QrInput.Entry.{Entry, look_an_table, word_of, new_entry}

-- The values of `modeid` of qrspec.h and mqrspec.h.
abbrev pub modeid : Mode → ℕ
modeid nul = 0
modeid num = 1
modeid an = 2
modeid eight = 4
modeid kanji = 8
modeid structure = 3
modeid eci = 7
modeid fnc1_first = 5
modeid fnc1_second = 9

abbrev pub mqr_modeid : Mode → ℕ
mqr_modeid num = 0
mqr_modeid an = 1
mqr_modeid eight = 2
mqr_modeid kanji = 3
mqr_modeid _ = 0

-- The first version of Micro QR Code that has the mode.
abbrev pub mqr_first_version : Mode → ℕ
mqr_first_version num = 1
mqr_first_version eight = 3
mqr_first_version _ = 2

-- The head of the four encoders of data: the mode indicator and the count of characters. Numeric
-- mode has no lower bound on the version, and writes no indicator in version 1; the others fail.
unfoldable pub append_header : Mode → BitStream → ℕ → ℕ → Bool → Option BitStream
append_header mode b size version false =
    some (append_num (append_num b 4 (modeid mode)) (QrSpec.length_indicator mode version) size)
append_header mode b size version true =
    if ltb version (mqr_first_version mode)
    then none
    else some (
        append_num (if ltb 1 version then append_num b (version - 1) (mqr_modeid mode) else b)
          (MqrSpec.length_indicator mode version) size)

-- The digit of a character; the entry was checked, so the character is not below '0'.
abbrev pub digit : ℕ → ℕ
digit c = c - b'0'

unfoldable pub append_num_words : BitStream → List ℕ → BitStream
append_num_words b [] = b
append_num_words b (x ∷ []) = append_num b 4 (digit x)
append_num_words b (x ∷ y ∷ []) = append_num b 7 (digit x * 10 + digit y)
append_num_words b (x ∷ y ∷ z ∷ rest) =
    append_num_words (append_num b 10 (digit x * 100 + digit y * 10 + digit z)) rest

-- `(unsigned int)QRinput_lookAnTable(c)`
abbrev pub an_value : ℕ → ℕ
an_value c = elim (look_an_table c) [ none ↦ 2 ^ 32 - 1 | some v ↦ v ]

unfoldable pub append_an_words : BitStream → List ℕ → BitStream
append_an_words b [] = b
append_an_words b (x ∷ []) = append_num b 6 (an_value x)
append_an_words b (x ∷ y ∷ rest) =
    append_an_words (append_num b 11 ((an_value x * 45 + an_value y) % 2 ^ 32)) rest

-- The value of two bytes that passed the check.
abbrev pub kanji_value : ℕ → ℕ → ℕ
kanji_value x y =
    let val = word_of x y in
    let low = if leb val 0x9ffc then val - 0x8140 else val - 0xc140 in
    bit_and low 0xff + low / 2 ^ 8 * 0xc0

-- A checked entry has an even number of bytes.
unfoldable pub append_kanji_words : BitStream → List ℕ → BitStream
append_kanji_words b (x ∷ y ∷ rest) = append_kanji_words (append_num b 13 (kanji_value x y)) rest
append_kanji_words b _ = b

unfoldable pub encode_mode_num : List ℕ → BitStream → ℕ → Bool → Option BitStream
unfolding append_header append_num_words
encode_mode_num bytes b version mqr = do
  b' ← append_header num b (length bytes) version mqr
  some (append_num_words b' bytes)

unfoldable pub encode_mode_an : List ℕ → BitStream → ℕ → Bool → Option BitStream
unfolding append_header append_an_words
encode_mode_an bytes b version mqr = do
  b' ← append_header an b (length bytes) version mqr
  some (append_an_words b' bytes)

unfoldable pub encode_mode_8 : List ℕ → BitStream → ℕ → Bool → Option BitStream
unfolding append_header
encode_mode_8 bytes b version mqr = do
  b' ← append_header eight b (length bytes) version mqr
  some (append_bytes b' bytes)

unfoldable pub encode_mode_kanji : List ℕ → BitStream → ℕ → Bool → Option BitStream
unfolding append_header append_kanji_words
encode_mode_kanji bytes b version mqr = do
  b' ← append_header kanji b (length bytes / 2) version mqr
  some (append_kanji_words b' bytes)

-- `data[i] - 1U`
abbrev pub less_one : ℕ → ℕ
less_one x = (x + 2 ^ 32 - 1) % 2 ^ 32

unfoldable pub encode_mode_structure : List ℕ → BitStream → Bool → Option BitStream
encode_mode_structure bytes b true = none
encode_mode_structure bytes b false = some (
    append_num
      (append_num (append_num (append_num b 4 (modeid structure)) 4 (less_one (get_or bytes 1 0))) 4
        (less_one (get_or bytes 0 0)))
      8 (get_or bytes 2 0))

-- `QRinput_appendBytes` of one byte.
unfoldable pub encode_mode_fnc1_second : List ℕ → BitStream → Option BitStream
encode_mode_fnc1_second bytes b =
    some (append_bytes (append_num b 4 (modeid fnc1_second)) (take 1 bytes))

-- The loop over the four bytes, from the last.
unfoldable pub decode_eci_loop : ℕ → ℕ → List ℕ → ℕ
decode_eci_loop zero ecinum bytes = ecinum
decode_eci_loop (suc n) ecinum bytes =
    decode_eci_loop n (bit_or (ecinum * 2 ^ 8 % 2 ^ 32) (get_or bytes n 0)) bytes

unfoldable pub decode_eci_from_byte_array : List ℕ → ℕ
unfolding decode_eci_loop
decode_eci_from_byte_array bytes = decode_eci_loop 4 0 bytes

-- The number of bytes and their value.
abbrev pub eci_code : ℕ → ℕ × ℕ
eci_code ecinum =
    if ltb ecinum 128
    then (1, ecinum)
    else if ltb ecinum 16384
    then (2, 0x8000 + ecinum)
    else (3, 0xc0000 + ecinum)

unfoldable pub encode_mode_eci : List ℕ → BitStream → Option BitStream
unfolding decode_eci_from_byte_array
encode_mode_eci bytes b =
    let (words, code) = eci_code (decode_eci_from_byte_array bytes) in
    some (append_num (append_num b 4 (modeid eci)) (words * 8) code)

-- The `switch` of `QRinput_encodeBitStream`: a mode without a case adds nothing.
unfoldable pub encode_by_mode : Entry → BitStream → ℕ → Bool → Option BitStream
encode_by_mode e b version mqr = elim e.mode [
  | num ↦ encode_mode_num e.bytes b version mqr
  | an ↦ encode_mode_an e.bytes b version mqr
  | eight ↦ encode_mode_8 e.bytes b version mqr
  | kanji ↦ encode_mode_kanji e.bytes b version mqr
  | structure ↦ encode_mode_structure e.bytes b mqr
  | eci ↦ encode_mode_eci e.bytes b
  | fnc1_second ↦ encode_mode_fnc1_second e.bytes b
  | _ ↦ some b
]

abbrev pub maximum_words : Mode → ℕ → Bool → ℕ
maximum_words mode version true = MqrSpec.maximum_words mode version
maximum_words mode version false = QrSpec.maximum_words mode version

-- An entry above the largest count is cut in two, and both parts are encoded. The first part is
-- never cut again and the second is shorter than the whole, so the length of the entry serves as
-- fuel; at fuel 0 the entry is taken as it is.
unfoldable pub encode_fuel : ℕ → Entry → BitStream → ℕ → Bool → Option BitStream
encode_fuel zero e b version mqr = encode_by_mode e b version mqr
encode_fuel (suc fuel) e b version mqr =
    let words = maximum_words e.mode version mqr in
    let whole = encode_by_mode e b version mqr in
    let cut = (do
      st1 ← new_entry e.mode (take words e.bytes)
      st2 ← new_entry e.mode (drop words e.bytes)
      b' ← encode_fuel fuel st1 b version mqr
      encode_fuel fuel st2 b' version mqr) in
    if not (words == 0) && ltb words (length e.bytes) then cut else whole

unfoldable pub encode_bit_stream : Entry → BitStream → ℕ → Bool → Option BitStream
unfolding encode_fuel
encode_bit_stream e b version mqr = encode_fuel (length e.bytes) e b version mqr
