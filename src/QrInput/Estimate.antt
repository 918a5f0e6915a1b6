-- ===== src/QrInput/Estimate.antt =====
-- qrinput.c, estimation of the bit length: `QRinput_estimateBits...`,
-- `QRinput_estimateBitStreamSize...`, `QRinput_estimateVersion` and `QRinput_lengthOfCode`.
use libqrencode.Prelude.{
  ℕ, zero, suc, ◌+◌, ◌-◌, ◌*◌, ◌/◌, ◌^◌, bit_and, Bool, true, false, ◌&&◌, List, [], ◌∷◌, Option,
  none, some, length, ltb, leb, ◌==◌, if◌then◌else◌,
}
use libqrencode.Api.{
  Mode, nul, num, an, eight, kanji, structure, eci, fnc1_first, fnc1_second, mode_indicator_size,
  structure_header_size,
}
use libqrencode.QrSpec
use libqrencode.MqrSpec
use libqrencode.QrSpec.{is_kanji}
use libqrencode.QrInput.Entry.{Entry, QrInput}
use libqrencode.QrInput.Encode.{decode_eci_from_byte_array}

unfoldable pub estimate_bits_mode_num : ℕ → ℕ
estimate_bits_mode_num size =
    let w = size / 3 in
    let odd = size - w * 3 in w * 10 + (if odd == 1 then 4 else if odd == 2 then 7 else 0)

unfoldable pub estimate_bits_mode_an : ℕ → ℕ
estimate_bits_mode_an size = size / 2 * 11 + (if bit_and size 1 == 0 then 0 else 6)

unfoldable pub estimate_bits_mode_8 : ℕ → ℕ
estimate_bits_mode_8 size = size * 8

unfoldable pub estimate_bits_mode_kanji : ℕ → ℕ
estimate_bits_mode_kanji size = size / 2 * 13

unfoldable pub estimate_bits_mode_eci : List ℕ → ℕ
estimate_bits_mode_eci bytes =
    let ecinum = decode_eci_from_byte_array bytes in
    mode_indicator_size + (if ltb ecinum 128 then 8 else if ltb ecinum 16384 then 16 else 24)

-- The last part of `QRinput_estimateBitStreamSizeOfEntry`, which adds the headers to the payload.
unfoldable pub add_headers : Mode → ℕ → ℕ → ℕ → Bool → ℕ
add_headers mode size bits version true =
    bits + (MqrSpec.length_indicator mode version + (version - 1))
add_headers mode size bits version false =
    let l = QrSpec.length_indicator mode version in
    let m = 2 ^ l in
    let count = if is_kanji mode then size / 2 else size in
    bits + (count + m - 1) / m * (mode_indicator_size + l)

unfoldable pub estimate_bit_stream_size_of_entry : Entry → ℕ → Bool → ℕ
unfolding add_headers estimate_bits_mode_num estimate_bits_mode_an estimate_bits_mode_8
    estimate_bits_mode_kanji estimate_bits_mode_eci
estimate_bit_stream_size_of_entry e version mqr =
    let v = if version == 0 then 1 else version in
    let size = length e.bytes in
    elim e.mode [
      | num ↦ add_headers num size (estimate_bits_mode_num size) v mqr
      | an ↦ add_headers an size (estimate_bits_mode_an size) v mqr
      | eight ↦ add_headers eight size (estimate_bits_mode_8 size) v mqr
      | kanji ↦ add_headers kanji size (estimate_bits_mode_kanji size) v mqr
      | structure ↦ structure_header_size
      | eci ↦ add_headers eci size (estimate_bits_mode_eci e.bytes) v mqr
      | fnc1_first ↦ mode_indicator_size
      | fnc1_second ↦ mode_indicator_size + 8
      | nul ↦ 0
    ]

-- The loop over the entries.
unfoldable pub estimate_entries : List Entry → ℕ → Bool → ℕ
estimate_entries [] version mqr = 0
estimate_entries (e ∷ es) version mqr =
    estimate_bit_stream_size_of_entry e version mqr + estimate_entries es version mqr

unfoldable pub estimate_bit_stream_size : QrInput → ℕ → ℕ
unfolding estimate_entries
estimate_bit_stream_size input version = estimate_entries input.entries version input.mqr

-- One round of the loop, from the version `prev`.
unfoldable pub estimate_step : QrInput → ℕ → ℕ
unfolding estimate_bit_stream_size
estimate_step input prev =
    let version =
      QrSpec.get_minimum_version ((estimate_bit_stream_size input prev + 7) / 8) input.level in
    if prev == 0 && ltb 1 version then version - 1 else version

-- `none` if the fuel runs out. The version grows with each round that is not the last, and is 40 at
-- most.
unfoldable pub estimate_loop : ℕ → QrInput → ℕ → Option ℕ
estimate_loop zero input prev = none
estimate_loop (suc fuel) input prev =
    let version = estimate_step input prev in
    let rest = estimate_loop fuel input version in if ltb prev version then rest else some version

unfoldable pub estimate_version : QrInput → Option ℕ
unfolding estimate_loop estimate_step
estimate_version input = estimate_loop 41 input 0

-- `bits` less the header, which is negative where the header does not fit; then the size is
-- negative or 0, and is made 0.
unfoldable pub code_size : Mode → ℕ → ℕ
code_size mode payload = elim mode [
  | num ↦
      let remain = payload - payload / 10 * 10 in
      payload / 10 * 3 + (if leb 7 remain then 2 else if leb 4 remain then 1 else 0)
  | an ↦
      let remain = payload - payload / 11 * 11 in payload / 11 * 2 + (if leb 6 remain then 1 else 0)
  | eight ↦ payload / 8
  | kanji ↦ payload / 13 * 2
  | structure ↦ payload / 8
  | _ ↦ 0
]

unfoldable pub length_of_code : Mode → ℕ → ℕ → ℕ
unfolding code_size
length_of_code mode version bits =
    let head = 4 + QrSpec.length_indicator mode version in
    let size = if ltb bits head then 0 else code_size mode (bits - head) in
    let maxsize = QrSpec.maximum_words mode version in
    if ltb 0 maxsize && ltb maxsize size then maxsize else size
