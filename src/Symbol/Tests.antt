-- ===== src/Symbol/Tests.antt =====
-- Runs of qrencode.c, and its theorems at concrete inputs.
use mathlib.Core.Option.{map}
use libqrencode.Prelude.{
  ℕ, ◌%◌, ◌<◌, ◌≡◌, ◌≢◌, refl, Bool, true, false, List, [], ◌∷◌, Option, none, some, length, arith,
}
use libqrencode.Api.{num, eight, level_l, level_h}
use libqrencode.QrInput.Entry.{Entry, QrInput}
use libqrencode.QrInput.Stream.{get_byte_stream}
use libqrencode.QrInput.Edit.{calc_parity}
use libqrencode.QrInput.Struct.{InputStruct}
use libqrencode.QrInput.Struct.Split.Kept.{content}
use libqrencode.QrInput.Struct.Headers.{IsSplit}
use libqrencode.QrInput.Estimate.{
  estimate_version, estimate_bit_stream_size_of_entry, length_of_code,
}
use libqrencode.QrInput.Encode.{
  encode_bit_stream, encode_by_mode, encode_mode_num, encode_mode_8, encode_mode_structure,
}
use libqrencode.QrSpec
use libqrencode.QrSpec.Frame as QrFrame
use libqrencode.MqrSpec
use libqrencode.BitStream.{
  append, append_num, append_bytes, to_byte, write_num, write_bytes, write_loop, make_room, expand,
  copy_at, read_bits, read_bytes,
}
use libqrencode.Raw
use libqrencode.Raw.{RawCode, MqrRawCode}
use libqrencode.Filler.Path.{read_path}
use libqrencode.Symbol.{
  QrCode, MaskArgument, unmasked, encode_mask, encode_mask_mqr, masked_symbol, encode_input,
}
use libqrencode.Symbol.Content.{symbol_modules, filler_of}
use libqrencode.Symbol.Made.{encode_mask-made, symbol_of}
use libqrencode.Symbol.MqrContent.{mqr_symbol_modules}
use libqrencode.Symbol.MqrWritten.{encode_mask_mqr-read, mqr_filler_of}
use libqrencode.Symbol.Structured.{
  encode_input_to_structured, encode_input_to_structured-AreMade, AreMade,
}

abbrev digits_entry : Entry
digits_entry = record { mode = num; bytes = b'4' ∷ b'7' ∷ [] }

abbrev digits_input : Bool → ℕ → QrInput
digits_input mqr version = record {
  version = version;
  level = level_l;
  entries = digits_entry ∷ [];
  tail = 1;
  mqr = mqr;
  fnc1 = 0;
  appid = 0;
}

abbrev digits_result : QrInput × List ℕ
digits_result = elim (get_byte_stream (digits_input false 1)) [
  | none ↦ (digits_input false 1, [])
  | some result ↦ result
]

digits_result_lem : get_byte_stream (digits_input false 1) ≡ some digits_result
unfolding get_byte_stream append append_num append_bytes to_byte write_num write_bytes write_loop
    make_room expand copy_at read_bits read_bytes estimate_version QrSpec.get_minimum_version
    estimate_bit_stream_size_of_entry QrSpec.length_indicator QrSpec.get_data_length
    encode_bit_stream QrSpec.maximum_words encode_by_mode encode_mode_num
digits_result_lem = refl

digits_version : digits_result.0.version ≡ 1
unfolding get_byte_stream append append_num append_bytes to_byte write_num write_bytes write_loop
    make_room expand copy_at read_bits read_bytes estimate_version QrSpec.get_minimum_version
    estimate_bit_stream_size_of_entry QrSpec.length_indicator QrSpec.get_data_length
    encode_bit_stream QrSpec.maximum_words encode_by_mode encode_mode_num
digits_version = refl

abbrev digits_bytes : QrInput × List ℕ
digits_bytes = elim (get_byte_stream (digits_input true 1)) [
  | none ↦ (digits_input true 1, [])
  | some result ↦ result
]

digits_bytes_lem : get_byte_stream (digits_input true 1) ≡ some digits_bytes
unfolding get_byte_stream append append_num append_bytes to_byte write_num write_bytes write_loop
    make_room expand copy_at read_bits read_bytes encode_bit_stream MqrSpec.maximum_words
    encode_by_mode encode_mode_num MqrSpec.get_data_length_bit MqrSpec.length_indicator
digits_bytes_lem = refl

encode_mask-made_example :
    (raw : RawCode) × (frame : List ℕ) × (Raw.new (digits_input false 1) ≡ some raw)
    × (raw.version ≡ digits_result.0.version)
    × (read_path frame (length (symbol_modules raw)) (filler_of raw.version)
        ≡ some (symbol_modules raw))
    × ((mask : MaskArgument)
        → encode_mask (digits_input false 1) mask
          ≡ map (symbol_of raw) (masked_symbol (QrSpec.get_width raw.version) frame level_l mask))
encode_mask-made_example =
    encode_mask-made (digits_input false 1) digits_result refl (omega arith) digits_result_lem
      (omega (arith, digits_version)) (omega (arith, digits_version))

encode_mask_mqr-read_example :
    (raw : MqrRawCode) × (code : QrCode) × (Raw.mqr_new (digits_input true 1) ≡ some raw)
    × (encode_mask_mqr (digits_input true 1) unmasked ≡ some code)
    × (code.version ≡ 1)
    × (code.width ≡ MqrSpec.get_width 1)
    × (read_path code.modules (length (mqr_symbol_modules raw)) (mqr_filler_of 1)
        ≡ some (mqr_symbol_modules raw))
    × ((m : ℕ)
        → m < 4
        → (masked : QrCode) × (encode_mask_mqr (digits_input true 1) (MaskArgument.number m)
            ≡ some masked))
encode_mask_mqr-read_example =
    encode_mask_mqr-read (digits_input true 1) digits_bytes refl (omega arith) (omega arith)
      has_level digits_bytes_lem
  where
    has_level : MqrSpec.get_ecc_length 1 level_l ≢ 0
    has_level = unfold MqrSpec.get_ecc_length in (λ e. omega arith)

abbrev letters_input : QrInput
letters_input = record {
  version = 1;
  level = level_h;
  entries = record { mode = eight; bytes = b'A' ∷ b'B' ∷ b'C' ∷ b'D' ∷ b'E' ∷ b'F' ∷ [] } ∷ [];
  tail = 1;
  mqr = false;
  fnc1 = 0;
  appid = 0;
}

abbrev codes_or : Option (List QrCode) → List QrCode
codes_or none = []
codes_or (some codes) = codes

abbrev letters_codes : List QrCode
letters_codes = codes_or (encode_input_to_structured letters_input)

letters_codes_lem : encode_input_to_structured letters_input ≡ some letters_codes
unfolding encode_input_to_structured encode_input Raw.new get_byte_stream append append_num
    append_bytes to_byte write_num write_bytes write_loop make_room expand copy_at read_bits
    read_bytes estimate_version QrSpec.get_minimum_version estimate_bit_stream_size_of_entry
    QrSpec.length_indicator QrSpec.get_data_length encode_bit_stream QrSpec.maximum_words
    encode_by_mode encode_mode_8 encode_mode_structure length_of_code QrFrame.new_frame
    QrSpec.get_ecc_spec QrSpec.get_width QrSpec.get_remainder
letters_codes_lem = refl

encode_input_to_structured-AreMade_example :
    (s : InputStruct) × IsSplit (content letters_input.entries) (calc_parity letters_input % 256) s
    × AreMade s.inputs letters_codes
encode_input_to_structured-AreMade_example =
    encode_input_to_structured-AreMade letters_input letters_codes letters_codes_lem
