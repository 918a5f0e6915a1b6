-- ===== src/QrInput/Struct/Tests.antt =====
-- A run of the splitting of an input, and its theorem there.
use libqrencode.Prelude.{length, ◌%◌, ◌≡◌, refl, false, [], ◌∷◌, Option, none, some, arith}
use libqrencode.Api.{eight, level_h}
use libqrencode.QrInput.Estimate.{estimate_bit_stream_size_of_entry, length_of_code}
use libqrencode.QrInput.Encode.{encode_by_mode, encode_mode_8}
use libqrencode.QrSpec
use libqrencode.BitStream.{
  append_num, append_bytes, write_num, write_bytes, write_loop, make_room, expand, copy_at,
}
use libqrencode.QrInput.Entry.{Entry, QrInput}
use libqrencode.QrInput.Edit.{calc_parity}
use libqrencode.QrInput.Struct.{InputStruct}
use libqrencode.QrInput.Struct.Split.{split_qrinput_to_struct, split_loop, rounds, start_state}
use libqrencode.QrInput.Struct.Split.Ending.{
  SplitRun, part_bits, IsShortEci, split_loop-start_state,
}
use libqrencode.QrInput.Struct.Split.Kept.{content}
use libqrencode.QrInput.Struct.Headers.{IsSplit, split_qrinput_to_struct-IsSplit}

abbrev letters_entry : Entry
letters_entry = record {
  mode = eight;
  bytes = b'A' ∷ b'B' ∷ b'C' ∷ b'D' ∷ b'E' ∷ b'F' ∷ b'G' ∷ b'H' ∷ [];
}

abbrev letters_input : QrInput
letters_input = record {
  version = 1;
  level = level_h;
  entries = letters_entry ∷ [];
  tail = 1;
  mqr = false;
  fnc1 = 0;
  appid = 0;
}

abbrev struct_or : Option InputStruct → InputStruct
struct_or none = record { size = 0; parity = none; inputs = [] }
struct_or (some s) = s

abbrev letters_struct : InputStruct
letters_struct = struct_or (split_qrinput_to_struct letters_input)

letters_struct_lem : split_qrinput_to_struct letters_input ≡ some letters_struct
unfolding split_qrinput_to_struct QrSpec.get_data_length estimate_bit_stream_size_of_entry
    QrSpec.length_indicator length_of_code QrSpec.maximum_words encode_by_mode encode_mode_8
letters_struct_lem = refl

split_qrinput_to_struct-IsSplit_example :
    IsSplit (content (letters_entry ∷ [])) (calc_parity letters_input % 256) letters_struct
split_qrinput_to_struct-IsSplit_example =
    split_qrinput_to_struct-IsSplit letters_input letters_struct letters_struct_lem

split_loop-start_state_example :
    SplitRun (part_bits letters_input) (start_state letters_input) (
      split_loop
        (rounds (letters_entry ∷ []))
        (part_bits letters_input)
        (start_state letters_input))
split_loop-start_state_example =
    split_loop-start_state letters_input refl (omega arith) (omega arith) (no_eci, tt)
  where
    no_eci : IsShortEci letters_entry
    no_eci e = cc

-- A further entry behind the letters: the letters are cut in two, and it goes to the last part.
abbrev two_entries : QrInput
two_entries = record letters_input {
  entries = letters_entry ∷ record { mode = eight; bytes = b'I' ∷ [] } ∷ [];
  tail = 2;
}

abbrev looped_or : Option (QrInput × InputStruct) → QrInput × InputStruct
looped_or none = (letters_input, struct_or none)
looped_or (some result) = result

abbrev two_looped : QrInput × InputStruct
two_looped = looped_or (split_loop (rounds two_entries.entries) 52 (start_state two_entries))

-- The tail of the last part is its last entry.
two_looped_tail : (two_looped.0.tail ≡ 1) × (length two_looped.0.entries ≡ 1)
unfolding split_loop rounds start_state estimate_bit_stream_size_of_entry QrSpec.length_indicator
    length_of_code QrSpec.maximum_words encode_by_mode encode_mode_8 append_num append_bytes
    write_num write_bytes write_loop make_room expand copy_at
two_looped_tail = (refl, refl)
