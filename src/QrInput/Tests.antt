-- ===== src/QrInput/Tests.antt =====
-- qrinput.c: runs at concrete inputs, and the theorems at concrete inputs.
use libqrencode.Prelude.{
  ◌+◌, ◌*◌, ◌≤◌, ◌<◌, false, [], ◌∷◌, ◌++◌, none, some, ◌≡◌, ◌≢◌, refl, take, drop, length, ◌/◌, ℕ,
  ◌⊎◌, List, All, true, replicate, arith,
}
use libqrencode.Api.{eight, num, kanji, level_q}
use libqrencode.BitStream.{BitStream, new}
use libqrencode.BitStream.Laws.{bits, IsValid, new-IsValid, Appended}
use libqrencode.QrSpec
use libqrencode.QrInput.Entry.{Entry, QrInput, check, check_by_mode, check_mode_num}
use libqrencode.QrInput.Encode.{encode_bit_stream}
use libqrencode.QrInput.Estimate.{
  estimate_bit_stream_size_of_entry, estimate_bit_stream_size, estimate_version,
}
use libqrencode.QrInput.Segment.{
  segment, count, encode_bit_stream-segment, encode_bit_stream-estimate,
}
use libqrencode.QrInput.RoundTrip.{IsReadable, read_segment, encode_bit_stream-read}
use libqrencode.QrInput.Stream.{append_padding_bit, convert_data, get_byte_stream, merge_bit_stream}
use libqrencode.QrInput.Version.{estimate_version_lem, Rises}
use libqrencode.QrInput.Convert.{IsSegment, segments, with_version, convert_data_lem}
use libqrencode.QrInput.Parts.{contents, IsPart, encode_bit_stream-segments}
use libqrencode.QrInput.Bytes.{get_byte_stream_lem}
use libqrencode.QrInput.Edit.{new2, append, set_fnc1_first}
use libqrencode.QrInput.Reach
use libqrencode.QrInput.Reach.{Reachable, Call, Reachable-IsValid}
use libqrencode.QrInput.Fnc1.{set_fnc1_first-encode_input}
use libqrencode.Symbol.{MaskArgument, encode_mask, encode_input}
use libqrencode.BitStream.Num.{bytes_bits}
use libqrencode.QrInput.Padding.{padding, append_padding_bit_lem}

-- The digits 01234.
abbrev digits : Entry
digits = record { mode = num; bytes = 48 ∷ 49 ∷ 50 ∷ 51 ∷ 52 ∷ [] }

abbrev no_data : QrInput
no_data = record {
  version = 1;
  level = level_q;
  entries = [];
  tail = 0;
  mqr = false;
  fnc1 = 0;
  appid = 0;
}

digits-IsReadable : IsReadable digits
digits-IsReadable = record {
  checked = unfold check check_by_mode check_mode_num in refl;
  bytes = (omega arith, (omega arith, (omega arith, (omega arith, (omega arith, tt)))));
  characters = λ e. absurd (num_ne_kanji e);
}
  where
    num_ne_kanji : num ≢ kanji
    num_ne_kanji e = cc

encode_bit_stream-read_example :
    (c : BitStream) × (encode_bit_stream digits new 1 false ≡ some c)
    × (take 0 (bits c) ≡ bits new)
    × (read_segment 1 (drop 0 (bits c)) ≡ some (num, digits.bytes, []))
encode_bit_stream-read_example =
    encode_bit_stream-read digits new 1 refl (unfold QrSpec.maximum_words in omega arith)
      digits-IsReadable new-IsValid

encode_bit_stream-segment_example :
    (c : BitStream) × (encode_bit_stream digits new 1 false ≡ some c)
    × Appended new (segment 1 digits) c
encode_bit_stream-segment_example =
    encode_bit_stream-segment digits new 1 refl (unfold QrSpec.maximum_words in omega arith)
      new-IsValid

encode_bit_stream-estimate_example :
    (c : BitStream) × (encode_bit_stream digits new 1 false ≡ some c)
    × (c.used ≡ 0 + estimate_bit_stream_size_of_entry digits 1 false)
encode_bit_stream-estimate_example =
    encode_bit_stream-estimate digits new 1 refl (omega arith)
      (unfold QrSpec.maximum_words in omega arith) (unfold count in omega arith) new-IsValid

append_padding_bit_lem_example :
    (QrSpec.get_data_length 1 level_q * 8 < 0 → append_padding_bit new no_data ≡ none)
    × (0 ≤ QrSpec.get_data_length 1 level_q * 8
        → (c : BitStream) × (append_padding_bit new no_data ≡ some c)
          × IsValid c
          × (bits c ≡ bits new ++ padding (QrSpec.get_data_length 1 level_q) 0)
          × (c.used ≡ QrSpec.get_data_length 1 level_q * 8))
append_padding_bit_lem_example = append_padding_bit_lem new no_data new-IsValid

-- Version 0, level Q, the digits 01234.
abbrev some_digits : QrInput
some_digits = record {
  version = 0;
  level = level_q;
  entries = digits ∷ [];
  tail = 1;
  mqr = false;
  fnc1 = 0;
  appid = 0;
}

digits-IsSegment : IsSegment digits
digits-IsSegment = record { data_mode = refl; counted = unfold QrSpec.maximum_words in omega arith }

estimate_version_lem_example :
    (v : ℕ) × (estimate_version some_digits ≡ some v)
    × (1 ≤ v)
    × (v ≤ 40)
    × ((w : ℕ) × (v ≤ w)
        × (v
            ≡ QrSpec.get_minimum_version ((estimate_bit_stream_size some_digits w + 7) / 8) level_q)
        × (1 ≤ w)
        × (w ≤ 40)
        × Rises some_digits w)
estimate_version_lem_example = estimate_version_lem some_digits

convert_data_lem_example :
    (v : ℕ) × (c : BitStream) × (convert_data some_digits new
      ≡ some (with_version some_digits v, c))
    × (1 ≤ v)
    × (0 ≤ v)
    × (v ≤ 40)
    × IsValid c
    × (bits c ≡ segments v (digits ∷ []))
    × (QrSpec.get_minimum_version ((c.used + 7) / 8) level_q ≤ v)
    × (QrSpec.get_data_length 40 level_q < (c.used + 7) / 8 → v ≡ 40)
convert_data_lem_example =
    convert_data_lem some_digits new refl (omega arith) (digits-IsSegment, tt) new-IsValid

get_byte_stream_lem_example :
    (v : ℕ) × (1 ≤ v)
    × (0 ≤ v)
    × (v ≤ 40)
    × ((length (segments v (digits ∷ [])) ≤ QrSpec.get_data_length v level_q * 8)
          × ((bytes : List ℕ) × (get_byte_stream some_digits
                ≡ some (with_version some_digits v, bytes))
              × (length bytes ≡ QrSpec.get_data_length v level_q)
              × (bytes_bits bytes
                  ≡ segments v (digits ∷ [])
                    ++ padding
                        (QrSpec.get_data_length v level_q)
                        (length (segments v (digits ∷ [])))))
        ⊎ (QrSpec.get_data_length 40 level_q * 8 < length (segments v (digits ∷ [])))
          × (get_byte_stream some_digits ≡ none))
get_byte_stream_lem_example =
    get_byte_stream_lem some_digits refl refl (omega arith) (digits-IsSegment, tt)

-- 300 letters, more than the 255 that one header of version 1 counts.
abbrev long_text : Entry
long_text = record { mode = eight; bytes = replicate 300 b'a' }

long_text-checked : check eight long_text.bytes ≡ true
unfolding check check_by_mode
long_text-checked = refl

encode_bit_stream-segments_example :
    (parts : List Entry) × (c : BitStream) × (encode_bit_stream long_text new 1 false ≡ some c)
    × (contents parts ≡ long_text.bytes)
    × All (IsPart eight 1) parts
    × Appended new (segments 1 parts) c
encode_bit_stream-segments_example =
    encode_bit_stream-segments long_text new 1 refl long_text-checked new-IsValid

set_fnc1_first-encode_input_example :
    (set_fnc1_first some_digits ≡ some (record some_digits { fnc1 = 1 }))
    × ((b : BitStream) → merge_bit_stream (record some_digits { fnc1 = 1 }) b ≡ none)
    × (get_byte_stream (record some_digits { fnc1 = 1 }) ≡ none)
    × ((mask : MaskArgument) → encode_mask (record some_digits { fnc1 = 1 }) mask ≡ none)
    × (encode_input (record some_digits { fnc1 = 1 }) ≡ none)
set_fnc1_first-encode_input_example = set_fnc1_first-encode_input some_digits refl

-- An input to which the digits have been appended.
abbrev one_entry : QrInput
one_entry = record no_data { entries = digits ∷ []; tail = 1 }

one_entry-Reachable : Reachable one_entry
one_entry-Reachable =
    Reachable.changed no_data one_entry (Reachable.created no_data 1 level_q (unfold new2 in refl))
      (Call.appended no_data one_entry num digits.bytes
        (unfold append check check_by_mode check_mode_num in refl))

Reachable-IsValid_example : Reach.IsValid one_entry
Reachable-IsValid_example = Reachable-IsValid one_entry-Reachable
