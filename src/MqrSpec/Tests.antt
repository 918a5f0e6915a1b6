-- ===== src/MqrSpec/Tests.antt =====
-- mqrspec.c: the theorems at concrete inputs.
use libqrencode.Prelude.{◌+◌, ◌-◌, ◌*◌, ◌%◌, ◌≡◌, ◌≢◌, ◌==◌, if◌then◌else◌, arith}
use libqrencode.Api.{level_l, level_m}
use libqrencode.MqrSpec.{
  get_ecc_length, get_data_length_bit, get_data_length, get_width, get_format_info, symbol_type,
}
use libqrencode.MqrSpec.Consistency.{
  get_data_length_bit_area, get_format_info-expected_word, expected_word,
}

get_data_length_bit_area_example :
    (get_ecc_length 3 level_m ≡ 0 → get_data_length_bit 3 level_m ≡ 0)
    × (get_ecc_length 3 level_m ≢ 0
        → (get_width 3 ≡ 9 + 2 * 3)
          × ((get_width 3 - 1) * (get_width 3 - 1)
              ≡ 64 + get_data_length_bit 3 level_m + 8 * get_ecc_length 3 level_m)
          × (get_data_length 3 level_m * 8
              ≡ get_data_length_bit 3 level_m + (if 3 % 2 == 1 then 4 else 0)))
get_data_length_bit_area_example = get_data_length_bit_area 3 level_m (omega arith)

get_format_info-expected_word_example :
    get_format_info 1 2 level_l ≡ expected_word 1 (symbol_type 2 level_l)
get_format_info-expected_word_example =
    get_format_info-expected_word 1 2 level_l (omega arith) (omega arith)
