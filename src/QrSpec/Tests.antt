-- ===== src/QrSpec/Tests.antt =====
-- qrspec.c: the theorems at concrete inputs.
use libqrencode.Prelude.{ℕ, ◌+◌, ◌*◌, ◌≤◌, ◌<◌, ◌≡◌, ◌⊎◌, inl, arith}
use libqrencode.Api.{level_l, level_m}
use libqrencode.QrSpec.{
  get_ecc_spec, rs_data_length, rs_ecc_length, get_data_length, get_ecc_length, get_width,
  get_remainder, get_minimum_version, get_format_info, get_version_pattern,
}
use libqrencode.QrSpec.Consistency.{
  get_ecc_spec_cover, get_width_area, get_minimum_version_lem, function_modules,
}
use libqrencode.QrSpec.Codes.{
  get_format_info_code, get_format_info-distance, get_version_pattern_code, format_word, code_word,
  distance,
}

get_ecc_spec_cover_example :
    (rs_data_length (get_ecc_spec 5 level_m) ≡ get_data_length 5 level_m)
    × (rs_ecc_length (get_ecc_spec 5 level_m) ≡ get_ecc_length 5 level_m)
    × (2 ≤ (get_ecc_spec 5 level_m).ecc_codes)
    × ((get_ecc_spec 5 level_m).ecc_codes ≤ 30)
get_ecc_spec_cover_example = get_ecc_spec_cover 5 level_m (omega arith) (omega arith)

get_width_area_example :
    (get_width 7 ≡ 17 + 4 * 7)
    × (get_width 7 * get_width 7
        ≡ function_modules 7
          + 8 * (get_data_length 7 level_l + get_ecc_length 7 level_l)
          + get_remainder 7)
    × (get_remainder 7 < 8)
get_width_area_example = get_width_area 7 level_l (omega arith) (omega arith)

get_minimum_version_lem_example :
    let v = get_minimum_version 20 level_l in
    (1 ≤ v)
    × (v ≤ 40)
    × ((w : ℕ) → 1 ≤ w → w < v → get_data_length w level_l < 20)
    × (20 ≤ get_data_length 40 level_l → 20 ≤ get_data_length v level_l)
    × (get_data_length 40 level_l < 20 → v ≡ 40)
get_minimum_version_lem_example = get_minimum_version_lem 20 level_l

get_format_info_code_example :
    (2 ≤ 7 → get_format_info 2 level_m ≡ format_word 2 level_m)
    × (7 < 2 → get_format_info 2 level_m ≡ 0)
get_format_info_code_example = get_format_info_code 2 level_m

get_format_info-distance_example :
    7 ≤ distance 15 (get_format_info 0 level_l) (get_format_info 1 level_l)
get_format_info-distance_example =
    get_format_info-distance 0 1 level_l level_l (omega arith) (omega arith)
      (inl (λ e. omega (arith, e)))

get_version_pattern_code_example :
    (7 ≤ 7 → 7 ≤ 40 → get_version_pattern 7 ≡ code_word 6 0x1f25 12 7)
    × ((7 < 7) ⊎ (40 < 7) → get_version_pattern 7 ≡ 0)
get_version_pattern_code_example = get_version_pattern_code 7
