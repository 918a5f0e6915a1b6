-- ===== src/QrSpec.antt =====
-- qrspec.c: the capacities, length indicators, block structures and format words of QR Code.
-- A version above 40 would be a read outside the tables; it gives zeros here.
pub mod Tables
pub mod Consistency
pub mod Codes
pub mod Frame
mod Tests
use libqrencode.Prelude.{
  ℕ, zero, suc, ◌+◌, ◌-◌, ◌*◌, ◌/◌, ◌^◌, Bool, true, false, ◌||◌, List, [], ◌∷◌, ltb, leb, ◌==◌,
  if◌then◌else◌, get_or,
}
use libqrencode.Api.{
  Mode, num, an, eight, kanji, RecLevel, level_index, mode_index, qrspec_version_max,
}
use Tables.{Capacity, entry, qrspec_capacity, Blocks, ecc_table, version_pattern, format_info}

abbrev pub capacity : ℕ → Capacity
capacity version = get_or qrspec_capacity version (entry 0 0 0 0 0 0 0)

unfoldable pub get_ecc_length : ℕ → RecLevel → ℕ
unfolding qrspec_capacity
get_ecc_length version level = get_or (capacity version).ec (level_index level) 0

-- No entry has more code words for correction than in all.
unfoldable pub get_data_length : ℕ → RecLevel → ℕ
unfolding qrspec_capacity
get_data_length version level =
    (capacity version).words - get_or (capacity version).ec (level_index level) 0

-- The rounds left, from version `i` on.
unfoldable pub minimum_loop : ℕ → ℕ → ℕ → RecLevel → ℕ
minimum_loop zero i size level = qrspec_version_max
minimum_loop (suc n) i size level =
    let rest = minimum_loop n (i + 1) size level in
    if leb size (get_data_length i level) then i else rest

unfoldable pub get_minimum_version : ℕ → RecLevel → ℕ
unfolding minimum_loop
get_minimum_version size level = minimum_loop qrspec_version_max 1 size level

unfoldable pub get_width : ℕ → ℕ
unfolding qrspec_capacity
get_width version = (capacity version).width

unfoldable pub get_remainder : ℕ → ℕ
unfolding qrspec_capacity
get_remainder version = (capacity version).remainder

-- `QRinput_isSplittableMode`
abbrev pub is_splittable_mode : Mode → Bool
is_splittable_mode num = true
is_splittable_mode an = true
is_splittable_mode eight = true
is_splittable_mode kanji = true
is_splittable_mode _ = false

abbrev pub length_table_bits : List (List ℕ)
length_table_bits =
    (10 ∷ 12 ∷ 14 ∷ []) ∷ (9 ∷ 11 ∷ 13 ∷ []) ∷ (8 ∷ 16 ∷ 16 ∷ []) ∷ (8 ∷ 10 ∷ 12 ∷ []) ∷ []

-- The choice of `l` in `QRspec_lengthIndicator` and `QRspec_maximumWords`.
abbrev pub version_range : ℕ → ℕ
version_range version = if leb version 9 then 0 else if leb version 26 then 1 else 2

unfoldable pub length_indicator : Mode → ℕ → ℕ
length_indicator mode version =
    if is_splittable_mode mode
    then get_or (get_or length_table_bits (mode_index mode) []) (version_range version) 0
    else 0

abbrev pub is_kanji : Mode → Bool
is_kanji kanji = true
is_kanji _ = false

unfoldable pub maximum_words : Mode → ℕ → ℕ
maximum_words mode version =
    let bits = get_or (get_or length_table_bits (mode_index mode) []) (version_range version) 0 in
    let words = 2 ^ bits - 1 in
    if is_splittable_mode mode then if is_kanji mode then words * 2 else words else 0

-- `spec[0]` to `spec[4]`
pub record EccSpec : Type 0 where
  pub blocks1 : ℕ
  pub data_codes1 : ℕ
  pub ecc_codes : ℕ
  pub blocks2 : ℕ
  pub data_codes2 : ℕ

abbrev pub ecc_blocks : ℕ → RecLevel → ℕ × ℕ
ecc_blocks version level = get_or (get_or ecc_table version []) (level_index level) (0, 0)

unfoldable pub get_ecc_spec : ℕ → RecLevel → EccSpec
unfolding ecc_table get_data_length get_ecc_length
get_ecc_spec version level =
    let (b1, b2) = ecc_blocks version level in
    let codes = get_data_length version level in
    let ecc = get_ecc_length version level in
    if b2 == 0
    then record {
      blocks1 = b1;
      data_codes1 = codes / b1;
      ecc_codes = ecc / b1;
      blocks2 = 0;
      data_codes2 = 0;
    }
    else record {
      blocks1 = b1;
      data_codes1 = codes / (b1 + b2);
      ecc_codes = ecc / (b1 + b2);
      blocks2 = b2;
      data_codes2 = codes / (b1 + b2) + 1;
    }

-- The macros of qrspec.h.
abbrev pub rs_block_num : EccSpec → ℕ
rs_block_num s = s.blocks1 + s.blocks2

abbrev pub rs_data_length : EccSpec → ℕ
rs_data_length s = s.blocks1 * s.data_codes1 + s.blocks2 * s.data_codes2

abbrev pub rs_ecc_length : EccSpec → ℕ
rs_ecc_length s = rs_block_num s * s.ecc_codes

unfoldable pub get_version_pattern : ℕ → ℕ
unfolding version_pattern
get_version_pattern version =
    if ltb version 7 || ltb qrspec_version_max version
    then 0
    else get_or version_pattern (version - 7) 0

unfoldable pub get_format_info : ℕ → RecLevel → ℕ
unfolding format_info
get_format_info mask level =
    if ltb 7 mask then 0 else get_or (get_or format_info (level_index level) []) mask 0
