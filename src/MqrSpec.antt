-- ===== src/MqrSpec.antt =====
-- mqrspec.c: the capacities, length indicators and format words of Micro QR Code.
-- A version above 4 would be a read outside the tables; it gives zeros here. So does a level that
-- a version does not have: its entry of `ec` is 0.
pub mod Consistency
pub mod Frame
mod Tests
use libqrencode.Prelude.{
  ℕ, zero, suc, ◌+◌, ◌-◌, ◌*◌, ◌/◌, ◌^◌, Bool, true, false, ◌||◌, List, [], ◌∷◌, Option, none, some,
  ltb, ◌==◌, if◌then◌else◌, get_or,
}
use libqrencode.Api.{Mode, RecLevel, level_index, mode_index, mqrspec_version_max}
use libqrencode.QrSpec.{is_kanji}

-- `MQRspec_Capacity`
pub record Capacity : Type 0 where
  pub width : ℕ
  pub ec : List ℕ

abbrev entry : ℕ → ℕ → ℕ → ℕ → ℕ → Capacity
entry width l m q h = record { width = width; ec = l ∷ m ∷ q ∷ h ∷ [] }

unfoldable pub mqrspec_capacity : List Capacity
mqrspec_capacity =
    entry 0 0 0 0 0
    ∷ (entry 11 2 0 0 0 ∷ (entry 13 5 6 0 0 ∷ (entry 15 6 8 0 0 ∷ (entry 17 8 10 14 0 ∷ []))))

abbrev pub capacity : ℕ → Capacity
capacity version = get_or mqrspec_capacity version (entry 0 0 0 0 0)

unfoldable pub get_ecc_length : ℕ → RecLevel → ℕ
unfolding mqrspec_capacity
get_ecc_length version level = get_or (capacity version).ec (level_index level) 0

unfoldable pub get_data_length_bit : ℕ → RecLevel → ℕ
unfolding mqrspec_capacity
get_data_length_bit version level =
    let w = (capacity version).width - 1 in
    let ecc = get_or (capacity version).ec (level_index level) 0 in
    if ecc == 0 then 0 else w * w - 64 - ecc * 8

unfoldable pub get_data_length : ℕ → RecLevel → ℕ
unfolding get_data_length_bit
get_data_length version level = (get_data_length_bit version level + 4) / 8

unfoldable pub get_width : ℕ → ℕ
unfolding mqrspec_capacity
get_width version = (capacity version).width

abbrev pub length_table_bits : List (List ℕ)
length_table_bits =
    (3 ∷ 4 ∷ 5 ∷ 6 ∷ [])
    ∷ ((0 ∷ 3 ∷ 4 ∷ 5 ∷ []) ∷ ((0 ∷ 0 ∷ 4 ∷ 5 ∷ []) ∷ ((0 ∷ 0 ∷ 3 ∷ 4 ∷ []) ∷ [])))

-- A mode that is not one of the four would be a read outside the table; it gives 0 here.
unfoldable pub length_indicator : Mode → ℕ → ℕ
length_indicator mode version =
    get_or (get_or length_table_bits (mode_index mode) []) (version - 1) 0

unfoldable pub maximum_words : Mode → ℕ → ℕ
maximum_words mode version =
    let bits = get_or (get_or length_table_bits (mode_index mode) []) (version - 1) 0 in
    let words = 2 ^ bits - 1 in if is_kanji mode then words * 2 else words

unfoldable pub format_info : List (List ℕ)
format_info =
    (0x4445 ∷ 0x55ae ∷ 0x6793 ∷ 0x7678 ∷ 0x06de ∷ 0x1735 ∷ 0x2508 ∷ 0x34e3 ∷ [])
    ∷ ((0x4172 ∷ 0x5099 ∷ 0x62a4 ∷ 0x734f ∷ 0x03e9 ∷ 0x1202 ∷ 0x203f ∷ 0x31d4 ∷ [])
        ∷ ((0x4e2b ∷ 0x5fc0 ∷ 0x6dfd ∷ 0x7c16 ∷ 0x0cb0 ∷ 0x1d5b ∷ 0x2f66 ∷ 0x3e8d ∷ [])
            ∷ ((0x4b1c ∷ 0x5af7 ∷ 0x68ca ∷ 0x7921 ∷ 0x0987 ∷ 0x186c ∷ 0x2a51 ∷ 0x3bba ∷ []) ∷ [])))

-- `none` for the -1 of a symbol that is not one of the eight.
unfoldable pub type_table : List (List (Option ℕ))
type_table =
    (none ∷ none ∷ none ∷ [])
    ∷ ((some 0 ∷ none ∷ none ∷ [])
        ∷ ((some 1 ∷ some 2 ∷ none ∷ [])
            ∷ ((some 3 ∷ some 4 ∷ none ∷ []) ∷ ((some 5 ∷ some 6 ∷ some 7 ∷ []) ∷ []))))

abbrev pub is_level_h : RecLevel → Bool
is_level_h RecLevel.level_h = true
is_level_h _ = false

abbrev pub symbol_type : ℕ → RecLevel → Option ℕ
symbol_type version level = get_or (get_or type_table version []) (level_index level) none

unfoldable pub get_format_info : ℕ → ℕ → RecLevel → ℕ
unfolding format_info type_table
get_format_info mask version level =
    if ltb 3 mask
    then 0
    else if version == 0 || ltb mqrspec_version_max version
    then 0
    else if is_level_h level
    then 0
    else elim (symbol_type version level) [
      | none ↦ 0
      | some type ↦ get_or (get_or format_info mask []) type 0
    ]
