-- ===== src/MqrSpec/Consistency.antt =====
-- The tables of mqrspec.c against each other, and against the code of the format words.
use libqrencode.Prelude.{
  ℕ, ◌+◌, ◌-◌, ◌*◌, ◌%◌, ◌≤◌, bit_xor, Bool, true, ◌&&◌, ◌≡◌, ◌≢◌, refl, ◌==◌, ==→eq, if◌then◌else◌,
  arith, Option, none, some,
}
use libqrencode.Prelude.Tables.{all_below, all_below_sound}
use libqrencode.Api.{RecLevel}
use libqrencode.QrSpec.Consistency.{all_levels, all_levels_sound}
use libqrencode.QrSpec.Codes.{code_word}
use libqrencode.MqrSpec.{
  get_data_length_bit, get_data_length, get_ecc_length, get_width, get_format_info, symbol_type,
}

-- Every version and level of Micro QR Code.
pub for_symbols :
    (p : ℕ → RecLevel → Bool) (version : ℕ) (level : RecLevel)
    → all_below 5 (λ v. all_levels (p v)) ≡ true
    → version ≤ 4
    → p version level ≡ true
for_symbols p version level h le =
    all_levels_sound (p version) level
      (all_below_sound 5 (λ v. all_levels (p v)) version h (omega arith))

area_check : ℕ → RecLevel → Bool
area_check v l =
    if get_ecc_length v l == 0
    then get_data_length_bit v l == 0
    else (get_width v == 9 + 2 * v)
      && ((get_width v - 1) * (get_width v - 1)
          == 64 + get_data_length_bit v l + 8 * get_ecc_length v l)
      && (get_data_length v l * 8 == get_data_length_bit v l + (if v % 2 == 1 then 4 else 0))

area_table : all_below 5 (λ v. all_levels (area_check v)) ≡ true
unfolding all_below all_levels area_check get_width get_data_length_bit get_data_length
    get_ecc_length
area_table = refl

read_area :
    (e a b c d f g x : ℕ)
    → (if e == 0 then g == 0 else (a == b) && (c == d) && (f == x)) ≡ true
    → (e ≡ 0 → g ≡ 0) × (e ≢ 0 → (a ≡ b) × (c ≡ d) × (f ≡ x))
read_area e a b c d f g x h = (λ z. ground arith, λ z. ground arith)

-- For every version up to 4: a level that the version does not have holds no data; at a level that
-- it has, the symbol is 9 + 2 * version modules wide, its area outside the top and left lines is
-- the finder and format area, the data bits and eight modules for each error correction code word,
-- and the data code words hold the data bits with four bits to spare in the odd versions alone.
pub get_data_length_bit_area :
    (version : ℕ) (level : RecLevel)
    → version ≤ 4
    → (get_ecc_length version level ≡ 0 → get_data_length_bit version level ≡ 0)
      × (get_ecc_length version level ≢ 0
          → (get_width version ≡ 9 + 2 * version)
            × ((get_width version - 1) * (get_width version - 1)
                ≡ 64 + get_data_length_bit version level + 8 * get_ecc_length version level)
            × (get_data_length version level * 8
                ≡ get_data_length_bit version level + (if version % 2 == 1 then 4 else 0)))
unfolding area_check
get_data_length_bit_area version level h =
    read_area _ _ _ _ _ _ _ _ (for_symbols area_check version level area_table h)

-- The masked BCH code word of a symbol type and a mask.
unfoldable pub format_word : ℕ → ℕ → ℕ
unfolding code_word
format_word mask type = bit_xor (code_word 5 0x537 10 (type * 4 + mask)) 0x4445

-- The number of the symbol's type, if the level is one of the version's.
abbrev pub expected_word : ℕ → Option ℕ → ℕ
expected_word mask none = 0
expected_word mask (some type) = format_word mask type

format_check : ℕ → RecLevel → Bool
format_check v l =
    all_below 4 (λ mask. get_format_info mask v l == expected_word mask (symbol_type v l))

format_table : all_below 5 (λ v. all_levels (format_check v)) ≡ true
unfolding all_below all_levels format_check get_format_info format_word
format_table = refl

-- For the masks 0 to 3 and the versions 1 to 4 `MQRspec_getFormatInfo` gives the masked BCH code
-- word of the symbol's type and the mask; it gives 0 where the type table has no type.
pub get_format_info-expected_word :
    (mask version : ℕ) (level : RecLevel)
    → mask ≤ 3
    → version ≤ 4
    → get_format_info mask version level ≡ expected_word mask (symbol_type version level)
get_format_info-expected_word mask version level hm hv = ==→eq _ _ (
    all_below_sound 4
      (λ m. get_format_info m version level == expected_word m (symbol_type version level)) mask
      (unfold format_check in for_symbols format_check version level format_table hv) (omega arith))
