-- ===== src/Raw/Tests.antt =====
-- qrencode.c, the raw code: the theorems at concrete inputs.
use libqrencode.Prelude.{
  ℕ, ◌+◌, ◌*◌, ◌<◌, ◌≡◌, refl, replicate, length, All, zero, suc, List, arith,
}
use libqrencode.Api.{level_m}
use libqrencode.QrSpec.{get_ecc_spec, get_data_length, rs_block_num}
use libqrencode.Rsecc.Roots.{IsByte}
use libqrencode.Raw.{rsblock_init, data_position}
use libqrencode.Raw.Blocks.{block_data, IsCodeBlock, rsblock_init_lem}
use libqrencode.Raw.Order.{block_size, data_position-inside, data_position-onto}

-- The data code words of version 1, level M.
abbrev code_words : List ℕ
code_words = replicate 16 0xec

bytes_below : (n : ℕ) → All IsByte (replicate n 0xec)
bytes_below zero = tt
bytes_below (suc n) = (omega arith, bytes_below n)

rsblock_init_lem_example :
    (length (rsblock_init (get_ecc_spec 1 level_m) code_words)
      ≡ rs_block_num (get_ecc_spec 1 level_m))
    × (block_data (rsblock_init (get_ecc_spec 1 level_m) code_words) ≡ code_words)
    × All
        (IsCodeBlock (get_ecc_spec 1 level_m).ecc_codes)
        (rsblock_init (get_ecc_spec 1 level_m) code_words)
rsblock_init_lem_example =
    rsblock_init_lem 1 level_m code_words (omega arith) (omega arith)
      (unfold get_data_length in refl) (bytes_below 16)

data_position-inside_example :
    ((data_position 4 2 15 60).0 < 4)
    × ((data_position 4 2 15 60).1 < block_size 2 15 (data_position 4 2 15 60).0)
data_position-inside_example = data_position-inside 2 2 15 60 (omega arith)

data_position-onto_example :
    (count : ℕ) × (count < 2 * 15 + 2 * 16) × (data_position 4 2 15 count ≡ (3, 15))
data_position-onto_example = data_position-onto 2 2 15 3 15 (omega arith) (omega arith)
