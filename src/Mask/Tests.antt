-- ===== src/Mask/Tests.antt =====
-- mask.c: the theorems at concrete inputs.
use libqrencode.Prelude.Int.{ℤ, pos, negsuc}
use libqrencode.Prelude.{
  ◌==◌, ◌&&◌, if◌then◌else◌, ℕ, bit_and, ◌≢◌, All, ◌/◌, ◌%◌, ◌≤◌, ◌<◌, List, [], ◌∷◌, ◌≡◌, refl,
  length, get_or, arith,
}
use libqrencode.Api.{level_l}
use libqrencode.Mask.{apply_mask, mask_module, mask_expression}
use libqrencode.Mask.Demerit.{run_lengths, candidate, mask}
use libqrencode.Mask.Modules.{darks}
use libqrencode.Mask.Standard.{conditions, flipped, apply_mask-flipped}
use libqrencode.Mask.Runs.{expand, colours, IsRun, expand-run_lengths}
use libqrencode.Mask.Bound.{mask_lem}

-- Three rows of three modules, one of a function pattern.
abbrev modules : List ℕ
modules = 0x81 ∷ 1 ∷ 0 ∷ 0 ∷ 1 ∷ 1 ∷ 0 ∷ 0 ∷ 3 ∷ []

apply_mask-flipped_example :
    (length (apply_mask 5 3 modules).0 ≡ 9)
    × ((apply_mask 5 3 modules).1 ≡ darks (apply_mask 5 3 modules).0)
    × ((k : ℕ)
        → k < 9
        → get_or (apply_mask 5 3 modules).0 k 0
          ≡ mask_module (mask_expression 5 (k % 3) (k / 3)) (get_or modules k 0))
    × ((k : ℕ)
        → k < 9
        → 5 < 8
        → get_or (apply_mask 5 3 modules).0 k 0 ≡ (
            let m = get_or modules k 0 in
            if (bit_and m 0x80 == 0) && (get_or (conditions (k / 3) (k % 3)) 5 0 == 0)
            then flipped m
            else m))
apply_mask-flipped_example = apply_mask-flipped 5 3 modules (omega arith)

expand-run_lengths_example :
    (bit_and 0x81 1 ≡ 0 → All IsRun (run_lengths modules))
    × (bit_and 0x81 1 ≢ 0
        → (rest : List ℤ) × (run_lengths modules ≡ negsuc 0 ∷ rest) × All IsRun rest)
    × (expand 0 (run_lengths modules) ≡ colours modules)
expand-run_lengths_example = expand-run_lengths 0x81 (1 ∷ 0 ∷ 0 ∷ 1 ∷ 1 ∷ 0 ∷ 0 ∷ 3 ∷ [])

-- Two lines of tests/test_mask.c.
run_lengths_stripes :
    run_lengths (1 ∷ 0 ∷ 1 ∷ 0 ∷ 1 ∷ []) ≡ negsuc 0 ∷ pos 1 ∷ pos 1 ∷ pos 1 ∷ pos 1 ∷ pos 1 ∷ []
unfolding run_lengths
run_lengths_stripes = refl

run_lengths_halves : run_lengths (0 ∷ 0 ∷ 1 ∷ 1 ∷ 1 ∷ []) ≡ pos 2 ∷ pos 3 ∷ []
unfolding run_lengths
run_lengths_halves = refl

mask_lem_example :
    (k : ℕ) × (k < 8)
    × (mask 3 modules level_l ≡ (candidate 3 modules level_l k).0)
    × ((j : ℕ) → j < 8 → (candidate 3 modules level_l k).1 ≤ (candidate 3 modules level_l j).1)
    × ((j : ℕ) → j < k → (candidate 3 modules level_l k).1 < (candidate 3 modules level_l j).1)
mask_lem_example = mask_lem 3 modules level_l (omega arith) (omega arith) refl
