-- ===== src/Mmask/Tests.antt =====
-- mmask.c: the theorem at a concrete input.
use libqrencode.Prelude.{ℕ, ◌≤◌, ◌<◌, List, none, some, ◌≡◌, ◌⊎◌, replicate}
use libqrencode.Api.{level_l}
use libqrencode.Mmask.{candidate, mask}
use libqrencode.Mmask.Choice.{mmask_mask_lem}

-- A blank symbol of version 1.
abbrev blank : List ℕ
blank = replicate 121 0

mmask_mask_lem_example :
    ((mask 1 blank level_l ≡ none) × ((j : ℕ) → j < 4 → (candidate 1 blank level_l j).1 ≡ 0))
    ⊎ ((k : ℕ) × (k < 4)
        × (mask 1 blank level_l ≡ some (candidate 1 blank level_l k).0)
        × (0 < (candidate 1 blank level_l k).1)
        × ((j : ℕ) → j < 4 → (candidate 1 blank level_l j).1 ≤ (candidate 1 blank level_l k).1)
        × ((j : ℕ) → j < k → (candidate 1 blank level_l j).1 < (candidate 1 blank level_l k).1))
mmask_mask_lem_example = mmask_mask_lem 1 blank level_l
