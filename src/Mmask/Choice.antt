-- ===== src/Mmask/Choice.antt =====
-- The choice of the mask in mmask.c: the mask with the highest score is taken.
use native.Mathlib.Decide.{dec_lt}
use libqrencode.Prelude.{
  ℕ, zero, suc, ◌+◌, ◌≤◌, ◌<◌, List, Option, none, some, ◌≡◌, ◌⊎◌, inl, inr, refl, lt→ltb, le→ltb,
  arith,
}
use mathlib.Core.Path.{subst}
use libqrencode.Api.{RecLevel}
use libqrencode.Mmask.{candidate, mask_loop, mask}

-- The first of the highest scores below the mask `n`, which is not 0.
pub record IsHighest (n : ℕ) (symbol : ℕ → List ℕ × ℕ) (best : Option (List ℕ)) (score : ℕ)
    : Type 0 where
  pub choice : ℕ
  pub inside : choice < n
  pub chosen : best ≡ some (symbol choice).0
  pub scored : score ≡ (symbol choice).1
  pub positive : 0 < score
  pub highest : (j : ℕ) → j < n → (symbol j).1 ≤ score
  pub earliest : (j : ℕ) → j < choice → (symbol j).1 < score

-- The best symbol among the masks below `n`, if one has a score.
abbrev Best : ℕ → (ℕ → List ℕ × ℕ) → Option (List ℕ) → ℕ → Type 0
Best n symbol best score =
    ((best ≡ none) × (score ≡ 0) × ((j : ℕ) → j < n → (symbol j).1 ≡ 0))
    ⊎ IsHighest n symbol best score

-- A bound below the mask `i` and one at it.
below_next : (P : ℕ → Type 0) (i : ℕ) → ((j : ℕ) → j < i → P j) → P i → (j : ℕ) → j < i + 1 → P j
below_next P i low here j h = elim (dec_lt j i) [
  | yes below ↦ low j below
  | no last ↦ subst P (the_same (omega arith)) here
]
  where
    the_same : i ≡ j → i ≡ j
    the_same e = e

keep :
    (i : ℕ) (symbol : ℕ → List ℕ × ℕ) (best : Option (List ℕ)) (score : ℕ)
    → Best i symbol best score
    → (symbol i).1 ≤ score
    → Best (i + 1) symbol best score
keep i symbol best score (inl (nothing, zeroed, low)) h =
    inl (nothing, zeroed, below_next (λ j. (symbol j).1 ≡ 0) i low (omega (arith, zeroed)))
keep i symbol best score (inr b) h = inr (record {
  choice = b.choice;
  inside = omega (arith, b.inside);
  chosen = b.chosen;
  scored = b.scored;
  positive = b.positive;
  highest = below_next (λ j. (symbol j).1 ≤ score) i b.highest h;
  earliest = b.earliest;
})

replace :
    (i : ℕ) (symbol : ℕ → List ℕ × ℕ) (best : Option (List ℕ)) (score : ℕ)
    → Best i symbol best score
    → score < (symbol i).1
    → Best (i + 1) symbol (some (symbol i).0) (symbol i).1
replace i symbol best score b h = inr (record {
  choice = i;
  inside = omega arith;
  chosen = refl;
  scored = refl;
  positive = omega arith;
  highest =
      below_next (λ j. (symbol j).1 ≤ (symbol i).1) i (λ j below. omega (arith, lower b j below))
        (omega arith);
  earliest = lower b;
})
  where
    lower : Best i symbol best score → (j : ℕ) → j < i → (symbol j).1 < (symbol i).1
    lower (inl (nothing, zeroed, low)) j below = omega (arith, low j below)
    lower (inr b) j below = omega (arith, b.highest j below)

mask_loop-Best :
    (n i : ℕ) (symbol : ℕ → List ℕ × ℕ) (best : Option (List ℕ)) (score : ℕ)
    → Best i symbol best score
    → (top : ℕ) × Best (i + n) symbol (mask_loop n i symbol best score) top
unfolding mask_loop
mask_loop-Best zero i symbol best score b =
    let same : i ≡ i + 0 = omega arith in (score, subst (λ k. Best k symbol best score) same b)
mask_loop-Best (suc n) i symbol best score b =
    let same : i + 1 + n ≡ i + suc n = omega arith in
    elim (dec_lt score (symbol i).1) [
      | yes better ↦
          let (top, r) =
            mask_loop-Best n (i + 1) symbol (some (symbol i).0) (symbol i).1
              (replace i symbol best score b better) in
          rw (lt→ltb score (symbol i).1 better) (
            top,
            subst
                (λ k.
                  Best k symbol (mask_loop n (i + 1) symbol (some (symbol i).0) (symbol i).1) top)
                same r,
          )
      | no worse ↦
          let (top, r) =
            mask_loop-Best n (i + 1) symbol best score (keep i symbol best score b (omega arith)) in
          rw (le→ltb score (symbol i).1 (omega arith))
            (top, subst (λ k. Best k symbol (mask_loop n (i + 1) symbol best score) top) same r)
    ]

-- `MMask_mask` returns NULL if all four masks have the score 0, and otherwise the symbol with the
-- mask that has the highest score, which is not 0, and the first such mask.
pub mmask_mask_lem :
    (version : ℕ) (frame : List ℕ) (level : RecLevel)
    → ((mask version frame level ≡ none)
        × ((j : ℕ) → j < 4 → (candidate version frame level j).1 ≡ 0))
      ⊎ ((k : ℕ) × (k < 4)
          × (mask version frame level ≡ some (candidate version frame level k).0)
          × (0 < (candidate version frame level k).1)
          × ((j : ℕ)
              → j < 4
              → (candidate version frame level j).1 ≤ (candidate version frame level k).1)
          × ((j : ℕ)
              → j < k
              → (candidate version frame level j).1 < (candidate version frame level k).1))
unfolding mask
mmask_mask_lem version frame level =
    outcome (mask_loop-Best 4 0 symbol none 0 (inl (refl, refl, λ j h. absurd (omega arith)))).1
  where
    symbol : ℕ → List ℕ × ℕ
    symbol = candidate version frame level

    outcome :
        {best : Option (List ℕ)} {top : ℕ}
        → Best 4 symbol best top
        → ((best ≡ none) × ((j : ℕ) → j < 4 → (symbol j).1 ≡ 0))
          ⊎ ((k : ℕ) × (k < 4)
              × (best ≡ some (symbol k).0)
              × (0 < (symbol k).1)
              × ((j : ℕ) → j < 4 → (symbol j).1 ≤ (symbol k).1)
              × ((j : ℕ) → j < k → (symbol j).1 < (symbol k).1))
    outcome (inl (nothing, zeroed, low)) = inl (nothing, low)
    outcome (inr b) = inr (
      b.choice,
      b.inside,
      b.chosen,
      omega (arith, b.positive, b.scored),
      λ j h. omega (arith, b.highest j h, b.scored),
      λ j h. omega (arith, b.earliest j h, b.scored),
    )
