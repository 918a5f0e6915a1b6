-- ===== src/Mask/Choice.antt =====
-- The choice of the mask in mask.c: the demerits are far below INT_MAX, and the mask with the
-- fewest demerits is taken.
use native.Mathlib.Decide.{dec_lt, dec_le}
use libqrencode.Prelude.{
  ℕ, zero, suc, ◌+◌, ◌≤◌, ◌<◌, List, ◌≡◌, ◌⊎◌, inl, inr, refl, ap, lt→ltb, le→ltb, arith,
}
use libqrencode.Mask.Demerit.{mask_loop}

-- What the loop over the masks from `i` to `n` + `i` leaves of the best symbol before.
pub record IsBest (i n : ℕ) (symbol : ℕ → List ℕ × ℕ) (result : List ℕ) : Type 0 where
  pub choice : ℕ
  pub first : i ≤ choice
  pub last : choice < i + n
  pub chosen : result ≡ (symbol choice).0
  pub fewest : (j : ℕ) → i ≤ j → j < i + n → (symbol choice).1 ≤ (symbol j).1
  pub earliest : (j : ℕ) → i ≤ j → j < choice → (symbol choice).1 < (symbol j).1

-- Either no symbol is better than the best one before, or the first of the best is returned.
abbrev pub LoopResult : (i n : ℕ) → (ℕ → List ℕ × ℕ) → List ℕ → ℕ → List ℕ → Type 0
LoopResult i n symbol best demerit result =
    ((result ≡ best) × ((j : ℕ) → i ≤ j → j < i + n → demerit ≤ (symbol j).1))
    ⊎ ((b : IsBest i n symbol result) × ((symbol b.choice).1 < demerit))

better :
    (i n : ℕ) (symbol : ℕ → List ℕ × ℕ) (result : List ℕ)
    → LoopResult (i + 1) n symbol (symbol i).0 (symbol i).1 result
    → IsBest i (suc n) symbol result
better i n symbol result (inl (same, least)) = record {
  choice = i;
  first = omega arith;
  last = omega arith;
  chosen = same;
  fewest = λ j from below. elim (dec_le j i) [
    | yes h ↦ let e : i ≡ j = omega arith in omega (arith, ap (λ k. (symbol k).1) e)
    | no h ↦ least j (omega arith) (omega arith)
  ];
  earliest = λ j from below. absurd (omega arith);
}
better i n symbol result (inr (b, less)) = record {
  choice = b.choice;
  first = omega (arith, b.first);
  last = omega (arith, b.last);
  chosen = b.chosen;
  fewest = λ j from below. elim (dec_le j i) [
    | yes h ↦ let e : i ≡ j = omega arith in omega (arith, ap (λ k. (symbol k).1) e, less)
    | no h ↦ b.fewest j (omega arith) (omega arith)
  ];
  earliest = λ j from below. elim (dec_le j i) [
    | yes h ↦ let e : i ≡ j = omega arith in omega (arith, ap (λ k. (symbol k).1) e, less)
    | no h ↦ b.earliest j (omega arith) below
  ];
}

not_better :
    (i n : ℕ) (symbol : ℕ → List ℕ × ℕ) (best result : List ℕ) (demerit : ℕ)
    → demerit ≤ (symbol i).1
    → LoopResult (i + 1) n symbol best demerit result
    → LoopResult i (suc n) symbol best demerit result
not_better i n symbol best result demerit h (inl (same, least)) = inl (
  same,
  λ j from below. elim (dec_le j i) [
    | yes low ↦ let e : i ≡ j = omega arith in omega (arith, ap (λ k. (symbol k).1) e)
    | no high ↦ least j (omega arith) (omega arith)
  ],
)
not_better i n symbol best result demerit h (inr (b, less)) = inr (
  record {
    choice = b.choice;
    first = omega (arith, b.first);
    last = omega (arith, b.last);
    chosen = b.chosen;
    fewest = λ j from below. elim (dec_le j i) [
      | yes low ↦ let e : i ≡ j = omega arith in omega (arith, ap (λ k. (symbol k).1) e, less)
      | no high ↦ b.fewest j (omega arith) (omega arith)
    ];
    earliest = λ j from below. elim (dec_le j i) [
      | yes low ↦ let e : i ≡ j = omega arith in omega (arith, ap (λ k. (symbol k).1) e, less)
      | no high ↦ b.earliest j (omega arith) below
    ];
  },
  less,
)

pub mask_loop-LoopResult :
    (n i : ℕ) (symbol : ℕ → List ℕ × ℕ) (best : List ℕ) (demerit : ℕ)
    → LoopResult i n symbol best demerit (mask_loop n i symbol best demerit)
unfolding mask_loop
mask_loop-LoopResult zero i symbol best demerit = inl (refl, λ j from below. absurd (omega arith))
mask_loop-LoopResult (suc n) i symbol best demerit = elim (dec_lt (symbol i).1 demerit) [
  | yes less ↦
      rw (lt→ltb (symbol i).1 demerit less)
        (taken (mask_loop-LoopResult n (i + 1) symbol (symbol i).0 (symbol i).1) less)
  | no more ↦ rw (le→ltb (symbol i).1 demerit (omega arith)) (
      not_better i n symbol best _ demerit (omega arith)
        (mask_loop-LoopResult n (i + 1) symbol best demerit))
]
  where
    taken :
        LoopResult
          (i + 1)
          n
          symbol
          (symbol i).0
          (symbol i).1
          (mask_loop n (i + 1) symbol (symbol i).0 (symbol i).1)
        → (symbol i).1 < demerit
        → LoopResult i
            (suc n)
            symbol
            best
            demerit
            (mask_loop n (i + 1) symbol (symbol i).0 (symbol i).1)
    taken r less =
        let b = better i n symbol _ r in
        inr (b, omega (arith, b.fewest i (omega arith) (omega arith)))
