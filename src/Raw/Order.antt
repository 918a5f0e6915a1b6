-- ===== src/Raw/Order.antt =====
-- `QRraw_getCode`: the order in which the data code words of the blocks go to the symbol.
use native.Mathlib.Decide.{dec_lt}
use mathlib.Core.Path.{ap₂}
use libqrencode.Prelude.{
  ℕ, Bool, true, false, ◌⊎◌, inl, inr, ◌+◌, ◌-◌, ◌*◌, ◌/◌, ◌%◌, ◌≤◌, ◌<◌, ◌≡◌, refl, ap, sym, ◌∙◌,
  leb, if◌then◌else◌, le→leb, lt→leb, arith,
}
use native.Mathlib.Nat.{mul-le-mul, mod-add-div', mod-lt}
use libqrencode.Mask.Modules.{position-mod, position-div}
use libqrencode.Raw.{data_position}

-- The code words of a block: `b1` blocks have `dl`, and the others one more.
abbrev pub block_size : ℕ → ℕ → ℕ → ℕ
block_size b1 dl row = if leb (row + 1) b1 then dl else dl + 1

-- The code word in a column that all blocks have.
full_column :
    (b1 b2 dl row col : ℕ)
    → row < b1 + b2
    → col < dl
    → data_position (b1 + b2) b1 dl (col * (b1 + b2) + row) ≡ (row, col)
unfolding data_position
full_column b1 b2 dl row col hr hc =
    rw (position-mod col (b1 + b2) row hr, position-div col (b1 + b2) row hr, lt→leb dl col hc) refl

last_column :
    (b1 b2 dl row : ℕ)
    → row < b2
    → data_position (b1 + b2) b1 dl (dl * (b1 + b2) + row) ≡ (row + b1, dl)
unfolding data_position
last_column b1 b2 dl row hr =
    rw
      (
        position-mod dl (b1 + b2) row (omega arith),
        position-div dl (b1 + b2) row (omega arith),
        le→leb dl dl (omega arith),
      )
      refl

total-columns : (b1 b2 dl : ℕ) → b1 * dl + b2 * (dl + 1) ≡ dl * (b1 + b2) + b2
total-columns b1 b2 dl = grind arith

columns-le : (k dl n : ℕ) → k < dl → k * n + n ≤ dl * n
columns-le k dl n h = grind (arith, mul-le-mul)

-- Only the longer blocks have a last column.
longer_block : (b1 dl row col : ℕ) → col < block_size b1 dl row → dl ≤ col → (b1 ≤ row) × (col ≡ dl)
longer_block b1 dl row col h over = elim (dec_lt row b1) [
  | yes short ↦
      let size : block_size b1 dl row ≡ dl = rw (le→leb (row + 1) b1 (omega arith)) refl in
      absurd (omega (arith, size))
  | no long ↦
      let size : block_size b1 dl row ≡ dl + 1 = rw (lt→leb (row + 1) b1 (omega arith)) refl in
      (omega arith, omega (arith, size))
]

-- For blocks of which `b1` have `dl` data code words and `b2` have one more, each code word of each
-- block is fetched by one of the calls of `QRraw_getCode` for data.
pub data_position-onto :
    (b1 b2 dl row col : ℕ)
    → row < b1 + b2
    → col < block_size b1 dl row
    → (count : ℕ) × (count < b1 * dl + b2 * (dl + 1))
      × (data_position (b1 + b2) b1 dl count ≡ (row, col))
data_position-onto b1 b2 dl row col hr hc = elim (dec_lt col dl) [
  | yes full ↦ (
    col * (b1 + b2) + row,
    omega (arith, total-columns b1 b2 dl, columns-le col dl (b1 + b2) full),
    full_column b1 b2 dl row col hr full,
  )
  | no last ↦
      let (longer, at_end) = longer_block b1 dl row col hc (omega arith) in
      (
        dl * (b1 + b2) + (row - b1),
        omega (arith, total-columns b1 b2 dl),
        last_column b1 b2 dl (row - b1) (omega arith)
            ∙ ap₂ (λ r c. (r, c)) {x = row - b1 + b1} {y = row} (omega arith) (sym at_end),
      )
]

-- A quotient and a remainder of a number below `dl` columns and `b2` more.
columns_below :
    (q r n dl b2 : ℕ) → q * n + r < dl * n + b2 → r < n → b2 ≤ n → (q < dl) ⊎ ((q ≡ dl) × (r < b2))
columns_below q r n dl b2 h hr hb = elim (dec_lt q dl) [
  | yes low ↦ inl low
  | no high ↦ elim (dec_lt dl q) [
    | yes over ↦ absurd (omega (arith, columns-le dl q n over))
    | no same ↦ let e : q ≡ dl = omega arith in inr (e, omega (arith, ap (λ t. t * n) e))
  ]
]

-- For blocks of which `b1` have `dl` data code words and `b2` have one more, each of the calls of
-- `QRraw_getCode` for data fetches a code word inside a block.
pub data_position-inside :
    (b1 b2 dl count : ℕ)
    → count < b1 * dl + b2 * (dl + 1)
    → let (row, col) = data_position (b1 + b2) b1 dl count in
      (row < b1 + b2) × (col < block_size b1 dl row)
unfolding data_position
data_position-inside b1 b2 dl count h =
    elim (columns_below (count / (b1 + b2)) (count % (b1 + b2)) (b1 + b2) dl b2
      (omega (arith, mod-add-div' count (b1 + b2), total-columns b1 b2 dl)) small (omega arith)) [
        | inl low ↦
            rw (lt→leb dl (count / (b1 + b2)) low) (small, any_block (count % (b1 + b2)) low)
        | inr (same, short) ↦
            let longer : block_size b1 dl (count % (b1 + b2) + b1) ≡ dl + 1 =
              rw (lt→leb (count % (b1 + b2) + b1 + 1) b1 (omega arith)) refl in
            rw (le→leb dl (count / (b1 + b2)) (omega (arith, same)))
              (omega (arith, short), omega (arith, same, longer))
      ]
  where
    some_block : 0 < b1 + b2
    some_block = elim (dec_lt 0 (b1 + b2)) [
      | yes p ↦ p
      | no none_at_all ↦
          let no1 : b1 * dl ≡ 0 * dl = ap (λ t. t * dl) {x = b1} {y = 0} (omega arith) in
          let no2 : b2 * (dl + 1) ≡ 0 * (dl + 1) =
            ap (λ t. t * (dl + 1)) {x = b2} {y = 0} (omega arith) in
          absurd (omega (arith, no1, no2))
    ]

    small : count % (b1 + b2) < b1 + b2
    small = mod-lt count some_block

    any_block : (row : ℕ) {q : ℕ} → q < dl → q < block_size b1 dl row
    any_block row low = either (leb (row + 1) b1) low
      where
        either : (b : Bool) {q : ℕ} → q < dl → q < (if b then dl else dl + 1)
        either true low = low
        either false low = omega arith
