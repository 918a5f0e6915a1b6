-- ===== src/Mask/Bound.antt =====
-- The demerits of mask.c are below INT_MAX for every symbol of up to 177 * 177 modules, so that a
-- mask is always chosen.
use native.Mathlib.Nat.{mul-le-mul, div-lt_iff_lt-mul}
use libqrencode.Prelude.Bits.{bit_and-one}
use libqrencode.Prelude.{
  ℕ, zero, suc, ◌+◌, ◌-◌, ◌*◌, ◌/◌, ◌≤◌, ◌<◌, bit_and, Bool, true, false, List, [], ◌∷◌, ◌≡◌, inl,
  inr, refl, ap, length, get_or, drop, replicate, ◌==◌, if◌then◌else◌, arith,
}
use libqrencode.Prelude.Int.{ℤ, pos, pos_part}
use libqrencode.Api.{RecLevel}
use libqrencode.QrSpec
use libqrencode.Mask.{
  apply_mask, write_format_information, write_format_low, write_format_high, format_blacks,
}
use libqrencode.Mask.Demerit.{
  long_run, is_finder, run_lengths, n1n3_loop, calc_n1n3, block_demerit, n2_row, n2_rows, calc_n2,
  line, calc_run_length_h, calc_run_length_v, rows_demerit, columns_demerit, evaluate_symbol,
  ratio_demerit, candidate, mask_loop, int_max, mask,
}
use libqrencode.Mask.Modules.{darks, apply_mask_lem}
use libqrencode.Mask.Runs.{total, run_lengths-bounds}
use libqrencode.Mask.Choice.{LoopResult, mask_loop-LoopResult}

total-drop :
    (runs : List ℤ) (i : ℕ)
    → total (drop i runs) ≡ pos_part (get_or runs i (pos 0)) + total (drop (suc i) runs)
unfolding total
total-drop [] zero = refl
total-drop [] (suc i) = refl
total-drop (r ∷ rs) zero = refl
total-drop (r ∷ rs) (suc i) = total-drop rs i

long_run-le : (r : ℤ) → long_run r ≤ pos_part r
unfolding long_run
long_run-le r = ground arith

once : (c : Bool) → (if c then 40 else 0) ≤ 40
once true = omega arith
once false = omega arith

n1n3_loop-le : (n i : ℕ) (runs : List ℤ) → n1n3_loop n i runs ≤ 40 * n + total (drop i runs)
unfolding n1n3_loop
n1n3_loop-le zero i runs = omega arith
n1n3_loop-le (suc n) i runs =
    let next : i + 1 ≡ suc i = omega arith in
    omega (
      arith,
      long_run-le (get_or runs i (pos 0)),
      once (is_finder runs i),
      n1n3_loop-le n (i + 1) runs,
      ap (λ k. total (drop k runs)) next,
      total-drop runs i,
    )

length-line : (n step p : ℕ) (frame : List ℕ) → length (line n step p frame) ≡ n
unfolding line
length-line zero step p frame = refl
length-line (suc n) step p frame = ap suc (length-line n step (p + step) frame)

line_demerit :
    (width step p : ℕ) (frame : List ℕ)
    → width ≤ 177
    → calc_n1n3 (run_lengths (line width step p frame)) ≤ 7297
unfolding calc_n1n3
line_demerit width step p frame h =
    let bounds = run_lengths-bounds (line width step p frame) in
    omega (
      arith,
      n1n3_loop-le (length (run_lengths (line width step p frame))) 0
          (run_lengths (line width step p frame)),
      bounds.0,
      bounds.1,
      length-line width step p frame,
    )

rows_demerit-le :
    (n y width : ℕ) (frame : List ℕ) → width ≤ 177 → rows_demerit n y width frame ≤ n * 7297
unfolding rows_demerit calc_run_length_h
rows_demerit-le zero y width frame h = omega arith
rows_demerit-le (suc n) y width frame h =
    omega (arith, line_demerit width 1 (y * width) frame h, rows_demerit-le n (y + 1) width frame h)

columns_demerit-le :
    (n x width : ℕ) (frame : List ℕ) → width ≤ 177 → columns_demerit n x width frame ≤ n * 7297
unfolding columns_demerit calc_run_length_v
columns_demerit-le zero x width frame h = omega arith
columns_demerit-le (suc n) x width frame h =
    omega (arith, line_demerit width width x frame h, columns_demerit-le n (x + 1) width frame h)

block_demerit-le : (width : ℕ) (frame : List ℕ) (p : ℕ) → block_demerit width frame p ≤ 3
unfolding block_demerit
block_demerit-le width frame p = three _
  where
    three : (c : Bool) → (if c then 0 else 3) ≤ 3
    three true = omega arith
    three false = omega arith

n2_row-le : (n width : ℕ) (frame : List ℕ) (p : ℕ) → n2_row n width frame p ≤ n * 3
unfolding n2_row
n2_row-le zero width frame p = omega arith
n2_row-le (suc n) width frame p =
    omega (arith, block_demerit-le width frame p, n2_row-le n width frame (p + 1))

n2_rows-le :
    (n width : ℕ) (frame : List ℕ) (p : ℕ) → width ≤ 177 → n2_rows n width frame p ≤ n * 528
unfolding n2_rows
n2_rows-le zero width frame p h = omega arith
n2_rows-le (suc n) width frame p h =
    omega (arith, n2_row-le (width - 1) width frame p, n2_rows-le n width frame (p + width) h)

evaluate_symbol-le :
    (width : ℕ) (frame : List ℕ) → width ≤ 177 → evaluate_symbol width frame ≤ 2676066
unfolding evaluate_symbol calc_n2
evaluate_symbol-le width frame h = omega (
  arith,
  n2_rows-le (width - 1) width frame (width + 1) h,
  rows_demerit-le width 0 width frame h,
  columns_demerit-le width 0 width frame h,
)

darks-le : (ms : List ℕ) → darks ms ≤ length ms
unfolding darks
darks-le [] = omega arith
darks-le (m ∷ ms) = omega (arith, bit_and-one m, darks-le ms)

format_blacks-le : (format : ℕ) → format_blacks format ≤ 2
format_blacks-le format = two (bit_and format 1 == 0)
  where
    two : (c : Bool) → (if c then 0 else 2) ≤ 2
    two true = omega arith
    two false = omega arith

write_format_low-blacks :
    (n i width : ℕ) (frame : List ℕ) (blacks format : ℕ)
    → (write_format_low n i width frame blacks format).1 ≤ blacks + 2 * n
unfolding write_format_low
write_format_low-blacks zero i width frame blacks format = omega arith
write_format_low-blacks (suc n) i width frame blacks format = omega (
  arith,
  format_blacks-le format,
  write_format_low-blacks n (i + 1) width _ (blacks + format_blacks format) (format / 2),
)

write_format_high-blacks :
    (n i width : ℕ) (frame : List ℕ) (blacks format : ℕ)
    → (write_format_high n i width frame blacks format).1 ≤ blacks + 2 * n
unfolding write_format_high
write_format_high-blacks zero i width frame blacks format = omega arith
write_format_high-blacks (suc n) i width frame blacks format = omega (
  arith,
  format_blacks-le format,
  write_format_high-blacks n (i + 1) width _ (blacks + format_blacks format) (format / 2),
)

-- The format information has 15 modules, twice.
write_format_information-blacks :
    (width : ℕ) (frame : List ℕ) (mask : ℕ) (level : RecLevel)
    → (write_format_information width frame mask level).1 ≤ 30
unfolding write_format_information
write_format_information-blacks width frame mask level =
    let format = QrSpec.get_format_info mask level in
    let low = write_format_low 8 0 width frame 0 format in
    omega (
      arith,
      write_format_low-blacks 8 0 width frame 0 format,
      write_format_high-blacks 7 0 width low.0 low.1 low.2,
    )

quotient-lt : (x n : ℕ) → x < 6202 * n → x / n < 6202
quotient-lt x n h = (div-lt_iff_lt-mul {k = n} {x = x} {y = 6202} (omega arith)).1 h

ratio_demerit-le : (blacks w2 : ℕ) → 0 < w2 → blacks ≤ w2 + 30 → ratio_demerit blacks w2 ≤ 6200
unfolding ratio_demerit
ratio_demerit-le blacks w2 wide h =
    let q : (200 * blacks + w2) / w2 < 6202 = quotient-lt (200 * blacks + w2) w2 (omega arith) in
    ground (arith, q)

candidate-lt :
    (width : ℕ) (frame : List ℕ) (level : RecLevel) (i : ℕ)
    → 0 < width
    → width ≤ 177
    → length frame ≡ width * width
    → (candidate width frame level i).1 < int_max
unfolding candidate
candidate-lt width frame level i wide h size =
    let (kept, count, modules) = apply_mask_lem i width frame wide in
    let masked = (apply_mask i width frame).0 in
    let written = write_format_information width masked i level in
    let dark : (apply_mask i width frame).1 + written.1 ≤ width * width + 30 = omega (
      arith,
      count,
      darks-le masked,
      kept,
      size,
      write_format_information-blacks width masked i level,
    ) in
    omega (
      arith,
      ratio_demerit-le ((apply_mask i width frame).1 + written.1) (width * width)
          (mul-le-mul wide wide) dark,
      evaluate_symbol-le width written.0 h,
    )

-- For a symbol of width from 1 to 177 with width * width modules, `Mask_mask` returns the symbol with
-- the mask, and its format information, that has the fewest demerits of the eight, and with the
-- first such mask.
pub mask_lem :
    (width : ℕ) (frame : List ℕ) (level : RecLevel)
    → 0 < width
    → width ≤ 177
    → length frame ≡ width * width
    → (k : ℕ) × (k < 8)
      × (mask width frame level ≡ (candidate width frame level k).0)
      × ((j : ℕ) → j < 8 → (candidate width frame level k).1 ≤ (candidate width frame level j).1)
      × ((j : ℕ) → j < k → (candidate width frame level k).1 < (candidate width frame level j).1)
unfolding mask
mask_lem width frame level wide h size = chosen (mask_loop-LoopResult 8 0 symbol start int_max)
  where
    symbol : ℕ → List ℕ × ℕ
    symbol = candidate width frame level

    start : List ℕ
    start = replicate (width * width) 0

    chosen :
        LoopResult 0 8 symbol start int_max (mask_loop 8 0 symbol start int_max)
        → (k : ℕ) × (k < 8)
          × (mask_loop 8 0 symbol start int_max ≡ (symbol k).0)
          × ((j : ℕ) → j < 8 → (symbol k).1 ≤ (symbol j).1)
          × ((j : ℕ) → j < k → (symbol k).1 < (symbol j).1)
    chosen (inl (same, least)) = absurd (
        omega (
          arith,
          least 0 (omega arith) (omega arith),
          candidate-lt width frame level 0 wide h size,
        ))
    chosen (inr (b, less)) = (
      b.choice,
      omega (arith, b.last),
      b.chosen,
      λ j below. b.fewest j (omega arith) (omega arith),
      λ j below. b.earliest j (omega arith) below,
    )
