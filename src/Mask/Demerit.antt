-- ===== src/Mask/Demerit.antt =====
-- mask.c, the evaluation of a masked symbol and the choice of the mask.
use libqrencode.Prelude.{
  ℕ, zero, suc, ◌+◌, ◌-◌, ◌*◌, ◌/◌, ◌^◌, bit_and, bit_or, bit_xor, Bool, ◌&&◌, ◌||◌, List, [], ◌∷◌,
  length, get_or, replicate, ltb, leb, ◌==◌, if◌then◌else◌,
}
use libqrencode.Prelude.Int.{ℤ, pos, negsuc, pos_part, leb_ℤ, eq_ℤ, quot_ℤ, divides_ℤ, mul_ℤ}
use libqrencode.Api.{RecLevel}
use libqrencode.Mask.{apply_mask, write_format_information}

-- The demerit of one run, and of a finder pattern around it. `runs` is `runLength`, its length
-- `length`; its entries are of the type int.
unfoldable pub long_run : ℤ → ℕ
long_run run = if leb_ℤ (pos 5) run then 3 + (pos_part run - 5) else 0

abbrev pub is_finder : List ℤ → ℕ → Bool
is_finder runs i =
    let run = λ (k : ℕ). get_or runs k (pos 0) in
    let fact = quot_ℤ (run i) 3 in
    (bit_and i 1 == 1)
    && leb 3 i
    && ltb (i + 2) (length runs)
    && divides_ℤ 3 (run i)
    && eq_ℤ (run (i - 2)) fact
    && eq_ℤ (run (i - 1)) fact
    && eq_ℤ (run (i + 1)) fact
    && eq_ℤ (run (i + 2)) fact
    && ((i == 3)
        || leb_ℤ (mul_ℤ 4 fact) (run (i - 3))
        || leb (length runs) (i + 4)
        || leb_ℤ (mul_ℤ 4 fact) (run (i + 3)))

-- The loop on `i`, with the rounds left.
unfoldable pub n1n3_loop : ℕ → ℕ → List ℤ → ℕ
unfolding long_run
n1n3_loop zero i runs = 0
n1n3_loop (suc n) i runs =
    long_run (get_or runs i (pos 0))
    + (if is_finder runs i then 40 else 0)
    + n1n3_loop n (i + 1) runs

unfoldable pub calc_n1n3 : List ℤ → ℕ
unfolding n1n3_loop
calc_n1n3 runs = n1n3_loop (length runs) 0 runs

-- A block of 2 * 2 modules that ends at the position `p`.
unfoldable pub block_demerit : ℕ → List ℕ → ℕ → ℕ
block_demerit width frame p =
    let m = λ (k : ℕ). get_or frame k 0 in
    let b22 = bit_and (bit_and (bit_and (m p) (m (p - 1))) (m (p - width))) (m (p - width - 1)) in
    let w22 = bit_or (bit_or (bit_or (m p) (m (p - 1))) (m (p - width))) (m (p - width - 1)) in
    if bit_and (bit_or b22 (bit_xor w22 1)) 1 == 0 then 0 else 3

-- The loop on `x`.
unfoldable pub n2_row : ℕ → ℕ → List ℕ → ℕ → ℕ
unfolding block_demerit
n2_row zero width frame p = 0
n2_row (suc n) width frame p = block_demerit width frame p + n2_row n width frame (p + 1)

-- The loop on `y`.
unfoldable pub n2_rows : ℕ → ℕ → List ℕ → ℕ → ℕ
unfolding n2_row
n2_rows zero width frame p = 0
n2_rows (suc n) width frame p = n2_row (width - 1) width frame p + n2_rows n width frame (p + width)

unfoldable pub calc_n2 : ℕ → List ℕ → ℕ
unfolding n2_rows
calc_n2 width frame = n2_rows (width - 1) width frame (width + 1)

-- The loop of the two functions that compute run lengths, over the modules left: `prev` is the
-- colour of the current run and `count` its length so far.
unfoldable pub run_loop : List ℕ → ℕ → ℕ → List ℤ
run_loop [] prev count = pos count ∷ []
run_loop (m ∷ ms) prev count =
    if bit_and (bit_xor m prev) 1 == 0
    then run_loop ms prev (count + 1)
    else pos count ∷ run_loop ms m 1

-- The run lengths of a line, with -1 in front if the line starts with a dark module.
unfoldable pub run_lengths : List ℕ → List ℤ
unfolding run_loop
run_lengths [] = []
run_lengths (m ∷ ms) = if bit_and m 1 == 0 then run_loop ms m 1 else negsuc 0 ∷ run_loop ms m 1

-- The modules at the positions `p`, `p + step` and so on.
unfoldable pub line : ℕ → ℕ → ℕ → List ℕ → List ℕ
line zero step p frame = []
line (suc n) step p frame = get_or frame p 0 ∷ line n step (p + step) frame

unfoldable pub calc_run_length_h : ℕ → List ℕ → ℕ → List ℤ
unfolding line run_lengths
calc_run_length_h width frame y = run_lengths (line width 1 (y * width) frame)

unfoldable pub calc_run_length_v : ℕ → List ℕ → ℕ → List ℤ
unfolding line run_lengths
calc_run_length_v width frame x = run_lengths (line width width x frame)

-- The loops over the rows and the columns.
unfoldable pub rows_demerit : ℕ → ℕ → ℕ → List ℕ → ℕ
unfolding calc_n1n3 calc_run_length_h
rows_demerit zero y width frame = 0
rows_demerit (suc n) y width frame =
    calc_n1n3 (calc_run_length_h width frame y) + rows_demerit n (y + 1) width frame

unfoldable pub columns_demerit : ℕ → ℕ → ℕ → List ℕ → ℕ
unfolding calc_n1n3 calc_run_length_v
columns_demerit zero x width frame = 0
columns_demerit (suc n) x width frame =
    calc_n1n3 (calc_run_length_v width frame x) + columns_demerit n (x + 1) width frame

unfoldable pub evaluate_symbol : ℕ → List ℕ → ℕ
unfolding calc_n2 rows_demerit columns_demerit
evaluate_symbol width frame =
    calc_n2 width frame + rows_demerit width 0 width frame + columns_demerit width 0 width frame

abbrev pub distance : ℕ → ℕ → ℕ
distance a b = if leb a b then b - a else a - b

-- The part of the demerit for the share of dark modules; `w2` is width * width.
unfoldable pub ratio_demerit : ℕ → ℕ → ℕ
ratio_demerit blacks w2 = distance ((200 * blacks + w2) / w2 / 2) 50 / 5 * 10

-- A symbol with the mask `i` and its demerit.
unfoldable pub candidate : ℕ → List ℕ → RecLevel → ℕ → List ℕ × ℕ
unfolding apply_mask write_format_information ratio_demerit evaluate_symbol
candidate width frame level i =
    let (masked, blacks) = apply_mask i width frame in
    let (written, more) = write_format_information width masked i level in
    (written, ratio_demerit (blacks + more) (width * width) + evaluate_symbol width written)

-- The loop over the masks, with the best symbol so far and its demerit.
unfoldable pub mask_loop : ℕ → ℕ → (ℕ → List ℕ × ℕ) → List ℕ → ℕ → List ℕ
mask_loop zero i symbol best demerit = best
mask_loop (suc n) i symbol best demerit =
    let rest_better = mask_loop n (i + 1) symbol (symbol i).0 (symbol i).1 in
    let rest = mask_loop n (i + 1) symbol best demerit in
    if ltb (symbol i).1 demerit then rest_better else rest

abbrev pub int_max : ℕ
int_max = 2 ^ 31 - 1

-- The memory of the best symbol holds zeros at first here.
unfoldable pub mask : ℕ → List ℕ → RecLevel → List ℕ
unfolding candidate mask_loop
mask width frame level =
    mask_loop 8 0 (candidate width frame level) (replicate (width * width) 0) int_max
