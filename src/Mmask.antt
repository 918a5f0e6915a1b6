-- ===== src/Mmask.antt =====
-- mmask.c: the masks of Micro QR Code, its format information and the evaluation that chooses a
-- mask. A symbol is the list of its modules, as in mask.c. MASKMAKER is that of mask.c but for the
-- count of dark modules, which is dropped. `none` stands for NULL; allocation succeeds.
pub mod Choice
mod Tests
use libqrencode.Prelude.{
  ℕ, zero, suc, ◌+◌, ◌-◌, ◌*◌, ◌/◌, ◌%◌, bit_and, bit_or, List, Option, none, some, get_or, set,
  ltb, leb, ◌==◌, if◌then◌else◌,
}
use libqrencode.Api.{RecLevel}
use libqrencode.MqrSpec
use libqrencode.Mask.{mask_maker}

-- The first loop: the rounds left, from `i` on. It returns the rest of the format word too.
unfoldable pub write_format_low : ℕ → ℕ → ℕ → List ℕ → ℕ → List ℕ × ℕ
write_format_low zero i width frame format = (frame, format)
write_format_low (suc n) i width frame format =
    let v = bit_or 0x84 (bit_and format 1) in
    write_format_low n (i + 1) width (set frame (width * (i + 1) + 8) v) (format / 2)

-- The second loop.
unfoldable pub write_format_high : ℕ → ℕ → ℕ → List ℕ → ℕ → List ℕ
write_format_high zero i width frame format = frame
write_format_high (suc n) i width frame format =
    let v = bit_or 0x84 (bit_and format 1) in
    write_format_high n (i + 1) width (set frame (width * 8 + 7 - i) v) (format / 2)

unfoldable pub write_format_information : ℕ → ℕ → List ℕ → ℕ → RecLevel → List ℕ
unfolding write_format_low write_format_high
write_format_information version width frame mask level =
    let (low, rest) =
      write_format_low 8 0 width frame (MqrSpec.get_format_info mask version level) in
    write_format_high 7 0 width low rest

-- The expressions of the four mask functions; a mask above 3 is no index of `maskMakers`.
unfoldable pub mask_expression : ℕ → ℕ → ℕ → ℕ
mask_expression mask x y =
    if mask == 0
    then bit_and y 1
    else if mask == 1
    then bit_and (y / 2 + x / 3) 1
    else if mask == 2
    then bit_and (bit_and (x * y) 1 + x * y % 3) 1
    else bit_and (bit_and (x + y) 1 + x * y % 3) 1

-- `maskMakers[mask]` and the format information.
unfoldable pub apply_mask : ℕ → ℕ → List ℕ → ℕ → RecLevel → List ℕ
unfolding mask_expression write_format_information
apply_mask version width frame mask level =
    write_format_information version width (mask_maker (mask_expression mask) width 0 0 frame).0
      mask level

unfoldable pub make_mask : ℕ → List ℕ → ℕ → RecLevel → Option (List ℕ)
unfolding apply_mask
make_mask version frame mask level =
    if leb 4 mask
    then none
    else some (apply_mask version (MqrSpec.get_width version) frame mask level)

-- The dark ones of `n` modules, from the position `p` on.
unfoldable pub dark_sum : ℕ → ℕ → ℕ → List ℕ → ℕ
dark_sum zero step p frame = 0
dark_sum (suc n) step p frame = bit_and (get_or frame p 0) 1 + dark_sum n step (p + step) frame

unfoldable pub evaluate_symbol : ℕ → List ℕ → ℕ
unfolding dark_sum
evaluate_symbol width frame =
    let sum1 = dark_sum (width - 1) 1 (width * (width - 1) + 1) frame in
    let sum2 = dark_sum (width - 1) width (width * 2 - 1) frame in
    if leb sum1 sum2 then sum1 * 16 + sum2 else sum2 * 16 + sum1

-- A symbol with the mask `i` and its score.
unfoldable pub candidate : ℕ → List ℕ → RecLevel → ℕ → List ℕ × ℕ
unfolding apply_mask evaluate_symbol
candidate version frame level i =
    let width = MqrSpec.get_width version in
    let masked = apply_mask version width frame i level in (masked, evaluate_symbol width masked)

-- The loop over the masks, with the best symbol so far and its score.
unfoldable pub mask_loop : ℕ → ℕ → (ℕ → List ℕ × ℕ) → Option (List ℕ) → ℕ → Option (List ℕ)
mask_loop zero i symbol best score = best
mask_loop (suc n) i symbol best score =
    let rest_better = mask_loop n (i + 1) symbol (some (symbol i).0) (symbol i).1 in
    let rest = mask_loop n (i + 1) symbol best score in
    if ltb score (symbol i).1 then rest_better else rest

unfoldable pub mask : ℕ → List ℕ → RecLevel → Option (List ℕ)
unfolding candidate mask_loop
mask version frame level = mask_loop 4 0 (candidate version frame level) none 0
