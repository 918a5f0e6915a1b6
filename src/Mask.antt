-- ===== src/Mask.antt =====
-- mask.c: the masks of QR Code, the format information in the symbol, and the evaluation that
-- chooses a mask. A symbol is the list of its modules, row by row; the lowest bit of a module is
-- its colour, and 0x80 marks a module of the function patterns. A write outside the symbol would
-- change nothing here. `errno` is not kept, and allocation succeeds.
pub mod Demerit
pub mod Modules
pub mod Standard
pub mod Runs
pub mod Choice
pub mod Bound
mod Tests
use libqrencode.Prelude.{
  ℕ, zero, suc, ◌+◌, ◌-◌, ◌*◌, ◌/◌, ◌%◌, ◌^◌, bit_and, bit_or, bit_xor, Bool, ◌&&◌, ◌||◌, List, [],
  ◌∷◌, Option, none, some, length, get_or, set, replicate, ltb, leb, ◌==◌, if◌then◌else◌,
}
use libqrencode.Api.{RecLevel}
use libqrencode.QrSpec

-- `v` for the lowest bit of the format word.
abbrev pub format_module : ℕ → ℕ
format_module format = if bit_and format 1 == 0 then 0x84 else 0x85

-- What a set bit adds to `blacks`, for its two modules.
abbrev pub format_blacks : ℕ → ℕ
format_blacks format = if bit_and format 1 == 0 then 0 else 2

-- The first loop: the rounds left, from `i` on, with the rest of the format word. It returns the
-- symbol, `blacks` and the word.
unfoldable pub write_format_low : ℕ → ℕ → ℕ → List ℕ → ℕ → ℕ → List ℕ × ℕ × ℕ
write_format_low zero i width frame blacks format = (frame, blacks, format)
write_format_low (suc n) i width frame blacks format =
    let v = format_module format in
    let right = set frame (width * 8 + width - 1 - i) v in
    let both = set right (if ltb i 6 then width * i + 8 else width * (i + 1) + 8) v in
    write_format_low n (i + 1) width both (blacks + format_blacks format) (format / 2)

-- The second loop.
unfoldable pub write_format_high : ℕ → ℕ → ℕ → List ℕ → ℕ → ℕ → List ℕ × ℕ
write_format_high zero i width frame blacks format = (frame, blacks)
write_format_high (suc n) i width frame blacks format =
    let v = format_module format in
    let bottom = set frame (width * (width - 7 + i) + 8) v in
    let both = set bottom (if i == 0 then width * 8 + 7 else width * 8 + 6 - i) v in
    write_format_high n (i + 1) width both (blacks + format_blacks format) (format / 2)

unfoldable pub write_format_information : ℕ → List ℕ → ℕ → RecLevel → List ℕ × ℕ
unfolding write_format_low write_format_high
write_format_information width frame mask level =
    let (low, blacks, rest) =
      write_format_low 8 0 width frame 0 (QrSpec.get_format_info mask level) in
    write_format_high 7 0 width low blacks rest

-- The expressions of the eight mask functions; a mask above 7 is no index of `maskMakers`.
unfoldable pub mask_expression : ℕ → ℕ → ℕ → ℕ
mask_expression mask x y =
    if mask == 0
    then bit_and (x + y) 1
    else if mask == 1
    then bit_and y 1
    else if mask == 2
    then x % 3
    else if mask == 3
    then (x + y) % 3
    else if mask == 4
    then bit_and (y / 2 + x / 3) 1
    else if mask == 5
    then bit_and (x * y) 1 + x * y % 3
    else if mask == 6
    then bit_and (bit_and (x * y) 1 + x * y % 3) 1
    else bit_and (x * y % 3 + bit_and (x + y) 1) 1

-- The module that MASKMAKER writes for the module `s`.
unfoldable pub mask_module : ℕ → ℕ → ℕ
mask_module expression s =
    if bit_and s 0x80 == 0 then bit_xor s (if expression == 0 then 1 else 0) else s

-- MASKMAKER from the column `x` and the row `y` on: the masked modules and the number `b` of dark
-- ones. The loops run over width * width modules, which are all modules of the symbol.
unfoldable pub mask_maker : (ℕ → ℕ → ℕ) → ℕ → ℕ → ℕ → List ℕ → List ℕ × ℕ
unfolding mask_module
mask_maker expression width x y [] = ([], 0)
mask_maker expression width x y (s ∷ rest) =
    let d = mask_module (expression x y) s in
    let (ds, b) =
      if x + 1 == width
      then mask_maker expression width 0 (y + 1) rest
      else mask_maker expression width (x + 1) y rest in
    (d ∷ ds, bit_and d 1 + b)

-- `maskMakers[mask]`
unfoldable pub apply_mask : ℕ → ℕ → List ℕ → List ℕ × ℕ
unfolding mask_maker mask_expression
apply_mask mask width frame = mask_maker (mask_expression mask) width 0 0 frame

unfoldable pub make_mask : ℕ → List ℕ → ℕ → RecLevel → Option (List ℕ)
unfolding apply_mask write_format_information
make_mask width frame mask level =
    let (masked, b) = apply_mask mask width frame in
    let (written, blacks) = write_format_information width masked mask level in
    if leb 8 mask then none else some written
