-- ===== src/Filler.antt =====
-- qrencode.c, frame filling: `FrameFiller` and its test functions. The pointer that
-- `FrameFiller_next` returns is the position of the module in the frame, and `none` is NULL.
-- The coordinates of a filler are in the frame; those that would leave it below 0 are the branches
-- that give `none`.
pub mod Order
pub mod Path
pub mod Ending
pub mod Count
pub mod Marks
pub mod Capacity
pub mod Room
mod Tests
use libqrencode.Prelude.{
  ℕ, zero, suc, ◌+◌, ◌-◌, ◌*◌, bit_and, bit_or, Bool, true, false, not, ◌&&◌, List, [], ◌∷◌, Option,
  none, some, ◌>>=◌, get_or, set, ltb, ◌==◌, if◌then◌else◌,
}
use libqrencode.Api.{level_l}
use libqrencode.QrSpec
use libqrencode.QrSpec.Frame as QrFrame
use libqrencode.MqrSpec
use libqrencode.MqrSpec.Frame as MqrFrame

-- The field `dir`: -1 and 1.
pub data Direction : Type 0 where
  upward downward : Direction

-- The field `bit`: -1, 0 and 1.
pub data Side : Type 0 where
  start right left : Side

pub record FrameFiller : Type 0 where
  pub width : ℕ
  pub frame : List ℕ
  pub x : ℕ
  pub y : ℕ
  pub dir : Direction
  pub bit : Side
  pub mqr : Bool

unfoldable pub filler_set : ℕ → List ℕ → Bool → FrameFiller
filler_set width frame mqr = record {
  width = width;
  frame = frame;
  x = width - 1;
  y = width - 1;
  dir = upward;
  bit = start;
  mqr = mqr;
}

abbrev pub position : FrameFiller → ℕ
position f = f.y * f.width + f.x

-- At the upper or the lower edge, where `f.x` is the left column of the pair: the next pair of
-- columns, from the row `y`, or from `skip_y` where the pair would be at the timing pattern.
-- `none` where a coordinate would be negative.
unfoldable pub turn : FrameFiller → Direction → ℕ → Option ℕ → Option FrameFiller
turn f dir y skip_y =
    let skipped =
      skip_y >>= (λ row. some (record f { x = f.x - 2; y = row; dir = dir; bit = right })) in
    if f.x == 0
    then none
    else if not f.mqr && f.x - 1 == 6
    then skipped
    else some (record f { x = f.x - 1; y = y; dir = dir; bit = right })

-- From a left module to the right one of the next row, or past the edge.
unfoldable pub next_row : FrameFiller → Direction → Option FrameFiller
unfolding turn
next_row f upward =
    if f.y == 0
    then turn f downward 0 (some 9)
    else some (record f { x = f.x + 1; y = f.y - 1; bit = right })
next_row f downward =
    if f.y + 1 == f.width
    then turn f upward (f.width - 1) (if ltb f.width 9 then none else some (f.width - 9))
    else some (record f { x = f.x + 1; y = f.y + 1; bit = right })

-- The move of `FrameFiller_next` before it looks at the frame.
unfoldable pub move : FrameFiller → Side → Option FrameFiller
unfolding next_row
move f start = some (record f { bit = right })
move f right = if f.x == 0 then none else some (record f { x = f.x - 1; bit = left })
move f left = next_row f f.dir

-- The call of `FrameFiller_next` on itself, bounded by fuel; the first module is not looked at.
unfoldable pub next_loop : ℕ → FrameFiller → Option FrameFiller
unfolding move
next_loop zero f = none
next_loop (suc n) f = do
  f' ← move f f.bit
  if bit_and (get_or f'.frame (position f') 0) 0x80 == 0 then some f' else next_loop n f'

abbrev pub fuel : FrameFiller → ℕ
fuel f = f.width * f.width + f.width

abbrev pub is_start : Side → Bool
is_start start = true
is_start _ = false

unfoldable pub next : FrameFiller → Option FrameFiller
unfolding move next_loop
next f = if is_start f.bit then move f f.bit else next_loop (fuel f) f

-- `*p = v`
abbrev pub write : ℕ → FrameFiller → FrameFiller
write v f = record f { frame = set f.frame (position f) v }

-- The loop of the test functions, with the rounds left.
unfoldable pub test_loop : ℕ → ℕ → FrameFiller → Option FrameFiller
unfolding next
test_loop zero i f = some f
test_loop (suc n) i f = do
  f' ← next f
  test_loop n (i + 1) (write (bit_or (bit_and i 0x7f) 0x80) f')

unfoldable pub test : ℕ → Option (List ℕ)
unfolding filler_set test_loop
test version = do
  frame ← QrFrame.new_frame version
  let code_words = QrSpec.get_data_length version level_l + QrSpec.get_ecc_length version level_l
  let n = code_words * 8 + QrSpec.get_remainder version
  f ← test_loop n 0 (filler_set (QrSpec.get_width version) frame false)
  some f.frame

-- The loop that leaves off where there is no module left.
unfoldable pub test_loop_mqr : ℕ → ℕ → FrameFiller → List ℕ
unfolding next
test_loop_mqr zero i f = f.frame
test_loop_mqr (suc n) i f = elim (next f) [
  | none ↦ f.frame
  | some f' ↦ test_loop_mqr n (i + 1) (write (bit_or (bit_and i 0x7f) 0x80) f')
]

unfoldable pub test_mqr : ℕ → Option (List ℕ)
unfolding filler_set test_loop_mqr
test_mqr version = do
  frame ← MqrFrame.new_frame version
  let n = MqrSpec.get_data_length_bit version level_l + MqrSpec.get_ecc_length version level_l * 8
  some (test_loop_mqr n 0 (filler_set (MqrSpec.get_width version) frame true))
