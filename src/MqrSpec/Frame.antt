-- ===== src/MqrSpec/Frame.antt =====
-- mqrspec.c, the function patterns: `MQRspec_createFrame` and what it calls. Its finder pattern and
-- the loops over columns and the timing pattern are those of qrspec.c. Allocation succeeds.
pub mod Size
use libqrencode.Prelude.{
  ℕ, zero, suc, ◌+◌, ◌-◌, ◌*◌, List, [], ◌∷◌, Option, none, some, set, put, replicate, ltb, ◌||◌,
  if◌then◌else◌,
}
use libqrencode.Api.{mqrspec_version_max}
use libqrencode.QrSpec.Frame.{put_rows, put_column, put_timing}
use libqrencode.MqrSpec.{get_width}

abbrev pub finder_rows : List (List ℕ)
finder_rows =
    (0xc1 ∷ 0xc1 ∷ 0xc1 ∷ 0xc1 ∷ 0xc1 ∷ 0xc1 ∷ 0xc1 ∷ [])
    ∷ (0xc1 ∷ 0xc0 ∷ 0xc0 ∷ 0xc0 ∷ 0xc0 ∷ 0xc0 ∷ 0xc1 ∷ [])
    ∷ (0xc1 ∷ 0xc0 ∷ 0xc1 ∷ 0xc1 ∷ 0xc1 ∷ 0xc0 ∷ 0xc1 ∷ [])
    ∷ (0xc1 ∷ 0xc0 ∷ 0xc1 ∷ 0xc1 ∷ 0xc1 ∷ 0xc0 ∷ 0xc1 ∷ [])
    ∷ (0xc1 ∷ 0xc0 ∷ 0xc1 ∷ 0xc1 ∷ 0xc1 ∷ 0xc0 ∷ 0xc1 ∷ [])
    ∷ (0xc1 ∷ 0xc0 ∷ 0xc0 ∷ 0xc0 ∷ 0xc0 ∷ 0xc0 ∷ 0xc1 ∷ [])
    ∷ (0xc1 ∷ 0xc1 ∷ 0xc1 ∷ 0xc1 ∷ 0xc1 ∷ 0xc1 ∷ 0xc1 ∷ [])
    ∷ []

unfoldable pub put_finder_pattern : List ℕ → ℕ → ℕ → ℕ → List ℕ
unfolding put_rows
put_finder_pattern frame width ox oy = put_rows width finder_rows frame (oy * width + ox)

unfoldable pub create_frame : ℕ → List ℕ
unfolding put_finder_pattern put_column put_timing get_width
create_frame version =
    let width = get_width version in
    let finder = put_finder_pattern (replicate (width * width) 0) width 0 0 in
    let separators = put (put_column 7 width 0xc0 finder 7) (width * 7) (replicate 8 0xc0) in
    let row = put separators (width * 8 + 1) (replicate 8 0x84) in
    let column = put_column 7 width 0x84 row (width + 8) in
    put_timing (width - 8) 1 width column 8 (width * 8)

unfoldable pub new_frame : ℕ → Option (List ℕ)
unfolding create_frame
new_frame version =
    if ltb version 1 || ltb mqrspec_version_max version then none else some (create_frame version)
