-- ===== src/QrSpec/Frame.antt =====
-- qrspec.c, the function patterns: `QRspec_createFrame` and what it calls. A frame is the list of its
-- modules, row by row, and a pointer into it is a position. A write outside the frame would change
-- nothing here. Allocation succeeds.
pub mod Size
pub mod Marks
pub mod MarkAlignment
pub mod MarkFrame
use libqrencode.Prelude.{
  ℕ, zero, suc, ◌+◌, ◌-◌, ◌*◌, ◌/◌, ◌%◌, bit_and, bit_or, List, [], ◌∷◌, Option, none, some, get_or,
  set, put, replicate, ltb, ◌||◌, ◌==◌, if◌then◌else◌,
}
use libqrencode.Api.{qrspec_version_max}
use libqrencode.QrSpec.Tables.{alignment_pattern}
use libqrencode.QrSpec.{get_width, get_version_pattern}

-- The rows of a pattern, copied to the position `p` and below it.
unfoldable pub put_rows : ℕ → List (List ℕ) → List ℕ → ℕ → List ℕ
put_rows width [] frame p = frame
put_rows width (row ∷ rows) frame p = put_rows width rows (put frame p row) (p + width)

abbrev pub alignment_rows : List (List ℕ)
alignment_rows =
    (0xa1 ∷ 0xa1 ∷ 0xa1 ∷ 0xa1 ∷ 0xa1 ∷ [])
    ∷ (0xa1 ∷ 0xa0 ∷ 0xa0 ∷ 0xa0 ∷ 0xa1 ∷ [])
    ∷ (0xa1 ∷ 0xa0 ∷ 0xa1 ∷ 0xa0 ∷ 0xa1 ∷ [])
    ∷ (0xa1 ∷ 0xa0 ∷ 0xa0 ∷ 0xa0 ∷ 0xa1 ∷ [])
    ∷ (0xa1 ∷ 0xa1 ∷ 0xa1 ∷ 0xa1 ∷ 0xa1 ∷ [])
    ∷ []

unfoldable pub put_alignment_marker : List ℕ → ℕ → ℕ → ℕ → List ℕ
unfolding put_rows
put_alignment_marker frame width ox oy =
    put_rows width alignment_rows frame ((oy - 2) * width + ox - 2)

-- The loop that puts the markers of the left and the upper edge, with the rounds left.
unfoldable pub put_edges : ℕ → ℕ → ℕ → ℕ → List ℕ → List ℕ
unfolding put_alignment_marker
put_edges zero width d cx frame = frame
put_edges (suc n) width d cx frame =
    let upper = put_alignment_marker frame width 6 cx in
    put_edges n width d (cx + d) (put_alignment_marker upper width cx 6)

-- The loops over the markers inside.
unfoldable pub put_marker_row : ℕ → ℕ → ℕ → ℕ → ℕ → List ℕ → List ℕ
unfolding put_alignment_marker
put_marker_row zero width d cx cy frame = frame
put_marker_row (suc n) width d cx cy frame =
    put_marker_row n width d (cx + d) cy (put_alignment_marker frame width cx cy)

unfoldable pub put_marker_rows : ℕ → ℕ → ℕ → ℕ → ℕ → ℕ → List ℕ → List ℕ
unfolding put_marker_row
put_marker_rows zero columns width d first cy frame = frame
put_marker_rows (suc n) columns width d first cy frame =
    put_marker_rows n columns width d first (cy + d) (put_marker_row columns width d first cy frame)

-- `w` where the second position, which is 0 if there is none, is below the first.
unfoldable pub markers_across : ℕ → ℕ → ℕ → ℕ
markers_across first second width =
    if ltb second first then 2 else (width - first) / (second - first) + 2

unfoldable pub put_alignment_pattern : ℕ → List ℕ → ℕ → List ℕ
unfolding put_edges put_marker_rows markers_across alignment_pattern
put_alignment_pattern version frame width =
    let (first, second) = get_or alignment_pattern version (0, 0) in
    let d = second - first in
    let w = markers_across first second width in
    let edges = put_edges (w - 2) width d first frame in
    if ltb version 2
    then frame
    else if w * w - 3 == 1
    then put_alignment_marker frame width first first
    else put_marker_rows (w - 1) (w - 1) width d first first edges

abbrev pub finder_rows : List (List ℕ)
finder_rows =
    (0xc1 ∷ 0xc1 ∷ 0xc1 ∷ 0xc1 ∷ 0xc1 ∷ 0xc1 ∷ 0xc1 ∷ [])
    ∷ (0xc1 ∷ 0xc0 ∷ 0xc0 ∷ 0xc0 ∷ 0xc0 ∷ 0xc0 ∷ 0xc1 ∷ [])
    ∷ (0xc1 ∷ 0xc0 ∷ 0xc1 ∷ 0xc1 ∷ 0xc1 ∷ 0xc0 ∷ 0xc1 ∷ [])
    ∷ (0xc1 ∷ 0xc0 ∷ 0xc1 ∷ 0xc1 ∷ 0xc1 ∷ 0xc0 ∷ 0xc1 ∷ [])
    ∷ (0xc1 ∷ 0xc0 ∷ 0xc1 ∷ 0xc1 ∷ 0xc1 ∷ 0xc0 ∷ 0xc1 ∷ [])
    ∷ (0xc1 ∷ 0xc0 ∷ 0xc0 ∷ 0xc0 ∷ 0xc0 ∷ 0xc0 ∷ 0xc1 ∷ [])
    ∷ (0xc1 ∷ 0xc1 ∷ 0xc1 ∷ 0xc1 ∷ 0xc1 ∷ 0xc1 ∷ 0xc1 ∷ [])
    ∷ []

unfoldable pub put_finder_pattern : List ℕ → ℕ → ℕ → ℕ → List ℕ
unfolding put_rows
put_finder_pattern frame width ox oy = put_rows width finder_rows frame (oy * width + ox)

-- A column of `n` modules, from the position `p` down.
unfoldable pub put_column : ℕ → ℕ → ℕ → List ℕ → ℕ → List ℕ
put_column zero width v frame p = frame
put_column (suc n) width v frame p = put_column n width v (set frame p v) (p + width)

-- The loop of the separators.
unfoldable pub put_separators : ℕ → ℕ → List ℕ → ℕ → ℕ → List ℕ
put_separators zero width frame p q = frame
put_separators (suc n) width frame p q =
    let left = set frame (p + 7) 0xc0 in
    let right = set left (p + width - 8) 0xc0 in
    put_separators n width (set right (q + 7) 0xc0) (p + width) (q + width)

-- The loop of the timing pattern, with the rounds left.
unfoldable pub put_timing : ℕ → ℕ → ℕ → List ℕ → ℕ → ℕ → List ℕ
put_timing zero x width frame p q = frame
put_timing (suc n) x width frame p q =
    let v = bit_or 0x90 (bit_and x 1) in
    put_timing n (x + 1) width (set (set frame p v) q v) (p + 1) (q + width)

-- The two loops of the lower and of the upper version information are one loop each, on
-- i = 3 * x + y and on i = 3 * y + x.
unfoldable pub put_lower_version : ℕ → ℕ → ℕ → List ℕ → ℕ → ℕ → List ℕ
put_lower_version zero i width frame p v = frame
put_lower_version (suc n) i width frame p v =
    let written = set frame (p + width * (i % 3) + i / 3) (bit_or 0x88 (bit_and v 1)) in
    put_lower_version n (i + 1) width written p (v / 2)

unfoldable pub put_upper_version : ℕ → ℕ → ℕ → List ℕ → ℕ → ℕ → List ℕ
put_upper_version zero i width frame p v = frame
put_upper_version (suc n) i width frame p v =
    let written = set frame (p + width * (i / 3) + i % 3) (bit_or 0x88 (bit_and v 1)) in
    put_upper_version n (i + 1) width written p (v / 2)

unfoldable pub create_frame : ℕ → List ℕ
unfolding put_finder_pattern put_separators put_column put_timing put_alignment_pattern
    put_lower_version put_upper_version
create_frame version =
    let width = get_width version in
    let blank = replicate (width * width) 0 in
    let finders =
      put_finder_pattern
        (put_finder_pattern (put_finder_pattern blank width 0 0) width (width - 7) 0) width 0
        (width - 7) in
    let separators = put_separators 7 width finders 0 (width * (width - 7)) in
    let separated =
      put (put (put separators (width * 7) (replicate 8 0xc0)) (width * 8 - 8) (replicate 8 0xc0))
        (width * (width - 8)) (replicate 8 0xc0) in
    let rows =
      put (put separated (width * 8) (replicate 9 0x84)) (width * 9 - 8) (replicate 8 0x84) in
    let columns =
      put_column 7 width 0x84 (put_column 8 width 0x84 rows 8) (width * (width - 7) + 8) in
    let timing = put_timing (width - 16) 1 width columns (width * 6 + 8) (width * 8 + 6) in
    let aligned = put_alignment_pattern version timing width in
    let verinfo = get_version_pattern version in
    let lower = put_lower_version 18 0 width aligned (width * (width - 11)) verinfo in
    let informed = put_upper_version 18 0 width lower (width - 11) verinfo in
    set (if ltb version 7 then aligned else informed) (width * (width - 8) + 8) 0x81

unfoldable pub new_frame : ℕ → Option (List ℕ)
unfolding create_frame
new_frame version =
    if ltb version 1 || ltb qrspec_version_max version then none else some (create_frame version)
