-- ===== src/QrSpec/Frame/MarkAlignment.antt =====
-- The marks that `QRspec_putAlignmentPattern` leaves.
use libqrencode.Prelude.{
  ℕ, zero, suc, ◌+◌, ◌-◌, ◌*◌, Bool, true, false, List, get_or, ltb, ◌==◌, if◌then◌else◌,
}
use libqrencode.Filler.Marks.{Shows}
use libqrencode.QrSpec.Tables.{alignment_pattern}
use libqrencode.QrSpec.Frame.Marks.{mark_marker, marker-Shows}
use libqrencode.QrSpec.Frame.{
  put_alignment_marker, put_edges, put_marker_row, put_marker_rows, markers_across,
  put_alignment_pattern,
}

unfoldable pub mark_edges : ℕ → ℕ → ℕ → ℕ → ℕ → ℕ
unfolding mark_marker
mark_edges zero w d cx m = m
mark_edges (suc n) w d cx m = mark_edges n w d (cx + d) (mark_marker (mark_marker m w 6 cx) w cx 6)

edges-Shows :
    (n w d cx : ℕ) (frame : List ℕ) (m : ℕ)
    → Shows frame m
    → Shows (put_edges n w d cx frame) (mark_edges n w d cx m)
unfolding put_edges mark_edges
edges-Shows zero w d cx frame m shown = shown
edges-Shows (suc n) w d cx frame m shown =
    let upper = put_alignment_marker frame w 6 cx in
    edges-Shows n w d (cx + d) (put_alignment_marker upper w cx 6) _
      (marker-Shows upper (mark_marker m w 6 cx) w cx 6 (marker-Shows frame m w 6 cx shown))

unfoldable pub mark_marker_row : ℕ → ℕ → ℕ → ℕ → ℕ → ℕ → ℕ
unfolding mark_marker
mark_marker_row zero w d cx cy m = m
mark_marker_row (suc n) w d cx cy m = mark_marker_row n w d (cx + d) cy (mark_marker m w cx cy)

marker_row-Shows :
    (n w d cx cy : ℕ) (frame : List ℕ) (m : ℕ)
    → Shows frame m
    → Shows (put_marker_row n w d cx cy frame) (mark_marker_row n w d cx cy m)
unfolding put_marker_row mark_marker_row
marker_row-Shows zero w d cx cy frame m shown = shown
marker_row-Shows (suc n) w d cx cy frame m shown =
    marker_row-Shows n w d (cx + d) cy (put_alignment_marker frame w cx cy) (mark_marker m w cx cy)
      (marker-Shows frame m w cx cy shown)

unfoldable pub mark_marker_rows : ℕ → ℕ → ℕ → ℕ → ℕ → ℕ → ℕ → ℕ
unfolding mark_marker_row
mark_marker_rows zero c w d first cy m = m
mark_marker_rows (suc n) c w d first cy m =
    mark_marker_rows n c w d first (cy + d) (mark_marker_row c w d first cy m)

marker_rows-Shows :
    (n c w d first cy : ℕ) (frame : List ℕ) (m : ℕ)
    → Shows frame m
    → Shows (put_marker_rows n c w d first cy frame) (mark_marker_rows n c w d first cy m)
unfolding put_marker_rows mark_marker_rows
marker_rows-Shows zero c w d first cy frame m shown = shown
marker_rows-Shows (suc n) c w d first cy frame m shown =
    marker_rows-Shows n c w d first (cy + d) (put_marker_row c w d first cy frame)
      (mark_marker_row c w d first cy m) (marker_row-Shows c w d first cy frame m shown)

pub Shows-if :
    (b : Bool) (f g : List ℕ) (m n : ℕ)
    → Shows f m
    → Shows g n
    → Shows (if b then f else g) (elim b [ true ↦ m | false ↦ n ])
Shows-if true f g m n shown shown' = shown
Shows-if false f g m n shown shown' = shown'

unfoldable pub mark_alignment : ℕ → ℕ → ℕ → ℕ
unfolding mark_edges mark_marker_rows markers_across alignment_pattern
mark_alignment version m w =
    let first = (get_or alignment_pattern version (0, 0)).0 in
    let second = (get_or alignment_pattern version (0, 0)).1 in
    let d = second - first in
    let k = markers_across first second w in
    elim (ltb version 2) [
      | true ↦ m
      | false ↦ elim (k * k - 3 == 1) [
        | true ↦ mark_marker m w first first
        | false ↦ mark_marker_rows (k - 1) (k - 1) w d first first (mark_edges (k - 2) w d first m)
      ]
    ]

pub alignment-Shows :
    (version : ℕ) (frame : List ℕ) (m w : ℕ)
    → Shows frame m
    → Shows (put_alignment_pattern version frame w) (mark_alignment version m w)
unfolding put_alignment_pattern mark_alignment
alignment-Shows version frame m w shown =
    let first = (get_or alignment_pattern version (0, 0)).0 in
    let second = (get_or alignment_pattern version (0, 0)).1 in
    let d = second - first in
    let k = markers_across first second w in
    let edges = put_edges (k - 2) w d first frame in
    let edge_marks = mark_edges (k - 2) w d first m in
    Shows-if (ltb version 2) frame _ m _ shown (
      Shows-if (k * k - 3 == 1) (put_alignment_marker frame w first first)
        (put_marker_rows (k - 1) (k - 1) w d first first edges) (mark_marker m w first first)
        (mark_marker_rows (k - 1) (k - 1) w d first first edge_marks)
        (marker-Shows frame m w first first shown)
        (marker_rows-Shows (k - 1) (k - 1) w d first first edges edge_marks
          (edges-Shows (k - 2) w d first frame m shown)))
