-- ===== src/QrSpec/Frame/Size.antt =====
-- The writes of qrspec.c keep the size of a frame.
use libqrencode.Prelude.{
  ℕ, zero, suc, ◌+◌, ◌-◌, ◌*◌, ◌/◌, Bool, true, false, List, [], ◌∷◌, ◌≡◌, refl, ◌∙◌, length, set,
  put, length-set, length-put, length-replicate, ltb, ◌==◌, if◌then◌else◌, get_or, Bool-cases, inl,
  inr,
}
use libqrencode.QrSpec.{get_width}
use libqrencode.QrSpec.Tables.{alignment_pattern}
use libqrencode.QrSpec.Frame.{
  put_rows, put_alignment_marker, alignment_rows, put_edges, put_marker_row, put_marker_rows,
  markers_across, put_alignment_pattern, put_finder_pattern, finder_rows, put_column,
  put_separators, put_timing, put_lower_version, put_upper_version, create_frame,
}

pub length-put_rows :
    (w : ℕ) (rows : List (List ℕ)) (frame : List ℕ) (p : ℕ)
    → length (put_rows w rows frame p) ≡ length frame
unfolding put_rows
length-put_rows w [] frame p = refl
length-put_rows w (row ∷ rows) frame p =
    length-put_rows w rows (put frame p row) (p + w) ∙ length-put frame p row

length-put_alignment_marker :
    (frame : List ℕ) (w x y : ℕ) → length (put_alignment_marker frame w x y) ≡ length frame
unfolding put_alignment_marker
length-put_alignment_marker frame w x y = length-put_rows w alignment_rows frame _

length-put_edges :
    (n w d cx : ℕ) (frame : List ℕ) → length (put_edges n w d cx frame) ≡ length frame
unfolding put_edges
length-put_edges zero w d cx frame = refl
length-put_edges (suc n) w d cx frame =
    length-put_edges n w d (cx + d) _
    ∙ length-put_alignment_marker (put_alignment_marker frame w 6 cx) w cx 6
    ∙ length-put_alignment_marker frame w 6 cx

length-put_marker_row :
    (n w d cx cy : ℕ) (frame : List ℕ) → length (put_marker_row n w d cx cy frame) ≡ length frame
unfolding put_marker_row
length-put_marker_row zero w d cx cy frame = refl
length-put_marker_row (suc n) w d cx cy frame =
    length-put_marker_row n w d (cx + d) cy _ ∙ length-put_alignment_marker frame w cx cy

length-put_marker_rows :
    (n c w d first cy : ℕ) (frame : List ℕ)
    → length (put_marker_rows n c w d first cy frame) ≡ length frame
unfolding put_marker_rows
length-put_marker_rows zero c w d first cy frame = refl
length-put_marker_rows (suc n) c w d first cy frame =
    length-put_marker_rows n c w d first (cy + d) _ ∙ length-put_marker_row c w d first cy frame

-- A conditional between two frames of one size.
pub length-if :
    (b : Bool) (xs ys : List ℕ) {n : ℕ}
    → length xs ≡ n
    → length ys ≡ n
    → length (if b then xs else ys) ≡ n
length-if true xs ys e f = e
length-if false xs ys e f = f

length-put_alignment_pattern :
    (version : ℕ) (frame : List ℕ) (w : ℕ)
    → length (put_alignment_pattern version frame w) ≡ length frame
unfolding put_alignment_pattern
length-put_alignment_pattern version frame w =
    let first = (get_or alignment_pattern version (0, 0)).0 in
    let second = (get_or alignment_pattern version (0, 0)).1 in
    let d = second - first in
    let m = markers_across first second w in
    let edges = put_edges (m - 2) w d first frame in
    length-if (ltb version 2) frame
      (if m * m - 3 == 1
        then put_alignment_marker frame w first first
        else put_marker_rows (m - 1) (m - 1) w d first first edges)
      refl
      (length-if (m * m - 3 == 1) (put_alignment_marker frame w first first)
        (put_marker_rows (m - 1) (m - 1) w d first first edges)
        (length-put_alignment_marker frame w first first)
        (length-put_marker_rows (m - 1) (m - 1) w d first first edges
          ∙ length-put_edges (m - 2) w d first frame))

length-put_finder_pattern :
    (frame : List ℕ) (w x y : ℕ) → length (put_finder_pattern frame w x y) ≡ length frame
unfolding put_finder_pattern
length-put_finder_pattern frame w x y = length-put_rows w finder_rows frame _

pub length-put_column :
    (n w v : ℕ) (frame : List ℕ) (p : ℕ) → length (put_column n w v frame p) ≡ length frame
unfolding put_column
length-put_column zero w v frame p = refl
length-put_column (suc n) w v frame p =
    length-put_column n w v (set frame p v) (p + w) ∙ length-set frame p v

length-put_separators :
    (n w : ℕ) (frame : List ℕ) (p q : ℕ) → length (put_separators n w frame p q) ≡ length frame
unfolding put_separators
length-put_separators zero w frame p q = refl
length-put_separators (suc n) w frame p q =
    length-put_separators n w _ (p + w) (q + w)
    ∙ length-set _ (q + 7) 0xc0
    ∙ length-set _ (p + w - 8) 0xc0
    ∙ length-set frame (p + 7) 0xc0

pub length-put_timing :
    (n x w : ℕ) (frame : List ℕ) (p q : ℕ) → length (put_timing n x w frame p q) ≡ length frame
unfolding put_timing
length-put_timing zero x w frame p q = refl
length-put_timing (suc n) x w frame p q =
    length-put_timing n (x + 1) w _ (p + 1) (q + w) ∙ length-set _ q _ ∙ length-set frame p _

length-put_lower_version :
    (n i w : ℕ) (frame : List ℕ) (p v : ℕ)
    → length (put_lower_version n i w frame p v) ≡ length frame
unfolding put_lower_version
length-put_lower_version zero i w frame p v = refl
length-put_lower_version (suc n) i w frame p v =
    length-put_lower_version n (i + 1) w _ p (v / 2) ∙ length-set frame _ _

length-put_upper_version :
    (n i w : ℕ) (frame : List ℕ) (p v : ℕ)
    → length (put_upper_version n i w frame p v) ≡ length frame
unfolding put_upper_version
length-put_upper_version zero i w frame p v = refl
length-put_upper_version (suc n) i w frame p v =
    length-put_upper_version n (i + 1) w _ p (v / 2) ∙ length-set frame _ _

ruleset sizes = (
  length-set, length-put, length-replicate, length-put_finder_pattern, length-put_separators,
  length-put_column, length-put_timing, length-put_alignment_pattern, length-put_lower_version,
  length-put_upper_version,
)

pub length-create_frame :
    (version : ℕ) → length (create_frame version) ≡ get_width version * get_width version
unfolding create_frame
length-create_frame version = elim (Bool-cases (ltb version 7)) [
  | inl e ↦ rw (e) (simp sizes)
  | inr e ↦ rw (e) (simp sizes)
]
