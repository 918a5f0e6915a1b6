-- ===== src/QrSpec/Frame/MarkFrame.antt =====
-- The marks that `QRspec_createFrame` leaves.
use libqrencode.Prelude.Bits.{bit_and-one, bit_and_comm, bit_and-zero}
use libqrencode.Prelude.{
  ℕ, zero, suc, ◌+◌, ◌-◌, ◌*◌, ◌/◌, ◌%◌, ◌^◌, ◌<◌, bit_and, bit_or, true, false, List, ◌≡◌, refl,
  sym, ap, ◌∙◌, get_or, set, put, All, ltb, ◌==◌, replicate, arith,
}
use libqrencode.Filler.Marks.{Shows}
use libqrencode.QrSpec.{get_width, get_version_pattern}
use libqrencode.QrSpec.Frame.Marks.{
  Marked, mark, mark_rows, set-Shows, put-Shows, put_rows-Shows, rows_marked-All, all_marked-All,
}
use libqrencode.QrSpec.Frame.MarkAlignment.{mark_alignment, alignment-Shows, Shows-if}
use libqrencode.QrSpec.Frame.{
  put_finder_pattern, finder_rows, put_column, put_separators, put_timing, put_lower_version,
  put_upper_version, create_frame,
}

unfoldable pub mark_finder : ℕ → ℕ → ℕ → ℕ → ℕ
unfolding mark_rows
mark_finder m w ox oy = mark_rows w finder_rows m (oy * w + ox)

finder-Shows :
    (frame : List ℕ) (m w ox oy : ℕ)
    → Shows frame m
    → Shows (put_finder_pattern frame w ox oy) (mark_finder m w ox oy)
unfolding put_finder_pattern mark_finder
finder-Shows frame m w ox oy shown =
    put_rows-Shows w finder_rows frame m (oy * w + ox) (rows_marked-All finder_rows refl) shown

unfoldable pub mark_column : ℕ → ℕ → ℕ → ℕ → ℕ
mark_column zero w m p = m
mark_column (suc n) w m p = mark_column n w (bit_or m (2 ^ p)) (p + w)

column-Shows :
    (n w v : ℕ) (frame : List ℕ) (m p : ℕ)
    → Marked v
    → Shows frame m
    → Shows (put_column n w v frame p) (mark_column n w m p)
unfolding put_column mark_column
column-Shows zero w v frame m p marked shown = shown
column-Shows (suc n) w v frame m p marked shown =
    column-Shows n w v (set frame p v) (bit_or m (2 ^ p)) (p + w) marked
      (set-Shows frame m p v marked shown)

unfoldable pub mark_separators : ℕ → ℕ → ℕ → ℕ → ℕ → ℕ
mark_separators zero w m p q = m
mark_separators (suc n) w m p q =
    mark_separators n w (bit_or (bit_or (bit_or m (2 ^ (p + 7))) (2 ^ (p + w - 8))) (2 ^ (q + 7)))
      (p + w) (q + w)

separators-Shows :
    (n w : ℕ) (frame : List ℕ) (m p q : ℕ)
    → Shows frame m
    → Shows (put_separators n w frame p q) (mark_separators n w m p q)
unfolding put_separators mark_separators
separators-Shows zero w frame m p q shown = shown
separators-Shows (suc n) w frame m p q shown = separators-Shows n w _ _ (p + w) (q + w) (
    set-Shows _ _ (q + 7) 0xc0 refl
      (set-Shows _ _ (p + w - 8) 0xc0 refl (set-Shows frame m (p + 7) 0xc0 refl shown)))

-- The modules of the timing pattern and of the version information.
bit_or-Marked :
    (base x : ℕ)
    → Marked (bit_or base 0)
    → Marked (bit_or base 1)
    → Marked (bit_or base (bit_and x 1))
bit_or-Marked base x zeros ones = digit (bit_and x 1) (omega (arith, bit_and-one x))
  where
    digit : (d : ℕ) → d < 2 → Marked (bit_or base d)
    digit zero h = zeros
    digit (suc zero) h = ones
    digit (suc (suc d)) h = absurd (omega arith)

unfoldable pub mark_timing : ℕ → ℕ → ℕ → ℕ → ℕ → ℕ
mark_timing zero w m p q = m
mark_timing (suc n) w m p q = mark_timing n w (bit_or (bit_or m (2 ^ p)) (2 ^ q)) (p + 1) (q + w)

timing-Shows :
    (n x w : ℕ) (frame : List ℕ) (m p q : ℕ)
    → Shows frame m
    → Shows (put_timing n x w frame p q) (mark_timing n w m p q)
unfolding put_timing mark_timing
timing-Shows zero x w frame m p q shown = shown
timing-Shows (suc n) x w frame m p q shown =
    let v = bit_or 0x90 (bit_and x 1) in
    let marked = bit_or-Marked 0x90 x refl refl in
    timing-Shows n (x + 1) w (set (set frame p v) q v) _ (p + 1) (q + w)
      (set-Shows (set frame p v) _ q v marked (set-Shows frame m p v marked shown))

unfoldable pub mark_lower : ℕ → ℕ → ℕ → ℕ → ℕ → ℕ
mark_lower zero i w m p = m
mark_lower (suc n) i w m p = mark_lower n (i + 1) w (bit_or m (2 ^ (p + w * (i % 3) + i / 3))) p

lower-Shows :
    (n i w : ℕ) (frame : List ℕ) (m p v : ℕ)
    → Shows frame m
    → Shows (put_lower_version n i w frame p v) (mark_lower n i w m p)
unfolding put_lower_version mark_lower
lower-Shows zero i w frame m p v shown = shown
lower-Shows (suc n) i w frame m p v shown =
    lower-Shows n (i + 1) w _ _ p (v / 2)
      (set-Shows frame m (p + w * (i % 3) + i / 3) _ (bit_or-Marked 0x88 v refl refl) shown)

unfoldable pub mark_upper : ℕ → ℕ → ℕ → ℕ → ℕ → ℕ
mark_upper zero i w m p = m
mark_upper (suc n) i w m p = mark_upper n (i + 1) w (bit_or m (2 ^ (p + w * (i / 3) + i % 3))) p

upper-Shows :
    (n i w : ℕ) (frame : List ℕ) (m p v : ℕ)
    → Shows frame m
    → Shows (put_upper_version n i w frame p v) (mark_upper n i w m p)
unfolding put_upper_version mark_upper
upper-Shows zero i w frame m p v shown = shown
upper-Shows (suc n) i w frame m p v shown =
    upper-Shows n (i + 1) w _ _ p (v / 2)
      (set-Shows frame m (p + w * (i / 3) + i % 3) _ (bit_or-Marked 0x88 v refl refl) shown)

abbrev blank : ℕ → List ℕ
blank n = replicate n 0

get_or-replicate : (n p : ℕ) → get_or (blank n) p 0 ≡ 0
get_or-replicate zero p = refl
get_or-replicate (suc n) zero = refl
get_or-replicate (suc n) (suc p) = get_or-replicate n p

blank-Shows : (n : ℕ) → Shows (blank n) 0
unfolding Shows
blank-Shows n p lt =
    ap (λ t. bit_and t 0x80 == 0) (get_or-replicate n p)
    ∙ sym (ap (λ t. t == 0) (bit_and_comm 0 (2 ^ p) ∙ bit_and-zero (2 ^ p)))

-- The marks up to the timing pattern.
unfoldable pub mark_fixed : ℕ → ℕ
unfolding mark_finder mark_separators mark mark_column mark_timing
mark_fixed w =
    let finders = mark_finder (mark_finder (mark_finder 0 w 0 0) w (w - 7) 0) w 0 (w - 7) in
    let separators = mark_separators 7 w finders 0 (w * (w - 7)) in
    let separated = mark 8 (w * (w - 8)) (mark 8 (w * 8 - 8) (mark 8 (w * 7) separators)) in
    let rows = mark 8 (w * 9 - 8) (mark 9 (w * 8) separated) in
    let columns = mark_column 7 w (mark_column 8 w rows 8) (w * (w - 7) + 8) in
    mark_timing (w - 16) w columns (w * 6 + 8) (w * 8 + 6)

-- The frame with the finder patterns, and with all patterns up to the timing pattern.
unfoldable fixed_frame : ℕ → List ℕ
unfolding put_finder_pattern put_separators put_column put_timing
fixed_frame width =
    let blank = replicate (width * width) 0 in
    let finders =
      put_finder_pattern
        (put_finder_pattern (put_finder_pattern blank width 0 0) width (width - 7) 0) width 0
        (width - 7) in
    let separators = put_separators 7 width finders 0 (width * (width - 7)) in
    let separated =
      put (put (put separators (width * 7) (replicate 8 0xc0)) (width * 8 - 8) (replicate 8 0xc0))
        (width * (width - 8)) (replicate 8 0xc0) in
    let rows =
      put (put separated (width * 8) (replicate 9 0x84)) (width * 9 - 8) (replicate 8 0x84) in
    let columns =
      put_column 7 width 0x84 (put_column 8 width 0x84 rows 8) (width * (width - 7) + 8) in
    put_timing (width - 16) 1 width columns (width * 6 + 8) (width * 8 + 6)

fixed-Shows : (w : ℕ) → Shows (fixed_frame w) (mark_fixed w)
unfolding fixed_frame mark_fixed
fixed-Shows w =
    let finders =
      finder-Shows _ _ w 0 (w - 7)
        (finder-Shows _ _ w (w - 7) 0 (finder-Shows _ _ w 0 0 (blank-Shows (w * w)))) in
    let separators = separators-Shows 7 w _ _ 0 (w * (w - 7)) finders in
    let above = put-Shows _ _ (w * 7) (replicate 8 0xc0) marked_8 separators in
    let right = put-Shows _ _ (w * 8 - 8) (replicate 8 0xc0) marked_8 above in
    let below = put-Shows _ _ (w * (w - 8)) (replicate 8 0xc0) marked_8 right in
    let left_row =
      put-Shows _ _ (w * 8) (replicate 9 0x84) (all_marked-All (replicate 9 0x84) refl) below in
    let rows =
      put-Shows _ _ (w * 9 - 8) (replicate 8 0x84) (all_marked-All (replicate 8 0x84) refl)
        left_row in
    let upper = column-Shows 8 w 0x84 _ _ 8 refl rows in
    let columns = column-Shows 7 w 0x84 _ _ (w * (w - 7) + 8) refl upper in
    timing-Shows (w - 16) 1 w _ _ (w * 6 + 8) (w * 8 + 6) columns
  where
    marked_8 : All Marked (replicate 8 0xc0)
    marked_8 = all_marked-All (replicate 8 0xc0) refl

unfoldable pub mark_frame : ℕ → ℕ
unfolding mark_fixed mark_alignment mark_lower mark_upper
mark_frame version =
    let w = get_width version in
    let aligned = mark_alignment version (mark_fixed w) w in
    let informed = mark_upper 18 0 w (mark_lower 18 0 w aligned (w * (w - 11))) (w - 11) in
    bit_or (elim (ltb version 7) [ true ↦ aligned | false ↦ informed ]) (2 ^ (w * (w - 8) + 8))

pub create_frame-Shows : (version : ℕ) → Shows (create_frame version) (mark_frame version)
unfolding create_frame mark_frame fixed_frame
create_frame-Shows version =
    let w = get_width version in
    let info = get_version_pattern version in
    let aligned = alignment-Shows version (fixed_frame w) (mark_fixed w) w (fixed-Shows w) in
    let lower = lower-Shows 18 0 w _ _ (w * (w - 11)) info aligned in
    set-Shows _ _ _ 0x81 refl
      (Shows-if (ltb version 7) _ _ _ _ aligned (upper-Shows 18 0 w _ _ (w - 11) info lower))
