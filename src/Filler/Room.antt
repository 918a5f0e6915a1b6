-- ===== src/Filler/Room.antt =====
-- The frames of QR Code have room for the code words of their versions, and no more.
use libqrencode.Prelude.{
  ℕ, ◌+◌, ◌-◌, ◌*◌, ◌≤◌, ◌<◌, ltb, Bool, true, false, [], ◌≡◌, refl, sym, ap, ◌∙◌, ◌==◌, ==→eq, inl,
  inr, Bool-cases, arith, ==→eq,
}
use libqrencode.Prelude.Tables.{all_below, all_below_sound}
use libqrencode.Api.{level_l}
use libqrencode.QrSpec.{get_width, get_data_length, get_ecc_length, get_remainder}
use libqrencode.QrSpec.Consistency.{get_width_area}
use libqrencode.QrSpec.Frame.{create_frame}
use libqrencode.QrSpec.Frame.Size.{length-create_frame}
use libqrencode.QrSpec.Frame.MarkFrame.{mark_frame, create_frame-Shows}
use libqrencode.Filler.{FrameFiller, filler_set}
use libqrencode.Filler.Count.{count_path}
use libqrencode.Filler.Order.{IsInside}
use libqrencode.Filler.Marks.{count_marks, count_path-marks}

-- The bits of the code words and the remainder.
abbrev pub qr_room : ℕ → ℕ
qr_room version =
    8 * (get_data_length version level_l + get_ecc_length version level_l) + get_remainder version

-- A filler at its start, with no frame.
bare : ℕ → FrameFiller
unfolding filler_set
bare version = filler_set (get_width version) [] false

room_check : ℕ → Bool
unfolding bare mark_frame count_marks
room_check v = count_marks (qr_room v + 1) (mark_frame v) (bare v) 0 == qr_room v

check_above : ℕ → ℕ → Bool
check_above base v = room_check (v + base)

abbrev Checked : ℕ → ℕ → Type 0
Checked low high = (v : ℕ) → low ≤ v → v < high → room_check v ≡ true

from_table : (base n : ℕ) → all_below n (check_above base) ≡ true → Checked base (base + n)
unfolding check_above
from_table base n table v low high =
    let same : v - base + base ≡ v = omega arith in
    ap room_check (sym same) ∙ all_below_sound n (check_above base) (v - base) table (omega arith)

join : (a b c : ℕ) → Checked a b → Checked b c → Checked a c
join a b c below above v low high = elim (Bool-cases (ltb v b)) [
  | inl small ↦ below v low (ground arith)
  | inr large ↦ above v (ground arith) high
]

table_1 : Checked 1 19
table_1 = from_table 1 18 (
    unfold all_below check_above room_check get_width get_data_length get_ecc_length
      get_remainder in
    refl)

table_19 : Checked 19 23
table_19 = from_table 19 4 (
    unfold all_below check_above room_check get_width get_data_length get_ecc_length
      get_remainder in
    refl)

table_23 : Checked 23 26
table_23 = from_table 23 3 (
    unfold all_below check_above room_check get_width get_data_length get_ecc_length
      get_remainder in
    refl)

table_26 : Checked 26 28
table_26 = from_table 26 2 (
    unfold all_below check_above room_check get_width get_data_length get_ecc_length
      get_remainder in
    refl)

table_28 : Checked 28 30
table_28 = from_table 28 2 (
    unfold all_below check_above room_check get_width get_data_length get_ecc_length
      get_remainder in
    refl)

table_30 : Checked 30 31
table_30 = from_table 30 1 (
    unfold all_below check_above room_check get_width get_data_length get_ecc_length
      get_remainder in
    refl)

table_31 : Checked 31 32
table_31 = from_table 31 1 (
    unfold all_below check_above room_check get_width get_data_length get_ecc_length
      get_remainder in
    refl)

table_32 : Checked 32 33
table_32 = from_table 32 1 (
    unfold all_below check_above room_check get_width get_data_length get_ecc_length
      get_remainder in
    refl)

table_33 : Checked 33 34
table_33 = from_table 33 1 (
    unfold all_below check_above room_check get_width get_data_length get_ecc_length
      get_remainder in
    refl)

table_34 : Checked 34 35
table_34 = from_table 34 1 (
    unfold all_below check_above room_check get_width get_data_length get_ecc_length
      get_remainder in
    refl)

table_35 : Checked 35 36
table_35 = from_table 35 1 (
    unfold all_below check_above room_check get_width get_data_length get_ecc_length
      get_remainder in
    refl)

table_36 : Checked 36 37
table_36 = from_table 36 1 (
    unfold all_below check_above room_check get_width get_data_length get_ecc_length
      get_remainder in
    refl)

table_37 : Checked 37 38
table_37 = from_table 37 1 (
    unfold all_below check_above room_check get_width get_data_length get_ecc_length
      get_remainder in
    refl)

table_38 : Checked 38 39
table_38 = from_table 38 1 (
    unfold all_below check_above room_check get_width get_data_length get_ecc_length
      get_remainder in
    refl)

table_39 : Checked 39 40
table_39 = from_table 39 1 (
    unfold all_below check_above room_check get_width get_data_length get_ecc_length
      get_remainder in
    refl)

table_40 : Checked 40 41
table_40 = from_table 40 1 (
    unfold all_below check_above room_check get_width get_data_length get_ecc_length
      get_remainder in
    refl)

room_table : Checked 1 41
room_table =
    join 1 40 41
      (join 1 39 40
        (join 1 38 39
          (join 1 37 38
            (join 1 36 37
              (join 1 35 36
                (join 1 34 35
                  (join 1 33 34
                    (join 1 32 33
                      (join 1 31 32
                        (join 1 30 31
                          (join 1 28 30
                            (join 1 26 28 (join 1 23 26 (join 1 19 23 table_1 table_19) table_23)
                              table_26)
                            table_28)
                          table_30)
                        table_31)
                      table_32)
                    table_33)
                  table_34)
                table_35)
              table_36)
            table_37)
          table_38)
        table_39)
      table_40

-- For every version of QR Code, the way of the filler over the empty frame comes to exactly as many
-- modules as there are bits in the code words and the remainder, and then to its end.
pub count_path-create_frame :
    (version : ℕ)
    → 1 ≤ version
    → version ≤ 40
    → count_path (qr_room version + 1) (filler_set (get_width version) (create_frame version) false)
      ≡ qr_room version
unfolding room_check bare filler_set
count_path-create_frame version lo hi =
    let w = (get_width_area version level_l lo hi).0 in
    let inside : IsInside (bare version) = (omega arith, omega arith, omega arith) in
    let walked =
      count_path-marks (create_frame version) (mark_frame version) (create_frame-Shows version)
        (qr_room version + 1) (bare version) 0 inside (length-create_frame version) in
    let counted = ==→eq _ _ (room_table version lo (omega arith)) in omega (arith, walked, counted)
