-- ===== src/Filler/Tests.antt =====
-- Runs of the frame filler, and its theorems at concrete fillers.
use libqrencode.Prelude.{ℕ, ◌+◌, ◌≡◌, refl, true, false, List, [], ◌∷◌, Option, none, some, arith}
use libqrencode.QrSpec
use libqrencode.QrSpec.Frame as QrFrame
use libqrencode.MqrSpec.Frame as MqrFrame
use libqrencode.Filler.{FrameFiller, filler_set, next, right}
use libqrencode.Filler.Path.{fill, read_path, read_path-fill}
use libqrencode.Filler.Ending.{NextRun, next-NextRun}
use libqrencode.Filler.Count.{count_path}
use libqrencode.Filler.Room.{count_path-create_frame, qr_room}

abbrev frame_m1 : List ℕ
frame_m1 = MqrFrame.create_frame 1

abbrev filler_m1 : FrameFiller
filler_m1 = filler_set 11 frame_m1 true

abbrev or_else : Option FrameFiller → FrameFiller → FrameFiller
or_else none f = f
or_else (some g) f = g

abbrev filled_m1 : FrameFiller
filled_m1 = or_else (fill filler_m1 (1 ∷ 0 ∷ 3 ∷ [])) filler_m1

filled_m1_lem : fill filler_m1 (1 ∷ 0 ∷ 3 ∷ []) ≡ some filled_m1
unfolding fill filler_set next MqrFrame.create_frame
filled_m1_lem = refl

read_path-fill_example : read_path filled_m1.frame 3 filler_m1 ≡ some (1 ∷ 0 ∷ 3 ∷ [])
unfolding filler_set MqrFrame.create_frame
read_path-fill_example =
    read_path-fill filler_m1 filled_m1 (1 ∷ 0 ∷ 3 ∷ []) (omega arith, omega arith, omega arith) refl
      filled_m1_lem

next-NextRun_example :
    NextRun (record filler_m1 { bit = right }) (next (record filler_m1 { bit = right }))
unfolding filler_set
next-NextRun_example =
    next-NextRun (record filler_m1 { bit = right }) (omega arith, omega arith, omega arith) refl

count_path-create_frame_example :
    count_path (qr_room 7 + 1) (filler_set (QrSpec.get_width 7) (QrFrame.create_frame 7) false)
    ≡ qr_room 7
count_path-create_frame_example = count_path-create_frame 7 (omega arith) (omega arith)
