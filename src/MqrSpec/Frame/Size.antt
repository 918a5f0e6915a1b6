-- ===== src/MqrSpec/Frame/Size.antt =====
-- The writes of mqrspec.c keep the size of a frame.
use libqrencode.Prelude.{ℕ, ◌*◌, ◌≡◌, length, length-put, length-replicate}
use libqrencode.QrSpec.Frame.Size.{length-put_column, length-put_timing}
use libqrencode.MqrSpec.{get_width}
use libqrencode.MqrSpec.Frame.{create_frame}

pub length-create_frame :
    (version : ℕ) → length (create_frame version) ≡ get_width version * get_width version
unfolding create_frame
length-create_frame version =
    simp (length-put, length-replicate, length-put_column, length-put_timing)
