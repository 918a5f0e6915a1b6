-- ===== src/Filler/Count.antt =====
-- The number of modules on the way of a filler.
use libqrencode.Prelude.{ℕ, zero, suc, none, some}
use libqrencode.Filler.{FrameFiller, next}

-- The modules that the filler comes to, at most `n` of them.
unfoldable pub count_path : ℕ → FrameFiller → ℕ
count_path zero f = 0
count_path (suc n) f = elim (next f) [ none ↦ 0 | some g ↦ suc (count_path n g) ]
