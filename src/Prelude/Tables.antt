-- ===== src/Prelude/Tables.antt =====
-- A statement about every entry of a finite table, checked by evaluation.
use Prim.Native.Nat.{ℕ, zero, suc, ◌<◌}
use mathlib.Core.Path.{◌≡◌}
use mathlib.Core.Bool.{Bool, true, ◌&&◌}
use native.Mathlib.Omega.{arith}

unfoldable pub all_below : ℕ → (ℕ → Bool) → Bool
all_below zero test = true
all_below (suc k) test = test k && all_below k test

pub all_below_sound :
    (size : ℕ) (test : ℕ → Bool) (k : ℕ) → all_below size test ≡ true → k < size → test k ≡ true
unfolding all_below
all_below_sound zero test k h in_range = absurd (omega arith)
all_below_sound (suc size) test k h in_range = ground (all_below_sound size test k, arith)
