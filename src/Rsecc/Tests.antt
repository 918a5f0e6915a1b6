-- ===== src/Rsecc/Tests.antt =====
-- rsecc.c: the theorem at a concrete input.
use libqrencode.Prelude.{ℕ, ◌<◌, List, [], ◌∷◌, ◌++◌, some, ◌≡◌, length, All, arith}
use libqrencode.Rsecc.{encode}
use libqrencode.Rsecc.Roots.{evaluate, IsByte}
use libqrencode.Rsecc.Code.{encode-evaluate}

encode-evaluate_example :
    (ecc : List ℕ) × (encode 7 (0x40 ∷ 0xd2 ∷ 0x75 ∷ []) ≡ some ecc)
    × (length ecc ≡ 7)
    × All IsByte ecc
    × ((i : ℕ) → i < 7 → evaluate i ((0x40 ∷ 0xd2 ∷ 0x75 ∷ []) ++ ecc) 0 ≡ 0)
encode-evaluate_example =
    encode-evaluate 7 (0x40 ∷ 0xd2 ∷ 0x75 ∷ []) (omega arith) (omega arith)
      (omega arith, (omega arith, (omega arith, tt)))
