-- ===== src/BitStream/Tests.antt =====
-- bitstream.c: runs at concrete inputs, and the theorems at concrete inputs.
use libqrencode.Prelude.{
  ℕ, ◌-◌, ◌%◌, List, [], ◌∷◌, ◌++◌, none, some, ◌≡◌, ◌≢◌, refl, replicate, All, arith,
}
use libqrencode.BitStream.{
  BitStream, new, new_with_bits, append, append_num, append_bytes, reset, to_byte, copy_at,
  read_bytes, read_bits,
}
use libqrencode.BitStream.Num.{num_bits, bytes_bits, IsBit}
use libqrencode.BitStream.Laws.{
  bits, IsValid, Appended, new-IsValid, new_with_bits-IsValid, append_num-Appended,
  append_bytes-Appended, append-Appended, reset-IsValid,
}
use libqrencode.BitStream.Pack.{to_byte_lem}

abbrev five : List ℕ
five = 1 ∷ 0 ∷ 1 ∷ 1 ∷ 0 ∷ []

five-IsValid : IsValid (new_with_bits five)
five-IsValid = (new_with_bits-IsValid five).0

five-IsBit : All IsBit (bits (new_with_bits five))
unfolding new_with_bits copy_at
five-IsBit = (omega arith, (omega arith, (omega arith, (omega arith, (omega arith, tt)))))

to_byte-five : to_byte (new_with_bits five) ≡ some (0xb0 ∷ [])
unfolding to_byte new_with_bits read_bytes read_bits copy_at
to_byte-five = refl

append_num-Appended_example : Appended new (num_bits 4 5) (append_num new 4 5)
append_num-Appended_example = append_num-Appended new 4 5 new-IsValid (omega arith)

append_bytes-Appended_example : Appended new (bytes_bits (0x41 ∷ [])) (append_bytes new (0x41 ∷ []))
append_bytes-Appended_example = append_bytes-Appended new (0x41 ∷ []) new-IsValid

append-Appended_example :
    (append new none ≡ none)
    × ((c : BitStream) × (append new (some (new_with_bits five)) ≡ some c)
        × Appended new (bits (new_with_bits five)) c)
append-Appended_example = append-Appended new (new_with_bits five) new-IsValid five-IsValid

reset-IsValid_example :
    IsValid (reset (new_with_bits five)) × (bits (reset (new_with_bits five)) ≡ [])
reset-IsValid_example = reset-IsValid (new_with_bits five) five-IsValid

new_with_bits-IsValid_example : IsValid (new_with_bits five) × (bits (new_with_bits five) ≡ five)
new_with_bits-IsValid_example = new_with_bits-IsValid five

to_byte_lem_example :
    ((new_with_bits five).used ≡ 0 → to_byte (new_with_bits five) ≡ none)
    × ((new_with_bits five).used ≢ 0
        → (bytes : List ℕ) × (to_byte (new_with_bits five) ≡ some bytes)
          × (bytes_bits bytes
              ≡ bits (new_with_bits five) ++ replicate ((8 - (new_with_bits five).used % 8) % 8) 0))
to_byte_lem_example = to_byte_lem (new_with_bits five) five-IsValid five-IsBit
