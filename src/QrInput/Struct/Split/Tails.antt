-- ===== src/QrInput/Struct/Split/Tails.antt =====
-- The field `tail` of the parts of a structure.
use libqrencode.Prelude.{ℕ, ◌+◌, ◌≡◌, length, All, ◌⊎◌}
use libqrencode.BitStream.{BitStream}
use libqrencode.BitStream
use libqrencode.QrInput.Entry.{Entry, QrInput}
use libqrencode.QrInput.Struct.Split.{SplitState}

-- `tail` is the last entry.
abbrev pub HasTail : QrInput → Type 0
HasTail input = input.tail ≡ length input.entries

-- `tail` is the last of `n` entries, or is none of them.
abbrev pub IsLastOrNone : ℕ → ℕ → Type 0
IsLastOrNone tail n = (tail ≡ n) ⊎ (tail ≡ 0)

-- What holds in front of every round.
abbrev HasTails : SplitState → Type 0
HasTails st =
    IsLastOrNone st.input.tail (length st.list + length st.taken) × All HasTail st.parts.inputs
