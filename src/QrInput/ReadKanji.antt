-- ===== src/QrInput/ReadKanji.antt =====
-- The reader gives back the data of kanji entries (qrinput.c, `QRinput_encodeModeKanji`).
use libqrencode.Prelude.{
  ℕ, suc, ◌+◌, ◌-◌, ◌*◌, ◌/◌, ◌%◌, ◌^◌, ◌≤◌, ◌<◌, bit_and, true, List, [], ◌∷◌, ◌++◌, ◌≡◌, refl, ap,
  length, append_assoc, arith, leb, if◌then◌else◌, inl, inr, ◌⊎◌, Bool-cases, lt→ltb, le→ltb,
  le→leb, lt→leb,
}
use mathlib.Core.Bool.{false≢true}
use libqrencode.Prelude.Bits.{bit_and-one, bit_or_shift, bit_and_mask}
use libqrencode.BitStream.Num.{num_bits}
use libqrencode.QrInput.Entry.{word_of, is_kanji_word, check_kanji_loop}
use libqrencode.QrInput.Encode.{kanji_value}
use libqrencode.QrInput.Payload.{kanji_payload}
use libqrencode.QrInput.Reader.{read-num_bits, drop-num_bits, kanji_word, read_kanji}

-- The bytes of a Shift JIS character whose second byte is in the range of the encoding. The check of
-- an entry asks only for the range of the whole word.
abbrev pub IsKanji : ℕ → ℕ → Type 0
IsKanji x y = (x < 256) × (0x40 ≤ y) × (y ≤ 0xfc)

abbrev pub AllKanji : List ℕ → Type 0
AllKanji (x ∷ y ∷ cs) = IsKanji x y × AllKanji cs
AllKanji _ = Unit {0}

-- The value below the offset of its range, in two bytes.
kanji_core :
    (x y off : ℕ)
    → 0x40 ≤ y
    → y ≤ 0xfc
    → off ≤ x
    → let low = x * 256 + y - (off * 256 + 0x40) in
      let v = low % 256 + low / 256 * 0xc0 in (v / 0xc0 ≡ x - off) × (v % 0xc0 ≡ y - 0x40)
kanji_core x y off lo hi h = (omega arith, omega arith)

kanji_word_at :
    (v x y off : ℕ)
    → v / 0xc0 ≡ x - off
    → v % 0xc0 ≡ y - 0x40
    → 0x40 ≤ y
    → y ≤ 0xfc
    → ((off ≡ 0x81) × (0x81 ≤ x) × (x ≤ 0x9f))
      ⊎ ((off ≡ 0xc1) × (0xe0 ≤ x) × (x * 256 + y ≤ 0xebbf))
    → (v < 2 ^ 13) × (kanji_word v / 256 ≡ x) × (kanji_word v % 256 ≡ y)
unfolding kanji_word
kanji_word_at v x y off p q lo hi (inl (e, a, b)) =
    let small : v / 0xc0 * 256 + v % 0xc0 < 0x1f00 = omega arith in
    rw (lt→ltb _ _ small) (omega arith)
kanji_word_at v x y off p q lo hi (inr (e, a, b)) =
    let large : 0x1f00 ≤ v / 0xc0 * 256 + v % 0xc0 = omega arith in
    rw (le→ltb _ _ large) (omega arith)

-- `kanji_value`, by arithmetic.
kanji_value-eq :
    (x y : ℕ)
    → y < 256
    → let w = x * 256 + y in
      let low = if leb w 0x9ffc then w - 0x8140 else w - 0xc140 in
      kanji_value x y ≡ low % 256 + low / 256 * 0xc0
kanji_value-eq x y h =
    rw (bit_or_shift 8 x y h) (ap (λ t. t + low / 256 * 0xc0) (bit_and_mask 8 low))
  where
    low : ℕ
    low = if leb (x * 256 + y) 0x9ffc then x * 256 + y - 0x8140 else x * 256 + y - 0xc140

-- The ranges of the check, as an order on numbers.
kanji_ranges :
    (x y : ℕ)
    → y < 256
    → is_kanji_word (word_of x y) ≡ true
    → (0x8140 ≤ x * 256 + y)
      × (x * 256 + y ≤ 0xebbf)
      × ((x * 256 + y ≤ 0x9ffc) ⊎ (0xe040 ≤ x * 256 + y))
kanji_ranges x y hy h = in_range (x * 256 + y) (rw (bit_or_shift 8 x y hy) at h)
  where
    in_range :
        (w : ℕ)
        → is_kanji_word w ≡ true
        → (0x8140 ≤ w) × (w ≤ 0xebbf) × ((w ≤ 0x9ffc) ⊎ (0xe040 ≤ w))
    in_range w p = ground arith

kanji_value-inverse :
    (x y : ℕ)
    → IsKanji x y
    → is_kanji_word (word_of x y) ≡ true
    → (kanji_value x y < 2 ^ 13)
      × (kanji_word (kanji_value x y) / 256 ≡ x)
      × (kanji_word (kanji_value x y) % 256 ≡ y)
kanji_value-inverse x y (hx, lo, hi) h =
    let byte : y < 256 = omega arith in
    let (above, below, which) = kanji_ranges x y byte h in
    elim which [
      | inl low ↦
          let (p, q) = kanji_core x y 0x81 lo hi (omega arith) in
          rw (kanji_value-eq x y byte, le→leb (x * 256 + y) 0x9ffc low)
            (kanji_word_at _ x y 0x81 p q lo hi (inl (refl, omega arith, omega arith)))
      | inr high ↦
          let (p, q) = kanji_core x y 0xc1 lo hi (omega arith) in
          rw (kanji_value-eq x y byte, lt→leb (x * 256 + y) 0x9ffc (omega arith))
            (kanji_word_at _ x y 0xc1 p q lo hi (inr (refl, omega arith, below)))
    ]

cons_kanji :
    (x y : ℕ) (cs : List ℕ)
    → check_kanji_loop (x ∷ y ∷ cs) ≡ true
    → (is_kanji_word (word_of x y) ≡ true) × (check_kanji_loop cs ≡ true)
unfolding check_kanji_loop
cons_kanji x y cs h = elim (Bool-cases (is_kanji_word (word_of x y))) [
  | inl e ↦ (e, rw e at h)
  | inr e ↦ absurd (false≢true (rw e at h))
]

-- Half the bytes are characters.
unfoldable pub kanji_count : (cs : List ℕ) → ℕ
kanji_count (x ∷ y ∷ cs) = suc (kanji_count cs)
kanji_count _ = 0

pub read_kanji-payload :
    (cs rest : List ℕ)
    → AllKanji cs
    → bit_and (length cs) 1 ≡ 0
    → check_kanji_loop cs ≡ true
    → read_kanji (kanji_count cs) (kanji_payload cs ++ rest) ≡ (cs, rest)
unfolding read_kanji kanji_payload kanji_count
read_kanji-payload [] rest k e h = refl
read_kanji-payload (x ∷ []) rest k e h = absurd (omega (arith, e))
read_kanji-payload (x ∷ y ∷ cs) rest (k, ks) e h =
    let (word, h') = cons_kanji x y cs h in
    let (lt, hi, lo) = kanji_value-inverse x y k word in
    let tail : List ℕ = kanji_payload cs ++ rest in
    let even : bit_and (length cs) 1 ≡ 0 =
      omega (arith, e, bit_and-one (length cs), bit_and-one (suc (suc (length cs)))) in
    rw (
      append_assoc (num_bits 13 (kanji_value x y)) (kanji_payload cs) rest,
      read-num_bits 13 (kanji_value x y) tail lt,
      drop-num_bits 13 (kanji_value x y) tail,
      read_kanji-payload cs rest ks even h',
      hi,
      lo,
    )
