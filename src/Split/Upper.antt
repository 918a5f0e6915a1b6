-- ===== src/Split/Upper.antt =====
-- split.c, `dupAndToUpper`, against a description of strings in upper case.
use libqrencode.Prelude.{
  ℕ, ◌+◌, ◌-◌, ◌≤◌, ◌<◌, Bool, true, false, ◌&&◌, List, [], ◌∷◌, ◌≡◌, refl, ◌⊎◌, inl, inr, leb,
  if◌then◌else◌, Bool-cases, arith,
}
use mathlib.Core.Path.{subst}
use libqrencode.Api.{Mode, num, an, eight, kanji}
use libqrencode.QrSpec.{is_kanji}
use libqrencode.QrInput.Entry.{word_of}
use libqrencode.Split.{is_digit, is_alnum, is_kanji_range, identify_mode, upper, dup_and_to_upper}

-- The two ranges of the words of kanji.
abbrev pub IsKanjiWord : ℕ → Type 0
IsKanjiWord w = ((0x8140 ≤ w) × (w ≤ 0x9ffc)) ⊎ ((0xe040 ≤ w) × (w ≤ 0xebbf))

-- Two bytes of one character, where the hint allows kanji.
abbrev pub IsKanjiPair : Mode → ℕ → ℕ → Type 0
IsKanjiPair hint c d =
    (is_digit c ≡ false) × (is_alnum c ≡ false) × (is_kanji hint ≡ true) × IsKanjiWord (word_of c d)

-- A string that starts with such a pair.
abbrev pub StartsWithKanji : Mode → List ℕ → Type 0
StartsWithKanji hint (c ∷ d ∷ cs) = IsKanjiPair hint c d
StartsWithKanji hint _ = ⊥

-- The second string is the first in upper case. The bytes of kanji are kept.
pub data IsUpper (hint : Mode) : List ℕ → List ℕ → Type 0 where
  ended : IsUpper hint [] []
  pair_kept :
      (c d : ℕ) (cs us : List ℕ)
      → IsKanjiPair hint c d
      → IsUpper hint cs us
      → IsUpper hint (c ∷ d ∷ cs) (c ∷ d ∷ us)
  small_letter :
      (k : ℕ) (cs us : List ℕ)
      → k < 26
      → ¬ StartsWithKanji hint ((b'a' + k) ∷ cs)
      → IsUpper hint cs us
      → IsUpper hint ((b'a' + k) ∷ cs) ((b'A' + k) ∷ us)
  kept :
      (c : ℕ) (cs us : List ℕ)
      → (c < b'a') ⊎ (b'z' < c)
      → ¬ StartsWithKanji hint (c ∷ cs)
      → IsUpper hint cs us
      → IsUpper hint (c ∷ cs) (c ∷ us)

range_word : (w : ℕ) → is_kanji_range w ≡ true → IsKanjiWord w
range_word w h = elim (Bool-cases (leb w 0x9ffc)) [
  | inl low ↦ inl (ground (arith, h, low), ground (arith, low))
  | inr high ↦ inr (ground (arith, h, high), ground (arith, h, high))
]

word_range : (w : ℕ) → is_kanji_range w ≡ false → ¬ IsKanjiWord w
word_range w h (inl (lo, hi)) = ground (arith, h, lo, hi)
word_range w h (inr (lo, hi)) = ground (arith, h, lo, hi)

-- The test of `Split_identifyMode` for kanji, on what it has computed.
pair_test :
    (digit alnum asked : Bool) (w : ℕ)
    → is_kanji (
        if digit
        then num
        else if alnum
        then an
        else if asked && is_kanji_range w
        then kanji
        else eight)
      ≡ true
    → (digit ≡ false) × (alnum ≡ false) × (asked ≡ true) × IsKanjiWord w
pair_test true alnum asked w h = cc
pair_test false true asked w h = cc
pair_test false false false w h = cc
pair_test false false true w h = elim (Bool-cases (is_kanji_range w)) [
  | inl range ↦ (refl, refl, refl, range_word w range)
  | inr out ↦ absurd (no_kanji out)
]
  where
    no_kanji : is_kanji_range w ≡ false → ⊥
    no_kanji out = cc

no_pair_test :
    (digit alnum asked : Bool) (w : ℕ)
    → is_kanji (
        if digit
        then num
        else if alnum
        then an
        else if asked && is_kanji_range w
        then kanji
        else eight)
      ≡ false
    → ¬ ((digit ≡ false) × (alnum ≡ false) × (asked ≡ true) × IsKanjiWord w)
no_pair_test digit alnum asked w h (d, a, q, word) = elim (Bool-cases (is_kanji_range w)) [
  | inl range ↦ contradiction (rw (d, a, q, range) at h)
  | inr out ↦ word_range w out word
]
  where
    contradiction : true ≡ false → ⊥
    contradiction e = cc

-- One character that no pair starts with.
upper-IsUpper :
    (hint : Mode) (c : ℕ) (cs us : List ℕ)
    → ¬ StartsWithKanji hint (c ∷ cs)
    → IsUpper hint cs us
    → IsUpper hint (c ∷ cs) (upper c ∷ us)
upper-IsUpper hint c cs us alone rest = elim (Bool-cases (leb b'a' c && leb c b'z')) [
  | inl small ↦
      let place : b'a' + (c - b'a') ≡ c = ground (arith, small) in
      let value : b'A' + (c - b'a') ≡ c - 32 = ground (arith, small) in
      rw small (
        subst (λ t. IsUpper hint (t ∷ cs) ((c - 32) ∷ us)) place
          (subst (λ t. IsUpper hint ((b'a' + (c - b'a')) ∷ cs) (t ∷ us)) value
            (IsUpper.small_letter (c - b'a') cs us (ground (arith, small))
              (λ pair. alone (subst (λ t. StartsWithKanji hint (t ∷ cs)) place pair)) rest)))
  | inr other ↦ rw other (IsUpper.kept c cs us (outside other) alone rest)
]
  where
    outside : (leb b'a' c && leb c b'z') ≡ false → (c < b'a') ⊎ (b'z' < c)
    outside h = elim (Bool-cases (leb b'a' c)) [
      | inl above ↦ inr (ground (arith, above, h))
      | inr below ↦ inl (ground (arith, below))
    ]

-- `dupAndToUpper` gives the string in upper case.
pub dup_and_to_upper-IsUpper :
    (string : List ℕ) (hint : Mode) → IsUpper hint string (dup_and_to_upper string hint)
unfolding dup_and_to_upper identify_mode
dup_and_to_upper-IsUpper [] hint = IsUpper.ended
dup_and_to_upper-IsUpper (c ∷ []) hint =
    upper-IsUpper hint c [] [] (λ none_left. none_left) IsUpper.ended
dup_and_to_upper-IsUpper (c ∷ d ∷ cs) hint =
    elim (Bool-cases (is_kanji (identify_mode (c ∷ d ∷ cs) hint))) [
      | inl pair ↦ rw pair (
          IsUpper.pair_kept c d cs (dup_and_to_upper cs hint)
            (pair_test (is_digit c) (is_alnum c) (is_kanji hint) (word_of c d) pair)
            (dup_and_to_upper-IsUpper cs hint))
      | inr alone ↦ rw alone (
          upper-IsUpper hint c (d ∷ cs) (dup_and_to_upper (d ∷ cs) hint)
            (no_pair_test (is_digit c) (is_alnum c) (is_kanji hint) (word_of c d) alone)
            (dup_and_to_upper-IsUpper (d ∷ cs) hint))
    ]
