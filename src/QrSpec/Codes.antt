-- ===== src/QrSpec/Codes.antt =====
-- The words of format and version information against the codes that they belong to.
use libqrencode.Prelude.{
  ℕ, zero, suc, ◌+◌, ◌*◌, ◌/◌, ◌%◌, ◌^◌, ◌≤◌, ◌<◌, bit_xor, Bool, true, ◌||◌, ◌≡◌, ◌≢◌, ◌⊎◌, refl,
  sym, inl, inr, ap, ◌∙◌, ==→eq, ltb, leb, ◌==◌, if◌then◌else◌, arith,
}
use libqrencode.Prelude.Tables.{all_below, all_below_sound}
use libqrencode.Api.{RecLevel, level_l, level_m, level_q, level_h, level_index}
use libqrencode.QrSpec.{get_format_info, get_version_pattern}

-- The remainder of a polynomial over two elements, its coefficients the bits of `v`, by `gen` of
-- degree `d`: the `n` digits from `d` on are cleared, the highest first.
unfoldable pub remainder : ℕ → ℕ → ℕ → ℕ → ℕ
remainder zero gen d v = v
remainder (suc n) gen d v =
    remainder n gen d (if v / 2 ^ (n + d) % 2 == 1 then bit_xor v (gen * 2 ^ n) else v)

-- The systematic code word of `v`, with `n` digits of data.
unfoldable pub code_word : ℕ → ℕ → ℕ → ℕ → ℕ
unfolding remainder
code_word n gen d v = v * 2 ^ d + remainder n gen d (v * 2 ^ d)

-- The two bits that stand for a level in a symbol.
pub level_bits : RecLevel → ℕ
level_bits level_l = 1
level_bits level_m = 0
level_bits level_q = 3
level_bits level_h = 2

level_of : ℕ → RecLevel
level_of n =
    if n == 0 then level_l else if n == 1 then level_m else if n == 2 then level_q else level_h

level_of-index : (level : RecLevel) → level_of (level_index level) ≡ level
unfolding level_of
level_of-index level_l = refl
level_of-index level_m = refl
level_of-index level_q = refl
level_of-index level_h = refl

level_index-lt : (level : RecLevel) → level_index level < 4
level_index-lt level_l = omega arith
level_index-lt level_m = omega arith
level_index-lt level_q = omega arith
level_index-lt level_h = omega arith

-- The 15-bit BCH code of the standard, with its mask pattern.
pub format_word : ℕ → RecLevel → ℕ
unfolding code_word level_bits
format_word mask level = bit_xor (code_word 5 0x537 10 (level_bits level * 8 + mask)) 0x5412

format_check : ℕ → Bool
unfolding format_word level_of
format_check k =
    get_format_info (k % 8) (level_of (k / 8)) == format_word (k % 8) (level_of (k / 8))

format_table : all_below 32 format_check ≡ true
unfolding all_below format_check get_format_info
format_table = refl

-- The masks and levels as the numbers below 32.
index : ℕ → RecLevel → ℕ
index mask level = level_index level * 8 + mask

index-lt : (mask : ℕ) (level : RecLevel) → mask ≤ 7 → index mask level < 32
unfolding index
index-lt mask level h = omega (arith, level_index-lt level)

index-mod : (mask : ℕ) (level : RecLevel) → mask ≤ 7 → index mask level % 8 ≡ mask
unfolding index
index-mod mask level h = omega arith

index-div : (mask : ℕ) (level : RecLevel) → mask ≤ 7 → level_of (index mask level / 8) ≡ level
unfolding index
index-div mask level h = ap level_of quotient ∙ level_of-index level
  where
    quotient : (level_index level * 8 + mask) / 8 ≡ level_index level
    quotient = omega arith

format_at :
    (k : ℕ)
    → k < 32
    → get_format_info (k % 8) (level_of (k / 8)) ≡ format_word (k % 8) (level_of (k / 8))
unfolding format_check
format_at k h = ==→eq _ _ (all_below_sound 32 format_check k format_table h)

-- `QRspec_getFormatInfo` gives, for the masks 0 to 7, the masked BCH code word of the level and the
-- mask, and 0 for any other mask.
pub get_format_info_code :
    (mask : ℕ) (level : RecLevel)
    → (mask ≤ 7 → get_format_info mask level ≡ format_word mask level)
      × (7 < mask → get_format_info mask level ≡ 0)
get_format_info_code mask level = (
  λ h.
      rw (index-mod mask level h, index-div mask level h) at
        (format_at (index mask level) (index-lt mask level h)),
  λ h. unfold get_format_info in ground arith,
)

-- The number of binary digits, of `n` at most, in which two words differ.
pub distance : ℕ → ℕ → ℕ → ℕ
distance zero a b = 0
distance (suc n) a b = (if a % 2 == b % 2 then 0 else 1) + distance n (a / 2) (b / 2)

distance_check : ℕ → ℕ → Bool
distance_check j k =
    j == k
    || leb 7 (
        distance 15 (get_format_info (j % 8) (level_of (j / 8)))
          (get_format_info (k % 8) (level_of (k / 8))))

distance_table : all_below 32 (λ j. all_below 32 (distance_check j)) ≡ true
unfolding all_below distance_check distance level_of get_format_info
distance_table = refl

differs : (j k d : ℕ) → (j == k || leb 7 d) ≡ true → j ≢ k → 7 ≤ d
differs j k d h ne = ground arith

distance_at :
    (j k : ℕ)
    → j < 32
    → k < 32
    → j ≢ k
    → 7
      ≤ distance 15
          (get_format_info (j % 8) (level_of (j / 8)))
          (get_format_info (k % 8) (level_of (k / 8)))
unfolding distance_check
distance_at j k h h' ne = differs j k _ far ne
  where
    far : distance_check j k ≡ true
    far =
        all_below_sound 32 (distance_check j) k
          (all_below_sound 32 (λ i. all_below 32 (distance_check i)) j distance_table h) h'

-- Two words of format information for different masks or levels differ in seven bits at least.
pub get_format_info-distance :
    (mask mask' : ℕ) (level level' : RecLevel)
    → mask ≤ 7
    → mask' ≤ 7
    → ((mask ≢ mask') ⊎ (level ≢ level'))
    → 7 ≤ distance 15 (get_format_info mask level) (get_format_info mask' level')
get_format_info-distance mask mask' level level' h h' ne =
    rw
      (
        index-mod mask level h,
        index-div mask level h,
        index-mod mask' level' h',
        index-div mask' level' h',
      )
      at
      (distance_at (index mask level) (index mask' level') (index-lt mask level h)
        (index-lt mask' level' h') apart)
  where
    masks : index mask level ≡ index mask' level' → mask ≡ mask'
    masks e = sym (index-mod mask level h) ∙ ap (λ k. k % 8) e ∙ index-mod mask' level' h'

    levels : index mask level ≡ index mask' level' → level ≡ level'
    levels e =
        sym (index-div mask level h) ∙ ap (λ k. level_of (k / 8)) e ∙ index-div mask' level' h'

    apart : index mask level ≢ index mask' level'
    apart e = elim ne [ inl p ↦ p (masks e) | inr p ↦ p (levels e) ]

version_check : ℕ → Bool
unfolding code_word
version_check v = ltb v 7 || (get_version_pattern v == code_word 6 0x1f25 12 v)

version_table : all_below 41 version_check ≡ true
unfolding all_below version_check get_version_pattern
version_table = refl

-- `QRspec_getVersionPattern` gives, for the versions 7 to 40, the word of the (18, 6) Golay code
-- with the version as its data, and 0 for any other version.
pub get_version_pattern_code :
    (version : ℕ)
    → (7 ≤ version → version ≤ 40 → get_version_pattern version ≡ code_word 6 0x1f25 12 version)
      × ((version < 7) ⊎ (40 < version) → get_version_pattern version ≡ 0)
get_version_pattern_code version = (
  λ lo hi.
      unfold version_check in
      ground (arith, all_below_sound 41 version_check version version_table (omega arith)),
  λ h. unfold get_version_pattern in ground arith,
)
