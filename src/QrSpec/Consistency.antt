-- ===== src/QrSpec/Consistency.antt =====
-- The tables against each other.
use native.Mathlib.Nat.{le_refl}
use native.Mathlib.Decide.{dec_lt}
use libqrencode.Prelude.{
  ℕ, zero, suc, ◌+◌, ◌-◌, ◌*◌, ◌/◌, ◌≤◌, ◌<◌, Bool, true, false, ◌&&◌, ◌≡◌, refl, ltb, leb, ◌==◌,
  if◌then◌else◌, ◌⊎◌, inl, inr, Bool-cases, arith, tests,
}
use libqrencode.Prelude.Tables.{all_below, all_below_sound}
use libqrencode.Api.{RecLevel, level_l, level_m, level_q, level_h}
use libqrencode.QrSpec.{
  get_data_length, get_ecc_length, minimum_loop, get_minimum_version, get_width, get_remainder,
  get_ecc_spec, rs_data_length, rs_ecc_length,
}

unfoldable pub all_levels : (RecLevel → Bool) → Bool
all_levels p = p level_l && p level_m && p level_q && p level_h

pub all_levels_sound :
    (p : RecLevel → Bool) (level : RecLevel) → all_levels p ≡ true → p level ≡ true
unfolding all_levels
all_levels_sound p level_l h = ground arith
all_levels_sound p level_m h = ground arith
all_levels_sound p level_q h = ground arith
all_levels_sound p level_h h = ground arith

-- A check of every version and level.
pub for_symbols :
    (p : ℕ → RecLevel → Bool) (version : ℕ) (level : RecLevel)
    → all_below 41 (λ v. all_levels (p v)) ≡ true
    → version ≤ 40
    → p version level ≡ true
for_symbols p version level h le =
    all_levels_sound (p version) level
      (all_below_sound 41 (λ v. all_levels (p v)) version h (omega arith))

abbrev pub implies : Bool → Bool → Bool
implies true b = b
implies false b = true

-- From version 1 on, the numbers of code words for correction in a block that rsecc.c supports.
blocks_check : ℕ → RecLevel → Bool
blocks_check v l =
    (rs_data_length (get_ecc_spec v l) == get_data_length v l)
    && (rs_ecc_length (get_ecc_spec v l) == get_ecc_length v l)
    && implies (leb 1 v) (leb 2 (get_ecc_spec v l).ecc_codes && leb (get_ecc_spec v l).ecc_codes 30)

blocks_table : all_below 41 (λ v. all_levels (blocks_check v)) ≡ true
unfolding all_below all_levels blocks_check get_ecc_spec
blocks_table = refl

-- For every version from 1 to 40 and every level, the blocks of `QRspec_getEccSpec` hold exactly
-- the data code words and the error correction code words of the capacity table, and each block
-- has from 2 to 30 error correction code words.
pub get_ecc_spec_cover :
    (version : ℕ) (level : RecLevel)
    → 1 ≤ version
    → version ≤ 40
    → (rs_data_length (get_ecc_spec version level) ≡ get_data_length version level)
      × (rs_ecc_length (get_ecc_spec version level) ≡ get_ecc_length version level)
      × (2 ≤ (get_ecc_spec version level).ecc_codes)
      × ((get_ecc_spec version level).ecc_codes ≤ 30)
get_ecc_spec_cover version level lo hi =
    read (for_symbols blocks_check version level blocks_table hi)
  where
    read :
        blocks_check version level ≡ true
        → (rs_data_length (get_ecc_spec version level) ≡ get_data_length version level)
          × (rs_ecc_length (get_ecc_spec version level) ≡ get_ecc_length version level)
          × (2 ≤ (get_ecc_spec version level).ecc_codes)
          × ((get_ecc_spec version level).ecc_codes ≤ 30)
    read e = unfold blocks_check in ground arith

-- The modules of a symbol that carry no code words: the finder patterns with their separators, the
-- format information, the timing patterns, the alignment patterns less what lies on the timing
-- patterns, and the version information.
abbrev pub function_modules : ℕ → ℕ
function_modules version =
    let width = 17 + 4 * version in
    let n = version / 7 + 2 in
    192
    + 31
    + 2 * (width - 16)
    + (if leb version 1 then 0 else 25 * (n * n - 3) - 10 * (n - 2))
    + (if leb version 6 then 0 else 36)

pub premise : {version : ℕ} {b : Bool} → 1 ≤ version → implies (leb 1 version) b ≡ true → b ≡ true
premise lo e = ground arith

read_equations :
    (a b c d e f : ℕ) → ((a == b) && (c == d) && ltb e f) ≡ true → (a ≡ b) × (c ≡ d) × (e < f)
read_equations a b c d e f h = ground arith

area_check : ℕ → RecLevel → Bool
area_check v l = implies (leb 1 v) (
    (get_width v == 17 + 4 * v)
    && (get_width v * get_width v
        == function_modules v + 8 * (get_data_length v l + get_ecc_length v l) + get_remainder v)
    && ltb (get_remainder v) 8)

area_table : all_below 41 (λ v. all_levels (area_check v)) ≡ true
unfolding all_below all_levels area_check get_width get_data_length get_ecc_length get_remainder
area_table = refl

-- For every version from 1 to 40 and every level, the symbol is 17 + 4 * version modules wide, and
-- its area is made up of the function patterns, eight modules for each code word and fewer than
-- eight remainder modules.
pub get_width_area :
    (version : ℕ) (level : RecLevel)
    → 1 ≤ version
    → version ≤ 40
    → (get_width version ≡ 17 + 4 * version)
      × (get_width version * get_width version
          ≡ function_modules version
            + 8 * (get_data_length version level + get_ecc_length version level)
            + get_remainder version)
      × (get_remainder version < 8)
unfolding area_check
get_width_area version level lo hi =
    read_equations _ _ _ _ _ _ (premise lo (for_symbols area_check version level area_table hi))

-- Capacity grows with the version.
grows_check : ℕ → RecLevel → Bool
grows_check v l = leb (get_data_length v l) (get_data_length (v + 1) l)

grows_table : all_below 40 (λ v. all_levels (grows_check v)) ≡ true
unfolding all_below all_levels grows_check get_data_length
grows_table = refl

pub get_data_length_mono :
    (k v w : ℕ) (level : RecLevel)
    → v + k ≡ w
    → w ≤ 40
    → get_data_length v level ≤ get_data_length w level
get_data_length_mono zero v w level e h = rw (same) (le_refl _)
  where
    same : v ≡ w
    same = omega arith
get_data_length_mono (suc k) v w level e h =
    omega (tests, step, get_data_length_mono k (v + 1) w level (omega arith) h)
  where
    step : leb (get_data_length v level) (get_data_length (v + 1) level) ≡ true
    step =
        unfold grows_check in
        all_levels_sound (grows_check v) level
          (all_below_sound 40 (λ v. all_levels (grows_check v)) v grows_table (omega arith))

-- What the search for a version returns, over the versions from `i` to `j - 1`.
record IsMinimum (i j size : ℕ) (level : RecLevel) (v : ℕ) : Type 0 where
  too_small : (w : ℕ) → i ≤ w → w < v → get_data_length w level < size
  from : i ≤ v
  found : (v < j) × (size ≤ get_data_length v level)

minimum_loop-cases :
    (n i j size : ℕ) (level : RecLevel)
    → i + n ≡ j
    → IsMinimum i j size level (minimum_loop n i size level)
      ⊎ ((minimum_loop n i size level ≡ 40)
          × ((w : ℕ) → i ≤ w → w < j → get_data_length w level < size))
unfolding minimum_loop
minimum_loop-cases zero i j size level e = inr (refl, λ w p q. absurd (omega arith))
minimum_loop-cases (suc n) i j size level e =
    elim (Bool-cases (leb size (get_data_length i level))) [
      | inl fits ↦ rw fits (
          inl (record {
            too_small = λ w p q. absurd (omega arith);
            from = omega arith;
            found = (omega arith, omega (tests, fits));
          }))
      | inr no_fit ↦ rw no_fit (elim (minimum_loop-cases n (i + 1) j size level (omega arith)) [
        | inl m ↦ inl (record {
          too_small = λ w p q. elim (dec_lt i w) [
            | yes above ↦ m.too_small w (omega arith) q
            | no first ↦ let same : w ≡ i = omega arith in rw same (omega (tests, no_fit))
          ];
          from = omega (arith, m.from);
          found = m.found;
        })
        | inr (e, all) ↦ inr (
          e,
          λ w p q. elim (dec_lt i w) [
            | yes above ↦ all w (omega arith) q
            | no first ↦ let same : w ≡ i = omega arith in rw same (omega (tests, no_fit))
          ],
        )
      ])
    ]

-- `QRspec_getMinimumVersion` returns a version from 1 to 40 below which no version holds `size`
-- bytes at the level; it holds them itself whenever version 40 does, and is 40 otherwise.
pub get_minimum_version_lem :
    (size : ℕ) (level : RecLevel)
    → let v = get_minimum_version size level in
      (1 ≤ v)
      × (v ≤ 40)
      × ((w : ℕ) → 1 ≤ w → w < v → get_data_length w level < size)
      × (size ≤ get_data_length 40 level → size ≤ get_data_length v level)
      × (get_data_length 40 level < size → v ≡ 40)
unfolding get_minimum_version
get_minimum_version_lem size level = elim (minimum_loop-cases 40 1 41 size level refl) [
  | inl m ↦ (
    m.from,
    omega (arith, m.found),
    m.too_small,
    λ h. m.found.1,
    λ h. omega (
      arith,
      h,
      m.found,
      get_data_length_mono (40 - minimum_loop 40 1 size level) (minimum_loop 40 1 size level) 40
          level (omega (arith, m.found)) (omega arith),
    ),
  )
  | inr (e, over) ↦
      rw e (omega arith, omega arith, λ w p q. over w p (omega arith), λ h. h, λ h. refl)
]
