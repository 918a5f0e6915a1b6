-- ===== src/Symbol/Calls.antt =====
-- qrencode.c, the calls that encode an array of bytes or that look for the version of a Micro
-- QR Code symbol. An array is `none` for NULL, and its size is the length of its list.
use native.Mathlib.Decide.{ℕ_discrete}
use native.Mathlib.Nat.{le_refl}
use libqrencode.Prelude.{
  ℕ, zero, suc, ◌+◌, Bool, true, false, List, Option, none, some, ◌>>=◌, length, ◌==◌, ◌-◌, ◌≤◌,
  ◌<◌, ◌≡◌, refl, ◌⊎◌, inl, inr, Option-cases, arith, sym, ap, ◌∙◌, if◌then◌else◌,
}
use libqrencode.Api.{Mode, eight, RecLevel, mqrspec_version_max}
use libqrencode.QrInput.Edit.{append}
use libqrencode.Symbol.{QrCode, new_input, encode_input, encode_string_real}

-- The loop over the versions from `i` on, with the rounds left: the first symbol that is made.
unfoldable pub first_version : ℕ → ℕ → (ℕ → Option QrCode) → Option QrCode
first_version zero i encode = none
first_version (suc n) i encode =
    let rest = first_version n (i + 1) encode in
    elim (encode i) [ none ↦ rest | some code ↦ some code ]

-- The versions from `version` on, or from 1 on.
unfoldable pub each_version : ℕ → (ℕ → Option QrCode) → Option QrCode
unfolding first_version
each_version version encode =
    let first = if version == 0 then 1 else version in
    first_version (mqrspec_version_max + 1 - first) first encode

unfoldable pub encode_string_mqr : Option (List ℕ) → ℕ → RecLevel → Mode → Bool → Option QrCode
unfolding each_version encode_string_real
encode_string_mqr string version level hint casesensitive =
    each_version version (λ i. encode_string_real string i level true hint casesensitive)

unfoldable pub encode_data_real : Option (List ℕ) → ℕ → RecLevel → Bool → Option QrCode
unfolding encode_input
encode_data_real bytes version level mqr = do
  cs ← bytes
  if length cs == 0
      then none
      else new_input version level mqr >>= (λ input. append input eight cs >>= encode_input)

unfoldable pub encode_data : Option (List ℕ) → ℕ → RecLevel → Option QrCode
unfolding encode_data_real
encode_data bytes version level = encode_data_real bytes version level false

unfoldable pub encode_string_8bit : Option (List ℕ) → ℕ → RecLevel → Option QrCode
unfolding encode_data_real
encode_string_8bit string version level = do
  s ← string
  encode_data_real (some s) version level false

unfoldable pub encode_data_mqr : Option (List ℕ) → ℕ → RecLevel → Option QrCode
unfolding each_version encode_data_real
encode_data_mqr bytes version level =
    each_version version (λ i. encode_data_real bytes i level true)

unfoldable pub encode_string_8bit_mqr : Option (List ℕ) → ℕ → RecLevel → Option QrCode
unfolding each_version encode_data_real
encode_string_8bit_mqr string version level = do
  s ← string
  each_version version (λ i. encode_data_real (some s) i level true)

-- The outcome of a search from the version `first` on: no version of Micro QR Code gives a symbol,
-- or `code` is that of the lowest version that does.
abbrev pub IsFirst : ℕ → (ℕ → Option QrCode) → Option QrCode → Type 0
IsFirst first encode result =
    ((result ≡ none) × ((i : ℕ) → first ≤ i → i ≤ 4 → encode i ≡ none))
    ⊎ ((k : ℕ) × (code : QrCode) × (first ≤ k)
        × (k ≤ 4)
        × (result ≡ some code)
        × (encode k ≡ some code)
        × ((i : ℕ) → first ≤ i → i < k → encode i ≡ none))

first_version-IsFirst :
    (n i : ℕ) (encode : ℕ → Option QrCode) → n ≡ 5 - i → IsFirst i encode (first_version n i encode)
unfolding first_version
first_version-IsFirst zero i encode e = inl (refl, λ j lo hi. absurd (omega arith))
first_version-IsFirst (suc n) i encode e = elim (Option-cases (encode i)) [
  | inr (code, made) ↦ inr (
    i,
    code,
    le_refl i,
    omega arith,
    rw (first_version, made) refl,
    made,
    λ j lo hi. absurd (omega arith),
  )
  | inl failed ↦
      rw (first_version, failed)
        (onwards i encode (first_version n (i + 1) encode) failed
          (first_version-IsFirst n (i + 1) encode (omega arith)))
]
  where
    onwards :
        (i : ℕ) (encode : ℕ → Option QrCode) (result : Option QrCode)
        → encode i ≡ none
        → IsFirst (i + 1) encode result
        → IsFirst i encode result
    onwards i encode result failed (inl (none_made, all)) = inl (
      none_made,
      λ j lo hi. elim (ℕ_discrete i j) [
        | yes same ↦ ap encode (sym same) ∙ failed
        | no other ↦ all j (omega arith) hi
      ],
    )
    onwards i encode result failed (inr (k, code, lo, hi, r, made, below)) = inr (
      k,
      code,
      omega arith,
      hi,
      r,
      made,
      λ j l h. elim (ℕ_discrete i j) [
        | yes same ↦ ap encode (sym same) ∙ failed
        | no other ↦ below j (omega arith) h
      ],
    )

-- `QRcode_encodeStringMQR` returns the symbol of the lowest version, from the one that is asked for
-- or from 1 if that is 0, up to 4, for which the string gives a symbol; and NULL only if no such
-- version gives one.
pub encode_string_mqr-IsFirst :
    (string : Option (List ℕ)) (version : ℕ) (level : RecLevel) (hint : Mode) (casesensitive : Bool)
    → IsFirst
        (if version == 0 then 1 else version)
        (λ i. encode_string_real string i level true hint casesensitive)
        (encode_string_mqr string version level hint casesensitive)
unfolding encode_string_mqr each_version
encode_string_mqr-IsFirst string version level hint casesensitive =
    first_version-IsFirst (5 - (if version == 0 then 1 else version))
      (if version == 0 then 1 else version) _ refl
