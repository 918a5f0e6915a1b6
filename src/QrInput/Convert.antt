-- ===== src/QrInput/Convert.antt =====
-- The bits of a whole input: `QRinput_createBitStream` and `QRinput_convertData`.
use native.Mathlib.Decide.{dec_lt, dec_le}
use libqrencode.Prelude.{
  ℕ, zero, suc, ◌+◌, ◌-◌, ◌*◌, ◌/◌, ◌≤◌, ◌<◌, ◌^◌, true, false, List, [], ◌∷◌, ◌++◌, Option, some,
  ◌≡◌, refl, ap, ◌∙◌, if◌then◌else◌, ◌>>=◌, lt→ltb, le→ltb, le→leb, lt→leb, arith, All, length,
  get_or,
}
use libqrencode.Api.{
  Mode, nul, num, an, eight, kanji, structure, eci, fnc1_first, fnc1_second, mode_index,
}
use libqrencode.BitStream.{BitStream, reset}
use libqrencode.BitStream.Laws.{
  IsValid, bits, Appended, Appended-refl, Appended-trans, reset-IsValid,
}
use libqrencode.QrSpec
use libqrencode.QrSpec.{is_splittable_mode, get_minimum_version, get_data_length}
use libqrencode.QrSpec.Consistency.{get_minimum_version_lem}
use libqrencode.QrInput.Entry.{Entry, QrInput}
use libqrencode.QrInput.Segment.{segment, encode_bit_stream-segment}
use libqrencode.QrInput.Edit.{get_version, set_version}
use libqrencode.QrInput.Estimate.{estimate_version}
use libqrencode.QrInput.Version.{estimate_version_lem}
use libqrencode.QrInput.Stream.{
  create_entries, create_bit_stream, raise_version, convert_loop, convert_data,
}

-- An entry of one of the four modes of data that one header can count in every version.
pub record IsSegment (e : Entry) : Type 0 where
  pub data_mode : is_splittable_mode e.mode ≡ true
  pub counted : length e.bytes ≤ QrSpec.maximum_words e.mode 1

pub in_range : (P : ℕ → Type 0) → P 0 → P 1 → P 2 → (version : ℕ) → P (QrSpec.version_range version)
in_range P low middle high version = elim (dec_le version 9) [
  | yes a ↦ rw (le→leb version 9 a) low
  | no a ↦ elim (dec_le version 26) [
    | yes b ↦ rw (lt→leb version 9 (omega arith), le→leb version 26 b) middle
    | no b ↦ rw (lt→leb version 9 (omega arith), lt→leb version 26 (omega arith)) high
  ]
]

abbrev words_at : Mode → ℕ → ℕ
words_at mode range =
    let bits = get_or (get_or QrSpec.length_table_bits (mode_index mode) []) range 0 in
    let words = 2 ^ bits - 1 in
    if is_splittable_mode mode then if QrSpec.is_kanji mode then words * 2 else words else 0

words_at_mono :
    (mode : Mode) (version : ℕ) → words_at mode 0 ≤ words_at mode (QrSpec.version_range version)
words_at_mono num version =
    in_range (λ r. words_at num 0 ≤ words_at num r) (omega arith) (omega arith) (omega arith)
      version
words_at_mono an version =
    in_range (λ r. words_at an 0 ≤ words_at an r) (omega arith) (omega arith) (omega arith) version
words_at_mono eight version =
    in_range (λ r. words_at eight 0 ≤ words_at eight r) (omega arith) (omega arith) (omega arith)
      version
words_at_mono kanji version =
    in_range (λ r. words_at kanji 0 ≤ words_at kanji r) (omega arith) (omega arith) (omega arith)
      version
words_at_mono nul version = omega arith
words_at_mono structure version = omega arith
words_at_mono eci version = omega arith
words_at_mono fnc1_first version = omega arith
words_at_mono fnc1_second version = omega arith

-- The count has the fewest digits in the lowest versions.
pub maximum_words_mono :
    (mode : Mode) (version : ℕ) → QrSpec.maximum_words mode 1 ≤ QrSpec.maximum_words mode version
unfolding QrSpec.maximum_words
maximum_words_mono = words_at_mono

-- The bits of all entries.
unfoldable pub segments : ℕ → List Entry → List ℕ
segments version [] = []
segments version (e ∷ es) = segment version e ++ segments version es

create_entries-segments :
    (es : List Entry) (b : BitStream) (version : ℕ)
    → All IsSegment es
    → IsValid b
    → (c : BitStream) × (create_entries es b version false ≡ some c)
      × Appended b (segments version es) c
unfolding create_entries segments
create_entries-segments [] b version h v = (b, refl, Appended-refl b v)
create_entries-segments (e ∷ es) b version (he, hes) v =
    let fits : length e.bytes ≤ QrSpec.maximum_words e.mode version =
      omega (arith, he.counted, maximum_words_mono e.mode version) in
    let (c, eq, app) = encode_bit_stream-segment e b version he.data_mode fits v in
    let (d, eq', app') = create_entries-segments es c version hes app.valid in
    (d, rw (eq, eq'), Appended-trans app app')

abbrev pub with_version : QrInput → ℕ → QrInput
with_version input v = record input { version = v }

-- The bit stream of the entries at a version, in a stream that is used again.
create-segments :
    (input : QrInput) (b : BitStream)
    → input.mqr ≡ false
    → All IsSegment input.entries
    → IsValid b
    → (c : BitStream) × (create_bit_stream input (reset b) ≡ some c)
      × IsValid c
      × (bits c ≡ segments input.version input.entries)
unfolding create_bit_stream
create-segments input b q h v =
    let (valid, empty) = reset-IsValid b v in
    let (c, eq, app) = create_entries-segments input.entries (reset b) input.version h valid in
    (c, rw q eq, app.valid, app.holds ∙ ap (λ t. t ++ segments input.version input.entries) empty)

raise_version_higher :
    (input : QrInput) (v : ℕ)
    → input.mqr ≡ false
    → v ≤ 40
    → input.version < v
    → raise_version input v ≡ with_version input v
unfolding raise_version get_version set_version
raise_version_higher input v q h grows = rw (lt→ltb input.version v grows, q, le→ltb 40 v h)

raise_version_not : (input : QrInput) (v : ℕ) → v ≤ input.version → raise_version input v ≡ input
unfolding raise_version get_version
raise_version_not input v h = rw (le→ltb input.version v h)

-- What the conversion returns, and at which version.
pub record Converted (input : QrInput) (result : Option (QrInput × BitStream)) : Type 0 where
  pub version : ℕ
  pub stream : BitStream
  pub returned : result ≡ some (with_version input version, stream)
  pub higher : input.version ≤ version
  pub highest : version ≤ 40
  pub valid : IsValid stream
  pub holds : bits stream ≡ segments version input.entries
  pub minimum : get_minimum_version ((stream.used + 7) / 8) input.level ≤ version

convert_loop-Converted :
    (fuel : ℕ) (input : QrInput) (b : BitStream)
    → input.mqr ≡ false
    → All IsSegment input.entries
    → IsValid b
    → input.version ≤ 40
    → 41 ≤ input.version + fuel
    → Converted input (convert_loop fuel input b)
unfolding convert_loop get_version
convert_loop-Converted zero input b q h v top enough = absurd (omega arith)
convert_loop-Converted (suc fuel) input b q h v top enough =
    let (c, eq, valid, holds) = create-segments input b q h v in
    let ver = get_minimum_version ((c.used + 7) / 8) input.level in
    let bounds = get_minimum_version_lem ((c.used + 7) / 8) input.level in
    elim (dec_lt input.version ver) [
      | yes grows ↦
          let rest =
            convert_loop-Converted fuel (with_version input ver) c q h valid bounds.1
              (omega arith) in
          record {
            version = rest.version;
            stream = rest.stream;
            returned =
                rw
                  (
                    eq,
                    raise_version_higher input ver q bounds.1 grows,
                    lt→ltb input.version ver grows,
                  )
                  rest.returned;
            higher = omega (arith, rest.higher);
            highest = rest.highest;
            valid = rest.valid;
            holds = rest.holds;
            minimum = rest.minimum;
          }
      | no stays ↦ record {
        version = input.version;
        stream = c;
        returned = rw (eq, le→ltb input.version ver (omega arith));
        higher = omega arith;
        highest = top;
        valid = valid;
        holds = holds;
        minimum = omega arith;
      }
    ]

raise_version-raised :
    (input : QrInput) (v : ℕ)
    → input.mqr ≡ false
    → input.version ≤ 40
    → 1 ≤ v
    → v ≤ 40
    → (w : ℕ) × (raise_version input v ≡ with_version input w)
      × (input.version ≤ w)
      × (v ≤ w)
      × (w ≤ 40)
raise_version-raised input v q top lo hi = elim (dec_lt input.version v) [
  | yes grows ↦ (v, raise_version_higher input v q hi grows, omega arith, omega arith, hi)
  | no stays ↦
      (input.version, raise_version_not input v (omega arith), omega arith, omega arith, top)
]

convert_data_from :
    (input : QrInput) (b : BitStream) (v : ℕ) (raised : QrInput)
    → estimate_version input ≡ some v
    → raise_version input v ≡ raised
    → convert_data input b ≡ convert_loop 41 raised b
unfolding convert_data
convert_data_from input b v raised e e' =
    ap (λ o. o >>= (λ ver. convert_loop 41 (raise_version input ver) b)) e
    ∙ ap (λ i. convert_loop 41 i b) e'

-- An input of QR Code, of a version up to 40, whose entries are of the four modes of data and can
-- each be counted by one header in every version: `QRinput_convertData` ends and returns the input
-- at a version from 1 to 40 that is no lower than its own, with a valid stream of exactly the
-- segments of the entries at that version; and that version is no lower than the minimum version
-- for the size of the stream. It does not fail if version 40 cannot hold the stream: the version is
-- 40 then.
pub convert_data_lem :
    (input : QrInput) (b : BitStream)
    → input.mqr ≡ false
    → input.version ≤ 40
    → All IsSegment input.entries
    → IsValid b
    → (v : ℕ) × (c : BitStream) × (convert_data input b ≡ some (with_version input v, c))
      × (1 ≤ v)
      × (input.version ≤ v)
      × (v ≤ 40)
      × IsValid c
      × (bits c ≡ segments v input.entries)
      × (get_minimum_version ((c.used + 7) / 8) input.level ≤ v)
      × (get_data_length 40 input.level < (c.used + 7) / 8 → v ≡ 40)
convert_data_lem input b q top h v =
    let (est, eq, lo, hi, settled) = estimate_version_lem input in
    let (w, raised, above, above_est, below) = raise_version-raised input est q top lo hi in
    let r = convert_loop-Converted 41 (with_version input w) b q h v below (omega arith) in
    (
      r.version,
      r.stream,
      convert_data_from input b est (with_version input w) eq raised ∙ r.returned,
      omega (arith, r.higher, above_est, lo),
      omega (arith, r.higher, above),
      r.highest,
      r.valid,
      r.holds,
      r.minimum,
      λ large.
          let top_version =
            (get_minimum_version_lem ((r.stream.used + 7) / 8) input.level).4 large in
          omega (arith, top_version, r.minimum, r.highest),
    )
