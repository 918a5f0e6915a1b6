-- ===== src/QrInput/Bytes.antt =====
-- `QRinput_getByteStream` as a whole: from the entries to the bytes of a QR Code symbol.
use native.Mathlib.Decide.{dec_le}
use libqrencode.Prelude.{
  ℕ, zero, suc, ◌+◌, ◌-◌, ◌*◌, ◌/◌, ◌%◌, ◌≤◌, ◌<◌, Bool, false, List, [], ◌∷◌, ◌++◌, none, some,
  ◌≡◌, ap, sym, ◌∙◌, ◌==◌, if◌then◌else◌, ◌⊎◌, inl, inr, le→leb, lt→leb, arith, All, All-append,
  length, replicate, append-nil,
}
use mathlib.Core.Path.{ap₂, subst}
use libqrencode.Api.{
  RecLevel, level_l, level_m, level_q, level_h, Mode, nul, num, an, eight, kanji, structure, eci,
  fnc1_first, fnc1_second,
}
use libqrencode.BitStream.{BitStream, new, to_byte}
use libqrencode.BitStream.Num.{IsBit, num_bits, num_bits-IsBit, bytes_bits, length-bytes_bits}
use libqrencode.BitStream.Laws.{IsValid, bits, length-bits, new-IsValid}
use libqrencode.BitStream.Pack.{to_byte_lem}
use libqrencode.QrSpec.{get_data_length, get_minimum_version}
use libqrencode.QrSpec.Consistency.{get_minimum_version_lem, get_data_length_mono}
use libqrencode.QrInput.Entry.{Entry, QrInput}
use libqrencode.QrInput.Payload.{num_payload, an_payload, kanji_payload}
use libqrencode.QrInput.Segment.{segment, payload}
use libqrencode.QrInput.Stream.{
  convert_data, merge_bit_stream, get_bit_stream, get_byte_stream, append_padding_bit,
}
use libqrencode.QrInput.Padding.{padding, append_padding_bit_lem}
use libqrencode.QrInput.Convert.{IsSegment, segments, with_version, convert_data_lem}

bytes_bits-IsBit : (cs : List ℕ) → All IsBit (bytes_bits cs)
unfolding bytes_bits
bytes_bits-IsBit [] = tt
bytes_bits-IsBit (c ∷ cs) =
    All-append IsBit (num_bits 8 c) (bytes_bits cs) (num_bits-IsBit 8 c) (bytes_bits-IsBit cs)

num_payload-IsBit : (cs : List ℕ) → All IsBit (num_payload cs)
unfolding num_payload
num_payload-IsBit [] = tt
num_payload-IsBit (x ∷ []) = num_bits-IsBit 4 _
num_payload-IsBit (x ∷ y ∷ []) = num_bits-IsBit 7 _
num_payload-IsBit (x ∷ y ∷ z ∷ cs) =
    All-append IsBit _ _ (num_bits-IsBit 10 _) (num_payload-IsBit cs)

an_payload-IsBit : (cs : List ℕ) → All IsBit (an_payload cs)
unfolding an_payload
an_payload-IsBit [] = tt
an_payload-IsBit (x ∷ []) = num_bits-IsBit 6 _
an_payload-IsBit (x ∷ y ∷ cs) = All-append IsBit _ _ (num_bits-IsBit 11 _) (an_payload-IsBit cs)

kanji_payload-IsBit : (cs : List ℕ) → All IsBit (kanji_payload cs)
unfolding kanji_payload
kanji_payload-IsBit [] = tt
kanji_payload-IsBit (x ∷ []) = tt
kanji_payload-IsBit (x ∷ y ∷ cs) =
    All-append IsBit _ _ (num_bits-IsBit 13 _) (kanji_payload-IsBit cs)

payload-IsBit : (mode : Mode) (cs : List ℕ) → All IsBit (payload mode cs)
unfolding payload
payload-IsBit num cs = num_payload-IsBit cs
payload-IsBit an cs = an_payload-IsBit cs
payload-IsBit eight cs = bytes_bits-IsBit cs
payload-IsBit kanji cs = kanji_payload-IsBit cs
payload-IsBit nul cs = tt
payload-IsBit structure cs = tt
payload-IsBit eci cs = tt
payload-IsBit fnc1_first cs = tt
payload-IsBit fnc1_second cs = tt

segments-IsBit : (version : ℕ) (es : List Entry) → All IsBit (segments version es)
unfolding segments segment
segments-IsBit version [] = tt
segments-IsBit version (e ∷ es) =
    All-append IsBit _ _
      (All-append IsBit _ _ (All-append IsBit _ _ (num_bits-IsBit 4 _) (num_bits-IsBit _ _))
        (payload-IsBit e.mode e.bytes))
      (segments-IsBit version es)

zeros-IsBit : (n : ℕ) → All IsBit (replicate n 0)
zeros-IsBit zero = tt
zeros-IsBit (suc n) = (omega arith, zeros-IsBit n)

padding-IsBit : (maxwords used : ℕ) → All IsBit (padding maxwords used)
unfolding padding
padding-IsBit maxwords used = elim (dec_le (maxwords * 8 - used) 4) [
  | yes few ↦ rw (le→leb (maxwords * 8 - used) 4 few) (zeros-IsBit _)
  | no many ↦
      rw (lt→leb (maxwords * 8 - used) 4 (omega arith))
        (All-append IsBit _ _ (zeros-IsBit _) (bytes_bits-IsBit _))
]

first_symbol : (level : RecLevel) → 0 < get_data_length 1 level
unfolding get_data_length
first_symbol level_l = omega arith
first_symbol level_m = omega arith
first_symbol level_q = omega arith
first_symbol level_h = omega arith

-- A symbol of any version holds data.
holds_data : (v : ℕ) (level : RecLevel) → 1 ≤ v → v ≤ 40 → 0 < get_data_length v level
holds_data v level lo hi =
    omega (arith, first_symbol level, get_data_length_mono (v - 1) 1 v level (omega arith) hi)

-- A stream whose minimum version is no higher than `v` fits into version `v`, or into no version.
fits_or_none :
    (used v : ℕ) (level : RecLevel)
    → v ≤ 40
    → get_minimum_version ((used + 7) / 8) level ≤ v
    → get_data_length v level * 8 < used
    → get_data_length 40 level * 8 < used
fits_or_none used v level hi small over =
    elim (dec_le ((used + 7) / 8) (get_data_length 40 level)) [
      | yes fits ↦
          let bounds = get_minimum_version_lem ((used + 7) / 8) level in
          let m = get_minimum_version ((used + 7) / 8) level in
          absurd
            (omega (arith, bounds.3 fits, get_data_length_mono (v - m) m v level (omega arith) hi))
      | no never ↦ omega arith
    ]

-- The bytes of a stream that fills whole bytes.
to_byte-full :
    (c : BitStream) (words : ℕ)
    → IsValid c
    → All IsBit (bits c)
    → c.used ≡ words * 8
    → 0 < words
    → (bytes : List ℕ) × (to_byte c ≡ some bytes)
      × (bytes_bits bytes ≡ bits c)
      × (length bytes ≡ words)
to_byte-full c words v digits full pos =
    let (bytes, eq, same) = (to_byte_lem c v digits).1 (λ e. omega (arith, e)) in
    let no_rest : (8 - c.used % 8) % 8 ≡ 0 = omega arith in
    let exact : bytes_bits bytes ≡ bits c =
      same ∙ ap (λ k. bits c ++ replicate k 0) no_rest ∙ append-nil (bits c) in
    (bytes, eq, exact, omega (arith, length-bytes_bits bytes, ap length exact, length-bits c v))

plain_choice {ℓ} :
    {A : Type ℓ} (mqr : Bool) (fnc1 : ℕ) (x y z : A)
    → mqr ≡ false
    → fnc1 ≡ 0
    → (if mqr then x else if fnc1 == 0 then y else z) ≡ y
plain_choice mqr fnc1 x y z q f = rw (q, f)

merge-convert :
    (input : QrInput) (b : BitStream) (result : QrInput × BitStream)
    → input.mqr ≡ false
    → input.fnc1 ≡ 0
    → convert_data input b ≡ some result
    → merge_bit_stream input b ≡ some result
unfolding merge_bit_stream
merge-convert input b result q f e =
    plain_choice input.mqr input.fnc1 _ (convert_data input b) _ q f ∙ e

byte_stream_of :
    (input : QrInput) (v : ℕ) (c d : BitStream) (bytes : List ℕ)
    → input.mqr ≡ false
    → merge_bit_stream input new ≡ some (with_version input v, c)
    → append_padding_bit c (with_version input v) ≡ some d
    → to_byte d ≡ some bytes
    → get_byte_stream input ≡ some (with_version input v, bytes)
unfolding get_byte_stream get_bit_stream
byte_stream_of input v c d bytes q m p t = rw (m, q, p, t)

no_byte_stream :
    (input : QrInput) (v : ℕ) (c : BitStream)
    → input.mqr ≡ false
    → merge_bit_stream input new ≡ some (with_version input v, c)
    → append_padding_bit c (with_version input v) ≡ none
    → get_byte_stream input ≡ none
unfolding get_byte_stream get_bit_stream
no_byte_stream input v c q m p = rw (m, q, p)

-- An input of QR Code, of a version up to 40 and with no FNC1 header, whose entries are of the four
-- modes of data and can each be counted by one header in every version: `QRinput_getByteStream`
-- chooses a version from 1 to 40, no lower than the input's. Either the segments of the entries fit
-- into its data code words, and the call returns the input at that version and exactly that many
-- bytes, whose bits are the segments and the padding; or the segments do not fit into version 40
-- either, and the call fails.
pub get_byte_stream_lem :
    (input : QrInput)
    → input.mqr ≡ false
    → input.fnc1 ≡ 0
    → input.version ≤ 40
    → All IsSegment input.entries
    → (v : ℕ) × (1 ≤ v)
      × (input.version ≤ v)
      × (v ≤ 40)
      × ((length (segments v input.entries) ≤ get_data_length v input.level * 8)
            × ((bytes : List ℕ) × (get_byte_stream input ≡ some (with_version input v, bytes))
                × (length bytes ≡ get_data_length v input.level)
                × (bytes_bits bytes
                    ≡ segments v input.entries
                      ++ padding
                          (get_data_length v input.level)
                          (length (segments v input.entries))))
          ⊎ (get_data_length 40 input.level * 8 < length (segments v input.entries))
            × (get_byte_stream input ≡ none))
get_byte_stream_lem input q f top h =
    let (v, c, eq, lo, above, hi, valid, holds, small, full) =
      convert_data_lem input new q top h new-IsValid in
    let merged = merge-convert input new _ q f eq in
    let used : length (segments v input.entries) ≡ c.used =
      sym (ap length holds) ∙ length-bits c valid in
    let (over, fits) = append_padding_bit_lem c (with_version input v) valid in
    (
      v,
      lo,
      above,
      hi,
      elim (dec_le (length (segments v input.entries)) (get_data_length v input.level * 8)) [
        | yes room ↦
            let (d, pad, d_valid, d_holds, full) = fits (omega (arith, used)) in
            let filled =
              d_holds
              ∙ ap₂ (λ t n. t ++ padding (get_data_length v input.level) n) holds (sym used) in
            let (bytes, out, same, count) =
              to_byte-full d (get_data_length v input.level) d_valid
                (subst (All IsBit) (sym filled)
                  (All-append IsBit _ _ (segments-IsBit v input.entries) (padding-IsBit _ _)))
                full (holds_data v input.level lo hi) in
            inl (
              room,
              (bytes, byte_stream_of input v c d bytes q merged pad out, count, same ∙ filled),
            )
        | no full ↦ inr (
          omega (arith, used, fits_or_none c.used v input.level hi small (omega (arith, used))),
          no_byte_stream input v c q merged (over (omega (arith, used))),
        )
      ],
    )
