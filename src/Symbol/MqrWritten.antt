-- ===== src/Symbol/MqrWritten.antt =====
-- The symbols of Micro QR Code are made whenever the code words are, and hold them.
use libqrencode.Prelude.{
  ℕ, ◌+◌, ◌-◌, ◌*◌, ◌%◌, ◌≤◌, ◌<◌, Bool, true, false, ◌||◌, ◌&&◌, not, List, some, ◌≡◌, ◌≢◌, refl,
  sym, ap, ◌∙◌, length, ltb, leb, ◌==◌, ne→==, if◌then◌else◌, le→ltb, lt→leb, arith,
}
use libqrencode.Prelude.Tables.{all_below}
use libqrencode.Api.{RecLevel, mqrspec_version_max}
use libqrencode.QrInput.Entry.{QrInput}
use libqrencode.QrInput.Stream.{get_byte_stream}
use libqrencode.QrSpec.Consistency.{all_levels}
use libqrencode.MqrSpec
use libqrencode.MqrSpec.{is_level_h}
use libqrencode.MqrSpec.Consistency.{for_symbols, get_data_length_bit_area}
use libqrencode.MqrSpec.Frame as MqrFrame
use libqrencode.MqrSpec.Frame.Size.{length-create_frame}
use libqrencode.Mmask
use libqrencode.Raw
use libqrencode.Raw.{MqrRawCode}
use libqrencode.Filler.{FrameFiller, filler_set}
use libqrencode.Filler.Order.{IsInside}
use libqrencode.Filler.Path.{fill, read_path, read_path-fill}
use libqrencode.Filler.Capacity.{mqr_count, mqr_room, fill_total}
use libqrencode.Symbol.{QrCode, MaskArgument, mqr_masked_symbol, mqr_filled_frame, encode_mask_mqr}
use libqrencode.Symbol.MqrContent.{
  mqr_symbol_modules, put_mqr_all-fill, missing, length-mqr_symbol_modules,
}

-- What is used of the tables: a level that a version has holds some data, is not H, and needs as
-- many modules as the level L.
level_check : ℕ → RecLevel → Bool
level_check v l =
    if MqrSpec.get_ecc_length v l == 0
    then true
    else leb 1 (MqrSpec.get_data_length v l)
      && (MqrSpec.get_data_length_bit v l + 8 * MqrSpec.get_ecc_length v l == mqr_room v)
      && (not (is_level_h l))

level_table : all_below 5 (λ v. all_levels (level_check v)) ≡ true
unfolding all_below all_levels level_check MqrSpec.get_data_length_bit MqrSpec.get_data_length
    MqrSpec.get_ecc_length
level_table = refl

read_level :
    (e d n m : ℕ) (h : Bool)
    → (if e == 0 then true else leb 1 d && (n == m) && not h) ≡ true
    → e ≢ 0
    → (1 ≤ d) × (n ≡ m) × (h ≡ false)
read_level e d n m h c ne = (ground arith, ground arith, ground arith)

level_facts :
    (version : ℕ) (level : RecLevel)
    → version ≤ 4
    → MqrSpec.get_ecc_length version level ≢ 0
    → (1 ≤ MqrSpec.get_data_length version level)
      × (MqrSpec.get_data_length_bit version level + 8 * MqrSpec.get_ecc_length version level
          ≡ mqr_room version)
      × (is_level_h level ≡ false)
unfolding level_check
level_facts version level hi ne =
    read_level _ _ _ _ _ (for_symbols level_check version level level_table hi) ne

abbrev pub mqr_filler_of : ℕ → FrameFiller
mqr_filler_of version = filler_set (MqrSpec.get_width version) (MqrFrame.create_frame version) true

-- The raw codes that `MQRraw_new` makes for a level.
abbrev IsRawOf : RecLevel → MqrRawCode → Type 0
IsRawOf level raw =
    (raw.data_length ≡ MqrSpec.get_data_length raw.version level)
    × (raw.ecc_length ≡ MqrSpec.get_ecc_length raw.version level)
    × (raw.oddbits
        ≡ MqrSpec.get_data_length raw.version level * 8
          - MqrSpec.get_data_length_bit raw.version level)

mqr_filler_of-IsInside :
    (version : ℕ)
    → 1 ≤ version
    → MqrSpec.get_width version ≡ 9 + 2 * version
    → IsInside (mqr_filler_of version)
unfolding filler_set
mqr_filler_of-IsInside version lo w = (omega arith, omega arith, omega arith)

odd_bits :
    (odd size bits v : ℕ)
    → odd ≡ size * 8 - bits
    → size * 8 ≡ bits + (if v % 2 == 1 then 4 else 0)
    → (odd ≤ 8) × (missing odd ≡ odd)
odd_bits odd size bits v e f = four_or_none (v % 2 == 1) (omega (arith, e, f))
  where
    four_or_none : (b : Bool) → odd ≡ (if b then 4 else 0) → (odd ≤ 8) × (missing odd ≡ odd)
    four_or_none true h = (omega arith, rw (h) refl)
    four_or_none false h = (omega arith, rw (h) refl)

new_frame-some :
    (version : ℕ)
    → 1 ≤ version
    → version ≤ 4
    → MqrFrame.new_frame version ≡ some (MqrFrame.create_frame version)
unfolding MqrFrame.new_frame
new_frame-some version lo hi =
    let l : ltb version 1 ≡ false = le→ltb version 1 lo in
    let h : ltb 4 version ≡ false = le→ltb 4 version hi in rw (l, h) refl

-- For a version and a level of Micro QR Code and the raw code that is made for them, the frame of
-- the version has a module for every bit, and the walk finds the bits in it.
mqr_filled :
    (level : RecLevel) (raw : MqrRawCode)
    → 1 ≤ raw.version
    → raw.version ≤ 4
    → MqrSpec.get_ecc_length raw.version level ≢ 0
    → IsRawOf level raw
    → (f : FrameFiller) × (mqr_filled_frame raw ≡ some f)
      × (read_path f.frame (length (mqr_symbol_modules raw)) (mqr_filler_of raw.version)
          ≡ some (mqr_symbol_modules raw))
unfolding mqr_filled_frame
mqr_filled level raw lo hi ne (d, e, o) =
    let version = raw.version in
    let (w, area, bits) = (get_data_length_bit_area version level hi).1 ne in
    let (pos, room, no_h) = level_facts version level hi ne in
    let (odd, short) = odd_bits raw.oddbits _ _ version o bits in
    let needed : length (mqr_symbol_modules raw) ≡ mqr_room version =
      omega (arith, length-mqr_symbol_modules raw odd (omega arith), short, bits, room) in
    let ins = mqr_filler_of-IsInside version lo w in
    let (f, written) =
      fill_total (mqr_room version + 1) (mqr_filler_of version) (mqr_symbol_modules raw) ins
        (omega (arith, (mqr_count version lo hi).1, needed)) in
    (
      f,
      rw (new_frame-some version lo hi)
          (put_mqr_all-fill raw (mqr_filler_of version) odd ∙ written),
      found version f written ins,
    )
  where
    found :
        (version : ℕ) (f : FrameFiller)
        → fill (mqr_filler_of version) (mqr_symbol_modules raw) ≡ some f
        → IsInside (mqr_filler_of version)
        → read_path f.frame (length (mqr_symbol_modules raw)) (mqr_filler_of version)
          ≡ some (mqr_symbol_modules raw)
    found version f written ins =
        unfold filler_set in
        read_path-fill (mqr_filler_of version) f (mqr_symbol_modules raw) ins
          (length-create_frame version) written

abbrev made_of : QrInput → List ℕ → MqrRawCode
made_of input bytes =
    let data_length = MqrSpec.get_data_length input.version input.level in
    let ecc_length = MqrSpec.get_ecc_length input.version input.level in
    record {
      version = input.version;
      data_length = data_length;
      ecc_length = ecc_length;
      rsblock = Raw.init_block data_length bytes ecc_length;
      oddbits = data_length * 8 - MqrSpec.get_data_length_bit input.version input.level;
      count = 0;
    }

-- What `MQRraw_new` makes.
raw_of :
    (input : QrInput) (result : QrInput × List ℕ)
    → get_byte_stream input ≡ some result
    → (raw : MqrRawCode) × (Raw.mqr_new input ≡ some raw)
      × (raw.version ≡ input.version)
      × IsRawOf input.level raw
unfolding Raw.mqr_new
raw_of input result made = (made_of input result.1, rw (made) refl, refl, (refl, refl, refl))

guard_passes :
    (v : ℕ) (q h : Bool)
    → q ≡ true
    → 1 ≤ v
    → v ≤ 4
    → h ≡ false
    → (not q || v == 0 || ltb 4 v || h) ≡ false
guard_passes v q h e lo hi e' =
    let z : (v == 0) ≡ false = ne→== v 0 (λ z. omega arith) in
    let l : ltb 4 v ≡ false = le→ltb 4 v hi in rw (e, z, l, e') refl

-- `QRcode_encodeMaskMQR` past its guards and with every part made.
encode_of :
    (input : QrInput) (raw : MqrRawCode) (f : FrameFiller) (mask : MaskArgument) (masked : List ℕ)
    → (not input.mqr
        || input.version == 0
        || ltb mqrspec_version_max input.version
        || is_level_h input.level)
      ≡ false
    → Raw.mqr_new input ≡ some raw
    → mqr_filled_frame raw ≡ some f
    → mqr_masked_symbol raw.version f.frame input.level mask ≡ some masked
    → encode_mask_mqr input mask
      ≡ some (record {
        version = raw.version;
        width = MqrSpec.get_width raw.version;
        modules = masked;
      })
unfolding encode_mask_mqr
encode_of input raw f mask masked guard new filled m = rw (guard, new, filled, m) refl

number_masked :
    (version : ℕ) (frame : List ℕ) (level : RecLevel) (m : ℕ)
    → m < 4
    → (masked : List ℕ) × (mqr_masked_symbol version frame level (MaskArgument.number m)
        ≡ some masked)
unfolding mqr_masked_symbol Mmask.make_mask
number_masked version frame level m h =
    let l : leb 4 m ≡ false = lt→leb 4 m h in
    (Mmask.apply_mask version (MqrSpec.get_width version) frame m level, rw (l) refl)

-- For a Micro QR Code input whose version is from 1 to 4 and whose level the version has: if the
-- data fit, so that `QRinput_getByteStream` gives code words, then `QRcode_encodeMaskMQR` with the
-- mask -2 makes a symbol of the version and its width, and the way of the filler over the empty
-- frame finds in it the bits of the data code words, less the bits by which the last one is short,
-- and then those of the error correction code words with the mark 0x02. With the number of a mask
-- from 0 to 3 it makes a symbol too.
pub encode_mask_mqr-read :
    (input : QrInput) (result : QrInput × List ℕ)
    → input.mqr ≡ true
    → 1 ≤ input.version
    → input.version ≤ 4
    → MqrSpec.get_ecc_length input.version input.level ≢ 0
    → get_byte_stream input ≡ some result
    → (raw : MqrRawCode) × (code : QrCode) × (Raw.mqr_new input ≡ some raw)
      × (encode_mask_mqr input MaskArgument.unmasked ≡ some code)
      × (code.version ≡ input.version)
      × (code.width ≡ MqrSpec.get_width input.version)
      × (read_path code.modules (length (mqr_symbol_modules raw)) (mqr_filler_of input.version)
          ≡ some (mqr_symbol_modules raw))
      × ((m : ℕ)
          → m < 4
          → (masked : QrCode) × (encode_mask_mqr input (MaskArgument.number m) ≡ some masked))
encode_mask_mqr-read input result q lo hi ne made =
    let (raw, new, v, parts) = raw_of input result made in
    let (pos, room, no_h) = level_facts input.version input.level hi ne in
    let guard = guard_passes input.version input.mqr (is_level_h input.level) q lo hi no_h in
    let (f, filled, found) =
      mqr_filled input.level raw (omega (arith, v)) (omega (arith, v))
        (λ z. ne (ap (λ t. MqrSpec.get_ecc_length t input.level) (sym v) ∙ z)) parts in
    (
      raw,
      _,
      new,
      encode_of input raw f MaskArgument.unmasked f.frame guard new filled
          (plain raw.version f.frame input.level),
      v,
      ap MqrSpec.get_width v,
      ap (λ t. read_path f.frame (length (mqr_symbol_modules raw)) (mqr_filler_of t)) (sym v)
          ∙ found,
      λ m h.
          let (masked, made_masked) = number_masked raw.version f.frame input.level m h in
          (_, encode_of input raw f (MaskArgument.number m) masked guard new filled made_masked),
    )
  where
    plain :
        (version : ℕ) (frame : List ℕ) (level : RecLevel)
        → mqr_masked_symbol version frame level MaskArgument.unmasked ≡ some frame
    plain version frame level = unfold mqr_masked_symbol in refl
