-- ===== src/Symbol/Made.antt =====
-- The symbols of QR Code are made whenever the code words are, and hold them.
use mathlib.Core.Option.{map}
use libqrencode.Prelude.{
  ℕ, zero, suc, ◌+◌, ◌*◌, ◌≤◌, Bool, false, ◌||◌, List, Option, none, some, ◌≡◌, refl, ◌∙◌, length,
  length-append, length-replicate, ltb, le→ltb, arith, ◌>>=◌, replicate, ◌++◌,
}
use libqrencode.Api.{RecLevel, level_l, qrspec_version_max}
use libqrencode.BitStream.Num.{num_bits, length-num_bits}
use libqrencode.QrInput.Entry.{QrInput}
use libqrencode.QrInput.Stream.{get_byte_stream}
use libqrencode.QrSpec
use libqrencode.QrSpec.Consistency.{get_width_area, get_ecc_spec_cover}
use libqrencode.QrSpec.Frame as QrFrame
use libqrencode.Raw
use libqrencode.Raw.{RawCode}
use libqrencode.Filler.{FrameFiller}
use libqrencode.Filler.Path.{read_path}
use libqrencode.Filler.Capacity.{fill_total}
use libqrencode.Filler.Room.{qr_room, count_path-create_frame}
use libqrencode.Symbol.{QrCode, MaskArgument, masked_symbol, filled_frame, encode_mask}
use libqrencode.Symbol.Content.{
  code_modules, after_codes, flagged, symbol_modules, filler_of, put_all-fill,
}
use libqrencode.Symbol.MqrContent.{length-flagged}
use libqrencode.Symbol.Written.{filler_of-IsInside, filled_frame-read}

length-code_modules : (n flag : ℕ) (raw : RawCode) → length (code_modules n flag raw) ≡ 8 * n
unfolding code_modules
length-code_modules zero flag raw = refl
length-code_modules (suc n) flag raw =
    let (code, raw') = Raw.get_code raw in
    omega (
      arith,
      length-append (flagged flag (num_bits 8 code)) (code_modules n flag raw'),
      length-flagged flag (num_bits 8 code),
      length-num_bits 8 code,
      length-code_modules n flag raw',
    )

length-symbol_modules :
    (raw : RawCode)
    → length (symbol_modules raw)
      ≡ 8 * raw.data_length + (8 * raw.ecc_length + QrSpec.get_remainder raw.version)
unfolding symbol_modules
length-symbol_modules raw =
    let data_codes = code_modules raw.data_length 0 raw in
    let ecc_codes = code_modules raw.ecc_length 0x02 (after_codes raw.data_length raw) in
    let rest = QrSpec.get_remainder raw.version in
    omega (
      arith,
      length-append data_codes (ecc_codes ++ replicate rest 0x02),
      length-append ecc_codes (replicate rest 0x02),
      length-code_modules raw.data_length 0 raw,
      length-code_modules raw.ecc_length 0x02 (after_codes raw.data_length raw),
      length-replicate {A = ℕ} rest 0x02,
    )

-- The lengths of a raw code are those of its version at the level.
abbrev IsRawOf : RecLevel → RawCode → Type 0
IsRawOf level raw =
    (raw.data_length ≡ QrSpec.rs_data_length (QrSpec.get_ecc_spec raw.version level))
    × (raw.ecc_length ≡ QrSpec.rs_ecc_length (QrSpec.get_ecc_spec raw.version level))

abbrev made_of : QrInput × List ℕ → RawCode
made_of (input, datacode) =
    let spec = QrSpec.get_ecc_spec input.version input.level in
    record {
      version = input.version;
      data_length = QrSpec.rs_data_length spec;
      ecc_length = QrSpec.rs_ecc_length spec;
      b1 = spec.blocks1;
      blocks = QrSpec.rs_block_num spec;
      rsblock = Raw.rsblock_init spec datacode;
      count = 0;
    }

-- What `QRraw_new` makes.
raw_of :
    (input : QrInput) (result : QrInput × List ℕ)
    → get_byte_stream input ≡ some result
    → (raw : RawCode) × (Raw.new input ≡ some raw)
      × (raw.version ≡ result.0.version)
      × IsRawOf result.0.level raw
unfolding Raw.new
raw_of input result made = (made_of result, rw (made) refl, refl, (refl, refl))

filled :
    (level : RecLevel) (raw : RawCode)
    → 1 ≤ raw.version
    → raw.version ≤ 40
    → IsRawOf level raw
    → (f : FrameFiller) × (filled_frame raw ≡ some f)
unfolding filled_frame QrFrame.new_frame
filled level raw lo hi (d, e) =
    let version = raw.version in
    let (data_cover, ecc_cover, _, _) = get_ecc_spec_cover version level lo hi in
    let here = (get_width_area version level lo hi).1 in
    let at_l = (get_width_area version level_l lo hi).1 in
    let needed : length (symbol_modules raw) ≡ qr_room version =
      omega (arith, length-symbol_modules raw, d, e, data_cover, ecc_cover, here, at_l) in
    let (f, written) =
      fill_total (qr_room version + 1) (filler_of version) (symbol_modules raw)
        (filler_of-IsInside version lo hi)
        (omega (arith, count_path-create_frame version lo hi, needed)) in
    let low : ltb version 1 ≡ false = le→ltb version 1 lo in
    let high : ltb 40 version ≡ false = le→ltb 40 version hi in
    (f, rw (low, high) (put_all-fill raw (filler_of version) ∙ written))

abbrev pub symbol_of : RawCode → List ℕ → QrCode
symbol_of raw modules = record {
  version = raw.version;
  width = QrSpec.get_width raw.version;
  modules = modules;
}

-- `QRcode_encodeMask` past its guards and with every part made.
encode_of :
    (input : QrInput) (raw : RawCode) (f : FrameFiller) (mask : MaskArgument)
    → (input.mqr || ltb qrspec_version_max input.version) ≡ false
    → Raw.new input ≡ some raw
    → filled_frame raw ≡ some f
    → encode_mask input mask
      ≡ map (symbol_of raw) (masked_symbol (QrSpec.get_width raw.version) f.frame input.level mask)
unfolding encode_mask
encode_of input raw f mask guard new e =
    rw (guard, new, e)
      (bind-map (symbol_of raw)
        (masked_symbol (QrSpec.get_width raw.version) f.frame input.level mask))
  where
    bind-map :
        (h : List ℕ → QrCode) (o : Option (List ℕ))
        → (o >>= (λ modules. some (h modules))) ≡ map h o
    bind-map h none = refl
    bind-map h (some modules) = refl

-- For an input of QR Code of a version up to 40 whose data fit, so that `QRinput_getByteStream` gives
-- code words for a version from 1 to 40: the raw code is made, with that version, and there is a
-- frame in which the way of the filler over the empty frame of the version finds the bits of the
-- data code words, the bits of the error correction code words with the mark 0x02 and the
-- remainder, in the order of `QRraw_getCode`, highest bit first. Whatever the mask,
-- `QRcode_encodeMask` gives the symbol of the version and its width with the modules of this frame
-- under the mask, and NULL only if the mask has no such modules.
pub encode_mask-made :
    (input : QrInput) (result : QrInput × List ℕ)
    → input.mqr ≡ false
    → input.version ≤ 40
    → get_byte_stream input ≡ some result
    → 1 ≤ result.0.version
    → result.0.version ≤ 40
    → (raw : RawCode) × (frame : List ℕ) × (Raw.new input ≡ some raw)
      × (raw.version ≡ result.0.version)
      × (read_path frame (length (symbol_modules raw)) (filler_of raw.version)
          ≡ some (symbol_modules raw))
      × ((mask : MaskArgument)
          → encode_mask input mask
            ≡ map
                (symbol_of raw)
                (masked_symbol (QrSpec.get_width raw.version) frame input.level mask))
encode_mask-made input result q small made lo hi =
    let (raw, new, v, parts) = raw_of input result made in
    let (f, e) = filled result.0.level raw (omega (arith, v)) (omega (arith, v)) parts in
    (
      raw,
      f.frame,
      new,
      v,
      filled_frame-read raw f e,
      λ mask. encode_of input raw f mask (guard_passes input.mqr input.version q small) new e,
    )
  where
    guard_passes : (m : Bool) (v : ℕ) → m ≡ false → v ≤ 40 → (m || ltb 40 v) ≡ false
    guard_passes m v e h = rw (e) (le→ltb 40 v h)
