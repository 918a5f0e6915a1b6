-- ===== src/Symbol.antt =====
-- qrencode.c, the symbol: `QRcode_encodeMask`, `QRcode_encodeMaskMQR` and the calls that encode
-- an input, a string or an array of bytes. `none` stands for NULL, with or without `errno`;
-- allocation succeeds. A string is the list of its characters without the terminator. A level is
-- one of the four of the enumeration, and a version is not negative. The input that a call is given
-- or makes is not read again by the model, so that its changes are not returned.
pub mod Content
pub mod Calls
pub mod Written
pub mod Made
pub mod Structured
pub mod MqrContent
pub mod MqrWritten
mod Tests
use libqrencode.Prelude.{
  ℕ, zero, suc, ◌+◌, ◌-◌, ◌/◌, bit_and, bit_or, Bool, true, false, ◌&&◌, ◌||◌, not, List, [], ◌∷◌,
  Option, none, some, ◌>>=◌, length, ltb, ◌==◌, if◌then◌else◌,
}
use libqrencode.Api.{Mode, eight, kanji, RecLevel, qrspec_version_max, mqrspec_version_max}
use libqrencode.QrSpec
use libqrencode.QrSpec.Frame as QrFrame
use libqrencode.MqrSpec
use libqrencode.MqrSpec.{is_level_h}
use libqrencode.MqrSpec.Frame as MqrFrame
use libqrencode.QrInput.Entry.{QrInput}
use libqrencode.QrInput.Edit.{new2, new_mqr, append}
use libqrencode.Split.{split_string_to_qrinput, is_eight}
use libqrencode.Raw
use libqrencode.Raw.{RawCode, MqrRawCode}
use libqrencode.Filler.{FrameFiller, filler_set, next, write}
use libqrencode.Mask
use libqrencode.Mask.Demerit
use libqrencode.Mmask

pub record QrCode : Type 0 where
  pub version : ℕ
  pub width : ℕ
  pub modules : List ℕ

-- The argument `mask`: -2, any other negative number, and the number of a mask.
pub data MaskArgument : Type 0 where
  unmasked automatic : MaskArgument
  number : ℕ → MaskArgument

-- The inner loop: `n` modules for the bits of `code` from that of `bit` down.
unfoldable pub put_bits : ℕ → ℕ → ℕ → ℕ → FrameFiller → Option FrameFiller
unfolding next
put_bits zero flag bit code f = some f
put_bits (suc n) flag bit code f = do
  f' ← next f
  put_bits n flag (bit / 2) code (write (bit_or flag (if bit_and bit code == 0 then 0 else 1)) f')

-- The outer loop over `n` code words.
unfoldable pub put_codes : ℕ → ℕ → RawCode → FrameFiller → Option (RawCode × FrameFiller)
unfolding put_bits
put_codes zero flag raw f = some (raw, f)
put_codes (suc n) flag raw f = do
  f' ← put_bits 8 flag 0x80 (Raw.get_code raw).0 f
  put_codes n flag (Raw.get_code raw).1 f'

unfoldable pub put_remainder : ℕ → FrameFiller → Option FrameFiller
unfolding next
put_remainder zero f = some f
put_remainder (suc n) f = do f' ← next f; put_remainder n (write 0x02 f')

unfoldable pub masked_symbol : ℕ → List ℕ → RecLevel → MaskArgument → Option (List ℕ)
masked_symbol width frame level unmasked = some frame
masked_symbol width frame level automatic = some (Demerit.mask width frame level)
masked_symbol width frame level (number m) = Mask.make_mask width frame m level

-- The frame with the code words of `raw` in it.
unfoldable pub filled_frame : RawCode → Option FrameFiller
unfolding filler_set put_codes put_remainder
filled_frame raw = do
  frame ← QrFrame.new_frame raw.version
  data_written ←
      put_codes raw.data_length 0 raw (filler_set (QrSpec.get_width raw.version) frame false)
  ecc_written ← put_codes raw.ecc_length 0x02 data_written.0 data_written.1
  put_remainder (QrSpec.get_remainder raw.version) ecc_written.1

unfoldable pub encode_mask : QrInput → MaskArgument → Option QrCode
unfolding filled_frame masked_symbol
encode_mask input mask = if input.mqr || ltb qrspec_version_max input.version then none else (do
  raw ← Raw.new input
  f ← filled_frame raw
  masked ← masked_symbol (QrSpec.get_width raw.version) f.frame input.level mask
  some (record { version = raw.version; width = QrSpec.get_width raw.version; modules = masked }))

-- The outer loop of Micro QR Code, from the code word `i` on; the last data code word may be
-- shorter.
unfoldable pub put_mqr_data : ℕ → ℕ → MqrRawCode → FrameFiller → Option (MqrRawCode × FrameFiller)
unfolding put_bits
put_mqr_data zero i raw f = some (raw, f)
put_mqr_data (suc n) i raw f = do
  let bits = if not (raw.oddbits == 0) && i == raw.data_length - 1 then raw.oddbits else 8
  f' ← put_bits bits 0 0x80 (Raw.mqr_get_code raw).0 f
  put_mqr_data n (i + 1) (Raw.mqr_get_code raw).1 f'

unfoldable pub put_mqr_ecc : ℕ → MqrRawCode → FrameFiller → Option FrameFiller
unfolding put_bits
put_mqr_ecc zero raw f = some f
put_mqr_ecc (suc n) raw f = do
  f' ← put_bits 8 0x02 0x80 (Raw.mqr_get_code raw).0 f
  put_mqr_ecc n (Raw.mqr_get_code raw).1 f'

unfoldable pub mqr_masked_symbol : ℕ → List ℕ → RecLevel → MaskArgument → Option (List ℕ)
mqr_masked_symbol version frame level unmasked = some frame
mqr_masked_symbol version frame level automatic = Mmask.mask version frame level
mqr_masked_symbol version frame level (number m) = Mmask.make_mask version frame m level

unfoldable pub mqr_filled_frame : MqrRawCode → Option FrameFiller
unfolding filler_set put_mqr_data put_mqr_ecc
mqr_filled_frame raw = do
  frame ← MqrFrame.new_frame raw.version
  written ←
      put_mqr_data raw.data_length 0 raw (filler_set (MqrSpec.get_width raw.version) frame true)
  put_mqr_ecc raw.ecc_length written.0 written.1

unfoldable pub encode_mask_mqr : QrInput → MaskArgument → Option QrCode
unfolding mqr_filled_frame mqr_masked_symbol
encode_mask_mqr input mask =
    if not input.mqr
      || input.version == 0
      || ltb mqrspec_version_max input.version
      || is_level_h input.level
    then none
    else (do
      raw ← Raw.mqr_new input
      f ← mqr_filled_frame raw
      masked ← mqr_masked_symbol raw.version f.frame input.level mask
      some (record {
        version = raw.version;
        width = MqrSpec.get_width raw.version;
        modules = masked;
      }))

unfoldable pub encode_input : QrInput → Option QrCode
unfolding encode_mask encode_mask_mqr
encode_input input =
    if input.mqr then encode_mask_mqr input automatic else encode_mask input automatic

abbrev pub is_kanji_mode : Mode → Bool
is_kanji_mode kanji = true
is_kanji_mode _ = false

-- The hints that the calls on strings take.
abbrev pub is_hint : Mode → Bool
is_hint hint = is_eight hint || is_kanji_mode hint

abbrev pub new_input : ℕ → RecLevel → Bool → Option QrInput
new_input version level mqr = if mqr then new_mqr version level else new2 version level

-- A null string is `none`.
unfoldable pub encode_string_real :
    Option (List ℕ) → ℕ → RecLevel → Bool → Mode → Bool → Option QrCode
unfolding encode_input
encode_string_real str version level mqr hint casesensitive = do
  s ← str
  if is_hint hint
      then new_input version level mqr
        >>= (λ input. split_string_to_qrinput s input hint casesensitive >>= encode_input)
      else none

unfoldable pub encode_string : Option (List ℕ) → ℕ → RecLevel → Mode → Bool → Option QrCode
unfolding encode_string_real
encode_string str version level hint casesensitive =
    encode_string_real str version level false hint casesensitive
