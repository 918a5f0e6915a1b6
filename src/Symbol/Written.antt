-- ===== src/Symbol/Written.antt =====
-- The symbols of qrencode.c against the raw codes of their inputs.
use mathlib.Core.Option.{some-injective}
use libqrencode.Prelude.{
  ℕ, ◌≤◌, false, ◌||◌, List, some, ◌≡◌, sym, ap, ◌∙◌, >>=-eq-some, length, ltb, arith, inl, inr,
}
use libqrencode.Api.{qrspec_version_max}
use libqrencode.QrInput.Entry.{QrInput}
use libqrencode.QrSpec
use libqrencode.QrSpec.Consistency.{get_width_area}
use libqrencode.Api.{level_l}
use libqrencode.QrSpec.Frame as QrFrame
use libqrencode.QrSpec.Frame.Size.{length-create_frame}
use libqrencode.Raw
use libqrencode.Raw.{RawCode}
use libqrencode.Filler.{FrameFiller, filler_set}
use libqrencode.Filler.Order.{IsInside, if-cases}
use libqrencode.Filler.Path.{fill, read_path, read_path-fill}
use libqrencode.Symbol.{QrCode, MaskArgument, masked_symbol, filled_frame, encode_mask}
use libqrencode.Symbol.Content.{symbol_modules, filler_of, put_all, put_all-fill}

pub new_frame-eq-some :
    (version : ℕ) (frame : List ℕ)
    → QrFrame.new_frame version ≡ some frame
    → (1 ≤ version) × (version ≤ 40) × (QrFrame.create_frame version ≡ frame)
unfolding QrFrame.new_frame
new_frame-eq-some version frame h =
    elim (if-cases (ltb version 1 || ltb qrspec_version_max version) _ _ h) [
      | inl (b, e) ↦ cc
      | inr (b, e) ↦ (low version b, high version b, some-injective _ frame e)
    ]
  where
    low : (v : ℕ) → (ltb v 1 || ltb 40 v) ≡ false → 1 ≤ v
    low v b = ground arith

    high : (v : ℕ) → (ltb v 1 || ltb 40 v) ≡ false → v ≤ 40
    high v b = ground arith

-- A filler at its start is inside its frame.
pub filler_of-IsInside : (version : ℕ) → 1 ≤ version → version ≤ 40 → IsInside (filler_of version)
unfolding filler_set
filler_of-IsInside version lo hi =
    let w = (get_width_area version level_l lo hi).0 in (omega arith, omega arith, omega arith)

pub filled_frame-read :
    (raw : RawCode) (f : FrameFiller)
    → filled_frame raw ≡ some f
    → read_path f.frame (length (symbol_modules raw)) (filler_of raw.version)
      ≡ some (symbol_modules raw)
unfolding filled_frame
filled_frame-read raw f h =
    let (frame, e, h') = >>=-eq-some (QrFrame.new_frame raw.version) _ h in
    let (lo, hi, made) = new_frame-eq-some raw.version frame e in
    let written : fill (filler_of raw.version) (symbol_modules raw) ≡ some f =
      sym (put_all-fill raw (filler_of raw.version))
      ∙ ap (λ t. put_all raw (filler_set (QrSpec.get_width raw.version) t false)) made
      ∙ h' in
    unfold filler_set in
    read_path-fill (filler_of raw.version) f (symbol_modules raw)
      (filler_of-IsInside raw.version lo hi) (length-create_frame raw.version) written

-- If `QRcode_encodeMask` makes a symbol, whatever the mask, then the raw code of the input was made;
-- the symbol has its version and the width of the version; and its modules are the masked ones of a
-- frame in which the way of the filler over the empty frame of the version finds the bits of the
-- data code words, the bits of the error correction code words with the mark 0x02 and the
-- remainder, in the order of `QRraw_getCode`, highest bit first. With the mask -2 that frame is
-- the symbol itself.
pub encode_mask-read :
    (input : QrInput) (mask : MaskArgument) (code : QrCode)
    → encode_mask input mask ≡ some code
    → (raw : RawCode) × (frame : List ℕ) × (Raw.new input ≡ some raw)
      × (code.version ≡ raw.version)
      × (code.width ≡ QrSpec.get_width raw.version)
      × (masked_symbol code.width frame input.level mask ≡ some code.modules)
      × (read_path frame (length (symbol_modules raw)) (filler_of raw.version)
          ≡ some (symbol_modules raw))
unfolding encode_mask
encode_mask-read input mask code h =
    elim (if-cases (input.mqr || ltb qrspec_version_max input.version) _ _ h) [
      | inl (b, e) ↦ cc
      | inr (b, e) ↦
          let (raw, r, e') = >>=-eq-some (Raw.new input) _ e in
          let (f, w, e'') = >>=-eq-some (filled_frame raw) _ e' in
          let (masked, m, last) =
            >>=-eq-some (masked_symbol (QrSpec.get_width raw.version) f.frame input.level mask) _
              e'' in
          let same = some-injective _ code last in
          (
            raw,
            f.frame,
            r,
            sym (ap QrCode.version same),
            sym (ap QrCode.width same),
            ap (λ t. masked_symbol t f.frame input.level mask) (sym (ap QrCode.width same))
                ∙ m
                ∙ ap (λ (t : QrCode). some t.modules) same,
            filled_frame-read raw f w,
          )
    ]
