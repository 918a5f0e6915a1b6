-- ===== src/QrInput/Fnc1.antt =====
-- FNC1 in first position: `QRinput_setFNC1First`, `QRinput_mergeBitStream` and the encoding to one
-- symbol.
use libqrencode.BitStream
use libqrencode.Prelude.{
  inl, inr, Bool-cases, ◌||◌, ltb, Bool, false, none, some, ◌≡◌, refl, ap, ◌∙◌, ◌>>=◌, ◌==◌,
  if◌then◌else◌,
}
use libqrencode.BitStream.{BitStream}
use libqrencode.QrInput.Entry.{QrInput, new_entry, check}
use libqrencode.QrInput.Edit.{set_fnc1_first, insert_fnc1_header}
use libqrencode.QrInput.Stream.{merge_bit_stream, get_bit_stream, get_byte_stream, convert_data}
use libqrencode.Raw
use libqrencode.Symbol.{MaskArgument, encode_mask, encode_input}

no_entry : (input : QrInput) → insert_fnc1_header (record input { fnc1 = 1 }) ≡ none
unfolding insert_fnc1_header new_entry check
no_entry input = refl

header_choice {ℓ} :
    {A : Type ℓ} (mqr : Bool) (x y z : A)
    → mqr ≡ false
    → (if mqr then x else if 1 == 0 then y else z) ≡ z
header_choice mqr x y z q = rw q refl

merge_fails :
    (input : QrInput) (b : BitStream)
    → input.mqr ≡ false
    → merge_bit_stream (record input { fnc1 = 1 }) b ≡ none
unfolding merge_bit_stream
merge_fails input b q =
    header_choice input.mqr _ (convert_data (record input { fnc1 = 1 }) b) _ q
    ∙ ap (λ o. o >>= (λ input'. convert_data input' b)) (no_entry input)

second_choice {ℓ} : {A : Type ℓ} (mqr : Bool) (x y : A) → mqr ≡ false → (if mqr then x else y) ≡ y
second_choice mqr x y q = rw q refl

no_bytes :
    (input : QrInput) → input.mqr ≡ false → get_byte_stream (record input { fnc1 = 1 }) ≡ none
unfolding get_byte_stream get_bit_stream
no_bytes input q = rw (merge_fails input BitStream.new q) refl

no_symbol :
    (input : QrInput) (q : input.mqr ≡ false) (mask : MaskArgument)
    → encode_mask (record input { fnc1 = 1 }) mask ≡ none
unfolding encode_mask Raw.new
no_symbol input q mask = elim (Bool-cases (input.mqr || ltb 40 input.version)) [
  | inl refused ↦ rw refused refl
  | inr passed ↦ rw (passed, no_bytes input q) refl
]

-- On an input of QR Code `QRinput_setFNC1First` succeeds, and then the input cannot be made into one
-- symbol: the header needs an entry with no data, which the check refuses, so that
-- `QRinput_mergeBitStream`, `QRinput_getByteStream`, `QRcode_encodeMask` with every mask and
-- `QRcode_encodeInput` give NULL or fail, whatever the entries, the version and the level are.
pub set_fnc1_first-encode_input :
    (input : QrInput)
    → input.mqr ≡ false
    → (set_fnc1_first input ≡ some (record input { fnc1 = 1 }))
      × ((b : BitStream) → merge_bit_stream (record input { fnc1 = 1 }) b ≡ none)
      × (get_byte_stream (record input { fnc1 = 1 }) ≡ none)
      × ((mask : MaskArgument) → encode_mask (record input { fnc1 = 1 }) mask ≡ none)
      × (encode_input (record input { fnc1 = 1 }) ≡ none)
unfolding set_fnc1_first encode_input
set_fnc1_first-encode_input input q = (
  rw q refl,
  λ b. merge_fails input b q,
  no_bytes input q,
  λ mask. no_symbol input q mask,
  second_choice input.mqr _ _ q ∙ no_symbol input q MaskArgument.automatic,
)
