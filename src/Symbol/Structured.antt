-- ===== src/Symbol/Structured.antt =====
-- qrencode.c, structured encoding: a `QRcode_List` is the list of its symbols.
use mathlib.Core.Path.{subst}
use mathlib.Core.Option.{some-injective}
use libqrencode.Prelude.{
  ℕ, ◌+◌, ◌%◌, Bool, true, false, ◌&&◌, not, List, [], ◌∷◌, Option, none, some, ◌≡◌, ◌>>=◌,
  >>=-eq-some, ◌==◌, if◌then◌else◌,
}
use libqrencode.Api.{Mode, nul, eight, RecLevel}
use libqrencode.QrInput.Entry.{QrInput}
use libqrencode.QrInput.Edit.{new2, append, calc_parity}
use libqrencode.QrInput.Struct.{InputStruct}
use libqrencode.QrInput.Struct.Split.{split_qrinput_to_struct}
use libqrencode.QrInput.Struct.Split.Kept.{content}
use libqrencode.QrInput.Struct.Headers.{IsSplit, split_qrinput_to_struct-IsSplit}
use libqrencode.Split.{split_string_to_qrinput}
use libqrencode.Symbol.{QrCode, encode_input, is_hint}

unfoldable pub list_size : List QrCode → ℕ
list_size [] = 0
list_size (code ∷ list) = list_size list + 1

-- The loop over the inputs; a failure frees what has been made.
unfoldable pub encode_inputs : List QrInput → Option (List QrCode)
unfolding encode_input
encode_inputs [] = some []
encode_inputs (input ∷ list) = do
  code ← encode_input input
  codes ← encode_inputs list
  some (code ∷ codes)

unfoldable pub encode_input_structured : InputStruct → Option (List QrCode)
unfolding encode_inputs
encode_input_structured s = encode_inputs s.inputs

unfoldable pub encode_input_to_structured : QrInput → Option (List QrCode)
unfolding split_qrinput_to_struct encode_input_structured
encode_input_to_structured input = do s ← split_qrinput_to_struct input; encode_input_structured s

-- An array or a string, which is not null.
unfoldable pub encode_data_structured_real :
    List ℕ → ℕ → RecLevel → Bool → Mode → Bool → Option (List QrCode)
unfolding encode_input_to_structured
encode_data_structured_real bytes version level eightbit hint casesensitive =
    if version == 0
    then none
    else if not eightbit && not (is_hint hint)
    then none
    else new2 version level >>= (λ input.
      (if eightbit
        then append input eight bytes
        else split_string_to_qrinput bytes input hint casesensitive)
      >>= encode_input_to_structured)

unfoldable pub encode_data_structured : List ℕ → ℕ → RecLevel → Option (List QrCode)
unfolding encode_data_structured_real
encode_data_structured bytes version level =
    encode_data_structured_real bytes version level true nul false

unfoldable pub encode_string_8bit_structured : Option (List ℕ) → ℕ → RecLevel → Option (List QrCode)
unfolding encode_data_structured
encode_string_8bit_structured string version level = do
  s ← string
  encode_data_structured s version level

unfoldable pub encode_string_structured :
    Option (List ℕ) → ℕ → RecLevel → Mode → Bool → Option (List QrCode)
unfolding encode_data_structured_real
encode_string_structured string version level hint casesensitive = do
  s ← string
  encode_data_structured_real s version level false hint casesensitive

-- Symbols made of inputs, in their order.
unfoldable pub AreMade : List QrInput → List QrCode → Type 0
AreMade [] [] = Unit
AreMade [] (code ∷ codes) = ⊥
AreMade (input ∷ inputs) [] = ⊥
AreMade (input ∷ inputs) (code ∷ codes) = (encode_input input ≡ some code) × AreMade inputs codes

encode_inputs-AreMade :
    (inputs : List QrInput) (codes : List QrCode)
    → encode_inputs inputs ≡ some codes
    → AreMade inputs codes
unfolding encode_inputs AreMade
encode_inputs-AreMade [] [] h = tt
encode_inputs-AreMade [] (code ∷ codes) h = cc
encode_inputs-AreMade (input ∷ inputs) codes h =
    let (code, one, h') = >>=-eq-some (encode_input input) _ h in
    let (rest, others, h'') = >>=-eq-some (encode_inputs inputs) _ h' in
    subst (AreMade (input ∷ inputs)) (some-injective _ codes h'')
      (one, encode_inputs-AreMade inputs rest others)

-- If the structured encoding of an input gives a list of symbols, then they are the symbols of the
-- inputs of a structure, one for each and in their order; and the structure is of at most 16 parts that hold the bytes of the input with their modes, as it is or, if there are several, with their
-- numbers and the parity of the input.
pub encode_input_to_structured-AreMade :
    (input : QrInput) (codes : List QrCode)
    → encode_input_to_structured input ≡ some codes
    → (s : InputStruct) × IsSplit (content input.entries) (calc_parity input % 256) s
      × AreMade s.inputs codes
unfolding encode_input_to_structured encode_input_structured
encode_input_to_structured-AreMade input codes h =
    let (s, made, h') = >>=-eq-some (split_qrinput_to_struct input) _ h in
    (s, split_qrinput_to_struct-IsSplit input s made, encode_inputs-AreMade s.inputs codes h')
