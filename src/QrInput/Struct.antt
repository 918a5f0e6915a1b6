-- ===== src/QrInput/Struct.antt =====
-- qrinput.c, structured input data: `QRinput_Struct`, the splitting of an input into up to 16 ones
-- and the headers of structured append. `none` stands for NULL or -1; allocation succeeds. The list
-- from `head` to `tail` is `inputs`.
pub mod Split
pub mod Headers
mod Tests
use libqrencode.Prelude.{
  ℕ, zero, suc, ◌+◌, ◌-◌, ◌*◌, ◌%◌, bit_xor, Bool, List, [], ◌∷◌, ◌++◌, Option, none, some, ◌>>=◌,
  length, take, drop, ltb, leb, ◌==◌, if◌then◌else◌,
}
use libqrencode.Api.{Mode, max_structured_symbols}
use libqrencode.QrInput.Entry.{Entry, QrInput, new_entry}
use libqrencode.QrInput.Edit.{calc_parity, insert_structured_append_header}

-- `_QRinput_Struct`; the parity -1 is `none`.
pub record InputStruct : Type 0 where
  pub size : ℕ
  pub parity : Option ℕ
  pub inputs : List QrInput

unfoldable pub struct_new : InputStruct
struct_new = record { size = 0; parity = none; inputs = [] }

-- The argument is an `unsigned char`.
unfoldable pub struct_set_parity : InputStruct → ℕ → InputStruct
struct_set_parity s parity = record s { parity = some (parity % 256) }

unfoldable pub struct_append_input : InputStruct → QrInput → Option InputStruct
struct_append_input s input =
    if input.mqr
    then none
    else some (record s { size = s.size + 1; inputs = s.inputs ++ (input ∷ []) })

-- The loop of `QRinput_Struct_calcParity`.
unfoldable pub struct_parity : List QrInput → ℕ → ℕ
unfolding calc_parity
struct_parity [] parity = parity
struct_parity (input ∷ inputs) parity = struct_parity inputs (bit_xor parity (calc_parity input))

unfoldable pub struct_calc_parity : InputStruct → InputStruct
unfolding struct_set_parity struct_parity
struct_calc_parity s = struct_set_parity s (struct_parity s.inputs 0)

-- `QRinput_splitEntry`: the shrunk entry and the new one, which stands behind it.
unfoldable pub split_entry : Entry → ℕ → Option (Entry × Entry)
unfolding new_entry
split_entry e bytes = do
  second ← new_entry e.mode (drop bytes e.bytes)
  some (record e { bytes = take bytes e.bytes }, second)

-- The loop of `QRinput_Struct_insertStructuredAppendHeaders`, with the number `i`.
unfoldable pub insert_headers : ℕ → ℕ → ℕ → List QrInput → Option (List QrInput)
unfolding insert_structured_append_header
insert_headers size i parity [] = some []
insert_headers size i parity (input ∷ inputs) = do
  input' ← insert_structured_append_header input size i parity
  inputs' ← insert_headers size (i + 1) parity inputs
  some (input' ∷ inputs')

abbrev pub has_parity : InputStruct → InputStruct
has_parity s = elim s.parity [ none ↦ struct_calc_parity s | some parity ↦ s ]

abbrev pub parity_of : InputStruct → ℕ
parity_of s = elim s.parity [ none ↦ 0 | some parity ↦ parity ]

unfoldable pub insert_structured_append_headers : InputStruct → Option InputStruct
unfolding struct_calc_parity insert_headers
insert_structured_append_headers s =
    let s' = has_parity s in
    if s.size == 1
    then some s
    else insert_headers s'.size 1 (parity_of s') s'.inputs
      >>= (λ inputs. some (record s' { inputs = inputs }))
