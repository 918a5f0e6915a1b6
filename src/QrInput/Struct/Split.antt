-- ===== src/QrInput/Struct/Split.antt =====
-- qrinput.c, `QRinput_splitQRinputToStruct`. The current input is `input` with the entries `taken`,
-- which have been counted, and the entries from `list` on.
pub mod Kept
pub mod Tails
pub mod Ending
use libqrencode.Prelude.{
  ℕ, zero, suc, ◌+◌, ◌-◌, ◌*◌, Bool, List, [], ◌∷◌, ◌++◌, Option, none, some, ◌>>=◌, length, ltb,
  leb, ◌==◌, if◌then◌else◌,
}
use libqrencode.Api.{structure_header_size, max_structured_symbols}
use libqrencode.BitStream.{BitStream}
use libqrencode.BitStream
use libqrencode.QrSpec
use libqrencode.QrInput.Entry.{Entry, QrInput}
use libqrencode.QrInput.Encode.{encode_bit_stream}
use libqrencode.QrInput.Estimate.{estimate_bit_stream_size_of_entry, length_of_code}
use libqrencode.QrInput.Edit.{new2, calc_parity, dup}
use libqrencode.QrInput.Struct.{
  InputStruct, struct_new, struct_set_parity, struct_append_input, split_entry,
  insert_structured_append_headers,
}

-- The next input `p` with its entries and its `tail`.
unfoldable pub next_input : QrInput → List Entry → ℕ → Option QrInput
unfolding new2
next_input input entries tail = do
  p ← new2 input.version input.level
  some (record p { entries = entries; tail = tail })

-- The input up to the last entry that is its own.
abbrev pub closed_input : QrInput → List Entry → QrInput
closed_input input entries = record input { entries = entries; tail = length entries }

-- The variables of the loop.
pub record SplitState : Type 0 where
  pub input : QrInput
  pub taken : List Entry
  pub list : List Entry
  pub bits : ℕ
  pub bstream : BitStream
  pub parts : InputStruct

-- The position in the next input of the entry `input->tail`. Its first entry stands behind the
-- `taken` ones: it is the second part of the entry that is cut in two, or this entry as a whole. If
-- the tail is the entry that is cut in two, `p->tail` in C stays at its first part, which is no
-- entry of `p`; that is the position 0 here, and so is it ever after.
unfoldable pub tail_behind_cut : ℕ → ℕ → ℕ
tail_behind_cut tail taken = if leb tail (taken + 1) then 0 else tail - taken

-- A new input `p` with the entries `list`, after the current one has been closed with `own`.
unfoldable pub start_next : SplitState → List Entry → List Entry → ℕ → Option SplitState
unfolding next_input struct_append_input
start_next st own list tail = do
  p ← next_input st.input list tail
  s ← struct_append_input st.parts (closed_input st.input own)
  some (record st { input = p; taken = []; list = list; bits = 0; parts = s })

-- A round for the entry `e` and those behind it.
unfoldable pub split_round : ℕ → SplitState → Entry → List Entry → Option SplitState
unfolding encode_bit_stream split_entry start_next tail_behind_cut
split_round maxbits st e list =
    let version = st.input.version in
    let nextbits = estimate_bit_stream_size_of_entry e version st.input.mqr in
    let bytes = length_of_code e.mode version (maxbits - st.bits) in
    let fits = (do
      b ← encode_bit_stream e (BitStream.reset st.bstream) version st.input.mqr
      some (record st {
        taken = st.taken ++ (e ∷ []);
        list = list;
        bits = st.bits + BitStream.size b;
        bstream = b;
      })) in
    let cut = (do
      halves ← split_entry e bytes
      start_next st (st.taken ++ (halves.0 ∷ [])) (halves.1 ∷ list)
          (tail_behind_cut st.input.tail (length st.taken))) in
    if leb (st.bits + nextbits) maxbits
    then fits
    else if ltb 0 bytes
    then cut
    else start_next st st.taken (e ∷ list) (st.input.tail - length st.taken)

-- The loop, bounded by fuel. It returns the last input, which is not yet appended.
unfoldable pub split_loop : ℕ → ℕ → SplitState → Option (QrInput × InputStruct)
unfolding split_round
split_loop zero maxbits st = none
split_loop (suc n) maxbits st = elim st.list [
  | [] ↦ some (record st.input { entries = st.taken }, st.parts)
  | e ∷ list ↦ split_round maxbits st e list >>= split_loop n maxbits
]

-- Rounds that suffice: each one takes an entry, cuts one of its bytes off at least, or starts an
-- input that then takes or cuts its first entry.
unfoldable pub rounds : List Entry → ℕ
rounds [] = 1
rounds (e ∷ list) = 2 * (length e.bytes + 1) + rounds list

-- The last input and the headers, behind the loop.
unfoldable pub finish_struct : QrInput × InputStruct → Option InputStruct
unfolding struct_append_input insert_structured_append_headers
finish_struct (input, s) = do
  s' ← struct_append_input s input
  if ltb max_structured_symbols s'.size then none else insert_structured_append_headers s'

-- The variables in front of the loop, for the copy of the input.
unfoldable pub start_state : QrInput → SplitState
unfolding struct_new struct_set_parity
start_state copy = record {
  input = copy;
  taken = [];
  list = copy.entries;
  bits = 0;
  bstream = BitStream.new;
  parts = struct_set_parity struct_new (calc_parity copy);
}

-- The work on the copy of the input.
unfoldable pub split_copy : ℕ → QrInput → Option InputStruct
unfolding split_loop rounds start_state finish_struct
split_copy maxbits copy =
    if maxbits == 0
    then none
    else split_loop (rounds copy.entries) maxbits (start_state copy) >>= finish_struct

-- `maxbits` is 0 where the source has a negative number too.
unfoldable pub split_qrinput_to_struct : QrInput → Option InputStruct
unfolding dup split_copy
split_qrinput_to_struct input =
    let data_bits = QrSpec.get_data_length input.version input.level * 8 in
    if input.mqr then none else dup input >>= split_copy (data_bits - structure_header_size)
