-- ===== src/QrInput/Stream.antt =====
-- qrinput.c, from the input to the padded bit stream: `QRinput_createBitStream`,
-- `QRinput_convertData`, `QRinput_appendPaddingBit...`, `QRinput_mergeBitStream`,
-- `QRinput_getBitStream` and `QRinput_getByteStream`. `none` stands for -1 or NULL. The functions
-- that change the input return it with the stream.
use libqrencode.Prelude.{
  ℕ, zero, suc, ◌+◌, ◌-◌, ◌*◌, ◌/◌, ◌%◌, Bool, List, [], ◌∷◌, Option, none, some, ◌>>=◌, ltb, leb,
  ◌==◌, if◌then◌else◌,
}
use libqrencode.BitStream.{BitStream, append_num, to_byte}
use libqrencode.BitStream
use libqrencode.QrSpec
use libqrencode.MqrSpec
use libqrencode.QrInput.Entry.{Entry, QrInput}
use libqrencode.QrInput.Encode.{encode_bit_stream}
use libqrencode.QrInput.Estimate.{estimate_version}
use libqrencode.QrInput.Edit.{get_version, set_version, insert_fnc1_header}

-- The loop over the entries.
unfoldable pub create_entries : List Entry → BitStream → ℕ → Bool → Option BitStream
create_entries [] b version mqr = some b
create_entries (e ∷ es) b version mqr =
    encode_bit_stream e b version mqr >>= (λ b'. create_entries es b' version mqr)

-- The total that the source returns is the growth of the stream.
unfoldable pub create_bit_stream : QrInput → BitStream → Option BitStream
unfolding create_entries
create_bit_stream input b = create_entries input.entries b input.version input.mqr

-- `if(ver > QRinput_getVersion(input)) QRinput_setVersion(input, ver)`; a failure is ignored.
unfoldable pub raise_version : QrInput → ℕ → QrInput
unfolding get_version set_version
raise_version input ver =
    if ltb (get_version input) ver
    then elim (set_version input ver) [ none ↦ input | some input' ↦ input' ]
    else input

-- The `for(;;)`. Each further round has a higher version, and 40 is the highest: 41 rounds are
-- enough.
unfoldable pub convert_loop : ℕ → QrInput → BitStream → Option (QrInput × BitStream)
unfolding create_bit_stream raise_version
convert_loop zero input b = none
convert_loop (suc fuel) input b = do
  b' ← create_bit_stream input (BitStream.reset b)
  let ver = QrSpec.get_minimum_version ((BitStream.size b' + 7) / 8) input.level
  let rest = convert_loop fuel (raise_version input ver) b'
  if ltb (get_version input) ver then rest else some (input, b')

unfoldable pub convert_data : QrInput → BitStream → Option (QrInput × BitStream)
unfolding convert_loop
convert_data input b = do ver ← estimate_version input; convert_loop 41 (raise_version input ver) b

-- The padding bytes from round `i` on.
unfoldable pub pad_loop : ℕ → ℕ → BitStream → BitStream
pad_loop zero i b = b
pad_loop (suc n) i b = pad_loop n (i + 1) (append_num b 8 (if i % 2 == 1 then 0x11 else 0xec))

unfoldable pub append_padding_bit : BitStream → QrInput → Option BitStream
unfolding pad_loop
append_padding_bit b input =
    let bits = BitStream.size b in
    let maxwords = QrSpec.get_data_length input.version input.level in
    let maxbits = maxwords * 8 in
    let words = (bits + 4 + 7) / 8 in
    if ltb maxbits bits
    then none
    else if maxbits == bits
    then some b
    else if leb (maxbits - bits) 4
    then some (append_num b (maxbits - bits) 0)
    else some (pad_loop (maxwords - words) 0 (append_num b (words * 8 - bits) 0))

-- `termbits` after the block on `words`.
abbrev pub term_bits : ℕ → ℕ → ℕ → ℕ
term_bits bits maxbits version =
    let termbits = version * 2 + 1 in
    let end = bits + termbits in
    let words = (end + 7) / 8 in
    if ltb (words * 8) maxbits
    then termbits + (words * 8 - end) + (if words == maxbits / 8 then maxbits - words * 8 else 0)
    else termbits + (words * 8 - end)

unfoldable pub append_padding_bit_mqr : BitStream → QrInput → Option BitStream
unfolding pad_loop
append_padding_bit_mqr b input =
    let bits = BitStream.size b in
    let maxbits = MqrSpec.get_data_length_bit input.version input.level in
    let maxwords = maxbits / 8 in
    let termbits = input.version * 2 + 1 in
    let words = (bits + termbits + 7) / 8 in
    let padlen = maxwords - words in
    let padded = pad_loop padlen 0 (append_num b (term_bits bits maxbits input.version) 0) in
    let last = maxbits - maxwords * 8 in
    if ltb maxbits bits
    then none
    else if maxbits == bits
    then some b
    else if leb (maxbits - bits) termbits
    then some (append_num b (maxbits - bits) 0)
    else if ltb 0 padlen
    then if ltb 0 last then some (append_num padded last 0) else some padded
    else some padded

unfoldable pub merge_bit_stream : QrInput → BitStream → Option (QrInput × BitStream)
unfolding create_bit_stream convert_data insert_fnc1_header
merge_bit_stream input b =
    if input.mqr
    then create_bit_stream input b >>= (λ b'. some (input, b'))
    else if input.fnc1 == 0
    then convert_data input b
    else insert_fnc1_header input >>= (λ input'. convert_data input' b)

unfoldable pub get_bit_stream : QrInput → BitStream → Option (QrInput × BitStream)
unfolding merge_bit_stream append_padding_bit append_padding_bit_mqr
get_bit_stream input b = do
  merged ← merge_bit_stream input b
  let (input', b') = merged
  padded ← if input.mqr then append_padding_bit_mqr b' input' else append_padding_bit b' input'
  some (input', padded)

unfoldable pub get_byte_stream : QrInput → Option (QrInput × List ℕ)
unfolding get_bit_stream
get_byte_stream input = do
  result ← get_bit_stream input BitStream.new
  let (input', b) = result
  bytes ← to_byte b
  some (input', bytes)
