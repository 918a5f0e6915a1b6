-- ===== src/BitStream.antt =====
-- bitstream.c and bitstream.h: a growing buffer that holds one bit in each byte.
-- `buffer` is the field `data`: all `datasize` allocated cells, of which `length` are in use. A
-- cell that is allocated and not yet written holds an arbitrary byte in C, and 0 here. Allocation
-- succeeds, so the calls that return 0 or -1 return the new stream. A write outside the buffer
-- would change nothing here; none is made, as the children of this module show.
pub mod Num
pub mod Laws
pub mod Pack
mod Tests
use libqrencode.Prelude.{
  ℕ, zero, suc, ◌+◌, ◌-◌, ◌*◌, ◌/◌, ◌%◌, ◌^◌, bit_and, bit_or, Bool, List, [], ◌∷◌, ◌++◌, Option,
  none, some, length, get_or, set, take, replicate, ltb, ◌==◌, if◌then◌else◌,
}

pub record BitStream : Type 0 where
  pub used : ℕ
  pub datasize : ℕ
  pub buffer : List ℕ

abbrev pub default_bufsize : ℕ
default_bufsize = 128

abbrev pub new : BitStream
new = record { used = 0; datasize = default_bufsize; buffer = replicate default_bufsize 0 }

abbrev pub size : BitStream → ℕ
size b = b.used

abbrev pub reset : BitStream → BitStream
reset b = record b { used = 0 }

-- `memcpy` of the list to the cells from `at` on.
unfoldable pub copy_at : List ℕ → ℕ → List ℕ → List ℕ
copy_at dest at [] = dest
copy_at dest at (x ∷ xs) = copy_at (set dest at x) (at + 1) xs

pub new_with_bits : List ℕ → BitStream
new_with_bits bits = if length bits == 0 then new else record {
  used = length bits;
  datasize = length bits;
  buffer = copy_at (replicate (length bits) 0) 0 bits;
}

unfoldable pub expand : BitStream → BitStream
expand b = record b { datasize = b.datasize * 2; buffer = b.buffer ++ replicate b.datasize 0 }

-- `while(test) BitStream_expand(bstream)`, with fuel.
unfoldable pub make_room : (BitStream → Bool) → ℕ → BitStream → BitStream
make_room test zero b = b
make_room test (suc fuel) b =
    let rest = make_room test fuel (expand b) in if test b then rest else b

-- The loop shared by `writeNum` and the inner loop of `writeBytes`: one cell for each bit of
-- `num` from that of `mask` down.
unfoldable pub write_loop : ℕ → ℕ → ℕ → List ℕ → ℕ → List ℕ
write_loop zero mask num dest at = dest
write_loop (suc n) mask num dest at =
    write_loop n (mask / 2) num (set dest at (if bit_and num mask == 0 then 0 else 1)) (at + 1)

-- The shift of the 32-bit 1 is defined for `bits` from 1 to 32.
unfoldable pub write_num : List ℕ → ℕ → ℕ → ℕ → List ℕ
write_num dest at bits num = write_loop bits (2 ^ (bits - 1) % 2 ^ 32) num dest at

unfoldable pub write_bytes : List ℕ → ℕ → List ℕ → List ℕ
write_bytes dest at [] = dest
write_bytes dest at (c ∷ cs) = write_bytes (write_loop 8 0x80 c dest at) (at + 8) cs

-- `none` for the -1 of a null `arg`. Each round adds a cell at least: `arg.used` rounds suffice.
unfoldable pub append : BitStream → Option BitStream → Option BitStream
append b none = none
append b (some arg) =
    let b' = make_room (λ s. ltb s.datasize (s.used + arg.used)) arg.used b in
    some (
      if arg.used == 0 then b else record b' {
        used = b'.used + arg.used;
        buffer = copy_at b'.buffer b'.used (take arg.used arg.buffer);
      })

-- `size_t` subtraction: `used` is never above `datasize`.
unfoldable pub append_num : BitStream → ℕ → ℕ → BitStream
append_num b bits num =
    let b' = make_room (λ s. ltb (s.datasize - s.used) bits) bits b in
    if bits == 0
    then b
    else record b' { used = b'.used + bits; buffer = write_num b'.buffer b'.used bits num }

unfoldable pub append_bytes : BitStream → List ℕ → BitStream
append_bytes b bytes =
    let n = length bytes * 8 in
    let b' = make_room (λ s. ltb (s.datasize - s.used) n) n b in
    if length bytes == 0
    then b
    else record b' { used = b'.used + n; buffer = write_bytes b'.buffer b'.used bytes }

-- `n` cells from `p` on, shifted into the byte `v`.
unfoldable pub read_bits : ℕ → List ℕ → ℕ → ℕ → ℕ
read_bits zero buffer p v = v
read_bits (suc n) buffer p v = read_bits n buffer (p + 1) (bit_or (v * 2 % 256) (get_or buffer p 0))

unfoldable pub read_bytes : ℕ → List ℕ → ℕ → List ℕ
read_bytes zero buffer p = []
read_bytes (suc n) buffer p = read_bits 8 buffer p 0 ∷ read_bytes n buffer (p + 8)

-- `none` for NULL.
unfoldable pub to_byte : BitStream → Option (List ℕ)
to_byte b =
    let n = size b in
    let oddbits = bit_and n 7 in
    let last = read_bits oddbits b.buffer (n / 8 * 8) 0 * 2 ^ (8 - oddbits) % 256 in
    if n == 0
    then none
    else some (read_bytes (n / 8) b.buffer 0 ++ (if ltb 0 oddbits then last ∷ [] else []))
