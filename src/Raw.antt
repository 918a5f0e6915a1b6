-- ===== src/Raw.antt =====
-- qrencode.c, the raw code: the blocks of Reed-Solomon code and the order in which their code words
-- go to the symbol. `none` stands for NULL; allocation succeeds. The pointers of a block into the
-- arrays of code words are the lists of the code words there.
pub mod Blocks
pub mod Order
mod Tests
use libqrencode.Prelude.{
  ℕ, zero, suc, ◌+◌, ◌-◌, ◌*◌, ◌/◌, ◌%◌, List, [], ◌∷◌, ◌++◌, Option, none, some, ◌>>=◌, length,
  get_or, take, drop, replicate, ltb, leb, ◌==◌, if◌then◌else◌,
}
use libqrencode.QrSpec
use libqrencode.QrSpec.{EccSpec, get_ecc_spec, rs_block_num, rs_data_length, rs_ecc_length}
use libqrencode.MqrSpec
use libqrencode.QrInput.Entry.{QrInput}
use libqrencode.QrInput.Stream.{get_byte_stream}
use libqrencode.Rsecc.{encode}

-- `RSblock`: its two lengths are those of the lists.
pub record RsBlock : Type 0 where
  pub bytes : List ℕ
  pub ecc : List ℕ

-- The result of `RSECC_encode` is not looked at; where it fails, `ecc` is left as it was.
unfoldable pub init_block : ℕ → List ℕ → ℕ → RsBlock
init_block dl source el = record {
  bytes = take dl source;
  ecc = elim (encode el (take dl source)) [ none ↦ replicate el 0 | some ecc ↦ ecc ];
}

-- A loop over blocks of one size, from the pointer `dp` on.
unfoldable pub init_blocks : ℕ → ℕ → ℕ → List ℕ → List RsBlock
unfolding init_block
init_blocks zero dl el dp = []
init_blocks (suc n) dl el dp = init_block dl dp el ∷ init_blocks n dl el (drop dl dp)

unfoldable pub rsblock_init : EccSpec → List ℕ → List RsBlock
unfolding init_blocks
rsblock_init spec source =
    let first = init_blocks spec.blocks1 spec.data_codes1 spec.ecc_codes source in
    let behind = drop (spec.blocks1 * spec.data_codes1) source in
    if spec.blocks2 == 0
    then first
    else first ++ init_blocks spec.blocks2 spec.data_codes2 spec.ecc_codes behind

-- `QRRawCode`, without the pointers that are freed at last.
pub record RawCode : Type 0 where
  pub version : ℕ
  pub data_length : ℕ
  pub ecc_length : ℕ
  pub b1 : ℕ
  pub blocks : ℕ
  pub rsblock : List RsBlock
  pub count : ℕ

-- The version is that of the input once the byte stream has been made.
unfoldable pub new : QrInput → Option RawCode
unfolding rsblock_init
new input = do
  result ← get_byte_stream input
  let (input', datacode) = result
  let spec = get_ecc_spec input'.version input'.level
  some (record {
    version = input'.version;
    data_length = rs_data_length spec;
    ecc_length = rs_ecc_length spec;
    b1 = spec.blocks1;
    blocks = rs_block_num spec;
    rsblock = rsblock_init spec datacode;
    count = 0;
  })

-- `row` and `col` of a data code word; `dl` is the length of the first block.
unfoldable pub data_position : ℕ → ℕ → ℕ → ℕ → ℕ × ℕ
data_position blocks b1 dl count =
    let row = count % blocks in
    let col = count / blocks in ((if leb dl col then row + b1 else row), col)

abbrev no_block : RsBlock
no_block = record { bytes = []; ecc = [] }

unfoldable pub get_code : RawCode → ℕ × RawCode
unfolding data_position
get_code raw =
    let dl = length (get_or raw.rsblock 0 no_block).bytes in
    let (row, col) = data_position raw.blocks raw.b1 dl raw.count in
    let rest = raw.count - raw.data_length in
    let block = get_or raw.rsblock (rest % raw.blocks) no_block in
    let next = record raw { count = raw.count + 1 } in
    if ltb raw.count raw.data_length
    then (get_or (get_or raw.rsblock row no_block).bytes col 0, next)
    else if ltb raw.count (raw.data_length + raw.ecc_length)
    then (get_or block.ecc (rest / raw.blocks) 0, next)
    else (0, raw)

-- `MQRRawCode`; the arrays of code words are those of the block.
pub record MqrRawCode : Type 0 where
  pub version : ℕ
  pub data_length : ℕ
  pub ecc_length : ℕ
  pub rsblock : RsBlock
  pub oddbits : ℕ
  pub count : ℕ

unfoldable pub mqr_new : QrInput → Option MqrRawCode
unfolding init_block
mqr_new input = do
  let data_length = MqrSpec.get_data_length input.version input.level
  let ecc_length = MqrSpec.get_ecc_length input.version input.level
  result ← get_byte_stream input
  some (record {
    version = input.version;
    data_length = data_length;
    ecc_length = ecc_length;
    rsblock = init_block data_length result.1 ecc_length;
    oddbits = data_length * 8 - MqrSpec.get_data_length_bit input.version input.level;
    count = 0;
  })

unfoldable pub mqr_get_code : MqrRawCode → ℕ × MqrRawCode
mqr_get_code raw =
    let next = record raw { count = raw.count + 1 } in
    if ltb raw.count raw.data_length
    then (get_or raw.rsblock.bytes raw.count 0, next)
    else if ltb raw.count (raw.data_length + raw.ecc_length)
    then (get_or raw.rsblock.ecc (raw.count - raw.data_length) 0, next)
    else (0, raw)
