-- ===== src/Raw/Blocks.antt =====
-- The blocks of qrencode.c: they share out the data code words, and each is a code word.
use native.Mathlib.Decide.{ℕ_discrete}
use libqrencode.Prelude.{
  ℕ, zero, suc, ◌+◌, ◌*◌, ◌≤◌, ◌<◌, List, [], ◌∷◌, ◌++◌, ◌≡◌, refl, sym, ap, ◌∙◌, length,
  length-append, take, drop, take-append-drop, take_all, append_assoc, All, All-append, All-take,
  All-drop, ==_iff, ne→==, arith,
}
use mathlib.Core.Path.{ap₂}
use libqrencode.Api.{RecLevel}
use libqrencode.QrSpec.{EccSpec, get_ecc_spec, get_data_length, rs_block_num, rs_data_length}
use libqrencode.QrSpec.Consistency.{get_ecc_spec_cover}
use libqrencode.Rsecc.Roots.{evaluate, IsByte}
use libqrencode.Rsecc.Code.{encode-evaluate}
use libqrencode.Raw.{RsBlock, init_block, init_blocks, rsblock_init}

-- The data of blocks in a row.
unfoldable pub block_data : List RsBlock → List ℕ
block_data [] = []
block_data (b ∷ bs) = b.bytes ++ block_data bs

-- A block with `el` code words of correction that is a code word of the Reed-Solomon code.
pub record IsCodeBlock (el : ℕ) (b : RsBlock) : Type 0 where
  pub count : length b.ecc ≡ el
  pub root : (i : ℕ) → i < el → evaluate i (b.bytes ++ b.ecc) 0 ≡ 0

take_sum : (n m : ℕ) (xs : List ℕ) → take (n + m) xs ≡ take n xs ++ take m (drop n xs)
take_sum zero m xs = let start : 0 + m ≡ m = omega arith in ap (λ k. take k xs) start
take_sum (suc n) m [] =
    let grown : suc n + m ≡ suc (n + m) = omega arith in ap (λ k. take k []) grown ∙ sym (nothing m)
  where
    nothing : (m : ℕ) → take {A = ℕ} m [] ≡ []
    nothing zero = refl
    nothing (suc m) = refl
take_sum (suc n) m (x ∷ xs) =
    let grown : suc n + m ≡ suc (n + m) = omega arith in
    ap (λ k. take k (x ∷ xs)) grown ∙ ap (λ t. x ∷ t) (take_sum n m xs)

length-drop_from : (n : ℕ) (xs : List ℕ) → n ≤ length xs → n + length (drop n xs) ≡ length xs
length-drop_from zero xs h = omega arith
length-drop_from (suc n) [] h = absurd (omega arith)
length-drop_from (suc n) (x ∷ xs) h = omega (arith, length-drop_from n xs (omega arith))

init_block-IsCodeBlock :
    (dl el : ℕ) (dp : List ℕ)
    → 2 ≤ el
    → el ≤ 30
    → All IsByte dp
    → ((init_block dl dp el).bytes ≡ take dl dp) × IsCodeBlock el (init_block dl dp el)
unfolding init_block
init_block-IsCodeBlock dl el dp lo hi h =
    let (ecc, eq, count, bytes, roots) =
      encode-evaluate el (take dl dp) lo hi (All-take IsByte dl dp h) in
    rw eq (refl, record { count = count; root = roots })

-- Blocks of one size.
record SharesOut (n dl el : ℕ) (dp : List ℕ) (blocks : List RsBlock) : Type 0 where
  pub number : length blocks ≡ n
  pub contents : block_data blocks ≡ take (n * dl) dp
  pub codes : All (IsCodeBlock el) blocks

init_blocks-SharesOut :
    (n dl el : ℕ) (dp : List ℕ)
    → 2 ≤ el
    → el ≤ 30
    → All IsByte dp
    → SharesOut n dl el dp (init_blocks n dl el dp)
unfolding init_blocks block_data
init_blocks-SharesOut zero dl el dp lo hi h =
    let none_yet : 0 * dl ≡ 0 = omega arith in
    record { number = refl; contents = sym (ap (λ k. take k dp) none_yet); codes = tt }
init_blocks-SharesOut (suc n) dl el dp lo hi h =
    let (bytes, code) = init_block-IsCodeBlock dl el dp lo hi h in
    let rest = init_blocks-SharesOut n dl el (drop dl dp) lo hi (All-drop IsByte dl dp h) in
    let size : suc n * dl ≡ dl + n * dl = omega arith in
    record {
      number = ap suc rest.number;
      contents =
          ap₂ ◌++◌ bytes rest.contents
          ∙ sym (take_sum dl (n * dl) dp)
          ∙ sym (ap (λ k. take k dp) size);
      codes = (code, rest.codes);
    }

block_data-append : (xs ys : List RsBlock) → block_data (xs ++ ys) ≡ block_data xs ++ block_data ys
unfolding block_data
block_data-append [] ys = refl
block_data-append (x ∷ xs) ys =
    ap (λ t. x.bytes ++ t) (block_data-append xs ys)
    ∙ sym (append_assoc x.bytes (block_data xs) (block_data ys))

blocks_shared :
    (spec : EccSpec) (source : List ℕ)
    → 2 ≤ spec.ecc_codes
    → spec.ecc_codes ≤ 30
    → length source ≡ rs_data_length spec
    → All IsByte source
    → (length (rsblock_init spec source) ≡ rs_block_num spec)
      × (block_data (rsblock_init spec source) ≡ source)
      × All (IsCodeBlock spec.ecc_codes) (rsblock_init spec source)
unfolding rsblock_init
blocks_shared spec source few many size h = elim (ℕ_discrete spec.blocks2 0) [
  | yes one_size ↦
      let no_more : spec.blocks2 * spec.data_codes2 ≡ 0 * spec.data_codes2 =
        ap (λ t. t * spec.data_codes2) one_size in
      rw ((==_iff spec.blocks2 0).1 one_size) (
        omega (arith, first.number, one_size),
        first.contents ∙ take_all split source (omega (arith, size, no_more)),
        first.codes,
      )
  | no two_sizes ↦
      let behind = drop split source in
      let rest : length behind ≡ spec.blocks2 * spec.data_codes2 =
        omega (arith, length-drop_from split source (omega (arith, size)), size) in
      let second =
        init_blocks-SharesOut spec.blocks2 spec.data_codes2 spec.ecc_codes behind few many
          (All-drop IsByte split source h) in
      let blocks1 = init_blocks spec.blocks1 spec.data_codes1 spec.ecc_codes source in
      let blocks2 = init_blocks spec.blocks2 spec.data_codes2 spec.ecc_codes behind in
      rw (ne→== spec.blocks2 0 two_sizes) (
        omega (arith, length-append blocks1 blocks2, first.number, second.number),
        block_data-append blocks1 blocks2
            ∙ ap₂ ◌++◌ first.contents (
                second.contents
                ∙ take_all (spec.blocks2 * spec.data_codes2) behind (omega (arith, rest)))
            ∙ take-append-drop split source,
        All-append (IsCodeBlock spec.ecc_codes) blocks1 blocks2 first.codes second.codes,
      )
]
  where
    split : ℕ
    split = spec.blocks1 * spec.data_codes1

    first :
        SharesOut spec.blocks1 spec.data_codes1 spec.ecc_codes source
          (init_blocks spec.blocks1 spec.data_codes1 spec.ecc_codes source)
    first = init_blocks-SharesOut spec.blocks1 spec.data_codes1 spec.ecc_codes source few many h

-- For every version from 1 to 40, every level, and as many bytes as the symbol has data code words,
-- `RSblock_init` makes the blocks of the specification: their data are the bytes in order, and each
-- has the specified number of code words of correction and is a code word of the Reed-Solomon
-- code.
pub rsblock_init_lem :
    (version : ℕ) (level : RecLevel) (source : List ℕ)
    → 1 ≤ version
    → version ≤ 40
    → length source ≡ get_data_length version level
    → All IsByte source
    → let spec = get_ecc_spec version level in
      (length (rsblock_init spec source) ≡ rs_block_num spec)
      × (block_data (rsblock_init spec source) ≡ source)
      × All (IsCodeBlock spec.ecc_codes) (rsblock_init spec source)
rsblock_init_lem version level source lo hi size h =
    let (cover, ecc, few, many) = get_ecc_spec_cover version level lo hi in
    blocks_shared (get_ecc_spec version level) source few many (size ∙ sym cover) h
