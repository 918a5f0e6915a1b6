-- ===== src/QrInput/Struct/Split/Ending.antt =====
-- The splitting of an input comes to an end.
use libqrencode.Prelude.{
  ℕ, zero, suc, ◌+◌, ◌-◌, ◌*◌, ◌≤◌, ◌<◌, Bool, true, false, List, [], ◌∷◌, ◌++◌, Option, none, some,
  ◌≡◌, refl, sym, ap, ◌∙◌, ◌>>=◌, >>=-eq-some, length, drop, length-drop, All, ltb, leb, ◌==◌,
  if◌then◌else◌, inl, inr, ◌⊎◌, ◌&&◌, le→ltb, leb→le, Bool-cases, Option-cases, ==→eq, tests, arith,
}
use mathlib.Core.Option.{some-injective}
use mathlib.Core.Path.{subst}
use libqrencode.Api.{
  RecLevel, Mode, nul, num, an, eight, kanji, structure, eci, fnc1_first, fnc1_second,
}
use libqrencode.BitStream.{BitStream}
use libqrencode.BitStream
use libqrencode.Prelude.Tables.{all_below}
use libqrencode.QrSpec
use libqrencode.QrSpec.Consistency.{all_levels, for_symbols, implies, premise}
use libqrencode.QrInput.Entry.{Entry, QrInput, check, new_entry}
use libqrencode.QrInput.Encode.{encode_bit_stream}
use libqrencode.QrInput.Estimate.{
  estimate_bit_stream_size_of_entry, length_of_code, code_size, estimate_bits_mode_eci,
}
use libqrencode.QrInput.Segment.{length_indicator_le}
use libqrencode.QrInput.Edit.{new2}
use libqrencode.QrInput.Struct.{InputStruct, struct_append_input, split_entry}
use libqrencode.QrInput.Struct.Split.{
  SplitState, closed_input, next_input, start_next, split_round, split_loop, rounds, start_state,
}
use libqrencode.QrInput.Struct.Split.Kept.{made_entry}
use libqrencode.Filler.Order.{if-cases}

-- The loop without a bound, to its end or its failure.
pub data SplitRun (maxbits : ℕ) : SplitState → Option (QrInput × InputStruct) → Type 0 where
  ended :
      (st : SplitState)
      → st.list ≡ []
      → SplitRun maxbits st (some (record st.input { entries = st.taken }, st.parts))
  failed :
      (st : SplitState) (e : Entry) (list : List Entry)
      → st.list ≡ e ∷ list
      → split_round maxbits st e list ≡ none
      → SplitRun maxbits st none
  went_on :
      (st st' : SplitState) (e : Entry) (list : List Entry) (o : Option (QrInput × InputStruct))
      → st.list ≡ e ∷ list
      → split_round maxbits st e list ≡ some st'
      → SplitRun maxbits st' o
      → SplitRun maxbits st o

-- The rounds in front of a state, at most.
abbrev flag : ℕ → ℕ
flag bits = if bits == 0 then 0 else 1

abbrev pending : SplitState → ℕ
pending st = rounds st.list + flag st.bits

-- An ECI entry of `QRinput_appendECIheader` has four bytes.
abbrev pub IsShortEci : Entry → Type 0
IsShortEci e = e.mode ≡ eci → length e.bytes ≤ 4

-- The input that is being split is of QR Code and has a version.
abbrev IsGoing : SplitState → Type 0
IsGoing st =
    (st.input.mqr ≡ false)
    × (1 ≤ st.input.version)
    × (st.input.version ≤ 40)
    × All IsShortEci st.list

at_most_whole :
    (size maxsize : ℕ)
    → 0 < size
    → 0 < (if ltb 0 maxsize && ltb maxsize size then maxsize else size)
at_most_whole size maxsize h = ground arith

-- Where a header and 32 bits more fit, the size is not 0.
length_of_code_pos :
    (mode : Mode) (version maxbits : ℕ)
    → 52 ≤ maxbits
    → ((payload : ℕ) → 32 ≤ payload → 0 < code_size mode payload)
    → 0 < length_of_code mode version maxbits
unfolding length_of_code
length_of_code_pos mode version maxbits room pos =
    let li = length_indicator_le mode version in
    let head : ltb maxbits (4 + QrSpec.length_indicator mode version) ≡ false =
      le→ltb maxbits (4 + QrSpec.length_indicator mode version) (omega (arith, li)) in
    rw (head) (at_most_whole _ _ (pos _ (omega (arith, li))))

estimate_eci_le : (bytes : List ℕ) → estimate_bits_mode_eci bytes ≤ 28
unfolding estimate_bits_mode_eci
estimate_eci_le bytes = ground arith

-- In an empty symbol an entry fits or some of its bytes do.
progress_by_mode :
    (mode : Mode) (bytes : List ℕ) (version maxbits : ℕ)
    → 52 ≤ maxbits
    → (mode ≡ eci → length bytes ≤ 4)
    → (estimate_bit_stream_size_of_entry (record { mode = mode; bytes = bytes }) version false
        ≤ maxbits)
      ⊎ (0 < length_of_code mode version maxbits)
unfolding estimate_bit_stream_size_of_entry code_size
progress_by_mode nul bytes version maxbits room short = inl (omega arith)
progress_by_mode num bytes version maxbits room short =
    inr (length_of_code_pos num version maxbits room (λ p h. omega arith))
progress_by_mode an bytes version maxbits room short =
    inr (length_of_code_pos an version maxbits room (λ p h. omega arith))
progress_by_mode eight bytes version maxbits room short =
    inr (length_of_code_pos eight version maxbits room (λ p h. omega arith))
progress_by_mode kanji bytes version maxbits room short =
    inr (length_of_code_pos kanji version maxbits room (λ p h. omega arith))
progress_by_mode structure bytes version maxbits room short = inl (omega arith)
progress_by_mode eci bytes version maxbits room short =
    let le = estimate_eci_le bytes in
    let few = short refl in inl (unfold QrSpec.length_indicator in omega (arith, le, few))
progress_by_mode fnc1_first bytes version maxbits room short = inl (omega arith)
progress_by_mode fnc1_second bytes version maxbits room short = inl (omega arith)

progress :
    (e : Entry) (version maxbits : ℕ)
    → 52 ≤ maxbits
    → IsShortEci e
    → (estimate_bit_stream_size_of_entry e version false ≤ maxbits)
      ⊎ (0 < length_of_code e.mode version maxbits)
progress e version maxbits room short = progress_by_mode e.mode e.bytes version maxbits room short

new2_plain :
    (version : ℕ) (level : RecLevel) (p : QrInput)
    → new2 version level ≡ some p
    → (p.mqr ≡ false) × (p.version ≡ version)
unfolding new2
new2_plain version level p h = elim (if-cases (ltb 40 version) none _ h) [
  | inl (b, e) ↦ cc
  | inr (b, e) ↦
      let same = some-injective _ p e in (ap QrInput.mqr (sym same), ap QrInput.version (sym same))
]

start_next-IsGoing :
    (st st' : SplitState) (own list : List Entry) (tail : ℕ)
    → start_next st own list tail ≡ some st'
    → IsGoing st
    → All IsShortEci list
    → IsGoing st' × (st'.list ≡ list) × (st'.bits ≡ 0)
unfolding start_next next_input
start_next-IsGoing st st' own list tail h (q, lo, hi, short) shorts =
    let (p, fresh, h') = >>=-eq-some (next_input st.input list tail) _ h in
    let (p', plain, set) = >>=-eq-some (new2 st.input.version st.input.level) _ fresh in
    let (q', v) = new2_plain st.input.version st.input.level p' plain in
    let (s, added, h'') =
      >>=-eq-some (struct_append_input st.parts (closed_input st.input own)) (λ s. some (next p s))
        h' in
    let known = some-injective _ p set in
    let moved = some-injective (next p s) st' h'' in
    let version : p.version ≡ st.input.version = sym (ap QrInput.version known) ∙ v in
    subst (λ (t : SplitState). IsGoing t × (t.list ≡ list) × (t.bits ≡ 0)) moved
      ((sym (ap QrInput.mqr known) ∙ q', omega arith, omega arith, shorts), refl, refl)
  where
    next : QrInput → InputStruct → SplitState
    next p s = record st { input = p; taken = []; list = list; bits = 0; parts = s }

check-nonempty : (mode : Mode) (bytes : List ℕ) → check mode bytes ≡ true → 1 ≤ length bytes
unfolding check
check-nonempty mode [] h = cc
check-nonempty mode (c ∷ cs) h = omega arith

-- The second part of an entry is shorter by what the first one takes, and is not empty.
split_entry-shorter :
    (e : Entry) (bytes : ℕ) (halves : Entry × Entry)
    → split_entry e bytes ≡ some halves
    → (halves.1.mode ≡ e.mode)
      × (length halves.1.bytes ≡ length e.bytes - bytes)
      × (1 ≤ length e.bytes - bytes)
unfolding split_entry new_entry
split_entry-shorter e bytes halves h =
    let (second, made, h') = >>=-eq-some (new_entry e.mode (drop bytes e.bytes)) _ h in
    let parts = some-injective _ halves h' in
    let same = made_entry e.mode (drop bytes e.bytes) second made in
    let size = length-drop bytes e.bytes in
    (
      sym (ap (λ (t : Entry × Entry). t.1.mode) parts) ∙ sym (ap Entry.mode same),
      sym (ap (λ (t : Entry × Entry). length t.1.bytes) parts)
          ∙ sym (ap (λ (t : Entry). length t.bytes) same)
          ∙ size,
      omega (arith, size, full made),
    )
  where
    full :
        {second : Entry}
        → new_entry e.mode (drop bytes e.bytes) ≡ some second
        → 1 ≤ length (drop bytes e.bytes)
    full made = elim (if-cases (check e.mode (drop bytes e.bytes)) _ none made) [
      | inl (b, e') ↦ check-nonempty e.mode (drop bytes e.bytes) b
      | inr (b, e') ↦ cc
    ]

no_move :
    (est est' bits maxbits size size' : ℕ)
    → est ≡ est'
    → size ≡ size'
    → bits ≡ 0
    → leb (bits + est) maxbits ≡ false
    → ltb 0 size ≡ false
    → (est' ≤ maxbits) ⊎ (0 < size')
    → ⊥
no_move est est' bits maxbits size size' e s z t t' (inl h) = omega (tests, t)
no_move est est' bits maxbits size size' e s z t t' (inr h) = omega (tests, t')

round-pending :
    (maxbits : ℕ) (st st' : SplitState) (e : Entry) (list : List Entry)
    → 52 ≤ maxbits
    → IsGoing st
    → st.list ≡ e ∷ list
    → split_round maxbits st e list ≡ some st'
    → IsGoing st' × (pending st' < pending st)
unfolding split_round rounds
round-pending maxbits st st' e list room (q, lo, hi, shorts) same h =
    let (short, behind) = subst (All IsShortEci) same shorts in
    let size : rounds st.list ≡ 2 * (length e.bytes + 1) + rounds list = ap rounds same in
    elim (if-cases (leb (st.bits + nextbits) maxbits) _ _ h) [
      | inl (t, h') ↦
          let (b, made, h'') =
            >>=-eq-some
              (encode_bit_stream e (BitStream.reset st.bstream) st.input.version st.input.mqr)
              (λ b. some (fitted b)) h' in
          subst (λ (t : SplitState). IsGoing t × (pending t < pending st))
            (some-injective (fitted b) st' h'')
            ((q, lo, hi, behind), omega (arith, size, flag_le (st.bits + BitStream.size b)))
      | inr (t, h') ↦ elim (if-cases (ltb 0 bytes) _ _ h') [
        | inl (t', h'') ↦
            let (halves, cut, h3) = >>=-eq-some (split_entry e bytes) _ h'' in
            let (mode, shorter, left) = split_entry-shorter e bytes halves cut in
            let own = st.taken ++ (halves.0 ∷ []) in
            let (going, listed, zeroed) =
              start_next-IsGoing st st' own (halves.1 ∷ list) _ h3 (q, lo, hi, shorts)
                ((λ m. omega (arith, short (sym mode ∙ m))), behind) in
            let new_size : rounds st'.list ≡ 2 * (length halves.1.bytes + 1) + rounds list =
              ap rounds listed in
            (going, omega (tests, size, new_size, flag_zero st'.bits zeroed, t'))
        | inr (t', h'') ↦
            let (going, listed, zeroed) =
              start_next-IsGoing st st' st.taken (e ∷ list) _ h'' (q, lo, hi, shorts)
                (short, behind) in
            let new_size : rounds st'.list ≡ 2 * (length e.bytes + 1) + rounds list =
              ap rounds listed in
            (going, omega (arith, size, new_size, flag_zero st'.bits zeroed, counted short t t'))
      ]
    ]
  where
    nextbits : ℕ
    nextbits = estimate_bit_stream_size_of_entry e st.input.version st.input.mqr

    bytes : ℕ
    bytes = length_of_code e.mode st.input.version (maxbits - st.bits)

    fitted : BitStream → SplitState
    fitted b = record st {
      taken = st.taken ++ (e ∷ []);
      list = list;
      bits = st.bits + BitStream.size b;
      bstream = b;
    }

    flag_le : (n : ℕ) → flag n ≤ 1
    flag_le n = ground arith

    flag_zero : (n : ℕ) → n ≡ 0 → flag n ≡ 0
    flag_zero n h = rw (h) refl

    -- A round that takes nothing has bits in front.
    counted :
        IsShortEci e
        → leb (st.bits + nextbits) maxbits ≡ false
        → ltb 0 bytes ≡ false
        → flag st.bits ≡ 1
    counted short t t' = elim (Bool-cases (st.bits == 0)) [
      | inr z ↦ rw (z) refl
      | inl z ↦
          let none_yet : st.bits ≡ 0 = ==→eq st.bits 0 z in
          let all_room : maxbits - st.bits ≡ maxbits = omega arith in
          absurd (
            no_move _ _ _ _ _ _ (ap (estimate_bit_stream_size_of_entry e st.input.version) q)
              (ap (length_of_code e.mode st.input.version) all_room) none_yet t t'
              (progress e st.input.version maxbits room short))
    ]

loop_nil :
    (n maxbits : ℕ) (st : SplitState)
    → st.list ≡ []
    → split_loop (suc n) maxbits st ≡ some (record st.input { entries = st.taken }, st.parts)
unfolding split_loop
loop_nil n maxbits st same = rw (same) refl

loop_cons :
    (n maxbits : ℕ) (st : SplitState) (e : Entry) (list : List Entry)
    → st.list ≡ e ∷ list
    → split_loop (suc n) maxbits st ≡ (split_round maxbits st e list >>= split_loop n maxbits)
unfolding split_loop
loop_cons n maxbits st e list same = rw (same) refl

rounds_pos : (list : List Entry) → 1 ≤ rounds list
unfolding rounds
rounds_pos [] = omega arith
rounds_pos (e ∷ list) = omega (arith, rounds_pos list)

split_loop-SplitRun :
    (n maxbits : ℕ) (st : SplitState) (list : List Entry)
    → 52 ≤ maxbits
    → IsGoing st
    → st.list ≡ list
    → pending st ≤ n
    → SplitRun maxbits st (split_loop n maxbits st)
split_loop-SplitRun zero maxbits st list room going same h =
    absurd (omega (arith, rounds_pos st.list))
split_loop-SplitRun (suc n) maxbits st [] room going same h =
    subst (SplitRun maxbits st) (sym (loop_nil n maxbits st same)) (SplitRun.ended st same)
split_loop-SplitRun (suc n) maxbits st (e ∷ list) room going same h =
    let loop = loop_cons n maxbits st e list same in
    elim (Option-cases (split_round maxbits st e list)) [
      | inl made ↦
          subst (SplitRun maxbits st) (sym (loop ∙ ap (λ o. o >>= split_loop n maxbits) made))
            (SplitRun.failed st e list same made)
      | inr (st', made) ↦
          let (going', less) = round-pending maxbits st st' e list room going same made in
          subst (SplitRun maxbits st) (sym (loop ∙ ap (λ o. o >>= split_loop n maxbits) made)) (
            SplitRun.went_on st st' e list _ same made
              (split_loop-SplitRun n maxbits st' st'.list room going' refl (omega (arith, less))))
    ]

room_check : ℕ → RecLevel → Bool
room_check v l = implies (leb 1 v) (leb 9 (QrSpec.get_data_length v l))

room_table : all_below 41 (λ v. all_levels (room_check v)) ≡ true
unfolding all_below all_levels room_check QrSpec.get_data_length
room_table = refl

-- The bits that a part of a structure may have besides its header.
abbrev pub part_bits : QrInput → ℕ
part_bits input = QrSpec.get_data_length input.version input.level * 8 - 20

part_bits_le : (input : QrInput) → 1 ≤ input.version → input.version ≤ 40 → 52 ≤ part_bits input
unfolding room_check
part_bits_le input lo hi =
    let nine =
      leb→le 9 _ (premise lo (for_symbols room_check input.version input.level room_table hi)) in
    omega arith

-- For an input of QR Code with a version from 1 to 40, whose ECI entries have at most four bytes,
-- as `QRinput_appendECIheader` makes them, the loop of `QRinput_splitQRinputToStruct` comes to its
-- end or to a failure, and the bound of the model on its rounds does not cut it short: the result is
-- the one of the loop without a bound.
pub split_loop-start_state :
    (input : QrInput)
    → input.mqr ≡ false
    → 1 ≤ input.version
    → input.version ≤ 40
    → All IsShortEci input.entries
    → SplitRun
        (part_bits input)
        (start_state input)
        (split_loop (rounds input.entries) (part_bits input) (start_state input))
split_loop-start_state input q lo hi short =
    split_loop-SplitRun (rounds input.entries) (part_bits input) (start_state input) input.entries
      (part_bits_le input lo hi) (unfold start_state in (q, lo, hi, short))
      (unfold start_state in refl) (unfold start_state in omega arith)
