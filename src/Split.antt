-- ===== src/Split.antt =====
-- split.c: the splitting of a string into entries of the modes that encode it in few bits.
-- A string is the list of its characters before the NUL. `none` stands for -1. An input that a
-- failing call has already changed is dropped. The differences `dif`, which can be negative, are
-- compared with 0 by comparing their two parts.
pub mod Eat
pub mod EatAn
pub mod EatNum
pub mod EatKanji
pub mod Upper
pub mod Whole
mod Tests
use libqrencode.Prelude.{
  ℕ, zero, suc, ◌+◌, ◌-◌, Bool, true, false, ◌&&◌, ◌||◌, List, [], ◌∷◌, Option, none, some, ◌>>=◌,
  length, take, drop, ltb, leb, ◌==◌, if◌then◌else◌,
}
use libqrencode.Api.{Mode, nul, num, an, eight, kanji}
use libqrencode.QrSpec
use libqrencode.QrSpec.{is_kanji}
use libqrencode.QrInput.Entry.{QrInput, is_some, look_an_table, word_of}
use libqrencode.QrInput.Edit.{append}
use libqrencode.QrInput.Estimate.{
  estimate_bits_mode_num, estimate_bits_mode_an, estimate_bits_mode_8,
}

abbrev pub is_digit : ℕ → Bool
is_digit c = leb b'0' c && leb c b'9'

abbrev pub is_alnum : ℕ → Bool
is_alnum c = is_some (look_an_table c)

abbrev pub is_kanji_range : ℕ → Bool
is_kanji_range word = (leb 0x8140 word && leb word 0x9ffc) || (leb 0xe040 word && leb word 0xebbf)

-- The mode of a character that is no digit and not alphanumeric, with the characters behind it.
abbrev pub other_mode : ℕ → List ℕ → Mode → Mode
other_mode c [] hint = eight
other_mode c (d ∷ rest) hint =
    if is_kanji hint && is_kanji_range (word_of c d) then kanji else eight

unfoldable pub identify_mode : List ℕ → Mode → Mode
identify_mode [] hint = nul
identify_mode (c ∷ rest) hint =
    if is_digit c then num else if is_alnum c then an else other_mode c rest hint

abbrev pub is_num : Mode → Bool
is_num num = true
is_num _ = false

abbrev pub is_an : Mode → Bool
is_an an = true
is_an _ = false

abbrev pub is_eight : Mode → Bool
is_eight eight = true
is_eight _ = false

-- The loops `while(isdigit(*q))` and `while(isalnum(*q))`: how far they go.
unfoldable pub digit_run : List ℕ → ℕ
digit_run [] = 0
digit_run (c ∷ cs) = if is_digit c then suc (digit_run cs) else 0

unfoldable pub alnum_run : List ℕ → ℕ
alnum_run [] = 0
alnum_run (c ∷ cs) = if is_alnum c then suc (alnum_run cs) else 0

unfoldable pub kanji_run : List ℕ → Mode → ℕ
unfolding identify_mode
kanji_run (c ∷ d ∷ cs) hint =
    if is_kanji (identify_mode (c ∷ d ∷ cs) hint) then suc (suc (kanji_run cs hint)) else 0
kanji_run _ hint = 0

abbrev pub head_is : (ℕ → Bool) → List ℕ → Bool
head_is test [] = false
head_is test (c ∷ cs) = test c

-- The end of each function that eats: the entry is appended, and its length returned.
unfoldable pub eaten : QrInput → Mode → List ℕ → ℕ → Option (ℕ × QrInput)
eaten input mode string run = append input mode (take run string) >>= (λ input'. some (run, input'))

-- A round of the loop of `Split_eat8`, with `k` characters before `p`: how far it goes, and 0 for
-- `break` or the end.
unfoldable pub eat_8_round : QrInput → Mode → ℕ → List ℕ → ℕ
unfolding identify_mode digit_run alnum_run
eat_8_round input hint k p =
    let la = QrSpec.length_indicator an input.version in
    let ln = QrSpec.length_indicator num input.version in
    let l8 = QrSpec.length_indicator eight input.version in
    elim (identify_mode p hint) [
      | nul ↦ 0
      | kanji ↦ 0
      | num ↦
          let n = digit_run p in
          let swcost = if is_eight (identify_mode (drop n p) hint) then 4 + l8 else 0 in
          if ltb (estimate_bits_mode_8 k + estimate_bits_mode_num n + 4 + ln + swcost)
            (estimate_bits_mode_8 (k + n))
          then 0
          else n
      | an ↦
          let n = alnum_run p in
          let swcost = if is_eight (identify_mode (drop n p) hint) then 4 + l8 else 0 in
          if ltb (estimate_bits_mode_8 k + estimate_bits_mode_an n + 4 + la + swcost)
            (estimate_bits_mode_8 (k + n))
          then 0
          else n
      | _ ↦ 1
    ]

-- Each round goes forward, so that the length of the string is enough fuel.
unfoldable pub eat_8_loop : ℕ → QrInput → Mode → ℕ → List ℕ → ℕ
unfolding eat_8_round
eat_8_loop zero input hint k p = k
eat_8_loop (suc fuel) input hint k p =
    let n = eat_8_round input hint k p in
    let more = eat_8_loop fuel input hint (k + n) (drop n p) in if n == 0 then k else more

unfoldable pub eat_8 : List ℕ → QrInput → Mode → Option (ℕ × QrInput)
unfolding eat_8_loop eaten
eat_8 string input hint =
    eaten input eight string (eat_8_loop (length string) input hint 1 (drop 1 string))

-- A round of the loop of `Split_eatAn`, in the same way.
unfoldable pub eat_an_round : QrInput → ℕ → List ℕ → ℕ
unfolding digit_run
eat_an_round input k p =
    let ln = QrSpec.length_indicator num input.version in
    let n = digit_run p in
    if head_is is_alnum p
    then if head_is is_digit p
      then if ltb
          (estimate_bits_mode_an k
            + estimate_bits_mode_num n
            + 4
            + ln
            + (if head_is is_alnum (drop n p) then 4 + ln else 0))
          (estimate_bits_mode_an (k + n))
        then 0
        else n
      else 1
    else 0

unfoldable pub eat_an_loop : ℕ → QrInput → ℕ → List ℕ → ℕ
unfolding eat_an_round
eat_an_loop zero input k p = k
eat_an_loop (suc fuel) input k p =
    let n = eat_an_round input k p in
    let more = eat_an_loop fuel input (k + n) (drop n p) in if n == 0 then k else more

unfoldable pub eat_an : List ℕ → QrInput → Mode → Option (ℕ × QrInput)
unfolding eat_an_loop eat_8 eaten
eat_an string input hint =
    let la = QrSpec.length_indicator an input.version in
    let run = eat_an_loop (length string) input 0 string in
    let p = drop run string in
    let dif =
      ltb (estimate_bits_mode_8 (run + 1))
        (estimate_bits_mode_an run + 4 + la + estimate_bits_mode_8 1) in
    if ltb 0 (length p) && (if head_is is_alnum p then false else dif)
    then eat_8 string input hint
    else eaten input an string run

unfoldable pub eat_num : List ℕ → QrInput → Mode → Option (ℕ × QrInput)
unfolding digit_run identify_mode eat_8 eat_an eaten
eat_num string input hint =
    let ln = QrSpec.length_indicator num input.version in
    let run = digit_run string in
    let mode = identify_mode (drop run string) hint in
    let cost = estimate_bits_mode_num run + 4 + ln in
    if is_eight mode && ltb (estimate_bits_mode_8 (run + 1)) (cost + estimate_bits_mode_8 1)
    then eat_8 string input hint
    else if is_an mode && ltb (estimate_bits_mode_an (run + 1)) (cost + estimate_bits_mode_an 1)
    then eat_an string input hint
    else eaten input num string run

unfoldable pub eat_kanji : List ℕ → QrInput → Mode → Option (ℕ × QrInput)
unfolding kanji_run eaten
eat_kanji string input hint = eaten input kanji string (kanji_run string hint)

unfoldable pub eat : List ℕ → QrInput → Mode → Option (ℕ × QrInput)
unfolding identify_mode eat_num eat_an eat_kanji eat_8
eat string input hint =
    let mode = identify_mode string hint in
    if is_num mode
    then eat_num string input hint
    else if is_an mode
    then eat_an string input hint
    else if is_kanji mode && is_kanji hint
    then eat_kanji string input hint
    else eat_8 string input hint

-- The loop of `Split_splitString`. Each entry that is eaten has a length above 0, so that the length
-- of the string is enough fuel.
unfoldable pub split_loop : ℕ → List ℕ → QrInput → Mode → Option QrInput
unfolding eat
split_loop fuel [] input hint = some input
split_loop zero (c ∷ cs) input hint = none
split_loop (suc fuel) (c ∷ cs) input hint = do
  result ← eat (c ∷ cs) input hint
  let (n, input') = result
  let more = split_loop fuel (drop n (c ∷ cs)) input' hint
  if n == 0 then some input' else more

unfoldable pub split_string : List ℕ → QrInput → Mode → Option QrInput
unfolding split_loop
split_string string input hint = split_loop (length string) string input hint

abbrev pub upper : ℕ → ℕ
upper c = if leb b'a' c && leb c b'z' then c - 32 else c

unfoldable pub dup_and_to_upper : List ℕ → Mode → List ℕ
unfolding identify_mode
dup_and_to_upper [] hint = []
dup_and_to_upper (c ∷ []) hint = upper c ∷ []
dup_and_to_upper (c ∷ d ∷ cs) hint =
    let behind = dup_and_to_upper cs hint in
    let next = dup_and_to_upper (d ∷ cs) hint in
    if is_kanji (identify_mode (c ∷ d ∷ cs) hint) then c ∷ d ∷ behind else upper c ∷ next

-- A null string is refused too.
unfoldable pub split_string_to_qrinput : List ℕ → QrInput → Mode → Bool → Option QrInput
unfolding split_string dup_and_to_upper
split_string_to_qrinput [] input hint casesensitive = none
split_string_to_qrinput (c ∷ cs) input hint casesensitive =
    if casesensitive
    then split_string (c ∷ cs) input hint
    else split_string (dup_and_to_upper (c ∷ cs) hint) input hint
