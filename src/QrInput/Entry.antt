-- ===== src/QrInput/Entry.antt =====
-- qrinput.c, entries of input data: the records, the checks of the data of each mode and the
-- alphanumeric table. The field `data` and its `size` are the list `bytes` and its length; the
-- fields `bstream`, never set, and `next`, the order of a list, have no counterpart.
-- `size` and `version` are never negative here.
use libqrencode.Prelude.{
  ℕ, ◌*◌, ◌^◌, bit_and, bit_or, Bool, true, false, not, ◌&&◌, ◌||◌, List, [], ◌∷◌, Option, none,
  some, length, get_or, ltb, leb, ◌==◌, if◌then◌else◌,
}
use libqrencode.Api.{
  Mode, nul, num, an, eight, kanji, structure, eci, fnc1_first, fnc1_second, RecLevel,
}

-- `QRinput_List`
pub record Entry : Type 0 where
  pub mode : Mode
  pub bytes : List ℕ

-- `struct _QRinput`. `entries` is the list from `head` on. `tail` is the position, from 1, of the
-- entry that the field `tail` points to, and 0 for NULL.
pub record QrInput : Type 0 where
  pub version : ℕ
  pub level : RecLevel
  pub entries : List Entry
  pub tail : ℕ
  pub mqr : Bool
  pub fnc1 : ℕ
  pub appid : ℕ

-- The table of `signed char`, with -1 as its byte 255.
unfoldable pub an_table : List ℕ
an_table =
    255 ∷ 255 ∷ 255 ∷ 255 ∷ 255 ∷ 255 ∷ 255 ∷ 255 ∷ 255 ∷ 255 ∷ 255 ∷ 255 ∷ 255 ∷ 255 ∷ 255 ∷ 255
    ∷ 255 ∷ 255 ∷ 255 ∷ 255 ∷ 255 ∷ 255 ∷ 255 ∷ 255 ∷ 255 ∷ 255 ∷ 255 ∷ 255 ∷ 255 ∷ 255 ∷ 255 ∷ 255
    ∷ 36 ∷ 255 ∷ 255 ∷ 255 ∷ 37 ∷ 38 ∷ 255 ∷ 255 ∷ 255 ∷ 255 ∷ 39 ∷ 40 ∷ 255 ∷ 41 ∷ 42 ∷ 43 ∷ 0 ∷ 1
    ∷ 2 ∷ 3 ∷ 4 ∷ 5 ∷ 6 ∷ 7 ∷ 8 ∷ 9 ∷ 44 ∷ 255 ∷ 255 ∷ 255 ∷ 255 ∷ 255 ∷ 255 ∷ 10 ∷ 11 ∷ 12 ∷ 13
    ∷ 14 ∷ 15 ∷ 16 ∷ 17 ∷ 18 ∷ 19 ∷ 20 ∷ 21 ∷ 22 ∷ 23 ∷ 24 ∷ 25 ∷ 26 ∷ 27 ∷ 28 ∷ 29 ∷ 30 ∷ 31 ∷ 32
    ∷ 33 ∷ 34 ∷ 35 ∷ 255 ∷ 255 ∷ 255 ∷ 255 ∷ 255 ∷ 255 ∷ 255 ∷ 255 ∷ 255 ∷ 255 ∷ 255 ∷ 255 ∷ 255
    ∷ 255 ∷ 255 ∷ 255 ∷ 255 ∷ 255 ∷ 255 ∷ 255 ∷ 255 ∷ 255 ∷ 255 ∷ 255 ∷ 255 ∷ 255 ∷ 255 ∷ 255 ∷ 255
    ∷ 255 ∷ 255 ∷ 255 ∷ 255 ∷ 255 ∷ 255 ∷ 255 ∷ 255 ∷ []

abbrev pub of_signed_char : ℕ → Option ℕ
of_signed_char v = if leb 128 v then none else some v

-- `none` for -1.
unfoldable pub look_an_table : ℕ → Option ℕ
unfolding an_table
look_an_table c = if bit_and c 0x80 == 0 then of_signed_char (get_or an_table c 255) else none

abbrev pub is_some {ℓ} : {A : Type ℓ} → Option A → Bool
is_some none = false
is_some (some a) = true

-- The checks return 0, here `true`, or -1, here `false`. A `char` from 128 on is negative in the
-- source and fails the lower bound; here it fails the upper one.
unfoldable pub check_mode_num : List ℕ → Bool
check_mode_num [] = true
check_mode_num (c ∷ cs) = if ltb c b'0' || ltb b'9' c then false else check_mode_num cs

unfoldable pub check_mode_an : List ℕ → Bool
check_mode_an [] = true
check_mode_an (c ∷ cs) = if is_some (look_an_table c) then check_mode_an cs else false

-- `((unsigned int)a << 8) | b`
abbrev pub word_of : ℕ → ℕ → ℕ
word_of a b = bit_or (a * 2 ^ 8) b

abbrev pub is_kanji_word : ℕ → Bool
is_kanji_word v = not (ltb v 0x8140 || (ltb 0x9ffc v && ltb v 0xe040) || ltb 0xebbf v)

-- An odd size is refused before the loop.
unfoldable pub check_kanji_loop : List ℕ → Bool
check_kanji_loop (a ∷ b ∷ cs) = if is_kanji_word (word_of a b) then check_kanji_loop cs else false
check_kanji_loop _ = true

unfoldable pub check_mode_kanji : List ℕ → Bool
unfolding check_kanji_loop
check_mode_kanji cs = if bit_and (length cs) 1 == 0 then check_kanji_loop cs else false

unfoldable pub check_mode_fnc1_second : ℕ → Bool
check_mode_fnc1_second size = size == 1

unfoldable pub check_by_mode : Mode → List ℕ → Bool
unfolding check_mode_num check_mode_an check_mode_kanji check_mode_fnc1_second
check_by_mode num bytes = check_mode_num bytes
check_by_mode an bytes = check_mode_an bytes
check_by_mode kanji bytes = check_mode_kanji bytes
check_by_mode eight bytes = true
check_by_mode structure bytes = true
check_by_mode eci bytes = true
check_by_mode fnc1_first bytes = true
check_by_mode fnc1_second bytes = check_mode_fnc1_second (length bytes)
check_by_mode nul bytes = false

-- The first test of the source refuses the size 0 of every mode.
unfoldable pub check : Mode → List ℕ → Bool
unfolding check_by_mode
check mode bytes = if length bytes == 0 then false else check_by_mode mode bytes

unfoldable pub new_entry : Mode → List ℕ → Option Entry
unfolding check
new_entry mode bytes =
    if check mode bytes then some (record { mode = mode; bytes = bytes }) else none
