-- ===== src/QrInput/Cut.antt =====
-- `QRinput_encodeBitStream` on an entry of any length: how a long entry is cut.
use mathlib.Core.Bool.{false≢true}
use libqrencode.Prelude.Bits.{bit_and-one}
use libqrencode.Prelude.{
  ℕ, zero, suc, ◌-◌, ◌*◌, ◌%◌, ◌≤◌, ◌<◌, bit_and, Bool, true, false, ◌||◌, List, [], ◌∷◌, some, ◌≡◌,
  refl, length, length-take, take, drop, ◌==◌, ==→eq, ==_iff, ne→==, if◌then◌else◌, ltb, lt→ltb,
  le→ltb, and-false, arith,
}
use mathlib.Core.Path.{subst}
use libqrencode.Api.{Mode, nul, num, an, eight, kanji}
use libqrencode.BitStream.{BitStream}
use libqrencode.QrSpec
use libqrencode.QrSpec.{is_splittable_mode}
use libqrencode.QrInput.Entry.{
  Entry, check, check_by_mode, check_mode_num, check_mode_an, check_mode_kanji, check_kanji_loop,
  is_kanji_word, word_of, is_some, look_an_table, new_entry,
}
use libqrencode.QrInput.Encode.{encode_by_mode, encode_fuel}
use libqrencode.QrInput.Convert.{maximum_words_mono}

-- Both halves of data that pass the check of a mode character by character pass it.
if_true : (c x : Bool) → (if c then x else false) ≡ true → (c ≡ true) × (x ≡ true)
if_true true x h = (refl, h)
if_true false x h = absurd (false≢true h)

pub if_false : (c x : Bool) → (if c then false else x) ≡ true → (c ≡ false) × (x ≡ true)
if_false true x h = absurd (false≢true h)
if_false false x h = (refl, h)

num_cut :
    (n : ℕ) (cs : List ℕ)
    → check_mode_num cs ≡ true
    → (check_mode_num (take n cs) ≡ true) × (check_mode_num (drop n cs) ≡ true)
unfolding check_mode_num
num_cut zero cs h = (refl, h)
num_cut (suc n) [] h = (refl, refl)
num_cut (suc n) (c ∷ cs) h =
    let (digit, rest) = if_false (ltb c b'0' || ltb b'9' c) _ h in
    let (front, back) = num_cut n cs rest in (rw digit front, back)

an_cut :
    (n : ℕ) (cs : List ℕ)
    → check_mode_an cs ≡ true
    → (check_mode_an (take n cs) ≡ true) × (check_mode_an (drop n cs) ≡ true)
unfolding check_mode_an
an_cut zero cs h = (refl, h)
an_cut (suc n) [] h = (refl, refl)
an_cut (suc n) (c ∷ cs) h =
    let (alnum, rest) = if_true (is_some (look_an_table c)) _ h in
    let (front, back) = an_cut n cs rest in (rw alnum front, back)

twice : ℕ → ℕ
twice zero = 0
twice (suc n) = suc (suc (twice n))

twice-double : (n : ℕ) → twice n ≡ n * 2
unfolding twice
twice-double zero = refl
twice-double (suc n) = omega (arith, twice-double n)

kanji_cut :
    (n : ℕ) (cs : List ℕ)
    → check_kanji_loop cs ≡ true
    → (check_kanji_loop (take (twice n) cs) ≡ true) × (check_kanji_loop (drop (twice n) cs) ≡ true)
unfolding check_kanji_loop twice
kanji_cut zero cs h = (refl, h)
kanji_cut (suc n) [] h = (refl, refl)
kanji_cut (suc n) (c ∷ []) h = (refl, refl)
kanji_cut (suc n) (c ∷ d ∷ cs) h =
    let (word, rest) = if_true (is_kanji_word (word_of c d)) _ h in
    let (front, back) = kanji_cut n cs rest in (rw word front, back)

pub length-rest : (n : ℕ) (cs : List ℕ) → length (drop n cs) ≡ length cs - n
length-rest zero cs = omega arith
length-rest (suc n) [] = omega arith
length-rest (suc n) (c ∷ cs) = omega (arith, length-rest n cs)

kanji_halves :
    (n : ℕ) (cs : List ℕ)
    → n * 2 < length cs
    → check_mode_kanji cs ≡ true
    → (check_mode_kanji (take (n * 2) cs) ≡ true) × (check_mode_kanji (drop (n * 2) cs) ≡ true)
unfolding check_mode_kanji
kanji_halves n cs over h =
    let (whole, words) = if_true (bit_and (length cs) 1 == 0) _ h in
    let (front, back) =
      subst (λ k. (check_kanji_loop (take k cs) ≡ true) × (check_kanji_loop (drop k cs) ≡ true))
        (twice-double n) (kanji_cut n cs words) in
    let even : length cs % 2 ≡ 0 = omega (arith, bit_and-one (length cs), ==→eq _ _ whole) in
    let front_even : bit_and (length (take (n * 2) cs)) 1 ≡ 0 =
      omega (arith, bit_and-one (length (take (n * 2) cs)), length-take (n * 2) cs) in
    let back_even : bit_and (length (drop (n * 2) cs)) 1 ≡ 0 =
      omega (arith, bit_and-one (length (drop (n * 2) cs)), length-rest (n * 2) cs, even) in
    (rw ((==_iff _ 0).1 front_even) front, rw ((==_iff _ 0).1 back_even) back)

-- Cutting an entry at the largest count leaves two entries that pass the check.
pub mode_halves :
    (mode : Mode) (cs : List ℕ) (version : ℕ)
    → is_splittable_mode mode ≡ true
    → QrSpec.maximum_words mode version < length cs
    → check_by_mode mode cs ≡ true
    → (check_by_mode mode (take (QrSpec.maximum_words mode version) cs) ≡ true)
      × (check_by_mode mode (drop (QrSpec.maximum_words mode version) cs) ≡ true)
unfolding check_by_mode QrSpec.maximum_words
mode_halves num cs version s over h = num_cut _ cs h
mode_halves an cs version s over h = an_cut _ cs h
mode_halves eight cs version s over h = (refl, refl)
mode_halves kanji cs version s over h = kanji_halves _ cs over h
mode_halves nul cs version s over h = cc
mode_halves _ cs version s over h = cc

pub some_words :
    (mode : Mode) (version : ℕ)
    → is_splittable_mode mode ≡ true
    → 0 < QrSpec.maximum_words mode version
some_words mode version s = omega (arith, at_first mode s, maximum_words_mono mode version)
  where
    at_first : (mode : Mode) → is_splittable_mode mode ≡ true → 0 < QrSpec.maximum_words mode 1
    at_first num s = unfold QrSpec.maximum_words in omega arith
    at_first an s = unfold QrSpec.maximum_words in omega arith
    at_first eight s = unfold QrSpec.maximum_words in omega arith
    at_first kanji s = unfold QrSpec.maximum_words in omega arith
    at_first nul s = cc
    at_first _ s = cc

pub checked_new :
    (mode : Mode) (cs : List ℕ)
    → 0 < length cs
    → check_by_mode mode cs ≡ true
    → new_entry mode cs ≡ some (record { mode = mode; bytes = cs })
unfolding new_entry check
checked_new mode cs pos h = rw (ne→== (length cs) 0 (λ e. omega (arith, e)), h)

pub whole_at_fuel :
    (fuel : ℕ) (e : Entry) (b : BitStream) (version : ℕ)
    → length e.bytes ≤ QrSpec.maximum_words e.mode version
    → encode_fuel fuel e b version false ≡ encode_by_mode e b version false
unfolding encode_fuel
whole_at_fuel zero e b version h = refl
whole_at_fuel (suc fuel) e b version h = rw (le→ltb _ _ h, and-false)

-- One cut: both parts are encoded.
pub encode_fuel-cut :
    (fuel : ℕ) (mode : Mode) (cs : List ℕ) (b c : BitStream) (version : ℕ)
    → let words = QrSpec.maximum_words mode version in
      let first : Entry = record { mode = mode; bytes = take words cs } in
      let second : Entry = record { mode = mode; bytes = drop words cs } in
      0 < words
      → words < length cs
      → new_entry mode (take words cs) ≡ some first
      → new_entry mode (drop words cs) ≡ some second
      → encode_fuel fuel first b version false ≡ some c
      → encode_fuel (suc fuel) (record { mode = mode; bytes = cs }) b version false
        ≡ encode_fuel fuel second c version false
unfolding encode_fuel
encode_fuel-cut fuel mode cs b c version pos over n1 n2 e = rw (
  ne→== (QrSpec.maximum_words mode version) 0 (λ z. omega (arith, z)),
  lt→ltb _ _ over,
  n1,
  n2,
  e,
)
