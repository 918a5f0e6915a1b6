-- ===== src/Split/EatKanji.antt =====
-- split.c: `Split_eatKanji` takes at least one character, of the words of the encoding.
use mathlib.Core.Bool.{false≢true}
use libqrencode.Prelude.Bits.{bit_and-one}
use libqrencode.Prelude.{
  ℕ, ◌≤◌, bit_and, Bool, true, false, ◌&&◌, List, [], ◌∷◌, ◌≡◌, ◌≢◌, refl, length, length-take,
  take, ltb, leb, le→ltb, leb→le, ==_iff, if◌then◌else◌, Bool-cases, inl, inr, arith, and-false,
  ◌%◌,
}
use libqrencode.Api.{Mode, num, an, eight, kanji}
use libqrencode.QrSpec.{is_kanji}
use libqrencode.QrInput.Entry.{
  QrInput, check_by_mode, check_mode_kanji, check_kanji_loop, is_kanji_word, word_of,
}
use libqrencode.Split.{is_digit, is_alnum, is_kanji_range, identify_mode, kanji_run, eat_kanji}
use libqrencode.Split.Eat.{Eats, and_both, eaten-Eats}

kanji_word : (v : ℕ) → is_kanji_range v ≡ true → is_kanji_word v ≡ true
kanji_word v h = elim (Bool-cases (leb 0x8140 v && leb v 0x9ffc)) [
  | inl low ↦
      let (a, b) = and_both (leb 0x8140 v) (leb v 0x9ffc) low in
      let lo = leb→le 0x8140 v a in
      let hi = leb→le v 0x9ffc b in
      rw (le→ltb v 0x8140 lo, le→ltb 0x9ffc v hi, le→ltb 0xebbf v (omega arith)) refl
  | inr not_low ↦
      let (a, b) = and_both (leb 0xe040 v) (leb v 0xebbf) (rw not_low at h) in
      let lo = leb→le 0xe040 v a in
      let hi = leb→le v 0xebbf b in
      rw
        (
          le→ltb v 0x8140 (omega arith),
          le→ltb v 0xe040 lo,
          and-false (ltb 0x9ffc v),
          le→ltb 0xebbf v hi,
        )
        refl
]

is_kanji-word :
    (c d : ℕ) (cs : List ℕ) (hint : Mode)
    → is_kanji (identify_mode (c ∷ d ∷ cs) hint) ≡ true
    → is_kanji_word (word_of c d) ≡ true
unfolding identify_mode
is_kanji-word c d cs hint h =
    kanji_word (word_of c d)
      (through (is_digit c) (is_alnum c) (is_kanji hint) (is_kanji_range (word_of c d)) h)
  where
    through :
        (digit alnum asked range : Bool)
        → is_kanji
            (if digit then num else if alnum then an else if asked && range then kanji else eight)
          ≡ true
        → range ≡ true
    through true alnum asked range h = absurd (false≢true h)
    through false true asked range h = absurd (false≢true h)
    through false false false range h = absurd (false≢true h)
    through false false true true h = refl
    through false false true false h = absurd (false≢true h)

record KanjiRun (s : List ℕ) (run : ℕ) : Type 0 where
  pub inside : run ≤ length s
  pub words : check_kanji_loop (take run s) ≡ true
  pub even : run % 2 ≡ 0

kanji_run-KanjiRun : (s : List ℕ) (hint : Mode) → KanjiRun s (kanji_run s hint)
unfolding kanji_run check_kanji_loop
kanji_run-KanjiRun [] hint = record { inside = omega arith; words = refl; even = refl }
kanji_run-KanjiRun (c ∷ []) hint = record { inside = omega arith; words = refl; even = refl }
kanji_run-KanjiRun (c ∷ d ∷ cs) hint =
    let rest = kanji_run-KanjiRun cs hint in
    elim (Bool-cases (is_kanji (identify_mode (c ∷ d ∷ cs) hint))) [
      | inl k ↦ rw k (record {
        inside = omega (arith, rest.inside);
        words = rw (is_kanji-word c d cs hint k) rest.words;
        even = omega (arith, rest.even);
      })
      | inr k ↦ rw k (record { inside = omega arith; words = refl; even = refl })
    ]

kanji_run_pos :
    (c : ℕ) (cs : List ℕ) (hint : Mode)
    → is_kanji (identify_mode (c ∷ cs) hint) ≡ true
    → 1 ≤ kanji_run (c ∷ cs) hint
unfolding kanji_run identify_mode
kanji_run_pos c [] hint h = absurd (alone (is_digit c) (is_alnum c) h)
  where
    alone :
        (digit alnum : Bool) → is_kanji (if digit then num else if alnum then an else eight) ≢ true
    alone true alnum h = false≢true h
    alone false true h = false≢true h
    alone false false h = false≢true h
kanji_run_pos c (d ∷ cs) hint h = rw h (omega arith)

pub eat_kanji-Eats :
    (c : ℕ) (cs : List ℕ) (input : QrInput) (hint : Mode)
    → is_kanji (identify_mode (c ∷ cs) hint) ≡ true
    → Eats (c ∷ cs) input (eat_kanji (c ∷ cs) input hint)
unfolding eat_kanji check_by_mode check_mode_kanji
eat_kanji-Eats c cs input hint k =
    let r = kanji_run-KanjiRun (c ∷ cs) hint in
    let n = kanji_run (c ∷ cs) hint in
    let even : bit_and (length (take n (c ∷ cs))) 1 ≡ 0 =
      omega
        (arith, bit_and-one (length (take n (c ∷ cs))), length-take n (c ∷ cs), r.inside, r.even) in
    eaten-Eats input kanji (c ∷ cs) n (kanji_run_pos c cs hint k) r.inside
      (rw ((==_iff _ 0).1 even) r.words)
