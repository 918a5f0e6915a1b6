-- ===== src/Split/EatNum.antt =====
-- split.c: `Split_eatNum` takes at least one character, in each of the three modes it chooses from.
use mathlib.Core.Bool.{false≢true}
use libqrencode.Prelude.Bits.{bit_and-one}
use libqrencode.QrInput.Convert.{in_range}
use libqrencode.Prelude.{
  ℕ, ◌+◌, ◌≤◌, ◌<◌, Bool, true, false, ◌&&◌, List, [], ◌∷◌, Option, ◌≡◌, ◌≢◌, refl, sym, ap, ◌∙◌,
  drop, ltb→lt, le→ltb, if◌then◌else◌, get_or, Bool-cases, inl, inr, arith,
}
use libqrencode.Api.{Mode, num, eight, kanji}
use libqrencode.QrSpec
use libqrencode.QrSpec.{is_kanji}
use libqrencode.QrInput.Entry.{QrInput, check_by_mode, word_of}
use libqrencode.QrInput.Estimate.{estimate_bits_mode_num, estimate_bits_mode_an}
use libqrencode.Split.{
  is_digit, is_alnum, is_kanji_range, other_mode, identify_mode, is_an, digit_run, head_is,
  eat_an_round, eat_num,
}
use libqrencode.Split.Eat.{
  Eats, and_both, check_mode_num-digit_run, digit_run-le, eat_8-Eats, eaten-Eats, is_alnum-is_digit,
}
use libqrencode.Split.EatAn.{choose, eat_an-Eats}

estimate_an_mono : (n : ℕ) → estimate_bits_mode_an n ≤ estimate_bits_mode_an (n + 1)
unfolding estimate_bits_mode_an
estimate_an_mono n = ground (arith, bit_and-one n, bit_and-one (n + 1))

two_header_bits : (version : ℕ) → 2 ≤ QrSpec.length_indicator num version
unfolding QrSpec.length_indicator
two_header_bits version =
    in_range (λ r. 2 ≤ get_or (10 ∷ 12 ∷ 14 ∷ []) r 0) (omega arith) (omega arith) (omega arith)
      version

alnum_behind :
    (p : List ℕ) (hint : Mode) → is_an (identify_mode p hint) ≡ true → head_is is_alnum p ≡ true
unfolding identify_mode
alnum_behind [] hint h = h
alnum_behind (c ∷ cs) hint h = elim (Bool-cases (is_alnum c)) [
  | inl a ↦ a
  | inr a ↦ elim (Bool-cases (is_digit c)) [
    | inl d ↦ is_alnum-is_digit c d
    | inr d ↦ absurd (false≢true (sym (not_an c cs hint) ∙ rw (d, a) at h))
  ]
]
  where
    not_an : (c : ℕ) (cs : List ℕ) (hint : Mode) → is_an (other_mode c cs hint) ≡ false
    not_an c [] hint = refl
    not_an c (d ∷ cs) hint = chosen (is_kanji hint && is_kanji_range (word_of c d))
      where
        chosen : (b : Bool) → is_an (if b then kanji else eight) ≡ false
        chosen true = refl
        chosen false = refl

kept :
    (alnum digit dear : Bool) (n : ℕ)
    → alnum ≡ true
    → digit ≡ true
    → dear ≡ false
    → n ≢ 0
    → (if alnum then if digit then if dear then 0 else n else 1 else 0) ≢ 0
kept alnum digit dear n a d e h = rw (a, d, e) h

digit_run_pos : (c : ℕ) (cs : List ℕ) → is_digit c ≡ true → 1 ≤ digit_run (c ∷ cs)
unfolding digit_run
digit_run_pos c cs d = rw d (omega arith)

-- Where `Split_eatNum` prefers alphanumeric mode, so does the first round of `Split_eatAn`.
digits-round :
    (c : ℕ) (cs : List ℕ) (input : QrInput) (hint : Mode)
    → is_digit c ≡ true
    → is_an (identify_mode (drop (digit_run (c ∷ cs)) (c ∷ cs)) hint) ≡ true
    → estimate_bits_mode_an (digit_run (c ∷ cs) + 1)
      < estimate_bits_mode_num (digit_run (c ∷ cs))
        + 4
        + QrSpec.length_indicator num input.version
        + estimate_bits_mode_an 1
    → eat_an_round input 0 (c ∷ cs) ≢ 0
unfolding eat_an_round
digits-round c cs input hint d behind less =
    kept (is_alnum c) (is_digit c) _ (digit_run (c ∷ cs)) (is_alnum-is_digit c d) d
      (le→ltb _ _ cheap) (λ e. omega (arith, e, digit_run_pos c cs d))
  where
    n : ℕ
    n = digit_run (c ∷ cs)

    ln : ℕ
    ln = QrSpec.length_indicator num input.version

    again : (if head_is is_alnum (drop n (c ∷ cs)) then 4 + ln else 0) ≡ 4 + ln
    again = rw (alnum_behind (drop n (c ∷ cs)) hint behind) refl

    same : 0 + n ≡ n
    same = omega arith

    one : estimate_bits_mode_an 1 ≡ 6
    one = unfold estimate_bits_mode_an in refl

    cheap :
        estimate_bits_mode_an (0 + n)
        ≤ estimate_bits_mode_an 0
          + estimate_bits_mode_num n
          + 4
          + ln
          + (if head_is is_alnum (drop n (c ∷ cs)) then 4 + ln else 0)
    cheap = omega (
      arith,
      again,
      ap estimate_bits_mode_an same,
      one,
      less,
      estimate_an_mono n,
      two_header_bits input.version,
    )

-- The run of digits is eaten in one of three modes.
pub eat_num-Eats :
    (c : ℕ) (cs : List ℕ) (input : QrInput) (hint : Mode)
    → is_digit c ≡ true
    → Eats (c ∷ cs) input (eat_num (c ∷ cs) input hint)
unfolding eat_num check_by_mode
eat_num-Eats c cs input hint d = choose _ (eat_8-Eats c cs input hint) (
    given _
      (λ h.
        let (behind, less) = and_both _ _ h in
        eat_an-Eats c cs input hint (digits-round c cs input hint d behind (ltb→lt _ _ less)))
      (eaten-Eats input num (c ∷ cs) (digit_run (c ∷ cs)) (digit_run_pos c cs d)
        (digit_run-le (c ∷ cs)) (check_mode_num-digit_run (c ∷ cs))))
  where
    given :
        {x y : Option (ℕ × QrInput)} (b : Bool)
        → (b ≡ true → Eats (c ∷ cs) input x)
        → Eats (c ∷ cs) input y
        → Eats (c ∷ cs) input (if b then x else y)
    given true x y = x refl
    given false x y = y
