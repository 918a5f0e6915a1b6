-- ===== src/Split/Whole.antt =====
-- split.c as a whole: every string is split, and the entries make it up.
use mathlib.Core.Path.{ap₂, subst}
use libqrencode.Prelude.{
  ℕ, zero, suc, ◌+◌, ◌≤◌, Bool, true, false, ◌&&◌, List, [], ◌∷◌, ◌++◌, Option, some, ◌≡◌, refl,
  sym, ap, ◌∙◌, length, length-append, All, take, drop, take-append-drop, append_assoc, append-nil,
  ◌==◌, ne→==, if◌then◌else◌, ◌>>=◌, Bool-cases, inl, inr, arith,
}
use libqrencode.Api.{Mode, num, an, eight, kanji}
use libqrencode.QrSpec.{is_kanji}
use libqrencode.QrInput.Entry.{Entry, QrInput, check, word_of}
use libqrencode.QrInput.Append.{with_entries, append_entry-with_entries}
use libqrencode.QrInput.Parts.{contents}
use libqrencode.Split.{
  is_digit, is_alnum, is_kanji_range, other_mode, identify_mode, is_num, is_an, eat, eat_8, eat_num,
  eat_an, eat_kanji, split_loop, split_string, dup_and_to_upper, split_string_to_qrinput,
}
use libqrencode.Split.Eat.{Eats, eat_8-Eats, length-drop_le}
use libqrencode.Split.EatAn.{eat_an-Eats, letter-round}
use libqrencode.Split.EatNum.{eat_num-Eats}
use libqrencode.Split.Upper.{IsUpper, dup_and_to_upper-IsUpper}
use libqrencode.Split.EatKanji.{eat_kanji-Eats}

-- The choice of `Split_splitString` by the two tests of a character and the mode of the others.
eat_by_tests :
    (c : ℕ) (cs : List ℕ) (input : QrInput) (hint : Mode) (digit alnum : Bool) (other : Mode)
    → (digit ≡ true → Eats (c ∷ cs) input (eat_num (c ∷ cs) input hint))
    → (digit ≡ false → alnum ≡ true → Eats (c ∷ cs) input (eat_an (c ∷ cs) input hint))
    → (digit ≡ false
        → alnum ≡ false
        → is_kanji other ≡ true
        → Eats (c ∷ cs) input (eat_kanji (c ∷ cs) input hint))
    → is_num other ≡ false
    → is_an other ≡ false
    → let mode = if digit then num else if alnum then an else other in
      Eats (c ∷ cs) input (
        if is_num mode
        then eat_num (c ∷ cs) input hint
        else if is_an mode
        then eat_an (c ∷ cs) input hint
        else if is_kanji mode && is_kanji hint
        then eat_kanji (c ∷ cs) input hint
        else eat_8 (c ∷ cs) input hint)
eat_by_tests c cs input hint true alnum other n a k en ea = n refl
eat_by_tests c cs input hint false true other n a k en ea = a refl refl
eat_by_tests c cs input hint false false other n a k en ea =
    rw (en, ea)
      (elim (Bool-cases (is_kanji other)) [
        | inl yes_kanji ↦ rw yes_kanji (asked (is_kanji hint) (k refl refl yes_kanji))
        | inr no_kanji ↦ rw no_kanji (eat_8-Eats c cs input hint)
      ])
  where
    asked :
        (b : Bool)
        → Eats (c ∷ cs) input (eat_kanji (c ∷ cs) input hint)
        → Eats
            (c ∷ cs)
            input
            (if b then eat_kanji (c ∷ cs) input hint else eat_8 (c ∷ cs) input hint)
    asked true h = h
    asked false h = eat_8-Eats c cs input hint

other_mode-tests :
    (c : ℕ) (cs : List ℕ) (hint : Mode)
    → (is_num (other_mode c cs hint) ≡ false) × (is_an (other_mode c cs hint) ≡ false)
other_mode-tests c [] hint = (refl, refl)
other_mode-tests c (d ∷ cs) hint = chosen (is_kanji hint && is_kanji_range (word_of c d))
  where
    chosen :
        (b : Bool)
        → (is_num (if b then kanji else eight) ≡ false)
          × (is_an (if b then kanji else eight) ≡ false)
    chosen true = (refl, refl)
    chosen false = (refl, refl)

eat-Eats :
    (c : ℕ) (cs : List ℕ) (input : QrInput) (hint : Mode)
    → Eats (c ∷ cs) input (eat (c ∷ cs) input hint)
unfolding eat identify_mode
eat-Eats c cs input hint =
    eat_by_tests c cs input hint (is_digit c) (is_alnum c) (other_mode c cs hint)
      (eat_num-Eats c cs input hint)
      (λ d a. eat_an-Eats c cs input hint (letter-round c cs input a d))
      (λ d a k. eat_kanji-Eats c cs input hint (unfold identify_mode in rw (d, a) k))
      (other_mode-tests c cs hint).0 (other_mode-tests c cs hint).1

abbrev pub IsChecked : Entry → Type 0
IsChecked e = check e.mode e.bytes ≡ true

with_entries-nil : (input : QrInput) → with_entries input [] ≡ input
with_entries-nil input =
    let same : input.tail + 0 ≡ input.tail = omega arith in
    ap₂ (λ es t. record input { entries = es; tail = t }) (append-nil input.entries) same

with_entries-cons :
    (input : QrInput) (e : Entry) (es : List Entry)
    → with_entries (with_entries input (e ∷ [])) es ≡ with_entries input (e ∷ es)
with_entries-cons input e es =
    let same : input.tail + 1 + length es ≡ input.tail + suc (length es) = omega arith in
    ap₂ (λ es t. record input { entries = es; tail = t }) (append_assoc input.entries (e ∷ []) es)
      same

-- One round of the loop.
split_loop-round :
    (fuel c n : ℕ) (cs : List ℕ) (input input' : QrInput) (hint : Mode)
    → eat (c ∷ cs) input hint ≡ some (n, input')
    → 1 ≤ n
    → split_loop (suc fuel) (c ∷ cs) input hint ≡ split_loop fuel (drop n (c ∷ cs)) input' hint
unfolding split_loop
split_loop-round fuel c n cs input input' hint e pos =
    ap
      (λ o.
        o >>= (λ r. if r.0 == 0 then some r.1 else split_loop fuel (drop r.0 (c ∷ cs)) r.1 hint))
      e
    ∙ ap (λ t. if t then some input' else split_loop fuel (drop n (c ∷ cs)) input' hint)
        (ne→== n 0 (λ z. omega (arith, z, pos)))

-- The entries that a string is split into.
record Splits (string : List ℕ) (input : QrInput) (result : Option QrInput) : Type 0 where
  pub parts : List Entry
  pub returned : result ≡ some (with_entries input parts)
  pub whole : contents parts ≡ string
  pub checked : All IsChecked parts

split_loop-end :
    (fuel : ℕ) (input : QrInput) (hint : Mode) → split_loop fuel [] input hint ≡ some input
unfolding split_loop
split_loop-end zero input hint = refl
split_loop-end (suc fuel) input hint = refl

split_loop-Splits :
    (fuel : ℕ) (string : List ℕ) (input : QrInput) (hint : Mode)
    → length string ≤ fuel
    → input.tail ≡ length input.entries
    → Splits string input (split_loop fuel string input hint)
unfolding contents
split_loop-Splits fuel [] input hint h tail = record {
  parts = [];
  returned = split_loop-end fuel input hint ∙ ap some (sym (with_entries-nil input));
  whole = refl;
  checked = tt;
}
split_loop-Splits zero (c ∷ cs) input hint h tail = absurd (omega arith)
split_loop-Splits (suc fuel) (c ∷ cs) input hint h tail =
    let e = eat-Eats c cs input hint in
    let first : Entry = record { mode = e.mode; bytes = take e.run (c ∷ cs) } in
    let rest =
      split_loop-Splits fuel (drop e.run (c ∷ cs)) (with_entries input (first ∷ [])) hint
        (omega (arith, e.forward, length-drop_le e.run (c ∷ cs)))
        (omega (arith, tail, length-append input.entries (first ∷ []))) in
    record {
      parts = first ∷ rest.parts;
      returned =
          split_loop-round fuel c e.run cs input (with_entries input (first ∷ [])) hint
            (e.appended ∙ ap (λ i. some (e.run, i)) (append_entry-with_entries input first tail))
            e.forward
          ∙ rest.returned
          ∙ ap some (with_entries-cons input first rest.parts);
      whole = ap (λ t. take e.run (c ∷ cs) ++ t) rest.whole ∙ take-append-drop e.run (c ∷ cs);
      checked = (e.checked, rest.checked);
    }

-- The data are the string itself, or the string in upper case.
abbrev pub HasCase : Bool → Mode → List ℕ → List ℕ → Type 0
HasCase true hint string joined = joined ≡ string
HasCase false hint string joined = IsUpper hint string joined

-- On an input whose tail is its last entry, `Split_splitStringToQRinput` succeeds for every string
-- that is not empty. It appends entries that all pass the check of their mode and whose data are,
-- one after the other, the string itself if case matters; else the string in upper case: each
-- letter from a to z is the letter from A to Z in its place, unless it is a byte of a pair that
-- encodes a kanji, and every other character is kept. It changes nothing else.
pub split_string_to_qrinput_lem :
    (c : ℕ) (cs : List ℕ) (input : QrInput) (hint : Mode) (casesensitive : Bool)
    → input.tail ≡ length input.entries
    → (es : List Entry) × (split_string_to_qrinput (c ∷ cs) input hint casesensitive
        ≡ some (with_entries input es))
      × HasCase casesensitive hint (c ∷ cs) (contents es)
      × All IsChecked es
unfolding split_string_to_qrinput split_string
split_string_to_qrinput_lem c cs input hint true tail =
    let s = split_loop-Splits (length (c ∷ cs)) (c ∷ cs) input hint (omega arith) tail in
    (s.parts, s.returned, s.whole, s.checked)
split_string_to_qrinput_lem c cs input hint false tail =
    let upper_string = dup_and_to_upper (c ∷ cs) hint in
    let s = split_loop-Splits (length upper_string) upper_string input hint (omega arith) tail in
    (
      s.parts,
      s.returned,
      subst (IsUpper hint (c ∷ cs)) (sym s.whole) (dup_and_to_upper-IsUpper (c ∷ cs) hint),
      s.checked,
    )
