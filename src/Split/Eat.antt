-- ===== src/Split/Eat.antt =====
-- split.c: what an entry that is eaten is, and `Split_eat8`.
use native.Mathlib.Decide.{ℕ_discrete}
use mathlib.Core.Bool.{false≢true}
use libqrencode.Prelude.Tables.{all_below, all_below_sound}
use libqrencode.Prelude.{
  ℕ, zero, suc, ◌+◌, ◌-◌, ◌≤◌, Bool, true, false, ◌&&◌, ◌||◌, List, [], ◌∷◌, Option, some, ◌≡◌, ◌≢◌,
  refl, ap, ◌∙◌, length, length-take, take, drop, ltb, leb, le→ltb, leb→le, le→leb, ne→==, ==_iff,
  if◌then◌else◌, Bool-cases, inl, inr, arith,
}
use libqrencode.Api.{Mode, nul, num, an, eight, kanji}
use libqrencode.QrInput.Entry.{
  QrInput, check, check_by_mode, check_mode_num, check_mode_an, new_entry, look_an_table, an_table,
}
use libqrencode.QrInput.Edit.{append, append_entry}
use libqrencode.Split.{
  is_digit, is_alnum, identify_mode, digit_run, alnum_run, eaten, eat_8_round, eat_8_loop, eat_8,
}

-- An entry that is eaten from the front of the string and appended.
pub record Eats (string : List ℕ) (input : QrInput) (result : Option (ℕ × QrInput)) : Type 0 where
  pub run : ℕ
  pub mode : Mode
  pub forward : 1 ≤ run
  pub inside : run ≤ length string
  pub checked : check mode (take run string) ≡ true
  pub appended :
      result ≡ some (run, append_entry input (record { mode = mode; bytes = take run string }))

pub eaten-Eats :
    (input : QrInput) (mode : Mode) (string : List ℕ) (run : ℕ)
    → 1 ≤ run
    → run ≤ length string
    → check_by_mode mode (take run string) ≡ true
    → Eats string input (eaten input mode string run)
unfolding eaten append new_entry check
eaten-Eats input mode string run pos inside h =
    let count : length (take run string) ≢ 0 = λ e. omega (arith, e, length-take run string) in
    let ok : check mode (take run string) ≡ true = unfold check in rw (ne→== _ 0 count) h in
    record {
      run = run;
      mode = mode;
      forward = pos;
      inside = inside;
      checked = ok;
      appended = rw (ne→== _ 0 count, h);
    }

pub digit_run-le : (s : List ℕ) → digit_run s ≤ length s
unfolding digit_run
digit_run-le [] = omega arith
digit_run-le (c ∷ cs) = ground (arith, digit_run-le cs)

alnum_run-le : (s : List ℕ) → alnum_run s ≤ length s
unfolding alnum_run
alnum_run-le [] = omega arith
alnum_run-le (c ∷ cs) = ground (arith, alnum_run-le cs)

pub and_both : (a b : Bool) → (a && b) ≡ true → (a ≡ true) × (b ≡ true)
and_both true true h = (refl, refl)
and_both true false h = absurd (false≢true h)
and_both false b h = absurd (false≢true h)

digit_range : (c : ℕ) → is_digit c ≡ true → (b'0' ≤ c) × (c ≤ b'9')
digit_range c h =
    let (low, high) = and_both (leb b'0' c) (leb c b'9') h in
    (leb→le b'0' c low, leb→le c b'9' high)

digit_bounds : (c : ℕ) → is_digit c ≡ true → (ltb c b'0' || ltb b'9' c) ≡ false
digit_bounds c h = let (low, high) = digit_range c h in rw (le→ltb c b'0' low, le→ltb b'9' c high)

pub check_mode_num-digit_run : (s : List ℕ) → check_mode_num (take (digit_run s) s) ≡ true
unfolding digit_run check_mode_num
check_mode_num-digit_run [] = refl
check_mode_num-digit_run (c ∷ cs) = elim (Bool-cases (is_digit c)) [
  | inl d ↦ rw (d, digit_bounds c d) (check_mode_num-digit_run cs)
  | inr d ↦ rw d refl
]

digit_table : all_below 58 (λ c. if leb b'0' c then is_alnum c else true) ≡ true
unfolding all_below look_an_table an_table
digit_table = refl

pub is_alnum-is_digit : (c : ℕ) → is_digit c ≡ true → is_alnum c ≡ true
is_alnum-is_digit c h =
    let (low, high) = digit_range c h in
    rw (le→leb b'0' c low) at (
      all_below_sound 58 (λ k. if leb b'0' k then is_alnum k else true) c digit_table (omega arith))

pub check_mode_an-digit_run : (s : List ℕ) → check_mode_an (take (digit_run s) s) ≡ true
unfolding digit_run check_mode_an
check_mode_an-digit_run [] = refl
check_mode_an-digit_run (c ∷ cs) = elim (Bool-cases (is_digit c)) [
  | inl d ↦ rw (d, is_alnum-is_digit c d) (check_mode_an-digit_run cs)
  | inr d ↦ rw d refl
]

-- Alphanumeric characters and then more of them.
pub check_mode_an-take :
    (n m : ℕ) (s : List ℕ)
    → check_mode_an (take n s) ≡ true
    → check_mode_an (take m (drop n s)) ≡ true
    → check_mode_an (take (n + m) s) ≡ true
unfolding check_mode_an
check_mode_an-take zero m s h h' =
    let start : 0 + m ≡ m = omega arith in ap (λ k. check_mode_an (take k s)) start ∙ h'
check_mode_an-take (suc n) m [] h h' =
    let grown : suc n + m ≡ suc (n + m) = omega arith in ap (λ k. check_mode_an (take k [])) grown
check_mode_an-take (suc n) m (c ∷ cs) h h' =
    let grown : suc n + m ≡ suc (n + m) = omega arith in
    ap (λ k. check_mode_an (take k (c ∷ cs))) grown ∙ elim (Bool-cases (is_alnum c)) [
      | inl a ↦ rw a (check_mode_an-take n m cs (rw a at h) h')
      | inr a ↦ absurd (false≢true (rw a at h))
    ]

pub length-drop_le : (n : ℕ) (s : List ℕ) → length (drop n s) ≡ length s - n
length-drop_le zero s = omega arith
length-drop_le (suc n) [] = omega arith
length-drop_le (suc n) (c ∷ cs) = omega (arith, length-drop_le n cs)

-- What a loop over the string reaches, from the characters `p` on.
record Reaches (p : List ℕ) (k : ℕ) (result : ℕ) : Type 0 where
  pub more : ℕ
  pub total : result ≡ k + more
  pub inside : more ≤ length p

round_by_mode :
    (m : Mode) (a b : Bool) (x y len : ℕ)
    → x ≤ len
    → y ≤ len
    → 1 ≤ len
    → (elim m [ nul ↦ 0 | kanji ↦ 0 | num ↦ if a then 0 else x | an ↦ if b then 0 else y | _ ↦ 1 ])
      ≤ len
round_by_mode num a b x y len hx hy h = ground (arith, hx)
round_by_mode an a b x y len hx hy h = ground (arith, hy)
round_by_mode nul a b x y len hx hy h = omega arith
round_by_mode kanji a b x y len hx hy h = omega arith
round_by_mode _ a b x y len hx hy h = h

eat_8_round-le :
    (input : QrInput) (hint : Mode) (k : ℕ) (p : List ℕ) → eat_8_round input hint k p ≤ length p
unfolding eat_8_round
eat_8_round-le input hint k [] = unfold identify_mode in omega arith
eat_8_round-le input hint k (c ∷ cs) =
    round_by_mode (identify_mode (c ∷ cs) hint) _ _ (digit_run (c ∷ cs)) (alnum_run (c ∷ cs))
      (suc (length cs)) (digit_run-le (c ∷ cs)) (alnum_run-le (c ∷ cs)) (omega arith)

eat_8_loop-Reaches :
    (fuel : ℕ) (input : QrInput) (hint : Mode) (k : ℕ) (p : List ℕ)
    → Reaches p k (eat_8_loop fuel input hint k p)
unfolding eat_8_loop
eat_8_loop-Reaches zero input hint k p = record {
  more = 0;
  total = omega arith;
  inside = omega arith;
}
eat_8_loop-Reaches (suc fuel) input hint k p =
    let n = eat_8_round input hint k p in
    let rest = eat_8_loop-Reaches fuel input hint (k + n) (drop n p) in
    elim (ℕ_discrete n 0) [
      | yes stop ↦ record {
        more = 0;
        total = rw ((==_iff n 0).1 stop) (omega arith);
        inside = omega arith;
      }
      | no go ↦ record {
        more = n + rest.more;
        total = rw (ne→== n 0 go) (omega (arith, rest.total));
        inside = omega (arith, rest.inside, length-drop_le n p, eat_8_round-le input hint k p);
      }
    ]

pub eat_8-Eats :
    (c : ℕ) (cs : List ℕ) (input : QrInput) (hint : Mode)
    → Eats (c ∷ cs) input (eat_8 (c ∷ cs) input hint)
unfolding eat_8 check_by_mode
eat_8-Eats c cs input hint =
    let r = eat_8_loop-Reaches (suc (length cs)) input hint 1 cs in
    eaten-Eats input eight (c ∷ cs) (eat_8_loop (suc (length cs)) input hint 1 cs)
      (omega (arith, r.total)) (omega (arith, r.total, r.inside)) refl
