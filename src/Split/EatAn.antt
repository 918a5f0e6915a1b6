-- ===== src/Split/EatAn.antt =====
-- split.c: `Split_eatAn` takes at least one character, and alphanumeric ones only.
use native.Mathlib.Decide.{ℕ_discrete}
use libqrencode.Prelude.{
  ℕ, zero, suc, ◌+◌, ◌≤◌, Bool, true, false, List, [], ◌∷◌, Option, ◌≡◌, ◌≢◌, refl, ap, ◌∙◌, length,
  take, drop, ne→==, ==_iff, if◌then◌else◌, arith,
}
use libqrencode.Api.{Mode, an}
use libqrencode.QrInput.Entry.{QrInput, check_by_mode, check_mode_an}
use libqrencode.Split.{is_digit, is_alnum, digit_run, eat_an_round, eat_an_loop, eat_an}
use libqrencode.Split.Eat.{
  Eats, check_mode_an-digit_run, check_mode_an-take, digit_run-le, eat_8-Eats, eaten-Eats,
  length-drop_le,
}

abbrev FitsAlnum : List ℕ → ℕ → Type 0
FitsAlnum p n = (n ≤ length p) × (check_mode_an (take n p) ≡ true)

no_characters : (p : List ℕ) → FitsAlnum p 0
no_characters p = (omega arith, unfold check_mode_an in refl)

-- The round, whatever its tests are.
round-FitsAlnum :
    (p : List ℕ) (alnum digit dear : Bool) (n : ℕ)
    → FitsAlnum p n
    → (alnum ≡ true → FitsAlnum p 1)
    → FitsAlnum p (if alnum then if digit then if dear then 0 else n else 1 else 0)
round-FitsAlnum p false digit dear n h one = no_characters p
round-FitsAlnum p true false dear n h one = one refl
round-FitsAlnum p true true true n h one = no_characters p
round-FitsAlnum p true true false n h one = h

first_character : (c : ℕ) (cs : List ℕ) → is_alnum c ≡ true → FitsAlnum (c ∷ cs) 1
first_character c cs h = (omega arith, unfold check_mode_an in rw h refl)

eat_an_round-FitsAlnum :
    (input : QrInput) (k : ℕ) (p : List ℕ) → FitsAlnum p (eat_an_round input k p)
unfolding eat_an_round
eat_an_round-FitsAlnum input k [] = no_characters []
eat_an_round-FitsAlnum input k (c ∷ cs) =
    round-FitsAlnum (c ∷ cs) (is_alnum c) (is_digit c) _ (digit_run (c ∷ cs))
      (digit_run-le (c ∷ cs), check_mode_an-digit_run (c ∷ cs)) (first_character c cs)

-- What the loop of `Split_eatAn` reaches, which is alphanumeric.
record ReachesAlnum (p : List ℕ) (k : ℕ) (result : ℕ) : Type 0 where
  pub more : ℕ
  pub total : result ≡ k + more
  pub inside : more ≤ length p
  pub alnum : check_mode_an (take more p) ≡ true

eat_an_loop-ReachesAlnum :
    (fuel : ℕ) (input : QrInput) (k : ℕ) (p : List ℕ)
    → ReachesAlnum p k (eat_an_loop fuel input k p)
unfolding eat_an_loop
eat_an_loop-ReachesAlnum zero input k p = record {
  more = 0;
  total = omega arith;
  inside = omega arith;
  alnum = (no_characters p).1;
}
eat_an_loop-ReachesAlnum (suc fuel) input k p =
    let n = eat_an_round input k p in
    let rest = eat_an_loop-ReachesAlnum fuel input (k + n) (drop n p) in
    let (le, alnums) = eat_an_round-FitsAlnum input k p in
    elim (ℕ_discrete n 0) [
      | yes stop ↦ record {
        more = 0;
        total = rw ((==_iff n 0).1 stop) (omega arith);
        inside = omega arith;
        alnum = (no_characters p).1;
      }
      | no go ↦ record {
        more = n + rest.more;
        total = rw (ne→== n 0 go) (omega (arith, rest.total));
        inside = omega (arith, rest.inside, length-drop_le n p, le);
        alnum = check_mode_an-take n rest.more p alnums rest.alnum;
      }
    ]

pub choose :
    {string : List ℕ} {input : QrInput} {x y : Option (ℕ × QrInput)} (b : Bool)
    → Eats string input x
    → Eats string input y
    → Eats string input (if b then x else y)
choose true x y = x
choose false x y = y

eat_an_loop-forward :
    (fuel : ℕ) (input : QrInput) (p : List ℕ)
    → eat_an_round input 0 p ≢ 0
    → 1 ≤ eat_an_loop (suc fuel) input 0 p
unfolding eat_an_loop
eat_an_loop-forward fuel input p go =
    let n = eat_an_round input 0 p in
    let rest = eat_an_loop-ReachesAlnum fuel input (0 + n) (drop n p) in
    rw (ne→== n 0 go) (omega (arith, rest.total))

-- The first round goes forward: at a character that is no digit, or where the digits cost less.
pub eat_an-Eats :
    (c : ℕ) (cs : List ℕ) (input : QrInput) (hint : Mode)
    → eat_an_round input 0 (c ∷ cs) ≢ 0
    → Eats (c ∷ cs) input (eat_an (c ∷ cs) input hint)
unfolding eat_an check_by_mode
eat_an-Eats c cs input hint go = choose _ (eat_8-Eats c cs input hint) (
    eaten-Eats input an (c ∷ cs) (eat_an_loop (suc (length cs)) input 0 (c ∷ cs))
      (eat_an_loop-forward (length cs) input (c ∷ cs) go) (omega (arith, r.total, r.inside))
      (ap (λ k. check_mode_an (take k (c ∷ cs))) whole ∙ r.alnum))
  where
    r : ReachesAlnum (c ∷ cs) 0 (eat_an_loop (suc (length cs)) input 0 (c ∷ cs))
    r = eat_an_loop-ReachesAlnum (suc (length cs)) input 0 (c ∷ cs)

    whole : eat_an_loop (suc (length cs)) input 0 (c ∷ cs) ≡ r.more
    whole = omega (arith, r.total)

-- An alphanumeric character that is no digit is eaten in the first round.
pub letter-round :
    (c : ℕ) (cs : List ℕ) (input : QrInput)
    → is_alnum c ≡ true
    → is_digit c ≡ false
    → eat_an_round input 0 (c ∷ cs) ≢ 0
unfolding eat_an_round
letter-round c cs input a d e = omega (arith, rw (a, d) at e)
