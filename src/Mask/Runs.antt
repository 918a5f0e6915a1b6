-- ===== src/Mask/Runs.antt =====
-- The run lengths of mask.c against the line that they are computed from.
use Prim.Native.Nat.{differ}
use libqrencode.Prelude.Xor.{digit-bit_xor}
use libqrencode.Prelude.Bits.{bit_and-one}
use libqrencode.Prelude.{
  ℕ, zero, suc, ◌+◌, ◌-◌, ◌≤◌, ◌<◌, bit_and, bit_xor, List, [], ◌∷◌, ◌++◌, ◌≡◌, ◌≢◌, refl, sym, ap,
  ◌∙◌, length, replicate, ==_iff, ne→==, inl, inr, arith, ◌⊎◌, All, Bool-cases, ◌==◌,
}
use libqrencode.Prelude.Int.{ℤ, pos, negsuc, pos_part}
use libqrencode.Mask.Demerit.{run_loop, run_lengths}
use native.Mathlib.Decide.{ℕ_discrete}
use mathlib.Core.Path.{ap₂, subst}
use libqrencode.Prelude.Xor.{bit_xor_comm}

-- The colours of modules.
unfoldable pub colours : List ℕ → List ℕ
colours [] = []
colours (m ∷ ms) = bit_and m 1 ∷ colours ms

-- Runs of alternating colour, written out from the colour `c` on; a negative entry is no run.
unfoldable pub expand : ℕ → List ℤ → List ℕ
expand c [] = []
expand c (pos n ∷ rs) = replicate n c ++ expand (1 - c) rs
expand c (negsuc n ∷ rs) = expand (1 - c) rs

unfoldable pub total : List ℤ → ℕ
total [] = 0
total (r ∷ rs) = pos_part r + total rs

colour_cases : (m : ℕ) → (bit_and m 1 ≡ 0) ⊎ (bit_and m 1 ≡ 1)
colour_cases m = ground (arith, bit_and-one m)

digits_equal : (a b : ℕ) → a < 2 → b < 2 → differ a b ≡ 0 → a ≡ b
digits_equal zero zero ha hb e = refl
digits_equal (suc zero) (suc zero) ha hb e = refl
digits_equal zero (suc b) ha hb e = absurd (one_not b hb e)
  where
    one_not : (b : ℕ) → suc b < 2 → differ 0 (suc b) ≢ 0
    one_not zero h e = omega (arith, e)
    one_not (suc b) h e = omega arith
digits_equal (suc zero) zero ha hb e = absurd (omega (arith, e))
digits_equal (suc (suc a)) b ha hb e = absurd (omega arith)
digits_equal (suc zero) (suc (suc b)) ha hb e = absurd (omega arith)

digits_differ : (a b : ℕ) → a < 2 → b < 2 → differ a b ≢ 0 → b ≡ 1 - a
digits_differ zero zero ha hb e = absurd (e refl)
digits_differ zero (suc zero) ha hb e = refl
digits_differ (suc zero) zero ha hb e = refl
digits_differ (suc zero) (suc zero) ha hb e = absurd (e refl)
digits_differ (suc (suc a)) b ha hb e = absurd (omega arith)
digits_differ a (suc (suc b)) ha hb e = absurd (omega arith)

colour-bit_xor : (m p : ℕ) → bit_and (bit_xor m p) 1 ≡ differ (bit_and m 1) (bit_and p 1)
colour-bit_xor m p =
    bit_and-one (bit_xor m p) ∙ digit-bit_xor m p ∙ sym (ap₂ differ (bit_and-one m) (bit_and-one p))

same_colour : (m p : ℕ) → bit_and (bit_xor m p) 1 ≡ 0 → bit_and m 1 ≡ bit_and p 1
same_colour m p e =
    digits_equal (bit_and m 1) (bit_and p 1) (omega (arith, bit_and-one m))
      (omega (arith, bit_and-one p)) (sym (colour-bit_xor m p) ∙ e)

other_colour : (m p : ℕ) → bit_and (bit_xor m p) 1 ≢ 0 → bit_and m 1 ≡ 1 - bit_and p 1
other_colour m p ne =
    digits_differ (bit_and p 1) (bit_and m 1) (omega (arith, bit_and-one p))
      (omega (arith, bit_and-one m)) (λ e. ne (colour-bit_xor m p ∙ differ_comm ∙ e))
  where
    differ_comm : differ (bit_and m 1) (bit_and p 1) ≡ differ (bit_and p 1) (bit_and m 1)
    differ_comm =
        sym (colour-bit_xor m p) ∙ ap (λ t. bit_and t 1) (bit_xor_comm m p) ∙ colour-bit_xor p m

-- One more module of the same colour at the end of a run.
replicate_snoc :
    (n c : ℕ) (rest : List ℕ) → replicate (n + 1) c ++ rest ≡ replicate n c ++ (c ∷ rest)
replicate_snoc zero c rest = refl
replicate_snoc (suc n) c rest =
    let grown : suc n + 1 ≡ suc (n + 1) = omega arith in
    ap (λ k. replicate k c ++ rest) grown ∙ ap (λ t. c ∷ t) (replicate_snoc n c rest)

expand-run_loop :
    (ms : List ℕ) (prev count : ℕ)
    → expand (bit_and prev 1) (run_loop ms prev count)
      ≡ replicate count (bit_and prev 1) ++ colours ms
unfolding expand run_loop colours
expand-run_loop [] prev count = refl
expand-run_loop (m ∷ ms) prev count = elim (ℕ_discrete (bit_and (bit_xor m prev) 1) 0) [
  | yes same ↦ rw ((==_iff (bit_and (bit_xor m prev) 1) 0).1 same) (
      expand-run_loop ms prev (count + 1)
      ∙ replicate_snoc count (bit_and prev 1) (colours ms)
      ∙ ap (λ c. replicate count (bit_and prev 1) ++ (c ∷ colours ms))
          (sym (same_colour m prev same)))
  | no other ↦ rw (ne→== (bit_and (bit_xor m prev) 1) 0 other) (
      ap (λ t. replicate count (bit_and prev 1) ++ t)
        (ap (λ c. expand c (run_loop ms m 1)) (sym (other_colour m prev other))
          ∙ expand-run_loop ms m 1))
]

-- A run of one module at least.
abbrev pub IsRun : ℤ → Type 0
IsRun r = (n : ℕ) × (r ≡ pos (suc n))

run_loop-IsRun : (ms : List ℕ) (prev count : ℕ) → All IsRun (run_loop ms prev (suc count))
unfolding run_loop
run_loop-IsRun [] prev count = ((count, refl), tt)
run_loop-IsRun (m ∷ ms) prev count = elim (Bool-cases (bit_and (bit_xor m prev) 1 == 0)) [
  | inl same ↦ rw (same) (
      subst (λ t. All IsRun (run_loop ms prev t)) (longer count)
        (run_loop-IsRun ms prev (suc count)))
  | inr other ↦ rw (other) ((count, refl), run_loop-IsRun ms m 0)
]
  where
    longer : (n : ℕ) → suc (suc n) ≡ suc n + 1
    longer n = omega arith

-- The run lengths of a line of one module at least: if its first module is light, all entries are
-- at least 1; if it is dark, the first entry is -1 and all others are at least 1. Written out as
-- runs of light and dark modules in turn, from light on, where -1 is no module, they give back the
-- colours of the modules of the line.
pub expand-run_lengths :
    (m : ℕ) (ms : List ℕ)
    → (bit_and m 1 ≡ 0 → All IsRun (run_lengths (m ∷ ms)))
      × (bit_and m 1 ≢ 0
          → (rest : List ℤ) × (run_lengths (m ∷ ms) ≡ negsuc 0 ∷ rest) × All IsRun rest)
      × (expand 0 (run_lengths (m ∷ ms)) ≡ colours (m ∷ ms))
unfolding run_lengths expand colours
expand-run_lengths m ms = (
  λ light. rw ((==_iff (bit_and m 1) 0).1 light) (run_loop-IsRun ms m 0),
  λ dark. rw (ne→== (bit_and m 1) 0 dark) (run_loop ms m 1, refl, run_loop-IsRun ms m 0),
  elim (colour_cases m) [
    | inl light ↦
        rw ((==_iff (bit_and m 1) 0).1 light)
          (ap (λ c. expand c (run_loop ms m 1)) (sym light) ∙ expand-run_loop ms m 1)
    | inr dark ↦
        rw (ne→== (bit_and m 1) 0 (λ e. omega (arith, e, dark)))
          (ap (λ c. expand c (run_loop ms m 1)) (sym dark) ∙ expand-run_loop ms m 1)
  ],
)

total-run_loop : (ms : List ℕ) (prev count : ℕ) → total (run_loop ms prev count) ≡ count + length ms
unfolding total run_loop
total-run_loop [] prev count = refl
total-run_loop (m ∷ ms) prev count =
    ground (arith, total-run_loop ms prev (count + 1), total-run_loop ms m 1)

length-run_loop : (ms : List ℕ) (prev count : ℕ) → length (run_loop ms prev count) ≤ length ms + 1
unfolding run_loop
length-run_loop [] prev count = omega arith
length-run_loop (m ∷ ms) prev count =
    ground (arith, length-run_loop ms prev (count + 1), length-run_loop ms m 1)

-- The runs make up the line, and are at most one more than its modules.
pub run_lengths-bounds :
    (ms : List ℕ) → (total (run_lengths ms) ≡ length ms) × (length (run_lengths ms) ≤ length ms + 1)
unfolding run_lengths total
run_lengths-bounds [] = (refl, omega arith)
run_lengths-bounds (m ∷ ms) =
    (ground (arith, total-run_loop ms m 1), ground (arith, length-run_loop ms m 1))
