-- ===== src/QrSpec/Frame/Marks.antt =====
-- The marks that the writes of qrspec.c leave, as the binary digits of a number.
use native.Mathlib.Nat.{pow-suc, zero-div}
use mathlib.Core.Path.{subst}
use mathlib.Core.Bool.{false≢true}
use native.Mathlib.Decide.{ℕ_discrete}
use libqrencode.Prelude.Bits.{bit_or_step, half-div_pow, bit_and-pow, pow_pos}
use libqrencode.Prelude.{
  ℕ, zero, suc, ◌+◌, ◌-◌, ◌*◌, ◌/◌, ◌%◌, ◌^◌, bit_and, bit_or, Bool, true, false, not, ◌&&◌, List,
  [], ◌∷◌, ◌≡◌, ◌≢◌, refl, sym, ap, ◌∙◌, length, get_or, set, put, All, get_or-set_self,
  get_or-set_ne, length-set, ◌==◌, ne→==, arith,
}
use Prim.Native.Nat.{max}
use libqrencode.Filler.Marks.{is_free, Shows}
use libqrencode.QrSpec.Frame.{put_rows, put_alignment_marker, alignment_rows}

digit-bit_or : (q a b : ℕ) → bit_or a b / 2 ^ q % 2 ≡ max (a / 2 ^ q % 2) (b / 2 ^ q % 2)
digit-bit_or zero a b = omega (arith, bit_or_step a b)
digit-bit_or (suc q) a b =
    let half : bit_or a b / 2 ≡ bit_or (a / 2) (b / 2) = omega (arith, bit_or_step a b) in
    rw (half-div_pow (bit_or a b) q, half-div_pow a q, half-div_pow b q, half)
      (digit-bit_or q (a / 2) (b / 2))

digit_self : (p : ℕ) → 2 ^ p / 2 ^ p % 2 ≡ 1
digit_self zero = refl
digit_self (suc p) =
    let half : 2 ^ suc p / 2 ≡ 2 ^ p = omega (arith, pow-suc 2 p) in
    rw (half-div_pow (2 ^ suc p) p, half) (digit_self p)

digit_other : (p q : ℕ) → p ≢ q → 2 ^ p / 2 ^ q % 2 ≡ 0
digit_other zero zero ne = absurd (ne refl)
digit_other zero (suc q) ne = rw (half-div_pow (2 ^ 0) q) (ap (λ t. t % 2) (zero-div (2 ^ q)))
digit_other (suc p) zero ne = omega (arith, pow-suc 2 p)
digit_other (suc p) (suc q) ne =
    let half : 2 ^ suc p / 2 ≡ 2 ^ p = omega (arith, pow-suc 2 p) in
    rw (half-div_pow (2 ^ suc p) q, half) (digit_other p q (λ e. ne (ap suc e)))

is_free-digit : (m n q : ℕ) → m / 2 ^ q % 2 ≡ n / 2 ^ q % 2 → is_free m q ≡ is_free n q
is_free-digit m n q same =
    ap (λ t. t == 0) (bit_and-pow q m ∙ ap (λ d. d * 2 ^ q) same ∙ sym (bit_and-pow q n))

is_free-one : (m q : ℕ) → m / 2 ^ q % 2 ≡ 1 → is_free m q ≡ false
is_free-one m q one =
    ne→== (bit_and m (2 ^ q)) 0
      (λ z. omega (arith, bit_and-pow q m ∙ ap (λ d. d * 2 ^ q) one, pow_pos q))

abbrev pub Marked : ℕ → Type 0
Marked v = (bit_and v 0x80 == 0) ≡ false

pub set-Shows :
    (frame : List ℕ) (m p v : ℕ)
    → Marked v
    → Shows frame m
    → Shows (set frame p v) (bit_or m (2 ^ p))
unfolding Shows
set-Shows frame m p v marked shown q lt = elim (ℕ_discrete p q) [
  | yes same ↦
      let here : get_or (set frame p v) q 0 ≡ v =
        ap (λ t. get_or (set frame p v) t 0) (sym same)
        ∙ get_or-set_self frame p v 0 (omega (arith, same, length-set frame p v)) in
      let one : 2 ^ p / 2 ^ q % 2 ≡ 1 = ap (λ t. 2 ^ p / 2 ^ t % 2) (sym same) ∙ digit_self p in
      let digit : bit_or m (2 ^ p) / 2 ^ q % 2 ≡ 1 = omega (arith, digit-bit_or q m (2 ^ p), one) in
      ap (λ t. bit_and t 0x80 == 0) here ∙ marked ∙ sym (is_free-one _ q digit)
  | no ne ↦
      let digit : bit_or m (2 ^ p) / 2 ^ q % 2 ≡ m / 2 ^ q % 2 =
        omega (arith, digit-bit_or q m (2 ^ p), digit_other p q ne) in
      ap (λ t. bit_and t 0x80 == 0) (get_or-set_ne frame p q v 0 ne)
      ∙ shown q (omega (arith, length-set frame p v))
      ∙ sym (is_free-digit (bit_or m (2 ^ p)) m q digit)
]

-- A run of marks.
unfoldable pub mark : ℕ → ℕ → ℕ → ℕ
mark zero p m = m
mark (suc n) p m = mark n (suc p) (bit_or m (2 ^ p))

put-nil : (xs : List ℕ) (p : ℕ) → put xs p [] ≡ xs
put-nil [] p = refl
put-nil (x ∷ xs) zero = refl
put-nil (x ∷ xs) (suc p) = ap (λ t. x ∷ t) (put-nil xs p)

put-cons : (xs : List ℕ) (p v : ℕ) (vs : List ℕ) → put xs p (v ∷ vs) ≡ put (set xs p v) (suc p) vs
put-cons [] p v vs = refl
put-cons (x ∷ xs) zero v vs = refl
put-cons (x ∷ xs) (suc p) v vs = ap (λ t. x ∷ t) (put-cons xs p v vs)

pub put-Shows :
    (frame : List ℕ) (m p : ℕ) (vs : List ℕ)
    → All Marked vs
    → Shows frame m
    → Shows (put frame p vs) (mark (length vs) p m)
unfolding mark
put-Shows frame m p [] marked shown = subst (λ t. Shows t m) (sym (put-nil frame p)) shown
put-Shows frame m p (v ∷ vs) (marked, rest) shown =
    subst (λ t. Shows t (mark (length vs) (suc p) (bit_or m (2 ^ p)))) (sym (put-cons frame p v vs))
      (put-Shows (set frame p v) (bit_or m (2 ^ p)) (suc p) vs rest
        (set-Shows frame m p v marked shown))

unfoldable pub mark_rows : ℕ → List (List ℕ) → ℕ → ℕ → ℕ
unfolding mark
mark_rows w [] m p = m
mark_rows w (row ∷ rows) m p = mark_rows w rows (mark (length row) p m) (p + w)

-- The test of the rows of a pattern.
abbrev pub all_marked : List ℕ → Bool
all_marked [] = true
all_marked (v ∷ vs) = not (bit_and v 0x80 == 0) && all_marked vs

abbrev pub rows_marked : List (List ℕ) → Bool
rows_marked [] = true
rows_marked (row ∷ rows) = all_marked row && rows_marked rows

and_parts : (a b : Bool) → (a && b) ≡ true → (a ≡ true) × (b ≡ true)
and_parts true b h = (refl, h)
and_parts false b h = absurd (false≢true h)

pub all_marked-All : (vs : List ℕ) → all_marked vs ≡ true → All Marked vs
all_marked-All [] h = tt
all_marked-All (v ∷ vs) h =
    let (one, rest) = and_parts (not (bit_and v 0x80 == 0)) (all_marked vs) h in
    (unmarked (bit_and v 0x80 == 0) one, all_marked-All vs rest)
  where
    unmarked : (b : Bool) → not b ≡ true → b ≡ false
    unmarked true h = absurd (false≢true h)
    unmarked false h = refl

pub rows_marked-All : (rows : List (List ℕ)) → rows_marked rows ≡ true → All (All Marked) rows
rows_marked-All [] h = tt
rows_marked-All (row ∷ rows) h =
    let (one, rest) = and_parts (all_marked row) (rows_marked rows) h in
    (all_marked-All row one, rows_marked-All rows rest)

pub put_rows-Shows :
    (w : ℕ) (rows : List (List ℕ)) (frame : List ℕ) (m p : ℕ)
    → All (All Marked) rows
    → Shows frame m
    → Shows (put_rows w rows frame p) (mark_rows w rows m p)
unfolding put_rows mark_rows
put_rows-Shows w [] frame m p marked shown = shown
put_rows-Shows w (row ∷ rows) frame m p (marked, rest) shown =
    put_rows-Shows w rows (put frame p row) (mark (length row) p m) (p + w) rest
      (put-Shows frame m p row marked shown)

unfoldable pub mark_marker : ℕ → ℕ → ℕ → ℕ → ℕ
unfolding mark_rows
mark_marker m w ox oy = mark_rows w alignment_rows m ((oy - 2) * w + ox - 2)

pub marker-Shows :
    (frame : List ℕ) (m w ox oy : ℕ)
    → Shows frame m
    → Shows (put_alignment_marker frame w ox oy) (mark_marker m w ox oy)
unfolding put_alignment_marker mark_marker
marker-Shows frame m w ox oy shown =
    put_rows-Shows w alignment_rows frame m ((oy - 2) * w + ox - 2)
      (rows_marked-All alignment_rows refl) shown
