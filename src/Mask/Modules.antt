-- ===== src/Mask/Modules.antt =====
-- The masks of mask.c module by module.
use native.Mathlib.Decide.{ℕ_discrete}
use native.Mathlib.Nat.{mul-add-div_right, div-eq_of_lt, mod-add-div'}
use libqrencode.Prelude.{
  ℕ, zero, suc, ◌+◌, ◌*◌, ◌/◌, ◌%◌, ◌<◌, bit_and, List, [], ◌∷◌, ◌≡◌, refl, sym, ap, ◌∙◌, length,
  get_or, ne→==, ==_iff, arith,
}
use mathlib.Core.Path.{ap₂}
use libqrencode.Mask.{mask_module, mask_maker, mask_expression, apply_mask}

-- The number of dark modules.
unfoldable pub darks : List ℕ → ℕ
darks [] = 0
darks (m ∷ ms) = bit_and m 1 + darks ms

-- The quotient and the remainder of a position in a row.
pub position-div : (y w x : ℕ) → x < w → (y * w + x) / w ≡ y
position-div y w x h =
    rw (mul-add-div_right {m = w} (omega arith) y x, div-eq_of_lt h) (omega arith)

pub position-mod : (y w x : ℕ) → x < w → (y * w + x) % w ≡ x
position-mod y w x h =
    omega (arith, mod-add-div' (y * w + x) w, ap (λ (t : ℕ). t * w) (position-div y w x h))

-- The module that MASKMAKER leaves `k` places behind the row `y` and the column `x`.
abbrev maker_at : (e : ℕ → ℕ → ℕ) (w x y k : ℕ) (frame : List ℕ) → ℕ
maker_at e w x y k frame =
    mask_module (e ((y * w + x + k) % w) ((y * w + x + k) / w)) (get_or frame k 0)

record IsMasked (e : ℕ → ℕ → ℕ) (w x y : ℕ) (frame masked : List ℕ) (b : ℕ) : Type 0 where
  pub size : length masked ≡ length frame
  pub dark : b ≡ darks masked
  pub modules : (k : ℕ) → k < length frame → get_or masked k 0 ≡ maker_at e w x y k frame

IsMasked-cons :
    (e : ℕ → ℕ → ℕ) (s : ℕ) (rest : List ℕ) (w x y : ℕ) (tail : List ℕ × ℕ) (x' y' : ℕ)
    → IsMasked e w x' y' rest tail.0 tail.1
    → y' * w + x' ≡ suc (y * w + x)
    → x < w
    → IsMasked e w x y
        (s ∷ rest)
        (mask_module (e x y) s ∷ tail.0)
        (bit_and (mask_module (e x y) s) 1 + tail.1)
unfolding darks
IsMasked-cons e s rest w x y tail x' y' r step h = record {
  size = ap suc r.size;
  dark = ap (λ t. bit_and (mask_module (e x y) s) 1 + t) r.dark;
  modules = at_place;
}
  where
    start : y * w + x + 0 ≡ y * w + x
    start = omega arith

    next : (k : ℕ) → y' * w + x' + k ≡ y * w + x + suc k
    next k = omega (arith, step)

    at_place :
        (k : ℕ)
        → k < suc (length rest)
        → get_or (mask_module (e x y) s ∷ tail.0) k 0 ≡ maker_at e w x y k (s ∷ rest)
    at_place zero below =
        ap₂ (λ u v. mask_module (e u v) s) (sym (position-mod y w x h)) (sym (position-div y w x h))
        ∙ ap (λ p. mask_module (e (p % w) (p / w)) s) (sym start)
    at_place (suc k) below =
        r.modules k (omega arith)
        ∙ ap (λ p. mask_module (e (p % w) (p / w)) (get_or rest k 0)) (next k)

mask_maker-IsMasked :
    (e : ℕ → ℕ → ℕ) (w x y : ℕ) (frame : List ℕ)
    → x < w
    → IsMasked e w x y frame (mask_maker e w x y frame).0 (mask_maker e w x y frame).1
unfolding mask_maker darks
mask_maker-IsMasked e w x y [] h = record {
  size = refl;
  dark = refl;
  modules = λ k below. absurd (omega arith);
}
mask_maker-IsMasked e w x y (s ∷ rest) h = elim (ℕ_discrete (x + 1) w) [
  | yes ends ↦ rw ((==_iff (x + 1) w).1 ends) (
      IsMasked-cons e s rest w x y (mask_maker e w 0 (y + 1) rest) 0 (y + 1)
        (mask_maker-IsMasked e w 0 (y + 1) rest (omega arith))
        (omega (arith, ap (λ (t : ℕ). t) ends)) h)
  | no goes ↦ rw (ne→== (x + 1) w goes) (
      IsMasked-cons e s rest w x y (mask_maker e w (x + 1) y rest) (x + 1) y
        (mask_maker-IsMasked e w (x + 1) y rest (omega arith)) (omega arith) h)
]

-- On a symbol of positive width, the module that a mask leaves at the position k, in the column
-- k % width and the row k / width, is what MASKMAKER makes of the module with the expression of the
-- mask there; the count returned is that of the dark modules, and the size is kept.
pub apply_mask_lem :
    (mask width : ℕ) (frame : List ℕ)
    → 0 < width
    → (length (apply_mask mask width frame).0 ≡ length frame)
      × ((apply_mask mask width frame).1 ≡ darks (apply_mask mask width frame).0)
      × ((k : ℕ)
          → k < length frame
          → get_or (apply_mask mask width frame).0 k 0
            ≡ mask_module (mask_expression mask (k % width) (k / width)) (get_or frame k 0))
unfolding apply_mask
apply_mask_lem mask width frame h =
    let r = mask_maker-IsMasked (mask_expression mask) width 0 0 frame h in
    (
      r.size,
      r.dark,
      λ k below.
          r.modules k below
          ∙ ap (λ p. mask_module (mask_expression mask (p % width) (p / width)) (get_or frame k 0))
              (origin k),
    )
  where
    origin : (k : ℕ) → 0 * width + 0 + k ≡ k
    origin k = omega arith
