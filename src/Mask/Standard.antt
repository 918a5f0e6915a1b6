-- ===== src/Mask/Standard.antt =====
-- The masks of mask.c against the table of the conditions of the eight data mask patterns in ISO/IEC
-- 18004, for the row `i` and the column `j`.
use Prim.Native.Nat.{differ}
use libqrencode.Prelude.Bits.{bit_and-one}
use libqrencode.Prelude.Xor.{bit_xor-zero}
use libqrencode.Prelude.Bits.{bit_xor_step}
use libqrencode.Prelude.{
  ℕ, zero, suc, ◌+◌, ◌-◌, ◌*◌, ◌/◌, ◌%◌, ◌<◌, bit_and, bit_xor, ◌&&◌, List, [], ◌∷◌, ◌≡◌, refl, sym,
  ap, ◌∙◌, length, get_or, ◌==◌, if◌then◌else◌, Bool-cases, inl, inr, arith,
}
use libqrencode.Mask.{mask_module, mask_expression, apply_mask}
use libqrencode.Mask.Modules.{darks, apply_mask_lem}

-- The table. A mask flips the modules at which its entry is 0.
abbrev pub conditions : ℕ → ℕ → List ℕ
conditions i j =
    ((j + i) % 2)
    ∷ (i % 2)
    ∷ (j % 3)
    ∷ ((j + i) % 3)
    ∷ ((i / 2 + j / 3) % 2)
    ∷ (j * i % 2 + j * i % 3)
    ∷ ((j * i % 2 + j * i % 3) % 2)
    ∷ ((j * i % 3 + (j + i) % 2) % 2)
    ∷ []

-- The module of the other colour.
abbrev pub flipped : ℕ → ℕ
flipped m = if m % 2 == 0 then m + 1 else m - 1

bit_xor-flipped : (m : ℕ) → bit_xor m 1 ≡ flipped m
bit_xor-flipped m = other (m % 2) (omega arith) refl
  where
    other : (d : ℕ) → d < 2 → m % 2 ≡ d → bit_xor m 1 ≡ flipped m
    other zero h e =
        let digit : differ (m % 2) 1 ≡ 1 = ap (λ t. differ t 1) e in
        let value : bit_xor m 1 ≡ m + 1 =
          omega (arith, bit_xor_step m 1, bit_xor-zero (m / 2), digit, e) in
        value ∙ sym (ap (λ t. if t == 0 then m + 1 else m - 1) e)
    other (suc zero) h e =
        let digit : differ (m % 2) 1 ≡ 0 = ap (λ t. differ t 1) e in
        let value : bit_xor m 1 ≡ m - 1 =
          omega (arith, bit_xor_step m 1, bit_xor-zero (m / 2), digit, e) in
        value ∙ sym (ap (λ t. if t == 0 then m + 1 else m - 1) e)
    other (suc (suc d)) h e = absurd (omega arith)

mask_expression-conditions :
    (mask x y : ℕ) → mask < 8 → mask_expression mask x y ≡ get_or (conditions y x) mask 0
unfolding mask_expression
mask_expression-conditions zero x y h = bit_and-one (x + y)
mask_expression-conditions (suc zero) x y h = bit_and-one y
mask_expression-conditions (suc (suc zero)) x y h = refl
mask_expression-conditions (suc (suc (suc zero))) x y h = refl
mask_expression-conditions (suc (suc (suc (suc zero)))) x y h = bit_and-one (y / 2 + x / 3)
mask_expression-conditions (suc (suc (suc (suc (suc zero))))) x y h =
    ap (λ t. t + x * y % 3) (bit_and-one (x * y))
mask_expression-conditions (suc (suc (suc (suc (suc (suc zero)))))) x y h =
    bit_and-one (bit_and (x * y) 1 + x * y % 3)
    ∙ ap (λ t. (t + x * y % 3) % 2) (bit_and-one (x * y))
mask_expression-conditions (suc (suc (suc (suc (suc (suc (suc zero))))))) x y h =
    bit_and-one (x * y % 3 + bit_and (x + y) 1)
    ∙ ap (λ t. (x * y % 3 + t) % 2) (bit_and-one (x + y))
mask_expression-conditions (suc (suc (suc (suc (suc (suc (suc (suc n)))))))) x y h =
    absurd (omega arith)

-- A module of no function pattern, at which the mask has the value `e`.
mask_module-flipped :
    (e s : ℕ) → mask_module e s ≡ (if (bit_and s 0x80 == 0) && (e == 0) then flipped s else s)
unfolding mask_module
mask_module-flipped e s = elim (Bool-cases (bit_and s 0x80 == 0)) [
  | inr marked ↦ rw marked refl
  | inl free ↦ elim (Bool-cases (e == 0)) [
    | inl flips ↦ rw (free, flips) (bit_xor-flipped s)
    | inr stays ↦ rw (free, stays) (bit_xor-zero s)
  ]
]

-- On a symbol of positive width, a mask keeps the size of the symbol and returns the count of its dark
-- modules. The module that it leaves at the position k, in the column k % width and the row
-- k / width, is what MASKMAKER makes of the module with the expression of the mask there. For the
-- masks 0 to 7 this is the module of the other colour, where the module belongs to no function
-- pattern and the entry of the mask in the table of the standard is 0 there, and the module itself
-- elsewhere.
pub apply_mask-flipped :
    (mask width : ℕ) (frame : List ℕ)
    → 0 < width
    → (length (apply_mask mask width frame).0 ≡ length frame)
      × ((apply_mask mask width frame).1 ≡ darks (apply_mask mask width frame).0)
      × ((k : ℕ)
          → k < length frame
          → get_or (apply_mask mask width frame).0 k 0
            ≡ mask_module (mask_expression mask (k % width) (k / width)) (get_or frame k 0))
      × ((k : ℕ)
          → k < length frame
          → mask < 8
          → get_or (apply_mask mask width frame).0 k 0 ≡ (
              let m = get_or frame k 0 in
              if (bit_and m 0x80 == 0) && (get_or (conditions (k / width) (k % width)) mask 0 == 0)
              then flipped m
              else m))
apply_mask-flipped mask width frame wide =
    let (kept, count, modules) = apply_mask_lem mask width frame wide in
    (
      kept,
      count,
      modules,
      λ k below low.
          let m = get_or frame k 0 in
          modules k below
          ∙ mask_module-flipped (mask_expression mask (k % width) (k / width)) m
          ∙ ap (λ e. if (bit_and m 0x80 == 0) && (e == 0) then flipped m else m)
              (mask_expression-conditions mask (k % width) (k / width) low),
    )
