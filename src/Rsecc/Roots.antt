-- ===== src/Rsecc/Roots.antt =====
-- `RSECC_encode`: the data and the code words behind it have the roots of the generator.
use native.Mathlib.Decide.{ℕ_discrete}
use libqrencode.Prelude.Xor.{bit_xor-lt, bit_xor-zero, zero-bit_xor, bit_xor_swap, bit_xor_cancel}
use libqrencode.Prelude.{
  ℕ, zero, suc, ◌+◌, ◌<◌, bit_xor, List, [], ◌∷◌, ◌++◌, ◌≡◌, refl, sym, ap, ◌∙◌, length, All,
  get_or, ne→==, arith,
}
use mathlib.Core.Path.{ap₂, subst}
use libqrencode.Rsecc.{symbols, power, index, feed_back, encode_step}
use libqrencode.Rsecc.Field.{
  written, times, times-byte, times-zero, times-additive, times-times, times_sum, power-times,
  index_lem,
}

-- The value of a polynomial, from its highest coefficient on, at the i-th power of the primitive
-- element, when `value` is that of the coefficients before.
unfoldable pub evaluate : ℕ → List ℕ → ℕ → ℕ
evaluate i [] value = value
evaluate i (x ∷ xs) value = evaluate i xs (bit_xor (times i value) x)

abbrev pub IsByte : ℕ → Type 0
IsByte x = x < 256

pub evaluate-append :
    (i : ℕ) (xs ys : List ℕ) (value : ℕ)
    → evaluate i (xs ++ ys) value ≡ evaluate i ys (evaluate i xs value)
unfolding evaluate
evaluate-append i [] ys value = refl
evaluate-append i (x ∷ xs) ys value = evaluate-append i xs ys (bit_xor (times i value) x)

pub IsByte-xor : (x y : ℕ) → IsByte x → IsByte y → IsByte (bit_xor x y)
IsByte-xor x y hx hy = bit_xor-lt 8 x y hx hy

pub evaluate-IsByte :
    (i : ℕ) (xs : List ℕ) (value : ℕ) → All IsByte xs → IsByte value → IsByte (evaluate i xs value)
unfolding evaluate
evaluate-IsByte i [] value h hv = hv
evaluate-IsByte i (x ∷ xs) value (h, hs) hv =
    evaluate-IsByte i xs (bit_xor (times i value) x) hs (IsByte-xor _ x (times-byte i value hv) h)

pub power-IsByte : (e : ℕ) → IsByte (power written e)
power-IsByte e = subst IsByte (sym (power-times e)) (times-byte e 1 (omega arith))

-- The coefficients of a generator below the highest, which is 1.
unfoldable pub coefficients : List ℕ → ℕ → List ℕ
coefficients gen zero = []
coefficients gen (suc k) = power written (get_or gen k 0) ∷ coefficients gen k

-- One coefficient of a sum of a polynomial and a multiple of a generator.
combine :
    (i f g p q e : ℕ)
    → IsByte p
    → IsByte q
    → bit_xor (times i (bit_xor p (times f q))) (bit_xor e (power written (f + g)))
      ≡ bit_xor (bit_xor (times i p) e) (times f (bit_xor (times i q) (power written g)))
combine i f g p q e hp hq =
    ap₂ bit_xor
      (times-additive i p (times f q) hp (times-byte f q hq)
        ∙ ap (bit_xor (times i p)) (times-times i f q))
      (ap (bit_xor e) (power-times (f + g) ∙ times_sum f g 1 ∙ ap (times f) (sym (power-times g))))
    ∙ bit_xor_swap (times i p) (times f (times i q)) e (times f (power written g))
    ∙ ap (bit_xor (bit_xor (times i p) e))
        (sym (times-additive f (times i q) (power written g) (times-byte i q hq) (power-IsByte g)))

evaluate-feed_back :
    (i f : ℕ) (gen es : List ℕ) (p q : ℕ)
    → All IsByte es
    → IsByte p
    → IsByte q
    → evaluate i
        (feed_back written gen f es ++ (power written (f + get_or gen 0 0) ∷ []))
        (bit_xor p (times f q))
      ≡ bit_xor
          (evaluate i (es ++ (0 ∷ [])) p)
          (times f (evaluate i (coefficients gen (suc (length es))) q))
unfolding evaluate feed_back coefficients
evaluate-feed_back i f gen [] p q h hp hq =
    ap (bit_xor (times i (bit_xor p (times f q))))
      (sym (zero-bit_xor (power written (f + get_or gen 0 0))))
    ∙ combine i f (get_or gen 0 0) p q 0 hp hq
evaluate-feed_back i f gen (e ∷ es) p q (h, hs) hp hq =
    ap (evaluate i (feed_back written gen f es ++ (power written (f + get_or gen 0 0) ∷ [])))
      (combine i f (get_or gen (suc (length es)) 0) p q e hp hq)
    ∙ evaluate-feed_back i f gen es (bit_xor (times i p) e)
        (bit_xor (times i q) (power written (get_or gen (suc (length es)) 0))) hs
        (IsByte-xor _ e (times-byte i p hp) h)
        (IsByte-xor _ _ (times-byte i q hq) (power-IsByte (get_or gen (suc (length es)) 0)))

-- A zero behind the coefficients keeps a root.
evaluate_shift :
    (i : ℕ) (es : List ℕ) (p : ℕ) → evaluate i es p ≡ 0 → evaluate i (es ++ (0 ∷ [])) p ≡ 0
evaluate_shift i es p e =
    evaluate-append i es (0 ∷ []) p
    ∙ ap (evaluate i (0 ∷ [])) e
    ∙ (unfold evaluate in bit_xor-zero (times i 0) ∙ times-zero i)

-- A round keeps a root of the generator.
pub encode_step-root :
    (i d e : ℕ) (gen es : List ℕ) (value : ℕ)
    → evaluate i (coefficients gen (suc (length es))) 1 ≡ 0
    → IsByte d
    → IsByte e
    → All IsByte es
    → IsByte value
    → evaluate i (e ∷ es) value ≡ 0
    → evaluate i (encode_step written gen d (e ∷ es)) (bit_xor (times i value) d) ≡ 0
unfolding encode_step
encode_step-root i d e gen es value root hd he hs hv zeroed = elim (ℕ_discrete (bit_xor d e) 0) [
  | yes none_back ↦ rw ((index_lem (bit_xor d e) fb-byte).0 none_back) (
      ap (evaluate i (es ++ (0 ∷ []))) (split ∙ ap (bit_xor p) none_back ∙ bit_xor-zero p)
      ∙ shifted)
  | no back ↦
      let (small, exponent) = (index_lem (bit_xor d e) fb-byte).1 back in
      let f = index written (bit_xor d e) in
      let fed : bit_xor (times i value) d ≡ bit_xor p (times f 1) =
        split ∙ ap (bit_xor p) (sym exponent ∙ power-times f) in
      rw (ne→== f symbols (λ eq. omega (arith, eq, small))) (
        ap (evaluate i (feed_back written gen f es ++ (power written (f + get_or gen 0 0) ∷ [])))
          fed
        ∙ evaluate-feed_back i f gen es p 1 hs p-byte (omega arith)
        ∙ ap₂ bit_xor shifted (ap (times f) root ∙ times-zero f)
        ∙ bit_xor-zero 0)
]
  where
    p : ℕ
    p = bit_xor (times i value) e

    p-byte : IsByte p
    p-byte = IsByte-xor (times i value) e (times-byte i value hv) he

    fb-byte : IsByte (bit_xor d e)
    fb-byte = IsByte-xor d e hd he

    split : bit_xor (times i value) d ≡ bit_xor p (bit_xor d e)
    split = sym (bit_xor_cancel (times i value) d e)

    shifted : evaluate i (es ++ (0 ∷ [])) p ≡ 0
    shifted = evaluate_shift i es p (unfold evaluate in zeroed)
