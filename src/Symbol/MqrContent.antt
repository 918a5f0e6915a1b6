-- ===== src/Symbol/MqrContent.antt =====
-- What a Micro QR Code symbol holds, along the way of the filler.
use mathlib.Core.Option.{map}
use libqrencode.Prelude.{
  ℕ, zero, suc, ◌+◌, ◌-◌, ◌*◌, ◌≤◌, Bool, true, false, ◌&&◌, not, List, [], ◌∷◌, ◌++◌, ◌≡◌, refl,
  sym, ap, ◌∙◌, ◌>>=◌, length, length-append, length-take, take, ◌==◌, ==_iff, ne→==, if◌then◌else◌,
  inl, inr, ltb, Bool-cases, arith,
}
use libqrencode.BitStream.Num.{num_bits, length-num_bits}
use libqrencode.Raw
use libqrencode.Raw.{RawCode, MqrRawCode}
use libqrencode.Filler.{FrameFiller}
use libqrencode.Filler.Path.{fill}
use libqrencode.Symbol.Content.{flagged, code-then, bind-ext, map-then, put_bits-fill, fill-append}
use libqrencode.Symbol.{put_bits, put_mqr_data, put_mqr_ecc}

-- The modules for `n` data code words of Micro QR Code from the code word `i` on.
unfoldable pub mqr_data_modules : ℕ → ℕ → MqrRawCode → List ℕ
unfolding flagged num_bits
mqr_data_modules zero i raw = []
mqr_data_modules (suc n) i raw =
    flagged 0 (
      take (if not (raw.oddbits == 0) && i == raw.data_length - 1 then raw.oddbits else 8)
        (num_bits 8 (Raw.mqr_get_code raw).0))
    ++ mqr_data_modules n (i + 1) (Raw.mqr_get_code raw).1

unfoldable pub mqr_ecc_modules : ℕ → MqrRawCode → List ℕ
unfolding flagged num_bits
mqr_ecc_modules zero raw = []
mqr_ecc_modules (suc n) raw =
    flagged 0x02 (num_bits 8 (Raw.mqr_get_code raw).0) ++ mqr_ecc_modules n (Raw.mqr_get_code raw).1

unfoldable pub after_mqr_codes : ℕ → MqrRawCode → MqrRawCode
after_mqr_codes zero raw = raw
after_mqr_codes (suc n) raw = after_mqr_codes n (Raw.mqr_get_code raw).1

-- Reading a code word moves nothing but the count.
module _ (raw : MqrRawCode) where
  mqr_get_code-keeps {ℓ} :
      {A : Type ℓ} (field : MqrRawCode → A)
      → ((n : ℕ) → field (record raw { count = n }) ≡ field raw)
      → field (Raw.mqr_get_code raw).1 ≡ field raw
  unfolding Raw.mqr_get_code
  mqr_get_code-keeps field same = elim (Bool-cases (ltb raw.count raw.data_length)) [
    | inl e ↦ rw (e) (same (raw.count + 1))
    | inr e ↦ elim (Bool-cases (ltb raw.count (raw.data_length + raw.ecc_length))) [
      | inl e' ↦ rw (e, e') (same (raw.count + 1))
      | inr e' ↦ rw (e, e') refl
    ]
  ]

  mqr_get_code-oddbits : (Raw.mqr_get_code raw).1.oddbits ≡ raw.oddbits
  mqr_get_code-oddbits = mqr_get_code-keeps MqrRawCode.oddbits (λ n. refl)

  mqr_get_code-data_length : (Raw.mqr_get_code raw).1.data_length ≡ raw.data_length
  mqr_get_code-data_length = mqr_get_code-keeps MqrRawCode.data_length (λ n. refl)

odd_bits_le : (b : Bool) (odd : ℕ) → odd ≤ 8 → (if b then odd else 8) ≤ 8
odd_bits_le true odd h = h
odd_bits_le false odd h = omega arith

put_mqr_data-fill :
    (n i : ℕ) (raw : MqrRawCode) (f : FrameFiller)
    → raw.oddbits ≤ 8
    → put_mqr_data n i raw f
      ≡ map (λ g. (after_mqr_codes n raw, g)) (fill f (mqr_data_modules n i raw))
unfolding put_mqr_data after_mqr_codes mqr_data_modules
put_mqr_data-fill zero i raw f h = unfold fill in refl
put_mqr_data-fill (suc n) i raw f h =
    let (code, raw') = Raw.mqr_get_code raw in
    let bits = if not (raw.oddbits == 0) && i == raw.data_length - 1 then raw.oddbits else 8 in
    code-then (λ g. (after_mqr_codes n raw', g)) f (put_bits bits 0 0x80 code f)
      (flagged 0 (take bits (num_bits 8 code))) (mqr_data_modules n (i + 1) raw')
      (put_mqr_data n (i + 1) raw') (put_bits-fill bits 7 0 code f (odd_bits_le _ raw.oddbits h))
      (λ g. put_mqr_data-fill n (i + 1) raw' g (omega (arith, mqr_get_code-oddbits raw)))

put_mqr_ecc-fill :
    (n : ℕ) (raw : MqrRawCode) (f : FrameFiller)
    → put_mqr_ecc n raw f ≡ fill f (mqr_ecc_modules n raw)
unfolding put_mqr_ecc mqr_ecc_modules
put_mqr_ecc-fill zero raw f = unfold fill in refl
put_mqr_ecc-fill (suc n) raw f =
    let (code, raw') = Raw.mqr_get_code raw in
    ap (λ t. t >>= put_mqr_ecc n raw') (put_bits-fill 8 7 0x02 code f (omega arith))
    ∙ bind-ext (fill f (flagged 0x02 (num_bits 8 code))) _ _ (put_mqr_ecc-fill n raw')
    ∙ sym (fill-append f (flagged 0x02 (num_bits 8 code)) (mqr_ecc_modules n raw'))

-- The data and then the error correction code words of a Micro QR Code symbol.
unfoldable pub mqr_symbol_modules : MqrRawCode → List ℕ
unfolding mqr_data_modules mqr_ecc_modules after_mqr_codes
mqr_symbol_modules raw =
    mqr_data_modules raw.data_length 0 raw
    ++ mqr_ecc_modules raw.ecc_length (after_mqr_codes raw.data_length raw)

pub put_mqr_all-fill :
    (raw : MqrRawCode) (f : FrameFiller)
    → raw.oddbits ≤ 8
    → (put_mqr_data raw.data_length 0 raw f >>= (λ d. put_mqr_ecc raw.ecc_length d.0 d.1))
      ≡ fill f (mqr_symbol_modules raw)
unfolding mqr_symbol_modules
put_mqr_all-fill raw f h =
    let codes = mqr_data_modules raw.data_length 0 raw in
    let raw' = after_mqr_codes raw.data_length raw in
    ap (λ o. o >>= (λ d. put_mqr_ecc raw.ecc_length d.0 d.1))
      (put_mqr_data-fill raw.data_length 0 raw f h)
    ∙ map-then _ (fill f codes) (λ d. put_mqr_ecc raw.ecc_length d.0 d.1)
    ∙ bind-ext (fill f codes) _ _ (λ g. put_mqr_ecc-fill raw.ecc_length raw' g)
    ∙ sym (fill-append f codes (mqr_ecc_modules raw.ecc_length raw'))

pub length-flagged : (flag : ℕ) (bs : List ℕ) → length (flagged flag bs) ≡ length bs
unfolding flagged
length-flagged flag [] = refl
length-flagged flag (b ∷ bs) = ap suc (length-flagged flag bs)

length-mqr_ecc_modules : (n : ℕ) (raw : MqrRawCode) → length (mqr_ecc_modules n raw) ≡ 8 * n
unfolding mqr_ecc_modules
length-mqr_ecc_modules zero raw = refl
length-mqr_ecc_modules (suc n) raw =
    let (code, raw') = Raw.mqr_get_code raw in
    omega (
      arith,
      length-append (flagged 0x02 (num_bits 8 code)) (mqr_ecc_modules n raw'),
      length-flagged 0x02 (num_bits 8 code),
      length-num_bits 8 code,
      length-mqr_ecc_modules n raw',
    )

-- The bits that the last data code word falls short of.
abbrev pub missing : ℕ → ℕ
missing odd = if odd == 0 then 0 else 8 - odd

-- The bits of the code word `i`, of which `n` more follow.
abbrev width_at : ℕ → ℕ → ℕ → ℕ
width_at odd i size = if not (odd == 0) && i == size - 1 then odd else 8

width_last : (odd i size : ℕ) → odd ≤ 8 → i + 1 ≡ size → width_at odd i size + missing odd ≡ 8
width_last odd i size h e = elim (Bool-cases (odd == 0)) [
  | inl z ↦ rw (z) refl
  | inr z ↦
      let last : (i == size - 1) ≡ true = (==_iff i (size - 1)).1 (omega arith) in
      rw (z, last) (omega arith)
]

width_before : (odd i size n : ℕ) → i + suc (suc n) ≡ size → width_at odd i size ≡ 8
width_before odd i size n e = elim (Bool-cases (odd == 0)) [
  | inl z ↦ rw (z) refl
  | inr z ↦
      let more : (i == size - 1) ≡ false = ne→== i (size - 1) (λ s. omega arith) in
      rw (z, more) refl
]

length-mqr_data_modules :
    (n i : ℕ) (raw : MqrRawCode)
    → raw.oddbits ≤ 8
    → i + suc n ≡ raw.data_length
    → length (mqr_data_modules (suc n) i raw) + missing raw.oddbits ≡ 8 * suc n
unfolding mqr_data_modules
length-mqr_data_modules zero i raw h e =
    let (code, raw') = Raw.mqr_get_code raw in
    let w = width_at raw.oddbits i raw.data_length in
    omega (
      arith,
      length-append (flagged 0 (take w (num_bits 8 code))) [],
      length-flagged 0 (take w (num_bits 8 code)),
      length-take w (num_bits 8 code),
      length-num_bits 8 code,
      width_last raw.oddbits i raw.data_length h e,
    )
length-mqr_data_modules (suc n) i raw h e =
    let (code, raw') = Raw.mqr_get_code raw in
    let w = width_at raw.oddbits i raw.data_length in
    let odd = mqr_get_code-oddbits raw in
    let rest =
      length-mqr_data_modules n (i + 1) raw' (omega (arith, odd))
        (omega (arith, mqr_get_code-data_length raw)) in
    omega (
      arith,
      length-append (flagged 0 (take w (num_bits 8 code))) (mqr_data_modules (suc n) (i + 1) raw'),
      length-flagged 0 (take w (num_bits 8 code)),
      length-take w (num_bits 8 code),
      length-num_bits 8 code,
      width_before raw.oddbits i raw.data_length n e,
      ap missing odd,
      rest,
    )

-- The modules that a raw code needs.
pub length-mqr_symbol_modules :
    (raw : MqrRawCode)
    → raw.oddbits ≤ 8
    → 1 ≤ raw.data_length
    → length (mqr_symbol_modules raw) + missing raw.oddbits
      ≡ 8 * raw.data_length + 8 * raw.ecc_length
unfolding mqr_symbol_modules
length-mqr_symbol_modules raw h pos = go raw.data_length refl
  where
    go :
        (n : ℕ)
        → raw.data_length ≡ n
        → length
              (mqr_data_modules n 0 raw ++ mqr_ecc_modules raw.ecc_length (after_mqr_codes n raw))
            + missing raw.oddbits
          ≡ 8 * n + 8 * raw.ecc_length
    go zero e = absurd (omega arith)
    go (suc n) e = omega (
      arith,
      length-append (mqr_data_modules (suc n) 0 raw)
          (mqr_ecc_modules raw.ecc_length (after_mqr_codes (suc n) raw)),
      length-mqr_data_modules n 0 raw h (omega arith),
      length-mqr_ecc_modules raw.ecc_length (after_mqr_codes (suc n) raw),
    )
