-- ===== src/Symbol/Content.antt =====
-- What the symbol holds: the code words of the raw code, bit by bit, along the way of the filler.
use native.Mathlib.Nat.{pow-suc}
use mathlib.Core.Option.{map}
use libqrencode.Prelude.Bits.{bit_and-pow, bit_and_comm}
use libqrencode.Prelude.{
  ℕ, zero, suc, ◌/◌, ◌%◌, ◌^◌, ◌≤◌, bit_and, bit_or, false, List, [], ◌∷◌, ◌++◌, Option, none, some,
  ◌≡◌, refl, sym, ap, ◌∙◌, ◌>>=◌, take, replicate, ◌==◌, if◌then◌else◌, arith,
}
use libqrencode.BitStream.Num.{num_bits}
use libqrencode.BitStream.Laws.{test_bit}
use libqrencode.QrSpec
use libqrencode.QrSpec.Frame as QrFrame
use libqrencode.Raw
use libqrencode.Raw.{RawCode, MqrRawCode}
use libqrencode.Filler.{FrameFiller, filler_set, next, write}
use libqrencode.Filler.Path.{fill}
use libqrencode.Symbol.{put_bits, put_codes, put_remainder}

-- The modules for bits, which carry `flag`.
unfoldable pub flagged : ℕ → List ℕ → List ℕ
flagged flag [] = []
flagged flag (b ∷ bs) = bit_or flag b ∷ flagged flag bs

-- The modules for the next `n` code words of a raw code, and the raw code behind them.
unfoldable pub code_modules : ℕ → ℕ → RawCode → List ℕ
unfolding flagged num_bits
code_modules zero flag raw = []
code_modules (suc n) flag raw =
    flagged flag (num_bits 8 (Raw.get_code raw).0) ++ code_modules n flag (Raw.get_code raw).1

unfoldable pub after_codes : ℕ → RawCode → RawCode
after_codes zero raw = raw
after_codes (suc n) raw = after_codes n (Raw.get_code raw).1

pub bind-ext {ℓ κ} :
    {A : Type ℓ} {B : Type κ} (o : Option A) (k k' : A → Option B)
    → ((a : A) → k a ≡ k' a)
    → (o >>= k) ≡ (o >>= k')
bind-ext none k k' h = refl
bind-ext (some a) k k' h = h a

bind-bind {ℓ κ μ} :
    {A : Type ℓ} {B : Type κ} {C : Type μ} (o : Option A) (k : A → Option B) (j : B → Option C)
    → ((o >>= k) >>= j) ≡ (o >>= (λ a. k a >>= j))
bind-bind none k j = refl
bind-bind (some a) k j = refl

bit_test : (k code : ℕ) → (if bit_and (2 ^ k) code == 0 then 0 else 1) ≡ code / 2 ^ k % 2
bit_test k code =
    ap (λ t. if t == 0 then 0 else 1) (bit_and_comm (2 ^ k) code ∙ bit_and-pow k code)
    ∙ test_bit k code

map-bind {ℓ κ μ} :
    {A : Type ℓ} {B : Type κ} {C : Type μ} (h : B → C) (o : Option A) (k : A → Option B)
    → (o >>= (λ a. map h (k a))) ≡ map h (o >>= k)
map-bind h none k = refl
map-bind h (some a) k = refl

pub fill-append :
    (f : FrameFiller) (xs ys : List ℕ) → fill f (xs ++ ys) ≡ (fill f xs >>= (λ g. fill g ys))
unfolding fill
fill-append f [] ys = refl
fill-append f (x ∷ xs) ys =
    bind-ext (next f) _ _ (λ g. fill-append (write x g) xs ys)
    ∙ sym (bind-bind (next f) (λ g. fill (write x g) xs) (λ g. fill g ys))

pub put_bits-fill :
    (n k flag code : ℕ) (f : FrameFiller)
    → n ≤ suc k
    → put_bits n flag (2 ^ k) code f ≡ fill f (flagged flag (take n (num_bits (suc k) code)))
unfolding put_bits fill flagged num_bits
put_bits-fill zero k flag code f h = refl
put_bits-fill (suc (suc n)) zero flag code f h = absurd (omega arith)
put_bits-fill (suc zero) zero flag code f h =
    ap (λ b. next f >>= (λ g. some (write (bit_or flag b) g))) (bit_test 0 code)
put_bits-fill (suc n) (suc k) flag code f h =
    ap (λ b. next f >>= (λ g. put_bits n flag (2 ^ suc k / 2) code (write (bit_or flag b) g)))
      (bit_test (suc k) code)
    ∙ bind-ext (next f) _ _ (λ g.
      ap (λ b. put_bits n flag b code (write (bit_or flag (code / 2 ^ suc k % 2)) g)) half
      ∙ put_bits-fill n k flag code (write (bit_or flag (code / 2 ^ suc k % 2)) g) (omega arith))
  where
    half : 2 ^ suc k / 2 ≡ 2 ^ k
    half = omega (arith, pow-suc 2 k)

-- The calls for one code word and then for the rest, as one run of writes.
pub code-then {ℓ} :
    {A : Type ℓ} (h : FrameFiller → A) (f : FrameFiller) (o : Option FrameFiller) (xs ys : List ℕ)
    (k : FrameFiller → Option A)
    → o ≡ fill f xs
    → ((g : FrameFiller) → k g ≡ map h (fill g ys))
    → (o >>= k) ≡ map h (fill f (xs ++ ys))
code-then h f o xs ys k e rest =
    ap (λ t. t >>= k) e
    ∙ bind-ext (fill f xs) k _ rest
    ∙ map-bind h (fill f xs) (λ g. fill g ys)
    ∙ ap (map h) (sym (fill-append f xs ys))

put_codes-fill :
    (n flag : ℕ) (raw : RawCode) (f : FrameFiller)
    → put_codes n flag raw f ≡ map (λ g. (after_codes n raw, g)) (fill f (code_modules n flag raw))
unfolding put_codes after_codes code_modules
put_codes-fill zero flag raw f = unfold fill in refl
put_codes-fill (suc n) flag raw f =
    let (code, raw') = Raw.get_code raw in
    code-then (λ g. (after_codes n raw', g)) f (put_bits 8 flag 0x80 code f)
      (flagged flag (num_bits 8 code)) (code_modules n flag raw') (put_codes n flag raw')
      (put_bits-fill 8 7 flag code f (omega arith)) (put_codes-fill n flag raw')

put_remainder-fill : (n : ℕ) (f : FrameFiller) → put_remainder n f ≡ fill f (replicate n 0x02)
unfolding put_remainder fill
put_remainder-fill zero f = refl
put_remainder-fill (suc n) f = bind-ext (next f) _ _ (λ g. put_remainder-fill n (write 0x02 g))

-- The modules of a symbol in the order of the filler: the data code words, the error correction
-- code words, which carry 0x02, and the remainder.
unfoldable pub symbol_modules : RawCode → List ℕ
unfolding code_modules after_codes
symbol_modules raw =
    code_modules raw.data_length 0 raw
    ++ (code_modules raw.ecc_length 0x02 (after_codes raw.data_length raw)
        ++ replicate (QrSpec.get_remainder raw.version) 0x02)

-- The filler at its start in the frame of a version.
abbrev pub filler_of : ℕ → FrameFiller
filler_of version = filler_set (QrSpec.get_width version) (QrFrame.create_frame version) false

pub map-then {ℓ κ μ} :
    {A : Type ℓ} {B : Type κ} {C : Type μ} (h : A → B) (o : Option A) (k : B → Option C)
    → (map h o >>= k) ≡ (o >>= (λ a. k (h a)))
map-then h none k = refl
map-then h (some a) k = refl

-- The three loops of `QRcode_encodeMask`.
abbrev pub put_all : RawCode → FrameFiller → Option FrameFiller
put_all raw f = put_codes raw.data_length 0 raw f >>= (λ d.
    put_codes raw.ecc_length 0x02 d.0 d.1
    >>= (λ e. put_remainder (QrSpec.get_remainder raw.version) e.1))

pub put_all-fill : (raw : RawCode) (f : FrameFiller) → put_all raw f ≡ fill f (symbol_modules raw)
unfolding symbol_modules
put_all-fill raw f =
    ap (λ o. o >>= last) (put_codes-fill raw.data_length 0 raw f)
    ∙ map-then _ (fill f codes) last
    ∙ bind-ext (fill f codes) _ _ (λ g.
      ap (λ o. o >>= (λ e. put_remainder r e.1)) (put_codes-fill raw.ecc_length 0x02 raw' g)
      ∙ map-then _ (fill g eccs) (λ e. put_remainder r e.1)
      ∙ bind-ext (fill g eccs) _ _ (λ h. put_remainder-fill r h)
      ∙ sym (fill-append g eccs (replicate r 0x02)))
    ∙ sym (fill-append f codes (eccs ++ replicate r 0x02))
  where
    r : ℕ
    r = QrSpec.get_remainder raw.version

    raw' : RawCode
    raw' = after_codes raw.data_length raw

    codes : List ℕ
    codes = code_modules raw.data_length 0 raw

    eccs : List ℕ
    eccs = code_modules raw.ecc_length 0x02 raw'

    last : RawCode × FrameFiller → Option FrameFiller
    last d = put_codes raw.ecc_length 0x02 d.0 d.1 >>= (λ e. put_remainder r e.1)
