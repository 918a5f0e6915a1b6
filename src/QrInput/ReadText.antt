-- ===== src/QrInput/ReadText.antt =====
-- The reader gives back the data of numeric, alphanumeric and 8-bit entries (qrinput.c).
use libqrencode.Prelude.{
  ℕ, ◌+◌, ◌-◌, ◌*◌, ◌/◌, ◌%◌, ◌^◌, ◌<◌, Bool, true, false, ◌&&◌, ◌||◌, List, [], ◌∷◌, ◌++◌, Option,
  none, some, ◌≡◌, refl, length, All, append_assoc, arith, ltb, ◌==◌,
}
use libqrencode.Prelude.Tables.{all_below, all_below_sound}
use libqrencode.BitStream.Num.{num_bits, bytes_bits}
use libqrencode.QrInput.Entry.{look_an_table, is_some, check_mode_num, check_mode_an}
use libqrencode.QrInput.Encode.{digit, an_value}
use libqrencode.QrInput.Payload.{num_payload, an_payload}
use libqrencode.QrInput.Reader.{read-num_bits, drop-num_bits, read_num, an_char, read_an, read_8}

digit-lt : (c : ℕ) → (ltb c b'0' || ltb b'9' c) ≡ false → (digit c < 10) × (digit c + b'0' ≡ c)
digit-lt c h = ground arith

cons_num :
    (c : ℕ) (cs : List ℕ)
    → check_mode_num (c ∷ cs) ≡ true
    → (digit c < 10) × (digit c + b'0' ≡ c) × (check_mode_num cs ≡ true)
unfolding check_mode_num
cons_num c cs h = ground arith

pair2 :
    (x y u w : ℕ) (rest : List ℕ)
    → u + b'0' ≡ x
    → w + b'0' ≡ y
    → ◌≡◌ {A = List ℕ × List ℕ} ((u + b'0') ∷ (w + b'0') ∷ [], rest) (x ∷ y ∷ [], rest)
pair2 x y u w rest p q = rw (p, q)

triple :
    (x y z u w t : ℕ) (cs rest : List ℕ)
    → u + b'0' ≡ x
    → w + b'0' ≡ y
    → t + b'0' ≡ z
    → ◌≡◌ {A = List ℕ × List ℕ}
        ((u + b'0') ∷ (w + b'0') ∷ (t + b'0') ∷ cs, rest)
        (x ∷ y ∷ z ∷ cs, rest)
triple x y z u w t cs rest p q r = rw (p, q, r)

pub read_num-payload :
    (cs rest : List ℕ)
    → check_mode_num cs ≡ true
    → read_num (length cs) (num_payload cs ++ rest) ≡ (cs, rest)
unfolding read_num num_payload
read_num-payload [] rest h = refl
read_num-payload (x ∷ []) rest h =
    let (lx, bx, h') = cons_num x [] h in
    rw (read-num_bits 4 (digit x) rest (omega arith), drop-num_bits 4 (digit x) rest, bx)
read_num-payload (x ∷ y ∷ []) rest h =
    let (lx, bx, hx) = cons_num x (y ∷ []) h in
    let (ly, by, hy) = cons_num y [] hx in
    let v : ℕ = digit x * 10 + digit y in
    rw (read-num_bits 7 v rest (omega arith), drop-num_bits 7 v rest)
      (pair2 x y (v / 10) (v % 10) rest (omega arith) (omega arith))
read_num-payload (x ∷ y ∷ z ∷ cs) rest h =
    let (lx, bx, hx) = cons_num x (y ∷ z ∷ cs) h in
    let (ly, by, hy) = cons_num y (z ∷ cs) hx in
    let (lz, bz, hz) = cons_num z cs hy in
    let v : ℕ = digit x * 100 + digit y * 10 + digit z in
    let tail : List ℕ = num_payload cs ++ rest in
    rw
      (
        append_assoc (num_bits 10 v) (num_payload cs) rest,
        read-num_bits 10 v tail (omega arith),
        drop-num_bits 10 v tail,
        read_num-payload cs rest hz,
      )
      (triple x y z (v / 100) (v / 10 % 10) (v % 10) cs rest (omega arith) (omega arith)
        (omega arith))

-- The table of alphanumeric mode and the characters are inverse to each other.
an_check : ℕ → Bool
an_check c = elim (look_an_table c) [ none ↦ true | some v ↦ ltb v 45 && (an_char v == c) ]

an_table_checked : all_below 256 an_check ≡ true
unfolding all_below an_check look_an_table an_char
an_table_checked = refl

an_value_inverse :
    (c : ℕ)
    → c < 256
    → is_some (look_an_table c) ≡ true
    → (an_value c < 45) × (an_char (an_value c) ≡ c)
an_value_inverse c h s =
    go (look_an_table c) s (unfold an_check in all_below_sound 256 an_check c an_table_checked h)
  where
    go :
        (o : Option ℕ)
        → is_some o ≡ true
        → (elim o [ none ↦ true | some v ↦ ltb v 45 && (an_char v == c) ]) ≡ true
        → ((elim o [ none ↦ 2 ^ 32 - 1 | some v ↦ v ]) < 45)
          × (an_char (elim o [ none ↦ 2 ^ 32 - 1 | some v ↦ v ]) ≡ c)
    go none p q = cc
    go (some v) p q = ground arith

cons_an :
    (c : ℕ) (cs : List ℕ)
    → check_mode_an (c ∷ cs) ≡ true
    → (is_some (look_an_table c) ≡ true) × (check_mode_an cs ≡ true)
unfolding check_mode_an
cons_an c cs h = ground arith

pub read_an-payload :
    (cs rest : List ℕ)
    → All (λ c. c < 256) cs
    → check_mode_an cs ≡ true
    → read_an (length cs) (an_payload cs ++ rest) ≡ (cs, rest)
unfolding read_an an_payload
read_an-payload [] rest b h = refl
read_an-payload (x ∷ []) rest (bx, bs) h =
    let (lx, ex) = an_value_inverse x bx (cons_an x [] h).0 in
    rw (read-num_bits 6 (an_value x) rest (omega arith), drop-num_bits 6 (an_value x) rest, ex)
read_an-payload (x ∷ y ∷ cs) rest (bx, (by, bs)) h =
    let (sx, hx) = cons_an x (y ∷ cs) h in
    let (sy, hy) = cons_an y cs hx in
    let (lx, ex) = an_value_inverse x bx sx in
    let (ly, ey) = an_value_inverse y by sy in
    let v : ℕ = (an_value x * 45 + an_value y) % 2 ^ 32 in
    let tail : List ℕ = an_payload cs ++ rest in
    let high : v / 45 ≡ an_value x = omega arith in
    let low : v % 45 ≡ an_value y = omega arith in
    rw (
      append_assoc (num_bits 11 v) (an_payload cs) rest,
      read-num_bits 11 v tail (omega arith),
      drop-num_bits 11 v tail,
      read_an-payload cs rest bs hy,
      high,
      low,
      ex,
      ey,
    )

pub read_8-payload :
    (cs rest : List ℕ)
    → All (λ c. c < 256) cs
    → read_8 (length cs) (bytes_bits cs ++ rest) ≡ (cs, rest)
unfolding read_8 bytes_bits
read_8-payload [] rest b = refl
read_8-payload (x ∷ cs) rest (bx, bs) =
    let tail : List ℕ = bytes_bits cs ++ rest in
    rw (
      append_assoc (num_bits 8 x) (bytes_bits cs) rest,
      read-num_bits 8 x tail bx,
      drop-num_bits 8 x tail,
      read_8-payload cs rest bs,
    )
