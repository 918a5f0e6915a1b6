-- ===== src/BitStream/Laws.antt =====
-- The operations of bitstream.c against the bits that a stream holds: `BitStream_append`,
-- `BitStream_appendNum` and `BitStream_appendBytes` stay inside the buffer, keep what was there and
-- add exactly the bits that they are given.
use native.Mathlib.Nat.{pow-suc, pow-le-pow_right}
use native.Mathlib.Numerals.{add-one}
use libqrencode.Prelude.Bits.{bit_and-pow, pow_pos}
use libqrencode.Prelude.{
  ℕ, zero, suc, ◌+◌, ◌-◌, ◌*◌, ◌/◌, ◌%◌, ◌^◌, ◌≤◌, ◌<◌, Bool, false, List, [], ◌∷◌, ◌++◌, none,
  some, ◌≡◌, refl, sym, ap, ◌∙◌, length, set, take, replicate, ltb, ◌==◌, if◌then◌else◌,
  length-append, length-set, length-take, length-replicate, take-suc-set, take-append_le,
  append-nil, append_assoc, Bool-cases, suc-eq-zero, inl, inr, arith, tests,
}
use libqrencode.BitStream.{
  BitStream, new, new_with_bits, copy_at, expand, make_room, write_loop, write_num, write_bytes,
  append, append_num, append_bytes, reset,
}
use libqrencode.BitStream.Num.{num_bits, bytes_bits, length-num_bits, length-bytes_bits}

-- The cells in use.
abbrev pub bits : BitStream → List ℕ
bits b = take b.used b.buffer

pub record IsValid (b : BitStream) : Type 0 where
  pub allocated : length b.buffer ≡ b.datasize
  pub within : b.used ≤ b.datasize
  pub nonempty : 0 < b.datasize

pub length-bits : (b : BitStream) → IsValid b → length (bits b) ≡ b.used
length-bits b v = omega (arith, length-take b.used b.buffer)

pub length-copy_at :
    (dest : List ℕ) (at : ℕ) (xs : List ℕ) → length (copy_at dest at xs) ≡ length dest
unfolding copy_at
length-copy_at dest at [] = refl
length-copy_at dest at (x ∷ xs) = length-copy_at (set dest at x) (at + 1) xs ∙ length-set dest at x

-- Copying inside the buffer puts the list behind the first `at` cells.
take-copy_at :
    (dest : List ℕ) (at : ℕ) (xs : List ℕ) (end : ℕ)
    → at + length xs ≡ end
    → end ≤ length dest
    → take end (copy_at dest at xs) ≡ take at dest ++ xs
unfolding copy_at
take-copy_at dest at [] end e h = let same : end ≡ at = omega arith in rw (append-nil, same)
take-copy_at dest at (x ∷ xs) end e h =
    take-copy_at (set dest at x) (at + 1) xs end (omega arith) (omega (arith, length-set dest at x))
    ∙ ap (λ t. t ++ xs) (rw add-one (take-suc-set dest at x (omega arith)))
    ∙ append_assoc (take at dest) (x ∷ []) xs

pub test_bit : (n num : ℕ) → (if num / 2 ^ n % 2 * 2 ^ n == 0 then 0 else 1) ≡ num / 2 ^ n % 2
test_bit n num = grind (arith, pow_pos n)

write_loop-copy_at :
    (n mask num : ℕ) (dest : List ℕ) (at : ℕ)
    → mask ≡ 2 ^ n / 2
    → write_loop n mask num dest at ≡ copy_at dest at (num_bits n num)
unfolding write_loop copy_at num_bits
write_loop-copy_at zero mask num dest at e = refl
write_loop-copy_at (suc n) mask num dest at e =
    let low : mask ≡ 2 ^ n = omega (arith, pow-suc 2 n) in
    rw (low, bit_and-pow n num, test_bit n num)
      (write_loop-copy_at n (2 ^ n / 2) num (set dest at (num / 2 ^ n % 2)) (at + 1) refl)

write_num-copy_at :
    (dest : List ℕ) (at n num : ℕ)
    → n ≤ 32
    → write_num dest at n num ≡ copy_at dest at (num_bits n num)
unfolding write_num
write_num-copy_at dest at zero num h = unfold write_loop copy_at num_bits in refl
write_num-copy_at dest at (suc n) num h = write_loop-copy_at (suc n) _ num dest at mask
  where
    mask : 2 ^ (suc n - 1) % 2 ^ 32 ≡ 2 ^ suc n / 2
    mask =
        let pred : suc n - 1 ≡ n = omega arith in
        let fits : 2 ^ n ≤ 2 ^ 31 = pow-le-pow_right (omega arith) {i = n} {j = 31} (omega arith) in
        rw pred (omega (arith, pow-suc 2 n))

copy_at-append :
    (dest : List ℕ) (at : ℕ) (xs ys : List ℕ) (mid : ℕ)
    → at + length xs ≡ mid
    → copy_at dest at (xs ++ ys) ≡ copy_at (copy_at dest at xs) mid ys
unfolding copy_at
copy_at-append dest at [] ys mid e = ap (λ n. copy_at dest n ys) (omega arith)
copy_at-append dest at (x ∷ xs) ys mid e =
    copy_at-append (set dest at x) (at + 1) xs ys mid (omega arith)

write_bytes-copy_at :
    (dest : List ℕ) (at : ℕ) (cs : List ℕ)
    → write_bytes dest at cs ≡ copy_at dest at (bytes_bits cs)
unfolding write_bytes bytes_bits
write_bytes-copy_at dest at [] = unfold copy_at in refl
write_bytes-copy_at dest at (c ∷ cs) = rw (write_loop-copy_at 8 0x80 c dest at refl) (
    write_bytes-copy_at (copy_at dest at (num_bits 8 c)) (at + 8) cs
    ∙ sym (
        copy_at-append dest at (num_bits 8 c) (bytes_bits cs) (at + 8)
          (ap (λ n. at + n) (length-num_bits 8 c))))

-- `BitStream_expand` keeps the bits.
expand-IsValid : (b : BitStream) → IsValid b → IsValid (expand b)
unfolding expand
expand-IsValid b v = record {
  allocated = omega (
    arith,
    length-append b.buffer (replicate b.datasize 0),
    length-replicate {A = ℕ} b.datasize 0,
    v.allocated,
  );
  within = omega arith;
  nonempty = omega arith;
}

bits-expand : (b : BitStream) → IsValid b → bits (expand b) ≡ bits b
unfolding expand
bits-expand b v = take-append_le b.used b.buffer (replicate b.datasize 0) (omega arith)

-- What the growing loop does with a test that fails as soon as `n` more cells fit.
record HasRoom (b : BitStream) (n : ℕ) (c : BitStream) : Type 0 where
  valid : IsValid c
  same_used : c.used ≡ b.used
  same_bits : bits c ≡ bits b
  room : b.used + n ≤ c.datasize

make_room-HasRoom :
    (test : BitStream → Bool) (n : ℕ)
    → ((b : BitStream) → IsValid b → test b ≡ false → b.used + n ≤ b.datasize)
    → (fuel : ℕ) (b : BitStream) → IsValid b
    → b.used + n ≤ b.datasize + fuel
    → HasRoom b n (make_room test fuel b)
unfolding make_room
make_room-HasRoom test n ends zero b v h = record {
  valid = v;
  same_used = refl;
  same_bits = refl;
  room = omega arith;
}
make_room-HasRoom test n ends (suc fuel) b v h = elim (Bool-cases (test b)) [
  | inl more ↦
      rw more (widen (make_room-HasRoom test n ends fuel (expand b) (expand-IsValid b v) grown))
  | inr done ↦
      rw done (record { valid = v; same_used = refl; same_bits = refl; room = ends b v done })
]
  where
    grown : (expand b).used + n ≤ (expand b).datasize + fuel
    grown = unfold expand in omega arith

    widen : {c : BitStream} → HasRoom (expand b) n c → HasRoom b n c
    widen r = record {
      valid = r.valid;
      same_used = r.same_used ∙ (unfold expand in refl);
      same_bits = r.same_bits ∙ bits-expand b v;
      room = unfold expand in r.room;
    }

-- What an append leaves behind: a valid stream that holds the old bits and then `xs`.
pub record Appended (b : BitStream) (xs : List ℕ) (c : BitStream) : Type 0 where
  pub valid : IsValid c
  pub holds : bits c ≡ bits b ++ xs

copied :
    (b c : BitStream) (xs : List ℕ) (n : ℕ)
    → n ≡ length xs
    → HasRoom b n c
    → Appended b xs (record c { used = c.used + n; buffer = copy_at c.buffer c.used xs })
copied b c xs n e r = record {
  valid = record {
    allocated = length-copy_at c.buffer c.used xs ∙ r.valid.allocated;
    within = omega (arith, r.room, r.same_used);
    nonempty = r.valid.nonempty;
  };
  holds =
      take-copy_at c.buffer c.used xs (c.used + n) (omega arith)
        (omega (arith, r.room, r.same_used, r.valid.allocated))
      ∙ ap (λ t. t ++ xs) r.same_bits;
}

unchanged : (b : BitStream) (xs : List ℕ) → length xs ≡ 0 → IsValid b → Appended b xs b
unchanged b [] e v = record { valid = v; holds = sym (append-nil (bits b)) }
unchanged b (x ∷ xs) e v = absurd (omega arith)

-- On a valid stream `BitStream_appendNum` with at most 32 bits gives a valid stream that holds the
-- old bits and then the low `n` bits of `num`, highest first.
pub append_num-Appended :
    (b : BitStream) (n num : ℕ)
    → IsValid b
    → n ≤ 32
    → Appended b (num_bits n num) (append_num b n num)
unfolding append_num
append_num-Appended b zero num v h = unchanged b _ (length-num_bits 0 num) v
append_num-Appended b (suc n) num v h =
    rw (suc-eq-zero n, write_num-copy_at _ _ (suc n) num h)
      (copied b _ (num_bits (suc n) num) (suc n) (sym (length-num_bits (suc n) num)) (
        make_room-HasRoom (λ s. ltb (s.datasize - s.used) (suc n)) (suc n)
          (λ s w e. omega (tests, e)) (suc n) b v (omega arith)))

-- On a valid stream `BitStream_appendBytes` gives a valid stream that holds the old bits and then
-- the eight bits of each byte.
pub append_bytes-Appended :
    (b : BitStream) (bytes : List ℕ)
    → IsValid b
    → Appended b (bytes_bits bytes) (append_bytes b bytes)
unfolding append_bytes
append_bytes-Appended b [] v = unchanged b _ (length-bytes_bits []) v
append_bytes-Appended b (c ∷ cs) v =
    let n = length (c ∷ cs) * 8 in
    rw (suc-eq-zero (length cs), write_bytes-copy_at _ _ (c ∷ cs))
      (copied b _ (bytes_bits (c ∷ cs)) n (sym (length-bytes_bits (c ∷ cs))) (
        make_room-HasRoom (λ s. ltb (s.datasize - s.used) n) n (λ s w e. omega (tests, e)) n b v
          (omega arith)))

-- `BitStream_append` refuses a null stream, and otherwise gives a valid stream that holds the bits
-- of the first and then those of the second.
pub append-Appended :
    (b arg : BitStream)
    → IsValid b
    → IsValid arg
    → (append b none ≡ none)
      × ((c : BitStream) × (append b (some arg) ≡ some c) × Appended b (bits arg) c)
unfolding append
append-Appended b arg v w = elim (Bool-cases (arg.used == 0)) [
  | inl e ↦ (refl, (b, rw e, unchanged b (bits arg) (omega (tests, e, length-bits arg w)) v))
  | inr e ↦ (
    refl,
    (
      _,
      rw e,
      copied b _ (bits arg) arg.used (sym (length-bits arg w)) (
          make_room-HasRoom (λ s. ltb s.datasize (s.used + arg.used)) arg.used
            (λ s u t. omega (tests, t)) arg.used b v (omega arith)),
    ),
  )
]

pub new-IsValid : IsValid new
new-IsValid = omega arith

-- `BitStream_reset` empties a valid stream.
pub reset-IsValid : (b : BitStream) → IsValid b → IsValid (reset b) × (bits (reset b) ≡ [])
reset-IsValid b v =
    (record { allocated = v.allocated; within = omega arith; nonempty = v.nonempty }, refl)

-- `BitStream_newWithBits` gives a valid stream that holds the bits it is given.
pub new_with_bits-IsValid :
    (xs : List ℕ) → IsValid (new_with_bits xs) × (bits (new_with_bits xs) ≡ xs)
unfolding new_with_bits
new_with_bits-IsValid [] = (new-IsValid, refl)
new_with_bits-IsValid (x ∷ xs) =
    let n = length (x ∷ xs) in
    let room : length (replicate n 0) ≡ n = length-replicate n 0 in
    let start : 0 + length (x ∷ xs) ≡ n = omega arith in
    let bound : n ≤ length (replicate n 0) = omega (arith, room) in
    rw (suc-eq-zero (length xs)) (
      record {
        allocated = length-copy_at (replicate n 0) 0 (x ∷ xs) ∙ room;
        within = omega arith;
        nonempty = omega arith;
      },
      take-copy_at (replicate n 0) 0 (x ∷ xs) n start bound,
    )

-- Appends in a row.
pub Appended-trans :
    {b c d : BitStream} {xs ys : List ℕ}
    → Appended b xs c
    → Appended c ys d
    → Appended b (xs ++ ys) d
Appended-trans {b} {xs} {ys} p q = record {
  valid = q.valid;
  holds = q.holds ∙ ap (λ t. t ++ ys) p.holds ∙ append_assoc (bits b) xs ys;
}

pub Appended-refl : (b : BitStream) → IsValid b → Appended b [] b
Appended-refl b v = unchanged b [] refl v

-- The number of bits added.
pub used-Appended :
    (b c : BitStream) (xs : List ℕ) → IsValid b → Appended b xs c → c.used ≡ b.used + length xs
used-Appended b c xs v p = omega (
  arith,
  length-bits b v,
  length-bits c p.valid,
  ap (length {A = ℕ}) p.holds,
  length-append (bits b) xs,
)
