-- ===== src/Filler/Ending.antt =====
-- The calls of `FrameFiller_next` on itself come to an end.
use native.Mathlib.Nat.{mul-le-mul, le_refl}
use libqrencode.Prelude.{
  ℕ, zero, suc, ◌+◌, ◌-◌, ◌*◌, ◌≤◌, ◌<◌, bit_and, false, Option, none, some, ◌≡◌, refl, ap, ◌==◌,
  if◌then◌else◌, get_or, Bool-cases, Option-cases, inl, inr, ==→eq, arith,
}
use libqrencode.Filler.{
  FrameFiller, Direction, upward, downward, Side, start, right, left, position, move, next_loop,
  fuel, is_start, next,
}
use libqrencode.Filler.Order.{IsInside, IsLater, move-Moved, base, in_pair, rows, ahead, ne_zero}

-- A call of `FrameFiller_next` with the calls on itself that it makes, and its result.
pub data NextRun : FrameFiller → Option FrameFiller → Type 0 where
  over : (f : FrameFiller) → move f f.bit ≡ none → NextRun f none
  found :
      (f g : FrameFiller)
      → move f f.bit ≡ some g
      → bit_and (get_or g.frame (position g) 0) 0x80 ≡ 0
      → NextRun f (some g)
  passed :
      (f g : FrameFiller) (o : Option FrameFiller)
      → move f f.bit ≡ some g
      → 1 ≤ bit_and (get_or g.frame (position g) 0) 0x80
      → NextRun g o
      → NextRun f o

-- The modules in front of the filler, at most.
abbrev rank : FrameFiller → ℕ
rank f = base f * f.width + in_pair f

in_pair_lt : (f : FrameFiller) → IsInside f → is_start f.bit ≡ false → in_pair f < 2 * f.width
in_pair_lt f ins ns = omega (arith, rows_le f.dir, ahead_le f.bit ns)
  where
    rows_le : (d : Direction) → rows d f.width f.y ≤ f.width - 1
    rows_le upward = omega arith
    rows_le downward = omega arith

    ahead_le : (b : Side) → is_start b ≡ false → ahead b ≤ 1
    ahead_le start e = cc
    ahead_le right e = omega arith
    ahead_le left e = omega arith

rank_later :
    (f g : FrameFiller) → IsInside g → is_start g.bit ≡ false → IsLater f g → rank g < rank f
unfolding IsLater
rank_later f g ins ns (w, inl h) =
    let area : (base g + 2) * f.width ≤ base f * f.width = mul-le-mul h (le_refl f.width) in
    let same : base g * g.width ≡ base g * f.width = ap (λ t. base g * t) w in
    omega (arith, in_pair_lt g ins ns)
rank_later f g ins ns (w, inr (b, d, h)) =
    let same : base g * g.width ≡ base f * f.width = rw (b, w) refl in omega arith

next_loop-NextRun : (n : ℕ) (f : FrameFiller) → IsInside f → rank f < n → NextRun f (next_loop n f)
unfolding next_loop
next_loop-NextRun zero f ins h = absurd (omega arith)
next_loop-NextRun (suc n) f ins h = elim (Option-cases (move f f.bit)) [
  | inl e ↦ rw (e) (NextRun.over f e)
  | inr (g, e) ↦
      let moved = move-Moved f g f.bit ins refl e in
      let less = rank_later f g moved.1 moved.4 moved.0 in
      let rest = next_loop-NextRun n g moved.1 (omega (arith, less)) in rw (e) (look f g n e rest)
]
  where
    look :
        (f g : FrameFiller) (n : ℕ)
        → move f f.bit ≡ some g
        → NextRun g (next_loop n g)
        → NextRun f
            (if bit_and (get_or g.frame (position g) 0) 0x80 == 0 then some g else next_loop n g)
    look f g n e rest = elim (Bool-cases (bit_and (get_or g.frame (position g) 0) 0x80 == 0)) [
      | inl z ↦ rw (z) (NextRun.found f g e (==→eq _ 0 z))
      | inr z ↦ rw (z) (NextRun.passed f g _ e (ne_zero _ z) rest)
    ]

-- For a filler inside a frame that has given its first module, the calls of `FrameFiller_next` on
-- itself come to an end, and the model's bound on them, width * width + width, does not cut them
-- short: the result is the one that the calls without a bound give.
pub next-NextRun : (f : FrameFiller) → IsInside f → is_start f.bit ≡ false → NextRun f (next f)
unfolding next
next-NextRun f ins ns =
    let column : base f + 1 ≤ f.width = omega arith in
    let area : (base f + 1) * f.width ≤ f.width * f.width = mul-le-mul column (le_refl f.width) in
    rw (ns) (next_loop-NextRun (fuel f) f ins (omega (arith, in_pair_lt f ins ns)))
