-- ===== src/QrInput/Version.antt =====
-- `QRinput_estimateVersion` and `QRinput_convertData`: the loops that raise the version end, and
-- the version at which they do.
use native.Mathlib.Decide.{dec_lt}
use libqrencode.Prelude.{
  ℕ, zero, suc, ◌+◌, ◌-◌, ◌/◌, ◌≤◌, ◌<◌, some, ◌≡◌, refl, ltb, if◌then◌else◌, lt→ltb, le→ltb, arith,
}
use libqrencode.QrSpec.{get_minimum_version}
use libqrencode.QrSpec.Consistency.{get_minimum_version_lem}
use libqrencode.QrInput.Entry.{QrInput}
use libqrencode.QrInput.Estimate.{
  estimate_bit_stream_size, estimate_step, estimate_loop, estimate_version,
}

-- The minimum version for the size that is estimated at the version `w`.
abbrev pub estimated : QrInput → ℕ → ℕ
estimated input w = get_minimum_version ((estimate_bit_stream_size input w + 7) / 8) input.level

-- The minimum version for the size estimated at version 0, less 1 unless it is 1.
abbrev pub start_version : QrInput → ℕ
start_version input = if ltb 1 (estimated input 0) then estimated input 0 - 1 else 1

-- The versions that the estimate comes to, from the start on, each higher than the one before.
pub data Rises (input : QrInput) : ℕ → Type 0 where
  started : Rises input (start_version input)
  risen : (w : ℕ) → Rises input w → w < estimated input w → Rises input (estimated input w)

estimated_bounds : (input : QrInput) (w : ℕ) → (1 ≤ estimated input w) × (estimated input w ≤ 40)
estimated_bounds input w =
    let bounds = get_minimum_version_lem ((estimate_bit_stream_size input w + 7) / 8) input.level in
    (bounds.0, bounds.1)

step_estimated :
    (input : QrInput) (prev : ℕ) → 1 ≤ prev → estimate_step input prev ≡ estimated input prev
unfolding estimate_step
step_estimated input prev h = ground (arith, h)

step_start : (input : QrInput) → estimate_step input 0 ≡ start_version input
unfolding estimate_step
step_start input = one_or_less (estimated input 0) (estimated_bounds input 0).0
  where
    one_or_less : (v : ℕ) → 1 ≤ v → (if ltb 1 v then v - 1 else v) ≡ (if ltb 1 v then v - 1 else 1)
    one_or_less v h = ground (arith, h)

start_bounds : (input : QrInput) → (1 ≤ start_version input) × (start_version input ≤ 40)
start_bounds input = inside (estimated input 0) (estimated_bounds input 0).1
  where
    inside :
        (v : ℕ)
        → v ≤ 40
        → (1 ≤ (if ltb 1 v then v - 1 else 1)) × ((if ltb 1 v then v - 1 else 1) ≤ 40)
    inside v h = (ground (arith, h), ground (arith, h))

-- A version that the estimate comes to and that its own estimate does not exceed.
abbrev pub Settles : QrInput → ℕ → Type 0
Settles input w = Rises input w × (1 ≤ w) × (w ≤ 40) × (estimated input w ≤ w)

estimate_loop-Settles :
    (fuel : ℕ) (input : QrInput) (prev : ℕ)
    → Rises input prev
    → 1 ≤ prev
    → prev ≤ 40
    → 41 ≤ prev + fuel
    → (w : ℕ) × (estimate_loop fuel input prev ≡ some (estimated input w)) × Settles input w
unfolding estimate_loop
estimate_loop-Settles zero input prev r lo hi enough = absurd (omega arith)
estimate_loop-Settles (suc fuel) input prev r lo hi enough =
    let (lo', hi') = estimated_bounds input prev in
    elim (dec_lt prev (estimated input prev)) [
      | yes grows ↦
          rw (step_estimated input prev lo, lt→ltb prev (estimated input prev) grows)
            (estimate_loop-Settles fuel input (estimated input prev) (Rises.risen prev r grows) lo'
              hi' (omega arith))
      | no stays ↦ (
        prev,
        rw (step_estimated input prev lo, le→ltb prev (estimated input prev) (omega arith)) refl,
        (r, lo, hi, omega arith),
      )
    ]

-- `QRinput_estimateVersion` ends for every input and returns a version `v` from 1 to 40, never -1. It
-- is the minimum version for the size estimated at a version `w` from 1 to 40 that is no lower than
-- `v`; and `w` is the first such version in the row that starts with the minimum version for the
-- size estimated at version 0, less 1 unless it is 1, and goes on, while it rises, with the minimum
-- version for the size estimated at the version before.
pub estimate_version_lem :
    (input : QrInput)
    → (v : ℕ) × (estimate_version input ≡ some v)
      × (1 ≤ v)
      × (v ≤ 40)
      × ((w : ℕ) × (v ≤ w)
          × (v ≡ get_minimum_version ((estimate_bit_stream_size input w + 7) / 8) input.level)
          × (1 ≤ w)
          × (w ≤ 40)
          × Rises input w)
unfolding estimate_version estimate_loop
estimate_version_lem input =
    let (lo, hi) = start_bounds input in
    let (w, e, (r, lo', hi', stays)) =
      estimate_loop-Settles 40 input (start_version input) Rises.started lo hi (omega arith) in
    let (vlo, vhi) = estimated_bounds input w in
    (
      estimated input w,
      rw (step_start input, lt→ltb 0 (start_version input) (omega arith)) e,
      vlo,
      vhi,
      (w, stays, refl, lo', hi', r),
    )
