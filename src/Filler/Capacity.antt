-- ===== src/Filler/Capacity.antt =====
-- The frames of Micro QR Code have room for the code words of their versions, and no more.
use mathlib.Core.Option.{map}
use libqrencode.Prelude.{
  ℕ, zero, suc, ◌+◌, ◌-◌, ◌*◌, ◌≤◌, bit_and, Bool, true, ◌&&◌, List, [], ◌∷◌, Option, none, some,
  ◌≡◌, refl, sym, ap, ◌∙◌, ◌==◌, if◌then◌else◌, length, arith, Option-cases, inl, inr,
}
use libqrencode.Prelude.Tables.{all_below, all_below_sound}
use libqrencode.Api.{level_l}
use libqrencode.MqrSpec
use libqrencode.MqrSpec.Frame as MqrFrame
use libqrencode.Filler.{FrameFiller, filler_set, next, position, write}
use libqrencode.Filler.Count.{count_path}
use libqrencode.Filler.Order.{IsInside}
use libqrencode.Filler.Path.{
  fill, put_at, IsBehind, IsBehind-later, position-IsBehind, next-Moved, next-put_at,
}

-- The modules of a frame that belong to no function pattern.
unfoldable pub count_free : List ℕ → ℕ
count_free [] = 0
count_free (m ∷ ms) = let rest = count_free ms in if bit_and m 0x80 == 0 then rest + 1 else rest

-- The free modules of a Micro QR Code frame, all of which the filler comes to.
abbrev pub mqr_room : ℕ → ℕ
mqr_room version =
    MqrSpec.get_data_length_bit version level_l + 8 * MqrSpec.get_ecc_length version level_l

mqr_check : ℕ → Bool
mqr_check v =
    let n = mqr_room v in
    let frame = MqrFrame.create_frame v in
    let w = MqrSpec.get_width v in
    (count_free frame == n) && (count_path (n + 1) (filler_set w frame true) == n)

mqr_table : all_below 4 (λ v. mqr_check (v + 1)) ≡ true
unfolding all_below mqr_check count_free count_path MqrFrame.create_frame filler_set next
    MqrSpec.get_width MqrSpec.get_data_length_bit MqrSpec.get_ecc_length
mqr_table = refl

count_path-put_at :
    (n p v : ℕ) (f : FrameFiller)
    → IsInside f
    → IsBehind p f
    → count_path n (put_at p v f) ≡ count_path n f
unfolding count_path
count_path-put_at zero p v f ins b = refl
count_path-put_at (suc n) p v f ins b =
    ap count (next-put_at p v f ins b)
    ∙ counted (next f) (λ g e.
      let moved = next-Moved f g ins e in
      count_path-put_at n p v g moved.1 (IsBehind-later p f g b moved.0))
  where
    count : Option FrameFiller → ℕ
    count o = elim o [ none ↦ 0 | some g ↦ suc (count_path n g) ]

    counted :
        (o : Option FrameFiller)
        → ((g : FrameFiller) → o ≡ some g → count_path n (put_at p v g) ≡ count_path n g)
        → count (map (put_at p v) o) ≡ count o
    counted none h = refl
    counted (some g) h = ap suc (h g refl)

-- Values for which there are modules are written.
pub fill_total :
    (n : ℕ) (f : FrameFiller) (vs : List ℕ)
    → IsInside f
    → length vs ≤ count_path n f
    → (h : FrameFiller) × (fill f vs ≡ some h)
unfolding count_path fill
fill_total n f [] ins le = (f, refl)
fill_total zero f (v ∷ vs) ins le = absurd (omega arith)
fill_total (suc n) f (v ∷ vs) ins le = elim (Option-cases (next f)) [
  | inl e ↦ absurd (omega (arith, le, ap count e))
  | inr (g, e) ↦
      let (later, ins', same, w, ns) = next-Moved f g ins e in
      let there = count_path-put_at n (position g) v g ins' (position-IsBehind g ins' ns) in
      let (h, e') = fill_total n (write v g) vs ins' (omega (arith, le, there, ap count e)) in
      (h, rw (e) e')
]
  where
    count : Option FrameFiller → ℕ
    count o = elim o [ none ↦ 0 | some g ↦ suc (count_path n g) ]

read_counts : (a b c d : ℕ) → ((a == b) && (c == d)) ≡ true → (a ≡ b) × (c ≡ d)
read_counts a b c d h = ground arith

pub mqr_count :
    (version : ℕ)
    → 1 ≤ version
    → version ≤ 4
    → (count_free (MqrFrame.create_frame version) ≡ mqr_room version)
      × (count_path
            (mqr_room version + 1)
            (filler_set (MqrSpec.get_width version) (MqrFrame.create_frame version) true)
          ≡ mqr_room version)
unfolding mqr_check
mqr_count version lo hi =
    let same : version - 1 + 1 ≡ version = omega arith in
    let checked : mqr_check version ≡ true =
      ap mqr_check (sym same)
      ∙ all_below_sound 4 (λ v. mqr_check (v + 1)) (version - 1) mqr_table (omega arith) in
    read_counts _ _ _ _ checked
