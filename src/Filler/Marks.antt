-- ===== src/Filler/Marks.antt =====
-- The way of a filler computed on a number whose binary digits are the marks of a frame, which takes
-- far fewer steps than the walk over the list of modules.
use mathlib.Core.Option.{map}
use libqrencode.Prelude.{
  ℕ, zero, suc, ◌+◌, ◌*◌, ◌^◌, ◌<◌, bit_and, Bool, true, false, List, Option, none, some, ◌>>=◌,
  ◌≡◌, refl, sym, ap, ◌∙◌, length, get_or, ◌==◌, if◌then◌else◌, inl, inr, Bool-cases, Option-cases,
  arith,
}
use libqrencode.Filler.{FrameFiller, position, move, next_loop, next, fuel, is_start}
use libqrencode.Filler.Order.{IsInside, move-Moved}
use libqrencode.Filler.Path.{on_frame, move-on_frame, bind_through, position_lt, next-Moved}
use libqrencode.Filler.Count.{count_path}

abbrev pub is_free : ℕ → ℕ → Bool
is_free m p = bit_and m (2 ^ p) == 0

-- The digits of `m` are 1 at the marked modules.
unfoldable pub Shows : List ℕ → ℕ → Type 0
Shows frame m = (p : ℕ) → p < length frame → (bit_and (get_or frame p 0) 0x80 == 0) ≡ is_free m p

unfoldable pub next_marks : ℕ → ℕ → FrameFiller → Option FrameFiller
unfolding move
next_marks zero m f = none
next_marks (suc n) m f =
    move f f.bit
    >>= (λ g. elim (is_free m (position g)) [ true ↦ some g | false ↦ next_marks n m g ])

unfoldable pub first_marks : ℕ → FrameFiller → Option FrameFiller
unfolding move next_marks
first_marks m f = elim (is_start f.bit) [ true ↦ move f f.bit | false ↦ next_marks (fuel f) m f ]

unfoldable pub count_marks : ℕ → ℕ → FrameFiller → ℕ → ℕ
unfolding first_marks
count_marks zero m f acc = acc
count_marks (suc n) m f acc = elim (first_marks m f) [
  | none ↦ acc
  | some g ↦ count_marks n m g (acc + 1)
]

-- A filler that carries the frame `frame`.
abbrev pub with_frame : List ℕ → FrameFiller → FrameFiller
with_frame frame f = on_frame (λ t. frame) f

module _ (frame : List ℕ) (m : ℕ) (shown : Shows frame m) where
  look-marks :
      (n : ℕ) (g : FrameFiller)
      → IsInside g
      → length frame ≡ g.width * g.width
      → next_loop n (with_frame frame g) ≡ map (with_frame frame) (next_marks n m g)
      → (if bit_and (get_or frame (position g) 0) 0x80 == 0
          then some (with_frame frame g)
          else next_loop n (with_frame frame g))
        ≡ map
            (with_frame frame)
            (elim (is_free m (position g)) [ true ↦ some g | false ↦ next_marks n m g ])
  unfolding Shows
  look-marks n g ins len rest =
      let same = shown (position g) (omega (arith, position_lt g ins)) in
      elim (Bool-cases (is_free m (position g))) [
        | inl free ↦ rw (same, free) refl
        | inr marked ↦ rw (same, marked) rest
      ]

  next_loop-marks :
      (n : ℕ) (f : FrameFiller)
      → IsInside f
      → length frame ≡ f.width * f.width
      → next_loop n (with_frame frame f) ≡ map (with_frame frame) (next_marks n m f)
  unfolding next_loop next_marks
  next_loop-marks zero f ins len = refl
  next_loop-marks (suc n) f ins len =
      ap (λ o. o >>= look) (move-on_frame (λ t. frame) f f.bit)
      ∙ bind_through (with_frame frame) (move f f.bit) look' look (λ g e.
        let (later, ins', same, w, ns) = move-Moved f g f.bit ins refl e in
        let len' : length frame ≡ g.width * g.width = len ∙ ap (λ t. t * t) (sym w) in
        look-marks n g ins' len' (next_loop-marks n g ins' len'))
    where
      look : FrameFiller → Option FrameFiller
      look g = if bit_and (get_or g.frame (position g) 0) 0x80 == 0 then some g else next_loop n g

      look' : FrameFiller → Option FrameFiller
      look' g = elim (is_free m (position g)) [ true ↦ some g | false ↦ next_marks n m g ]

  next-marks :
      (f : FrameFiller)
      → IsInside f
      → length frame ≡ f.width * f.width
      → next (with_frame frame f) ≡ map (with_frame frame) (first_marks m f)
  unfolding next first_marks
  next-marks f ins len = elim (Bool-cases (is_start f.bit)) [
    | inl s ↦ rw (first_marks, s) (move-on_frame (λ t. frame) f f.bit)
    | inr s ↦ rw (first_marks, s) (next_loop-marks (fuel f) f ins len)
  ]

  pub count_path-marks :
      (n : ℕ) (f : FrameFiller) (acc : ℕ)
      → IsInside f
      → length frame ≡ f.width * f.width
      → count_path n (with_frame frame f) + acc ≡ count_marks n m f acc
  unfolding count_path count_marks
  count_path-marks zero f acc ins len = omega arith
  count_path-marks (suc n) f acc ins len = elim (Option-cases (first_marks m f)) [
    | inl e ↦
        let none_left : next (with_frame frame f) ≡ none =
          next-marks f ins len ∙ ap (map (with_frame frame)) e in
        omega (arith, ap count none_left, ap counted e)
    | inr (g, e) ↦
        let there : next (with_frame frame f) ≡ some (with_frame frame g) =
          next-marks f ins len ∙ ap (map (with_frame frame)) e in
        let (later, ins', same, w, ns) =
          next-Moved (with_frame frame f) (with_frame frame g) ins there in
        let rest = count_path-marks n g (acc + 1) ins' (len ∙ ap (λ t. t * t) (sym w)) in
        omega (arith, rest, ap count there, ap counted e)
  ]
    where
      count : Option FrameFiller → ℕ
      count o = elim o [ none ↦ 0 | some g ↦ suc (count_path n g) ]

      counted : Option FrameFiller → ℕ
      counted o = elim o [ none ↦ acc | some g ↦ count_marks n m g (acc + 1) ]
