-- ===== src/Filler/Order.antt =====
-- The order in which a filler visits modules: every move leads to a later position, so that no
-- module is visited twice and a filler comes to its end.
use mathlib.Core.Path.{subst}
use mathlib.Core.Option.{some-injective}
use libqrencode.Prelude.{
  Bool, ℕ, ◌+◌, ◌-◌, ◌*◌, ◌/◌, ◌%◌, ◌≤◌, ◌<◌, true, false, not, ◌&&◌, Option, none, some, ◌≡◌, ◌≢◌,
  refl, sym, ap, ◌∙◌, ◌⊎◌, inl, inr, >>=-eq-some, ltb, ◌==◌, if◌then◌else◌, arith,
}
use libqrencode.Mask.Modules.{position-div, position-mod}
use libqrencode.Filler.{
  Direction, upward, downward, Side, start, right, left, FrameFiller, position, turn, next_row,
  move, is_start,
}

-- The modules to the right of `x` in a pair of columns, and those to the left.
abbrev pub lead : Side → ℕ
lead left = 1
lead _ = 0

abbrev pub ahead : Side → ℕ
ahead left = 0
ahead right = 1
ahead start = 2

-- The rows in front of the row `y`.
abbrev pub rows : Direction → ℕ → ℕ → ℕ
rows upward w y = y
rows downward w y = w - 1 - y

-- The right column of the pair, and the modules in front in the pair.
abbrev pub base : FrameFiller → ℕ
base f = f.x + lead f.bit

abbrev pub in_pair : FrameFiller → ℕ
in_pair f = 2 * rows f.dir f.width f.y + ahead f.bit

abbrev pub IsInside : FrameFiller → Type 0
IsInside f = (10 ≤ f.width) × (f.y < f.width) × (base f < f.width)

-- `g` stands behind `f` on the way.
unfoldable pub IsLater : FrameFiller → FrameFiller → Type 0
IsLater f g =
    (g.width ≡ f.width)
    × ((base g + 2 ≤ base f) ⊎ ((base g ≡ base f) × (g.dir ≡ f.dir) × (in_pair g < in_pair f)))

pub IsLater-trans : (f g h : FrameFiller) → IsLater f g → IsLater g h → IsLater f h
unfolding IsLater
IsLater-trans f g h (w, inl a) (w', inl b) = (w' ∙ w, inl (omega arith))
IsLater-trans f g h (w, inl a) (w', inr (b, d, c)) = (w' ∙ w, inl (omega arith))
IsLater-trans f g h (w, inr (a, d, c)) (w', inl b) = (w' ∙ w, inl (omega arith))
IsLater-trans f g h (w, inr (a, d, c)) (w', inr (b, e, k)) =
    (w' ∙ w, inr (b ∙ a, e ∙ d, omega arith))

-- What a move yields.
abbrev pub Moved : FrameFiller → FrameFiller → Type 0
Moved f g =
    IsLater f g × IsInside g × (g.frame ≡ f.frame) × (g.width ≡ f.width) × (is_start g.bit ≡ false)

pub ne_zero : (x : ℕ) → (x == 0) ≡ false → 1 ≤ x
ne_zero x h = ground arith

ne_edge : (y w : ℕ) → (y + 1 == w) ≡ false → y + 1 ≢ w
ne_edge y w h e = ground arith

row_of : {n m : ℕ} → some n ≡ some m → n ≡ m
row_of h = cc

-- A conditional that gives a value, by the branch that gave it.
pub if-cases {ℓ} :
    {A : Type ℓ} (b : Bool) (x y : Option A) {a : A}
    → (if b then x else y) ≡ some a
    → ((b ≡ true) × (x ≡ some a)) ⊎ ((b ≡ false) × (y ≡ some a))
if-cases true x y h = inl (refl, h)
if-cases false x y h = inr (refl, h)

next_pair :
    (f : FrameFiller) (x y : ℕ) (dir : Direction)
    → x + 2 ≤ base f
    → IsInside f
    → y < f.width
    → Moved f (record f { x = x; y = y; dir = dir; bit = right })
unfolding IsLater
next_pair f x y dir h ins lt =
    ((refl, inl (omega arith)), (ins.0, lt, omega arith), refl, refl, refl)

in_same_pair :
    (f : FrameFiller) (x y : ℕ) (b : Side)
    → is_start b ≡ false
    → x + lead b ≡ base f
    → 2 * rows f.dir f.width y + ahead b < in_pair f
    → IsInside f
    → y < f.width
    → Moved f (record f { x = x; y = y; bit = b })
unfolding IsLater
in_same_pair f x y b ns e h ins lt =
    ((refl, inr (e, refl, h)), (ins.0, lt, omega arith), refl, refl, ns)

Moved-to : (f u g : FrameFiller) → some u ≡ some g → Moved f u → Moved f g
Moved-to f u g e m = subst (λ t. Moved f t) (some-injective u g e) m

turn-Moved :
    (f g : FrameFiller) (dir : Direction) (y : ℕ) (skip_y : Option ℕ)
    → IsInside f
    → f.bit ≡ left
    → y < f.width
    → ((row : ℕ) → skip_y ≡ some row → row < f.width)
    → turn f dir y skip_y ≡ some g
    → Moved f g
unfolding turn
turn-Moved f g dir y skip_y ins lft lt ok h =
    let l : lead f.bit ≡ 1 = ap lead lft in
    elim (if-cases (f.x == 0) _ _ h) [
      | inl (z, e) ↦ cc
      | inr (z, e) ↦ elim (if-cases (not f.mqr && f.x - 1 == 6) _ _ e) [
        | inl (b, e') ↦
            let (row, r, s) = >>=-eq-some skip_y _ e' in
            let six : f.x ≡ 7 = at_six (not f.mqr) f.x b in
            Moved-to f _ g s (next_pair f (f.x - 2) row dir (omega arith) ins (ok row r))
        | inr (b, e') ↦
            let nz = ne_zero f.x z in
            Moved-to f _ g e' (next_pair f (f.x - 1) y dir (omega arith) ins lt)
      ]
    ]
  where
    at_six : (b : Bool) (x : ℕ) → (b && x - 1 == 6) ≡ true → x ≡ 7
    at_six b x h = ground arith

up-Moved :
    (f g : FrameFiller)
    → IsInside f
    → f.bit ≡ left
    → f.dir ≡ upward
    → next_row f upward ≡ some g
    → Moved f g
unfolding next_row
up-Moved f g ins b d h = elim (if-cases (f.y == 0) _ _ h) [
  | inl (z, e) ↦
      turn-Moved f g downward 0 (some 9) ins b (omega arith) (λ row r. omega (arith, row_of r)) e
  | inr (z, e) ↦
      let l : lead f.bit ≡ 1 = ap lead b in
      let a : ahead f.bit ≡ 0 = ap ahead b in
      let r : rows f.dir f.width f.y ≡ f.y = ap (λ t. rows t f.width f.y) d in
      let r' : rows f.dir f.width (f.y - 1) ≡ f.y - 1 = ap (λ t. rows t f.width (f.y - 1)) d in
      let nz = ne_zero f.y z in
      Moved-to f _ g e (
        in_same_pair f (f.x + 1) (f.y - 1) right refl (omega arith) (omega arith) ins (omega arith))
]

skip_up : (w row : ℕ) → 10 ≤ w → (if ltb w 9 then none else some (w - 9)) ≡ some row → row < w
skip_up w row h e = elim (if-cases (ltb w 9) _ _ e) [
  | inl (z, e') ↦ cc
  | inr (z, e') ↦ omega (arith, row_of e')
]

down-Moved :
    (f g : FrameFiller)
    → IsInside f
    → f.bit ≡ left
    → f.dir ≡ downward
    → next_row f downward ≡ some g
    → Moved f g
unfolding next_row
down-Moved f g ins b d h = elim (if-cases (f.y + 1 == f.width) _ _ h) [
  | inl (z, e) ↦
      turn-Moved f g upward (f.width - 1) _ ins b (omega arith)
        (λ row r. skip_up f.width row ins.0 r) e
  | inr (z, e) ↦
      let l : lead f.bit ≡ 1 = ap lead b in
      let a : ahead f.bit ≡ 0 = ap ahead b in
      let r : rows f.dir f.width f.y ≡ f.width - 1 - f.y = ap (λ t. rows t f.width f.y) d in
      let r' : rows f.dir f.width (f.y + 1) ≡ f.width - 1 - (f.y + 1) =
        ap (λ t. rows t f.width (f.y + 1)) d in
      let ne = ne_edge f.y f.width z in
      Moved-to f _ g e (
        in_same_pair f (f.x + 1) (f.y + 1) right refl (omega arith) (omega arith) ins (omega arith))
]

left-Moved :
    (f g : FrameFiller) (d : Direction)
    → IsInside f
    → f.bit ≡ left
    → f.dir ≡ d
    → next_row f d ≡ some g
    → Moved f g
left-Moved f g upward ins b d h = up-Moved f g ins b d h
left-Moved f g downward ins b d h = down-Moved f g ins b d h

-- A move leads to a later position.
pub move-Moved :
    (f g : FrameFiller) (b : Side) → IsInside f → f.bit ≡ b → move f b ≡ some g → Moved f g
unfolding move
move-Moved f g start ins e h =
    let l : lead f.bit ≡ 0 = ap lead e in
    let a : ahead f.bit ≡ 2 = ap ahead e in
    Moved-to f _ g h
      (in_same_pair f f.x f.y right refl (omega arith) (omega arith) ins (omega arith))
move-Moved f g right ins e h = elim (if-cases (f.x == 0) _ _ h) [
  | inl (z, e') ↦ cc
  | inr (z, e') ↦
      let l : lead f.bit ≡ 0 = ap lead e in
      let a : ahead f.bit ≡ 1 = ap ahead e in
      let nz = ne_zero f.x z in
      Moved-to f _ g e'
        (in_same_pair f (f.x - 1) f.y left refl (omega arith) (omega arith) ins (omega arith))
]
move-Moved f g left ins e h = left-Moved f g f.dir ins e refl h

lead_le : (b : Side) → lead b ≤ 1
lead_le start = omega arith
lead_le right = omega arith
lead_le left = omega arith

start_only : (b c : Side) → lead c ≡ lead b → ahead c < ahead b → is_start b ≡ true
start_only start c e h = refl
start_only right start e h = absurd (omega arith)
start_only right right e h = absurd (omega arith)
start_only right left e h = absurd (omega arith)
start_only left c e h = absurd (omega arith)

-- Two fillers on the way stand on different modules, the first call of `FrameFiller_next`, which
-- does not move, aside.
pub IsLater-position :
    (f g : FrameFiller)
    → IsInside f
    → IsInside g
    → is_start f.bit ≡ false
    → IsLater f g
    → position g ≢ position f
unfolding IsLater
IsLater-position f g ins ins' ns (w, o) e = apart o
  where
    width_same : position f ≡ f.y * g.width + f.x
    width_same = ap (λ t. f.y * t + f.x) (sym w)

    same_row : g.y ≡ f.y
    same_row =
        sym (position-div g.y g.width g.x (omega arith))
        ∙ ap (λ t. t / g.width) (e ∙ width_same)
        ∙ position-div f.y g.width f.x (omega arith)

    same_column : g.x ≡ f.x
    same_column =
        sym (position-mod g.y g.width g.x (omega arith))
        ∙ ap (λ t. t % g.width) (e ∙ width_same)
        ∙ position-mod f.y g.width f.x (omega arith)

    apart :
        (base g + 2 ≤ base f) ⊎ ((base g ≡ base f) × (g.dir ≡ f.dir) × (in_pair g < in_pair f)) → ⊥
    apart (inl h) = omega (arith, same_column, lead_le f.bit)
    apart (inr (b, d, h)) =
        let r : rows g.dir g.width g.y ≡ rows f.dir f.width f.y = rw (d, w, same_row) refl in
        let l : lead g.bit ≡ lead f.bit = omega (arith, same_column) in
        let s : is_start f.bit ≡ true = start_only f.bit g.bit l (omega arith) in cc
