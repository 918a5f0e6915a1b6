-- ===== src/Filler/Path.antt =====
-- What a filler writes is what the walk over the frame finds.
use native.Mathlib.Nat.{mul-le-mul, le_refl}
use mathlib.Core.Path.{subst}
use mathlib.Core.Option.{some-injective, map}
use libqrencode.Prelude.{
  ℕ, zero, suc, ◌+◌, ◌-◌, ◌*◌, ◌≤◌, ◌<◌, bit_and, Bool, true, false, not, ◌&&◌, List, [], ◌∷◌,
  Option, none, some, ◌≡◌, ◌≢◌, refl, sym, ap, ◌∙◌, ◌>>=◌, >>=-eq-some, ◌==◌, if◌then◌else◌, length,
  get_or, set, get_or-set_ne, length-set, get_or-set_self, Bool-cases, inl, inr, arith,
}
use libqrencode.Filler.{
  Direction, upward, downward, Side, start, right, left, FrameFiller, position, turn, next_row,
  move, next_loop, next, write, fuel, is_start,
}
use libqrencode.Filler.Order.{
  IsInside, IsLater, IsLater-trans, Moved, move-Moved, if-cases, IsLater-position,
}

pub next_loop-Moved : (n : ℕ) (f g : FrameFiller) → IsInside f → next_loop n f ≡ some g → Moved f g
unfolding next_loop
next_loop-Moved zero f g ins h = cc
next_loop-Moved (suc n) f g ins h =
    let (f', m, e) = >>=-eq-some (move f f.bit) _ h in
    let (later, ins', same, w, ns) = move-Moved f f' f.bit ins refl m in
    elim (if-cases (bit_and (get_or f'.frame (position f') 0) 0x80 == 0) (some f') (next_loop n f')
      e) [
        | inl (free, e') ↦
            subst (λ t. Moved f t) (some-injective f' g e') (later, ins', same, w, ns)
        | inr (marked, e') ↦
            let (later', ins'', same', w', ns') = next_loop-Moved n f' g ins' e' in
            (IsLater-trans f f' g later later', ins'', same' ∙ same, w' ∙ w, ns')
      ]

pub next-Moved : (f g : FrameFiller) → IsInside f → next f ≡ some g → Moved f g
unfolding next
next-Moved f g ins h = elim (Bool-cases (is_start f.bit)) [
  | inl s ↦ move-Moved f g f.bit ins refl (first s)
  | inr s ↦ next_loop-Moved (fuel f) f g ins (others s)
]
  where
    first : is_start f.bit ≡ true → move f f.bit ≡ some g
    first s = let e : next f ≡ move f f.bit = unfold next in rw (s) refl in sym e ∙ h

    others : is_start f.bit ≡ false → next_loop (fuel f) f ≡ some g
    others s = let e : next f ≡ next_loop (fuel f) f = unfold next in rw (s) refl in sym e ∙ h

-- The filler with a change of its frame.
abbrev pub on_frame : (List ℕ → List ℕ) → FrameFiller → FrameFiller
on_frame h f = record f { frame = h f.frame }

turn-on_frame :
    (h : List ℕ → List ℕ) (f : FrameFiller) (d : Direction) (y : ℕ) (o : Option ℕ)
    → turn (on_frame h f) d y o ≡ map (on_frame h) (turn f d y o)
unfolding turn
turn-on_frame h f d y o = elim (Bool-cases (f.x == 0)) [
  | inl z ↦ rw (z) refl
  | inr z ↦ elim (Bool-cases (not f.mqr && f.x - 1 == 6)) [
    | inl b ↦ rw (z, b) (skip o)
    | inr b ↦ rw (z, b) refl
  ]
]
  where
    skip :
        (o : Option ℕ)
        → (o >>= (λ row.
            some (record (on_frame h f) { x = f.x - 2; y = row; dir = d; bit = right })))
          ≡ map
              (on_frame h)
              (o >>= (λ row. some (record f { x = f.x - 2; y = row; dir = d; bit = right })))
    skip none = refl
    skip (some row) = refl

next_row-on_frame :
    (h : List ℕ → List ℕ) (f : FrameFiller) (d : Direction)
    → next_row (on_frame h f) d ≡ map (on_frame h) (next_row f d)
unfolding next_row
next_row-on_frame h f upward = elim (Bool-cases (f.y == 0)) [
  | inl z ↦ rw (z) (turn-on_frame h f downward 0 (some 9))
  | inr z ↦ rw (z) refl
]
next_row-on_frame h f downward = elim (Bool-cases (f.y + 1 == f.width)) [
  | inl z ↦ rw (z) (turn-on_frame h f upward _ _)
  | inr z ↦ rw (z) refl
]

-- A move does not look at the frame.
pub move-on_frame :
    (h : List ℕ → List ℕ) (f : FrameFiller) (b : Side)
    → move (on_frame h f) b ≡ map (on_frame h) (move f b)
unfolding move
move-on_frame h f start = refl
move-on_frame h f right = elim (Bool-cases (f.x == 0)) [ inl z ↦ rw (z) refl | inr z ↦ rw (z) refl ]
move-on_frame h f left = next_row-on_frame h f f.dir

-- The filler with another module at the position `p`.
abbrev pub put_at : ℕ → ℕ → FrameFiller → FrameFiller
put_at p v f = on_frame (λ t. set t p v) f

-- The position `p` is not ahead of the filler.
unfoldable pub IsBehind : ℕ → FrameFiller → Type 0
IsBehind p f = (h : FrameFiller) → IsInside h → IsLater f h → position h ≢ p

pub IsBehind-later : (p : ℕ) (f g : FrameFiller) → IsBehind p f → IsLater f g → IsBehind p g
unfolding IsBehind
IsBehind-later p f g b l h ins l' = b h ins (IsLater-trans f g h l l')

behind_ne : (p : ℕ) (f g : FrameFiller) → IsBehind p f → IsInside g → IsLater f g → position g ≢ p
unfolding IsBehind
behind_ne p f g b ins l = b g ins l

-- Where the filler stands is behind it.
pub position-IsBehind :
    (f : FrameFiller) → IsInside f → is_start f.bit ≡ false → IsBehind (position f) f
unfolding IsBehind
position-IsBehind f ins ns h ins' l = IsLater-position f h ins ins' ns l

pub bind_through :
    (h : FrameFiller → FrameFiller) (o : Option FrameFiller)
    (k k' : FrameFiller → Option FrameFiller)
    → ((g : FrameFiller) → o ≡ some g → k' (h g) ≡ map h (k g))
    → (map h o >>= k') ≡ map h (o >>= k)
bind_through h none k k' e = refl
bind_through h (some g) k k' e = e g refl

if-map {ℓ κ} :
    {A : Type ℓ} {B : Type κ} (h : A → B) (b : Bool) (x y : Option A)
    → map h (if b then x else y) ≡ (if b then map h x else map h y)
if-map h true x y = refl
if-map h false x y = refl

-- A module behind the filler does not matter to it.
next_loop-put_at :
    (n p v : ℕ) (f : FrameFiller)
    → IsInside f
    → IsBehind p f
    → next_loop n (put_at p v f) ≡ map (put_at p v) (next_loop n f)
unfolding next_loop
next_loop-put_at zero p v f ins b = refl
next_loop-put_at (suc n) p v f ins b =
    ap (λ o. o >>= look) (move-on_frame (λ t. set t p v) f f.bit)
    ∙ bind_through (put_at p v) (move f f.bit) look look (λ g m.
      let moved = move-Moved f g f.bit ins refl m in
      let behind = IsBehind-later p f g b moved.0 in
      let same : get_or (set g.frame p v) (position g) 0 ≡ get_or g.frame (position g) 0 =
        get_or-set_ne g.frame p (position g) v 0 (λ e. behind_ne p f g b moved.1 moved.0 (sym e)) in
      rw (same, next_loop-put_at n p v g moved.1 behind) (sym (if-map (put_at p v) _ _ _)))
  where
    look : FrameFiller → Option FrameFiller
    look g = if bit_and (get_or g.frame (position g) 0) 0x80 == 0 then some g else next_loop n g

pub next-put_at :
    (p v : ℕ) (f : FrameFiller)
    → IsInside f
    → IsBehind p f
    → next (put_at p v f) ≡ map (put_at p v) (next f)
unfolding next
next-put_at p v f ins b =
    rw (move-on_frame (λ t. set t p v) f f.bit, next_loop-put_at (fuel f) p v f ins b)
      (sym (if-map (put_at p v) (is_start f.bit) _ _))

-- One call of `FrameFiller_next` and one write for each value.
unfoldable pub fill : FrameFiller → List ℕ → Option FrameFiller
fill f [] = some f
fill f (v ∷ vs) = next f >>= (λ g. fill (write v g) vs)

-- What `final` holds in the `n` modules that the filler comes to next.
unfoldable pub read_path : List ℕ → ℕ → FrameFiller → Option (List ℕ)
read_path final zero f = some []
read_path final (suc n) f =
    next f >>= (λ g. map (λ vs. get_or final (position g) 0 ∷ vs) (read_path final n g))

bind-map {ℓ κ} :
    {A : Type ℓ} {B : Type κ} (h : A → A) (o : Option A) (k k' : A → Option B)
    → ((a : A) → o ≡ some a → k' (h a) ≡ k a)
    → (map h o >>= k') ≡ (o >>= k)
bind-map h none k k' e = refl
bind-map h (some a) k k' e = e a refl

read_path-put_at :
    (final : List ℕ) (n p v : ℕ) (f : FrameFiller)
    → IsInside f
    → IsBehind p f
    → read_path final n (put_at p v f) ≡ read_path final n f
unfolding read_path
read_path-put_at final zero p v f ins b = refl
read_path-put_at final (suc n) p v f ins b =
    ap (λ o. o >>= look) (next-put_at p v f ins b)
    ∙ bind-map (put_at p v) (next f) look look (λ g e.
      let moved = next-Moved f g ins e in
      ap (map (λ vs. get_or final (position g) 0 ∷ vs))
        (read_path-put_at final n p v g moved.1 (IsBehind-later p f g b moved.0)))
  where
    look : FrameFiller → Option (List ℕ)
    look g = map (λ vs. get_or final (position g) 0 ∷ vs) (read_path final n g)

IsBehind-write : (p v : ℕ) (g : FrameFiller) → IsBehind p g → IsBehind p (write v g)
unfolding IsBehind IsLater
IsBehind-write p v g b = b

-- A module behind the filler keeps what it holds.
fill_behind :
    (f h : FrameFiller) (vs : List ℕ) (p : ℕ)
    → IsInside f
    → IsBehind p f
    → fill f vs ≡ some h
    → get_or h.frame p 0 ≡ get_or f.frame p 0
unfolding fill
fill_behind f h [] p ins b e = ap (λ t. get_or t.frame p 0) (sym (some-injective f h e))
fill_behind f h (v ∷ vs) p ins b e =
    let (g, n, e') = >>=-eq-some (next f) _ e in
    let moved = next-Moved f g ins n in
    let behind = IsBehind-later p f g b moved.0 in
    fill_behind (write v g) h vs p moved.1 (IsBehind-write p v g behind) e'
    ∙ get_or-set_ne g.frame (position g) p v 0 (behind_ne p f g b moved.1 moved.0)
    ∙ ap (λ t. get_or t p 0) moved.2

pub position_lt : (f : FrameFiller) → IsInside f → position f < f.width * f.width
position_lt f ins =
    let row : f.y + 1 ≤ f.width = omega arith in
    let area : (f.y + 1) * f.width ≤ f.width * f.width = mul-le-mul row (le_refl f.width) in
    omega arith

-- For a filler inside its frame of width * width modules: if it can write the values `vs`, one after
-- the other, each to the next module, then the walk over the frame as it was before finds in the
-- frame written to exactly `vs`, in their order. No write disturbs the walk or an earlier write.
pub read_path-fill :
    (f h : FrameFiller) (vs : List ℕ)
    → IsInside f
    → length f.frame ≡ f.width * f.width
    → fill f vs ≡ some h
    → read_path h.frame (length vs) f ≡ some vs
unfolding fill read_path
read_path-fill f h [] ins len e = refl
read_path-fill f h (v ∷ vs) ins len e =
    let (g, n, e') = >>=-eq-some (next f) _ e in
    let (later, ins', same, w, ns) = next-Moved f g ins n in
    let behind = position-IsBehind g ins' ns in
    let len' : length g.frame ≡ g.width * g.width =
      ap length same ∙ len ∙ ap (λ t. t * t) (sym w) in
    let kept : get_or h.frame (position g) 0 ≡ v =
      fill_behind (write v g) h vs (position g) ins' (IsBehind-write (position g) v g behind) e'
      ∙ get_or-set_self g.frame (position g) v 0 (omega (arith, position_lt g ins')) in
    let rest : read_path h.frame (length vs) g ≡ some vs =
      sym (read_path-put_at h.frame (length vs) (position g) v g ins' behind)
      ∙ read_path-fill (write v g) h vs ins' (length-set g.frame (position g) v ∙ len') e' in
    rw (n, rest, kept) refl
