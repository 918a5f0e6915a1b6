-- ===== src/QrInput/Reach.antt =====
-- The inputs that a program can make by the calls of qrinput.c that create and change one.
use mathlib.Core.Option.{some-injective}
use mathlib.Core.Path.{subst, ap₂}
use mathlib.Core.Bool.{false≢true}
use libqrencode.Prelude.{
  ℕ, ◌/◌, ◌^◌, bit_and, ◌≤◌, Bool, true, false, ◌||◌, not, List, [], ◌∷◌, none, some, ◌≡◌, refl,
  sym, ap, ◌∙◌, >>=-eq-some, length, length-append, All, All-append, ltb, if◌then◌else◌, ltb→le,
  inl, inr, arith,
}
use libqrencode.Api.{Mode, eci, RecLevel}
use libqrencode.QrInput.Entry.{Entry, QrInput, check, new_entry}
use libqrencode.QrInput.Edit.{
  new2, new_mqr, is_mqr_symbol, set_version, set_error_correction_level,
  set_version_and_error_correction_level, append, append_eci_header, set_fnc1_first,
  set_fnc1_second,
}
use libqrencode.QrInput.Append.{append_entry-with_entries}
use libqrencode.Filler.Order.{if-cases}

-- A call that changes an input and succeeds.
pub data Call : QrInput → QrInput → Type 0 where
  version_set : (i j : QrInput) (version : ℕ) → set_version i version ≡ some j → Call i j
  level_set :
      (i j : QrInput) (level : RecLevel) → set_error_correction_level i level ≡ some j → Call i j
  both_set :
      (i j : QrInput) (version : ℕ) (level : RecLevel)
      → set_version_and_error_correction_level i version level ≡ some j
      → Call i j
  appended :
      (i j : QrInput) (mode : Mode) (bytes : List ℕ) → append i mode bytes ≡ some j → Call i j
  eci_appended : (i j : QrInput) (number : ℕ) → append_eci_header i number ≡ some j → Call i j
  first_set : (i j : QrInput) → set_fnc1_first i ≡ some j → Call i j
  second_set : (i j : QrInput) (appid : ℕ) → set_fnc1_second i appid ≡ some j → Call i j

-- Inputs made by a call that creates one and calls that change it.
pub data Reachable : QrInput → Type 0 where
  created :
      (i : QrInput) (version : ℕ) (level : RecLevel) → new2 version level ≡ some i → Reachable i
  mqr_created :
      (i : QrInput) (version : ℕ) (level : RecLevel) → new_mqr version level ≡ some i → Reachable i
  changed : (i j : QrInput) → Reachable i → Call i j → Reachable j

abbrev pub IsChecked : Entry → Type 0
IsChecked e = check e.mode e.bytes ≡ true

-- The version and the level are those of a symbol, `tail` points to the last entry, every entry
-- has passed the check of its mode, and only QR Code has FNC1.
abbrev pub IsValid : QrInput → Type 0
IsValid i =
    (i.mqr ≡ false → i.version ≤ 40)
    × (i.mqr ≡ true → is_mqr_symbol i.version i.level ≡ true)
    × (i.tail ≡ length i.entries)
    × All IsChecked i.entries
    × (i.fnc1 ≤ 2)
    × (i.mqr ≡ true → i.fnc1 ≡ 0)

new2-IsValid :
    (version : ℕ) (level : RecLevel) (i : QrInput) → new2 version level ≡ some i → IsValid i
unfolding new2
new2-IsValid version level i h = elim (if-cases (ltb 40 version) none _ h) [
  | inl (b, e) ↦ cc
  | inr (b, e) ↦
      let le = ltb→le 40 version b in
      subst IsValid (some-injective _ i e)
        (λ q. le, λ q. absurd (false≢true q), refl, tt, omega arith, λ q. refl)
]

entry-IsChecked :
    (mode : Mode) (bytes : List ℕ) (e : Entry) → new_entry mode bytes ≡ some e → IsChecked e
unfolding new_entry
entry-IsChecked mode bytes e made = elim (if-cases (check mode bytes) _ none made) [
  | inl (b, e') ↦ subst IsChecked (some-injective _ e e') b
  | inr (b, e') ↦ cc
]

append-IsValid :
    (i j : QrInput) (mode : Mode) (bytes : List ℕ)
    → append i mode bytes ≡ some j
    → IsValid i
    → IsValid j
unfolding append
append-IsValid i j mode bytes h (v, m, t, c, f, n) =
    let (e, made, last) = >>=-eq-some (new_entry mode bytes) _ h in
    let same = sym (append_entry-with_entries i e t) ∙ some-injective _ j last in
    subst IsValid same (
      v,
      m,
      omega (arith, length-append i.entries (e ∷ [])),
      All-append IsChecked i.entries (e ∷ []) c (checked e made, tt),
      f,
      n,
    )
  where
    checked : (e : Entry) → new_entry mode bytes ≡ some e → IsChecked e
    checked e made = entry-IsChecked mode bytes e made

or_false : (a b : Bool) → (a || b) ≡ false → (a ≡ false) × (b ≡ false)
or_false false b h = (refl, h)
or_false true b h = absurd (false≢true (sym h))

not_above : (v : ℕ) → not (ltb 40 v) ≡ true → v ≤ 40
not_above v h = ground arith

set_version-IsValid :
    (i j : QrInput) (version : ℕ) → set_version i version ≡ some j → IsValid i → IsValid j
unfolding set_version
set_version-IsValid i j version h (v, m, t, c, f, n) =
    elim (if-cases (i.mqr || ltb 40 version) none _ h) [
      | inl (b, e) ↦ cc
      | inr (b, e) ↦
          let (q, le) = or_false i.mqr (ltb 40 version) b in
          subst IsValid (some-injective _ j e)
            (λ p. ltb→le 40 version le, λ p. absurd (false≢true (sym q ∙ p)), t, c, f, n)
    ]

-- The setters of QR Code alone: the field is checked, and Micro QR Code is refused.
plain_set :
    (i j k : QrInput)
    → (if i.mqr then none else some k) ≡ some j
    → (i.mqr ≡ false → IsValid k)
    → IsValid j
plain_set i j k h valid = elim (if-cases i.mqr none (some k) h) [
  | inl (b, e) ↦ cc
  | inr (b, e) ↦ subst IsValid (some-injective k j e) (valid b)
]

both_set-IsValid :
    (i j : QrInput) (version : ℕ) (level : RecLevel)
    → set_version_and_error_correction_level i version level ≡ some j
    → IsValid i
    → IsValid j
unfolding set_version_and_error_correction_level
both_set-IsValid i j version level h (v, m, t, c, f, n) =
    elim (if-cases (if i.mqr then is_mqr_symbol version level else not (ltb 40 version)) _ none h) [
      | inr (b, e) ↦ cc
      | inl (b, e) ↦
          subst IsValid (some-injective _ j e)
            (λ p. not_above version (rw (p) at b), λ p. rw (p) at b, t, c, f, n)
    ]

eci_appended-IsValid :
    (i j : QrInput) (number : ℕ) → append_eci_header i number ≡ some j → IsValid i → IsValid j
unfolding append_eci_header
eci_appended-IsValid i j number h valid =
    elim (if-cases (ltb 999999 number) none (append i eci bytes) h) [
      | inl (b, e) ↦ cc
      | inr (b, e) ↦ append-IsValid i j eci bytes e valid
    ]
  where
    bytes : List ℕ
    bytes =
        bit_and number 0xff
        ∷ bit_and (number / 2 ^ 8) 0xff
        ∷ bit_and (number / 2 ^ 16) 0xff
        ∷ bit_and (number / 2 ^ 24) 0xff
        ∷ []

new_mqr-IsValid :
    (version : ℕ) (level : RecLevel) (i : QrInput) → new_mqr version level ≡ some i → IsValid i
unfolding new_mqr
new_mqr-IsValid version level i h = elim (if-cases (is_mqr_symbol version level) _ none h) [
  | inr (b, e) ↦ cc
  | inl (b, e) ↦
      let (m, made, last) = >>=-eq-some (new2 version level) _ e in
      let (v, q, t, c, f, n) = new2-IsValid version level m made in
      let (same_version, same_level, none_set) = new2_fields version level m made in
      subst IsValid (some-injective _ i last) (
        λ p. absurd (false≢true (sym p)),
        λ p. ap₂ is_mqr_symbol same_version same_level ∙ b,
        t,
        c,
        f,
        λ p. none_set,
      )
]
  where
    new2_fields :
        (version : ℕ) (level : RecLevel) (m : QrInput)
        → new2 version level ≡ some m
        → (m.version ≡ version) × (m.level ≡ level) × (m.fnc1 ≡ 0)
    new2_fields version level m made =
        unfold new2 in
        elim (if-cases (ltb 40 version) none _ made) [
          | inl (b, e) ↦ cc
          | inr (b, e) ↦
              let same = some-injective _ m e in
              (
                ap QrInput.version (sym same),
                ap QrInput.level (sym same),
                ap QrInput.fnc1 (sym same),
              )
        ]

Call-IsValid : {i j : QrInput} → Call i j → IsValid i → IsValid j
Call-IsValid (Call.version_set i j version h) valid = set_version-IsValid i j version h valid
Call-IsValid (Call.level_set i j level h) (v, m, t, c, f, n) =
    plain_set i j (record i { level = level }) (unfold set_error_correction_level in h)
      (λ q. (v, λ p. absurd (false≢true (sym q ∙ p)), t, c, f, n))
Call-IsValid (Call.both_set i j version level h) valid = both_set-IsValid i j version level h valid
Call-IsValid (Call.appended i j mode bytes h) valid = append-IsValid i j mode bytes h valid
Call-IsValid (Call.eci_appended i j number h) valid = eci_appended-IsValid i j number h valid
Call-IsValid (Call.first_set i j h) (v, m, t, c, f, n) =
    plain_set i j (record i { fnc1 = 1 }) (unfold set_fnc1_first in h)
      (λ q. (v, m, t, c, omega arith, λ p. absurd (false≢true (sym q ∙ p))))
Call-IsValid (Call.second_set i j appid h) (v, m, t, c, f, n) =
    plain_set i j (record i { fnc1 = 2; appid = appid }) (unfold set_fnc1_second in h)
      (λ q. (v, m, t, c, omega arith, λ p. absurd (false≢true (sym q ∙ p))))

-- Every input that a program can make by the calls that create one, set its version, its level or
-- FNC1 and append data or an ECI header, in any order and number, has a version up to 40 or, for
-- Micro QR Code, a version and a level that go together; its `tail` is its last entry; every entry
-- has passed the check of its mode; and FNC1 is set in QR Code alone.
pub Reachable-IsValid : {i : QrInput} → Reachable i → IsValid i
Reachable-IsValid (Reachable.created i version level h) = new2-IsValid version level i h
Reachable-IsValid (Reachable.mqr_created i version level h) = new_mqr-IsValid version level i h
Reachable-IsValid (Reachable.changed i j r c) = Call-IsValid c (Reachable-IsValid r)
