-- ===== src/QrInput/Append.antt =====
-- Entries appended behind the last entry of an input.
use libqrencode.Prelude.{
  ℕ, ◌+◌, List, [], ◌∷◌, ◌++◌, ◌≡◌, refl, ap, length, take, ◌==◌, suc-eq-zero, if◌then◌else◌,
}
use libqrencode.QrInput.Entry.{Entry, QrInput}
use libqrencode.QrInput.Edit.{append_entry}

abbrev pub with_entries : QrInput → List Entry → QrInput
with_entries input es = record input {
  entries = input.entries ++ es;
  tail = input.tail + length es;
}

take_whole : (xs : List Entry) → take (length xs) xs ≡ xs
take_whole [] = refl
take_whole (x ∷ xs) = ap (λ t. x ∷ t) (take_whole xs)

-- Behind a tail that is the last entry, the entry is appended to all.
pub append_entry-with_entries :
    (input : QrInput) (e : Entry)
    → input.tail ≡ length input.entries
    → append_entry input e ≡ with_entries input (e ∷ [])
unfolding append_entry
append_entry-with_entries input e h = linked input.entries input.tail h
  where
    at_place : List Entry → ℕ → QrInput
    at_place es t = record input { entries = es; tail = t }

    linked :
        (es : List Entry) (t : ℕ)
        → t ≡ length es
        → (if t == 0 then at_place (e ∷ []) 1 else at_place (take t es ++ (e ∷ [])) (t + 1))
          ≡ at_place (es ++ (e ∷ [])) (t + 1)
    linked [] t h = rw h refl
    linked (x ∷ xs) t h = rw (h, suc-eq-zero (length xs), take_whole xs) refl
