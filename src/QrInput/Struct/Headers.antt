-- ===== src/QrInput/Struct/Headers.antt =====
-- The parts of an input that `QRinput_splitQRinputToStruct` returns: what they hold, and their headers.
use mathlib.Core.Option.{some-injective}
use mathlib.Core.Path.{subst}
use libqrencode.Prelude.{
  ℕ, ◌+◌, ◌-◌, ◌*◌, ◌%◌, ◌≤◌, ◌||◌, Bool, true, false, List, [], ◌∷◌, ◌++◌, append-nil, append-snoc,
  none, some, ◌≡◌, refl, sym, ap, ◌∙◌, >>=-eq-some, length, length-append, ltb, ◌==◌, if◌then◌else◌,
  inl, inr, Bool-cases, tests, arith,
}
use libqrencode.Api.{RecLevel, Mode, structure}
use libqrencode.QrSpec
use libqrencode.QrInput.Entry.{Entry, QrInput, new_entry}
use libqrencode.QrInput.Edit.{
  new2, new_mqr, is_mqr_symbol, calc_parity, parity_entries, dup, dup_entries,
  insert_structured_append_header, moved,
}
use libqrencode.QrInput.Append.{with_entries, append_entry-with_entries}
use libqrencode.QrInput.Struct.{
  InputStruct, struct_append_input, insert_headers, insert_structured_append_headers,
}
use libqrencode.QrInput.Struct.Split.{
  split_loop, start_state, rounds, split_copy, finish_struct, split_qrinput_to_struct,
}
use libqrencode.QrInput.Struct.Split.Kept.{
  content, contents, content_nil, made_entry, split_loop-Kept, struct_append_input-Grown,
}
use libqrencode.Filler.Order.{if-cases}

-- An input behind its header of structured append.
abbrev pub with_header : ℕ → ℕ → ℕ → QrInput → QrInput
with_header size number parity input = record input {
  entries =
      record { mode = structure; bytes = size % 256 ∷ number % 256 ∷ parity ∷ [] } ∷ input.entries;
  tail = moved input.tail;
}

-- Inputs numbered from `i` on.
unfoldable pub numbered : ℕ → ℕ → ℕ → List QrInput → List QrInput
numbered size i parity [] = []
numbered size i parity (input ∷ inputs) =
    with_header size i parity input ∷ numbered size (i + 1) parity inputs

insert_structured_append_header-eq-some :
    (input input' : QrInput) (size number parity : ℕ)
    → insert_structured_append_header input size number parity ≡ some input'
    → input' ≡ with_header size number parity input
unfolding insert_structured_append_header
insert_structured_append_header-eq-some input input' size number parity h =
    elim (if-cases (ltb 16 size) none _ h) [
      | inl (t, e) ↦ cc
      | inr (t, e) ↦ elim (if-cases (number == 0 || ltb size number) none _ e) [
        | inl (t', e') ↦ cc
        | inr (t', e') ↦
            let (header, made, last) =
              >>=-eq-some (new_entry structure bytes) (λ t. some (put_first t)) e' in
            sym (some-injective (put_first header) input' last)
            ∙ ap put_first (sym (made_entry structure bytes header made))
      ]
    ]
  where
    bytes : List ℕ
    bytes = size % 256 ∷ number % 256 ∷ parity ∷ []

    put_first : Entry → QrInput
    put_first t = record input { entries = t ∷ input.entries; tail = moved input.tail }

insert_headers-numbered :
    (size i parity : ℕ) (inputs inputs' : List QrInput)
    → insert_headers size i parity inputs ≡ some inputs'
    → inputs' ≡ numbered size i parity inputs
unfolding insert_headers numbered
insert_headers-numbered size i parity [] inputs' h = sym (some-injective _ inputs' h)
insert_headers-numbered size i parity (input ∷ inputs) inputs' h =
    let (first, one, h') = >>=-eq-some (insert_structured_append_header input size i parity) _ h in
    let (rest, others, h'') = >>=-eq-some (insert_headers size (i + 1) parity inputs) _ h' in
    sym (some-injective _ inputs' h'')
    ∙ ap (λ t. t ∷ rest) (insert_structured_append_header-eq-some input first size i parity one)
    ∙ ap (λ t. with_header size i parity input ∷ t)
        (insert_headers-numbered size (i + 1) parity inputs rest others)

-- A copy has the entries of the original.
dup_entries-append :
    (n : QrInput) (es : List Entry)
    → n.tail ≡ length n.entries
    → (dup_entries n es).entries ≡ n.entries ++ es
unfolding dup_entries
dup_entries-append n [] h = sym (append-nil n.entries)
dup_entries-append n (e ∷ es) h =
    ap (λ t. (dup_entries t es).entries) (append_entry-with_entries n e h)
    ∙ dup_entries-append (with_entries n (e ∷ [])) es
        (omega (arith, length-append n.entries (e ∷ [])))
    ∙ sym (append-snoc n.entries es e)

new2_empty :
    (version : ℕ) (level : RecLevel) (n : QrInput)
    → new2 version level ≡ some n
    → (n.entries ≡ []) × (n.tail ≡ 0)
unfolding new2
new2_empty version level n h = elim (if-cases (ltb 40 version) none _ h) [
  | inl (b, e) ↦ cc
  | inr (b, e) ↦
      let same = some-injective _ n e in (ap QrInput.entries (sym same), ap QrInput.tail (sym same))
]

new_mqr_empty :
    (version : ℕ) (level : RecLevel) (n : QrInput)
    → new_mqr version level ≡ some n
    → (n.entries ≡ []) × (n.tail ≡ 0)
unfolding new_mqr
new_mqr_empty version level n h = elim (if-cases (is_mqr_symbol version level) _ none h) [
  | inl (b, e) ↦
      let (m, made, last) = >>=-eq-some (new2 version level) _ e in
      let same = some-injective _ n last in
      let (empty, null) = new2_empty version level m made in
      (ap QrInput.entries (sym same) ∙ empty, ap QrInput.tail (sym same) ∙ null)
  | inr (b, e) ↦ cc
]

dup-entries : (input copy : QrInput) → dup input ≡ some copy → copy.entries ≡ input.entries
unfolding dup
dup-entries input copy h =
    let (n, made, last) =
      >>=-eq-some
        (if input.mqr then new_mqr input.version input.level else new2 input.version input.level) _
        h in
    let (empty, null) = fresh input.mqr n made in
    sym (ap QrInput.entries (some-injective _ copy last))
    ∙ dup_entries-append n input.entries (null ∙ ap length (sym empty))
    ∙ ap (λ t. t ++ input.entries) empty
  where
    fresh :
        (mqr : Bool) (n : QrInput)
        → (if mqr then new_mqr input.version input.level else new2 input.version input.level)
          ≡ some n
        → (n.entries ≡ []) × (n.tail ≡ 0)
    fresh false n h = new2_empty input.version input.level n h
    fresh true n h = new_mqr_empty input.version input.level n h

-- The headers of a structure that has a parity.
headers_of :
    (size parity : ℕ) (inputs : List QrInput) (s : InputStruct)
    → insert_structured_append_headers
        (record { size = size; parity = some parity; inputs = inputs })
      ≡ some s
    → s ≡ record {
      size = size;
      parity = some parity;
      inputs = if size == 1 then inputs else numbered size 1 parity inputs;
    }
unfolding insert_structured_append_headers
headers_of size parity inputs s h = elim (Bool-cases (size == 1)) [
  | inl one ↦ rw (one) (sym (some-injective _ s (rw (one) at h)))
  | inr more ↦
      let (inputs', made, last) =
        >>=-eq-some (insert_headers size 1 parity inputs) _ (rw (more) at h) in
      rw (more) (
        sym (some-injective _ s last)
        ∙ ap (λ t. record { size = size; parity = some parity; inputs = t })
            (insert_headers-numbered size 1 parity inputs inputs' made))
]

-- A structure of parts with the content `rest`, at most 16 of them: a single part as it is, or all
-- of them numbered.
abbrev pub IsSplit : List (Mode × ℕ) → ℕ → InputStruct → Type 0
IsSplit rest parity s =
    (parts : List QrInput) × (contents parts ≡ rest)
    × (s.size ≡ length parts)
    × (length parts ≤ 16)
    × (s.parity ≡ some parity)
    × (s.inputs ≡ (if length parts == 1 then parts else numbered (length parts) 1 parity parts))

finish_struct-IsSplit :
    (last : QrInput) (u s : InputStruct) (parity : ℕ) (rest : List (Mode × ℕ))
    → u.size ≡ length u.inputs
    → u.parity ≡ some parity
    → contents u.inputs ++ content last.entries ≡ rest
    → finish_struct (last, u) ≡ some s
    → IsSplit rest parity s
unfolding finish_struct
finish_struct-IsSplit last u s parity rest size par all h =
    let (s', added, h') = >>=-eq-some (struct_append_input u last) _ h in
    let (grown, same, sized) = struct_append_input-Grown u s' last added in
    let count : s'.size ≡ length s'.inputs = sized size in
    elim (if-cases (ltb 16 s'.size) none (insert_structured_append_headers s') h') [
      | inl (b, e) ↦ cc
      | inr (b, e) ↦
          let known : s' ≡ with_parity s' = ap (λ t. record s' { parity = t }) (same ∙ par) in
          let made =
            headers_of s'.size parity s'.inputs s
              (ap insert_structured_append_headers (sym known) ∙ e) in
          (
            s'.inputs,
            grown ∙ all,
            ap InputStruct.size made ∙ count,
            omega (tests, count),
            ap InputStruct.parity made,
            ap InputStruct.inputs made
                ∙ ap (λ t. if t == 1 then s'.inputs else numbered t 1 parity s'.inputs) count,
          )
    ]
  where
    with_parity : InputStruct → InputStruct
    with_parity t = record t { parity = some parity }

split_copy-IsSplit :
    (maxbits : ℕ) (copy : QrInput) (s : InputStruct)
    → split_copy maxbits copy ≡ some s
    → IsSplit (content copy.entries) (calc_parity copy % 256) s
unfolding split_copy
split_copy-IsSplit maxbits copy s h = elim (if-cases (maxbits == 0) none _ h) [
  | inl (b, e) ↦ cc
  | inr (b, e) ↦
      let (result, looped, h') =
        >>=-eq-some (split_loop (rounds copy.entries) maxbits (start_state copy)) finish_struct e in
      let (moved, (all, same, sized), kept) =
        split_loop-Kept _ maxbits (start_state copy) copy.entries result.0 result.1
          (unfold start_state in refl) looped in
      let (none_yet, empty, par, counted) = started in
      finish_struct-IsSplit result.0 result.1 s _ _ (sized counted) (same ∙ par)
        (ap (λ t. t ++ content result.0.entries) (all ∙ ap (λ t. t ++ moved) empty)
          ∙ kept
          ∙ ap (λ t. t ++ content copy.entries) (ap content none_yet ∙ content_nil))
        h'
]
  where
    started :
        ((start_state copy).taken ≡ [])
        × (contents (start_state copy).parts.inputs ≡ [])
        × ((start_state copy).parts.parity ≡ some (calc_parity copy % 256))
        × ((start_state copy).parts.size ≡ length (start_state copy).parts.inputs)
    started = unfold start_state contents in (refl, refl, refl, refl)

-- If `QRinput_splitQRinputToStruct` returns a structure, then there are at most 16 parts, which
-- together hold the bytes of the entries of the input, with their modes and in their order; the
-- parity of the structure is that of the input; a single part is returned as it is, and of several
-- ones each has in front the header of structured append with their number, its own number from 1
-- on and the parity.
pub split_qrinput_to_struct-IsSplit :
    (input : QrInput) (s : InputStruct)
    → split_qrinput_to_struct input ≡ some s
    → IsSplit (content input.entries) (calc_parity input % 256) s
unfolding split_qrinput_to_struct
split_qrinput_to_struct-IsSplit input s h = elim (if-cases input.mqr none _ h) [
  | inl (q, e) ↦ cc
  | inr (q, e) ↦
      let (copy, dupped, h1) = >>=-eq-some (dup input) (split_copy maxbits) e in
      let same = dup-entries input copy dupped in
      let parity : calc_parity copy ≡ calc_parity input =
        unfold calc_parity in ap (λ t. parity_entries t 0) same in
      subst (λ t. IsSplit t (calc_parity input % 256) s) (ap content same)
        (subst (λ t. IsSplit (content copy.entries) (t % 256) s) parity
          (split_copy-IsSplit maxbits copy s h1))
]
  where
    maxbits : ℕ
    maxbits = QrSpec.get_data_length input.version input.level * 8 - 20
