-- ===== src/QrInput/Struct/Split/Kept.antt =====
-- The splitting of an input keeps its bytes, their modes and their order.
use mathlib.Core.Option.{some-injective}
use mathlib.Core.Path.{subst}
use libqrencode.Prelude.{
  ℕ, zero, suc, ◌+◌, ◌-◌, List, [], ◌∷◌, ◌++◌, append-nil, append_assoc, append-snoc, Option, none,
  some, ◌≡◌, refl, sym, ap, ◌∙◌, >>=-eq-some, length, length-append, take, drop, take-append-drop,
  ltb, leb, inl, inr, arith,
}
use libqrencode.Api.{Mode}
use libqrencode.BitStream.{BitStream}
use libqrencode.BitStream
use libqrencode.QrInput.Entry.{Entry, QrInput, check, new_entry}
use libqrencode.QrInput.Encode.{encode_bit_stream}
use libqrencode.QrInput.Estimate.{estimate_bit_stream_size_of_entry, length_of_code}
use libqrencode.QrInput.Struct.{InputStruct, struct_append_input, split_entry}
use libqrencode.QrInput.Struct.Split.{
  SplitState, start_next, split_round, closed_input, next_input, split_loop,
}
use libqrencode.Filler.Order.{if-cases}

-- The bytes of an entry with its mode.
unfoldable pub tagged : Mode → List ℕ → List (Mode × ℕ)
tagged mode [] = []
tagged mode (c ∷ cs) = (mode, c) ∷ tagged mode cs

unfoldable pub content : List Entry → List (Mode × ℕ)
unfolding tagged
content [] = []
content (e ∷ es) = tagged e.mode e.bytes ++ content es

unfoldable pub contents : List QrInput → List (Mode × ℕ)
unfolding content
contents [] = []
contents (input ∷ inputs) = content input.entries ++ contents inputs

tagged-append :
    (mode : Mode) (xs ys : List ℕ) → tagged mode (xs ++ ys) ≡ tagged mode xs ++ tagged mode ys
unfolding tagged
tagged-append mode [] ys = refl
tagged-append mode (x ∷ xs) ys = ap (λ t. (mode, x) ∷ t) (tagged-append mode xs ys)

content-append : (xs ys : List Entry) → content (xs ++ ys) ≡ content xs ++ content ys
unfolding content
content-append [] ys = refl
content-append (x ∷ xs) ys =
    ap (λ t. tagged x.mode x.bytes ++ t) (content-append xs ys)
    ∙ sym (append_assoc (tagged x.mode x.bytes) (content xs) (content ys))

pub contents-append : (xs ys : List QrInput) → contents (xs ++ ys) ≡ contents xs ++ contents ys
unfolding contents
contents-append [] ys = refl
contents-append (x ∷ xs) ys =
    ap (λ t. content x.entries ++ t) (contents-append xs ys)
    ∙ sym (append_assoc (content x.entries) (contents xs) (contents ys))

pub made_entry :
    (mode : Mode) (bytes : List ℕ) (e : Entry)
    → new_entry mode bytes ≡ some e
    → record { mode = mode; bytes = bytes } ≡ e
unfolding new_entry
made_entry mode bytes e h = elim (if-cases (check mode bytes) _ none h) [
  | inl (b, e') ↦ some-injective _ e e'
  | inr (b, e') ↦ cc
]

-- The two parts of an entry hold its bytes.
split_entry-content :
    (e : Entry) (bytes : ℕ) (halves : Entry × Entry)
    → split_entry e bytes ≡ some halves
    → tagged halves.0.mode halves.0.bytes ++ tagged halves.1.mode halves.1.bytes
      ≡ tagged e.mode e.bytes
unfolding split_entry
split_entry-content e bytes halves h =
    let (second, made, h') = >>=-eq-some (new_entry e.mode (drop bytes e.bytes)) _ h in
    let parts = some-injective _ halves h' in
    let same = made_entry e.mode (drop bytes e.bytes) second made in
    ap (λ (t : Entry × Entry). tagged t.0.mode t.0.bytes ++ tagged t.1.mode t.1.bytes) (sym parts)
    ∙ ap (λ (t : Entry). tagged e.mode (take bytes e.bytes) ++ tagged t.mode t.bytes) (sym same)
    ∙ sym (tagged-append e.mode (take bytes e.bytes) (drop bytes e.bytes))
    ∙ ap (tagged e.mode) (take-append-drop bytes e.bytes)

-- What a round leaves: `s` has become `s'` by inputs that hold `moved`.
abbrev pub Grown : InputStruct → InputStruct → List (Mode × ℕ) → Type 0
Grown s s' moved =
    (contents s'.inputs ≡ contents s.inputs ++ moved)
    × (s'.parity ≡ s.parity)
    × (s.size ≡ length s.inputs → s'.size ≡ length s'.inputs)

pub struct_append_input-Grown :
    (s s' : InputStruct) (input : QrInput)
    → struct_append_input s input ≡ some s'
    → Grown s s' (content input.entries)
unfolding struct_append_input contents
struct_append_input-Grown s s' input h = elim (if-cases input.mqr _ _ h) [
  | inl (b, e) ↦ cc
  | inr (b, e) ↦
      subst (λ t. Grown s t (content input.entries)) (some-injective _ s' e)
        (
          contents-append s.inputs (input ∷ [])
              ∙ ap (λ t. contents s.inputs ++ t) (append-nil (content input.entries)),
          refl,
          λ l. omega (arith, length-append s.inputs (input ∷ [])),
        )
]

pub Grown-trans :
    (s t u : InputStruct) (a b : List (Mode × ℕ)) → Grown s t a → Grown t u b → Grown s u (a ++ b)
Grown-trans s t u a b (c, p, l) (c', p', l') =
    (c' ∙ ap (λ x. x ++ b) c ∙ append_assoc (contents s.inputs) a b, p' ∙ p, λ z. l' (l z))

-- What the loop leaves: with the last input, `u` has grown from `s` by `rest`.
abbrev pub Kept : InputStruct → InputStruct → QrInput → List (Mode × ℕ) → Type 0
Kept s u last rest =
    (moved : List (Mode × ℕ)) × Grown s u moved × (moved ++ content last.entries ≡ rest)

Kept-as :
    (s u : InputStruct) (last : QrInput) (rest rest' : List (Mode × ℕ))
    → rest ≡ rest'
    → Kept s u last rest
    → Kept s u last rest'
Kept-as s u last rest rest' e (moved, g, k) = (moved, g, k ∙ e)

-- A round that closes the current input and starts the next one.
closing :
    (s s' u : InputStruct) (input last : QrInput) (done : List Entry) (rest : List (Mode × ℕ))
    → struct_append_input s (closed_input input done) ≡ some s'
    → Kept s' u last rest
    → Kept s u last (content done ++ rest)
closing s s' u input last done rest h (moved, g, e) = (
  content done ++ moved,
  Grown-trans s s' u (content done) moved
      (struct_append_input-Grown s s' (closed_input input done) h) g,
  append_assoc (content done) moved (content last.entries) ∙ ap (λ t. content done ++ t) e,
)

-- An entry moves over from the list behind to the entries in front.
content-snoc :
    (taken list : List Entry) (e : Entry)
    → content (taken ++ (e ∷ [])) ++ content list ≡ content taken ++ content (e ∷ list)
content-snoc taken list e =
    sym (content-append (taken ++ (e ∷ [])) list)
    ∙ ap content (sym (append-snoc taken list e))
    ∙ content-append taken (e ∷ list)

content_cut :
    (e : Entry) (bytes : ℕ) (halves : Entry × Entry) (list : List Entry)
    → split_entry e bytes ≡ some halves
    → content (halves.0 ∷ halves.1 ∷ list) ≡ content (e ∷ list)
unfolding content
content_cut e bytes halves list h =
    sym (
      append_assoc (tagged halves.0.mode halves.0.bytes) (tagged halves.1.mode halves.1.bytes)
        (content list))
    ∙ ap (λ t. t ++ content list) (split_entry-content e bytes halves h)

pub content_nil : content [] ≡ []
unfolding content
content_nil = refl

settled :
    (s u : InputStruct) (last input : QrInput) (taken : List Entry)
    → ◌≡◌ {A = Option (QrInput × InputStruct)}
        (some (record input { entries = taken }, s))
        (some (last, u))
    → Kept s u last (content taken ++ content [])
unfolding content
settled s u last input taken h =
    subst (λ (t : QrInput × InputStruct). Kept s t.1 t.0 (content taken ++ content []))
      (some-injective _ (last, u) h)
      ([], (sym (append-nil (contents s.inputs)), refl, λ z. z), sym (append-nil (content taken)))

-- What a state holds of the input that is being split.
abbrev held : SplitState → List (Mode × ℕ)
held st = content st.taken ++ content st.list

start_next-Kept :
    (st st' : SplitState) (last : QrInput) (u : InputStruct) (own list : List Entry) (tail : ℕ)
    → start_next st own list tail ≡ some st'
    → Kept st'.parts u last (held st')
    → Kept st.parts u last (content own ++ content list)
unfolding start_next
start_next-Kept st st' last u own list tail h kept =
    let (p, fresh, h') = >>=-eq-some (next_input st.input list tail) _ h in
    let (s, added, h'') =
      >>=-eq-some (struct_append_input st.parts (closed_input st.input own)) (λ s. some (next p s))
        h' in
    let moved =
      subst (λ (t : SplitState). Kept t.parts u last (held t))
        (sym (some-injective (next p s) st' h'')) kept in
    closing st.parts s u st.input last own (content list) added
      (Kept-as s u last _ _ (ap (λ t. t ++ content list) content_nil) moved)
  where
    next : QrInput → InputStruct → SplitState
    next p s = record st { input = p; taken = []; list = list; bits = 0; parts = s }

split_round-Kept :
    (maxbits : ℕ) (st st' : SplitState) (e : Entry) (list : List Entry) (last : QrInput)
    (u : InputStruct)
    → split_round maxbits st e list ≡ some st'
    → Kept st'.parts u last (held st')
    → Kept st.parts u last (content st.taken ++ content (e ∷ list))
unfolding split_round
split_round-Kept maxbits st st' e list last u h kept =
    elim (if-cases (leb (st.bits + nextbits) maxbits) _ _ h) [
      | inl (t, h') ↦
          let (b, made, h'') =
            >>=-eq-some
              (encode_bit_stream e (BitStream.reset st.bstream) st.input.version st.input.mqr)
              (λ b. some (fitted b)) h' in
          Kept-as st.parts u last _ _ (content-snoc st.taken list e) (
            subst (λ (t : SplitState). Kept t.parts u last (held t))
              (sym (some-injective (fitted b) st' h'')) kept)
      | inr (t, h') ↦ elim (if-cases (ltb 0 bytes) _ _ h') [
        | inl (t', h'') ↦
            let (halves, cut, h3) = >>=-eq-some (split_entry e bytes) _ h'' in
            let own = st.taken ++ (halves.0 ∷ []) in
            Kept-as st.parts u last _ _
              (content-snoc st.taken (halves.1 ∷ list) halves.0
                ∙ ap (λ t. content st.taken ++ t) (content_cut e bytes halves list cut))
              (start_next-Kept st st' last u own (halves.1 ∷ list) _ h3 kept)
        | inr (t', h'') ↦ start_next-Kept st st' last u st.taken (e ∷ list) _ h'' kept
      ]
    ]
  where
    nextbits : ℕ
    nextbits = estimate_bit_stream_size_of_entry e st.input.version st.input.mqr

    bytes : ℕ
    bytes = length_of_code e.mode st.input.version (maxbits - st.bits)

    fitted : BitStream → SplitState
    fitted b = record st {
      taken = st.taken ++ (e ∷ []);
      list = list;
      bits = st.bits + BitStream.size b;
      bstream = b;
    }

pub split_loop-Kept :
    (n maxbits : ℕ) (st : SplitState) (list : List Entry) (last : QrInput) (u : InputStruct)
    → st.list ≡ list
    → split_loop n maxbits st ≡ some (last, u)
    → Kept st.parts u last (content st.taken ++ content list)
unfolding split_loop
split_loop-Kept zero maxbits st list last u same h = cc
split_loop-Kept (suc n) maxbits st [] last u same h =
    settled st.parts u last st.input st.taken (rw (same) at h)
split_loop-Kept (suc n) maxbits st (e ∷ list) last u same h =
    let (st', made, h') =
      >>=-eq-some (split_round maxbits st e list) (split_loop n maxbits) (rw (same) at h) in
    split_round-Kept maxbits st st' e list last u made
      (split_loop-Kept n maxbits st' st'.list last u refl h')
