-- ===== src/QrInput/Parts.antt =====
-- `QRinput_encodeBitStream` on an entry of any length: the parts and their bits.
use native.Mathlib.Decide.{dec_lt}
use mathlib.Core.Bool.{false≢true}
use libqrencode.Prelude.{
  ℕ, zero, suc, ◌≤◌, ◌<◌, true, false, List, [], ◌∷◌, ◌++◌, Option, some, ◌≡◌, refl, sym, ap, ◌∙◌,
  length, length-take, take, drop, take-append-drop, All, ◌==◌, ne→==, arith, append-nil,
}
use mathlib.Core.Path.{subst}
use libqrencode.Api.{Mode}
use libqrencode.BitStream.{BitStream}
use libqrencode.BitStream.Laws.{IsValid, Appended, Appended-trans}
use libqrencode.QrSpec
use libqrencode.QrSpec.{is_splittable_mode}
use libqrencode.QrInput.Entry.{Entry, check, check_by_mode}
use libqrencode.QrInput.Encode.{encode_fuel, encode_bit_stream}
use libqrencode.QrInput.Segment.{segment, HasSegment, by_mode-HasSegment}
use libqrencode.QrInput.Convert.{segments}
use libqrencode.QrInput.Cut.{
  if_false, length-rest, mode_halves, some_words, checked_new, whole_at_fuel, encode_fuel-cut,
}

-- The data of entries in their order.
unfoldable pub contents : List Entry → List ℕ
contents [] = []
contents (e ∷ es) = e.bytes ++ contents es

-- A part of an entry, which one header can count.
pub record IsPart (mode : Mode) (version : ℕ) (p : Entry) : Type 0 where
  pub same_mode : p.mode ≡ mode
  pub counted : length p.bytes ≤ QrSpec.maximum_words mode version
  pub checked : check mode p.bytes ≡ true

-- The parts into which an entry is cut, and the stream behind them.
record Encoded (mode : Mode) (cs : List ℕ) (b : BitStream) (version : ℕ) (out : Option BitStream)
    : Type 0 where
  pub parts : List Entry
  pub stream : BitStream
  pub returned : out ≡ some stream
  pub whole : contents parts ≡ cs
  pub sizes : All (IsPart mode version) parts
  pub appended : Appended b (segments version parts) stream

check-by_mode :
    (mode : Mode) (cs : List ℕ)
    → check mode cs ≡ true
    → (0 < length cs) × (check_by_mode mode cs ≡ true)
unfolding check
check-by_mode mode [] h = absurd (false≢true h)
check-by_mode mode (c ∷ cs) h = (omega arith, (if_false (length (c ∷ cs) == 0) _ h).1)

check-from_mode :
    (mode : Mode) (cs : List ℕ)
    → 0 < length cs
    → check_by_mode mode cs ≡ true
    → check mode cs ≡ true
unfolding check
check-from_mode mode cs pos h = rw (ne→== (length cs) 0 (λ e. omega (arith, e))) h

one_part :
    (mode : Mode) (cs : List ℕ) (b : BitStream) (version : ℕ) (out : Option BitStream)
    → length cs ≤ QrSpec.maximum_words mode version
    → check mode cs ≡ true
    → HasSegment (record { mode = mode; bytes = cs }) b version out
    → Encoded mode cs b version out
unfolding contents segments
one_part mode cs b version out h ok (c, eq, app) = record {
  parts = record { mode = mode; bytes = cs } ∷ [];
  stream = c;
  returned = eq;
  whole = append-nil cs;
  sizes = (record { same_mode = refl; counted = h; checked = ok }, tt);
  appended =
      subst (λ t. Appended b t c)
        (sym (append-nil (segment version (record { mode = mode; bytes = cs })))) app;
}

-- A first part in front of the parts of the rest.
more_parts :
    (mode : Mode) (cs : List ℕ) (b c : BitStream) (version : ℕ) (out out' : Option BitStream)
    → let words = QrSpec.maximum_words mode version in
      let first : Entry = record { mode = mode; bytes = take words cs } in
      words ≤ length cs
      → check mode (take words cs) ≡ true
      → out ≡ out'
      → Appended b (segment version first) c
      → Encoded mode (drop words cs) c version out'
      → Encoded mode cs b version out
unfolding contents segments
more_parts mode cs b c version out out' over ok same app rest =
    let words = QrSpec.maximum_words mode version in
    record {
      parts = record { mode = mode; bytes = take words cs } ∷ rest.parts;
      stream = rest.stream;
      returned = same ∙ rest.returned;
      whole = ap (λ t. take words cs ++ t) rest.whole ∙ take-append-drop words cs;
      sizes = (
        record { same_mode = refl; counted = omega (arith, length-take words cs); checked = ok },
        rest.sizes,
      );
      appended = Appended-trans app rest.appended;
    }

encode_fuel-Encoded :
    (fuel : ℕ) (mode : Mode) (cs : List ℕ) (b : BitStream) (version : ℕ)
    → length cs ≤ fuel
    → is_splittable_mode mode ≡ true
    → check mode cs ≡ true
    → IsValid b
    → Encoded mode cs b version
        (encode_fuel fuel (record { mode = mode; bytes = cs }) b version false)
encode_fuel-Encoded zero mode cs b version enough s ok v =
    absurd (omega (arith, (check-by_mode mode cs ok).0))
encode_fuel-Encoded (suc fuel) mode cs b version enough s ok v =
    let words = QrSpec.maximum_words mode version in
    elim (dec_lt words (length cs)) [
      | no fits ↦ one_part mode cs b version _ (omega arith) ok (
          subst (HasSegment (record { mode = mode; bytes = cs }) b version)
            (sym (
              whole_at_fuel (suc fuel) (record { mode = mode; bytes = cs }) b version
                (omega arith)))
            (by_mode-HasSegment mode cs b version s v))
      | yes over ↦
          let pos = some_words mode version s in
          let (front, back) = mode_halves mode cs version s over (check-by_mode mode cs ok).1 in
          let front_pos : 0 < length (take words cs) = omega (arith, length-take words cs, pos) in
          let back_pos : 0 < length (drop words cs) = omega (arith, length-rest words cs) in
          let (c, eq, app) = by_mode-HasSegment mode (take words cs) b version s v in
          let small : length (take words cs) ≤ words = omega (arith, length-take words cs) in
          more_parts mode cs b c version _ _ (omega arith) (check-from_mode mode _ front_pos front)
            (encode_fuel-cut fuel mode cs b c version pos over (checked_new mode _ front_pos front)
              (checked_new mode _ back_pos back)
              (whole_at_fuel fuel (record { mode = mode; bytes = take words cs }) b version small
                ∙ eq))
            app
            (encode_fuel-Encoded fuel mode (drop words cs) c version
              (omega (arith, length-rest words cs, pos)) s (check-from_mode mode _ back_pos back)
              app.valid)
    ]

-- On a valid stream, in a QR Code symbol, an entry of one of the four modes of data that passes the
-- check is encoded without failure, however long it is. It is cut into parts of its mode, each of
-- which passes the check and can be counted by one header, whose data are, one after the other, the
-- data of the entry; and what is appended is exactly the segments of the parts.
pub encode_bit_stream-segments :
    (e : Entry) (b : BitStream) (version : ℕ)
    → is_splittable_mode e.mode ≡ true
    → check e.mode e.bytes ≡ true
    → IsValid b
    → (parts : List Entry) × (c : BitStream) × (encode_bit_stream e b version false ≡ some c)
      × (contents parts ≡ e.bytes)
      × All (IsPart e.mode version) parts
      × Appended b (segments version parts) c
unfolding encode_bit_stream
encode_bit_stream-segments e b version s ok v =
    let r = encode_fuel-Encoded (length e.bytes) e.mode e.bytes b version (omega arith) s ok v in
    (r.parts, r.stream, r.returned, r.whole, r.sizes, r.appended)
