-- ===== src/QrInput/Payload.antt =====
-- The bits that each mode's data takes in a symbol, written out, and the appends of
-- `QRinput_encodeMode...` against them. The bits of a segment are its header and its payload.
use libqrencode.Prelude.{ℕ, ◌+◌, ◌*◌, ◌%◌, ◌^◌, List, [], ◌∷◌, ◌++◌, arith}
use libqrencode.BitStream.{BitStream}
use libqrencode.BitStream.Num.{num_bits}
use libqrencode.BitStream.Laws.{
  IsValid, Appended, Appended-trans, Appended-refl, append_num-Appended,
}
use libqrencode.QrInput.Encode.{
  digit, an_value, kanji_value, append_num_words, append_an_words, append_kanji_words,
}

unfoldable pub num_payload : List ℕ → List ℕ
num_payload [] = []
num_payload (x ∷ []) = num_bits 4 (digit x)
num_payload (x ∷ y ∷ []) = num_bits 7 (digit x * 10 + digit y)
num_payload (x ∷ y ∷ z ∷ rest) =
    num_bits 10 (digit x * 100 + digit y * 10 + digit z) ++ num_payload rest

unfoldable pub an_payload : List ℕ → List ℕ
an_payload [] = []
an_payload (x ∷ []) = num_bits 6 (an_value x)
an_payload (x ∷ y ∷ rest) = num_bits 11 ((an_value x * 45 + an_value y) % 2 ^ 32) ++ an_payload rest

unfoldable pub kanji_payload : List ℕ → List ℕ
kanji_payload (x ∷ y ∷ rest) = num_bits 13 (kanji_value x y) ++ kanji_payload rest
kanji_payload _ = []

pub append_num_words-Appended :
    (bytes : List ℕ) (b : BitStream)
    → IsValid b
    → Appended b (num_payload bytes) (append_num_words b bytes)
unfolding num_payload append_num_words
append_num_words-Appended [] b v = Appended-refl b v
append_num_words-Appended (x ∷ []) b v = append_num-Appended b 4 _ v (omega arith)
append_num_words-Appended (x ∷ y ∷ []) b v = append_num-Appended b 7 _ v (omega arith)
append_num_words-Appended (x ∷ y ∷ z ∷ rest) b v =
    let first = append_num-Appended b 10 (digit x * 100 + digit y * 10 + digit z) v (omega arith) in
    Appended-trans first (append_num_words-Appended rest _ first.valid)

pub append_an_words-Appended :
    (bytes : List ℕ) (b : BitStream)
    → IsValid b
    → Appended b (an_payload bytes) (append_an_words b bytes)
unfolding an_payload append_an_words
append_an_words-Appended [] b v = Appended-refl b v
append_an_words-Appended (x ∷ []) b v = append_num-Appended b 6 _ v (omega arith)
append_an_words-Appended (x ∷ y ∷ rest) b v =
    let first =
      append_num-Appended b 11 ((an_value x * 45 + an_value y) % 2 ^ 32) v (omega arith) in
    Appended-trans first (append_an_words-Appended rest _ first.valid)

pub append_kanji_words-Appended :
    (bytes : List ℕ) (b : BitStream)
    → IsValid b
    → Appended b (kanji_payload bytes) (append_kanji_words b bytes)
unfolding kanji_payload append_kanji_words
append_kanji_words-Appended [] b v = Appended-refl b v
append_kanji_words-Appended (x ∷ []) b v = Appended-refl b v
append_kanji_words-Appended (x ∷ y ∷ rest) b v =
    let first = append_num-Appended b 13 (kanji_value x y) v (omega arith) in
    Appended-trans first (append_kanji_words-Appended rest _ first.valid)
