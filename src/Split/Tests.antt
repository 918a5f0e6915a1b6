-- ===== src/Split/Tests.antt =====
-- split.c: a run and the theorem at concrete inputs.
use libqrencode.Prelude.{false, List, [], ◌∷◌, some, ◌≡◌, refl, All}
use libqrencode.Api.{eight, level_l}
use libqrencode.QrInput.Entry.{Entry, QrInput}
use libqrencode.QrInput.Parts.{contents}
use libqrencode.Split.{split_string_to_qrinput}
use libqrencode.QrInput.Append.{with_entries}
use libqrencode.Split.Upper.{IsUpper}
use libqrencode.Split.Whole.{IsChecked, split_string_to_qrinput_lem}

abbrev no_entries : QrInput
no_entries = record {
  version = 1;
  level = level_l;
  entries = [];
  tail = 0;
  mqr = false;
  fnc1 = 0;
  appid = 0;
}

split_string_to_qrinput_lem_example :
    (es : List Entry) × (split_string_to_qrinput (b'a' ∷ b'B' ∷ b'1' ∷ []) no_entries eight false
      ≡ some (with_entries no_entries es))
    × IsUpper eight (b'a' ∷ b'B' ∷ b'1' ∷ []) (contents es)
    × All IsChecked es
split_string_to_qrinput_lem_example =
    split_string_to_qrinput_lem b'a' (b'B' ∷ b'1' ∷ []) no_entries eight false refl
