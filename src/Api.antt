-- ===== src/Api.antt =====
-- The enumerations and constants of qrencode.h and qrinput.h.
use libqrencode.Prelude.{ℕ}

-- `QRencodeMode`; `nul` is QR_MODE_NUL, which stands for -1.
pub data Mode : Type 0 where
  nul num an eight kanji structure eci fnc1_first fnc1_second : Mode

-- `QRecLevel`: QR_ECLEVEL_L, M, Q and H.
pub data RecLevel : Type 0 where
  level_l level_m level_q level_h : RecLevel

-- The values of the enumeration, as indices of the tables.
abbrev pub level_index : RecLevel → ℕ
level_index level_l = 0
level_index level_m = 1
level_index level_q = 2
level_index level_h = 3

-- The modes that index the tables of length indicators.
abbrev pub mode_index : Mode → ℕ
mode_index num = 0
mode_index an = 1
mode_index eight = 2
mode_index kanji = 3
mode_index _ = 4

abbrev pub qrspec_version_max : ℕ
qrspec_version_max = 40

abbrev pub mqrspec_version_max : ℕ
mqrspec_version_max = 4

abbrev pub mode_indicator_size : ℕ
mode_indicator_size = 4

abbrev pub structure_header_size : ℕ
structure_header_size = 20

abbrev pub max_structured_symbols : ℕ
max_structured_symbols = 16
