-- ===== src/QrInput/Edit.antt =====
-- qrinput.c, the operations on the input data: creation, the setters, the appends and the headers
-- that are put in front. `none` stands for NULL or for -1, with `errno` set; the input is then
-- unchanged. Otherwise the new input is returned. Allocation succeeds.
use libqrencode.Prelude.{
  ℕ, ◌+◌, ◌/◌, ◌%◌, ◌^◌, bit_and, bit_xor, Bool, true, false, ◌||◌, not, List, [], ◌∷◌, ◌++◌,
  Option, none, some, ◌>>=◌, take, ltb, ◌==◌, if◌then◌else◌,
}
use libqrencode.Api.{
  Mode, structure, eci, fnc1_first, fnc1_second, RecLevel, level_l, qrspec_version_max,
  mqrspec_version_max, max_structured_symbols,
}
use libqrencode.MqrSpec
use libqrencode.QrInput.Entry.{Entry, QrInput, new_entry}

-- `appid` is left unset by the source.
unfoldable pub new2 : ℕ → RecLevel → Option QrInput
new2 version level =
    if ltb qrspec_version_max version
    then none
    else some (record {
      version = version;
      level = level;
      entries = [];
      tail = 0;
      mqr = false;
      fnc1 = 0;
      appid = 0;
    })

unfoldable pub new : Option QrInput
unfolding new2
new = new2 0 level_l

abbrev pub is_mqr_symbol : ℕ → RecLevel → Bool
is_mqr_symbol version level =
    not
      (version == 0 || ltb mqrspec_version_max version || MqrSpec.get_ecc_length version level == 0)

unfoldable pub new_mqr : ℕ → RecLevel → Option QrInput
unfolding new2
new_mqr version level =
    if is_mqr_symbol version level
    then new2 version level >>= (λ input. some (record input { mqr = true }))
    else none

unfoldable pub get_version : QrInput → ℕ
get_version input = input.version

unfoldable pub set_version : QrInput → ℕ → Option QrInput
set_version input version =
    if input.mqr || ltb qrspec_version_max version
    then none
    else some (record input { version = version })

unfoldable pub get_error_correction_level : QrInput → RecLevel
get_error_correction_level input = input.level

unfoldable pub set_error_correction_level : QrInput → RecLevel → Option QrInput
set_error_correction_level input level =
    if input.mqr then none else some (record input { level = level })

unfoldable pub set_version_and_error_correction_level : QrInput → ℕ → RecLevel → Option QrInput
set_version_and_error_correction_level input version level =
    if (if input.mqr then is_mqr_symbol version level else not (ltb qrspec_version_max version))
    then some (record input { version = version; level = level })
    else none

-- A null `tail` makes the entry the whole list, and any other drops what stands behind it.
unfoldable pub append_entry : QrInput → Entry → QrInput
append_entry input e =
    if input.tail == 0
    then record input { entries = e ∷ []; tail = 1 }
    else record input { entries = take input.tail input.entries ++ (e ∷ []); tail = input.tail + 1 }

unfoldable pub append : QrInput → Mode → List ℕ → Option QrInput
unfolding append_entry new_entry
append input mode bytes = do e ← new_entry mode bytes; some (append_entry input e)

-- The pointer `tail` stays at its entry.
abbrev pub moved : ℕ → ℕ
moved position = if position == 0 then 0 else position + 1

unfoldable pub insert_structured_append_header : QrInput → ℕ → ℕ → ℕ → Option QrInput
unfolding new_entry
insert_structured_append_header input size number parity =
    if ltb max_structured_symbols size
    then none
    else if number == 0 || ltb size number
    then none
    else new_entry structure (size % 256 ∷ number % 256 ∷ parity ∷ [])
      >>= (λ e. some (record input { entries = e ∷ input.entries; tail = moved input.tail }))

unfoldable pub append_eci_header : QrInput → ℕ → Option QrInput
unfolding append
append_eci_header input ecinum =
    if ltb 999999 ecinum
    then none
    else append input eci (
        bit_and ecinum 0xff
        ∷ bit_and (ecinum / 2 ^ 8) 0xff
        ∷ bit_and (ecinum / 2 ^ 16) 0xff
        ∷ bit_and (ecinum / 2 ^ 24) 0xff
        ∷ [])

abbrev pub is_structure : Mode → Bool
is_structure structure = true
is_structure _ = false

abbrev pub is_eci : Mode → Bool
is_eci eci = true
is_eci _ = false

-- The inner loop, from the last byte.
unfoldable pub parity_bytes : List ℕ → ℕ → ℕ
parity_bytes [] parity = parity
parity_bytes (c ∷ cs) parity = bit_xor (parity_bytes cs parity) c

unfoldable pub parity_entries : List Entry → ℕ → ℕ
unfolding parity_bytes
parity_entries [] parity = parity
parity_entries (e ∷ es) parity =
    parity_entries es (if is_structure e.mode then parity else parity_bytes e.bytes parity)

unfoldable pub calc_parity : QrInput → ℕ
unfolding parity_entries
calc_parity input = parity_entries input.entries 0

unfoldable pub dup_entries : QrInput → List Entry → QrInput
unfolding append_entry
dup_entries n [] = n
dup_entries n (e ∷ es) = dup_entries (append_entry n e) es

-- `fnc1` and `appid` are not copied.
unfoldable pub dup : QrInput → Option QrInput
unfolding new_mqr new2 dup_entries
dup input = do
  n ← if input.mqr then new_mqr input.version input.level else new2 input.version input.level
  some (dup_entries n input.entries)

-- The entry of the header: `new_entry` with no bytes in first position.
abbrev pub fnc1_entry : QrInput → Option Entry
fnc1_entry input =
    if input.fnc1 == 1
    then new_entry fnc1_first []
    else if input.fnc1 == 2
    then new_entry fnc1_second (input.appid ∷ [])
    else none

-- In front, but behind a header of structured append or ECI. A null `head` is a fault in C; here
-- the entry becomes the only one.
unfoldable pub insert_fnc1_header : QrInput → Option QrInput
unfolding new_entry
insert_fnc1_header input = do
  e ← fnc1_entry input
  elim input.entries [
    | [] ↦ some (record input { entries = e ∷ [] })
    | first ∷ rest ↦
        if is_structure first.mode || is_eci first.mode
        then some (record input {
          entries = first ∷ e ∷ rest;
          tail = if input.tail == 1 then 1 else moved input.tail;
        })
        else some (record input { entries = e ∷ first ∷ rest; tail = moved input.tail })
  ]

unfoldable pub set_fnc1_first : QrInput → Option QrInput
set_fnc1_first input = if input.mqr then none else some (record input { fnc1 = 1 })

unfoldable pub set_fnc1_second : QrInput → ℕ → Option QrInput
set_fnc1_second input appid =
    if input.mqr then none else some (record input { fnc1 = 2; appid = appid })
