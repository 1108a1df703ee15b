-- ===== src/Parser/Strings.antt =====
-- src/x86tester_parser.cpp: the string helpers, the integers and the hex strings of the format.
use remill_tester.Base.{
  ℕ, zero, suc, ◌+◌, ◌-◌, ◌*◌, ◌%◌, bit_or, Bool, true, false, ◌&&◌, ◌||◌, List, [], ◌∷◌, ◌++◌, map,
  Option, none, some, ltb, leb, ◌==◌, if◌then◌else◌, length, get_or, drop, take,
}
use remill_tester.Base.Text.{Text, codes, same, starts_with, cut}
use remill_tester.Base.Result.{Result, ok, err, ◌>>=◌}
use remill_tester.Base.LittleEndian.{join_bytes}
use remill_tester.Base.Chars.{
  is_space, is_digit, lower_char, upper_char, skip_spaces, StoullError, stoull,
}

-- What the parser throws; the payloads are what the messages show.
pub data ParseError : Type 0 where
  not_a_number : StoullError → ParseError
  invalid_integer : Text → ParseError
  schema_field_prefix : Text → Text → ParseError
  empty_state_name : Text → Text → ParseError
  not_an_instruction_header : ParseError
  header_field_count : Text → ParseError
  opcode_prefix : Text → ParseError
  no_data_header : ParseError
  data_value_prefix : Text → ParseError
  memory_key_misplaced : Text → ParseError
  values_for_empty_schema : Text → Text → ParseError
  no_values : Text → ParseError
  value_count : Text → ℕ → ℕ → Text → ParseError
  empty_index : Text → Text → ParseError
  index_out_of_range : Text → ℕ → ℕ → ParseError
  index_too_large : Text → Text → ParseError
  schema_value_count : ParseError
  no_separator : Text → ParseError
  second_separator : Text → ParseError
  empty_exception : Text → ParseError
  invalid_hex : Text → ParseError
  odd_hex : Text → ParseError
  scalar_too_long : ParseError
  empty_memory_address : Text → ParseError
  duplicate_data_header : ParseError
  row_before_header : ParseError

abbrev pub Parse {ℓ} : Type ℓ → Type ℓ
Parse A = Result ParseError A

-- The loop of Split, on fuel: each round takes a delimiter off the text.
unfoldable pub split_loop : ℕ → Text → ℕ → List Text
split_loop zero text delimiter = []
split_loop (suc fuel) text delimiter = elim (cut delimiter text) [
  | none ↦ text ∷ []
  | some (part, rest) ↦ part ∷ split_loop fuel rest delimiter
]

unfoldable pub split : Text → ℕ → List Text
unfolding split_loop
split text delimiter = split_loop (suc (length text)) text delimiter

-- The second `erase` of Trim: up to the last character that is no space.
unfoldable pub drop_trailing : Text → Text
drop_trailing [] = []
drop_trailing (c ∷ cs) =
    let rest = drop_trailing cs in if is_space c && same rest [] then [] else c ∷ rest

unfoldable pub trim : Text → Text
unfolding drop_trailing
trim value = drop_trailing (skip_spaces value)

unfoldable pub to_lower : Text → Text
to_lower = map lower_char

unfoldable pub to_upper : Text → Text
to_upper = map upper_char

unfoldable pub parse_unsigned : Text → ℕ → Parse ℕ
parse_unsigned text base = elim (stoull text base) [
  | err e ↦ err (not_a_number e)
  | ok (value, rest) ↦ if same rest [] then ok value else err (invalid_integer text)
]

unfoldable pub hex_digit_value : ℕ → Option ℕ
hex_digit_value ch =
    if leb b'0' ch && leb ch b'9'
    then some (ch - b'0')
    else if leb b'a' ch && leb ch b'f'
    then some (ch - b'a' + 10)
    else if leb b'A' ch && leb ch b'F'
    then some (ch - b'A' + 10)
    else none

-- `static_cast<std::uint8_t>((high_nibble << 4) | digit)`.
abbrev pub hex_byte : ℕ → ℕ → ℕ
hex_byte high digit = bit_or (high * 16) digit % 256

-- The loop of ParseHexBytes; `none` is the -1 of `high_nibble`, `bytes` what is pushed so far.
unfoldable pub hex_loop : Text → Option ℕ → List ℕ → Text → Parse (List ℕ)
hex_loop hex none bytes [] = ok bytes
hex_loop hex (some high) bytes [] = err (odd_hex hex)
hex_loop hex high bytes (ch ∷ rest) = elim (is_space ch || ch == b'_') [
  | true ↦ hex_loop hex high bytes rest
  | false ↦ elim (hex_digit_value ch) [
    | none ↦ err (invalid_hex hex)
    | some digit ↦ elim high [
      | none ↦ hex_loop hex (some digit) bytes rest
      | some h ↦ hex_loop hex none (bytes ++ hex_byte h digit ∷ []) rest
    ]
  ]
]

unfoldable pub parse_hex_bytes : Text → Parse (List ℕ)
unfolding hex_loop
parse_hex_bytes hex = hex_loop hex none [] hex

unfoldable pub read_little_endian_scalar : List ℕ → Parse ℕ
read_little_endian_scalar bytes =
    if ltb 8 (length bytes) then err scalar_too_long else ok (join_bytes 0 bytes 0)

unfoldable pub canonical_state_key : Text → Text
canonical_state_key raw =
    let key = to_lower (trim raw) in
    if same key (codes "flags") || same key (codes "eflags") || same key (codes "rflags")
    then codes "flag"
    else key

-- `text.back() == c`, for a text that is not empty.
unfoldable pub ends_in : Text → ℕ → Bool
ends_in text c = get_or text (length text - 1) 0 == c

-- The end of ParseMemoryAddressKey, on the `address_text` of either syntax.
unfoldable pub parse_address : Text → Text → Parse (Option ℕ)
parse_address raw_key text =
    if same text []
    then err (empty_memory_address raw_key)
    else do address ← parse_unsigned text 0; ok (some address)

unfoldable pub parse_memory_address_key : Text → Parse (Option ℕ)
unfolding ends_in parse_address
parse_memory_address_key raw_key =
    let key = to_lower (trim raw_key) in
    if starts_with key (codes "mem[") && ends_in key b']'
    then parse_address raw_key (take (length key - 5) (drop 4 key))
    else if starts_with key (codes "mem@")
    then parse_address raw_key (drop 4 key)
    else ok none

-- `has_numeric_suffix` of IsByteStateKey.
unfoldable pub has_numeric_suffix : Text → Text → Bool
has_numeric_suffix key name =
    ltb (length name) (length key) && starts_with key name && is_digit (get_or key (length name) 0)

unfoldable pub is_byte_state_key : Text → Bool
unfolding has_numeric_suffix
is_byte_state_key key =
    has_numeric_suffix key (codes "xmm")
    || has_numeric_suffix key (codes "ymm")
    || has_numeric_suffix key (codes "zmm")
    || has_numeric_suffix key (codes "mm")
    || has_numeric_suffix key (codes "st")
