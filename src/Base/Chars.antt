-- ===== src/Base/Chars.antt =====
-- Characters and numbers in text as the C and C++ libraries define them, in the "C" locale.
use Prim.Native.Nat.{ℕ, zero, suc, ◌+◌, ◌-◌, ◌*◌, ◌/◌, ◌%◌, ◌^◌}
use mathlib.Core.Bool.{Bool, true, false, ◌&&◌, ◌||◌}
use mathlib.Core.Option.{Option, none, some}
use mathlib.Core.List.{[], ◌∷◌}
use remill_tester.Base.Tests.{◌==◌, ltb, leb, if◌then◌else◌}
use remill_tester.Base.Lists.{length}
use remill_tester.Base.Text.{Text}
use remill_tester.Base.Result.{Result, ok, err}

-- `isspace`: tab, line feed, vertical tab, form feed, carriage return and blank.
unfoldable pub is_space : ℕ → Bool
is_space c = (leb 9 c && leb c 13) || c == b' '

unfoldable pub is_digit : ℕ → Bool
is_digit c = leb b'0' c && leb c b'9'

unfoldable pub lower_char : ℕ → ℕ
lower_char c = if leb b'A' c && leb c b'Z' then c + 32 else c

unfoldable pub upper_char : ℕ → ℕ
upper_char c = if leb b'a' c && leb c b'z' then c - 32 else c

-- The text behind its leading spaces.
unfoldable pub skip_spaces : Text → Text
skip_spaces [] = []
skip_spaces (c ∷ cs) = if is_space c then skip_spaces cs else c ∷ cs

-- The value of a digit or letter in the bases up to 36.
unfoldable pub digit_value : ℕ → Option ℕ
digit_value c =
    if is_digit c
    then some (c - b'0')
    else if leb b'a' c && leb c b'z'
    then some (c - b'a' + 10)
    else if leb b'A' c && leb c b'Z'
    then some (c - b'A' + 10)
    else none

unfoldable pub is_digit_of : ℕ → ℕ → Bool
is_digit_of base c = elim (digit_value c) [ none ↦ false | some d ↦ ltb d base ]

abbrev pub value_of_digit : ℕ → ℕ
value_of_digit c = elim (digit_value c) [ none ↦ 0 | some d ↦ d ]

-- The digits at the front of a text, as a number, and the text behind them.
unfoldable pub scan_digits : ℕ → ℕ → Text → ℕ × Text
scan_digits base value [] = (value, [])
scan_digits base value (c ∷ cs) =
    let more = scan_digits base (value * base + value_of_digit c) cs in
    if is_digit_of base c then more else (value, c ∷ cs)

-- With base 0 the prefix decides: `0x` before a hexadecimal digit, else `0`, else decimal.
unfoldable pub strip_base : ℕ → Text → ℕ × Text
strip_base zero (x ∷ y ∷ z ∷ cs) =
    if x == b'0' && (y == b'x' || y == b'X') && is_digit_of 16 z
    then (16, z ∷ cs)
    else (if x == b'0' then 8 else 10, x ∷ y ∷ z ∷ cs)
strip_base zero (x ∷ cs) = (if x == b'0' then 8 else 10, x ∷ cs)
strip_base zero [] = (10, [])
strip_base (suc base) cs = (suc base, cs)

unfoldable pub strip_sign : Text → Bool × Text
strip_sign [] = (false, [])
strip_sign (c ∷ cs) =
    if c == b'-' then (true, cs) else if c == b'+' then (false, cs) else (false, c ∷ cs)

pub data StoullError : Type 0 where
  invalid_argument out_of_range : StoullError

-- `std::stoull(text, &consumed, base)` for the bases 0 and 10: the value and what lies behind it.
-- A minus sign negates modulo 2^64.
unfoldable pub stoull : Text → ℕ → Result StoullError (ℕ × Text)
stoull text base =
    let (negative, unsigned) = strip_sign (skip_spaces text) in
    let (base', number) = strip_base base unsigned in
    let (value, rest) = scan_digits base' 0 number in
    if length rest == length number
    then err invalid_argument
    else if ltb (2 ^ 64 - 1) value
    then err out_of_range
    else ok (if negative && ltb 0 value then 2 ^ 64 - value else value, rest)

-- A digit as the streams print it, in upper case.
unfoldable pub digit_char : ℕ → ℕ
digit_char d = if ltb d 10 then b'0' + d else b'A' + d - 10

-- The digits of a number, the lowest last; `behind` is what follows.
unfoldable pub print_digits : ℕ → ℕ → ℕ → Text → Text
print_digits base zero n behind = behind
print_digits base (suc fuel) n behind =
    let rest = print_digits base fuel (n / base) (digit_char (n % base) ∷ behind) in
    if n == 0 then behind else rest

-- `out << n` for a word of at most 64 bits, in decimal or, after `std::hex << std::uppercase`, in
-- hexadecimal: 64 digits are enough in any base.
unfoldable pub print_number : ℕ → ℕ → Text
print_number base n = if n == 0 then b'0' ∷ [] else print_digits base 64 n []
