-- ===== src/Parser/Hex.antt =====
-- ParseHexBytes against the hexadecimal text that the reports print.
use remill_tester.Base.{
  ℕ, ◌+◌, ◌*◌, ◌/◌, ◌%◌, ◌<◌, ◌≡◌, refl, arith, ◌∙◌, sym, ap, false, ◌||◌, List, [], ◌∷◌, ◌++◌,
  Option, none, some, bit_or, ◌==◌, All, bit_or_step, bit_or-zero,
}
use mathlib.Core.List.{append_assoc, append-nil}
use remill_tester.Base.Text.{Text}
use remill_tester.Base.LittleEndian.{IsByte}
use remill_tester.Base.Result.{ok}
use remill_tester.Base.Chars.{is_space, digit_char}
use remill_tester.Parser.Strings.{hex_digit_value, hex_byte, hex_loop, parse_hex_bytes}
use remill_tester.Comparator.Compare.{bytes_to_hex}

digit_char-kept : (d : ℕ) → d < 16 → (is_space (digit_char d) || digit_char d == b'_') ≡ false
unfolding digit_char is_space
digit_char-kept d h = ground arith

hex_digit_value-digit_char : (d : ℕ) → d < 16 → hex_digit_value (digit_char d) ≡ some d
unfolding digit_char hex_digit_value
hex_digit_value-digit_char d h = ground arith

disjoint_nibbles : (high low : ℕ) → low < 16 → bit_or (high * 16) low ≡ high * 16 + low
disjoint_nibbles high low small =
    let e : high * 16 / 2 / 2 / 2 / 2 ≡ high = omega arith in
    let z : low / 2 / 2 / 2 / 2 ≡ 0 = omega (arith, small) in
    let top : bit_or (high * 16 / 2 / 2 / 2 / 2) (low / 2 / 2 / 2 / 2) ≡ high =
      rw (e, z) (bit_or-zero high) in
    omega (
      arith,
      small,
      bit_or_step (high * 16) low,
      bit_or_step (high * 16 / 2) (low / 2),
      bit_or_step (high * 16 / 2 / 2) (low / 2 / 2),
      bit_or_step (high * 16 / 2 / 2 / 2) (low / 2 / 2 / 2),
      top,
    )

hex_byte-digits : (b : ℕ) → b < 256 → hex_byte (b / 16 % 16) (b % 16) ≡ b
hex_byte-digits b h = omega (arith, h, disjoint_nibbles (b / 16 % 16) (b % 16) (omega arith))

module _ (hex : Text) where
  hex_loop-digit :
      (d : ℕ) (high : Option ℕ) (bytes : List ℕ) (rest : Text)
      → d < 16
      → hex_loop hex high bytes (digit_char d ∷ rest) ≡ (elim high [
        | none ↦ hex_loop hex (some d) bytes rest
        | some h ↦ hex_loop hex none (bytes ++ hex_byte h d ∷ []) rest
      ])
  unfolding hex_loop
  hex_loop-digit d high bytes rest small =
      rw (digit_char-kept d small, hex_loop, hex_digit_value-digit_char d small) refl

  hex_loop-bytes_to_hex :
      (before bytes : List ℕ)
      → All IsByte bytes
      → hex_loop hex none before (bytes_to_hex bytes) ≡ ok (before ++ bytes)
  unfolding hex_loop bytes_to_hex
  hex_loop-bytes_to_hex before [] h = ap ok (sym (append-nil before))
  hex_loop-bytes_to_hex before (b ∷ bytes) (h, hs) =
      hex_loop-digit (b / 16 % 16) none before (digit_char (b % 16) ∷ bytes_to_hex bytes)
        (omega arith)
      ∙ hex_loop-digit (b % 16) (some (b / 16 % 16)) before (bytes_to_hex bytes) (omega arith)
      ∙ rw (hex_byte-digits b h) (
          hex_loop-bytes_to_hex (before ++ b ∷ []) bytes hs
          ∙ ap ok (append_assoc before (b ∷ []) bytes))

-- ParseHexBytes gives a list of bytes, each below 256, back from the text that BytesToHex prints of
-- it.
pub parse_hex_bytes-bytes_to_hex :
    (bytes : List ℕ) → All IsByte bytes → parse_hex_bytes (bytes_to_hex bytes) ≡ ok bytes
unfolding parse_hex_bytes
parse_hex_bytes-bytes_to_hex bytes h = hex_loop-bytes_to_hex (bytes_to_hex bytes) [] bytes h
