-- ===== src/Tester/Operands/Keys.antt =====
-- src/tester_main.cpp and src/remill_backend.cpp: the key under which decoded metadata and compiled
-- code are kept determines the address and the opcode.
use remill_tester.Base.{ℕ, ◌<◌, ◌^◌, ◌≡◌, refl, sym, ap, ◌∙◌, ◌∷◌, ◌↔◌, drop}
use remill_tester.Base.Text.{Text}
use remill_tester.Base.Chars.{scan_digits, is_digit_of, digit_value, is_digit}
use remill_tester.Base.Printing.{scan_digits-print_number}
use remill_tester.Expectation.{ExpectationRow}
use remill_tester.Tester.Operands.{decode_key}

scan_digits-stop : (n : ℕ) (rest : Text) → scan_digits 10 n (b'#' ∷ rest) ≡ (n, b'#' ∷ rest)
unfolding scan_digits is_digit_of digit_value is_digit
scan_digits-stop n rest = refl

scan_digits-decode_key :
    (row : ExpectationRow)
    → row.address < 2 ^ 64
    → scan_digits 10 0 (decode_key row) ≡ (row.address, b'#' ∷ row.opcode)
unfolding decode_key
scan_digits-decode_key row h =
    scan_digits-print_number row.address (b'#' ∷ row.opcode) h
    ∙ scan_digits-stop row.address row.opcode

-- Two rows whose addresses are 64-bit words have the same key exactly when they have the same
-- address and the same opcode.
pub decode_key-injective :
    (row other : ExpectationRow)
    → row.address < 2 ^ 64
    → other.address < 2 ^ 64
    → (decode_key row ≡ decode_key other)
      ↔ ((row.address ≡ other.address) × (row.opcode ≡ other.opcode))
unfolding decode_key
decode_key-injective row other h k = (
  (λ same_key.
      let read =
        sym (scan_digits-decode_key row h)
        ∙ ap (scan_digits 10 0) same_key
        ∙ scan_digits-decode_key other k in
      (ap (λ (p : ℕ × Text). p.0) read, ap (λ (p : ℕ × Text). drop 1 p.1) read)),
  (λ both. rw (both.0, both.1) refl),
)
