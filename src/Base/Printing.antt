-- ===== src/Base/Printing.antt =====
-- A number that is printed in decimal is read back, whatever follows it.
use remill_tester.Base.{
  ℕ, zero, suc, ◌+◌, ◌*◌, ◌/◌, ◌%◌, ◌^◌, ◌<◌, ◌≡◌, refl, ◌∙◌, arith, true, [], ◌∷◌, ◌++◌, ◌==◌,
  Bool-cases, inl, inr, ltb, some,
}
use native.Mathlib.Nat.{pow-suc}
use remill_tester.Base.Text.{Text}
use remill_tester.Base.Chars.{
  is_digit_of, is_digit, digit_value, digit_char, scan_digits, print_digits, print_number,
}

print_digits-append :
    (fuel n : ℕ) (text rest : Text)
    → print_digits 10 fuel n text ++ rest ≡ print_digits 10 fuel n (text ++ rest)
unfolding print_digits
print_digits-append zero n text rest = refl
print_digits-append (suc fuel) n text rest =
    ground (arith, print_digits-append fuel (n / 10) (digit_char (n % 10) ∷ text) rest)

digit_value-digit_char : (d : ℕ) → d < 10 → digit_value (digit_char d) ≡ some d
unfolding digit_char digit_value is_digit
digit_value-digit_char d h =
    let low : ltb d 10 ≡ true = ground (arith, h) in rw low (ground (arith, h))

scan_digits-digit :
    (acc c d : ℕ) (rest : Text)
    → digit_value c ≡ some d
    → d < 10
    → scan_digits 10 acc (c ∷ rest) ≡ scan_digits 10 (acc * 10 + d) rest
unfolding scan_digits is_digit_of
scan_digits-digit acc c d rest value h =
    let low : ltb d 10 ≡ true = ground (arith, h) in ground (arith, value, low)

scan_digits-print_digits :
    (fuel n : ℕ) (rest : Text)
    → n < 10 ^ fuel
    → scan_digits 10 0 (print_digits 10 fuel n rest) ≡ scan_digits 10 n rest
unfolding print_digits
scan_digits-print_digits zero n rest h = let z : n ≡ 0 = omega (arith, h) in rw z refl
scan_digits-print_digits (suc fuel) n rest h =
    let e : n / 10 * 10 + n % 10 ≡ n = omega arith in
    let small : n / 10 < 10 ^ fuel = let p = pow-suc 10 fuel in omega (arith, h, p) in
    let rec = scan_digits-print_digits fuel (n / 10) (digit_char (n % 10) ∷ rest) small in
    let last : scan_digits 10 (n / 10) (digit_char (n % 10) ∷ rest) ≡ scan_digits 10 n rest =
      scan_digits-digit (n / 10) (digit_char (n % 10)) (n % 10) rest
        (digit_value-digit_char (n % 10) (omega arith)) (omega arith)
      ∙ rw e refl in
    elim (Bool-cases (n == 0)) [
      | inl z ↦ let zero_n : n ≡ 0 = ground (arith, z) in rw (z, zero_n) refl
      | inr z ↦ rw z (rec ∙ last)
    ]

pub scan_digits-print_number :
    (n : ℕ) (rest : Text)
    → n < 2 ^ 64
    → scan_digits 10 0 (print_number 10 n ++ rest) ≡ scan_digits 10 n rest
unfolding print_number digit_char
scan_digits-print_number n rest h =
    let joined = print_digits-append 64 n [] rest in
    let read_back = scan_digits-print_digits 64 n rest (omega (arith, h)) in
    elim (Bool-cases (n == 0)) [
      | inl z ↦
          let zero_n : n ≡ 0 = ground (arith, z) in
          rw (z, zero_n)
            (scan_digits-digit 0 b'0' 0 rest (digit_value-digit_char 0 (omega arith)) (omega arith))
      | inr z ↦ rw z (rw joined read_back)
    ]
