-- ===== src/Base/Bits/Step.antt =====
-- The bit operations of the library recurse on binary digits with a count of digits to go. Here are
-- their equations for the lowest digit, in which no count is left.
use Prim.Native.Nat.{ℕ, zero, suc, ◌+◌, ◌-◌, ◌*◌, ◌/◌, ◌%◌, ◌≤◌, min, max, digits, bitwise, differ}
use Prim.Native.Nat.{bit_and, bit_or, bit_xor, bit_and-bitwise, bit_or-bitwise, bit_xor-bitwise}
use mathlib.Core.Path.{◌≡◌, refl, ◌∙◌}
use native.Mathlib.Omega.{arith}

module _ (behind : ℕ → ℕ) (digit : ℕ → ℕ → ℕ) where
  -- A digit more in the count changes nothing once the count is large enough.
  digits-suc :
      (count m w : ℕ)
      → m ≤ count
      → digits behind digit (suc count) m w ≡ digits behind digit count m w
  digits-suc zero zero w le = refl
  digits-suc (suc count) zero w le = refl
  digits-suc zero (suc m) w le = absurd (omega arith)
  digits-suc (suc count) (suc m) w le = rw (digits-suc count (suc m / 2) (w / 2) (omega arith))

  digits-add :
      (more count m w : ℕ)
      → m ≤ count
      → digits behind digit (more + count) m w ≡ digits behind digit count m w
  digits-add zero count m w le = let e : 0 + count ≡ count = omega arith in rw e
  digits-add (suc more) count m w le =
      let e : suc more + count ≡ suc (more + count) = omega arith in
      rw e (digits-suc (more + count) m w (omega arith) ∙ digits-add more count m w le)

  bitwise_lowest :
      (m w : ℕ)
      → bitwise behind digit (suc m) w
        ≡ digit (suc m % 2) (w % 2) + 2 * bitwise behind digit (suc m / 2) (w / 2)
  bitwise_lowest m w =
      let half = suc m / 2 in
      let e : m - half + half ≡ m = omega arith in
      let enough = rw e at (digits-add (m - half) half half (w / 2) (omega arith)) in
      omega (arith, enough)

pub bit_or_step : (v w : ℕ) → bit_or v w ≡ max (v % 2) (w % 2) + 2 * bit_or (v / 2) (w / 2)
bit_or_step zero w = simp bit_or-bitwise (omega arith)
bit_or_step (suc v) w = simp bit_or-bitwise (bitwise_lowest (λ d. d) max v w)

pub bit_and_step : (v w : ℕ) → bit_and v w ≡ min (v % 2) (w % 2) + 2 * bit_and (v / 2) (w / 2)
bit_and_step zero w = simp bit_and-bitwise (omega arith)
bit_and_step (suc v) w = simp bit_and-bitwise (bitwise_lowest (λ d. 0) min v w)

pub zero-bit_or : (w : ℕ) → bit_or 0 w ≡ w
zero-bit_or w = simp bit_or-bitwise (omega arith)

pub bit_xor_step : (v w : ℕ) → bit_xor v w ≡ differ (v % 2) (w % 2) + 2 * bit_xor (v / 2) (w / 2)
bit_xor_step zero w = simp bit_xor-bitwise (omega arith)
bit_xor_step (suc v) w = simp bit_xor-bitwise (bitwise_lowest (λ d. d) differ v w)
