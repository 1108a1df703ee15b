-- ===== src/Base/Bits.antt =====
-- Machine words as native numbers: wrap-around, masks and shifts, and the laws of `&` and `|` that
-- the bit operations of the library have at numerals only.
mod Step
pub mod Complement
pub use Step.{bit_or_step, bit_and_step, bit_xor_step, zero-bit_or}
use Prim.Native.Nat.{ℕ, zero, suc, ◌+◌, ◌-◌, ◌*◌, ◌/◌, ◌%◌, ◌^◌, ◌≤◌, ◌<◌, bit_and, bit_or, bit_xor}
use mathlib.Core.Path.{◌≡◌, refl, ap}
use native.Mathlib.Nat.{pow-suc, one-le-pow}
use native.Mathlib.Omega.{arith}

-- `uint64_t` sums and differences.
abbrev pub add64 : ℕ → ℕ → ℕ
add64 a b = (a + b) % 2 ^ 64

abbrev pub sub64 : ℕ → ℕ → ℕ
sub64 a b = (a + 2 ^ 64 - b) % 2 ^ 64

-- `~a` on `uint64_t` and `uint32_t`.
abbrev pub not64 : ℕ → ℕ
not64 a = bit_xor a (2 ^ 64 - 1)

abbrev pub not32 : ℕ → ℕ
not32 a = bit_xor a (2 ^ 32 - 1)

-- Both operations with 0 on the right, on a count that bounds the number.
zero_right : (count v : ℕ) → v ≤ count → (bit_or v 0 ≡ v) × (bit_and v 0 ≡ 0)
zero_right count zero le = (refl, refl)
zero_right zero (suc v) le = absurd (omega arith)
zero_right (suc count) (suc v) le =
    let (by_or, by_and) = zero_right count (suc v / 2) (omega arith) in
    (omega (arith, bit_or_step (suc v) 0, by_or), omega (arith, bit_and_step (suc v) 0, by_and))

pub bit_or-zero : (v : ℕ) → bit_or v 0 ≡ v
bit_or-zero v = (zero_right v v (omega arith)).0

pub bit_and-zero : (v : ℕ) → bit_and v 0 ≡ 0
bit_and-zero v = (zero_right v v (omega arith)).1

shifted : (high k : ℕ) → high * 2 ^ suc k ≡ 2 * (high * 2 ^ k)
shifted high k = omega (arith, ap (λ (power : ℕ). high * power) (pow-suc 2 k))

-- Disjoint fields: the high one shifted left, the low one below `2 ^ k`.
pub bit_or_fields : (k high low : ℕ) → low < 2 ^ k → bit_or low (high * 2 ^ k) ≡ low + high * 2 ^ k
bit_or_fields zero high low h =
    let e : low ≡ 0 = omega arith in rw (e, zero-bit_or (high * 2 ^ 0)) (omega arith)
bit_or_fields (suc k) high low h =
    let half = bit_or_fields k high (low / 2) (omega arith) in
    ground (arith, half, shifted high k, bit_or_step low (high * 2 ^ suc k))

low_field : (k high low : ℕ) → low < 2 ^ k → bit_and (high * 2 ^ k + low) (2 ^ k - 1) ≡ low
low_field zero high low h = ground (arith, bit_and-zero (high + low), bit_and-zero high)
low_field (suc k) high low h =
    let half = low_field k high (low / 2) (omega arith) in
    let step = bit_and_step (high * 2 ^ suc k + low) (2 ^ suc k - 1) in
    ground (arith, half, step, shifted high k, pow-suc 2 k, one-le-pow k 2)

-- A mask of the `k` low bits is the remainder by `2 ^ k`.
pub bit_and_mask : (k v : ℕ) → bit_and v (2 ^ k - 1) ≡ v % 2 ^ k
bit_and_mask k v =
    let some_power = one-le-pow k 2 in
    ground (arith, some_power, low_field k (v / 2 ^ k) (v % 2 ^ k))

-- A mask of high bits does not see the `k` low ones.
pub bit_and_high :
    (k high low mask : ℕ)
    → low < 2 ^ k
    → bit_and (high * 2 ^ k + low) (mask * 2 ^ k) ≡ bit_and high mask * 2 ^ k
bit_and_high zero high low mask h = ground arith
bit_and_high (suc k) high low mask h =
    let half = bit_and_high k high (low / 2) mask (omega arith) in
    ground (
      arith,
      half,
      bit_and_step (high * 2 ^ suc k + low) (mask * 2 ^ suc k),
      shifted high k,
      shifted mask k,
      shifted (bit_and high mask) k,
    )
