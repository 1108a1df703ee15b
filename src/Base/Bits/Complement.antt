-- ===== src/Base/Bits/Complement.antt =====
-- A mask and what its complement lets through are disjoint.
use Prim.Native.Nat.{ℕ, zero, suc, ◌-◌, ◌/◌, ◌%◌, ◌^◌, ◌<◌, min, differ, bit_and, bit_xor}
use mathlib.Core.Path.{◌≡◌, refl}
use native.Mathlib.Nat.{pow-suc, one-le-pow}
use native.Mathlib.Omega.{arith}
use remill_tester.Base.Bits.{not32, bit_and_step, bit_xor_step, bit_and-zero}

-- The low digit and the others of a conjunction.
bit_and_low : (v w : ℕ) → bit_and v w % 2 ≡ min (v % 2) (w % 2)
bit_and_low v w = omega (arith, bit_and_step v w)

bit_and_half : (v w : ℕ) → bit_and v w / 2 ≡ bit_and (v / 2) (w / 2)
bit_and_half v w = omega (arith, bit_and_step v w)

complement_disjoint :
    (k v w mask : ℕ) → w < 2 ^ k → bit_and (bit_and (bit_and v (2 ^ k - 1 - w)) mask) w ≡ 0
complement_disjoint zero v w mask h =
    let z : w ≡ 0 = omega arith in rw z (bit_and-zero (bit_and (bit_and v (2 ^ 0 - 1 - 0)) mask))
complement_disjoint (suc k) v w mask h =
    let c = 2 ^ suc k - 1 - w in
    let half : c / 2 ≡ 2 ^ k - 1 - w / 2 = omega (arith, h, pow-suc 2 k, one-le-pow k 2) in
    let low : c % 2 ≡ 1 - w % 2 = omega (arith, h, pow-suc 2 k, one-le-pow k 2) in
    let ih = complement_disjoint k (v / 2) (w / 2) (mask / 2) (omega (arith, h, pow-suc 2 k)) in
    let others : bit_and (bit_and (bit_and v c) mask / 2) (w / 2) ≡ 0 =
      rw (bit_and_half (bit_and v c) mask, bit_and_half v c, half) ih in
    omega (
      arith,
      bit_and_step (bit_and (bit_and v c) mask) w,
      others,
      bit_and_low (bit_and v c) mask,
      bit_and_low v c,
      low,
    )

differ-one : (d : ℕ) → d < 2 → differ d 1 ≡ 1 - d
differ-one zero h = refl
differ-one (suc zero) h = refl
differ-one (suc (suc d)) h = absurd (omega (arith, h))

-- `~w` on `k` bits.
bit_xor-ones : (k w : ℕ) → w < 2 ^ k → bit_xor w (2 ^ k - 1) ≡ 2 ^ k - 1 - w
bit_xor-ones zero w h = let z : w ≡ 0 = omega (arith, h) in rw z refl
bit_xor-ones (suc k) w h =
    let half : (2 ^ suc k - 1) / 2 ≡ 2 ^ k - 1 = omega (arith, pow-suc 2 k, one-le-pow k 2) in
    let odd : (2 ^ suc k - 1) % 2 ≡ 1 = omega (arith, pow-suc 2 k, one-le-pow k 2) in
    let ih = bit_xor-ones k (w / 2) (omega (arith, h, pow-suc 2 k)) in
    rw (bit_xor_step w (2 ^ suc k - 1), half, odd, ih, differ-one (w % 2) (omega arith))
      (omega (arith, h, pow-suc 2 k, one-le-pow k 2))

pub bit_and-not32 : (v w mask : ℕ) → w < 2 ^ 32 → bit_and (bit_and (bit_and v (not32 w)) mask) w ≡ 0
bit_and-not32 v w mask h = rw (bit_xor-ones 32 w h) (complement_disjoint 32 v w mask h)

-- A conjunction fits where its mask fits.
pub bit_and-lt : (k v mask : ℕ) → mask < 2 ^ k → bit_and v mask < 2 ^ k
bit_and-lt zero v mask h =
    let z : mask ≡ 0 = omega (arith, h) in rw z (omega (arith, bit_and-zero v))
bit_and-lt (suc k) v mask h = omega (
  arith,
  pow-suc 2 k,
  bit_and_step v mask,
  bit_and-lt k (v / 2) (mask / 2) (omega (arith, h, pow-suc 2 k)),
)
