-- ===== src/StateBridge/Flags.antt =====
-- RFLAGS: what GetFlags assembles from what SetFlags has taken apart.
use remill_tester.Base.{
  ℕ, zero, suc, ◌+◌, ◌-◌, ◌*◌, ◌/◌, ◌%◌, ◌^◌, ◌<◌, ◌≡◌, sym, arith, true, false, bit_and, bit_or,
  ◌==◌, Bool-cases, inl, inr, refl, not64, bit_or_step, bit_and_step, bit_or-zero, bit_and_mask,
  bit_and_high,
}
use native.Mathlib.Nat.{pow-suc, one-le-pow, div-div-eq-div-mul, mul_comm, mod-eq_of_lt}
use remill_tester.StateBridge.{State, any_bit, set_flags, set_or_clear, get_flags}

bit_and-pow : (k f : ℕ) → bit_and f (2 ^ k) ≡ f / 2 ^ k % 2 * 2 ^ k
bit_and-pow k f = ground (
  arith,
  one-le-pow k 2,
  bit_and_high k (f / 2 ^ k) (f % 2 ^ k) 1 (omega (arith, one-le-pow k 2)),
  bit_and_mask 1 (f / 2 ^ k),
)

div-pow : (k f : ℕ) → f / 2 ^ suc k ≡ f / 2 / 2 ^ k
div-pow k f = rw (pow-suc 2 k, mul_comm (2 ^ k) 2) (sym (div-div-eq-div-mul f 2 (2 ^ k)))

bit_or-pow : (k f : ℕ) → f / 2 ^ k % 2 ≡ 1 → bit_or f (2 ^ k) ≡ f
bit_or-pow zero f h = omega (arith, h, bit_or_step f 1, bit_or-zero (f / 2))
bit_or-pow (suc k) f h =
    let half : 2 ^ suc k / 2 ≡ 2 ^ k = omega (arith, pow-suc 2 k) in
    let even : 2 ^ suc k % 2 ≡ 0 = omega (arith, pow-suc 2 k) in
    let ih = bit_or-pow k (f / 2) (rw (div-pow k f) at h) in
    rw (bit_or_step f (2 ^ suc k), half, even, ih) (omega arith)

below_pow : (k n : ℕ) → k < n → 2 ^ k < 2 ^ n
below_pow k zero h = absurd (omega arith)
below_pow zero (suc n) h = omega (arith, pow-suc 2 n, one-le-pow n 2)
below_pow (suc k) (suc n) h = omega (arith, pow-suc 2 k, pow-suc 2 n, below_pow k n (omega arith))

-- Clearing a bit that is not set.
bit_and-cleared :
    (k n f : ℕ) → k < n → f < 2 ^ n → f / 2 ^ k % 2 ≡ 0 → bit_and f (2 ^ n - 1 - 2 ^ k) ≡ f
bit_and-cleared k zero f hk hf h = absurd (omega arith)
bit_and-cleared zero (suc n) f hk hf h =
    let half : (2 ^ suc n - 1 - 2 ^ 0) / 2 ≡ 2 ^ n - 1 =
      omega (arith, pow-suc 2 n, one-le-pow n 2) in
    let even : (2 ^ suc n - 1 - 2 ^ 0) % 2 ≡ 0 = omega (arith, pow-suc 2 n, one-le-pow n 2) in
    let low : f / 2 % 2 ^ n ≡ f / 2 = mod-eq_of_lt (omega (arith, pow-suc 2 n)) in
    rw (bit_and_step f (2 ^ suc n - 1 - 2 ^ 0), half, even, bit_and_mask n (f / 2), low)
      (omega arith)
bit_and-cleared (suc k) (suc n) f hk hf h =
    let le : 2 ^ k < 2 ^ n = below_pow k n (omega arith) in
    let half : (2 ^ suc n - 1 - 2 ^ suc k) / 2 ≡ 2 ^ n - 1 - 2 ^ k =
      omega (arith, pow-suc 2 n, pow-suc 2 k, le) in
    let odd : (2 ^ suc n - 1 - 2 ^ suc k) % 2 ≡ 1 = omega (arith, pow-suc 2 n, pow-suc 2 k, le) in
    let ih =
      bit_and-cleared k n (f / 2) (omega arith) (omega (arith, pow-suc 2 n))
        (rw (div-pow k f) at h) in
    rw (bit_and_step f (2 ^ suc n - 1 - 2 ^ suc k), half, odd, ih) (omega arith)

set_or_clear-same :
    (k f flags : ℕ)
    → k < 64
    → not64 (2 ^ k) ≡ 2 ^ 64 - 1 - 2 ^ k
    → f < 2 ^ 64
    → f / 2 ^ k % 2 ≡ flags / 2 ^ k % 2
    → set_or_clear f (2 ^ k) (any_bit flags (2 ^ k)) ≡ f
unfolding set_or_clear
set_or_clear-same k f flags hk mask hf h = elim (Bool-cases (flags / 2 ^ k % 2 == 0)) [
  | inl clear ↦
      let z : flags / 2 ^ k % 2 ≡ 0 = ground arith in
      let zeroed : (0 * 2 ^ k == 0) ≡ true = ground arith in
      rw (bit_and-pow k flags, z, zeroed, mask) (bit_and-cleared k 64 f hk hf (omega (arith, h, z)))
  | inr set ↦
      let o : flags / 2 ^ k % 2 ≡ 1 = ground arith in
      let nonzero : (1 * 2 ^ k == 0) ≡ false = ground (arith, one-le-pow k 2) in
      rw (bit_and-pow k flags, o, nonzero) (bit_or-pow k f (omega (arith, h, o)))
]

-- GetFlags after SetFlags of a value below 2^64 gives that value with the reserved bit 1 set.
pub get_flags-set_flags :
    (s : State) (flags : ℕ) → flags < 2 ^ 64 → get_flags (set_flags s flags) ≡ bit_or flags 2
unfolding get_flags set_flags
get_flags-set_flags s flags h =
    let bits : bit_or flags 2 ≡ flags / 4 * 4 + 2 + flags % 2 =
      omega (arith, bit_or_step flags 2, bit_or_step (flags / 2) 1, bit_or-zero (flags / 2 / 2)) in
    let fits : bit_or flags 2 < 2 ^ 64 = omega (arith, bits, h) in
    let same = λ (k : ℕ) (hk : k < 64) (mask : not64 (2 ^ k) ≡ 2 ^ 64 - 1 - 2 ^ k).
      set_or_clear-same k (bit_or flags 2) flags hk mask fits in
    rw
      (
        bit_or-pow 1 (bit_or flags 2) (omega (arith, bits)),
        same 0 (omega arith) refl (omega (arith, bits)),
        same 2 (omega arith) refl (omega (arith, bits)),
        same 4 (omega arith) refl (omega (arith, bits)),
        same 6 (omega arith) refl (omega (arith, bits)),
        same 7 (omega arith) refl (omega (arith, bits)),
        same 10 (omega arith) refl (omega (arith, bits)),
        same 11 (omega arith) refl (omega (arith, bits)),
      )
      refl
