-- ===== src/Base/LittleEndian.antt =====
-- Little-endian byte strings: the loops that join and split the bytes of a scalar, and their meaning
-- as base-256 numbers.
use native.Mathlib.Nat.{pow-suc, mul_comm, div-div-eq-div-mul}
use native.Mathlib.Numerals.{towards_suc}
use Prim.Native.Nat.{ℕ, zero, suc, ◌+◌, ◌*◌, ◌/◌, ◌%◌, ◌^◌, ◌<◌, bit_and, bit_or}
use mathlib.Core.Path.{◌≡◌, refl, sym, ap}
use mathlib.Core.List.{List, [], ◌∷◌}
use native.Mathlib.Omega.{arith}
use remill_tester.Base.Bits.{bit_and_mask, bit_or_fields}
use remill_tester.Base.Lists.{length, All}

-- The two loops over the bytes of a scalar; `i` is the byte's index.
unfoldable pub join_bytes : ℕ → List ℕ → ℕ → ℕ
join_bytes i [] value = value
join_bytes i (b ∷ bytes) value = join_bytes (i + 1) bytes (bit_or value (b * 2 ^ (i * 8)))

unfoldable pub split_bytes : ℕ → ℕ → ℕ → List ℕ
split_bytes i zero value = []
split_bytes i (suc left) value = bit_and (value / 2 ^ (i * 8)) 0xff ∷ split_bytes (i + 1) left value

-- The number that the bytes stand for, the lowest first.
abbrev pub le_value : List ℕ → ℕ
le_value [] = 0
le_value (b ∷ bytes) = b + 256 * le_value bytes

abbrev pub le_bytes : ℕ → ℕ → List ℕ
le_bytes zero w = []
le_bytes (suc n) w = w % 256 ∷ le_bytes n (w / 256)

abbrev pub IsByte : ℕ → Type 0
IsByte b = b < 256

pow_eight : (i : ℕ) → 2 ^ ((i + 1) * 8) ≡ 256 * 2 ^ (i * 8)
pow_eight i = let e : (i + 1) * 8 ≡ i * 8 + 8 = omega arith in rw e (simp towards_suc (omega arith))

join_fits : (acc b p : ℕ) → acc < p → b < 256 → acc + b * p < 256 * p
join_fits acc b p h hb = grind arith

pub join_bytes-le_value :
    (i : ℕ) (bytes : List ℕ) (acc : ℕ)
    → acc < 2 ^ (i * 8)
    → All IsByte bytes
    → join_bytes i bytes acc ≡ acc + le_value bytes * 2 ^ (i * 8)
unfolding join_bytes
join_bytes-le_value i [] acc h bs = omega arith
join_bytes-le_value i (b ∷ bytes) acc h bs = rw (bit_or_fields (i * 8) b acc h) (
    omega (
      arith,
      pow_eight i,
      join_fits acc b (2 ^ (i * 8)) h bs.0,
      join_bytes-le_value (i + 1) bytes (acc + b * 2 ^ (i * 8))
          (rw pow_eight (join_fits acc b (2 ^ (i * 8)) h bs.0)) bs.1,
      ap (λ (t : ℕ). le_value bytes * t) (pow_eight i),
    ))

pub split_bytes-le_bytes : (i n v : ℕ) → split_bytes i n v ≡ le_bytes n (v / 2 ^ (i * 8))
unfolding split_bytes
split_bytes-le_bytes i zero v = refl
split_bytes-le_bytes i (suc n) v =
    let e : v / 2 ^ ((i + 1) * 8) ≡ v / 2 ^ (i * 8) / 256 =
      rw (pow_eight i, mul_comm 256 (2 ^ (i * 8))) (sym (div-div-eq-div-mul v (2 ^ (i * 8)) 256)) in
    let digit : bit_and (v / 2 ^ (i * 8)) 255 ≡ v / 2 ^ (i * 8) % 256 =
      bit_and_mask 8 (v / 2 ^ (i * 8)) in
    rw (digit, split_bytes-le_bytes (i + 1) n v, e)

pub le_bytes-IsByte : (n w : ℕ) → All IsByte (le_bytes n w)
le_bytes-IsByte zero w = tt
le_bytes-IsByte (suc n) w = (omega arith, le_bytes-IsByte n (w / 256))

pub length-le_bytes : (n w : ℕ) → length (le_bytes n w) ≡ n
length-le_bytes zero w = refl
length-le_bytes (suc n) w = ap suc (length-le_bytes n (w / 256))

pub le_value-le_bytes : (n w : ℕ) → w < 256 ^ n → le_value (le_bytes n w) ≡ w
le_value-le_bytes zero w h = omega arith
le_value-le_bytes (suc n) w h =
    omega (arith, pow-suc 256 n, le_value-le_bytes n (w / 256) (omega (arith, pow-suc 256 n)))
