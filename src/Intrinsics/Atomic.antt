-- ===== src/Intrinsics/Atomic.antt =====
-- The read-modify-write intrinsics on accessible memory.
use remill_tester.Base.{
  ℕ, ◌+◌, ◌^◌, ◌≤◌, ◌<◌, ◌≡◌, ◌≢◌, ◌∙◌, ◌-◌, ◌%◌, ap, refl, arith, true, false, some, ◌==◌,
}
use native.Mathlib.Nat.{one-le-pow, mod-add-mod, add-mod_right, mod-eq_of_lt}
use remill_tester.GuestMemory.{GuestMemory}
use remill_tester.GuestMemory.MemoryPermissions
use remill_tester.GuestMemory.Access.{Accessible}
use remill_tester.GuestMemory.Scalar.{read-write_little_endian, write_little_endian-Accessible}
use remill_tester.GuestMemory.Transfer.{read_little_endian, write_little_endian}
use remill_tester.Intrinsics.{Operation, operate, fetch_and_op, compare_exchange, read_memory}

operate-lt :
    (op : Operation) (width current value : ℕ) → operate op width current value < 256 ^ width
unfolding operate
operate-lt Operation.add width current value = omega (arith, one-le-pow width 256)
operate-lt Operation.sub width current value = omega (arith, one-le-pow width 256)
operate-lt Operation.and width current value = omega (arith, one-le-pow width 256)
operate-lt Operation.or width current value = omega (arith, one-le-pow width 256)
operate-lt Operation.xor width current value = omega (arith, one-le-pow width 256)
operate-lt Operation.nand width current value = omega (arith, one-le-pow width 256)

module _ (m : GuestMemory) (address width current : ℕ) where
  -- On a word that starts below 2^64, ends at 2^64 at most, is writable and readable, and holds
  -- `current`, each fetch-and-op intrinsic hands back `current`, and ReadMemory then gives the
  -- operation's result on `current` and the operand.
  pub fetch_and_op-updates :
      (op : Operation) (value : ℕ)
      → address < 2 ^ 64
      → address + width ≤ 2 ^ 64
      → Accessible m MemoryPermissions.write address width
      → Accessible m MemoryPermissions.read address width
      → read_little_endian m address width ≡ (true, current, m)
      → ((fetch_and_op op width (some m) address value).0 ≡ current)
        × ((read_memory width (fetch_and_op op width (some m) address value).1 address).0
            ≡ operate op width current value)
  unfolding fetch_and_op read_memory
  fetch_and_op-updates op value ha fits writable readable holds =
      rw
        (
          holds,
          read-write_little_endian m address width (operate op width current value) ha fits
              (operate-lt op width current value) writable readable,
        )
        (refl, refl)

  -- On a word that starts below 2^64, ends at 2^64 at most, is writable and readable, and holds
  -- `current`, a compare-and-exchange with a desired value that fits the width stores it if
  -- `current` is the expected value, and hands that value back; otherwise it leaves the memory as
  -- it is and hands back `current`.
  pub compare_exchange-swaps :
      (expected desired : ℕ)
      → address < 2 ^ 64
      → address + width ≤ 2 ^ 64
      → desired < 256 ^ width
      → Accessible m MemoryPermissions.write address width
      → Accessible m MemoryPermissions.read address width
      → read_little_endian m address width ≡ (true, current, m)
      → (current ≡ expected
          → ((compare_exchange width (some m) address expected desired).0 ≡ expected)
            × ((read_memory width
                  (compare_exchange width (some m) address expected desired).1
                  address).0
                ≡ desired))
        × (current ≢ expected
            → compare_exchange width (some m) address expected desired ≡ (current, some m))
  unfolding compare_exchange read_memory
  compare_exchange-swaps expected desired ha fits small writable readable holds = rw holds (
    λ e.
        let t : (current == expected) ≡ true = ground arith in
        rw (t, read-write_little_endian m address width desired ha fits small writable readable)
          (refl, refl),
    λ ne. let f : (current == expected) ≡ false = ground arith in rw f refl,
  )

-- The operations of which the second takes back what the first does.
pub data Undoes : Operation → Operation → Type 0 where
  sub_add : Undoes Operation.sub Operation.add
  add_sub : Undoes Operation.add Operation.sub

wrap_sub-add :
    (modulus current value : ℕ)
    → current < modulus
    → value < modulus
    → ((current + value) % modulus + modulus - value) % modulus ≡ current
wrap_sub-add modulus current value small fits =
    let regroup : (current + value) % modulus + modulus - value
        ≡ (current + value) % modulus + (modulus - value) =
      omega arith in
    let sum : current + value + (modulus - value) ≡ current + modulus = omega arith in
    ap (λ (n : ℕ). n % modulus) regroup
    ∙ mod-add-mod (current + value) modulus (modulus - value)
    ∙ ap (λ (n : ℕ). n % modulus) sum
    ∙ add-mod_right current modulus
    ∙ mod-eq_of_lt small

wrap_add-sub :
    (modulus current value : ℕ)
    → current < modulus
    → value < modulus
    → ((current + modulus - value) % modulus + value) % modulus ≡ current
wrap_add-sub modulus current value small fits =
    let sum : current + modulus - value + value ≡ current + modulus = omega arith in
    mod-add-mod (current + modulus - value) modulus value
    ∙ ap (λ (n : ℕ). n % modulus) sum
    ∙ add-mod_right current modulus
    ∙ mod-eq_of_lt small

operate_undone :
    {op op' : Operation} (width current value : ℕ)
    → Undoes op' op
    → current < 256 ^ width
    → value < 256 ^ width
    → operate op' width (operate op width current value) value ≡ current
unfolding operate
operate_undone width current value sub_add small fits =
    wrap_sub-add (256 ^ width) current value small fits
operate_undone width current value add_sub small fits =
    wrap_add-sub (256 ^ width) current value small fits

fetch_and_op-writes :
    (m : GuestMemory) (address width current : ℕ) (op : Operation) (value : ℕ)
    → read_little_endian m address width ≡ (true, current, m)
    → fetch_and_op op width (some m) address value
      ≡ (current, some (write_little_endian m address width (operate op width current value)).1)
unfolding fetch_and_op
fetch_and_op-writes m address width current op value holds = rw holds refl

-- On a word that starts below 2^64, ends at 2^64 at most, is writable and readable, and holds
-- `current`, a fetch-and-add behind a fetch-and-sub of the same operand, or the other way round,
-- hands back what the first stored, and leaves `current` in the word, where `current` and the operand
-- fit the width, whatever wraps around.
pub fetch_and_op_undone :
    (m : GuestMemory) (address width current : ℕ) (op op' : Operation) (value : ℕ)
    → Undoes op' op
    → address < 2 ^ 64
    → address + width ≤ 2 ^ 64
    → current < 256 ^ width
    → value < 256 ^ width
    → Accessible m MemoryPermissions.write address width
    → Accessible m MemoryPermissions.read address width
    → read_little_endian m address width ≡ (true, current, m)
    → let first = (fetch_and_op op width (some m) address value).1 in
      let (stored, second) = fetch_and_op op' width first address value in
      (stored ≡ (read_memory width first address).0)
      × ((read_memory width second address).0 ≡ current)
unfolding read_memory
fetch_and_op_undone m address width current op op' value undoes ha fits small operand writable
      readable holds =
    let word = operate op width current value in
    let m1 = (write_little_endian m address width word).1 in
    let holds1 =
      read-write_little_endian m address width word ha fits (operate-lt op width current value)
        writable readable in
    let writable1 =
      write_little_endian-Accessible m address width word MemoryPermissions.write ha fits writable
        writable in
    let readable1 =
      write_little_endian-Accessible m address width word MemoryPermissions.read ha fits writable
        readable in
    let back =
      read-write_little_endian m1 address width current ha fits small writable1 readable1 in
    rw
      (
        fetch_and_op-writes m address width current op value holds,
        fetch_and_op-writes m1 address width word op' value holds1,
        operate_undone width current value undoes small operand,
      )
      (rw holds1 refl, rw back refl)
