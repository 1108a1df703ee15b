-- ===== src/Intrinsics.antt =====
-- src/remill_intrinsics.cpp: the memory intrinsics that lifted code calls, for operands of `width`
-- bytes. `none` is a memory pointer that is null.
pub mod Atomic
pub mod Calls
pub mod Refines
pub mod Symbols
use remill_tester.Base.{
  ℕ, ◌+◌, ◌-◌, ◌^◌, ◌%◌, bit_and, bit_or, bit_xor, Bool, true, false, Option, none, some, ◌==◌,
  if◌then◌else◌,
}
use remill_tester.Base.Text.{Text, codes}
use remill_tester.GuestMemory.{GuestMemory, set_unsupported}
use remill_tester.GuestMemory.Transfer.{read_little_endian, write_little_endian}

unfoldable pub read_memory : ℕ → Option GuestMemory → ℕ → ℕ × Option GuestMemory
read_memory width none address = (0, none)
read_memory width (some m) address =
    let (found, value, m') = read_little_endian m address width in (value, some m')

unfoldable pub write_memory : ℕ → Option GuestMemory → ℕ → ℕ → Option GuestMemory
write_memory width none address value = none
write_memory width (some m) address value = some (write_little_endian m address width value).1

-- The operations of the DEFINE_FETCH_AND_OP lines.
pub data Operation : Type 0 where
  add sub and or xor nand : Operation

-- The operation on two words, and the cast of its result to `width` bytes.
unfoldable pub operate : Operation → ℕ → ℕ → ℕ → ℕ
operate add width current value = (current + value) % 256 ^ width
operate sub width current value = (current + 256 ^ width - value) % 256 ^ width
operate and width current value = bit_and current value % 256 ^ width
operate or width current value = bit_or current value % 256 ^ width
operate xor width current value = bit_xor current value % 256 ^ width
operate nand width current value = bit_xor (bit_and current value) (256 ^ width - 1) % 256 ^ width

-- FetchAndOp: what the reference `value` holds behind it, and the memory.
unfoldable pub fetch_and_op : Operation → ℕ → Option GuestMemory → ℕ → ℕ → ℕ × Option GuestMemory
fetch_and_op op width none address value = (value, none)
fetch_and_op op width (some m) address value =
    let (found, current, m') = read_little_endian m address width in
    if found
    then (current, some (write_little_endian m' address width (operate op width current value)).1)
    else (value, some m')

-- CompareExchange: what the reference `expected` holds behind it, and the memory.
unfoldable pub compare_exchange : ℕ → Option GuestMemory → ℕ → ℕ → ℕ → ℕ × Option GuestMemory
compare_exchange width none address expected desired = (expected, none)
compare_exchange width (some m) address expected desired =
    let (found, current, m') = read_little_endian m address width in
    if found
    then (if current == expected
        then (expected, some (write_little_endian m' address width desired).1)
        else (current, some m'))
    else (expected, some m')

unfoldable pub mark_unsupported : Option GuestMemory → ℕ → Text → Option GuestMemory
mark_unsupported none address detail = none
mark_unsupported (some m) address detail = some (set_unsupported m address detail)

-- `__remill_undefined_8` to `__remill_undefined_64`.
abbrev pub undefined_word : ℕ
undefined_word = 0

unfoldable pub remill_error : ℕ → Option GuestMemory → Option GuestMemory
unfolding mark_unsupported
remill_error address memory = mark_unsupported memory address (codes "__remill_error")

unfoldable pub missing_block : ℕ → Option GuestMemory → Option GuestMemory
unfolding mark_unsupported
missing_block address memory = mark_unsupported memory address (codes "__remill_missing_block")

unfoldable pub async_hyper_call : ℕ → Option GuestMemory → Option GuestMemory
unfolding mark_unsupported
async_hyper_call address memory =
    mark_unsupported memory address (codes "__remill_async_hyper_call")
