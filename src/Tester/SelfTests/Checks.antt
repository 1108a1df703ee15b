-- ===== src/Tester/SelfTests/Checks.antt =====
-- src/tester_main.cpp: Require, and the checks of RunSelfTests on texts, the decoder and the memory.
use remill_tester.Base.{
  ℕ, ◌+◌, Bool, true, false, not, List, [], ◌∷◌, ◌++◌, Option, none, some, bit_and, ◌==◌,
  if◌then◌else◌, length, value_or,
}
use remill_tester.Base.Text.{Text, codes, same}
use remill_tester.Base.Map.{text_key}
use remill_tester.Base.Result.{Result, ok, err, ◌>>=◌}
use remill_tester.FlagMasks.{flag_af, flag_df, flag_id, user_rflags_mask}
use remill_tester.GuestMemory
use remill_tester.GuestMemory.{
  GuestMemory, MemoryFaultKind, empty_memory, page_size, map_range, clear_status,
}
use remill_tester.GuestMemory.MemoryPermissions
use remill_tester.GuestMemory.Transfer.{write_little_endian, read_little_endian}
use remill_tester.Intrinsics.{Operation, read_memory, write_memory, compare_exchange, fetch_and_op}
use remill_tester.Parser.Strings.{
  Parse, parse_hex_bytes, read_little_endian_scalar, canonical_state_key, parse_memory_address_key,
}
use remill_tester.XedMetadata.{XedMetadata}
use remill_tester.Tester.Run.{RunError}

-- A condition that Require is called with, and its message.
abbrev pub Check : Type 0
Check = Bool × Text

-- Require, one check after the other.
unfoldable pub require : List Check → Result RunError Text
require [] = ok []
require ((condition, message) ∷ checks) =
    let rest = require checks in
    if condition
    then rest
    else err (RunError.self_test_failed (codes "self-test failed: " ++ message))

abbrev pub is_number : Option ℕ → ℕ → Bool
is_number none n = false
is_number (some m) n = m == n

abbrev pub are_bytes : Option (List ℕ) → List ℕ → Bool
are_bytes none bytes = false
are_bytes (some found) bytes = same found bytes

unfoldable pub text_checks : Parse (List Check)
text_checks = do
  rax_bytes ← parse_hex_bytes (codes "04CCCCCCCCCCCCCC")
  rax ← read_little_endian_scalar rax_bytes
  flag_bytes ← parse_hex_bytes (codes "44000000")
  flags ← read_little_endian_scalar flag_bytes
  bracketed ← parse_memory_address_key (codes "mem[0x2000]")
  at_sign ← parse_memory_address_key (codes "mem@8192")
  ok (
      (length rax_bytes == 8, codes "rax byte count")
      ∷ (rax == 0xCCCCCCCCCCCCCC04, codes "little-endian register normalization")
      ∷ (flags == 0x44, codes "little-endian flags normalization")
      ∷ (same (canonical_state_key (codes "flags")) (codes "flag"), codes "flags key normalization")
      ∷ (value_or bracketed 0 == 0x2000, codes "memory key bracket syntax")
      ∷ (value_or at_sign 0 == 8192, codes "memory key at-sign syntax")
      ∷ (not (bit_and user_rflags_mask flag_df == 0), codes "DF is part of user flag mask")
      ∷ (not (bit_and user_rflags_mask flag_id == 0), codes "ID is part of user flag mask")
      ∷ [])

-- The checks of the decoder, and the metadata of `xor rax, rbx`.
unfoldable pub decoder_checks : (ℕ → List ℕ → XedMetadata) → Parse (List Check × XedMetadata)
decoder_checks decode = do
  xor_bytes ← parse_hex_bytes (codes "4831D8")
  not_bytes ← parse_hex_bytes (codes "48F7D1")
  let xor_meta = decode 0x1000 xor_bytes
  let not_meta = decode 0x1000 not_bytes
  ok (
    (xor_meta.ok, codes "XED decodes xor rax, rbx")
        ∷ (same xor_meta.iclass (codes "XOR"), codes "XED iclass for xor rax, rbx")
        ∷ (
          not (bit_and xor_meta.undefined_flags flag_af == 0),
          codes "XED marks AF undefined for XOR",
        )
        ∷ (
          bit_and xor_meta.comparable_written_flags flag_af == 0,
          codes "undefined AF is excluded from comparable mask",
        )
        ∷ (not_meta.ok, codes "XED decodes not rcx")
        ∷ (same not_meta.iclass (codes "NOT"), codes "XED iclass for not rcx")
        ∷ (not_meta.written_flags == 0, codes "NOT does not write user-mode RFLAGS")
        ∷ [],
    xor_meta,
  )

unfoldable pub has_unmapped_fault : GuestMemory → Bool
has_unmapped_fault m = elim m.last_fault [
  | none ↦ false
  | some fault ↦ elim fault.kind [ MemoryFaultKind.unmapped ↦ true | _ ↦ false ]
]

-- The memory behind a pointer that is not null.
abbrev behind : Option GuestMemory → GuestMemory
behind none = empty_memory
behind (some m) = m

unfoldable pub memory_checks : List Check
memory_checks =
    let (mapped, m1) =
      map_range empty_memory 0x1000 (page_size + page_size) MemoryPermissions.read_write in
    let (written, m2) = write_little_endian m1 0x1ffe 4 0xAABBCCDD in
    let (found, cross_page, m3) = read_little_endian m2 0x1ffe 4 in
    let (first, m4) = read_memory 4 (write_memory 4 (some m3) 0x1100 0x11223344) 0x1100 in
    let (expected, m5) = compare_exchange 4 m4 0x1100 0x11223344 0x55667788 in
    let (second, m6) = read_memory 4 m5 0x1100 in
    let (addend, m7) = fetch_and_op Operation.add 4 m6 0x1100 2 in
    let (third, m8) = read_memory 4 m7 0x1100 in
    let (byte, m9) = read_memory 1 (some (clear_status (behind m8))) 0x9000 in
    (mapped, codes "map two pages")
    ∷ (written, codes "cross-page little-endian write")
    ∷ (found, codes "cross-page little-endian read")
    ∷ (cross_page == 0xAABBCCDD, codes "cross-page value roundtrip")
    ∷ (first == 0x11223344, codes "Remill memory helpers read back written values")
    ∷ (expected == 0x11223344, codes "compare-exchange preserves matching expected")
    ∷ (second == 0x55667788, codes "compare-exchange writes desired value on match")
    ∷ (addend == 0x55667788, codes "fetch-add returns old value by reference")
    ∷ (third == 0x5566778A, codes "fetch-add stores updated value")
    ∷ (not (GuestMemory.ok (behind m9)), codes "unmapped helper read records a memory fault")
    ∷ (has_unmapped_fault (behind m9), codes "unmapped helper read records unmapped fault kind")
    ∷ []
