-- ===== src/Tester/SelfTests.antt =====
-- src/tester_main.cpp: RunSelfTests. A map without the key that is asked for counts as a failed check.
pub mod Checks
use remill_tester.Base.{
  ℕ, ◌+◌, Bool, true, false, not, List, [], ◌∷◌, ◌++◌, Option, none, some, bit_and, bit_or, ◌==◌,
  if◌then◌else◌, length, empty_list, value_or, has_value,
}
use remill_tester.Base.Text.{Text, codes, same}
use remill_tester.Base.Map.{find, text_key}
use remill_tester.Base.Result.{Result, ok, err, ◌>>=◌, map_error}
use remill_tester.Expectation.{ExpectationRow, fresh_row, ExecutionResult, OutcomeClass}
use remill_tester.FlagMasks.{
  flag_cf, flag_pf, flag_af, flag_zf, flag_sf, flag_tf, flag_if, flag_df, flag_of, flag_iopl,
  flag_nt, flag_rf, flag_ac, flag_id, user_rflags_mask,
}
use remill_tester.GuestMemory
use remill_tester.GuestMemory.{
  GuestMemory, MemoryFaultKind, empty_memory, page_size, map_range, clear_status,
}
use remill_tester.GuestMemory.MemoryPermissions
use remill_tester.GuestMemory.Transfer.{write_little_endian, read_little_endian}
use remill_tester.Intrinsics.{Operation, read_memory, write_memory, compare_exchange, fetch_and_op}
use remill_tester.Parser.Strings.{
  Parse, parse_hex_bytes, read_little_endian_scalar, canonical_state_key, parse_memory_address_key,
}
use remill_tester.StateBridge.{
  zero_state, reset_state, get_scalar_register, set_scalar_register, get_byte_register,
  set_byte_register, get_flags, set_flags,
}
use remill_tester.StateBridge.Sparse.{apply_initial_state, snapshot_state, snapshot_bytes}
use remill_tester.XedMetadata.{XedMetadata}
use remill_tester.Comparator.Compare.{ComparisonResult, compare_execution_result}
use remill_tester.Comparator.Report.{format_mismatch}
use remill_tester.Backend.{LiftedFunction}
use remill_tester.Backend.Pending.{Toolchain, fresh_backend}
use remill_tester.Backend.Compiler.{run_row}
use remill_tester.Tester.Run.{RunError}
use remill_tester.Tester.SelfTests.Checks.{
  Check, require, is_number, are_bytes, text_checks, decoder_checks, memory_checks,
}

-- The flags that `|` joins.
abbrev flags_of : List ℕ → ℕ
flags_of [] = 0
flags_of (flag ∷ flags) = bit_or flag (flags_of flags)

abbrev user_flags : ℕ
user_flags = flags_of (
    flag_cf ∷ flag_pf ∷ flag_af ∷ flag_zf ∷ flag_sf ∷ flag_tf ∷ flag_if ∷ flag_df ∷ flag_of
    ∷ flag_iopl ∷ flag_nt ∷ flag_rf ∷ flag_ac ∷ flag_id ∷ [])

abbrev xmm_value : List ℕ
xmm_value = 0 ∷ 1 ∷ 2 ∷ 3 ∷ 4 ∷ 5 ∷ 6 ∷ 7 ∷ 8 ∷ 9 ∷ 10 ∷ 11 ∷ 12 ∷ 13 ∷ 14 ∷ 15 ∷ []

abbrev mm_value : List ℕ
mm_value = 0x10 ∷ 0x20 ∷ 0x30 ∷ 0x40 ∷ 0x50 ∷ 0x60 ∷ 0x70 ∷ 0x80 ∷ []

abbrev xor_row : ExpectationRow
xor_row = record fresh_row {
  address = 0x4000001;
  opcode = codes "4831D8";
  instruction = codes "xor rax, rbx";
  initial_state = (codes "flag", 0) ∷ (codes "rax", 0xff) ∷ (codes "rbx", 0x0f) ∷ [];
}

abbrev not_mem_row : ExpectationRow
not_mem_row = record fresh_row {
  address = 0x4001000;
  opcode = codes "48F710";
  instruction = codes "not qword ptr [rax]";
  initial_state = (codes "flag", 0) ∷ (codes "rax", 0x2000) ∷ [];
  initial_memory =
      record {
        address = 0x2000;
        bytes = 0xff ∷ 0x00 ∷ 0xff ∷ 0x00 ∷ 0xff ∷ 0x00 ∷ 0xff ∷ 0x00 ∷ [];
        permissions = MemoryPermissions.read_write;
      }
      ∷ [];
  expected_memory =
      record {
        address = 0x2000;
        bytes = 0x00 ∷ 0xff ∷ 0x00 ∷ 0xff ∷ 0x00 ∷ 0xff ∷ 0x00 ∷ 0xff ∷ [];
        mask = [];
      }
      ∷ [];
}

unfoldable pub is_normal_outcome : OutcomeClass → Bool
is_normal_outcome OutcomeClass.normal = true
is_normal_outcome _ = false

unfoldable pub comparison_message : ComparisonResult → Text
comparison_message comparison = elim comparison.mismatches [
  | [] ↦ codes "Remill memory smoke failed"
  | mismatch ∷ rest ↦ format_mismatch not_mem_row mismatch
]

module _ (num_vec_registers : ℕ) where
  -- The checks of the named registers, the flags and the snapshots.
  unfoldable pub state_checks : List Check
  state_checks =
      let (set_rax, s1) = set_scalar_register (reset_state zero_state) (codes "rax") 0x1234 in
      let (set_r15, s2) = set_scalar_register s1 (codes "r15") 0x5678 in
      let (set_rip, s3) = set_scalar_register s2 (codes "rip") 0x4000001 in
      let s4 = set_flags s3 user_flags in
      let carry_and_direction = bit_or flag_cf flag_df in
      let (apply_error, s5) =
        apply_initial_state num_vec_registers s4
          ((codes "flag", carry_and_direction) ∷ (codes "rax", 0xAAAAAAAAAAAAAAAA) ∷ []) [] in
      let snapshot = snapshot_state s5 (codes "rax" ∷ codes "flag" ∷ []) in
      let (set_xmm, s6) = set_byte_register num_vec_registers s5 (codes "xmm5") xmm_value in
      let (set_mm, s7) = set_byte_register num_vec_registers s6 (codes "mm3") mm_value in
      (set_rax, codes "set rax")
      ∷ (set_r15, codes "set r15")
      ∷ (set_rip, codes "set rip")
      ∷ (is_number (get_scalar_register s3 (codes "rax")) 0x1234, codes "get rax")
      ∷ (is_number (get_scalar_register s3 (codes "r15")) 0x5678, codes "get r15")
      ∷ (is_number (get_scalar_register s3 (codes "rip")) 0x4000001, codes "get rip")
      ∷ (
        bit_and (get_flags s4) user_rflags_mask == user_flags,
        codes "pack/unpack all user-mode RFLAGS bits",
      )
      ∷ (not (has_value apply_error), codes "apply sparse initial state")
      ∷ (is_number (find (codes "rax") snapshot) 0xAAAAAAAAAAAAAAAA, codes "snapshot rax")
      ∷ (
        bit_and (value_or (find (codes "flag") snapshot) 0) carry_and_direction
            == carry_and_direction,
        codes "snapshot flags",
      )
      ∷ (set_xmm, codes "set xmm5 bytes")
      ∷ (
        are_bytes (get_byte_register num_vec_registers s6 (codes "xmm5")) xmm_value,
        codes "get xmm5 bytes",
      )
      ∷ (
        are_bytes (find (codes "xmm5") (snapshot_bytes num_vec_registers s6 (codes "xmm5" ∷ [])))
            xmm_value,
        codes "snapshot xmm5 bytes",
      )
      ∷ (set_mm, codes "set mm3 bytes")
      ∷ (
        are_bytes (get_byte_register num_vec_registers s7 (codes "mm3")) mm_value,
        codes "get mm3 bytes",
      )
      ∷ (
        are_bytes (find (codes "mm3") (snapshot_bytes num_vec_registers s7 (codes "mm3" ∷ [])))
            mm_value,
        codes "snapshot mm3 bytes",
      )
      ∷ []

  -- What is asked of the result of `xor rax, rbx`.
  unfoldable pub xor_checks : XedMetadata → ExecutionResult → List Check
  xor_checks xor_meta result =
      let comparable = xor_meta.comparable_written_flags in
      (
        is_normal_outcome result.outcome_class,
        value_or result.backend_error
            (value_or result.exception_detail (codes "Remill smoke failed")),
      )
      ∷ (
        is_number (find (codes "rax") result.final_state) 0xf0,
        codes "Remill smoke computes xor rax, rbx",
      )
      ∷ (
        bit_and (value_or (find (codes "flag") result.final_state) 0) comparable
            == bit_and flag_pf comparable,
        codes "Remill smoke flags match comparable XED-defined XOR flags",
      )
      ∷ []

  unfoldable pub not_mem_checks : XedMetadata → ExecutionResult → List Check
  not_mem_checks not_mem_meta result =
      let comparison = compare_execution_result num_vec_registers not_mem_row not_mem_meta result in
      (not_mem_meta.ok, codes "XED decodes not qword ptr [rax]")
      ∷ (
        not (empty_list not_mem_meta.memory_operands),
        codes "XED reports memory operand for not qword ptr [rax]",
      )
      ∷ (comparison.passed, comparison_message comparison)
      ∷ []

  module _ (decode : ℕ → List ℕ → XedMetadata) (lookup : Text → Result Text LiftedFunction)
      (toolchain : Toolchain) where
    -- RunSelfTests: what it writes, if no check fails.
    unfoldable pub run_self_tests : Result RunError Text
    run_self_tests = do
      texts ← map_error RunError.in_row text_checks
      texts_hold ← require texts
      (decoders, xor_meta) ← map_error RunError.in_row (decoder_checks decode)
      decoders_hold ← require decoders
      memory_holds ← require memory_checks
      state_holds ← require state_checks
      (xor_result, backend) ← map_error RunError.in_row (
          run_row lookup toolchain num_vec_registers xor_row (codes "rax" ∷ codes "flag" ∷ [])
            fresh_backend)
      xor_holds ← require (xor_checks xor_meta xor_result)
      not_mem_bytes ← map_error RunError.in_row (parse_hex_bytes (codes "48F710"))
      (not_mem_result, backend') ←
          map_error RunError.in_row
            (run_row lookup toolchain num_vec_registers not_mem_row [] backend)
      not_mem_holds ← require (not_mem_checks (decode 0x4001000 not_mem_bytes) not_mem_result)
      ok (codes "self-test: ok\n")
