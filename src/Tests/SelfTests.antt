-- ===== src/Tests/SelfTests.antt =====
-- RunSelfTests with a decoder and lifted functions that do what it asks for.
use remill_tester.GuestMemory
use remill_tester.StateBridge
use remill_tester.Base.{
  ℕ, ◌-◌, ◌≡◌, refl, true, false, List, [], ◌∷◌, Option, none, some, if◌then◌else◌, bit_xor,
}
use remill_tester.Base.Text.{Text, codes}
use remill_tester.Base.Result.{Result, ok, err}
use remill_tester.GuestMemory.{GuestMemory}
use remill_tester.StateBridge.{State, Gpr}
use remill_tester.XedMetadata.{XedMetadata, fresh_metadata}
use remill_tester.FlagMasks.{flag_af, flag_pf}
use remill_tester.Backend.{LiftedFunction}
use remill_tester.Tests.Backends.{toolchain}
use remill_tester.Backend.{
  supports_case, is_unsupported_compile_error, load_cells, load_memory, observe, fault_detail,
  report_fault, observe_run, start_state, run_compiled, run_case,
}
use remill_tester.Backend.Compiler.{
  name_of, set_function, function_at, with_members, link, link_pending, finalize_pending_module,
  finish, compile, define_rows, prepare_cases, run_row,
}
use remill_tester.Backend.Pending.{
  function_name, initialization_error, ensure_initialized, load_pending_module,
  ensure_pending_module, fail, lift, define, define_new, define_in_pending_module,
}
use remill_tester.Base.Chars.{
  is_space, is_digit, lower_char, upper_char, skip_spaces, digit_value, is_digit_of, scan_digits,
  strip_base, strip_sign, stoull, digit_char, print_digits, print_number,
}
use remill_tester.Base.LittleEndian.{join_bytes, split_bytes}
use remill_tester.Base.Map.{find, assign}
use remill_tester.Base.Text.{same, before, starts_with, cut}
use remill_tester.Comparator.Compare.{
  outcome_class_name, add_mismatch, bytes_to_hex, first_bytes_as_little_endian, is_normal,
  is_exception, care_mask, compare_scalar, compare_bytes, bytes_match, compare_memory_cell,
  compare_scalars, compare_byte_registers, compare_memory, compare_exception,
  compare_execution_result,
}
use remill_tester.Comparator.Masks.{
  initial_flags_provided, after_last_comma, count_of, parse_count_operand, masked_count, is_shift,
  is_plain_rotate, is_carry_rotate, rotate_effective_count, shift_undefined,
  dynamic_undefined_flag_mask,
}
use remill_tester.Comparator.Report.{format_mismatch}
use remill_tester.GuestMemory.{
  clear_status, reset, set_fault, page_base, page_offset, find_page, overflows, chunk_at, grants,
  denial, check_loop, check_access, map_loop, map_range,
}
use remill_tester.GuestMemory.Transfer.{
  copy_in, store_chunk, write_loop, write_buffer, write, load_chunk, read_loop, read,
  read_little_endian, write_little_endian,
}
use remill_tester.Intrinsics.{read_memory, write_memory, operate, fetch_and_op, compare_exchange}
use remill_tester.Parser.Strings.{
  split_loop, split, drop_trailing, trim, to_lower, to_upper, parse_unsigned, hex_digit_value,
  hex_loop, parse_hex_bytes, read_little_endian_scalar, canonical_state_key, ends_in, parse_address,
  parse_memory_address_key, has_numeric_suffix, is_byte_state_key,
}
use remill_tester.StateBridge.{
  scalar_register_names, is_scalar_register, set_gpr, set_scalar_register, get_scalar_register,
  parse_byte_register_name, is_byte_register, set_register_bytes, set_byte_register,
  get_byte_register, set_flags, set_or_clear, get_flags,
}
use remill_tester.StateBridge.Sparse.{
  apply_scalar, apply_scalars, apply_bytes_of, apply_bytes, apply_initial_state, snapshot_value,
  snapshot_loop, snapshot_state, snapshot_bytes_loop, snapshot_bytes,
}
use remill_tester.Tester.Operands.{decode_key}
use remill_tester.Tester.SelfTests.Checks.{
  require, text_checks, decoder_checks, has_unmapped_fault, memory_checks,
}
use remill_tester.Tester.SelfTests.{
  is_normal_outcome, comparison_message, state_checks, xor_checks, not_mem_checks, run_self_tests,
}

abbrev value_of : Option ℕ → ℕ
value_of none = 0
value_of (some n) = n

abbrev xed : ℕ → List ℕ → XedMetadata
xed address bytes =
    if same bytes (0x48 ∷ 0x31 ∷ 0xD8 ∷ [])
    then record fresh_metadata {
      ok = true;
      length = 3;
      iclass = codes "XOR";
      undefined_flags = flag_af;
      comparable_written_flags = flag_pf;
    }
    else if same bytes (0x48 ∷ 0xF7 ∷ 0xD1 ∷ [])
    then record fresh_metadata { ok = true; length = 3; iclass = codes "NOT" }
    else record fresh_metadata {
      ok = true;
      length = 3;
      iclass = codes "NOT";
      memory_operands =
          record {
            index = 0;
            length = 8;
            address_width = 64;
            reads = true;
            writes = true;
            writes_only = false;
          }
          ∷ [];
    }

-- `xor rax, rbx` on the values of the test, with the parity flag of 0xf0.
abbrev xor_rax_rbx : LiftedFunction
xor_rax_rbx s pc m =
    let a = value_of (get_scalar_register s (codes "rax")) in
    let b = value_of (get_scalar_register s (codes "rbx")) in
    (set_flags (set_scalar_register s (codes "rax") (bit_xor a b)).1 flag_pf, m)

abbrev not_memory : LiftedFunction
not_memory s pc m =
    let a = value_of (get_scalar_register s (codes "rax")) in
    let (found, value, m') = read_little_endian m a 8 in
    (s, (write_little_endian m' a 8 (0xFFFFFFFFFFFFFFFF - value)).1)

abbrev jit : Text → Result Text LiftedFunction
jit name =
    if same name (codes "lifted_0_4831D8")
    then ok xor_rax_rbx
    else if same name (codes "lifted_1_48F710")
    then ok not_memory
    else err (codes "Symbols not found")

self_tests_pass : run_self_tests 32 xed jit toolchain ≡ ok (codes "self-test: ok\n")
unfolding decode_key outcome_class_name add_mismatch bytes_to_hex first_bytes_as_little_endian
    is_normal is_exception care_mask compare_scalar compare_bytes bytes_match compare_memory_cell
    compare_scalars compare_byte_registers compare_memory compare_exception compare_execution_result
    initial_flags_provided after_last_comma count_of parse_count_operand masked_count is_shift
    is_plain_rotate is_carry_rotate rotate_effective_count shift_undefined
    dynamic_undefined_flag_mask split_loop split drop_trailing trim to_lower to_upper parse_unsigned
    hex_digit_value hex_loop parse_hex_bytes read_little_endian_scalar canonical_state_key ends_in
    parse_address parse_memory_address_key has_numeric_suffix is_byte_state_key is_space is_digit
    lower_char upper_char skip_spaces digit_value is_digit_of scan_digits strip_base strip_sign
    stoull digit_char print_digits print_number same before starts_with cut find assign join_bytes
    split_bytes is_byte_register parse_byte_register_name snapshot_state snapshot_bytes
    apply_initial_state apply_scalars apply_scalar apply_bytes apply_bytes_of start_state
    run_compiled run_case run_row observe_run observe load_memory load_cells supports_case
    is_unsupported_compile_error initialization_error ensure_initialized load_pending_module
    ensure_pending_module function_name fail lift define define_new define_in_pending_module name_of
    set_function link link_pending finalize_pending_module function_at finish compile define_rows
    prepare_cases with_members is_scalar_register get_scalar_register set_scalar_register map_range
    map_loop page_base write write_buffer write_loop store_chunk copy_in read read_loop load_chunk
    check_access check_loop denial grants find_page set_fault page_offset overflows chunk_at require
    text_checks decoder_checks has_unmapped_fault memory_checks is_normal_outcome comparison_message
    state_checks xor_checks not_mem_checks run_self_tests compare_exchange fetch_and_op operate
    read_memory write_memory read_little_endian write_little_endian clear_status set_flags get_flags
    set_or_clear snapshot_loop snapshot_value snapshot_bytes_loop set_gpr get_byte_register
    set_byte_register set_register_bytes format_mismatch scalar_register_names report_fault
    fault_detail reset remill_tester.GuestMemory.ok remill_tester.StateBridge.reset_state
self_tests_pass = refl
