-- ===== src/Tests/Runs.antt =====
-- A small corpus, parsed, run and compared.
use remill_tester.Base.{
  ℕ, ◌+◌, ◌<◌, ◌≡◌, ◌↔◌, refl, true, List, [], ◌∷◌, Option, none, some, All, length,
}
use remill_tester.Base.Text.{Text, codes}
use remill_tester.Base.Result.{Result, ok, err}
use remill_tester.Expectation.{
  ExpectationRow, fresh_row, ExecutionResult, fresh_result, OutcomeClass,
}
use remill_tester.Parser.Strings.{Parse}
use remill_tester.Parser.Row.{parse_index_list}
use remill_tester.Parser.Indices.{parse_index_list-lt}
use remill_tester.Parser.File.{
  ParsedCorpus, ParsedInstructionHeader, parse_file, parse_instruction_headers,
}
use remill_tester.Parser.Numbering.{Numbered, parse_file-Numbered}
use remill_tester.Parser.Agreement.{parse_file-parse_instruction_headers}
use remill_tester.XedMetadata.{XedMetadata, fresh_metadata}
use remill_tester.Comparator.Compare.{ComparisonResult, add_mismatch, compare_execution_result}
use remill_tester.Comparator.Conforms.{Conforms, compare_execution_result-Conforms}
use remill_tester.Backend.Pending.{RemillBackend, fresh_backend}
use remill_tester.Tester.Options.{Options, fresh_options}
use remill_tester.Tester.Run.{RunError, print_decode, RunState, process_files, initial_run}
use remill_tester.Tester.Run.Accounting.{IsConsistent}
use remill_tester.Tester.Run.Loop.{initial_run-IsConsistent}
use remill_tester.Parser.Strings.{
  split_loop, split, drop_trailing, trim, to_lower, to_upper, parse_unsigned, hex_digit_value,
  hex_loop, parse_hex_bytes, read_little_endian_scalar, canonical_state_key, ends_in, parse_address,
  parse_memory_address_key, has_numeric_suffix, is_byte_state_key,
}
use remill_tester.Parser.Header.{
  schema_keys, parse_schema_field, header_of_fields, parse_header, parse_data_header,
  parse_data_pool_value,
}
use remill_tester.Parser.Row.{
  add_state_bytes, add_memory, add_pooled_value, check_index, parse_index, parse_indices,
  apply_values, apply_schema_values, parse_inputs, parse_outputs, parse_state_row,
}
use remill_tester.Parser.File.{
  finish_group, open_group, add_row, add_value, parse_line, parse_lines, finish_file,
}
use remill_tester.Base.Chars.{
  is_space, is_digit, lower_char, upper_char, skip_spaces, digit_value, is_digit_of, scan_digits,
  strip_base, strip_sign, stoull, digit_char, print_digits, print_number,
}
use remill_tester.Base.Text.{same, before, starts_with, cut}
use remill_tester.Base.Map.{find, assign}
use remill_tester.Base.LittleEndian.{join_bytes, split_bytes}
use remill_tester.Tester.Run.{
  passes_filters, reached, select_group, is_unsupported, skip_row, record_comparison,
  metadata_of_row, run_selected, execute_row, count_row, process_row, process_rows, count_corpus,
}
use remill_tester.Tester.Summary.{
  bump, bump_all, record_skip, record_decode, record_row, exit_status,
}
use remill_tester.Tester.Skip.{
  reason_of_error, unsupported_reason, unsupported_detail, skip_by_class, pre_execution_skip,
}
use remill_tester.Tester.Operands.{
  trimmed_parts, split_csv, up_to_blank, first_token, decode_key, instruction_group_key,
  leading_digits, numbered_operand, canonical_scalar_operand, width_of_operand,
  destination_width_bits, source_operand, descriptor_source_selector,
}
use remill_tester.Tester.Unsupported.{
  any_operand, requires_memory_oracle, is_x87_stack_register, is_unsupported_x87_stack_value,
  any_unsupported_x87, has_unsupported_x87_stack_value, is_fpu_unsupported, is_mmx_state_key,
  any_mmx, uses_mmx_state, is_privileged_or_io_unsupported, is_environment_read_unsupported,
  any_variable_selector, has_variable_descriptor_selector, is_stable_lar,
  is_descriptor_state_unsupported, is_approximate_fp_unsupported, is_sha_unsupported,
  is_expected_exception_unsupported, is_atomic128_unsupported, is_popfq_unsupported,
}
use remill_tester.Tester.Json.{escape_char, json_escape, skip_json, mismatch_json}
use remill_tester.Comparator.Compare.{
  outcome_class_name, bytes_to_hex, first_bytes_as_little_endian, is_normal, is_exception,
  care_mask, compare_scalar, compare_bytes, bytes_match, compare_memory_cell, compare_scalars,
  compare_byte_registers, compare_memory, compare_exception,
}
use remill_tester.Comparator.Masks.{
  initial_flags_provided, after_last_comma, count_of, parse_count_operand, masked_count, is_shift,
  is_plain_rotate, is_carry_rotate, rotate_effective_count, shift_undefined,
  dynamic_undefined_flag_mask,
}
use remill_tester.StateBridge.{is_byte_register, parse_byte_register_name}

abbrev value_of {ℓ κ} : {E : Type ℓ} {A : Type κ} → Result E A → A → A
value_of (ok a) d = a
value_of (err e) d = d

abbrev sample : List Text
sample =
    codes "data:1"
    ∷ codes "#0C"
    ∷ codes "instr:4096;#90;nop;2;in=rax;out=rax"
    ∷ codes "0|0"
    ∷ codes "0|!#DE"
    ∷ []

abbrev no_corpus : ParsedCorpus
no_corpus = record { rows = []; instruction_groups = 0; parse_warnings = 0 }

abbrev corpus : ParsedCorpus
corpus = value_of (parse_file (some sample)) no_corpus

sample_parses : parse_file (some sample) ≡ ok corpus
unfolding split_loop split drop_trailing trim to_lower to_upper parse_unsigned hex_digit_value
    hex_loop parse_hex_bytes read_little_endian_scalar canonical_state_key ends_in parse_address
    parse_memory_address_key has_numeric_suffix is_byte_state_key schema_keys parse_schema_field
    header_of_fields parse_header parse_data_header parse_data_pool_value add_state_bytes add_memory
    add_pooled_value check_index parse_index parse_indices parse_index_list apply_values
    apply_schema_values parse_inputs parse_outputs parse_state_row finish_group open_group add_row
    add_value parse_line parse_lines finish_file parse_file is_space is_digit lower_char upper_char
    skip_spaces digit_value is_digit_of scan_digits strip_base strip_sign stoull digit_char
    print_digits print_number same before starts_with cut find assign join_bytes split_bytes
sample_parses = refl

parse_file-Numbered_example : Numbered 0 corpus.instruction_groups corpus.rows
parse_file-Numbered_example = parse_file-Numbered (some sample) corpus sample_parses

parse_file-parse_instruction_headers_example :
    (headers : List ParsedInstructionHeader) × (parse_instruction_headers (some sample)
      ≡ ok headers)
    × (length headers ≡ corpus.instruction_groups)
parse_file-parse_instruction_headers_example =
    parse_file-parse_instruction_headers (some sample) corpus sample_parses

abbrev indices : List ℕ
indices = 1 ∷ 0 ∷ []

parse_index_list-lt_example : (length indices ≡ 2) × All (λ i. i < 2) indices
unfolding split_loop split drop_trailing trim to_lower to_upper parse_unsigned hex_digit_value
    hex_loop parse_hex_bytes read_little_endian_scalar canonical_state_key ends_in parse_address
    parse_memory_address_key has_numeric_suffix is_byte_state_key add_state_bytes add_memory
    add_pooled_value check_index parse_index parse_indices parse_index_list apply_values
    apply_schema_values parse_inputs parse_outputs parse_state_row is_space is_digit lower_char
    upper_char skip_spaces digit_value is_digit_of scan_digits strip_base strip_sign stoull
    digit_char print_digits print_number same before starts_with cut
parse_index_list-lt_example = parse_index_list-lt (codes "1,0") 2 2 (codes "input") indices refl

abbrev row : ExpectationRow
row = record fresh_row {
  instruction = codes "inc rax";
  opcode = codes "48FFC0";
  expected_final_state = some ((codes "rax", 8) ∷ []);
}

abbrev execution : ExecutionResult
execution = record fresh_result {
  outcome_class = OutcomeClass.normal;
  final_state = (codes "rax", 7) ∷ [];
}

abbrev metadata : XedMetadata
metadata = record fresh_metadata { ok = true; length = 3 }

compare_execution_result-Conforms_example :
    ((compare_execution_result 32 row metadata execution).passed ≡ true)
    ↔ Conforms 32 row metadata execution none
compare_execution_result-Conforms_example =
    compare_execution_result-Conforms 32 row metadata execution

abbrev options : Options
options = record fresh_options {
  limit_states = 2;
  limit_instructions = 1;
  execute = true;
  stop_on_first_fail = true;
}

abbrev decode : ℕ → List ℕ → XedMetadata
decode address bytes = metadata

abbrev run : ExpectationRow → List Text → RemillBackend → Parse (ExecutionResult × RemillBackend)
run r keys b = ok (execution, record b { next_function_id = b.next_function_id + 1 })

abbrev compare_row : ExpectationRow → XedMetadata → ExecutionResult → ComparisonResult
compare_row = compare_execution_result 32

-- One corpus, of two test cases.
abbrev read_file : Text → Option (List Text)
read_file path = some sample

abbrev outcome : Result RunError RunState
outcome =
    process_files decode run compare_row options read_file (codes "inc.txt" ∷ [])
      (initial_run true true fresh_backend)

abbrev final_run : RunState
final_run = value_of outcome (initial_run true true fresh_backend)

run_ends : outcome ≡ ok final_run
unfolding print_decode passes_filters reached select_group is_unsupported skip_row record_comparison
    metadata_of_row run_selected execute_row count_row process_row process_rows count_corpus
    process_files bump bump_all record_skip record_decode record_row exit_status reason_of_error
    unsupported_reason unsupported_detail skip_by_class pre_execution_skip trimmed_parts split_csv
    up_to_blank first_token decode_key instruction_group_key leading_digits numbered_operand
    canonical_scalar_operand width_of_operand destination_width_bits source_operand
    descriptor_source_selector any_operand requires_memory_oracle is_x87_stack_register
    is_unsupported_x87_stack_value any_unsupported_x87 has_unsupported_x87_stack_value
    is_fpu_unsupported is_mmx_state_key any_mmx uses_mmx_state is_privileged_or_io_unsupported
    is_environment_read_unsupported any_variable_selector has_variable_descriptor_selector
    is_stable_lar is_descriptor_state_unsupported is_approximate_fp_unsupported is_sha_unsupported
    is_expected_exception_unsupported is_atomic128_unsupported is_popfq_unsupported escape_char
    json_escape skip_json mismatch_json outcome_class_name add_mismatch bytes_to_hex
    first_bytes_as_little_endian is_normal is_exception care_mask compare_scalar compare_bytes
    bytes_match compare_memory_cell compare_scalars compare_byte_registers compare_memory
    compare_exception compare_execution_result initial_flags_provided after_last_comma count_of
    parse_count_operand masked_count is_shift is_plain_rotate is_carry_rotate rotate_effective_count
    shift_undefined dynamic_undefined_flag_mask split_loop split drop_trailing trim to_lower
    to_upper parse_unsigned hex_digit_value hex_loop parse_hex_bytes read_little_endian_scalar
    canonical_state_key ends_in parse_address parse_memory_address_key has_numeric_suffix
    is_byte_state_key is_space is_digit lower_char upper_char skip_spaces digit_value is_digit_of
    scan_digits strip_base strip_sign stoull digit_char print_digits print_number same before
    starts_with cut find assign join_bytes split_bytes is_byte_register parse_byte_register_name
    parse_file parse_line parse_data_header parse_data_pool_value add_value parse_header
    parse_schema_field open_group finish_group parse_state_row parse_index_list apply_schema_values
    add_row
run_ends = refl

initial_run-IsConsistent_example : IsConsistent options final_run
initial_run-IsConsistent_example =
    initial_run-IsConsistent decode run compare_row options true true fresh_backend read_file
      (codes "inc.txt" ∷ []) final_run run_ends
