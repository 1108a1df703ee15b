-- ===== src/Tests/Drivers.antt =====
-- The driver on the arguments of a small run.
use remill_tester.GuestMemory
use remill_tester.StateBridge
use remill_tester.Base.{ℕ, ◌<◌, ◌^◌, ◌≡◌, refl, arith, Bool, true, List, [], ◌∷◌, Option, some, All}
use remill_tester.Base.Text.{Text, codes}
use remill_tester.Base.Result.{Result, ok, err}
use remill_tester.Expectation.{ExpectationRow}
use remill_tester.XedMetadata.{XedMetadata, fresh_metadata}
use remill_tester.Backend.Pending.{RemillBackend}
use remill_tester.Backend.Compiler.Prepared.{IsSettled}
use remill_tester.Tester.Options.{Options, DirectoryEntry, fresh_options}
use remill_tester.Tester.Options.Canonical.{IsCanonical, parse_options-IsCanonical}
use remill_tester.Tester.Prepare.{PrepareState, initial_prepare}
use remill_tester.Tester.Prepare.Collected.{IsCollected, prepare_files-IsCollected}
use remill_tester.Tester.Main.Status.{prepare_backend-succeeds}
use remill_tester.Tests.Backends.{toolchain, skip, lookup}
use remill_tester.Backend.{supports_case}
use remill_tester.Base.Chars.{
  is_space, is_digit, lower_char, upper_char, skip_spaces, digit_value, is_digit_of, scan_digits,
  strip_base, strip_sign, stoull, digit_char, print_digits, print_number,
}
use remill_tester.Base.Text.{same, before, starts_with, cut}
use remill_tester.Parser.File.{parse_instruction_headers}
use remill_tester.Parser.Header.{parse_schema_field, parse_header}
use remill_tester.Parser.Strings.{
  split, trim, to_lower, to_upper, parse_unsigned, hex_digit_value, parse_hex_bytes,
}
use remill_tester.Tester.Main.{prepare_backend}
use remill_tester.Tester.Operands.{split_csv, first_token, decode_key}
use remill_tester.Tester.Options.{
  insert, insert_all, parse_limit, argument, parse_arguments, is_wanted, wanted_paths,
  insert_sorted, sort, add_input_directory, add_input_directories, parse_options,
}
use remill_tester.Tester.Prepare.{
  row_of_header, remaining_rows, is_trap, add_prepared, prepare_group, prepare_header,
  prepare_headers, prepare_files,
}
use remill_tester.Tester.Run.{passes_filters, reached}
use remill_tester.Tester.Skip.{pre_execution_skip}
use remill_tester.Tester.Unsupported.{
  is_fpu_unsupported, uses_mmx_state, is_privileged_or_io_unsupported,
  is_environment_read_unsupported, is_descriptor_state_unsupported, is_approximate_fp_unsupported,
  is_sha_unsupported, is_expected_exception_unsupported, is_atomic128_unsupported,
  is_popfq_unsupported,
}

abbrev sample : List Text
sample =
    codes "data:1" ∷ codes "#0C" ∷ codes "instr:4096;#90;nop;1;in=rax;out=rax" ∷ codes "0|0" ∷ []

abbrev read_file : Text → Option (List Text)
read_file path = some sample

abbrev decode_nop : ℕ → List ℕ → XedMetadata
decode_nop address bytes = record fresh_metadata { ok = true; length = 1 }

abbrev args : List Text
args =
    codes "--mnemonic"
    ∷ codes "NOP,Xor"
    ∷ codes "--limit-states"
    ∷ codes "5"
    ∷ codes "--execute"
    ∷ codes "--input-dir"
    ∷ codes "corpus"
    ∷ []

abbrev entry : Text → Text → DirectoryEntry
entry path stem = record {
  path = path;
  is_regular_file = true;
  extension = codes ".txt";
  stem = stem;
}

abbrev list_directory : Text → Result Text (List DirectoryEntry)
list_directory dir = ok (
    entry (codes "c/xor.txt") (codes "xor")
    ∷ entry (codes "c/nop.txt") (codes "NOP")
    ∷ entry (codes "c/add.txt") (codes "add")
    ∷ [])

abbrev parsed : Options
parsed = record fresh_options {
  inputs = codes "c/nop.txt" ∷ codes "c/xor.txt" ∷ [];
  input_dirs = codes "corpus" ∷ [];
  mnemonics = codes "xor" ∷ codes "nop" ∷ [];
  limit_states = 5;
  execute = true;
}

args_parse : parse_options before list_directory args ≡ ok parsed
unfolding split_csv split trim to_lower is_space is_digit lower_char skip_spaces digit_value
    is_digit_of scan_digits strip_base strip_sign stoull same before cut insert insert_all
    parse_limit argument parse_arguments is_wanted wanted_paths insert_sorted sort
    add_input_directory add_input_directories parse_options
args_parse = refl

parse_options-IsCanonical_example : IsCanonical parsed
parse_options-IsCanonical_example =
    parse_options-IsCanonical before list_directory args parsed args_parse

abbrev value_of {ℓ κ} : {E : Type ℓ} {A : Type κ} → Result E A → A → A
value_of (ok a) d = a
value_of (err e) d = d

abbrev collected : PrepareState
collected =
    value_of (prepare_files decode_nop parsed read_file parsed.inputs initial_prepare)
      initial_prepare

pass_ends : prepare_files decode_nop parsed read_file parsed.inputs initial_prepare ≡ ok collected
unfolding passes_filters reached pre_execution_skip first_token decode_key is_fpu_unsupported
    uses_mmx_state is_privileged_or_io_unsupported is_environment_read_unsupported
    is_descriptor_state_unsupported is_approximate_fp_unsupported is_sha_unsupported
    is_expected_exception_unsupported is_atomic128_unsupported is_popfq_unsupported split trim
    to_lower to_upper parse_unsigned hex_digit_value parse_hex_bytes is_space is_digit lower_char
    upper_char skip_spaces digit_value is_digit_of scan_digits strip_base strip_sign stoull
    digit_char print_digits print_number same starts_with cut parse_header parse_schema_field
    row_of_header remaining_rows is_trap add_prepared prepare_group prepare_header prepare_headers
    prepare_files parse_instruction_headers
pass_ends = refl

states_word : parsed.limit_states < 2 ^ 64
states_word = omega arith

instructions_word : parsed.limit_instructions < 2 ^ 64
instructions_word = omega arith

prepare_files-IsCollected_example : IsCollected parsed collected
prepare_files-IsCollected_example =
    prepare_files-IsCollected decode_nop parsed (states_word, instructions_word) read_file
      parsed.inputs collected pass_ends

abbrev opens : Text → Bool
opens path = true

abbrev Succeeds : Options → PrepareState → Type 0
Succeeds options prepared =
    (backend : RemillBackend) × (prepare_backend decode_nop lookup toolchain 32 read_file opens
        options
      ≡ ok backend)
    × All (λ (row : ExpectationRow). supports_case row ≡ true → IsSettled lookup backend row)
        prepared.rows

prepare_backend-succeeds_example : Succeeds parsed collected
prepare_backend-succeeds_example =
    prepare_backend-succeeds decode_nop lookup toolchain 32 read_file opens parsed collected
      pass_ends states_word instructions_word
      (refl, refl, refl, refl, refl, refl, refl, refl, refl, λ given. refl) (λ name. (skip, refl))
