-- ===== src/Tester/Skip.antt =====
-- src/tester_main.cpp: why a row is skipped, before it runs or after.
use remill_tester.Base.{
  Bool, false, not, ◌||◌, [], Option, none, some, ◌==◌, if◌then◌else◌, length, value_or,
}
use remill_tester.Base.Text.{Text, codes, same, starts_with}
use remill_tester.Base.Result.{ok, ◌>>=◌}
use remill_tester.Expectation.{ExpectationRow, ExecutionResult}
use remill_tester.Parser.Strings.{Parse, parse_hex_bytes}
use remill_tester.XedMetadata.{XedMetadata}
use remill_tester.Tester.Unsupported.{
  is_fpu_unsupported, uses_mmx_state, is_privileged_or_io_unsupported,
  is_environment_read_unsupported, is_descriptor_state_unsupported,
  is_expected_exception_unsupported, is_atomic128_unsupported, is_popfq_unsupported,
  is_approximate_fp_unsupported, is_sha_unsupported,
}

-- `optional` text that is there and not empty.
abbrev pub nonempty : Option Text → Bool
nonempty none = false
nonempty (some text) = not (same text [])

unfoldable pub reason_of_error : Text → Text
reason_of_error error =
    if starts_with error (codes "Remill failed to lift opcode")
    then codes "unsupported:remill_lift"
    else if starts_with error (codes "Remill failed to decode opcode")
    then codes "unsupported:remill_decode"
    else if starts_with error (codes "unsupported scalar state key:")
        || starts_with error (codes "unsupported byte state key:")
    then codes "unsupported:state_key"
    else if starts_with error (codes "invalid byte state for register:")
    then codes "unsupported:state_bytes"
    else codes "unsupported:backend"

unfoldable pub unsupported_reason : ExecutionResult → Text
unfolding reason_of_error
unsupported_reason execution =
    if nonempty execution.backend_error
    then reason_of_error (value_or execution.backend_error [])
    else if nonempty execution.exception_detail
    then codes "unsupported:exception"
    else codes "unsupported"

unfoldable pub unsupported_detail : ExecutionResult → Text
unsupported_detail execution =
    value_or execution.backend_error (value_or execution.exception_detail [])

pub record SkipInfo : Type 0 where
  pub reason : Text
  pub detail : Text

abbrev pub skip : Text → Option SkipInfo
skip reason = some (record { reason = reason; detail = [] })

-- PreExecutionSkip behind the two tests of the decoded length.
unfoldable pub skip_by_class : XedMetadata → ExpectationRow → Bool → Option SkipInfo
skip_by_class metadata row memory_state_missing =
    if memory_state_missing
    then skip (codes "memory_state_missing")
    else if is_fpu_unsupported metadata row
    then skip (codes "fpu_state_unsupported")
    else if uses_mmx_state row
    then skip (codes "mmx_state_unsupported")
    else if is_privileged_or_io_unsupported metadata
    then skip (codes "privileged_or_io_unsupported")
    else if is_environment_read_unsupported metadata
    then skip (codes "environment_read_unsupported")
    else if is_descriptor_state_unsupported metadata row
    then skip (codes "descriptor_state_unsupported")
    else if is_expected_exception_unsupported metadata row
    then some (record {
      reason = codes "expected_exception_unsupported";
      detail = value_or row.expected_exception_kind [];
    })
    else if is_atomic128_unsupported metadata
    then skip (codes "atomic128_unsupported")
    else if is_popfq_unsupported metadata
    then skip (codes "popfq_flag_state_unsupported")
    else if is_approximate_fp_unsupported metadata
    then skip (codes "approximate_fp_unsupported")
    else if is_sha_unsupported metadata
    then skip (codes "sha_extension_unsupported")
    else none

unfoldable pub pre_execution_skip : XedMetadata → ExpectationRow → Bool → Parse (Option SkipInfo)
unfolding skip_by_class
pre_execution_skip metadata row memory_state_missing =
    if not metadata.ok then ok (skip (codes "xed_decode_failed")) else (do
      bytes ← parse_hex_bytes row.opcode
      ok (
          if not (metadata.length == length bytes)
          then skip (codes "xed_length_mismatch")
          else skip_by_class metadata row memory_state_missing))
