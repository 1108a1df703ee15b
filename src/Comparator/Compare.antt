-- ===== src/Comparator/Compare.antt =====
-- src/comparator.cpp: CompareExecutionResult, field by field.
use remill_tester.Base.{
  ℕ, ◌-◌, ◌/◌, ◌%◌, ◌^◌, bit_and, Bool, true, false, not, ◌||◌, List, [], ◌∷◌, ◌++◌, Option, none,
  some, ◌==◌, not32, if◌then◌else◌, length, get_or, take, drop, value_or,
}
use remill_tester.Base.Text.{Text, codes, same}
use remill_tester.Base.Map.{find, text_key}
use remill_tester.Base.LittleEndian.{join_bytes}
use remill_tester.Base.Chars.{digit_char, print_number}
use remill_tester.Expectation.{
  Scalars, ByteValues, MemoryExpectation, OutcomeClass, ExecutionResult, ExpectationRow,
}
use remill_tester.FlagMasks.{user_rflags_mask}
use remill_tester.Parser.Strings.{canonical_state_key}
use remill_tester.StateBridge.{is_byte_register}
use remill_tester.XedMetadata.{XedMetadata}
use remill_tester.Comparator.Masks.{dynamic_undefined_flag_mask}

pub record FieldMismatch : Type 0 where
  pub field : Text
  pub expected : ℕ
  pub actual : ℕ
  pub mask : ℕ
  pub detail : Text

pub record ComparisonResult : Type 0 where
  pub passed : Bool
  pub mismatches : List FieldMismatch

abbrev pub fresh_comparison : ComparisonResult
fresh_comparison = record { passed = true; mismatches = [] }

unfoldable pub outcome_class_name : OutcomeClass → Text
outcome_class_name OutcomeClass.normal = codes "normal"
outcome_class_name OutcomeClass.exception = codes "exception"
outcome_class_name OutcomeClass.unsupported = codes "unsupported"
outcome_class_name OutcomeClass.backend_error = codes "backend_error"

unfoldable pub add_mismatch : ComparisonResult → FieldMismatch → ComparisonResult
add_mismatch result mismatch = record {
  passed = false;
  mismatches = result.mismatches ++ mismatch ∷ [];
}

unfoldable pub bytes_to_hex : List ℕ → Text
bytes_to_hex [] = []
bytes_to_hex (byte ∷ bytes) =
    digit_char (byte / 16 % 16) ∷ digit_char (byte % 16) ∷ bytes_to_hex bytes

unfoldable pub first_bytes_as_little_endian : List ℕ → ℕ
first_bytes_as_little_endian bytes = join_bytes 0 (take 8 bytes) 0

abbrev pub mismatch_of : Text → ℕ → ℕ → ℕ → Text → FieldMismatch
mismatch_of field expected actual mask detail = record {
  field = field;
  expected = expected;
  actual = actual;
  mask = mask;
  detail = detail;
}

-- `operator==` of two byte vectors is that of two texts.
abbrev pub same_bytes : List ℕ → List ℕ → Bool
same_bytes = same

unfoldable pub is_normal : OutcomeClass → Bool
is_normal OutcomeClass.normal = true
is_normal _ = false

unfoldable pub is_exception : OutcomeClass → Bool
is_exception OutcomeClass.exception = true
is_exception _ = false

-- The flags on which the two sides have to agree.
unfoldable pub care_mask : ExpectationRow → XedMetadata → ℕ
care_mask row metadata =
    bit_and (bit_and metadata.comparable_written_flags user_rflags_mask)
      (not32 (dynamic_undefined_flag_mask row metadata))

-- One expected scalar, at its canonical key, against the actual one.
unfoldable pub compare_scalar :
    ExpectationRow → XedMetadata → Text → ℕ → Option ℕ → Option FieldMismatch
compare_scalar row metadata key expected none =
    some (mismatch_of key expected 0 0 (codes "actual state missing"))
compare_scalar row metadata key expected (some actual) =
    let mask = care_mask row metadata in
    if same key (codes "flag")
    then (if mask == 0
        then none
        else if not (bit_and expected mask == bit_and actual mask)
        then some (mismatch_of key expected actual mask (codes "flag mismatch"))
        else none)
    else if not (expected == actual)
    then some (mismatch_of key expected actual (2 ^ 64 - 1) (codes "scalar mismatch"))
    else none

abbrev pub add_some : ComparisonResult → Option FieldMismatch → ComparisonResult
add_some result none = result
add_some result (some mismatch) = add_mismatch result mismatch

unfoldable pub compare_bytes : Text → List ℕ → Option (List ℕ) → Option FieldMismatch
compare_bytes key expected none = some (
    mismatch_of key (first_bytes_as_little_endian expected) 0 0 (codes "actual byte state missing"))
compare_bytes key expected (some actual) =
    if not (same_bytes actual expected)
    then some (
        mismatch_of key (first_bytes_as_little_endian expected)
          (first_bytes_as_little_endian actual) 0
          (codes "byte register mismatch expected=#"
            ++ (bytes_to_hex expected ++ (codes " actual=#" ++ bytes_to_hex actual))))
    else none

-- The loop over the bytes of a memory cell; `mask` is what is left of the mask.
unfoldable pub bytes_match : List ℕ → List ℕ → List ℕ → Bool
bytes_match [] actual mask = true
bytes_match (e ∷ expected) actual mask =
    let m = get_or mask 0 0xff in
    let rest = bytes_match expected (drop 1 actual) (drop 1 mask) in
    if not (bit_and e m == bit_and (get_or actual 0 0) m) then false else rest

unfoldable pub compare_memory_cell :
    MemoryExpectation → Option MemoryExpectation → Option FieldMismatch
compare_memory_cell expected none =
    some (mismatch_of (codes "mem") 0 0 0 (codes "actual memory missing"))
compare_memory_cell expected (some actual) =
    if not (actual.address == expected.address)
      || not (length actual.bytes == length expected.bytes)
    then some (
        mismatch_of (codes "mem") expected.address actual.address 0
          (codes "memory address/size mismatch"))
    else if not (bytes_match expected.bytes actual.bytes expected.mask)
    then some (
        mismatch_of (codes "mem") (first_bytes_as_little_endian expected.bytes)
          (first_bytes_as_little_endian actual.bytes) 0
          (codes "memory mismatch at 0x"
            ++ (print_number 16 expected.address
                ++ (codes " expected=#"
                    ++ (bytes_to_hex expected.bytes
                        ++ (codes " actual=#" ++ bytes_to_hex actual.bytes))))))
    else none

module _ (num_vec_registers : ℕ) where
  -- The loop over the expected scalars.
  unfoldable pub compare_scalars :
      ExpectationRow → XedMetadata → ExecutionResult → Scalars → ComparisonResult → ComparisonResult
  compare_scalars row metadata execution [] result = result
  compare_scalars row metadata execution ((raw_key, expected) ∷ entries) result =
      let key = canonical_state_key raw_key in
      let found = compare_scalar row metadata key expected (find key execution.final_state) in
      compare_scalars row metadata execution entries
        (if is_byte_register num_vec_registers key then result else add_some result found)

  -- The loop over the expected byte registers.
  unfoldable pub compare_byte_registers :
      ExecutionResult → ByteValues → ComparisonResult → ComparisonResult
  compare_byte_registers execution [] result = result
  compare_byte_registers execution ((raw_key, expected) ∷ entries) result =
      let key = canonical_state_key raw_key in
      let found = compare_bytes key expected (find key execution.final_bytes) in
      compare_byte_registers execution entries
        (if not (is_byte_register num_vec_registers key) then result else add_some result found)

-- The loop over the expected memory; the two lists are walked side by side.
unfoldable pub compare_memory :
    List MemoryExpectation → List MemoryExpectation → ComparisonResult → ComparisonResult
compare_memory [] actual result = result
compare_memory (e ∷ expected) [] result =
    compare_memory expected [] (add_some result (compare_memory_cell e none))
compare_memory (e ∷ expected) (a ∷ actual) result =
    compare_memory expected actual (add_some result (compare_memory_cell e (some a)))

-- The branch for a row that expects an exception.
unfoldable pub compare_exception : Text → ExecutionResult → ComparisonResult
compare_exception expected execution =
    let wrong = λ (got : Text). add_mismatch fresh_comparison (
      mismatch_of (codes "exception") 0 0 0
        (codes "expected exception " ++ (expected ++ (codes ", got " ++ got)))) in
    if not (is_exception execution.outcome_class)
    then wrong (outcome_class_name execution.outcome_class)
    else elim execution.exception_detail [
      | none ↦ fresh_comparison
      | some detail ↦ if not (same detail expected) then wrong detail else fresh_comparison
    ]

unfoldable pub compare_execution_result :
    ℕ → ExpectationRow → XedMetadata → ExecutionResult → ComparisonResult
unfolding compare_scalars compare_byte_registers compare_memory compare_exception
compare_execution_result num_vec_registers row metadata execution =
    elim row.expected_exception_kind [
      | some expected ↦ compare_exception expected execution
      | none ↦
          if not (is_normal execution.outcome_class)
          then add_mismatch fresh_comparison (
              mismatch_of (codes "outcome") 0 0 0 (
                codes "expected normal, got "
                ++ (outcome_class_name execution.outcome_class
                    ++ (codes ": "
                        ++ value_or execution.backend_error
                            (value_or execution.exception_detail [])))))
          else let scalars =
              compare_scalars num_vec_registers row metadata execution
                (value_or row.expected_final_state []) fresh_comparison in
            let registers =
              compare_byte_registers num_vec_registers execution row.expected_final_bytes scalars in
            compare_memory row.expected_memory execution.final_memory registers
    ]
