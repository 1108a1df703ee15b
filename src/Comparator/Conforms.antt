-- ===== src/Comparator/Conforms.antt =====
-- The comparison against a description of what a row asks of an execution.
use remill_tester.Base.{
  ℕ, zero, suc, ◌<◌, ◌≡◌, ◌≢◌, ◌↔◌, inl, inr, refl, arith, true, false, not, List, [], ◌∷◌, Option,
  none, some, Option-cases, bit_and, bit_and-zero, if◌then◌else◌, length, get_or, drop, value_or,
  All,
}
use remill_tester.Base.Text.{Text, codes, same_iff}
use remill_tester.Base.Map.{find, text_key}
use remill_tester.Expectation.{
  Scalars, ByteValues, MemoryExpectation, OutcomeClass, ExecutionResult, ExpectationRow,
}
use remill_tester.Parser.Strings.{canonical_state_key}
use remill_tester.StateBridge.{is_byte_register}
use remill_tester.XedMetadata.{XedMetadata}
use remill_tester.Comparator.Compare.{
  FieldMismatch, ComparisonResult, fresh_comparison, add_mismatch, add_some, care_mask,
  compare_scalar, compare_bytes, bytes_match, compare_memory_cell, compare_scalars,
  compare_byte_registers, compare_memory, compare_exception, compare_execution_result, is_normal,
  is_exception,
}

-- The actual value of a scalar is there and the expected one; of the flags the compared ones are.
abbrev pub ScalarAgrees : ExpectationRow → XedMetadata → Text → ℕ → Option ℕ → Type 0
ScalarAgrees row metadata key expected none = ⊥
ScalarAgrees row metadata key expected (some actual) =
    (key ≡ codes "flag"
      → bit_and expected (care_mask row metadata) ≡ bit_and actual (care_mask row metadata))
    × (key ≢ codes "flag" → expected ≡ actual)

-- The actual bytes of a register are there and the expected ones.
abbrev pub RegisterAgrees : List ℕ → Option (List ℕ) → Type 0
RegisterAgrees expected none = ⊥
RegisterAgrees expected (some actual) = actual ≡ expected

-- The actual bytes agree with the expected ones where the mask has bits; behind its end it has all.
abbrev pub BytesAgree : List ℕ → List ℕ → List ℕ → Type 0
BytesAgree expected actual mask =
    (i : ℕ)
    → i < length expected
    → bit_and (get_or expected i 0) (get_or mask i 0xff)
      ≡ bit_and (get_or actual i 0) (get_or mask i 0xff)

abbrev pub CellAgrees : MemoryExpectation → Option MemoryExpectation → Type 0
CellAgrees expected none = ⊥
CellAgrees expected (some actual) =
    (actual.address ≡ expected.address)
    × (length actual.bytes ≡ length expected.bytes)
    × BytesAgree expected.bytes actual.bytes expected.mask

compare_scalar-agrees :
    (row : ExpectationRow) (metadata : XedMetadata) (key : Text) (expected : ℕ) (found : Option ℕ)
    → (compare_scalar row metadata key expected found ≡ none)
      ↔ ScalarAgrees row metadata key expected found
unfolding compare_scalar
compare_scalar-agrees row metadata key expected none = ground arith
compare_scalar-agrees row metadata key expected (some actual) =
    ground (arith, same_iff key (codes "flag"), bit_and-zero expected, bit_and-zero actual)

compare_bytes-agrees :
    (key : Text) (expected : List ℕ) (found : Option (List ℕ))
    → (compare_bytes key expected found ≡ none) ↔ RegisterAgrees expected found
unfolding compare_bytes
compare_bytes-agrees key expected none = ground arith
compare_bytes-agrees key expected (some actual) = ground (arith, same_iff actual expected)

get_or-drop_one : (i d : ℕ) (xs : List ℕ) → get_or (drop 1 xs) i d ≡ get_or xs (suc i) d
get_or-drop_one i d [] = refl
get_or-drop_one i d (x ∷ xs) = refl

bytes_match-BytesAgree :
    (expected actual mask : List ℕ)
    → bytes_match expected actual mask ≡ true
    → BytesAgree expected actual mask
unfolding bytes_match
bytes_match-BytesAgree [] actual mask h i hi = absurd (omega (arith, hi))
bytes_match-BytesAgree (e ∷ expected) actual mask h zero hi = ground arith
bytes_match-BytesAgree (e ∷ expected) actual mask h (suc i) hi =
    let rest : bytes_match expected (drop 1 actual) (drop 1 mask) ≡ true = ground arith in
    let at =
      bytes_match-BytesAgree expected (drop 1 actual) (drop 1 mask) rest i (omega (arith, hi)) in
    rw (get_or-drop_one i 0 actual, get_or-drop_one i 0xff mask) at at

BytesAgree-bytes_match :
    (expected actual mask : List ℕ)
    → BytesAgree expected actual mask
    → bytes_match expected actual mask ≡ true
unfolding bytes_match
BytesAgree-bytes_match [] actual mask h = refl
BytesAgree-bytes_match (e ∷ expected) actual mask h =
    let head = h 0 (omega arith) in
    let rest = BytesAgree-bytes_match expected (drop 1 actual) (drop 1 mask) (λ i hi.
      rw (get_or-drop_one i 0 actual, get_or-drop_one i 0xff mask)
        (h (suc i) (omega (arith, hi)))) in
    ground arith

bytes_match-agrees :
    (expected actual mask : List ℕ)
    → (bytes_match expected actual mask ≡ true) ↔ BytesAgree expected actual mask
bytes_match-agrees expected actual mask =
    (bytes_match-BytesAgree expected actual mask, BytesAgree-bytes_match expected actual mask)

compare_memory_cell-agrees :
    (expected : MemoryExpectation) (found : Option MemoryExpectation)
    → (compare_memory_cell expected found ≡ none) ↔ CellAgrees expected found
unfolding compare_memory_cell
compare_memory_cell-agrees expected none = ground arith
compare_memory_cell-agrees expected (some actual) =
    ground (arith, bytes_match-agrees expected.bytes actual.bytes expected.mask)

-- A mismatch that is found fails the comparison for good.
add_some-passed :
    (result : ComparisonResult) (found : Option FieldMismatch)
    → ((add_some result found).passed ≡ true) ↔ ((result.passed ≡ true) × (found ≡ none))
unfolding add_mismatch
add_some-passed result none = ground arith
add_some-passed result (some mismatch) = ground arith

module _ (num_vec_registers : ℕ) (row : ExpectationRow) (metadata : XedMetadata)
    (execution : ExecutionResult) where
  -- A scalar entry; the key of a byte register among the scalars asks nothing.
  abbrev pub ScalarConforms : Text × ℕ → Type 0
  ScalarConforms (raw_key, expected) =
      is_byte_register num_vec_registers (canonical_state_key raw_key) ≡ false
      → ScalarAgrees row metadata (canonical_state_key raw_key) expected
          (find (canonical_state_key raw_key) execution.final_state)

  -- A byte entry; a key that is not a byte register's asks nothing.
  abbrev pub RegisterConforms : Text × List ℕ → Type 0
  RegisterConforms (raw_key, expected) =
      is_byte_register num_vec_registers (canonical_state_key raw_key) ≡ true
      → RegisterAgrees expected (find (canonical_state_key raw_key) execution.final_bytes)

  compare_scalars-passed :
      (entries : Scalars) (result : ComparisonResult)
      → ((compare_scalars num_vec_registers row metadata execution entries result).passed ≡ true)
        ↔ ((result.passed ≡ true) × All ScalarConforms entries)
  unfolding compare_scalars
  compare_scalars-passed [] result = ground arith
  compare_scalars-passed ((raw_key, expected) ∷ entries) result =
      let key = canonical_state_key raw_key in
      let found = compare_scalar row metadata key expected (find key execution.final_state) in
      ground (
        arith,
        compare_scalars-passed entries
            (if is_byte_register num_vec_registers key then result else add_some result found),
        add_some-passed result found,
        compare_scalar-agrees row metadata key expected (find key execution.final_state),
      )

  compare_byte_registers-passed :
      (entries : ByteValues) (result : ComparisonResult)
      → ((compare_byte_registers num_vec_registers execution entries result).passed ≡ true)
        ↔ ((result.passed ≡ true) × All RegisterConforms entries)
  unfolding compare_byte_registers
  compare_byte_registers-passed [] result = ground arith
  compare_byte_registers-passed ((raw_key, expected) ∷ entries) result =
      let key = canonical_state_key raw_key in
      let found = compare_bytes key expected (find key execution.final_bytes) in
      ground (
        arith,
        compare_byte_registers-passed entries (
            if not (is_byte_register num_vec_registers key) then result else add_some result found),
        add_some-passed result found,
        compare_bytes-agrees key expected (find key execution.final_bytes),
      )

-- The expected cells and the actual ones, side by side; actual cells behind the expected ones ask
-- nothing.
abbrev pub MemoryConforms : List MemoryExpectation → List MemoryExpectation → Type 0
MemoryConforms [] actual = Unit
MemoryConforms (e ∷ expected) [] = ⊥
MemoryConforms (e ∷ expected) (a ∷ actual) = CellAgrees e (some a) × MemoryConforms expected actual

compare_memory-passed :
    (expected actual : List MemoryExpectation) (result : ComparisonResult)
    → ((compare_memory expected actual result).passed ≡ true)
      ↔ ((result.passed ≡ true) × MemoryConforms expected actual)
unfolding compare_memory
compare_memory-passed [] actual result = ground arith
compare_memory-passed (e ∷ expected) [] result = ground (
  arith,
  compare_memory-passed expected [] (add_some result (compare_memory_cell e none)),
  add_some-passed result (compare_memory_cell e none),
  compare_memory_cell-agrees e none,
)
compare_memory-passed (e ∷ expected) (a ∷ actual) result = ground (
  arith,
  compare_memory-passed expected actual (add_some result (compare_memory_cell e (some a))),
  add_some-passed result (compare_memory_cell e (some a)),
  compare_memory_cell-agrees e (some a),
)

-- The kind of the exception, if the execution names it.
abbrev pub DetailAgrees : Text → Option Text → Type 0
DetailAgrees expected none = Unit
DetailAgrees expected (some detail) = detail ≡ expected

-- What a row asks of an execution: the exception it names, if the execution names one, or a normal
-- end with the state, the byte registers and the memory it lists.
abbrev pub Conforms : ℕ → ExpectationRow → XedMetadata → ExecutionResult → Option Text → Type 0
Conforms num_vec_registers row metadata execution (some expected) =
    (execution.outcome_class ≡ OutcomeClass.exception)
    × DetailAgrees expected execution.exception_detail
Conforms num_vec_registers row metadata execution none =
    (execution.outcome_class ≡ OutcomeClass.normal)
    × All (ScalarConforms num_vec_registers row metadata execution)
        (value_or row.expected_final_state [])
    × All (RegisterConforms num_vec_registers row metadata execution) row.expected_final_bytes
    × MemoryConforms row.expected_memory execution.final_memory

is_normal_iff : (o : OutcomeClass) → (is_normal o ≡ true) ↔ (o ≡ OutcomeClass.normal)
unfolding is_normal
is_normal_iff OutcomeClass.normal = ground arith
is_normal_iff OutcomeClass.exception = ground arith
is_normal_iff OutcomeClass.unsupported = ground arith
is_normal_iff OutcomeClass.backend_error = ground arith

is_exception_iff : (o : OutcomeClass) → (is_exception o ≡ true) ↔ (o ≡ OutcomeClass.exception)
unfolding is_exception
is_exception_iff OutcomeClass.normal = ground arith
is_exception_iff OutcomeClass.exception = ground arith
is_exception_iff OutcomeClass.unsupported = ground arith
is_exception_iff OutcomeClass.backend_error = ground arith

compare_exception-passed :
    (expected : Text) (execution : ExecutionResult)
    → ((compare_exception expected execution).passed ≡ true) ↔ (
        (execution.outcome_class ≡ OutcomeClass.exception)
        × DetailAgrees expected execution.exception_detail)
unfolding compare_exception add_mismatch
compare_exception-passed expected execution = elim (Option-cases execution.exception_detail) [
  | inl e ↦ ground (arith, is_exception_iff execution.outcome_class)
  | inr (detail, e) ↦
      ground (arith, is_exception_iff execution.outcome_class, same_iff detail expected)
]

-- A comparison passes if and only if the execution conforms to its row: it ends with an exception,
-- of the kind that the row expects where the execution names one, or, for a row that expects none,
-- normally with the expected scalars, compared flags, byte registers and masked memory bytes.
pub compare_execution_result-Conforms :
    (num_vec_registers : ℕ) (row : ExpectationRow) (metadata : XedMetadata)
    (execution : ExecutionResult)
    → ((compare_execution_result num_vec_registers row metadata execution).passed ≡ true)
      ↔ Conforms num_vec_registers row metadata execution row.expected_exception_kind
unfolding compare_execution_result add_mismatch
compare_execution_result-Conforms num_vec_registers row metadata execution =
    elim (Option-cases row.expected_exception_kind) [
      | inr (expected, e) ↦ ground (arith, compare_exception-passed expected execution)
      | inl e ↦
          let scalars =
            compare_scalars num_vec_registers row metadata execution
              (value_or row.expected_final_state []) fresh_comparison in
          let registers =
            compare_byte_registers num_vec_registers execution row.expected_final_bytes scalars in
          ground (
            arith,
            is_normal_iff execution.outcome_class,
            compare_scalars-passed num_vec_registers row metadata execution
                (value_or row.expected_final_state []) fresh_comparison,
            compare_byte_registers-passed num_vec_registers row metadata execution
                row.expected_final_bytes scalars,
            compare_memory-passed row.expected_memory execution.final_memory registers,
          )
    ]
