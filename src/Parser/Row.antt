-- ===== src/Parser/Row.antt =====
-- src/x86tester_parser.cpp: a state row, its pool indexes and the values that they name.
use remill_tester.Base.{
  ℕ, ◌-◌, ◌^◌, not, ◌&&◌, ◌||◌, List, [], ◌∷◌, ◌++◌, Option, none, some, ltb, leb, ◌==◌,
  if◌then◌else◌, length, get_or, drop, has_value,
}
use remill_tester.Base.Text.{Text, codes, same, starts_with, cut}
use remill_tester.Base.Map.{assign, text_key}
use remill_tester.Base.Result.{ok, err, ◌>>=◌}
use remill_tester.Expectation.{
  Scalars, ByteValues, MemoryCell, MemoryExpectation, ExpectationRow, fresh_row,
}
use remill_tester.Parser.Strings.{
  memory_key_misplaced, values_for_empty_schema, no_values, value_count, empty_index,
  index_out_of_range, index_too_large, schema_value_count, no_separator, second_separator,
  empty_exception, Parse, split, trim, parse_unsigned, read_little_endian_scalar,
  canonical_state_key, parse_memory_address_key, is_byte_state_key,
}
use remill_tester.Parser.Header.{InstructionHeader}

abbrev pub DataPool : Type 0
DataPool = List (List ℕ)

-- What ApplySchemaValues fills in: the maps, and the memory list behind each of its two pointers,
-- `none` for a null pointer.
pub record Sink : Type 0 where
  pub scalars : Scalars
  pub bytes_map : ByteValues
  pub input_memory : Option (List MemoryCell)
  pub output_memory : Option (List MemoryExpectation)

unfoldable pub add_state_bytes : Text → List ℕ → Sink → Parse Sink
add_state_bytes raw_key bytes sink =
    let key = canonical_state_key raw_key in
    let wide = is_byte_state_key key || ltb 8 (length bytes) in
    let with_bytes =
      λ (s : Sink). if wide then record s { bytes_map = assign key bytes s.bytes_map } else s in
    if not (length bytes == 0) && leb (length bytes) 8
    then (do
      scalar ← read_little_endian_scalar bytes
      ok (with_bytes (record sink { scalars = assign key scalar sink.scalars })))
    else ok (with_bytes sink)

abbrev pub add_memory_input : List MemoryCell → ℕ → List ℕ → List MemoryCell
add_memory_input memory address bytes =
    memory ++ (record { address = address; bytes = bytes; permissions = 0 } ∷ [])

abbrev pub add_memory_output : List MemoryExpectation → ℕ → List ℕ → List MemoryExpectation
add_memory_output memory address bytes =
    memory ++ (record { address = address; bytes = bytes; mask = [] } ∷ [])

-- A pooled value under a memory key goes to the first of the two lists that is there.
unfoldable pub add_memory : Text → ℕ → List ℕ → Sink → Parse Sink
add_memory raw_key address bytes sink = elim sink.input_memory [
  | some cells ↦ ok (record sink { input_memory = some (add_memory_input cells address bytes) })
  | none ↦ elim sink.output_memory [
    | some cells ↦ ok (record sink { output_memory = some (add_memory_output cells address bytes) })
    | none ↦ err (memory_key_misplaced raw_key)
  ]
]

unfoldable pub add_pooled_value : Text → List ℕ → Sink → Parse Sink
unfolding add_state_bytes add_memory
add_pooled_value raw_key bytes sink = do
  memory_address ← parse_memory_address_key raw_key
  elim memory_address [
    | some address ↦ add_memory raw_key address bytes sink
    | none ↦ add_state_bytes raw_key bytes sink
  ]

-- The tests of ParseIndexList on an index that was read.
unfoldable pub check_index : Text → ℕ → Text → ℕ → Parse ℕ
check_index kind data_pool_size index_text raw_index =
    if leb data_pool_size raw_index
    then err (index_out_of_range kind raw_index data_pool_size)
    else if ltb (2 ^ 64 - 1) raw_index
    then err (index_too_large kind index_text)
    else ok raw_index

-- One round of the loop of ParseIndexList.
unfoldable pub parse_index : Text → ℕ → Text → Text → Parse ℕ
unfolding check_index
parse_index kind data_pool_size text part =
    let index_text = trim part in
    if same index_text [] then err (empty_index kind text) else (do
      raw_index ← parse_unsigned index_text 10
      check_index kind data_pool_size index_text raw_index)

unfoldable pub parse_indices : Text → ℕ → Text → List Text → Parse (List ℕ)
parse_indices kind data_pool_size text [] = ok []
parse_indices kind data_pool_size text (part ∷ parts) =
    let rest = parse_indices kind data_pool_size text parts in
    do index ← parse_index kind data_pool_size text part; indices ← rest; ok (index ∷ indices)

unfoldable pub parse_index_list : Text → ℕ → ℕ → Text → Parse (List ℕ)
unfolding parse_indices parse_index
parse_index_list text expected_count data_pool_size kind =
    let trimmed = trim text in
    let parts = split trimmed b',' in
    if expected_count == 0
    then (if not (same trimmed []) then err (values_for_empty_schema kind text) else ok [])
    else if same trimmed []
    then err (no_values kind)
    else if not (length parts == expected_count)
    then err (value_count kind (length parts) expected_count text)
    else parse_indices kind data_pool_size text parts

-- The loop of ApplySchemaValues over the schema and its indexes side by side.
unfoldable pub apply_values : List Text → List ℕ → DataPool → Sink → Parse Sink
apply_values (key ∷ schema) (index ∷ indices) data_pool sink = do
  sink' ← add_pooled_value key (get_or data_pool index []) sink
  apply_values schema indices data_pool sink'
apply_values _ _ data_pool sink = ok sink

unfoldable pub apply_schema_values : List Text → List ℕ → DataPool → Sink → Parse Sink
unfolding apply_values add_pooled_value
apply_schema_values schema indices data_pool sink =
    if not (length schema == length indices)
    then err schema_value_count
    else apply_values schema indices data_pool sink

-- The row that ParseStateRow starts from.
abbrev pub row_of_header : InstructionHeader → ℕ → ℕ → ℕ → ExpectationRow
row_of_header header instruction_id test_case_id state_index = record fresh_row {
  test_case_id = test_case_id;
  instruction_id = instruction_id;
  address = header.address;
  instruction = header.instruction;
  opcode = header.opcode;
  state_index = state_index;
  total_states = header.row_count;
  selected_states = header.row_count;
  selected_state_index = state_index;
}

abbrev pub memory_of {ℓ} : {A : Type ℓ} → Option (List A) → List A
memory_of none = []
memory_of (some cells) = cells

-- The input half of a row.
unfoldable pub parse_inputs :
    Text → InstructionHeader → DataPool → ExpectationRow → Parse ExpectationRow
parse_inputs text header data_pool row = do
  indices ← parse_index_list text (length header.input_schema) (length data_pool) (codes "input")
  sink ← apply_schema_values header.input_schema indices data_pool (record {
    scalars = row.initial_state;
    bytes_map = row.initial_bytes;
    input_memory = some row.initial_memory;
    output_memory = none;
  })
  ok (record row {
    initial_state = sink.scalars;
    initial_bytes = sink.bytes_map;
    initial_memory = memory_of sink.input_memory;
  })

-- The output half: an exception behind `!`, or the expected values.
unfoldable pub parse_outputs :
    Text → Text → InstructionHeader → DataPool → ExpectationRow → Parse ExpectationRow
parse_outputs line output_text header data_pool row =
    let exception_kind = trim (drop 1 output_text) in
    if starts_with output_text (codes "!")
    then (if same exception_kind []
        then err (empty_exception line)
        else ok (record row {
          expected_exception_kind = some exception_kind;
          expected_final_state = some [];
          expected_final_bytes = [];
        }))
    else (do
      indices ←
          parse_index_list output_text (length header.output_schema) (length data_pool)
            (codes "output")
      sink ← apply_schema_values header.output_schema indices data_pool (record {
        scalars = [];
        bytes_map = [];
        input_memory = none;
        output_memory = some row.expected_memory;
      })
      ok (record row {
        expected_memory = memory_of sink.output_memory;
        expected_final_state = some sink.scalars;
        expected_final_bytes = sink.bytes_map;
      }))

unfoldable pub parse_state_row :
    Text → InstructionHeader → ℕ → ℕ → ℕ → DataPool → Parse ExpectationRow
unfolding parse_inputs parse_outputs
parse_state_row line header instruction_id test_case_id state_index data_pool =
    elim (cut b'|' (trim line)) [
      | none ↦ err (no_separator line)
      | some (input_text, behind) ↦
          if has_value (cut b'|' behind) then err (second_separator line) else (do
            row ←
                parse_inputs input_text header data_pool
                  (row_of_header header instruction_id test_case_id state_index)
            parse_outputs line (trim behind) header data_pool row)
    ]
