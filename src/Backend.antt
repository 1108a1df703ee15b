-- ===== src/Backend.antt =====
-- src/remill_backend.hpp and src/remill_backend.cpp: RunCase, from a row to what was observed.
-- LLVM, the JIT and Remill are parameters: whether the backend can be initialised, and what Compile
-- gives for a row, a function on the state and the memory or the text of an error.
pub mod StateErrors
pub mod Pending
pub mod Compiler
use remill_tester.Base.{
  ℕ, Bool, true, false, not, ◌&&◌, ◌||◌, List, [], ◌∷◌, ◌++◌, map, Option, none, some, bit_or, ◌==◌,
  if◌then◌else◌, length, has_value, value_or,
}
use remill_tester.Base.Text.{Text, codes, same, starts_with}
use remill_tester.Base.Chars.{print_number}
use remill_tester.Base.Result.{Result, ok, err, ◌>>=◌}
use remill_tester.Expectation.{
  MemoryCell, MemoryExpectation, OutcomeClass, ExecutionResult, fresh_result, ExpectationRow,
}
use remill_tester.GuestMemory
use remill_tester.GuestMemory.MemoryPermissions
use remill_tester.GuestMemory.{
  GuestMemory, MemoryFault, MemoryFaultKind, empty_memory, page_base, page_size, map_range,
}
use remill_tester.GuestMemory.Transfer.{write, read}
use remill_tester.Parser.Strings.{Parse, to_lower, parse_hex_bytes}
use remill_tester.StateBridge.{
  State, zero_state, reset_state, get_scalar_register, set_scalar_register,
}
use remill_tester.StateBridge.Sparse.{apply_initial_state, snapshot_state, snapshot_bytes}

-- `Memory *(*)(State *, std::uint64_t, Memory *)`: what the call leaves in both objects.
abbrev pub LiftedFunction : Type 0
LiftedFunction = State → ℕ → GuestMemory → State × GuestMemory

unfoldable pub supports_case : ExpectationRow → Bool
supports_case row = not (same row.opcode [])

unfoldable pub is_unsupported_compile_error : Text → Bool
is_unsupported_compile_error error =
    starts_with error (codes "Remill failed to decode")
    || starts_with error (codes "Remill failed to lift")

abbrev pub failed_with : OutcomeClass → Text → ExecutionResult
failed_with outcome error = record fresh_result {
  outcome_class = outcome;
  backend_error = some error;
}

-- The cells of the row, mapped and written; what the calls answer is not looked at.
unfoldable pub load_cells : List MemoryCell → GuestMemory → GuestMemory
load_cells [] m = m
load_cells (cell ∷ cells) m =
    let permissions =
      if cell.permissions == 0 then MemoryPermissions.read_write else cell.permissions in
    let mapped = (map_range m cell.address (length cell.bytes) permissions).1 in
    load_cells cells (write mapped cell.address cell.bytes).1

-- The memory that the lifted function finds: the page of the opcode, and the cells of the row.
unfoldable pub load_memory : ExpectationRow → List ℕ → GuestMemory
unfolding load_cells
load_memory row opcode_bytes =
    let permissions = bit_or MemoryPermissions.read_execute MemoryPermissions.write in
    let mapped = (map_range empty_memory (page_base row.address) page_size permissions).1 in
    load_cells row.initial_memory (write mapped row.address opcode_bytes).1

-- The loop that reads the expected cells back; each read may record a fault.
unfoldable pub observe : List MemoryExpectation → GuestMemory → List MemoryExpectation × GuestMemory
observe [] m = ([], m)
observe (e ∷ expected) m =
    let (found, bytes, m') = read m e.address (length e.bytes) in
    let (observed, m'') = observe expected m' in
    (record { address = e.address; bytes = bytes; mask = e.mask } ∷ observed, m'')

unfoldable pub is_unsupported_fault : MemoryFaultKind → Bool
is_unsupported_fault MemoryFaultKind.unsupported = true
is_unsupported_fault _ = false

unfoldable pub fault_detail : MemoryFault → Text
fault_detail fault =
    fault.operation
    ++ codes " fault at 0x"
    ++ to_lower (print_number 16 fault.address)
    ++ codes ": "
    ++ fault.detail

-- What RunCase reports of a fault.
unfoldable pub report_fault : ExpectationRow → MemoryFault → ExecutionResult → ExecutionResult
report_fault row fault result =
    let unsupported = is_unsupported_fault fault.kind in
    let remill_error = unsupported && same fault.detail (codes "__remill_error") in
    if remill_error && has_value row.expected_exception_kind
    then record result {
      outcome_class = OutcomeClass.exception;
      exception_detail = some (value_or row.expected_exception_kind []);
    }
    else record result {
      outcome_class = if unsupported then OutcomeClass.unsupported else OutcomeClass.exception;
      exception_detail = some (fault_detail fault);
    }

module _ (num_vec_registers : ℕ) where
  -- What RunCase does once the lifted function has run.
  unfoldable pub observe_run : ExpectationRow → List Text → State → GuestMemory → ExecutionResult
  observe_run row final_state_keys state memory =
      let (final_memory, m) =
        if GuestMemory.ok memory then observe row.expected_memory memory else ([], memory) in
      let result = record fresh_result { final_memory = final_memory } in
      elim m.last_fault [
        | some fault ↦ report_fault row fault result
        | none ↦ record result {
          outcome_class = OutcomeClass.normal;
          final_state = snapshot_state state final_state_keys;
          final_bytes =
              snapshot_bytes num_vec_registers state
                (map (λ (e : Text × List ℕ). e.0) row.expected_final_bytes);
        }
      ]

  -- The state before the call: the row's values, and the row's address where `rip` is 0.
  unfoldable pub start_state : ExpectationRow → Option Text × State
  start_state row =
      let (error, state) =
        apply_initial_state num_vec_registers (reset_state zero_state) row.initial_state
          row.initial_bytes in
      (
        error,
        if value_or (get_scalar_register state (codes "rip")) 0 == 0
            then (set_scalar_register state (codes "rip") row.address).1
            else state,
      )

  -- Behind a successful Compile.
  unfoldable pub run_compiled : ExpectationRow → List Text → LiftedFunction → Parse ExecutionResult
  unfolding start_state observe_run
  run_compiled row final_state_keys function =
      let (error, state) = start_state row in
      elim error [
        | some message ↦ ok (failed_with OutcomeClass.unsupported message)
        | none ↦ do
          opcode_bytes ← parse_hex_bytes row.opcode
          let (state', memory') = function state row.address (load_memory row opcode_bytes)
          ok (observe_run row final_state_keys state' memory')
      ]

  -- `initialised` is the error of EnsureInitialized, if it fails; `compile` is Compile.
  unfoldable pub run_case :
      Option Text
      → (ExpectationRow → Result Text LiftedFunction)
      → ExpectationRow
      → List Text
      → Parse ExecutionResult
  unfolding run_compiled
  run_case initialised compile row final_state_keys =
      if not (supports_case row)
      then ok (failed_with OutcomeClass.unsupported (codes "row has no opcode"))
      else elim initialised [
        | some error ↦ ok (failed_with OutcomeClass.backend_error error)
        | none ↦ elim (compile row) [
          | err error ↦ ok (
              failed_with
                (if is_unsupported_compile_error error
                  then OutcomeClass.unsupported
                  else OutcomeClass.backend_error)
                error)
          | ok function ↦ run_compiled row final_state_keys function
        ]
      ]
