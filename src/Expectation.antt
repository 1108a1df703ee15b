-- ===== src/Expectation.antt =====
-- src/expectation.hpp: the records that the parser, the backend and the comparator exchange.
use remill_tester.Base.{ℕ, List, [], Option, none}
use remill_tester.Base.Text.{Text}

-- `std::map<std::string, std::uint64_t>` and `std::map<std::string, std::vector<std::uint8_t>>`.
abbrev pub Scalars : Type 0
Scalars = List (Text × ℕ)

abbrev pub ByteValues : Type 0
ByteValues = List (Text × List ℕ)

pub record MemoryCell : Type 0 where
  pub address : ℕ
  pub bytes : List ℕ
  pub permissions : ℕ

pub record MemoryExpectation : Type 0 where
  pub address : ℕ
  pub bytes : List ℕ
  pub mask : List ℕ

pub data OutcomeClass : Type 0 where
  normal exception unsupported backend_error : OutcomeClass

pub record ExecutionResult : Type 0 where
  pub outcome_class : OutcomeClass
  pub final_state : Scalars
  pub final_bytes : ByteValues
  pub final_memory : List MemoryExpectation
  pub exception_detail : Option Text
  pub backend_error : Option Text

abbrev pub fresh_result : ExecutionResult
fresh_result = record {
  outcome_class = OutcomeClass.backend_error;
  final_state = [];
  final_bytes = [];
  final_memory = [];
  exception_detail = none;
  backend_error = none;
}

pub record ExpectationRow : Type 0 where
  pub test_case_id : ℕ
  pub instruction_id : ℕ
  pub address : ℕ
  pub instruction : Text
  pub opcode : Text
  pub state_index : ℕ
  pub initial_state : Scalars
  pub expected_final_state : Option Scalars
  pub initial_bytes : ByteValues
  pub expected_final_bytes : ByteValues
  pub expected_exception_kind : Option Text
  pub undefined_flags : List Text
  pub instruction_tags : List Text
  pub initial_memory : List MemoryCell
  pub expected_memory : List MemoryExpectation
  pub total_states : ℕ
  pub selected_states : ℕ
  pub selected_state_index : ℕ

abbrev pub fresh_row : ExpectationRow
fresh_row = record {
  test_case_id = 0;
  instruction_id = 0;
  address = 0;
  instruction = [];
  opcode = [];
  state_index = 0;
  initial_state = [];
  expected_final_state = none;
  initial_bytes = [];
  expected_final_bytes = [];
  expected_exception_kind = none;
  undefined_flags = [];
  instruction_tags = [];
  initial_memory = [];
  expected_memory = [];
  total_states = 0;
  selected_states = 0;
  selected_state_index = 0;
}
