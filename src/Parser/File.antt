-- ===== src/Parser/File.antt =====
-- src/x86tester_parser.cpp: the two passes over a file. The file is the list of its lines, `none`
-- where it cannot be opened; what `getline` cuts off is not part of a line.
use remill_tester.Base.{
  ℕ, ◌+◌, ◌-◌, Bool, true, false, not, ◌&&◌, ◌||◌, List, [], ◌∷◌, ◌++◌, Option, none, some, ◌==◌,
  if◌then◌else◌,
}
use remill_tester.Base.Text.{Text, codes, same, starts_with}
use remill_tester.Base.Result.{Result, ok, err, ◌>>=◌}
use remill_tester.Expectation.{ExpectationRow}
use remill_tester.Parser.Strings.{ParseError, duplicate_data_header, row_before_header, Parse, trim}
use remill_tester.Parser.Header.{
  InstructionHeader, fresh_header, parse_header, parse_data_header, parse_data_pool_value,
}
use remill_tester.Parser.Row.{DataPool, parse_state_row}

pub record ParsedCorpus : Type 0 where
  pub rows : List ExpectationRow
  pub instruction_groups : ℕ
  pub parse_warnings : ℕ

pub record ParsedInstructionHeader : Type 0 where
  pub instruction_id : ℕ
  pub address : ℕ
  pub opcode : Text
  pub instruction : Text
  pub row_count : ℕ

-- What the two functions throw: an exception of a line comes with the number of the line.
pub data FileError : Type 0 where
  cannot_open : FileError
  at_line : ℕ → ParseError → FileError
  missing_data_header : FileError
  missing_data_values : ℕ → FileError

abbrev pub at {ℓ} : {A : Type ℓ} → ℕ → Parse A → Result FileError A
at line_number (ok a) = ok a
at line_number (err e) = err (at_line line_number e)

-- The variables of the loop of ParseFile.
pub record FileState : Type 0 where
  pub corpus : ParsedCorpus
  pub data_pool : DataPool
  pub data_values_remaining : ℕ
  pub instruction_id : ℕ
  pub next_test_case_id : ℕ
  pub state_index : ℕ
  pub rows_in_group : ℕ
  pub current_header : InstructionHeader
  pub have_data_header : Bool
  pub have_header : Bool

abbrev pub initial_state : FileState
initial_state = record {
  corpus = record { rows = []; instruction_groups = 0; parse_warnings = 0 };
  data_pool = [];
  data_values_remaining = 0;
  instruction_id = 0;
  next_test_case_id = 0;
  state_index = 0;
  rows_in_group = 0;
  current_header = fresh_header;
  have_data_header = false;
  have_header = false;
}

unfoldable pub finish_group : FileState → FileState
finish_group s =
    if s.have_header && not (s.rows_in_group == s.current_header.row_count)
    then record s { corpus = record s.corpus { parse_warnings = s.corpus.parse_warnings + 1 } }
    else s

-- A header line opens a group.
unfoldable pub open_group : FileState → InstructionHeader → FileState
open_group s header = record s {
  current_header = header;
  have_header = true;
  state_index = 0;
  rows_in_group = 0;
  instruction_id = s.instruction_id + 1;
  corpus = record s.corpus { instruction_groups = s.corpus.instruction_groups + 1 };
}

unfoldable pub add_row : FileState → ExpectationRow → FileState
add_row s row = record s {
  corpus = record s.corpus { rows = s.corpus.rows ++ row ∷ [] };
  next_test_case_id = s.next_test_case_id + 1;
  state_index = s.state_index + 1;
  rows_in_group = s.rows_in_group + 1;
}

unfoldable pub add_value : FileState → List ℕ → FileState
add_value s value = record s {
  data_pool = s.data_pool ++ value ∷ [];
  data_values_remaining = s.data_values_remaining - 1;
}

-- The body of the loop of ParseFile, on a trimmed line that is not empty.
unfoldable pub parse_line : FileState → Text → Parse FileState
parse_line s trimmed =
    if not s.have_data_header
    then (do
      count ← parse_data_header trimmed
      ok (record s { data_values_remaining = count; have_data_header = true }))
    else if not (s.data_values_remaining == 0)
    then (do value ← parse_data_pool_value trimmed; ok (add_value s value))
    else if starts_with trimmed (codes "data:")
    then err duplicate_data_header
    else if starts_with trimmed (codes "instr:")
    then (do header ← parse_header trimmed; ok (open_group (finish_group s) header))
    else if not s.have_header
    then err row_before_header
    else (do
      row ←
          parse_state_row trimmed s.current_header s.instruction_id s.next_test_case_id
            s.state_index s.data_pool
      ok (add_row s row))

unfoldable pub parse_lines : List Text → ℕ → FileState → Result FileError FileState
parse_lines [] line_number s = ok s
parse_lines (line ∷ lines) line_number s = elim (same (trim line) []) [
  | true ↦ parse_lines lines (line_number + 1) s
  | false ↦ do
    s' ← at (line_number + 1) (parse_line s (trim line))
    parse_lines lines (line_number + 1) s'
]

-- What ParseFile does behind the loop.
unfoldable pub finish_file : FileState → Result FileError ParsedCorpus
finish_file s =
    if not s.have_data_header
    then err missing_data_header
    else if not (s.data_values_remaining == 0)
    then err (missing_data_values s.data_values_remaining)
    else ok (finish_group s).corpus

unfoldable pub parse_file : Option (List Text) → Result FileError ParsedCorpus
unfolding parse_lines finish_file
parse_file none = err cannot_open
parse_file (some lines) = do s ← parse_lines lines 0 initial_state; finish_file s

-- The loop of ParseInstructionHeaders.
unfoldable pub header_lines : List Text → ℕ → ℕ → Result FileError (List ParsedInstructionHeader)
header_lines [] line_number instruction_id = ok []
header_lines (line ∷ lines) line_number instruction_id =
    elim (same (trim line) [] || not (starts_with (trim line) (codes "instr:"))) [
      | true ↦ header_lines lines (line_number + 1) instruction_id
      | false ↦ do
        header ← at (line_number + 1) (parse_header (trim line))
        headers ← header_lines lines (line_number + 1) (instruction_id + 1)
        ok (
            record {
              instruction_id = instruction_id + 1;
              address = header.address;
              opcode = header.opcode;
              instruction = header.instruction;
              row_count = header.row_count;
            }
            ∷ headers)
    ]

unfoldable pub parse_instruction_headers :
    Option (List Text) → Result FileError (List ParsedInstructionHeader)
unfolding header_lines
parse_instruction_headers none = err cannot_open
parse_instruction_headers (some lines) = header_lines lines 0 0
