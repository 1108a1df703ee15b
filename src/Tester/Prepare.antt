-- ===== src/Tester/Prepare.antt =====
-- src/tester_main.cpp: the pass of Run over the headers of the corpora that collects the rows for
-- PrepareCases.
pub mod Collected
use remill_tester.Base.{
  ℕ, ◌+◌, ◌-◌, ◌%◌, ◌^◌, min, Bool, true, false, not, ◌||◌, List, [], ◌∷◌, ◌++◌, Option, none, some,
  if◌then◌else◌, ◌==◌, has_value,
}
use remill_tester.Base.Text.{Text, codes, same, member}
use remill_tester.Base.Result.{Result, ok, err, ◌>>=◌, map_error}
use remill_tester.Expectation.{ExpectationRow, fresh_row}
use remill_tester.Parser.Strings.{Parse, parse_hex_bytes}
use remill_tester.Parser.File.{ParsedInstructionHeader, parse_instruction_headers}
use remill_tester.XedMetadata.{XedMetadata}
use remill_tester.Tester.Options.{Options}
use remill_tester.Tester.Operands.{decode_key}
use remill_tester.Tester.Skip.{pre_execution_skip}
use remill_tester.Tester.Run.{RunError, passes_filters, reached}

-- The variables of the pass.
pub record PrepareState : Type 0 where
  pub selected_groups : ℕ
  pub selected_rows : ℕ
  pub keys : List Text
  pub rows : List ExpectationRow
  pub stop : Bool

abbrev pub initial_prepare : PrepareState
initial_prepare = record {
  selected_groups = 0;
  selected_rows = 0;
  keys = [];
  rows = [];
  stop = false;
}

unfoldable pub row_of_header : ParsedInstructionHeader → ExpectationRow
row_of_header header = record fresh_row {
  instruction_id = header.instruction_id;
  address = header.address;
  opcode = header.opcode;
  instruction = header.instruction;
}

-- The rows of a group that the limit leaves room for.
unfoldable pub remaining_rows : ℕ → ℕ → ℕ → ℕ
remaining_rows limit_states selected_rows row_count =
    if limit_states == 0 then row_count else min row_count (limit_states - selected_rows)

-- Instructions that are left to the main loop.
unfoldable pub is_trap : Text → Bool
is_trap iclass =
    same iclass (codes "INT")
    || same iclass (codes "INT3")
    || same iclass (codes "UD2")
    || same iclass (codes "SYSCALL")
    || same iclass (codes "SYSENTER")
    || same iclass (codes "SYSEXIT")

unfoldable pub add_prepared : ExpectationRow → PrepareState → PrepareState
add_prepared row s =
    if member (decode_key row) s.keys
    then s
    else record s { keys = s.keys ++ (decode_key row ∷ []); rows = s.rows ++ (row ∷ []) }

module _ (decode : ℕ → List ℕ → XedMetadata) (options : Options) where
  -- A group that the limits let through.
  unfoldable pub prepare_group : ParsedInstructionHeader → PrepareState → Parse PrepareState
  prepare_group header s = do
    let row = row_of_header header
    let counted = record s {
      selected_groups = (s.selected_groups + 1) % 2 ^ 64;
      selected_rows =
          (s.selected_rows + remaining_rows options.limit_states s.selected_rows header.row_count)
          % 2 ^ 64;
    }
    bytes ← parse_hex_bytes row.opcode
    let metadata = decode row.address bytes
    skipped ← pre_execution_skip metadata row false
    ok (if has_value skipped || is_trap metadata.iclass then counted else add_prepared row counted)

  unfoldable pub prepare_header : ParsedInstructionHeader → PrepareState → Parse PrepareState
  prepare_header header s =
      if not (passes_filters options (row_of_header header))
      then ok s
      else if reached options.limit_states s.selected_rows
          || reached options.limit_instructions s.selected_groups
      then ok (record s { stop = true })
      else prepare_group header s

  unfoldable pub prepare_headers : List ParsedInstructionHeader → PrepareState → Parse PrepareState
  prepare_headers [] s = ok s
  prepare_headers (header ∷ headers) s = do
    s' ← prepare_header header s
    elim s'.stop [ true ↦ ok s' | false ↦ prepare_headers headers s' ]

  unfoldable pub prepare_files :
      (Text → Option (List Text)) → List Text → PrepareState → Result RunError PrepareState
  prepare_files read_file [] s = ok s
  prepare_files read_file (path ∷ paths) s = elim s.stop [
    | true ↦ ok s
    | false ↦ do
      headers ← map_error RunError.in_file (parse_instruction_headers (read_file path))
      s' ← map_error RunError.in_row (prepare_headers headers s)
      prepare_files read_file paths s'
  ]
