-- ===== src/Tester/Run.antt =====
-- src/tester_main.cpp: the loop of Run over the rows of the corpora. The decoder and the backend are
-- parameters; the backend's members are among the variables of the loop. The two JSON reports are the
-- lines written so far, `none` where the report was not asked for. Standard error is not modelled.
pub mod Accounting
pub mod Covers
pub mod Loop
use remill_tester.Base.{
  ℕ, ◌+◌, Bool, true, false, not, ◌&&◌, ◌||◌, List, [], ◌∷◌, ◌++◌, map, Option, none, some, leb,
  ◌==◌, if◌then◌else◌, length, value_or, empty_list,
}
use remill_tester.Base.Text.{Text, same, member}
use remill_tester.Base.Map.{find, assign, text_key}
use remill_tester.Base.Result.{Result, ok, err, ◌>>=◌, map_error}
use remill_tester.Expectation.{Scalars, MemoryCell, OutcomeClass, ExecutionResult, ExpectationRow}
use remill_tester.Parser.Strings.{Parse, ParseError, parse_hex_bytes}
use remill_tester.Parser.File.{FileError, ParsedCorpus, parse_file}
use remill_tester.XedMetadata.{XedMetadata}
use remill_tester.Comparator.Compare.{FieldMismatch, ComparisonResult}
use remill_tester.Backend.Pending.{RemillBackend}
use remill_tester.Tester.Options.{OptionError, Options}
use remill_tester.Tester.Output.{metadata_line}
use remill_tester.Tester.Operands.{first_token, decode_key, instruction_group_key}
use remill_tester.Tester.Unsupported.{requires_memory_oracle}
use remill_tester.Tester.Skip.{SkipInfo, pre_execution_skip, unsupported_reason, unsupported_detail}
use remill_tester.Tester.Json.{skip_json, mismatch_json}
use remill_tester.Tester.Summary.{
  Summary, fresh_summary, bump, record_skip, record_decode, record_row, exit_status,
}

-- The exceptions that end a run: of ParseOptions, of a file, of a row, and Run's own.
pub data RunError : Type 0 where
  in_options : OptionError → RunError
  in_file : FileError → RunError
  in_row : ParseError → RunError
  failed_to_open failed_to_prepare self_test_failed : Text → RunError

-- The variables of Run. A `std::set` is the list of its members without repetition.
pub record RunState : Type 0 where
  pub summary : Summary
  pub decode_cache : List (Text × XedMetadata)
  pub selected_groups : List Text
  pub stop : Bool
  pub mismatch_report : Option (List Text)
  pub skip_report : Option (List Text)
  pub backend : RemillBackend
  pub printed_decodes : List Text
  pub output : Text

abbrev pub report : Option (List Text) → List Text → Option (List Text)
report none lines = none
report (some written) lines = some (written ++ lines)

-- The two filters: an empty set lets everything through.
unfoldable pub passes_filters : Options → ExpectationRow → Bool
passes_filters options row =
    (empty_list options.mnemonics || member (first_token row.instruction) options.mnemonics)
    && (empty_list options.opcodes || member row.opcode options.opcodes)

-- A limit of 0 is no limit.
unfoldable pub reached : ℕ → ℕ → Bool
reached limit count = not (limit == 0) && leb limit count

-- The row's instruction group is selected, if it is not yet and there is room; `none` stops.
unfoldable pub select_group : Options → Text → ExpectationRow → RunState → Option RunState
select_group options path row s =
    let key = instruction_group_key path row in
    if member key s.selected_groups
    then some s
    else if reached options.limit_instructions (length s.selected_groups)
    then none
    else some (record s {
      selected_groups = key ∷ s.selected_groups;
      summary = record s.summary {
        selected_instruction_groups = s.summary.selected_instruction_groups + 1;
        groups_by_mnemonic = bump (first_token row.instruction) s.summary.groups_by_mnemonic;
      };
    })

abbrev pub keys_of : Option Scalars → List Text
keys_of none = []
keys_of (some scalars) = map (λ (e : Text × ℕ). e.0) scalars

unfoldable pub is_unsupported : OutcomeClass → Bool
is_unsupported OutcomeClass.unsupported = true
is_unsupported _ = false

unfoldable pub skip_row : Text → ExpectationRow → Text → Text → RunState → RunState
skip_row path row reason detail s = record s {
  summary = record_skip s.summary reason;
  skip_report = report s.skip_report (skip_json path row reason detail ∷ []);
}

-- What the comparison of a row does to the counters, the report and `stop`.
unfoldable pub record_comparison :
    Options → Text → ExpectationRow → ComparisonResult → RunState → RunState
record_comparison options path row comparison s =
    if comparison.passed
    then record s {
      summary = record s.summary { execution_passed = s.summary.execution_passed + 1 };
    }
    else record s {
      summary = record s.summary { execution_failed = s.summary.execution_failed + 1 };
      mismatch_report =
          report s.mismatch_report (map (mismatch_json path row) comparison.mismatches);
      stop = s.stop || options.stop_on_first_fail;
    }

-- With --print-instructions, one line for each decode.
unfoldable pub print_decode : Options → ExpectationRow → XedMetadata → RunState → RunState
print_decode options row metadata s =
    let key = decode_key row in
    if options.print_instructions && not (member key s.printed_decodes)
    then record s {
      printed_decodes = key ∷ s.printed_decodes;
      output = s.output ++ metadata_line row metadata;
    }
    else s

module _ (decode : ℕ → List ℕ → XedMetadata)
    (run_case : ExpectationRow
      → List Text
      → RemillBackend
      → Parse (ExecutionResult × RemillBackend))
    (compare : ExpectationRow → XedMetadata → ExecutionResult → ComparisonResult)
    (options : Options) where
  -- The metadata of a row, from the cache or decoded and cached.
  unfoldable pub metadata_of_row : ExpectationRow → RunState → Parse (XedMetadata × RunState)
  metadata_of_row row s = elim (find (decode_key row) s.decode_cache) [
    | some metadata ↦ ok (metadata, s)
    | none ↦ do
      bytes ← parse_hex_bytes row.opcode
      let metadata = decode row.address bytes
      ok (
        metadata,
        record s {
          decode_cache = assign (decode_key row) metadata s.decode_cache;
          summary = record_decode s.summary metadata (length bytes);
        },
      )
  ]

  -- A row that is not skipped is run, and its outcome recorded.
  unfoldable pub run_selected : Text → ExpectationRow → XedMetadata → RunState → Parse RunState
  run_selected path row metadata s = do
    (execution, backend) ← run_case row (keys_of row.expected_final_state) s.backend
    let s' = record s { backend = backend }
    ok (
        if is_unsupported execution.outcome_class
        then skip_row path row (unsupported_reason execution) (unsupported_detail execution) s'
        else record_comparison options path row (compare row metadata execution) s')

  unfoldable pub execute_row :
      Text → ExpectationRow → XedMetadata → Bool → RunState → Parse RunState
  execute_row path row metadata memory_state_missing s = do
    skipped ← pre_execution_skip metadata row memory_state_missing
    elim skipped [
      | some info ↦ ok (skip_row path row info.reason info.detail s)
      | none ↦ run_selected path row metadata s
    ]

  -- A row whose group is selected.
  unfoldable pub count_row : Text → ExpectationRow → RunState → Parse RunState
  count_row path row s = do
    (metadata, s') ← metadata_of_row row s
    let missing = metadata.ok && requires_memory_oracle metadata && empty_list row.initial_memory
    let printed = print_decode options row metadata s'
    let counted = record printed {
      summary = record_row printed.summary (first_token row.instruction) metadata missing;
    }
    if options.execute then execute_row path row metadata missing counted else ok counted

  -- The body of the loop over the rows.
  unfoldable pub process_row : Text → ExpectationRow → RunState → Parse RunState
  process_row path row s =
      if not (passes_filters options row)
      then ok s
      else if reached options.limit_states s.summary.selected_rows
      then ok (record s { stop = true })
      else elim (select_group options path row s) [
        | none ↦ ok (record s { stop = true })
        | some s' ↦ count_row path row s'
      ]

  unfoldable pub process_rows : Text → List ExpectationRow → RunState → Parse RunState
  process_rows path [] s = ok s
  process_rows path (row ∷ rows) s = do
    s' ← process_row path row s
    elim s'.stop [ true ↦ ok s' | false ↦ process_rows path rows s' ]

  -- The counters of a file that was parsed.
  unfoldable pub count_corpus : ParsedCorpus → RunState → RunState
  count_corpus corpus s = record s {
    summary = record s.summary {
      files = s.summary.files + 1;
      instruction_groups = s.summary.instruction_groups + corpus.instruction_groups;
      rows = s.summary.rows + length corpus.rows;
      parse_warnings = s.summary.parse_warnings + corpus.parse_warnings;
    };
  }

  -- The loop over the inputs; `read_file` is what the file system has at a path.
  unfoldable pub process_files :
      (Text → Option (List Text)) → List Text → RunState → Result RunError RunState
  process_files read_file [] s = ok s
  process_files read_file (path ∷ paths) s = elim s.stop [
    | true ↦ ok s
    | false ↦ do
      corpus ← map_error RunError.in_file (parse_file (read_file path))
      s' ← map_error RunError.in_row (process_rows path corpus.rows (count_corpus corpus s))
      process_files read_file paths s'
  ]

abbrev pub initial_run : Bool → Bool → RemillBackend → RunState
initial_run with_mismatches with_skips backend = record {
  summary = fresh_summary;
  decode_cache = [];
  selected_groups = [];
  stop = false;
  mismatch_report = if with_mismatches then some [] else none;
  skip_report = if with_skips then some [] else none;
  backend = backend;
  printed_decodes = [];
  output = [];
}
