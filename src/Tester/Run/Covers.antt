-- ===== src/Tester/Run/Covers.antt =====
-- What the rows of a run without a failure are like, in terms of the decoder, the backend and the
-- comparison: nothing is said of the counters here. Rows and Files show that the loop implies it.
pub mod Decoding
pub mod Execution
pub mod Rows
pub mod Files
use mathlib.Core.Path.{subst}
use remill_tester.Base.{
  ℕ, ◌+◌, ◌≡◌, ◌≢◌, ◌∙◌, ◌⊎◌, inl, inr, refl, sym, ap, arith, Bool, true, false, not, ◌&&◌, List,
  [], ◌∷◌, Option, none, some, if◌then◌else◌, length, empty_list, Bool-cases, All, ◌||◌, map,
}
use remill_tester.Base.Text.{Text}
use remill_tester.Base.Map.{find, assign, text_key, All-find, All-assign}
use remill_tester.Base.Result.{
  ok, ◌>>=◌, Holds, Holds-bind, Holds-if, Holds-ok, Holds-run, Holds-map, Holds-map_error,
  map_error,
}
use remill_tester.Expectation.{ExecutionResult, ExpectationRow}
use remill_tester.Parser.Strings.{Parse, parse_hex_bytes}
use remill_tester.Parser.File.{ParsedCorpus, parse_file}
use remill_tester.XedMetadata.{XedMetadata}
use remill_tester.Comparator.Compare.{ComparisonResult}
use remill_tester.Backend.Pending.{RemillBackend}
use remill_tester.Tester.Options.{Options}
use remill_tester.Tester.Operands.{decode_key, first_token}
use remill_tester.Tester.Skip.{SkipInfo, pre_execution_skip, unsupported_reason, unsupported_detail}
use remill_tester.Tester.Json.{mismatch_json}
use remill_tester.Tester.Summary.{record_skip, record_decode, record_row}
use remill_tester.Tester.Unsupported.{requires_memory_oracle}
use remill_tester.Tester.Run.{
  RunError, RunState, passes_filters, reached, select_group, keys_of, is_unsupported, skip_row,
  record_comparison, print_decode, metadata_of_row, run_selected, execute_row, count_row,
  process_row, process_rows, count_corpus, process_files, initial_run, report,
}

-- The counters that the exit status looks at.
abbrev pub failures : RunState → ℕ
failures s =
    s.summary.xed_decode_failures + s.summary.xed_length_mismatches + s.summary.execution_failed

-- Only a limit that is not 0 ends the loop without a failure.
abbrev pub Limited : Options → Type 0
Limited options = (options.limit_states ≢ 0) ⊎ (options.limit_instructions ≢ 0)

module _ (decode : ℕ → List ℕ → XedMetadata)
    (run_case : ExpectationRow
      → List Text
      → RemillBackend
      → Parse (ExecutionResult × RemillBackend))
    (compare : ExpectationRow → XedMetadata → ExecutionResult → ComparisonResult)
    (options : Options) where
  -- The metadata are those of a row with this key, which decodes, to the length of its opcode.
  pub record Decodes (key : Text) (metadata : XedMetadata) : Type 0 where
    pub first : ExpectationRow
    pub bytes : List ℕ
    pub same_key : decode_key first ≡ key
    pub parsed : parse_hex_bytes first.opcode ≡ ok bytes
    pub decoded : metadata ≡ decode first.address bytes
    pub succeeds : metadata.ok ≡ true
    pub whole : metadata.length ≡ length bytes

  -- The row is skipped before it is run, or by the backend, or the comparison of its run passes.
  pub data Executed (row : ExpectationRow) (metadata : XedMetadata) : Type 0 where
    skipped :
        (info : SkipInfo)
        → pre_execution_skip metadata row
            (metadata.ok && requires_memory_oracle metadata && empty_list row.initial_memory)
          ≡ ok (some info)
        → Executed row metadata
    unsupported :
        (execution : ExecutionResult) (before after : RemillBackend)
        → run_case row (keys_of row.expected_final_state) before ≡ ok (execution, after)
        → is_unsupported execution.outcome_class ≡ true
        → Executed row metadata
    passed :
        (execution : ExecutionResult) (before after : RemillBackend)
        → run_case row (keys_of row.expected_final_state) before ≡ ok (execution, after)
        → (compare row metadata execution).passed ≡ true
        → Executed row metadata

  pub data RowIsGood (row : ExpectationRow) : Type 0 where
    left_out : passes_filters options row ≡ false → RowIsGood row
    good :
        (metadata : XedMetadata)
        → Decodes (decode_key row) metadata
        → (options.execute ≡ true → Executed row metadata)
        → RowIsGood row

  -- Every row is good, up to the end or, where the Boolean is true, up to a limit.
  pub data Covered : List ExpectationRow → Bool → Type 0 where
    all_read : Covered [] false
    cut :
        {row : ExpectationRow} {rows : List ExpectationRow}
        → Limited options
        → Covered (row ∷ rows) true
    next :
        {row : ExpectationRow} {rows : List ExpectationRow} {b : Bool}
        → RowIsGood row
        → Covered rows b
        → Covered (row ∷ rows) b

  -- The same for the rows of every file.
  pub data FilesCovered (read_file : Text → Option (List Text)) : List Text → Bool → Type 0 where
    no_more : FilesCovered read_file [] false
    cut :
        {path : Text} {paths : List Text} (corpus : ParsedCorpus)
        → parse_file (read_file path) ≡ ok corpus
        → Covered corpus.rows true
        → FilesCovered read_file (path ∷ paths) true
    next :
        {path : Text} {paths : List Text} {b : Bool} (corpus : ParsedCorpus)
        → parse_file (read_file path) ≡ ok corpus
        → Covered corpus.rows false
        → FilesCovered read_file paths b
        → FilesCovered read_file (path ∷ paths) b

  -- Every entry of the cache is such metadata.
  abbrev pub CacheIsGood : RunState → Type 0
  CacheIsGood s = All (λ (e : Text × XedMetadata). Decodes e.0 e.1) s.decode_cache
