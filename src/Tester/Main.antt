-- ===== src/Tester/Main.antt =====
-- src/tester_main.cpp: Run from the options to the exit status, and main.
-- XED, the toolchain of the backend and the file system are parameters: what is read at a path, and
-- whether a report can be opened there.
pub mod Status
use remill_tester.Base.{
  ℕ, Bool, true, false, not, ◌&&◌, List, [], ◌∷◌, ◌++◌, Option, none, some, if◌then◌else◌,
  empty_list,
}
use remill_tester.Base.Text.{Text, codes}
use remill_tester.Base.Result.{Result, ok, err, ◌>>=◌, map_error}
use remill_tester.XedMetadata.{XedMetadata}
use remill_tester.Comparator.Compare.{compare_execution_result}
use remill_tester.Backend.{LiftedFunction}
use remill_tester.Backend.Pending.{Toolchain, RemillBackend, fresh_backend}
use remill_tester.Backend.Compiler.{prepare_cases, run_row}
use remill_tester.Tester.Options.{OptionError, Options, DirectoryEntry, parse_options}
use remill_tester.Tester.Output.{usage, summary_text}
use remill_tester.Tester.Summary.{Summary, exit_status}
use remill_tester.Tester.Run.{RunError, RunState, process_files, initial_run}
use remill_tester.Tester.SelfTests.{run_self_tests}
use remill_tester.Tester.Prepare.{initial_prepare, prepare_files}

-- What a run leaves: its exit status, its standard output and the two reports.
pub record Outcome : Type 0 where
  pub status : ℕ
  pub output : Text
  pub mismatch_report : Option (List Text)
  pub skip_report : Option (List Text)

abbrev pub wrote : ℕ → Text → Outcome
wrote status output = record {
  status = status;
  output = output;
  mismatch_report = none;
  skip_report = none;
}

-- A report that is asked for must open.
unfoldable pub open_report : (Text → Bool) → Text → Text → Result RunError Bool
open_report opens kind path =
    if empty_list path
    then ok false
    else if opens path
    then ok true
    else err
        (RunError.failed_to_open (codes "failed to open " ++ kind ++ codes " report: " ++ path))

module _ (decode : ℕ → List ℕ → XedMetadata) (lookup : Text → Result Text LiftedFunction)
    (toolchain : Toolchain) (num_vec_registers : ℕ) (read_file : Text → Option (List Text))
    (opens : Text → Bool) where
  -- The preparation in front of the loop, with --execute.
  unfoldable pub prepare_backend : Options → Result RunError RemillBackend
  prepare_backend options = do
    prepared ← prepare_files decode options read_file options.inputs initial_prepare
    (succeeded, error, backend) ←
        map_error RunError.in_row (prepare_cases lookup toolchain prepared.rows [] fresh_backend)
    elim succeeded [
      | true ↦ ok backend
      | false ↦ err (RunError.failed_to_prepare (codes "failed to prepare Remill batch: " ++ error))
    ]

  -- Run behind the checks of the options.
  unfoldable pub run_inputs : Options → Result RunError Outcome
  run_inputs options = do
    with_mismatches ← open_report opens (codes "mismatch") options.report_jsonl
    with_skips ← open_report opens (codes "skip") options.report_skips_jsonl
    backend ← if options.execute then prepare_backend options else ok fresh_backend
    s ←
        process_files decode (run_row lookup toolchain num_vec_registers)
          (compare_execution_result num_vec_registers) options read_file options.inputs
          (initial_run with_mismatches with_skips backend)
    ok (record {
      status = exit_status s.summary;
      output = s.output ++ summary_text options.execute s.summary;
      mismatch_report = s.mismatch_report;
      skip_report = s.skip_report;
    })

  -- Run behind the self-tests, which wrote `tested`.
  unfoldable pub run_tested : Options → Text → Result RunError Outcome
  run_tested options tested = elim options.inputs [
    | [] ↦ ok (
        if options.self_test
        then wrote 0 tested
        else wrote 2 (tested ++ usage (codes "remill-tester")))
    | path ∷ paths ↦ do
      outcome ← run_inputs options
      ok (record outcome { output = tested ++ outcome.output })
  ]

  unfoldable pub run : Options → Result RunError Outcome
  run options =
      if options.help
      then ok (wrote 0 (usage (codes "remill-tester")))
      else ((if options.self_test
            then run_self_tests num_vec_registers decode lookup toolchain
            else ok [])
          >>= run_tested options)

  -- What `main` runs.
  unfoldable pub run_arguments :
      (Text → Text → Bool)
      → (Text → Result Text (List DirectoryEntry))
      → List Text
      → Result RunError Outcome
  run_arguments path_before list_directory args = do
    options ← map_error RunError.in_options (parse_options path_before list_directory args)
    run options

  -- The exit status of `main`, which reports an exception and ends with 1.
  unfoldable pub main :
      (Text → Text → Bool) → (Text → Result Text (List DirectoryEntry)) → List Text → ℕ
  main path_before list_directory args = elim (run_arguments path_before list_directory args) [
    | ok outcome ↦ outcome.status
    | err e ↦ 1
  ]
