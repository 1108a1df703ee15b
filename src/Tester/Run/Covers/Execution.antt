-- ===== src/Tester/Run/Covers/Execution.antt =====
-- The execution of a row, when no failed row is counted.
use remill_tester.Base.{
  ℕ, ◌+◌, ◌≡◌, refl, arith, Bool, true, false, ◌&&◌, List, Option, none, some, if◌then◌else◌,
  empty_list, ◌||◌, map,
}
use remill_tester.Base.Text.{Text}
use remill_tester.Base.Map.{text_key}
use remill_tester.Base.Result.{ok, Holds, Holds-bind, Holds-run}
use remill_tester.Expectation.{ExecutionResult, ExpectationRow}
use remill_tester.Parser.Strings.{Parse}
use remill_tester.XedMetadata.{XedMetadata}
use remill_tester.Comparator.Compare.{ComparisonResult}
use remill_tester.Backend.Pending.{RemillBackend}
use remill_tester.Tester.Options.{Options}
use remill_tester.Tester.Skip.{SkipInfo, pre_execution_skip, unsupported_reason, unsupported_detail}
use remill_tester.Tester.Json.{mismatch_json}
use remill_tester.Tester.Summary.{record_skip}
use remill_tester.Tester.Unsupported.{requires_memory_oracle}
use remill_tester.Tester.Run.{
  RunState, keys_of, is_unsupported, skip_row, record_comparison, run_selected, execute_row, report,
}
use remill_tester.Tester.Run.Covers.{failures, Executed}

module _ (decode : ℕ → List ℕ → XedMetadata)
    (run_case : ExpectationRow
      → List Text
      → RemillBackend
      → Parse (ExecutionResult × RemillBackend))
    (compare : ExpectationRow → XedMetadata → ExecutionResult → ComparisonResult)
    (options : Options) where
  -- What a state behind the execution of a row tells, if no failure is counted.
  abbrev pub AfterExecution : ExpectationRow → XedMetadata → RunState → RunState → Type 0
  AfterExecution row metadata s r =
      failures r ≡ 0
      → (failures s ≡ 0)
        × (r.stop ≡ s.stop)
        × (r.decode_cache ≡ s.decode_cache)
        × Executed decode run_case compare options row metadata

  record_comparison-good :
      (path : Text) (row : ExpectationRow) (metadata : XedMetadata) (s : RunState)
      (comparison : ComparisonResult)
      → (comparison.passed ≡ true → Executed decode run_case compare options row metadata)
      → AfterExecution row metadata s (record_comparison options path row comparison s)
  unfolding record_comparison
  record_comparison-good path row metadata s comparison passes = by_result comparison.passed passes
    where
      by_result :
          (b : Bool)
          → (b ≡ true → Executed decode run_case compare options row metadata)
          → AfterExecution row metadata s (
              if b
              then record s {
                summary = record s.summary { execution_passed = s.summary.execution_passed + 1 };
              }
              else record s {
                summary = record s.summary { execution_failed = s.summary.execution_failed + 1 };
                mismatch_report =
                    report s.mismatch_report (map (mismatch_json path row) comparison.mismatches);
                stop = s.stop || options.stop_on_first_fail;
              })
      by_result true executed zero_after = (zero_after, refl, refl, executed refl)
      by_result false executed zero_after = absurd (ground (arith, zero_after))

  run_selected-good :
      (path : Text) (row : ExpectationRow) (metadata : XedMetadata) (s : RunState)
      → Holds
          (AfterExecution row metadata s)
          (run_selected decode run_case compare options path row metadata s)
  unfolding run_selected skip_row record_skip
  run_selected-good path row metadata s =
      let ran = run_case row (keys_of row.expected_final_state) s.backend in
      Holds-bind (λ r. ran ≡ ok r) (AfterExecution row metadata s) ran _ (Holds-run ran)
        (λ r e.
          let s' = record s { backend = r.1 } in
          by_class r.0 r.1 e (is_unsupported r.0.outcome_class) refl _ (
            record_comparison-good path row metadata s' (compare row metadata r.0)
              (λ passes. Executed.passed r.0 s.backend r.1 e passes)))
    where
      by_class :
          (execution : ExecutionResult) (after : RemillBackend)
          → run_case row (keys_of row.expected_final_state) s.backend ≡ ok (execution, after)
          → (b : Bool) → is_unsupported execution.outcome_class ≡ b
          → (compared : RunState) → AfterExecution row metadata s compared
          → AfterExecution row metadata s (
              if b
              then skip_row path row
                  (unsupported_reason execution)
                  (unsupported_detail execution)
                  (record s { backend = after })
              else compared)
      by_class execution after e true class compared rest zero_after =
          (zero_after, refl, refl, Executed.unsupported execution s.backend after e class)
      by_class execution after e false class compared rest zero_after = rest zero_after

  pub execute_row-good :
      (path : Text) (row : ExpectationRow) (metadata : XedMetadata) (s : RunState)
      → let missing =
          metadata.ok && requires_memory_oracle metadata && empty_list row.initial_memory in
        Holds
          (AfterExecution row metadata s)
          (execute_row decode run_case compare options path row metadata missing s)
  unfolding execute_row skip_row record_skip
  execute_row-good path row metadata s =
      let missing =
        metadata.ok && requires_memory_oracle metadata && empty_list row.initial_memory in
      let skipping = pre_execution_skip metadata row missing in
      Holds-bind (λ skip. skipping ≡ ok skip) (AfterExecution row metadata s) skipping _
        (Holds-run skipping) after
    where
      after :
          (skip : Option SkipInfo)
          → pre_execution_skip metadata row
              (metadata.ok && requires_memory_oracle metadata && empty_list row.initial_memory)
            ≡ ok skip
          → Holds (AfterExecution row metadata s) (elim skip [
            | some info ↦ ok (skip_row path row info.reason info.detail s)
            | none ↦ run_selected decode run_case compare options path row metadata s
          ])
      after (some info) e = λ zero_after. (zero_after, refl, refl, Executed.skipped info e)
      after none e = run_selected-good path row metadata s
