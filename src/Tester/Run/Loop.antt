-- ===== src/Tester/Run/Loop.antt =====
-- The counters over the whole loop of a run.
use remill_tester.Base.{
  ℕ, ◌≡◌, refl, arith, Bool, true, false, List, [], ◌∷◌, Option, none, some, not, length,
  Bool-cases, inl, inr,
}
use remill_tester.Base.Text.{Text}
use remill_tester.Base.Map.{text_key, find, assign}
use remill_tester.Tester.Operands.{first_token, decode_key}
use remill_tester.Base.Result.{
  ok, ◌>>=◌, Holds, Holds-bind, Holds-after, Holds-if, Holds-ok, Holds-map_error, map_error,
}
use remill_tester.Expectation.{ExecutionResult, ExpectationRow}
use remill_tester.Parser.Strings.{Parse, parse_hex_bytes}
use remill_tester.Parser.File.{parse_file}
use remill_tester.XedMetadata.{XedMetadata}
use remill_tester.Comparator.Compare.{ComparisonResult}
use remill_tester.Tester.Skip.{SkipInfo, pre_execution_skip}
use remill_tester.Tester.Summary.{record_decode}
use remill_tester.Backend.Pending.{RemillBackend}
use remill_tester.Tester.Options.{Options}
use remill_tester.Tester.Run.{
  RunError, print_decode, RunState, reached, passes_filters, select_group, skip_row,
  metadata_of_row, keys_of, run_selected, execute_row, count_row, process_row, process_rows,
  count_corpus, process_files, initial_run, is_unsupported,
}
use remill_tester.Tester.Run.Accounting.{
  IsConsistent, IsPending, IsReady, skip_row-IsConsistent, record_comparison-IsConsistent,
  choose-IsConsistent, select_group-IsReady, decoded-IsReady, counted-IsPending,
  counted-IsConsistent, print_decode-IsReady, backend-IsPending,
}

module _ (decode : ℕ → List ℕ → XedMetadata)
    (run_case : ExpectationRow
      → List Text
      → RemillBackend
      → Parse (ExecutionResult × RemillBackend))
    (compare : ExpectationRow → XedMetadata → ExecutionResult → ComparisonResult)
    (options : Options) where
  metadata_of_row-IsReady :
      (row : ExpectationRow) (s : RunState)
      → IsReady options s
      → Holds (λ r. IsReady options r.1) (metadata_of_row decode run_case compare options row s)
  unfolding metadata_of_row
  metadata_of_row-IsReady row s r = cached (find (decode_key row) s.decode_cache)
    where
      cached :
          (o : Option XedMetadata)
          → Holds {A = XedMetadata × RunState}
              (λ t. IsReady options t.1)
              (elim o [
                | some metadata ↦ ok (metadata, s)
                | none ↦ (do
                  bytes ← parse_hex_bytes row.opcode
                  let metadata = decode row.address bytes
                  ok (
                    metadata,
                    record s {
                      decode_cache = assign (decode_key row) metadata s.decode_cache;
                      summary = record_decode s.summary metadata (length bytes);
                    },
                  ))
              ])
      cached (some metadata) = r
      cached none =
          Holds-after (λ t. IsReady options t.1) (parse_hex_bytes row.opcode) _
            (λ bytes. decoded-IsReady options s (decode row.address bytes) (length bytes) _ r)

  run_selected-IsConsistent :
      (path : Text) (row : ExpectationRow) (metadata : XedMetadata) (s : RunState)
      → options.execute ≡ true
      → IsPending options s
      → Holds
          (IsConsistent options)
          (run_selected decode run_case compare options path row metadata s)
  unfolding run_selected
  run_selected-IsConsistent path row metadata s on p =
      Holds-after (IsConsistent options) (run_case row (keys_of row.expected_final_state) s.backend)
        _
        (λ run.
          let s' = record s { backend = run.1 } in
          let pending = backend-IsPending options s run.1 p in
          choose-IsConsistent options (is_unsupported run.0.outcome_class)
            (skip_row-IsConsistent options path row _ _ s' on pending)
            (record_comparison-IsConsistent options path row _ s' on pending))

  execute_row-IsConsistent :
      (path : Text) (row : ExpectationRow) (metadata : XedMetadata) (missing : Bool) (s : RunState)
      → options.execute ≡ true
      → IsPending options s
      → Holds
          (IsConsistent options)
          (execute_row decode run_case compare options path row metadata missing s)
  unfolding execute_row
  execute_row-IsConsistent path row metadata missing s on p =
      Holds-after (IsConsistent options) (pre_execution_skip metadata row missing) _ after
    where
      after :
          (skipped : Option SkipInfo)
          → Holds (IsConsistent options) (elim skipped [
            | some info ↦ ok (skip_row path row info.reason info.detail s)
            | none ↦ run_selected decode run_case compare options path row metadata s
          ])
      after (some info) = skip_row-IsConsistent options path row info.reason info.detail s on p
      after none = run_selected-IsConsistent path row metadata s on p

  count_row-IsConsistent :
      (path : Text) (row : ExpectationRow) (s : RunState)
      → IsReady options s
      → Holds (IsConsistent options) (count_row decode run_case compare options path row s)
  unfolding count_row
  count_row-IsConsistent path row s r =
      Holds-bind (λ t. IsReady options t.1) (IsConsistent options)
        (metadata_of_row decode run_case compare options row s) _ (metadata_of_row-IsReady row s r)
        (λ t ready.
          let printed = print_decode options row t.0 t.1 in
          let shown = print_decode-IsReady options row t.0 t.1 ready in
          Holds-if (IsConsistent options) options.execute _ _
            (λ on.
              execute_row-IsConsistent path row t.0 _ _ on
                (counted-IsPending options printed (first_token row.instruction) t.0 _ on shown))
            (λ off.
              counted-IsConsistent options printed (first_token row.instruction) t.0 _ off shown))

  stopped-IsConsistent :
      (s : RunState) → IsConsistent options s → IsConsistent options (record s { stop = true })
  stopped-IsConsistent s c = ground arith

  process_row-IsConsistent :
      (path : Text) (row : ExpectationRow) (s : RunState)
      → IsConsistent options s
      → s.stop ≡ false
      → Holds (IsConsistent options) (process_row decode run_case compare options path row s)
  unfolding process_row
  process_row-IsConsistent path row s c going =
      Holds-if (IsConsistent options) (not (passes_filters options row)) _ _ (λ _. c)
        (λ _.
          Holds-if (IsConsistent options) (reached options.limit_states s.summary.selected_rows) _ _
            (λ _. stopped-IsConsistent s c)
            (λ room. selected (select_group options path row s) room refl))
    where
      selected :
          (o : Option RunState)
          → reached options.limit_states s.summary.selected_rows ≡ false
          → select_group options path row s ≡ o
          → Holds (IsConsistent options) (elim o [
            | none ↦ ok (record s { stop = true })
            | some s' ↦ count_row decode run_case compare options path row s'
          ])
      selected none room e = stopped-IsConsistent s c
      selected (some s') room e =
          count_row-IsConsistent path row s'
            (select_group-IsReady options path row s c going room e)

  process_rows-IsConsistent :
      (path : Text) (rows : List ExpectationRow) (s : RunState)
      → IsConsistent options s
      → s.stop ≡ false
      → Holds (IsConsistent options) (process_rows decode run_case compare options path rows s)
  unfolding process_rows
  process_rows-IsConsistent path [] s c going = c
  process_rows-IsConsistent path (row ∷ rows) s c going =
      Holds-bind (IsConsistent options) (IsConsistent options)
        (process_row decode run_case compare options path row s) _
        (process_row-IsConsistent path row s c going)
        (λ s' c'. continue s' c' (process_rows-IsConsistent path rows s' c') s'.stop refl)
    where
      continue :
          (s' : RunState)
          → IsConsistent options s'
          → (s'.stop ≡ false
              → Holds
                  (IsConsistent options)
                  (process_rows decode run_case compare options path rows s'))
          → (b : Bool) → s'.stop ≡ b
          → Holds (IsConsistent options) (elim b [
            | true ↦ ok s'
            | false ↦ process_rows decode run_case compare options path rows s'
          ])
      continue s' c' k true e = c'
      continue s' c' k false e = k e

  process_files-IsConsistent :
      (read_file : Text → Option (List Text)) (paths : List Text) (s : RunState)
      → IsConsistent options s
      → Holds
          (IsConsistent options)
          (process_files decode run_case compare options read_file paths s)
  unfolding process_files count_corpus
  process_files-IsConsistent read_file [] s c = c
  process_files-IsConsistent read_file (path ∷ paths) s c =
      let rest = process_files-IsConsistent read_file paths in
      elim (Bool-cases s.stop) [
        | inl stopped ↦ rw (stopped, process_files) c
        | inr going ↦
            rw (going, process_files)
              (Holds-after (IsConsistent options)
                (map_error RunError.in_file (parse_file (read_file path))) _
                (λ corpus.
                  let counted = count_corpus decode run_case compare options corpus s in
                  let ran = process_rows decode run_case compare options path corpus.rows counted in
                  Holds-bind (IsConsistent options) (IsConsistent options)
                    (map_error RunError.in_row ran) _
                    (Holds-map_error (IsConsistent options) RunError.in_row ran
                      (process_rows-IsConsistent path corpus.rows counted (ground arith) going))
                    rest))
      ]

  -- At the end of a run of the loop that throws nothing, the rows that passed, failed or were
  -- skipped are together all the selected rows with --execute and none without it; the count of
  -- selected groups is the length of the list of selected keys; neither limit, where it is not 0,
  -- is exceeded; and with --stop-on-first-fail at most one row failed, and none if the run did not
  -- stop.
  pub initial_run-IsConsistent :
      (with_mismatches with_skips : Bool) (backend : RemillBackend)
      (read_file : Text → Option (List Text)) (paths : List Text) (s : RunState)
      → process_files decode run_case compare options read_file paths
          (initial_run with_mismatches with_skips backend)
        ≡ ok s
      → IsConsistent options s
  initial_run-IsConsistent with_mismatches with_skips backend read_file paths s h =
      Holds-ok (IsConsistent options) s h (
        process_files-IsConsistent read_file paths (initial_run with_mismatches with_skips backend)
          (ground arith))
