-- ===== src/Tester/Run/Covers/Files.antt =====
-- The loops over the rows and the files, when no failure is counted.
use mathlib.Core.Path.{subst}
use remill_tester.Base.{
  ℕ, ◌≡◌, inl, inr, refl, sym, arith, Bool, true, false, List, [], ◌∷◌, Option, Bool-cases,
}
use remill_tester.Base.Text.{Text}
use remill_tester.Base.Map.{text_key}
use remill_tester.Base.Result.{
  ok, ◌>>=◌, Holds, Holds-bind, Holds-ok, Holds-run, Holds-map, Holds-map_error, map_error,
}
use remill_tester.Expectation.{ExecutionResult, ExpectationRow}
use remill_tester.Parser.Strings.{Parse}
use remill_tester.Parser.File.{ParsedCorpus, parse_file}
use remill_tester.XedMetadata.{XedMetadata}
use remill_tester.Comparator.Compare.{ComparisonResult}
use remill_tester.Backend.Pending.{RemillBackend}
use remill_tester.Tester.Options.{Options}
use remill_tester.Tester.Run.{
  RunError, RunState, process_row, process_rows, count_corpus, process_files, initial_run,
}
use remill_tester.Tester.Run.Covers.{failures, Covered, FilesCovered, CacheIsGood}
use remill_tester.Tester.Run.Covers.Rows.{AfterRow, process_row-good}

module _ (decode : ℕ → List ℕ → XedMetadata)
    (run_case : ExpectationRow
      → List Text
      → RemillBackend
      → Parse (ExecutionResult × RemillBackend))
    (compare : ExpectationRow → XedMetadata → ExecutionResult → ComparisonResult)
    (options : Options) where
  -- What a state behind some rows tells, if no failure is counted.
  abbrev AfterRows : List ExpectationRow → RunState → RunState → Type 0
  AfterRows rows s r =
      failures r ≡ 0
      → (failures s ≡ 0)
        × (s.stop ≡ false
            → CacheIsGood decode run_case compare options s
            → CacheIsGood decode run_case compare options r
              × Covered decode run_case compare options rows r.stop)

  process_rows-good :
      (path : Text) (rows : List ExpectationRow) (s : RunState)
      → Holds (AfterRows rows s) (process_rows decode run_case compare options path rows s)
  unfolding process_rows
  process_rows-good path [] s = λ zero_after. (
    zero_after,
    λ going all.
        (all, subst (Covered decode run_case compare options []) (sym going) Covered.all_read),
  )
  process_rows-good path (row ∷ rows) s =
      Holds-bind (AfterRow decode run_case compare options row s) (AfterRows (row ∷ rows) s)
        (process_row decode run_case compare options path row s) _
        (process_row-good decode run_case compare options path row s)
        (λ s' after. continue s' after (process_rows-good path rows s') s'.stop refl)
    where
      continue :
          (s' : RunState)
          → AfterRow decode run_case compare options row s s'
          → Holds (AfterRows rows s') (process_rows decode run_case compare options path rows s')
          → (b : Bool) → s'.stop ≡ b
          → Holds (AfterRows (row ∷ rows) s) (elim b [
            | true ↦ ok s'
            | false ↦ process_rows decode run_case compare options path rows s'
          ])
      continue s' after rest true e = λ zero_after.
          let (zero_before, cached) = after zero_after in
          (
            zero_before,
            λ going all.
                let (all', outcome) = cached all in
                (
                  all',
                  elim outcome [
                    | inl (good_row, stop) ↦ absurd (ground (arith, stop, e, going))
                    | inr (limited, stops) ↦
                        subst (Covered decode run_case compare options (row ∷ rows)) (sym stops)
                          (Covered.cut limited)
                  ],
                ),
          )
      continue s' after rest false e =
          Holds-map (AfterRows rows s') (AfterRows (row ∷ rows) s) _
            (λ r behind zero_after.
              let (zero_between, covered) = behind zero_after in
              let (zero_before, cached) = after zero_between in
              (
                zero_before,
                λ going all.
                    let (all', outcome) = cached all in
                    let (all'', others) = covered e all' in
                    (
                      all'',
                      elim outcome [
                        | inl (good_row, stop) ↦ Covered.next good_row others
                        | inr (limited, stops) ↦ absurd (ground (arith, stops, e))
                      ],
                    ),
              ))
            rest

  -- The same behind some files.
  abbrev AfterFiles : (Text → Option (List Text)) → List Text → RunState → RunState → Type 0
  AfterFiles read_file paths s r =
      failures r ≡ 0
      → (failures s ≡ 0)
        × (s.stop ≡ true → r.stop ≡ true)
        × (s.stop ≡ false
            → CacheIsGood decode run_case compare options s
            → FilesCovered decode run_case compare options read_file paths r.stop)

  files-next :
      (read_file : Text → Option (List Text)) (path : Text) (paths : List Text)
      (corpus : ParsedCorpus) (s s' r : RunState)
      → s.stop ≡ false
      → parse_file (read_file path) ≡ ok corpus
      → AfterRows corpus.rows (count_corpus decode run_case compare options corpus s) s'
      → AfterFiles read_file paths s' r
      → AfterFiles read_file (path ∷ paths) s r
  unfolding count_corpus
  files-next read_file path paths corpus s s' r going parsed rows rest zero_after =
      let (zero_between, stays, covered) = rest zero_after in
      let (zero_before, in_file) = rows zero_between in
      (
        zero_before,
        λ stopped. absurd (ground (arith, stopped, going)),
        λ _ all.
            let (all', here) = in_file going all in
            elim (Bool-cases s'.stop) [
              | inl stops ↦
                  subst (FilesCovered decode run_case compare options read_file (path ∷ paths))
                    (sym (stays stops))
                    (FilesCovered.cut corpus parsed
                      (subst (Covered decode run_case compare options corpus.rows) stops here))
              | inr goes ↦
                  FilesCovered.next corpus parsed
                    (subst (Covered decode run_case compare options corpus.rows) goes here)
                    (covered goes all')
            ],
      )

  process_files-good :
      (read_file : Text → Option (List Text)) (paths : List Text) (s : RunState)
      → Holds
          (AfterFiles read_file paths s)
          (process_files decode run_case compare options read_file paths s)
  unfolding process_files
  process_files-good read_file [] s = λ zero_after. (
    zero_after,
    λ stopped. stopped,
    λ going all.
        subst (FilesCovered decode run_case compare options read_file []) (sym going)
          FilesCovered.no_more,
  )
  process_files-good read_file (path ∷ paths) s =
      by_stop s.stop refl (process_files-good read_file paths)
    where
      by_stop :
          (b : Bool)
          → s.stop ≡ b
          → ((s' : RunState)
              → Holds
                  (AfterFiles read_file paths s')
                  (process_files decode run_case compare options read_file paths s'))
          → Holds {E = RunError} (AfterFiles read_file (path ∷ paths) s) (elim b [
            | true ↦ ok s
            | false ↦ (do
              corpus ← map_error RunError.in_file (parse_file (read_file path))
              s' ← map_error RunError.in_row (
                  process_rows decode run_case compare options path corpus.rows
                    (count_corpus decode run_case compare options corpus s))
              process_files decode run_case compare options read_file paths s')
          ])
      by_stop true e others = λ zero_after.
          (zero_after, λ stopped. stopped, λ going all. absurd (ground (arith, going, e)))
      by_stop false e others =
          let parsing = parse_file (read_file path) in
          Holds-bind (λ corpus. parsing ≡ ok corpus) (AfterFiles read_file (path ∷ paths) s)
            (map_error RunError.in_file parsing) _
            (Holds-map_error (λ corpus. parsing ≡ ok corpus) RunError.in_file parsing
              (Holds-run parsing))
            (λ corpus parsed.
              let counted = count_corpus decode run_case compare options corpus s in
              let ran = process_rows decode run_case compare options path corpus.rows counted in
              Holds-bind (AfterRows corpus.rows counted) (AfterFiles read_file (path ∷ paths) s)
                (map_error RunError.in_row ran) _
                (Holds-map_error (AfterRows corpus.rows counted) RunError.in_row ran
                  (process_rows-good path corpus.rows counted))
                (λ s' rows.
                  Holds-map (AfterFiles read_file paths s') (AfterFiles read_file (path ∷ paths) s)
                    _ (λ r rest. files-next read_file path paths corpus s s' r e parsed rows rest)
                    (others s')))

  -- A loop that ends with no failure counted has covered the rows of the inputs.
  pub initial_run-covers :
      (with_mismatches with_skips : Bool) (backend : RemillBackend)
      (read_file : Text → Option (List Text)) (paths : List Text) (s : RunState)
      → process_files decode run_case compare options read_file paths
          (initial_run with_mismatches with_skips backend)
        ≡ ok s
      → failures s ≡ 0
      → FilesCovered decode run_case compare options read_file paths s.stop
  initial_run-covers with_mismatches with_skips backend read_file paths s ends zero_after =
      let start = initial_run with_mismatches with_skips backend in
      let (_, _, covered) =
        Holds-ok (AfterFiles read_file paths start) s ends
          (process_files-good read_file paths start) zero_after in
      covered refl tt
