-- ===== src/Tester/Run/Covers/Rows.antt =====
-- One round of the loop over the rows, when no failure is counted.
use mathlib.Core.Path.{subst}
use remill_tester.Base.{
  ℕ, ◌≡◌, ◌≢◌, ◌∙◌, ◌⊎◌, inl, inr, refl, sym, arith, true, not, ◌&&◌, List, Option, none, some,
  empty_list, All,
}
use remill_tester.Base.Text.{Text}
use remill_tester.Base.Map.{text_key}
use remill_tester.Base.Result.{ok, Holds, Holds-bind, Holds-if, Holds-map}
use remill_tester.Expectation.{ExecutionResult, ExpectationRow}
use remill_tester.Parser.Strings.{Parse}
use remill_tester.XedMetadata.{XedMetadata}
use remill_tester.Comparator.Compare.{ComparisonResult}
use remill_tester.Backend.Pending.{RemillBackend}
use remill_tester.Tester.Options.{Options}
use remill_tester.Tester.Operands.{first_token}
use remill_tester.Tester.Summary.{record_row}
use remill_tester.Tester.Unsupported.{requires_memory_oracle}
use remill_tester.Tester.Run.{
  RunState, passes_filters, reached, select_group, print_decode, metadata_of_row, count_row,
  process_row,
}
use remill_tester.Tester.Run.Covers.{failures, Limited, Decodes, Executed, RowIsGood, CacheIsGood}
use remill_tester.Tester.Run.Covers.Decoding.{AfterDecode, metadata_of_row-good}
use remill_tester.Tester.Run.Covers.Execution.{AfterExecution, execute_row-good}

-- Neither failures, nor `stop`, nor the cache differ.
abbrev Same : RunState → RunState → Type 0
Same s s' = (failures s' ≡ failures s) × (s'.stop ≡ s.stop) × (s'.decode_cache ≡ s.decode_cache)

print_decode-Same :
    (options : Options) (row : ExpectationRow) (metadata : XedMetadata) (s : RunState)
    → Same s (print_decode options row metadata s)
unfolding print_decode
print_decode-Same options row metadata s = ground arith

select_group-Same :
    (options : Options) (path : Text) (row : ExpectationRow) (s s' : RunState)
    → select_group options path row s ≡ some s'
    → Same s s'
unfolding select_group
select_group-Same options path row s s' h = ground (arith, h)

reached-limit : (limit count : ℕ) → reached limit count ≡ true → limit ≢ 0
unfolding reached
reached-limit limit count h = ground (arith, h)

select_group-Limited :
    (options : Options) (path : Text) (row : ExpectationRow) (s : RunState)
    → select_group options path row s ≡ none
    → Limited options
unfolding select_group reached
select_group-Limited options path row s h = inr (ground (arith, h))

module _ (decode : ℕ → List ℕ → XedMetadata)
    (run_case : ExpectationRow
      → List Text
      → RemillBackend
      → Parse (ExecutionResult × RemillBackend))
    (compare : ExpectationRow → XedMetadata → ExecutionResult → ComparisonResult)
    (options : Options) where
  -- What a state behind a row tells, if no failure is counted: the row is good, or a limit cut it off.
  abbrev pub AfterRow : ExpectationRow → RunState → RunState → Type 0
  AfterRow row s r =
      failures r ≡ 0
      → (failures s ≡ 0)
        × (CacheIsGood decode run_case compare options s
            → CacheIsGood decode run_case compare options r
              × ((RowIsGood decode run_case compare options row × (r.stop ≡ s.stop))
                  ⊎ (Limited options × (r.stop ≡ true))))

  counted-good :
      (row : ExpectationRow) (s : RunState) (t : XedMetadata × RunState) (printed r : RunState)
      → AfterDecode decode run_case compare options row s t
      → Same t.1 printed
      → failures printed ≡ 0
      → r.stop ≡ printed.stop
      → r.decode_cache ≡ printed.decode_cache
      → (options.execute ≡ true → Executed decode run_case compare options row t.0)
      → (failures s ≡ 0)
        × (CacheIsGood decode run_case compare options s
            → CacheIsGood decode run_case compare options r
              × ((RowIsGood decode run_case compare options row × (r.stop ≡ s.stop))
                  ⊎ (Limited options × (r.stop ≡ true))))
  counted-good row s t printed r decoded (same_failures, same_stop, same_cache) zero_printed stops
        caches executed =
      let (zero_before, stop, cached) = decoded (sym same_failures ∙ zero_printed) in
      (
        zero_before,
        λ all.
            let (found, all') = cached all in
            (
              subst
                  (All
                    (λ (e : Text × XedMetadata). Decodes decode run_case compare options e.0 e.1))
                  (sym (caches ∙ same_cache)) all',
              inl (RowIsGood.good t.0 found executed, stops ∙ same_stop ∙ stop),
            ),
      )

  count_row-good :
      (path : Text) (row : ExpectationRow) (s : RunState)
      → Holds (AfterRow row s) (count_row decode run_case compare options path row s)
  unfolding count_row record_row
  count_row-good path row s =
      Holds-bind (AfterDecode decode run_case compare options row s) (AfterRow row s)
        (metadata_of_row decode run_case compare options row s) _
        (metadata_of_row-good decode run_case compare options row s)
        (λ t decoded.
          let metadata = t.0 in
          let missing =
            metadata.ok && requires_memory_oracle metadata && empty_list row.initial_memory in
          let printed = print_decode options row metadata t.1 in
          let counted = record printed {
            summary = record_row printed.summary (first_token row.instruction) metadata missing;
          } in
          Holds-if (AfterRow row s) options.execute _ _
            (λ on.
              Holds-map (AfterExecution decode run_case compare options row metadata counted)
                (AfterRow row s) _
                (λ r executed zero_after.
                  let (zero_counted, stops, caches, row_executed) = executed zero_after in
                  counted-good row s t printed r decoded
                    (print_decode-Same options row metadata t.1) zero_counted stops caches
                    (λ _. row_executed))
                (execute_row-good decode run_case compare options path row metadata counted))
            (λ off zero_after.
              counted-good row s t printed counted decoded
                (print_decode-Same options row metadata t.1) zero_after refl refl
                (λ on. absurd (ground (arith, on, off)))))

  pub process_row-good :
      (path : Text) (row : ExpectationRow) (s : RunState)
      → Holds (AfterRow row s) (process_row decode run_case compare options path row s)
  unfolding process_row
  process_row-good path row s =
      Holds-if (AfterRow row s) (not (passes_filters options row)) _ _
        (λ out zero_after.
          (zero_after, λ all. (all, inl (RowIsGood.left_out (ground (arith, out)), refl))))
        (λ _.
          Holds-if (AfterRow row s) (reached options.limit_states s.summary.selected_rows) _ _
            (λ full zero_after. (
              zero_after,
              λ all. (all, inr (inl (reached-limit options.limit_states _ full), refl)),
            ))
            (λ _. selected (select_group options path row s) refl))
    where
      selected :
          (o : Option RunState)
          → select_group options path row s ≡ o
          → Holds (AfterRow row s) (elim o [
            | none ↦ ok (record s { stop = true })
            | some s' ↦ count_row decode run_case compare options path row s'
          ])
      selected none e = λ zero_after.
          (zero_after, λ all. (all, inr (select_group-Limited options path row s e, refl)))
      selected (some s') e =
          let (same_failures, same_stop, same_cache) = select_group-Same options path row s s' e in
          Holds-map (AfterRow row s') (AfterRow row s) _
            (λ r after zero_after.
              let (zero_selected, cached) = after zero_after in
              (
                sym same_failures ∙ zero_selected,
                λ all.
                    let (all', outcome) = cached (
                      subst
                        (All (λ (e : Text × XedMetadata).
                          Decodes decode run_case compare options e.0 e.1))
                        (sym same_cache) all) in
                    (
                      all',
                      elim outcome [
                        | inl (good_row, stop) ↦ inl (good_row, stop ∙ same_stop)
                        | inr limited ↦ inr limited
                      ],
                    ),
              ))
            (count_row-good path row s')
