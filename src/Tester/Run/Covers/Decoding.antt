-- ===== src/Tester/Run/Covers/Decoding.antt =====
-- The metadata of a row, when no failed decode is counted.
use remill_tester.Base.{ℕ, ◌≡◌, refl, arith, List, Option, none, some, length}
use remill_tester.Base.Text.{Text}
use remill_tester.Base.Map.{find, assign, text_key, All-find, All-assign}
use remill_tester.Base.Result.{ok, ◌>>=◌, Holds, Holds-bind, Holds-run}
use remill_tester.Expectation.{ExecutionResult, ExpectationRow}
use remill_tester.Parser.Strings.{Parse, parse_hex_bytes}
use remill_tester.XedMetadata.{XedMetadata}
use remill_tester.Comparator.Compare.{ComparisonResult}
use remill_tester.Backend.Pending.{RemillBackend}
use remill_tester.Tester.Options.{Options}
use remill_tester.Tester.Operands.{decode_key}
use remill_tester.Tester.Summary.{record_decode}
use remill_tester.Tester.Run.{RunState, metadata_of_row}
use remill_tester.Tester.Run.Covers.{failures, Decodes, CacheIsGood}

module _ (decode : ℕ → List ℕ → XedMetadata)
    (run_case : ExpectationRow
      → List Text
      → RemillBackend
      → Parse (ExecutionResult × RemillBackend))
    (compare : ExpectationRow → XedMetadata → ExecutionResult → ComparisonResult)
    (options : Options) where
  -- What the metadata of a row tell, if no failure is counted.
  abbrev pub AfterDecode : ExpectationRow → RunState → XedMetadata × RunState → Type 0
  AfterDecode row s r =
      failures r.1 ≡ 0
      → (failures s ≡ 0)
        × (r.1.stop ≡ s.stop)
        × (CacheIsGood decode run_case compare options s
            → Decodes decode run_case compare options (decode_key row) r.0
              × CacheIsGood decode run_case compare options r.1)

  record_decode-good :
      (row : ExpectationRow) (s : RunState) (bytes : List ℕ)
      → parse_hex_bytes row.opcode ≡ ok bytes
      → AfterDecode row s (
        decode row.address bytes,
        record s {
          decode_cache = assign (decode_key row) (decode row.address bytes) s.decode_cache;
          summary = record_decode s.summary (decode row.address bytes) (length bytes);
        },
      )
  unfolding record_decode
  record_decode-good row s bytes parsed zero_after =
      let metadata = decode row.address bytes in
      let found : Decodes decode run_case compare options (decode_key row) metadata = record {
        first = row;
        bytes = bytes;
        same_key = refl;
        parsed = parsed;
        decoded = refl;
        succeeds = ground (arith, zero_after);
        whole = ground (arith, zero_after);
      } in
      (
        ground (arith, zero_after),
        refl,
        λ cached. (
          found,
          All-assign (λ (e : Text × XedMetadata). Decodes decode run_case compare options e.0 e.1)
              (decode_key row) metadata s.decode_cache found cached,
        ),
      )

  pub metadata_of_row-good :
      (row : ExpectationRow) (s : RunState)
      → Holds (AfterDecode row s) (metadata_of_row decode run_case compare options row s)
  unfolding metadata_of_row
  metadata_of_row-good row s = cached (find (decode_key row) s.decode_cache) refl
    where
      cached :
          (o : Option XedMetadata)
          → find (decode_key row) s.decode_cache ≡ o
          → Holds {A = XedMetadata × RunState} (AfterDecode row s) (elim o [
            | some metadata ↦ ok (metadata, s)
            | none ↦ (do
              bytes ← parse_hex_bytes row.opcode
              let metadata = decode row.address bytes
              ok (
                metadata,
                record s {
                  decode_cache = assign (decode_key row) metadata s.decode_cache;
                  summary = record_decode s.summary metadata (length bytes);
                },
              ))
          ])
      cached (some metadata) e = λ zero_after. (
        zero_after,
        refl,
        λ all. (
          All-find (λ (e : Text × XedMetadata). Decodes decode run_case compare options e.0 e.1)
              (decode_key row) s.decode_cache e all,
          all,
        ),
      )
      cached none e =
          Holds-bind (λ bytes. parse_hex_bytes row.opcode ≡ ok bytes) (AfterDecode row s)
            (parse_hex_bytes row.opcode) _ (Holds-run (parse_hex_bytes row.opcode))
            (λ bytes parsed. record_decode-good row s bytes parsed)
