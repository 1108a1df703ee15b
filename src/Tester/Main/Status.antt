-- ===== src/Tester/Main/Status.antt =====
-- src/tester_main.cpp: what the preparation and the exit status of a run mean.
use remill_tester.Base.{
  ℕ, ◌+◌, ◌<◌, ◌^◌, ◌≡◌, ◌⊎◌, refl, Bool, true, List, [], Option, All, All-map,
}
use remill_tester.Base.Text.{Text}
use remill_tester.Base.Result.{Result, ok, ◌>>=◌}
use remill_tester.XedMetadata.{XedMetadata}
use remill_tester.Expectation.{ExpectationRow}
use remill_tester.Comparator.Compare.{compare_execution_result}
use remill_tester.Backend.{LiftedFunction, supports_case}
use remill_tester.Backend.Pending.{Toolchain, RemillBackend}
use remill_tester.Backend.Compiler.{run_row}
use remill_tester.Backend.Compiler.Prepared.{IsSettled}
use remill_tester.Backend.Compiler.Healthy.{IsHealthy, IsHex, prepare_cases-succeeds}
use remill_tester.Tester.Options.{Options}
use remill_tester.Tester.Run.{RunState, process_files, initial_run}
use remill_tester.Tester.Run.Covers.{FilesCovered}
use remill_tester.Tester.Prepare.{PrepareState, initial_prepare, prepare_files}
use remill_tester.Tester.Prepare.Collected.{prepare_files-IsCollected}
use remill_tester.Tester.Main.{prepare_backend}

module _ (decode : ℕ → List ℕ → XedMetadata) (lookup : Text → Result Text LiftedFunction)
    (toolchain : Toolchain) (num_vec_registers : ℕ) (read_file : Text → Option (List Text))
    (opens : Text → Bool) where
  -- If the pass over the headers throws nothing, the limits are 64-bit words, and the toolchain can be
  -- set up, takes every module and finds every name, then the preparation of a run with --execute
  -- succeeds, and every row that the pass collected is settled in the backend that the loop starts
  -- with, where it has an opcode.
  pub prepare_backend-succeeds :
      (options : Options) (prepared : PrepareState)
      → prepare_files decode options read_file options.inputs initial_prepare ≡ ok prepared
      → options.limit_states < 2 ^ 64
      → options.limit_instructions < 2 ^ 64
      → IsHealthy toolchain
      → ((name : Text) → (f : LiftedFunction) × (lookup name ≡ ok f))
      → (backend : RemillBackend) × (prepare_backend decode lookup toolchain num_vec_registers
            read_file opens options
          ≡ ok backend)
        × All
            (λ (row : ExpectationRow). supports_case row ≡ true → IsSettled lookup backend row)
            prepared.rows
  unfolding prepare_backend
  prepare_backend-succeeds options prepared prepares states instructions healthy total =
      let collected =
        prepare_files-IsCollected decode options (states, instructions) read_file options.inputs
          prepared prepares in
      let hex =
        All-map IsHex (λ (row : ExpectationRow). supports_case row ≡ true → IsHex row) prepared.rows
          (λ row h _. h) collected.hex in
      let (error, backend, succeeds, settled) =
        prepare_cases-succeeds lookup toolchain prepared.rows [] healthy total hex in
      (backend, rw (prepares, prepare_backend) (rw succeeds refl), settled)

  -- The loop ended, every row of the inputs is covered, and the selected ones are accounted for.
  abbrev pub Passes : Options → Type 0
  Passes options =
      (s : RunState) × (with_mismatches : Bool) × (with_skips : Bool) × (backend : RemillBackend)
      × (process_files decode (run_row lookup toolchain num_vec_registers)
            (compare_execution_result num_vec_registers) options read_file options.inputs
            (initial_run with_mismatches with_skips backend)
          ≡ ok s)
      × FilesCovered decode (run_row lookup toolchain num_vec_registers)
          (compare_execution_result num_vec_registers) options read_file options.inputs s.stop
      × (options.execute ≡ true
          → s.summary.execution_passed + s.summary.execution_skipped ≡ s.summary.selected_rows)

  -- What an exit status of 0 tells.
  abbrev pub IsGood : Options → Type 0
  IsGood options =
      (options.help ≡ true) ⊎ ((options.self_test ≡ true) × (options.inputs ≡ [])) ⊎ Passes options
