-- ===== src/Tester/Run/Accounting.antt =====
-- The counters of a run: every executed row is counted once, and the limits are kept.
use remill_tester.Base.{
  ℕ, ◌+◌, ◌≤◌, ◌<◌, ◌≡◌, ◌≢◌, arith, Bool, true, false, List, some, if◌then◌else◌, length,
}
use remill_tester.Base.Text.{Text}
use remill_tester.Base.Map.{text_key}
use remill_tester.Expectation.{ExpectationRow}
use remill_tester.XedMetadata.{XedMetadata}
use remill_tester.Comparator.Compare.{ComparisonResult}
use remill_tester.Tester.Summary.{record_skip, record_decode, record_row}
use remill_tester.Backend.Pending.{RemillBackend}
use remill_tester.Tester.Options.{Options}
use remill_tester.Tester.Run.{
  print_decode, RunState, reached, select_group, skip_row, record_comparison,
}

abbrev pub executed : RunState → ℕ
executed s = s.summary.execution_passed + s.summary.execution_failed + s.summary.execution_skipped

-- What the counters tell, whatever the decoder, the backend and the comparison answer.
pub record IsConsistent (options : Options) (s : RunState) : Type 0 where
  pub rows_counted : executed s ≡ (if options.execute then s.summary.selected_rows else 0)
  pub groups_counted : s.summary.selected_instruction_groups ≡ length s.selected_groups
  pub states_limit : options.limit_states ≢ 0 → s.summary.selected_rows ≤ options.limit_states
  pub instructions_limit :
      options.limit_instructions ≢ 0
      → s.summary.selected_instruction_groups ≤ options.limit_instructions
  pub first_failure :
      options.stop_on_first_fail ≡ true → s.summary.execution_failed ≤ (if s.stop then 1 else 0)

pub choose-IsConsistent :
    (options : Options) (b : Bool) {s t : RunState}
    → IsConsistent options s
    → IsConsistent options t
    → IsConsistent options (if b then s else t)
choose-IsConsistent options true left right = left
choose-IsConsistent options false left right = right

-- The same within a row that is selected and not executed yet.
pub record IsPending (options : Options) (s : RunState) : Type 0 where
  pub rows_pending : executed s + 1 ≡ s.summary.selected_rows
  pub groups_counted : s.summary.selected_instruction_groups ≡ length s.selected_groups
  pub states_limit : options.limit_states ≢ 0 → s.summary.selected_rows ≤ options.limit_states
  pub instructions_limit :
      options.limit_instructions ≢ 0
      → s.summary.selected_instruction_groups ≤ options.limit_instructions
  pub no_failure : options.stop_on_first_fail ≡ true → s.summary.execution_failed ≡ 0

pub skip_row-IsConsistent :
    (options : Options) (path : Text) (row : ExpectationRow) (reason detail : Text) (s : RunState)
    → options.execute ≡ true
    → IsPending options s
    → IsConsistent options (skip_row path row reason detail s)
unfolding skip_row record_skip
skip_row-IsConsistent options path row reason detail s on p = ground arith

pub record_comparison-IsConsistent :
    (options : Options) (path : Text) (row : ExpectationRow) (c : ComparisonResult) (s : RunState)
    → options.execute ≡ true
    → IsPending options s
    → IsConsistent options (record_comparison options path row c s)
unfolding record_comparison
record_comparison-IsConsistent options path row c s on p = ground arith

-- The same for a row that the limits let through.
pub record IsReady (options : Options) (s : RunState) : Type 0 where
  pub rows_counted : executed s ≡ (if options.execute then s.summary.selected_rows else 0)
  pub groups_counted : s.summary.selected_instruction_groups ≡ length s.selected_groups
  pub room : options.limit_states ≢ 0 → s.summary.selected_rows < options.limit_states
  pub instructions_limit :
      options.limit_instructions ≢ 0
      → s.summary.selected_instruction_groups ≤ options.limit_instructions
  pub no_failure : options.stop_on_first_fail ≡ true → s.summary.execution_failed ≡ 0

pub select_group-IsReady :
    (options : Options) (path : Text) (row : ExpectationRow) (s : RunState) {s' : RunState}
    → IsConsistent options s
    → s.stop ≡ false
    → reached options.limit_states s.summary.selected_rows ≡ false
    → select_group options path row s ≡ some s'
    → IsReady options s'
unfolding select_group reached
select_group-IsReady options path row s c going room selected = ground arith

pub decoded-IsReady :
    (options : Options) (s : RunState) (metadata : XedMetadata) (n : ℕ)
    (cache : List (Text × XedMetadata))
    → IsReady options s
    → IsReady options
        (record s { decode_cache = cache; summary = record_decode s.summary metadata n })
unfolding record_decode
decoded-IsReady options s metadata n cache r = ground arith

pub counted-IsPending :
    (options : Options) (s : RunState) (mnemonic : Text) (metadata : XedMetadata) (missing : Bool)
    → options.execute ≡ true
    → IsReady options s
    → IsPending options (record s { summary = record_row s.summary mnemonic metadata missing })
unfolding record_row
counted-IsPending options s mnemonic metadata missing on r = ground arith

pub counted-IsConsistent :
    (options : Options) (s : RunState) (mnemonic : Text) (metadata : XedMetadata) (missing : Bool)
    → options.execute ≡ false
    → IsReady options s
    → IsConsistent options (record s { summary = record_row s.summary mnemonic metadata missing })
unfolding record_row
counted-IsConsistent options s mnemonic metadata missing off r = ground arith

pub print_decode-IsReady :
    (options : Options) (row : ExpectationRow) (metadata : XedMetadata) (s : RunState)
    → IsReady options s
    → IsReady options (print_decode options row metadata s)
unfolding print_decode
print_decode-IsReady options row metadata s r = ground arith

pub backend-IsPending :
    (options : Options) (s : RunState) (backend : RemillBackend)
    → IsPending options s
    → IsPending options (record s { backend = backend })
backend-IsPending options s backend p = ground arith
