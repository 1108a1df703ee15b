-- ===== src/Tester/Summary.antt =====
-- src/tester_main.cpp: the counters of a run.
use remill_tester.Base.{ℕ, ◌+◌, Bool, not, ◌&&◌, List, [], ◌∷◌, ◌==◌, if◌then◌else◌, value_or}
use remill_tester.Base.Text.{Text}
use remill_tester.Base.Map.{find, assign, text_key}
use remill_tester.FlagMasks.{flag_names_from_mask}
use remill_tester.XedMetadata.{XedMetadata}

-- `std::map<std::string, std::uint64_t>` of counts.
abbrev pub Counts : Type 0
Counts = List (Text × ℕ)

pub record Summary : Type 0 where
  pub files : ℕ
  pub instruction_groups : ℕ
  pub rows : ℕ
  pub selected_rows : ℕ
  pub selected_instruction_groups : ℕ
  pub parse_warnings : ℕ
  pub unique_decodes : ℕ
  pub xed_decode_failures : ℕ
  pub xed_length_mismatches : ℕ
  pub memory_rows_without_oracle : ℕ
  pub execution_passed : ℕ
  pub execution_failed : ℕ
  pub execution_skipped : ℕ
  pub skip_reasons : Counts
  pub rows_by_mnemonic : Counts
  pub groups_by_mnemonic : Counts
  pub undefined_flag_mentions : Counts

abbrev pub fresh_summary : Summary
fresh_summary = record {
  files = 0;
  instruction_groups = 0;
  rows = 0;
  selected_rows = 0;
  selected_instruction_groups = 0;
  parse_warnings = 0;
  unique_decodes = 0;
  xed_decode_failures = 0;
  xed_length_mismatches = 0;
  memory_rows_without_oracle = 0;
  execution_passed = 0;
  execution_failed = 0;
  execution_skipped = 0;
  skip_reasons = [];
  rows_by_mnemonic = [];
  groups_by_mnemonic = [];
  undefined_flag_mentions = [];
}

-- `++counts[key]`.
unfoldable pub bump : Text → Counts → Counts
bump key counts = assign key (value_or (find key counts) 0 + 1) counts

unfoldable pub bump_all : List Text → Counts → Counts
bump_all [] counts = counts
bump_all (key ∷ keys) counts = bump_all keys (bump key counts)

unfoldable pub record_skip : Summary → Text → Summary
record_skip s reason = record s {
  execution_skipped = s.execution_skipped + 1;
  skip_reasons = bump reason s.skip_reasons;
}

-- The counters of a decode that was not cached.
unfoldable pub record_decode : Summary → XedMetadata → ℕ → Summary
record_decode s metadata opcode_size =
    let decoded = record s { unique_decodes = s.unique_decodes + 1 } in
    if not metadata.ok
    then record decoded { xed_decode_failures = s.xed_decode_failures + 1 }
    else if not (metadata.length == opcode_size)
    then record decoded { xed_length_mismatches = s.xed_length_mismatches + 1 }
    else decoded

-- The counters of a row that is selected.
unfoldable pub record_row : Summary → Text → XedMetadata → Bool → Summary
record_row s mnemonic metadata memory_state_missing = record s {
  selected_rows = s.selected_rows + 1;
  rows_by_mnemonic = bump mnemonic s.rows_by_mnemonic;
  undefined_flag_mentions =
      bump_all (flag_names_from_mask metadata.undefined_flags) s.undefined_flag_mentions;
  memory_rows_without_oracle =
      if memory_state_missing
      then s.memory_rows_without_oracle + 1
      else s.memory_rows_without_oracle;
}

-- The exit status that Run ends with.
unfoldable pub exit_status : Summary → ℕ
exit_status s =
    if s.xed_decode_failures == 0 && s.xed_length_mismatches == 0 && s.execution_failed == 0
    then 0
    else 1
