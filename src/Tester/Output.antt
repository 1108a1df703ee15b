-- ===== src/Tester/Output.antt =====
-- src/tester_main.cpp: what the driver writes to standard output.
use remill_tester.Base.{ℕ, [], ◌∷◌, ◌++◌, Bool, not, if◌then◌else◌, length, empty_list}
use remill_tester.Base.Text.{Text, codes}
use remill_tester.Base.Chars.{print_number}
use remill_tester.Expectation.{ExpectationRow}
use remill_tester.FlagMasks.{format_flag_names}
use remill_tester.XedMetadata.{XedMetadata}
use remill_tester.Tester.Json.{json_escape}
use remill_tester.Tester.Summary.{Counts, Summary}

abbrev newline : Text
newline = b'\n' ∷ []

-- PrintUsage.
unfoldable pub usage : Text → Text
usage argv0 =
    codes "Usage: "
    ++ argv0
    ++ codes " [options] --input 3975WX/xor.txt\n\nOptions:\n"
    ++ codes "  --input <path>             Add one x86Tester file. Positional paths also work.\n"
    ++ codes "  --input-dir <dir>          Add all .txt files in a corpus directory, sorted.\n"
    ++ codes "  --mnemonic <csv>           Filter by mnemonic, e.g. xor,add,adc.\n"
    ++ codes "  --opcode <csv>             Filter by opcode hex, e.g. 4831D8.\n"
    ++ codes "  --limit-states <n>         Stop after selecting n state rows.\n"
    ++ codes "  --limit-instructions <n>   Stop after selecting n instruction groups.\n"
    ++ codes
        "  --print-instructions       Print one XED metadata line per selected opcode/address.\n"
    ++ codes "  --report-jsonl <path>      Write mismatch records as JSON Lines.\n"
    ++ codes "  --report-skips-jsonl <path>\n"
    ++ codes "                              Write skip records as JSON Lines.\n"
    ++ codes
        "  --execute                  Lift/JIT/run selected rows with Remill and compare sparse outputs.\n"
    ++ codes "  --stop-on-first-fail       Stop after the first execution mismatch.\n"
    ++ codes "  --self-test                Run parser/XED smoke tests.\n"
    ++ codes "  --help                     Show this help.\n"

-- PrintMetadataLine.
unfoldable pub metadata_line : ExpectationRow → XedMetadata → Text
metadata_line row metadata =
    row.opcode
    ++ codes " @0x"
    ++ print_number 16 row.address
    ++ codes " "
    ++ row.instruction
    ++ codes " xed="
    ++ (if not metadata.ok
        then codes "ERROR(" ++ metadata.error ++ codes ")\n"
        else metadata.iclass
          ++ codes " iform="
          ++ metadata.iform
          ++ codes " category="
          ++ metadata.category
          ++ codes " extension="
          ++ metadata.extension
          ++ codes " len="
          ++ print_number 10 metadata.length
          ++ codes " flags.read="
          ++ format_flag_names metadata.read_flags
          ++ codes " flags.written="
          ++ format_flag_names metadata.written_flags
          ++ codes " flags.undefined="
          ++ format_flag_names metadata.undefined_flags
          ++ codes " flags.compare="
          ++ format_flag_names metadata.comparable_written_flags
          ++ (if empty_list metadata.memory_operands
              then []
              else codes " memops=" ++ print_number 10 (length metadata.memory_operands))
          ++ newline)

abbrev counter : Text → ℕ → Text
counter name count = codes "summary." ++ name ++ codes "=" ++ print_number 10 count ++ newline

unfoldable pub skip_reason_lines : Counts → Text
skip_reason_lines [] = []
skip_reason_lines ((reason, count) ∷ counts) =
    codes "summary.skip_reason reason=\""
    ++ json_escape reason
    ++ codes "\" count="
    ++ print_number 10 count
    ++ newline
    ++ skip_reason_lines counts

unfoldable pub count_list : Counts → Text
count_list [] = newline
count_list ((name, count) ∷ counts) =
    codes " " ++ name ++ codes "=" ++ print_number 10 count ++ count_list counts

-- A line of counts, if there are any.
unfoldable pub count_line : Text → Counts → Text
count_line title [] = []
count_line title (entry ∷ counts) =
    codes "summary." ++ title ++ codes ":" ++ count_list (entry ∷ counts)

-- What Run writes of its counters at the end.
unfoldable pub summary_text : Bool → Summary → Text
summary_text execute s =
    counter (codes "files") s.files
    ++ counter (codes "instruction_groups") s.instruction_groups
    ++ counter (codes "rows") s.rows
    ++ counter (codes "selected_instruction_groups") s.selected_instruction_groups
    ++ counter (codes "selected_rows") s.selected_rows
    ++ counter (codes "unique_decodes") s.unique_decodes
    ++ counter (codes "xed_decode_failures") s.xed_decode_failures
    ++ counter (codes "xed_length_mismatches") s.xed_length_mismatches
    ++ counter (codes "memory_rows_without_oracle") s.memory_rows_without_oracle
    ++ counter (codes "parse_warnings") s.parse_warnings
    ++ (if execute
        then counter (codes "execution_passed") s.execution_passed
          ++ counter (codes "execution_failed") s.execution_failed
          ++ counter (codes "execution_skipped") s.execution_skipped
          ++ skip_reason_lines s.skip_reasons
        else [])
    ++ count_line (codes "rows_by_mnemonic") s.rows_by_mnemonic
    ++ count_line (codes "undefined_flag_mentions") s.undefined_flag_mentions
