-- ===== src/Comparator/Report.antt =====
-- src/comparator.cpp: FormatMismatch.
use remill_tester.Base.{ℕ, ◌-◌, ◌%◌, ◌^◌, not, ◌++◌, [], ◌==◌, if◌then◌else◌}
use remill_tester.Base.Text.{Text, codes}
use remill_tester.Base.Chars.{print_number}
use remill_tester.Expectation.{ExpectationRow}
use remill_tester.FlagMasks.{format_flag_names}
use remill_tester.Comparator.Compare.{FieldMismatch}

abbrev decimal : ℕ → Text
decimal n = print_number 10 n

abbrev hexadecimal : ℕ → Text
hexadecimal n = print_number 16 n

unfoldable pub format_mismatch : ExpectationRow → FieldMismatch → Text
format_mismatch row mismatch =
    codes "case="
    ++ decimal row.test_case_id
    ++ codes " instr="
    ++ decimal row.instruction_id
    ++ codes " state="
    ++ decimal row.state_index
    ++ codes " opcode="
    ++ row.opcode
    ++ codes " \""
    ++ row.instruction
    ++ codes "\" field="
    ++ mismatch.field
    ++ codes " expected=0x"
    ++ hexadecimal mismatch.expected
    ++ codes " actual=0x"
    ++ hexadecimal mismatch.actual
    ++ (if not (mismatch.mask == 2 ^ 64 - 1)
        then codes " mask=0x"
          ++ hexadecimal mismatch.mask
          ++ codes " flags="
          ++ format_flag_names (mismatch.mask % 2 ^ 32)
        else [])
    ++ codes " detail="
    ++ mismatch.detail
