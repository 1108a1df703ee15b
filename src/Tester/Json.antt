-- ===== src/Tester/Json.antt =====
-- src/tester_main.cpp: JsonEscape and the lines of the two reports.
use remill_tester.Base.{ℕ, [], ◌∷◌, ◌++◌, ltb, ◌==◌, if◌then◌else◌}
use remill_tester.Base.Text.{Text, codes, same}
use remill_tester.Base.Chars.{print_number}
use remill_tester.Expectation.{ExpectationRow}
use remill_tester.Comparator.Compare.{FieldMismatch}

unfoldable pub escape_char : ℕ → Text
escape_char ch =
    if ch == b'"'
    then codes "\\\""
    else if ch == b'\\'
    then codes "\\\\"
    else if ch == b'\n'
    then codes "\\n"
    else if ch == b'\r'
    then codes "\\r"
    else if ch == b'\t'
    then codes "\\t"
    else if ltb ch 0x20
    then codes "\\u00" ++ print_number 16 ch
    else ch ∷ []

unfoldable pub json_escape : Text → Text
unfolding escape_char
json_escape [] = []
json_escape (ch ∷ text) = escape_char ch ++ json_escape text

-- What both reports write of a row.
abbrev row_fields : Text → Text → ExpectationRow → Text
row_fields kind path row =
    codes "{\"kind\":\""
    ++ kind
    ++ codes "\",\"file\":\""
    ++ json_escape path
    ++ codes "\",\"test_case_id\":"
    ++ print_number 10 row.test_case_id
    ++ codes ",\"instruction_id\":"
    ++ print_number 10 row.instruction_id
    ++ codes ",\"state_index\":"
    ++ print_number 10 row.state_index
    ++ codes ",\"opcode\":\""
    ++ json_escape row.opcode
    ++ codes "\",\"instruction\":\""
    ++ json_escape row.instruction

unfoldable pub skip_json : Text → ExpectationRow → Text → Text → Text
skip_json path row reason detail =
    row_fields (codes "skip") path row
    ++ codes "\",\"reason\":\""
    ++ json_escape reason
    ++ codes "\""
    ++ (if same detail [] then [] else codes ",\"detail\":\"" ++ json_escape detail ++ codes "\"")
    ++ codes "}\n"

unfoldable pub mismatch_json : Text → ExpectationRow → FieldMismatch → Text
mismatch_json path row mismatch =
    row_fields (codes "mismatch") path row
    ++ codes "\",\"field\":\""
    ++ json_escape mismatch.field
    ++ codes "\",\"expected\":"
    ++ print_number 10 mismatch.expected
    ++ codes ",\"actual\":"
    ++ print_number 10 mismatch.actual
    ++ codes ",\"mask\":"
    ++ print_number 10 mismatch.mask
    ++ codes ",\"detail\":\""
    ++ json_escape mismatch.detail
    ++ codes "\"}\n"
