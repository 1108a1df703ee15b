-- ===== src/Parser/Header.antt =====
-- src/x86tester_parser.cpp: the header line of an instruction and the `data:` line.
use remill_tester.Base.{
  ℕ, Bool, not, ◌||◌, List, [], ◌∷◌, ◌++◌, ◌==◌, if◌then◌else◌, length, get_or, drop,
}
use remill_tester.Base.Text.{Text, codes, same, starts_with}
use remill_tester.Base.Result.{ok, err, ◌>>=◌}
use remill_tester.Parser.Strings.{
  schema_field_prefix, empty_state_name, not_an_instruction_header, header_field_count,
  opcode_prefix, no_data_header, data_value_prefix, Parse, split, trim, to_upper, parse_unsigned,
  parse_hex_bytes,
}

pub record InstructionHeader : Type 0 where
  pub address : ℕ
  pub opcode : Text
  pub instruction : Text
  pub row_count : ℕ
  pub input_schema : List Text
  pub output_schema : List Text

abbrev pub fresh_header : InstructionHeader
fresh_header = record {
  address = 0;
  opcode = [];
  instruction = [];
  row_count = 0;
  input_schema = [];
  output_schema = [];
}

-- The loop of ParseSchemaField over the parts between the commas.
unfoldable pub schema_keys : Text → Text → List Text → Parse (List Text)
schema_keys field name [] = ok []
schema_keys field name (part ∷ parts) =
    let rest = schema_keys field name parts in
    let key = trim part in
    if same key [] then err (empty_state_name name field) else do keys ← rest; ok (key ∷ keys)

unfoldable pub parse_schema_field : Text → Text → Parse (List Text)
unfolding schema_keys
parse_schema_field field name =
    let trimmed = trim field in
    let tag = name ++ codes "=" in
    let body = trim (drop (length tag) trimmed) in
    if not (starts_with trimmed tag)
    then err (schema_field_prefix tag field)
    else if same body []
    then ok []
    else schema_keys field name (split body b',')

-- `text.empty() || text[0] != c`.
abbrev pub lacks_mark : Text → ℕ → Bool
lacks_mark text c = same text [] || not (get_or text 0 0 == c)

-- ParseHeader behind the test of the six fields.
unfoldable pub header_of_fields : Text → List Text → Parse InstructionHeader
header_of_fields line parts = do
  address ← parse_unsigned (trim (get_or parts 0 [])) 0
  let opcode_field = trim (get_or parts 1 [])
  if lacks_mark opcode_field b'#' then err (opcode_prefix line) else do
    let opcode = to_upper (drop 1 opcode_field)
    bytes ← parse_hex_bytes opcode
    row_count ← parse_unsigned (trim (get_or parts 3 [])) 10
    input_schema ← parse_schema_field (get_or parts 4 []) (codes "in")
    output_schema ← parse_schema_field (get_or parts 5 []) (codes "out")
    ok (record {
      address = address;
      opcode = opcode;
      instruction = trim (get_or parts 2 []);
      row_count = row_count;
      input_schema = input_schema;
      output_schema = output_schema;
    })

unfoldable pub parse_header : Text → Parse InstructionHeader
unfolding header_of_fields
parse_header line =
    let parts = split (drop (length (codes "instr:")) line) b';' in
    if not (starts_with line (codes "instr:"))
    then err not_an_instruction_header
    else if not (length parts == 6)
    then err (header_field_count line)
    else header_of_fields line parts

unfoldable pub parse_data_header : Text → Parse ℕ
parse_data_header line =
    if not (starts_with line (codes "data:"))
    then err no_data_header
    else parse_unsigned (trim (drop (length (codes "data:")) line)) 10

unfoldable pub parse_data_pool_value : Text → Parse (List ℕ)
parse_data_pool_value line =
    let trimmed = trim line in
    if lacks_mark trimmed b'#'
    then err (data_value_prefix line)
    else parse_hex_bytes (drop 1 trimmed)
