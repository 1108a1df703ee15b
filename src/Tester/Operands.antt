-- ===== src/Tester/Operands.antt =====
-- src/tester_main.cpp: texts of instructions and their operands.
pub mod Keys
use remill_tester.Base.{
  ℕ, suc, ◌-◌, ◌%◌, ◌^◌, ◌&&◌, ◌||◌, List, [], ◌∷◌, ◌++◌, Option, none, some, ltb, leb, ◌==◌,
  if◌then◌else◌, length, get_or, take, drop, has_value,
}
use remill_tester.Base.Text.{Text, codes, same, cut, member}
use remill_tester.Base.Map.{find, text_key}
use remill_tester.Base.Chars.{is_digit, print_number}
use remill_tester.Expectation.{ExpectationRow}
use remill_tester.Parser.Strings.{trim, to_lower, split}

-- The parts of SplitCsv that are not empty; its loop is that of Split.
unfoldable pub trimmed_parts : List Text → List Text
trimmed_parts [] = []
trimmed_parts (part ∷ parts) =
    let rest = trimmed_parts parts in if same (trim part) [] then rest else trim part ∷ rest

unfoldable pub split_csv : Text → List Text
unfolding trimmed_parts
split_csv text = trimmed_parts (split text b',')

-- The text up to the first blank or tab.
unfoldable pub up_to_blank : Text → Text
up_to_blank [] = []
up_to_blank (c ∷ cs) = if c == b' ' || c == b'\t' then [] else c ∷ up_to_blank cs

unfoldable pub first_token : Text → Text
unfolding up_to_blank
first_token text = to_lower (up_to_blank (trim text))

unfoldable pub decode_key : ExpectationRow → Text
decode_key row = print_number 10 row.address ++ (b'#' ∷ row.opcode)

unfoldable pub instruction_group_key : Text → ExpectationRow → Text
instruction_group_key path row = path ++ (b'#' ∷ print_number 10 row.instruction_id)

abbrev pub aliases : List (Text × Text)
aliases =
    (codes "rax", codes "rax")
    ∷ (codes "eax", codes "rax")
    ∷ (codes "ax", codes "rax")
    ∷ (codes "rbx", codes "rbx")
    ∷ (codes "ebx", codes "rbx")
    ∷ (codes "bx", codes "rbx")
    ∷ (codes "rcx", codes "rcx")
    ∷ (codes "ecx", codes "rcx")
    ∷ (codes "cx", codes "rcx")
    ∷ (codes "rdx", codes "rdx")
    ∷ (codes "edx", codes "rdx")
    ∷ (codes "dx", codes "rdx")
    ∷ (codes "rsi", codes "rsi")
    ∷ (codes "esi", codes "rsi")
    ∷ (codes "si", codes "rsi")
    ∷ (codes "rdi", codes "rdi")
    ∷ (codes "edi", codes "rdi")
    ∷ (codes "di", codes "rdi")
    ∷ (codes "rsp", codes "rsp")
    ∷ (codes "esp", codes "rsp")
    ∷ (codes "sp", codes "rsp")
    ∷ (codes "rbp", codes "rbp")
    ∷ (codes "ebp", codes "rbp")
    ∷ (codes "bp", codes "rbp")
    ∷ []

-- How many digits a text starts with.
unfoldable pub leading_digits : Text → ℕ
leading_digits [] = 0
leading_digits (c ∷ cs) = if is_digit c then suc (leading_digits cs) else 0

-- `r8` to `r15` and the like, with the suffixes of the narrow forms.
unfoldable pub numbered_operand : Text → Option Text
numbered_operand name =
    let pos = suc (leading_digits (drop 1 name)) in
    let suffix = drop pos name in
    if leb 2 (length name) && get_or name 0 0 == b'r' && is_digit (get_or name 1 0)
    then (if pos == 1 || ltb 3 pos
        then none
        else if same suffix [] || same suffix (codes "d") || same suffix (codes "w")
        then some (take pos name)
        else none)
    else none

unfoldable pub canonical_scalar_operand : Text → Option Text
unfolding numbered_operand leading_digits
canonical_scalar_operand operand =
    let name = to_lower (trim operand) in
    if same name [] || has_value (cut b'[' name)
    then none
    else elim (find name aliases) [ some register ↦ some register | none ↦ numbered_operand name ]

-- `text.substr(0, text.find(c))`.
abbrev pub up_to : ℕ → Text → Text
up_to c text = elim (cut c text) [ none ↦ text | some (part, rest) ↦ part ]

abbrev pub last_char : Text → ℕ
last_char text = get_or text (length text - 1) 0

abbrev pub gpr16 : List Text
gpr16 =
    codes "ax"
    ∷ codes "bx"
    ∷ codes "cx"
    ∷ codes "dx"
    ∷ codes "si"
    ∷ codes "di"
    ∷ codes "sp"
    ∷ codes "bp"
    ∷ []

unfoldable pub width_of_operand : Text → ℕ
width_of_operand dest =
    let numbered = leb 3 (length dest) && get_or dest 0 0 == b'r' in
    if member dest gpr16 || (numbered && last_char dest == b'w')
    then 16
    else if (length dest == 3 && get_or dest 0 0 == b'e') || (numbered && last_char dest == b'd')
    then 32
    else 64

unfoldable pub destination_width_bits : Text → ℕ
unfolding width_of_operand
destination_width_bits instruction = elim (cut b' ' instruction) [
  | none ↦ 0
  | some (mnemonic, operands) ↦ width_of_operand (to_lower (trim (up_to b',' operands)))
]

-- The operand between the first comma and the next, if there is one.
unfoldable pub source_operand : Text → Option Text
source_operand instruction = elim (cut b',' instruction) [
  | none ↦ none
  | some (dest, rest) ↦ some (trim (up_to b',' (trim rest)))
]

unfoldable pub descriptor_source_selector : ExpectationRow → Option ℕ
unfolding source_operand
descriptor_source_selector row = elim (source_operand row.instruction) [
  | none ↦ none
  | some source ↦ elim (canonical_scalar_operand source) [
    | none ↦ none
    | some key ↦ elim (find key row.initial_state) [
      | none ↦ none
      | some value ↦ some (value % 2 ^ 16)
    ]
  ]
]
