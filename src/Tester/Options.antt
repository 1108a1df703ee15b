-- ===== src/Tester/Options.antt =====
-- src/tester_main.cpp: the options and ParseOptions. Paths are texts; what the file system says of a
-- directory, and the order of its paths, are parameters.
pub mod Canonical
use remill_tester.Base.{
  ℕ, Bool, true, false, not, ◌&&◌, ◌||◌, List, [], ◌∷◌, ◌++◌, map, if◌then◌else◌, ◌==◌, get_or,
  empty_list,
}
use remill_tester.Base.Text.{Text, codes, same, member}
use remill_tester.Base.Chars.{StoullError, stoull}
use remill_tester.Base.Result.{Result, ok, err, ◌>>=◌}
use remill_tester.Parser.Strings.{to_lower, to_upper}
use remill_tester.Tester.Operands.{split_csv}

-- A `std::set` is the list of its members without repetition.
pub record Options : Type 0 where
  pub inputs : List Text
  pub input_dirs : List Text
  pub mnemonics : List Text
  pub opcodes : List Text
  pub limit_states : ℕ
  pub limit_instructions : ℕ
  pub report_jsonl : Text
  pub report_skips_jsonl : Text
  pub print_instructions : Bool
  pub execute : Bool
  pub stop_on_first_fail : Bool
  pub self_test : Bool
  pub help : Bool

abbrev pub fresh_options : Options
fresh_options = record {
  inputs = [];
  input_dirs = [];
  mnemonics = [];
  opcodes = [];
  limit_states = 0;
  limit_instructions = 0;
  report_jsonl = [];
  report_skips_jsonl = [];
  print_instructions = false;
  execute = false;
  stop_on_first_fail = false;
  self_test = false;
  help = false;
}

-- The exceptions of ParseOptions: its own two, those of `std::stoull`, those of the file system.
pub data OptionError : Type 0 where
  missing_value unknown_option : Text → OptionError
  bad_number : StoullError → OptionError
  bad_directory : Text → OptionError

unfoldable pub insert : Text → List Text → List Text
insert member_of set = if member member_of set then set else member_of ∷ set

unfoldable pub insert_all : List Text → List Text → List Text
insert_all [] set = set
insert_all (value ∷ values) set = insert_all values (insert value set)

-- `std::stoull(text)`: what lies behind the number is not looked at.
unfoldable pub parse_limit : Text → Result OptionError ℕ
parse_limit text = elim (stoull text 10) [
  | ok parsed ↦ ok parsed.0
  | err e ↦ err (OptionError.bad_number e)
]

-- What an argument asks for: a change, a change by the next argument, or neither.
pub data Argument : Type 0 where
  switch : (Options → Options) → Argument
  valued : (Text → Options → Result OptionError Options) → Argument
  input : Argument
  unknown : Argument

unfoldable pub argument : Text → Argument
argument arg =
    if same arg (codes "--help") || same arg (codes "-h")
    then Argument.switch (λ o. record o { help = true })
    else if same arg (codes "--self-test")
    then Argument.switch (λ o. record o { self_test = true })
    else if same arg (codes "--input")
    then Argument.valued (λ value o. ok (record o { inputs = o.inputs ++ (value ∷ []) }))
    else if same arg (codes "--input-dir")
    then Argument.valued (λ value o. ok (record o { input_dirs = o.input_dirs ++ (value ∷ []) }))
    else if same arg (codes "--mnemonic")
    then Argument.valued (λ value o.
      ok (record o { mnemonics = insert_all (map to_lower (split_csv value)) o.mnemonics }))
    else if same arg (codes "--opcode")
    then Argument.valued (λ value o.
      ok (record o { opcodes = insert_all (map to_upper (split_csv value)) o.opcodes }))
    else if same arg (codes "--limit-states")
    then Argument.valued
        (λ value o. do limit ← parse_limit value; ok (record o { limit_states = limit }))
    else if same arg (codes "--limit-instructions")
    then Argument.valued
        (λ value o. do limit ← parse_limit value; ok (record o { limit_instructions = limit }))
    else if same arg (codes "--report-jsonl")
    then Argument.valued (λ value o. ok (record o { report_jsonl = value }))
    else if same arg (codes "--report-skips-jsonl")
    then Argument.valued (λ value o. ok (record o { report_skips_jsonl = value }))
    else if same arg (codes "--print-instructions")
    then Argument.switch (λ o. record o { print_instructions = true })
    else if same arg (codes "--execute")
    then Argument.switch (λ o. record o { execute = true })
    else if same arg (codes "--stop-on-first-fail")
    then Argument.switch (λ o. record o { stop_on_first_fail = true })
    else if not (same arg []) && get_or arg 0 0 == b'-'
    then Argument.unknown
    else Argument.input

-- The loop over the arguments behind the program's name.
unfoldable pub parse_arguments : List Text → Options → Result OptionError Options
parse_arguments [] o = ok o
parse_arguments (arg ∷ []) o = elim (argument arg) [
  | Argument.switch change ↦ ok (change o)
  | Argument.valued change ↦ err (OptionError.missing_value arg)
  | Argument.unknown ↦ err (OptionError.unknown_option arg)
  | Argument.input ↦ ok (record o { inputs = o.inputs ++ (arg ∷ []) })
]
parse_arguments (arg ∷ value ∷ rest) o = elim (argument arg) [
  | Argument.switch change ↦ parse_arguments (value ∷ rest) (change o)
  | Argument.valued change ↦ do o' ← change value o; parse_arguments rest o'
  | Argument.unknown ↦ err (OptionError.unknown_option arg)
  | Argument.input ↦ parse_arguments (value ∷ rest) (record o { inputs = o.inputs ++ (arg ∷ []) })
]

-- What the file system says of an entry of a directory.
pub record DirectoryEntry : Type 0 where
  pub path : Text
  pub is_regular_file : Bool
  pub extension : Text
  pub stem : Text

-- The entry is a corpus file that the mnemonic filter lets through.
unfoldable pub is_wanted : List Text → DirectoryEntry → Bool
is_wanted mnemonics entry =
    entry.is_regular_file
    && same entry.extension (codes ".txt")
    && (empty_list mnemonics || member (to_lower entry.stem) mnemonics)

unfoldable pub wanted_paths : List Text → List DirectoryEntry → List Text
wanted_paths mnemonics [] = []
wanted_paths mnemonics (entry ∷ entries) =
    let rest = wanted_paths mnemonics entries in
    if is_wanted mnemonics entry then entry.path ∷ rest else rest

module _ (path_before : Text → Text → Bool) where
  unfoldable pub insert_sorted : Text → List Text → List Text
  insert_sorted path [] = path ∷ []
  insert_sorted path (other ∷ paths) =
      if path_before other path then other ∷ insert_sorted path paths else path ∷ other ∷ paths

  -- `std::sort`.
  unfoldable pub sort : List Text → List Text
  sort [] = []
  sort (path ∷ paths) = insert_sorted path (sort paths)

  unfoldable pub add_input_directory : List DirectoryEntry → Options → Options
  add_input_directory entries o = record o {
    inputs = o.inputs ++ sort (wanted_paths o.mnemonics entries);
  }

  module _ (list_directory : Text → Result Text (List DirectoryEntry)) where
    unfoldable pub add_input_directories : List Text → Options → Result OptionError Options
    add_input_directories [] o = ok o
    add_input_directories (dir ∷ dirs) o = elim (list_directory dir) [
      | ok entries ↦ add_input_directories dirs (add_input_directory entries o)
      | err message ↦ err (OptionError.bad_directory message)
    ]

    unfoldable pub parse_options : List Text → Result OptionError Options
    parse_options args = do
      o ← parse_arguments args fresh_options
      add_input_directories o.input_dirs o
