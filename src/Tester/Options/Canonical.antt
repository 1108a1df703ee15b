-- ===== src/Tester/Options/Canonical.antt =====
-- src/tester_main.cpp: what holds of the options however they are given.
use remill_tester.Base.{
  ℕ, ◌<◌, ◌-◌, ◌^◌, ◌≡◌, refl, arith, Bool, true, false, not, ◌&&◌, ◌||◌, List, [], ◌∷◌, ◌++◌, map,
  if◌then◌else◌, All, ltb, ◌==◌, length, get_or,
}
use remill_tester.Base.Text.{Text, codes, same, member}
use remill_tester.Base.Chars.{
  upper_char, stoull, strip_sign, skip_spaces, strip_base, scan_digits, StoullError,
}
use remill_tester.Base.Result.{Result, ok, err, ◌>>=◌, Holds, Holds-bind, Holds-if, Holds-ok}
use remill_tester.Parser.Strings.{to_lower, to_upper}
use remill_tester.Parser.Trimming.{to_lower_idem}
use remill_tester.Tester.Operands.{split_csv}
use remill_tester.Tester.Options.{
  OptionError, Options, fresh_options, Argument, argument, insert, insert_all, parse_limit,
  parse_arguments, DirectoryEntry, add_input_directory, add_input_directories, parse_options,
}

-- The filters are in the case of what they are compared with, and the limits are 64-bit words.
abbrev pub IsCanonical : Options → Type 0
IsCanonical o =
    All (λ (mnemonic : Text). to_lower mnemonic ≡ mnemonic) o.mnemonics
    × All (λ (opcode : Text). to_upper opcode ≡ opcode) o.opcodes
    × (o.limit_states < 2 ^ 64)
    × (o.limit_instructions < 2 ^ 64)

upper_char_idem : (c : ℕ) → upper_char (upper_char c) ≡ upper_char c
unfolding upper_char
upper_char_idem c = ground arith

to_upper_idem : (t : Text) → to_upper (to_upper t) ≡ to_upper t
unfolding to_upper
to_upper_idem [] = refl
to_upper_idem (c ∷ cs) = cc (upper_char_idem c, to_upper_idem cs)

All-insert :
    (P : Text → Type 0) (t : Text) (set : List Text) → P t → All P set → All P (insert t set)
unfolding insert
All-insert P t set h k = go (member t set)
  where
    go : (b : Bool) → All P (if b then set else t ∷ set)
    go true = k
    go false = (h, k)

-- The values are brought into a form that satisfies `P`.
All-insert_all :
    (P : Text → Type 0) (form : Text → Text) (values set : List Text)
    → ((t : Text) → P (form t))
    → All P set
    → All P (insert_all (map form values) set)
unfolding insert_all
All-insert_all P form [] set forms h = h
All-insert_all P form (value ∷ values) set forms h =
    All-insert_all P form values (insert (form value) set) forms
      (All-insert P (form value) set (forms value) h)

negated-lt :
    (negative : Bool) (value : ℕ)
    → ltb (2 ^ 64 - 1) value ≡ false
    → (if negative && ltb 0 value then 2 ^ 64 - value else value) < 2 ^ 64
negated-lt negative value small = ground (arith, small)

stoull-lt : (text : Text) → Holds (λ (p : ℕ × Text). p.0 < 2 ^ 64) (stoull text 10)
unfolding stoull
stoull-lt text =
    let Small = λ (p : ℕ × Text). p.0 < 2 ^ 64 in
    let (negative, unsigned) = strip_sign (skip_spaces text) in
    let (base, number) = strip_base 10 unsigned in
    let (value, rest) = scan_digits base 0 number in
    Holds-if Small (length rest == length number) _ _ (λ _. tt)
      (λ _.
        Holds-if Small (ltb (2 ^ 64 - 1) value) _ _ (λ _. tt)
          (λ small. negated-lt negative value small))

parse_limit-lt : (text : Text) → Holds (λ (limit : ℕ). limit < 2 ^ 64) (parse_limit text)
unfolding parse_limit
parse_limit-lt text = go (stoull text 10) (stoull-lt text)
  where
    go :
        (m : Result StoullError (ℕ × Text))
        → Holds (λ (p : ℕ × Text). p.0 < 2 ^ 64) m
        → Holds
            (λ (limit : ℕ). limit < 2 ^ 64)
            (elim m [ ok parsed ↦ ok parsed.0 | err e ↦ err (OptionError.bad_number e) ])
    go (ok parsed) h = h
    go (err e) h = tt

-- An argument's change keeps the options canonical.
abbrev Keeps : Argument → Type 0
Keeps (Argument.switch change) = (o : Options) → IsCanonical o → IsCanonical (change o)
Keeps (Argument.valued change) =
    (value : Text) (o : Options) → IsCanonical o → Holds IsCanonical (change value o)
Keeps Argument.input = Unit
Keeps Argument.unknown = Unit

Keeps-if :
    (b : Bool) (left right : Argument)
    → Keeps left
    → Keeps right
    → Keeps (if b then left else right)
Keeps-if true left right l r = l
Keeps-if false left right l r = r

mnemonics_keep :
    (value : Text) (o : Options)
    → IsCanonical o
    → IsCanonical (record o { mnemonics = insert_all (map to_lower (split_csv value)) o.mnemonics })
mnemonics_keep value o (mnemonics, opcodes, states, instructions) = (
  All-insert_all (λ (mnemonic : Text). to_lower mnemonic ≡ mnemonic) to_lower (split_csv value)
      o.mnemonics to_lower_idem mnemonics,
  opcodes,
  states,
  instructions,
)

opcodes_keep :
    (value : Text) (o : Options)
    → IsCanonical o
    → IsCanonical (record o { opcodes = insert_all (map to_upper (split_csv value)) o.opcodes })
opcodes_keep value o (mnemonics, opcodes, states, instructions) = (
  mnemonics,
  All-insert_all (λ (opcode : Text). to_upper opcode ≡ opcode) to_upper (split_csv value) o.opcodes
      to_upper_idem opcodes,
  states,
  instructions,
)

states_keep :
    (value : Text) (o : Options)
    → IsCanonical o
    → Holds {E = OptionError} IsCanonical
        (do limit ← parse_limit value; ok (record o { limit_states = limit }))
states_keep value o (mnemonics, opcodes, states, instructions) =
    Holds-bind (λ (limit : ℕ). limit < 2 ^ 64) IsCanonical (parse_limit value) _
      (parse_limit-lt value) (λ limit small. (mnemonics, opcodes, small, instructions))

instructions_keep :
    (value : Text) (o : Options)
    → IsCanonical o
    → Holds {E = OptionError} IsCanonical
        (do limit ← parse_limit value; ok (record o { limit_instructions = limit }))
instructions_keep value o (mnemonics, opcodes, states, instructions) =
    Holds-bind (λ (limit : ℕ). limit < 2 ^ 64) IsCanonical (parse_limit value) _
      (parse_limit-lt value) (λ limit small. (mnemonics, opcodes, states, small))

argument-Keeps : (arg : Text) → Keeps (argument arg)
unfolding argument
argument-Keeps arg =
    Keeps-if (same arg (codes "--help") || same arg (codes "-h")) _ _ (λ o h. h)
      (Keeps-if (same arg (codes "--self-test")) _ _ (λ o h. h)
        (Keeps-if (same arg (codes "--input")) _ _ (λ value o h. h)
          (Keeps-if (same arg (codes "--input-dir")) _ _ (λ value o h. h)
            (Keeps-if (same arg (codes "--mnemonic")) _ _ mnemonics_keep (
              Keeps-if (same arg (codes "--opcode")) _ _ opcodes_keep (
                Keeps-if (same arg (codes "--limit-states")) _ _ states_keep (
                  Keeps-if (same arg (codes "--limit-instructions")) _ _ instructions_keep (
                    Keeps-if (same arg (codes "--report-jsonl")) _ _ (λ value o h. h)
                      (Keeps-if (same arg (codes "--report-skips-jsonl")) _ _ (λ value o h. h)
                        (Keeps-if (same arg (codes "--print-instructions")) _ _ (λ o h. h)
                          (Keeps-if (same arg (codes "--execute")) _ _ (λ o h. h)
                            (Keeps-if (same arg (codes "--stop-on-first-fail")) _ _ (λ o h. h)
                              (Keeps-if (not (same arg []) && get_or arg 0 0 == b'-') _ _ tt
                                tt)))))))))))))

parse_arguments-IsCanonical :
    (args : List Text) (o : Options) → IsCanonical o → Holds IsCanonical (parse_arguments args o)
unfolding parse_arguments
parse_arguments-IsCanonical [] o h = h
parse_arguments-IsCanonical (arg ∷ []) o h = go (argument arg) (argument-Keeps arg)
  where
    go :
        (a : Argument)
        → Keeps a
        → Holds {A = Options} IsCanonical (elim a [
          | Argument.switch change ↦ ok (change o)
          | Argument.valued change ↦ err (OptionError.missing_value arg)
          | Argument.unknown ↦ err (OptionError.unknown_option arg)
          | Argument.input ↦ ok (record o { inputs = o.inputs ++ (arg ∷ []) })
        ])
    go (Argument.switch change) keeps = keeps o h
    go (Argument.valued change) keeps = tt
    go Argument.unknown keeps = tt
    go Argument.input keeps = h
parse_arguments-IsCanonical (arg ∷ value ∷ rest) o h =
    go (argument arg) (argument-Keeps arg) (parse_arguments-IsCanonical (value ∷ rest))
      (parse_arguments-IsCanonical rest)
  where
    go :
        (a : Argument)
        → Keeps a
        → ((o' : Options) → IsCanonical o' → Holds IsCanonical (parse_arguments (value ∷ rest) o'))
        → ((o' : Options) → IsCanonical o' → Holds IsCanonical (parse_arguments rest o'))
        → Holds {A = Options} IsCanonical (elim a [
          | Argument.switch change ↦ parse_arguments (value ∷ rest) (change o)
          | Argument.valued change ↦ (do o' ← change value o; parse_arguments rest o')
          | Argument.unknown ↦ err (OptionError.unknown_option arg)
          | Argument.input ↦
              parse_arguments (value ∷ rest) (record o { inputs = o.inputs ++ (arg ∷ []) })
        ])
    go (Argument.switch change) keeps next behind = next (change o) (keeps o h)
    go (Argument.valued change) keeps next behind =
        Holds-bind IsCanonical IsCanonical (change value o) _ (keeps value o h) behind
    go Argument.unknown keeps next behind = tt
    go Argument.input keeps next behind = next (record o { inputs = o.inputs ++ (arg ∷ []) }) h

module _ (path_before : Text → Text → Bool)
    (list_directory : Text → Result Text (List DirectoryEntry)) where
  add_input_directories-IsCanonical :
      (dirs : List Text) (o : Options)
      → IsCanonical o
      → Holds IsCanonical (add_input_directories path_before list_directory dirs o)
  unfolding add_input_directories add_input_directory
  add_input_directories-IsCanonical [] o h = h
  add_input_directories-IsCanonical (dir ∷ dirs) o h =
      go (list_directory dir) (add_input_directories-IsCanonical dirs)
    where
      go :
          (m : Result Text (List DirectoryEntry))
          → ((o' : Options)
              → IsCanonical o'
              → Holds IsCanonical (add_input_directories path_before list_directory dirs o'))
          → Holds {A = Options} IsCanonical (elim m [
            | ok entries ↦
                add_input_directories path_before list_directory dirs
                  (add_input_directory path_before entries o)
            | err message ↦ err (OptionError.bad_directory message)
          ])
      go (ok entries) rest = rest (add_input_directory path_before entries o) h
      go (err message) rest = tt

  -- The options that ParseOptions accepts have every mnemonic of the filter in lower case and every
  -- opcode in upper case, as the rows they are compared with, and limits that are 64-bit words.
  pub parse_options-IsCanonical :
      (args : List Text) (o : Options)
      → parse_options path_before list_directory args ≡ ok o
      → IsCanonical o
  unfolding parse_options
  parse_options-IsCanonical args o parses = Holds-ok IsCanonical o parses (
      Holds-bind IsCanonical IsCanonical (parse_arguments args fresh_options) _
        (parse_arguments-IsCanonical args fresh_options (tt, tt, omega arith, omega arith))
        (λ o' h. add_input_directories-IsCanonical o'.input_dirs o' h))
