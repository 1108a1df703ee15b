-- ===== src/Parser/Numbering.antt =====
-- The numbers that ParseFile gives to the rows of a corpus.
use remill_tester.Base.{
  ℕ, ◌+◌, ◌≤◌, ◌≡◌, refl, arith, Bool, true, false, not, List, [], ◌∷◌, ◌++◌, Option, none, some,
  ◌==◌, if◌then◌else◌, length, length-append, has_value,
}
use remill_tester.Base.Text.{Text, codes, same, starts_with, cut}
use remill_tester.Base.Result.{ok, err, ◌>>=◌, Holds, Holds-bind, Holds-after, Holds-if, Holds-ok}
use remill_tester.Expectation.{ExpectationRow}
use remill_tester.Parser.Strings.{Parse, trim, no_separator, second_separator}
use remill_tester.Parser.Header.{
  InstructionHeader, parse_header, parse_data_header, parse_data_pool_value,
}
use remill_tester.Parser.Row.{
  DataPool, row_of_header, parse_inputs, parse_outputs, parse_state_row, parse_index_list,
  apply_schema_values,
}
use remill_tester.Parser.File.{
  ParsedCorpus, at, FileState, initial_state, finish_group, open_group, add_row, add_value,
  parse_line, parse_lines, finish_file, parse_file,
}

-- What a row keeps of the header it stands under and of the numbers it is given.
abbrev pub IsRowOf : InstructionHeader → ℕ → ℕ → ℕ → ExpectationRow → Type 0
IsRowOf header instruction_id test_case_id state_index row =
    (row.test_case_id ≡ test_case_id)
    × (row.instruction_id ≡ instruction_id)
    × (row.state_index ≡ state_index)
    × (row.opcode ≡ header.opcode)
    × (row.address ≡ header.address)

module _ (header : InstructionHeader) (instruction_id test_case_id state_index : ℕ) where
  parse_inputs-IsRowOf :
      (text : Text) (data_pool : DataPool) (row : ExpectationRow)
      → IsRowOf header instruction_id test_case_id state_index row
      → Holds
          (IsRowOf header instruction_id test_case_id state_index)
          (parse_inputs text header data_pool row)
  unfolding parse_inputs
  parse_inputs-IsRowOf text data_pool row h =
      Holds-after (IsRowOf header instruction_id test_case_id state_index)
        (parse_index_list text (length header.input_schema) (length data_pool) (codes "input")) _
        (λ indices.
          Holds-after (IsRowOf header instruction_id test_case_id state_index)
            (apply_schema_values header.input_schema indices data_pool _) _ (λ sink. h))

  parse_outputs-IsRowOf :
      (line text : Text) (data_pool : DataPool) (row : ExpectationRow)
      → IsRowOf header instruction_id test_case_id state_index row
      → Holds
          (IsRowOf header instruction_id test_case_id state_index)
          (parse_outputs line text header data_pool row)
  unfolding parse_outputs
  parse_outputs-IsRowOf line text data_pool row h =
      let P = IsRowOf header instruction_id test_case_id state_index in
      Holds-if P (starts_with text (codes "!")) _ _
        (λ _. Holds-if P (same (trim _) []) _ _ (λ _. tt) (λ _. h))
        (λ _.
          Holds-after P
            (parse_index_list text (length header.output_schema) (length data_pool)
              (codes "output"))
            _
            (λ indices.
              Holds-after P (apply_schema_values header.output_schema indices data_pool _) _
                (λ sink. h)))

  parse_state_row-IsRowOf :
      (line : Text) (data_pool : DataPool)
      → Holds
          (IsRowOf header instruction_id test_case_id state_index)
          (parse_state_row line header instruction_id test_case_id state_index data_pool)
  unfolding parse_state_row
  parse_state_row-IsRowOf line data_pool = parts (cut b'|' (trim line))
    where
      parts :
          (o : Option (Text × Text))
          → Holds (IsRowOf header instruction_id test_case_id state_index) (elim o [
            | none ↦ err (no_separator line)
            | some (input_text, behind) ↦
                if has_value (cut b'|' behind) then err (second_separator line) else (do
                  row ←
                      parse_inputs input_text header data_pool
                        (row_of_header header instruction_id test_case_id state_index)
                  parse_outputs line (trim behind) header data_pool row)
          ])
      parts none = tt
      parts (some (input_text, behind)) =
          let P = IsRowOf header instruction_id test_case_id state_index in
          Holds-if P (has_value (cut b'|' behind)) _ _ (λ _. tt)
            (λ _.
              Holds-bind P P
                (parse_inputs input_text header data_pool
                  (row_of_header header instruction_id test_case_id state_index))
                _ (parse_inputs-IsRowOf input_text data_pool _ (refl, refl, refl, refl, refl))
                (λ row h. parse_outputs-IsRowOf line (trim behind) data_pool row h))

-- The rows from number `i` on, each under one of the first `groups` headers.
abbrev pub Numbered : ℕ → ℕ → List ExpectationRow → Type 0
Numbered i groups [] = Unit
Numbered i groups (row ∷ rows) =
    (row.test_case_id ≡ i)
    × (1 ≤ row.instruction_id)
    × (row.instruction_id ≤ groups)
    × Numbered (i + 1) groups rows

Numbered-more :
    (i groups : ℕ) (rows : List ExpectationRow)
    → Numbered i groups rows
    → Numbered i (groups + 1) rows
Numbered-more i groups [] h = tt
Numbered-more i groups (row ∷ rows) (a, b, c, d) =
    (a, b, omega (arith, c), Numbered-more (i + 1) groups rows d)

Numbered-append :
    (i groups : ℕ) (rows : List ExpectationRow) (row : ExpectationRow)
    → Numbered i groups rows
    → row.test_case_id ≡ i + length rows
    → 1 ≤ row.instruction_id
    → row.instruction_id ≤ groups
    → Numbered i groups (rows ++ row ∷ [])
Numbered-append i groups [] row h e lo hi = (omega (arith, e), lo, hi, tt)
Numbered-append i groups (r ∷ rows) row (a, b, c, d) e lo hi =
    (a, b, c, Numbered-append (i + 1) groups rows row d (omega (arith, e)) lo hi)

-- What the loop of ParseFile keeps.
record IsNumbered (s : FileState) : Type 0 where
  count : s.next_test_case_id ≡ length s.corpus.rows
  groups : s.instruction_id ≡ s.corpus.instruction_groups
  opened : s.have_header ≡ true → 1 ≤ s.instruction_id
  numbered : Numbered 0 s.corpus.instruction_groups s.corpus.rows

finish_group-IsNumbered : (s : FileState) → IsNumbered s → IsNumbered (finish_group s)
unfolding finish_group
finish_group-IsNumbered s n = ground arith

open_group-IsNumbered :
    (s : FileState) (header : InstructionHeader) → IsNumbered s → IsNumbered (open_group s header)
unfolding open_group
open_group-IsNumbered s header n = record {
  count = n.count;
  groups = omega (arith, n.groups);
  opened = λ _. omega arith;
  numbered = Numbered-more 0 s.corpus.instruction_groups s.corpus.rows n.numbered;
}

add_row-IsNumbered :
    (s : FileState) (row : ExpectationRow)
    → IsNumbered s
    → s.have_header ≡ true
    → IsRowOf s.current_header s.instruction_id s.next_test_case_id s.state_index row
    → IsNumbered (add_row s row)
unfolding add_row
add_row-IsNumbered s row n have (id, group, index, opcode, address) = record {
  count = omega (arith, n.count, length-append s.corpus.rows (row ∷ []));
  groups = n.groups;
  opened = n.opened;
  numbered =
      Numbered-append 0 s.corpus.instruction_groups s.corpus.rows row n.numbered
        (omega (arith, id, n.count)) (omega (arith, group, n.opened have))
        (omega (arith, group, n.groups));
}

parse_line-IsNumbered :
    (s : FileState) (trimmed : Text) → IsNumbered s → Holds IsNumbered (parse_line s trimmed)
unfolding parse_line add_value
parse_line-IsNumbered s trimmed n =
    Holds-if IsNumbered (not s.have_data_header) _ _
      (λ _. Holds-after IsNumbered (parse_data_header trimmed) _ (λ count. ground arith))
      (λ _.
        Holds-if IsNumbered (not (s.data_values_remaining == 0)) _ _
          (λ _. Holds-after IsNumbered (parse_data_pool_value trimmed) _ (λ value. ground arith))
          (λ _.
            Holds-if IsNumbered (starts_with trimmed (codes "data:")) _ _ (λ _. tt)
              (λ _.
                Holds-if IsNumbered (starts_with trimmed (codes "instr:")) _ _
                  (λ _. Holds-after IsNumbered (parse_header trimmed) _ (λ header.
                    open_group-IsNumbered (finish_group s) header (finish_group-IsNumbered s n)))
                  (λ _.
                    Holds-if IsNumbered (not s.have_header) _ _ (λ _. tt)
                      (λ have.
                        Holds-bind
                          (IsRowOf s.current_header s.instruction_id s.next_test_case_id
                            s.state_index)
                          IsNumbered
                          (parse_state_row trimmed s.current_header s.instruction_id
                            s.next_test_case_id s.state_index s.data_pool)
                          _
                          (parse_state_row-IsRowOf s.current_header s.instruction_id
                            s.next_test_case_id s.state_index trimmed s.data_pool)
                          (λ row r. add_row-IsNumbered s row n (ground arith) r))))))

Holds-at {ℓ κ} :
    {A : Type ℓ} (P : A → Type κ) (line_number : ℕ) (r : Parse A)
    → Holds P r
    → Holds P (at line_number r)
Holds-at P line_number (ok a) h = h
Holds-at P line_number (err e) h = tt

parse_lines-IsNumbered :
    (lines : List Text) (line_number : ℕ) (s : FileState)
    → IsNumbered s
    → Holds IsNumbered (parse_lines lines line_number s)
unfolding parse_lines
parse_lines-IsNumbered [] line_number s n = n
parse_lines-IsNumbered (line ∷ lines) line_number s n =
    blank (same (trim line) []) (parse_lines-IsNumbered lines (line_number + 1))
  where
    blank :
        (b : Bool)
        → ((t : FileState)
            → IsNumbered t
            → Holds IsNumbered (parse_lines lines (line_number + 1) t))
        → Holds IsNumbered (elim b [
          | true ↦ parse_lines lines (line_number + 1) s
          | false ↦ (do
            s' ← at (line_number + 1) (parse_line s (trim line))
            parse_lines lines (line_number + 1) s')
        ])
    blank true k = k s n
    blank false k =
        Holds-bind IsNumbered IsNumbered (at (line_number + 1) (parse_line s (trim line))) _
          (Holds-at IsNumbered (line_number + 1) (parse_line s (trim line))
            (parse_line-IsNumbered s (trim line) n))
          k

-- The rows of a file that ParseFile parses have the test case ids 0, 1, 2 and so on in their
-- order, and the instruction id of each is at least 1 and at most the number of instruction
-- groups.
pub parse_file-Numbered :
    (file : Option (List Text)) (corpus : ParsedCorpus)
    → parse_file file ≡ ok corpus
    → Numbered 0 corpus.instruction_groups corpus.rows
unfolding parse_file finish_file
parse_file-Numbered none corpus h = absurd (ground arith)
parse_file-Numbered (some lines) corpus h =
    Holds-ok (λ (c : ParsedCorpus). Numbered 0 c.instruction_groups c.rows) corpus h
      (Holds-bind IsNumbered (λ (c : ParsedCorpus). Numbered 0 c.instruction_groups c.rows)
        (parse_lines lines 0 initial_state) finish_file
        (parse_lines-IsNumbered lines 0 initial_state (ground arith)) finished)
  where
    finished :
        (s : FileState)
        → IsNumbered s
        → Holds (λ (c : ParsedCorpus). Numbered 0 c.instruction_groups c.rows) (finish_file s)
    finished s n =
        Holds-if _ (not s.have_data_header) _ _ (λ _. tt)
          (λ _.
            Holds-if _ (not (s.data_values_remaining == 0)) _ _ (λ _. tt)
              (λ _. (finish_group-IsNumbered s n).numbered))
