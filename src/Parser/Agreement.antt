-- ===== src/Parser/Agreement.antt =====
-- ParseInstructionHeaders, which reads the header lines alone, against ParseFile.
use remill_tester.Base.{
  ℕ, ◌+◌, ◌≡◌, refl, ap, ◌∙◌, ◌⊎◌, inl, inr, arith, true, false, not, ◌||◌, List, [], ◌∷◌, Option,
  none, some, ◌==◌, length, Bool-cases,
}
use remill_tester.Base.Text.{Text, codes, same, starts_with}
use remill_tester.Base.Result.{
  ok, err, bind-eq-ok, Holds, Holds-bind, Holds-after, Holds-if, Holds-run, Holds-ok,
}
use remill_tester.Parser.Strings.{Parse, trim}
use remill_tester.Parser.Header.{
  InstructionHeader, lacks_mark, parse_header, parse_data_header, parse_data_pool_value,
}
use remill_tester.Parser.Row.{parse_state_row}
use remill_tester.Parser.File.{
  ParsedCorpus, ParsedInstructionHeader, at, FileState, initial_state, finish_group, open_group,
  add_row, add_value, parse_line, parse_lines, finish_file, parse_file, header_lines,
  parse_instruction_headers,
}
use remill_tester.Parser.Trimming.{trim_idem}

not_instr :
    (text : Text)
    → starts_with text (codes "data:") ≡ true
    → starts_with text (codes "instr:") ≡ false
unfolding starts_with
not_instr [] h = refl
not_instr (x ∷ text) h = ground arith

marked-not_instr :
    (text : Text) → lacks_mark text b'#' ≡ false → starts_with text (codes "instr:") ≡ false
unfolding starts_with
marked-not_instr [] h = refl
marked-not_instr (x ∷ text) h = ground arith

data_header-not_instr :
    (text : Text) (count : ℕ)
    → parse_data_header text ≡ ok count
    → starts_with text (codes "instr:") ≡ false
unfolding parse_data_header
data_header-not_instr text count h = ground (arith, not_instr text)

pool_value-not_instr :
    (text : Text) (value : List ℕ)
    → trim text ≡ text
    → parse_data_pool_value text ≡ ok value
    → starts_with text (codes "instr:") ≡ false
unfolding parse_data_pool_value
pool_value-not_instr text value e h = ground (arith, marked-not_instr text)

finish_group-groups :
    (s : FileState) → (finish_group s).corpus.instruction_groups ≡ s.corpus.instruction_groups
unfolding finish_group
finish_group-groups s = ground arith

-- A line is no header line and opens no group, or a header line that ParseHeader reads and opens one.
abbrev Opens : FileState → Text → FileState → Type 0
Opens s text s' =
    ((starts_with text (codes "instr:") ≡ false)
      × (s'.corpus.instruction_groups ≡ s.corpus.instruction_groups))
    ⊎ ((starts_with text (codes "instr:") ≡ true)
        × (s'.corpus.instruction_groups ≡ s.corpus.instruction_groups + 1)
        × ((header : InstructionHeader) × (parse_header text ≡ ok header)))

parse_line-Opens :
    (s : FileState) (text : Text) → trim text ≡ text → Holds (Opens s text) (parse_line s text)
unfolding parse_line add_value open_group add_row
parse_line-Opens s text trimmed =
    Holds-if (Opens s text) (not s.have_data_header) _ _
      (λ _.
        Holds-bind _ (Opens s text) (parse_data_header text) _ (Holds-run (parse_data_header text))
          (λ count read. inl (data_header-not_instr text count read, refl)))
      (λ _.
        Holds-if (Opens s text) (not (s.data_values_remaining == 0)) _ _
          (λ _.
            Holds-bind _ (Opens s text) (parse_data_pool_value text) _
              (Holds-run (parse_data_pool_value text))
              (λ value read. inl (pool_value-not_instr text value trimmed read, refl)))
          (λ _.
            Holds-if (Opens s text) (starts_with text (codes "data:")) _ _ (λ _. tt)
              (λ _.
                Holds-if (Opens s text) (starts_with text (codes "instr:")) _ _
                  (λ is_header.
                    Holds-bind _ (Opens s text) (parse_header text) _
                      (Holds-run (parse_header text))
                      (λ header read.
                        inr (
                          is_header,
                          ap (λ (n : ℕ). n + 1) (finish_group-groups s),
                          (header, read),
                        )))
                  (λ no_header.
                    Holds-if (Opens s text) (not s.have_header) _ _ (λ _. tt)
                      (λ _.
                        Holds-after (Opens s text)
                          (parse_state_row text s.current_header s.instruction_id
                            s.next_test_case_id s.state_index s.data_pool)
                          _ (λ row. inl (no_header, refl)))))))

-- What the header pass gives over the same lines.
abbrev Found : List Text → ℕ → ℕ → FileState → FileState → Type 0
Found lines line_number instruction_id s s' =
    (headers : List ParsedInstructionHeader) × (header_lines lines line_number instruction_id
      ≡ ok headers)
    × (s'.corpus.instruction_groups ≡ s.corpus.instruction_groups + length headers)

at-eq-ok {ℓ} :
    {A : Type ℓ} (line_number : ℕ) (r : Parse A) (a : A) → at line_number r ≡ ok a → r ≡ ok a
at-eq-ok line_number (ok b) a h = ground arith
at-eq-ok line_number (err e) a h = absurd (ground arith)

empty_header_lines :
    (line_number instruction_id : ℕ) → header_lines [] line_number instruction_id ≡ ok []
unfolding header_lines
empty_header_lines line_number instruction_id = refl

module _ (line : Text) (lines : List Text) (line_number instruction_id : ℕ) where
  passed_over :
      (same (trim line) [] || not (starts_with (trim line) (codes "instr:"))) ≡ true
      → header_lines (line ∷ lines) line_number instruction_id
        ≡ header_lines lines (line_number + 1) instruction_id
  unfolding header_lines
  passed_over e = rw (e, header_lines) refl

  taken :
      (header : InstructionHeader) (headers : List ParsedInstructionHeader)
      → same (trim line) [] ≡ false
      → starts_with (trim line) (codes "instr:") ≡ true
      → parse_header (trim line) ≡ ok header
      → header_lines lines (line_number + 1) (instruction_id + 1) ≡ ok headers
      → header_lines (line ∷ lines) line_number instruction_id
        ≡ ok (
            record {
              instruction_id = instruction_id + 1;
              address = header.address;
              opcode = header.opcode;
              instruction = header.instruction;
              row_count = header.row_count;
            }
            ∷ headers)
  unfolding header_lines
  taken header headers content is_header read rest = ground arith

parse_lines-Found :
    (lines : List Text) (line_number instruction_id : ℕ) (s s' : FileState)
    → parse_lines lines line_number s ≡ ok s'
    → Found lines line_number instruction_id s s'
unfolding parse_lines
parse_lines-Found [] line_number instruction_id s s' h =
    ([], empty_header_lines line_number instruction_id, ground arith)
parse_lines-Found (line ∷ lines) line_number instruction_id s s' h =
    elim (Bool-cases (same (trim line) [])) [
      | inl blank ↦
          let (headers, found, count) =
            parse_lines-Found lines (line_number + 1) instruction_id s s'
              (rw (blank, parse_lines) at h) in
          (headers, passed_over line lines line_number instruction_id (ground arith) ∙ found, count)
      | inr content ↦
          let (s1, parsed, rest) =
            bind-eq-ok (at (line_number + 1) (parse_line s (trim line))) _
              (rw (content, parse_lines) at h) in
          let run = at-eq-ok (line_number + 1) (parse_line s (trim line)) s1 parsed in
          elim (Holds-ok (Opens s (trim line)) s1 run
            (parse_line-Opens s (trim line) (trim_idem line))) [
              | inl (no_header, kept) ↦
                  let (headers, found, count) =
                    parse_lines-Found lines (line_number + 1) instruction_id s1 s' rest in
                  (
                    headers,
                    passed_over line lines line_number instruction_id (ground arith) ∙ found,
                    omega (arith, kept, count),
                  )
              | inr (is_header, opened, (header, read)) ↦
                  let (headers, found, count) =
                    parse_lines-Found lines (line_number + 1) (instruction_id + 1) s1 s' rest in
                  (
                    _ ∷ headers,
                    taken line lines line_number instruction_id header headers content is_header
                        read found,
                    omega (arith, opened, count),
                  )
            ]
    ]

-- For a file that ParseFile parses, ParseInstructionHeaders succeeds and gives as many headers as
-- ParseFile counts instruction groups.
pub parse_file-parse_instruction_headers :
    (file : Option (List Text)) (corpus : ParsedCorpus)
    → parse_file file ≡ ok corpus
    → (headers : List ParsedInstructionHeader) × (parse_instruction_headers file ≡ ok headers)
      × (length headers ≡ corpus.instruction_groups)
unfolding parse_file parse_instruction_headers finish_file
parse_file-parse_instruction_headers none corpus h = absurd (ground arith)
parse_file-parse_instruction_headers (some lines) corpus h =
    let (s, run, finish) = bind-eq-ok (parse_lines lines 0 initial_state) finish_file h in
    let (headers, found, count) = parse_lines-Found lines 0 0 initial_state s run in
    let groups : corpus.instruction_groups ≡ (finish_group s).corpus.instruction_groups =
      ground arith in
    (headers, found, omega (arith, count, groups, finish_group-groups s))
