-- ===== src/Tester/Prepare/Collected.antt =====
-- src/tester_main.cpp: what the pass over the headers hands to PrepareCases.
use remill_tester.Base.{
  ℕ, ◌+◌, ◌%◌, ◌^◌, ◌<◌, ◌≤◌, ◌≡◌, ◌≢◌, refl, sym, ap, ◌∙◌, arith, Bool, true, false, not, ◌||◌,
  List, [], ◌∷◌, ◌++◌, map, Option, if◌then◌else◌, has_value, All, All-append, length,
  length-append, Bool-cases, inl, inr,
}
use remill_tester.Base.Text.{Text, same, same_iff, member}
use remill_tester.Base.Result.{
  ok, map_error, Holds, Holds-bind, Holds-after, Holds-if, Holds-ok, Holds-run, Holds-map_error,
}
use remill_tester.Expectation.{ExpectationRow}
use remill_tester.Parser.Strings.{parse_hex_bytes}
use remill_tester.Parser.File.{ParsedInstructionHeader, parse_instruction_headers}
use remill_tester.XedMetadata.{XedMetadata}
use remill_tester.Tester.Options.{Options}
use remill_tester.Tester.Operands.{decode_key}
use remill_tester.Tester.Skip.{pre_execution_skip}
use remill_tester.Tester.Run.{RunError, passes_filters, reached}
use remill_tester.Backend.Compiler.Healthy.{IsHex}
use remill_tester.Tester.Prepare.{
  PrepareState, initial_prepare, row_of_header, remaining_rows, is_trap, add_prepared,
  prepare_group, prepare_header, prepare_headers, prepare_files,
}

-- No text stands twice in the list.
abbrev pub IsUnique : List Text → Type 0
IsUnique [] = Unit
IsUnique (t ∷ ts) = (member t ts ≡ false) × IsUnique ts

member-apart :
    (t u : Text) (ts : List Text)
    → member t ts ≡ false
    → same u t ≡ false
    → member t (ts ++ (u ∷ [])) ≡ false
member-apart t u [] h apart = ground (arith, apart)
member-apart t u (x ∷ ts) h apart = ground (arith, h, apart, member-apart t u ts)

IsUnique-append :
    (ts : List Text) (t : Text) → IsUnique ts → member t ts ≡ false → IsUnique (ts ++ (t ∷ []))
IsUnique-append [] t u new = (refl, tt)
IsUnique-append (x ∷ ts) t u new =
    let apart : same t x ≡ false = ground (arith, new, same_iff x t, same_iff t x) in
    let rest : member t ts ≡ false = ground (arith, new) in
    (member-apart x t ts u.0 apart, IsUnique-append ts t u.1 rest)

map-append : {A B : Type 0} (f : A → B) (xs ys : List A) → map f (xs ++ ys) ≡ map f xs ++ map f ys
map-append f [] ys = refl
map-append f (x ∷ xs) ys = ap (λ zs. f x ∷ zs) (map-append f xs ys)

-- What the pass has found so far.
pub record IsCollected (options : Options) (s : PrepareState) : Type 0 where
  pub keyed : s.keys ≡ map decode_key s.rows
  pub unique : IsUnique s.keys
  pub hex : All IsHex s.rows
  pub filtered : All (λ (row : ExpectationRow). passes_filters options row ≡ true) s.rows
  pub states_limit : options.limit_states ≢ 0 → s.selected_rows ≤ options.limit_states
  pub instructions_limit :
      options.limit_instructions ≢ 0
      → (length s.rows ≤ s.selected_groups) × (s.selected_groups ≤ options.limit_instructions)

-- The same for a group that is counted and not looked at yet.
record IsCounted (options : Options) (s : PrepareState) : Type 0 where
  keyed : s.keys ≡ map decode_key s.rows
  unique : IsUnique s.keys
  hex : All IsHex s.rows
  filtered : All (λ (row : ExpectationRow). passes_filters options row ≡ true) s.rows
  states_limit : options.limit_states ≢ 0 → s.selected_rows ≤ options.limit_states
  instructions_limit :
      options.limit_instructions ≢ 0
      → (length s.rows < s.selected_groups) × (s.selected_groups ≤ options.limit_instructions)

IsCounted-IsCollected :
    (options : Options) (s : PrepareState) → IsCounted options s → IsCollected options s
IsCounted-IsCollected options s c = record {
  keyed = c.keyed;
  unique = c.unique;
  hex = c.hex;
  filtered = c.filtered;
  states_limit = c.states_limit;
  instructions_limit = λ limited.
      let bounds = c.instructions_limit limited in
      let few = bounds.0 in (omega (arith, few), bounds.1);
}

add_prepared-IsCollected :
    (options : Options) (row : ExpectationRow) (s : PrepareState)
    → IsCounted options s
    → IsHex row
    → passes_filters options row ≡ true
    → IsCollected options (add_prepared row s)
unfolding add_prepared
add_prepared-IsCollected options row s c hex passes =
    elim (Bool-cases (member (decode_key row) s.keys)) [
      | inl known ↦ rw (known, add_prepared) (IsCounted-IsCollected options s c)
      | inr new ↦
          rw (new, add_prepared)
            (record {
              keyed =
                  ap (λ (keys : List Text). keys ++ (decode_key row ∷ [])) c.keyed
                  ∙ sym (map-append decode_key s.rows (row ∷ []));
              unique = IsUnique-append s.keys (decode_key row) c.unique new;
              hex = All-append IsHex s.rows (row ∷ []) c.hex (hex, tt);
              filtered =
                  All-append (λ (r : ExpectationRow). passes_filters options r ≡ true) s.rows
                    (row ∷ []) c.filtered (passes, tt);
              states_limit = c.states_limit;
              instructions_limit = λ limited.
                  let bounds = c.instructions_limit limited in
                  let few = bounds.0 in
                  let longer = length-append s.rows (row ∷ []) in
                  (omega (arith, few, longer), bounds.1);
            })
    ]

choose :
    (options : Options) (b : Bool) {s t : PrepareState}
    → IsCollected options s
    → IsCollected options t
    → IsCollected options (if b then s else t)
choose options true left right = left
choose options false left right = right

-- The options that ParseOptions accepts satisfy this.
abbrev AreWords : Options → Type 0
AreWords options = (options.limit_states < 2 ^ 64) × (options.limit_instructions < 2 ^ 64)

reached-lt : (limit count : ℕ) → limit ≢ 0 → reached limit count ≡ false → count < limit
unfolding reached
reached-lt limit count limited room = ground (arith, limited, room)

counted_rows-limit :
    (limit selected row_count : ℕ)
    → limit < 2 ^ 64
    → reached limit selected ≡ false
    → limit ≢ 0
    → (selected + remaining_rows limit selected row_count) % 2 ^ 64 ≤ limit
unfolding reached remaining_rows
counted_rows-limit limit selected row_count small room limited =
    let below = reached-lt limit selected limited room in
    let fits : selected + remaining_rows limit selected row_count ≤ limit =
      ground (arith, below, limited) in
    omega (arith, fits, small)

count-IsCounted :
    (options : Options) (row_count : ℕ) (s : PrepareState)
    → AreWords options
    → IsCollected options s
    → reached options.limit_states s.selected_rows ≡ false
    → reached options.limit_instructions s.selected_groups ≡ false
    → IsCounted options (record s {
      selected_groups = (s.selected_groups + 1) % 2 ^ 64;
      selected_rows =
          (s.selected_rows + remaining_rows options.limit_states s.selected_rows row_count)
          % 2 ^ 64;
    })
unfolding reached
count-IsCounted options row_count s words c room_rows room_groups = record {
  keyed = c.keyed;
  unique = c.unique;
  hex = c.hex;
  filtered = c.filtered;
  states_limit =
      counted_rows-limit options.limit_states s.selected_rows row_count words.0 room_rows;
  instructions_limit = λ limited.
      let bounds = c.instructions_limit limited in
      let few = bounds.0 in
      let below = reached-lt options.limit_instructions s.selected_groups limited room_groups in
      let small = words.1 in (omega (arith, few, below, small), omega (arith, below, small));
}

module _ (decode : ℕ → List ℕ → XedMetadata) (options : Options) (words : AreWords options) where
  prepare_group-IsCollected :
      (header : ParsedInstructionHeader) (s : PrepareState)
      → IsCollected options s
      → passes_filters options (row_of_header header) ≡ true
      → reached options.limit_states s.selected_rows ≡ false
      → reached options.limit_instructions s.selected_groups ≡ false
      → Holds (IsCollected options) (prepare_group decode options header s)
  unfolding prepare_group
  prepare_group-IsCollected header s c passes room_rows room_groups =
      let row = row_of_header header in
      let counted = count-IsCounted options header.row_count s words c room_rows room_groups in
      Holds-bind (λ (bytes : List ℕ). parse_hex_bytes row.opcode ≡ ok bytes) (IsCollected options)
        (parse_hex_bytes row.opcode) _ (Holds-run (parse_hex_bytes row.opcode))
        (λ bytes parses.
          let metadata = decode row.address bytes in
          Holds-after (IsCollected options) (pre_execution_skip metadata row false) _ (λ skipped.
            choose options (has_value skipped || is_trap metadata.iclass)
              (IsCounted-IsCollected options _ counted)
              (add_prepared-IsCollected options row _ counted (bytes, parses) passes)))

  stop-IsCollected :
      (s : PrepareState) → IsCollected options s → IsCollected options (record s { stop = true })
  stop-IsCollected s c = record {
    keyed = c.keyed;
    unique = c.unique;
    hex = c.hex;
    filtered = c.filtered;
    states_limit = c.states_limit;
    instructions_limit = c.instructions_limit;
  }

  prepare_header-IsCollected :
      (header : ParsedInstructionHeader) (s : PrepareState)
      → IsCollected options s
      → Holds (IsCollected options) (prepare_header decode options header s)
  unfolding prepare_header
  prepare_header-IsCollected header s c =
      Holds-if (IsCollected options) (not (passes_filters options (row_of_header header))) _ _
        (λ _. c)
        (λ passes.
          Holds-if (IsCollected options)
            (reached options.limit_states s.selected_rows
              || reached options.limit_instructions s.selected_groups)
            _ _ (λ _. stop-IsCollected s c)
            (λ room.
              prepare_group-IsCollected header s c (ground (arith, passes)) (ground (arith, room))
                (ground (arith, room))))

  prepare_headers-IsCollected :
      (headers : List ParsedInstructionHeader) (s : PrepareState)
      → IsCollected options s
      → Holds (IsCollected options) (prepare_headers decode options headers s)
  unfolding prepare_headers
  prepare_headers-IsCollected [] s c = c
  prepare_headers-IsCollected (header ∷ headers) s c =
      Holds-bind (IsCollected options) (IsCollected options)
        (prepare_header decode options header s) _ (prepare_header-IsCollected header s c)
        (λ s' c'. elim (Bool-cases s'.stop) [
          | inl stopped ↦ rw stopped c'
          | inr going ↦ rw going (prepare_headers-IsCollected headers s' c')
        ])

  prepare_files-Holds :
      (read_file : Text → Option (List Text)) (paths : List Text) (s : PrepareState)
      → IsCollected options s
      → Holds (IsCollected options) (prepare_files decode options read_file paths s)
  unfolding prepare_files
  prepare_files-Holds read_file [] s c = c
  prepare_files-Holds read_file (path ∷ paths) s c = elim (Bool-cases s.stop) [
    | inl stopped ↦ rw (stopped, prepare_files) c
    | inr going ↦
        rw (going, prepare_files)
          (Holds-after (IsCollected options)
            (map_error RunError.in_file (parse_instruction_headers (read_file path))) _
            (λ headers.
              let prepared = prepare_headers decode options headers s in
              Holds-bind (IsCollected options) (IsCollected options)
                (map_error RunError.in_row prepared) _
                (Holds-map_error (IsCollected options) RunError.in_row prepared
                  (prepare_headers-IsCollected headers s c))
                (prepare_files-Holds read_file paths)))
  ]

  -- With limits that are 64-bit words, what the pass over the headers collects, if it throws nothing,
  -- are rows that pass the filters, whose opcodes are hexadecimal and whose keys are different; it
  -- counts no more rows than the first limit and no more groups than the second, where the limit is
  -- not 0, and with the second it collects no more rows than it counts groups.
  pub prepare_files-IsCollected :
      (read_file : Text → Option (List Text)) (paths : List Text) (s : PrepareState)
      → prepare_files decode options read_file paths initial_prepare ≡ ok s
      → IsCollected options s
  prepare_files-IsCollected read_file paths s prepares = Holds-ok (IsCollected options) s prepares (
      prepare_files-Holds read_file paths initial_prepare (record {
        keyed = refl;
        unique = tt;
        hex = tt;
        filtered = tt;
        states_limit = λ limited. omega arith;
        instructions_limit = λ limited. (omega arith, omega arith);
      }))
