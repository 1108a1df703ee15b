-- ===== src/Comparator/Masks.antt =====
-- src/comparator.cpp: the flags that a shift or rotate leaves undefined at a run-time count.
use remill_tester.Base.{
  ℕ, ◌+◌, ◌%◌, bit_and, Bool, not, ◌&&◌, ◌||◌, [], ◌∷◌, Option, none, some, leb, ltb, ◌==◌,
  if◌then◌else◌, has_value,
}
use remill_tester.Base.Text.{Text, codes, same}
use remill_tester.Base.Map.{find, text_key}
use remill_tester.Base.Result.{ok, err}
use remill_tester.Base.Chars.{stoull}
use remill_tester.Expectation.{ExpectationRow}
use remill_tester.FlagMasks.{flag_cf}
use remill_tester.Parser.Strings.{trim, to_lower}
use remill_tester.XedMetadata.{XedMetadata}

unfoldable pub initial_flags_provided : ExpectationRow → Bool
initial_flags_provided row = has_value (find (codes "flag") row.initial_state)

-- The text behind the last comma: `rfind(',')` and `substr`.
unfoldable pub after_last_comma : Text → Option Text
after_last_comma [] = none
after_last_comma (c ∷ cs) = elim (after_last_comma cs) [
  | some t ↦ some t
  | none ↦ if c == b',' then some cs else none
]

-- The count that an operand text stands for.
unfoldable pub count_of : ExpectationRow → Text → Option ℕ
count_of row count_text =
    if same count_text (codes "cl")
    then elim (find (codes "rcx") row.initial_state) [
      | none ↦ none
      | some value ↦ some (bit_and value 0xff)
    ]
    else elim (stoull count_text 0) [ err e ↦ none | ok (value, rest) ↦ some value ]

unfoldable pub parse_count_operand : ExpectationRow → Option ℕ
unfolding after_last_comma count_of
parse_count_operand row = elim (after_last_comma (to_lower row.instruction)) [
  | none ↦ none
  | some text ↦ count_of row (trim text)
]

unfoldable pub masked_count : ExpectationRow → XedMetadata → Option ℕ
masked_count row metadata =
    if metadata.operand_width == 0 then none else elim (parse_count_operand row) [
      | none ↦ none
      | some raw_count ↦
          some (bit_and raw_count (if metadata.operand_width == 64 then 0x3f else 0x1f))
    ]

unfoldable pub is_shift : Text → Bool
is_shift iclass =
    same iclass (codes "SHL")
    || same iclass (codes "SAL")
    || same iclass (codes "SHR")
    || same iclass (codes "SAR")

unfoldable pub is_plain_rotate : Text → Bool
is_plain_rotate iclass = same iclass (codes "ROL") || same iclass (codes "ROR")

unfoldable pub is_carry_rotate : Text → Bool
is_carry_rotate iclass = same iclass (codes "RCL") || same iclass (codes "RCR")

-- `a % b` where the code tests that `b` is not 0.
unfoldable pub rotate_effective_count : ExpectationRow → XedMetadata → Option ℕ
unfolding is_plain_rotate is_carry_rotate
rotate_effective_count row metadata = elim (masked_count row metadata) [
  | none ↦ none
  | some count ↦
      if metadata.operand_width == 0
      then none
      else if is_plain_rotate metadata.iclass
      then some (count % metadata.operand_width)
      else if is_carry_rotate metadata.iclass
      then (if ltb metadata.operand_width 32
          then some (count % (metadata.operand_width + 1))
          else some count)
      else none
]

-- The mask of a shift by a known count.
unfoldable pub shift_undefined : ExpectationRow → XedMetadata → ℕ → ℕ
shift_undefined row metadata count =
    if count == 0 && not (initial_flags_provided row)
    then metadata.comparable_written_flags
    else if leb metadata.operand_width count
    then flag_cf
    else 0

unfoldable pub dynamic_undefined_flag_mask : ExpectationRow → XedMetadata → ℕ
unfolding is_shift shift_undefined
dynamic_undefined_flag_mask row metadata =
    if metadata.operand_width == 0
    then 0
    else if is_shift metadata.iclass
    then elim (masked_count row metadata) [
      | none ↦ 0
      | some count ↦ shift_undefined row metadata count
    ]
    else if is_plain_rotate metadata.iclass || is_carry_rotate metadata.iclass
    then elim (rotate_effective_count row metadata) [
      | none ↦ 0
      | some count ↦
          if count == 0 && not (initial_flags_provided row)
          then metadata.comparable_written_flags
          else 0
    ]
    else 0
