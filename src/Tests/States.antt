-- ===== src/Tests/States.antt =====
-- A row with a state key that the bridge does not know.
use remill_tester.Base.{◌≡◌, refl, [], ◌∷◌, none, some}
use remill_tester.Base.Text.{Text, codes, same, starts_with}
use remill_tester.Base.Map.{text_key}
use remill_tester.Base.Result.{Result, ok}
use remill_tester.Base.Chars.{lower_char, is_space, skip_spaces}
use remill_tester.Expectation.{ExpectationRow, fresh_row, OutcomeClass}
use remill_tester.Parser.Strings.{to_lower, trim, drop_trailing, canonical_state_key}
use remill_tester.StateBridge.{
  scalar_register_names, is_scalar_register, parse_byte_register_name, is_byte_register,
}
use remill_tester.StateBridge.Sparse.{apply_scalar, apply_scalars, apply_initial_state}
use remill_tester.Backend.{LiftedFunction, supports_case, failed_with, start_state, run_case}
use remill_tester.Backend.StateErrors.{StateReason, run_case-StateReason}

abbrev row : ExpectationRow
row = record fresh_row { opcode = codes "90"; initial_state = (codes "xyz", 1) ∷ [] }

abbrev nop : LiftedFunction
nop s address m = (s, m)

abbrev compile : ExpectationRow → Result Text LiftedFunction
compile r = ok nop

abbrev message : Text
message = codes "unsupported scalar state key: xyz"

unknown_key : (start_state 32 row).0 ≡ some message
unfolding start_state apply_initial_state apply_scalars apply_scalar same is_scalar_register
    scalar_register_names is_byte_register parse_byte_register_name starts_with to_lower lower_char
    canonical_state_key trim drop_trailing skip_spaces is_space
unknown_key = refl

run_case-StateReason_example :
    (run_case 32 none compile row [] ≡ ok (failed_with OutcomeClass.unsupported message))
    × StateReason message
unfolding supports_case same
run_case-StateReason_example =
    run_case-StateReason 32 compile row [] nop message refl refl unknown_key
