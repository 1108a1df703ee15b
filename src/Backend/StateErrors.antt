-- ===== src/Backend/StateErrors.antt =====
-- A row whose state cannot be set up: what RunCase answers, and what the driver makes of it.
use remill_tester.Base.{
  ℕ, ◌≡◌, refl, sym, ◌⊎◌, inl, inr, arith, Bool, true, false, ◌||◌, List, [], ◌∷◌, ◌++◌, none, some,
  if◌then◌else◌,
}
use mathlib.Core.Path.{subst}
use remill_tester.Base.Result.{Result, ok}
use remill_tester.Base.Text.{Text, codes, same, starts_with}
use remill_tester.Expectation.{OutcomeClass, ExpectationRow, Scalars, ByteValues}
use remill_tester.Parser.Strings.{canonical_state_key}
use remill_tester.StateBridge.{
  State, zero_state, reset_state, is_scalar_register, is_byte_register, set_byte_register,
}
use remill_tester.StateBridge.Sparse.{
  Applied, apply_scalar, apply_scalars, apply_bytes_of, apply_bytes, apply_initial_state,
}
use remill_tester.Tester.Skip.{unsupported_reason, reason_of_error}
use remill_tester.Backend.{
  LiftedFunction, failed_with, supports_case, start_state, run_compiled, run_case,
}

-- The texts that ApplyInitialState gives.
data IsStateError : Text → Type 0 where
  scalar_key :
      (key : Text) {message : Text}
      → message ≡ codes "unsupported scalar state key: " ++ key
      → IsStateError message
  byte_key :
      (key : Text) {message : Text}
      → message ≡ codes "unsupported byte state key: " ++ key
      → IsStateError message
  byte_state :
      (key : Text) {message : Text}
      → message ≡ codes "invalid byte state for register: " ++ key
      → IsStateError message

abbrev IsApplied : Applied → Type 0
IsApplied (none, s) = Unit
IsApplied (some message, s) = IsStateError message

IsApplied-if :
    (b : Bool) (left right : Applied)
    → IsApplied left
    → IsApplied right
    → IsApplied (if b then left else right)
IsApplied-if true left right l r = l
IsApplied-if false left right l r = r

IsApplied-next :
    (next : State → Applied) (first : Applied)
    → IsApplied first
    → ((s : State) → IsApplied (next s))
    → IsApplied (elim first.0 [ none ↦ next first.1 | some message ↦ (some message, first.1) ])
IsApplied-next next (none, s) h k = k s
IsApplied-next next (some message, s) h k = h

module _ (num_vec_registers : ℕ) where
  apply_scalar-IsApplied :
      (s : State) (key : Text) (value : ℕ) → IsApplied (apply_scalar num_vec_registers s key value)
  unfolding apply_scalar
  apply_scalar-IsApplied s key value = IsApplied-if (same key (codes "flag")) _ _ tt (
      IsApplied-if (same key (codes "cr0")) _ _ tt (
        IsApplied-if (same key (codes "x87status")) _ _ tt (
          IsApplied-if (is_scalar_register key) _ _ tt (
            IsApplied-if (is_byte_register num_vec_registers key) _ _ tt
              (IsStateError.scalar_key key refl)))))

  apply_scalars-IsApplied :
      (s : State) (entries : Scalars) → IsApplied (apply_scalars num_vec_registers s entries)
  unfolding apply_scalars
  apply_scalars-IsApplied s [] = tt
  apply_scalars-IsApplied s ((raw_key, value) ∷ entries) =
      IsApplied-next (λ t. apply_scalars num_vec_registers t entries)
        (apply_scalar num_vec_registers s (canonical_state_key raw_key) value)
        (apply_scalar-IsApplied s (canonical_state_key raw_key) value)
        (λ t. apply_scalars-IsApplied t entries)

  apply_bytes_of-IsApplied :
      (s : State) (key : Text) (bytes : List ℕ)
      → IsApplied (apply_bytes_of num_vec_registers s key bytes)
  unfolding apply_bytes_of
  apply_bytes_of-IsApplied s key bytes =
      IsApplied-if
        (same key (codes "flag")
          || same key (codes "cr0")
          || same key (codes "x87status")
          || is_scalar_register key)
        _ _ tt
        (IsApplied-if (is_byte_register num_vec_registers key) _ _
          (IsApplied-if (set_byte_register num_vec_registers s key bytes).0 _ _ tt
            (IsStateError.byte_state key refl))
          (IsStateError.byte_key key refl))

  apply_bytes-IsApplied :
      (s : State) (entries : ByteValues) → IsApplied (apply_bytes num_vec_registers s entries)
  unfolding apply_bytes
  apply_bytes-IsApplied s [] = tt
  apply_bytes-IsApplied s ((raw_key, bytes) ∷ entries) =
      IsApplied-next (λ t. apply_bytes num_vec_registers t entries)
        (apply_bytes_of num_vec_registers s (canonical_state_key raw_key) bytes)
        (apply_bytes_of-IsApplied s (canonical_state_key raw_key) bytes)
        (λ t. apply_bytes-IsApplied t entries)

  apply_initial_state-IsApplied :
      (s : State) (initial_state : Scalars) (initial_bytes : ByteValues)
      → IsApplied (apply_initial_state num_vec_registers s initial_state initial_bytes)
  unfolding apply_initial_state
  apply_initial_state-IsApplied s initial_state initial_bytes =
      IsApplied-next (λ t. apply_bytes num_vec_registers t initial_bytes)
        (apply_scalars num_vec_registers s initial_state) (apply_scalars-IsApplied s initial_state)
        (λ t. apply_bytes-IsApplied t initial_bytes)

-- The two reasons for which the driver skips a row whose state cannot be set up.
abbrev pub StateReason : Text → Type 0
StateReason message =
    (unsupported_reason (failed_with OutcomeClass.unsupported message)
      ≡ codes "unsupported:state_key")
    ⊎ (unsupported_reason (failed_with OutcomeClass.unsupported message)
        ≡ codes "unsupported:state_bytes")

IsStateError-reason : (message : Text) → IsStateError message → StateReason message
unfolding unsupported_reason reason_of_error starts_with same
IsStateError-reason message (IsStateError.scalar_key key e) =
    subst (λ t. StateReason t) (sym e) (inl refl)
IsStateError-reason message (IsStateError.byte_key key e) =
    subst (λ t. StateReason t) (sym e) (inl refl)
IsStateError-reason message (IsStateError.byte_state key e) =
    subst (λ t. StateReason t) (sym e) (inr refl)

IsApplied-error :
    (a : Applied) (message : Text) → IsApplied a → a.0 ≡ some message → IsStateError message
IsApplied-error (none, s) message h e = absurd (ground arith)
IsApplied-error (some text, s) message h e =
    let same_text : text ≡ message = ground arith in subst (λ t. IsStateError t) same_text h

start_state-IsStateError :
    (num_vec_registers : ℕ) (row : ExpectationRow) (message : Text)
    → (start_state num_vec_registers row).0 ≡ some message
    → IsStateError message
unfolding start_state
start_state-IsStateError num_vec_registers row message fails =
    let applied =
      apply_initial_state num_vec_registers (reset_state zero_state) row.initial_state
        row.initial_bytes in
    IsApplied-error applied message
      (apply_initial_state-IsApplied num_vec_registers (reset_state zero_state) row.initial_state
        row.initial_bytes)
      fails

run_compiled-failed_with :
    (num_vec_registers : ℕ) (row : ExpectationRow) (keys : List Text) (function : LiftedFunction)
    (message : Text)
    → (start_state num_vec_registers row).0 ≡ some message
    → run_compiled num_vec_registers row keys function
      ≡ ok (failed_with OutcomeClass.unsupported message)
unfolding run_compiled
run_compiled-failed_with num_vec_registers row keys function message fails =
    rw (fails, run_compiled) refl

-- If a row has an opcode that compiles on an initialised backend, and its initial state cannot be
-- set up, RunCase answers that the row is unsupported, with the message of ApplyInitialState, and
-- the driver skips it for its state keys or its state bytes, never as a failure of the backend.
pub run_case-StateReason :
    (num_vec_registers : ℕ) (compile : ExpectationRow → Result Text LiftedFunction)
    (row : ExpectationRow) (keys : List Text) (function : LiftedFunction) (message : Text)
    → supports_case row ≡ true
    → compile row ≡ ok function
    → (start_state num_vec_registers row).0 ≡ some message
    → (run_case num_vec_registers none compile row keys
        ≡ ok (failed_with OutcomeClass.unsupported message))
      × StateReason message
unfolding run_case
run_case-StateReason num_vec_registers compile row keys function message has_opcode compiles fails =
    let ran = run_compiled-failed_with num_vec_registers row keys function message fails in
    let reason =
      IsStateError-reason message (start_state-IsStateError num_vec_registers row message fails) in
    (rw (has_opcode, compiles, run_case, ran) refl, reason)
