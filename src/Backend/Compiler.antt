-- ===== src/Backend/Compiler.antt =====
-- src/remill_backend.cpp: FinalizePendingModule, Compile, PrepareCases and RunCase on the members of
-- RemillBackend. `lookup` is the JIT's symbol table, which gives a name one address for ever.
pub mod Extends
pub mod Linking
pub mod Invariant
pub mod Operations
pub mod Memo
pub mod Healthy
pub mod Attempted
pub mod Prepared
use remill_tester.Base.{
  ℕ, ◌+◌, ◌%◌, ◌^◌, Bool, true, false, not, ◌&&◌, List, [], ◌∷◌, ◌++◌, map, Option, none, some,
  if◌then◌else◌,
}
use remill_tester.Base.Text.{Text, codes}
use remill_tester.Base.Map.{find, assign, text_key}
use remill_tester.Base.Chars.{print_number}
use remill_tester.Base.Result.{Result, ok, err, ◌>>=◌}
use remill_tester.Expectation.{ExecutionResult, ExpectationRow}
use remill_tester.Parser.Strings.{Parse, parse_hex_bytes}
use remill_tester.Tester.Operands.{decode_key}
use remill_tester.Backend.{LiftedFunction, supports_case, is_unsupported_compile_error, run_case}
use remill_tester.Backend.Pending.{
  Toolchain, CompiledInstruction, Cache, RemillBackend, fresh_backend, Answer, function_name,
  initialization_error, ensure_initialized, load_pending_module, ensure_pending_module, fail, lift,
  define, define_new, define_in_pending_module,
}

-- `compiled->name` of a pointer, and `compiled->function = ...`.
unfoldable pub name_of : Cache → Text → Text
name_of cache key = elim (find key cache) [ none ↦ [] | some compiled ↦ compiled.name ]

unfoldable pub set_function : Text → LiftedFunction → Cache → Cache
set_function key function cache =
    assign key (record { name = name_of cache key; function = some function }) cache

-- `compiled->function` of a pointer.
unfoldable pub function_at : Text → RemillBackend → Option LiftedFunction
function_at key b = elim (find key b.cache) [ none ↦ none | some compiled ↦ compiled.function ]

-- The result of RunCase next to the members it leaves.
unfoldable pub with_members :
    RemillBackend → Parse ExecutionResult → Parse (ExecutionResult × RemillBackend)
with_members b (ok result) = ok (result, b)
with_members b (err message) = err message

module _ (lookup : Text → Result Text LiftedFunction) where
  -- The loop of FinalizePendingModule over the pending instructions: the error at which it stops.
  unfoldable pub link : List Text → Cache → Option Text × Cache
  link [] cache = (none, cache)
  link (key ∷ keys) cache = elim (lookup (name_of cache key)) [
    | err error ↦ (some error, cache)
    | ok function ↦ link keys (set_function key function cache)
  ]

  -- FinalizePendingModule once the JIT has the module.
  unfoldable pub link_pending : Text → RemillBackend → Answer Bool
  link_pending error b =
      let (failure, cache) = link b.pending_compiled b.cache in
      elim failure [
        | some message ↦ (false, message, record b { cache = cache })
        | none ↦ (true, error, record b { cache = cache; pending_compiled = [] })
      ]

  unfoldable pub finalize_pending_module : Toolchain → Text → RemillBackend → Answer Bool
  finalize_pending_module t error b =
      let without_module = record b { pending_module = false } in
      if not b.pending_module then (true, error, b) else elim b.pending_compiled [
        | [] ↦ (true, error, without_module)
        | key ∷ keys ↦ elim (t.add_module (map (name_of b.cache) b.pending_compiled)) [
          | some message ↦ (false, message, without_module)
          | none ↦ link_pending error without_module
        ]
      ]

  -- The end of Compile for an instruction without a function.
  unfoldable pub finish : Toolchain → Text → Text → RemillBackend → Answer (Option LiftedFunction)
  finish t key error b =
      let (finalized, error', b') = finalize_pending_module t error b in
      if not finalized then (none, error', b') else (function_at key b', error', b')

  -- Compile: the function of the instruction, if it has one.
  unfoldable pub compile :
      Toolchain → ExpectationRow → Text → RemillBackend → Parse (Answer (Option LiftedFunction))
  compile t row error b =
      let key = decode_key row in
      elim (find key b.cache) [
        | some compiled ↦ elim compiled.function [
          | some function ↦ ok (some function, error, b)
          | none ↦ ok (finish t key error b)
        ]
        | none ↦ elim (find key b.failed_compile_cache) [
          | some message ↦ ok (none, message, b)
          | none ↦ do
            (defined, error', b') ← define_in_pending_module t row error b
            elim defined [
              | none ↦ ok (none, error', b')
              | some pointer ↦ ok (finish t pointer error' b')
            ]
        ]
      ]

  -- The loop of PrepareCases: whether it got through.
  unfoldable pub define_rows :
      Toolchain → List ExpectationRow → Text → RemillBackend → Parse (Answer Bool)
  define_rows t [] error b = ok (true, error, b)
  define_rows t (row ∷ rows) error b =
      if not (supports_case row) then define_rows t rows error b else do
        (defined, error', b') ← define_in_pending_module t row error b
        elim defined [
          | some pointer ↦ define_rows t rows error' b'
          | none ↦
              if not (is_unsupported_compile_error error')
              then ok (false, error', b')
              else define_rows t rows error' b'
        ]

  unfoldable pub prepare_cases :
      Toolchain → List ExpectationRow → Text → RemillBackend → Parse (Answer Bool)
  prepare_cases t rows error b =
      let (initialized, error', b') = ensure_initialized t error b in
      if not initialized then ok (false, error', b') else do
        (defined, error'', b'') ← define_rows t rows error' b'
        ok (if not defined then (false, error'', b'') else finalize_pending_module t error'' b'')

  -- RunCase with its Compile: the result, and the members afterwards.
  unfoldable pub run_row :
      Toolchain
      → ℕ
      → ExpectationRow
      → List Text
      → RemillBackend
      → Parse (ExecutionResult × RemillBackend)
  run_row t num_vec_registers row final_state_keys b =
      let run = λ (initialised : Option Text) (compiled : Result Text LiftedFunction).
        run_case num_vec_registers initialised (λ _. compiled) row final_state_keys in
      let (initialized, error, b') = ensure_initialized t [] b in
      if not (supports_case row)
      then with_members b (run none (err []))
      else if not initialized
      then with_members b' (run (some error) (err error))
      else (do
        (function, error', b'') ← compile t row error b'
        with_members b'' (run none (elim function [ none ↦ err error' | some f ↦ ok f ])))
