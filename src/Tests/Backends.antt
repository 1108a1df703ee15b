-- ===== src/Tests/Backends.antt =====
-- A toolchain that decodes and lifts everything but one byte, and what the backend does with it.
use remill_tester.Base.{
  ◌≡◌, ◌↔◌, arith, refl, true, false, not, ◌==◌, List, [], ◌∷◌, none, some, get_or, All,
}
use remill_tester.Base.Text.{Text, codes, same, before, starts_with}
use remill_tester.Base.Map.{find, assign, text_key}
use remill_tester.Base.Chars.{is_space, digit_char, print_digits, print_number}
use remill_tester.Base.Result.{Result, ok}
use remill_tester.Expectation.{ExpectationRow, fresh_row}
use remill_tester.Parser.Strings.{hex_digit_value, hex_loop, parse_hex_bytes}
use remill_tester.Tester.Operands.{decode_key}
use remill_tester.Tester.Operands.Keys.{decode_key-injective}
use remill_tester.Backend.{LiftedFunction, supports_case, is_unsupported_compile_error}
use remill_tester.Backend.Pending.{
  Toolchain, RemillBackend, fresh_backend, initialization_error, ensure_initialized,
  load_pending_module, ensure_pending_module, function_name, fail, lift, define, define_new,
  define_in_pending_module,
}
use remill_tester.Backend.Compiler.{
  name_of, set_function, link, link_pending, finalize_pending_module, function_at, finish, compile,
  define_rows, prepare_cases,
}
use remill_tester.Backend.Compiler.Memo.{Reach, compile-again, compile-fails-again}
use remill_tester.Backend.Compiler.Prepared.{IsSettled, prepare_cases-IsSettled}
use remill_tester.Backend.Compiler.Healthy.{IsHex, prepare_cases-succeeds}

abbrev pub toolchain : Toolchain
toolchain = record {
  creates_context = true;
  gets_arch = true;
  detect_host = none;
  create_jit = none;
  define_symbols = none;
  create_generator = none;
  loads_semantics = true;
  has_arch_intrinsics = true;
  has_pending_intrinsics = true;
  decodes = λ address bytes. not (get_or bytes 0 0 == 0x06);
  lifts = λ address bytes. true;
  add_module = λ names. none;
}

-- A JIT that takes no module.
abbrev refusing : Toolchain
refusing = record toolchain { add_module = λ names. some (codes "duplicate definition") }

abbrev pub skip : LiftedFunction
skip s pc m = (s, m)

abbrev pub lookup : Text → Result Text LiftedFunction
lookup name = ok skip

abbrev nop : ExpectationRow
nop = record fresh_row { address = 16; opcode = codes "90" }

abbrev push_es : ExpectationRow
push_es = record fresh_row { address = 16; opcode = codes "06" }

-- The row of another test case of the same instruction.
abbrev other_nop : ExpectationRow
other_nop = record nop { test_case_id = 7 }

decode_key-injective_example :
    (decode_key nop ≡ decode_key push_es)
    ↔ ((nop.address ≡ push_es.address) × (nop.opcode ≡ push_es.opcode))
decode_key-injective_example = decode_key-injective nop push_es (omega arith) (omega arith)

abbrev nop_compiled : RemillBackend
nop_compiled = record {
  initialized = true;
  next_function_id = 1;
  pending_module = false;
  pending_compiled = [];
  cache = (codes "16#90", record { name = codes "lifted_0_90"; function = some skip }) ∷ [];
  failed_compile_cache = [];
}

nop_compiles : compile lookup toolchain nop [] fresh_backend ≡ ok (some skip, [], nop_compiled)
unfolding is_space same before starts_with find assign digit_char print_digits print_number
    hex_digit_value hex_loop parse_hex_bytes decode_key initialization_error ensure_initialized
    load_pending_module ensure_pending_module function_name fail lift define define_new
    define_in_pending_module name_of set_function link link_pending finalize_pending_module
    function_at finish compile
nop_compiles = refl

abbrev undecoded : Text
undecoded = codes "Remill failed to decode opcode 06"

-- The other row is remembered as a failure.
abbrev both : RemillBackend
both = record nop_compiled { failed_compile_cache = (codes "16#06", undecoded) ∷ [] }

push_es_prepares :
    prepare_cases lookup toolchain (push_es ∷ []) [] nop_compiled ≡ ok (true, undecoded, both)
unfolding is_space same before starts_with find assign digit_char print_digits print_number
    hex_digit_value hex_loop parse_hex_bytes decode_key supports_case is_unsupported_compile_error
    initialization_error ensure_initialized load_pending_module ensure_pending_module function_name
    fail lift define define_new define_in_pending_module name_of set_function link link_pending
    finalize_pending_module function_at finish compile define_rows prepare_cases
push_es_prepares = refl

both_prepare :
    prepare_cases lookup toolchain (nop ∷ push_es ∷ []) [] fresh_backend
    ≡ ok (true, undecoded, both)
unfolding is_space same before starts_with find assign digit_char print_digits print_number
    hex_digit_value hex_loop parse_hex_bytes decode_key supports_case is_unsupported_compile_error
    initialization_error ensure_initialized load_pending_module ensure_pending_module function_name
    fail lift define define_new define_in_pending_module name_of set_function link link_pending
    finalize_pending_module function_at finish compile define_rows prepare_cases
both_prepare = refl

compile-again_example : compile lookup refusing other_nop [] both ≡ ok (some skip, [], both)
compile-again_example =
    compile-again lookup 32 toolchain refusing nop other_nop [] [] [] fresh_backend nop_compiled
      both skip Reach.start nop_compiles
      (Reach.prepared toolchain (push_es ∷ []) [] Reach.start push_es_prepares) refl refl

failure_remembered : find (decode_key push_es) both.failed_compile_cache ≡ some undecoded
unfolding find same decode_key print_number print_digits digit_char
failure_remembered = refl

compile-fails-again_example : compile lookup refusing push_es [] both ≡ ok (none, undecoded, both)
compile-fails-again_example =
    compile-fails-again lookup 32 refusing push_es push_es [] undecoded both both
      (Reach.prepared toolchain (nop ∷ push_es ∷ []) [] Reach.start both_prepare) failure_remembered
      Reach.start refl refl

prepare_cases-IsSettled_example :
    (both.pending_compiled ≡ [])
    × All
        (λ (row : ExpectationRow). supports_case row ≡ true → IsSettled lookup both row)
        (nop ∷ push_es ∷ [])
prepare_cases-IsSettled_example =
    prepare_cases-IsSettled lookup toolchain (nop ∷ push_es ∷ []) [] undecoded both both_prepare

abbrev Prepares : List ExpectationRow → Type 0
Prepares rows =
    (error : Text) × (b : RemillBackend) × (prepare_cases lookup toolchain rows [] fresh_backend
      ≡ ok (true, error, b))
    × All (λ (row : ExpectationRow). supports_case row ≡ true → IsSettled lookup b row) rows

nop-IsHex : IsHex nop
unfolding is_space hex_digit_value hex_loop parse_hex_bytes
nop-IsHex = (0x90 ∷ [], refl)

push_es-IsHex : IsHex push_es
unfolding is_space hex_digit_value hex_loop parse_hex_bytes
push_es-IsHex = (0x06 ∷ [], refl)

prepare_cases-succeeds_example : Prepares (nop ∷ push_es ∷ [])
prepare_cases-succeeds_example =
    prepare_cases-succeeds lookup toolchain (nop ∷ push_es ∷ []) []
      (refl, refl, refl, refl, refl, refl, refl, refl, refl, λ names. refl) (λ name. (skip, refl))
      ((λ _. nop-IsHex), ((λ _. push_es-IsHex), tt))
