-- ===== src/Backend/Pending.antt =====
-- src/remill_backend.hpp and src/remill_backend.cpp: the members of RemillBackend: the caches of
-- compiled instructions and of failures, and the module that collects lifted functions until the JIT
-- takes it; initialisation, and DefineInPendingModule, which adds a row's function to the module.
-- LLVM, the JIT and Remill answer through `Toolchain`. A pointer to a CompiledInstruction is the key
-- under which `cache_` owns it. The `error` of the source is passed in and out.
use remill_tester.Base.{
  ℕ, ◌+◌, ◌%◌, ◌^◌, Bool, true, false, not, List, [], ◌∷◌, ◌++◌, Option, none, some, if◌then◌else◌,
}
use remill_tester.Base.Text.{Text, codes}
use remill_tester.Base.Map.{find, assign, text_key}
use remill_tester.Base.Chars.{print_number}
use remill_tester.Base.Result.{ok, ◌>>=◌}
use remill_tester.Expectation.{ExpectationRow}
use remill_tester.Parser.Strings.{Parse, parse_hex_bytes}
use remill_tester.Tester.Operands.{decode_key}
use remill_tester.Backend.{LiftedFunction}

-- What the third-party code answers; `define_symbols` is the error of DefineRemillIntrinsicSymbols,
-- which Intrinsics/Symbols has as a function of the answer of the JIT's library.
pub record Toolchain : Type 0 where
  pub creates_context : Bool
  pub gets_arch : Bool
  pub detect_host : Option Text
  pub create_jit : Option Text
  pub define_symbols : Option Text
  pub create_generator : Option Text
  pub loads_semantics : Bool
  pub has_arch_intrinsics : Bool
  pub has_pending_intrinsics : Bool
  pub decodes : ℕ → List ℕ → Bool
  pub lifts : ℕ → List ℕ → Bool
  pub add_module : List Text → Option Text

pub record CompiledInstruction : Type 0 where
  pub name : Text
  pub function : Option LiftedFunction

abbrev pub Cache : Type 0
Cache = List (Text × CompiledInstruction)

-- The members; `pending_module` tells whether there is one.
pub record RemillBackend : Type 0 where
  pub initialized : Bool
  pub next_function_id : ℕ
  pub pending_module : Bool
  pub pending_compiled : List Text
  pub cache : Cache
  pub failed_compile_cache : List (Text × Text)

abbrev pub fresh_backend : RemillBackend
fresh_backend = record {
  initialized = false;
  next_function_id = 0;
  pending_module = false;
  pending_compiled = [];
  cache = [];
  failed_compile_cache = [];
}

-- What an operation leaves in `error` and in the members, next to what it returns.
abbrev pub Answer {ℓ} : Type ℓ → Type ℓ
Answer A = A × Text × RemillBackend

unfoldable pub function_name : ℕ → ExpectationRow → Text
function_name id row = codes "lifted_" ++ print_number 10 id ++ (b'_' ∷ row.opcode)

-- The first step of EnsureInitialized that fails.
unfoldable pub initialization_error : Toolchain → Option Text
initialization_error t =
    if not t.creates_context
    then some (codes "failed to create LLVM context")
    else if not t.gets_arch
    then some (codes "failed to create Remill linux/amd64 architecture")
    else elim t.detect_host [
      | some error ↦ some error
      | none ↦ elim t.create_jit [
        | some error ↦ some error
        | none ↦ elim t.define_symbols [ some error ↦ some error | none ↦ t.create_generator ]
      ]
    ]

unfoldable pub ensure_initialized : Toolchain → Text → RemillBackend → Answer Bool
ensure_initialized t error b =
    if b.initialized then (true, error, b) else elim (initialization_error t) [
      | some message ↦ (false, message, b)
      | none ↦ (true, error, record b { initialized = true })
    ]

-- The part of EnsurePendingModule behind EnsureInitialized.
unfoldable pub load_pending_module : Toolchain → Text → RemillBackend → Answer Bool
load_pending_module t error b =
    if not t.creates_context
    then (false, codes "failed to create LLVM context", b)
    else if not t.gets_arch
    then (false, codes "failed to create Remill linux/amd64 architecture", b)
    else if not t.loads_semantics
    then (false, codes "failed to load Remill semantics", b)
    else (true, error, record b { pending_module = true })

unfoldable pub ensure_pending_module : Toolchain → Text → RemillBackend → Answer Bool
ensure_pending_module t error b =
    let (initialized, error', b') = ensure_initialized t error b in
    if b.pending_module
    then (true, error, b)
    else if not initialized
    then (false, error', b')
    else load_pending_module t error' b'

-- The lambda `fail` of DefineInPendingModule.
unfoldable pub fail : Text → Text → RemillBackend → Answer (Option Text)
fail key message b =
    (none, message, record b { failed_compile_cache = assign key message b.failed_compile_cache })

-- The instruction is lifted: it takes an identifier, and a place in the cache if that succeeds.
unfoldable pub lift :
    Toolchain → ExpectationRow → List ℕ → Text → RemillBackend → Answer (Option Text)
lift t row opcode_bytes error b =
    let key = decode_key row in
    let name = function_name b.next_function_id row in
    let counted = record b { next_function_id = (b.next_function_id + 1) % 2 ^ 64 } in
    if not (t.lifts row.address opcode_bytes)
    then fail key (codes "Remill failed to lift opcode " ++ row.opcode) counted
    else (
      some key,
      error,
      record counted {
        cache = assign key (record { name = name; function = none }) b.cache;
        pending_compiled = b.pending_compiled ++ (key ∷ []);
      },
    )

-- DefineInPendingModule behind the two caches and EnsurePendingModule.
unfoldable pub define :
    Toolchain → ExpectationRow → List ℕ → Text → RemillBackend → Answer (Option Text)
define t row opcode_bytes error b =
    let key = decode_key row in
    if not t.has_arch_intrinsics
    then fail key (codes "failed to create Remill intrinsic table for decoder") b
    else if not (t.decodes row.address opcode_bytes)
    then fail key (codes "Remill failed to decode opcode " ++ row.opcode) b
    else if not t.has_pending_intrinsics
    then fail key (codes "failed to create Remill intrinsic table for lifter") b
    else lift t row opcode_bytes error b

-- DefineInPendingModule for a row that neither cache knows.
unfoldable pub define_new :
    Toolchain → ExpectationRow → Text → RemillBackend → Parse (Answer (Option Text))
define_new t row error b =
    let (ready, error', b') = ensure_pending_module t error b in
    if not ready
    then ok (none, error', b')
    else do opcode_bytes ← parse_hex_bytes row.opcode; ok (define t row opcode_bytes error' b')

unfoldable pub define_in_pending_module :
    Toolchain → ExpectationRow → Text → RemillBackend → Parse (Answer (Option Text))
define_in_pending_module t row error b =
    let key = decode_key row in
    elim (find key b.cache) [
      | some compiled ↦ ok (some key, error, b)
      | none ↦ elim (find key b.failed_compile_cache) [
        | some message ↦ ok (none, message, b)
        | none ↦ define_new t row error b
      ]
    ]
