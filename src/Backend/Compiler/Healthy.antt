-- ===== src/Backend/Compiler/Healthy.antt =====
-- src/remill_backend.cpp: PrepareCases gets through where the toolchain does its part.
use remill_tester.Base.{
  ℕ, ◌+◌, ◌%◌, ◌^◌, ◌≡◌, refl, sym, ap, ◌∙◌, arith, Bool, true, List, [], ◌∷◌, ◌++◌, map, Option,
  none, some, Option-cases, Bool-cases, inl, inr, All,
}
use remill_tester.Base.Text.{Text, codes, starts_with}
use remill_tester.Base.Map.{find, text_key, find-assign-cases}
use remill_tester.Base.Result.{Result, ok, Yields, Yields-bind, Yields-run}
use remill_tester.Parser.Strings.{parse_hex_bytes}
use remill_tester.Expectation.{ExpectationRow}
use remill_tester.Tester.Operands.{decode_key}
use remill_tester.Backend.{LiftedFunction, supports_case, is_unsupported_compile_error}
use remill_tester.Backend.Pending.{
  Toolchain, Cache, RemillBackend, Answer, fresh_backend, ensure_initialized, initialization_error,
  load_pending_module, ensure_pending_module, fail, lift, define, define_new,
  define_in_pending_module,
}
use remill_tester.Backend.Compiler.{
  name_of, set_function, link, link_pending, finalize_pending_module, define_rows, prepare_cases,
}
use remill_tester.Backend.Compiler.Extends.{Failures}
use remill_tester.Backend.Compiler.Invariant.{
  ensure_initialized-IsIdle, ensure_pending_module-IsIdle,
}
use remill_tester.Backend.Compiler.Prepared.{IsSettled, prepare_cases-IsSettled}

-- A toolchain that can be set up and takes every module. It need not decode or lift anything.
abbrev pub IsHealthy : Toolchain → Type 0
IsHealthy t =
    (t.creates_context ≡ true)
    × (t.gets_arch ≡ true)
    × (t.detect_host ≡ none)
    × (t.create_jit ≡ none)
    × (t.define_symbols ≡ none)
    × (t.create_generator ≡ none)
    × (t.loads_semantics ≡ true)
    × (t.has_arch_intrinsics ≡ true)
    × (t.has_pending_intrinsics ≡ true)
    × ((names : List Text) → t.add_module names ≡ none)

-- Every remembered failure is one to decode or lift.
abbrev IsUnsupportedOnly : Failures → Type 0
IsUnsupportedOnly failed =
    (key message : Text)
    → find key failed ≡ some message
    → is_unsupported_compile_error message ≡ true

abbrev IsReady : RemillBackend → Type 0
IsReady b = (b.initialized ≡ true) × IsUnsupportedOnly b.failed_compile_cache

abbrev GoesOn : Answer (Option Text) → Type 0
GoesOn answer = IsReady answer.2 × (answer.0 ≡ none → is_unsupported_compile_error answer.1 ≡ true)

ensure_initialized-healthy :
    (t : Toolchain) (error : Text) (b : RemillBackend)
    → IsHealthy t
    → let answer = ensure_initialized t error b in (answer.0 ≡ true) × (answer.2.initialized ≡ true)
unfolding ensure_initialized initialization_error
ensure_initialized-healthy t error b healthy = ground (arith, healthy)

ensure_pending_module-healthy :
    (t : Toolchain) (error : Text) (b : RemillBackend)
    → IsHealthy t
    → b.initialized ≡ true
    → let answer = ensure_pending_module t error b in
      (answer.0 ≡ true) × (answer.2.initialized ≡ true)
unfolding ensure_pending_module load_pending_module ensure_initialized
ensure_pending_module-healthy t error b healthy initialized = ground (arith, healthy, initialized)

fail-GoesOn :
    (key message : Text) (b : RemillBackend)
    → IsReady b
    → is_unsupported_compile_error message ≡ true
    → GoesOn (fail key message b)
unfolding fail
fail-GoesOn key message b ready unsupported = (
  (
    ready.0,
    λ j text h. elim (find-assign-cases key j message text b.failed_compile_cache h) [
      | inl hit ↦ sym (ap is_unsupported_compile_error hit.1) ∙ unsupported
      | inr old ↦ ready.1 j text old
    ],
  ),
  λ _. unsupported,
)

lift-GoesOn :
    (t : Toolchain) (row : ExpectationRow) (bytes : List ℕ) (error : Text) (b : RemillBackend)
    → IsReady b
    → GoesOn (lift t row bytes error b)
unfolding lift is_unsupported_compile_error starts_with
lift-GoesOn t row bytes error b ready = elim (Bool-cases (t.lifts row.address bytes)) [
  | inl lifted ↦ rw (lifted, lift) (ready, λ given. absurd (ground (arith, given)))
  | inr refused ↦
      rw (refused, lift)
        (fail-GoesOn (decode_key row) (codes "Remill failed to lift opcode " ++ row.opcode)
          (record b { next_function_id = (b.next_function_id + 1) % 2 ^ 64 }) ready refl)
]

define-GoesOn :
    (t : Toolchain) (row : ExpectationRow) (bytes : List ℕ) (error : Text) (b : RemillBackend)
    → IsHealthy t
    → IsReady b
    → GoesOn (define t row bytes error b)
unfolding define is_unsupported_compile_error starts_with lift
define-GoesOn t row bytes error b healthy ready =
    let (
      context, arch, host, jit, symbols, generator, semantics, arch_intrinsics, intrinsics, takes,
    ) =
      healthy in
    elim (Bool-cases (t.decodes row.address bytes)) [
      | inl decoded ↦
          rw (arch_intrinsics, decoded, intrinsics, define) (lift-GoesOn t row bytes error b ready)
      | inr refused ↦
          rw (arch_intrinsics, refused, define)
            (fail-GoesOn (decode_key row) (codes "Remill failed to decode opcode " ++ row.opcode) b
              ready refl)
    ]

-- The opcode of the row is written in hexadecimal.
abbrev pub IsHex : ExpectationRow → Type 0
IsHex row = (bytes : List ℕ) × (parse_hex_bytes row.opcode ≡ ok bytes)

define_new-GoesOn :
    (t : Toolchain) (row : ExpectationRow) (error : Text) (b : RemillBackend)
    → IsHealthy t
    → IsHex row
    → IsReady b
    → Yields GoesOn (define_new t row error b)
unfolding define_new
define_new-GoesOn t row error b healthy (bytes, parses) ready =
    let pending = ensure_pending_module t error b in
    let (done, initialized) = ensure_pending_module-healthy t error b healthy ready.0 in
    let idle = ensure_pending_module-IsIdle t error b in
    let ready' : IsReady pending.2 = (initialized, rw (idle.1) ready.1) in
    rw (done, parses, define_new) (define-GoesOn t row bytes pending.1 pending.2 healthy ready')

define_in_pending_module-GoesOn :
    (t : Toolchain) (row : ExpectationRow) (error : Text) (b : RemillBackend)
    → IsHealthy t
    → IsHex row
    → IsReady b
    → Yields GoesOn (define_in_pending_module t row error b)
unfolding define_in_pending_module
define_in_pending_module-GoesOn t row error b healthy hex ready =
    let key = decode_key row in
    elim (Option-cases (find key b.cache)) [
      | inr (c, known) ↦
          rw (known, define_in_pending_module) (ready, λ given. absurd (ground (arith, given)))
      | inl new ↦ elim (Option-cases (find key b.failed_compile_cache)) [
        | inr (message, failed) ↦
            rw (new, failed, define_in_pending_module) (ready, λ _. ready.1 key message failed)
        | inl unfailed ↦
            rw (new, unfailed, define_in_pending_module)
              (define_new-GoesOn t row error b healthy hex ready)
      ]
    ]

module _ (lookup : Text → Result Text LiftedFunction) where
  define_rows-GoesOn :
      (t : Toolchain) (rows : List ExpectationRow) (error : Text) (b : RemillBackend)
      → IsHealthy t
      → All (λ (row : ExpectationRow). supports_case row ≡ true → IsHex row) rows
      → IsReady b
      → Yields (λ (a : Answer Bool). a.0 ≡ true) (define_rows lookup t rows error b)
  unfolding define_rows
  define_rows-GoesOn t [] error b healthy hex ready = refl
  define_rows-GoesOn t (row ∷ rows) error b healthy hex ready =
      let Done = λ (a : Answer Bool). a.0 ≡ true in
      elim (Bool-cases (supports_case row)) [
        | inr skipped ↦
            rw (skipped, define_rows) (define_rows-GoesOn t rows error b healthy hex.1 ready)
        | inl supported ↦
            rw (supported, define_rows)
              (Yields-bind GoesOn Done (define_in_pending_module t row error b) _
                (define_in_pending_module-GoesOn t row error b healthy (hex.0 supported) ready)
                (λ a on.
                  let rest = define_rows-GoesOn t rows a.1 a.2 healthy hex.1 on.0 in
                  elim (Option-cases a.0) [
                    | inr (pointer, given) ↦ rw given rest
                    | inl nothing ↦ let unsupported = on.1 nothing in rw (nothing, unsupported) rest
                  ]))
      ]

  link-none :
      (keys : List Text) (cache : Cache)
      → ((name : Text) → (f : LiftedFunction) × (lookup name ≡ ok f))
      → (link lookup keys cache).0 ≡ none
  unfolding link
  link-none [] cache total = refl
  link-none (key ∷ keys) cache total =
      let (f, found) = total (name_of cache key) in
      rw (found, link) (link-none keys (set_function key f cache) total)

  finalize_pending_module-healthy :
      (t : Toolchain) (error : Text) (b : RemillBackend)
      → IsHealthy t
      → ((name : Text) → (f : LiftedFunction) × (lookup name ≡ ok f))
      → (finalize_pending_module lookup t error b).0 ≡ true
  unfolding finalize_pending_module link_pending
  finalize_pending_module-healthy t error b healthy total =
      let links = link-none b.pending_compiled b.cache total in
      let takes = healthy.9 (map (name_of b.cache) b.pending_compiled) in
      ground (arith, links, takes)

  prepare_cases-done :
      (t : Toolchain) (rows : List ExpectationRow) (error : Text)
      → IsHealthy t
      → ((name : Text) → (f : LiftedFunction) × (lookup name ≡ ok f))
      → All (λ (row : ExpectationRow). supports_case row ≡ true → IsHex row) rows
      → Yields (λ (a : Answer Bool). a.0 ≡ true) (prepare_cases lookup t rows error fresh_backend)
  unfolding prepare_cases find
  prepare_cases-done t rows error healthy total hex =
      let Done = λ (a : Answer Bool). a.0 ≡ true in
      let first = ensure_initialized t error fresh_backend in
      let (done, initialized) = ensure_initialized-healthy t error fresh_backend healthy in
      let idle = ensure_initialized-IsIdle t error fresh_backend in
      let ready : IsReady first.2 =
        (initialized, rw idle.1 (λ key message h. absurd (ground (arith, h)))) in
      rw (done, prepare_cases)
        (Yields-bind Done Done (define_rows lookup t rows first.1 first.2) _
          (define_rows-GoesOn t rows first.1 first.2 healthy hex ready)
          (λ a through. rw through (finalize_pending_module-healthy t a.1 a.2 healthy total)))

  -- With a toolchain that can be set up, takes every module and finds every name, whatever it
  -- decodes and lifts, PrepareCases of rows whose opcodes are hexadecimal succeeds on a fresh backend,
  -- and each of the rows with an opcode is settled.
  pub prepare_cases-succeeds :
      (t : Toolchain) (rows : List ExpectationRow) (error : Text)
      → IsHealthy t
      → ((name : Text) → (f : LiftedFunction) × (lookup name ≡ ok f))
      → All (λ (row : ExpectationRow). supports_case row ≡ true → IsHex row) rows
      → (error' : Text) × (b : RemillBackend) × (prepare_cases lookup t rows error fresh_backend
          ≡ ok (true, error', b))
        × All (λ (row : ExpectationRow). supports_case row ≡ true → IsSettled lookup b row) rows
  prepare_cases-succeeds t rows error healthy total hex =
      let (a, runs, done) =
        Yields-run (λ (a : Answer Bool). a.0 ≡ true)
          (prepare_cases lookup t rows error fresh_backend)
          (prepare_cases-done t rows error healthy total hex) in
      let succeeds : prepare_cases lookup t rows error fresh_backend ≡ ok (true, a.1, a.2) =
        runs ∙ ap (λ (through : Bool). ok (through, a.1, a.2)) done in
      (a.1, a.2, succeeds, (prepare_cases-IsSettled lookup t rows error a.1 a.2 succeeds).1)
