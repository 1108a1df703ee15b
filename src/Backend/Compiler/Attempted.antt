-- ===== src/Backend/Compiler/Attempted.antt =====
-- src/remill_backend.cpp: what DefineInPendingModule leaves in the caches for its row.
use remill_tester.Base.{
  ℕ, ◌+◌, ◌%◌, ◌^◌, ◌≡◌, inl, inr, sym, ◌∙◌, arith, Bool, true, false, not, List, [], ◌++◌, Option,
  none, some, Option-cases, if◌then◌else◌,
}
use remill_tester.Base.Text.{Text, codes, starts_with}
use remill_tester.Base.Map.{find, text_key, find-assign-same}
use remill_tester.Base.Result.{Holds, Holds-if, Holds-after}
use remill_tester.Parser.Strings.{parse_hex_bytes}
use remill_tester.Expectation.{ExpectationRow}
use remill_tester.Tester.Operands.{decode_key}
use remill_tester.Backend.{is_unsupported_compile_error}
use remill_tester.Backend.Pending.{
  Toolchain, RemillBackend, Answer, function_name, ensure_initialized, load_pending_module,
  ensure_pending_module, fail, lift, define, define_new, define_in_pending_module,
}
use remill_tester.Backend.Compiler.Extends.{IsOwned}
use remill_tester.Backend.Compiler.Invariant.{ensure_pending_module-IsIdle}

-- No module is pending without the instructions that wait for it: FinalizePendingModule has not
-- failed.
abbrev pub IsClean : RemillBackend → Type 0
IsClean b = b.pending_module ≡ false → b.pending_compiled ≡ []

-- What an attempt to define a row leaves: the row is in one of the two caches, unless the error is
-- one that ends PrepareCases.
abbrev pub IsAttempted : Text → Answer (Option Text) → Type 0
IsAttempted key answer =
    (answer.2.initialized ≡ true)
    × IsClean answer.2
    × (answer.0 ≡ none
        → is_unsupported_compile_error answer.1 ≡ true
        → find key answer.2.failed_compile_cache ≡ some answer.1)
    × ((pointer : Text) → answer.0 ≡ some pointer → IsOwned answer.2.cache key)

IsAttempted-if :
    (key : Text) (test : Bool) (left right : Answer (Option Text))
    → IsAttempted key left
    → IsAttempted key right
    → IsAttempted key (if test then left else right)
IsAttempted-if key true left right l r = l
IsAttempted-if key false left right l r = r

ensure_pending_module-ready :
    (t : Toolchain) (error : Text) (b : RemillBackend)
    → b.initialized ≡ true
    → let answer = ensure_pending_module t error b in
      (answer.2.initialized ≡ true)
      × (answer.0 ≡ true → answer.2.pending_module ≡ true)
      × (answer.0 ≡ false → is_unsupported_compile_error answer.1 ≡ false)
      × (answer.0 ≡ false → answer.2.pending_module ≡ b.pending_module)
unfolding ensure_pending_module load_pending_module ensure_initialized is_unsupported_compile_error
    starts_with
ensure_pending_module-ready t error b initialized = ground (arith, initialized)

pub ensure_initialized-ready :
    (t : Toolchain) (error : Text) (b : RemillBackend)
    → let answer = ensure_initialized t error b in
      (answer.0 ≡ true → answer.2.initialized ≡ true) × (answer.2.pending_module ≡ b.pending_module)
unfolding ensure_initialized
ensure_initialized-ready t error b = ground arith

fail-IsAttempted :
    (key message : Text) (b : RemillBackend)
    → b.initialized ≡ true
    → b.pending_module ≡ true
    → IsAttempted key (fail key message b)
unfolding fail
fail-IsAttempted key message b initialized pending = (
  initialized,
  (λ idle. absurd (ground (arith, idle, pending))),
  (λ given unsupported. find-assign-same key message b.failed_compile_cache),
  λ pointer given. absurd (ground (arith, given)),
)

define-IsAttempted :
    (t : Toolchain) (row : ExpectationRow) (bytes : List ℕ) (error : Text) (b : RemillBackend)
    → b.initialized ≡ true
    → b.pending_module ≡ true
    → IsAttempted (decode_key row) (define t row bytes error b)
unfolding define lift
define-IsAttempted t row bytes error b initialized pending =
    let key = decode_key row in
    let failing = λ (message : Text). fail-IsAttempted key message b initialized pending in
    IsAttempted-if key (not t.has_arch_intrinsics) _ _ (failing _) (
      IsAttempted-if key (not (t.decodes row.address bytes)) _ _ (failing _) (
        IsAttempted-if key (not t.has_pending_intrinsics) _ _ (failing _) (
          IsAttempted-if key (not (t.lifts row.address bytes)) _ _
            (fail-IsAttempted key (codes "Remill failed to lift opcode " ++ row.opcode)
              (record b { next_function_id = (b.next_function_id + 1) % 2 ^ 64 }) initialized
              pending)
            (
              initialized,
              (λ idle. absurd (ground (arith, idle, pending))),
              (λ given unsupported. absurd (ground (arith, given))),
              λ pointer given. (
                record { name = function_name b.next_function_id row; function = none },
                find-assign-same key
                    (record { name = function_name b.next_function_id row; function = none })
                    b.cache,
              ),
            ))))

define_new-IsAttempted :
    (t : Toolchain) (row : ExpectationRow) (error : Text) (b : RemillBackend)
    → b.initialized ≡ true
    → IsClean b
    → Holds (IsAttempted (decode_key row)) (define_new t row error b)
unfolding define_new
define_new-IsAttempted t row error b initialized clean =
    let key = decode_key row in
    let ready = ensure_pending_module t error b in
    let (initialized', pending, unsupported_not, same_module) =
      ensure_pending_module-ready t error b initialized in
    let idle = ensure_pending_module-IsIdle t error b in
    Holds-if (IsAttempted key) (not ready.0) _ _
      (λ refused.
        let failed : ready.0 ≡ false = ground (arith, refused) in
        let supported = unsupported_not failed in
        (
          initialized',
          (λ none_pending. idle.2 ∙ clean (sym (same_module failed) ∙ none_pending)),
          (λ given unsupported. absurd (ground (arith, supported, unsupported))),
          λ pointer given. absurd (ground (arith, given)),
        ))
      (λ accepted.
        let done : ready.0 ≡ true = ground (arith, accepted) in
        Holds-after (IsAttempted key) (parse_hex_bytes row.opcode) _
          (λ bytes. define-IsAttempted t row bytes ready.1 ready.2 initialized' (pending done)))

pub define_in_pending_module-IsAttempted :
    (t : Toolchain) (row : ExpectationRow) (error : Text) (b : RemillBackend)
    → b.initialized ≡ true
    → IsClean b
    → Holds (IsAttempted (decode_key row)) (define_in_pending_module t row error b)
unfolding define_in_pending_module
define_in_pending_module-IsAttempted t row error b initialized clean =
    let key = decode_key row in
    elim (Option-cases (find key b.cache)) [
      | inr (c, known) ↦
          rw (known, define_in_pending_module)
            (
              initialized,
              clean,
              (λ given unsupported. absurd (ground (arith, given))),
              λ pointer given. (c, known),
            )
      | inl new ↦ elim (Option-cases (find key b.failed_compile_cache)) [
        | inr (message, failed) ↦
            rw (new, failed, define_in_pending_module)
              (
                initialized,
                clean,
                (λ given unsupported. failed),
                λ pointer given. absurd (ground (arith, given)),
              )
        | inl unfailed ↦
            rw (new, unfailed, define_in_pending_module)
              (define_new-IsAttempted t row error b initialized clean)
      ]
    ]
