-- ===== src/Backend/Compiler/Memo.antt =====
-- src/remill_backend.cpp: what the caches of the backend mean to those who call PrepareCases and
-- RunCase in any order, on any rows.
use remill_tester.Base.{
  ℕ, ◌≡◌, refl, sym, ap, ◌∙◌, arith, Bool, true, false, not, if◌then◌else◌, Bool-cases, value_or,
  List, Option, none, some, Option-cases, inl, inr,
}
use mathlib.Core.Path.{subst}
use remill_tester.Base.Text.{Text}
use remill_tester.Base.Map.{find, text_key}
use remill_tester.Base.Result.{Result, ok, Holds, Holds-ok, Holds-if, Holds-after, Holds-bind}
use remill_tester.Expectation.{ExpectationRow, ExecutionResult}
use remill_tester.Parser.Strings.{parse_hex_bytes}
use remill_tester.Tester.Operands.{decode_key}
use remill_tester.Backend.{LiftedFunction}
use remill_tester.Backend.Pending.{
  Toolchain, CompiledInstruction, RemillBackend, Answer, fresh_backend, define_in_pending_module,
  define_new, define, lift, fail, ensure_pending_module,
}
use remill_tester.Backend.Compiler.{
  compile, prepare_cases, run_row, finish, function_at, finalize_pending_module,
}
use remill_tester.Backend.Compiler.Invariant.{
  fresh-IsWellFormed, Extends, Leads, Extends-refl, Extends-trans,
}
use remill_tester.Backend.Compiler.Operations.{
  compile-Extends, prepare_cases-Extends, run_row-Extends,
}

-- The states that a sequence of calls leads to; each call may meet another toolchain.
pub data Reach (lookup : Text → Result Text LiftedFunction) (num_vec_registers : ℕ)
    (b : RemillBackend) : RemillBackend → Type 0 where
  start : Reach lookup num_vec_registers b b
  prepared :
      {b' : RemillBackend} (t : Toolchain) (rows : List ExpectationRow) (error : Text)
      {answer : Answer Bool}
      → Reach lookup num_vec_registers b b'
      → prepare_cases lookup t rows error b' ≡ ok answer
      → Reach lookup num_vec_registers b answer.2
  ran :
      {b' : RemillBackend} (t : Toolchain) (row : ExpectationRow) (keys : List Text)
      {answer : ExecutionResult × RemillBackend}
      → Reach lookup num_vec_registers b b'
      → run_row lookup t num_vec_registers row keys b' ≡ ok answer
      → Reach lookup num_vec_registers b answer.1

-- A pointer that is returned is the one to the instruction of the row.
abbrev PointsTo : Text → Answer (Option Text) → Type 0
PointsTo key answer = (pointer : Text) → answer.0 ≡ some pointer → pointer ≡ key

PointsTo-if :
    (key : Text) (test : Bool) (left right : Answer (Option Text))
    → PointsTo key left
    → PointsTo key right
    → PointsTo key (if test then left else right)
PointsTo-if key true left right l r = l
PointsTo-if key false left right l r = r

nothing-PointsTo : (key pointer : Text) → none ≡ some pointer → pointer ≡ key
nothing-PointsTo key pointer h = absurd (ground (arith, h))

something-PointsTo : (key pointer : Text) → some key ≡ some pointer → pointer ≡ key
something-PointsTo key pointer h = ap (λ (o : Option Text). value_or o key) (sym h)

define-PointsTo :
    (t : Toolchain) (row : ExpectationRow) (bytes : List ℕ) (error : Text) (b : RemillBackend)
    → PointsTo (decode_key row) (define t row bytes error b)
unfolding define lift fail
define-PointsTo t row bytes error b =
    let nothing = nothing-PointsTo (decode_key row) in
    PointsTo-if _ (not t.has_arch_intrinsics) _ _ nothing (
      PointsTo-if _ (not (t.decodes row.address bytes)) _ _ nothing (
        PointsTo-if _ (not t.has_pending_intrinsics) _ _ nothing (
          PointsTo-if _ (not (t.lifts row.address bytes)) _ _ nothing
            (something-PointsTo (decode_key row)))))

pub define_in_pending_module-PointsTo :
    (t : Toolchain) (row : ExpectationRow) (error : Text) (b : RemillBackend)
    → Holds (PointsTo (decode_key row)) (define_in_pending_module t row error b)
unfolding define_in_pending_module define_new
define_in_pending_module-PointsTo t row error b =
    let key = decode_key row in
    let ready = ensure_pending_module t error b in
    elim (Option-cases (find key b.cache)) [
      | inr (c, known) ↦ rw (known, define_in_pending_module) (something-PointsTo key)
      | inl new ↦ elim (Option-cases (find key b.failed_compile_cache)) [
        | inr (message, failed) ↦ rw (new, failed, define_in_pending_module) (nothing-PointsTo key)
        | inl unfailed ↦
            rw (new, unfailed, define_in_pending_module)
              (Holds-if (PointsTo key) (not ready.0) _ _ (λ _. nothing-PointsTo key)
                (λ _.
                  Holds-after (PointsTo key) (parse_hex_bytes row.opcode) _
                    (λ bytes. define-PointsTo t row bytes ready.1 ready.2)))
      ]
    ]

module _ (lookup : Text → Result Text LiftedFunction) (num_vec_registers : ℕ) where
  Reach-Extends : (b b' : RemillBackend) → Reach lookup num_vec_registers b b' → Extends lookup b b'
  Reach-Extends b _ start = Extends-refl lookup b
  Reach-Extends b _ (prepared {b'} t rows error {answer} before_call runs) =
      Extends-trans lookup b b' answer.2 (Reach-Extends b b' before_call)
        (Holds-ok (Leads lookup b') answer runs (prepare_cases-Extends lookup t rows error b'))
  Reach-Extends b _ (ran {b'} t row keys {answer} before_call runs) =
      Extends-trans lookup b b' answer.1 (Reach-Extends b b' before_call) (
        Holds-ok (λ (r : ExecutionResult × RemillBackend). Extends lookup b' r.1) answer runs
          (run_row-Extends lookup t num_vec_registers row keys b'))

  abbrev pub IsCompiled : Text → LiftedFunction → RemillBackend → Type 0
  IsCompiled key f b =
      (c : CompiledInstruction) × (find key b.cache ≡ some c) × (c.function ≡ some f)

  function_at-IsCompiled :
      (key : Text) (f : LiftedFunction) (b : RemillBackend)
      → function_at key b ≡ some f
      → IsCompiled key f b
  unfolding function_at
  function_at-IsCompiled key f b h = elim (Option-cases (find key b.cache)) [
    | inr (c, known) ↦ (c, known, sym (rw (known, function_at) refl) ∙ h)
    | inl missing ↦ absurd (ground (arith, missing, h))
  ]

  finish-IsCompiled :
      (t : Toolchain) (key error : Text) (b : RemillBackend) (f : LiftedFunction)
      → (finish lookup t key error b).0 ≡ some f
      → IsCompiled key f (finish lookup t key error b).2
  unfolding finish
  finish-IsCompiled t key error b f h =
      let finalized = finalize_pending_module lookup t error b in
      elim (Bool-cases finalized.0) [
        | inl done ↦
            rw (done, finish)
              (function_at-IsCompiled key f finalized.2 (sym (rw (done, finish) refl) ∙ h))
        | inr refused ↦
            let given : none ≡ some f = sym (rw (refused, finish) refl) ∙ h in
            absurd (ground (arith, given))
      ]

  compile-IsCompiled :
      (t : Toolchain) (row : ExpectationRow) (error : Text) (b : RemillBackend) (f : LiftedFunction)
      → Holds
          (λ (a : Answer (Option LiftedFunction)). a.0 ≡ some f → IsCompiled (decode_key row) f a.2)
          (compile lookup t row error b)
  unfolding compile
  compile-IsCompiled t row error b f =
      let Found =
        λ (a : Answer (Option LiftedFunction)). a.0 ≡ some f → IsCompiled (decode_key row) f a.2 in
      elim (Option-cases (find (decode_key row) b.cache)) [
        | inr (c, known) ↦ elim (Option-cases c.function) [
          | inr (g, has) ↦
              rw (known, has, compile) (λ same_function. (c, known, has ∙ same_function))
          | inl missing ↦
              rw (known, missing, compile) (finish-IsCompiled t (decode_key row) error b f)
        ]
        | inl new ↦ elim (Option-cases (find (decode_key row) b.failed_compile_cache)) [
          | inr (message, failed) ↦
              rw (new, failed, compile) (λ given. absurd (ground (arith, given)))
          | inl unfailed ↦
              rw (new, unfailed, compile)
                (Holds-bind (PointsTo (decode_key row)) Found
                  (define_in_pending_module t row error b) _
                  (define_in_pending_module-PointsTo t row error b)
                  (λ defined points. elim (Option-cases defined.0) [
                    | inl nothing ↦ rw nothing (λ given. absurd (ground (arith, given)))
                    | inr (pointer, is_pointer) ↦ rw is_pointer (λ given.
                        subst
                          (λ (key : Text).
                            IsCompiled key f (finish lookup t pointer defined.1 defined.2).2)
                          (points pointer is_pointer)
                          (finish-IsCompiled t pointer defined.1 defined.2 f given))
                  ]))
        ]
      ]

  IsCompiled-compile :
      (t : Toolchain) (row : ExpectationRow) (error : Text) (b : RemillBackend) (f : LiftedFunction)
      → IsCompiled (decode_key row) f b
      → compile lookup t row error b ≡ ok (some f, error, b)
  unfolding compile
  IsCompiled-compile t row error b f (c, known, has) = rw (known, has, compile) refl

  -- If Compile gives a row a function, in whatever state calls of PrepareCases and RunCase lead to
  -- from a fresh backend, then after any further such calls it gives every row with the same address
  -- and the same opcode that function, and changes neither the error nor the members.
  pub compile-again :
      (t t' : Toolchain) (row other : ExpectationRow) (error error' error'' : Text)
      (b b' b'' : RemillBackend) (f : LiftedFunction)
      → Reach lookup num_vec_registers fresh_backend b
      → compile lookup t row error b ≡ ok (some f, error', b')
      → Reach lookup num_vec_registers b' b''
      → other.address ≡ row.address
      → other.opcode ≡ row.opcode
      → compile lookup t' other error'' b'' ≡ ok (some f, error'', b'')
  unfolding decode_key
  compile-again t t' row other error error' error'' b b' b'' f before_call compiles after_call
        same_address same_opcode =
      let same_key : decode_key other ≡ decode_key row = rw (same_address, same_opcode) refl in
      let extends =
        Holds-ok (Leads lookup b) (some f, error', b') compiles
          (compile-Extends lookup t row error b) in
      let compiled =
        Holds-ok
          (λ (a : Answer (Option LiftedFunction)). a.0 ≡ some f → IsCompiled (decode_key row) f a.2)
          (some f, error', b') compiles (compile-IsCompiled t row error b f) refl in
      let sound = (Reach-Extends fresh_backend b before_call (fresh-IsWellFormed lookup)).0 in
      let sound' = (extends sound).0 in
      let kept = (Reach-Extends b' b'' after_call sound').1 in
      let (c, known, same_name, keeps) = kept (decode_key row) compiled.0 compiled.1 in
      IsCompiled-compile t' other error'' b'' f
        (c, ap (λ (key : Text). find key b''.cache) same_key ∙ known, keeps f compiled.2)

  -- Once a row's key is remembered as a failure, in whatever state calls of PrepareCases and RunCase
  -- lead to from a fresh backend, Compile fails with the same message for every row with the same
  -- address and opcode after any further calls, and changes no member.
  pub compile-fails-again :
      (t : Toolchain) (row other : ExpectationRow) (error message : Text) (b b' : RemillBackend)
      → Reach lookup num_vec_registers fresh_backend b
      → find (decode_key row) b.failed_compile_cache ≡ some message
      → Reach lookup num_vec_registers b b'
      → other.address ≡ row.address
      → other.opcode ≡ row.opcode
      → compile lookup t other error b' ≡ ok (none, message, b')
  unfolding decode_key compile
  compile-fails-again t row other error message b b' before_call failed after_call same_address
        same_opcode =
      let same_key : decode_key other ≡ decode_key row = rw (same_address, same_opcode) refl in
      let sound = (Reach-Extends fresh_backend b before_call (fresh-IsWellFormed lookup)).0 in
      let (sound', kept, remembered) = Reach-Extends b b' after_call sound in
      let failed' : find (decode_key other) b'.failed_compile_cache ≡ some message =
        ap (λ (key : Text). find key b'.failed_compile_cache) same_key
        ∙ remembered (decode_key row) message failed in
      elim (Option-cases (find (decode_key other) b'.cache)) [
        | inl new ↦ rw (new, failed', compile) refl
        | inr (c, known) ↦
            let apart = sound'.1 (decode_key other) c known in
            absurd (ground (arith, apart, failed'))
      ]
