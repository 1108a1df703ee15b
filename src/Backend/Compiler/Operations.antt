-- ===== src/Backend/Compiler/Operations.antt =====
-- src/remill_backend.cpp: FinalizePendingModule, Compile, PrepareCases and RunCase keep the invariant,
-- the compiled functions and the remembered failures.
use remill_tester.Base.{
  ℕ, inl, inr, arith, false, not, List, [], ◌∷◌, map, Option, none, some, Option-cases,
}
use remill_tester.Base.Text.{Text}
use remill_tester.Base.Map.{find, text_key}
use remill_tester.Base.Result.{Result, ok, err, Holds, Holds-bind, Holds-if}
use remill_tester.Parser.Strings.{Parse}
use remill_tester.Expectation.{ExpectationRow, ExecutionResult}
use remill_tester.Tester.Operands.{decode_key}
use remill_tester.Backend.{LiftedFunction, supports_case, is_unsupported_compile_error}
use remill_tester.Backend.Pending.{
  Toolchain, RemillBackend, Answer, ensure_initialized, define_in_pending_module,
}
use remill_tester.Backend.Compiler.{
  name_of, link, link_pending, finalize_pending_module, finish, compile, define_rows, prepare_cases,
  run_row, with_members,
}
use remill_tester.Backend.Compiler.Extends.{All-IsOwned}
use remill_tester.Backend.Compiler.Linking.{link-Keeps, link-Waits}
use remill_tester.Backend.Compiler.Invariant.{
  Extends, Leads, Extends-refl, Extends-trans, Leads-if, IsIdle-Extends, ensure_initialized-IsIdle,
  define_in_pending_module-Extends,
}

module _ (lookup : Text → Result Text LiftedFunction) where
  Leads-list {ℓ} :
      {A : Type ℓ} (b : RemillBackend) (keys : List Text) (nothing rest : Answer A)
      → Leads lookup b nothing
      → Leads lookup b rest
      → Leads lookup b (elim keys [ [] ↦ nothing | key ∷ others ↦ rest ])
  Leads-list b [] nothing rest l r = l
  Leads-list b (key ∷ keys) nothing rest l r = r

  Leads-option {ℓ κ} :
      {A : Type ℓ} {B : Type κ} (b : RemillBackend) (o : Option B) (nothing : Answer A)
      (given : B → Answer A)
      → Leads lookup b nothing
      → ((x : B) → Leads lookup b (given x))
      → Leads lookup b (elim o [ none ↦ nothing | some x ↦ given x ])
  Leads-option b none nothing given l r = l
  Leads-option b (some x) nothing given l r = r x

  link_pending-Extends :
      (error : Text) (b : RemillBackend) → Leads lookup b (link_pending lookup error b)
  unfolding link_pending
  link_pending-Extends error b (linked, disjoint, owned, waiting) =
      let after = link lookup b.pending_compiled b.cache in
      let (linked', disjoint', kept) =
        link-Keeps lookup b.pending_compiled b.cache b.failed_compile_cache linked disjoint owned in
      let owned' = All-IsOwned b.cache after.1 b.pending_compiled kept owned in
      elim (Option-cases after.0) [
        | inr (message, fails) ↦
            rw (fails, link_pending)
              (
                (
                  linked',
                  disjoint',
                  owned',
                  λ j c h missing.
                      waiting j c (link-Waits lookup b.pending_compiled b.cache j c h missing).0
                        missing,
                ),
                kept,
                λ key text h. h,
              )
        | inl links ↦
            rw (links, link_pending)
              (
                (
                  linked',
                  disjoint',
                  tt,
                  λ j c h missing.
                      let (old, behind) =
                        link-Waits lookup b.pending_compiled b.cache j c h missing in
                      let in_pending = waiting j c old missing in
                      let not_in = behind links in absurd (ground (arith, in_pending, not_in)),
                ),
                kept,
                λ key text h. h,
              )
      ]

  pub finalize_pending_module-Extends :
      (t : Toolchain) (error : Text) (b : RemillBackend)
      → Leads lookup b (finalize_pending_module lookup t error b)
  unfolding finalize_pending_module
  finalize_pending_module-Extends t error b =
      Leads-if lookup b (not b.pending_module) _ _ (Extends-refl lookup b) (
        Leads-list b b.pending_compiled _ _ (Extends-refl lookup b) (
          Leads-option b (t.add_module (map (name_of b.cache) b.pending_compiled)) _ _
            (link_pending-Extends error (record b { pending_module = false }))
            (λ _. Extends-refl lookup b)))

  finish-Extends :
      (t : Toolchain) (key error : Text) (b : RemillBackend)
      → Leads lookup b (finish lookup t key error b)
  unfolding finish
  finish-Extends t key error b =
      let finalized = finalize_pending_module-Extends t error b in
      Leads-if lookup b (not (finalize_pending_module lookup t error b).0) _ _ finalized finalized

  Holds-option {ℓ κ} :
      {A : Type ℓ} {B : Type κ} (b : RemillBackend) (o : Option B) (nothing : Parse (Answer A))
      (given : B → Parse (Answer A))
      → Holds (Leads lookup b) nothing
      → ((x : B) → Holds (Leads lookup b) (given x))
      → Holds (Leads lookup b) (elim o [ none ↦ nothing | some x ↦ given x ])
  Holds-option b none nothing given l r = l
  Holds-option b (some x) nothing given l r = r x

  Holds-Leads {ℓ} :
      {A : Type ℓ} (b b' : RemillBackend) (m : Parse (Answer A))
      → Extends lookup b b'
      → Holds (Leads lookup b') m
      → Holds (Leads lookup b) m
  Holds-Leads b b' (ok answer) first next = Extends-trans lookup b b' answer.2 first next
  Holds-Leads b b' (err e) first next = tt

  pub compile-Extends :
      (t : Toolchain) (row : ExpectationRow) (error : Text) (b : RemillBackend)
      → Holds (Leads lookup b) (compile lookup t row error b)
  unfolding compile
  compile-Extends t row error b = elim (Option-cases (find (decode_key row) b.cache)) [
    | inr (c, known) ↦ elim (Option-cases c.function) [
      | inr (f, has) ↦ rw (known, has, compile) (Extends-refl lookup b)
      | inl missing ↦ rw (known, missing, compile) (finish-Extends t (decode_key row) error b)
    ]
    | inl new ↦ elim (Option-cases (find (decode_key row) b.failed_compile_cache)) [
      | inr (message, failed) ↦ rw (new, failed, compile) (Extends-refl lookup b)
      | inl unfailed ↦
          rw (new, unfailed, compile)
            (Holds-bind (Leads lookup b) (Leads lookup b) (define_in_pending_module t row error b) _
              (define_in_pending_module-Extends lookup t row error b)
              (λ defined extends. Holds-option b defined.0 _ _ extends (λ pointer.
                Extends-trans lookup b defined.2 (finish lookup t pointer defined.1 defined.2).2
                  extends (finish-Extends t pointer defined.1 defined.2))))
    ]
  ]

  pub define_rows-Extends :
      (t : Toolchain) (rows : List ExpectationRow) (error : Text) (b : RemillBackend)
      → Holds (Leads lookup b) (define_rows lookup t rows error b)
  unfolding define_rows
  define_rows-Extends t [] error b = Extends-refl lookup b
  define_rows-Extends t (row ∷ rows) error b =
      Holds-if (Leads lookup b) (not (supports_case row)) _ _
        (λ _. define_rows-Extends t rows error b)
        (λ _.
          Holds-bind (Leads lookup b) (Leads lookup b) (define_in_pending_module t row error b) _
            (define_in_pending_module-Extends lookup t row error b)
            (λ defined extends.
              let rest =
                Holds-Leads b defined.2 (define_rows lookup t rows defined.1 defined.2) extends
                  (define_rows-Extends t rows defined.1 defined.2) in
              Holds-option b defined.0 _ _
                (Holds-if (Leads lookup b) (not (is_unsupported_compile_error defined.1)) _ _
                  (λ _. extends) (λ _. rest))
                (λ pointer. rest)))

  pub prepare_cases-Extends :
      (t : Toolchain) (rows : List ExpectationRow) (error : Text) (b : RemillBackend)
      → Holds (Leads lookup b) (prepare_cases lookup t rows error b)
  unfolding prepare_cases
  prepare_cases-Extends t rows error b =
      let first = ensure_initialized t error b in
      let extends = IsIdle-Extends lookup b first.2 (ensure_initialized-IsIdle t error b) in
      Holds-if (Leads lookup b) (not first.0) _ _ (λ _. extends)
        (λ _.
          Holds-bind (Leads lookup b) (Leads lookup b) (define_rows lookup t rows first.1 first.2) _
            (Holds-Leads b first.2 (define_rows lookup t rows first.1 first.2) extends
              (define_rows-Extends t rows first.1 first.2))
            (λ defined extends'. Leads-if lookup b (not defined.0) _ _ extends' (
              Extends-trans lookup b defined.2
                (finalize_pending_module lookup t defined.1 defined.2).2 extends'
                (finalize_pending_module-Extends t defined.1 defined.2))))

  with_members-Extends :
      (b b' : RemillBackend) (m : Parse ExecutionResult)
      → Extends lookup b b'
      → Holds (λ (r : ExecutionResult × RemillBackend). Extends lookup b r.1) (with_members b' m)
  unfolding with_members
  with_members-Extends b b' (ok result) h = h
  with_members-Extends b b' (err message) h = tt

  pub run_row-Extends :
      (t : Toolchain) (num_vec_registers : ℕ) (row : ExpectationRow) (keys : List Text)
      (b : RemillBackend)
      → Holds
          (λ (r : ExecutionResult × RemillBackend). Extends lookup b r.1)
          (run_row lookup t num_vec_registers row keys b)
  unfolding run_row
  run_row-Extends t num_vec_registers row keys b =
      let kept = λ (r : ExecutionResult × RemillBackend). Extends lookup b r.1 in
      let first = ensure_initialized t [] b in
      let extends = IsIdle-Extends lookup b first.2 (ensure_initialized-IsIdle t [] b) in
      Holds-if kept (not (supports_case row)) _ _
        (λ _. with_members-Extends b b _ (Extends-refl lookup b))
        (λ _.
          Holds-if kept (not first.0) _ _ (λ _. with_members-Extends b first.2 _ extends)
            (λ _.
              Holds-bind (Leads lookup b) kept (compile lookup t row first.1 first.2) _
                (Holds-Leads b first.2 (compile lookup t row first.1 first.2) extends
                  (compile-Extends t row first.1 first.2))
                (λ compiled extends'. with_members-Extends b compiled.2 _ extends')))
