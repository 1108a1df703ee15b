-- ===== src/Backend/Compiler/Prepared.antt =====
-- src/remill_backend.cpp: what PrepareCases leaves behind for the rows that it was given.
use remill_tester.Base.{
  ◌≡◌, ◌⊎◌, inl, inr, refl, sym, ◌∙◌, arith, Bool, true, false, not, List, [], ◌∷◌, Option, none,
  some, Option-cases, Bool-cases, All, All-map,
}
use remill_tester.Base.Text.{Text, member}
use remill_tester.Base.Map.{find, text_key}
use remill_tester.Base.Result.{
  Result, ok, Holds, Holds-ok, Holds-if, Holds-bind, Holds-map, Holds-both,
}
use remill_tester.Expectation.{ExpectationRow}
use remill_tester.Tester.Operands.{decode_key}
use remill_tester.Backend.{LiftedFunction, supports_case, is_unsupported_compile_error}
use remill_tester.Backend.Pending.{
  Toolchain, RemillBackend, Answer, fresh_backend, ensure_initialized, define_in_pending_module,
}
use remill_tester.Backend.Compiler.{
  link_pending, finalize_pending_module, compile, define_rows, prepare_cases,
}
use remill_tester.Backend.Compiler.Extends.{IsOwned}
use remill_tester.Backend.Compiler.Invariant.{
  IsWellFormed, Extends, Leads, ensure_initialized-IsIdle, IsIdle-Extends, fresh-IsWellFormed,
  define_in_pending_module-Extends,
}
use remill_tester.Backend.Compiler.Operations.{define_rows-Extends, finalize_pending_module-Extends}
use remill_tester.Backend.Compiler.Attempted.{
  IsClean, IsAttempted, ensure_initialized-ready, define_in_pending_module-IsAttempted,
}

-- The row is in one of the two caches.
abbrev IsDefined : RemillBackend → ExpectationRow → Type 0
IsDefined b row =
    IsOwned b.cache (decode_key row)
    ⊎ ((message : Text) × (find (decode_key row) b.failed_compile_cache ≡ some message)
        × (is_unsupported_compile_error message ≡ true))

Extends-IsDefined :
    (lookup : Text → Result Text LiftedFunction) (b b' : RemillBackend) (row : ExpectationRow)
    → IsWellFormed lookup b
    → Extends lookup b b'
    → IsDefined b row
    → IsDefined b' row
Extends-IsDefined lookup b b' row sound extends (inl (c, known)) =
    let (c', known', same_name, keeps) = (extends sound).1 (decode_key row) c known in
    inl (c', known')
Extends-IsDefined lookup b b' row sound extends (inr (message, failed, unsupported)) =
    inr (message, (extends sound).2 (decode_key row) message failed, unsupported)

-- The rows behind the loop of PrepareCases, if it got through.
abbrev AllDefined : List ExpectationRow → Answer Bool → Type 0
AllDefined rows answer =
    answer.0 ≡ true
    → IsClean answer.2
      × All (λ (row : ExpectationRow). supports_case row ≡ true → IsDefined answer.2 row) rows

module _ (lookup : Text → Result Text LiftedFunction) where
  -- A row that is defined stays so while the loop goes on.
  AllDefined-more :
      (t : Toolchain) (row : ExpectationRow) (rows : List ExpectationRow) (error : Text)
      (b : RemillBackend)
      → IsWellFormed lookup b
      → (supports_case row ≡ true → IsDefined b row)
      → Holds (AllDefined rows) (define_rows lookup t rows error b)
      → Holds (AllDefined (row ∷ rows)) (define_rows lookup t rows error b)
  AllDefined-more t row rows error b sound defined rest =
      let loop = define_rows lookup t rows error b in
      Holds-map (λ (a : Answer Bool). Leads lookup b a × AllDefined rows a)
        (AllDefined (row ∷ rows)) loop
        (λ answer both done. (
          (both.1 done).0,
          (
            (λ supported. Extends-IsDefined lookup b answer.2 row sound both.0 (defined supported)),
            (both.1 done).1,
          ),
        ))
        (Holds-both (Leads lookup b) (AllDefined rows) loop
          (define_rows-Extends lookup t rows error b) rest)

  define_rows-AllDefined :
      (t : Toolchain) (rows : List ExpectationRow) (error : Text) (b : RemillBackend)
      → b.initialized ≡ true
      → IsClean b
      → IsWellFormed lookup b
      → Holds (AllDefined rows) (define_rows lookup t rows error b)
  unfolding define_rows
  define_rows-AllDefined t [] error b initialized clean sound = λ done. (clean, tt)
  define_rows-AllDefined t (row ∷ rows) error b initialized clean sound =
      let First = λ (a : Answer (Option Text)). Leads lookup b a × IsAttempted (decode_key row) a in
      let define_row = define_in_pending_module t row error b in
      Holds-if (AllDefined (row ∷ rows)) (not (supports_case row)) _ _
        (λ skipped.
          AllDefined-more t row rows error b sound
            (λ supported. absurd (ground (arith, skipped, supported)))
            (define_rows-AllDefined t rows error b initialized clean sound))
        (λ _.
          Holds-bind First (AllDefined (row ∷ rows)) define_row _
            (Holds-both (Leads lookup b) (IsAttempted (decode_key row)) define_row
              (define_in_pending_module-Extends lookup t row error b)
              (define_in_pending_module-IsAttempted t row error b initialized clean))
            (λ a first.
              let (initialized', clean', remembered, owned) = first.1 in
              let sound' = (first.0 sound).0 in
              let rest = define_rows-AllDefined t rows a.1 a.2 initialized' clean' sound' in
              let more = λ (defined : IsDefined a.2 row).
                AllDefined-more t row rows a.1 a.2 sound' (λ _. defined) rest in
              elim (Option-cases a.0) [
                | inr (pointer, given) ↦ rw given (more (inl (owned pointer given)))
                | inl nothing ↦ rw nothing (
                    Holds-if (AllDefined (row ∷ rows)) (not (is_unsupported_compile_error a.1)) _ _
                      (λ _ done. absurd (ground (arith, done)))
                      (λ goes_on.
                        let unsupported : is_unsupported_compile_error a.1 ≡ true =
                          ground (arith, goes_on) in
                        more (inr (a.1, remembered nothing unsupported, unsupported))))
              ]))

  -- A call of FinalizePendingModule that succeeds leaves no instruction pending.
  finalize_pending_module-empty :
      (t : Toolchain) (error : Text) (b : RemillBackend)
      → IsClean b
      → (finalize_pending_module lookup t error b).0 ≡ true
      → (finalize_pending_module lookup t error b).2.pending_compiled ≡ []
  unfolding finalize_pending_module link_pending
  finalize_pending_module-empty t error b clean done = ground (arith, clean, done)

  -- What a call of PrepareCases that succeeds has settled for a row: Compile gives it a function, or
  -- the text of a failure to decode or lift, at once and whatever the toolchain answers from then on.
  abbrev pub IsSettled : RemillBackend → ExpectationRow → Type 0
  IsSettled b row =
      ((f : LiftedFunction) × ((t : Toolchain) (error : Text)
          → compile lookup t row error b ≡ ok (some f, error, b)))
      ⊎ ((message : Text) × (is_unsupported_compile_error message ≡ true)
          × ((t : Toolchain) (error : Text) → compile lookup t row error b ≡ ok (none, message, b)))

  IsDefined-IsSettled :
      (b : RemillBackend) (row : ExpectationRow)
      → IsWellFormed lookup b
      → b.pending_compiled ≡ []
      → IsDefined b row
      → IsSettled b row
  unfolding compile
  IsDefined-IsSettled b row sound empty (inl (c, known)) = elim (Option-cases c.function) [
    | inr (f, has) ↦ inl (f, λ t error. rw (known, has, compile) refl)
    | inl missing ↦
        let waits = sound.3 (decode_key row) c known missing in
        let nowhere : member (decode_key row) b.pending_compiled ≡ false = rw empty refl in
        absurd (ground (arith, waits, nowhere))
  ]
  IsDefined-IsSettled b row sound empty (inr (message, failed, unsupported)) = inr (
    message,
    unsupported,
    λ t error. elim (Option-cases (find (decode_key row) b.cache)) [
      | inl new ↦ rw (new, failed, compile) refl
      | inr (c, known) ↦
          let apart = sound.1 (decode_key row) c known in absurd (ground (arith, apart, failed))
    ],
  )

  abbrev Settles : List ExpectationRow → Answer Bool → Type 0
  Settles rows answer =
      answer.0 ≡ true
      → (answer.2.pending_compiled ≡ [])
        × All (λ (row : ExpectationRow). supports_case row ≡ true → IsSettled answer.2 row) rows

  finalize_pending_module-Settles :
      (t : Toolchain) (rows : List ExpectationRow) (error : Text) (b : RemillBackend)
      → IsWellFormed lookup b
      → IsClean b
      → All (λ (row : ExpectationRow). supports_case row ≡ true → IsDefined b row) rows
      → Settles rows (finalize_pending_module lookup t error b)
  finalize_pending_module-Settles t rows error b sound clean defined done =
      let extends = finalize_pending_module-Extends lookup t error b in
      let empty = finalize_pending_module-empty t error b clean done in
      let b' = (finalize_pending_module lookup t error b).2 in
      (
        empty,
        All-map (λ (row : ExpectationRow). supports_case row ≡ true → IsDefined b row)
            (λ (row : ExpectationRow). supports_case row ≡ true → IsSettled b' row) rows
            (λ row h supported.
              IsDefined-IsSettled b' row (extends sound).0 empty
                (Extends-IsDefined lookup b b' row sound extends (h supported)))
            defined,
      )

  prepare_cases-Settles :
      (t : Toolchain) (rows : List ExpectationRow) (error : Text) (b : RemillBackend)
      → IsWellFormed lookup b
      → IsClean b
      → Holds (Settles rows) (prepare_cases lookup t rows error b)
  unfolding prepare_cases
  prepare_cases-Settles t rows error b sound clean =
      let first = ensure_initialized t error b in
      let loop = define_rows lookup t rows first.1 first.2 in
      let idle = ensure_initialized-IsIdle t error b in
      let (on, same_module) = ensure_initialized-ready t error b in
      let sound' = (IsIdle-Extends lookup b first.2 idle sound).0 in
      Holds-if (Settles rows) (not first.0) _ _ (λ _ done. absurd (ground (arith, done)))
        (λ ready.
          let done_first : first.0 ≡ true = ground (arith, ready) in
          Holds-bind (λ (a : Answer Bool). Leads lookup first.2 a × AllDefined rows a)
            (Settles rows) loop _
            (Holds-both (Leads lookup first.2) (AllDefined rows) loop
              (define_rows-Extends lookup t rows first.1 first.2)
              (define_rows-AllDefined t rows first.1 first.2 (on done_first)
                (λ none_pending. idle.2 ∙ clean (sym same_module ∙ none_pending)) sound'))
            (λ a both. elim (Bool-cases a.0) [
              | inr stopped ↦ rw stopped (λ done. absurd (ground (arith, done)))
              | inl through ↦ rw through (
                  finalize_pending_module-Settles t rows a.1 a.2 (both.0 sound').0
                    (both.1 through).0 (both.1 through).1)
            ]))

  -- If PrepareCases succeeds on a fresh backend, then no instruction is left pending, and each of its
  -- rows with an opcode is settled: Compile gives it a function, or the text of a failure to decode
  -- or lift, without changing a member, whatever the toolchain answers from then on.
  pub prepare_cases-IsSettled :
      (t : Toolchain) (rows : List ExpectationRow) (error error' : Text) (b : RemillBackend)
      → prepare_cases lookup t rows error fresh_backend ≡ ok (true, error', b)
      → (b.pending_compiled ≡ [])
        × All (λ (row : ExpectationRow). supports_case row ≡ true → IsSettled b row) rows
  prepare_cases-IsSettled t rows error error' b prepares =
      Holds-ok (Settles rows) (true, error', b) prepares
        (prepare_cases-Settles t rows error fresh_backend (fresh-IsWellFormed lookup) (λ _. refl))
        refl
