-- ===== src/Backend/Compiler/Invariant.antt =====
-- src/remill_backend.cpp: what holds of the members of RemillBackend whatever the toolchain answers,
-- and what every operation keeps of the two caches.
use remill_tester.Base.{
  ℕ, ◌+◌, ◌%◌, ◌^◌, ◌≡◌, inl, inr, refl, sym, ap, ◌∙◌, arith, Bool, true, false, not, List, [], ◌∷◌,
  ◌++◌, none, Option-cases, Bool-cases, All, All-append, if◌then◌else◌,
}
use remill_tester.Base.Text.{Text, same, same_iff, member}
use remill_tester.Base.Map.{
  find, assign, text_key, find-assign-apart, find-assign-same, find-assign-cases, find-assign-new,
}
use remill_tester.Base.Result.{Result, Holds, Holds-after, Holds-if}
use remill_tester.Parser.Strings.{parse_hex_bytes}
use remill_tester.Expectation.{ExpectationRow}
use remill_tester.Tester.Operands.{decode_key}
use remill_tester.Backend.{LiftedFunction}
use remill_tester.Backend.Pending.{
  Toolchain, CompiledInstruction, RemillBackend, Answer, fresh_backend, function_name,
  ensure_initialized, load_pending_module, ensure_pending_module, fail, lift, define, define_new,
  define_in_pending_module,
}
use remill_tester.Backend.Compiler.Extends.{
  IsDisjoint, IsKept, IsOwned, IsLinked, IsWaiting, IsRemembered, IsKept-refl, IsKept-trans,
  IsKept-assign, IsLinked-assign, All-IsOwned, member-append, member-last,
}

-- The members that initialisation and a new pending module leave alone.
abbrev pub IsIdle : RemillBackend → RemillBackend → Type 0
IsIdle b b' =
    (b'.cache ≡ b.cache)
    × (b'.failed_compile_cache ≡ b.failed_compile_cache)
    × (b'.pending_compiled ≡ b.pending_compiled)

pub ensure_initialized-IsIdle :
    (t : Toolchain) (error : Text) (b : RemillBackend) → IsIdle b (ensure_initialized t error b).2
unfolding ensure_initialized
ensure_initialized-IsIdle t error b = ground arith

pub ensure_pending_module-IsIdle :
    (t : Toolchain) (error : Text) (b : RemillBackend)
    → IsIdle b (ensure_pending_module t error b).2
unfolding ensure_pending_module load_pending_module ensure_initialized
ensure_pending_module-IsIdle t error b = ground arith

module _ (lookup : Text → Result Text LiftedFunction) where
  abbrev pub IsWellFormed : RemillBackend → Type 0
  IsWellFormed b =
      IsLinked lookup b.cache
      × IsDisjoint b.cache b.failed_compile_cache
      × All (IsOwned b.cache) b.pending_compiled
      × IsWaiting b.cache b.pending_compiled

  -- A change of the members that keeps what is compiled and what has failed.
  abbrev pub Extends : RemillBackend → RemillBackend → Type 0
  Extends b b' =
      IsWellFormed b
      → IsWellFormed b'
        × IsKept b.cache b'.cache
        × IsRemembered b.failed_compile_cache b'.failed_compile_cache

  abbrev pub Leads {ℓ} : {A : Type ℓ} → RemillBackend → Answer A → Type 0
  Leads b answer = Extends b answer.2

  pub Extends-refl : (b : RemillBackend) → Extends b b
  Extends-refl b wf = (wf, IsKept-refl b.cache, λ key message h. h)

  pub Extends-trans : (b b' b'' : RemillBackend) → Extends b b' → Extends b' b'' → Extends b b''
  Extends-trans b b' b'' first next wf =
      let (wf', kept, remembered) = first wf in
      let (wf'', kept', remembered') = next wf' in
      (
        wf'',
        IsKept-trans b.cache b'.cache b''.cache kept kept',
        λ key message h. remembered' key message (remembered key message h),
      )

  pub fail-Extends :
      (key message : Text) (b : RemillBackend)
      → find key b.cache ≡ none
      → find key b.failed_compile_cache ≡ none
      → Extends b (fail key message b).2
  unfolding fail
  fail-Extends key message b new unfailed (linked, disjoint, owned, waiting) = (
    (
      linked,
      (λ j c h. elim (Bool-cases (same key j)) [
        | inl hit ↦
            let missing : find j b.cache ≡ none =
              sym (ap (λ (i : Text). find i b.cache) ((same_iff key j).0 hit)) ∙ new in
            absurd (ground (arith, h, missing))
        | inr miss ↦ find-assign-apart key j message b.failed_compile_cache miss ∙ disjoint j c h
      ]),
      owned,
      waiting,
    ),
    IsKept-refl b.cache,
    λ j text h. find-assign-new key j message text b.failed_compile_cache unfailed h,
  )

  pub Leads-if {ℓ} :
      {A : Type ℓ} (b : RemillBackend) (test : Bool) (left right : Answer A)
      → Leads b left
      → Leads b right
      → Leads b (if test then left else right)
  Leads-if b true left right l r = l
  Leads-if b false left right l r = r

  -- A new instruction waits for its function.
  added-Extends :
      (key name : Text) (id : ℕ) (b : RemillBackend)
      → find key b.cache ≡ none
      → find key b.failed_compile_cache ≡ none
      → Extends b (record b {
        next_function_id = id;
        cache = assign key (record { name = name; function = none }) b.cache;
        pending_compiled = b.pending_compiled ++ (key ∷ []);
      })
  added-Extends key name id b new unfailed (linked, disjoint, owned, waiting) =
      let fresh : CompiledInstruction = record { name = name; function = none } in
      let kept = IsKept-assign key fresh b.cache new in
      let in_cache = find-assign-same key fresh b.cache in
      let owned' =
        All-append (IsOwned (assign key fresh b.cache)) b.pending_compiled (key ∷ [])
          (All-IsOwned b.cache (assign key fresh b.cache) b.pending_compiled kept owned)
          ((fresh, in_cache), tt) in
      (
        (
          IsLinked-assign lookup key name b.cache linked,
          (λ j c h. elim (find-assign-cases key j fresh c b.cache h) [
            | inl hit ↦ sym (ap (λ (i : Text). find i b.failed_compile_cache) hit.0) ∙ unfailed
            | inr old ↦ disjoint j c old
          ]),
          owned',
          (λ j c h missing. elim (find-assign-cases key j fresh c b.cache h) [
            | inl hit ↦
                ap (λ (i : Text). member j (b.pending_compiled ++ (i ∷ []))) hit.0
                ∙ member-last j b.pending_compiled
            | inr old ↦ member-append j b.pending_compiled (key ∷ []) (waiting j c old missing)
          ]),
        ),
        kept,
        λ j text h. h,
      )

  pub lift-Extends :
      (t : Toolchain) (row : ExpectationRow) (bytes : List ℕ) (error : Text) (b : RemillBackend)
      → find (decode_key row) b.cache ≡ none
      → find (decode_key row) b.failed_compile_cache ≡ none
      → Leads b (lift t row bytes error b)
  unfolding lift
  lift-Extends t row bytes error b new unfailed =
      Leads-if b (not (t.lifts row.address bytes)) _ _
        (fail-Extends (decode_key row) _
          (record b { next_function_id = (b.next_function_id + 1) % 2 ^ 64 }) new unfailed)
        (added-Extends (decode_key row) (function_name b.next_function_id row)
          ((b.next_function_id + 1) % 2 ^ 64) b new unfailed)

  define-Extends :
      (t : Toolchain) (row : ExpectationRow) (bytes : List ℕ) (error : Text) (b : RemillBackend)
      → find (decode_key row) b.cache ≡ none
      → find (decode_key row) b.failed_compile_cache ≡ none
      → Leads b (define t row bytes error b)
  unfolding define
  define-Extends t row bytes error b new unfailed =
      let failing = λ (message : Text). fail-Extends (decode_key row) message b new unfailed in
      Leads-if b (not t.has_arch_intrinsics) _ _ (failing _) (
        Leads-if b (not (t.decodes row.address bytes)) _ _ (failing _) (
          Leads-if b (not t.has_pending_intrinsics) _ _ (failing _)
            (lift-Extends t row bytes error b new unfailed)))

  pub IsIdle-Extends : (b b' : RemillBackend) → IsIdle b b' → Extends b b'
  IsIdle-Extends b b' (same_cache, same_failures, same_pending) =
      rw (same_cache, same_failures, same_pending) (Extends-refl b)

  define_new-Extends :
      (t : Toolchain) (row : ExpectationRow) (error : Text) (b : RemillBackend)
      → find (decode_key row) b.cache ≡ none
      → find (decode_key row) b.failed_compile_cache ≡ none
      → Holds (Leads b) (define_new t row error b)
  unfolding define_new
  define_new-Extends t row error b new unfailed =
      let ready = ensure_pending_module t error b in
      let idle = ensure_pending_module-IsIdle t error b in
      let first = IsIdle-Extends b ready.2 idle in
      Holds-if (Leads b) (not ready.0) _ _ (λ _. first)
        (λ _. Holds-after (Leads b) (parse_hex_bytes row.opcode) _ (λ bytes.
          Extends-trans b ready.2 (define t row bytes ready.1 ready.2).2 first (
            define-Extends t row bytes ready.1 ready.2 (ap (find (decode_key row)) idle.0 ∙ new)
              (ap (find (decode_key row)) idle.1 ∙ unfailed))))

  pub define_in_pending_module-Extends :
      (t : Toolchain) (row : ExpectationRow) (error : Text) (b : RemillBackend)
      → Holds (Leads b) (define_in_pending_module t row error b)
  unfolding define_in_pending_module
  define_in_pending_module-Extends t row error b =
      elim (Option-cases (find (decode_key row) b.cache)) [
        | inr (c, known) ↦ rw (known, define_in_pending_module) (Extends-refl b)
        | inl new ↦ elim (Option-cases (find (decode_key row) b.failed_compile_cache)) [
          | inr (message, failed) ↦ rw (new, failed, define_in_pending_module) (Extends-refl b)
          | inl unfailed ↦
              rw (new, unfailed, define_in_pending_module)
                (define_new-Extends t row error b new unfailed)
        ]
      ]

  pub fresh-IsWellFormed : IsWellFormed fresh_backend
  unfolding find
  fresh-IsWellFormed = (
    (λ key c f h. absurd (ground (arith, h))),
    (λ key c h. refl),
    tt,
    λ key c h. absurd (ground (arith, h)),
  )
