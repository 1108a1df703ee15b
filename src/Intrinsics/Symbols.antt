-- ===== src/Intrinsics/Symbols.antt =====
-- src/remill_intrinsics.cpp: RegisterRemillIntrinsicSymbols and DefineRemillIntrinsicSymbols, which
-- give the intrinsics their names. `address` is the address of the function of a name; the symbol
-- tables of LLVM are third-party code.
use remill_tester.Base.{
  ℕ, ◌≡◌, refl, ◌∙◌, Bool, true, false, List, [], ◌∷◌, ◌++◌, Option, none, some, if◌then◌else◌,
  Bool-cases, inl, inr,
}
use remill_tester.Base.Text.{Text, codes, same, same_iff}
use remill_tester.Base.Map.{find, assign, text_key, find-assign, find-assign-same}

-- The names of the REMILL_TESTER_ADD_SYMBOL lines, in their order, the same in both functions.
abbrev pub intrinsic_names : List Text
intrinsic_names =
    codes "__remill_read_memory_8"
    ∷ codes "__remill_read_memory_16"
    ∷ codes "__remill_read_memory_32"
    ∷ codes "__remill_read_memory_64"
    ∷ codes "__remill_write_memory_8"
    ∷ codes "__remill_write_memory_16"
    ∷ codes "__remill_write_memory_32"
    ∷ codes "__remill_write_memory_64"
    ∷ codes "__remill_undefined_8"
    ∷ codes "__remill_undefined_16"
    ∷ codes "__remill_undefined_32"
    ∷ codes "__remill_undefined_64"
    ∷ codes "__remill_compare_exchange_memory_8"
    ∷ codes "__remill_compare_exchange_memory_16"
    ∷ codes "__remill_compare_exchange_memory_32"
    ∷ codes "__remill_compare_exchange_memory_64"
    ∷ codes "__remill_fetch_and_add_8"
    ∷ codes "__remill_fetch_and_add_16"
    ∷ codes "__remill_fetch_and_add_32"
    ∷ codes "__remill_fetch_and_add_64"
    ∷ codes "__remill_fetch_and_sub_8"
    ∷ codes "__remill_fetch_and_sub_16"
    ∷ codes "__remill_fetch_and_sub_32"
    ∷ codes "__remill_fetch_and_sub_64"
    ∷ codes "__remill_fetch_and_and_8"
    ∷ codes "__remill_fetch_and_and_16"
    ∷ codes "__remill_fetch_and_and_32"
    ∷ codes "__remill_fetch_and_and_64"
    ∷ codes "__remill_fetch_and_or_8"
    ∷ codes "__remill_fetch_and_or_16"
    ∷ codes "__remill_fetch_and_or_32"
    ∷ codes "__remill_fetch_and_or_64"
    ∷ codes "__remill_fetch_and_xor_8"
    ∷ codes "__remill_fetch_and_xor_16"
    ∷ codes "__remill_fetch_and_xor_32"
    ∷ codes "__remill_fetch_and_xor_64"
    ∷ codes "__remill_fetch_and_nand_8"
    ∷ codes "__remill_fetch_and_nand_16"
    ∷ codes "__remill_fetch_and_nand_32"
    ∷ codes "__remill_fetch_and_nand_64"
    ∷ codes "__remill_flag_computation_zero"
    ∷ codes "__remill_flag_computation_sign"
    ∷ codes "__remill_flag_computation_overflow"
    ∷ codes "__remill_flag_computation_carry"
    ∷ codes "__remill_compare_sle"
    ∷ codes "__remill_compare_slt"
    ∷ codes "__remill_compare_sge"
    ∷ codes "__remill_compare_sgt"
    ∷ codes "__remill_compare_ule"
    ∷ codes "__remill_compare_ult"
    ∷ codes "__remill_compare_ugt"
    ∷ codes "__remill_compare_uge"
    ∷ codes "__remill_compare_eq"
    ∷ codes "__remill_compare_neq"
    ∷ codes "__remill_fpu_exception_clear"
    ∷ codes "__remill_fpu_exception_test"
    ∷ codes "__remill_fpu_set_rounding"
    ∷ codes "__remill_fpu_get_rounding"
    ∷ codes "__remill_barrier_load_load"
    ∷ codes "__remill_barrier_load_store"
    ∷ codes "__remill_barrier_store_load"
    ∷ codes "__remill_barrier_store_store"
    ∷ codes "__remill_atomic_begin"
    ∷ codes "__remill_atomic_end"
    ∷ codes "__remill_delay_slot_begin"
    ∷ codes "__remill_delay_slot_end"
    ∷ codes "__remill_error"
    ∷ codes "__remill_missing_block"
    ∷ codes "__remill_function_call"
    ∷ codes "__remill_function_return"
    ∷ codes "__remill_jump"
    ∷ codes "__remill_async_hyper_call"
    ∷ codes "__remill_sync_hyper_call"
    ∷ codes "__remill_read_io_port_8"
    ∷ codes "__remill_read_io_port_16"
    ∷ codes "__remill_read_io_port_32"
    ∷ codes "__remill_write_io_port_8"
    ∷ codes "__remill_write_io_port_16"
    ∷ codes "__remill_write_io_port_32"
    ∷ []

-- Whether the flag `once` is set, and the calls of AddSymbol with their names and addresses.
pub record Registry : Type 0 where
  pub once : Bool
  pub calls : List (Text × ℕ)

module _ (address : Text → ℕ) where
  unfoldable pub add_symbol_calls : List Text → List (Text × ℕ)
  add_symbol_calls [] = []
  add_symbol_calls (name ∷ names) = (name, address name) ∷ add_symbol_calls names

  -- RegisterRemillIntrinsicSymbols.
  unfoldable pub register_symbols : Registry → Registry
  register_symbols r =
      if r.once
      then r
      else record { once = true; calls = r.calls ++ add_symbol_calls intrinsic_names }

  pub register_symbols_idem :
      (r : Registry) → register_symbols (register_symbols r) ≡ register_symbols r
  unfolding register_symbols
  register_symbols_idem r = by_flag r.once r.calls
    where
      by_flag :
          (once : Bool) (calls : List (Text × ℕ))
          → register_symbols (register_symbols (record { once = once; calls = calls }))
            ≡ register_symbols (record { once = once; calls = calls })
      by_flag true calls = refl
      by_flag false calls = refl

  module _ (mangle : Text → Text) where
    -- The map that `add_symbol` fills.
    unfoldable pub symbol_map : List Text → List (Text × ℕ) → List (Text × ℕ)
    symbol_map [] symbols = symbols
    symbol_map (name ∷ names) symbols =
        symbol_map names (assign (mangle name) (address name) symbols)

    -- DefineRemillIntrinsicSymbols, where `define` is the answer of the JIT's library: the error, if
    -- it has one.
    unfoldable pub define_symbols : (List (Text × ℕ) → Option Text) → Text → Bool × Text
    define_symbols define error = elim (define (symbol_map intrinsic_names [])) [
      | none ↦ (true, error)
      | some define_error ↦ (false, define_error)
    ]

    symbol_map-keeps :
        (names : List Text) (name : Text) (symbols : List (Text × ℕ))
        → ((other : Text) → mangle other ≡ mangle name → other ≡ name)
        → find (mangle name) symbols ≡ some (address name)
        → find (mangle name) (symbol_map names symbols) ≡ some (address name)
    unfolding symbol_map
    symbol_map-keeps [] name symbols apart h = h
    symbol_map-keeps (other ∷ names) name symbols apart h =
        let symbols' = assign (mangle other) (address other) symbols in
        let found = find-assign (mangle other) (mangle name) (address other) symbols in
        symbol_map-keeps names name symbols' apart
          (elim (Bool-cases (same (mangle other) (mangle name))) [
            | inl hit ↦
                let equal = apart other ((same_iff (mangle other) (mangle name)).0 hit) in
                found ∙ rw (hit, equal) refl
            | inr miss ↦ found ∙ rw miss h
          ])

    -- A mangling that keeps names apart gives each name that is added the address of its function.
    pub symbol_map-finds :
        (before after : List Text) (name : Text) (symbols : List (Text × ℕ))
        → ((other : Text) → mangle other ≡ mangle name → other ≡ name)
        → find (mangle name) (symbol_map (before ++ name ∷ after) symbols) ≡ some (address name)
    unfolding symbol_map
    symbol_map-finds [] after name symbols apart =
        symbol_map-keeps after name (assign (mangle name) (address name) symbols) apart
          (find-assign-same (mangle name) (address name) symbols)
    symbol_map-finds (other ∷ before) after name symbols apart =
        symbol_map-finds before after name (assign (mangle other) (address other) symbols) apart
