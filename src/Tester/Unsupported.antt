-- ===== src/Tester/Unsupported.antt =====
-- src/tester_main.cpp: the predicates that tell which rows cannot be compared.
use remill_tester.Base.{
  ℕ, ◌*◌, ◌/◌, ◌%◌, ◌^◌, bit_and, bit_or, Bool, false, not, ◌&&◌, ◌||◌, List, [], ◌∷◌, none, some,
  leb, ◌==◌, if◌then◌else◌, length, get_or, take, has_value, value_or,
}
use remill_tester.Base.Text.{Text, codes, same, starts_with, member}
use remill_tester.Base.LittleEndian.{join_bytes}
use remill_tester.Expectation.{Scalars, ByteValues, ExpectationRow}
use remill_tester.Parser.Strings.{to_lower, canonical_state_key}
use remill_tester.StateBridge.{is_scalar_register}
use remill_tester.XedMetadata.{XedMetadata, XedMemoryOperand}
use remill_tester.Tester.Operands.{descriptor_source_selector, destination_width_bits}

unfoldable pub any_operand : List XedMemoryOperand → Bool
any_operand [] = false
any_operand (o ∷ operands) = (o.reads || o.writes) || any_operand operands

unfoldable pub requires_memory_oracle : XedMetadata → Bool
unfolding any_operand
requires_memory_oracle metadata = any_operand metadata.memory_operands

-- A name of three characters, `a`, `b` and a digit from 0 to 7.
abbrev register_name : ℕ → ℕ → Text → Bool
register_name a b key =
    length key == 3
    && get_or key 0 0 == a
    && get_or key 1 0 == b
    && (leb b'0' (get_or key 2 0) && leb (get_or key 2 0) b'7')

unfoldable pub is_x87_stack_register : Text → Bool
is_x87_stack_register = register_name b's' b't'

-- Ten bytes: a significand of eight, and the sign and the exponent.
unfoldable pub is_unsupported_x87_stack_value : List ℕ → Bool
is_unsupported_x87_stack_value bytes =
    let significand = join_bytes 0 (take 8 bytes) 0 in
    let exponent = bit_and (bit_or (get_or bytes 8 0) (get_or bytes 9 0 * 2 ^ 8) % 2 ^ 16) 0x7fff in
    let integer_bit = not (significand / 2 ^ 63 == 0) in
    if not (length bytes == 10)
    then false
    else if exponent == 0
    then not (significand == 0)
    else not (exponent == 0x7fff) && not integer_bit

unfoldable pub any_unsupported_x87 : ByteValues → Bool
any_unsupported_x87 [] = false
any_unsupported_x87 ((raw_key, bytes) ∷ entries) =
    (is_x87_stack_register (canonical_state_key raw_key) && is_unsupported_x87_stack_value bytes)
    || any_unsupported_x87 entries

unfoldable pub has_unsupported_x87_stack_value : ExpectationRow → Bool
unfolding any_unsupported_x87
has_unsupported_x87_stack_value row = any_unsupported_x87 row.initial_bytes

unfoldable pub is_fpu_unsupported : XedMetadata → ExpectationRow → Bool
is_fpu_unsupported metadata row =
    if member metadata.iclass (codes "FXCH" ∷ codes "FABS" ∷ codes "FCHS" ∷ codes "FST" ∷ [])
      || starts_with metadata.iclass (codes "FCMOV")
    then has_unsupported_x87_stack_value row
    else if member metadata.iclass (
        codes "FXAM"
        ∷ codes "FNSTSW"
        ∷ codes "FNINIT"
        ∷ codes "FNCLEX"
        ∷ codes "FDECSTP"
        ∷ codes "FINCSTP"
        ∷ codes "FFREE"
        ∷ codes "FFREEP"
        ∷ [])
    then false
    else same metadata.extension (codes "X87") || starts_with metadata.category (codes "X87")

unfoldable pub is_mmx_state_key : Text → Bool
is_mmx_state_key raw_key = register_name b'm' b'm' (to_lower (canonical_state_key raw_key))

unfoldable pub any_mmx {ℓ} : {V : Type ℓ} → List (Text × V) → Bool
any_mmx [] = false
any_mmx ((key, value) ∷ entries) = is_mmx_state_key key || any_mmx entries

unfoldable pub uses_mmx_state : ExpectationRow → Bool
unfolding any_mmx
uses_mmx_state row =
    any_mmx row.initial_state
    || any_mmx row.initial_bytes
    || any_mmx (value_or row.expected_final_state [])
    || any_mmx row.expected_final_bytes

unfoldable pub is_privileged_or_io_unsupported : XedMetadata → Bool
is_privileged_or_io_unsupported metadata =
    same metadata.category (codes "IO")
    || member metadata.iclass (
        codes "CLI"
        ∷ codes "STI"
        ∷ codes "HLT"
        ∷ codes "IN"
        ∷ codes "OUT"
        ∷ codes "INSB"
        ∷ codes "INSW"
        ∷ codes "INSD"
        ∷ codes "OUTSB"
        ∷ codes "OUTSW"
        ∷ codes "OUTSD"
        ∷ codes "LGDT"
        ∷ codes "LIDT"
        ∷ codes "LLDT"
        ∷ codes "LTR"
        ∷ codes "LMSW"
        ∷ codes "CLTS"
        ∷ codes "INVLPG"
        ∷ codes "WBINVD"
        ∷ codes "RDMSR"
        ∷ codes "WRMSR"
        ∷ codes "SWAPGS"
        ∷ codes "XSETBV"
        ∷ codes "CLAC"
        ∷ codes "STAC"
        ∷ [])

unfoldable pub is_environment_read_unsupported : XedMetadata → Bool
is_environment_read_unsupported metadata = member metadata.iclass (
    codes "RDTSC"
    ∷ codes "RDTSCP"
    ∷ codes "RDPMC"
    ∷ codes "RDPRU"
    ∷ codes "RDRAND"
    ∷ codes "RDSEED"
    ∷ codes "RDPID"
    ∷ codes "RDGSBASE"
    ∷ [])

-- The selectors 0x50 and 0x51.
abbrev pub is_variable_selector : ℕ → Bool
is_variable_selector selector = selector == 0x50 || selector == 0x51

unfoldable pub any_variable_selector : Scalars → Bool
any_variable_selector [] = false
any_variable_selector ((raw_key, value) ∷ entries) =
    (is_scalar_register (canonical_state_key raw_key) && is_variable_selector (value % 2 ^ 16))
    || any_variable_selector entries

unfoldable pub has_variable_descriptor_selector : ExpectationRow → Bool
unfolding any_variable_selector
has_variable_descriptor_selector row = elim (descriptor_source_selector row) [
  | some selector ↦ is_variable_selector selector
  | none ↦ any_variable_selector row.initial_state
]

-- The exemption of LAR: selector 0x50 into a 16-bit destination.
unfoldable pub is_stable_lar : XedMetadata → ExpectationRow → Bool
is_stable_lar metadata row =
    same metadata.iclass (codes "LAR") && (elim (descriptor_source_selector row) [
      | none ↦ false
      | some selector ↦ selector == 0x50 && destination_width_bits row.instruction == 16
    ])

unfoldable pub is_descriptor_state_unsupported : XedMetadata → ExpectationRow → Bool
unfolding is_stable_lar
is_descriptor_state_unsupported metadata row =
    if same metadata.iclass (codes "LAR") || same metadata.iclass (codes "LSL")
    then (if is_stable_lar metadata row then false else has_variable_descriptor_selector row)
    else false

-- Two sets that are empty.
unfoldable pub is_approximate_fp_unsupported : XedMetadata → Bool
is_approximate_fp_unsupported metadata = member metadata.iclass []

unfoldable pub is_sha_unsupported : XedMetadata → Bool
is_sha_unsupported metadata = member metadata.iclass []

unfoldable pub is_expected_exception_unsupported : XedMetadata → ExpectationRow → Bool
is_expected_exception_unsupported metadata row =
    if not (has_value row.expected_exception_kind)
    then false
    else not (same metadata.iclass (codes "DIV")) && not (same metadata.iclass (codes "IDIV"))

unfoldable pub is_atomic128_unsupported : XedMetadata → Bool
is_atomic128_unsupported metadata = same metadata.iclass (codes "CMPXCHG16B")

unfoldable pub is_popfq_unsupported : XedMetadata → Bool
is_popfq_unsupported metadata = same metadata.iclass (codes "POPFQ")
