-- ===== src/Tests/Words.antt =====
-- Keys, registers, flags and the memory intrinsics at concrete values.
use remill_tester.Base.{
  ℕ, ◌≡◌, ◌≢◌, refl, arith, true, List, [], ◌∷◌, some, bit_or, bit_and, none, if◌then◌else◌, All,
  ◌++◌,
}
use remill_tester.Base.Text.{Text, codes, same, starts_with}
use remill_tester.Base.Map.{find, assign, text_key, word_key}
use remill_tester.GuestMemory.MemoryPermissions
use remill_tester.GuestMemory.{
  GuestMemory, MemoryFault, empty_memory, map_range, grants, check_access, overflows, check_loop,
  denial, find_page, page_base, page_offset, chunk_at, map_loop,
}
use remill_tester.GuestMemory.Transfer.{read, read_loop, load_chunk, read_little_endian}
use remill_tester.GuestMemory.Access.{Accessible}
use remill_tester.GuestMemory.Mapping.{map_range-Accessible}
use remill_tester.Base.Chars.{lower_char, scan_digits, digit_value, is_digit_of, is_digit}
use remill_tester.Base.LittleEndian.{join_bytes}
use remill_tester.XedMetadata.{XedInstruction, XedAnswer, decode}
use remill_tester.XedMetadata.Disjoint.{decode-disjoint}
use remill_tester.Base.Result.{ok}
use remill_tester.Comparator.Compare.{bytes_to_hex}
use remill_tester.Parser.Hex.{parse_hex_bytes-bytes_to_hex}
use remill_tester.Parser.Strings.{parse_hex_bytes, split, trim, to_lower}
use remill_tester.Parser.Splitting.{join, Lacks, join-split, split-join}
use remill_tester.Parser.Trimming.{HasHead, HasLast, Spaces, trim-takes}
use remill_tester.StateBridge.{
  zero_state, set_scalar_register, get_scalar_register, set_byte_register, get_byte_register,
  set_flags, get_flags, parse_byte_register_name, register_index,
}
use remill_tester.StateBridge.Registers.{
  get_scalar_register-set_scalar_register, get_byte_register-set_byte_register,
}
use remill_tester.StateBridge.Flags.{get_flags-set_flags}
use remill_tester.Intrinsics.{Operation, operate, fetch_and_op, compare_exchange, read_memory}
use remill_tester.Intrinsics.Calls.{Width, Call, perform_all}
use remill_tester.Intrinsics.Refines.{perform_all-Reach}
use remill_tester.GuestMemory.Fault.{Reach}
use remill_tester.Intrinsics.Atomic.{
  Undoes, fetch_and_op_undone, fetch_and_op-updates, compare_exchange-swaps,
}

join-split_example :
    (join b',' (split (codes "rax,rbx,") b',') ≡ codes "rax,rbx,")
    × All (Lacks b',') (split (codes "rax,rbx,") b',')
    × (split (codes "rax,rbx,") b',' ≢ [])
join-split_example = join-split (codes "rax,rbx,") b','

split-join_example : split (join b',' (codes "rax" ∷ [] ∷ [])) b',' ≡ codes "rax" ∷ [] ∷ []
split-join_example =
    split-join b',' (codes "rax" ∷ [] ∷ []) (λ e. cc e) ((refl, (refl, (refl, tt))), (tt, tt))

trim-takes_example :
    ((front : Text) × (back : Text) × Spaces front
      × Spaces back
      × (codes " rax " ≡ front ++ (trim (codes " rax ") ++ back)))
    × HasHead (trim (codes " rax "))
    × HasLast (trim (codes " rax "))
trim-takes_example = trim-takes (codes " rax ")

get_scalar_register-set_scalar_register_example :
    get_scalar_register (set_scalar_register zero_state (codes "RBX") 7).1 (codes "rbx") ≡ (
      if same (to_lower (codes "RBX")) (to_lower (codes "rbx"))
      then some 7
      else get_scalar_register zero_state (codes "rbx"))
unfolding set_scalar_register find to_lower same lower_char
get_scalar_register-set_scalar_register_example =
    get_scalar_register-set_scalar_register zero_state (codes "RBX") (codes "rbx") 7 refl

abbrev lanes : List ℕ
lanes = 1 ∷ 2 ∷ 3 ∷ 4 ∷ 5 ∷ 6 ∷ 7 ∷ 8 ∷ []

get_byte_register-set_byte_register_example :
    get_byte_register 32 (set_byte_register 32 zero_state (codes "MM3") lanes).1 (codes "MM3")
    ≡ some lanes
unfolding set_byte_register parse_byte_register_name register_index to_lower lower_char starts_with
    same scan_digits digit_value is_digit_of is_digit
get_byte_register-set_byte_register_example =
    get_byte_register-set_byte_register 32 zero_state (codes "MM3") lanes refl

get_flags-set_flags_example : get_flags (set_flags zero_state 0x8d5) ≡ bit_or 0x8d5 2
get_flags-set_flags_example = get_flags-set_flags zero_state 0x8d5 (omega arith)

abbrev page : GuestMemory
page = (map_range empty_memory 0x1000 8 MemoryPermissions.read_write).1

allowed :
    (required : ℕ)
    → bit_and MemoryPermissions.read_write required ≡ required
    → Accessible page required 0x1000 8
allowed required granted =
    map_range-Accessible empty_memory 0x1000 8 MemoryPermissions.read_write required (omega arith)
      (omega arith) granted

zero_word : read_little_endian page 0x1000 8 ≡ (true, 0, page)
unfolding read_little_endian read check_access overflows check_loop denial find_page find assign
    same page_base page_offset chunk_at grants read_loop load_chunk map_range map_loop join_bytes
zero_word = refl

fetch_and_op-updates_example :
    ((fetch_and_op Operation.sub 8 (some page) 0x1000 1).0 ≡ 0)
    × ((read_memory 8 (fetch_and_op Operation.sub 8 (some page) 0x1000 1).1 0x1000).0
        ≡ operate Operation.sub 8 0 1)
fetch_and_op-updates_example =
    fetch_and_op-updates page 0x1000 8 0 Operation.sub 1 (omega arith) (omega arith)
      (allowed MemoryPermissions.write refl) (allowed MemoryPermissions.read refl) zero_word

fetch_and_op_undone_example :
    let first = (fetch_and_op Operation.sub 8 (some page) 0x1000 1).1 in
    let (stored, second) = fetch_and_op Operation.add 8 first 0x1000 1 in
    (stored ≡ (read_memory 8 first 0x1000).0) × ((read_memory 8 second 0x1000).0 ≡ 0)
fetch_and_op_undone_example =
    fetch_and_op_undone page 0x1000 8 0 Operation.sub Operation.add 1 Undoes.add_sub (omega arith)
      (omega arith) (omega arith) (omega arith) (allowed MemoryPermissions.write refl)
      (allowed MemoryPermissions.read refl) zero_word

compare_exchange-swaps_example :
    (◌≡◌ {A = ℕ} 0 5
      → ((compare_exchange 8 (some page) 0x1000 5 6).0 ≡ 5)
        × ((read_memory 8 (compare_exchange 8 (some page) 0x1000 5 6).1 0x1000).0 ≡ 6))
    × (◌≢◌ {A = ℕ} 0 5 → compare_exchange 8 (some page) 0x1000 5 6 ≡ (0, some page))
compare_exchange-swaps_example =
    compare_exchange-swaps page 0x1000 8 0 5 6 (omega arith) (omega arith) (omega arith)
      (allowed MemoryPermissions.write refl) (allowed MemoryPermissions.read refl) zero_word

parse_hex_bytes-bytes_to_hex_example :
    parse_hex_bytes (bytes_to_hex (0x4c ∷ 0xf0 ∷ [])) ≡ ok (0x4c ∷ 0xf0 ∷ [])
parse_hex_bytes-bytes_to_hex_example =
    parse_hex_bytes-bytes_to_hex (0x4c ∷ 0xf0 ∷ []) (omega arith, (omega arith, tt))

-- SHL by a count: CF, PF, ZF, SF and OF are written, and AF is undefined.
abbrev shl : XedInstruction
shl = record {
  length = 3;
  operand_width = 64;
  iclass = codes "SHL";
  iform = codes "SHL_GPRv_CL_D3r4";
  category = codes "SHIFT";
  extension = codes "BASE";
  flags = some (record { read = none; written = some 0x8d5; undefined = some 0x10 });
  memory_operands = [];
}

abbrev answer : List ℕ → XedAnswer
answer bytes = XedAnswer.decoded shl

decode-disjoint_example :
    bit_and
      (decode answer 0x1000 (0x48 ∷ 0xd3 ∷ 0xe0 ∷ [])).comparable_written_flags
      (decode answer 0x1000 (0x48 ∷ 0xd3 ∷ 0xe0 ∷ [])).undefined_flags
    ≡ 0
decode-disjoint_example = decode-disjoint answer 0x1000 (0x48 ∷ 0xd3 ∷ 0xe0 ∷ [])

-- A write, an addition to it, a verdict on a selector and an unknown hypercall; the codes of the
-- two known ones are 1 and 2.
abbrev calls : List (Call 1 2)
calls =
    Call.writing Width.word_32 0x1000 7
    ∷ Call.fetching Operation.add Width.word_32 0x1000 5
    ∷ Call.hyper_sync 1
    ∷ Call.hyper_sync 3
    ∷ []

perform_all-Reach_example :
    (m' : GuestMemory) × ((perform_all 1 2 calls (some zero_state, some page)).1 ≡ some m')
    × Reach page m'
    × ((f : MemoryFault) → page.last_fault ≡ some f → m'.last_fault ≡ some f)
perform_all-Reach_example = perform_all-Reach 1 2 calls (some zero_state) page
