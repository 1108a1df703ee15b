-- ===== src/StateBridge.antt =====
-- src/remill_state_bridge.hpp and src/remill_state_bridge.cpp: named registers of Remill's `State`.
-- `State` is declared by Remill. Here it is the members that the bridge reads or writes, as
-- independent members: the general registers by name, the bytes of the vector, MMX and x87 stack
-- registers by index and offset, the arithmetic flags, RFLAGS, and the x87 status words and bits.
-- The number of vector registers, `kNumVecRegisters`, is Remill's too, and a parameter.
pub mod Sparse
pub mod Registers
pub mod Flags
use remill_tester.Base.{
  ℕ, ◌+◌, ◌-◌, ◌*◌, ◌/◌, ◌^◌, ◌%◌, bit_and, bit_or, Bool, true, false, not, ◌&&◌, ◌||◌, List, [],
  ◌∷◌, ◌++◌, map, Option, none, some, ltb, leb, ◌==◌, not64, if◌then◌else◌, has_value, length,
  get_or, drop,
}
use remill_tester.Base.Text.{Text, codes, same, starts_with, member}
use remill_tester.Base.Map.{find, assign, text_key}
use remill_tester.Base.Chars.{scan_digits}
use remill_tester.Expectation.{Scalars, ByteValues}
use remill_tester.FlagMasks.{flag_cf, flag_pf, flag_af, flag_zf, flag_sf, flag_df, flag_of}
use remill_tester.GuestMemory.Transfer.{window}
use remill_tester.Parser.Strings.{to_lower, canonical_state_key}

pub data Gpr : Type 0 where
  rax rbx rcx rdx rsi rdi rsp rbp r8 r9 r10 r11 r12 r13 r14 r15 rip : Gpr

pub data ByteRegisterKind : Type 0 where
  vector mmx x87_stack : ByteRegisterKind

pub record ByteRegisterInfo : Type 0 where
  pub kind : ByteRegisterKind
  pub index : ℕ
  pub size : ℕ

-- `state.aflag`.
pub record ArithFlags : Type 0 where
  pub cf : Bool
  pub pf : Bool
  pub af : Bool
  pub zf : Bool
  pub sf : Bool
  pub df : Bool
  pub of : Bool

-- `state.sw`, one number for each of its bits.
pub record StatusBits : Type 0 where
  pub ie : ℕ
  pub de : ℕ
  pub ze : ℕ
  pub oe : ℕ
  pub ue : ℕ
  pub pe : ℕ
  pub sf : ℕ
  pub c0 : ℕ
  pub c1 : ℕ
  pub c2 : ℕ
  pub c3 : ℕ

pub record State : Type 0 where
  pub gpr : Gpr → ℕ
  pub register_bytes : ByteRegisterKind → ℕ → ℕ → ℕ
  pub rflag : ℕ
  pub aflag : ArithFlags
  pub sw : StatusBits
  pub fxsave_swd : ℕ
  pub fsave_swd : ℕ
  pub addr_to_load : ℕ

-- The names with the members that the two macros pair them with.
abbrev pub registers : List (Text × Gpr)
registers =
    (codes "rax", rax)
    ∷ (codes "rbx", rbx)
    ∷ (codes "rcx", rcx)
    ∷ (codes "rdx", rdx)
    ∷ (codes "rsi", rsi)
    ∷ (codes "rdi", rdi)
    ∷ (codes "rsp", rsp)
    ∷ (codes "rbp", rbp)
    ∷ (codes "r8", r8)
    ∷ (codes "r9", r9)
    ∷ (codes "r10", r10)
    ∷ (codes "r11", r11)
    ∷ (codes "r12", r12)
    ∷ (codes "r13", r13)
    ∷ (codes "r14", r14)
    ∷ (codes "r15", r15)
    ∷ (codes "rip", rip)
    ∷ []

unfoldable pub scalar_register_names : List Text
scalar_register_names = map (λ (e : Text × Gpr). e.0) registers

unfoldable pub is_scalar_register : Text → Bool
unfolding scalar_register_names
is_scalar_register name = member (to_lower name) scalar_register_names

abbrev pub gpr_code : Gpr → ℕ
gpr_code rax = 0
gpr_code rbx = 1
gpr_code rcx = 2
gpr_code rdx = 3
gpr_code rsi = 4
gpr_code rdi = 5
gpr_code rsp = 6
gpr_code rbp = 7
gpr_code r8 = 8
gpr_code r9 = 9
gpr_code r10 = 10
gpr_code r11 = 11
gpr_code r12 = 12
gpr_code r13 = 13
gpr_code r14 = 14
gpr_code r15 = 15
gpr_code rip = 16

-- `state.gpr.r.qword = value`.
unfoldable pub set_gpr : State → Gpr → ℕ → State
set_gpr s r value = record s { gpr = λ q. if gpr_code r == gpr_code q then value else s.gpr q }

unfoldable pub set_scalar_register : State → Text → ℕ → Bool × State
unfolding set_gpr
set_scalar_register s raw_name value = elim (find (to_lower raw_name) registers) [
  | none ↦ (false, s)
  | some r ↦ (true, set_gpr s r value)
]

unfoldable pub get_scalar_register : State → Text → Option ℕ
get_scalar_register s raw_name = elim (find (to_lower raw_name) registers) [
  | none ↦ none
  | some r ↦ some (s.gpr r)
]

-- `std::from_chars` in base 10 over a whole text, with the test of the index behind it.
unfoldable pub register_index : Text → ℕ → Option ℕ
register_index text limit =
    let (index, rest) = scan_digits 10 0 text in
    if same text []
    then none
    else if not (same rest []) || ltb (2 ^ 64 - 1) index || leb limit index
    then none
    else some index

abbrev pub info_of : ByteRegisterKind → ℕ → Option ℕ → Option ByteRegisterInfo
info_of kind size none = none
info_of kind size (some index) = some (record { kind = kind; index = index; size = size })

module _ (num_vec_registers : ℕ) where
  unfoldable pub parse_byte_register_name : Text → Option ByteRegisterInfo
  unfolding register_index
  parse_byte_register_name raw_name =
      let name = to_lower raw_name in
      if starts_with name (codes "xmm")
      then info_of vector 16 (register_index (drop 3 name) num_vec_registers)
      else if starts_with name (codes "ymm")
      then info_of vector 32 (register_index (drop 3 name) num_vec_registers)
      else if starts_with name (codes "zmm")
      then info_of vector 64 (register_index (drop 3 name) num_vec_registers)
      else if starts_with name (codes "mm")
      then info_of mmx 8 (register_index (drop 2 name) 8)
      else if starts_with name (codes "st")
      then info_of x87_stack 10 (register_index (drop 2 name) 8)
      else none

  unfoldable pub is_byte_register : Text → Bool
  is_byte_register name = has_value (parse_byte_register_name name)

abbrev pub kind_code : ByteRegisterKind → ℕ
kind_code vector = 0
kind_code mmx = 1
kind_code x87_stack = 2

-- `memcpy` of all the bytes to the start of a register.
unfoldable pub set_register_bytes : State → ByteRegisterKind → ℕ → List ℕ → State
set_register_bytes s kind index bytes = record s {
  register_bytes = λ k i o.
      if kind_code kind == kind_code k && index == i && ltb o (length bytes)
      then get_or bytes o 0
      else s.register_bytes k i o;
}

module _ (num_vec_registers : ℕ) where
  unfoldable pub set_byte_register : State → Text → List ℕ → Bool × State
  unfolding set_register_bytes
  set_byte_register s name bytes = elim (parse_byte_register_name num_vec_registers name) [
    | none ↦ (false, s)
    | some info ↦
        if not (length bytes == info.size)
        then (false, s)
        else (true, set_register_bytes s info.kind info.index bytes)
  ]

  unfoldable pub get_byte_register : State → Text → Option (List ℕ)
  get_byte_register s name = elim (parse_byte_register_name num_vec_registers name) [
    | none ↦ none
    | some info ↦ some (window (s.register_bytes info.kind info.index) 0 info.size)
  ]

-- `(status >> k) & 1u`.
abbrev pub bit_of : ℕ → ℕ → ℕ
bit_of status k = bit_and (status / 2 ^ k) 1

unfoldable pub set_x87_status : State → ℕ → State
set_x87_status s value =
    let status = bit_and value 0x7f7f % 2 ^ 16 in
    record s {
      fxsave_swd = status;
      fsave_swd = status;
      sw = record {
        ie = bit_of status 0;
        de = bit_of status 1;
        ze = bit_of status 2;
        oe = bit_of status 3;
        ue = bit_of status 4;
        pe = bit_of status 5;
        sf = bit_of status 6;
        c0 = bit_of status 8;
        c1 = bit_of status 9;
        c2 = bit_of status 10;
        c3 = bit_of status 14;
      };
    }

-- `status |= (bit & 1u) << k`.
abbrev pub or_bit : ℕ → ℕ → ℕ → ℕ
or_bit status bit k = bit_or status (bit_and bit 1 * 2 ^ k)

unfoldable pub get_x87_status : State → ℕ
get_x87_status s =
    let status0 = bit_and s.fxsave_swd 0x3800 in
    let status1 = or_bit (or_bit (or_bit status0 s.sw.ie 0) s.sw.de 1) s.sw.ze 2 in
    let status2 = or_bit (or_bit (or_bit status1 s.sw.oe 3) s.sw.ue 4) s.sw.pe 5 in
    let status3 = or_bit (or_bit (or_bit status2 s.sw.sf 6) s.sw.c0 8) s.sw.c1 9 in
    or_bit (or_bit status3 s.sw.c2 10) s.sw.c3 14

abbrev pub any_bit : ℕ → ℕ → Bool
any_bit flags mask = not (bit_and flags mask == 0)

unfoldable pub set_flags : State → ℕ → State
set_flags s flags = record s {
  rflag = bit_or flags 2;
  aflag = record {
    cf = any_bit flags flag_cf;
    pf = any_bit flags flag_pf;
    af = any_bit flags flag_af;
    zf = any_bit flags flag_zf;
    sf = any_bit flags flag_sf;
    df = any_bit flags flag_df;
    of = any_bit flags flag_of;
  };
}

unfoldable pub set_or_clear : ℕ → ℕ → Bool → ℕ
set_or_clear flags mask value = if value then bit_or flags mask else bit_and flags (not64 mask)

unfoldable pub get_flags : State → ℕ
get_flags s =
    let flags0 = bit_or s.rflag 2 in
    let flags1 = set_or_clear flags0 flag_cf s.aflag.cf in
    let flags2 = set_or_clear flags1 flag_pf s.aflag.pf in
    let flags3 = set_or_clear flags2 flag_af s.aflag.af in
    let flags4 = set_or_clear flags3 flag_zf s.aflag.zf in
    let flags5 = set_or_clear flags4 flag_sf s.aflag.sf in
    let flags6 = set_or_clear flags5 flag_df s.aflag.df in set_or_clear flags6 flag_of s.aflag.of

abbrev pub zero_state : State
zero_state = record {
  gpr = λ r. 0;
  register_bytes = λ k i o. 0;
  rflag = 0;
  aflag = record {
    cf = false;
    pf = false;
    af = false;
    zf = false;
    sf = false;
    df = false;
    of = false;
  };
  sw = record {
    ie = 0;
    de = 0;
    ze = 0;
    oe = 0;
    ue = 0;
    pe = 0;
    sf = 0;
    c0 = 0;
    c1 = 0;
    c2 = 0;
    c3 = 0;
  };
  fxsave_swd = 0;
  fsave_swd = 0;
  addr_to_load = 0;
}

-- ResetState, whatever the state was.
unfoldable pub reset_state : State → State
unfolding set_flags
reset_state s = set_flags zero_state 0
