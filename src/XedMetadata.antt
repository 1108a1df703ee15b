-- ===== src/XedMetadata.antt =====
-- src/xed_metadata.hpp and src/xed_metadata.cpp: the decoder's view of an instruction. XED itself is
-- a parameter: what `xed_decode` and the queries on a decoded instruction answer for some bytes.
pub mod Disjoint
use remill_tester.Base.{
  ℕ, bit_and, Bool, true, false, ◌||◌, List, [], Option, none, some, ltb, ◌==◌, not32,
  if◌then◌else◌, length,
}
use remill_tester.Base.Text.{Text, codes}
use remill_tester.FlagMasks.{user_rflags_mask}

pub record XedMemoryOperand : Type 0 where
  pub index : ℕ
  pub length : ℕ
  pub address_width : ℕ
  pub reads : Bool
  pub writes : Bool
  pub writes_only : Bool

pub record XedMetadata : Type 0 where
  pub ok : Bool
  pub error : Text
  pub length : ℕ
  pub operand_width : ℕ
  pub iclass : Text
  pub iform : Text
  pub category : Text
  pub extension : Text
  pub read_flags : ℕ
  pub written_flags : ℕ
  pub undefined_flags : ℕ
  pub comparable_written_flags : ℕ
  pub memory_operands : List XedMemoryOperand

abbrev pub fresh_metadata : XedMetadata
fresh_metadata = record {
  ok = false;
  error = [];
  length = 0;
  operand_width = 0;
  iclass = [];
  iform = [];
  category = [];
  extension = [];
  read_flags = 0;
  written_flags = 0;
  undefined_flags = 0;
  comparable_written_flags = 0;
  memory_operands = [];
}

-- The flag sets of an instruction, where XED has them: the `flat` words of the three sets.
pub record XedFlags : Type 0 where
  pub read : Option ℕ
  pub written : Option ℕ
  pub undefined : Option ℕ

-- What XED answers for an instruction that it decodes.
pub record XedInstruction : Type 0 where
  pub length : ℕ
  pub operand_width : ℕ
  pub iclass : Text
  pub iform : Text
  pub category : Text
  pub extension : Text
  pub flags : Option XedFlags
  pub memory_operands : List XedMemoryOperand

pub data XedAnswer : Type 0 where
  failed : Text → XedAnswer
  decoded : XedInstruction → XedAnswer

-- A flag set cut down to the user flags, or the 0 that the field starts with.
abbrev pub user_flags_of : Option ℕ → ℕ
user_flags_of none = 0
user_flags_of (some flat) = bit_and flat user_rflags_mask

unfoldable pub with_flags : XedMetadata → Option XedFlags → XedMetadata
with_flags m none = m
with_flags m (some flags) =
    let written = user_flags_of flags.written in
    let undefined = user_flags_of flags.undefined in
    record m {
      read_flags = user_flags_of flags.read;
      written_flags = written;
      undefined_flags = undefined;
      comparable_written_flags = bit_and (bit_and written (not32 undefined)) user_rflags_mask;
    }

unfoldable pub metadata_of : XedAnswer → XedMetadata
unfolding with_flags
metadata_of (failed error) = record fresh_metadata { error = error }
metadata_of (decoded x) = record (with_flags fresh_metadata x.flags) {
  ok = true;
  length = x.length;
  operand_width = x.operand_width;
  iclass = x.iclass;
  iform = x.iform;
  category = x.category;
  extension = x.extension;
  memory_operands = x.memory_operands;
}

-- XedDecoder::Decode; the address is not used.
unfoldable pub decode : (List ℕ → XedAnswer) → ℕ → List ℕ → XedMetadata
unfolding metadata_of
decode xed address bytes =
    if length bytes == 0 || ltb 15 (length bytes)
    then record fresh_metadata { error = codes "opcode length must be between 1 and 15 bytes" }
    else metadata_of (xed bytes)
