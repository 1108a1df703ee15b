-- ===== src/XedMetadata/Disjoint.antt =====
-- The flags that are compared against those that an instruction leaves undefined.
use remill_tester.Base.{ℕ, ◌^◌, ◌<◌, ◌≡◌, refl, arith, bit_and, List, Option, none, some}
use remill_tester.Base.Bits.Complement.{bit_and-not32, bit_and-lt}
use remill_tester.FlagMasks.{user_rflags_mask}
use remill_tester.XedMetadata.{
  fresh_metadata, XedFlags, XedAnswer, user_flags_of, with_flags, metadata_of, decode,
}

user_flags_of-lt : (flat : Option ℕ) → user_flags_of flat < 2 ^ 32
user_flags_of-lt none = omega arith
user_flags_of-lt (some v) = bit_and-lt 32 v user_rflags_mask (omega arith)

with_flags-disjoint :
    (flags : Option XedFlags)
    → bit_and
        (with_flags fresh_metadata flags).comparable_written_flags
        (with_flags fresh_metadata flags).undefined_flags
      ≡ 0
unfolding with_flags
with_flags-disjoint none = refl
with_flags-disjoint (some flags) =
    bit_and-not32 (user_flags_of flags.written) (user_flags_of flags.undefined) user_rflags_mask
      (user_flags_of-lt flags.undefined)

metadata_of-disjoint :
    (answer : XedAnswer)
    → bit_and (metadata_of answer).comparable_written_flags (metadata_of answer).undefined_flags ≡ 0
unfolding metadata_of
metadata_of-disjoint (XedAnswer.failed error) = refl
metadata_of-disjoint (XedAnswer.decoded x) = with_flags-disjoint x.flags

-- Whatever XED answers, no flag that Decode lists as comparable is one that it lists as undefined.
pub decode-disjoint :
    (xed : List ℕ → XedAnswer) (address : ℕ) (bytes : List ℕ)
    → bit_and
        (decode xed address bytes).comparable_written_flags
        (decode xed address bytes).undefined_flags
      ≡ 0
unfolding decode
decode-disjoint xed address bytes = ground (arith, metadata_of-disjoint (xed bytes))
