-- ===== src/FlagMasks.antt =====
-- src/flag_masks.hpp and src/flag_masks.cpp: the RFLAGS bits that a user program sees.
use remill_tester.Base.{ℕ, ◌^◌, bit_and, bit_or, not, List, [], ◌∷◌, ◌++◌, ◌==◌, if◌then◌else◌}
use remill_tester.Base.Text.{Text, codes}

abbrev pub flag_cf : ℕ
flag_cf = 2 ^ 0

abbrev pub flag_pf : ℕ
flag_pf = 2 ^ 2

abbrev pub flag_af : ℕ
flag_af = 2 ^ 4

abbrev pub flag_zf : ℕ
flag_zf = 2 ^ 6

abbrev pub flag_sf : ℕ
flag_sf = 2 ^ 7

abbrev pub flag_tf : ℕ
flag_tf = 2 ^ 8

abbrev pub flag_if : ℕ
flag_if = 2 ^ 9

abbrev pub flag_df : ℕ
flag_df = 2 ^ 10

abbrev pub flag_of : ℕ
flag_of = 2 ^ 11

abbrev pub flag_iopl : ℕ
flag_iopl = bit_or (2 ^ 12) (2 ^ 13)

abbrev pub flag_nt : ℕ
flag_nt = 2 ^ 14

abbrev pub flag_rf : ℕ
flag_rf = 2 ^ 16

abbrev pub flag_ac : ℕ
flag_ac = 2 ^ 18

abbrev pub flag_id : ℕ
flag_id = 2 ^ 21

abbrev union : List ℕ → ℕ
union [] = 0
union (mask ∷ masks) = bit_or mask (union masks)

abbrev pub user_rflags_mask : ℕ
user_rflags_mask = union (
    flag_cf ∷ flag_pf ∷ flag_af ∷ flag_zf ∷ flag_sf ∷ flag_tf ∷ flag_if ∷ flag_df ∷ flag_of
    ∷ flag_iopl ∷ flag_nt ∷ flag_rf ∷ flag_ac ∷ flag_id ∷ [])

abbrev pub status_rflags_mask : ℕ
status_rflags_mask = union (flag_cf ∷ flag_pf ∷ flag_af ∷ flag_zf ∷ flag_sf ∷ flag_of ∷ [])

pub record FlagBitInfo : Type 0 where
  pub mask : ℕ
  pub name : Text

unfoldable pub user_flag_bits : List FlagBitInfo
user_flag_bits =
    record { mask = flag_cf; name = codes "CF" }
    ∷ record { mask = flag_pf; name = codes "PF" }
    ∷ record { mask = flag_af; name = codes "AF" }
    ∷ record { mask = flag_zf; name = codes "ZF" }
    ∷ record { mask = flag_sf; name = codes "SF" }
    ∷ record { mask = flag_tf; name = codes "TF" }
    ∷ record { mask = flag_if; name = codes "IF" }
    ∷ record { mask = flag_df; name = codes "DF" }
    ∷ record { mask = flag_of; name = codes "OF" }
    ∷ record { mask = 2 ^ 12; name = codes "IOPL[0]" }
    ∷ record { mask = 2 ^ 13; name = codes "IOPL[1]" }
    ∷ record { mask = flag_nt; name = codes "NT" }
    ∷ record { mask = flag_rf; name = codes "RF" }
    ∷ record { mask = flag_ac; name = codes "AC" }
    ∷ record { mask = flag_id; name = codes "ID" }
    ∷ []

-- The loop of FlagNamesFromMask.
unfoldable pub names_of_bits : List FlagBitInfo → ℕ → List Text
names_of_bits [] mask = []
names_of_bits (bit ∷ bits) mask =
    let rest = names_of_bits bits mask in
    if not (bit_and mask bit.mask == 0) then bit.name ∷ rest else rest

unfoldable pub flag_names_from_mask : ℕ → List Text
unfolding user_flag_bits names_of_bits
flag_names_from_mask mask = names_of_bits user_flag_bits mask

-- The loop of FormatFlagNames behind the first name.
unfoldable pub comma_names : List Text → Text
comma_names [] = []
comma_names (name ∷ names) = b',' ∷ (name ++ comma_names names)

unfoldable pub format_names : List Text → Text
unfolding comma_names
format_names [] = codes "-"
format_names (name ∷ names) = name ++ comma_names names

unfoldable pub format_flag_names : ℕ → Text
unfolding format_names
format_flag_names mask = format_names (flag_names_from_mask mask)
