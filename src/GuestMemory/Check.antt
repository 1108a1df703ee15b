-- ===== src/GuestMemory/Check.antt =====
-- CheckAccess against its byte-wise meaning.
use native.Mathlib.Decide.{dec_lt}
use remill_tester.Base.{
  ℕ, zero, suc, ◌+◌, ◌-◌, ◌^◌, ◌≤◌, ◌<◌, ◌≡◌, ◌∙◌, refl, arith, Bool, true, false, inl, inr, none,
  add64, suc-ne-zero, Option-cases, ◌↔◌, ap,
}
use remill_tester.Base.Text.{Text}
use remill_tester.GuestMemory.{
  GuestMemory, MemoryFaultKind, MemoryFault, set_fault, find_page, denial, chunk_at, overflows,
  check_loop, check_access,
}
use remill_tester.Base.Map.{word_key}
use remill_tester.GuestMemory.Contents.{permissions_at}
use remill_tester.GuestMemory.Chunk.{
  chunk_at-le, chunk_at_pos, chunk_at-page_base, chunk_at-next, chunk_at-shift,
}
use remill_tester.GuestMemory.Access.{
  Accessible, Denied, Denied-excludes, denial-Allows, denial-Denied,
}

abbrev pub fault_of : MemoryFaultKind → ℕ → ℕ → Text → Text → MemoryFault
fault_of kind address size operation detail = record {
  kind = kind;
  address = address;
  size = size;
  operation = operation;
  detail = detail;
}

-- The first denied byte of a range.
pub record FirstDenied (m : GuestMemory) (required address size : ℕ) : Type 0 where
  pub index : ℕ
  pub index-lt : index < size
  pub kind : MemoryFaultKind
  pub detail : Text
  pub here : Denied m required (address + index) kind detail
  pub earlier : Accessible m required address index

-- What a check of a range may answer: all bytes are accessible and nothing is recorded, or the
-- fault at the first byte that is denied.
pub data Checked (m : GuestMemory) (required : ℕ) (operation : Text) (address size : ℕ)
    : Bool × GuestMemory → Type 0 where
  granted :
      {r : Bool × GuestMemory}
      → Accessible m required address size
      → r ≡ (true, m)
      → Checked m required operation address size r
  refused :
      {r : Bool × GuestMemory} (d : FirstDenied m required address size) (chunk : ℕ)
      → r ≡ (false, set_fault m (fault_of d.kind (address + d.index) chunk operation d.detail))
      → Checked m required operation address size r

denial-chunk :
    (m : GuestMemory) (required remaining a i : ℕ)
    → a + remaining ≤ 2 ^ 64
    → i < chunk_at remaining a
    → denial m (a + i) required ≡ denial m a required
unfolding denial find_page
denial-chunk m required remaining a i fits h =
    rw (chunk_at-page_base remaining a i fits h, denial, find_page)

module _ (m : GuestMemory) (required : ℕ) (operation : Text) where
  Accessible-chunk :
      (remaining a size : ℕ)
      → a + remaining ≤ 2 ^ 64
      → size ≤ remaining
      → denial m a required ≡ none
      → Accessible m required (add64 a (chunk_at remaining a)) (size - chunk_at remaining a)
      → Accessible m required a size
  Accessible-chunk remaining a size fits le first rest i h =
      elim (dec_lt i (chunk_at remaining a)) [
        | yes p ↦
            denial-Allows m required (a + i) (denial-chunk m required remaining a i fits p ∙ first)
        | no p ↦
            rw (← chunk_at-shift remaining a i fits (omega arith) (omega arith))
              (rest (i - chunk_at remaining a) (omega arith))
      ]

  Checked-chunk :
      (remaining a : ℕ) {r : Bool × GuestMemory}
      → a + remaining ≤ 2 ^ 64
      → denial m a required ≡ none
      → Checked m required operation
          (add64 a (chunk_at remaining a))
          (remaining - chunk_at remaining a)
          r
      → Checked m required operation a remaining r
  Checked-chunk remaining a fits first (granted acc e) =
      granted (Accessible-chunk remaining a remaining fits (omega arith) first acc) e
  Checked-chunk remaining a fits first (refused d chunk e) =
      let k = chunk_at remaining a in
      let index-lt : d.index < remaining - k = d.index-lt in
      let there : add64 a k + d.index ≡ a + (k + d.index) =
        omega (arith, chunk_at-le remaining a) in
      let back : k + d.index - k ≡ d.index = omega arith in
      refused
        (record {
          index = k + d.index;
          index-lt = omega (arith, chunk_at-le remaining a);
          kind = d.kind;
          detail = d.detail;
          here = rw (← there) d.here;
          earlier =
              Accessible-chunk remaining a (k + d.index) fits
                (omega (arith, chunk_at-le remaining a)) first (rw back d.earlier);
        })
        chunk (rw (← there) e)

  -- With fuel for every byte the loop gives one of the two answers.
  pub check_loop-Checked :
      (fuel remaining a : ℕ)
      → remaining ≤ fuel
      → a + remaining ≤ 2 ^ 64
      → Checked m required operation a remaining (check_loop fuel m required operation remaining a)
  unfolding check_loop
  check_loop-Checked zero remaining a h fits = granted (λ i p. absurd (omega arith)) refl
  check_loop-Checked (suc fuel) zero a h fits = granted (λ i p. absurd (omega arith)) refl
  check_loop-Checked (suc fuel) (suc left) a h fits = elim (Option-cases (denial m a required)) [
    | inl free ↦
        rw (suc-ne-zero left, free)
          (Checked-chunk (suc left) a fits free (
            check_loop-Checked fuel (suc left - chunk_at (suc left) a) _
              (omega (arith, chunk_at_pos (suc left) a (omega arith)))
              (chunk_at-next (suc left) a fits)))
    | inr (d, denied) ↦
        let e : a + 0 ≡ a = omega arith in
        rw (suc-ne-zero left, denied)
          (refused
            (record {
              index = 0;
              index-lt = omega arith;
              kind = d.0;
              detail = d.1;
              here = rw e (denial-Denied m required a d.0 d.1 denied);
              earlier = λ i p. absurd (omega arith);
            })
            (chunk_at (suc left) a) (rw (e, permissions_at) refl))
  ]

check_loop-zero :
    (m : GuestMemory) (required : ℕ) (operation : Text) (a : ℕ)
    → check_loop 0 m required operation 0 a ≡ (true, m)
unfolding check_loop
check_loop-zero m required operation a = refl

module _ (m : GuestMemory) (required : ℕ) (operation : Text) (address size : ℕ) where
  check_access-fits :
      size ≤ 2 ^ 64
      → address + size ≤ 2 ^ 64
      → check_access m address size required operation
        ≡ check_loop size m required operation size address
  unfolding check_access overflows
  check_access-fits small fits = ground (arith, check_loop-zero m required operation address)

  check_access-overflow :
      address < 2 ^ 64
      → size < 2 ^ 64
      → 2 ^ 64 < address + size
      → (check_access m address size required operation).0 ≡ false
  unfolding check_access overflows
  check_access-overflow ha hs past = ground arith

  -- For an address below 2^64 and a range that ends at 2^64 at most, CheckAccess gives the
  -- byte-wise answer: access is granted, with the memory as it was, and every byte is mapped with
  -- the required permission, or access is refused and the fault reported names the first byte that
  -- is not.
  pub check_access-Checked :
      address < 2 ^ 64
      → address + size ≤ 2 ^ 64
      → Checked m required operation address size (check_access m address size required operation)
  check_access-Checked ha fits =
      rw (check_access-fits (omega arith) fits)
        (check_loop-Checked m required operation size size address (omega arith) fits)

  -- For an address and a size below 2^64, CheckAccess grants access if and only if the range ends at
  -- 2^64 at most and each of its bytes is mapped with the required permission bits.
  pub check_access-Accessible :
      address < 2 ^ 64
      → size < 2 ^ 64
      → ((check_access m address size required operation).0 ≡ true)
        ↔ ((address + size ≤ 2 ^ 64) × Accessible m required address size)
  check_access-Accessible ha hs = (granted_fits, fits_granted)
    where
      when_fits :
          {r : Bool × GuestMemory}
          → Checked m required operation address size r
          → r.0 ≡ true
          → Accessible m required address size
      when_fits (granted acc e) yes_ = acc
      when_fits (refused d chunk e) yes_ = absurd (ground (arith, e, yes_))

      when_accessible :
          {r : Bool × GuestMemory}
          → Checked m required operation address size r
          → Accessible m required address size
          → r.0 ≡ true
      when_accessible (granted acc e) all = ap (λ (r : Bool × GuestMemory). r.0) e
      when_accessible (refused d chunk e) all =
          absurd (Denied-excludes d.here (all d.index d.index-lt))

      granted_fits :
          (check_access m address size required operation).0 ≡ true
          → (address + size ≤ 2 ^ 64) × Accessible m required address size
      granted_fits answer = elim (dec_lt (2 ^ 64) (address + size)) [
        | yes past ↦ absurd (ground (arith, check_access-overflow ha hs past, answer))
        | no within ↦ (omega arith, when_fits (check_access-Checked ha (omega arith)) answer)
      ]

      fits_granted :
          (address + size ≤ 2 ^ 64) × Accessible m required address size
          → (check_access m address size required operation).0 ≡ true
      fits_granted (fits, all) = when_accessible (check_access-Checked ha fits) all
