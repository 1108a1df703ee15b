-- ===== src/GuestMemory/Chunk.antt =====
-- Pages and chunks as arithmetic: the masks of PageBase and PageOffset, and what the chunk of one
-- round covers.
use remill_tester.Base.{
  ℕ, ◌+◌, ◌-◌, ◌*◌, ◌/◌, ◌%◌, ◌^◌, ◌≤◌, ◌<◌, ◌≡◌, arith, bit_and_mask, bit_and_high, add64,
}
use remill_tester.GuestMemory.{page_base, page_offset, chunk_at}

pub page_offset-mod : (a : ℕ) → page_offset a ≡ a % 4096
unfolding page_offset
page_offset-mod a = bit_and_mask 12 a

pub page_base-div : (a : ℕ) → a < 2 ^ 64 → page_base a ≡ a / 4096 * 4096
unfolding page_base
page_base-div a h =
    ground (arith, bit_and_high 12 (a / 4096) (a % 4096) (2 ^ 52 - 1), bit_and_mask 52 (a / 4096))

pub chunk_at-le : (remaining a : ℕ) → chunk_at remaining a ≤ remaining
unfolding chunk_at
chunk_at-le remaining a = omega arith

pub chunk_at_pos : (remaining a : ℕ) → 0 < remaining → 0 < chunk_at remaining a
unfolding chunk_at
chunk_at_pos remaining a h = omega (arith, page_offset-mod a)

-- The bytes of a chunk lie in one page, at consecutive offsets.
pub chunk_at-page_offset :
    (remaining a i : ℕ) → i < chunk_at remaining a → page_offset (a + i) ≡ page_offset a + i
unfolding chunk_at
chunk_at-page_offset remaining a i h = omega (arith, page_offset-mod a, page_offset-mod (a + i))

pub chunk_at-page_base :
    (remaining a i : ℕ)
    → a + remaining ≤ 2 ^ 64
    → i < chunk_at remaining a
    → page_base (a + i) ≡ page_base a
unfolding chunk_at
chunk_at-page_base remaining a i fits h =
    omega
      (arith, page_offset-mod a, page_base-div a (omega arith), page_base-div (a + i) (omega arith))

-- Two addresses of one page differ in their offsets.
pub page_inj :
    (a b : ℕ)
    → a < 2 ^ 64
    → b < 2 ^ 64
    → page_base a ≡ page_base b
    → page_offset a ≡ page_offset b
    → a ≡ b
page_inj a b ha hb p q =
    omega (arith, page_offset-mod a, page_offset-mod b, page_base-div a ha, page_base-div b hb)

-- The address of the next round, at the end of the address space 0 with nothing left to do.
pub chunk_at-next :
    (remaining a : ℕ)
    → a + remaining ≤ 2 ^ 64
    → add64 a (chunk_at remaining a) + (remaining - chunk_at remaining a) ≤ 2 ^ 64
chunk_at-next remaining a h = omega (arith, chunk_at-le remaining a)

pub chunk_at-shift :
    (remaining a i : ℕ)
    → a + remaining ≤ 2 ^ 64
    → chunk_at remaining a ≤ i
    → i < remaining
    → add64 a (chunk_at remaining a) + (i - chunk_at remaining a) ≡ a + i
chunk_at-shift remaining a i fits p q = omega (arith, chunk_at-le remaining a)
