-- ===== src/GuestMemory/Mapping.antt =====
-- What Map does to the pages of a range, and to no other.
use remill_tester.Base.{
  ℕ, zero, suc, ◌+◌, ◌-◌, ◌*◌, ◌/◌, ◌%◌, ◌^◌, ◌≤◌, ◌<◌, ◌≡◌, arith, Bool, true, false, ◌&&◌, Option,
  some, value_or, ltb, leb, ◌==◌, if◌then◌else◌, add64, sub64, bit_and,
}
use remill_tester.Base.Map.{find, assign, find-assign, word_key}
use remill_tester.GuestMemory.{
  Page, GuestMemory, blank_page, page_base, map_loop, map_range, overflows,
}
use remill_tester.GuestMemory.Access.{Accessible}
use remill_tester.GuestMemory.Chunk.{page_base-div}
use remill_tester.GuestMemory.Contents.{Pages, byte_at, byte_or_zero, permissions_at}

-- The page after Map has set its permissions: the old one, or a fresh one.
abbrev remapped : Option Page → ℕ → Page
remapped old permissions = record (value_or old blank_page) { permissions = permissions }

map_loop-find :
    (left : ℕ) (pages : Pages) (permissions cur last pb : ℕ)
    → last ≡ cur + left * 4096
    → last < 2 ^ 64
    → pb % 4096 ≡ cur % 4096
    → find pb (map_loop (suc left) pages permissions cur last) ≡ (
        if leb cur pb && leb pb last
        then some (remapped (find pb pages) permissions)
        else find pb pages)
unfolding map_loop
map_loop-find zero pages permissions cur last pb e small aligned =
    ground (arith, find-assign cur pb (remapped (find cur pages) permissions) pages)
map_loop-find (suc left) pages permissions cur last pb e small aligned =
    let pages' = assign cur (remapped (find cur pages) permissions) pages in
    let next : add64 cur 4096 ≡ cur + 4096 = omega arith in
    ground (
      arith,
      find-assign cur pb (remapped (find cur pages) permissions) pages,
      next,
      map_loop-find left pages' permissions (add64 cur 4096) last pb (omega arith) small
          (omega arith),
    )

-- `x` lies in a page that holds a byte of the range.
abbrev pub touched : ℕ → ℕ → ℕ → Bool
touched address size x =
    leb (address / 4096) (x / 4096) && leb (x / 4096) ((address + size - 1) / 4096)

module _ (m : GuestMemory) (address size permissions : ℕ) where
  map_range-run :
      0 < size
      → address < 2 ^ 64
      → address + size ≤ 2 ^ 64
      → map_range m address size permissions ≡ (
        true,
        record m {
          pages =
              map_loop
                (suc ((address + size - 1) / 4096 - address / 4096))
                m.pages
                permissions
                (page_base address)
                (page_base (address + size - 1));
        },
      )
  unfolding map_range overflows
  map_range-run some_size ha fits =
      let last : sub64 (add64 address size) 1 ≡ address + size - 1 = omega arith in
      let rounds : (page_base (address + size - 1) - page_base address) / 4096 + 1
          ≡ suc ((address + size - 1) / 4096 - address / 4096) =
        omega (arith, page_base-div address ha, page_base-div (address + size - 1) (omega arith)) in
      let nonempty : (size == 0) ≡ false = ground arith in
      let inside : ltb (2 ^ 64 - 1 - (size - 1)) address ≡ false = ground arith in
      rw (nonempty, inside, last, rounds)

  map_range-find :
      (x : ℕ)
      → 0 < size
      → address < 2 ^ 64
      → address + size ≤ 2 ^ 64
      → x < 2 ^ 64
      → find (page_base x) (map_range m address size permissions).1.pages ≡ (
          if touched address size x
          then some (remapped (find (page_base x) m.pages) permissions)
          else find (page_base x) m.pages)
  map_range-find x some_size ha fits hx = rw (map_range-run some_size ha fits) (
      ground (
        arith,
        page_base-div address ha,
        page_base-div (address + size - 1) (omega arith),
        page_base-div x hx,
        map_loop-find ((address + size - 1) / 4096 - address / 4096) m.pages permissions
            (page_base address) (page_base (address + size - 1)) (page_base x)
            (omega
              (arith, page_base-div address ha, page_base-div (address + size - 1) (omega arith)))
            (omega (arith, page_base-div (address + size - 1) (omega arith)))
            (omega (arith, page_base-div x hx, page_base-div address ha)),
      ))

  -- Map of a range that is not empty, starts below 2^64 and ends at 2^64 at most succeeds, records
  -- no fault, gives every page that the range touches the permissions, keeps the bytes that were
  -- there, zeroes the bytes of fresh pages, and changes no other page.
  pub map_range-maps :
      0 < size
      → address < 2 ^ 64
      → address + size ≤ 2 ^ 64
      → ((map_range m address size permissions).0 ≡ true)
        × ((map_range m address size permissions).1.last_fault ≡ m.last_fault)
        × ((x : ℕ)
            → x < 2 ^ 64
            → (byte_at (map_range m address size permissions).1.pages x ≡ (
                if touched address size x
                then some (byte_or_zero m.pages x)
                else byte_at m.pages x))
              × (permissions_at (map_range m address size permissions).1.pages x ≡ (
                  if touched address size x then some permissions else permissions_at m.pages x)))
  map_range-maps some_size ha fits = (
    rw (map_range-run some_size ha fits),
    rw (map_range-run some_size ha fits),
    λ x hx. (
      ground (arith, map_range-find x some_size ha fits hx),
      ground (arith, map_range-find x some_size ha fits hx),
    ),
  )

  pub map_range-Accessible :
      (required : ℕ)
      → address < 2 ^ 64
      → address + size ≤ 2 ^ 64
      → bit_and permissions required ≡ required
      → Accessible (map_range m address size permissions).1 required address size
  map_range-Accessible required ha fits granted i h =
      let found = map_range-find (address + i) (omega arith) ha fits (omega arith) in
      (permissions, ground (arith, found), granted)
