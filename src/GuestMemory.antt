-- ===== src/GuestMemory.antt =====
-- src/guest_memory.hpp and src/guest_memory.cpp: the sparse, paged guest memory.
-- A `std::string` is the list of its bytes, `pages_` the map from page addresses, and the array of
-- a page a function from the offsets below 0x1000. Pointers to buffers are `Option`s.
pub mod MemoryPermissions
pub mod Transfer
pub mod Chunk
pub mod Access
pub mod Check
pub mod Contents
pub mod Store
pub mod Terminates
pub mod Mapping
pub mod RoundTrip
pub mod Scalar
pub mod Fault
use remill_tester.Base.{
  ℕ, zero, suc, ◌+◌, ◌-◌, ◌/◌, ◌^◌, min, bit_and, Bool, true, false, not, List, [], Option, none,
  some, add64, sub64, not64, ltb, ◌==◌, if◌then◌else◌, has_value, value_or,
}
use remill_tester.Base.Text.{Text, codes}
use remill_tester.Base.Map.{find, assign, word_key}

pub data MemoryFaultKind : Type 0 where
  no_fault unmapped permission unsupported backend_error : MemoryFaultKind

pub record MemoryFault : Type 0 where
  pub kind : MemoryFaultKind
  pub address : ℕ
  pub size : ℕ
  pub operation : Text
  pub detail : Text

pub record Page : Type 0 where
  pub bytes : ℕ → ℕ
  pub permissions : ℕ

pub record GuestMemory : Type 0 where
  pub pages : List (ℕ × Page)
  pub last_fault : Option MemoryFault

abbrev pub page_size : ℕ
page_size = 0x1000

-- A fresh `Page{}`: zeroed bytes and no permission.
abbrev pub blank_page : Page
blank_page = record { bytes = λ o. 0; permissions = 0 }

abbrev pub empty_memory : GuestMemory
empty_memory = record { pages = []; last_fault = none }

unfoldable pub clear_status : GuestMemory → GuestMemory
clear_status m = record m { last_fault = none }

unfoldable pub reset : GuestMemory → GuestMemory
unfolding clear_status
reset m = clear_status (record m { pages = [] })

unfoldable pub ok : GuestMemory → Bool
ok m = not (has_value m.last_fault)

-- Only the first fault is kept.
unfoldable pub set_fault : GuestMemory → MemoryFault → GuestMemory
set_fault m f = if not (has_value m.last_fault) then record m { last_fault = some f } else m

unfoldable pub set_unsupported : GuestMemory → ℕ → Text → GuestMemory
set_unsupported m address detail = set_fault m (record {
  kind = unsupported;
  address = address;
  size = 0;
  operation = codes "unsupported";
  detail = detail;
})

unfoldable pub set_backend_error : GuestMemory → Text → GuestMemory
set_backend_error m detail = set_fault m (record {
  kind = backend_error;
  address = 0;
  size = 0;
  operation = codes "backend";
  detail = detail;
})

unfoldable pub page_base : ℕ → ℕ
page_base address = bit_and address (not64 (page_size - 1))

unfoldable pub page_offset : ℕ → ℕ
page_offset address = bit_and address (page_size - 1)

unfoldable pub find_page : GuestMemory → ℕ → Option Page
find_page m address = find (page_base address) m.pages

-- `address > max - (size - 1)`, for a size that is not 0.
unfoldable pub overflows : ℕ → ℕ → Bool
overflows address size = ltb (2 ^ 64 - 1 - (size - 1)) address

-- What one round of the loops covers: up to the end of the page or of the range.
unfoldable pub chunk_at : ℕ → ℕ → ℕ
chunk_at remaining address = min remaining (page_size - page_offset address)

unfoldable pub grants : ℕ → ℕ → Bool
grants permissions required = bit_and permissions required == required

-- The `page` of CheckAccess at `address`, if the access may go on there.
unfoldable pub denial : GuestMemory → ℕ → ℕ → Option (MemoryFaultKind × Text)
denial m address required = elim (find_page m address) [
  | none ↦ some (unmapped, codes "page is not mapped")
  | some page ↦
      if grants page.permissions required
      then none
      else some (permission, codes "page permissions do not allow access")
]

-- The loop of CheckAccess, on fuel: a round takes at least one byte off `remaining`.
unfoldable pub check_loop : ℕ → GuestMemory → ℕ → Text → ℕ → ℕ → Bool × GuestMemory
check_loop zero m required operation remaining current = (true, m)
check_loop (suc fuel) m required operation remaining current =
    let chunk = chunk_at remaining current in
    let next = check_loop fuel m required operation (remaining - chunk) (add64 current chunk) in
    if remaining == 0 then (true, m) else elim (denial m current required) [
      | none ↦ next
      | some (kind, detail) ↦ (
        false,
        set_fault m (record {
          kind = kind;
          address = current;
          size = chunk;
          operation = operation;
          detail = detail;
        }),
      )
    ]

unfoldable pub check_access : GuestMemory → ℕ → ℕ → ℕ → Text → Bool × GuestMemory
check_access m address size required operation =
    if size == 0
    then (true, m)
    else if overflows address size
    then (
      false,
      set_fault m (record {
        kind = backend_error;
        address = address;
        size = size;
        operation = operation;
        detail = codes "access range overflows uint64_t";
      }),
    )
    else check_loop size m required operation size address

-- The loop of Map from `page_address` to the page `last`, on fuel.
unfoldable pub map_loop : ℕ → List (ℕ × Page) → ℕ → ℕ → ℕ → List (ℕ × Page)
map_loop zero pages permissions page_address last = pages
map_loop (suc fuel) pages permissions page_address last =
    let page = value_or (find page_address pages) blank_page in
    let pages' = assign page_address (record page { permissions = permissions }) pages in
    let next = map_loop fuel pages' permissions (add64 page_address page_size) last in
    if page_address == last then pages' else next

unfoldable pub map_range : GuestMemory → ℕ → ℕ → ℕ → Bool × GuestMemory
map_range m address size permissions =
    if size == 0
    then (true, m)
    else if overflows address size
    then (
      false,
      set_fault m (record {
        kind = backend_error;
        address = address;
        size = size;
        operation = codes "map";
        detail = codes "mapping range overflows uint64_t";
      }),
    )
    else let start = page_base address in
      let last = page_base (sub64 (add64 address size) 1) in
      let rounds = (last - start) / page_size + 1 in
      (true, record m { pages = map_loop rounds m.pages permissions start last })
