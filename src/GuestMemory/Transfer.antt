-- ===== src/GuestMemory/Transfer.antt =====
-- src/guest_memory.hpp and src/guest_memory.cpp: Write and Read, which copy page by page, and the
-- little-endian scalars on top of them.
use remill_tester.Base.{
  ℕ, zero, suc, ◌+◌, ◌-◌, Bool, true, false, ◌&&◌, List, [], ◌∷◌, ◌++◌, Option, none, some, add64,
  ltb, leb, ◌==◌, if◌then◌else◌, length, get_or, drop, replicate,
}
use remill_tester.Base.Text.{Text, codes}
use remill_tester.Base.Map.{find, assign, word_key}
use remill_tester.Base.LittleEndian.{join_bytes, split_bytes}
use remill_tester.GuestMemory.MemoryPermissions
use remill_tester.GuestMemory.{
  Page, GuestMemory, MemoryFault, backend_error, page_base, page_offset, chunk_at, set_fault,
  check_access,
}

-- `memcpy(page->bytes.data() + offset, source, count)`.
unfoldable pub copy_in : Page → ℕ → List ℕ → ℕ → Page
copy_in page offset source count = record page {
  bytes = λ o.
      if leb offset o && ltb o (offset + count) then get_or source (o - offset) 0 else page.bytes o;
}

-- One round of the copying loop of Write. CheckAccess has found every page before it runs, so that
-- `none` is not met.
unfoldable pub store_chunk : List (ℕ × Page) → List ℕ → ℕ → ℕ → List (ℕ × Page)
store_chunk pages source chunk current = elim (find (page_base current) pages) [
  | none ↦ pages
  | some page ↦ assign (page_base current) (copy_in page (page_offset current) source chunk) pages
]

-- The copying loop of Write, on fuel.
unfoldable pub write_loop : ℕ → List (ℕ × Page) → List ℕ → ℕ → ℕ → List (ℕ × Page)
write_loop zero pages source remaining current = pages
write_loop (suc fuel) pages source remaining current =
    let chunk = chunk_at remaining current in
    let pages' = store_chunk pages source chunk current in
    let next =
      write_loop fuel pages' (drop chunk source) (remaining - chunk) (add64 current chunk) in
    if remaining == 0 then pages else next

abbrev null_buffer : ℕ → ℕ → Text → Text → MemoryFault
null_buffer address size operation detail = record {
  kind = backend_error;
  address = address;
  size = size;
  operation = operation;
  detail = detail;
}

-- Write of `size` bytes from a buffer.
unfoldable pub write_buffer : GuestMemory → ℕ → Option (List ℕ) → ℕ → Bool × GuestMemory
write_buffer m address buffer size = if size == 0 then (true, m) else elim buffer [
  | none ↦
      (false, set_fault m (null_buffer address size (codes "write") (codes "null source buffer")))
  | some source ↦
      let (allowed, m') = check_access m address size MemoryPermissions.write (codes "write") in
      if allowed
      then (true, record m' { pages = write_loop size m'.pages source size address })
      else (false, m')
]

-- Write of a whole vector.
unfoldable pub write : GuestMemory → ℕ → List ℕ → Bool × GuestMemory
unfolding write_buffer
write m address bytes = write_buffer m address (some bytes) (length bytes)

-- `count` bytes of a page from `offset` on: what `memcpy` reads.
abbrev pub window : (ℕ → ℕ) → ℕ → ℕ → List ℕ
window f start zero = []
window f start (suc count) = f start ∷ window f (start + 1) count

-- One round of the copying loop of Read.
unfoldable pub load_chunk : List (ℕ × Page) → ℕ → ℕ → List ℕ
load_chunk pages chunk current = elim (find (page_base current) pages) [
  | none ↦ []
  | some page ↦ window page.bytes (page_offset current) chunk
]

-- The copying loop of Read, on fuel; the result is what lies in the output buffer.
unfoldable pub read_loop : ℕ → List (ℕ × Page) → ℕ → ℕ → List ℕ
read_loop zero pages remaining current = []
read_loop (suc fuel) pages remaining current =
    let chunk = chunk_at remaining current in
    let next = read_loop fuel pages (remaining - chunk) (add64 current chunk) in
    if remaining == 0 then [] else load_chunk pages chunk current ++ next

-- Read of `size` bytes into a buffer that is not null: the flag, the buffer and the memory, whose
-- `last_fault_` is mutable.
unfoldable pub read : GuestMemory → ℕ → ℕ → Bool × List ℕ × GuestMemory
read m address size =
    if size == 0
    then (true, [], m)
    else let (allowed, m') = check_access m address size MemoryPermissions.read (codes "read") in
      if allowed
      then (true, read_loop size m'.pages size address, m')
      else (false, replicate size 0, m')

-- Read into a null buffer.
unfoldable pub read_null : GuestMemory → ℕ → ℕ → Bool × GuestMemory
read_null m address size = if size == 0 then (true, m) else (
  false,
  set_fault m (null_buffer address size (codes "read") (codes "null destination buffer")),
)

-- ReadLittleEndian and WriteLittleEndian of an unsigned type of `width` bytes.
unfoldable pub read_little_endian : GuestMemory → ℕ → ℕ → Bool × ℕ × GuestMemory
read_little_endian m address width =
    let (found, bytes, m') = read m address width in
    if found then (true, join_bytes 0 bytes 0, m') else (false, 0, m')

unfoldable pub write_little_endian : GuestMemory → ℕ → ℕ → ℕ → Bool × GuestMemory
write_little_endian m address width value =
    write_buffer m address (some (split_bytes 0 width value)) width
