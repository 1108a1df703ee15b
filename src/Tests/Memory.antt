-- ===== src/Tests/Memory.antt =====
-- The guest memory at concrete ranges: three pages of which the write crosses a boundary.
use remill_tester.Base.{
  ℕ, ◌+◌, ◌^◌, ◌<◌, ◌≡◌, refl, arith, true, false, List, [], ◌∷◌, some, Option, bit_and, ◌↔◌, ◌≤◌,
  if◌then◌else◌,
}
use remill_tester.Base.Text.{codes}
use remill_tester.Base.Map.{word_key, find, assign}
use remill_tester.GuestMemory.MemoryPermissions
use remill_tester.GuestMemory.{
  GuestMemory, MemoryFault, MemoryFaultKind, empty_memory, set_fault, set_backend_error,
  check_access, map_range, find_page, page_base, overflows, map_loop, check_loop,
}
use remill_tester.GuestMemory.Transfer.{
  write, read, window, read_little_endian, write_little_endian, write_loop, read_loop,
}
use remill_tester.GuestMemory.Access.{Accessible, Allows}
use remill_tester.GuestMemory.Check.{
  Checked, fault_of, check_access-Checked, check_access-Accessible,
}
use remill_tester.GuestMemory.Contents.{byte_at, permissions_at, byte_or_zero}
use remill_tester.GuestMemory.Store.{stored}
use remill_tester.GuestMemory.Mapping.{touched, map_range-maps, map_range-Accessible}
use remill_tester.GuestMemory.RoundTrip.{write-stores, write-denied, read-window, read-write}
use remill_tester.GuestMemory.Scalar.{read-write_little_endian}
use remill_tester.GuestMemory.Terminates.{Checks, Writes, Reads, loops_end}
use remill_tester.GuestMemory.Fault.{Step, Reach, Reach-Keeps}

abbrev mapped : GuestMemory
mapped = (map_range empty_memory 0x1000 0x2000 MemoryPermissions.read_write).1

abbrev word : List ℕ
word = 0xde ∷ 0xad ∷ 0xbe ∷ 0xef ∷ []

accessible :
    (required : ℕ)
    → bit_and MemoryPermissions.read_write required ≡ required
    → Accessible mapped required 0x1000 0x2000
accessible required granted =
    map_range-Accessible empty_memory 0x1000 0x2000 MemoryPermissions.read_write required
      (omega arith) (omega arith) granted

writable : Accessible mapped MemoryPermissions.write 0x1ffe 4
writable i h =
    let e : 0x1000 + (0xffe + i) ≡ 0x1ffe + i = omega arith in
    rw e at (accessible MemoryPermissions.write refl (0xffe + i) (omega arith))

readable : Accessible mapped MemoryPermissions.read 0x1ffe 4
readable i h =
    let e : 0x1000 + (0xffe + i) ≡ 0x1ffe + i = omega arith in
    rw e at (accessible MemoryPermissions.read refl (0xffe + i) (omega arith))

check_access-Checked_example :
    Checked mapped MemoryPermissions.write
      (codes "write")
      0x1ffe
      4
      (check_access mapped 0x1ffe 4 MemoryPermissions.write (codes "write"))
check_access-Checked_example =
    check_access-Checked mapped MemoryPermissions.write (codes "write") 0x1ffe 4 (omega arith)
      (omega arith)

check_access-Accessible_example :
    ((check_access mapped 0x1ffe 4 MemoryPermissions.write (codes "write")).0 ≡ true)
    ↔ ((0x1ffe + 4 ≤ 2 ^ 64) × Accessible mapped MemoryPermissions.write 0x1ffe 4)
check_access-Accessible_example =
    check_access-Accessible mapped MemoryPermissions.write (codes "write") 0x1ffe 4 (omega arith)
      (omega arith)

map_range-maps_example :
    ((map_range mapped 0x2ff0 0x20 MemoryPermissions.read).0 ≡ true)
    × ((map_range mapped 0x2ff0 0x20 MemoryPermissions.read).1.last_fault ≡ mapped.last_fault)
    × ((x : ℕ)
        → x < 2 ^ 64
        → (byte_at (map_range mapped 0x2ff0 0x20 MemoryPermissions.read).1.pages x ≡ (
            if touched 0x2ff0 0x20 x
            then some (byte_or_zero mapped.pages x)
            else byte_at mapped.pages x))
          × (permissions_at (map_range mapped 0x2ff0 0x20 MemoryPermissions.read).1.pages x ≡ (
              if touched 0x2ff0 0x20 x
              then some MemoryPermissions.read
              else permissions_at mapped.pages x)))
map_range-maps_example =
    map_range-maps mapped 0x2ff0 0x20 MemoryPermissions.read (omega arith) (omega arith)
      (omega arith)

write-stores_example :
    ((write mapped 0x1ffe word).0 ≡ true)
    × ((write mapped 0x1ffe word).1.last_fault ≡ mapped.last_fault)
    × ((x : ℕ)
        → x < 2 ^ 64
        → (byte_at (write mapped 0x1ffe word).1.pages x ≡ stored mapped.pages word 0x1ffe 4 x)
          × (permissions_at (write mapped 0x1ffe word).1.pages x ≡ permissions_at mapped.pages x))
write-stores_example = write-stores mapped 0x1ffe word (omega arith) (omega arith) writable

-- The page at 0x3000 behind the writable ones can only be read.
abbrev bordered : GuestMemory
bordered = (map_range mapped 0x3000 8 MemoryPermissions.read).1

read_only : ¬ Allows bordered MemoryPermissions.write (0x2ffe + 2)
unfolding find_page map_range overflows page_base map_loop find assign set_fault
read_only (permissions, found, enough) =
    let only : ◌≡◌ {A = Option ℕ} (some 1) (some permissions) = found in
    absurd (ground (arith, only, enough))

write-denied_example :
    ((write bordered 0x2ffe word).0 ≡ false)
    × ((write bordered 0x2ffe word).1.pages ≡ bordered.pages)
write-denied_example =
    write-denied bordered 0x2ffe word (omega arith) (omega arith) 2 (omega arith) read_only

read-window_example :
    read mapped 0x1ffe 4 ≡ (true, window (byte_or_zero mapped.pages) 0x1ffe 4, mapped)
read-window_example = read-window mapped 0x1ffe 4 (omega arith) (omega arith) readable

read-write_example :
    read (write mapped 0x1ffe word).1 0x1ffe 4 ≡ (true, word, (write mapped 0x1ffe word).1)
read-write_example = read-write mapped 0x1ffe word (omega arith) (omega arith) writable readable

read-write_little_endian_example :
    read_little_endian (write_little_endian mapped 0x1ffe 4 0xefbeadde).1 0x1ffe 4
    ≡ (true, 0xefbeadde, (write_little_endian mapped 0x1ffe 4 0xefbeadde).1)
read-write_little_endian_example =
    read-write_little_endian mapped 0x1ffe 4 0xefbeadde (omega arith) (omega arith) (omega arith)
      writable readable

abbrev fault : MemoryFault
fault = fault_of MemoryFaultKind.unsupported 0x40 0 (codes "lifted") (codes "__remill_error")

abbrev faulted : GuestMemory
faulted = record mapped { last_fault = some fault }

Reach-Keeps_example :
    (set_backend_error
      (map_range faulted 0x5000 1 MemoryPermissions.read).1
      (codes "later")).last_fault
    ≡ some fault
Reach-Keeps_example = Reach-Keeps fault refl (
    Reach.next (Reach.next Reach.here (Step.mapping 0x5000 1 MemoryPermissions.read refl))
      (Step.failing (codes "later") refl))

loops_end_example :
    Checks mapped MemoryPermissions.write
      (codes "write")
      4
      0x1ffe
      (check_loop 4 mapped MemoryPermissions.write (codes "write") 4 0x1ffe)
    × Writes mapped.pages word 4 0x1ffe (write_loop 4 mapped.pages word 4 0x1ffe)
    × Reads mapped.pages 4 0x1ffe (read_loop 4 mapped.pages 4 0x1ffe)
loops_end_example =
    loops_end mapped MemoryPermissions.write (codes "write") mapped.pages word 4 0x1ffe
