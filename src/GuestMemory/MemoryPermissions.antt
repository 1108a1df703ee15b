-- ===== src/GuestMemory/MemoryPermissions.antt =====
-- src/guest_memory.hpp: the permission bits of a page.
use remill_tester.Base.{ℕ, bit_or}

abbrev pub read : ℕ
read = 1

abbrev pub write : ℕ
write = 2

abbrev pub execute : ℕ
execute = 4

abbrev pub read_write : ℕ
read_write = bit_or read write

abbrev pub read_execute : ℕ
read_execute = bit_or read execute
