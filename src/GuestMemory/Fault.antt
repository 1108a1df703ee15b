-- ===== src/GuestMemory/Fault.antt =====
-- The first fault stays until the status is cleared.
use remill_tester.Base.{ℕ, zero, suc, ◌-◌, ◌≡◌, arith, add64, Option, some, List}
use remill_tester.Base.Text.{Text, codes}
use remill_tester.GuestMemory.MemoryPermissions
use remill_tester.GuestMemory.{
  GuestMemory, MemoryFault, set_fault, chunk_at, set_unsupported, set_backend_error, check_loop,
  check_access, map_range,
}
use remill_tester.GuestMemory.Transfer.{write_buffer, read, read_null}

-- The recorded fault of the one is that of the other.
abbrev pub Keeps : GuestMemory → GuestMemory → MemoryFault → Type 0
Keeps m m' f = m.last_fault ≡ some f → m'.last_fault ≡ some f

set_fault-Keeps : (m : GuestMemory) (f g : MemoryFault) → Keeps m (set_fault m g) f
unfolding set_fault
set_fault-Keeps m f g h = ground arith

check_loop-Keeps :
    (fuel : ℕ) (m : GuestMemory) (required : ℕ) (operation : Text) (remaining a : ℕ)
    (f : MemoryFault)
    → Keeps m (check_loop fuel m required operation remaining a).1 f
unfolding check_loop set_fault
check_loop-Keeps zero m required operation remaining a f h = h
check_loop-Keeps (suc fuel) m required operation remaining a f h =
    let k = chunk_at remaining a in
    ground (arith, check_loop-Keeps fuel m required operation (remaining - k) (add64 a k) f)

check_access-Keeps :
    (m : GuestMemory) (address size required : ℕ) (operation : Text) (f : MemoryFault)
    → Keeps m (check_access m address size required operation).1 f
unfolding check_access set_fault
check_access-Keeps m address size required operation f h =
    ground (arith, check_loop-Keeps size m required operation size address f)

map_range-Keeps :
    (m : GuestMemory) (address size permissions : ℕ) (f : MemoryFault)
    → Keeps m (map_range m address size permissions).1 f
unfolding map_range set_fault
map_range-Keeps m address size permissions f h = ground arith

write_buffer-Keeps :
    (m : GuestMemory) (address : ℕ) (buffer : Option (List ℕ)) (size : ℕ) (f : MemoryFault)
    → Keeps m (write_buffer m address buffer size).1 f
unfolding write_buffer set_fault
write_buffer-Keeps m address buffer size f h =
    ground (arith, check_access-Keeps m address size MemoryPermissions.write (codes "write") f)

read-Keeps :
    (m : GuestMemory) (address size : ℕ) (f : MemoryFault) → Keeps m (read m address size).2 f
unfolding read
read-Keeps m address size f h =
    ground (arith, check_access-Keeps m address size MemoryPermissions.read (codes "read") f)

-- The operations of a memory in use, each with the arguments that its caller chose.
pub data Step (m : GuestMemory) : GuestMemory → Type 0 where
  mapping :
      (address size permissions : ℕ) {m' : GuestMemory}
      → m' ≡ (map_range m address size permissions).1
      → Step m m'
  writing :
      (address : ℕ) (buffer : Option (List ℕ)) (size : ℕ) {m' : GuestMemory}
      → m' ≡ (write_buffer m address buffer size).1
      → Step m m'
  reading : (address size : ℕ) {m' : GuestMemory} → m' ≡ (read m address size).2 → Step m m'
  reading_null :
      (address size : ℕ) {m' : GuestMemory} → m' ≡ (read_null m address size).1 → Step m m'
  marking :
      (address : ℕ) (detail : Text) {m' : GuestMemory}
      → m' ≡ set_unsupported m address detail
      → Step m m'
  failing : (detail : Text) {m' : GuestMemory} → m' ≡ set_backend_error m detail → Step m m'

pub data Reach (m : GuestMemory) : GuestMemory → Type 0 where
  here : Reach m m
  next : {m' m'' : GuestMemory} → Reach m m' → Step m' m'' → Reach m m''

Step-Keeps : (f : MemoryFault) {m m' : GuestMemory} → Step m m' → Keeps m m' f
unfolding set_unsupported set_backend_error set_fault read_null
Step-Keeps f {m} (mapping address size permissions e) h =
    rw e (map_range-Keeps m address size permissions f h)
Step-Keeps f {m} (writing address buffer size e) h =
    rw e (write_buffer-Keeps m address buffer size f h)
Step-Keeps f {m} (reading address size e) h = rw e (read-Keeps m address size f h)
Step-Keeps f {m} (reading_null address size e) h = rw e (ground arith)
Step-Keeps f {m} (marking address detail e) h = rw e (ground arith)
Step-Keeps f {m} (failing detail e) h = rw e (ground arith)

-- If a fault is recorded, no sequence of mappings, writes, reads and reports replaces it: the
-- fault that is shown stays the first one.
pub Reach-Keeps :
    (f : MemoryFault) {m m' : GuestMemory}
    → m.last_fault ≡ some f
    → Reach m m'
    → m'.last_fault ≡ some f
Reach-Keeps f h here = h
Reach-Keeps f h (next r s) = Step-Keeps f s (Reach-Keeps f h r)
