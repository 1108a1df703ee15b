-- ===== src/GuestMemory/Scalar.antt =====
-- Little-endian scalars in memory.
use remill_tester.Base.{ℕ, ◌+◌, ◌*◌, ◌/◌, ◌^◌, ◌≤◌, ◌<◌, ◌≡◌, arith, true, length}
use remill_tester.Base.LittleEndian.{
  join_bytes, split_bytes, le_bytes, join_bytes-le_value, split_bytes-le_bytes, le_bytes-IsByte,
  length-le_bytes, le_value-le_bytes,
}
use remill_tester.GuestMemory.MemoryPermissions
use remill_tester.GuestMemory.{GuestMemory}
use remill_tester.GuestMemory.Transfer.{write, read, read_little_endian, write_little_endian}
use remill_tester.GuestMemory.Access.{Accessible}
use remill_tester.GuestMemory.RoundTrip.{read-write, write-stores, Accessible-of_permissions}

-- Joining the bytes that a scalar was split into gives the scalar.
pub join_bytes-split_bytes :
    (width value : ℕ) → value < 256 ^ width → join_bytes 0 (split_bytes 0 width value) 0 ≡ value
join_bytes-split_bytes width value h =
    let w : value / 2 ^ (0 * 8) ≡ value = omega arith in
    rw (split_bytes-le_bytes 0 width value, w)
      (omega (
        arith,
        join_bytes-le_value 0 (le_bytes width value) 0 (omega arith) (le_bytes-IsByte width value),
        le_value-le_bytes width value h,
      ))

length-split_bytes : (width value : ℕ) → length (split_bytes 0 width value) ≡ width
length-split_bytes width value =
    rw (split_bytes-le_bytes 0 width value) (length-le_bytes width (value / 2 ^ (0 * 8)))

module _ (m : GuestMemory) (address width value : ℕ) where
  write_little_endian-write :
      write_little_endian m address width value ≡ write m address (split_bytes 0 width value)
  unfolding write_little_endian write
  write_little_endian-write = rw (length-split_bytes width value)

  -- A value that fits its width and was written by WriteLittleEndian to an address below 2^64,
  -- where the scalar ends at 2^64 at most and was both writable and readable, is what
  -- ReadLittleEndian gives back, whatever pages the scalar lies in; the memory stays as the write
  -- left it.
  pub read-write_little_endian :
      address < 2 ^ 64
      → address + width ≤ 2 ^ 64
      → value < 256 ^ width
      → Accessible m MemoryPermissions.write address width
      → Accessible m MemoryPermissions.read address width
      → read_little_endian (write_little_endian m address width value).1 address width
        ≡ (true, value, (write_little_endian m address width value).1)
  unfolding read_little_endian
  read-write_little_endian ha fits small writable readable =
      let len = length-split_bytes width value in
      let back : read (write m address (split_bytes 0 width value)).1 address width
          ≡ (true, split_bytes 0 width value, (write m address (split_bytes 0 width value)).1) =
        rw len at (
          read-write m address (split_bytes 0 width value) ha (rw len fits) (rw len writable)
            (rw len readable)) in
      rw (write_little_endian-write, back, join_bytes-split_bytes width value small)

  -- A write changes no permission.
  pub write_little_endian-Accessible :
      (required : ℕ)
      → address < 2 ^ 64
      → address + width ≤ 2 ^ 64
      → Accessible m MemoryPermissions.write address width
      → Accessible m required address width
      → Accessible (write_little_endian m address width value).1 required address width
  write_little_endian-Accessible required ha fits writable acc =
      let bytes = split_bytes 0 width value in
      let len = length-split_bytes width value in
      let (_, _, after) = write-stores m address bytes ha (rw len fits) (rw len writable) in
      rw write_little_endian-write (
        Accessible-of_permissions m (write m address bytes).1 required address width fits
          (λ x hx. (after x hx).1) acc)
