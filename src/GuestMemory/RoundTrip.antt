-- ===== src/GuestMemory/RoundTrip.antt =====
-- Write and Read as a client sees them: what is stored, what is read back, and what a refused
-- access leaves behind.
use remill_tester.Base.{
  ℕ, zero, suc, ◌+◌, ◌-◌, ◌^◌, ◌≤◌, ◌<◌, ◌≡◌, ◌∙◌, refl, ap, arith, Bool, true, false, List, [],
  ◌∷◌, length, get_or, suc-ne-zero, ◌≢◌, some,
}
use remill_tester.Base.Text.{Text, codes}
use remill_tester.Base.Map.{find, word_key}
use remill_tester.GuestMemory.MemoryPermissions
use remill_tester.GuestMemory.{Page, GuestMemory, page_base, check_access, set_fault}
use remill_tester.GuestMemory.Transfer.{write, write_loop, read, read_loop, window}
use remill_tester.GuestMemory.Access.{Allows, Accessible, Denied-excludes}
use remill_tester.GuestMemory.Check.{Checked, granted, refused, check_access-Checked}
use remill_tester.GuestMemory.Contents.{
  byte_at, permissions_at, byte_or_zero, Pages, Mapped, window_ext, window-get_or,
}
use remill_tester.GuestMemory.Store.{
  stored, byte_at-write_loop, permissions_at-write_loop, read_loop-window,
}

permissions_at-Mapped :
    (pages : Pages) (a : ℕ) {permissions : ℕ}
    → permissions_at pages a ≡ some permissions
    → (page : Page) × (find (page_base a) pages ≡ some page)
permissions_at-Mapped pages a h = ground arith

module _ (m : GuestMemory) (required : ℕ) (operation : Text) (address size : ℕ) where
  granted_of_Checked :
      {r : Bool × GuestMemory}
      → Checked m required operation address size r
      → Accessible m required address size
      → r ≡ (true, m)
  granted_of_Checked (granted _ e) acc = e
  granted_of_Checked (refused d chunk e) acc =
      absurd (Denied-excludes d.here (acc d.index d.index-lt))

  refused_of_Checked :
      {r : Bool × GuestMemory}
      → Checked m required operation address size r
      → (index : ℕ) → index < size
      → ¬ Allows m required (address + index)
      → (r.0 ≡ false) × (r.1.pages ≡ m.pages)
  unfolding set_fault
  refused_of_Checked (granted acc e) index lt denied = absurd (denied (acc index lt))
  refused_of_Checked (refused d chunk e) _ _ _ = (rw e, rw e (ground arith))

  pub Accessible-Mapped : Accessible m required address size → Mapped m.pages address size
  Accessible-Mapped acc i h =
      let (_, found, _) = acc i h in permissions_at-Mapped m.pages (address + i) found

write-run :
    (m : GuestMemory) (address : ℕ) (bytes : List ℕ)
    → check_access m address (length bytes) MemoryPermissions.write (codes "write") ≡ (true, m)
    → write m address bytes
      ≡ (true, record m { pages = write_loop (length bytes) m.pages bytes (length bytes) address })
unfolding write write_loop
write-run m address [] h = refl
write-run m address (b ∷ bytes) h = rw (suc-ne-zero (length bytes), h)

write-stop :
    (m : GuestMemory) (address : ℕ) (bytes : List ℕ)
    → bytes ≢ []
    → (check_access m address (length bytes) MemoryPermissions.write (codes "write")).0 ≡ false
    → (check_access m address (length bytes) MemoryPermissions.write (codes "write")).1.pages
      ≡ m.pages
    → ((write m address bytes).0 ≡ false) × ((write m address bytes).1.pages ≡ m.pages)
unfolding write
write-stop m address [] ne h same = absurd (ne refl)
write-stop m address (b ∷ bytes) ne h same =
    (rw (suc-ne-zero (length bytes), h), rw (suc-ne-zero (length bytes), h) same)

read-run :
    (m : GuestMemory) (address size : ℕ)
    → check_access m address size MemoryPermissions.read (codes "read") ≡ (true, m)
    → read m address size ≡ (true, read_loop size m.pages size address, m)
unfolding read read_loop
read-run m address zero h = refl
read-run m address (suc size) h = rw (suc-ne-zero size, h)

module _ (m : GuestMemory) (address : ℕ) (bytes : List ℕ) where
  -- A write to an address below 2^64, of a range that ends at 2^64 at most and is writable
  -- throughout, succeeds, records no fault, stores the bytes in order, and changes no other byte
  -- and no permission.
  pub write-stores :
      address < 2 ^ 64
      → address + length bytes ≤ 2 ^ 64
      → Accessible m MemoryPermissions.write address (length bytes)
      → ((write m address bytes).0 ≡ true)
        × ((write m address bytes).1.last_fault ≡ m.last_fault)
        × ((x : ℕ)
            → x < 2 ^ 64
            → (byte_at (write m address bytes).1.pages x
                ≡ stored m.pages bytes address (length bytes) x)
              × (permissions_at (write m address bytes).1.pages x ≡ permissions_at m.pages x))
  write-stores ha fits acc =
      let run = write-run m address bytes (
        granted_of_Checked m _ _ address (length bytes)
          (check_access-Checked m MemoryPermissions.write (codes "write") address (length bytes) ha
            fits)
          acc) in
      rw run (
        refl,
        refl,
        λ x hx. (
          byte_at-write_loop (length bytes) m.pages bytes (length bytes) address x (omega arith)
              fits hx (Accessible-Mapped m _ (codes "write") address (length bytes) acc),
          permissions_at-write_loop (length bytes) m.pages bytes (length bytes) address x,
        ),
      )

  -- A write to an address below 2^64, of a range that ends at 2^64 at most and has a byte that is in
  -- no page or in one without the write permission, fails and leaves every page as it was.
  pub write-denied :
      address < 2 ^ 64
      → address + length bytes ≤ 2 ^ 64
      → (index : ℕ) → index < length bytes
      → ¬ Allows m MemoryPermissions.write (address + index)
      → ((write m address bytes).0 ≡ false) × ((write m address bytes).1.pages ≡ m.pages)
  write-denied ha fits index lt denied =
      let (failed, same) =
        refused_of_Checked m _ _ address (length bytes)
          (check_access-Checked m MemoryPermissions.write (codes "write") address (length bytes) ha
            fits)
          index lt denied in
      write-stop m address bytes (λ e. absurd (omega (arith, lt, ap length e))) failed same

-- A read of a range that starts below 2^64, ends at 2^64 at most and is readable throughout
-- succeeds, gives the bytes of the range in order and leaves the memory as it was.
pub read-window :
    (m : GuestMemory) (address size : ℕ)
    → address < 2 ^ 64
    → address + size ≤ 2 ^ 64
    → Accessible m MemoryPermissions.read address size
    → read m address size ≡ (true, window (byte_or_zero m.pages) address size, m)
read-window m address size ha fits acc =
    read-run m address size (
      granted_of_Checked m _ _ address size
        (check_access-Checked m MemoryPermissions.read (codes "read") address size ha fits) acc)
    ∙ ap (λ (l : List ℕ). (true, l, m))
        (read_loop-window size m.pages size address (omega arith) fits
          (Accessible-Mapped m _ (codes "read") address size acc))

pub Accessible-of_permissions :
    (m m' : GuestMemory) (required address size : ℕ)
    → address + size ≤ 2 ^ 64
    → ((x : ℕ) → x < 2 ^ 64 → permissions_at m'.pages x ≡ permissions_at m.pages x)
    → Accessible m required address size
    → Accessible m' required address size
Accessible-of_permissions m m' required address size fits same acc i h =
    let (permissions, found, enough) = acc i h in
    (permissions, same (address + i) (omega arith) ∙ found, enough)

-- After a write to an address below 2^64, of a range that ends at 2^64 at most and was both
-- writable and readable throughout, a read of the same range succeeds, gives the bytes that were
-- written and leaves the memory as the write left it.
pub read-write :
    (m : GuestMemory) (address : ℕ) (bytes : List ℕ)
    → address < 2 ^ 64
    → address + length bytes ≤ 2 ^ 64
    → Accessible m MemoryPermissions.write address (length bytes)
    → Accessible m MemoryPermissions.read address (length bytes)
    → read (write m address bytes).1 address (length bytes)
      ≡ (true, bytes, (write m address bytes).1)
read-write m address bytes ha fits writable readable =
    let m' = (write m address bytes).1 in
    let (_, _, after) = write-stores m address bytes ha fits writable in
    read-window m' address (length bytes) ha fits (
      Accessible-of_permissions m m' MemoryPermissions.read address (length bytes) fits
        (λ x hx. (after x hx).1) readable)
    ∙ ap (λ (l : List ℕ). (true, l, m'))
        (window_ext (byte_or_zero m'.pages) (λ x. get_or bytes (x - address) 0) (length bytes)
            address address (λ i h. ground (arith, (after (address + i) (omega arith)).0))
          ∙ window-get_or bytes address)
