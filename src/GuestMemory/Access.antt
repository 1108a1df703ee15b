-- ===== src/GuestMemory/Access.antt =====
-- What it means that a byte may be accessed, in terms of the permission bits of its page.
use remill_tester.Base.{
  ℕ, ◌+◌, ◌<◌, ◌≡◌, ◌∙◌, refl, arith, none, some, ◌≢◌, bit_and, if◌then◌else◌, Option, ◌==◌, sym,
}
use remill_tester.Base.Text.{Text, codes}
use remill_tester.GuestMemory.{
  Page, GuestMemory, MemoryFaultKind, find_page, page_base, grants, denial,
}
use remill_tester.Base.Map.{find, word_key}
use remill_tester.GuestMemory.Contents.{permissions_at}

-- The page of a byte has every permission bit that is required.
abbrev pub Allows : GuestMemory → ℕ → ℕ → Type 0
Allows m required a =
    (permissions : ℕ) × (permissions_at m.pages a ≡ some permissions)
    × (bit_and permissions required ≡ required)

-- Each of the `size` bytes from `address` on lies in such a page.
abbrev pub Accessible : GuestMemory → ℕ → ℕ → ℕ → Type 0
Accessible m required address size = (i : ℕ) → i < size → Allows m required (address + i)

-- The byte lies in no page, or in one that lacks a permission bit, with the words for either.
pub data Denied (m : GuestMemory) (required a : ℕ) (kind : MemoryFaultKind) (detail : Text)
    : Type 0 where
  not_mapped :
      permissions_at m.pages a ≡ none
      → kind ≡ MemoryFaultKind.unmapped
      → detail ≡ codes "page is not mapped"
      → Denied m required a kind detail
  not_permitted :
      (permissions : ℕ)
      → permissions_at m.pages a ≡ some permissions
      → bit_and permissions required ≢ required
      → kind ≡ MemoryFaultKind.permission
      → detail ≡ codes "page permissions do not allow access"
      → Denied m required a kind detail

pub Denied-excludes :
    {m : GuestMemory} {required a : ℕ} {kind : MemoryFaultKind} {detail : Text}
    → Denied m required a kind detail
    → ¬ Allows m required a
Denied-excludes (not_mapped missing _ _) (p, found, enough) = ground (arith, missing, found)
Denied-excludes (not_permitted q here lacks _ _) (p, found, enough) =
    ground (arith, here, found, lacks, enough)

abbrev verdict : ℕ → Option Page → Option (MemoryFaultKind × Text)
verdict required none = some (MemoryFaultKind.unmapped, codes "page is not mapped")
verdict required (some page) =
    if bit_and page.permissions required == required
    then none
    else some (MemoryFaultKind.permission, codes "page permissions do not allow access")

denial-verdict :
    (m : GuestMemory) (required a : ℕ)
    → denial m a required ≡ verdict required (find (page_base a) m.pages)
unfolding denial find_page grants
denial-verdict m required a = by_page (find (page_base a) m.pages)
  where
    by_page :
        (o : Option Page)
        → elim o [
          | none ↦ some (MemoryFaultKind.unmapped, codes "page is not mapped")
          | some page ↦
              if grants page.permissions required
              then none
              else some (MemoryFaultKind.permission, codes "page permissions do not allow access")
        ]
          ≡ verdict required o
    by_page none = refl
    by_page (some page) = refl

pub denial-Allows :
    (m : GuestMemory) (required a : ℕ) → denial m a required ≡ none → Allows m required a
denial-Allows m required a h =
    by_page (find (page_base a) m.pages) refl (sym (denial-verdict m required a) ∙ h)
  where
    by_page :
        (o : Option Page)
        → find (page_base a) m.pages ≡ o
        → verdict required o ≡ none
        → Allows m required a
    by_page none e free = absurd (ground (arith, free))
    by_page (some page) e free =
        (page.permissions, rw (e, permissions_at) refl, ground (arith, free))

pub denial-Denied :
    (m : GuestMemory) (required a : ℕ) (kind : MemoryFaultKind) (detail : Text)
    → denial m a required ≡ some (kind, detail)
    → Denied m required a kind detail
denial-Denied m required a kind detail h =
    by_page (find (page_base a) m.pages) refl (sym (denial-verdict m required a) ∙ h)
  where
    by_page :
        (o : Option Page)
        → find (page_base a) m.pages ≡ o
        → verdict required o ≡ some (kind, detail)
        → Denied m required a kind detail
    by_page none e fails =
        not_mapped (rw (e, permissions_at) refl) (ground (arith, fails)) (ground (arith, fails))
    by_page (some page) e fails =
        not_permitted page.permissions (rw (e, permissions_at) refl) (ground (arith, fails))
          (ground (arith, fails)) (ground (arith, fails))
