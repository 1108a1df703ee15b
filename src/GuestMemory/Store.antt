-- ===== src/GuestMemory/Store.antt =====
-- The copying loops of Write and Read against the byte-wise view.
use remill_tester.Base.{
  ℕ, zero, suc, ◌+◌, ◌-◌, ◌^◌, ◌≤◌, ◌<◌, ◌≡◌, ◌∙◌, refl, sym, ap, arith, Bool, false, ◌&&◌, List,
  ◌++◌, Option, some, get_or, drop, get_or-drop, ltb, leb, ◌==◌, if◌then◌else◌, add64, suc-ne-zero,
  inl, inr, Option-cases,
}
use remill_tester.Base.Map.{find, find-assign, word_key}
use remill_tester.GuestMemory.{Page, page_base, page_offset, chunk_at}
use remill_tester.GuestMemory.Transfer.{
  copy_in, store_chunk, write_loop, window, load_chunk, read_loop,
}
use remill_tester.GuestMemory.Chunk.{
  chunk_at-le, chunk_at_pos, chunk_at-page_base, chunk_at-page_offset, chunk_at-next,
  page_offset-mod, page_base-div,
}
use remill_tester.GuestMemory.Contents.{
  Pages, byte_at, permissions_at, byte_or_zero, Mapped, window_ext, window-add,
}

-- `x` lies in the `size` bytes from `a` on.
abbrev pub within : ℕ → ℕ → ℕ → Bool
within a size x = leb a x && ltb x (a + size)

-- The byte at `x` after `size` bytes of `source` are stored from `a` on.
abbrev pub stored : Pages → List ℕ → ℕ → ℕ → ℕ → Option ℕ
stored pages source a size x =
    if within a size x then some (get_or source (x - a) 0) else byte_at pages x

Mapped-head :
    (pages : Pages) (a size : ℕ)
    → Mapped pages a (suc size)
    → (page : Page) × (find (page_base a) pages ≡ some page)
Mapped-head pages a size h = let e : a + 0 ≡ a = omega arith in rw e at (h 0 (omega arith))

-- Inside one page, offsets and addresses say the same of a chunk.
same_chunk :
    (remaining a x : ℕ)
    → a + remaining ≤ 2 ^ 64
    → 0 < remaining
    → x < 2 ^ 64
    → (if page_base a == page_base x
        then within (page_offset a) (chunk_at remaining a) (page_offset x)
        else false)
      ≡ within a (chunk_at remaining a) x
unfolding chunk_at
same_chunk remaining a x fits some_left hx =
    ground (
      arith,
      page_offset-mod a,
      page_offset-mod x,
      page_base-div a (omega arith),
      page_base-div x hx,
    )

same_page_index :
    (a x : ℕ)
    → a < 2 ^ 64
    → x < 2 ^ 64
    → page_base a ≡ page_base x
    → page_offset x - page_offset a ≡ x - a
same_page_index a x ha hx e =
    omega (arith, page_offset-mod a, page_offset-mod x, page_base-div a ha, page_base-div x hx)

byte_at-store_chunk :
    (pages : Pages) (source : List ℕ) (remaining a x : ℕ) (page : Page)
    → a + remaining ≤ 2 ^ 64
    → 0 < remaining
    → x < 2 ^ 64
    → find (page_base a) pages ≡ some page
    → byte_at (store_chunk pages source (chunk_at remaining a) a) x
      ≡ stored pages source a (chunk_at remaining a) x
unfolding store_chunk copy_in
byte_at-store_chunk pages source remaining a x page fits some_left hx found = ground (
  arith,
  find-assign (page_base a) (page_base x)
      (copy_in page (page_offset a) source (chunk_at remaining a)) pages,
  same_chunk remaining a x fits some_left hx,
  same_page_index a x (omega arith) hx,
)

permissions_at-store_chunk :
    (pages : Pages) (source : List ℕ) (chunk a x : ℕ)
    → permissions_at (store_chunk pages source chunk a) x ≡ permissions_at pages x
unfolding store_chunk copy_in
permissions_at-store_chunk pages source chunk a x = elim (Option-cases (find (page_base a) pages)) [
  | inl unmapped ↦ ground arith
  | inr (page, found) ↦ ground (
    arith,
    find-assign (page_base a) (page_base x) (copy_in page (page_offset a) source chunk) pages,
  )
]

Mapped-of_permissions :
    (pages pages' : Pages) (a size : ℕ)
    → ((x : ℕ) → permissions_at pages' x ≡ permissions_at pages x)
    → Mapped pages a size
    → Mapped pages' a size
Mapped-of_permissions pages pages' a size same mapped i h =
    let (page, found) = mapped i h in
    elim (Option-cases (find (page_base (a + i)) pages')) [
      | inl unmapped ↦ absurd (ground (arith, same (a + i)))
      | inr there ↦ there
    ]

Mapped-next :
    (pages : Pages) (remaining a : ℕ)
    → a + remaining ≤ 2 ^ 64
    → Mapped pages a remaining
    → Mapped pages (add64 a (chunk_at remaining a)) (remaining - chunk_at remaining a)
Mapped-next pages remaining a fits mapped i h =
    let k = chunk_at remaining a in
    let e : add64 a k + i ≡ a + (k + i) = omega (arith, chunk_at-le remaining a) in
    rw e (mapped (k + i) (omega (arith, chunk_at-le remaining a)))

stored-next :
    (pages pages' : Pages) (source : List ℕ) (remaining a x : ℕ)
    → a + remaining ≤ 2 ^ 64
    → x < 2 ^ 64
    → byte_at pages' x ≡ stored pages source a (chunk_at remaining a) x
    → stored pages'
        (drop (chunk_at remaining a) source)
        (add64 a (chunk_at remaining a))
        (remaining - chunk_at remaining a)
        x
      ≡ stored pages source a remaining x
stored-next pages pages' source remaining a x fits hx first =
    let k = chunk_at remaining a in
    let joined : get_or (drop k source) (x - add64 a k) 0 ≡ get_or source (k + (x - add64 a k)) 0 =
      get_or-drop k (x - add64 a k) source 0 in
    ground (arith, joined, chunk_at-le remaining a)

-- Every round of the loop that Write runs stores its part of the source and changes nothing else.
pub byte_at-write_loop :
    (fuel : ℕ) (pages : Pages) (source : List ℕ) (remaining a x : ℕ)
    → remaining ≤ fuel
    → a + remaining ≤ 2 ^ 64
    → x < 2 ^ 64
    → Mapped pages a remaining
    → byte_at (write_loop fuel pages source remaining a) x ≡ stored pages source a remaining x
unfolding write_loop
byte_at-write_loop zero pages source remaining a x le fits hx mapped = ground arith
byte_at-write_loop (suc fuel) pages source zero a x le fits hx mapped = ground arith
byte_at-write_loop (suc fuel) pages source (suc left) a x le fits hx mapped =
    let k = chunk_at (suc left) a in
    let pages' = store_chunk pages source k a in
    let (page, found) = Mapped-head pages a left mapped in
    rw (suc-ne-zero left) (
      byte_at-write_loop fuel pages' (drop k source) (suc left - k) (add64 a k) x
        (omega (arith, chunk_at_pos (suc left) a (omega arith))) (chunk_at-next (suc left) a fits)
        hx
        (Mapped-of_permissions pages pages' _ _ (permissions_at-store_chunk pages source k a)
          (Mapped-next pages (suc left) a fits mapped))
      ∙ stored-next pages pages' source (suc left) a x fits hx
          (byte_at-store_chunk pages source (suc left) a x page fits (omega arith) hx found))

pub permissions_at-write_loop :
    (fuel : ℕ) (pages : Pages) (source : List ℕ) (remaining a x : ℕ)
    → permissions_at (write_loop fuel pages source remaining a) x ≡ permissions_at pages x
unfolding write_loop
permissions_at-write_loop zero pages source remaining a x = refl
permissions_at-write_loop (suc fuel) pages source zero a x = refl
permissions_at-write_loop (suc fuel) pages source (suc left) a x =
    let k = chunk_at (suc left) a in
    rw (suc-ne-zero left) (
      permissions_at-write_loop fuel (store_chunk pages source k a) (drop k source) (suc left - k)
        (add64 a k) x
      ∙ permissions_at-store_chunk pages source k a x)

load_chunk-window :
    (pages : Pages) (remaining a : ℕ) (page : Page)
    → a + remaining ≤ 2 ^ 64
    → find (page_base a) pages ≡ some page
    → load_chunk pages (chunk_at remaining a) a
      ≡ window (byte_or_zero pages) a (chunk_at remaining a)
unfolding load_chunk
load_chunk-window pages remaining a page fits found =
    rw (found, load_chunk)
      (window_ext page.bytes (byte_or_zero pages) (chunk_at remaining a) (page_offset a) a (λ i h.
        ground
          (arith, chunk_at-page_base remaining a i fits h, chunk_at-page_offset remaining a i h)))

window_start : (f : ℕ → ℕ) (n s t : ℕ) → (0 < n → s ≡ t) → window f s n ≡ window f t n
window_start f zero s t h = refl
window_start f (suc n) s t h = ap (λ (u : ℕ). window f u (suc n)) (h (omega arith))

read_round :
    (fuel : ℕ) (pages : Pages) (left a : ℕ)
    → read_loop (suc fuel) pages (suc left) a
      ≡ load_chunk pages (chunk_at (suc left) a) a
        ++ read_loop fuel pages (suc left - chunk_at (suc left) a) (add64 a (chunk_at (suc left) a))
unfolding read_loop
read_round fuel pages left a = rw (suc-ne-zero left)

-- The loop that Read runs gives the bytes of the range, one by one.
pub read_loop-window :
    (fuel : ℕ) (pages : Pages) (remaining a : ℕ)
    → remaining ≤ fuel
    → a + remaining ≤ 2 ^ 64
    → Mapped pages a remaining
    → read_loop fuel pages remaining a ≡ window (byte_or_zero pages) a remaining
unfolding read_loop
read_loop-window zero pages zero a le fits mapped = refl
read_loop-window zero pages (suc left) a le fits mapped = absurd (omega arith)
read_loop-window (suc fuel) pages zero a le fits mapped = refl
read_loop-window (suc fuel) pages (suc left) a le fits mapped =
    let k = chunk_at (suc left) a in
    let (page, found) = Mapped-head pages a left mapped in
    let rest : read_loop fuel pages (suc left - k) (add64 a k)
        ≡ window (byte_or_zero pages) (add64 a k) (suc left - k) =
      read_loop-window fuel pages (suc left - k) (add64 a k)
        (omega (arith, chunk_at_pos (suc left) a (omega arith))) (chunk_at-next (suc left) a fits)
        (Mapped-next pages (suc left) a fits mapped) in
    let sum : k + (suc left - k) ≡ suc left = omega (arith, chunk_at-le (suc left) a) in
    let joined : window (byte_or_zero pages) a k
          ++ window (byte_or_zero pages) (add64 a k) (suc left - k)
        ≡ window (byte_or_zero pages) a (suc left) =
      rw (window_start (byte_or_zero pages) (suc left - k) (add64 a k) (a + k) (λ h. omega arith)) (
        sym (window-add (byte_or_zero pages) k (suc left - k) a)
        ∙ ap (λ (n : ℕ). window (byte_or_zero pages) a n) sum) in
    read_round fuel pages left a
    ∙ ap (λ (l : List ℕ). load_chunk pages k a ++ l) rest
    ∙ ap (λ (l : List ℕ). l ++ window (byte_or_zero pages) (add64 a k) (suc left - k))
        (load_chunk-window pages (suc left) a page fits found)
    ∙ joined
