-- ===== src/GuestMemory/Contents.antt =====
-- What the memory holds, byte by byte: the view against which the copying loops are stated.
use remill_tester.Base.{
  ℕ, zero, suc, ◌+◌, ◌-◌, ◌<◌, ◌≡◌, ◌∙◌, refl, ap, arith, List, [], ◌∷◌, ◌++◌, Option, none, some,
  length, get_or, value_or,
}
use remill_tester.Base.Map.{find, word_key}
use remill_tester.GuestMemory.{Page, page_base, page_offset}
use remill_tester.GuestMemory.Transfer.{window}

abbrev pub Pages : Type 0
Pages = List (ℕ × Page)

-- The byte at an address, `none` where no page is mapped.
abbrev pub byte_at : Pages → ℕ → Option ℕ
byte_at pages a = elim (find (page_base a) pages) [
  | none ↦ none
  | some page ↦ some (page.bytes (page_offset a))
]

abbrev pub permissions_at : Pages → ℕ → Option ℕ
permissions_at pages a = elim (find (page_base a) pages) [
  | none ↦ none
  | some page ↦ some page.permissions
]

-- The same, with 0 where nothing is mapped.
abbrev pub byte_or_zero : Pages → ℕ → ℕ
byte_or_zero pages a = value_or (byte_at pages a) 0

-- Every byte of a range lies in a page.
abbrev pub Mapped : Pages → ℕ → ℕ → Type 0
Mapped pages address size =
    (i : ℕ) → i < size → (page : Page) × (find (page_base (address + i)) pages ≡ some page)

pub window_ext :
    (f g : ℕ → ℕ) (n s t : ℕ)
    → ((i : ℕ) → i < n → f (s + i) ≡ g (t + i))
    → window f s n ≡ window g t n
window_ext f g zero s t h = refl
window_ext f g (suc n) s t h =
    let es : s + 0 ≡ s = omega arith in
    let et : t + 0 ≡ t = omega arith in
    let head : f s ≡ g t = rw es at (rw et at (h 0 (omega arith))) in
    rw head (
      ap (◌∷◌ (g t)) (
        window_ext f g n (s + 1) (t + 1) (λ i p.
          let e : s + 1 + i ≡ s + suc i = omega arith in
          let e' : t + 1 + i ≡ t + suc i = omega arith in rw (e, e') (h (suc i) (omega arith)))))

pub window-add : (f : ℕ → ℕ) (a b s : ℕ) → window f s (a + b) ≡ window f s a ++ window f (s + a) b
window-add f zero b s =
    let e : 0 + b ≡ b = omega arith in let e' : s + 0 ≡ s = omega arith in rw (e, e')
window-add f (suc a) b s =
    let e : suc a + b ≡ suc (a + b) = omega arith in
    let e' : s + suc a ≡ s + 1 + a = omega arith in
    rw (e, e') (ap (◌∷◌ (f s)) (window-add f a b (s + 1)))

-- A list is the window on its own elements.
pub window-get_or : (xs : List ℕ) (s : ℕ) → window (λ x. get_or xs (x - s) 0) s (length xs) ≡ xs
window-get_or [] s = refl
window-get_or (x ∷ xs) s =
    let e : s - s ≡ 0 = omega arith in
    rw e (
      ap (◌∷◌ x) (
        window_ext _ _ (length xs) (s + 1) (s + 1) (λ i p.
          let e' : s + 1 + i - s ≡ suc i = omega arith in
          let e'' : s + 1 + i - (s + 1) ≡ i = omega arith in rw (e', e''))
        ∙ window-get_or xs (s + 1)))
