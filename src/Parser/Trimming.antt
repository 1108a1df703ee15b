-- ===== src/Parser/Trimming.antt =====
-- What Trim takes off, and that Trim and ToLower are idempotent.
use remill_tester.Base.{
  ℕ, ◌≡◌, ◌∙◌, refl, ap, arith, Bool, false, ◌&&◌, [], ◌∷◌, ◌⊎◌, inl, inr, Bool-cases, All, ◌++◌,
  true, if◌then◌else◌,
}
use remill_tester.Base.Text.{Text, same}
use remill_tester.Base.Chars.{is_space, lower_char, skip_spaces}
use remill_tester.Parser.Strings.{drop_trailing, trim, to_lower}

-- `text` starts with no space.
abbrev pub HasHead : Text → Type 0
HasHead text = (text ≡ []) ⊎ ((c : ℕ) × (cs : Text) × (text ≡ c ∷ cs) × (is_space c ≡ false))

skip_spaces-HasHead : (t : Text) → HasHead (skip_spaces t)
unfolding skip_spaces
skip_spaces-HasHead [] = inl refl
skip_spaces-HasHead (c ∷ cs) = elim (Bool-cases (is_space c)) [
  | inl e ↦ rw e (skip_spaces-HasHead cs)
  | inr e ↦ rw e (inr (c, cs, refl, e))
]

drop_trailing-HasHead : (t : Text) → HasHead t → HasHead (drop_trailing t)
unfolding drop_trailing
drop_trailing-HasHead t (inl e) = rw e (inl refl)
drop_trailing-HasHead t (inr (c, cs, e, h)) = rw (e, h) (inr (c, drop_trailing cs, refl, h))

skip_spaces-head : (t : Text) → HasHead t → skip_spaces t ≡ t
unfolding skip_spaces
skip_spaces-head t (inl e) = rw e
skip_spaces-head t (inr (c, cs, e, h)) = rw (e, h)

drop_trailing_idem : (t : Text) → drop_trailing (drop_trailing t) ≡ drop_trailing t
unfolding drop_trailing
drop_trailing_idem [] = refl
drop_trailing_idem (c ∷ cs) = elim (Bool-cases (is_space c && same (drop_trailing cs) [])) [
  | inl e ↦ rw e
  | inr e ↦ rw (e, drop_trailing_idem cs, e)
]

-- Trim of a trimmed text is that text.
pub trim_idem : (t : Text) → trim (trim t) ≡ trim t
unfolding trim
trim_idem t =
    ap drop_trailing (
      skip_spaces-head (drop_trailing (skip_spaces t))
        (drop_trailing-HasHead (skip_spaces t) (skip_spaces-HasHead t)))
    ∙ drop_trailing_idem (skip_spaces t)

lower_char_idem : (c : ℕ) → lower_char (lower_char c) ≡ lower_char c
unfolding lower_char
lower_char_idem c = ground arith

pub to_lower_idem : (t : Text) → to_lower (to_lower t) ≡ to_lower t
unfolding to_lower
to_lower_idem [] = refl
to_lower_idem (c ∷ cs) = cc (lower_char_idem c, to_lower_idem cs)

-- `t` ends in no space.
abbrev pub HasLast : Text → Type 0
HasLast t = (t ≡ []) ⊎ ((cs : Text) × (c : ℕ) × (t ≡ cs ++ c ∷ []) × (is_space c ≡ false))

abbrev pub Spaces : Text → Type 0
Spaces = All (λ (c : ℕ). is_space c ≡ true)

skip_spaces-takes : (t : Text) → (front : Text) × Spaces front × (t ≡ front ++ skip_spaces t)
unfolding skip_spaces
skip_spaces-takes [] = ([], tt, refl)
skip_spaces-takes (c ∷ cs) = elim (Bool-cases (is_space c)) [
  | inl e ↦
      let (front, spaces, split) = skip_spaces-takes cs in
      rw e (c ∷ front, (e, spaces), ap (◌∷◌ c) split)
  | inr e ↦ rw e ([], tt, refl)
]

HasLast-cons : (c d : ℕ) (rest : Text) → HasLast (d ∷ rest) → HasLast (c ∷ d ∷ rest)
HasLast-cons c d rest (inl e) = absurd (ground (arith, e))
HasLast-cons c d rest (inr (cs, l, e, h)) = inr (c ∷ cs, l, ap (◌∷◌ c) e, h)

drop_trailing-takes :
    (t : Text)
    → (back : Text) × Spaces back × (t ≡ drop_trailing t ++ back) × HasLast (drop_trailing t)
unfolding drop_trailing same
drop_trailing-takes [] = ([], tt, refl, inl refl)
drop_trailing-takes (c ∷ cs) =
    let (back, spaces, split, last) = drop_trailing-takes cs in
    ends back spaces split last (is_space c) refl (drop_trailing cs) refl
  where
    ends :
        (back : Text)
        → Spaces back
        → cs ≡ drop_trailing cs ++ back
        → HasLast (drop_trailing cs)
        → (b : Bool) → is_space c ≡ b
        → (rest : Text) → drop_trailing cs ≡ rest
        → (back' : Text) × Spaces back'
          × (c ∷ cs ≡ (if b && same rest [] then [] else c ∷ rest) ++ back')
          × HasLast (if b && same rest [] then [] else c ∷ rest)
    ends back spaces split last true space [] e =
        (c ∷ back, (space, spaces), ap (◌∷◌ c) (rw e at split), inl refl)
    ends back spaces split last false space [] e =
        (back, spaces, ap (◌∷◌ c) (rw e at split), inr ([], c, refl, space))
    ends back spaces split last true space (d ∷ rest) e =
        (back, spaces, ap (◌∷◌ c) (rw e at split), HasLast-cons c d rest (rw e at last))
    ends back spaces split last false space (d ∷ rest) e =
        (back, spaces, ap (◌∷◌ c) (rw e at split), HasLast-cons c d rest (rw e at last))

-- Trim takes spaces off both ends, nothing else, and leaves no space at either end.
pub trim-takes :
    (t : Text)
    → ((front : Text) × (back : Text) × Spaces front
        × Spaces back
        × (t ≡ front ++ (trim t ++ back)))
      × HasHead (trim t)
      × HasLast (trim t)
unfolding trim
trim-takes t =
    let (front, spaces, split) = skip_spaces-takes t in
    let (back, spaces', split', last) = drop_trailing-takes (skip_spaces t) in
    (
      (front, back, spaces, spaces', split ∙ ap (◌++◌ front) split'),
      drop_trailing-HasHead (skip_spaces t) (skip_spaces-HasHead t),
      last,
    )
