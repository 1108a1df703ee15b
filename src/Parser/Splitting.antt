-- ===== src/Parser/Splitting.antt =====
-- Split cuts a text at every delimiter, and joining the parts gives the text back.
use mathlib.Core.List.{append-nil}
use mathlib.Core.Option
use remill_tester.Base.{
  ℕ, zero, suc, ◌<◌, ◌≡◌, ◌≢◌, ◌∙◌, refl, sym, ap, arith, false, List, [], ◌∷◌, ◌++◌, Option, none,
  some, ◌==◌, ==_refl, inl, inr, Bool-cases, length, length-append, All,
}
use remill_tester.Base.Text.{Text, cut}
use remill_tester.Parser.Strings.{split, split_loop}

-- The text holds no delimiter.
abbrev pub Lacks : ℕ → Text → Type 0
Lacks d text = All (λ c. (c == d) ≡ false) text

-- The parts behind the first, each with a delimiter in front.
abbrev pub join_rest : ℕ → List Text → Text
join_rest d [] = []
join_rest d (part ∷ parts) = d ∷ (part ++ join_rest d parts)

abbrev pub join : ℕ → List Text → Text
join d [] = []
join d (part ∷ parts) = part ++ join_rest d parts

-- What `cut` finds.
data Cut (d : ℕ) (text : Text) : Option (Text × Text) → Type 0 where
  whole : {r : Option (Text × Text)} → Lacks d text → r ≡ none → Cut d text r
  parts :
      {r : Option (Text × Text)} (a b : Text)
      → Lacks d a
      → text ≡ a ++ (d ∷ b)
      → r ≡ some (a, b)
      → Cut d text r

cut-Cut : (d : ℕ) (text : Text) → Cut d text (cut d text)
unfolding cut
cut-Cut d [] = whole tt refl
cut-Cut d (x ∷ xs) = elim (Bool-cases (x == d)) [
  | inl e ↦
      let same_char : x ≡ d = ground arith in
      parts [] xs tt (ap (λ (c : ℕ). c ∷ xs) same_char) (rw e)
  | inr e ↦ rw e (cons_case e (cut-Cut d xs))
]
  where
    cons_case :
        {r : Option (Text × Text)}
        → (x == d) ≡ false
        → Cut d xs r
        → Cut d (x ∷ xs) (Option.map (λ (p : Text × Text). (x ∷ p.0, p.1)) r)
    cons_case e (whole l h) = whole (e, l) (rw h)
    cons_case e (parts a b l split_at h) = parts (x ∷ a) b (e, l) (ap (◌∷◌ x) split_at) (rw h)

-- The parts of a text: they hold no delimiter, and joined they are the text.
pub record IsSplit (d : ℕ) (text : Text) (parts : List Text) : Type 0 where
  pub first : Text
  pub others : List Text
  pub parts_are : parts ≡ first ∷ others
  pub joined : first ++ join_rest d others ≡ text
  pub no_delimiter : All (Lacks d) (first ∷ others)

IsSplit-round :
    (fuel d : ℕ) (text : Text) {r : Option (Text × Text)}
    → length text < suc fuel
    → ((b : Text) → length b < fuel → IsSplit d b (split_loop fuel b d))
    → Cut d text r
    → IsSplit d text
        (elim r [ none ↦ text ∷ [] | some (part, rest) ↦ part ∷ split_loop fuel rest d ])
IsSplit-round fuel d text h rec (whole l e) = rw e (record {
  first = text;
  others = [];
  parts_are = refl;
  joined = append-nil text;
  no_delimiter = (l, tt);
})
IsSplit-round fuel d text h rec (parts a b l split_at e) =
    let s = rec b (omega (arith, ap (length {A = ℕ}) split_at, length-append a (d ∷ b))) in
    rw e (record {
      first = a;
      others = split_loop fuel b d;
      parts_are = refl;
      joined = rw s.parts_are (ap (λ (t : Text). a ++ (d ∷ t)) s.joined ∙ sym split_at);
      no_delimiter = (l, rw s.parts_are s.no_delimiter);
    })

split_loop-IsSplit :
    (fuel : ℕ) (d : ℕ) (text : Text) → length text < fuel → IsSplit d text (split_loop fuel text d)
unfolding split_loop
split_loop-IsSplit zero d text h = absurd (omega arith)
split_loop-IsSplit (suc fuel) d text h =
    IsSplit-round fuel d text h (λ b p. split_loop-IsSplit fuel d b p) (cut-Cut d text)

-- Joining the parts of Split gives the text back, no part holds the delimiter, and there is at least
-- one part.
pub join-split :
    (text : Text) (d : ℕ)
    → (join d (split text d) ≡ text) × All (Lacks d) (split text d) × (split text d ≢ [])
unfolding split
join-split text d =
    let s = split_loop-IsSplit (suc (length text)) d text (omega arith) in
    rw s.parts_are (s.joined, s.no_delimiter, λ e. cc e)

cut-append : (d : ℕ) (a b : Text) → Lacks d a → cut d (a ++ (d ∷ b)) ≡ some (a, b)
unfolding cut
cut-append d [] b l = rw (==_refl d)
cut-append d (x ∷ a) b l = rw (l.0, cut-append d a b l.1)

cut-Lacks : (d : ℕ) (a : Text) → Lacks d a → cut d a ≡ none
unfolding cut
cut-Lacks d [] l = refl
cut-Lacks d (x ∷ a) l = rw (l.0, cut-Lacks d a l.1)

split_loop-join :
    (fuel d : ℕ) (first : Text) (others : List Text)
    → All (Lacks d) (first ∷ others)
    → length (first ++ join_rest d others) < fuel
    → split_loop fuel (first ++ join_rest d others) d ≡ first ∷ others
unfolding split_loop
split_loop-join zero d first others l h = absurd (omega arith)
split_loop-join (suc fuel) d first [] l h =
    ap (λ (t : Text). split_loop (suc fuel) t d) (append-nil first)
    ∙ rw (cut-Lacks d first l.0, split_loop)
split_loop-join (suc fuel) d first (second ∷ others) l h =
    rw (cut-append d first (second ++ join_rest d others) l.0, split_loop)
      (ap (◌∷◌ first) (
        split_loop-join fuel d second others l.1
          (omega (arith, length-append first (d ∷ (second ++ join_rest d others))))))

-- Split gives back a list of parts from their join, if the list is not empty and no part holds the
-- delimiter.
pub split-join :
    (d : ℕ) (parts : List Text) → parts ≢ [] → All (Lacks d) parts → split (join d parts) d ≡ parts
unfolding split
split-join d [] ne l = absurd (ne refl)
split-join d (first ∷ others) ne l =
    split_loop-join (suc (length (join d (first ∷ others)))) d first others l (omega arith)
