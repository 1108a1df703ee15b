-- ===== src/Base/Map.antt =====
-- `std::map` as the list of its entries in key order.
use mathlib.Core.Path.{◌≡◌, refl, ◌∙◌, sym, ap}
use mathlib.Core.Logic.{◌↔◌, ◌⊎◌, inl, inr}
use mathlib.Core.Bool.{Bool, true, false}
use mathlib.Core.Option.{Option, none, some}
use mathlib.Core.List.{List, [], ◌∷◌}
use native.Mathlib.Omega.{arith}
use Prim.Native.Nat.{ℕ}
use remill_tester.Base.Tests.{◌==◌, ==_iff, ltb, if◌then◌else◌, Bool-cases, value_or}
use remill_tester.Base.Lists.{All}
use remill_tester.Base.Text.{Text, same, same_iff, before}

-- What the ordered containers ask of a key type.
pub record Key {ℓ} (K : Type ℓ) : Type ℓ where
  pub equal : K → K → Bool
  pub below : K → K → Bool
  pub equal_iff : (a b : K) → (equal a b ≡ true) ↔ (a ≡ b)

instance abbrev pub word_key : Key ℕ
word_key = record { equal = ◌==◌; below = ltb; equal_iff = ==_iff }

instance abbrev pub text_key : Key Text
text_key = record { equal = same; below = before; equal_iff = same_iff }

module _ {ℓ κ} {K : Type ℓ} {V : Type κ} ⦃e : Key K⦄ where
  unfoldable pub find : K → List (K × V) → Option V
  find k [] = none
  find k ((j, w) ∷ m) = if e.equal j k then some w else find k m

  -- `m[k] = v`.
  unfoldable pub assign : K → V → List (K × V) → List (K × V)
  assign k v [] = (k, v) ∷ []
  assign k v ((j, w) ∷ m) =
      if e.equal j k
      then (k, v) ∷ m
      else if e.below k j
      then (k, v) ∷ (j, w) ∷ m
      else (j, w) ∷ assign k v m

  pub find-assign :
      (k j : K) (v : V) (m : List (K × V))
      → find j (assign k v m) ≡ (if e.equal k j then some v else find j m)
  unfolding find assign
  find-assign k j v [] = refl
  find-assign k j v ((i, w) ∷ m) =
      ground (arith, e.equal_iff k j, e.equal_iff i k, e.equal_iff i j, find-assign k j v m)

  pub find-assign-same : (k : K) (v : V) (m : List (K × V)) → find k (assign k v m) ≡ some v
  find-assign-same k v m = let hit = (e.equal_iff k k).1 refl in find-assign k k v m ∙ rw hit refl

  pub find-assign-apart :
      (k j : K) (v : V) (m : List (K × V)) → e.equal k j ≡ false → find j (assign k v m) ≡ find j m
  find-assign-apart k j v m miss = find-assign k j v m ∙ rw miss refl

  pub find-assign-cases :
      (k j : K) (v w : V) (m : List (K × V))
      → find j (assign k v m) ≡ some w
      → ((k ≡ j) × (v ≡ w)) ⊎ (find j m ≡ some w)
  find-assign-cases k j v w m h =
      let found = find-assign k j v m in
      let pick = λ (b : Bool). if b then some v else find j m in
      elim (Bool-cases (e.equal k j)) [
        | inl hit ↦ inl (
          (e.equal_iff k j).0 hit,
          ap (λ (o : Option V). value_or o v) (sym (ap pick hit) ∙ sym found ∙ h),
        )
        | inr miss ↦ inr (sym (ap pick miss) ∙ sym found ∙ h)
      ]

  -- A key that is new hides no entry.
  pub find-assign-new :
      (k j : K) (v w : V) (m : List (K × V))
      → find k m ≡ none
      → find j m ≡ some w
      → find j (assign k v m) ≡ some w
  find-assign-new k j v w m new h =
      let found = find-assign k j v m in
      elim (Bool-cases (e.equal k j)) [
        | inl hit ↦
            let missing : find j m ≡ none =
              sym (ap (λ (i : K). find i m) ((e.equal_iff k j).0 hit)) ∙ new in
            absurd (ground (arith, missing, h))
        | inr miss ↦ found ∙ rw miss h
      ]

module _ {ℓ κ μ} {K : Type ℓ} {V : Type κ} (P : K × V → Type μ) ⦃e : Key K⦄ where
  pub All-find : (k : K) (m : List (K × V)) {v : V} → find k m ≡ some v → All P m → P (k, v)
  unfolding find
  All-find k [] h all = absurd (ground (arith, h))
  All-find k ((j, w) ∷ m) {v = v} h all = elim (Bool-cases (e.equal j k)) [
    | inl hit ↦
        let given : some w ≡ some v = rw hit at h in
        let same_value : w ≡ v = ap (λ (o : Option V). value_or o w) given in
        rw (sym ((e.equal_iff j k).0 hit), sym same_value) all.0
    | inr miss ↦ All-find k m (rw miss at h) all.1
  ]

  pub All-assign : (k : K) (v : V) (m : List (K × V)) → P (k, v) → All P m → All P (assign k v m)
  unfolding assign
  All-assign k v [] new all = (new, tt)
  All-assign k v ((j, w) ∷ m) new all = elim (Bool-cases (e.equal j k)) [
    | inl hit ↦ rw hit (new, all.1)
    | inr miss ↦ elim (Bool-cases (e.below k j)) [
      | inl under ↦ rw (miss, under) (new, all)
      | inr over ↦ rw (miss, over) (all.0, All-assign k v m new all.1)
    ]
  ]
