-- ===== src/Backend/Compiler/Extends.antt =====
-- What every operation of the backend keeps of its two caches.
use remill_tester.Base.{
  ◌≡◌, inl, inr, refl, sym, ap, ◌∙◌, arith, true, false, List, [], ◌∷◌, ◌++◌, Option, none, some,
  Bool-cases, value_or, All,
}
use remill_tester.Base.Text.{Text, same, member, same_iff}
use remill_tester.Base.Map.{find, assign, text_key, find-assign, find-assign-cases, find-assign-new}
use remill_tester.Base.Result.{Result, ok, err}
use remill_tester.Backend.{LiftedFunction}
use remill_tester.Backend.Pending.{CompiledInstruction, Cache}
use remill_tester.Backend.Compiler.{name_of, set_function}

abbrev pub Failures : Type 0
Failures = List (Text × Text)

-- No key is both compiled and remembered as a failure.
abbrev pub IsDisjoint : Cache → Failures → Type 0
IsDisjoint cache failed =
    (key : Text) (c : CompiledInstruction) → find key cache ≡ some c → find key failed ≡ none

-- Compiled instructions keep their names and their functions.
abbrev pub IsKept : Cache → Cache → Type 0
IsKept old new =
    (key : Text) (c : CompiledInstruction)
    → find key old ≡ some c
    → (c' : CompiledInstruction) × (find key new ≡ some c')
      × (c'.name ≡ c.name)
      × ((f : LiftedFunction) → c.function ≡ some f → c'.function ≡ some f)

-- Failures are never forgotten, and keep their texts.
abbrev pub IsRemembered : Failures → Failures → Type 0
IsRemembered old new =
    (key message : Text) → find key old ≡ some message → find key new ≡ some message

pub IsKept-refl : (cache : Cache) → IsKept cache cache
IsKept-refl cache key c h = (c, h, refl, λ f e. e)

pub IsKept-trans : (a b c : Cache) → IsKept a b → IsKept b c → IsKept a c
IsKept-trans a b c first next key i h =
    let (j, hj, same_name, keeps) = first key i h in
    let (k, hk, same_name', keeps') = next key j hj in
    (k, hk, same_name' ∙ same_name, λ f e. keeps' f (keeps f e))

pub IsKept-assign :
    (key : Text) (c : CompiledInstruction) (cache : Cache)
    → find key cache ≡ none
    → IsKept cache (assign key c cache)
IsKept-assign key c cache new j i h = (i, find-assign-new key j c i cache new h, refl, λ f e. e)

answer_or : LiftedFunction → Result Text LiftedFunction → LiftedFunction
answer_or function (ok f) = f
answer_or function (err error) = function

ok-injective : (m : Result Text LiftedFunction) (f g : LiftedFunction) → m ≡ ok f → m ≡ ok g → f ≡ g
unfolding answer_or
ok-injective m f g hf hg = ap (answer_or f) (sym hf ∙ hg)

-- A pointer to an instruction that the cache owns.
abbrev pub IsOwned : Cache → Text → Type 0
IsOwned cache key = (c : CompiledInstruction) × (find key cache ≡ some c)

-- An instruction without a function is among the pending ones.
abbrev pub IsWaiting : Cache → List Text → Type 0
IsWaiting cache pending =
    (key : Text) (c : CompiledInstruction)
    → find key cache ≡ some c
    → c.function ≡ none
    → member key pending ≡ true

IsOwned-IsKept : (old new : Cache) (key : Text) → IsKept old new → IsOwned old key → IsOwned new key
IsOwned-IsKept old new key kept (c, h) = let (c', h', same_name, keeps) = kept key c h in (c', h')

pub All-IsOwned :
    (old new : Cache) (keys : List Text)
    → IsKept old new
    → All (IsOwned old) keys
    → All (IsOwned new) keys
All-IsOwned old new [] kept owned = tt
All-IsOwned old new (key ∷ keys) kept owned =
    (IsOwned-IsKept old new key kept owned.0, All-IsOwned old new keys kept owned.1)

pub set_function-waiting :
    (key : Text) (function : LiftedFunction) (cache : Cache) (j : Text) (c : CompiledInstruction)
    → find j (set_function key function cache) ≡ some c
    → c.function ≡ none
    → (find j cache ≡ some c) × (same key j ≡ false)
unfolding set_function
set_function-waiting key function cache j c h missing =
    let named : CompiledInstruction = record {
      name = name_of cache key;
      function = some function;
    } in
    let shown = find-assign key j named cache in
    elim (Bool-cases (same key j)) [
      | inl hit ↦
          let at_key : some named ≡ some c = sym (shown ∙ rw hit refl) ∙ h in
          let given : some function ≡ none =
            ap (λ (o : Option CompiledInstruction). (value_or o named).function) at_key ∙ missing in
          absurd (ground (arith, given))
      | inr miss ↦ (sym (shown ∙ rw miss refl) ∙ h, miss)
    ]

pub set_function-IsDisjoint :
    (key : Text) (function : LiftedFunction) (cache : Cache) (failed : Failures)
    → find key failed ≡ none
    → IsDisjoint cache failed
    → IsDisjoint (set_function key function cache) failed
unfolding set_function
set_function-IsDisjoint key function cache failed new disjoint j c h =
    let named : CompiledInstruction = record {
      name = name_of cache key;
      function = some function;
    } in
    elim (find-assign-cases key j named c cache h) [
      | inl hit ↦ ap (λ (i : Text). find i failed) (sym hit.0) ∙ new
      | inr old ↦ disjoint j c old
    ]

pub member-append : (t : Text) (xs ys : List Text) → member t xs ≡ true → member t (xs ++ ys) ≡ true
member-append t [] ys h = absurd (ground arith)
member-append t (x ∷ xs) ys h = ground (arith, h, member-append t xs ys)

pub member-last : (t : Text) (xs : List Text) → member t (xs ++ (t ∷ [])) ≡ true
member-last t [] = rw ((same_iff t t).1 refl) refl
member-last t (x ∷ xs) = ground (arith, member-last t xs)

module _ (lookup : Text → Result Text LiftedFunction) where
  -- A function of the cache is what the JIT's symbol table has under the instruction's name.
  abbrev pub IsLinked : Cache → Type 0
  IsLinked cache =
      (key : Text) (c : CompiledInstruction) (f : LiftedFunction)
      → find key cache ≡ some c
      → c.function ≡ some f
      → lookup c.name ≡ ok f

  pub IsLinked-assign :
      (key name : Text) (cache : Cache)
      → IsLinked cache
      → IsLinked (assign key (record { name = name; function = none }) cache)
  IsLinked-assign key name cache linked j c f h has =
      elim (find-assign-cases key j (record { name = name; function = none }) c cache h) [
        | inl hit ↦
            let missing : c.function ≡ none =
              sym (ap (λ (i : CompiledInstruction). i.function) hit.1) in
            absurd (ground (arith, has, missing))
        | inr old ↦ linked j c f old has
      ]

  pub set_function-IsLinked :
      (key : Text) (function : LiftedFunction) (cache : Cache)
      → lookup (name_of cache key) ≡ ok function
      → IsLinked cache
      → IsLinked (set_function key function cache)
  unfolding set_function
  set_function-IsLinked key function cache found linked j c f h has =
      let named : CompiledInstruction = record {
        name = name_of cache key;
        function = some function;
      } in
      elim (find-assign-cases key j named c cache h) [
        | inl hit ↦
            let same_name = ap (λ (i : CompiledInstruction). i.name) hit.1 in
            let same_function = ap (λ (i : CompiledInstruction). i.function) hit.1 ∙ has in
            ap lookup (sym same_name)
            ∙ found
            ∙ ap (λ (o : Option LiftedFunction). Result.ok (value_or o function)) same_function
        | inr old ↦ linked j c f old has
      ]

  pub set_function-IsKept :
      (key : Text) (function : LiftedFunction) (cache : Cache)
      → lookup (name_of cache key) ≡ ok function
      → IsLinked cache
      → IsKept cache (set_function key function cache)
  unfolding set_function name_of
  set_function-IsKept key function cache found linked j c h =
      let named : CompiledInstruction = record {
        name = name_of cache key;
        function = some function;
      } in
      let shown = find-assign key j named cache in
      elim (Bool-cases (same key j)) [
        | inl hit ↦
            let at_key : find key cache ≡ some c =
              ap (λ (i : Text). find i cache) ((same_iff key j).0 hit) ∙ h in
            let same_name : name_of cache key ≡ c.name = rw (at_key, name_of) refl in
            (
              named,
              shown ∙ rw hit refl,
              same_name,
              λ f has. ap some (
                  ok-injective (lookup c.name) function f (ap lookup (sym same_name) ∙ found)
                    (linked key c f at_key has)),
            )
        | inr miss ↦ (c, shown ∙ rw miss h, refl, λ f e. e)
      ]
