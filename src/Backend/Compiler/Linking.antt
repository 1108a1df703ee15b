-- ===== src/Backend/Compiler/Linking.antt =====
-- src/remill_backend.cpp: the loop of FinalizePendingModule, what it keeps of the cache and what it
-- leaves without a function.
use remill_tester.Base.{◌≡◌, refl, arith, false, List, [], ◌∷◌, none, some, All}
use remill_tester.Base.Text.{Text, member}
use remill_tester.Base.Map.{find, text_key}
use remill_tester.Base.Result.{Result, ok, err}
use remill_tester.Backend.{LiftedFunction}
use remill_tester.Backend.Pending.{CompiledInstruction, Cache}
use remill_tester.Backend.Compiler.{name_of, set_function, link}
use remill_tester.Backend.Compiler.Extends.{
  Failures, IsDisjoint, IsKept, IsOwned, IsLinked, IsKept-refl, IsKept-trans, All-IsOwned,
  set_function-waiting, set_function-IsLinked, set_function-IsKept, set_function-IsDisjoint,
}

module _ (lookup : Text → Result Text LiftedFunction) where
  abbrev pub Keeps : List Text → Cache → Failures → Type 0
  Keeps keys cache failed =
      IsLinked lookup cache
      → IsDisjoint cache failed
      → All (IsOwned cache) keys
      → IsLinked lookup (link lookup keys cache).1
        × IsDisjoint (link lookup keys cache).1 failed
        × IsKept cache (link lookup keys cache).1

  pub link-Keeps : (keys : List Text) (cache : Cache) (failed : Failures) → Keeps keys cache failed
  unfolding link
  link-Keeps [] cache failed linked disjoint owned = (linked, disjoint, IsKept-refl cache)
  link-Keeps (key ∷ keys) cache failed linked disjoint owned =
      go (lookup (name_of cache key)) refl (λ next. link-Keeps keys next failed)
    where
      go :
          (m : Result Text LiftedFunction)
          → lookup (name_of cache key) ≡ m
          → ((next : Cache) → Keeps keys next failed)
          → let cache' = (link lookup (key ∷ keys) cache).1 in
            IsLinked lookup cache' × IsDisjoint cache' failed × IsKept cache cache'
      go (err error) found rec = rw (found, link) (linked, disjoint, IsKept-refl cache)
      go (ok function) found rec =
          let next = set_function key function cache in
          let kept = set_function-IsKept lookup key function cache found linked in
          let (linked', disjoint', kept') =
            rec next (set_function-IsLinked lookup key function cache found linked)
              (set_function-IsDisjoint key function cache failed (disjoint key owned.0.0 owned.0.1)
                disjoint)
              (All-IsOwned cache next keys kept owned.1) in
          rw (found, link) (linked', disjoint', IsKept-trans cache next _ kept kept')

  abbrev pub Waits : List Text → Cache → Text → CompiledInstruction → Type 0
  Waits keys cache j c =
      find j (link lookup keys cache).1 ≡ some c
      → c.function ≡ none
      → (find j cache ≡ some c) × ((link lookup keys cache).0 ≡ none → member j keys ≡ false)

  pub link-Waits :
      (keys : List Text) (cache : Cache) (j : Text) (c : CompiledInstruction) → Waits keys cache j c
  unfolding link
  link-Waits [] cache j c = λ h missing. (h, λ _. refl)
  link-Waits (key ∷ keys) cache j c =
      go (lookup (name_of cache key)) refl (λ next. link-Waits keys next j c)
    where
      go :
          (m : Result Text LiftedFunction)
          → lookup (name_of cache key) ≡ m
          → ((next : Cache) → Waits keys next j c)
          → Waits (key ∷ keys) cache j c
      go (err error) found rec =
          rw (found, link) (λ h missing. (h, λ none_left. absurd (ground (arith, none_left))))
      go (ok function) found rec =
          rw (found, link)
            (λ h missing.
              let (before_rest, behind) = rec (set_function key function cache) h missing in
              let (before_all, differs) =
                set_function-waiting key function cache j c before_rest missing in
              (before_all, λ none_left. rw differs (behind none_left)))
