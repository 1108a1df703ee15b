-- ===== src/Parser/Indices.antt =====
-- The indexes of a row lie in the data pool, one for each key of the schema.
use mathlib.Core.Path.{subst}
use remill_tester.Base.{
  ℕ, suc, ◌<◌, ◌≡◌, refl, ap, ◌∙◌, arith, List, [], ◌∷◌, length, All, ◌==◌, Bool-cases, inl, inr,
}
use remill_tester.Base.Text.{Text}
use remill_tester.Base.Result.{ok, bind-eq-ok}
use remill_tester.Parser.Strings.{split, trim}
use remill_tester.Parser.Row.{check_index, parse_index, parse_indices, parse_index_list}

parse_index-lt :
    (kind text part : Text) (size i : ℕ) → parse_index kind size text part ≡ ok i → i < size
unfolding parse_index check_index
parse_index-lt kind text part size i h = ground arith

parse_indices-lem :
    (kind text : Text) (size : ℕ) (parts : List Text) (indices : List ℕ)
    → parse_indices kind size text parts ≡ ok indices
    → (length indices ≡ length parts) × All (λ i. i < size) indices
unfolding parse_indices
parse_indices-lem kind text size [] [] h = (refl, tt)
parse_indices-lem kind text size [] (i ∷ indices) h = absurd (ground arith)
parse_indices-lem kind text size (part ∷ parts) [] h =
    let (j, hj, h') = bind-eq-ok (parse_index kind size text part) _ h in
    let (js, hjs, e) = bind-eq-ok (parse_indices kind size text parts) _ h' in absurd (ground arith)
parse_indices-lem kind text size (part ∷ parts) (i ∷ indices) h =
    let (j, hj, h') = bind-eq-ok (parse_index kind size text part) _ h in
    let (js, hjs, e) = bind-eq-ok (parse_indices kind size text parts) _ h' in
    let first : j ≡ i = ground arith in
    let others : js ≡ indices = ground arith in
    let (len, below) = parse_indices-lem kind text size parts indices (rw others at hjs) in
    (ap suc len, (parse_index-lt kind text part size i (rw first at hj), below))

-- If ParseIndexList succeeds, its list has as many indices as are expected, and each is below the
-- size of the data pool.
pub parse_index_list-lt :
    (text : Text) (expected_count size : ℕ) (kind : Text) (indices : List ℕ)
    → parse_index_list text expected_count size kind ≡ ok indices
    → (length indices ≡ expected_count) × All (λ i. i < size) indices
unfolding parse_index_list
parse_index_list-lt text expected_count size kind indices h =
    let parts = split (trim text) b',' in
    elim (Bool-cases (expected_count == 0)) [
      | inl no_keys ↦
          let e : [] ≡ indices = ground arith in
          subst (λ l. (length l ≡ expected_count) × All (λ i. i < size) l) e (ground arith, tt)
      | inr some_keys ↦
          let run : parse_indices kind size text parts ≡ ok indices = ground arith in
          let count : length parts ≡ expected_count = ground arith in
          let (len, below) = parse_indices-lem kind text size parts indices run in
          (len ∙ count, below)
    ]
