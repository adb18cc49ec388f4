-- ===== src/Read/Sample.antt =====
-- `sample_row_indices` of src/read.rs: Floyd's sample of `k` of `n` row positions.
pub mod Distinct
use stata_parquet_io.Prelude.{
  ℕ, zero, suc, ◌+◌, ◌-◌, ◌≤◌, ◌<◌, ◌≡◌, refl, min, Bool, List, [], ◌∷◌, Option, none, some, arith,
  leb, if◌then◌else◌, contains, nat_eq, true,
}
use stata_parquet_io.Read.SplitMix.{below}

-- The rounds of `for j in (n - k)..n`, with the set of chosen positions. `HashSet::insert` answers
-- false, and changes nothing, where the value is there. `none` is a draw that does not end.
unfoldable pub floyd : ℕ → ℕ → ℕ → List ℕ → Option (List ℕ)
floyd zero j rng chosen = some chosen
floyd (suc rounds) j rng chosen = elim (below rng (j + 1)) [
  | none ↦ none
  | some (t, rng') ↦
      floyd rounds (j + 1) rng' (if contains chosen t then j ∷ chosen else t ∷ chosen)
]

unfoldable pub insert_sorted : ℕ → List ℕ → List ℕ
insert_sorted x [] = x ∷ []
insert_sorted x (y ∷ ys) = if leb x y then x ∷ y ∷ ys else y ∷ insert_sorted x ys

-- `sort_unstable` on numbers.
unfoldable pub sort_unstable : List ℕ → List ℕ
unfolding insert_sorted
sort_unstable [] = []
sort_unstable (x ∷ xs) = insert_sorted x (sort_unstable xs)

unfoldable pub sample_row_indices : ℕ → ℕ → ℕ → Option (List ℕ)
sample_row_indices n k seed =
    let k' = min k n in
    elim (floyd k' (n - k') seed []) [ none ↦ none | some out ↦ some (sort_unstable out) ]
