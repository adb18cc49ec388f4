-- ===== src/Read/Sample/Distinct.antt =====
-- `sample_row_indices` of src/read.rs gives exactly the number of positions asked for, in ascending
-- order, without repetition, and all of them rows of the population.
use stata_parquet_io.Prelude.{
  ℕ, zero, suc, ◌+◌, ◌-◌, ◌≤◌, ◌<◌, ◌≡◌, ◌≢◌, refl, min, List, [], ◌∷◌, some, arith, leb,
  if◌then◌else◌, contains, nat_eq, eqb_refl, false, length, All, IsNodup, Bool-cases, inl, inr,
}
use stata_parquet_io.Read.SplitMix.{u64_mod}
use stata_parquet_io.Read.SplitMix.Bounds.{below-Draws}
use stata_parquet_io.Read.Sample.{floyd, insert_sorted, sort_unstable, sample_row_indices}

-- A set of positions below `j`, `size` of them, none twice.
abbrev IsChosen : ℕ → ℕ → List ℕ → Type 0
IsChosen j size chosen = All (λ x. x < j) chosen × (length chosen ≡ size) × IsNodup chosen

All-lt_weaken : (j m : ℕ) (xs : List ℕ) → j ≤ m → All (λ x. x < j) xs → All (λ x. x < m) xs
All-lt_weaken j m [] h a = tt
All-lt_weaken j m (x ∷ xs) h (p, a) = (omega arith, All-lt_weaken j m xs h a)

-- A number above a set is not in it.
contains_of_lt : (j x : ℕ) (xs : List ℕ) → All (λ y. y < j) xs → j ≤ x → contains xs x ≡ false
contains_of_lt j x [] a h = refl
contains_of_lt j x (y ∷ ys) (p, a) h = ground (arith, contains_of_lt j x ys a h)

-- One round: `t` is a position up to `j`.
round-IsChosen :
    (j size t : ℕ) (chosen : List ℕ)
    → t < j + 1
    → IsChosen j size chosen
    → IsChosen (j + 1) (size + 1) (if contains chosen t then j ∷ chosen else t ∷ chosen)
round-IsChosen j size t chosen h (below_j, sized, distinct) =
    elim (Bool-cases (contains chosen t)) [
      | inl old ↦ rw old (
        (omega arith, All-lt_weaken j (j + 1) chosen (omega arith) below_j),
        omega arith,
        (contains_of_lt j j chosen below_j (omega arith), distinct),
      )
      | inr new ↦
          rw new (
            (h, All-lt_weaken j (j + 1) chosen (omega arith) below_j),
            omega arith,
            (new, distinct),
          )
    ]

floyd-IsChosen :
    (rounds j rng size : ℕ) (chosen : List ℕ)
    → rng < u64_mod
    → j + rounds < u64_mod
    → IsChosen j size chosen
    → (out : List ℕ) × (floyd rounds j rng chosen ≡ some out)
      × IsChosen (j + rounds) (size + rounds) out
unfolding floyd
floyd-IsChosen zero j rng size chosen g b (low, sized, distinct) =
    (chosen, refl, (All-lt_weaken j (j + 0) chosen (omega arith) low, omega arith, distinct))
floyd-IsChosen (suc rounds) j rng size chosen g b c =
    let (t, rng', drawn, low, fits) = below-Draws rng (j + 1) g (omega arith) (omega arith) in
    let (out, runs, done) =
      floyd-IsChosen rounds (j + 1) rng' (size + 1)
        (if contains chosen t then j ∷ chosen else t ∷ chosen) fits (omega arith)
        (round-IsChosen j size t chosen low c) in
    rw (drawn, floyd)
      (
        out,
        runs,
        (
          All-lt_weaken (j + 1 + rounds) (j + suc rounds) out (omega arith) done.0,
          omega arith,
          done.2,
        ),
      )

abbrev pub IsAscending : List ℕ → Type 0
IsAscending [] = Unit
IsAscending (x ∷ xs) = All (λ y. x < y) xs × IsAscending xs

length-insert_sorted : (x : ℕ) (xs : List ℕ) → length (insert_sorted x xs) ≡ length xs + 1
unfolding insert_sorted
length-insert_sorted x [] = refl
length-insert_sorted x (y ∷ ys) = ground (arith, length-insert_sorted x ys)

length-sort_unstable : (xs : List ℕ) → length (sort_unstable xs) ≡ length xs
unfolding sort_unstable
length-sort_unstable [] = refl
length-sort_unstable (x ∷ xs) =
    ground (arith, length-insert_sorted x (sort_unstable xs), length-sort_unstable xs)

All-insert_sorted :
    (P : ℕ → Type 0) (x : ℕ) (xs : List ℕ) → P x → All P xs → All P (insert_sorted x xs)
unfolding insert_sorted
All-insert_sorted P x [] p a = (p, tt)
All-insert_sorted P x (y ∷ ys) p (q, a) = elim (Bool-cases (leb x y)) [
  | inl e ↦ rw e (p, (q, a))
  | inr e ↦ rw e (q, All-insert_sorted P x ys p a)
]

All-sort_unstable : (P : ℕ → Type 0) (xs : List ℕ) → All P xs → All P (sort_unstable xs)
unfolding sort_unstable
All-sort_unstable P [] a = tt
All-sort_unstable P (x ∷ xs) (p, a) =
    All-insert_sorted P x (sort_unstable xs) p (All-sort_unstable P xs a)

-- `x` differs from each number of a list that does not contain it.
All-differs : (x : ℕ) (xs : List ℕ) → contains xs x ≡ false → All (λ y. x ≢ y) xs
All-differs x [] h = tt
All-differs x (y ∷ ys) h =
    (λ same. ground (arith, h, same, eqb_refl x), All-differs x ys (ground (arith, h)))

All-above : (x y : ℕ) (ys : List ℕ) → x < y → All (λ z. y < z) ys → All (λ z. x < z) ys
All-above x y [] h a = tt
All-above x y (z ∷ zs) h (p, a) = (omega arith, All-above x y zs h a)

insert_sorted-IsAscending :
    (x : ℕ) (xs : List ℕ) → All (λ y. x ≢ y) xs → IsAscending xs → IsAscending (insert_sorted x xs)
unfolding insert_sorted
insert_sorted-IsAscending x [] d a = (tt, tt)
insert_sorted-IsAscending x (y ∷ ys) (ne, d) (low, a) = elim (Bool-cases (leb x y)) [
  | inl e ↦ rw e ((ground (arith, e, ne), All-above x y ys (ground (arith, e, ne)) low), (low, a))
  | inr e ↦ rw e (
    All-insert_sorted (λ z. y < z) x ys (ground (arith, e, ne)) low,
    insert_sorted-IsAscending x ys d a,
  )
]

sort_unstable-IsAscending : (xs : List ℕ) → IsNodup xs → IsAscending (sort_unstable xs)
unfolding sort_unstable
sort_unstable-IsAscending [] d = tt
sort_unstable-IsAscending (x ∷ xs) (new, d) =
    insert_sorted-IsAscending x (sort_unstable xs)
      (All-sort_unstable (λ y. x ≢ y) xs (All-differs x xs new)) (sort_unstable-IsAscending xs d)

-- A population of `n` rows, fewer than 2 ^ 64, and any seed: the sample ends, and it has `k` positions
-- (all `n` where `k` is more), each below `n`, in strictly ascending order, so none twice.
pub sample_row_indices-IsSample :
    (n k seed : ℕ)
    → n < u64_mod
    → seed < u64_mod
    → (out : List ℕ) × (sample_row_indices n k seed ≡ some out)
      × (length out ≡ min k n)
      × All (λ x. x < n) out
      × IsAscending out
unfolding sample_row_indices
sample_row_indices-IsSample n k seed h g =
    let (out, runs, (low, sized, distinct)) =
      floyd-IsChosen (min k n) (n - min k n) seed 0 [] g (omega arith) (tt, refl, tt) in
    rw (runs, sample_row_indices)
      (
        sort_unstable out,
        refl,
        ground (arith, length-sort_unstable out, sized),
        All-sort_unstable (λ x. x < n) out
            (All-lt_weaken (n - min k n + min k n) n out (omega arith) low),
        sort_unstable-IsAscending out distinct,
      )
