-- ===== src/Read/Selection/Window.antt =====
-- Which rows a read (src/read.rs) passes to Stata, in terms of the whole list of rows.
use stata_parquet_io.Prelude.{
  ℕ, ◌+◌, ◌-◌, ◌<◌, ◌≡◌, Bool, List, Option, none, some, nat_eq, if◌then◌else◌, length, take, drop,
  min, concat, All,
}
use stata_parquet_io.Prelude.StableSort.{Preorder, stable_sort}
use stata_parquet_io.Prelude.Int.{ℤ, pos}
use stata_parquet_io.Read.Sample.Distinct.{IsAscending}
use stata_parquet_io.Read.Sampler.{idx_mod}
use stata_parquet_io.Read.Sampler.Picked.{rows_at}
use stata_parquet_io.Read.Selection.{RowChoice}

-- The positions of a sample in the window: ascending, below the population, and as many as the drawn ones
-- beyond the offset.
abbrev pub IsSampleOf : RowChoice → (ℕ → ℕ) → ℕ → List ℕ → Type 0
IsSampleOf choice share population positions =
    IsAscending positions
    × All (λ p. p < population) positions
    × (length positions
        ≡ min (min (share population) population) (choice.offset + choice.n_rows) - choice.offset)

module _ {A : Type 0} (gather : List A → List ℕ → List A)
    (gathers : (rows : List A) (is : List ℕ)
      → All (λ i. i < length rows) is
      → gather rows is ≡ rows_at rows is)
    (o : Preorder A) (sort : List A → List A)
    (sorts : (rows : List A) → sort rows ≡ stable_sort o rows) (batches_of : List A → List (List A))
    (whole : (rows : List A) → concat (batches_of rows) ≡ rows)
    (small : (rows : List A) → All (λ batch. length batch < idx_mod) (batches_of rows))
    (polars_slice : ℤ → ℕ → List A → List A)
    (slices : (offset n_rows : ℕ) (rows : List A)
      → polars_slice (pos offset) n_rows rows ≡ take n_rows (drop offset rows)) where
  -- The rows, sorted where that was asked for.
  abbrev pub in_order : Bool → List A → List A
  in_order has_sort rows = if has_sort then stable_sort o rows else rows

  -- The rows that a choice stands for.
  abbrev pub IsChosen : RowChoice → Option (ℕ → ℕ) → List A → List A → Type 0
  IsChosen choice none rows written =
      written ≡ take choice.n_rows (drop choice.offset (in_order choice.has_sort rows))
  IsChosen choice (some share) rows written =
      (positions : List ℕ) × IsSampleOf choice share (length rows) positions
      × (written ≡ in_order choice.has_sort (rows_at rows positions))
