-- ===== src/Tests/Reads.antt =====
-- Runs of the definitions that model src/read.rs.
use stata_parquet_io.Prelude.{
  ℕ, ◌≤◌, ◌<◌, ◌≡◌, true, false, refl, arith, min, max, ◌⊎◌, List, [], ◌∷◌, Option, none, some,
  Outcome, ok, err, All, length, concat, take, drop, leb, map, ◌/◌,
}
use stata_parquet_io.Prelude.StableSort.{Preorder, stable_sort}
use stata_parquet_io.Prelude.Int.{ℤ, pos, negsuc}
use stata_parquet_io.Read.TopK.{push_all, sorted_window, TopKBuffer}
use stata_parquet_io.Read.TopK.Window.{sorted_window_lem, push_all-IsBounded, IsBounded}
use stata_parquet_io.Read.BatchSize.{adaptive_batch_size, adaptive_batch_size_bounds}
use stata_parquet_io.Read.SplitMix.{below}
use stata_parquet_io.Read.SplitMix.Bounds.{below-Draws, Draws}
use stata_parquet_io.Read.Sample.{sample_row_indices}
use stata_parquet_io.Read.Sample.Distinct.{IsAscending, sample_row_indices-IsSample}
use stata_parquet_io.Read.Sampler.{collect_sampled_rows}
use stata_parquet_io.Read.Selection.{RowChoice, Source}
use stata_parquet_io.Read.Sampler.Picked.{rows_at, collect_sampled_rows_lem}
use stata_parquet_io.Read.Batches.{read_batches}
use stata_parquet_io.Read.Batches.Written.{
  rows_of, IsContiguous, read_batches-rows_of, read_batches-IsContiguous,
}

leb_total : (a b : ℕ) → leb a b ≡ false → leb b a ≡ true
leb_total a b h = ground (arith, h)

leb_trans : (a b c : ℕ) → leb a b ≡ true → leb b c ≡ true → leb a c ≡ true
leb_trans a b c h k = ground (arith, h, k)

abbrev number_order : Preorder ℕ
number_order = record { le = leb; total = leb_total; trans = leb_trans }

abbrev batches : List (List ℕ)
batches = (3 ∷ 1 ∷ []) ∷ (2 ∷ []) ∷ []

sorted_window_example :
    sorted_window (stable_sort number_order) 1 1 batches
    ≡ take 1 (drop 1 (stable_sort number_order (concat batches)))
sorted_window_example =
    sorted_window_lem number_order (stable_sort number_order) (λ xs. refl) 1 1 batches
      (ground arith)

abbrev small_buffer : TopKBuffer ℕ
small_buffer = record { buffer = 5 ∷ []; k = 1; compact_at = 2 }

push_all_example :
    IsBounded
      (stable_sort number_order)
      2
      (push_all (stable_sort number_order) small_buffer batches)
push_all_example =
    push_all-IsBounded (stable_sort number_order) 2 small_buffer batches
      (record { same_limit = refl; keeps_less = ground arith; holds_less = ground arith })

adaptive_batch_size_example :
    (size : ℕ) × (adaptive_batch_size 100_000 20 500_000 ≡ some size)
    × (min 10_000 500_000 ≤ size)
    × (size ≤ 1_000_000)
    × (size ≤ 500_000)
    × (size ≤ max 100_000 10_000)
adaptive_batch_size_example =
    adaptive_batch_size_bounds 100_000 20 500_000 (ground arith) (ground arith)

below_example : Draws 6 (below 42 6)
below_example = below-Draws 42 6 (ground arith) (ground arith) (ground arith)

sample_row_indices_example :
    (out : List ℕ) × (sample_row_indices 10 3 42 ≡ some out)
    × (length out ≡ min 3 10)
    × All (λ x. x < 10) out
    × IsAscending out
sample_row_indices_example = sample_row_indices-IsSample 10 3 42 (ground arith) (ground arith)

collect_sampled_rows_example :
    collect_sampled_rows rows_at batches (0 ∷ 2 ∷ []) ≡ rows_at (concat batches) (0 ∷ 2 ∷ [])
collect_sampled_rows_example =
    collect_sampled_rows_lem rows_at (λ rows is h. refl) batches (0 ∷ 2 ∷ [])
      (ground arith, (ground arith, tt)) (ground arith) ((ground arith, tt), (tt, tt))

abbrev keep_batch : List ℕ → Outcome ℕ (List ℕ)
keep_batch batch = ok batch

abbrev no_error : List ℕ → ℕ → Option ℕ
no_error batch row = none

read_batches-rows_of_example :
    (let (code, end) =
        read_batches keep_batch keep_batch no_error 1 1 (ok (3 ∷ 1 ∷ []) ∷ ok (2 ∷ []) ∷ []) in
      (code ≡ 0) × (rows_of end.written ≡ take 1 (drop 1 (concat batches))))
read_batches-rows_of_example =
    read_batches-rows_of keep_batch keep_batch no_error 1 1 (ok (3 ∷ 1 ∷ []) ∷ ok (2 ∷ []) ∷ [])
      batches (refl, (refl, tt)) (λ batch row. refl)

read_batches-IsContiguous_example :
    (let (code, end) = read_batches keep_batch keep_batch no_error 0 5 (ok (3 ∷ []) ∷ err 7 ∷ []) in
      ((code ≡ 0) ⊎ (code ≡ 198))
      × (IsContiguous 0 end.written × (end.rows_written ≡ length (rows_of end.written))))
read_batches-IsContiguous_example =
    read_batches-IsContiguous keep_batch keep_batch no_error 0 5 (ok (3 ∷ []) ∷ err 7 ∷ [])

abbrev one_by_one : List ℕ → List (List ℕ)
one_by_one rows = map (λ row. row ∷ []) rows

abbrev half_sorted : RowChoice
half_sorted = record {
  offset = 1;
  n_rows = 2;
  has_sort = true;
  random_share = some (λ n. n / 2);
  seed = 42;
}

abbrev taken : ℤ → ℕ → List ℕ → List ℕ
taken (pos offset) n_rows rows = take n_rows (drop offset rows)
taken (negsuc n) n_rows rows = []

-- A SPSS file that is in the cache.
abbrev cached_spss : Source
cached_spss = record {
  loaded_from_cache = true;
  is_sas_or_spss = true;
  has_strl = false;
  has_glob = false;
  has_columns = true;
}

abbrev four_rows : List ℕ
four_rows = 9 ∷ 7 ∷ 8 ∷ 5 ∷ []

abbrev two_batches : List (Outcome ℕ (List ℕ))
two_batches = ok (9 ∷ 7 ∷ []) ∷ ok (8 ∷ 5 ∷ []) ∷ []
