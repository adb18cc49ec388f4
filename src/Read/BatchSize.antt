-- ===== src/Read/BatchSize.antt =====
-- `adaptive_batch_size` and `infer_default_batch_size` of src/read.rs, and the same formula,
-- `adaptive_write_batch_size`, of src/write.rs.
use stata_parquet_io.Prelude.{
  ℕ, ◌+◌, ◌-◌, ◌*◌, ◌/◌, ◌%◌, ◌^◌, ◌≤◌, ◌<◌, min, max, ◌≡◌, Option, none, some, arith, ltb, ◌==◌,
  nat_eq, if◌then◌else◌,
}

abbrev clamp : ℕ → ℕ → ℕ → ℕ
clamp lo hi x = if ltb x lo then lo else if ltb hi x then hi else x

-- `none` is the panic of a division by zero, which the product reaches only by overflow.
unfoldable pub adaptive_batch_size : ℕ → ℕ → ℕ → Option ℕ
adaptive_batch_size requested_rows n_cols n_rows =
    if n_rows == 0
    then some 1
    else (let requested = max requested_rows 10_000 in
        let est_bytes_per_row = max 1 n_cols * 16 % 2 ^ 64 in
        let target_bytes = 64 * 1024 * 1024 in
        let adaptive = clamp 10_000 1_000_000 (target_bytes / est_bytes_per_row) in
        if est_bytes_per_row == 0 then none else some (min (min requested adaptive) n_rows))

unfoldable pub adaptive_write_batch_size : ℕ → ℕ → ℕ → Option ℕ
adaptive_write_batch_size requested_rows n_cols n_rows =
    if n_rows == 0
    then some 1
    else (let requested = max requested_rows 10_000 in
        let est_bytes_per_row = max 1 n_cols * 16 % 2 ^ 64 in
        let target_bytes = 64 * 1024 * 1024 in
        let adaptive = clamp 10_000 1_000_000 (target_bytes / est_bytes_per_row) in
        if est_bytes_per_row == 0 then none else some (min (min requested adaptive) n_rows))

-- `filter(|rows| *rows > 0)`.
abbrev if_positive : Option ℕ → Option ℕ
if_positive none = none
if_positive (some rows) = if ltb 0 rows then some rows else none

abbrev or_else : Option ℕ → Option ℕ → Option ℕ
or_else none other = other
or_else (some rows) other = some rows

abbrev capped : ℕ → Option ℕ → ℕ
capped batch none = batch
capped batch (some total_rows) = min batch total_rows

abbrev min_rows_for : Option ℕ → ℕ
min_rows_for none = 10_000
min_rows_for (some total_rows) = max 1_000 (min 10_000 (total_rows / 10))

unfoldable pub infer_default_batch_size : ℕ → Option ℕ → Option ℕ → ℕ
infer_default_batch_size cols n_rows metadata_row_count =
    let n_cols = max cols 1 in
    let by_cols = max (2_000_000 / n_cols) 1 in
    let total_rows = or_else (if_positive n_rows) (if_positive metadata_row_count) in
    let batch = capped (min 100_000 by_cols) total_rows in
    let min_rows_by_cols = max 1_000 (min 10_000 ((250_000 + n_cols - 1) / n_cols)) in
    let min_rows = min (min_rows_for total_rows) min_rows_by_cols in max min_rows batch

-- For a frame of fewer than 2 ^ 60 columns with some rows a batch size is found. It is at least the
-- lesser of 10,000 and the rows there are, and at most a million, the rows there are, and the
-- greater of the request and 10,000.
pub adaptive_batch_size_bounds :
    (requested n_cols n_rows : ℕ)
    → n_cols < 2 ^ 60
    → 0 < n_rows
    → (size : ℕ) × (adaptive_batch_size requested n_cols n_rows ≡ some size)
      × (min 10_000 n_rows ≤ size)
      × (size ≤ 1_000_000)
      × (size ≤ n_rows)
      × (size ≤ max requested 10_000)
unfolding adaptive_batch_size
adaptive_batch_size_bounds requested n_cols n_rows h k = (
  min
      (min (max requested 10_000)
        (clamp 10_000 1_000_000 (64 * 1024 * 1024 / (max 1 n_cols * 16 % 2 ^ 64))))
      n_rows,
  ground arith,
  ground arith,
  ground arith,
  ground arith,
  ground arith,
)

-- The inferred size is at least 1,000 and at most 100,000 rows.
pub infer_default_batch_size_bounds :
    (n_cols : ℕ) (n_rows metadata_row_count : Option ℕ)
    → (1_000 ≤ infer_default_batch_size n_cols n_rows metadata_row_count)
      × (infer_default_batch_size n_cols n_rows metadata_row_count ≤ 100_000)
unfolding infer_default_batch_size
infer_default_batch_size_bounds n_cols n_rows metadata_row_count = ground arith
