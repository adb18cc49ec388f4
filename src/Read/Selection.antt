-- ===== src/Read/Selection.antt =====
-- The rows that `read_to_stata` of src/read.rs passes to Stata: sampled, sorted, and cut to the window.
--
-- The rows after the casts and the condition come in as a list. Polars' sort is a parameter, as in TopK, and
-- so are `take` and `slice` of a frame, how a stream is cut into batches, and the rounded share of a count of
-- rows. A sample that is streamed to Stata and one that is collected first go through the same calls here.
-- The way by the batches of a SAS or SPSS file is that of Batches.
pub mod Window
use stata_parquet_io.Prelude.{
  ℕ, ◌-◌, ◌%◌, ◌^◌, Bool, true, false, not, ◌&&◌, map, concat, Outcome, List, [], Option, none,
  some, leb, ◌==◌, nat_eq, if◌then◌else◌, length, take, drop, min, unwrap_or,
}
use stata_parquet_io.Prelude.Int.{ℤ, pos, wrap}
use stata_parquet_io.Read.Batches.{Progress, read_batches}
use stata_parquet_io.Read.TopK.{saturating_add, sorted_window}
use stata_parquet_io.Read.Sample.{sample_row_indices}
use stata_parquet_io.Read.Sampler.{collect_sampled_rows}

-- The arguments of `read_to_stata` that choose rows. `random_share` is none where the share is not
-- positive, and otherwise what the share of a count rounds to.
pub record RowChoice : Type 0 where
  pub offset : ℕ
  pub n_rows : ℕ
  pub has_sort : Bool
  pub random_share : Option (ℕ → ℕ)
  pub seed : ℕ

-- What else decides on the way that a read takes.
pub record Source : Type 0 where
  pub loaded_from_cache : Bool
  pub is_sas_or_spss : Bool
  pub has_strl : Bool
  pub has_glob : Bool
  pub has_columns : Bool

abbrev pub is_sampled : Option (ℕ → ℕ) → Bool
is_sampled none = false
is_sampled (some share) = true

abbrev pub can_use_readstat_batch_iter : Source → RowChoice → Bool
can_use_readstat_batch_iter source choice =
    not source.loaded_from_cache
    && source.is_sas_or_spss
    && not source.has_strl
    && not source.has_glob
    && not choice.has_sort
    && not (is_sampled choice.random_share)

abbrev pub n_sample : RowChoice → (ℕ → ℕ) → ℕ → ℕ
n_sample choice share population =
    min (min (share population) population) (saturating_add choice.offset choice.n_rows)

-- `truncate`, then `drain`.
abbrev pub in_window : RowChoice → List ℕ → List ℕ
in_window choice positions =
    let first = take (saturating_add choice.offset choice.n_rows) positions in
    drop (min choice.offset (length first)) first

-- The positions, `none` where `sample_row_indices` does not end.
abbrev pub windowed : RowChoice → Option (List ℕ) → Option (List ℕ)
windowed choice none = none
windowed choice (some positions) = some (in_window choice positions)

unfoldable pub sample_positions : RowChoice → (ℕ → ℕ) → ℕ → Option (List ℕ)
sample_positions choice share population =
    windowed choice (sample_row_indices population (n_sample choice share population) choice.seed)

-- The sort keeps all rows that were described.
abbrev pub covers_all_rows : RowChoice → Option ℕ → Bool
covers_all_rows choice none = false
covers_all_rows choice (some total) = (choice.offset == 0) && leb total choice.n_rows

module _ {ℓ} {A : Type ℓ} (gather : List A → List ℕ → List A) (sort : List A → List A)
    (batches_of : List A → List (List A)) (polars_slice : ℤ → ℕ → List A → List A) where
  -- `lf.slice`, with the offset as an `i64` and the length as a `u32`.
  abbrev pub slice : ℕ → ℕ → List A → List A
  slice offset n_rows rows = polars_slice (wrap (2 ^ 63) (pos offset)) (n_rows % 2 ^ 32) rows

  abbrev pub sampled : RowChoice → Option (List ℕ) → List A → Option (List A)
  sampled choice none rows = none
  sampled choice (some positions) rows =
      let picked = collect_sampled_rows gather (batches_of rows) positions in
      some (if choice.has_sort then sort picked else picked)

  abbrev pub unsampled : RowChoice → Option ℕ → List A → List A
  unsampled choice described rows =
      if choice.has_sort
      then (if covers_all_rows choice described
          then sort rows
          else sorted_window sort choice.offset choice.n_rows (batches_of rows))
      else slice choice.offset choice.n_rows rows

  abbrev pub chosen : RowChoice → Option (ℕ → ℕ) → Option ℕ → List A → Option (List A)
  chosen choice none described rows = some (unsampled choice described rows)
  chosen choice (some share) described rows =
      sampled choice (sample_positions choice share (unwrap_or described (length rows))) rows

  module _ {κ} {E : Type κ}
      (apply_cast_to_batch apply_sql_filter_to_batch : List A → Outcome E (List A))
      (process_batch : List A → ℕ → Option E) where
    -- The rows of the batches that were written, where no batch failed.
    abbrev pub batch_rows : ℕ × Progress A → Option (List A)
    batch_rows (code, end) =
        if code == 0 then some (concat (map (λ part. part.1) end.written)) else none

    abbrev pub readstat_rows : Source → RowChoice → List (Outcome E (List A)) → Option (List A)
    readstat_rows source choice iter =
        if source.has_columns
        then batch_rows (
            read_batches apply_cast_to_batch apply_sql_filter_to_batch process_batch choice.offset
              choice.n_rows iter)
        else some []

    -- The rows that reach Stata. `described` is the count that a describe left in a macro, and `iter` the
    -- batches of a SAS or SPSS file, before casts and condition.
    unfoldable pub rows_to_write :
        Source → RowChoice → Option ℕ → List A → List (Outcome E (List A)) → Option (List A)
    rows_to_write source choice described rows iter =
        if can_use_readstat_batch_iter source choice
        then readstat_rows source choice iter
        else chosen choice choice.random_share described rows
