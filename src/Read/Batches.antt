-- ===== src/Read/Batches.antt =====
-- The loop of `read_to_stata_from_readstat_batches` of src/read.rs: batches are cast and filtered, the
-- first `offset` rows skipped, and the next `n_rows` written to Stata from row 0 on.
--
-- Rows and errors are parameters, and so are `apply_cast_to_batch`, `apply_sql_filter_to_batch` and
-- `process_batch_with_strategy`, which are called on one batch each; the
-- last answers its error, where there is one.
pub mod Written
use stata_parquet_io.Prelude.{
  ℕ, ◌+◌, ◌-◌, List, [], ◌∷◌, ◌++◌, ltb, leb, if◌then◌else◌, length, is_empty, take, drop, true,
  false, Option, none, some, Outcome, ok, err, ◌>>=◌, min, nat_beq,
}

pub record Progress {ℓ} (A : Type ℓ) : Type ℓ where
  pub rows_to_skip : ℕ
  pub rows_remaining : ℕ
  pub rows_written : ℕ
  pub n_batches : ℕ
  -- The calls of `process_batch_with_strategy` that succeeded: the start row and the batch.
  pub written : List (ℕ × List A)

module _ {ℓ} {A : Type ℓ} where
  -- The batch less the rows to skip, and no longer than the rows that remain.
  unfoldable pub window : Progress A → List A → List A
  window s batch =
      let skip_now = min s.rows_to_skip (length batch) in
      let rest = if ltb 0 s.rows_to_skip then drop skip_now batch else batch in
      if ltb s.rows_remaining (length rest) then take s.rows_remaining rest else rest

  abbrev pub skipped : Progress A → List A → Progress A
  skipped s batch = record s { rows_to_skip = s.rows_to_skip - min s.rows_to_skip (length batch) }

  abbrev pub advanced : Progress A → List A → Progress A
  advanced s batch = record s {
    rows_remaining = s.rows_remaining - length batch;
    rows_written = s.rows_written + length batch;
    n_batches = s.n_batches + 1;
    written = s.written ++ ((s.rows_written, batch) ∷ []);
  }

module _ {ℓ κ} {A : Type ℓ} {E : Type κ}
    (apply_cast_to_batch apply_sql_filter_to_batch : List A → Outcome E (List A))
    (process_batch : List A → ℕ → Option E) where
  -- The return code, and the progress when the loop ends.
  unfoldable pub stream : Progress A → List (Outcome E (List A)) → ℕ × Progress A
  stream s [] = (0, s)
  stream s (batch_result ∷ iter) =
      if leb s.rows_remaining 0
      then (0, s)
      else elim (batch_result >>= apply_cast_to_batch >>= apply_sql_filter_to_batch) [
        | err e ↦ (198, s)
        | ok batch ↦ elim (is_empty (window s batch)) [
          | true ↦ stream (skipped s batch) iter
          | false ↦ elim (process_batch (window s batch) s.rows_written) [
            | some e ↦ (198, skipped s batch)
            | none ↦ stream (advanced (skipped s batch) (window s batch)) iter
          ]
        ]
      ]

  abbrev pub start : ℕ → ℕ → Progress A
  start offset n_rows = record {
    rows_to_skip = offset;
    rows_remaining = n_rows;
    rows_written = 0;
    n_batches = 0;
    written = [];
  }

  abbrev pub read_batches : ℕ → ℕ → List (Outcome E (List A)) → ℕ × Progress A
  read_batches offset n_rows iter = stream (start offset n_rows) iter
