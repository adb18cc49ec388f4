-- ===== src/Read/Cells.antt =====
-- How src/read.rs writes the cells of a batch to Stata: `process_batch_with_strategy`,
-- `process_batch_single_thread`, `process_regular_by_row` and `process_row_range`.
--
-- The dataset of Stata is a function from a row and a column, both from 1 on. The columns of the batch are
-- Polars' (`column`, an error where the name is not there), and `values` gives what
-- `process_numeric_column`, `process_datetime_column` and the arm of `string` write for each row, if they
-- write anything. Chunks are written one after the other, which their rows being apart allows.
pub mod Fill
pub mod Strategy
use stata_parquet_io.Prelude.{
  ℕ, zero, suc, ◌+◌, ◌-◌, ◌*◌, ◌/◌, Bool, true, false, not, ◌&&◌, ◌||◌, List, [], ◌∷◌, Option, none,
  some, Outcome, ok, err, leb, ltb, ◌==◌, if◌then◌else◌, nat_eq, retain, is_empty, min, max,
}
use stata_parquet_io.Prelude.Text.{Text, codes, text_Eq}
use stata_parquet_io.Mapping.{ColumnInfo}

abbrev pub Dataset : Type 0 → Type 0
Dataset V = ℕ → ℕ → Option V

abbrev pub is_special : ColumnInfo → Bool
is_special col_info =
    (col_info.stata_type == codes "strl") || (col_info.stata_type == codes "binary")

abbrev pub chunk_size : ℕ → ℕ → ℕ
chunk_size row_count num_threads = max 100 (row_count / (num_threads * 4))

abbrev pub regular_columns : List ColumnInfo → List ColumnInfo
regular_columns all_columns = retain (λ col_info. not (is_special col_info)) all_columns

module _ {V : Type 0} where
  -- `replace_number` and `replace_string` do nothing without a value.
  abbrev pub kept : Option V → Option V → Option V
  kept none old = old
  kept (some value) old = some value

  abbrev pub replace : Dataset V → ℕ → ℕ → Option V → Dataset V
  replace s row col value = λ r c. if (row == r) && (col == c) then kept value (s r c) else s r c

  -- Rows `row` and the `count - 1` after it of one column, `col` counted from 0.
  unfoldable pub fill_rows : (ℕ → Option V) → ℕ → ℕ → ℕ → ℕ → ℕ → Dataset V → Dataset V
  fill_rows value start_index stata_offset col row zero s = s
  fill_rows value start_index stata_offset col row (suc count) s =
      fill_rows value start_index stata_offset col (row + 1) count
        (replace s (row + start_index + 1 + stata_offset) (col + 1) (value row))

  -- A column's cells from `start_row` to before `end_row`, if it writes any.
  abbrev pub write_effect : Option (ℕ → Option V) → ℕ → ℕ → ℕ → ℕ → ℕ → Dataset V → Dataset V
  write_effect none start_index stata_offset col start_row end_row s = s
  write_effect (some value) start_index stata_offset col start_row end_row s =
      fill_rows value start_index stata_offset col start_row (end_row - start_row) s

module _ {C V E : Type 0} (column : ColumnInfo → Outcome E C)
    (values : ColumnInfo → C → Outcome E (Option (ℕ → Option V))) (binary_error : E) where
  -- What a column writes for each row: nothing for a `strl`, which is handled elsewhere.
  unfoldable pub column_effect : ColumnInfo → Outcome E (Option (ℕ → Option V))
  column_effect col_info = elim (column col_info) [
    | err e ↦ err e
    | ok col ↦
        if col_info.stata_type == codes "strl"
        then ok none
        else if col_info.stata_type == codes "binary"
        then err binary_error
        else values col_info col
  ]

  -- The dataset, and the error if there is one; what was written before it stays.
  unfoldable pub process_row_range :
      ℕ → ℕ → ℕ → ℕ → List ColumnInfo → Dataset V → Dataset V × Option E
  process_row_range start_index stata_offset start_row end_row [] s = (s, none)
  process_row_range start_index stata_offset start_row end_row (col_info ∷ all_columns) s =
      elim (column_effect col_info) [
        | err e ↦ (s, some e)
        | ok effect ↦
            process_row_range start_index stata_offset start_row end_row all_columns
              (write_effect effect start_index stata_offset col_info.index start_row end_row s)
      ]

  unfoldable pub process_batch_single_thread :
      ℕ → ℕ → ℕ → List ColumnInfo → Dataset V → Dataset V × Option E
  process_batch_single_thread row_count start_index stata_offset all_columns s =
      process_row_range start_index stata_offset 0 row_count (regular_columns all_columns) s

  -- The chunks from row `start` on; `rounds` of them.
  unfoldable pub process_chunks :
      ℕ → ℕ → ℕ → ℕ → ℕ → ℕ → List ColumnInfo → Dataset V → Dataset V × Option E
  process_chunks zero start size row_count start_index stata_offset columns s = (s, none)
  process_chunks (suc rounds) start size row_count start_index stata_offset columns s =
      let (s', failure) =
        process_row_range start_index stata_offset start (min (start + size) row_count) columns s in
      let later =
        process_chunks rounds (start + size) size row_count start_index stata_offset columns s' in
      if leb row_count start
      then (s, none)
      else elim failure [ some e ↦ (s', some e) | none ↦ later ]

  -- A chunk has a row at least, so that there are no more chunks than rows.
  unfoldable pub process_regular_by_row :
      ℕ → ℕ → ℕ → ℕ → List ColumnInfo → Dataset V → Dataset V × Option E
  process_regular_by_row num_threads row_count start_index stata_offset columns s =
      process_chunks row_count 0 (chunk_size row_count num_threads) row_count start_index
        stata_offset columns s

  -- `num_threads` is that of the pool the work runs in.
  unfoldable pub process_batch_with_strategy :
      ℕ → ℕ → ℕ → ℕ → ℕ → List ColumnInfo → Dataset V → Dataset V × Option E
  process_batch_with_strategy n_threads num_threads row_count start_index stata_offset all_columns
        s =
      if leb n_threads 1 || ltb row_count 10_000
      then process_batch_single_thread row_count start_index stata_offset all_columns s
      else if is_empty (regular_columns all_columns)
      then (s, none)
      else process_regular_by_row num_threads row_count start_index stata_offset
          (regular_columns all_columns) s
