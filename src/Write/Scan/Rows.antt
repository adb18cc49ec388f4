-- ===== src/Write/Scan/Rows.antt =====
-- The frame that a save reads (src/write.rs): its columns are the variables, and its rows those of Stata.
use stata_parquet_io.Prelude.{
  ℕ, zero, suc, ◌+◌, ◌-◌, ◌<◌, ◌≡◌, refl, sym, ap, ◌∙◌, true, List, [], ◌∷◌, Option, none, some,
  Outcome, ok, ◌>>=◌, arith, ltb, ◌==◌, nat_eq, if◌then◌else◌, min, length, get_elem?, unwrap_or,
  All, if_false, Bool-cases, inl, inr,
}
use stata_parquet_io.Prelude.Text.{Text, text_Eq}
use stata_parquet_io.DataTypes.{DataType, Schema, get}
use stata_parquet_io.Mapping.{StataColumnInfo, find_str_length_by_name, stata_column_info_to_schema}
use stata_parquet_io.Floats.{Floats}
use stata_parquet_io.Read.Values.{AnyValue}
use stata_parquet_io.Write.Scan.{
  rows_from, Series, from_cell, Cells, process_numeric_data, from_strl, string_data, Reader,
  reader_of, series_data, known_position, process_column, typed_column, named_series, required,
  prepend, after_first, read_columns, scan_with, new, StataDataScan, read_single_batch, filtered,
  scan,
}

rows_from-get_elem? {ℓ} :
    {A : Type ℓ} (read : ℕ → A) (row count k : ℕ)
    → k < count
    → get_elem? (rows_from read row count) k ≡ some (read (row + k + 1))
unfolding rows_from
rows_from-get_elem? read row zero k h = absurd (omega arith)
rows_from-get_elem? read row (suc count) zero h = ap (λ n. some (read n)) (omega arith)
rows_from-get_elem? read row (suc count) (suc k) h =
    rows_from-get_elem? read (row + 1) count k (omega arith) ∙ ap (λ n. some (read n)) (omega arith)

length-rows_from {ℓ} :
    {A : Type ℓ} (read : ℕ → A) (row count : ℕ) → length (rows_from read row count) ≡ count
unfolding rows_from
length-rows_from read row zero = refl
length-rows_from read row (suc count) = ap suc (length-rows_from read (row + 1) count)

module _ (floats : Floats) (cells : Cells floats) where
  open floats use {F}

  abbrev read_cell : Reader F → ℕ → ℕ → ℕ → AnyValue F
  read_cell Reader.texts str_length col_idx row =
      if ltb 0 str_length
      then AnyValue.string (cells.read_string (col_idx + 1) row str_length)
      else from_strl floats cells (cells.read_string_strl (col_idx + 1) row)
  read_cell (Reader.numbers convert) str_length col_idx row =
      from_cell floats convert (cells.read_numeric (col_idx + 1) row)
  read_cell Reader.unsupported str_length col_idx row = AnyValue.null

  -- The cell of Stata in a column, counted from 0, and a row, counted from 1, at the type of the column.
  abbrev pub cell_at : DataType → ℕ → ℕ → ℕ → AnyValue F
  cell_at dtype str_length col_idx row =
      read_cell (reader_of floats cells dtype) str_length col_idx row

  abbrev IsRead : Reader F → Type 0
  IsRead Reader.unsupported = ⊥
  IsRead _ = Unit

  -- A type that a save can read.
  abbrev pub IsSupported : DataType → Type 0
  IsSupported dtype = IsRead (reader_of floats cells dtype)

  -- The cells of a column are those of Stata, row by row.
  abbrev pub AreRead : List (AnyValue F) → ℕ → DataType → ℕ → ℕ → Type 0
  AreRead data' n dtype str_length col_idx =
      (length data' ≡ n)
      × ((r : ℕ) → r < n → get_elem? data' r ≡ some (cell_at dtype str_length col_idx (r + 1)))

  rows-AreRead :
      (read : ℕ → AnyValue F) (n : ℕ)
      → (length (rows_from read 0 n) ≡ n)
        × ((r : ℕ) → r < n → get_elem? (rows_from read 0 n) r ≡ some (read (r + 1)))
  rows-AreRead read n = (
    length-rows_from read 0 n,
    λ r h. rows_from-get_elem? read 0 n r h ∙ ap (λ k. some (read k)) (omega arith),
  )

  module _ {E : Type 0} (unsupported_type : DataType → E) (not_saved : Text → E) where
    series_data-AreRead :
        (reader : Reader F) (dtype : DataType) (str_length col_idx n : ℕ)
        → IsRead reader
        → (data' : List (AnyValue F)) × (series_data floats cells unsupported_type not_saved reader
              dtype str_length col_idx n 0
            ≡ ok data')
          × (length data' ≡ n)
          × ((r : ℕ)
              → r < n
              → get_elem? data' r ≡ some (read_cell reader str_length col_idx (r + 1)))
    unfolding string_data process_numeric_data
    series_data-AreRead Reader.unsupported dtype str_length col_idx n known = absurd known
    series_data-AreRead (Reader.numbers convert) dtype str_length col_idx n known =
        let (size, rows) =
          rows-AreRead (λ row. from_cell floats convert (cells.read_numeric (col_idx + 1) row)) n in
        (process_numeric_data floats cells convert col_idx n 0, refl, size, rows)
    series_data-AreRead Reader.texts dtype str_length col_idx n known =
        elim (Bool-cases (ltb 0 str_length)) [
          | inl e ↦
              let (size, rows) =
                rows-AreRead
                  (λ row. AnyValue.string (cells.read_string (col_idx + 1) row str_length)) n in
              (string_data floats cells str_length col_idx n 0, refl, rw e size, rw e rows)
          | inr e ↦
              let (size, rows) =
                rows-AreRead
                  (λ row. from_strl floats cells (cells.read_string_strl (col_idx + 1) row)) n in
              (string_data floats cells str_length col_idx n 0, refl, rw e size, rw e rows)
        ]

    -- Each name is that of a column of a type that can be read.
    abbrev pub AreKnown : Schema → List Text → Type 0
    AreKnown schema names =
        All (λ name. (dtype : DataType) × (get schema name ≡ some dtype) × IsSupported dtype) names

    -- The columns are the variables from number `varlist_idx` on, each of `n` rows.
    abbrev pub IsFrame :
        List StataColumnInfo → Schema → ℕ → ℕ → List Text → List (Series F) → Type 0
    IsFrame column_info schema n varlist_idx [] [] = Unit
    IsFrame column_info schema n varlist_idx (name ∷ names) (series ∷ columns) =
        (series.name ≡ name)
        × (get schema name ≡ some series.dtype)
        × AreRead series.cells n series.dtype
            (unwrap_or (find_str_length_by_name column_info name) 0)
            (known_position floats cells unsupported_type not_saved
              (get_elem? column_info varlist_idx) varlist_idx)
        × IsFrame column_info schema n (varlist_idx + 1) names columns
    IsFrame column_info schema n varlist_idx _ _ = ⊥

    read_columns-IsFrame :
        (column_info : List StataColumnInfo) (schema : Schema) (n varlist_idx : ℕ)
        (names : List Text)
        → AreKnown schema names
        → (columns : List (Series F)) × (read_columns floats cells unsupported_type not_saved
              column_info schema n 0 varlist_idx names
            ≡ ok columns)
          × IsFrame column_info schema n varlist_idx names columns
    unfolding read_columns process_column
    read_columns-IsFrame column_info schema n varlist_idx [] known = ([], refl, tt)
    read_columns-IsFrame column_info schema n varlist_idx (name ∷ names)
          ((dtype, e, supported), known) =
        let str_length : ℕ = unwrap_or (find_str_length_by_name column_info name) 0 in
        let col_idx : ℕ =
          known_position floats cells unsupported_type not_saved (get_elem? column_info varlist_idx)
            varlist_idx in
        let (data', d, size, rows) =
          series_data-AreRead (reader_of floats cells dtype) dtype str_length col_idx n supported in
        let (columns, rest, frame) =
          read_columns-IsFrame column_info schema n (varlist_idx + 1) names known in
        let series : Series F = record { name = name; dtype = dtype; cells = data' } in
        let one : process_column floats cells unsupported_type not_saved col_idx name n 0 schema
              column_info
            ≡ ok (some series) =
          ap
            (λ o.
              typed_column floats cells unsupported_type not_saved o col_idx name n 0 column_info)
            e
          ∙ ap (named_series floats cells unsupported_type not_saved name dtype) d in
        (
          series ∷ columns,
          ap
                (λ o.
                  after_first floats cells unsupported_type not_saved
                    (required floats cells unsupported_type not_saved name o)
                    (read_columns floats cells unsupported_type not_saved column_info schema n 0
                      (varlist_idx + 1) names))
                one
              ∙ ap (prepend floats cells unsupported_type not_saved series) rest,
          (refl, e, (size, rows), frame),
        )

    module _ (apply_sql : Text → List (Series F) → Outcome E (List (Series F))) where
      -- A save of variables that the macros describe, without a condition: the frame that is read has the
      -- variables in order, each with the type of its schema and `n` rows, the first `n` of Stata, cell by
      -- cell, where `n` is the rows asked for, or all if that is none. It does so for every offset that is
      -- asked for, which is not read.
      pub scan-IsFrame :
          (n_obs : ℕ) (column_info : List StataColumnInfo) (all_columns : List Text)
          (batch_size : Option ℕ) (initial_offset n_rows n : ℕ) (schema : Schema)
          → stata_column_info_to_schema column_info ≡ some schema
          → n ≡ (if ltb 0 n_rows then n_rows else n_obs)
          → ltb 0 n ≡ true
          → AreKnown schema all_columns
          → (sds : StataDataScan floats cells unsupported_type not_saved) × (new floats cells
                unsupported_type not_saved n_obs column_info all_columns batch_size initial_offset
                n_rows none
              ≡ some sds)
            × (columns : List (Series F)) × (scan floats cells unsupported_type not_saved apply_sql
                  sds none
                ≡ ok columns)
            × IsFrame column_info schema n 0 all_columns columns
      unfolding scan read_single_batch new
      scan-IsFrame n_obs column_info all_columns batch_size initial_offset n_rows n schema e count
            some_rows known =
          let (columns, read, frame) =
            read_columns-IsFrame column_info schema n 0 all_columns known in
          let sds : StataDataScan floats cells unsupported_type not_saved = record {
            current_offset = initial_offset;
            n_rows = n;
            batch_size = unwrap_or batch_size 10_000_000;
            schema = schema;
            column_info = column_info;
            all_columns = all_columns;
            sql_if = none;
          } in
          let frames = λ (k : ℕ).
            read_columns floats cells unsupported_type not_saved column_info schema k 0 0
              all_columns
            >>= filtered floats cells unsupported_type not_saved apply_sql none in
          (
            sds,
            ap
                  (λ o.
                    scan_with floats cells unsupported_type not_saved o n_obs column_info
                      all_columns batch_size initial_offset n_rows none)
                  e
                ∙ ap (λ k. some (record sds { n_rows = k })) (sym count),
            columns,
            if_false (n == 0) _ (frames (min (min n n) (n - 0))) (ground (arith, some_rows))
                ∙ ap frames (omega arith)
                ∙ ap (λ o. o >>= filtered floats cells unsupported_type not_saved apply_sql none)
                    read,
            frame,
          )
