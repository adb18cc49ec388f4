-- ===== src/Write/Scan.antt =====
-- How src/write.rs reads the rows of Stata: `FromStataValue`, `process_numeric_data`, `StataDataScan`,
-- `process_column` and `read_single_batch`.
--
-- The cells of Stata come in by column and row, from 1 on, as src/stata_interface.rs reads them; threads
-- read rows that are apart, so a loop over rows is a `map`. A series is its type and its cells. What Polars
-- makes of a condition in SQL is a parameter.
pub mod Rows
use stata_parquet_io.Prelude.{
  ℕ, zero, suc, ◌+◌, ◌-◌, ◌*◌, Bool, true, false, ◌&&◌, List, [], ◌∷◌, ◌++◌, map, Option, none,
  some, Outcome, ok, err, ◌>>=◌, ltb, ◌==◌, nat_eq, if◌then◌else◌, min, length, get_elem?, is_empty,
  unwrap_or,
}
use stata_parquet_io.Prelude.Text.{Text, codes, text_Eq}
use stata_parquet_io.Prelude.Int.{ℤ, pos, ◌-ℤ◌, scale, wrap}
use stata_parquet_io.DataTypes.{TimeUnit, DataType, Schema, get}
use stata_parquet_io.Mapping.{StataColumnInfo, find_str_length_by_name, stata_column_info_to_schema}
use stata_parquet_io.Floats.{Floats}
use stata_parquet_io.Read.Values.{
  AnyValue, day_shift_sas_stata, sec_shift_sas_stata, sec_microsecond,
}

-- Rows `row + 1` and on of a loop, `count` of them.
unfoldable pub rows_from {ℓ} : {A : Type ℓ} → (ℕ → A) → ℕ → ℕ → List A
rows_from read row zero = []
rows_from read row (suc count) = read (row + 1) ∷ rows_from read (row + 1) count

pub record Series (F : Type 0) : Type 0 where
  pub name : Text
  pub dtype : DataType
  pub cells : List (AnyValue F)

-- How the cells of a column are read.
pub data Reader (F : Type 0) : Type 0 where
  texts : Reader F
  numbers : (F → AnyValue F) → Reader F
  unsupported : Reader F

module _ (floats : Floats) where
  open floats use {F, of_int, as_int, narrow, minus, times, is_positive}

  -- `from_stata_value` of each type.
  abbrev pub to_boolean : F → AnyValue F
  to_boolean value = AnyValue.boolean (is_positive value)

  abbrev pub to_int8 : F → AnyValue F
  to_int8 value = AnyValue.int8 (as_int 0x80 value)

  abbrev pub to_int16 : F → AnyValue F
  to_int16 value = AnyValue.int16 (as_int 0x8000 value)

  abbrev pub to_int32 : F → AnyValue F
  to_int32 value = AnyValue.int32 (as_int 0x8000_0000 value)

  abbrev pub to_float32 : F → AnyValue F
  to_float32 value = AnyValue.float32 (narrow value)

  abbrev pub to_float64 : F → AnyValue F
  to_float64 value = AnyValue.float64 value

  abbrev pub to_datetime : F → AnyValue F
  to_datetime value = AnyValue.datetime (
      as_int 0x8000_0000_0000_0000
        (minus value (times (of_int (pos sec_shift_sas_stata)) (of_int (pos 1000)))))

  -- A product of two `i64`.
  abbrev pub to_time : F → AnyValue F
  to_time value =
      AnyValue.time
        (wrap 0x8000_0000_0000_0000 (scale sec_microsecond (as_int 0x8000_0000_0000_0000 value)))

  -- A difference of two `i32`.
  abbrev pub to_date : F → AnyValue F
  to_date value =
      AnyValue.date (wrap 0x8000_0000 (as_int 0x8000_0000 value -ℤ pos day_shift_sas_stata))

  abbrev pub from_cell : (F → AnyValue F) → Option F → AnyValue F
  from_cell convert none = AnyValue.null
  from_cell convert (some value) = convert value

  -- The cells of Stata, by column and row; `read_string` cuts at a length, and `read_string_strl` fails on
  -- a binary value.
  pub record Cells : Type 0 where
    pub read_numeric : ℕ → ℕ → Option F
    pub read_string : ℕ → ℕ → ℕ → Text
    pub read_string_strl : ℕ → ℕ → Option Text

  module _ (cells : Cells) where
    open cells use {read_numeric, read_string, read_string_strl}

    unfoldable pub process_numeric_data : (F → AnyValue F) → ℕ → ℕ → ℕ → List (AnyValue F)
    process_numeric_data convert col_idx n_rows_to_read offset =
        rows_from (λ row. from_cell convert (read_numeric (col_idx + 1) row)) offset n_rows_to_read

    abbrev pub from_strl : Option Text → AnyValue F
    from_strl none = AnyValue.null
    from_strl (some s) = AnyValue.string s

    unfoldable pub string_data : ℕ → ℕ → ℕ → ℕ → List (AnyValue F)
    string_data str_length col_idx n_rows_to_read offset =
        if ltb 0 str_length
        then rows_from (λ row. AnyValue.string (read_string (col_idx + 1) row str_length)) offset
            n_rows_to_read
        else rows_from (λ row. from_strl (read_string_strl (col_idx + 1) row)) offset n_rows_to_read

    -- The arm of a type.
    abbrev pub reader_of : DataType → Reader F
    reader_of DataType.string = Reader.texts
    reader_of DataType.boolean = Reader.numbers to_boolean
    reader_of DataType.int8 = Reader.numbers to_int8
    reader_of DataType.int16 = Reader.numbers to_int16
    reader_of DataType.int32 = Reader.numbers to_int32
    reader_of DataType.float32 = Reader.numbers to_float32
    reader_of DataType.float64 = Reader.numbers to_float64
    reader_of (DataType.datetime TimeUnit.milliseconds) = Reader.numbers to_datetime
    reader_of DataType.time = Reader.numbers to_time
    reader_of DataType.date = Reader.numbers to_date
    reader_of _ = Reader.unsupported

    module _ {E : Type 0} (unsupported_type : DataType → E) (not_saved : Text → E) where
      abbrev pub series_data : Reader F → DataType → ℕ → ℕ → ℕ → ℕ → Outcome E (List (AnyValue F))
      series_data Reader.texts dtype str_length col_idx n_rows_to_read offset =
          ok (string_data str_length col_idx n_rows_to_read offset)
      series_data (Reader.numbers convert) dtype str_length col_idx n_rows_to_read offset =
          ok (process_numeric_data convert col_idx n_rows_to_read offset)
      series_data Reader.unsupported dtype str_length col_idx n_rows_to_read offset =
          err (unsupported_type dtype)

      abbrev pub named_series :
          Text → DataType → Outcome E (List (AnyValue F)) → Outcome E (Option (Series F))
      named_series name dtype (err e) = err e
      named_series name dtype (ok cells) =
          ok (some (record { name = name; dtype = dtype; cells = cells }))

      abbrev pub typed_column :
          Option DataType → ℕ → Text → ℕ → ℕ → List StataColumnInfo → Outcome E (Option (Series F))
      typed_column none col_idx col_name n_rows_to_read offset column_info = ok none
      typed_column (some dtype) col_idx col_name n_rows_to_read offset column_info =
          named_series col_name dtype (
            series_data (reader_of dtype) dtype
              (unwrap_or (find_str_length_by_name column_info col_name) 0) col_idx n_rows_to_read
              offset)

      unfoldable pub process_column :
          ℕ → Text → ℕ → ℕ → Schema → List StataColumnInfo → Outcome E (Option (Series F))
      process_column col_idx col_name n_rows_to_read offset schema column_info =
          typed_column (get schema col_name) col_idx col_name n_rows_to_read offset column_info

      -- The column of the dataset that variable `varlist_idx` stands in.
      abbrev pub known_position : Option StataColumnInfo → ℕ → ℕ
      known_position none varlist_idx = varlist_idx
      known_position (some ci) varlist_idx =
          if ltb 0 ci.stata_col then ci.stata_col - 1 else varlist_idx

      abbrev pub required : Text → Outcome E (Option (Series F)) → Outcome E (Series F)
      required col_name (err e) = err e
      required col_name (ok none) = err (not_saved col_name)
      required col_name (ok (some series)) = ok series

      abbrev pub prepend : Series F → Outcome E (List (Series F)) → Outcome E (List (Series F))
      prepend series (err e) = err e
      prepend series (ok columns) = ok (series ∷ columns)

      abbrev pub after_first :
          Outcome E (Series F) → Outcome E (List (Series F)) → Outcome E (List (Series F))
      after_first (err e) rest = err e
      after_first (ok series) rest = prepend series rest

      -- The variables from number `varlist_idx` on, up to the first that fails.
      unfoldable pub read_columns :
          List StataColumnInfo → Schema → ℕ → ℕ → ℕ → List Text → Outcome E (List (Series F))
      read_columns column_info schema n_rows_to_read offset varlist_idx [] = ok []
      read_columns column_info schema n_rows_to_read offset varlist_idx (col_name ∷ all_columns) =
          let rest =
            read_columns column_info schema n_rows_to_read offset (varlist_idx + 1) all_columns in
          after_first
            (required col_name (
              process_column (known_position (get_elem? column_info varlist_idx) varlist_idx)
                col_name n_rows_to_read offset schema column_info))
            rest

      pub record StataDataScan : Type 0 where
        pub current_offset : ℕ
        pub n_rows : ℕ
        pub batch_size : ℕ
        pub schema : Schema
        pub column_info : List StataColumnInfo
        pub all_columns : List Text
        pub sql_if : Option Text

      abbrev pub scan_with :
          Option Schema
          → ℕ
          → List StataColumnInfo
          → List Text
          → Option ℕ
          → ℕ
          → ℕ
          → Option Text
          → Option StataDataScan
      scan_with none n_obs column_info all_columns batch_size initial_offset n_rows sql_if = none
      scan_with (some schema) n_obs column_info all_columns batch_size initial_offset n_rows
            sql_if =
          some (record {
            current_offset = initial_offset;
            n_rows = if ltb 0 n_rows then n_rows else n_obs;
            batch_size = unwrap_or batch_size 10_000_000;
            schema = schema;
            column_info = column_info;
            all_columns = all_columns;
            sql_if = sql_if;
          })

      -- `none` is the panic on a type that is not known.
      unfoldable pub new :
          ℕ
          → List StataColumnInfo
          → List Text
          → Option ℕ
          → ℕ
          → ℕ
          → Option Text
          → Option StataDataScan
      new n_obs column_info all_columns batch_size initial_offset n_rows sql_if =
          scan_with (stata_column_info_to_schema column_info) n_obs column_info all_columns
            batch_size initial_offset n_rows sql_if

      module _ (apply_sql : Text → List (Series F) → Outcome E (List (Series F))) where
        -- The condition, where there is one.
        abbrev pub filtered : Option Text → List (Series F) → Outcome E (List (Series F))
        filtered none columns = ok columns
        filtered (some sql_if) columns =
            if is_empty sql_if then ok columns else apply_sql sql_if columns

        unfoldable pub read_single_batch : StataDataScan → ℕ → ℕ → Outcome E (List (Series F))
        read_single_batch sds offset n_rows =
            let n_rows_to_read = min n_rows (sds.n_rows - offset) in
            read_columns sds.column_info sds.schema n_rows_to_read offset 0 sds.all_columns
            >>= filtered sds.sql_if

        abbrev pub empty_with_schema : Schema → List (Series F)
        empty_with_schema [] = []
        empty_with_schema ((name, dtype) ∷ schema) =
            record { name = name; dtype = dtype; cells = [] } ∷ empty_with_schema schema

        -- `limit` is the number of rows that Polars asks for.
        unfoldable pub scan : StataDataScan → Option ℕ → Outcome E (List (Series F))
        scan sds limit =
            if sds.n_rows == 0
            then ok (empty_with_schema sds.schema)
            else read_single_batch sds 0 (min (unwrap_or limit sds.n_rows) sds.n_rows)
