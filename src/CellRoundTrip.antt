-- ===== src/CellRoundTrip.antt =====
-- Numbers, dates and times through the cells of Stata: what `process_row_range` of src/read.rs writes for a
-- value, `replace_number` stores and `read_numeric` gives, and what `process_column` of src/write.rs reads.
mod Bounds
mod Numbers
use stata_parquet_io.Prelude.{
  ℕ, ◌*◌, ◌/◌, ◌^◌, ◌≤◌, ◌<◌, ◌≡◌, refl, sym, ap, ap₂, ◌∙◌, Bool, true, false, Option, none, some,
  ok, arith,
}
use stata_parquet_io.Prelude.Text.{Text, codes, text_eq}
use stata_parquet_io.Prelude.Int.{
  ℤ, pos, negsuc, ◌+ℤ◌, ◌-ℤ◌, scale, quot, wrap, IsSigned, wrap-IsSigned,
}
use stata_parquet_io.DataTypes.{TimeUnit, DataType, data_type_eq, code}
use stata_parquet_io.Mapping.{StataType, ColumnInfo, to_string, map_polars_to_stata}
use stata_parquet_io.Mapping.Ranges.{Holds, IsValue, map_polars_to_stata-Holds}
use stata_parquet_io.StataCells.{Variables, AreStata, variable_type, read_numeric, replace_number}
use stata_parquet_io.Floats.{Floats, AreExact, IsExact}
use stata_parquet_io.Read.Values.{
  AnyValue, Written, Converter, from_boolean, from_int8, from_int16, from_int32, from_float32,
  from_float64, from_date, from_time, from_datetime, as_number, column_values,
  process_numeric_column, process_datetime_column, arm_of,
}
use stata_parquet_io.Write.Scan.{Cells, Reader, reader_of, from_cell, to_date, to_time, to_datetime}
use stata_parquet_io.CellRoundTrip.Bounds.{
  sub_add, sum-IsExact, Holds-IsSigned, int8-IsValue, int16-IsValue, int32-IsValue, wider,
  IsSigned-IsExact, IsSigned-Holds,
}
use stata_parquet_io.CellRoundTrip.Numbers.{int_back, date_back, time_back, datetime_back}

-- How Polars prints the type, for the types that come back as they were.
abbrev pub printed : DataType → Text
printed DataType.boolean = codes "Boolean"
printed DataType.int8 = codes "Int8"
printed DataType.int16 = codes "Int16"
printed DataType.int32 = codes "Int32"
printed DataType.float32 = codes "Float32"
printed DataType.float64 = codes "Float64"
printed DataType.date = codes "Date"
printed DataType.time = codes "Time"
printed _ = codes "Datetime"

abbrev pub info_of : ℕ → Text → DataType → ColumnInfo
info_of index name dtype = record {
  index = index;
  name = name;
  dtype = printed dtype;
  stata_type = to_string (map_polars_to_stata dtype 0);
}

module _ (floats : Floats) (exact : AreExact floats) (vars : Variables floats)
    (stata : AreStata floats vars) where
  open floats use {F, of_int, narrow}
  open vars use {vstore, is_missing}

  -- A value that the cells of Stata hold at its type: one within bounds, or none. A float is none of the
  -- codes of missing values, and one of 32 bits is kept by a float of Stata. A date fits 32 bits, and
  -- moved to Stata's epoch a long; a time is whole milliseconds, and a datetime is below 2 ^ 52
  -- milliseconds.
  pub data IsStorable : DataType → AnyValue F → Type 0 where
    boolean : (b : Bool) → IsStorable DataType.boolean (AnyValue.boolean b)
    int8 : (z : ℤ) → IsSigned 0x80 z → IsStorable DataType.int8 (AnyValue.int8 z)
    int16 : (z : ℤ) → IsSigned 0x8000 z → IsStorable DataType.int16 (AnyValue.int16 z)
    int32 : (z : ℤ) → IsSigned 0x8000_0000 z → IsStorable DataType.int32 (AnyValue.int32 z)
    float32 :
        (x : F)
        → narrow x ≡ x
        → is_missing x ≡ false
        → vstore StataType.float x ≡ x
        → IsStorable DataType.float32 (AnyValue.float32 x)
    float64 : (x : F) → is_missing x ≡ false → IsStorable DataType.float64 (AnyValue.float64 x)
    date :
        (z : ℤ)
        → IsSigned 0x8000_0000 z
        → Holds StataType.long (z +ℤ pos 3653)
        → IsStorable DataType.date (AnyValue.date z)
    time : (ms : ℕ) → ms < 2 ^ 40 → IsStorable DataType.time (AnyValue.time (pos (1000000 * ms)))
    datetime :
        (z : ℤ)
        → IsSigned (2 ^ 52) z
        → IsStorable (DataType.datetime TimeUnit.milliseconds) (AnyValue.datetime z)
    missing :
        (dtype : DataType) (v : AnyValue F) → IsStorable dtype v → IsStorable dtype AnyValue.null

  abbrev pub number_in : Option (Written F) → Option F
  number_in none = none
  number_in (some (Written.number x)) = some x
  number_in (some (Written.text s)) = none

  -- The storage type and the variable of a column of the type.
  abbrev pub storage_type : DataType → StataType
  storage_type dtype = variable_type floats (map_polars_to_stata dtype 0)

  kept-there :
      (t : StataType) (x before : F)
      → vstore t x ≡ x
      → is_missing x ≡ false
      → read_numeric floats vars (some (replace_number floats vars t (some x) before)) ≡ some x
  kept-there t x before keeps there = rw (keeps, there) refl

  kept-Holds :
      (t : StataType) (z : ℤ) (before : F)
      → Holds t z
      → read_numeric floats vars (some (replace_number floats vars t (some (of_int z)) before))
        ≡ some (of_int z)
  kept-Holds t z before h =
      kept-there t (of_int z) before (stata.keeps t z h) (stata.is_there t z h)

  -- The cell is missing before it is written, as in a new variable.
  module _ (cells : Cells floats) (before : F) (empty : is_missing before ≡ true) where
    -- The cell as `process_column` reads it for a column of the type.
    abbrev pub read_as : Reader F → Option F → AnyValue F
    read_as (Reader.numbers convert) o = from_cell floats convert o
    read_as _ o = AnyValue.null

    -- What is read of a cell after what a batch writes into it.
    abbrev pub cell_kept : DataType → Option F → Option F
    cell_kept dtype o =
        read_numeric floats vars (some (replace_number floats vars (storage_type dtype) o before))

    abbrev pub read_back : DataType → Option (Written F) → AnyValue F
    read_back dtype o = read_as (reader_of floats cells dtype) (cell_kept dtype (number_in o))

    kept-none : (dtype : DataType) → cell_kept dtype none ≡ none
    kept-none dtype = rw empty refl

    date_kept :
        (z : ℤ)
        → Holds StataType.long (z +ℤ pos 3653)
        → cell_kept DataType.date (some (of_int (wrap 0x8000_0000 (z +ℤ pos 3653))))
          ≡ some (of_int (wrap 0x8000_0000 (z +ℤ pos 3653)))
    unfolding map_polars_to_stata
    date_kept z h =
        rw (wrap-IsSigned 0x8000_0000 (z +ℤ pos 3653) (Holds-IsSigned (z +ℤ pos 3653) h))
          (kept-Holds StataType.long (z +ℤ pos 3653) before h)

    time_kept :
        (ms : ℕ)
        → ms < 2 ^ 40
        → cell_kept DataType.time (some (of_int (quot 1000000 (pos (1000000 * ms)))))
          ≡ some (of_int (quot 1000000 (pos (1000000 * ms))))
    unfolding map_polars_to_stata
    time_kept ms h =
        kept-Holds StataType.double (pos (1000000 * ms / 1000000)) before
          (omega arith, omega (arith, h))

    datetime_kept :
        (z : ℤ)
        → IsSigned (2 ^ 52) z
        → (let x : F =
              floats.plus
                (floats.over (of_int z) (of_int (pos 1)))
                (floats.times (of_int (pos 315619200)) (of_int (pos 1000))) in
            cell_kept (DataType.datetime TimeUnit.milliseconds) (some x) ≡ some x)
    unfolding map_polars_to_stata
    datetime_kept z h =
        let shift : ℤ = pos (1000 * 315619200) in
        let z_exact : IsExact z = IsSigned-IsExact (2 ^ 52) z (omega arith) h in
        rw
          (
            exact.over_one (of_int z),
            exact.times-of_int 1000 315619200 (omega arith),
            exact.plus-of_int z shift z_exact (omega arith) (sum-IsExact z h),
          )
          (kept-Holds StataType.double (z +ℤ shift) before
            (IsSigned-Holds (z +ℤ shift) (sum-IsExact z h)))

    -- How a column of the type is written, and that the value comes back.
    module _ {E : Type 0} (no_time_unit : E) (index : ℕ) (name : Text) (get : ℕ → AnyValue F) where
      abbrev Comes : DataType → AnyValue F → Type 0
      Comes dtype v =
          (convert : Converter floats) × (column_values floats no_time_unit
              (info_of index name dtype) (record { dtype = dtype; get = get })
            ≡ ok (some (λ r. as_number floats no_time_unit (convert (get r)))))
          × (convert AnyValue.null ≡ none)
          × (read_as (reader_of floats cells dtype) none ≡ AnyValue.null)
          × (cell_kept dtype (convert v) ≡ convert v)
          × (read_as (reader_of floats cells dtype) (convert v) ≡ v)

      number_back : (o : Option F) → number_in (as_number floats no_time_unit o) ≡ o
      number_back none = refl
      number_back (some x) = refl

      comes : (dtype : DataType) (v : AnyValue F) → IsStorable dtype v → Comes dtype v
      unfolding column_values process_numeric_column process_datetime_column arm_of text_eq
          to_string map_polars_to_stata data_type_eq code
      comes _ _ (IsStorable.boolean true) = (
        from_boolean floats,
        refl,
        refl,
        refl,
        kept-Holds StataType.byte (pos 1) before (omega arith, omega arith),
        ap AnyValue.boolean (exact.is_positive-of_int 1),
      )
      comes _ _ (IsStorable.boolean false) = (
        from_boolean floats,
        refl,
        refl,
        refl,
        kept-Holds StataType.byte (pos 0) before (omega arith, omega arith),
        ap AnyValue.boolean (exact.is_positive-of_int 0),
      )
      comes _ _ (IsStorable.int8 z h) = (
        from_int8 floats,
        refl,
        refl,
        refl,
        kept-Holds StataType.int z before
            (map_polars_to_stata-Holds DataType.int8 0 z (int8-IsValue z h)),
        ap AnyValue.int8 (int_back floats exact 0x80 z (omega arith) h),
      )
      comes _ _ (IsStorable.int16 z h) = (
        from_int16 floats,
        refl,
        refl,
        refl,
        kept-Holds StataType.long z before
            (map_polars_to_stata-Holds DataType.int16 0 z (int16-IsValue z h)),
        ap AnyValue.int16 (int_back floats exact 0x8000 z (omega arith) h),
      )
      comes _ _ (IsStorable.int32 z h) = (
        from_int32 floats,
        refl,
        refl,
        refl,
        kept-Holds StataType.double z before
            (map_polars_to_stata-Holds DataType.int32 0 z (int32-IsValue z h)),
        ap AnyValue.int32 (int_back floats exact 0x8000_0000 z (omega arith) h),
      )
      comes _ _ (IsStorable.float32 x h there keeps) = (
        from_float32 floats,
        refl,
        refl,
        refl,
        kept-there StataType.float x before keeps there,
        ap AnyValue.float32 h,
      )
      comes _ _ (IsStorable.float64 x there) = (
        from_float64 floats,
        refl,
        refl,
        refl,
        kept-there StataType.double x before (stata.double_keeps x there) there,
        refl,
      )
      comes _ _ (IsStorable.date z h s) =
          let fits = Holds-IsSigned (z +ℤ pos 3653) s in
          (from_date floats, refl, refl, refl, date_kept z s, date_back floats exact z h fits)
      comes _ _ (IsStorable.time ms h) =
          (from_time floats, refl, refl, refl, time_kept ms h, time_back floats exact ms h)
      comes _ _ (IsStorable.datetime z h) = (
        from_datetime floats TimeUnit.milliseconds,
        refl,
        refl,
        refl,
        datetime_kept z h,
        datetime_back floats exact z h,
      )
      comes dtype _ (IsStorable.missing _ v s) =
          let (convert, written, absent, no_cell, keeps, back) = comes dtype v s in
          (
            convert,
            written,
            absent,
            no_cell,
            ap (λ o. cell_kept dtype o) absent ∙ kept-none dtype ∙ sym absent,
            ap (λ o. read_as (reader_of floats cells dtype) o) absent ∙ no_cell,
          )

      -- A column of Booleans, of integers of at most 32 bits, of floats, dates, times or datetimes in
      -- milliseconds is written by the storage type chosen for it by default. Where its row has a value
      -- that the cells of Stata hold, or none, a save that reads the cell at the type of the column, of a
      -- variable that the command made new for it, has that value, or none. A value that Stata takes for
      -- missing is not among those that its cells hold.
      pub column_values-read_back :
          (dtype : DataType) (row : ℕ)
          → IsStorable dtype (get row)
          → (written : ℕ → Option (Written F)) × (column_values floats no_time_unit
                (info_of index name dtype)
                (record { dtype = dtype; get = get })
              ≡ ok (some written))
            × (read_back dtype (written row) ≡ get row)
      column_values-read_back dtype row s =
          let (convert, written, absent, no_cell, keeps, back) = comes dtype (get row) s in
          (
            λ r. as_number floats no_time_unit (convert (get r)),
            written,
            ap (λ o. read_as (reader_of floats cells dtype) (cell_kept dtype o))
                  (number_back (convert (get row)))
                ∙ ap (λ o. read_as (reader_of floats cells dtype) o) keeps
                ∙ back,
          )
