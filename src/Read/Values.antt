-- ===== src/Read/Values.antt =====
-- What a column writes for each of its rows (src/read.rs): `process_numeric_column`,
-- `process_datetime_column` and the arm of `string` in `process_row_range`.
--
-- A column is its type and its cells; the typed views of Polars (`i8()`, `str()` and so on) are there
-- exactly for columns of their type. A loop over the rows of a range gives what it writes at each.
use stata_parquet_io.Prelude.{
  ℕ, String, ◌++◌, ◌/◌, Bool, true, false, List, [], ◌∷◌, Option, none, some, Outcome, ok, err,
  ◌==◌, if◌then◌else◌,
}
use stata_parquet_io.Prelude.Text.{Text, codes, text_Eq}
use stata_parquet_io.Prelude.Int.{ℤ, pos, ◌+ℤ◌, quot, wrap}
use stata_parquet_io.DataTypes.{TimeUnit, DataType, data_type_Eq}
use stata_parquet_io.Mapping.{ColumnInfo}
use stata_parquet_io.Floats.{Floats}

abbrev pub day_shift_sas_stata : ℕ
day_shift_sas_stata = 3653

abbrev pub sec_shift_sas_stata : ℕ
sec_shift_sas_stata = 315619200

abbrev pub sec_millisecond : ℕ
sec_millisecond = 1000

abbrev pub sec_microsecond : ℕ
sec_microsecond = 1000000

abbrev pub sec_nanosecond : ℕ
sec_nanosecond = 1000000000

-- Polars' `AnyValue`, as far as the conversions name its variants.
pub data AnyValue (F : Type 0) : Type 0 where
  null : AnyValue F
  boolean : Bool → AnyValue F
  int8 : ℤ → AnyValue F
  int16 : ℤ → AnyValue F
  int32 : ℤ → AnyValue F
  int64 : ℤ → AnyValue F
  uint8 : ℤ → AnyValue F
  uint16 : ℤ → AnyValue F
  uint32 : ℤ → AnyValue F
  uint64 : ℤ → AnyValue F
  float32 : F → AnyValue F
  float64 : F → AnyValue F
  string : Text → AnyValue F
  date : ℤ → AnyValue F
  time : ℤ → AnyValue F
  datetime : ℤ → AnyValue F

pub record Column (F : Type 0) : Type 0 where
  pub dtype : DataType
  pub get : ℕ → AnyValue F

-- What is written to a cell of Stata.
pub data Written (F : Type 0) : Type 0 where
  number : F → Written F
  text : Text → Written F

module _ (floats : Floats) where
  open floats use {F, of_int, plus, times, over}

  abbrev pub Converter : Type 0
  Converter = AnyValue F → Option F

  abbrev pub from_boolean : Converter
  from_boolean (AnyValue.boolean true) = some (of_int (pos 1))
  from_boolean (AnyValue.boolean false) = some (of_int (pos 0))
  from_boolean _ = none

  abbrev pub from_int8 : Converter
  from_int8 (AnyValue.int8 v) = some (of_int v)
  from_int8 _ = none

  abbrev pub from_int16 : Converter
  from_int16 (AnyValue.int16 v) = some (of_int v)
  from_int16 _ = none

  abbrev pub from_int32 : Converter
  from_int32 (AnyValue.int32 v) = some (of_int v)
  from_int32 _ = none

  abbrev pub from_int64 : Converter
  from_int64 (AnyValue.int64 v) = some (of_int v)
  from_int64 _ = none

  abbrev pub from_uint8 : Converter
  from_uint8 (AnyValue.uint8 v) = some (of_int v)
  from_uint8 _ = none

  abbrev pub from_uint16 : Converter
  from_uint16 (AnyValue.uint16 v) = some (of_int v)
  from_uint16 _ = none

  abbrev pub from_uint32 : Converter
  from_uint32 (AnyValue.uint32 v) = some (of_int v)
  from_uint32 _ = none

  abbrev pub from_uint64 : Converter
  from_uint64 (AnyValue.uint64 v) = some (of_int v)
  from_uint64 _ = none

  abbrev pub from_float32 : Converter
  from_float32 (AnyValue.float32 v) = some v
  from_float32 _ = none

  abbrev pub from_float64 : Converter
  from_float64 (AnyValue.float64 v) = some v
  from_float64 _ = none

  -- The sum of two `i32`.
  abbrev pub from_date : Converter
  from_date (AnyValue.date v) = some (of_int (wrap 0x8000_0000 (v +ℤ pos day_shift_sas_stata)))
  from_date _ = none

  abbrev pub from_time : Converter
  from_time (AnyValue.time v) = some (of_int (quot sec_microsecond v))
  from_time _ = none

  abbrev pub Arm : Type 0
  Arm = String × DataType × Converter

  -- The arms of both `match`es of `process_numeric_column`.
  abbrev pub typed_arms : List Arm
  typed_arms =
      ("Boolean", DataType.boolean, from_boolean)
      ∷ ("Int8", DataType.int8, from_int8)
      ∷ ("Int16", DataType.int16, from_int16)
      ∷ ("Int32", DataType.int32, from_int32)
      ∷ ("Int64", DataType.int64, from_int64)
      ∷ ("UInt8", DataType.uint8, from_uint8)
      ∷ ("UInt16", DataType.uint16, from_uint16)
      ∷ ("UInt32", DataType.uint32, from_uint32)
      ∷ ("UInt64", DataType.uint64, from_uint64)
      ∷ ("Float32", DataType.float32, from_float32)
      ∷ ("Float64", DataType.float64, from_float64)
      ∷ []

  abbrev pub arms : List Arm
  arms = typed_arms ++ ("Date", DataType.date, from_date) ∷ ("Time", DataType.time, from_time) ∷ []

  -- The arm of a printed type.
  unfoldable pub arm_of : Text → List Arm → Option (DataType × Converter)
  arm_of dtype [] = none
  arm_of dtype ((name, t, converter) ∷ rest) =
      let later = arm_of dtype rest in if dtype == codes name then some (t, converter) else later

  -- The typed path: an arm whose view the column has.
  abbrev pub typed_path : Column F → Option (DataType × Converter) → Option (ℕ → Option F)
  typed_path col none = none
  typed_path col (some (t, converter)) =
      if col.dtype == t then some (λ row. converter (col.get row)) else none

  abbrev pub any_value_path : Column F → Option (DataType × Converter) → Option (ℕ → Option F)
  any_value_path col none = none
  any_value_path col (some (t, converter)) = some (λ row. converter (col.get row))

  abbrev pub first_some {ℓ} : {A : Type ℓ} → Option A → Option A → Option A
  first_some none b = b
  first_some (some a) b = some a

  -- `none` where the type is skipped.
  unfoldable pub process_numeric_column : ColumnInfo → Column F → Option (ℕ → Option F)
  process_numeric_column col_info col =
      first_some (typed_path col (arm_of col_info.dtype typed_arms))
        (any_value_path col (arm_of col_info.dtype arms))

  abbrev pub time_unit_of : DataType → Option TimeUnit
  time_unit_of (DataType.datetime unit) = some unit
  time_unit_of _ = none

  abbrev pub mills_factor : TimeUnit → F
  mills_factor TimeUnit.nanoseconds = of_int (pos (sec_nanosecond / sec_millisecond))
  mills_factor TimeUnit.microseconds = of_int (pos (sec_microsecond / sec_millisecond))
  mills_factor TimeUnit.milliseconds = of_int (pos 1)

  abbrev pub sec_shift_scaled : F
  sec_shift_scaled = times (of_int (pos sec_shift_sas_stata)) (of_int (pos sec_millisecond))

  abbrev pub from_datetime : TimeUnit → Converter
  from_datetime unit (AnyValue.datetime v) =
      some (plus (over (of_int v) (mills_factor unit)) sec_shift_scaled)
  from_datetime unit _ = none

  module _ {E : Type 0} (no_time_unit : E) where
    unfoldable pub process_datetime_column : Column F → Outcome E (ℕ → Option F)
    process_datetime_column col = elim (time_unit_of col.dtype) [
      | none ↦ err no_time_unit
      | some unit ↦ ok (λ row. from_datetime unit (col.get row))
    ]

    abbrev pub as_number : Option F → Option (Written F)
    as_number none = none
    as_number (some x) = some (Written.number x)

    abbrev pub as_text : AnyValue F → Option (Written F)
    as_text (AnyValue.string s) = some (Written.text s)
    as_text _ = none

    abbrev pub numbers : Option (ℕ → Option F) → Option (ℕ → Option (Written F))
    numbers none = none
    numbers (some f) = some (λ row. as_number (f row))

    abbrev pub datetimes : Outcome E (ℕ → Option F) → Outcome E (Option (ℕ → Option (Written F)))
    datetimes (err e) = err e
    datetimes (ok f) = ok (some (λ row. as_number (f row)))

    -- The arms of `process_row_range` after those of `strl` and `binary`.
    unfoldable pub column_values :
        ColumnInfo → Column F → Outcome E (Option (ℕ → Option (Written F)))
    column_values col_info col =
        if col_info.stata_type == codes "string"
        then ok (if col.dtype == DataType.string then some (λ row. as_text (col.get row)) else none)
        else if col_info.stata_type == codes "datetime"
        then datetimes (process_datetime_column col)
        else ok (numbers (process_numeric_column col_info col))
