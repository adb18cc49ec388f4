-- ===== src/Read/Formats.antt =====
-- `InputFormat` and `parse_polars_debug_dtype` of src/read.rs.
use stata_parquet_io.Prelude.{◌≡◌, refl, ◌||◌, [], Option, none, some, ◌==◌, if◌then◌else◌}
use stata_parquet_io.Prelude.Text.{
  Text, codes, text_Eq, text_eq, to_ascii_lowercase, starts_with, contains_text,
}
use stata_parquet_io.DataTypes.{TimeUnit, DataType}

pub data InputFormat : Type 0 where
  parquet : InputFormat
  sas : InputFormat
  spss : InputFormat
  csv : InputFormat

unfoldable pub from_str : Text → Option InputFormat
from_str value =
    let l = to_ascii_lowercase value in
    if (l == []) || (l == codes "parquet")
    then some InputFormat.parquet
    else if (l == codes "sas") || (l == codes "sas7bdat")
    then some InputFormat.sas
    else if (l == codes "spss") || (l == codes "sav") || (l == codes "zsav")
    then some InputFormat.spss
    else if l == codes "csv"
    then some InputFormat.csv
    else none

unfoldable pub as_str : InputFormat → Text
as_str InputFormat.parquet = codes "parquet"
as_str InputFormat.sas = codes "sas"
as_str InputFormat.spss = codes "spss"
as_str InputFormat.csv = codes "csv"

-- `Null` is among the variants that the sources name nowhere else.
abbrev null_type : DataType
null_type = DataType.other 0

unfoldable pub parse_polars_debug_dtype : Text → Option DataType
parse_polars_debug_dtype dtype =
    if dtype == codes "Boolean"
    then some DataType.boolean
    else if dtype == codes "Int8"
    then some DataType.int8
    else if dtype == codes "Int16"
    then some DataType.int16
    else if dtype == codes "Int32"
    then some DataType.int32
    else if dtype == codes "Int64"
    then some DataType.int64
    else if dtype == codes "UInt8"
    then some DataType.uint8
    else if dtype == codes "UInt16"
    then some DataType.uint16
    else if dtype == codes "UInt32"
    then some DataType.uint32
    else if dtype == codes "UInt64"
    then some DataType.uint64
    else if dtype == codes "Float32"
    then some DataType.float32
    else if dtype == codes "Float64"
    then some DataType.float64
    else if dtype == codes "Date"
    then some DataType.date
    else if dtype == codes "Time"
    then some DataType.time
    else if dtype == codes "String"
    then some DataType.string
    else if dtype == codes "Binary"
    then some DataType.binary
    else if dtype == codes "Null"
    then some null_type
    else if starts_with (codes "Datetime(") dtype
    then (if contains_text (codes "Nanoseconds") dtype
        then some (DataType.datetime TimeUnit.nanoseconds)
        else if contains_text (codes "Microseconds") dtype
        then some (DataType.datetime TimeUnit.microseconds)
        else if contains_text (codes "Milliseconds") dtype
        then some (DataType.datetime TimeUnit.milliseconds)
        else none)
    else none

-- A format reads back from the name it has, in any case.
pub from_str-as_str :
    (format : InputFormat) (value : Text)
    → to_ascii_lowercase value ≡ as_str format
    → from_str value ≡ some format
unfolding from_str as_str text_eq
from_str-as_str InputFormat.parquet value h = rw h refl
from_str-as_str InputFormat.sas value h = rw h refl
from_str-as_str InputFormat.spss value h = rw h refl
from_str-as_str InputFormat.csv value h = rw h refl
