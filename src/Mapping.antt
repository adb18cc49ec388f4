-- ===== src/Mapping.antt =====
-- src/mapping.rs: the storage types of Stata, and how Polars' types correspond to them.
pub mod Ranges
pub mod Rename
pub mod Agreement
use stata_parquet_io.Prelude.{
  ℕ, String, unwrap_or, Bool, true, false, ◌||◌, List, [], ◌∷◌, Option, none, some, ltb, ◌==◌,
  if◌then◌else◌, nat_eq,
}
use stata_parquet_io.Prelude.Text.{
  Text, codes, text_Eq, to_ascii_lowercase, contains_text, starts_with,
}
use stata_parquet_io.DataTypes.{TimeUnit, DataType, Schema}

pub data StataType : Type 0 where
  byte : StataType
  int : StataType
  long : StataType
  float : StataType
  double : StataType
  date : StataType
  time : StataType
  datetime : StataType
  string : StataType
  strl : StataType
  binary : StataType

unfoldable pub to_string : StataType → Text
to_string StataType.byte = codes "byte"
to_string StataType.int = codes "int"
to_string StataType.long = codes "long"
to_string StataType.float = codes "float"
to_string StataType.double = codes "double"
to_string StataType.date = codes "date"
to_string StataType.time = codes "time"
to_string StataType.datetime = codes "datetime"
to_string StataType.string = codes "string"
to_string StataType.strl = codes "strl"
to_string StataType.binary = codes "binary"

-- `to_lowercase` is the one for ASCII: no letter outside it becomes a letter of these words.
unfoldable pub from_str : Text → Option StataType
from_str s =
    let l = to_ascii_lowercase s in
    if l == codes "byte"
    then some StataType.byte
    else if l == codes "int"
    then some StataType.int
    else if l == codes "long"
    then some StataType.long
    else if l == codes "float"
    then some StataType.float
    else if l == codes "double"
    then some StataType.double
    else if l == codes "date"
    then some StataType.date
    else if l == codes "time"
    then some StataType.time
    else if l == codes "datetime"
    then some StataType.datetime
    else if l == codes "string"
    then some StataType.string
    else if l == codes "strl"
    then some StataType.strl
    else if l == codes "binary"
    then some StataType.binary
    else none

unfoldable pub integer_rank : StataType → Option ℕ
integer_rank StataType.byte = some 1
integer_rank StataType.int = some 2
integer_rank StataType.long = some 3
integer_rank StataType.double = some 4
integer_rank _ = none

-- `recorded.unwrap()` stands where `recorded` is there, since its rank is.
unfoldable pub widen_with_recorded_type : StataType → Option StataType → StataType
unfolding integer_rank
widen_with_recorded_type verified_safe none = verified_safe
widen_with_recorded_type verified_safe (some recorded) = elim (integer_rank recorded) [
  | some recorded_rank ↦
      let safe_rank = unwrap_or (integer_rank verified_safe) 4 in
      if ltb safe_rank recorded_rank then recorded else verified_safe
  | none ↦ verified_safe
]

unfoldable pub is_string_type : DataType → Bool
is_string_type DataType.string = true
is_string_type DataType.categorical = true
is_string_type DataType.enumeration = true
is_string_type _ = false

abbrev pub by_length : ℕ → StataType
by_length str_length = if ltb 2045 str_length then StataType.strl else StataType.string

unfoldable pub map_polars_to_stata : DataType → ℕ → StataType
map_polars_to_stata DataType.boolean n = StataType.byte
map_polars_to_stata DataType.int8 n = StataType.int
map_polars_to_stata DataType.int16 n = StataType.long
map_polars_to_stata DataType.int32 n = StataType.double
map_polars_to_stata DataType.int64 n = StataType.double
map_polars_to_stata DataType.uint8 n = StataType.int
map_polars_to_stata DataType.uint16 n = StataType.long
map_polars_to_stata DataType.uint32 n = StataType.long
map_polars_to_stata DataType.uint64 n = StataType.double
map_polars_to_stata DataType.float32 n = StataType.float
map_polars_to_stata DataType.float64 n = StataType.double
map_polars_to_stata DataType.date n = StataType.date
map_polars_to_stata DataType.time n = StataType.time
map_polars_to_stata (DataType.datetime u) n = StataType.datetime
map_polars_to_stata DataType.string n = by_length n
map_polars_to_stata DataType.categorical n = by_length n
map_polars_to_stata DataType.enumeration n = by_length n
map_polars_to_stata DataType.binary n = StataType.binary
map_polars_to_stata (DataType.other k) n = StataType.double

unfoldable pub map_stata_to_polars : StataType → DataType
map_stata_to_polars StataType.byte = DataType.int8
map_stata_to_polars StataType.int = DataType.int16
map_stata_to_polars StataType.long = DataType.int32
map_stata_to_polars StataType.float = DataType.float32
map_stata_to_polars StataType.double = DataType.float64
map_stata_to_polars StataType.date = DataType.date
map_stata_to_polars StataType.time = DataType.time
map_stata_to_polars StataType.datetime = DataType.datetime TimeUnit.milliseconds
map_stata_to_polars StataType.string = DataType.string
map_stata_to_polars StataType.strl = DataType.string
map_stata_to_polars StataType.binary = DataType.binary

pub record ColumnInfo : Type 0 where
  pub index : ℕ
  pub name : Text
  pub dtype : Text
  pub stata_type : Text

pub record StataColumnInfo : Type 0 where
  pub name : Text
  pub dtype : Text
  pub format : Text
  pub str_length : ℕ
  pub stata_col : ℕ

abbrev pub starts_with_any : List String → Text → Bool
starts_with_any [] s = false
starts_with_any (p ∷ ps) s = starts_with (codes p) s || starts_with_any ps s

unfoldable pub match_var_format_stata : Text → Option StataType
match_var_format_stata format_str =
    let format_lower = to_ascii_lowercase format_str in
    if contains_text (codes "hh:mm:ss") format_lower || contains_text (codes "hh:mm") format_lower
    then some StataType.time
    else if starts_with_any ("%tc" ∷ "%c" ∷ "%tn" ∷ "%n" ∷ "%tu" ∷ "%u" ∷ []) format_lower
    then some StataType.datetime
    else if starts_with_any ("%td" ∷ "%d" ∷ "%tw" ∷ "%tm" ∷ "%tq" ∷ "%th" ∷ "%ty" ∷ "%tb" ∷ [])
          format_lower
        || (format_lower == codes "%tdd_m_y")
        || (format_lower == codes "%tdccyy-nn-dd")
        || (format_lower == codes "%d")
    then some StataType.date
    else none

-- `none` is the panic on an unknown type.
unfoldable pub resolve_stata_type : Text → Text → Option StataType
resolve_stata_type dtype format =
    let l = to_ascii_lowercase dtype in
    let by_format = match_var_format_stata format in
    if l == codes "string"
    then some StataType.string
    else if l == codes "strl"
    then some StataType.strl
    else if l == codes "binary"
    then some StataType.binary
    else if l == codes "byte"
    then some StataType.byte
    else if l == codes "int"
    then some (unwrap_or by_format StataType.int)
    else if l == codes "long"
    then some (unwrap_or by_format StataType.long)
    else if l == codes "float"
    then some (unwrap_or by_format StataType.float)
    else if l == codes "double"
    then some (unwrap_or by_format StataType.double)
    else none

unfoldable pub stata_column_info_to_schema : List StataColumnInfo → Option Schema
stata_column_info_to_schema [] = some []
stata_column_info_to_schema (col ∷ column_info) = elim (resolve_stata_type col.dtype col.format) [
  | none ↦ none
  | some stata_type ↦ elim (stata_column_info_to_schema column_info) [
    | none ↦ none
    | some fields ↦ some ((col.name, map_stata_to_polars stata_type) ∷ fields)
  ]
]

unfoldable pub find_str_length_by_name : List StataColumnInfo → Text → Option ℕ
find_str_length_by_name [] target_name = none
find_str_length_by_name (col ∷ columns) target_name =
    let rest = find_str_length_by_name columns target_name in
    if col.name == target_name then some col.str_length else rest
