-- ===== src/Tests/Files.antt =====
-- Runs of the definitions that model src/parquet_stats.rs, src/describe.rs, src/write.rs and src/lib.rs.
use stata_parquet_io.Prelude.{
  ◌==◌, if◌then◌else◌, ◌^◌, ◌-◌, ◌<◌, ◌≡◌, refl, ◌↔◌, arith, true, false, not, ◌&&◌, List, [], ◌∷◌,
  Option, none, some, ok, leb, if◌then◌else◌, contains,
}
use stata_parquet_io.Prelude.Int.{ℤ, pos}
use stata_parquet_io.Prelude.Text.{
  Text, codes, text_Eq, text_eq, trim, parse_usize, parse_below, parse_digits, show_ℕ, starts_with,
  ends_with, to_ascii_lowercase, lower_char,
}
use stata_parquet_io.DataTypes.{DataType, Schema}
use stata_parquet_io.Mapping.{
  StataColumnInfo, StataType, from_str, integer_rank, widen_with_recorded_type,
}
use stata_parquet_io.Mapping.Ranges.{Holds}
use stata_parquet_io.Downcast.{find_optimal_integer_type, polars_type_to_stata_type}
use stata_parquet_io.ParquetStats.{Statistics, RowGroup, integer_ranges_from_footer_stats}
use stata_parquet_io.ParquetStats.Hull.{hull, all_ranges, integer_ranges_from_footer_stats-eq-hull}
use stata_parquet_io.Describe.{
  safe_integer_type_overrides, integer_cols, recorded_types, override, is_narrow_integer,
}
use stata_parquet_io.Describe.Safety.{safe_integer_type_overrides-Holds}
use stata_parquet_io.Read.Formats
use stata_parquet_io.Read.Formats.{InputFormat, as_str, from_str-as_str}
use stata_parquet_io.Dispatch.{Session}
use stata_parquet_io.Dispatch.Call.{Handlers, stata_call}
use stata_parquet_io.Dispatch.Threads.{after, after-max_threads, stata_call-set_threads}
use stata_parquet_io.Write.Directory.{
  Entry, Entries, OnlyHive, is_hive_style_parquet_directory, check_recursive, check_entry,
  is_hive_style_parquet_directory_iff,
}
use stata_parquet_io.Write.Index.{
  IsBelow, file_index, max_idx, next_partition_file_index, next_partition_file_index-IsFresh,
}
use stata_parquet_io.Write.Columns.{
  column_info_from_macros, column_info_from_macros-AreRenamed, HoldsColumns, AreRenamed,
}

abbrev ages : RowGroup
ages name = some (some (Statistics.int32 (some (pos 3)) (some (pos 90))) ∷ [])

abbrev age_column : List Text
age_column = codes "age" ∷ []

age_column-contains : contains age_column (codes "age") ≡ true
unfolding text_eq
age_column-contains = refl

integer_ranges_example :
    integer_ranges_from_footer_stats
      (some (ages ∷ []) ∷ some (ages ∷ ages ∷ []) ∷ [])
      age_column
      (codes "age")
    ≡ hull (all_ranges (codes "age") (some (ages ∷ []) ∷ some (ages ∷ ages ∷ []) ∷ []))
integer_ranges_example =
    integer_ranges_from_footer_stats-eq-hull (some (ages ∷ []) ∷ some (ages ∷ ages ∷ []) ∷ [])
      age_column (codes "age") (refl, tt) age_column-contains

abbrev polars_name : DataType → Text
polars_name DataType.int8 = codes "Int8"
polars_name DataType.int16 = codes "Int16"
polars_name DataType.int32 = codes "Int32"
polars_name _ = codes "Int64"

abbrev ages_schema : Schema
ages_schema = (codes "age", DataType.int32) ∷ []

abbrev ages_range : List Text → Text → Option (ℤ × ℤ)
ages_range names name = some (pos 3, pos 90)

ages_are_bytes :
    safe_integer_type_overrides polars_name ages_range [] ages_schema [] (codes "age")
    ≡ some StataType.byte
unfolding safe_integer_type_overrides integer_cols recorded_types override is_narrow_integer
    from_str find_optimal_integer_type polars_type_to_stata_type to_ascii_lowercase lower_char
    text_eq widen_with_recorded_type integer_rank
ages_are_bytes = refl

safe_integer_type_overrides_example : Holds StataType.byte (pos 40)
safe_integer_type_overrides_example =
    safe_integer_type_overrides-Holds polars_name refl refl refl refl ages_range [] ages_schema []
      (codes "age") (pos 3) (pos 90) (pos 40) StataType.byte refl (ground arith) (ground arith)
      (ground arith) (ground arith) ages_are_bytes

lowered : to_ascii_lowercase (codes "SAS") ≡ as_str InputFormat.sas
unfolding to_ascii_lowercase lower_char as_str
lowered = refl

format_example : Formats.from_str (codes "SAS") ≡ some InputFormat.sas
format_example = from_str-as_str InputFormat.sas (codes "SAS") lowered

abbrev handlers : Handlers
handlers = record {
  data_exists = λ path. true;
  get_macro = λ name. [];
  read_to_stata = λ call. ok 0;
  file_summary = λ call. 0;
  write_from_stata = λ call. ok 198;
  describe_metadata = λ path quietly. ok true;
  write_overflow_batch_to_dta = λ call. ok 0;
  delete_existing_files = λ path overwrite. 0;
  create_dir_all = λ path. ok true;
  consolidate_parquet_dir = λ path. ok 0;
  stata_to_sql = λ condition. condition;
}

abbrev started : Session
started = record { polars_touched = true; polars_max_threads = none; sql_if = [] }

abbrev two_calls : List (List (Option Text))
two_calls =
    (some (codes "set_threads") ∷ some (codes "4") ∷ [])
    ∷ (some (codes "if") ∷ some (codes "x") ∷ [])
    ∷ []

after_example :
    ((after handlers started two_calls).polars_touched ≡ true)
    × ((after handlers started two_calls).polars_max_threads ≡ started.polars_max_threads)
after_example = after-max_threads handlers started two_calls refl

abbrev fresh : Session
fresh = record { polars_touched = false; polars_max_threads = none; sql_if = [] }

set_threads_example :
    stata_call handlers fresh (some (codes "set_threads") ∷ some (codes "4") ∷ [])
    ≡ (elim (parse_usize (trim (codes "4"))) [
      | none ↦ (198, fresh)
      | some n ↦
          if leb 1 n && not fresh.polars_touched
          then (0, record fresh { polars_max_threads = some (show_ℕ n) })
          else (198, fresh)
    ])
set_threads_example = stata_call-set_threads handlers fresh (codes "4")

abbrev partitions : Entries
partitions =
    Entries.and_entry
      (Entry.directory (some (codes "year=2020"))
        (Entries.and_entry (Entry.file (some (codes "data_0.parquet"))) Entries.no_entries))
      Entries.no_entries

is_hive_example : (is_hive_style_parquet_directory partitions ≡ true) ↔ OnlyHive partitions
is_hive_example = is_hive_style_parquet_directory_iff partitions

abbrev notes : Entries
notes = Entries.and_entry (Entry.file (some (codes "notes.txt"))) Entries.no_entries

notes_stay : is_hive_style_parquet_directory notes ≡ false
unfolding is_hive_style_parquet_directory check_recursive check_entry ends_with text_eq
notes_stay = refl

abbrev one_file : List Text
one_file = codes "data_7.parquet" ∷ []

seven : file_index (codes "data_7.parquet") ≡ some 7
unfolding file_index starts_with ends_with text_eq parse_usize parse_below parse_digits
seven = refl

listed : contains one_file (codes "data_7.parquet") ≡ true
unfolding text_eq
listed = refl

below : IsBelow (2 ^ 64 - 1) (max_idx none one_file)
unfolding max_idx file_index starts_with ends_with text_eq parse_usize parse_below parse_digits
below = omega arith

next_partition_file_index_example : 7 < next_partition_file_index one_file
next_partition_file_index_example =
    next_partition_file_index-IsFresh one_file (codes "data_7.parquet") 7 below listed seven

abbrev macros : Text → Text
macros name =
    if name == codes "name_1"
    then codes "old"
    else if name == codes "dtype_1"
    then codes "byte"
    else if name == codes "format_1"
    then codes "%8.0g"
    else if name == codes "str_length_1"
    then codes "0"
    else if name == codes "col_1"
    then codes "3"
    else []

abbrev old_column : List StataColumnInfo
old_column =
    record {
      name = codes "old";
      dtype = codes "byte";
      format = codes "%8.0g";
      str_length = 0;
      stata_col = 3;
    }
    ∷ []

macros-HoldsColumns : HoldsColumns macros 1 old_column
unfolding text_eq show_ℕ
macros-HoldsColumns = ((refl, refl, refl, (refl, omega arith), (refl, omega arith)), tt)

column_info_example :
    AreRenamed
      ((codes "old", codes "new") ∷ [])
      old_column
      (column_info_from_macros macros 1 ((codes "old", codes "new") ∷ []))
column_info_example =
    column_info_from_macros-AreRenamed macros ((codes "old", codes "new") ∷ []) old_column
      macros-HoldsColumns
