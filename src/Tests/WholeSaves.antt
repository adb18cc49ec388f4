-- ===== src/Tests/WholeSaves.antt =====
-- Runs of the definitions that model `write_from_stata` and `consolidate_parquet_dir` of src/write.rs.
use stata_parquet_io.Prelude.{
  ℕ, ◌-◌, ◌≡◌, refl, take, length, concat, map, Bool, true, false, List, [], ◌∷◌, Option, none,
  some, Outcome, ok,
}
use stata_parquet_io.Prelude.Text.{
  Text, codes, text_eq, parse_usize, split_whitespace, split_words, is_whitespace, ends_with,
  to_ascii_lowercase, lower_char,
}
use stata_parquet_io.Prelude.Int.{ℤ, pos}
use stata_parquet_io.DataTypes.{DataType, get}
use stata_parquet_io.Mapping.{
  StataColumnInfo, resolve_stata_type, map_stata_to_polars, stata_column_info_to_schema,
  find_str_length_by_name,
}
use stata_parquet_io.StataMetadata.{StataMetadataEnvelope, metadata_from_macros}
use stata_parquet_io.Dispatch.{SaveCall}
use stata_parquet_io.Read.Values.{AnyValue}
use stata_parquet_io.Write.Columns.{
  Compression, get_rename_list, renames_from, renamed, compression_of,
}
use stata_parquet_io.Write.Directory.{Entries, Removal, delete_existing_files}
use stata_parquet_io.Write.Scan.{
  Series, StataDataScan, new, scan, read_single_batch, read_columns, process_column,
  process_numeric_data, rows_from,
}
use stata_parquet_io.Write.Save.{
  Plan, read_plan, Stored, Content, Polars, Disks, Surroundings, write_from_stata,
}
use stata_parquet_io.Write.Save.Answers.{write_from_stata_iff}
use stata_parquet_io.Write.Save.Ways.{Saves}
use stata_parquet_io.Write.Consolidation.{Chances}
use stata_parquet_io.Write.Consolidation.Kept.{files_in}
use stata_parquet_io.Tests.Saves.{integers, stata_cells, one_column, bad_type, no_column, no_sql}

abbrev Columns : Type 0
Columns = List (Series ℤ)

abbrev scanned :
    Option (StataDataScan integers stata_cells bad_type no_column) → Option (Outcome Text Columns)
scanned none = none
scanned (some sds) = some (scan integers stata_cells bad_type no_column no_sql sds none)

abbrev scan_plan :
    List StataColumnInfo
    → List Text
    → Option ℕ
    → ℕ
    → ℕ
    → Option Text
    → Option (Outcome Text Columns)
scan_plan column_info all_columns batch_size offset n_rows sql_if = scanned (
    new integers stata_cells bad_type no_column 7 column_info all_columns batch_size offset n_rows
      sql_if)

abbrev no_macros : Text → Text
no_macros name = []

abbrev as_one_column : Text → Option (List StataColumnInfo)
as_one_column json = some one_column

abbrev no_json : StataMetadataEnvelope → Option Text
no_json envelope = none

abbrev answers : Polars Columns ℕ Text
answers = record {
  schema_of = λ df. [];
  strings_convert = λ df name. false;
  floats_convert = λ df name. false;
  statistics = λ df name. none;
  with_columns = λ df casts. df;
  debug = λ dtype. [];
  collect = λ df. ok df;
  rows_of = λ df. [];
  gzip_level = λ n. true;
  brotli_level = λ n. true;
  zstd_level = λ n. true;
}

abbrev good_disk : Disks Columns ℕ
good_disk = record {
  removal = Removal.removed;
  entries = λ disk. Entries.no_entries;
  create_fails = false;
  parquet_failed = λ df. none;
  spss_failed = λ df. none;
  csv_failed = λ df. none;
}

abbrev save_call : SaveCall
save_call = record {
  path = codes "a.parquet";
  varlist = codes "x";
  n_rows = 2;
  offset = 0;
  sql_if = [];
  mapping = codes "[]";
  partition_by = [];
  compression = codes "snappy";
  compression_level = none;
  overwrite_partition = true;
  compress = false;
  compress_string = false;
  quietly = true;
  append_to_partition = false;
  output_format = codes "Parquet";
}

abbrev two_rows : Columns
two_rows =
    record {
      name = codes "x";
      dtype = DataType.int8;
      cells = AnyValue.int8 (pos 31) ∷ AnyValue.int8 (pos 32) ∷ [];
    }
    ∷ []

abbrev call_plan : Plan Columns Text
call_plan = record { partition_by = []; metadata = none; frame = ok two_rows }

abbrev value_at : Text → ℕ → ℕ
value_at name row = row

abbrev same_value : ℕ → ℕ → Bool
same_value a b = true

abbrev no_component : Text → ℕ → Option Text
no_component name value = none

abbrev can_create : Text → Bool
can_create dir = false

abbrev not_broken : Text → Option (List ℕ)
not_broken dir = none

abbrev all_keys : List (List ℕ) → List (List ℕ)
all_keys keys = keys

abbrev around : Surroundings Columns ℕ ℕ Text
around = record {
  polars = answers;
  disks = good_disk;
  partitioning = record {
    value_of = value_at;
    same = same_value;
    component = no_component;
    cannot_create = can_create;
    broken = not_broken;
    unique = all_keys;
  };
}

read_plan_example : read_plan no_macros as_one_column no_json scan_plan save_call ≡ some call_plan
unfolding read_plan get_rename_list renames_from renamed parse_usize split_whitespace split_words
    is_whitespace text_eq metadata_from_macros new scan read_single_batch read_columns
    process_column process_numeric_data rows_from get find_str_length_by_name
    stata_column_info_to_schema resolve_stata_type map_stata_to_polars to_ascii_lowercase lower_char
read_plan_example = refl

abbrev saved_file : Content Columns ℕ
saved_file = Content.file (Stored.parquet Compression.snappy none two_rows)

save_call-Saves : Saves around save_call call_plan (Content.file Stored.other) saved_file
unfolding to_ascii_lowercase lower_char text_eq delete_existing_files ends_with compression_of
save_call-Saves =
    Saves.whole refl refl Content.nothing refl two_rows refl (λ f. f, refl, (refl, refl))

write_from_stata_example :
    write_from_stata around no_macros as_one_column no_json scan_plan save_call
      (Content.file Stored.other)
    ≡ (saved_file, ok 0)
write_from_stata_example =
    (write_from_stata_iff around no_macros as_one_column no_json scan_plan save_call
        (Content.file Stored.other) saved_file).1
      (call_plan, read_plan_example, save_call-Saves)

-- A file system on which the last step fails; a frame is its rows.
abbrev no_rename : Chances (List ℕ) ℕ Text
no_rename = record {
  matching = λ pattern disk. files_in (take (length pattern - 10) pattern) disk;
  scan_parquet = λ files. ok (ok (concat (map (λ file. file.rows) files)));
  levels = λ n. true;
  create_fails = false;
  write_fails = λ df. false;
  remove_temp_fails = false;
  left_behind = none;
  rename_fails = true;
}

abbrev rows : List ℕ → List ℕ
rows df = df

abbrev no_footer : Text → Option Text
no_footer file = none

abbrev no_envelope : Text → Option StataMetadataEnvelope
no_envelope json = none

abbrev never : Text → Bool
never path = false

abbrev one_match : Text → List Text
one_match pattern = codes "d/data_0.parquet" ∷ []

-- The second file is in a folder below.
abbrev two_folders : Content (List ℕ) ℕ
two_folders = Content.folder (
    record { dir = codes "d"; name = codes "data_0.parquet"; rows = 1 ∷ 2 ∷ [] }
    ∷ record { dir = codes "d/e"; name = codes "data_0.parquet"; rows = 3 ∷ [] }
    ∷ [])
