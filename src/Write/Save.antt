-- ===== src/Write/Save.antt =====
-- `write_from_stata`, `save_no_partition`, `save_partitioned` and `delete_existing_non_parquet` of
-- src/write.rs: a save, from the macros of Stata to what stands at its path.
--
-- Polars' answers on frames and plans are `Polars`, those of the file system and the writers of files are
-- `Disks`, with what a write that fails leaves behind. Messages are left out.
pub mod Steps
pub mod Ways
pub mod Answers
use stata_parquet_io.Prelude.{
  ℕ, Bool, true, false, ◌||◌, List, [], map, Option, none, some, Outcome, ok, err, ◌>>=◌, ltb, ◌==◌,
  if◌then◌else◌, is_empty, unwrap_or,
}
use stata_parquet_io.Prelude.Text.{
  Text, codes, text_Eq, parse_usize, split_whitespace, to_ascii_lowercase,
}
use stata_parquet_io.Prelude.Int.{ℤ}
use stata_parquet_io.DataTypes.{DataType, Schema}
use stata_parquet_io.Mapping.{StataColumnInfo}
use stata_parquet_io.Downcast.{DowncastConfig, intelligent_downcast}
use stata_parquet_io.StataMetadata.{StataMetadataEnvelope, metadata_from_macros}
use stata_parquet_io.Dispatch.{SaveCall}
use stata_parquet_io.Write.Columns.{
  get_rename_list, renamed, column_info_from_macros, Compression, compression_of,
}
use stata_parquet_io.Write.Directory.{Entries, Node, Removal, after_removal, delete_existing_files}
use stata_parquet_io.Write.Partition.{Disk, SaveError, Partitioning, save_partitioned_sequential}

-- What a save reads before it touches the path: its partition columns, its metadata, and the frame.
pub record Plan (Frame E : Type 0) : Type 0 where
  pub partition_by : List Text
  pub metadata : Option Text
  pub frame : Outcome E Frame

-- What is read of macros, JSON and the cells of Stata; `none` is a panic. `to_json` is
-- `build_key_value_metadata`, and `scan` a plan on `StataDataScan` when it is collected.
module _ {Frame E : Type 0} (get_macro : Text → Text)
    (from_json : Text → Option (List StataColumnInfo))
    (to_json : StataMetadataEnvelope → Option Text)
    (scan : List StataColumnInfo
      → List Text
      → Option ℕ
      → ℕ
      → ℕ
      → Option Text
      → Option (Outcome E Frame)) where
  abbrev pub variables_of : SaveCall → Text
  variables_of call =
      if (call.varlist == []) || (call.varlist == codes "from_macro")
      then get_macro (codes "varlist")
      else call.varlist

  abbrev pub column_info_of : SaveCall → List (Text × Text) → Option (List StataColumnInfo)
  column_info_of call rename_list =
      if (call.mapping == []) || (call.mapping == codes "from_macros")
      then some (
          column_info_from_macros get_macro
            (unwrap_or (parse_usize (get_macro (codes "var_count"))) 0) rename_list)
      else from_json call.mapping

  abbrev pub partition_columns : SaveCall → List (Text × Text) → List Text
  partition_columns call rename_list =
      if is_empty call.partition_by
      then []
      else map (renamed rename_list) (split_whitespace call.partition_by)

  abbrev pub and_json : Option StataMetadataEnvelope → Option Text
  and_json none = none
  and_json (some envelope) = to_json envelope

  abbrev pub plan_of :
      SaveCall
      → List (Text × Text)
      → Option (Option StataMetadataEnvelope)
      → Option (Outcome E Frame)
      → Option (Plan Frame E)
  plan_of call rename_list (some envelope) (some frame) = some (record {
    partition_by = partition_columns call rename_list;
    metadata = and_json envelope;
    frame = frame;
  })
  plan_of call rename_list _ _ = none

  abbrev pub planned :
      SaveCall → List (Text × Text) → Option (List StataColumnInfo) → Option (Plan Frame E)
  planned call rename_list none = none
  planned call rename_list (some column_info) =
      plan_of call rename_list (metadata_from_macros get_macro rename_list column_info) (
        scan column_info (map (renamed rename_list) (split_whitespace (variables_of call)))
          (some 100_000) call.offset call.n_rows (some call.sql_if))

  unfoldable pub read_plan : SaveCall → Option (Plan Frame E)
  read_plan call =
      let rename_list = get_rename_list get_macro in
      planned call rename_list (column_info_of call rename_list)

-- A file by what was written to it.
pub data Stored (Frame : Type 0) : Type 0 where
  parquet : Compression → Option Text → Frame → Stored Frame
  spss : Frame → Stored Frame
  csv : Frame → Stored Frame
  other : Stored Frame

-- What stands at the path of a save. The files of a folder are those of its partitions.
pub data Content (Frame R : Type 0) : Type 0 where
  nothing : Content Frame R
  file : Stored Frame → Content Frame R
  folder : Disk R → Content Frame R

pub record Polars (Frame R E : Type 0) : Type 0 where
  pub schema_of : Frame → Schema
  pub strings_convert : Frame → Text → Bool
  pub floats_convert : Frame → Text → Bool
  pub statistics : Frame → Text → Option (ℤ × ℤ)
  pub with_columns : Frame → List (Text × DataType) → Frame
  pub debug : DataType → Text
  -- A plan of casts.
  pub collect : Frame → Outcome E Frame
  pub rows_of : Frame → List R
  pub gzip_level : ℕ → Bool
  pub brotli_level : ℕ → Bool
  pub zstd_level : ℕ → Bool

pub record Disks (Frame R : Type 0) : Type 0 where
  pub removal : Removal
  pub entries : Disk R → Entries
  pub create_fails : Bool
  pub parquet_failed : Frame → Option (Content Frame R)
  pub spss_failed : Frame → Option (Content Frame R)
  pub csv_failed : Frame → Option (Content Frame R)

pub data Failure : Type 0 where
  panicked : Failure
  partition_failed : SaveError → Failure

abbrev pub Answer : Type 0 → Type 0 → Type 0
Answer Frame R = Content Frame R × Outcome Failure ℕ

module _ {Frame R : Type 0} where
  abbrev pub node_of : (Disk R → Entries) → Content Frame R → Node
  node_of entries Content.nothing = Node.nothing
  node_of entries (Content.file s) = Node.regular
  node_of entries (Content.folder disk) = Node.folder (entries disk)

  -- What stands there after a removal: nothing, or what stood there before.
  abbrev pub after_node : Content Frame R → Node → Content Frame R
  after_node content Node.nothing = Content.nothing
  after_node content _ = content

  abbrev pub disk_of : Content Frame R → Disk R
  disk_of (Content.folder disk) = disk
  disk_of _ = []

  abbrev pub is_file : Content Frame R → Bool
  is_file (Content.file s) = true
  is_file _ = false

  -- No folder can be made where a file stands.
  abbrev pub under_a_file : {K : Type 0} → Content Frame R → Partitioning R K → Partitioning R K
  under_a_file content p = record p {
    cannot_create = λ dir. is_file content || p.cannot_create dir;
  }

  abbrev pub with_disk : Content Frame R → Disk R → Content Frame R
  with_disk (Content.file s) disk = Content.file s
  with_disk (Content.folder old) disk = Content.folder disk
  with_disk Content.nothing [] = Content.nothing
  with_disk Content.nothing disk = Content.folder disk

  -- On an error of the plan, 198 and no change.
  abbrev pub at_frame :
      {E : Type 0} → Outcome E Frame → (Frame → Answer Frame R) → Content Frame R → Answer Frame R
  at_frame (err e) save content = (content, ok 198)
  at_frame (ok df) save content = save df

  abbrev pub after_delete :
      ℕ × Content Frame R → (Content Frame R → Answer Frame R) → Answer Frame R
  after_delete deleted save = if ltb 0 deleted.0 then (deleted.1, ok deleted.0) else save deleted.1

  abbrev pub write_file : Option (Content Frame R) → Stored Frame → Answer Frame R
  write_file (some left) stored = (left, ok 198)
  write_file none stored = (Content.file stored, ok 0)

  -- `File::create`, and a write to the file.
  abbrev pub create_file :
      Bool → Option (Content Frame R) → Stored Frame → Content Frame R → Answer Frame R
  create_file create_fails failed stored (Content.folder disk) = (Content.folder disk, ok 198)
  create_file create_fails failed stored content =
      if create_fails then (content, ok 198) else write_file failed stored

  abbrev pub partitioned : Content Frame R → Disk R × Option SaveError → Answer Frame R
  partitioned content (disk, none) = (with_disk content disk, ok 0)
  partitioned content (disk, some e) = (with_disk content disk, err (Failure.partition_failed e))

-- What a save is run with: Polars, the file system, and what partitions are made with.
pub record Surroundings (Frame R K E : Type 0) : Type 0 where
  pub polars : Polars Frame R E
  pub disks : Disks Frame R
  pub partitioning : Partitioning R K

module _ {Frame R K E : Type 0} (around : Surroundings Frame R K E) where
  open around use {polars, disks, partitioning}
  open polars use {
    schema_of, strings_convert, floats_convert, statistics, with_columns, debug, collect, rows_of,
    gzip_level, brotli_level, zstd_level,
  }
  open disks use {removal, entries, create_fails, parquet_failed, spss_failed, csv_failed}

  unfoldable pub intelligent_downcast_df :
      Frame → Option (List Text) → Option (List Text) → DowncastConfig → Outcome E Frame
  intelligent_downcast_df df cols cols_not_boolean config =
      collect
        (intelligent_downcast schema_of strings_convert floats_convert statistics with_columns debug
          df cols cols_not_boolean config).0

  -- The frame, narrower where that is asked for.
  abbrev pub compressed :
      SaveCall → Option (List Text) → Option (List Text) → Frame → Outcome E Frame
  compressed call cols cols_not_boolean df =
      if call.compress || call.compress_string
      then intelligent_downcast_df df cols cols_not_boolean
          (record { check_strings = call.compress_string; prefer_int_over_float = call.compress })
      else ok df

  unfoldable pub delete_existing_non_parquet : Content Frame R → ℕ × Content Frame R
  delete_existing_non_parquet Content.nothing = (0, Content.nothing)
  delete_existing_non_parquet (Content.folder disk) = (198, Content.folder disk)
  delete_existing_non_parquet (Content.file s) =
      let (code, node) = after_removal removal Node.regular in
      (code, after_node (Content.file s) node)

  abbrev pub delete_existing : SaveCall → Content Frame R → ℕ × Content Frame R
  delete_existing call content =
      let (code, node) =
        delete_existing_files removal call.path call.overwrite_partition
          (node_of entries content) in
      (code, after_node content node)

  abbrev pub as_parquet : SaveCall → Plan Frame E → Frame → Stored Frame
  as_parquet call plan df =
      Stored.parquet
        (compression_of gzip_level brotli_level zstd_level call.compression call.compression_level)
        plan.metadata df

  unfoldable pub save_no_partition : SaveCall → Plan Frame E → Content Frame R → Answer Frame R
  save_no_partition call plan content =
      at_frame (plan.frame >>= compressed call none none)
        (λ df. create_file create_fails (parquet_failed df) (as_parquet call plan df) content)
        content

  -- No partition column is made a Boolean.
  abbrev pub compressed_partitions : SaveCall → Plan Frame E → Frame → Outcome E Frame
  compressed_partitions call plan df =
      compressed call (some (map (λ c. c.0) (schema_of df))) (some plan.partition_by) df

  unfoldable pub save_partitioned : SaveCall → Plan Frame E → Content Frame R → Answer Frame R
  save_partitioned call plan content =
      at_frame (plan.frame >>= compressed_partitions call plan)
        (λ df. partitioned content (
          save_partitioned_sequential (under_a_file content partitioning) call.append_to_partition
            call.path plan.partition_by (rows_of df) (disk_of content)))
        content

  abbrev pub write_format : Text → Frame → Content Frame R → Answer Frame R
  write_format format df content =
      if format == codes "spss"
      then write_file (spss_failed df) (Stored.spss df)
      else if format == codes "csv"
      then create_file create_fails (csv_failed df) (Stored.csv df) content
      else (content, ok 198)

  unfoldable pub save_plan : SaveCall → Plan Frame E → Content Frame R → Answer Frame R
  save_plan call plan content =
      let format = to_ascii_lowercase call.output_format in
      if format == codes "parquet"
      then after_delete (delete_existing call content) (λ cleared.
        if is_empty plan.partition_by
        then save_no_partition call plan cleared
        else save_partitioned call plan cleared)
      else if is_empty plan.partition_by
      then after_delete (delete_existing_non_parquet content) (λ cleared.
        at_frame (plan.frame >>= compressed call none none) (λ df. write_format format df cleared)
          cleared)
      else (content, ok 198)

  -- What stands at the path afterwards, and the answer.
  abbrev pub write_planned : SaveCall → Option (Plan Frame E) → Content Frame R → Answer Frame R
  write_planned call none content = (content, err Failure.panicked)
  write_planned call (some plan) content = save_plan call plan content

  module _ (get_macro : Text → Text) (from_json : Text → Option (List StataColumnInfo))
      (to_json : StataMetadataEnvelope → Option Text)
      (scan : List StataColumnInfo
        → List Text
        → Option ℕ
        → ℕ
        → ℕ
        → Option Text
        → Option (Outcome E Frame)) where
    unfoldable pub write_from_stata : SaveCall → Content Frame R → Answer Frame R
    write_from_stata call content =
        write_planned call (read_plan get_macro from_json to_json scan call) content
