-- ===== src/Write/Consolidation.antt =====
-- `consolidate_parquet_dir` of src/write.rs: the Parquet files of a folder made one file in its place.
--
-- What stands at the path and at `{path}_consolidating.parquet` is the state; a folder lists its files in the
-- order of their names. Which files match a pattern, Polars' scan of them and what fails of the file system
-- and the writer are parameters. The metadata of the first file is read and
-- encoded again, as src/stata_metadata.rs does.
pub mod Kept
use stata_parquet_io.Prelude.{
  ℕ, ◌≡◌, refl, Bool, true, false, List, [], ◌++◌, Option, none, some, Outcome, ok, err,
  if◌then◌else◌,
}
use stata_parquet_io.Prelude.Text.{Text, codes}
use stata_parquet_io.SqlFromIf.{replace}
use stata_parquet_io.StataMetadata.{StataMetadataEnvelope}
use stata_parquet_io.StataMetadata.Validated.{first_parquet_file}
use stata_parquet_io.Write.Columns.{compression_of}
use stata_parquet_io.Write.Partition.{Disk}
use stata_parquet_io.Write.Save.{Stored, Content}

module _ (raw : Text → Option Text) (from_json : Text → Option StataMetadataEnvelope)
    (to_json : StataMetadataEnvelope → Option Text) where
  abbrev pub encoded : Option StataMetadataEnvelope → Option Text
  encoded none = none
  encoded (some envelope) = to_json envelope

  abbrev pub decoded : Option Text → Option Text
  decoded none = none
  decoded (some json) = encoded (from_json json)

  -- The metadata of the first file, where it has any.
  abbrev pub carried : Option Text → Option Text
  carried none = none
  carried (some file) = decoded (raw file)

pub data Fault : Type 0 where
  create_failed : Fault
  removal_failed : Fault
  rename_failed : Fault

-- The path with its slashes forward, and the files scanned.
abbrev pub forward : Text → Text
forward path = replace (codes "\\") (codes "/") path

abbrev pub glob_pattern : Text → Text
glob_pattern path = forward path ++ codes "/*.parquet"

-- `matching` gives the files below the folder that match a pattern, and `scan_parquet` reads files.
-- `left_behind` is what a removal of the folder that fails leaves of it.
pub record Chances (Frame R E : Type 0) : Type 0 where
  pub matching : Text → Disk R → Disk R
  pub scan_parquet : Disk R → Outcome E (Outcome E Frame)
  pub levels : ℕ → Bool
  pub create_fails : Bool
  pub write_fails : Frame → Bool
  pub remove_temp_fails : Bool
  pub left_behind : Option (Content Frame R)
  pub rename_fails : Bool

-- The answer, what stands at the path, and what at that of the temporary file.
pub record Consolidated (Frame R : Type 0) : Type 0 where
  pub answer : Outcome Fault ℕ
  pub at_path : Content Frame R
  pub at_temp : Content Frame R

module _ {Frame R E : Type 0} (chances : Chances Frame R E) (metadata : Option Text) where
  open chances use {
    matching, scan_parquet, levels, create_fails, write_fails, remove_temp_fails, left_behind,
    rename_fails,
  }

  abbrev pub as_zstd : Frame → Stored Frame
  as_zstd df = Stored.parquet (compression_of levels levels levels (codes "zstd") none) metadata df

  abbrev pub unchanged : Outcome Fault ℕ → Content Frame R → Content Frame R → Consolidated Frame R
  unchanged answer content temp = record { answer = answer; at_path = content; at_temp = temp }

  abbrev pub renamed_over : Bool → Stored Frame → Consolidated Frame R
  renamed_over true stored = record {
    answer = err Fault.rename_failed;
    at_path = Content.nothing;
    at_temp = Content.file stored;
  }
  renamed_over false stored = record {
    answer = ok 0;
    at_path = Content.file stored;
    at_temp = Content.nothing;
  }

  abbrev pub swapped : Option (Content Frame R) → Stored Frame → Consolidated Frame R
  swapped (some left) stored = record {
    answer = err Fault.removal_failed;
    at_path = left;
    at_temp = Content.file stored;
  }
  swapped none stored = renamed_over rename_fails stored

  abbrev pub written_temp :
      Bool → Bool → Frame → Content Frame R → Content Frame R → Consolidated Frame R
  written_temp true fails df content temp = unchanged (err Fault.create_failed) content temp
  written_temp false true df content temp =
      unchanged (ok 198) content
        (if remove_temp_fails then Content.file Stored.other else Content.nothing)
  written_temp false false df content temp = swapped left_behind (as_zstd df)

  abbrev pub collected :
      Outcome E (Outcome E Frame) → Content Frame R → Content Frame R → Consolidated Frame R
  collected (err e) content temp = unchanged (ok 198) content temp
  collected (ok (err e)) content temp = unchanged (ok 198) content temp
  collected (ok (ok df)) content temp = written_temp create_fails (write_fails df) df content temp

  unfoldable pub consolidate : Text → Content Frame R → Content Frame R → Consolidated Frame R
  consolidate path (Content.folder disk) temp =
      collected (scan_parquet (matching (glob_pattern path) disk)) (Content.folder disk) temp
  consolidate path content temp = unchanged (ok 198) content temp

module _ {Frame R E : Type 0} (chances : Chances Frame R E) (raw : Text → Option Text)
    (from_json : Text → Option StataMetadataEnvelope)
    (to_json : StataMetadataEnvelope → Option Text) (is_file is_dir : Text → Bool)
    (glob : Text → List Text) where
  unfoldable pub consolidate_parquet_dir :
      Text → Content Frame R → Content Frame R → Consolidated Frame R
  consolidate_parquet_dir path content temp =
      consolidate chances
        (carried raw from_json to_json (first_parquet_file is_file is_dir glob path)) path content
        temp
