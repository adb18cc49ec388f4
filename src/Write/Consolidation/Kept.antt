-- ===== src/Write/Consolidation/Kept.antt =====
-- Whatever fails in a consolidation (src/write.rs), the rows of the files directly in the folder stay.
use stata_parquet_io.Prelude.{
  ◌≡◌, ◌≢◌, ◌⊎◌, Bool, false, ◌&&◌, List, ◌++◌, ◌==◌, Option, none, ok, map, concat, retain,
}
use stata_parquet_io.Prelude.Text.{Text, codes, text_Eq, contains_char, ends_with}
use stata_parquet_io.StataMetadata.{StataMetadataEnvelope}
use stata_parquet_io.StataMetadata.Validated.{first_parquet_file}
use stata_parquet_io.Write.Partition.{Disk}
use stata_parquet_io.Write.Save.{Content}
use stata_parquet_io.Write.Consolidation.{carried, forward, Chances, Consolidated, as_zstd}

-- The Parquet files that stand directly in a folder.
abbrev pub files_in : {R : Type 0} → Text → Disk R → Disk R
files_in dir disk =
    retain (λ file. (file.dir == dir) && ends_with (codes ".parquet") file.name) disk

-- A path that holds nothing that a pattern gives a meaning.
abbrev pub IsPlain : Text → Type 0
IsPlain path =
    (contains_char b'*' path ≡ false)
    × (contains_char b'?' path ≡ false)
    × (contains_char b'[' path ≡ false)

module _ {Frame R E : Type 0} (chances : Chances Frame R E) where
  -- Polars finds the Parquet files of a folder by the star, and reads them to their rows.
  pub record Scans (rows_of : Frame → List R) : Type 0 where
    pub finds :
        (dir : Text)
        → IsPlain dir
        → (disk : Disk R) → chances.matching (dir ++ codes "/*.parquet") disk ≡ files_in dir disk
    pub reads :
        (files : Disk R) (df : Frame)
        → chances.scan_parquet files ≡ ok (ok df)
        → rows_of df ≡ concat (map (λ file. file.rows) files)

module _ {Frame R E : Type 0} (chances : Chances Frame R E) (rows_of : Frame → List R)
    (scans : Scans chances rows_of) (path : Text) (plain : IsPlain (forward path))
    (metadata : Option Text) where
  open chances use {scan_parquet, create_fails, write_fails, left_behind, rename_fails}

  -- The Parquet files that stand directly in the folder could be read, to a frame with all their rows.
  abbrev pub IsRead : Content Frame R → Frame → Type 0
  IsRead content df =
      (disk : Disk R) × (content ≡ Content.folder disk)
      × (scan_parquet (files_in (forward path) disk) ≡ ok (ok df))
      × (rows_of df ≡ concat (map (λ file. file.rows) (files_in (forward path) disk)))

  abbrev pub WentWell : Frame → Type 0
  WentWell df =
      (create_fails ≡ false)
      × (write_fails df ≡ false)
      × (left_behind ≡ none)
      × (rename_fails ≡ false)

  -- Either nothing changed at the path, or one file with the rows read is there or at the temporary path.
  abbrev pub Keeps : Content Frame R → Consolidated Frame R → Type 0
  Keeps content r =
      ((r.at_path ≡ content) × (r.answer ≢ ok 0))
      ⊎ ((df : Frame) × IsRead content df
          × (((r.answer ≡ ok 0) × (r.at_path ≡ Content.file (as_zstd chances metadata df)))
              ⊎ ((r.answer ≢ ok 0) × (r.at_temp ≡ Content.file (as_zstd chances metadata df)))))

module _ {Frame R E : Type 0} (chances : Chances Frame R E) (rows_of : Frame → List R)
    (scans : Scans chances rows_of) (raw : Text → Option Text)
    (from_json : Text → Option StataMetadataEnvelope)
    (to_json : StataMetadataEnvelope → Option Text) (is_file is_dir : Text → Bool)
    (glob : Text → List Text) where
  abbrev pub metadata_of : Text → Option Text
  metadata_of path = carried raw from_json to_json (first_parquet_file is_file is_dir glob path)
