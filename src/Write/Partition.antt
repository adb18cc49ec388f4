-- ===== src/Write/Partition.antt =====
-- `save_partitioned_sequential` and `format_partition_float` of src/write.rs: a folder of files for each
-- value of the partition columns.
--
-- The disk is a list of files, each with its folder, its name and its rows. What of it fails comes in by
-- `cannot_create` and `cannot_write`. Polars' `unique` is a parameter, since it gives the values in any
-- order; so are its `filter`, by an equality of values, and how floats are printed.
pub mod Saved
pub mod Folders
pub mod Loop
use stata_parquet_io.Prelude.{
  ℕ, suc, ◌+◌, ◌-◌, Bool, true, false, not, ◌&&◌, ◌||◌, List, [], ◌∷◌, ◌++◌, map, Option, none,
  some, Outcome, ok, err, ◌>>=◌, ◌==◌, PartialEq, if◌then◌else◌, nat_eq, retain, is_empty, any,
}
use stata_parquet_io.Prelude.Text.{Text, codes, text_Eq, show_ℕ, starts_with, contains_char, join}
use stata_parquet_io.Prelude.Int.{ℤ, pos, negsuc}
use stata_parquet_io.Floats.{Floats}
use stata_parquet_io.Read.Values.{AnyValue}
use stata_parquet_io.Write.Index.{next_partition_file_index}

abbrev pub show_ℤ : ℤ → Text
show_ℤ (pos n) = show_ℕ n
show_ℤ (negsuc n) = b'-' ∷ show_ℕ (suc n)

-- Pops `c` from the end as long as it is there.
unfoldable pub pop_all : ℕ → Text → Text
pop_all c [] = []
pop_all c (d ∷ s) = let rest = pop_all c s in if is_empty rest && (d == c) then [] else d ∷ rest

-- Pops `c` from the end once.
unfoldable pub pop_one : ℕ → Text → Text
pop_one c [] = []
pop_one c (d ∷ []) = if d == c then [] else d ∷ []
pop_one c (d ∷ e ∷ s) = d ∷ pop_one c (e ∷ s)

module _ {F : Type 0} (is_whole : F → Bool) (one_digit twelve_digits : F → Text) where
  -- `is_whole` is the test on the fraction; the others are `{:.1}` and `{:.12}`. Zeros are popped only
  -- where there is a point, which popping them leaves.
  unfoldable pub format_partition_float : F → Text
  format_partition_float value =
      let s = twelve_digits value in
      if is_whole value
      then one_digit value
      else pop_one b'.' (if contains_char b'.' s then pop_all b'0' s else s)

  abbrev pub equals : Text → Text → Text
  equals col_name s = col_name ++ codes "=" ++ s

  -- The filter and the path component of a value, an error where there is none.
  unfoldable pub path_component : Text → AnyValue F → Option Text
  path_component col_name (AnyValue.string s) = some (equals col_name s)
  path_component col_name (AnyValue.boolean true) = some (equals col_name (codes "true"))
  path_component col_name (AnyValue.boolean false) = some (equals col_name (codes "false"))
  path_component col_name (AnyValue.uint8 i) = some (equals col_name (show_ℤ i))
  path_component col_name (AnyValue.uint16 i) = some (equals col_name (show_ℤ i))
  path_component col_name (AnyValue.uint32 i) = some (equals col_name (show_ℤ i))
  path_component col_name (AnyValue.uint64 i) = some (equals col_name (show_ℤ i))
  path_component col_name (AnyValue.int8 i) = some (equals col_name (show_ℤ i))
  path_component col_name (AnyValue.int16 i) = some (equals col_name (show_ℤ i))
  path_component col_name (AnyValue.int32 i) = some (equals col_name (show_ℤ i))
  path_component col_name (AnyValue.int64 i) = some (equals col_name (show_ℤ i))
  path_component col_name (AnyValue.float64 f) = some (equals col_name (format_partition_float f))
  path_component col_name (AnyValue.float32 f) = some (equals col_name (format_partition_float f))
  path_component col_name (AnyValue.date d) = some (equals col_name (show_ℤ d))
  path_component col_name (AnyValue.datetime dt) = some (equals col_name (show_ℤ dt))
  path_component col_name _ = none

-- A file on the disk.
pub record ParquetFile (R : Type 0) : Type 0 where
  pub dir : Text
  pub name : Text
  pub rows : List R

-- `PathBuf::join`, on a path that does not end in a separator.
abbrev pub join_path : Text → Text → Text
join_path path s = path ++ (b'/' ∷ s)

-- A folder is the one given, or stands below it.
abbrev pub is_under : Text → Text → Bool
is_under dir d = (d == dir) || starts_with (join_path dir []) d

abbrev pub Disk : Type 0 → Type 0
Disk R = List (ParquetFile R)

module _ {R : Type 0} where
  abbrev pub remove_dir_all : Text → Disk R → Disk R
  remove_dir_all dir disk = retain (λ file. not (is_under dir file.dir)) disk

  abbrev pub in_dir : Text → Disk R → Disk R
  in_dir dir disk = retain (λ file. file.dir == dir) disk

  abbrev pub names_in : Text → Disk R → List Text
  names_in dir disk = map (λ file. file.name) (in_dir dir disk)

  abbrev pub is_at : Text → Text → ParquetFile R → Bool
  is_at dir name file = (file.dir == dir) && (file.name == name)

  -- `File::create` truncates a file that is there.
  abbrev pub create : Text → Text → List R → Disk R → Disk R
  create dir name rows disk =
      retain (λ file. not (is_at dir name file)) disk
      ++ record { dir = dir; name = name; rows = rows } ∷ []

abbrev pub data_name : ℕ → Text
data_name file_idx = codes "data_" ++ (show_ℕ file_idx ++ codes ".parquet")

pub data SaveError : Type 0 where
  unsupported_value : SaveError
  create_failed : Text → SaveError
  write_failed : Text → SaveError

-- What the partitions of a save are made with: the value of a row in a column, whether two are the same,
-- the path component of one, and what Polars and the file system answer. `broken` gives what a write that
-- fails leaves in the file.
pub record Partitioning (R K : Type 0) : Type 0 where
  pub value_of : Text → R → K
  pub same : K → K → Bool
  pub component : Text → K → Option Text
  pub cannot_create : Text → Bool
  pub broken : Text → Option (List R)
  pub unique : List (List K) → List (List K)

module _ {R K : Type 0} (keyed : Partitioning R K) where
  open keyed use {value_of, same, component, cannot_create, broken, unique}

  -- The values of a row in the partition columns.
  abbrev pub key_of : List Text → R → List K
  key_of partition_by row = map (λ col_name. value_of col_name row) partition_by

  unfoldable pub passes : List Text → List K → R → Bool
  passes (col_name ∷ partition_by) (value ∷ values) row =
      same (value_of col_name row) value && passes partition_by values row
  passes _ _ row = true

  -- The components of the values of one partition, by the columns.
  unfoldable pub path_parts : List Text → List K → Option (List Text)
  path_parts (col_name ∷ partition_by) (value ∷ values) = elim (component col_name value) [
    | none ↦ none
    | some part ↦ elim (path_parts partition_by values) [
      | none ↦ none
      | some parts ↦ some (part ∷ parts)
    ]
  ]
  path_parts _ _ = some []

  abbrev pub written : Text → Text → List R → Disk R → Option (List R) → Disk R × Option SaveError
  written dir name rows disk none = (create dir name rows disk, none)
  written dir name rows disk (some left) =
      (create dir name left disk, some (SaveError.write_failed dir))

  -- The folder of one partition, and its file.
  unfoldable pub write_partition : Bool → Text → List R → Disk R → Disk R × Option SaveError
  write_partition append_to_partition dir rows disk =
      let cleared = if append_to_partition then disk else remove_dir_all dir disk in
      let file_idx =
        if append_to_partition then next_partition_file_index (names_in dir cleared) else 0 in
      if cannot_create dir
      then (cleared, some (SaveError.create_failed dir))
      else written dir (data_name file_idx) rows cleared (broken dir)

  abbrev pub partition_dir : Text → List Text → Text
  partition_dir path parts = join_path path (join (codes "/") parts)

  abbrev pub write_parts :
      Bool → Text → Option (List Text) → List R → Disk R → Disk R × Option SaveError
  write_parts append_to_partition path none rows disk = (disk, some SaveError.unsupported_value)
  write_parts append_to_partition path (some parts) rows disk =
      write_partition append_to_partition (partition_dir path parts) rows disk

  unfoldable pub save_partition :
      Bool → Text → List Text → List R → List K → Disk R → Disk R × Option SaveError
  save_partition append_to_partition path partition_by frame key disk =
      write_parts append_to_partition path (path_parts partition_by key)
        (retain (passes partition_by key) frame) disk

  abbrev pub go_on :
      Disk R → Option SaveError → Disk R × Option SaveError → Disk R × Option SaveError
  go_on disk (some e) rest = (disk, some e)
  go_on disk none rest = rest

  -- The partitions in turn, up to the first that fails.
  unfoldable pub save_partitions :
      Bool → Text → List Text → List R → List (List K) → Disk R → Disk R × Option SaveError
  save_partitions append_to_partition path partition_by frame [] disk = (disk, none)
  save_partitions append_to_partition path partition_by frame (key ∷ keys) disk =
      let step = save_partition append_to_partition path partition_by frame key disk in
      go_on step.0 step.1 (save_partitions append_to_partition path partition_by frame keys step.0)

  unfoldable pub save_partitioned_sequential :
      Bool → Text → List Text → List R → Disk R → Disk R × Option SaveError
  save_partitioned_sequential append_to_partition path partition_by frame disk =
      save_partitions append_to_partition path partition_by frame
        (unique (map (key_of partition_by) frame)) disk
