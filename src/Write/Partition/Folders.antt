-- ===== src/Write/Partition/Folders.antt =====
-- A partitioned save (src/write.rs), folder by folder: each partition gets one new file with its rows.
use stata_parquet_io.Prelude.{
  ◌-◌, ◌^◌, ◌≡◌, refl, ap, ◌∙◌, ◌⊎◌, Bool, true, false, List, [], ◌∷◌, ◌++◌, map, Option, none,
  some, ◌==◌, if◌then◌else◌, retain, contains, All,
}
use stata_parquet_io.Prelude.Text.{Text, codes, text_Eq, text_eq, join}
use stata_parquet_io.Write.Index.{max_idx, next_partition_file_index, IsBelow}
use stata_parquet_io.Write.Partition.{
  Partitioning, ParquetFile, Disk, join_path, is_under, remove_dir_all, in_dir, names_in, data_name,
  passes, path_parts, write_partition,
}
use stata_parquet_io.Write.Partition.Saved.{
  data_name_fresh, text_eq_sym, or_false_split, in_dir-remove_dir_all_other,
  in_dir-remove_dir_all_self, in_dir-create_other, in_dir-create_self,
}

abbrev pub Among : {A : Type 0} → A → List A → Type 0
Among x [] = ⊥
Among x (y ∷ ys) = (y ≡ x) ⊎ Among x ys

abbrev pub folder_in : Text → Option (List Text) → Text
folder_in path none = path
folder_in path (some parts) = join_path path (join (codes "/") parts)

module _ {R K : Type 0} (keyed : Partitioning R K) where
  open keyed use {value_of, same, component, cannot_create, broken, unique}

  -- What a folder keeps of its files.
  abbrev pub kept_files : Bool → Text → Disk R → Disk R
  kept_files append_to_partition dir disk = if append_to_partition then in_dir dir disk else []

  abbrev pub new_name : Bool → Text → Disk R → Text
  new_name append_to_partition dir disk = data_name (
      next_partition_file_index (map (λ file. file.name) (kept_files append_to_partition dir disk)))

  -- The folder can be written, and its files are numbered below the greatest number there is.
  abbrev pub IsWritable : Disk R → Text → Type 0
  IsWritable disk dir =
      (cannot_create dir ≡ false)
      × (broken dir ≡ none)
      × IsBelow (2 ^ 64 - 1) (max_idx none (names_in dir disk))

  pub write_partition_here :
      (append_to_partition : Bool) (dir : Text) (rows : List R) (disk : Disk R)
      → IsWritable disk dir
      → (let (disk', failure) = write_partition keyed append_to_partition dir rows disk in
          (failure ≡ none)
          × (in_dir dir disk'
              ≡ kept_files append_to_partition dir disk
                ++ (record { dir = dir; name = new_name append_to_partition dir disk; rows = rows }
                    ∷ [])))
  unfolding write_partition next_partition_file_index max_idx
  write_partition_here true dir rows disk (can, whole, below) =
      let name : Text = data_name (next_partition_file_index (names_in dir disk)) in
      rw (can, whole, write_partition)
        (refl, in_dir-create_self dir name rows disk (data_name_fresh (names_in dir disk) below))
  write_partition_here false dir rows disk (can, whole, below) =
      let cleared : Disk R = remove_dir_all dir disk in
      let nothing : in_dir dir cleared ≡ [] = in_dir-remove_dir_all_self dir disk in
      rw (can, whole, write_partition)
        (
          refl,
          in_dir-create_self dir (data_name 0) rows cleared
                (ap (λ (l : Disk R). contains (map (λ file. file.name) l) (data_name 0)) nothing)
              ∙ ap (λ l. l ++ (record { dir = dir; name = data_name 0; rows = rows } ∷ [])) nothing,
        )

  pub write_partition_elsewhere :
      (append_to_partition : Bool) (dir : Text) (rows : List R) (disk : Disk R) (d : Text)
      → IsWritable disk dir
      → is_under dir d ≡ false
      → in_dir d (write_partition keyed append_to_partition dir rows disk).0 ≡ in_dir d disk
  unfolding write_partition
  write_partition_elsewhere true dir rows disk d (can, whole, below) apart =
      let other : text_eq dir d ≡ false = text_eq_sym d dir (or_false_split (d == dir) _ apart).0 in
      rw (can, whole, write_partition)
        (in_dir-create_other dir d (data_name (next_partition_file_index (names_in dir disk))) rows
          disk other)
  write_partition_elsewhere false dir rows disk d (can, whole, below) apart =
      let other : text_eq dir d ≡ false = text_eq_sym d dir (or_false_split (d == dir) _ apart).0 in
      rw (can, whole, write_partition)
        (in_dir-create_other dir d (data_name 0) rows (remove_dir_all dir disk) other
          ∙ in_dir-remove_dir_all_other dir d disk apart)

  -- The folder of a partition, and the file that it gets.
  abbrev pub folder : Text → List Text → List K → Text
  folder path partition_by key = folder_in path (path_parts keyed partition_by key)

  abbrev pub new_file : Bool → Text → List Text → List R → Disk R → List K → ParquetFile R
  new_file append_to_partition path partition_by frame disk key = record {
    dir = folder path partition_by key;
    name = new_name append_to_partition (folder path partition_by key) disk;
    rows = retain (passes keyed partition_by key) frame;
  }

  -- Its values can be written, and so can its folder.
  abbrev pub CanSave : Text → List Text → Disk R → List K → Type 0
  CanSave path partition_by disk key =
      ((parts : List Text) × (path_parts keyed partition_by key ≡ some parts))
      × IsWritable disk (folder path partition_by key)

  -- No folder of one partition is that of another, or stands in it.
  abbrev pub IsApart : Text → List Text → List K → List K → Type 0
  IsApart path partition_by key key' =
      (is_under (folder path partition_by key) (folder path partition_by key') ≡ false)
      × (is_under (folder path partition_by key') (folder path partition_by key) ≡ false)

  abbrev pub AreApart : Text → List Text → List (List K) → Type 0
  AreApart path partition_by [] = Unit
  AreApart path partition_by (key ∷ keys) =
      All (IsApart path partition_by key) keys × AreApart path partition_by keys
