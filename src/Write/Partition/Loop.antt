-- ===== src/Write/Partition/Loop.antt =====
-- All partitions of a save (src/write.rs).
use stata_parquet_io.Prelude.{
  ◌-◌, ◌^◌, ◌≡◌, refl, sym, ap, ◌∙◌, Bool, true, false, List, [], ◌∷◌, ◌++◌, map, Option, none,
  some, if◌then◌else◌, retain, All, subst,
}
use stata_parquet_io.Prelude.Text.{Text, text_Eq}
use stata_parquet_io.Write.Index.{max_idx, next_partition_file_index, IsBelow}
use stata_parquet_io.Write.Partition.{
  Partitioning, Disk, is_under, in_dir, data_name, key_of, passes, path_parts, write_partition,
  write_parts, go_on, save_partition, save_partitions, save_partitioned_sequential,
}
use stata_parquet_io.Write.Partition.Folders.{
  Among, folder_in, kept_files, write_partition_here, write_partition_elsewhere, folder, new_file,
  CanSave, IsApart, AreApart,
}

module _ {R K : Type 0} (keyed : Partitioning R K) (append_to_partition : Bool) (path : Text)
    (partition_by : List Text) (frame : List R) where
  open keyed use {value_of, same, component, cannot_create, broken, unique}

  abbrev parts_of : List K → Option (List Text)
  parts_of key = path_parts keyed partition_by key

  abbrev pub folder_of : List K → Text
  folder_of key = folder keyed path partition_by key

  abbrev rows_of : List K → List R
  rows_of key = retain (passes keyed partition_by key) frame

  abbrev pub Savable : Disk R → List K → Type 0
  Savable disk key = CanSave keyed path partition_by disk key

  abbrev Apart : List K → List K → Type 0
  Apart key key' = IsApart keyed path partition_by key key'

  write_parts-some :
      (o : Option (List Text)) (parts : List Text) (rows : List R) (disk : Disk R)
      → o ≡ some parts
      → write_parts keyed append_to_partition path o rows disk
        ≡ write_partition keyed append_to_partition (folder_in path o) rows disk
  write_parts-some none parts rows disk e = absurd (cc e)
  write_parts-some (some ps) parts rows disk e = refl

  save_partition-eq :
      (key : List K) (disk : Disk R)
      → Savable disk key
      → save_partition keyed append_to_partition path partition_by frame key disk
        ≡ write_partition keyed append_to_partition (folder_of key) (rows_of key) disk
  unfolding save_partition
  save_partition-eq key disk ((parts, e), can) =
      write_parts-some (parts_of key) parts (rows_of key) disk e

  -- A folder that has the same files as before is as writable.
  Savable-agree :
      (disk disk' : Disk R) (key : List K)
      → in_dir (folder_of key) disk' ≡ in_dir (folder_of key) disk
      → Savable disk key
      → Savable disk' key
  Savable-agree disk disk' key e (parts, (can, whole, below)) = (
    parts,
    (
      can,
      whole,
      subst (λ (l : Disk R). IsBelow (2 ^ 64 - 1) (max_idx none (map (λ file. file.name) l)))
          (sym e) below,
    ),
  )

  -- What the folder of a partition has afterwards.
  abbrev pub Gains : Disk R → Disk R → List K → Type 0
  Gains disk disk' key =
      in_dir (folder_of key) disk'
      ≡ kept_files keyed append_to_partition (folder_of key) disk
        ++ (new_file keyed append_to_partition path partition_by frame disk key ∷ [])

  abbrev gained : List K → Disk R → Disk R
  gained key l =
      (if append_to_partition then l else [])
      ++ (record {
        dir = folder_of key;
        name = data_name (
            next_partition_file_index
              (map (λ file. file.name) (if append_to_partition then l else [])));
        rows = rows_of key;
      }
          ∷ [])

  Gains-agree :
      (disk disk' disk'' : Disk R) (key : List K)
      → in_dir (folder_of key) disk' ≡ in_dir (folder_of key) disk
      → Gains disk' disk'' key
      → Gains disk disk'' key
  Gains-agree disk disk' disk'' key e h = h ∙ ap (gained key) e

  abbrev pub Outside : Text → List K → Type 0
  Outside d key = is_under (folder_of key) d ≡ false

  All-later :
      (disk disk' : Disk R) (key : List K) (keys : List (List K))
      → ((d : Text) → Outside d key → in_dir d disk' ≡ in_dir d disk)
      → All (Apart key) keys
      → All (Savable disk) keys
      → All (Savable disk') keys
  All-later disk disk' key [] same_files apart can = tt
  All-later disk disk' key (key' ∷ keys) same_files ((a, b), apart) (can, cans) = (
    Savable-agree disk disk' key' (same_files (folder_of key') a) can,
    All-later disk disk' key keys same_files apart cans,
  )

  Gains-later :
      (disk disk' disk'' : Disk R) (key : List K) (keys : List (List K))
      → ((d : Text) → Outside d key → in_dir d disk' ≡ in_dir d disk)
      → All (Apart key) keys
      → All (Gains disk' disk'') keys
      → All (Gains disk disk'') keys
  Gains-later disk disk' disk'' key [] same_files apart gains = tt
  Gains-later disk disk' disk'' key (key' ∷ keys) same_files ((a, b), apart) (gain, gains) = (
    Gains-agree disk disk' disk'' key' (same_files (folder_of key') a) gain,
    Gains-later disk disk' disk'' key keys same_files apart gains,
  )

  Outside-Apart :
      (key : List K) (keys : List (List K))
      → All (Apart key) keys
      → All (Outside (folder_of key)) keys
  Outside-Apart key [] apart = tt
  Outside-Apart key (key' ∷ keys) ((a, b), apart) = (b, Outside-Apart key keys apart)

  pub save_partitions-Gains :
      (keys : List (List K)) (disk : Disk R)
      → All (Savable disk) keys
      → AreApart keyed path partition_by keys
      → (let (disk', failure) =
            save_partitions keyed append_to_partition path partition_by frame keys disk in
          (failure ≡ none)
          × All (Gains disk disk') keys
          × ((d : Text) → All (Outside d) keys → in_dir d disk' ≡ in_dir d disk))
  unfolding save_partitions
  save_partitions-Gains [] disk can apart = (refl, tt, λ d h. refl)
  save_partitions-Gains (key ∷ keys) disk (can, cans) (apart, rest_apart) =
      let one = save_partition-eq key disk can in
      let step = save_partition keyed append_to_partition path partition_by frame key disk in
      let disk1 : Disk R = step.0 in
      let (fine, gain) =
        write_partition_here keyed append_to_partition (folder_of key) (rows_of key) disk can.1 in
      let fine1 : step.1 ≡ none = ap (λ r. r.1) one ∙ fine in
      let gain1 : Gains disk disk1 key = ap (λ r. in_dir (folder_of key) r.0) one ∙ gain in
      let others : (d : Text) → Outside d key → in_dir d disk1 ≡ in_dir d disk = λ d h.
        ap (λ r. in_dir d r.0) one
        ∙ write_partition_elsewhere keyed append_to_partition (folder_of key) (rows_of key) disk d
            can.1 h in
      let (fine2, gains, others2) =
        save_partitions-Gains keys disk1 (All-later disk disk1 key keys others apart cans)
          rest_apart in
      let rest = save_partitions keyed append_to_partition path partition_by frame keys disk1 in
      subst
        (λ r.
          (r.1 ≡ none)
          × All (Gains disk r.0) (key ∷ keys)
          × ((d : Text) → All (Outside d) (key ∷ keys) → in_dir d r.0 ≡ in_dir d disk))
        (sym (ap (λ o. go_on keyed disk1 o rest) fine1))
        (
          fine2,
          (
            others2 (folder_of key) (Outside-Apart key keys apart) ∙ gain1,
            Gains-later disk disk1 rest.0 key keys others apart gains,
          ),
          λ d (out, outs). others2 d outs ∙ others d out,
        )

  passes_own :
      (same_refl : (k : K) → same k k ≡ true) (columns : List Text) (row : R)
      → passes keyed columns (key_of keyed columns row) row ≡ true
  unfolding passes
  passes_own same_refl [] row = refl
  passes_own same_refl (col_name ∷ columns) row =
      rw (same_refl (value_of col_name row)) (passes_own same_refl columns row)

  abbrev pub key : R → List K
  key row = key_of keyed partition_by row

  -- The row passes the filter of a partition.
  abbrev pub IsSaved : List (List K) → R → Type 0
  IsSaved keys row = (k : List K) × Among k keys × (passes keyed partition_by k row ≡ true)

  rows-IsSaved :
      (same_refl : (k : K) → same k k ≡ true) (keys : List (List K)) (rows : List R)
      → All (λ k. Among k keys) (map key rows)
      → All (IsSaved keys) rows
  rows-IsSaved same_refl keys [] h = tt
  rows-IsSaved same_refl keys (row ∷ rows) (h, hs) =
      ((key row, h, passes_own same_refl partition_by row), rows-IsSaved same_refl keys rows hs)

  -- A partitioned save of values that can all be written, to folders that can be written and of which none
  -- is another one or stands in another: it succeeds; the folder of each partition has one more file, with
  -- the rows of the frame that have its values, next to those that were in it where it is appended to, and
  -- alone otherwise; the files of all other folders stay; and each row is in one of the partitions. Polars'
  -- `unique` has each value that is there, and a value is the same as itself.
  pub save_partitioned_sequential-Gains :
      (disk : Disk R)
      → ((k : K) → same k k ≡ true)
      → ((keys : List (List K)) → All (λ k. Among k (unique keys)) keys)
      → All (Savable disk) (unique (map key frame))
      → AreApart keyed path partition_by (unique (map key frame))
      → (let (disk', failure) =
            save_partitioned_sequential keyed append_to_partition path partition_by frame disk in
          (failure ≡ none)
          × All (Gains disk disk') (unique (map key frame))
          × ((d : Text) → All (Outside d) (unique (map key frame)) → in_dir d disk' ≡ in_dir d disk)
          × All (IsSaved (unique (map key frame))) frame)
  unfolding save_partitioned_sequential
  save_partitioned_sequential-Gains disk same_refl unique_keeps can apart =
      let (fine, gains, others) = save_partitions-Gains (unique (map key frame)) disk can apart in
      (
        fine,
        gains,
        others,
        rows-IsSaved same_refl (unique (map key frame)) frame (unique_keeps (map key frame)),
      )
