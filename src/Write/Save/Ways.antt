-- ===== src/Write/Save/Ways.antt =====
-- The ways to save (src/write.rs), and when each of the functions for them answers 0.
use stata_parquet_io.Prelude.{
  ℕ, ◌≡◌, ◌≢◌, sym, ◌∙◌, ◌↔◌, ◌⊎◌, subst, inl, inr, [], Option, none, Outcome, ok, ◌>>=◌, ◌==◌,
  if_true, if_false, Bool-cases, nat_eq,
}
use stata_parquet_io.Prelude.Text.{Text, codes, text_Eq, text_eq, text_eq_iff, to_ascii_lowercase}
use stata_parquet_io.Dispatch.{SaveCall}
use stata_parquet_io.Write.Partition.{Disk, SaveError, save_partitioned_sequential}
use stata_parquet_io.Write.Save.{
  Plan, Stored, Content, Surroundings, Answer, disk_of, under_a_file, with_disk, create_file,
  partitioned, compressed, delete_existing_non_parquet, delete_existing, as_parquet,
  save_no_partition, compressed_partitions, save_partitioned, write_format,
}
use stata_parquet_io.Write.Save.Steps.{
  Succeeds, not_198, at_frame_iff, write_file_iff, create_file_iff, partitioned_iff, IsWritten,
  IsCreated,
}

module _ {Frame R K E : Type 0} (around : Surroundings Frame R K E) where
  open around use {polars, disks, partitioning}
  open polars use {rows_of}
  open disks use {create_fails, parquet_failed, spss_failed, csv_failed}

  -- The partitions of a frame, from what stands at the path.
  abbrev pub partitions_of :
      SaveCall → Plan Frame E → Content Frame R → Frame → Disk R × Option SaveError
  partitions_of call plan content df =
      save_partitioned_sequential (under_a_file content partitioning) call.append_to_partition
        call.path plan.partition_by (rows_of df) (disk_of content)

  abbrev pub compressed_frame : SaveCall → Plan Frame E → Outcome E Frame
  compressed_frame call plan = plan.frame >>= compressed around call none none

  abbrev pub deleted : SaveCall → Content Frame R → ℕ × Content Frame R
  deleted call content = delete_existing around call content

  abbrev pub deleted_other : Content Frame R → ℕ × Content Frame R
  deleted_other content = delete_existing_non_parquet around content

  abbrev pub stored_parquet : SaveCall → Plan Frame E → Frame → Stored Frame
  stored_parquet call plan df = as_parquet around call plan df

  -- The four ways to save.
  pub data Saves (call : SaveCall) (plan : Plan Frame E) (content content' : Content Frame R)
      : Type 0 where
    whole :
        to_ascii_lowercase call.output_format ≡ codes "parquet"
        → plan.partition_by ≡ []
        → (cleared : Content Frame R) → deleted call content ≡ (0, cleared)
        → (df : Frame) → compressed_frame call plan ≡ ok df
        → IsCreated create_fails (parquet_failed df) (stored_parquet call plan df) cleared content'
        → Saves call plan content content'
    partitions :
        to_ascii_lowercase call.output_format ≡ codes "parquet"
        → plan.partition_by ≢ []
        → (cleared : Content Frame R) → deleted call content ≡ (0, cleared)
        → (df : Frame) → (plan.frame >>= compressed_partitions around call plan) ≡ ok df
        → (partitions_of call plan cleared df).1 ≡ none
        → content' ≡ with_disk cleared (partitions_of call plan cleared df).0
        → Saves call plan content content'
    spss :
        to_ascii_lowercase call.output_format ≡ codes "spss"
        → plan.partition_by ≡ []
        → (cleared : Content Frame R) → deleted_other content ≡ (0, cleared)
        → (df : Frame) → compressed_frame call plan ≡ ok df
        → IsWritten (spss_failed df) (Stored.spss df) content'
        → Saves call plan content content'
    csv :
        to_ascii_lowercase call.output_format ≡ codes "csv"
        → plan.partition_by ≡ []
        → (cleared : Content Frame R) → deleted_other content ≡ (0, cleared)
        → (df : Frame) → compressed_frame call plan ≡ ok df
        → IsCreated create_fails (csv_failed df) (Stored.csv df) cleared content'
        → Saves call plan content content'

  abbrev pub no_partition : SaveCall → Plan Frame E → Content Frame R → Answer Frame R
  no_partition call plan cleared = save_no_partition around call plan cleared

  abbrev pub by_partition : SaveCall → Plan Frame E → Content Frame R → Answer Frame R
  by_partition call plan cleared = save_partitioned around call plan cleared

  abbrev pub formatted : Text → Frame → Content Frame R → Answer Frame R
  formatted format df cleared = write_format around format df cleared

  pub save_no_partition_iff :
      (call : SaveCall) (plan : Plan Frame E) (cleared content' : Content Frame R)
      → Succeeds (no_partition call plan cleared) content'
        ↔ (df : Frame) × (compressed_frame call plan ≡ ok df)
          × IsCreated create_fails
              (parquet_failed df)
              (stored_parquet call plan df)
              cleared
              content'
  unfolding save_no_partition
  save_no_partition_iff call plan cleared content' =
      let create : Frame → Answer Frame R =
        λ df. create_file create_fails (parquet_failed df) (stored_parquet call plan df) cleared in
      let framed = at_frame_iff (compressed_frame call plan) create cleared content' in
      let created = λ (df : Frame).
        create_file_iff create_fails (parquet_failed df) (stored_parquet call plan df) cleared
          content' in
      (
        λ h. let (df, e, saved) = framed.0 h in (df, e, (created df).0 saved),
        λ (df, e, c). framed.1 (df, e, (created df).1 c),
      )

  pub save_partitioned_iff :
      (call : SaveCall) (plan : Plan Frame E) (cleared content' : Content Frame R)
      → Succeeds (by_partition call plan cleared) content'
        ↔ (df : Frame) × ((plan.frame >>= compressed_partitions around call plan) ≡ ok df)
          × ((partitions_of call plan cleared df).1 ≡ none)
          × (content' ≡ with_disk cleared (partitions_of call plan cleared df).0)
  unfolding save_partitioned
  save_partitioned_iff call plan cleared content' =
      let framed =
        at_frame_iff (plan.frame >>= compressed_partitions around call plan)
          (λ df. partitioned cleared (partitions_of call plan cleared df)) cleared content' in
      let saved =
        λ (df : Frame). partitioned_iff cleared (partitions_of call plan cleared df) content' in
      (
        λ h.
            let (df, e, done) = framed.0 h in
            let (fine, same_disk) = (saved df).0 done in (df, e, fine, same_disk),
        λ (df, e, fine, same_disk). framed.1 (df, e, (saved df).1 (fine, same_disk)),
      )

  pub write_format_split :
      (format : Text) (df : Frame) (cleared content' : Content Frame R)
      → Succeeds (formatted format df cleared) content'
      → ((format ≡ codes "spss") × IsWritten (spss_failed df) (Stored.spss df) content')
        ⊎ ((format ≡ codes "csv")
            × IsCreated create_fails (csv_failed df) (Stored.csv df) cleared content')
  write_format_split format df cleared content' h = elim (Bool-cases (format == codes "spss")) [
    | inl is ↦
        let done = sym (if_true (format == codes "spss") _ _ is) ∙ h in
        inl (
          (text_eq_iff format (codes "spss")).0 is,
          (write_file_iff (spss_failed df) (Stored.spss df) content').0 done,
        )
    | inr not_spss ↦
        let rest = sym (if_false (format == codes "spss") _ _ not_spss) ∙ h in
        elim (Bool-cases (format == codes "csv")) [
          | inl is ↦
              let done = sym (if_true (format == codes "csv") _ _ is) ∙ rest in
              inr (
                (text_eq_iff format (codes "csv")).0 is,
                (create_file_iff create_fails (csv_failed df) (Stored.csv df) cleared content').0
                    done,
              )
          | inr not_csv ↦
              not_198 cleared content' (sym (if_false (format == codes "csv") _ _ not_csv) ∙ rest)
        ]
  ]

  pub write_format_spss :
      (format : Text) (df : Frame) (cleared content' : Content Frame R)
      → format ≡ codes "spss"
      → IsWritten (spss_failed df) (Stored.spss df) content'
      → Succeeds (formatted format df cleared) content'
  write_format_spss format df cleared content' e w =
      if_true (format == codes "spss") _ _ ((text_eq_iff format (codes "spss")).1 e)
      ∙ (write_file_iff (spss_failed df) (Stored.spss df) content').1 w

  pub write_format_csv :
      (format : Text) (df : Frame) (cleared content' : Content Frame R)
      → format ≡ codes "csv"
      → IsCreated create_fails (csv_failed df) (Stored.csv df) cleared content'
      → Succeeds (formatted format df cleared) content'
  unfolding text_eq
  write_format_csv format df cleared content' e w =
      subst (λ f. Succeeds (formatted f df cleared) content') (sym e)
        ((create_file_iff create_fails (csv_failed df) (Stored.csv df) cleared content').1 w)
