-- ===== src/Write/Save/Answers.antt =====
-- When a save (src/write.rs) answers 0, and what it has written then.
use stata_parquet_io.Prelude.{
  ℕ, ◌≡◌, ◌≢◌, refl, sym, ap, ◌∙◌, ◌↔◌, inl, inr, false, List, [], ◌∷◌, Option, none, some,
  some_injective, Outcome, ok, err, ◌==◌, if◌then◌else◌, is_empty, if_true, if_false, Bool-cases,
  nat_eq,
}
use stata_parquet_io.Prelude.Text.{Text, codes, text_Eq, text_eq, text_eq_iff, to_ascii_lowercase}
use stata_parquet_io.Mapping.{StataColumnInfo}
use stata_parquet_io.StataMetadata.{StataMetadataEnvelope}
use stata_parquet_io.Dispatch.{SaveCall}
use stata_parquet_io.Write.Save.{
  Plan, read_plan, Content, Surroundings, Failure, Answer, at_frame, save_plan, write_planned,
  write_from_stata,
}
use stata_parquet_io.Write.Save.Steps.{
  is_empty_iff, Succeeds, not_198, at_frame_iff, after_delete_iff,
}
use stata_parquet_io.Write.Save.Ways.{
  no_partition, by_partition, formatted, save_no_partition_iff, save_partitioned_iff,
  write_format_split, write_format_spss, write_format_csv, compressed_frame, deleted, deleted_other,
  Saves,
}

module _ {Frame R K E : Type 0} (around : Surroundings Frame R K E) where
  open around use {polars, disks, partitioning}
  open polars use {rows_of}
  open disks use {create_fails, parquet_failed, spss_failed, csv_failed}

  abbrev saved : SaveCall → Plan Frame E → Content Frame R → Answer Frame R
  saved call plan content = save_plan around call plan content

  abbrev to_parquet : SaveCall → Plan Frame E → Content Frame R → Answer Frame R
  to_parquet call plan cleared =
      if is_empty plan.partition_by
      then no_partition around call plan cleared
      else by_partition around call plan cleared

  abbrev to_other : SaveCall → Plan Frame E → Content Frame R → Answer Frame R
  to_other call plan cleared =
      at_frame (compressed_frame around call plan)
        (λ df. formatted around (to_ascii_lowercase call.output_format) df cleared) cleared

  to_parquet-Saves :
      (call : SaveCall) (plan : Plan Frame E) (content cleared content' : Content Frame R)
      → to_ascii_lowercase call.output_format ≡ codes "parquet"
      → deleted around call content ≡ (0, cleared)
      → Succeeds (to_parquet call plan cleared) content'
      → Saves around call plan content content'
  to_parquet-Saves call plan content cleared content' format d h =
      elim (Bool-cases (is_empty plan.partition_by)) [
        | inl none_given ↦
            let (df, e, c) =
              (save_no_partition_iff around call plan cleared content').0
                (sym (if_true (is_empty plan.partition_by) _ _ none_given) ∙ h) in
            Saves.whole format ((is_empty_iff plan.partition_by).0 none_given) cleared d df e c
        | inr some_given ↦
            let (df, e, fine, same_disk) =
              (save_partitioned_iff around call plan cleared content').0
                (sym (if_false (is_empty plan.partition_by) _ _ some_given) ∙ h) in
            Saves.partitions format
              (λ nil. absurd (cc (sym some_given ∙ (is_empty_iff plan.partition_by).1 nil))) cleared
              d df e fine same_disk
      ]

  to_other-Saves :
      (call : SaveCall) (plan : Plan Frame E) (content cleared content' : Content Frame R)
      → plan.partition_by ≡ []
      → deleted_other around content ≡ (0, cleared)
      → Succeeds (to_other call plan cleared) content'
      → Saves around call plan content content'
  to_other-Saves call plan content cleared content' nil d h =
      let format : Text = to_ascii_lowercase call.output_format in
      let (df, e, done) =
        (at_frame_iff (compressed_frame around call plan) (λ df. formatted around format df cleared)
            cleared content').0
          h in
      elim (write_format_split around format df cleared content' done) [
        | inl (is, w) ↦ Saves.spss is nil cleared d df e w
        | inr (is, w) ↦ Saves.csv is nil cleared d df e w
      ]

  save_plan-Saves :
      (call : SaveCall) (plan : Plan Frame E) (content content' : Content Frame R)
      → Succeeds (saved call plan content) content'
      → Saves around call plan content content'
  unfolding save_plan
  save_plan-Saves call plan content content' h =
      let format : Text = to_ascii_lowercase call.output_format in
      elim (Bool-cases (format == codes "parquet")) [
        | inl is ↦
            let (cleared, d, rest) =
              (after_delete_iff (deleted around call content) (to_parquet call plan) content').0
                (sym (if_true (format == codes "parquet") _ _ is) ∙ h) in
            to_parquet-Saves call plan content cleared content'
              ((text_eq_iff format (codes "parquet")).0 is) d rest
        | inr not_parquet ↦
            let h1 = sym (if_false (format == codes "parquet") _ _ not_parquet) ∙ h in
            elim (Bool-cases (is_empty plan.partition_by)) [
              | inl none_given ↦
                  let (cleared, d, rest) =
                    (after_delete_iff (deleted_other around content) (to_other call plan)
                        content').0
                      (sym (if_true (is_empty plan.partition_by) _ _ none_given) ∙ h1) in
                  to_other-Saves call plan content cleared content'
                    ((is_empty_iff plan.partition_by).0 none_given) d rest
              | inr some_given ↦
                  not_198 content content'
                    (sym (if_false (is_empty plan.partition_by) _ _ some_given) ∙ h1)
            ]
      ]

  non_empty_false : (columns : List Text) → columns ≢ [] → is_empty columns ≡ false
  non_empty_false [] h = absurd (h refl)
  non_empty_false (c ∷ columns) h = refl

  saved_parquet :
      (call : SaveCall) (plan : Plan Frame E) (content cleared content' : Content Frame R)
      → to_ascii_lowercase call.output_format ≡ codes "parquet"
      → deleted around call content ≡ (0, cleared)
      → Succeeds (to_parquet call plan cleared) content'
      → Succeeds (saved call plan content) content'
  unfolding save_plan
  saved_parquet call plan content cleared content' format d h =
      if_true (to_ascii_lowercase call.output_format == codes "parquet") _ _
        ((text_eq_iff _ (codes "parquet")).1 format)
      ∙ (after_delete_iff (deleted around call content) (to_parquet call plan) content').1
          (cleared, d, h)

  saved_other :
      (call : SaveCall) (plan : Plan Frame E) (content cleared content' : Content Frame R)
      → (to_ascii_lowercase call.output_format == codes "parquet") ≡ false
      → plan.partition_by ≡ []
      → deleted_other around content ≡ (0, cleared)
      → Succeeds (to_other call plan cleared) content'
      → Succeeds (saved call plan content) content'
  unfolding save_plan
  saved_other call plan content cleared content' format nil d h =
      if_false (to_ascii_lowercase call.output_format == codes "parquet") _ _ format
      ∙ if_true (is_empty plan.partition_by) _ _ ((is_empty_iff plan.partition_by).1 nil)
      ∙ (after_delete_iff (deleted_other around content) (to_other call plan) content').1
          (cleared, d, h)

  not_parquet :
      (format other : Text)
      → format ≡ other
      → text_eq other (codes "parquet") ≡ false
      → text_eq format (codes "parquet") ≡ false
  not_parquet format other e h = ap (λ f. text_eq f (codes "parquet")) e ∙ h

  Saves-save_plan :
      (call : SaveCall) (plan : Plan Frame E) (content content' : Content Frame R)
      → Saves around call plan content content'
      → Succeeds (saved call plan content) content'
  unfolding text_eq
  Saves-save_plan call plan content content' (Saves.whole format nil cleared d df e c) =
      saved_parquet call plan content cleared content' format d (
        if_true (is_empty plan.partition_by) _ _ ((is_empty_iff plan.partition_by).1 nil)
        ∙ (save_no_partition_iff around call plan cleared content').1 (df, e, c))
  Saves-save_plan call plan content content'
        (Saves.partitions format some_given cleared d df e fine same_disk) =
      saved_parquet call plan content cleared content' format d (
        if_false (is_empty plan.partition_by) _ _ (non_empty_false plan.partition_by some_given)
        ∙ (save_partitioned_iff around call plan cleared content').1 (df, e, fine, same_disk))
  Saves-save_plan call plan content content' (Saves.spss format nil cleared d df e w) =
      saved_other call plan content cleared content' (not_parquet _ (codes "spss") format refl) nil
        d
        ((at_frame_iff (compressed_frame around call plan)
            (λ df. formatted around (to_ascii_lowercase call.output_format) df cleared) cleared
            content').1
          (df, e, write_format_spss around _ df cleared content' format w))
  Saves-save_plan call plan content content' (Saves.csv format nil cleared d df e w) =
      saved_other call plan content cleared content' (not_parquet _ (codes "csv") format refl) nil d
        ((at_frame_iff (compressed_frame around call plan)
            (λ df. formatted around (to_ascii_lowercase call.output_format) df cleared) cleared
            content').1
          (df, e, write_format_csv around _ df cleared content' format w))

  write_planned_iff :
      (call : SaveCall) (planned : Option (Plan Frame E)) (content content' : Content Frame R)
      → Succeeds (write_planned around call planned content) content'
        ↔ (plan : Plan Frame E) × (planned ≡ some plan) × Saves around call plan content content'
  write_planned_iff call none content content' = (
    λ h.
        let e : ◌≡◌ {A = Outcome Failure ℕ} (err Failure.panicked) (ok 0) = ap (λ r. r.1) h in
        absurd (cc e),
    λ (plan, e, s). absurd (cc e),
  )
  write_planned_iff call (some plan) content content' = (
    λ h. (plan, refl, save_plan-Saves call plan content content' h),
    λ (plan', e, s).
        ap (λ p. saved call p content) (some_injective e)
        ∙ Saves-save_plan call plan' content content' s,
  )

  module _ (get_macro : Text → Text) (from_json : Text → Option (List StataColumnInfo))
      (to_json : StataMetadataEnvelope → Option Text)
      (scan : List StataColumnInfo
        → List Text
        → Option ℕ
        → ℕ
        → ℕ
        → Option Text
        → Option (Outcome E Frame)) where
    -- A save answers 0 exactly if the macros make a plan, what stood at the path was removed or may stay,
    -- the frame was read and compressed, and it was written in one of four ways: to one Parquet file, to
    -- its partitions, or, without partitions, to an SPSS or a CSV file. The content of the path is then
    -- that file with the whole frame, or the folders of the partitions.
    pub write_from_stata_iff :
        (call : SaveCall) (content content' : Content Frame R)
        → (write_from_stata around get_macro from_json to_json scan call content ≡ (content', ok 0))
          ↔ (plan : Plan Frame E) × (read_plan get_macro from_json to_json scan call ≡ some plan)
            × Saves around call plan content content'
    unfolding write_from_stata
    write_from_stata_iff call content content' =
        write_planned_iff call (read_plan get_macro from_json to_json scan call) content content'
