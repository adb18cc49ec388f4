-- ===== src/Write/Save/Steps.antt =====
-- When the single steps of a save (src/write.rs) answer 0.
use stata_parquet_io.Prelude.{
  ℕ, ◌≡◌, refl, sym, ap, ◌∙◌, ◌↔◌, inl, inr, Bool, true, false, List, [], ◌∷◌, Option, none, some,
  Outcome, ok, err, ok_injective, arith, if◌then◌else◌, is_empty, if_true, if_false, Bool-cases,
  ltb, nat_eq,
}
use stata_parquet_io.Prelude.Text.{text_Eq}
use stata_parquet_io.Write.Partition.{Disk, SaveError}
use stata_parquet_io.Write.Save.{
  Stored, Content, Failure, Answer, with_disk, at_frame, after_delete, write_file, create_file,
  partitioned,
}

pub is_empty_iff : {A : Type 0} (xs : List A) → (is_empty xs ≡ true) ↔ (xs ≡ [])
is_empty_iff [] = (λ h. refl, λ h. refl)
is_empty_iff (x ∷ xs) = (λ h. absurd (cc h), λ h. absurd (cc h))

module _ {Frame R : Type 0} where
  abbrev pub Succeeds : Answer Frame R → Content Frame R → Type 0
  Succeeds answer content = answer ≡ (content, ok 0)

  pub not_198 : {A : Type 0} (c c' : Content Frame R) → Succeeds (c, ok 198) c' → A
  not_198 c c' h =
      let e : ◌≡◌ {A = Outcome Failure ℕ} (ok 198) (ok 0) = ap (λ r. r.1) h in
      absurd (omega (arith, ok_injective e))

  pub at_frame_iff :
      {E : Type 0} (o : Outcome E Frame) (save : Frame → Answer Frame R)
      (content content' : Content Frame R)
      → Succeeds (at_frame o save content) content'
        ↔ (df : Frame) × (o ≡ ok df) × Succeeds (save df) content'
  at_frame_iff (ok df) save content content' =
      (λ h. (df, refl, h), λ (df', e, h). ap save (ok_injective e) ∙ h)
  at_frame_iff (err e) save content content' =
      (λ h. not_198 content content' h, λ (df, e', h). absurd (cc e'))

  pub after_delete_iff :
      (deleted : ℕ × Content Frame R) (save : Content Frame R → Answer Frame R)
      (content' : Content Frame R)
      → Succeeds (after_delete deleted save) content'
        ↔ (cleared : Content Frame R) × (deleted ≡ (0, cleared)) × Succeeds (save cleared) content'
  after_delete_iff (code, cleared) save content' = elim (Bool-cases (ltb 0 code)) [
    | inl failed ↦ (
      λ h.
          let e : ◌≡◌ {A = Outcome Failure ℕ} (ok code) (ok 0) =
            ap (λ r. r.1) (sym (if_true (ltb 0 code) _ _ failed) ∙ h) in
          absurd (cc (sym failed ∙ ap (ltb 0) (ok_injective e))),
      λ (c, e, h). absurd (cc (sym failed ∙ ap (λ (r : ℕ × Content Frame R). ltb 0 r.0) e)),
    )
    | inr fine ↦
        let zero_code : code ≡ 0 = ground arith in
        (
          λ h.
              (cleared, ap (λ n. (n, cleared)) zero_code, sym (if_false (ltb 0 code) _ _ fine) ∙ h),
          λ (c, e, h).
              if_false (ltb 0 code) _ _ fine ∙ ap (λ (r : ℕ × Content Frame R). save r.1) e ∙ h,
        )
  ]

  -- A write to a file that did not fail.
  abbrev pub IsWritten : Option (Content Frame R) → Stored Frame → Content Frame R → Type 0
  IsWritten failed stored content' = (failed ≡ none) × (content' ≡ Content.file stored)

  pub write_file_iff :
      (failed : Option (Content Frame R)) (stored : Stored Frame) (content' : Content Frame R)
      → Succeeds (write_file failed stored) content' ↔ IsWritten failed stored content'
  write_file_iff none stored content' =
      (λ h. (refl, sym (ap (λ r. r.0) h)), λ (e, h). ap (λ c. (c, ok 0)) (sym h))
  write_file_iff (some left) stored content' =
      (λ h. not_198 left content' h, λ (e, h). absurd (cc e))

  abbrev pub IsFolder : Content Frame R → Type 0
  IsFolder (Content.folder disk) = Unit
  IsFolder _ = ⊥

  -- A file can be created, and the write to it did not fail.
  abbrev pub IsCreated :
      Bool → Option (Content Frame R) → Stored Frame → Content Frame R → Content Frame R → Type 0
  IsCreated create_fails failed stored content content' =
      (¬ IsFolder content) × (create_fails ≡ false) × IsWritten failed stored content'

  created_iff :
      (create_fails : Bool) (failed : Option (Content Frame R)) (stored : Stored Frame)
      (content content' : Content Frame R)
      → Succeeds (if create_fails then (content, ok 198) else write_file failed stored) content'
        ↔ (create_fails ≡ false) × IsWritten failed stored content'
  created_iff true failed stored content content' =
      (λ h. not_198 content content' h, λ (e, h). absurd (cc e))
  created_iff false failed stored content content' =
      let written = write_file_iff failed stored content' in
      (λ h. (refl, written.0 h), λ (e, h). written.1 h)

  pub create_file_iff :
      (create_fails : Bool) (failed : Option (Content Frame R)) (stored : Stored Frame)
      (content content' : Content Frame R)
      → Succeeds (create_file create_fails failed stored content) content'
        ↔ IsCreated create_fails failed stored content content'
  create_file_iff create_fails failed stored Content.nothing content' =
      let made = created_iff create_fails failed stored Content.nothing content' in
      (λ h. let (can, w) = made.0 h in (λ f. f, can, w), λ (f, can, w). made.1 (can, w))
  create_file_iff create_fails failed stored (Content.file s) content' =
      let made = created_iff create_fails failed stored (Content.file s) content' in
      (λ h. let (can, w) = made.0 h in (λ f. f, can, w), λ (f, can, w). made.1 (can, w))
  create_file_iff create_fails failed stored (Content.folder disk) content' =
      (λ h. not_198 (Content.folder disk) content' h, λ (f, can, w). absurd (f tt))

  pub partitioned_iff :
      (content : Content Frame R) (saved : Disk R × Option SaveError) (content' : Content Frame R)
      → Succeeds (partitioned content saved) content'
        ↔ (saved.1 ≡ none) × (content' ≡ with_disk content saved.0)
  partitioned_iff content (disk, none) content' =
      (λ h. (refl, sym (ap (λ r. r.0) h)), λ (e, h). ap (λ c. (c, ok 0)) (sym h))
  partitioned_iff content (disk, some e) content' = (
    λ h.
        let e' : ◌≡◌ {A = Outcome Failure ℕ} (err (Failure.partition_failed e)) (ok 0) =
          ap (λ r. r.1) h in
        absurd (cc e'),
    λ (e', h). absurd (cc e'),
  )
