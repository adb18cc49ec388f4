-- ===== src/StataMetadata/Validated.antt =====
-- `read_metadata_validated` and `describe_metadata` of src/stata_metadata.rs: the metadata of all files
-- that a path stands for.
--
-- Files come in by their footers: `raw` is `read_raw_metadata_json`, and `from_json` is serde's. Printing is
-- left out.
use stata_parquet_io.Prelude.{
  ◌≡◌, refl, sym, ap, ◌∙◌, ◌↔◌, Bool, true, false, List, [], ◌∷◌, ◌++◌, Option, none, some,
  some_injective, Outcome, ok, err, ok_injective, ◌==◌, if◌then◌else◌, All, Bool-cases, inl, inr,
}
use stata_parquet_io.Prelude.Text.{Text, codes, text_Eq, text_eq_iff}
use stata_parquet_io.SqlFromIf.{replace}
use stata_parquet_io.StataMetadata.{
  Macros, StataMetadataEnvelope, push_metadata_to_macros, clear_metadata_macro,
}

module _ (is_file is_dir : Text → Bool) (glob : Text → List Text) where
  -- `glob` gives the paths that it can read, in its order.
  unfoldable pub resolve_all_parquet_files : Text → List Text
  resolve_all_parquet_files path =
      if is_file path
      then path ∷ []
      else glob (
          if is_dir path
          then replace (codes "\\") (codes "/") path ++ codes "/**/*.parquet"
          else replace (codes "**.") (codes "**/*.") (replace (codes "\\") (codes "/") path))

  abbrev pub first_parquet_file : Text → Option Text
  first_parquet_file path = elim (resolve_all_parquet_files path) [
    | [] ↦ none
    | file ∷ files ↦ some file
  ]

pub data MetadataError : Type 0 where
  conflicting : Text → Text → MetadataError
  invalid : Text → Text → MetadataError

abbrev pub option_eq : Option Text → Option Text → Bool
option_eq none none = true
option_eq (some s) (some t) = s == t
option_eq _ _ = false

abbrev pub checked :
    Text → Outcome Text StataMetadataEnvelope → Outcome MetadataError (Option StataMetadataEnvelope)
checked first_path (ok envelope) = ok (some envelope)
checked first_path (err e) = err (MetadataError.invalid first_path e)

module _ (raw : Text → Option Text) (from_json : Text → Outcome Text StataMetadataEnvelope) where
  abbrev pub parsed : Text → Option Text → Outcome MetadataError (Option StataMetadataEnvelope)
  parsed first_path none = ok none
  parsed first_path (some json) = checked first_path (from_json json)

  -- The files after the first.
  unfoldable pub compare_files :
      Text → Option Text → List Text → Outcome MetadataError (Option StataMetadataEnvelope)
  compare_files first_path first_json [] = parsed first_path first_json
  compare_files first_path first_json (other_path ∷ files) =
      let rest = compare_files first_path first_json files in
      if option_eq (raw other_path) first_json
      then rest
      else err (MetadataError.conflicting first_path other_path)

  unfoldable pub read_metadata_validated :
      List Text → Outcome MetadataError (Option StataMetadataEnvelope)
  read_metadata_validated [] = ok none
  read_metadata_validated (first_path ∷ files) = compare_files first_path (raw first_path) files

  abbrev pub described :
      Outcome MetadataError (Option StataMetadataEnvelope) → Macros → Macros × Option MetadataError
  described (ok (some envelope)) macros = (push_metadata_to_macros envelope macros, none)
  described (ok none) macros = (clear_metadata_macro macros, none)
  described (err e) macros = (clear_metadata_macro macros, some e)

  unfoldable pub describe_metadata : List Text → Macros → Macros × Option MetadataError
  describe_metadata files macros = described (read_metadata_validated files) macros

option_eq_iff : (a b : Option Text) → (option_eq a b ≡ true) ↔ (a ≡ b)
option_eq_iff none none = (λ h. refl, λ h. refl)
option_eq_iff none (some t) = (λ h. cc, λ h. cc)
option_eq_iff (some s) none = (λ h. cc, λ h. cc)
option_eq_iff (some s) (some t) =
    (λ h. ap some ((text_eq_iff s t).0 h), λ h. (text_eq_iff s t).1 (some_injective h))

checked-ne-none :
    (first_path : Text) (o : Outcome Text StataMetadataEnvelope)
    → checked first_path o ≡ ok none
    → ⊥
checked-ne-none first_path (ok envelope) h = cc (ok_injective h)
checked-ne-none first_path (err e) h = cc h

checked-ok :
    (first_path : Text) (o : Outcome Text StataMetadataEnvelope) (envelope : StataMetadataEnvelope)
    → checked first_path o ≡ ok (some envelope)
    → o ≡ ok envelope
checked-ok first_path (ok e) envelope h = ap ok (some_injective (ok_injective h))
checked-ok first_path (err e) envelope h = cc h

module _ (raw : Text → Option Text) (from_json : Text → Outcome Text StataMetadataEnvelope) where
  -- What a result says of the footers: one text in all files that parses to the envelope, or none in any.
  abbrev pub Explains : Option StataMetadataEnvelope → List Text → Type 0
  Explains none files = All (λ file. raw file ≡ none) files
  Explains (some envelope) [] = ⊥
  Explains (some envelope) (file ∷ files) =
      (json : Text) × All (λ f. raw f ≡ some json) (file ∷ files) × (from_json json ≡ ok envelope)

  parsed_iff :
      (first_path : Text) (first_json : Option Text) (r : Option StataMetadataEnvelope)
      → raw first_path ≡ first_json
      → (parsed raw from_json first_path first_json ≡ ok r) ↔ Explains r (first_path ∷ [])
  parsed_iff first_path none none e = (λ h. (e, tt), λ h. refl)
  parsed_iff first_path none (some envelope) e =
      (λ h. absurd (cc (ok_injective h)), λ (json, (a, others), p). absurd (cc (sym e ∙ a)))
  parsed_iff first_path (some json) none e =
      (λ h. absurd (checked-ne-none first_path (from_json json) h), λ h. absurd (cc (sym e ∙ h.0)))
  parsed_iff first_path (some json) (some envelope) e = (
    λ h. (json, (e, tt), checked-ok first_path (from_json json) envelope h),
    λ (json', (a, others), p).
        let same : json ≡ json' = some_injective (sym e ∙ a) in
        ap (λ j. checked first_path (from_json j)) same ∙ ap (checked first_path) p,
  )

  Explains-agree :
      (first other : Text) (files : List Text) (r : Option StataMetadataEnvelope)
      → Explains r (first ∷ other ∷ files)
      → raw other ≡ raw first
  Explains-agree first other files none (a, (b, rest)) = b ∙ sym a
  Explains-agree first other files (some envelope) (json, (a, (b, rest)), p) = b ∙ sym a

  Explains-∷ :
      (first other : Text) (files : List Text) (r : Option StataMetadataEnvelope)
      → raw other ≡ raw first
      → Explains r (first ∷ files) ↔ Explains r (first ∷ other ∷ files)
  Explains-∷ first other files none e =
      (λ (a, rest). (a, (e ∙ a, rest)), λ (a, (b, rest)). (a, rest))
  Explains-∷ first other files (some envelope) e = (
    λ (json, (a, rest), p). (json, (a, (e ∙ a, rest)), p),
    λ (json, (a, (b, rest)), p). (json, (a, rest), p),
  )

  compare_files_iff :
      (first_path : Text) (first_json : Option Text) (files : List Text)
      (r : Option StataMetadataEnvelope)
      → raw first_path ≡ first_json
      → (compare_files raw from_json first_path first_json files ≡ ok r)
        ↔ Explains r (first_path ∷ files)
  unfolding compare_files
  compare_files_iff first_path first_json [] r e = parsed_iff first_path first_json r e
  compare_files_iff first_path first_json (other ∷ files) r e =
      elim (Bool-cases (option_eq (raw other) first_json)) [
        | inl same ↦
            let alike : raw other ≡ raw first_path =
              (option_eq_iff (raw other) first_json).0 same ∙ sym e in
            let ih = compare_files_iff first_path first_json files r e in
            let more = Explains-∷ first_path other files r alike in
            rw same (λ h. more.0 (ih.0 h), λ h. ih.1 (more.1 h))
        | inr differ ↦ rw differ (
          λ h. absurd (cc h),
          λ h. absurd (
              cc (
                sym differ
                ∙ (option_eq_iff (raw other) first_json).1
                    (Explains-agree first_path other files r h ∙ e))),
        )
      ]

  -- A path is read with metadata exactly if there are files and all of them carry one text, which parses to
  -- it; and without metadata exactly if no file carries any. All else is an error.
  pub read_metadata_validated_iff :
      (files : List Text) (r : Option StataMetadataEnvelope)
      → (read_metadata_validated raw from_json files ≡ ok r) ↔ Explains r files
  unfolding read_metadata_validated
  read_metadata_validated_iff [] none = (λ h. tt, λ h. refl)
  read_metadata_validated_iff [] (some envelope) =
      (λ h. absurd (cc (ok_injective h)), λ h. absurd h)
  read_metadata_validated_iff (first ∷ files) r = compare_files_iff first (raw first) files r refl
