-- ===== src/Tests/Metadata.antt =====
-- Runs of the definitions that model src/stata_metadata.rs.
use stata_parquet_io.Prelude.{
  ◌≡◌, ◌↔◌, refl, [], ◌∷◌, Option, none, some, Outcome, ok, err, ltb, ◌==◌, if◌then◌else◌, nat_eq,
}
use stata_parquet_io.Prelude.Text.{Text, codes, text_Eq, text_eq}
use stata_parquet_io.Mapping.Rename.{byte_len}
use stata_parquet_io.StataMetadata.{Macros, VariableMetadata, StataMetadataEnvelope}
use stata_parquet_io.StataMetadata.Validated.{
  MetadataError, Explains, compare_files, read_metadata_validated, read_metadata_validated_iff,
}

-- What a buffer of 1,024 bytes can hold.
abbrev read_short : Text → Text
read_short t = if ltb (byte_len t) 1024 then t else []

abbrev sex : VariableMetadata
sex = record {
  label = some (codes "Sex");
  value_label = some (codes "mf");
  notes = codes "asked twice" ∷ [];
  format = some (codes "%8.0g");
  stata_type = none;
}

abbrev survey : StataMetadataEnvelope
survey = record {
  version = 1;
  dataset_label = some (codes "Survey");
  dataset_notes = codes "draft" ∷ codes "2024" ∷ [];
  variables = (codes "sex", sex) ∷ [];
  value_labels =
      (codes "mf", (codes "0", codes "male") ∷ (codes "1", codes "female") ∷ [])
      ∷ (codes "yn", (codes "1", codes "yes") ∷ [])
      ∷ [];
}

abbrev no_macros : Macros
no_macros name = []

-- Two files with one text, and a third with another.
abbrev footer : Text → Option Text
footer path = if path == codes "c" then some (codes "y") else some (codes "x")

abbrev any_json : Text → Outcome Text StataMetadataEnvelope
any_json json = ok survey

read_metadata_validated_test :
    read_metadata_validated footer any_json (codes "a" ∷ codes "b" ∷ codes "c" ∷ [])
    ≡ err (MetadataError.conflicting (codes "a") (codes "c"))
unfolding read_metadata_validated compare_files text_eq
read_metadata_validated_test = refl

read_metadata_validated_example :
    (read_metadata_validated footer any_json (codes "a" ∷ codes "b" ∷ []) ≡ ok (some survey))
    ↔ Explains footer any_json (some survey) (codes "a" ∷ codes "b" ∷ [])
read_metadata_validated_example =
    read_metadata_validated_iff footer any_json (codes "a" ∷ codes "b" ∷ []) (some survey)
