-- ===== src/StataMetadata/Whole.antt =====
-- The whole of an envelope, through macros and back (src/stata_metadata.rs).
use stata_parquet_io.Prelude.{◌^◌, ◌<◌, ◌≡◌, false, List, nat_eq, length, is_empty, All}
use stata_parquet_io.Prelude.Text.{Text, codes, text_Eq}
use stata_parquet_io.Mapping.{StataColumnInfo}
use stata_parquet_io.StataMetadata.{StataMetadataEnvelope}
use stata_parquet_io.StataMetadata.IndexedList.{FitsList}
use stata_parquet_io.StataMetadata.Variables.{FitsVariables}
use stata_parquet_io.StataMetadata.ValueLabels.{FitsLabels}
use stata_parquet_io.StataMetadata.Maps.{IsAscending}
use stata_parquet_io.StataMetadata.Gathered.{IsDefinition}
use stata_parquet_io.StataMetadata.RoundTrip.{IsShort, IsText, IsRecorded}

-- A value label that can be read back.
abbrev pub IsLabel : Text × List (Text × Text) → Type 0
IsLabel (name, defn) =
    IsShort name
    × IsDefinition defn
    × All (λ (pair : Text × Text). IsShort pair.0 × IsShort pair.1) defn

abbrev pub IsSaved : List (Text × Text) → List StataColumnInfo → StataMetadataEnvelope → Type 0
IsSaved rename_list column_info envelope =
    (envelope.version ≡ 1)
    × IsText envelope.dataset_label
    × ((length envelope.dataset_notes < 2 ^ 64) × All IsShort envelope.dataset_notes)
    × ((is_empty envelope.variables ≡ false) × (length envelope.variables < 2 ^ 64))
    × (IsAscending envelope.variables × All (IsRecorded rename_list column_info) envelope.variables)
    × (length envelope.value_labels < 2 ^ 64)
    × (IsAscending envelope.value_labels × All IsLabel envelope.value_labels)
    × (FitsList (codes "pq_meta_dataset_note") envelope.dataset_notes
        × FitsVariables 1 envelope.variables
        × FitsLabels 1 envelope.value_labels)
