-- ===== src/ParquetStats.antt =====
-- src/parquet_stats.rs: the ranges of integer columns, from the statistics in the footers of the files.
--
-- A footer is Polars' and a parameter of the function as a value: a file that does not open or whose
-- footer cannot be read is `none`, and the other files are lists of row groups. A row group gives for a
-- name its chunks (`columns_under_root_iter`), and for each chunk its statistics if it has them.
pub mod Hull
use stata_parquet_io.Prelude.{
  Bool, true, false, List, [], ◌∷◌, Option, none, some, ◌==◌, if◌then◌else◌, contains,
}
use stata_parquet_io.Prelude.Int.{ℤ, min_ℤ, max_ℤ}
use stata_parquet_io.Prelude.Text.{Text, text_Eq}

-- The bounds of a chunk, where they are there and exact, by the physical type.
pub data Statistics : Type 0 where
  int32 : Option ℤ → Option ℤ → Statistics
  int64 : Option ℤ → Option ℤ → Statistics
  other : Statistics

abbrev pub RowGroup : Type 0
RowGroup = Text → Option (List (Option Statistics))

abbrev pub Range : Type 0
Range = ℤ × ℤ

unfoldable pub both_bounds : Option ℤ → Option ℤ → Option Range
both_bounds (some mn) (some mx) = some (mn, mx)
both_bounds _ _ = none

-- The range that one row group gives for a column; `none` is a column that is not to be trusted.
unfoldable pub chunk_range : Option (List (Option Statistics)) → Option Range
chunk_range (some (some (Statistics.int32 mn mx) ∷ [])) = both_bounds mn mx
chunk_range (some (some (Statistics.int64 mn mx) ∷ [])) = both_bounds mn mx
chunk_range _ = none

unfoldable pub widen : Range → Range → Range
widen (mn, mx) (mn', mx') = (min_ℤ mn mn', max_ℤ mx mx')

abbrev pub merged : Option Range → Range → Range
merged none found = found
merged (some cur) found = widen cur found

-- The loop over the row groups of a file: whether there was one, and the file's range, whose two ends
-- are set together. `none` is the `break` of a column that is not to be trusted.
unfoldable pub file_range :
    Text → List RowGroup → Bool → Option Range → Option (Bool × Option Range)
file_range name [] saw_row_group range = some (saw_row_group, range)
file_range name (row_group ∷ row_groups) saw_row_group range = elim (chunk_range (row_group name)) [
  | none ↦ none
  | some found ↦ file_range name row_groups true (some (merged range found))
]

pub record Ranges : Type 0 where
  pub ranges : Text → Option Range
  pub untrustworthy : Text → Bool

abbrev pub distrust : Ranges → Text → Ranges
distrust s name = record s { untrustworthy = λ n. if name == n then true else s.untrustworthy n }

abbrev pub set_range : Ranges → Text → Range → Ranges
set_range s name range = record s { ranges = λ n. if name == n then some range else s.ranges n }

-- What a file's range does to the map: none where the column was distrusted, and nothing where the file
-- has no row group.
abbrev pub absorb : Ranges → Text → Option (Bool × Option Range) → Ranges
absorb s name none = distrust s name
absorb s name (some (false, range)) = s
absorb s name (some (true, none)) = distrust s name
absorb s name (some (true, some found)) = set_range s name (merged (s.ranges name) found)

unfoldable pub visit_column : List RowGroup → Ranges → Text → Ranges
visit_column row_groups s name =
    if s.untrustworthy name then s else absorb s name (file_range name row_groups false none)

unfoldable pub visit_columns : Option (List RowGroup) → Ranges → List Text → Ranges
visit_columns file s [] = s
visit_columns none s (name ∷ names) = visit_columns none (distrust s name) names
visit_columns (some row_groups) s (name ∷ names) =
    visit_columns (some row_groups) (visit_column row_groups s name) names

unfoldable pub visit_files : List (Option (List RowGroup)) → List Text → Ranges → Ranges
visit_files [] names s = s
visit_files (file ∷ files) names s = visit_files files names (visit_columns file s names)

abbrev pub no_ranges : Ranges
no_ranges = record { ranges = λ n. none; untrustworthy = λ n. false }

-- The map that is returned, as a function of the name.
unfoldable pub integer_ranges_from_footer_stats :
    List (Option (List RowGroup)) → List Text → Text → Option Range
integer_ranges_from_footer_stats files column_names name =
    let s = visit_files files column_names no_ranges in
    if s.untrustworthy name then none else s.ranges name
