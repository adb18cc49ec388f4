-- ===== src/Tests/Saves.antt =====
-- Runs of the definitions that model how src/write.rs reads rows and saves partitions, and of the values
-- that src/read.rs writes.
use stata_parquet_io.Prelude.{
  ◌==◌, ◌^◌, ℕ, ◌+◌, ◌*◌, ◌≡◌, refl, arith, Bool, true, false, List, [], ◌∷◌, ◌++◌, Option, none,
  some, Outcome, ok, ltb, if◌then◌else◌, All, nat_eq, eqb_refl, inl, inr,
}
use stata_parquet_io.Prelude.Text.{
  Text, codes, text_Eq, text_eq, show_ℕ, starts_with, ends_with, parse_usize, join,
  to_ascii_lowercase, lower_char,
}
use stata_parquet_io.Prelude.Int.{ℤ, pos, pos_part, ◌+ℤ◌, ◌-ℤ◌, scale}
use stata_parquet_io.DataTypes.{DataType, Schema, get}
use stata_parquet_io.Mapping.{
  StataType, StataColumnInfo, resolve_stata_type, map_stata_to_polars, stata_column_info_to_schema,
}
use stata_parquet_io.StataCells.{Variables, AreStata}
use stata_parquet_io.Mapping.Ranges.{Holds}
use stata_parquet_io.Floats.{Floats, AreExact}
use stata_parquet_io.Read.Values.{AnyValue, Written, column_values}
use stata_parquet_io.Write.Scan.{Cells, Series, StataDataScan, new, scan}
use stata_parquet_io.Write.Scan.Rows.{IsFrame, scan-IsFrame}
use stata_parquet_io.CellRoundTrip.{IsStorable, info_of, read_back, column_values-read_back}
use stata_parquet_io.Write.Index.{max_idx, file_index}
use stata_parquet_io.Write.Partition.{
  Partitioning, Disk, in_dir, save_partitioned_sequential, path_parts,
}
use stata_parquet_io.Write.Partition.Folders.{Among, AreApart}
use stata_parquet_io.Write.Partition.Loop.{
  Savable, Gains, Outside, IsSaved, save_partitioned_sequential-Gains,
}

-- Integers in place of floats.
abbrev pub integers : Floats
integers = record {
  F = ℤ;
  of_int = λ z. z;
  as_int = λ half z. z;
  narrow = λ z. z;
  plus = λ a b. a +ℤ b;
  minus = λ a b. a -ℤ b;
  times = λ a b. scale (pos_part b) a;
  over = λ a b. a;
  is_positive = λ a. ltb 0 (pos_part a);
}

integers-AreExact : AreExact integers
integers-AreExact = record {
  as_int-of_int = λ half z e s. refl;
  plus-of_int = λ a b ea eb e. refl;
  minus-of_int = λ a b ea eb e. refl;
  times-of_int = λ k n h. refl;
  over_one = λ x. refl;
  is_positive-of_int = λ n. refl;
}

abbrev pub stata_cells : Cells integers
stata_cells = record {
  read_numeric = λ col row. some (pos (10 * col + row));
  read_string = λ col row n. codes "text";
  read_string_strl = λ col row. none;
}

abbrev pub one_column : List StataColumnInfo
one_column =
    record {
      name = codes "x";
      dtype = codes "byte";
      format = codes "%8.0g";
      str_length = 0;
      stata_col = 3;
    }
    ∷ []

abbrev one_field : Schema
one_field = (codes "x", DataType.int8) ∷ []

one_column_schema : stata_column_info_to_schema one_column ≡ some one_field
unfolding stata_column_info_to_schema resolve_stata_type map_stata_to_polars to_ascii_lowercase
    lower_char text_eq
one_column_schema = refl

one_column_field : get one_field (codes "x") ≡ some DataType.int8
unfolding get text_eq
one_column_field = refl

abbrev pub bad_type : DataType → Text
bad_type dtype = codes "Unsupported data type"

abbrev pub no_column : Text → Text
no_column name = name

abbrev pub no_sql : Text → List (Series ℤ) → Outcome Text (List (Series ℤ))
no_sql sql columns = ok columns

scan_example :
    (sds : StataDataScan integers stata_cells bad_type no_column) × (new integers stata_cells
        bad_type no_column 7 one_column
        (codes "x" ∷ [])
        none
        4
        2
        none
      ≡ some sds)
    × (columns : List (Series ℤ)) × (scan integers stata_cells bad_type no_column no_sql sds none
        ≡ ok columns)
    × IsFrame integers stata_cells bad_type no_column one_column one_field 2 0
        (codes "x" ∷ [])
        columns
scan_example =
    scan-IsFrame integers stata_cells bad_type no_column no_sql 7 one_column (codes "x" ∷ []) none 4
      2 2 one_field one_column_schema refl refl ((DataType.int8, one_column_field, tt), tt)

abbrev hours : ℕ → AnyValue ℤ
hours row = AnyValue.time (pos (1000000 * (3600000 * row)))

-- The missing value is the first integer that the doubles leave out.
abbrev missing_value : ℤ
missing_value = pos (2 ^ 53 + 1)

abbrev variables : Variables integers
variables = record { vstore = λ t z. z; is_missing = λ z. pos_part z == 2 ^ 53 + 1 }

not_missing : (t : StataType) (z : ℤ) → Holds t z → (pos_part z == 2 ^ 53 + 1) ≡ false
not_missing StataType.byte z (lo, hi) = ground (arith, hi)
not_missing StataType.int z (lo, hi) = ground (arith, hi)
not_missing StataType.long z (lo, hi) = ground (arith, hi)
not_missing StataType.double z (lo, hi) = ground (arith, hi)
not_missing StataType.float z h = elim h [ ]
not_missing StataType.date z h = elim h [ ]
not_missing StataType.time z h = elim h [ ]
not_missing StataType.datetime z h = elim h [ ]
not_missing StataType.string z h = elim h [ ]
not_missing StataType.strl z h = elim h [ ]
not_missing StataType.binary z h = elim h [ ]

variables-AreStata : AreStata integers variables
variables-AreStata = record {
  keeps = λ t z h. refl;
  is_there = not_missing;
  double_keeps = λ x h. refl;
}

column_values_example :
    (written : ℕ → Option (Written ℤ)) × (column_values integers
        (codes "No time unit")
        (info_of 0 (codes "at") DataType.time)
        (record { dtype = DataType.time; get = hours })
      ≡ ok (some written))
    × (read_back integers integers-AreExact variables variables-AreStata stata_cells missing_value
          refl DataType.time
          (written 2)
        ≡ hours 2)
column_values_example =
    column_values-read_back integers integers-AreExact variables variables-AreStata stata_cells
      missing_value refl (codes "No time unit") 0 (codes "at") hours DataType.time 2
      (IsStorable.time (3600000 * 2) (omega arith))

abbrev group_of : Text → ℕ × ℕ → ℕ
group_of col_name row = row.0

abbrev group_name : Text → ℕ → Option Text
group_name col_name g = some (col_name ++ (if g == 0 then codes "=a" else codes "=b"))

abbrev same_group : ℕ → ℕ → Bool
same_group a b = a == b

abbrev always : Text → Bool
always dir = false

abbrev no_break : Text → Option (List (ℕ × ℕ))
no_break dir = none

abbrev as_they_are : List (List ℕ) → List (List ℕ)
as_they_are keys = keys

abbrev by_group : Partitioning (ℕ × ℕ) ℕ
by_group = record {
  value_of = group_of;
  same = same_group;
  component = group_name;
  cannot_create = always;
  broken = no_break;
  unique = as_they_are;
}

Among-weaken :
    (keys all : List (List ℕ)) (k : List ℕ)
    → All (λ x. Among x all) keys
    → All (λ x. Among x (k ∷ all)) keys
Among-weaken [] all k h = tt
Among-weaken (x ∷ keys) all k (h, hs) = (inr h, Among-weaken keys all k hs)

as_they_are-Among : (keys : List (List ℕ)) → All (λ k. Among k (as_they_are keys)) keys
as_they_are-Among [] = tt
as_they_are-Among (k ∷ keys) = (inl refl, Among-weaken keys keys k (as_they_are-Among keys))

abbrev two_groups : List (ℕ × ℕ)
two_groups = (0, 5) ∷ (1, 6) ∷ []

abbrev old_disk : Disk (ℕ × ℕ)
old_disk = record { dir = codes "d/g=a"; name = codes "data_0.parquet"; rows = (0, 9) ∷ [] } ∷ []

old_disk_codes :
    (path_parts by_group (codes "g" ∷ []) (0 ∷ []) ≡ some (codes "g=a" ∷ []))
    × (path_parts by_group (codes "g" ∷ []) (1 ∷ []) ≡ some (codes "g=b" ∷ []))
unfolding path_parts
old_disk_codes = (refl, refl)

groups-Savable :
    All
      (Savable by_group true (codes "d") (codes "g" ∷ []) two_groups old_disk)
      ((0 ∷ []) ∷ (1 ∷ []) ∷ [])
unfolding path_parts join text_eq max_idx file_index ends_with starts_with parse_usize show_ℕ
groups-Savable = (
  ((codes "g=a" ∷ [], refl), (refl, refl, omega arith)),
  (((codes "g=b" ∷ [], refl), (refl, refl, tt)), tt),
)

groups-AreApart : AreApart by_group (codes "d") (codes "g" ∷ []) ((0 ∷ []) ∷ (1 ∷ []) ∷ [])
unfolding path_parts join text_eq starts_with
groups-AreApart = (((refl, refl), tt), (tt, tt))

save_partitioned_example :
    (let (disk, failure) =
        save_partitioned_sequential by_group true
          (codes "d")
          (codes "g" ∷ [])
          two_groups
          old_disk in
      (failure ≡ none)
      × All
          (Gains by_group true (codes "d") (codes "g" ∷ []) two_groups old_disk disk)
          ((0 ∷ []) ∷ (1 ∷ []) ∷ [])
      × ((d : Text)
          → All
              (Outside by_group true (codes "d") (codes "g" ∷ []) two_groups d)
              ((0 ∷ []) ∷ (1 ∷ []) ∷ [])
          → in_dir d disk ≡ in_dir d old_disk)
      × All
          (IsSaved by_group true (codes "d") (codes "g" ∷ []) two_groups ((0 ∷ []) ∷ (1 ∷ []) ∷ []))
          two_groups)
save_partitioned_example =
    save_partitioned_sequential-Gains by_group true (codes "d") (codes "g" ∷ []) two_groups old_disk
      (λ k. eqb_refl k) as_they_are-Among groups-Savable groups-AreApart
