-- ===== src/Tests/Types.antt =====
-- Runs of the definitions that model src/mapping.rs and src/downcast.rs.
use stata_parquet_io.Prelude.{
  contains, if_true, if_false, subst, sym, ◌∙◌, ◌≤◌, ◌≡◌, ◌≢◌, refl, ◌↔◌, inl, inr, arith, true,
  List, [], ◌∷◌, Option, none, some, ok, All, Bool-cases, ◌==◌,
}
use stata_parquet_io.Prelude.Int.{ℤ, pos, negsuc, ◌≤ℤ◌}
use stata_parquet_io.Prelude.Text.{Text, codes, text_Eq, text_eq, to_ascii_lowercase, lower_char}
use stata_parquet_io.DataTypes.{DataType, Schema, get}
use stata_parquet_io.Mapping.{
  StataType, to_string, from_str, map_polars_to_stata, map_stata_to_polars,
}
use stata_parquet_io.Mapping.Agreement.{
  mapped_back, from_str_iff, map_polars_to_stata-map_stata_to_polars,
}
use stata_parquet_io.Mapping.Ranges.{Holds, map_polars_to_stata-Holds}
use stata_parquet_io.Downcast.{
  find_optimal_integer_type, type_size, shrink_casts, build_type_mapping, mapping_casts,
  parse_data_type,
}
use stata_parquet_io.Downcast.IntegerTypes.{
  Covers, IsSafe, find_optimal_integer_type-IsLeast, shrink_casts-IsSafe,
}
use stata_parquet_io.Downcast.Replay.{recast, mapping_casts-build_type_mapping}

from_str_example :
    ((from_str (codes "DateTime") ≡ some StataType.datetime)
      ↔ (to_ascii_lowercase (codes "DateTime") ≡ to_string StataType.datetime))
    × (from_str (to_string StataType.datetime) ≡ some StataType.datetime)
from_str_example = from_str_iff (codes "DateTime") StataType.datetime

there_and_back_example :
    map_polars_to_stata (map_stata_to_polars StataType.strl) 10 ≡ mapped_back StataType.strl
there_and_back_example = map_polars_to_stata-map_stata_to_polars StataType.strl 10 (ground arith)

Holds-example : Holds (map_polars_to_stata DataType.int8 0) (negsuc 127)
Holds-example = map_polars_to_stata-Holds DataType.int8 0 (negsuc 127) (ground arith, ground arith)

optimal_example :
    (let chosen = find_optimal_integer_type (negsuc 4) (pos 101) true in
      Covers chosen true (negsuc 4) (pos 101)
      × ((t : DataType) → Covers t true (negsuc 4) (pos 101) → type_size chosen ≤ type_size t))
optimal_example = find_optimal_integer_type-IsLeast (negsuc 4) (pos 101) true (ground arith)

abbrev wide : Schema
wide = (codes "sex", DataType.int64) ∷ []

abbrev narrow : Schema
narrow = (codes "sex", DataType.int8) ∷ []

abbrev both : List Text
both = codes "sex" ∷ []

abbrev statistics : Text → Option (ℤ × ℤ)
statistics col = some (pos 1, pos 2)

some_pair : {a b : ℤ × ℤ} → ◌≡◌ {A = Option (ℤ × ℤ)} (some a) (some b) → a ≡ b
some_pair h = cc

ordered : (col : Text) (lo hi : ℤ) → statistics col ≡ some (lo, hi) → lo ≤ℤ hi
ordered col lo hi h = subst (λ b. b.0 ≤ℤ b.1) (some_pair h) (ground arith)

shrink_example : All (IsSafe wide statistics []) (shrink_casts wide statistics [] both)
shrink_example = shrink_casts-IsSafe wide statistics [] both ordered

abbrev debug : DataType → Text
debug DataType.int8 = codes "Int8"
debug _ = codes "Int64"

some_type : {a b : DataType} → ◌≡◌ {A = Option DataType} (some a) (some b) → a ≡ b
some_type h = cc

none-some : {a : DataType} → ◌≡◌ {A = Option DataType} none (some a) → ⊥
none-some h = cc

debugs : parse_data_type (to_ascii_lowercase (debug DataType.int8)) ≡ ok DataType.int8
unfolding parse_data_type to_ascii_lowercase lower_char text_eq
debugs = refl

parses :
    (col : Text) (o n : DataType)
    → get wide col ≡ some o
    → get narrow col ≡ some n
    → o ≢ n
    → parse_data_type (to_ascii_lowercase (debug n)) ≡ ok n
unfolding get
parses col o n e f ne = elim (Bool-cases (codes "sex" == col)) [
  | inl here ↦
      subst (λ t. parse_data_type (to_ascii_lowercase (debug t)) ≡ ok t)
        (some_type (sym (if_true (codes "sex" == col) (some DataType.int8) none here) ∙ f)) debugs
  | inr away ↦
      absurd (none-some (sym (if_false (codes "sex" == col) (some DataType.int8) none away) ∙ f))
]

listed : contains both (codes "sex") ≡ true
unfolding text_eq
listed = refl

was : get wide (codes "sex") ≡ some DataType.int64
unfolding get text_eq
was = refl

is : get narrow (codes "sex") ≡ some DataType.int8
unfolding get text_eq
is = refl

replay_example :
    recast
      (mapping_casts wide (build_type_mapping debug wide narrow [] both))
      (codes "sex")
      DataType.int64
    ≡ DataType.int8
replay_example =
    mapping_casts-build_type_mapping debug wide narrow parses both (codes "sex") DataType.int64
      DataType.int8 listed was is
