-- ===== src/Describe.antt =====
-- src/describe.rs: the storage types that override the default ones, and the 64-bit columns whose values
-- a double does not hold.
--
-- `debug` is the text that Polars prints a type as. The files come in by the ranges that their footers
-- give (`verified_ranges`) and by the metadata that a save left (`recorded`, the type of each variable
-- as text, empty where the metadata cannot be read). `as_double` is the cast of an integer to `f64`.
pub mod Safety
use stata_parquet_io.Prelude.{
  ℕ, ◌-◌, Bool, true, false, not, ◌||◌, List, [], ◌∷◌, Option, none, some, ◌==◌, if◌then◌else◌,
  retain, contains,
}
use stata_parquet_io.Prelude.Int.{ℤ, pos, negsuc, leb_ℤ}
use stata_parquet_io.Prelude.Text.{Text, codes, text_Eq, to_ascii_lowercase}
use stata_parquet_io.DataTypes.{DataType, Schema}
use stata_parquet_io.Mapping.{StataType, from_str, widen_with_recorded_type}
use stata_parquet_io.Downcast.{find_optimal_integer_type, polars_type_to_stata_type}

-- The integer types that are not of 64 bits.
unfoldable pub is_narrow_integer : DataType → Bool
is_narrow_integer DataType.int8 = true
is_narrow_integer DataType.int16 = true
is_narrow_integer DataType.int32 = true
is_narrow_integer DataType.uint8 = true
is_narrow_integer DataType.uint16 = true
is_narrow_integer DataType.uint32 = true
is_narrow_integer _ = false

module _ (debug : DataType → Text) where
  abbrev pub stata_type_of : DataType → Option StataType
  stata_type_of dtype = from_str (polars_type_to_stata_type (to_ascii_lowercase (debug dtype)))

  -- `cast_map` by the names of its keys.
  unfoldable pub direct_integer_type_overrides : Schema → List Text → List (Text × StataType)
  direct_integer_type_overrides [] cast_map = []
  direct_integer_type_overrides ((name, dtype) ∷ schema) cast_map =
      let rest = direct_integer_type_overrides schema cast_map in
      if contains cast_map name
      then rest
      else if not (is_narrow_integer dtype)
      then rest
      else elim (stata_type_of dtype) [ none ↦ rest | some t ↦ (name, t) ∷ rest ]

  unfoldable pub integer_cols : Schema → List Text → List Text
  integer_cols [] cast_map = []
  integer_cols ((name, dtype) ∷ schema) cast_map =
      let rest = integer_cols schema cast_map in
      if contains cast_map name then rest else if is_narrow_integer dtype then name ∷ rest else rest

  -- The type recorded for a name, the last one where it is there more than once.
  unfoldable pub recorded_types : List (Text × Option Text) → Text → Option StataType
  recorded_types [] name = none
  recorded_types ((n, stata_type) ∷ variables) name = elim (recorded_types variables name) [
    | some t ↦ some t
    | none ↦ if n == name then (elim stata_type [ none ↦ none | some s ↦ from_str s ]) else none
  ]

  unfoldable pub override : Option (ℤ × ℤ) → Option StataType → Option StataType
  override none recorded = none
  override (some (min_val, max_val)) recorded =
      elim (stata_type_of (find_optimal_integer_type min_val max_val true)) [
        | none ↦ none
        | some verified_safe ↦ some (widen_with_recorded_type verified_safe recorded)
      ]

  -- The map that is returned, as a function of the name.
  unfoldable pub safe_integer_type_overrides :
      (List Text → Text → Option (ℤ × ℤ))
      → List (Text × Option Text)
      → Schema
      → List Text
      → Text
      → Option StataType
  safe_integer_type_overrides verified_ranges recorded schema cast_map name =
      let cols = integer_cols schema cast_map in
      if contains cols name
      then override (verified_ranges cols name) (recorded_types recorded name)
      else none

abbrev pub max_safe_int_as_double : ℕ
max_safe_int_as_double = 9_007_199_254_740_992

module _ (as_double : ℤ → ℤ) where
  -- The least and the greatest value of a column, if it has values, as doubles.
  unfoldable pub overflows : Option (ℤ × ℤ) → Bool
  overflows none = false
  overflows (some (min_val, max_val)) =
      not (leb_ℤ (negsuc (max_safe_int_as_double - 1)) (as_double min_val))
      || not (leb_ℤ (as_double max_val) (pos max_safe_int_as_double))

  unfoldable pub find_int64_precision_overflow_columns :
      (Text → Option (ℤ × ℤ)) → List Text → List Text
  find_int64_precision_overflow_columns statistics candidates =
      retain (λ name. overflows (statistics name)) candidates
