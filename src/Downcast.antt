-- ===== src/Downcast.antt =====
-- src/downcast.rs: columns made narrower where their values allow it, and the record of the new types
-- that later batches are cast by.
--
-- Frames are Polars' and a parameter, with the answers that the program asks of them: `schema`, the
-- columns of texts that stay the same when read as numbers and back (`strings_convert`), those of floats
-- that are whole numbers (`floats_convert`), the least and the greatest value of a column
-- (`statistics`, none where it has no value), and `with_columns`, which casts columns. So is `debug`,
-- the text that a type prints as.
pub mod IntegerTypes
pub mod Replay
use stata_parquet_io.Prelude.{
  ℕ, String, Bool, true, false, not, ◌&&◌, ◌||◌, List, [], ◌∷◌, ◌++◌, map, Option, none, some,
  Outcome, ok, err, ltb, ◌==◌, if◌then◌else◌, contains, retain, unwrap_or,
}
use stata_parquet_io.Prelude.Int.{ℤ, pos, negsuc, leb_ℤ}
use stata_parquet_io.Prelude.Text.{Text, codes, text_Eq, to_ascii_lowercase}
use stata_parquet_io.DataTypes.{DataType, data_type_Eq, Schema, get}

unfoldable pub find_optimal_integer_type : ℤ → ℤ → Bool → DataType
find_optimal_integer_type min_val max_val not_boolean =
    if leb_ℤ (pos 0) min_val && leb_ℤ max_val (pos 1) && not not_boolean
    then DataType.boolean
    else if leb_ℤ (negsuc 126) min_val && leb_ℤ max_val (pos 100)
    then DataType.int8
    else if leb_ℤ (negsuc 32766) min_val && leb_ℤ max_val (pos 32740)
    then DataType.int16
    else if leb_ℤ (negsuc 2147483646) min_val && leb_ℤ max_val (pos 2147483620)
    then DataType.int32
    else DataType.int64

unfoldable pub type_size : DataType → ℕ
type_size DataType.boolean = 1
type_size DataType.int8 = 8
type_size DataType.uint8 = 8
type_size DataType.int16 = 16
type_size DataType.uint16 = 16
type_size DataType.int32 = 32
type_size DataType.uint32 = 32
type_size _ = 64

unfoldable pub is_better_type : DataType → DataType → Bool
is_better_type new_type current_type = ltb (type_size new_type) (type_size current_type)

-- The integer types that `safe_shrink_integers` looks at.
unfoldable pub is_integer : Option DataType → Bool
is_integer (some DataType.int64) = true
is_integer (some DataType.int32) = true
is_integer (some DataType.int16) = true
is_integer (some DataType.int8) = true
is_integer (some DataType.uint64) = true
is_integer (some DataType.uint32) = true
is_integer (some DataType.uint16) = true
is_integer (some DataType.uint8) = true
is_integer _ = false

abbrev pub int_columns : Schema → List Text → List Text
int_columns schema columns = retain (λ col. is_integer (get schema col)) columns

-- The casts, one at most for each integer column. A column's bounds are cast to `i64`; a value that it
-- does not hold is null, as where the column has no value.
unfoldable pub shrink_casts :
    Schema → (Text → Option (ℤ × ℤ)) → List Text → List Text → List (Text × DataType)
shrink_casts schema statistics columns_not_boolean [] = []
shrink_casts schema statistics columns_not_boolean (col_name ∷ columns) =
    let rest = shrink_casts schema statistics columns_not_boolean columns in
    elim (statistics col_name) [
      | none ↦ rest
      | some (min, max) ↦
          let not_boolean = contains columns_not_boolean col_name in
          let optimal_type = find_optimal_integer_type min max not_boolean in
          let current_type = unwrap_or (get schema col_name) DataType.int64 in
          if not (optimal_type == current_type) && is_better_type optimal_type current_type
          then (col_name, optimal_type) ∷ rest
          else rest
    ]

-- Types changed, grouped by the name of the new type, in the order in which the names come up.
unfoldable pub push_to_group : Text → Text → List (Text × List Text) → List (Text × List Text)
push_to_group type_key col_name [] = (type_key, col_name ∷ []) ∷ []
push_to_group type_key col_name ((key, columns) ∷ groups) =
    let rest = push_to_group type_key col_name groups in
    if key == type_key then (key, columns ++ (col_name ∷ [])) ∷ groups else (key, columns) ∷ rest

-- `debug` is `format!("{:?}", dtype)`, which is Polars'. `to_lowercase` is the one for ASCII.
unfoldable pub build_type_mapping :
    (DataType → Text)
    → Schema
    → Schema
    → List (Text × List Text)
    → List Text
    → List (Text × List Text)
build_type_mapping debug schema_original schema_new type_groups [] = type_groups
build_type_mapping debug schema_original schema_new type_groups (col_name ∷ columns) =
    elim (get schema_original col_name) [
      | none ↦ build_type_mapping debug schema_original schema_new type_groups columns
      | some original_type ↦ elim (get schema_new col_name) [
        | none ↦ build_type_mapping debug schema_original schema_new type_groups columns
        | some new_type ↦
            build_type_mapping debug schema_original schema_new
              (if original_type == new_type
                then type_groups
                else push_to_group (to_ascii_lowercase (debug new_type)) col_name type_groups)
              columns
      ]
    ]

abbrev one_of : List String → Text → Bool
one_of [] s = false
one_of (w ∷ ws) s = (s == codes w) || one_of ws s

-- The error names the type. `to_lowercase` is the one for ASCII: no letter outside it becomes a letter
-- of these words.
unfoldable pub parse_data_type : Text → Outcome Text DataType
parse_data_type type_str =
    let l = to_ascii_lowercase type_str in
    if one_of ("boolean" ∷ "bool" ∷ []) l
    then ok DataType.boolean
    else if one_of ("uint8" ∷ []) l
    then ok DataType.uint8
    else if one_of ("uint16" ∷ []) l
    then ok DataType.uint16
    else if one_of ("uint32" ∷ []) l
    then ok DataType.uint32
    else if one_of ("uint64" ∷ []) l
    then ok DataType.uint64
    else if one_of ("int8" ∷ "byte" ∷ []) l
    then ok DataType.int8
    else if one_of ("int16" ∷ "int" ∷ []) l
    then ok DataType.int16
    else if one_of ("int32" ∷ "long" ∷ []) l
    then ok DataType.int32
    else if one_of ("int64" ∷ []) l
    then ok DataType.int64
    else if one_of ("float32" ∷ "float" ∷ []) l
    then ok DataType.float32
    else if one_of ("float64" ∷ "double" ∷ []) l
    then ok DataType.float64
    else if one_of ("string" ∷ "utf8" ∷ "str" ∷ []) l
    then ok DataType.string
    else if one_of ("binary" ∷ []) l
    then ok DataType.binary
    else err type_str

unfoldable pub polars_type_to_stata_type : Text → Text
polars_type_to_stata_type s =
    if one_of ("string" ∷ "utf8" ∷ "str" ∷ "binary" ∷ []) s
    then codes "string"
    else if one_of ("int8" ∷ "byte" ∷ []) s
    then codes "byte"
    else if one_of ("int16" ∷ "int" ∷ []) s
    then codes "int"
    else if one_of ("int32" ∷ "long" ∷ []) s
    then codes "long"
    else if one_of ("int64" ∷ []) s
    then codes "double"
    else if one_of ("uint8" ∷ []) s
    then codes "int"
    else if one_of ("uint16" ∷ "uint32" ∷ []) s
    then codes "long"
    else if one_of ("uint64" ∷ []) s
    then codes "double"
    else if one_of ("float32" ∷ "float" ∷ []) s
    then codes "float"
    else if one_of ("float64" ∷ "double" ∷ []) s
    then codes "double"
    else if one_of ("boolean" ∷ "bool" ∷ []) s
    then codes "byte"
    else codes "double"

-- The casts of one group, for the columns that the frame has.
unfoldable pub group_casts : Schema → DataType → List Text → List (Text × DataType)
group_casts schema valid_type [] = []
group_casts schema valid_type (col_name ∷ columns) =
    let rest = group_casts schema valid_type columns in
    elim (get schema col_name) [ none ↦ rest | some t ↦ (col_name, valid_type) ∷ rest ]

-- The casts of `apply_cast`. A group whose type does not parse is left out.
unfoldable pub mapping_casts : Schema → List (Text × List Text) → List (Text × DataType)
mapping_casts schema [] = []
mapping_casts schema ((type_str, columns) ∷ type_mapping) =
    let rest = mapping_casts schema type_mapping in
    elim (parse_data_type type_str) [
      | err e ↦ rest
      | ok valid_type ↦ group_casts schema valid_type columns ++ rest
    ]

-- The casts of `apply_user_cast`, by the strings among the values of the JSON object: a column that is
-- not there is left out before its type is looked at, and a type that does not parse is an error.
unfoldable pub user_casts :
    Schema → List (Text × Option Text) → Outcome Text (List (Text × DataType))
user_casts schema [] = ok []
user_casts schema ((col_name, none) ∷ col_to_type) = user_casts schema col_to_type
user_casts schema ((col_name, some type_str) ∷ col_to_type) =
    let rest = user_casts schema col_to_type in
    elim (get schema col_name) [
      | none ↦ rest
      | some t ↦ elim (parse_data_type type_str) [
        | err e ↦ err e
        | ok target_type ↦ elim rest [
          | err e ↦ err e
          | ok casts ↦ ok ((col_name, target_type) ∷ casts)
        ]
      ]
    ]

pub record DowncastConfig : Type 0 where
  pub check_strings : Bool
  pub prefer_int_over_float : Bool

module _ {F : Type 0} (schema_of : F → Schema) (strings_convert floats_convert : F → Text → Bool)
    (statistics : F → Text → Option (ℤ × ℤ)) (with_columns : F → List (Text × DataType) → F)
    (debug : DataType → Text) where
  abbrev pub cast_all : DataType → List Text → List (Text × DataType)
  cast_all t columns = map (λ col. (col, t)) columns

  -- No cast leaves the frame as it is.
  unfoldable pub with_casts : F → List (Text × DataType) → F
  with_casts df [] = df
  with_casts df (c ∷ casts) = with_columns df (c ∷ casts)

  abbrev pub is_type : DataType → Option DataType → Bool
  is_type t none = false
  is_type t (some u) = u == t

  unfoldable pub convert_numeric_strings : F → Schema → List Text → F
  convert_numeric_strings df schema columns =
      let string_columns = retain (λ col. is_type DataType.string (get schema col)) columns in
      with_casts df
        (cast_all DataType.float64 (retain (λ col. strings_convert df col) string_columns))

  unfoldable pub convert_floats_to_integers : F → Schema → List Text → F
  convert_floats_to_integers df schema columns =
      let float_columns = retain (λ col. is_type DataType.float64 (get schema col)) columns in
      with_casts df (cast_all DataType.int64 (retain (λ col. floats_convert df col) float_columns))

  unfoldable pub safe_shrink_integers : F → List Text → List Text → F
  safe_shrink_integers df columns columns_not_boolean =
      let schema = schema_of df in
      with_casts df
        (shrink_casts schema (statistics df) columns_not_boolean (int_columns schema columns))

  -- The frame, and the JSON object of the types changed that the macro `cast_json` gets.
  unfoldable pub intelligent_downcast :
      F → Option (List Text) → Option (List Text) → DowncastConfig → F × List (Text × List Text)
  intelligent_downcast df cols cols_not_boolean config =
      let schema = schema_of df in
      let columns = unwrap_or cols (map (λ c. c.0) schema) in
      let df1 = if config.check_strings then convert_numeric_strings df schema columns else df in
      let df2 =
        if config.prefer_int_over_float
        then convert_floats_to_integers df1 schema columns
        else df1 in
      let df3 = safe_shrink_integers df2 columns (unwrap_or cols_not_boolean []) in
      (df3, build_type_mapping debug schema (schema_of df3) [] columns)

  unfoldable pub apply_cast : F → List (Text × List Text) → F
  apply_cast df type_mapping = with_casts df (mapping_casts (schema_of df) type_mapping)
