-- ===== src/Write/Columns.antt =====
-- `get_rename_list`, `column_info_from_macros` and `parquet_options` of src/write.rs. The macros are a
-- function of their names.
use stata_parquet_io.Prelude.{
  sym, ◌≢◌, ◌⊎◌, inl, inr, Bool-cases, if_true, if_false, subst, ℕ, zero, suc, ◌+◌, ◌%◌, ◌^◌, ◌<◌,
  ◌≡◌, refl, ap, ◌∙◌, Bool, List, [], ◌∷◌, ◌++◌, Option, none, some, ◌==◌, if◌then◌else◌, length,
  unwrap_or,
}
use stata_parquet_io.Prelude.Text.{Text, codes, text_Eq, text_eq_iff, parse_usize, show_ℕ}
use stata_parquet_io.Prelude.Decimal.{parse_usize-show_ℕ}
use stata_parquet_io.Mapping.{StataColumnInfo}

-- `{prefix}_{i}`.
abbrev pub numbered : Text → ℕ → Text
numbered prefix i = prefix ++ (codes "_" ++ show_ℕ i)

-- The macros from number `i` on, `count` of them, each renaming over what went before.
unfoldable pub renames_from : (Text → Text) → ℕ → ℕ → List (Text × Text) → List (Text × Text)
renames_from get_macro i zero list = list
renames_from get_macro i (suc count) list = renames_from get_macro (i + 1) count (
    (get_macro (numbered (codes "rename_from") i), get_macro (numbered (codes "rename_to") i))
    ∷ list)

-- The pairs, the latest first.
unfoldable pub get_rename_list : (Text → Text) → List (Text × Text)
get_rename_list get_macro =
    renames_from get_macro 1 (unwrap_or (parse_usize (get_macro (codes "n_rename"))) 0) []

unfoldable pub renamed : List (Text × Text) → Text → Text
renamed [] name = name
renamed ((old, new) ∷ list) name = let rest = renamed list name in if old == name then new else rest

-- The column of the macros with number `i`.
unfoldable pub column_info : (Text → Text) → List (Text × Text) → ℕ → StataColumnInfo
column_info get_macro rename_list i = record {
  name = renamed rename_list (get_macro (numbered (codes "name") i));
  dtype = get_macro (numbered (codes "dtype") i);
  format = get_macro (numbered (codes "format") i);
  str_length = unwrap_or (parse_usize (get_macro (numbered (codes "str_length") i))) 0;
  stata_col = unwrap_or (parse_usize (get_macro (numbered (codes "col") i))) 0;
}

unfoldable pub columns_from : (Text → Text) → List (Text × Text) → ℕ → ℕ → List StataColumnInfo
columns_from get_macro rename_list i zero = []
columns_from get_macro rename_list i (suc count) =
    column_info get_macro rename_list (i + 1) ∷ columns_from get_macro rename_list (i + 1) count

unfoldable pub column_info_from_macros :
    (Text → Text) → ℕ → List (Text × Text) → List StataColumnInfo
column_info_from_macros get_macro n_vars rename_list = columns_from get_macro rename_list 0 n_vars

pub data Compression : Type 0 where
  lz4_raw : Compression
  uncompressed : Compression
  snappy : Compression
  gzip : Option ℕ → Compression
  brotli : Option ℕ → Compression
  zstd : Option ℕ → Compression

-- A level that Polars accepts, by `try_new` of the method; `cast` wraps the level to the type it takes.
abbrev pub level : (ℕ → Bool) → ℕ → Option ℕ → Option ℕ
level accepts modulus none = none
level accepts modulus (some l) = if accepts (l % modulus) then some (l % modulus) else none

-- `try_new` takes a `u8` for gzip, a `u32` for brotli and an `i32`, here by its bits, for zstd.
unfoldable pub compression_of : (ℕ → Bool) → (ℕ → Bool) → (ℕ → Bool) → Text → Option ℕ → Compression
compression_of gzip_level brotli_level zstd_level compression compression_level =
    if compression == codes "lz4"
    then Compression.lz4_raw
    else if compression == codes "uncompressed"
    then Compression.uncompressed
    else if compression == codes "snappy"
    then Compression.snappy
    else if compression == codes "gzip"
    then Compression.gzip (level gzip_level (2 ^ 8) compression_level)
    else if compression == codes "lzo"
    then Compression.zstd none
    else if compression == codes "brotli"
    then Compression.brotli (level brotli_level (2 ^ 32) compression_level)
    else Compression.zstd (level zstd_level (2 ^ 32) compression_level)

-- What the macros numbered `i` hold of a column.
abbrev pub HoldsColumn : (Text → Text) → ℕ → StataColumnInfo → Type 0
HoldsColumn get_macro i column =
    (get_macro (codes "name_" ++ show_ℕ i) ≡ column.name)
    × (get_macro (codes "dtype_" ++ show_ℕ i) ≡ column.dtype)
    × (get_macro (codes "format_" ++ show_ℕ i) ≡ column.format)
    × ((get_macro (codes "str_length_" ++ show_ℕ i) ≡ show_ℕ column.str_length)
        × (column.str_length < 2 ^ 64))
    × ((get_macro (codes "col_" ++ show_ℕ i) ≡ show_ℕ column.stata_col)
        × (column.stata_col < 2 ^ 64))

abbrev pub HoldsColumns : (Text → Text) → ℕ → List StataColumnInfo → Type 0
HoldsColumns get_macro i [] = Unit
HoldsColumns get_macro i (column ∷ columns) =
    HoldsColumn get_macro i column × HoldsColumns get_macro (i + 1) columns

-- The new name is that of the first pair with the old one, or the old one where no pair has it.
abbrev pub IsRenamed : List (Text × Text) → Text → Text → Type 0
IsRenamed [] old new = new ≡ old
IsRenamed ((from, to) ∷ list) old new =
    ((from ≡ old) × (new ≡ to)) ⊎ ((from ≢ old) × IsRenamed list old new)

-- The same columns, renamed.
abbrev pub AreRenamed : List (Text × Text) → List StataColumnInfo → List StataColumnInfo → Type 0
AreRenamed list [] [] = Unit
AreRenamed list (column ∷ columns) (column' ∷ columns') =
    (IsRenamed list column.name column'.name
      × (column'.dtype ≡ column.dtype)
      × (column'.format ≡ column.format)
      × (column'.str_length ≡ column.str_length)
      × (column'.stata_col ≡ column.stata_col))
    × AreRenamed list columns columns'
AreRenamed list _ _ = ⊥

renamed-IsRenamed : (list : List (Text × Text)) (old : Text) → IsRenamed list old (renamed list old)
unfolding renamed
renamed-IsRenamed [] old = refl
renamed-IsRenamed ((from, to) ∷ list) old = elim (Bool-cases (from == old)) [
  | inl e ↦ inl ((text_eq_iff from old).0 e, if_true (from == old) to (renamed list old) e)
  | inr e ↦ inr (
    λ same. absurd (cc (sym e ∙ (text_eq_iff from old).1 same)),
    subst (IsRenamed list old) (sym (if_false (from == old) to (renamed list old) e))
        (renamed-IsRenamed list old),
  )
]

number_read :
    (read : Text) (n : ℕ) → read ≡ show_ℕ n → n < 2 ^ 64 → unwrap_or (parse_usize read) 0 ≡ n
number_read read n e h =
    ap (λ t. unwrap_or (parse_usize t) 0) e ∙ ap (λ o. unwrap_or o 0) (parse_usize-show_ℕ n h)

columns_from-AreRenamed :
    (get_macro : Text → Text) (list : List (Text × Text)) (i : ℕ) (columns : List StataColumnInfo)
    → HoldsColumns get_macro (i + 1) columns
    → AreRenamed list columns (columns_from get_macro list i (length columns))
unfolding columns_from column_info
columns_from-AreRenamed get_macro list i [] h = tt
columns_from-AreRenamed get_macro list i (column ∷ columns)
      ((name, dtype, format, (str_length, short), (col, few)), h) =
    (
      (
        subst
            (λ old. IsRenamed list old (renamed list (get_macro (numbered (codes "name") (i + 1)))))
            name (renamed-IsRenamed list (get_macro (numbered (codes "name") (i + 1)))),
        dtype,
        format,
        number_read _ column.str_length str_length short,
        number_read _ column.stata_col col few,
      ),
      columns_from-AreRenamed get_macro list (i + 1) columns h,
    )

-- Columns that the macros numbered from 1 on hold, with their lengths and positions as they are printed:
-- they are read one by one, in order and each whole, under their new names. A new name is that of the
-- first pair of the list with the old one.
pub column_info_from_macros-AreRenamed :
    (get_macro : Text → Text) (rename_list : List (Text × Text)) (columns : List StataColumnInfo)
    → HoldsColumns get_macro 1 columns
    → AreRenamed rename_list columns
        (column_info_from_macros get_macro (length columns) rename_list)
unfolding column_info_from_macros
column_info_from_macros-AreRenamed get_macro rename_list columns h =
    columns_from-AreRenamed get_macro rename_list 0 columns h
