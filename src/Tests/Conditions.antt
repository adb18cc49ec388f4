-- ===== src/Tests/Conditions.antt =====
-- Runs of the definitions that model src/sql_from_if.rs, the names of src/mapping.rs and the cells of
-- src/read.rs.
use stata_parquet_io.Prelude.{
  ℕ, ◌+◌, ◌*◌, ◌≡◌, ◌≤◌, refl, arith, Bool, true, false, ◌&&◌, ◌||◌, List, [], ◌∷◌, Option, none,
  some, Outcome, ok, leb, ltb, nat_eq, if◌then◌else◌, contains, All,
}
use stata_parquet_io.Prelude.Text.{Text, codes, text_Eq, text_eq, starts_with, ends_with, show_ℕ}
use stata_parquet_io.Mapping.{ColumnInfo}
use stata_parquet_io.Mapping.Rename.{
  avoid_reserved, sanitize, processed_names, resolve, name_count, free_suffix, reserved_words,
  byte_len, has_head, processed_name, generate_rename_map,
}
use stata_parquet_io.Mapping.Rename.Valid.{stata_words, IsNameChar, processed_name-IsName}
use stata_parquet_io.SqlFromIf.{
  extract, replace_from, restore_from, sql_literal, extract_quoted_literals,
  restore_quoted_literals,
}
use stata_parquet_io.SqlFromIf.Literals.{
  Piece, flatten, render, literals_of, ArePieces, extract_quoted_literals-Splits,
}
use stata_parquet_io.Read.Cells.{
  Dataset, fill_rows, column_effect, process_row_range, process_batch_single_thread,
  regular_columns, process_batch_with_strategy,
}
use stata_parquet_io.Read.Cells.Strategy.{cell_after, process_batch_with_strategy-cell}

abbrev condition : Text
condition = codes "a == \"x y\" & b == 'z'"

extract_quoted_literals_test :
    extract_quoted_literals condition
    ≡ (codes "a == __Q0__ & b == __Q1__", codes "\"x y\"" ∷ codes "'z'" ∷ [])
unfolding extract_quoted_literals extract show_ℕ
extract_quoted_literals_test = refl

restore_quoted_literals_test :
    restore_quoted_literals (codes "a=__Q0__") (codes "\"x\"" ∷ []) ≡ codes "a='x'"
unfolding restore_from replace_from sql_literal starts_with show_ℕ ends_with
restore_quoted_literals_test = refl

extract_quoted_literals_example :
    (ps : List Piece) × (flatten ps ≡ condition)
    × (extract_quoted_literals condition ≡ (render 0 ps, literals_of ps))
    × ArePieces ps
extract_quoted_literals_example = extract_quoted_literals-Splits condition

-- Letters of ASCII, and with the digits.
abbrev is_letter : ℕ → Bool
is_letter c = (leb 65 c && leb c 90) || (leb 97 c && leb c 122)

abbrev is_letter_or_digit : ℕ → Bool
is_letter_or_digit c = is_letter c || (leb 48 c && leb c 57)

processed_name_test :
    processed_name is_letter_or_digit is_letter (codes "2 x") ≡ some (codes "_2_x")
unfolding processed_name text_eq avoid_reserved sanitize
processed_name_test = refl

generate_rename_map_test :
    generate_rename_map is_letter_or_digit is_letter
      (codes "if" ∷ codes "a b" ∷ codes "a.b" ∷ codes "c" ∷ [])
    ≡ some (
        (codes "if", codes "_if")
        ∷ (codes "a b", codes "a_b_001")
        ∷ (codes "a.b", codes "a_b_002")
        ∷ [])
unfolding generate_rename_map text_eq processed_names processed_name avoid_reserved sanitize resolve
    name_count free_suffix show_ℕ
generate_rename_map_test = refl

-- A suffixed name may be that of a column that keeps its name.
generate_rename_map_collision :
    generate_rename_map is_letter_or_digit is_letter
      (codes "a b" ∷ codes "a.b" ∷ codes "a_b_001" ∷ [])
    ≡ some ((codes "a b", codes "a_b_001") ∷ (codes "a.b", codes "a_b_002") ∷ [])
unfolding generate_rename_map text_eq processed_names processed_name avoid_reserved sanitize resolve
    name_count free_suffix show_ℕ
generate_rename_map_collision = refl

processed_name_example :
    (t : Text) × (processed_name is_letter_or_digit is_letter (codes "2 x") ≡ some t)
    × (byte_len t ≤ 32)
    × All (IsNameChar is_letter_or_digit is_letter) t
    × (has_head is_letter_or_digit is_letter t ≡ true)
    × (contains reserved_words t ≡ false)
    × (contains stata_words t ≡ false)
processed_name_example =
    processed_name-IsName is_letter_or_digit is_letter (codes "2 x")
      (ground arith, (ground arith, (ground arith, tt)))

-- A storage type of texts is left as it is.
processed_storage_type_test :
    processed_name is_letter_or_digit is_letter (codes "str5") ≡ some (codes "str5")
unfolding processed_name avoid_reserved sanitize text_eq
processed_storage_type_test = refl

abbrev empty : Dataset ℕ
empty row col = none

abbrev column_of : ColumnInfo → Outcome ℕ ℕ
column_of col_info = ok col_info.index

abbrev values_of : ColumnInfo → ℕ → Outcome ℕ (Option (ℕ → Option ℕ))
values_of col_info col = ok (some (λ row. some (10 * row + col)))

abbrev columns : List ColumnInfo
columns =
    record { index = 0; name = codes "a"; dtype = codes "Int32"; stata_type = codes "long" }
    ∷ record { index = 1; name = codes "b"; dtype = codes "String"; stata_type = codes "strl" }
    ∷ []

process_batch_with_strategy_test :
    (process_batch_with_strategy column_of values_of 5 1 1 3 2 4 columns empty).0
      (2 + (2 + 1 + 4))
      1
    ≡ some 20
unfolding process_batch_with_strategy process_batch_single_thread process_row_range column_effect
    fill_rows text_eq
process_batch_with_strategy_test = refl

process_batch_with_strategy_example :
    (let (s', failure) =
        process_batch_with_strategy column_of values_of 5 1 1 3 2 4 columns empty in
      (failure ≡ none)
      × (s' (2 + (2 + 1 + 4)) 1 ≡ (
          if ltb 2 3
          then cell_after column_of values_of 5
              (regular_columns columns)
              2
              1
              (empty (2 + (2 + 1 + 4)) 1)
          else empty (2 + (2 + 1 + 4)) 1)))
unfolding column_effect text_eq
process_batch_with_strategy_example =
    process_batch_with_strategy-cell column_of values_of 5 columns 1 1 3 2 4 empty 2 1 (refl, tt)
