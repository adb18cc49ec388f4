-- ===== src/Mapping/Rename.antt =====
-- `generate_rename_map` of src/mapping.rs: names that Stata takes for columns whose names it does not.
--
-- The classes of characters are Unicode's, by the standard library: `is_alphanumeric` and `is_alphabetic`
-- are parameters. `none` is a panic: a cut inside a character, or a counter past an `i32`.
pub mod Valid
use stata_parquet_io.Prelude.{
  ℕ, zero, suc, ◌+◌, ◌-◌, Bool, true, false, not, ◌&&◌, ◌||◌, List, [], ◌∷◌, ◌++◌, map, Option,
  none, some, leb, ltb, ◌==◌, if◌then◌else◌, nat_eq, length, is_empty, contains,
}
use stata_parquet_io.Prelude.Text.{Text, codes, text_Eq, show_ℕ}

abbrev pub reserved_words : List Text
reserved_words =
    codes "aggregate"
    ∷ codes "array"
    ∷ codes "boolean"
    ∷ codes "break"
    ∷ codes "byte"
    ∷ codes "case"
    ∷ codes "catch"
    ∷ codes "class"
    ∷ codes "colvector"
    ∷ codes "complex"
    ∷ codes "const"
    ∷ codes "continue"
    ∷ codes "default"
    ∷ codes "delegate"
    ∷ codes "delete"
    ∷ codes "do"
    ∷ codes "double"
    ∷ codes "else"
    ∷ codes "eltypedef"
    ∷ codes "end"
    ∷ codes "enum"
    ∷ codes "explicit"
    ∷ codes "export"
    ∷ codes "external"
    ∷ codes "float"
    ∷ codes "for"
    ∷ codes "friend"
    ∷ codes "function"
    ∷ codes "global"
    ∷ codes "goto"
    ∷ codes "if"
    ∷ codes "inline"
    ∷ codes "int"
    ∷ codes "local"
    ∷ codes "long"
    ∷ codes "NULL"
    ∷ codes "pragma"
    ∷ codes "protected"
    ∷ codes "quad"
    ∷ codes "rowvector"
    ∷ codes "short"
    ∷ codes "typedef"
    ∷ codes "typename"
    ∷ codes "virtual"
    ∷ codes "_all"
    ∷ codes "_N"
    ∷ codes "_skip"
    ∷ codes "_b"
    ∷ codes "_pi"
    ∷ codes "str#"
    ∷ codes "in"
    ∷ codes "_pred"
    ∷ codes "strL"
    ∷ codes "_coef"
    ∷ codes "_rc"
    ∷ codes "using"
    ∷ codes "_cons"
    ∷ codes "_se"
    ∷ codes "with"
    ∷ codes "_n"
    ∷ []

abbrev pub utf8_len : ℕ → ℕ
utf8_len c = if ltb c 0x80 then 1 else if ltb c 0x800 then 2 else if ltb c 0x10000 then 3 else 4

abbrev pub byte_len : Text → ℕ
byte_len [] = 0
byte_len (c ∷ s) = utf8_len c + byte_len s

-- `s[0..n]`.
unfoldable pub byte_slice : ℕ → Text → Option Text
byte_slice n [] = if n == 0 then some [] else none
byte_slice n (c ∷ s) =
    let rest = byte_slice (n - utf8_len c) s in
    if n == 0
    then some []
    else if leb (utf8_len c) n
    then (elim rest [ none ↦ none | some t ↦ some (c ∷ t) ])
    else none

-- `{:03}`.
abbrev pub padded : Text → Text
padded s = if leb 3 (length s) then s else if length s == 2 then codes "0" ++ s else codes "00" ++ s

unfoldable pub avoid_reserved : Text → Text
avoid_reserved new_name = if contains reserved_words new_name then b'_' ∷ new_name else new_name

module _ (is_alphanumeric is_alphabetic : ℕ → Bool) where
  abbrev pub sanitize_char : ℕ → ℕ
  sanitize_char c = if is_alphanumeric c || (c == b'_') then c else b'_'

  -- Starts with a letter or an underscore, if it starts at all.
  abbrev pub has_head : Text → Bool
  has_head [] = true
  has_head (c ∷ s) = is_alphabetic c || (c == b'_')

  unfoldable pub sanitize : Text → Text
  sanitize original_name =
      let sanitized_name = map sanitize_char original_name in
      if has_head sanitized_name then sanitized_name else b'_' ∷ sanitized_name

  unfoldable pub processed_name : Text → Option Text
  processed_name original_name =
      let new_name = avoid_reserved (sanitize original_name) in
      if ltb 32 (byte_len new_name) then byte_slice 32 new_name else some new_name

  unfoldable pub processed_names : List Text → Option (List (Text × Text))
  processed_names [] = some []
  processed_names (name ∷ names) = elim (processed_name name) [
    | none ↦ none
    | some p ↦ elim (processed_names names) [ none ↦ none | some ps ↦ some ((name, p) ∷ ps) ]
  ]

  -- How many names have the processed name.
  unfoldable pub name_count : Text → List (Text × Text) → ℕ
  name_count p [] = 0
  name_count p ((name, p') ∷ ps) = if p' == p then name_count p ps + 1 else name_count p ps

  -- The counters from `counter` on; `rounds` of them fit an `i32`.
  unfoldable pub free_suffix : ℕ → ℕ → Text → List Text → Option Text
  free_suffix zero counter base_name used = none
  free_suffix (suc rounds) counter base_name used =
      let final_name = base_name ++ codes "_" ++ padded (show_ℕ counter) in
      let later = free_suffix rounds (counter + 1) base_name used in
      if contains used final_name then later else some final_name

  abbrev pub max_rounds : ℕ
  max_rounds = 2_147_483_647

  -- The third pass: the names that are left, the renamed ones and the final names so far.
  unfoldable pub resolve :
      List (Text × Text)
      → List (Text × Text)
      → List (Text × Text)
      → List Text
      → Option (List (Text × Text))
  resolve all [] rename_map used = some rename_map
  resolve all ((original_name, processed) ∷ names) rename_map used =
      if original_name == processed
      then resolve all names rename_map used
      else if name_count processed all == 1
      then resolve all names (rename_map ++ ((original_name, processed) ∷ [])) (processed ∷ used)
      else elim (if ltb 28 (byte_len processed) then byte_slice 28 processed else some processed) [
        | none ↦ none
        | some base_name ↦ elim (free_suffix max_rounds 1 base_name used) [
          | none ↦ none
          | some final_name ↦
              resolve all names (rename_map ++ ((original_name, final_name) ∷ []))
                (final_name ∷ used)
        ]
      ]

  unfoldable pub generate_rename_map : List Text → Option (List (Text × Text))
  generate_rename_map names = elim (processed_names names) [
    | none ↦ none
    | some all ↦ resolve all all [] []
  ]
