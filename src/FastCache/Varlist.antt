-- ===== src/FastCache/Varlist.antt =====
-- `parse_varlist` and `resolve_varlist` of src/fast_cache.rs.
use stata_parquet_io.Prelude.{
  Bool, true, false, not, ◌&&◌, ◌||◌, List, [], ◌∷◌, ◌++◌, ◌==◌, nat_eq, if◌then◌else◌, ltb,
  is_empty, any, retain, contains, Outcome, ok, err, ◌>>=◌,
}
use stata_parquet_io.Prelude.Text.{
  Text, codes, text_Eq, trim, split_whitespace, contains_char, join,
}
use stata_parquet_io.FastCache.Glob.{stata_glob_match}

unfoldable pub is_wildcard : Text → Bool
is_wildcard pattern = contains_char b'*' pattern || contains_char b'?' pattern

-- Whether a pattern of the name list or of the drop list takes a column.
unfoldable pub hits : Text → Text → Bool
hits pattern col = if is_wildcard pattern then stata_glob_match pattern col else col == pattern

-- The loop over the columns of the file for one pattern: the result so far, and `found`.
unfoldable pub add_hits : Text → List Text → List Text → Bool → List Text × Bool
add_hits pattern [] result found = (result, found)
add_hits pattern (col ∷ cols) result found =
    let add = hits pattern col && not (contains result col) in
    add_hits pattern cols (if add then result ++ col ∷ [] else result) (if add then true else found)

-- The loop over the patterns: the result, and the exact names that were not found.
unfoldable pub match_patterns :
    List Text → List Text → List Text → List Text → List Text × List Text
match_patterns schema_cols [] result unmatched = (result, unmatched)
match_patterns schema_cols (pattern ∷ patterns) result unmatched =
    let (result', found) = add_hits pattern schema_cols result false in
    match_patterns schema_cols patterns result'
      (if not found && not (is_wildcard pattern) then unmatched ++ pattern ∷ [] else unmatched)

abbrev pub takes_all : Text → Bool
takes_all trimmed = is_empty trimmed || (trimmed == codes "*")

-- The name list resolved, before the drop list.
unfoldable pub match_namelist : Text → List Text → Outcome Text (List Text)
match_namelist namelist schema_cols =
    let trimmed = trim namelist in
    if takes_all trimmed
    then ok schema_cols
    else (let (result, unmatched) = match_patterns schema_cols (split_whitespace trimmed) [] [] in
        if is_empty unmatched
        then ok result
        else err (codes "The following variable(s) were not found: " ++ join (codes " ") unmatched))

unfoldable pub drop_matches : Text → Text → Bool
drop_matches drop_trimmed col = any (λ dpat. hits dpat col) (split_whitespace drop_trimmed)

unfoldable pub apply_drop : Text → List Text → List Text
apply_drop drop_list matched =
    let drop_trimmed = trim drop_list in
    if is_empty drop_trimmed
    then matched
    else retain (λ col. not (drop_matches drop_trimmed col)) matched

unfoldable pub resolve_varlist : Text → List Text → Text → Outcome Text (List Text)
resolve_varlist namelist schema_cols drop_list = do
  matched ← match_namelist namelist schema_cols
  ok (apply_drop drop_list matched)

-- `Ord for String`: by bytes, which on UTF-8 is the order by code points.
unfoldable pub text_le : Text → Text → Bool
text_le [] t = true
text_le (a ∷ s) [] = false
text_le (a ∷ s) (b ∷ t) = if ltb a b then true else (a == b) && text_le s t
