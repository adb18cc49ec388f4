-- ===== src/SqlFromIf.antt =====
-- src/sql_from_if.rs: a Stata condition made SQL, with its quoted texts kept out of the replacements.
--
-- The regular expressions are the `regex` crate's: `replace_regex` replaces every match of a pattern, by
-- its number in `add_patterns`, and `replace_double_quoted` is the one of
-- `normalize_double_quoted_literals`.
pub mod Literals
use stata_parquet_io.Prelude.{
  ℕ, zero, suc, ◌+◌, ◌-◌, Bool, true, false, not, ◌&&◌, ◌||◌, List, [], ◌∷◌, ◌++◌, map, Option,
  none, some, leb, ltb, ◌==◌, if◌then◌else◌, nat_eq, length, is_empty, take, drop,
}
use stata_parquet_io.Prelude.Text.{Text, codes, starts_with, ends_with, show_ℕ}

abbrev pub is_quote : ℕ → Bool
is_quote c = (c == 34) || (c == 39)

-- `__Qn__`.
abbrev pub token : ℕ → Text
token n = codes "__Q" ++ show_ℕ n ++ codes "__"

-- The loop over the characters: the protected text, the literals, the text since the last of both, and
-- the quote that is open.
unfoldable pub extract : Text → List Text → Text → Option ℕ → Text → Text × List Text
extract protected literals current none [] =
    (if is_empty current then protected else protected ++ current, literals)
extract protected literals current (some quote) [] = (protected ++ current, literals)
extract protected literals current none (ch ∷ chars) =
    let opened =
      extract (if is_empty current then protected else protected ++ current) literals (ch ∷ [])
        (some ch) chars in
    let goes_on = extract protected literals (current ++ (ch ∷ [])) none chars in
    if is_quote ch then opened else goes_on
extract protected literals current (some quote) (ch ∷ chars) =
    let closed =
      extract (protected ++ token (length literals)) (literals ++ ((current ++ (ch ∷ [])) ∷ [])) []
        none chars in
    let goes_on = extract protected literals (current ++ (ch ∷ [])) (some quote) chars in
    if ch == quote then closed else goes_on

unfoldable pub extract_quoted_literals : Text → Text × List Text
extract_quoted_literals input = extract [] [] [] none input

-- `str::replace`, with the characters of a match that are still to be passed over. No pattern is empty.
unfoldable pub replace_from : ℕ → Text → Text → Text → Text
replace_from skip pattern by [] = []
replace_from (suc skip) pattern by (c ∷ s) = replace_from skip pattern by s
replace_from zero pattern by (c ∷ s) =
    let match = by ++ replace_from (length pattern - 1) pattern by s in
    let go_on = c ∷ replace_from zero pattern by s in
    if starts_with pattern (c ∷ s) then match else go_on

abbrev pub replace : Text → Text → Text → Text
replace pattern by s = replace_from 0 pattern by s

-- A literal in single quotes, where it stood in double ones. Its length is at least 2 then.
unfoldable pub sql_literal : Text → Text
sql_literal literal =
    if starts_with (codes "\"") literal && ends_with (codes "\"") literal && leb 2 (length literal)
    then codes "'" ++ take (length literal - 2) (drop 1 literal) ++ codes "'"
    else literal

unfoldable pub restore_from : ℕ → Text → List Text → Text
restore_from idx output [] = output
restore_from idx output (literal ∷ quoted_literals) =
    restore_from (idx + 1) (replace (token idx) (sql_literal literal) output) quoted_literals

abbrev pub restore_quoted_literals : Text → List Text → Text
restore_quoted_literals input quoted_literals = restore_from 0 input quoted_literals

-- The number of patterns that `add_patterns` adds.
abbrev pub n_patterns : ℕ
n_patterns = 14

module _ (replace_regex : ℕ → Text → Text) (replace_double_quoted : Text → Text) where
  unfoldable pub apply_patterns : ℕ → ℕ → Text → Text
  apply_patterns i zero processed = processed
  apply_patterns i (suc left) processed = apply_patterns (i + 1) left (replace_regex i processed)

  unfoldable pub convert : Text → Text
  convert input =
      let normalized =
        replace (0x201d ∷ []) (codes "\"") (replace (0x201c ∷ []) (codes "\"") input) in
      let (processed, quoted_literals) = extract_quoted_literals normalized in
      replace_double_quoted
        (restore_quoted_literals (apply_patterns 0 n_patterns processed) quoted_literals)

  abbrev pub stata_to_sql : Text → Text
  stata_to_sql input = convert input
