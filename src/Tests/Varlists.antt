-- ===== src/Tests/Varlists.antt =====
-- Runs of the definitions that model src/fast_cache.rs.
use stata_parquet_io.Prelude.{
  ℕ, ◌≡◌, refl, ◌↔◌, true, false, not, ◌&&◌, ◌||◌, List, [], ◌∷◌, some, ok, is_ok, retain, contains,
  IsNodup,
}
use stata_parquet_io.Prelude.Text.{
  Text, codes, text_Eq, trim, split_whitespace, split_words, trim_start, trim_end, is_whitespace,
  text_eq, join,
}
use stata_parquet_io.FastCache.Glob.{stata_glob_match, any_suffix, after_one, after_char}
use stata_parquet_io.FastCache.Matching.{Matches, stata_glob_match_iff}
use stata_parquet_io.FastCache.Varlist.{
  resolve_varlist, match_namelist, match_patterns, add_hits, hits, is_wildcard, apply_drop,
  drop_matches, takes_all,
}
use stata_parquet_io.FastCache.Selection.{
  resolve_varlist-eq, contains-resolve_varlist, resolve_varlist-IsNodup, dropped, asked, selected,
}
use stata_parquet_io.FastCache.Failure.{is_ok-resolve_varlist, finds_all}
use stata_parquet_io.FastCache.Cache.{FastCacheKey}
use stata_parquet_io.FastCache.Cache
use stata_parquet_io.FastCache.History.{Call, after_calls, IsLatest, take-after_calls_iff}

abbrev price_columns : List Text
price_columns = codes "id" ∷ codes "price" ∷ codes "price_old" ∷ []

price_columns-IsNodup : IsNodup price_columns
unfolding text_eq
price_columns-IsNodup = (refl, (refl, (refl, tt)))

stata_glob_match_example :
    (stata_glob_match (codes "p?i*") (codes "price") ≡ true)
    ↔ Matches (codes "p?i*") (codes "price")
stata_glob_match_example = stata_glob_match_iff (codes "p?i*") (codes "price")

resolves :
    resolve_varlist (codes " price* id ") price_columns (codes "*_old")
    ≡ ok (codes "price" ∷ codes "id" ∷ [])
unfolding resolve_varlist match_namelist match_patterns add_hits hits is_wildcard apply_drop
    drop_matches trim split_whitespace split_words trim_start trim_end is_whitespace text_eq join
    stata_glob_match any_suffix after_one after_char
resolves = refl

resolve_varlist-eq_example :
    (codes "price" ∷ codes "id" ∷ [])
    ≡ retain (λ col. not (dropped (codes "*_old") col)) (asked (codes " price* id ") price_columns)
resolve_varlist-eq_example =
    resolve_varlist-eq (codes " price* id ") (codes "*_old") price_columns
      (codes "price" ∷ codes "id" ∷ []) resolves

contains-resolve_varlist_example :
    contains (codes "price" ∷ codes "id" ∷ []) (codes "price_old") ≡ (
      contains price_columns (codes "price_old")
      && selected (codes " price* id ") (codes "price_old")
      && not (dropped (codes "*_old") (codes "price_old")))
contains-resolve_varlist_example =
    contains-resolve_varlist (codes " price* id ") (codes "*_old") price_columns
      (codes "price" ∷ codes "id" ∷ []) resolves (codes "price_old")

resolve_varlist-IsNodup_example : IsNodup (codes "price" ∷ codes "id" ∷ [])
resolve_varlist-IsNodup_example =
    resolve_varlist-IsNodup (codes " price* id ") (codes "*_old") price_columns
      (codes "price" ∷ codes "id" ∷ []) price_columns-IsNodup resolves

is_ok-resolve_varlist_example : is_ok (resolve_varlist (codes "id id") price_columns []) ≡ (
    takes_all (trim (codes "id id"))
    || finds_all price_columns [] (split_whitespace (trim (codes "id id"))))
is_ok-resolve_varlist_example = is_ok-resolve_varlist (codes "id id") [] price_columns

abbrev auto_key : FastCacheKey
auto_key = record {
  path = codes "auto.parquet";
  sql_if = [];
  columns = codes "id" ∷ [];
  format = codes "parquet";
  parse_dates = false;
  infer_schema_length = 100;
}

abbrev session : List (Call ℕ)
session = Call.stored auto_key 7 ∷ Call.cleared ∷ []

abbrev frame : ℕ
frame = 7

take-after_calls_iff_example :
    ((Cache.take auto_key (after_calls session)).0 ≡ some frame) ↔ IsLatest auto_key frame session
take-after_calls_iff_example = take-after_calls_iff session auto_key frame
