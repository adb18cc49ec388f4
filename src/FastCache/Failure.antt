-- ===== src/FastCache/Failure.antt =====
-- When `resolve_varlist` of src/fast_cache.rs fails.
use stata_parquet_io.Prelude.{
  ◌≡◌, refl, Bool, true, false, not, ◌&&◌, ◌||◌, List, [], ◌∷◌, ◌++◌, arith, is_empty, any,
  contains, is_ok,
}
use stata_parquet_io.Prelude.Membership.{contains-append}
use stata_parquet_io.Prelude.Text.{Text, text_Eq, text_eq_iff, trim, split_whitespace}
use stata_parquet_io.FastCache.Varlist.{
  hits, is_wildcard, add_hits, match_patterns, takes_all, match_namelist, resolve_varlist,
}

-- Every exact name of the list is a column of the file and is not taken by an earlier pattern; the
-- earlier patterns are in `seen`.
abbrev pub finds_all : List Text → List Text → List Text → Bool
finds_all schema_cols seen [] = true
finds_all schema_cols seen (pattern ∷ patterns) =
    (is_wildcard pattern
      || (contains schema_cols pattern && not (any (λ earlier. hits earlier pattern) seen)))
    && finds_all schema_cols (pattern ∷ seen) patterns

-- What the loop over the columns answers for an exact name.
add_hits_found :
    (pattern : Text) (cols result : List Text) (found : Bool)
    → is_wildcard pattern ≡ false
    → (add_hits pattern cols result found).1
      ≡ (found || (contains cols pattern && not (contains result pattern)))
unfolding add_hits hits
add_hits_found pattern [] result found exact = ground arith
add_hits_found pattern (col ∷ cols) result found exact = ground (
  arith,
  add_hits_found pattern cols result found,
  add_hits_found pattern cols (result ++ col ∷ []) true,
  contains-append result (col ∷ []) pattern,
  text_eq_iff col pattern,
)

contains-add_hits :
    (pattern : Text) (cols result : List Text) (found : Bool) (a : Text)
    → contains (add_hits pattern cols result found).0 a
      ≡ (contains result a || (contains cols a && hits pattern a))
unfolding add_hits
contains-add_hits pattern [] result found a = ground arith
contains-add_hits pattern (col ∷ cols) result found a = ground (
  arith,
  contains-add_hits pattern cols result found a,
  contains-add_hits pattern cols (result ++ col ∷ []) true a,
  contains-append result (col ∷ []) a,
  text_eq_iff col a,
)

is_empty-concat : (xs : List Text) (x : Text) → is_empty (xs ++ x ∷ []) ≡ false
is_empty-concat [] x = refl
is_empty-concat (y ∷ xs) x = refl

-- `result` holds the columns that the patterns in `seen` take.
match_patterns_unmatched :
    (schema_cols seen patterns result unmatched : List Text)
    → ((a : Text) → contains result a ≡ (contains schema_cols a && any (λ p. hits p a) seen))
    → is_empty (match_patterns schema_cols patterns result unmatched).1
      ≡ (is_empty unmatched && finds_all schema_cols seen patterns)
unfolding match_patterns
match_patterns_unmatched schema_cols seen [] result unmatched taken = ground arith
match_patterns_unmatched schema_cols seen (pattern ∷ patterns) result unmatched taken = ground (
  arith,
  match_patterns_unmatched schema_cols (pattern ∷ seen) patterns
      (add_hits pattern schema_cols result false).0 unmatched
      (λ a. ground (arith, contains-add_hits pattern schema_cols result false a, taken a)),
  match_patterns_unmatched schema_cols (pattern ∷ seen) patterns
      (add_hits pattern schema_cols result false).0 (unmatched ++ pattern ∷ [])
      (λ a. ground (arith, contains-add_hits pattern schema_cols result false a, taken a)),
  add_hits_found pattern schema_cols result false,
  taken pattern,
  is_empty-concat unmatched pattern,
)

-- `resolve_varlist` succeeds exactly if the list asks for all columns, or each of its exact names is
-- a column of the file that no earlier entry of the list takes; so a list that repeats an exact
-- name, or names a column that an earlier wildcard covers, is refused as not found.
pub is_ok-resolve_varlist :
    (namelist drop_list : Text) (schema_cols : List Text)
    → is_ok (resolve_varlist namelist schema_cols drop_list)
      ≡ (takes_all (trim namelist) || finds_all schema_cols [] (split_whitespace (trim namelist)))
unfolding resolve_varlist match_namelist
is_ok-resolve_varlist namelist drop_list schema_cols = ground (
  arith,
  match_patterns_unmatched schema_cols [] (split_whitespace (trim namelist)) [] []
      (λ a. ground arith),
)
