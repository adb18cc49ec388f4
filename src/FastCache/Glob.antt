-- ===== src/FastCache/Glob.antt =====
-- `stata_glob_match` of src/fast_cache.rs.
use stata_parquet_io.Prelude.{ℕ, Bool, true, false, [], ◌∷◌, ◌==◌, nat_eq, if◌then◌else◌, is_empty}
use stata_parquet_io.Prelude.Text.{Text}

-- The `*` arm: the rest of the pattern on the name itself, then after each character of it.
unfoldable pub any_suffix : (Text → Bool) → Text → Bool
any_suffix rest_p [] = rest_p []
any_suffix rest_p (n ∷ name) = if rest_p (n ∷ name) then true else any_suffix rest_p name

-- The `?` arm.
unfoldable pub after_one : (Text → Bool) → Text → Bool
after_one rest_p [] = false
after_one rest_p (n ∷ name) = rest_p name

-- The arm of any other character.
unfoldable pub after_char : ℕ → (Text → Bool) → Text → Bool
after_char c rest_p [] = false
after_char c rest_p (nc ∷ name) = if nc == c then rest_p name else false

unfoldable pub stata_glob_match : Text → Text → Bool
unfolding any_suffix after_one after_char
stata_glob_match [] name = is_empty name
stata_glob_match (first ∷ rest_p) name =
    if first == b'*'
    then any_suffix (stata_glob_match rest_p) name
    else if first == b'?'
    then after_one (stata_glob_match rest_p) name
    else after_char first (stata_glob_match rest_p) name
