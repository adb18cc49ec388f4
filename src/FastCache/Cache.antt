-- ===== src/FastCache/Cache.antt =====
-- The one-entry cache of src/fast_cache.rs: `FastCacheKey`, `store`, `take`, `clear`. The frame is a
-- value of Polars, a parameter here. The mutex makes each operation one step.
use stata_parquet_io.Prelude.{
  ℕ, Bool, true, false, ◌&&◌, List, [], ◌∷◌, Option, none, some, ◌==◌, nat_eq, ◌≡◌, ◌↔◌, refl,
  arith, if◌then◌else◌,
}
use stata_parquet_io.Prelude.Text.{Text, text_Eq, text_eq_iff}

pub list_eq : List Text → List Text → Bool
list_eq [] [] = true
list_eq (a ∷ s) (b ∷ t) = (a == b) && list_eq s t
list_eq _ _ = false

pub list_eq_iff : (s t : List Text) → (list_eq s t ≡ true) ↔ (s ≡ t)
unfolding list_eq
list_eq_iff [] [] = (λ h. refl, λ h. refl)
list_eq_iff [] (b ∷ t) = (λ h. cc, λ h. cc)
list_eq_iff (a ∷ s) [] = (λ h. cc, λ h. cc)
list_eq_iff (a ∷ s) (b ∷ t) = ground (arith, list_eq_iff s t, text_eq_iff a b)

abbrev pub bool_eq : Bool → Bool → Bool
bool_eq true b = b
bool_eq false true = false
bool_eq false false = true

pub record FastCacheKey : Type 0 where
  pub path : Text
  pub sql_if : Text
  pub columns : List Text
  pub format : Text
  pub parse_dates : Bool
  pub infer_schema_length : ℕ

-- The derived `PartialEq`.
unfoldable pub key_eq : FastCacheKey → FastCacheKey → Bool
unfolding list_eq
key_eq a b =
    (a.path == b.path)
    && (a.sql_if == b.sql_if)
    && list_eq a.columns b.columns
    && (a.format == b.format)
    && bool_eq a.parse_dates b.parse_dates
    && (a.infer_schema_length == b.infer_schema_length)

pub key_eq_iff : (a b : FastCacheKey) → (key_eq a b ≡ true) ↔ (a ≡ b)
unfolding key_eq
key_eq_iff a b = ground (
  arith,
  text_eq_iff a.path b.path,
  text_eq_iff a.sql_if b.sql_if,
  list_eq_iff a.columns b.columns,
  text_eq_iff a.format b.format,
)

pub record FastCache (DataFrame : Type 0) : Type 0 where
  pub key : FastCacheKey
  pub df : DataFrame

module _ {DataFrame : Type 0} where
  unfoldable pub store :
      FastCacheKey → DataFrame → Option (FastCache DataFrame) → Option (FastCache DataFrame)
  store key df cache = some (record { key = key; df = df })

  -- The frame, if the key matches, and the cache that is left.
  unfoldable pub take :
      FastCacheKey → Option (FastCache DataFrame) → Option DataFrame × Option (FastCache DataFrame)
  take key none = (none, none)
  take key (some c) = if key_eq c.key key then (some c.df, none) else (none, some c)

  unfoldable pub clear : Option (FastCache DataFrame) → Option (FastCache DataFrame)
  clear cache = none
