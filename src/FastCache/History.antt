-- ===== src/FastCache/History.antt =====
-- The cache of src/fast_cache.rs over a session: which frame a `read` takes, told from the calls.
use stata_parquet_io.Prelude.{
  ◌≡◌, ◌≢◌, ◌↔◌, sym, ◌∙◌, List, [], ◌∷◌, Option, none, some, arith, Bool-cases, inl, inr,
}
use stata_parquet_io.FastCache.Cache
use stata_parquet_io.FastCache.Cache.{FastCacheKey, FastCache, key_eq, key_eq_iff}

pub data Call (DataFrame : Type 0) : Type 0 where
  stored : FastCacheKey → DataFrame → Call DataFrame
  taken : FastCacheKey → Call DataFrame
  cleared : Call DataFrame

module _ {DataFrame : Type 0} where
  -- The cache after the calls of a session, the latest call first.
  unfoldable pub after_calls : List (Call DataFrame) → Option (FastCache DataFrame)
  after_calls [] = none
  after_calls (stored key df ∷ earlier) = Cache.store key df (after_calls earlier)
  after_calls (taken key ∷ earlier) = (Cache.take key (after_calls earlier)).1
  after_calls (cleared ∷ earlier) = Cache.clear (after_calls earlier)

  -- The latest `store` is one of `key` and `df`, and what came after it are attempts to take others.
  abbrev pub IsLatest : FastCacheKey → DataFrame → List (Call DataFrame) → Type 0
  IsLatest key df [] = ⊥
  IsLatest key df (stored k d ∷ earlier) = (k ≡ key) × (d ≡ df)
  IsLatest key df (taken k ∷ earlier) = (k ≢ key) × IsLatest key df earlier
  IsLatest key df (cleared ∷ earlier) = ⊥

  abbrev holding : FastCacheKey → DataFrame → Option (FastCache DataFrame)
  holding key df = some (record { key = key; df = df })

  take_leaves_iff :
      (k key : FastCacheKey) (df : DataFrame) (cache : Option (FastCache DataFrame))
      → ((Cache.take k cache).1 ≡ holding key df) ↔ ((k ≢ key) × (cache ≡ holding key df))
  unfolding Cache.take
  take_leaves_iff k key df none = (λ h. cc, λ h. cc h.1)
  take_leaves_iff k key df (some c) = elim (Bool-cases (key_eq c.key k)) [
    | inl hit ↦ rw hit (λ h. cc, λ h. absurd (h.0 (sym ((key_eq_iff c.key k).0 hit) ∙ key_of h.1)))
    | inr miss ↦
        rw miss
          (λ h. (λ same. cc (sym miss ∙ (key_eq_iff c.key k).1 (key_of h ∙ sym same)), h), λ h. h.1)
  ]
    where
      key_of : some c ≡ holding key df → c.key ≡ key
      key_of h = cc

  take_hit_iff :
      (key : FastCacheKey) (df : DataFrame) (cache : Option (FastCache DataFrame))
      → ((Cache.take key cache).0 ≡ some df) ↔ (cache ≡ holding key df)
  unfolding Cache.take
  take_hit_iff key df none = (λ h. cc, λ h. cc)
  take_hit_iff key df (some c) = ground (arith, key_eq_iff c.key key)

  after_calls-eq_iff :
      (key : FastCacheKey) (df : DataFrame) (calls : List (Call DataFrame))
      → (after_calls calls ≡ holding key df) ↔ IsLatest key df calls
  unfolding after_calls Cache.store Cache.clear
  after_calls-eq_iff key df [] = (λ h. cc, λ h. absurd h)
  after_calls-eq_iff key df (stored k d ∷ earlier) = ground arith
  after_calls-eq_iff key df (taken k ∷ earlier) =
      let left = take_leaves_iff k key df (after_calls earlier) in
      let ih = after_calls-eq_iff key df earlier in
      (
        λ h. let (other, kept) = left.0 h in (other, ih.0 kept),
        λ (other, latest). left.1 (other, ih.1 latest),
      )
  after_calls-eq_iff key df (cleared ∷ earlier) = (λ h. cc, λ h. absurd h)

  -- After any calls, `take` finds a frame exactly if the latest `store` was one of that key and that
  -- frame, with no `clear` and no `take` of the key since.
  pub take-after_calls_iff :
      (calls : List (Call DataFrame)) (key : FastCacheKey) (df : DataFrame)
      → ((Cache.take key (after_calls calls)).0 ≡ some df) ↔ IsLatest key df calls
  take-after_calls_iff calls key df =
      let hit = take_hit_iff key df (after_calls calls) in
      let held = after_calls-eq_iff key df calls in (λ h. held.0 (hit.0 h), λ h. hit.1 (held.1 h))
