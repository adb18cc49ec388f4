-- ===== src/Describe/Safety.antt =====
-- The storage types that `describe` (src/describe.rs) puts in place of the default ones hold the values
-- that the footers of the files verify.
use stata_parquet_io.Prelude.{
  if_true, if_false, ◌+◌, leb, ℕ, ◌≤◌, ◌≡◌, refl, sym, ap, ◌∙◌, inl, inr, true, List, Option, none,
  some, arith, ltb, if◌then◌else◌, contains, Bool-cases, Option-cases, subst,
}
use stata_parquet_io.Prelude.Int.{pos_part, neg_part, ℤ, pos, negsuc, ◌≤ℤ◌}
use stata_parquet_io.Prelude.Text.{Text, codes, text_Eq, text_eq, to_ascii_lowercase, lower_char}
use stata_parquet_io.DataTypes.{DataType, Schema}
use stata_parquet_io.Mapping.{StataType, from_str, integer_rank, widen_with_recorded_type}
use stata_parquet_io.Mapping.Ranges.{Holds}
use stata_parquet_io.Downcast.IntegerTypes.{Covers, find_optimal_integer_type-IsLeast}
use stata_parquet_io.Downcast.{find_optimal_integer_type, polars_type_to_stata_type}
use stata_parquet_io.Describe.{
  stata_type_of, override, recorded_types, integer_cols, safe_integer_type_overrides,
}

-- The integers of a rank's storage type.
abbrev hi_of : ℕ → ℕ
hi_of k =
    if leb k 1
    then 100
    else if leb k 2
    then 32740
    else if leb k 3
    then 2147483620
    else 9007199254740992

abbrev lo_of : ℕ → ℕ
lo_of k =
    if leb k 1
    then 127
    else if leb k 2
    then 32767
    else if leb k 3
    then 2147483647
    else 9007199254740992

abbrev InRank : ℕ → ℤ → Type 0
InRank k v = (neg_part v ≤ lo_of k + pos_part v) × (pos_part v ≤ hi_of k + neg_part v)

InRank-wider : (j k : ℕ) (v : ℤ) → j ≤ k → InRank j v → InRank k v
InRank-wider j k v h (lo, hi) = ground (arith, h, lo, hi)

Holds-InRank :
    (t : StataType) (v : ℤ) → Holds t v → (k : ℕ) × (integer_rank t ≡ some k) × InRank k v
unfolding integer_rank
Holds-InRank StataType.byte v (lo, hi) = (1, refl, (omega (arith, lo), omega (arith, hi)))
Holds-InRank StataType.int v (lo, hi) = (2, refl, (omega (arith, lo), omega (arith, hi)))
Holds-InRank StataType.long v (lo, hi) = (3, refl, (omega (arith, lo), omega (arith, hi)))
Holds-InRank StataType.double v (lo, hi) = (4, refl, (omega (arith, lo), omega (arith, hi)))
Holds-InRank StataType.float v h = elim h [ ]
Holds-InRank StataType.date v h = elim h [ ]
Holds-InRank StataType.time v h = elim h [ ]
Holds-InRank StataType.datetime v h = elim h [ ]
Holds-InRank StataType.string v h = elim h [ ]
Holds-InRank StataType.strl v h = elim h [ ]
Holds-InRank StataType.binary v h = elim h [ ]

rank_of : {j k : ℕ} → ◌≡◌ {A = Option ℕ} (some j) (some k) → j ≡ k
rank_of h = cc

no_rank : {k : ℕ} → ◌≡◌ {A = Option ℕ} none (some k) → ⊥
no_rank h = cc

InRank-Holds : (t : StataType) (v : ℤ) (k : ℕ) → integer_rank t ≡ some k → InRank k v → Holds t v
unfolding integer_rank
InRank-Holds StataType.byte v k e h = ground (arith, rank_of e, h)
InRank-Holds StataType.int v k e h = ground (arith, rank_of e, h)
InRank-Holds StataType.long v k e h = ground (arith, rank_of e, h)
InRank-Holds StataType.double v k e h = ground (arith, rank_of e, h)
InRank-Holds StataType.float v k e h = absurd (no_rank e)
InRank-Holds StataType.date v k e h = absurd (no_rank e)
InRank-Holds StataType.time v k e h = absurd (no_rank e)
InRank-Holds StataType.datetime v k e h = absurd (no_rank e)
InRank-Holds StataType.string v k e h = absurd (no_rank e)
InRank-Holds StataType.strl v k e h = absurd (no_rank e)
InRank-Holds StataType.binary v k e h = absurd (no_rank e)

-- A wider type of the integers holds what a narrower one does.
widen-Holds :
    (t : StataType) (recorded : Option StataType) (v : ℤ)
    → Holds t v
    → Holds (widen_with_recorded_type t recorded) v
unfolding widen_with_recorded_type
widen-Holds t none v h = h
widen-Holds t (some r) v h =
    let (j, e, inside) = Holds-InRank t v h in
    elim (Option-cases (integer_rank r)) [
      | inl f ↦ rw (f, widen_with_recorded_type) h
      | inr (k, f) ↦ elim (Bool-cases (ltb j k)) [
        | inl g ↦
            rw (f, e, g, widen_with_recorded_type)
              (InRank-Holds r v k f (InRank-wider j k v (ground (arith, g)) inside))
        | inr g ↦ rw (f, e, g, widen_with_recorded_type) h
      ]
    ]

some_type : {a b : StataType} → ◌≡◌ {A = Option StataType} (some a) (some b) → a ≡ b
some_type h = cc

none_type : {a : StataType} → ◌≡◌ {A = Option StataType} none (some a) → ⊥
none_type h = cc

abbrev of_text : Text → Option StataType
of_text s = from_str (polars_type_to_stata_type (to_ascii_lowercase s))

module _ (debug : DataType → Text)
    -- The names that Polars prints for the signed types.
    (prints_int8 : debug DataType.int8 ≡ codes "Int8")
    (prints_int16 : debug DataType.int16 ≡ codes "Int16")
    (prints_int32 : debug DataType.int32 ≡ codes "Int32")
    (prints_int64 : debug DataType.int64 ≡ codes "Int64") where
  chosen-Holds :
      (d : DataType) (lo hi v : ℤ) (t : StataType)
      → Covers d true lo hi
      → lo ≤ℤ v
      → v ≤ℤ hi
      → negsuc 9007199254740991 ≤ℤ lo
      → hi ≤ℤ pos 9007199254740992
      → stata_type_of debug d ≡ some t
      → Holds t v
  unfolding from_str polars_type_to_stata_type to_ascii_lowercase lower_char text_eq
  chosen-Holds DataType.boolean lo hi v t (h, c, c') l u a b e = absurd cc
  chosen-Holds DataType.int8 lo hi v t ((c, c'), (d, d')) l u a b e =
      subst (λ x. Holds x v) (some_type (sym (ap of_text prints_int8) ∙ e))
        (ground (arith, c, d', l, u))
  chosen-Holds DataType.int16 lo hi v t ((c, c'), (d, d')) l u a b e =
      subst (λ x. Holds x v) (some_type (sym (ap of_text prints_int16) ∙ e))
        (ground (arith, c, d', l, u))
  chosen-Holds DataType.int32 lo hi v t ((c, c'), (d, d')) l u a b e =
      subst (λ x. Holds x v) (some_type (sym (ap of_text prints_int32) ∙ e))
        (ground (arith, c, d', l, u))
  chosen-Holds DataType.int64 lo hi v t c l u a b e =
      subst (λ x. Holds x v) (some_type (sym (ap of_text prints_int64) ∙ e))
        (ground (arith, a, b, l, u))
  chosen-Holds DataType.uint8 lo hi v t c l u a b e = elim c [ ]
  chosen-Holds DataType.uint16 lo hi v t c l u a b e = elim c [ ]
  chosen-Holds DataType.uint32 lo hi v t c l u a b e = elim c [ ]
  chosen-Holds DataType.uint64 lo hi v t c l u a b e = elim c [ ]
  chosen-Holds DataType.float32 lo hi v t c l u a b e = elim c [ ]
  chosen-Holds DataType.float64 lo hi v t c l u a b e = elim c [ ]
  chosen-Holds DataType.string lo hi v t c l u a b e = elim c [ ]
  chosen-Holds DataType.binary lo hi v t c l u a b e = elim c [ ]
  chosen-Holds DataType.date lo hi v t c l u a b e = elim c [ ]
  chosen-Holds DataType.time lo hi v t c l u a b e = elim c [ ]
  chosen-Holds (DataType.datetime x) lo hi v t c l u a b e = elim c [ ]
  chosen-Holds DataType.categorical lo hi v t c l u a b e = elim c [ ]
  chosen-Holds DataType.enumeration lo hi v t c l u a b e = elim c [ ]
  chosen-Holds (DataType.other n) lo hi v t c l u a b e = elim c [ ]

  override-none :
      (lo hi : ℤ) (recorded : Option StataType)
      → stata_type_of debug (find_optimal_integer_type lo hi true) ≡ none
      → override debug (some (lo, hi)) recorded ≡ none
  unfolding override
  override-none lo hi recorded e = rw (e, override) refl

  override-some :
      (lo hi : ℤ) (recorded : Option StataType) (safe : StataType)
      → stata_type_of debug (find_optimal_integer_type lo hi true) ≡ some safe
      → override debug (some (lo, hi)) recorded ≡ some (widen_with_recorded_type safe recorded)
  unfolding override
  override-some lo hi recorded safe e = rw (e, override) refl

  override-Holds :
      (lo hi v : ℤ) (recorded : Option StataType) (t : StataType)
      → lo ≤ℤ v
      → v ≤ℤ hi
      → negsuc 9007199254740991 ≤ℤ lo
      → hi ≤ℤ pos 9007199254740992
      → override debug (some (lo, hi)) recorded ≡ some t
      → Holds t v
  unfolding override
  override-Holds lo hi v recorded t l u a b h =
      let chosen : DataType = find_optimal_integer_type lo hi true in
      let covers : Covers chosen true lo hi =
        (find_optimal_integer_type-IsLeast lo hi true (omega (arith, l, u))).0 in
      elim (Option-cases (stata_type_of debug chosen)) [
        | inl e ↦ absurd (none_type (sym (override-none lo hi recorded e) ∙ h))
        | inr (verified_safe, e) ↦
            subst (λ x. Holds x v)
              (some_type (sym (override-some lo hi recorded verified_safe e) ∙ h))
              (widen-Holds verified_safe recorded v
                (chosen-Holds chosen lo hi v verified_safe covers l u a b e))
      ]

  -- Where the footers give a column a range, within the integers up to 2 ^ 53 as every type of at most 32
  -- bits is, the storage type that replaces the default one holds each value of the range, whatever
  -- type an earlier save recorded.
  pub safe_integer_type_overrides-Holds :
      (verified_ranges : List Text → Text → Option (ℤ × ℤ)) (recorded : List (Text × Option Text))
      (schema : Schema) (cast_map : List Text) (name : Text) (lo hi v : ℤ) (t : StataType)
      → verified_ranges (integer_cols debug schema cast_map) name ≡ some (lo, hi)
      → lo ≤ℤ v
      → v ≤ℤ hi
      → negsuc 9007199254740991 ≤ℤ lo
      → hi ≤ℤ pos 9007199254740992
      → safe_integer_type_overrides debug verified_ranges recorded schema cast_map name ≡ some t
      → Holds t v
  unfolding safe_integer_type_overrides
  safe_integer_type_overrides-Holds ranges recorded schema cast_map name lo hi v t r l u a b h =
      let cols : List Text = integer_cols debug schema cast_map in
      let types : Option StataType = recorded_types debug recorded name in
      elim (Bool-cases (contains cols name)) [
        | inl e ↦ override-Holds lo hi v types t l u a b (
            sym (
              if_true (contains cols name) (override debug (ranges cols name) types) none e
              ∙ ap (λ o. override debug o types) r)
            ∙ h)
        | inr e ↦ absurd (
            none_type (
              sym (if_false (contains cols name) (override debug (ranges cols name) types) none e)
              ∙ h))
      ]
