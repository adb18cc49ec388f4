-- ===== src/Downcast/IntegerTypes.antt =====
-- The narrower integer type of a column, in src/downcast.rs, holds its values, and no narrower one does.
use stata_parquet_io.Prelude.{
  ◌≤◌, ◌<◌, ◌≡◌, Bool, true, false, not, ◌&&◌, List, [], ◌∷◌, Option, some, arith, ◌==◌,
  if◌then◌else◌, All, unwrap_or, contains, Bool-cases, Option-cases, inl, inr, and_true_iff,
}
use stata_parquet_io.Prelude.Int.{ℤ, pos, ◌≤ℤ◌}
use stata_parquet_io.Prelude.Text.{Text, text_Eq}
use stata_parquet_io.DataTypes.{DataType, data_type_Eq, Schema, get}
use stata_parquet_io.Mapping.{StataType}
use stata_parquet_io.Mapping.Ranges.{Holds}
use stata_parquet_io.Downcast.{find_optimal_integer_type, type_size, is_better_type, shrink_casts}

-- The type holds both bounds of a column: with Stata's ranges of `byte`, `int` and `long` for the
-- signed types that are saved as these, and a Boolean where Booleans are wanted.
abbrev pub Covers : DataType → Bool → ℤ → ℤ → Type 0
Covers DataType.boolean not_boolean lo hi = (not_boolean ≡ false) × (pos 0 ≤ℤ lo) × (hi ≤ℤ pos 1)
Covers DataType.int8 not_boolean lo hi = Holds StataType.byte lo × Holds StataType.byte hi
Covers DataType.int16 not_boolean lo hi = Holds StataType.int lo × Holds StataType.int hi
Covers DataType.int32 not_boolean lo hi = Holds StataType.long lo × Holds StataType.long hi
Covers DataType.int64 not_boolean lo hi = Unit
Covers _ not_boolean lo hi = ⊥

find-Covers :
    (lo hi : ℤ) (nb : Bool) → lo ≤ℤ hi → Covers (find_optimal_integer_type lo hi nb) nb lo hi
unfolding find_optimal_integer_type
find-Covers lo hi nb h = ground (arith, h)

find-least :
    (lo hi : ℤ) (nb : Bool) (t : DataType)
    → lo ≤ℤ hi
    → Covers t nb lo hi
    → type_size (find_optimal_integer_type lo hi nb) ≤ type_size t
unfolding find_optimal_integer_type type_size
find-least lo hi nb DataType.boolean h c = ground (arith, h, c)
find-least lo hi nb DataType.int8 h c = ground (arith, h, c)
find-least lo hi nb DataType.int16 h c = ground (arith, h, c)
find-least lo hi nb DataType.int32 h c = ground (arith, h, c)
find-least lo hi nb DataType.int64 h c = ground (arith, h, c)
find-least lo hi nb DataType.uint8 h c = elim c [ ]
find-least lo hi nb DataType.uint16 h c = elim c [ ]
find-least lo hi nb DataType.uint32 h c = elim c [ ]
find-least lo hi nb DataType.uint64 h c = elim c [ ]
find-least lo hi nb DataType.float32 h c = elim c [ ]
find-least lo hi nb DataType.float64 h c = elim c [ ]
find-least lo hi nb DataType.string h c = elim c [ ]
find-least lo hi nb DataType.binary h c = elim c [ ]
find-least lo hi nb DataType.date h c = elim c [ ]
find-least lo hi nb DataType.time h c = elim c [ ]
find-least lo hi nb (DataType.datetime u) h c = elim c [ ]
find-least lo hi nb DataType.categorical h c = elim c [ ]
find-least lo hi nb DataType.enumeration h c = elim c [ ]
find-least lo hi nb (DataType.other n) h c = elim c [ ]

-- A column's bounds, in order: the type chosen holds both, as Stata's ranges have it, and no type that
-- does is narrower.
pub find_optimal_integer_type-IsLeast :
    (min_val max_val : ℤ) (not_boolean : Bool)
    → min_val ≤ℤ max_val
    → (let chosen = find_optimal_integer_type min_val max_val not_boolean in
        Covers chosen not_boolean min_val max_val
        × ((t : DataType) → Covers t not_boolean min_val max_val → type_size chosen ≤ type_size t))
find_optimal_integer_type-IsLeast lo hi nb h =
    (find-Covers lo hi nb h, λ t c. find-least lo hi nb t h c)

module _ (schema : Schema) (statistics : Text → Option (ℤ × ℤ))
    (columns_not_boolean : List Text) where
  -- A cast to a type that holds the column's values and is narrower than the column's.
  abbrev pub IsSafe : Text × DataType → Type 0
  IsSafe (col, t) =
      (lo : ℤ) × (hi : ℤ) × (statistics col ≡ some (lo, hi))
      × Covers t (contains columns_not_boolean col) lo hi
      × (type_size t < type_size (unwrap_or (get schema col) DataType.int64))

  shrink_one :
      (lo hi : ℤ) (col : Text) (rest : List (Text × DataType))
      → statistics col ≡ some (lo, hi)
      → lo ≤ℤ hi
      → All IsSafe rest
      → (let chosen = find_optimal_integer_type lo hi (contains columns_not_boolean col) in
          let current_type = unwrap_or (get schema col) DataType.int64 in
          All IsSafe (
            if not (chosen == current_type) && is_better_type chosen current_type
            then (col, chosen) ∷ rest
            else rest))
  unfolding is_better_type
  shrink_one lo hi col rest e h safe =
      let nb : Bool = contains columns_not_boolean col in
      let chosen : DataType = find_optimal_integer_type lo hi nb in
      let current_type : DataType = unwrap_or (get schema col) DataType.int64 in
      let test : Bool = not (chosen == current_type) && is_better_type chosen current_type in
      elim (Bool-cases test) [
        | inl better ↦
            let smaller : is_better_type chosen current_type ≡ true =
              ((and_true_iff (not (chosen == current_type)) (is_better_type chosen current_type)).0
                better).1 in
            rw better ((lo, hi, e, find-Covers lo hi nb h, ground (arith, smaller)), safe)
        | inr worse ↦ rw worse safe
      ]

  -- Every cast that `safe_shrink_integers` makes is to a type that holds the least and the greatest value
  -- of the column, as Stata's ranges have it, and that is narrower than the column's type.
  pub shrink_casts-IsSafe :
      (columns : List Text)
      → ((col : Text) (lo hi : ℤ) → statistics col ≡ some (lo, hi) → lo ≤ℤ hi)
      → All IsSafe (shrink_casts schema statistics columns_not_boolean columns)
  unfolding shrink_casts
  shrink_casts-IsSafe [] ordered = tt
  shrink_casts-IsSafe (col ∷ columns) ordered = elim (Option-cases (statistics col)) [
    | inl e ↦ rw (e, shrink_casts) (shrink_casts-IsSafe columns ordered)
    | inr (b, e) ↦
        rw (e, shrink_casts)
          (shrink_one b.0 b.1 col _ e (ordered col b.0 b.1 e) (shrink_casts-IsSafe columns ordered))
  ]
