-- ===== src/DataTypes.antt =====
-- Polars' `DataType`, as far as the program's sources name its variants, and the schema of a frame.
--
-- `other` stands for every variant that the sources match by `_` alone, by a number for its name.
use stata_parquet_io.Prelude.{
  ℕ, get_elem?, unwrap_or, ap, ap₂, sym, subst, ◌∙◌, ◌≡◌, refl, ◌↔◌, Bool, true, false, List, [],
  ◌∷◌, Option, none, some, ◌==◌, PartialEq, nat_eq, arith, if◌then◌else◌, nat_beq,
}
use stata_parquet_io.Prelude.Text.{Text, text_Eq}

pub data TimeUnit : Type 0 where
  nanoseconds : TimeUnit
  microseconds : TimeUnit
  milliseconds : TimeUnit

pub data DataType : Type 0 where
  boolean : DataType
  int8 : DataType
  int16 : DataType
  int32 : DataType
  int64 : DataType
  uint8 : DataType
  uint16 : DataType
  uint32 : DataType
  uint64 : DataType
  float32 : DataType
  float64 : DataType
  string : DataType
  binary : DataType
  date : DataType
  time : DataType
  datetime : TimeUnit → DataType
  categorical : DataType
  enumeration : DataType
  other : ℕ → DataType

unfoldable pub time_unit_code : TimeUnit → ℕ
time_unit_code TimeUnit.nanoseconds = 0
time_unit_code TimeUnit.microseconds = 1
time_unit_code TimeUnit.milliseconds = 2

-- A number for each variant, and one for its argument.
unfoldable pub code : DataType → ℕ × ℕ
unfolding time_unit_code
code DataType.boolean = (0, 0)
code DataType.int8 = (1, 0)
code DataType.int16 = (2, 0)
code DataType.int32 = (3, 0)
code DataType.int64 = (4, 0)
code DataType.uint8 = (5, 0)
code DataType.uint16 = (6, 0)
code DataType.uint32 = (7, 0)
code DataType.uint64 = (8, 0)
code DataType.float32 = (9, 0)
code DataType.float64 = (10, 0)
code DataType.string = (11, 0)
code DataType.binary = (12, 0)
code DataType.date = (13, 0)
code DataType.time = (14, 0)
code (DataType.datetime u) = (15, time_unit_code u)
code DataType.categorical = (16, 0)
code DataType.enumeration = (17, 0)
code (DataType.other n) = (18, n)

unfoldable pub data_type_eq : DataType → DataType → Bool
data_type_eq a b =
    let (m, x) = code a in let (n, y) = code b in if nat_beq m n then nat_beq x y else false

data_type_eq_refl : (a : DataType) → data_type_eq a a ≡ true
unfolding data_type_eq
data_type_eq_refl a = ground arith

-- The variant with a code.
decode_unit : ℕ → TimeUnit
decode_unit n =
    unwrap_or (get_elem? (TimeUnit.nanoseconds ∷ TimeUnit.microseconds ∷ []) n)
      TimeUnit.milliseconds

decode : ℕ → ℕ → DataType
unfolding decode_unit
decode n x =
    unwrap_or
      (get_elem?
        (DataType.boolean
          ∷ DataType.int8
          ∷ DataType.int16
          ∷ DataType.int32
          ∷ DataType.int64
          ∷ DataType.uint8
          ∷ DataType.uint16
          ∷ DataType.uint32
          ∷ DataType.uint64
          ∷ DataType.float32
          ∷ DataType.float64
          ∷ DataType.string
          ∷ DataType.binary
          ∷ DataType.date
          ∷ DataType.time
          ∷ DataType.datetime (decode_unit x)
          ∷ DataType.categorical
          ∷ DataType.enumeration
          ∷ [])
        n)
      (DataType.other x)

decode_unit-code : (u : TimeUnit) → decode_unit (time_unit_code u) ≡ u
unfolding decode_unit time_unit_code
decode_unit-code TimeUnit.nanoseconds = refl
decode_unit-code TimeUnit.microseconds = refl
decode_unit-code TimeUnit.milliseconds = refl

decode-code : (a : DataType) → decode (code a).0 (code a).1 ≡ a
unfolding decode code
decode-code DataType.boolean = refl
decode-code DataType.int8 = refl
decode-code DataType.int16 = refl
decode-code DataType.int32 = refl
decode-code DataType.int64 = refl
decode-code DataType.uint8 = refl
decode-code DataType.uint16 = refl
decode-code DataType.uint32 = refl
decode-code DataType.uint64 = refl
decode-code DataType.float32 = refl
decode-code DataType.float64 = refl
decode-code DataType.string = refl
decode-code DataType.binary = refl
decode-code DataType.date = refl
decode-code DataType.time = refl
decode-code (DataType.datetime u) = ap DataType.datetime (decode_unit-code u)
decode-code DataType.categorical = refl
decode-code DataType.enumeration = refl
decode-code (DataType.other n) = refl

pub data_type_eq_iff : (a b : DataType) → (data_type_eq a b ≡ true) ↔ (a ≡ b)
unfolding data_type_eq
data_type_eq_iff a b = (
  λ h. sym (decode-code a) ∙ ap₂ decode (ground (arith, h)) (ground (arith, h)) ∙ decode-code b,
  λ e. subst (λ c. data_type_eq a c ≡ true) e (data_type_eq_refl a),
)

instance abbrev pub data_type_Eq : PartialEq DataType
data_type_Eq = record { eqb = data_type_eq; eqb_iff = data_type_eq_iff }

-- The columns of a frame in order, each with its type. `Schema::get` finds a name.
abbrev pub Schema : Type 0
Schema = List (Text × DataType)

unfoldable pub get : Schema → Text → Option DataType
get [] name = none
get ((n, t) ∷ schema) name = let rest = get schema name in if n == name then some t else rest
