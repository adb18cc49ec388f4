-- ===== src/Mapping/Ranges.antt =====
-- The default storage types of `map_polars_to_stata` (src/mapping.rs) hold the values of the columns.
use stata_parquet_io.Prelude.{ℕ, Option, none, some, arith}
use stata_parquet_io.Prelude.Int.{ℤ, pos, negsuc, ◌≤ℤ◌}
use stata_parquet_io.DataTypes.{DataType}
use stata_parquet_io.Mapping.{StataType, map_polars_to_stata}

-- The values that Stata stores as numbers, the codes of its missing values left out; doubles by the
-- integers up to 2 ^ 53, which they hold exactly.
abbrev pub stata_range : StataType → Option (ℤ × ℤ)
stata_range StataType.byte = some (negsuc 126, pos 100)
stata_range StataType.int = some (negsuc 32766, pos 32740)
stata_range StataType.long = some (negsuc 2147483646, pos 2147483620)
stata_range StataType.double = some (negsuc 9007199254740991, pos 9007199254740992)
stata_range _ = none

abbrev pub Holds : StataType → ℤ → Type 0
Holds t v = elim (stata_range t) [ none ↦ ⊥ | some (lo, hi) ↦ (lo ≤ℤ v) × (v ≤ℤ hi) ]

-- The values of the Polars types of at most 32 bits, but for `UInt32`.
abbrev pub IsValue : DataType → ℤ → Type 0
IsValue DataType.boolean v = (pos 0 ≤ℤ v) × (v ≤ℤ pos 1)
IsValue DataType.int8 v = (negsuc 127 ≤ℤ v) × (v ≤ℤ pos 127)
IsValue DataType.int16 v = (negsuc 32767 ≤ℤ v) × (v ≤ℤ pos 32767)
IsValue DataType.int32 v = (negsuc 2147483647 ≤ℤ v) × (v ≤ℤ pos 2147483647)
IsValue DataType.uint8 v = (pos 0 ≤ℤ v) × (v ≤ℤ pos 255)
IsValue DataType.uint16 v = (pos 0 ≤ℤ v) × (v ≤ℤ pos 65535)
IsValue _ v = ⊥

-- A value of a Boolean or integer column of at most 32 bits, other than `UInt32`, is a value of the
-- storage type chosen by default, and not one of the codes of missing values.
pub map_polars_to_stata-Holds :
    (dtype : DataType) (str_length : ℕ) (v : ℤ)
    → IsValue dtype v
    → Holds (map_polars_to_stata dtype str_length) v
unfolding map_polars_to_stata
map_polars_to_stata-Holds DataType.boolean n v (lo, hi) = (omega (arith, lo), omega (arith, hi))
map_polars_to_stata-Holds DataType.int8 n v (lo, hi) = (omega (arith, lo), omega (arith, hi))
map_polars_to_stata-Holds DataType.int16 n v (lo, hi) = (omega (arith, lo), omega (arith, hi))
map_polars_to_stata-Holds DataType.int32 n v (lo, hi) = (omega (arith, lo), omega (arith, hi))
map_polars_to_stata-Holds DataType.uint8 n v (lo, hi) = (omega (arith, lo), omega (arith, hi))
map_polars_to_stata-Holds DataType.uint16 n v (lo, hi) = (omega (arith, lo), omega (arith, hi))
map_polars_to_stata-Holds DataType.int64 n v h = elim h [ ]
map_polars_to_stata-Holds DataType.uint32 n v h = elim h [ ]
map_polars_to_stata-Holds DataType.uint64 n v h = elim h [ ]
map_polars_to_stata-Holds DataType.float32 n v h = elim h [ ]
map_polars_to_stata-Holds DataType.float64 n v h = elim h [ ]
map_polars_to_stata-Holds DataType.string n v h = elim h [ ]
map_polars_to_stata-Holds DataType.binary n v h = elim h [ ]
map_polars_to_stata-Holds DataType.date n v h = elim h [ ]
map_polars_to_stata-Holds DataType.time n v h = elim h [ ]
map_polars_to_stata-Holds (DataType.datetime u) n v h = elim h [ ]
map_polars_to_stata-Holds DataType.categorical n v h = elim h [ ]
map_polars_to_stata-Holds DataType.enumeration n v h = elim h [ ]
map_polars_to_stata-Holds (DataType.other k) n v h = elim h [ ]
