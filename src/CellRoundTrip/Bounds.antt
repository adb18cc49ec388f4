-- ===== src/CellRoundTrip/Bounds.antt =====
-- Bounds of the integers that src/read.rs and src/write.rs pass through the cells of Stata.
use stata_parquet_io.Prelude.{ℕ, ◌*◌, ◌^◌, ◌≤◌, ◌≡◌, arith}
use stata_parquet_io.Prelude.Int.{ℤ, pos, negsuc, ◌+ℤ◌, ◌-ℤ◌, IsSigned}
use stata_parquet_io.DataTypes.{DataType}
use stata_parquet_io.Mapping.{StataType}
use stata_parquet_io.Mapping.Ranges.{Holds, IsValue}
use stata_parquet_io.Floats.{IsExact}

pub sub_add : (z : ℤ) (k : ℕ) → ((z +ℤ pos k) -ℤ pos k) ≡ z
unfolding ◌+ℤ◌ ◌-ℤ◌
sub_add (pos n) k = ground arith
sub_add (negsuc n) k = ground arith

pub sum-IsExact : (z : ℤ) → IsSigned (2 ^ 52) z → IsExact (z +ℤ pos (1000 * 315619200))
unfolding ◌+ℤ◌
sum-IsExact (pos n) h = ground (arith, h)
sum-IsExact (negsuc n) h = ground (arith, h)

pub Holds-IsSigned : (z : ℤ) → Holds StataType.long z → IsSigned 0x8000_0000 z
Holds-IsSigned (pos n) (lo, hi) = omega (arith, hi)
Holds-IsSigned (negsuc n) (lo, hi) = omega (arith, lo)

pub int8-IsValue : (z : ℤ) → IsSigned 0x80 z → IsValue DataType.int8 z
int8-IsValue (pos n) h = (omega arith, omega (arith, h))
int8-IsValue (negsuc n) h = (omega (arith, h), omega arith)

pub int16-IsValue : (z : ℤ) → IsSigned 0x8000 z → IsValue DataType.int16 z
int16-IsValue (pos n) h = (omega arith, omega (arith, h))
int16-IsValue (negsuc n) h = (omega (arith, h), omega arith)

pub int32-IsValue : (z : ℤ) → IsSigned 0x8000_0000 z → IsValue DataType.int32 z
int32-IsValue (pos n) h = (omega arith, omega (arith, h))
int32-IsValue (negsuc n) h = (omega (arith, h), omega arith)

pub wider : (half half' : ℕ) (z : ℤ) → half ≤ half' → IsSigned half z → IsSigned half' z
wider half half' (pos n) h s = omega (arith, h, s)
wider half half' (negsuc n) h s = omega (arith, h, s)

pub IsSigned-IsExact : (half : ℕ) (z : ℤ) → half ≤ 2 ^ 53 → IsSigned half z → IsExact z
IsSigned-IsExact half (pos n) h s = omega (arith, h, s)
IsSigned-IsExact half (negsuc n) h s = omega (arith, h, s)

pub IsSigned-Holds : (z : ℤ) → IsExact z → Holds StataType.double z
IsSigned-Holds (pos n) h = (omega arith, omega (arith, h))
IsSigned-Holds (negsuc n) h = (omega (arith, h), omega arith)
