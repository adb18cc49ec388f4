-- ===== src/Floats.antt =====
-- Rust's `f64` as the program uses it: its operations, and what they do on integers of at most 53 bits.
--
-- An `f32` is the `f64` that it widens to.
use stata_parquet_io.Prelude.{ℕ, ◌*◌, ◌^◌, ◌≤◌, ◌<◌, ◌≡◌, Bool, ltb}
use stata_parquet_io.Prelude.Int.{ℤ, pos, negsuc, ◌+ℤ◌, ◌-ℤ◌, IsSigned}

pub record Floats : Type 1 where
  pub F : Type 0
  -- `as f64`, and `as i8` to `as i64`, by half the number of values.
  pub of_int : ℤ → F
  pub as_int : ℕ → F → ℤ
  -- `as f32`.
  pub narrow : F → F
  pub plus : F → F → F
  pub minus : F → F → F
  pub times : F → F → F
  pub over : F → F → F
  -- `> 0.0`.
  pub is_positive : F → Bool

-- An integer that an `f64` holds.
abbrev pub IsExact : ℤ → Type 0
IsExact (pos n) = n ≤ 2 ^ 53
IsExact (negsuc n) = n < 2 ^ 53

-- On such integers the operations are those of the integers, as IEEE 754 has it.
pub record AreExact (floats : Floats) : Type 0 where
  pub as_int-of_int :
      (half : ℕ) (z : ℤ) → IsExact z → IsSigned half z → floats.as_int half (floats.of_int z) ≡ z
  pub plus-of_int :
      (a b : ℤ)
      → IsExact a
      → IsExact b
      → IsExact (a +ℤ b)
      → floats.plus (floats.of_int a) (floats.of_int b) ≡ floats.of_int (a +ℤ b)
  pub minus-of_int :
      (a b : ℤ)
      → IsExact a
      → IsExact b
      → IsExact (a -ℤ b)
      → floats.minus (floats.of_int a) (floats.of_int b) ≡ floats.of_int (a -ℤ b)
  pub times-of_int :
      (k : ℕ) (n : ℕ)
      → k * n ≤ 2 ^ 53
      → floats.times (floats.of_int (pos n)) (floats.of_int (pos k)) ≡ floats.of_int (pos (k * n))
  pub over_one : (x : floats.F) → floats.over x (floats.of_int (pos 1)) ≡ x
  pub is_positive-of_int : (n : ℕ) → floats.is_positive (floats.of_int (pos n)) ≡ ltb 0 n
