-- ===== src/CellRoundTrip/Numbers.antt =====
-- Dates, times and datetimes made numbers by src/read.rs, and back by src/write.rs.
use stata_parquet_io.Prelude.{ℕ, ◌*◌, ◌/◌, ◌^◌, ◌≤◌, ◌<◌, ◌≡◌, ap, ap₂, ◌∙◌, arith}
use stata_parquet_io.Prelude.Int.{ℤ, pos, ◌+ℤ◌, ◌-ℤ◌, scale, quot, wrap, IsSigned, wrap-IsSigned}
use stata_parquet_io.Floats.{Floats, AreExact, IsExact}
use stata_parquet_io.Read.Values.{AnyValue}
use stata_parquet_io.Write.Scan.{to_date, to_time, to_datetime}
use stata_parquet_io.CellRoundTrip.Bounds.{sub_add, sum-IsExact, wider, IsSigned-IsExact}

module _ (floats : Floats) (exact : AreExact floats) where
  open floats use {F, of_int, narrow}

  pub int_back' :
      (half : ℕ) (z : ℤ) → IsExact z → IsSigned half z → floats.as_int half (of_int z) ≡ z
  int_back' half z h s = exact.as_int-of_int half z h s

  pub int_back :
      (half : ℕ) (z : ℤ) → half ≤ 2 ^ 53 → IsSigned half z → floats.as_int half (of_int z) ≡ z
  int_back half z h s = exact.as_int-of_int half z (IsSigned-IsExact half z h s) s

  pub date_back :
      (z : ℤ)
      → IsSigned 0x8000_0000 z
      → IsSigned 0x8000_0000 (z +ℤ pos 3653)
      → to_date floats (of_int (wrap 0x8000_0000 (z +ℤ pos 3653))) ≡ AnyValue.date z
  date_back z h s =
      ap (λ k. to_date floats (of_int k)) (wrap-IsSigned 0x8000_0000 (z +ℤ pos 3653) s)
      ∙ ap (λ k. AnyValue.date (wrap 0x8000_0000 (k -ℤ pos 3653)))
          (int_back 0x8000_0000 (z +ℤ pos 3653) (omega arith) s)
      ∙ ap (λ k. AnyValue.date (wrap 0x8000_0000 k)) (sub_add z 3653)
      ∙ ap AnyValue.date (wrap-IsSigned 0x8000_0000 z h)

  pub time_back :
      (ms : ℕ)
      → ms < 2 ^ 40
      → to_time floats (of_int (quot 1000000 (pos (1000000 * ms))))
        ≡ AnyValue.time (pos (1000000 * ms))
  time_back ms h =
      let back : 1000000 * ms / 1000000 ≡ ms = omega arith in
      ap (λ k. to_time floats (of_int (pos k))) back
      ∙ ap (λ k. AnyValue.time (wrap 0x8000_0000_0000_0000 (scale 1000000 k)))
          (int_back' 0x8000_0000_0000_0000 (pos ms) (omega (arith, h)) (omega (arith, h)))
      ∙ ap AnyValue.time
          (wrap-IsSigned 0x8000_0000_0000_0000 (pos (1000000 * ms)) (omega (arith, h)))

  pub datetime_back :
      (z : ℤ)
      → IsSigned (2 ^ 52) z
      → to_datetime floats (
          floats.plus
            (floats.over (of_int z) (of_int (pos 1)))
            (floats.times (of_int (pos 315619200)) (of_int (pos 1000))))
        ≡ AnyValue.datetime z
  datetime_back z h =
      let shift : ℤ = pos (1000 * 315619200) in
      let scaled = exact.times-of_int 1000 315619200 (omega arith) in
      let z_exact : IsExact z = IsSigned-IsExact (2 ^ 52) z (omega arith) h in
      let sum_exact : IsExact (z +ℤ shift) = sum-IsExact z h in
      let difference : (z +ℤ shift) -ℤ shift ≡ z = sub_add z (1000 * 315619200) in
      ap (λ x. AnyValue.datetime (floats.as_int 0x8000_0000_0000_0000 x))
        (ap₂ (λ x s. floats.minus (floats.plus x s) s) (exact.over_one (of_int z)) scaled
          ∙ ap (λ x. floats.minus x (of_int shift))
              (exact.plus-of_int z shift z_exact (omega arith) sum_exact)
          ∙ exact.minus-of_int (z +ℤ shift) shift sum_exact (omega arith) (rw difference z_exact)
          ∙ ap of_int difference)
      ∙ ap AnyValue.datetime (
          int_back' 0x8000_0000_0000_0000 z z_exact
            (wider (2 ^ 52) 0x8000_0000_0000_0000 z (omega arith) h))
