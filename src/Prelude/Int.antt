-- ===== src/Prelude/Int.antt =====
-- The machine integers `i64` and `i128` as signed integers over the native numbers.
use stata_parquet_io.Prelude.{
  ℕ, suc, ◌+◌, ◌-◌, ◌*◌, ◌/◌, ◌%◌, ◌≤◌, ◌<◌, ◌≡◌, Bool, arith, leb, ltb, if◌then◌else◌, if_true,
}

-- `negsuc n` is -(n + 1).
pub data ℤ : Type 0 where
  pos : ℕ → ℤ
  negsuc : ℕ → ℤ

abbrev pub pos_part : ℤ → ℕ
pos_part (pos n) = n
pos_part (negsuc n) = 0

abbrev pub neg_part : ℤ → ℕ
neg_part (pos n) = 0
neg_part (negsuc n) = suc n

-- a - b, as an integer.
abbrev pub sub_ℕ : ℕ → ℕ → ℤ
sub_ℕ a b = if leb b a then pos (a - b) else negsuc (b - a - 1)

infixl 65 ◌+ℤ◌ ◌-ℤ◌
infix 50 ◌≤ℤ◌
unfoldable pub ◌+ℤ◌ : ℤ → ℤ → ℤ
a +ℤ b = sub_ℕ (pos_part a + pos_part b) (neg_part a + neg_part b)

unfoldable pub ◌-ℤ◌ : ℤ → ℤ → ℤ
a -ℤ b = sub_ℕ (pos_part a + neg_part b) (neg_part a + pos_part b)

abbrev pub ◌≤ℤ◌ : ℤ → ℤ → Type 0
a ≤ℤ b = pos_part a + neg_part b ≤ pos_part b + neg_part a

abbrev pub leb_ℤ : ℤ → ℤ → Bool
leb_ℤ a b = leb (pos_part a + neg_part b) (pos_part b + neg_part a)

abbrev pub min_ℤ : ℤ → ℤ → ℤ
min_ℤ a b = if leb_ℤ a b then a else b

abbrev pub max_ℤ : ℤ → ℤ → ℤ
max_ℤ a b = if leb_ℤ a b then b else a

-- `k` times an integer, and its quotient toward zero.
abbrev pub scale : ℕ → ℤ → ℤ
scale k (pos n) = pos (k * n)
scale k (negsuc n) = sub_ℕ 0 (k * suc n)

abbrev pub quot : ℕ → ℤ → ℤ
quot k (pos n) = pos (n / k)
quot k (negsuc n) = sub_ℕ 0 (suc n / k)

-- Two's complement of twice `half` values.
unfoldable pub wrap : ℕ → ℤ → ℤ
wrap half (pos n) = let m = n % (2 * half) in if ltb m half then pos m else sub_ℕ m (2 * half)
wrap half (negsuc n) =
    let m = n % (2 * half) in if ltb m half then negsuc m else pos (2 * half - 1 - m)

-- A signed integer of twice `half` values.
abbrev pub IsSigned : ℕ → ℤ → Type 0
IsSigned half (pos n) = n < half
IsSigned half (negsuc n) = n < half

pub wrap-IsSigned : (half : ℕ) (z : ℤ) → IsSigned half z → wrap half z ≡ z
unfolding wrap
wrap-IsSigned half (pos n) h =
    let back : n % (2 * half) ≡ n = grind arith in
    rw back (if_true (ltb n half) (pos n) (sub_ℕ n (2 * half)) (ground (arith, h)))
wrap-IsSigned half (negsuc n) h =
    let back : n % (2 * half) ≡ n = grind arith in
    rw back (if_true (ltb n half) (negsuc n) (pos (2 * half - 1 - n)) (ground (arith, h)))
