-- ===== src/Prelude/Decimal.antt =====
-- Numbers printed in decimal digits and read again.
use stata_parquet_io.Prelude.{
  ℕ, zero, suc, ◌+◌, ◌-◌, ◌*◌, ◌/◌, ◌%◌, ◌^◌, ◌≤◌, ◌<◌, ◌≡◌, refl, sym, ap, ◌∙◌, ◌&&◌, [], ◌∷◌,
  some, arith, leb, ltb, ◌==◌, nat_eq, All, Bool-cases, inl, inr, if_true, if_false, bool_ext,
  nat_beq_iff, length, max,
}
use stata_parquet_io.Prelude.Text.{
  Text, text_Eq, text_eq, text_eq_iff, parse_digits, parse_below, parse_usize, decimal_rev,
  rev_onto, show_ℕ,
}

abbrev pub IsDigit : ℕ → Type 0
IsDigit c = (48 ≤ c) × (c ≤ 57)

parse_digits-decimal_rev :
    (fuel bound n : ℕ) (acc : Text)
    → n < fuel
    → n < bound
    → parse_digits bound 0 (rev_onto (decimal_rev fuel n) acc) ≡ parse_digits bound n acc
unfolding parse_digits decimal_rev rev_onto
parse_digits-decimal_rev zero bound n acc h k = absurd (omega arith)
parse_digits-decimal_rev (suc fuel) bound n acc h k = elim (Bool-cases (ltb n 10)) [
  | inl e ↦
      let back : 0 * 10 + (48 + n - 48) ≡ n = omega arith in
      rw e (
        rw back
          (if_true (leb 48 (48 + n) && leb (48 + n) 57 && ltb n bound) _ _ (ground (arith, e))))
  | inr e ↦
      let back : n / 10 * 10 + (48 + n % 10 - 48) ≡ n = omega arith in
      rw e (
        parse_digits-decimal_rev fuel bound (n / 10) ((48 + n % 10) ∷ acc) (ground (arith, e))
          (omega arith)
        ∙ rw back (
            if_true (leb 48 (48 + n % 10) && leb (48 + n % 10) 57 && ltb n bound) _ _
              (ground (arith, e))))
]

-- Lines up with the digits that stand before what is there.
rev_onto-decimal_rev :
    (fuel n : ℕ) (acc : Text)
    → n < fuel
    → All IsDigit acc
    → (c : ℕ) × (s : Text) × (rev_onto (decimal_rev fuel n) acc ≡ c ∷ s) × IsDigit c × All IsDigit s
unfolding decimal_rev rev_onto
rev_onto-decimal_rev zero n acc h a = absurd (omega arith)
rev_onto-decimal_rev (suc fuel) n acc h a = elim (Bool-cases (ltb n 10)) [
  | inl e ↦ rw e (48 + n, acc, refl, (omega arith, ground (arith, e)), a)
  | inr e ↦ rw e (
      rev_onto-decimal_rev fuel (n / 10) ((48 + n % 10) ∷ acc) (ground (arith, e))
        ((omega arith, omega arith), a))
]

pub show_ℕ-digits : (n : ℕ) → (c : ℕ) × (s : Text) × (show_ℕ n ≡ c ∷ s) × IsDigit c × All IsDigit s
unfolding show_ℕ
show_ℕ-digits n = rev_onto-decimal_rev (suc n) n [] (omega arith) tt

parse_digits-show_ℕ : (bound n : ℕ) → n < bound → parse_digits bound 0 (show_ℕ n) ≡ some n
unfolding show_ℕ parse_digits
parse_digits-show_ℕ bound n h = parse_digits-decimal_rev (suc n) bound n [] (omega arith) h

parse_below_digit :
    (bound c : ℕ) (s : Text) → IsDigit c → parse_below bound (c ∷ s) ≡ parse_digits bound 0 (c ∷ s)
unfolding parse_below
parse_below_digit bound c [] h = refl
parse_below_digit bound c (d ∷ s) h = if_false (c == b'+') _ _ (ground (arith, h))

pub parse_usize-show_ℕ : (n : ℕ) → n < 2 ^ 64 → parse_usize (show_ℕ n) ≡ some n
unfolding parse_usize
parse_usize-show_ℕ n h =
    let (c, s, e, digit, digits) = show_ℕ-digits n in
    ap (parse_below (2 ^ 64)) e
    ∙ parse_below_digit (2 ^ 64) c s digit
    ∙ ap (parse_digits (2 ^ 64) 0) (sym e)
    ∙ parse_digits-show_ℕ (2 ^ 64) n h

pub show_ℕ_injective : (m n : ℕ) → show_ℕ m ≡ show_ℕ n → m ≡ n
show_ℕ_injective m n h =
    let one = parse_digits-show_ℕ (m + n + 1) m (omega arith) in
    let two = parse_digits-show_ℕ (m + n + 1) n (omega arith) in
    cc (sym one ∙ ap (parse_digits (m + n + 1) 0) h ∙ two)

-- Printed numbers are equal where the numbers are.
pub text_eq-show_ℕ : (m n : ℕ) → text_eq (show_ℕ m) (show_ℕ n) ≡ (m == n)
text_eq-show_ℕ m n =
    bool_ext (text_eq (show_ℕ m) (show_ℕ n)) (m == n)
      (λ h. (nat_beq_iff m n).1 (show_ℕ_injective m n ((text_eq_iff (show_ℕ m) (show_ℕ n)).0 h)))
      (λ h. (text_eq_iff (show_ℕ m) (show_ℕ n)).1 (ap show_ℕ ((nat_beq_iff m n).0 h)))

-- Ten to the power of the number of digits is above `n`.
abbrev FitsIn : ℕ → ℕ → Type 0
FitsIn zero n = n ≡ 0
FitsIn (suc k) n = FitsIn k (n / 10)

length-decimal_rev :
    (fuel k n : ℕ) (acc : Text)
    → FitsIn k n
    → length (rev_onto (decimal_rev fuel n) acc) ≤ max 1 k + length acc
unfolding decimal_rev rev_onto
length-decimal_rev zero k n acc h = omega arith
length-decimal_rev (suc fuel) zero n acc h = rw h (omega arith)
length-decimal_rev (suc fuel) (suc zero) n acc h =
    rw
      (if_true (ltb n 10) ((48 + n) ∷ []) ((48 + n % 10) ∷ decimal_rev fuel (n / 10))
        (ground (arith, h)))
      (omega arith)
length-decimal_rev (suc fuel) (suc (suc k)) n acc h = elim (Bool-cases (ltb n 10)) [
  | inl e ↦ rw e (omega arith)
  | inr e ↦ rw e (omega (arith, length-decimal_rev fuel (suc k) (n / 10) ((48 + n % 10) ∷ acc) h))
]

pub length-show_ℕ : (n : ℕ) → n < 2 ^ 64 → length (show_ℕ n) ≤ 20
unfolding show_ℕ
length-show_ℕ n h = omega (arith, length-decimal_rev (suc n) 20 n [] (omega arith))
