-- ===== src/StataMetadata/Names.antt =====
-- When two names of macros are the same: names with numbers in them (src/stata_metadata.rs).
use stata_parquet_io.Prelude.{
  ℕ, ◌≡◌, refl, ap, ◌∙◌, true, false, ◌&&◌, [], ◌∷◌, ◌++◌, arith, ◌==◌, nat_eq, leb, All,
}
use stata_parquet_io.Prelude.Text.{Text, text_Eq, text_eq, show_ℕ}
use stata_parquet_io.Prelude.Decimal.{IsDigit, show_ℕ-digits, text_eq-show_ℕ}

-- A number is followed by an underscore, so it ends there.
text_eq-digits :
    (a b s t : Text)
    → All IsDigit a
    → All IsDigit b
    → text_eq (a ++ (b'_' ∷ s)) (b ++ (b'_' ∷ t)) ≡ (text_eq a b && text_eq s t)
unfolding text_eq
text_eq-digits [] [] s t ha hb = refl
text_eq-digits [] (d ∷ b) s t ha (hd, hb) = ground (arith, hd)
text_eq-digits (c ∷ a) [] s t (hc, ha) hb = ground (arith, hc)
text_eq-digits (c ∷ a) (d ∷ b) s t (hc, ha) (hd, hb) = ground (arith, text_eq-digits a b s t ha hb)

pub show_ℕ-IsDigit : (n : ℕ) → All IsDigit (show_ℕ n)
show_ℕ-IsDigit n = let (c, s, e, digit, digits) = show_ℕ-digits n in rw e (digit, digits)

pub text_eq-show_ℕ_underscore :
    (m n : ℕ) (s t : Text)
    → text_eq (show_ℕ m ++ (b'_' ∷ s)) (show_ℕ n ++ (b'_' ∷ t)) ≡ ((m == n) && text_eq s t)
text_eq-show_ℕ_underscore m n s t =
    text_eq-digits (show_ℕ m) (show_ℕ n) s t (show_ℕ-IsDigit m) (show_ℕ-IsDigit n)
    ∙ ap (λ b. b && text_eq s t) (text_eq-show_ℕ m n)

-- A number is not a word, nor does it start one.
pub show_ℕ-ne-word :
    (n c : ℕ) (rest s : Text) → leb 58 c ≡ true → text_eq (show_ℕ n ++ rest) (c ∷ s) ≡ false
unfolding text_eq
show_ℕ-ne-word n c rest s h =
    let (d, t, e, digit, digits) = show_ℕ-digits n in rw e (ground (arith, digit, h))

pub word-ne-show_ℕ :
    (n c : ℕ) (rest s : Text) → leb 58 c ≡ true → text_eq (c ∷ s) (show_ℕ n ++ rest) ≡ false
unfolding text_eq
word-ne-show_ℕ n c rest s h =
    let (d, t, e, digit, digits) = show_ℕ-digits n in rw e (ground (arith, digit, h))

pub show_ℕ-ne-word_alone :
    (n c : ℕ) (s : Text) → leb 58 c ≡ true → text_eq (show_ℕ n) (c ∷ s) ≡ false
unfolding text_eq
show_ℕ-ne-word_alone n c s h =
    let (d, t, e, digit, digits) = show_ℕ-digits n in rw e (ground (arith, digit, h))

pub word-ne-show_ℕ_alone :
    (n c : ℕ) (s : Text) → leb 58 c ≡ true → text_eq (c ∷ s) (show_ℕ n) ≡ false
unfolding text_eq
word-ne-show_ℕ_alone n c s h =
    let (d, t, e, digit, digits) = show_ℕ-digits n in rw e (ground (arith, digit, h))
