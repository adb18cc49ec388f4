-- ===== src/Prelude/Parts.antt =====
-- Texts by their parts: what `contains_char` and `ends_with` say of them.
use stata_parquet_io.Prelude.{
  ℕ, zero, suc, ◌-◌, ◌≡◌, refl, sym, ap, ◌∙◌, ◌↔◌, inl, inr, Bool, true, false, ◌&&◌, [], ◌∷◌, ◌++◌,
  arith, ◌==◌, nat_eq, leb, length, length-append, take, drop, Bool-cases,
}
use stata_parquet_io.Prelude.Text.{Text, text_eq, text_eq_iff, contains_char, ends_with}

pub drop-append : (s t : Text) → drop (length s) (s ++ t) ≡ t
drop-append [] t = refl
drop-append (c ∷ s) t = drop-append s t

pub take-append : (s t : Text) → take (length s) (s ++ t) ≡ s
take-append [] t = refl
take-append (c ∷ s) t = ap (λ r. c ∷ r) (take-append s t)

take-drop : (n : ℕ) (s : Text) → take n s ++ drop n s ≡ s
take-drop zero s = refl
take-drop (suc n) [] = refl
take-drop (suc n) (c ∷ s) = ap (λ r. c ∷ r) (take-drop n s)

pub ends_with-append : (p s : Text) → ends_with p (s ++ p) ≡ true
unfolding ends_with
ends_with-append p s =
    let size : length (s ++ p) - length p ≡ length s = omega (arith, length-append s p) in
    rw (size, drop-append s p, (text_eq_iff p p).1 refl) (ground (arith, length-append s p))

both-true : (a b : Bool) → (a && b) ≡ true → a ≡ true
both-true true b h = refl
both-true false b h = cc

-- A text ends with another exactly if it is something before that.
pub ends_with_iff : (p s : Text) → (ends_with p s ≡ true) ↔ (stem : Text) × (s ≡ stem ++ p)
unfolding ends_with
ends_with_iff p s = (
  λ h.
      let n : ℕ = length s - length p in
      let last : p ≡ drop n s =
        (text_eq_iff p (drop n s)).0
          (both-true (text_eq p (drop n s)) (leb (length p) (length s)) h) in
      (take n s, sym (take-drop n s) ∙ ap (λ r. take n s ++ r) (sym last)),
  λ (stem, e). ap (λ t. ends_with p t) e ∙ ends_with-append p stem,
)

char_inside : (c : ℕ) (a b : Text) → contains_char c (a ++ (c ∷ b)) ≡ true
char_inside c [] b = ground arith
char_inside c (d ∷ a) b = ground (arith, char_inside c a b)

char_found :
    (c : ℕ) (s : Text) → contains_char c s ≡ true → (a : Text) × (b : Text) × (s ≡ a ++ (c ∷ b))
char_found c [] h = absurd (cc h)
char_found c (d ∷ s) h = elim (Bool-cases (d == c)) [
  | inl e ↦ ([], s, ap (λ k. k ∷ s) (ground (arith, e)))
  | inr e ↦
      let (a, b, rest) = char_found c s (ground (arith, h, e)) in (d ∷ a, b, ap (λ r. d ∷ r) rest)
]

-- A character stands in a text exactly if the text splits at it.
pub contains_char_iff :
    (c : ℕ) (s : Text) → (contains_char c s ≡ true) ↔ (a : Text) × (b : Text) × (s ≡ a ++ (c ∷ b))
contains_char_iff c s =
    (char_found c s, λ (a, b, e). ap (λ t. contains_char c t) e ∙ char_inside c a b)
