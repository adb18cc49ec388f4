-- ===== src/Prelude/Membership.antt =====
-- Membership in a list by its Boolean test, and lists with no value twice.
use stata_parquet_io.Prelude.{
  ◌≡◌, refl, Bool, true, false, ◌&&◌, ◌||◌, List, [], ◌∷◌, ◌++◌, arith, PartialEq, ◌==◌, contains,
  retain, any, IsNodup, eqb_refl, Bool-cases, inl, inr,
}

module _ {ℓ} {A : Type ℓ} ⦃q : PartialEq A⦄ where
  pub contains-append :
      (xs ys : List A) (a : A) → contains (xs ++ ys) a ≡ (contains xs a || contains ys a)
  contains-append [] ys a = refl
  contains-append (x ∷ xs) ys a = ground (arith, contains-append xs ys a)

  pub contains-retain :
      (p : A → Bool) (xs : List A) (a : A) → contains (retain p xs) a ≡ (contains xs a && p a)
  contains-retain p [] a = refl
  contains-retain p (x ∷ xs) a = elim (Bool-cases (x == a)) [
    | inl same ↦
        let eq : x ≡ a = (q.eqb_iff x a).0 same in
        rw same (rw eq (ground (arith, contains-retain p xs a, eqb_refl a)))
    | inr other ↦ rw other (ground (arith, contains-retain p xs a))
  ]

  pub contains_here : (xs : List A) (a : A) → contains (a ∷ xs) a ≡ true
  contains_here xs a = rw (eqb_refl a)

  -- A test that holds of one member holds of some member.
  pub any-eq_contains :
      (xs : List A) (a : A) (q : Bool) → any (λ x. (x == a) && q) xs ≡ (contains xs a && q)
  any-eq_contains [] a q = refl
  any-eq_contains (x ∷ xs) a q = ground (arith, any-eq_contains xs a q)

  pub IsNodup-concat :
      (xs : List A) (a : A) → contains xs a ≡ false → IsNodup xs → IsNodup (xs ++ a ∷ [])
  IsNodup-concat [] a h k = (refl, tt)
  IsNodup-concat (x ∷ xs) a h (fresh, k) = (
    ground (arith, contains-append xs (a ∷ []) x, q.eqb_iff x a, q.eqb_iff a x),
    IsNodup-concat xs a (ground arith) k,
  )

  pub IsNodup-retain : (p : A → Bool) (xs : List A) → IsNodup xs → IsNodup (retain p xs)
  IsNodup-retain p [] h = tt
  IsNodup-retain p (x ∷ xs) (fresh, h) = elim (Bool-cases (p x)) [
    | inl keep ↦ rw keep (ground (arith, contains-retain p xs x), IsNodup-retain p xs h)
    | inr lose ↦ rw lose (IsNodup-retain p xs h)
  ]
