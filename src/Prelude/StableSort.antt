-- ===== src/Prelude/StableSort.antt =====
-- A stable sort by a total preorder, as insertion of each row before the rows that do not precede it.
use stata_parquet_io.Prelude.{
  ℕ, zero, suc, ◌≤◌, ◌≡◌, refl, ap, ◌∙◌, inl, inr, Bool, true, false, List, [], ◌∷◌, ◌++◌, arith,
  if◌then◌else◌, take, length, Bool-cases,
}

-- What a comparison of sort keys provides.
pub record Preorder {ℓ} (A : Type ℓ) : Type ℓ where
  pub le : A → A → Bool
  pub total : (a b : A) → le a b ≡ false → le b a ≡ true
  pub trans : (a b c : A) → le a b ≡ true → le b c ≡ true → le a c ≡ true

module _ {ℓ} {A : Type ℓ} (o : Preorder A) where
  open o use {le, total, trans}

  pub insert : A → List A → List A
  insert x [] = x ∷ []
  insert x (y ∷ ys) = if le x y then x ∷ y ∷ ys else y ∷ insert x ys

  unfoldable pub stable_sort : List A → List A
  unfolding insert
  stable_sort [] = []
  stable_sort (x ∷ xs) = insert x (stable_sort xs)

  length-insert : (x : A) (xs : List A) → length (insert x xs) ≡ suc (length xs)
  unfolding insert
  length-insert x [] = refl
  length-insert x (y ∷ ys) = elim (Bool-cases (le x y)) [
    | inl e ↦ rw e refl
    | inr e ↦ rw e (ap suc (length-insert x ys))
  ]

  pub length-stable_sort : (xs : List A) → length (stable_sort xs) ≡ length xs
  unfolding stable_sort
  length-stable_sort [] = refl
  length-stable_sort (x ∷ xs) = length-insert x (stable_sort xs) ∙ ap suc (length-stable_sort xs)

  -- The merge of two sorted runs, the left one first among equals.
  pub merge : List A → List A → List A
  merge [] r = r
  merge (x ∷ l) [] = x ∷ l
  merge (x ∷ l) (y ∷ r) = elim (le x y) [ true ↦ x ∷ merge l (y ∷ r) | false ↦ y ∷ merge (x ∷ l) r ]

  insert-eq-merge : (x : A) (r : List A) → insert x r ≡ merge (x ∷ []) r
  unfolding insert merge
  insert-eq-merge x [] = refl
  insert-eq-merge x (y ∷ r) = ground (arith, insert-eq-merge x r)

  insert-merge : (x : A) (l r : List A) → insert x (merge l r) ≡ merge (insert x l) r
  unfolding insert merge
  insert-merge x [] r = insert-eq-merge x r
  insert-merge x (a ∷ l) [] = ground arith
  insert-merge x (a ∷ l) (b ∷ r) = ground (
    arith,
    insert-merge x l (b ∷ r),
    insert-merge x (a ∷ l) r,
    trans x a b,
    trans x b a,
    total a b,
  )

  -- Sorting a sequence is merging the sorted parts, wherever it is cut.
  pub stable_sort-append :
      (xs ys : List A) → stable_sort (xs ++ ys) ≡ merge (stable_sort xs) (stable_sort ys)
  unfolding stable_sort merge
  stable_sort-append [] ys = refl
  stable_sort-append (x ∷ xs) ys =
      ap (insert x) (stable_sort-append xs ys) ∙ insert-merge x (stable_sort xs) (stable_sort ys)

  take-take : (k j : ℕ) (l : List A) → k ≤ j → take k (take j l) ≡ take k l
  take-take zero j l h = refl
  take-take (suc k) zero l h = absurd (omega arith)
  take-take (suc k) (suc j) [] h = refl
  take-take (suc k) (suc j) (x ∷ l) h = ap (λ t. x ∷ t) (take-take k j l (omega arith))

  -- The first `k` rows of a merge need only the first `j` rows on the left, for any `j ≥ k`.
  pub take-merge :
      (k j : ℕ) (l r : List A) → k ≤ j → take k (merge (take j l) r) ≡ take k (merge l r)
  unfolding merge
  take-merge zero j l r h = refl
  take-merge (suc k) zero l r h = absurd (omega arith)
  take-merge (suc k) (suc j) [] r h = refl
  take-merge (suc k) (suc j) (x ∷ l) [] h = ap (λ t. x ∷ t) (take-take k j l (omega arith))
  take-merge (suc k) (suc j) (x ∷ l) (y ∷ r) h =
      ground (arith, take-merge k j l (y ∷ r), take-merge k (suc j) (x ∷ l) r)

  abbrev pub LeHead : A → List A → Type 0
  LeHead x [] = Unit
  LeHead x (y ∷ ys) = le x y ≡ true

  abbrev pub IsSorted : List A → Type 0
  IsSorted [] = Unit
  IsSorted (x ∷ xs) = LeHead x xs × IsSorted xs

  insert_of_LeHead : (x : A) (ys : List A) → LeHead x ys → insert x ys ≡ x ∷ ys
  unfolding insert
  insert_of_LeHead x [] h = refl
  insert_of_LeHead x (y ∷ ys) h = ground arith

  pub stable_sort_of_IsSorted : (xs : List A) → IsSorted xs → stable_sort xs ≡ xs
  unfolding stable_sort
  stable_sort_of_IsSorted [] h = refl
  stable_sort_of_IsSorted (x ∷ xs) (hd, tl) =
      ap (insert x) (stable_sort_of_IsSorted xs tl) ∙ insert_of_LeHead x xs hd

  LeHead-insert : (a x : A) (ys : List A) → le a x ≡ true → LeHead a ys → LeHead a (insert x ys)
  unfolding insert
  LeHead-insert a x [] h k = h
  LeHead-insert a x (y ∷ ys) h k = ground arith

  insert-IsSorted : (x : A) (ys : List A) → IsSorted ys → IsSorted (insert x ys)
  unfolding insert
  insert-IsSorted x [] h = (tt, tt)
  insert-IsSorted x (y ∷ ys) (hd, tl) = elim (Bool-cases (le x y)) [
    | inl fits ↦ rw fits (fits, (hd, tl))
    | inr late ↦ rw late (LeHead-insert y x ys (total x y late) hd, insert-IsSorted x ys tl)
  ]

  pub stable_sort-IsSorted : (xs : List A) → IsSorted (stable_sort xs)
  unfolding stable_sort
  stable_sort-IsSorted [] = tt
  stable_sort-IsSorted (x ∷ xs) = insert-IsSorted x (stable_sort xs) (stable_sort-IsSorted xs)

  pub take-IsSorted : (k : ℕ) (xs : List A) → IsSorted xs → IsSorted (take k xs)
  take-IsSorted zero xs h = tt
  take-IsSorted (suc k) [] h = tt
  take-IsSorted (suc zero) (x ∷ xs) h = (tt, tt)
  take-IsSorted (suc (suc k)) (x ∷ []) h = (tt, tt)
  take-IsSorted (suc (suc k)) (x ∷ y ∷ xs) (hd, tl) = (hd, take-IsSorted (suc k) (y ∷ xs) tl)
