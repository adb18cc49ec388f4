-- ===== src/StataMetadata/Maps.antt =====
-- `BTreeMap` as an ascending list (src/stata_metadata.rs): what `insert` does to it.
use stata_parquet_io.Prelude.{
  ◌≡◌, refl, sym, ap, ◌∙◌, Bool, true, false, List, [], ◌∷◌, ◌++◌, none, some, arith, ◌==◌, nat_eq,
  if◌then◌else◌, All, Bool-cases, inl, inr,
}
use stata_parquet_io.Prelude.Text.{Text, text_Eq, text_eq, text_eq_iff}
use stata_parquet_io.StataMetadata.{text_lt, find, insert}

text_lt_irrefl : (s : Text) → text_lt s s ≡ false
unfolding text_lt
text_lt_irrefl [] = refl
text_lt_irrefl (c ∷ s) = ground (arith, text_lt_irrefl s)

text_lt_asymm : (s t : Text) → text_lt s t ≡ true → text_lt t s ≡ false
unfolding text_lt
text_lt_asymm [] [] h = refl
text_lt_asymm [] (d ∷ t) h = refl
text_lt_asymm (c ∷ s) [] h = cc
text_lt_asymm (c ∷ s) (d ∷ t) h = ground (arith, h, text_lt_asymm s t)

text_lt-ne : (s t : Text) → text_lt s t ≡ true → text_eq t s ≡ false
unfolding text_lt text_eq
text_lt-ne [] [] h = cc
text_lt-ne [] (d ∷ t) h = refl
text_lt-ne (c ∷ s) [] h = cc
text_lt-ne (c ∷ s) (d ∷ t) h = ground (arith, h, text_lt-ne s t)

nested_if {ℓ} :
    {A : Type ℓ} (b : Bool) (x y z : A)
    → (if b then x else z) ≡ (if b then x else if b then y else z)
nested_if true x y z = refl
nested_if false x y z = refl

-- Two tests that exclude each other may be made in either order.
exchange_if {ℓ} :
    {A : Type ℓ} (a b : Bool)
    → (a ≡ true → b ≡ true → ⊥)
    → (x y z : A) → (if b then y else if a then x else z) ≡ (if a then x else if b then y else z)
exchange_if true true h x y z = absurd (h refl refl)
exchange_if true false h x y z = refl
exchange_if false true h x y z = refl
exchange_if false false h x y z = refl

module _ {ℓ} {V : Type ℓ} where
  -- All keys of the map are below the key.
  abbrev pub AreBelow : List (Text × V) → Text → Type 0
  AreBelow map key = All (λ (entry : Text × V). text_lt entry.0 key ≡ true) map

  abbrev pub AreAbove : Text → List (Text × V) → Type 0
  AreAbove key map = All (λ (entry : Text × V). text_lt key entry.0 ≡ true) map

  abbrev pub IsAscending : List (Text × V) → Type 0
  IsAscending [] = Unit
  IsAscending (entry ∷ map) = AreAbove entry.0 map × IsAscending map

  -- Every key of the first map is below every key of the second.
  abbrev pub AreBefore : List (Text × V) → List (Text × V) → Type 0
  AreBefore map [] = Unit
  AreBefore map (entry ∷ later) = AreBelow map entry.0 × AreBefore map later

  pub insert_last :
      (key : Text) (value : V) (map : List (Text × V))
      → AreBelow map key
      → insert key value map ≡ map ++ ((key, value) ∷ [])
  unfolding insert
  insert_last key value [] below = refl
  insert_last key value ((k, v) ∷ map) (h, below) =
      rw (text_lt-ne k key h, text_lt_asymm k key h)
        (ap (λ l. (k, v) ∷ l) (insert_last key value map below))

  AreBelow-append :
      (map : List (Text × V)) (entry : Text × V) (key : Text)
      → AreBelow map key
      → text_lt entry.0 key ≡ true
      → AreBelow (map ++ (entry ∷ [])) key
  AreBelow-append [] entry key below h = (h, tt)
  AreBelow-append (e ∷ map) entry key (b, below) h = (b, AreBelow-append map entry key below h)

  pub AreBefore-append :
      (map : List (Text × V)) (entry : Text × V) (later : List (Text × V))
      → AreBefore map later
      → AreAbove entry.0 later
      → AreBefore (map ++ (entry ∷ [])) later
  AreBefore-append map entry [] before above = tt
  AreBefore-append map entry (e ∷ later) (b, before) (a, above) =
      (AreBelow-append map entry e.0 b a, AreBefore-append map entry later before above)

  pub AreBefore-nil : (later : List (Text × V)) → AreBefore [] later
  AreBefore-nil [] = tt
  AreBefore-nil (e ∷ later) = (tt, AreBefore-nil later)

  pub find-insert :
      (key : Text) (value : V) (map : List (Text × V)) (n : Text)
      → find n (insert key value map) ≡ (if key == n then some value else find n map)
  unfolding find insert
  find-insert key value [] n = refl
  find-insert key value ((k, v) ∷ map) n = elim (Bool-cases (text_eq key k)) [
    | inl same ↦
        let equal : key ≡ k = (text_eq_iff key k).0 same in
        rw (same, equal) (nested_if (k == n) (some value) (some v) (find n map))
    | inr other ↦ elim (Bool-cases (text_lt key k)) [
      | inl less ↦ rw (other, less) refl
      | inr more ↦
          rw (other, more, find-insert key value map n)
            (exchange_if (key == n) (k == n)
              (λ a b. absurd (
                cc (
                  sym other
                  ∙ (text_eq_iff key k).1 ((text_eq_iff key n).0 a ∙ sym ((text_eq_iff k n).0 b)))))
              (some value) (some v) (find n map))
    ]
  ]

  -- A key below all others is none of them.
  pub find-AreAbove : (key : Text) (map : List (Text × V)) → AreAbove key map → find key map ≡ none
  unfolding find
  find-AreAbove key [] above = refl
  find-AreAbove key ((k, v) ∷ map) (h, above) =
      rw (text_lt-ne key k h) (find-AreAbove key map above)
