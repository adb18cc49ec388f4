-- ===== src/Downcast/Replay/Groups.antt =====
-- The groups of changed columns that `build_type_mapping` makes (src/downcast.rs).
use stata_parquet_io.Prelude.{
  ◌≡◌, ◌≢◌, refl, sym, ap, ◌∙◌, inl, inr, true, ◌||◌, List, [], ◌∷◌, ◌++◌, some, arith, ◌==◌,
  if◌then◌else◌, All, contains, subst, Bool-cases, Option-cases,
}
use stata_parquet_io.Prelude.Membership.{contains-append}
use stata_parquet_io.Prelude.Text.{Text, text_Eq, text_eq_iff, to_ascii_lowercase}
use stata_parquet_io.DataTypes.{DataType, data_type_Eq, data_type_eq_iff, Schema, get}
use stata_parquet_io.Downcast.{push_to_group, build_type_mapping}

abbrev pub grouped : List (Text × List Text) → List Text
grouped [] = []
grouped ((key, columns) ∷ groups) = columns ++ grouped groups

pub All-append_two :
    {A : Type 0} (P : A → Type 0) (xs ys : List A) → All P xs → All P ys → All P (xs ++ ys)
All-append_two P [] ys a b = b
All-append_two P (x ∷ xs) ys (p, a) b = (p, All-append_two P xs ys a b)

push_to_group-grouped :
    (key col c : Text) (groups : List (Text × List Text))
    → contains (grouped (push_to_group key col groups)) c
      ≡ ((col == c) || contains (grouped groups) c)
unfolding push_to_group
push_to_group-grouped key col c [] = ground arith
push_to_group-grouped key col c ((k, columns) ∷ groups) = elim (Bool-cases (k == key)) [
  | inl e ↦
      rw (e, push_to_group)
        (ground (
          arith,
          contains-append (columns ++ (col ∷ [])) (grouped groups) c,
          contains-append columns (col ∷ []) c,
          contains-append columns (grouped groups) c,
        ))
  | inr e ↦
      rw (e, push_to_group)
        (ground (
          arith,
          contains-append columns (grouped (push_to_group key col groups)) c,
          contains-append columns (grouped groups) c,
          push_to_group-grouped key col c groups,
        ))
]

module _ (debug : DataType → Text) (original new : Schema) where
  abbrev pub IsChanged : Text → Text → Type 0
  IsChanged key col =
      (o : DataType) × (n : DataType) × (get original col ≡ some o)
      × (get new col ≡ some n)
      × (o ≢ n)
      × (key ≡ to_ascii_lowercase (debug n))

  abbrev pub IsGroup : Text × List Text → Type 0
  IsGroup (key, columns) = All (IsChanged key) columns

  push_to_group-IsGroup :
      (key col : Text) (groups : List (Text × List Text))
      → IsChanged key col
      → All IsGroup groups
      → All IsGroup (push_to_group key col groups)
  unfolding push_to_group
  push_to_group-IsGroup key col [] c g = ((c, tt), tt)
  push_to_group-IsGroup key col ((k, columns) ∷ groups) c (h, g) = elim (Bool-cases (k == key)) [
    | inl e ↦
        let same : IsChanged k col =
          subst (λ k'. IsChanged k' col) (sym ((text_eq_iff k key).0 e)) c in
        rw (e, push_to_group) (All-append_two (IsChanged k) columns (col ∷ []) h (same, tt), g)
    | inr e ↦ rw (e, push_to_group) (h, push_to_group-IsGroup key col groups c g)
  ]

  pub build-IsGroup :
      (groups : List (Text × List Text)) (columns : List Text)
      → All IsGroup groups
      → All IsGroup (build_type_mapping debug original new groups columns)
  unfolding build_type_mapping
  build-IsGroup groups [] g = g
  build-IsGroup groups (col ∷ columns) g = elim (Option-cases (get original col)) [
    | inl e ↦ rw (e, build_type_mapping) (build-IsGroup groups columns g)
    | inr (o, e) ↦ elim (Option-cases (get new col)) [
      | inl f ↦ rw (e, f, build_type_mapping) (build-IsGroup groups columns g)
      | inr (n, f) ↦ elim (Bool-cases (o == n)) [
        | inl same ↦ rw (e, f, same, build_type_mapping) (build-IsGroup groups columns g)
        | inr other ↦
            rw (e, f, other, build_type_mapping)
              (build-IsGroup (push_to_group (to_ascii_lowercase (debug n)) col groups) columns (
                push_to_group-IsGroup _ col groups
                  (o, n, e, f, λ alike. ground (arith, other, (data_type_eq_iff o n).1 alike), refl)
                  g))
      ]
    ]
  ]

  -- A column stays in its group, and a changed one among the columns gets into one.
  build-grouped :
      (groups : List (Text × List Text)) (columns : List Text) (c : Text)
      → contains (grouped groups) c ≡ true
      → contains (grouped (build_type_mapping debug original new groups columns)) c ≡ true
  unfolding build_type_mapping
  build-grouped groups [] c h = h
  build-grouped groups (col ∷ columns) c h = elim (Option-cases (get original col)) [
    | inl e ↦ rw (e, build_type_mapping) (build-grouped groups columns c h)
    | inr (o, e) ↦ elim (Option-cases (get new col)) [
      | inl f ↦ rw (e, f, build_type_mapping) (build-grouped groups columns c h)
      | inr (n, f) ↦ elim (Bool-cases (o == n)) [
        | inl same ↦ rw (e, f, same, build_type_mapping) (build-grouped groups columns c h)
        | inr other ↦
            let key : Text = to_ascii_lowercase (debug n) in
            rw (e, f, other, build_type_mapping)
              (build-grouped (push_to_group key col groups) columns c
                (ground (arith, h, push_to_group-grouped key col c groups)))
      ]
    ]
  ]

  pub build-finds :
      (groups : List (Text × List Text)) (columns : List Text) (c : Text) (o n : DataType)
      → contains columns c ≡ true
      → get original c ≡ some o
      → get new c ≡ some n
      → o ≢ n
      → contains (grouped (build_type_mapping debug original new groups columns)) c ≡ true
  unfolding build_type_mapping
  build-finds groups [] c o n h e f ne = absurd cc
  build-finds groups (col ∷ columns) c o n h e f ne = elim (Bool-cases (col == c)) [
    | inl here ↦
        let e' : get original col ≡ some o = ap (get original) ((text_eq_iff col c).0 here) ∙ e in
        let f' : get new col ≡ some n = ap (get new) ((text_eq_iff col c).0 here) ∙ f in
        let key : Text = to_ascii_lowercase (debug n) in
        elim (Bool-cases (o == n)) [
          | inl alike ↦ absurd (ne ((data_type_eq_iff o n).0 alike))
          | inr other ↦
              rw (e', f', other, build_type_mapping)
                (build-grouped (push_to_group key col groups) columns c
                  (ground (arith, here, push_to_group-grouped key col c groups)))
        ]
    | inr away ↦
        let later : contains columns c ≡ true = ground (arith, h, away) in
        elim (Option-cases (get original col)) [
          | inl e' ↦ rw (e', build_type_mapping) (build-finds groups columns c o n later e f ne)
          | inr (o', e') ↦ elim (Option-cases (get new col)) [
            | inl f' ↦
                rw (e', f', build_type_mapping) (build-finds groups columns c o n later e f ne)
            | inr (n', f') ↦
                rw (e', f', build_type_mapping)
                  (build-finds
                    (if o' == n'
                      then groups
                      else push_to_group (to_ascii_lowercase (debug n')) col groups)
                    columns c o n later e f ne)
          ]
        ]
  ]
