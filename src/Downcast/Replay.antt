-- ===== src/Downcast/Replay.antt =====
-- The record of new types that `intelligent_downcast` leaves and `apply_cast` reads (src/downcast.rs):
-- cast by it, a frame with the original schema has the new types.
pub mod Groups
use stata_parquet_io.Prelude.{
  ◌≡◌, ◌≢◌, refl, sym, ap, ◌∙◌, ◌⊎◌, inl, inr, true, ◌||◌, List, [], ◌∷◌, ◌++◌, map, Option, some,
  some_injective, arith, Outcome, ok, err, ok_injective, Outcome-cases, ◌==◌, if◌then◌else◌, All,
  contains, subst, Bool-cases, Option-cases,
}
use stata_parquet_io.Prelude.Membership.{contains-append}
use stata_parquet_io.Prelude.Text.{Text, text_Eq, text_eq_iff, to_ascii_lowercase}
use stata_parquet_io.DataTypes.{DataType, data_type_Eq, data_type_eq_iff, Schema, get}
use stata_parquet_io.Downcast.{
  push_to_group, build_type_mapping, parse_data_type, group_casts, mapping_casts,
}
use stata_parquet_io.Downcast.Replay.Groups.{
  grouped, All-append_two, IsChanged, IsGroup, build-IsGroup, build-finds,
}

-- The type of a column after casts, the last of which counts.
abbrev pub recast : List (Text × DataType) → Text → DataType → DataType
recast [] col t = t
recast ((name, u) ∷ casts) col t = recast casts col (if name == col then u else t)

abbrev names : List (Text × DataType) → List Text
names casts = map (λ c. c.0) casts

names-append : (xs ys : List (Text × DataType)) → names (xs ++ ys) ≡ names xs ++ names ys
names-append [] ys = refl
names-append ((c, t) ∷ xs) ys = ap (λ l. c ∷ l) (names-append xs ys)

err-ok : {x : Text} {t : DataType} → ◌≡◌ {A = Outcome Text DataType} (err x) (ok t) → ⊥
err-ok h = cc

module _ (debug : DataType → Text) (original new : Schema)
    -- A type that a column changed to parses back from its printed form.
    (parses : (col : Text) (o n : DataType)
      → get original col ≡ some o
      → get new col ≡ some n
      → o ≢ n
      → parse_data_type (to_ascii_lowercase (debug n)) ≡ ok n) where
  abbrev IsNew : Text × DataType → Type 0
  IsNew (col, t) = get new col ≡ some t

  group_casts-IsNew :
      (key : Text) (t : DataType) (columns : List Text)
      → parse_data_type key ≡ ok t
      → All (IsChanged debug original new key) columns
      → All IsNew (group_casts original t columns)
        × ((c : Text)
            → contains columns c ≡ true
            → contains (names (group_casts original t columns)) c ≡ true)
  unfolding group_casts
  group_casts-IsNew key t [] p a = (tt, λ c h. h)
  group_casts-IsNew key t (col ∷ columns) p ((o, n, e, f, ne, k), a) =
      let (fresh, found) = group_casts-IsNew key t columns p a in
      let same : n ≡ t =
        ok_injective (sym (parses col o n e f ne) ∙ ap parse_data_type (sym k) ∙ p) in
      rw (e, group_casts) ((f ∙ ap some same, fresh), λ c h. ground (arith, h, found c))

  -- A changed column's group has a type.
  no_columns :
      (key x : Text) (columns : List Text)
      → parse_data_type key ≡ err x
      → All (IsChanged debug original new key) columns
      → columns ≡ []
  no_columns key x [] p a = refl
  no_columns key x (col ∷ columns) p ((o, n, e, f, ne, k), a) =
      absurd (err-ok (sym p ∙ ap parse_data_type k ∙ parses col o n e f ne))

  mapping_casts-IsNew :
      (groups : List (Text × List Text))
      → All (IsGroup debug original new) groups
      → All IsNew (mapping_casts original groups)
        × ((c : Text)
            → contains (grouped groups) c ≡ true
            → contains (names (mapping_casts original groups)) c ≡ true)
  unfolding mapping_casts
  mapping_casts-IsNew [] g = (tt, λ c h. h)
  mapping_casts-IsNew ((key, columns) ∷ groups) (a, g) =
      let (fresh, found) = mapping_casts-IsNew groups g in
      elim (Outcome-cases (parse_data_type key)) [
        | inl (t, p) ↦
            let (fresh', found') = group_casts-IsNew key t columns p a in
            rw (p, mapping_casts)
              (
                All-append_two IsNew (group_casts original t columns)
                    (mapping_casts original groups) fresh' fresh,
                λ c h.
                    ap (λ l. contains l c)
                      (names-append (group_casts original t columns)
                        (mapping_casts original groups))
                    ∙ ground (
                      arith,
                      h,
                      found c,
                      found' c,
                      contains-append columns (grouped groups) c,
                      contains-append (names (group_casts original t columns))
                          (names (mapping_casts original groups)) c,
                    ),
              )
        | inr (x, p) ↦
            rw (p, mapping_casts)
              (
                fresh,
                λ c h. found c (
                    ap (λ l. contains (l ++ grouped groups) c) (sym (no_columns key x columns p a))
                    ∙ h),
              )
      ]

  -- The last cast of a column gives it its new type.
  recast-IsNew :
      (casts : List (Text × DataType)) (c : Text) (n t : DataType)
      → All IsNew casts
      → get new c ≡ some n
      → (contains (names casts) c ≡ true) ⊎ (t ≡ n)
      → recast casts c t ≡ n
  recast-IsNew [] c n t a f (inl h) = absurd cc
  recast-IsNew [] c n t a f (inr h) = h
  recast-IsNew ((col, u) ∷ casts) c n t (fresh, a) f h = elim (Bool-cases (col == c)) [
    | inl here ↦
        let same : u ≡ n =
          some_injective (sym fresh ∙ ap (get new) ((text_eq_iff col c).0 here) ∙ f) in
        rw here (recast-IsNew casts c n u a f (inr same))
    | inr away ↦ rw away (
        recast-IsNew casts c n t a f
          (elim h [ inl x ↦ inl (ground (arith, x, away)) | inr y ↦ inr y ]))
  ]

  -- Each column that was looked at and stands in both schemas: cast by the record of the new types, it
  -- has the type of the new schema, whether it changed or not.
  pub mapping_casts-build_type_mapping :
      (columns : List Text) (col : Text) (o n : DataType)
      → contains columns col ≡ true
      → get original col ≡ some o
      → get new col ≡ some n
      → recast (mapping_casts original (build_type_mapping debug original new [] columns)) col o ≡ n
  mapping_casts-build_type_mapping columns col o n h e f =
      let groups : List (Text × List Text) = build_type_mapping debug original new [] columns in
      let (fresh, found) =
        mapping_casts-IsNew groups (build-IsGroup debug original new [] columns tt) in
      recast-IsNew (mapping_casts original groups) col n o fresh f (elim (Bool-cases (o == n)) [
        | inl same ↦ inr ((data_type_eq_iff o n).0 same)
        | inr other ↦ inl (
            found col (
              build-finds debug original new [] columns col o n h e f
                (λ alike. ground (arith, other, (data_type_eq_iff o n).1 alike))))
      ])
