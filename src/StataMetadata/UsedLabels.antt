-- ===== src/StataMetadata/UsedLabels.antt =====
-- The value labels that `metadata_from_macros` (src/stata_metadata.rs) keeps: those that a variable has.
use stata_parquet_io.Prelude.{
  ◌≡◌, sym, ap, ◌∙◌, Bool, true, false, not, ◌||◌, List, [], ◌∷◌, Option, none, some, ◌==◌,
  if◌then◌else◌, length, is_empty, All, Bool-cases, Option-cases, inl, inr, if_true, if_false,
}
use stata_parquet_io.Prelude.Text.{Text, text_Eq, text_eq_iff}
use stata_parquet_io.StataMetadata.{
  Macros, VariableMetadata, is_none, contains_key, add_definition, add_numbered, find, insert,
  value_label_index, add_value_label,
}
use stata_parquet_io.StataMetadata.ValueLabels.{HoldsLabels}
use stata_parquet_io.StataMetadata.Maps.{IsAscending, find-insert}
use stata_parquet_io.StataMetadata.Gathered.{
  IsDefinition, value_label_index-none, value_label_index-some, find-All,
  read_value_label_definition-eq,
}

abbrev pub names_label : Option Text → Text → Bool
names_label none n = false
names_label (some value_label) n = value_label == n

-- A variable has the value label.
abbrev pub is_used : List (Text × VariableMetadata) → Text → Bool
is_used [] n = false
is_used ((name, var) ∷ variables) n = names_label var.value_label n || is_used variables n

abbrev pub LabelMap : Type 0
LabelMap = List (Text × List (Text × Text))

-- The first map has those entries of the second whose names are used.
abbrev pub IsPart : LabelMap → LabelMap → (Text → Bool) → Type 0
IsPart part value_labels used =
    (n : Text) → find n part ≡ (if used n then find n value_labels else none)

module _ (get : Macros) (value_labels : LabelMap) (holds : HoldsLabels get 1 value_labels)
    (up : IsAscending value_labels)
    (defined : All (λ (entry : Text × List (Text × Text)). IsDefinition entry.1) value_labels) where
  -- A label that is found stands for one more name.
  one_more :
      (part : LabelMap) (used : Text → Bool) (value_label n : Text)
      → find value_label part ≡ find value_label value_labels
      → find n part ≡ (if used n then find n value_labels else none)
      → find n part ≡ (if (value_label == n) || used n then find n value_labels else none)
  one_more part used value_label n here h = elim (Bool-cases (value_label == n)) [
    | inl same ↦
        let equal : value_label ≡ n = (text_eq_iff value_label n).0 same in
        rw same (ap (λ t. find t part) (sym equal) ∙ here ∙ ap (λ t. find t value_labels) equal)
    | inr other ↦ rw other h
  ]

  one_inserted :
      (part : LabelMap) (used : Text → Bool) (value_label n : Text) (defn : List (Text × Text))
      → find value_label value_labels ≡ some defn
      → find n part ≡ (if used n then find n value_labels else none)
      → (if value_label == n then some defn else find n part)
        ≡ (if (value_label == n) || used n then find n value_labels else none)
  one_inserted part used value_label n defn known h = elim (Bool-cases (value_label == n)) [
    | inl same ↦
        rw same (sym known ∙ ap (λ t. find t value_labels) ((text_eq_iff value_label n).0 same))
    | inr other ↦ rw other h
  ]

  found_used :
      (b : Bool) (x : Option (List (Text × Text))) (d : List (Text × Text))
      → some d ≡ (if b then x else none)
      → some d ≡ x
  found_used true x d h = h
  found_used false x d h = absurd (cc h)

  IsPart-eq :
      (part part' : LabelMap) (used : Text → Bool)
      → part' ≡ part
      → IsPart part value_labels used
      → IsPart part' value_labels used
  IsPart-eq part part' used e is_part = λ n. ap (find n) e ∙ is_part n

  pub add_value_label-IsPart :
      (part : LabelMap) (used : Text → Bool) (value_label : Option Text)
      → IsPart part value_labels used
      → IsPart
          (add_value_label get (length value_labels) value_label part)
          value_labels
          (λ n. names_label value_label n || used n)
  unfolding add_value_label
  add_value_label-IsPart part used none is_part = is_part
  add_value_label-IsPart part used (some value_label) is_part =
      let later : LabelMap =
        add_numbered get value_label (value_label_index get 1 (length value_labels) value_label)
          part in
      let more : Text → Bool = λ n. (value_label == n) || used n in
      elim (Option-cases (find value_label part)) [
        | inr (d, there) ↦
            let here : find value_label part ≡ find value_label value_labels =
              there
              ∙ found_used (used value_label) (find value_label value_labels) d
                  (sym there ∙ is_part value_label) in
            IsPart-eq part (if contains_key value_label part then part else later) more
              (if_true (contains_key value_label part) part later (ap (λ o. not (is_none o)) there))
              (λ n. one_more part used value_label n here (is_part n))
        | inl absent ↦
            let skip : (if contains_key value_label part then part else later) ≡ later =
              if_false (contains_key value_label part) part later
                (ap (λ o. not (is_none o)) absent) in
            elim (Option-cases (find value_label value_labels)) [
              | inl unknown ↦
                  let index = value_label_index-none get 1 value_labels value_label holds unknown in
                  IsPart-eq part (if contains_key value_label part then part else later) more
                    (skip ∙ ap (λ o. add_numbered get value_label o part) index)
                    (λ n. one_more part used value_label n (absent ∙ sym unknown) (is_part n))
              | inr (defn, known) ↦
                  let (k, index, held) =
                    value_label_index-some get 1 value_labels value_label defn holds up known in
                  let good : IsDefinition defn =
                    find-All value_labels value_label defn defined known in
                  let read = read_value_label_definition-eq get k value_label defn held good in
                  IsPart-eq (insert value_label defn part)
                    (if contains_key value_label part then part else later) more
                    (skip
                      ∙ ap (λ o. add_numbered get value_label o part) index
                      ∙ ap (λ d. add_definition value_label d part) read
                      ∙ if_false (is_empty defn) part (insert value_label defn part) good.0)
                    (λ n.
                      find-insert value_label defn part n
                      ∙ one_inserted part used value_label n defn known (is_part n))
            ]
      ]
