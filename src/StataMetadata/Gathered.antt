-- ===== src/StataMetadata/Gathered.antt =====
-- What `metadata_from_macros` (src/stata_metadata.rs) gathers from macros that hold value labels and
-- variables.
use stata_parquet_io.Prelude.{
  ℕ, ◌+◌, ◌^◌, ◌<◌, ◌≡◌, refl, sym, ap, ap₂, ◌∙◌, false, List, [], ◌∷◌, ◌++◌, append_assoc,
  append-nil, none, some, nat_eq, if◌then◌else◌, length, is_empty, All, Bool-cases, some_injective,
  inl, inr, if_true, if_false,
}
use stata_parquet_io.Prelude.Text.{Text, text_Eq, text_eq, text_eq_iff}
use stata_parquet_io.StataMetadata.{
  Macros, find, insert, definition_from, read_value_label_definition, value_label_index,
  usize_or_zero,
}
use stata_parquet_io.StataMetadata.IndexedList.{usize_or_zero-show_ℕ}
use stata_parquet_io.StataMetadata.ValueLabels.{
  code_at, text_at, HoldsDefinition, HoldsLabel, HoldsLabels,
}
use stata_parquet_io.StataMetadata.Maps.{
  IsAscending, AreBefore, insert_last, AreBefore-append, AreBefore-nil, find-AreAbove,
}

-- A definition that can be read back: pairs in order of their codes, none of which is empty.
abbrev pub IsDefinition : List (Text × Text) → Type 0
IsDefinition defn =
    (is_empty defn ≡ false)
    × (length defn < 2 ^ 64)
    × IsAscending defn
    × All (λ (pair : Text × Text). is_empty pair.0 ≡ false) defn

definition_from-eq :
    (get : Macros) (m i : ℕ) (defn acc : List (Text × Text))
    → HoldsDefinition get m i defn
    → All (λ (pair : Text × Text). is_empty pair.0 ≡ false) defn
    → IsAscending defn
    → AreBefore acc defn
    → definition_from get m i (length defn) acc ≡ acc ++ defn
unfolding definition_from
definition_from-eq get m i [] acc h full up before = sym (append-nil acc)
definition_from-eq get m i ((code, text) ∷ defn) acc (c, t, h) (some_code, full) (above, up)
      (below, before) =
    let step : (if is_empty (get (code_at m i))
          then acc
          else insert (get (code_at m i)) (get (text_at m i)) acc)
        ≡ acc ++ ((code, text) ∷ []) =
      ap₂ (λ a b. if is_empty a then acc else insert a b acc) c t
      ∙ if_false (is_empty code) acc (insert code text acc) some_code
      ∙ insert_last code text acc below in
    ap (definition_from get m (i + 1) (length defn)) step
    ∙ definition_from-eq get m (i + 1) defn (acc ++ ((code, text) ∷ [])) h full up
        (AreBefore-append acc (code, text) defn before above)
    ∙ append_assoc acc ((code, text) ∷ []) defn

pub read_value_label_definition-eq :
    (get : Macros) (m : ℕ) (name : Text) (defn : List (Text × Text))
    → HoldsLabel get m (name, defn)
    → IsDefinition defn
    → read_value_label_definition get m ≡ defn
unfolding read_value_label_definition
read_value_label_definition-eq get m name defn (n, size, h) (some_pair, short, up, full) =
    ap (λ count. definition_from get m 1 count [])
      (ap usize_or_zero size ∙ usize_or_zero-show_ℕ (length defn) short)
    ∙ definition_from-eq get m 1 defn [] h full up (AreBefore-nil defn)

pub value_label_index-none :
    (get : Macros) (m : ℕ) (value_labels : List (Text × List (Text × Text))) (name : Text)
    → HoldsLabels get m value_labels
    → find name value_labels ≡ none
    → value_label_index get m (length value_labels) name ≡ none
unfolding value_label_index find
value_label_index-none get m [] name h e = refl
value_label_index-none get m ((n, defn) ∷ value_labels) name ((named, sized, held), h) e =
    elim (Bool-cases (text_eq n name)) [
      | inl same ↦ absurd (cc (sym (if_true (text_eq n name) _ _ same) ∙ e))
      | inr other ↦
          let rest : find name value_labels ≡ none =
            sym (if_false (text_eq n name) _ _ other) ∙ e in
          rw (value_label_index-none get (m + 1) value_labels name h rest, named, other) refl
    ]

pub value_label_index-some :
    (get : Macros) (m : ℕ) (value_labels : List (Text × List (Text × Text))) (name : Text)
    (defn : List (Text × Text))
    → HoldsLabels get m value_labels
    → IsAscending value_labels
    → find name value_labels ≡ some defn
    → (k : ℕ) × (value_label_index get m (length value_labels) name ≡ some k)
      × HoldsLabel get k (name, defn)
unfolding value_label_index find
value_label_index-some get m [] name defn h up e = absurd (cc e)
value_label_index-some get m ((n, d) ∷ value_labels) name defn ((named, sized, held), h) (above, up)
      e =
    elim (Bool-cases (text_eq n name)) [
      | inl same ↦
          let equal : n ≡ name = (text_eq_iff n name).0 same in
          let found : d ≡ defn = some_injective (sym (if_true (text_eq n name) _ _ same) ∙ e) in
          let rest : find name value_labels ≡ none =
            ap (λ t. find t value_labels) (sym equal) ∙ find-AreAbove n value_labels above in
          (
            m,
            rw (value_label_index-none get (m + 1) value_labels name h rest, named, same) refl,
            (named ∙ equal, rw (sym found) sized, rw (sym found) held),
          )
      | inr other ↦
          let rest : find name value_labels ≡ some defn =
            sym (if_false (text_eq n name) _ _ other) ∙ e in
          let (k, index, holds) =
            value_label_index-some get (m + 1) value_labels name defn h up rest in
          (k, rw index refl, holds)
    ]

pub find-All :
    (map : List (Text × List (Text × Text))) (name : Text) (defn : List (Text × Text))
    → All (λ (entry : Text × List (Text × Text)). IsDefinition entry.1) map
    → find name map ≡ some defn
    → IsDefinition defn
unfolding find
find-All [] name defn all e = absurd (cc e)
find-All ((n, d) ∷ map) name defn (here, all) e = elim (Bool-cases (text_eq n name)) [
  | inl same ↦ rw (some_injective (sym (sym (if_true (text_eq n name) _ _ same) ∙ e))) here
  | inr other ↦ find-All map name defn all (sym (if_false (text_eq n name) _ _ other) ∙ e)
]
