-- ===== src/StataMetadata/Pushed.antt =====
-- What the macros hold after `push_metadata_to_macros` (src/stata_metadata.rs).
use stata_parquet_io.Prelude.{ℕ, ◌≡◌, refl, ◌∙◌, false, [], nat_eq, arith, length, unwrap_or}
use stata_parquet_io.Prelude.Text.{Text, codes, text_Eq, text_eq, show_ℕ}
use stata_parquet_io.Write.Columns.{numbered}
use stata_parquet_io.StataMetadata.{
  Macros, StataMetadataEnvelope, set_macro, count_of, write_indexed_list, push_variables,
  push_metadata_to_macros,
}
use stata_parquet_io.StataMetadata.Names.{show_ℕ-ne-word_alone}
use stata_parquet_io.StataMetadata.IndexedList.{
  FitsList, set_macro_self, set_macro_other, HoldsList, write_indexed_list-other,
  write_indexed_list-Holds, HoldsList-agree,
}
use stata_parquet_io.StataMetadata.Variables.{
  name_at, label_at, value_label_at, format_at, notes_at, AgreesAt, IsApart, FitsVariables,
  HoldsVariables, push_variables-IsApart, push_variables-Holds, HoldsVariables-agree,
}
use stata_parquet_io.StataMetadata.ValueLabels.{
  IsAside, FitsLabels, HoldsLabels, push_value_labels-IsAside, push_value_labels-Holds,
}

module _ (envelope : StataMetadataEnvelope) (macros : Macros) where
  -- The macros after each part of the envelope.
  abbrev present : Macros
  present = set_macro (codes "pq_meta_present") (codes "1") macros

  abbrev labelled : Macros
  labelled = set_macro (codes "pq_meta_dataset_label") (unwrap_or envelope.dataset_label []) present

  abbrev noted : Macros
  noted = write_indexed_list (codes "pq_meta_dataset_note") envelope.dataset_notes labelled

  abbrev counted : Macros
  counted = set_macro (codes "pq_meta_count") (show_ℕ (length envelope.variables)) noted

  abbrev filled : Macros
  filled = push_variables 1 envelope.variables counted

  abbrev sized : Macros
  sized = set_macro (codes "pq_meta_vallabel_count") (show_ℕ (length envelope.value_labels)) filled

  abbrev pub pushed : Macros
  pushed = push_metadata_to_macros envelope macros

  -- Macros that value labels leave alone, and those that variables do too.
  pushed-filled :
      (n : Text)
      → ((k : ℕ) → IsAside n k)
      → text_eq n (codes "pq_meta_vallabel_count") ≡ false
      → pushed n ≡ filled n
  unfolding push_metadata_to_macros
  pushed-filled n aside other =
      push_value_labels-IsAside 1 envelope.value_labels sized n (λ k h. aside k)
      ∙ set_macro_other (codes "pq_meta_vallabel_count") (show_ℕ (length envelope.value_labels)) n
          filled other

  pushed-counted :
      (n : Text)
      → ((k : ℕ) → IsAside n k)
      → text_eq n (codes "pq_meta_vallabel_count") ≡ false
      → ((k : ℕ) → IsApart n k)
      → pushed n ≡ counted n
  pushed-counted n aside other apart =
      pushed-filled n aside other
      ∙ push_variables-IsApart 1 envelope.variables counted n (λ k h. apart k)

  pub pushed_count : pushed (codes "pq_meta_count") ≡ show_ℕ (length envelope.variables)
  unfolding text_eq
  pushed_count =
      pushed-counted (codes "pq_meta_count") (λ k. (refl, refl, λ i. refl, λ i. refl)) refl
        (λ k. (refl, refl, refl, refl, refl, λ i. refl))
      ∙ set_macro_self (codes "pq_meta_count") (show_ℕ (length envelope.variables)) noted
          (omega arith)

  pushed-noted :
      (n : Text)
      → ((k : ℕ) → IsAside n k)
      → text_eq n (codes "pq_meta_vallabel_count") ≡ false
      → ((k : ℕ) → IsApart n k)
      → text_eq n (codes "pq_meta_count") ≡ false
      → pushed n ≡ noted n
  pushed-noted n aside other apart more =
      pushed-counted n aside other apart
      ∙ set_macro_other (codes "pq_meta_count") (show_ℕ (length envelope.variables)) n noted more

  pub pushed_dataset_label :
      pushed (codes "pq_meta_dataset_label") ≡ unwrap_or envelope.dataset_label []
  unfolding text_eq
  pushed_dataset_label =
      pushed-noted (codes "pq_meta_dataset_label") (λ k. (refl, refl, λ i. refl, λ i. refl)) refl
        (λ k. (refl, refl, refl, refl, refl, λ i. refl)) refl
      ∙ write_indexed_list-other (codes "pq_meta_dataset_note") envelope.dataset_notes labelled
          (codes "pq_meta_dataset_label") refl (λ j. refl)
      ∙ set_macro_self (codes "pq_meta_dataset_label") (unwrap_or envelope.dataset_label []) present
          (omega arith)

  pub pushed_dataset_notes :
      FitsList (codes "pq_meta_dataset_note") envelope.dataset_notes
      → HoldsList pushed (codes "pq_meta_dataset_note") envelope.dataset_notes
  unfolding text_eq
  pushed_dataset_notes fits =
      HoldsList-agree noted pushed (codes "pq_meta_dataset_note") envelope.dataset_notes
        (pushed-noted (count_of (codes "pq_meta_dataset_note"))
          (λ k. (refl, refl, λ i. refl, λ i. refl)) refl
          (λ k. (refl, refl, refl, refl, refl, λ i. refl)) refl)
        (λ j.
          pushed-noted (numbered (codes "pq_meta_dataset_note") j)
            (λ k. (refl, refl, λ i. refl, λ i. refl)) refl
            (λ k. (refl, refl, refl, refl, refl, λ i. refl)) refl)
        (write_indexed_list-Holds (codes "pq_meta_dataset_note") envelope.dataset_notes labelled
          fits)

  pub pushed_label_count :
      pushed (codes "pq_meta_vallabel_count") ≡ show_ℕ (length envelope.value_labels)
  unfolding push_metadata_to_macros text_eq
  pushed_label_count =
      push_value_labels-IsAside 1 envelope.value_labels sized (codes "pq_meta_vallabel_count")
        (λ k h. (refl, refl, λ i. refl, λ i. refl))
      ∙ set_macro_self (codes "pq_meta_vallabel_count") (show_ℕ (length envelope.value_labels))
          filled (omega arith)

  pub pushed_labels :
      FitsLabels 1 envelope.value_labels → HoldsLabels pushed 1 envelope.value_labels
  unfolding push_metadata_to_macros
  pushed_labels fits = push_value_labels-Holds 1 envelope.value_labels sized fits

  filled-AgreesAt : (j : ℕ) → AgreesAt filled pushed j
  unfolding text_eq
  filled-AgreesAt j =
      let word = λ (c : ℕ) (s : Text). show_ℕ-ne-word_alone j c s in
      (
        pushed-filled (name_at j) (λ k. (refl, refl, λ i. refl, λ i. refl)) refl,
        pushed-filled (label_at j) (λ k. (refl, refl, λ i. refl, λ i. refl)) refl,
        pushed-filled (value_label_at j)
            (λ k.
              (word b'n' _ refl, word b'd' _ refl, λ i. word b'd' _ refl, λ i. word b'd' _ refl))
            (word b'c' _ refl),
        pushed-filled (format_at j) (λ k. (refl, refl, λ i. refl, λ i. refl)) refl,
        pushed-filled (count_of (notes_at j)) (λ k. (refl, refl, λ i. refl, λ i. refl)) refl,
        λ n. pushed-filled (numbered (notes_at j) n) (λ k. (refl, refl, λ i. refl, λ i. refl)) refl,
      )

  pub pushed_variables :
      FitsVariables 1 envelope.variables → HoldsVariables pushed 1 envelope.variables
  pushed_variables fits =
      HoldsVariables-agree filled pushed 1 envelope.variables filled-AgreesAt
        (push_variables-Holds 1 envelope.variables counted fits)
