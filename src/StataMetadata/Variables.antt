-- ===== src/StataMetadata/Variables.antt =====
-- What the macros hold of the variables of an envelope (src/stata_metadata.rs), and what leaves it alone.
use stata_parquet_io.Prelude.{
  ℕ, ◌+◌, ◌≤◌, ◌<◌, ◌≡◌, refl, ap, ◌∙◌, false, ◌&&◌, List, [], ◌∷◌, ◌++◌, arith, ◌==◌, nat_eq,
  unwrap_or,
}
use stata_parquet_io.Prelude.Text.{Text, codes, text_Eq, text_eq, show_ℕ}
use stata_parquet_io.Write.Columns.{numbered}
use stata_parquet_io.StataMetadata.{
  Macros, VariableMetadata, set_macro, count_of, push_variable, push_variables,
}
use stata_parquet_io.StataMetadata.Names.{text_eq-show_ℕ_underscore}
use stata_parquet_io.StataMetadata.IndexedList.{
  numbered-ne, IsName, FitsList, set_macro_self, set_macro_other, HoldsList,
  write_indexed_list-other, write_indexed_list-Holds, HoldsList-agree,
}

abbrev pub name_at : ℕ → Text
name_at i = numbered (codes "pq_meta_name") i

abbrev pub label_at : ℕ → Text
label_at i = numbered (codes "pq_meta_label") i

abbrev pub value_label_at : ℕ → Text
value_label_at i = numbered (codes "pq_meta_vallabel") i

abbrev pub format_at : ℕ → Text
format_at i = numbered (codes "pq_meta_format") i

abbrev pub notes_at : ℕ → Text
notes_at i = numbered (codes "pq_meta_note") i

-- The macros of variable `i` read the same.
abbrev pub AgreesAt : Macros → Macros → ℕ → Type 0
AgreesAt get get' i =
    (get' (name_at i) ≡ get (name_at i))
    × (get' (label_at i) ≡ get (label_at i))
    × (get' (value_label_at i) ≡ get (value_label_at i))
    × (get' (format_at i) ≡ get (format_at i))
    × (get' (count_of (notes_at i)) ≡ get (count_of (notes_at i)))
    × ((k : ℕ) → get' (numbered (notes_at i) k) ≡ get (numbered (notes_at i) k))

abbrev pub HoldsVariable : Macros → ℕ → Text × VariableMetadata → Type 0
HoldsVariable get i (name, var) =
    (get (name_at i) ≡ name)
    × (get (label_at i) ≡ unwrap_or var.label [])
    × (get (value_label_at i) ≡ unwrap_or var.value_label [])
    × (get (format_at i) ≡ unwrap_or var.format [])
    × HoldsList get (notes_at i) var.notes

-- All names of the macros of a variable can be set.
abbrev pub FitsVariable : ℕ → Text × VariableMetadata → Type 0
FitsVariable i (name, var) =
    IsName (name_at i)
    × IsName (label_at i)
    × IsName (value_label_at i)
    × IsName (format_at i)
    × FitsList (notes_at i) var.notes

abbrev pub FitsVariables : ℕ → List (Text × VariableMetadata) → Type 0
FitsVariables i [] = Unit
FitsVariables i (variable ∷ variables) = FitsVariable i variable × FitsVariables (i + 1) variables

abbrev pub HoldsVariables : Macros → ℕ → List (Text × VariableMetadata) → Type 0
HoldsVariables get i [] = Unit
HoldsVariables get i (variable ∷ variables) =
    HoldsVariable get i variable × HoldsVariables get (i + 1) variables

-- A name that is none of those of variable `i`.
abbrev pub IsApart : Text → ℕ → Type 0
IsApart n i =
    (text_eq n (name_at i) ≡ false)
    × (text_eq n (label_at i) ≡ false)
    × (text_eq n (value_label_at i) ≡ false)
    × (text_eq n (format_at i) ≡ false)
    × (text_eq n (count_of (notes_at i)) ≡ false)
    × ((k : ℕ) → text_eq n (numbered (notes_at i) k) ≡ false)

-- The macros after each text of a variable.
module _ (i : ℕ) (name : Text) (var : VariableMetadata) (m : Macros) where
  abbrev named : Macros
  named = set_macro (name_at i) name m

  abbrev labelled : Macros
  labelled = set_macro (label_at i) (unwrap_or var.label []) named

  abbrev typed : Macros
  typed = set_macro (value_label_at i) (unwrap_or var.value_label []) labelled

  abbrev formatted : Macros
  formatted = set_macro (format_at i) (unwrap_or var.format []) typed

  push_variable-IsApart : (n : Text) → IsApart n i → push_variable i (name, var) m n ≡ m n
  unfolding push_variable
  push_variable-IsApart n (not_name, not_label, not_value_label, not_format, not_count, not_note) =
      write_indexed_list-other (notes_at i) var.notes formatted n not_count not_note
      ∙ set_macro_other (format_at i) (unwrap_or var.format []) n typed not_format
      ∙ set_macro_other (value_label_at i) (unwrap_or var.value_label []) n labelled not_value_label
      ∙ set_macro_other (label_at i) (unwrap_or var.label []) n named not_label
      ∙ set_macro_other (name_at i) name n m not_name

  push_variable-Holds :
      FitsVariable i (name, var) → HoldsVariable (push_variable i (name, var) m) i (name, var)
  unfolding push_variable text_eq
  push_variable-Holds (fits_name, fits_label, fits_value_label, fits_format, fits_notes) = (
    write_indexed_list-other (notes_at i) var.notes formatted (name_at i) refl (λ k. refl)
        ∙ set_macro_self (name_at i) name m fits_name,
    write_indexed_list-other (notes_at i) var.notes formatted (label_at i) refl (λ k. refl)
        ∙ set_macro_self (label_at i) (unwrap_or var.label []) named fits_label,
    write_indexed_list-other (notes_at i) var.notes formatted (value_label_at i) refl (λ k. refl)
        ∙ set_macro_self (value_label_at i) (unwrap_or var.value_label []) labelled
            fits_value_label,
    write_indexed_list-other (notes_at i) var.notes formatted (format_at i) refl (λ k. refl)
        ∙ set_macro_self (format_at i) (unwrap_or var.format []) typed fits_format,
    write_indexed_list-Holds (notes_at i) var.notes formatted fits_notes,
  )

pub push_variables-IsApart :
    (i : ℕ) (variables : List (Text × VariableMetadata)) (m : Macros) (n : Text)
    → ((j : ℕ) → i ≤ j → IsApart n j)
    → push_variables i variables m n ≡ m n
unfolding push_variables
push_variables-IsApart i [] m n apart = refl
push_variables-IsApart i ((name, var) ∷ variables) m n apart =
    push_variables-IsApart (i + 1) variables (push_variable i (name, var) m) n
      (λ j h. apart j (omega arith))
    ∙ push_variable-IsApart i name var m n (apart i (omega arith))

module _ (i j : ℕ) (differ : (i == j) ≡ false) where
  notes-ne : (s t : Text) → text_eq (notes_at i ++ (b'_' ∷ s)) (notes_at j ++ (b'_' ∷ t)) ≡ false
  unfolding text_eq
  notes-ne s t = text_eq-show_ℕ_underscore i j s t ∙ ap (λ b. b && text_eq s t) differ

  name-IsApart : IsApart (name_at i) j
  unfolding text_eq
  name-IsApart = (numbered-ne (codes "pq_meta_name") i j differ, refl, refl, refl, refl, λ k. refl)

  label-IsApart : IsApart (label_at i) j
  unfolding text_eq
  label-IsApart =
      (refl, numbered-ne (codes "pq_meta_label") i j differ, refl, refl, refl, λ k. refl)

  value_label-IsApart : IsApart (value_label_at i) j
  unfolding text_eq
  value_label-IsApart =
      (refl, refl, numbered-ne (codes "pq_meta_vallabel") i j differ, refl, refl, λ k. refl)

  format-IsApart : IsApart (format_at i) j
  unfolding text_eq
  format-IsApart =
      (refl, refl, refl, numbered-ne (codes "pq_meta_format") i j differ, refl, λ k. refl)

  note-IsApart : (s : Text) → IsApart (notes_at i ++ (b'_' ∷ s)) j
  unfolding text_eq
  note-IsApart s = (refl, refl, refl, refl, notes-ne s (codes "count"), λ k. notes-ne s (show_ℕ k))

-- Variables that are pushed later leave those before alone.
push_variables-AgreesAt :
    (i : ℕ) (variables : List (Text × VariableMetadata)) (m : Macros) (j : ℕ)
    → j < i
    → AgreesAt m (push_variables i variables m) j
push_variables-AgreesAt i variables m j h =
    let away : (k : ℕ) → i ≤ k → (j == k) ≡ false = λ k le. ground (arith, h, le) in
    (
      push_variables-IsApart i variables m (name_at j) (λ k le. name-IsApart j k (away k le)),
      push_variables-IsApart i variables m (label_at j) (λ k le. label-IsApart j k (away k le)),
      push_variables-IsApart i variables m (value_label_at j)
          (λ k le. value_label-IsApart j k (away k le)),
      push_variables-IsApart i variables m (format_at j) (λ k le. format-IsApart j k (away k le)),
      push_variables-IsApart i variables m (count_of (notes_at j))
          (λ k le. note-IsApart j k (away k le) (codes "count")),
      λ n.
          push_variables-IsApart i variables m (numbered (notes_at j) n)
            (λ k le. note-IsApart j k (away k le) (show_ℕ n)),
    )

HoldsVariable-agree :
    (get get' : Macros) (i : ℕ) (variable : Text × VariableMetadata)
    → AgreesAt get get' i
    → HoldsVariable get i variable
    → HoldsVariable get' i variable
HoldsVariable-agree get get' i (name, var) (a, b, c, d, count, note)
      (name', label', value_label', format', notes') =
    (
      a ∙ name',
      b ∙ label',
      c ∙ value_label',
      d ∙ format',
      HoldsList-agree get get' (notes_at i) var.notes count note notes',
    )

pub push_variables-Holds :
    (i : ℕ) (variables : List (Text × VariableMetadata)) (m : Macros)
    → FitsVariables i variables
    → HoldsVariables (push_variables i variables m) i variables
unfolding push_variables
push_variables-Holds i [] m fits = tt
push_variables-Holds i ((name, var) ∷ variables) m (fit, fits) =
    let pushed : Macros = push_variable i (name, var) m in
    (
      HoldsVariable-agree pushed (push_variables (i + 1) variables pushed) i (name, var)
          (push_variables-AgreesAt (i + 1) variables pushed i (omega arith))
          (push_variable-Holds i name var m fit),
      push_variables-Holds (i + 1) variables pushed fits,
    )

pub HoldsVariables-agree :
    (get get' : Macros) (i : ℕ) (variables : List (Text × VariableMetadata))
    → ((j : ℕ) → AgreesAt get get' j)
    → HoldsVariables get i variables
    → HoldsVariables get' i variables
HoldsVariables-agree get get' i [] same h = tt
HoldsVariables-agree get get' i (variable ∷ variables) same (h, hs) = (
  HoldsVariable-agree get get' i variable (same i) h,
  HoldsVariables-agree get get' (i + 1) variables same hs,
)
