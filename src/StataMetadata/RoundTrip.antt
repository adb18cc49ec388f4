-- ===== src/StataMetadata/RoundTrip.antt =====
-- Metadata pushed to macros and gathered again (src/stata_metadata.rs).
use stata_parquet_io.Prelude.{
  ℕ, ◌+◌, ◌^◌, ◌<◌, ◌≡◌, refl, sym, ap, ◌∙◌, Bool, true, false, ◌||◌, List, [], ◌∷◌, ◌++◌,
  append_assoc, append-nil, Option, none, some, if◌then◌else◌, length, is_empty, unwrap_or, All,
  if_false,
}
use stata_parquet_io.Prelude.Text.{Text, text_Eq}
use stata_parquet_io.Mapping.{StataColumnInfo}
use stata_parquet_io.Mapping.Rename.{byte_len}
use stata_parquet_io.Write.Columns.{renamed}
use stata_parquet_io.StataMetadata.{
  Macros, VariableMetadata, insert, non_empty, is_blank, variable_from, recorded_type, find,
  add_value_label, add_variable, gather_variable, gather_variables,
}
use stata_parquet_io.StataMetadata.IndexedList.{read_indexed_list-eq}
use stata_parquet_io.StataMetadata.Variables.{HoldsVariable, HoldsVariables, notes_at}
use stata_parquet_io.StataMetadata.ValueLabels.{HoldsLabels}
use stata_parquet_io.StataMetadata.Maps.{IsAscending, AreBefore, insert_last, AreBefore-append}
use stata_parquet_io.StataMetadata.Gathered.{IsDefinition}
use stata_parquet_io.StataMetadata.UsedLabels.{
  LabelMap, IsPart, is_used, names_label, add_value_label-IsPart,
}

-- A text that fits the buffer that macros are read into.
abbrev pub IsShort : Text → Type 0
IsShort t = byte_len t < 1024

abbrev pub IsText : Option Text → Type 0
IsText none = Unit
IsText (some t) = (is_empty t ≡ false) × IsShort t

pub non_empty-unwrap_or : (o : Option Text) → IsText o → non_empty (unwrap_or o []) ≡ o
non_empty-unwrap_or none h = refl
non_empty-unwrap_or (some []) h = absurd (cc (h.0))
non_empty-unwrap_or (some (c ∷ t)) h = refl

-- A variable as a save records it: it keeps its name, its type is that of the column, and something is
-- recorded of it.
abbrev pub IsRecorded : List (Text × Text) → List StataColumnInfo → Text × VariableMetadata → Type 0
IsRecorded rename_list column_info (name, var) =
    ((is_empty name ≡ false) × IsShort name)
    × (renamed rename_list name ≡ name)
    × (recorded_type column_info name ≡ some var.stata_type)
    × IsText var.label
    × IsText var.value_label
    × IsText var.format
    × ((length var.notes < 2 ^ 64) × All IsShort var.notes)
    × (is_blank var ≡ false)

module _ (get : Macros) (rename_list : List (Text × Text)) (column_info : List StataColumnInfo)
    (value_labels : LabelMap) (holds : HoldsLabels get 1 value_labels)
    (up : IsAscending value_labels)
    (defined : All (λ (entry : Text × List (Text × Text)). IsDefinition entry.1) value_labels) where
  variable_from-eq :
      (i : ℕ) (name : Text) (var : VariableMetadata)
      → HoldsVariable get i (name, var)
      → IsRecorded rename_list column_info (name, var)
      → variable_from get i var.stata_type ≡ var
  unfolding variable_from
  variable_from-eq i name var (named, label, value_label, format, notes)
        (n, r, s, l, v, f, (few, short), b) =
      let label' = ap non_empty label ∙ non_empty-unwrap_or var.label l in
      let value_label' = ap non_empty value_label ∙ non_empty-unwrap_or var.value_label v in
      let format' = ap non_empty format ∙ non_empty-unwrap_or var.format f in
      let notes' = read_indexed_list-eq get (notes_at i) var.notes few notes in
      λ j. record {
        label = label' j;
        value_label = value_label' j;
        notes = notes' j;
        format = format' j;
        stata_type = var.stata_type;
      }

  gather_variable-eq :
      (i : ℕ) (name : Text) (var : VariableMetadata) (acc : List (Text × VariableMetadata))
      (part : LabelMap)
      → HoldsVariable get i (name, var)
      → IsRecorded rename_list column_info (name, var)
      → AreBefore acc ((name, var) ∷ [])
      → gather_variable get rename_list column_info (length value_labels) i (acc, part)
        ≡ some (
          acc ++ ((name, var) ∷ []),
          add_value_label get (length value_labels) var.value_label part,
        )
  unfolding gather_variable
  gather_variable-eq i name var acc part held recorded (below, rest) =
      let (named, label, value_label, format, notes) = held in
      let ((some_name, short), kept, known, l, v, f, n, filled) = recorded in
      let count : ℕ = length value_labels in
      let add : Text → Option (List (Text × VariableMetadata) × LabelMap) = λ t.
        if is_empty t
        then some (acc, part)
        else add_variable get count i (renamed rename_list t)
            (recorded_type column_info (renamed rename_list t)) (acc, part) in
      let put : VariableMetadata → Option (List (Text × VariableMetadata) × LabelMap) = λ u.
        if is_blank u
        then some (acc, part)
        else some (insert name u acc, add_value_label get count u.value_label part) in
      ap add named
      ∙ if_false (is_empty name) _ _ some_name
      ∙ ap (λ t. add_variable get count i t (recorded_type column_info t) (acc, part)) kept
      ∙ ap (λ o. add_variable get count i name o (acc, part)) known
      ∙ ap put (variable_from-eq i name var held recorded)
      ∙ if_false (is_blank var) _ _ filled
      ∙ ap (λ m. some (m, add_value_label get count var.value_label part))
          (insert_last name var acc below)

  or_assoc_swap : (a b c : Bool) → (b || (a || c)) ≡ ((a || b) || c)
  or_assoc_swap true true c = refl
  or_assoc_swap true false c = refl
  or_assoc_swap false b c = refl

  pub gather_variables-eq :
      (i : ℕ) (variables acc : List (Text × VariableMetadata)) (part : LabelMap)
      (used : Text → Bool)
      → HoldsVariables get i variables
      → All (IsRecorded rename_list column_info) variables
      → IsAscending variables
      → AreBefore acc variables
      → IsPart part value_labels used
      → (part' : LabelMap) × (gather_variables get rename_list column_info
            (length value_labels)
            i
            (length variables)
            (acc, part)
          ≡ some (acc ++ variables, part'))
        × IsPart part' value_labels (λ n. is_used variables n || used n)
  unfolding gather_variables
  gather_variables-eq i [] acc part used h r up_variables before is_part =
      (part, ap (λ l. some (l, part)) (sym (append-nil acc)), is_part)
  gather_variables-eq i ((name, var) ∷ variables) acc part used (h, hs) (r, rs)
        (above, up_variables) (below, before) is_part =
      let count : ℕ = length value_labels in
      let acc' : List (Text × VariableMetadata) = acc ++ ((name, var) ∷ []) in
      let step = gather_variable-eq i name var acc part h r (below, tt) in
      let (part', gathered, is_part') =
        gather_variables-eq (i + 1) variables acc' (add_value_label get count var.value_label part)
          (λ n. names_label var.value_label n || used n) hs rs up_variables
          (AreBefore-append acc (name, var) variables before above)
          (add_value_label-IsPart get value_labels holds up defined part used var.value_label
            is_part) in
      (
        part',
        rw (step, gather_variables)
            (gathered ∙ ap (λ l. some (l, part')) (append_assoc acc ((name, var) ∷ []) variables)),
        λ n.
            is_part' n
            ∙ ap (λ b. if b then find n value_labels else none)
                (or_assoc_swap (names_label var.value_label n) (is_used variables n) (used n)),
      )
