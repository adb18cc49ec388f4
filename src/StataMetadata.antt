-- ===== src/StataMetadata.antt =====
-- src/stata_metadata.rs: labels, notes and formats of Stata, from macros to the footer of a file and back.
--
-- The macros are a function of their names; `get_macro` gives the text that src/stata_interface.rs reads.
-- Maps are lists in ascending order of their keys, as a `BTreeMap` iterates. JSON and the footers are
-- third-party: `raw` is `read_raw_metadata_json`, and `from_json` is serde's.
pub mod Names
pub mod IndexedList
pub mod Variables
pub mod ValueLabels
pub mod Maps
pub mod Gathered
pub mod UsedLabels
pub mod RoundTrip
pub mod Pushed
pub mod Whole
pub mod Validated
use stata_parquet_io.Prelude.{
  ℕ, zero, suc, ◌+◌, Bool, true, false, not, ◌&&◌, ◌||◌, List, [], ◌∷◌, ◌++◌, Option, none, some,
  Outcome, ok, err, ltb, leb, ◌==◌, nat_eq, if◌then◌else◌, length, is_empty, unwrap_or, all,
}
use stata_parquet_io.Prelude.Text.{Text, codes, text_Eq, parse_usize, show_ℕ}
use stata_parquet_io.Mapping.{StataColumnInfo, to_string, resolve_stata_type}
use stata_parquet_io.Write.Columns.{numbered, renamed}

pub record VariableMetadata : Type 0 where
  pub label : Option Text
  pub value_label : Option Text
  pub notes : List Text
  pub format : Option Text
  pub stata_type : Option Text

pub record StataMetadataEnvelope : Type 0 where
  pub version : ℕ
  pub dataset_label : Option Text
  pub dataset_notes : List Text
  pub variables : List (Text × VariableMetadata)
  pub value_labels : List (Text × List (Text × Text))

abbrev pub stata_metadata_version : ℕ
stata_metadata_version = 1

-- `Ord` of `str`, which goes by code points as it does by bytes.
unfoldable pub text_lt : Text → Text → Bool
text_lt s [] = false
text_lt [] (d ∷ t) = true
text_lt (c ∷ s) (d ∷ t) = ltb c d || ((c == d) && text_lt s t)

abbrev pub is_none {ℓ} : {A : Type ℓ} → Option A → Bool
is_none none = true
is_none (some a) = false

-- `BTreeMap::get`, `contains_key` and `insert`.
unfoldable pub find {ℓ} : {V : Type ℓ} → Text → List (Text × V) → Option V
find key [] = none
find key ((k, v) ∷ map) = let rest = find key map in if k == key then some v else rest

abbrev pub contains_key {ℓ} : {V : Type ℓ} → Text → List (Text × V) → Bool
contains_key key map = not (is_none (find key map))

unfoldable pub insert {ℓ} : {V : Type ℓ} → Text → V → List (Text × V) → List (Text × V)
insert key value [] = (key, value) ∷ []
insert key value ((k, v) ∷ map) =
    let rest = insert key value map in
    if key == k
    then (key, value) ∷ map
    else if text_lt key k
    then (key, value) ∷ (k, v) ∷ map
    else (k, v) ∷ rest

abbrev pub Macros : Type 0
Macros = Text → Text

-- Names of macros are capped at 32 characters; a longer one sets no macro.
abbrev pub set_macro : Text → Text → Macros → Macros
set_macro name value macros = λ n. if (n == name) && leb (length name) 32 then value else macros n

abbrev pub count_of : Text → Text
count_of prefix = prefix ++ codes "_count"

abbrev pub usize_or_zero : Text → ℕ
usize_or_zero s = unwrap_or (parse_usize s) 0

-- The texts from number `i` on.
unfoldable pub read_values : Macros → Text → ℕ → ℕ → List Text
read_values get_macro prefix i zero = []
read_values get_macro prefix i (suc count) =
    get_macro (numbered prefix i) ∷ read_values get_macro prefix (i + 1) count

unfoldable pub read_indexed_list : Macros → Text → List Text
read_indexed_list get_macro prefix =
    read_values get_macro prefix 1 (usize_or_zero (get_macro (count_of prefix)))

unfoldable pub write_values : Text → ℕ → List Text → Macros → Macros
write_values prefix i [] macros = macros
write_values prefix i (value ∷ values) macros =
    write_values prefix (i + 1) values (set_macro (numbered prefix i) value macros)

unfoldable pub write_indexed_list : Text → List Text → Macros → Macros
write_indexed_list prefix values macros =
    write_values prefix 1 values (set_macro (count_of prefix) (show_ℕ (length values)) macros)

-- The pairs of value label `m` from number `i` on, onto those so far.
unfoldable pub definition_from : Macros → ℕ → ℕ → ℕ → List (Text × Text) → List (Text × Text)
definition_from get_macro m i zero defn = defn
definition_from get_macro m i (suc count) defn =
    let code = get_macro (numbered (numbered (codes "pq_meta_vallabel_defn_code") m) i) in
    let text = get_macro (numbered (numbered (codes "pq_meta_vallabel_defn_text") m) i) in
    definition_from get_macro m (i + 1) count
      (if is_empty code then defn else insert code text defn)

unfoldable pub read_value_label_definition : Macros → ℕ → List (Text × Text)
read_value_label_definition get_macro m =
    definition_from get_macro m 1
      (usize_or_zero (get_macro (numbered (codes "pq_meta_vallabel_defn_count") m))) []

-- The number of the value label with a name: the last one counts, as it does in a `HashMap`.
unfoldable pub value_label_index : Macros → ℕ → ℕ → Text → Option ℕ
value_label_index get_macro m zero name = none
value_label_index get_macro m (suc count) name =
    elim (value_label_index get_macro (m + 1) count name) [
      | some later ↦ some later
      | none ↦
          if get_macro (numbered (codes "pq_meta_vallabel_name") m) == name then some m else none
    ]

unfoldable pub column_by_name : List StataColumnInfo → Text → Option StataColumnInfo
column_by_name [] name = none
column_by_name (col ∷ column_info) name = elim (column_by_name column_info name) [
  | some later ↦ some later
  | none ↦ if col.name == name then some col else none
]

-- The storage type of a column, if there is one; `none` is the panic on an unknown type.
unfoldable pub recorded_type : List StataColumnInfo → Text → Option (Option Text)
recorded_type column_info parquet_name = elim (column_by_name column_info parquet_name) [
  | none ↦ some none
  | some col ↦ elim (resolve_stata_type col.dtype col.format) [
    | none ↦ none
    | some stata_type ↦ some (some (to_string stata_type))
  ]
]

abbrev pub non_empty : Text → Option Text
non_empty [] = none
non_empty (c ∷ s) = some (c ∷ s)

unfoldable pub variable_from : Macros → ℕ → Option Text → VariableMetadata
variable_from get_macro i recorded = record {
  label = non_empty (get_macro (numbered (codes "pq_meta_label") i));
  value_label = non_empty (get_macro (numbered (codes "pq_meta_vallabel") i));
  notes = read_indexed_list get_macro (numbered (codes "pq_meta_note") i);
  format = non_empty (get_macro (numbered (codes "pq_meta_format") i));
  stata_type = recorded;
}

abbrev pub is_blank : VariableMetadata → Bool
is_blank var =
    is_none var.label
    && is_none var.value_label
    && is_empty var.notes
    && is_none var.format
    && is_none var.stata_type

abbrev pub add_definition :
    Text → List (Text × Text) → List (Text × List (Text × Text)) → List (Text × List (Text × Text))
add_definition value_label defn value_labels =
    if is_empty defn then value_labels else insert value_label defn value_labels

abbrev pub add_numbered :
    Macros → Text → Option ℕ → List (Text × List (Text × Text)) → List (Text × List (Text × Text))
add_numbered get_macro value_label none value_labels = value_labels
add_numbered get_macro value_label (some m) value_labels =
    add_definition value_label (read_value_label_definition get_macro m) value_labels

-- A value label that a variable has, with its definition, unless it is there or has none.
unfoldable pub add_value_label :
    Macros → ℕ → Option Text → List (Text × List (Text × Text)) → List (Text × List (Text × Text))
add_value_label get_macro n_vallabels none value_labels = value_labels
add_value_label get_macro n_vallabels (some value_label) value_labels =
    if contains_key value_label value_labels
    then value_labels
    else add_numbered get_macro value_label (value_label_index get_macro 1 n_vallabels value_label)
        value_labels

abbrev pub Gathered : Type 0
Gathered = List (Text × VariableMetadata) × List (Text × List (Text × Text))

-- `recorded` is none where its computation panics.
abbrev pub add_variable : Macros → ℕ → ℕ → Text → Option (Option Text) → Gathered → Option Gathered
add_variable get_macro n_vallabels i parquet_name none gathered = none
add_variable get_macro n_vallabels i parquet_name (some recorded) (variables, value_labels) =
    let var = variable_from get_macro i recorded in
    if is_blank var
    then some (variables, value_labels)
    else some (
      insert parquet_name var variables,
      add_value_label get_macro n_vallabels var.value_label value_labels,
    )

unfoldable pub gather_variable :
    Macros → List (Text × Text) → List StataColumnInfo → ℕ → ℕ → Gathered → Option Gathered
gather_variable get_macro rename_list column_info n_vallabels i gathered =
    let stata_name = get_macro (numbered (codes "pq_meta_name") i) in
    let parquet_name = renamed rename_list stata_name in
    if is_empty stata_name
    then some gathered
    else add_variable get_macro n_vallabels i parquet_name (recorded_type column_info parquet_name)
        gathered

unfoldable pub gather_variables :
    Macros → List (Text × Text) → List StataColumnInfo → ℕ → ℕ → ℕ → Gathered → Option Gathered
gather_variables get_macro rename_list column_info n_vallabels i zero gathered = some gathered
gather_variables get_macro rename_list column_info n_vallabels i (suc count) gathered =
    elim (gather_variable get_macro rename_list column_info n_vallabels i gathered) [
      | none ↦ none
      | some more ↦
          gather_variables get_macro rename_list column_info n_vallabels (i + 1) count more
    ]

abbrev pub envelope_of :
    Option Text → List Text → Option Gathered → Option (Option StataMetadataEnvelope)
envelope_of label notes none = none
envelope_of label notes (some (variables, value_labels)) =
    if is_empty variables && is_none label && is_empty notes
    then some none
    else some (
        some (record {
          version = stata_metadata_version;
          dataset_label = label;
          dataset_notes = notes;
          variables = variables;
          value_labels = value_labels;
        }))

unfoldable pub metadata_from_macros :
    Macros → List (Text × Text) → List StataColumnInfo → Option (Option StataMetadataEnvelope)
metadata_from_macros get_macro rename_list column_info =
    let n_vars = usize_or_zero (get_macro (codes "pq_meta_count")) in
    let dataset_label = non_empty (get_macro (codes "pq_meta_dataset_label")) in
    let dataset_notes = read_indexed_list get_macro (codes "pq_meta_dataset_note") in
    let n_vallabels = usize_or_zero (get_macro (codes "pq_meta_vallabel_count")) in
    if n_vars == 0
    then some none
    else envelope_of dataset_label dataset_notes
        (gather_variables get_macro rename_list column_info n_vallabels 1 n_vars ([], []))

unfoldable pub push_variable : ℕ → Text × VariableMetadata → Macros → Macros
push_variable idx (parquet_name, var) macros =
    write_indexed_list (numbered (codes "pq_meta_note") idx) var.notes (
      set_macro (numbered (codes "pq_meta_format") idx) (unwrap_or var.format []) (
        set_macro (numbered (codes "pq_meta_vallabel") idx) (unwrap_or var.value_label []) (
          set_macro (numbered (codes "pq_meta_label") idx) (unwrap_or var.label [])
            (set_macro (numbered (codes "pq_meta_name") idx) parquet_name macros))))

unfoldable pub push_variables : ℕ → List (Text × VariableMetadata) → Macros → Macros
push_variables idx [] macros = macros
push_variables idx (variable ∷ variables) macros =
    push_variables (idx + 1) variables (push_variable idx variable macros)

unfoldable pub push_definition : ℕ → ℕ → List (Text × Text) → Macros → Macros
push_definition m idx [] macros = macros
push_definition m idx ((code, text) ∷ defn) macros = push_definition m (idx + 1) defn (
    set_macro (numbered (numbered (codes "pq_meta_vallabel_defn_text") m) idx) text
      (set_macro (numbered (numbered (codes "pq_meta_vallabel_defn_code") m) idx) code macros))

unfoldable pub push_value_labels : ℕ → List (Text × List (Text × Text)) → Macros → Macros
push_value_labels m [] macros = macros
push_value_labels m ((name, defn) ∷ value_labels) macros = push_value_labels (m + 1) value_labels (
    push_definition m 1 defn (
      set_macro (numbered (codes "pq_meta_vallabel_defn_count") m) (show_ℕ (length defn))
        (set_macro (numbered (codes "pq_meta_vallabel_name") m) name macros)))

unfoldable pub push_metadata_to_macros : StataMetadataEnvelope → Macros → Macros
push_metadata_to_macros envelope macros = push_value_labels 1 envelope.value_labels (
    set_macro (codes "pq_meta_vallabel_count") (show_ℕ (length envelope.value_labels)) (
      push_variables 1 envelope.variables (
        set_macro (codes "pq_meta_count") (show_ℕ (length envelope.variables)) (
          write_indexed_list (codes "pq_meta_dataset_note") envelope.dataset_notes (
            set_macro (codes "pq_meta_dataset_label") (unwrap_or envelope.dataset_label [])
              (set_macro (codes "pq_meta_present") (codes "1") macros))))))

unfoldable pub clear_metadata_macro : Macros → Macros
clear_metadata_macro macros =
    set_macro (codes "pq_meta_count") (codes "0")
      (set_macro (codes "pq_meta_present") (codes "0") macros)
