-- ===== src/StataMetadata/ValueLabels.antt =====
-- What the macros hold of the value labels of an envelope (src/stata_metadata.rs).
use stata_parquet_io.Prelude.{
  ℕ, ◌+◌, ◌≤◌, ◌≡◌, refl, ap, ◌∙◌, false, ◌&&◌, List, [], ◌∷◌, ◌++◌, arith, ◌==◌, nat_eq, length,
}
use stata_parquet_io.Prelude.Text.{Text, codes, text_Eq, text_eq, show_ℕ}
use stata_parquet_io.Write.Columns.{numbered}
use stata_parquet_io.StataMetadata.{Macros, set_macro, push_definition, push_value_labels}
use stata_parquet_io.StataMetadata.Names.{text_eq-show_ℕ_underscore}
use stata_parquet_io.StataMetadata.IndexedList.{
  IsName, numbered-ne, set_macro_self, set_macro_other,
}

abbrev pub label_name_at : ℕ → Text
label_name_at m = numbered (codes "pq_meta_vallabel_name") m

abbrev pub size_at : ℕ → Text
size_at m = numbered (codes "pq_meta_vallabel_defn_count") m

abbrev pub code_at : ℕ → ℕ → Text
code_at m i = numbered (numbered (codes "pq_meta_vallabel_defn_code") m) i

abbrev pub text_at : ℕ → ℕ → Text
text_at m i = numbered (numbered (codes "pq_meta_vallabel_defn_text") m) i

abbrev pub HoldsDefinition : Macros → ℕ → ℕ → List (Text × Text) → Type 0
HoldsDefinition get m i [] = Unit
HoldsDefinition get m i ((code, text) ∷ defn) =
    (get (code_at m i) ≡ code) × (get (text_at m i) ≡ text) × HoldsDefinition get m (i + 1) defn

-- All names of the macros of a value label can be set.
abbrev pub FitsDefinition : ℕ → ℕ → List (Text × Text) → Type 0
FitsDefinition m i [] = Unit
FitsDefinition m i (pair ∷ defn) =
    IsName (code_at m i) × IsName (text_at m i) × FitsDefinition m (i + 1) defn

abbrev pub FitsLabels : ℕ → List (Text × List (Text × Text)) → Type 0
FitsLabels m [] = Unit
FitsLabels m ((name, defn) ∷ value_labels) =
    (IsName (label_name_at m) × IsName (size_at m) × FitsDefinition m 1 defn)
    × FitsLabels (m + 1) value_labels

abbrev pub HoldsLabel : Macros → ℕ → Text × List (Text × Text) → Type 0
HoldsLabel get m (name, defn) =
    (get (label_name_at m) ≡ name)
    × (get (size_at m) ≡ show_ℕ (length defn))
    × HoldsDefinition get m 1 defn

abbrev pub HoldsLabels : Macros → ℕ → List (Text × List (Text × Text)) → Type 0
HoldsLabels get m [] = Unit
HoldsLabels get m (value_label ∷ value_labels) =
    HoldsLabel get m value_label × HoldsLabels get (m + 1) value_labels

-- A name that is none of those of value label `m`.
abbrev pub IsAside : Text → ℕ → Type 0
IsAside n m =
    (text_eq n (label_name_at m) ≡ false)
    × (text_eq n (size_at m) ≡ false)
    × ((k : ℕ) → text_eq n (code_at m k) ≡ false)
    × ((k : ℕ) → text_eq n (text_at m k) ≡ false)

push_definition-other :
    (m i : ℕ) (defn : List (Text × Text)) (macros : Macros) (n : Text)
    → ((k : ℕ) → i ≤ k → text_eq n (code_at m k) ≡ false)
    → ((k : ℕ) → i ≤ k → text_eq n (text_at m k) ≡ false)
    → push_definition m i defn macros n ≡ macros n
unfolding push_definition
push_definition-other m i [] macros n no_code no_text = refl
push_definition-other m i ((code, text) ∷ defn) macros n no_code no_text =
    let coded : Macros = set_macro (code_at m i) code macros in
    push_definition-other m (i + 1) defn (set_macro (text_at m i) text coded) n
      (λ k h. no_code k (omega arith)) (λ k h. no_text k (omega arith))
    ∙ set_macro_other (text_at m i) text n coded (no_text i (omega arith))
    ∙ set_macro_other (code_at m i) code n macros (no_code i (omega arith))

push_definition-Holds :
    (m i : ℕ) (defn : List (Text × Text)) (macros : Macros)
    → FitsDefinition m i defn
    → HoldsDefinition (push_definition m i defn macros) m i defn
unfolding push_definition text_eq
push_definition-Holds m i [] macros fits = tt
push_definition-Holds m i ((code, text) ∷ defn) macros (fits_code, fits_text, fits) =
    let coded : Macros = set_macro (code_at m i) code macros in
    let both : Macros = set_macro (text_at m i) text coded in
    (
      push_definition-other m (i + 1) defn both (code_at m i)
            (λ k h.
              numbered-ne (numbered (codes "pq_meta_vallabel_defn_code") m) i k (ground (arith, h)))
            (λ k h. refl)
          ∙ set_macro_other (text_at m i) text (code_at m i) coded refl
          ∙ set_macro_self (code_at m i) code macros fits_code,
      push_definition-other m (i + 1) defn both (text_at m i) (λ k h. refl)
            (λ k h.
              numbered-ne (numbered (codes "pq_meta_vallabel_defn_text") m) i k (ground (arith, h)))
          ∙ set_macro_self (text_at m i) text coded fits_text,
      push_definition-Holds m (i + 1) defn both fits,
    )

pub push_value_labels-IsAside :
    (m : ℕ) (value_labels : List (Text × List (Text × Text))) (macros : Macros) (n : Text)
    → ((k : ℕ) → m ≤ k → IsAside n k)
    → push_value_labels m value_labels macros n ≡ macros n
unfolding push_value_labels
push_value_labels-IsAside m [] macros n aside = refl
push_value_labels-IsAside m ((name, defn) ∷ value_labels) macros n aside =
    let named : Macros = set_macro (label_name_at m) name macros in
    let sized : Macros = set_macro (size_at m) (show_ℕ (length defn)) named in
    let (no_name, no_size, no_code, no_text) = aside m (omega arith) in
    push_value_labels-IsAside (m + 1) value_labels (push_definition m 1 defn sized) n
      (λ k h. aside k (omega arith))
    ∙ push_definition-other m 1 defn sized n (λ k h. no_code k) (λ k h. no_text k)
    ∙ set_macro_other (size_at m) (show_ℕ (length defn)) n named no_size
    ∙ set_macro_other (label_name_at m) name n macros no_name

module _ (m m' : ℕ) (differ : (m == m') ≡ false) where
  numbers-ne : (s t : Text) → text_eq (show_ℕ m ++ (b'_' ∷ s)) (show_ℕ m' ++ (b'_' ∷ t)) ≡ false
  numbers-ne s t = text_eq-show_ℕ_underscore m m' s t ∙ ap (λ b. b && text_eq s t) differ

  label_name-IsAside : IsAside (label_name_at m) m'
  unfolding text_eq
  label_name-IsAside =
      (numbered-ne (codes "pq_meta_vallabel_name") m m' differ, refl, λ k. refl, λ k. refl)

  size-IsAside : IsAside (size_at m) m'
  unfolding text_eq
  size-IsAside =
      (refl, numbered-ne (codes "pq_meta_vallabel_defn_count") m m' differ, λ k. refl, λ k. refl)

  code-IsAside : (i : ℕ) → IsAside (code_at m i) m'
  unfolding text_eq
  code-IsAside i = (refl, refl, λ k. numbers-ne (show_ℕ i) (show_ℕ k), λ k. refl)

  text-IsAside : (i : ℕ) → IsAside (text_at m i) m'
  unfolding text_eq
  text-IsAside i = (refl, refl, λ k. refl, λ k. numbers-ne (show_ℕ i) (show_ℕ k))

HoldsDefinition-agree :
    (get get' : Macros) (m i : ℕ) (defn : List (Text × Text))
    → ((k : ℕ) → get' (code_at m k) ≡ get (code_at m k))
    → ((k : ℕ) → get' (text_at m k) ≡ get (text_at m k))
    → HoldsDefinition get m i defn
    → HoldsDefinition get' m i defn
HoldsDefinition-agree get get' m i [] codes' texts' h = tt
HoldsDefinition-agree get get' m i ((code, text) ∷ defn) codes' texts' (c, t, h) =
    (codes' i ∙ c, texts' i ∙ t, HoldsDefinition-agree get get' m (i + 1) defn codes' texts' h)

pub push_value_labels-Holds :
    (m : ℕ) (value_labels : List (Text × List (Text × Text))) (macros : Macros)
    → FitsLabels m value_labels
    → HoldsLabels (push_value_labels m value_labels macros) m value_labels
unfolding push_value_labels text_eq
push_value_labels-Holds m [] macros fits = tt
push_value_labels-Holds m ((name, defn) ∷ value_labels) macros
      ((fits_name, fits_size, fits_defn), fits) =
    let named : Macros = set_macro (label_name_at m) name macros in
    let sized : Macros = set_macro (size_at m) (show_ℕ (length defn)) named in
    let defined : Macros = push_definition m 1 defn sized in
    let away : (k : ℕ) → m + 1 ≤ k → (m == k) ≡ false = λ k h. ground (arith, h) in
    let same = λ (n : Text) (aside : (k : ℕ) → m + 1 ≤ k → IsAside n k).
      push_value_labels-IsAside (m + 1) value_labels defined n aside in
    (
      (
        same (label_name_at m) (λ k h. label_name-IsAside m k (away k h))
            ∙ push_definition-other m 1 defn sized (label_name_at m) (λ k h. refl) (λ k h. refl)
            ∙ set_macro_other (size_at m) (show_ℕ (length defn)) (label_name_at m) named refl
            ∙ set_macro_self (label_name_at m) name macros fits_name,
        same (size_at m) (λ k h. size-IsAside m k (away k h))
            ∙ push_definition-other m 1 defn sized (size_at m) (λ k h. refl) (λ k h. refl)
            ∙ set_macro_self (size_at m) (show_ℕ (length defn)) named fits_size,
        HoldsDefinition-agree defined (push_value_labels (m + 1) value_labels defined) m 1 defn
            (λ i. same (code_at m i) (λ k h. code-IsAside m k (away k h) i))
            (λ i. same (text_at m i) (λ k h. text-IsAside m k (away k h) i))
            (push_definition-Holds m 1 defn sized fits_defn),
      ),
      push_value_labels-Holds (m + 1) value_labels defined fits,
    )
