-- ===== src/StataMetadata/IndexedList.antt =====
-- `read_indexed_list` and `write_indexed_list` of src/stata_metadata.rs: what is written is read.
use stata_parquet_io.Prelude.{
  ℕ, ◌+◌, ◌^◌, ◌≤◌, ◌<◌, ◌≡◌, refl, ap, ap₂, ◌∙◌, false, ◌&&◌, leb, List, [], ◌∷◌, ◌++◌, arith,
  ◌==◌, nat_eq, length, unwrap_or, All, eqb_refl, if_true, if_false,
}
use stata_parquet_io.Prelude.Text.{Text, codes, text_Eq, text_eq, show_ℕ}
use stata_parquet_io.Prelude.Decimal.{text_eq-show_ℕ, parse_usize-show_ℕ}
use stata_parquet_io.Write.Columns.{numbered}
use stata_parquet_io.StataMetadata.{
  Macros, set_macro, count_of, usize_or_zero, read_values, read_indexed_list, write_values,
  write_indexed_list,
}
use stata_parquet_io.StataMetadata.Names.{word-ne-show_ℕ_alone}

text_eq-append : (p s t : Text) → text_eq (p ++ s) (p ++ t) ≡ text_eq s t
unfolding text_eq
text_eq-append [] s t = refl
text_eq-append (c ∷ p) s t = ground (arith, text_eq-append p s t)

pub numbered-ne :
    (prefix : Text) (i j : ℕ)
    → (i == j) ≡ false
    → text_eq (numbered prefix i) (numbered prefix j) ≡ false
unfolding text_eq
numbered-ne prefix i j h =
    text_eq-append prefix (codes "_" ++ show_ℕ i) (codes "_" ++ show_ℕ j) ∙ text_eq-show_ℕ i j ∙ h

count_of-ne-numbered :
    (prefix : Text) (j : ℕ) → text_eq (count_of prefix) (numbered prefix j) ≡ false
unfolding text_eq
count_of-ne-numbered prefix j =
    text_eq-append prefix (codes "_count") (codes "_" ++ show_ℕ j)
    ∙ word-ne-show_ℕ_alone j b'c' (codes "ount") refl

-- A name that a macro can have.
abbrev pub IsName : Text → Type 0
IsName name = length name ≤ 32

-- A macro that is set reads as it was set.
pub set_macro_self :
    (name value : Text) (m : Macros) → IsName name → set_macro name value m name ≡ value
set_macro_self name value m fits =
    if_true ((name == name) && leb (length name) 32) value (m name)
      (ap (λ b. b && leb (length name) 32) (eqb_refl name) ∙ ground (arith, fits))

pub set_macro_other :
    (name value n : Text) (m : Macros) → text_eq n name ≡ false → set_macro name value m n ≡ m n
set_macro_other name value n m h =
    if_false ((n == name) && leb (length name) 32) value (m n)
      (ap (λ b. b && leb (length name) 32) h)

-- The macros of a list from number `i` on, and its count, have such names.
abbrev pub FitsValues : Text → ℕ → List Text → Type 0
FitsValues prefix i [] = Unit
FitsValues prefix i (value ∷ values) = IsName (numbered prefix i) × FitsValues prefix (i + 1) values

abbrev pub FitsList : Text → List Text → Type 0
FitsList prefix values = IsName (count_of prefix) × FitsValues prefix 1 values

-- What the macros hold of a list: its texts from number `i` on, and the count.
abbrev pub HoldsValues : Macros → Text → ℕ → List Text → Type 0
HoldsValues get prefix i [] = Unit
HoldsValues get prefix i (value ∷ values) =
    (get (numbered prefix i) ≡ value) × HoldsValues get prefix (i + 1) values

abbrev pub HoldsList : Macros → Text → List Text → Type 0
HoldsList get prefix values =
    (get (count_of prefix) ≡ show_ℕ (length values)) × HoldsValues get prefix 1 values

read_values-eq :
    (get : Macros) (prefix : Text) (i : ℕ) (values : List Text)
    → HoldsValues get prefix i values
    → read_values get prefix i (length values) ≡ values
unfolding read_values
read_values-eq get prefix i [] h = refl
read_values-eq get prefix i (value ∷ values) (h, hs) =
    ap₂ (λ v vs. v ∷ vs) h (read_values-eq get prefix (i + 1) values hs)

pub usize_or_zero-show_ℕ : (n : ℕ) → n < 2 ^ 64 → usize_or_zero (show_ℕ n) ≡ n
usize_or_zero-show_ℕ n h = ap (λ o. unwrap_or o 0) (parse_usize-show_ℕ n h)

pub read_indexed_list-eq :
    (get : Macros) (prefix : Text) (values : List Text)
    → length values < 2 ^ 64
    → HoldsList get prefix values
    → read_indexed_list get prefix ≡ values
unfolding read_indexed_list
read_indexed_list-eq get prefix values short (count, hs) =
    ap (λ n. read_values get prefix 1 n)
      (ap usize_or_zero count ∙ usize_or_zero-show_ℕ (length values) short)
    ∙ read_values-eq get prefix 1 values hs

-- A macro of another name stays.
write_values-other :
    (prefix : Text) (i : ℕ) (values : List Text) (m : Macros) (n : Text)
    → ((j : ℕ) → i ≤ j → text_eq n (numbered prefix j) ≡ false)
    → write_values prefix i values m n ≡ m n
unfolding write_values
write_values-other prefix i [] m n away = refl
write_values-other prefix i (value ∷ values) m n away =
    write_values-other prefix (i + 1) values (set_macro (numbered prefix i) value m) n
      (λ j h. away j (omega arith))
    ∙ set_macro_other (numbered prefix i) value n m (away i (omega arith))

write_values-Holds :
    (prefix : Text) (i : ℕ) (values : List Text) (m : Macros)
    → FitsValues prefix i values
    → HoldsValues (write_values prefix i values m) prefix i values
unfolding write_values
write_values-Holds prefix i [] m fits = tt
write_values-Holds prefix i (value ∷ values) m (fit, fits) = (
  write_values-other prefix (i + 1) values (set_macro (numbered prefix i) value m)
        (numbered prefix i) (λ j h. numbered-ne prefix i j (ground (arith, h)))
      ∙ set_macro_self (numbered prefix i) value m fit,
  write_values-Holds prefix (i + 1) values (set_macro (numbered prefix i) value m) fits,
)

pub write_indexed_list-other :
    (prefix : Text) (values : List Text) (m : Macros) (n : Text)
    → text_eq n (count_of prefix) ≡ false
    → ((j : ℕ) → text_eq n (numbered prefix j) ≡ false)
    → write_indexed_list prefix values m n ≡ m n
unfolding write_indexed_list
write_indexed_list-other prefix values m n count away =
    write_values-other prefix 1 values (set_macro (count_of prefix) (show_ℕ (length values)) m) n
      (λ j h. away j)
    ∙ set_macro_other (count_of prefix) (show_ℕ (length values)) n m count

pub write_indexed_list-Holds :
    (prefix : Text) (values : List Text) (m : Macros)
    → FitsList prefix values
    → HoldsList (write_indexed_list prefix values m) prefix values
unfolding write_indexed_list
write_indexed_list-Holds prefix values m (fit, fits) =
    let counted : Macros = set_macro (count_of prefix) (show_ℕ (length values)) m in
    (
      write_values-other prefix 1 values counted (count_of prefix)
            (λ j h. count_of-ne-numbered prefix j)
          ∙ set_macro_self (count_of prefix) (show_ℕ (length values)) m fit,
      write_values-Holds prefix 1 values counted fits,
    )

-- The list is still held where the macros agree on its names.
HoldsValues-agree :
    (get get' : Macros) (prefix : Text) (i : ℕ) (values : List Text)
    → ((j : ℕ) → get' (numbered prefix j) ≡ get (numbered prefix j))
    → HoldsValues get prefix i values
    → HoldsValues get' prefix i values
HoldsValues-agree get get' prefix i [] same h = tt
HoldsValues-agree get get' prefix i (value ∷ values) same (h, hs) =
    (same i ∙ h, HoldsValues-agree get get' prefix (i + 1) values same hs)

pub HoldsList-agree :
    (get get' : Macros) (prefix : Text) (values : List Text)
    → get' (count_of prefix) ≡ get (count_of prefix)
    → ((j : ℕ) → get' (numbered prefix j) ≡ get (numbered prefix j))
    → HoldsList get prefix values
    → HoldsList get' prefix values
HoldsList-agree get get' prefix values count same (h, hs) =
    (count ∙ h, HoldsValues-agree get get' prefix 1 values same hs)

-- And where the macros are read by something that leaves its texts alone.
HoldsValues-read :
    (read : Text → Text) (get : Macros) (prefix : Text) (i : ℕ) (values : List Text)
    → All (λ t. read t ≡ t) values
    → HoldsValues get prefix i values
    → HoldsValues (λ n. read (get n)) prefix i values
HoldsValues-read read get prefix i [] fits h = tt
HoldsValues-read read get prefix i (value ∷ values) (fit, fits) (h, hs) =
    (ap read h ∙ fit, HoldsValues-read read get prefix (i + 1) values fits hs)

pub HoldsList-read :
    (read : Text → Text) (get : Macros) (prefix : Text) (values : List Text)
    → read (show_ℕ (length values)) ≡ show_ℕ (length values)
    → All (λ t. read t ≡ t) values
    → HoldsList get prefix values
    → HoldsList (λ n. read (get n)) prefix values
HoldsList-read read get prefix values count fits (h, hs) =
    (ap read h ∙ count, HoldsValues-read read get prefix 1 values fits hs)
