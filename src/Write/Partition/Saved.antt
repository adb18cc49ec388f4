-- ===== src/Write/Partition/Saved.antt =====
-- Where the rows of a partitioned save (src/write.rs) end up.
use stata_parquet_io.Prelude.{
  ℕ, ◌-◌, ◌^◌, ◌<◌, ◌≡◌, refl, sym, ap, ap₂, ◌∙◌, Bool, true, false, not, ◌&&◌, ◌||◌, List, [], ◌∷◌,
  ◌++◌, map, Option, none, some, arith, ◌==◌, nat_eq, retain, length, length-append, take, contains,
  Bool-cases, inl, inr, if_true, if_false, eqb_refl, append-nil,
}
use stata_parquet_io.Prelude.Text.{
  Text, codes, text_Eq, text_eq, text_eq_iff, show_ℕ, starts_with, ends_with,
}
use stata_parquet_io.Prelude.Parts.{take-append, ends_with-append}
use stata_parquet_io.Prelude.Decimal.{parse_usize-show_ℕ}
use stata_parquet_io.Write.Index.{
  file_index, strip_suffix, parse_stem, after_max, max_idx, next_partition_file_index, IsBelow,
  next_partition_file_index-IsFresh,
}
use stata_parquet_io.Write.Partition.{
  ParquetFile, Disk, join_path, is_under, remove_dir_all, in_dir, names_in, is_at, create,
  data_name,
}

-- The number of a file that a save names.
file_index-data_name : (n : ℕ) → n < 2 ^ 64 → file_index (data_name n) ≡ some n
unfolding file_index starts_with
file_index-data_name n h =
    let suffix : Text = codes ".parquet" in
    let size : length (show_ℕ n ++ suffix) - length suffix ≡ length (show_ℕ n) =
      omega (arith, length-append (show_ℕ n) suffix) in
    let stem : strip_suffix suffix (show_ℕ n ++ suffix) ≡ some (show_ℕ n) =
      if_true (ends_with suffix (show_ℕ n ++ suffix)) _ none (ends_with-append suffix (show_ℕ n))
      ∙ ap (λ k. some (take k (show_ℕ n ++ suffix))) size
      ∙ ap some (take-append (show_ℕ n) suffix) in
    ap (λ o. parse_stem o) stem ∙ parse_usize-show_ℕ n h

after_max-lt : (m : Option ℕ) → after_max m < 2 ^ 64
after_max-lt none = omega arith
after_max-lt (some m) = omega arith

-- No file of the folder has the next name.
pub data_name_fresh :
    (names : List Text)
    → IsBelow (2 ^ 64 - 1) (max_idx none names)
    → contains names (data_name (next_partition_file_index names)) ≡ false
unfolding next_partition_file_index
data_name_fresh names below =
    let next : ℕ = next_partition_file_index names in
    elim (Bool-cases (contains names (data_name next))) [
      | inr away ↦ away
      | inl there ↦ absurd (
          omega (
            arith,
            next_partition_file_index-IsFresh names (data_name next) next below there
                (file_index-data_name next (after_max-lt (max_idx none names))),
          ))
    ]

module _ {A : Type 0} where
  retain-append : (p : A → Bool) (xs ys : List A) → retain p (xs ++ ys) ≡ retain p xs ++ retain p ys
  retain-append p [] ys = refl
  retain-append p (x ∷ xs) ys = elim (Bool-cases (p x)) [
    | inl keep ↦ rw keep (ap (λ l. x ∷ l) (retain-append p xs ys))
    | inr lose ↦ rw lose (retain-append p xs ys)
  ]

  -- What keeps all of the second keeps the same of the first as of all.
  retain-retain :
      (p q : A → Bool) (xs : List A)
      → ((x : A) → p x ≡ true → q x ≡ true)
      → retain p (retain q xs) ≡ retain p xs
  retain-retain p q [] h = refl
  retain-retain p q (x ∷ xs) h = elim (Bool-cases (q x)) [
    | inl keep ↦ elim (Bool-cases (p x)) [
      | inl both ↦ rw (keep, both) (ap (λ l. x ∷ l) (retain-retain p q xs h))
      | inr one ↦ rw (keep, one) (retain-retain p q xs h)
    ]
    | inr lose ↦ elim (Bool-cases (p x)) [
      | inl both ↦ absurd (cc (sym lose ∙ h x both))
      | inr one ↦ rw (lose, one) (retain-retain p q xs h)
    ]
  ]

  retain-none :
      (p q : A → Bool) (xs : List A)
      → ((x : A) → p x ≡ true → q x ≡ false)
      → retain p (retain q xs) ≡ []
  retain-none p q [] h = refl
  retain-none p q (x ∷ xs) h = elim (Bool-cases (q x)) [
    | inl keep ↦ elim (Bool-cases (p x)) [
      | inl both ↦ absurd (cc (sym keep ∙ h x both))
      | inr one ↦ rw (keep, one) (retain-none p q xs h)
    ]
    | inr lose ↦ rw lose (retain-none p q xs h)
  ]

pub text_eq_sym : (s t : Text) → text_eq s t ≡ false → text_eq t s ≡ false
text_eq_sym s t h = elim (Bool-cases (text_eq t s)) [
  | inl e ↦ absurd (cc (sym h ∙ (text_eq_iff s t).1 (sym ((text_eq_iff t s).0 e))))
  | inr e ↦ e
]

pub or_false_split : (a b : Bool) → (a || b) ≡ false → (a ≡ false) × (b ≡ false)
or_false_split true b h = cc
or_false_split false b h = (refl, h)

module _ {R : Type 0} where
  pub in_dir-remove_dir_all_other :
      (dir d : Text) (disk : Disk R)
      → is_under dir d ≡ false
      → in_dir d (remove_dir_all dir disk) ≡ in_dir d disk
  in_dir-remove_dir_all_other dir d disk apart =
      retain-retain (λ file. file.dir == d) (λ file. not (is_under dir file.dir)) disk
        (λ file at. ap (λ e. not (is_under dir e)) ((text_eq_iff file.dir d).0 at) ∙ ap not apart)

  pub in_dir-remove_dir_all_self :
      (dir : Text) (disk : Disk R) → in_dir dir (remove_dir_all dir disk) ≡ []
  in_dir-remove_dir_all_self dir disk =
      retain-none (λ file. file.dir == dir) (λ file. not (is_under dir file.dir)) disk
        (λ file at. ap (λ b. not (b || starts_with (join_path dir []) file.dir)) at)

  pub in_dir-create_other :
      (dir d name : Text) (rows : List R) (disk : Disk R)
      → text_eq dir d ≡ false
      → in_dir d (create dir name rows disk) ≡ in_dir d disk
  in_dir-create_other dir d name rows disk apart =
      let p : ParquetFile R → Bool = λ file. file.dir == d in
      let q : ParquetFile R → Bool = λ file. not (is_at dir name file) in
      let other : text_eq d dir ≡ false = text_eq_sym dir d apart in
      retain-append p (retain q disk) (record { dir = dir; name = name; rows = rows } ∷ [])
      ∙ ap₂ (λ xs ys. xs ++ ys)
          (retain-retain p q disk (λ file at.
            ap (λ e. not ((e == dir) && (file.name == name))) ((text_eq_iff file.dir d).0 at)
            ∙ ap (λ b. not (b && (file.name == name))) other))
          (if_false (dir == d) _ _ apart)
      ∙ append-nil (in_dir d disk)

  in_dir-fresh :
      (dir name : Text) (disk : Disk R)
      → contains (names_in dir disk) name ≡ false
      → in_dir dir (retain (λ file. not (is_at dir name file)) disk) ≡ in_dir dir disk
  in_dir-fresh dir name [] new = refl
  in_dir-fresh dir name (file ∷ disk) new = elim (Bool-cases (file.dir == dir)) [
    | inl here ↦
        let news : contains (file.name ∷ names_in dir disk) name ≡ false =
          ap (λ l. contains (map (λ (f : ParquetFile R). f.name) l) name)
            (sym (if_true (file.dir == dir) _ _ here))
          ∙ new in
        let (not_name, rest) =
          or_false_split (file.name == name) (contains (names_in dir disk) name) news in
        rw (here, not_name, here) (ap (λ l. file ∷ l) (in_dir-fresh dir name disk rest))
    | inr away ↦
        let rest : contains (names_in dir disk) name ≡ false =
          ap (λ l. contains (map (λ (f : ParquetFile R). f.name) l) name)
            (sym (if_false (file.dir == dir) _ _ away))
          ∙ new in
        rw (away, away) (in_dir-fresh dir name disk rest)
  ]

  -- A new name is added to what the folder has.
  pub in_dir-create_self :
      (dir name : Text) (rows : List R) (disk : Disk R)
      → contains (names_in dir disk) name ≡ false
      → in_dir dir (create dir name rows disk)
        ≡ in_dir dir disk ++ (record { dir = dir; name = name; rows = rows } ∷ [])
  in_dir-create_self dir name rows disk new =
      retain-append (λ (file : ParquetFile R). file.dir == dir)
        (retain (λ file. not (is_at dir name file)) disk)
        (record { dir = dir; name = name; rows = rows } ∷ [])
      ∙ ap₂ (λ xs ys. xs ++ ys) (in_dir-fresh dir name disk new)
          (if_true (dir == dir) _ _ (eqb_refl dir))
