-- ===== src/Write/Index.antt =====
-- `next_partition_file_index` of src/write.rs: the number of the next file of a partition.
--
-- The directory comes in by the names of its entries that are UTF-8; one that cannot be read has none.
use stata_parquet_io.Prelude.{
  ℕ, ◌+◌, ◌-◌, ◌%◌, ◌^◌, ◌≤◌, ◌<◌, ◌≡◌, sym, ap, ◌∙◌, inl, inr, true, List, [], ◌∷◌, Option, none,
  some, arith, max, ◌==◌, if◌then◌else◌, length, drop, take, contains, subst, Bool-cases,
}
use stata_parquet_io.Prelude.Text.{
  Text, codes, text_Eq, text_eq_iff, starts_with, ends_with, parse_usize,
}

abbrev strip_prefix : Text → Text → Option Text
strip_prefix p s = if starts_with p s then some (drop (length p) s) else none

abbrev pub strip_suffix : Text → Text → Option Text
strip_suffix p s = if ends_with p s then some (take (length s - length p) s) else none

abbrev pub parse_stem : Option Text → Option ℕ
parse_stem none = none
parse_stem (some stem) = parse_usize stem

-- The number in `data_<number>.parquet`.
unfoldable pub file_index : Text → Option ℕ
file_index name = elim (strip_prefix (codes "data_") name) [
  | none ↦ none
  | some rest ↦ parse_stem (strip_suffix (codes ".parquet") rest)
]

abbrev pub max_with : Option ℕ → Option ℕ → Option ℕ
max_with m none = m
max_with none (some n) = some n
max_with (some m) (some n) = some (max m n)

-- The loop over the entries.
unfoldable pub max_idx : Option ℕ → List Text → Option ℕ
max_idx m [] = m
max_idx m (name ∷ names) = max_idx (max_with m (file_index name)) names

abbrev pub after_max : Option ℕ → ℕ
after_max none = 0
after_max (some m) = (m + 1) % 2 ^ 64

unfoldable pub next_partition_file_index : List Text → ℕ
next_partition_file_index names = after_max (max_idx none names)

abbrev IsAbove : Option ℕ → ℕ → Type 0
IsAbove none n = ⊥
IsAbove (some m) n = n ≤ m

IsAbove-max_with : (m o : Option ℕ) (n : ℕ) → IsAbove m n → IsAbove (max_with m o) n
IsAbove-max_with none o n h = elim h [ ]
IsAbove-max_with (some m) none n h = h
IsAbove-max_with (some m) (some k) n h = omega (arith, h)

max_with-IsAbove : (m : Option ℕ) (n : ℕ) → IsAbove (max_with m (some n)) n
max_with-IsAbove none n = omega arith
max_with-IsAbove (some m) n = omega arith

max_idx-keeps :
    (m : Option ℕ) (names : List Text) (n : ℕ) → IsAbove m n → IsAbove (max_idx m names) n
unfolding max_idx
max_idx-keeps m [] n h = h
max_idx-keeps m (name ∷ names) n h =
    max_idx-keeps (max_with m (file_index name)) names n (IsAbove-max_with m (file_index name) n h)

max_idx-IsAbove :
    (m : Option ℕ) (names : List Text) (name : Text) (n : ℕ)
    → contains names name ≡ true
    → file_index name ≡ some n
    → IsAbove (max_idx m names) n
unfolding max_idx
max_idx-IsAbove m [] name n h e = absurd cc
max_idx-IsAbove m (x ∷ names) name n h e = elim (Bool-cases (x == name)) [
  | inl here ↦
      let f : file_index x ≡ some n = ap file_index ((text_eq_iff x name).0 here) ∙ e in
      max_idx-keeps (max_with m (file_index x)) names n
        (subst (λ o. IsAbove (max_with m o) n) (sym f) (max_with-IsAbove m n))
  | inr away ↦ max_idx-IsAbove (max_with m (file_index x)) names name n (ground (arith, h, away)) e
]

-- The greatest number is 0 entries', or that of a file.
abbrev pub IsBelow : ℕ → Option ℕ → Type 0
IsBelow bound none = Unit
IsBelow bound (some m) = m < bound

after-IsAbove : (m : Option ℕ) (n : ℕ) → IsBelow (2 ^ 64 - 1) m → IsAbove m n → n < after_max m
after-IsAbove none n b h = elim h [ ]
after-IsAbove (some m) n b h = omega (arith, b, h)

-- Unless a file has the greatest number there is, the next number is greater than that of every file of
-- the directory, so that no file is written over.
pub next_partition_file_index-IsFresh :
    (names : List Text) (name : Text) (n : ℕ)
    → IsBelow (2 ^ 64 - 1) (max_idx none names)
    → contains names name ≡ true
    → file_index name ≡ some n
    → n < next_partition_file_index names
unfolding next_partition_file_index
next_partition_file_index-IsFresh names name n b h e =
    after-IsAbove (max_idx none names) n b (max_idx-IsAbove none names name n h e)
