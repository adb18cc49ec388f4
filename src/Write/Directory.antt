-- ===== src/Write/Directory.antt =====
-- `is_hive_style_parquet_directory` and `delete_existing_files` of src/write.rs.
--
-- A directory is a tree of entries with their names as bytes of text; a name that is not UTF-8 is `none`.
-- A listing that cannot be read is a parameter of the entry: `unreadable`.
use stata_parquet_io.Prelude.{
  ◌∷◌, ◌++◌, ap₂, unwrap_or, ℕ, ◌≡◌, refl, ap, ◌∙◌, ◌↔◌, Bool, true, false, Option, none, some,
  if◌then◌else◌, nat_eq, if_true, if_false,
}
use stata_parquet_io.Prelude.Parts.{ends_with_iff, contains_char_iff}
use stata_parquet_io.Prelude.Text.{Text, codes, text_Eq, contains_char, ends_with}

mutual
  pub data Entry : Type 0 where
    directory : Option Text → Entries → Entry
    file : Option Text → Entry
    -- Neither, as a broken link.
    special : Entry
    -- The entry, or its directory's listing, cannot be read.
    unreadable : Entry

  pub data Entries : Type 0 where
    no_entries : Entries
    and_entry : Entry → Entries → Entries

abbrev pub has_equals : Option Text → Bool
has_equals none = true
has_equals (some name) = contains_char b'=' name

abbrev pub is_parquet_name : Option Text → Bool
is_parquet_name none = false
is_parquet_name (some name) = ends_with (codes ".parquet") name

-- The loop goes on after an entry that is good; `none` is an error.
abbrev pub and_then_rest : Option Bool → Option Bool → Option Bool
and_then_rest none rest = none
and_then_rest (some true) rest = rest
and_then_rest (some false) rest = some false

unfoldable mutual
  pub check_recursive : Entries → Option Bool
  check_recursive no_entries = some true
  check_recursive (and_entry entry entries) =
      and_then_rest (check_entry entry) (check_recursive entries)

  pub check_entry : Entry → Option Bool
  check_entry (directory name entries) =
      let below = check_recursive entries in if has_equals name then below else some false
  check_entry (file name) = some (is_parquet_name name)
  check_entry special = some true
  check_entry unreadable = none

unfoldable pub is_hive_style_parquet_directory : Entries → Bool
is_hive_style_parquet_directory entries = unwrap_or (check_recursive entries) false

-- What stands at a path.
pub data Node : Type 0 where
  nothing : Node
  regular : Node
  folder : Entries → Node

-- What a removal answers: no error, that there is nothing, or another error.
pub data Removal : Type 0 where
  removed : Removal
  not_found : Removal
  failed : Removal

abbrev pub after_removal : Removal → Node → ℕ × Node
after_removal Removal.removed node = (0, Node.nothing)
after_removal Removal.not_found node = (0, node)
after_removal Removal.failed node = (198, node)

-- The code, and what stands at the path afterwards; `answer` is the file system's. A removal of a
-- directory that fails may have removed some of its entries, which does not show here.
unfoldable pub delete_existing_files : Removal → Text → Bool → Node → ℕ × Node
delete_existing_files answer path false node = (0, node)
delete_existing_files answer path true Node.nothing = (0, Node.nothing)
delete_existing_files answer path true Node.regular =
    if ends_with (codes ".parquet") path
    then after_removal answer Node.regular
    else (0, Node.regular)
delete_existing_files answer path true (Node.folder entries) =
    if is_hive_style_parquet_directory entries
    then after_removal answer (Node.folder entries)
    else (198, Node.folder entries)

-- What the names are to be. A name of a directory that is not UTF-8 passes for one with `=`.
abbrev pub IsPartitionName : Option Text → Type 0
IsPartitionName none = Unit
IsPartitionName (some name) = (column : Text) × (value : Text) × (name ≡ column ++ (b'=' ∷ value))

abbrev pub IsDataName : Option Text → Type 0
IsDataName none = ⊥
IsDataName (some name) = (stem : Text) × (name ≡ stem ++ codes ".parquet")

has_equals_iff : (name : Option Text) → (has_equals name ≡ true) ↔ IsPartitionName name
has_equals_iff none = (λ h. tt, λ h. refl)
has_equals_iff (some name) = contains_char_iff b'=' name

is_parquet_name_iff : (name : Option Text) → (is_parquet_name name ≡ true) ↔ IsDataName name
is_parquet_name_iff none = (λ h. absurd (cc h), λ h. absurd h)
is_parquet_name_iff (some name) = ends_with_iff (codes ".parquet") name

-- Every directory below has such a name, and every file too.
mutual
  pub OnlyHive : Entries → Type 0
  OnlyHive no_entries = Unit
  OnlyHive (and_entry entry entries) = IsHive entry × OnlyHive entries

  pub IsHive : Entry → Type 0
  IsHive (directory name entries) = IsPartitionName name × OnlyHive entries
  IsHive (file name) = IsDataName name
  IsHive special = Unit
  IsHive unreadable = ⊥

some_bool : {a b : Bool} → ◌≡◌ {A = Option Bool} (some a) (some b) → a ≡ b
some_bool h = cc

and_then_rest-true :
    (good rest : Option Bool)
    → and_then_rest good rest ≡ some true
    → (good ≡ some true) × (rest ≡ some true)
and_then_rest-true none rest h = cc
and_then_rest-true (some true) rest h = (refl, h)
and_then_rest-true (some false) rest h = cc

if-true :
    (b : Bool) (below : Option Bool)
    → (if b then below else some false) ≡ some true
    → (b ≡ true) × (below ≡ some true)
if-true true below h = (refl, h)
if-true false below h = cc

none-some : {a : Bool} → ◌≡◌ {A = Option Bool} none (some a) → ⊥
none-some h = cc

mutual
  unfolding check_recursive OnlyHive

  check_recursive-OnlyHive :
      (entries : Entries) → check_recursive entries ≡ some true → OnlyHive entries
  check_recursive-OnlyHive no_entries h = tt
  check_recursive-OnlyHive (and_entry entry entries) h =
      let (one, rest) = and_then_rest-true (check_entry entry) (check_recursive entries) h in
      (check_entry-IsHive entry one, check_recursive-OnlyHive entries rest)

  check_entry-IsHive : (entry : Entry) → check_entry entry ≡ some true → IsHive entry
  check_entry-IsHive (directory name entries) h =
      let (named, below) = if-true (has_equals name) (check_recursive entries) h in
      ((has_equals_iff name).0 named, check_recursive-OnlyHive entries below)
  check_entry-IsHive (file name) h = (is_parquet_name_iff name).0 (some_bool h)
  check_entry-IsHive special h = tt
  check_entry-IsHive unreadable h = none-some h

mutual
  unfolding check_recursive OnlyHive

  OnlyHive-check_recursive :
      (entries : Entries) → OnlyHive entries → check_recursive entries ≡ some true
  OnlyHive-check_recursive no_entries h = refl
  OnlyHive-check_recursive (and_entry entry entries) (h, hs) =
      ap₂ and_then_rest (IsHive-check_entry entry h) (OnlyHive-check_recursive entries hs)

  IsHive-check_entry : (entry : Entry) → IsHive entry → check_entry entry ≡ some true
  IsHive-check_entry (directory name entries) (named, below) =
      if_true (has_equals name) (check_recursive entries) (some false)
        ((has_equals_iff name).1 named)
      ∙ OnlyHive-check_recursive entries below
  IsHive-check_entry (file name) h = ap some ((is_parquet_name_iff name).1 h)
  IsHive-check_entry special h = refl
  IsHive-check_entry unreadable h = elim h [ ]

unwrap_true : (o : Option Bool) → unwrap_or o false ≡ true → o ≡ some true
unwrap_true none h = cc
unwrap_true (some b) h = ap some h

-- A directory passes the test exactly if it can be read all through, every directory below has a name
-- with `=` in it, or one that is not UTF-8, and every file a name that is UTF-8 and ends in `.parquet`.
pub is_hive_style_parquet_directory_iff :
    (entries : Entries) → (is_hive_style_parquet_directory entries ≡ true) ↔ OnlyHive entries
unfolding is_hive_style_parquet_directory
is_hive_style_parquet_directory_iff entries = (
  λ h. check_recursive-OnlyHive entries (unwrap_true (check_recursive entries) h),
  λ h. ap (λ o. unwrap_or o false) (OnlyHive-check_recursive entries h),
)

-- Whatever the removal answers: a folder that is not all hive partitions and Parquet files stays and is an
-- error, a file whose name does not end in `.parquet` stays, and everything stays where no removal
-- was asked for.
pub delete_existing_files-keeps :
    (answer : Removal) (path : Text) (entries : Entries) (node : Node)
    → is_hive_style_parquet_directory entries ≡ false
    → ends_with (codes ".parquet") path ≡ false
    → (delete_existing_files answer path true (Node.folder entries) ≡ (198, Node.folder entries))
      × (delete_existing_files answer path true Node.regular ≡ (0, Node.regular))
      × (delete_existing_files answer path false node ≡ (0, node))
unfolding delete_existing_files
delete_existing_files-keeps answer path entries node h k = (
  if_false (is_hive_style_parquet_directory entries) _ _ h,
  if_false (ends_with (codes ".parquet") path) _ _ k,
  refl,
)
