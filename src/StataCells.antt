-- ===== src/StataCells.antt =====
-- `read_numeric` of src/stata_interface.rs and `replace_number` of crates/stata-sys: the numbers in the cells
-- of Stata.
--
-- What a variable keeps of a number that is stored in it, and which numbers are codes of missing values, is
-- Stata's: parameters, with what Stata documents of them as laws.
use stata_parquet_io.Prelude.{◌≡◌, Bool, false, Option, none, some, if◌then◌else◌}
use stata_parquet_io.Prelude.Int.{ℤ}
use stata_parquet_io.Mapping.{StataType}
use stata_parquet_io.Mapping.Ranges.{Holds}
use stata_parquet_io.Floats.{Floats}

module _ (floats : Floats) where
  open floats use {F, of_int}

  -- `vstore` is what `SF_vdata` gives of a number that `SF_vstore` put in a variable of the type.
  pub record Variables : Type 0 where
    pub vstore : StataType → F → F
    pub is_missing : F → Bool

  -- The integers within the range of a type are kept and are not missing, and a double keeps every number.
  pub record AreStata (vars : Variables) : Type 0 where
    pub keeps : (t : StataType) (z : ℤ) → Holds t z → vars.vstore t (of_int z) ≡ of_int z
    pub is_there : (t : StataType) (z : ℤ) → Holds t z → vars.is_missing (of_int z) ≡ false
    pub double_keeps : (x : F) → vars.is_missing x ≡ false → vars.vstore StataType.double x ≡ x

  -- The type of the variable that the command creates for a storage type.
  abbrev pub variable_type : StataType → StataType
  variable_type StataType.date = StataType.long
  variable_type StataType.time = StataType.double
  variable_type StataType.datetime = StataType.double
  variable_type t = t

  module _ (vars : Variables) where
    open vars use {vstore, is_missing}

    -- What `SF_vdata` gives, or none where its status is not 0.
    abbrev pub read_numeric : Option F → Option F
    read_numeric none = none
    read_numeric (some result) = if is_missing result then none else some result

    -- The cell after a call, from the cell before.
    abbrev pub replace_number : StataType → Option F → F → F
    replace_number t none before = before
    replace_number t (some val) before = vstore t val
