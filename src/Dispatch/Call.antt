-- ===== src/Dispatch/Call.antt =====
-- `stata_call` of src/lib.rs, from the arguments that Stata passes to the return code.
use stata_parquet_io.Prelude.{
  ℕ, Bool, true, ◌||◌, List, [], ◌∷◌, Option, none, some, Outcome, ok, err, ◌>>=◌, ltb, ◌==◌,
  if◌then◌else◌, nat_eq,
}
use stata_parquet_io.Prelude.Text.{Text, codes, text_Eq, trim, parse_usize, show_ℕ}
use stata_parquet_io.Dispatch.{
  Session, arg, arg_or, is_one, found, parse_i32, is_pos_one, ReadCall, read_args, DescribeCall,
  describe_args, SaveCall, save_args, OverflowCall, overflow_args,
}

-- What the subcommands call. An error of `read_to_stata` and the like is the error, `err`, of the outcome; a
-- panic in one of them is an early return with 198 as well, and does not stand here.
pub record Handlers : Type 0 where
  pub data_exists : Text → Bool
  pub get_macro : Text → Text
  pub read_to_stata : ReadCall → Outcome Text ℕ
  pub file_summary : DescribeCall → ℕ
  pub write_from_stata : SaveCall → Outcome Text ℕ
  pub describe_metadata : Text → Bool → Outcome Text Bool
  pub write_overflow_batch_to_dta : OverflowCall → Outcome Text ℕ
  pub delete_existing_files : Text → Bool → ℕ
  pub create_dir_all : Text → Outcome Text Bool
  pub consolidate_parquet_dir : Text → Outcome Text ℕ
  pub stata_to_sql : Text → Text

-- The code in either case.
abbrev pub code_of : Outcome ℕ ℕ → ℕ
code_of (ok rc) = rc
code_of (err rc) = rc

-- The code where the callee succeeds, or the one for its error.
abbrev pub code_or : ℕ → Outcome Text ℕ → ℕ
code_or failed (ok rc) = rc
code_or failed (err e) = failed

abbrev pub set_threads : Session → List Text → ℕ × Session
set_threads s args =
    let n_str = trim (arg_or args 0 []) in
    elim (parse_usize n_str) [
      | none ↦ (198, s)
      | some n ↦
          if ltb n 1
          then (198, s)
          else if s.polars_touched
          then (198, s)
          else (0, record s { polars_max_threads = some (show_ℕ n) })
    ]

module _ (h : Handlers) where
  abbrev pub read_code : List Text → ℕ
  read_code args =
      code_of (do call ← read_args h.data_exists args; ok (code_or 0 (h.read_to_stata call)))

  abbrev pub describe_code : List Text → ℕ
  describe_code args =
      code_of (do call ← describe_args h.data_exists h.get_macro args; ok (h.file_summary call))

  abbrev pub save_code : List Text → ℕ
  save_code args =
      code_of
        (do call ← save_args args; ok (elim (h.write_from_stata call) [ ok rc ↦ 0 | err e ↦ 198 ]))

  abbrev pub describe_stata_metadata_code : List Text → ℕ
  describe_stata_metadata_code args = code_of (do
    path ← arg args 0
    exists ← found h.data_exists path
    ok (elim (h.describe_metadata path (is_one (arg_or args 1 []))) [ ok done ↦ 0 | err e ↦ 198 ]))

  abbrev pub write_overflow_dta_code : List Text → ℕ
  write_overflow_dta_code args = code_of (do
    call ← overflow_args h.data_exists args
    ok (code_or 198 (h.write_overflow_batch_to_dta call)))

  abbrev pub clean_path_code : List Text → ℕ
  clean_path_code args = code_of (do
    path ← arg args 0
    create_dir ← arg args 1
    let delete_error = h.delete_existing_files path true
    ok (
        if ltb 0 delete_error
        then delete_error
        else if is_pos_one (parse_i32 create_dir)
        then (elim (h.create_dir_all path) [ ok done ↦ 0 | err e ↦ 198 ])
        else 0))

  abbrev pub consolidate_code : List Text → ℕ
  consolidate_code args =
      code_of (do path ← arg args 0; ok (code_or 198 (h.consolidate_parquet_dir path)))

  abbrev pub set_sql_if : Session → List Text → ℕ × Session
  set_sql_if s args = elim (arg args 0) [
    | err rc ↦ (rc, s)
    | ok condition ↦ (0, record s { sql_if = h.stata_to_sql condition })
  ]

  abbrev pub is_setup : Text → Bool
  is_setup name = (name == codes "setup_check") || (name == codes "set_threads")

  unfoldable pub run : Session → Text → List Text → ℕ × Session
  run s name args =
      if name == codes "setup_check"
      then (0, s)
      else if name == codes "set_threads"
      then set_threads s args
      else if name == codes "read"
      then (read_code args, s)
      else if name == codes "describe"
      then (describe_code args, s)
      else if name == codes "save"
      then (save_code args, s)
      else if name == codes "describe_stata_metadata"
      then (describe_stata_metadata_code args, s)
      else if name == codes "write_overflow_dta"
      then (write_overflow_dta_code args, s)
      else if name == codes "clean_path"
      then (clean_path_code args, s)
      else if name == codes "consolidate"
      then (consolidate_code args, s)
      else if name == codes "if"
      then set_sql_if s args
      else (198, s)

  -- The texts of the arguments; a null pointer, or bytes that are not UTF-8, is `none`.
  abbrev pub all_texts : List (Option Text) → Option (List Text)
  all_texts [] = some []
  all_texts (none ∷ argv) = none
  all_texts (some s ∷ argv) = elim (all_texts argv) [ none ↦ none | some rest ↦ some (s ∷ rest) ]

  unfoldable pub stata_call : Session → List (Option Text) → ℕ × Session
  stata_call s argv = elim (all_texts argv) [
    | none ↦ (198, s)
    | some args ↦ elim args [
      | [] ↦ (198, s)
      | name ∷ rest ↦
          let touched = if is_setup name then s else record s { polars_touched = true } in
          run touched name rest
    ]
  ]
