-- ===== src/Dispatch.antt =====
-- `stata_call` of src/lib.rs: the subcommands of the plugin, their arguments and their return codes.
--
-- What a subcommand calls is a parameter, as a function of the arguments that it is called with. An
-- early `return` is an error with the code it returns, and so is a panic, which `catch_unwind` answers
-- with 198: an argument that is missing is one.
pub mod Call
pub mod Threads
use stata_parquet_io.Prelude.{
  ℕ, zero, suc, ◌+◌, ◌-◌, ◌^◌, Bool, true, false, not, ◌&&◌, ◌||◌, List, [], ◌∷◌, Option, none,
  some, Outcome, ok, err, ◌>>=◌, leb, ltb, ◌==◌, if◌then◌else◌, nat_eq, is_empty, get_elem?, length,
  unwrap_or,
}
use stata_parquet_io.Prelude.Int.{ℤ, pos, negsuc}
use stata_parquet_io.Prelude.Text.{Text, codes, text_Eq, trim, parse_usize, parse_below, show_ℕ}
use stata_parquet_io.Read.Formats.{InputFormat, from_str}

-- What lasts between calls: `POLARS_TOUCHED`, the variable `POLARS_MAX_THREADS`, and the macro `sql_if`.
pub record Session : Type 0 where
  pub polars_touched : Bool
  pub polars_max_threads : Option Text
  pub sql_if : Text

-- `args[i]`.
abbrev pub arg : List Text → ℕ → Outcome ℕ Text
arg args i = elim (get_elem? args i) [ none ↦ err 198 | some s ↦ ok s ]

-- `args[i]` if there are so many, else a default.
abbrev pub arg_or : List Text → ℕ → Text → Text
arg_or args i d = unwrap_or (get_elem? args i) d

abbrev pub is_one : Text → Bool
is_one s = s == codes "1"

-- `parse::<u8>().unwrap_or(0) != 0`.
abbrev pub flag : Text → Bool
flag s = ltb 0 (unwrap_or (parse_below 256 s) 0)

-- `parse::<i32>()`: digits with a sign, no greater than the type.
unfoldable pub parse_i32 : Text → Option ℤ
parse_i32 [] = none
parse_i32 (c ∷ s) =
    if c == b'-'
    then (elim (parse_below (2 ^ 31 + 1) s) [
      | none ↦ none
      | some n ↦ some (elim n [ zero ↦ pos 0 | suc m ↦ negsuc m ])
    ])
    else (elim (parse_below (2 ^ 31) (c ∷ s)) [ none ↦ none | some n ↦ some (pos n) ])

abbrev pub is_pos_one : Option ℤ → Bool
is_pos_one (some (pos n)) = n == 1
is_pos_one _ = false

-- The arguments of `read_to_stata`.
pub record ReadCall : Type 0 where
  pub path : Text
  pub variables : Text
  pub n_rows : ℕ
  pub offset : ℕ
  pub sql_if : Text
  pub mapping : Text
  pub safe_relaxed : Bool
  pub asterisk_to_variable_name : Option Text
  pub order_by : Text
  pub n_obs_already : ℕ
  -- Before it is read as an `f64`.
  pub random_share : Text
  pub random_seed : ℕ
  pub batch_size : Option ℕ
  pub strl_col_names : Text
  pub strl_dta_path : Text
  pub input_format : InputFormat
  pub preserve_order : Bool
  pub infer_schema_length : ℕ
  pub parse_dates : Bool
  pub columns_varlist : Text
  pub skip_metadata : Bool

abbrev pub none_if_empty : Text → Option Text
none_if_empty s = if is_empty s then none else some s

abbrev pub batch_size_arg : List Text → Option ℕ
batch_size_arg args = elim (get_elem? args 12) [
  | none ↦ none
  | some s ↦
      let trimmed = trim s in
      if is_empty trimmed || (trimmed == codes "-1") then none else parse_usize trimmed
]

abbrev pub number_or : List Text → ℕ → ℕ → ℕ
number_or args i d = elim (get_elem? args i) [ none ↦ d | some s ↦ unwrap_or (parse_usize s) d ]

abbrev pub format_arg : Text → Outcome ℕ InputFormat
format_arg s = elim (from_str s) [ none ↦ err 198 | some f ↦ ok f ]

abbrev pub found : (Text → Bool) → Text → Outcome ℕ Bool
found data_exists path = if data_exists path then ok true else err 601

unfoldable pub read_args : (Text → Bool) → List Text → Outcome ℕ ReadCall
read_args data_exists args = do
  path ← arg args 0
  exists ← found data_exists path
  safe_relaxed ← arg args 6
  asterisk ← arg args 7
  input_format ← format_arg (arg_or args 15 (codes "parquet"))
  variables ← arg args 1
  n_rows ← arg args 2
  offset ← arg args 3
  sql_if ← arg args 4
  mapping ← arg args 5
  order_by ← arg args 8
  n_obs_already ← arg args 9
  random_share ← arg args 10
  random_seed ← arg args 11
  ok (record {
    path = path;
    variables = variables;
    n_rows = unwrap_or (parse_usize n_rows) 0;
    offset = unwrap_or (parse_usize offset) 0;
    sql_if = sql_if;
    mapping = mapping;
    safe_relaxed = is_one safe_relaxed;
    asterisk_to_variable_name = none_if_empty asterisk;
    order_by = order_by;
    n_obs_already = unwrap_or (parse_usize n_obs_already) 0;
    random_share = random_share;
    random_seed = unwrap_or (parse_usize random_seed) 0;
    batch_size = batch_size_arg args;
    strl_col_names = arg_or args 13 [];
    strl_dta_path = arg_or args 14 [];
    input_format = input_format;
    preserve_order = is_one (arg_or args 16 []);
    infer_schema_length = number_or args 17 10000;
    parse_dates = is_one (arg_or args 18 []);
    columns_varlist = arg_or args 19 [];
    skip_metadata = is_one (arg_or args 20 []);
  })

-- The arguments of `file_summary`.
pub record DescribeCall : Type 0 where
  pub path : Text
  pub quietly : Bool
  pub detailed : Bool
  pub sql_if : Text
  pub asterisk_to_variable_name : Option Text
  pub compress : Bool
  pub compress_string : Bool
  pub input_format : InputFormat
  pub infer_schema_length : ℕ
  pub parse_dates : Bool
  pub fast : Bool
  pub auto_fast_limit_mb : ℕ
  pub columns_varlist : Text
  pub drop_list : Text
  pub user_cast_json : Text
  pub binary_to_string : Bool
  pub cast_strict : Bool
  pub safe_int64 : Bool

-- An argument that names the macro which holds the text, where it is too long for a call.
abbrev pub or_macro : (Text → Text) → Text → Text → Text
or_macro get_macro name s = if s == name then get_macro name else s

unfoldable pub describe_args : (Text → Bool) → (Text → Text) → List Text → Outcome ℕ DescribeCall
describe_args data_exists get_macro args = do
  path ← arg args 0
  exists ← found data_exists path
  asterisk ← arg args 4
  input_format ← format_arg (arg_or args 7 (codes "parquet"))
  quietly ← arg args 1
  detailed ← arg args 2
  sql_if ← arg args 3
  compress ← arg args 5
  compress_string ← arg args 6
  ok (record {
    path = path;
    quietly = flag quietly;
    detailed = flag detailed;
    sql_if = sql_if;
    asterisk_to_variable_name = none_if_empty asterisk;
    compress = flag compress;
    compress_string = flag compress_string;
    input_format = input_format;
    infer_schema_length = number_or args 8 10000;
    parse_dates = is_one (arg_or args 9 []);
    fast = is_one (arg_or args 10 []);
    auto_fast_limit_mb = number_or args 11 100;
    columns_varlist = or_macro get_macro (codes "pq_namelist_buf") (arg_or args 12 []);
    drop_list = arg_or args 13 [];
    user_cast_json = or_macro get_macro (codes "pq_cast_buf") (arg_or args 14 []);
    binary_to_string = is_one (arg_or args 15 []);
    cast_strict = not (arg_or args 16 (codes "1") == codes "0");
    safe_int64 = is_one (arg_or args 17 []);
  })

-- The arguments of `write_from_stata`.
pub record SaveCall : Type 0 where
  pub path : Text
  pub varlist : Text
  pub n_rows : ℕ
  pub offset : ℕ
  pub sql_if : Text
  pub mapping : Text
  pub partition_by : Text
  pub compression : Text
  pub compression_level : Option ℕ
  pub overwrite_partition : Bool
  pub compress : Bool
  pub compress_string : Bool
  pub quietly : Bool
  pub append_to_partition : Bool
  pub output_format : Text

-- No level where it is -1 or does not parse; `as usize` wraps the other negative ones.
unfoldable pub level_of : Option ℤ → Option ℕ
level_of none = none
level_of (some (pos n)) = some n
level_of (some (negsuc zero)) = none
level_of (some (negsuc (suc n))) = some (2 ^ 64 - 2 - n)

unfoldable pub save_args : List Text → Outcome ℕ SaveCall
save_args args = do
  path ← arg args 0
  varlist ← arg args 1
  n_rows ← arg args 2
  offset ← arg args 3
  sql_if ← arg args 4
  mapping ← arg args 5
  partition_by ← arg args 6
  compression ← arg args 7
  compression_level ← arg args 8
  overwrite_partition ← arg args 9
  compress ← arg args 10
  compress_string ← arg args 11
  quietly ← arg args 12
  append_to_partition ← arg args 13
  ok (record {
    path = path;
    varlist = varlist;
    n_rows = unwrap_or (parse_usize n_rows) 0;
    offset = unwrap_or (parse_usize offset) 0;
    sql_if = sql_if;
    mapping = mapping;
    partition_by = partition_by;
    compression = compression;
    compression_level = level_of (parse_i32 compression_level);
    overwrite_partition = is_pos_one (parse_i32 overwrite_partition);
    compress = flag compress;
    compress_string = flag compress_string;
    quietly = flag quietly;
    append_to_partition = flag append_to_partition;
    output_format = arg_or args 14 (codes "parquet");
  })

-- The arguments of `write_overflow_batch_to_dta`.
pub record OverflowCall : Type 0 where
  pub path : Text
  pub dta_path : Text
  pub columns : Option Text
  pub n_rows : ℕ
  pub offset : ℕ
  pub sql_if : Text
  pub safe_relaxed : Bool
  pub asterisk_to_variable_name : Option Text
  pub random_share : Text
  pub random_seed : ℕ
  pub input_format : InputFormat
  pub infer_schema_length : ℕ
  pub parse_dates : Bool

unfoldable pub overflow_args : (Text → Bool) → List Text → Outcome ℕ OverflowCall
overflow_args data_exists args = do
  path ← arg args 0
  exists ← found data_exists path
  safe_relaxed ← arg args 6
  asterisk ← arg args 7
  input_format ← format_arg (arg_or args 10 (codes "parquet"))
  columns ← arg args 2
  dta_path ← arg args 1
  n_rows ← arg args 3
  offset ← arg args 4
  sql_if ← arg args 5
  random_share ← arg args 8
  random_seed ← arg args 9
  ok (record {
    path = path;
    dta_path = dta_path;
    columns = none_if_empty columns;
    n_rows = unwrap_or (parse_usize n_rows) 0;
    offset = unwrap_or (parse_usize offset) 0;
    sql_if = sql_if;
    safe_relaxed = is_one safe_relaxed;
    asterisk_to_variable_name = none_if_empty asterisk;
    random_share = random_share;
    random_seed = unwrap_or (parse_usize random_seed) 0;
    input_format = input_format;
    infer_schema_length = number_or args 11 10000;
    parse_dates = is_one (arg_or args 12 []);
  })
