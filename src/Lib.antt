-- ===== src/Lib.antt =====
-- A verification library for the Stata plugin that reads and writes Parquet, CSV, SAS, SPSS and Stata
-- files by way of Polars: its Rust sources under src/.
--
-- The program. Stata calls the plugin (`stata_call` of src/lib.rs) with a subcommand. "describe"
-- (src/describe.rs) finds the columns of a file, their storage types (src/mapping.rs, with
-- src/parquet_stats.rs) and the metadata that an earlier save left (src/stata_metadata.rs), and puts
-- them into macros. "read" (src/read.rs) resolves the variables asked for, filters by a condition made
-- SQL (src/sql_from_if.rs), sorts, samples and writes the rows to Stata batch by batch. "save"
-- (src/write.rs) reads the rows of Stata and writes files. src/fast_cache.rs keeps a frame between a
-- describe and the read that follows, and resolves variable lists. src/downcast.rs makes columns
-- narrower.
--
-- The modules, and the code each is about:
--   Prelude      shared types and lemmas: tests, lists, results, integers, texts, a stable sort.
--   DataTypes    Polars' `DataType` as far as the sources name its variants, and schemas.
--   FastCache    src/fast_cache.rs. Glob: `stata_glob_match`. Varlist: `resolve_varlist`. Cache:
--                `store`, `take`, `clear`, with the static as explicit state.
--   Floats       the operations of an `f64` that the sources use on cells, as a record, and what is exact.
--   Read         src/read.rs. TopK: `TopKBuffer`, `sorted_window`. BatchSize: the batch sizes, with the
--                one of src/write.rs. SplitMix: `SplitMix64`. Sample: `sample_row_indices`. Sampler:
--                `StreamSampler`, `collect_sampled_rows`. Batches: the loop of
--                `read_to_stata_from_readstat_batches`. Formats: `InputFormat`. Cells:
--                `process_batch_with_strategy` and the functions below it, down to the cells.
--                Selection: the batches of readstat, the sample, the sort and the window of
--                `read_to_stata`.
--                Values: what a cell becomes, by the types of its column.
--   SqlFromIf    src/sql_from_if.rs: `stata_to_sql`, with what its regular expressions do as parameters.
--   Mapping      src/mapping.rs: `StataType` and its maps from and to Polars' types. Rename:
--                `generate_rename_map`.
--   Downcast     src/downcast.rs: the casts that are chosen, recorded and replayed.
--   ParquetStats src/parquet_stats.rs: the ranges of integer columns from the footers of files.
--   Describe     src/describe.rs: the storage types that override the default ones, and the test of
--                64-bit columns.
--   Dispatch     src/lib.rs. The arguments of each subcommand; Call: `stata_call` with what it calls as
--                parameters; Threads: sessions of calls.
--   StataMetadata src/stata_metadata.rs: labels, notes and formats from macros to an envelope and back,
--                and `read_metadata_validated` over the files of a path.
--   Write        src/write.rs. Directory: `delete_existing_files` on a tree of entries. Index: the number
--                of the next file of a partition. Columns: the columns as macros describe them, and the
--                compression of a file. Scan: `StataDataScan`, which reads the cells of Stata. Partition:
--                `save_partitioned_sequential`, with the disk as a list of files. Save: `write_from_stata`
--                and what it calls, with what stands at its path as the state. Consolidation:
--                `consolidate_parquet_dir`, with the temporary path as well.
--   StataCells   `read_numeric` of src/stata_interface.rs and `replace_number` of
--                crates/stata-sys/src/lib.rs, on a cell.
--   CellRoundTrip the cells that src/read.rs writes and the values that src/write.rs reads from them.
--   Tests        runs on concrete inputs.
--
-- How it is modelled. State is a value: a buffer, a sampler, a cache, a random state, the progress of a
-- loop. Texts are lists of code points. Rows, frames and errors of Polars are parameters, and what is
-- used of Polars is a parameter with its documented behaviour as a named hypothesis: that its sort with
-- `maintain_order` is a stable sort, that `take` gathers rows, that a stream gives its batches in order.
-- A `u64` keeps its wrap-around (`% 2 ^ 64`); counts of rows held in memory are plain numbers. The loop
-- of `SplitMix64::below` is recursion on fuel, 2 ^ 64 rounds, which is enough since its state takes each
-- value once before it repeats. The search of a free suffix in `generate_rename_map` has as many rounds
-- as an `i32` counts before it overflows. The chunks of `process_regular_by_row` have a row at least, so
-- that there are no more of them than rows. All other loops are structural.
--
-- Macros are a function of their names, and a name of more than 32 characters sets nothing. A macro is
-- read through a buffer of 1,024 bytes, so that what is stated of reading macros takes a function
-- `read` that leaves shorter texts whole. An `f64` is any type with the operations of `Floats`; that
-- small integers are exact in it is a hypothesis. A partitioned save acts on a list of files with
-- their folders and rows; which folders cannot be created and which writes fail are parameters. What a
-- variable of Stata keeps of a number, and which numbers it takes for missing, are parameters with
-- laws, and so is Polars' search for the files of a folder.
--
-- Not modelled: the contents of files, the operating system's paths, threads (each batch is one step),
-- printing, JSON and Parquet texts, and the other bindings to Stata, which are I/O or third-party.
pub mod Prelude
pub mod FastCache
pub mod DataTypes
pub mod Floats
pub mod Mapping
pub mod Downcast
pub mod ParquetStats
pub mod Describe
pub mod Read
pub mod Dispatch
pub mod Write
pub mod StataCells
pub mod CellRoundTrip
pub mod SqlFromIf
pub mod StataMetadata
pub mod Tests
