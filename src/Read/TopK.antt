-- ===== src/Read/TopK.antt =====
-- `TopKBuffer` and `sorted_window` of src/read.rs: the rows of a window of a sort, kept from batches
-- in a bounded buffer, and that the result is the window of the whole sort.
--
-- Rows are a parameter. So is Polars' `sort_impl` with `maintain_order`, here `sort`, as it acts on
-- the rows that `sorted_slice` gathers; what it is documented to do is the hypothesis of the section.
pub mod Window
use stata_parquet_io.Prelude.{
  ℕ, ◌+◌, ◌*◌, ◌^◌, List, [], ◌∷◌, ◌++◌, ltb, if◌then◌else◌, length, take, drop, min, max,
}
use stata_parquet_io.Prelude.Text.{usize_max}

abbrev pub saturating_add : ℕ → ℕ → ℕ
saturating_add a b = min usize_max (a + b)

abbrev saturating_mul : ℕ → ℕ → ℕ
saturating_mul a b = min usize_max (a * b)

pub record TopKBuffer {ℓ} (A : Type ℓ) : Type ℓ where
  pub buffer : List A
  pub k : ℕ
  pub compact_at : ℕ

module _ {ℓ} {A : Type ℓ} (sort : List A → List A) where
  abbrev pub new : ℕ → ℕ → TopKBuffer A
  new k compact_at = record { buffer = []; k = k; compact_at = max compact_at k }

  -- Rows `offset` to `offset + len` of the sorted buffer: the top rows, and a slice of them.
  unfoldable pub sorted_slice : TopKBuffer A → ℕ → ℕ → List A
  sorted_slice top offset len =
      take len (drop offset (take (saturating_add offset len) (sort top.buffer)))

  unfoldable pub push : TopKBuffer A → List A → TopKBuffer A
  push top batch =
      let stacked = record top { buffer = top.buffer ++ batch } in
      if ltb top.compact_at (length stacked.buffer)
      then record stacked { buffer = sorted_slice stacked 0 top.k }
      else stacked

  unfoldable pub finish : TopKBuffer A → ℕ → ℕ → List A
  finish top offset n_rows = sorted_slice top offset n_rows

  -- The batches of the stream, pushed in order.
  unfoldable pub push_all : TopKBuffer A → List (List A) → TopKBuffer A
  push_all top [] = top
  push_all top (batch ∷ batches) = push_all (push top batch) batches

  unfoldable pub sorted_window : ℕ → ℕ → List (List A) → List A
  sorted_window offset n_rows batches =
      let k = saturating_add offset n_rows in
      finish (push_all (new k (max (saturating_mul k 2) (2 ^ 16))) batches) offset n_rows
