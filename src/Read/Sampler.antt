-- ===== src/Read/Sampler.antt =====
-- `StreamSampler` and `collect_sampled_rows` of src/read.rs: rows at ascending positions of a stream,
-- picked from its batches.
--
-- Rows are a parameter, and so is Polars' `take` of a data frame, here `gather`.
pub mod Picked
use stata_parquet_io.Prelude.{
  ℕ, ◌+◌, ◌-◌, ◌%◌, ◌^◌, Bool, List, [], ◌∷◌, ◌++◌, leb, ltb, if◌then◌else◌, length, is_empty, drop,
  concat,
}
use stata_parquet_io.Read.SplitMix.{u64_mod}

-- Polars counts the rows of a frame with `IdxSize`, a u32.
abbrev pub idx_mod : ℕ
idx_mod = 4294967296

pub record StreamSampler : Type 0 where
  pub positions : List ℕ
  pub next : ℕ
  pub rows_seen : ℕ

-- The loop of `take`, on the positions from `next` on: the rows of the batch that ends before row `end`.
unfoldable pub due : ℕ → ℕ → List ℕ → List ℕ
due rows_seen end [] = []
due rows_seen end (p ∷ ps) =
    if ltb p end then ((p - rows_seen) % idx_mod) ∷ due rows_seen end ps else []

unfoldable pub is_done : StreamSampler → Bool
is_done s = leb (length s.positions) s.next

module _ {ℓ} {A : Type ℓ} (gather : List A → List ℕ → List A) where
  abbrev pub new : List ℕ → StreamSampler
  new positions = record { positions = positions; next = 0; rows_seen = 0 }

  unfoldable pub take_batch : StreamSampler → List A → List A × StreamSampler
  take_batch s batch =
      let end = (s.rows_seen + length batch) % u64_mod in
      let local = due s.rows_seen end (drop s.next s.positions) in
      (gather batch local, record s { next = s.next + length local; rows_seen = end })

  -- The callback on the batches, which ends the stream where it answers true, with the parts so far.
  unfoldable pub sink_batches : StreamSampler → List (List A) → List (List A) → List (List A)
  sink_batches s parts [] = parts
  sink_batches s parts (batch ∷ batches) =
      let (picked, s') = take_batch s batch in
      let parts' = if is_empty picked then parts else parts ++ (picked ∷ []) in
      let rest = sink_batches s' parts' batches in if is_done s' then parts' else rest

  -- The parts, stacked; no rows where there are none.
  unfoldable pub collect_sampled_rows : List (List A) → List ℕ → List A
  collect_sampled_rows batches positions = concat (sink_batches (new positions) [] batches)
