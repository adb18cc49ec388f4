-- ===== src/Read/Cells/Strategy.antt =====
-- The two ways of src/read.rs to write a batch agree, and write each cell of it at its place.
use stata_parquet_io.Prelude.{
  ℕ, zero, suc, ◌+◌, ◌-◌, ◌≤◌, ◌≡◌, refl, sym, ap, ◌∙◌, inl, inr, Bool, true, false, ◌&&◌, ◌||◌,
  List, [], ◌∷◌, Option, none, some, Outcome, ok, err, arith, leb, ltb, ◌==◌, if◌then◌else◌, is_ok,
  nat_eq, is_empty, min, All, Bool-cases, if_true, if_false, if_both,
}
use stata_parquet_io.Prelude.Text.{text_Eq}
use stata_parquet_io.Mapping.{ColumnInfo}
use stata_parquet_io.Read.Cells.{
  Dataset, kept, write_effect, column_effect, process_row_range, process_batch_single_thread,
  process_chunks, chunk_size, process_regular_by_row, regular_columns, process_batch_with_strategy,
}
use stata_parquet_io.Read.Cells.Fill.{within, fill_rows-cell}

-- Two steps on rows that are apart make one.
join_steps :
    {A : Type 0} (later now whole : Bool) (f : A → A) (s0 s1 s2 : A)
    → whole ≡ (later || now)
    → (later && now) ≡ false
    → s1 ≡ (if now then f s0 else s0)
    → s2 ≡ (if later then f s1 else s1)
    → s2 ≡ (if whole then f s0 else s0)
join_steps true true whole f s0 s1 s2 e apart h1 h2 = cc
join_steps true false whole f s0 s1 s2 e apart h1 h2 = rw e (h2 ∙ ap f h1)
join_steps false now whole f s0 s1 s2 e apart h1 h2 = rw e (h2 ∙ h1)

module _ {C V E : Type 0} (column : ColumnInfo → Outcome E C)
    (values : ColumnInfo → C → Outcome E (Option (ℕ → Option V))) (binary_error : E) where
  -- The column is there and can be written.
  abbrev pub Readable : ColumnInfo → Type 0
  Readable col_info = is_ok (column_effect column values binary_error col_info) ≡ true

  abbrev effect_in : Outcome E (Option (ℕ → Option V)) → Option (ℕ → Option V)
  effect_in (ok effect) = effect
  effect_in (err e) = none

  abbrev pub effect_of : ColumnInfo → Option (ℕ → Option V)
  effect_of col_info = effect_in (column_effect column values binary_error col_info)

  effect_in-ok : (o : Outcome E (Option (ℕ → Option V))) → is_ok o ≡ true → o ≡ ok (effect_in o)
  effect_in-ok (ok effect) h = refl
  effect_in-ok (err e) h = cc

  abbrev pub over : Option (ℕ → Option V) → Bool → ℕ → Option V → Option V
  over none hit row old = old
  over (some value) hit row old = if hit then kept (value row) old else old

  -- What the columns make of the cell in column `c` of a row, the last one that has it.
  abbrev pub cell_after : List ColumnInfo → ℕ → ℕ → Option V → Option V
  cell_after [] row c old = old
  cell_after (col_info ∷ columns) row c old =
      cell_after columns row c (over (effect_of col_info) (col_info.index + 1 == c) row old)

  nested :
      (a b : Bool) (v x : Option V)
      → (if a && b then v else x) ≡ (if a then (if b then v else x) else x)
  nested true b v x = refl
  nested false b v x = refl

  write_effect-cell :
      (effect : Option (ℕ → Option V)) (si off col start end : ℕ) (s : Dataset V) (row c : ℕ)
      → start ≤ end
      → write_effect effect si off col start end s (row + (si + 1 + off)) c ≡ (
          if within start end row
          then over effect (col + 1 == c) row (s (row + (si + 1 + off)) c)
          else s (row + (si + 1 + off)) c)
  write_effect-cell none si off col start end s row c h =
      sym (if_both (λ x. x ≡ s (row + (si + 1 + off)) c) (within start end row) _ _ refl refl)
  write_effect-cell (some value) si off col start end s row c h =
      let whole : start + (end - start) ≡ end = omega arith in
      fill_rows-cell value si off col start (end - start) s row c
      ∙ ap
          (λ n.
            if within start n row && (col + 1 == c)
            then kept (value row) (s (row + (si + 1 + off)) c)
            else s (row + (si + 1 + off)) c)
          whole
      ∙ nested (within start end row) (col + 1 == c) (kept (value row) (s (row + (si + 1 + off)) c))
          (s (row + (si + 1 + off)) c)

  process_row_range-cell :
      (columns : List ColumnInfo) (si off start end : ℕ) (s : Dataset V) (row c : ℕ)
      → start ≤ end
      → All Readable columns
      → (let (s', failure) =
            process_row_range column values binary_error si off start end columns s in
          (failure ≡ none)
          × (s' (row + (si + 1 + off)) c ≡ (
              if within start end row
              then cell_after columns row c (s (row + (si + 1 + off)) c)
              else s (row + (si + 1 + off)) c)))
  unfolding process_row_range
  process_row_range-cell [] si off start end s row c h readable = (
    refl,
    sym (if_both (λ x. x ≡ s (row + (si + 1 + off)) c) (within start end row) _ _ refl refl),
  )
  process_row_range-cell (col_info ∷ columns) si off start end s row c h (can, readable) =
      let effect : Option (ℕ → Option V) = effect_of col_info in
      let e : column_effect column values binary_error col_info ≡ ok effect =
        effect_in-ok (column_effect column values binary_error col_info) can in
      let s1 : Dataset V = write_effect effect si off col_info.index start end s in
      let (fine, cell) = process_row_range-cell columns si off start end s1 row c h readable in
      let one = write_effect-cell effect si off col_info.index start end s row c h in
      rw (e, process_row_range)
        (
          fine,
          cell ∙ elim (Bool-cases (within start end row)) [
            | inl w ↦
                if_true (within start end row) _ _ w
                ∙ ap (cell_after columns row c) (one ∙ if_true (within start end row) _ _ w)
                ∙ sym (if_true (within start end row) _ _ w)
            | inr w ↦
                if_false (within start end row) _ _ w
                ∙ one
                ∙ if_false (within start end row) _ _ w
                ∙ sym (if_false (within start end row) _ _ w)
          ],
        )

  process_chunks-cell :
      (rounds : ℕ) (columns : List ColumnInfo) (start size n si off : ℕ) (s : Dataset V) (row c : ℕ)
      → 1 ≤ size
      → n ≤ start + rounds
      → All Readable columns
      → (let (s', failure) =
            process_chunks column values binary_error rounds start size n si off columns s in
          (failure ≡ none)
          × (s' (row + (si + 1 + off)) c ≡ (
              if within start n row
              then cell_after columns row c (s (row + (si + 1 + off)) c)
              else s (row + (si + 1 + off)) c)))
  unfolding process_chunks
  process_chunks-cell zero columns start size n si off s row c one enough readable =
      (refl, sym (if_false (within start n row) _ _ (ground (arith, enough))))
  process_chunks-cell (suc rounds) columns start size n si off s row c one enough readable =
      elim (Bool-cases (leb n start)) [
        | inl e ↦ rw e (refl, sym (if_false (within start n row) _ _ (ground (arith, e))))
        | inr e ↦
            let stop : ℕ = min (start + size) n in
            let s1 : Dataset V =
              (process_row_range column values binary_error si off start stop columns s).0 in
            let (fine1, cell1) =
              process_row_range-cell columns si off start stop s row c (ground (arith, e))
                readable in
            let (fine2, cell2) =
              process_chunks-cell rounds columns (start + size) size n si off s1 row c one
                (ground (arith, enough)) readable in
            rw (e, fine1)
              (
                fine2,
                join_steps (within (start + size) n row) (within start stop row)
                    (within start n row) (cell_after columns row c) (s (row + (si + 1 + off)) c)
                    (s1 (row + (si + 1 + off)) c) _ (ground (arith, e, one))
                    (ground (arith, e, one)) cell1 cell2,
              )
      ]

  process_regular-cell :
      (columns : List ColumnInfo) (num_threads n si off : ℕ) (s : Dataset V) (row c : ℕ)
      → All Readable columns
      → (let (s', failure) =
            if is_empty columns
            then (s, none)
            else process_regular_by_row column values binary_error num_threads n si off columns s in
          (failure ≡ none)
          × (s' (row + (si + 1 + off)) c ≡ (
              if within 0 n row
              then cell_after columns row c (s (row + (si + 1 + off)) c)
              else s (row + (si + 1 + off)) c)))
  unfolding process_regular_by_row
  process_regular-cell [] num_threads n si off s row c readable =
      (refl, sym (if_both (λ x. x ≡ s (row + (si + 1 + off)) c) (within 0 n row) _ _ refl refl))
  process_regular-cell (col_info ∷ columns) num_threads n si off s row c readable =
      process_chunks-cell n (col_info ∷ columns) 0 (chunk_size n num_threads) n si off s row c
        (ground arith) (omega arith) readable

  -- Where each column that is neither a `strL` nor binary is there and can be written, a batch is written
  -- without an error, whichever way is chosen: the cell of row `row` of the batch, at its place after the
  -- rows before it, is what these columns make of it, in order, and rows from `n` on keep what they had.
  pub process_batch_with_strategy-cell :
      (columns : List ColumnInfo) (n_threads num_threads n si off : ℕ) (s : Dataset V) (row c : ℕ)
      → All Readable (regular_columns columns)
      → (let (s', failure) =
            process_batch_with_strategy column values binary_error n_threads num_threads n si off
              columns s in
          (failure ≡ none)
          × (s' (row + (si + 1 + off)) c ≡ (
              if ltb row n
              then cell_after (regular_columns columns) row c (s (row + (si + 1 + off)) c)
              else s (row + (si + 1 + off)) c)))
  unfolding process_batch_with_strategy process_batch_single_thread
  process_batch_with_strategy-cell columns n_threads num_threads n si off s row c readable =
      let old : Option V = s (row + (si + 1 + off)) c in
      let new : Option V = cell_after (regular_columns columns) row c old in
      let bound : within 0 n row ≡ ltb row n = ground arith in
      let to_bound = ap (λ b. if b then new else old) bound in
      elim (Bool-cases (leb n_threads 1 || ltb n 10_000)) [
        | inl e ↦
            let (fine, cell) =
              process_row_range-cell (regular_columns columns) si off 0 n s row c (omega arith)
                readable in
            rw e (fine, cell ∙ to_bound)
        | inr e ↦
            let (fine, cell) =
              process_regular-cell (regular_columns columns) num_threads n si off s row c
                readable in
            rw e (fine, cell ∙ to_bound)
      ]
