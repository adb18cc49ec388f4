-- ===== src/Read/Sampler/Picked.antt =====
-- The rows that `collect_sampled_rows` of src/read.rs picks are the rows of the whole stream at the
-- positions, whatever the batches are.
use stata_parquet_io.Prelude.{
  ap₂, subst, ℕ, zero, suc, ◌+◌, ◌-◌, ◌%◌, ◌≤◌, ◌<◌, ◌≡◌, refl, ap, sym, ◌∙◌, Bool, List, [], ◌∷◌,
  ◌++◌, append_assoc, append-nil, Option, none, some, arith, ltb, if◌then◌else◌, length,
  length-append, is_empty, drop, drop_all, drop_nil, concat, get_elem?, All, Bool-cases, inl, inr,
  true, false,
}
use stata_parquet_io.Read.SplitMix.{u64_mod}
use stata_parquet_io.Read.Sample.Distinct.{IsAscending}
use stata_parquet_io.Read.Sampler.{
  idx_mod, StreamSampler, new, due, is_done, take_batch, sink_batches, collect_sampled_rows,
}

abbrev shift : ℕ → List ℕ → List ℕ
shift base [] = []
shift base (p ∷ ps) = (p - base) ∷ shift base ps

All-ge_zero : (ps : List ℕ) → All (λ p. 0 ≤ p) ps
All-ge_zero [] = tt
All-ge_zero (p ∷ ps) = (omega arith, All-ge_zero ps)

mod_small : (a : ℕ) → a < idx_mod → a % idx_mod ≡ a
mod_small a h = omega arith

shift_zero : (ps : List ℕ) → shift 0 ps ≡ ps
shift_zero [] = refl
shift_zero (p ∷ ps) = ap₂ (λ q qs. q ∷ qs) (omega arith) (shift_zero ps)

All-ge : (m j : ℕ) (xs : List ℕ) → m ≤ j → All (λ x. j < x) xs → All (λ x. m ≤ x) xs
All-ge m j [] h a = tt
All-ge m j (x ∷ xs) h (p, a) = (omega arith, All-ge m j xs h a)

module _ {ℓ} {A : Type ℓ} where
  abbrev pub onto : Option A → List A → List A
  onto none rows = rows
  onto (some row) rows = row ∷ rows

  -- The rows at the positions, in the order of the positions; a position that is out of range has none.
  abbrev pub rows_at : List A → List ℕ → List A
  rows_at rows [] = []
  rows_at rows (p ∷ ps) = onto (get_elem? rows p) (rows_at rows ps)

  onto-append : (o : Option A) (xs ys : List A) → onto o (xs ++ ys) ≡ onto o xs ++ ys
  onto-append none xs ys = refl
  onto-append (some a) xs ys = refl

  get_elem?-append_front :
      (xs ys : List A) (i : ℕ) → i < length xs → get_elem? (xs ++ ys) i ≡ get_elem? xs i
  get_elem?-append_front [] ys i h = absurd (omega arith)
  get_elem?-append_front (x ∷ xs) ys zero h = refl
  get_elem?-append_front (x ∷ xs) ys (suc i) h = get_elem?-append_front xs ys i (omega arith)

  get_elem?-append_back :
      (xs ys : List A) (i j : ℕ) → i ≡ length xs + j → get_elem? (xs ++ ys) i ≡ get_elem? ys j
  get_elem?-append_back [] ys i j h = ap (λ k. get_elem? ys k) (omega (arith, h))
  get_elem?-append_back (x ∷ xs) ys zero j h = absurd (omega arith)
  get_elem?-append_back (x ∷ xs) ys (suc i) j h = get_elem?-append_back xs ys i j (omega arith)

  get_elem?-none : (xs : List A) (i : ℕ) → length xs ≤ i → get_elem? xs i ≡ none
  get_elem?-none [] i h = refl
  get_elem?-none (x ∷ xs) zero h = absurd (omega arith)
  get_elem?-none (x ∷ xs) (suc i) h = get_elem?-none xs i (omega arith)

  rows_at_nil : (ps : List ℕ) → rows_at [] ps ≡ []
  rows_at_nil [] = refl
  rows_at_nil (p ∷ ps) = rows_at_nil ps

  -- Positions past the batch are positions of the rest of the stream.
  rows_at_past :
      (batch rest : List A) (seen : ℕ) (ps : List ℕ)
      → All (λ p. seen + length batch ≤ p) ps
      → rows_at (batch ++ rest) (shift seen ps) ≡ rows_at rest (shift (seen + length batch) ps)
  rows_at_past batch rest seen [] a = refl
  rows_at_past batch rest seen (p ∷ ps) (h, a) =
      ap₂ onto
        (get_elem?-append_back batch rest (p - seen) (p - (seen + length batch)) (omega arith))
        (rows_at_past batch rest seen ps a)

  -- One batch: the rows due are those of the batch at the next positions, and the positions after
  -- them lie past it.
  rows_at-due :
      (batch rest : List A) (seen : ℕ) (ps : List ℕ)
      → length batch < idx_mod
      → All (λ p. seen ≤ p) ps
      → IsAscending ps
      → (rows_at (batch ++ rest) (shift seen ps)
          ≡ rows_at batch (due seen (seen + length batch) ps)
            ++ rows_at rest (
                shift (seen + length batch) (drop (length (due seen (seen + length batch) ps)) ps)))
        × All (λ i. i < length batch) (due seen (seen + length batch) ps)
        × All (λ p. seen + length batch ≤ p) (drop (length (due seen (seen + length batch) ps)) ps)
        × IsAscending (drop (length (due seen (seen + length batch) ps)) ps)
  unfolding due
  rows_at-due batch rest seen [] h low up = (refl, tt, tt, tt)
  rows_at-due batch rest seen (p ∷ ps) h (l, low) (u, up) =
      elim (Bool-cases (ltb p (seen + length batch))) [
        | inl e ↦
            let (rows, fit, past, up') = rows_at-due batch rest seen ps h low up in
            rw (e, mod_small (p - seen) (ground (arith, e)))
              (
                ap₂ onto (get_elem?-append_front batch rest (p - seen) (ground (arith, e))) rows
                    ∙ onto-append (get_elem? batch (p - seen)) _ _,
                (ground (arith, e), fit),
                past,
                up',
              )
        | inr e ↦ rw e (
          rows_at_past batch rest seen (p ∷ ps)
              (ground (arith, e), All-ge (seen + length batch) p ps (ground (arith, e)) u),
          tt,
          (ground (arith, e), All-ge (seen + length batch) p ps (ground (arith, e)) u),
          (u, up),
        )
      ]

  drop-drop : (m n : ℕ) (xs : List A) → drop (m + n) xs ≡ drop n (drop m xs)
  drop-drop zero n xs = ap (λ k. drop k xs) (omega arith)
  drop-drop (suc m) n [] = drop_nil (suc m + n) ∙ sym (drop_nil n)
  drop-drop (suc m) n (x ∷ xs) =
      let e : suc m + n ≡ suc (m + n) = omega arith in
      ap (λ k. drop k (x ∷ xs)) e ∙ drop-drop m n xs

  concat-if :
      (b : Bool) (xss yss : List (List A)) (zs : List A)
      → (b ≡ true → concat xss ≡ zs)
      → concat yss ≡ zs
      → concat (if b then xss else yss) ≡ zs
  concat-if true xss yss zs h k = h refl
  concat-if false xss yss zs h k = k

  -- Where no position is left, no row of the rest is due.
  rows_at-is_done :
      (s : StreamSampler) (rest : List A)
      → is_done s ≡ true
      → rows_at rest (shift s.rows_seen (drop s.next s.positions)) ≡ []
  unfolding is_done
  rows_at-is_done s rest h =
      ap (λ ps. rows_at rest (shift s.rows_seen ps))
        (drop_all s.next s.positions (ground (arith, h)))

  concat-append_one :
      (xss : List (List A)) (xs : List A) → concat (xss ++ (xs ∷ [])) ≡ concat xss ++ xs
  concat-append_one [] xs = append-nil xs
  concat-append_one (ys ∷ xss) xs =
      ap (λ t. ys ++ t) (concat-append_one xss xs) ∙ sym (append_assoc ys (concat xss) xs)

  -- Leaving out an empty part changes nothing.
  concat-append_part :
      (parts : List (List A)) (picked : List A)
      → concat (if is_empty picked then parts else parts ++ (picked ∷ [])) ≡ concat parts ++ picked
  concat-append_part parts [] = sym (append-nil (concat parts))
  concat-append_part parts (row ∷ rows) = concat-append_one parts (row ∷ rows)

-- Rows, and Polars' `take`, which gathers the rows at indices that are in range, in their order.
module _ {ℓ} {A : Type ℓ} (gather : List A → List ℕ → List A)
    (gathers : (rows : List A) (is : List ℕ)
      → All (λ i. i < length rows) is
      → gather rows is ≡ rows_at rows is) where
  -- The batch ends at a row count that does not wrap.
  take_batch_lem :
      (s : StreamSampler) (batch : List A)
      → s.rows_seen + length batch < u64_mod
      → take_batch gather s batch ≡ (
          let local = due s.rows_seen (s.rows_seen + length batch) (drop s.next s.positions) in
          (
            gather batch local,
            record s { next = s.next + length local; rows_seen = s.rows_seen + length batch },
          ))
  unfolding take_batch
  take_batch_lem s batch h =
      let stays : (s.rows_seen + length batch) % u64_mod ≡ s.rows_seen + length batch =
        omega arith in
      rw (stays, take_batch) refl

  sink_batches-rows_at :
      (s : StreamSampler) (parts batches : List (List A))
      → All (λ batch. length batch < idx_mod) batches
      → s.rows_seen + length (concat batches) < u64_mod
      → All (λ p. s.rows_seen ≤ p) (drop s.next s.positions)
      → IsAscending (drop s.next s.positions)
      → concat (sink_batches gather s parts batches)
        ≡ concat parts ++ rows_at (concat batches) (shift s.rows_seen (drop s.next s.positions))
  unfolding sink_batches
  sink_batches-rows_at s parts [] h n low up = sym (
      ap (λ t. concat parts ++ t) (rows_at_nil (shift s.rows_seen (drop s.next s.positions)))
      ∙ append-nil (concat parts))
  sink_batches-rows_at s parts (batch ∷ batches) (h, hs) n low up =
      let ps : List ℕ = drop s.next s.positions in
      let end : ℕ = s.rows_seen + length batch in
      let local : List ℕ = due s.rows_seen end ps in
      let s' : StreamSampler = record s { next = s.next + length local; rows_seen = end } in
      let parts' : List (List A) =
        if is_empty (gather batch local) then parts else parts ++ (gather batch local ∷ []) in
      let (rows, fit, past, up') = rows_at-due batch (concat batches) s.rows_seen ps h low up in
      let moved : drop s'.next s.positions ≡ drop (length local) ps =
        drop-drop s.next (length local) s.positions in
      let size : length (batch ++ concat batches) ≡ length batch + length (concat batches) =
        length-append batch (concat batches) in
      let later =
        sink_batches-rows_at s' parts' batches hs (omega (arith, n, size))
          (subst (λ qs. All (λ p. end ≤ p) qs) (sym moved) past)
          (subst IsAscending (sym moved) up') in
      let kept : concat parts' ≡ concat parts ++ rows_at batch local =
        concat-append_part parts (gather batch local)
        ∙ ap (λ t. concat parts ++ t) (gathers batch local fit) in
      let whole : concat parts' ++ rows_at (concat batches) (shift end (drop s'.next s.positions))
          ≡ concat parts ++ rows_at (batch ++ concat batches) (shift s.rows_seen ps) =
        ap₂ (λ t qs. t ++ rows_at (concat batches) (shift end qs)) kept moved
        ∙ append_assoc (concat parts) (rows_at batch local) _
        ∙ ap (λ t. concat parts ++ t) (sym rows) in
      rw (take_batch_lem s batch (omega (arith, n, size)), sink_batches)
        (concat-if (is_done s') parts' (sink_batches gather s' parts' batches) _
          (λ done.
            sym (append-nil (concat parts'))
            ∙ ap (λ t. concat parts' ++ t) (sym (rows_at-is_done s' (concat batches) done))
            ∙ whole)
          (later ∙ whole))

  -- Positions in strictly ascending order, batches that hold fewer than 2 ^ 32 rows each and fewer than
  -- 2 ^ 64 together: the rows collected are those of the whole stream at the positions, in that order,
  -- however the rows are cut into batches.
  pub collect_sampled_rows_lem :
      (batches : List (List A)) (positions : List ℕ)
      → All (λ batch. length batch < idx_mod) batches
      → length (concat batches) < u64_mod
      → IsAscending positions
      → collect_sampled_rows gather batches positions ≡ rows_at (concat batches) positions
  unfolding collect_sampled_rows
  collect_sampled_rows_lem batches positions h n up =
      sink_batches-rows_at (new gather positions) [] batches h (omega (arith, n))
        (All-ge_zero positions) up
      ∙ ap (λ t. rows_at (concat batches) t) (shift_zero positions)
