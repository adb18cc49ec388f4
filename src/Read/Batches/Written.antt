-- ===== src/Read/Batches/Written.antt =====
-- What the loop of `read_to_stata_from_readstat_batches` of src/read.rs writes, however the rows come
-- in batches.
use stata_parquet_io.Prelude.{
  ℕ, zero, suc, ◌+◌, ◌-◌, ◌≡◌, refl, sym, ap, ◌∙◌, true, List, [], ◌∷◌, ◌++◌, append_assoc,
  append-nil, ltb, leb, if◌then◌else◌, length, length-append, is_empty, take, drop, take_all,
  take_nil, drop_nil, concat, Outcome, ok, subst, Option-cases, Outcome-cases, Option, none,
  is_empty-eq_nil, ◌>>=◌, min, arith, Bool-cases, ◌⊎◌, inl, inr,
}
use stata_parquet_io.Read.Batches.{Progress, window, skipped, advanced, stream, start, read_batches}

module _ {ℓ} {A : Type ℓ} where
  abbrev pub rows_of : List (ℕ × List A) → List A
  rows_of [] = []
  rows_of ((row, batch) ∷ written) = batch ++ rows_of written

  -- Each batch starts at the row where the one before it ends.
  abbrev pub IsContiguous : ℕ → List (ℕ × List A) → Type ℓ
  IsContiguous n [] = Unit
  IsContiguous n ((row, batch) ∷ written) = (row ≡ n) × IsContiguous (n + length batch) written

  rows_of-append :
      (xs : List (ℕ × List A)) (row : ℕ) (batch : List A)
      → rows_of (xs ++ ((row, batch) ∷ [])) ≡ rows_of xs ++ batch
  rows_of-append [] row batch = append-nil batch
  rows_of-append ((r, b) ∷ xs) row batch =
      ap (λ t. b ++ t) (rows_of-append xs row batch) ∙ sym (append_assoc b (rows_of xs) batch)

  IsContiguous-append :
      (n : ℕ) (xs : List (ℕ × List A)) (batch : List A)
      → IsContiguous n xs
      → IsContiguous n (xs ++ ((n + length (rows_of xs), batch) ∷ []))
  IsContiguous-append n [] batch c = (omega arith, tt)
  IsContiguous-append n ((r, b) ∷ xs) batch (e, c) =
      let size : n + length (b ++ rows_of xs) ≡ n + length b + length (rows_of xs) =
        omega (arith, length-append b (rows_of xs)) in
      rw size (e, IsContiguous-append (n + length b) xs batch c)

  drop-append :
      (k : ℕ) (xs ys : List A)
      → drop k (xs ++ ys) ≡ drop (min k (length xs)) xs ++ drop (k - min k (length xs)) ys
  drop-append zero xs ys = let none_cut : min 0 (length xs) ≡ 0 = omega arith in rw none_cut refl
  drop-append (suc k) [] ys =
      let none_cut : min (suc k) 0 ≡ 0 = omega arith in
      let all : suc k - 0 ≡ suc k = omega arith in rw (none_cut, all) refl
  drop-append (suc k) (x ∷ xs) ys =
      let one : min (suc k) (suc (length xs)) ≡ suc (min k (length xs)) = omega arith in
      let rest : suc k - suc (min k (length xs)) ≡ k - min k (length xs) = omega arith in
      rw (one, rest) (drop-append k xs ys)

  take-append :
      (n : ℕ) (xs ys : List A) → take n (xs ++ ys) ≡ take n xs ++ take (n - length (take n xs)) ys
  take-append zero xs ys = refl
  take-append (suc n) [] ys = let all : suc n - 0 ≡ suc n = omega arith in rw all refl
  take-append (suc n) (x ∷ xs) ys =
      let rest : suc n - suc (length (take n xs)) ≡ n - length (take n xs) = omega arith in
      rw rest (ap (λ t. x ∷ t) (take-append n xs ys))

  cut_lem : (n : ℕ) (xs : List A) → (if ltb n (length xs) then take n xs else xs) ≡ take n xs
  cut_lem n xs = elim (Bool-cases (ltb n (length xs))) [
    | inl e ↦ rw e refl
    | inr e ↦ rw e (sym (take_all n xs (ground (arith, e))))
  ]

  skip_lem :
      (k n : ℕ) (xs : List A) → (if ltb 0 k then drop (min k n) xs else xs) ≡ drop (min k n) xs
  skip_lem zero n xs = let none_cut : min 0 n ≡ 0 = omega arith in rw none_cut refl
  skip_lem (suc k) n xs = let yes : ltb 0 (suc k) ≡ true = ground arith in rw yes refl

  window_lem :
      (s : Progress A) (batch : List A)
      → window s batch ≡ take s.rows_remaining (drop (min s.rows_to_skip (length batch)) batch)
  unfolding window
  window_lem s batch =
      cut_lem s.rows_remaining _
      ∙ ap (λ t. take s.rows_remaining t) (skip_lem s.rows_to_skip (length batch) batch)

  -- One batch and the rest: the window of the whole is that of the batch and then the rest's.
  window-append :
      (s : Progress A) (batch rest : List A)
      → take s.rows_remaining (drop s.rows_to_skip (batch ++ rest))
        ≡ window s batch
          ++ take
              (s.rows_remaining - length (window s batch))
              (drop (s.rows_to_skip - min s.rows_to_skip (length batch)) rest)
  window-append s batch rest = rw (window_lem s batch) (
      ap (λ t. take s.rows_remaining t) (drop-append s.rows_to_skip batch rest)
      ∙ take-append s.rows_remaining (drop (min s.rows_to_skip (length batch)) batch) _)

  window-empty :
      (s : Progress A) (batch rest : List A)
      → is_empty (window s batch) ≡ true
      → take s.rows_remaining (drop s.rows_to_skip (batch ++ rest))
        ≡ take s.rows_remaining (drop (s.rows_to_skip - min s.rows_to_skip (length batch)) rest)
  window-empty s batch rest h =
      let nothing : window s batch ≡ [] = is_empty-eq_nil (window s batch) h in
      let all : s.rows_remaining - 0 ≡ s.rows_remaining = omega arith in
      window-append s batch rest
      ∙ ap
          (λ t.
            t
            ++ take (s.rows_remaining - length t)
                (drop (s.rows_to_skip - min s.rows_to_skip (length batch)) rest))
          nothing
      ∙ ap (λ n. take n (drop (s.rows_to_skip - min s.rows_to_skip (length batch)) rest)) all

module _ {A : Type 0} {E : Type 0}
    (apply_cast_to_batch apply_sql_filter_to_batch : List A → Outcome E (List A))
    (process_batch : List A → ℕ → Option E) where
  -- The batches arrive without error, and `frames` are what the cast and the filter make of them.
  abbrev pub Delivers : List (Outcome E (List A)) → List (List A) → Type 0
  Delivers [] [] = Unit
  Delivers [] (frame ∷ frames) = ⊥
  Delivers (item ∷ iter) [] = ⊥
  Delivers (item ∷ iter) (frame ∷ frames) =
      ((item >>= apply_cast_to_batch >>= apply_sql_filter_to_batch) ≡ ok frame)
      × Delivers iter frames

  stream-rows_of :
      (s : Progress A) (iter : List (Outcome E (List A))) (frames : List (List A))
      → Delivers iter frames
      → ((batch : List A) (row : ℕ) → process_batch batch row ≡ none)
      → (let (code, end) =
            stream apply_cast_to_batch apply_sql_filter_to_batch process_batch s iter in
          (code ≡ 0)
          × (rows_of end.written
              ≡ rows_of s.written ++ take s.rows_remaining (drop s.rows_to_skip (concat frames))))
  unfolding stream
  stream-rows_of s [] [] d p = (
    refl,
    rw (drop_nil {A = A} s.rows_to_skip, take_nil {A = A} s.rows_remaining)
        (sym (append-nil (rows_of s.written))),
  )
  stream-rows_of s [] (frame ∷ frames) d p = elim d [ ]
  stream-rows_of s (item ∷ iter) [] d p = elim d [ ]
  stream-rows_of s (item ∷ iter) (frame ∷ frames) (e, d) p =
      elim (Bool-cases (leb s.rows_remaining 0)) [
        | inl ended ↦
            let gone : s.rows_remaining ≡ 0 = ground (arith, ended) in
            rw (ended, stream)
              (
                refl,
                sym (append-nil (rows_of s.written))
                    ∙ ap
                        (λ n.
                          rows_of s.written
                          ++ take n (drop s.rows_to_skip (concat (frame ∷ frames))))
                        (sym gone),
              )
        | inr goes ↦ elim (Bool-cases (is_empty (window s frame))) [
          | inl empty ↦
              let (code, rows) = stream-rows_of (skipped s frame) iter frames d p in
              rw (goes, e, empty, stream)
                (
                  code,
                  rows
                      ∙ ap (λ t. rows_of s.written ++ t)
                          (sym (window-empty s frame (concat frames) empty)),
                )
          | inr full ↦
              let (code, rows) =
                stream-rows_of (advanced (skipped s frame) (window s frame)) iter frames d p in
              rw (goes, e, full, p (window s frame) s.rows_written, stream)
                (
                  code,
                  rows
                      ∙ ap
                          (λ t.
                            t
                            ++ take (s.rows_remaining - length (window s frame)) (
                                drop (s.rows_to_skip - min s.rows_to_skip (length frame))
                                  (concat frames)))
                          (rows_of-append s.written s.rows_written (window s frame))
                      ∙ append_assoc (rows_of s.written) (window s frame) _
                      ∙ ap (λ t. rows_of s.written ++ t)
                          (sym (window-append s frame (concat frames))),
                )
        ]
      ]

  -- Whatever fails: what was written stands in one piece from row 0 on, and is counted.
  abbrev IsCounted : Progress A → Type 0
  IsCounted s = IsContiguous 0 s.written × (s.rows_written ≡ length (rows_of s.written))

  advanced-IsCounted :
      (s : Progress A) (batch : List A) → IsCounted s → IsCounted (advanced s batch)
  advanced-IsCounted s batch (c, n) =
      let at_end : IsContiguous 0 (s.written ++ ((s.rows_written, batch) ∷ [])) =
        subst (λ r. IsContiguous 0 (s.written ++ ((r, batch) ∷ []))) (omega (arith, n))
          (IsContiguous-append 0 s.written batch c) in
      (
        at_end,
        ap (λ r. r + length batch) n
            ∙ sym (length-append (rows_of s.written) batch)
            ∙ ap length (sym (rows_of-append s.written s.rows_written batch)),
      )

  stream-IsCounted :
      (s : Progress A) (iter : List (Outcome E (List A)))
      → IsCounted s
      → (let (code, end) =
            stream apply_cast_to_batch apply_sql_filter_to_batch process_batch s iter in
          ((code ≡ 0) ⊎ (code ≡ 198)) × IsCounted end)
  unfolding stream
  stream-IsCounted s [] c = (inl refl, c)
  stream-IsCounted s (item ∷ iter) c = elim (Bool-cases (leb s.rows_remaining 0)) [
    | inl ended ↦ rw (ended, stream) (inl refl, c)
    | inr goes ↦ elim (Outcome-cases (item >>= apply_cast_to_batch >>= apply_sql_filter_to_batch)) [
      | inr (e, failed) ↦ rw (goes, failed, stream) (inr refl, c)
      | inl (batch, got) ↦ elim (Bool-cases (is_empty (window s batch))) [
        | inl empty ↦ rw (goes, got, empty, stream) (stream-IsCounted (skipped s batch) iter c)
        | inr full ↦ elim (Option-cases (process_batch (window s batch) s.rows_written)) [
          | inr (e, failed) ↦ rw (goes, got, full, failed, stream) (inr refl, c)
          | inl fine ↦
              rw (goes, got, full, fine, stream)
                (stream-IsCounted (advanced (skipped s batch) (window s batch)) iter
                  (advanced-IsCounted (skipped s batch) (window s batch) c))
        ]
      ]
    ]
  ]

  -- No batch fails, and `frames` are the batches cast and filtered: the code is 0, and the rows written
  -- are the `n_rows` (or fewer, where there are no more) after the first `offset` of all the frames'.
  pub read_batches-rows_of :
      (offset n_rows : ℕ) (iter : List (Outcome E (List A))) (frames : List (List A))
      → Delivers iter frames
      → ((batch : List A) (row : ℕ) → process_batch batch row ≡ none)
      → (let (code, end) =
            read_batches apply_cast_to_batch apply_sql_filter_to_batch process_batch offset n_rows
              iter in
          (code ≡ 0) × (rows_of end.written ≡ take n_rows (drop offset (concat frames))))
  read_batches-rows_of offset n_rows iter frames d p =
      stream-rows_of
        (start apply_cast_to_batch apply_sql_filter_to_batch process_batch offset n_rows) iter
        frames d p

  -- Whatever fails, and when: the code is 0 or 198, each batch written starts at the row where the one
  -- before it ends, the first at row 0, and `rows_written` counts their rows.
  pub read_batches-IsContiguous :
      (offset n_rows : ℕ) (iter : List (Outcome E (List A)))
      → (let (code, end) =
            read_batches apply_cast_to_batch apply_sql_filter_to_batch process_batch offset n_rows
              iter in
          ((code ≡ 0) ⊎ (code ≡ 198))
          × (IsContiguous 0 end.written × (end.rows_written ≡ length (rows_of end.written))))
  read_batches-IsContiguous offset n_rows iter =
      stream-IsCounted
        (start apply_cast_to_batch apply_sql_filter_to_batch process_batch offset n_rows) iter
        (tt, refl)
