-- ===== src/Read/TopK/Window.antt =====
-- `sorted_window` of src/read.rs computes the window of the sorted stream, in a bounded buffer.
use stata_parquet_io.Prelude.{
  ℕ, zero, suc, min, ◌+◌, ◌≤◌, ◌≡◌, refl, sym, ap, ◌∙◌, List, [], ◌∷◌, ◌++◌, arith, ltb, length,
  take, drop, concat, append_assoc, append-nil, Bool-cases, inl, inr, length-take,
}
use stata_parquet_io.Prelude.Text.{usize_max}
use stata_parquet_io.Prelude.StableSort.{
  Preorder, stable_sort, merge, stable_sort-append, take-merge, stable_sort_of_IsSorted,
  stable_sort-IsSorted, take-IsSorted,
}
use stata_parquet_io.Read.TopK.{TopKBuffer, sorted_slice, push, finish, push_all, sorted_window}

module _ {ℓ} {A : Type ℓ} where
  take-drop-take :
      (k j : ℕ) (n : ℕ) (xs : List A) → k + n ≤ j → take n (drop k (take j xs)) ≡ take n (drop k xs)
  take-drop-take zero j zero xs h = refl
  take-drop-take zero zero (suc n) xs h = absurd (omega arith)
  take-drop-take zero (suc j) (suc n) [] h = refl
  take-drop-take zero (suc j) (suc n) (x ∷ xs) h =
      ap (λ l. x ∷ l) (take-drop-take zero j n xs (omega arith))
  take-drop-take (suc k) zero n xs h = absurd (omega arith)
  take-drop-take (suc k) (suc j) n [] h = refl
  take-drop-take (suc k) (suc j) n (x ∷ xs) h = take-drop-take k j n xs (omega arith)

module _ {ℓ} {A : Type ℓ} (o : Preorder A) where
  -- Cutting a sorted part to its first `k` rows does not show in the first `k` rows of the whole.
  compacted :
      (k : ℕ) (xs ys : List A)
      → take k (stable_sort o (take k (stable_sort o xs) ++ ys)) ≡ take k (stable_sort o (xs ++ ys))
  compacted k xs ys =
      let top = take k (stable_sort o xs) in
      ap (take k) (stable_sort-append o top ys)
      ∙ ap (λ l. take k (merge o l (stable_sort o ys)))
          (stable_sort_of_IsSorted o top
            (take-IsSorted o k (stable_sort o xs) (stable_sort-IsSorted o xs)))
      ∙ take-merge o k k (stable_sort o xs) (stable_sort o ys) (omega arith)
      ∙ ap (take k) (sym (stable_sort-append o xs ys))

  module _ (sort : List A → List A) (sorts : (xs : List A) → sort xs ≡ stable_sort o xs) where
    -- The buffer stands for the rows seen so far, as far as the first `k` of any sort can tell.
    record StandsFor (k : ℕ) (top : TopKBuffer A) (seen : List A) : Type ℓ where
      same_k : top.k ≡ k
      first_rows :
          (later : List A)
          → take k (stable_sort o (top.buffer ++ later)) ≡ take k (stable_sort o (seen ++ later))

    sorted_slice_zero :
        (top : TopKBuffer A) (k : ℕ)
        → k ≤ usize_max
        → sorted_slice sort top 0 k ≡ take k (stable_sort o top.buffer)
    unfolding sorted_slice
    sorted_slice_zero top k h =
        take-drop-take 0 _ k (sort top.buffer) (omega arith) ∙ ap (take k) (sorts top.buffer)

    stacked-first_rows :
        (k : ℕ) (top : TopKBuffer A) (seen batch later : List A)
        → StandsFor k top seen
        → take k (stable_sort o ((top.buffer ++ batch) ++ later))
          ≡ take k (stable_sort o ((seen ++ batch) ++ later))
    stacked-first_rows k top seen batch later s =
        ap (λ l. take k (stable_sort o l)) (append_assoc top.buffer batch later)
        ∙ s.first_rows (batch ++ later)
        ∙ ap (λ l. take k (stable_sort o l)) (sym (append_assoc seen batch later))

    push-StandsFor :
        (k : ℕ) (top : TopKBuffer A) (seen batch : List A)
        → k ≤ usize_max
        → StandsFor k top seen
        → StandsFor k (push sort top batch) (seen ++ batch)
    unfolding push
    push-StandsFor k top seen batch h s =
        elim (Bool-cases (ltb top.compact_at (length (top.buffer ++ batch)))) [
          | inl full ↦ rw full (record { same_k = s.same_k; first_rows = after_compaction })
          | inr fits ↦ rw fits (record {
            same_k = s.same_k;
            first_rows = λ later. stacked-first_rows k top seen batch later s;
          })
        ]
      where
        after_compaction :
            (later : List A)
            → take k (
                stable_sort o (
                  sorted_slice sort (record top { buffer = top.buffer ++ batch }) 0 top.k ++ later))
              ≡ take k (stable_sort o ((seen ++ batch) ++ later))
        after_compaction later =
            let stacked : TopKBuffer A = record top { buffer = top.buffer ++ batch } in
            ap (λ m. take k (stable_sort o (sorted_slice sort stacked 0 m ++ later))) s.same_k
            ∙ ap (λ l. take k (stable_sort o (l ++ later))) (sorted_slice_zero stacked k h)
            ∙ compacted k (top.buffer ++ batch) later
            ∙ stacked-first_rows k top seen batch later s

    push_all-StandsFor :
        (k : ℕ) (top : TopKBuffer A) (seen : List A) (batches : List (List A))
        → k ≤ usize_max
        → StandsFor k top seen
        → StandsFor k (push_all sort top batches) (seen ++ concat batches)
    unfolding push_all
    push_all-StandsFor k top seen [] h s = rw append-nil s
    push_all-StandsFor k top seen (batch ∷ batches) h s =
        rw (append_assoc seen batch (concat batches)) at (
          push_all-StandsFor k (push sort top batch) (seen ++ batch) batches h
            (push-StandsFor k top seen batch h s))

    finish_lem :
        (offset n_rows : ℕ) (top : TopKBuffer A) (seen : List A)
        → offset + n_rows ≤ usize_max
        → StandsFor (offset + n_rows) top seen
        → finish sort top offset n_rows ≡ take n_rows (drop offset (stable_sort o seen))
    unfolding finish sorted_slice
    finish_lem offset n_rows top seen h s =
        take-drop-take offset _ n_rows (sort top.buffer) (omega arith)
        ∙ ap (λ l. take n_rows (drop offset l)) (sorts top.buffer)
        ∙ sym (take-drop-take offset (offset + n_rows) n_rows _ (omega arith))
        ∙ ap (λ l. take n_rows (drop offset l))
            (ap (λ l. take (offset + n_rows) (stable_sort o l)) (sym (append-nil top.buffer))
              ∙ s.first_rows []
              ∙ ap (λ l. take (offset + n_rows) (stable_sort o l)) (append-nil seen))
        ∙ take-drop-take offset (offset + n_rows) n_rows _ (omega arith)

    -- However the stream is cut into batches, `sorted_window` gives the rows `offset` to
    -- `offset + n_rows` of the stream sorted as a whole, ties in stream order, if that bound does
    -- not overflow.
    pub sorted_window_lem :
        (offset n_rows : ℕ) (batches : List (List A))
        → offset + n_rows ≤ usize_max
        → sorted_window sort offset n_rows batches
          ≡ take n_rows (drop offset (stable_sort o (concat batches)))
    unfolding sorted_window finish
    sorted_window_lem offset n_rows batches h = finish_lem offset n_rows _ (concat batches) h (
        push_all-StandsFor (offset + n_rows) _ [] batches h
          (record { same_k = omega arith; first_rows = λ later. refl }))

module _ {ℓ} {A : Type ℓ} (sort : List A → List A) where
  -- The buffer holds at most `compact_at` rows, and a compaction keeps no more than that.
  pub record IsBounded (compact_at : ℕ) (top : TopKBuffer A) : Type 0 where
    pub same_limit : top.compact_at ≡ compact_at
    pub keeps_less : top.k ≤ compact_at
    pub holds_less : length top.buffer ≤ compact_at

  push-IsBounded :
      (c : ℕ) (top : TopKBuffer A) (batch : List A)
      → IsBounded c top
      → IsBounded c (push sort top batch)
  unfolding push sorted_slice
  push-IsBounded c top batch b =
      elim (Bool-cases (ltb top.compact_at (length (top.buffer ++ batch)))) [
        | inl full ↦ rw full (
            omega (
              arith,
              b.same_limit,
              b.keeps_less,
              length-take top.k (take (min usize_max (0 + top.k)) (sort (top.buffer ++ batch))),
            ))
        | inr fits ↦ rw fits (ground arith)
      ]

  -- After any number of batches, of any size, the buffer holds at most `compact_at` rows.
  pub push_all-IsBounded :
      (c : ℕ) (top : TopKBuffer A) (batches : List (List A))
      → IsBounded c top
      → IsBounded c (push_all sort top batches)
  unfolding push_all
  push_all-IsBounded c top [] b = b
  push_all-IsBounded c top (batch ∷ batches) b =
      push_all-IsBounded c (push sort top batch) batches (push-IsBounded c top batch b)
