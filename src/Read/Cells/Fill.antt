-- ===== src/Read/Cells/Fill.antt =====
-- The cells that one column's rows fill.
use stata_parquet_io.Prelude.{
  ℕ, zero, suc, ◌+◌, ◌≡◌, refl, sym, ap, ◌∙◌, Bool, true, false, ◌&&◌, ◌||◌, Option, arith, leb,
  ltb, ◌==◌, if◌then◌else◌, nat_eq, if_false,
}
use stata_parquet_io.Prelude.Text.{text_Eq}
use stata_parquet_io.Read.Cells.{Dataset, kept, replace, fill_rows}

abbrev pub within : ℕ → ℕ → ℕ → Bool
within start end row = leb start row && ltb row end

-- A cell that either of two writes reaches, never both.
two_writes :
    {A : Type 0} (later now either hit : Bool) (v w : A → A) (x : A)
    → either ≡ (later || now)
    → (later && now) ≡ false
    → (now ≡ true → w ≡ v)
    → (if later && hit then v (if now && hit then w x else x) else if now && hit then w x else x)
      ≡ (if either && hit then v x else x)
two_writes true true either hit v w x h apart k = cc
two_writes true false either true v w x h apart k = rw h refl
two_writes true false either false v w x h apart k = rw h refl
two_writes false true either true v w x h apart k = rw h (ap (λ f. f x) (k refl))
two_writes false true either false v w x h apart k = rw h refl
two_writes false false either hit v w x h apart k = rw h refl

module _ {V : Type 0} where
  pub fill_rows-cell :
      (value : ℕ → Option V) (si off col start count : ℕ) (s : Dataset V) (row c : ℕ)
      → fill_rows value si off col start count s (row + (si + 1 + off)) c ≡ (
          if within start (start + count) row && (col + 1 == c)
          then kept (value row) (s (row + (si + 1 + off)) c)
          else s (row + (si + 1 + off)) c)
  unfolding fill_rows
  fill_rows-cell value si off col start zero s row c =
      sym (if_false (within start (start + 0) row && (col + 1 == c)) _ _ (ground arith))
  fill_rows-cell value si off col start (suc count) s row c =
      fill_rows-cell value si off col (start + 1) count
        (replace s (start + si + 1 + off) (col + 1) (value start)) row c
      ∙ two_writes (within (start + 1) (start + 1 + count) row)
          (start + si + 1 + off == row + (si + 1 + off)) (within start (start + suc count) row)
          (col + 1 == c) (kept (value row)) (kept (value start)) (s (row + (si + 1 + off)) c)
          (ground arith) (ground arith) (λ e. ap (λ r. kept (value r)) (ground (arith, e)))
