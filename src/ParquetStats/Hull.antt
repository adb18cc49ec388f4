-- ===== src/ParquetStats/Hull.antt =====
-- The range found for a column (src/parquet_stats.rs) is the hull of the ranges of all row groups of all
-- files, and there is none where one of these cannot be read.
use stata_parquet_io.Prelude.{
  ◌≡◌, refl, sym, ap, ap₂, ◌∙◌, inl, inr, Bool, true, false, List, [], ◌∷◌, ◌++◌, append_assoc,
  append-nil, Option, none, some, arith, ◌==◌, if◌then◌else◌, contains, IsNodup, Bool-cases,
  Option-cases, eqb_refl, subst,
}
use stata_parquet_io.Prelude.Int.{ℤ, min_ℤ, max_ℤ}
use stata_parquet_io.Prelude.Text.{Text, text_Eq, text_eq_iff}
use stata_parquet_io.ParquetStats.{
  RowGroup, Range, chunk_range, widen, file_range, Ranges, distrust, visit_column, visit_columns,
  visit_files, merged, absorb, no_ranges, integer_ranges_from_footer_stats,
}

abbrev pub and_range : Option Range → Option (List Range) → Option (List Range)
and_range none rs = none
and_range (some r) none = none
and_range (some r) (some rs) = some (r ∷ rs)

-- The ranges of the row groups, where every one has one.
abbrev pub group_ranges : Text → List RowGroup → Option (List Range)
group_ranges name [] = some []
group_ranges name (row_group ∷ row_groups) =
    and_range (chunk_range (row_group name)) (group_ranges name row_groups)

abbrev pub file_ranges : Text → Option (List RowGroup) → Option (List Range)
file_ranges name none = none
file_ranges name (some row_groups) = group_ranges name row_groups

abbrev pub both : Option (List Range) → Option (List Range) → Option (List Range)
both none more = none
both (some rs) none = none
both (some rs) (some more) = some (rs ++ more)

abbrev pub all_ranges : Text → List (Option (List RowGroup)) → Option (List Range)
all_ranges name [] = some []
all_ranges name (file ∷ files) = both (file_ranges name file) (all_ranges name files)

both-none : (c : Option (List Range)) → both c none ≡ none
both-none none = refl
both-none (some rs) = refl

both-nil : (c : Option (List Range)) → both c (some []) ≡ c
both-nil none = refl
both-nil (some rs) = ap some (append-nil rs)

both-start : (c : Option (List Range)) → both (some []) c ≡ c
both-start none = refl
both-start (some rs) = refl

both_assoc : (a b c : Option (List Range)) → both (both a b) c ≡ both a (both b c)
both_assoc none b c = refl
both_assoc (some rs) none c = refl
both_assoc (some rs) (some ss) none = refl
both_assoc (some rs) (some ss) (some ts) = ap some (append_assoc rs ss ts)

abbrev widen_all : Range → List Range → Range
widen_all r [] = r
widen_all r (s ∷ rs) = widen_all (widen r s) rs

-- The least range around all; none around nothing.
abbrev pub hull : Option (List Range) → Option Range
hull none = none
hull (some []) = none
hull (some (r ∷ rs)) = some (widen_all r rs)

min_ℤ_assoc : (a b c : ℤ) → min_ℤ (min_ℤ a b) c ≡ min_ℤ a (min_ℤ b c)
min_ℤ_assoc a b c = ground arith

max_ℤ_assoc : (a b c : ℤ) → max_ℤ (max_ℤ a b) c ≡ max_ℤ a (max_ℤ b c)
max_ℤ_assoc a b c = ground arith

widen_assoc : (r s t : Range) → widen (widen r s) t ≡ widen r (widen s t)
unfolding widen
widen_assoc (a, b) (c, d) (e, f) = ap₂ (λ x y. (x, y)) (min_ℤ_assoc a c e) (max_ℤ_assoc b d f)

widen_all-widen :
    (r s : Range) (rs : List Range) → widen_all (widen r s) rs ≡ widen r (widen_all s rs)
widen_all-widen r s [] = refl
widen_all-widen r s (t ∷ rs) =
    ap (λ x. widen_all x rs) (widen_assoc r s t) ∙ widen_all-widen r (widen s t) rs

widen_all-append :
    (r : Range) (rs ts : List Range) → widen_all r (rs ++ ts) ≡ widen_all (widen_all r rs) ts
widen_all-append r [] ts = refl
widen_all-append r (s ∷ rs) ts = widen_all-append (widen r s) rs ts

abbrev finish : Range → Option (List Range) → Option (Bool × Option Range)
finish r none = none
finish r (some rs) = some (true, some (widen_all r rs))

finish-and_range :
    (r a : Range) (o : Option (List Range)) → finish (widen r a) o ≡ finish r (and_range (some a) o)
finish-and_range r a none = refl
finish-and_range r a (some rs) = refl

file_range-finish :
    (name : Text) (gs : List RowGroup) (r : Range)
    → file_range name gs true (some r) ≡ finish r (group_ranges name gs)
unfolding file_range
file_range-finish name [] r = refl
file_range-finish name (g ∷ gs) r = elim (Option-cases (chunk_range (g name))) [
  | inl e ↦ rw (e, file_range) refl
  | inr (a, e) ↦
      rw (e, file_range)
        (file_range-finish name gs (widen r a) ∙ finish-and_range r a (group_ranges name gs))
]

-- The first row group with a range sets the file's, the others widen it.
file_range-first :
    (name : Text) (g : RowGroup) (gs : List RowGroup) (a : Range)
    → chunk_range (g name) ≡ some a
    → file_range name (g ∷ gs) false none ≡ finish a (group_ranges name gs)
unfolding file_range
file_range-first name g gs a e = rw (e, file_range) (file_range-finish name gs a)

file_range-none :
    (name : Text) (g : RowGroup) (gs : List RowGroup)
    → chunk_range (g name) ≡ none
    → file_range name (g ∷ gs) false none ≡ none
unfolding file_range
file_range-none name g gs e = rw (e, file_range) refl

-- What is known of a column: that it is not to be trusted, or the hull of the ranges so far.
abbrev Agrees : Ranges → Text → Option (List Range) → Type 0
Agrees s name none = s.untrustworthy name ≡ true
Agrees s name (some rs) = (s.untrustworthy name ≡ false) × (s.ranges name ≡ hull (some rs))

distrust-Agrees : (s : Ranges) (name : Text) → Agrees (distrust s name) name none
distrust-Agrees s name = rw (eqb_refl name) refl

hull-append :
    (rs ts : List Range) (a : Range)
    → some (merged (hull (some rs)) (widen_all a ts)) ≡ hull (some (rs ++ (a ∷ ts)))
hull-append [] ts a = refl
hull-append (r ∷ rs) ts a =
    ap some (sym (widen_all-widen (widen_all r rs) a ts) ∙ sym (widen_all-append r rs (a ∷ ts)))

absorb-Agrees :
    (s : Ranges) (name : Text) (rs : List Range) (a : Range) (o : Option (List Range))
    → Agrees s name (some rs)
    → Agrees (absorb s name (finish a o)) name (both (some rs) (and_range (some a) o))
absorb-Agrees s name rs a none h = distrust-Agrees s name
absorb-Agrees s name rs a (some ts) (trusted, known) =
    rw (eqb_refl name)
      (trusted, ap (λ k. some (merged k (widen_all a ts))) known ∙ hull-append rs ts a)

visit_trusted :
    (gs : List RowGroup) (s : Ranges) (name : Text)
    → s.untrustworthy name ≡ false
    → visit_column gs s name ≡ absorb s name (file_range name gs false none)
unfolding visit_column
visit_trusted gs s name h = rw (h, visit_column) refl

visit_distrusted :
    (gs : List RowGroup) (s : Ranges) (name : Text)
    → s.untrustworthy name ≡ true
    → visit_column gs s name ≡ s
unfolding visit_column
visit_distrusted gs s name h = rw (h, visit_column) refl

visit_column-Agrees :
    (gs : List RowGroup) (s : Ranges) (name : Text) (c : Option (List Range))
    → Agrees s name c
    → Agrees (visit_column gs s name) name (both c (group_ranges name gs))
unfolding visit_column file_range
visit_column-Agrees gs s name none h = rw (h, visit_column) h
visit_column-Agrees [] s name (some rs) (trusted, known) =
    rw (trusted, visit_column) (trusted, known ∙ ap (λ l. hull (some l)) (sym (append-nil rs)))
visit_column-Agrees (g ∷ gs) s name (some rs) (trusted, known) =
    subst (λ t. Agrees t name (both (some rs) (group_ranges name (g ∷ gs))))
      (sym (visit_trusted (g ∷ gs) s name trusted))
      (elim (Option-cases (chunk_range (g name))) [
        | inl e ↦ rw (file_range-none name g gs e, e) (distrust-Agrees s name)
        | inr (a, e) ↦
            rw (file_range-first name g gs a e, e)
              (absorb-Agrees s name rs a (group_ranges name gs) (trusted, known))
      ])

-- A column that is visited leaves the others as they are.
absorb-other :
    (s : Ranges) (name n : Text) (c : Option (List Range)) (o : Option (Bool × Option Range))
    → (name == n) ≡ false
    → Agrees s n c
    → Agrees (absorb s name o) n c
absorb-other s name n none none e h = rw e h
absorb-other s name n (some rs) none e h = rw e h
absorb-other s name n c (some (false, r)) e h = h
absorb-other s name n none (some (true, none)) e h = rw e h
absorb-other s name n (some rs) (some (true, none)) e h = rw e h
absorb-other s name n none (some (true, some r)) e h = h
absorb-other s name n (some rs) (some (true, some r)) e h = rw e h

visit_column-other :
    (gs : List RowGroup) (s : Ranges) (name n : Text) (c : Option (List Range))
    → (name == n) ≡ false
    → Agrees s n c
    → Agrees (visit_column gs s name) n c
visit_column-other gs s name n c e h = elim (Bool-cases (s.untrustworthy name)) [
  | inl t ↦ subst (λ x. Agrees x n c) (sym (visit_distrusted gs s name t)) h
  | inr t ↦
      subst (λ x. Agrees x n c) (sym (visit_trusted gs s name t))
        (absorb-other s name n c (file_range name gs false none) e h)
]

distrust-other :
    (s : Ranges) (name n : Text) (c : Option (List Range))
    → (name == n) ≡ false
    → Agrees s n c
    → Agrees (distrust s name) n c
distrust-other s name n c e h = absorb-other s name n c none e h

visit_columns-absent :
    (file : Option (List RowGroup)) (s : Ranges) (names : List Text) (n : Text)
    (c : Option (List Range))
    → contains names n ≡ false
    → Agrees s n c
    → Agrees (visit_columns file s names) n c
unfolding visit_columns
visit_columns-absent file s [] n c a h = h
visit_columns-absent none s (name ∷ names) n c a h =
    visit_columns-absent none (distrust s name) names n c (ground (arith, a))
      (distrust-other s name n c (ground (arith, a)) h)
visit_columns-absent (some gs) s (name ∷ names) n c a h =
    visit_columns-absent (some gs) (visit_column gs s name) names n c (ground (arith, a))
      (visit_column-other gs s name n c (ground (arith, a)) h)

visit_columns-Agrees :
    (file : Option (List RowGroup)) (s : Ranges) (names : List Text) (n : Text)
    (c : Option (List Range))
    → IsNodup names
    → contains names n ≡ true
    → Agrees s n c
    → Agrees (visit_columns file s names) n (both c (file_ranges n file))
unfolding visit_columns
visit_columns-Agrees file s [] n c d a h = absurd cc
visit_columns-Agrees none s (name ∷ names) n c (fresh, d) a h = elim (Bool-cases (name == n)) [
  | inl e ↦
      let same : name ≡ n = (text_eq_iff name n).0 e in
      visit_columns-absent none (distrust s name) names n (both c none)
        (ap (contains names) (sym same) ∙ fresh)
        (subst (λ o. Agrees (distrust s name) n o) (sym (both-none c))
          (subst (λ x. Agrees (distrust s name) x none) same (distrust-Agrees s name)))
  | inr e ↦
      visit_columns-Agrees none (distrust s name) names n c d (ground (arith, a, e))
        (distrust-other s name n c e h)
]
visit_columns-Agrees (some gs) s (name ∷ names) n c (fresh, d) a h = elim (Bool-cases (name == n)) [
  | inl e ↦
      let same : name ≡ n = (text_eq_iff name n).0 e in
      visit_columns-absent (some gs) (visit_column gs s name) names n (both c (group_ranges n gs))
        (ap (contains names) (sym same) ∙ fresh)
        (subst (λ x. Agrees (visit_column gs s x) n (both c (group_ranges n gs))) (sym same)
          (visit_column-Agrees gs s n c h))
  | inr e ↦
      visit_columns-Agrees (some gs) (visit_column gs s name) names n c d (ground (arith, a, e))
        (visit_column-other gs s name n c e h)
]

visit_files-Agrees :
    (files : List (Option (List RowGroup))) (names : List Text) (s : Ranges) (n : Text)
    (c : Option (List Range))
    → IsNodup names
    → contains names n ≡ true
    → Agrees s n c
    → Agrees (visit_files files names s) n (both c (all_ranges n files))
unfolding visit_files
visit_files-Agrees [] names s n c d a h = subst (λ o. Agrees s n o) (sym (both-nil c)) h
visit_files-Agrees (file ∷ files) names s n c d a h =
    subst (λ o. Agrees (visit_files files names (visit_columns file s names)) n o)
      (both_assoc c (file_ranges n file) (all_ranges n files))
      (visit_files-Agrees files names (visit_columns file s names) n (both c (file_ranges n file)) d
        a (visit_columns-Agrees file s names n c d a h))

Agrees-hull :
    (s : Ranges) (n : Text) (c : Option (List Range))
    → Agrees s n c
    → (if s.untrustworthy n then none else s.ranges n) ≡ hull c
Agrees-hull s n none h = rw h refl
Agrees-hull s n (some rs) (trusted, known) = rw trusted known

-- For names that all differ: the map has for each of them the hull of the ranges of all row groups of
-- all files, and nothing where a file cannot be read, where a row group gives the column no range, or
-- where there is no row group.
pub integer_ranges_from_footer_stats-eq-hull :
    (files : List (Option (List RowGroup))) (column_names : List Text) (name : Text)
    → IsNodup column_names
    → contains column_names name ≡ true
    → integer_ranges_from_footer_stats files column_names name ≡ hull (all_ranges name files)
unfolding integer_ranges_from_footer_stats
integer_ranges_from_footer_stats-eq-hull files column_names name d a =
    Agrees-hull (visit_files files column_names no_ranges) name (all_ranges name files) (
      subst (λ o. Agrees (visit_files files column_names no_ranges) name o)
        (both-start (all_ranges name files))
        (visit_files-Agrees files column_names no_ranges name (some []) d a (refl, refl)))
