-- ===== src/FastCache/Selection.antt =====
-- What a successful `resolve_varlist` of src/fast_cache.rs selects, and in which order.
use stata_parquet_io.Prelude.{
  ◌≡◌, refl, sym, ◌∙◌, ap, Bool, true, false, not, ◌&&◌, ◌||◌, List, [], ◌∷◌, ◌++◌, arith,
  if◌then◌else◌, is_empty, any, retain, contains, IsNodup, ok, >>=-eq-ok, ok_injective, Bool-cases,
  inl, inr,
}
use stata_parquet_io.Prelude.Membership.{
  contains-append, contains-retain, IsNodup-concat, IsNodup-retain,
}
use stata_parquet_io.Prelude.Text.{Text, text_Eq, text_eq_iff, trim, split_whitespace}
use stata_parquet_io.FastCache.Varlist.{
  hits, add_hits, match_patterns, takes_all, match_namelist, drop_matches, apply_drop,
  resolve_varlist,
}

-- Appends the columns that are not there yet, each once.
abbrev pub add_new : List Text → List Text → List Text
add_new result [] = result
add_new result (col ∷ cols) =
    add_new (if contains result col then result else result ++ col ∷ []) cols

-- The columns that each pattern takes, in file order, one pattern after the other.
abbrev pub taken : List Text → List Text → List Text
taken schema_cols [] = []
taken schema_cols (pattern ∷ patterns) =
    retain (hits pattern) schema_cols ++ taken schema_cols patterns

add_new-append :
    (result xs ys : List Text) → add_new result (xs ++ ys) ≡ add_new (add_new result xs) ys
add_new-append result [] ys = refl
add_new-append result (x ∷ xs) ys =
    add_new-append (if contains result x then result else result ++ x ∷ []) xs ys

add_hits-eq-add_new :
    (pattern : Text) (cols result : List Text) (found : Bool)
    → (add_hits pattern cols result found).0 ≡ add_new result (retain (hits pattern) cols)
unfolding add_hits
add_hits-eq-add_new pattern [] result found = refl
add_hits-eq-add_new pattern (col ∷ cols) result found = ground (
  arith,
  add_hits-eq-add_new pattern cols result found,
  add_hits-eq-add_new pattern cols (result ++ col ∷ []) true,
)

match_patterns-eq-add_new :
    (schema_cols patterns result unmatched : List Text)
    → (match_patterns schema_cols patterns result unmatched).0
      ≡ add_new result (taken schema_cols patterns)
unfolding match_patterns
match_patterns-eq-add_new schema_cols [] result unmatched = refl
match_patterns-eq-add_new schema_cols (pattern ∷ patterns) result unmatched =
    match_patterns-eq-add_new schema_cols patterns _ _
    ∙ rw (add_hits-eq-add_new pattern schema_cols result false)
        (sym (add_new-append result (retain (hits pattern) schema_cols) _))

-- The columns that the name list asks for, in order.
abbrev pub asked : Text → List Text → List Text
asked namelist schema_cols =
    if takes_all (trim namelist)
    then schema_cols
    else add_new [] (taken schema_cols (split_whitespace (trim namelist)))

match_namelist-eq-asked :
    (namelist : Text) (schema_cols : List Text) {matched : List Text}
    → match_namelist namelist schema_cols ≡ ok matched
    → matched ≡ asked namelist schema_cols
unfolding match_namelist
match_namelist-eq-asked namelist schema_cols h =
    ground (arith, match_patterns-eq-add_new schema_cols (split_whitespace (trim namelist)) [] [])

-- Whether the drop list takes a column.
abbrev pub dropped : Text → Text → Bool
dropped drop_list col = not (is_empty (trim drop_list)) && drop_matches (trim drop_list) col

retain_ext :
    (p q : Text → Bool) (cols : List Text)
    → ((col : Text) → p col ≡ q col)
    → retain p cols ≡ retain q cols
retain_ext p q [] h = refl
retain_ext p q (col ∷ cols) h = ground (arith, h col, retain_ext p q cols h)

retain-true :
    (p : Text → Bool) (cols : List Text) → ((col : Text) → p col ≡ true) → retain p cols ≡ cols
retain-true p [] h = refl
retain-true p (col ∷ cols) h = ground (arith, h col, retain-true p cols h)

apply_drop-eq-retain :
    (drop_list : Text) (matched : List Text)
    → apply_drop drop_list matched ≡ retain (λ col. not (dropped drop_list col)) matched
unfolding apply_drop
apply_drop-eq-retain drop_list matched = elim (Bool-cases (is_empty (trim drop_list))) [
  | inl blank ↦ rw blank (
      sym (
        retain-true (λ col. not (not true && drop_matches (trim drop_list) col)) matched
          (λ col. refl)))
  | inr given ↦ rw given
]

-- A resolved variable list is what its patterns take, in the order of the patterns and for each of
-- them in file order, each column once, less what the drop list takes.
pub resolve_varlist-eq :
    (namelist drop_list : Text) (schema_cols cols : List Text)
    → resolve_varlist namelist schema_cols drop_list ≡ ok cols
    → cols ≡ retain (λ col. not (dropped drop_list col)) (asked namelist schema_cols)
unfolding resolve_varlist
resolve_varlist-eq namelist drop_list schema_cols cols h =
    let (matched, found, kept) = >>=-eq-ok (match_namelist namelist schema_cols) _ h in
    sym (ok_injective kept)
    ∙ apply_drop-eq-retain drop_list matched
    ∙ ap (retain (λ col. not (dropped drop_list col)))
        (match_namelist-eq-asked namelist schema_cols found)

-- Whether the name list takes a column.
abbrev pub selected : Text → Text → Bool
selected namelist col =
    takes_all (trim namelist)
    || any (λ pattern. hits pattern col) (split_whitespace (trim namelist))

contains-add_new :
    (result cols : List Text) (a : Text)
    → contains (add_new result cols) a ≡ (contains result a || contains cols a)
contains-add_new result [] a = ground arith
contains-add_new result (col ∷ cols) a = ground (
  arith,
  contains-add_new result cols a,
  contains-add_new (result ++ col ∷ []) cols a,
  contains-append result (col ∷ []) a,
  text_eq_iff col a,
)

contains-taken :
    (schema_cols patterns : List Text) (a : Text)
    → contains (taken schema_cols patterns) a
      ≡ (contains schema_cols a && any (λ pattern. hits pattern a) patterns)
contains-taken schema_cols [] a = ground arith
contains-taken schema_cols (pattern ∷ patterns) a = ground (
  arith,
  contains-append (retain (hits pattern) schema_cols) (taken schema_cols patterns) a,
  contains-retain (hits pattern) schema_cols a,
  contains-taken schema_cols patterns a,
)

contains-asked :
    (namelist : Text) (schema_cols : List Text) (a : Text)
    → contains (asked namelist schema_cols) a ≡ (contains schema_cols a && selected namelist a)
contains-asked namelist schema_cols a = ground (
  arith,
  contains-add_new [] (taken schema_cols (split_whitespace (trim namelist))) a,
  contains-taken schema_cols (split_whitespace (trim namelist)) a,
)

-- A column is in a resolved variable list exactly if the file has it, the name list takes it and
-- the drop list does not.
pub contains-resolve_varlist :
    (namelist drop_list : Text) (schema_cols cols : List Text)
    → resolve_varlist namelist schema_cols drop_list ≡ ok cols
    → (a : Text)
    → contains cols a ≡ (contains schema_cols a && selected namelist a && not (dropped drop_list a))
contains-resolve_varlist namelist drop_list schema_cols cols h a = ground (
  arith,
  ap (λ l. contains l a) (resolve_varlist-eq namelist drop_list schema_cols cols h),
  contains-retain (λ col. not (dropped drop_list col)) (asked namelist schema_cols) a,
  contains-asked namelist schema_cols a,
)

IsNodup-add_new : (result cols : List Text) → IsNodup result → IsNodup (add_new result cols)
IsNodup-add_new result [] h = h
IsNodup-add_new result (col ∷ cols) h = elim (Bool-cases (contains result col)) [
  | inl old ↦ rw old (IsNodup-add_new result cols h)
  | inr new ↦ rw new (IsNodup-add_new (result ++ col ∷ []) cols (IsNodup-concat result col new h))
]

asked-IsNodup :
    (namelist : Text) (schema_cols : List Text)
    → IsNodup schema_cols
    → IsNodup (asked namelist schema_cols)
asked-IsNodup namelist schema_cols distinct = elim (Bool-cases (takes_all (trim namelist))) [
  | inl every ↦ rw every distinct
  | inr patterns ↦
      rw patterns (IsNodup-add_new [] (taken schema_cols (split_whitespace (trim namelist))) tt)
]

-- Where the columns of the file have different names, no column is resolved twice, whatever the
-- patterns.
pub resolve_varlist-IsNodup :
    (namelist drop_list : Text) (schema_cols cols : List Text)
    → IsNodup schema_cols
    → resolve_varlist namelist schema_cols drop_list ≡ ok cols
    → IsNodup cols
resolve_varlist-IsNodup namelist drop_list schema_cols cols distinct h =
    rw (resolve_varlist-eq namelist drop_list schema_cols cols h) (
      IsNodup-retain (λ col. not (dropped drop_list col)) (asked namelist schema_cols)
        (asked-IsNodup namelist schema_cols distinct))
