-- ===== src/Mapping/Rename/Valid.antt =====
-- The processed name of a column (src/mapping.rs) is one that Stata takes.
use stata_parquet_io.Prelude.{
  all, ℕ, zero, suc, ◌-◌, ◌≤◌, ◌<◌, ◌≡◌, refl, sym, ap, ◌∙◌, inl, inr, Bool, true, false, not, ◌||◌,
  List, [], ◌∷◌, map, some, arith, ltb, ◌==◌, if◌then◌else◌, nat_eq, length, contains, take,
  length-take, All, Bool-cases, if_true, if_false, if_both,
}
use stata_parquet_io.Prelude.Text.{Text, codes, text_Eq, text_eq, text_eq_iff}
use stata_parquet_io.Mapping.Rename.{
  reserved_words, utf8_len, byte_len, byte_slice, sanitize_char, has_head, sanitize, avoid_reserved,
  processed_name,
}

abbrev pub IsAscii : Text → Type 0
IsAscii s = All (λ c. c < 128) s

byte_len-IsAscii : (s : Text) → IsAscii s → byte_len s ≡ length s
byte_len-IsAscii [] h = refl
byte_len-IsAscii (c ∷ s) (h, hs) = ground (arith, h, byte_len-IsAscii s hs)

byte_slice-IsAscii :
    (n : ℕ) (s : Text) → IsAscii s → n ≤ length s → byte_slice n s ≡ some (take n s)
unfolding byte_slice
byte_slice-IsAscii zero [] h k = refl
byte_slice-IsAscii zero (c ∷ s) h k = refl
byte_slice-IsAscii (suc n) [] h k = absurd (omega arith)
byte_slice-IsAscii (suc n) (c ∷ s) (h, hs) k =
    let one : utf8_len c ≡ 1 = ground (arith, h) in
    let less : suc n - 1 ≡ n = omega arith in
    rw (one, less, byte_slice-IsAscii n s hs (omega arith)) (ground arith)

-- What holds of every member holds of one.
all-contains :
    (p : Text → Bool) (words : List Text) (w : Text)
    → all p words ≡ true
    → contains words w ≡ true
    → p w ≡ true
all-contains p [] w h k = absurd cc
all-contains p (v ∷ words) w h k = elim (Bool-cases (v == w)) [
  | inl e ↦ ap p (sym ((text_eq_iff v w).0 e)) ∙ ground (arith, h)
  | inr e ↦ all-contains p words w (ground (arith, h)) (ground (arith, k, e))
]

-- No reserved word is another one with an underscore before it, and all are short.
reserved_words-underscore :
    all (λ w. not (contains reserved_words (b'_' ∷ w))) reserved_words ≡ true
unfolding text_eq
reserved_words-underscore = refl

reserved_words-short : all (λ w. ltb (length w) 32) reserved_words ≡ true
reserved_words-short = refl

not-true : (b : Bool) → not b ≡ true → b ≡ false
not-true true h = cc
not-true false h = refl

avoid_reserved-contains : (s : Text) → contains reserved_words (avoid_reserved s) ≡ false
unfolding avoid_reserved
avoid_reserved-contains s = elim (Bool-cases (contains reserved_words s)) [
  | inl e ↦
      ap (contains reserved_words) (if_true (contains reserved_words s) (b'_' ∷ s) s e)
      ∙ not-true (contains reserved_words (b'_' ∷ s)) (
          all-contains (λ w. not (contains reserved_words (b'_' ∷ w))) reserved_words s
            reserved_words-underscore e)
  | inr e ↦ ap (contains reserved_words) (if_false (contains reserved_words s) (b'_' ∷ s) s e) ∙ e
]

-- The words that Stata reserves one by one. It reserves `str1` to `str2045` too, which are none of these.
abbrev pub stata_words : List Text
stata_words =
    codes "_all"
    ∷ codes "_b"
    ∷ codes "byte"
    ∷ codes "_coef"
    ∷ codes "_cons"
    ∷ codes "double"
    ∷ codes "float"
    ∷ codes "if"
    ∷ codes "in"
    ∷ codes "int"
    ∷ codes "long"
    ∷ codes "_n"
    ∷ codes "_N"
    ∷ codes "_pi"
    ∷ codes "_pred"
    ∷ codes "_rc"
    ∷ codes "_skip"
    ∷ codes "strL"
    ∷ codes "using"
    ∷ codes "with"
    ∷ []

stata_words-reserved_words : all (λ w. contains reserved_words w) stata_words ≡ true
unfolding text_eq
stata_words-reserved_words = refl

-- What is not in the table is none of those words.
stata_words-contains :
    (s : Text) → contains reserved_words s ≡ false → contains stata_words s ≡ false
stata_words-contains s h = elim (Bool-cases (contains stata_words s)) [
  | inl e ↦ absurd (
      cc (
        sym h
        ∙ all-contains (λ w. contains reserved_words w) stata_words s stata_words-reserved_words e))
  | inr e ↦ e
]

long-contains : (s : Text) → 32 ≤ length s → contains reserved_words s ≡ false
long-contains s h = elim (Bool-cases (contains reserved_words s)) [
  | inl e ↦ absurd (
      ground
        (arith, h, all-contains (λ w. ltb (length w) 32) reserved_words s reserved_words-short e))
  | inr e ↦ e
]

or-true : (b : Bool) → (b || true) ≡ true
or-true true = refl
or-true false = refl

All-take : (P : ℕ → Type 0) (n : ℕ) (s : Text) → All P s → All P (take n s)
All-take P zero s h = tt
All-take P (suc n) [] h = tt
All-take P (suc n) (c ∷ s) (h, hs) = (h, All-take P n s hs)

module _ (is_alphanumeric is_alphabetic : ℕ → Bool) where
  -- A letter, a digit or an underscore, of ASCII.
  abbrev pub IsNameChar : ℕ → Type 0
  IsNameChar c = (c < 128) × ((is_alphanumeric c || (c == b'_')) ≡ true)

  sanitize_char-IsNameChar :
      (c : ℕ) → c < 128 → IsNameChar (sanitize_char is_alphanumeric is_alphabetic c)
  sanitize_char-IsNameChar c h = elim (Bool-cases (is_alphanumeric c || (c == b'_'))) [
    | inl e ↦ rw e (h, e)
    | inr e ↦ rw e (omega arith, or-true (is_alphanumeric 95))
  ]

  map-IsNameChar :
      (s : Text) → IsAscii s → All IsNameChar (map (sanitize_char is_alphanumeric is_alphabetic) s)
  map-IsNameChar [] h = tt
  map-IsNameChar (c ∷ s) (h, hs) = (sanitize_char-IsNameChar c h, map-IsNameChar s hs)

  new_name-IsNameChar :
      (name : Text)
      → IsAscii name
      → All IsNameChar (avoid_reserved (sanitize is_alphanumeric is_alphabetic name))
  unfolding avoid_reserved sanitize
  new_name-IsNameChar name h =
      let under : IsNameChar 95 = (omega arith, or-true (is_alphanumeric 95)) in
      let cleaned : Text = map (sanitize_char is_alphanumeric is_alphabetic) name in
      let clean : Text =
        if has_head is_alphanumeric is_alphabetic cleaned then cleaned else b'_' ∷ cleaned in
      let good : All IsNameChar clean =
        if_both (All IsNameChar) (has_head is_alphanumeric is_alphabetic cleaned) cleaned
          (b'_' ∷ cleaned) (map-IsNameChar name h) (under, map-IsNameChar name h) in
      if_both (All IsNameChar) (contains reserved_words clean) (b'_' ∷ clean) clean (under, good)
        good

  new_name-has_head :
      (name : Text)
      → has_head is_alphanumeric is_alphabetic
          (avoid_reserved (sanitize is_alphanumeric is_alphabetic name))
        ≡ true
  unfolding avoid_reserved sanitize
  new_name-has_head name =
      let P : Text → Type 0 = λ s. has_head is_alphanumeric is_alphabetic s ≡ true in
      let cleaned : Text = map (sanitize_char is_alphanumeric is_alphabetic) name in
      let clean : Text =
        if has_head is_alphanumeric is_alphabetic cleaned then cleaned else b'_' ∷ cleaned in
      let good : P clean = elim (Bool-cases (has_head is_alphanumeric is_alphabetic cleaned)) [
        | inl e ↦ rw e e
        | inr e ↦ rw e (or-true (is_alphabetic 95))
      ] in
      if_both P (contains reserved_words clean) (b'_' ∷ clean) clean (or-true (is_alphabetic 95))
        good

  has_head-take :
      (n : ℕ) (s : Text)
      → has_head is_alphanumeric is_alphabetic s ≡ true
      → has_head is_alphanumeric is_alphabetic (take n s) ≡ true
  has_head-take zero s h = refl
  has_head-take (suc n) [] h = refl
  has_head-take (suc n) (c ∷ s) h = h

  IsNameChar-IsAscii : (s : Text) → All IsNameChar s → IsAscii s
  IsNameChar-IsAscii [] h = tt
  IsNameChar-IsAscii (c ∷ s) (h, hs) = (h.0, IsNameChar-IsAscii s hs)

  -- A column name of ASCII is processed without a panic, to a name of at most 32 bytes, of letters, digits
  -- and underscores, that starts with a letter or an underscore, if it is not
  -- empty, and is neither a word of the table of the code nor one of those that Stata reserves one by one.
  -- Nothing is said of `str1` to `str2045`, for which the table has the text `str#`.
  pub processed_name-IsName :
      (name : Text)
      → IsAscii name
      → (t : Text) × (processed_name is_alphanumeric is_alphabetic name ≡ some t)
        × (byte_len t ≤ 32)
        × All IsNameChar t
        × (has_head is_alphanumeric is_alphabetic t ≡ true)
        × (contains reserved_words t ≡ false)
        × (contains stata_words t ≡ false)
  unfolding processed_name
  processed_name-IsName name h =
      let new_name : Text = avoid_reserved (sanitize is_alphanumeric is_alphabetic name) in
      let good : All IsNameChar new_name = new_name-IsNameChar name h in
      let ascii : IsAscii new_name = IsNameChar-IsAscii new_name good in
      let bytes : byte_len new_name ≡ length new_name = byte_len-IsAscii new_name ascii in
      elim (Bool-cases (ltb 32 (byte_len new_name))) [
        | inl e ↦
            let long : 32 ≤ length new_name = ground (arith, e, bytes) in
            let cut : Text = take 32 new_name in
            let size : length cut ≡ 32 = ground (arith, long, length-take 32 new_name) in
            let cut_bytes : byte_len cut ≡ length cut =
              byte_len-IsAscii cut (All-take (λ c. c < 128) 32 new_name ascii) in
            (
              cut,
              if_true (ltb 32 (byte_len new_name)) (byte_slice 32 new_name) (some new_name) e
                  ∙ byte_slice-IsAscii 32 new_name ascii long,
              omega (arith, cut_bytes, size),
              All-take IsNameChar 32 new_name good,
              has_head-take 32 new_name (new_name-has_head name),
              long-contains cut (omega (arith, size)),
              stata_words-contains cut (long-contains cut (omega (arith, size))),
            )
        | inr e ↦ (
          new_name,
          if_false (ltb 32 (byte_len new_name)) (byte_slice 32 new_name) (some new_name) e,
          ground (arith, e),
          good,
          new_name-has_head name,
          avoid_reserved-contains (sanitize is_alphanumeric is_alphabetic name),
          stata_words-contains new_name
              (avoid_reserved-contains (sanitize is_alphanumeric is_alphabetic name)),
        )
      ]
