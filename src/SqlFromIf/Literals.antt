-- ===== src/SqlFromIf/Literals.antt =====
-- What `extract_quoted_literals` (src/sql_from_if.rs) takes out of a condition, and what it leaves for the
-- replacements to see.
use stata_parquet_io.Prelude.{
  ℕ, ◌+◌, ◌≡◌, refl, sym, ap, ap₂, ◌∙◌, true, false, List, [], ◌∷◌, ◌++◌, append-nil, append_assoc,
  Option, none, some, arith, ◌==◌, if◌then◌else◌, nat_eq, nat_beq_iff, length, length-append,
  is_empty, Bool-cases, inl, inr, any,
}
use stata_parquet_io.Prelude.Text.{Text, contains_char}
use stata_parquet_io.SqlFromIf.{is_quote, token, extract, extract_quoted_literals}

-- `unclosed` is the rest of a text from a quote on that nothing closes.
pub data Piece : Type 0 where
  plain : Text → Piece
  quoted : Text → Piece
  unclosed : Text → Piece

abbrev pub flatten : List Piece → Text
flatten [] = []
flatten (Piece.plain t ∷ ps) = t ++ flatten ps
flatten (Piece.quoted t ∷ ps) = t ++ flatten ps
flatten (Piece.unclosed t ∷ ps) = t ++ flatten ps

-- The pieces, with a numbered token for each quoted one.
abbrev pub render : ℕ → List Piece → Text
render n [] = []
render n (Piece.plain t ∷ ps) = t ++ render n ps
render n (Piece.quoted t ∷ ps) = token n ++ render (n + 1) ps
render n (Piece.unclosed t ∷ ps) = t ++ render n ps

abbrev pub literals_of : List Piece → List Text
literals_of [] = []
literals_of (Piece.plain t ∷ ps) = literals_of ps
literals_of (Piece.quoted t ∷ ps) = t ∷ literals_of ps
literals_of (Piece.unclosed t ∷ ps) = literals_of ps

-- A quote and a text without it.
abbrev pub IsOpen : ℕ → Text → Text → Type 0
IsOpen q body t = (t ≡ q ∷ body) × (is_quote q ≡ true) × (contains_char q body ≡ false)

-- A quote, a text without it, and the quote again.
abbrev pub IsQuoted : ℕ → Text → Text → Type 0
IsQuoted q body t =
    (t ≡ q ∷ (body ++ (q ∷ []))) × (is_quote q ≡ true) × (contains_char q body ≡ false)

abbrev pub ArePieces : List Piece → Type 0
ArePieces [] = Unit
ArePieces (Piece.plain t ∷ ps) = (any is_quote t ≡ false) × ArePieces ps
ArePieces (Piece.quoted t ∷ ps) = ((q : ℕ) × (body : Text) × IsQuoted q body t) × ArePieces ps
ArePieces (Piece.unclosed t ∷ ps) = ((q : ℕ) × (body : Text) × IsOpen q body t) × (ps ≡ [])

-- What is known of the text since the last piece.
abbrev IsCurrent : Option ℕ → Text → Type 0
IsCurrent none current = any is_quote current ≡ false
IsCurrent (some q) current = (body : Text) × IsOpen q body current

any-append :
    (ch : ℕ) (s : Text)
    → is_quote ch ≡ false
    → any is_quote s ≡ false
    → any is_quote (s ++ (ch ∷ [])) ≡ false
any-append ch [] e h = ground (arith, e)
any-append ch (d ∷ s) e h = ground (arith, e, h, any-append ch s e)

push_current :
    (protected current : Text)
    → (if is_empty current then protected else protected ++ current) ≡ protected ++ current
push_current protected [] = sym (append-nil protected)
push_current protected (c ∷ current) = refl

abbrev Splits : Text → List Text → Text → Text → Text × List Text → Type 0
Splits protected literals current chars result =
    (ps : List Piece) × (flatten ps ≡ current ++ chars)
    × (result ≡ (protected ++ render (length literals) ps, literals ++ literals_of ps))
    × ArePieces ps

contains_char-append :
    (q c : ℕ) (s : Text)
    → (c == q) ≡ false
    → contains_char q s ≡ false
    → contains_char q (s ++ (c ∷ [])) ≡ false
contains_char-append q c [] e h = ground (arith, e)
contains_char-append q c (d ∷ s) e h = ground (arith, e, h, contains_char-append q c s e)

extract-Splits :
    (protected : Text) (literals : List Text) (current : Text) (quote : Option ℕ) (chars : Text)
    → IsCurrent quote current
    → Splits protected literals current chars (extract protected literals current quote chars)
unfolding extract
extract-Splits protected literals current none [] c = (
  Piece.plain current ∷ [],
  refl,
  ap₂ (λ a b. (a, b))
      (push_current protected current ∙ ap (λ t. protected ++ t) (sym (append-nil current)))
      (sym (append-nil literals)),
  (c, tt),
)
extract-Splits protected literals current (some q) [] c = (
  Piece.unclosed current ∷ [],
  refl,
  ap₂ (λ a b. (a, b)) (ap (λ t. protected ++ t) (sym (append-nil current)))
      (sym (append-nil literals)),
  ((q, c.0, c.1), refl),
)
extract-Splits protected literals current none (ch ∷ chars) c = elim (Bool-cases (is_quote ch)) [
  | inl e ↦
      let before : Text = if is_empty current then protected else protected ++ current in
      let (ps, flat, same, good) =
        extract-Splits before literals (ch ∷ []) (some ch) chars ([], (refl, e, refl)) in
      rw e (
        Piece.plain current ∷ ps,
        ap (λ t. current ++ t) flat,
        same
            ∙ ap (λ t. (t, literals ++ literals_of ps))
                (ap (λ t. t ++ render (length literals) ps) (push_current protected current)
                  ∙ append_assoc protected current (render (length literals) ps)),
        (c, good),
      )
  | inr e ↦
      let (ps, flat, same, good) =
        extract-Splits protected literals (current ++ (ch ∷ [])) none chars
          (any-append ch current e c) in
      rw e (ps, flat ∙ append_assoc current (ch ∷ []) chars, same, good)
]
extract-Splits protected literals current (some q) (ch ∷ chars) (body, (cur, isq, nob)) =
    elim (Bool-cases (ch == q)) [
      | inl e ↦
          let literal : Text = current ++ (ch ∷ []) in
          let n : ℕ = length literals in
          let (ps, flat, same, good) =
            extract-Splits (protected ++ token n) (literals ++ (literal ∷ [])) [] none chars refl in
          let more : length (literals ++ (literal ∷ [])) ≡ n + 1 =
            omega (arith, length-append literals (literal ∷ [])) in
          let ends : literal ≡ q ∷ (body ++ (q ∷ [])) =
            ap₂ (λ a b. a ++ (b ∷ [])) cur ((nat_beq_iff ch q).0 e) in
          rw e (
            Piece.quoted literal ∷ ps,
            ap (λ t. literal ++ t) flat ∙ append_assoc current (ch ∷ []) chars,
            same
                ∙ ap₂ (λ a b. (a, b))
                    (ap (λ m. (protected ++ token n) ++ render m ps) more
                      ∙ append_assoc protected (token n) (render (n + 1) ps))
                    (append_assoc literals (literal ∷ []) (literals_of ps)),
            ((q, body, (ends, isq, nob)), good),
          )
      | inr e ↦
          let (ps, flat, same, good) =
            extract-Splits protected literals (current ++ (ch ∷ [])) (some q) chars (
              body ++ (ch ∷ []),
              (ap (λ t. t ++ (ch ∷ [])) cur, isq, contains_char-append q ch body e nob),
            ) in
          rw e (ps, flat ∙ append_assoc current (ch ∷ []) chars, same, good)
    ]

-- The condition falls into pieces: plain ones without a quote; quoted ones, each a quote, a text without
-- that quote, and the quote again; and at the end, it may be, a quote that nothing closes and what follows
-- it. The protected text is the pieces with a numbered token in place of each quoted one, and the
-- literals are the quoted ones in order, so that token `n` stands for literal `n`.
pub extract_quoted_literals-Splits :
    (input : Text)
    → (ps : List Piece) × (flatten ps ≡ input)
      × (extract_quoted_literals input ≡ (render 0 ps, literals_of ps))
      × ArePieces ps
unfolding extract_quoted_literals
extract_quoted_literals-Splits input = extract-Splits [] [] [] none input refl
