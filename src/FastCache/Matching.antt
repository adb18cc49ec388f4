-- ===== src/FastCache/Matching.antt =====
-- What a Stata wildcard pattern means, with no search order in it, and that `stata_glob_match` of
-- src/fast_cache.rs decides it.
use stata_parquet_io.Prelude.{
  ℕ, ◌≡◌, ◌≢◌, ◌↔◌, refl, Bool, true, [], ◌∷◌, ◌==◌, nat_eq, nat_beq_iff, arith, Bool-cases, inl,
  inr,
}
use stata_parquet_io.Prelude.Text.{Text}
use stata_parquet_io.FastCache.Glob.{any_suffix, after_one, after_char, stata_glob_match}

-- `*` stands for any sequence of characters, `?` for exactly one, any other character for itself.
pub data Matches : Text → Text → Type 0 where
  done : Matches [] []
  star_ends : {c : ℕ} {p s : Text} → c ≡ b'*' → Matches p s → Matches (c ∷ p) s
  star_takes : {c n : ℕ} {p s : Text} → c ≡ b'*' → Matches (c ∷ p) s → Matches (c ∷ p) (n ∷ s)
  one : {c n : ℕ} {p s : Text} → c ≡ b'?' → Matches p s → Matches (c ∷ p) (n ∷ s)
  same :
      {c n : ℕ} {p s : Text} → c ≢ b'*' → c ≢ b'?' → n ≡ c → Matches p s → Matches (c ∷ p) (n ∷ s)

any_suffix_sound :
    (c : ℕ) (p s : Text) (test : Text → Bool)
    → c ≡ b'*'
    → ((t : Text) → test t ≡ true → Matches p t)
    → any_suffix test s ≡ true
    → Matches (c ∷ p) s
unfolding any_suffix
any_suffix_sound c p [] test e k h = star_ends e (k [] h)
any_suffix_sound c p (n ∷ s) test e k h = elim (Bool-cases (test (n ∷ s))) [
  | inl hit ↦ star_ends e (k (n ∷ s) hit)
  | inr miss ↦ star_takes e (any_suffix_sound c p s test e k (rw miss at h))
]

after_one_sound :
    (c : ℕ) (p s : Text) (test : Text → Bool)
    → c ≡ b'?'
    → ((t : Text) → test t ≡ true → Matches p t)
    → after_one test s ≡ true
    → Matches (c ∷ p) s
unfolding after_one
after_one_sound c p [] test e k h = absurd (ground arith)
after_one_sound c p (n ∷ s) test e k h = one e (k s h)

after_char_sound :
    (c : ℕ) (p s : Text) (test : Text → Bool)
    → c ≢ b'*'
    → c ≢ b'?'
    → ((t : Text) → test t ≡ true → Matches p t)
    → after_char c test s ≡ true
    → Matches (c ∷ p) s
unfolding after_char
after_char_sound c p [] test a b k h = absurd (ground arith)
after_char_sound c p (n ∷ s) test a b k h = elim (Bool-cases (n == c)) [
  | inl e ↦ same a b ((nat_beq_iff n c).0 e) (k s (rw e at h))
  | inr ne ↦ absurd (ground arith)
]

stata_glob_match_sound : (p s : Text) → stata_glob_match p s ≡ true → Matches p s
unfolding stata_glob_match
stata_glob_match_sound [] [] h = done
stata_glob_match_sound [] (n ∷ s) h = absurd (ground arith)
stata_glob_match_sound (c ∷ p) s h = elim (Bool-cases (c == b'*')) [
  | inl e ↦
      any_suffix_sound c p s (stata_glob_match p) (omega (arith, (nat_beq_iff c b'*').0 e))
        (stata_glob_match_sound p) (rw e at h)
  | inr a ↦ elim (Bool-cases (c == b'?')) [
    | inl e ↦
        after_one_sound c p s (stata_glob_match p) (omega (arith, (nat_beq_iff c b'?').0 e))
          (stata_glob_match_sound p) (rw (a, e) at h)
    | inr b ↦
        after_char_sound c p s (stata_glob_match p) (ground arith) (ground arith)
          (stata_glob_match_sound p) (rw (a, b) at h)
  ]
]

any_suffix_here : (s : Text) (test : Text → Bool) → test s ≡ true → any_suffix test s ≡ true
unfolding any_suffix
any_suffix_here [] test h = h
any_suffix_here (n ∷ s) test h = rw h

any_suffix_complete :
    {c : ℕ} {p s : Text} (test : Text → Bool)
    → c ≡ b'*'
    → ((t : Text) → Matches p t → test t ≡ true)
    → Matches (c ∷ p) s
    → any_suffix test s ≡ true
unfolding any_suffix
any_suffix_complete test e k (star_ends _ m) = any_suffix_here _ test (k _ m)
any_suffix_complete test e k (star_takes _ m) = ground (arith, any_suffix_complete test e k m)
any_suffix_complete test e k (one f m) = absurd (omega arith)
any_suffix_complete test e k (same a b f m) = absurd (a e)

after_one_complete :
    {c : ℕ} {p s : Text} (test : Text → Bool)
    → c ≡ b'?'
    → ((t : Text) → Matches p t → test t ≡ true)
    → Matches (c ∷ p) s
    → after_one test s ≡ true
unfolding after_one
after_one_complete test e k (one f m) = k _ m
after_one_complete test e k (same a b f m) = absurd (b e)
after_one_complete test e k (star_ends f m) = absurd (omega arith)
after_one_complete test e k (star_takes f m) = absurd (omega arith)

after_char_complete :
    {c : ℕ} {p s : Text} (test : Text → Bool)
    → c ≢ b'*'
    → c ≢ b'?'
    → ((t : Text) → Matches p t → test t ≡ true)
    → Matches (c ∷ p) s
    → after_char c test s ≡ true
unfolding after_char
after_char_complete test a b k (one f m) = absurd (b f)
after_char_complete {c} test a b k (same {n = n} _ _ f m) = rw ((nat_beq_iff n c).1 f) (k _ m)
after_char_complete test a b k (star_ends f m) = absurd (a f)
after_char_complete test a b k (star_takes f m) = absurd (a f)

stata_glob_match_complete : (p s : Text) → Matches p s → stata_glob_match p s ≡ true
unfolding stata_glob_match
stata_glob_match_complete [] [] m = refl
stata_glob_match_complete [] (n ∷ s) m = elim m [ ]
stata_glob_match_complete (c ∷ p) s m = elim (Bool-cases (c == b'*')) [
  | inl e ↦ rw e (
      any_suffix_complete (stata_glob_match p) (omega (arith, (nat_beq_iff c b'*').0 e))
        (stata_glob_match_complete p) m)
  | inr a ↦ elim (Bool-cases (c == b'?')) [
    | inl e ↦
        rw (a, e)
          (after_one_complete (stata_glob_match p) (omega (arith, (nat_beq_iff c b'?').0 e))
            (stata_glob_match_complete p) m)
    | inr b ↦
        rw (a, b)
          (after_char_complete (stata_glob_match p) (ground arith) (ground arith)
            (stata_glob_match_complete p) m)
  ]
]

-- `stata_glob_match` answers true exactly on the names that the pattern stands for.
pub stata_glob_match_iff : (p s : Text) → (stata_glob_match p s ≡ true) ↔ Matches p s
stata_glob_match_iff p s = (stata_glob_match_sound p s, stata_glob_match_complete p s)
