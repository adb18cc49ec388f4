-- ===== src/Prelude/Text.antt =====
-- Rust's `str` and `String` as lists of code points, with the methods of the standard library that
-- the program calls.
use Prim.Native.Char.{code}
use stata_parquet_io.Prelude.{
  ℕ, zero, suc, ◌+◌, ◌-◌, ◌*◌, ◌/◌, ◌%◌, ◌^◌, String, ◌≡◌, refl, ◌↔◌, Bool, true, false, ◌&&◌, ◌||◌,
  List, [], ◌∷◌, ◌++◌, map, Option, none, some, arith, ltb, leb, ◌==◌, PartialEq, if◌then◌else◌,
  nat_eq, length, is_empty, drop,
}

abbrev pub Text : Type 0
Text = List ℕ

-- A literal of the source.
abbrev pub codes : String → Text
codes String.[] = []
codes (String.◌∷◌ c s) = code c ∷ codes s

unfoldable pub text_eq : Text → Text → Bool
text_eq [] [] = true
text_eq (a ∷ s) (b ∷ t) = (a == b) && text_eq s t
text_eq _ _ = false

pub text_eq_iff : (s t : Text) → (text_eq s t ≡ true) ↔ (s ≡ t)
unfolding text_eq
text_eq_iff [] [] = (λ h. refl, λ h. refl)
text_eq_iff [] (b ∷ t) = (λ h. cc, λ h. cc)
text_eq_iff (a ∷ s) [] = (λ h. cc, λ h. cc)
text_eq_iff (a ∷ s) (b ∷ t) = ground (arith, text_eq_iff s t)

instance abbrev pub text_Eq : PartialEq Text
text_Eq = record { eqb = text_eq; eqb_iff = text_eq_iff }

-- `char::is_whitespace`, which is Unicode's White_Space.
unfoldable pub is_whitespace : ℕ → Bool
is_whitespace c =
    (leb 9 c && leb c 13)
    || (c == 32)
    || (c == 0x85)
    || (c == 0xa0)
    || (c == 0x1680)
    || (leb 0x2000 c && leb c 0x200a)
    || (c == 0x2028)
    || (c == 0x2029)
    || (c == 0x202f)
    || (c == 0x205f)
    || (c == 0x3000)

unfoldable pub trim_start : Text → Text
unfolding is_whitespace
trim_start [] = []
trim_start (c ∷ s) = if is_whitespace c then trim_start s else c ∷ s

-- Drops whitespace at the end: a blank rest is dropped with the character before it.
unfoldable pub trim_end : Text → Text
unfolding is_whitespace
trim_end [] = []
trim_end (c ∷ s) =
    let rest = trim_end s in if is_empty rest && is_whitespace c then [] else c ∷ rest

unfoldable pub trim : Text → Text
unfolding trim_start trim_end
trim s = trim_end (trim_start s)

-- The words so far, and the word that is being read.
unfoldable pub split_words : Text → Text → List Text
unfolding is_whitespace
split_words word [] = if is_empty word then [] else word ∷ []
split_words word (c ∷ s) =
    let close = split_words [] s in
    let go_on = split_words (word ++ c ∷ []) s in
    if is_whitespace c then (if is_empty word then close else word ∷ close) else go_on

unfoldable pub split_whitespace : Text → List Text
unfolding split_words
split_whitespace s = split_words [] s

abbrev pub contains_char : ℕ → Text → Bool
contains_char c [] = false
contains_char c (d ∷ s) = (d == c) || contains_char c s

unfoldable pub starts_with : Text → Text → Bool
starts_with [] s = true
starts_with (p ∷ ps) [] = false
starts_with (p ∷ ps) (c ∷ s) = (p == c) && starts_with ps s

-- `str::contains` with a text.
unfoldable pub contains_text : Text → Text → Bool
unfolding starts_with
contains_text p [] = is_empty p
contains_text p (c ∷ s) = starts_with p (c ∷ s) || contains_text p s

unfoldable pub ends_with : Text → Text → Bool
unfolding text_eq
ends_with p s = text_eq p (drop (length s - length p) s) && leb (length p) (length s)

-- `to_ascii_lowercase`. `to_lowercase` differs from it on letters outside ASCII only; the one of
-- those that becomes an ASCII letter, the Kelvin sign, becomes a `k`.
unfoldable pub lower_char : ℕ → ℕ
lower_char c = if leb b'A' c && leb c b'Z' then c + 32 else c

unfoldable pub to_ascii_lowercase : Text → Text
unfolding lower_char
to_ascii_lowercase s = map lower_char s

unfoldable pub join : Text → List Text → Text
join sep [] = []
join sep (s ∷ []) = s
join sep (s ∷ t ∷ rest) = s ++ sep ++ join sep (t ∷ rest)

-- `str::parse` at an unsigned type below `bound`: an optional sign, digits, and no overflow.
unfoldable pub parse_digits : ℕ → ℕ → Text → Option ℕ
parse_digits bound n [] = some n
parse_digits bound n (c ∷ s) =
    let n' = n * 10 + (c - 48) in
    let rest = parse_digits bound n' s in
    if leb 48 c && leb c 57 && ltb n' bound then rest else none

unfoldable pub parse_below : ℕ → Text → Option ℕ
unfolding parse_digits
parse_below bound [] = none
parse_below bound (c ∷ []) = parse_digits bound 0 (c ∷ [])
parse_below bound (c ∷ d ∷ s) =
    if c == b'+' then parse_digits bound 0 (d ∷ s) else parse_digits bound 0 (c ∷ d ∷ s)

abbrev pub usize_max : ℕ
usize_max = 2 ^ 64 - 1

unfoldable pub parse_usize : Text → Option ℕ
unfolding parse_below
parse_usize s = parse_below (2 ^ 64) s

-- The decimal digits that `format!("{}", n)` prints, the last ones first; `n` rounds are enough.
unfoldable pub decimal_rev : ℕ → ℕ → Text
decimal_rev zero n = []
decimal_rev (suc f) n =
    let rest = decimal_rev f (n / 10) in if ltb n 10 then (48 + n) ∷ [] else (48 + n % 10) ∷ rest

unfoldable pub rev_onto : Text → Text → Text
rev_onto [] acc = acc
rev_onto (c ∷ s) acc = rev_onto s (c ∷ acc)

unfoldable pub show_ℕ : ℕ → Text
unfolding decimal_rev rev_onto
show_ℕ n = rev_onto (decimal_rev (suc n) n) []
