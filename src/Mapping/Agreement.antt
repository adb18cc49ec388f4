-- ===== src/Mapping/Agreement.antt =====
-- The names of the storage types, the widening by a recorded type, and the way from a storage type to
-- a Polars type and back, in src/mapping.rs.
use stata_parquet_io.Prelude.{
  ℕ, ◌≤◌, ◌≡◌, refl, sym, ◌∙◌, ◌↔◌, inl, inr, Option, none, some, ltb, ◌==◌, if◌then◌else◌, nat_eq,
  arith, Bool-cases, ap, unwrap_or, if_true, if_false,
}
use stata_parquet_io.Prelude.Text.{Text, text_Eq, text_eq, text_eq_iff, to_ascii_lowercase}
use stata_parquet_io.Mapping.{
  StataType, to_string, from_str, integer_rank, map_polars_to_stata, map_stata_to_polars,
}

to_string-lower : (t : StataType) → to_ascii_lowercase (to_string t) ≡ to_string t
unfolding to_ascii_lowercase to_string
to_string-lower StataType.byte = refl
to_string-lower StataType.int = refl
to_string-lower StataType.long = refl
to_string-lower StataType.float = refl
to_string-lower StataType.double = refl
to_string-lower StataType.date = refl
to_string-lower StataType.time = refl
to_string-lower StataType.datetime = refl
to_string-lower StataType.string = refl
to_string-lower StataType.strl = refl
to_string-lower StataType.binary = refl

some_injective : {t u : StataType} → ◌≡◌ {A = Option StataType} (some t) (some u) → t ≡ u
some_injective h = cc

-- One test of the chain.
arm :
    (l w : Text) (u : StataType) (rest : Option StataType)
    → to_string u ≡ w
    → ((t : StataType) → rest ≡ some t → l ≡ to_string t)
    → (t : StataType) → (if l == w then some u else rest) ≡ some t
    → l ≡ to_string t
arm l w u rest e k t h = elim (Bool-cases (l == w)) [
  | inl same ↦
      (text_eq_iff l w).0 same
      ∙ sym e
      ∙ ap to_string (some_injective (sym (if_true (l == w) (some u) rest same) ∙ h))
  | inr other ↦ k t (sym (if_false (l == w) (some u) rest other) ∙ h)
]

from_str-word :
    (s : Text) (t : StataType) → from_str s ≡ some t → to_ascii_lowercase s ≡ to_string t
unfolding from_str to_string
from_str-word s =
    let l : Text = to_ascii_lowercase s in
    arm l _ StataType.byte _ refl (
      arm l _ StataType.int _ refl (
        arm l _ StataType.long _ refl (
          arm l _ StataType.float _ refl (
            arm l _ StataType.double _ refl (
              arm l _ StataType.date _ refl (
                arm l _ StataType.time _ refl (
                  arm l _ StataType.datetime _ refl (
                    arm l _ StataType.string _ refl (
                      arm l _ StataType.strl _ refl
                        (arm l _ StataType.binary none refl (λ t h. absurd cc)))))))))))

from_str-to_string :
    (t : StataType) (s : Text) → to_ascii_lowercase s ≡ to_string t → from_str s ≡ some t
unfolding from_str to_string text_eq
from_str-to_string StataType.byte s h = rw h refl
from_str-to_string StataType.int s h = rw h refl
from_str-to_string StataType.long s h = rw h refl
from_str-to_string StataType.float s h = rw h refl
from_str-to_string StataType.double s h = rw h refl
from_str-to_string StataType.date s h = rw h refl
from_str-to_string StataType.time s h = rw h refl
from_str-to_string StataType.datetime s h = rw h refl
from_str-to_string StataType.string s h = rw h refl
from_str-to_string StataType.strl s h = rw h refl
from_str-to_string StataType.binary s h = rw h refl

-- A text reads as a storage type exactly where it is, in any case, the name that the type prints; so
-- a printed name reads back.
pub from_str_iff :
    (s : Text) (t : StataType)
    → ((from_str s ≡ some t) ↔ (to_ascii_lowercase s ≡ to_string t))
      × (from_str (to_string t) ≡ some t)
from_str_iff s t = (
  (from_str-word s t, from_str-to_string t s),
  from_str-to_string t (to_string t) (to_string-lower t),
)

-- The rank of a storage type, and 4 outside the integers, as where nothing is verified.
abbrev pub rank : StataType → ℕ
rank t = unwrap_or (integer_rank t) 4

-- The integers become the next wider type, and `strl` a `string`.
abbrev pub mapped_back : StataType → StataType
mapped_back StataType.byte = StataType.int
mapped_back StataType.int = StataType.long
mapped_back StataType.long = StataType.double
mapped_back StataType.strl = StataType.string
mapped_back t = t

-- A storage type, made a Polars type and mapped back with texts of at most 2045 bytes: a `byte` becomes an
-- `int`, an `int` a `long`, a `long` a `double`, a `strl` a `string`, and every other type is itself
-- again.
pub map_polars_to_stata-map_stata_to_polars :
    (t : StataType) (str_length : ℕ)
    → str_length ≤ 2045
    → map_polars_to_stata (map_stata_to_polars t) str_length ≡ mapped_back t
unfolding map_polars_to_stata map_stata_to_polars
map_polars_to_stata-map_stata_to_polars StataType.byte n h = refl
map_polars_to_stata-map_stata_to_polars StataType.int n h = refl
map_polars_to_stata-map_stata_to_polars StataType.long n h = refl
map_polars_to_stata-map_stata_to_polars StataType.float n h = refl
map_polars_to_stata-map_stata_to_polars StataType.double n h = refl
map_polars_to_stata-map_stata_to_polars StataType.date n h = refl
map_polars_to_stata-map_stata_to_polars StataType.time n h = refl
map_polars_to_stata-map_stata_to_polars StataType.datetime n h = refl
map_polars_to_stata-map_stata_to_polars StataType.string n h =
    if_false (ltb 2045 n) StataType.strl StataType.string (ground (arith, h))
map_polars_to_stata-map_stata_to_polars StataType.strl n h =
    if_false (ltb 2045 n) StataType.strl StataType.string (ground (arith, h))
map_polars_to_stata-map_stata_to_polars StataType.binary n h = refl
