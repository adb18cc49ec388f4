-- ===== src/Read/SplitMix/Bounds.antt =====
-- `SplitMix64::below` of src/read.rs ends, and draws a number below its bound.
use Prim.Native.Nat.{bit_xor, digits, differ, bit_xor-bitwise}
use native.Mathlib.Nat.{pow-suc, mod-le}
use stata_parquet_io.Prelude.{
  ℕ, zero, suc, ◌+◌, ◌-◌, ◌*◌, ◌/◌, ◌%◌, ◌^◌, ◌≤◌, ◌<◌, ◌≡◌, refl, sym, ◌∙◌, Option, some, arith,
  leb, true, false, Bool-cases, inl, inr,
}
use native.Mathlib.Decide.{dec_lt}
use stata_parquet_io.Read.SplitMix.{u64_mod, gamma, advance, output, next_u64, below_loop, below}

differ-le : (n a b : ℕ) → a ≤ n → b ≤ n → differ a b ≤ n
differ-le n zero b p q = q
differ-le n (suc a) zero p q = p
differ-le n (suc a) (suc b) p q = differ-le n a b (omega arith) (omega arith)

digits-lt : (n k a b : ℕ) → a < 2 ^ k → b < 2 ^ k → digits (λ b. b) differ n a b < 2 ^ k
digits-lt zero k a b ha hb = hb
digits-lt (suc n) k zero b ha hb = hb
digits-lt (suc n) zero (suc a) b ha hb = absurd (omega arith)
digits-lt (suc n) (suc k) (suc a) b ha hb = omega (
  arith,
  pow-suc 2 k,
  digits-lt n k (suc a / 2) (b / 2) (omega (arith, pow-suc 2 k)) (omega (arith, pow-suc 2 k)),
  differ-le 1 (suc a % 2) (b % 2) (omega arith) (omega arith),
)

bit_xor-lt : (k a b : ℕ) → a < 2 ^ k → b < 2 ^ k → bit_xor a b < 2 ^ k
bit_xor-lt k a b ha hb = simp bit_xor-bitwise (digits-lt a k a b ha hb)

output-lt : (state : ℕ) → output state < u64_mod
unfolding output
output-lt state = bit_xor-lt 64 _ _ (omega arith) (omega arith)

-- The state whose output is the greatest `u64`, which no bound rejects.
abbrev last_state : ℕ
last_state = 0xcf9a_04af_fa6b_adc0

output-last_state : output last_state ≡ u64_mod - 1
unfolding output
output-last_state = refl

-- The number of rounds from a state to `last_state`: `gamma` is odd, so it has an inverse.
abbrev rounds_to_last : ℕ → ℕ
rounds_to_last state = (last_state + u64_mod - state) * 0xf1de_83e1_9937_733d % u64_mod

reaches_last :
    (state : ℕ) → state < u64_mod → (state + rounds_to_last state * gamma) % u64_mod ≡ last_state
reaches_last state h = omega arith

-- A draw that ended, below the bound.
abbrev pub Draws : ℕ → Option (ℕ × ℕ) → Type 0
Draws bound drawn =
    (number : ℕ) × (state : ℕ) × (drawn ≡ some (number, state))
    × (number < bound)
    × (state < u64_mod)

high_word-lt : (number bound : ℕ) → number < u64_mod → 0 < bound → number * bound / u64_mod < bound
high_word-lt number bound h k =
    let wide : number * bound ≤ (u64_mod - 1) * bound = grind arith in omega arith

accepts_last :
    (bound threshold state : ℕ)
    → 0 < bound
    → bound < u64_mod
    → threshold ≤ u64_mod - bound
    → state ≡ last_state
    → leb threshold (output state * bound % u64_mod) ≡ true
accepts_last bound threshold state p q t e = rw e (rw output-last_state (ground arith))

one_round-eq_last :
    (rounds state : ℕ)
    → rounds ≡ 1
    → (state + rounds * gamma) % u64_mod ≡ last_state
    → advance state ≡ last_state
unfolding advance
one_round-eq_last rounds state r e = omega arith

later_rounds :
    (rounds state : ℕ)
    → 0 < rounds
    → (state + rounds * gamma) % u64_mod ≡ last_state
    → (advance state + (rounds - 1) * gamma) % u64_mod ≡ last_state
unfolding advance
later_rounds rounds state r e = omega arith

advance-lt : (state : ℕ) → advance state < u64_mod
unfolding advance
advance-lt state = omega arith

below_loop-Draws :
    (fuel rounds bound threshold state : ℕ)
    → 0 < bound
    → bound < u64_mod
    → threshold ≤ u64_mod - bound
    → 0 < rounds
    → rounds ≤ fuel
    → (state + rounds * gamma) % u64_mod ≡ last_state
    → Draws bound (below_loop fuel bound threshold state)
unfolding below_loop next_u64
below_loop-Draws zero rounds bound threshold state p q t r f e = absurd (omega arith)
below_loop-Draws (suc fuel) rounds bound threshold state p q t r f e =
    elim (Bool-cases (leb threshold (output (advance state) * bound % u64_mod))) [
      | inl taken ↦ rw taken (
        output (advance state) * bound / u64_mod,
        advance state,
        refl,
        high_word-lt (output (advance state)) bound (output-lt (advance state)) p,
        advance-lt state,
      )
      | inr reject ↦ rw reject (
          below_loop-Draws fuel (rounds - 1) bound threshold (advance state) p q t
            (more_left reject) (omega arith) (later_rounds rounds state r e))
    ]
  where
    more_left : leb threshold (output (advance state) * bound % u64_mod) ≡ false → 0 < rounds - 1
    more_left reject = elim (dec_lt 1 rounds) [
      | yes more ↦ omega arith
      | no last ↦ cc (
          sym reject
          ∙ accepts_last bound threshold (advance state) p q t
              (one_round-eq_last rounds state (omega arith) e))
    ]

threshold-le : (bound : ℕ) → bound < u64_mod → (u64_mod - bound) % u64_mod % bound ≤ u64_mod - bound
threshold-le bound q = omega (arith, mod-le ((u64_mod - bound) % u64_mod) bound)

-- For every state and every positive bound that fits a `u64`, the rejection loop ends within the
-- rounds it is given, and draws a number below the bound; the new state fits a `u64` too.
pub below-Draws :
    (state bound : ℕ)
    → state < u64_mod
    → 0 < bound
    → bound < u64_mod
    → Draws bound (below state bound)
unfolding below
below-Draws state bound s p q = elim (dec_lt 0 (rounds_to_last state)) [
  | yes some_left ↦
      below_loop-Draws u64_mod (rounds_to_last state) bound _ state p q (threshold-le bound q)
        some_left (omega arith) (reaches_last state s)
  | no whole_turn ↦
      below_loop-Draws u64_mod u64_mod bound _ state p q (threshold-le bound q) (omega arith)
        (omega arith) (omega (arith, reaches_last state s))
]
