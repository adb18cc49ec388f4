-- ===== src/Read/SplitMix.antt =====
-- `SplitMix64` of src/read.rs: the generator, and the draw below a bound by multiply-shift with
-- rejection. A `u64` is a number below 2 ^ 64.
pub mod Bounds
use Prim.Native.Nat.{bit_xor}
use stata_parquet_io.Prelude.{
  ℕ, zero, suc, ◌+◌, ◌-◌, ◌*◌, ◌/◌, ◌%◌, ◌^◌, ◌≤◌, ◌<◌, ◌≡◌, refl, sym, ap, ◌∙◌, Option, none, some,
  arith, leb, true, false, if◌then◌else◌, Bool-cases, inl, inr,
}

abbrev pub u64_mod : ℕ
u64_mod = 2 ^ 64

abbrev pub gamma : ℕ
gamma = 0x9E37_79B9_7F4A_7C15

-- The state after `next_u64`, and what it returns as a function of that state.
unfoldable pub advance : ℕ → ℕ
advance state = (state + gamma) % u64_mod

unfoldable pub output : ℕ → ℕ
output state =
    let z = bit_xor state (state / 2 ^ 30) * 0xBF58_476D_1CE4_E5B9 % u64_mod in
    let z' = bit_xor z (z / 2 ^ 27) * 0x94D0_49BB_1331_11EB % u64_mod in bit_xor z' (z' / 2 ^ 31)

-- `next_u64`: the number and the new state.
unfoldable pub next_u64 : ℕ → ℕ × ℕ
next_u64 state = (output (advance state), advance state)

-- The loop of `below`; `none` means that the fuel ran out.
unfoldable pub below_loop : ℕ → ℕ → ℕ → ℕ → Option (ℕ × ℕ)
below_loop zero bound threshold state = none
below_loop (suc fuel) bound threshold state =
    let (number, state') = next_u64 state in
    let m = number * bound in
    let again = below_loop fuel bound threshold state' in
    if leb threshold (m % u64_mod) then some (m / u64_mod, state') else again

-- `below`. The state runs through all of 2 ^ 64 values before it repeats, so that many rounds are
-- enough.
unfoldable pub below : ℕ → ℕ → Option (ℕ × ℕ)
below state bound = below_loop u64_mod bound ((u64_mod - bound) % u64_mod % bound) state
