-- ===== src/Livox/Ldq/Bounds.antt =====
-- The sizes of the queue: `IsPowerOf2` and `RoundupPowerOf2` of comm/ldq.h.
use Prim.Native.Nat.{bit_and}
use native.Mathlib.Nat.{one-le-pow, mod_self, pow-le-pow_right}
use native.Mathlib.Decide.{ℕ_discrete}
use robot_nav.Prelude.{
  ℕ, zero, suc, ◌+◌, ◌-◌, ◌^◌, ◌≤◌, ◌<◌, ◌≡◌, refl, ◌↔◌, inl, inr, true, false, if◌then◌else◌,
  arith, ap, leb, leb→le, Bool-cases,
}
use robot_nav.Prelude.Bits.{sub32, bit_and_mask, pow_of_bit_and}
use robot_nav.Livox.Ldq.{is_power_of_2, roundup_loop, roundup_power_of_2}

-- For a `uint32_t`, the bit test passes at the powers of two and nowhere else.
pub is_power_of_2_iff : (n : ℕ) → n < 2 ^ 32 → (is_power_of_2 n ≡ true) ↔ ((k : ℕ) × (n ≡ 2 ^ k))
unfolding is_power_of_2
is_power_of_2_iff n h = (to, from)
  where
    to : is_power_of_2 n ≡ true → (k : ℕ) × (n ≡ 2 ^ k)
    to e =
        let pos : 0 < n = ground arith in
        let same : sub32 n 1 ≡ n - 1 = omega arith in
        pow_of_bit_and n pos (rw (← same) (ground arith))

    from : (k : ℕ) × (n ≡ 2 ^ k) → is_power_of_2 n ≡ true
    from (k, p) =
        let pos : 0 < 2 ^ k = one-le-pow k 2 (omega arith) in
        let same : sub32 n 1 ≡ 2 ^ k - 1 = omega arith in
        let cleared : bit_and n (sub32 n 1) ≡ 0 = rw (same, bit_and_mask, p) (mod_self (2 ^ k)) in
        ground arith

abbrev Least : ℕ → ℕ → Type 0
Least n r = (k : ℕ) × (r ≡ 2 ^ k) × (k ≤ 31) × (n ≤ 2 ^ k) × ((j : ℕ) → n ≤ 2 ^ j → k ≤ j)

roundup_loop_zero : (i n : ℕ) → roundup_loop 0 (i + 1) n (2 ^ i) ≡ 2 ^ i
unfolding roundup_loop
roundup_loop_zero i n = refl

past : (i j n : ℕ) → leb n (2 ^ i) ≡ false → n ≤ 2 ^ j → i ≤ j → i + 1 ≤ j
past i j n over le h = elim (ℕ_discrete i j) [
  | yes e ↦ absurd (ground (arith, ap (λ (t : ℕ). 2 ^ t) e))
  | no ne ↦ omega arith
]

roundup_loop_step :
    (fuel i n last : ℕ)
    → roundup_loop (suc fuel) i n last
      ≡ (if leb n (2 ^ i) then 2 ^ i else roundup_loop fuel (i + 1) n (2 ^ i))
unfolding roundup_loop
roundup_loop_step fuel i n last = refl

roundup_loop-Least :
    (fuel i n last : ℕ)
    → i + suc fuel ≡ 32
    → n ≤ 2 ^ 31
    → ((j : ℕ) → n ≤ 2 ^ j → i ≤ j)
    → Least n (roundup_loop (suc fuel) i n last)
roundup_loop-Least zero i n last e h below =
    let i_eq : i ≡ 31 = omega arith in
    let fits : n ≤ 2 ^ i = rw i_eq h in
    (i, ground (arith, roundup_loop_step zero i n last), omega arith, fits, below)
roundup_loop-Least (suc fuel) i n last e h below = elim (Bool-cases (leb n (2 ^ i))) [
  | inl fits ↦ (i, rw (roundup_loop_step, fits), omega arith, leb→le _ _ fits, below)
  | inr over ↦
      rw (roundup_loop_step, over)
        (roundup_loop-Least fuel (i + 1) n (2 ^ i) (omega arith) h
          (λ j le. past i j n over le (below j le)))
]

roundup_loop_over :
    (fuel i n last : ℕ) → i + fuel ≡ 31 → 2 ^ 31 < n → roundup_loop (suc fuel) i n last ≡ 2 ^ 31
roundup_loop_over zero i n last e h =
    let i_eq : i ≡ 31 = omega arith in
    ground
      (arith, roundup_loop_step zero i n last, ap (λ (t : ℕ). 2 ^ t) i_eq, roundup_loop_zero i n)
roundup_loop_over (suc fuel) i n last e h = ground (
  arith,
  roundup_loop_step (suc fuel) i n last,
  pow-le-pow_right {n = 2} (omega arith) {i = i} {j = 31} (omega arith),
  roundup_loop_over fuel (i + 1) n (2 ^ i),
)

-- `RoundupPowerOf2` of a `uint32_t`: up to 2^31 the result is the least power of two that is not
-- below the size; above, it is 2^31, which is smaller than the size.
pub roundup_power_of_2_least :
    (n : ℕ)
    → (n ≤ 2 ^ 31
        → (k : ℕ) × (roundup_power_of_2 n ≡ 2 ^ k)
          × (k ≤ 31)
          × (n ≤ 2 ^ k)
          × ((j : ℕ) → n ≤ 2 ^ j → k ≤ j))
      × (2 ^ 31 < n → roundup_power_of_2 n ≡ 2 ^ 31)
unfolding roundup_power_of_2
roundup_power_of_2_least n = (
  λ h. roundup_loop-Least 31 0 n 0 refl h (λ j le. omega arith),
  λ h. roundup_loop_over 31 0 n 0 refl h,
)
