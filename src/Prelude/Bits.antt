-- ===== src/Prelude/Bits.antt =====
-- `a & (2^k - 1)` is `a % 2^k`, at every width, and the words of 32 bits.
use mathlib.Core.WellFounded.{Acc, WellFounded, induction}
use Prim.Native.Nat.{
  bit_and-bitwise, ℕ, zero, suc, ◌+◌, ◌-◌, ◌*◌, ◌/◌, ◌%◌, ◌^◌, ◌≤◌, ◌<◌, min, bit_and, digits,
}
use mathlib.Core.Path.{◌≡◌, refl, ap, sym, ◌∙◌}
use native.Mathlib.Nat.{pow-suc, one-le-pow}
use native.Mathlib.Decide.{ℕ_discrete}
use native.Mathlib.Omega.{arith}

-- Arithmetic of `uint32_t`.
abbrev pub add32 : ℕ → ℕ → ℕ
add32 a b = (a + b) % 2 ^ 32

abbrev pub sub32 : ℕ → ℕ → ℕ
sub32 a b = (a + 2 ^ 32 - b) % 2 ^ 32

Acc-below : (k n : ℕ) → n < k → Acc ◌<◌ n
Acc-below zero n h = elim h [ ]
Acc-below (suc k) n h = Acc.intro n (λ m hm. Acc-below k m (omega arith))

pub lt_wf : WellFounded ◌<◌
lt_wf = record { apply = λ n. Acc-below (suc n) n (omega arith) }

-- Digits to go beyond those that the first number has change nothing, for any operation on digits.
module _ (ended : ℕ → ℕ) (join : ℕ → ℕ → ℕ) where
  abbrev Settled : ℕ → Type 0
  Settled a = (room b : ℕ) → a ≤ room → digits ended join room a b ≡ digits ended join a a b

  settle : (a : ℕ) → ((c : ℕ) → c < a → Settled c) → Settled a
  settle zero ih zero b h = refl
  settle zero ih (suc room) b h = refl
  settle (suc a) ih zero b h = absurd (omega arith)
  settle (suc a) ih (suc room) b h =
      let settled = ih (suc a / 2) (omega arith) in
      ap (λ (t : ℕ). t * 2 + join (suc a % 2) (b % 2))
        (settled room (b / 2) (omega arith) ∙ sym (settled a (b / 2) (omega arith)))

  digits-Settled : (a : ℕ) → Settled a
  digits-Settled a = induction lt_wf {C = Settled} a settle

bit_and_nil : (b : ℕ) → bit_and zero b ≡ zero
bit_and_nil = bit_and-bitwise zero

-- The digits of a conjunction: the lowest one, and those of the halves.
pub bit_and_halves : (a b : ℕ) → bit_and a b ≡ bit_and (a / 2) (b / 2) * 2 + min (a % 2) (b % 2)
bit_and_halves zero b = omega (arith, bit_and_nil b, bit_and_nil (b / 2))
bit_and_halves (suc a) b =
    bit_and-bitwise (suc a) b
    ∙ ap (λ (t : ℕ). t * 2 + min (suc a % 2) (b % 2))
        (digits-Settled (λ x. zero) min (suc a / 2) a (b / 2) (omega arith)
          ∙ sym (bit_and-bitwise (suc a / 2) (b / 2)))

pub bit_and-zero : (a : ℕ) → bit_and a 0 ≡ 0
bit_and-zero a = induction lt_wf {C = λ n. bit_and n 0 ≡ 0} a go
  where
    go : (n : ℕ) → ((m : ℕ) → m < n → bit_and m 0 ≡ 0) → bit_and n 0 ≡ 0
    go zero ih = refl
    go (suc n) ih = omega (arith, bit_and_halves (suc n) 0, ih (suc n / 2) (omega arith))

-- The mask of `k` ones, by recursion on `k` from the digit law.
mask_of_parts : (k q r : ℕ) → r < 2 ^ k → bit_and (q * 2 ^ k + r) (2 ^ k - 1) ≡ r
mask_of_parts zero q r h = rw bit_and-zero (omega arith)
mask_of_parts (suc k) q r h = ground (
  arith,
  bit_and_halves (q * 2 ^ suc k + r) (2 ^ suc k - 1),
  pow-suc 2 k,
  ap (λ (t : ℕ). q * t) (pow-suc 2 k),
  one-le-pow k 2,
  mask_of_parts k q (r / 2) (omega (arith, pow-suc 2 k)),
)

pub bit_and_mask : (k a : ℕ) → bit_and a (2 ^ k - 1) ≡ a % 2 ^ k
bit_and_mask k a = ground (
  arith,
  one-le-pow k 2,
  mask_of_parts k (a / 2 ^ k) (a % 2 ^ k) (ground (arith, one-le-pow k 2)),
)

bit_and_self : (a : ℕ) → bit_and a a ≡ a
bit_and_self a = induction lt_wf {C = λ n. bit_and n n ≡ n} a go
  where
    go : (n : ℕ) → ((m : ℕ) → m < n → bit_and m m ≡ m) → bit_and n n ≡ n
    go zero ih = refl
    go (suc n) ih = omega (arith, bit_and_halves (suc n) (suc n), ih (suc n / 2) (omega arith))

abbrev IsPow : ℕ → Type 0
IsPow n = (k : ℕ) × (n ≡ 2 ^ k)

IsPow-of_half : (n : ℕ) → n ≡ 2 * (n / 2) → IsPow (n / 2) → IsPow n
IsPow-of_half n e (k, p) = (suc k, omega (arith, pow-suc 2 k))

half_cleared : (n : ℕ) → 0 < n → n % 2 ≡ 0 → bit_and n (n - 1) ≡ 0 → bit_and (n / 2) (n / 2 - 1) ≡ 0
half_cleared n pos even e =
    let half : (n - 1) / 2 ≡ n / 2 - 1 = omega arith in
    rw (← half) (omega (arith, bit_and_halves n (n - 1)))

odd_cleared : (n : ℕ) → n % 2 ≡ 1 → bit_and n (n - 1) ≡ 0 → n ≡ 1
odd_cleared n odd e =
    let half : (n - 1) / 2 ≡ n / 2 = omega arith in
    let zero_half : bit_and (n / 2) ((n - 1) / 2) ≡ 0 = omega (arith, bit_and_halves n (n - 1)) in
    omega (arith, ap (λ (t : ℕ). bit_and (n / 2) t) half, bit_and_self (n / 2))

-- `n & (n - 1)` clears the lowest one of `n`, so it is 0 only at a power of two.
pub pow_of_bit_and : (n : ℕ) → 0 < n → bit_and n (n - 1) ≡ 0 → (k : ℕ) × (n ≡ 2 ^ k)
pow_of_bit_and n = induction lt_wf {C = λ n. 0 < n → bit_and n (n - 1) ≡ 0 → IsPow n} n go
  where
    go :
        (n : ℕ)
        → ((m : ℕ) → m < n → 0 < m → bit_and m (m - 1) ≡ 0 → IsPow m)
        → 0 < n
        → bit_and n (n - 1) ≡ 0
        → IsPow n
    go n ih pos e = elim (ℕ_discrete (n % 2) 0) [
      | yes even ↦
          IsPow-of_half n (omega arith)
            (ih (n / 2) (omega arith) (omega arith) (half_cleared n pos even e))
      | no odd ↦ (0, odd_cleared n (omega arith) e)
    ]
