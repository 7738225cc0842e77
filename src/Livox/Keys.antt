-- ===== src/Livox/Keys.antt =====
-- The keys of comm/cache_index.cpp: "livox_lidar_" and the decimal digits of a handle, as the codes of
-- their characters (`std::string` with `std::to_string`).
use mathlib.Core.List.{reverse, reverse-reverse}
use robot_nav.Prelude.{
  ℕ, zero, suc, ◌+◌, ◌-◌, ◌*◌, ◌/◌, ◌%◌, ◌<◌, ◌≡◌, ◌↔◌, refl, ap, sym, ◌∙◌, Bool, true, false, ◌&&◌,
  List, [], ◌∷◌, ◌++◌, arith, ltb, ◌==◌, if◌then◌else◌, drop, Bool-cases, inl, inr,
}

abbrev pub Key : Type 0
Key = List ℕ

-- The decimal digits, the last first; a number has fewer than `n + 1` of them.
unfoldable pub digits_from : ℕ → ℕ → Key
digits_from zero n = []
digits_from (suc fuel) n =
    let rest = digits_from fuel (n / 10) in
    let longer = (n % 10 + b'0') ∷ rest in if ltb n 10 then (n + b'0') ∷ [] else longer

unfoldable pub to_string : ℕ → Key
unfolding digits_from
to_string n = reverse (digits_from (n + 1) n)

-- "livox_lidar_"
abbrev pub key_prefix : Key
key_prefix = b'l' ∷ b'i' ∷ b'v' ∷ b'o' ∷ b'x' ∷ b'_' ∷ b'l' ∷ b'i' ∷ b'd' ∷ b'a' ∷ b'r' ∷ b'_' ∷ []

unfoldable pub handle_key : ℕ → Key
unfolding to_string
handle_key handle = key_prefix ++ to_string handle

-- Equality of keys, as `std::map` uses it.
unfoldable pub key_eq : Key → Key → Bool
key_eq [] [] = true
key_eq [] (b ∷ y) = false
key_eq (a ∷ x) [] = false
key_eq (a ∷ x) (b ∷ y) = a == b && key_eq x y

pub key_eq_iff : (x y : Key) → (key_eq x y ≡ true) ↔ (x ≡ y)
unfolding key_eq
key_eq_iff [] [] = (λ h. refl, λ h. refl)
key_eq_iff [] (b ∷ y) = (λ h. cc, λ h. cc)
key_eq_iff (a ∷ x) [] = (λ h. cc, λ h. cc)
key_eq_iff (a ∷ x) (b ∷ y) =
    (λ h. ground (arith, key_eq_iff x y), λ h. ground (arith, key_eq_iff x y))

-- The number that digits stand for, the last digit first.
value : Key → ℕ
value [] = 0
value (d ∷ ds) = d - b'0' + 10 * value ds

value-digits_from : (fuel n : ℕ) → n < fuel → value (digits_from fuel n) ≡ n
unfolding value digits_from
value-digits_from zero n h = absurd (omega arith)
value-digits_from (suc fuel) n h = elim (Bool-cases (ltb n 10)) [
  | inl small ↦ rw small (omega arith)
  | inr large ↦ rw large (ground (arith, value-digits_from fuel (n / 10)))
]

value-to_string : (n : ℕ) → value (reverse (to_string n)) ≡ n
unfolding to_string
value-to_string n =
    rw (reverse-reverse (digits_from (n + 1) n)) (value-digits_from (n + 1) n (omega arith))

handle_of : Key → ℕ
handle_of k = value (reverse (drop 12 k))

handle_of-handle_key : (n : ℕ) → handle_of (handle_key n) ≡ n
unfolding handle_of handle_key
handle_of-handle_key = value-to_string

pub to_string_injective : (a b : ℕ) → to_string a ≡ to_string b → a ≡ b
to_string_injective a b h =
    sym (value-to_string a) ∙ ap (λ (k : Key). value (reverse k)) h ∙ value-to_string b

-- Different handles have different keys.
pub handle_key_injective : (a b : ℕ) → handle_key a ≡ handle_key b → a ≡ b
handle_key_injective a b h = sym (handle_of-handle_key a) ∙ ap handle_of h ∙ handle_of-handle_key b

key_of_hap : handle_key 3232 ≡ key_prefix ++ (b'3' ∷ b'2' ∷ b'3' ∷ b'2' ∷ [])
unfolding handle_key
key_of_hap = refl
