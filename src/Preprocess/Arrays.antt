-- ===== src/Preprocess/Arrays.antt =====
-- Arrays as lists: an access out of range is a fault.
use robot_nav.Prelude.{
  ℕ, zero, suc, ◌≤◌, ◌<◌, ◌≡◌, refl, none, some, List, [], ◌∷◌, arith, length, length-set,
  get_elem?, get_or, set, drop, ltb, lt→ltb, if◌then◌else◌,
}
use robot_nav.Livox.Fault.{
  Outcome, done, fault, out_of_bounds, Returns, returns, Safe, safe, faulty,
}

-- An element, or the fault of reading past the end.
unfoldable pub read : {A : Type 0} → List A → ℕ → Outcome A
read l i = elim (get_elem? l i) [ none ↦ fault out_of_bounds | some a ↦ done a ]

-- A write to an array.
unfoldable pub write : {A : Type 0} → List A → ℕ → A → Outcome (List A)
write l i a = if ltb i (length l) then done (set l i a) else fault out_of_bounds

pub read_inside : {A : Type 0} (l : List A) (i : ℕ) → i < length l → (a : A) × (read l i ≡ done a)
unfolding read
read_inside [] i h = absurd (omega arith)
read_inside (a ∷ l) zero h = (a, refl)
read_inside (a ∷ l) (suc i) h = read_inside l i (omega arith)

abbrev pub HasLength : {A : Type 0} → ℕ → List A → Type 0
HasLength n l = length l ≡ n

abbrev pub Any : {A : Type 0} → A → Type 0
Any a = Unit {0}

pub write-HasLength :
    {A : Type 0} (l : List A) (i n : ℕ) (a : A)
    → length l ≡ n
    → i < n
    → Returns (HasLength n) (write l i a)
unfolding write
write-HasLength l i n a e h =
    rw (lt→ltb i (length l) (omega arith)) (returns (omega (arith, length-set l i a)))

pub read-Any : {A : Type 0} (l : List A) (i : ℕ) → i < length l → Returns Any (read l i)
read-Any l i h = let (a, e) = read_inside l i h in rw e (returns tt)

pub read_past : {A : Type 0} (l : List A) (i : ℕ) → length l ≤ i → read l i ≡ fault out_of_bounds
unfolding read
read_past [] i h = refl
read_past (a ∷ l) zero h = absurd (omega arith)
read_past (a ∷ l) (suc i) h = read_past l i (omega arith)

-- The element at i, and those after it.
abbrev pub IsAt : {A : Type 0} → List A → ℕ → A → Type 0
IsAt l i a = drop i l ≡ a ∷ drop (suc i) l

pub read-IsAt : {A : Type 0} (l : List A) (i : ℕ) → i < length l → Returns (IsAt l i) (read l i)
unfolding read
read-IsAt [] i h = absurd (omega arith)
read-IsAt (a ∷ l) zero h = returns refl
read-IsAt (a ∷ l) (suc i) h = read-IsAt l i (omega arith)

pub drop_all : {A : Type 0} (l : List A) (i : ℕ) → length l ≤ i → drop i l ≡ []
drop_all [] zero h = refl
drop_all [] (suc i) h = refl
drop_all (a ∷ l) zero h = absurd (omega arith)
drop_all (a ∷ l) (suc i) h = drop_all l i (omega arith)

pub read-Safe : {A : Type 0} (l : List A) (i : ℕ) → Safe Any (Unit {0}) (read l i)
unfolding read
read-Safe [] i = faulty tt
read-Safe (a ∷ l) zero = safe tt
read-Safe (a ∷ l) (suc i) = read-Safe l i

pub read_some :
    {A : Type 0} {a : A} (l : List A) (i : ℕ) → get_elem? l i ≡ some a → read l i ≡ done a
unfolding read
read_some [] i e = cc
read_some (b ∷ l) zero e = cc
read_some (b ∷ l) (suc i) e = read_some l i e

-- What a write leaves.
pub write-set :
    {A : Type 0} (l : List A) (i : ℕ) (a : A)
    → i < length l
    → Returns (λ l'. l' ≡ set l i a) (write l i a)
unfolding write
write-set l i a h = rw (lt→ltb i (length l) h) (returns refl)

pub read_get_or :
    {A : Type 0} (l : List A) (i : ℕ) (d : A) → i < length l → read l i ≡ done (get_or l i d)
unfolding read
read_get_or [] i d h = absurd (omega arith)
read_get_or (a ∷ l) zero d h = refl
read_get_or (a ∷ l) (suc i) d h = read_get_or l i d (omega arith)
