-- ===== src/Livox/CacheIndex/Lookup.antt =====
-- The laws of the map and of the table of taken slots.
use robot_nav.Prelude.{
  ℕ, zero, suc, ◌+◌, ◌<◌, ◌≡◌, refl, Bool, true, false, none, some, List, [], ◌∷◌, arith, length,
  get_or, set, ◌==◌, if◌then◌else◌,
}
use robot_nav.Livox.Keys.{Key, key_eq, key_eq_iff}
use robot_nav.Livox.CacheIndex.{lookup, insert, erase, first_free}

pub lookup-insert :
    (j k : Key) (v : ℕ) (m : List (Key × ℕ))
    → lookup j (insert k v m) ≡ (if key_eq k j then some v else lookup j m)
unfolding lookup insert
lookup-insert j k v [] = refl
lookup-insert j k v ((i, w) ∷ m) =
    ground (arith, key_eq_iff k j, key_eq_iff i k, key_eq_iff i j, lookup-insert j k v m)

pub lookup-erase :
    (j k : Key) (m : List (Key × ℕ))
    → lookup j (erase k m) ≡ (if key_eq k j then none else lookup j m)
unfolding lookup erase
lookup-erase j k [] = ground arith
lookup-erase j k ((i, w) ∷ m) =
    ground (arith, key_eq_iff k j, key_eq_iff i k, key_eq_iff i j, lookup-erase j k m)

-- The slot found is the first that is not taken; none is found only where all are taken.
pub first_free_found :
    (l : List Bool) (i : ℕ) {r : ℕ}
    → first_free l i ≡ some r
    → (d : ℕ) × (r ≡ i + d)
      × (d < length l)
      × (get_or l d true ≡ false)
      × ((j : ℕ) → j < d → get_or l j false ≡ true)
unfolding first_free
first_free_found [] i e = cc
first_free_found (false ∷ l) i e = (0, ground arith, omega arith, refl, λ j h. absurd (omega arith))
first_free_found (true ∷ l) i {r} e =
    let (d, r_eq, inside, free, before) = first_free_found l (i + 1) e in
    (suc d, omega arith, omega arith, free, all_before d before)
  where
    all_before :
        (d : ℕ)
        → ((j : ℕ) → j < d → get_or l j false ≡ true)
        → (j : ℕ) → j < suc d
        → get_or (true ∷ l) j false ≡ true
    all_before d before zero h = refl
    all_before d before (suc j) h = before j (omega arith)

pub first_free-none :
    (l : List Bool) (i : ℕ)
    → first_free l i ≡ none
    → (j : ℕ) → j < length l
    → get_or l j false ≡ true
unfolding first_free
first_free-none [] i e j h = absurd (omega arith)
first_free-none (false ∷ l) i e j h = cc
first_free-none (true ∷ l) i e zero h = refl
first_free-none (true ∷ l) i e (suc j) h = first_free-none l (i + 1) e j (omega arith)

pub get_or-set :
    (l : List Bool) (i j : ℕ) (b : Bool)
    → i < length l
    → get_or (set l i b) j false ≡ (if i == j then b else get_or l j false)
get_or-set [] i j b h = absurd (omega arith)
get_or-set (x ∷ l) zero zero b h = refl
get_or-set (x ∷ l) zero (suc j) b h = ground arith
get_or-set (x ∷ l) (suc i) zero b h = ground arith
get_or-set (x ∷ l) (suc i) (suc j) b h = ground (arith, get_or-set l i j b)
