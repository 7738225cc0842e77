-- ===== src/Planner/Search/Picks.antt =====
-- The open list and the table of closed cells: what a pick and a mark change.
use robot_nav.Prelude.{
  ℕ, zero, suc, ◌≡◌, ◌≢◌, ◌⊎◌, inl, inr, refl, ap, Bool, true, false, some, List, [], ◌∷◌, ◌++◌,
  length, All, get_elem?, set, replicate,
}
use robot_nav.Planner.Interface.{Picked, here, there}
use robot_nav.Planner.Search.{AStarNode, node_x, node_y}

module _ {A : Type 0} where
  pub Picked-All : (P : A → Type 0) {l r : List A} {a : A} → Picked l a r → All P l → P a × All P r
  Picked-All P here h = h
  Picked-All P (there p) h = let (pa, pr) = Picked-All P p h.1 in (pa, (h.0, pr))

  pub length-Picked : {l r : List A} {a : A} → Picked l a r → length l ≡ suc (length r)
  length-Picked here = refl
  length-Picked (there p) = ap suc (length-Picked p)

-- The cells that are not closed yet.
abbrev pub unclosed : List Bool → ℕ
unclosed [] = 0
unclosed (true ∷ l) = unclosed l
unclosed (false ∷ l) = suc (unclosed l)

pub unclosed-set :
    (l : List Bool) (i : ℕ)
    → get_elem? l i ≡ some false
    → unclosed l ≡ suc (unclosed (set l i true))
unclosed-set [] i e = cc
unclosed-set (true ∷ l) zero e = cc
unclosed-set (false ∷ l) zero e = refl
unclosed-set (true ∷ l) (suc i) e = unclosed-set l i e
unclosed-set (false ∷ l) (suc i) e = ap suc (unclosed-set l i e)

pub unclosed-replicate : (n : ℕ) → unclosed (replicate n false) ≡ n
unclosed-replicate zero = refl
unclosed-replicate (suc n) = ap suc (unclosed-replicate n)

pub get_elem?-replicate : (n i : ℕ) → get_elem? (replicate n false) i ≢ some true
get_elem?-replicate zero i = λ h. cc
get_elem?-replicate (suc n) zero = λ h. cc
get_elem?-replicate (suc n) (suc i) = get_elem?-replicate n i

-- Marking a cell closes it and opens none.
pub get_elem?-mark_self :
    (l : List Bool) (i : ℕ) {b : Bool}
    → get_elem? l i ≡ some b
    → get_elem? (set l i true) i ≡ some true
get_elem?-mark_self [] i e = cc
get_elem?-mark_self (b ∷ l) zero e = refl
get_elem?-mark_self (b ∷ l) (suc i) e = get_elem?-mark_self l i e

pub get_elem?-mark :
    (l : List Bool) (i j : ℕ) → get_elem? l j ≡ some true → get_elem? (set l i true) j ≡ some true
get_elem?-mark [] i j e = e
get_elem?-mark (b ∷ l) zero zero e = refl
get_elem?-mark (b ∷ l) zero (suc j) e = e
get_elem?-mark (b ∷ l) (suc i) zero e = e
get_elem?-mark (b ∷ l) (suc i) (suc j) e = get_elem?-mark l i j e

-- A closed cell after a mark is the marked one or was closed before.
pub marked_cases :
    (l : List Bool) (i j : ℕ)
    → get_elem? (set l i true) j ≡ some true
    → (i ≡ j) ⊎ (get_elem? l j ≡ some true)
marked_cases [] i j e = inr e
marked_cases (b ∷ l) zero zero e = inl refl
marked_cases (b ∷ l) zero (suc j) e = inr e
marked_cases (b ∷ l) (suc i) zero e = inr e
marked_cases (b ∷ l) (suc i) (suc j) e = elim (marked_cases l i j e) [
  | inl p ↦ inl (ap suc p)
  | inr p ↦ inr p
]

module _ {R : Type 0} where
  -- A node at this cell stands in the list.
  abbrev pub Holds : List (AStarNode R) → ℕ → ℕ → Type 0
  Holds [] x y = ⊥
  Holds (n ∷ l) x y = ((node_x n ≡ x) × (node_y n ≡ y)) ⊎ Holds l x y

  pub Holds-append_left : (l k : List (AStarNode R)) (x y : ℕ) → Holds l x y → Holds (l ++ k) x y
  Holds-append_left [] k x y h = absurd h
  Holds-append_left (n ∷ l) k x y (inl h) = inl h
  Holds-append_left (n ∷ l) k x y (inr h) = inr (Holds-append_left l k x y h)

  pub Holds-append_right : (l k : List (AStarNode R)) (x y : ℕ) → Holds k x y → Holds (l ++ k) x y
  Holds-append_right [] k x y h = h
  Holds-append_right (n ∷ l) k x y h = inr (Holds-append_right l k x y h)

  pub Picked-Holds :
      {l r : List (AStarNode R)} {a : AStarNode R} (x y : ℕ)
      → Picked l a r
      → Holds l x y
      → ((node_x a ≡ x) × (node_y a ≡ y)) ⊎ Holds r x y
  Picked-Holds x y here h = h
  Picked-Holds x y (there p) (inl h) = inr (inl h)
  Picked-Holds x y (there p) (inr h) = elim (Picked-Holds x y p h) [
    | inl e ↦ inl e
    | inr e ↦ inr (inr e)
  ]
