-- ===== src/Planner/Interface.antt =====
-- What the planner uses and does not implement: `double`, the costmap of Nav2 and the open list, a
-- `std::priority_queue`.
use robot_nav.Prelude.{ℕ, ◌≡◌, Bool, false, Option, some, none, List, [], ◌∷◌, All}

-- The operations on `double` that the source calls. No law of arithmetic is assumed.
pub record Real : Type 1 where
  pub R : Type 0
  pub of_ℕ : ℕ → R
  pub add : R → R → R
  pub sub : R → R → R
  pub mul : R → R → R
  pub div : R → R → R
  pub lt : R → R → Bool
  pub hypot : R → R → R
  pub ceil_int : R → ℕ

-- `nav2_costmap_2d::Costmap2D`: `getSizeInCellsX`, `getSizeInCellsY`, `getCost`.
pub record Costmap : Type 0 where
  pub size_x : ℕ
  pub size_y : ℕ
  pub cost : ℕ → ℕ → ℕ

-- Taking one element out of a list.
pub data Picked {A : Type 0} : List A → A → List A → Type 0 where
  here : {a : A} {l : List A} → Picked (a ∷ l) a l
  there : {a b : A} {l r : List A} → Picked l a r → Picked (b ∷ l) a (b ∷ r)

-- `std::priority_queue` with a comparison `less`: `top` and `pop` take out an element that is
-- less than none that stays; which of several such ones is not specified.
pub record PriorityQueue {A : Type 0} (less : A → A → Bool) : Type 0 where
  pub pop : List A → Option (A × List A)
  pub pop_nil : pop [] ≡ none
  pub pop_cons :
      (a : A) (l : List A)
      → (b : A) × (rest : List A) × (pop (a ∷ l) ≡ some (b, rest)) × Picked (a ∷ l) b rest
  pub pop_top :
      (l : List A) {b : A} {rest : List A}
      → pop l ≡ some (b, rest)
      → All (λ c. less b c ≡ false) rest
