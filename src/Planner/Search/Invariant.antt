-- ===== src/Planner/Search/Invariant.antt =====
-- What holds at the head of the `while` loop.
use robot_nav.Prelude.{
  ℕ, ◌*◌, ◌≡◌, ◌⊎◌, inl, inr, refl, Bool, true, some, List, [], length, All, get_elem?,
}
use robot_nav.Planner.Interface.{Costmap, Picked}
use robot_nav.Planner.Search.{AStarNode, root, child, node_x, node_y, cell_index}
use robot_nav.Planner.Search.Cells.{InMap, is_node_valid-InMap, Step, step, Reach, start, next}
use robot_nav.Planner.Search.Picks.{Holds, Picked-Holds, Picked-All}

-- A chain of parents from the start, each a step from the one before.
pub data IsRoute {R : Type 0} (m : Costmap) (x0 y0 : ℕ) : AStarNode R → Type 0 where
  begin : (g h : R) → IsRoute m x0 y0 (root x0 y0 g h)
  extend :
      {x y : ℕ} {p : AStarNode R} (g h : R)
      → IsRoute m x0 y0 p
      → Step m (node_x p) (node_y p) x y
      → IsRoute m x0 y0 (child x y g h p)

abbrev pub IsClosed : Costmap → List Bool → ℕ → ℕ → Type 0
IsClosed m closed x y = get_elem? closed (cell_index m x y) ≡ some true

module _ {R : Type 0} (m : Costmap) where
  abbrev pub Covered : List (AStarNode R) → List Bool → ℕ → ℕ → Type 0
  Covered open_list closed x y = IsClosed m closed x y ⊎ Holds open_list x y

module _ {R : Type 0} (m : Costmap) (goal_x goal_y : ℕ) where
  abbrev pub IsDone : List (AStarNode R) → List Bool → ℕ → ℕ → Type 0
  IsDone open_list closed x y =
      (¬ ((x ≡ goal_x) × (y ≡ goal_y)))
      × ((x' y' : ℕ) → Step m x y x' y' → Covered m open_list closed x' y')

module _ {R : Type 0} (m : Costmap) (goal_x goal_y x0 y0 : ℕ) where
  pub record Inv (open_list : List (AStarNode R)) (closed : List Bool) : Type 0 where
    pub num : length closed ≡ m.size_x * m.size_y
    pub routes : All (IsRoute m x0 y0) open_list
    pub started : Covered m open_list closed x0 y0
    pub finished :
        (x y : ℕ)
        → InMap m x y
        → IsClosed m closed x y
        → IsDone m goal_x goal_y open_list closed x y

  pub route-InMap :
      InMap m x0 y0 → {n : AStarNode R} → IsRoute m x0 y0 n → InMap m (node_x n) (node_y n)
  route-InMap h (begin g k) = h
  route-InMap h (extend g k p (step dx dy a ex ey v)) = is_node_valid-InMap m _ _ v

  -- Where the list is empty, every cell that can be reached is closed, so the goal is none of them.
  reached-IsClosed :
      {closed : List Bool}
      → InMap m x0 y0
      → Inv [] closed
      → {x y : ℕ} → Reach m x0 y0 x y
      → InMap m x y × IsClosed m closed x y
  reached-IsClosed h v start = (h, elim (v.started) [ inl c ↦ c | inr held ↦ absurd held ])
  reached-IsClosed h v (next {x' = x'} {y' = y'} r st) =
      let (inside, c) = reached-IsClosed h v r in
      let st' = step_valid st in
      (st', elim ((v.finished _ _ inside c).1 x' y' st) [ inl d ↦ d | inr held ↦ absurd held ])
    where
      step_valid : {a b a' b' : ℕ} → Step m a b a' b' → InMap m a' b'
      step_valid (step dx dy among ex ey v) = is_node_valid-InMap m _ _ v

  pub unreachable :
      {closed : List Bool} → InMap m x0 y0 → Inv [] closed → ¬ Reach m x0 y0 goal_x goal_y
  unreachable h v r =
      let (inside, c) = reached-IsClosed h v r in (v.finished goal_x goal_y inside c).0 (refl, refl)

  -- A node whose cell is closed already is dropped.
  pub skip-Inv :
      {open_list rest : List (AStarNode R)} {cur : AStarNode R} {closed : List Bool}
      → Picked open_list cur rest
      → IsClosed m closed (node_x cur) (node_y cur)
      → Inv open_list closed
      → Inv rest closed
  skip-Inv {open_list} {rest} {cur} {closed} p c v = record {
    num = v.num;
    routes = (Picked-All (IsRoute m x0 y0) p v.routes).1;
    started = still x0 y0 v.started;
    finished = λ x y h d.
        ((v.finished x y h d).0, λ x' y' st. still x' y' ((v.finished x y h d).1 x' y' st));
  }
    where
      still : (x y : ℕ) → Covered m open_list closed x y → Covered m rest closed x y
      still x y (inl d) = inl d
      still x y (inr held) = elim (Picked-Holds x y p held) [
        | inl (ex, ey) ↦ inl (rw (← ex, ← ey) c)
        | inr d ↦ inr d
      ]
