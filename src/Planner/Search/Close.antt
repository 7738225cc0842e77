-- ===== src/Planner/Search/Close.antt =====
-- A cell that is closed for the first time: the loop's invariant is kept.
use robot_nav.Prelude.{
  ℕ, ◌≡◌, inl, inr, ◌∙◌, Bool, true, false, Option, some, List, [], ◌∷◌, ◌++◌, All, All-append,
  get_elem?, set, length-set,
}
use robot_nav.Planner.Interface.{Costmap, Picked}
use robot_nav.Planner.Search.{AStarNode, node_x, node_y, cell_index, hex_neighbors}
use robot_nav.Planner.Search.Cells.{InMap, IsSmall, cell_index_injective, Step, step}
use robot_nav.Planner.Search.Picks.{
  Holds-append_left, Holds-append_right, Picked-Holds, Picked-All, get_elem?-mark,
  get_elem?-mark_self, marked_cases,
}
use robot_nav.Planner.Search.Expand.{Pushed, pushed, Expanded}
use robot_nav.Planner.Search.Invariant.{
  IsRoute, extend, IsClosed, Covered, IsDone, Inv, route-InMap,
}

module _ {R : Type 0} (m : Costmap) (goal_x goal_y x0 y0 : ℕ) (small : IsSmall m)
    (start_in : InMap m x0 y0) {open_list rest : List (AStarNode R)} {cur : AStarNode R}
    {closed : List Bool} {r : Option (List (AStarNode R))} (p : Picked open_list cur rest)
    (v : Inv m goal_x goal_y x0 y0 open_list closed)
    (free : get_elem? closed (cell_index m (node_x cur) (node_y cur)) ≡ some false)
    (other : ¬ ((node_x cur ≡ goal_x) × (node_y cur ≡ goal_y)))
    (e : Expanded m cur
      (set closed (cell_index m (node_x cur) (node_y cur)) true)
      (hex_neighbors (node_y cur))
      r) where
  abbrev closed' : List Bool
  closed' = set closed (cell_index m (node_x cur) (node_y cur)) true

  cur-IsRoute : IsRoute m x0 y0 cur
  cur-IsRoute = (Picked-All (IsRoute m x0 y0) p v.routes).0

  still : (x y : ℕ) → Covered m open_list closed x y → Covered m (rest ++ e.nodes) closed' x y
  still x y (inl c) = inl (get_elem?-mark closed _ (cell_index m x y) c)
  still x y (inr held) = elim (Picked-Holds x y p held) [
    | inl (ex, ey) ↦ inl (rw (← ex, ← ey) (get_elem?-mark_self closed _ free))
    | inr d ↦ inr (Holds-append_left rest e.nodes x y d)
  ]

  routes_below :
      (l : List (AStarNode R))
      → All (Pushed m cur (hex_neighbors (node_y cur))) l
      → All (IsRoute m x0 y0) l
  routes_below [] h = tt
  routes_below (n ∷ l) h = (one n h.0, routes_below l h.1)
    where
      one : (n : AStarNode R) → Pushed m cur (hex_neighbors (node_y cur)) n → IsRoute m x0 y0 n
      one n (pushed x y g k dx dy among ex ey w) = extend g k cur-IsRoute (step dx dy among ex ey w)

  new_done : IsDone m goal_x goal_y (rest ++ e.nodes) closed' (node_x cur) (node_y cur)
  new_done = (other, covered)
    where
      covered :
          (x' y' : ℕ)
          → Step m (node_x cur) (node_y cur) x' y'
          → Covered m (rest ++ e.nodes) closed' x' y'
      covered x' y' (step dx dy among ex ey w) =
          rw (ex, ey)
            (elim (e.covered dx dy among (rw (ex, ey) at w)) [
              | inl c ↦ inl c
              | inr h ↦ inr (Holds-append_right rest e.nodes _ _ h)
            ])

  done_cases :
      (x y : ℕ)
      → InMap m x y
      → IsClosed m closed' x y
      → IsDone m goal_x goal_y (rest ++ e.nodes) closed' x y
  done_cases x y h c =
      elim (marked_cases closed (cell_index m (node_x cur) (node_y cur)) (cell_index m x y) c) [
        | inl same ↦
            let (ex, ey) =
              cell_index_injective m (node_x cur) (node_y cur) x y small
                (route-InMap m goal_x goal_y x0 y0 start_in cur-IsRoute) h same in
            rw (← ex, ← ey) new_done
        | inr before ↦
            let (not_goal, covered) = v.finished x y h before in
            (not_goal, λ x' y' st. still x' y' (covered x' y' st))
      ]

  pub close-Inv : Inv m goal_x goal_y x0 y0 (rest ++ e.nodes) closed'
  close-Inv = record {
    num = length-set closed _ true ∙ v.num;
    routes =
        All-append (IsRoute m x0 y0) rest e.nodes (Picked-All (IsRoute m x0 y0) p v.routes).1
          (routes_below e.nodes e.below);
    started = still x0 y0 v.started;
    finished = done_cases;
  }
