-- ===== src/Planner/Search.antt =====
-- nav2_custom_planner.cpp, lines 26 to 121: the cells that may be entered and the search for the goal.
pub mod Cells
pub mod Picks
pub mod Expand
pub mod Invariant
pub mod Close
pub mod Total
use robot_nav.Prelude.{
  ℕ, zero, suc, ◌+◌, ◌-◌, ◌*◌, ◌%◌, ◌^◌, Bool, true, false, not, ◌&&◌, ◌||◌, Option, none, some,
  List, [], ◌∷◌, ◌++◌, get_elem?, get_or, set, replicate, ltb, leb, ◌==◌, if◌then◌else◌,
}
use robot_nav.Prelude.Bits.{add32, sub32}
use robot_nav.Planner.Interface.{Real, Costmap, PriorityQueue}

-- `AStarNode`: its `parent` is null or a node. `f_cost` is set by the constructor.
pub data AStarNode (R : Type 0) : Type 0 where
  root : ℕ → ℕ → R → R → AStarNode R
  child : ℕ → ℕ → R → R → AStarNode R → AStarNode R

-- How the search ends: at the goal, with an empty open list, at an index outside `closed_list`, or with
-- the fuel used up.
pub data SearchResult (R : Type 0) : Type 0 where
  found : AStarNode R → SearchResult R
  exhausted : SearchResult R
  bad_index : SearchResult R
  out_of_fuel : SearchResult R

module _ {R : Type 0} where
  abbrev pub node_x : AStarNode R → ℕ
  node_x (root x y g h) = x
  node_x (child x y g h p) = x

  abbrev pub node_y : AStarNode R → ℕ
  node_y (root x y g h) = y
  node_y (child x y g h p) = y

  abbrev pub g_cost : AStarNode R → R
  g_cost (root x y g h) = g
  g_cost (child x y g h p) = g

  abbrev pub h_cost : AStarNode R → R
  h_cost (root x y g h) = h
  h_cost (child x y g h p) = h

module _ (m : Costmap) where
  unfoldable pub is_node_valid : ℕ → ℕ → Bool
  is_node_valid x y =
      if leb m.size_x x || leb m.size_y y
      then false
      else ltb (m.cost x y) 253 && not (m.cost x y == 255)

  unfoldable pub is_sight_valid : ℕ → ℕ → Bool
  is_sight_valid x y =
      if leb m.size_x x || leb m.size_y y
      then false
      else ltb (m.cost x y) 180 && not (m.cost x y == 255)

  -- `y * getSizeInCellsX() + x` in `unsigned int`, read as an `int` that then indexes a vector: a
  -- negative one is a huge index.
  unfoldable pub cell_index : ℕ → ℕ → ℕ
  cell_index x y =
      let w = (y * m.size_x + x) % 2 ^ 32 in if ltb w (2 ^ 31) then w else w + (2 ^ 64 - 2 ^ 32)

-- -1 as it is added to an `unsigned int`.
abbrev pub minus_one : ℕ
minus_one = 2 ^ 32 - 1

unfoldable pub hex_neighbors : ℕ → List (ℕ × ℕ)
hex_neighbors y =
    if y % 2 == 0
    then (1, 0) ∷ (0, 1) ∷ (minus_one, 0) ∷ (0, minus_one) ∷ (1, 1) ∷ (1, minus_one) ∷ []
    else (1, 0)
      ∷ (0, 1)
      ∷ (minus_one, 0)
      ∷ (0, minus_one)
      ∷ (minus_one, 1)
      ∷ (minus_one, minus_one)
      ∷ []

module _ (r : Real) where
  open r use {R, of_ℕ, add, sub, mul, div, lt, hypot}

  unfoldable pub get_heuristic : ℕ → ℕ → ℕ → ℕ → R
  get_heuristic x1 y1 x2 y2 = hypot (sub (of_ℕ x1) (of_ℕ x2)) (sub (of_ℕ y1) (of_ℕ y2))

  abbrev pub f_cost : AStarNode R → R
  f_cost n = add (g_cost n) (h_cost n)

  -- `CompareNode`, which `std::priority_queue` reads the other way round.
  abbrev pub compare_node : AStarNode R → AStarNode R → Bool
  compare_node a b = lt (f_cost b) (f_cost a)

  -- The direction of the last step, compared with that of the next.
  turn_penalty : AStarNode R → ℕ → ℕ → R
  turn_penalty (root x y g h) next_x next_y = of_ℕ 0
  turn_penalty (child x y g h p) next_x next_y =
      if not (sub32 x (node_x p) == sub32 next_x x) || not (sub32 y (node_y p) == sub32 next_y y)
      then of_ℕ 3
      else of_ℕ 0

  module _ (m : Costmap) (goal_x goal_y : ℕ) where
    new_node : AStarNode R → ℕ → ℕ → AStarNode R
    unfolding get_heuristic turn_penalty
    new_node cur next_x next_y =
        let normalized_cost = div (of_ℕ (m.cost next_x next_y)) (of_ℕ 254) in
        let safety_penalty = mul (mul normalized_cost normalized_cost) (of_ℕ 100) in
        let g =
          add (add (add (g_cost cur) (of_ℕ 1)) safety_penalty) (turn_penalty cur next_x next_y) in
        child next_x next_y g (get_heuristic next_x next_y goal_x goal_y) cur

    push_neighbor :
        AStarNode R
        → ℕ
        → ℕ
        → Option Bool
        → Option (List (AStarNode R))
        → Option (List (AStarNode R))
    unfolding new_node
    push_neighbor cur x y none rest = none
    push_neighbor cur x y (some true) rest = rest
    push_neighbor cur x y (some false) none = none
    push_neighbor cur x y (some false) (some l) = some (new_node cur x y ∷ l)

    -- The nodes that the loop over the neighbours pushes, in its order; `none` for a read outside
    -- `closed_list`.
    unfoldable pub expand : AStarNode R → List Bool → List (ℕ × ℕ) → Option (List (AStarNode R))
    unfolding push_neighbor
    expand cur closed [] = some []
    expand cur closed ((dx, dy) ∷ dirs) =
        let next_x = add32 (node_x cur) dx in
        let next_y = add32 (node_y cur) dy in
        let rest = expand cur closed dirs in
        if is_node_valid m next_x next_y
        then push_neighbor cur next_x next_y (get_elem? closed (cell_index m next_x next_y)) rest
        else rest

    abbrev pub is_goal : AStarNode R → Bool
    is_goal n = node_x n == goal_x && node_y n == goal_y

    module _ (open_queue : PriorityQueue (compare_node)) where
      -- The `while` loop, on fuel.
      unfoldable pub search : ℕ → List (AStarNode R) → List Bool → SearchResult R
      search zero open_list closed = out_of_fuel
      search (suc fuel) open_list closed = elim (open_queue.pop open_list) [
        | none ↦ exhausted
        | some (cur, rest) ↦
            let index = cell_index m (node_x cur) (node_y cur) in
            elim (get_elem? closed index) [
              | none ↦ bad_index
              | some true ↦ search fuel rest closed
              | some false ↦
                  let closed' = set closed index true in
                  elim (is_goal cur) [
                    | true ↦ found cur
                    | false ↦ elim (expand cur closed' (hex_neighbors (node_y cur))) [
                      | none ↦ bad_index
                      | some pushed ↦ search fuel (rest ++ pushed) closed'
                    ]
                  ]
            ]
      ]

      -- Every round takes a node out of the list, and a cell that is closed for the first time puts
      -- in at most six.
      abbrev pub enough_fuel : ℕ
      enough_fuel = 6 * (m.size_x * m.size_y) + 2

      unfoldable pub find_path : ℕ → ℕ → SearchResult R
      unfolding search
      find_path start_x start_y =
          search enough_fuel
            (root start_x start_y (of_ℕ 0) (get_heuristic start_x start_y goal_x goal_y) ∷ [])
            (replicate ((m.size_x * m.size_y) % 2 ^ 32) false)
