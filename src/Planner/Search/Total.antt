-- ===== src/Planner/Search/Total.antt =====
-- The search ends, and decides whether the goal can be reached.
use robot_nav.Prelude.{
  ℕ, zero, suc, ◌+◌, ◌*◌, ◌%◌, ◌^◌, ◌<◌, ◌≡◌, inl, inr, refl, ◌∙◌, Bool, true, false, some, List,
  [], ◌∷◌, ◌++◌, arith, length, length-append, length-replicate, length-set, get_elem?,
  get_elem?_inside, set, Bool-cases, ◌==◌,
}
use robot_nav.Planner.Interface.{Real, Costmap, Picked, PriorityQueue}
use robot_nav.Planner.Search.{
  AStarNode, node_x, node_y, cell_index, hex_neighbors, is_goal, expand, compare_node, SearchResult,
  found, exhausted, bad_index, out_of_fuel, search, find_path, enough_fuel,
}
use robot_nav.Planner.Search.Cells.{InMap, IsSmall, cell_index_lem, Reach}
use robot_nav.Planner.Search.Picks.{
  length-Picked, Picked-All, unclosed, unclosed-set, unclosed-replicate, get_elem?-replicate,
}
use robot_nav.Planner.Search.Expand.{expand_lem}
use robot_nav.Planner.Search.Invariant.{IsRoute, begin, Inv, route-InMap, unreachable, skip-Inv}
use robot_nav.Planner.Search.Close.{close-Inv}

-- What a result must be: a node at the goal that ends a route from the start, or none where there is
-- no way. The other two results are errors.
abbrev pub IsCorrect : {R : Type 0} → Costmap → ℕ → ℕ → ℕ → ℕ → SearchResult R → Type 0
IsCorrect m goal_x goal_y x0 y0 (found n) =
    IsRoute m x0 y0 n × (node_x n ≡ goal_x) × (node_y n ≡ goal_y)
IsCorrect m goal_x goal_y x0 y0 exhausted = ¬ Reach m x0 y0 goal_x goal_y
IsCorrect m goal_x goal_y x0 y0 bad_index = ⊥
IsCorrect m goal_x goal_y x0 y0 out_of_fuel = ⊥

length-hex_neighbors : (y : ℕ) → length (hex_neighbors y) ≡ 6
unfolding hex_neighbors
length-hex_neighbors y = elim (Bool-cases (y % 2 == 0)) [ inl e ↦ rw e | inr e ↦ rw e ]

module _ (r : Real) (m : Costmap) (goal_x goal_y : ℕ)
    (open_queue : PriorityQueue (compare_node r)) where
  open r use {R}

  abbrev run : ℕ → List (AStarNode R) → List Bool → SearchResult R
  run = search r m goal_x goal_y open_queue

  run_nil : (fuel : ℕ) (closed : List Bool) → run (suc fuel) [] closed ≡ exhausted
  unfolding search
  run_nil fuel closed = rw (open_queue.pop_nil, search)

  module _ (fuel : ℕ) {open_list rest : List (AStarNode R)} {cur : AStarNode R} (closed : List Bool)
      (ran : open_queue.pop open_list ≡ some (cur, rest)) where
    run_skip :
        get_elem? closed (cell_index m (node_x cur) (node_y cur)) ≡ some true
        → run (suc fuel) open_list closed ≡ run fuel rest closed
    unfolding search
    run_skip at = rw (ran, at, search)

    run_goal :
        get_elem? closed (cell_index m (node_x cur) (node_y cur)) ≡ some false
        → is_goal r m goal_x goal_y cur ≡ true
        → run (suc fuel) open_list closed ≡ found cur
    unfolding search
    run_goal at g = rw (ran, at, g, search)

    run-expand :
        (nodes : List (AStarNode R))
        → get_elem? closed (cell_index m (node_x cur) (node_y cur)) ≡ some false
        → is_goal r m goal_x goal_y cur ≡ false
        → expand r m goal_x goal_y cur
            (set closed (cell_index m (node_x cur) (node_y cur)) true)
            (hex_neighbors (node_y cur))
          ≡ some nodes
        → run (suc fuel) open_list closed
          ≡ run fuel (rest ++ nodes) (set closed (cell_index m (node_x cur) (node_y cur)) true)
    unfolding search
    run-expand nodes at g e = rw (ran, at, g, e, search)

  module _ (small : IsSmall m) (x0 y0 : ℕ) (start_in : InMap m x0 y0) where
    abbrev HoldsAt : List (AStarNode R) → List Bool → Type 0
    HoldsAt = Inv m goal_x goal_y x0 y0

    abbrev Correct : SearchResult R → Type 0
    Correct = IsCorrect m goal_x goal_y x0 y0

    -- One round, given what later rounds do.
    module _ (fuel : ℕ)
        (later : (l : List (AStarNode R)) (closed : List Bool)
          → HoldsAt l closed
          → length l + 6 * unclosed closed < fuel
          → Correct (run fuel l closed))
        {open_list rest : List (AStarNode R)} {cur : AStarNode R} (closed : List Bool)
        (v : HoldsAt open_list closed) (h : length open_list + 6 * unclosed closed < suc fuel)
        (ran : open_queue.pop open_list ≡ some (cur, rest)) (p : Picked open_list cur rest) where
      round_open :
          get_elem? closed (cell_index m (node_x cur) (node_y cur)) ≡ some false
          → Correct (run (suc fuel) open_list closed)
      round_open at = elim (Bool-cases (is_goal r m goal_x goal_y cur)) [
        | inl g ↦
            rw (run_goal fuel closed ran at g)
              ((Picked-All (IsRoute m x0 y0) p v.routes).0, ground arith, ground arith)
        | inr g ↦
            let closed' = set closed (cell_index m (node_x cur) (node_y cur)) true in
            let e =
              expand_lem r m goal_x goal_y small cur closed' (length-set closed _ true ∙ v.num)
                (hex_neighbors (node_y cur)) in
            rw (run-expand fuel closed ran e.nodes at g e.ran) (
              later (rest ++ e.nodes) closed'
                (close-Inv m goal_x goal_y x0 y0 small start_in p v at (λ same. ground arith) e)
                (omega (
                  arith,
                  length-append rest e.nodes,
                  e.few,
                  length-hex_neighbors (node_y cur),
                  length-Picked p,
                  unclosed-set closed _ at,
                )))
      ]

      round :
          (b : Bool)
          → get_elem? closed (cell_index m (node_x cur) (node_y cur)) ≡ some b
          → Correct (run (suc fuel) open_list closed)
      round true at = rw (run_skip fuel closed ran at) (
          later rest closed (skip-Inv m goal_x goal_y x0 y0 p at v)
            (omega (arith, length-Picked p)))
      round false at = round_open at

    search_lem :
        (fuel : ℕ) (open_list : List (AStarNode R)) (closed : List Bool)
        → HoldsAt open_list closed
        → length open_list + 6 * unclosed closed < fuel
        → Correct (run fuel open_list closed)
    search_lem zero open_list closed v h = absurd (omega arith)
    search_lem (suc fuel) [] closed v h =
        rw (run_nil fuel closed) (unreachable m goal_x goal_y x0 y0 start_in v)
    search_lem (suc fuel) (n ∷ l) closed v h =
        let (cur, rest, ran, p) = open_queue.pop_cons n l in
        let inside =
          route-InMap m goal_x goal_y x0 y0 start_in (Picked-All (IsRoute m x0 y0) p v.routes).0 in
        let (b, at) =
          get_elem?_inside closed (cell_index m (node_x cur) (node_y cur))
            (omega (arith, v.num, (cell_index_lem m (node_x cur) (node_y cur) small inside).1)) in
        round fuel (search_lem fuel) closed v h ran p b at

    -- On a map of fewer than 2^31 cells, from a cell of it and with any open list that keeps the
    -- documented behaviour, the search ends within its fuel and reads no index outside `closed_list`.
    -- It returns a node only at the goal and with a chain of parents from the start, each a valid
    -- neighbour of the one before; it gives up only where no such chain leads to the goal.
    pub find_path-IsCorrect :
        IsCorrect m goal_x goal_y x0 y0 (find_path r m goal_x goal_y open_queue x0 y0)
    unfolding find_path
    find_path-IsCorrect =
        let cells : (m.size_x * m.size_y) % 2 ^ 32 ≡ m.size_x * m.size_y = omega arith in
        search_lem (enough_fuel r m goal_x goal_y open_queue) _ _
          (record {
            num = length-replicate _ false ∙ cells;
            routes = (begin _ _, tt);
            started = inr (inl (refl, refl));
            finished = λ x y inside c.
                absurd (get_elem?-replicate (m.size_x * m.size_y % 2 ^ 32) (cell_index m x y) c);
          })
          (omega (arith, cells, unclosed-replicate ((m.size_x * m.size_y) % 2 ^ 32)))
