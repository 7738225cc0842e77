-- ===== src/Planner/Tests.antt =====
-- A concrete planner: whole numbers for `double`, an open list that takes the first cheapest node, and a
-- small costmap.
use robot_nav.Prelude.{
  ℕ, ◌+◌, ◌-◌, ◌*◌, ◌/◌, ◌<◌, ◌≡◌, inl, inr, refl, Bool, false, Option, none, some, List, [], ◌∷◌,
  arith, All, ltb, ◌==◌, if◌then◌else◌, Bool-cases,
}
use robot_nav.Planner.Interface.{Real, Costmap, PriorityQueue, Picked, here, there}
use robot_nav.Planner.Search.{
  AStarNode, compare_node, f_cost, find_path, search, expand, is_node_valid, cell_index,
  hex_neighbors, get_heuristic, is_sight_valid,
}
use robot_nav.Planner.Search.Total.{IsCorrect, find_path-IsCorrect}
use robot_nav.Planner.Smooth.{
  LineIterator, Position, Frame, smooth_from, walk_parents, interpolate, num_points, segment_from,
  between, pick_poses, farthest, has_line_of_sight, all_sight_valid,
}
use robot_nav.Planner.Smooth.Shortcut.{Hops, smooth_from_lem}
use robot_nav.Planner.Plan.{PoseStamped, create_plan, plan, finish_search, smooth, sees, fix_ends}
use robot_nav.Planner.Plan.Correct.{Outcome, create_plan_correct}

abbrev whole : Real
whole = record {
  R = ℕ;
  of_ℕ = λ n. n;
  add = λ a b. a + b;
  sub = λ a b. a - b;
  mul = λ a b. a * b;
  div = λ a b. a / b;
  lt = ltb;
  hypot = λ a b. a + b;
  ceil_int = λ n. n;
}

module _ {A : Type 0} (key : A → ℕ) where
  abbrev less : A → A → Bool
  less a b = ltb (key b) (key a)

  -- The first element of least key, and the others.
  pick : A → List A → A × List A
  pick a [] = (a, [])
  pick a (b ∷ l) =
      let (c, rest) = pick b l in if ltb (key c) (key a) then (c, a ∷ rest) else (a, b ∷ l)

  pop : List A → Option (A × List A)
  unfolding pick
  pop [] = none
  pop (a ∷ l) = some (pick a l)

  pick-Picked : (a : A) (l : List A) → Picked (a ∷ l) (pick a l).0 (pick a l).1
  unfolding pick
  pick-Picked a [] = here
  pick-Picked a (b ∷ l) = elim (Bool-cases (ltb (key (pick b l).0) (key a))) [
    | inl e ↦ rw e (there (pick-Picked b l))
    | inr e ↦ rw e here
  ]

  All-of_Picked : (P : A → Type 0) {l r : List A} {a : A} → Picked l a r → P a → All P r → All P l
  All-of_Picked P here pa h = (pa, h)
  All-of_Picked P (there p) pa h = (h.0, All-of_Picked P p pa h.1)

  abbrev Least : A → List A → Type 0
  Least a l = All (λ c. less a c ≡ false) l

  Least-mono : (a c : A) (l : List A) → ltb (key c) (key a) ≡ false → Least c l → Least a l
  Least-mono a c [] e h = tt
  Least-mono a c (b ∷ l) e h = (ground arith, Least-mono a c l e h.1)

  pick-Least : (a : A) (l : List A) → Least (pick a l).0 (pick a l).1
  unfolding pick
  pick-Least a [] = tt
  pick-Least a (b ∷ l) = elim (Bool-cases (ltb (key (pick b l).0) (key a))) [
    | inl e ↦ rw e (ground arith, pick-Least b l)
    | inr e ↦ rw e (
        Least-mono a (pick b l).0 (b ∷ l) e (
          All-of_Picked (λ c. less (pick b l).0 c ≡ false) (pick-Picked b l) (ground arith)
            (pick-Least b l)))
  ]

  pop_top_lem : (l : List A) {b : A} {rest : List A} → pop l ≡ some (b, rest) → Least b rest
  unfolding pop
  pop_top_lem [] e = cc
  pop_top_lem (a ∷ l) {b} {rest} e =
      let first : (pick a l).0 ≡ b = cc in
      let others : (pick a l).1 ≡ rest = cc in rw (← first, ← others) (pick-Least a l)

  abbrev first_cheapest : PriorityQueue less
  unfolding pop
  first_cheapest = record {
    pop = pop;
    pop_nil = refl;
    pop_cons = λ a l. ((pick a l).0, (pick a l).1, refl, pick-Picked a l);
    pop_top = pop_top_lem;
  }

-- Three columns and two rows; the cell in the middle of the upper row is an obstacle.
abbrev hall : Costmap
hall = record {
  size_x = 3;
  size_y = 2;
  cost = λ x y. if x == 1 then (if y == 0 then 254 else 0) else 0;
}

abbrev open_queue : PriorityQueue (compare_node whole)
open_queue = first_cheapest (λ (n : AStarNode ℕ). f_cost whole n)

find_path-IsCorrect_example : IsCorrect hall 2 0 0 0 (find_path whole hall 2 0 open_queue 0 0)
find_path-IsCorrect_example =
    find_path-IsCorrect whole hall 2 0 open_queue (omega arith) 0 0 (omega arith)

-- Positions are cell coordinates, and lines are taken to visit their ends and the middle.
abbrev grid : Frame ℕ
grid = record {
  map_to_world = λ x y. record { px = x; py = y };
  world_to_map = λ p. if ltb p.px 3 then (if ltb p.py 2 then some (p.px, p.py) else none) else none;
}

abbrev ends : LineIterator
ends x0 y0 x1 y1 = (x0, y0) ∷ ((x0 + x1) / 2, (y0 + y1) / 2) ∷ (x1, y1) ∷ []

abbrev pose : ℕ → ℕ → PoseStamped ℕ
pose x y = record { frame_id = "map"; position = record { px = x; py = y } }

grid_inside : (p : Position ℕ) (x y : ℕ) → grid.world_to_map p ≡ some (x, y) → (x < 3) × (y < 2)
grid_inside p x y h = ground arith

create_plan_correct_example :
    Outcome hall grid "map"
      (pose 0 0)
      (pose 2 0)
      (create_plan whole hall grid ends (0, 0) 1 open_queue "map" (pose 0 0) (pose 2 0))
create_plan_correct_example =
    create_plan_correct whole hall grid ends (0, 0) 1 open_queue (omega arith) grid_inside "map"
      (pose 0 0) (pose 2 0)

-- The way round the obstacle, through the lower row; the first segment has two points, which whole
-- numbers put at one place.
plan_round_obstacle :
    create_plan whole hall grid ends (0, 0) 1 open_queue "map" (pose 0 0) (pose 2 0)
    ≡ plan (
        record { px = 0; py = 0 }
        ∷ record { px = 0; py = 0 }
        ∷ record { px = 1; py = 1 }
        ∷ record { px = 2; py = 1 }
        ∷ record { px = 2; py = 0 }
        ∷ [])
unfolding create_plan find_path search expand is_node_valid cell_index hex_neighbors get_heuristic
    finish_search smooth sees walk_parents interpolate num_points segment_from between pick_poses
    smooth_from farthest has_line_of_sight all_sight_valid is_sight_valid fix_ends pop
plan_round_obstacle = refl

abbrev corner : List (Position ℕ)
corner = record { px = 0; py = 0 } ∷ record { px = 0; py = 1 } ∷ record { px = 1; py = 1 } ∷ []

smooth_from_lem_example :
    (l : List ℕ) × (smooth_from (λ p q. p.px == q.px) 3 corner 0 ≡ some l)
    × Hops (λ p q. p.px == q.px) corner 0 l
smooth_from_lem_example =
    smooth_from_lem (λ p q. p.px == q.px) corner 3 0 (omega arith) (omega arith)
