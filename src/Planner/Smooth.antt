-- ===== src/Planner/Smooth.antt =====
-- nav2_custom_planner.cpp, lines 37 to 55 and 123 to 172: from the found node to the path returned.
pub mod Shortcut
use robot_nav.Prelude.{
  ℕ, zero, suc, ◌+◌, ◌-◌, Bool, true, false, Option, none, some, List, [], ◌∷◌, ◌++◌, length,
  get_elem?, set, ltb, leb, ◌==◌, if◌then◌else◌,
}
use Prim.Native.Nat.{max}
use robot_nav.Planner.Interface.{Real, Costmap}
use robot_nav.Planner.Search.{AStarNode, root, child, is_sight_valid}

-- The cells that `nav2_util::LineIterator` visits from one cell to another.
abbrev pub LineIterator : Type 0
LineIterator = ℕ → ℕ → ℕ → ℕ → List (ℕ × ℕ)

module _ (m : Costmap) where
  unfoldable pub all_sight_valid : List (ℕ × ℕ) → Bool
  all_sight_valid [] = true
  all_sight_valid ((x, y) ∷ l) =
      let rest = all_sight_valid l in if is_sight_valid m x y then rest else false

  unfoldable pub has_line_of_sight : LineIterator → ℕ → ℕ → ℕ → ℕ → Bool
  unfolding all_sight_valid
  has_line_of_sight line x0 y0 x1 y1 = all_sight_valid (line x0 y0 x1 y1)

-- The position of a pose; what else a pose holds is copied or set to the same for every pose.
pub record Position (R : Type 0) : Type 0 where
  pub px : R
  pub py : R

-- `mapToWorld` and `worldToMap` of the costmap. Where a position lies outside the map, `worldToMap`
-- leaves the numbers of its caller as they were: `none`.
pub record Frame (R : Type 0) : Type 0 where
  pub map_to_world : ℕ → ℕ → Position R
  pub world_to_map : Position R → Option (ℕ × ℕ)

-- The loop over the parents: one pose for each node, the last node first.
unfoldable pub walk_parents : {R : Type 0} → Frame R → AStarNode R → List (Position R)
walk_parents f (root x y g h) = f.map_to_world x y ∷ []
walk_parents f (child x y g h p) = f.map_to_world x y ∷ walk_parents f p

module _ {R : Type 0} (sight : Position R → Position R → Bool) where
  -- The inner loop: from `target` down, the farthest pose that can be seen from `current`; `next` is
  -- the result where none is seen. `rounds` is `target - current`.
  unfoldable pub farthest : List (Position R) → Position R → ℕ → ℕ → ℕ → Option ℕ
  farthest path here zero target next = some next
  farthest path here (suc rounds) target next =
      let lower = farthest path here rounds (target - 1) next in
      elim (get_elem? path target) [
        | none ↦ none
        | some p ↦ if sight here p then some target else lower
      ]

  -- The outer loop, on fuel: the indices of the poses that are kept after `current`; `none` where a
  -- read is out of range or the fuel is used up.
  unfoldable pub smooth_from : ℕ → List (Position R) → ℕ → Option (List ℕ)
  smooth_from zero path current = none
  smooth_from (suc fuel) path current = elim (ltb current (length path - 1)) [
    | false ↦ some []
    | true ↦ elim (get_elem? path current) [
      | none ↦ none
      | some here ↦
          elim (farthest path here (length path - 1 - current) (length path - 1) (current + 1)) [
            | none ↦ none
            | some next ↦ elim (smooth_from fuel path next) [
              | none ↦ none
              | some l ↦ some (next ∷ l)
            ]
          ]
    ]
  ]

-- The poses at the indices kept.
unfoldable pub pick_poses : {R : Type 0} → List (Position R) → List ℕ → List (Position R)
pick_poses path [] = []
pick_poses path (i ∷ l) =
    let rest = pick_poses path l in elim (get_elem? path i) [ none ↦ rest | some p ↦ p ∷ rest ]

module _ (r : Real) (resolution : r.R) where
  open r use {R, of_ℕ, add, sub, mul, div, hypot, ceil_int}

  -- `ceil_int` is `static_cast<int>(std::ceil(x))` cut off at 0, which the maximum with 1 hides.
  unfoldable pub num_points : Position R → Position R → ℕ
  num_points p q = max 1 (ceil_int (div (hypot (sub q.px p.px) (sub q.py p.py)) resolution))

  unfoldable pub between : Position R → Position R → ℕ → ℕ → Position R
  between p q n j = record {
    px = add p.px (div (mul (of_ℕ j) (sub q.px p.px)) (of_ℕ n));
    py = add p.py (div (mul (of_ℕ j) (sub q.py p.py)) (of_ℕ n));
  }

  -- The points `j` to `j + rounds - 1` of a segment.
  unfoldable pub segment_from : Position R → Position R → ℕ → ℕ → ℕ → List (Position R)
  unfolding between
  segment_from p q n zero j = []
  segment_from p q n (suc rounds) j = between p q n j ∷ segment_from p q n rounds (j + 1)

  unfoldable pub interpolate : List (Position R) → List (Position R)
  unfolding num_points segment_from
  interpolate [] = []
  interpolate (p ∷ []) = p ∷ []
  interpolate (p ∷ q ∷ l) = let n = num_points p q in segment_from p q n n 0 ++ interpolate (q ∷ l)
