-- ===== src/Planner/Plan.antt =====
-- nav2_custom_planner.cpp, lines 57 to 178: `createPlan`.
pub mod Correct
use Prim.Native.String.{String}
use text.Mathlib.Text.{◌==◌ as str_eq}
use mathlib.Core.List.{reverse}
use robot_nav.Prelude.{
  ℕ, ◌-◌, Bool, true, false, not, ◌||◌, Option, none, some, List, [], ◌∷◌, length, set, ltb,
  if◌then◌else◌,
}
use robot_nav.Planner.Interface.{Real, Costmap, PriorityQueue}
use robot_nav.Planner.Search.{
  AStarNode, compare_node, SearchResult, found, exhausted, bad_index, out_of_fuel, find_path,
}
use robot_nav.Planner.Smooth.{
  LineIterator, has_line_of_sight, Position, Frame, walk_parents, smooth_from, pick_poses,
  interpolate,
}

-- A pose with its frame; orientation and stamp are left out.
pub record PoseStamped (R : Type 0) : Type 0 where
  pub frame_id : String
  pub position : Position R

-- What a call returns or throws; `broken` is a read out of range or a loop that does not end.
pub data PlanResult (R : Type 0) : Type 0 where
  plan : List (Position R) → PlanResult R
  frame_error : PlanResult R
  not_in_map : PlanResult R
  no_path : PlanResult R
  broken : PlanResult R

module _ {R : Type 0} where
  -- `front() = start` and `back() = goal`.
  unfoldable pub fix_ends : Position R → Position R → List (Position R) → List (Position R)
  fix_ends start goal l = set (set l 0 start) (length l - 1) goal

-- The cells of the two poses, where both lie on the map; else those that the variables held.
sight_cells : ℕ × ℕ → Option (ℕ × ℕ) → ℕ × ℕ
sight_cells held none = held
sight_cells held (some c) = c

module _ (r : Real) (m : Costmap) (f : Frame (r.R)) (line : LineIterator) (held : ℕ × ℕ)
    (resolution : r.R) (open_queue : PriorityQueue (compare_node r)) where
  open r use {R}

  unfoldable pub sees : Position R → Position R → Bool
  unfolding sight_cells
  sees p q =
      let (cx, cy) = sight_cells held (f.world_to_map p) in
      let (tx, ty) = sight_cells held (f.world_to_map q) in has_line_of_sight m line cx cy tx ty

  smoothed : List (Position R) → Option (List ℕ) → Option (List (Position R))
  smoothed path none = none
  smoothed path (some l) = some (interpolate r resolution (pick_poses path (0 ∷ l)))

  unfoldable pub smooth : List (Position R) → Option (List (Position R))
  unfolding smoothed
  smooth path =
      if ltb 2 (length path)
      then smoothed path (smooth_from sees (length path) path 0)
      else some path

  finish : Position R → Position R → Option (List (Position R)) → PlanResult R
  finish start goal none = broken
  finish start goal (some l) = plan (fix_ends start goal l)

  unfoldable pub finish_search : Position R → Position R → SearchResult R → PlanResult R
  unfolding finish
  finish_search start goal (found n) = finish start goal (smooth (reverse (walk_parents f n)))
  finish_search start goal exhausted = no_path
  finish_search start goal bad_index = broken
  finish_search start goal out_of_fuel = broken

  plan_between : Position R → Position R → Option (ℕ × ℕ) → Option (ℕ × ℕ) → PlanResult R
  plan_between start goal none b = not_in_map
  plan_between start goal (some (sx, sy)) none = not_in_map
  plan_between start goal (some (sx, sy)) (some (gx, gy)) =
      finish_search start goal (find_path r m gx gy open_queue sx sy)

  unfoldable pub create_plan : String → PoseStamped R → PoseStamped R → PlanResult R
  unfolding plan_between
  create_plan global_frame start goal =
      if not (str_eq start.frame_id global_frame) || not (str_eq goal.frame_id global_frame)
      then frame_error
      else plan_between start.position goal.position (f.world_to_map start.position)
          (f.world_to_map goal.position)
