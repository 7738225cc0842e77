-- ===== src/Planner/Plan/Correct.antt =====
-- Every outcome of `createPlan`.
use Prim.Native.String.{String}
use text.Mathlib.Text.{◌==◌ as str_eq}
use mathlib.Core.List.{reverse, reverse_aux}
use robot_nav.Prelude.{
  ℕ, suc, ◌+◌, ◌-◌, ◌<◌, ◌≡◌, ◌⊎◌, inl, inr, refl, ◌∙◌, false, Option, none, some, List, [], ◌∷◌,
  arith, length, length-append, length-set, get_elem?-set_self, get_elem?, set, ltb, Bool-cases,
}
use robot_nav.Planner.Interface.{Real, Costmap, PriorityQueue}
use robot_nav.Planner.Search.{
  AStarNode, root, child, compare_node, SearchResult, found, exhausted, bad_index, out_of_fuel,
}
use robot_nav.Planner.Search.Cells.{InMap, IsSmall, Reach}
use robot_nav.Planner.Search.Total.{IsCorrect, find_path-IsCorrect}
use robot_nav.Planner.Smooth.{
  LineIterator, Position, Frame, walk_parents, pick_poses, interpolate, segment_from, num_points,
}
use robot_nav.Planner.Smooth.Shortcut.{smooth_from_lem}
use robot_nav.Planner.Plan.{
  PoseStamped, PlanResult, plan, frame_error, not_in_map, no_path, broken, fix_ends, sees, smoothed,
  smooth, finish_search, plan_between, create_plan,
}

module _ {R : Type 0} where
  -- The last pose is the goal, and the first is the start unless there is only one pose.
  abbrev pub Ends : Position R → Position R → List (Position R) → Type 0
  Ends start goal l =
      (get_elem? l (length l - 1) ≡ some goal) × (1 < length l → get_elem? l 0 ≡ some start)

  fix_ends_lem :
      (start goal : Position R) (l : List (Position R))
      → 0 < length l
      → Ends start goal (fix_ends start goal l)
  unfolding fix_ends
  fix_ends_lem start goal [] h = absurd (omega arith)
  fix_ends_lem start goal (p ∷ []) h = (refl, λ k. absurd (omega arith))
  fix_ends_lem start goal (p ∷ q ∷ l) h =
      let e : suc (suc (length l)) - 1 ≡ suc (length l) = omega arith in
      simp (e, length-set (q ∷ l) (length l) goal)
        (get_elem?-set_self (q ∷ l) (length l) goal (omega arith), λ k. refl)

  length-fix_ends :
      (start goal : Position R) (l : List (Position R)) → length (fix_ends start goal l) ≡ length l
  unfolding fix_ends
  length-fix_ends start goal l =
      length-set (set l 0 start) (length l - 1) goal ∙ length-set l 0 start

  reverse_aux_pos :
      (xs ys : List (Position R)) → 0 < length xs + length ys → 0 < length (reverse_aux xs ys)
  reverse_aux_pos [] ys h = omega arith
  reverse_aux_pos (x ∷ xs) ys h = reverse_aux_pos xs (x ∷ ys) (omega arith)

  walk_parents_pos : (f : Frame R) (n : AStarNode R) → 0 < length (reverse (walk_parents f n))
  unfolding walk_parents
  walk_parents_pos f (root x y g h) =
      reverse_aux_pos (walk_parents f (root x y g h)) [] (omega arith)
  walk_parents_pos f (child x y g h p) =
      reverse_aux_pos (walk_parents f (child x y g h p)) [] (omega arith)

interpolate_pos :
    (r : Real) (resolution : r.R) (p : Position r.R) (l : List (Position r.R))
    → 0 < length (interpolate r resolution (p ∷ l))
unfolding interpolate
interpolate_pos r resolution p [] = omega arith
interpolate_pos r resolution p (q ∷ l) = omega (
  arith,
  length-append
      (segment_from r resolution p q (num_points r resolution p q) (num_points r resolution p q) 0)
      (interpolate r resolution (q ∷ l)),
  interpolate_pos r resolution q l,
)

-- What each outcome says of the call.
abbrev pub Outcome :
    {R : Type 0}
    → Costmap
    → Frame R
    → String
    → PoseStamped R
    → PoseStamped R
    → PlanResult R
    → Type 0
Outcome m f global_frame start goal (plan l) = (0 < length l) × Ends start.position goal.position l
Outcome m f global_frame start goal frame_error =
    (str_eq start.frame_id global_frame ≡ false) ⊎ (str_eq goal.frame_id global_frame ≡ false)
Outcome m f global_frame start goal not_in_map =
    (f.world_to_map start.position ≡ none) ⊎ (f.world_to_map goal.position ≡ none)
Outcome m f global_frame start goal no_path =
    (sx : ℕ) × (sy : ℕ) × (gx : ℕ) × (gy : ℕ) × (f.world_to_map start.position ≡ some (sx, sy))
    × (f.world_to_map goal.position ≡ some (gx, gy))
    × (¬ Reach m sx sy gx gy)
Outcome m f global_frame start goal broken = ⊥

module _ (r : Real) (m : Costmap) (f : Frame (r.R)) (line : LineIterator) (held : ℕ × ℕ)
    (resolution : r.R) (open_queue : PriorityQueue (compare_node r)) where
  open r use {R}

  abbrev Smoothed : Option (List (Position R)) → Type 0
  Smoothed o = (l : List (Position R)) × (o ≡ some l) × (0 < length l)

  picked_pos :
      (path : List (Position R)) (js : List ℕ)
      → 0 < length path
      → 0 < length (interpolate r resolution (pick_poses path (0 ∷ js)))
  unfolding pick_poses
  picked_pos [] js h = absurd (omega arith)
  picked_pos (p ∷ path) js h = interpolate_pos r resolution p (pick_poses (p ∷ path) js)

  smooth_total :
      (path : List (Position R))
      → 0 < length path
      → Smoothed (smooth r m f line held resolution open_queue path)
  unfolding smooth smoothed
  smooth_total path h = elim (Bool-cases (ltb 2 (length path))) [
    | inr short ↦ (path, rw short, h)
    | inl long ↦
        let (js, ran, _) =
          smooth_from_lem (sees r m f line held resolution open_queue) path (length path) 0
            (omega arith) h in
        (_, rw (long, ran), picked_pos path js h)
  ]

  module _ (small : IsSmall m)
      (on_map : (p : Position R) (x y : ℕ) → f.world_to_map p ≡ some (x, y) → InMap m x y)
      (global_frame : String) (start goal : PoseStamped R) where
    abbrev Says : PlanResult R → Type 0
    Says = Outcome m f global_frame start goal

    abbrev finished : SearchResult R → PlanResult R
    finished = finish_search r m f line held resolution open_queue start.position goal.position

    found_lem : (n : AStarNode R) → Says (finished (found n))
    unfolding finish_search
    found_lem n =
        let (l, ran, pos) = smooth_total (reverse (walk_parents f n)) (walk_parents_pos f n) in
        rw ran (
          rw (length-fix_ends start.position goal.position l) pos,
          fix_ends_lem start.position goal.position l pos,
        )

    finish_search_lem :
        (sx sy gx gy : ℕ)
        → f.world_to_map start.position ≡ some (sx, sy)
        → f.world_to_map goal.position ≡ some (gx, gy)
        → (s : SearchResult R) → IsCorrect m gx gy sx sy s
        → Says (finished s)
    unfolding finish_search
    finish_search_lem sx sy gx gy at at' (found n) c = found_lem n
    finish_search_lem sx sy gx gy at at' exhausted c = (sx, sy, gx, gy, at, at', c)
    finish_search_lem sx sy gx gy at at' bad_index c = absurd c
    finish_search_lem sx sy gx gy at at' out_of_fuel c = absurd c

    between_lem :
        (a b : Option (ℕ × ℕ))
        → f.world_to_map start.position ≡ a
        → f.world_to_map goal.position ≡ b
        → Says (plan_between r m f line held resolution open_queue start.position goal.position a b)
    unfolding plan_between
    between_lem none b e e' = inl e
    between_lem (some (sx, sy)) none e e' = inr e'
    between_lem (some (sx, sy)) (some (gx, gy)) e e' =
        finish_search_lem sx sy gx gy e e' _
          (find_path-IsCorrect r m gx gy open_queue small sx sy (on_map start.position sx sy e))

    -- On a map of fewer than 2^31 cells, for a costmap that places poses on its own cells only and
    -- an open list that keeps its documented behaviour, the call always ends and reads nothing out
    -- of range. It throws for a wrong frame or a pose off the map only where there is one, throws
    -- that no path was found only where no chain of valid neighbours leads from the start's cell to
    -- the goal's, and else returns a path that is not empty, ends with the goal pose and, if it has
    -- more than one pose, begins with the start pose.
    pub create_plan_correct :
        Outcome m f global_frame start goal
          (create_plan r m f line held resolution open_queue global_frame start goal)
    unfolding create_plan
    create_plan_correct = elim (Bool-cases (str_eq start.frame_id global_frame)) [
      | inr wrong ↦ rw (wrong, create_plan) (inl wrong)
      | inl right ↦ elim (Bool-cases (str_eq goal.frame_id global_frame)) [
        | inr wrong ↦ rw (right, wrong, create_plan) (inr wrong)
        | inl right' ↦ rw (right, right', create_plan) (between_lem _ _ refl refl)
      ]
    ]
