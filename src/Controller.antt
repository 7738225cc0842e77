-- ===== src/Controller.antt =====
-- luckrobot_ws/src/nav2_custom_controller/src/custom_controller.cpp, lines 143 to 166: the pose of the
-- plan that the robot makes for, and the pruning of the poses behind it.
pub mod Target
pub mod Velocity
mod Tests
use robot_nav.Prelude.{
  ℕ, zero, suc, ◌+◌, ◌-◌, Bool, true, false, not, ◌&&◌, Option, none, some, List, [], ◌∷◌, length,
  get_elem?, drop, ltb, ◌==◌, if◌then◌else◌,
}

-- What the code asks of `double` and of poses: the distance of two poses by `std::hypot`, the literals
-- 0.0 and 1e9, the sum, `<` and `>=`.
pub record Distance (P : Type 0) : Type 1 where
  pub R : Type 0
  pub zero_dist : R
  pub far : R
  pub add : R → R → R
  pub lt : R → R → Bool
  pub at_least : R → R → Bool
  pub hypot : P → P → R

module _ {P : Type 0} (d : Distance P) where
  open d use {R, zero_dist, far, add, lt, at_least, hypot}

  -- The first loop, from pose `i` on: the index of the nearest pose.
  unfoldable pub nearest_from : P → List P → ℕ → R → ℕ → ℕ
  nearest_from here [] i min_dist nearest_idx = nearest_idx
  nearest_from here (p ∷ l) i min_dist nearest_idx =
      let dist = hypot p here in
      elim (lt dist min_dist) [
        | true ↦ nearest_from here l (suc i) dist i
        | false ↦ nearest_from here l (suc i) min_dist nearest_idx
      ]

  -- The second loop, on the poses from `i` on: the first index that is far enough along the plan, or
  -- `target_idx` where none is.
  unfoldable pub ahead_from : R → List P → ℕ → R → ℕ → ℕ
  ahead_from lookahead_dist [] i accum_dist target_idx = target_idx
  ahead_from lookahead_dist (p ∷ []) i accum_dist target_idx = target_idx
  ahead_from lookahead_dist (p ∷ q ∷ l) i accum_dist target_idx =
      let accum = add accum_dist (hypot q p) in
      elim (at_least accum lookahead_dist) [
        | true ↦ suc i
        | false ↦ ahead_from lookahead_dist (q ∷ l) (suc i) accum target_idx
      ]

  -- The index before the pruning.
  unfoldable pub target_index : R → List P → ℕ → ℕ
  target_index lookahead_dist poses nearest_idx =
      let target_idx =
        ahead_from lookahead_dist (drop nearest_idx poses) nearest_idx zero_dist nearest_idx in
      if target_idx == nearest_idx && not (length poses == 0) then length poses - 1 else target_idx

  -- `getNearestTargetPose`: the pose, and the plan that is left; `none` for a read out of range.
  unfoldable pub get_nearest_target_pose : R → P → List P → Option P × List P
  get_nearest_target_pose lookahead_dist here poses =
      if ltb (length poses) 2
      then (get_elem? poses (length poses - 1), poses)
      else (let nearest_idx = nearest_from here poses 0 far 0 in
          let target_idx = target_index lookahead_dist poses nearest_idx in
          if ltb 0 nearest_idx
          then (
            get_elem? (drop nearest_idx poses) (target_idx - nearest_idx),
            drop nearest_idx poses,
          )
          else (get_elem? poses target_idx, poses))
